-- ===== src/Dav/Upload/Block.antt =====
-- The block of `sr_copy_until_boundary` of dav-bridge/src/dav-bridge.c that writes a part of the
-- buffer, and one turn of the function's loop.
use mathlib.Core.List.{append_assoc}
use openwrt_demo.Prelude.{
  ℕ, suc, ◌+◌, ◌-◌, ◌≤◌, ◌<◌, ◌≡◌, refl, sym, ap, ap₂, subst, ◌∙◌, Bool, true, false, Option, none,
  some, List, [], ◌++◌, inl, inr, ltb, ◌==◌, Bool-cases, arith, length, take, drop, length-drop,
  drop-drop, drop-append-le, append_nil, ◌||◌,
}
use openwrt_demo.Proto.Http.Find.{Finds, find_from-Finds}
use openwrt_demo.Dav.Reader.{Reader, window, sr_peek}
use openwrt_demo.Dav.Reader.Peek.{unread, IsReader, joined}
use openwrt_demo.Dav.Upload.{
  find_bytes, CopyStatus, copied, malformed, too_large, Sink, hash_more, put_window, finished,
  go_on, after_block, after_search, after_peek, copy_turn, copy_loop,
}

-- the reader `n` bytes further on
abbrev pub advance : ℕ → Reader → Reader
advance n r = record { buf = r.buf; pos = r.pos + n; input = r.input }

-- the file and the hash with `n` bytes behind them
abbrev pub grow : Sink → ℕ → List ℕ → Sink
grow s n bytes = record {
  file = s.file ++ bytes;
  total = s.total + n;
  hashed = hash_more s.hashed bytes;
}

pub unread-advance :
    (n : ℕ) (r : Reader) → n ≤ length (window r) → unread (advance n r) ≡ drop n (unread r)
unread-advance n r h =
    ap (λ w. w ++ joined r.input) (sym (drop-drop r.pos n (r.pos + n) r.buf refl))
    ∙ sym (drop-append-le n (window r) (joined r.input) h)

pub IsReader-advance :
    (n : ℕ) (r : Reader) → IsReader r → n ≤ length (window r) → IsReader (advance n r)
unfolding IsReader
IsReader-advance n r (within, fits, good) h =
    (omega (arith, length-drop r.pos r.buf, h, within), fits, good)

pub hash_more-nil : (h : Option (List ℕ)) → hash_more h [] ≡ h
unfolding hash_more
hash_more-nil none = refl
hash_more-nil (some before) = ap some (append_nil before)

pub hash_more-append :
    (h : Option (List ℕ)) (a b : List ℕ) → hash_more (hash_more h a) b ≡ hash_more h (a ++ b)
unfolding hash_more
hash_more-append none a b = refl
hash_more-append (some before) a b = ap some (append_assoc before a b)

pub same_sink :
    (f g : List ℕ) (m n : ℕ) (h k : Option (List ℕ))
    → f ≡ g
    → m ≡ n
    → h ≡ k
    → record { file = f; total = m; hashed = h }
      ≡ (let s : Sink = record { file = g; total = n; hashed = k } in s)
same_sink f g m n h k e e' e'' = cc

pub grow-nil : (s : Sink) → grow s 0 [] ≡ s
grow-nil s =
    same_sink (s.file ++ []) s.file (s.total + 0) s.total (hash_more s.hashed []) s.hashed
      (append_nil s.file) (omega arith) (hash_more-nil s.hashed)

pub grow-grow :
    (s : Sink) (m n k : ℕ) (a b : List ℕ) → k ≡ m + n → grow (grow s m a) n b ≡ grow s k (a ++ b)
grow-grow s m n k a b e =
    same_sink ((s.file ++ a) ++ b) (s.file ++ (a ++ b)) (s.total + m + n) (s.total + k)
      (hash_more (hash_more s.hashed a) b) (hash_more s.hashed (a ++ b)) (append_assoc s.file a b)
      (omega (arith, e)) (hash_more-append s.hashed a b)

pub advance-zero : (r : Reader) → advance 0 r ≡ r
advance-zero r =
    let e : r.pos + 0 ≡ r.pos = omega arith in
    ap (λ p. record { buf = r.buf; pos = p; input = r.input }) e

pub find_bytes-Finds :
    (r : Reader) (pat : List ℕ)
    → IsReader r
    → 0 < length pat
    → length pat ≤ length (window r)
    → Finds (window r) pat r.pos (find_bytes r.buf r.pos pat)
unfolding find_bytes IsReader
find_bytes-Finds r pat wf pos long =
    let w = length-drop r.pos r.buf in
    let fits : (ltb (length r.buf) r.pos
          || length pat == 0
          || ltb (length r.buf - r.pos) (length pat))
        ≡ false =
      ground (arith, w, wf, long, pos) in
    rw fits (find_from-Finds (window r) pat r.pos pos)

module _ (fwrite : List ℕ → List ℕ → Bool) (max : ℕ)
    (writes : (f b : List ℕ) → fwrite f b ≡ true) where
  pub put_window-copied :
      (n : ℕ) (r : Reader) (s : Sink)
      → s.total + n ≤ max
      → put_window fwrite max n r s ≡ (copied, advance n r, grow s n (take n (window r)))
  unfolding put_window
  put_window-copied n r s h = elim (Bool-cases (n == 0)) [
    | inl none_left ↦
        let e : 0 ≡ n = ground arith in
        subst
          (λ m. put_window fwrite max m r s ≡ (copied, advance m r, grow s m (take m (window r)))) e
          (sym (ap₂ (λ t u. (copied, t, u)) (advance-zero r) (grow-nil s)))
    | inr some_left ↦
        let below : ltb max (s.total + n) ≡ false = ground arith in
        rw some_left (rw (writes s.file (take n (window r))) (rw below refl))
  ]

  pub put_window-too_large :
      (n : ℕ) (r : Reader) (s : Sink)
      → s.total ≤ max
      → max < s.total + n
      → (put_window fwrite max n r s).0 ≡ too_large
  unfolding put_window
  put_window-too_large n r s h above =
      let some_left : (n == 0) ≡ false = ground arith in
      let over : ltb max (s.total + n) ≡ true = ground arith in
      rw some_left (rw (writes s.file (take n (window r))) (rw over refl))

  module _ (pat : List ℕ) (r r1 : Reader) (s : Sink) where
    pub copy_turn-end :
        sr_peek (length pat) r ≡ (false, r1)
        → copy_turn fwrite max pat r s ≡ finished (malformed, r1, s)
    unfolding copy_turn after_peek
    copy_turn-end e = ap (λ p. after_peek fwrite max pat p.0 p.1 s) e

    pub copy_turn-there :
        (found : Option ℕ)
        → sr_peek (length pat) r ≡ (true, r1)
        → find_bytes r1.buf r1.pos pat ≡ found
        → copy_turn fwrite max pat r s ≡ after_search fwrite max pat found r1 s
    unfolding copy_turn after_peek
    copy_turn-there found e f =
        ap (λ p. after_peek fwrite max pat p.0 p.1 s) e
        ∙ ap (λ o. after_search fwrite max pat o r1 s) f

    pub copy_turn-window :
        (res : CopyStatus × Reader × Sink)
        → sr_peek (length pat) r ≡ (true, r1)
        → find_bytes r1.buf r1.pos pat ≡ none
        → put_window fwrite max (length (window r1) - (length pat - 1)) r1 s ≡ res
        → copy_turn fwrite max pat r s ≡ after_block fwrite max res.0 res.1 res.2
    unfolding after_search
    copy_turn-window res e f p =
        copy_turn-there none e f ∙ ap (λ q. after_block fwrite max q.0 q.1 q.2) p

    pub copy_turn-found :
        (k : ℕ)
        → sr_peek (length pat) r ≡ (true, r1)
        → find_bytes r1.buf r1.pos pat ≡ some (r1.pos + k)
        → copy_turn fwrite max pat r s ≡ finished (put_window fwrite max k r1 s)
    unfolding after_search
    copy_turn-found k e f =
        let same : r1.pos + k - r1.pos ≡ k = omega arith in
        copy_turn-there (some (r1.pos + k)) e f
        ∙ ap (λ n. finished (put_window fwrite max n r1 s)) same

  module _ (fuel : ℕ) (pat : List ℕ) (r : Reader) (s : Sink) where
    pub copy_loop-finished :
        (res : CopyStatus × Reader × Sink)
        → copy_turn fwrite max pat r s ≡ finished res
        → copy_loop fwrite max (suc fuel) pat r s ≡ res
    unfolding copy_loop
    copy_loop-finished res e =
        ap (λ t. elim t [ finished a ↦ a | go_on r' s' ↦ copy_loop fwrite max fuel pat r' s' ]) e

    pub copy_loop-go_on :
        (r' : Reader) (s' : Sink)
        → copy_turn fwrite max pat r s ≡ go_on r' s'
        → copy_loop fwrite max (suc fuel) pat r s ≡ copy_loop fwrite max fuel pat r' s'
    unfolding copy_loop
    copy_loop-go_on r' s' e =
        ap (λ t. elim t [ finished a ↦ a | go_on r' s' ↦ copy_loop fwrite max fuel pat r' s' ]) e
