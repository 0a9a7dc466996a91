-- ===== src/Dav/Upload/Copy.antt =====
-- What `sr_copy_until_boundary` of dav-bridge/src/dav-bridge.c writes, however the bytes arrive.
use openwrt_demo.Prelude.{
  ℕ, zero, suc, ◌+◌, ◌-◌, ◌≤◌, ◌<◌, ◌≡◌, refl, sym, ap, subst, ◌∙◌, Bool, true, false, Option, none,
  some, List, ◌++◌, inl, inr, leb, Bool-cases, arith, length, take, drop, length-append,
  length-drop, drop-drop, take-append-le, take_split,
}
use openwrt_demo.Proto.Http.{starts_with}
use openwrt_demo.Proto.Http.Find.{Finds}
use openwrt_demo.Dav.Reader.{Reader, window, sr_peek, chunk_size}
use openwrt_demo.Dav.Reader.Peek.{unread, IsReader, sr_peek-Peeked, joined}
use openwrt_demo.Dav.Upload.{
  find_bytes, CopyStatus, copied, too_large, Sink, put_window, after_block, copy_loop,
  sr_copy_until_boundary,
}
use openwrt_demo.Dav.Upload.First.{IsFirst, starts_with→length, first-window, first-later}
use openwrt_demo.Dav.Upload.Block.{
  advance, grow, unread-advance, IsReader-advance, grow-grow, find_bytes-Finds, put_window-copied,
  put_window-too_large, copy_turn-window, copy_turn-found, copy_loop-finished, copy_loop-go_on,
}

module _ (fwrite : List ℕ → List ℕ → Bool) (max : ℕ)
    (writes : (f b : List ℕ) → fwrite f b ≡ true) where
  -- what the copy does whose pattern is at `i`
  abbrev pub Copied : ℕ → Reader → Sink → CopyStatus × Reader × Sink → Type 0
  Copied i r s (status, r', s') =
      (s.total + i ≤ max
        → (status ≡ copied) × (unread r' ≡ drop i (unread r)) × (s' ≡ grow s i (take i (unread r))))
      × (max < s.total + i → status ≡ too_large)

  put_window-Copied :
      (i : ℕ) (r r1 : Reader) (s : Sink)
      → unread r1 ≡ unread r
      → i ≤ length (window r1)
      → s.total ≤ max
      → Copied i r s (put_window fwrite max i r1 s)
  put_window-Copied i r r1 s same le below = (
    λ fits.
        let e = put_window-copied fwrite max writes i r1 s fits in
        let bytes = take-append-le i (window r1) (joined r1.input) le in
        (
          ap (λ p. p.0) e,
          ap (λ p. unread p.1) e ∙ unread-advance i r1 le ∙ ap (drop i) same,
          ap (λ p. p.2) e ∙ ap (grow s i) (sym bytes ∙ ap (take i) same),
        ),
    put_window-too_large fwrite max writes i r1 s below,
  )

  -- After a turn that wrote `n` bytes, the rest of the copy is that of the bytes behind them.
  Copied-further :
      (n k i : ℕ) (r r1 : Reader) (s : Sink) (res : CopyStatus × Reader × Sink)
      → i ≡ n + k
      → unread r1 ≡ drop n (unread r)
      → Copied k r1 (grow s n (take n (unread r))) res
      → Copied i r s res
  Copied-further n k i r r1 s res e same (fits, over) = (
    λ h.
        let (ok, rest, sink) = fits (omega (arith, h, e)) in
        (
          ok,
          rest ∙ ap (drop k) same ∙ drop-drop n k i (unread r) e,
          sink
              ∙ grow-grow s n k i (take n (unread r)) (take k (unread r1)) e
              ∙ ap (grow s i) (
                  ap (λ b. take n (unread r) ++ take k b) same
                  ∙ sym (take_split n k i (unread r) e)),
        ),
    λ h. over (omega (arith, h, e)),
  )

  IsFirst-drop :
      (pat bytes : List ℕ) (n i k : ℕ)
      → i ≡ n + k
      → IsFirst pat bytes i
      → IsFirst pat (drop n bytes) k
  IsFirst-drop pat bytes n i k e (here, before) = (
    ap (starts_with pat) (drop-drop n k i bytes e) ∙ here,
    λ j lt.
        ap (starts_with pat) (drop-drop n j (n + j) bytes refl)
        ∙ before (n + j) (omega (arith, e, lt)),
  )

  -- One turn that has the pattern's length in its window, where the loop does the rest of the copy.
  module _ (fuel : ℕ) (pat : List ℕ) (i : ℕ) (r r1 : Reader) (s : Sink)
      (rest : (k : ℕ) (t : Reader) (u : Sink)
        → IsReader t
        → IsFirst pat (unread t) k
        → u.total ≤ max
        → length (unread t) < fuel
        → Copied k t u (copy_loop fwrite max fuel pat t u))
      (pos : 0 < length pat) (first : IsFirst pat (unread r) i) (below : s.total ≤ max)
      (enough : length (unread r) < suc fuel) (e : sr_peek (length pat) r ≡ (true, r1))
      (same : unread r1 ≡ unread r) (wf : IsReader r1)
      (long : length pat ≤ length (window r1)) where
    copy_loop-fits :
        find_bytes r1.buf r1.pos pat ≡ none
        → length (window r1) - (length pat - 1) ≤ i
        → s.total + (length (window r1) - (length pat - 1)) ≤ max
        → Copied i r s (copy_loop fwrite max (suc fuel) pat r s)
    unfolding after_block
    copy_loop-fits f later room =
        let n = length (window r1) - (length pat - 1) in
        let le : n ≤ length (window r1) = omega (arith, pos, long) in
        let some_bytes : 0 < n = omega (arith, pos, long) in
        let bytes : take n (window r1) ≡ take n (unread r) =
          sym (take-append-le n (window r1) (joined r1.input) le) ∙ ap (take n) same in
        let written =
          put_window-copied fwrite max writes n r1 s room
          ∙ ap (λ b. (copied, advance n r1, grow s n b)) bytes in
        let turn =
          copy_turn-window fwrite max writes pat r r1 s
            (copied, advance n r1, grow s n (take n (unread r))) e f written in
        let moved : unread (advance n r1) ≡ drop n (unread r) =
          unread-advance n r1 le ∙ ap (drop n) same in
        let whole : length (window r1) ≤ length (unread r1) =
          omega (arith, length-append (window r1) (joined r1.input)) in
        let shorter : length (unread (advance n r1)) < fuel = omega (
          arith,
          ap length moved,
          length-drop n (unread r),
          enough,
          some_bytes,
          ap length same,
          whole,
          le,
        ) in
        subst (Copied i r s)
          (sym (
            copy_loop-go_on fwrite max writes fuel pat r s (advance n r1)
              (grow s n (take n (unread r))) turn))
          (Copied-further n (i - n) i r (advance n r1) s
            (copy_loop fwrite max fuel pat (advance n r1) (grow s n (take n (unread r))))
            (omega (arith, later)) moved
            (rest (i - n) (advance n r1) (grow s n (take n (unread r)))
              (IsReader-advance n r1 wf le)
              (subst (λ b. IsFirst pat b (i - n)) (sym moved)
                (IsFirst-drop pat (unread r) n i (i - n) (omega (arith, later)) first))
              room shorter))

    copy_loop-window :
        find_bytes r1.buf r1.pos pat ≡ none
        → ((j : ℕ) → starts_with pat (drop j (window r1)) ≡ false)
        → Copied i r s (copy_loop fwrite max (suc fuel) pat r s)
    unfolding after_block
    copy_loop-window f nowhere =
        let n = length (window r1) - (length pat - 1) in
        let first1 : IsFirst pat (unread r1) i = subst (λ b. IsFirst pat b i) (sym same) first in
        let later : n ≤ i = first-later pat (window r1) (joined r1.input) i pos first1 nowhere in
        elim (Bool-cases (leb (s.total + n) max)) [
          | inl fits ↦ copy_loop-fits f later (ground arith)
          | inr over ↦
              let above : max < s.total + n = ground arith in
              let res = put_window fwrite max n r1 s in
              let status = put_window-too_large fwrite max writes n r1 s below above in
              let turn =
                copy_turn-window fwrite max writes pat r r1 s res e f refl
                ∙ ap (λ st. after_block fwrite max st res.1 res.2) status in
              subst (Copied i r s)
                (sym (
                  copy_loop-finished fwrite max writes fuel pat r s (too_large, res.1, res.2) turn))
                (λ h. absurd (omega (arith, h, above, later)), λ h. refl)
        ]

    copy_loop-peeked :
        (found : Option ℕ)
        → find_bytes r1.buf r1.pos pat ≡ found
        → Finds (window r1) pat r1.pos found
        → Copied i r s (copy_loop fwrite max (suc fuel) pat r s)
    copy_loop-peeked none f nowhere = copy_loop-window f nowhere
    copy_loop-peeked (some found) f (k, at, there, before) =
        let first1 : IsFirst pat (unread r1) i = subst (λ b. IsFirst pat b i) (sym same) first in
        let here : i ≡ k =
          first-window pat (window r1) (joined r1.input) i k pos first1 (there, before) in
        let fits = starts_with→length pat (drop k (window r1)) there in
        let place : found ≡ r1.pos + i = omega (arith, at, here) in
        let turn = copy_turn-found fwrite max writes pat r r1 s i e (f ∙ ap some place) in
        subst (Copied i r s) (sym (copy_loop-finished fwrite max writes fuel pat r s _ turn)) (
          put_window-Copied i r r1 s same
            (omega (arith, fits, length-drop k (window r1), pos, here)) below)

  pub copy_loop-Copied :
      (fuel : ℕ) (pat : List ℕ) (i : ℕ) (r : Reader) (s : Sink)
      → 0 < length pat
      → length pat ≤ chunk_size
      → IsReader r
      → IsFirst pat (unread r) i
      → s.total ≤ max
      → length (unread r) < fuel
      → Copied i r s (copy_loop fwrite max fuel pat r s)
  copy_loop-Copied zero pat i r s pos le wf first below enough = absurd (omega arith)
  copy_loop-Copied (suc fuel) pat i r s pos le wf first below enough =
      let (ok, r1) = sr_peek (length pat) r in
      let (same, wf1, there, not_there) = sr_peek-Peeked (length pat) r wf le in
      let stands = starts_with→length pat (drop i (unread r)) first.0 in
      elim (Bool-cases ok) [
        | inl ready ↦
            let long = there ready in
            copy_loop-peeked fuel pat i r r1 s
              (λ k t u wf' first' below' enough'.
                copy_loop-Copied fuel pat k t u pos le wf' first' below' enough')
              pos first below enough (ap (λ b. (b, r1)) ready) same wf1 long
              (find_bytes r1.buf r1.pos pat) refl (find_bytes-Finds r1 pat wf1 pos long)
        | inr not_ok ↦ absurd (omega (arith, not_there not_ok, stands, length-drop i (unread r)))
      ]

module _ (fwrite : List ℕ → List ℕ → Bool) (max : ℕ) (writes : (f b : List ℕ) → fwrite f b ≡ true)
    (pat : List ℕ) (i : ℕ) (r : Reader) (s : Sink) (pos : 0 < length pat)
    (le : length pat ≤ chunk_size) (wf : IsReader r) (first : IsFirst pat (unread r) i) where
  -- Whatever pieces the bytes of the request arrive in, if the terminator's first place in them is
  -- `i`, the disk takes what is written and the file stays within the limit, then
  -- `sr_copy_until_boundary` returns 0, writes and hashes exactly the `i` bytes in front of the
  -- terminator, adds `i` to the total, and leaves the reader at the terminator.
  sr_copy_until_boundary-grow :
      s.total + i ≤ max
      → ((sr_copy_until_boundary fwrite max (length (unread r)) pat r s).0 ≡ copied)
        × (unread (sr_copy_until_boundary fwrite max (length (unread r)) pat r s).1
            ≡ drop i (unread r))
        × ((sr_copy_until_boundary fwrite max (length (unread r)) pat r s).2
            ≡ grow s i (take i (unread r)))
  unfolding sr_copy_until_boundary
  sr_copy_until_boundary-grow fits =
      (copy_loop-Copied fwrite max writes (suc (length (unread r))) pat i r s pos le wf first
          (omega (arith, fits)) (omega arith)).0
        fits

  -- If the file would go over the limit, it returns -3.
  sr_copy_until_boundary-too_large :
      s.total ≤ max
      → max < s.total + i
      → (sr_copy_until_boundary fwrite max (length (unread r)) pat r s).0 ≡ too_large
  unfolding sr_copy_until_boundary
  sr_copy_until_boundary-too_large below over =
      (copy_loop-Copied fwrite max writes (suc (length (unread r))) pat i r s pos le wf first below
          (omega arith)).1
        over
