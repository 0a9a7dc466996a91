-- ===== src/Dav/Reader/Peek.antt =====
-- What `sr_peek` of dav-bridge/src/dav-bridge.c keeps and what it promises.
use openwrt_demo.Prelude.{
  not-false, ℕ, zero, suc, ◌-◌, ◌≤◌, ◌<◌, ◌≡◌, refl, sym, ap, subst, ◌∙◌, Bool, true, false, not,
  List, [], ◌∷◌, ◌++◌, inl, inr, ltb, leb, ◌==◌, Bool-cases, arith, length, take, drop, All,
  length-append, length-drop, length-take, leb→gt, append_nil, append-take-drop,
}
use mathlib.Core.List.{append_assoc}
use openwrt_demo.Dav.Reader.{
  Reader, window, fread, is_empty, shift, refill, peek_loop, sr_peek, chunk_size,
}

-- the bytes that standard input still has
unfoldable pub joined : List (List ℕ) → List ℕ
joined [] = []
joined (piece ∷ pieces) = piece ++ joined pieces

-- the bytes that have not been consumed
abbrev pub unread : Reader → List ℕ
unread r = window r ++ joined r.input

-- `pos` and `len` are within the buffer, and `fread` returns 0 at the end of the input only
unfoldable pub IsReader : Reader → Type 0
IsReader r = (r.pos ≤ length r.buf) × (length r.buf ≤ chunk_size) × All (λ p. 0 < length p) r.input

is_empty-take : (n x : ℕ) (xs : List ℕ) → 0 < n → is_empty (take n (x ∷ xs)) ≡ false
is_empty-take zero x xs h = absurd (omega arith)
is_empty-take (suc n) x xs h = refl

-- What `fread` returns: the next bytes, as many as it was asked for at most, and some unless the
-- input is at its end.
pub fread-lem :
    (n : ℕ) (pieces : List (List ℕ))
    → 0 < n
    → All (λ p. 0 < length p) pieces
    → ((fread n pieces).0 ++ joined (fread n pieces).1 ≡ joined pieces)
      × (length (fread n pieces).0 ≤ n)
      × All (λ p. 0 < length p) (fread n pieces).1
      × (is_empty (fread n pieces).0 ≡ true → joined pieces ≡ [])
unfolding fread joined
fread-lem n [] h all = (refl, omega arith, tt, λ e. refl)
fread-lem n ([] ∷ pieces) h all = absurd (omega (arith, all.0))
fread-lem n ((x ∷ xs) ∷ pieces) h all = elim (Bool-cases (leb (length (x ∷ xs)) n)) [
  | inl whole ↦ rw whole (refl, ground arith, all.1, λ e. cc)
  | inr part ↦
      let piece = x ∷ xs in
      let shorter : n < length piece = leb→gt (length piece) n part in
      rw part (
        sym (append_assoc (take n piece) (drop n piece) (joined pieces))
            ∙ ap (λ t. t ++ joined pieces) (append-take-drop n piece),
        omega (arith, length-take n piece),
        (omega (arith, length-drop n piece, shorter), all.1),
        λ e. let full = is_empty-take n x xs h in cc,
      )
]

-- the reader after the shift
abbrev shifted : Reader → Reader
shifted r = record { buf = window r; pos = 0; input = r.input }

shift-lem : (r : Reader) → shift r ≡ shifted r
shift-lem r = elim (Bool-cases (ltb 0 r.pos)) [
  | inl moved ↦ rw moved refl
  | inr at_start ↦
      let e : r.pos ≡ 0 = ground arith in
      rw at_start (
        ap (λ p. record { buf = r.buf; pos = p; input = r.input }) e
        ∙ ap (λ p. record { buf = drop p r.buf; pos = 0; input = r.input }) (sym e))
]

length-window : (r : Reader) → length (window r) ≡ length r.buf - r.pos
length-window r = length-drop r.pos r.buf

-- what a turn that could not give `n` bytes does
abbrev Refilled : Reader → Bool × Reader → Type 0
Refilled r (more, s) =
    (unread s ≡ unread r)
    × IsReader s
    × (more ≡ true → length (window r) < length (window s))
    × (more ≡ false → unread r ≡ window r)

nonempty : (xs : List ℕ) → not (is_empty xs) ≡ true → 0 < length xs
nonempty [] e = cc
nonempty (x ∷ xs) e = omega arith

refill-Refilled :
    (r : Reader) → IsReader r → length (window r) < chunk_size → Refilled r (refill (shifted r))
unfolding refill IsReader
refill-Refilled r wf room =
    let w = window r in
    let k = chunk_size - length w in
    let (same, most, good, none_left) = fread-lem k r.input (omega (arith, room)) wf.2 in
    let other : (length w == chunk_size) ≡ false = ground (arith, room) in
    let long = length-append w (fread k r.input).0 in
    rw other (
      append_assoc w (fread k r.input).0 (joined (fread k r.input).1) ∙ ap (λ t. w ++ t) same,
      (omega arith, omega (arith, long, most, room), good),
      λ e. omega (arith, long, nonempty (fread k r.input).0 e),
      λ e. ap (λ t. w ++ t) (none_left (not-false (is_empty (fread k r.input).0) e)) ∙ append_nil w,
    )

peek_loop-there :
    (fuel n : ℕ) (r : Reader)
    → ltb (length r.buf - r.pos) n ≡ false
    → peek_loop (suc fuel) n r ≡ (true, r)
unfolding peek_loop
peek_loop-there fuel n r h = rw (h, peek_loop) refl

peek_loop-turn :
    (fuel n : ℕ) (r s : Reader) (more : Bool)
    → ltb (length r.buf - r.pos) n ≡ true
    → refill (shifted r) ≡ (more, s)
    → peek_loop (suc fuel) n r ≡ elim more [ false ↦ (false, s) | true ↦ peek_loop fuel n s ]
unfolding peek_loop
peek_loop-turn fuel n r s more h e =
    rw (h, peek_loop)
      (ap (λ t. elim t.0 [ false ↦ (false, t.1) | true ↦ peek_loop fuel n t.1 ])
        (ap refill (shift-lem r) ∙ e))

-- what `sr_peek` answers for `n` bytes
abbrev pub Peeked : ℕ → Reader → Bool × Reader → Type 0
Peeked n r (ok, s) =
    (unread s ≡ unread r)
    × IsReader s
    × (ok ≡ true → n ≤ length (window s))
    × (ok ≡ false → length (unread r) < n)

peek_loop-next :
    (fuel n : ℕ) (r s : Reader) (more : Bool)
    → ((t : Reader) → IsReader t → n - length (window t) < fuel → Peeked n t (peek_loop fuel n t))
    → length (window r) < n
    → n - length (window r) < suc fuel
    → Refilled r (more, s)
    → Peeked n r (elim more [ false ↦ (false, s) | true ↦ peek_loop fuel n s ])
peek_loop-next fuel n r s true rest short enough (same, wf, grows, end) =
    let (same', wf', there, not_there) = rest s wf (omega (arith, grows refl)) in
    (same' ∙ same, wf', there, λ e. omega (arith, not_there e, ap length same))
peek_loop-next fuel n r s false rest short enough (same, wf, grows, end) =
    (same, wf, λ e. cc, λ e. omega (arith, ap length (end refl), short))

peek_loop-Peeked :
    (fuel n : ℕ) (r : Reader)
    → IsReader r
    → n ≤ chunk_size
    → n - length (window r) < fuel
    → Peeked n r (peek_loop fuel n r)
peek_loop-Peeked zero n r wf le enough = absurd (omega arith)
peek_loop-Peeked (suc fuel) n r wf le enough =
    let long = length-window r in
    elim (Bool-cases (ltb (length r.buf - r.pos) n)) [
      | inr there ↦
          subst (Peeked n r) (sym (peek_loop-there fuel n r there))
            (refl, wf, λ e. ground arith, λ e. cc)
      | inl short ↦
          let (more, s) = refill (shifted r) in
          let lt : length (window r) < n = ground arith in
          subst (Peeked n r) (sym (peek_loop-turn fuel n r s more short refl)) (
            peek_loop-next fuel n r s more (λ t wf'. peek_loop-Peeked fuel n t wf' le) lt enough
              (refill-Refilled r wf (omega (arith, lt, le))))
    ]

-- `sr_peek` consumes nothing; it answers 0 when the next `n` bytes are in the buffer, and -1 only
-- when fewer than `n` bytes are left to read.
pub sr_peek-Peeked : (n : ℕ) (r : Reader) → IsReader r → n ≤ chunk_size → Peeked n r (sr_peek n r)
unfolding sr_peek
sr_peek-Peeked n r wf le = peek_loop-Peeked (suc n) n r wf le (omega arith)
