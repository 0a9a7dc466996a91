-- ===== src/Vad/Sort.antt =====
-- The insertion sort of the calibration sorts, so the baseline is a median of the noise.
use mathlib.Core.List.{reverse, Perm, perm_middle, reverse-append, reverse_perm, append-nil}
use mathlib.Core.List.Perm
use openwrt_demo.Prelude.{
  ℕ, ◌≤◌, List, [], ◌∷◌, ◌++◌, inl, inr, ltb, Bool-cases, arith, ltb→lt, ltb→ge, All,
}
use openwrt_demo.Vad.{shift_in, sort_onto, sort_noise}

-- From the greatest to the least.
abbrev pub Descends : List ℕ → Type 0
Descends [] = Unit {0}
Descends (x ∷ xs) = All (λ y. y ≤ x) xs × Descends xs

All-le : (a b : ℕ) (xs : List ℕ) → a ≤ b → All (λ y. y ≤ a) xs → All (λ y. y ≤ b) xs
All-le a b [] h p = tt
All-le a b (x ∷ xs) h p = (omega (arith, p.0), All-le a b xs h p.1)

shift_in-All :
    (key m : ℕ) (xs : List ℕ) → key ≤ m → All (λ y. y ≤ m) xs → All (λ y. y ≤ m) (shift_in key xs)
unfolding shift_in
shift_in-All key m [] h p = (h, tt)
shift_in-All key m (x ∷ xs) h p = elim (Bool-cases (ltb key x)) [
  | inl lt ↦ rw lt (p.0, shift_in-All key m xs h p.1)
  | inr ge ↦ rw ge (h, p)
]

shift_in-Descends : (key : ℕ) (xs : List ℕ) → Descends xs → Descends (shift_in key xs)
unfolding shift_in
shift_in-Descends key [] d = (tt, tt)
shift_in-Descends key (x ∷ xs) d = elim (Bool-cases (ltb key x)) [
  | inl lt ↦
      rw lt (shift_in-All key x xs (omega (arith, ltb→lt _ _ lt)) d.0, shift_in-Descends key xs d.1)
  | inr ge ↦ rw ge ((ltb→ge _ _ ge, All-le x key xs (ltb→ge _ _ ge) d.0), d)
]

shift_in-perm : (key : ℕ) (xs : List ℕ) → Perm (shift_in key xs) (key ∷ xs)
unfolding shift_in
shift_in-perm key [] = Perm.refl (key ∷ [])
shift_in-perm key (x ∷ xs) = elim (Bool-cases (ltb key x)) [
  | inl lt ↦ rw lt (Perm.trans (Perm.cons x (shift_in-perm key xs)) (Perm.swap key x xs))
  | inr ge ↦ rw ge (Perm.refl (key ∷ x ∷ xs))
]

sort_onto-Descends : (xs sorted : List ℕ) → Descends sorted → Descends (sort_onto sorted xs)
unfolding sort_onto
sort_onto-Descends [] sorted d = d
sort_onto-Descends (x ∷ xs) sorted d =
    sort_onto-Descends xs (shift_in x sorted) (shift_in-Descends x sorted d)

sort_onto-perm : (xs sorted : List ℕ) → Perm (sort_onto sorted xs) (xs ++ sorted)
unfolding sort_onto
sort_onto-perm [] sorted = Perm.refl sorted
sort_onto-perm (x ∷ xs) sorted =
    Perm.trans (sort_onto-perm xs (shift_in x sorted))
      (Perm.trans (Perm.append_left xs (shift_in-perm x sorted)) (perm_middle xs sorted))

-- From the least to the greatest.
abbrev pub Ascends : List ℕ → Type 0
Ascends [] = Unit {0}
Ascends (x ∷ xs) = All (λ y. x ≤ y) xs × Ascends xs

All-snoc {κ} : (P : ℕ → Type κ) (xs : List ℕ) (x : ℕ) → All P xs → P x → All P (xs ++ x ∷ [])
All-snoc P [] x h p = (p, tt)
All-snoc P (y ∷ ys) x h p = (h.0, All-snoc P ys x h.1 p)

Ascends-snoc : (xs : List ℕ) (m : ℕ) → Ascends xs → All (λ y. y ≤ m) xs → Ascends (xs ++ m ∷ [])
Ascends-snoc [] m a h = (tt, tt)
Ascends-snoc (x ∷ xs) m a h = (All-snoc (λ y. x ≤ y) xs m a.0 h.0, Ascends-snoc xs m a.1 h.1)

All-reverse {κ} : (P : ℕ → Type κ) (xs : List ℕ) → All P xs → All P (reverse xs)
All-reverse P [] h = tt
All-reverse P (x ∷ xs) h =
    rw (reverse-append (x ∷ []) xs) (All-snoc P (reverse xs) x (All-reverse P xs h.1) h.0)

Ascends-reverse : (xs : List ℕ) → Descends xs → Ascends (reverse xs)
Ascends-reverse [] d = tt
Ascends-reverse (x ∷ xs) d =
    rw (reverse-append (x ∷ []) xs)
      (Ascends-snoc (reverse xs) x (Ascends-reverse xs d.1) (All-reverse (λ y. y ≤ x) xs d.0))

-- The sort of the calibration puts the noise levels in ascending order, and keeps each as often as
-- it was measured.
pub sort_noise-sorts : (xs : List ℕ) → Ascends (sort_noise xs) × Perm (sort_noise xs) xs
unfolding sort_noise
sort_noise-sorts xs = (
  Ascends-reverse (sort_onto [] xs) (sort_onto-Descends xs [] tt),
  Perm.trans (reverse_perm (sort_onto [] xs)) (rw (append-nil) at (sort_onto-perm xs [])),
)
