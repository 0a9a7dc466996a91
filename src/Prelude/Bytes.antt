-- ===== src/Prelude/Bytes.antt =====
-- Byte windows of an unbounded sequence: what a reassembled prefix is compared with.
use Prim.Native.Nat.{ℕ, zero, suc, ◌+◌, ◌-◌, ◌≤◌}
use mathlib.Core.Bool.{Bool, true, false, ◌&&◌, false≢true}
use mathlib.Core.Logic.{inl, inr}
use mathlib.Core.Path.{◌≡◌, refl, ap, ap₂, ◌∙◌, sym, subst}
use mathlib.Core.List.{List, [], ◌∷◌, ◌++◌}
use native.Mathlib.Omega.{arith}
use openwrt_demo.Prelude.Tests.{◌==◌, Bool-cases, ==→eq}
use openwrt_demo.Prelude.Lists.{length, take, drop}

-- memcmp(a, b, n) == 0 over the first bytes, and strcmp(a, b) == 0 for strings
abbrev pub same_bytes : List ℕ → List ℕ → Bool
same_bytes [] [] = true
same_bytes [] (y ∷ ys) = false
same_bytes (x ∷ xs) [] = false
same_bytes (x ∷ xs) (y ∷ ys) = x == y && same_bytes xs ys

pub same_bytes_refl : (xs : List ℕ) → same_bytes xs xs ≡ true
same_bytes_refl [] = refl
same_bytes_refl (x ∷ xs) = ground (arith, same_bytes_refl xs)

pub same_bytes-eq : (xs ys : List ℕ) → same_bytes xs ys ≡ true → xs ≡ ys
same_bytes-eq [] [] h = refl
same_bytes-eq [] (y ∷ ys) h = cc
same_bytes-eq (x ∷ xs) [] h = cc
same_bytes-eq (x ∷ xs) (y ∷ ys) h = elim (Bool-cases (x == y)) [
  | inl e ↦
      let tail = same_bytes-eq xs ys (subst (λ b. b && same_bytes xs ys ≡ true) e h) in
      ap₂ (λ a b. a ∷ b) (==→eq x y e) tail
  | inr n ↦ absurd (false≢true (subst (λ b. b && same_bytes xs ys ≡ true) n h))
]

-- the `n` bytes of `s` from offset `o` on
abbrev pub window : (ℕ → ℕ) → ℕ → ℕ → List ℕ
window s o zero = []
window s o (suc n) = s o ∷ window s (o + 1) n

module _ (s : ℕ → ℕ) where
  pub length-window : (n o : ℕ) → length (window s o n) ≡ n
  length-window zero o = refl
  length-window (suc n) o = ap suc (length-window n (o + 1))

  pub window-append : (m n o p : ℕ) → p ≡ o + m → window s o m ++ window s p n ≡ window s o (m + n)
  window-append zero n o p e =
      let e1 : p ≡ o = omega arith in
      let e2 : 0 + n ≡ n = omega arith in ap (λ t. window s t n) e1 ∙ sym (ap (window s o) e2)
  window-append (suc m) n o p e =
      let e2 : suc m + n ≡ suc (m + n) = omega arith in
      ap (λ t. s o ∷ t) (window-append m n (o + 1) p (omega arith)) ∙ sym (ap (window s o) e2)

  pub take-window : (k n o : ℕ) → k ≤ n → take k (window s o n) ≡ window s o k
  take-window zero n o h = refl
  take-window (suc k) zero o h = absurd (omega arith)
  take-window (suc k) (suc n) o h = ap (λ t. s o ∷ t) (take-window k n (o + 1) (omega arith))

  pub drop-window : (k n o : ℕ) → drop k (window s o n) ≡ window s (o + k) (n - k)
  drop-window zero n o =
      let e1 : o ≡ o + 0 = omega arith in
      let e2 : n ≡ n - 0 = omega arith in ap (λ t. window s t n) e1 ∙ ap (window s (o + 0)) e2
  drop-window (suc k) zero o = let e2 : 0 ≡ 0 - suc k = omega arith in ap (window s (o + suc k)) e2
  drop-window (suc k) (suc n) o =
      let e1 : o + 1 + k ≡ o + suc k = omega arith in
      let e2 : n - k ≡ suc n - suc k = omega arith in
      drop-window k n (o + 1) ∙ ap (λ t. window s t (n - k)) e1 ∙ ap (window s (o + suc k)) e2
