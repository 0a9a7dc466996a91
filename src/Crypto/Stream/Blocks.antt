-- ===== src/Crypto/Stream/Blocks.antt =====
-- The loop over whole blocks: its fuel, its rest, and a message given in two parts.
use openwrt_demo.Crypto.Stream.{blocks}
use openwrt_demo.Prelude.{
  take-append-le, ℕ, zero, suc, ◌+◌, ◌%◌, ◌≤◌, ◌<◌, ◌≡◌, refl, ap, ◌∙◌, true, false, List, [], ◌∷◌,
  ◌++◌, inl, inr, leb, Bool-cases, arith, length, take, drop, length-append, length-drop, leb→le,
  leb→gt,
}

module _ {ℓ} {A : Type ℓ} where
  pub drop-append-le :
      (n : ℕ) (xs ys : List A) → n ≤ length xs → drop n (xs ++ ys) ≡ drop n xs ++ ys
  drop-append-le zero xs ys h = refl
  drop-append-le (suc n) [] ys h = absurd (omega arith)
  drop-append-le (suc n) (x ∷ xs) ys h = drop-append-le n xs ys (omega arith)

  pub take-append-ge :
      (n k : ℕ) (xs ys : List A) → n ≡ length xs + k → take n (xs ++ ys) ≡ xs ++ take k ys
  take-append-ge n k [] ys h = ap (λ m. take m ys) same
    where
      same : n ≡ k
      same = omega arith
  take-append-ge zero k (x ∷ xs) ys h = absurd (omega arith)
  take-append-ge (suc n) k (x ∷ xs) ys h = ap (λ t. x ∷ t) (take-append-ge n k xs ys (omega arith))

  pub drop-append-ge :
      (n k : ℕ) (xs ys : List A) → n ≡ length xs + k → drop n (xs ++ ys) ≡ drop k ys
  drop-append-ge n k [] ys h = ap (λ m. drop m ys) same
    where
      same : n ≡ k
      same = omega arith
  drop-append-ge zero k (x ∷ xs) ys h = absurd (omega arith)
  drop-append-ge (suc n) k (x ∷ xs) ys h = drop-append-ge n k xs ys (omega arith)

module _ (transform : List ℕ → List ℕ → List ℕ) where
  -- Enough fuel is as much as any more.
  pub blocks_fuel :
      (n m : ℕ) (st p : List ℕ)
      → length p ≤ n
      → length p ≤ m
      → blocks transform n st p ≡ blocks transform m st p
  unfolding blocks
  blocks_fuel zero zero st p h k = refl
  blocks_fuel zero (suc m) st p h k =
      let short : leb 64 (length p) ≡ false = ground arith in rw (short, blocks) refl
  blocks_fuel (suc n) zero st p h k =
      let short : leb 64 (length p) ≡ false = ground arith in rw (short, blocks) refl
  blocks_fuel (suc n) (suc m) st p h k = elim (Bool-cases (leb 64 (length p))) [
    | inr short ↦ rw (short, blocks) refl
    | inl long ↦
        rw (long, blocks)
          (blocks_fuel n m (transform st (take 64 p)) (drop 64 p)
            (omega (arith, length-drop 64 p, leb→le _ _ long, h))
            (omega (arith, length-drop 64 p, leb→le _ _ long, k)))
  ]

  pub blocks_short : (n : ℕ) (st p : List ℕ) → length p < 64 → blocks transform n st p ≡ (st, p)
  unfolding blocks
  blocks_short zero st p h = refl
  blocks_short (suc n) st p h =
      let short : leb 64 (length p) ≡ false = ground arith in rw (short, blocks) refl

  pub blocks_long :
      (st p : List ℕ)
      → 64 ≤ length p
      → blocks transform (length p) st p
        ≡ blocks transform (length (drop 64 p)) (transform st (take 64 p)) (drop 64 p)
  unfolding blocks
  blocks_long st p h =
      let long : leb 64 (length p) ≡ true = ground arith in
      blocks_fuel (length p) (suc (length p)) st p (omega arith) (omega arith)
      ∙ rw (long, blocks)
          (blocks_fuel (length p) (length (drop 64 p)) (transform st (take 64 p)) (drop 64 p)
            (omega (arith, length-drop 64 p)) (omega arith))

  -- The rest is shorter than a block.
  pub blocks_rest :
      (n : ℕ) (st p : List ℕ) → length p ≤ n → length (blocks transform n st p).1 ≡ length p % 64
  unfolding blocks
  blocks_rest zero st p h = omega arith
  blocks_rest (suc n) st p h = elim (Bool-cases (leb 64 (length p))) [
    | inr short ↦ rw (short, blocks) (omega (arith, leb→gt _ _ short))
    | inl long ↦
        rw (long, blocks)
          (omega (
            arith,
            blocks_rest n (transform st (take 64 p)) (drop 64 p)
                (omega (arith, length-drop 64 p, leb→le _ _ long, h)),
            length-drop 64 p,
            leb→le _ _ long,
          ))
  ]

  -- A message in two parts: what is left of the first stands before the second.
  pub blocks-append :
      (n : ℕ) (st p q : List ℕ)
      → length p ≤ n
      → blocks transform (length (p ++ q)) st (p ++ q) ≡ (
          let (st', r) = blocks transform n st p in blocks transform (length (r ++ q)) st' (r ++ q))
  unfolding blocks
  blocks-append zero st p q h = refl
  blocks-append (suc n) st p q h = elim (Bool-cases (leb 64 (length p))) [
    | inr short ↦ rw (short, blocks) refl
    | inl long ↦
        let le = leb→le _ _ long in
        rw (long, blocks)
          (blocks_long st (p ++ q) (omega (arith, length-append p q, le))
            ∙ rw (take-append-le 64 p q le, drop-append-le 64 p q le)
                (blocks-append n (transform st (take 64 p)) (drop 64 p) q
                  (omega (arith, length-drop 64 p, le, h))))
  ]
