-- ===== src/Crypto/Stream/Digest.antt =====
-- The digest of a message that is given in any parts: the transformation of the blocks of the padded
-- message, one after the other.
use openwrt_demo.Crypto.Stream.{Ctx, index, padlen, blocks, update, final}
use openwrt_demo.Crypto.Stream.Absorb.{Holds, update-Holds}
use openwrt_demo.Prelude.{
  ℕ, zero, suc, ◌+◌, ◌-◌, ◌*◌, ◌%◌, ◌^◌, ◌≤◌, ◌<◌, ◌≡◌, refl, sym, ap, ap₂, ◌∙◌, List, [], ◌∷◌,
  ◌++◌, arith, length, replicate, length-append,
}

length-replicate : (n a : ℕ) → length (replicate n a) ≡ n
length-replicate zero a = refl
length-replicate (suc n) a = ap suc (length-replicate n a)

-- The padding fills up the last block, and fits the 72 bytes of the array `pad` with the length.
padlen_lem :
    (idx : ℕ) → idx < 64 → (0 < padlen idx) × ((idx + padlen idx + 8) % 64 ≡ 0) × (padlen idx ≤ 64)
padlen_lem idx h = ground arith

-- all bytes of a message in parts
unfoldable pub joined : List (List ℕ) → List ℕ → List ℕ
joined [] message = message
joined (p ∷ ps) message = joined ps (message ++ p)

module _ (transform : List ℕ → List ℕ → List ℕ) where
  -- an `update` for each part
  unfoldable pub updates : Ctx → List (List ℕ) → Ctx
  updates c [] = c
  updates c (p ∷ ps) = updates (update transform c p) ps

  -- The padding of RFC 3174, RFC 1321 and FIPS 180: one bit, zeros, and the length.
  abbrev pub padded : (ℕ → List ℕ) → List ℕ → List ℕ
  padded length_bytes message =
      message
      ++ (0x80 ∷ replicate (padlen (length message % 64) - 1) 0
          ++ length_bytes (length message * 8))

  -- the state after the blocks of the padded message
  unfoldable pub digest : (ℕ → List ℕ) → List ℕ → List ℕ → List ℕ
  digest length_bytes start message =
      (blocks transform (length (padded length_bytes message)) start
        (padded length_bytes message)).0

  pub padded_whole :
      (length_bytes : ℕ → List ℕ) (message : List ℕ)
      → ((n : ℕ) → length (length_bytes n) ≡ 8)
      → (length (padded length_bytes message) % 64 ≡ 0)
        × (length (padded length_bytes message) ≤ length message + 72)
  padded_whole length_bytes message eight =
      let zeros : List ℕ = replicate (padlen (length message % 64) - 1) 0 in
      let l1 = length-append message (0x80 ∷ zeros ++ length_bytes (length message * 8)) in
      let l2 = length-append (0x80 ∷ zeros) (length_bytes (length message * 8)) in
      let l3 = length-replicate (padlen (length message % 64) - 1) 0 in
      let l4 = eight (length message * 8) in
      let (some_pad, whole, short) = padlen_lem (length message % 64) (omega arith) in
      (
        omega (arith, l1, l2, l3, l4, some_pad, whole),
        omega (arith, l1, l2, l3, l4, some_pad, short),
      )

  pub final-digest :
      (length_bytes : ℕ → List ℕ) (start message : List ℕ) (c : Ctx)
      → Holds transform start message c
      → ((n : ℕ) → length (length_bytes n) ≡ 8)
      → (length message + 72) * 8 < 2 ^ 64
      → final transform length_bytes c ≡ digest length_bytes start message
  unfolding final digest
  final-digest length_bytes start message c h eight small =
      let at : index c.count ≡ length message % 64 = omega (arith, h.count) in
      let p =
        0x80 ∷ replicate (padlen (length message % 64) - 1) 0
        ++ length_bytes (length message * 8) in
      let w =
        update-Holds transform start message c p h
          (omega (arith, (padded_whole length_bytes message eight).1, small)) in
      let tail = λ (i : ℕ) (n : ℕ). 0x80 ∷ replicate (padlen i - 1) 0 ++ length_bytes n in
      ap (λ u. (update transform c u).state) (ap₂ tail at h.count) ∙ ap (λ t. t.0) (sym w.taken)

  pub updates-Holds :
      (start message : List ℕ) (c : Ctx) (ps : List (List ℕ))
      → Holds transform start message c
      → length (joined ps message) * 8 < 2 ^ 64
      → Holds transform start (joined ps message) (updates c ps)
  unfolding updates joined
  updates-Holds start message c [] h small = h
  updates-Holds start message c (p ∷ ps) h small =
      updates-Holds start (message ++ p) (update transform c p) ps
        (update-Holds transform start message c p h
          (omega (arith, small, joined_le ps (message ++ p))))
        small
    where
      joined_le : (ps : List (List ℕ)) (m : List ℕ) → length m ≤ length (joined ps m)
      joined_le [] m = omega arith
      joined_le (p ∷ ps) m = omega (arith, joined_le ps (m ++ p), length-append m p)
