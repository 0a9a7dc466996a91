-- ===== src/Crypto/Stream.antt =====
-- `sha1_update`, `md5_update` and `sha256_update` with their `final`s: the three hash functions feed
-- blocks of 64 bytes to a transformation of their state in the same words. The transformation, and
-- the order in which the length's bytes are appended, are parameters.
pub mod Blocks
pub mod Absorb
pub mod Digest
use openwrt_demo.Crypto.Words.{splice}
use openwrt_demo.Prelude.{
  ℕ, zero, suc, ◌+◌, ◌-◌, ◌*◌, ◌/◌, ◌%◌, ◌^◌, true, false, List, [], ◌∷◌, ◌++◌, ltb, leb, ◌==◌,
  if◌then◌else◌, length, take, drop, replicate,
}

-- `sha1_ctx`, `md5_ctx`, `sha256_ctx`
pub record Ctx : Type 0 where
  pub state : List ℕ
  pub count : ℕ
  pub buffer : List ℕ

-- (size_t)((c->count >> 3) & 63)
abbrev pub index : ℕ → ℕ
index count = count / 8 % 64

-- memset(pad + 1, 0, padlen - 1), and what padlen is
abbrev pub padlen : ℕ → ℕ
padlen idx = if ltb idx 56 then 56 - idx else 120 - idx

module _ (transform : List ℕ → List ℕ → List ℕ) where
  -- for (i = 0; i + 64 <= len; i += 64) transform(c->state, p + i);
  -- The rest is what is left at the end.
  unfoldable pub blocks : ℕ → List ℕ → List ℕ → List ℕ × List ℕ
  blocks zero state p = (state, p)
  blocks (suc fuel) state p = elim (leb 64 (length p)) [
    | false ↦ (state, p)
    | true ↦ blocks fuel (transform state (take 64 p)) (drop 64 p)
  ]

  -- from the loop on
  unfoldable pub whole_blocks : Ctx → List ℕ → Ctx
  whole_blocks c p =
      let (state, rest) = blocks (length p) c.state p in
      if ltb 0 (length rest)
      then record c { state = state; buffer = splice c.buffer 0 rest }
      else record c { state = state }

  -- from `if (idx)` on
  unfoldable pub fill_first : Ctx → ℕ → List ℕ → Ctx
  fill_first c idx p =
      if idx == 0
      then whole_blocks c p
      else if ltb (length p) (64 - idx)
      then record c { buffer = splice c.buffer idx p }
      else (let full = splice c.buffer idx (take (64 - idx) p) in
          whole_blocks (record c { state = transform c.state full; buffer = full })
            (drop (64 - idx) p))

  unfoldable pub update : Ctx → List ℕ → Ctx
  update c p = fill_first (record c { count = (c.count + length p * 8) % 2 ^ 64 }) (index c.count) p

  -- `length_bytes` are the eight bytes of the number of bits
  unfoldable pub final : (ℕ → List ℕ) → Ctx → List ℕ
  final length_bytes c =
      (update c (0x80 ∷ replicate (padlen (index c.count) - 1) 0 ++ length_bytes c.count)).state
