-- ===== src/Crypto/Sha256.antt =====
-- voice/crypto_sha256.c: SHA-256 and HMAC-SHA-256.
use Prim.Native.Nat.{bit_and, bit_xor}
use openwrt_demo.Crypto.Words.{
  add32, not32, ror32, at, word_be, bytes_be, splice, hex, concat_map, block_words, length_be,
}
use openwrt_demo.Crypto.Stream.{Ctx, update, final}
use openwrt_demo.Prelude.{
  ℕ, zero, suc, ◌-◌, ◌/◌, ◌^◌, List, [], ◌∷◌, ◌++◌, ltb, if◌then◌else◌, length, replicate, map,
}

abbrev ch : ℕ → ℕ → ℕ → ℕ
ch x y z = bit_xor (bit_and x y) (bit_and (not32 x) z)

abbrev maj : ℕ → ℕ → ℕ → ℕ
maj x y z = bit_xor (bit_xor (bit_and x y) (bit_and x z)) (bit_and y z)

abbrev bsig0 : ℕ → ℕ
bsig0 x = bit_xor (bit_xor (ror32 x 2) (ror32 x 13)) (ror32 x 22)

abbrev bsig1 : ℕ → ℕ
bsig1 x = bit_xor (bit_xor (ror32 x 6) (ror32 x 11)) (ror32 x 25)

abbrev ssig0 : ℕ → ℕ
ssig0 x = bit_xor (bit_xor (ror32 x 7) (ror32 x 18)) (x / 2 ^ 3)

abbrev ssig1 : ℕ → ℕ
ssig1 x = bit_xor (bit_xor (ror32 x 17) (ror32 x 19)) (x / 2 ^ 10)

abbrev k256 : List ℕ
k256 =
    0x428a2f98 ∷ 0x71374491 ∷ 0xb5c0fbcf ∷ 0xe9b5dba5 ∷ 0x3956c25b ∷ 0x59f111f1 ∷ 0x923f82a4
    ∷ 0xab1c5ed5 ∷ 0xd807aa98 ∷ 0x12835b01 ∷ 0x243185be ∷ 0x550c7dc3 ∷ 0x72be5d74 ∷ 0x80deb1fe
    ∷ 0x9bdc06a7 ∷ 0xc19bf174 ∷ 0xe49b69c1 ∷ 0xefbe4786 ∷ 0x0fc19dc6 ∷ 0x240ca1cc ∷ 0x2de92c6f
    ∷ 0x4a7484aa ∷ 0x5cb0a9dc ∷ 0x76f988da ∷ 0x983e5152 ∷ 0xa831c66d ∷ 0xb00327c8 ∷ 0xbf597fc7
    ∷ 0xc6e00bf3 ∷ 0xd5a79147 ∷ 0x06ca6351 ∷ 0x14292967 ∷ 0x27b70a85 ∷ 0x2e1b2138 ∷ 0x4d2c6dfc
    ∷ 0x53380d13 ∷ 0x650a7354 ∷ 0x766a0abb ∷ 0x81c2c92e ∷ 0x92722c85 ∷ 0xa2bfe8a1 ∷ 0xa81a664b
    ∷ 0xc24b8b70 ∷ 0xc76c51a3 ∷ 0xd192e819 ∷ 0xd6990624 ∷ 0xf40e3585 ∷ 0x106aa070 ∷ 0x19a4c116
    ∷ 0x1e376c08 ∷ 0x2748774c ∷ 0x34b0bcb5 ∷ 0x391c0cb3 ∷ 0x4ed8aa4a ∷ 0x5b9cca4f ∷ 0x682e6ff3
    ∷ 0x748f82ee ∷ 0x78a5636f ∷ 0x84c87814 ∷ 0x8cc70208 ∷ 0x90befffa ∷ 0xa4506ceb ∷ 0xbef9a3f7
    ∷ 0xc67178f2 ∷ []

unfoldable pub init : List ℕ → Ctx
init buffer = record {
  state =
      0x6a09e667 ∷ 0xbb67ae85 ∷ 0x3c6ef372 ∷ 0xa54ff53a ∷ 0x510e527f ∷ 0x9b05688c ∷ 0x1f83d9ab
      ∷ 0x5be0cd19 ∷ [];
  count = 0;
  buffer = buffer;
}

-- for (i = 16; i < 64; i++) w[i] = …; one word a round, where i is the number of words
unfoldable pub schedule : ℕ → List ℕ → List ℕ
schedule zero w = w
schedule (suc n) w =
    let i = length w in
    schedule n (
      w
      ++ add32 (add32 (ssig1 (at w (i - 2))) (at w (i - 7)))
          (add32 (ssig0 (at w (i - 15))) (at w (i - 16)))
        ∷ [])

-- the eight local variables
pub record Vars : Type 0 where
  pub a : ℕ
  pub b : ℕ
  pub c : ℕ
  pub d : ℕ
  pub e : ℕ
  pub f : ℕ
  pub g : ℕ
  pub h : ℕ

unfoldable pub round : ℕ → ℕ → Vars → Vars
round k w v =
    let t1 = add32 (add32 (add32 (add32 v.h (bsig1 v.e)) (ch v.e v.f v.g)) k) w in
    let t2 = add32 (bsig0 v.a) (maj v.a v.b v.c) in
    record {
      a = add32 t1 t2;
      b = v.a;
      c = v.b;
      d = v.c;
      e = add32 v.d t1;
      f = v.e;
      g = v.f;
      h = v.g;
    }

unfoldable pub rounds : List ℕ → List ℕ → Vars → Vars
rounds [] ws v = v
rounds (k ∷ ks) [] v = v
rounds (k ∷ ks) (w ∷ ws) v = rounds ks ws (round k w v)

unfoldable pub transform : List ℕ → List ℕ → List ℕ
transform s block =
    let v = rounds k256 (schedule 48 (block_words word_be 16 block)) (record {
      a = at s 0;
      b = at s 1;
      c = at s 2;
      d = at s 3;
      e = at s 4;
      f = at s 5;
      g = at s 6;
      h = at s 7;
    }) in
    add32 (at s 0) v.a
    ∷ add32 (at s 1) v.b
    ∷ add32 (at s 2) v.c
    ∷ add32 (at s 3) v.d
    ∷ add32 (at s 4) v.e
    ∷ add32 (at s 5) v.f
    ∷ add32 (at s 6) v.g
    ∷ add32 (at s 7) v.h
    ∷ []

-- `sha256_update` and `sha256_final`
abbrev pub update256 : Ctx → List ℕ → Ctx
update256 = update transform

unfoldable pub final256 : Ctx → List ℕ
final256 c = concat_map bytes_be (final transform length_be c)

-- `sha256`; `stack` is what the context's buffer holds before
unfoldable pub sha256 : List ℕ → List ℕ → List ℕ
sha256 stack message = final256 (update256 (init stack) message)

unfoldable pub sha256_hex : List ℕ → List ℕ → List ℕ
sha256_hex stack message = hex (sha256 stack message)

-- the block of the key
unfoldable pub key_block : List ℕ → List ℕ → List ℕ
key_block stack key =
    splice (replicate 64 0) 0 (if ltb 64 (length key) then sha256 stack key else key)

unfoldable pub hmac_sha256 : List ℕ → List ℕ → List ℕ → List ℕ
hmac_sha256 stack key message =
    let ipad = map (λ b. bit_xor b 0x36) (key_block stack key) in
    let opad = map (λ b. bit_xor b 0x5c) (key_block stack key) in
    let inner = final256 (update256 (update256 (init stack) ipad) message) in
    final256 (update256 (update256 (init stack) opad) inner)

unfoldable pub hmac_sha256_hex : List ℕ → List ℕ → List ℕ → List ℕ
hmac_sha256_hex stack key message = hex (hmac_sha256 stack key message)
