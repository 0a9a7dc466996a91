-- ===== src/Crypto/Sha1.antt =====
-- voice/crypto.c: SHA-1 and HMAC-SHA-1.
use Prim.Native.Nat.{bit_and, bit_or, bit_xor}
use openwrt_demo.Crypto.Words.{
  add32, not32, rol32, at, word_be, bytes_be, splice, hex, concat_map, block_words, length_be,
}
use openwrt_demo.Crypto.Stream.{Ctx, update, final}
use openwrt_demo.Prelude.{
  ℕ, zero, suc, ◌+◌, ◌-◌, List, [], ◌∷◌, ◌++◌, ltb, if◌then◌else◌, length, replicate, map,
}

unfoldable pub init : List ℕ → Ctx
init buffer = record {
  state = 0x67452301 ∷ 0xEFCDAB89 ∷ 0x98BADCFE ∷ 0x10325476 ∷ 0xC3D2E1F0 ∷ [];
  count = 0;
  buffer = buffer;
}

-- for (i = 16; i < 80; i++) w[i] = …; one word a round, where i is the number of words
unfoldable pub schedule : ℕ → List ℕ → List ℕ
schedule zero w = w
schedule (suc n) w =
    let i = length w in
    schedule n (
      w
      ++ rol32
          (bit_xor (bit_xor (bit_xor (at w (i - 3)) (at w (i - 8))) (at w (i - 14)))
            (at w (i - 16)))
          1
        ∷ [])

-- the five local variables
pub record Vars : Type 0 where
  pub a : ℕ
  pub b : ℕ
  pub c : ℕ
  pub d : ℕ
  pub e : ℕ

-- f and k of round i
unfoldable pub mix : ℕ → Vars → ℕ × ℕ
mix i v =
    if ltb i 20
    then (bit_or (bit_and v.b v.c) (bit_and (not32 v.b) v.d), 0x5A827999)
    else if ltb i 40
    then (bit_xor (bit_xor v.b v.c) v.d, 0x6ED9EBA1)
    else if ltb i 60
    then (bit_or (bit_or (bit_and v.b v.c) (bit_and v.b v.d)) (bit_and v.c v.d), 0x8F1BBCDC)
    else (bit_xor (bit_xor v.b v.c) v.d, 0xCA62C1D6)

unfoldable pub rounds : ℕ → List ℕ → Vars → Vars
rounds i [] v = v
rounds i (w ∷ ws) v =
    let (f, k) = mix i v in
    rounds (i + 1) ws (record {
      a = add32 (add32 (add32 (add32 (rol32 v.a 5) f) v.e) k) w;
      b = v.a;
      c = rol32 v.b 30;
      d = v.c;
      e = v.d;
    })

unfoldable pub transform : List ℕ → List ℕ → List ℕ
transform s block =
    let v =
      rounds 0 (schedule 64 (block_words word_be 16 block))
        (record { a = at s 0; b = at s 1; c = at s 2; d = at s 3; e = at s 4 }) in
    add32 (at s 0) v.a
    ∷ add32 (at s 1) v.b
    ∷ add32 (at s 2) v.c
    ∷ add32 (at s 3) v.d
    ∷ add32 (at s 4) v.e
    ∷ []

-- `sha1_update` and `sha1_final`
abbrev pub update1 : Ctx → List ℕ → Ctx
update1 = update transform

unfoldable pub final1 : Ctx → List ℕ
final1 c = concat_map bytes_be (final transform length_be c)

-- `sha1`; `stack` is what the context's buffer holds before
unfoldable pub sha1 : List ℕ → List ℕ → List ℕ
sha1 stack message = final1 (update1 (init stack) message)

unfoldable pub sha1_hex : List ℕ → List ℕ → List ℕ
sha1_hex stack message = hex (sha1 stack message)

-- the block of the key
unfoldable pub key_block : List ℕ → List ℕ → List ℕ
key_block stack key =
    splice (replicate 64 0) 0 (if ltb 64 (length key) then sha1 stack key else key)

unfoldable pub hmac_sha1 : List ℕ → List ℕ → List ℕ → List ℕ
hmac_sha1 stack key message =
    let ipad = map (λ b. bit_xor b 0x36) (key_block stack key) in
    let opad = map (λ b. bit_xor b 0x5c) (key_block stack key) in
    let inner = final1 (update1 (update1 (init stack) ipad) message) in
    final1 (update1 (update1 (init stack) opad) inner)
