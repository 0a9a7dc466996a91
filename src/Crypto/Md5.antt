-- ===== src/Crypto/Md5.antt =====
-- voice/crypto.c: MD5.
use Prim.Native.Nat.{bit_and, bit_or, bit_xor}
use openwrt_demo.Crypto.Words.{
  add32, not32, rol32, at, word_le, bytes_le, hex, concat_map, block_words, length_le,
}
use openwrt_demo.Crypto.Stream.{Ctx, update, final}
use openwrt_demo.Prelude.{ℕ, ◌+◌, ◌*◌, ◌%◌, List, [], ◌∷◌, ltb, if◌then◌else◌}

-- the tables K and S
abbrev k_table : List ℕ
k_table =
    0xd76aa478 ∷ 0xe8c7b756 ∷ 0x242070db ∷ 0xc1bdceee ∷ 0xf57c0faf ∷ 0x4787c62a ∷ 0xa8304613
    ∷ 0xfd469501 ∷ 0x698098d8 ∷ 0x8b44f7af ∷ 0xffff5bb1 ∷ 0x895cd7be ∷ 0x6b901122 ∷ 0xfd987193
    ∷ 0xa679438e ∷ 0x49b40821 ∷ 0xf61e2562 ∷ 0xc040b340 ∷ 0x265e5a51 ∷ 0xe9b6c7aa ∷ 0xd62f105d
    ∷ 0x02441453 ∷ 0xd8a1e681 ∷ 0xe7d3fbc8 ∷ 0x21e1cde6 ∷ 0xc33707d6 ∷ 0xf4d50d87 ∷ 0x455a14ed
    ∷ 0xa9e3e905 ∷ 0xfcefa3f8 ∷ 0x676f02d9 ∷ 0x8d2a4c8a ∷ 0xfffa3942 ∷ 0x8771f681 ∷ 0x6d9d6122
    ∷ 0xfde5380c ∷ 0xa4beea44 ∷ 0x4bdecfa9 ∷ 0xf6bb4b60 ∷ 0xbebfbc70 ∷ 0x289b7ec6 ∷ 0xeaa127fa
    ∷ 0xd4ef3085 ∷ 0x04881d05 ∷ 0xd9d4d039 ∷ 0xe6db99e5 ∷ 0x1fa27cf8 ∷ 0xc4ac5665 ∷ 0xf4292244
    ∷ 0x432aff97 ∷ 0xab9423a7 ∷ 0xfc93a039 ∷ 0x655b59c3 ∷ 0x8f0ccc92 ∷ 0xffeff47d ∷ 0x85845dd1
    ∷ 0x6fa87e4f ∷ 0xfe2ce6e0 ∷ 0xa3014314 ∷ 0x4e0811a1 ∷ 0xf7537e82 ∷ 0xbd3af235 ∷ 0x2ad7d2bb
    ∷ 0xeb86d391 ∷ []

abbrev s_table : List ℕ
s_table =
    7 ∷ 12 ∷ 17 ∷ 22 ∷ 7 ∷ 12 ∷ 17 ∷ 22 ∷ 7 ∷ 12 ∷ 17 ∷ 22 ∷ 7 ∷ 12 ∷ 17 ∷ 22 ∷ 5 ∷ 9 ∷ 14 ∷ 20 ∷ 5
    ∷ 9 ∷ 14 ∷ 20 ∷ 5 ∷ 9 ∷ 14 ∷ 20 ∷ 5 ∷ 9 ∷ 14 ∷ 20 ∷ 4 ∷ 11 ∷ 16 ∷ 23 ∷ 4 ∷ 11 ∷ 16 ∷ 23 ∷ 4 ∷ 11
    ∷ 16 ∷ 23 ∷ 4 ∷ 11 ∷ 16 ∷ 23 ∷ 6 ∷ 10 ∷ 15 ∷ 21 ∷ 6 ∷ 10 ∷ 15 ∷ 21 ∷ 6 ∷ 10 ∷ 15 ∷ 21 ∷ 6 ∷ 10
    ∷ 15 ∷ 21 ∷ []

unfoldable pub init : List ℕ → Ctx
init buffer = record {
  state = 0x67452301 ∷ 0xefcdab89 ∷ 0x98badcfe ∷ 0x10325476 ∷ [];
  count = 0;
  buffer = buffer;
}

-- the four local variables
pub record Vars : Type 0 where
  pub a : ℕ
  pub b : ℕ
  pub c : ℕ
  pub d : ℕ

-- fval and gidx of round i
unfoldable pub mix : ℕ → Vars → ℕ × ℕ
mix i v =
    if ltb i 16
    then (bit_or (bit_and v.b v.c) (bit_and (not32 v.b) v.d), i)
    else if ltb i 32
    then (bit_or (bit_and v.b v.d) (bit_and v.c (not32 v.d)), (5 * i + 1) % 16)
    else if ltb i 48
    then (bit_xor (bit_xor v.b v.c) v.d, (3 * i + 5) % 16)
    else (bit_xor v.c (bit_or v.b (not32 v.d)), 7 * i % 16)

-- the rounds from i on, with what is left of the two tables
unfoldable pub rounds : ℕ → List ℕ → List ℕ → List ℕ → Vars → Vars
rounds i [] ss m v = v
rounds i (k ∷ ks) [] m v = v
rounds i (k ∷ ks) (s ∷ ss) m v =
    let (f, g) = mix i v in
    rounds (i + 1) ks ss m (record {
      a = v.d;
      b = add32 v.b (rol32 (add32 (add32 (add32 v.a f) k) (at m g)) s);
      c = v.b;
      d = v.c;
    })

unfoldable pub transform : List ℕ → List ℕ → List ℕ
transform s block =
    let v =
      rounds 0 k_table s_table (block_words word_le 16 block)
        (record { a = at s 0; b = at s 1; c = at s 2; d = at s 3 }) in
    add32 (at s 0) v.a ∷ add32 (at s 1) v.b ∷ add32 (at s 2) v.c ∷ add32 (at s 3) v.d ∷ []

-- `md5_update` and `md5_final`
abbrev pub update5 : Ctx → List ℕ → Ctx
update5 = update transform

unfoldable pub final5 : Ctx → List ℕ
final5 c = concat_map bytes_le (final transform length_le c)

-- `stack` is what the context's buffer holds before
unfoldable pub md5_hex : List ℕ → List ℕ → List ℕ
md5_hex stack message = hex (final5 (update5 (init stack) message))
