-- ===== src/Crypto/Words.antt =====
-- The arithmetic of `uint32_t` and the bytes of words, which voice/crypto.c and
-- voice/crypto_sha256.c write out in macros and shifts.
use Prim.Native.Nat.{bit_or, bit_xor}
use openwrt_demo.Prelude.{
  ℕ, zero, suc, ◌+◌, ◌-◌, ◌*◌, ◌/◌, ◌%◌, ◌^◌, ltb, if◌then◌else◌, List, [], ◌∷◌, ◌++◌, get_or, take,
  drop, length,
}

abbrev pub add32 : ℕ → ℕ → ℕ
add32 a b = (a + b) % 2 ^ 32

-- ~x
abbrev pub not32 : ℕ → ℕ
not32 x = bit_xor x 0xffffffff

-- ROL32 and ROTL
unfoldable pub rol32 : ℕ → ℕ → ℕ
rol32 x n = bit_or (x * 2 ^ n % 2 ^ 32) (x / 2 ^ (32 - n))

-- ROR32
unfoldable pub ror32 : ℕ → ℕ → ℕ
ror32 x n = bit_or (x / 2 ^ n) (x * 2 ^ (32 - n) % 2 ^ 32)

-- the element of a table
abbrev pub at : List ℕ → ℕ → ℕ
at xs i = get_or xs i 0

-- the word of four bytes, the highest first
unfoldable pub word_be : List ℕ → ℕ
word_be b = at b 0 * 2 ^ 24 + at b 1 * 2 ^ 16 + at b 2 * 2 ^ 8 + at b 3

-- the word of four bytes, the lowest first
unfoldable pub word_le : List ℕ → ℕ
word_le b = at b 0 + at b 1 * 2 ^ 8 + at b 2 * 2 ^ 16 + at b 3 * 2 ^ 24

-- the four bytes of a word, the highest first
unfoldable pub bytes_be : ℕ → List ℕ
bytes_be w = w / 2 ^ 24 % 256 ∷ w / 2 ^ 16 % 256 ∷ w / 2 ^ 8 % 256 ∷ w % 256 ∷ []

-- the four bytes of a word, the lowest first
unfoldable pub bytes_le : ℕ → List ℕ
bytes_le w = w % 256 ∷ w / 2 ^ 8 % 256 ∷ w / 2 ^ 16 % 256 ∷ w / 2 ^ 24 % 256 ∷ []

-- memcpy(buf + i, xs, length of xs)
abbrev pub splice : List ℕ → ℕ → List ℕ → List ℕ
splice buf i xs = take i buf ++ xs ++ drop (i + length xs) buf

-- sprintf(out, "%02x", b), with the letters of the hexadecimal digits
abbrev pub hex_digit : ℕ → ℕ
hex_digit d = if ltb d 10 then 48 + d else 87 + d

unfoldable pub hex : List ℕ → List ℕ
hex [] = []
hex (b ∷ bs) = hex_digit (b / 16) ∷ hex_digit (b % 16) ∷ hex bs

-- a function on every word, its results one after the other
unfoldable pub concat_map : (ℕ → List ℕ) → List ℕ → List ℕ
concat_map f [] = []
concat_map f (x ∷ xs) = f x ++ concat_map f xs

-- the words of a block, four bytes each
unfoldable pub block_words : (List ℕ → ℕ) → ℕ → List ℕ → List ℕ
block_words word zero block = []
block_words word (suc n) block = word (take 4 block) ∷ block_words word n (drop 4 block)

-- the bytes of the number of bits, the highest first and the lowest first
unfoldable pub length_be : ℕ → List ℕ
length_be n = bytes_be (n / 2 ^ 32) ++ bytes_be (n % 2 ^ 32)

unfoldable pub length_le : ℕ → List ℕ
length_le n = bytes_le (n % 2 ^ 32) ++ bytes_le (n / 2 ^ 32)
