-- ===== src/Crypto/Base64.antt =====
-- `base64_encode` of voice/crypto.c.
pub mod RoundTrip
use openwrt_demo.Prelude.{
  ℕ, zero, suc, ◌+◌, ◌*◌, ◌/◌, ◌%◌, Option, none, some, List, [], ◌∷◌, ltb, if◌then◌else◌, length,
  get_or, bytes_of,
}

abbrev pub b64tab : List ℕ
b64tab = bytes_of "ABCDEFGHIJKLMNOPQRSTUVWXYZabcdefghijklmnopqrstuvwxyz0123456789+/"

unfoldable pub letter : ℕ → ℕ
letter i = get_or b64tab i 0

-- The loop, and the one or two bytes behind it. The input's bytes are below 256, so that the two
-- sides of each `|` have no bit in common.
unfoldable pub encode_from : List ℕ → List ℕ
encode_from (a ∷ b ∷ c ∷ rest) =
    letter (a / 4)
    ∷ letter (a % 4 * 16 + b / 16)
    ∷ letter (b % 16 * 4 + c / 64)
    ∷ letter (c % 64)
    ∷ encode_from rest
encode_from (a ∷ b ∷ []) =
    letter (a / 4) ∷ letter (a % 4 * 16 + b / 16) ∷ letter (b % 16 * 4) ∷ b'=' ∷ []
encode_from (a ∷ []) = letter (a / 4) ∷ letter (a % 4 * 16) ∷ b'=' ∷ b'=' ∷ []
encode_from [] = []

-- none is the return value -1, some the string that is written, whose length is returned
unfoldable pub base64_encode : List ℕ → ℕ → Option (List ℕ)
base64_encode input outlen =
    if ltb outlen ((length input + 2) / 3 * 4 + 1) then none else some (encode_from input)
