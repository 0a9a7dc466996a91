-- ===== src/Crypto/Tests.antt =====
-- Runs of the hash functions and of Base64 on published values, and their theorems at concrete
-- messages.
use openwrt_demo.Crypto.Base64.{letter, encode_from, base64_encode}
use openwrt_demo.Crypto.Base64.RoundTrip.{decode, base64_encode-decode}
use openwrt_demo.Crypto.Digests.{final-updates}
use openwrt_demo.Crypto.Md5
use openwrt_demo.Crypto.Md5.{md5_hex, final5}
use openwrt_demo.Crypto.Sha1
use openwrt_demo.Crypto.Sha1.{sha1_hex, sha1, final1, hmac_sha1}
use openwrt_demo.Crypto.Sha256
use openwrt_demo.Crypto.Sha256.{
  sha256_hex, sha256, final256, hmac_sha256_hex, hmac_sha256, key_block,
}
use openwrt_demo.Crypto.Stream.Digest.{joined, updates, digest}
use openwrt_demo.Crypto.Stream.{blocks, whole_blocks, fill_first, update, final}
use openwrt_demo.Crypto.Words.{
  rol32, ror32, word_be, word_le, bytes_be, bytes_le, hex, concat_map, block_words, length_be,
  length_le,
}
use openwrt_demo.Prelude.{
  ℕ, ◌≡◌, ◌<◌, ◌≤◌, ◌+◌, ◌*◌, ◌/◌, ◌⊎◌, refl, none, some, List, [], ◌∷◌, arith, length, replicate,
  bytes_of,
}

abbrev stack : List ℕ
stack = replicate 64 77

abc_sha256 :
    sha256_hex stack (bytes_of "abc")
    ≡ bytes_of "ba7816bf8f01cfea414140de5dae2223b00361a396177a9cb410ff61f20015ad"
unfolding sha256_hex sha256 Sha256.init final256 Sha256.transform Sha256.schedule Sha256.rounds
    Sha256.round ror32 word_be bytes_be hex concat_map block_words length_be blocks whole_blocks
    fill_first update final
abc_sha256 = refl

abc_sha1 : sha1_hex stack (bytes_of "abc") ≡ bytes_of "a9993e364706816aba3e25717850c26c9cd0d89d"
unfolding sha1_hex sha1 Sha1.init final1 Sha1.transform Sha1.schedule Sha1.rounds Sha1.mix rol32
    word_be bytes_be hex concat_map block_words length_be blocks whole_blocks fill_first update
    final
abc_sha1 = refl

abc_md5 : md5_hex stack (bytes_of "abc") ≡ bytes_of "900150983cd24fb0d6963f7d28e17f72"
unfolding md5_hex Md5.init final5 Md5.transform Md5.rounds Md5.mix rol32 word_le bytes_le hex
    concat_map block_words length_le blocks whole_blocks fill_first update final
abc_md5 = refl

fox_hmac_sha256 :
    hmac_sha256_hex stack (bytes_of "key") (bytes_of "The quick brown fox jumps over the lazy dog")
    ≡ bytes_of "f7bc83f430538424b13298e6aa6fb143ef4d59a14946175997479dbc2d1a3cd8"
unfolding hmac_sha256_hex hmac_sha256 key_block sha256 Sha256.init final256 Sha256.transform
    Sha256.schedule Sha256.rounds Sha256.round ror32 word_be bytes_be hex concat_map block_words
    length_be blocks whole_blocks fill_first update final
fox_hmac_sha256 = refl

fox_hmac_sha1 :
    hex (hmac_sha1 stack (bytes_of "key") (bytes_of "The quick brown fox jumps over the lazy dog"))
    ≡ bytes_of "de7c9b85b8b78aa6bc8a7a36f70a90701c9db4d9"
unfolding hmac_sha1 Sha1.key_block sha1 Sha1.init final1 Sha1.transform Sha1.schedule Sha1.rounds
    Sha1.mix rol32 word_be bytes_be hex concat_map block_words length_be blocks whole_blocks
    fill_first update final
fox_hmac_sha1 = refl

base64_ab : base64_encode (bytes_of "ab") 5 ≡ some (bytes_of "YWI=")
unfolding base64_encode encode_from letter
base64_ab = refl

abbrev parts : List (List ℕ)
parts = bytes_of "a" ∷ replicate 70 98 ∷ bytes_of "c" ∷ []

final-updates_example :
    (final1 (updates Sha1.transform (Sha1.init stack) parts)
      ≡ concat_map bytes_be
          (digest Sha1.transform length_be (Sha1.init stack).state (joined parts [])))
    × (final256 (updates Sha256.transform (Sha256.init stack) parts)
        ≡ concat_map bytes_be
            (digest Sha256.transform length_be (Sha256.init stack).state (joined parts [])))
    × (final5 (updates Md5.transform (Md5.init stack) parts)
        ≡ concat_map bytes_le
            (digest Md5.transform length_le (Md5.init stack).state (joined parts [])))
unfolding joined
final-updates_example = final-updates stack parts refl (omega arith)

base64_encode-decode_example :
    ((base64_encode (0 ∷ 255 ∷ 7 ∷ 9 ∷ []) 9 ≡ none) × (9 ≤ (4 + 2) / 3 * 4))
    ⊎ ((s : List ℕ) × (base64_encode (0 ∷ 255 ∷ 7 ∷ 9 ∷ []) 9 ≡ some s)
        × (length s < 9)
        × (decode s ≡ 0 ∷ 255 ∷ 7 ∷ 9 ∷ []))
base64_encode-decode_example =
    base64_encode-decode (0 ∷ 255 ∷ 7 ∷ 9 ∷ []) 9
      (omega arith, (omega arith, (omega arith, (omega arith, tt))))
