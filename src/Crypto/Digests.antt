-- ===== src/Crypto/Digests.antt =====
-- The hash functions and their keyed forms against the digest of the whole message.
use Prim.Native.Nat.{bit_xor}
use openwrt_demo.Crypto.Words.{bytes_be, bytes_le, concat_map, length_be, length_le}
use openwrt_demo.Crypto.Stream.{blocks}
use openwrt_demo.Crypto.Stream.Absorb.{Holds, length-splice}
use openwrt_demo.Crypto.Stream.Digest.{joined, updates, digest, final-digest, updates-Holds}
use openwrt_demo.Crypto.Sha1.{final1}
use openwrt_demo.Crypto.Sha256.{update256, final256, sha256, key_block, hmac_sha256}
use openwrt_demo.Crypto.Md5.{final5}
use openwrt_demo.Crypto.Sha1
use openwrt_demo.Crypto.Sha256
use openwrt_demo.Crypto.Md5
use openwrt_demo.Prelude.{
  ℕ, zero, suc, ◌+◌, ◌*◌, ◌^◌, ◌<◌, ◌≡◌, refl, sym, ap, ◌∙◌, List, [], ◌∷◌, ◌++◌, inl, inr, ltb,
  leb, Bool-cases, arith, length, replicate, map, take, drop, length-append, ltb→ge,
}

eight_be : (n : ℕ) → length (length_be n) ≡ 8
unfolding length_be bytes_be
eight_be n = refl

eight_le : (n : ℕ) → length (length_le n) ≡ 8
unfolding length_le bytes_le
eight_le n = refl

module _ (transform : List ℕ → List ℕ → List ℕ) where
  fresh-Holds :
      (state buffer : List ℕ)
      → length buffer ≡ 64
      → Holds transform state [] (record { state = state; count = 0; buffer = buffer })
  unfolding blocks
  fresh-Holds state buffer h = record { count = refl; size = h; taken = refl }

-- A message that is given to `sha1_update`, `sha256_update` or `md5_update` in any parts has the
-- digest of the message as a whole: its padded blocks are transformed one after the other. The
-- message has fewer than 2^61 - 72 bytes, and the context's buffer may hold anything before.
pub final-updates :
    (stack : List ℕ) (parts : List (List ℕ))
    → length stack ≡ 64
    → (length (joined parts []) + 72) * 8 < 2 ^ 64
    → (final1 (updates Sha1.transform (Sha1.init stack) parts)
        ≡ concat_map bytes_be
            (digest Sha1.transform length_be (Sha1.init stack).state (joined parts [])))
      × (final256 (updates Sha256.transform (Sha256.init stack) parts)
          ≡ concat_map bytes_be
              (digest Sha256.transform length_be (Sha256.init stack).state (joined parts [])))
      × (final5 (updates Md5.transform (Md5.init stack) parts)
          ≡ concat_map bytes_le
              (digest Md5.transform length_le (Md5.init stack).state (joined parts [])))
unfolding final1 final256 final5 Sha1.init Sha256.init Md5.init
final-updates stack parts h small =
    let less : length (joined parts []) * 8 < 2 ^ 64 = omega (arith, small) in
    (
      ap (concat_map bytes_be) (
          final-digest Sha1.transform length_be (Sha1.init stack).state (joined parts []) _
            (updates-Holds Sha1.transform (Sha1.init stack).state [] (Sha1.init stack) parts
              (fresh-Holds Sha1.transform (Sha1.init stack).state stack h) less)
            eight_be small),
      ap (concat_map bytes_be) (
          final-digest Sha256.transform length_be (Sha256.init stack).state (joined parts []) _
            (updates-Holds Sha256.transform (Sha256.init stack).state [] (Sha256.init stack) parts
              (fresh-Holds Sha256.transform (Sha256.init stack).state stack h) less)
            eight_be small),
      ap (concat_map bytes_le) (
          final-digest Md5.transform length_le (Md5.init stack).state (joined parts []) _
            (updates-Holds Md5.transform (Md5.init stack).state [] (Md5.init stack) parts
              (fresh-Holds Md5.transform (Md5.init stack).state stack h) less)
            eight_le small),
    )

-- Two parts are as good as one.
two_parts :
    (stack a b : List ℕ)
    → length stack ≡ 64
    → (length (a ++ b) + 72) * 8 < 2 ^ 64
    → final256 (update256 (update256 (Sha256.init stack) a) b) ≡ sha256 stack (a ++ b)
unfolding sha256 updates joined
two_parts stack a b h small =
    (final-updates stack (a ∷ b ∷ []) h small).1
    ∙ sym (final-updates stack ((a ++ b) ∷ []) h small).1

blocks_words :
    (n : ℕ) (st p : List ℕ) → length st ≡ 8 → length (blocks Sha256.transform n st p).0 ≡ 8
unfolding blocks Sha256.transform
blocks_words zero st p h = h
blocks_words (suc n) st p h = elim (Bool-cases (leb 64 (length p))) [
  | inr short ↦ rw (short, blocks) h
  | inl long ↦ rw (long, blocks) (blocks_words n (Sha256.transform st (take 64 p)) (drop 64 p) refl)
]

bytes-length : (ws : List ℕ) → length (concat_map bytes_be ws) ≡ length ws * 4
unfolding concat_map bytes_be
bytes-length [] = refl
bytes-length (w ∷ ws) = omega (arith, bytes-length ws)

-- A digest has 32 bytes.
sha256-length :
    (stack message : List ℕ)
    → length stack ≡ 64
    → (length message + 72) * 8 < 2 ^ 64
    → length (sha256 stack message) ≡ 32
unfolding sha256 updates joined digest Sha256.init
sha256-length stack message h small =
    ap length (final-updates stack (message ∷ []) h small).1
    ∙ bytes-length (digest Sha256.transform length_be (Sha256.init stack).state message)
    ∙ ap (λ n. n * 4) (blocks_words _ (Sha256.init stack).state _ refl)

length-map_bytes : (f : ℕ → ℕ) (xs : List ℕ) → length (map f xs) ≡ length xs
length-map_bytes f [] = refl
length-map_bytes f (x ∷ xs) = ap suc (length-map_bytes f xs)

key_block-length :
    (stack key : List ℕ)
    → length stack ≡ 64
    → (length key + 72) * 8 < 2 ^ 64
    → length (key_block stack key) ≡ 64
unfolding key_block
key_block-length stack key h small = elim (Bool-cases (ltb 64 (length key))) [
  | inl long ↦
      rw (key_block, long)
        (length-splice (replicate 64 0) 0 (sha256 stack key)
          (omega (arith, sha256-length stack key h small)))
  | inr short ↦
      rw (key_block, short) (length-splice (replicate 64 0) 0 key (omega (arith, ltb→ge _ _ short)))
]

-- `hmac_sha256` is the keyed digest of RFC 2104: the hash of the outer key block and of the hash of
-- the inner key block and the message. Key and message have fewer than 2^60 bytes each.
hmac_sha256_lem :
    (stack key message : List ℕ)
    → length stack ≡ 64
    → length key < 2 ^ 60
    → length message < 2 ^ 60
    → hmac_sha256 stack key message
      ≡ sha256 stack (
          map (λ b. bit_xor b 0x5c) (key_block stack key)
          ++ sha256 stack (map (λ b. bit_xor b 0x36) (key_block stack key) ++ message))
unfolding hmac_sha256
hmac_sha256_lem stack key message h k m =
    let block = key_block-length stack key h (omega (arith, k)) in
    let ipad = map (λ b. bit_xor b 0x36) (key_block stack key) in
    let opad = map (λ b. bit_xor b 0x5c) (key_block stack key) in
    let li = length-map_bytes (λ b. bit_xor b 0x36) (key_block stack key) in
    let lo = length-map_bytes (λ b. bit_xor b 0x5c) (key_block stack key) in
    let small : (length (ipad ++ message) + 72) * 8 < 2 ^ 64 =
      omega (arith, length-append ipad message, li, block, m) in
    ap (λ inner. final256 (update256 (update256 (Sha256.init stack) opad) inner))
      (two_parts stack ipad message h small)
    ∙ two_parts stack opad (sha256 stack (ipad ++ message)) h (
        omega (
          arith,
          length-append opad (sha256 stack (ipad ++ message)),
          lo,
          block,
          sha256-length stack (ipad ++ message) h small,
        ))
