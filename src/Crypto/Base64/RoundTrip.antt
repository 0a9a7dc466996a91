-- ===== src/Crypto/Base64/RoundTrip.antt =====
-- What `base64_encode` writes: its length, and that nothing of the input is lost.
use openwrt_demo.Crypto.Base64.{b64tab, letter, encode_from, base64_encode}
use openwrt_demo.Prelude.{
  ℕ, zero, suc, ◌+◌, ◌*◌, ◌/◌, ◌%◌, ◌≤◌, ◌<◌, ◌≡◌, refl, ◌∙◌, Bool, true, false, ◌&&◌, none, some,
  List, [], ◌∷◌, ◌⊎◌, inl, inr, ltb→lt, ltb, ◌==◌, if◌then◌else◌, Bool-cases, arith, length, All,
  ==→eq, ltb→ge,
}

-- the place of a letter in a table
abbrev place_in : List ℕ → ℕ → ℕ
place_in [] c = 0
place_in (x ∷ xs) c = if c == x then 0 else suc (place_in xs c)

place : ℕ → ℕ
place = place_in b64tab

-- The decoder of RFC 4648, for strings that an encoder writes.
pub decode : List ℕ → List ℕ
decode (p ∷ q ∷ r ∷ s ∷ rest) =
    let tail = decode rest in
    (place p * 4 + place q / 16)
    ∷ (if r == b'='
        then []
        else (place q % 16 * 16 + place r / 4)
          ∷ (if s == b'=' then [] else (place r % 4 * 64 + place s) ∷ tail))
decode _ = []

all_below : ℕ → (ℕ → Bool) → Bool
all_below zero p = true
all_below (suc n) p = p n && all_below n p

all_below-lt : (n : ℕ) (p : ℕ → Bool) (x : ℕ) → all_below n p ≡ true → x < n → p x ≡ true
unfolding all_below
all_below-lt zero p x h lt = absurd (omega arith)
all_below-lt (suc n) p x h lt = ground (arith, all_below-lt n p x)

place_table : all_below 64 (λ i. place (letter i) == i) ≡ true
unfolding all_below place letter
place_table = refl

plain_table : all_below 64 (λ i. if letter i == b'=' then false else true) ≡ true
unfolding all_below letter
plain_table = refl

place-letter : (i : ℕ) → i < 64 → place (letter i) ≡ i
place-letter i h = ==→eq _ _ (all_below-lt 64 (λ i. place (letter i) == i) i place_table h)

plain : (i : ℕ) → i < 64 → (letter i == b'=') ≡ false
plain i h =
    flip (letter i == b'=')
      (all_below-lt 64 (λ i. if letter i == b'=' then false else true) i plain_table h)
  where
    flip : (b : Bool) → (if b then false else true) ≡ true → b ≡ false
    flip true e = cc
    flip false e = refl

-- A group of letters decodes to the bytes that it stands for.
group :
    (p q r s : ℕ) (rest : List ℕ)
    → p < 64
    → q < 64
    → r < 64
    → s < 64
    → decode (letter p ∷ letter q ∷ letter r ∷ letter s ∷ rest)
      ≡ (p * 4 + q / 16) ∷ (q % 16 * 16 + r / 4) ∷ (r % 4 * 64 + s) ∷ decode rest
unfolding decode
group p q r s rest hp hq hr hs =
    rw
      (
        plain r hr,
        plain s hs,
        place-letter p hp,
        place-letter q hq,
        place-letter r hr,
        place-letter s hs,
      )
      refl

group_two :
    (p q r : ℕ)
    → p < 64
    → q < 64
    → r < 64
    → decode (letter p ∷ letter q ∷ letter r ∷ b'=' ∷ [])
      ≡ (p * 4 + q / 16) ∷ (q % 16 * 16 + r / 4) ∷ []
unfolding decode
group_two p q r hp hq hr =
    rw (plain r hr, place-letter p hp, place-letter q hq, place-letter r hr) refl

group_one :
    (p q : ℕ)
    → p < 64
    → q < 64
    → decode (letter p ∷ letter q ∷ b'=' ∷ b'=' ∷ []) ≡ (p * 4 + q / 16) ∷ []
unfolding decode
group_one p q hp hq = rw (place-letter p hp, place-letter q hq) refl

no_group : decode [] ≡ []
unfolding decode
no_group = refl

decode-encode_from : (xs : List ℕ) → All (λ b. b < 256) xs → decode (encode_from xs) ≡ xs
unfolding encode_from
decode-encode_from [] h = no_group
decode-encode_from (a ∷ []) (ha, h) =
    let same_a : a / 4 * 4 + a % 4 * 16 / 16 ≡ a = omega arith in
    group_one (a / 4) (a % 4 * 16) (omega arith) (omega arith) ∙ rw same_a refl
decode-encode_from (a ∷ b ∷ []) (ha, (hb, h)) =
    let same_a : a / 4 * 4 + (a % 4 * 16 + b / 16) / 16 ≡ a = omega arith in
    let same_b : (a % 4 * 16 + b / 16) % 16 * 16 + b % 16 * 4 / 4 ≡ b = omega arith in
    group_two (a / 4) (a % 4 * 16 + b / 16) (b % 16 * 4) (omega arith) (omega arith) (omega arith)
    ∙ rw (same_a, same_b) refl
decode-encode_from (a ∷ b ∷ c ∷ rest) (ha, (hb, (hc, h))) =
    let same_a : a / 4 * 4 + (a % 4 * 16 + b / 16) / 16 ≡ a = omega arith in
    let same_b : (a % 4 * 16 + b / 16) % 16 * 16 + (b % 16 * 4 + c / 64) / 4 ≡ b = omega arith in
    let same_c : (b % 16 * 4 + c / 64) % 4 * 64 + c % 64 ≡ c = omega arith in
    group (a / 4) (a % 4 * 16 + b / 16) (b % 16 * 4 + c / 64) (c % 64) (encode_from rest)
      (omega arith) (omega arith) (omega arith) (omega arith)
    ∙ rw (same_a, same_b, same_c, decode-encode_from rest h) refl

encode_from-length : (xs : List ℕ) → length (encode_from xs) ≡ (length xs + 2) / 3 * 4
unfolding encode_from
encode_from-length [] = refl
encode_from-length (a ∷ []) = refl
encode_from-length (a ∷ b ∷ []) = refl
encode_from-length (a ∷ b ∷ c ∷ rest) = omega (arith, encode_from-length rest)

-- `base64_encode` returns -1 where the caller's buffer is too small, and otherwise writes a string
-- that fits it with its terminator and decodes to the input, if that consists of bytes.
pub base64_encode-decode :
    (xs : List ℕ) (outlen : ℕ)
    → All (λ b. b < 256) xs
    → ((base64_encode xs outlen ≡ none) × (outlen ≤ (length xs + 2) / 3 * 4))
      ⊎ ((s : List ℕ) × (base64_encode xs outlen ≡ some s) × (length s < outlen) × (decode s ≡ xs))
unfolding base64_encode
base64_encode-decode xs outlen h = elim (Bool-cases (ltb outlen ((length xs + 2) / 3 * 4 + 1))) [
  | inl small ↦ rw small (inl (refl, omega (arith, ltb→lt _ _ small)))
  | inr room ↦ rw room (
      inr (
        encode_from xs,
        refl,
        omega (arith, encode_from-length xs, ltb→ge _ _ room),
        decode-encode_from xs h,
      ))
]
