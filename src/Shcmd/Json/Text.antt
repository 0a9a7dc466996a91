-- ===== src/Shcmd/Json/Text.antt =====
-- The text of a JSON string, read by the rules of JSON.
use openwrt_demo.Prelude.{
  ℕ, ◌&&◌, ◌||◌, not, Bool, Option, none, some, ◌+◌, ◌-◌, ◌*◌, ◌/◌, ◌%◌, ◌<◌, ◌≡◌, refl, ap, ◌∙◌,
  List, [], ◌∷◌, ltb, leb, ◌==◌, if◌then◌else◌, arith, true, false,
}
use openwrt_demo.Shcmd.Json.{lower_digit}

-- in a string's text, behind a backslash, and behind "\u" with some digits read
pub data Reading : Type 0 where
  plain : Reading
  backslash : Reading
  digits : ℕ → ℕ → Reading

unfoldable pub is_hex_digit : ℕ → Bool
is_hex_digit c = leb b'0' c && leb c b'9' || leb b'a' c && leb c b'f' || leb b'A' c && leb c b'F'

unfoldable pub digit_value : ℕ → ℕ
digit_value c =
    if leb b'0' c && leb c b'9'
    then c - b'0'
    else if leb b'a' c && leb c b'f'
    then c - b'a' + 10
    else c - b'A' + 10

unfoldable pub and_byte : ℕ → Option (List ℕ) → Option (List ℕ)
and_byte c none = none
and_byte c (some text) = some (c ∷ text)

-- The bytes that the text of a JSON string stands for, of those that need one byte; none where the text
-- is malformed: a quote, a control byte, an escape that JSON has not, or the text's end in an escape.
unfoldable pub read_json : Reading → List ℕ → Option (List ℕ)
read_json plain [] = some []
read_json backslash [] = none
read_json (digits n value) [] = none
read_json plain (c ∷ cs) =
    let text = read_json plain cs in
    let escape = read_json backslash cs in
    if c == b'\\' then escape else if c == b'"' || ltb c 32 then none else and_byte c text
read_json backslash (c ∷ cs) =
    let text = read_json plain cs in
    let number = read_json (digits 0 0) cs in
    if c == b'u'
    then number
    else if c == b'n'
    then and_byte 10 text
    else if c == b'r'
    then and_byte 13 text
    else if c == b't'
    then and_byte 9 text
    else if c == b'b'
    then and_byte 8 text
    else if c == b'f'
    then and_byte 12 text
    else if c == b'"' || c == b'\\' || c == b'/'
    then and_byte c text
    else none
read_json (digits n value) (c ∷ cs) =
    let text = read_json plain cs in
    let more = read_json (digits (n + 1) (value * 16 + digit_value c)) cs in
    if not (is_hex_digit c)
    then none
    else if not (n == 3)
    then more
    else if ltb (value * 16 + digit_value c) 128
    then and_byte (value * 16 + digit_value c) text
    else none

digit_value-lower_digit : (d : ℕ) → d < 16 → digit_value (lower_digit d) ≡ d
unfolding digit_value lower_digit
digit_value-lower_digit d h = ground arith

is_hex_digit-lower_digit : (d : ℕ) → d < 16 → is_hex_digit (lower_digit d) ≡ true
unfolding is_hex_digit lower_digit
is_hex_digit-lower_digit d h = ground arith

-- A digit that is not the last one, and the last one.
read_json-digit :
    (n value d : ℕ) (cs : List ℕ)
    → d < 16
    → (n == 3) ≡ false
    → read_json (digits n value) (lower_digit d ∷ cs)
      ≡ read_json (digits (n + 1) (value * 16 + d)) cs
unfolding read_json
read_json-digit n value d cs h more = rw (is_hex_digit-lower_digit d h) (
    rw more
      (ap (λ v. read_json (digits (n + 1) (value * 16 + v)) cs) (digit_value-lower_digit d h)))

read_json_last :
    (value d : ℕ) (cs : List ℕ)
    → d < 16
    → value * 16 + d < 128
    → read_json (digits 3 value) (lower_digit d ∷ cs)
      ≡ and_byte (value * 16 + d) (read_json plain cs)
unfolding read_json
read_json_last value d cs h small =
    let same = digit_value-lower_digit d h in
    let fits : ltb (value * 16 + digit_value (lower_digit d)) 128 ≡ true =
      ground (arith, small, same) in
    rw (is_hex_digit-lower_digit d h)
      (rw fits (ap (λ v. and_byte (value * 16 + v) (read_json plain cs)) same))

pub read_json-control :
    (c : ℕ) (rest : List ℕ)
    → c < 32
    → read_json plain
        (b'\\' ∷ b'u' ∷ b'0' ∷ b'0' ∷ lower_digit (c / 16) ∷ lower_digit (c % 16) ∷ rest)
      ≡ and_byte c (read_json plain rest)
unfolding read_json digit_value is_hex_digit
read_json-control c rest h =
    let same : (0 * 16 + c / 16) * 16 + c % 16 ≡ c = omega arith in
    read_json-digit 2 0 (c / 16) (lower_digit (c % 16) ∷ rest) (omega (arith, h)) refl
    ∙ read_json_last (0 * 16 + c / 16) (c % 16) rest (omega arith) (omega (arith, same, h))
    ∙ ap (λ d. and_byte d (read_json plain rest)) same

pub and_byte-some : (c : ℕ) (text : List ℕ) → and_byte c (some text) ≡ some (c ∷ text)
unfolding and_byte
and_byte-some c text = refl
