-- ===== src/Shcmd/Json/Read.antt =====
-- The strings that `json_escape` of shcmd/src/shcmd.c writes, read by the rules of JSON.
use openwrt_demo.Prelude.{
  ℕ, suc, some, ◌⊎◌, ◌+◌, ◌*◌, ◌/◌, ◌%◌, ◌≤◌, ◌<◌, ◌≡◌, refl, ap, subst, ◌∙◌, List, [], ◌∷◌, ◌++◌,
  ltb, ◌==◌, length, take, take_all, inl, inr, Bool-cases, arith, true, false, length-append,
}
use openwrt_demo.Shcmd.Json.Text.{plain, and_byte, read_json, read_json-control, and_byte-some}
use openwrt_demo.Shcmd.Json.{lower_digit, escape_byte, escape_loop, json_escape}

-- A byte that has an escape of its own.
read_json-named :
    (k c : ℕ) (rest : List ℕ)
    → (c == k) ≡ true
    → read_json plain (escape_byte k ++ rest) ≡ and_byte k (read_json plain rest)
    → read_json plain (escape_byte c ++ rest) ≡ and_byte c (read_json plain rest)
read_json-named k c rest is h =
    let same : k ≡ c = ground arith in
    subst (λ d. read_json plain (escape_byte d ++ rest) ≡ and_byte d (read_json plain rest)) same h

read_json-plain :
    (c : ℕ) (cs : List ℕ)
    → (c == b'\\') ≡ false
    → (c == b'"') ≡ false
    → ltb c 32 ≡ false
    → read_json plain (c ∷ cs) ≡ and_byte c (read_json plain cs)
unfolding read_json
read_json-plain c cs h a g = rw h (rw a (rw g refl))

module _ (c : ℕ) (rest : List ℕ) (a : (c == b'"') ≡ false) (b : (c == b'\\') ≡ false)
    (d : (c == 10) ≡ false) (e : (c == 13) ≡ false) (f : (c == 9) ≡ false) where
  control_escape :
      ltb c 32 ≡ true
      → read_json plain (escape_byte c ++ rest)
        ≡ read_json plain
            (b'\\' ∷ b'u' ∷ b'0' ∷ b'0' ∷ lower_digit (c / 16) ∷ lower_digit (c % 16) ∷ rest)
  unfolding escape_byte
  control_escape g = rw (a, escape_byte) (rw b (rw d (rw e (rw f (rw g refl)))))

  plain_escape :
      ltb c 32 ≡ false → read_json plain (escape_byte c ++ rest) ≡ read_json plain (c ∷ rest)
  unfolding escape_byte
  plain_escape g = rw (a, escape_byte) (rw b (rw d (rw e (rw f (rw g refl)))))

-- The escape of a byte stands for the byte.
read_json-escape_byte :
    (c : ℕ) (rest : List ℕ)
    → read_json plain (escape_byte c ++ rest) ≡ and_byte c (read_json plain rest)
unfolding escape_byte read_json
read_json-escape_byte c rest = elim (Bool-cases (c == b'"')) [
  | inl is ↦ read_json-named b'"' c rest is refl
  | inr a ↦ elim (Bool-cases (c == b'\\')) [
    | inl is ↦ read_json-named b'\\' c rest is refl
    | inr b ↦ elim (Bool-cases (c == 10)) [
      | inl is ↦ read_json-named 10 c rest is refl
      | inr d ↦ elim (Bool-cases (c == 13)) [
        | inl is ↦ read_json-named 13 c rest is refl
        | inr e ↦ elim (Bool-cases (c == 9)) [
          | inl is ↦ read_json-named 9 c rest is refl
          | inr f ↦ elim (Bool-cases (ltb c 32)) [
            | inl is ↦ control_escape c rest a b d e f is ∙ read_json-control c rest (ground arith)
            | inr g ↦ plain_escape c rest a b d e f g ∙ read_json-plain c rest b a g
          ]
        ]
      ]
    ]
  ]
]

length-escape_byte : (c : ℕ) → (0 < length (escape_byte c)) × (length (escape_byte c) ≤ 6)
unfolding escape_byte
length-escape_byte c = ground arith

-- What is written is never longer than the buffer has room for, behind `o` bytes.
length-escape_loop :
    (outlen o : ℕ) (text : List ℕ) → o < outlen → o + length (escape_loop outlen o text) < outlen
unfolding escape_loop
length-escape_loop outlen o [] h = omega (arith, h)
length-escape_loop outlen o (c ∷ cs) h = elim (Bool-cases (ltb (o + 8) outlen)) [
  | inr full ↦ rw full (omega (arith, h))
  | inl room ↦
      let (_, short) = length-escape_byte c in
      let rest =
        length-escape_loop outlen (o + length (escape_byte c)) cs (ground (arith, short)) in
      rw room (
        omega (
          arith,
          rest,
          length-append (escape_byte c) (escape_loop outlen (o + length (escape_byte c)) cs),
        ))
]

-- What is written stands for the first bytes of the text; some are left out only where eight more bytes
-- do not fit, and none where there is room for six for each byte.
escape_loop-take :
    (outlen o : ℕ) (text : List ℕ)
    → (k : ℕ) × (k ≤ length text)
      × (read_json plain (escape_loop outlen o text) ≡ some (take k text))
      × ((k ≡ length text) ⊎ (outlen ≤ o + length (escape_loop outlen o text) + 8))
      × (o + length text * 6 + 8 < outlen + 6 → k ≡ length text)
unfolding escape_loop read_json
escape_loop-take outlen o [] = (0, omega arith, refl, inl refl, λ h. refl)
escape_loop-take outlen o (c ∷ cs) = elim (Bool-cases (ltb (o + 8) outlen)) [
  | inr full ↦ rw full (0, omega arith, refl, inr (ground (arith, full)), λ h. ground arith)
  | inl room ↦
      let (_, short) = length-escape_byte c in
      let o' = o + length (escape_byte c) in
      let written = length-append (escape_byte c) (escape_loop outlen o' cs) in
      let (k, le, same, filled, all) = escape_loop-take outlen o' cs in
      rw room (
        suc k,
        omega (arith, le),
        read_json-escape_byte c (escape_loop outlen o' cs)
            ∙ ap (and_byte c) same
            ∙ and_byte-some c (take k cs),
        elim filled [
          | inl whole ↦ inl (ap suc whole)
          | inr no_room ↦ inr (omega (arith, no_room, written))
        ],
        λ h. ap suc (all (omega (arith, h, short))),
      )
]

-- `json_escape` stays within its buffer, and what it writes is the text of a well-formed JSON string,
-- which stands for the first bytes of the output: for all of them, unless the text has come to the
-- last eight bytes of the buffer.
pub json_escape-take :
    (text : List ℕ) (outlen : ℕ)
    → 0 < outlen
    → (length (json_escape text outlen) < outlen)
      × ((k : ℕ) × (k ≤ length text)
          × (read_json plain (json_escape text outlen) ≡ some (take k text))
          × ((k ≡ length text) ⊎ (outlen ≤ length (json_escape text outlen) + 8)))
unfolding json_escape
json_escape-take text outlen h =
    let bound = length-escape_loop outlen 0 text h in
    let (k, le, same, filled, all) = escape_loop-take outlen 0 text in
    let room =
      elim filled as (λ x. (k ≡ length text) ⊎ (outlen ≤ length (escape_loop outlen 0 text) + 8)) [
        | inl whole ↦ inl whole
        | inr no_room ↦ inr (omega (arith, no_room))
      ] in
    (omega (arith, bound), (k, le, same, room))

-- With more than two bytes of room beside six for each byte of the output, all of it is there.
pub json_escape-whole :
    (text : List ℕ) (outlen : ℕ)
    → length text * 6 + 2 < outlen
    → read_json plain (json_escape text outlen) ≡ some text
unfolding json_escape
json_escape-whole text outlen h =
    let (k, le, same, filled, all) = escape_loop-take outlen 0 text in
    let whole = all (omega (arith, h)) in same ∙ ap some (take_all k text (omega (arith, whole)))

-- In a buffer of six bytes for each byte of the output and one more, an output of one byte is lost.
json_escape-one : (c : ℕ) → json_escape (c ∷ []) (1 * 6 + 1) ≡ []
unfolding json_escape escape_loop
json_escape-one c = refl
