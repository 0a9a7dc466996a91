-- ===== src/Rules/Hex.antt =====
-- The digits of a rule's magic.
use openwrt_demo.Rules.{
  hexval, finished, digits, Rule, proto_fits, port_fits, magic_fits, fits, magic_of, rule,
}
use openwrt_demo.Crypto.Words.{hex, hex_digit}
use mathlib.Core.List.{append_assoc}
use openwrt_demo.Prelude.{
  append_nil, ℕ, ◌+◌, ◌*◌, ◌/◌, ◌%◌, ◌≤◌, ◌<◌, ◌≡◌, refl, sym, ap, ◌∙◌, Bool, true, false, ◌&&◌,
  Option, none, some, List, [], ◌∷◌, ◌++◌, inl, inr, ltb, ◌==◌, Bool-cases, Option-cases, arith,
  length, length-append, All, same_bytes, bytes_of, ℤ, lt→ltb,
}

-- how many digits a first half stands for
abbrev halves : Option ℕ → ℕ
halves none = 0
halves (some h) = 1

-- One round of the loop, on each of its branches.
pub digits-full :
    (c : ℕ) (cs : List ℕ) (hi : Option ℕ) (magic : List ℕ)
    → ltb (length magic) 16 ≡ false
    → digits (c ∷ cs) hi magic ≡ finished hi magic
unfolding digits
digits-full c cs hi magic full = rw (full, digits) refl

module _ (c : ℕ) (cs magic : List ℕ) (room : ltb (length magic) 16 ≡ true) where
  pub digits-blank :
      (hi : Option ℕ) → (c == 32) ≡ true → digits (c ∷ cs) hi magic ≡ digits cs hi magic
  unfolding digits
  digits-blank hi blank = rw (room, digits, blank) refl

  module _ (other : (c == 32) ≡ false) where
    pub digits-wrong : (hi : Option ℕ) → hexval c ≡ none → digits (c ∷ cs) hi magic ≡ []
    unfolding digits
    digits-wrong hi bad = rw (room, digits, other, bad) refl

    pub digits-high :
        (v : ℕ) → hexval c ≡ some v → digits (c ∷ cs) none magic ≡ digits cs (some v) magic
    unfolding digits
    digits-high v digit = rw (room, digits, other, digit) refl

    pub digits-low :
        (h v : ℕ)
        → hexval c ≡ some v
        → digits (c ∷ cs) (some h) magic ≡ digits cs none (magic ++ (h * 16 + v) ∷ [])
    unfolding digits
    digits-low h v digit = rw (room, digits, other, digit) refl

-- A character that is no digit, with fewer than 32 characters before it, takes all bytes away.
digits-bad :
    (cs rest : List ℕ) (c : ℕ) (hi : Option ℕ) (magic : List ℕ)
    → hexval c ≡ none
    → (c == 32) ≡ false
    → 2 * length magic + halves hi + length cs < 32
    → digits (cs ++ c ∷ rest) hi magic ≡ []
digits-bad [] rest c hi magic bad n lt =
    let room : ltb (length magic) 16 ≡ true = lt→ltb _ _ (omega arith) in
    digits-wrong c rest magic room n hi bad
digits-bad (x ∷ xs) rest c hi magic bad n lt =
    let room : ltb (length magic) 16 ≡ true = lt→ltb _ _ (omega arith) in
    let tail = xs ++ c ∷ rest in
    elim (Bool-cases (x == 32)) [
      | inl blank ↦
          digits-blank x tail magic room hi blank
          ∙ digits-bad xs rest c hi magic bad n (omega arith)
      | inr other ↦ elim (Option-cases (hexval x)) [
        | inl wrong ↦ digits-wrong x tail magic room other hi wrong
        | inr (v, digit) ↦
            elim hi
                as (λ h.
                  2 * length magic + halves h + length (x ∷ xs) < 32
                  → digits (x ∷ tail) h magic ≡ []) [
                    | none ↦ λ l.
                        digits-high x tail magic room other v digit
                        ∙ digits-bad xs rest c (some v) magic bad n (omega arith)
                    | some h ↦ λ l.
                        digits-low x tail magic room other h v digit
                        ∙ digits-bad xs rest c none (magic ++ (h * 16 + v) ∷ []) bad n
                            (omega (arith, length-append magic ((h * 16 + v) ∷ [])))
                  ]
              lt
      ]
    ]

magic_of-bad :
    (atoi : List ℕ → ℤ) (off_s cs rest : List ℕ) (c : ℕ)
    → hexval c ≡ none
    → (c == 32) ≡ false
    → length cs < 32
    → (magic_of atoi off_s (cs ++ c ∷ rest)).1 ≡ []
unfolding magic_of
magic_of-bad atoi off_s cs rest c bad n lt =
    elim (Bool-cases (same_bytes (cs ++ c ∷ rest) (bytes_of "*"))) [
      | inl star ↦ rw star refl
      | inr text ↦ rw text (digits-bad cs rest c none [] bad n (omega arith))
    ]

magic_fits-none : (r : Rule) (payload : List ℕ) → r.magic ≡ [] → magic_fits r payload ≡ true
unfolding magic_fits
magic_fits-none r payload e = rw e refl

and_last : (a b c : Bool) → c ≡ true → a && b && c ≡ a && b
and_last true true c e = e
and_last true false c e = refl
and_last false b c e = refl

-- A rule whose magic has a character that is neither a digit nor a blank, with fewer than 32
-- characters before it, fits every payload of its protocol and port.
pub rule-bad_magic :
    (atoi : List ℕ → ℤ) (proto_s port_s off_s cs rest app : List ℕ) (cat : Option (List ℕ))
    (c proto dst_port : ℕ) (payload : List ℕ)
    → hexval c ≡ none
    → (c == 32) ≡ false
    → length cs < 32
    → let r = rule atoi proto_s port_s off_s (cs ++ c ∷ rest) app cat in
      fits proto dst_port payload r ≡ proto_fits r.proto proto && port_fits r.port dst_port
unfolding rule fits
rule-bad_magic atoi proto_s port_s off_s cs rest app cat c proto dst_port payload bad n lt =
    let r = rule atoi proto_s port_s off_s (cs ++ c ∷ rest) app cat in
    and_last (proto_fits r.proto proto) (port_fits r.port dst_port) (magic_fits r payload)
      (magic_fits-none r payload (magic_of-bad atoi off_s cs rest c bad n lt))

hexval-hex_digit :
    (d : ℕ) → d < 16 → (hexval (hex_digit d) ≡ some d) × ((hex_digit d == 32) ≡ false)
unfolding hexval
hexval-hex_digit d lt = ground arith

digits-hex_from :
    (bs magic : List ℕ)
    → All (λ b. b < 256) bs
    → length magic + length bs ≤ 16
    → digits (hex bs) none magic ≡ magic ++ bs
unfolding digits hex finished
digits-hex_from [] magic h le = sym (append_nil magic)
digits-hex_from (b ∷ bs) magic h le =
    let room : ltb (length magic) 16 ≡ true = lt→ltb _ _ (omega arith) in
    let (high, high_blank) = hexval-hex_digit (b / 16) (omega (arith, h.0)) in
    let (low, low_blank) = hexval-hex_digit (b % 16) (omega arith) in
    let whole : b / 16 * 16 + b % 16 ≡ b = omega arith in
    digits-high _ (hex_digit (b % 16) ∷ hex bs) magic room high_blank _ high
    ∙ digits-low _ (hex bs) magic room low_blank _ _ low
    ∙ ap (λ x. digits (hex bs) none (magic ++ x ∷ [])) whole
    ∙ digits-hex_from bs (magic ++ b ∷ []) h.1 (omega (arith, length-append magic (b ∷ [])))
    ∙ append_assoc magic (b ∷ []) bs

-- The magic of up to 16 bytes that are written in hexadecimal digits is these bytes.
digits-hex : (bs : List ℕ) → All (λ b. b < 256) bs → length bs ≤ 16 → digits (hex bs) none [] ≡ bs
digits-hex bs h le = digits-hex_from bs [] h (omega arith)
