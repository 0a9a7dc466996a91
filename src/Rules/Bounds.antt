-- ===== src/Rules/Bounds.antt =====
-- What a rule holds fits the arrays of `struct l7_rule`.
use openwrt_demo.Rules.{
  hexval, finished, digits, Rule, cat_of, magic_of, rule, rule_of, skipped, parse_line, load_rule,
  load_lines, l7_load,
}
use openwrt_demo.Rules.Hex.{digits-full, digits-blank, digits-wrong, digits-high, digits-low}
use openwrt_demo.Prelude.{
  ℕ, ◌+◌, ◌≤◌, ◌<◌, ◌≡◌, sym, subst, ◌*◌, Bool, true, false, Option, none, some, List, [], ◌∷◌,
  ◌++◌, inl, inr, ltb, ◌==◌, Bool-cases, Option-cases, arith, length, length-append, length-take,
  bytes_of, same_bytes, cut_at, tokens, All, ℤ, ltb→lt,
}

fewer : (xs ys : List ℕ) → xs ≡ ys → length ys ≤ 16 → length xs ≤ 16
fewer xs ys e h = subst (λ zs. length zs ≤ 16) (sym e) h

finished-length :
    (hi : Option ℕ) (magic : List ℕ) → length magic ≤ 16 → length (finished hi magic) ≤ 16
unfolding finished
finished-length none magic h = h
finished-length (some hi) magic h = omega arith

digits-length :
    (cs : List ℕ) (hi : Option ℕ) (magic : List ℕ)
    → length magic ≤ 16
    → length (digits cs hi magic) ≤ 16
unfolding digits
digits-length [] hi magic h = finished-length hi magic h
digits-length (c ∷ cs) hi magic h = elim (Bool-cases (ltb (length magic) 16)) [
  | inr full ↦ fewer _ _ (digits-full c cs hi magic full) (finished-length hi magic h)
  | inl room ↦ elim (Bool-cases (c == 32)) [
    | inl blank ↦ fewer _ _ (digits-blank c cs magic room hi blank) (digits-length cs hi magic h)
    | inr other ↦ elim (Option-cases (hexval c)) [
      | inl wrong ↦ fewer _ _ (digits-wrong c cs magic room other hi wrong) (omega arith)
      | inr (v, digit) ↦ elim hi as (λ hi. length (digits (c ∷ cs) hi magic) ≤ 16) [
        | none ↦
            fewer _ _ (digits-high c cs magic room other v digit)
              (digits-length cs (some v) magic h)
        | some half ↦ fewer _ _ (digits-low c cs magic room other half v digit) (
            digits-length cs none (magic ++ (half * 16 + v) ∷ []) (
              omega
                (arith, length-append magic ((half * 16 + v) ∷ []), ltb→lt (length magic) 16 room)))
      ]
    ]
  ]
]

-- A rule holds at most 16 bytes of magic, 63 of the application and 31 of the category.
pub record Holds (r : Rule) : Type 0 where
  pub magic : length r.magic ≤ 16
  pub app : length r.app < 64
  pub cat : length r.cat < 32

abbrev pub AllHold : Option Rule → Type 0
AllHold none = Unit
AllHold (some r) = Holds r

module _ (atoi : List ℕ → ℤ) where
  magic_of-length : (off_s magic_s : List ℕ) → length (magic_of atoi off_s magic_s).1 ≤ 16
  unfolding magic_of
  magic_of-length off_s magic_s = elim (Bool-cases (same_bytes magic_s (bytes_of "*"))) [
    | inl star ↦ rw star (omega arith)
    | inr text ↦ rw text (digits-length magic_s none [] (omega arith))
  ]

  rule-Holds :
      (proto_s port_s off_s magic_s app_s : List ℕ) (cat_s : Option (List ℕ))
      → Holds (rule atoi proto_s port_s off_s magic_s app_s cat_s)
  unfolding rule
  rule-Holds proto_s port_s off_s magic_s app_s cat_s = record {
    magic = magic_of-length off_s magic_s;
    app = omega (arith, length-take 63 app_s);
    cat = omega (arith, length-take 31 (cat_of cat_s));
  }

  rule_of-Holds : (fields : List (List ℕ)) → AllHold (rule_of atoi fields)
  unfolding rule_of
  rule_of-Holds [] = tt
  rule_of-Holds (proto ∷ []) = tt
  rule_of-Holds (proto ∷ port ∷ []) = tt
  rule_of-Holds (proto ∷ port ∷ off ∷ []) = tt
  rule_of-Holds (proto ∷ port ∷ off ∷ hex ∷ []) = tt
  rule_of-Holds (proto ∷ port ∷ off ∷ hex ∷ app ∷ []) = rule-Holds proto port off hex app none
  rule_of-Holds (proto ∷ port ∷ off ∷ hex ∷ app ∷ cat ∷ more) =
      rule-Holds proto port off hex app (some cat)

  parse_line-Holds : (line : List ℕ) → AllHold (parse_line atoi line)
  unfolding parse_line
  parse_line-Holds line = elim (Bool-cases (skipped (cut_at 13 (cut_at 10 line)))) [
    | inl skip ↦ rw skip tt
    | inr text ↦ rw text (rule_of-Holds (tokens b',' (cut_at 13 (cut_at 10 line))))
  ]

  load_rule-Holds :
      (calloc : Bool) (o : Option Rule) (acc : List Rule × ℕ)
      → AllHold o
      → All Holds acc.0
      → All Holds (load_rule atoi calloc o acc).0
  unfolding load_rule
  load_rule-Holds calloc none (rules, count) h all = all
  load_rule-Holds false (some r) (rules, count) h all = all
  load_rule-Holds true (some r) (rules, count) h all = (h, all)

  load_lines-Holds :
      (lines : List (List ℕ × Bool)) (acc : List Rule × ℕ)
      → All Holds acc.0
      → All Holds (load_lines atoi lines acc).0
  unfolding load_lines
  load_lines-Holds [] acc all = all
  load_lines-Holds ((line, calloc) ∷ more) acc all =
      load_lines-Holds more (load_rule atoi calloc (parse_line atoi line) acc)
        (load_rule-Holds calloc (parse_line atoi line) acc (parse_line-Holds line) all)

  -- Whatever the file holds, no rule that is loaded writes behind its arrays: 16 bytes of magic, and
  -- an application and a category that fit 64 and 32 bytes with their terminators.
  l7_load-Holds :
      (lines : List (List ℕ × Bool)) (old : List Rule) → All Holds (l7_load atoi (some lines) old).0
  unfolding l7_load
  l7_load-Holds lines old = load_lines-Holds lines ([], 0) tt
