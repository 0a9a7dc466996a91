-- ===== src/Rules/Order.antt =====
-- Which line of the file decides.
use openwrt_demo.Rules.{Rule, fits, first_fit, l7_match, parse_line, load_rule, load_lines, l7_load}
use openwrt_demo.Prelude.{
  ℕ, ◌<◌, ◌≡◌, refl, ap, ◌∙◌, Bool, true, false, Option, none, some, List, [], ◌∷◌, ◌++◌, ◌==◌,
  arith, length, All, ℤ,
}

-- what a line says does not fit
abbrev pub Unfit : ℕ → ℕ → List ℕ → Option Rule → Type 0
Unfit proto dst_port payload none = Unit
Unfit proto dst_port payload (some r) = fits proto dst_port payload r ≡ false

module _ (atoi : List ℕ → ℤ) where
  load_lines-append :
      (xs ys : List (List ℕ × Bool)) (acc : List Rule × ℕ)
      → load_lines atoi (xs ++ ys) acc ≡ load_lines atoi ys (load_lines atoi xs acc)
  unfolding load_lines
  load_lines-append [] ys acc = refl
  load_lines-append ((line, calloc) ∷ xs) ys acc =
      load_lines-append xs ys (load_rule atoi calloc (parse_line atoi line) acc)

  -- The table grows by a rule that does not fit, or not at all.
  first_fit-load_rule :
      (proto dst_port : ℕ) (payload : List ℕ) (calloc : Bool) (o : Option Rule)
      (acc : List Rule × ℕ)
      → Unfit proto dst_port payload o
      → first_fit proto dst_port payload (load_rule atoi calloc o acc).0
        ≡ first_fit proto dst_port payload acc.0
  unfolding load_rule first_fit
  first_fit-load_rule proto dst_port payload calloc none (rules, count) h = refl
  first_fit-load_rule proto dst_port payload false (some r) (rules, count) h = refl
  first_fit-load_rule proto dst_port payload true (some r) (rules, count) h = rw (h, first_fit) refl

  first_fit-load_lines :
      (proto dst_port : ℕ) (payload : List ℕ) (xs : List (List ℕ × Bool)) (acc : List Rule × ℕ)
      → All (λ l. Unfit proto dst_port payload (parse_line atoi l.0)) xs
      → first_fit proto dst_port payload (load_lines atoi xs acc).0
        ≡ first_fit proto dst_port payload acc.0
  unfolding load_lines
  first_fit-load_lines proto dst_port payload [] acc h = refl
  first_fit-load_lines proto dst_port payload ((line, calloc) ∷ xs) acc h =
      first_fit-load_lines proto dst_port payload xs
        (load_rule atoi calloc (parse_line atoi line) acc) h.1
      ∙ first_fit-load_rule proto dst_port payload calloc (parse_line atoi line) acc h.0

  first_fit-last :
      (proto dst_port : ℕ) (payload : List ℕ) (r : Rule) (line : List ℕ) (acc : List Rule × ℕ)
      → parse_line atoi line ≡ some r
      → fits proto dst_port payload r ≡ true
      → first_fit proto dst_port payload (load_rule atoi true (parse_line atoi line) acc).0
        ≡ some (r.app, r.cat)
  unfolding load_rule first_fit
  first_fit-last proto dst_port payload r line (rules, count) e h = rw (e, h, first_fit) refl

  l7_match-first_fit :
      (proto dst_port : ℕ) (payload : List ℕ) (rules : List Rule)
      → 0 < length payload
      → l7_match proto dst_port (some payload) rules ≡ first_fit proto dst_port payload rules
  unfolding l7_match
  l7_match-first_fit proto dst_port payload rules lt =
      let there : (length payload == 0) ≡ false = ground arith in rw there refl

  -- Of the lines of the file whose rule fits a payload the last one decides, if memory is granted
  -- for it: the match gives its application and its category.
  pub l7_match-l7_load :
      (before after : List (List ℕ × Bool)) (line : List ℕ) (r : Rule) (old : List Rule)
      (proto dst_port : ℕ) (payload : List ℕ)
      → 0 < length payload
      → parse_line atoi line ≡ some r
      → fits proto dst_port payload r ≡ true
      → All (λ l. Unfit proto dst_port payload (parse_line atoi l.0)) after
      → l7_match proto dst_port
          (some payload)
          (l7_load atoi (some (before ++ (line, true) ∷ after)) old).0
        ≡ some (r.app, r.cat)
  unfolding l7_load load_lines
  l7_match-l7_load before after line r old proto dst_port payload lt e h u =
      let acc = load_lines atoi before ([], 0) in
      l7_match-first_fit proto dst_port payload
        (load_lines atoi (before ++ (line, true) ∷ after) ([], 0)).0 lt
      ∙ ap (λ t. first_fit proto dst_port payload t.0)
          (load_lines-append before ((line, true) ∷ after) ([], 0))
      ∙ first_fit-load_lines proto dst_port payload after
          (load_rule atoi true (parse_line atoi line) acc) u
      ∙ first_fit-last proto dst_port payload r line acc e h
