-- ===== src/Shcmd/Request/Runs.antt =====
-- When `handle_client` of shcmd/src/shcmd.c runs a command.
use mathlib.Core.List.{Mem, mem-cons_self, mem-cons_of_mem}
use mathlib.Core.Option.{some-injective}
use openwrt_demo.Prelude.{
  ℕ, All, ◌≡◌, ◌≢◌, refl, sym, ap, subst, ◌∙◌, Bool, true, false, not, ◌||◌, Option, none, some,
  List, [], ◌∷◌, ◌==◌, inl, inr, Bool-cases, arith, length, bytes_of, same_bytes, same_bytes-eq,
  else_case, ℤ, ◌≤ℤ◌, not-false,
}
use openwrt_demo.Shcmd.Access.{addr_allowed, token_ok, any_equal, ct_equal}
use openwrt_demo.Shcmd.Access.Prefix.{AreBytes, Permits, addr_allowed-Permits}
use openwrt_demo.Shcmd.Request.Values.{given_values, extra_args-given_values}
use openwrt_demo.Shcmd.Request.Words.{IsListed, enum_ok-IsListed}
use openwrt_demo.Shcmd.Request.{
  ArgSpec, Entry, Config, Request, Outcome, reply, commands, schema, run_argv, request_token,
  request_name, entry_find, extra_args, enum_ok, number_ok, range_ok, args_ok, build_argv,
  run_built, run_entry, run_found, run_named, route, handle_client,
}

-- A configured token equals the candidate.
any_equal-Mem :
    (cand : List ℕ) (tokens : List (List ℕ))
    → any_equal cand tokens ≡ true
    → (t : List ℕ) × Mem t tokens × (ct_equal cand t ≡ true)
unfolding any_equal
any_equal-Mem cand [] h = cc
any_equal-Mem cand (t ∷ ts) h = elim (Bool-cases (ct_equal cand t)) [
  | inl is ↦ (t, mem-cons_self, is)
  | inr other ↦
      let later : any_equal cand ts ≡ true = sym (rw other refl) ∙ h in
      let (u, mem, is) = any_equal-Mem cand ts later in (u, mem-cons_of_mem t mem, is)
]

token_ok-Mem :
    (tokens : List (List ℕ)) (cand : List ℕ)
    → token_ok tokens cand ≡ true
    → (t : List ℕ) × Mem t tokens × (ct_equal cand t ≡ true)
unfolding token_ok
token_ok-Mem tokens cand h =
    any_equal-Mem cand tokens
      (else_case (length tokens == 0) false (any_equal cand tokens) true h (λ e. cc)).1

-- The entry that is found is one of the configuration, and has the name.
entry_find-Mem :
    (es : List Entry) (name : List ℕ) (e : Entry)
    → entry_find es name ≡ some e
    → Mem e es × (e.name ≡ name)
unfolding entry_find
entry_find-Mem [] name e h = cc
entry_find-Mem (x ∷ xs) name e h = elim (Bool-cases (same_bytes x.name name)) [
  | inl is ↦
      let found : entry_find (x ∷ xs) name ≡ some x = rw is refl in
      let same : x ≡ e = some-injective _ _ (sym found ∙ h) in
      (
        subst (λ y. Mem y (x ∷ xs)) same mem-cons_self,
        ap (λ y. y.name) (sym same) ∙ same_bytes-eq x.name name is,
      )
  | inr other ↦
      let later : entry_find xs name ≡ some e = sym (rw other refl) ∙ h in
      let (mem, named) = entry_find-Mem xs name e later in (mem-cons_of_mem x mem, named)
]

-- the value of an argument keeps to its constraint
abbrev pub InRange : (List ℕ → Option ℤ) → Option (ℤ × ℤ) → List ℕ → Type 0
InRange strtol none v = Unit
InRange strtol (some (least, most)) v = (n : ℤ) × (strtol v ≡ some n) × (least ≤ℤ n) × (n ≤ℤ most)

-- The values keep to the constraints, one after the other, and there is one for each that is required.
abbrev pub Satisfies : (List ℕ → Option ℤ) → List ArgSpec → List (List ℕ) → Type 0
Satisfies strtol [] extra = Unit
Satisfies strtol (a ∷ specs) [] = (a.required ≡ false) × Satisfies strtol specs []
Satisfies strtol (a ∷ specs) ([] ∷ extra) = (a.required ≡ false) × Satisfies strtol specs extra
Satisfies strtol (a ∷ specs) ((c ∷ cs) ∷ extra) =
    IsListed a.enums (c ∷ cs) × InRange strtol a.range (c ∷ cs) × Satisfies strtol specs extra

-- an entry with the name that was asked for, and values that keep to its constraints; the command line
-- is what the entry's slots become with the values
abbrev pub RunsEntry :
    (List ℕ → Option ℤ) → Config → Request → List (List ℕ) → List (List ℕ) → ℕ → Type 0
RunsEntry strtol cfg r values argv timeout =
    (e : Entry) × Mem e cfg.entries
    × (request_name r ≡ some e.name)
    × Satisfies strtol e.args values
    × (run_built e values (build_argv e.argv values) ≡ run_argv argv timeout)

-- why a command line is run: a token, and an entry that runs with the values that are given
abbrev pub Runs : (List ℕ → Option ℤ) → Config → Request → List (List ℕ) → ℕ → Type 0
Runs strtol cfg r argv timeout =
    ((token : List ℕ) × Mem token cfg.tokens × (ct_equal (request_token r) token ≡ true))
    × RunsEntry strtol cfg r (given_values cfg.max_args r.query) argv timeout

is_run : Outcome → Bool
is_run (run_argv argv timeout) = true
is_run other = false

-- another outcome than the run of a command
no_run :
    (o : Outcome) (argv : List (List ℕ)) (timeout : ℕ)
    → is_run o ≡ false
    → o ≢ run_argv argv timeout
unfolding is_run
no_run o argv timeout h e = let bad : false ≡ true = sym h ∙ ap is_run e in cc

module _ (strtol : List ℕ → Option ℤ) where
  number_ok-InRange :
      (least most : ℤ) (v : List ℕ) (number : Option ℤ)
      → strtol v ≡ number
      → number_ok least most number ≡ true
      → InRange strtol (some (least, most)) v
  unfolding number_ok
  number_ok-InRange least most v none e h = cc
  number_ok-InRange least most v (some n) e h = (n, e, ground arith, ground arith)

  range_ok-InRange :
      (range : Option (ℤ × ℤ)) (v : List ℕ)
      → range_ok strtol range v ≡ true
      → InRange strtol range v
  unfolding range_ok
  range_ok-InRange none v h = tt
  range_ok-InRange (some (least, most)) v h = number_ok-InRange least most v (strtol v) refl h

  args_ok-Satisfies :
      (specs : List ArgSpec) (extra : List (List ℕ))
      → args_ok strtol specs extra ≡ true
      → Satisfies strtol specs extra
  unfolding args_ok
  args_ok-Satisfies [] extra h = tt
  args_ok-Satisfies (a ∷ specs) [] h =
      let (optional, rest) =
        else_case a.required false (args_ok strtol specs []) true h (λ e. cc) in
      (optional, args_ok-Satisfies specs [] rest)
  args_ok-Satisfies (a ∷ specs) ([] ∷ extra) h =
      let (optional, rest) =
        else_case a.required false (args_ok strtol specs extra) true h (λ e. cc) in
      (optional, args_ok-Satisfies specs extra rest)
  args_ok-Satisfies (a ∷ specs) ((c ∷ cs) ∷ extra) h =
      let v = c ∷ cs in
      let (listed, h1) = else_case (not (enum_ok a.enums v)) false _ true h (λ e. cc) in
      let (within, h2) = else_case (not (range_ok strtol a.range v)) false _ true h1 (λ e. cc) in
      (
        enum_ok-IsListed a.enums v (not-false (enum_ok a.enums v) listed),
        range_ok-InRange a.range v (not-false (range_ok strtol a.range v) within),
        args_ok-Satisfies specs extra h2,
      )

  run_found-Runs :
      (cfg : Config) (r : Request) (name : List ℕ) (found : Option Entry) (argv : List (List ℕ))
      (timeout : ℕ)
      → entry_find cfg.entries name ≡ found
      → request_name r ≡ some name
      → run_found strtol cfg r found ≡ run_argv argv timeout
      → RunsEntry strtol cfg r (extra_args cfg.max_args r.query) argv timeout
  unfolding run_found run_entry is_run
  run_found-Runs cfg r name none argv timeout f n h =
      absurd (no_run (reply 404) argv timeout refl h)
  run_found-Runs cfg r name (some e) argv timeout f n h =
      let extra = extra_args cfg.max_args r.query in
      let (mem, same) = entry_find-Mem cfg.entries name e f in
      let (ok, made) =
        else_case (not (args_ok strtol e.args extra)) (reply 400) _ (run_argv argv timeout) h
          (no_run (reply 400) argv timeout refl) in
      (
        e,
        mem,
        n ∙ ap some (sym same),
        args_ok-Satisfies e.args extra (not-false (args_ok strtol e.args extra) ok),
        made,
      )

  run_named-Runs :
      (cfg : Config) (r : Request) (name : Option (List ℕ)) (argv : List (List ℕ)) (timeout : ℕ)
      → request_name r ≡ name
      → run_named strtol cfg r name ≡ run_argv argv timeout
      → RunsEntry strtol cfg r (extra_args cfg.max_args r.query) argv timeout
  unfolding run_named is_run
  run_named-Runs cfg r none argv timeout n h = absurd (no_run (reply 400) argv timeout refl h)
  run_named-Runs cfg r (some name) argv timeout n h =
      run_found-Runs cfg r name (entry_find cfg.entries name) argv timeout refl n h

  -- A command line is run only for a source address of bytes that has the prefix of a configured rule
  -- (any, where there is none), a token that equals a configured one, the target "/r", an entry of
  -- the configuration with the name that was asked for, and values that keep to the entry's
  -- constraints: words of its lists, numbers in its ranges. The values are those of the parameters a,
  -- a1, a2, ... that are given and not empty, closed up, so that the n-th constraint is that of the n-th value given,
  -- whatever parameter it came in; there are enough of them for every required one. The command line
  -- is what the entry's slots become with these values.
  pub handle_client-Runs :
      (cfg : Config) (family : ℕ) (addr : List ℕ) (r : Request) (argv : List (List ℕ)) (timeout : ℕ)
      → AreBytes addr
      → All (λ r. AreBytes r.raw) cfg.addrs
      → handle_client strtol cfg family addr r ≡ run_argv argv timeout
      → Permits cfg.addrs family addr × (r.target ≡ bytes_of "/r") × Runs strtol cfg r argv timeout
  unfolding handle_client route is_run
  handle_client-Runs cfg family addr r argv timeout a b h =
      let (allowed, h1) =
        else_case (not (addr_allowed cfg.addrs family addr)) (reply 403) _ (run_argv argv timeout) h
          (no_run (reply 403) argv timeout refl) in
      let (known, h2) =
        else_case (not (token_ok cfg.tokens (request_token r))) (reply 401) _
          (run_argv argv timeout) h1 (no_run (reply 401) argv timeout refl) in
      let (_, h3) =
        else_case (same_bytes r.target (bytes_of "/") || same_bytes r.target (bytes_of "/c"))
          commands _ (run_argv argv timeout) h2 (no_run commands argv timeout refl) in
      let (_, h4) =
        else_case (same_bytes r.target (bytes_of "/schema")) schema _ (run_argv argv timeout) h3
          (no_run schema argv timeout refl) in
      let (target, h5) =
        else_case (not (same_bytes r.target (bytes_of "/r"))) (reply 404) _ (run_argv argv timeout)
          h4 (no_run (reply 404) argv timeout refl) in
      (
        addr_allowed-Permits cfg.addrs family addr a b
            (not-false (addr_allowed cfg.addrs family addr) allowed),
        same_bytes-eq r.target (bytes_of "/r") (not-false _ target),
        (
          token_ok-Mem cfg.tokens (request_token r)
              (not-false (token_ok cfg.tokens (request_token r)) known),
          subst (λ values. RunsEntry strtol cfg r values argv timeout)
              (extra_args-given_values cfg.max_args r.query)
              (run_named-Runs cfg r (request_name r) argv timeout refl h5),
        ),
      )
