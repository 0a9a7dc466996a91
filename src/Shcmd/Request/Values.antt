-- ===== src/Shcmd/Request/Values.antt =====
-- The values that `handle_client` of shcmd/src/shcmd.c takes from the query of a request.
use mathlib.Core.List.{append_assoc}
use openwrt_demo.Prelude.{
  ℕ, zero, suc, ◌+◌, ◌-◌, ◌≤◌, ◌≡◌, refl, sym, ap, ◌∙◌, true, Option, none, some, List, [], ◌∷◌,
  ◌++◌, ltb, arith, inl, inr, Bool-cases, length, length-append, take, take_all, append_nil,
  bytes_of,
}
use openwrt_demo.Shcmd.Params.{param_get}
use openwrt_demo.Shcmd.Request.{given, arg_key, add_arg, collect_loop, extra_args}

-- a value in front of others, where there is one
abbrev pub in_front : Option (List ℕ) → List (List ℕ) → List (List ℕ)
in_front none rest = rest
in_front (some v) rest = v ∷ rest

-- the values of `n` parameters from a number on, in order
abbrev pub numbered : ℕ → ℕ → Option (List ℕ) → List (List ℕ)
numbered zero i query = []
numbered (suc n) i query =
    in_front (given (param_get query (arg_key i) 512)) (numbered n (i + 1) query)

-- The values of a, a1, a2, ... that are given and not empty, without places for the others, and 16 of
-- them at most.
abbrev pub given_values : ℕ → Option (List ℕ) → List (List ℕ)
given_values zero query = []
given_values (suc n) query =
    take 16 (in_front (given (param_get query (bytes_of "a") 512)) (numbered n 1 query))

take_front : (n : ℕ) (xs ys : List (List ℕ)) → length xs ≡ n → take n (xs ++ ys) ≡ xs
take_front zero [] ys h = refl
take_front zero (x ∷ xs) ys h = absurd (omega (arith, h))
take_front (suc n) [] ys h = absurd (omega (arith, h))
take_front (suc n) (x ∷ xs) ys h = ap (λ t. x ∷ t) (take_front n xs ys (omega (arith, h)))

add_arg-in_front :
    (o : Option (List ℕ)) (extra rest : List (List ℕ))
    → add_arg o extra ++ rest ≡ extra ++ in_front o rest
unfolding add_arg
add_arg-in_front none extra rest = refl
add_arg-in_front (some v) extra rest = append_assoc extra (v ∷ []) rest

length-add_arg :
    (o : Option (List ℕ)) (extra : List (List ℕ)) → length (add_arg o extra) ≤ length extra + 1
unfolding add_arg
length-add_arg none extra = omega arith
length-add_arg (some v) extra = omega (arith, length-append extra (v ∷ []))

collect_loop-numbered :
    (n i : ℕ) (query : Option (List ℕ)) (extra : List (List ℕ))
    → length extra ≤ 16
    → collect_loop n i query extra ≡ take 16 (extra ++ numbered n i query)
unfolding collect_loop
collect_loop-numbered zero i query extra h =
    sym (
      take_all 16 (extra ++ []) (omega (arith, h, ap length (append_nil extra))) ∙ append_nil extra)
collect_loop-numbered (suc n) i query extra h =
    let o = given (param_get query (arg_key i) 512) in
    elim (Bool-cases (ltb (length extra) 16)) [
      | inr full ↦
          rw full (sym (take_front 16 extra (numbered (suc n) i query) (ground (arith, full, h))))
      | inl room ↦
          let fits : length (add_arg o extra) ≤ 16 = ground (arith, room, length-add_arg o extra) in
          rw room (
            collect_loop-numbered n (i + 1) query (add_arg o extra) fits
            ∙ ap (take 16) (add_arg-in_front o extra (numbered n (i + 1) query)))
    ]

pub extra_args-given_values :
    (max_args : ℕ) (query : Option (List ℕ))
    → extra_args max_args query ≡ given_values max_args query
unfolding extra_args
extra_args-given_values zero query = refl
extra_args-given_values (suc n) query =
    let o = given (param_get query (bytes_of "a") 512) in
    let some_args : ltb 0 (suc n) ≡ true = ground arith in
    let same : suc n - 1 ≡ n = omega arith in
    rw some_args (
      ap (λ m. collect_loop m 1 query (add_arg o [])) same
      ∙ collect_loop-numbered n 1 query (add_arg o []) (omega (arith, length-add_arg o []))
      ∙ ap (take 16) (add_arg-in_front o [] (numbered n 1 query)))
