-- ===== src/Shcmd/Access/Prefix.antt =====
-- The addresses that the rules of shcmd/src/shcmd.c allow: `addr_allowed` against prefixes.
use Prim.Native.Nat.{bit_and}
use mathlib.Core.List.{Mem, mem-cons_self, mem-cons_of_mem}
use openwrt_demo.Prelude.{
  ℕ, zero, suc, ◌-◌, ◌/◌, ◌%◌, ◌^◌, ◌<◌, ◌≡◌, ◌⊎◌, refl, sym, ap, subst, ◌∙◌, true, false, not,
  List, [], ◌∷◌, ◌==◌, arith, length, take, get_or, All, ==→eq, else_case, inl, inr, Bool-cases,
  same_bytes, same_bytes-eq, not-false,
}
use openwrt_demo.Shcmd.Access.{AddrRule, prefix_mask, rule_allows, any_allows, addr_allowed}
use openwrt_demo.Shcmd.Access.Equal.{all_below, all_below_sound}

abbrev pub AreBytes : List ℕ → Type 0
AreBytes = All (λ b. b < 256)

-- An address is of the rule's family and has the rule's first `bits` bits: the whole bytes of them, and
-- of the byte behind these the upper bits that are left.
abbrev pub HasPrefix : AddrRule → ℕ → List ℕ → Type 0
HasPrefix r family addr =
    (r.family ≡ family)
    × (take (r.bits / 8) addr ≡ take (r.bits / 8) r.raw)
    × (get_or addr (r.bits / 8) 0 / 2 ^ (8 - r.bits % 8)
        ≡ get_or r.raw (r.bits / 8) 0 / 2 ^ (8 - r.bits % 8))

-- No rule, or one whose prefix the address has.
abbrev pub Permits : List AddrRule → ℕ → List ℕ → Type 0
Permits rules family addr = (rules ≡ []) ⊎ ((r : AddrRule) × Mem r rules × HasPrefix r family addr)

get_or-byte : (s : List ℕ) (i : ℕ) → AreBytes s → get_or s i 0 < 256
get_or-byte [] i h = omega arith
get_or-byte (c ∷ cs) zero h = h.0
get_or-byte (c ∷ cs) (suc i) h = get_or-byte cs i h.1

-- The mask keeps the upper bits of a byte.
bit_and-prefix_mask :
    (rem x : ℕ)
    → rem < 8
    → x < 256
    → bit_and x (prefix_mask rem) / 2 ^ (8 - rem) ≡ x / 2 ^ (8 - rem)
unfolding prefix_mask
bit_and-prefix_mask rem x h k =
    let row =
      all_below_sound 8
        (λ rem.
          all_below 256 (λ x. bit_and x (prefix_mask rem) / 2 ^ (8 - rem) == x / 2 ^ (8 - rem)))
        refl rem h in
    ==→eq _ _ (
      all_below_sound 256 (λ x. bit_and x (prefix_mask rem) / 2 ^ (8 - rem) == x / 2 ^ (8 - rem))
        row x k)

upper_bits :
    (rem x y : ℕ)
    → rem < 8
    → x < 256
    → y < 256
    → (bit_and x (prefix_mask rem) == bit_and y (prefix_mask rem)) ≡ true
    → x / 2 ^ (8 - rem) ≡ y / 2 ^ (8 - rem)
upper_bits rem x y h k l e =
    sym (bit_and-prefix_mask rem x h k)
    ∙ ap (λ n. n / 2 ^ (8 - rem)) (==→eq _ _ e)
    ∙ bit_and-prefix_mask rem y h l

-- Of a byte no bit is left behind its eight bits.
no_bits :
    (rem x y : ℕ) → (rem == 0) ≡ true → x < 256 → y < 256 → x / 2 ^ (8 - rem) ≡ y / 2 ^ (8 - rem)
no_bits rem x y e h k =
    let nil : 0 ≡ rem = sym (==→eq rem 0 e) in
    let both : x / 2 ^ (8 - 0) ≡ y / 2 ^ (8 - 0) = omega (arith, h, k) in
    subst (λ r. x / 2 ^ (8 - r) ≡ y / 2 ^ (8 - r)) nil both

rule_allows-HasPrefix :
    (r : AddrRule) (family : ℕ) (addr : List ℕ)
    → AreBytes addr
    → AreBytes r.raw
    → rule_allows r family addr ≡ true
    → HasPrefix r family addr
unfolding rule_allows
rule_allows-HasPrefix r family addr a b h =
    let whole = r.bits / 8 in
    let rem = r.bits % 8 in
    let (kin, h1) = else_case (not (r.family == family)) false _ true h (λ e. cc) in
    let (bytes, h2) =
      else_case (not (same_bytes (take whole addr) (take whole r.raw))) false _ true h1 (λ e. cc) in
    let x = get_or-byte addr whole a in
    let y = get_or-byte r.raw whole b in
    (
      ==→eq r.family family (not-false _ kin),
      same_bytes-eq _ _ (not-false _ bytes),
      elim (Bool-cases (rem == 0)) [
        | inl even ↦ no_bits rem _ _ even x y
        | inr odd ↦ upper_bits rem _ _ (omega arith) x y (sym (rw odd refl) ∙ h2)
      ],
    )

any_allows-HasPrefix :
    (rules : List AddrRule) (family : ℕ) (addr : List ℕ)
    → AreBytes addr
    → All (λ r. AreBytes r.raw) rules
    → any_allows rules family addr ≡ true
    → (r : AddrRule) × Mem r rules × HasPrefix r family addr
unfolding any_allows
any_allows-HasPrefix [] family addr a b h = cc
any_allows-HasPrefix (r ∷ rs) family addr a b h = elim (Bool-cases (rule_allows r family addr)) [
  | inl is ↦ (r, mem-cons_self, rule_allows-HasPrefix r family addr a b.0 is)
  | inr other ↦
      let later : any_allows rs family addr ≡ true = sym (rw other refl) ∙ h in
      let (s, mem, is) = any_allows-HasPrefix rs family addr a b.1 later in
      (s, mem-cons_of_mem r mem, is)
]

pub addr_allowed-Permits :
    (rules : List AddrRule) (family : ℕ) (addr : List ℕ)
    → AreBytes addr
    → All (λ r. AreBytes r.raw) rules
    → addr_allowed rules family addr ≡ true
    → Permits rules family addr
unfolding addr_allowed
addr_allowed-Permits [] family addr a b h = inl refl
addr_allowed-Permits (r ∷ rs) family addr a b h =
    let there : (suc (length rs) == 0) ≡ false = ground arith in
    inr (any_allows-HasPrefix (r ∷ rs) family addr a b (sym (rw there refl) ∙ h))
