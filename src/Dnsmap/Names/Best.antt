-- ===== src/Dnsmap/Names/Best.antt =====
-- `mapping_lookup_domain` gives the best name that an address has.
use openwrt_demo.Dnsmap.Names.{DnsEntry, hash_ip, live, better, best_of, domain_of, lookup_domain}
use mathlib.Core.List.{Mem, mem-cons_self, mem-cons_of_mem}
use mathlib.Core.Option.{some-injective}
use openwrt_demo.Prelude.{
  ℕ, ◌≡◌, refl, ap, subst, and_true, Bool, true, false, ◌&&◌, Option, none, some, List, [], ◌∷◌,
  inl, inr, ◌⊎◌, if◌then◌else◌, Bool-cases, arith, All, All-map, get_or,
}

-- What was chosen stays ahead of what was beaten before.
better_trans :
    (e b : DnsEntry) (o : Option DnsEntry)
    → better b o ≡ true
    → better e o ≡ false
    → better e (some b) ≡ false
unfolding better
better_trans e b none h n = cc
better_trans e b (some c) h n = ground arith

better_self : (e : DnsEntry) → better e (some e) ≡ false
unfolding better
better_self e = ground arith

and_false : (a : Bool) → a && false ≡ false
and_false true = refl
and_false false = refl

any_first : (l : Bool) (e : DnsEntry) → l && better e none ≡ false → l ≡ false
unfolding better
any_first true e h = h
any_first false e h = refl

module _ (ip now : ℕ) where
  -- an entry is beaten: it is not live, or not better than the one chosen
  abbrev Beaten : Option DnsEntry → DnsEntry → Type 0
  Beaten best e = live ip now e && better e best ≡ false

  better-Beaten :
      (x e : DnsEntry) (o : Option DnsEntry) → better x o ≡ true → Beaten o e → Beaten (some x) e
  better-Beaten x e o ahead h = elim (Bool-cases (live ip now e)) [
    | inr dead ↦ rw dead refl
    | inl alive ↦ rw alive (better_trans e x o ahead (subst (λ l. l && better e o ≡ false) alive h))
  ]

  best_of-keeps :
      (es : List DnsEntry) (o : Option DnsEntry) (e : DnsEntry)
      → Beaten o e
      → Beaten (best_of ip now es o) e
  unfolding best_of
  best_of-keeps [] o e h = h
  best_of-keeps (x ∷ xs) o e h = elim (Bool-cases (live ip now x && better x o)) [
    | inr behind ↦ rw behind (best_of-keeps xs o e h)
    | inl ahead ↦
        rw ahead (best_of-keeps xs (some x) e (better-Beaten x e o (and_true _ _ ahead).1 h))
  ]

  -- the choice after one entry
  abbrev choice : DnsEntry → Option DnsEntry → Option DnsEntry
  choice x o = if live ip now x && better x o then some x else o

  best_of-Beaten :
      (es : List DnsEntry) (o : Option DnsEntry) → All (Beaten (best_of ip now es o)) es
  unfolding best_of
  best_of-Beaten [] o = tt
  best_of-Beaten (x ∷ xs) o = (best_of-keeps xs (choice x o) x here, best_of-Beaten xs (choice x o))
    where
      here : Beaten (choice x o) x
      here = elim (Bool-cases (live ip now x && better x o)) [
        | inr behind ↦ rw behind behind
        | inl ahead ↦ rw (ahead, better_self x) (and_false (live ip now x))
      ]

  -- What is chosen is the start's choice or a live entry of the list.
  best_of-Mem :
      (es : List DnsEntry) (o : Option DnsEntry) (b : DnsEntry)
      → best_of ip now es o ≡ some b
      → (o ≡ some b) ⊎ (Mem b es × (live ip now b ≡ true))
  unfolding best_of
  best_of-Mem [] o b h = inl h
  best_of-Mem (x ∷ xs) o b h = elim (best_of-Mem xs (choice x o) b h) [
    | inr (m, l) ↦ inr (mem-cons_of_mem x m, l)
    | inl e ↦ chosen (Bool-cases (live ip now x && better x o)) e
  ]
    where
      chosen :
          ((live ip now x && better x o ≡ true) ⊎ (live ip now x && better x o ≡ false))
          → choice x o ≡ some b
          → (o ≡ some b) ⊎ (Mem b (x ∷ xs) × (live ip now b ≡ true))
      chosen (inr behind) = rw behind (λ e. inl e)
      chosen (inl ahead) = rw ahead (λ e.
          let same = some-injective _ _ e in
          inr (
            subst (λ y. Mem y (x ∷ xs)) same mem-cons_self,
            subst (λ y. live ip now y ≡ true) same (and_true _ _ ahead).0,
          ))

  -- A lookup gives NULL only where no entry of the address is live. Otherwise it gives the name of
  -- a live entry of the address, and no live one has a higher confidence, or the same and a later
  -- end.
  pub lookup_domain-best :
      (table : List (List DnsEntry))
      → let chain = get_or table (hash_ip ip) [] in
        ((lookup_domain ip now table ≡ none) × All (λ e. live ip now e ≡ false) chain)
        ⊎ ((b : DnsEntry) × (lookup_domain ip now table ≡ some b.domain)
            × Mem b chain
            × (live ip now b ≡ true)
            × All (λ e. live ip now e && better e (some b) ≡ false) chain)
  unfolding lookup_domain domain_of
  lookup_domain-best table = by_cases (best_of ip now chain none) refl
    where
      chain : List DnsEntry
      chain = get_or table (hash_ip ip) []

      by_cases :
          (r : Option DnsEntry)
          → best_of ip now chain none ≡ r
          → ((domain_of (best_of ip now chain none) ≡ none)
              × All (λ e. live ip now e ≡ false) chain)
            ⊎ ((b : DnsEntry) × (domain_of (best_of ip now chain none) ≡ some b.domain)
                × Mem b chain
                × (live ip now b ≡ true)
                × All (λ e. live ip now e && better e (some b) ≡ false) chain)
      by_cases none h = inl (
        ap domain_of h,
        All-map (Beaten none) (λ e. live ip now e ≡ false) chain (λ e. any_first (live ip now e) e)
            (subst (λ r. All (Beaten r) chain) h (best_of-Beaten chain none)),
      )
      by_cases (some b) h = elim (best_of-Mem chain none b h) [
        | inl e ↦ cc
        | inr (m, l) ↦ inr (
          b,
          ap domain_of h,
          m,
          l,
          subst (λ r. All (Beaten r) chain) h (best_of-Beaten chain none),
        )
      ]
