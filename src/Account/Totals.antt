-- ===== src/Account/Totals.antt =====
-- What the table of flows of apptraffic/src/main.c adds up for a flow.
use mathlib.Core.Option.{some-injective}
use openwrt_demo.Prelude.{
  ℕ, ◌≤◌, ◌<◌, ◌≡◌, refl, sym, ap, subst, ◌∙◌, Bool, true, false, Option, none, some, List, [], ◌∷◌,
  inl, inr, ltb, ◌==◌, ==→eq, if◌then◌else◌, Bool-cases, arith, length, get_or, set,
  get_or-set_self, get_or-set_ne, length-set,
}
use openwrt_demo.Account.{
  max_flow_entries, Key, FlowEntry, Observation, hash_flow, same_key, observe, fresh, find_chain,
  update_chain, ingest_chain, expire_chain, counted, flow_ingest,
}

key_path :
    (a b c d e a' b' c' d' e' : ℕ)
    → a ≡ a'
    → b ≡ b'
    → c ≡ c'
    → d ≡ d'
    → e ≡ e'
    → (let k : Key = record { src_ip = a; dst_ip = b; src_port = c; dst_port = d; protocol = e } in
        k)
      ≡ record { src_ip = a'; dst_ip = b'; src_port = c'; dst_port = d'; protocol = e' }
key_path a b c d e a' b' c' d' e' p q r s t = cc

pub same_key-eq : (a b : Key) → same_key a b ≡ true → a ≡ b
unfolding same_key
same_key-eq a b h =
    key_path a.src_ip a.dst_ip a.src_port a.dst_port a.protocol b.src_ip b.dst_ip b.src_port
      b.dst_port b.protocol (ground (arith, h)) (ground (arith, h)) (ground (arith, h))
      (ground (arith, h)) (ground (arith, h))

same_key_refl : (a : Key) → same_key a a ≡ true
unfolding same_key
same_key_refl a = ground arith

-- the entry of a flow after an observation of it
unfoldable pub observed : Observation → Option FlowEntry → FlowEntry
observed o none = fresh o
observed o (some f) = observe o f

find_chain-update_chain :
    (o : Observation) (chain : List FlowEntry) (f : FlowEntry)
    → find_chain o.of chain ≡ some f
    → find_chain o.of (update_chain o chain) ≡ some (observe o f)
unfolding find_chain update_chain same_key observe
find_chain-update_chain o [] f h = cc
find_chain-update_chain o (x ∷ xs) f h = elim (Bool-cases (same_key x.key o.of)) [
  | inl is ↦
      let found : find_chain o.of (x ∷ xs) ≡ some x = rw is refl in
      rw is (rw is (ap (λ y. some (observe o y)) (some-injective _ _ (sym found ∙ h))))
  | inr other ↦
      let later : find_chain o.of xs ≡ some f = sym (rw other refl) ∙ h in
      rw other (rw other (find_chain-update_chain o xs f later))
]

-- The observed flow of a chain.
find_chain-ingest_chain :
    (o : Observation) (chain : List FlowEntry) (found : Option FlowEntry)
    → find_chain o.of chain ≡ found
    → find_chain o.of (ingest_chain true o found chain) ≡ some (observed o found)
unfolding find_chain ingest_chain observed same_key fresh
find_chain-ingest_chain o chain none h = rw (same_key_refl o.of) refl
find_chain-ingest_chain o chain (some f) h = find_chain-update_chain o chain f h

-- Another flow of the chain stays as it is.
find_chain-other_update :
    (o : Observation) (k : Key) (chain : List FlowEntry)
    → same_key o.of k ≡ false
    → find_chain k (update_chain o chain) ≡ find_chain k chain
unfolding find_chain update_chain same_key observe
find_chain-other_update o k [] h = refl
find_chain-other_update o k (x ∷ xs) h =
    let rest = find_chain-other_update o k xs h in
    elim (Bool-cases (same_key x.key o.of)) [
      | inl is ↦
          let other : same_key x.key k ≡ false =
            subst (λ y. same_key y k ≡ false) (sym (same_key-eq x.key o.of is)) h in
          rw is (rw other refl)
      | inr other ↦ rw other (ap (λ r. if same_key x.key k then some x else r) rest)
    ]

find_chain-other :
    (calloc : Bool) (o : Observation) (k : Key) (chain : List FlowEntry) (found : Option FlowEntry)
    → same_key o.of k ≡ false
    → find_chain k (ingest_chain calloc o found chain) ≡ find_chain k chain
unfolding find_chain ingest_chain fresh
find_chain-other calloc o k chain (some f) h = find_chain-other_update o k chain h
find_chain-other true o k chain none h = rw h refl
find_chain-other false o k chain none h = refl

unfoldable pub find : Key → List (List FlowEntry) → Option FlowEntry
find k table = find_chain k (get_or table (hash_flow k) [])

hash_flow-lt : (k : Key) → hash_flow k < max_flow_entries
unfolding hash_flow
hash_flow-lt k = omega arith

-- An observation, seen through the lookup of a flow.
pub find-flow_ingest :
    (o : Observation) (table : List (List FlowEntry))
    → length table ≡ max_flow_entries
    → counted o ≡ true
    → find o.of (flow_ingest true o table) ≡ some (observed o (find o.of table))
unfolding find flow_ingest
find-flow_ingest o table size c =
    let idx = hash_flow o.of in
    let chain = get_or table idx [] in
    rw c (
      ap (find_chain o.of) (
        get_or-set_self table idx (ingest_chain true o (find_chain o.of chain) chain) []
          (omega (arith, size, hash_flow-lt o.of)))
      ∙ find_chain-ingest_chain o chain (find_chain o.of chain) refl)

pub find-other :
    (calloc : Bool) (o : Observation) (k : Key) (table : List (List FlowEntry))
    → length table ≡ max_flow_entries
    → same_key o.of k ≡ false
    → find k (flow_ingest calloc o table) ≡ find k table
unfolding find flow_ingest
find-other calloc o k table size other =
    let idx = hash_flow o.of in
    let chain = get_or table idx [] in
    let chain' = ingest_chain calloc o (find_chain o.of chain) chain in
    elim (Bool-cases (counted o)) [
      | inr skipped ↦ rw skipped refl
      | inl c ↦ elim (Bool-cases (idx == hash_flow k)) [
        | inl here ↦
            let same : idx ≡ hash_flow k = ==→eq idx (hash_flow k) here in
            let at = get_or-set_self table idx chain' [] (omega (arith, size, hash_flow-lt o.of)) in
            rw c (
              ap (λ i. find_chain k (get_or (set table idx chain') i [])) (sym same)
              ∙ ap (find_chain k) at
              ∙ find_chain-other calloc o k chain (find_chain o.of chain) other
              ∙ ap (λ i. find_chain k (get_or table i [])) same)
        | inr away ↦ rw c (
            ap (find_chain k)
              (get_or-set_ne table idx (hash_flow k) chain' [] (λ e. ground (arith, e, away))))
      ]
    ]

pub length-flow_ingest :
    (o : Observation) (table : List (List FlowEntry))
    → length (flow_ingest true o table) ≡ length table
unfolding flow_ingest
length-flow_ingest o table =
    let idx = hash_flow o.of in
    let chain = get_or table idx [] in
    elim (Bool-cases (counted o)) [
      | inr skipped ↦ rw skipped refl
      | inl c ↦ rw c (length-set table idx (ingest_chain true o (find_chain o.of chain) chain))
    ]

find_chain-expire_chain :
    (cutoff : ℕ) (k : Key) (chain : List FlowEntry) (f : FlowEntry)
    → find_chain k chain ≡ some f
    → cutoff ≤ f.last_seen
    → find_chain k (expire_chain cutoff chain) ≡ some f
unfolding find_chain expire_chain same_key
find_chain-expire_chain cutoff k [] f h seen = h
find_chain-expire_chain cutoff k (x ∷ xs) f h seen = elim (Bool-cases (same_key x.key k)) [
  | inl is ↦
      let found : find_chain k (x ∷ xs) ≡ some x = rw is refl in
      let same : x ≡ f = some-injective _ _ (sym found ∙ h) in
      let kept : ltb x.last_seen cutoff ≡ false =
        subst (λ y. ltb y.last_seen cutoff ≡ false) (sym same) (ground (arith, seen)) in
      rw kept (rw is (ap some same))
  | inr other ↦
      let later : find_chain k xs ≡ some f = sym (rw other refl) ∙ h in
      let rest = find_chain-expire_chain cutoff k xs f later seen in
      elim (Bool-cases (ltb x.last_seen cutoff)) [
        | inl old ↦ rw old rest
        | inr kept ↦ rw kept (rw other rest)
      ]
]
