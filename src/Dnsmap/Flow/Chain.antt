-- ===== src/Dnsmap/Flow/Chain.antt =====
-- The loops over one chain of entries, and the sum of the chains.
use openwrt_demo.Dnsmap.Flow.{
  FlowKey, same_flow, Entry, dec32, expire_chain, expire_buckets, refresh,
}
use openwrt_demo.Prelude.{
  ℕ, zero, suc, ◌+◌, ◌^◌, ◌≤◌, ◌<◌, ◌≡◌, refl, ap, subst, false, none, some, List, [], ◌∷◌, inl,
  inr, ltb, Bool-cases, Option-cases, arith, length, get_or, set, All,
}
use mathlib.Core.Option.{some-injective}

module _ {V : Type 0} where
  -- the number of all entries
  abbrev pub total : List (List (Entry V)) → ℕ
  total [] = 0
  total (b ∷ bs) = length b + total bs

  -- no entry of the flow
  abbrev pub Absent : FlowKey → List (Entry V) → Type 0
  Absent k = All (λ e. same_flow e.key k ≡ false)

  -- one entry a flow at most
  abbrev pub Distinct : List (Entry V) → Type 0
  Distinct [] = Unit
  Distinct (h ∷ hs) = Absent h.key hs × Distinct hs

  pub total-set :
      (bs : List (List (Entry V))) (i : ℕ) (chain : List (Entry V))
      → i < length bs
      → total (set bs i chain) + length (get_or bs i []) ≡ total bs + length chain
  total-set [] i chain h = absurd (omega arith)
  total-set (b ∷ bs) zero chain h = omega arith
  total-set (b ∷ bs) (suc i) chain h = omega (arith, total-set bs i chain (omega arith))

  pub get_or-total : (bs : List (List (Entry V))) (i : ℕ) → length (get_or bs i []) ≤ total bs
  get_or-total [] i = omega arith
  get_or-total (b ∷ bs) zero = omega arith
  get_or-total (b ∷ bs) (suc i) = omega (arith, get_or-total bs i)

  -- The sweep of a chain drops as much from the count as from the chain.
  pub expire_chain-count :
      (now : ℕ) (b : List (Entry V)) (count : ℕ)
      → length b ≤ count
      → count < 2 ^ 32
      → let (chain, n) = expire_chain now b count in
        (n + length b ≡ count + length chain) × (length chain ≤ length b)
  unfolding expire_chain
  expire_chain-count now [] count h w = (refl, omega arith)
  expire_chain-count now (x ∷ xs) count h w = elim (Bool-cases (ltb x.expires now)) [
    | inl old ↦
        let (e, le) = expire_chain-count now xs (dec32 count) (omega arith) (omega arith) in
        rw old (omega (arith, e, le), omega (arith, le))
    | inr live ↦
        let (e, le) = expire_chain-count now xs count (omega arith) w in
        rw live (omega (arith, e), omega (arith, le))
  ]

  pub expire_buckets-count :
      (now : ℕ) (bs : List (List (Entry V))) (count : ℕ)
      → total bs ≤ count
      → count < 2 ^ 32
      → let (rest, n) = expire_buckets now bs count in
        (n + total bs ≡ count + total rest) × (total rest ≤ total bs) × (length rest ≡ length bs)
  unfolding expire_buckets
  expire_buckets-count now [] count h w = (refl, omega arith, refl)
  expire_buckets-count now (b ∷ bs) count h w =
      let (e, le) = expire_chain-count now b count (omega arith) w in
      let (f, lf, s) =
        expire_buckets-count now bs (expire_chain now b count).1 (omega (arith, e, le))
          (omega (arith, e, le)) in
      (omega (arith, e, f), omega (arith, le, lf), ap suc s)

  -- A sweep takes entries away only.
  pub expire_chain-All :
      (P : Entry V → Type 0) (now : ℕ) (b : List (Entry V)) (count : ℕ)
      → All P b
      → All P (expire_chain now b count).0
  unfolding expire_chain
  expire_chain-All P now [] count h = tt
  expire_chain-All P now (x ∷ xs) count h = elim (Bool-cases (ltb x.expires now)) [
    | inl old ↦ rw old (expire_chain-All P now xs (dec32 count) h.1)
    | inr live ↦ rw live (h.0, expire_chain-All P now xs count h.1)
  ]

  pub expire_chain-Distinct :
      (now : ℕ) (b : List (Entry V)) (count : ℕ)
      → Distinct b
      → Distinct (expire_chain now b count).0
  unfolding expire_chain
  expire_chain-Distinct now [] count h = tt
  expire_chain-Distinct now (x ∷ xs) count h = elim (Bool-cases (ltb x.expires now)) [
    | inl old ↦ rw old (expire_chain-Distinct now xs (dec32 count) h.1)
    | inr live ↦ rw live (
      expire_chain-All (λ e. same_flow e.key x.key ≡ false) now xs count h.0,
      expire_chain-Distinct now xs count h.1,
    )
  ]

  pub expire_buckets-Distinct :
      (now : ℕ) (bs : List (List (Entry V))) (count : ℕ)
      → All Distinct bs
      → All Distinct (expire_buckets now bs count).0
  unfolding expire_buckets
  expire_buckets-Distinct now [] count h = tt
  expire_buckets-Distinct now (b ∷ bs) count h =
      (expire_chain-Distinct now b count h.0, expire_buckets-Distinct now bs _ h.1)

  -- Where nothing is refreshed, the flow has no entry.
  pub refresh-Absent :
      (k : FlowKey) (v : V) (expires : ℕ) (b : List (Entry V))
      → refresh k v expires b ≡ none
      → Absent k b
  unfolding refresh
  refresh-Absent k v expires [] = λ e. tt
  refresh-Absent k v expires (x ∷ xs) = elim (Bool-cases (same_flow x.key k)) [
    | inl same ↦ rw (same, refresh) (λ e. cc)
    | inr other ↦ elim (Option-cases (refresh k v expires xs)) [
      | inl missing ↦
          rw (other, refresh, missing) (λ e. (refl, refresh-Absent k v expires xs missing))
      | inr (rest, found) ↦ rw (other, refresh, found) (λ e. cc)
    ]
  ]

  -- A refreshed chain has the same flows.
  pub refresh-same :
      (k : FlowKey) (v : V) (expires : ℕ) (b b' : List (Entry V))
      → refresh k v expires b ≡ some b'
      → (length b' ≡ length b)
        × ((j : FlowKey) → Absent j b → Absent j b')
        × (Distinct b → Distinct b')
  unfolding refresh
  refresh-same k v expires [] b' = λ e. cc
  refresh-same k v expires (x ∷ xs) b' = elim (Bool-cases (same_flow x.key k)) [
    | inl same ↦
        rw (same, refresh)
          (λ e. subst (Same (x ∷ xs)) (some-injective _ _ e) (refl, (λ j a. a), (λ d. d)))
    | inr other ↦ elim (Option-cases (refresh k v expires xs)) [
      | inl missing ↦ rw (other, refresh, missing) (λ e. cc)
      | inr (rest, found) ↦
          let (n, a, d) = refresh-same k v expires xs rest found in
          rw (other, refresh, found)
            (λ e.
              subst (Same (x ∷ xs)) (some-injective _ _ e)
                (ap suc n, (λ j h. (h.0, a j h.1)), (λ h. (a x.key h.0, d h.1))))
    ]
  ]
    where
      Same : List (Entry V) → List (Entry V) → Type 0
      Same c c' =
          (length c' ≡ length c)
          × ((j : FlowKey) → Absent j c → Absent j c')
          × (Distinct c → Distinct c')

  pub expire_buckets-Absent :
      (now : ℕ) (bs : List (List (Entry V))) (count : ℕ) (k : FlowKey) (i : ℕ)
      → Absent k (get_or bs i [])
      → Absent k (get_or (expire_buckets now bs count).0 i [])
  unfolding expire_buckets
  expire_buckets-Absent now [] count k i h = h
  expire_buckets-Absent now (b ∷ bs) count k zero h =
      expire_chain-All (λ e. same_flow e.key k ≡ false) now b count h
  expire_buckets-Absent now (b ∷ bs) count k (suc i) h = expire_buckets-Absent now bs _ k i h
