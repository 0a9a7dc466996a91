-- ===== src/Account/Sums.antt =====
-- Calls of `flow_ingest` in a row, from the table of apptraffic/src/main.c that is zeroed when the
-- program starts, for flows whose counters rise.
use mathlib.Core.Option
use openwrt_demo.Prelude.{
  ℕ, zero, suc, ◌≤◌, ◌<◌, ◌≡◌, ◌^◌, refl, ap, subst, ◌∙◌, Bool, true, ◌&&◌, Option, none, some,
  List, [], ◌∷◌, inl, inr, ltb, if◌then◌else◌, Bool-cases, arith, length, get_or, replicate,
}
use openwrt_demo.Account.{
  max_flow_entries, Key, Counts, FlowEntry, Observation, hash_flow, same_key, add_delta, add_counts,
  observe, fresh, find_chain, counted, flow_ingest,
}
use openwrt_demo.Account.Totals.{
  observed, find, same_key-eq, find-flow_ingest, find-other, length-flow_ingest,
}

-- an observation that counts for a flow
unfoldable pub mine : Key → Observation → Bool
mine k o = counted o && same_key o.of k

-- The entry of a flow after one call.
find_step :
    (o : Observation) (k : Key) (table : List (List FlowEntry))
    → length table ≡ max_flow_entries
    → find k (flow_ingest true o table)
      ≡ (if mine k o then some (observed o (find k table)) else find k table)
unfolding mine flow_ingest
find_step o k table size = elim (Bool-cases (counted o)) [
  | inr skipped ↦ rw skipped refl
  | inl c ↦ elim (Bool-cases (same_key o.of k)) [
    | inr other ↦ find-other true o k table size other ∙ rw c (rw other refl)
    | inl is ↦
        subst
          (λ x.
            find x (flow_ingest true o table)
            ≡ (if mine k o then some (observed o (find x table)) else find x table))
          (same_key-eq o.of k is) (find-flow_ingest o table size c ∙ rw c (rw is refl))
  ]
]

pub empty_table : List (List FlowEntry)
empty_table = replicate max_flow_entries []

length-replicate_chains : (n : ℕ) (chain : List FlowEntry) → length (replicate n chain) ≡ n
length-replicate_chains zero chain = refl
length-replicate_chains (suc n) chain = ap suc (length-replicate_chains n chain)

get_or-replicate_chains :
    (n i : ℕ) (chain : List FlowEntry) → get_or (replicate n chain) i chain ≡ chain
get_or-replicate_chains zero i chain = refl
get_or-replicate_chains (suc n) zero chain = refl
get_or-replicate_chains (suc n) (suc i) chain = get_or-replicate_chains n i chain

length-empty_table : length empty_table ≡ max_flow_entries
unfolding empty_table
length-empty_table = length-replicate_chains max_flow_entries []

find-empty_table : (k : Key) → find k empty_table ≡ none
unfolding find find_chain empty_table
find-empty_table k = ap (find_chain k) (get_or-replicate_chains max_flow_entries (hash_flow k) [])

-- calls of `flow_ingest` in a row, with memory for every new entry
unfoldable pub ingest_all : List Observation → List (List FlowEntry) → List (List FlowEntry)
ingest_all [] table = table
ingest_all (o ∷ os) table = ingest_all os (flow_ingest true o table)

-- what happens to the one entry
track : Key → List Observation → Option FlowEntry → Option FlowEntry
track k [] e = e
track k (o ∷ os) e = track k os (if mine k o then some (observed o e) else e)

find-ingest_all :
    (k : Key) (os : List Observation) (table : List (List FlowEntry))
    → length table ≡ max_flow_entries
    → find k (ingest_all os table) ≡ track k os (find k table)
unfolding ingest_all track
find-ingest_all k [] table size = refl
find-ingest_all k (o ∷ os) table size =
    find-ingest_all k os (flow_ingest true o table) (length-flow_ingest o table ∙ size)
    ∙ ap (track k os) (find_step o k table size)

-- the counters that conntrack had last for a flow
unfoldable pub last_counts : Key → List Observation → Option Counts → Option Counts
last_counts k [] c = c
last_counts k (o ∷ os) c = last_counts k os (if mine k o then some o.counts else c)

unfoldable pub no_counts : Counts
no_counts = record { rx_bytes = 0; tx_bytes = 0; rx_packets = 0; tx_packets = 0 }

unfoldable pub IsBelow : Counts → Counts → Type 0
IsBelow c d =
    (c.rx_bytes ≤ d.rx_bytes × d.rx_bytes < 2 ^ 63)
    × (c.tx_bytes ≤ d.tx_bytes × d.tx_bytes < 2 ^ 63)
    × (c.rx_packets ≤ d.rx_packets × d.rx_packets < 2 ^ 63)
    × (c.tx_packets ≤ d.tx_packets × d.tx_packets < 2 ^ 63)

-- The counters of the flow do not fall and stay below 2^63.
unfoldable pub IsRising : Key → List Observation → Counts → Type 0
IsRising k [] c = Unit
IsRising k (o ∷ os) c =
    (mine k o ≡ true → IsBelow c o.counts) × IsRising k os (if mine k o then o.counts else c)

Agrees : Option FlowEntry → Counts → Type 0
Agrees none c = Unit
Agrees (some f) c = f.sum ≡ c × f.prev ≡ c

counts_path :
    (a b c d : ℕ) (k : Counts)
    → a ≡ k.rx_bytes
    → b ≡ k.tx_bytes
    → c ≡ k.rx_packets
    → d ≡ k.tx_packets
    → (let c : Counts = record { rx_bytes = a; tx_bytes = b; rx_packets = c; tx_packets = d } in c)
      ≡ k
counts_path a b c d k p q r s = cc

add_delta_self : (a b : ℕ) → a ≤ b → b < 2 ^ 63 → add_delta a a b ≡ b
unfolding add_delta
add_delta_self a b le lt = elim (Bool-cases (ltb a b)) [
  | inl more ↦ rw more (omega (arith, le, lt))
  | inr same ↦ rw same (ground (arith, le, same))
]

add_counts_self : (c d : Counts) → IsBelow c d → add_counts c c d ≡ d
unfolding add_counts IsBelow
add_counts_self c d (a, b, e, f) =
    counts_path _ _ _ _ d (add_delta_self c.rx_bytes d.rx_bytes a.0 a.1)
      (add_delta_self c.tx_bytes d.tx_bytes b.0 b.1)
      (add_delta_self c.rx_packets d.rx_packets e.0 e.1)
      (add_delta_self c.tx_packets d.tx_packets f.0 f.1)

observed-Agrees :
    (o : Observation) (e : Option FlowEntry) (c : Counts)
    → Agrees e c
    → IsBelow c o.counts
    → Agrees (some (observed o e)) o.counts
unfolding Agrees observed observe fresh
observed-Agrees o none c h below = (refl, refl)
observed-Agrees o (some f) c (s, p) below = (
  ap (λ x. add_counts x f.prev o.counts) s
      ∙ ap (λ x. add_counts c x o.counts) p
      ∙ add_counts_self c o.counts below,
  refl,
)

-- Where the table agrees with the counters, it does after every observation.
track-Agrees :
    (k : Key) (os : List Observation) (e : Option FlowEntry) (c : Counts)
    → Agrees e c
    → IsRising k os c
    → Option.map (λ f. f.sum) (track k os e) ≡ last_counts k os (Option.map (λ f. f.sum) e)
unfolding track last_counts IsRising Agrees
track-Agrees k [] e c a r = refl
track-Agrees k (o ∷ os) e c a (below, rising) = elim (Bool-cases (mine k o)) [
  | inr not_mine ↦ rw not_mine (
      track-Agrees k os e c a
        (subst (λ b. IsRising k os (if b then o.counts else c)) not_mine rising))
  | inl is ↦
      let next : Agrees (some (observed o e)) o.counts = observed-Agrees o e c a (below is) in
      let later =
        track-Agrees k os (some (observed o e)) o.counts next
          (subst (λ b. IsRising k os (if b then o.counts else c)) is rising) in
      rw is (later ∙ ap (λ x. last_counts k os (some x)) next.0)
]

-- Observations in a row, of any flows, with memory for every entry, from the zeroed table: where the
-- counters of one flow do not fall and stay below 2^63, the table finds for it an entry that has added
-- up the counters that were observed last, and none where no observation counted.
pub ingest_all-last_counts :
    (k : Key) (os : List Observation)
    → IsRising k os no_counts
    → Option.map (λ f. f.sum) (find k (ingest_all os empty_table)) ≡ last_counts k os none
unfolding Agrees
ingest_all-last_counts k os rising =
    ap (Option.map (λ f. f.sum))
      (find-ingest_all k os empty_table length-empty_table ∙ ap (track k os) (find-empty_table k))
    ∙ track-Agrees k os none no_counts tt rising
