-- ===== src/Account.antt =====
-- The table of flows of apptraffic/src/main.c: `hash_flow`, `flow_ingest` and `flow_expire`. A chain of
-- the table is a list, and the counters of conntrack are below 2^63, so that the differences as signed
-- numbers are exact.
pub mod Totals
mod Sums
mod Tests
use Prim.Native.Nat.{bit_xor}
use openwrt_demo.Prelude.{
  ℕ, zero, suc, ◌+◌, ◌-◌, ◌*◌, ◌/◌, ◌%◌, ◌^◌, Bool, true, false, not, ◌&&◌, ◌||◌, Option, none,
  some, List, [], ◌∷◌, ltb, ◌==◌, if◌then◌else◌, get_or, set, map,
}

-- MAX_FLOW_ENTRIES
abbrev pub max_flow_entries : ℕ
max_flow_entries = 32768

pub record Key : Type 0 where
  pub src_ip : ℕ
  pub dst_ip : ℕ
  pub src_port : ℕ
  pub dst_port : ℕ
  pub protocol : ℕ

pub record Counts : Type 0 where
  pub rx_bytes : ℕ
  pub tx_bytes : ℕ
  pub rx_packets : ℕ
  pub tx_packets : ℕ

-- `sum` is what was added up, and `prev` the counters that conntrack had last.
pub record FlowEntry : Type 0 where
  pub key : Key
  pub sum : Counts
  pub prev : Counts
  pub dirty : Bool
  pub first_seen : ℕ
  pub last_seen : ℕ

-- one call of `flow_ingest`
pub record Observation : Type 0 where
  pub of : Key
  pub counts : Counts
  pub now : ℕ

-- The shifted port and the other one have no bit in common.
pub hash_flow : Key → ℕ
hash_flow k =
    let h =
      bit_xor (bit_xor (bit_xor k.src_ip k.dst_ip) (k.src_port * 2 ^ 16 + k.dst_port)) k.protocol in
    bit_xor h (h / 2 ^ 16) % max_flow_entries

pub same_key : Key → Key → Bool
same_key a b =
    a.src_ip == b.src_ip
    && a.dst_ip == b.dst_ip
    && a.src_port == b.src_port
    && a.dst_port == b.dst_port
    && a.protocol == b.protocol

-- if (d > 0) sum += d;, for a difference of two counters
pub add_delta : ℕ → ℕ → ℕ → ℕ
add_delta sum prev count = if ltb prev count then (sum + (count - prev)) % 2 ^ 64 else sum

pub add_counts : Counts → Counts → Counts → Counts
add_counts sum prev c = record {
  rx_bytes = add_delta sum.rx_bytes prev.rx_bytes c.rx_bytes;
  tx_bytes = add_delta sum.tx_bytes prev.tx_bytes c.tx_bytes;
  rx_packets = add_delta sum.rx_packets prev.rx_packets c.rx_packets;
  tx_packets = add_delta sum.tx_packets prev.tx_packets c.tx_packets;
}

pub is_more : Counts → Counts → Bool
is_more prev c =
    ltb prev.rx_bytes c.rx_bytes
    || ltb prev.tx_bytes c.tx_bytes
    || ltb prev.rx_packets c.rx_packets
    || ltb prev.tx_packets c.tx_packets

-- an entry that was found
pub observe : Observation → FlowEntry → FlowEntry
observe o f = record {
  key = f.key;
  sum = add_counts f.sum f.prev o.counts;
  prev = o.counts;
  dirty = if is_more f.prev o.counts then true else f.dirty;
  first_seen = f.first_seen;
  last_seen = o.now;
}

-- a new entry, which calloc has zeroed; one of the byte counters is not zero
pub fresh : Observation → FlowEntry
fresh o = record {
  key = o.of;
  sum = o.counts;
  prev = o.counts;
  dirty = true;
  first_seen = o.now;
  last_seen = o.now;
}

pub find_chain : Key → List FlowEntry → Option FlowEntry
find_chain k [] = none
find_chain k (f ∷ fs) = let rest = find_chain k fs in if same_key f.key k then some f else rest

-- the entry that is found, changed in place
pub update_chain : Observation → List FlowEntry → List FlowEntry
update_chain o [] = []
update_chain o (f ∷ fs) =
    let rest = update_chain o fs in if same_key f.key o.of then observe o f ∷ fs else f ∷ rest

-- `calloc` tells whether the allocator grants an entry.
pub ingest_chain : Bool → Observation → Option FlowEntry → List FlowEntry → List FlowEntry
ingest_chain calloc o (some f) chain = update_chain o chain
ingest_chain true o none chain = fresh o ∷ chain
ingest_chain false o none chain = chain

-- the first two tests
pub counted : Observation → Bool
counted o =
    not (o.of.src_ip == 0 || o.of.dst_ip == 0)
    && not (o.counts.rx_bytes == 0 && o.counts.tx_bytes == 0)

pub flow_ingest : Bool → Observation → List (List FlowEntry) → List (List FlowEntry)
flow_ingest calloc o table =
    let idx = hash_flow o.of in
    let chain = get_or table idx [] in
    if counted o then set table idx (ingest_chain calloc o (find_chain o.of chain) chain) else table

pub expire_chain : ℕ → List FlowEntry → List FlowEntry
expire_chain cutoff [] = []
expire_chain cutoff (f ∷ fs) =
    let rest = expire_chain cutoff fs in if ltb f.last_seen cutoff then rest else f ∷ rest

-- The clock is not below the time limit.
pub flow_expire : ℕ → ℕ → List (List FlowEntry) → List (List FlowEntry)
flow_expire now flow_timeout table = map (expire_chain (now - flow_timeout)) table
