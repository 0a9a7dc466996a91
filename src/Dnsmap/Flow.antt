-- ===== src/Dnsmap/Flow.antt =====
-- The caches of flows: `flow_host_*` and `flow_app_*`, with `mapping_add_flow_host` and its kin. The
-- two caches are written alike, but for the value that an entry holds.
pub mod Chain
pub mod Inv
pub mod Lookup
use Prim.Native.Nat.{bit_xor}
use openwrt_demo.Prelude.{
  ℕ, zero, suc, ◌+◌, ◌-◌, ◌*◌, ◌/◌, ◌%◌, ◌^◌, Bool, true, false, not, ◌&&◌, Option, none, some,
  List, [], ◌∷◌, ltb, leb, ◌==◌, if◌then◌else◌, length, get_or, set, take, replicate, bytes_of,
}

-- FLOW_HOST_BUCKETS, FLOW_HOST_MAX, FLOW_HOST_TIMEOUT
abbrev pub flow_host_buckets : ℕ
flow_host_buckets = 8192

abbrev pub flow_host_max : ℕ
flow_host_max = 32768

abbrev pub flow_host_timeout : ℕ
flow_host_timeout = 600

-- the five values that tell flows apart
pub record FlowKey : Type 0 where
  pub src_ip : ℕ
  pub dst_ip : ℕ
  pub src_port : ℕ
  pub dst_port : ℕ
  pub proto : ℕ

unfoldable pub same_flow : FlowKey → FlowKey → Bool
same_flow a b =
    a.src_ip == b.src_ip
    && a.dst_ip == b.dst_ip
    && a.src_port == b.src_port
    && a.dst_port == b.dst_port
    && a.proto == b.proto

-- The two sides of `src_port << 16 | dst_port` have no bit in common.
pub flow_host_key : FlowKey → ℕ
flow_host_key k =
    let h =
      bit_xor (bit_xor (bit_xor k.src_ip k.dst_ip) (k.src_port * 2 ^ 16 + k.dst_port)) k.proto in
    bit_xor h (h / 2 ^ 16) % flow_host_buckets

-- count--
abbrev pub dec32 : ℕ → ℕ
dec32 n = (n + (2 ^ 32 - 1)) % 2 ^ 32

module _ (V : Type 0) where
  -- `struct flow_host`, `struct flow_app`
  pub record Entry : Type 0 where
    pub key : FlowKey
    pub value : V
    pub expires : ℕ

  -- the table of chains and the number of entries
  pub record Cache : Type 0 where
    pub buckets : List (List Entry)
    pub count : ℕ

module _ {V : Type 0} where
  -- the inner loop of `flow_host_expire`
  pub expire_chain : ℕ → List (Entry V) → ℕ → List (Entry V) × ℕ
  expire_chain now [] count = ([], count)
  expire_chain now (h ∷ hs) count =
      if ltb h.expires now
      then expire_chain now hs (dec32 count)
      else (let (rest, n) = expire_chain now hs count in (h ∷ rest, n))

  pub expire_buckets : ℕ → List (List (Entry V)) → ℕ → List (List (Entry V)) × ℕ
  expire_buckets now [] count = ([], count)
  expire_buckets now (b ∷ bs) count =
      let (chain, n) = expire_chain now b count in
      let (rest, m) = expire_buckets now bs n in (chain ∷ rest, m)

  -- `flow_host_expire`, `flow_app_expire`
  pub expire : ℕ → Cache V → Cache V
  expire now c =
      let (buckets, n) = expire_buckets now c.buckets c.count in
      record { buckets = buckets; count = n }

  -- The loop that refreshes an entry of the flow; none where there is no such entry.
  pub refresh : FlowKey → V → ℕ → List (Entry V) → Option (List (Entry V))
  refresh k v expires [] = none
  refresh k v expires (h ∷ hs) = elim (same_flow h.key k) [
    | true ↦ some (record h { value = v; expires = expires } ∷ hs)
    | false ↦ elim (refresh k v expires hs) [ none ↦ none | some rest ↦ some (h ∷ rest) ]
  ]

  -- from `calloc` on, into the chain `idx`
  pub insert : Bool → FlowKey → V → ℕ → ℕ → Cache V → Cache V
  insert calloc k v now idx c =
      if calloc
      then record {
        buckets = set c.buckets idx (
            record { key = k; value = v; expires = now + flow_host_timeout }
            ∷ get_or c.buckets idx []);
        count = (c.count + 1) % 2 ^ 32;
      }
      else c

  -- from the test of the count on
  pub make_room : Bool → FlowKey → V → ℕ → ℕ → Cache V → Cache V
  make_room calloc k v now idx c =
      if leb flow_host_max c.count
      then (let c' = expire now c in
          if leb flow_host_max c'.count then c' else insert calloc k v now idx c')
      else insert calloc k v now idx c

  pub add_at : Bool → FlowKey → V → ℕ → ℕ → Cache V → Option (List (Entry V)) → Cache V
  add_at calloc k v now idx c none = make_room calloc k v now idx c
  add_at calloc k v now idx c (some chain) = record c { buckets = set c.buckets idx chain }

  -- What the two `mapping_add_flow_*` do with a value that is not empty.
  pub add : Bool → FlowKey → V → ℕ → Cache V → Cache V
  add calloc k v now c =
      let idx = flow_host_key k in
      add_at calloc k v now idx c (refresh k v (now + flow_host_timeout) (get_or c.buckets idx []))

  -- the loop of `mapping_lookup_flow_host`
  pub find : FlowKey → ℕ → List (Entry V) → Option V
  find k now [] = none
  find k now (h ∷ hs) = elim (same_flow h.key k && ltb now h.expires) [
    | true ↦ some h.value
    | false ↦ find k now hs
  ]

  pub lookup : FlowKey → ℕ → Cache V → Option V
  lookup k now c = find k now (get_or c.buckets (flow_host_key k) [])

  abbrev pub empty_cache : Cache V
  empty_cache = record { buckets = replicate flow_host_buckets []; count = 0 }

-- strncpy(dst, src, size - 1); dst[size - 1] = 0;
abbrev pub copied : ℕ → List ℕ → List ℕ
copied size s = take (size - 1) s

-- `mapping_add_flow_host`; none is NULL
pub add_flow_host : Bool → FlowKey → Option (List ℕ) → ℕ → Cache (List ℕ) → Cache (List ℕ)
add_flow_host calloc k none now c = c
add_flow_host calloc k (some host) now c =
    if length host == 0 then c else add calloc k (copied 256 host) now c

-- `mapping_lookup_flow_host`
pub lookup_flow_host : FlowKey → ℕ → Cache (List ℕ) → Option (List ℕ)
lookup_flow_host = lookup

-- cat ? cat : "General"
pub category_of : Option (List ℕ) → List ℕ
category_of none = bytes_of "General"
category_of (some cat) = cat

-- `mapping_add_flow_app`
pub add_flow_app :
    Bool
    → FlowKey
    → Option (List ℕ)
    → Option (List ℕ)
    → ℕ
    → Cache (List ℕ × List ℕ)
    → Cache (List ℕ × List ℕ)
add_flow_app calloc k none cat now c = c
add_flow_app calloc k (some app) cat now c =
    if length app == 0 then c else add calloc k (copied 64 app, copied 32 (category_of cat)) now c

-- `mapping_lookup_flow_app`: application and category, or none for the return value 0
pub lookup_flow_app : FlowKey → ℕ → Cache (List ℕ × List ℕ) → Option (List ℕ × List ℕ)
lookup_flow_app = lookup
