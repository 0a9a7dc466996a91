-- ===== src/Dnsmap/Flow/Inv.antt =====
-- The well-formedness of a cache of flows, and that every operation keeps it.
use openwrt_demo.Dnsmap.Flow.{
  FlowKey, flow_host_buckets, flow_host_max, flow_host_timeout, flow_host_key, Entry, Cache, copied,
  category_of, expire, refresh, insert, make_room, add_at, add, add_flow_host, add_flow_app,
  empty_cache,
}
use openwrt_demo.Dnsmap.Flow.Chain.{
  total, Absent, Distinct, total-set, expire_buckets-count, expire_buckets-Distinct, refresh-Absent,
  refresh-same, expire_buckets-Absent,
}
use openwrt_demo.Prelude.{
  ℕ, zero, suc, ◌+◌, ◌≤◌, ◌<◌, ◌≡◌, refl, sym, ap, ◌∙◌, Bool, true, false, Option, none, some, List,
  [], ◌∷◌, inl, inr, leb, ◌==◌, Bool-cases, Option-cases, arith, length, get_or, All, All-set,
  All-replicate, replicate, length-set, leb→gt,
}

module _ {V : Type 0} where
  -- There are 8192 chains, in each a flow has one entry at most, and the count is the number of
  -- entries and at most 32768.
  pub record IsValid (c : Cache V) : Type 0 where
    pub size : length c.buckets ≡ flow_host_buckets
    pub counted : c.count ≡ total c.buckets
    pub small : c.count ≤ flow_host_max
    pub distinct : All Distinct c.buckets

  get_or-Distinct :
      (bs : List (List (Entry V))) (i : ℕ) → All Distinct bs → Distinct (get_or bs i [])
  get_or-Distinct [] i h = tt
  get_or-Distinct (b ∷ bs) zero h = h.0
  get_or-Distinct (b ∷ bs) (suc i) h = get_or-Distinct bs i h.1

  pub expire-IsValid : (now : ℕ) (c : Cache V) → IsValid c → IsValid (expire now c)
  unfolding expire
  expire-IsValid now c v =
      let (n, le, s) =
        expire_buckets-count now c.buckets c.count (omega (arith, v.counted))
          (omega (arith, v.small)) in
      record {
        size = s ∙ v.size;
        counted = omega (arith, n, v.counted);
        small = omega (arith, n, le, v.counted, v.small);
        distinct = expire_buckets-Distinct now c.buckets c.count v.distinct;
      }

  insert-IsValid :
      (calloc : Bool) (k : FlowKey) (v : V) (now idx : ℕ) (c : Cache V)
      → IsValid c
      → idx < flow_host_buckets
      → c.count < flow_host_max
      → Absent k (get_or c.buckets idx [])
      → IsValid (insert calloc k v now idx c)
  unfolding insert
  insert-IsValid false k v now idx c w lt room absent = w
  insert-IsValid true k v now idx c w lt room absent =
      let chain =
        record { key = k; value = v; expires = now + flow_host_timeout }
        ∷ get_or c.buckets idx [] in
      let t = total-set c.buckets idx chain (omega (arith, w.size, lt)) in
      record {
        size = length-set c.buckets idx chain ∙ w.size;
        counted = omega (arith, t, w.counted, room);
        small = omega (arith, room);
        distinct =
            All-set Distinct c.buckets idx chain w.distinct
              (absent, get_or-Distinct c.buckets idx w.distinct);
      }

  make_room-IsValid :
      (calloc : Bool) (k : FlowKey) (v : V) (now idx : ℕ) (c : Cache V)
      → IsValid c
      → idx < flow_host_buckets
      → Absent k (get_or c.buckets idx [])
      → IsValid (make_room calloc k v now idx c)
  unfolding make_room expire
  make_room-IsValid calloc k v now idx c w lt absent =
      let w' = expire-IsValid now c w in
      elim (Bool-cases (leb flow_host_max c.count)) [
        | inr room ↦ rw room (insert-IsValid calloc k v now idx c w lt (leb→gt _ _ room) absent)
        | inl full ↦ elim (Bool-cases (leb flow_host_max (expire now c).count)) [
          | inl still ↦ rw (full, still) w'
          | inr room ↦
              rw (full, room)
                (insert-IsValid calloc k v now idx (expire now c) w' lt (leb→gt _ _ room)
                  (expire_buckets-Absent now c.buckets c.count k idx absent))
        ]
      ]

  pub add-IsValid :
      (calloc : Bool) (k : FlowKey) (v : V) (now : ℕ) (c : Cache V)
      → IsValid c
      → IsValid (add calloc k v now c)
  unfolding add add_at flow_host_key
  add-IsValid calloc k v now c w =
      let idx = flow_host_key k in
      let chain = get_or c.buckets idx [] in
      let lt : idx < flow_host_buckets = omega arith in
      elim (Option-cases (refresh k v (now + flow_host_timeout) chain)) [
        | inl missing ↦ rw missing (
            make_room-IsValid calloc k v now idx c w lt
              (refresh-Absent k v (now + flow_host_timeout) chain missing))
        | inr (chain', found) ↦
            let (n, a, d) = refresh-same k v (now + flow_host_timeout) chain chain' found in
            let t = total-set c.buckets idx chain' (omega (arith, w.size, lt)) in
            rw found (record {
              size = length-set c.buckets idx chain' ∙ w.size;
              counted = omega (arith, t, n, w.counted);
              small = w.small;
              distinct =
                  All-set Distinct c.buckets idx chain' w.distinct
                    (d (get_or-Distinct c.buckets idx w.distinct));
            })
      ]

length-replicate : (A : Type 0) (n : ℕ) (a : A) → length (replicate n a) ≡ n
length-replicate A zero a = refl
length-replicate A (suc n) a = ap suc (length-replicate A n a)

total-replicate : (V : Type 0) (n : ℕ) → total {V = V} (replicate n []) ≡ 0
total-replicate V zero = refl
total-replicate V (suc n) = omega (arith, total-replicate V n)

pub empty-IsValid : (V : Type 0) → IsValid (empty_cache {V = V})
empty-IsValid V = record {
  size = length-replicate (List (Entry V)) flow_host_buckets [];
  counted = sym (total-replicate V flow_host_buckets);
  small = omega arith;
  distinct = All-replicate (Distinct {V = V}) flow_host_buckets [] tt;
}

add_flow_host-IsValid :
    (calloc : Bool) (k : FlowKey) (host : Option (List ℕ)) (now : ℕ) (c : Cache (List ℕ))
    → IsValid c
    → IsValid (add_flow_host calloc k host now c)
unfolding add_flow_host
add_flow_host-IsValid calloc k none now c h = h
add_flow_host-IsValid calloc k (some s) now c h = elim (Bool-cases (length s == 0)) [
  | inl empty ↦ rw empty h
  | inr there ↦ rw there (add-IsValid calloc k (copied 256 s) now c h)
]

add_flow_app-IsValid :
    (calloc : Bool) (k : FlowKey) (app cat : Option (List ℕ)) (now : ℕ)
    (c : Cache (List ℕ × List ℕ))
    → IsValid c
    → IsValid (add_flow_app calloc k app cat now c)
unfolding add_flow_app
add_flow_app-IsValid calloc k none cat now c h = h
add_flow_app-IsValid calloc k (some s) cat now c h = elim (Bool-cases (length s == 0)) [
  | inl empty ↦ rw empty h
  | inr there ↦ rw there (add-IsValid calloc k (copied 64 s, copied 32 (category_of cat)) now c h)
]

-- Recording a host or an application and the periodic sweep keep the caches valid, whatever the
-- allocator answers: a count is the number of entries, there are 32768 of them at most, and a flow
-- has one at most in its chain.
pub add_flow-IsValid :
    (calloc : Bool) (k : FlowKey) (host app cat : Option (List ℕ)) (now : ℕ)
    (hosts : Cache (List ℕ)) (apps : Cache (List ℕ × List ℕ))
    → IsValid hosts
    → IsValid apps
    → IsValid (add_flow_host calloc k host now hosts)
      × IsValid (add_flow_app calloc k app cat now apps)
      × IsValid (expire now hosts)
      × IsValid (expire now apps)
add_flow-IsValid calloc k host app cat now hosts apps h a = (
  add_flow_host-IsValid calloc k host now hosts h,
  add_flow_app-IsValid calloc k app cat now apps a,
  expire-IsValid now hosts h,
  expire-IsValid now apps a,
)
