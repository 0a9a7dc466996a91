-- ===== src/Dnsmap/Flow/Lookup.antt =====
-- A cache of flows as a map: what `add` and the sweep change of what `lookup` finds.
use openwrt_demo.Dnsmap.Flow.{
  FlowKey, flow_host_buckets, flow_host_max, flow_host_timeout, flow_host_key, same_flow, Entry,
  Cache, dec32, expire_chain, expire_buckets, expire, refresh, insert, make_room, add_at, add, find,
  lookup,
}
use openwrt_demo.Prelude.{
  ℕ, zero, suc, ◌+◌, ◌%◌, ◌^◌, ◌≤◌, ◌<◌, ◌≡◌, refl, ap, subst, ◌∙◌, Bool, true, false, ◌&&◌, some,
  List, [], ◌∷◌, inl, inr, ltb, leb, ◌==◌, Bool-cases, Option-cases, arith, length, get_or, set,
  get_or-set_self, get_or-set_ne, ltb→lt, ge→ltb, lt→ltb, gt→leb, ==→eq, ==→ne,
}
use openwrt_demo.Dnsmap.Flow.Inv.{IsValid, expire-IsValid}
use mathlib.Core.Option.{some-injective}

same_flow_refl : (k : FlowKey) → same_flow k k ≡ true
unfolding same_flow
same_flow_refl k = ground arith

-- Entries of one flow are not entries of another.
same_flow_other :
    (a k j : FlowKey) → same_flow a k ≡ true → same_flow k j ≡ false → same_flow a j ≡ false
unfolding same_flow
same_flow_other a k j h n = ground arith

module _ {V : Type 0} where
  -- A sweep takes away nothing that a later lookup finds.
  find-expire_chain :
      (k : FlowKey) (now t : ℕ) (b : List (Entry V)) (count : ℕ)
      → now ≤ t
      → find k t (expire_chain now b count).0 ≡ find k t b
  unfolding find expire_chain
  find-expire_chain k now t [] count h = refl
  find-expire_chain k now t (x ∷ xs) count h = elim (Bool-cases (ltb x.expires now)) [
    | inl old ↦
        let gone : ltb t x.expires ≡ false = ge→ltb _ _ (omega (arith, ltb→lt _ _ old)) in
        elim (Bool-cases (same_flow x.key k)) [
          | inl same ↦ rw (old, find, same, gone) (find-expire_chain k now t xs (dec32 count) h)
          | inr other ↦ rw (old, find, other) (find-expire_chain k now t xs (dec32 count) h)
        ]
    | inr live ↦ elim (Bool-cases (same_flow x.key k && ltb t x.expires)) [
      | inl here ↦ rw (live, find, here) refl
      | inr later ↦ rw (live, find, later) (find-expire_chain k now t xs count h)
    ]
  ]

  find-expire_buckets :
      (k : FlowKey) (now t : ℕ) (bs : List (List (Entry V))) (count i : ℕ)
      → now ≤ t
      → find k t (get_or (expire_buckets now bs count).0 i []) ≡ find k t (get_or bs i [])
  unfolding expire_buckets
  find-expire_buckets k now t [] count i h = refl
  find-expire_buckets k now t (b ∷ bs) count zero h = find-expire_chain k now t b count h
  find-expire_buckets k now t (b ∷ bs) count (suc i) h = find-expire_buckets k now t bs _ i h

  pub lookup-expire :
      (k : FlowKey) (now t : ℕ) (c : Cache V) → now ≤ t → lookup k t (expire now c) ≡ lookup k t c
  unfolding lookup expire
  lookup-expire k now t c h = find-expire_buckets k now t c.buckets c.count (flow_host_key k) h

  -- A refreshed flow is found, and the others are as before.
  find-refresh :
      (k : FlowKey) (v : V) (expires t : ℕ) (b b' : List (Entry V))
      → refresh k v expires b ≡ some b'
      → t < expires
      → find k t b' ≡ some v
  unfolding find refresh
  find-refresh k v expires t [] b' = λ e h. cc
  find-refresh k v expires t (x ∷ xs) b' = elim (Bool-cases (same_flow x.key k)) [
    | inl same ↦
        rw (same, refresh)
          (λ e h.
            subst (λ c. find k t c ≡ some v) (some-injective _ _ e)
              (rw (find, same, lt→ltb _ _ h) refl))
    | inr other ↦ elim (Option-cases (refresh k v expires xs)) [
      | inl missing ↦ rw (other, refresh, missing) (λ e h. cc)
      | inr (rest, found) ↦
          rw (other, refresh, found)
            (λ e h.
              subst (λ c. find k t c ≡ some v) (some-injective _ _ e)
                (rw (find, other) (find-refresh k v expires t xs rest found h)))
    ]
  ]

  find_other-refresh :
      (k j : FlowKey) (v : V) (expires t : ℕ) (b b' : List (Entry V))
      → same_flow k j ≡ false
      → refresh k v expires b ≡ some b'
      → find j t b' ≡ find j t b
  unfolding find refresh
  find_other-refresh k j v expires t [] b' = λ n e. cc
  find_other-refresh k j v expires t (x ∷ xs) b' = elim (Bool-cases (same_flow x.key k)) [
    | inl same ↦
        rw (same, refresh)
          (λ n e.
            let away = same_flow_other x.key k j same n in
            subst (λ c. find j t c ≡ find j t (x ∷ xs)) (some-injective _ _ e)
              (rw (away, find) refl))
    | inr other ↦ elim (Option-cases (refresh k v expires xs)) [
      | inl missing ↦ rw (other, refresh, missing) (λ n e. cc)
      | inr (rest, found) ↦
          rw (other, refresh, found)
            (λ n e.
              subst (λ c. find j t c ≡ find j t (x ∷ xs)) (some-injective _ _ e)
                (elim (Bool-cases (same_flow x.key j && ltb t x.expires)) [
                  | inl here ↦ rw (here, find) refl
                  | inr later ↦
                      rw (later, find) (find_other-refresh k j v expires t xs rest n found)
                ]))
    ]
  ]

  lookup-set :
      (bs : List (List (Entry V))) (n : ℕ) (k j : FlowKey) (chain : List (Entry V)) (t : ℕ)
      → find j t chain ≡ find j t (get_or bs (flow_host_key k) [])
      → flow_host_key k < length bs
      → lookup j t (record { buckets = set bs (flow_host_key k) chain; count = n })
        ≡ find j t (get_or bs (flow_host_key j) [])
  unfolding lookup
  lookup-set bs n k j chain t same lt = elim (Bool-cases (flow_host_key k == flow_host_key j)) [
    | inl e ↦
        let at = ==→eq _ _ e in
        subst
          (λ i. find j t (get_or (set bs (flow_host_key k) chain) i []) ≡ find j t (get_or bs i []))
          at (ap (find j t) (get_or-set_self bs (flow_host_key k) chain [] lt) ∙ same)
    | inr ne ↦
        ap (find j t) (get_or-set_ne bs (flow_host_key k) (flow_host_key j) chain [] (==→ne _ _ ne))
  ]

  lookup-insert_other :
      (calloc : Bool) (k j : FlowKey) (v : V) (now t : ℕ) (c : Cache V)
      → length c.buckets ≡ flow_host_buckets
      → same_flow k j ≡ false
      → lookup j t (insert calloc k v now (flow_host_key k) c) ≡ lookup j t c
  unfolding insert find lookup flow_host_key
  lookup-insert_other false k j v now t c s n = refl
  lookup-insert_other true k j v now t c s n =
      lookup-set c.buckets ((c.count + 1) % 2 ^ 32) k j _ t (rw (find, n) refl) (omega (arith, s))

  lookup-make_room_other :
      (calloc : Bool) (k j : FlowKey) (v : V) (now t : ℕ) (c : Cache V)
      → IsValid c
      → now ≤ t
      → same_flow k j ≡ false
      → lookup j t (make_room calloc k v now (flow_host_key k) c) ≡ lookup j t c
  unfolding make_room
  lookup-make_room_other calloc k j v now t c w le n =
      elim (Bool-cases (leb flow_host_max c.count)) [
        | inr room ↦ rw room (lookup-insert_other calloc k j v now t c w.size n)
        | inl full ↦ elim (Bool-cases (leb flow_host_max (expire now c).count)) [
          | inl still ↦ rw (full, still) (lookup-expire j now t c le)
          | inr room ↦
              rw (full, room)
                (lookup-insert_other calloc k j v now t (expire now c) (expire-IsValid now c w).size
                    n
                  ∙ lookup-expire j now t c le)
        ]
      ]

  lookup-insert_self :
      (k : FlowKey) (v : V) (now t : ℕ) (c : Cache V)
      → length c.buckets ≡ flow_host_buckets
      → t < now + flow_host_timeout
      → lookup k t (insert true k v now (flow_host_key k) c) ≡ some v
  unfolding insert lookup flow_host_key find
  lookup-insert_self k v now t c s lt =
      ap (find k t) (
        get_or-set_self c.buckets (flow_host_key k)
          (record { key = k; value = v; expires = now + flow_host_timeout }
            ∷ get_or c.buckets (flow_host_key k) [])
          [] (omega (arith, s)))
      ∙ rw (find, same_flow_refl k, lt→ltb _ _ lt) refl

  key-lt : (k : FlowKey) (c : Cache V) → IsValid c → flow_host_key k < length c.buckets
  unfolding flow_host_key
  key-lt k c w = omega (arith, w.size)

  lookup-make_room_self :
      (calloc : Bool) (k : FlowKey) (v : V) (now t : ℕ) (c : Cache V)
      → IsValid c
      → calloc ≡ true
      → c.count < flow_host_max
      → t < now + flow_host_timeout
      → lookup k t (make_room calloc k v now (flow_host_key k) c) ≡ some v
  unfolding make_room
  lookup-make_room_self calloc k v now t c w granted room lt =
      rw (gt→leb _ _ room, granted) (lookup-insert_self k v now t c w.size lt)

  -- Recording a value for a flow changes no later lookup of another flow, whatever the allocator
  -- answers and whether or not the cache is full and swept.
  pub lookup_other-add :
      (calloc : Bool) (k j : FlowKey) (v : V) (now t : ℕ) (c : Cache V)
      → IsValid c
      → now ≤ t
      → same_flow k j ≡ false
      → lookup j t (add calloc k v now c) ≡ lookup j t c
  unfolding add add_at lookup find
  lookup_other-add calloc k j v now t c w le n =
      elim (Option-cases
        (refresh k v (now + flow_host_timeout) (get_or c.buckets (flow_host_key k) []))) [
          | inl missing ↦ rw missing (lookup-make_room_other calloc k j v now t c w le n)
          | inr (chain, found) ↦ rw found (
              lookup-set c.buckets c.count k j chain t
                (find_other-refresh k j v (now + flow_host_timeout) t _ chain n found)
                (key-lt k c w))
        ]

  -- With memory granted and room in the cache, a flow whose value is recorded is found with that
  -- value by every lookup in the next 600 seconds.
  pub lookup-add :
      (k : FlowKey) (v : V) (now t : ℕ) (c : Cache V)
      → IsValid c
      → c.count < flow_host_max
      → t < now + flow_host_timeout
      → lookup k t (add true k v now c) ≡ some v
  unfolding add add_at lookup find
  lookup-add k v now t c w room lt =
      elim (Option-cases
        (refresh k v (now + flow_host_timeout) (get_or c.buckets (flow_host_key k) []))) [
          | inl missing ↦ rw missing (lookup-make_room_self true k v now t c w refl room lt)
          | inr (chain, found) ↦ rw found (
              ap (find k t) (get_or-set_self c.buckets (flow_host_key k) chain [] (key-lt k c w))
              ∙ find-refresh k v (now + flow_host_timeout) t _ chain found lt)
        ]
