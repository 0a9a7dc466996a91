-- ===== src/Dnsmap/Local/Stale.antt =====
-- The broadcast addresses that `mapping_init_local` leaves behind.
use openwrt_demo.Dnsmap.Local.{
  max_local_addrs, Local, Interface, among, add_bcast, add_interface, add_interfaces, init_local,
  free_local, is_noise_ip,
}
use openwrt_demo.Prelude.{
  ℕ, ◌≤◌, ◌≡◌, refl, true, not, ◌&&◌, Option, none, some, List, [], ◌∷◌, ◌++◌, inl, inr, ltb, ◌==◌,
  Bool-cases, arith, length, length-append, ltb→lt, and_true, or_true,
}

among-append : (x : ℕ) (xs ys : List ℕ) → among x xs ≡ true → among x (xs ++ ys) ≡ true
unfolding among
among-append x [] ys h = cc
among-append x (a ∷ rest) ys h = elim (Bool-cases (a == x)) [
  | inl e ↦ rw e refl
  | inr n ↦ ground (arith, among-append x rest ys)
]

-- What holds of both arrays and is kept by an interface.
pub record Fits (l : Local) : Type 0 where
  pub addrs : length l.addrs ≤ max_local_addrs
  pub bcasts : length l.bcasts ≤ max_local_addrs

module _ (ntohl : ℕ → ℕ) where
  add_bcast-Fits : (b : Option ℕ) (l : Local) → Fits l → Fits (add_bcast ntohl b l)
  unfolding add_bcast
  add_bcast-Fits none l h = h
  add_bcast-Fits (some b) l h =
      elim (Bool-cases (ltb (length l.bcasts) max_local_addrs && not (b == 0))) [
        | inr full ↦ rw full h
        | inl room ↦
            let (free, there) : (ltb (length l.bcasts) max_local_addrs ≡ true)
                × (not (b == 0) ≡ true) =
              and_true _ _ room in
            rw room (record {
              addrs = h.addrs;
              bcasts = omega (arith, length-append l.bcasts (ntohl b ∷ []), ltb→lt _ _ free);
            })
      ]

  add_bcast-among :
      (b : Option ℕ) (l : Local) (x : ℕ)
      → among x l.bcasts ≡ true
      → among x (add_bcast ntohl b l).bcasts ≡ true
  unfolding add_bcast
  add_bcast-among none l x h = h
  add_bcast-among (some b) l x h =
      elim (Bool-cases (ltb (length l.bcasts) max_local_addrs && not (b == 0))) [
        | inr full ↦ rw full h
        | inl room ↦ rw room (among-append x l.bcasts (ntohl b ∷ []) h)
      ]

  -- One interface.
  add_interface-Fits :
      (a b : Option ℕ) (l : Local)
      → Fits l
      → ltb (length l.addrs) max_local_addrs ≡ true
      → Fits (add_interface ntohl a b l)
  unfolding add_interface
  add_interface-Fits none b l h room = h
  add_interface-Fits (some ip) b l h room = elim (Bool-cases (ip == 0)) [
    | inl nil ↦ rw nil h
    | inr there ↦ rw there (
        add_bcast-Fits b (record l { addrs = l.addrs ++ ip ∷ [] })
          (record {
            addrs = omega (arith, length-append l.addrs (ip ∷ []), ltb→lt _ _ room);
            bcasts = h.bcasts;
          }))
  ]

  add_interface-among :
      (a b : Option ℕ) (l : Local) (x : ℕ)
      → among x l.bcasts ≡ true
      → among x (add_interface ntohl a b l).bcasts ≡ true
  unfolding add_interface
  add_interface-among none b l x h = h
  add_interface-among (some ip) b l x h = elim (Bool-cases (ip == 0)) [
    | inl nil ↦ rw nil h
    | inr there ↦ rw there (add_bcast-among b (record l { addrs = l.addrs ++ ip ∷ [] }) x h)
  ]

  add_interfaces-Fits :
      (is : List Interface) (l : Local) → Fits l → Fits (add_interfaces ntohl is l)
  unfolding add_interfaces
  add_interfaces-Fits [] l h = h
  add_interfaces-Fits (i ∷ is) l h = elim (Bool-cases (ltb (length l.addrs) max_local_addrs)) [
    | inr full ↦ rw full h
    | inl room ↦ rw room (
        add_interfaces-Fits is (add_interface ntohl i.addr i.broadaddr l)
          (add_interface-Fits i.addr i.broadaddr l h room))
  ]

  add_interfaces-among :
      (is : List Interface) (l : Local) (x : ℕ)
      → among x l.bcasts ≡ true
      → among x (add_interfaces ntohl is l).bcasts ≡ true
  unfolding add_interfaces
  add_interfaces-among [] l x h = h
  add_interfaces-among (i ∷ is) l x h = elim (Bool-cases (ltb (length l.addrs) max_local_addrs)) [
    | inr full ↦ rw full h
    | inl room ↦ rw room (
        add_interfaces-among is (add_interface ntohl i.addr i.broadaddr l) x
          (add_interface-among i.addr i.broadaddr l x h))
  ]

  -- `mapping_init_local` keeps both arrays within their 64 elements.
  init_local-Fits :
      (interfaces : Option (List Interface)) (l : Local)
      → Fits l
      → Fits (init_local ntohl interfaces l)
  unfolding init_local
  init_local-Fits none l h = record { addrs = omega arith; bcasts = h.bcasts }
  init_local-Fits (some is) l h =
      add_interfaces-Fits is (record l { addrs = [] })
        (record { addrs = omega arith; bcasts = h.bcasts })

  -- An address that was a broadcast address of this host stays noise when the addresses are read
  -- again after `mapping_free_local`, whatever interfaces there are then; and the arrays stay within
  -- their 64 elements.
  noise_stays :
      (interfaces : Option (List Interface)) (l : Local) (ip : ℕ)
      → Fits l
      → among (ntohl ip) l.bcasts ≡ true
      → (is_noise_ip ntohl ip (init_local ntohl interfaces (free_local l)) ≡ true)
        × Fits (init_local ntohl interfaces (free_local l))
  unfolding is_noise_ip free_local init_local
  noise_stays none l ip f h = (
    or_true _ _ h,
    init_local-Fits none (free_local l) (record { addrs = omega arith; bcasts = f.bcasts }),
  )
  noise_stays (some is) l ip f h = (
    or_true _ _ (add_interfaces-among is (record l { addrs = [] }) (ntohl ip) h),
    init_local-Fits (some is) (free_local l) (record { addrs = omega arith; bcasts = f.bcasts }),
  )
