-- ===== src/IpReasm/Shadow.antt =====
-- `find_or_create` stops at the first free slot, also where the datagram has a later slot.
use openwrt_demo.Prelude.{
  ℕ, ◌<◌, ◌≡◌, ◌≢◌, ◌⊎◌, inl, inr, ltb, leb, ◌==◌, Bool-cases, subst, sym, get_elem?-set_self,
  get_elem?-bound, refl, ◌∙◌, Bool, true, false, Option, some, List, arith, set, get_elem?,
  get_elem?-set_ne, ℤ,
}
use openwrt_demo.IpReasm.{
  ipfrag_max_len, clip_payload, Frag, Key, Env, waiting, claim, key_equal, mark_last, accept,
  feed_slot, feed,
}
use openwrt_demo.IpReasm.Place.{
  Free, HasAddresses, find_or_create-Free, set-Free, get_elem?-Located, key_equal-claim,
}

mark_last-used_len :
    (f : Frag) (off len : ℕ) (mf : Bool)
    → f.used_len < off
    → (mark_last f off len mf).used_len < off
unfolding mark_last
mark_last-used_len f off len true h = h
mark_last-used_len f off len false h = h

accept_past :
    (e : Env) (f : Frag) (payload : List ℕ) (off len : ℕ) (outbuf : Option ℕ)
    → f.used_len < off
    → (accept e f payload off len outbuf).1 ≡ f
unfolding accept
accept_past e f payload off len outbuf h =
    let past : ltb f.used_len off ≡ true = ground (arith, h) in rw past refl

-- A fragment past the prefix of its slot leaves of it all but the total length.
feed_slot_past :
    (e : Env) (f : Frag) (payload : List ℕ) (n : ℤ) (off : ℕ) (mf : Bool) (outbuf : Option ℕ)
    → f.used_len < off
    → ((feed_slot e f payload n off mf outbuf).1 ≡ f)
      ⊎ ((feed_slot e f payload n off mf outbuf).1 ≡ mark_last f off (clip_payload n off) mf)
unfolding feed_slot
feed_slot_past e f payload n off mf outbuf h = elim (Bool-cases (leb ipfrag_max_len off)) [
  | inl far ↦ rw far (inl refl)
  | inr near ↦ elim (Bool-cases (clip_payload n off == 0)) [
    | inl nothing ↦ rw (near, nothing) (inl refl)
    | inr something ↦
        rw (near, something)
          (inr (
            accept_past e (mark_last f off (clip_payload n off) mf) payload off (clip_payload n off)
              outbuf (mark_last-used_len f off (clip_payload n off) mf h)))
  ]
]

-- A slot that holds the datagram of a key, with no byte of it.
abbrev pub IsEmptyEntry : Key → Frag → Type 0
IsEmptyEntry k g = (g.in_use ≡ true) × (key_equal g k ≡ true) × (g.used_len ≡ 0)

mark_last-IsEmptyEntry :
    (k : Key) (f : Frag) (off len : ℕ) (mf : Bool)
    → IsEmptyEntry k f
    → IsEmptyEntry k (mark_last f off len mf)
unfolding mark_last key_equal
mark_last-IsEmptyEntry k f off len true h = h
mark_last-IsEmptyEntry k f off len false h = h

feed_slot-IsEmptyEntry :
    (e : Env) (k : Key) (f : Frag) (payload : List ℕ) (n : ℤ) (off : ℕ) (mf : Bool)
    (outbuf : Option ℕ)
    → IsEmptyEntry k f
    → 0 < off
    → IsEmptyEntry k (feed_slot e f payload n off mf outbuf).1
feed_slot-IsEmptyEntry e k f payload n off mf outbuf h past =
    elim (feed_slot_past e f payload n off mf outbuf (omega (arith, h.2, past))) [
      | inl same ↦ subst (IsEmptyEntry k) (sym same) h
      | inr same ↦
          subst (IsEmptyEntry k) (sym same)
            (mark_last-IsEmptyEntry k f off (clip_payload n off) mf h)
    ]

-- A fragment past the prefix of its slot hands nothing out.
feed_slot_gap :
    (e : Env) (f : Frag) (payload : List ℕ) (n : ℤ) (off : ℕ) (mf : Bool) (outbuf : Option ℕ)
    → f.used_len < off
    → (feed_slot e f payload n off mf outbuf).0 ≡ waiting
unfolding feed_slot accept mark_last
feed_slot_gap e f payload n off true outbuf h = ground arith
feed_slot_gap e f payload n off false outbuf h = ground arith

-- Where a slot is free before the one that holds a datagram, a fragment that continues the
-- datagram starts a second entry of the same key in the free slot and is lost: nothing is handed out,
-- the second entry has no byte, and the slot of the datagram stays as it was.
pub feed-shadowed :
    (e : Env) (table : List Frag) (k : Key) (i j : ℕ) (f : Frag) (payload : List ℕ) (n : ℤ)
    (off : ℕ) (mf : Bool) (outbuf : Option ℕ)
    → HasAddresses k
    → Free k table i
    → i < j
    → get_elem? table j ≡ some f
    → f.in_use ≡ true
    → key_equal f k ≡ true
    → f.used_len ≡ off
    → 0 < off
    → ((feed e table k payload n off mf outbuf).0 ≡ waiting)
      × (get_elem? (feed e table k payload n off mf outbuf).1 j ≡ some f)
      × ((g : Frag) × (get_elem? (feed e table k payload n off mf outbuf).1 i ≡ some g)
          × IsEmptyEntry k g)
unfolding feed
feed-shadowed e table k i j f payload n off mf outbuf a free lt here u key joins past =
    let c = claim k e.now_found in
    let ne : i ≢ j = omega arith in
    let g = (feed_slot e c payload n off mf outbuf).1 in
    let fresh : IsEmptyEntry k c =
      (unfold claim in refl, key_equal-claim k e.now_found a, unfold claim in refl) in
    let at =
      get_elem?-Located k (set table i c) i c
        (set-Free k table i c free (unfold claim in refl) (key_equal-claim k e.now_found a)) in
    rw (find_or_create-Free k e.now_found table i free, at)
      (
        feed_slot_gap e c payload n off mf outbuf (unfold claim in past),
        get_elem?-set_ne (set table i c) i j _ ne ∙ get_elem?-set_ne table i j c ne ∙ here,
        (
          g,
          get_elem?-set_self (set table i c) i g (get_elem?-bound (set table i c) i at),
          feed_slot-IsEmptyEntry e k c payload n off mf outbuf fresh past,
        ),
      )
