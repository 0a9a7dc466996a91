-- ===== src/IpReasm/Inv.antt =====
-- The invariant of the table: its size, and the bounds of every slot.
use openwrt_demo.Buffer.{new_cap_bounds}
use openwrt_demo.Prelude.{
  ℕ, ◌+◌, ◌-◌, ◌≤◌, ◌<◌, ◌≡◌, refl, ap, sym, ◌∙◌, Bool, true, false, ◌&&◌, Option, none, some, List,
  inl, inr, ltb, leb, ◌==◌, Bool-cases, Option-cases, arith, ltb→lt, ltb→ge, leb→gt, length, take,
  drop, get_elem?, All, All-set, All-get_elem?, length-set, length-append, length-take, length-drop,
  ℤ, pos, negsuc, pos_part,
}
use openwrt_demo.IpReasm.{
  Frag, Key, Env, Slot, unused, known, evict, no_slot, cleared, claim, ipfrag_max_len, ensure_cap,
  scan, take_slot, find_or_create, mark_last, extend, finish, accept, clip_payload, feed_slot,
  feed_at, feed_found, feed,
}

pub record SlotIsValid (f : Frag) : Type 0 where
  pub held : length f.buf ≡ f.used_len
  pub fits : f.used_len ≤ f.cap
  pub small : f.cap ≤ ipfrag_max_len
  pub total : f.total ≤ ipfrag_max_len

pub claim-SlotIsValid : (k : Key) (now : ℕ) → SlotIsValid (claim k now)
unfolding claim
claim-SlotIsValid k now = record {
  held = refl;
  fits = omega arith;
  small = omega arith;
  total = omega arith;
}

pub cleared-SlotIsValid : SlotIsValid cleared
cleared-SlotIsValid = record {
  held = refl;
  fits = omega arith;
  small = omega arith;
  total = omega arith;
}

-- What `ensure_cap` does for a need within the limit.
pub record Ensured (e : Env) (f : Frag) (need : ℕ) : Type 0 where
  pub enough : (ensure_cap e f need).0 ≡ true → need ≤ (ensure_cap e f need).1.cap
  pub grows : f.cap ≤ (ensure_cap e f need).1.cap
  pub small : (ensure_cap e f need).1.cap ≤ ipfrag_max_len
  pub buf : (ensure_cap e f need).1.buf ≡ f.buf
  pub used_len : (ensure_cap e f need).1.used_len ≡ f.used_len
  pub total : (ensure_cap e f need).1.total ≡ f.total

pub ensure_cap-Ensured :
    (e : Env) (f : Frag) (need : ℕ)
    → f.cap ≤ ipfrag_max_len
    → need ≤ ipfrag_max_len
    → Ensured e f need
unfolding ensure_cap
ensure_cap-Ensured e f need c m = record {
  enough = ground (arith, new_cap_bounds ipfrag_max_len 512 f.cap need);
  grows = ground (arith, new_cap_bounds ipfrag_max_len 512 f.cap need);
  small = ground (arith, new_cap_bounds ipfrag_max_len 512 f.cap need);
  buf = ground arith;
  used_len = ground arith;
  total = ground arith;
}

ensure_cap-SlotIsValid :
    (e : Env) (f : Frag) (need : ℕ)
    → SlotIsValid f
    → need ≤ ipfrag_max_len
    → SlotIsValid (ensure_cap e f need).1
ensure_cap-SlotIsValid e f need v m =
    let en = ensure_cap-Ensured e f need v.small m in
    record {
      held = ap length en.buf ∙ v.held ∙ sym en.used_len;
      fits = omega (arith, en.used_len, en.grows, v.fits);
      small = en.small;
      total = omega (arith, en.total, v.total);
    }

extend-SlotIsValid :
    (f : Frag) (src : List ℕ) (from end : ℕ)
    → SlotIsValid f
    → f.used_len ≤ end
    → end ≤ f.cap
    → end - f.used_len ≤ length src - from
    → SlotIsValid (extend f src from end)
unfolding extend
extend-SlotIsValid f src from end v lo hi room = record {
  held = omega (
    arith,
    v.held,
    length-append (take f.used_len f.buf) (take (end - f.used_len) (drop from src)),
    length-take f.used_len f.buf,
    length-take (end - f.used_len) (drop from src),
    length-drop from src,
  );
  fits = hi;
  small = v.small;
  total = v.total;
}

finish-SlotIsValid :
    (e : Env) (f : Frag) (outbuf : Option ℕ) → SlotIsValid f → SlotIsValid (finish e f outbuf).1
unfolding finish
finish-SlotIsValid e f outbuf v =
    elim (Bool-cases
      (f.have_last && ltb 0 f.total && leb f.total f.used_len && leb f.total ipfrag_max_len)) [
        | inl complete ↦ rw complete cleared-SlotIsValid
        | inr more ↦
            rw more (record { held = v.held; fits = v.fits; small = v.small; total = v.total })
      ]

accept-SlotIsValid :
    (e : Env) (f : Frag) (payload : List ℕ) (off len : ℕ) (outbuf : Option ℕ)
    → SlotIsValid f
    → off + len ≤ ipfrag_max_len
    → len ≤ length payload
    → SlotIsValid (accept e f payload off len outbuf).1
unfolding accept
accept-SlotIsValid e f payload off len outbuf v m le = elim (Bool-cases (ltb f.used_len off)) [
  | inl gap ↦ rw gap v
  | inr joins ↦ rw joins (elim (Bool-cases (ltb f.used_len (off + len))) [
    | inr old ↦ rw old (finish-SlotIsValid e f outbuf v)
    | inl new ↦ rw new (
        let en = ensure_cap-Ensured e f (off + len) v.small m in
        let w = ensure_cap-SlotIsValid e f (off + len) v m in
        elim (Bool-cases (ensure_cap e f (off + len)).0) [
          | inl ok ↦ rw ok (
              finish-SlotIsValid e _ outbuf (
                extend-SlotIsValid (ensure_cap e f (off + len)).1 payload _ (off + len) w
                  (omega (arith, en.used_len, ltb→lt _ _ new)) (en.enough ok)
                  (omega (arith, en.used_len, ltb→ge _ _ joins))))
          | inr no_mem ↦ rw no_mem w
        ])
  ])
]

pub clip_payload_fits :
    (n : ℤ) (off : ℕ)
    → off < ipfrag_max_len
    → (off + clip_payload n off ≤ ipfrag_max_len) × (clip_payload n off ≤ pos_part n)
unfolding clip_payload
clip_payload_fits (pos n) off h = ground arith
clip_payload_fits (negsuc n) off h = ground arith

pub mark_last-SlotIsValid :
    (f : Frag) (off len : ℕ) (mf : Bool)
    → off + len ≤ ipfrag_max_len
    → SlotIsValid f
    → SlotIsValid (mark_last f off len mf)
unfolding mark_last
mark_last-SlotIsValid f off len true m v = v
mark_last-SlotIsValid f off len false m v = record {
  held = v.held;
  fits = v.fits;
  small = v.small;
  total = m;
}

pub feed_slot-SlotIsValid :
    (e : Env) (f : Frag) (payload : List ℕ) (n : ℤ) (off : ℕ) (mf : Bool) (outbuf : Option ℕ)
    → SlotIsValid f
    → pos_part n ≤ length payload
    → SlotIsValid (feed_slot e f payload n off mf outbuf).1
unfolding feed_slot
feed_slot-SlotIsValid e f payload n off mf outbuf v le =
    elim (Bool-cases (leb ipfrag_max_len off)) [
      | inl far ↦ rw far v
      | inr near ↦ rw near (
          let c = clip_payload_fits n off (leb→gt _ _ near) in
          elim (Bool-cases (clip_payload n off == 0)) [
            | inl empty ↦ rw empty v
            | inr some_data ↦ rw some_data (
                accept-SlotIsValid e _ payload off (clip_payload n off) outbuf
                  (mark_last-SlotIsValid f off (clip_payload n off) mf c.0 v) c.0
                  (omega (arith, c.1)))
          ])
    ]

take_slot-IsValid :
    (k : Key) (now : ℕ) (table : List Frag) (s : Slot)
    → All SlotIsValid table
    → All SlotIsValid (take_slot k now table s).1
      × (length (take_slot k now table s).1 ≡ length table)
unfolding take_slot
take_slot-IsValid k now table (unused i) v =
    (All-set SlotIsValid table i _ v (claim-SlotIsValid k now), length-set table i _)
take_slot-IsValid k now table (known i) v = (v, refl)
take_slot-IsValid k now table (evict i) v =
    (All-set SlotIsValid table i _ v (claim-SlotIsValid k now), length-set table i _)
take_slot-IsValid k now table no_slot v = (v, refl)

feed_found-IsValid :
    (e : Env) (table : List Frag) (slot : Option ℕ) (payload : List ℕ) (n : ℤ) (off : ℕ) (mf : Bool)
    (outbuf : Option ℕ)
    → All SlotIsValid table
    → pos_part n ≤ length payload
    → All SlotIsValid (feed_found e table slot payload n off mf outbuf).1
      × (length (feed_found e table slot payload n off mf outbuf).1 ≡ length table)
unfolding feed_found feed_at
feed_found-IsValid e table none payload n off mf outbuf v le = (v, refl)
feed_found-IsValid e table (some i) payload n off mf outbuf v le =
    elim (Option-cases (get_elem? table i)) [
      | inl missing ↦ rw (missing, feed_at) (v, refl)
      | inr (f, found) ↦
          rw (found, feed_at)
            (
              All-set SlotIsValid table i _ v (
                  feed_slot-SlotIsValid e f payload n off mf outbuf
                    (All-get_elem? SlotIsValid table i v found) le),
              length-set table i _,
            )
    ]

-- Whatever arrives and whatever the allocator answers, `ipfrag_feed` keeps the number of slots and
-- the bounds of each: the prefix fits its buffer, and buffer and announced total stay within 8192.
pub feed-SlotIsValid :
    (e : Env) (table : List Frag) (k : Key) (payload : List ℕ) (n : ℤ) (off : ℕ) (mf : Bool)
    (outbuf : Option ℕ)
    → All SlotIsValid table
    → pos_part n ≤ length payload
    → All SlotIsValid (feed e table k payload n off mf outbuf).1
      × (length (feed e table k payload n off mf outbuf).1 ≡ length table)
unfolding feed find_or_create
feed-SlotIsValid e table k payload n off mf outbuf v le =
    let found = take_slot-IsValid k e.now_found table (scan k table 0 none) v in
    let out =
      feed_found-IsValid e _ (take_slot k e.now_found table (scan k table 0 none)).0 payload n off
        mf outbuf found.0 le in
    (out.0, out.1 ∙ found.1)
