-- ===== src/IpReasm/Delivery.antt =====
-- A datagram whose fragments arrive in order is handed out whole, and its slot is freed.
use openwrt_demo.Prelude.{
  ℕ, ◌+◌, ◌-◌, ◌≤◌, ◌<◌, ◌≡◌, refl, ap, ap₂, ◌∙◌, Bool, true, false, Option, some, List, [], ◌∷◌,
  ◌++◌, ltb, leb, ◌==◌, arith, gt→leb, length, take, set, set-set, ℤ, pos, window, take-window,
  window-append,
}
use openwrt_demo.Buffer.{clip_need, new_cap}
use openwrt_demo.IpReasm.{
  Frag, Key, Env, Out, waiting, cleared, claim, ipfrag_max_len, key_equal, ensure_cap, mark_last,
  extend, hand_out, finish, accept, clip_payload, feed_slot, feed,
}
use openwrt_demo.IpReasm.Inv.{
  SlotIsValid, claim-SlotIsValid, feed_slot-SlotIsValid, ensure_cap-Ensured,
}
use openwrt_demo.IpReasm.Place.{
  Located, Free, HasAddresses, find_or_create-Located, find_or_create-Free, get_elem?-Located,
  set-Located, set-Free, key_equal-claim,
}

-- A slot that holds the first `off` bytes of the datagram `s`, whose last fragment is to come.
pub record Partial (s : ℕ → ℕ) (k : Key) (off : ℕ) (f : Frag) : Type 0 where
  pub valid : SlotIsValid f
  pub buf : f.buf ≡ window s 0 off
  pub used_len : f.used_len ≡ off
  pub have_last : f.have_last ≡ false
  pub in_use : f.in_use ≡ true
  pub key : key_equal f k ≡ true

-- The fragment at `off` carries `len` bytes of the datagram, within the limit, and memory is granted.
pub record Carries (s : ℕ → ℕ) (e : Env) (payload : List ℕ) (off len : ℕ) : Type 0 where
  pub some_data : 0 < len
  pub fits : off + len ≤ ipfrag_max_len
  pub holds : len ≤ length payload
  pub bytes : take len payload ≡ window s off len
  pub granted : (n : ℕ) → e.realloc n ≡ true

clip_payload_lem : (len off : ℕ) → off + len ≤ ipfrag_max_len → clip_payload (pos len) off ≡ len
unfolding clip_payload
clip_payload_lem len off h = ground arith

ensure_cap-granted :
    (e : Env) (f : Frag) (need : ℕ)
    → ((n : ℕ) → e.realloc n ≡ true)
    → (ensure_cap e f need).0 ≡ true
unfolding ensure_cap
ensure_cap-granted e f need g =
    ground (arith, g (new_cap ipfrag_max_len 512 f.cap (clip_need ipfrag_max_len need)))

-- What `ensure_cap` leaves alone besides.
ensure_cap_rest :
    (e : Env) (f : Frag) (need : ℕ) (k : Key)
    → ((ensure_cap e f need).1.have_last ≡ f.have_last)
      × ((ensure_cap e f need).1.in_use ≡ f.in_use)
      × (key_equal (ensure_cap e f need).1 k ≡ key_equal f k)
unfolding ensure_cap key_equal
ensure_cap_rest e f need k = (ground arith, ground arith, ground arith)

-- A fragment that joins the prefix goes to the end of the prefix.
accept_lem :
    (e : Env) (f : Frag) (payload : List ℕ) (off len : ℕ) (outbuf : Option ℕ)
    → f.used_len ≡ off
    → 0 < len
    → ((n : ℕ) → e.realloc n ≡ true)
    → accept e f payload off len outbuf
      ≡ finish e
          (extend
            (ensure_cap e f (off + len)).1
            payload
            ((ensure_cap e f (off + len)).1.used_len - off)
            (off + len))
          outbuf
unfolding accept
accept_lem e f payload off len outbuf u p g =
    let joins : ltb f.used_len off ≡ false = ground arith in
    let new : ltb f.used_len (off + len) ≡ true = ground arith in
    rw (joins, new, ensure_cap-granted e f (off + len) g)

feed_slot_lem :
    (s : ℕ → ℕ) (e : Env) (f : Frag) (payload : List ℕ) (off len : ℕ) (mf : Bool)
    (outbuf : Option ℕ)
    → Carries s e payload off len
    → feed_slot e f payload (pos len) off mf outbuf
      ≡ accept e (mark_last f off len mf) payload off len outbuf
unfolding feed_slot
feed_slot_lem s e f payload off len mf outbuf c =
    let near : leb ipfrag_max_len off ≡ false = gt→leb _ _ (omega (arith, c.some_data, c.fits)) in
    let some_data : (len == 0) ≡ false = ground (arith, c.some_data) in
    rw (near, clip_payload_lem len off c.fits, some_data)

-- the slot after a fragment is taken in
abbrev grown : Env → Frag → List ℕ → ℕ → ℕ → Frag
grown e f payload off len =
    extend (ensure_cap e f (off + len)).1 payload ((ensure_cap e f (off + len)).1.used_len - off)
      (off + len)

extend-window :
    (s : ℕ → ℕ) (f : Frag) (src : List ℕ) (off len : ℕ)
    → f.buf ≡ window s 0 off
    → f.used_len ≡ off
    → take len src ≡ window s off len
    → (extend f src (f.used_len - off) (off + len)).buf ≡ window s 0 (off + len)
unfolding extend
extend-window s f src off len b u c =
    let k0 : f.used_len - off ≡ 0 = omega arith in
    let n : off + len - f.used_len ≡ len = omega arith in
    rw (k0, n)
      (ap₂ ◌++◌ (ap₂ take u b ∙ take-window s off off 0 (omega arith)) c
        ∙ window-append s off len 0 off (omega arith))

grown-window :
    (s : ℕ → ℕ) (k : Key) (e : Env) (f : Frag) (payload : List ℕ) (off len : ℕ)
    → SlotIsValid f
    → f.buf ≡ window s 0 off
    → f.used_len ≡ off
    → Carries s e payload off len
    → (grown e f payload off len).buf ≡ window s 0 (off + len)
grown-window s k e f payload off len v b u c =
    let en = ensure_cap-Ensured e f (off + len) v.small c.fits in
    extend-window s (ensure_cap e f (off + len)).1 payload off len (en.buf ∙ b) (en.used_len ∙ u)
      c.bytes

-- The whole of `n` bytes handed out.
abbrev pub handed : List ℕ → ℕ → Out
handed bytes n = record { ret = true; written = some (bytes, n) }

finish_more :
    (e : Env) (g : Frag) (outbuf : Option ℕ)
    → g.have_last ≡ false
    → finish e g outbuf ≡ (waiting, record g { last_seen = e.now_fed })
unfolding finish
finish_more e g outbuf h = ground arith

finish_last :
    (e : Env) (g : Frag) (cap : ℕ)
    → g.have_last ≡ true
    → 0 < g.total
    → g.total ≤ g.used_len
    → g.total ≤ ipfrag_max_len
    → g.total ≤ cap
    → finish e g (some cap) ≡ (handed (take g.total g.buf) g.total, cleared)
unfolding finish hand_out
finish_last e g cap l p u m c = ground arith

-- A fragment that is not the last is taken in, and nothing is handed out.
feed_slot_more :
    (s : ℕ → ℕ) (k : Key) (e : Env) (f : Frag) (payload : List ℕ) (off len : ℕ) (outbuf : Option ℕ)
    → Partial s k off f
    → Carries s e payload off len
    → ((feed_slot e f payload (pos len) off true outbuf).0 ≡ waiting)
      × Partial s k (off + len) (feed_slot e f payload (pos len) off true outbuf).1
feed_slot_more s k e f payload off len outbuf p c =
    let v = feed_slot-SlotIsValid e f payload (pos len) off true outbuf p.valid c.holds in
    (
      ap (λ t. t.0) step,
      record {
        valid = v;
        buf =
            ap (λ t. t.1.buf) step
            ∙ grown-window s k e f payload off len p.valid p.buf p.used_len c;
        used_len = ap (λ t. t.1.used_len) step ∙ grown_len;
        have_last = ap (λ t. t.1.have_last) step ∙ rest.0 ∙ p.have_last;
        in_use = ap (λ t. t.1.in_use) step ∙ rest.1 ∙ p.in_use;
        key = ap (λ t. key_equal t.1 k) step ∙ same_key ∙ rest.2 ∙ p.key;
      },
    )
  where
    rest :
        ((grown e f payload off len).have_last ≡ f.have_last)
        × ((grown e f payload off len).in_use ≡ f.in_use)
        × (key_equal (ensure_cap e f (off + len)).1 k ≡ key_equal f k)
    rest = unfold extend in ensure_cap_rest e f (off + len) k

    grown_len : (grown e f payload off len).used_len ≡ off + len
    grown_len = unfold extend in refl

    same_key :
        key_equal (record (grown e f payload off len) { last_seen = e.now_fed }) k
        ≡ key_equal (ensure_cap e f (off + len)).1 k
    same_key = unfold extend key_equal in refl

    marked :
        accept e (mark_last f off len true) payload off len outbuf
        ≡ finish e (grown e f payload off len) outbuf
    marked =
        unfold mark_last in accept_lem e f payload off len outbuf p.used_len c.some_data c.granted

    step :
        feed_slot e f payload (pos len) off true outbuf
        ≡ (waiting, record (grown e f payload off len) { last_seen = e.now_fed })
    step =
        feed_slot_lem s e f payload off len true outbuf c
        ∙ marked
        ∙ finish_more e (grown e f payload off len) outbuf (rest.0 ∙ p.have_last)

-- The last fragment hands the whole datagram out, and clears the slot.
feed_slot_last :
    (s : ℕ → ℕ) (k : Key) (e : Env) (f : Frag) (payload : List ℕ) (off len room : ℕ)
    → Partial s k off f
    → Carries s e payload off len
    → off + len ≤ room
    → feed_slot e f payload (pos len) off false (some room)
      ≡ (handed (window s 0 (off + len)) (off + len), cleared)
feed_slot_last s k e f payload off len room p c fits =
    feed_slot_lem s e f payload off len false (some room) c
    ∙ accept_lem e ended payload off len (some room) (unfold mark_last in p.used_len) c.some_data
        c.granted
    ∙ finish_last e g room marked (omega (arith, total, c.some_data)) (omega (arith, total, len_g))
        (omega (arith, total, c.fits)) (omega (arith, total, fits))
    ∙ ap (λ t. (t, cleared)) out
  where
    ended : Frag
    ended = mark_last f off len false

    g : Frag
    g = grown e ended payload off len

    marked : g.have_last ≡ true
    marked = unfold mark_last extend in (ensure_cap_rest e ended (off + len) k).0

    total : g.total ≡ off + len
    total =
        unfold mark_last extend in
        (ensure_cap-Ensured e ended (off + len) (unfold mark_last in p.valid.small) c.fits).total

    len_g : g.used_len ≡ off + len
    len_g = unfold extend in refl

    whole : g.buf ≡ window s 0 (off + len)
    whole =
        grown-window s k e ended payload off len
          (unfold mark_last in
            record {
              held = p.valid.held;
              fits = p.valid.fits;
              small = p.valid.small;
              total = c.fits;
            })
          (unfold mark_last in p.buf) (unfold mark_last in p.used_len) c

    out : handed (take g.total g.buf) g.total ≡ handed (window s 0 (off + len)) (off + len)
    out =
        ap₂ handed (ap₂ take total whole ∙ take-window s (off + len) (off + len) 0 (omega arith))
          total

-- A fragment as the caller passes it, with the environment of its call.
pub record Piece : Type 0 where
  pub env : Env
  pub payload : List ℕ
  pub len : ℕ

-- The calls for the fragments `ps` and then `last`, each where the one before it ends, and what
-- they return, with the table after them.
unfoldable pub send : List Frag → Key → ℕ → ℕ → List Piece → Piece → List Out × List Frag
send table k room off [] last =
    let (out, t) = feed last.env table k last.payload (pos last.len) off false (some room) in
    (out ∷ [], t)
send table k room off (p ∷ ps) last =
    let (out, t) = feed p.env table k p.payload (pos p.len) off true (some room) in
    let (outs, t') = send t k room (off + p.len) ps last in (out ∷ outs, t')

-- The fragments carry the datagram `s` from `off` on, and end at `n`.
abbrev pub CarriesAll : (ℕ → ℕ) → ℕ → ℕ → List Piece → Piece → Type 0
CarriesAll s n off [] last = Carries s last.env last.payload off last.len × (off + last.len ≡ n)
CarriesAll s n off (p ∷ ps) last =
    Carries s p.env p.payload off p.len × CarriesAll s n (off + p.len) ps last

abbrev pub answers : List Piece → Out → List Out
answers [] out = out ∷ []
answers (p ∷ ps) out = waiting ∷ answers ps out

feed-Located :
    (e : Env) (table : List Frag) (k : Key) (j : ℕ) (f : Frag) (payload : List ℕ) (n : ℤ) (off : ℕ)
    (mf : Bool) (outbuf : Option ℕ)
    → Located k table j f
    → feed e table k payload n off mf outbuf ≡ (
      (feed_slot e f payload n off mf outbuf).0,
      set table j (feed_slot e f payload n off mf outbuf).1,
    )
unfolding feed
feed-Located e table k j f payload n off mf outbuf h =
    rw (find_or_create-Located k e.now_found table j f h, get_elem?-Located k table j f h)

feed-Free :
    (e : Env) (table : List Frag) (k : Key) (j : ℕ) (payload : List ℕ) (n : ℤ) (off : ℕ) (mf : Bool)
    (outbuf : Option ℕ)
    → Free k table j
    → HasAddresses k
    → feed e table k payload n off mf outbuf
      ≡ feed e (set table j (claim k e.now_found)) k payload n off mf outbuf
unfolding feed
feed-Free e table k j payload n off mf outbuf h a = rw (
  find_or_create-Free k e.now_found table j h,
  find_or_create-Located k e.now_found (set table j (claim k e.now_found)) j (claim k e.now_found) (
      set-Free k table j (claim k e.now_found) h (unfold claim in refl)
        (key_equal-claim k e.now_found a)),
)

send-Located :
    (s : ℕ → ℕ) (table : List Frag) (k : Key) (j room off n : ℕ) (f : Frag) (ps : List Piece)
    (last : Piece)
    → Located k table j f
    → Partial s k off f
    → CarriesAll s n off ps last
    → n ≤ room
    → send table k room off ps last ≡ (answers ps (handed (window s 0 n) n), set table j cleared)
unfolding send
send-Located s table k j room off n f [] last h p c fits =
    let done = feed_slot_last s k last.env f last.payload off last.len room p c.0 (omega arith) in
    rw (
      feed-Located last.env table k j f last.payload (pos last.len) off false (some room) h,
      done,
      c.1,
    )
send-Located s table k j room off n f (p ∷ ps) last h q c fits =
    let more = feed_slot_more s k p.env f p.payload off p.len (some room) q c.0 in
    let f' = (feed_slot p.env f p.payload (pos p.len) off true (some room)).1 in
    let later =
      send-Located s (set table j f') k j room (off + p.len) n f' ps last
        (set-Located k table j f f' h more.1.in_use more.1.key) more.1 c.1 fits in
    rw (
      feed-Located p.env table k j f p.payload (pos p.len) off true (some room) h,
      more.0,
      later,
      set-set table j f' cleared,
    )

-- The slot that a new datagram claims holds none of it yet.
claim-Partial : (s : ℕ → ℕ) (k : Key) (now : ℕ) → HasAddresses k → Partial s k 0 (claim k now)
unfolding claim
claim-Partial s k now a = record {
  valid = claim-SlotIsValid k now;
  buf = refl;
  used_len = refl;
  have_last = refl;
  in_use = refl;
  key = key_equal-claim k now a;
}

send_claims :
    (table : List Frag) (k : Key) (j room : ℕ) (ps : List Piece) (last : Piece)
    → Free k table j
    → HasAddresses k
    → (now : ℕ) × (send table k room 0 ps last ≡ send (set table j (claim k now)) k room 0 ps last)
unfolding send
send_claims table k j room [] last h a = (
  last.env.now_found,
  rw (feed-Free last.env table k j last.payload (pos last.len) 0 false (some room) h a),
)
send_claims table k j room (p ∷ ps) last h a =
    (p.env.now_found, rw (feed-Free p.env table k j p.payload (pos p.len) 0 true (some room) h a))

-- A datagram of `n` bytes (at most 8192, and at most the caller's buffer) for which there is a
-- free slot and no slot before it, sent in fragments that arrive in order with memory granted: all
-- calls but the last return 0, the last hands out exactly the bytes of the datagram and returns 1,
-- and the table is as before, but for the slot, which is cleared.
pub send_lem :
    (s : ℕ → ℕ) (table : List Frag) (k : Key) (j room n : ℕ) (ps : List Piece) (last : Piece)
    → Free k table j
    → HasAddresses k
    → CarriesAll s n 0 ps last
    → n ≤ room
    → send table k room 0 ps last ≡ (answers ps (handed (window s 0 n) n), set table j cleared)
send_lem s table k j room n ps last h a c fits =
    let (now, start) = send_claims table k j room ps last h a in
    start
    ∙ send-Located s (set table j (claim k now)) k j room 0 n (claim k now) ps last
        (set-Free k table j (claim k now) h (unfold claim in refl) (key_equal-claim k now a))
        (claim-Partial s k now a) c fits
    ∙ ap (λ t. (answers ps (handed (window s 0 n) n), t)) (set-set table j (claim k now) cleared)
