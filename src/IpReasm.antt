-- ===== src/IpReasm.antt =====
-- apptraffic/src/ipreasm.c: the table of IP datagrams that are being reassembled from fragments
-- that arrive in order. `g_table` is a list of slots, passed in and returned.
-- A slot's buffer is the list of the bytes written to it; a NULL `buf` is the empty list.
pub mod Inv
pub mod Place
pub mod Delivery
pub mod Age
pub mod Shadow
mod Tests
use openwrt_demo.Buffer.{new_cap, clip_need}
use openwrt_demo.Prelude.{
  ℕ, zero, suc, ◌+◌, ◌-◌, ◌*◌, Bool, true, false, not, ◌&&◌, Option, none, some, List, [], ◌∷◌,
  ◌++◌, ltb, leb, ◌==◌, if◌then◌else◌, get_elem?, set, take, drop, replicate, map, same_bytes, ℤ,
  pos, negsuc,
}

-- IPFRAG_MAX_LEN, IPFRAG_MAX, IPFRAG_TIMEOUT
abbrev pub ipfrag_max_len : ℕ
ipfrag_max_len = 8192

abbrev pub ipfrag_max : ℕ
ipfrag_max = 128

abbrev pub ipfrag_timeout : ℕ
ipfrag_timeout = 30

-- `struct ipfrag`
pub record Frag : Type 0 where
  pub in_use : Bool
  pub is_v6 : Bool
  pub src : List ℕ
  pub dst : List ℕ
  pub id : ℕ
  pub proto : ℕ
  pub buf : List ℕ
  pub used_len : ℕ
  pub cap : ℕ
  pub have_last : Bool
  pub total : ℕ
  pub last_seen : ℕ

-- memset(f, 0, sizeof(*f))
abbrev pub cleared : Frag
cleared = record {
  in_use = false;
  is_v6 = false;
  src = replicate 16 0;
  dst = replicate 16 0;
  id = 0;
  proto = 0;
  buf = [];
  used_len = 0;
  cap = 0;
  have_last = false;
  total = 0;
  last_seen = 0;
}

-- The arguments that tell datagrams apart.
pub record Key : Type 0 where
  pub is_v6 : Bool
  pub src : List ℕ
  pub dst : List ℕ
  pub id : ℕ
  pub proto : ℕ

-- `realloc`'s answers, and what the two calls of `time(NULL)` return: in `find_or_create`, and at
-- the end of `ipfrag_feed`
pub record Env : Type 0 where
  pub realloc : ℕ → Bool
  pub now_found : ℕ
  pub now_fed : ℕ

abbrev pub addr_len : Bool → ℕ
addr_len v6 = if v6 then 16 else 4

pub same_bool : Bool → Bool → Bool
same_bool true b = b
same_bool false b = not b

pub key_equal : Frag → Key → Bool
unfolding same_bool
key_equal f k =
    same_bool f.is_v6 k.is_v6
    && f.id == k.id
    && f.proto == k.proto
    && same_bytes (take (addr_len k.is_v6) f.src) (take (addr_len k.is_v6) k.src)
    && same_bytes (take (addr_len k.is_v6) f.dst) (take (addr_len k.is_v6) k.dst)

-- memcpy(f->src, src, len) into a cleared array
pub address : Bool → List ℕ → List ℕ
address v6 a = take (addr_len v6) a ++ replicate (16 - addr_len v6) 0

-- A slot that is cleared and claimed for a datagram.
pub claim : Key → ℕ → Frag
claim k now = record cleared {
  in_use = true;
  is_v6 = k.is_v6;
  id = k.id;
  proto = k.proto;
  src = address k.is_v6 k.src;
  dst = address k.is_v6 k.dst;
  last_seen = now;
}

-- Where the loop of `find_or_create` stops.
pub data Slot : Type 0 where
  unused known evict : ℕ → Slot
  no_slot : Slot

-- if (!oldest || f->last_seen < oldest->last_seen) oldest = f;
pub older : Option (ℕ × ℕ) → ℕ → ℕ → Option (ℕ × ℕ)
older none i seen = some (i, seen)
older (some (j, t)) i seen = if ltb seen t then some (i, seen) else some (j, t)

pub oldest_slot : Option (ℕ × ℕ) → Slot
oldest_slot none = no_slot
oldest_slot (some (j, t)) = evict j

pub scan : Key → List Frag → ℕ → Option (ℕ × ℕ) → Slot
scan k [] i oldest = oldest_slot oldest
scan k (f ∷ fs) i oldest =
    if not f.in_use
    then unused i
    else if key_equal f k
    then known i
    else scan k fs (i + 1) (older oldest i f.last_seen)

pub take_slot : Key → ℕ → List Frag → Slot → Option ℕ × List Frag
take_slot k now table (unused i) = (some i, set table i (claim k now))
take_slot k now table (known i) = (some i, table)
take_slot k now table (evict i) = (some i, set table i (claim k now))
take_slot k now table no_slot = (none, table)

pub find_or_create : Key → ℕ → List Frag → Option ℕ × List Frag
unfolding scan take_slot
find_or_create k now table = take_slot k now table (scan k table 0 none)

-- `true` is the return value 0, `false` is -1
pub ensure_cap : Env → Frag → ℕ → Bool × Frag
ensure_cap e f need =
    let n = clip_need ipfrag_max_len need in
    if leb n f.cap
    then (true, f)
    else if e.realloc (new_cap ipfrag_max_len 512 f.cap n)
    then (true, record f { cap = new_cap ipfrag_max_len 512 f.cap n })
    else (false, f)

-- What the caller sees: the return value, and the bytes put into `outbuf` with `*outlen` where the
-- call writes them.
pub record Out : Type 0 where
  pub ret : Bool
  pub written : Option (List ℕ × ℕ)

abbrev pub waiting : Out
waiting = record { ret = false; written = none }

-- if (!mf) { f->have_last = 1; f->total = offset_bytes + payload_len; }
pub mark_last : Frag → ℕ → ℕ → Bool → Frag
mark_last f off len mf = if mf then f else record f { have_last = true; total = off + len }

-- memcpy(f->buf + f->used_len, payload + copy_off, end - f->used_len); f->used_len = end;
pub extend : Frag → List ℕ → ℕ → ℕ → Frag
extend f payload copy_off end = record f {
  buf = take f.used_len f.buf ++ take (end - f.used_len) (drop copy_off payload);
  used_len = end;
}

-- the copy into the caller's buffer; `cap` is `outbuf_cap`, none stands for a NULL `outbuf`
pub hand_out : Frag → Option ℕ → Out
hand_out f none = record { ret = false; written = some ([], 0) }
hand_out f (some cap) =
    if leb f.total cap
    then record { ret = ltb 0 f.total; written = some (take f.total f.buf, f.total) }
    else record { ret = false; written = some ([], 0) }

-- from `f->last_seen = time(NULL)` on
pub finish : Env → Frag → Option ℕ → Out × Frag
finish e f outbuf =
    if f.have_last && ltb 0 f.total && leb f.total f.used_len && leb f.total ipfrag_max_len
    then (hand_out f outbuf, cleared)
    else (waiting, record f { last_seen = e.now_fed })

-- from `if ((size_t)offset_bytes > f->used_len)` on
pub accept : Env → Frag → List ℕ → ℕ → ℕ → Option ℕ → Out × Frag
accept e f payload off len outbuf =
    if ltb f.used_len off
    then (waiting, f)
    else if ltb f.used_len (off + len)
    then (let (ok, f') = ensure_cap e f (off + len) in
        if ok
        then finish e (extend f' payload (f'.used_len - off) (off + len)) outbuf
        else (waiting, f'))
    else finish e f outbuf

-- payload_len after its two guards; 0 stands for an ignored fragment
pub clip_payload : ℤ → ℕ → ℕ
clip_payload (pos n) off = if ltb (ipfrag_max_len - off) n then ipfrag_max_len - off else n
clip_payload (negsuc n) off = 0

-- what `ipfrag_feed` does with the slot that it found
pub feed_slot : Env → Frag → List ℕ → ℤ → ℕ → Bool → Option ℕ → Out × Frag
feed_slot e f payload payload_len off mf outbuf =
    if leb ipfrag_max_len off
    then (waiting, f)
    else if clip_payload payload_len off == 0
    then (waiting, f)
    else accept e (mark_last f off (clip_payload payload_len off) mf) payload off
        (clip_payload payload_len off) outbuf

pub feed_at : Env → List Frag → ℕ → Option Frag → List ℕ → ℤ → ℕ → Bool → Option ℕ → Out × List Frag
feed_at e table i none payload payload_len off mf outbuf = (waiting, table)
feed_at e table i (some f) payload payload_len off mf outbuf =
    let (out, f') = feed_slot e f payload payload_len off mf outbuf in (out, set table i f')

pub feed_found : Env → List Frag → Option ℕ → List ℕ → ℤ → ℕ → Bool → Option ℕ → Out × List Frag
feed_found e table none payload payload_len off mf outbuf = (waiting, table)
feed_found e table (some i) payload payload_len off mf outbuf =
    feed_at e table i (get_elem? table i) payload payload_len off mf outbuf

-- `ipfrag_feed`; `off` is `offset_bytes`, which the callers compute as eight times a field
pub feed : Env → List Frag → Key → List ℕ → ℤ → ℕ → Bool → Option ℕ → Out × List Frag
unfolding feed_found feed_at
feed e table k payload payload_len off mf outbuf =
    let (slot, table') = find_or_create k e.now_found table in
    feed_found e table' slot payload payload_len off mf outbuf

-- if (f->in_use && now - f->last_seen > IPFRAG_TIMEOUT) { free(f->buf); memset(f, 0, sizeof(*f)); }
pub age_slot : ℕ → Frag → Frag
age_slot now f = if f.in_use && ltb ipfrag_timeout (now - f.last_seen) then cleared else f

pub age : ℕ → List Frag → List Frag
age now = map (age_slot now)
