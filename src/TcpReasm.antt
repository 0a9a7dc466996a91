-- ===== src/TcpReasm.antt =====
-- apptraffic/src/tcp_reasm.c and tcp_reasm.h: the reassembler of the first record of a TCP
-- connection. A function that updates `*r` returns the new state beside its result.
-- The buffer is the list of the bytes written to it: what lies past `used_len` is never read.
-- A NULL `buf` is the empty list, and `tcp_reasm *r` itself is not NULL.
pub mod Capacity
pub mod Inv
pub mod Merge
pub mod Feed
pub mod Cover
pub mod Stream
pub mod Session
pub mod Delivery
pub mod Reports
mod Tests
use openwrt_demo.Buffer.{new_cap, clip_need}
use openwrt_demo.Prelude.{
  ℕ, zero, suc, ◌+◌, ◌-◌, ◌*◌, ◌%◌, ◌^◌, Bool, true, false, ◌&&◌, ◌||◌, Option, none, some, List,
  [], ◌∷◌, ◌++◌, ltb, leb, ◌==◌, if◌then◌else◌, take, drop, ℤ, pos, negsuc,
}

-- REASM_MAX_LEN
abbrev pub reasm_max_len : ℕ
reasm_max_len = 8192

-- `struct tcp_seg`; the list of segments is the `next` chain
pub record Seg : Type 0 where
  pub off : ℕ
  pub bytes : List ℕ
  pub len : ℕ

-- `tcp_reasm`
pub record Reasm : Type 0 where
  pub base_seq : ℕ
  pub have_base : Bool
  pub buf : List ℕ
  pub used_len : ℕ
  pub cap : ℕ
  pub pending : List Seg
  pub done : Bool
  pub last_seen : ℕ

-- What the C library's allocator answers during one call, and what `time(NULL)` returns. One call
-- asks `realloc` for growing sizes and makes one `calloc` and one `malloc` at most.
pub record Env : Type 0 where
  pub realloc : ℕ → Bool
  pub calloc : Bool
  pub malloc : ℕ → Bool
  pub now : ℕ

abbrev pub init : Reasm
init = record {
  base_seq = 0;
  have_base = false;
  buf = [];
  used_len = 0;
  cap = 0;
  pending = [];
  done = false;
  last_seen = 0;
}

unfoldable pub free : Reasm → Reasm
free r = record r { buf = []; used_len = 0; cap = 0; pending = [] }

unfoldable pub mark_consumed : Reasm → Reasm
mark_consumed r = record r { done = true; buf = []; used_len = 0; cap = 0; pending = [] }

unfoldable pub set_isn : Reasm → ℕ → Reasm
set_isn r isn =
    if r.have_base then r else record r { base_seq = (isn + 1) % 2 ^ 32; have_base = true }

-- `true` is the return value 0, `false` is -1
pub ensure_cap : Env → Reasm → ℕ → Bool × Reasm
ensure_cap e r need =
    let n = clip_need reasm_max_len need in
    if leb n r.cap
    then (true, r)
    else if e.realloc (new_cap reasm_max_len 256 r.cap n)
    then (true, record r { cap = new_cap reasm_max_len 256 r.cap n })
    else (false, r)

-- the search for a pending segment that holds the data
pub has_seg : List Seg → ℕ → ℕ → Bool
has_seg [] off len = false
has_seg (s ∷ ss) off len = (s.off == off && leb len s.len) || has_seg ss off len

-- the sorted insertion
pub insert_seg : Seg → List Seg → List Seg
insert_seg n [] = n ∷ []
insert_seg n (s ∷ ss) = if ltb s.off n.off then s ∷ insert_seg n ss else n ∷ s ∷ ss

pub add_pending : Env → Reasm → ℕ → List ℕ → ℕ → Reasm
add_pending e r off payload len =
    if has_seg r.pending off len
    then r
    else if e.calloc && e.malloc len
    then record r {
      pending = insert_seg (record { off = off; bytes = take len payload; len = len }) r.pending;
    }
    else r

-- memcpy(r->buf + r->used_len, src + copy_off, new_used - r->used_len); r->used_len = new_used;
pub extend : Reasm → List ℕ → ℕ → ℕ → Reasm
extend r src copy_off new_used = record r {
  buf = take r.used_len r.buf ++ take (new_used - r.used_len) (drop copy_off src);
  used_len = new_used;
}

-- the loop of `merge_pending`: `*pp` is always the head of the list
pub merge_from : Env → Reasm → List Seg → Reasm
merge_from e r [] = record r { pending = [] }
merge_from e r (s ∷ ss) = elim (ltb r.used_len s.off) [
  | true ↦ record r { pending = s ∷ ss }
  | false ↦ elim (leb (s.off + s.len) r.used_len) [
    | true ↦ merge_from e r ss
    | false ↦
        let (ok, r') = ensure_cap e r (s.off + s.len) in
        elim ok [
          | true ↦ merge_from e (extend r' s.bytes (r'.used_len - s.off) (s.off + s.len)) ss
          | false ↦ record r' { pending = [] }
        ]
  ]
]

pub merge_pending : Env → Reasm → Reasm
merge_pending e r = merge_from e r r.pending

-- if (!r->have_base) { r->base_seq = seq; r->have_base = 1; }
pub based : Reasm → ℕ → Reasm
based r seq = if r.have_base then r else record r { base_seq = seq; have_base = true }

-- uint32_t off = seq - r->base_seq
pub seq_offset : Reasm → ℕ → ℕ
seq_offset r seq = (seq + 2 ^ 32 - r.base_seq) % 2 ^ 32

-- if ((size_t)len > REASM_MAX_LEN - off) len = REASM_MAX_LEN - off;
pub clip_len : ℕ → ℕ → ℕ
clip_len off len = if ltb (reasm_max_len - off) len then reasm_max_len - off else len

-- the part that grows the prefix: off <= used_len < off + len
pub feed_prefix : Env → Reasm → ℕ → List ℕ → ℕ → Bool × Reasm
feed_prefix e r off payload len =
    let (ok, r') = ensure_cap e r (off + len) in
    if ok
    then (
      true,
      merge_pending e
          (record (extend r' payload (r'.used_len - off) (off + len)) { last_seen = e.now }),
    )
    else (false, record r' { last_seen = e.now })

-- from `if (off >= REASM_MAX_LEN)` on
pub feed_off : Env → Reasm → ℕ → List ℕ → ℕ → Bool × Reasm
feed_off e r off payload len =
    if leb reasm_max_len off
    then (false, r)
    else if leb (off + clip_len off len) r.used_len
    then (false, r)
    else if ltb r.used_len off
    then (false, record (add_pending e r off payload (clip_len off len)) { last_seen = e.now })
    else feed_prefix e r off payload (clip_len off len)

-- `payload` is none for NULL. `true` is the return value 1.
pub feed : Env → Reasm → ℕ → Option (List ℕ) → ℤ → Bool × Reasm
feed e r seq none len = (false, r)
feed e r seq (some payload) (negsuc n) = (false, r)
feed e r seq (some payload) (pos len) =
    if r.done || len == 0
    then (false, r)
    else feed_off e (based r seq) (seq_offset (based r seq) seq) payload len

-- `tcp_reasm_data`: the buffer and its length
unfoldable pub prefix : Reasm → List ℕ × ℕ
prefix r = (r.buf, r.used_len)
