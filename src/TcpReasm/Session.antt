-- ===== src/TcpReasm/Session.antt =====
-- The calls of one connection, in any order, as `apptraffic/src/capture.c` makes them: the SYN sets
-- the base, and each data segment is fed.
use openwrt_demo.Prelude.{
  ℕ, ◌+◌, ◌-◌, ◌%◌, ◌^◌, ◌≡◌, ap, true, false, ◌||◌, some, List, [], ◌∷◌, inl, inr, ltb, leb, ◌==◌,
  Bool-cases, arith, pos,
}
use openwrt_demo.TcpReasm.{
  Reasm, Seg, Env, ensure_cap, add_pending, extend, merge_from, merge_pending, based, seq_offset,
  clip_len, feed_prefix, feed_off, feed,
}

-- One call of `tcp_reasm_feed`.
pub record Packet : Type 0 where
  pub env : Env
  pub seq : ℕ
  pub payload : List ℕ
  pub len : ℕ

unfoldable pub run : Reasm → List Packet → Reasm
run r [] = r
run r (p ∷ ps) = run (feed p.env r p.seq (some p.payload) (pos p.len)).1 ps

-- The offset of the packet on a connection whose first data byte has the sequence number `base`.
abbrev pub offset : ℕ → Packet → ℕ
offset base p = (p.seq + 2 ^ 32 - base) % 2 ^ 32

-- What no call changes: the base and the flags of a reassembler that collects from `base` on.
pub record Collects (base : ℕ) (r : Reasm) : Type 0 where
  pub base_seq : r.base_seq ≡ base
  pub have_base : r.have_base ≡ true
  pub going : r.done ≡ false

ensure_cap-Collects :
    (base : ℕ) (e : Env) (r : Reasm) (need : ℕ)
    → Collects base r
    → Collects base (ensure_cap e r need).1
unfolding ensure_cap
ensure_cap-Collects base e r need c = record {
  base_seq = ground arith;
  have_base = ground arith;
  going = ground arith;
}

merge_from-Collects :
    (base : ℕ) (e : Env) (ss : List Seg) (r : Reasm)
    → Collects base r
    → Collects base (merge_from e r ss)
unfolding merge_from
merge_from-Collects base e [] r c = record {
  base_seq = c.base_seq;
  have_base = c.have_base;
  going = c.going;
}
merge_from-Collects base e (s ∷ ss) r c = elim (Bool-cases (ltb r.used_len s.off)) [
  | inl lt ↦
      rw (lt, merge_from)
        (record { base_seq = c.base_seq; have_base = c.have_base; going = c.going })
  | inr ge ↦
      rw (ge, merge_from)
        (elim (Bool-cases (leb (s.off + s.len) r.used_len)) [
          | inl old ↦ rw old (merge_from-Collects base e ss r c)
          | inr new ↦ rw new (
              let d = ensure_cap-Collects base e r (s.off + s.len) c in
              elim (Bool-cases (ensure_cap e r (s.off + s.len)).0) [
                | inl ok ↦ rw ok (
                    merge_from-Collects base e ss _ (
                      unfold extend in
                      record { base_seq = d.base_seq; have_base = d.have_base; going = d.going }))
                | inr no_mem ↦
                    rw no_mem
                      (record { base_seq = d.base_seq; have_base = d.have_base; going = d.going })
              ])
        ])
]

feed_prefix-Collects :
    (base : ℕ) (e : Env) (r : Reasm) (off : ℕ) (payload : List ℕ) (len : ℕ)
    → Collects base r
    → Collects base (feed_prefix e r off payload len).1
unfolding feed_prefix merge_pending
feed_prefix-Collects base e r off payload len c =
    let d = ensure_cap-Collects base e r (off + len) c in
    elim (Bool-cases (ensure_cap e r (off + len)).0) [
      | inl ok ↦ rw ok (
          merge_from-Collects base e _ _ (
            unfold extend in
            record { base_seq = d.base_seq; have_base = d.have_base; going = d.going }))
      | inr no_mem ↦
          rw no_mem (record { base_seq = d.base_seq; have_base = d.have_base; going = d.going })
    ]

add_pending-Collects :
    (base : ℕ) (e : Env) (r : Reasm) (off : ℕ) (payload : List ℕ) (len : ℕ)
    → Collects base r
    → Collects base (add_pending e r off payload len)
unfolding add_pending
add_pending-Collects base e r off payload len c = record {
  base_seq = ground arith;
  have_base = ground arith;
  going = ground arith;
}

feed_off-Collects :
    (base : ℕ) (e : Env) (r : Reasm) (off : ℕ) (payload : List ℕ) (len : ℕ)
    → Collects base r
    → Collects base (feed_off e r off payload len).1
unfolding feed_off
feed_off-Collects base e r off payload len c =
    let p = add_pending-Collects base e r off payload (clip_len off len) c in
    let f = feed_prefix-Collects base e r off payload (clip_len off len) c in
    record {
      base_seq = ground (arith, p.base_seq, f.base_seq);
      have_base = ground (arith, p.have_base, f.have_base);
      going = ground (arith, p.going, f.going);
    }

pub based_lem : (base : ℕ) (r : Reasm) (seq : ℕ) → Collects base r → based r seq ≡ r
unfolding based
based_lem base r seq c = simp c.have_base

pub seq_offset_lem :
    (base : ℕ) (r : Reasm) (p : Packet)
    → Collects base r
    → seq_offset (based r p.seq) p.seq ≡ offset base p
unfolding seq_offset
seq_offset_lem base r p c =
    rw (based_lem base r p.seq c) (ap (λ b. (p.seq + 2 ^ 32 - b) % 2 ^ 32) c.base_seq)

pub feed-Collects :
    (base : ℕ) (e : Env) (r : Reasm) (seq : ℕ) (payload : List ℕ) (len : ℕ)
    → Collects base r
    → Collects base (feed e r seq (some payload) (pos len)).1
unfolding feed
feed-Collects base e r seq payload len c = elim (Bool-cases (r.done || len == 0)) [
  | inl skip ↦ rw skip c
  | inr go ↦
      rw (go, based_lem base r seq c) (feed_off-Collects base e r (seq_offset r seq) payload len c)
]
