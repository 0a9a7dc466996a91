-- ===== src/TcpReasm/Feed.antt =====
-- `tcp_reasm_feed` and the other operations keep the invariant; what a call reports.
use openwrt_demo.Prelude.{
  ℕ, suc, ◌+◌, ◌-◌, ◌≤◌, ◌<◌, ◌≡◌, ap, sym, ◌∙◌, true, ◌||◌, some, List, inl, inr, ltb, leb, ◌==◌,
  Bool-cases, arith, ltb→lt, ltb→ge, leb→gt, length, pos, subst,
}
use openwrt_demo.TcpReasm.{
  Reasm, Env, reasm_max_len, ensure_cap, add_pending, extend, merge_pending, based, seq_offset,
  clip_len, feed_prefix, feed_off, feed,
}
use openwrt_demo.TcpReasm.Capacity.{ensure_cap-Ensured}
use openwrt_demo.TcpReasm.Inv.{
  Above, IsValid, Prefix, extend-Prefix, ensure_cap-Prefix, add_pending-Above,
}
use openwrt_demo.TcpReasm.Merge.{merge_from-IsValid}

pub IsValid-Prefix : {r : Reasm} → IsValid r → Prefix r
IsValid-Prefix v = record { held = v.held; fits = v.fits; small = v.small }

pub clip_len_fits :
    (off len : ℕ)
    → off < reasm_max_len
    → (off + clip_len off len ≤ reasm_max_len) × (clip_len off len ≤ len)
unfolding clip_len
clip_len_fits off len h = ground arith

pub prefix_pending :
    (e : Env) (r : Reasm) (off : ℕ) (payload : List ℕ) (len : ℕ)
    → r.cap ≤ reasm_max_len
    → off + len ≤ reasm_max_len
    → (extend
        (ensure_cap e r (off + len)).1
        payload
        ((ensure_cap e r (off + len)).1.used_len - off)
        (off + len)).pending
      ≡ r.pending
unfolding extend
prefix_pending e r off payload len c m = (ensure_cap-Ensured e r (off + len) c m).pending

pub prefix_step :
    (e : Env) (r : Reasm) (off : ℕ) (payload : List ℕ) (len : ℕ)
    → IsValid r
    → off ≤ r.used_len
    → r.used_len < off + len
    → off + len ≤ reasm_max_len
    → len ≤ length payload
    → (ensure_cap e r (off + len)).0 ≡ true
    → Prefix (
        extend
          (ensure_cap e r (off + len)).1
          payload
          ((ensure_cap e r (off + len)).1.used_len - off)
          (off + len))
prefix_step e r off payload len v lo hi m le ok =
    let en = ensure_cap-Ensured e r (off + len) v.small m in
    extend-Prefix (ensure_cap e r (off + len)).1 payload _ (off + len)
      (ensure_cap-Prefix e r (off + len) (IsValid-Prefix v) m) (omega (arith, en.used_len))
      (en.enough ok) (omega (arith, en.used_len))

feed_prefix-IsValid :
    (e : Env) (r : Reasm) (off : ℕ) (payload : List ℕ) (len : ℕ)
    → IsValid r
    → off ≤ r.used_len
    → r.used_len < off + len
    → off + len ≤ reasm_max_len
    → len ≤ length payload
    → IsValid (feed_prefix e r off payload len).1
unfolding feed_prefix merge_pending
feed_prefix-IsValid e r off payload len v lo hi m le =
    let en = ensure_cap-Ensured e r (off + len) v.small m in
    let p = ensure_cap-Prefix e r (off + len) (IsValid-Prefix v) m in
    elim (Bool-cases (ensure_cap e r (off + len)).0) [
      | inl ok ↦ rw ok (
          let q = prefix_step e r off payload len v lo hi m le ok in
          merge_from-IsValid e _ _ (suc r.used_len)
            (record { held = q.held; fits = q.fits; small = q.small })
            (subst (Above (suc r.used_len)) (sym (prefix_pending e r off payload len v.small m))
              v.gap))
      | inr no_mem ↦ rw no_mem (record {
        held = p.held;
        fits = p.fits;
        small = p.small;
        gap = rw (en.used_len, en.pending) v.gap;
      })
    ]

add_pending_rest :
    (e : Env) (r : Reasm) (off : ℕ) (payload : List ℕ) (len : ℕ)
    → ((add_pending e r off payload len).buf ≡ r.buf)
      × ((add_pending e r off payload len).used_len ≡ r.used_len)
      × ((add_pending e r off payload len).cap ≡ r.cap)
unfolding add_pending
add_pending_rest e r off payload len = ground arith

add_pending-IsValid :
    (e : Env) (r : Reasm) (off : ℕ) (payload : List ℕ) (len : ℕ)
    → IsValid r
    → r.used_len < off
    → off + len ≤ reasm_max_len
    → len ≤ length payload
    → IsValid (add_pending e r off payload len)
add_pending-IsValid e r off payload len v lo m le =
    let rest = add_pending_rest e r off payload len in
    record {
      held = ap length rest.0 ∙ v.held ∙ sym rest.1;
      fits = omega (arith, rest.1, rest.2, v.fits);
      small = omega (arith, rest.2, v.small);
      gap = rw rest.1 (add_pending-Above e r off payload len (suc r.used_len) lo m le v.gap);
    }

feed_off-IsValid :
    (e : Env) (r : Reasm) (off : ℕ) (payload : List ℕ) (len : ℕ)
    → IsValid r
    → len ≤ length payload
    → IsValid (feed_off e r off payload len).1
unfolding feed_off
feed_off-IsValid e r off payload len v le = elim (Bool-cases (leb reasm_max_len off)) [
  | inl far ↦ rw far v
  | inr near ↦ rw near (
      let c = clip_len_fits off len (leb→gt _ _ near) in
      elim (Bool-cases (leb (off + clip_len off len) r.used_len)) [
        | inl old ↦ rw old v
        | inr new ↦ rw new (elim (Bool-cases (ltb r.used_len off)) [
          | inl gap ↦ rw gap (
              let w =
                add_pending-IsValid e r off payload (clip_len off len) v (ltb→lt _ _ gap) c.0
                  (omega (arith, c.1)) in
              record { held = w.held; fits = w.fits; small = w.small; gap = w.gap })
          | inr near_end ↦ rw near_end (
              feed_prefix-IsValid e r off payload (clip_len off len) v (ltb→ge _ _ near_end)
                (leb→gt _ _ new) c.0 (omega (arith, c.1)))
        ])
      ])
]

pub based-IsValid : (r : Reasm) (seq : ℕ) → IsValid r → IsValid (based r seq)
unfolding based
based-IsValid r seq v = elim (Bool-cases r.have_base) [
  | inl has ↦ simp has v
  | inr new ↦ rw new (record { held = v.held; fits = v.fits; small = v.small; gap = v.gap })
]

-- A call of `tcp_reasm_feed`, whatever the allocator answers, keeps the invariant, if the payload
-- holds the bytes that `len` announces.
pub feed-IsValid :
    (e : Env) (r : Reasm) (seq : ℕ) (payload : List ℕ) (len : ℕ)
    → IsValid r
    → len ≤ length payload
    → IsValid (feed e r seq (some payload) (pos len)).1
unfolding feed
feed-IsValid e r seq payload len v le = elim (Bool-cases (r.done || len == 0)) [
  | inl skip ↦ rw skip v
  | inr go ↦ rw go (
      feed_off-IsValid e (based r seq) (seq_offset (based r seq) seq) payload len
        (based-IsValid r seq v) le)
]
