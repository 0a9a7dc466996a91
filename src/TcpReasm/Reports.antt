-- ===== src/TcpReasm/Reports.antt =====
-- What the return value of `tcp_reasm_feed` says, and that a consumed reassembler stays empty.
use openwrt_demo.Prelude.{
  ℕ, suc, ◌+◌, ◌≤◌, ◌<◌, ◌≡◌, ◌⊎◌, refl, sym, ◌∙◌, Bool, true, false, ◌||◌, some, List, [], ◌∷◌,
  inl, inr, ltb, leb, ◌==◌, Bool-cases, arith, ltb→ge, leb→gt, length, pos, subst,
}
use openwrt_demo.TcpReasm.{
  Reasm, Seg, Env, reasm_max_len, mark_consumed, ensure_cap, add_pending, extend, merge_from,
  merge_pending, based, seq_offset, clip_len, feed_prefix, feed_off, feed, prefix,
}
use openwrt_demo.TcpReasm.Capacity.{ensure_cap-Ensured}
use openwrt_demo.TcpReasm.Inv.{Above, IsValid, Prefix}
use openwrt_demo.TcpReasm.Merge.{taken, taken-Prefix}
use openwrt_demo.TcpReasm.Feed.{clip_len_fits, prefix_step, prefix_pending, based-IsValid}
use openwrt_demo.TcpReasm.Session.{Packet, run}

used_len-taken : (e : Env) (r : Reasm) (s : Seg) → (taken e r s).used_len ≡ s.off + s.len
unfolding extend
used_len-taken e r s = refl

merge_from-grows :
    (e : Env) (ss : List Seg) (r : Reasm) (n : ℕ)
    → Prefix r
    → Above n ss
    → r.used_len ≤ (merge_from e r ss).used_len
unfolding merge_from
merge_from-grows e [] r n v a = omega arith
merge_from-grows e (s ∷ ss) r n v a = elim (Bool-cases (ltb r.used_len s.off)) [
  | inl lt ↦ rw (lt, merge_from) (omega arith)
  | inr ge ↦
      rw (ge, merge_from)
        (elim (Bool-cases (leb (s.off + s.len) r.used_len)) [
          | inl old ↦ rw old (merge_from-grows e ss r s.off v a.2)
          | inr new ↦ rw new (
              let en = ensure_cap-Ensured e r (s.off + s.len) v.small a.1.fits in
              elim (Bool-cases (ensure_cap e r (s.off + s.len)).0) [
                | inl ok ↦ rw ok (
                    let p = taken-Prefix e r s v a.1 (ltb→ge _ _ ge) (leb→gt _ _ new) ok in
                    let more = merge_from-grows e ss (taken e r s) s.off p a.2 in
                    omega (arith, more, used_len-taken e r s, leb→gt _ _ new))
                | inr no_mem ↦ rw no_mem (omega (arith, en.used_len))
              ])
        ])
]

-- How the state before a call and the result of the call are related.
abbrev pub Reported : Reasm → Bool × Reasm → Type 0
Reported r out =
    ((out.0 ≡ true) × (r.used_len < out.1.used_len)) ⊎ ((out.0 ≡ false) × (prefix out.1 ≡ prefix r))

feed_prefix-Reported :
    (e : Env) (r : Reasm) (off : ℕ) (payload : List ℕ) (len : ℕ)
    → IsValid r
    → off ≤ r.used_len
    → r.used_len < off + len
    → off + len ≤ reasm_max_len
    → len ≤ length payload
    → Reported r (feed_prefix e r off payload len)
unfolding feed_prefix merge_pending prefix extend merge_from
feed_prefix-Reported e r off payload len v lo hi m le =
    let en = ensure_cap-Ensured e r (off + len) v.small m in
    elim (Bool-cases (ensure_cap e r (off + len)).0) [
      | inl ok ↦ rw ok (
          let q = prefix_step e r off payload len v lo hi m le ok in
          inl (
            refl,
            grown (
                merge_from-grows e _ _ (suc r.used_len)
                  (record { held = q.held; fits = q.fits; small = q.small })
                  (subst (Above (suc r.used_len))
                    (sym (prefix_pending e r off payload len v.small m)) v.gap)),
          ))
      | inr no_mem ↦ rw no_mem (inr (refl, cc (en.buf, en.used_len)))
    ]
  where
    grown : {n : ℕ} → off + len ≤ n → r.used_len < n
    grown h = omega arith

add_pending-prefix :
    (e : Env) (r : Reasm) (off : ℕ) (payload : List ℕ) (len : ℕ)
    → prefix (add_pending e r off payload len) ≡ prefix r
unfolding add_pending prefix
add_pending-prefix e r off payload len = ground arith

feed_off-Reported :
    (e : Env) (r : Reasm) (off : ℕ) (payload : List ℕ) (len : ℕ)
    → IsValid r
    → len ≤ length payload
    → Reported r (feed_off e r off payload len)
unfolding feed_off
feed_off-Reported e r off payload len v le = elim (Bool-cases (leb reasm_max_len off)) [
  | inl far ↦ rw far (inr (refl, refl))
  | inr near ↦ rw near (
      let f = clip_len_fits off len (leb→gt _ _ near) in
      elim (Bool-cases (leb (off + clip_len off len) r.used_len)) [
        | inl old ↦ rw old (inr (refl, refl))
        | inr new ↦ rw new (elim (Bool-cases (ltb r.used_len off)) [
          | inl gap ↦
              rw gap
                (inr (refl, unfold prefix in add_pending-prefix e r off payload (clip_len off len)))
          | inr near_end ↦ rw near_end (
              feed_prefix-Reported e r off payload (clip_len off len) v (ltb→ge _ _ near_end)
                (leb→gt _ _ new) f.0 (omega (arith, f.1)))
        ])
      ])
]

based-prefix :
    (r : Reasm) (seq : ℕ)
    → (prefix (based r seq) ≡ prefix r) × ((based r seq).used_len ≡ r.used_len)
unfolding based prefix
based-prefix r seq = (ground arith, ground arith)

-- A call returns 1 exactly when the prefix has grown, and when it returns 0 the prefix is as it
-- was, whatever the allocator answers.
pub feed-Reported :
    (e : Env) (r : Reasm) (seq : ℕ) (payload : List ℕ) (len : ℕ)
    → IsValid r
    → len ≤ length payload
    → Reported r (feed e r seq (some payload) (pos len))
unfolding feed
feed-Reported e r seq payload len v le = elim (Bool-cases (r.done || len == 0)) [
  | inl skip ↦ rw skip (inr (refl, refl))
  | inr go ↦ rw go (
      let b = based-prefix r seq in
      elim (feed_off-Reported e (based r seq) (seq_offset (based r seq) seq) payload len
        (based-IsValid r seq v) le) [
          | inl (yes_it, more) ↦ inl (yes_it, omega (arith, more, b.1))
          | inr (no_it, same) ↦ inr (no_it, same ∙ b.0)
        ])
]

-- Once the record is consumed, no segment brings anything back: every later call leaves the
-- reassembler as it is, with no buffer and nothing pending.
run-mark_consumed : (ps : List Packet) (r : Reasm) → run (mark_consumed r) ps ≡ mark_consumed r
unfolding run mark_consumed feed
run-mark_consumed [] r = refl
run-mark_consumed (p ∷ ps) r = run-mark_consumed ps r
