-- ===== src/TcpReasm/Merge.antt =====
-- `merge_pending`: the invariant, and that the prefix never shrinks.
use openwrt_demo.Prelude.{
  ℕ, ◌+◌, ◌-◌, ◌≤◌, ◌<◌, ◌≡◌, true, List, [], ◌∷◌, inl, inr, ltb, leb, Bool-cases, arith, ltb→lt,
  ltb→ge, leb→gt,
}
use openwrt_demo.TcpReasm.{Reasm, Seg, Env, ensure_cap, extend, merge_from}
use openwrt_demo.TcpReasm.Capacity.{ensure_cap-Ensured}
use openwrt_demo.TcpReasm.Inv.{Above, SegIsValid, IsValid, Prefix, extend-Prefix, ensure_cap-Prefix}

-- The state in which a round that takes the segment in goes on.
abbrev pub taken : Env → Reasm → Seg → Reasm
taken e r s =
    let r' = (ensure_cap e r (s.off + s.len)).1 in
    extend r' s.bytes (r'.used_len - s.off) (s.off + s.len)

pub taken-Prefix :
    (e : Env) (r : Reasm) (s : Seg)
    → Prefix r
    → SegIsValid s
    → s.off ≤ r.used_len
    → r.used_len < s.off + s.len
    → (ensure_cap e r (s.off + s.len)).0 ≡ true
    → Prefix (taken e r s)
taken-Prefix e r s v sv lo hi ok =
    let en = ensure_cap-Ensured e r (s.off + s.len) v.small sv.fits in
    extend-Prefix (ensure_cap e r (s.off + s.len)).1 s.bytes _ (s.off + s.len)
      (ensure_cap-Prefix e r (s.off + s.len) v sv.fits) (omega (arith, en.used_len)) (en.enough ok)
      (omega (arith, en.used_len, sv.exact))

-- Whatever the state of the loop, it ends in a valid state.
pub merge_from-IsValid :
    (e : Env) (ss : List Seg) (r : Reasm) (n : ℕ)
    → Prefix r
    → Above n ss
    → IsValid (merge_from e r ss)
unfolding merge_from
merge_from-IsValid e [] r n v a = record { held = v.held; fits = v.fits; small = v.small; gap = tt }
merge_from-IsValid e (s ∷ ss) r n v a = elim (Bool-cases (ltb r.used_len s.off)) [
  | inl lt ↦
      rw (lt, merge_from)
        (record {
          held = v.held;
          fits = v.fits;
          small = v.small;
          gap = (ltb→lt r.used_len s.off lt, a.1, a.2);
        })
  | inr ge ↦
      rw (ge, merge_from)
        (elim (Bool-cases (leb (s.off + s.len) r.used_len)) [
          | inl old ↦ rw old (merge_from-IsValid e ss r s.off v a.2)
          | inr new ↦ rw new (elim (Bool-cases (ensure_cap e r (s.off + s.len)).0) [
            | inl ok ↦ rw ok (
                merge_from-IsValid e ss (taken e r s) s.off
                  (taken-Prefix e r s v a.1 (ltb→ge _ _ ge) (leb→gt _ _ new) ok) a.2)
            | inr no_mem ↦ rw no_mem (
                let p = ensure_cap-Prefix e r (s.off + s.len) v a.1.fits in
                record { held = p.held; fits = p.fits; small = p.small; gap = tt })
          ])
        ])
]
