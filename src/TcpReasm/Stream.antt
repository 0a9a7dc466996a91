-- ===== src/TcpReasm/Stream.antt =====
-- The reassembled prefix against the byte stream that the segments carry.
use openwrt_demo.Prelude.{
  ℕ, suc, ◌+◌, ◌-◌, ◌≤◌, ◌<◌, ◌≡◌, refl, ap, ap₂, sym, ◌∙◌, subst, ◌||◌, some, List, [], ◌∷◌, ◌++◌,
  inl, inr, ltb, leb, ◌==◌, Bool-cases, arith, ltb→ge, leb→gt, length, take, drop, pos, All, window,
  take-window, drop-window, window-append, take-drop-take, take-take, take_all,
}
use openwrt_demo.TcpReasm.{
  Reasm, Seg, Env, reasm_max_len, ensure_cap, insert_seg, add_pending, extend, merge_from,
  merge_pending, based, seq_offset, clip_len, feed_prefix, feed_off, feed,
}
use openwrt_demo.TcpReasm.Capacity.{Ensured, ensure_cap-Ensured}
use openwrt_demo.TcpReasm.Inv.{Above, SegIsValid, IsValid, Prefix}
use openwrt_demo.TcpReasm.Merge.{taken, taken-Prefix}
use openwrt_demo.TcpReasm.Feed.{clip_len_fits, prefix_pending, prefix_step, based-IsValid}

module _ (s : ℕ → ℕ) where
  -- The segment holds the bytes of the stream at its offset.
  abbrev pub Carries : Seg → Type 0
  Carries g = g.bytes ≡ window s g.off g.len

  -- All that the reassembler holds is bytes of the stream `s`, each at its offset.
  pub record Reads (r : Reasm) : Type 0 where
    pub buf : r.buf ≡ window s 0 r.used_len
    pub pending : All Carries r.pending

  pub extend-window :
      (r : Reasm) (src : List ℕ) (off len end : ℕ)
      → r.buf ≡ window s 0 r.used_len
      → take len src ≡ window s off len
      → off ≤ r.used_len
      → r.used_len ≤ end
      → off + len ≡ end
      → (extend r src (r.used_len - off) end).buf ≡ window s 0 end
  unfolding extend
  extend-window r src off len end b src_ok lo hi e =
      let u = r.used_len in
      let k = u - off in
      let n = end - u in
      let old : take u r.buf ≡ window s 0 u = ap (take u) b ∙ take-window s u u 0 (omega arith) in
      let cut : take n (drop k src) ≡ take n (drop k (take len src)) =
        sym (take-drop-take k n len src (omega arith)) in
      let shifted : take n (drop k (window s off len)) ≡ take n (window s (off + k) (len - k)) =
        ap (take n) (drop-window s k len off) in
      let at_u : off + k ≡ u = omega arith in
      let all : u + n ≡ end = omega arith in
      ap₂ ◌++◌ old (
        cut
        ∙ ap (λ t. take n (drop k t)) src_ok
        ∙ shifted
        ∙ take-window s n (len - k) (off + k) (omega arith)
        ∙ ap (λ t. window s t n) at_u)
      ∙ window-append s u n 0 u (omega arith)
      ∙ ap (window s 0) all

  kept :
      (e : Env) (r : Reasm) (need : ℕ)
      → Ensured e r need
      → r.buf ≡ window s 0 r.used_len
      → (ensure_cap e r need).1.buf ≡ window s 0 (ensure_cap e r need).1.used_len
  kept e r need en b = en.buf ∙ b ∙ ap (window s 0) (sym en.used_len)

  taken-window :
      (e : Env) (r : Reasm) (g : Seg)
      → Ensured e r (g.off + g.len)
      → r.buf ≡ window s 0 r.used_len
      → SegIsValid g
      → Carries g
      → g.off ≤ r.used_len
      → r.used_len < g.off + g.len
      → (taken e r g).buf ≡ window s 0 (taken e r g).used_len
  unfolding extend
  taken-window e r g en b v c lo hi =
      extend-window (ensure_cap e r (g.off + g.len)).1 g.bytes g.off g.len (g.off + g.len)
        (kept e r (g.off + g.len) en b) (take_all g.len g.bytes (omega (arith, v.exact)) ∙ c)
        (omega (arith, en.used_len)) (omega (arith, en.used_len)) refl

  -- The loop of `merge_pending` adds only bytes of the stream.
  pub merge_from-Reads :
      (e : Env) (ss : List Seg) (r : Reasm) (n : ℕ)
      → Prefix r
      → Above n ss
      → r.buf ≡ window s 0 r.used_len
      → All Carries ss
      → Reads (merge_from e r ss)
  unfolding merge_from
  merge_from-Reads e [] r n v a b c = record { buf = b; pending = tt }
  merge_from-Reads e (g ∷ ss) r n v a b c = elim (Bool-cases (ltb r.used_len g.off)) [
    | inl lt ↦ rw (lt, merge_from) (record { buf = b; pending = c })
    | inr ge ↦
        rw (ge, merge_from)
          (elim (Bool-cases (leb (g.off + g.len) r.used_len)) [
            | inl old ↦ rw old (merge_from-Reads e ss r g.off v a.2 b c.1)
            | inr new ↦ rw new (
                let en = ensure_cap-Ensured e r (g.off + g.len) v.small a.1.fits in
                elim (Bool-cases (ensure_cap e r (g.off + g.len)).0) [
                  | inl ok ↦ rw ok (
                      merge_from-Reads e ss (taken e r g) g.off
                        (taken-Prefix e r g v a.1 (ltb→ge _ _ ge) (leb→gt _ _ new) ok) a.2
                        (taken-window e r g en b a.1 c.0 (ltb→ge _ _ ge) (leb→gt _ _ new)) c.1)
                  | inr no_mem ↦
                      rw no_mem (record { buf = kept e r (g.off + g.len) en b; pending = tt })
                ])
          ])
  ]

  insert_seg-Carries :
      (g : Seg) (ss : List Seg) → Carries g → All Carries ss → All Carries (insert_seg g ss)
  unfolding insert_seg
  insert_seg-Carries g [] c h = (c, tt)
  insert_seg-Carries g (t ∷ ts) c h = elim (Bool-cases (ltb t.off g.off)) [
    | inl lt ↦ rw lt (h.0, insert_seg-Carries g ts c h.1)
    | inr ge ↦ rw ge (c, h)
  ]

  add_pending-Reads :
      (e : Env) (r : Reasm) (off : ℕ) (payload : List ℕ) (len : ℕ)
      → Reads r
      → take len payload ≡ window s off len
      → Reads (add_pending e r off payload len)
  unfolding add_pending
  add_pending-Reads e r off payload len h c = record {
    buf = ground (arith, h.buf);
    pending = ground (
      arith,
      h.pending,
      insert_seg-Carries (record { off = off; bytes = take len payload; len = len }) r.pending c
          h.pending,
    );
  }

  feed_prefix-Reads :
      (e : Env) (r : Reasm) (off : ℕ) (payload : List ℕ) (len : ℕ)
      → IsValid r
      → Reads r
      → off ≤ r.used_len
      → r.used_len < off + len
      → off + len ≤ reasm_max_len
      → len ≤ length payload
      → take len payload ≡ window s off len
      → Reads (feed_prefix e r off payload len).1
  unfolding feed_prefix merge_pending
  feed_prefix-Reads e r off payload len v h lo hi m le c =
      let en = ensure_cap-Ensured e r (off + len) v.small m in
      elim (Bool-cases (ensure_cap e r (off + len)).0) [
        | inl ok ↦ rw ok (
            let q = prefix_step e r off payload len v lo hi m le ok in
            merge_from-Reads e _ _ (suc r.used_len)
              (record { held = q.held; fits = q.fits; small = q.small })
              (subst (Above (suc r.used_len)) (sym (prefix_pending e r off payload len v.small m))
                v.gap)
              (unfold extend in
                extend-window (ensure_cap e r (off + len)).1 payload off len (off + len)
                  (kept e r (off + len) en h.buf) c (omega (arith, en.used_len))
                  (omega (arith, en.used_len)) refl)
              (subst (All Carries) (sym (prefix_pending e r off payload len v.small m)) h.pending))
        | inr no_mem ↦ rw no_mem (record {
          buf = kept e r (off + len) en h.buf;
          pending = subst (All Carries) (sym en.pending) h.pending;
        })
      ]

  feed_off-Reads :
      (e : Env) (r : Reasm) (off : ℕ) (payload : List ℕ) (len : ℕ)
      → IsValid r
      → Reads r
      → len ≤ length payload
      → take len payload ≡ window s off len
      → Reads (feed_off e r off payload len).1
  unfolding feed_off
  feed_off-Reads e r off payload len v h le c = elim (Bool-cases (leb reasm_max_len off)) [
    | inl far ↦ rw far h
    | inr near ↦ rw near (
        let f = clip_len_fits off len (leb→gt _ _ near) in
        let c' : take (clip_len off len) payload ≡ window s off (clip_len off len) =
          sym (take-take (clip_len off len) len payload f.1)
          ∙ ap (take (clip_len off len)) c
          ∙ take-window s (clip_len off len) len off f.1 in
        elim (Bool-cases (leb (off + clip_len off len) r.used_len)) [
          | inl old ↦ rw old h
          | inr new ↦ rw new (elim (Bool-cases (ltb r.used_len off)) [
            | inl gap ↦ rw gap (
                let w = add_pending-Reads e r off payload (clip_len off len) h c' in
                record { buf = w.buf; pending = w.pending })
            | inr near_end ↦ rw near_end (
                feed_prefix-Reads e r off payload (clip_len off len) v h (ltb→ge _ _ near_end)
                  (leb→gt _ _ new) f.0 (omega (arith, f.1)) c')
          ])
        ])
  ]

  pub based-Reads : (r : Reasm) (seq : ℕ) → Reads r → Reads (based r seq)
  unfolding based
  based-Reads r seq h = elim (Bool-cases r.have_base) [
    | inl has ↦ simp has h
    | inr new ↦ rw new (record { buf = h.buf; pending = h.pending })
  ]

  -- Whatever the allocator answers, a segment whose bytes are those of the stream at the offset
  -- that its sequence number stands for leaves the reassembler holding bytes of the stream only.
  pub feed-Reads :
      (e : Env) (r : Reasm) (seq : ℕ) (payload : List ℕ) (len : ℕ)
      → IsValid r
      → Reads r
      → len ≤ length payload
      → take len payload ≡ window s (seq_offset (based r seq) seq) len
      → Reads (feed e r seq (some payload) (pos len)).1
  unfolding feed
  feed-Reads e r seq payload len v h le c = elim (Bool-cases (r.done || len == 0)) [
    | inl skip ↦ rw skip h
    | inr go ↦ rw go (
        feed_off-Reads e (based r seq) (seq_offset (based r seq) seq) payload len
          (based-IsValid r seq v) (based-Reads r seq h) le c)
  ]
