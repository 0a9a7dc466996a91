-- ===== src/TcpReasm/Cover.antt =====
-- Which offsets of the stream a reassembler holds, and that it loses none while memory is granted.
use openwrt_demo.Prelude.{
  ℕ, suc, ◌+◌, ◌≤◌, ◌<◌, ◌≡◌, ◌⊎◌, sym, subst, true, false, ◌||◌, some, List, [], ◌∷◌, inl, inr,
  ltb, leb, ◌==◌, Bool-cases, arith, ◌&&◌, ltb→ge, leb→le, leb→gt, length, take, pos,
}
use openwrt_demo.TcpReasm.{
  Reasm, Seg, Env, reasm_max_len, has_seg, insert_seg, add_pending, extend, merge_from,
  merge_pending, based, seq_offset, clip_len, feed_prefix, feed_off, feed,
}
use openwrt_demo.TcpReasm.Capacity.{ensure_cap-granted}
use openwrt_demo.TcpReasm.Inv.{Above, IsValid, Prefix}
use openwrt_demo.TcpReasm.Merge.{taken, taken-Prefix}
use openwrt_demo.TcpReasm.Feed.{clip_len_fits, prefix_pending, prefix_step, based-IsValid}

abbrev pub Covers : ℕ → ℕ → ℕ → Type 0
Covers off len x = (off ≤ x) × (x < off + len)

abbrev pub InSegs : List Seg → ℕ → Type 0
InSegs [] x = ⊥
InSegs (s ∷ ss) x = Covers s.off s.len x ⊎ InSegs ss x

-- The byte at offset `x` is in the prefix or in a pending segment.
abbrev pub Held : Reasm → ℕ → Type 0
Held r x = (x < r.used_len) ⊎ InSegs r.pending x

-- Every request of the call is granted.
pub record IsGranted (e : Env) : Type 0 where
  pub realloc : (n : ℕ) → e.realloc n ≡ true
  pub calloc : e.calloc ≡ true
  pub malloc : (n : ℕ) → e.malloc n ≡ true

past : (ss : List Seg) (n x : ℕ) → Above n ss → InSegs ss x → n ≤ x
past [] n x a h = elim h [ ]
past (s ∷ ss) n x a (inl c) = omega arith
past (s ∷ ss) n x a (inr t) = omega (arith, past ss s.off x a.2 t)

-- A valid reassembler that holds every byte below `n` has them in its prefix: no byte waits
-- behind a gap that is closed.
pub Held-all : (r : Reasm) (n : ℕ) → IsValid r → ((x : ℕ) → x < n → Held r x) → n ≤ r.used_len
Held-all r n v h = elim (Bool-cases (leb n r.used_len)) [
  | inl le ↦ leb→le n r.used_len le
  | inr gt ↦ elim (h r.used_len (leb→gt n r.used_len gt)) [
    | inl lt ↦ absurd (omega arith)
    | inr t ↦ absurd (omega (arith, past r.pending (suc r.used_len) r.used_len v.gap t))
  ]
]

has_seg-InSegs :
    (ss : List Seg) (off len x : ℕ) → has_seg ss off len ≡ true → Covers off len x → InSegs ss x
unfolding has_seg
has_seg-InSegs [] off len x h c = ground arith
has_seg-InSegs (s ∷ ss) off len x h c = elim (Bool-cases (s.off == off && leb len s.len)) [
  | inl found ↦ inl (ground arith)
  | inr other ↦ inr (has_seg-InSegs ss off len x (ground arith) c)
]

insert_seg-InSegs :
    (s : Seg) (ss : List Seg) (x : ℕ)
    → Covers s.off s.len x ⊎ InSegs ss x
    → InSegs (insert_seg s ss) x
unfolding insert_seg
insert_seg-InSegs s [] x h = h
insert_seg-InSegs s (t ∷ ts) x h = elim (Bool-cases (ltb t.off s.off)) [
  | inr ge ↦ rw ge h
  | inl lt ↦ rw lt (elim h [
    | inl c ↦ inr (insert_seg-InSegs s ts x (inl c))
    | inr (inl c) ↦ inl c
    | inr (inr u) ↦ inr (insert_seg-InSegs s ts x (inr u))
  ])
]

add_pending-Held :
    (e : Env) (r : Reasm) (off : ℕ) (payload : List ℕ) (len x : ℕ)
    → IsGranted e
    → Covers off len x ⊎ InSegs r.pending x
    → InSegs (add_pending e r off payload len).pending x
unfolding add_pending
add_pending-Held e r off payload len x g h = elim (Bool-cases (has_seg r.pending off len)) [
  | inl dup ↦ rw dup (elim h [ inl c ↦ has_seg-InSegs r.pending off len x dup c | inr t ↦ t ])
  | inr new ↦
      rw (new, g.calloc, g.malloc len)
        (insert_seg-InSegs (record { off = off; bytes = take len payload; len = len }) r.pending x
          h)
]

-- The loop of `merge_pending` drops no byte.
merge_from-Held :
    (e : Env) (ss : List Seg) (r : Reasm) (n x : ℕ)
    → IsGranted e
    → Prefix r
    → Above n ss
    → (x < r.used_len) ⊎ InSegs ss x
    → Held (merge_from e r ss) x
unfolding merge_from
merge_from-Held e [] r n x g v a h = h
merge_from-Held e (s ∷ ss) r n x g v a h = elim (Bool-cases (ltb r.used_len s.off)) [
  | inl lt ↦ rw (lt, merge_from) h
  | inr ge ↦
      rw (ge, merge_from)
        (elim (Bool-cases (leb (s.off + s.len) r.used_len)) [
          | inl old ↦ rw old (
              merge_from-Held e ss r s.off x g v a.2 (elim h [
                | inl p ↦ inl p
                | inr (inl c) ↦ inl (omega (arith, leb→le _ _ old))
                | inr (inr t) ↦ inr t
              ]))
          | inr new ↦
              rw (new, ensure_cap-granted e r (s.off + s.len) g.realloc)
                (merge_from-Held e ss (taken e r s) s.off x g
                  (taken-Prefix e r s v a.1 (ltb→ge _ _ ge) (leb→gt _ _ new)
                    (ensure_cap-granted e r (s.off + s.len) g.realloc))
                  a.2
                  (elim h [
                    | inl p ↦ inl (unfold extend in omega (arith, leb→gt _ _ new))
                    | inr (inl c) ↦ inl (unfold extend in omega arith)
                    | inr (inr t) ↦ inr t
                  ]))
        ])
]

feed_prefix-Held :
    (e : Env) (r : Reasm) (off : ℕ) (payload : List ℕ) (len x : ℕ)
    → IsGranted e
    → IsValid r
    → off ≤ r.used_len
    → r.used_len < off + len
    → off + len ≤ reasm_max_len
    → len ≤ length payload
    → Covers off len x ⊎ Held r x
    → Held (feed_prefix e r off payload len).1 x
unfolding feed_prefix merge_pending
feed_prefix-Held e r off payload len x g v lo hi m le h =
    let ok = ensure_cap-granted e r (off + len) g.realloc in
    let q = prefix_step e r off payload len v lo hi m le ok in
    rw ok (
      merge_from-Held e _ _ (suc r.used_len) x g
        (record { held = q.held; fits = q.fits; small = q.small })
        (subst (Above (suc r.used_len)) (sym (prefix_pending e r off payload len v.small m)) v.gap)
        (elim h [
          | inl c ↦ inl (unfold extend in omega arith)
          | inr (inl p) ↦ inl (unfold extend in omega arith)
          | inr (inr t) ↦
              inr (subst (λ ss. InSegs ss x) (sym (prefix_pending e r off payload len v.small m)) t)
        ]))

add_pending-used_len :
    (e : Env) (r : Reasm) (off : ℕ) (payload : List ℕ) (len : ℕ)
    → (add_pending e r off payload len).used_len ≡ r.used_len
unfolding add_pending
add_pending-used_len e r off payload len = ground arith

clip_len-Covers :
    (off len x : ℕ) → Covers off len x → x < reasm_max_len → Covers off (clip_len off len) x
unfolding clip_len
clip_len-Covers off len x c lt = ground arith

feed_off-Held :
    (e : Env) (r : Reasm) (off : ℕ) (payload : List ℕ) (len x : ℕ)
    → IsGranted e
    → IsValid r
    → len ≤ length payload
    → x < reasm_max_len
    → Covers off len x ⊎ Held r x
    → Held (feed_off e r off payload len).1 x
unfolding feed_off
feed_off-Held e r off payload len x g v le small h = elim (Bool-cases (leb reasm_max_len off)) [
  | inl far ↦ rw far (elim h [ inl c ↦ absurd (omega (arith, leb→le _ _ far)) | inr old ↦ old ])
  | inr near ↦ rw near (
      let f = clip_len_fits off len (leb→gt _ _ near) in
      let h' : Covers off (clip_len off len) x ⊎ Held r x = elim h [
        | inl c ↦ inl (clip_len-Covers off len x c small)
        | inr old ↦ inr old
      ] in
      elim (Bool-cases (leb (off + clip_len off len) r.used_len)) [
        | inl old ↦
            rw old (elim h' [ inl c ↦ inl (omega (arith, leb→le _ _ old)) | inr held ↦ held ])
        | inr new ↦ rw new (elim (Bool-cases (ltb r.used_len off)) [
          | inl gap ↦ rw gap (elim h' [
            | inl c ↦ inr (add_pending-Held e r off payload (clip_len off len) x g (inl c))
            | inr (inl p) ↦
                inl (omega (arith, add_pending-used_len e r off payload (clip_len off len)))
            | inr (inr t) ↦ inr (add_pending-Held e r off payload (clip_len off len) x g (inr t))
          ])
          | inr near_end ↦ rw near_end (
              feed_prefix-Held e r off payload (clip_len off len) x g v (ltb→ge _ _ near_end)
                (leb→gt _ _ new) f.0 (omega (arith, f.1)) h')
        ])
      ])
]

pub based-Held : (r : Reasm) (seq x : ℕ) → Held r x → Held (based r seq) x
unfolding based
based-Held r seq x h = elim (Bool-cases r.have_base) [ inl has ↦ simp has h | inr new ↦ rw new h ]

-- Fed to a reassembler that still collects, a segment is lost in no byte below the limit, and
-- neither is any byte held before, if the allocator grants the requests of the call.
pub feed-Held :
    (e : Env) (r : Reasm) (seq : ℕ) (payload : List ℕ) (len x : ℕ)
    → IsGranted e
    → IsValid r
    → len ≤ length payload
    → x < reasm_max_len
    → r.done ≡ false
    → Covers (seq_offset (based r seq) seq) len x ⊎ Held r x
    → Held (feed e r seq (some payload) (pos len)).1 x
unfolding feed
feed-Held e r seq payload len x g v le small collects h = elim (Bool-cases (len == 0)) [
  | inl empty ↦
      let skip : (r.done || len == 0) ≡ true = ground arith in
      rw skip (elim h [ inl c ↦ absurd (ground arith) | inr old ↦ old ])
  | inr some_data ↦
      let go : (r.done || len == 0) ≡ false = ground arith in
      rw go (
        feed_off-Held e (based r seq) (seq_offset (based r seq) seq) payload len x g
          (based-IsValid r seq v) le small
          (elim h [ inl c ↦ inl c | inr old ↦ inr (based-Held r seq x old) ]))
]
