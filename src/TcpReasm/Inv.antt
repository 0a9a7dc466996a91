-- ===== src/TcpReasm/Inv.antt =====
-- The representation invariant of `tcp_reasm`, and that every operation keeps it.
use openwrt_demo.Prelude.{
  ℕ, suc, ◌+◌, ◌-◌, ◌≤◌, ◌≡◌, ap, ◌∙◌, sym, List, [], ◌∷◌, ltb, inl, inr, Bool-cases, arith, length,
  take, drop, length-append, length-take, length-drop, ltb→lt, ltb→ge,
}
use openwrt_demo.TcpReasm.{
  Reasm, Seg, Env, reasm_max_len, ensure_cap, insert_seg, add_pending, extend,
}
use openwrt_demo.TcpReasm.Capacity.{ensure_cap-Ensured}

pub record SegIsValid (s : Seg) : Type 0 where
  pub exact : length s.bytes ≡ s.len
  pub fits : s.off + s.len ≤ reasm_max_len

-- Ascending by offset, the first at `n` or later, and each segment valid.
abbrev pub Above : ℕ → List Seg → Type 0
Above n [] = Unit {0}
Above n (s ∷ ss) = (n ≤ s.off) × SegIsValid s × Above s.off ss

pub record IsValid (r : Reasm) : Type 0 where
  pub held : length r.buf ≡ r.used_len
  pub fits : r.used_len ≤ r.cap
  pub small : r.cap ≤ reasm_max_len
  -- no pending segment touches the prefix
  pub gap : Above (suc r.used_len) r.pending

pub Above-le : (m n : ℕ) (ss : List Seg) → m ≤ n → Above n ss → Above m ss
Above-le m n [] h a = tt
Above-le m n (s ∷ ss) h a = (omega arith, a.1, a.2)

pub insert_seg-Above :
    (n : ℕ) (s : Seg) (ss : List Seg)
    → n ≤ s.off
    → SegIsValid s
    → Above n ss
    → Above n (insert_seg s ss)
unfolding insert_seg
insert_seg-Above n s [] h v a = (h, v, tt)
insert_seg-Above n s (t ∷ ts) h v a = elim (Bool-cases (ltb t.off s.off)) [
  | inl lt ↦
      rw lt (a.0, a.1, insert_seg-Above t.off s ts (omega (arith, ltb→lt t.off s.off lt)) v a.2)
  | inr ge ↦ rw ge (h, v, (ltb→ge t.off s.off ge, a.1, a.2))
]

pub add_pending-Above :
    (e : Env) (r : Reasm) (off : ℕ) (p : List ℕ) (len n : ℕ)
    → n ≤ off
    → off + len ≤ reasm_max_len
    → len ≤ length p
    → Above n r.pending
    → Above n (add_pending e r off p len).pending
unfolding add_pending
add_pending-Above e r off p len n h fits le a = ground (
  arith,
  insert_seg-Above n (record { off = off; bytes = take len p; len = len }) r.pending h
      (record { exact = omega (arith, length-take len p); fits = fits }) a,
)

-- A state that differs from a valid one only in what the loop of `merge_pending` carries.
pub record Prefix (r : Reasm) : Type 0 where
  pub held : length r.buf ≡ r.used_len
  pub fits : r.used_len ≤ r.cap
  pub small : r.cap ≤ reasm_max_len

pub extend-Prefix :
    (r : Reasm) (src : List ℕ) (from end : ℕ)
    → Prefix r
    → r.used_len ≤ end
    → end ≤ r.cap
    → end - r.used_len ≤ length src - from
    → Prefix (extend r src from end)
unfolding extend
extend-Prefix r src from end v lo hi room = record {
  held = omega (
    arith,
    v.held,
    length-append (take r.used_len r.buf) (take (end - r.used_len) (drop from src)),
    length-take r.used_len r.buf,
    length-take (end - r.used_len) (drop from src),
    length-drop from src,
  );
  fits = hi;
  small = v.small;
}

pub ensure_cap-Prefix :
    (e : Env) (r : Reasm) (need : ℕ)
    → Prefix r
    → need ≤ reasm_max_len
    → Prefix (ensure_cap e r need).1
ensure_cap-Prefix e r need v m =
    let en = ensure_cap-Ensured e r need v.small m in
    record {
      held = ap length en.buf ∙ v.held ∙ sym en.used_len;
      fits = omega (arith, en.used_len, en.grows, v.fits);
      small = en.small;
    }
