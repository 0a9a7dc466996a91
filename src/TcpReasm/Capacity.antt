-- ===== src/TcpReasm/Capacity.antt =====
-- `ensure_cap`: the size it asks for, and what it leaves alone.
use openwrt_demo.Prelude.{ℕ, ◌≤◌, ◌≡◌, true, arith}
use openwrt_demo.Buffer.{new_cap, clip_need, new_cap_bounds}
use openwrt_demo.TcpReasm.{Reasm, Env, reasm_max_len, ensure_cap}

-- What `ensure_cap` does for a need within the limit.
pub record Ensured (e : Env) (r : Reasm) (need : ℕ) : Type 0 where
  pub enough : (ensure_cap e r need).0 ≡ true → need ≤ (ensure_cap e r need).1.cap
  pub grows : r.cap ≤ (ensure_cap e r need).1.cap
  pub small : (ensure_cap e r need).1.cap ≤ reasm_max_len
  pub buf : (ensure_cap e r need).1.buf ≡ r.buf
  pub used_len : (ensure_cap e r need).1.used_len ≡ r.used_len
  pub pending : (ensure_cap e r need).1.pending ≡ r.pending

pub ensure_cap-Ensured :
    (e : Env) (r : Reasm) (need : ℕ)
    → r.cap ≤ reasm_max_len
    → need ≤ reasm_max_len
    → Ensured e r need
unfolding ensure_cap
ensure_cap-Ensured e r need c m = record {
  enough = ground (arith, new_cap_bounds reasm_max_len 256 r.cap need);
  grows = ground (arith, new_cap_bounds reasm_max_len 256 r.cap need);
  small = ground (arith, new_cap_bounds reasm_max_len 256 r.cap need);
  buf = ground arith;
  used_len = ground arith;
  pending = ground arith;
}

-- It fails only when `realloc` does.
pub ensure_cap-granted :
    (e : Env) (r : Reasm) (need : ℕ)
    → ((n : ℕ) → e.realloc n ≡ true)
    → (ensure_cap e r need).0 ≡ true
unfolding ensure_cap
ensure_cap-granted e r need g =
    ground (arith, g (new_cap reasm_max_len 256 r.cap (clip_need reasm_max_len need)))
