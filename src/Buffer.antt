-- ===== src/Buffer.antt =====
-- The growth of a byte buffer, which apptraffic/src/tcp_reasm.c and apptraffic/src/ipreasm.c write
-- alike in their `ensure_cap`: the size is doubled from a first size up to a limit.
use openwrt_demo.Prelude.{
  ℕ, zero, suc, ◌+◌, ◌*◌, ◌≤◌, ◌<◌, true, false, ◌&&◌, ltb, ◌==◌, if◌then◌else◌, arith,
}

-- `limit` is the greatest size
module _ (limit : ℕ) where
  -- while (new_cap < need && new_cap < limit) new_cap <<= 1;
  -- A round adds at least one, so `need` rounds are enough.
  pub grow : ℕ → ℕ → ℕ → ℕ
  grow zero need c = c
  grow (suc fuel) need c = elim (ltb c need && ltb c limit) [
    | true ↦ grow fuel need (c * 2)
    | false ↦ c
  ]

  -- The size that `realloc` is asked for, from the first size `first` on.
  unfoldable pub new_cap : ℕ → ℕ → ℕ → ℕ
  unfolding grow
  new_cap first cap need =
      let c = grow need need (if cap == 0 then first else cap) in if ltb limit c then limit else c

  -- if (need > limit) need = limit;
  abbrev pub clip_need : ℕ → ℕ
  clip_need need = if ltb limit need then limit else need

  -- With as much fuel as is missing the loop ends at `need` or later.
  grow-ge : (fuel need c : ℕ) → 0 < c → need ≤ c + fuel → need ≤ limit → need ≤ grow fuel need c
  unfolding grow
  grow-ge zero need c p h m = omega arith
  grow-ge (suc fuel) need c p h m = ground (arith, grow-ge fuel need (c * 2))

  pub new_cap_bounds :
      (first cap need : ℕ)
      → 0 < first
      → need ≤ limit
      → (need ≤ new_cap first cap need) × (new_cap first cap need ≤ limit)
  unfolding new_cap
  new_cap_bounds first cap need p m =
      ground (arith, grow-ge need need (if cap == 0 then first else cap))
