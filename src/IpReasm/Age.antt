-- ===== src/IpReasm/Age.antt =====
-- `ipfrag_age`: what a sweep clears, and what it leaves.
use openwrt_demo.Prelude.{
  ℕ, zero, suc, ◌-◌, ◌≤◌, ◌<◌, ◌≡◌, ◌⊎◌, refl, subst, inl, inr, true, false, ◌&&◌, some, List, [],
  ◌∷◌, ltb, Bool-cases, arith, get_elem?,
}
use mathlib.Core.Option.{some-injective}
use openwrt_demo.IpReasm.{Frag, cleared, ipfrag_timeout, age_slot, age}

-- A slot that a sweep at `now` leaves is free, or was fed within the last 30 seconds.
abbrev pub IsFresh : ℕ → Frag → Type 0
IsFresh now f = (f.in_use ≡ false) ⊎ (now - f.last_seen ≤ ipfrag_timeout)

abbrev pub Swept : ℕ → Frag → Frag → Type 0
Swept now f f' =
    (IsFresh now f × (f' ≡ f))
    ⊎ ((f.in_use ≡ true) × (ipfrag_timeout < now - f.last_seen) × (f' ≡ cleared))

age_slot-Swept : (now : ℕ) (f : Frag) → Swept now f (age_slot now f)
unfolding age_slot
age_slot-Swept now f = elim (Bool-cases (f.in_use && ltb ipfrag_timeout (now - f.last_seen))) [
  | inl stale ↦ rw stale (inr (ground arith, ground arith, refl))
  | inr other ↦ rw other (inl (kept now f other, refl))
]
  where
    kept :
        (now : ℕ) (f : Frag)
        → (f.in_use && ltb ipfrag_timeout (now - f.last_seen)) ≡ false
        → IsFresh now f
    kept now f h = elim (Bool-cases f.in_use) [
      | inl used ↦ inr (ground arith)
      | inr free ↦ inl free
    ]

-- A sweep at `now` clears exactly the slots in use that were last fed more than 30 seconds ago,
-- and leaves every other slot as it was.
age-Swept :
    (now : ℕ) (table : List Frag) (i : ℕ) {f : Frag}
    → get_elem? table i ≡ some f
    → (f' : Frag) × (get_elem? (age now table) i ≡ some f') × Swept now f f'
unfolding age
age-Swept now [] i e = cc
age-Swept now (g ∷ gs) zero {f} e = (
  age_slot now g,
  refl,
  subst (λ t. Swept now t (age_slot now g)) (some-injective _ _ e) (age_slot-Swept now g),
)
age-Swept now (g ∷ gs) (suc i) e = age-Swept now gs i e
