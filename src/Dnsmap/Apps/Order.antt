-- ===== src/Dnsmap/Apps/Order.antt =====
-- The table of applications is sorted, so that the first match is one of the highest priority.
use openwrt_demo.Dnsmap.Apps.{Mapping}
use openwrt_demo.Prelude.{
  ℕ, ◌≡◌, Bool, true, not, Option, List, [], ◌∷◌, All, ℤ, leb_int, ◌||◌, ◌≤ℤ◌,
}

-- the entries have this priority at most
abbrev pub AtMost : ℤ → List Mapping → Type 0
AtMost p = All (λ m. m.priority ≤ℤ p)

abbrev pub Descending : List Mapping → Type 0
Descending [] = Unit
Descending (m ∷ ms) = AtMost m.priority ms × Descending ms

module _ (fnmatch : List ℕ → List ℕ → Bool) (atoi : List ℕ → ℤ) (inet_pton : List ℕ → Bool) where
  -- an entry that does not fit, or has the priority of `m` at most
  abbrev pub Below : List ℕ → Mapping → Mapping → Type 0
  Below domain m x = not (fnmatch x.pattern domain) || leb_int x.priority m.priority ≡ true
