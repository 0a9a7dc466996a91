-- ===== src/Proto/Http/Find.antt =====
-- `mem_find` finds the first place of a needle.
use openwrt_demo.Prelude.{
  ℕ, zero, suc, ◌+◌, ◌<◌, ◌≡◌, refl, true, false, not, ◌||◌, Option, none, some, List, [], ◌∷◌, inl,
  inr, ltb, leb, ◌==◌, Bool-cases, arith, length, drop, length-drop,
}
use openwrt_demo.Proto.Http.{starts_with, find_from, mem_find}

-- What a search says whose bytes `hay` stand at `o` in the buffer: the first place of the needle, or
-- that there is none.
abbrev pub Finds : List ℕ → List ℕ → ℕ → Option ℕ → Type 0
Finds hay needle o none = (j : ℕ) → starts_with needle (drop j hay) ≡ false
Finds hay needle o (some i) =
    (k : ℕ) × (i ≡ o + k)
    × (starts_with needle (drop k hay) ≡ true)
    × ((j : ℕ) → j < k → starts_with needle (drop j hay) ≡ false)

pub starts_with-short :
    (needle hay : List ℕ) → length hay < length needle → starts_with needle hay ≡ false
unfolding starts_with
starts_with-short [] hay h = absurd (omega arith)
starts_with-short (n ∷ ns) [] h = refl
starts_with-short (n ∷ ns) (x ∷ xs) h =
    let rest = starts_with-short ns xs (omega arith) in ground (arith, rest)

later-short : (needle hay : List ℕ) → length hay < length needle → (o : ℕ) → Finds hay needle o none
later-short needle hay h o j =
    starts_with-short needle (drop j hay) (omega (arith, length-drop j hay, h))

further :
    (x : ℕ) (xs needle : List ℕ) (o : ℕ) (r : Option ℕ)
    → starts_with needle (x ∷ xs) ≡ false
    → Finds xs needle (o + 1) r
    → Finds (x ∷ xs) needle o r
further x xs needle o none other f = elim [ zero ↦ other | suc j ↦ f j ]
further x xs needle o (some i) other (k, e, here, before) =
    (suc k, omega arith, here, elim [ zero ↦ λ h. other | suc j ↦ λ h. before j (omega arith) ])

pub find_from-Finds :
    (hay needle : List ℕ) (o : ℕ) → 0 < length needle → Finds hay needle o (find_from hay needle o)
unfolding find_from
find_from-Finds [] needle o h = later-short needle [] h o
find_from-Finds (x ∷ xs) needle o h =
    elim (Bool-cases (not (leb (length needle) (length (x ∷ xs))))) [
      | inl short ↦ rw short (later-short needle (x ∷ xs) (ground arith) o)
      | inr long ↦ elim (Bool-cases (starts_with needle (x ∷ xs))) [
        | inl here ↦ rw (long, here) (0, omega arith, here, λ j lt. absurd (omega arith))
        | inr other ↦
            rw (long, other) (further x xs needle o _ other (find_from-Finds xs needle (o + 1) h))
      ]
    ]

-- For a needle that is not empty, `mem_find` returns the first place where the needle stands in the
-- buffer, and NULL exactly when it stands nowhere in it.
mem_find-Finds :
    (hay needle : List ℕ) → 0 < length needle → Finds hay needle 0 (mem_find hay needle)
unfolding mem_find
mem_find-Finds hay needle h =
    elim (Bool-cases (length needle == 0 || ltb (length hay) (length needle))) [
      | inl short ↦ rw short (later-short needle hay (ground arith) 0)
      | inr long ↦ rw long (find_from-Finds hay needle 0 h)
    ]
