-- ===== src/Dav/Upload/First.antt =====
-- Where a pattern stands in the bytes that the upload of dav-bridge/src/dav-bridge.c has not read, and
-- in the part of them that its buffer holds.
use openwrt_demo.Prelude.{
  ℕ, ◌+◌, ◌-◌, ◌≤◌, ◌<◌, ◌≡◌, refl, sym, ap, ◌∙◌, true, false, ◌&&◌, List, [], ◌∷◌, ◌++◌, inl, inr,
  ltb, ◌==◌, Bool-cases, arith, length, drop, length-drop, drop-append-le,
}
use openwrt_demo.Proto.Http.{starts_with}
use openwrt_demo.Proto.Http.Find.{starts_with-short}

pub starts_with-append :
    (pat w rest : List ℕ) → length pat ≤ length w → starts_with pat (w ++ rest) ≡ starts_with pat w
unfolding starts_with
starts_with-append [] w rest h = refl
starts_with-append (p ∷ ps) [] rest h = absurd (omega arith)
starts_with-append (p ∷ ps) (x ∷ xs) rest h =
    ap (λ b. p == x && b) (starts_with-append ps xs rest (omega arith))

-- The first place of a pattern.
abbrev pub IsFirst : List ℕ → List ℕ → ℕ → Type 0
IsFirst pat bytes i =
    (starts_with pat (drop i bytes) ≡ true)
    × ((j : ℕ) → j < i → starts_with pat (drop j bytes) ≡ false)

pub starts_with→length : (pat hay : List ℕ) → starts_with pat hay ≡ true → length pat ≤ length hay
starts_with→length pat hay h = elim (Bool-cases (ltb (length hay) (length pat))) [
  | inl short ↦ let other = starts_with-short pat hay (ground arith) in cc
  | inr long ↦ ground arith
]

-- A place of the window at which the pattern fits.
pub starts_with-window :
    (pat w rest : List ℕ) (j : ℕ)
    → j + length pat ≤ length w
    → starts_with pat (drop j (w ++ rest)) ≡ starts_with pat (drop j w)
starts_with-window pat w rest j h =
    ap (starts_with pat) (drop-append-le j w rest (omega arith))
    ∙ starts_with-append pat (drop j w) rest (omega (arith, length-drop j w))

-- The first place in the window is the first place in what is left to read.
pub first-window :
    (pat w rest : List ℕ) (i k : ℕ)
    → 0 < length pat
    → IsFirst pat (w ++ rest) i
    → IsFirst pat w k
    → i ≡ k
first-window pat w rest i k pos (here, before) (there, before') =
    let long = starts_with→length pat (drop k w) there in
    let fits : k + length pat ≤ length w = omega (arith, length-drop k w, pos, long) in
    let stands : starts_with pat (drop k (w ++ rest)) ≡ true =
      starts_with-window pat w rest k fits ∙ there in
    elim (Bool-cases (ltb i k)) [
      | inl lt ↦
          let less : i < k = ground arith in
          let other = before' i less in
          let same = starts_with-window pat w rest i (omega arith) in
          let bad : true ≡ false = sym here ∙ same ∙ other in cc
      | inr ge ↦ elim (Bool-cases (ltb k i)) [
        | inl lt ↦
            let other = before k (ground arith) in let bad : true ≡ false = sym stands ∙ other in cc
        | inr le ↦ ground arith
      ]
    ]

-- Where the window has no pattern, the pattern cannot begin before its last bytes.
pub first-later :
    (pat w rest : List ℕ) (i : ℕ)
    → 0 < length pat
    → IsFirst pat (w ++ rest) i
    → ((j : ℕ) → starts_with pat (drop j w) ≡ false)
    → length w - (length pat - 1) ≤ i
first-later pat w rest i pos (here, before) nowhere =
    elim (Bool-cases (ltb i (length w - (length pat - 1)))) [
      | inr ge ↦ ground arith
      | inl lt ↦
          let less : i < length w - (length pat - 1) = ground arith in
          let same = starts_with-window pat w rest i (omega arith) in
          let bad : true ≡ false = sym here ∙ same ∙ nowhere i in cc
    ]
