-- ===== src/Dav/Guard/Link.antt =====
-- What the check of a path in dav-bridge/src/dav-bridge.c does not look at.
use openwrt_demo.Prelude.{
  ℕ, zero, suc, ◌+◌, ◌-◌, ◌≤◌, ◌<◌, ◌≡◌, refl, sym, ap, ◌∙◌, Bool, true, false, not, Option, none,
  some, List, [], ◌∷◌, ◌++◌, inl, inr, ltb, leb, ◌==◌, if◌then◌else◌, Bool-cases, arith, length,
  take, get_or, length-append, take-append-le, All, or_true, ◌||◌,
}
use openwrt_demo.Dav.Path.{back_to_slash, prefix_loop, existing_prefix, path_max}
use openwrt_demo.Dav.Guard.{Files, inside}

get_or-append : (xs ys : List ℕ) (i : ℕ) → i < length xs → get_or (xs ++ ys) i 0 ≡ get_or xs i 0
get_or-append [] ys i h = absurd (omega arith)
get_or-append (x ∷ xs) ys zero h = refl
get_or-append (x ∷ xs) ys (suc i) h = get_or-append xs ys i (omega arith)

-- Within a first part of the path.
back_to_slash-append :
    (dir name : List ℕ) (len : ℕ)
    → len ≤ length dir
    → back_to_slash (dir ++ name) len ≡ back_to_slash dir len
unfolding back_to_slash
back_to_slash-append dir name zero h = refl
back_to_slash-append dir name (suc n) h =
    let rest = back_to_slash-append dir name n (omega (arith, h)) in
    rw (get_or-append dir name n h, rest) refl

back_to_slash-le : (path : List ℕ) (len : ℕ) → back_to_slash path len ≤ len
unfolding back_to_slash
back_to_slash-le path zero = omega arith
back_to_slash-le path (suc n) = let rest = back_to_slash-le path n in ground (arith, rest)

module _ (access : List ℕ → Bool) where
  -- what a turn of the loop does that has found the slash at `at`
  turn_at : List ℕ → ℕ → ℕ → Option (List ℕ) → Option (List ℕ)
  turn_at path len at rest =
      if leb len 1 || leb at 1
      then none
      else if access (take at path)
      then some (take at path)
      else rest

  prefix_loop-turn :
      (fuel len : ℕ) (path : List ℕ)
      → prefix_loop access (suc fuel) path len
        ≡ turn_at path len
            (back_to_slash path len)
            (prefix_loop access fuel path (back_to_slash path len - 1))
  unfolding prefix_loop turn_at
  prefix_loop-turn fuel len path = refl

  turn_at-short :
      (path : List ℕ) (len at : ℕ) (rest : Option (List ℕ))
      → at ≤ 1
      → turn_at path len at rest ≡ none
  unfolding turn_at
  turn_at-short path len at rest h =
      let small : leb len 1 || leb at 1 ≡ true = or_true (leb len 1) (leb at 1) (ground arith) in
      rw small refl

  turn_bytes :
      (len at : ℕ) (path path' : List ℕ) (rest : Option (List ℕ))
      → take at path ≡ take at path'
      → turn_at path len at rest ≡ turn_at path' len at rest
  unfolding turn_at
  turn_bytes len at path path' rest e = rw e refl

  -- The lengths do not matter where there is more than one byte in front of the slash.
  turn_at-long :
      (path : List ℕ) (len at : ℕ) (rest : Option (List ℕ))
      → 1 < at
      → at ≤ len
      → turn_at path len at rest ≡ (if access (take at path) then some (take at path) else rest)
  unfolding turn_at
  turn_at-long path len at rest h k =
      let large : leb len 1 ≡ false = ground arith in
      let large' : leb at 1 ≡ false = ground arith in rw (large, large') refl

  prefix_loop-nil :
      (fuel len : ℕ) (path : List ℕ) → len ≤ 0 → prefix_loop access fuel path len ≡ none
  unfolding prefix_loop
  prefix_loop-nil zero len path h = refl
  prefix_loop-nil (suc fuel) len path h =
      let le = back_to_slash-le path len in
      prefix_loop-turn fuel len path
      ∙ turn_at-short path len (back_to_slash path len)
          (prefix_loop access fuel path (back_to_slash path len - 1)) (omega (arith, le, h))

  -- More fuel than the length changes nothing.
  prefix_loop-fuel :
      (a b len : ℕ) (path : List ℕ)
      → len ≤ a
      → len ≤ b
      → prefix_loop access a path len ≡ prefix_loop access b path len
  unfolding prefix_loop
  prefix_loop-fuel zero zero len path h k = refl
  prefix_loop-fuel zero (suc b) len path h k = sym (prefix_loop-nil (suc b) len path h)
  prefix_loop-fuel (suc a) zero len path h k = prefix_loop-nil (suc a) len path k
  prefix_loop-fuel (suc a) (suc b) len path h k =
      let le = back_to_slash-le path len in
      prefix_loop-turn a len path
      ∙ ap (turn_at path len (back_to_slash path len)) (
          prefix_loop-fuel a b (back_to_slash path len - 1) path (omega (arith, h, le))
            (omega (arith, k, le)))
      ∙ sym (prefix_loop-turn b len path)

  -- Within a first part of the path.
  prefix_loop-append :
      (fuel len : ℕ) (dir name : List ℕ)
      → len ≤ length dir
      → prefix_loop access fuel (dir ++ name) len ≡ prefix_loop access fuel dir len
  unfolding prefix_loop
  prefix_loop-append zero len dir name h = refl
  prefix_loop-append (suc fuel) len dir name h =
      let at = back_to_slash dir len in
      let le = back_to_slash-le dir len in
      let same = back_to_slash-append dir name len h in
      let rest = prefix_loop-append fuel (at - 1) dir name (omega (arith, le, h)) in
      let bytes = take-append-le at dir name (omega (arith, le, h)) in
      prefix_loop-turn fuel len (dir ++ name)
      ∙ ap (λ k. turn_at (dir ++ name) len k (prefix_loop access fuel (dir ++ name) (k - 1))) same
      ∙ turn_bytes len at (dir ++ name) dir (prefix_loop access fuel (dir ++ name) (at - 1)) bytes
      ∙ ap (turn_at dir len at) rest
      ∙ sym (prefix_loop-turn fuel len dir)

-- the directory's bytes, with the slash behind them
abbrev slashed : List ℕ → List ℕ
slashed d = d ++ (b'/' ∷ [])

get_or-slash : (d name : List ℕ) → get_or (slashed d ++ name) (length d) 0 ≡ b'/'
get_or-slash [] name = refl
get_or-slash (x ∷ xs) name = get_or-slash xs name

abbrev pub no_slash : ℕ → Bool
no_slash c = not (c == b'/')

get_or-no_slash :
    (d name : List ℕ) (i k : ℕ)
    → All (λ c. no_slash c ≡ true) name
    → k < length name
    → i ≡ length d + k
    → (get_or (d ++ name) i 0 == b'/') ≡ false
get_or-no_slash [] [] i k all h e = absurd (omega arith)
get_or-no_slash [] (c ∷ cs) zero zero all h e = let plain = all.0 in ground (arith, plain)
get_or-no_slash [] (c ∷ cs) zero (suc k) all h e = absurd (omega (arith, e))
get_or-no_slash [] (c ∷ cs) (suc i) zero all h e = absurd (omega (arith, e))
get_or-no_slash [] (c ∷ cs) (suc i) (suc k) all h e =
    get_or-no_slash [] cs i k all.1 (omega (arith, h)) (omega (arith, e))
get_or-no_slash (x ∷ xs) name zero k all h e = absurd (omega (arith, e))
get_or-no_slash (x ∷ xs) name (suc i) k all h e =
    get_or-no_slash xs name i k all h (omega (arith, e))

-- From anywhere in the name the inner loop goes back to the slash in front of it.
back_to_slash-name :
    (d name : List ℕ) (k len : ℕ)
    → All (λ c. no_slash c ≡ true) name
    → k ≤ length name
    → len ≡ length (slashed d) + k
    → back_to_slash (slashed d ++ name) len ≡ length (slashed d)
unfolding back_to_slash
back_to_slash-name d name k zero all h e = absurd (omega (arith, e, length-append d (b'/' ∷ [])))
back_to_slash-name d name zero (suc n) all h e =
    let last : n ≡ length d = omega (arith, e, length-append d (b'/' ∷ [])) in
    let slash : get_or (slashed d ++ name) n 0 ≡ b'/' =
      ap (λ i. get_or (slashed d ++ name) i 0) last ∙ get_or-slash d name in
    let is : (get_or (slashed d ++ name) n 0 == b'/') ≡ true = ground (arith, slash) in
    let total : suc n ≡ length (slashed d) = omega (arith, e) in
    elim (Bool-cases (ltb 1 (suc n))) [
      | inl long ↦ rw (long, is) total
      | inr short ↦ rw short total
    ]
back_to_slash-name d name (suc k) (suc n) all h e =
    let other = get_or-no_slash (slashed d) name n k all (omega (arith, h)) (omega (arith, e)) in
    let long : ltb 1 (suc n) ≡ true = ground (arith, e, length-append d (b'/' ∷ [])) in
    rw (long, other) (back_to_slash-name d name k n all (omega (arith, h)) (omega (arith, e)))

-- The loop over a path finds what it finds over the directory.
module _ (access : List ℕ → Bool) (d name : List ℕ) (all : All (λ c. no_slash c ≡ true) name) where
  prefix_loop-slashed :
      (a b len : ℕ)
      → len ≡ length (slashed d) + length name
      → length (slashed d) ≤ suc a
      → length (slashed d) ≤ suc b
      → prefix_loop access (suc a) (slashed d ++ name) len
        ≡ prefix_loop access (suc b) (slashed d) (length (slashed d))
  prefix_loop-slashed a b len e h k =
      let dir = slashed d in
      let path = dir ++ name in
      let m = length dir in
      let at = back_to_slash-name d name (length name) len all (omega arith) e in
      let at_dir =
        sym (back_to_slash-append dir name m (omega arith))
        ∙ back_to_slash-name d name 0 m all (omega arith) (omega arith) in
      let over_path =
        prefix_loop-turn access a len path
        ∙ ap (λ i. turn_at access path len i (prefix_loop access a path (i - 1))) at in
      let over_dir =
        prefix_loop-turn access b m dir
        ∙ ap (λ i. turn_at access dir m i (prefix_loop access b dir (i - 1))) at_dir in
      elim (Bool-cases (leb m 1)) [
        | inl short ↦
            let small : m ≤ 1 = ground arith in
            over_path
            ∙ turn_at-short access path len m (prefix_loop access a path (m - 1)) small
            ∙ sym (turn_at-short access dir m m (prefix_loop access b dir (m - 1)) small)
            ∙ sym over_dir
        | inr long ↦
            let large : 1 < m = ground arith in
            let rest : prefix_loop access a path (m - 1) ≡ prefix_loop access b dir (m - 1) =
              prefix_loop-fuel access a b (m - 1) path (omega (arith, h)) (omega (arith, k))
              ∙ prefix_loop-append access b (m - 1) dir name (omega arith) in
            over_path
            ∙ turn_bytes access len m path dir (prefix_loop access a path (m - 1))
                (take-append-le m dir name (omega arith))
            ∙ turn_at-long access dir len m (prefix_loop access a path (m - 1)) large
                (omega (arith, e))
            ∙ ap (λ r. if access (take m dir) then some (take m dir) else r) rest
            ∙ sym
                (turn_at-long access dir m m (prefix_loop access b dir (m - 1)) large (omega arith))
            ∙ sym over_dir
      ]

-- The check of a path looks at the directory in front of its last component only: for a component
-- without a slash, and a path that fits in PATH_MAX bytes, the prefix that is found is the one found
-- for the directory. Whether the component is a link that leads out of the root is not asked.
pub inside-slashed :
    (files : Files) (d name : List ℕ)
    → All (λ c. no_slash c ≡ true) name
    → length (slashed d ++ name) < path_max
    → inside files (slashed d ++ name) ≡ inside files (slashed d)
unfolding inside existing_prefix
inside-slashed files d name all fits =
    let dir = slashed d in
    let long = length-append dir name in
    let short : leb path_max (length (dir ++ name)) ≡ false = ground (arith, fits) in
    let short_dir : leb path_max (length dir) ≡ false = ground (arith, fits, long) in
    let total = length (dir ++ name) in
    let same : prefix_loop files.access total (dir ++ name) total
        ≡ prefix_loop files.access (length dir) dir (length dir) =
      prefix_loop-fuel files.access total (suc total) total (dir ++ name) (omega arith)
        (omega arith)
      ∙ prefix_loop-slashed files.access d name all total total total long (omega (arith, long))
          (omega (arith, long))
      ∙ prefix_loop-fuel files.access (suc total) (length dir) (length dir) dir
          (omega (arith, long)) (omega arith) in
    rw (short, short_dir, same) refl
