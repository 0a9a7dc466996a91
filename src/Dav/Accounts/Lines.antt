-- ===== src/Dav/Accounts/Lines.antt =====
-- The lines of the password file that `user_exists` of dav-bridge/src/dav-bridge.c reads, where
-- another line is written behind them.
use openwrt_demo.Prelude.{
  ℕ, zero, suc, ◌≤◌, ◌<◌, ◌≡◌, refl, sym, ap, ap₂, ◌∙◌, Bool, true, false, ◌||◌, some, List, [],
  ◌∷◌, ◌++◌, inl, inr, ltb, ◌==◌, Bool-cases, arith, length, get_or, and_true, length-append,
}
use openwrt_demo.Proto.Http.{starts_with, c_string}
use openwrt_demo.Dav.Accounts.{
  fgets, before_newline, is_entry, exists_loop, user_exists, every, name_char,
}
use openwrt_demo.Dav.Path.{is_alnum}

-- the file is empty or its last byte ends a line
unfoldable pub ends_line : List ℕ → Bool
ends_line [] = true
ends_line (c ∷ []) = c == 10
ends_line (c ∷ d ∷ cs) = ends_line (d ∷ cs)

ends_line-tail : (c : ℕ) (cs : List ℕ) → ends_line (c ∷ cs) ≡ true → ends_line cs ≡ true
unfolding ends_line
ends_line-tail c [] h = refl
ends_line-tail c (d ∷ cs) h = h

-- What `fgets` leaves, and how the bytes behind the file change that.
fgets-append :
    (n c : ℕ) (cs more : List ℕ)
    → ends_line (c ∷ cs) ≡ true
    → ((fgets n ((c ∷ cs) ++ more)).0 ≡ (fgets n (c ∷ cs)).0)
      × ((fgets n ((c ∷ cs) ++ more)).1 ≡ (fgets n (c ∷ cs)).1 ++ more)
      × (ends_line (fgets n (c ∷ cs)).1 ≡ true)
unfolding fgets ends_line
fgets-append zero c cs more h = (refl, refl, h)
fgets-append (suc n) c [] more h = rw h (refl, refl, refl)
fgets-append (suc n) c (d ∷ cs) more h =
    let (line, rest, good) = fgets-append n d cs more h in
    elim (Bool-cases (c == 10)) [
      | inl end ↦ rw end (refl, refl, h)
      | inr other ↦ rw other (ap (λ l. c ∷ l) line, rest, good)
    ]

length-fgets : (n : ℕ) (xs : List ℕ) → length (fgets n xs).1 ≤ length xs
unfolding fgets
length-fgets zero xs = omega arith
length-fgets (suc n) [] = omega arith
length-fgets (suc n) (c ∷ cs) = elim (Bool-cases (c == 10)) [
  | inl end ↦ rw end (omega arith)
  | inr other ↦ rw other (omega (arith, length-fgets n cs))
]

length-fgets-suc : (n c : ℕ) (cs : List ℕ) → length (fgets (suc n) (c ∷ cs)).1 ≤ length cs
unfolding fgets
length-fgets-suc n c cs = elim (Bool-cases (c == 10)) [
  | inl end ↦ rw end (omega arith)
  | inr other ↦ rw other (omega (arith, length-fgets n cs))
]

-- A line takes a byte of the file at least.
length-line : (c : ℕ) (cs : List ℕ) → length (fgets 255 (c ∷ cs)).1 ≤ length cs
length-line c cs = length-fgets-suc 254 c cs

module _ (name : List ℕ) where
  exists_loop-step :
      (fuel c : ℕ) (cs : List ℕ)
      → exists_loop (suc fuel) name (c ∷ cs)
        ≡ is_entry name (fgets 255 (c ∷ cs)).0 || exists_loop fuel name (fgets 255 (c ∷ cs)).1
  unfolding exists_loop
  exists_loop-step fuel c cs = elim (Bool-cases (is_entry name (fgets 255 (c ∷ cs)).0)) [
    | inl found ↦ rw found refl
    | inr other ↦ rw other refl
  ]

  exists_loop-nil : (fuel : ℕ) → exists_loop fuel name [] ≡ false
  unfolding exists_loop
  exists_loop-nil zero = refl
  exists_loop-nil (suc fuel) = refl

  -- More fuel changes nothing.
  exists_loop-fuel :
      (a b : ℕ) (file : List ℕ)
      → length file ≤ a
      → length file ≤ b
      → exists_loop a name file ≡ exists_loop b name file
  exists_loop-fuel a b [] h k = exists_loop-nil a ∙ sym (exists_loop-nil b)
  exists_loop-fuel zero b (c ∷ cs) h k = absurd (omega arith)
  exists_loop-fuel (suc a) zero (c ∷ cs) h k = absurd (omega arith)
  exists_loop-fuel (suc a) (suc b) (c ∷ cs) h k =
      let rest = (fgets 255 (c ∷ cs)).1 in
      let shorter = length-line c cs in
      exists_loop-step a c cs
      ∙ ap (λ t. is_entry name (fgets 255 (c ∷ cs)).0 || t)
          (exists_loop-fuel a b rest (omega (arith, shorter)) (omega (arith, shorter)))
      ∙ sym (exists_loop-step b c cs)

  or_assoc : (a b c : Bool) → a || (b || c) ≡ (a || b) || c
  or_assoc true b c = refl
  or_assoc false b c = refl

  -- The search in a file with bytes behind it.
  exists_loop-append :
      (g a : ℕ) (file more : List ℕ)
      → ends_line file ≡ true
      → length (file ++ more) ≤ g
      → length file ≤ a
      → exists_loop g name (file ++ more)
        ≡ exists_loop a name file || exists_loop (length more) name more
  exists_loop-append g a [] more good h k =
      exists_loop-fuel g (length more) more h (omega arith)
      ∙ sym (ap (λ b. b || exists_loop (length more) name more) (exists_loop-nil a))
  exists_loop-append zero a (c ∷ cs) more good h k = absurd (omega arith)
  exists_loop-append (suc g) zero (c ∷ cs) more good h k = absurd (omega arith)
  exists_loop-append (suc g) (suc a) (c ∷ cs) more good h k =
      let (line, left, good') = fgets-append 255 c cs more good in
      let rest = (fgets 255 (c ∷ cs)).1 in
      let shorter = length-line c cs in
      let last = exists_loop (length more) name more in
      exists_loop-step g c (cs ++ more)
      ∙ ap₂ (λ l r. is_entry name l || exists_loop g name r) line left
      ∙ ap (λ t. is_entry name (fgets 255 (c ∷ cs)).0 || t)
          (exists_loop-append g a rest more good'
            (omega (arith, shorter, h, length-append cs more, length-append rest more))
            (omega (arith, shorter)))
      ∙ or_assoc (is_entry name (fgets 255 (c ∷ cs)).0) (exists_loop a name rest) last
      ∙ sym (ap (λ b. b || last) (exists_loop-step a c cs))

-- `user_exists` in a file that a line is written behind.
pub user_exists-append :
    (file more name : List ℕ)
    → ends_line file ≡ true
    → user_exists (some (file ++ more)) name
      ≡ user_exists (some file) name || user_exists (some more) name
unfolding user_exists
user_exists-append file more name good =
    exists_loop-append name (length (file ++ more)) (length file) file more good (omega arith)
      (omega arith)

-- A byte of a name is neither zero nor a line's end.
plain_char :
    (c : ℕ)
    → name_char c ≡ true
    → ((c == 0) ≡ false) × ((c == 10) ≡ false) × ((c == 13 || c == 10) ≡ false)
unfolding is_alnum
plain_char c h = (ground arith, ground arith, ground arith)

-- The line of a new entry begins with the name and a colon, if they fit in the buffer.
fgets-name :
    (n : ℕ) (name rest : List ℕ)
    → every name_char name ≡ true
    → length name < n
    → (tail : List ℕ) × ((fgets n (name ++ b':' ∷ rest)).0 ≡ name ++ b':' ∷ tail)
unfolding fgets every
fgets-name zero name rest h k = absurd (omega arith)
fgets-name (suc n) [] rest h k = ((fgets n rest).0, refl)
fgets-name (suc n) (c ∷ cs) rest h k =
    let (first, others) = and_true (name_char c) (every name_char cs) h in
    let (tail, line) = fgets-name n cs rest others (omega arith) in
    (tail, rw (plain_char c first).1 (ap (λ l. c ∷ l) line))

c_string-name :
    (name rest : List ℕ)
    → every name_char name ≡ true
    → c_string (name ++ rest) ≡ name ++ c_string rest
unfolding c_string every
c_string-name [] rest h = refl
c_string-name (c ∷ cs) rest h =
    let (first, others) = and_true (name_char c) (every name_char cs) h in
    rw (plain_char c first).0 (ap (λ l. c ∷ l) (c_string-name cs rest others))

before_newline-name :
    (name rest : List ℕ)
    → every name_char name ≡ true
    → before_newline (name ++ rest) ≡ name ++ before_newline rest
unfolding before_newline every
before_newline-name [] rest h = refl
before_newline-name (c ∷ cs) rest h =
    let (first, others) = and_true (name_char c) (every name_char cs) h in
    rw (plain_char c first).2 (ap (λ l. c ∷ l) (before_newline-name cs rest others))

starts_with_self : (name rest : List ℕ) → starts_with name (name ++ rest) ≡ true
unfolding starts_with
starts_with_self [] rest = refl
starts_with_self (c ∷ cs) rest = let later = starts_with_self cs rest in ground (arith, later)

get_or-behind : (name rest : List ℕ) (c d : ℕ) → get_or (name ++ c ∷ rest) (length name) d ≡ c
get_or-behind [] rest c d = refl
get_or-behind (x ∷ xs) rest c d = get_or-behind xs rest c d

is_entry-name :
    (name tail : List ℕ) → every name_char name ≡ true → is_entry name (name ++ b':' ∷ tail) ≡ true
unfolding is_entry c_string before_newline
is_entry-name name tail h =
    let s : c_string (name ++ b':' ∷ tail) ≡ name ++ b':' ∷ c_string tail =
      c_string-name name (b':' ∷ tail) h in
    let l : before_newline (name ++ b':' ∷ c_string tail)
        ≡ name ++ b':' ∷ before_newline (c_string tail) =
      before_newline-name name (b':' ∷ c_string tail) h in
    let longer : ltb (length name) (length (name ++ b':' ∷ before_newline (c_string tail))) ≡ true =
      ground (arith, length-append name (b':' ∷ before_newline (c_string tail))) in
    rw s (
      rw l (
        rw
          (
            longer,
            starts_with_self name (b':' ∷ c_string tail),
            get_or-behind name (c_string tail) b':' 0,
          )
          refl))

-- A line that begins with the name and a colon makes the user known.
pub user_exists-entry :
    (name rest : List ℕ)
    → every name_char name ≡ true
    → 0 < length name
    → length name ≤ 32
    → user_exists (some (name ++ b':' ∷ rest)) name ≡ true
unfolding user_exists
user_exists-entry [] rest h pos k = absurd (omega arith)
user_exists-entry (c ∷ cs) rest h pos k =
    let (tail, line) = fgets-name 255 (c ∷ cs) rest h (omega arith) in
    exists_loop-step (c ∷ cs) (length (cs ++ b':' ∷ rest)) c (cs ++ b':' ∷ rest)
    ∙ ap
        (λ b.
          b
          || exists_loop (length (cs ++ b':' ∷ rest)) (c ∷ cs)
              (fgets 255 (c ∷ cs ++ b':' ∷ rest)).1)
        (ap (is_entry (c ∷ cs)) line ∙ is_entry-name (c ∷ cs) tail h)
