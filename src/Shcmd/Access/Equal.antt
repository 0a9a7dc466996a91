-- ===== src/Shcmd/Access/Equal.antt =====
-- The comparison of tokens of shcmd/src/shcmd.c.
use Prim.Native.Nat.{bit_xor, bit_or, bit_or-bitwise, bit_xor-bitwise, digits, differ}
use openwrt_demo.Prelude.{
  ℕ, zero, suc, ◌+◌, ◌/◌, ◌≤◌, ◌<◌, ◌≡◌, ◌%◌, refl, sym, ap, ap₂, subst, ◌∙◌, Bool, true, false,
  ◌&&◌, List, [], ◌∷◌, ◌==◌, arith, max, length, get_or, All, ==→eq, and_true, inl, inr, Bool-cases,
  same_bytes, same_bytes-eq, same_bytes_refl,
}
use openwrt_demo.Shcmd.Access.{diff_loop, ct_equal}

or_digits-zero : (n a b : ℕ) → a ≤ n → digits (λ b. b) max n a b ≡ 0 → (a ≡ 0) × (b ≡ 0)
or_digits-zero zero a b h e = (omega (arith, h), e)
or_digits-zero (suc n) zero b h e = (refl, e)
or_digits-zero (suc n) (suc a) b h e =
    let (low, high) = or_digits-zero n (suc a / 2) (b / 2) (omega (arith, h)) (omega (arith, e)) in
    (omega (arith, e, low), omega (arith, e, low, high))

or-zero : (a b : ℕ) → bit_or a b ≡ 0 → (a ≡ 0) × (b ≡ 0)
or-zero a b e = or_digits-zero a a b (omega arith) (sym (λ i. bit_or-bitwise a b i) ∙ e)

differ_self : (x : ℕ) → differ x x ≡ 0
differ_self zero = refl
differ_self (suc x) = differ_self x

xor_digits_self : (n a : ℕ) → a ≤ n → digits (λ b. b) differ n a a ≡ 0
xor_digits_self zero a h = omega (arith, h)
xor_digits_self (suc n) zero h = refl
xor_digits_self (suc n) (suc a) h =
    omega (arith, xor_digits_self n (suc a / 2) (omega (arith, h)), differ_self (suc a % 2))

xor_self : (a : ℕ) → bit_xor a a ≡ 0
xor_self a = (λ i. bit_xor-bitwise a a i) ∙ xor_digits_self a a (omega arith)

-- A property of every byte, checked by evaluation.
abbrev pub all_below : ℕ → (ℕ → Bool) → Bool
all_below zero f = true
all_below (suc n) f = f n && all_below n f

pub all_below_sound : (n : ℕ) (f : ℕ → Bool) → all_below n f ≡ true → (x : ℕ) → x < n → f x ≡ true
all_below_sound zero f h x lt = absurd (omega arith)
all_below_sound (suc n) f h x lt =
    let (here, below) = and_true (f n) (all_below n f) h in
    let rest = all_below_sound n f below in
    elim (Bool-cases (x == n)) [
      | inl e ↦ subst (λ k. f k ≡ true) (sym (==→eq x n e)) here
      | inr other ↦ rest x (ground arith)
    ]

-- a, if it is so, and else that it is not
abbrev agrees : Bool → Bool → Bool
agrees true b = b
agrees false b = true

xor_bytes : (x y : ℕ) → x < 256 → y < 256 → bit_xor x y % 256 ≡ 0 → x ≡ y
xor_bytes x y h k e =
    let row =
      all_below_sound 256 (λ x. all_below 256 (λ y. agrees (bit_xor x y % 256 == 0) (x == y))) refl
        x h in
    let cell = all_below_sound 256 (λ y. agrees (bit_xor x y % 256 == 0) (x == y)) row y k in
    ==→eq x y (subst (λ n. agrees (n == 0) (x == y) ≡ true) e cell)

-- a byte of a C string
abbrev pub IsChar : ℕ → Type 0
IsChar c = (0 < c) × (c < 256)

get_or-lt : (a : List ℕ) (i : ℕ) → All IsChar a → get_or a i 0 < 256
get_or-lt [] i h = omega arith
get_or-lt (x ∷ xs) zero h = h.0.1
get_or-lt (x ∷ xs) (suc i) h = get_or-lt xs i h.1

diff_loop-zero :
    (n i : ℕ) (a b : List ℕ) (diff : ℕ)
    → All IsChar a
    → All IsChar b
    → diff_loop n i a b diff ≡ 0
    → (diff ≡ 0) × ((j : ℕ) → i ≤ j → j < i + n → get_or a j 0 ≡ get_or b j 0)
unfolding diff_loop
diff_loop-zero zero i a b diff ha hb e = (e, λ j h k. absurd (omega (arith, h, k)))
diff_loop-zero (suc n) i a b diff ha hb e =
    let (none_yet, later) = diff_loop-zero n (i + 1) a b _ ha hb e in
    let (before, here) = or-zero diff (bit_xor (get_or a i 0) (get_or b i 0) % 256) none_yet in
    let same = xor_bytes (get_or a i 0) (get_or b i 0) (get_or-lt a i ha) (get_or-lt b i hb) here in
    (
      before,
      λ j h k. elim (Bool-cases (i == j)) [
        | inl is ↦ subst (λ m. get_or a m 0 ≡ get_or b m 0) (==→eq i j is) same
        | inr other ↦ later j (ground arith) (omega (arith, k))
      ],
    )

-- Two strings that have the same byte at every index, zero behind the end, are the same.
same_at :
    (a b : List ℕ) (n : ℕ)
    → All IsChar a
    → All IsChar b
    → length a ≤ n
    → length b ≤ n
    → ((j : ℕ) → j < n → get_or a j 0 ≡ get_or b j 0)
    → a ≡ b
same_at [] [] n ha hb h k e = refl
same_at [] (y ∷ ys) n ha hb h k e = absurd (omega (arith, e 0 (omega (arith, k)), hb.0.0))
same_at (x ∷ xs) [] n ha hb h k e = absurd (omega (arith, e 0 (omega (arith, h)), ha.0.0))
same_at (x ∷ xs) (y ∷ ys) zero ha hb h k e = absurd (omega (arith, h))
same_at (x ∷ xs) (y ∷ ys) (suc n) ha hb h k e =
    ap₂ (λ c cs. c ∷ cs) (e 0 (omega arith))
      (same_at xs ys n ha.1 hb.1 (omega (arith, h)) (omega (arith, k))
        (λ j lt. e (suc j) (omega (arith, lt))))

diff_loop_self : (n i : ℕ) (a : List ℕ) → diff_loop n i a a 0 ≡ 0
unfolding diff_loop
diff_loop_self zero i a = refl
diff_loop_self (suc n) i a =
    let nothing : bit_or 0 (bit_xor (get_or a i 0) (get_or a i 0) % 256) ≡ 0 =
      ap (λ d. bit_or 0 (d % 256)) (xor_self (get_or a i 0)) in
    ap (diff_loop n (i + 1) a a) nothing ∙ diff_loop_self n (i + 1) a

ct_equal_self : (a : List ℕ) → ct_equal a a ≡ true
unfolding ct_equal
ct_equal_self a =
    let start : bit_xor (length a) (length a) % 256 ≡ 0 = ap (λ d. d % 256) (xor_self (length a)) in
    ap (λ d. d == 0) (ap (diff_loop (max (length a) (length a)) 0 a a) start ∙ diff_loop_self _ 0 a)

pub ct_equal-eq : (a b : List ℕ) → All IsChar a → All IsChar b → ct_equal a b ≡ true → a ≡ b
unfolding ct_equal
ct_equal-eq a b ha hb e =
    let (_, same) =
      diff_loop-zero (max (length a) (length b)) 0 a b (bit_xor (length a) (length b) % 256) ha hb
        (==→eq _ 0 e) in
    same_at a b (max (length a) (length b)) ha hb (omega arith) (omega arith)
      (λ j lt. same j (omega arith) (omega (arith, lt)))

-- The comparison that takes the same time for every candidate answers as a plain comparison does, for
-- C strings of any lengths: although only the low byte of the lengths' difference is kept.
pub ct_equal-same_bytes :
    (a b : List ℕ) → All IsChar a → All IsChar b → ct_equal a b ≡ same_bytes a b
ct_equal-same_bytes a b ha hb = elim (Bool-cases (ct_equal a b)) [
  | inl is ↦
      let same = ct_equal-eq a b ha hb is in
      is ∙ sym (subst (λ c. same_bytes a c ≡ true) same (same_bytes_refl a))
  | inr other ↦ elim (Bool-cases (same_bytes a b)) [
    | inr no_match ↦ other ∙ sym no_match
    | inl match ↦
        let is : ct_equal a b ≡ true =
          subst (λ c. ct_equal a c ≡ true) (same_bytes-eq a b match) (ct_equal_self a) in
        absurd cc
  ]
]
