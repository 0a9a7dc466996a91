-- ===== src/Dav/Path/Confined.antt =====
-- Where the paths of the WebDAV bridge lead: `make_fs_path` of dav-bridge/src/dav-bridge.c.
use mathlib.Core.Option.{some-injective}
use openwrt_demo.Proto.Http.{starts_with}
use openwrt_demo.Prelude.{
  ℕ, zero, suc, ◌≤◌, ◌<◌, ◌≡◌, ◌≢◌, refl, sym, ap, ◌∙◌, ◌⊎◌, Bool, true, false, ◌||◌, none, some,
  take_all, length-drop, List, [], ◌∷◌, ◌++◌, inl, inr, ◌==◌, Bool-cases, arith, length, drop,
  tokens, All, add_field, split_fields,
}
use openwrt_demo.Dav.Path.{
  sd_root, skip_slashes, segment, is_dotdot, dotdot_loop, has_dotdot, make_fs_path, at_boundary,
  path_max, dav_prefix, printed,
}

abbrev any {ℓ} : {A : Type ℓ} → (A → Bool) → List A → Bool
any f [] = false
any f (x ∷ xs) = f x || any f xs

skip-slash : (c : ℕ) (cs : List ℕ) → (c == b'/') ≡ true → skip_slashes (c ∷ cs) ≡ skip_slashes cs
unfolding skip_slashes
skip-slash c cs h = rw h refl

skip-other : (c : ℕ) (cs : List ℕ) → (c == b'/') ≡ false → skip_slashes (c ∷ cs) ≡ c ∷ cs
unfolding skip_slashes
skip-other c cs h = rw h refl

fields-slash :
    (c : ℕ) (cs : List ℕ) → (c == b'/') ≡ true → split_fields b'/' (c ∷ cs) ≡ ([], tokens b'/' cs)
fields-slash c cs h = rw h refl

fields-other :
    (c : ℕ) (cs : List ℕ)
    → (c == b'/') ≡ false
    → split_fields b'/' (c ∷ cs) ≡ (c ∷ (split_fields b'/' cs).0, (split_fields b'/' cs).1)
fields-other c cs h = rw h refl

segment-slash : (c : ℕ) (cs : List ℕ) → (c == b'/') ≡ true → segment (c ∷ cs) ≡ ([], c ∷ cs)
unfolding segment
segment-slash c cs h = rw h refl

segment-other :
    (c : ℕ) (cs : List ℕ)
    → (c == b'/') ≡ false
    → segment (c ∷ cs) ≡ (c ∷ (segment cs).0, (segment cs).1)
unfolding segment
segment-other c cs h = rw h refl

tokens-slash : (c : ℕ) (cs : List ℕ) → (c == b'/') ≡ true → tokens b'/' (c ∷ cs) ≡ tokens b'/' cs
tokens-slash c cs h = ap (λ s. add_field s.0 s.1) (fields-slash c cs h)

tokens-skip_slashes : (p : List ℕ) → tokens b'/' (skip_slashes p) ≡ tokens b'/' p
unfolding skip_slashes
tokens-skip_slashes [] = refl
tokens-skip_slashes (c ∷ cs) = elim (Bool-cases (c == b'/')) [
  | inl slash ↦
      ap (tokens b'/') (skip-slash c cs slash)
      ∙ tokens-skip_slashes cs
      ∙ sym (tokens-slash c cs slash)
  | inr other ↦ ap (tokens b'/') (skip-other c cs other)
]

skip_slashes-head :
    (p : List ℕ) (c : ℕ) (cs : List ℕ)
    → skip_slashes p ≡ c ∷ cs
    → ((c == b'/') ≡ false) × (length cs < length p)
unfolding skip_slashes
skip_slashes-head [] c cs e = cc
skip_slashes-head (x ∷ xs) c cs e = elim (Bool-cases (x == b'/')) [
  | inl slash ↦
      let (head, shorter) = skip_slashes-head xs c cs (sym (skip-slash x xs slash) ∙ e) in
      (head, omega arith)
  | inr other ↦
      let same : x ∷ xs ≡ c ∷ cs = sym (skip-other x xs other) ∙ e in
      let head : x ≡ c = cc in let tail : length xs ≡ length cs = cc in (cc, omega arith)
]

length-segment : (p : List ℕ) → length (segment p).1 ≤ length p
unfolding segment
length-segment [] = omega arith
length-segment (c ∷ cs) =
    let rest = length-segment cs in
    elim (Bool-cases (c == b'/')) [
      | inl slash ↦ rw slash (omega arith)
      | inr other ↦ rw other (omega arith)
    ]

split_fields-segment :
    (p : List ℕ) → split_fields b'/' p ≡ ((segment p).0, tokens b'/' (segment p).1)
unfolding segment
split_fields-segment [] = refl
split_fields-segment (c ∷ cs) = elim (Bool-cases (c == b'/')) [
  | inl slash ↦
      fields-slash c cs slash
      ∙ sym (ap (λ t. ([], t)) (tokens-slash c cs slash))
      ∙ sym (ap (λ s. (s.0, tokens b'/' s.1)) (segment-slash c cs slash))
  | inr other ↦
      fields-other c cs other
      ∙ ap (λ s. (c ∷ s.0, s.1)) (split_fields-segment cs)
      ∙ sym (ap (λ s. (s.0, tokens b'/' s.1)) (segment-other c cs other))
]

-- The fields of a path that begins with a segment.
tokens-segment :
    (c : ℕ) (cs : List ℕ)
    → (c == b'/') ≡ false
    → tokens b'/' (c ∷ cs) ≡ (segment (c ∷ cs)).0 ∷ tokens b'/' (segment (c ∷ cs)).1
tokens-segment c cs h =
    let e = segment-other c cs h in
    ap (λ s. add_field s.0 s.1) (split_fields-segment (c ∷ cs))
    ∙ ap (λ s. add_field s.0 (tokens b'/' s.1)) e
    ∙ sym (ap (λ s. s.0 ∷ tokens b'/' s.1) e)

dotdot_loop-found :
    (fuel : ℕ) (p q : List ℕ)
    → ((r : List ℕ) → length r ≤ fuel → dotdot_loop fuel r ≡ any is_dotdot (tokens b'/' r))
    → length p ≤ suc fuel
    → skip_slashes p ≡ q
    → dotdot_loop (suc fuel) p ≡ any is_dotdot (tokens b'/' q)
unfolding dotdot_loop
dotdot_loop-found fuel p [] rest le e = rw (e, dotdot_loop) refl
dotdot_loop-found fuel p (c ∷ cs) rest le e =
    let (head, shorter) = skip_slashes-head p c cs e in
    let seg = segment-other c cs head in
    let tail = rest (segment cs).1 (omega (arith, length-segment cs)) in
    rw (e, dotdot_loop)
      (rw (tokens-segment c cs head, seg) (ap (λ b. is_dotdot (c ∷ (segment cs).0) || b) tail))

dotdot_loop-tokens :
    (fuel : ℕ) (p : List ℕ) → length p ≤ fuel → dotdot_loop fuel p ≡ any is_dotdot (tokens b'/' p)
unfolding dotdot_loop
dotdot_loop-tokens zero [] le = refl
dotdot_loop-tokens zero (x ∷ xs) le = absurd (omega arith)
dotdot_loop-tokens (suc fuel) p le =
    dotdot_loop-found fuel p (skip_slashes p) (dotdot_loop-tokens fuel) le refl
    ∙ ap (any is_dotdot) (tokens-skip_slashes p)

-- `has_dotdot` tells whether a component of the path is "..".
has_dotdot-tokens : (p : List ℕ) → has_dotdot p ≡ any is_dotdot (tokens b'/' p)
unfolding has_dotdot
has_dotdot-tokens p = dotdot_loop-tokens (length p) p (omega arith)

or_false-right : (a b : Bool) → a || b ≡ false → b ≡ false
or_false-right false b h = h
or_false-right true b h = cc

any-All :
    (fields : List (List ℕ)) → any is_dotdot fields ≡ false → All (λ f. f ≢ b'.' ∷ b'.' ∷ []) fields
unfolding is_dotdot
any-All [] h = tt
any-All (f ∷ fs) h = (
  λ e. let found : true ≡ false = sym (ap (λ g. is_dotdot g || any is_dotdot fs) e) ∙ h in cc,
  any-All fs (or_false-right (is_dotdot f) (any is_dotdot fs) h),
)

-- a path below the root: the root, then nothing or a slash, and no component ".." behind it
abbrev pub IsConfined : List ℕ → Type 0
IsConfined fs =
    (rel : List ℕ) × (fs ≡ sd_root ++ rel)
    × (at_boundary rel ≡ true)
    × All (λ f. f ≢ b'.' ∷ b'.' ∷ []) (tokens b'/' rel)

-- What `make_fs_path` answers: NULL, or the root with the rest of the request behind it.
pub make_fs_path-cases :
    (req : List ℕ) (n : ℕ)
    → (make_fs_path req n ≡ none)
      ⊎ ((make_fs_path req n ≡ some (printed n (sd_root ++ drop 4 req)))
          × (at_boundary (drop 4 req) ≡ true)
          × (has_dotdot (drop 4 req) ≡ false))
unfolding make_fs_path
make_fs_path-cases req n = elim (Bool-cases (starts_with dav_prefix req)) [
  | inr outside ↦ inl (rw outside refl)
  | inl inside ↦ elim (Bool-cases (at_boundary (drop 4 req))) [
    | inr longer ↦ inl (rw (inside, longer) refl)
    | inl ends ↦ elim (Bool-cases (has_dotdot (drop 4 req))) [
      | inl up ↦ inl (rw (inside, ends, up) refl)
      | inr below ↦ inr (rw (inside, ends, below) (refl, refl, refl))
    ]
  ]
]

-- Every path that `make_fs_path` accepts stands below the root, for a request of less than 1024
-- bytes, as `parse_query` leaves it, and a buffer of PATH_MAX bytes.
pub make_fs_path-IsConfined :
    (req fs : List ℕ) → length req < 1024 → make_fs_path req path_max ≡ some fs → IsConfined fs
make_fs_path-IsConfined req fs le e = elim (make_fs_path-cases req path_max) [
  | inl refused ↦ cc
  | inr (accepted, ends, below) ↦
      let short : length (drop 4 req) ≤ length req = omega (arith, length-drop 4 req) in
      let whole = take_all 4095 (sd_root ++ drop 4 req) (omega (arith, short)) in
      (
        drop 4 req,
        some-injective _ _ (sym e ∙ accepted) ∙ whole,
        ends,
        any-All (tokens b'/' (drop 4 req)) (sym (has_dotdot-tokens (drop 4 req)) ∙ below),
      )
]
