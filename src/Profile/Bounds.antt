-- ===== src/Profile/Bounds.antt =====
-- The arrays of the profile of voice/profile.c.
use openwrt_demo.Prelude.{
  ℕ, ◌-◌, ◌≤◌, ◌<◌, Bool, true, false, not, ◌||◌, get_or, Option, none, some, List, [], ◌∷◌, ◌++◌,
  ltb, inl, inr, if◌then◌else◌, Bool-cases, arith, length, All, length-take, length-append, ℤ,
  tokens, same_bytes, bytes_of, ◌==◌,
}
use openwrt_demo.Proto.Http.{find_from, starts_with, c_string}
use openwrt_demo.Profile.{
  profile_fact_max, profile_fact_len, Profile, printed, is_empty, profile_clear, add_fact,
  load_pair, load_line, load_lines, profile_load, extract_pair, extract_line, extract_lines,
  profile_extract, has_fact, taken, trim, key_of, value_of, has_equals,
}

-- Every text fits its array with the zero byte.
unfoldable pub IsBounded : Profile → Type 0
IsBounded p =
    length p.name < 32
    × length p.city < 32
    × length p.job < 64
    × length p.answer_style < 16
    × length p.facts ≤ profile_fact_max
    × All (λ f. length f < profile_fact_len) p.facts
    × length p.last_seen < 24

either : (c : Bool) (x y : Profile) → IsBounded x → IsBounded y → IsBounded (if c then x else y)
either true x y h g = h
either false x y h g = g

length-printed : (size : ℕ) (s : List ℕ) → 0 < size → length (printed size s) < size
unfolding printed
length-printed size s h = omega (arith, h, length-take (size - 1) s)

All-append_one :
    (fs : List (List ℕ)) (f : List ℕ)
    → All (λ f. length f < profile_fact_len) fs
    → length f < profile_fact_len
    → All (λ f. length f < profile_fact_len) (fs ++ (f ∷ []))
All-append_one [] f h g = (g, tt)
All-append_one (x ∷ xs) f h g = (h.0, All-append_one xs f h.1 g)

profile_clear-IsBounded : IsBounded profile_clear
unfolding IsBounded profile_clear printed
profile_clear-IsBounded = ground arith

add_fact-IsBounded : (v : List ℕ) (p : Profile) → IsBounded p → IsBounded (add_fact v p)
unfolding IsBounded add_fact
add_fact-IsBounded v p (a, b, c, d, e, f, g) =
    elim (Bool-cases (ltb (length p.facts) profile_fact_max)) [
      | inr full ↦ rw full (a, b, c, d, e, f, g)
      | inl free ↦ rw free (
        a,
        b,
        c,
        d,
        ground (arith, free, length-append p.facts (printed profile_fact_len v ∷ [])),
        All-append_one p.facts (printed profile_fact_len v) f
            (length-printed profile_fact_len v (omega arith)),
        g,
      )
    ]

name-IsBounded :
    (v : List ℕ) (p : Profile) → IsBounded p → IsBounded (record p { name = printed 32 v })
unfolding IsBounded
name-IsBounded v p (a, b, c, d, e, f, g) = (length-printed 32 v (omega arith), b, c, d, e, f, g)

city-IsBounded :
    (v : List ℕ) (p : Profile) → IsBounded p → IsBounded (record p { city = printed 32 v })
unfolding IsBounded
city-IsBounded v p (a, b, c, d, e, f, g) = (a, length-printed 32 v (omega arith), c, d, e, f, g)

job-IsBounded :
    (v : List ℕ) (p : Profile) → IsBounded p → IsBounded (record p { job = printed 64 v })
unfolding IsBounded
job-IsBounded v p (a, b, c, d, e, f, g) = (a, b, length-printed 64 v (omega arith), d, e, f, g)

answer_style-IsBounded :
    (v : List ℕ) (p : Profile) → IsBounded p → IsBounded (record p { answer_style = printed 16 v })
unfolding IsBounded
answer_style-IsBounded v p (a, b, c, d, e, f, g) =
    (a, b, c, length-printed 16 v (omega arith), e, f, g)

last_seen-IsBounded :
    (v : List ℕ) (p : Profile) → IsBounded p → IsBounded (record p { last_seen = printed 24 v })
unfolding IsBounded
last_seen-IsBounded v p (a, b, c, d, e, f, g) =
    (a, b, c, d, e, f, length-printed 24 v (omega arith))

total_rounds-IsBounded :
    (n : ℤ) (p : Profile) → IsBounded p → IsBounded (record p { total_rounds = n })
unfolding IsBounded
total_rounds-IsBounded n p h = h

load_pair-IsBounded :
    (atoi : List ℕ → ℤ) (k v : List ℕ) (p : Profile)
    → IsBounded p
    → IsBounded (load_pair atoi k v p)
unfolding load_pair
load_pair-IsBounded atoi k v p h =
    either (same_bytes k (bytes_of "name")) _ _ (name-IsBounded v p h) (
      either (same_bytes k (bytes_of "city")) _ _ (city-IsBounded v p h) (
        either (same_bytes k (bytes_of "job")) _ _ (job-IsBounded v p h) (
          either (same_bytes k (bytes_of "answer_style")) _ _ (answer_style-IsBounded v p h) (
            either (same_bytes k (bytes_of "total_rounds")) _ _
              (total_rounds-IsBounded (atoi v) p h)
              (either (same_bytes k (bytes_of "last_seen")) _ _ (last_seen-IsBounded v p h) (
                either (starts_with (bytes_of "fact") k) _ _
                  (either (is_empty v) _ _ h (add_fact-IsBounded v p h)) h))))))

load_lines-IsBounded :
    (atoi : List ℕ → ℤ) (ls : List (List ℕ)) (p : Profile)
    → IsBounded p
    → IsBounded (load_lines atoi ls p)
unfolding load_lines load_line
load_lines-IsBounded atoi [] p h = h
load_lines-IsBounded atoi (l ∷ ls) p h = load_lines-IsBounded atoi ls (load_line atoi l p) (
    either
      (let line = trim (c_string l) in
        is_empty line || get_or line 0 0 == 35 || not (has_equals line))
      _ _ h
      (load_pair-IsBounded atoi (trim (key_of (trim (c_string l))))
        (trim (value_of (trim (c_string l)))) p h))

pub profile_load-IsBounded :
    (atoi : List ℕ → ℤ) (file : Option (List (List ℕ))) → IsBounded (profile_load atoi file)
unfolding profile_load
profile_load-IsBounded atoi none = profile_clear-IsBounded
profile_load-IsBounded atoi (some ls) =
    load_lines-IsBounded atoi ls profile_clear profile_clear-IsBounded

extract_pair-IsBounded : (k v : List ℕ) (p : Profile) → IsBounded p → IsBounded (extract_pair k v p)
unfolding extract_pair
extract_pair-IsBounded k v p h = either (is_empty v) _ _ h (
    either (same_bytes k (bytes_of "name")) _ _ (name-IsBounded v p h) (
      either (same_bytes k (bytes_of "city")) _ _ (city-IsBounded v p h) (
        either (same_bytes k (bytes_of "job")) _ _ (job-IsBounded v p h) (
          either (same_bytes k (bytes_of "fact")) _ _
            (either (has_fact v p.facts) _ _ h (add_fact-IsBounded v p h)) h))))

extract_lines-IsBounded :
    (ls : List (List ℕ)) (p : Profile) → IsBounded p → IsBounded (extract_lines ls p)
unfolding extract_lines extract_line
extract_lines-IsBounded [] p h = h
extract_lines-IsBounded (l ∷ ls) p h = extract_lines-IsBounded ls (extract_line l p) (
    either (let line = trim l in is_empty line || not (has_equals line)) _ _ h (
      extract_pair-IsBounded (trim (printed 32 (key_of (trim l))))
        (trim (printed profile_fact_len (value_of (trim l)))) p h))

taken-IsBounded :
    (reply : List ℕ) (found : Option ℕ) (p : Profile)
    → IsBounded p
    → IsBounded (taken p reply found)
unfolding taken
taken-IsBounded reply none p h = extract_lines-IsBounded (tokens 10 reply) p h
taken-IsBounded reply (some k) p h = h

pub profile_extract-IsBounded :
    (reply : Option (List ℕ)) (p : Profile) → IsBounded p → IsBounded (profile_extract reply p)
unfolding profile_extract
profile_extract-IsBounded none p h = h
profile_extract-IsBounded (some reply) p h =
    taken-IsBounded reply (find_from reply (bytes_of "NO_FACTS") 0) p h
