-- ===== src/Profile/Prompt.antt =====
-- The text that voice/profile.c prints for the language model, and its buffer.
use openwrt_demo.Prelude.{
  ℕ, ◌+◌, ◌-◌, ◌≤◌, ◌<◌, ◌≡◌, false, ◌&&◌, ◌||◌, Option, none, some, List, [], ◌∷◌, ◌++◌, ltb, inl,
  inr, Bool-cases, arith, length, length-take, length-append, ℤ, ◌==◌,
}
use openwrt_demo.Profile.{
  Profile, is_empty, profile_load, profile_extract, Prompt, add, and_then, stop, add_text,
  facts_loop, user_information, called, lives_in, profile_to_prompt,
}
use openwrt_demo.Profile.Bounds.{IsBounded, profile_load-IsBounded, profile_extract-IsBounded}

-- Nothing was written past the end: what is in the buffer fits it with the zero byte.
unfoldable pub IsWritten : ℕ → Option Prompt → Type 0
IsWritten outlen none = ⊥
IsWritten outlen (some st) = length st.0 < outlen

-- and `used` is so far at most
Room : ℕ → ℕ → Option Prompt → Type 0
Room outlen most none = ⊥
Room outlen most (some st) = (length st.0 < outlen) × (st.1 ≤ most)

add-Room :
    (outlen most : ℕ) (s : List ℕ) (st : Prompt)
    → 0 < outlen
    → st.1 ≤ outlen
    → st.1 + length s ≤ most
    → Room outlen most (add outlen s st)
unfolding Room add
add-Room outlen most s st positive within le =
    let fits : ltb outlen st.1 ≡ false = ground (arith, within) in
    rw fits (omega (arith, positive, length-take (outlen - 1) (st.0 ++ s)), le)

add_text-Room :
    (outlen most : ℕ) (before s : List ℕ) (st : Prompt)
    → length st.0 < outlen
    → st.1 ≤ outlen
    → st.1 + length before + length s + 3 ≤ most
    → Room outlen most (add_text outlen before s st)
unfolding Room add_text
add_text-Room outlen most before s st short within le = elim (Bool-cases (is_empty s)) [
  | inl nothing ↦ rw nothing (short, omega (arith, le))
  | inr something ↦ rw something (
      add-Room outlen most (before ++ (s ++ stop)) st (omega (arith, short)) within
        (omega (arith, le, length-append before (s ++ stop), length-append s stop)))
]

and_then-Room :
    (outlen a b : ℕ) (r : Option Prompt) (k : Prompt → Option Prompt)
    → Room outlen a r
    → ((st : Prompt) → length st.0 < outlen → st.1 ≤ a → Room outlen b (k st))
    → Room outlen b (and_then r k)
unfolding Room and_then
and_then-Room outlen a b none k h f = absurd h
and_then-Room outlen a b (some st) k h f = f st h.0 h.1

and_then-IsWritten :
    (outlen a : ℕ) (r : Option Prompt) (k : Prompt → Option Prompt)
    → Room outlen a r
    → ((st : Prompt) → length st.0 < outlen → st.1 ≤ a → IsWritten outlen (k st))
    → IsWritten outlen (and_then r k)
unfolding Room IsWritten and_then
and_then-IsWritten outlen a none k h f = absurd h
and_then-IsWritten outlen a (some st) k h f = f st h.0 h.1

facts_loop-IsWritten :
    (outlen : ℕ) (fs : List (List ℕ)) (st : Prompt)
    → length st.0 < outlen
    → IsWritten outlen (facts_loop outlen fs st)
unfolding IsWritten facts_loop
facts_loop-IsWritten outlen [] st h = h
facts_loop-IsWritten outlen (f ∷ fs) st h = elim (Bool-cases (ltb (st.1 + 40) outlen)) [
  | inr full ↦ rw full h
  | inl free ↦ rw free (
      and_then-IsWritten outlen (st.1 + length f + 3) (add_text outlen [] f st)
        (facts_loop outlen fs)
        (add_text-Room outlen (st.1 + length f + 3) [] f st h (ground (arith, free)) (omega arith))
        (λ next short _. facts_loop-IsWritten outlen fs next short))
]

profile_to_prompt-IsWritten :
    (p : Profile) (outlen : ℕ)
    → IsBounded p
    → 92 ≤ outlen
    → IsWritten outlen (profile_to_prompt p outlen)
unfolding profile_to_prompt IsBounded IsWritten
profile_to_prompt-IsWritten p outlen (a, b, c, d, e, f, g) room =
    let nothing =
      outlen == 0
      || is_empty p.name && (is_empty p.city && (is_empty p.job && length p.facts == 0)) in
    elim (Bool-cases nothing) [
      | inl yes_nothing ↦ rw yes_nothing (omega (arith, room))
      | inr something ↦ rw something (
          and_then-IsWritten outlen 15 (add outlen user_information ([], 0)) _
            (add-Room outlen 15 user_information ([], 0) (omega (arith, room)) (omega arith)
              (omega arith))
            (λ s h w.
              and_then-IsWritten outlen 52 (add_text outlen called p.name s) _
                (add_text-Room outlen 52 called p.name s h (omega (arith, room, w))
                  (omega (arith, a, w)))
                (λ s h w.
                  and_then-IsWritten outlen 92 (add_text outlen lives_in p.city s) _
                    (add_text-Room outlen 92 lives_in p.city s h (omega (arith, room, w))
                      (omega (arith, b, w)))
                    (λ s h w.
                      and_then-IsWritten outlen 158 (add_text outlen [] p.job s) _
                        (add_text-Room outlen 158 [] p.job s h (omega (arith, room, w))
                          (omega (arith, c, w)))
                        (λ s h w. facts_loop-IsWritten outlen p.facts s h)))))
    ]

-- Whatever the profile file and the reply of the language model hold, the profile that they give stays
-- within its arrays, and its text is printed without a write past the end of any buffer of at least 92
-- bytes, and fits it with the zero byte.
pub profile_to_prompt-profile_extract :
    (atoi : List ℕ → ℤ) (file : Option (List (List ℕ))) (reply : Option (List ℕ)) (outlen : ℕ)
    → 92 ≤ outlen
    → IsBounded (profile_extract reply (profile_load atoi file))
      × IsWritten outlen (profile_to_prompt (profile_extract reply (profile_load atoi file)) outlen)
profile_to_prompt-profile_extract atoi file reply outlen room =
    let bounded =
      profile_extract-IsBounded reply (profile_load atoi file) (profile_load-IsBounded atoi file) in
    (
      bounded,
      profile_to_prompt-IsWritten (profile_extract reply (profile_load atoi file)) outlen bounded
          room,
    )
