-- ===== src/Profile.antt =====
-- The long-term profile of voice/profile.c: `trim`, `profile_load`, `profile_extract`,
-- `profile_to_prompt` and `profile_clear`. The profile file is the list of what `fgets` returns; `atoi`
-- is a parameter, and the reply of the language model is an argument. Texts are lists of bytes.
mod Bounds
mod Prompt
mod Tests
use openwrt_demo.Prelude.{
  ℕ, zero, suc, ◌+◌, ◌-◌, Bool, true, false, not, ◌&&◌, ◌||◌, Option, none, some, List, [], ◌∷◌,
  ◌++◌, ltb, ◌==◌, if◌then◌else◌, length, take, drop, get_or, same_bytes, bytes_of, cut_at, tokens,
  skip_blanks, ℤ, pos,
}
use openwrt_demo.Proto.Http.{c_string, starts_with, find_from}

-- PROFILE_FACT_MAX
abbrev pub profile_fact_max : ℕ
profile_fact_max = 8

-- PROFILE_FACT_LEN
abbrev pub profile_fact_len : ℕ
profile_fact_len = 160

-- `fact_count` is the length of `facts`.
pub record Profile : Type 0 where
  pub name : List ℕ
  pub city : List ℕ
  pub job : List ℕ
  pub answer_style : List ℕ
  pub facts : List (List ℕ)
  pub total_rounds : ℤ
  pub last_seen : List ℕ

-- snprintf(field, size, "%s", s)
pub printed : ℕ → List ℕ → List ℕ
printed size s = take (size - 1) s

pub is_empty : List ℕ → Bool
is_empty [] = true
is_empty (c ∷ cs) = false

pub trim_end : List ℕ → List ℕ
trim_end [] = []
trim_end (c ∷ cs) =
    let rest = trim_end cs in
    if is_empty rest && (c == 10 || c == 13 || c == 32 || c == 9) then [] else c ∷ rest

pub trim : List ℕ → List ℕ
trim s = trim_end (skip_blanks s)

pub profile_clear : Profile
profile_clear = record {
  name = [];
  city = [];
  job = [];
  answer_style = printed 16 (bytes_of "short");
  facts = [];
  total_rounds = pos 0;
  last_seen = [];
}

pub add_fact : List ℕ → Profile → Profile
add_fact v p =
    if ltb (length p.facts) profile_fact_max
    then record p { facts = p.facts ++ (printed profile_fact_len v ∷ []) }
    else p

pub load_pair : (List ℕ → ℤ) → List ℕ → List ℕ → Profile → Profile
load_pair atoi k v p =
    if same_bytes k (bytes_of "name")
    then record p { name = printed 32 v }
    else if same_bytes k (bytes_of "city")
    then record p { city = printed 32 v }
    else if same_bytes k (bytes_of "job")
    then record p { job = printed 64 v }
    else if same_bytes k (bytes_of "answer_style")
    then record p { answer_style = printed 16 v }
    else if same_bytes k (bytes_of "total_rounds")
    then record p { total_rounds = atoi v }
    else if same_bytes k (bytes_of "last_seen")
    then record p { last_seen = printed 24 v }
    else if starts_with (bytes_of "fact") k
    then (if is_empty v then p else add_fact v p)
    else p

-- What stands before the first '=' of a line, and what stands after it.
pub key_of : List ℕ → List ℕ
key_of line = cut_at 61 line

pub value_of : List ℕ → List ℕ
value_of line = drop (length (key_of line) + 1) line

pub has_equals : List ℕ → Bool
has_equals line = ltb (length (key_of line)) (length line)

pub load_line : (List ℕ → ℤ) → List ℕ → Profile → Profile
load_line atoi got p =
    let line = trim (c_string got) in
    if is_empty line || get_or line 0 0 == 35 || not (has_equals line)
    then p
    else load_pair atoi (trim (key_of line)) (trim (value_of line)) p

pub load_lines : (List ℕ → ℤ) → List (List ℕ) → Profile → Profile
load_lines atoi [] p = p
load_lines atoi (l ∷ ls) p = load_lines atoi ls (load_line atoi l p)

-- A file that cannot be opened gives none.
pub profile_load : (List ℕ → ℤ) → Option (List (List ℕ)) → Profile
profile_load atoi none = profile_clear
profile_load atoi (some ls) = load_lines atoi ls profile_clear

pub has_fact : List ℕ → List (List ℕ) → Bool
has_fact v [] = false
has_fact v (f ∷ fs) = same_bytes f v || has_fact v fs

pub extract_pair : List ℕ → List ℕ → Profile → Profile
extract_pair k v p =
    if is_empty v
    then p
    else if same_bytes k (bytes_of "name")
    then record p { name = printed 32 v }
    else if same_bytes k (bytes_of "city")
    then record p { city = printed 32 v }
    else if same_bytes k (bytes_of "job")
    then record p { job = printed 64 v }
    else if same_bytes k (bytes_of "fact")
    then (if has_fact v p.facts then p else add_fact v p)
    else p

pub extract_line : List ℕ → Profile → Profile
extract_line got p =
    let line = trim got in
    if is_empty line || not (has_equals line)
    then p
    else extract_pair (trim (printed 32 (key_of line)))
        (trim (printed profile_fact_len (value_of line))) p

pub extract_lines : List (List ℕ) → Profile → Profile
extract_lines [] p = p
extract_lines (l ∷ ls) p = extract_lines ls (extract_line l p)

-- what `strstr` found decides
pub taken : Profile → List ℕ → Option ℕ → Profile
taken p reply (some k) = p
taken p reply none = extract_lines (tokens 10 reply) p

-- The reply of `llm_chat`, none where it failed; strtok_r cuts it at newlines.
pub profile_extract : Option (List ℕ) → Profile → Profile
profile_extract none p = p
profile_extract (some reply) p = taken p reply (find_from reply (bytes_of "NO_FACTS") 0)

-- What the buffer holds, and `used`.
abbrev pub Prompt : Type 0
Prompt = List ℕ × ℕ

-- One snprintf(out + used, outlen - used, ...); none where the difference wraps around, so that it writes
-- past the end. Where `used` is `outlen`, nothing is written.
pub add : ℕ → List ℕ → Prompt → Option Prompt
add outlen s (out, used) =
    if ltb outlen used then none else some (take (outlen - 1) (out ++ s), used + length s)

pub and_then : Option Prompt → (Prompt → Option Prompt) → Option Prompt
and_then none k = none
and_then (some st) k = k st

abbrev pub stop : List ℕ
stop = 239 ∷ 188 ∷ 155 ∷ []

-- A text between what introduces it and the stop, where there is one.
pub add_text : ℕ → List ℕ → List ℕ → Prompt → Option Prompt
add_text outlen before s st = if is_empty s then some st else add outlen (before ++ (s ++ stop)) st

pub facts_loop : ℕ → List (List ℕ) → Prompt → Option Prompt
facts_loop outlen [] st = some st
facts_loop outlen (f ∷ fs) st =
    let rest = facts_loop outlen fs in
    if ltb (st.1 + 40) outlen then and_then (add_text outlen [] f st) rest else some st

abbrev pub user_information : List ℕ
user_information =
    231 ∷ 148 ∷ 168 ∷ 230 ∷ 136 ∷ 183 ∷ 228 ∷ 191 ∷ 161 ∷ 230 ∷ 129 ∷ 175 ∷ 239 ∷ 188 ∷ 154 ∷ []

abbrev pub called : List ℕ
called = 229 ∷ 143 ∷ 171 ∷ []

abbrev pub lives_in : List ℕ
lives_in = 228 ∷ 189 ∷ 143 ∷ 229 ∷ 156 ∷ 168 ∷ []

-- The text in a buffer of `outlen` bytes.
pub profile_to_prompt : Profile → ℕ → Option Prompt
profile_to_prompt p outlen =
    if outlen == 0
      || is_empty p.name && (is_empty p.city && (is_empty p.job && length p.facts == 0))
    then some ([], 0)
    else and_then (add outlen user_information ([], 0)) λ a.
      and_then (add_text outlen called p.name a) λ b.
        and_then (add_text outlen lives_in p.city b)
          λ c. and_then (add_text outlen [] p.job c) λ d. facts_loop outlen p.facts d
