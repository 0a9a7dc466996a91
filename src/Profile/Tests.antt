-- ===== src/Profile/Tests.antt =====
-- A profile file with a comment and a long style, and a reply with a fact twice.
use openwrt_demo.Prelude.{ℕ, ◌≡◌, refl, Option, some, List, [], ◌∷◌, arith, bytes_of, pos}
use openwrt_demo.Proto.Http.{c_string, starts_with, find_from}
use openwrt_demo.Profile.{
  profile_load, profile_extract, profile_to_prompt, load_lines, load_line, load_pair, add_fact,
  extract_lines, extract_line, extract_pair, taken, trim, trim_end, key_of, value_of, has_equals,
  is_empty, printed, profile_clear, has_fact,
}
use openwrt_demo.Profile.Bounds.{IsBounded}
use openwrt_demo.Profile.Prompt.{IsWritten, profile_to_prompt-profile_extract}

abbrev file : Option (List (List ℕ))
file = some (
    bytes_of "# kept\n"
    ∷ bytes_of " name = Li Na \r\n"
    ∷ bytes_of "answer_style=a very long style\n"
    ∷ bytes_of "fact0=likes tea\n"
    ∷ [])

abbrev reply : Option (List ℕ)
reply = some (bytes_of "city=Chengdu\nfact=likes tea\n\nfact= has a cat")

kept : profile_extract reply (profile_load (λ s. pos 0) file) ≡ record {
  name = bytes_of "Li Na";
  city = bytes_of "Chengdu";
  job = [];
  answer_style = bytes_of "a very long sty";
  facts = bytes_of "likes tea" ∷ bytes_of "has a cat" ∷ [];
  total_rounds = pos 0;
  last_seen = [];
}
unfolding profile_load profile_extract load_lines load_line load_pair add_fact extract_lines
    extract_line extract_pair taken trim trim_end key_of value_of has_equals is_empty printed
    profile_clear has_fact c_string starts_with find_from
kept = refl

profile_to_prompt-profile_extract_example :
    IsBounded (profile_extract reply (profile_load (λ s. pos 0) file))
    × IsWritten 100 (profile_to_prompt (profile_extract reply (profile_load (λ s. pos 0) file)) 100)
profile_to_prompt-profile_extract_example =
    profile_to_prompt-profile_extract (λ s. pos 0) file reply 100 (omega arith)
