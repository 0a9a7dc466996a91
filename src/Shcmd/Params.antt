-- ===== src/Shcmd/Params.antt =====
-- The parameters of a request of shcmd/src/shcmd.c: `url_decode` and `param_get`.
use openwrt_demo.Prelude.{
  ℕ, zero, suc, ◌+◌, ◌-◌, ◌*◌, ◌&&◌, Option, none, some, List, [], ◌∷◌, leb, ltb, ◌==◌,
  if◌then◌else◌, length, drop, get_or, cut_at,
}
use openwrt_demo.Proto.Http.{starts_with, c_string}

abbrev hex_value : ℕ → Option ℕ
hex_value c =
    if leb b'0' c && leb c b'9'
    then some (c - b'0')
    else if leb b'a' c && leb c b'f'
    then some (c - b'a' + 10)
    else if leb b'A' c && leb c b'F'
    then some (c - b'A' + 10)
    else none

-- the number of two hexadecimal digits
abbrev two_digits : Option ℕ → Option ℕ → Option ℕ
two_digits none lo = none
two_digits (some hi) none = none
two_digits (some hi) (some lo) = some (hi * 16 + lo)

-- The loop, with room for `room` bytes. A byte behind the end is the terminator, 0.
unfoldable pub decode_loop : ℕ → List ℕ → List ℕ
decode_loop zero s = []
decode_loop (suc room) [] = []
decode_loop (suc room) (c ∷ cs) =
    let plain = decode_loop room cs in
    let behind = decode_loop room (drop 2 cs) in
    if c == b'+'
    then b' ' ∷ plain
    else if c == b'%'
    then elim (two_digits (hex_value (get_or cs 0 0)) (hex_value (get_or cs 1 0))) [
      | none ↦ c ∷ plain
      | some value ↦ value ∷ behind
    ]
    else c ∷ plain

-- the string that is left in `dst`
unfoldable pub url_decode : List ℕ → ℕ → List ℕ
url_decode src dstlen = c_string (decode_loop (dstlen - 1) src)

-- from the ampersand behind the parameter on; none where there is none
unfoldable pub after_amp : List ℕ → Option (List ℕ)
after_amp [] = none
after_amp (c ∷ cs) = let rest = after_amp cs in if c == b'&' then some cs else rest

-- the loop of `param_get`, on fuel
unfoldable pub param_loop : ℕ → List ℕ → List ℕ → ℕ → Option (List ℕ)
param_loop zero key p outlen = none
param_loop (suc fuel) key [] outlen = none
param_loop (suc fuel) key (c ∷ cs) outlen =
    let part = cut_at b'&' (c ∷ cs) in
    let value = drop (length key + 1) part in
    if ltb (length key) (length part)
      && starts_with key (c ∷ cs)
      && get_or (c ∷ cs) (length key) 0 == b'='
    then if leb 1024 (length value) then none else some (url_decode value outlen)
    else elim (after_amp (c ∷ cs)) [ none ↦ none | some rest ↦ param_loop fuel key rest outlen ]

-- none where it returns -1; every turn goes over one byte at least
unfoldable pub param_get : Option (List ℕ) → List ℕ → ℕ → Option (List ℕ)
param_get none key outlen = none
param_get (some query) key outlen = param_loop (length query) key query outlen
