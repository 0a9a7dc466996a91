-- ===== src/Dav/Path.antt =====
-- The path functions of dav-bridge/src/dav-bridge.c. A C string is the list of its bytes before the
-- terminator; a `bool` with a string written through a pointer is an option. What the file system
-- answers, `realpath` and `access`, is a parameter.
pub mod Href
pub mod Confined
use openwrt_demo.Prelude.{
  ℕ, zero, suc, ◌+◌, ◌-◌, ◌*◌, ◌/◌, ◌%◌, Bool, true, false, not, ◌&&◌, ◌||◌, Option, none, some,
  List, [], ◌∷◌, ◌++◌, ltb, leb, ◌==◌, if◌then◌else◌, length, take, drop, get_or, bytes_of, map,
}
use openwrt_demo.Proto.Http.{starts_with}

abbrev pub sd_root : List ℕ
sd_root = bytes_of "/mnt/sd"

abbrev pub dav_prefix : List ℕ
dav_prefix = bytes_of "/dav"

-- PATH_MAX
abbrev pub path_max : ℕ
path_max = 4096

-- -1 is none
unfoldable pub hex_val : ℕ → Option ℕ
hex_val c =
    if leb b'0' c && leb c b'9'
    then some (c - b'0')
    else if leb b'a' c && leb c b'f'
    then some (c - b'a' + 10)
    else if leb b'A' c && leb c b'F'
    then some (c - b'A' + 10)
    else none

-- the two digits behind a percent sign
unfoldable pub escaped : Option ℕ → Option ℕ → Option ℕ
escaped none lo = none
escaped (some hi) none = none
escaped (some hi) (some lo) = if hi == 0 && lo == 0 then none else some (hi * 16 + lo)

-- a byte in front of what the rest gives, if both are there
unfoldable pub put_byte : Option ℕ → Option (List ℕ) → Option (List ℕ)
put_byte none rest = none
put_byte (some c) none = none
put_byte (some c) (some cs) = some (c ∷ cs)

unfoldable pub percent_decode : List ℕ → Option (List ℕ)
percent_decode [] = some []
percent_decode (c ∷ []) = if c == b'%' then none else some (c ∷ [])
percent_decode (c ∷ h ∷ []) =
    let rest = percent_decode (h ∷ []) in if c == b'%' then none else put_byte (some c) rest
percent_decode (c ∷ h ∷ l ∷ cs) =
    let plain = percent_decode (h ∷ l ∷ cs) in
    let rest = percent_decode cs in
    if c == b'%' then put_byte (escaped (hex_val h) (hex_val l)) rest else put_byte (some c) plain

-- while (*p == '/') p++;
unfoldable pub skip_slashes : List ℕ → List ℕ
skip_slashes [] = []
skip_slashes (c ∷ cs) = let rest = skip_slashes cs in if c == b'/' then rest else c ∷ cs

-- while (*p && *p != '/') p++;, with the bytes it goes over
unfoldable pub segment : List ℕ → List ℕ × List ℕ
segment [] = ([], [])
segment (c ∷ cs) =
    let (seg, rest) = segment cs in if c == b'/' then ([], c ∷ cs) else (c ∷ seg, rest)

unfoldable pub is_dotdot : List ℕ → Bool
is_dotdot seg = length seg == 2 && get_or seg 0 0 == b'.' && get_or seg 1 0 == b'.'

-- the loop of `has_dotdot`, on fuel
unfoldable pub dotdot_loop : ℕ → List ℕ → Bool
dotdot_loop zero p = false
dotdot_loop (suc fuel) p = elim (skip_slashes p) [
  | [] ↦ false
  | c ∷ cs ↦ let (seg, rest) = segment (c ∷ cs) in is_dotdot seg || dotdot_loop fuel rest
]

-- every turn goes over one byte at least
unfoldable pub has_dotdot : List ℕ → Bool
has_dotdot p = dotdot_loop (length p) p

-- req[plen] is the terminator or a slash
unfoldable pub at_boundary : List ℕ → Bool
at_boundary [] = true
at_boundary (c ∷ cs) = c == b'/'

-- snprintf(out, outsz, "%s", s), for an `outsz` above 0
abbrev pub printed : ℕ → List ℕ → List ℕ
printed outsz s = take (outsz - 1) s

unfoldable pub make_fs_path : List ℕ → ℕ → Option (List ℕ)
make_fs_path req outsz =
    if not (starts_with dav_prefix req)
    then none
    else if not (at_boundary (drop 4 req))
    then none
    else if has_dotdot (drop 4 req)
    then none
    else some (printed outsz (sd_root ++ drop 4 req))

unfoldable pub under_root : (List ℕ → Option (List ℕ)) → List ℕ → Bool
under_root realpath path = elim (realpath path) [
  | none ↦ false
  | some resolved ↦ starts_with sd_root resolved && at_boundary (drop 7 resolved)
]

-- while (len > 1 && path[len - 1] != '/') len--;
unfoldable pub back_to_slash : List ℕ → ℕ → ℕ
back_to_slash path zero = 0
back_to_slash path (suc n) =
    let shorter = back_to_slash path n in
    if ltb 1 (suc n) && not (get_or path n 0 == b'/') then shorter else suc n

-- the outer loop, on fuel: none where it ends without a `return`
unfoldable pub prefix_loop : (List ℕ → Bool) → ℕ → List ℕ → ℕ → Option (List ℕ)
prefix_loop access zero path len = none
prefix_loop access (suc fuel) path len =
    let at = back_to_slash path len in
    let rest = prefix_loop access fuel path (at - 1) in
    if leb len 1 || leb at 1
    then none
    else if access (take at path)
    then some (take at path)
    else rest

-- a turn makes the length smaller
unfoldable pub existing_prefix : (List ℕ → Bool) → List ℕ → ℕ → Option (List ℕ)
existing_prefix access path outsz =
    if leb path_max (length path)
    then none
    else elim (prefix_loop access (length path) path (length path)) [
      | some found ↦ some (printed outsz found)
      | none ↦ if access (printed outsz sd_root) then some (printed outsz sd_root) else none
    ]

-- isalnum in the C locale
unfoldable pub is_alnum : ℕ → Bool
is_alnum c = leb b'0' c && leb c b'9' || leb b'A' c && leb c b'Z' || leb b'a' c && leb c b'z'

unfoldable pub uri_safe : ℕ → Bool
uri_safe c = is_alnum c || c == b'-' || c == b'_' || c == b'.' || c == b'~' || c == b'/'

-- a digit of %X
unfoldable pub upper_digit : ℕ → ℕ
upper_digit d = if ltb d 10 then b'0' + d else b'A' + (d - 10)

-- MAX_PATH_LEN
abbrev pub max_path_len : ℕ
max_path_len = 1024

-- the path of a request, by `parse_query`, which has room for 1024 bytes
pub request_path : List ℕ → Option (List ℕ)
request_path text = if leb max_path_len (length text) then none else percent_decode text

-- the loop of `print_href`
unfoldable pub href_bytes : List ℕ → List ℕ
href_bytes [] = []
href_bytes (c ∷ cs) =
    let rest = href_bytes cs in
    if uri_safe c then c ∷ rest else b'%' ∷ upper_digit (c / 16) ∷ upper_digit (c % 16) ∷ rest

-- rel[rel_len - 1] == '/'
unfoldable pub ends_in_slash : List ℕ → Bool
ends_in_slash [] = false
ends_in_slash (c ∷ []) = c == b'/'
ends_in_slash (c ∷ d ∷ cs) = ends_in_slash (d ∷ cs)

-- what is printed between the quotes
unfoldable pub print_href : List ℕ → Bool → List ℕ
print_href fs_path is_dir =
    let rel = drop 7 fs_path in
    dav_prefix
    ++ href_bytes rel
    ++ (if is_dir && ltb 0 (length rel) && not (ends_in_slash rel) then b'/' ∷ [] else [])
