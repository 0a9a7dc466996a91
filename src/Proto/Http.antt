-- ===== src/Proto/Http.antt =====
-- `proto_http_parse_host` of apptraffic/src/proto.c, with `mem_find` and `matches_method`. A pointer
-- into a buffer is an index, and NULL is none. The string left in `host` is the list of its bytes
-- before the first zero byte.
pub mod Find
pub mod Fits
mod Tests
use openwrt_demo.Prelude.{
  ℕ, zero, suc, ◌+◌, ◌-◌, Bool, true, false, not, ◌&&◌, ◌||◌, Option, none, some, List, [], ◌∷◌,
  ltb, leb, ◌==◌, if◌then◌else◌, length, take, drop, bytes_of,
}
use openwrt_demo.Proto.Tls.{Found, not_found, has_dot}

-- memcmp(hay, needle, nlen) == 0, where `hay` has as many bytes
unfoldable pub starts_with : List ℕ → List ℕ → Bool
starts_with [] hay = true
starts_with (n ∷ ns) [] = false
starts_with (n ∷ ns) (h ∷ hs) = n == h && starts_with ns hs

-- the loop of `mem_find`, on the bytes from `i` on
unfoldable pub find_from : List ℕ → List ℕ → ℕ → Option ℕ
find_from [] needle i = none
find_from (h ∷ hs) needle i =
    let rest = find_from hs needle (i + 1) in
    if not (leb (length needle) (length (h ∷ hs)))
    then none
    else if starts_with needle (h ∷ hs)
    then some i
    else rest

unfoldable pub mem_find : List ℕ → List ℕ → Option ℕ
mem_find hay needle =
    if length needle == 0 || ltb (length hay) (length needle) then none else find_from hay needle 0

-- tolower
abbrev lower : ℕ → ℕ
lower c = if leb 65 c && leb c 90 then c + 32 else c

-- strncasecmp(d, m, strlen(m)) == 0
unfoldable pub same_letters : List ℕ → List ℕ → Bool
same_letters [] d = true
same_letters (m ∷ ms) [] = false
same_letters (m ∷ ms) (c ∷ cs) = lower m == lower c && same_letters ms cs

pub matches_method : List ℕ → List ℕ → Bool
matches_method d m = not (ltb (length d) (length m)) && same_letters m d

-- the bytes of a string that a buffer holds
unfoldable pub c_string : List ℕ → List ℕ
c_string [] = []
c_string (c ∷ cs) = let rest = c_string cs in if c == 0 then [] else c ∷ rest

-- strrchr(host, ':')
pub last_colon : List ℕ → Option ℕ
last_colon [] = none
last_colon (c ∷ cs) = elim (last_colon cs) [
  | some i ↦ some (suc i)
  | none ↦ if c == b':' then some 0 else none
]

-- if (port_colon) *port_colon = 0;
pub cut_port : List ℕ → List ℕ
cut_port host = elim (last_colon host) [ some i ↦ take i host | none ↦ host ]

abbrev is_request : List ℕ → Bool
is_request d =
    matches_method d (bytes_of "GET ")
    || matches_method d (bytes_of "POST ")
    || matches_method d (bytes_of "HEAD ")
    || matches_method d (bytes_of "PUT ")
    || matches_method d (bytes_of "OPTIONS ")

-- if (host_len_i >= (int)host_len) host_len_i = host_len - 1;
pub clip_host : ℕ → ℕ → ℕ
clip_host n host_len = if leb host_len n then host_len - 1 else n

-- from the copy on: the header's value is at `start` and has `n` bytes
pub copy_host : List ℕ → ℕ → ℕ → Found
copy_host d start n =
    if n == 0
    then not_found
    else (let host = cut_port (c_string (take n (drop start d))) in
        record { ret = has_dot host; host = some host })

-- from the end of the header's line on
pub host_line : List ℕ → ℕ → ℕ → Option ℕ → Found
host_line d host_len start none = not_found
host_line d host_len start (some n) = copy_host d start (clip_host n host_len)

-- from the header's name on
pub host_header : List ℕ → ℕ → Option ℕ → Found
host_header d host_len none = not_found
host_header d host_len (some i) =
    host_line d host_len (i + 8) (mem_find (drop (i + 8) d) (13 ∷ 10 ∷ []))

-- `host` is `host_len`, below 2^31, or none where the pointer is NULL
pub parse_host : List ℕ → Option ℕ → Found
parse_host d none = not_found
parse_host d (some host_len) =
    if ltb (length d) 10 || host_len == 0
    then not_found
    else if not (is_request d)
    then not_found
    else host_header d host_len (mem_find d (13 ∷ 10 ∷ bytes_of "Host: "))
