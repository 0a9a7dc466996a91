-- ===== src/Proto/Tls.antt =====
-- `proto_tls_parse_sni` of apptraffic/src/proto.c: the server name of a TLS ClientHello.
pub mod Safe
mod Tests
use openwrt_demo.Prelude.{
  ℕ, zero, suc, ◌+◌, ◌-◌, ◌*◌, Bool, true, false, not, ◌&&◌, ◌||◌, Option, none, some, List, [],
  ◌∷◌, ltb, leb, ◌==◌, if◌then◌else◌, length, Run, ok, ◌>>=◌, read, read_be16, read_block,
}

-- What the caller sees: the return value, and the string written to `host`, without its terminator.
pub record Found : Type 0 where
  pub ret : Bool
  pub host : Option (List ℕ)

abbrev pub not_found : Found
not_found = record { ret = false; host = none }

-- strchr(host, '.'), which stops at a zero byte
unfoldable pub has_dot : List ℕ → Bool
has_dot [] = false
has_dot (c ∷ cs) = not (c == 0) && (c == b'.' || has_dot cs)

-- name_len < (int)host_len - 1 ? name_len : (int)host_len - 1
pub copy_len : ℕ → ℕ → ℕ
copy_len name_len host_len = if ltb name_len (host_len - 1) then name_len else host_len - 1

-- the end of the server name extension: the name starts at `pos`
pub named : List ℕ → ℕ → ℕ → ℕ → ℕ → ℕ → Run Found
named d host_len ext_end pos name_type name_len =
    if name_type == 0 && ltb 0 name_len && leb (pos + name_len) ext_end
    then (do
      name ← read_block d pos (copy_len name_len host_len)
      ok (record { ret = has_dot name; host = some name }))
    else ok not_found

-- the server name extension, whose data starts at `pos`
pub server_name : List ℕ → ℕ → ℕ → ℕ → Run Found
server_name d host_len ext_end pos =
    if ltb ext_end (pos + 5)
    then ok not_found
    else if ltb ext_end (pos + 2 + 3)
    then ok not_found
    else (do
      name_type ← read d (pos + 2)
      name_len ← read_be16 d (pos + 3)
      named d host_len ext_end (pos + 5) name_type name_len)

-- The body of the loop over the extensions; `rest` is the loop from the next extension on.
pub extension : (ℕ → Run Found) → List ℕ → ℕ → ℕ → ℕ → Run Found
extension rest d host_len ext_end pos = do
  ext_type ← read_be16 d pos
  ext_data_len ← read_be16 d (pos + 2)
  if ext_type == 0 && leb (pos + 4 + ext_data_len) ext_end
      then server_name d host_len ext_end (pos + 4)
      else rest (pos + 4 + ext_data_len)

-- A round moves at least four bytes on.
pub extensions : ℕ → List ℕ → ℕ → ℕ → ℕ → Run Found
extensions zero d host_len ext_end pos = ok not_found
extensions (suc fuel) d host_len ext_end pos = elim (leb (pos + 4) ext_end) [
  | false ↦ ok not_found
  | true ↦ extension (extensions fuel d host_len ext_end) d host_len ext_end pos
]

-- int ext_end = pos + ext_len; if (ext_end > len) ext_end = len;
pub clip_end : ℕ → ℕ → ℕ
clip_end len ext_end = if ltb len ext_end then len else ext_end

-- from the length of the extensions on
pub extension_block : List ℕ → ℕ → ℕ → Run Found
extension_block d host_len pos = if ltb (length d) (pos + 2) then ok not_found else do
  ext_len ← read_be16 d pos
  let ext_end = clip_end (length d) (pos + 2 + ext_len)
  extensions ext_end d host_len ext_end (pos + 2)

-- from the length of the compression methods on
pub after_suites : List ℕ → ℕ → ℕ → Run Found
after_suites d host_len pos =
    if ltb (length d) (pos + 1)
    then ok not_found
    else do cm_len ← read d pos; extension_block d host_len (pos + 1 + cm_len)

-- from the length of the cipher suites on
pub after_session : List ℕ → ℕ → ℕ → Run Found
after_session d host_len pos =
    if ltb (length d) (pos + 2)
    then ok not_found
    else do cs_len ← read_be16 d pos; after_suites d host_len (pos + 2 + cs_len)

-- from the version on, at byte 9: two bytes of version, 32 of random data, the session
pub client_hello : List ℕ → ℕ → Run Found
client_hello d host_len =
    if ltb (length d) (9 + 38)
    then ok not_found
    else do sid_len ← read d 43; after_session d host_len (44 + sid_len)

-- the handshake header, at byte 5
pub handshake : List ℕ → ℕ → Run Found
handshake d host_len = if ltb (length d) (5 + 4) then ok not_found else do
  hs_type ← read d 5
  high ← read d 6
  mid ← read d 7
  low ← read d 8
  if not (hs_type == 1) || ltb (length d) (9 + (high * 65536 + mid * 256 + low))
      then ok not_found
      else client_hello d host_len

-- `host` is `host_len`, below 2^31, or none where the pointer is NULL
unfoldable pub parse_sni : List ℕ → Option ℕ → Run Found
parse_sni d none = ok not_found
parse_sni d (some host_len) = if ltb (length d) 5 || host_len == 0 then ok not_found else do
  content_type ← read d 0
  version ← read_be16 d 1
  record_len ← read_be16 d 3
  if not (content_type == 22) || ltb version 0x0301 || ltb (length d) (5 + record_len)
      then ok not_found
      else handshake d host_len
