-- ===== src/Dav/Multipart.antt =====
-- The head of an uploaded body in dav-bridge/src/dav-bridge.c: `get_boundary`, `sr_read_line`,
-- `sr_read_headers`, and what `op_upload` does with them before it copies the file.
pub mod Bytes
pub mod Upload
mod Tests
use openwrt_demo.Prelude.{
  ℕ, zero, suc, ◌+◌, Bool, true, false, not, ◌&&◌, ◌||◌, Option, none, some, List, [], ◌∷◌, ◌++◌,
  ltb, leb, ◌==◌, if◌then◌else◌, length, take, drop, get_or, bytes_of, same_bytes,
}
use openwrt_demo.Proto.Http.{starts_with, mem_find}
use openwrt_demo.Dav.Reader.{Reader, sr_byte}
use openwrt_demo.Dav.Upload.{CopyStatus, malformed, Sink, find_bytes, sr_copy_until_boundary}

-- the bytes in front of the first of " \t\r\n\""
pub boundary_token : List ℕ → List ℕ
boundary_token [] = []
boundary_token (c ∷ cs) =
    let rest = boundary_token cs in
    if c == b' ' || c == 9 || c == 13 || c == 10 || c == b'"' then [] else c ∷ rest

-- if (*p == '"') p++;
pub skip_quote : List ℕ → List ℕ
skip_quote [] = []
skip_quote (c ∷ cs) = if c == b'"' then cs else c ∷ cs

-- The Content-Type is none where it is not set.
pub get_boundary : Option (List ℕ) → ℕ → Option (List ℕ)
get_boundary none bufsz = none
get_boundary (some ct) bufsz = elim (mem_find ct (bytes_of "boundary=")) [
  | none ↦ none
  | some i ↦
      let token = boundary_token (skip_quote (drop (i + 9) ct)) in
      if length token == 0 || leb bufsz (length token) then none else some token
]

-- The loop, on fuel, with the bytes of the line so far; none is -1.
pub line_loop : ℕ → ℕ → List ℕ → Reader → Option (List ℕ) × Reader
line_loop zero cap line r = (none, r)
line_loop (suc fuel) cap line r =
    let (got, r1) = sr_byte r in
    elim got [
      | none ↦ (none, r1)
      | some b ↦ elim (b == 10) [
        | true ↦ (some line, r1)
        | false ↦ elim (leb cap (length line + 1)) [
          | true ↦ (none, r1)
          | false ↦ line_loop fuel cap (if b == 13 then line else line ++ (b ∷ [])) r1
        ]
      ]
    ]

-- `left` is not below the number of bytes that are left to read.
pub sr_read_line : ℕ → ℕ → Reader → Option (List ℕ) × Reader
sr_read_line left cap r = line_loop (suc left) cap [] r

-- n >= 4 && memcmp(out + n - 4, "\r\n\r\n", 4) == 0, with the last four bytes, the last one first
pub ends_headers : List ℕ → Bool
ends_headers back = same_bytes (take 4 back) (10 ∷ 13 ∷ 10 ∷ 13 ∷ [])

-- The loop, on fuel, with the bytes so far, the last one first.
pub headers_loop : ℕ → ℕ → List ℕ → Reader → Option (List ℕ) × Reader
headers_loop zero cap back r = (none, r)
headers_loop (suc fuel) cap back r =
    let (got, r1) = sr_byte r in
    elim got [
      | none ↦ (none, r1)
      | some b ↦ elim (leb cap (length back + 1)) [
        | true ↦ (none, r1)
        | false ↦ elim (ends_headers (b ∷ back)) [
          | true ↦ (some (b ∷ back), r1)
          | false ↦ headers_loop fuel cap (b ∷ back) r1
        ]
      ]
    ]

pub reversed : List ℕ → List ℕ → List ℕ
reversed [] out = out
reversed (c ∷ cs) out = reversed cs (c ∷ out)

pub sr_read_headers : ℕ → ℕ → Reader → Option (List ℕ) × Reader
sr_read_headers left cap r =
    let (back, r1) = headers_loop (suc left) cap [] r in
    elim back [ none ↦ (none, r1) | some bytes ↦ (some (reversed bytes []), r1) ]

-- MAX_PART_LINE and MAX_HEADER_BYTES
abbrev pub max_part_line : ℕ
max_part_line = 256

abbrev pub max_header_bytes : ℕ
max_header_bytes = 4096

-- the reply 400, or what the copy returns
pub data Received : Type 0 where
  bad_request : Received
  copy_ended : CopyStatus × Reader × Sink → Received

abbrev pub terminator_of : List ℕ → List ℕ
terminator_of boundary = 13 ∷ 10 ∷ b'-' ∷ b'-' ∷ boundary

-- The name of the file is chosen, and the file opened, between the headers and the copy.
module _ (fwrite : List ℕ → List ℕ → Bool) (max left : ℕ) (boundary : List ℕ) (s : Sink) where
  pub after_name : Option ℕ → Reader → Received
  after_name none r = bad_request
  after_name (some i) r =
      copy_ended (sr_copy_until_boundary fwrite max left (terminator_of boundary) r s)

  pub after_headers : Option (List ℕ) → Reader → Received
  after_headers none r = bad_request
  after_headers (some hdrs) r = after_name (find_bytes hdrs 0 (bytes_of "name=\"file\"")) r

  pub after_line : Option (List ℕ) → Reader → Received
  after_line none r = bad_request
  after_line (some line) r =
      let (hdrs, r1) = sr_read_headers left max_header_bytes r in
      let rest = after_headers hdrs r1 in
      if not (same_bytes line (b'-' ∷ b'-' ∷ boundary)) then bad_request else rest

  -- from the first line to the end of the file
  pub receive : Reader → Received
  receive r = let (line, r1) = sr_read_line left max_part_line r in after_line line r1
