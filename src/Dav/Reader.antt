-- ===== src/Dav/Reader.antt =====
-- The stream reader of dav-bridge/src/dav-bridge.c: `stream_reader`, `sr_fill`, `sr_byte`, `sr_peek`,
-- `sr_read_line` and `sr_read_headers`. The buffer is the list of its first `len` bytes. Standard
-- input is the list of the pieces that `fread` returns one after another, a piece that is too long
-- for a call in several parts; where it ends, or at an empty piece, `fread` returns 0.
pub mod Peek
use openwrt_demo.Prelude.{
  ℕ, zero, suc, ◌+◌, ◌-◌, Bool, true, false, not, ◌&&◌, Option, none, some, List, [], ◌∷◌, ◌++◌,
  ltb, leb, ◌==◌, if◌then◌else◌, length, take, drop, get_elem?,
}

-- CHUNK_SIZE
abbrev pub chunk_size : ℕ
chunk_size = 65536

pub record Reader : Type 0 where
  pub buf : List ℕ
  pub pos : ℕ
  pub input : List (List ℕ)

-- the bytes from `pos` to `len`
abbrev pub window : Reader → List ℕ
window r = drop r.pos r.buf

-- fread(…, 1, n, stdin)
unfoldable pub fread : ℕ → List (List ℕ) → List ℕ × List (List ℕ)
fread n [] = ([], [])
fread n (piece ∷ pieces) =
    if leb (length piece) n then (piece, pieces) else (take n piece, drop n piece ∷ pieces)

abbrev pub is_empty : List ℕ → Bool
is_empty [] = true
is_empty (x ∷ xs) = false

-- true for 0, false for -1
unfoldable pub sr_fill : Reader → Bool × Reader
sr_fill r =
    let (got, rest) = fread chunk_size r.input in
    (not (is_empty got), record { buf = got; pos = 0; input = rest })

abbrev pub take_byte : Reader → Option ℕ × Reader
take_byte r = elim (get_elem? r.buf r.pos) [
  | none ↦ (none, r)
  | some b ↦ (some b, record { buf = r.buf; pos = r.pos + 1; input = r.input })
]

unfoldable pub sr_byte : Reader → Option ℕ × Reader
sr_byte r =
    if leb (length r.buf) r.pos
    then (let (filled, s) = sr_fill r in if filled then take_byte s else (none, s))
    else take_byte r

-- the shift at the head of `sr_peek`'s loop
abbrev pub shift : Reader → Reader
shift r = if ltb 0 r.pos then record { buf = drop r.pos r.buf; pos = 0; input = r.input } else r

-- the rest of a turn: false where `sr_peek` returns -1
pub refill : Reader → Bool × Reader
refill r =
    if length r.buf == chunk_size
    then (false, r)
    else (let (got, rest) = fread (chunk_size - length r.buf) r.input in
        (not (is_empty got), record { buf = r.buf ++ got; pos = r.pos; input = rest }))

-- the loop of `sr_peek`, on fuel
pub peek_loop : ℕ → ℕ → Reader → Bool × Reader
peek_loop zero n r = (false, r)
peek_loop (suc fuel) n r =
    let (more, s) = refill (shift r) in
    elim (ltb (length r.buf - r.pos) n) [
      | false ↦ (true, r)
      | true ↦ elim more [ false ↦ (false, s) | true ↦ peek_loop fuel n s ]
    ]

-- every turn adds a byte at least
pub sr_peek : ℕ → Reader → Bool × Reader
sr_peek n r = peek_loop (suc n) n r
