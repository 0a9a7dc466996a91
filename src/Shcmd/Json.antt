-- ===== src/Shcmd/Json.antt =====
-- `json_escape` of shcmd/src/shcmd.c, which writes a command's output into the JSON response.
pub mod Read
pub mod Text
use openwrt_demo.Prelude.{
  ℕ, ◌+◌, ◌-◌, ◌/◌, ◌%◌, List, [], ◌∷◌, ◌++◌, ltb, ◌==◌, if◌then◌else◌, length,
}

-- a digit of %x
unfoldable pub lower_digit : ℕ → ℕ
lower_digit d = if ltb d 10 then b'0' + d else b'a' + (d - 10)

-- what a byte is written as
unfoldable pub escape_byte : ℕ → List ℕ
escape_byte c =
    if c == b'"'
    then b'\\' ∷ b'"' ∷ []
    else if c == b'\\'
    then b'\\' ∷ b'\\' ∷ []
    else if c == 10
    then b'\\' ∷ b'n' ∷ []
    else if c == 13
    then b'\\' ∷ b'r' ∷ []
    else if c == 9
    then b'\\' ∷ b't' ∷ []
    else if ltb c 32
    then b'\\' ∷ b'u' ∷ b'0' ∷ b'0' ∷ lower_digit (c / 16) ∷ lower_digit (c % 16) ∷ []
    else c ∷ []

-- the loop, with `o` bytes written
pub escape_loop : ℕ → ℕ → List ℕ → List ℕ
escape_loop outlen o [] = []
escape_loop outlen o (c ∷ cs) =
    let bytes = escape_byte c in
    let rest = escape_loop outlen (o + length bytes) cs in
    if ltb (o + 8) outlen then bytes ++ rest else []

pub json_escape : List ℕ → ℕ → List ℕ
json_escape text outlen = escape_loop outlen 0 text
