-- ===== src/Shcmd/Slot.antt =====
-- How `handle_client` of shcmd/src/shcmd.c puts a caller's values into one slot of a command: the
-- loop over the slot's text. The buffer is a number of bytes that there is still room for.
pub mod Quote
pub mod Template
use openwrt_demo.Prelude.{
  ℕ, zero, suc, ◌+◌, ◌-◌, ◌*◌, Bool, true, false, ◌&&◌, Option, none, some, List, [], ◌∷◌, ◌++◌,
  ltb, leb, ◌==◌, if◌then◌else◌, length, drop, get_or, get_elem?,
}

-- the bytes that a value becomes between single quotes, with the quote behind them
unfoldable pub quote_body : List ℕ → List ℕ
quote_body [] = b'\'' ∷ []
quote_body (c ∷ cs) =
    let rest = quote_body cs in
    if c == b'\'' then b'\'' ∷ b'\\' ∷ b'\'' ∷ b'\'' ∷ rest else c ∷ rest

unfoldable pub quoted : List ℕ → List ℕ
quoted v = b'\'' ∷ quote_body v

abbrev pub is_digit : ℕ → Bool
is_digit c = leb b'0' c && leb c b'9'

-- a placeholder: whether it quotes, and its digit
pub data Place : Type 0 where
  literal : Place
  place : Bool → ℕ → Place

unfoldable pub place_at : List ℕ → Place
place_at p =
    if get_or p 0 0 == b'{'
      && get_or p 1 0 == b's'
      && get_or p 2 0 == b'a'
      && is_digit (get_or p 3 0)
    then place true (get_or p 3 0)
    else if get_or p 0 0 == b'{' && get_or p 1 0 == b'a' && is_digit (get_or p 2 0)
    then place false (get_or p 2 0)
    else literal

abbrev pub skip : Bool → ℕ
skip true = 5
skip false = 4

-- the slot and whether a placeholder was used, the reply 400, or an access out of bounds
pub data Slot : Type 0 where
  slot : List ℕ → Bool → Slot
  missing_argument : Slot
  overrun : Slot

-- bytes that are written in front of what the rest of the loop writes
unfoldable pub put : List ℕ → Bool → Slot → Slot
put bytes used (slot out later) = slot (bytes ++ out) (if used then true else later)
put bytes used missing_argument = missing_argument
put bytes used overrun = overrun

abbrev pub value_bytes : Bool → List ℕ → List ℕ
value_bytes true v = quoted v
value_bytes false v = v

-- One turn: what it writes and whether that is a value, and how far it goes; none for the reply 400.
-- An index of -1, from the digit 0, is no placeholder.
unfoldable pub turn : List (List ℕ) → List ℕ → Place → Option (List ℕ × Bool × ℕ)
turn extra p literal = some (get_or p 0 0 ∷ [], false, 1)
turn extra p (place quotes digit) =
    if digit == b'0'
    then some (get_or p 0 0 ∷ [], false, 1)
    else elim (get_elem? extra (digit - b'1')) [
      | none ↦ none
      | some v ↦ some (value_bytes quotes v, true, skip quotes)
    ]

-- The loop, on fuel. `room` is cap - o.
unfoldable pub slot_loop : ℕ → List (List ℕ) → ℕ → List ℕ → Slot
slot_loop zero extra room p = overrun
slot_loop (suc fuel) extra room [] = if room == 0 then overrun else slot [] false
slot_loop (suc fuel) extra room (c ∷ cs) = elim (turn extra (c ∷ cs) (place_at (c ∷ cs))) [
  | none ↦ missing_argument
  | some (bytes, used, n) ↦
      let rest = slot_loop fuel extra (room - length bytes) (drop n (c ∷ cs)) in
      if ltb room (length bytes)
      then overrun
      else if ltb (length (c ∷ cs)) n
      then overrun
      else put bytes used rest
]

-- cap
unfoldable pub values_room : List (List ℕ) → ℕ
values_room [] = 0
values_room (v ∷ vs) = length v * 4 + 8 + values_room vs

unfoldable pub slot_cap : List ℕ → List (List ℕ) → ℕ
slot_cap src extra = length src + 1 + values_room extra

-- Every turn goes over one byte at least.
unfoldable pub build_slot : List ℕ → List (List ℕ) → Slot
build_slot src extra = slot_loop (suc (length src)) extra (slot_cap src extra) src
