-- ===== src/Shcmd/Slot/Template.antt =====
-- The slots of a command of shcmd/src/shcmd.c as templates: bytes and placeholders.
mod Room
pub mod Expand
use openwrt_demo.Prelude.{
  ℕ, zero, suc, ◌+◌, ◌*◌, ◌≤◌, ◌<◌, ◌≡◌, Bool, true, false, not, ◌&&◌, ◌||◌, List, [], ◌∷◌, ◌++◌,
  ◌==◌, length, get_or,
}
use openwrt_demo.Shcmd.Slot.{value_bytes}

-- a byte of the script, or a placeholder, `{saN}` where it quotes, for the value of an index from 0
pub data Piece : Type 0 where
  byte : ℕ → Piece
  value : Bool → ℕ → Piece

-- the text of a placeholder
unfoldable pub piece_text : Piece → List ℕ
piece_text (byte c) = c ∷ []
piece_text (value true i) = b'{' ∷ b's' ∷ b'a' ∷ (b'1' + i) ∷ b'}' ∷ []
piece_text (value false i) = b'{' ∷ b'a' ∷ (b'1' + i) ∷ b'}' ∷ []

unfoldable pub template_text : List Piece → List ℕ
template_text [] = []
template_text (p ∷ ps) = piece_text p ++ template_text ps

unfoldable pub piece_value : List (List ℕ) → Piece → List ℕ
piece_value extra (byte c) = c ∷ []
piece_value extra (value quotes i) = value_bytes quotes (get_or extra i [])

-- what a template stands for, the values put in
unfoldable pub expand : List (List ℕ) → List Piece → List ℕ
expand extra [] = []
expand extra (p ∷ ps) = piece_value extra p ++ expand extra ps

unfoldable pub has_value : List Piece → Bool
has_value [] = false
has_value (byte c ∷ ps) = has_value ps
has_value (value quotes i ∷ ps) = true

-- the template names the value
unfoldable pub names : List Piece → ℕ → Bool
names [] i = false
names (byte c ∷ ps) i = names ps i
names (value quotes j ∷ ps) i = i == j || names ps i

-- A byte is no brace, the caller gave the value of every placeholder, among the first nine, and no
-- two placeholders name the same value.
unfoldable pub IsTemplate : List (List ℕ) → List Piece → Type 0
IsTemplate extra [] = Unit
IsTemplate extra (byte c ∷ ps) = ((c == b'{') ≡ false) × IsTemplate extra ps
IsTemplate extra (value quotes i ∷ ps) =
    (i < 9) × (i < length extra) × (names ps i ≡ false) × IsTemplate extra ps
