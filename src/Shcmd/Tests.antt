-- ===== src/Shcmd/Tests.antt =====
-- A value with quotes, a template, a token, and an output.
use openwrt_demo.Prelude.{
  ℕ, ◌≤◌, ◌<◌, ◌≡◌, refl, true, false, some, ◌⊎◌, ◌+◌, List, [], ◌∷◌, ◌++◌, arith, length, take,
  bytes_of, same_bytes,
}
use openwrt_demo.Shcmd.Access.{ct_equal}
use openwrt_demo.Shcmd.Access.Equal.{ct_equal-same_bytes}
use openwrt_demo.Shcmd.Json.{json_escape}
use openwrt_demo.Shcmd.Json.Text.{plain, read_json}
use openwrt_demo.Shcmd.Json.Read.{json_escape-take}
use openwrt_demo.Shcmd.Slot.{
  slot, overrun, build_slot, slot_loop, slot_cap, values_room, turn, place_at, put, quoted,
  quote_body,
}
use openwrt_demo.Shcmd.Slot.Quote.{unquoted, shell_word, quoted-shell_word}
use openwrt_demo.Shcmd.Slot.Template.{
  Piece, byte, value, template_text, expand, has_value, names, IsTemplate,
}
use openwrt_demo.Shcmd.Slot.Template.Expand.{build_slot-expand}

-- it's; rm -rf /
abbrev hostile : List ℕ
hostile = bytes_of "it's; rm -rf /"

quoted-shell_word_example : shell_word unquoted (quoted hostile ++ bytes_of " | wc") ≡ (
  hostile ++ (shell_word unquoted (bytes_of " | wc")).0,
  (shell_word unquoted (bytes_of " | wc")).1,
)
quoted-shell_word_example = quoted-shell_word hostile (bytes_of " | wc")

-- x {sa1} {a2}
abbrev template : List Piece
template = byte b'x' ∷ byte b' ' ∷ value true 0 ∷ byte b' ' ∷ value false 1 ∷ []

abbrev extra : List (List ℕ)
extra = hostile ∷ bytes_of "7" ∷ []

template-IsTemplate : IsTemplate extra template
unfolding IsTemplate names
template-IsTemplate = ground arith

build_slot-expand_example :
    build_slot (template_text template) extra ≡ slot (expand extra template) (has_value template)
build_slot-expand_example = build_slot-expand extra template template-IsTemplate

-- Two placeholders for one value of quotes need more than the buffer has.
twice :
    build_slot
      (bytes_of "{sa1}{sa1}")
      ((b'\'' ∷ b'\'' ∷ b'\'' ∷ b'\'' ∷ b'\'' ∷ b'\'' ∷ b'\'' ∷ []) ∷ [])
    ≡ overrun
unfolding build_slot slot_loop slot_cap values_room turn place_at put quoted quote_body
twice = refl

ct_equal-same_bytes_example :
    ct_equal (bytes_of "abc") (bytes_of "abd") ≡ same_bytes (bytes_of "abc") (bytes_of "abd")
ct_equal-same_bytes_example =
    ct_equal-same_bytes (bytes_of "abc") (bytes_of "abd") (ground arith) (ground arith)

json_escape-take_example :
    (length (json_escape (bytes_of "a\"b") 12) < 12)
    × ((k : ℕ) × (k ≤ length (bytes_of "a\"b"))
        × (read_json plain (json_escape (bytes_of "a\"b") 12) ≡ some (take k (bytes_of "a\"b")))
        × ((k ≡ length (bytes_of "a\"b")) ⊎ (12 ≤ length (json_escape (bytes_of "a\"b") 12) + 8)))
json_escape-take_example = json_escape-take (bytes_of "a\"b") 12 (omega arith)
