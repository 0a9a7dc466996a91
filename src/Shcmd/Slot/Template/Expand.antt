-- ===== src/Shcmd/Slot/Template/Expand.antt =====
-- What the substitution of shcmd/src/shcmd.c makes of a template.
use openwrt_demo.Prelude.{
  ℕ, zero, suc, ◌+◌, ◌-◌, ◌≤◌, ◌<◌, ◌≡◌, refl, ap, ◌∙◌, Bool, true, false, some, List, [], ◌∷◌,
  ◌==◌, ltb, arith, length, get_or, get_elem?, drop, length-append,
}
use openwrt_demo.Shcmd.Slot.{
  value_bytes, place, place_at, is_digit, skip, slot, put, turn, slot_loop, build_slot, slot_cap,
}
use openwrt_demo.Shcmd.Slot.Template.{
  Piece, byte, value, piece_text, template_text, piece_value, expand, has_value, IsTemplate,
}
use openwrt_demo.Shcmd.Slot.Template.Room.{slot_cap-expand}

slot_loop-step :
    (fuel : ℕ) (extra : List (List ℕ)) (room c : ℕ) (cs bytes : List ℕ) (used : Bool) (n : ℕ)
    → turn extra (c ∷ cs) (place_at (c ∷ cs)) ≡ some (bytes, used, n)
    → length bytes ≤ room
    → n ≤ length (c ∷ cs)
    → slot_loop (suc fuel) extra room (c ∷ cs)
      ≡ put bytes used (slot_loop fuel extra (room - length bytes) (drop n (c ∷ cs)))
unfolding slot_loop
slot_loop-step fuel extra room c cs bytes used n e h k =
    let fits : ltb room (length bytes) ≡ false = ground arith in
    let within : ltb (length (c ∷ cs)) n ≡ false = ground arith in
    rw (e, slot_loop) (rw fits (rw within refl))

get_elem?-get_or :
    (xs : List (List ℕ)) (i : ℕ) → i < length xs → get_elem? xs i ≡ some (get_or xs i [])
get_elem?-get_or [] i h = absurd (omega arith)
get_elem?-get_or (x ∷ xs) zero h = refl
get_elem?-get_or (x ∷ xs) (suc i) h = get_elem?-get_or xs i (omega arith)

turn-byte :
    (extra : List (List ℕ)) (c : ℕ) (cs : List ℕ)
    → (c == b'{') ≡ false
    → turn extra (c ∷ cs) (place_at (c ∷ cs)) ≡ some (c ∷ [], false, 1)
unfolding turn place_at
turn-byte extra c cs h = rw h refl

turn-place :
    (extra : List (List ℕ)) (p : List ℕ) (quotes : Bool) (i : ℕ)
    → i < length extra
    → turn extra p (place quotes (b'1' + i))
      ≡ some (value_bytes quotes (get_or extra i []), true, skip quotes)
unfolding turn
turn-place extra p quotes i h =
    let nonzero : (b'1' + i == b'0') ≡ false = ground arith in
    let index : b'1' + i - b'1' ≡ i = omega arith in
    rw nonzero (rw (index, get_elem?-get_or extra i h) refl)

place_at-quoted :
    (i : ℕ) (rest : List ℕ)
    → i < 9
    → place_at (b'{' ∷ b's' ∷ b'a' ∷ (b'1' + i) ∷ b'}' ∷ rest) ≡ place true (b'1' + i)
unfolding place_at
place_at-quoted i rest h = let digit : is_digit (b'1' + i) ≡ true = ground arith in rw digit refl

place_at-plain :
    (i : ℕ) (rest : List ℕ)
    → i < 9
    → place_at (b'{' ∷ b'a' ∷ (b'1' + i) ∷ b'}' ∷ rest) ≡ place false (b'1' + i)
unfolding place_at
place_at-plain i rest h = let digit : is_digit (b'1' + i) ≡ true = ground arith in rw digit refl

slot_loop-expand :
    (fuel room : ℕ) (extra : List (List ℕ)) (ps : List Piece)
    → IsTemplate extra ps
    → length (template_text ps) < fuel
    → length (expand extra ps) < room
    → slot_loop fuel extra room (template_text ps) ≡ slot (expand extra ps) (has_value ps)
unfolding slot_loop expand template_text has_value IsTemplate piece_text piece_value put
slot_loop-expand zero room extra ps h enough fits = absurd (omega arith)
slot_loop-expand (suc fuel) room extra [] h enough fits =
    let some_room : (room == 0) ≡ false = ground arith in rw some_room refl
slot_loop-expand (suc fuel) room extra (byte c ∷ ps) (plain, h) enough fits =
    slot_loop-step fuel extra room c (template_text ps) (c ∷ []) false 1
      (turn-byte extra c (template_text ps) plain) (omega (arith, fits)) (omega arith)
    ∙ ap (put (c ∷ []) false)
        (slot_loop-expand fuel (room - 1) extra ps h (omega (arith, enough)) (omega (arith, fits)))
slot_loop-expand (suc fuel) room extra (value true i ∷ ps) (small, given, once, h) enough fits =
    let v = value_bytes true (get_or extra i []) in
    let parts = length-append v (expand extra ps) in
    slot_loop-step fuel extra room b'{' (b's' ∷ b'a' ∷ (b'1' + i) ∷ b'}' ∷ template_text ps) v true
      5
      (ap (turn extra (b'{' ∷ b's' ∷ b'a' ∷ (b'1' + i) ∷ b'}' ∷ template_text ps))
          (place_at-quoted i (template_text ps) small)
        ∙ turn-place extra (b'{' ∷ b's' ∷ b'a' ∷ (b'1' + i) ∷ b'}' ∷ template_text ps) true i given)
      (omega (arith, fits, parts)) (omega arith)
    ∙ ap (put v true) (
        slot_loop-expand fuel (room - length v) extra ps h (omega (arith, enough))
          (omega (arith, fits, parts)))
slot_loop-expand (suc fuel) room extra (value false i ∷ ps) (small, given, once, h) enough fits =
    let v = value_bytes false (get_or extra i []) in
    let parts = length-append v (expand extra ps) in
    slot_loop-step fuel extra room b'{' (b'a' ∷ (b'1' + i) ∷ b'}' ∷ template_text ps) v true 4
      (ap (turn extra (b'{' ∷ b'a' ∷ (b'1' + i) ∷ b'}' ∷ template_text ps))
          (place_at-plain i (template_text ps) small)
        ∙ turn-place extra (b'{' ∷ b'a' ∷ (b'1' + i) ∷ b'}' ∷ template_text ps) false i given)
      (omega (arith, fits, parts)) (omega arith)
    ∙ ap (put v true) (
        slot_loop-expand fuel (room - length v) extra ps h (omega (arith, enough))
          (omega (arith, fits, parts)))

-- A slot that is a template, with every placeholder's value given and none named twice, is built
-- without an access out of the buffer's bounds, and becomes the template with the values put in,
-- each between single quotes where the placeholder says so.
pub build_slot-expand :
    (extra : List (List ℕ)) (ps : List Piece)
    → IsTemplate extra ps
    → build_slot (template_text ps) extra ≡ slot (expand extra ps) (has_value ps)
unfolding build_slot
build_slot-expand extra ps h =
    slot_loop-expand (suc (length (template_text ps))) (slot_cap (template_text ps) extra) extra ps
      h (omega arith) (slot_cap-expand extra ps h)
