-- ===== src/Shcmd/Slot/Template/Room.antt =====
-- The size of the buffer that `handle_client` of shcmd/src/shcmd.c allocates for a slot.
use openwrt_demo.Prelude.{
  ℕ, zero, suc, ◌+◌, ◌*◌, ◌≤◌, ◌<◌, ◌≡◌, refl, ap, ◌∙◌, Bool, true, false, List, [], ◌∷◌, ◌==◌,
  if◌then◌else◌, inl, inr, Bool-cases, arith, length, get_or, length-append,
}
use openwrt_demo.Shcmd.Slot.{quote_body, quoted, value_bytes, values_room, slot_cap}
use openwrt_demo.Shcmd.Slot.Template.{
  Piece, byte, value, piece_text, template_text, piece_value, expand, names, IsTemplate,
}

length-quote_body : (v : List ℕ) → length (quote_body v) ≤ length v * 4 + 1
unfolding quote_body
length-quote_body [] = omega arith
length-quote_body (c ∷ cs) =
    let rest = length-quote_body cs in
    elim (Bool-cases (c == b'\'')) [
      | inl is ↦ rw is (omega (arith, rest))
      | inr other ↦ rw other (omega (arith, rest))
    ]

length-value_bytes : (quotes : Bool) (v : List ℕ) → length (value_bytes quotes v) ≤ length v * 4 + 2
unfolding quoted
length-value_bytes true v = omega (arith, length-quote_body v)
length-value_bytes false v = omega arith

-- the room for the values that are named
budget : (ℕ → Bool) → List (List ℕ) → ℕ
budget f [] = 0
budget f (v ∷ vs) =
    let rest = budget (λ i. f (suc i)) vs in if f 0 then length v * 4 + 2 + rest else rest

budget-values_room : (f : ℕ → Bool) (vs : List (List ℕ)) → budget f vs ≤ values_room vs
unfolding budget values_room
budget-values_room f [] = omega arith
budget-values_room f (v ∷ vs) =
    let rest = budget-values_room (λ i. f (suc i)) vs in
    elim (Bool-cases (f 0)) [
      | inl is ↦ rw is (omega (arith, rest))
      | inr other ↦ rw other (omega (arith, rest))
    ]

suc_ne_zero : (j : ℕ) → (suc j == 0) ≡ false
suc_ne_zero j = ground arith

-- Another value that is named.
budget-insert :
    (f g : ℕ → Bool) (vs : List (List ℕ)) (i : ℕ)
    → i < length vs
    → f i ≡ false
    → g i ≡ true
    → ((j : ℕ) → (j == i) ≡ false → g j ≡ f j)
    → budget g vs ≡ length (get_or vs i []) * 4 + 2 + budget f vs
unfolding budget
budget-insert f g [] i h new there same = absurd (omega arith)
budget-insert f g (v ∷ vs) zero h new there same =
    let rest : budget (λ i. g (suc i)) vs ≡ budget (λ i. f (suc i)) vs =
      ap (λ k. budget k vs) (λ t j. same (suc j) (suc_ne_zero j) t) in
    rw (new, there) (omega (arith, rest))
budget-insert f g (v ∷ vs) (suc i) h new there same =
    let rest =
      budget-insert (λ j. f (suc j)) (λ j. g (suc j)) vs i (omega arith) new there
        (λ j ne. same (suc j) (ground arith)) in
    let head : g 0 ≡ f 0 = same 0 (ground arith) in
    elim (Bool-cases (f 0)) [
      | inl is ↦ let is' : g 0 ≡ true = head ∙ is in rw (is, is') (omega (arith, rest))
      | inr other ↦
          let other' : g 0 ≡ false = head ∙ other in rw (other, other') (omega (arith, rest))
    ]

-- The values of a template that names none twice.
length-expand :
    (extra : List (List ℕ)) (ps : List Piece)
    → IsTemplate extra ps
    → length (expand extra ps) ≤ length (template_text ps) + budget (names ps) extra
unfolding expand template_text piece_value piece_text IsTemplate names
length-expand extra [] h = omega arith
length-expand extra (byte c ∷ ps) (plain, h) = omega (arith, length-expand extra ps h)
length-expand extra (value quotes i ∷ ps) (small, given, once, h) =
    let rest = length-expand extra ps h in
    let more =
      budget-insert (names ps) (names (value quotes i ∷ ps)) extra i given once (ground arith)
        (λ j ne. rw ne refl) in
    let v = length-value_bytes quotes (get_or extra i []) in
    let parts = length-append (value_bytes quotes (get_or extra i [])) (expand extra ps) in
    let text = length-append (piece_text (value quotes i)) (template_text ps) in
    omega (arith, rest, more, v, parts, text)

-- The buffer is large enough for the expansion and its terminator.
pub slot_cap-expand :
    (extra : List (List ℕ)) (ps : List Piece)
    → IsTemplate extra ps
    → length (expand extra ps) < slot_cap (template_text ps) extra
unfolding slot_cap
slot_cap-expand extra ps h =
    omega (arith, length-expand extra ps h, budget-values_room (names ps) extra)
