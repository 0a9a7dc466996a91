-- ===== src/Dav/Multipart/Bytes.antt =====
-- Reading byte by byte in dav-bridge/src/dav-bridge.c: what `sr_byte`, `sr_read_line` and
-- `sr_read_headers` consume.
use mathlib.Core.List.{append_assoc}
use openwrt_demo.Prelude.{
  ℕ, zero, suc, ◌+◌, ◌<◌, ◌≡◌, refl, sym, ap, subst, ◌∙◌, Bool, true, false, not, ◌||◌, Option,
  none, some, List, [], ◌∷◌, ◌++◌, inl, inr, leb, ◌==◌, if◌then◌else◌, Bool-cases, arith, length,
  drop, drop-drop, get_elem?, length-append, length-drop, All, append_nil,
}
use openwrt_demo.Dav.Reader.{
  Reader, window, fread, is_empty, sr_fill, sr_byte, chunk_size, take_byte,
}
use openwrt_demo.Dav.Reader.Peek.{unread, IsReader, joined, fread-lem}
use openwrt_demo.Dav.Multipart.{line_loop, ends_headers, headers_loop, reversed}

-- what a call that gives `v` leaves
abbrev pub Leaves {ℓ} : {A : Type ℓ} → Option A × Reader → A → List ℕ → Type ℓ
Leaves (got, r) v rest = (got ≡ some v) × (unread r ≡ rest) × IsReader r

get_elem?-drop :
    (xs : List ℕ) (i c : ℕ) (ys : List ℕ) → drop i xs ≡ c ∷ ys → get_elem? xs i ≡ some c
get_elem?-drop [] zero c ys h = cc
get_elem?-drop [] (suc i) c ys h = cc
get_elem?-drop (x ∷ xs) zero c ys h = cc
get_elem?-drop (x ∷ xs) (suc i) c ys h = get_elem?-drop xs i c ys h

-- The byte at `pos`.
take_byte-Leaves :
    (r : Reader) (c : ℕ) (cs rest : List ℕ)
    → IsReader r
    → window r ≡ c ∷ cs
    → cs ++ joined r.input ≡ rest
    → Leaves (take_byte r) c rest
unfolding IsReader
take_byte-Leaves r c cs rest wf h e =
    let here = get_elem?-drop r.buf r.pos c cs h in
    let behind : drop (r.pos + 1) r.buf ≡ cs =
      sym (drop-drop r.pos 1 (r.pos + 1) r.buf refl) ∙ ap (drop 1) h in
    let long : length (drop r.pos r.buf) ≡ suc (length cs) = ap length h in
    rw (here, take_byte)
      (
        refl,
        ap (λ t. t ++ joined r.input) behind ∙ e,
        (omega (arith, long, length-drop r.pos r.buf), wf.1, wf.2),
      )

cons-append :
    (xs ys : List ℕ) (c : ℕ) (rest : List ℕ)
    → xs ++ ys ≡ c ∷ rest
    → is_empty xs ≡ false
    → (cs : List ℕ) × (xs ≡ c ∷ cs) × (cs ++ ys ≡ rest)
cons-append [] ys c rest e h = cc
cons-append (x ∷ xs) ys c rest e h =
    let head : x ≡ c = cc in let tail : xs ++ ys ≡ rest = cc in (xs, ap (λ a. a ∷ xs) head, tail)

sr_byte-there : (r : Reader) → leb (length r.buf) r.pos ≡ false → sr_byte r ≡ take_byte r
unfolding sr_byte
sr_byte-there r h = rw h refl

sr_byte-fill :
    (r s : Reader)
    → leb (length r.buf) r.pos ≡ true
    → sr_fill r ≡ (true, s)
    → sr_byte r ≡ take_byte s
unfolding sr_byte
sr_byte-fill r s h e = rw h (ap (λ f. if f.0 then take_byte f.1 else (none, f.1)) e)

nil-length : (xs : List ℕ) → length xs ≡ 0 → xs ≡ []
nil-length [] h = refl
nil-length (x ∷ xs) h = absurd (omega arith)

not_empty : (xs : List ℕ) → 0 < length xs → is_empty xs ≡ false
not_empty [] h = absurd (omega arith)
not_empty (x ∷ xs) h = refl

-- The bytes of a new piece.
sr_fill-Leaves :
    (r : Reader) (c : ℕ) (rest : List ℕ)
    → IsReader r
    → joined r.input ≡ c ∷ rest
    → leb (length r.buf) r.pos ≡ true
    → Leaves (sr_byte r) c rest
unfolding IsReader sr_fill
sr_fill-Leaves r c rest wf e at_end =
    let (same, most, good, none_left) = fread-lem chunk_size r.input (omega arith) wf.2 in
    let (got, input) = fread chunk_size r.input in
    elim (Bool-cases (is_empty got)) [
      | inl nothing ↦ let bad : c ∷ rest ≡ [] = sym e ∙ none_left nothing in absurd cc
      | inr full ↦
          let s : Reader = record { buf = got; pos = 0; input = input } in
          let filled : sr_fill r ≡ (true, s) = ap (λ b. (not b, s)) full in
          let (cs, w, behind) = cons-append got (joined input) c rest (same ∙ e) full in
          subst (λ b. Leaves b c rest) (sym (sr_byte-fill r s at_end filled))
            (take_byte-Leaves s c cs rest (omega arith, most, good) w behind)
    ]

-- `sr_byte` gives the next byte that has not been read.
pub sr_byte-Leaves :
    (r : Reader) (c : ℕ) (rest : List ℕ)
    → IsReader r
    → unread r ≡ c ∷ rest
    → Leaves (sr_byte r) c rest
unfolding IsReader
sr_byte-Leaves r c rest wf e =
    let long = length-drop r.pos r.buf in
    elim (Bool-cases (leb (length r.buf) r.pos)) [
      | inr there ↦
          let full = not_empty (window r) (ground (arith, long)) in
          let (cs, w, behind) = cons-append (window r) (joined r.input) c rest e full in
          subst (λ b. Leaves b c rest) (sym (sr_byte-there r there))
            (take_byte-Leaves r c cs rest wf w behind)
      | inl at_end ↦
          let nothing : window r ≡ [] = nil-length (window r) (ground (arith, long)) in
          sr_fill-Leaves r c rest wf (sym (ap (λ w. w ++ joined r.input) nothing) ∙ e) at_end
    ]

-- the steps of the two loops
line_loop-byte :
    (fuel cap : ℕ) (line : List ℕ) (r : Reader) (b : ℕ)
    → (sr_byte r).0 ≡ some b
    → (b == 10) ≡ false
    → leb cap (length line + 1) ≡ false
    → line_loop (suc fuel) cap line r
      ≡ line_loop fuel cap (if b == 13 then line else line ++ (b ∷ [])) (sr_byte r).1
unfolding line_loop
line_loop-byte fuel cap line r b e other room = rw (e, line_loop) (rw (other, room) refl)

line_loop-end :
    (fuel cap : ℕ) (line : List ℕ) (r : Reader)
    → (sr_byte r).0 ≡ some 10
    → line_loop (suc fuel) cap line r ≡ (some line, (sr_byte r).1)
unfolding line_loop
line_loop-end fuel cap line r e = rw (e, line_loop) refl

headers_loop-byte :
    (fuel cap : ℕ) (back : List ℕ) (r : Reader) (b : ℕ)
    → (sr_byte r).0 ≡ some b
    → leb cap (length back + 1) ≡ false
    → ends_headers (b ∷ back) ≡ false
    → headers_loop (suc fuel) cap back r ≡ headers_loop fuel cap (b ∷ back) (sr_byte r).1
unfolding headers_loop
headers_loop-byte fuel cap back r b e room more = rw (e, headers_loop) (rw (room, more) refl)

headers_loop-end :
    (fuel cap : ℕ) (back : List ℕ) (r : Reader) (b : ℕ)
    → (sr_byte r).0 ≡ some b
    → leb cap (length back + 1) ≡ false
    → ends_headers (b ∷ back) ≡ true
    → headers_loop (suc fuel) cap back r ≡ (some (b ∷ back), (sr_byte r).1)
unfolding headers_loop
headers_loop-end fuel cap back r b e room done = rw (e, headers_loop) (rw (room, done) refl)

-- no byte of a line ends it or is dropped from it
abbrev pub is_text : ℕ → Bool
is_text c = not (c == 10 || c == 13)

pub line_loop-Leaves :
    (fuel cap : ℕ) (acc line rest : List ℕ) (r : Reader)
    → IsReader r
    → unread r ≡ line ++ (13 ∷ 10 ∷ rest)
    → All (λ c. is_text c ≡ true) line
    → length acc + length line + 1 < cap
    → length line + 1 < fuel
    → Leaves (line_loop fuel cap acc r) (acc ++ line) rest
line_loop-Leaves zero cap acc line rest r wf e text room enough = absurd (omega arith)
line_loop-Leaves (suc zero) cap acc line rest r wf e text room enough = absurd (omega arith)
line_loop-Leaves (suc (suc fuel)) cap acc [] rest r wf e text room enough =
    let (got, left, wf1) = sr_byte-Leaves r 13 (10 ∷ rest) wf e in
    let r1 = (sr_byte r).1 in
    let (got1, left1, wf2) = sr_byte-Leaves r1 10 rest wf1 left in
    let fits : leb cap (length acc + 1) ≡ false = ground (arith, room) in
    let turns =
      line_loop-byte (suc fuel) cap acc r 13 got refl fits ∙ line_loop-end fuel cap acc r1 got1 in
    subst (λ l. Leaves l (acc ++ []) rest) (sym turns) (ap some (sym (append_nil acc)), left1, wf2)
line_loop-Leaves (suc fuel) cap acc (c ∷ cs) rest r wf e text room enough =
    let (got, left, wf1) = sr_byte-Leaves r c (cs ++ (13 ∷ 10 ∷ rest)) wf e in
    let r1 = (sr_byte r).1 in
    let plain = text.0 in
    let other : (c == 10) ≡ false = ground (arith, plain) in
    let kept : (c == 13) ≡ false = ground (arith, plain) in
    let fits : leb cap (length acc + 1) ≡ false = ground (arith, room) in
    let turn =
      line_loop-byte fuel cap acc r c got other fits
      ∙ ap (λ b. line_loop fuel cap (if b then acc else acc ++ (c ∷ [])) r1) kept in
    let longer = length-append acc (c ∷ []) in
    subst (λ l. Leaves l (acc ++ (c ∷ cs)) rest) (sym turn)
      (subst (λ v. Leaves (line_loop fuel cap (acc ++ (c ∷ [])) r1) v rest)
        (append_assoc acc (c ∷ []) cs)
        (line_loop-Leaves fuel cap (acc ++ (c ∷ [])) cs rest r1 wf1 left text.1
          (omega (arith, room, longer)) (omega (arith, enough))))

-- The part's headers, with `back` in front of them: the blank line is at their end, and not before.
unfoldable pub IsHead : List ℕ → List ℕ → Type 0
IsHead back [] = Unit
IsHead back (b ∷ []) = ends_headers (b ∷ back) ≡ true
IsHead back (b ∷ c ∷ cs) = (ends_headers (b ∷ back) ≡ false) × IsHead (b ∷ back) (c ∷ cs)

pub headers_loop-Leaves :
    (fuel cap : ℕ) (back : List ℕ) (b : ℕ) (head rest : List ℕ) (r : Reader)
    → IsReader r
    → unread r ≡ (b ∷ head) ++ rest
    → IsHead back (b ∷ head)
    → length back + length (b ∷ head) < cap
    → length (b ∷ head) < fuel
    → Leaves (headers_loop fuel cap back r) (reversed (b ∷ head) back) rest
unfolding IsHead reversed
headers_loop-Leaves zero cap back b head rest r wf e h room enough = absurd (omega arith)
headers_loop-Leaves (suc fuel) cap back b [] rest r wf e h room enough =
    let (got, left, wf1) = sr_byte-Leaves r b rest wf e in
    let fits : leb cap (length back + 1) ≡ false = ground (arith, room) in
    subst (λ l. Leaves l (b ∷ back) rest) (sym (headers_loop-end fuel cap back r b got fits h))
      (refl, left, wf1)
headers_loop-Leaves (suc fuel) cap back b (c ∷ cs) rest r wf e (more, h) room enough =
    let (got, left, wf1) = sr_byte-Leaves r b ((c ∷ cs) ++ rest) wf e in
    let fits : leb cap (length back + 1) ≡ false = ground (arith, room) in
    subst (λ l. Leaves l (reversed (c ∷ cs) (b ∷ back)) rest)
      (sym (headers_loop-byte fuel cap back r b got fits more))
      (headers_loop-Leaves fuel cap (b ∷ back) c cs rest (sr_byte r).1 wf1 left h
        (omega (arith, room)) (omega (arith, enough)))
