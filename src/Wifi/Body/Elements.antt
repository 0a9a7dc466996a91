-- ===== src/Wifi/Body/Elements.antt =====
-- The loop over a body's bytes against the elements that the bytes are written from.
use openwrt_demo.Wifi.Body.{Probe, clip_ssid, rate_count, store, element, elements, parse_body}
use mathlib.Core.List.{append_assoc}
use openwrt_demo.Prelude.{
  ℕ, zero, suc, ◌+◌, ◌-◌, ◌≤◌, ◌≡◌, refl, sym, ap, ◌∙◌, true, false, ◌||◌, some, List, [], ◌∷◌,
  ◌++◌, inl, inr, ltb, leb, ◌==◌, if◌then◌else◌, Bool-cases, arith, le→leb, gt→leb, ltb→ge, ge→ltb,
  length, length-append, take, drop, take_all, take-append-le, ok, read, read_block,
}

-- the bytes of elements: the number, the length, the value
abbrev pub encode : List (ℕ × List ℕ) → List ℕ
encode [] = []
encode ((id, value) ∷ es) = (id ∷ length value ∷ value) ++ encode es

-- An element 0 is the name, of which 255 bytes are kept; the elements 1 and 50 are rates, of which
-- 32 in all are kept.
abbrev pub keep : ℕ → List ℕ → Probe → Probe
keep id value p =
    if id == 0
    then record p { ssid = take 255 value; ssid_broadcast = length value == 0 || p.ssid_broadcast }
    else if id == 1 || id == 50
    then record p { rates = p.rates ++ take (32 - length p.rates) value }
    else p

abbrev pub said : List (ℕ × List ℕ) → Probe → Probe
said [] p = p
said ((id, value) ∷ es) p = said es (keep id value p)

read-append : (pre xs : List ℕ) (x : ℕ) → read (pre ++ x ∷ xs) (length pre) ≡ ok x
read-append [] xs x = refl
read-append (y ∷ pre) xs x = read-append pre xs x

drop-length : (pre xs : List ℕ) → drop (length pre) (pre ++ xs) ≡ xs
drop-length [] xs = refl
drop-length (y ∷ pre) xs = drop-length pre xs

read_block-append :
    (pre value rest : List ℕ) (n : ℕ)
    → n ≤ length value
    → read_block (pre ++ (value ++ rest)) (length pre) n ≡ ok (take n value)
read_block-append pre value rest n le =
    let inside : ltb (length (pre ++ (value ++ rest))) (length pre + n) ≡ false =
      ge→ltb _ _ (omega (arith, length-append pre (value ++ rest), length-append value rest)) in
    rw inside
      (ap ok (ap (take n) (drop-length pre (value ++ rest)) ∙ take-append-le n value rest le))

-- A count that is clipped to what there is takes as much as one that is not.
take-clip :
    (m : ℕ) (value : List ℕ)
    → take (if ltb m (length value) then m else length value) value ≡ take m value
take-clip m value = elim (Bool-cases (ltb m (length value))) [
  | inl less ↦ rw less refl
  | inr all ↦
      rw all (take_all (length value) value (omega arith) ∙ sym (take_all m value (ltb→ge _ _ all)))
]

store-keep :
    (body pre value rest : List ℕ) (id : ℕ) (p : Probe)
    → body ≡ pre ++ (value ++ rest)
    → store body id (length value) (length pre) p ≡ ok (keep id value p)
unfolding store
store-keep body pre value rest id p e = rw e (elim (Bool-cases (id == 0)) [
  | inl name ↦
      let inside : clip_ssid (length value) ≤ length value = ground arith in
      rw (name, read_block-append pre value rest (clip_ssid (length value)) inside)
        (ap
          (λ s. ok (record p { ssid = s; ssid_broadcast = length value == 0 || p.ssid_broadcast }))
          (take-clip 255 value))
  | inr other ↦ elim (Bool-cases (id == 1 || id == 50)) [
    | inr unknown ↦ rw (other, unknown) refl
    | inl rates ↦
        let count = rate_count (length p.rates) (length value) in
        let inside : count ≤ length value = ground arith in
        rw (other, rates, read_block-append pre value rest count inside)
          (ap (λ s. ok (record p { rates = p.rates ++ s })) (take-clip (32 - length p.rates) value))
  ]
])

elements-said :
    (fuel : ℕ) (es : List (ℕ × List ℕ)) (body pre : List ℕ) (off : ℕ) (p : Probe)
    → body ≡ pre ++ encode es
    → off ≡ length pre
    → length (encode es) ≤ fuel
    → elements fuel body off p ≡ ok (said es p)
unfolding elements element
elements-said zero [] body pre off p e o le = refl
elements-said (suc fuel) [] body pre off p e o le =
    let whole : length body ≡ off = ap length e ∙ omega (arith, length-append pre [], o) in
    let end : leb (off + 2) (length body) ≡ false = gt→leb _ _ (omega (arith, whole)) in
    rw (end, elements) refl
elements-said zero ((id, value) ∷ es) body pre off p e o le = absurd (omega arith)
elements-said (suc fuel) ((id, value) ∷ es) body pre off p e o le =
    let rest = encode es in
    let size : length body ≡ length pre + (2 + length value + length rest) =
      ap length e
      ∙ omega (
        arith,
        length-append pre ((id ∷ length value ∷ value) ++ rest),
        length-append value rest,
      ) in
    let more : leb (off + 2) (length body) ≡ true = le→leb _ _ (omega (arith, size, o)) in
    let fst : read body off ≡ ok id =
      ap (read body) o
      ∙ ap (λ b. read b (length pre)) e
      ∙ read-append pre (length value ∷ value ++ rest) id in
    let second : body ≡ (pre ++ id ∷ []) ++ (length value ∷ value ++ rest) =
      e ∙ sym (append_assoc pre (id ∷ []) (length value ∷ value ++ rest)) in
    let next : off + 1 ≡ length (pre ++ id ∷ []) = omega (arith, length-append pre (id ∷ []), o) in
    let len : read body (off + 1) ≡ ok (length value) =
      ap (read body) next
      ∙ ap (λ b. read b (length (pre ++ id ∷ []))) second
      ∙ read-append (pre ++ id ∷ []) (value ++ rest) (length value) in
    let uncut : ltb (length body) (off + 2 + length value) ≡ false =
      ge→ltb _ _ (omega (arith, size, o)) in
    let third : body ≡ (pre ++ id ∷ length value ∷ []) ++ (value ++ rest) =
      e ∙ sym (append_assoc pre (id ∷ length value ∷ []) (value ++ rest)) in
    let there : off + 2 ≡ length (pre ++ id ∷ length value ∷ []) =
      omega (arith, length-append pre (id ∷ length value ∷ []), o) in
    let stored : store body id (length value) (off + 2) p ≡ ok (keep id value p) =
      ap (λ o. store body id (length value) o p) there
      ∙ store-keep body (pre ++ id ∷ length value ∷ []) value rest id p third in
    rw (more, elements, fst, len, uncut, stored)
      (elements-said fuel es body (pre ++ id ∷ length value ∷ value) (off + 2 + length value)
        (keep id value p) (e ∙ sym (append_assoc pre (id ∷ length value ∷ value) rest))
        (omega (arith, length-append pre (id ∷ length value ∷ value), o))
        (omega (arith, le, length-append value rest)))

-- A body of four bytes and whole elements is parsed into what its elements say one after the other,
-- whatever elements these are.
pub parse_body-said :
    (a b c d subtype : ℕ) (es : List (ℕ × List ℕ))
    → parse_body ((a ∷ b ∷ c ∷ d ∷ []) ++ encode es) subtype
      ≡ ok (
          some (
            said es
              (record { ssid = []; ssid_broadcast = false; is_beacon = subtype == 8; rates = [] })))
unfolding parse_body
parse_body-said a b c d subtype es =
    let body = (a ∷ b ∷ c ∷ d ∷ []) ++ encode es in
    let long : ltb (length body) 4 ≡ false = ge→ltb _ _ (omega arith) in
    rw
      (
        long,
        elements-said (length body) es body (a ∷ b ∷ c ∷ d ∷ []) 4
            (record { ssid = []; ssid_broadcast = false; is_beacon = subtype == 8; rates = [] })
            refl (omega arith) (omega arith),
      )
      refl
