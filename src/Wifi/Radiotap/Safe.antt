-- ===== src/Wifi/Radiotap/Safe.antt =====
-- The accesses of `wp_radiotap_parse` are in range.
use openwrt_demo.Wifi.{read_le16-lt, read_le32-lt}
use openwrt_demo.Wifi.Radiotap.{
  Radiotap, or_fail, rsize, bit, present, take_field, aligned, field, bits, fields, nothing,
  enumerate, parse,
}
use openwrt_demo.Prelude.{
  ℕ, zero, suc, ◌+◌, ◌*◌, ◌%◌, ◌^◌, ◌≤◌, ◌≡◌, refl, subst, not, ◌||◌, Option, none, some, List, [],
  ◌∷◌, ◌++◌, inl, inr, ltb, ◌==◌, Bool-cases, arith, ==→eq, ltb→ge, length, get_or, Run, ok,
  read-lt,
}

-- the computation meets no fault
abbrev pub Runs : {A : Type 0} → Run A → Type 0
Runs {A} m = (a : A) × (m ≡ ok a)

or_fail-Runs :
    {A B : Type 0} (m : Run (Option A)) (k : A → Run (Option B))
    → Runs m
    → ((a : A) → Runs (k a))
    → Runs (or_fail m k)
or_fail-Runs m k (none, e) h = rw e (none, refl)
or_fail-Runs m k (some a, e) h = rw e (h a)

present-Runs :
    (left : ℕ) (d : List ℕ) (rlen off cur : ℕ) (pw : List ℕ)
    → rlen ≤ length d
    → Runs (present left d rlen off cur pw)
unfolding present
present-Runs zero d rlen off cur pw le = elim (Bool-cases (bit cur 31)) [
  | inl more ↦ rw more (none, refl)
  | inr end ↦ rw end (some (pw, off), refl)
]
present-Runs (suc left) d rlen off cur pw le = elim (Bool-cases (bit cur 31)) [
  | inr end ↦ rw end (some (pw, off), refl)
  | inl more ↦ elim (Bool-cases (ltb rlen (off + 4))) [
    | inl short ↦ rw (more, short) (none, refl)
    | inr room ↦
        let (next, e) = read_le32-lt d off (omega (arith, ltb→ge _ _ room, le)) in
        rw (more, room, e) (present-Runs left d rlen (off + 4) next (pw ++ next ∷ []) le)
  ]
]

take_field-Runs :
    (d : List ℕ) (idx off : ℕ) (rt : Radiotap)
    → off + get_or rsize idx 0 ≤ length d
    → Runs (take_field d idx off rt)
unfolding take_field
take_field-Runs d idx off rt le = elim (Bool-cases (idx == 2)) [
  | inl two ↦
      let room : off + get_or rsize 2 0 ≤ length d =
        subst (λ i. off + get_or rsize i 0 ≤ length d) (==→eq _ _ two) le in
      let (b, e) = read-lt d off (omega (arith, room)) in rw (two, e) (_, refl)
  | inr not_two ↦ elim (Bool-cases (idx == 3)) [
    | inl three ↦
        let room : off + get_or rsize 3 0 ≤ length d =
          subst (λ i. off + get_or rsize i 0 ≤ length d) (==→eq _ _ three) le in
        let (v, e) = read_le16-lt d off (omega (arith, room)) in rw (not_two, three, e) (_, refl)
    | inr not_three ↦ elim (Bool-cases (idx == 5)) [
      | inl five ↦
          let room : off + get_or rsize 5 0 ≤ length d =
            subst (λ i. off + get_or rsize i 0 ≤ length d) (==→eq _ _ five) le in
          let (b, e) = read-lt d off (omega (arith, room)) in
          rw (not_two, not_three, five, e) (_, refl)
      | inr not_five ↦ rw (not_two, not_three, not_five) (rt, refl)
    ]
  ]
]

field-Runs :
    (d : List ℕ) (rlen idx off : ℕ) (rt : Radiotap)
    → rlen ≤ length d
    → Runs (field d rlen idx off rt)
unfolding field
field-Runs d rlen idx off rt le = elim (Bool-cases (ltb idx 32)) [
  | inr beyond ↦ rw beyond (some (off, rt), refl)
  | inl known ↦ elim (Bool-cases (ltb rlen (aligned idx off + get_or rsize idx 0))) [
    | inl short ↦ rw (known, short) (none, refl)
    | inr room ↦
        let (next, e) =
          take_field-Runs d idx (aligned idx off) rt (omega (arith, ltb→ge _ _ room, le)) in
        rw (known, room, e) (_, refl)
  ]
]

bits-Runs :
    (n : ℕ) (d : List ℕ) (rlen w word b off : ℕ) (rt : Radiotap)
    → rlen ≤ length d
    → Runs (bits n d rlen w word b off rt)
unfolding bits
bits-Runs zero d rlen w word b off rt le = (some (off, rt), refl)
bits-Runs (suc n) d rlen w word b off rt le = elim (Bool-cases (b == 31 || not (bit word b))) [
  | inl skip ↦ rw (skip, bits) (bits-Runs n d rlen w word (b + 1) off rt le)
  | inr there ↦
      rw (there, bits)
        (or_fail-Runs (field d rlen (w * 32 + b) off rt)
          (λ next. bits n d rlen w word (b + 1) next.0 next.1)
          (field-Runs d rlen (w * 32 + b) off rt le)
          (λ next. bits-Runs n d rlen w word (b + 1) next.0 next.1 le))
]

fields-Runs :
    (pw d : List ℕ) (rlen w off : ℕ) (rt : Radiotap)
    → rlen ≤ length d
    → Runs (fields pw d rlen w off rt)
unfolding fields
fields-Runs [] d rlen w off rt le = (some rt, refl)
fields-Runs (word ∷ pw) d rlen w off rt le =
    or_fail-Runs (bits 32 d rlen w word 0 off rt) (λ next. fields pw d rlen (w + 1) next.0 next.1)
      (bits-Runs 32 d rlen w word 0 off rt le)
      (λ next. fields-Runs pw d rlen (w + 1) next.0 next.1 le)

enumerate-Runs :
    (d : List ℕ) (rlen : ℕ) (words : Option (List ℕ × ℕ))
    → rlen ≤ length d
    → Runs (enumerate d rlen words)
unfolding enumerate
enumerate-Runs d rlen none le = (none, refl)
enumerate-Runs d rlen (some (pw, off)) le = fields-Runs pw d rlen 0 off nothing le

-- The parser of the radiotap header makes no access out of range.
pub parse-Runs : (d : List ℕ) (len : ℕ) → len ≤ length d → Runs (parse d len)
unfolding parse
parse-Runs d len le = elim (Bool-cases (ltb len 8)) [
  | inl short ↦ rw short (none, refl)
  | inr long ↦
      let eight = ltb→ge _ _ long in
      let (rlen, e) = read_le16-lt d 2 (omega (arith, eight, le)) in
      elim (Bool-cases (ltb (len % 2 ^ 16) rlen || ltb rlen 8)) [
        | inl bad ↦ rw (long, e, bad) (none, refl)
        | inr good ↦
            let inside : rlen ≤ length d = ground (arith, good, le) in
            let (cur, f) = read_le32-lt d 4 (omega (arith, eight, le)) in
            let (words, g) = present-Runs 7 d rlen 8 cur (cur ∷ []) inside in
            rw (long, e, good, f, g) (enumerate-Runs d rlen words inside)
      ]
]
