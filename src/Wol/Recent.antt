-- ===== src/Wol/Recent.antt =====
-- `dup_check`: a packet that was let through is known for the next seconds.
use openwrt_demo.Wol.{DupEntry, dup_window_secs, is_dup, dup_scan, dup_record, dup_check}
use openwrt_demo.Prelude.{
  ℕ, zero, suc, ◌+◌, ◌<◌, ◌≡◌, refl, ap, ◌∙◌, true, false, Option, none, some, List, [], ◌∷◌, inl,
  inr, ltb, Bool-cases, arith, length, get_elem?, set, same_bytes_refl, get_elem?-set_self,
}
use mathlib.Core.Option.{some-injective}

-- An entry that matches ends the loop, wherever it stands.
dup_scan_hit :
    (src : ℕ) (mac : List ℕ) (now : ℕ) (es : List DupEntry) (i k oldest oldest_t : ℕ) (e : DupEntry)
    → get_elem? es k ≡ some e
    → is_dup src mac now e ≡ true
    → dup_scan src mac now es i oldest oldest_t ≡ none
unfolding dup_scan
dup_scan_hit src mac now [] i k oldest oldest_t e g d = cc
dup_scan_hit src mac now (x ∷ es) i zero oldest oldest_t e g d =
    let here : is_dup src mac now x ≡ true = ap (is_dup src mac now) (some-injective _ _ g) ∙ d in
    rw here refl
dup_scan_hit src mac now (x ∷ es) i (suc k) oldest oldest_t e g d =
    elim (Bool-cases (is_dup src mac now x)) [
      | inl here ↦ rw here refl
      | inr other ↦ elim (Bool-cases (ltb x.seen oldest_t)) [
        | inl older ↦ rw (other, older) (dup_scan_hit src mac now es (i + 1) k i x.seen e g d)
        | inr newer ↦
            rw (other, newer) (dup_scan_hit src mac now es (i + 1) k oldest oldest_t e g d)
      ]
    ]

-- The oldest entry is one of the table.
dup_scan-lt :
    (src : ℕ) (mac : List ℕ) (now : ℕ) (es : List DupEntry) (i oldest oldest_t k : ℕ)
    → dup_scan src mac now es i oldest oldest_t ≡ some k
    → oldest < i + length es
    → k < i + length es
unfolding dup_scan
dup_scan-lt src mac now [] i oldest oldest_t k = λ e h. omega (arith, some-injective _ _ e)
dup_scan-lt src mac now (x ∷ es) i oldest oldest_t k = elim (Bool-cases (is_dup src mac now x)) [
  | inl here ↦ rw here (λ e h. cc)
  | inr other ↦ elim (Bool-cases (ltb x.seen oldest_t)) [
    | inl older ↦
        rw (other, older)
          (λ e h. omega (arith, dup_scan-lt src mac now es (i + 1) i x.seen k e (omega arith)))
    | inr newer ↦
        rw (other, newer)
          (λ e h.
            omega (arith, dup_scan-lt src mac now es (i + 1) oldest oldest_t k e (omega arith)))
  ]
]

dup_check_known :
    (tab : List DupEntry) (src : ℕ) (mac : List ℕ) (now k : ℕ) (e : DupEntry)
    → get_elem? tab k ≡ some e
    → is_dup src mac now e ≡ true
    → (dup_check tab src mac now).0 ≡ true
unfolding dup_check dup_record
dup_check_known [] src mac now k e g d = cc
dup_check_known (x ∷ es) src mac now k e g d =
    rw (dup_scan_hit src mac now (x ∷ es) 0 k 0 x.seen e g d) refl

fresh_is_dup :
    (src : ℕ) (mac : List ℕ) (now later : ℕ)
    → 0 < now
    → later < now + dup_window_secs
    → is_dup src mac later (record { src = src; mac = mac; seen = now }) ≡ true
unfolding is_dup
fresh_is_dup src mac now later h lt = ground (arith, same_bytes_refl mac)

-- What is recorded is known.
recorded :
    (tab : List DupEntry) (src : ℕ) (mac : List ℕ) (now later : ℕ) (r : Option ℕ)
    → 0 < now
    → later < now + dup_window_secs
    → ((k : ℕ) → r ≡ some k → k < length tab)
    → (dup_record tab src mac now r).0 ≡ false
    → (dup_check (dup_record tab src mac now r).1 src mac later).0 ≡ true
unfolding dup_record
recorded tab src mac now later none h lt b e = cc
recorded tab src mac now later (some k) h lt b e =
    dup_check_known (set tab k (record { src = src; mac = mac; seen = now })) src mac later k _
      (get_elem?-set_self tab k _ (b k refl)) (fresh_is_dup src mac now later h lt)

-- A packet that `dup_check` lets through is a duplicate for five seconds from then on, also if the
-- clock goes back.
pub dup_check-again :
    (tab : List DupEntry) (src : ℕ) (mac : List ℕ) (now later : ℕ)
    → 0 < length tab
    → 0 < now
    → later < now + dup_window_secs
    → (dup_check tab src mac now).0 ≡ false
    → (dup_check (dup_check tab src mac now).1 src mac later).0 ≡ true
unfolding dup_check
dup_check-again [] src mac now later n h lt e = absurd (omega arith)
dup_check-again (x ∷ es) src mac now later n h lt e =
    recorded (x ∷ es) src mac now later (dup_scan src mac now (x ∷ es) 0 0 x.seen) h lt
      (λ k q. omega (arith, dup_scan-lt src mac now (x ∷ es) 0 0 x.seen k q (omega arith))) e
