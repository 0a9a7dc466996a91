-- ===== src/Wol/Magic.antt =====
-- `parse_magic` against `build_magic`.
use mathlib.Core.Option.{some-injective}
use openwrt_demo.Wol.{wol_pkt_len, repeats, parse_magic, copies, build_magic}
use openwrt_demo.Prelude.{
  drop-drop, take_split, and_true, ℕ, zero, suc, ◌+◌, ◌*◌, ◌≤◌, ◌≡◌, ◌↔◌, refl, sym, ap, ap₂, ◌∙◌,
  true, some, List, [], ◌∷◌, ◌++◌, inl, inr, ltb, Bool-cases, arith, length, take, drop, replicate,
  length-append, length-take, take-append, take_all, take-take, take-drop-take, same_bytes,
  same_bytes_refl, same_bytes-eq, ge→ltb,
}

drop-append_exact : (xs ys : List ℕ) (n : ℕ) → n ≡ length xs → drop n (xs ++ ys) ≡ ys
drop-append_exact [] ys zero e = refl
drop-append_exact [] ys (suc n) e = absurd (omega arith)
drop-append_exact (x ∷ xs) ys zero e = absurd (omega arith)
drop-append_exact (x ∷ xs) ys (suc n) e = drop-append_exact xs ys n (omega arith)

length-copies : (n : ℕ) (mac : List ℕ) → length mac ≡ 6 → length (copies n mac) ≡ n * 6
unfolding copies
length-copies zero mac h = refl
length-copies (suc n) mac h =
    omega (arith, length-append mac (copies n mac), length-copies n mac h, h)

-- What the loop of comparisons finds: the repeats stand one behind the other.
repeats→copies :
    (n i : ℕ) (buf mac : List ℕ)
    → repeats n i buf mac ≡ true
    → take (n * 6) (drop (6 + i * 6) buf) ≡ copies n mac
unfolding repeats copies
repeats→copies zero i buf mac h = refl
repeats→copies (suc n) i buf mac h =
    let (here, later) = and_true _ _ h in
    take_split 6 (n * 6) (suc n * 6) (drop (6 + i * 6) buf) (omega arith)
    ∙ ap₂ (λ a b. a ++ b) (same_bytes-eq _ _ here)
        (ap (take (n * 6)) (drop-drop (6 + i * 6) 6 (6 + (i + 1) * 6) buf (omega arith))
          ∙ repeats→copies n (i + 1) buf mac later)

copies→repeats :
    (n i : ℕ) (buf mac : List ℕ)
    → length mac ≡ 6
    → take (n * 6) (drop (6 + i * 6) buf) ≡ copies n mac
    → repeats n i buf mac ≡ true
unfolding repeats copies
copies→repeats zero i buf mac l h = refl
copies→repeats (suc n) i buf mac l h =
    let rest = drop (6 + i * 6) buf in
    let here : take 6 rest ≡ mac =
      sym (take-take 6 (suc n * 6) rest (omega arith))
      ∙ ap (take 6) h
      ∙ take-append mac (copies n mac) 6 (omega arith) in
    let later : take (n * 6) (drop (6 + (i + 1) * 6) buf) ≡ copies n mac =
      sym (ap (take (n * 6)) (drop-drop (6 + i * 6) 6 (6 + (i + 1) * 6) buf (omega arith)))
      ∙ sym (take-drop-take 6 (n * 6) (suc n * 6) rest (omega arith))
      ∙ ap (λ t. take (n * 6) (drop 6 t)) h
      ∙ ap (take (n * 6)) (drop-append_exact mac (copies n mac) 6 (omega arith))
      ∙ take_all (n * 6) (copies n mac) (omega (arith, length-copies n mac l)) in
    rw (here, same_bytes_refl mac) (copies→repeats n (i + 1) buf mac l later)

length-build_magic : (mac : List ℕ) → length mac ≡ 6 → length (build_magic mac) ≡ 102
unfolding build_magic
length-build_magic mac h =
    omega (arith, length-append (replicate 6 0xff) (copies 16 mac), length-copies 16 mac h)

-- What stands behind the first `k` bytes of a magic packet.
behind :
    (k n : ℕ) (buf mac rest : List ℕ)
    → k + n ≡ 102
    → take 102 buf ≡ build_magic mac
    → drop k (build_magic mac) ≡ rest
    → take n rest ≡ rest
    → take n (drop k buf) ≡ rest
behind k n buf mac rest s h d t =
    sym (take-drop-take k n 102 buf (omega arith))
    ∙ ap (λ x. take n (drop k x)) h
    ∙ ap (take n) d
    ∙ t

parts :
    (buf mac : List ℕ)
    → length mac ≡ 6
    → take 102 buf ≡ build_magic mac
    → (102 ≤ length buf) × (take 6 buf ≡ replicate 6 0xff) × (take 96 (drop 6 buf) ≡ copies 16 mac)
unfolding build_magic
parts buf mac l h =
    let n : length (take 102 buf) ≡ 102 = ap length h ∙ length-build_magic mac l in
    (
      omega (arith, n, length-take 102 buf),
      sym (take-take 6 102 buf (omega arith))
          ∙ ap (take 6) h
          ∙ take-append (replicate 6 0xff) (copies 16 mac) 6 refl,
      behind 6 96 buf mac (copies 16 mac) refl h
          (drop-append_exact (replicate 6 0xff) (copies 16 mac) 6 refl)
          (take_all 96 (copies 16 mac) (omega (arith, length-copies 16 mac l))),
    )

back :
    (buf mac : List ℕ)
    → length mac ≡ 6
    → take wol_pkt_len buf ≡ build_magic mac
    → parse_magic buf ≡ some mac
unfolding parse_magic copies
back buf mac l h =
    let (long, sync, all) = parts buf mac l h in
    let mac_at : take 6 (drop 6 buf) ≡ mac =
      sym (take-take 6 96 (drop 6 buf) (omega arith))
      ∙ ap (take 6) all
      ∙ take-append mac (copies 15 mac) 6 (omega arith) in
    let later : take (15 * 6) (drop (6 + 1 * 6) buf) ≡ copies 15 mac =
      sym (ap (take 90) (drop-drop 6 6 12 buf refl))
      ∙ sym (take-drop-take 6 90 96 (drop 6 buf) refl)
      ∙ ap (λ t. take 90 (drop 6 t)) all
      ∙ ap (take 90) (drop-append_exact mac (copies 15 mac) 6 (omega arith))
      ∙ take_all 90 (copies 15 mac) (omega (arith, length-copies 15 mac l)) in
    let enough = ge→ltb (length buf) 102 long in
    rw (enough, sync, mac_at, copies→repeats 15 1 buf mac l later) refl

pub parse_magic-copies :
    (buf mac : List ℕ) → parse_magic buf ≡ some mac → take wol_pkt_len buf ≡ build_magic mac
unfolding parse_magic build_magic copies
parse_magic-copies buf mac = elim (Bool-cases (ltb (length buf) 102)) [
  | inl short ↦ rw short (λ e. cc)
  | inr long ↦ elim (Bool-cases (same_bytes (take 6 buf) (replicate 6 0xff))) [
    | inr bad ↦ rw (long, bad) (λ e. cc)
    | inl sync ↦ elim (Bool-cases (repeats 15 1 buf (take 6 (drop 6 buf)))) [
      | inr differs ↦ rw (long, sync, differs) (λ e. cc)
      | inl same ↦
          let mac' = take 6 (drop 6 buf) in
          let whole : take 102 buf ≡ build_magic mac' =
            take_split 6 96 102 buf refl
            ∙ ap₂ (λ a b. a ++ b) (same_bytes-eq _ _ sync)
                (take_split 6 90 96 (drop 6 buf) refl
                  ∙ ap (λ t. mac' ++ t)
                      (ap (take 90) (drop-drop 6 6 12 buf refl)
                        ∙ repeats→copies 15 1 buf mac' same)) in
          rw (long, sync, same) (λ e. whole ∙ ap build_magic (some-injective _ _ e))
    ]
  ]
]

-- `parse_magic` finds the address in exactly those packets that begin with what `build_magic`
-- writes for it.
pub parse_magic-build_magic :
    (buf mac : List ℕ)
    → length mac ≡ 6
    → (parse_magic buf ≡ some mac) ↔ (take wol_pkt_len buf ≡ build_magic mac)
parse_magic-build_magic buf mac l = (parse_magic-copies buf mac, back buf mac l)
