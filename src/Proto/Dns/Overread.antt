-- ===== src/Proto/Dns/Overread.antt =====
-- A response whose answer is cut short after its name.
use openwrt_demo.Prelude.{
  ℕ, zero, suc, ◌+◌, ◌≤◌, ◌<◌, ◌≡◌, refl, true, false, ◌&&◌, ◌||◌, Option, none, some, List, [],
  ◌∷◌, inl, inr, ltb, leb, ◌==◌, Bool-cases, Option-cases, arith, ltb→lt, ltb→ge, length, get_elem?,
  replicate, Run, ok, fault, ◌>>=◌, read, read-lt, read_be16, read_be16-lt,
}
use openwrt_demo.Proto.Dns.{read_name, skip_questions, fall_back, answer, answers, parse_response}
use openwrt_demo.Proto.Dns.Position.{LabelsAt, read_name-end}

-- Reading two bytes of which the second lies past the end faults.
past : (d : List ℕ) (i : ℕ) → length d ≤ i → get_elem? d i ≡ none
past [] i h = refl
past (x ∷ xs) zero h = absurd (omega arith)
past (x ∷ xs) (suc i) h = past xs i (omega arith)

read_be16-past : (d : List ℕ) (i : ℕ) → length d ≤ i + 1 → read_be16 d i ≡ fault
read_be16-past d i h = elim (Option-cases (get_elem? d i)) [
  | inl out ↦ rw (out, read)
  | inr (a, here) ↦ rw (here, past d (i + 1) h, read)
]

-- With an empty question name the name of the answer stays as it was read.
fall_back-empty : (b : List ℕ) → 0 < length b → fall_back b (replicate 256 0) ≡ ok b
unfolding fall_back
fall_back-empty b h =
    let (first, e) = read-lt b 0 h in
    let no_name : (first == 0 && false) ≡ false = ground arith in rw (e, no_name)

late :
    {A : Type 0} (d : List ℕ) (p : ℕ) (f : ℕ → ℕ → Run A)
    → length d < p + 10
    → (read_be16 d p >>= λ a. read_be16 d (p + 8) >>= f a) ≡ fault
late d p f h = elim (Bool-cases (ltb (p + 1) (length d))) [
  | inl there ↦
      let (a, e) = read_be16-lt d p (ltb→lt _ _ there) in
      rw (e, read_be16-past d (p + 8) (omega arith))
  | inr out ↦ rw (read_be16-past d p (ltb→ge _ _ out))
]

answers-overread :
    (count : ℕ) (stack d : List ℕ) (most end k : ℕ)
    → length stack ≡ 256
    → 0 < most
    → 22 ≤ length d
    → LabelsAt d 12 k end
    → get_elem? d end ≡ some 0
    → 0 < k
    → k < 10
    → length d < end + 11
    → answers (suc count) d most (replicate 256 0) 12 stack [] ≡ fault
unfolding answers
answers-overread count stack d most end k hs pm len ls z p lt short =
    let enter : (ltb 12 (length d) && ltb 0 most && leb 22 (length d)) ≡ true = ground arith in
    let (r, e, (at, same)) = read_name-end d 12 end k stack (omega (arith, hs)) ls z p lt in
    rw enter (cut_short r e at same)
  where
    cut_short :
        (r : Option ℕ × List ℕ)
        → read_name d 12 stack ≡ ok r
        → r.0 ≡ some (end + 1)
        → length r.1 ≡ length stack
        → (read_name d 12 stack
            >>= answer d (replicate 256 0) [] (answers count d most (replicate 256 0)))
          ≡ fault
    cut_short (next, b) e at same =
        rw (e, at, answer, fall_back-empty b (omega (arith, same, hs)))
          (late d (end + 1) _ (omega arith))

-- In a response with no question, whose first answer has a name of one to nine plain labels and
-- then less than the ten bytes of type, class, time and length, the parser reads past the end of
-- the packet, although ten bytes were there from the name's start on.
pub parse_response-overread :
    (stack d : List ℕ) (most flags count end k : ℕ)
    → length stack ≡ 256
    → 0 < most
    → read_be16 d 2 ≡ ok flags
    → 0x8000 ≤ flags
    → read_be16 d 4 ≡ ok 0
    → read_be16 d 6 ≡ ok count
    → 0 < count
    → 22 ≤ length d
    → LabelsAt d 12 k end
    → get_elem? d end ≡ some 0
    → 0 < k
    → k < 10
    → length d < end + 11
    → parse_response stack d most ≡ fault
unfolding parse_response skip_questions
parse_response-overread stack d most flags zero end k hs pm ef fl eq ec pc len ls z p lt short =
    absurd (omega arith)
parse_response-overread stack d most flags (suc c) end k hs pm ef fl eq ec pc len ls z p lt short =
    let enter : (ltb (length d) 12 || most == 0) ≡ false = ground arith in
    let response : (ltb flags 0x8000 || suc c == 0) ≡ false = ground arith in
    rw (enter, ef, eq, ec, response)
      (answers-overread c stack d most end k hs pm len ls z p lt short)
