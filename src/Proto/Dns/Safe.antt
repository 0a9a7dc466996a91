-- ===== src/Proto/Dns/Safe.antt =====
-- `dns_read_name` and `proto_dns_parse_query` stay inside their buffers, whatever the packet holds.
use mathlib.Core.Option.{some-injective}
use openwrt_demo.Prelude.{
  ℕ, zero, suc, ◌+◌, ◌-◌, ◌*◌, ◌%◌, ◌^◌, ◌≤◌, ◌<◌, ◌≡◌, refl, Bool, true, false, ◌||◌, Option, none,
  some, List, [], ◌∷◌, inl, inr, ltb, leb, ◌==◌, if◌then◌else◌, Bool-cases, arith, ltb→lt, ltb→ge,
  leb→gt, ◌∙◌, length, set, length-set, Run, ok, ◌>>=◌, Returns, Returns-bind, read, read-lt,
  read_be16-lt, write, read_string,
}
use openwrt_demo.Proto.Dns.{
  Name, put, put_dot, copy_label, Round, go_on, stop, bad, jump, label, round, rounds, finish,
  read_name, questions, parse_query, is_pointer,
}

-- The buffer has `size` bytes, and the next free one lies in it.
pub record NameIsValid (size : ℕ) (n : Name) : Type 0 where
  pub size_eq : length n.buf ≡ size
  pub room : n.buf_pos < size

pub write-lt : (xs : List ℕ) (i v : ℕ) → i < length xs → write xs i v ≡ ok (set xs i v)
write-lt xs i v h = ground arith

pub put-IsValid :
    (size c : ℕ) (n : Name) → NameIsValid size n → Returns (put size c n) (NameIsValid size)
unfolding put
put-IsValid size c n v = elim (Bool-cases (ltb n.buf_pos (size - 1))) [
  | inr full ↦ rw full (n, refl, v)
  | inl free ↦
      rw (free, write-lt n.buf n.buf_pos c (omega (arith, v.size_eq, v.room)))
        (
          record n { buf = set n.buf n.buf_pos c; buf_pos = n.buf_pos + 1 },
          refl,
          record {
            size_eq = omega (arith, length-set n.buf n.buf_pos c, v.size_eq);
            room = omega (arith, ltb→lt _ _ free);
          },
        )
]

pub put_dot-IsValid :
    (size : ℕ) (n : Name) → NameIsValid size n → Returns (put_dot size n) (NameIsValid size)
unfolding put_dot
put_dot-IsValid size n v = elim (Bool-cases (ltb 0 n.buf_pos)) [
  | inl more ↦ rw more (put-IsValid size b'.' n v)
  | inr first ↦ rw first (n, refl, v)
]

pub copy_label-IsValid :
    (k : ℕ) (d : List ℕ) (size : ℕ) (n : Name)
    → NameIsValid size n
    → Returns (copy_label d size k n) (NameIsValid size)
unfolding copy_label
copy_label-IsValid zero d size n v = (n, refl, v)
copy_label-IsValid (suc k) d size n v = elim (Bool-cases (ltb n.pos (length d))) [
  | inr end ↦ rw end (n, refl, v)
  | inl more ↦
      let (c, e) = read-lt d n.pos (ltb→lt _ _ more) in
      let (m, p, w) = put-IsValid size c n v in
      rw (more, e, p)
        (copy_label-IsValid k d size (record m { pos = n.pos + 1 })
          (record { size_eq = w.size_eq; room = w.room }))
]

abbrev RoundIsValid : ℕ → Round → Type 0
RoundIsValid size (go_on m) = NameIsValid size m
RoundIsValid size (stop m) = NameIsValid size m
RoundIsValid size (bad m) = NameIsValid size m

jump-IsValid :
    (d : List ℕ) (size label_len : ℕ) (n : Name)
    → NameIsValid size n
    → Returns (jump d label_len n) (RoundIsValid size)
unfolding jump
jump-IsValid d size label_len n v = elim (Bool-cases (ltb (length d) (n.pos + 2))) [
  | inl short ↦ rw short (bad n, refl, v)
  | inr long ↦
      let (low, e) = read-lt d (n.pos + 1) (omega (arith, ltb→ge _ _ long)) in
      rw (long, e)
        (elim (Bool-cases (leb (length d % 2 ^ 16) (label_len % 64 * 256 + low))) [
          | inl far ↦ rw far (bad n, refl, v)
          | inr near ↦ rw near (_, refl, record { size_eq = v.size_eq; room = v.room })
        ])
]

label-IsValid :
    (d : List ℕ) (size label_len : ℕ) (n : Name)
    → NameIsValid size n
    → Returns (label d size label_len n) (RoundIsValid size)
unfolding label
label-IsValid d size label_len n v =
    elim (Bool-cases (ltb 63 label_len || ltb (length d) (n.pos + 1 + label_len))) [
      | inl long ↦ rw long (bad n, refl, v)
      | inr fits ↦
          let (dotted, e, w) = put_dot-IsValid size n v in
          let (m, p, x) =
            copy_label-IsValid label_len d size (record dotted { pos = n.pos + 1 })
              (record { size_eq = w.size_eq; room = w.room }) in
          rw (fits, e, p) (go_on m, refl, x)
    ]

round-IsValid :
    (d : List ℕ) (size : ℕ) (n : Name)
    → NameIsValid size n
    → Returns (round d size n) (RoundIsValid size)
unfolding round
round-IsValid d size n v = elim (Bool-cases (leb (length d) n.pos)) [
  | inl end ↦ rw end (bad n, refl, v)
  | inr more ↦
      let (label_len, e) = read-lt d n.pos (leb→gt _ _ more) in
      rw (more, e)
        (elim (Bool-cases (label_len == 0)) [
          | inl last ↦ rw last (_, refl, record { size_eq = v.size_eq; room = v.room })
          | inr there ↦ rw there (elim (Bool-cases (is_pointer label_len)) [
            | inl pointer ↦ rw pointer (jump-IsValid d size label_len n v)
            | inr plain ↦ rw plain (label-IsValid d size label_len n v)
          ])
        ])
]

rounds-IsValid :
    (max_jumps : ℕ) (d : List ℕ) (size : ℕ) (n : Name)
    → NameIsValid size n
    → Returns (rounds max_jumps d size n) (λ r. NameIsValid size r.1)
unfolding rounds
rounds-IsValid zero d size n v = ((true, n), refl, v)
rounds-IsValid (suc k) d size n v =
    Returns-bind (round d size n) _ (RoundIsValid size) (λ r. NameIsValid size r.1)
      (round-IsValid d size n v)
      (elim [
        | go_on m ↦ λ w. rounds-IsValid k d size m w
        | stop m ↦ λ w. ((true, m), refl, w)
        | bad m ↦ λ w. ((false, m), refl, w)
      ])

pub finish-size :
    (size : ℕ) (n : Name) → NameIsValid size n → Returns (finish size n) (λ r. length r.1 ≡ size)
unfolding finish
finish-size size n v =
    rw
      (write-lt n.buf (if ltb n.buf_pos size then n.buf_pos else size - 1) 0
        (ground (arith, v.room, v.size_eq)))
      (_, refl, length-set n.buf (if ltb n.buf_pos size then n.buf_pos else size - 1) 0 ∙ v.size_eq)

-- Whatever the packet and the offset, `dns_read_name` reads inside the packet and writes inside a
-- buffer that has a byte at least, and it returns after ten rounds at most.
read_name-safe :
    (d : List ℕ) (offset : ℕ) (buf : List ℕ)
    → 0 < length buf
    → Returns (read_name d offset buf) (λ r. length r.1 ≡ length buf)
unfolding read_name
read_name-safe d offset buf h =
    let ((fine, n), e, v) =
      rounds-IsValid 10 d (length buf)
        (record { pos = offset; buf = buf; buf_pos = 0; jumped = false; return_pos = 0 })
        (record { size_eq = refl; room = h }) in
    rw e (outcome fine n v)
  where
    outcome :
        (fine : Bool) (n : Name)
        → NameIsValid (length buf) n
        → Returns
            (if fine then finish (length buf) n else ok (none, n.buf))
            (λ r. length r.1 ≡ length buf)
    outcome true n v = finish-size (length buf) n v
    outcome false n v = ((none, n.buf), refl, v.size_eq)

questions-safe :
    (count : ℕ) (d : List ℕ) (pos : ℕ) (buf : List ℕ)
    → 0 < length buf
    → Returns (questions count d pos buf) (λ b. length b ≡ length buf)
unfolding questions
questions-safe zero d pos buf h = (buf, refl, refl)
questions-safe (suc count) d pos buf h = elim (Bool-cases (ltb pos (length d))) [
  | inr end ↦ rw end (buf, refl, refl)
  | inl more ↦
      let ((next, b), e, same) = read_name-safe d pos buf h in
      rw (more, e)
        (after next b same (λ p.
          let (r, q, w) = questions-safe count d (p + 4) b (omega (arith, same)) in
          (r, q, w ∙ same)))
]
  where
    after :
        (next : Option ℕ) (b : List ℕ)
        → length b ≡ length buf
        → ((p : ℕ) → Returns (questions count d (p + 4) b) (λ c. length c ≡ length buf))
        → Returns
            (elim next [
              | none ↦ ok b
              | some p ↦ if ltb (length d) (p + 4) then ok b else questions count d (p + 4) b
            ])
            (λ c. length c ≡ length buf)
    after none b same k = (b, refl, same)
    after (some p) b same k = elim (Bool-cases (ltb (length d) (p + 4))) [
      | inl end ↦ rw end (b, refl, same)
      | inr more ↦ rw more (k p)
    ]

read_string-safe :
    (n : ℕ) (xs : List ℕ) → n ≤ length xs → Returns (read_string n xs) (λ s. length s ≤ n)
unfolding read_string
read_string-safe zero xs h = ([], refl, omega arith)
read_string-safe (suc n) [] h = absurd (omega arith)
read_string-safe (suc n) (x ∷ xs) h = elim (Bool-cases (x == 0)) [
  | inl end ↦ rw (end, read_string) ([], refl, omega arith)
  | inr more ↦
      let (s, e, le) = read_string-safe n xs (omega arith) in
      rw (more, read_string, e) (x ∷ s, refl, omega arith)
]

-- the end of `parse_query`
abbrev copied : ℕ → List ℕ → ℕ → Run (Option (List ℕ))
copied name_len b first =
    if first == 0 then ok none else (read_string (name_len - 1) b >>= λ name. ok (some name))

copied-safe :
    (name_len : ℕ) (b : List ℕ) (first : ℕ)
    → 0 < name_len
    → name_len ≤ length b + 1
    → Returns (copied name_len b first) (λ r. (s : List ℕ) → r ≡ some s → length s < name_len)
copied-safe name_len b first p m = elim (Bool-cases (first == 0)) [
  | inl empty ↦ rw empty (none, refl, λ s e. cc)
  | inr there ↦
      let (s, e, le) = read_string-safe (name_len - 1) b (omega arith) in
      rw (there, e) (some s, refl, λ t q. rw (← some-injective _ _ q) (omega arith))
]

name_of :
    (stack : List ℕ) (name_len : ℕ) (b : List ℕ)
    → length stack ≡ 256
    → 0 < name_len
    → name_len ≤ 257
    → length b ≡ length (set stack 0 0)
    → Returns
        (read b 0 >>= copied name_len b)
        (λ r. (s : List ℕ) → r ≡ some s → length s < name_len)
name_of stack name_len b h p m same =
    let (first, e) = read-lt b 0 (omega (arith, same, length-set stack 0 0, h)) in
    rw e (copied-safe name_len b first p (omega (arith, same, length-set stack 0 0)))

-- Whatever the packet holds, `proto_dns_parse_query` reads and writes inside its buffers, and what
-- it copies fits the caller's buffer with its terminator, if that has 257 bytes at most.
pub parse_query-safe :
    (stack d : List ℕ) (name_len : ℕ)
    → length stack ≡ 256
    → 0 < name_len
    → name_len ≤ 257
    → Returns (parse_query stack d name_len) (λ r. (s : List ℕ) → r ≡ some s → length s < name_len)
unfolding parse_query
parse_query-safe stack d name_len h p m = elim (Bool-cases (ltb (length d) 12 || name_len == 0)) [
  | inl short ↦ rw short (none, refl, λ s e. cc)
  | inr long ↦
      let (flags, ef) = read_be16-lt d 2 (ground arith) in
      let (count, ec) = read_be16-lt d 4 (ground arith) in
      rw (long, ef, ec)
        (elim (Bool-cases (leb 0x8000 flags || count == 0)) [
          | inl other ↦ rw other (none, refl, λ s e. cc)
          | inr query ↦
              let (b, eb, same) =
                questions-safe count d 12 (set stack 0 0) (omega (arith, length-set stack 0 0)) in
              rw (query, eb) (name_of stack name_len b h p m same)
        ])
]
