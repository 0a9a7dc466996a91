-- ===== src/Proto/Dns/Position.antt =====
-- The position that `dns_read_name` returns for a name with no compression pointer.
use openwrt_demo.Prelude.{
  get_elem?-bound, ℕ, zero, suc, ◌+◌, ◌-◌, ◌≤◌, ◌<◌, ◌≡◌, refl, subst, sym, ap, ◌∙◌, Bool, true,
  false, ◌||◌, none, some, List, inl, inr, ltb, leb, ◌==◌, if◌then◌else◌, Bool-cases, arith, ltb→lt,
  ltb→ge, gt→leb, lt→ltb, length, get_elem?, set, length-set, ok, Returns, read, read-lt,
}
use openwrt_demo.Proto.Dns.{
  Name, put, put_dot, copy_label, Round, go_on, label, round, rounds, finish, read_name, is_pointer,
}
use openwrt_demo.Proto.Dns.Safe.{NameIsValid, write-lt}

-- From `pos` on the packet has `k` labels of 1 to 63 bytes, and `end` is the position after them.
abbrev pub LabelsAt : List ℕ → ℕ → ℕ → ℕ → Type 0
LabelsAt d pos zero end = pos ≡ end
LabelsAt d pos (suc k) end =
    (l : ℕ) × (get_elem? d pos ≡ some l)
    × (0 < l)
    × (l ≤ 63)
    × (pos + 1 + l ≤ length d)
    × LabelsAt d (pos + 1 + l) k end

-- What a copied byte or label leaves of the state, and that something is in the buffer then.
record Moved (size at : ℕ) (n m : Name) : Type 0 where
  valid : NameIsValid size m
  pos : m.pos ≡ at
  jumped : m.jumped ≡ n.jumped
  return_pos : m.return_pos ≡ n.return_pos
  grows : n.buf_pos ≤ m.buf_pos

-- A byte that is put finds room where the buffer has two bytes or more.
record Put (size : ℕ) (n m : Name) : Type 0 where
  moved : Moved size n.pos n m
  filled : 1 < size → 0 < m.buf_pos

put-Put : (size c : ℕ) (n : Name) → NameIsValid size n → Returns (put size c n) (Put size n)
unfolding put
put-Put size c n v = elim (Bool-cases (ltb n.buf_pos (size - 1))) [
  | inr full ↦ rw full (
    n,
    refl,
    record {
      moved = record {
        valid = v;
        pos = refl;
        jumped = refl;
        return_pos = refl;
        grows = omega arith;
      };
      filled = λ h. omega (arith, ltb→ge _ _ full);
    },
  )
  | inl free ↦
      rw (free, write-lt n.buf n.buf_pos c (omega (arith, v.size_eq, v.room)))
        (
          record n { buf = set n.buf n.buf_pos c; buf_pos = n.buf_pos + 1 },
          refl,
          record {
            moved = record {
              valid = record {
                size_eq = omega (arith, length-set n.buf n.buf_pos c, v.size_eq);
                room = omega (arith, ltb→lt _ _ free);
              };
              pos = refl;
              jumped = refl;
              return_pos = refl;
              grows = omega arith;
            };
            filled = λ h. omega arith;
          },
        )
]

record Copied (size k : ℕ) (n m : Name) : Type 0 where
  moved : Moved size (n.pos + k) n m
  filled : 1 < size → 0 < k → 0 < m.buf_pos

copy_label-Copied :
    (k : ℕ) (d : List ℕ) (size : ℕ) (n : Name)
    → NameIsValid size n
    → n.pos + k ≤ length d
    → Returns (copy_label d size k n) (Copied size k n)
unfolding copy_label
copy_label-Copied zero d size n v h = (
  n,
  refl,
  record {
    moved = record {
      valid = v;
      pos = omega arith;
      jumped = refl;
      return_pos = refl;
      grows = omega arith;
    };
    filled = λ h p. absurd (omega arith);
  },
)
copy_label-Copied (suc k) d size n v h =
    let (c, e) = read-lt d n.pos (omega arith) in
    let (m, p, w) = put-Put size c n v in
    let (o, q, x) =
      copy_label-Copied k d size (record m { pos = n.pos + 1 })
        (record { size_eq = w.moved.valid.size_eq; room = w.moved.valid.room }) (omega arith) in
    let more : ltb n.pos (length d) ≡ true = lt→ltb _ _ (omega arith) in
    rw (more, e, p)
      (
        o,
        q,
        record {
          moved = record {
            valid = x.moved.valid;
            pos = x.moved.pos ∙ omega arith;
            jumped = x.moved.jumped ∙ w.moved.jumped;
            return_pos = x.moved.return_pos ∙ w.moved.return_pos;
            grows = omega (arith, x.moved.grows, w.moved.grows);
          };
          filled = λ h p. omega (arith, w.filled h, x.moved.grows);
        },
      )

-- What a round at a label leaves.
record Labelled (size at : ℕ) (n : Name) (r : Round) : Type 0 where
  next : Name
  goes : r ≡ go_on next
  moved : Moved size at n next
  filled : 0 < next.buf_pos

put_dot-Moved :
    (size : ℕ) (n : Name) → NameIsValid size n → Returns (put_dot size n) (Moved size n.pos n)
unfolding put_dot
put_dot-Moved size n v = elim (Bool-cases (ltb 0 n.buf_pos)) [
  | inl more ↦ let (m, e, p) = put-Put size b'.' n v in rw more (m, e, p.moved)
  | inr first ↦ rw first (
    n,
    refl,
    record { valid = v; pos = refl; jumped = refl; return_pos = refl; grows = omega arith },
  )
]

label-Labelled :
    (d : List ℕ) (size l : ℕ) (n : Name)
    → NameIsValid size n
    → 1 < size
    → 0 < l
    → l ≤ 63
    → n.pos + 1 + l ≤ length d
    → Returns (label d size l n) (Labelled size (n.pos + 1 + l) n)
unfolding label
label-Labelled d size l n v h p small fits =
    let short : (ltb 63 l || ltb (length d) (n.pos + 1 + l)) ≡ false = ground arith in
    let (dotted, e, w) = put_dot-Moved size n v in
    let (m, q, x) =
      copy_label-Copied l d size (record dotted { pos = n.pos + 1 })
        (record { size_eq = w.valid.size_eq; room = w.valid.room }) fits in
    rw (short, e, q)
      (
        go_on m,
        refl,
        record {
          next = m;
          goes = refl;
          moved = record {
            valid = x.moved.valid;
            pos = x.moved.pos;
            jumped = x.moved.jumped ∙ w.jumped;
            return_pos = x.moved.return_pos ∙ w.return_pos;
            grows = omega (arith, x.moved.grows, w.grows);
          };
          filled = x.filled h p;
        },
      )

pub read-eq : (d : List ℕ) (i b : ℕ) → get_elem? d i ≡ some b → read d i ≡ ok b
read-eq d i b h = rw (h, read)

round-Labelled :
    (d : List ℕ) (size l : ℕ) (n : Name)
    → NameIsValid size n
    → 1 < size
    → get_elem? d n.pos ≡ some l
    → 0 < l
    → l ≤ 63
    → n.pos + 1 + l ≤ length d
    → Returns (round d size n) (Labelled size (n.pos + 1 + l) n)
unfolding round
round-Labelled d size l n v h at p small fits =
    let inside : leb (length d) n.pos ≡ false = gt→leb _ _ (omega arith) in
    let some_bytes : (l == 0) ≡ false = ground arith in
    let plain : is_pointer l ≡ false = ground arith in
    rw (inside, read-eq d n.pos l at, some_bytes, plain)
      (label-Labelled d size l n v h p small fits)

-- What the loop leaves, when it ends in the return position `back`.
record Ended (size back : ℕ) (r : Bool × Name) : Type 0 where
  fine : r.0 ≡ true
  valid : NameIsValid size r.1
  jumped : r.1.jumped ≡ false
  return_pos : r.1.return_pos ≡ back
  filled : 0 < r.1.buf_pos

-- A round at a label, and then the rest of the loop.
rounds_step :
    (fuel : ℕ) (d : List ℕ) (size l back : ℕ) (n : Name)
    → NameIsValid size n
    → 1 < size
    → get_elem? d n.pos ≡ some l
    → 0 < l
    → l ≤ 63
    → n.pos + 1 + l ≤ length d
    → ((m : Name)
        → Moved size (n.pos + 1 + l) n m
        → 0 < m.buf_pos
        → Returns (rounds fuel d size m) (Ended size back))
    → Returns (rounds (suc fuel) d size n) (Ended size back)
unfolding rounds
rounds_step fuel d size l back n v h at p small fits rest =
    let (r, e, w) = round-Labelled d size l n v h at p small fits in
    let again = rest w.next w.moved w.filled in rw (e, w.goes) again

rounds_stop :
    (fuel : ℕ) (d : List ℕ) (size end : ℕ) (n : Name)
    → NameIsValid size n
    → n.pos ≡ end
    → get_elem? d end ≡ some 0
    → n.jumped ≡ false
    → 0 < n.buf_pos
    → Returns (rounds (suc fuel) d size n) (Ended size (end + 1))
unfolding rounds round
rounds_stop fuel d size end n v p z j b =
    let at : get_elem? d n.pos ≡ some 0 = ap (get_elem? d) p ∙ z in
    let inside : leb (length d) n.pos ≡ false = gt→leb _ _ (get_elem?-bound d n.pos at) in
    rw (inside, read-eq d n.pos 0 at)
      (
        _,
        refl,
        record {
          fine = refl;
          valid = record { size_eq = v.size_eq; room = v.room };
          jumped = j;
          return_pos = simp j (ap (λ x. x + 1) p);
          filled = b;
        },
      )

rounds_end :
    (k fuel : ℕ) (d : List ℕ) (size end : ℕ) (n : Name)
    → NameIsValid size n
    → 1 < size
    → LabelsAt d n.pos k end
    → get_elem? d end ≡ some 0
    → k < fuel
    → n.jumped ≡ false
    → 0 < n.buf_pos + k
    → Returns (rounds fuel d size n) (Ended size (end + 1))
unfolding rounds round
rounds_end k zero d size end n v h ls z lt j b = absurd (omega arith)
rounds_end zero (suc fuel) d size end n v h ls z lt j b =
    rounds_stop fuel d size end n v ls z j (omega arith)
rounds_end (suc k) (suc fuel) d size end n v h (l, at, p, small, fits, ls) z lt j b =
    rounds_step fuel d size l (end + 1) n v h at p small fits (λ m w f.
      rounds_end k fuel d size end m w.valid h (subst (λ x. LabelsAt d x k end) (sym w.pos) ls) z
        (omega arith) (w.jumped ∙ j) (omega arith))

-- Ten labels use up the rounds, and the return position is never set.
rounds_ten :
    (k : ℕ) (d : List ℕ) (size end back : ℕ) (n : Name)
    → NameIsValid size n
    → 1 < size
    → LabelsAt d n.pos k end
    → n.jumped ≡ false
    → n.return_pos ≡ back
    → 0 < n.buf_pos + k
    → Returns (rounds k d size n) (Ended size back)
rounds_ten zero d size end back n v h ls j e b =
    unfold rounds in
    (
      (true, n),
      refl,
      record { fine = refl; valid = v; jumped = j; return_pos = e; filled = omega arith },
    )
rounds_ten (suc k) d size end back n v h (l, at, p, small, fits, ls) j e b =
    rounds_step k d size l back n v h at p small fits (λ m w f.
      rounds_ten k d size end back m w.valid h (subst (λ x. LabelsAt d x k end) (sym w.pos) ls)
        (w.jumped ∙ j) (w.return_pos ∙ e) (omega arith))

finish_position :
    (size : ℕ) (n : Name) (back : ℕ)
    → Ended size back (true, n)
    → Returns (finish size n) (λ r. (r.0 ≡ some back) × (length r.1 ≡ size))
unfolding finish
finish_position size n back w =
    let i = if ltb n.buf_pos size then n.buf_pos else size - 1 in
    let back_lem : (if n.jumped || ltb 0 n.buf_pos then some n.return_pos else none) ≡ some back =
      ground (arith, w.filled, w.return_pos) in
    rw (write-lt n.buf i 0 (ground (arith, w.valid.room, w.valid.size_eq)))
      (_, refl, (back_lem, length-set n.buf i 0 ∙ w.valid.size_eq))

start-IsValid :
    (d : List ℕ) (offset : ℕ) (buf : List ℕ)
    → 1 < length buf
    → NameIsValid
        (length buf)
        (record { pos = offset; buf = buf; buf_pos = 0; jumped = false; return_pos = 0 })
start-IsValid d offset buf h = record { size_eq = refl; room = omega arith }

read_name_position :
    (d : List ℕ) (offset back : ℕ) (buf : List ℕ)
    → Returns
        (rounds 10 d
          (length buf)
          (record { pos = offset; buf = buf; buf_pos = 0; jumped = false; return_pos = 0 }))
        (Ended (length buf) back)
    → Returns (read_name d offset buf) (λ r. (r.0 ≡ some back) × (length r.1 ≡ length buf))
unfolding read_name
read_name_position d offset back buf ((fine, n), e, w) =
    rw (e, w.fine)
      (finish_position (length buf) n back (record {
        fine = refl;
        valid = w.valid;
        jumped = w.jumped;
        return_pos = w.return_pos;
        filled = w.filled;
      }))

-- For a name of one to nine labels with no compression pointer, `dns_read_name` returns the
-- position after the zero byte that ends the name.
pub read_name-end :
    (d : List ℕ) (offset end k : ℕ) (buf : List ℕ)
    → 1 < length buf
    → LabelsAt d offset k end
    → get_elem? d end ≡ some 0
    → 0 < k
    → k < 10
    → Returns (read_name d offset buf) (λ r. (r.0 ≡ some (end + 1)) × (length r.1 ≡ length buf))
read_name-end d offset end k buf h ls z p lt = read_name_position d offset (end + 1) buf (
    rounds_end k 10 d (length buf) end _ (start-IsValid d offset buf h) h ls z lt refl
      (omega arith))

-- For a name of ten labels or more with no compression pointer in the first ten, it returns the
-- position 0, the start of the packet.
pub read_name-ten :
    (d : List ℕ) (offset end : ℕ) (buf : List ℕ)
    → 1 < length buf
    → LabelsAt d offset 10 end
    → Returns (read_name d offset buf) (λ r. (r.0 ≡ some 0) × (length r.1 ≡ length buf))
read_name-ten d offset end buf h ls = read_name_position d offset 0 buf (
    rounds_ten 10 d (length buf) end 0 _ (start-IsValid d offset buf h) h ls refl refl
      (omega arith))
