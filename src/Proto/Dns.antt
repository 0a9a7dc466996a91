-- ===== src/Proto/Dns.antt =====
-- `dns_read_name`, `proto_dns_parse_query` and `proto_dns_parse_response` of apptraffic/src/proto.c.
-- A position is a number, and the return value -1 is none. The arrays on the stack start with
-- unknown bytes, which are arguments.
pub mod Safe
pub mod Position
pub mod Overread
mod Tests
use openwrt_demo.Prelude.{
  ℕ, zero, suc, ◌+◌, ◌-◌, ◌*◌, ◌/◌, ◌%◌, ◌^◌, Bool, true, false, not, ◌&&◌, ◌||◌, Option, none,
  some, List, [], ◌∷◌, ◌++◌, ltb, leb, ◌==◌, if◌then◌else◌, length, set, take, drop, replicate, Run,
  ok, fault, ◌>>=◌, read, read_be16, write, read_block, read_string,
}

-- the local variables of `dns_read_name`
pub record Name : Type 0 where
  pub pos : ℕ
  pub buf : List ℕ
  pub buf_pos : ℕ
  pub jumped : Bool
  pub return_pos : ℕ

-- (label_len & 0xC0) == 0xC0
abbrev pub is_pointer : ℕ → Bool
is_pointer b = b / 64 % 4 == 3

-- buf[buf_pos++] = c; if there is room before the last byte
pub put : ℕ → ℕ → Name → Run Name
put buf_len c n =
    if ltb n.buf_pos (buf_len - 1)
    then (do buf ← write n.buf n.buf_pos c; ok (record n { buf = buf; buf_pos = n.buf_pos + 1 }))
    else ok n

-- for (i = 0; i < label_len && pos < data_len; i++) { …; pos++; }
pub copy_label : List ℕ → ℕ → ℕ → Name → Run Name
copy_label d buf_len zero n = ok n
copy_label d buf_len (suc k) n =
    if ltb n.pos (length d)
    then (do
      c ← read d n.pos
      m ← put buf_len c n
      copy_label d buf_len k (record m { pos = n.pos + 1 }))
    else ok n

-- if (buf_pos > 0 && buf_pos < buf_len - 1) buf[buf_pos++] = '.';
pub put_dot : ℕ → Name → Run Name
unfolding put
put_dot buf_len n = if ltb 0 n.buf_pos then put buf_len b'.' n else ok n

-- Whether a round goes on, ends the loop, or returns -1.
pub data Round : Type 0 where
  go_on stop bad : Name → Round

-- the branch of a compression pointer
pub jump : List ℕ → ℕ → Name → Run Round
jump d label_len n = if ltb (length d) (n.pos + 2) then ok (bad n) else do
  low ← read d (n.pos + 1)
  let ptr = label_len % 64 * 256 + low
  if leb (length d % 2 ^ 16) ptr
      then ok (bad n)
      else ok (
          go_on (record n {
            pos = ptr;
            return_pos = if n.jumped then n.return_pos else n.pos + 2;
            jumped = true;
          }))

-- the branch of a label
pub label : List ℕ → ℕ → ℕ → Name → Run Round
unfolding put_dot copy_label
label d buf_len label_len n =
    if ltb 63 label_len || ltb (length d) (n.pos + 1 + label_len) then ok (bad n) else do
      dotted ← put_dot buf_len n
      m ← copy_label d buf_len label_len (record dotted { pos = n.pos + 1 })
      ok (go_on m)

-- the body of the loop
pub round : List ℕ → ℕ → Name → Run Round
unfolding jump label
round d buf_len n = if leb (length d) n.pos then ok (bad n) else do
  label_len ← read d n.pos
  if label_len == 0
      then ok (stop (record n { return_pos = if n.jumped then n.return_pos else n.pos + 1 }))
      else if is_pointer label_len
      then jump d label_len n
      else label d buf_len label_len n

-- while (max_jumps-- > 0); false stands for `return -1`
pub rounds : ℕ → List ℕ → ℕ → Name → Run (Bool × Name)
unfolding round
rounds zero d buf_len n = ok (true, n)
rounds (suc max_jumps) d buf_len n = round d buf_len n >>= λ r. elim r [
  | go_on m ↦ rounds max_jumps d buf_len m
  | stop m ↦ ok (true, m)
  | bad m ↦ ok (false, m)
]

-- the terminator and the return value
pub finish : ℕ → Name → Run (Option ℕ × List ℕ)
finish buf_len n = do
  buf ← write n.buf (if ltb n.buf_pos buf_len then n.buf_pos else buf_len - 1) 0
  ok (if n.jumped || ltb 0 n.buf_pos then some n.return_pos else none, buf)

-- `dns_read_name`: the position after the name, and the buffer
unfoldable pub read_name : List ℕ → ℕ → List ℕ → Run (Option ℕ × List ℕ)
unfolding rounds finish
read_name d offset buf = do
  let start : Name = record { pos = offset; buf = buf; buf_pos = 0; jumped = false; return_pos = 0 }
  (fine, n) ← rounds 10 d (length buf) start
  if fine then finish (length buf) n else ok (none, n.buf)

-- the loop over the questions of a query
pub questions : ℕ → List ℕ → ℕ → List ℕ → Run (List ℕ)
questions zero d pos buf = ok buf
questions (suc count) d pos buf =
    if ltb pos (length d)
    then (do
      (next, buf') ← read_name d pos buf
      elim next [
        | none ↦ ok buf'
        | some p ↦ if ltb (length d) (p + 4) then ok buf' else questions count d (p + 4) buf'
      ])
    else ok buf

-- `proto_dns_parse_query`: the name, or none for the return value 0. `stack` are the 256 bytes
-- where `domain_buf` lies.
unfoldable pub parse_query : List ℕ → List ℕ → ℕ → Run (Option (List ℕ))
unfolding questions
parse_query stack d name_len = if ltb (length d) 12 || name_len == 0 then ok none else do
  flags ← read_be16 d 2
  qdcount ← read_be16 d 4
  if leb 0x8000 flags || qdcount == 0 then ok none else do
    buf ← questions qdcount d 12 (set stack 0 0)
    first ← read buf 0
    if first == 0 then ok none else do name ← read_string (name_len - 1) buf; ok (some name)

pub data Addr : Type 0 where
  ip4 ip6 : List ℕ → Addr

-- `proto_dns_rec`
pub record Rec : Type 0 where
  pub name : List ℕ
  pub addr : Addr

-- the loop over the questions of a response: where it ends, and `qname_buf`
pub skip_questions : ℕ → List ℕ → ℕ → List ℕ → Run (ℕ × List ℕ)
skip_questions zero d pos buf = ok (pos, buf)
skip_questions (suc count) d pos buf =
    if ltb pos (length d)
    then (do
      (next, buf') ← read_name d pos buf
      elim next [
        | none ↦ ok (pos, buf')
        | some p ↦
            if ltb (length d) (p + 4) then ok (p, buf') else skip_questions count d (p + 4) buf'
      ])
    else ok (pos, buf)

-- strncpy(domain_buf, qname_buf, sizeof(domain_buf) - 1), which pads with zeros
pub copy_name : List ℕ → List ℕ → Run (List ℕ)
copy_name buf qname = do
  s ← read_string (length buf - 1) qname
  ok (s ++ replicate (length buf - 1 - length s) 0 ++ drop (length buf - 1) buf)

-- if (!domain_buf[0] && qname_buf[0]) strncpy(…);
pub fall_back : List ℕ → List ℕ → Run (List ℕ)
unfolding copy_name
fall_back buf qname = do
  b ← read buf 0
  q ← read qname 0
  if b == 0 && not (q == 0) then copy_name buf qname else ok buf

-- the record of an answer, if it is an A or AAAA record of the right size
pub record_of : List ℕ → ℕ → ℕ → ℕ → List ℕ → Run (Option Rec)
record_of d atype rdlength pos name =
    if atype == 1 && rdlength == 4
    then (do a ← read_block d pos 4; ok (some (record { name = name; addr = ip4 a })))
    else if atype == 28 && rdlength == 16
    then (do a ← read_block d pos 16; ok (some (record { name = name; addr = ip6 a })))
    else ok none

-- The body of the loop over the answers after the name; `rest` is the rest of the loop.
pub answer :
    List ℕ
    → List ℕ
    → List Rec
    → (ℕ → List ℕ → List Rec → Run (List Rec))
    → Option ℕ × List ℕ
    → Run (List Rec)
unfolding fall_back record_of
answer d qname recs rest (none, buf) = ok recs
answer d qname recs rest (some p, read_buf) = do
  buf ← fall_back read_buf qname
  atype ← read_be16 d p
  rdlength ← read_be16 d (p + 8)
  if ltb (length d) (p + 10 + rdlength) then ok recs else do
    first ← read buf 0
    name ← read_string 255 (if first == 0 then qname else buf)
    found ← record_of d atype rdlength (p + 10) name
    rest (p + 10 + rdlength) buf (elim found [ none ↦ recs | some r ↦ r ∷ recs ])

-- the loop over the answers; `recs` are those written so far, the last first
pub answers : ℕ → List ℕ → ℕ → List ℕ → ℕ → List ℕ → List Rec → Run (List Rec)
unfolding answer
answers zero d most qname pos buf recs = ok recs
answers (suc count) d most qname pos buf recs =
    if ltb pos (length d) && ltb (length recs) most && leb (pos + 10) (length d)
    then read_name d pos buf >>= answer d qname recs (answers count d most qname)
    else ok recs

-- `proto_dns_parse_response`: the records, the last first. `qname` is `qname_buf`, 256 zeros, and
-- `stack` are the 256 bytes where `domain_buf` lies.
unfoldable pub parse_response : List ℕ → List ℕ → ℕ → Run (List Rec)
unfolding skip_questions answers
parse_response stack d most = if ltb (length d) 12 || most == 0 then ok [] else do
  flags ← read_be16 d 2
  qdcount ← read_be16 d 4
  ancount ← read_be16 d 6
  if ltb flags 0x8000 || ancount == 0 then ok [] else do
    (pos, qname) ← skip_questions qdcount d 12 (replicate 256 0)
    answers ancount d most qname pos stack []
