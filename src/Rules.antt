-- ===== src/Rules.antt =====
-- apptraffic/src/l7.c: the rules that find an application in the first payload of a flow. The table
-- is passed and returned; the file is the list of the lines that `fgets` returns, each with the
-- allocator's answer; `atoi` is a parameter. A rule's magic is the list of its first `magic_len`
-- bytes. The sum of an offset and a magic's length is taken to stay below 2 ^ 31.
pub mod Hex
pub mod Order
pub mod Bounds
mod Tests
use openwrt_demo.Prelude.{
  ℕ, zero, suc, ◌+◌, ◌-◌, ◌*◌, Bool, true, false, not, ◌&&◌, ◌||◌, Option, none, some, List, [],
  ◌∷◌, ◌++◌, leb, ltb, ◌==◌, if◌then◌else◌, length, take, drop, bytes_of, cut_at, tokens,
  same_bytes, ℤ, pos, negsuc,
}

-- L7_TCP, L7_UDP, L7_ANY
pub data RuleProto : Type 0 where
  l7_tcp : RuleProto
  l7_udp : RuleProto
  l7_any : RuleProto

-- `struct l7_rule`; the list is the `next` chain
pub record Rule : Type 0 where
  pub proto : RuleProto
  pub port : ℤ
  pub offset : ℤ
  pub magic : List ℕ
  pub app : List ℕ
  pub cat : List ℕ

-- none is -1
pub hexval : ℕ → Option ℕ
hexval c =
    if leb 48 c && leb c 57
    then some (c - 48)
    else if leb 97 c && leb c 102
    then some (c - 97 + 10)
    else if leb 65 c && leb c 70
    then some (c - 65 + 10)
    else none

-- r->magic_len = (hi < 0) ? n : 0;
pub finished : Option ℕ → List ℕ → List ℕ
finished none magic = magic
finished (some hi) magic = []

-- The loop over the digits, with what is written so far. A character that is no digit ends it with
-- no bytes at all.
pub digits : List ℕ → Option ℕ → List ℕ → List ℕ
digits [] hi magic = finished hi magic
digits (c ∷ cs) hi magic = elim (ltb (length magic) 16) [
  | false ↦ finished hi magic
  | true ↦ elim (c == 32) [
    | true ↦ digits cs hi magic
    | false ↦ elim (hexval c) [
      | none ↦ []
      | some v ↦ elim hi [
        | none ↦ digits cs (some v) magic
        | some h ↦ digits cs none (magic ++ (h * 16 + v) ∷ [])
      ]
    ]
  ]
]

pub proto_of : List ℕ → RuleProto
proto_of s =
    if same_bytes s (bytes_of "tcp")
    then l7_tcp
    else if same_bytes s (bytes_of "udp")
    then l7_udp
    else l7_any

-- strncpy(dst, src, size - 1); dst[size - 1] = 0;
abbrev copied : ℕ → List ℕ → List ℕ
copied size s = take (size - 1) s

pub cat_of : Option (List ℕ) → List ℕ
cat_of none = bytes_of "General"
cat_of (some s) = s

-- !line[0] || line[0] == '#'
pub skipped : List ℕ → Bool
skipped [] = true
skipped (c ∷ cs) = c == b'#'

-- the two tests of the rule's protocol, IPPROTO_TCP being 6 and IPPROTO_UDP 17
pub proto_fits : RuleProto → ℕ → Bool
proto_fits l7_tcp proto = proto == 6
proto_fits l7_udp proto = proto == 17
proto_fits l7_any proto = true

-- !(r->port && r->port != dst_port)
pub port_fits : ℤ → ℕ → Bool
port_fits (pos port) dst_port = port == 0 || port == dst_port
port_fits (negsuc n) dst_port = false

pub at_offset : ℤ → List ℕ → List ℕ → Bool
at_offset (negsuc n) magic payload = false
at_offset (pos offset) magic payload =
    if ltb (length payload) (offset + length magic)
    then false
    else same_bytes (take (length magic) (drop offset payload)) magic

pub magic_fits : Rule → List ℕ → Bool
magic_fits r payload = if ltb 0 (length r.magic) then at_offset r.offset r.magic payload else true

-- what the loop of `l7_match` asks of a rule
pub fits : ℕ → ℕ → List ℕ → Rule → Bool
fits proto dst_port payload r =
    proto_fits r.proto proto && port_fits r.port dst_port && magic_fits r payload

-- the loop: the application and the category of the first rule that fits
pub first_fit : ℕ → ℕ → List ℕ → List Rule → Option (List ℕ × List ℕ)
first_fit proto dst_port payload [] = none
first_fit proto dst_port payload (r ∷ rs) = elim (fits proto dst_port payload r) [
  | true ↦ some (r.app, r.cat)
  | false ↦ first_fit proto dst_port payload rs
]

-- `l7_match`; a payload of none is NULL, and the result none is the return value 0
pub l7_match : ℕ → ℕ → Option (List ℕ) → List Rule → Option (List ℕ × List ℕ)
l7_match proto dst_port none rules = none
l7_match proto dst_port (some payload) rules =
    if length payload == 0 then none else first_fit proto dst_port payload rules

module _ (atoi : List ℕ → ℤ) where
  -- the port and the offset: a star stands for 0
  pub number_of : List ℕ → ℤ
  number_of s = if same_bytes s (bytes_of "*") then pos 0 else atoi s

  -- the offset and the magic
  pub magic_of : List ℕ → List ℕ → ℤ × List ℕ
  magic_of off_s magic_s =
      if same_bytes magic_s (bytes_of "*")
      then (negsuc 0, [])
      else (number_of off_s, digits magic_s none [])

  pub rule : List ℕ → List ℕ → List ℕ → List ℕ → List ℕ → Option (List ℕ) → Rule
  rule proto_s port_s off_s magic_s app_s cat_s = record {
    proto = proto_of proto_s;
    port = number_of port_s;
    offset = (magic_of off_s magic_s).0;
    magic = (magic_of off_s magic_s).1;
    app = copied 64 app_s;
    cat = copied 32 (cat_of cat_s);
  }

  -- proto,dstport,offset,hexmagic,app,category; none where the line has no fifth field
  pub rule_of : List (List ℕ) → Option Rule
  rule_of [] = none
  rule_of (proto ∷ []) = none
  rule_of (proto ∷ port ∷ []) = none
  rule_of (proto ∷ port ∷ off ∷ []) = none
  rule_of (proto ∷ port ∷ off ∷ hex ∷ []) = none
  rule_of (proto ∷ port ∷ off ∷ hex ∷ app ∷ []) = some (rule proto port off hex app none)
  rule_of (proto ∷ port ∷ off ∷ hex ∷ app ∷ cat ∷ more) =
      some (rule proto port off hex app (some cat))

  -- the line with its ends cut off
  abbrev trimmed : List ℕ → List ℕ
  trimmed line = cut_at 13 (cut_at 10 line)

  pub parse_line : List ℕ → Option Rule
  parse_line line = if skipped (trimmed line) then none else rule_of (tokens b',' (trimmed line))

  pub load_rule : Bool → Option Rule → List Rule × ℕ → List Rule × ℕ
  load_rule calloc none (rules, count) = (rules, count)
  load_rule false (some r) (rules, count) = (rules, count)
  load_rule true (some r) (rules, count) = (r ∷ rules, count + 1)

  -- the loop over the lines
  pub load_lines : List (List ℕ × Bool) → List Rule × ℕ → List Rule × ℕ
  load_lines [] acc = acc
  load_lines ((line, calloc) ∷ more) acc = load_lines more (load_rule calloc (parse_line line) acc)

  -- `l7_load`; no lines stand for a file that cannot be opened, none for the return value -1
  pub l7_load : Option (List (List ℕ × Bool)) → List Rule → List Rule × Option ℕ
  l7_load none old = (old, none)
  l7_load (some lines) old = let (rules, count) = load_lines lines ([], 0) in (rules, some count)
