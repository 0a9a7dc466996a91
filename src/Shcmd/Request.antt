-- ===== src/Shcmd/Request.antt =====
-- What `handle_client` of shcmd/src/shcmd.c does with a request that it has read: authentication,
-- routing, the check of the arguments, and the command line that it runs. `strtol`, which tells the
-- number of a string that it reads to its end, is a parameter.
pub mod Runs
pub mod Values
pub mod Words
mod Tests
use openwrt_demo.Prelude.{
  ℕ, zero, suc, ◌+◌, ◌-◌, ◌/◌, ◌%◌, Bool, true, false, not, ◌&&◌, ◌||◌, Option, none, some, List,
  [], ◌∷◌, ◌++◌, leb, ltb, ◌==◌, if◌then◌else◌, length, take, drop, get_or, cut_at, bytes_of,
  same_bytes, ℤ, ltb_int,
}
use openwrt_demo.Proto.Http.{starts_with, mem_find}
use openwrt_demo.Shcmd.Access.{AddrRule, addr_allowed, token_ok}
use openwrt_demo.Shcmd.Params.{param_get, after_amp}
use openwrt_demo.Shcmd.Slot.{Slot, slot, missing_argument, overrun, build_slot}

-- the constraints of `struct arg_spec`
pub record ArgSpec : Type 0 where
  pub enums : Option (List ℕ)
  pub range : Option (ℤ × ℤ)
  pub required : Bool

pub record Entry : Type 0 where
  pub name : List ℕ
  pub argv : List (List ℕ)
  pub timeout : ℕ
  pub args : List ArgSpec

pub record Config : Type 0 where
  pub tokens : List (List ℕ)
  pub addrs : List AddrRule
  pub entries : List Entry
  pub max_args : ℕ

-- `target` is in front of the question mark, and the query behind it.
pub record Request : Type 0 where
  pub is_post : Bool
  pub target : List ℕ
  pub query : Option (List ℕ)
  pub auth_hdr : List ℕ
  pub body : List ℕ

-- a status, a list, the run of a command with its time limit, or an access out of bounds
pub data Outcome : Type 0 where
  reply : ℕ → Outcome
  commands : Outcome
  schema : Outcome
  run_argv : List (List ℕ) → ℕ → Outcome
  crash : Outcome

abbrev is_empty : List ℕ → Bool
is_empty [] = true
is_empty (c ∷ cs) = false

abbrev pub form_body : Request → Option (List ℕ)
form_body r = if r.is_post then some r.body else none

-- a parameter that is there and not empty
pub given : Option (List ℕ) → Option (List ℕ)
given none = none
given (some []) = none
given (some (c ∷ cs)) = some (c ∷ cs)

abbrev or_empty : Option (List ℕ) → List ℕ
or_empty none = []
or_empty (some s) = s

-- the token that the request carries
pub request_token : Request → List ℕ
request_token r = elim (given (param_get r.query (bytes_of "k") 256)) [
  | some token ↦ token
  | none ↦
      if starts_with (bytes_of "Bearer ") r.auth_hdr
      then take 255 (drop 7 r.auth_hdr)
      else or_empty (param_get (form_body r) (bytes_of "k") 256)
]

pub request_name : Request → Option (List ℕ)
request_name r = elim (given (param_get r.query (bytes_of "n") 128)) [
  | some name ↦ some name
  | none ↦ given (param_get (form_body r) (bytes_of "n") 128)
]

pub entry_find : List Entry → List ℕ → Option Entry
entry_find [] name = none
entry_find (e ∷ es) name =
    let rest = entry_find es name in if same_bytes e.name name then some e else rest

-- "a%d", for a number below 100
pub arg_key : ℕ → List ℕ
arg_key i =
    if ltb i 10 then b'a' ∷ (b'0' + i) ∷ [] else b'a' ∷ (b'0' + i / 10) ∷ (b'0' + i % 10) ∷ []

pub add_arg : Option (List ℕ) → List (List ℕ) → List (List ℕ)
add_arg none extra = extra
add_arg (some v) extra = extra ++ (v ∷ [])

-- the loop over the keys, `n` turns from `i` on
pub collect_loop : ℕ → ℕ → Option (List ℕ) → List (List ℕ) → List (List ℕ)
collect_loop zero i query extra = extra
collect_loop (suc n) i query extra =
    let more =
      collect_loop n (i + 1) query (add_arg (given (param_get query (arg_key i) 512)) extra) in
    if ltb (length extra) 16 then more else extra

pub extra_args : ℕ → Option (List ℕ) → List (List ℕ)
extra_args max_args query =
    if ltb 0 max_args
    then collect_loop (max_args - 1) 1 query
        (add_arg (given (param_get query (bytes_of "a") 512)) [])
    else []

abbrev pub after_comma : List ℕ → Option (List ℕ)
after_comma [] = none
after_comma (c ∷ cs) = let rest = after_comma cs in if c == b',' then some cs else rest

-- the loop over a list of words with commas between them, on fuel
pub enum_loop : ℕ → List ℕ → List ℕ → Bool
enum_loop zero p v = false
enum_loop (suc fuel) [] v = false
enum_loop (suc fuel) (c ∷ cs) v = elim (same_bytes (cut_at b',' (c ∷ cs)) v) [
  | true ↦ true
  | false ↦ elim (after_comma (c ∷ cs)) [ none ↦ false | some rest ↦ enum_loop fuel rest v ]
]

-- every turn goes over one byte at least
pub enum_ok : Option (List ℕ) → List ℕ → Bool
enum_ok none v = true
enum_ok (some enums) v = enum_loop (length enums) enums v

pub number_ok : ℤ → ℤ → Option ℤ → Bool
number_ok least most none = false
number_ok least most (some n) = not (ltb_int n least || ltb_int most n)

module _ (strtol : List ℕ → Option ℤ) where
  pub range_ok : Option (ℤ × ℤ) → List ℕ → Bool
  range_ok none v = true
  range_ok (some (least, most)) v = number_ok least most (strtol v)

  -- the loop over the constraints: false for the reply 400
  pub args_ok : List ArgSpec → List (List ℕ) → Bool
  args_ok [] extra = true
  args_ok (a ∷ specs) [] = let rest = args_ok specs [] in if a.required then false else rest
  args_ok (a ∷ specs) (v ∷ extra) =
      let rest = args_ok specs extra in
      if is_empty v
      then if a.required then false else rest
      else if not (enum_ok a.enums v)
      then false
      else if not (range_ok a.range v)
      then false
      else rest

abbrev has_place : List ℕ → Bool
has_place src = elim (mem_find src (bytes_of "{a")) [
  | some i ↦ true
  | none ↦ elim (mem_find src (bytes_of "{s")) [ some i ↦ true | none ↦ false ]
]

-- the command line, and whether a placeholder was used
pub data Built : Type 0 where
  built : List (List ℕ) → Bool → Built
  built_missing : Built
  built_overrun : Built

pub add_slot : Slot → Built → Built
add_slot (slot out used) (built argv later) = built (out ∷ argv) (used || later)
add_slot (slot out used) other = other
add_slot missing_argument rest = built_missing
add_slot overrun rest = built_overrun

-- the loop over the entry's slots
pub build_argv : List (List ℕ) → List (List ℕ) → Built
build_argv [] extra = built [] false
build_argv (src ∷ slots) extra =
    let rest = build_argv slots extra in
    add_slot (if has_place src then build_slot src extra else slot src false) rest

pub run_built : Entry → List (List ℕ) → Built → Outcome
run_built e extra (built argv used) = run_argv (if used then argv else argv ++ extra) e.timeout
run_built e extra built_missing = reply 400
run_built e extra built_overrun = crash

module _ (strtol : List ℕ → Option ℤ) where
  pub run_entry : Entry → List (List ℕ) → Outcome
  run_entry e extra =
      if not (args_ok strtol e.args extra)
      then reply 400
      else run_built e extra (build_argv e.argv extra)

  pub run_found : Config → Request → Option Entry → Outcome
  run_found cfg r none = reply 404
  run_found cfg r (some e) = run_entry e (extra_args cfg.max_args r.query)

  pub run_named : Config → Request → Option (List ℕ) → Outcome
  run_named cfg r none = reply 400
  run_named cfg r (some name) = run_found cfg r (entry_find cfg.entries name)

  pub route : Config → Request → Outcome
  route cfg r =
      if same_bytes r.target (bytes_of "/") || same_bytes r.target (bytes_of "/c")
      then commands
      else if same_bytes r.target (bytes_of "/schema")
      then schema
      else if not (same_bytes r.target (bytes_of "/r"))
      then reply 404
      else run_named cfg r (request_name r)

  -- the peer's family and address
  pub handle_client : Config → ℕ → List ℕ → Request → Outcome
  handle_client cfg family addr r =
      if not (addr_allowed cfg.addrs family addr)
      then reply 403
      else if not (token_ok cfg.tokens (request_token r))
      then reply 401
      else route cfg r
