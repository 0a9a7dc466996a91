-- ===== src/Dav/Accounts.antt =====
-- The accounts of dav-bridge/src/dav-bridge.c: the form of `op=register`, the checks of its fields,
-- and the file of passwords. What `openssl passwd -apr1` prints for a password, none where it could
-- not be run or failed, and whether the file can be opened for appending are parameters.
pub mod Lines
pub mod Register
mod Tests
use openwrt_demo.Prelude.{
  ℕ, zero, suc, ◌+◌, ◌-◌, Bool, true, false, not, ◌&&◌, ◌||◌, Option, none, some, List, [], ◌∷◌,
  ◌++◌, ltb, leb, ◌==◌, if◌then◌else◌, length, take, drop, get_or, bytes_of, same_bytes,
}
use openwrt_demo.Proto.Http.{starts_with, c_string}
use openwrt_demo.Dav.Path.{percent_decode, is_alnum}
use openwrt_demo.Dav.Reader.{fread, is_empty}

-- MAX_FORM_BYTES
abbrev pub max_form_bytes : ℕ
max_form_bytes = 4096

-- what `read_body` returns, where malloc and realloc succeed: 0 with the body, or 413
pub data Body : Type 0 where
  body : Option (List ℕ) → Body
  too_big : Body

-- while (total < want), on fuel
pub read_wanted : ℕ → ℕ → List ℕ → List (List ℕ) → List ℕ
read_wanted zero want got input = got
read_wanted (suc fuel) want got input =
    let (piece, rest) = fread (want - length got) input in
    let more = read_wanted fuel want (got ++ piece) rest in
    if not (ltb (length got) want) || is_empty piece then got else more

-- the loop without a Content-Length, on fuel: the pieces are of 16384 bytes at most
pub read_all : ℕ → ℕ → List ℕ → List (List ℕ) → Body
read_all zero max got input = body (some got)
read_all (suc fuel) max got input =
    let (piece, rest) = fread 16384 input in
    let more = read_all fuel max (got ++ piece) rest in
    if is_empty piece
    then body (if is_empty got then none else some got)
    else if ltb max (length got + length piece)
    then too_big
    else more

-- `content_length` is the number that `strtoull` reads.
pub read_body : Option ℕ → ℕ → List (List ℕ) → Body
read_body (some want) max input =
    if ltb max want
    then too_big
    else if want == 0
    then body none
    else body (some (read_wanted want want [] input))
read_body none max input = read_all (suc max) max [] input

-- while (vstart + vlen < len && body[vstart + vlen] != '&') vlen++;
pub value_of : List ℕ → List ℕ
value_of [] = []
value_of (c ∷ cs) = let rest = value_of cs in if c == b'&' then [] else c ∷ rest

-- the loop of `form_field`, on the bytes from `i` on: the value, as it stands in the body
pub find_field : List ℕ → Bool → List ℕ → Option (List ℕ)
find_field name at_start [] = none
find_field name at_start (c ∷ cs) =
    let rest = find_field name (c == b'&') cs in
    if not (ltb (length name) (length (c ∷ cs)))
    then none
    else if at_start && starts_with name (c ∷ cs) && get_or (c ∷ cs) (length name) 0 == b'='
    then some (value_of (drop (length name + 1) (c ∷ cs)))
    else rest

pub form_field : List ℕ → List ℕ → ℕ → Option (List ℕ)
form_field text name outsz = elim (find_field name true text) [
  | none ↦ none
  | some value ↦ if leb outsz (length value) then none else percent_decode (c_string value)
]

unfoldable pub every : (ℕ → Bool) → List ℕ → Bool
every f [] = true
every f (c ∷ cs) = f c && every f cs

abbrev pub name_char : ℕ → Bool
name_char c = is_alnum c || c == b'.' || c == b'_' || c == b'-'

pub valid_username : List ℕ → Bool
valid_username name =
    if ltb (length name) 3 || ltb 32 (length name)
    then false
    else if not (is_alnum (get_or name 0 0))
    then false
    else every name_char name

pub valid_password : List ℕ → Bool
valid_password pass =
    if ltb (length pass) 6 || ltb 128 (length pass)
    then false
    else every (λ c. not (ltb c 32 || c == 127)) pass

-- fgets with room for `n` bytes: the line, or the part of it that fits, and what is behind it
unfoldable pub fgets : ℕ → List ℕ → List ℕ × List ℕ
fgets zero file = ([], file)
fgets (suc n) [] = ([], [])
fgets (suc n) (c ∷ cs) =
    let (line, rest) = fgets n cs in if c == 10 then (c ∷ [], cs) else (c ∷ line, rest)

-- the bytes in front of the first of "\r\n"
unfoldable pub before_newline : List ℕ → List ℕ
before_newline [] = []
before_newline (c ∷ cs) =
    let rest = before_newline cs in if c == 13 || c == 10 then [] else c ∷ rest

unfoldable pub is_entry : List ℕ → List ℕ → Bool
is_entry name line =
    let s = c_string line in
    ltb (length name) (length (before_newline s))
    && starts_with name s
    && get_or s (length name) 0 == b':'

-- the loop of `user_exists`, on fuel
unfoldable pub exists_loop : ℕ → List ℕ → List ℕ → Bool
exists_loop zero name file = false
exists_loop (suc fuel) name [] = false
exists_loop (suc fuel) name (c ∷ cs) =
    let (line, rest) = fgets 255 (c ∷ cs) in
    let later = exists_loop fuel name rest in if is_entry name line then true else later

-- Every line has a byte at least. A file that cannot be opened is none.
unfoldable pub user_exists : Option (List ℕ) → List ℕ → Bool
user_exists none name = false
user_exists (some file) name = exists_loop (length file) name file

-- while (hlen > 0 && (hash[hlen - 1] == '\n' || hash[hlen - 1] == '\r')) hlen--;
pub chomp : List ℕ → List ℕ
chomp [] = []
chomp (c ∷ cs) =
    let rest = chomp cs in if is_empty rest && (c == 10 || c == 13) then [] else c ∷ rest

abbrev pub contents : Option (List ℕ) → List ℕ
contents none = []
contents (some file) = file

-- the file with the line behind it
pub with_entry : Option (List ℕ) → List ℕ → List ℕ → List ℕ
with_entry file name hash = contents file ++ (name ++ b':' ∷ (hash ++ 10 ∷ []))

-- behind the call of openssl: the file afterwards, where 0 is returned
pub append_output : Bool → Option (List ℕ) → List ℕ → Option (List ℕ) → Option (List ℕ)
append_output can_append file name none = none
append_output can_append file name (some output) =
    let hash = chomp (take 127 output) in
    if is_empty hash || not can_append then none else some (with_entry file name (c_string hash))

-- behind `append_htpasswd`: the status and the file
pub appended : Option (List ℕ) → Option (List ℕ) → ℕ × Option (List ℕ)
appended file none = (500, file)
appended file (some file') = (201, some file')

module _ (openssl : List ℕ → Option (List ℕ)) (can_append : Bool) where
  -- The output is read up to 127 bytes.
  pub append_htpasswd : Option (List ℕ) → List ℕ → List ℕ → Option (List ℕ)
  append_htpasswd file name pass = append_output can_append file name (openssl pass)

  -- behind the two fields: the status and the file
  pub register_user : Option (List ℕ) → List ℕ → List ℕ → ℕ × Option (List ℕ)
  register_user file user pass =
      if not (valid_username user)
      then (400, file)
      else if not (valid_password pass)
      then (400, file)
      else if user_exists file user
      then (409, file)
      else appended file (append_htpasswd file user pass)

  pub register_pass : Option (List ℕ) → List ℕ → Option (List ℕ) → ℕ × Option (List ℕ)
  register_pass file user none = (400, file)
  register_pass file user (some pass) = register_user file user pass

  pub register_form : Option (List ℕ) → List ℕ → Option (List ℕ) → ℕ × Option (List ℕ)
  register_form file text none = (400, file)
  register_form file text (some user) =
      register_pass file user (form_field text (bytes_of "pass") 160)

  pub register_body : Option (List ℕ) → Body → ℕ × Option (List ℕ)
  register_body file too_big = (413, file)
  register_body file (body none) = (400, file)
  register_body file (body (some text)) =
      if length text == 0 || ltb max_form_bytes (length text)
      then (400, file)
      else register_form file text (form_field text (bytes_of "user") 64)

  -- `caller` is REMOTE_USER.
  pub op_register :
      Option (List ℕ) → Option (List ℕ) → Option ℕ → List (List ℕ) → ℕ × Option (List ℕ)
  op_register file none content_length input = (403, file)
  op_register file (some caller) content_length input =
      if not (same_bytes caller (bytes_of "backup"))
      then (403, file)
      else register_body file (read_body content_length max_form_bytes input)
