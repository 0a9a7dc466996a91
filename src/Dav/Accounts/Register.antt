-- ===== src/Dav/Accounts/Register.antt =====
-- What `op_register` of dav-bridge/src/dav-bridge.c does to the accounts.
use openwrt_demo.Prelude.{
  not-false, ℕ, ◌≤◌, ◌≡◌, refl, sym, ap, ◌∙◌, Bool, true, false, not, ◌||◌, Option, none, some,
  List, [], ◌∷◌, ◌++◌, ltb, ◌==◌, else_case, ◌≢◌, arith, length, get_or, or_true, bytes_of,
  same_bytes, same_bytes-eq, subst, take,
}
use openwrt_demo.Dav.Path.{is_alnum}
use openwrt_demo.Proto.Http.{c_string}
use openwrt_demo.Dav.Accounts.{
  Body, body, too_big, read_body, every, name_char, valid_username, valid_password, user_exists,
  with_entry, contents, append_output, appended, append_htpasswd, register_user, register_pass,
  register_form, register_body, op_register, form_field, chomp, max_form_bytes,
}
use openwrt_demo.Dav.Reader.{is_empty}
use mathlib.Core.Option.{some-injective}
use openwrt_demo.Dav.Accounts.Lines.{ends_line, user_exists-append, user_exists-entry}

-- A valid name has from 3 to 32 bytes, all of them letters, digits or one of ".", "_" and "-".
valid_username-lem :
    (name : List ℕ)
    → valid_username name ≡ true
    → (3 ≤ length name) × (length name ≤ 32) × (every name_char name ≡ true)
unfolding valid_username
valid_username-lem name h =
    let (fits, rest) =
      else_case (ltb (length name) 3 || ltb 32 (length name)) false _ true h (λ e. cc) in
    let (letter, all) = else_case (not (is_alnum (get_or name 0 0))) false _ true rest (λ e. cc) in
    (ground arith, ground arith, all)

-- what a new account changes
abbrev pub Registers : Option (List ℕ) → List ℕ → Option (List ℕ) → Type 0
Registers file user file' =
    (valid_username user ≡ true)
    × (user_exists file user ≡ false)
    × (user_exists file' user ≡ true)
    × ((other : List ℕ) → user_exists file other ≡ true → user_exists file' other ≡ true)

-- the hash of openssl's output: at most 127 bytes, without the line's end
abbrev pub hash_of : List ℕ → List ℕ
hash_of output = c_string (chomp (take 127 output))

module _ (openssl : List ℕ → Option (List ℕ)) where
  -- one line more, of the name and the hash of the password
  abbrev pub Hashed : Option (List ℕ) → List ℕ → List ℕ → Option (List ℕ) → Type 0
  Hashed file user pass file' =
      (valid_password pass ≡ true)
      × ((output : List ℕ) × (openssl pass ≡ some output)
          × (is_empty (chomp (take 127 output)) ≡ false)
          × (file' ≡ some (contents file ++ (user ++ b':' ∷ (hash_of output ++ 10 ∷ [])))))

  -- the name and the password are those of the form in the body
  abbrev pub FormRegisters : Option (List ℕ) → List ℕ → Option (List ℕ) → Type 0
  FormRegisters file text file' =
      (user : List ℕ) × (pass : List ℕ) × (form_field text (bytes_of "user") 64 ≡ some user)
      × (form_field text (bytes_of "pass") 160 ≡ some pass)
      × Hashed file user pass file'
      × Registers file user file'

or_true_left : (a b : Bool) → a ≡ true → a || b ≡ true
or_true_left true b h = refl
or_true_left false b h = cc

or_false_left : (a b : Bool) → a || b ≡ false → a ≡ false
or_false_left true b h = cc
or_false_left false b h = refl

-- another status than 201
refused :
    (code : ℕ) (file : Option (List ℕ)) (file' : Option (List ℕ))
    → code ≢ 201
    → (let r : ℕ × Option (List ℕ) = (code, file) in r) ≢ (201, file')
refused code file file' h e = h (ap (λ r. r.0) e)

user_exists-contents :
    (file : Option (List ℕ)) (name : List ℕ)
    → user_exists file name ≡ true
    → user_exists (some (contents file)) name ≡ true
unfolding user_exists
user_exists-contents none name h = cc
user_exists-contents (some f) name h = h

with_entry-Registers :
    (file : Option (List ℕ)) (user hash : List ℕ)
    → ends_line (contents file) ≡ true
    → valid_username user ≡ true
    → user_exists file user ≡ false
    → Registers file user (some (with_entry file user hash))
unfolding with_entry
with_entry-Registers file user hash good valid new =
    let (long, short, all) = valid_username-lem user valid in
    let entry = user ++ b':' ∷ (hash ++ 10 ∷ []) in
    let there = user_exists-entry user (hash ++ 10 ∷ []) all (omega arith) short in
    (
      valid,
      new,
      user_exists-append (contents file) entry user good
          ∙ or_true (user_exists (some (contents file)) user) (user_exists (some entry) user) there,
      λ other h.
          user_exists-append (contents file) entry other good
          ∙ or_true_left (user_exists (some (contents file)) other) (user_exists (some entry) other)
              (user_exists-contents file other h),
    )

append_output-some :
    (can_append : Bool) (file : Option (List ℕ)) (name : List ℕ) (output : Option (List ℕ))
    (file' : List ℕ)
    → append_output can_append file name output ≡ some file'
    → (o : List ℕ) × (output ≡ some o)
      × (is_empty (chomp (take 127 o)) ≡ false)
      × (file' ≡ with_entry file name (hash_of o))
unfolding append_output
append_output-some can_append file name none file' e = cc
append_output-some can_append file name (some output) file' e =
    let hash = chomp (take 127 output) in
    let (fine, same) =
      else_case (is_empty hash || not can_append) none (some (with_entry file name (c_string hash)))
        (some file') e (λ e. cc) in
    (
      output,
      refl,
      or_false_left (is_empty hash) (not can_append) fine,
      sym (some-injective _ _ same),
    )

appended-201 :
    (file : Option (List ℕ)) (result : Option (List ℕ)) (file' : Option (List ℕ))
    → appended file result ≡ (201, file')
    → (f : List ℕ) × (result ≡ some f) × (file' ≡ some f)
unfolding appended
appended-201 file none file' e = absurd (refused 500 file file' (λ h. omega arith) e)
appended-201 file (some f) file' e = (f, refl, sym (ap (λ r. r.1) e))

module _ (openssl : List ℕ → Option (List ℕ)) (can_append : Bool) where
  register_user-Registers :
      (file file' : Option (List ℕ)) (user pass : List ℕ)
      → ends_line (contents file) ≡ true
      → register_user openssl can_append file user pass ≡ (201, file')
      → Hashed openssl file user pass file' × Registers file user file'
  unfolding register_user append_htpasswd with_entry
  register_user-Registers file file' user pass good e =
      let (valid, e1) =
        else_case (not (valid_username user)) (400, file) _ (201, file') e
          (refused 400 file file' (λ h. omega arith)) in
      let (valid', e2) =
        else_case (not (valid_password pass)) (400, file) _ (201, file') e1
          (refused 400 file file' (λ h. omega arith)) in
      let (new, e3) =
        else_case (user_exists file user) (409, file) _ (201, file') e2
          (refused 409 file file' (λ h. omega arith)) in
      let (f, made, same) = appended-201 file _ file' e3 in
      let (output, run, full, is) = append_output-some can_append file user (openssl pass) f made in
      (
        (not-false (valid_password pass) valid', (output, run, full, same ∙ ap some is)),
        subst (Registers file user) (sym (same ∙ ap some is)) (
            with_entry-Registers file user (hash_of output) good
              (not-false (valid_username user) valid) new),
      )

  register_pass-Registers :
      (file file' : Option (List ℕ)) (user : List ℕ) (pass : Option (List ℕ))
      → ends_line (contents file) ≡ true
      → register_pass openssl can_append file user pass ≡ (201, file')
      → (p : List ℕ) × (pass ≡ some p)
        × Hashed openssl file user p file'
        × Registers file user file'
  unfolding register_pass
  register_pass-Registers file file' user none good e =
      absurd (refused 400 file file' (λ h. omega arith) e)
  register_pass-Registers file file' user (some pass) good e =
      let (secret, made) = register_user-Registers file file' user pass good e in
      (pass, refl, secret, made)

  register_form-Registers :
      (file file' : Option (List ℕ)) (text : List ℕ) (user : Option (List ℕ))
      → ends_line (contents file) ≡ true
      → form_field text (bytes_of "user") 64 ≡ user
      → register_form openssl can_append file text user ≡ (201, file')
      → FormRegisters openssl file text file'
  unfolding register_form
  register_form-Registers file file' text none good named e =
      absurd (refused 400 file file' (λ h. omega arith) e)
  register_form-Registers file file' text (some user) good named e =
      let (pass, there, secret, made) =
        register_pass-Registers file file' user (form_field text (bytes_of "pass") 160) good e in
      (user, pass, named, there, secret, made)

  register_body-Registers :
      (file file' : Option (List ℕ)) (text : Body)
      → ends_line (contents file) ≡ true
      → register_body openssl can_append file text ≡ (201, file')
      → (form : List ℕ) × (text ≡ body (some form)) × FormRegisters openssl file form file'
  unfolding register_body
  register_body-Registers file file' too_big good e =
      absurd (refused 413 file file' (λ h. omega arith) e)
  register_body-Registers file file' (body none) good e =
      absurd (refused 400 file file' (λ h. omega arith) e)
  register_body-Registers file file' (body (some text)) good e =
      let (fits, e1) =
        else_case (length text == 0 || ltb max_form_bytes (length text)) (400, file) _ (201, file')
          e (refused 400 file file' (λ h. omega arith)) in
      (
        text,
        refl,
        register_form-Registers file file' text (form_field text (bytes_of "user") 64) good refl e1,
      )

  -- When `op_register` answers 201, the caller is the administrator, and the password file has one
  -- line more, of the body's field `user`, a colon, and the hash that openssl gives of the body's field
  -- `pass`, which is a valid password. The name is valid and had no account; it has one afterwards, so
  -- that registering it again is refused, and every account that there was is still there. The
  -- password file must be empty or missing, or end with a line's end.
  pub op_register-Registers :
      (file file' caller : Option (List ℕ)) (content_length : Option ℕ) (input : List (List ℕ))
      → ends_line (contents file) ≡ true
      → op_register openssl can_append file caller content_length input ≡ (201, file')
      → (caller ≡ some (bytes_of "backup"))
        × ((form : List ℕ) × (read_body content_length max_form_bytes input ≡ body (some form))
            × FormRegisters openssl file form file')
  unfolding op_register
  op_register-Registers file file' none content_length input good e =
      absurd (refused 403 file file' (λ h. omega arith) e)
  op_register-Registers file file' (some caller) content_length input good e =
      let (admin, e1) =
        else_case (not (same_bytes caller (bytes_of "backup"))) (403, file) _ (201, file') e
          (refused 403 file file' (λ h. omega arith)) in
      (
        ap some (same_bytes-eq caller (bytes_of "backup") (not-false _ admin)),
        register_body-Registers file file' (read_body content_length max_form_bytes input) good e1,
      )
