-- ===== src/Dav/Accounts/Tests.antt =====
-- The registration of an account.
use openwrt_demo.Prelude.{ℕ, ◌≡◌, refl, true, Option, some, List, [], ◌∷◌, ◌++◌, bytes_of}
use openwrt_demo.Proto.Http.{starts_with, c_string}
use openwrt_demo.Dav.Path.{percent_decode, put_byte, escaped, hex_val, is_alnum}
use openwrt_demo.Dav.Reader.{fread}
use openwrt_demo.Dav.Accounts.{
  body, max_form_bytes, read_body, read_wanted, form_field, find_field, value_of, valid_username,
  valid_password, every, user_exists, exists_loop, fgets, is_entry, before_newline, append_htpasswd,
  append_output, chomp, with_entry, appended, register_user, register_pass, register_form,
  register_body, op_register,
}
use openwrt_demo.Dav.Accounts.Lines.{ends_line}
use openwrt_demo.Dav.Accounts.Register.{FormRegisters, op_register-Registers}

-- a file with one account, and the form of another
abbrev passwords : List ℕ
passwords = bytes_of "backup:x" ++ (10 ∷ [])

abbrev form : List (List ℕ)
form = bytes_of "user=anna&pa" ∷ bytes_of "ss=sec%20ret" ∷ []

abbrev openssl : List ℕ → Option (List ℕ)
openssl pass = some (bytes_of "$apr1$h" ++ (10 ∷ []))

abbrev passwords_after : List ℕ
passwords_after = passwords ++ (bytes_of "anna:$apr1$h" ++ (10 ∷ []))

anna :
    op_register openssl true (some passwords) (some (bytes_of "backup")) (some 24) form
    ≡ (201, some passwords_after)
unfolding op_register read_body read_wanted fread register_body register_form form_field find_field
    value_of percent_decode put_byte escaped hex_val register_pass register_user valid_username
    valid_password every is_alnum user_exists exists_loop fgets is_entry before_newline c_string
    starts_with append_htpasswd append_output chomp with_entry appended
anna = refl

passwords-ends_line : ends_line passwords ≡ true
unfolding ends_line
passwords-ends_line = refl

op_register-Registers_example :
    (some (bytes_of "backup") ≡ some (bytes_of "backup"))
    × ((text : List ℕ) × (read_body (some 24) max_form_bytes form ≡ body (some text))
        × FormRegisters openssl (some passwords) text (some passwords_after))
op_register-Registers_example =
    op_register-Registers openssl true (some passwords) (some passwords_after)
      (some (bytes_of "backup")) (some 24) form passwords-ends_line anna
