-- ===== src/Shcmd/Slot/Quote.antt =====
-- A quoted value of shcmd/src/shcmd.c read by a shell: the quoting rules of the POSIX shell's words.
use openwrt_demo.Prelude.{
  ℕ, ◌≡◌, refl, ap, ◌∙◌, Bool, false, ◌||◌, List, [], ◌∷◌, ◌++◌, inl, inr, ◌==◌, if◌then◌else◌,
  Bool-cases, arith,
}
use openwrt_demo.Shcmd.Slot.{quote_body, quoted}

-- outside of quotes, between single quotes, and behind a backslash
pub data Quoting : Type 0 where
  unquoted : Quoting
  single_quoted : Quoting
  escaped : Quoting

-- a byte that ends a word or has a meaning of its own
abbrev pub is_special : ℕ → Bool
is_special c =
    c == b' '
    || c == 9
    || c == 10
    || c == b';'
    || c == b'&'
    || c == b'|'
    || c == b'<'
    || c == b'>'
    || c == b'('
    || c == b')'
    || c == b'$'
    || c == b'`'
    || c == b'"'
    || c == b'*'
    || c == b'?'
    || c == b'['
    || c == b'#'
    || c == b'~'

-- the bytes of the word that begins here, and what is left of the script
unfoldable pub shell_word : Quoting → List ℕ → List ℕ × List ℕ
shell_word q [] = ([], [])
shell_word unquoted (c ∷ cs) =
    let (word, rest) = shell_word unquoted cs in
    let in_quotes = shell_word single_quoted cs in
    let behind = shell_word escaped cs in
    if c == b'\''
    then in_quotes
    else if c == b'\\'
    then behind
    else if is_special c
    then ([], c ∷ cs)
    else (c ∷ word, rest)
shell_word single_quoted (c ∷ cs) =
    let (word, rest) = shell_word single_quoted cs in
    let outside = shell_word unquoted cs in if c == b'\'' then outside else (c ∷ word, rest)
shell_word escaped (c ∷ cs) = let (word, rest) = shell_word unquoted cs in (c ∷ word, rest)

-- a byte that is no quote
quoted_byte :
    (c : ℕ) (cs rest : List ℕ)
    → (c == b'\'') ≡ false
    → shell_word single_quoted (quote_body (c ∷ cs) ++ rest) ≡ (
      c ∷ (shell_word single_quoted (quote_body cs ++ rest)).0,
      (shell_word single_quoted (quote_body cs ++ rest)).1,
    )
unfolding quote_body shell_word
quoted_byte c cs rest h =
    let e : quote_body (c ∷ cs) ≡ c ∷ quote_body cs = rw h refl in
    let f : (d : List ℕ)
        → shell_word single_quoted (c ∷ d)
          ≡ (c ∷ (shell_word single_quoted d).0, (shell_word single_quoted d).1) =
      λ d. rw h refl in
    ap (λ t. shell_word single_quoted (t ++ rest)) e ∙ f (quote_body cs ++ rest)

quote_body-shell_word :
    (v rest : List ℕ)
    → shell_word single_quoted (quote_body v ++ rest)
      ≡ (v ++ (shell_word unquoted rest).0, (shell_word unquoted rest).1)
unfolding quote_body shell_word
quote_body-shell_word [] rest = refl
quote_body-shell_word (c ∷ cs) rest = elim (Bool-cases (c == b'\'')) [
  | inl is ↦
      let same : 39 ≡ c = ground arith in
      rw (is, quote_body)
        (ap (λ w. (39 ∷ w.0, w.1)) (quote_body-shell_word cs rest)
          ∙ ap (λ d. (d ∷ (cs ++ (shell_word unquoted rest).0), (shell_word unquoted rest).1)) same)
  | inr other ↦
      quoted_byte c cs rest other ∙ ap (λ w. (c ∷ w.0, w.1)) (quote_body-shell_word cs rest)
]

-- A shell that reads a `{saN}` placeholder's text outside of quotes gets exactly the caller's value as
-- a part of the word, whatever bytes it has; the rest of the script is read as if nothing were there.
pub quoted-shell_word :
    (v rest : List ℕ)
    → shell_word unquoted (quoted v ++ rest)
      ≡ (v ++ (shell_word unquoted rest).0, (shell_word unquoted rest).1)
unfolding quoted shell_word
quoted-shell_word v rest = quote_body-shell_word v rest
