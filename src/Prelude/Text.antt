-- ===== src/Prelude/Text.antt =====
-- C strings as lists of bytes without the terminator: what the C library's functions on them do.
use Prim.Native.Nat.{ℕ}
use mathlib.Core.Bool.{◌||◌}
use mathlib.Core.List.{List, [], ◌∷◌}
use openwrt_demo.Prelude.Tests.{◌==◌, if◌then◌else◌}

-- char *p = strchr(line, c); if (p) *p = 0;
abbrev pub cut_at : ℕ → List ℕ → List ℕ
cut_at c [] = []
cut_at c (x ∷ xs) = let rest = cut_at c xs in if x == c then [] else x ∷ rest

-- `strtok` called until it returns NULL: the fields that are not empty
abbrev pub add_field : List ℕ → List (List ℕ) → List (List ℕ)
add_field [] fields = fields
add_field (x ∷ xs) fields = (x ∷ xs) ∷ fields

-- the field that begins here, and the fields behind it
abbrev pub split_fields : ℕ → List ℕ → List ℕ × List (List ℕ)
split_fields c [] = ([], [])
split_fields c (x ∷ xs) =
    let (field, fields) = split_fields c xs in
    if x == c then ([], add_field field fields) else (x ∷ field, fields)

abbrev pub tokens : ℕ → List ℕ → List (List ℕ)
tokens c s = let (field, fields) = split_fields c s in add_field field fields

-- while (*p == ' ' || *p == '\t') p++;
abbrev pub skip_blanks : List ℕ → List ℕ
skip_blanks [] = []
skip_blanks (x ∷ xs) = let rest = skip_blanks xs in if x == 32 || x == 9 then rest else x ∷ xs
