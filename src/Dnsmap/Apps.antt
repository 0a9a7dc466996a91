-- ===== src/Dnsmap/Apps.antt =====
-- The table of applications: `mapping_load`, `mapping_lookup_app` and `mapping_lookup_category`. The
-- C library's `fnmatch`, `atoi` and `inet_pton` (does it return 1) are parameters. The file is the list of the lines
-- that `fgets` returns, each with the allocator's answer.
pub mod Order
pub mod Entries
use openwrt_demo.Prelude.{
  ℕ, zero, suc, ◌+◌, ◌-◌, Bool, true, false, not, ◌&&◌, ◌||◌, Option, none, some, List, [], ◌∷◌,
  ◌++◌, leb, ltb, ◌==◌, if◌then◌else◌, length, take, drop, bytes_of, cut_at, tokens, skip_blanks, ℤ,
  pos, ltb_int,
}

-- `struct app_mapping`; the list is the `next` chain
pub record Mapping : Type 0 where
  pub pattern : List ℕ
  pub app_name : List ℕ
  pub category : List ℕ
  pub priority : ℤ

-- the sorted insertion: before the first entry of a lower priority
unfoldable pub insert_sorted : Mapping → List Mapping → List Mapping
insert_sorted m [] = m ∷ []
insert_sorted m (x ∷ xs) = elim (ltb_int x.priority m.priority) [
  | true ↦ m ∷ x ∷ xs
  | false ↦ x ∷ insert_sorted m xs
]

-- *nl = 0 at the newline, then at the carriage return
abbrev pub trimmed : List ℕ → List ℕ
trimmed line = cut_at 13 (cut_at 10 line)

-- !line[0] || line[0] == '#'
unfoldable pub skipped : List ℕ → Bool
skipped [] = true
skipped (c ∷ cs) = c == b'#'

-- the last '.', by `strrchr`
unfoldable pub last_dot : List ℕ → Option ℕ
last_dot [] = none
last_dot (c ∷ cs) = elim (last_dot cs) [
  | some i ↦ some (suc i)
  | none ↦ if c == b'.' then some 0 else none
]

-- while (p < dot) { if (*p == '.') prev = p + 1; p++; } over the bytes before `dot`, from the i-th on
unfoldable pub walk_dots : List ℕ → ℕ → ℕ → ℕ
walk_dots [] i prev = prev
walk_dots (c ∷ cs) i prev =
    if c == b'.' then walk_dots cs (i + 1) (i + 1) else walk_dots cs (i + 1) prev

-- if (fallback[0] >= 'a' && fallback[0] <= 'z') fallback[0] -= 32;
unfoldable pub capital : List ℕ → List ℕ
capital [] = []
capital (c ∷ cs) = (if leb 97 c && leb c 122 then c - 32 else c) ∷ cs

-- the name that stands in for an application
unfoldable pub second_level : List ℕ → Option ℕ → List ℕ
second_level domain none = bytes_of "Unknown"
second_level domain (some dot) = capital (take 127 (drop (walk_dots (take dot domain) 0 0) domain))

module _ (fnmatch : List ℕ → List ℕ → Bool) (atoi : List ℕ → ℤ) (inet_pton : List ℕ → Bool) where
  unfoldable pub priority_of : Option (List ℕ) → ℤ
  priority_of none = pos 0
  priority_of (some s) = atoi s

  unfoldable pub category_field : Option (List ℕ) → List ℕ
  category_field none = bytes_of "General"
  category_field (some s) = take 63 (skip_blanks s)

  abbrev mapping : List ℕ → List ℕ → Option (List ℕ) → Option (List ℕ) → Mapping
  mapping pattern app_name category priority = record {
    pattern = take 255 (skip_blanks pattern);
    app_name = take 127 (skip_blanks app_name);
    category = category_field category;
    priority = priority_of priority;
  }

  -- pattern,app_name[,category[,priority]]; none where the line has no two fields
  unfoldable pub mapping_of : List (List ℕ) → Option Mapping
  mapping_of [] = none
  mapping_of (pattern ∷ []) = none
  mapping_of (pattern ∷ app ∷ []) = some (mapping pattern app none none)
  mapping_of (pattern ∷ app ∷ cat ∷ []) = some (mapping pattern app (some cat) none)
  mapping_of (pattern ∷ app ∷ cat ∷ prio ∷ more) = some (mapping pattern app (some cat) (some prio))

  unfoldable pub parse_line : List ℕ → Option Mapping
  parse_line line = if skipped (trimmed line) then none else mapping_of (tokens b',' (trimmed line))

  unfoldable pub load_entry : Bool → Option Mapping → List Mapping × ℕ → List Mapping × ℕ
  load_entry calloc none (list, count) = (list, count)
  load_entry false (some m) (list, count) = (list, count)
  load_entry true (some m) (list, count) = (insert_sorted m list, count + 1)

  -- the loop over the lines
  unfoldable pub load_lines : List (List ℕ × Bool) → List Mapping × ℕ → List Mapping × ℕ
  load_lines [] acc = acc
  load_lines ((line, calloc) ∷ more) acc = load_lines more (load_entry calloc (parse_line line) acc)

  -- `mapping_load`; no lines stand for a file that cannot be opened, none for the return value -1
  unfoldable pub load : Option (List (List ℕ × Bool)) → List Mapping → List Mapping × Option ℕ
  load none old = (old, none)
  load (some lines) old = let (list, count) = load_lines lines ([], 0) in (list, some count)

  -- the loop over the table: the first entry whose pattern fits
  unfoldable pub first_match : List ℕ → List Mapping → Option Mapping
  first_match domain [] = none
  first_match domain (m ∷ ms) = elim (fnmatch m.pattern domain) [
    | true ↦ some m
    | false ↦ first_match domain ms
  ]

  -- s && inet_pton(AF_INET, s, &a) == 1, where s is not NULL
  abbrev is_ipv4_literal : List ℕ → Bool
  is_ipv4_literal s = inet_pton s

  unfoldable pub app_of : List ℕ → Option Mapping → List ℕ
  app_of domain (some m) = m.app_name
  app_of domain none =
      if is_ipv4_literal domain then bytes_of "Unknown" else second_level domain (last_dot domain)

  -- `mapping_lookup_app`; none is NULL
  unfoldable pub lookup_app : Option (List ℕ) → List Mapping → Option (List ℕ)
  lookup_app none table = none
  lookup_app (some domain) table = some (app_of domain (first_match domain table))

  pub category_found : Option Mapping → List ℕ
  category_found none = bytes_of "General"
  category_found (some m) = m.category

  -- `mapping_lookup_category`
  pub lookup_category : Option (List ℕ) → List Mapping → List ℕ
  lookup_category none table = bytes_of "General"
  lookup_category (some domain) table = category_found (first_match domain table)
