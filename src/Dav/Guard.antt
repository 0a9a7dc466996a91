-- ===== src/Dav/Guard.antt =====
-- How the operations of dav-bridge/src/dav-bridge.c check a client's path before they touch a file:
-- the first two tests of `op_ls`, `op_upload` and `op_delete`, the answers of `op_ls`, and the removal
-- of `op_delete`. The file system's answers are parameters.
pub mod Link
mod Tests
use openwrt_demo.Prelude.{
  ℕ, zero, suc, ◌+◌, ◌-◌, Bool, true, false, not, ◌&&◌, ◌||◌, Option, none, some, List, [], ◌∷◌,
  ◌++◌, ltb, leb, ◌==◌, if◌then◌else◌, length, take, drop, bytes_of, same_bytes, map,
}
use openwrt_demo.Dav.Path.{existing_prefix, under_root, make_fs_path, path_max, printed}
use openwrt_demo.Proto.Http.{same_letters}

-- what `stat` and `lstat` answer
pub data Kind : Type 0 where
  absent : Kind
  failed : Kind
  directory : Kind
  other_file : Kind

pub record Files : Type 0 where
  pub access : List ℕ → Bool
  pub realpath : List ℕ → Option (List ℕ)
  pub stat : List ℕ → Kind
  pub lstat : List ℕ → Kind
  pub opendir : List ℕ → Bool
  pub unlink : List ℕ → Bool

pub prefix_allowed : Files → Option (List ℕ) → Bool
prefix_allowed files none = false
prefix_allowed files (some found) = under_root files.realpath found

-- existing_prefix(fs, prefix, sizeof(prefix)) && under_root(prefix)
pub inside : Files → List ℕ → Bool
inside files fs = prefix_allowed files (existing_prefix files.access fs path_max)

-- the path, or none for the reply 400
pub guarded : Files → List ℕ → Option (List ℕ)
guarded files path = elim (make_fs_path path path_max) [
  | none ↦ none
  | some fs ↦ if inside files fs then some fs else none
]

-- a status, or a listing: of one file, or of what a directory holds
pub data Listing : Type 0 where
  no_list : ℕ → Listing
  one_file : List ℕ → Listing
  list_directory : List ℕ → Listing

-- if (fs_len > 1 && fs[fs_len - 1] == '/') fs[fs_len - 1] = '\0';
pub trim_slash : List ℕ → List ℕ
trim_slash [] = []
trim_slash (c ∷ []) = c ∷ []
trim_slash (c ∷ d ∷ []) = if d == b'/' then c ∷ [] else c ∷ d ∷ []
trim_slash (c ∷ d ∷ e ∷ cs) = c ∷ trim_slash (d ∷ e ∷ cs)

pub list_kind : Files → List ℕ → Bool → Kind → Listing
list_kind files fs deep absent = no_list 404
list_kind files fs deep failed = no_list 500
list_kind files fs deep other_file = one_file (trim_slash fs)
list_kind files fs deep directory =
    if not deep
    then one_file (trim_slash fs)
    else if files.opendir (trim_slash fs)
    then list_directory (trim_slash fs)
    else no_list 500

-- `deep` is depth != 0.
pub op_ls : Files → List ℕ → Bool → Listing
op_ls files path deep = elim (guarded files path) [
  | none ↦ no_list 400
  | some fs ↦ list_kind files fs deep (files.stat fs)
]

-- strrchr(s, c) and what is behind it
pub last_index : ℕ → List ℕ → Option ℕ
last_index c [] = none
last_index c (x ∷ xs) = elim (last_index c xs) [
  | some i ↦ some (suc i)
  | none ↦ if x == c then some 0 else none
]

-- the length of a path without its last extension
pub base_len : List ℕ → ℕ
base_len fs = elim (last_index b'.' fs) [
  | none ↦ length fs
  | some dot ↦ elim (last_index b'/' fs) [
    | none ↦ dot
    | some slash ↦ if ltb slash dot then dot else length fs
  ]
]

-- none where it returns -1
pub derived_path : List ℕ → List ℕ → ℕ → Option (List ℕ)
derived_path fs suffix outsz =
    let out = take (base_len fs) fs ++ suffix in if leb outsz (length out) then none else some out

-- strcasecmp(name + len - slen, suffix) == 0, where the name is long enough
pub has_suffix : List ℕ → List ℕ → Bool
has_suffix name suffix =
    if ltb (length name) (length suffix)
    then false
    else same_letters suffix (drop (length name - length suffix) name)

abbrev pub thumb : List ℕ
thumb = bytes_of ".thumb.jpg"

abbrev pub preview : List ℕ
preview = bytes_of ".preview.jpg"

abbrev pub clip : List ℕ
clip = bytes_of ".preview.mp4"

pub is_derived_name : List ℕ → Bool
is_derived_name name = has_suffix name thumb || has_suffix name preview || has_suffix name clip

pub is_part_name : List ℕ → Bool
is_part_name name = has_suffix name (bytes_of ".part")

pub name_of : List ℕ → List ℕ
name_of fs = elim (last_index b'/' fs) [ none ↦ fs | some slash ↦ drop (suc slash) fs ]

pub add_derived : Option (List ℕ) → List (List ℕ) → List (List ℕ)
add_derived none paths = paths
add_derived (some path) paths = path ∷ paths

-- the derived files whose removal is tried
pub derived_paths : List ℕ → List (List ℕ)
derived_paths fs =
    if is_derived_name (name_of fs) || is_part_name (name_of fs)
    then []
    else add_derived (derived_path fs thumb path_max) (
        add_derived (derived_path fs preview path_max)
          (add_derived (derived_path fs clip path_max) []))

-- the status, and the paths that `unlink` is called for
pub delete_kind : Files → List ℕ → Kind → ℕ × List (List ℕ)
delete_kind files fs absent = (404, [])
delete_kind files fs failed = (500, [])
delete_kind files fs directory = (405, [])
delete_kind files fs other_file =
    if files.unlink fs then (204, fs ∷ derived_paths fs) else (500, fs ∷ [])

pub op_delete : Files → List ℕ → ℕ × List (List ℕ)
op_delete files path = elim (guarded files path) [
  | none ↦ (400, [])
  | some fs ↦ delete_kind files fs (files.lstat fs)
]
