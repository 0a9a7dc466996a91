-- ===== src/Dnsmap/Apps/Entries.antt =====
-- The entries of the file of applications, and those of the table that is loaded from it.
use openwrt_demo.Dnsmap.Apps.{Mapping, insert_sorted, parse_line, load_entry, load_lines}
use openwrt_demo.Prelude.{
  ℕ, Bool, true, false, Option, none, some, List, [], ◌∷◌, inl, inr, Bool-cases, All, All-map, ℤ,
  ltb_int,
}
use mathlib.Core.List.{Mem, mem-cons_self, mem-cons_of_mem}

All-insert_sorted :
    (P : Mapping → Type 0) (m : Mapping) (xs : List Mapping)
    → P m
    → All P xs
    → All P (insert_sorted m xs)
unfolding insert_sorted
All-insert_sorted P m [] h k = (h, tt)
All-insert_sorted P m (x ∷ xs) h k = elim (Bool-cases (ltb_int x.priority m.priority)) [
  | inl lower ↦ rw (lower, insert_sorted) (h, k)
  | inr higher ↦ rw (higher, insert_sorted) (k.0, All-insert_sorted P m xs h k.1)
]

insert_sorted-All :
    (P : Mapping → Type 0) (m : Mapping) (xs : List Mapping)
    → All P (insert_sorted m xs)
    → P m × All P xs
unfolding insert_sorted
insert_sorted-All P m [] = λ h. h
insert_sorted-All P m (x ∷ xs) = elim (Bool-cases (ltb_int x.priority m.priority)) [
  | inl lower ↦ rw (lower, insert_sorted) (λ h. h)
  | inr higher ↦
      rw (higher, insert_sorted) (λ h. let (a, b) = insert_sorted-All P m xs h.1 in (a, (h.0, b)))
]

pub All-Mem : (xs : List Mapping) → All (λ x. Mem x xs) xs
All-Mem [] = tt
All-Mem (x ∷ xs) = (
  mem-cons_self,
  All-map (λ y. Mem y xs) (λ y. Mem y (x ∷ xs)) xs (λ y h. mem-cons_of_mem x h) (All-Mem xs),
)

module _ (fnmatch : List ℕ → List ℕ → Bool) (atoi : List ℕ → ℤ) (inet_pton : List ℕ → Bool) where
  -- the entries of a file in the order of its lines, without those that the allocator refuses
  abbrev pub listed : Bool → Option Mapping → List Mapping → List Mapping
  listed calloc none rest = rest
  listed false (some m) rest = rest
  listed true (some m) rest = m ∷ rest

  abbrev pub entries : List (List ℕ × Bool) → List Mapping
  entries [] = []
  entries ((line, calloc) ∷ more) =
      listed calloc (parse_line fnmatch atoi inet_pton line) (entries more)

  -- The table has the entries of the file, and no others.
  pub load_lines-All :
      (P : Mapping → Type 0) (lines : List (List ℕ × Bool)) (acc : List Mapping × ℕ)
      → All P acc.0 × All P (entries lines)
      → All P (load_lines fnmatch atoi inet_pton lines acc).0
  unfolding load_lines load_entry
  load_lines-All P [] acc h = h.0
  load_lines-All P ((line, calloc) ∷ more) acc h =
      load_lines-All P more _
        (entry calloc (parse_line fnmatch atoi inet_pton line) acc (entries more) h)
    where
      entry :
          (calloc : Bool) (o : Option Mapping) (acc : List Mapping × ℕ) (rest : List Mapping)
          → All P acc.0 × All P (listed calloc o rest)
          → All P (load_entry fnmatch atoi inet_pton calloc o acc).0 × All P rest
      entry calloc none (list, count) rest h = h
      entry false (some m) (list, count) rest h = h
      entry true (some m) (list, count) rest h = (All-insert_sorted P m list h.1.0 h.0, h.1.1)

  pub All-load_lines :
      (P : Mapping → Type 0) (lines : List (List ℕ × Bool)) (acc : List Mapping × ℕ)
      → All P (load_lines fnmatch atoi inet_pton lines acc).0
      → All P acc.0 × All P (entries lines)
  unfolding load_lines load_entry
  All-load_lines P [] acc h = (h, tt)
  All-load_lines P ((line, calloc) ∷ more) acc h =
      entry calloc (parse_line fnmatch atoi inet_pton line) acc (entries more)
        (All-load_lines P more _ h)
    where
      entry :
          (calloc : Bool) (o : Option Mapping) (acc : List Mapping × ℕ) (rest : List Mapping)
          → All P (load_entry fnmatch atoi inet_pton calloc o acc).0 × All P rest
          → All P acc.0 × All P (listed calloc o rest)
      entry calloc none (list, count) rest h = h
      entry false (some m) (list, count) rest h = h
      entry true (some m) (list, count) rest h =
          let (a, b) = insert_sorted-All P m list h.0 in (b, (a, h.1))
