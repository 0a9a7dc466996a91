-- ===== src/IpReasm/Place.antt =====
-- Where `find_or_create` looks: the slot of a datagram, and the first free slot.
use openwrt_demo.Prelude.{
  same_bytes_refl, ℕ, zero, suc, ◌+◌, ◌-◌, ◌≡◌, refl, ap, Bool, true, false, Option, none, some,
  List, [], ◌∷◌, arith, length, take, replicate, set, get_elem?, length-take, take-append,
}
use openwrt_demo.IpReasm.{
  Frag, Key, unused, known, addr_len, same_bool, key_equal, address, claim, scan, older, take_slot,
  find_or_create,
}

-- The slot `j` holds the datagram `k`, and every slot before it is in use for another.
abbrev pub Located : Key → List Frag → ℕ → Frag → Type 0
Located k [] j g = ⊥
Located k (f ∷ fs) zero g = (f ≡ g) × (f.in_use ≡ true) × (key_equal f k ≡ true)
Located k (f ∷ fs) (suc j) g = (f.in_use ≡ true) × (key_equal f k ≡ false) × Located k fs j g

-- The slot `j` is free, and every slot before it is in use for another datagram than `k`.
abbrev pub Free : Key → List Frag → ℕ → Type 0
Free k [] j = ⊥
Free k (f ∷ fs) zero = f.in_use ≡ false
Free k (f ∷ fs) (suc j) = (f.in_use ≡ true) × (key_equal f k ≡ false) × Free k fs j

scan-Located :
    (k : Key) (table : List Frag) (j : ℕ) (g : Frag) (i m : ℕ) (o : Option (ℕ × ℕ))
    → Located k table j g
    → i + j ≡ m
    → scan k table i o ≡ known m
unfolding scan
scan-Located k [] j g i m o h e = elim h [ ]
scan-Located k (f ∷ fs) zero g i m o h e = rw (h.2, h.1) (ap known (omega arith))
scan-Located k (f ∷ fs) (suc j) g i m o h e =
    rw (h.1, h.0) (scan-Located k fs j g (i + 1) m (older o i f.last_seen) h.2 (omega arith))

scan-Free :
    (k : Key) (table : List Frag) (j i m : ℕ) (o : Option (ℕ × ℕ))
    → Free k table j
    → i + j ≡ m
    → scan k table i o ≡ unused m
unfolding scan
scan-Free k [] j i m o h e = elim h [ ]
scan-Free k (f ∷ fs) zero i m o h e = rw h (ap unused (omega arith))
scan-Free k (f ∷ fs) (suc j) i m o h e =
    rw (h.1, h.0) (scan-Free k fs j (i + 1) m (older o i f.last_seen) h.2 (omega arith))

pub find_or_create-Located :
    (k : Key) (now : ℕ) (table : List Frag) (j : ℕ) (g : Frag)
    → Located k table j g
    → find_or_create k now table ≡ (some j, table)
unfolding find_or_create take_slot
find_or_create-Located k now table j g h = rw (scan-Located k table j g 0 j none h (omega arith))

pub find_or_create-Free :
    (k : Key) (now : ℕ) (table : List Frag) (j : ℕ)
    → Free k table j
    → find_or_create k now table ≡ (some j, set table j (claim k now))
unfolding find_or_create take_slot
find_or_create-Free k now table j h = rw (scan-Free k table j 0 j none h (omega arith))

pub get_elem?-Located :
    (k : Key) (table : List Frag) (j : ℕ) (g : Frag)
    → Located k table j g
    → get_elem? table j ≡ some g
get_elem?-Located k [] j g h = elim h [ ]
get_elem?-Located k (f ∷ fs) zero g h = ap some h.0
get_elem?-Located k (f ∷ fs) (suc j) g h = get_elem?-Located k fs j g h.2

pub set-Located :
    (k : Key) (table : List Frag) (j : ℕ) (g f' : Frag)
    → Located k table j g
    → f'.in_use ≡ true
    → key_equal f' k ≡ true
    → Located k (set table j f') j f'
set-Located k [] j g f' h u e = elim h [ ]
set-Located k (f ∷ fs) zero g f' h u e = (refl, u, e)
set-Located k (f ∷ fs) (suc j) g f' h u e = (h.0, h.1, set-Located k fs j g f' h.2 u e)

pub set-Free :
    (k : Key) (table : List Frag) (j : ℕ) (f' : Frag)
    → Free k table j
    → f'.in_use ≡ true
    → key_equal f' k ≡ true
    → Located k (set table j f') j f'
set-Free k [] j f' h u e = elim h [ ]
set-Free k (f ∷ fs) zero f' h u e = (refl, u, e)
set-Free k (f ∷ fs) (suc j) f' h u e = (h.0, h.1, set-Free k fs j f' h.2 u e)

same_bool_refl : (b : Bool) → same_bool b b ≡ true
unfolding same_bool
same_bool_refl true = refl
same_bool_refl false = refl

-- The addresses have the length that the version asks for.
pub record HasAddresses (k : Key) : Type 0 where
  pub src : length k.src ≡ addr_len k.is_v6
  pub dst : length k.dst ≡ addr_len k.is_v6

take-address :
    (v6 : Bool) (a : List ℕ)
    → length a ≡ addr_len v6
    → take (addr_len v6) (address v6 a) ≡ take (addr_len v6) a
unfolding address
take-address v6 a h =
    take-append (take (addr_len v6) a) (replicate (16 - addr_len v6) 0) (addr_len v6)
      (omega (arith, length-take (addr_len v6) a))

-- A claimed slot is found by the key that it was claimed for.
pub key_equal-claim : (k : Key) (now : ℕ) → HasAddresses k → key_equal (claim k now) k ≡ true
unfolding key_equal claim
key_equal-claim k now h =
    rw (take-address k.is_v6 k.src h.src, take-address k.is_v6 k.dst h.dst)
      (ground (
        arith,
        same_bool_refl k.is_v6,
        same_bytes_refl (take (addr_len k.is_v6) k.src),
        same_bytes_refl (take (addr_len k.is_v6) k.dst),
      ))
