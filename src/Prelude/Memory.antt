-- ===== src/Prelude/Memory.antt =====
-- Reads and writes of C arrays that fault out of range, and C strings.
use Prim.Native.Nat.{ℕ, zero, suc, ◌+◌, ◌*◌, ◌<◌, ◌≤◌}
use Prim.Native.Char.{code}
use Prim.Native.String.{String}
use mathlib.Core.Path.{◌≡◌, refl}
use mathlib.Core.Bool.{true, false}
use mathlib.Core.List.{List, [], ◌∷◌}
use mathlib.Core.Option.{none, some}
use native.Mathlib.Omega.{arith}
use openwrt_demo.Prelude.Tests.{ltb, ◌==◌, if◌then◌else◌}
use openwrt_demo.Prelude.Lists.{length, get_elem?, set, take, drop, length-take, length-drop}

-- `fault` is an access out of range.
pub data Run {ℓ} (A : Type ℓ) : Type ℓ where
  ok : A → Run A
  fault : Run A

infixl 5 ◌>>=◌
abbrev pub ◌>>=◌ {ℓ κ} : {X : Type ℓ} {Y : Type κ} (m : Run X) (k : X → Run Y) → Run Y
fault >>= k = fault
ok x >>= k = k x

-- the computation meets no fault, and its result satisfies the predicate
abbrev pub Returns {ℓ κ} : {X : Type ℓ} (m : Run X) → (Good : X → Type κ) → Type (ℓ ⊔ κ)
Returns {X} m Good = (x : X) × (m ≡ ok x) × Good x

abbrev pub read : List ℕ → ℕ → Run ℕ
read xs i = elim (get_elem? xs i) [ none ↦ fault | some b ↦ ok b ]

-- two bytes in network order
abbrev pub read_be16 : List ℕ → ℕ → Run ℕ
read_be16 xs i = do hi ← read xs i; lo ← read xs (i + 1); ok (hi * 256 + lo)

abbrev pub write : List ℕ → ℕ → ℕ → Run (List ℕ)
write xs i v = if ltb i (length xs) then ok (set xs i v) else fault

-- `n` bytes from `i` on
abbrev pub read_block : List ℕ → ℕ → ℕ → Run (List ℕ)
read_block xs i n = if ltb (length xs) (i + n) then fault else ok (take n (drop i xs))

-- The bytes of a C string that `strncpy` copies, `n` at most.
unfoldable pub read_string : ℕ → List ℕ → Run (List ℕ)
read_string zero xs = ok []
read_string (suc n) [] = fault
read_string (suc n) (x ∷ xs) = elim (x == 0) [
  | true ↦ ok []
  | false ↦ read_string n xs >>= λ s. ok (x ∷ s)
]

abbrev pub bytes_of : String → List ℕ
bytes_of String.[] = []
bytes_of (String.◌∷◌ c s) = code c ∷ bytes_of s

pub read-lt : (xs : List ℕ) (i : ℕ) → i < length xs → (b : ℕ) × (read xs i ≡ ok b)
read-lt [] i h = absurd (omega arith)
read-lt (x ∷ xs) zero h = (x, refl)
read-lt (x ∷ xs) (suc i) h = read-lt xs i (omega arith)

-- What a sequence of two steps returns.
pub Returns-bind {ℓ κ} :
    {A B : Type ℓ} (m : Run A) (f : A → Run B) (P : A → Type κ) (Q : B → Type κ)
    → Returns m P
    → ((a : A) → P a → Returns (f a) Q)
    → Returns (m >>= f) Q
Returns-bind m f P Q (a, e, p) k = rw e (k a p)

pub read_be16-lt : (xs : List ℕ) (i : ℕ) → i + 1 < length xs → (v : ℕ) × (read_be16 xs i ≡ ok v)
read_be16-lt xs i h =
    let (a, ea) = read-lt xs i (omega arith) in
    let (b, eb) = read-lt xs (i + 1) h in (a * 256 + b, rw (ea, eb))

pub read_block-le :
    (xs : List ℕ) (i n : ℕ) → i + n ≤ length xs → Returns (read_block xs i n) (λ b. length b ≡ n)
read_block-le xs i n h = (
  take n (drop i xs),
  ground (arith, h),
  omega (arith, length-take n (drop i xs), length-drop i xs, h),
)
