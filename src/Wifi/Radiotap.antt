-- ===== src/Wifi/Radiotap.antt =====
-- wifi-probe/src/radiotap.c: the header that the driver puts before a frame.
pub mod Safe
use openwrt_demo.Wifi.{read_le16, read_le32}
use openwrt_demo.Prelude.{
  ℕ, zero, suc, ◌+◌, ◌-◌, ◌*◌, ◌/◌, ◌%◌, ◌^◌, Bool, true, false, not, ◌||◌, Option, none, some,
  List, [], ◌∷◌, ◌++◌, ltb, ◌==◌, if◌then◌else◌, get_or, Run, ok, ◌>>=◌, read, ℤ, pos, negsuc,
}

-- if (…) return -1; where none is -1
abbrev pub or_fail : {A B : Type 0} → Run (Option A) → (A → Run (Option B)) → Run (Option B)
or_fail m k = m >>= λ r. elim r [ none ↦ ok none | some a ↦ k a ]

-- `struct wp_radiotap`; none is a `have_` of 0
pub record Radiotap : Type 0 where
  pub rssi : Option ℤ
  pub freq : Option ℕ
  pub rate : Option ℕ

abbrev pub ralign : List ℕ
ralign =
    8 ∷ 1 ∷ 1 ∷ 2 ∷ 2 ∷ 1 ∷ 1 ∷ 2 ∷ 2 ∷ 2 ∷ 1 ∷ 1 ∷ 1 ∷ 1 ∷ 2 ∷ 1 ∷ 2 ∷ 1 ∷ 2 ∷ 1 ∷ 2 ∷ 2 ∷ 1 ∷ 1
    ∷ 1 ∷ 1 ∷ 2 ∷ 2 ∷ 2 ∷ 2 ∷ 1 ∷ 1 ∷ []

abbrev pub rsize : List ℕ
rsize =
    8 ∷ 1 ∷ 1 ∷ 4 ∷ 2 ∷ 1 ∷ 1 ∷ 2 ∷ 2 ∷ 2 ∷ 1 ∷ 1 ∷ 1 ∷ 1 ∷ 2 ∷ 1 ∷ 2 ∷ 1 ∷ 2 ∷ 1 ∷ 2 ∷ 2 ∷ 1 ∷ 1
    ∷ 1 ∷ 1 ∷ 2 ∷ 2 ∷ 2 ∷ 2 ∷ 1 ∷ 1 ∷ []

-- (int)(int8_t)b
unfoldable pub int8 : ℕ → ℤ
int8 b = if ltb b 128 then pos b else negsuc (255 - b)

-- a bit of a word
abbrev pub bit : ℕ → ℕ → Bool
bit word b = word / 2 ^ b % 2 == 1

-- The loop that collects the words of present bits, where `left` is 8 - nw. None is the return value
-- -1; else the words, and the offset behind them.
unfoldable pub present : ℕ → List ℕ → ℕ → ℕ → ℕ → List ℕ → Run (Option (List ℕ × ℕ))
present zero d rlen off cur pw = if bit cur 31 then ok none else ok (some (pw, off))
present (suc left) d rlen off cur pw =
    if not (bit cur 31)
    then ok (some (pw, off))
    else if ltb rlen (off + 4)
    then ok none
    else do next ← read_le32 d off; present left d rlen (off + 4) next (pw ++ next ∷ [])

-- the fields that are kept
unfoldable pub take_field : List ℕ → ℕ → ℕ → Radiotap → Run Radiotap
take_field d idx off rt =
    if idx == 2
    then (do b ← read d off; ok (record rt { rate = some (b * 500) }))
    else if idx == 3
    then (do v ← read_le16 d off; ok (record rt { freq = some v }))
    else if idx == 5
    then (do b ← read d off; ok (record rt { rssi = some (int8 b) }))
    else ok rt

-- off + pad
abbrev pub aligned : ℕ → ℕ → ℕ
aligned idx off = off + (get_or ralign idx 1 - off % get_or ralign idx 1) % get_or ralign idx 1

-- a field whose bit is set: the offset behind it and what is known, or none for -1
unfoldable pub field : List ℕ → ℕ → ℕ → ℕ → Radiotap → Run (Option (ℕ × Radiotap))
field d rlen idx off rt =
    if not (ltb idx 32)
    then ok (some (off, rt))
    else if ltb rlen (aligned idx off + get_or rsize idx 0)
    then ok none
    else do
      next ← take_field d idx (aligned idx off) rt
      ok (some (aligned idx off + get_or rsize idx 0, next))

-- the bits from b on, where n is 32 - b
unfoldable pub bits : ℕ → List ℕ → ℕ → ℕ → ℕ → ℕ → ℕ → Radiotap → Run (Option (ℕ × Radiotap))
bits zero d rlen w word b off rt = ok (some (off, rt))
bits (suc n) d rlen w word b off rt = elim (b == 31 || not (bit word b)) [
  | true ↦ bits n d rlen w word (b + 1) off rt
  | false ↦
      or_fail (field d rlen (w * 32 + b) off rt)
        (λ next. bits n d rlen w word (b + 1) next.0 next.1)
]

unfoldable pub fields : List ℕ → List ℕ → ℕ → ℕ → ℕ → Radiotap → Run (Option Radiotap)
fields [] d rlen w off rt = ok (some rt)
fields (word ∷ pw) d rlen w off rt =
    or_fail (bits 32 d rlen w word 0 off rt) (λ next. fields pw d rlen (w + 1) next.0 next.1)

abbrev pub nothing : Radiotap
nothing = record { rssi = none; freq = none; rate = none }

unfoldable pub enumerate : List ℕ → ℕ → Option (List ℕ × ℕ) → Run (Option Radiotap)
enumerate d rlen none = ok none
enumerate d rlen (some (pw, off)) = fields pw d rlen 0 off nothing

-- `wp_radiotap_parse`; none is the return value -1
unfoldable pub parse : List ℕ → ℕ → Run (Option Radiotap)
parse d len = if ltb len 8 then ok none else do
  rlen ← read_le16 d 2
  if ltb (len % 2 ^ 16) rlen || ltb rlen 8
      then ok none
      else do cur ← read_le32 d 4; words ← present 7 d rlen 8 cur (cur ∷ []); enumerate d rlen words
