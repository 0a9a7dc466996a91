-- ===== src/Wifi.antt =====
-- wifi-probe: from a captured frame to what is observed of a device (radiotap.c, ieee80211.c, probe.c,
-- frame.c). The parsers work on lists of bytes in the monad whose faults are accesses out of range;
-- a pointer into the frame is the list of the bytes from there on.
pub mod Radiotap
pub mod Body
pub mod Frame
pub mod Device
mod Safe
mod Tests
use openwrt_demo.Prelude.{
  ℕ, ◌+◌, ◌*◌, ◌^◌, ◌<◌, ◌≡◌, refl, List, arith, length, Run, ok, ◌>>=◌, read, read-lt,
}

-- rd_le16, and the same written out in ieee80211.c and frame.c
abbrev pub read_le16 : List ℕ → ℕ → Run ℕ
read_le16 d i = do lo ← read d i; hi ← read d (i + 1); ok (lo + hi * 2 ^ 8)

-- rd_le32
abbrev pub read_le32 : List ℕ → ℕ → Run ℕ
read_le32 d i = do
  a ← read d i
  b ← read d (i + 1)
  c ← read d (i + 2)
  e ← read d (i + 3)
  ok (a + b * 2 ^ 8 + c * 2 ^ 16 + e * 2 ^ 24)

pub read_le16-lt : (d : List ℕ) (i : ℕ) → i + 1 < length d → (v : ℕ) × (read_le16 d i ≡ ok v)
read_le16-lt d i h =
    let (a, ea) = read-lt d i (omega arith) in
    let (b, eb) = read-lt d (i + 1) h in (a + b * 2 ^ 8, rw (ea, eb))

pub read_le32-lt : (d : List ℕ) (i : ℕ) → i + 3 < length d → (v : ℕ) × (read_le32 d i ≡ ok v)
read_le32-lt d i h =
    let (a, ea) = read-lt d i (omega arith) in
    let (b, eb) = read-lt d (i + 1) (omega arith) in
    let (c, ec) = read-lt d (i + 2) (omega arith) in
    let (e, ee) = read-lt d (i + 3) h in
    (a + b * 2 ^ 8 + c * 2 ^ 16 + e * 2 ^ 24, rw (ea, eb, ec, ee))
