-- ===== src/Wifi/Frame.antt =====
-- wifi-probe/src/ieee80211.c and frame.c: the header of a frame, and what a frame shows of a device.
use openwrt_demo.Wifi.{read_le16}
use openwrt_demo.Wifi.Radiotap.{Radiotap, parse}
use openwrt_demo.Wifi.Body.{Probe, parse_body}
use openwrt_demo.Prelude.{
  ℕ, ◌/◌, ◌%◌, Bool, not, ◌&&◌, ◌||◌, Option, none, some, List, ltb, ◌==◌, if◌then◌else◌, length,
  drop, Run, ok, ◌>>=◌, read_block, cut_at, ℤ, pos,
}

-- `struct wp_ieee80211`; `frame_type` is its `type`
pub record Header : Type 0 where
  pub frame_type : ℕ
  pub subtype : ℕ
  pub da : List ℕ
  pub sa : List ℕ
  pub bssid : List ℕ
  pub body : List ℕ

-- `wp_ieee80211_parse`; none is the return value -1
unfoldable pub parse_header : List ℕ → Run (Option Header)
parse_header d = if ltb (length d) 24 then ok none else do
  fc ← read_le16 d 0
  da ← read_block d 4 6
  sa ← read_block d 10 6
  bssid ← read_block d 16 6
  ok (
      some (record {
        frame_type = fc / 4 % 4;
        subtype = fc / 16 % 16;
        da = da;
        sa = sa;
        bssid = bssid;
        body = drop 24 d;
      }))

-- The return values -1, 1 and 0; the last with the arguments of `wp_dev_observe`.
pub data Outcome : Type 0 where
  rejected : Outcome
  ignored : Outcome
  observed : (sa : List ℕ) (rssi : ℤ) (ssid : List ℕ) (is_ap : Bool) → Outcome

-- rt.have_rssi ? rt.rssi : 0
abbrev pub rssi_or_zero : Option ℤ → ℤ
rssi_or_zero none = pos 0
rssi_or_zero (some rssi) = rssi

-- The name is handed over as a C string.
unfoldable pub observation : Header → Radiotap → Option Probe → Outcome
observation h rt none = rejected
observation h rt (some p) = observed h.sa (rssi_or_zero rt.rssi) (cut_at 0 p.ssid) p.is_beacon

-- from the test of the frame's type on
unfoldable pub with_header : Radiotap → Option Header → Run Outcome
with_header rt none = ok rejected
with_header rt (some h) =
    if not (h.frame_type == 0) || not (h.subtype == 4) && not (h.subtype == 8)
    then ok ignored
    else do p ← parse_body h.body h.subtype; ok (observation h rt p)

-- from the test of the radiotap header on; `d` is behind that header
unfoldable pub with_radiotap : List ℕ → Option Radiotap → Run Outcome
with_radiotap d none = ok rejected
with_radiotap d (some rt) =
    if ltb (length d) 24 then ok rejected else do h ← parse_header d; with_header rt h

-- `wp_capture_process_frame`
unfoldable pub process_frame : List ℕ → Run Outcome
process_frame bytes = if ltb (length bytes) 8 then ok rejected else do
  rtlen ← read_le16 bytes 2
  if ltb rtlen 8 || ltb (length bytes) rtlen
      then ok rejected
      else do rt ← parse bytes rtlen; with_radiotap (drop rtlen bytes) rt
