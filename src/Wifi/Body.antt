-- ===== src/Wifi/Body.antt =====
-- wifi-probe/src/probe.c: the elements of a probe request or of a beacon.
pub mod Safe
pub mod Elements
use openwrt_demo.Prelude.{
  ℕ, zero, suc, ◌+◌, ◌-◌, Bool, true, false, ◌||◌, Option, none, some, List, [], ◌∷◌, ◌++◌, ltb,
  leb, ◌==◌, if◌then◌else◌, length, Run, ok, ◌>>=◌, read, read_block,
}

-- `struct wp_probe`; the name is its first `ssid_len` bytes, and the rates are `n_rates` numbers
pub record Probe : Type 0 where
  pub ssid : List ℕ
  pub ssid_broadcast : Bool
  pub is_beacon : Bool
  pub rates : List ℕ

-- if (cl > WP_SSID_MAX - 1) cl = WP_SSID_MAX - 1;
abbrev pub clip_ssid : ℕ → ℕ
clip_ssid ilen = if ltb 255 ilen then 255 else ilen

-- the rounds of the loop over the rates
abbrev pub rate_count : ℕ → ℕ → ℕ
rate_count n_rates ilen = if ltb (32 - n_rates) ilen then 32 - n_rates else ilen

-- what an element says; `off` is where its value begins
unfoldable pub store : List ℕ → ℕ → ℕ → ℕ → Probe → Run Probe
store body id ilen off p =
    if id == 0
    then (do
      ssid ← read_block body off (clip_ssid ilen)
      ok (record p { ssid = ssid; ssid_broadcast = ilen == 0 || p.ssid_broadcast }))
    else if id == 1 || id == 50
    then (do
      values ← read_block body off (rate_count (length p.rates) ilen)
      ok (record p { rates = p.rates ++ values }))
    else ok p

unfoldable pub element : (ℕ → Probe → Run Probe) → List ℕ → ℕ → Probe → Run Probe
element rest body off p = do
  id ← read body off
  ilen ← read body (off + 1)
  if ltb (length body) (off + 2 + ilen)
      then ok p
      else do next ← store body id ilen (off + 2) p; rest (off + 2 + ilen) next

-- the loop
unfoldable pub elements : ℕ → List ℕ → ℕ → Probe → Run Probe
elements zero body off p = ok p
elements (suc fuel) body off p = elim (leb (off + 2) (length body)) [
  | false ↦ ok p
  | true ↦ element (elements fuel body) body off p
]

-- `wp_parse_mgmt_body`; none is the return value -1
unfoldable pub parse_body : List ℕ → ℕ → Run (Option Probe)
parse_body body subtype = if ltb (length body) 4 then ok none else do
  p ←
      elements (length body) body 4
        (record { ssid = []; ssid_broadcast = false; is_beacon = subtype == 8; rates = [] })
  ok (some p)
