-- ===== src/Wifi/Safe.antt =====
-- The accesses of `wp_capture_process_frame` are in range.
use openwrt_demo.Wifi.{read_le16-lt}
use openwrt_demo.Wifi.Radiotap.{Radiotap}
use openwrt_demo.Wifi.Radiotap.Safe.{parse-Runs}
use openwrt_demo.Wifi.Body.{Probe}
use openwrt_demo.Wifi.Body.Safe.{OptionFits, parse_body-Fits}
use openwrt_demo.Wifi.Frame.{
  Header, Outcome, rejected, ignored, observed, parse_header, observation, with_header,
  with_radiotap, process_frame,
}
use openwrt_demo.Prelude.{
  ℕ, ◌≤◌, ◌<◌, ◌≡◌, refl, not, ◌&&◌, ◌||◌, Option, none, some, List, [], ◌∷◌, inl, inr, ltb, ◌==◌,
  Bool-cases, arith, ltb→ge, length, drop, Returns, read_block-le, cut_at,
}

-- An address has six bytes, and the name leaves room for its terminator in 256 bytes.
abbrev pub Sound : Outcome → Type 0
Sound rejected = Unit
Sound ignored = Unit
Sound (observed sa rssi ssid is_ap) = (length sa ≡ 6) × (length ssid < 256)

abbrev HeaderSound : Option Header → Type 0
HeaderSound none = Unit
HeaderSound (some h) = length h.sa ≡ 6

cut_at-length : (c : ℕ) (s : List ℕ) → length (cut_at c s) ≤ length s
cut_at-length c [] = omega arith
cut_at-length c (x ∷ xs) = elim (Bool-cases (x == c)) [
  | inl end ↦ rw end (omega arith)
  | inr more ↦ rw more (omega (arith, cut_at-length c xs))
]

parse_header-Sound : (d : List ℕ) → Returns (parse_header d) HeaderSound
unfolding parse_header
parse_header-Sound d = elim (Bool-cases (ltb (length d) 24)) [
  | inl short ↦ rw short (none, refl, tt)
  | inr long ↦
      let room = ltb→ge _ _ long in
      let (fc, e) = read_le16-lt d 0 (omega (arith, room)) in
      let (da, f, _) = read_block-le d 4 6 (omega (arith, room)) in
      let (sa, g, n) = read_block-le d 10 6 (omega (arith, room)) in
      let (bssid, h, _) = read_block-le d 16 6 (omega (arith, room)) in
      rw (long, e, f, g, h) (_, refl, n)
]

observation-Sound :
    (h : Header) (rt : Radiotap) (p : Option Probe)
    → length h.sa ≡ 6
    → OptionFits p
    → Sound (observation h rt p)
unfolding observation
observation-Sound h rt none six fits = tt
observation-Sound h rt (some p) six fits = (six, omega (arith, fits.ssid, cut_at-length 0 p.ssid))

with_header-Sound :
    (rt : Radiotap) (h : Option Header) → HeaderSound h → Returns (with_header rt h) Sound
unfolding with_header
with_header-Sound rt none six = (rejected, refl, tt)
with_header-Sound rt (some h) six =
    elim (Bool-cases (not (h.frame_type == 0) || not (h.subtype == 4) && not (h.subtype == 8))) [
      | inl other ↦ rw other (ignored, refl, tt)
      | inr probe ↦
          let (p, e, fits) = parse_body-Fits h.body h.subtype in
          rw (probe, e) (_, refl, observation-Sound h rt p six fits)
    ]

with_radiotap-Sound : (d : List ℕ) (rt : Option Radiotap) → Returns (with_radiotap d rt) Sound
unfolding with_radiotap
with_radiotap-Sound d none = (rejected, refl, tt)
with_radiotap-Sound d (some rt) = elim (Bool-cases (ltb (length d) 24)) [
  | inl short ↦ rw short (rejected, refl, tt)
  | inr long ↦ let (h, e, six) = parse_header-Sound d in rw (long, e) (with_header-Sound rt h six)
]

-- Whatever bytes are captured, no access to the frame is out of range, and what is observed is an
-- address of six bytes and a name of fewer than 256.
pub process_frame-Sound : (bytes : List ℕ) → Returns (process_frame bytes) Sound
unfolding process_frame
process_frame-Sound bytes = elim (Bool-cases (ltb (length bytes) 8)) [
  | inl short ↦ rw short (rejected, refl, tt)
  | inr long ↦
      let room = ltb→ge _ _ long in
      let (rtlen, e) = read_le16-lt bytes 2 (omega (arith, room)) in
      elim (Bool-cases (ltb rtlen 8 || ltb (length bytes) rtlen)) [
        | inl bad ↦ rw (long, e, bad) (rejected, refl, tt)
        | inr good ↦
            let inside : rtlen ≤ length bytes = ground (arith, good) in
            let (rt, f) = parse-Runs bytes rtlen inside in
            rw (long, e, good, f) (with_radiotap-Sound (drop rtlen bytes) rt)
      ]
]
