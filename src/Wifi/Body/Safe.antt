-- ===== src/Wifi/Body/Safe.antt =====
-- The accesses of `wp_parse_mgmt_body` are in range, and what it stores fits `struct wp_probe`.
use openwrt_demo.Wifi.Body.{Probe, clip_ssid, rate_count, store, element, elements, parse_body}
use openwrt_demo.Prelude.{
  ℕ, zero, suc, ◌+◌, ◌≤◌, ◌<◌, refl, false, ◌||◌, Option, none, some, List, [], inl, inr, ltb, leb,
  ◌==◌, Bool-cases, arith, ltb→ge, leb→le, length, length-append, Returns, read-lt, read_block-le,
}

-- The name leaves room for its terminator in 256 bytes, and there are 32 rates at most.
pub record Fits (p : Probe) : Type 0 where
  pub ssid : length p.ssid < 256
  pub rates : length p.rates ≤ 32

store-Fits :
    (body : List ℕ) (id ilen off : ℕ) (p : Probe)
    → off + ilen ≤ length body
    → Fits p
    → Returns (store body id ilen off p) Fits
unfolding store
store-Fits body id ilen off p le h = elim (Bool-cases (id == 0)) [
  | inl name ↦
      let (small, inside) : (clip_ssid ilen < 256) × (clip_ssid ilen ≤ ilen) = ground arith in
      let (ssid, e, n) = read_block-le body off (clip_ssid ilen) (omega (arith, le, inside)) in
      rw (name, e) (_, refl, record { ssid = omega (arith, n, small); rates = h.rates })
  | inr other ↦ elim (Bool-cases (id == 1 || id == 50)) [
    | inr unknown ↦ rw (other, unknown) (p, refl, h)
    | inl rates ↦
        let count = rate_count (length p.rates) ilen in
        let (small, inside) : (length p.rates + count ≤ 32) × (count ≤ ilen) =
          ground (arith, h.rates) in
        let (values, e, n) = read_block-le body off count (omega (arith, le, inside)) in
        rw (other, rates, e)
          (
            _,
            refl,
            record { ssid = h.ssid; rates = omega (arith, length-append p.rates values, n, small) },
          )
  ]
]

elements-Fits :
    (fuel : ℕ) (body : List ℕ) (off : ℕ) (p : Probe)
    → Fits p
    → Returns (elements fuel body off p) Fits
unfolding elements element
elements-Fits zero body off p h = (p, refl, h)
elements-Fits (suc fuel) body off p h = elim (Bool-cases (leb (off + 2) (length body))) [
  | inr end ↦ rw (end, elements) (p, refl, h)
  | inl more ↦
      let room = leb→le _ _ more in
      let (id, e) = read-lt body off (omega (arith, room)) in
      let (ilen, f) = read-lt body (off + 1) (omega (arith, room)) in
      elim (Bool-cases (ltb (length body) (off + 2 + ilen))) [
        | inl cut ↦ rw (more, elements, e, f, cut) (p, refl, h)
        | inr whole ↦
            let (next, g, k) =
              store-Fits body id ilen (off + 2) p (omega (arith, ltb→ge _ _ whole)) h in
            rw (more, elements, e, f, whole, g) (elements-Fits fuel body (off + 2 + ilen) next k)
      ]
]

abbrev pub OptionFits : Option Probe → Type 0
OptionFits none = Unit
OptionFits (some p) = Fits p

pub parse_body-Fits : (body : List ℕ) (subtype : ℕ) → Returns (parse_body body subtype) OptionFits
unfolding parse_body
parse_body-Fits body subtype = elim (Bool-cases (ltb (length body) 4)) [
  | inl short ↦ rw short (none, refl, tt)
  | inr long ↦
      let (p, e, h) =
        elements-Fits (length body) body 4
          (record { ssid = []; ssid_broadcast = false; is_beacon = subtype == 8; rates = [] })
          (record { ssid = omega arith; rates = omega arith }) in
      rw (long, e) (some p, refl, h)
]
