-- ===== src/Dav/Path/Href.antt =====
-- The links that the listing of dav-bridge/src/dav-bridge.c prints, read back by its own decoder.
use openwrt_demo.Prelude.{
  take_all, ℕ, ◌/◌, ◌%◌, ◌≤◌, ◌<◌, ◌≡◌, refl, ap, true, false, Option, none, some, List, [], ◌∷◌,
  ◌++◌, inl, inr, ◌==◌, Bool-cases, arith, length, All, append_nil, leb, false,
}
use openwrt_demo.Proto.Http.{starts_with}
use openwrt_demo.Dav.Path.{
  sd_root, dav_prefix, hex_val, escaped, put_byte, percent_decode, has_dotdot, make_fs_path,
  max_path_len, request_path, at_boundary, uri_safe, upper_digit, href_bytes, print_href, path_max,
  is_alnum,
}

-- a byte of a C string
abbrev IsByte : ℕ → Type 0
IsByte c = (0 < c) × (c < 256)

decode-plain :
    (c : ℕ) (cs : List ℕ)
    → (c == b'%') ≡ false
    → percent_decode (c ∷ cs) ≡ put_byte (some c) (percent_decode cs)
unfolding percent_decode put_byte
decode-plain c [] h = rw h refl
decode-plain c (x ∷ []) h = rw h refl
decode-plain c (x ∷ y ∷ zs) h = rw h refl

decode-escape :
    (h l : ℕ) (cs : List ℕ)
    → percent_decode (b'%' ∷ h ∷ l ∷ cs)
      ≡ put_byte (escaped (hex_val h) (hex_val l)) (percent_decode cs)
unfolding percent_decode
decode-escape h l cs = refl

hex_val-upper_digit : (d : ℕ) → d < 16 → hex_val (upper_digit d) ≡ some d
unfolding hex_val upper_digit
hex_val-upper_digit d h = ground arith

uri_safe-plain : (c : ℕ) → uri_safe c ≡ true → (c == b'%') ≡ false
unfolding uri_safe is_alnum
uri_safe-plain c h = ground arith

escaped-byte : (c : ℕ) → IsByte c → escaped (some (c / 16)) (some (c % 16)) ≡ some c
unfolding escaped
escaped-byte c h = ground arith

decode-href_bytes : (s : List ℕ) → All IsByte s → percent_decode (href_bytes s) ≡ some s
unfolding href_bytes percent_decode put_byte
decode-href_bytes [] h = refl
decode-href_bytes (c ∷ cs) h =
    let rest = decode-href_bytes cs h.1 in
    elim (Bool-cases (uri_safe c)) [
      | inl safe ↦ rw safe (rw (decode-plain c (href_bytes cs) (uri_safe-plain c safe), rest) refl)
      | inr other ↦ rw other (
          rw
            (
              decode-escape (upper_digit (c / 16)) (upper_digit (c % 16)) (href_bytes cs),
              hex_val-upper_digit (c / 16) (omega (arith, h.0.1)),
              hex_val-upper_digit (c % 16) (omega arith),
              escaped-byte c h.0,
              rest,
            )
            refl)
    ]

length-href_bytes : (s : List ℕ) → length s ≤ length (href_bytes s)
unfolding href_bytes
length-href_bytes [] = omega arith
length-href_bytes (c ∷ cs) =
    let rest = length-href_bytes cs in
    elim (Bool-cases (uri_safe c)) [
      | inl safe ↦ rw safe (omega (arith, rest))
      | inr other ↦ rw other (omega (arith, rest))
    ]

-- what the bridge makes of it then
pub resolve : Option (List ℕ) → Option (List ℕ)
resolve none = none
resolve (some path) = make_fs_path path path_max

-- The link printed for a file below the root leads back to that file: decoded and resolved it is
-- the path it was printed for, if no component of the path is ".." and the link has less than the
-- 1024 bytes that a request's path may have.
pub resolve-print_href :
    (rel : List ℕ)
    → All IsByte rel
    → at_boundary rel ≡ true
    → has_dotdot rel ≡ false
    → length (print_href (sd_root ++ rel) false) < max_path_len
    → resolve (request_path (print_href (sd_root ++ rel) false)) ≡ some (sd_root ++ rel)
unfolding resolve request_path print_href make_fs_path starts_with href_bytes uri_safe is_alnum
resolve-print_href rel bytes ends below fits =
    let whole : percent_decode (href_bytes (dav_prefix ++ rel)) ≡ some (dav_prefix ++ rel) =
      decode-href_bytes (dav_prefix ++ rel) (
        (omega arith, omega arith),
        (
          (omega arith, omega arith),
          ((omega arith, omega arith), ((omega arith, omega arith), bytes)),
        ),
      ) in
    let same = append_nil (href_bytes rel) in
    let long = length-href_bytes (dav_prefix ++ rel) in
    let room : length (sd_root ++ rel) ≤ 4095 = omega (arith, fits, ap length same, long) in
    let admitted : leb max_path_len (length (href_bytes (dav_prefix ++ rel))) ≡ false =
      ground (arith, fits, ap length same) in
    rw same
      (rw (admitted, whole) (rw (ends, below) (ap some (take_all 4095 (sd_root ++ rel) room))))
