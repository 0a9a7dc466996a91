-- ===== src/Dav/Upload/Malformed.antt =====
-- What `sr_copy_until_boundary` of dav-bridge/src/dav-bridge.c answers for a body that was cut off.
use openwrt_demo.Prelude.{ℕ, ◌≡◌, false, List, drop}
use openwrt_demo.Proto.Http.{starts_with}
use openwrt_demo.Dav.Reader.{Reader}

-- The pattern stands nowhere in the bytes.
abbrev pub IsNowhere : List ℕ → List ℕ → Type 0
IsNowhere pat bytes = (j : ℕ) → starts_with pat (drop j bytes) ≡ false
