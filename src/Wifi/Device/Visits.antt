-- ===== src/Wifi/Device/Visits.antt =====
-- The visits that are closed and reported.
use openwrt_demo.Wifi.Device.{Device, VisitEvent, ended}
use openwrt_demo.Prelude.{
  ℕ, ◌+◌, ◌<◌, ◌≡◌, true, false, List, [], ◌∷◌, ◌++◌, ◌⊎◌, if◌then◌else◌, take, drop,
}

-- The visit is open, and its device, which is no access point, was not seen for longer than the gap.
pub record HasEnded (gap now : ℕ) (d : Device) : Type 0 where
  pub in_visit : d.in_visit ≡ true
  pub client : d.is_ap ≡ false
  pub silent : d.last_seen + gap < now

-- the devices of a list whose visit has ended, in order
unfoldable pub ended_of : ℕ → ℕ → List Device → List Device
ended_of gap now [] = []
ended_of gap now (d ∷ ds) =
    let rest = ended_of gap now ds in if ended gap now d then d ∷ rest else rest

abbrev pub devices : List (List Device) → List Device
devices [] = []
devices (b ∷ bs) = b ++ devices bs

-- An event tells a device's visit, with the time as its end.
abbrev pub Tells : ℕ → Device → VisitEvent → Type 0
Tells now d ev =
    (ev.mac_key ≡ take 16 d.mac_key)
    × (ev.start ≡ d.visit_start)
    × (ev.stop ≡ now)
    × (ev.rssi_bin ≡ d.rssi_bin)
    × (ev.is_ap ≡ d.is_ap)
    × (ev.best_rssi ≡ d.best_rssi)
    × (ev.worst_rssi ≡ d.worst_rssi)

unfoldable pub Reports : ℕ → List Device → List VisitEvent → Type 0
Reports now [] [] = Unit
Reports now [] (ev ∷ evs) = ⊥
Reports now (d ∷ ds) [] = ⊥
Reports now (d ∷ ds) (ev ∷ evs) = Tells now d ev × Reports now ds evs

-- Every device is as before, but for visits that had ended and are closed.
unfoldable pub Closes : ℕ → ℕ → List Device → List Device → Type 0
Closes gap now [] [] = Unit
Closes gap now [] (d ∷ ds) = ⊥
Closes gap now (d ∷ ds) [] = ⊥
Closes gap now (d ∷ ds) (d' ∷ ds') =
    ((d' ≡ d) ⊎ (HasEnded gap now d × (d' ≡ record d { in_visit = false }))) × Closes gap now ds ds'

module _ (gap now max : ℕ) where
  -- What the loop over a chain makes, with room for `n` events.
  record Collects (n : ℕ) (ds ds' : List Device) (evs evs' : List VisitEvent) : Type 0 where
    new : List VisitEvent
    behind : evs' ≡ evs ++ new
    told : Reports now (take n (ended_of gap now ds)) new
    left : ended_of gap now ds' ≡ drop n (ended_of gap now ds)
    closes : Closes gap now ds ds'
