-- ===== src/Wifi/Device.antt =====
-- wifi-probe/src/device.c: the table of devices and their visits. The table is passed and returned;
-- the settings, the time and the allocator's answer are arguments. A flag is a Boolean, and a string
-- is the list of its bytes. The devices' records are only written through the table.
pub mod Visits
use Prim.Native.Nat.{bit_xor}
use openwrt_demo.Crypto.Words.{hex, length_be}
use openwrt_demo.Prelude.{
  ℕ, zero, suc, ◌+◌, ◌*◌, ◌%◌, ◌^◌, Bool, true, false, not, ◌&&◌, ◌||◌, Option, none, some, List,
  [], ◌∷◌, ◌++◌, ltb, ◌==◌, if◌then◌else◌, length, get_or, set, take, replicate, same_bytes,
  bytes_of, cut_at, ℤ, pos, negsuc, ltb_int, leb_int,
}

abbrev pub dev_buckets : ℕ
dev_buckets = 256

-- `enum wp_rssi_bin`
pub data RssiBin : Type 0 where
  bin_unknown : RssiBin
  bin_near : RssiBin
  bin_mid : RssiBin
  bin_far : RssiBin

abbrev pub is_zero : ℤ → Bool
is_zero (pos n) = n == 0
is_zero (negsuc n) = false

-- `wp_rssi_to_bin`
unfoldable pub rssi_to_bin : ℤ → ℤ → ℤ → RssiBin
rssi_to_bin rssi near mid =
    if is_zero rssi
    then bin_unknown
    else if leb_int near rssi
    then bin_near
    else if leb_int mid rssi
    then bin_mid
    else bin_far

-- `wp_rssi_bin_name`
pub rssi_bin_name : RssiBin → List ℕ
rssi_bin_name bin_near = bytes_of "near"
rssi_bin_name bin_mid = bytes_of "mid"
rssi_bin_name bin_far = bytes_of "far"
rssi_bin_name bin_unknown = bytes_of "unknown"

-- h ^= b; h *= 1099511628211ULL; for every byte
pub fnv : ℕ → List ℕ → ℕ
fnv h [] = h
fnv h (b ∷ bs) = fnv (bit_xor h b * 1099511628211 % 2 ^ 64) bs

-- `wp_anon_mac`
pub anon_mac : List ℕ → List ℕ → List ℕ
anon_mac sa salt = hex (length_be (fnv (fnv 1469598103934665603 salt) (take 6 sa)))

-- `bucket`, for a key of ASCII characters, from the sum h on
pub hash_key : ℕ → List ℕ → ℕ
hash_key h [] = h % dev_buckets
hash_key h (c ∷ cs) = hash_key ((h * 31 + c) % 2 ^ 32) cs

abbrev pub bucket : List ℕ → ℕ
bucket = hash_key 0

-- `struct wp_device`; the chain is the list
pub record Device : Type 0 where
  pub mac_key : List ℕ
  pub first_seen : ℕ
  pub last_seen : ℕ
  pub visit_start : ℕ
  pub visit_count : ℕ
  pub in_visit : Bool
  pub best_rssi : ℤ
  pub worst_rssi : ℤ
  pub rssi_bin : RssiBin
  pub is_ap : Bool
  pub ssids : List ℕ

-- the settings that are read; the gap is not negative
pub record Settings : Type 0 where
  pub anonymize_mac : Bool
  pub mac_salt : List ℕ
  pub session_gap : ℕ
  pub rssi_near : ℤ
  pub rssi_mid : ℤ

-- `struct wp_visit_event`
pub record VisitEvent : Type 0 where
  pub mac_key : List ℕ
  pub start : ℕ
  pub stop : ℕ
  pub ssid : List ℕ
  pub rssi_bin : RssiBin
  pub is_ap : Bool
  pub best_rssi : ℤ
  pub worst_rssi : ℤ

-- the key of an address
unfoldable pub key_of : Settings → List ℕ → List ℕ
key_of cfg sa = if cfg.anonymize_mac then anon_mac sa cfg.mac_salt else hex (take 6 sa)

-- what `dev_get_or_create` fills in
unfoldable pub fresh : List ℕ → ℕ → Device
fresh k now = record {
  mac_key = take 16 k;
  first_seen = now;
  last_seen = now;
  visit_start = now;
  visit_count = 1;
  in_visit = true;
  best_rssi = negsuc 126;
  worst_rssi = pos 0;
  rssi_bin = bin_unknown;
  is_ap = false;
  ssids = [];
}

-- if (rssi != 0) { … }
unfoldable pub note_rssi : Settings → ℤ → Device → Device
note_rssi cfg rssi d = if is_zero rssi then d else record d {
  best_rssi = if ltb_int d.best_rssi rssi then rssi else d.best_rssi;
  worst_rssi = if is_zero d.worst_rssi || ltb_int rssi d.worst_rssi then rssi else d.worst_rssi;
  rssi_bin = rssi_to_bin rssi cfg.rssi_near cfg.rssi_mid;
}

-- snprintf(tmp, sizeof(tmp), "%s%c%s", …); a name is appended where there is room
unfoldable pub joined : List ℕ → List ℕ → List ℕ
joined [] ssid = take 1199 (b' ' ∷ ssid)
joined (c ∷ cs) ssid = take 1199 ((c ∷ cs) ++ b',' ∷ ssid)

unfoldable pub note_ssid : List ℕ → Device → Device
note_ssid [] d = d
note_ssid (c ∷ cs) d =
    if ltb (length (joined d.ssids (c ∷ cs))) 1024
    then record d { ssids = joined d.ssids (c ∷ cs) }
    else d

unfoldable pub note_ap : Bool → Device → Device
note_ap is_ap d = if is_ap then record d { is_ap = true } else d

-- from d->last_seen = now on
unfoldable pub note_time : ℕ → Device → Device
note_time now d = if d.in_visit then record d { last_seen = now } else record d {
  last_seen = now;
  in_visit = true;
  visit_start = now;
  visit_count = d.visit_count + 1;
}

-- what `wp_dev_observe` does to the device
unfoldable pub seen : Settings → ℤ → List ℕ → Bool → ℕ → Device → Device
seen cfg rssi ssid is_ap now d =
    note_time now (note_ssid ssid (note_ap is_ap (note_rssi cfg rssi d)))

-- the device of a key, changed where it stands in the chain; none where there is none
pub change : List ℕ → (Device → Device) → List Device → Option (List Device)
change k f [] = none
change k f (d ∷ ds) = elim (same_bytes d.mac_key k) [
  | true ↦ some (f d ∷ ds)
  | false ↦ elim (change k f ds) [ none ↦ none | some rest ↦ some (d ∷ rest) ]
]

pub observe_in :
    Bool
    → List ℕ
    → (Device → Device)
    → ℕ
    → List (List Device)
    → Option (List Device)
    → List (List Device)
observe_in calloc k f now table (some chain) = set table (bucket k) chain
observe_in calloc k f now table none =
    if calloc then set table (bucket k) (f (fresh k now) ∷ get_or table (bucket k) []) else table

-- `wp_dev_observe`
pub observe :
    Bool → Settings → List ℕ → ℤ → List ℕ → Bool → ℕ → List (List Device) → List (List Device)
observe calloc cfg sa rssi ssid is_ap now table =
    let k = key_of cfg sa in
    let f = seen cfg rssi ssid is_ap now in
    observe_in calloc k f now table (change k f (get_or table (bucket k) []))

-- while (*sp == ' ') sp++;
unfoldable pub skip_spaces : List ℕ → List ℕ
skip_spaces [] = []
skip_spaces (c ∷ cs) = let rest = skip_spaces cs in if c == 32 then rest else c ∷ cs

-- the first of the names
unfoldable pub first_name : List ℕ → List ℕ
first_name ssids = take 255 (cut_at b',' (skip_spaces ssids))

unfoldable pub event_of : ℕ → Device → VisitEvent
event_of now d = record {
  mac_key = take 16 d.mac_key;
  start = d.visit_start;
  stop = now;
  ssid = first_name d.ssids;
  rssi_bin = d.rssi_bin;
  is_ap = d.is_ap;
  best_rssi = d.best_rssi;
  worst_rssi = d.worst_rssi;
}

-- the visit is open and its device has not been seen for longer than the gap
unfoldable pub ended : ℕ → ℕ → Device → Bool
ended gap now d = d.in_visit && not d.is_ap && ltb (d.last_seen + gap) now

-- the inner loop of `wp_dev_collect_ended_visits`, with the events so far
unfoldable pub collect_chain :
    ℕ → ℕ → ℕ → List Device → List VisitEvent → List Device × List VisitEvent
collect_chain gap now max [] evs = ([], evs)
collect_chain gap now max (d ∷ ds) evs = elim (ended gap now d && ltb (length evs) max) [
  | true ↦
      (let (rest, out) = collect_chain gap now max ds (evs ++ event_of now d ∷ []) in
        (record d { in_visit = false } ∷ rest, out))
  | false ↦ (let (rest, out) = collect_chain gap now max ds evs in (d ∷ rest, out))
]

pub collect_buckets :
    ℕ → ℕ → ℕ → List (List Device) → List VisitEvent → List (List Device) × List VisitEvent
collect_buckets gap now max [] evs = ([], evs)
collect_buckets gap now max (b ∷ bs) evs =
    let (chain, more) = collect_chain gap now max b evs in
    let (rest, out) = collect_buckets gap now max bs more in (chain ∷ rest, out)

-- `wp_dev_collect_ended_visits`; the events that it writes, whose number it returns
pub collect_ended_visits :
    Settings → ℕ → ℕ → List (List Device) → List (List Device) × List VisitEvent
collect_ended_visits cfg now max table = collect_buckets cfg.session_gap now max table []

-- `wp_dev_init`
abbrev pub init : List (List Device)
init = replicate dev_buckets []
