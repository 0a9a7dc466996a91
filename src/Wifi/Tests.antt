-- ===== src/Wifi/Tests.antt =====
-- A captured frame, and the theorems at it.
use openwrt_demo.Wifi.Radiotap.{int8, present, take_field, field, bits, fields, enumerate, parse}
use openwrt_demo.Wifi.Body.{store, element, elements, parse_body}
use openwrt_demo.Wifi.Body.Elements.{encode, parse_body-said}
use openwrt_demo.Wifi.Frame.{
  observed, parse_header, observation, with_header, with_radiotap, process_frame,
}
use openwrt_demo.Wifi.Device.{
  Device, Settings, bin_mid, collect_chain, ended, event_of, first_name, skip_spaces, seen,
  note_time, note_ssid, note_ap, note_rssi, joined, rssi_to_bin, fresh, key_of, observe, init,
}
use openwrt_demo.Crypto.Words.{hex}
use openwrt_demo.Wifi.Safe.{Sound, process_frame-Sound}
use openwrt_demo.Prelude.{
  ℕ, ◌≡◌, refl, true, false, some, List, [], ◌∷◌, ◌++◌, replicate, bytes_of, ok, Returns, negsuc,
}

abbrev ssid : List (ℕ × List ℕ)
ssid = (0, bytes_of "home") ∷ (1, 2 ∷ 4 ∷ []) ∷ (221, 7 ∷ []) ∷ []

-- a radiotap header with a signal of -60, and a frame of the type and subtype of a probe request
abbrev frame : List ℕ
frame =
    (0 ∷ 0 ∷ 9 ∷ 0 ∷ 0x20 ∷ 0 ∷ 0 ∷ 0 ∷ 0xc4 ∷ [])
    ++ (0x40 ∷ 0 ∷ 0 ∷ 0 ∷ [])
    ++ replicate 6 0xff
    ++ (1 ∷ 2 ∷ 3 ∷ 4 ∷ 5 ∷ 6 ∷ [])
    ++ replicate 8 0xff
    ++ (0 ∷ 0 ∷ 0 ∷ 0 ∷ [])
    ++ encode ssid

captured :
    process_frame frame
    ≡ ok (observed (1 ∷ 2 ∷ 3 ∷ 4 ∷ 5 ∷ 6 ∷ []) (negsuc 59) (bytes_of "home") false)
unfolding process_frame with_radiotap parse_header with_header observation parse enumerate fields
    bits field take_field present int8 parse_body elements element store
captured = refl

process_frame-Sound_example : Returns (process_frame frame) Sound
process_frame-Sound_example = process_frame-Sound frame

parse_body-said_example :
    parse_body ((9 ∷ 9 ∷ 9 ∷ 9 ∷ []) ++ encode ssid) 8
    ≡ ok (
        some (record {
          ssid = bytes_of "home";
          ssid_broadcast = false;
          is_beacon = true;
          rates = 2 ∷ 4 ∷ [];
        }))
parse_body-said_example = parse_body-said 9 9 9 9 8 ssid

abbrev cfg : Settings
cfg = record {
  anonymize_mac = false;
  mac_salt = [];
  session_gap = 300;
  rssi_near = negsuc 54;
  rssi_mid = negsuc 64;
}

abbrev address : List ℕ
address = 1 ∷ 2 ∷ 3 ∷ 4 ∷ 5 ∷ 6 ∷ []

abbrev table : List (List Device)
table = observe true cfg address (negsuc 59) (bytes_of "home") false 10 init

-- stands in the chain of its key, with the first name behind a space
observed_device :
    (collect_chain 300 400 8
      (seen cfg (negsuc 59) (bytes_of "home") false 10 (fresh (key_of cfg address) 10) ∷ [])
      []).1
    ≡ record {
      mac_key = bytes_of "010203040506";
      start = 10;
      stop = 400;
      ssid = bytes_of "home";
      rssi_bin = bin_mid;
      is_ap = false;
      best_rssi = negsuc 59;
      worst_rssi = negsuc 59;
    }
      ∷ []
unfolding collect_chain ended event_of first_name skip_spaces seen note_time note_ssid note_ap
    note_rssi joined rssi_to_bin fresh key_of hex
observed_device = refl
