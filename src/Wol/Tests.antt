-- ===== src/Wol/Tests.antt =====
-- Packets through the relay, and its theorems at concrete packets.
use openwrt_demo.Wol.{
  Ifa, Config, Packet, wol_pkt_len, repeats, parse_magic, copies, build_magic, is_dup, dup_scan,
  dup_record, dup_check, source_allowed, at_slash, broadcast_of, mask_of, dst_of, own_packet,
  in_range, prefix_length, cidr_of, parse_cidr, allowed_range, find_lan, get_lan_info, target_of,
  send_out, relay_new, relay_magic, handle, empty_table,
}
use openwrt_demo.Wol.Magic.{parse_magic-build_magic}
use openwrt_demo.Wol.Relay.{handle-once}
use openwrt_demo.Prelude.{
  ℕ, ◌+◌, ◌*◌, ◌/◌, ◌%◌, ◌≡◌, ◌↔◌, refl, Option, none, some, List, [], ◌∷◌, ◌++◌, arith, take,
  replicate, bytes_of, ℤ, pos,
}

-- `htonl` of a machine with the low byte first
abbrev htonl : ℕ → ℕ
htonl n = n % 256 * 16777216 + n / 256 % 256 * 65536 + n / 65536 % 256 * 256 + n / 16777216

abbrev inet_pton : List ℕ → Option ℕ
inet_pton s = some 0

abbrev strtol : List ℕ → ℤ × List ℕ
strtol s = (pos 0, [])

abbrev mac : List ℕ
mac = 1 ∷ 2 ∷ 3 ∷ 4 ∷ 5 ∷ 6 ∷ []

abbrev magic : List ℕ
magic =
    replicate 6 0xff
    ++ mac
    ++ mac
    ++ mac
    ++ mac
    ++ mac
    ++ mac
    ++ mac
    ++ mac
    ++ mac
    ++ mac
    ++ mac
    ++ mac
    ++ mac
    ++ mac
    ++ mac
    ++ mac

abbrev cfg : Config
cfg = record { lan_ifname = bytes_of "eth0"; lan_broadcast = []; allow_cidr = bytes_of "0.0.0.0/0" }

-- 192.168.1.1/24, which has the broadcast address 192.168.1.255
abbrev lan : Ifa
lan = record {
  name = bytes_of "eth0";
  addr = some 0x0101a8c0;
  netmask = some 0x00ffffff;
  broadaddr = none;
}

abbrev packet : Packet
packet = record {
  bytes = magic ++ 7 ∷ [];
  src = 0x0200000a;
  pktinfo = some (0xff00000a, 3);
  now = 100;
  ifindex = 2;
  interfaces = some (lan ∷ []);
}

sent : (handle htonl inet_pton strtol cfg 1 empty_table packet).0 ≡ some (0xff01a8c0, magic)
unfolding handle relay_magic relay_new send_out get_lan_info find_lan broadcast_of target_of dst_of
    own_packet allowed_range parse_cidr cidr_of prefix_length in_range mask_of at_slash
    source_allowed parse_magic repeats build_magic copies dup_check dup_scan dup_record is_dup
sent = refl

parse_magic-build_magic_example :
    (parse_magic magic ≡ some mac) ↔ (take wol_pkt_len magic ≡ build_magic mac)
parse_magic-build_magic_example = parse_magic-build_magic magic mac refl

handle-once_example :
    (handle htonl inet_pton strtol cfg 1
      (handle htonl inet_pton strtol cfg 1 empty_table packet).1
      (record packet { bytes = magic; now = 104 })).0
    ≡ none
unfolding parse_magic repeats
handle-once_example =
    handle-once htonl inet_pton strtol cfg cfg 1 1 empty_table packet
      (record packet { bytes = magic; now = 104 }) 0xff01a8c0 magic (omega arith) (omega arith) sent
      refl refl (omega arith)
