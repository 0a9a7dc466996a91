-- ===== src/Dnsmap/Local.antt =====
-- This host's addresses and services: `mapping_init_local`, `mapping_free_local`,
-- `mapping_local_service` and `mapping_is_noise_ip`. `ntohl` is a parameter; `getifaddrs` gives the
-- list of interfaces, or none.
pub mod Stale
use Prim.Native.Nat.{bit_and}
use openwrt_demo.Prelude.{
  ℕ, zero, suc, ◌+◌, Bool, true, false, not, ◌&&◌, ◌||◌, Option, none, some, List, [], ◌∷◌, ◌++◌,
  ltb, ◌==◌, if◌then◌else◌, length, bytes_of,
}

abbrev pub max_local_addrs : ℕ
max_local_addrs = 64

-- the addresses and the broadcast addresses that are known
pub record Local : Type 0 where
  pub addrs : List ℕ
  pub bcasts : List ℕ

-- An interface: its IPv4 address, and its IPv4 broadcast address.
pub record Interface : Type 0 where
  pub addr : Option ℕ
  pub broadaddr : Option ℕ

-- the loop over an array
unfoldable pub among : ℕ → List ℕ → Bool
among ip [] = false
among ip (a ∷ rest) = a == ip || among ip rest

-- `is_local_ip`
unfoldable pub is_local_ip : ℕ → Local → Bool
is_local_ip ip l = among ip l.addrs

abbrev service : List ℕ → List ℕ → Option (List ℕ × List ℕ)
service app cat = some (app, cat)

-- the switch on the port
unfoldable pub service_of : ℕ → Option (List ℕ × List ℕ)
service_of port =
    if port == 8080 || port == 8443 || port == 443
    then service (bytes_of "CloudDriveWebDAV") (bytes_of "Local")
    else if port == 8081
    then service (bytes_of "MJPGStreamer") (bytes_of "Video")
    else if port == 80
    then service (bytes_of "LuCI") (bytes_of "Management")
    else if port == 53
    then service (bytes_of "DNS") (bytes_of "System")
    else if port == 22
    then service (bytes_of "SSH") (bytes_of "System")
    else if port == 445 || port == 139 || port == 137
    then service (bytes_of "Samba") (bytes_of "System")
    else if port == 51820
    then service (bytes_of "WireGuard") (bytes_of "VPN")
    else service (bytes_of "Local") (bytes_of "System")

-- `mapping_local_service`; none is the return value 0
unfoldable pub local_service : ℕ → ℕ → Local → Option (List ℕ × List ℕ)
local_service dst_ip dst_port l = if is_local_ip dst_ip l then service_of dst_port else none

-- `mapping_free_local`
pub free_local : Local → Local
free_local l = record l { addrs = [] }

module _ (ntohl : ℕ → ℕ) where
  -- what the body of the loop does with a broadcast address
  pub add_bcast : Option ℕ → Local → Local
  add_bcast none l = l
  add_bcast (some bcast) l =
      if ltb (length l.bcasts) max_local_addrs && not (bcast == 0)
      then record l { bcasts = l.bcasts ++ ntohl bcast ∷ [] }
      else l

  pub add_interface : Option ℕ → Option ℕ → Local → Local
  add_interface none broadaddr l = l
  add_interface (some ip) broadaddr l =
      if ip == 0 then l else add_bcast broadaddr (record l { addrs = l.addrs ++ ip ∷ [] })

  pub add_interfaces : List Interface → Local → Local
  add_interfaces [] l = l
  add_interfaces (i ∷ is) l =
      if ltb (length l.addrs) max_local_addrs
      then add_interfaces is (add_interface i.addr i.broadaddr l)
      else l

  -- `mapping_init_local`
  pub init_local : Option (List Interface) → Local → Local
  init_local none l = record l { addrs = [] }
  init_local (some interfaces) l = add_interfaces interfaces (record l { addrs = [] })

  -- `mapping_is_noise_ip`
  pub is_noise_ip : ℕ → Local → Bool
  is_noise_ip ip l =
      bit_and (ntohl ip) 0xF0000000 == 0xE0000000
      || bit_and (ntohl ip) 0xFF000000 == 0x7F000000
      || ntohl ip == 0xFFFFFFFF
      || among (ntohl ip) l.bcasts
