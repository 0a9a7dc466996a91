-- ===== src/Wol.antt =====
-- wol-proxy/src/wol-proxy.c: the relay of Wake-on-LAN packets. The kernel's answers (the packet that
-- `recvmsg` fills in, the interfaces of `getifaddrs`, the time) are values that come with each
-- packet, and the table of recent packets is passed and returned. An address is the number that the
-- program holds in network order; `htonl`, `inet_pton` and `strtol` are parameters.
pub mod Magic
pub mod Recent
pub mod Relay
mod Tests
use Prim.Native.Nat.{bit_and, bit_or, bit_xor}
use openwrt_demo.Prelude.{
  ℕ, zero, suc, ◌+◌, ◌-◌, ◌*◌, ◌%◌, ◌^◌, Bool, true, false, not, ◌&&◌, ◌||◌, Option, none, some,
  List, [], ◌∷◌, ◌++◌, ltb, leb, ◌==◌, if◌then◌else◌, length, get_elem?, set, take, drop, replicate,
  same_bytes, ℤ, pos, negsuc,
}

-- WOL_PKT_LEN, DUP_MAX, DUP_WINDOW_SECS
abbrev pub wol_pkt_len : ℕ
wol_pkt_len = 102

abbrev pub dup_max : ℕ
dup_max = 32

abbrev pub dup_window_secs : ℕ
dup_window_secs = 5

-- the comparison of the repeats from the i-th on
pub repeats : ℕ → ℕ → List ℕ → List ℕ → Bool
repeats zero i buf mac = true
repeats (suc n) i buf mac =
    same_bytes (take 6 (drop (6 + i * 6) buf)) mac && repeats n (i + 1) buf mac

-- none is the return value false
pub parse_magic : List ℕ → Option (List ℕ)
parse_magic buf =
    if ltb (length buf) wol_pkt_len
    then none
    else if not (same_bytes (take 6 buf) (replicate 6 0xff))
    then none
    else if repeats 15 1 buf (take 6 (drop 6 buf))
    then some (take 6 (drop 6 buf))
    else none

-- the loop of `build_magic`
pub copies : ℕ → List ℕ → List ℕ
copies zero mac = []
copies (suc n) mac = mac ++ copies n mac

pub build_magic : List ℕ → List ℕ
build_magic mac = replicate 6 0xff ++ copies 16 mac

-- `struct dup_entry`
pub record DupEntry : Type 0 where
  pub src : ℕ
  pub mac : List ℕ
  pub seen : ℕ

-- the test of the loop of `dup_check`
pub is_dup : ℕ → List ℕ → ℕ → DupEntry → Bool
is_dup src mac now e =
    not (e.seen == 0) && e.src == src && same_bytes e.mac mac && ltb (now - e.seen) dup_window_secs

-- the loop from the i-th entry on; none where it returns true, else the index of the oldest entry
pub dup_scan : ℕ → List ℕ → ℕ → List DupEntry → ℕ → ℕ → ℕ → Option ℕ
dup_scan src mac now [] i oldest oldest_t = some oldest
dup_scan src mac now (e ∷ es) i oldest oldest_t =
    if is_dup src mac now e
    then none
    else if ltb e.seen oldest_t
    then dup_scan src mac now es (i + 1) i e.seen
    else dup_scan src mac now es (i + 1) oldest oldest_t

-- what `dup_check` does at its end
pub dup_record : List DupEntry → ℕ → List ℕ → ℕ → Option ℕ → Bool × List DupEntry
dup_record tab src mac now none = (true, tab)
dup_record tab src mac now (some oldest) =
    (false, set tab oldest (record { src = src; mac = mac; seen = now }))

-- `dup_check`; tab[0] exists
pub dup_check : List DupEntry → ℕ → List ℕ → ℕ → Bool × List DupEntry
dup_check [] src mac now = (false, [])
dup_check (e ∷ es) src mac now =
    dup_record (e ∷ es) src mac now (dup_scan src mac now (e ∷ es) 0 0 e.seen)

pub source_allowed : ℕ → ℕ → ℕ → Bool
source_allowed src allow_addr allow_mask = bit_and src allow_mask == bit_and allow_addr allow_mask

-- `copy_str`, for strings without their terminators
abbrev pub copy_str : ℕ → List ℕ → List ℕ
copy_str dstsz src = take (dstsz - 1) src

-- strchr(buf, '/'): what stands before it, and behind it if there is one
pub at_slash : List ℕ → List ℕ × Option (List ℕ)
at_slash [] = ([], none)
at_slash (c ∷ cs) =
    let (before, after) = at_slash cs in if c == b'/' then ([], some cs) else (c ∷ before, after)

-- An entry of `getifaddrs`; an entry that is not of IPv4 has no `addr`.
pub record Ifa : Type 0 where
  pub name : List ℕ
  pub addr : Option ℕ
  pub netmask : Option ℕ
  pub broadaddr : Option ℕ

-- `struct lan_info`
pub record Lan : Type 0 where
  pub ifindex : ℕ
  pub addr : ℕ
  pub netmask : ℕ
  pub broadcast : ℕ

-- the part of `struct wol_config` that decides
pub record Config : Type 0 where
  pub lan_ifname : List ℕ
  pub lan_broadcast : List ℕ
  pub allow_cidr : List ℕ

-- What comes with a packet: its bytes and source, where the kernel says that it arrived (address and
-- interface of IP_PKTINFO), the time, and the answers about interfaces.
pub record Packet : Type 0 where
  pub bytes : List ℕ
  pub src : ℕ
  pub pktinfo : Option (ℕ × ℕ)
  pub now : ℕ
  pub ifindex : ℕ
  pub interfaces : Option (List Ifa)

abbrev or_default : Option ℕ → ℕ → ℕ
or_default none d = d
or_default (some n) d = n

-- if (cur->ifa_broadaddr) … else info->broadcast = (info->addr & info->netmask) | ~info->netmask;
pub broadcast_of : ℕ → ℕ → Option ℕ → ℕ
broadcast_of addr netmask broadaddr =
    or_default broadaddr (bit_or (bit_and addr netmask) (bit_xor netmask 0xffffffff))

-- if (!end || *end != 0 || plen < 0 || plen > 32) return -1;
pub in_range : ℤ × List ℕ → Option ℕ
in_range (pos n, []) = if ltb 32 n then none else some n
in_range (pos n, c ∷ cs) = none
in_range (negsuc n, rest) = none

-- plen == 0 ? 0 : 0xffffffff << (32 - plen)
pub mask_of : ℕ → ℕ
mask_of plen = if plen == 0 then 0 else 0xffffffff * 2 ^ (32 - plen) % 2 ^ 32

-- if (pi) dst_addr = pi->ipi_addr.s_addr;
pub dst_of : Option (ℕ × ℕ) → ℕ
dst_of none = 0
dst_of (some (addr, index)) = addr

-- pi && lo_index > 0 && pi->ipi_ifindex == lo_index
pub own_packet : ℕ → Option (ℕ × ℕ) → Bool
own_packet lo_index none = false
own_packet lo_index (some (addr, index)) = ltb 0 lo_index && index == lo_index

-- A packet that is sent: where to, and its bytes.
abbrev pub Sent : Type 0
Sent = Option (ℕ × List ℕ)

module _ (htonl : ℕ → ℕ) (inet_pton : List ℕ → Option ℕ) (strtol : List ℕ → ℤ × List ℕ) where
  -- plen, or none for the return value -1; `strtol` gives the number and where it stopped
  pub prefix_length : Option (List ℕ) → Option ℕ
  prefix_length none = some 32
  prefix_length (some digits) = in_range (strtol digits)

  pub cidr_of : Option ℕ → Option ℕ → Option (ℕ × ℕ)
  cidr_of none addr = none
  cidr_of (some plen) none = none
  cidr_of (some plen) (some addr) = some (addr, htonl (mask_of plen))

  -- the address and the mask, or none for the return value -1
  pub parse_cidr : List ℕ → Option (ℕ × ℕ)
  parse_cidr s =
      let (buf, slash) = at_slash (copy_str 64 s) in cidr_of (prefix_length slash) (inet_pton buf)

  -- if (parse_cidr(…) != 0) { allow_addr = 0; allow_mask = 0; }
  pub allowed_range : List ℕ → ℕ × ℕ
  allowed_range s = elim (parse_cidr s) [ none ↦ (0, 0) | some range ↦ range ]

  -- the loop of `get_lan_info`
  pub find_lan : List ℕ → ℕ → List Ifa → Option Lan
  find_lan ifname ifindex [] = none
  find_lan ifname ifindex (cur ∷ rest) = elim cur.addr [
    | none ↦ find_lan ifname ifindex rest
    | some addr ↦ elim (same_bytes cur.name ifname) [
      | false ↦ find_lan ifname ifindex rest
      | true ↦
          let netmask = or_default cur.netmask (htonl 0xffffff00) in
          some (record {
            ifindex = ifindex;
            addr = addr;
            netmask = netmask;
            broadcast = broadcast_of addr netmask cur.broadaddr;
          })
    ]
  ]

  -- none where it returns -1
  pub get_lan_info : List ℕ → ℕ → Option (List Ifa) → Option Lan
  get_lan_info ifname ifindex none = none
  get_lan_info ifname ifindex (some interfaces) =
      if ifindex == 0 then none else find_lan ifname ifindex interfaces

  -- where the packet is sent
  pub target_of : Config → Lan → ℕ → ℕ
  target_of cfg lan dst_addr =
      if not (length cfg.lan_broadcast == 0)
      then or_default (inet_pton cfg.lan_broadcast) lan.broadcast
      else if not (dst_addr == 0)
          && bit_and dst_addr lan.netmask == bit_and lan.addr lan.netmask
          && not (dst_addr == lan.addr)
      then dst_addr
      else lan.broadcast

  -- from `get_lan_info` on
  pub send_out : Config → Packet → List ℕ → Option Lan → Sent
  send_out cfg p mac none = none
  send_out cfg p mac (some lan) = some (target_of cfg lan (dst_of p.pktinfo), build_magic mac)

  -- from `dup_check` on
  pub relay_new : Config → Packet → List ℕ → Bool × List DupEntry → Sent × List DupEntry
  relay_new cfg p mac (true, tab) = (none, tab)
  relay_new cfg p mac (false, tab) =
      (send_out cfg p mac (get_lan_info cfg.lan_ifname p.ifindex p.interfaces), tab)

  -- from `parse_magic` on
  pub relay_magic : Config → List DupEntry → Packet → Option (List ℕ) → Sent × List DupEntry
  relay_magic cfg tab p none = (none, tab)
  relay_magic cfg tab p (some mac) = relay_new cfg p mac (dup_check tab p.src mac p.now)

  -- one round of the loop of `run`, for a packet that `recvmsg` returns
  pub handle : Config → ℕ → List DupEntry → Packet → Sent × List DupEntry
  handle cfg lo_index tab p =
      if own_packet lo_index p.pktinfo
      then (none, tab)
      else if not
          (source_allowed p.src (allowed_range cfg.allow_cidr).0 (allowed_range cfg.allow_cidr).1)
      then (none, tab)
      else relay_magic cfg tab p (parse_magic p.bytes)

-- struct dup_entry dup_tab[DUP_MAX] = { 0 };
abbrev pub empty_table : List DupEntry
empty_table = replicate dup_max (record { src = 0; mac = replicate 6 0; seen = 0 })
