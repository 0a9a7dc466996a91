-- ===== src/Dnsmap/Names.antt =====
-- The cache from addresses to names: `mapping_add_dns`, `mapping_lookup_domain` and the sweep of
-- `mapping_expire_dns`.
pub mod Best
use Prim.Native.Nat.{bit_xor}
use openwrt_demo.Prelude.{
  ℕ, zero, suc, ◌+◌, ◌*◌, ◌/◌, ◌%◌, ◌^◌, Bool, true, false, not, ◌&&◌, ◌||◌, Option, none, some,
  List, [], ◌∷◌, ltb, leb, ◌==◌, if◌then◌else◌, length, get_or, set, take, map, replicate,
  same_bytes,
}

abbrev pub max_dns_cache : ℕ
max_dns_cache = 65536

-- An address: the number of an IPv4 address, or the bytes of an IPv6 address, which is not NULL.
pub data Addr : Type 0 where
  v4 : ℕ → Addr
  v6 : List ℕ → Addr

-- `struct dns_entry`
pub record DnsEntry : Type 0 where
  pub addr : Addr
  pub domain : List ℕ
  pub expires : ℕ
  pub confidence : ℕ

unfoldable pub hash_ip : ℕ → ℕ
hash_ip ip = bit_xor (bit_xor ip (ip / 2 ^ 16)) (ip / 2 ^ 8) % max_dns_cache

unfoldable pub same_addr : Addr → Addr → Bool
same_addr (v4 a) (v4 b) = a == b
same_addr (v4 a) (v6 b) = false
same_addr (v6 a) (v4 b) = false
same_addr (v6 a) (v6 b) = same_bytes a b

-- The loop that refreshes the entry of the address and the domain; none where there is none.
pub renew : Addr → List ℕ → ℕ → ℕ → List DnsEntry → Option (List DnsEntry)
renew addr domain expires confidence [] = none
renew addr domain expires confidence (e ∷ es) =
    elim (same_addr e.addr addr && same_bytes e.domain domain) [
      | true ↦ some (
          record e {
            expires = expires;
            confidence = if ltb e.confidence confidence then confidence % 256 else e.confidence;
          }
          ∷ es)
      | false ↦ elim (renew addr domain expires confidence es) [
        | none ↦ none
        | some rest ↦ some (e ∷ rest)
      ]
    ]

-- (entry->expires < now) for the entries that a sweep frees
pub sweep : ℕ → List DnsEntry → List DnsEntry
sweep now [] = []
sweep now (e ∷ es) = let rest = sweep now es in if ltb e.expires now then rest else e ∷ rest

pub expire_dns : ℕ → List (List DnsEntry) → List (List DnsEntry)
expire_dns now = map (sweep now)

-- an entry that the loop of `mapping_lookup_domain` looks at
unfoldable pub live : ℕ → ℕ → DnsEntry → Bool
live ip now e = same_addr e.addr (v4 ip) && ltb now e.expires

-- entry->confidence > best_conf || (… == best_conf && entry->expires > best_exp), where none stands
-- for the start, -1 and 0
unfoldable pub better : DnsEntry → Option DnsEntry → Bool
better e none = true
better e (some b) =
    ltb b.confidence e.confidence || (e.confidence == b.confidence && ltb b.expires e.expires)

unfoldable pub best_of : ℕ → ℕ → List DnsEntry → Option DnsEntry → Option DnsEntry
best_of ip now [] best = best
best_of ip now (e ∷ es) best =
    best_of ip now es (if live ip now e && better e best then some e else best)

unfoldable pub domain_of : Option DnsEntry → Option (List ℕ)
domain_of none = none
domain_of (some e) = some e.domain

unfoldable pub lookup_domain : ℕ → ℕ → List (List DnsEntry) → Option (List ℕ)
lookup_domain ip now table = domain_of (best_of ip now (get_or table (hash_ip ip) []) none)

-- `load32` reads the first four bytes of an address as the machine does
module _ (load32 : List ℕ → ℕ) where
  pub chain_of : Addr → ℕ
  chain_of (v4 ip) = hash_ip ip
  chain_of (v6 ip6) = hash_ip (load32 (take 4 ip6))

  pub add_to :
      Bool
      → List ℕ
      → Addr
      → ℕ
      → ℕ
      → List (List DnsEntry)
      → Option (List DnsEntry)
      → List (List DnsEntry)
  add_to calloc domain addr confidence expires table (some chain) = set table (chain_of addr) chain
  add_to calloc domain addr confidence expires table none =
      if calloc
      then set table (chain_of addr) (
          record {
            addr = addr;
            domain = take 255 domain;
            expires = expires;
            confidence = confidence % 256;
          }
          ∷ get_or table (chain_of addr) [])
      else table

  -- `mapping_add_dns`; `expires` is time(NULL) + g_config.dns_timeout
  pub add_dns : Bool → Option (List ℕ) → Addr → ℕ → ℕ → List (List DnsEntry) → List (List DnsEntry)
  add_dns calloc none addr confidence expires table = table
  add_dns calloc (some domain) addr confidence expires table =
      if length domain == 0
      then table
      else add_to calloc domain addr confidence expires table
          (renew addr domain expires confidence (get_or table (chain_of addr) []))
