-- ===== src/Dnsmap/Tests.antt =====
-- The caches, the table and this host's addresses at concrete values.
use openwrt_demo.Dnsmap.Flow.{
  FlowKey, same_flow, Cache, add, lookup, add_flow_host, add_flow_app, expire, empty_cache,
}
use openwrt_demo.Dnsmap.Flow.Inv.{IsValid, empty-IsValid, add_flow-IsValid}
use openwrt_demo.Dnsmap.Flow.Lookup.{lookup-add, lookup_other-add}
use openwrt_demo.Dnsmap.Names.{
  DnsEntry, v4, hash_ip, same_addr, live, better, best_of, domain_of, lookup_domain,
}
use openwrt_demo.Dnsmap.Names.Best.{lookup_domain-best}
use openwrt_demo.Dnsmap.Apps.{
  Mapping, last_dot, walk_dots, capital, second_level, first_match, app_of, lookup_app,
}
use openwrt_demo.Dnsmap.Local.{Local, Interface, among, local_service, is_local_ip, service_of}
use mathlib.Core.List.{Mem}
use openwrt_demo.Prelude.{
  ℕ, ◌%◌, ◌≡◌, refl, Bool, true, false, ◌&&◌, none, some, List, [], ◌∷◌, ◌⊎◌, All, arith, bytes_of,
  get_or, same_bytes, ℤ, pos,
}

abbrev flow : FlowKey
flow = record { src_ip = 1; dst_ip = 2; src_port = 40000; dst_port = 443; proto = 6 }

abbrev other : FlowKey
other = record { src_ip = 1; dst_ip = 2; src_port = 40001; dst_port = 443; proto = 6 }

abbrev hosts : Cache (List ℕ)
hosts = empty_cache

abbrev flow_apps : Cache (List ℕ × List ℕ)
flow_apps = empty_cache

add_flow-IsValid_example :
    IsValid (add_flow_host true flow (some (bytes_of "a.org")) 5 hosts)
    × IsValid (add_flow_app true flow (some (bytes_of "Web")) none 5 flow_apps)
    × IsValid (expire 5 hosts)
    × IsValid (expire 5 flow_apps)
add_flow-IsValid_example =
    add_flow-IsValid true flow (some (bytes_of "a.org")) (some (bytes_of "Web")) none 5 hosts
      flow_apps (empty-IsValid (List ℕ)) (empty-IsValid (List ℕ × List ℕ))

lookup-add_example :
    lookup flow 604 (add true flow (bytes_of "a.org") 5 hosts) ≡ some (bytes_of "a.org")
lookup-add_example =
    lookup-add flow (bytes_of "a.org") 5 604 hosts (empty-IsValid (List ℕ)) (omega arith)
      (omega arith)

lookup_other-add_example :
    lookup other 7 (add true flow (bytes_of "a.org") 5 hosts) ≡ lookup other 7 hosts
unfolding same_flow
lookup_other-add_example =
    lookup_other-add true flow other (bytes_of "a.org") 5 7 hosts (empty-IsValid (List ℕ))
      (omega arith) refl

abbrev entry : List ℕ → ℕ → ℕ → DnsEntry
entry domain expires confidence = record {
  addr = v4 2;
  domain = domain;
  expires = expires;
  confidence = confidence;
}

abbrev chain : List DnsEntry
chain =
    entry (bytes_of "cdn.net") 90 1
    ∷ entry (bytes_of "a.org") 80 2
    ∷ entry (bytes_of "b.org") 9 3
    ∷ []

abbrev names : List (List DnsEntry)
names = [] ∷ [] ∷ chain ∷ []

named : lookup_domain 2 10 names ≡ some (bytes_of "a.org")
unfolding lookup_domain domain_of best_of better live same_addr hash_ip
named = refl

lookup_domain-best_example :
    ((lookup_domain 2 10 names ≡ none)
      × All (λ e. live 2 10 e ≡ false) (get_or names (hash_ip 2) []))
    ⊎ ((b : DnsEntry) × (lookup_domain 2 10 names ≡ some b.domain)
        × Mem b (get_or names (hash_ip 2) [])
        × (live 2 10 b ≡ true)
        × All (λ e. live 2 10 e && better e (some b) ≡ false) (get_or names (hash_ip 2) []))
lookup_domain-best_example = lookup_domain-best 2 10 names

-- stands in for `fnmatch`: patterns without wildcards
abbrev fnmatch : List ℕ → List ℕ → Bool
fnmatch pattern s = same_bytes pattern s

-- stands in for `atoi`: one digit
abbrev atoi : List ℕ → ℤ
atoi [] = pos 0
atoi (c ∷ cs) = pos (c % 48)

abbrev inet_pton : List ℕ → Bool
inet_pton s = false

abbrev file : List (List ℕ × Bool)
file =
    (bytes_of "a.org,Low,Web,1", true)
    ∷ (bytes_of "# note", true)
    ∷ (bytes_of "a.org, High", false)
    ∷ (bytes_of "a.org, High,Video,5", true)
    ∷ []

abbrev high : Mapping
high = record {
  pattern = bytes_of "a.org";
  app_name = bytes_of "High";
  category = bytes_of "Video";
  priority = pos 5;
}

unlisted :
    lookup_app fnmatch atoi inet_pton (some (bytes_of "www.example.com")) []
    ≡ some (bytes_of "Example.com")
unfolding lookup_app app_of first_match second_level capital walk_dots last_dot
unlisted = refl

-- two interfaces' addresses, one after the other; the numbers stand as they are
abbrev ntohl : ℕ → ℕ
ntohl n = n

abbrev before : Local
before = record { addrs = 0x0a000001 ∷ []; bcasts = 0x0a0000ff ∷ [] }

abbrev after : List Interface
after = record { addr = some 0x0b000001; broadaddr = some 0x0b0000ff } ∷ []

web : local_service 0x0a000001 80 before ≡ some (bytes_of "LuCI", bytes_of "Management")
unfolding local_service is_local_ip among service_of
web = refl
