-- ===== src/Proto/Http/Tests.antt =====
-- A request through `proto_http_parse_host`, and the search at concrete bytes.
use openwrt_demo.Prelude.{◌≡◌, refl, true, some, List, ℕ, [], ◌∷◌, ◌++◌, bytes_of}
use openwrt_demo.Proto.Http.{
  starts_with, find_from, mem_find, same_letters, matches_method, c_string, last_colon, cut_port,
  clip_host, copy_host, host_line, host_header, parse_host,
}
use openwrt_demo.Proto.Tls.{has_dot}

abbrev request : List ℕ
request = bytes_of "get / HTTP/1.1" ++ 13 ∷ 10 ∷ bytes_of "Host: a.b:80" ++ 13 ∷ 10 ∷ []

parse_request : parse_host request (some 256) ≡ record { ret = true; host = some (bytes_of "a.b") }
unfolding parse_host host_header host_line copy_host clip_host cut_port last_colon c_string
    matches_method same_letters mem_find find_from starts_with has_dot
parse_request = refl
