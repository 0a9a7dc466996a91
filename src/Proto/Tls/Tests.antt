-- ===== src/Proto/Tls/Tests.antt =====
-- A ClientHello with a server name, through `proto_tls_parse_sni`.
use openwrt_demo.Prelude.{
  ℕ, ◌≡◌, refl, true, some, List, [], ◌∷◌, ◌++◌, arith, replicate, ok, Returns,
}
use openwrt_demo.Proto.Tls.{
  Found, has_dot, copy_len, server_name, extension, extensions, clip_end, extension_block,
  after_suites, after_session, client_hello, handshake, parse_sni, named,
}
use openwrt_demo.Proto.Tls.Safe.{Fits, parse_sni-safe}

-- Two extensions, one that is not a server name and then the name `a.b`, from byte 52 on.
abbrev two_extensions : List ℕ
two_extensions = 0 ∷ 23 ∷ 0 ∷ 0 ∷ 0 ∷ 0 ∷ 0 ∷ 8 ∷ 0 ∷ 6 ∷ 0 ∷ 0 ∷ 3 ∷ b'a' ∷ b'.' ∷ b'b' ∷ []

abbrev hello : List ℕ
hello =
    22 ∷ 3 ∷ 1 ∷ 0 ∷ 63 ∷ 1 ∷ 0 ∷ 0 ∷ 59 ∷ 3 ∷ 3 ∷ replicate 32 7
    ++ 0 ∷ 0 ∷ 2 ∷ 0 ∷ 47 ∷ 1 ∷ 0 ∷ 0 ∷ 16 ∷ two_extensions

abbrev found_name : Found
found_name = record { ret = true; host = some (b'a' ∷ b'.' ∷ b'b' ∷ []) }

parse_hello : parse_sni hello (some 256) ≡ ok found_name
unfolding parse_sni handshake client_hello after_session after_suites extension_block extensions
    clip_end extension server_name named copy_len has_dot
parse_hello = refl

parse_sni-safe_example : Returns (parse_sni hello (some 256)) (Fits 256)
parse_sni-safe_example = parse_sni-safe hello 256 (omega arith)
