-- ===== src/Proto/Dns/Tests.antt =====
-- Runs of the DNS parsers, and their theorems at concrete packets.
use openwrt_demo.Prelude.{
  ℕ, ◌<◌, ◌≡◌, refl, some, List, [], ◌∷◌, arith, length, replicate, ok, fault, Returns, bytes_of,
  read_string,
}
use openwrt_demo.Proto.Dns.{ip4, read_name, parse_query, parse_response}
use openwrt_demo.Proto.Dns.Safe.{parse_query-safe}
use openwrt_demo.Proto.Dns.Position.{LabelsAt}
use openwrt_demo.Proto.Dns.Overread.{parse_response-overread}

-- a query for the address of ab.c
abbrev query : List ℕ
query =
    0 ∷ 1 ∷ 1 ∷ 0 ∷ 0 ∷ 1 ∷ 0 ∷ 0 ∷ 0 ∷ 0 ∷ 0 ∷ 0 ∷ 2 ∷ b'a' ∷ b'b' ∷ 1 ∷ b'c' ∷ 0 ∷ 0 ∷ 1 ∷ 0 ∷ 1
    ∷ []

parse_query_runs : parse_query (replicate 256 77) query 256 ≡ ok (some (bytes_of "ab.c"))
unfolding parse_query read_name read_string
parse_query_runs = refl

-- its answer, 10.0.0.1, with the name by a pointer
abbrev reply : List ℕ
reply =
    0 ∷ 1 ∷ 0x81 ∷ 0x80 ∷ 0 ∷ 1 ∷ 0 ∷ 1 ∷ 0 ∷ 0 ∷ 0 ∷ 0 ∷ 2 ∷ b'a' ∷ b'b' ∷ 1 ∷ b'c' ∷ 0 ∷ 0 ∷ 1 ∷ 0
    ∷ 1 ∷ 0xc0 ∷ 12 ∷ 0 ∷ 1 ∷ 0 ∷ 1 ∷ 0 ∷ 0 ∷ 0 ∷ 60 ∷ 0 ∷ 4 ∷ 10 ∷ 0 ∷ 0 ∷ 1 ∷ []

parse_response_runs :
    parse_response (replicate 256 77) reply 8
    ≡ ok (record { name = bytes_of "ab.c"; addr = ip4 (10 ∷ 0 ∷ 0 ∷ 1 ∷ []) } ∷ [])
unfolding parse_response read_name read_string
parse_response_runs = refl

parse_query-safe_example :
    Returns
      (parse_query (replicate 256 77) query 256)
      (λ r. (s : List ℕ) → r ≡ some s → length s < 256)
parse_query-safe_example =
    parse_query-safe (replicate 256 77) query 256 refl (omega arith) (omega arith)

query_labels : LabelsAt query 12 2 17
query_labels = (
  2,
  refl,
  omega arith,
  omega arith,
  omega arith,
  (1, refl, omega arith, omega arith, omega arith, refl),
)

-- a response with no question, cut short after the name of its answer
abbrev cut_short : List ℕ
cut_short =
    0 ∷ 1 ∷ 0x81 ∷ 0x80 ∷ 0 ∷ 0 ∷ 0 ∷ 1 ∷ 0 ∷ 0 ∷ 0 ∷ 0 ∷ 8 ∷ b'a' ∷ b'a' ∷ b'a' ∷ b'a' ∷ b'a'
    ∷ b'a' ∷ b'a' ∷ b'a' ∷ 0 ∷ []

parse_response-overread_example : parse_response (replicate 256 77) cut_short 8 ≡ fault
parse_response-overread_example =
    parse_response-overread (replicate 256 77) cut_short 8 0x8180 1 21 1 refl (omega arith) refl
      (omega arith) refl refl (omega arith) (omega arith)
      (8, refl, omega arith, omega arith, omega arith, refl) refl (omega arith) (omega arith)
      (omega arith)
