-- ===== src/Proto/Http/Fits.antt =====
-- `proto_http_parse_host`: what it leaves in the caller's buffer.
use mathlib.Core.Option.{some-injective}
use openwrt_demo.Prelude.{
  ℕ, ◌+◌, ◌≤◌, ◌<◌, ◌≡◌, not, ◌||◌, Option, none, some, List, [], ◌∷◌, inl, inr, ltb, ◌==◌,
  Bool-cases, arith, length, take, drop, length-take,
}
use openwrt_demo.Proto.Tls.{Found}
use openwrt_demo.Proto.Http.{
  c_string, last_colon, cut_port, clip_host, copy_host, host_line, host_header, parse_host,
  is_request,
}

-- The string has room for its terminator.
abbrev pub HostFits : ℕ → Found → Type 0
HostFits host_len r = (name : List ℕ) → r.host ≡ some name → length name < host_len

c_string-le : (xs : List ℕ) → length (c_string xs) ≤ length xs
unfolding c_string
c_string-le [] = omega arith
c_string-le (c ∷ cs) =
    let rest = c_string-le cs in
    elim (Bool-cases (c == 0)) [
      | inl end ↦ rw end (omega arith)
      | inr more ↦ rw more (omega (arith, rest))
    ]

cut_port-le : (xs : List ℕ) → length (cut_port xs) ≤ length xs
unfolding cut_port
cut_port-le xs = at (last_colon xs)
  where
    at : (r : Option ℕ) → length (elim r [ some i ↦ take i xs | none ↦ xs ]) ≤ length xs
    at none = omega arith
    at (some i) = omega (arith, length-take i xs)

copy_host-HostFits :
    (d : List ℕ) (host_len start n : ℕ) → n < host_len → HostFits host_len (copy_host d start n)
unfolding copy_host
copy_host-HostFits d host_len start n lt = elim (Bool-cases (n == 0)) [
  | inl empty ↦ rw empty (λ name e. cc)
  | inr there ↦
      let bytes = take n (drop start d) in
      rw there (λ name e. rw (← some-injective _ _ e) (
        omega (
          arith,
          cut_port-le (c_string bytes),
          c_string-le bytes,
          length-take n (drop start d),
          lt,
        )))
]

host_line-HostFits :
    (d : List ℕ) (host_len start : ℕ) (r : Option ℕ)
    → 0 < host_len
    → HostFits host_len (host_line d host_len start r)
unfolding host_line clip_host
host_line-HostFits d host_len start none h = λ name e. cc
host_line-HostFits d host_len start (some n) h =
    copy_host-HostFits d host_len start (clip_host n host_len) (ground arith)

host_header-HostFits :
    (d : List ℕ) (host_len : ℕ) (r : Option ℕ)
    → 0 < host_len
    → HostFits host_len (host_header d host_len r)
unfolding host_header
host_header-HostFits d host_len none h = λ name e. cc
host_header-HostFits d host_len (some i) h = host_line-HostFits d host_len (i + 8) _ h

-- The host that `proto_http_parse_host` leaves in the caller's buffer, if that has a byte at least,
-- fits it with its terminator, whatever the request holds.
parse_host-HostFits :
    (d : List ℕ) (host_len : ℕ) → 0 < host_len → HostFits host_len (parse_host d (some host_len))
unfolding parse_host
parse_host-HostFits d host_len h = elim (Bool-cases (ltb (length d) 10 || host_len == 0)) [
  | inl short ↦ rw short (λ name e. cc)
  | inr long ↦ elim (Bool-cases (not (is_request d))) [
    | inl other ↦ rw (long, other) (λ name e. cc)
    | inr request ↦ rw (long, request) (host_header-HostFits d host_len _ h)
  ]
]
