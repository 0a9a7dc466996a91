-- ===== src/Proto/Tls/Safe.antt =====
-- `proto_tls_parse_sni`: accesses in range, and the rounds of the loop over the extensions.
use mathlib.Core.Option.{some-injective}
use openwrt_demo.Prelude.{
  ℕ, zero, suc, ◌+◌, ◌*◌, ◌≤◌, ◌<◌, ◌≡◌, refl, false, not, ◌&&◌, ◌||◌, some, List, inl, inr, ltb,
  leb, ◌==◌, Bool-cases, arith, ltb→ge, leb→le, length, Run, ok, Returns, read-lt, read_be16-lt,
  read_block-le,
}
use openwrt_demo.Proto.Tls.{
  Found, not_found, copy_len, named, server_name, extension, extensions, clip_end, extension_block,
  after_suites, after_session, client_hello, handshake, parse_sni,
}

-- The string that is written has room for its terminator.
abbrev pub Fits : ℕ → Found → Type 0
Fits host_len r = (name : List ℕ) → r.host ≡ some name → length name < host_len

nothing : (host_len : ℕ) → Returns (ok not_found) (Fits host_len)
nothing host_len = (not_found, refl, λ name e. cc)

copy_len-le :
    (name_len host_len : ℕ)
    → 0 < host_len
    → (copy_len name_len host_len ≤ name_len) × (copy_len name_len host_len < host_len)
unfolding copy_len
copy_len-le name_len host_len h = ground arith

named-safe :
    (d : List ℕ) (host_len ext_end pos name_type name_len : ℕ)
    → 0 < host_len
    → ext_end ≤ length d
    → Returns (named d host_len ext_end pos name_type name_len) (Fits host_len)
unfolding named
named-safe d host_len ext_end pos name_type name_len h le =
    elim (Bool-cases (name_type == 0 && ltb 0 name_len && leb (pos + name_len) ext_end)) [
      | inr other ↦ rw other (nothing host_len)
      | inl host ↦
          let bounds = copy_len-le name_len host_len h in
          let inside : pos + name_len ≤ ext_end = ground (arith, host) in
          let (name, e, n) =
            read_block-le d pos (copy_len name_len host_len)
              (omega (arith, bounds.0, inside, le)) in
          rw (host, e) (_, refl, λ x q. rw (← some-injective _ _ q) (omega (arith, n, bounds.1)))
    ]

server_name-safe :
    (d : List ℕ) (host_len ext_end pos : ℕ)
    → 0 < host_len
    → ext_end ≤ length d
    → Returns (server_name d host_len ext_end pos) (Fits host_len)
unfolding server_name
server_name-safe d host_len ext_end pos h le = elim (Bool-cases (ltb ext_end (pos + 5))) [
  | inl short ↦ rw short (nothing host_len)
  | inr long ↦ elim (Bool-cases (ltb ext_end (pos + 2 + 3))) [
    | inl short ↦ rw (long, short) (nothing host_len)
    | inr more ↦
        let room = ltb→ge _ _ long in
        let (name_type, e) = read-lt d (pos + 2) (omega (arith, room, le)) in
        let (name_len, f) = read_be16-lt d (pos + 3) (omega (arith, room, le)) in
        rw (long, more, e, f) (named-safe d host_len ext_end (pos + 5) name_type name_len h le)
  ]
]

extension-safe :
    (rest : ℕ → Run Found) (d : List ℕ) (host_len ext_end pos : ℕ)
    → 0 < host_len
    → ext_end ≤ length d
    → pos + 4 ≤ ext_end
    → ((p : ℕ) → Returns (rest p) (Fits host_len))
    → Returns (extension rest d host_len ext_end pos) (Fits host_len)
unfolding extension
extension-safe rest d host_len ext_end pos h le room k =
    let (ext_type, e) = read_be16-lt d pos (omega (arith, room, le)) in
    let (n, f) = read_be16-lt d (pos + 2) (omega (arith, room, le)) in
    rw (e, f)
      (elim (Bool-cases (ext_type == 0 && leb (pos + 4 + n) ext_end)) [
        | inl name ↦ rw name (server_name-safe d host_len ext_end (pos + 4) h le)
        | inr other ↦ rw other (k (pos + 4 + n))
      ])

extensions-safe :
    (fuel : ℕ) (d : List ℕ) (host_len ext_end pos : ℕ)
    → 0 < host_len
    → ext_end ≤ length d
    → Returns (extensions fuel d host_len ext_end pos) (Fits host_len)
unfolding extensions
extensions-safe zero d host_len ext_end pos h le = nothing host_len
extensions-safe (suc fuel) d host_len ext_end pos h le = elim (Bool-cases (leb (pos + 4) ext_end)) [
  | inr end ↦ rw (end, extensions) (nothing host_len)
  | inl more ↦
      rw (more, extensions)
        (extension-safe (extensions fuel d host_len ext_end) d host_len ext_end pos h le
          (leb→le _ _ more) (λ p. extensions-safe fuel d host_len ext_end p h le))
]

clip_end-le : (len ext_end : ℕ) → clip_end len ext_end ≤ len
unfolding clip_end
clip_end-le len ext_end = ground arith

extension_block-safe :
    (d : List ℕ) (host_len pos : ℕ)
    → 0 < host_len
    → Returns (extension_block d host_len pos) (Fits host_len)
unfolding extension_block
extension_block-safe d host_len pos h = elim (Bool-cases (ltb (length d) (pos + 2))) [
  | inl short ↦ rw short (nothing host_len)
  | inr long ↦
      let (n, e) = read_be16-lt d pos (omega (arith, ltb→ge _ _ long)) in
      let ext_end = clip_end (length d) (pos + 2 + n) in
      rw (long, e)
        (extensions-safe ext_end d host_len ext_end (pos + 2) h
          (clip_end-le (length d) (pos + 2 + n)))
]

after_suites-safe :
    (d : List ℕ) (host_len pos : ℕ)
    → 0 < host_len
    → Returns (after_suites d host_len pos) (Fits host_len)
unfolding after_suites
after_suites-safe d host_len pos h = elim (Bool-cases (ltb (length d) (pos + 1))) [
  | inl short ↦ rw short (nothing host_len)
  | inr long ↦
      let (n, e) = read-lt d pos (omega (arith, ltb→ge _ _ long)) in
      rw (long, e) (extension_block-safe d host_len (pos + 1 + n) h)
]

after_session-safe :
    (d : List ℕ) (host_len pos : ℕ)
    → 0 < host_len
    → Returns (after_session d host_len pos) (Fits host_len)
unfolding after_session
after_session-safe d host_len pos h = elim (Bool-cases (ltb (length d) (pos + 2))) [
  | inl short ↦ rw short (nothing host_len)
  | inr long ↦
      let (n, e) = read_be16-lt d pos (omega (arith, ltb→ge _ _ long)) in
      rw (long, e) (after_suites-safe d host_len (pos + 2 + n) h)
]

client_hello-safe :
    (d : List ℕ) (host_len : ℕ) → 0 < host_len → Returns (client_hello d host_len) (Fits host_len)
unfolding client_hello
client_hello-safe d host_len h = elim (Bool-cases (ltb (length d) (9 + 38))) [
  | inl short ↦ rw short (nothing host_len)
  | inr long ↦
      let (n, e) = read-lt d 43 (omega (arith, ltb→ge _ _ long)) in
      rw (long, e) (after_session-safe d host_len (44 + n) h)
]

handshake-safe :
    (d : List ℕ) (host_len : ℕ) → 0 < host_len → Returns (handshake d host_len) (Fits host_len)
unfolding handshake
handshake-safe d host_len h = elim (Bool-cases (ltb (length d) (5 + 4))) [
  | inl short ↦ rw short (nothing host_len)
  | inr long ↦
      let room = ltb→ge _ _ long in
      let (t, e) = read-lt d 5 (omega (arith, room)) in
      let (a, ea) = read-lt d 6 (omega (arith, room)) in
      let (b, eb) = read-lt d 7 (omega (arith, room)) in
      let (c, ec) = read-lt d 8 (omega (arith, room)) in
      rw (long, e, ea, eb, ec)
        (elim (Bool-cases (not (t == 1) || ltb (length d) (9 + (a * 65536 + b * 256 + c)))) [
          | inl other ↦ rw other (nothing host_len)
          | inr hello ↦ rw hello (client_hello-safe d host_len h)
        ])
]

-- Whatever the packet holds, `proto_tls_parse_sni` reads inside the packet, and the name that it
-- copies fits the caller's buffer, if that has a byte at least, with its terminator.
pub parse_sni-safe :
    (d : List ℕ) (host_len : ℕ)
    → 0 < host_len
    → Returns (parse_sni d (some host_len)) (Fits host_len)
unfolding parse_sni
parse_sni-safe d host_len h = elim (Bool-cases (ltb (length d) 5 || host_len == 0)) [
  | inl short ↦ rw short (nothing host_len)
  | inr long ↦
      let room : 5 ≤ length d = ground (arith, long) in
      let (t, e) = read-lt d 0 (omega (arith, room)) in
      let (version, ev) = read_be16-lt d 1 (omega (arith, room)) in
      let (n, en) = read_be16-lt d 3 (omega (arith, room)) in
      rw (long, e, ev, en)
        (elim (Bool-cases (not (t == 22) || ltb version 0x0301 || ltb (length d) (5 + n))) [
          | inl other ↦ rw other (nothing host_len)
          | inr hello ↦ rw hello (handshake-safe d host_len h)
        ])
]

-- The body asks for the rest of the loop at a later position only.
extension-same :
    (rest other : ℕ → Run Found) (d : List ℕ) (host_len ext_end pos : ℕ)
    → ext_end ≤ length d
    → pos + 4 ≤ ext_end
    → ((p : ℕ) → pos < p → rest p ≡ other p)
    → extension rest d host_len ext_end pos ≡ extension other d host_len ext_end pos
unfolding extension
extension-same rest other d host_len ext_end pos le room k =
    let (ext_type, e) = read_be16-lt d pos (omega (arith, room, le)) in
    let (n, f) = read_be16-lt d (pos + 2) (omega (arith, room, le)) in
    rw (e, f, k (pos + 4 + n) (omega arith)) refl

-- The loop over the extensions ends by itself: as many rounds as bytes are left are enough, and
-- with more rounds it finds the same.
extensions_enough :
    (fuel : ℕ) (d : List ℕ) (host_len ext_end pos : ℕ)
    → ext_end ≤ length d
    → ext_end ≤ pos + fuel
    → extensions (suc fuel) d host_len ext_end pos ≡ extensions fuel d host_len ext_end pos
unfolding extensions
extensions_enough zero d host_len ext_end pos le h =
    let end : leb (pos + 4) ext_end ≡ false = ground arith in rw (end, extensions) refl
extensions_enough (suc fuel) d host_len ext_end pos le h =
    elim (Bool-cases (leb (pos + 4) ext_end)) [
      | inr end ↦ rw (end, extensions) refl
      | inl more ↦
          rw (more, extensions)
            (extension-same (extensions (suc fuel) d host_len ext_end)
              (extensions fuel d host_len ext_end) d host_len ext_end pos le (leb→le _ _ more)
              (λ p q. extensions_enough fuel d host_len ext_end p le (omega arith)))
    ]
