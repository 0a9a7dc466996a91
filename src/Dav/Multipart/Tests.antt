-- ===== src/Dav/Multipart/Tests.antt =====
-- A body of one part, in three pieces.
use openwrt_demo.Prelude.{ℕ, ◌≡◌, refl, true, none, some, List, [], ◌∷◌, ◌++◌, arith, bytes_of}
use openwrt_demo.Proto.Http.{starts_with, find_from, mem_find}
use openwrt_demo.Proto.Http.Find.{Finds, find_from-Finds}
use openwrt_demo.Dav.Reader.{Reader}
use openwrt_demo.Dav.Reader.Peek.{IsReader, joined}
use openwrt_demo.Dav.Upload.{Sink, find_bytes}
use openwrt_demo.Dav.Upload.First.{IsFirst}
use openwrt_demo.Dav.Multipart.{
  terminator_of, receive, get_boundary, boundary_token, skip_quote, ends_headers,
}
use openwrt_demo.Dav.Multipart.Bytes.{IsHead}
use openwrt_demo.Dav.Multipart.Upload.{Stores, receive-content}

boundary_quoted :
    get_boundary (some (bytes_of "multipart/form-data; boundary=\"XY\"")) 128 ≡ some (bytes_of "XY")
unfolding get_boundary boundary_token skip_quote mem_find find_from starts_with
boundary_quoted = refl

abbrev crlf : List ℕ
crlf = 13 ∷ 10 ∷ []

abbrev head : List ℕ
head = bytes_of "ame=\"file\"" ++ (crlf ++ crlf)

-- a line's end and two dashes, which begin like the terminator
abbrev content : List ℕ
content = bytes_of "a" ++ (crlf ++ bytes_of "--b")

abbrev rest : List ℕ
rest = bytes_of "--" ++ crlf

abbrev boundary : List ℕ
boundary = bytes_of "XY"

abbrev reader : Reader
reader = record {
  buf = [];
  pos = 0;
  input =
      (bytes_of "--XY" ++ (crlf ++ bytes_of "na"))
      ∷ (bytes_of "me=\"file\"" ++ (crlf ++ (crlf ++ bytes_of "a")))
      ∷ (crlf ++ (bytes_of "--b" ++ (terminator_of boundary ++ rest)))
      ∷ [];
}

abbrev empty : Sink
empty = record { file = []; total = 0; hashed = none }

reader-IsReader : IsReader reader
unfolding IsReader
reader-IsReader = (omega arith, omega arith, ground arith)

head-IsHead : IsHead [] (b'n' ∷ head)
unfolding IsHead ends_headers
head-IsHead = ground arith

head_named : find_bytes (b'n' ∷ head) 0 (bytes_of "name=\"file\"") ≡ some 0
unfolding find_bytes find_from starts_with
head_named = refl

content-IsFirst : IsFirst (terminator_of boundary) (content ++ (terminator_of boundary ++ rest)) 6
unfolding starts_with find_from
content-IsFirst =
    let (k, e, here, before) = found in
    let same : k ≡ 6 = omega (arith, e) in (refl, λ j lt. before j (omega (arith, lt, same)))
  where
    found : Finds (content ++ (terminator_of boundary ++ rest)) (terminator_of boundary) 0 (some 6)
    found =
        find_from-Finds (content ++ (terminator_of boundary ++ rest)) (terminator_of boundary) 0
          (omega arith)

receive-content_example :
    Stores
      (λ f b. true)
      1000
      100
      (λ f b. refl)
      boundary
      empty
      content
      rest
      (receive (λ f b. true) 1000 100 boundary empty reader)
unfolding joined
receive-content_example =
    receive-content (λ f b. true) 1000 100 (λ f b. refl) boundary empty b'n' head content rest 0
      (refl, (refl, tt)) (omega arith) head-IsHead (omega arith) head_named content-IsFirst
      (omega arith) reader reader-IsReader refl (omega arith)
