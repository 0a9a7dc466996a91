-- ===== src/Dav/Multipart/Upload.antt =====
-- A multipart body as a client sends it, received by `op_upload` of dav-bridge/src/dav-bridge.c.
use openwrt_demo.Prelude.{
  ℕ, suc, ◌+◌, ◌≤◌, ◌<◌, ◌≡◌, refl, sym, ap, subst, ◌∙◌, Bool, true, some, List, [], ◌∷◌, ◌++◌,
  arith, length, take, drop, All, length-append, take-append, append_nil, same_bytes_refl, bytes_of,
}
use openwrt_demo.Dav.Reader.{Reader}
use openwrt_demo.Dav.Reader.Peek.{unread, IsReader}
use openwrt_demo.Dav.Upload.{Sink, copied, find_bytes, sr_copy_until_boundary}
use openwrt_demo.Dav.Upload.First.{IsFirst}
use openwrt_demo.Dav.Upload.Block.{grow}
use openwrt_demo.Dav.Upload.Copy.{copy_loop-Copied}
use openwrt_demo.Dav.Multipart.{
  sr_read_line, reversed, sr_read_headers, max_part_line, max_header_bytes, Received, copy_ended,
  terminator_of, after_name, after_headers, after_line, receive,
}
use openwrt_demo.Dav.Multipart.Bytes.{
  is_text, IsHead, Leaves, line_loop-Leaves, headers_loop-Leaves,
}

reversed-reversed : (xs ys zs : List ℕ) → reversed (reversed xs ys) zs ≡ reversed ys (xs ++ zs)
unfolding reversed
reversed-reversed [] ys zs = refl
reversed-reversed (c ∷ cs) ys zs = reversed-reversed cs (c ∷ ys) zs

reversed-twice : (xs : List ℕ) → reversed (reversed xs []) [] ≡ xs ++ []
unfolding reversed
reversed-twice xs = reversed-reversed xs [] []

-- What `sr_read_headers` gives and leaves.
sr_read_headers-Leaves :
    (left cap b : ℕ) (head rest : List ℕ) (r : Reader)
    → IsReader r
    → unread r ≡ (b ∷ head) ++ rest
    → IsHead [] (b ∷ head)
    → length (b ∷ head) < cap
    → length (b ∷ head) ≤ left
    → Leaves (sr_read_headers left cap r) (b ∷ head) rest
unfolding sr_read_headers
sr_read_headers-Leaves left cap b head rest r wf e h room enough =
    let (got, behind, wf1) =
      headers_loop-Leaves (suc left) cap [] b head rest r wf e h (omega (arith, room))
        (omega (arith, enough)) in
    rw (got, sr_read_headers)
      (ap some (reversed-twice (b ∷ head) ∙ append_nil (b ∷ head)), behind, wf1)

drop-append : (xs ys : List ℕ) → drop (length xs) (xs ++ ys) ≡ ys
drop-append [] ys = refl
drop-append (x ∷ xs) ys = drop-append xs ys

module _ (fwrite : List ℕ → List ℕ → Bool) (max left : ℕ)
    (writes : (f b : List ℕ) → fwrite f b ≡ true) (boundary : List ℕ) (s : Sink) where
  -- The file and the hash get the content, and the reader stands at the terminator.
  abbrev pub Stores : List ℕ → List ℕ → Received → Type 0
  Stores content rest received =
      (r' : Reader) × (received ≡ copy_ended (copied, r', grow s (length content) content))
      × (unread r' ≡ terminator_of boundary ++ rest)

  -- The end of the part.
  after_name-content :
      (r : Reader) (k : ℕ) (content rest : List ℕ)
      → IsReader r
      → unread r ≡ content ++ (terminator_of boundary ++ rest)
      → length boundary ≤ 127
      → IsFirst
          (terminator_of boundary)
          (content ++ (terminator_of boundary ++ rest))
          (length content)
      → s.total + length content ≤ max
      → length (unread r) ≤ left
      → Stores content rest (after_name fwrite max left boundary s (some k) r)
  unfolding after_name sr_copy_until_boundary
  after_name-content r k content rest wf e short first fits enough =
      let here : IsFirst (terminator_of boundary) (unread r) (length content) =
        subst (λ u. IsFirst (terminator_of boundary) u (length content)) (sym e) first in
      let res = sr_copy_until_boundary fwrite max left (terminator_of boundary) r s in
      let (status, behind, sink) =
        (copy_loop-Copied fwrite max writes (suc left) (terminator_of boundary) (length content) r s
            (omega arith) (omega (arith, short)) wf here (omega (arith, fits))
            (omega (arith, enough))).0
          fits in
      let bytes : take (length content) (unread r) ≡ content =
        ap (take (length content)) e
        ∙ take-append content (terminator_of boundary ++ rest) (length content) refl in
      let tail : drop (length content) (unread r) ≡ terminator_of boundary ++ rest =
        ap (drop (length content)) e ∙ drop-append content (terminator_of boundary ++ rest) in
      (
        res.1,
        ap copy_ended (
            ap (λ st. (st, res.1, res.2)) status
            ∙ ap (λ t. (copied, res.1, t)) (sink ∙ ap (grow s (length content)) bytes)),
        behind ∙ tail,
      )

  module _ (b : ℕ) (head content rest : List ℕ) (k : ℕ)
      (text : All (λ c. is_text c ≡ true) boundary) (short : length boundary ≤ 127)
      (is_head : IsHead [] (b ∷ head)) (small : length (b ∷ head) < max_header_bytes)
      (named : find_bytes (b ∷ head) 0 (bytes_of "name=\"file\"") ≡ some k)
      (first : IsFirst
        (terminator_of boundary)
        (content ++ (terminator_of boundary ++ rest))
        (length content))
      (fits : s.total + length content ≤ max) where
    after_line-content :
        (r : Reader)
        → IsReader r
        → unread r ≡ (b ∷ head) ++ (content ++ (terminator_of boundary ++ rest))
        → length (unread r) ≤ left
        → Stores content rest
            (after_line fwrite max left boundary s (some (b'-' ∷ b'-' ∷ boundary)) r)
    unfolding after_line after_headers
    after_line-content r wf e enough =
        let body = content ++ (terminator_of boundary ++ rest) in
        let long = length-append (b ∷ head) body in
        let r1 = (sr_read_headers left max_header_bytes r).1 in
        let (got, behind, wf1) =
          sr_read_headers-Leaves left max_header_bytes b head body r wf e is_head small
            (omega (arith, enough, long, ap length e)) in
        let same =
          ap (λ o. after_headers fwrite max left boundary s o r1) got
          ∙ ap (λ o. after_name fwrite max left boundary s o r1) named in
        rw (same_bytes_refl (b'-' ∷ b'-' ∷ boundary)) (
          subst (Stores content rest) (sym same) (
            after_name-content r1 k content rest wf1 behind short first fits
              (omega (arith, enough, long, ap length e, ap length behind))))

    -- A body of one part that a client sends, in whatever pieces it arrives: a line with the boundary,
    -- the headers, which name the part "file" and have their only blank line at their end, the content,
    -- in which the terminator does not begin, and the terminator. If the boundary, the line and the
    -- headers fit their buffers, the content is within the limit and the disk takes what is written,
    -- then the part is accepted and the file gets exactly the content.
    pub receive-content :
        (r : Reader)
        → IsReader r
        → unread r
          ≡ (b'-' ∷ b'-' ∷ boundary)
            ++ (13 ∷ 10 ∷ ((b ∷ head) ++ (content ++ (terminator_of boundary ++ rest))))
        → length (unread r) ≤ left
        → Stores content rest (receive fwrite max left boundary s r)
    unfolding receive sr_read_line
    receive-content r wf e enough =
        let line = b'-' ∷ b'-' ∷ boundary in
        let body = (b ∷ head) ++ (content ++ (terminator_of boundary ++ rest)) in
        let long = length-append line (13 ∷ 10 ∷ body) in
        let r1 = (sr_read_line left max_part_line r).1 in
        let (got, behind, wf1) =
          line_loop-Leaves (suc left) max_part_line [] line body r wf e (refl, (refl, text))
            (omega (arith, short)) (omega (arith, enough, long, ap length e)) in
        subst (Stores content rest) (sym (ap (λ o. after_line fwrite max left boundary s o r1) got))
          (after_line-content r1 wf1 behind
            (omega (arith, enough, long, ap length e, ap length behind)))
