-- ===== src/TcpReasm/Delivery.antt =====
-- What a whole connection leaves in the prefix: `tcp_reasm_data` after any sequence of segments.
use openwrt_demo.Prelude.{
  ℕ, ◌+◌, ◌%◌, ◌^◌, ◌≤◌, ◌<◌, ◌≡◌, ◌⊎◌, refl, ap, sym, ◌∙◌, subst, some, List, [], ◌∷◌, inl, inr,
  arith, length, take, pos, All, window, take-window,
}
use openwrt_demo.TcpReasm.{Reasm, reasm_max_len, init, set_isn, based, seq_offset, feed, prefix}
use openwrt_demo.TcpReasm.Inv.{IsValid}
use openwrt_demo.TcpReasm.Feed.{feed-IsValid}
use openwrt_demo.TcpReasm.Stream.{Reads, feed-Reads}
use openwrt_demo.TcpReasm.Cover.{Covers, Held, Held-all, IsGranted, feed-Held}
use openwrt_demo.TcpReasm.Session.{Packet, run, offset, Collects, feed-Collects, seq_offset_lem}

-- The packet carries the bytes of the stream `s` at its offset.
pub record Delivers (s : ℕ → ℕ) (base : ℕ) (p : Packet) : Type 0 where
  pub holds : p.len ≤ length p.payload
  pub bytes : take p.len p.payload ≡ window s (offset base p) p.len

-- Some packet carries the byte at offset `x`.
abbrev pub Sent : ℕ → List Packet → ℕ → Type 0
Sent base [] x = ⊥
Sent base (p ∷ ps) x = Covers (offset base p) p.len x ⊎ Sent base ps x

-- What is known of a reassembler at any time of a session.
pub record Session (s : ℕ → ℕ) (base : ℕ) (r : Reasm) : Type 0 where
  pub valid : IsValid r
  pub reads : Reads s r
  pub collects : Collects base r

feed-Session :
    (s : ℕ → ℕ) (base : ℕ) (r : Reasm) (p : Packet)
    → Session s base r
    → Delivers s base p
    → Session s base (feed p.env r p.seq (some p.payload) (pos p.len)).1
feed-Session s base r p h d = record {
  valid = feed-IsValid p.env r p.seq p.payload p.len h.valid d.holds;
  reads =
      feed-Reads s p.env r p.seq p.payload p.len h.valid h.reads d.holds
        (d.bytes ∙ ap (λ o. window s o p.len) (sym (seq_offset_lem base r p h.collects)));
  collects = feed-Collects base p.env r p.seq p.payload p.len h.collects;
}

run-Session :
    (s : ℕ → ℕ) (base : ℕ) (ps : List Packet) (r : Reasm)
    → Session s base r
    → All (Delivers s base) ps
    → Session s base (run r ps)
unfolding run
run-Session s base [] r h d = h
run-Session s base (p ∷ ps) r h d = run-Session s base ps _ (feed-Session s base r p h d.0) d.1

run-Held :
    (s : ℕ → ℕ) (base : ℕ) (ps : List Packet) (r : Reasm) (x : ℕ)
    → Session s base r
    → All (Delivers s base) ps
    → All (λ p. IsGranted p.env) ps
    → x < reasm_max_len
    → Held r x ⊎ Sent base ps x
    → Held (run r ps) x
unfolding run
run-Held s base [] r x h d g lt (inl held) = held
run-Held s base [] r x h d g lt (inr e) = elim e [ ]
run-Held s base (p ∷ ps) r x h d g lt sent =
    run-Held s base ps _ x (feed-Session s base r p h d.0) d.1 g.1 lt (elim sent [
      | inl held ↦ inl (fed (inr held))
      | inr (inl c) ↦
          inl
            (fed (inl (subst (λ o. Covers o p.len x) (sym (seq_offset_lem base r p h.collects)) c)))
      | inr (inr later) ↦ inr later
    ])
  where
    fed :
        Covers (seq_offset (based r p.seq) p.seq) p.len x ⊎ Held r x
        → Held (feed p.env r p.seq (some p.payload) (pos p.len)).1 x
    fed = feed-Held p.env r p.seq p.payload p.len x g.0 h.valid d.0.holds lt h.collects.going

-- The sequence number of the first data byte after a SYN.
abbrev pub first_seq : ℕ → ℕ
first_seq isn = (isn + 1) % 2 ^ 32

syn-Session : (s : ℕ → ℕ) (isn : ℕ) → Session s (first_seq isn) (set_isn init isn)
unfolding set_isn
syn-Session s isn = record {
  valid = record { held = refl; fits = omega arith; small = omega arith; gap = tt };
  reads = record { buf = refl; pending = tt };
  collects = record { base_seq = refl; have_base = refl; going = refl };
}

-- After a SYN and any segments of a stream, in any order, repeated or overlapping, with memory
-- granted or not, the prefix is exactly the first bytes of the stream, and at most 8192 of them.
pub run-prefix :
    (s : ℕ → ℕ) (isn : ℕ) (ps : List Packet)
    → All (Delivers s (first_seq isn)) ps
    → let (bytes, n) = prefix (run (set_isn init isn) ps) in
      (bytes ≡ window s 0 n) × (n ≤ reasm_max_len)
unfolding prefix
run-prefix s isn ps d =
    let h = run-Session s (first_seq isn) ps (set_isn init isn) (syn-Session s isn) d in
    (h.reads.buf, omega (arith, h.valid.fits, h.valid.small))

-- After a SYN and segments of a stream that together carry its first `n` bytes (at most 8192), in
-- any order, repeated or overlapping, the prefix begins with these `n` bytes, if the allocator
-- grants every request.
pub run_complete :
    (s : ℕ → ℕ) (isn n : ℕ) (ps : List Packet)
    → All (Delivers s (first_seq isn)) ps
    → All (λ p. IsGranted p.env) ps
    → n ≤ reasm_max_len
    → ((x : ℕ) → x < n → Sent (first_seq isn) ps x)
    → let (bytes, used) = prefix (run (set_isn init isn) ps) in
      (n ≤ used) × (take n bytes ≡ window s 0 n)
unfolding prefix
run_complete s isn n ps d g small all =
    let start = syn-Session s isn in
    let h = run-Session s (first_seq isn) ps (set_isn init isn) start d in
    let enough : n ≤ (run (set_isn init isn) ps).used_len =
      Held-all (run (set_isn init isn) ps) n h.valid (λ x lt.
        run-Held s (first_seq isn) ps (set_isn init isn) x start d g (omega arith)
          (inr (all x lt))) in
    (enough, ap (take n) h.reads.buf ∙ take-window s n _ 0 enough)

-- After a SYN, the sequence number `k` past the first data byte, with the wrap at 2^32, stands for
-- the offset `k`.
offset_wraps :
    (isn k : ℕ)
    → isn < 2 ^ 32
    → k < 2 ^ 32
    → seq_offset (set_isn init isn) ((isn + 1 + k) % 2 ^ 32) ≡ k
unfolding seq_offset set_isn
offset_wraps isn k hi hk = omega arith
