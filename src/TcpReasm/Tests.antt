-- ===== src/TcpReasm/Tests.antt =====
-- Runs of the reassembler, and its theorems at concrete connections.
use openwrt_demo.Prelude.{
  ℕ, ◌+◌, ◌≤◌, ◌<◌, ◌≡◌, refl, true, false, some, List, [], ◌∷◌, arith, take, pos, All, window,
}
use openwrt_demo.Buffer.{new_cap}
use openwrt_demo.TcpReasm.{
  Reasm, Env, reasm_max_len, init, set_isn, feed, prefix, feed_off, feed_prefix, based, seq_offset,
  clip_len, merge_pending, merge_from, ensure_cap, add_pending, has_seg, insert_seg, extend,
}
use openwrt_demo.TcpReasm.Inv.{IsValid}
use openwrt_demo.TcpReasm.Feed.{feed-IsValid}
use openwrt_demo.TcpReasm.Cover.{IsGranted}
use openwrt_demo.TcpReasm.Session.{Packet, run}
use openwrt_demo.TcpReasm.Delivery.{Delivers, Sent, first_seq, run-prefix, run_complete}
use openwrt_demo.TcpReasm.Reports.{Reported, feed-Reported}

abbrev roomy : Env
roomy = record { realloc = λ n. true; calloc = true; malloc = λ n. true; now = 7 }

-- the stream 100, 101, 102, …
abbrev stream : ℕ → ℕ
stream x = 100 + x

-- The initial sequence number is just below the wrap.
abbrev isn : ℕ
isn = 0xffff_fffe

abbrev late : Packet
late = record { env = roomy; seq = 1; payload = 102 ∷ 103 ∷ []; len = 2 }

abbrev early : Packet
early = record { env = roomy; seq = 0xffff_ffff; payload = 100 ∷ 101 ∷ 102 ∷ []; len = 3 }

abbrev out_of_order : List Packet
out_of_order = late ∷ early ∷ late ∷ []

run-out_of_order : prefix (run (set_isn init isn) out_of_order) ≡ (100 ∷ 101 ∷ 102 ∷ 103 ∷ [], 4)
unfolding run set_isn prefix feed feed_off feed_prefix based seq_offset clip_len merge_pending
    merge_from ensure_cap new_cap add_pending has_seg insert_seg extend
run-out_of_order = refl

delivered : All (Delivers stream (first_seq isn)) out_of_order
delivered =
    let first : Delivers stream (first_seq isn) late = record {
      holds = omega arith;
      bytes = refl;
    } in
    let second : Delivers stream (first_seq isn) early = record {
      holds = omega arith;
      bytes = refl;
    } in
    (first, (second, (first, tt)))

granted : IsGranted roomy
granted = record { realloc = λ n. refl; calloc = refl; malloc = λ n. refl }

sent : (x : ℕ) → x < 4 → Sent (first_seq isn) out_of_order x
sent x lt = ground arith

run-prefix_example :
    let (bytes, n) = prefix (run (set_isn init isn) out_of_order) in
    (bytes ≡ window stream 0 n) × (n ≤ reasm_max_len)
run-prefix_example = run-prefix stream isn out_of_order delivered

run_complete_example :
    let (bytes, used) = prefix (run (set_isn init isn) out_of_order) in
    (4 ≤ used) × (take 4 bytes ≡ window stream 0 4)
run_complete_example =
    run_complete stream isn 4 out_of_order delivered (granted, (granted, (granted, tt)))
      (omega arith) sent

abbrev started : Reasm
started = record {
  base_seq = 0;
  have_base = true;
  buf = 100 ∷ 101 ∷ [];
  used_len = 2;
  cap = 256;
  pending = record { off = 4; bytes = 104 ∷ []; len = 1 } ∷ [];
  done = false;
  last_seen = 5;
}

started-IsValid : IsValid started
started-IsValid = record {
  held = refl;
  fits = omega arith;
  small = omega arith;
  gap = (omega arith, record { exact = refl; fits = omega arith }, tt);
}

feed-IsValid_example : IsValid (feed roomy started 2 (some (102 ∷ 103 ∷ [])) (pos 2)).1
feed-IsValid_example = feed-IsValid roomy started 2 (102 ∷ 103 ∷ []) 2 started-IsValid (omega arith)

feed-Reported_example : Reported started (feed roomy started 2 (some (102 ∷ 103 ∷ [])) (pos 2))
feed-Reported_example =
    feed-Reported roomy started 2 (102 ∷ 103 ∷ []) 2 started-IsValid (omega arith)
