-- ===== src/Account/Tests.antt =====
-- A flow that is seen twice, and another one between.
use mathlib.Core.Option
use openwrt_demo.Prelude.{ℕ, ◌≡◌, refl, true, false, some, List, [], ◌∷◌, arith}
use openwrt_demo.Account.{
  Key, Observation, same_key, counted, add_delta, add_counts, observe, is_more,
}
use openwrt_demo.Account.Totals.{find}
use openwrt_demo.Account.Sums.{
  mine, ingest_all, last_counts, IsRising, IsBelow, no_counts, empty_table, ingest_all-last_counts,
}

abbrev phone : Key
phone = record {
  src_ip = 33663168;
  dst_ip = 134744072;
  src_port = 50000;
  dst_port = 443;
  protocol = 6;
}

abbrev laptop : Key
laptop = record {
  src_ip = 50440384;
  dst_ip = 134744072;
  src_port = 50000;
  dst_port = 443;
  protocol = 6;
}

abbrev seen : Key → ℕ → ℕ → Observation
seen k rx now = record {
  of = k;
  counts = record { rx_bytes = rx; tx_bytes = 60; rx_packets = 2; tx_packets = 1 };
  now = now;
}

abbrev minute : List Observation
minute = seen phone 1500 10 ∷ seen laptop 900 10 ∷ seen phone 4000 20 ∷ []

minute-IsRising : IsRising phone minute no_counts
unfolding IsRising IsBelow mine counted same_key no_counts
minute-IsRising = ((λ _. ground arith), ((λ e. ground (arith, e)), ((λ _. ground arith), tt)))

twice_seen :
    observe (seen phone 4000 20) (record {
      key = phone;
      sum = (seen phone 1500 10).counts;
      prev = (seen phone 1500 10).counts;
      dirty = false;
      first_seen = 10;
      last_seen = 10;
    })
    ≡ record {
      key = phone;
      sum = (seen phone 4000 20).counts;
      prev = (seen phone 4000 20).counts;
      dirty = true;
      first_seen = 10;
      last_seen = 20;
    }
unfolding observe add_counts add_delta is_more
twice_seen = refl

ingest_all-last_counts_example :
    Option.map (λ f. f.sum) (find phone (ingest_all minute empty_table))
    ≡ some (seen phone 4000 20).counts
unfolding last_counts mine counted same_key
ingest_all-last_counts_example = ingest_all-last_counts phone minute minute-IsRising
