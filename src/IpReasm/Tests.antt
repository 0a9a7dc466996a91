-- ===== src/IpReasm/Tests.antt =====
-- Runs of the fragment table, and its theorems at concrete datagrams.
use openwrt_demo.Buffer.{new_cap}
use openwrt_demo.Prelude.{
  ℕ, ◌+◌, ◌≡◌, refl, true, false, none, some, List, [], ◌∷◌, arith, length, set, get_elem?, All,
  pos, window,
}
use openwrt_demo.IpReasm.{
  Frag, Key, Env, waiting, cleared, claim, feed, find_or_create, key_equal, address, feed_slot,
  clip_payload, mark_last, accept, ensure_cap, extend, finish, hand_out,
}
use openwrt_demo.IpReasm.Inv.{SlotIsValid, cleared-SlotIsValid, feed-SlotIsValid}
use openwrt_demo.IpReasm.Place.{HasAddresses}
use openwrt_demo.IpReasm.Delivery.{Piece, Carries, CarriesAll, send, answers, handed, send_lem}
use openwrt_demo.IpReasm.Shadow.{IsEmptyEntry, feed-shadowed}

abbrev roomy : Env
roomy = record { realloc = λ n. true; now_found = 100; now_fed = 101 }

abbrev dns_reply : Key
dns_reply = record {
  is_v6 = false;
  src = 10 ∷ 0 ∷ 0 ∷ 1 ∷ [];
  dst = 10 ∷ 0 ∷ 0 ∷ 2 ∷ [];
  id = 7;
  proto = 17;
}

abbrev stream : ℕ → ℕ
stream x = 40 + x

abbrev first : Piece
first = record { env = roomy; payload = 40 ∷ 41 ∷ []; len = 2 }

abbrev second : Piece
second = record { env = roomy; payload = 42 ∷ []; len = 1 }

abbrev empty_table : List Frag
empty_table = cleared ∷ cleared ∷ []

dns_reply-HasAddresses : HasAddresses dns_reply
dns_reply-HasAddresses = record { src = refl; dst = refl }

send_in_order :
    send empty_table dns_reply 64 0 (first ∷ []) second
    ≡ (waiting ∷ handed (40 ∷ 41 ∷ 42 ∷ []) 3 ∷ [], empty_table)
unfolding send feed find_or_create key_equal claim address feed_slot clip_payload mark_last accept
    ensure_cap new_cap extend finish hand_out
send_in_order = refl

carried : CarriesAll stream 3 0 (first ∷ []) second
carried =
    let one : Carries stream roomy (40 ∷ 41 ∷ []) 0 2 = record {
      some_data = omega arith;
      fits = omega arith;
      holds = omega arith;
      bytes = refl;
      granted = λ n. refl;
    } in
    let two : Carries stream roomy (42 ∷ []) 2 1 = record {
      some_data = omega arith;
      fits = omega arith;
      holds = omega arith;
      bytes = refl;
      granted = λ n. refl;
    } in
    (one, (two, refl))

send_lem_example :
    send empty_table dns_reply 64 0 (first ∷ []) second
    ≡ (answers (first ∷ []) (handed (window stream 0 3) 3), set empty_table 0 cleared)
send_lem_example =
    send_lem stream empty_table dns_reply 0 64 3 (first ∷ []) second refl dns_reply-HasAddresses
      carried (omega arith)

feed-SlotIsValid_example :
    All SlotIsValid (feed roomy empty_table dns_reply (40 ∷ []) (pos 1) 0 true none).1
    × (length (feed roomy empty_table dns_reply (40 ∷ []) (pos 1) 0 true none).1 ≡ 2)
feed-SlotIsValid_example =
    feed-SlotIsValid roomy empty_table dns_reply (40 ∷ []) (pos 1) 0 true none
      (cleared-SlotIsValid, (cleared-SlotIsValid, tt)) (omega arith)

-- a slot that holds the first two bytes of the reply
abbrev begun : Frag
begun = record cleared {
  in_use = true;
  src = 10 ∷ 0 ∷ 0 ∷ 1 ∷ 0 ∷ 0 ∷ 0 ∷ 0 ∷ 0 ∷ 0 ∷ 0 ∷ 0 ∷ 0 ∷ 0 ∷ 0 ∷ 0 ∷ [];
  dst = 10 ∷ 0 ∷ 0 ∷ 2 ∷ 0 ∷ 0 ∷ 0 ∷ 0 ∷ 0 ∷ 0 ∷ 0 ∷ 0 ∷ 0 ∷ 0 ∷ 0 ∷ 0 ∷ [];
  id = 7;
  proto = 17;
  buf = 40 ∷ 41 ∷ [];
  used_len = 2;
  cap = 512;
  last_seen = 60;
}

begun-key : key_equal begun dns_reply ≡ true
unfolding key_equal
begun-key = refl

feed-shadowed_example :
    ((feed roomy (cleared ∷ begun ∷ []) dns_reply (42 ∷ []) (pos 1) 2 false (some 64)).0 ≡ waiting)
    × (get_elem?
          (feed roomy (cleared ∷ begun ∷ []) dns_reply (42 ∷ []) (pos 1) 2 false (some 64)).1
          1
        ≡ some begun)
    × ((g : Frag) × (get_elem?
            (feed roomy (cleared ∷ begun ∷ []) dns_reply (42 ∷ []) (pos 1) 2 false (some 64)).1
            0
          ≡ some g)
        × IsEmptyEntry dns_reply g)
feed-shadowed_example =
    feed-shadowed roomy (cleared ∷ begun ∷ []) dns_reply 0 1 begun (42 ∷ []) (pos 1) 2 false
      (some 64) dns_reply-HasAddresses refl (omega arith) refl refl begun-key refl (omega arith)
