-- ===== src/Wol/Relay.antt =====
-- The loop of `run`: what a relayed packet is, and that it is relayed once.
use openwrt_demo.Wol.{
  DupEntry, Config, Packet, wol_pkt_len, dup_window_secs, parse_magic, build_magic, dup_check,
  source_allowed, allowed_range, send_out, relay_new, relay_magic, own_packet, handle, Lan,
}
use openwrt_demo.Wol.Magic.{parse_magic-copies}
use openwrt_demo.Wol.Recent.{dup_check-again}
use mathlib.Core.Option.{some-injective}
use openwrt_demo.Prelude.{
  ℕ, ◌+◌, ◌<◌, ◌≡◌, refl, sym, ap, ◌∙◌, Bool, true, false, Option, none, some, Option-cases, List,
  inl, inr, Bool-cases, length, take, ℤ,
}

module _ (htonl : ℕ → ℕ) (inet_pton : List ℕ → Option ℕ) (strtol : List ℕ → ℤ × List ℕ) where
  abbrev allowed : Config → Packet → Bool
  allowed cfg p =
      source_allowed p.src (allowed_range htonl inet_pton strtol cfg.allow_cidr).0
        (allowed_range htonl inet_pton strtol cfg.allow_cidr).1

  -- What a round that sends has passed.
  record Passed (cfg : Config) (lo_index : ℕ) (tab : List DupEntry) (p : Packet) (bytes : List ℕ)
      : Type 0 where
    pub outside : own_packet lo_index p.pktinfo ≡ false
    pub permitted : allowed cfg p ≡ true
    pub mac : List ℕ
    pub magic : parse_magic p.bytes ≡ some mac
    pub fresh : (dup_check tab p.src mac p.now).0 ≡ false
    pub copy : bytes ≡ build_magic mac
    pub table :
        (handle htonl inet_pton strtol cfg lo_index tab p).1 ≡ (dup_check tab p.src mac p.now).1

  send_out-copy :
      (cfg : Config) (p : Packet) (mac : List ℕ) (lan : Option Lan) (target : ℕ) (bytes : List ℕ)
      → send_out htonl inet_pton strtol cfg p mac lan ≡ some (target, bytes)
      → bytes ≡ build_magic mac
  unfolding send_out
  send_out-copy cfg p mac none target bytes e = cc
  send_out-copy cfg p mac (some lan) target bytes e = sym (ap (λ s. s.1) (some-injective _ _ e))

  relay_new-fresh :
      (cfg : Config) (p : Packet) (mac : List ℕ) (r : Bool × List DupEntry) (target : ℕ)
      (bytes : List ℕ)
      → (relay_new htonl inet_pton strtol cfg p mac r).0 ≡ some (target, bytes)
      → (r.0 ≡ false)
        × (bytes ≡ build_magic mac)
        × ((relay_new htonl inet_pton strtol cfg p mac r).1 ≡ r.1)
  unfolding relay_new
  relay_new-fresh cfg p mac (true, tab) target bytes e = cc
  relay_new-fresh cfg p mac (false, tab) target bytes e =
      (refl, send_out-copy cfg p mac _ target bytes e, refl)

  handle-Passed :
      (cfg : Config) (lo_index : ℕ) (tab : List DupEntry) (p : Packet) (target : ℕ) (bytes : List ℕ)
      → (handle htonl inet_pton strtol cfg lo_index tab p).0 ≡ some (target, bytes)
      → Passed cfg lo_index tab p bytes
  unfolding handle relay_magic relay_new send_out
  handle-Passed cfg lo_index tab p target bytes =
      elim (Bool-cases (own_packet lo_index p.pktinfo)) [
        | inl own ↦ rw own (λ e. cc)
        | inr outside ↦ elim (Bool-cases (allowed cfg p)) [
          | inr foreign ↦ rw (outside, foreign) (λ e. cc)
          | inl permitted ↦ elim (Option-cases (parse_magic p.bytes)) [
            | inl plain ↦ rw (outside, permitted, plain) (λ e. cc)
            | inr (mac, magic) ↦
                rw (outside, permitted, magic)
                  (λ e.
                    let (fresh, copy, same) =
                      relay_new-fresh cfg p mac (dup_check tab p.src mac p.now) target bytes e in
                    record {
                      outside = outside;
                      permitted = permitted;
                      mac = mac;
                      magic = magic;
                      fresh = fresh;
                      copy = copy;
                      table = rw (outside, permitted, magic) same;
                    })
          ]
        ]
      ]

  -- A packet that is sent is the beginning of the received one, which has the form of a magic packet,
  -- comes from the allowed range and did not arrive on the loopback interface.
  handle-sends :
      (cfg : Config) (lo_index : ℕ) (tab : List DupEntry) (p : Packet) (target : ℕ) (bytes : List ℕ)
      → (handle htonl inet_pton strtol cfg lo_index tab p).0 ≡ some (target, bytes)
      → (bytes ≡ take wol_pkt_len p.bytes)
        × (source_allowed p.src
              (allowed_range htonl inet_pton strtol cfg.allow_cidr).0
              (allowed_range htonl inet_pton strtol cfg.allow_cidr).1
            ≡ true)
        × (own_packet lo_index p.pktinfo ≡ false)
  handle-sends cfg lo_index tab p target bytes e =
      let h = handle-Passed cfg lo_index tab p target bytes e in
      (h.copy ∙ sym (parse_magic-copies p.bytes h.mac h.magic), h.permitted, h.outside)

  relay_new-dup :
      (cfg : Config) (p : Packet) (mac : List ℕ) (r : Bool × List DupEntry)
      → r.0 ≡ true
      → (relay_new htonl inet_pton strtol cfg p mac r).0 ≡ none
  unfolding relay_new
  relay_new-dup cfg p mac (true, tab) h = refl
  relay_new-dup cfg p mac (false, tab) h = cc

  handle-dup :
      (cfg : Config) (lo_index : ℕ) (tab : List DupEntry) (p : Packet) (mac : List ℕ)
      → parse_magic p.bytes ≡ some mac
      → (dup_check tab p.src mac p.now).0 ≡ true
      → (handle htonl inet_pton strtol cfg lo_index tab p).0 ≡ none
  unfolding handle relay_magic
  handle-dup cfg lo_index tab p mac magic known =
      elim (Bool-cases (own_packet lo_index p.pktinfo)) [
        | inl own ↦ rw own refl
        | inr outside ↦ elim (Bool-cases (allowed cfg p)) [
          | inr foreign ↦ rw (outside, foreign) refl
          | inl permitted ↦
              rw (outside, permitted, magic)
                (relay_new-dup cfg p mac (dup_check tab p.src mac p.now) known)
        ]
      ]

  -- Where a packet was relayed, the packet that arrives next is not relayed if it comes from the same
  -- source, asks for the same machine and arrives less than five seconds later, whatever the
  -- interfaces and the configuration are then.
  pub handle-once :
      (cfg cfg' : Config) (lo_index lo_index' : ℕ) (tab : List DupEntry) (p q : Packet) (target : ℕ)
      (bytes : List ℕ)
      → 0 < length tab
      → 0 < p.now
      → (handle htonl inet_pton strtol cfg lo_index tab p).0 ≡ some (target, bytes)
      → q.src ≡ p.src
      → parse_magic q.bytes ≡ parse_magic p.bytes
      → q.now < p.now + dup_window_secs
      → (handle htonl inet_pton strtol cfg' lo_index'
          (handle htonl inet_pton strtol cfg lo_index tab p).1
          q).0
        ≡ none
  handle-once cfg cfg' lo_index lo_index' tab p q target bytes n now e src same soon =
      let h = handle-Passed cfg lo_index tab p target bytes e in
      handle-dup cfg' lo_index' _ q h.mac (same ∙ h.magic)
        (rw (h.table, src) (dup_check-again tab p.src h.mac p.now q.now n now soon h.fresh))
