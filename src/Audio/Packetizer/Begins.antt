-- ===== src/Audio/Packetizer/Begins.antt =====
-- src/modules/roc_audio/packetizer.cpp: Packetizer::begin_packet_.
use native.Mathlib.Nat.{zero-mul}
use roc.Prelude.{
  ℕ, suc, ◌*◌, ◌≡◌, refl, sym, ap, subst, ◌∙◌, ◌⊎◌, inl, inr, Bool, true, false, Option, none, some,
  List, [], ◌>>=◌,
}
use roc.Packet.Types.{Packet, Rtp}
use roc.Audio.Packetizer.{Packetizer, create_packet, begin_created, begin_packet, with_packet}
use roc.Audio.Packetizer.Packets.{Creates, create_packet-Creates, rtp-part}
use roc.Audio.Packetizer.Contract.{Setting}
use roc.Audio.Packetizer.State.{Common, IsResting, IsFilling, Counts}

module _ {Sample : Type 0} (cfg : Setting Sample) where
  abbrev Pkt : Type 0
  Pkt = Packetizer cfg.encoder

  -- What beginning a packet comes to.
  pub data Begins (zs : List Sample) (w : Pkt) : Option (Bool × Pkt) → Type 0 where
    refused :
        (i : ℕ) (v : Pkt)
        → create_packet cfg.composer (cfg.pool i) cfg.payload_size ≡ some none
        → Common cfg v
        → IsResting cfg v
        → Counts cfg w.seqnum w.timestamp v
        → zs ≡ []
        → Begins zs w (some (false, v))
    begun :
        (v : Pkt)
        → Common cfg v
        → IsFilling cfg zs v
        → v.packet_pos ≡ w.packet_pos
        → Counts cfg w.seqnum w.timestamp v
        → Begins zs w (some (true, v))

  abbrev stamped : Pkt → Rtp → Rtp
  stamped w r = record r {
    source = w.source;
    seqnum = w.seqnum;
    timestamp = w.timestamp;
    payload_type = w.payload_type;
  }

  created :
      (w : Pkt) (i : ℕ)
      → Common cfg w
      → IsResting cfg w
      → Creates cfg.payload_size (create_packet cfg.composer (cfg.pool i) cfg.payload_size)
      → Begins [] w (
          create_packet cfg.composer (cfg.pool i) cfg.payload_size >>= λ pp.
          begin_created cfg.encoder pp (record w { allocated = suc w.allocated }))
  unfolding begin_created
  created w i m y (inl q) = rw (q) (
      refused i (record w { allocated = suc w.allocated }) q m
        (record { no_packet = y.no_packet; is_idle = y.is_idle; at_start = y.at_start })
        (refl, refl) refl)
  created w i m y (inr (p, r, b, q, hr, hp, hl, hn)) =
      let (s, es, hs) = cfg.contract.begins w.encoder b y.is_idle hl in
      rw (q, hr, hp, es)
        (begun
          (record w {
            encoder = s;
            allocated = suc w.allocated;
            packet = some (record p { rtp_part = record (stamped w r) { payload = some b } });
          })
          m
          (record {
            begun = record p { rtp_part = record (stamped w r) { payload = some b } };
            parts = record (stamped w r) { payload = some b };
            has_packet = refl;
            is_rtp = rtp-part p r (record (stamped w r) { payload = some b }) hr;
            no_padding = hn;
            same_seqnum = refl;
            same_timestamp = refl;
            holds = hs;
            at_pos = ap (λ k. k * cfg.num_channels) y.at_start ∙ zero-mul cfg.num_channels;
          })
          refl (refl, refl))

  pub with_packet-Begins :
      (zs : List Sample) (w : Pkt)
      → Common cfg w
      → (IsResting cfg w × (zs ≡ [])) ⊎ IsFilling cfg zs w
      → Begins zs w (with_packet cfg.encoder cfg.pool cfg.composer w.packet w)
  unfolding begin_packet
  with_packet-Begins zs w m (inl (y, z)) =
      let h =
        created w w.allocated m y (
          create_packet-Creates cfg.composer cfg.payload_size cfg.prepares
            (cfg.pool w.allocated)) in
      let step : Option Packet → Pkt → Option (Bool × Pkt) =
        with_packet cfg.encoder cfg.pool cfg.composer in
      let g : ℕ → Option (Bool × Pkt) = λ n.
        create_packet cfg.composer (cfg.pool w.allocated) n >>= λ pp.
        begin_created cfg.encoder pp (record w { allocated = suc w.allocated }) in
      subst (λ o. Begins zs w (step o w)) (sym y.no_packet)
        (subst (λ n. Begins zs w (g n)) (sym m.same_size)
          (subst (λ l. Begins l w (g cfg.payload_size)) (sym z) h))
  with_packet-Begins zs w m (inr y) =
      subst (λ o. Begins zs w (with_packet cfg.encoder cfg.pool cfg.composer o w))
        (sym y.has_packet) (begun w m y refl (refl, refl))
