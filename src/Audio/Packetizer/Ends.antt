-- ===== src/Audio/Packetizer/Ends.antt =====
-- src/modules/roc_audio/packetizer.cpp: Packetizer::end_packet_ with a full packet.
use roc.Prelude.{
  ℕ, ◌+◌, ◌*◌, ◌^◌, ◌%◌, ◌<◌, ◌≡◌, refl, sym, ap, subst, ◌∙◌, false, Option, some, List, arith, ltb,
  ◌>>=◌,
}
use roc.Packet.Units.{u16_mod, u32_mod}
use roc.Packet.Types.{Packet, Rtp}
use roc.Audio.Packetizer.{Packetizer, after_packet, end_begun, end_packet}
use roc.Audio.Packetizer.Packets.{rtp-part}
use roc.Audio.Packetizer.Contract.{Setting}
use roc.Audio.Packetizer.State.{Common, IsResting, IsFilling, IsSent, Counts}

module _ {Sample : Type 0} (cfg : Setting Sample) where
  abbrev Pkt : Type 0
  Pkt = Packetizer cfg.encoder

  -- What is made of a packet when it is ended.
  pub data Ends (zs : List Sample) (seqnum timestamp : ℕ) : Option (Packet × Pkt) → Type 0 where
    ended :
        (p : Packet) (v : Pkt)
        → IsSent cfg seqnum timestamp p zs
        → Common cfg v
        → IsResting cfg v
        → Counts cfg ((seqnum + 1) % u16_mod) ((timestamp + cfg.samples_per_packet) % u32_mod) v
        → Ends zs seqnum timestamp (some (p, v))

module _ {Sample : Type 0} (cfg : Setting Sample) (fits : cfg.samples_per_packet < 2 ^ 32) where
  pub end_packet-Ends :
      (zs : List Sample) (w : Pkt cfg)
      → Common cfg w
      → IsFilling cfg zs w
      → w.packet_pos ≡ cfg.samples_per_packet
      → Ends cfg zs w.seqnum w.timestamp (end_packet cfg.encoder cfg.composer w)
  unfolding end_packet
  end_packet-Ends zs w m y q =
      let (s, b, f, en, _, idle) = cfg.contract.ends w.encoder zs y.holds in
      let t : w.packet_pos % u32_mod ≡ cfg.samples_per_packet = omega arith in
      let g : ltb w.packet_pos w.samples_per_packet ≡ false = ground (arith, m.same_samples) in
      let r' : Rtp = record y.parts { payload = some b; duration = w.packet_pos % u32_mod } in
      let p : Packet = record y.begun { rtp_part = r' } in
      let res : Ends cfg zs w.seqnum w.timestamp (some (p, after_packet cfg.encoder s w)) =
        ended p (after_packet cfg.encoder s w)
          (record {
            parts = r';
            bytes = b;
            is_rtp = rtp-part y.begun y.parts r' y.is_rtp;
            has_seqnum = y.same_seqnum;
            has_timestamp = y.same_timestamp;
            has_duration = t;
            has_payload = refl;
            encodes = en;
            is_full = sym y.at_pos ∙ ap (λ k. k * cfg.num_channels) q;
          })
          m (record { no_packet = refl; is_idle = idle; at_start = refl })
          (refl, ap (λ k. (w.timestamp + k) % u32_mod) t) in
      let step : Packet → Option (Packet × Pkt cfg) = λ x. end_begun cfg.encoder cfg.composer x w in
      subst (λ o. Ends cfg zs w.seqnum w.timestamp (o >>= step)) (sym y.has_packet)
        (rw (f, y.is_rtp, g) res)
