-- ===== src/Audio/Packetizer/Flush.antt =====
-- src/modules/roc_audio/packetizer.cpp: Packetizer::flush, which sends the packet that is begun, with
-- padding in place of the samples that it lacks.
use roc.Prelude.{
  ℕ, ◌+◌, ◌-◌, ◌*◌, ◌^◌, ◌%◌, ◌≤◌, ◌<◌, ◌≡◌, refl, sym, ap, subst, ◌∙◌, inl, inr, true, false,
  Option, none, some, List, [], ◌∷◌, arith, length, take, take_all, Bool-cases, ltb, ◌==◌, ◌>>=◌,
}
use roc.Packet.Units.{u16_mod, u32_mod}
use roc.Packet.Types.{Packet, Rtp, rtp}
use roc.Audio.Packetizer.{Packetizer, pad_packet, after_packet, end_begun, end_packet, flush}
use roc.Audio.Packetizer.Packets.{rtp-part}
use roc.Audio.Packetizer.Contract.{Setting, Pads}
use roc.Audio.Packetizer.State.{Common, IsResting, IsFilling, IsValid}

module _ {Sample : Type 0} (cfg : Setting Sample) where
  abbrev Pkt : Type 0
  Pkt = Packetizer cfg.encoder

  -- A packet of `n` samples for each channel, whose payload is as much of a frame that encodes the
  -- samples `zs` as `n` samples take.
  pub record IsShort (n seqnum timestamp : ℕ) (p : Packet) (zs : List Sample) : Type 0 where
    pub parts : Rtp
    pub frame : List ℕ
    pub is_rtp : rtp p ≡ some parts
    pub has_seqnum : parts.seqnum ≡ seqnum
    pub has_timestamp : parts.timestamp ≡ timestamp
    pub has_duration : parts.duration ≡ n
    pub has_payload : parts.payload ≡ some (take (cfg.encoder.encoded_size n) frame)
    pub encodes : cfg.contract.Encodes zs frame
    pub has_samples : n * cfg.num_channels ≡ length zs

  -- Nothing is sent without a packet; else the samples that are held are sent, and none is held.
  pub data Flushes (zs : List Sample) (w : Pkt) : Option (List Packet × Pkt) → Type 0 where
    nothing : w.packet ≡ none → zs ≡ [] → Flushes zs w (some ([], w))
    short :
        (n : ℕ) (p : Packet) (v : Pkt)
        → n < cfg.samples_per_packet
        → IsShort n w.seqnum w.timestamp p zs
        → IsValid cfg [] v
        → v.packet ≡ none
        → v.seqnum ≡ (w.seqnum + 1) % u16_mod
        → v.timestamp ≡ (w.timestamp + n) % u32_mod
        → Flushes zs w (some (p ∷ [], v))

module _ {Sample : Type 0} (cfg : Setting Sample) (pads : Pads cfg.composer)
    (fits : cfg.samples_per_packet < 2 ^ 32) where
  -- A packet with a whole frame as its payload, made shorter.
  shortened :
      (p : Packet) (r : Rtp) (b : List ℕ) (w : Pkt cfg)
      → Common cfg w
      → w.packet_pos < cfg.samples_per_packet
      → rtp p ≡ some r
      → r.payload ≡ some b
      → r.padding ≡ none
      → length b ≡ cfg.payload_size
      → (q : Packet) × (r' : Rtp) × (pad_packet cfg.encoder cfg.composer p w ≡ some q)
        × (rtp q ≡ some r')
        × (r'.seqnum ≡ r.seqnum)
        × (r'.timestamp ≡ r.timestamp)
        × (r'.duration ≡ r.duration)
        × (r'.payload ≡ some (take (cfg.encoder.encoded_size w.packet_pos) b))
  unfolding pad_packet
  shortened p r b w m l hr hp hn hb =
      let k = cfg.encoder.encoded_size w.packet_pos in
      let in_frame : k ≤ cfg.payload_size = cfg.contract.sizes w.packet_pos (omega arith) in
      let g : ltb w.payload_size k ≡ false = ground (arith, m.same_size) in
      elim (Bool-cases (k == w.payload_size)) [
        | inl t ↦
            let all : length b ≤ k = ground (arith, m.same_size) in
            (p, r, rw (g, t) refl, hr, refl, refl, refl, hp ∙ ap some (sym (take_all k b all)))
        | inr f ↦
            let lacks = w.payload_size - k in
            let (q, r', o, hr', s, t, d, hp') =
              pads p r b lacks hr hp hn (omega (arith, m.same_size)) in
            let left : length b - lacks ≡ k = omega (arith, m.same_size) in
            (q, r', rw (g, f, o) refl, hr', s, t, d, hp' ∙ ap (λ n. some (take n b)) left)
      ]

  -- A packet that was begun is ended before it is full.
  end_packet-Flushes :
      (zs : List Sample) (w : Pkt cfg)
      → Common cfg w
      → w.packet_pos < cfg.samples_per_packet
      → IsFilling cfg zs w
      → Flushes cfg zs w (end_packet cfg.encoder cfg.composer w >>= λ a. some (a.0 ∷ [], a.1))
  unfolding end_packet
  end_packet-Flushes zs w m l y =
      let (s, b, f, en, size, idle) = cfg.contract.ends w.encoder zs y.holds in
      let t : w.packet_pos % u32_mod ≡ w.packet_pos = omega arith in
      let g : ltb w.packet_pos w.samples_per_packet ≡ true = ground (arith, m.same_samples) in
      let r' : Rtp = record y.parts { payload = some b; duration = w.packet_pos % u32_mod } in
      let p' : Packet = record y.begun { rtp_part = r' } in
      let (q, r, o, hr, hs, ht, hd, hp) =
        shortened p' r' b w m l (rtp-part y.begun y.parts r' y.is_rtp) refl y.no_padding size in
      let v : Pkt cfg = after_packet cfg.encoder s w in
      let rest : IsResting cfg v = record { no_packet = refl; is_idle = idle; at_start = refl } in
      let res : Flushes cfg zs w (some (q ∷ [], v)) =
        short w.packet_pos q v l
          (record {
            parts = r;
            frame = b;
            is_rtp = hr;
            has_seqnum = hs ∙ y.same_seqnum;
            has_timestamp = ht ∙ y.same_timestamp;
            has_duration = hd ∙ t;
            has_payload = hp;
            encodes = en;
            has_samples = y.at_pos;
          })
          (m, omega arith, inl (rest, refl)) refl refl (ap (λ k. (w.timestamp + k) % u32_mod) t) in
      subst
        (λ x.
          Flushes cfg zs w
            ((x >>= λ k. end_begun cfg.encoder cfg.composer k w) >>= λ a. some (a.0 ∷ [], a.1)))
        (sym y.has_packet) (rw (f, y.is_rtp, g, o) res)

  -- What `flush` does with the packet.
  abbrev flush_of : Option Packet → Pkt cfg → Option (List Packet × Pkt cfg)
  flush_of o w = elim o [
    | none ↦ some ([], w)
    | some _ ↦ end_packet cfg.encoder cfg.composer w >>= λ a. some (a.0 ∷ [], a.1)
  ]

  -- A valid packetizer that holds the samples `zs`, over an encoder and a composer by their contracts,
  -- flushes without a panic. Without a packet it sends nothing, and holds no samples. Else it sends one
  -- packet with the next sequence number and timestamp, whose duration is the number `n` of samples that
  -- are held for each channel and whose payload is the part that `n` samples take of a frame that encodes
  -- `zs`; then it is valid, holds no samples, has no packet, and counts on by one number and `n` samples.
  pub flush-Flushes :
      (zs : List Sample) (w : Pkt cfg)
      → IsValid cfg zs w
      → Flushes cfg zs w (flush cfg.encoder cfg.composer w)
  unfolding flush
  flush-Flushes zs w (m, l, inl (y, z)) =
      subst (λ o. Flushes cfg zs w (flush_of o w)) (sym y.no_packet) (nothing y.no_packet z)
  flush-Flushes zs w (m, l, inr y) =
      subst (λ o. Flushes cfg zs w (flush_of o w)) (sym y.has_packet)
        (end_packet-Flushes zs w m l y)
