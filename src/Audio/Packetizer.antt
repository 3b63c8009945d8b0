-- ===== src/Audio/Packetizer.antt =====
-- src/modules/roc_audio/packetizer.cpp, with the interface of iframe_encoder.h. `pool i` is the buffer
-- of the `i`-th packet that is created, `none` if that or the packet cannot be allocated. `none` is a
-- panic, a null pointer, a division by zero, or fuel that ran out. Packets that are written are returned.
pub mod Contract
pub mod Packets
pub mod State
pub mod Begins
pub mod Ends
pub mod Chunks
pub mod Stream
pub mod Composer
pub mod Flush
use roc.Prelude.{
  ℕ, zero, suc, ◌+◌, ◌-◌, ◌*◌, ◌/◌, ◌%◌, Bool, true, false, Option, none, some, List, [], ◌∷◌, ◌++◌,
  ltb, ◌==◌, not, if◌then◌else◌, length, take, drop, ◌>>=◌,
}
use roc.Packet.Units.{u16_mod, u32_mod, u64_mod}
use roc.Packet.Types.{Packet, Rtp, Slice, rtp, packet_init, flag_audio, add_flags, set_data}
use roc.Rtp.Composer.{Buffer, InnerComposer}

-- IFrameEncoder. The frame given to `begin` is memory that the payload of a packet shares: `finish`
-- gives what the encoder has left there.
pub record FrameEncoder (Sample : Type 0) : Type 1 where
  pub State : Type 0
  pub encoded_size : ℕ → ℕ
  pub begin : Slice → State → Option State
  pub write : List Sample → ℕ → ℕ → State → Option (ℕ × State)
  pub finish : State → Option (Slice × State)

-- The inner `none` is a null packet.
unfoldable pub create_packet : InnerComposer → Option Buffer → ℕ → Option (Option Packet)
create_packet c none payload_size = some none
create_packet c (some b) payload_size = (add_flags flag_audio packet_init) >>= λ p.
    (c.prepare p b payload_size) >>= λ a.
    if a.0
    then ((set_data (some (take a.2.size a.2.bytes)) a.1) >>= λ q. some (some q))
    else some none

module _ {Sample : Type 0} (e : FrameEncoder Sample) where
  -- `allocated` counts the packets that were asked for.
  pub record Packetizer : Type 0 where
    pub encoder : e.State
    pub allocated : ℕ
    pub channels : ℕ
    pub num_channels : ℕ
    pub samples_per_packet : ℕ
    pub payload_type : ℕ
    pub payload_size : ℕ
    pub packet : Option Packet
    pub packet_pos : ℕ
    pub source : ℕ
    pub seqnum : ℕ
    pub timestamp : ℕ

  -- Whether a packet was begun.
  unfoldable pub begin_created : Option Packet → Packetizer → Option (Bool × Packetizer)
  begin_created none w = some (false, w)
  begin_created (some p) w = (rtp p) >>= λ r. (e.begin r.payload w.encoder) >>= λ s. some (
    true,
    record w {
      encoder = s;
      packet = some (record p {
        rtp_part = record r {
          source = w.source;
          seqnum = w.seqnum;
          timestamp = w.timestamp;
          payload_type = w.payload_type;
        };
      });
    },
  )

  unfoldable pub pad_packet : InnerComposer → Packet → Packetizer → Option Packet
  pad_packet c p w =
      if ltb w.payload_size (e.encoded_size w.packet_pos)
      then none
      else if e.encoded_size w.packet_pos == w.payload_size
      then some p
      else (do
        (ok, q) ← c.pad p (w.payload_size - e.encoded_size w.packet_pos)
        if ok then some q else none)

  -- The state behind a packet that was written.
  abbrev pub after_packet : e.State → Packetizer → Packetizer
  after_packet s w = record w {
    encoder = s;
    seqnum = (w.seqnum + 1) % u16_mod;
    timestamp = (w.timestamp + w.packet_pos % u32_mod) % u32_mod;
    packet = none;
    packet_pos = 0;
  }

  abbrev pub end_begun : InnerComposer → Packet → Packetizer → Option (Packet × Packetizer)
  end_begun c p w = (e.finish w.encoder) >>= λ f. (rtp p) >>= λ r.
      let q : Packet = record p {
        rtp_part = record r { payload = f.0; duration = w.packet_pos % u32_mod };
      } in
      (if ltb w.packet_pos w.samples_per_packet then pad_packet c q w else some q) >>= λ out.
      some (out, after_packet f.1 w)

  unfoldable pub end_packet : InnerComposer → Packetizer → Option (Packet × Packetizer)
  end_packet c w = w.packet >>= λ p. end_begun c p w

  -- A full packet is ended.
  unfoldable pub end_full : InnerComposer → ℕ → Packetizer → Option (ℕ × List Packet × Packetizer)
  end_full c k w =
      if w.packet_pos == w.samples_per_packet
      then ((end_packet c w) >>= λ a. some (k, a.0 ∷ [], a.1))
      else some (k, [], w)

  -- How many samples go into the packet.
  unfoldable pub room : ℕ → Packetizer → ℕ
  room n w =
      let left = (w.samples_per_packet + u64_mod - w.packet_pos) % u64_mod in
      if ltb left n then left else n

  -- The samples for each channel that are written, the packets, and the state.
  unfoldable pub write_chunk :
      InnerComposer → List Sample → ℕ → Packetizer → Option (ℕ × List Packet × Packetizer)
  write_chunk c xs n w = (e.write xs (room n w) w.channels w.encoder) >>= λ a.
      if a.0 == room n w
      then end_full c a.0 (record w { encoder = a.1; packet_pos = w.packet_pos + a.0 })
      else none

  unfoldable pub flush : InnerComposer → Packetizer → Option (List Packet × Packetizer)
  flush c w = elim w.packet [
    | none ↦ some ([], w)
    | some _ ↦ (end_packet c w) >>= λ a. some (a.0 ∷ [], a.1)
  ]

module _ {Sample : Type 0} (e : FrameEncoder Sample) (pool : ℕ → Option Buffer) where
  unfoldable pub begin_packet : InnerComposer → Packetizer e → Option (Bool × Packetizer e)
  begin_packet c w = (create_packet c (pool w.allocated) w.payload_size) >>= λ pp.
      begin_created e pp (record w { allocated = suc w.allocated })

  abbrev pub with_packet :
      InnerComposer → Option Packet → Packetizer e → Option (Bool × Packetizer e)
  with_packet c none w = begin_packet c w
  with_packet c (some _) w = some (true, w)

  unfoldable pub write_loop :
      InnerComposer → ℕ → List Sample → ℕ → Packetizer e → Option (List Packet × Packetizer e)
  write_loop c zero xs n w = none
  write_loop c (suc fuel) xs n w = elim (n == 0) [
    | true ↦ some ([], w)
    | false ↦ (with_packet c w.packet w) >>= λ v. elim v.0 [
      | false ↦ some ([], v.1)
      | true ↦ (write_chunk e c xs n v.1) >>= λ a.
          (write_loop c fuel (drop (a.0 * w.num_channels) xs) (n - a.0) a.2) >>= λ b.
          some (a.1 ++ b.0, b.1)
    ]
  ]

  -- One round more than there are samples for each channel.
  unfoldable pub write :
      InnerComposer → List Sample → Packetizer e → Option (List Packet × Packetizer e)
  write c xs w =
      if w.num_channels == 0
      then none
      else if not (length xs % w.num_channels == 0)
      then none
      else write_loop c (suc (length xs / w.num_channels)) xs (length xs / w.num_channels) w
