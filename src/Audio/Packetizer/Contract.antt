-- ===== src/Audio/Packetizer/Contract.antt =====
-- What the packetizer relies on in a frame encoder, by the comments of
-- src/modules/roc_audio/iframe_encoder.h, and in the composer.
use roc.Prelude.{
  ℕ, ◌+◌, ◌-◌, ◌*◌, ◌≤◌, ◌≡◌, ◌⊎◌, true, false, Option, some, none, List, [], ◌++◌, length, take,
}
use roc.Packet.Types.{Packet, Rtp, rtp, packet_init, flag_audio}
use roc.Rtp.Composer.{Buffer, InnerComposer}
use roc.Audio.Packetizer.{FrameEncoder}

-- An encoder is idle, or holds the samples that were written since `begin`; it takes all samples that
-- are written while no more than `samples_per_packet` are in a frame, and leaves the frame as long as it
-- was. `Encodes` relates samples to the frames that hold them.
pub record Contract {Sample : Type 0} (e : FrameEncoder Sample)
    (channels num_channels samples_per_packet payload_size : ℕ) : Type 1 where
  pub Idle : e.State → Type 0
  pub Holds : List Sample → e.State → Type 0
  pub Encodes : List Sample → List ℕ → Type 0
  pub begins :
      (s : e.State) (b : List ℕ)
      → Idle s
      → length b ≡ payload_size
      → (t : e.State) × (e.begin (some b) s ≡ some t) × Holds [] t
  pub writes :
      (s : e.State) (zs xs : List Sample) (n : ℕ)
      → Holds zs s
      → length zs + n * num_channels ≤ samples_per_packet * num_channels
      → n * num_channels ≤ length xs
      → (t : e.State) × (e.write xs n channels s ≡ some (n, t))
        × Holds (zs ++ take (n * num_channels) xs) t
  pub ends :
      (s : e.State) (zs : List Sample)
      → Holds zs s
      → (t : e.State) × (b : List ℕ) × (e.finish s ≡ some (some b, t))
        × Encodes zs b
        × (length b ≡ payload_size)
        × Idle t
  pub sizes : (n : ℕ) → n ≤ samples_per_packet → e.encoded_size n ≤ payload_size

-- A packet with the flag that the packetizer sets.
abbrev pub audio_packet : Packet
audio_packet = record packet_init { flags = flag_audio }

-- Preparing an audio packet fails without a panic, or gives an RTP packet with a payload of the
-- size asked for and no padding.
abbrev pub Prepares : InnerComposer → ℕ → Type 0
Prepares c size =
    (b : Buffer)
    → ((q : Packet) × (b' : Buffer) × (c.prepare audio_packet b size ≡ some (false, q, b')))
      ⊎ ((q : Packet) × (b' : Buffer) × (r : Rtp) × (bytes : List ℕ) × (c.prepare audio_packet b
              size
            ≡ some (true, q, b'))
          × (rtp q ≡ some r)
          × (r.payload ≡ some bytes)
          × (length bytes ≡ size)
          × (r.padding ≡ none)
          × (q.data_slice ≡ none))

-- Padding takes bytes from the end of the payload, and leaves the numbers of the packet.
abbrev pub Pads : InnerComposer → Type 0
Pads c =
    (q : Packet) (r : Rtp) (bytes : List ℕ) (n : ℕ)
    → rtp q ≡ some r
    → r.payload ≡ some bytes
    → r.padding ≡ none
    → n ≤ length bytes
    → (q' : Packet) × (r' : Rtp) × (c.pad q n ≡ some (true, q'))
      × (rtp q' ≡ some r')
      × (r'.seqnum ≡ r.seqnum)
      × (r'.timestamp ≡ r.timestamp)
      × (r'.duration ≡ r.duration)
      × (r'.payload ≡ some (take (length bytes - n) bytes))

-- What a packetizer is given.
pub record Setting (Sample : Type 0) : Type 1 where
  pub encoder : FrameEncoder Sample
  pub pool : ℕ → Option Buffer
  pub composer : InnerComposer
  pub channels : ℕ
  pub num_channels : ℕ
  pub samples_per_packet : ℕ
  pub payload_size : ℕ
  pub contract : Contract encoder channels num_channels samples_per_packet payload_size
  pub prepares : Prepares composer payload_size
