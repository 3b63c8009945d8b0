-- ===== src/Audio/Packetizer/State.antt =====
-- The states of the packetizer of src/modules/roc_audio/packetizer.cpp, and the full packets that it sends.
use roc.Prelude.{ℕ, ◌*◌, ◌<◌, ◌≡◌, ◌⊎◌, none, some, List, [], length}
use roc.Packet.Types.{Packet, Rtp, rtp}
use roc.Audio.Packetizer.{Packetizer}
use roc.Audio.Packetizer.Contract.{Setting}

module _ {Sample : Type 0} (cfg : Setting Sample) where
  abbrev Pkt : Type 0
  Pkt = Packetizer cfg.encoder

  -- The sizes of a packetizer are those of the setting.
  pub record Sizes (n m k z : ℕ) : Type 0 where
    pub same_channels : n ≡ cfg.channels
    pub same_num : m ≡ cfg.num_channels
    pub same_samples : k ≡ cfg.samples_per_packet
    pub same_size : z ≡ cfg.payload_size

  abbrev pub Common : Pkt → Type 0
  Common w = Sizes w.channels w.num_channels w.samples_per_packet w.payload_size

  -- Without a packet.
  pub record IsResting (w : Pkt) : Type 0 where
    pub no_packet : w.packet ≡ none
    pub is_idle : cfg.contract.Idle w.encoder
    pub at_start : w.packet_pos ≡ 0

  -- A packet is begun that holds the samples `zs` so far.
  pub record IsFilling (zs : List Sample) (w : Pkt) : Type 0 where
    pub begun : Packet
    pub parts : Rtp
    pub has_packet : w.packet ≡ some begun
    pub is_rtp : rtp begun ≡ some parts
    pub no_padding : parts.padding ≡ none
    pub same_seqnum : parts.seqnum ≡ w.seqnum
    pub same_timestamp : parts.timestamp ≡ w.timestamp
    pub holds : cfg.contract.Holds zs w.encoder
    pub at_pos : w.packet_pos * cfg.num_channels ≡ length zs

  -- A full packet with a number and a timestamp, whose payload encodes the samples `zs`.
  pub record IsSent (seqnum timestamp : ℕ) (p : Packet) (zs : List Sample) : Type 0 where
    pub parts : Rtp
    pub bytes : List ℕ
    pub is_rtp : rtp p ≡ some parts
    pub has_seqnum : parts.seqnum ≡ seqnum
    pub has_timestamp : parts.timestamp ≡ timestamp
    pub has_duration : parts.duration ≡ cfg.samples_per_packet
    pub has_payload : parts.payload ≡ some bytes
    pub encodes : cfg.contract.Encodes zs bytes
    pub is_full : length zs ≡ cfg.samples_per_packet * cfg.num_channels

  -- The number and the timestamp of the next packet are those given.
  abbrev pub Counts : ℕ → ℕ → Pkt → Type 0
  Counts s t w = (w.seqnum ≡ s) × (w.timestamp ≡ t)

  -- The packetizer holds the samples `zs`, which are not sent yet.
  abbrev pub IsValid : List Sample → Pkt → Type 0
  IsValid zs w =
      Common w
      × (w.packet_pos < cfg.samples_per_packet)
      × ((IsResting w × (zs ≡ [])) ⊎ IsFilling zs w)
