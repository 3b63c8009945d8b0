-- ===== src/Audio/Depacketizer/States.antt =====
-- The states of the depacketizer of src/modules/roc_audio/depacketizer.cpp between two steps.
use roc.Prelude.{ℕ, ◌<◌, ◌≡◌, ◌⊎◌, true, Option, none, some}
use roc.Packet.Units.{u32_mod, timestamp_lt}
use roc.Packet.Types.{Packet}
use roc.Audio.Depacketizer.{Inputs, Depacketizer, Depacketizer}
use roc.Audio.Depacketizer.Contract.{Setting}

module _ {Sample : Type 0} {io : Inputs Sample} (cfg : Setting io) where
  abbrev pub State : Type 0
  State = Depacketizer io

  -- The packet's samples follow at the position, or later.
  abbrev pub IsAhead : State → Type 0
  IsAhead w =
      (w.timestamp ≡ io.decoder.position w.decoder)
      ⊎ (timestamp_lt w.timestamp (io.decoder.position w.decoder) ≡ true)

  pub record CommonOf (n m ts : ℕ) (r : io.reader.State) : Type 0 where
    pub same_channels : n ≡ cfg.channels
    pub same_num : m ≡ cfg.num_channels
    pub timestamp_fits : ts < u32_mod
    pub holds : cfg.gives.Holds r

  abbrev pub Common : State → Type 0
  Common w = CommonOf w.channels w.num_channels w.timestamp w.reader

  -- Another timestamp, in the range, is as good.
  pub CommonOf-at :
      {n m t : ℕ} {r : io.reader.State} (ts : ℕ)
      → CommonOf n m t r
      → ts < u32_mod
      → CommonOf n m ts r
  CommonOf-at ts c h = record {
    same_channels = c.same_channels;
    same_num = c.same_num;
    timestamp_fits = h;
    holds = c.holds;
  }

  -- Without a packet, and with one that is played.
  pub record RestingWith (o : Option Packet) (s : io.decoder.State) : Type 0 where
    pub no_packet : o ≡ none
    pub is_idle : cfg.contract.Idle s

  abbrev pub Resting : State → Type 0
  Resting w = RestingWith w.packet w.decoder

  pub record Playing (w : State) : Type 0 where
    pub played : Packet
    pub has_packet : w.packet ≡ some played
    pub is_busy : cfg.contract.Busy w.decoder
    pub is_ahead : IsAhead w

  -- The count of samples from packets, and what stands for missing ones, are the same.
  abbrev pub Same : State → State → Type 0
  Same v w = (v.packet_samples ≡ w.packet_samples) × (v.beep ≡ w.beep)
