-- ===== src/Audio/PcmEncoder.antt =====
-- src/modules/roc_audio/pcm_encoder.cpp. The functions of a format, which convert samples, are an
-- argument; `none` is a panic.
use roc.Prelude.{ℕ, ◌+◌, Option, none, some, List, ◌>>=◌}
use roc.Packet.Types.{Slice}
use roc.Audio.Packetizer.{FrameEncoder}

-- The functions of PCMFuncs that encode: into a frame, from a position on, at most so many samples of
-- some channels are written.
pub record EncoderFuncs (Sample : Type 0) : Type 0 where
  pub payload_size_from_samples : ℕ → ℕ
  pub encode_samples : List ℕ → ℕ → List Sample → ℕ → ℕ → ℕ × List ℕ

pub record PcmEncoder : Type 0 where
  pub frame_data : Slice
  pub frame_pos : ℕ

module _ {Sample : Type 0} (f : EncoderFuncs Sample) where
  unfoldable pub begin : Slice → PcmEncoder → Option PcmEncoder
  begin none s = none
  begin (some b) s = elim s.frame_data [
    | some _ ↦ none
    | none ↦ some (record s { frame_data = some b })
  ]

  unfoldable pub write : List Sample → ℕ → ℕ → PcmEncoder → Option (ℕ × PcmEncoder)
  write xs n channels s = s.frame_data >>= λ b.
      let a = f.encode_samples b s.frame_pos xs n channels in
      some (a.0, record { frame_data = some a.1; frame_pos = s.frame_pos + a.0 })

  -- What is left in the frame, and the encoder without it.
  unfoldable pub finish : PcmEncoder → Option (Slice × PcmEncoder)
  finish s = s.frame_data >>= λ b. some (some b, record { frame_data = none; frame_pos = 0 })

  abbrev pub pcm_encoder : FrameEncoder Sample
  pcm_encoder = record {
    State = PcmEncoder;
    encoded_size = f.payload_size_from_samples;
    begin = begin;
    write = write;
    finish = finish;
  }
