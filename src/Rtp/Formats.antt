-- ===== src/Rtp/Formats.antt =====
-- src/modules/roc_rtp/format.h and format_map.cpp: the payload formats that the library knows. The
-- functions that construct encoders and decoders are left out.
use roc.Prelude.{ℕ, ◌/◌, Option, none, some, List, [], ◌∷◌, ◌++◌, ◌==◌, if◌then◌else◌, length}
use roc.Packet.Types.{flag_audio}
use roc.Rtp.Headers.{payload_type_l16_mono, payload_type_l16_stereo}

pub record Format : Type 0 where
  pub payload_type : ℕ
  pub flags : ℕ
  pub sample_rate : ℕ
  pub channel_mask : ℕ
  pub get_num_samples : ℕ → ℕ

-- pcm_samples_from_payload_size<int16_t, NumCh>
unfoldable pub pcm_samples_from_payload_size : ℕ → ℕ → ℕ
pcm_samples_from_payload_size num_ch payload_size = payload_size / num_ch / 2

abbrev pub FormatMap : Type 0
FormatMap = List Format

abbrev pub max_formats : ℕ
max_formats = 2

-- `add_`; `none` is the panic on a full table.
unfoldable pub add : FormatMap → Format → Option FormatMap
add m f = if length m == max_formats then none else some (m ++ (f ∷ []))

abbrev pub l16_mono : Format
l16_mono = record {
  payload_type = payload_type_l16_mono;
  flags = flag_audio;
  sample_rate = 44100;
  channel_mask = 1;
  get_num_samples = pcm_samples_from_payload_size 1;
}

abbrev pub l16_stereo : Format
l16_stereo = record {
  payload_type = payload_type_l16_stereo;
  flags = flag_audio;
  sample_rate = 44100;
  channel_mask = 3;
  get_num_samples = pcm_samples_from_payload_size 2;
}

-- What the constructor `FormatMap()` adds, in its order.
abbrev pub format_map : FormatMap
format_map = l16_mono ∷ l16_stereo ∷ []

unfoldable pub format : FormatMap → ℕ → Option Format
format [] pt = none
format (f ∷ m) pt = if f.payload_type == pt then some f else format m pt
