-- ===== src/Rtp/Parser.antt =====
-- src/modules/roc_rtp/parser.cpp. A result is the truth value that `parse` returns and the packet as
-- it is then; `none` is a panic, or a read outside the buffer. The inner parser is an argument.
pub mod Fill
pub mod Safety
use mathlib.Core.Option
use roc.Prelude.{
  ℕ, ◌+◌, ◌-◌, ◌%◌, Bool, true, false, Option, none, some, List, ltb, ◌==◌, not, if◌then◌else◌,
  length, get_elem?, range, ◌>>=◌,
}
use roc.Packet.Units.{u32_mod}
use roc.Packet.Types.{Packet, Slice, add_flags, flag_rtp}
use roc.Rtp.Headers.{
  Header, rtp_v2, sizeof_header, sizeof_extension, version, has_extension, has_padding, header_size,
  marker, payload_type, read_header, extension_data_size,
}
use roc.Rtp.Formats.{Format, FormatMap, format}

abbrev pub Outcome : Type 0
Outcome = Option (Bool × Packet)

abbrev pub InnerParser : Type 0
InnerParser = Option (Packet → List ℕ → Outcome)

-- The size of the padding, 0 without the flag; the inner `none` rejects the packet.
unfoldable pub padding_size : Header → List ℕ → ℕ → Option (Option ℕ)
padding_size h b payload_begin =
    if has_padding h
    then (if payload_begin == length b then some none else (do
      pad_size ← get_elem? b (length b - 1)
      some (
          if pad_size == 0
          then none
          else if ltb (length b - payload_begin) pad_size
          then none
          else some pad_size)))
    else some (some 0)

unfoldable pub run_inner : InnerParser → Packet → List ℕ → Outcome
run_inner none p payload = some (true, p)
run_inner (some inner) p payload = inner p payload

-- Flags and duration, which depend on the format of the payload.
unfoldable pub apply_format : Option Format → List ℕ → Packet → Option Packet
apply_format none payload p = some p
apply_format (some f) payload p = do
  q ← add_flags f.flags p
  some (record q {
    rtp_part = record q.rtp_part { duration = f.get_num_samples (length payload) % u32_mod };
  })

unfoldable pub padding_range : List ℕ → ℕ → ℕ → Slice → Option Slice
padding_range b payload_end pad_size old =
    if pad_size == 0
    then some old
    else Option.map some (range b payload_end (payload_end + pad_size))

unfoldable pub fill_packet : FormatMap → InnerParser → Packet → List ℕ → Header → ℕ → ℕ → Outcome
fill_packet formats inner p b h hsize pad_size = do
  q ← add_flags flag_rtp p
  header ← range b 0 hsize
  payload ← range b hsize (length b - pad_size)
  padding ← padding_range b (length b - pad_size) pad_size q.rtp_part.padding
  r ← apply_format (format formats (payload_type h)) payload (record q {
    rtp_part = record q.rtp_part {
      source = h.ssrc;
      seqnum = h.seqnum;
      timestamp = h.timestamp;
      marker = marker h;
      payload_type = payload_type h;
      header = some header;
      payload = some payload;
      padding = padding;
    };
  })
  run_inner inner r payload

unfoldable pub parse_payload : FormatMap → InnerParser → Packet → List ℕ → Header → ℕ → Outcome
parse_payload formats inner p b h hsize = if ltb (length b) hsize then some (false, p) else (do
  pad ← padding_size h b hsize
  elim pad [ none ↦ some (false, p) | some n ↦ fill_packet formats inner p b h hsize n ])

unfoldable pub parse_extension : FormatMap → InnerParser → Packet → List ℕ → Header → Outcome
parse_extension formats inner p b h =
    if has_extension h
    then (if ltb (length b) (header_size h + sizeof_extension) then some (false, p) else (do
      n ← extension_data_size b (header_size h)
      parse_payload formats inner p b h (header_size h + sizeof_extension + n)))
    else if ltb (length b) (header_size h)
    then some (false, p)
    else parse_payload formats inner p b h (header_size h)

unfoldable pub parse : FormatMap → InnerParser → Packet → List ℕ → Outcome
parse formats inner p b = if ltb (length b) sizeof_header then some (false, p) else (do
  h ← read_header b
  if version h == rtp_v2 then parse_extension formats inner p b h else some (false, p))
