-- ===== src/Rtp/Composer.antt =====
-- src/modules/roc_rtp/composer.cpp. A result is the truth value that a method returns with what it
-- changed; `none` is a panic. The inner composer is an argument. A buffer that is being laid out is
-- the address of a slice, the bytes from there to the end of the memory behind it, and its size.
pub mod Layout
pub mod Wire
pub mod RoundTrip
use mathlib.Core.Option
use roc.Prelude.{
  ℕ, ◌+◌, ◌-◌, ◌*◌, ◌/◌, ◌%◌, Bool, true, false, Option, none, some, List, [], ◌∷◌, ◌++◌, ltb, ◌==◌,
  not, if◌then◌else◌, length, replicate, take, drop, range, ◌>>=◌,
}
use roc.Packet.Types.{Packet, Slice, slice_size, Rtp, rtp, add_flags, flag_rtp}
use roc.Rtp.Headers.{
  Header, rtp_v2, sizeof_header, clear, set_version, set_padding, set_payload_type, set_marker,
  write_header,
}

pub record Buffer : Type 0 where
  pub address : ℕ
  pub bytes : List ℕ
  pub size : ℕ

-- What the RTP composer calls of the composer inside it.
pub record InnerComposer : Type 0 where
  pub align : Buffer → ℕ → ℕ → Option (Bool × Buffer)
  pub prepare : Packet → Buffer → ℕ → Option (Bool × Packet × Buffer)
  pub pad : Packet → ℕ → Option (Bool × Packet)
  pub compose : Packet → Option (Bool × Packet)

-- core::padding
unfoldable pub alignment_padding : ℕ → ℕ → ℕ
alignment_padding size alignment =
    if alignment == 0
    then 0
    else (let new_size = size / alignment * alignment in
        (if ltb new_size size then new_size + alignment else new_size) - size)

-- `resize`, then the empty slice behind the bytes taken.
abbrev pub skip : ℕ → Buffer → Buffer
skip n b = record { address = b.address + n; bytes = drop n b.bytes; size = 0 }

-- An alignment of 0 is a division by zero.
unfoldable pub align : Option InnerComposer → Buffer → ℕ → ℕ → Option (Bool × Buffer)
align inner b header_size payload_alignment =
    if payload_alignment == 0
    then none
    else if not (b.address % payload_alignment == 0)
    then none
    else elim inner [
      | none ↦
          let padding = alignment_padding (header_size + sizeof_header) payload_alignment in
          if ltb (length b.bytes) padding then some (false, b) else some (true, skip padding b)
      | some c ↦ c.align b (header_size + sizeof_header) payload_alignment
    ]

-- The payload behind the header, laid out by the inner composer if there is one.
unfoldable pub prepare_payload :
    Option InnerComposer → Packet → Buffer → ℕ → Option (Bool × Packet × Buffer)
prepare_payload none p payload payload_size =
    if ltb (length payload.bytes) payload_size
    then some (false, p, payload)
    else some (true, p, record payload { size = payload_size })
prepare_payload (some c) p payload payload_size = c.prepare p payload payload_size

abbrev pub prepare_with : Packet → Buffer → Bool × Packet × Buffer → Option (Bool × Packet × Buffer)
prepare_with p b (false, p', payload) = some (false, p', b)
prepare_with p b (true, p', payload) = do
  q ← add_flags flag_rtp p'
  some (
    true,
    record q {
      rtp_part = record q.rtp_part {
        header = some (take sizeof_header b.bytes);
        payload = some (take payload.size payload.bytes);
      };
    },
    record b { size = sizeof_header + payload.size },
  )

unfoldable pub prepare :
    Option InnerComposer → Packet → Buffer → ℕ → Option (Bool × Packet × Buffer)
prepare inner p b payload_size =
    if ltb (length b.bytes) sizeof_header
    then some (false, p, b)
    else (do r ← prepare_payload inner p (skip sizeof_header b) payload_size; prepare_with p b r)

-- A range of a slice; the null slice has the empty range only.
unfoldable pub slice_range : Slice → ℕ → ℕ → Option Slice
slice_range none from to = if to == 0 then some none else none
slice_range (some b) from to = Option.map some (range b from to)

unfoldable pub pad_rtp : Rtp → Packet → ℕ → Option (Bool × Packet)
pad_rtp r p padding_size = elim r.padding [
  | some _ ↦ none
  | none ↦ if ltb (slice_size r.payload) padding_size then some (false, p) else (do
    padding ← slice_range r.payload (slice_size r.payload - padding_size) (slice_size r.payload)
    payload ← slice_range r.payload 0 (slice_size r.payload - padding_size)
    some (true, record p { rtp_part = record r { padding = padding; payload = payload } }))
]

unfoldable pub pad : Option InnerComposer → Packet → ℕ → Option (Bool × Packet)
pad (some c) p padding_size = c.pad p padding_size
pad none p padding_size = do r ← rtp p; pad_rtp r p padding_size

-- The header before padding is looked at. `PayloadType` is passed on as a `uint8_t`.
unfoldable pub compose_header : Rtp → Option Header
compose_header r = do
  h ← set_version rtp_v2 clear
  set_payload_type (r.payload_type % 256) (
      set_marker r.marker
        (record h { ssrc = r.source; seqnum = r.seqnum; timestamp = r.timestamp }))

unfoldable pub padding_bytes : ℕ → List ℕ
padding_bytes n = replicate (n - 1) 0 ++ (n ∷ [])

abbrev pub with_header : Packet → Rtp → Header → Packet
with_header p r h = record p { rtp_part = record r { header = some (write_header h) } }

unfoldable pub compose_inner : Option InnerComposer → Packet → Option (Bool × Packet)
compose_inner none p = some (true, p)
compose_inner (some c) p = c.compose p

-- The padding flag and the padding, if there is any.
unfoldable pub compose_padding :
    Option InnerComposer → Packet → Rtp → Header → Option (Bool × Packet)
compose_padding inner p r h =
    if slice_size r.padding == 0
    then compose_inner inner (with_header p r h)
    else if ltb 255 (slice_size r.padding)
    then some (false, with_header p r (set_padding true h))
    else compose_inner inner (
        with_header p (record r { padding = some (padding_bytes (slice_size r.padding)) })
          (set_padding true h))

unfoldable pub compose_rtp : Option InnerComposer → Packet → Rtp → Option (Bool × Packet)
compose_rtp inner p r =
    if slice_size r.header == sizeof_header
    then (do h ← compose_header r; compose_padding inner p r h)
    else none

unfoldable pub compose : Option InnerComposer → Packet → Option (Bool × Packet)
compose inner p = do r ← rtp p; compose_rtp inner p r
