-- ===== src/Fec/Composer.antt =====
-- src/modules/roc_fec/composer.h. A result is that of the methods of the RTP composer; `none` is a
-- panic.
pub mod RoundTrip
use roc.Prelude.{
  ℕ, ◌+◌, ◌%◌, ◌^◌, Bool, true, false, Option, none, some, List, ltb, ◌==◌, not, if◌then◌else◌,
  length, take, drop, ◌>>=◌,
}
use roc.Packet.Types.{Packet, Fec, fec, slice_size, add_flags, flag_fec, flag_repair}
use roc.Rtp.Composer.{Buffer, InnerComposer, alignment_padding, skip, compose_inner}
use roc.Fec.Headers.{
  PayloadIdType, source_type, repair_type, PayloadIdPos, at_header, at_footer, PayloadIdFormat,
  PayloadId, sizeof_payload_id, fec_scheme, write_payload_id,
}
use roc.Fec.Parser.{add_repair}

-- `header_size` with the payload id, if that comes before the payload.
unfoldable pub with_id : PayloadIdFormat → PayloadIdPos → ℕ → ℕ
unfolding sizeof_payload_id
with_id f at_header header_size = header_size + sizeof_payload_id f
with_id f at_footer header_size = header_size

-- An alignment of 0 is a division by zero.
unfoldable pub align :
    PayloadIdFormat → PayloadIdPos → Option InnerComposer → Buffer → ℕ → ℕ → Option (Bool × Buffer)
align f pos inner b header_size payload_alignment =
    if payload_alignment == 0
    then none
    else if not (b.address % payload_alignment == 0)
    then none
    else elim inner [
      | none ↦
          let padding = alignment_padding (with_id f pos header_size) payload_alignment in
          if ltb (length b.bytes) padding then some (false, b) else some (true, skip padding b)
      | some c ↦ c.align b (with_id f pos header_size) payload_alignment
    ]

-- The payload behind what comes before it. Without an inner composer a buffer that is too short is a
-- panic of `resize`.
unfoldable pub prepare_payload :
    Option InnerComposer → Packet → Buffer → ℕ → Option (Bool × Packet × Buffer)
prepare_payload none p payload payload_size =
    if ltb (length payload.bytes) payload_size
    then none
    else some (true, p, record payload { size = payload_size })
prepare_payload (some c) p payload payload_size = c.prepare p payload payload_size

-- From where the payload id and the payload are laid out.
unfoldable pub set_fec :
    PayloadIdFormat
    → PayloadIdType
    → Packet
    → List ℕ
    → Buffer
    → Buffer
    → Option (Bool × Packet × Buffer)
unfolding add_repair
set_fec f type p payload_id payload b = do
  o ← add_repair type p
  q ← add_flags flag_fec o
  some (
    true,
    record q {
      fec_part = record q.fec_part {
        fec_scheme = fec_scheme f;
        payload_id = some payload_id;
        payload = some (take payload.size payload.bytes);
      };
    },
    record b { size = length payload_id + payload.size },
  )

unfoldable pub prepare_header :
    PayloadIdFormat
    → PayloadIdType
    → Option InnerComposer
    → Packet
    → Buffer
    → ℕ
    → Option (Bool × Packet × Buffer)
prepare_header f type inner p b payload_size =
    if ltb (length b.bytes) (sizeof_payload_id f) then some (false, p, b) else (do
      (ok, q, payload) ← prepare_payload inner p (skip (sizeof_payload_id f) b) payload_size
      if ok
          then set_fec f type q (take (sizeof_payload_id f) b.bytes) payload b
          else some (false, q, b))

-- The slice behind the payload has the memory that the payload has not taken.
unfoldable pub prepare_footer :
    PayloadIdFormat
    → PayloadIdType
    → Option InnerComposer
    → Packet
    → Buffer
    → ℕ
    → Option (Bool × Packet × Buffer)
prepare_footer f type inner p b payload_size = do
  (ok, q, payload) ← prepare_payload inner p (skip 0 b) payload_size
  let left = drop payload.size payload.bytes
  if ok
      then (if ltb (length left) (sizeof_payload_id f)
          then some (false, q, b)
          else set_fec f type q (take (sizeof_payload_id f) left) payload b)
      else some (false, q, b)

unfoldable pub prepare :
    PayloadIdFormat
    → PayloadIdType
    → PayloadIdPos
    → Option InnerComposer
    → Packet
    → Buffer
    → ℕ
    → Option (Bool × Packet × Buffer)
unfolding prepare_header prepare_footer
prepare f type at_header inner p b payload_size = prepare_header f type inner p b payload_size
prepare f type at_footer inner p b payload_size = prepare_footer f type inner p b payload_size

-- Padding is left to the inner composer.
unfoldable pub pad : Option InnerComposer → Packet → ℕ → Option (Bool × Packet)
pad none p padding_size = some (false, p)
pad (some c) p padding_size = c.pad p padding_size

-- `fec.source_block_number` is of 16 bits by its type.
abbrev pub id_of : Fec → PayloadId
id_of c = record {
  sbn = c.source_block_number;
  esi = c.encoding_symbol_id;
  k = c.source_block_length;
  n = c.block_length;
}

unfoldable pub compose_fec :
    PayloadIdFormat → Option InnerComposer → Packet → Fec → Option (Bool × Packet)
unfolding sizeof_payload_id write_payload_id compose_inner
compose_fec f inner p c =
    if not (slice_size c.payload_id == sizeof_payload_id f)
    then none
    else if not (ltb c.encoding_symbol_id (2 ^ 16))
    then none
    else (do
      bytes ← write_payload_id f (id_of c)
      if not (ltb c.source_block_length (2 ^ 16))
          then none
          else if not (ltb c.block_length (2 ^ 16))
          then none
          else compose_inner inner (record p { fec_part = record c { payload_id = some bytes } }))

unfoldable pub compose : PayloadIdFormat → Option InnerComposer → Packet → Option (Bool × Packet)
unfolding fec compose_fec
compose f inner p = do c ← fec p; compose_fec f inner p c
