-- ===== src/Fec/Parser.antt =====
-- src/modules/roc_fec/parser.h. A result is what `parse` of the RTP parser gives.
pub mod Safety
use roc.Prelude.{
  ℕ, ◌-◌, ◌%◌, true, false, Option, none, some, List, ltb, if◌then◌else◌, length, drop, range,
  ◌>>=◌,
}
use roc.Packet.Units.{u16_mod}
use roc.Packet.Types.{Packet, add_flags, flag_fec, flag_repair}
use roc.Rtp.Parser.{Outcome, InnerParser, run_inner}
use roc.Fec.Headers.{
  PayloadIdType, source_type, repair_type, PayloadIdPos, at_header, at_footer, PayloadIdFormat,
  PayloadId, sizeof_payload_id, fec_scheme, read_payload_id,
}

-- The bytes from where the payload id starts.
unfoldable pub id_bytes : PayloadIdFormat → PayloadIdPos → List ℕ → List ℕ
unfolding sizeof_payload_id
id_bytes f at_header b = b
id_bytes f at_footer b = drop (length b - sizeof_payload_id f) b

unfoldable pub payload_range : PayloadIdFormat → PayloadIdPos → List ℕ → Option (List ℕ)
unfolding sizeof_payload_id range
payload_range f at_header b = range b (sizeof_payload_id f) (length b)
payload_range f at_footer b = range b 0 (length b - sizeof_payload_id f)

unfoldable pub add_repair : PayloadIdType → Packet → Option Packet
unfolding add_flags
add_repair source_type p = some p
add_repair repair_type p = add_flags flag_repair p

unfoldable pub fill_fec : PayloadIdFormat → PayloadId → List ℕ → Packet → Packet
unfolding fec_scheme
fill_fec f v payload q = record q {
  fec_part = record q.fec_part {
    fec_scheme = fec_scheme f;
    encoding_symbol_id = v.esi;
    source_block_number = v.sbn % u16_mod;
    source_block_length = v.k;
    block_length = v.n;
    payload = some payload;
  };
}

unfoldable pub parse :
    PayloadIdFormat → PayloadIdType → PayloadIdPos → InnerParser → Packet → List ℕ → Outcome
unfolding sizeof_payload_id id_bytes read_payload_id add_repair add_flags payload_range fill_fec
    run_inner
parse f type pos inner p b = if ltb (length b) (sizeof_payload_id f) then some (false, p) else (do
  v ← read_payload_id f (id_bytes f pos b)
  o ← add_repair type p
  q ← add_flags flag_fec o
  payload ← payload_range f pos b
  run_inner inner (fill_fec f v payload q) payload)
