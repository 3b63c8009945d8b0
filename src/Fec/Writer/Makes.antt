-- ===== src/Fec/Writer/Makes.antt =====
-- src/modules/roc_fec/composer.h: the FEC composer makes the repair packets that the writer relies on.
use roc.Prelude.{ℕ, some, List}
use roc.Packet.Types.{Packet, packet_init, fec_init}
use roc.Fec.Headers.{PayloadIdType, source_type, repair_type, PayloadIdFormat, fec_scheme}

-- A FEC packet that is made of a new one.
abbrev made : PayloadIdFormat → PayloadIdType → List ℕ → List ℕ → Packet
made f type id payload = record packet_init {
  flags = elim type [ source_type ↦ 4 | repair_type ↦ 20 ];
  fec_part = record fec_init {
    fec_scheme = fec_scheme f;
    payload_id = some id;
    payload = some payload;
  };
}
