-- ===== src/Fec/Tests.antt =====
-- Tests of the modules of src/modules/roc_fec, and their theorems at concrete inputs.
use roc.Prelude.{
  replicate, ℕ, ◌-◌, ◌^◌, ◌≤◌, ◌<◌, ◌≡◌, refl, ◌⊎◌, true, false, Option, none, some, List, [], ◌∷◌,
  arith,
}
use roc.Packet.Types.{Packet, Fec, fec, packet_init, fec_init, flag_fec}
use roc.Fec.Headers.{
  repair_type, source_type, at_header, at_footer, ldpc_source, ldpc_repair, rsm8, sizeof_payload_id,
  fec_scheme, read_payload_id,
}
use roc.Fec.Parser.{parse}
use roc.Fec.Parser.Safety.{FecFree, Accepts, parse-Accepts_fec}
use roc.Packet.Types.{none_scheme, ldpc_staircase}
use roc.Rtp.Composer.{Buffer, InnerComposer}
use roc.Fec.WriterState.{BlockEncoder, Writer, init, resize, blank}
use roc.Fec.Writer.Blocks.{IsValid, Resizes, resize-Resizes}
use roc.Fec.Writer.Interface.{fec_composer}
use roc.Fec.Writer.Sends.{Sends}
use roc.Fec.Composer.{compose}
use roc.Fec.Composer.RoundTrip.{wire, FecReceived, compose-parse-fec}

fresh_free : FecFree packet_init
fresh_free = record { repair_free = refl; fec_free = refl; both_free = refl }

read_rsm8 :
    read_payload_id rsm8 (1 ∷ 0 ∷ 2 ∷ 7 ∷ 0 ∷ 20 ∷ [])
    ≡ some (record { sbn = 65538; esi = 7; k = 20; n = 255 })
unfolding read_payload_id
read_rsm8 = refl

parse-Accepts_fec_example :
    ((8 < sizeof_payload_id ldpc_source)
      × (parse ldpc_source source_type at_footer none packet_init
            (9 ∷ 8 ∷ 0 ∷ 1 ∷ 0 ∷ 2 ∷ 0 ∷ 3 ∷ [])
          ≡ some (false, packet_init)))
    ⊎ ((sizeof_payload_id ldpc_source ≤ 8)
        × Accepts ldpc_source source_type at_footer none packet_init fresh_free
            (9 ∷ 8 ∷ 0 ∷ 1 ∷ 0 ∷ 2 ∷ 0 ∷ 3 ∷ [])
            (parse ldpc_source source_type at_footer none packet_init
              (9 ∷ 8 ∷ 0 ∷ 1 ∷ 0 ∷ 2 ∷ 0 ∷ 3 ∷ [])))
parse-Accepts_fec_example =
    parse-Accepts_fec ldpc_source source_type at_footer none packet_init fresh_free
      (9 ∷ 8 ∷ 0 ∷ 1 ∷ 0 ∷ 2 ∷ 0 ∷ 3 ∷ [])

abbrev symbol_21 : Fec
symbol_21 = record fec_init {
  encoding_symbol_id = 21;
  source_block_number = 65535;
  source_block_length = 20;
  block_length = 30;
  payload_id = some (0 ∷ 0 ∷ 0 ∷ 0 ∷ 0 ∷ 0 ∷ 0 ∷ 0 ∷ []);
  payload = some (1 ∷ 2 ∷ 3 ∷ []);
}

abbrev repair_packet : Packet
repair_packet = record packet_init { flags = flag_fec; fec_part = symbol_21 }

compose-parse-fec_example :
    (p : Packet) × (id : List ℕ) × (q : Packet) × (compose ldpc_repair none repair_packet
      ≡ some (true, p))
    × (p.fec_part.payload_id ≡ some id)
    × (p.fec_part.payload ≡ some (1 ∷ 2 ∷ 3 ∷ []))
    × (parse ldpc_repair repair_type at_header none packet_init (wire at_header id (1 ∷ 2 ∷ 3 ∷ []))
        ≡ some (true, q))
    × FecReceived ldpc_repair symbol_21 (1 ∷ 2 ∷ 3 ∷ []) q
unfolding fec sizeof_payload_id
compose-parse-fec_example =
    compose-parse-fec ldpc_repair repair_type at_header packet_init fresh_free repair_packet
      symbol_21 (1 ∷ 2 ∷ 3 ∷ []) refl refl refl
      (record {
        sbn_fits = omega arith;
        esi_fits = omega arith;
        k_fits = omega arith;
        n_fits = omega arith;
      })

-- An encoder that stores nothing and blocks of at most 10 packets.
abbrev encoder : BlockEncoder
encoder = record {
  State = ℕ;
  alignment = 8;
  max_block_length = 10;
  begin = λ k r n s. (true, s);
  put = λ i b s. s;
  fill = λ s. s;
  finish = λ s. s;
  symbol = λ i s. some (i ∷ []);
}

-- Source packets get the composer of the LDPC format.
abbrev source_composer : InnerComposer
source_composer = fec_composer ldpc_source source_type at_footer

-- Repair packets get that of their format.
abbrev repair_composer : InnerComposer
repair_composer = fec_composer ldpc_repair repair_type at_header

-- The second of two source packets of a block that is followed by one repair packet.
abbrev last_in_block : Writer encoder
last_in_block = record {
  cur_sblen = 2;
  next_sblen = 3;
  cur_rblen = 1;
  next_rblen = 1;
  cur_payload_size = 4;
  encoder = 0;
  repair_block = none ∷ [];
  first_packet = false;
  cur_sbn = 65535;
  cur_block_repair_sn = 7;
  cur_packet = 1;
  scheme = ldpc_staircase;
  alive = true;
}

last_in_block-IsValid : IsValid encoder last_in_block
last_in_block-IsValid = record {
  next_sblen_set = omega arith;
  next_fits = omega arith;
  sbn_fits = omega arith;
  slots_empty = (refl, tt);
  in_block = λ h. record { open_block = omega arith; sizes_fit = omega arith; slots_sized = refl };
}

abbrev source_packet : Packet
source_packet = record packet_init {
  flags = flag_fec;
  fec_part = record fec_init {
    fec_scheme = ldpc_staircase;
    payload_id = some (0 ∷ 0 ∷ 0 ∷ 0 ∷ 0 ∷ 0 ∷ []);
    payload = some (1 ∷ 2 ∷ 3 ∷ 4 ∷ []);
  };
}

abbrev buffers : ℕ → Option Buffer
buffers i = some (record { address = 0; bytes = replicate 20 0; size = 0 })

resize-Resizes_example :
    Resizes encoder 4 5 last_in_block (resize encoder 4 5 last_in_block)
    × IsValid encoder (resize encoder 4 5 last_in_block).1
resize-Resizes_example =
    resize-Resizes encoder 4 5 last_in_block last_in_block-IsValid (omega arith)

-- The constructor accepts a configuration without packets.
init_without_packets : init encoder 0 0 none_scheme 5 6 0 ≡ some (blank encoder none_scheme 5 6 0)
unfolding init resize
init_without_packets = refl

-- `resize` accepts sizes whose sum wraps around.
resize_wraps : (resize encoder (2 ^ 64 - 1) 2 last_in_block).0 ≡ true
unfolding resize
resize_wraps = refl
