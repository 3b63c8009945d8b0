-- ===== src/Rtp/Tests.antt =====
-- Tests of the modules of src/modules/roc_rtp, and their theorems at concrete inputs.
use roc.Prelude.{
  ℕ, ◌≡◌, refl, ◌⊎◌, true, false, none, some, List, [], ◌∷◌, ◌++◌, arith, bit_and, bit_or, length,
  All, replicate,
}
use roc.Packet.Units.{seqnum_lt, seqnum_diff, timestamp_diff}
use roc.Packet.Types.{Packet, Rtp, rtp, packet_init, rtp_init, flag_rtp, slice_size, rtp_compare}
use roc.Rtp.Formats.{Format, format, format_map}
use roc.Rtp.Parser.{parse}
use roc.Rtp.Parser.Fill.{FlagsFree}
use roc.Rtp.Parser.Safety.{Accepts, Malformed, parse-Accepts}
use roc.Rtp.Composer.{Buffer, compose}
use roc.Rtp.Composer.RoundTrip.{Received, compose-parse}
use roc.Rtp.Validator.{
  ValidatorConfig, validate, passes, check, sn_distance, ts_distance, next_prev,
}
use roc.Rtp.Validator.Stream.{Follows, OfStream, run, validate_lem, run-OfStream}

format_audio :
    (pt : ℕ) (f : Format) → format format_map pt ≡ some f → bit_and (bit_or 0 2) f.flags ≡ 0
unfolding format
format_audio pt f h = ground arith

free : FlagsFree format_map packet_init
free = record { rtp_free = refl; format_free = format_audio }

-- A datagram with one contributing source, four bytes of payload and two of padding.
abbrev datagram : List ℕ
datagram =
    161 ∷ 10 ∷ 0 ∷ 7 ∷ 0 ∷ 0 ∷ 1 ∷ 0 ∷ 0 ∷ 0 ∷ 0 ∷ 9 ∷ 5 ∷ 5 ∷ 5 ∷ 5 ∷ 1 ∷ 2 ∷ 3 ∷ 4 ∷ 0 ∷ 2 ∷ []

parse-Accepts_example :
    ((parse format_map none packet_init datagram ≡ some (false, packet_init)) × Malformed datagram)
    ⊎ Accepts format_map none packet_init free datagram (parse format_map none packet_init datagram)
parse-Accepts_example = parse-Accepts format_map none packet_init free datagram

abbrev fields : Rtp
fields = record rtp_init {
  source = 99;
  seqnum = 65535;
  timestamp = 1000;
  marker = true;
  payload_type = 10;
  header = some (replicate 12 0);
  payload = some (1 ∷ 2 ∷ 3 ∷ 4 ∷ []);
  padding = some (0 ∷ 0 ∷ 0 ∷ []);
}

abbrev sent : Packet
sent = record packet_init { flags = flag_rtp; rtp_part = fields }

compose-parse_example :
    (p' : Packet) × (header : List ℕ) × (padding : List ℕ) × (q : Packet) × (compose none sent
      ≡ some (true, p'))
    × (p'.rtp_part.header ≡ some header)
    × (p'.rtp_part.payload ≡ some (1 ∷ 2 ∷ 3 ∷ 4 ∷ []))
    × (((padding ≡ []) × (slice_size p'.rtp_part.padding ≡ 0))
        ⊎ (p'.rtp_part.padding ≡ some padding))
    × (length padding ≡ 3)
    × (parse format_map none packet_init (header ++ ((1 ∷ 2 ∷ 3 ∷ 4 ∷ []) ++ padding))
        ≡ some (true, q))
    × Received fields (1 ∷ 2 ∷ 3 ∷ 4 ∷ []) q
unfolding rtp
compose-parse_example =
    compose-parse format_map packet_init free sent fields (1 ∷ 2 ∷ 3 ∷ 4 ∷ []) refl refl refl
      (omega arith) (omega arith) (omega arith) (omega arith) (omega arith)

abbrev buffer : Buffer
buffer = record { address = 64; bytes = replicate 30 0; size = 0 }

abbrev limits : ValidatorConfig
limits = record { max_sn_jump = 100; max_ts_jump = 5000 }

abbrev next_sent : Packet
next_sent = record sent { rtp_part = record fields { seqnum = 2; timestamp = 1010 } }

let_through :
    validate (λ n. n) limits (some sent) (some next_sent) ≡ some (some next_sent, some next_sent)
unfolding validate rtp passes check sn_distance seqnum_diff ts_distance timestamp_diff next_prev
    rtp_compare
let_through = refl

validate_lem_example :
    (next_sent ≡ next_sent)
    × ((next : Rtp) × (rtp next_sent ≡ some next)
        × Follows (λ n. n) limits fields next
        × (((seqnum_lt 65535 next.seqnum ≡ true) × (some next_sent ≡ some next_sent))
            ⊎ ((seqnum_lt 65535 next.seqnum ≡ false) × (some next_sent ≡ some sent))))
unfolding rtp
validate_lem_example =
    validate_lem (λ n. n) limits sent next_sent next_sent fields (some next_sent) refl (omega arith)
      (omega arith) let_through

run_two : run (λ n. n) limits (some sent) (next_sent ∷ packet_init ∷ []) ≡ some (next_sent ∷ [])
unfolding run validate rtp passes check sn_distance seqnum_diff ts_distance timestamp_diff next_prev
    rtp_compare
run_two = refl

run-OfStream_example : All (OfStream (λ n. n) limits 99 10) (next_sent ∷ [])
unfolding rtp
run-OfStream_example =
    run-OfStream (λ n. n) limits 99 10 sent (next_sent ∷ packet_init ∷ []) (next_sent ∷ [])
      (fields, refl, refl, refl) run_two
