-- ===== src/Packet/Types.antt =====
-- src/modules/roc_packet: rtp.h, rtp.cpp, fec.h, fec.cpp, packet.h and packet.cpp.
-- A slice of bytes is the list of its bytes, `none` for a null slice. The UDP part of a packet, which
-- holds socket addresses, and the pool that a packet is returned to are left out.
use roc.Prelude.{
  ℕ, ◌+◌, ◌%◌, Bool, false, Option, none, some, List, bit_and, bit_or, ℤ, pos, negsuc, ltb, ◌==◌,
  if◌then◌else◌, length,
}
use roc.Packet.Units.{u32_mod, seqnum_lt, blknum_lt}

abbrev pub Slice : Type 0
Slice = Option (List ℕ)

abbrev pub slice_size : Slice → ℕ
slice_size none = 0
slice_size (some bytes) = length bytes

pub data FecScheme : Type 0 where
  none_scheme reed_solomon_m8 ldpc_staircase : FecScheme

pub record Rtp : Type 0 where
  pub source : ℕ
  pub seqnum : ℕ
  pub timestamp : ℕ
  pub duration : ℕ
  pub marker : Bool
  pub payload_type : ℕ
  pub header : Slice
  pub payload : Slice
  pub padding : Slice

abbrev pub rtp_init : Rtp
rtp_init = record {
  source = 0;
  seqnum = 0;
  timestamp = 0;
  duration = 0;
  marker = false;
  payload_type = 0;
  header = none;
  payload = none;
  padding = none;
}

-- -1, 0 and 1 are `negsuc 0`, `pos 0` and `pos 1`.
unfoldable pub rtp_compare : Rtp → Rtp → ℤ
unfolding seqnum_lt
rtp_compare a b =
    if seqnum_lt a.seqnum b.seqnum then negsuc 0 else if a.seqnum == b.seqnum then pos 0 else pos 1

pub record Fec : Type 0 where
  pub fec_scheme : FecScheme
  pub encoding_symbol_id : ℕ
  pub source_block_number : ℕ
  pub source_block_length : ℕ
  pub block_length : ℕ
  pub payload_id : Slice
  pub payload : Slice

abbrev pub fec_init : Fec
fec_init = record {
  fec_scheme = none_scheme;
  encoding_symbol_id = 0;
  source_block_number = 0;
  source_block_length = 0;
  block_length = 0;
  payload_id = none;
  payload = none;
}

unfoldable pub fec_compare : Fec → Fec → ℤ
unfolding blknum_lt
fec_compare a b =
    if blknum_lt a.source_block_number b.source_block_number
    then negsuc 0
    else if a.source_block_number == b.source_block_number
    then (if ltb a.encoding_symbol_id b.encoding_symbol_id
        then negsuc 0
        else if a.encoding_symbol_id == b.encoding_symbol_id
        then pos 0
        else pos 1)
    else pos 1

abbrev pub flag_udp : ℕ
flag_udp = 1

abbrev pub flag_rtp : ℕ
flag_rtp = 2

abbrev pub flag_fec : ℕ
flag_fec = 4

abbrev pub flag_audio : ℕ
flag_audio = 8

abbrev pub flag_repair : ℕ
flag_repair = 16

abbrev pub flag_composed : ℕ
flag_composed = 32

abbrev pub flag_restored : ℕ
flag_restored = 64

pub record Packet : Type 0 where
  pub flags : ℕ
  pub rtp_part : Rtp
  pub fec_part : Fec
  pub data_slice : Slice

abbrev pub packet_init : Packet
packet_init = record { flags = 0; rtp_part = rtp_init; fec_part = fec_init; data_slice = none }

-- `none` is the panic on a flag that is set already.
unfoldable pub add_flags : ℕ → Packet → Option Packet
add_flags fl p =
    if bit_and p.flags fl == 0 then some (record p { flags = bit_or p.flags fl }) else none

unfoldable pub rtp : Packet → Option Rtp
rtp p = if bit_and p.flags flag_rtp == 0 then none else some p.rtp_part

unfoldable pub fec : Packet → Option Fec
fec p = if bit_and p.flags flag_fec == 0 then none else some p.fec_part

-- `none` is the panic on a packet without data.
unfoldable pub get_data : Packet → Option (List ℕ)
get_data p = p.data_slice

-- `none` is the panic on data that is set already.
unfoldable pub set_data : Slice → Packet → Option Packet
set_data d p = elim p.data_slice [ none ↦ some (record p { data_slice = d }) | some _ ↦ none ]

unfoldable pub source : Packet → ℕ
unfolding rtp
source p = elim (rtp p) [ none ↦ 0 | some r ↦ r.source ]

-- The timestamp of the first sample, and of the one after the last.
unfoldable pub begin : Packet → ℕ
unfolding rtp
begin p = elim (rtp p) [ none ↦ 0 | some r ↦ r.timestamp ]

unfoldable pub end : Packet → ℕ
unfolding rtp
end p = elim (rtp p) [ none ↦ 0 | some r ↦ (r.timestamp + r.duration) % u32_mod ]

compare_fec : Option Fec → Option Fec → ℤ
unfolding fec_compare
compare_fec none b = pos 0
compare_fec (some x) none = pos 0
compare_fec (some x) (some y) = fec_compare x y

compare_rtp : Option Rtp → Option Rtp → ℤ → ℤ
unfolding rtp_compare
compare_rtp none b otherwise = otherwise
compare_rtp (some x) none otherwise = otherwise
compare_rtp (some x) (some y) otherwise = rtp_compare x y

-- By RTP sequence number if both packets have one, else by FEC block and symbol if both have them.
unfoldable pub compare : Packet → Packet → ℤ
unfolding rtp fec compare_rtp compare_fec
compare p q = compare_rtp (rtp p) (rtp q) (compare_fec (fec p) (fec q))
