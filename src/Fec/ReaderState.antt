-- ===== src/Fec/ReaderState.antt =====
-- src/modules/roc_fec/reader.cpp: the state of the reader, how it checks packets and how its blocks
-- take the sizes that packets bring. The block decoder of iblock_decoder.h is an argument, and so is
-- whether the allocator can give a reader an array of a size; `none` is a panic.
use roc.Prelude.{
  ℕ, ◌+◌, ◌-◌, ◌||◌, ◌&&◌, Bool, true, false, Option, none, some, List, [], ltb, leb, ◌==◌, not,
  if◌then◌else◌, length, ◌>>=◌,
}
use roc.Packet.Units.{blknum_diff}
use roc.Packet.Types.{Packet, Fec, FecScheme, Slice, slice_size, fec}
use roc.Packet.SortedQueue
use roc.Packet.SortedQueue.{SortedQueue}
use roc.Rtp.Validator.{sn_distance}
use roc.Fec.WriterState.{same_scheme, slots}

-- IBlockDecoder. An operation of a decoder may panic.
pub record BlockDecoder : Type 1 where
  pub State : Type 0
  pub max_block_length : ℕ
  pub begin : ℕ → ℕ → ℕ → State → Option (Bool × State)
  pub put : ℕ → Slice → State → Option State
  pub repair : ℕ → State → Option (Slice × State)
  pub finish : State → Option State

unfoldable pub validate_incoming_source_packet : Fec → Bool
validate_incoming_source_packet c =
    if not (ltb c.encoding_symbol_id c.source_block_length)
    then false
    else if c.source_block_length == 0
    then false
    else if not (c.block_length == 0) && not (leb c.source_block_length c.block_length)
    then false
    else not (slice_size c.payload == 0)

unfoldable pub validate_incoming_repair_packet : Fec → Bool
validate_incoming_repair_packet c =
    if not (leb c.source_block_length c.encoding_symbol_id)
    then false
    else if c.source_block_length == 0
    then false
    else if not (c.block_length == 0)
        && (not (ltb c.encoding_symbol_id c.block_length)
            || not (leb c.source_block_length c.block_length))
    then false
    else not (slice_size c.payload == 0)

module _ (d : BlockDecoder) where
  pub record Reader : Type 0 where
    pub decoder : d.State
    pub source_queue : SortedQueue
    pub repair_queue : SortedQueue
    pub source_block : List (Option Packet)
    pub repair_block : List (Option Packet)
    pub alive : Bool
    pub started : Bool
    pub can_repair : Bool
    pub next_packet : ℕ
    pub cur_sbn : ℕ
    pub payload_size : ℕ
    pub source_block_resized : Bool
    pub repair_block_resized : Bool
    pub payload_resized : Bool
    pub n_packets : ℕ
    pub max_sbn_jump : ℕ
    pub scheme : FecScheme

  -- The constructor.
  unfoldable pub init : ℕ → FecScheme → d.State → Reader
  init max_sbn_jump scheme s = record {
    decoder = s;
    source_queue = SortedQueue.empty 0;
    repair_queue = SortedQueue.empty 0;
    source_block = [];
    repair_block = [];
    alive = true;
    started = false;
    can_repair = false;
    next_packet = 0;
    cur_sbn = 0;
    payload_size = 0;
    source_block_resized = false;
    repair_block_resized = false;
    payload_resized = false;
    n_packets = 0;
    max_sbn_jump = max_sbn_jump;
    scheme = scheme;
  }

  -- A step gives a truth value, and a false one ends the operation that it is part of.
  abbrev pub Step : Type 0
  Step = Reader → Bool × Reader

  abbrev pub and_then : Step → Bool × Reader → Bool × Reader
  and_then g (true, r) = g r
  and_then g (false, r) = (false, r)

  -- `none` is the panic on a packet that has no FEC part.
  unfoldable pub validate_fec_packet : Packet → Reader → Option (Bool × Reader)
  validate_fec_packet p r = do
    c ← fec p
    some (
        if same_scheme c.fec_scheme r.scheme
        then (true, r)
        else (false, record r { alive = false }))

  unfoldable pub validate_sbn_sequence : Fec → Reader → Bool × Reader
  validate_sbn_sequence c r =
      if ltb r.max_sbn_jump (sn_distance (blknum_diff c.source_block_number r.cur_sbn))
      then (false, record r { alive = false })
      else (true, r)

  unfoldable pub can_update_payload_size : ℕ → Step
  can_update_payload_size n r =
      if r.payload_size == n then (true, r) else if r.payload_resized then (false, r) else (true, r)

  unfoldable pub update_payload_size : ℕ → Step
  update_payload_size n r =
      if r.payload_size == n
      then (true, record r { payload_resized = true })
      else (true, record r { payload_size = n; payload_resized = true })

  unfoldable pub can_update_source_block_size : ℕ → Step
  can_update_source_block_size sblen r =
      if length r.source_block == sblen
      then (true, r)
      else if r.source_block_resized
      then (false, r)
      else if ltb d.max_block_length sblen
      then (false, record r { alive = false })
      else (true, r)

  unfoldable pub can_update_repair_block_size : ℕ → Step
  can_update_repair_block_size blen r =
      if blen == length r.source_block + length r.repair_block
      then (true, r)
      else if r.repair_block_resized
      then (false, r)
      else if ltb d.max_block_length blen
      then (false, record r { alive = false })
      else (true, r)

  module _ (memory : Reader → ℕ → Bool) where
    unfoldable pub update_source_block_size : ℕ → Step
    update_source_block_size sblen r =
        if length r.source_block == sblen
        then (true, record r { source_block_resized = true })
        else if not (memory r sblen)
        then (false, record r { alive = false })
        else (
          true,
          record r { source_block = slots sblen r.source_block; source_block_resized = true },
        )

    -- `none` is the panic on a block that has no more packets than its source packets.
    unfoldable pub update_repair_block_size : ℕ → Reader → Option (Bool × Reader)
    update_repair_block_size blen r =
        if blen == length r.source_block + length r.repair_block
        then some (true, record r { repair_block_resized = true })
        else if not (ltb (length r.source_block) blen)
        then none
        else if not (memory r (blen - length r.source_block))
        then some (false, record r { alive = false })
        else some (
          true,
          record r {
            repair_block = slots (blen - length r.source_block) r.repair_block;
            repair_block_resized = true;
          },
        )

    unfoldable pub process_source_packet : Fec → Step
    process_source_packet c r =
        let a : Bool × Reader = (validate_incoming_source_packet c, r) in
        let b = and_then (can_update_payload_size (slice_size c.payload)) a in
        let c1 = and_then (can_update_source_block_size c.source_block_length) b in
        let c2 = and_then (update_payload_size (slice_size c.payload)) c1 in
        and_then (update_source_block_size c.source_block_length) c2

    -- The checks of `process_repair_packet_` and the updates up to the one that may panic.
    unfoldable pub prepare_repair_packet : Fec → Step
    prepare_repair_packet c r =
        let a : Bool × Reader = (validate_incoming_repair_packet c, r) in
        let b = and_then (can_update_payload_size (slice_size c.payload)) a in
        let c1 = and_then (can_update_source_block_size c.source_block_length) b in
        let c2 = and_then (can_update_repair_block_size c.block_length) c1 in
        let c3 = and_then (update_payload_size (slice_size c.payload)) c2 in
        and_then (update_source_block_size c.source_block_length) c3

    unfoldable pub process_repair_packet : Fec → Reader → Option (Bool × Reader)
    process_repair_packet c r =
        let a = prepare_repair_packet c r in
        if a.0 then update_repair_block_size c.block_length a.1 else some a
