-- ===== src/Fec/ReaderTests.antt =====
-- Tests of the FEC reader of src/modules/roc_fec/reader.cpp, and its theorems at concrete inputs.
use roc.Prelude.{
  ℕ, ◌+◌, ◌≡◌, refl, subst, ◌⊎◌, inl, Bool, true, false, Option, none, some, List, [], ◌∷◌, arith,
  All,
}
use roc.Packet.Units.{blknum_diff, blknum_le, blknum_lt, seqnum_diff, seqnum_lt}
use roc.Packet.Types.{
  Packet, Fec, fec, packet_init, fec_init, flag_fec, ldpc_staircase, compare, add_flags,
  fec_compare, rtp, rtp_compare, set_data,
}
use roc.Packet.SortedQueue.{SortedQueue}
use roc.Packet.Reader.{Gives, Queue, queue_reader}
use roc.Rtp.Parser.{Outcome}
use roc.Fec.ReaderState.{
  BlockDecoder, Reader, init, validate_incoming_repair_packet, validate_fec_packet,
  process_source_packet, validate_incoming_source_packet, can_update_payload_size,
  can_update_source_block_size, update_payload_size, update_source_block_size,
  can_update_repair_block_size, prepare_repair_packet, process_repair_packet,
  update_repair_block_size, validate_sbn_sequence,
}
use roc.Fec.ReaderBlock.{
  fill_block, fill_repair_block, try_repair, admit, clear_block, fill_repair_loop,
  fill_source_block, fill_source_loop, next_block, parse_repaired_packet, repair_block_packets,
  repair_packets, restore, set_packets, store_repair, store_source, take_repair, take_source,
}
use roc.Fec.Reader.{
  get_next_packet, read, fetch_packets, fetch_loop, read_fetched, get_first_packet,
  drop_repair_packets_from_prev_blocks, drop_repair_loop, read_unstarted, advance, get_next_loop,
  round, scan, search_block,
}
use roc.Fec.Reader.Invariant.{IsValid, IsFec, IsRepair}
use roc.Fec.Reader.FillLoops.{Fills, fill_block-Fills}
use roc.Fec.Reader.Gets.{GetsNext, get_next_packet-GetsNext}
use roc.Fec.Reader.Whole.{Panics, Through, read-Through}
use roc.Fec.Reader.Panics.{fill_repair_block_panics, try_repair_panics}
use roc.Rtp.Validator.{sn_distance}
use roc.Packet.SortedQueue

-- A decoder that restores nothing.
abbrev decoder : BlockDecoder
decoder = record {
  State = ℕ;
  max_block_length = 10;
  begin = λ k n size s. some (true, s);
  put = λ i b s. some (s + 1);
  repair = λ i s. some (none, s);
  finish = λ s. some s;
}

abbrev memory : Reader decoder → ℕ → Bool
memory r n = true

abbrev parser : Packet → List ℕ → Outcome
parser p b = some (true, p)

abbrev pool : ℕ → Bool
pool n = true

-- A symbol of a block of two source packets and one repair packet.
abbrev part : ℕ → ℕ → ℕ → Fec
part sbn esi blen = record fec_init {
  fec_scheme = ldpc_staircase;
  encoding_symbol_id = esi;
  source_block_number = sbn;
  source_block_length = 2;
  block_length = blen;
  payload = some (7 ∷ 8 ∷ []);
}

abbrev fec_symbol : ℕ → ℕ → ℕ → Packet
fec_symbol sbn esi blen = record packet_init { flags = flag_fec; fec_part = part sbn esi blen }

abbrev queue_of : List Packet → SortedQueue
queue_of l = record { list = l; latest = none; max_size = 0 }

abbrev fresh : Reader decoder
fresh = record {
  decoder = 0;
  source_queue = queue_of [];
  repair_queue = queue_of [];
  source_block = [];
  repair_block = [];
  alive = true;
  started = false;
  can_repair = false;
  next_packet = 0;
  cur_sbn = 0;
  payload_size = 0;
  source_block_resized = false;
  repair_block_resized = false;
  payload_resized = false;
  n_packets = 0;
  max_sbn_jump = 100;
  scheme = ldpc_staircase;
}

init_is_fresh : init decoder 100 ldpc_staircase 0 ≡ fresh
unfolding init SortedQueue.empty
init_is_fresh = refl

-- In block 5, with packets of this block and of the next in the queues.
abbrev running : Reader decoder
running = record fresh {
  source_queue = queue_of (fec_symbol 6 0 0 ∷ fec_symbol 5 1 0 ∷ []);
  repair_queue = queue_of (fec_symbol 5 2 3 ∷ []);
  source_block = none ∷ none ∷ [];
  started = true;
  cur_sbn = 5;
}

running-IsValid : IsValid decoder running
unfolding fec
running-IsValid = record {
  source_fec = ((part 6 0 0, refl, omega arith), ((part 5 1 0, refl, omega arith), tt));
  repair_fec = ((part 5 2 3, refl, omega arith, omega arith), tt);
  sbn_fits = omega arith;
  source_fits = omega arith;
  source_slots = tt;
  repair_slots = tt;
  payload_first = λ h. cc;
  source_first = λ h. cc;
  unsized = λ _. ((refl, (refl, tt)), tt);
  no_repair = λ _. tt;
  not_started = λ h. cc;
  at_start = λ _. refl;
}

fresh-IsValid : IsValid decoder fresh
fresh-IsValid = record {
  source_fec = tt;
  repair_fec = tt;
  sbn_fits = omega arith;
  source_fits = omega arith;
  source_slots = tt;
  repair_slots = tt;
  payload_first = λ h. cc;
  source_first = λ h. cc;
  unsized = λ _. (tt, tt);
  no_repair = λ _. tt;
  not_started = λ _. (tt, tt, refl);
  at_start = λ _. refl;
}

fill_block-Fills_example : Fills decoder memory running (fill_block decoder memory running)
fill_block-Fills_example = fill_block-Fills decoder memory running running-IsValid refl

get_next_packet-GetsNext_example :
    GetsNext decoder memory parser pool running
      (get_next_packet decoder memory parser pool 655360 running)
get_next_packet-GetsNext_example =
    get_next_packet-GetsNext decoder memory parser pool 655360 running
      (running-IsValid, refl, omega arith) (omega arith)

-- A plain queue keeps to the kind of the packets that it holds.
module _ (P : Packet → Type 0) where
  queue_gives : (q : Queue) (p : Packet) → All P q → (queue_reader.read q).0 ≡ some p → P p
  queue_gives [] p h e = absurd (cc)
  queue_gives (x ∷ q) p h e = let f : x ≡ p = cc in subst P f h.0

  queue_keeps : (q : Queue) → All P q → All P (queue_reader.read q).1
  queue_keeps [] h = tt
  queue_keeps (x ∷ q) h = h.1

  abbrev queue_Gives : Gives queue_reader P
  queue_Gives = record { Holds = All P; gives = queue_gives; keeps = queue_keeps }

abbrev sources : Queue
sources = fec_symbol 5 0 0 ∷ fec_symbol 5 1 0 ∷ []

abbrev repairs : Queue
repairs = fec_symbol 5 2 3 ∷ []

sources-IsFec : All IsFec sources
unfolding fec
sources-IsFec = ((part 5 0 0, refl, omega arith), ((part 5 1 0, refl, omega arith), tt))

repairs-IsRepair : All IsRepair repairs
unfolding fec
repairs-IsRepair = ((part 5 2 3, refl, omega arith, omega arith), tt)

read-Through_example :
    Panics decoder queue_reader queue_reader
      (queue_Gives IsFec)
      (queue_Gives IsRepair)
      memory
      parser
      pool
      sources
      repairs
      fresh
    ⊎ Through decoder queue_reader queue_reader
        (queue_Gives IsFec)
        (queue_Gives IsRepair)
        memory
        parser
        pool
        (read decoder memory parser pool queue_reader queue_reader 655360 sources repairs fresh)
read-Through_example =
    read-Through decoder queue_reader queue_reader (queue_Gives IsFec) (queue_Gives IsRepair) memory
      parser pool 655360 sources repairs fresh sources-IsFec repairs-IsRepair
      (fresh-IsValid, λ h. cc) (omega arith)

-- A repair packet that names no block length.
abbrev attacked : Reader decoder
attacked = record running { repair_queue = queue_of (fec_symbol 5 2 0 ∷ []); payload_size = 2 }

fill_repair_block_panics_example : fill_repair_block decoder memory attacked ≡ none
unfolding fec SortedQueue.head validate_incoming_repair_packet
fill_repair_block_panics_example =
    fill_repair_block_panics decoder memory (fec_symbol 5 2 0) (part 5 2 0) attacked refl refl
      (omega arith) refl refl refl (inl refl) refl refl

-- The first packet was restored by a parser that sets no FEC part.
abbrev half_restored : Reader decoder
half_restored = record running {
  source_block = some packet_init ∷ none ∷ [];
  can_repair = true;
  source_block_resized = true;
  repair_block_resized = true;
  payload_resized = true;
}

try_repair_panics_example : try_repair decoder parser pool half_restored ≡ none
unfolding fec
try_repair_panics_example =
    try_repair_panics decoder parser pool half_restored 0 [] (none ∷ []) packet_init refl refl refl
      refl refl refl refl

abbrev returned : Option (Option Packet × Queue × Queue × Reader decoder) → Option (Option Packet)
returned none = none
returned (some (p, _, _, _)) = some p

-- Of the two source packets the first is returned.
read_runs :
    returned (read decoder memory parser pool queue_reader queue_reader 3 sources repairs fresh)
    ≡ some (some (fec_symbol 5 0 0))
unfolding fetch_packets fetch_loop read_fetched get_first_packet
    drop_repair_packets_from_prev_blocks drop_repair_loop read_unstarted advance get_next_loop
    get_next_packet round scan search_block read validate_fec_packet process_source_packet
    validate_incoming_source_packet can_update_payload_size can_update_source_block_size
    update_payload_size update_source_block_size can_update_repair_block_size prepare_repair_packet
    process_repair_packet update_repair_block_size validate_incoming_repair_packet
    validate_sbn_sequence admit clear_block fill_block fill_repair_block fill_repair_loop
    fill_source_block fill_source_loop next_block parse_repaired_packet repair_block_packets
    repair_packets restore set_packets store_repair store_source take_repair take_source try_repair
    compare add_flags fec_compare rtp rtp_compare set_data fec blknum_diff blknum_le blknum_lt
    seqnum_diff seqnum_lt sn_distance SortedQueue.write SortedQueue.head SortedQueue.insert
    SortedQueue.read SortedQueue.size
read_runs = refl
