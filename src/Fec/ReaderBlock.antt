-- ===== src/Fec/ReaderBlock.antt =====
-- src/modules/roc_fec/reader.cpp: how a block is filled from the queues, and how lost packets of it are
-- restored. The parser of restored packets and the allocation of a packet for a place of the block are
-- arguments; `none` is a panic or a null pointer that is followed.
use roc.Prelude.{
  ℕ, zero, suc, ◌+◌, ◌-◌, ◌%◌, ◌||◌, Bool, true, false, Option, none, some, List, [], ◌∷◌, ltb, leb,
  ◌==◌, not, if◌then◌else◌, length, get_or, set, map, ◌>>=◌,
}
use roc.Packet.Units.{u16_mod, blknum_lt, blknum_le}
use roc.Packet.Types.{Packet, Fec, Slice, fec, add_flags, set_data, packet_init, flag_restored}
use roc.Packet.SortedQueue
use roc.Packet.SortedQueue.{SortedQueue}
use roc.Rtp.Parser.{Outcome}
use roc.Fec.ReaderState.{
  BlockDecoder, Reader, validate_sbn_sequence, process_source_packet, process_repair_packet,
}

module _ (d : BlockDecoder) (memory : Reader d → ℕ → Bool) where
  -- A packet goes to its place, unless that is taken.
  unfoldable pub store_source : Fec → Packet → Reader d → Option (Reader d)
  store_source c p r =
      if not (c.source_block_length == length r.source_block)
        || not (ltb c.encoding_symbol_id (length r.source_block))
      then none
      else some (elim (get_or r.source_block c.encoding_symbol_id none) [
        | some _ ↦ r
        | none ↦ record r {
          can_repair = true;
          source_block = set r.source_block c.encoding_symbol_id (some p);
        }
      ])

  unfoldable pub store_repair : Fec → Packet → Reader d → Option (Reader d)
  store_repair c p r =
      if not (c.source_block_length == length r.source_block)
        || not (leb (length r.source_block) c.encoding_symbol_id)
        || not (ltb c.encoding_symbol_id (length r.source_block + length r.repair_block))
      then none
      else (let p_num = c.encoding_symbol_id - c.source_block_length in
          some (elim (get_or r.repair_block p_num none) [
            | some _ ↦ r
            | none ↦ record r {
              can_repair = true;
              repair_block = set r.repair_block p_num (some p);
            }
          ]))

  -- The rest of a round of `fill_source_block_`, behind the read of the queue.
  unfoldable pub take_source : Packet → Fec → Reader d → Option (Reader d)
  take_source p c r =
      if blknum_lt c.source_block_number r.cur_sbn
      then some r
      else if not (c.source_block_number == r.cur_sbn)
      then none
      else (let a = process_source_packet d memory c r in
          if a.0 then store_source c p a.1 else some a.1)

  unfoldable pub take_repair : Packet → Fec → Reader d → Option (Reader d)
  take_repair p c r =
      if blknum_lt c.source_block_number r.cur_sbn
      then some r
      else if not (c.source_block_number == r.cur_sbn)
      then none
      else (do
        (ok, s) ← process_repair_packet d memory c r
        if ok then store_repair c p s else some s)

  abbrev pub after_source_read : Reader d → Reader d
  after_source_read r = record r { source_queue = (SortedQueue.read r.source_queue).1 }

  abbrev pub after_repair_read : Reader d → Reader d
  after_repair_read r = record r { repair_queue = (SortedQueue.read r.repair_queue).1 }

  -- The packet at the head of a queue is taken, or the loop ends: with a false value it ends.
  unfoldable pub admit : Fec → Reader d → Bool × Reader d
  admit c r =
      let v = validate_sbn_sequence d c r in
      if v.0 then (blknum_le c.source_block_number v.1.cur_sbn, v.1) else v

  unfoldable pub fill_source_loop : ℕ → Reader d → Option (Reader d)
  fill_source_loop zero r = none
  fill_source_loop (suc fuel) r = elim (SortedQueue.head r.source_queue) [
    | none ↦ some r
    | some p ↦ (fec p) >>= λ c. elim (admit c r).0 [
      | false ↦ some (admit c r).1
      | true ↦ (take_source p c (after_source_read (admit c r).1)) >>= (fill_source_loop fuel)
    ]
  ]

  unfoldable pub fill_repair_loop : ℕ → Reader d → Option (Reader d)
  fill_repair_loop zero r = none
  fill_repair_loop (suc fuel) r = elim (SortedQueue.head r.repair_queue) [
    | none ↦ some r
    | some p ↦ (fec p) >>= λ c. elim (admit c r).0 [
      | false ↦ some (admit c r).1
      | true ↦ (take_repair p c (after_repair_read (admit c r).1)) >>= (fill_repair_loop fuel)
    ]
  ]

  unfoldable pub fill_source_block : Reader d → Option (Reader d)
  fill_source_block r = fill_source_loop (suc (SortedQueue.size r.source_queue)) r

  unfoldable pub fill_repair_block : Reader d → Option (Reader d)
  fill_repair_block r = fill_repair_loop (suc (SortedQueue.size r.repair_queue)) r

  unfoldable pub fill_block : Reader d → Option (Reader d)
  fill_block r = do s ← fill_source_block r; fill_repair_block s

  -- The state of `next_block_` in which it fills the new block.
  unfoldable pub clear_block : Reader d → Reader d
  clear_block r = record r {
    source_block = map (λ _. none) r.source_block;
    repair_block = map (λ _. none) r.repair_block;
    cur_sbn = (r.cur_sbn + 1) % u16_mod;
    next_packet = 0;
    source_block_resized = false;
    repair_block_resized = false;
    payload_resized = false;
    can_repair = false;
  }

  unfoldable pub next_block : Reader d → Option (Reader d)
  next_block r = fill_block (clear_block r)

module _ (parser : Packet → List ℕ → Outcome) where
  -- The inner `none` is a packet that cannot be allocated or parsed.
  unfoldable pub parse_repaired_packet : Bool → List ℕ → Option (Option Packet)
  parse_repaired_packet allocated b = if not allocated then some none else (do
    (ok, p) ← parser packet_init b
    if not ok
        then some none
        else (do q ← set_data (some b) p; s ← add_flags flag_restored q; some (some s)))

  unfoldable pub restore : Bool → Slice → Option (Option Packet)
  restore allocated none = some none
  restore allocated (some b) = parse_repaired_packet allocated b

module _ (d : BlockDecoder) where
  -- The packets of a block, from place `i` on, are given to the decoder.
  unfoldable pub set_packets : ℕ → List (Option Packet) → d.State → Option d.State
  set_packets i [] s = some s
  set_packets i (none ∷ block) s = set_packets (suc i) block s
  set_packets i (some p ∷ block) s = do
    c ← fec p
    s' ← d.put i c.payload s
    set_packets (suc i) block s'

  module _ (parser : Packet → List ℕ → Outcome) (pool : ℕ → Bool) where
    -- The empty places of a block, from place `i` on, are restored where that can be done.
    unfoldable pub repair_packets :
        ℕ → List (Option Packet) → d.State → Option (List (Option Packet) × d.State)
    repair_packets i [] s = some ([], s)
    repair_packets i (some p ∷ block) s = do
      (l, s') ← repair_packets (suc i) block s
      some (some p ∷ l, s')
    repair_packets i (none ∷ block) s = do
      (buffer, s1) ← d.repair i s
      o ← restore parser (pool i) buffer
      (l, s2) ← repair_packets (suc i) block s1
      some (o ∷ l, s2)

    -- From where the decoder has begun the block.
    unfoldable pub repair_block_packets : Reader d → d.State → Option (Reader d)
    repair_block_packets r s = do
      s1 ← set_packets 0 r.source_block s
      s2 ← set_packets (length r.source_block) r.repair_block s1
      (l, s3) ← repair_packets 0 r.source_block s2
      s4 ← d.finish s3
      some (record r { source_block = l; decoder = s4; can_repair = false })

    unfoldable pub try_repair : Reader d → Option (Reader d)
    try_repair r =
        if not r.can_repair
        then some r
        else if not r.source_block_resized || not r.repair_block_resized || not r.payload_resized
        then some r
        else (do
          (ok, s) ← d.begin (length r.source_block) (length r.repair_block) r.payload_size r.decoder
          if ok then repair_block_packets r s else some (record r { decoder = s; alive = false }))
