-- ===== src/Fec/Reader.antt =====
-- src/modules/roc_fec/reader.cpp: how packets are fetched and read. The two inner readers are
-- arguments; `none` is a panic or a null pointer that is followed, or the fuel of the loop over blocks
-- that ran out.
pub mod Invariant
pub mod Sizes
pub mod Keeps
pub mod Places
pub mod RepairSizes
pub mod Fill
pub mod FillLoops
pub mod Blocks
pub mod Repaired
pub mod Restoring
pub mod Scan
pub mod Next
pub mod Gets
pub mod First
pub mod Fetch
pub mod Read
pub mod Whole
pub mod Panics
use roc.Prelude.{
  ℕ, zero, suc, ◌+◌, ◌-◌, ◌^◌, ◌%◌, Bool, true, false, Option, none, some, List, ltb, ◌==◌, not,
  if◌then◌else◌, length, get_elem?, get_or, ◌>>=◌,
}
use roc.Packet.Units.{u32_mod, blknum_lt}
use roc.Packet.Types.{Packet, Fec, fec}
use roc.Packet.SortedQueue
use roc.Packet.SortedQueue.{SortedQueue}
use roc.Packet.Reader.{IReader}
use roc.Rtp.Parser.{Outcome}
use roc.Fec.ReaderState.{BlockDecoder, Reader, validate_fec_packet, process_source_packet}
use roc.Fec.ReaderBlock.{fill_block, next_block, try_repair}

-- The first place from `pos` on that holds a packet, over the places that are left.
unfoldable pub scan : ℕ → ℕ → List (Option Packet) → ℕ
scan zero pos block = pos
scan (suc rounds) pos block = elim (get_or block pos none) [
  | some _ ↦ pos
  | none ↦ scan rounds (pos + 1) block
]

module _ (d : BlockDecoder) where
  abbrev pub drop_head : Reader d → Reader d
  drop_head r = record r { repair_queue = (SortedQueue.read r.repair_queue).1 }

  unfoldable pub drop_repair_loop : ℕ → Reader d → Option (Reader d)
  drop_repair_loop zero r = none
  drop_repair_loop (suc fuel) r = elim (SortedQueue.head r.repair_queue) [
    | none ↦ some r
    | some p ↦ (fec p) >>= λ c. elim (blknum_lt c.source_block_number r.cur_sbn) [
      | false ↦ some r
      | true ↦ drop_repair_loop fuel (drop_head r)
    ]
  ]

  unfoldable pub drop_repair_packets_from_prev_blocks : Reader d → Option (Reader d)
  drop_repair_packets_from_prev_blocks r =
      drop_repair_loop (suc (SortedQueue.size r.repair_queue)) r

  -- One of the loops of `fetch_packets_`; `put` writes to the queue. A false result is the early
  -- return.
  unfoldable pub fetch_loop :
      (i : IReader)
      → (Packet → Reader d → Reader d)
      → ℕ
      → i.State
      → Reader d
      → Option (Bool × i.State × Reader d)
  fetch_loop i put zero s r = none
  fetch_loop i put (suc fuel) s r = elim (i.read s).0 [
    | none ↦ some (true, (i.read s).1, r)
    | some p ↦ (validate_fec_packet d p r) >>= λ v. elim v.0 [
      | false ↦ some (false, (i.read s).1, v.1)
      | true ↦ fetch_loop i put fuel (i.read s).1 (put p v.1)
    ]
  ]

  abbrev pub put_source : Packet → Reader d → Reader d
  put_source p r = record r { source_queue = SortedQueue.write p r.source_queue }

  abbrev pub put_repair : Packet → Reader d → Reader d
  put_repair p r = record r { repair_queue = SortedQueue.write p r.repair_queue }

  module _ (source_reader : IReader) (repair_reader : IReader) where
    unfoldable pub fetch_packets :
        source_reader.State
        → repair_reader.State
        → Reader d
        → Option (source_reader.State × repair_reader.State × Reader d)
    fetch_packets s t r = do
      (more, s', r1) ← fetch_loop source_reader put_source (suc (source_reader.left s)) s r
      if not more then some (s', t, r1) else (do
        (_, t', r2) ← fetch_loop repair_reader put_repair (suc (repair_reader.left t)) t r1
        some (s', t', r2))

module _ (d : BlockDecoder) (memory : Reader d → ℕ → Bool) where
  unfoldable pub get_first_packet : Reader d → Option (Option Packet × Reader d)
  get_first_packet r = elim (SortedQueue.head r.source_queue) [
    | none ↦ some (none, r)
    | some p ↦ do
      c ← fec p
      let a : Bool × Reader d = process_source_packet d memory c r
      if not a.0 then some (none, a.1) else (do
        s ← drop_repair_packets_from_prev_blocks d (record a.1 { cur_sbn = c.source_block_number })
        some (some p, s))
  ]

  module _ (parser : Packet → List ℕ → Outcome) (pool : ℕ → Bool) where
    -- How a round of the loop of `get_next_packet_` ends: the loop ends with what it returns, or
    -- goes on.
    pub data Round : Type 0 where
      finished : Option Packet → Reader d → Round
      again : Reader d → Round

    -- The end of a round, where `next_packet_` was set; the loop goes on without a packet.
    unfoldable pub advance : Option Packet → ℕ → Reader d → Option Round
    advance pp pos r = do
      s ←
          if pos == length r.source_block
          then next_block d memory (record r { next_packet = pos })
          else some (record r { next_packet = pos })
      some (elim pp [ none ↦ again s | some p ↦ finished (some p) s ])

    -- A round behind `try_repair_`.
    unfoldable pub search_block : Reader d → Option Round
    search_block r =
        let pos = scan (length r.source_block - r.next_packet) r.next_packet r.source_block in
        if pos == length r.source_block
        then (if SortedQueue.size r.source_queue == 0
            then some (finished none r)
            else advance none pos r)
        else advance (get_or r.source_block pos none) (pos + 1) r

    unfoldable pub round : Option Packet → Reader d → Option Round
    round none r =
        if not r.alive
        then some (finished none r)
        else (do s ← try_repair d parser pool r; search_block s)
    round (some p) r =
        if not r.alive then some (finished (some p) r) else advance (some p) (r.next_packet + 1) r

    unfoldable pub get_next_loop : ℕ → Option Packet → Reader d → Option (Option Packet × Reader d)
    get_next_loop zero pp r = none
    get_next_loop (suc fuel) pp r = (round pp r) >>= λ o. elim o [
      | finished p s ↦ some (p, s)
      | again s ↦ get_next_loop fuel none s
    ]

    -- `none` is also the panic on a subscript that is out of range.
    unfoldable pub get_next_packet : ℕ → Reader d → Option (Option Packet × Reader d)
    get_next_packet fuel r = do
      s ← fill_block d memory r
      pp ← get_elem? s.source_block s.next_packet
      get_next_loop fuel pp s

    -- `read_` behind `get_first_packet_`.
    unfoldable pub read_unstarted : ℕ → Option Packet → Reader d → Option (Option Packet × Reader d)
    read_unstarted fuel none r =
        let (o, q) = SortedQueue.read r.source_queue in some (o, record r { source_queue = q })
    read_unstarted fuel (some p) r = do
      c ← fec p
      if ltb 0 c.encoding_symbol_id
          then (let (o, q) = SortedQueue.read r.source_queue in
              some (o, record r { source_queue = q }))
          else get_next_packet fuel (record r { started = true })

    -- `read_` behind `fetch_packets_`.
    unfoldable pub read_fetched : ℕ → Reader d → Option (Option Packet × Reader d)
    read_fetched fuel r =
        if r.started
        then get_next_packet fuel r
        else (do (pp, s) ← get_first_packet r; read_unstarted fuel pp s)

    abbrev pub count : Option Packet → ℕ → ℕ
    count none n = n
    count (some p) n = (n + 1) % u32_mod

    module _ (source_reader : IReader) (repair_reader : IReader) where
      unfoldable pub read :
          ℕ
          → source_reader.State
          → repair_reader.State
          → Reader d
          → Option (Option Packet × source_reader.State × repair_reader.State × Reader d)
      read fuel s t r = if not r.alive then some (none, s, t, r) else (do
        (s', t', r1) ← fetch_packets d source_reader repair_reader s t r
        (pp, r2) ← read_fetched fuel r1
        some (
          if r2.alive then pp else none,
          s',
          t',
          record r2 { n_packets = count pp r2.n_packets },
        ))
