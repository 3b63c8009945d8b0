-- ===== src/Fec/WriterRepair.antt =====
-- src/modules/roc_fec/writer.cpp: the end of a block, where the repair packets are made, encoded,
-- composed and written. `pool i` is the buffer for repair packet `i`, `none` if that or the packet
-- cannot be allocated. The slots of the array of repair packets are the elements of a list.
use roc.Prelude.{ℕ, suc, ◌+◌, Option, none, some, List, [], ◌∷◌, if◌then◌else◌, take, map, ◌>>=◌}
use roc.Packet.Types.{Packet, fec, add_flags, set_data, packet_init, flag_composed}
use roc.Rtp.Composer.{Buffer, InnerComposer}
use roc.Fec.WriterState.{
  BlockEncoder, Writer, validate_fec_packet, fill_packet_fec_fields, compose_or_panic,
}

module _ (e : BlockEncoder) where
  -- From where the packet is prepared; the inner `none` is a null packet.
  unfoldable pub finish_repair_packet : ℕ → Packet → Buffer → Writer e → Option (Option Packet)
  unfolding fec set_data validate_fec_packet fill_packet_fec_fields
  finish_repair_packet i q b w = elim (fec q) [
    | none ↦ some none
    | some _ ↦
        (set_data (some (take b.size b.bytes)) q >>= (λ r.
          validate_fec_packet w.scheme r
          >>= (λ _. some (some (fill_packet_fec_fields e r (w.cur_sblen + i) w)))))
  ]

  unfoldable pub make_repair_packet :
      InnerComposer → Option Buffer → ℕ → Writer e → Option (Option Packet)
  unfolding finish_repair_packet
  make_repair_packet c none i w = some none
  make_repair_packet c (some b) i w = do
    (aligned, b') ← c.align b 0 e.alignment
    if aligned
        then (do
          (ok, q, b'') ← c.prepare packet_init b' w.cur_payload_size
          if ok then finish_repair_packet i q b'' w else some none)
        else some none

  abbrev pub keep_old : Option Packet → Option Packet → Option Packet
  keep_old old none = old
  keep_old old (some p) = some p

  -- The slots from `i` on.
  unfoldable pub make_repair_packets :
      InnerComposer
      → (ℕ → Option Buffer)
      → ℕ
      → Writer e
      → List (Option Packet)
      → Option (List (Option Packet))
  unfolding make_repair_packet
  make_repair_packets c pool i w [] = some []
  make_repair_packets c pool i w (old ∷ block) = do
    new ← make_repair_packet c (pool i) i w
    rest ← make_repair_packets c pool (suc i) w block
    some (keep_old old new ∷ rest)

  -- `encoder_.set` for the slots from `i` on.
  unfoldable pub set_symbols : ℕ → List (Option Packet) → e.State → e.State
  set_symbols i [] s = s
  set_symbols i (none ∷ block) s = set_symbols (suc i) block s
  set_symbols i (some p ∷ block) s = set_symbols (suc i) block (e.put i p.fec_part.payload s)

  -- What `fill` leaves in the buffers of the packets.
  unfoldable pub filled_symbols : ℕ → List (Option Packet) → e.State → List (Option Packet)
  filled_symbols i [] s = []
  filled_symbols i (none ∷ block) s = none ∷ filled_symbols (suc i) block s
  filled_symbols i (some p ∷ block) s =
      some (record p { fec_part = record p.fec_part { payload = e.symbol i s } })
      ∷ filled_symbols (suc i) block s

  unfoldable pub compose_repair_packets :
      InnerComposer → List (Option Packet) → Option (List Packet)
  unfolding add_flags compose_or_panic
  compose_repair_packets c [] = some []
  compose_repair_packets c (none ∷ block) = compose_repair_packets c block
  compose_repair_packets c (some p ∷ block) = do
    q ← add_flags flag_composed p
    r ← compose_or_panic e c q
    rest ← compose_repair_packets c block
    some (r ∷ rest)

  -- The packets written, and the writer with its slots empty again.
  unfoldable pub end_block :
      InnerComposer → (ℕ → Option Buffer) → Writer e → Option (List Packet × Writer e)
  unfolding make_repair_packets set_symbols filled_symbols compose_repair_packets
  end_block c pool w = do
    block ← make_repair_packets c pool 0 w w.repair_block
    let s = e.fill (set_symbols w.cur_sblen block w.encoder)
    out ← compose_repair_packets c (filled_symbols w.cur_sblen block s)
    some (out, record w { encoder = e.finish s; repair_block = map (λ _. none) w.repair_block })
