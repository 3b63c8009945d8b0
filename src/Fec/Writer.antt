-- ===== src/Fec/Writer.antt =====
-- src/modules/roc_fec/writer.cpp: `write`. It returns the packets that go to the output writer, in
-- order; `none` is a panic. The composers are arguments. So are, for a call, whether the array of
-- repair packets can be resized and the buffers of the pools.
pub mod Repair
pub mod Blocks
pub mod Sends
pub mod Interface
pub mod Makes
use mathlib.Core.Option
use roc.Prelude.{
  ℕ, suc, ◌+◌, ◌-◌, ◌%◌, ◌^◌, ◌&&◌, Bool, true, false, Option, none, some, List, [], ◌∷◌, ◌++◌, ltb,
  ◌==◌, not, if◌then◌else◌, length, take, replicate, map, ◌>>=◌,
}
use roc.Packet.Units.{u16_mod}
use roc.Packet.Types.{
  Packet, Fec, FecScheme, none_scheme, reed_solomon_m8, ldpc_staircase, Slice, slice_size, fec,
  add_flags, set_data, packet_init, flag_composed,
}
use roc.Rtp.Composer.{Buffer, InnerComposer}
use roc.Fec.WriterState.{
  BlockEncoder, Writer, validate_fec_packet, begin_block, fill_packet_fec_fields, compose_or_panic,
}
use roc.Fec.WriterRepair.{end_block}

module _ (e : BlockEncoder) where
  unfoldable pub write_source_packet :
      InnerComposer → Packet → Fec → Writer e → Option (Packet × Writer e)
  unfolding add_flags fill_packet_fec_fields compose_or_panic
  write_source_packet source_composer pp c w = do
    p ← add_flags flag_composed pp
    q ← compose_or_panic e source_composer (fill_packet_fec_fields e p w.cur_packet w)
    some (q, record w { encoder = e.put w.cur_packet c.payload w.encoder })

  unfoldable pub next_block : Writer e → Writer e
  next_block w = record w {
    cur_block_repair_sn = (w.cur_block_repair_sn + w.cur_rblen) % u16_mod;
    cur_sbn = (w.cur_sbn + 1) % u16_mod;
    cur_packet = 0;
  }

  abbrev pub begin_write : Bool → Fec → Writer e → Bool × Writer e
  begin_write memory c w =
      if w.cur_packet == 0 then begin_block e memory (slice_size c.payload) w else (true, w)

  -- From where the source packet is written.
  unfoldable pub write_in_block :
      InnerComposer
      → InnerComposer
      → (ℕ → Option Buffer)
      → Packet
      → Fec
      → Writer e
      → Option (List Packet × Writer e)
  unfolding write_source_packet end_block next_block
  write_in_block source_composer repair_composer pool pp c w = do
    (q, w') ← write_source_packet source_composer pp c w
    let v : Writer e = record w' { cur_packet = w'.cur_packet + 1 }
    if v.cur_packet == v.cur_sblen
        then (do (out, u) ← end_block e repair_composer pool v; some (q ∷ out, next_block u))
        else some (q ∷ [], v)

  -- From where the block was begun, or goes on.
  unfoldable pub write_begun :
      InnerComposer
      → InnerComposer
      → (ℕ → Option Buffer)
      → Packet
      → Fec
      → Bool × Writer e
      → Option (List Packet × Writer e)
  unfolding write_in_block
  write_begun source_composer repair_composer pool pp c (false, w) = some ([], w)
  write_begun source_composer repair_composer pool pp c (true, w) =
      if slice_size c.payload == w.cur_payload_size
      then write_in_block source_composer repair_composer pool pp c w
      else some ([], record w { alive = false })

  unfoldable pub write :
      InnerComposer
      → InnerComposer
      → Bool
      → (ℕ → Option Buffer)
      → Packet
      → Writer e
      → Option (List Packet × Writer e)
  unfolding validate_fec_packet begin_block write_begun
  write source_composer repair_composer memory pool pp w = if not w.alive then some ([], w) else (do
    c ← validate_fec_packet w.scheme pp
    write_begun source_composer repair_composer pool pp c
        (begin_write memory c (record w { first_packet = false })))
