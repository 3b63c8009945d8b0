-- ===== src/Fec/Reader/Blocks.antt =====
-- What the change to the next block makes of a FEC reader.
use roc.Prelude.{ℕ, ◌+◌, ◌%◌, ◌≡◌, refl, Bool, true, Option, none, arith, length, map}
use roc.Packet.Types.{Packet}
use roc.Packet.Units.{u16_mod}
use roc.Fec.Writer.Blocks.{map-IsEmpty}
use roc.Fec.ReaderState.{BlockDecoder, Reader}
use roc.Fec.ReaderBlock.{clear_block, next_block}
use roc.Fec.Reader.Invariant.{IsValid, SourceAt, InPlace, IsEmpty-Filled}
use roc.Fec.Reader.FillLoops.{Fills, fill_block-Fills}

module _ (d : BlockDecoder) (memory : Reader d → ℕ → Bool) where
  clear_block-IsValid : (r : Reader d) → IsValid d r → IsValid d (clear_block d memory r)
  unfolding clear_block
  clear_block-IsValid r v =
      let (e, l) = map-IsEmpty r.source_block in
      let (f, m) = map-IsEmpty r.repair_block in
      let n = length {A = Option Packet} (map (λ _. none) r.source_block) in
      record {
        source_fec = v.source_fec;
        repair_fec = v.repair_fec;
        sbn_fits = omega arith;
        source_fits = omega (arith, l, v.source_fits);
        source_slots =
            IsEmpty-Filled (SourceAt ((r.cur_sbn + 1) % u16_mod) n r.payload_size) 0
              (map (λ _. none) r.source_block) e;
        repair_slots =
            IsEmpty-Filled (InPlace ((r.cur_sbn + 1) % u16_mod) n r.payload_size) n
              (map (λ _. none) r.repair_block) f;
        payload_first = λ h. cc;
        source_first = λ h. cc;
        unsized = λ _. (e, f);
        no_repair = λ _. f;
        not_started = λ _. (e, f, refl);
        at_start = λ _. refl;
      }

  -- The change to the next block ends without a panic.
  pub next_block-Fills :
      (r : Reader d)
      → IsValid d r
      → r.started ≡ true
      → Fills d memory (clear_block d memory r) (next_block d memory r)
  unfolding next_block clear_block
  next_block-Fills r v st =
      fill_block-Fills d memory (clear_block d memory r) (clear_block-IsValid r v) st
