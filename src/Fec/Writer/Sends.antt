-- ===== src/Fec/Writer/Sends.antt =====
-- What the FEC writer sends for the packets that it is given.
use roc.Prelude.{
  ℕ, ◌+◌, ◌%◌, ◌≤◌, ◌<◌, ◌≡◌, ◌⊎◌, true, false, Option, some, List, [], ◌∷◌, length, All,
}
use roc.Packet.Units.{u16_mod}
use roc.Packet.Types.{Packet, Fec}
use roc.Rtp.Composer.{InnerComposer}
use roc.Fec.WriterState.{BlockEncoder, Writer}
use roc.Fec.Writer.Repair.{Numbered, KeepsFec, OfBlock}
use roc.Fec.Writer.Blocks.{IsValid}

module _ (e : BlockEncoder) (source_composer repair_composer : InnerComposer)
    (source_id repair_id : ℕ) (keeps_source : KeepsFec source_composer source_id e.max_block_length)
    (keeps_repair : KeepsFec repair_composer repair_id e.max_block_length) where
  -- What a write of an open block gives: the source packet with its number, and at the end of the
  -- block repair packets of the block.
  abbrev pub Sends : Writer e → Writer e → List Packet → Type 0
  Sends w w' out =
      (q : Packet) × (repair : List Packet) × (out ≡ q ∷ repair)
      × Numbered (w.cur_packet % u16_mod) w.cur_sbn w'.cur_sblen (w'.cur_sblen + w'.cur_rblen) q
      × (w'.alive ≡ true)
      × (((w.cur_packet + 1 < w'.cur_sblen)
            × (repair ≡ [])
            × (w'.cur_packet ≡ w.cur_packet + 1)
            × (w'.cur_sbn ≡ w.cur_sbn))
          ⊎ ((w.cur_packet + 1 ≡ w'.cur_sblen)
              × All (OfBlock w'.cur_sblen w'.cur_rblen w.cur_sbn) repair
              × (length repair ≤ w'.cur_rblen)
              × (w'.cur_packet ≡ 0)
              × (w'.cur_sbn ≡ (w.cur_sbn + 1) % u16_mod)))

  abbrev Outcome : Writer e → Option (List Packet × Writer e) → Type 0
  Outcome w r =
      (out : List Packet) × (w' : Writer e) × (r ≡ some (out, w'))
      × IsValid e w'
      × (((w'.alive ≡ false) × (out ≡ [])) ⊎ Sends w w' out)
