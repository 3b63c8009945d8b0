-- ===== src/Fec/Reader/Invariant.antt =====
-- When a FEC reader is valid: what its queues and the places of its blocks hold.
use roc.Prelude.{
  ℕ, zero, suc, ◌+◌, ◌≤◌, ◌<◌, ◌≡◌, subst, ◌⊎◌, true, false, Option, none, some, List, [], ◌∷◌,
  arith, length, set, All,
}
use roc.Packet.Units.{u16_mod}
use roc.Packet.Types.{Packet, Fec, slice_size, fec, add_flags, flag_restored}
use roc.Fec.Writer.Repair.{IsEmpty}
use roc.Fec.ReaderState.{BlockDecoder, Reader}

abbrev pub IsFec : Packet → Type 0
IsFec p = (c : Fec) × (fec p ≡ some c) × (c.source_block_number < u16_mod)

-- A repair packet that names the size of its block.
abbrev pub IsRepair : Packet → Type 0
IsRepair p = (c : Fec) × (fec p ≡ some c) × (c.source_block_number < u16_mod) × (0 < c.block_length)

abbrev pub IsRestored : Packet → Type 0
IsRestored p = (q : Packet) × (add_flags flag_restored q ≡ some p)

-- What a received packet in the place `i` of a block with `n` source packets says of itself.
pub record InPlace (sbn n size i : ℕ) (p : Packet) : Type 0 where
  pub part : Fec
  pub has_part : fec p ≡ some part
  pub in_block : part.source_block_number ≡ sbn
  pub at_place : part.encoding_symbol_id ≡ i
  pub of_length : part.source_block_length ≡ n
  pub of_size : slice_size part.payload ≡ size

abbrev pub SourceAt : ℕ → ℕ → ℕ → ℕ → Packet → Type 0
SourceAt sbn n size i p = IsRestored p ⊎ InPlace sbn n size i p

-- The packets of a block from place `i` on.
abbrev pub Filled : (ℕ → Packet → Type 0) → ℕ → List (Option Packet) → Type 0
Filled P i [] = Unit
Filled P i (none ∷ block) = Filled P (suc i) block
Filled P i (some p ∷ block) = P i p × Filled P (suc i) block

pub IsEmpty-Filled :
    (P : ℕ → Packet → Type 0) (i : ℕ) (block : List (Option Packet))
    → IsEmpty block
    → Filled P i block
IsEmpty-Filled P i [] h = tt
IsEmpty-Filled P i (none ∷ block) h = IsEmpty-Filled P (suc i) block h.1
IsEmpty-Filled P i (some p ∷ block) h = absurd (cc h.0)

pub set-Filled :
    (P : ℕ → Packet → Type 0) (i k : ℕ) (p : Packet) (block : List (Option Packet))
    → P (i + k) p
    → Filled P i block
    → Filled P i (set block k (some p))
set-Filled P i k p [] hp h = tt
set-Filled P i zero p (none ∷ block) hp h = (subst (λ n. P n p) (omega arith) hp, h)
set-Filled P i zero p (some q ∷ block) hp h = (subst (λ n. P n p) (omega arith) hp, h.1)
set-Filled P i (suc k) p (none ∷ block) hp h =
    set-Filled P (suc i) k p block (subst (λ n. P n p) (omega arith) hp) h
set-Filled P i (suc k) p (some q ∷ block) hp h =
    (h.0, set-Filled P (suc i) k p block (subst (λ n. P n p) (omega arith) hp) h.1)

module _ (d : BlockDecoder) where
  pub record IsValid (r : Reader d) : Type 0 where
    pub source_fec : All IsFec r.source_queue.list
    pub repair_fec : All IsRepair r.repair_queue.list
    pub sbn_fits : r.cur_sbn < u16_mod
    pub source_fits : length r.source_block ≤ d.max_block_length
    pub source_slots :
        Filled (SourceAt r.cur_sbn (length r.source_block) r.payload_size) 0 r.source_block
    pub repair_slots :
        Filled
          (InPlace r.cur_sbn (length r.source_block) r.payload_size)
          (length r.source_block)
          r.repair_block
    pub payload_first : r.source_block_resized ≡ true → r.payload_resized ≡ true
    pub source_first : r.repair_block_resized ≡ true → r.source_block_resized ≡ true
    pub unsized : r.source_block_resized ≡ false → IsEmpty r.source_block × IsEmpty r.repair_block
    pub no_repair : r.repair_block_resized ≡ false → IsEmpty r.repair_block
    pub not_started :
        r.started ≡ false → IsEmpty r.source_block × IsEmpty r.repair_block × (r.next_packet ≡ 0)
    pub at_start : r.source_block_resized ≡ false → r.next_packet ≡ 0

  -- The reader is inside a block.
  abbrev pub InBlock : Reader d → Type 0
  InBlock r = r.next_packet < length r.source_block
