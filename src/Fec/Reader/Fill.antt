-- ===== src/Fec/Reader/Fill.antt =====
-- What filling a block makes of a FEC reader, and that it ends.
use roc.Prelude.{
  ℕ, suc, ◌<◌, ◌≡◌, refl, ◌⊎◌, inl, inr, Bool, true, false, Option, none, some, List, [], ◌∷◌, ◌++◌,
  length, Bool-cases, All, pop_back_cases, ltb, ◌>>=◌,
}
use roc.Packet.Types.{Packet, Fec, fec}
use roc.Packet.Units.{u16_mod, blknum_le, blknum_diff}
use roc.Packet.SortedQueue
use roc.Packet.SortedQueue.{SortedQueue}
use roc.Rtp.Validator.{sn_distance}
use roc.Fec.ReaderState.{BlockDecoder, Reader, validate_sbn_sequence}
use roc.Fec.ReaderBlock.{
  admit, take_source, take_repair, fill_source_loop, fill_repair_loop, after_source_read,
  after_repair_read,
}
use roc.Fec.Reader.Invariant.{IsValid, IsFec, IsRepair}
use roc.Fec.Reader.Keeps.{Keeps}

-- A queue is empty, or its head is the packet that a read takes.
pub head_cases :
    (q : SortedQueue)
    → ((q.list ≡ []) × (SortedQueue.head q ≡ none))
      ⊎ ((p : Packet) × (rest : List Packet) × (q.list ≡ rest ++ (p ∷ []))
          × (SortedQueue.head q ≡ some p)
          × ((SortedQueue.read q).1 ≡ record q { list = rest }))
unfolding SortedQueue.head SortedQueue.read
head_cases q = elim (pop_back_cases q.list) [
  | inl (e, n) ↦ inl (e, rw n refl)
  | inr (p, rest, e, n) ↦ inr (p, rest, e, rw n refl, rw (n, SortedQueue.read) refl)
]

module _ (d : BlockDecoder) where
  abbrev pub with_source : SortedQueue → Reader d → Reader d
  with_source q r = record r { source_queue = q }

  abbrev pub with_repair : SortedQueue → Reader d → Reader d
  with_repair q r = record r { repair_queue = q }

  pub IsValid-with_source :
      (q : SortedQueue) (r : Reader d)
      → IsValid d r
      → All IsFec q.list
      → IsValid d (with_source q r)
  IsValid-with_source q r v h = record {
    source_fec = h;
    repair_fec = v.repair_fec;
    sbn_fits = v.sbn_fits;
    source_fits = v.source_fits;
    source_slots = v.source_slots;
    repair_slots = v.repair_slots;
    payload_first = v.payload_first;
    source_first = v.source_first;
    unsized = v.unsized;
    no_repair = v.no_repair;
    not_started = v.not_started;
    at_start = v.at_start;
  }

  pub IsValid-with_repair :
      (q : SortedQueue) (r : Reader d)
      → IsValid d r
      → All IsRepair q.list
      → IsValid d (with_repair q r)
  IsValid-with_repair q r v h = record {
    source_fec = v.source_fec;
    repair_fec = h;
    sbn_fits = v.sbn_fits;
    source_fits = v.source_fits;
    source_slots = v.source_slots;
    repair_slots = v.repair_slots;
    payload_first = v.payload_first;
    source_first = v.source_first;
    unsized = v.unsized;
    no_repair = v.no_repair;
    not_started = v.not_started;
    at_start = v.at_start;
  }

  pub Keeps-queues :
      (r : Reader d) (q t : SortedQueue)
      → Keeps d r (record r { source_queue = q; repair_queue = t })
  Keeps-queues r q t = record {
    same_sbn = refl;
    same_next = refl;
    same_started = refl;
    same_length = λ _. refl;
    still_sized = λ h. h;
    still_positive = λ h. h;
    still_dead = λ h. h;
  }

  pub Keeps-dead : (r : Reader d) → Keeps d r (record r { alive = false })
  Keeps-dead r = record {
    same_sbn = refl;
    same_next = refl;
    same_started = refl;
    same_length = λ _. refl;
    still_sized = λ h. h;
    still_positive = λ h. h;
    still_dead = λ h. cc;
  }

  module _ (memory : Reader d → ℕ → Bool) where
    -- A packet is admitted exactly if it is not ahead of the current block and near enough.
    pub admit_cases :
        (c : Fec) (r : Reader d)
        → ((admit d memory c r ≡ (true, r)) × (blknum_le c.source_block_number r.cur_sbn ≡ true))
          ⊎ ((admit d memory c r ≡ (false, r))
              × (blknum_le c.source_block_number r.cur_sbn ≡ false))
          ⊎ (admit d memory c r ≡ (false, record r { alive = false }))
    unfolding admit validate_sbn_sequence
    admit_cases c r =
        elim (Bool-cases
          (ltb r.max_sbn_jump (sn_distance (blknum_diff c.source_block_number r.cur_sbn)))) [
            | inl f ↦ rw f (inr (inr refl))
            | inr f ↦ elim (Bool-cases (blknum_le c.source_block_number r.cur_sbn)) [
              | inl g ↦ rw f (inl (rw g refl, g))
              | inr g ↦ rw f (inr (inl (rw g refl, g)))
            ]
          ]

    -- Why the source loop ended: the reader is shut down, the queue is empty, or the next packet is
    -- of a later block.
    abbrev pub Settled : Reader d → Type 0
    Settled s =
        (s.alive ≡ false)
        ⊎ (s.source_queue.list ≡ [])
        ⊎ ((p : Packet) × (c : Fec) × (SortedQueue.head s.source_queue ≡ some p)
            × (fec p ≡ some c)
            × (c.source_block_number < u16_mod)
            × (blknum_le c.source_block_number s.cur_sbn ≡ false))

    -- Packets were taken from the source queue, or it is as it was.
    abbrev pub Drains : Reader d → Reader d → Type 0
    Drains r s =
        (s.source_queue ≡ r.source_queue)
        ⊎ (length s.source_queue.list < length r.source_queue.list)

    abbrev pub FillsSource : Reader d → Option (Reader d) → Type 0
    FillsSource r o =
        (s : Reader d) × (o ≡ some s)
        × IsValid d s
        × Keeps d r s
        × Settled s
        × Drains r s
        × (s.repair_queue ≡ r.repair_queue)

    pub source_step :
        (fuel : ℕ) (r s : Reader d) (p : Packet) (c : Fec)
        → SortedQueue.head r.source_queue ≡ some p
        → fec p ≡ some c
        → admit d memory c r ≡ (true, r)
        → take_source d memory p c (after_source_read d memory r) ≡ some s
        → fill_source_loop d memory (suc fuel) r ≡ fill_source_loop d memory fuel s
    unfolding fill_source_loop
    source_step fuel r s p c h e a t = rw (h, fill_source_loop, e, ◌>>=◌, a, a, t) refl

    pub source_stop :
        (fuel : ℕ) (r s : Reader d) (p : Packet) (c : Fec)
        → SortedQueue.head r.source_queue ≡ some p
        → fec p ≡ some c
        → admit d memory c r ≡ (false, s)
        → fill_source_loop d memory (suc fuel) r ≡ some s
    unfolding fill_source_loop
    source_stop fuel r s p c h e a = rw (h, fill_source_loop, e, ◌>>=◌, a, a) refl

    pub source_empty :
        (fuel : ℕ) (r : Reader d)
        → SortedQueue.head r.source_queue ≡ none
        → fill_source_loop d memory (suc fuel) r ≡ some r
    unfolding fill_source_loop
    source_empty fuel r h = rw (h, fill_source_loop) refl

    pub repair_step :
        (fuel : ℕ) (r s : Reader d) (p : Packet) (c : Fec)
        → SortedQueue.head r.repair_queue ≡ some p
        → fec p ≡ some c
        → admit d memory c r ≡ (true, r)
        → take_repair d memory p c (after_repair_read d memory r) ≡ some s
        → fill_repair_loop d memory (suc fuel) r ≡ fill_repair_loop d memory fuel s
    unfolding fill_repair_loop
    repair_step fuel r s p c h e a t = rw (h, fill_repair_loop, e, ◌>>=◌, a, a, t) refl

    pub repair_stop :
        (fuel : ℕ) (r s : Reader d) (p : Packet) (c : Fec)
        → SortedQueue.head r.repair_queue ≡ some p
        → fec p ≡ some c
        → admit d memory c r ≡ (false, s)
        → fill_repair_loop d memory (suc fuel) r ≡ some s
    unfolding fill_repair_loop
    repair_stop fuel r s p c h e a = rw (h, fill_repair_loop, e, ◌>>=◌, a, a) refl

    pub repair_empty :
        (fuel : ℕ) (r : Reader d)
        → SortedQueue.head r.repair_queue ≡ none
        → fill_repair_loop d memory (suc fuel) r ≡ some r
    unfolding fill_repair_loop
    repair_empty fuel r h = rw (h, fill_repair_loop) refl
