-- ===== src/Fec/Reader/Next.antt =====
-- The loop that takes the next packet from a FEC reader: one round of it.
use roc.Prelude.{
  ℕ, suc, ◌+◌, ◌-◌, ◌*◌, ◌%◌, ◌≤◌, ◌<◌, ◌≡◌, refl, sym, ap, ◌∙◌, ◌⊎◌, inl, inr, Bool, true, false,
  Option, none, some, List, [], ◌∷◌, arith, length, length-append, get_or, Bool-cases, ◌==◌,
}
use roc.Packet.Types.{Packet, Fec, fec}
use roc.Packet.Units.{u16_mod, blknum_le, blknum_diff}
use roc.Packet.SortedQueue
use roc.Packet.SortedQueue.{SortedQueue}
use roc.Rtp.Parser.{Outcome}
use roc.Fec.Writer.Blocks.{map-IsEmpty}
use roc.Fec.ReaderState.{BlockDecoder, Reader}
use roc.Fec.ReaderBlock.{clear_block, next_block, try_repair}
use roc.Fec.Reader.{Round, finished, again, advance, search_block, scan}
use roc.Fec.Reader.Invariant.{IsValid, InBlock}
use roc.Fec.Reader.Keeps.{Keeps}
use roc.Fec.Reader.Fill.{Settled, Drains, head_cases}
use roc.Fec.Reader.FillLoops.{Fills}
use roc.Fec.Reader.Scan.{IsEmpty-get_or, scan_cases}
use roc.Fec.Reader.Blocks.{next_block-Fills}

-- How many blocks ahead of the current one a block is.
abbrev pub dist : ℕ → ℕ → ℕ
dist sbn cur = (sbn + u16_mod - cur) % u16_mod

dist-next :
    (sbn cur : ℕ)
    → sbn < u16_mod
    → cur < u16_mod
    → blknum_le sbn cur ≡ false
    → dist sbn ((cur + 1) % u16_mod) + 1 ≡ dist sbn cur
unfolding blknum_le blknum_diff
dist-next sbn cur h k e = ground arith

module _ (d : BlockDecoder) (memory : Reader d → ℕ → Bool) where
  -- The next packet of the source queue is ahead, and the work up to it is below `n`.
  abbrev pub Ahead : ℕ → Reader d → Type 0
  Ahead n s =
      (p : Packet) × (c : Fec) × (SortedQueue.head s.source_queue ≡ some p)
      × (fec p ≡ some c)
      × (c.source_block_number < u16_mod)
      × (blknum_le c.source_block_number s.cur_sbn ≡ false)
      × (length s.source_queue.list * u16_mod + dist c.source_block_number s.cur_sbn < n)

  -- Rounds of the loop that are enough.
  abbrev pub Waits : ℕ → Reader d → Type 0
  Waits n s = ((s.alive ≡ false) × (0 < n)) ⊎ ((s.source_queue.list ≡ []) × (0 < n)) ⊎ Ahead n s

  abbrev pub Stays : Reader d → Type 0
  Stays s = IsValid d s × (s.started ≡ true) × InBlock d s

  head_nonempty : (q : SortedQueue) (p : Packet) → SortedQueue.head q ≡ some p → 0 < length q.list
  head_nonempty q p h = elim (head_cases q) [
    | inl (e, n) ↦ absurd (cc)
    | inr (x, rest, e, n, _) ↦ omega (arith, ap (length {0}) e, length-append {0} rest (x ∷ []))
  ]

  pub Settled-Waits :
      (n : ℕ) (s : Reader d)
      → Settled d memory s
      → (length s.source_queue.list + 1) * u16_mod ≤ n
      → Waits n s
  Settled-Waits n s (inl e) h = inl (e, omega arith)
  Settled-Waits n s (inr (inl e)) h = inr (inl (e, omega arith))
  Settled-Waits n s (inr (inr (p, c, f, g, b, l))) h = inr (inr (p, c, f, g, b, l, omega arith))

  next-Waits :
      (n : ℕ) (r s : Reader d)
      → IsValid d r
      → Ahead (suc n) r
      → Keeps d (clear_block d memory r) s
      → Drains d memory r s
      → Settled d memory s
      → Waits n s
  unfolding clear_block
  next-Waits n r s v (p, c, f, g, b, l, m) k dr (inl e) =
      let h = head_nonempty r.source_queue p f in inl (e, omega arith)
  next-Waits n r s v (p, c, f, g, b, l, m) k dr (inr (inl e)) =
      let h = head_nonempty r.source_queue p f in inr (inl (e, omega arith))
  next-Waits n r s v (p, c, f, g, b, l, m) k (inr sh) (inr (inr (p', c', f', g', b', l'))) =
      inr (inr (p', c', f', g', b', l', omega arith))
  next-Waits n r s v (p, c, f, g, b, l, m) k (inl q) (inr (inr (p', c', f', g', b', l'))) =
      inr (inr (p', c', f', g', b', l', closer))
    where
      same_packet : p' ≡ p
      same_packet = let h : some p' ≡ some p = sym f' ∙ (ap SortedQueue.head q ∙ f) in cc

      same_part : c' ≡ c
      same_part = let h : some c' ≡ some c = sym g' ∙ (ap fec same_packet ∙ g) in cc

      closer : length s.source_queue.list * u16_mod + dist c'.source_block_number s.cur_sbn < n
      closer =
          rw (same_part, k.same_sbn, q)
            (omega (arith, dist-next c.source_block_number r.cur_sbn b v.sbn_fits l, m))

  IsValid-moved :
      (r : Reader d) (pos : ℕ)
      → IsValid d r
      → r.started ≡ true
      → r.source_block_resized ≡ true
      → IsValid d (record r { next_packet = pos })
  IsValid-moved r pos v st sz = record {
    source_fec = v.source_fec;
    repair_fec = v.repair_fec;
    sbn_fits = v.sbn_fits;
    source_fits = v.source_fits;
    source_slots = v.source_slots;
    repair_slots = v.repair_slots;
    payload_first = v.payload_first;
    source_first = v.source_first;
    unsized = v.unsized;
    no_repair = v.no_repair;
    not_started = λ h. cc;
    at_start = λ h. cc;
  }

  pub filled_sized :
      (r : Reader d) (k : ℕ) (p : Packet)
      → IsValid d r
      → get_or r.source_block k none ≡ some p
      → r.source_block_resized ≡ true
  filled_sized r k p v h = elim (Bool-cases r.source_block_resized) [
    | inl e ↦ e
    | inr e ↦ let g = IsEmpty-get_or r.source_block k (v.unsized e).0 in absurd (cc)
  ]

  -- The next block, where the reader goes on.
  moved_block :
      (r : Reader d) (pos : ℕ)
      → Stays r
      → Fills d memory
          (clear_block d memory r)
          (next_block d memory (record r { next_packet = pos }))
  unfolding next_block clear_block
  moved_block r pos (v, st, ib) = next_block-Fills d memory r v st

  drained_block :
      (r s : Reader d) → Drains d memory (clear_block d memory r) s → Drains d memory r s
  unfolding clear_block
  drained_block r s h = h

  Stays-next :
      (r s : Reader d) → Stays r → IsValid d s → Keeps d (clear_block d memory r) s → Stays s
  unfolding clear_block
  Stays-next r s (v, st, ib) vs k =
      let (_, l) = map-IsEmpty r.source_block in
      let h = k.still_positive (omega (arith, l, ib)) in
      (vs, k.same_started ∙ st, omega (arith, k.same_next, h))

  module _ (parser : Packet → List ℕ → Outcome) (pool : ℕ → Bool) where
    abbrev pub Finishes : Option Packet → Option (Round d memory parser pool) → Type 0
    Finishes pp o = (s : Reader d) × (o ≡ some (finished pp s)) × Stays s

    pub advance-Finishes :
        (p : Packet) (pos : ℕ) (r : Reader d)
        → Stays r
        → r.source_block_resized ≡ true
        → pos ≤ length r.source_block
        → Finishes (some p) (advance d memory parser pool (some p) pos r)
    unfolding advance
    advance-Finishes p pos r (v, st, ib) sz h = elim (Bool-cases (pos == length r.source_block)) [
      | inl e ↦
          let (s, f, vs, k, _, _) = moved_block r pos (v, st, ib) in
          rw (e, f) (s, refl, Stays-next r s (v, st, ib) vs k)
      | inr e ↦
          rw e
            (record r { next_packet = pos }, refl, (IsValid-moved r pos v st sz, st, ground arith))
    ]

    -- The next block is filled.
    abbrev pub MovesOn : Reader d → Reader d → Type 0
    MovesOn v s = (pos : ℕ) × (next_block d memory (record v { next_packet = pos }) ≡ some s)

    -- What a round makes of a reader in a block: a repair panics, or the loop ends, or it goes on
    -- with less work.
    abbrev pub Rounds : ℕ → Reader d → Option (Round d memory parser pool) → Type 0
    Rounds n r o =
        ((try_repair d parser pool r ≡ none) × (o ≡ none))
        ⊎ ((q : Option Packet) × Finishes q o)
        ⊎ ((v : Reader d) × (s : Reader d) × (try_repair d parser pool r ≡ some v)
            × (o ≡ some (again s))
            × Stays s
            × Waits n s
            × MovesOn v s)

    -- The same behind the repair.
    abbrev pub Searches : ℕ → Reader d → Option (Round d memory parser pool) → Type 0
    Searches n v o =
        ((q : Option Packet) × Finishes q o)
        ⊎ ((s : Reader d) × (o ≡ some (again s)) × Stays s × Waits n s × MovesOn v s)

    again_lem :
        (n pos : ℕ) (r : Reader d)
        → Stays r
        → Ahead (suc n) r
        → (pos == length r.source_block) ≡ true
        → Searches n r (advance d memory parser pool none pos r)
    unfolding advance
    again_lem n pos r (v, st, ib) w e =
        let (s, f, vs, k, z, dr) = moved_block r pos (v, st, ib) in
        rw (e, f)
          (inr (
            s,
            refl,
            Stays-next r s (v, st, ib) vs k,
            next-Waits n r s v w k (drained_block r s dr) z,
            (pos, f),
          ))

    pub search_block-Searches :
        (n : ℕ) (r : Reader d)
        → Stays r
        → (r.source_queue.list ≡ []) ⊎ Ahead (suc n) r
        → Searches n r (search_block d memory parser pool r)
    unfolding search_block SortedQueue.size
    search_block-Searches n r (v, st, ib) w =
        elim (scan_cases (length r.source_block - r.next_packet) r.next_packet r.source_block) [
          | inr (p, e, h) ↦
              let t : (scan (length r.source_block - r.next_packet) r.next_packet r.source_block
                    == length r.source_block)
                  ≡ false =
                ground arith in
              rw (t, e)
                (inl (
                  some p,
                  advance-Finishes p
                      (scan (length r.source_block - r.next_packet) r.next_packet r.source_block
                        + 1)
                      r (v, st, ib)
                      (filled_sized r
                        (scan (length r.source_block - r.next_packet) r.next_packet r.source_block)
                        p v e)
                      (omega (arith, h)),
                ))
          | inl e ↦
              let t : (scan (length r.source_block - r.next_packet) r.next_packet r.source_block
                    == length r.source_block)
                  ≡ true =
                ground arith in
              elim w [
                | inl q ↦
                    let z : (length r.source_queue.list == 0) ≡ true = ground arith in
                    rw (t, z) (inl (none, (r, refl, (v, st, ib))))
                | inr a ↦
                    let (p, _, f, _, _, _, _) = a in
                    let hn = head_nonempty r.source_queue p f in
                    let z : (length r.source_queue.list == 0) ≡ false = ground arith in
                    rw (t, z)
                      (again_lem n
                        (scan (length r.source_block - r.next_packet) r.next_packet r.source_block)
                        r (v, st, ib) a t)
              ]
        ]
