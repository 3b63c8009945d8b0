-- ===== src/Fec/Reader/RepairSizes.antt =====
-- How the repair block of a FEC reader takes its size from a repair packet.
use roc.Prelude.{
  ℕ, ◌+◌, ◌-◌, ◌≤◌, ◌<◌, ◌≡◌, refl, sym, ap, subst, ◌∙◌, inl, inr, Bool, true, false, Option, some,
  arith, length, Bool-cases, ◌==◌, if◌then◌else◌, ltb, ◌>>=◌,
}
use roc.Packet.Types.{Packet, Fec, slice_size, fec}
use roc.Packet.Units.{u16_mod, blknum_lt, blknum_le}
use roc.Fec.WriterState.{slots}
use roc.Fec.Writer.Blocks.{length-slots, slots-IsEmpty}
use roc.Fec.ReaderState.{
  BlockDecoder, Reader, update_repair_block_size, prepare_repair_packet, process_repair_packet,
}
use roc.Fec.ReaderBlock.{store_repair, take_repair}
use roc.Fec.Reader.Invariant.{IsValid, InPlace, IsEmpty-Filled}
use roc.Fec.Reader.Sizes.{
  TakesTotal, prepare_repair_packet-Prepares, prepare_repair_packet_valid, repair_in_range,
}
use roc.Fec.Reader.Keeps.{
  Keeps, SameQueues, Sized, Keeps-refl, Resizes-IsValid, Resizes-repair, IsValid-relabelled,
}
use roc.Fec.Reader.Places.{Goes, Goes-trans, store_repair-Goes, blknum_eq}

module _ (d : BlockDecoder) where
  abbrev with_slots : ℕ → Reader d → Reader d
  with_slots n r = record r { repair_block = slots n r.repair_block; repair_block_resized = true }

  IsValid-repair_sized :
      (r : Reader d)
      → IsValid d r
      → r.source_block_resized ≡ true
      → IsValid d (record r { repair_block_resized = true })
  IsValid-repair_sized r v sz = record {
    source_fec = v.source_fec;
    repair_fec = v.repair_fec;
    sbn_fits = v.sbn_fits;
    source_fits = v.source_fits;
    source_slots = v.source_slots;
    repair_slots = v.repair_slots;
    payload_first = v.payload_first;
    source_first = λ _. sz;
    unsized = v.unsized;
    no_repair = λ h. cc;
    not_started = v.not_started;
    at_start = v.at_start;
  }

  IsValid-with_slots :
      (n : ℕ) (r : Reader d)
      → IsValid d r
      → r.source_block_resized ≡ true
      → r.repair_block_resized ≡ false
      → IsValid d (with_slots n r)
  IsValid-with_slots n r v sz f =
      let e = slots-IsEmpty n r.repair_block (v.no_repair f) in
      record {
        source_fec = v.source_fec;
        repair_fec = v.repair_fec;
        sbn_fits = v.sbn_fits;
        source_fits = v.source_fits;
        source_slots = v.source_slots;
        repair_slots =
            IsEmpty-Filled (InPlace r.cur_sbn (length r.source_block) r.payload_size)
              (length r.source_block) (slots n r.repair_block) e;
        payload_first = v.payload_first;
        source_first = λ _. sz;
        unsized = λ h. cc;
        no_repair = λ h. cc;
        not_started = λ h. let (a, b, c) = v.not_started h in (a, e, c);
        at_start = v.at_start;
      }

  Keeps-repair :
      (r s : Reader d)
      → s ≡ record r {
        repair_block = s.repair_block;
        repair_block_resized = s.repair_block_resized;
        alive = s.alive;
      }
      → (s.alive ≡ true → r.alive ≡ true)
      → Keeps d r s
  Keeps-repair r s e h = record {
    same_sbn = ap (λ (t : Reader d). t.cur_sbn) e;
    same_next = ap (λ (t : Reader d). t.next_packet) e;
    same_started = ap (λ (t : Reader d). t.started) e;
    same_length = λ _. ap (λ (t : Reader d). length t.source_block) e;
    still_sized = λ k. ap (λ (t : Reader d). t.source_block_resized) e ∙ k;
    still_positive =
        λ k. subst (λ (n : ℕ). 0 < n) (sym (ap (λ (t : Reader d). length t.source_block) e)) k;
    still_dead = h;
  }

  -- What the update for a block of `b` packets makes of a reader.
  abbrev UpdatesRepair : ℕ → Reader d → Option (Bool × Reader d) → Type 0
  UpdatesRepair b r o =
      (a : Bool × Reader d) × (o ≡ some a)
      × IsValid d a.1
      × Keeps d r a.1
      × SameQueues d r a.1
      × (a.0 ≡ true
          → (length a.1.source_block + length a.1.repair_block ≡ b)
            × (a.1.repair_block_resized ≡ true)
            × (a.1.source_block ≡ r.source_block)
            × (a.1.payload_size ≡ r.payload_size)
            × (a.1.source_block_resized ≡ r.source_block_resized))

  module _ (memory : Reader d → ℕ → Bool) where
    update_repair_block_size-UpdatesRepair :
        (b : ℕ) (r : Reader d)
        → IsValid d r
        → r.source_block_resized ≡ true
        → length r.source_block < b
        → (r.repair_block_resized ≡ true → b ≡ length r.source_block + length r.repair_block)
        → UpdatesRepair b r (update_repair_block_size d memory b r)
    unfolding update_repair_block_size
    update_repair_block_size-UpdatesRepair b r v sz hb hr =
        elim (Bool-cases (b == length r.source_block + length r.repair_block)) [
          | inl e ↦ rw e (
            (true, record r { repair_block_resized = true }),
            refl,
            IsValid-repair_sized r v sz,
            Keeps-repair r (record r { repair_block_resized = true }) refl (λ h. h),
            (refl, refl),
            λ _. (ground arith, refl, refl, refl, refl),
          )
          | inr e ↦
              let t : ltb (length r.source_block) b ≡ true = ground arith in
              let n = b - length r.source_block in
              rw (e, t)
                (elim (Bool-cases (memory r n)) [
                  | inr m ↦ rw m (
                    (false, record r { alive = false }),
                    refl,
                    IsValid-relabelled d r false v,
                    Keeps-repair r (record r { alive = false }) refl (λ h. cc),
                    (refl, refl),
                    λ h. cc,
                  )
                  | inl m ↦ rw m (
                    (true, with_slots n r),
                    refl,
                    IsValid-with_slots n r v sz (fresh e),
                    Keeps-repair r (with_slots n r) refl (λ h. h),
                    (refl, refl),
                    λ _. (omega (arith, length-slots n r.repair_block), refl, refl, refl, refl),
                  )
                ])
        ]
      where
        fresh :
            (b == length r.source_block + length r.repair_block) ≡ false
            → r.repair_block_resized ≡ false
        fresh e = elim (Bool-cases r.repair_block_resized) [
          | inr f ↦ f
          | inl f ↦ absurd (ground (arith, hr f))
        ]

    -- Behind the checks of a repair packet that names the size of its block.
    updated :
        (c : Fec) (p : Packet) (r : Reader d)
        → IsValid d r
        → r.started ≡ true
        → fec p ≡ some c
        → c.source_block_number ≡ r.cur_sbn
        → c.source_block_length ≤ c.encoding_symbol_id
        → c.encoding_symbol_id < c.block_length
        → (r.repair_block_resized ≡ true
            → c.block_length ≡ length r.source_block + length r.repair_block)
        → Sized d (slice_size c.payload) c.source_block_length r
        → Goes d r (
            update_repair_block_size d memory c.block_length r >>= λ a.
            if a.0 then store_repair d memory c p a.1 else some a.1)
    updated c p r v st e b h1 h2 hr z =
        let (a, f, v', k, q, h) =
          update_repair_block_size-UpdatesRepair c.block_length r v z.is_sized
            (omega (arith, z.has_length)) hr in
        rw f (elim (Bool-cases a.0) [
          | inr t ↦ rw t (a.1, refl, v', k, q)
          | inl t ↦
              let (tot, rs, sb, ps, sz) = h t in
              rw t (
                Goes-trans d r a.1 (store_repair d memory c p a.1) k q (
                  store_repair-Goes d memory c p a.1 v' (k.same_started ∙ st) e (b ∙ sym k.same_sbn)
                    h1 (omega (arith, tot, h2)) rs
                    (record {
                      has_length = ap (length {0}) sb ∙ z.has_length;
                      has_payload = ps ∙ z.has_payload;
                      is_sized = sz ∙ z.is_sized;
                    })))
        ])

    same_total :
        (b : ℕ) (r s : Reader d)
        → IsValid d r
        → Keeps d r s
        → s.repair_block ≡ r.repair_block
        → s.repair_block_resized ≡ r.repair_block_resized
        → TakesTotal d memory b r
        → s.repair_block_resized ≡ true
        → b ≡ length s.source_block + length s.repair_block
    same_total b r s v k rb rr (inl e) f =
        omega (arith, e, k.same_length (v.source_first (sym rr ∙ f)), ap (length {0}) rb)
    same_total b r s v k rb rr (inr (g, m)) f = absurd cc

    pub take_repair-Goes :
        (c : Fec) (p : Packet) (r : Reader d)
        → IsValid d r
        → r.started ≡ true
        → fec p ≡ some c
        → c.source_block_number < u16_mod
        → 0 < c.block_length
        → blknum_le c.source_block_number r.cur_sbn ≡ true
        → Goes d r (take_repair d memory p c r)
    unfolding take_repair process_repair_packet
    take_repair-Goes c p r v st e b pos h =
        elim (Bool-cases (blknum_lt c.source_block_number r.cur_sbn)) [
          | inl l ↦ rw l (r, refl, v, Keeps-refl d r, (refl, refl))
          | inr l ↦
              let same = blknum_eq c.source_block_number r.cur_sbn b v.sbn_fits h l in
              let t : (c.source_block_number == r.cur_sbn) ≡ true = ground arith in
              rw (l, t) (prepared same)
        ]
      where
        prepared :
            c.source_block_number ≡ r.cur_sbn
            → Goes d r (
                (if (prepare_repair_packet d memory c r).0
                  then update_repair_block_size d memory c.block_length
                      (prepare_repair_packet d memory c r).1
                  else some (prepare_repair_packet d memory c r))
                >>= λ a. if a.0 then store_repair d memory c p a.1 else some a.1)
        prepared same =
            let a = prepare_repair_packet d memory c r in
            let (tot, rz) = prepare_repair_packet-Prepares d memory c r in
            let (v', k, q, z) =
              Resizes-IsValid d (slice_size c.payload) c.source_block_length r a v rz in
            let (rb, rr) = Resizes-repair d (slice_size c.payload) c.source_block_length r a rz in
            elim (Bool-cases a.0) [
              | inr t ↦ rw t (a.1, refl, v', k, q)
              | inl t ↦
                  let (h1, h2) =
                    repair_in_range c (prepare_repair_packet_valid d memory c r t) pos in
                  rw t (
                    Goes-trans d r a.1
                      (update_repair_block_size d memory c.block_length a.1 >>= λ x.
                        if x.0 then store_repair d memory c p x.1 else some x.1)
                      k q
                      (updated c p a.1 v' (k.same_started ∙ st) e (same ∙ sym k.same_sbn) h1 h2
                        (same_total c.block_length r a.1 v k rb rr (tot t)) (z t)))
            ]
