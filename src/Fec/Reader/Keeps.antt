-- ===== src/Fec/Reader/Keeps.antt =====
-- That a FEC reader stays valid when its blocks take sizes and packets.
use roc.Prelude.{
  ℕ, ◌≤◌, ◌<◌, ◌≡◌, refl, subst, ◌∙◌, inl, inr, Bool, true, false, arith, length, Bool-cases,
}
use roc.Fec.WriterState.{slots}
use roc.Fec.Writer.Blocks.{length-slots, slots-IsEmpty}
use roc.Fec.ReaderState.{BlockDecoder, Reader}
use roc.Fec.Reader.Invariant.{IsValid, InBlock, Filled, SourceAt, InPlace, IsEmpty-Filled}
use roc.Fec.Reader.Sizes.{Resizes, rejects, no_memory, fits, resized, TakesPayload, with_payload}

module _ (d : BlockDecoder) where
  -- The slots say the same of packets of the size `n`, where the block can take that size.
  slots_of_size :
      (n : ℕ) (r : Reader d)
      → IsValid d r
      → TakesPayload d n r
      → Filled (SourceAt r.cur_sbn (length r.source_block) n) 0 r.source_block
        × Filled
            (InPlace r.cur_sbn (length r.source_block) n)
            (length r.source_block)
            r.repair_block
  slots_of_size n r v (inl e) =
      subst
        (λ m.
          Filled (SourceAt r.cur_sbn (length r.source_block) m) 0 r.source_block
          × Filled (InPlace r.cur_sbn (length r.source_block) m) (length r.source_block)
              r.repair_block)
        e (v.source_slots, v.repair_slots)
  slots_of_size n r v (inr e) =
      let f : r.source_block_resized ≡ false = elim (Bool-cases r.source_block_resized) [
        | inl t ↦ absurd (cc (v.payload_first t))
        | inr f ↦ f
      ] in
      let (s, t) = v.unsized f in
      (
        IsEmpty-Filled (SourceAt r.cur_sbn (length r.source_block) n) 0 r.source_block s,
        IsEmpty-Filled (InPlace r.cur_sbn (length r.source_block) n) (length r.source_block)
            r.repair_block t,
      )

  pub IsValid-relabelled :
      (r : Reader d) (x : Bool) → IsValid d r → IsValid d (record r { alive = x })
  IsValid-relabelled r x v = record {
    source_fec = v.source_fec;
    repair_fec = v.repair_fec;
    sbn_fits = v.sbn_fits;
    source_fits = v.source_fits;
    source_slots = v.source_slots;
    repair_slots = v.repair_slots;
    payload_first = v.payload_first;
    source_first = v.source_first;
    unsized = v.unsized;
    no_repair = v.no_repair;
    not_started = v.not_started;
    at_start = v.at_start;
  }

  IsValid-with_payload :
      (n : ℕ) (r : Reader d) → IsValid d r → TakesPayload d n r → IsValid d (with_payload d n r)
  IsValid-with_payload n r v t =
      let (s, p) = slots_of_size n r v t in
      record {
        source_fec = v.source_fec;
        repair_fec = v.repair_fec;
        sbn_fits = v.sbn_fits;
        source_fits = v.source_fits;
        source_slots = s;
        repair_slots = p;
        payload_first = λ _. refl;
        source_first = v.source_first;
        unsized = v.unsized;
        no_repair = v.no_repair;
        not_started = v.not_started;
        at_start = v.at_start;
      }

  IsValid-sized :
      (r : Reader d)
      → IsValid d r
      → r.payload_resized ≡ true
      → IsValid d (record r { source_block_resized = true })
  IsValid-sized r v p = record {
    source_fec = v.source_fec;
    repair_fec = v.repair_fec;
    sbn_fits = v.sbn_fits;
    source_fits = v.source_fits;
    source_slots = v.source_slots;
    repair_slots = v.repair_slots;
    payload_first = λ _. p;
    source_first = λ _. refl;
    unsized = λ h. cc;
    no_repair = v.no_repair;
    not_started = v.not_started;
    at_start = λ h. cc;
  }

  -- An empty source block takes another length.
  IsValid-slots :
      (k : ℕ) (r : Reader d)
      → IsValid d r
      → r.source_block_resized ≡ false
      → k ≤ d.max_block_length
      → IsValid d (record r { source_block = slots k r.source_block })
  IsValid-slots k r v f m =
      let (s, t) = v.unsized f in
      let e = slots-IsEmpty k r.source_block s in
      let l = length-slots k r.source_block in
      record {
        source_fec = v.source_fec;
        repair_fec = v.repair_fec;
        sbn_fits = v.sbn_fits;
        source_fits = omega arith;
        source_slots =
            IsEmpty-Filled (SourceAt r.cur_sbn (length (slots k r.source_block)) r.payload_size) 0
              (slots k r.source_block) e;
        repair_slots =
            IsEmpty-Filled (InPlace r.cur_sbn (length (slots k r.source_block)) r.payload_size)
              (length (slots k r.source_block)) r.repair_block t;
        payload_first = v.payload_first;
        source_first = v.source_first;
        unsized = λ _. (e, t);
        no_repair = v.no_repair;
        not_started = λ h. (e, t, (v.not_started h).2);
        at_start = v.at_start;
      }

  -- The position and the block stay, and so does the length of a block that a packet has sized.
  pub record Keeps (r s : Reader d) : Type 0 where
    pub same_sbn : s.cur_sbn ≡ r.cur_sbn
    pub same_next : s.next_packet ≡ r.next_packet
    pub same_started : s.started ≡ r.started
    pub same_length : r.source_block_resized ≡ true → length s.source_block ≡ length r.source_block
    pub still_sized : r.source_block_resized ≡ true → s.source_block_resized ≡ true
    pub still_positive : 0 < length r.source_block → 0 < length s.source_block
    pub still_dead : s.alive ≡ true → r.alive ≡ true

  pub Keeps-refl : (r : Reader d) → Keeps r r
  Keeps-refl r = record {
    same_sbn = refl;
    same_next = refl;
    same_started = refl;
    same_length = λ _. refl;
    still_sized = λ h. h;
    still_positive = λ h. h;
    still_dead = λ h. h;
  }

  -- What a size update that goes through has set.
  pub record Sized (n k : ℕ) (s : Reader d) : Type 0 where
    pub has_length : length s.source_block ≡ k
    pub has_payload : s.payload_size ≡ n
    pub is_sized : s.source_block_resized ≡ true

  abbrev pub SameQueues : Reader d → Reader d → Type 0
  SameQueues r s = (s.source_queue ≡ r.source_queue) × (s.repair_queue ≡ r.repair_queue)

  pub Keeps-trans : (r s t : Reader d) → Keeps r s → Keeps s t → Keeps r t
  Keeps-trans r s t a b = record {
    same_sbn = b.same_sbn ∙ a.same_sbn;
    same_next = b.same_next ∙ a.same_next;
    same_started = b.same_started ∙ a.same_started;
    same_length = λ h. b.same_length (a.still_sized h) ∙ a.same_length h;
    still_sized = λ h. b.still_sized (a.still_sized h);
    still_positive = λ h. b.still_positive (a.still_positive h);
    still_dead = λ h. a.still_dead (b.still_dead h);
  }

  -- A reader that is inside a block stays there.
  pub InBlock-Keeps : (r s : Reader d) → IsValid d r → Keeps r s → InBlock d r → InBlock d s
  InBlock-Keeps r s v k h = elim (Bool-cases r.source_block_resized) [
    | inl f ↦ omega (arith, k.same_next, k.same_length f, h)
    | inr f ↦
        omega (arith, k.same_next, v.at_start f, k.still_positive (omega (arith, h, v.at_start f)))
  ]

  pub Resizes-IsValid :
      (n k : ℕ) (r : Reader d) (a : Bool × Reader d)
      → IsValid d r
      → Resizes d n k r a
      → IsValid d a.1 × Keeps r a.1 × SameQueues r a.1 × (a.0 ≡ true → Sized n k a.1)
  Resizes-IsValid n k r a v (rejects x h e) = rw e (
    IsValid-relabelled r x v,
    record {
      same_sbn = refl;
      same_next = refl;
      same_started = refl;
      same_length = λ _. refl;
      still_sized = λ h'. h';
      still_positive = λ h'. h';
      still_dead = h;
    },
    (refl, refl),
    λ h'. cc,
  )
  Resizes-IsValid n k r a v (no_memory t f e) = rw e (
    IsValid-relabelled (with_payload d n r) false (IsValid-with_payload n r v t),
    record {
      same_sbn = refl;
      same_next = refl;
      same_started = refl;
      same_length = λ _. refl;
      still_sized = λ h'. h';
      still_positive = λ h'. h';
      still_dead = λ h'. cc;
    },
    (refl, refl),
    λ h'. cc,
  )
  Resizes-IsValid n k r a v (fits t l e) = rw e (
    IsValid-sized (with_payload d n r) (IsValid-with_payload n r v t) refl,
    record {
      same_sbn = refl;
      same_next = refl;
      same_started = refl;
      same_length = λ _. refl;
      still_sized = λ h'. refl;
      still_positive = λ h'. h';
      still_dead = λ h'. h';
    },
    (refl, refl),
    λ _. record { has_length = l; has_payload = refl; is_sized = refl },
  )
  Resizes-IsValid n k r a v (resized t f z m e) = rw e (
    IsValid-sized (record (with_payload d n r) { source_block = slots k r.source_block })
        (IsValid-slots k (with_payload d n r) (IsValid-with_payload n r v t) f m) refl,
    record {
      same_sbn = refl;
      same_next = refl;
      same_started = refl;
      same_length = λ h'. cc;
      still_sized = λ h'. refl;
      still_positive = λ h'. omega (arith, length-slots k r.source_block);
      still_dead = λ h'. h';
    },
    (refl, refl),
    λ _. record { has_length = length-slots k r.source_block; has_payload = refl; is_sized = refl },
  )

  pub Resizes-repair :
      (n k : ℕ) (r : Reader d) (a : Bool × Reader d)
      → Resizes d n k r a
      → (a.1.repair_block ≡ r.repair_block) × (a.1.repair_block_resized ≡ r.repair_block_resized)
  Resizes-repair n k r a (rejects x h e) = rw e (refl, refl)
  Resizes-repair n k r a (no_memory t f e) = rw e (refl, refl)
  Resizes-repair n k r a (fits t l e) = rw e (refl, refl)
  Resizes-repair n k r a (resized t f z m e) = rw e (refl, refl)
