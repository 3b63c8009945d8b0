-- ===== src/Fec/Reader/Restoring.antt =====
-- What the repair of a block makes of a FEC reader.
use roc.Prelude.{
  ℕ, ◌≡◌, refl, sym, subst, ◌∙◌, inl, inr, Bool, true, false, Option, some, List, arith, length,
  Bool-cases, not, ◌||◌, ◌>>=◌, >>=-some, if◌then◌else◌,
}
use roc.Packet.Types.{Packet}
use roc.Rtp.Parser.{Outcome}
use roc.Fec.ReaderState.{BlockDecoder, Reader}
use roc.Fec.ReaderBlock.{set_packets, repair_packets, repair_block_packets, try_repair}
use roc.Fec.Reader.Invariant.{IsValid, SourceAt, InPlace, Filled}
use roc.Fec.Reader.Keeps.{Keeps, Keeps-refl}
use roc.Fec.Reader.Repaired.{repair_packets-Restores}

module _ (parser : Packet → List ℕ → Outcome) where
  module _ (d : BlockDecoder) (pool : ℕ → Bool) where
    with_block :
        (r : Reader d) (l : List (Option Packet)) (s : d.State)
        → IsValid d r
        → r.started ≡ true
        → r.source_block_resized ≡ true
        → Filled (SourceAt r.cur_sbn (length r.source_block) r.payload_size) 0 l
        → length l ≡ length r.source_block
        → IsValid d (record r { source_block = l; decoder = s; can_repair = false })
    with_block r l s v st sz f e = record {
      source_fec = v.source_fec;
      repair_fec = v.repair_fec;
      sbn_fits = v.sbn_fits;
      source_fits = omega (arith, e, v.source_fits);
      source_slots = subst (λ n. Filled (SourceAt r.cur_sbn n r.payload_size) 0 l) (sym e) f;
      repair_slots =
          subst (λ n. Filled (InPlace r.cur_sbn n r.payload_size) n r.repair_block) (sym e)
            v.repair_slots;
      payload_first = v.payload_first;
      source_first = v.source_first;
      unsized = λ h. cc;
      no_repair = v.no_repair;
      not_started = λ h. cc;
      at_start = v.at_start;
    }

    -- What a repair that does not panic makes of a reader.
    abbrev pub Repairs : Reader d → Reader d → Type 0
    Repairs r s =
        IsValid d s
        × Keeps d r s
        × (s.source_queue ≡ r.source_queue)
        × (length s.source_block ≡ length r.source_block)

    repair_block_packets-Repairs :
        (r s : Reader d) (t : d.State)
        → IsValid d r
        → r.started ≡ true
        → r.source_block_resized ≡ true
        → repair_block_packets d parser pool r t ≡ some s
        → Repairs r s
    unfolding repair_block_packets
    repair_block_packets-Repairs r s t v st sz h =
        let (s1, _, h1) =
          >>=-some (set_packets d 0 r.source_block t)
            (λ s1. set_packets d (length r.source_block) r.repair_block s1 >>= λ s2.
              repair_packets d parser pool 0 r.source_block s2 >>= (tail r))
            s h in
        let (s2, _, h2) =
          >>=-some (set_packets d (length r.source_block) r.repair_block s1)
            (λ s2. repair_packets d parser pool 0 r.source_block s2 >>= (tail r)) s h1 in
        let (a, h3, h4) =
          >>=-some (repair_packets d parser pool 0 r.source_block s2) (tail r) s h2 in
        let (s4, _, h5) =
          >>=-some (d.finish a.1)
            (λ x. some (record r { source_block = a.0; decoder = x; can_repair = false })) s h4 in
        let (f, l) =
          repair_packets-Restores parser d pool
            (SourceAt r.cur_sbn (length r.source_block) r.payload_size) (λ i p x. inl x) 0
            r.source_block s2 a v.source_slots h3 in
        let e : record r { source_block = a.0; decoder = s4; can_repair = false } ≡ s = cc in
        subst (Repairs r) e (
          with_block r a.0 s4 v st sz f l,
          record {
            same_sbn = refl;
            same_next = refl;
            same_started = refl;
            same_length = λ _. l;
            still_sized = λ x. x;
            still_positive = λ x. omega (arith, l, x);
            still_dead = λ x. x;
          },
          refl,
          l,
        )
      where
        tail : Reader d → List (Option Packet) × d.State → Option (Reader d)
        tail r a = d.finish a.1 >>= λ x.
            some (record r { source_block = a.0; decoder = x; can_repair = false })

    shut_down :
        (r : Reader d) (t : d.State)
        → IsValid d r
        → Repairs r (record r { decoder = t; alive = false })
    shut_down r t v = (
      record {
        source_fec = v.source_fec;
        repair_fec = v.repair_fec;
        sbn_fits = v.sbn_fits;
        source_fits = v.source_fits;
        source_slots = v.source_slots;
        repair_slots = v.repair_slots;
        payload_first = v.payload_first;
        source_first = v.source_first;
        unsized = v.unsized;
        no_repair = v.no_repair;
        not_started = v.not_started;
        at_start = v.at_start;
      },
      record {
        same_sbn = refl;
        same_next = refl;
        same_started = refl;
        same_length = λ _. refl;
        still_sized = λ x. x;
        still_positive = λ x. x;
        still_dead = λ h. cc;
      },
      refl,
      refl,
    )

    pub try_repair-Repairs :
        (r s : Reader d)
        → IsValid d r
        → r.started ≡ true
        → try_repair d parser pool r ≡ some s
        → Repairs r s
    unfolding try_repair
    try_repair-Repairs r s v st h = elim (Bool-cases r.can_repair) [
      | inr c ↦ same (simp c at h)
      | inl c ↦
          elim (Bool-cases
            (not r.source_block_resized || not r.repair_block_resized || not r.payload_resized)) [
              | inl e ↦ same (simp (c, e) at h)
              | inr e ↦
                  let g : (d.begin (length r.source_block) (length r.repair_block) r.payload_size
                          r.decoder
                        >>= rest)
                      ≡ try_repair d parser pool r =
                    rw (c, e) refl in
                  begun (ground arith) (g ∙ h)
            ]
    ]
      where
        same : some r ≡ some s → Repairs r s
        same h = let e : r ≡ s = cc in subst (Repairs r) e (v, Keeps-refl d r, refl, refl)

        rest : Bool × d.State → Option (Reader d)
        rest b =
            if b.0
            then repair_block_packets d parser pool r b.1
            else some (record r { decoder = b.1; alive = false })

        begun :
            r.source_block_resized ≡ true
            → (d.begin (length r.source_block) (length r.repair_block) r.payload_size r.decoder
                >>= rest)
              ≡ some s
            → Repairs r s
        begun sz g =
            let (b, _, g1) =
              >>=-some
                (d.begin (length r.source_block) (length r.repair_block) r.payload_size r.decoder)
                rest s g in
            elim (Bool-cases b.0) [
              | inl t ↦ repair_block_packets-Repairs r s b.1 v st sz (rw t at g1)
              | inr t ↦ ended b.1 (rw t at g1)
            ]
          where
            ended :
                (t : d.State)
                → some (record r { decoder = t; alive = false }) ≡ some s
                → Repairs r s
            ended t h =
                let e : record r { decoder = t; alive = false } ≡ s = cc in
                subst (Repairs r) e (shut_down r t v)
