-- ===== src/Fec/Reader/First.antt =====
-- How a FEC reader starts, and what `read_` does behind `fetch_packets_`.
use roc.Prelude.{
  ℕ, zero, suc, ◌<◌, ◌≡◌, refl, ap, subst, ◌∙◌, ◌⊎◌, inl, inr, Bool, true, false, Option, none,
  some, List, [], ◌∷◌, ◌++◌, arith, length, length-append, Bool-cases, All, All-left, All-right,
  not, if◌then◌else◌, ◌>>=◌,
}
use roc.Packet.Types.{Packet, Fec, fec, slice_size}
use roc.Packet.Units.{u16_mod, blknum_lt}
use roc.Packet.SortedQueue
use roc.Packet.SortedQueue.{SortedQueue}
use roc.Fec.ReaderState.{BlockDecoder, Reader, process_source_packet}
use roc.Fec.Reader.{
  drop_repair_loop, drop_repair_packets_from_prev_blocks, drop_head, get_first_packet,
}
use roc.Fec.Reader.Invariant.{IsValid, InBlock, IsFec, IsRepair, SourceAt, InPlace, IsEmpty-Filled}
use roc.Fec.Reader.Sizes.{
  process_source_packet-Resizes, process_source_packet_valid, source_in_range,
}
use roc.Fec.Reader.Keeps.{Resizes-IsValid}
use roc.Fec.Reader.Fill.{head_cases, IsValid-with_repair, with_repair}

module _ (d : BlockDecoder) where
  drop_step :
      (fuel : ℕ) (r : Reader d) (p : Packet) (c : Fec) (b : Bool)
      → SortedQueue.head r.repair_queue ≡ some p
      → fec p ≡ some c
      → blknum_lt c.source_block_number r.cur_sbn ≡ b
      → drop_repair_loop d (suc fuel) r
        ≡ (if b then drop_repair_loop d fuel (drop_head d r) else some r)
  unfolding drop_repair_loop
  drop_step fuel r p c true h e l = rw (h, drop_repair_loop, e, ◌>>=◌, l) refl
  drop_step fuel r p c false h e l = rw (h, drop_repair_loop, e, ◌>>=◌, l) refl

  drop_empty :
      (fuel : ℕ) (r : Reader d)
      → SortedQueue.head r.repair_queue ≡ none
      → drop_repair_loop d (suc fuel) r ≡ some r
  unfolding drop_repair_loop
  drop_empty fuel r h = rw (h, drop_repair_loop) refl

  abbrev Drops : Reader d → Option (Reader d) → Type 0
  Drops r o = (q : SortedQueue) × (o ≡ some (with_repair d q r)) × All IsRepair q.list

  drop_repair_loop-Drops :
      (fuel : ℕ) (r : Reader d)
      → length r.repair_queue.list < fuel
      → All IsRepair r.repair_queue.list
      → Drops r (drop_repair_loop d fuel r)
  drop_repair_loop-Drops zero r h v = absurd (omega arith)
  drop_repair_loop-Drops (suc fuel) r h v = elim (head_cases r.repair_queue) [
    | inl (e, n) ↦ rw (drop_empty fuel r n) (r.repair_queue, refl, v)
    | inr (p, rest, e, n, q) ↦ first p rest e n q (λ s. drop_repair_loop-Drops fuel s)
  ]
    where
      first :
          (p : Packet) (rest : List Packet)
          → r.repair_queue.list ≡ rest ++ (p ∷ [])
          → SortedQueue.head r.repair_queue ≡ some p
          → (SortedQueue.read r.repair_queue).1 ≡ record r.repair_queue { list = rest }
          → ((s : Reader d)
              → length s.repair_queue.list < fuel
              → All IsRepair s.repair_queue.list
              → Drops s (drop_repair_loop d fuel s))
          → Drops r (drop_repair_loop d (suc fuel) r)
      first p rest e n q ih =
          let all = subst (All IsRepair) e v in
          let (c, f, b, pos) = (All-right IsRepair rest (p ∷ []) all).0 in
          let u = with_repair d (record r.repair_queue { list = rest }) r in
          let len : length rest < fuel =
            omega (arith, ap (length {0}) e, length-append {0} rest (p ∷ []), h) in
          elim (Bool-cases (blknum_lt c.source_block_number r.cur_sbn)) [
            | inr l ↦ rw (drop_step fuel r p c false n f l) (r.repair_queue, refl, v)
            | inl l ↦
                let (t, g, a) = ih u len (All-left IsRepair rest (p ∷ []) all) in
                rw
                  (
                    drop_step fuel r p c true n f l,
                    ap (λ x. drop_repair_loop d fuel (with_repair d x r)) q ∙ g,
                  )
                  (t, refl, a)
          ]

  -- Before it starts, a reader may change its block number.
  IsValid-with_sbn :
      (r : Reader d) (n : ℕ)
      → IsValid d r
      → r.started ≡ false
      → n < u16_mod
      → IsValid d (record r { cur_sbn = n })
  IsValid-with_sbn r n v st h =
      let (e, f, g) = v.not_started st in
      record {
        source_fec = v.source_fec;
        repair_fec = v.repair_fec;
        sbn_fits = h;
        source_fits = v.source_fits;
        source_slots =
            IsEmpty-Filled (SourceAt n (length r.source_block) r.payload_size) 0 r.source_block e;
        repair_slots =
            IsEmpty-Filled (InPlace n (length r.source_block) r.payload_size)
              (length r.source_block) r.repair_block f;
        payload_first = v.payload_first;
        source_first = v.source_first;
        unsized = v.unsized;
        no_repair = v.no_repair;
        not_started = λ _. (e, f, g);
        at_start = v.at_start;
      }

  pub IsValid-start : (r : Reader d) → IsValid d r → IsValid d (record r { started = true })
  IsValid-start r v = record {
    source_fec = v.source_fec;
    repair_fec = v.repair_fec;
    sbn_fits = v.sbn_fits;
    source_fits = v.source_fits;
    source_slots = v.source_slots;
    repair_slots = v.repair_slots;
    payload_first = v.payload_first;
    source_first = v.source_first;
    unsized = v.unsized;
    no_repair = v.no_repair;
    not_started = λ h. cc;
    at_start = v.at_start;
  }

  -- Valid, and inside a block once it has started.
  abbrev pub IsReady : Reader d → Type 0
  IsReady r = IsValid d r × (r.started ≡ true → InBlock d r)

  module _ (memory : Reader d → ℕ → Bool) where
    -- The first packet, if there is one, has a FEC part and has sized the block.
    abbrev pub Firsts : Reader d → Option (Option Packet × Reader d) → Type 0
    Firsts r o =
        (pp : Option Packet) × (s : Reader d) × (o ≡ some (pp, s))
        × IsValid d s
        × (s.started ≡ false)
        × (s.source_queue ≡ r.source_queue)
        × ((pp ≡ none)
            ⊎ ((p : Packet) × (c : Fec) × (pp ≡ some p)
                × (fec p ≡ some c)
                × (0 < length s.source_block)))

    pub get_first_packet-Firsts :
        (r : Reader d) → IsValid d r → r.started ≡ false → Firsts r (get_first_packet d memory r)
    unfolding get_first_packet drop_repair_packets_from_prev_blocks SortedQueue.size
    get_first_packet-Firsts r v st = elim (head_cases r.source_queue) [
      | inl (e, n) ↦ rw (n, get_first_packet) (none, r, refl, v, st, refl, inl refl)
      | inr (p, rest, e, n, _) ↦
          let (c, f, b) = (All-right IsFec rest (p ∷ []) (subst (All IsFec) e v.source_fec)).0 in
          rw (n, get_first_packet, f, ◌>>=◌) (processed p c f b)
    ]
      where
        processed :
            (p : Packet) (c : Fec)
            → fec p ≡ some c
            → c.source_block_number < u16_mod
            → Firsts r (
                let a : Bool × Reader d = process_source_packet d memory c r in
                if not a.0
                then some (none, a.1)
                else (drop_repair_packets_from_prev_blocks d
                      (record a.1 { cur_sbn = c.source_block_number })
                    >>= λ s. some (some p, s)))
        processed p c f b =
            let a = process_source_packet d memory c r in
            let (va, k, (qs, qr), z) =
              Resizes-IsValid d (slice_size c.payload) c.source_block_length r a v
                (process_source_packet-Resizes d memory c r) in
            elim (Bool-cases a.0) [
              | inr t ↦ rw t (none, a.1, refl, va, k.same_started ∙ st, qs, inl refl)
              | inl t ↦
                  let u = record a.1 { cur_sbn = c.source_block_number } in
                  let vu = IsValid-with_sbn a.1 c.source_block_number va (k.same_started ∙ st) b in
                  let (q, g, h) =
                    drop_repair_loop-Drops (suc (length a.1.repair_queue.list)) u (omega arith)
                      vu.repair_fec in
                  let r1 = source_in_range c (process_source_packet_valid d memory c r t) in
                  rw (t, g)
                    (
                      some p,
                      with_repair d q u,
                      refl,
                      IsValid-with_repair d q u vu h,
                      k.same_started ∙ st,
                      qs,
                      inr (p, c, refl, f, omega (arith, (z t).has_length, r1)),
                    )
            ]
