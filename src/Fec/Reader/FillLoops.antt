-- ===== src/Fec/Reader/FillLoops.antt =====
-- The loops that fill a block end without a panic, and where they stop.
use roc.Prelude.{
  ℕ, zero, suc, ◌<◌, ◌≡◌, refl, ap, subst, ◌∙◌, inl, inr, Bool, true, false, Option, some, List, [],
  ◌∷◌, ◌++◌, arith, length, length-append, All, All-left, All-right, Bool-cases, ◌>>=◌,
}
use roc.Packet.Types.{Packet}
use roc.Packet.Units.{blknum_le}
use roc.Packet.SortedQueue
use roc.Packet.SortedQueue.{SortedQueue}
use roc.Fec.ReaderState.{BlockDecoder, Reader}
use roc.Fec.ReaderBlock.{
  take_source, take_repair, fill_source_loop, fill_repair_loop, fill_source_block,
  fill_repair_block, fill_block,
}
use roc.Fec.Reader.Invariant.{IsValid, IsFec, IsRepair}
use roc.Fec.Reader.Keeps.{Keeps, Keeps-refl, Keeps-trans, IsValid-relabelled}
use roc.Fec.Reader.Places.{take_source-Goes}
use roc.Fec.Reader.RepairSizes.{take_repair-Goes}
use roc.Fec.Reader.Fill.{
  head_cases, admit_cases, Settled, Drains, FillsSource, Keeps-queues, Keeps-dead, source_step,
  source_stop, source_empty, repair_step, repair_stop, repair_empty, IsValid-with_source,
  IsValid-with_repair,
}

module _ (d : BlockDecoder) (memory : Reader d → ℕ → Bool) where
  drained :
      {n : ℕ} (s w : Reader d)
      → length s.source_queue.list < n
      → Drains d memory s w
      → length w.source_queue.list < n
  drained s w h (inl e) = omega (arith, ap (λ (x : SortedQueue). length x.list) e, h)
  drained s w h (inr l) = omega arith

  Drains-kept :
      (r s t : Reader d)
      → Drains d memory r s
      → t.source_queue ≡ s.source_queue
      → Drains d memory r t
  Drains-kept r s t (inl e) q = inl (q ∙ e)
  Drains-kept r s t (inr l) q = inr (omega (arith, ap (λ (x : SortedQueue). length x.list) q, l))

  pub fill_source_loop-FillsSource :
      (fuel : ℕ) (r : Reader d)
      → length r.source_queue.list < fuel
      → IsValid d r
      → r.started ≡ true
      → FillsSource d memory r (fill_source_loop d memory fuel r)
  fill_source_loop-FillsSource zero r h v st = absurd (omega arith)
  fill_source_loop-FillsSource (suc fuel) r h v st = elim (head_cases r.source_queue) [
    | inl (e, n) ↦
        rw (source_empty d memory fuel r n)
          (r, refl, v, Keeps-refl d r, inr (inl e), inl refl, refl)
    | inr (p, rest, e, n, q) ↦ first p rest e n q (λ s. fill_source_loop-FillsSource fuel s)
  ]
    where
      first :
          (p : Packet) (rest : List Packet)
          → r.source_queue.list ≡ rest ++ (p ∷ [])
          → SortedQueue.head r.source_queue ≡ some p
          → (SortedQueue.read r.source_queue).1 ≡ record r.source_queue { list = rest }
          → ((s : Reader d)
              → length s.source_queue.list < fuel
              → IsValid d s
              → s.started ≡ true
              → FillsSource d memory s (fill_source_loop d memory fuel s))
          → FillsSource d memory r (fill_source_loop d memory (suc fuel) r)
      first p rest e n q ih =
          let all = subst (All IsFec) e v.source_fec in
          let (c, f, b) = (All-right IsFec rest (p ∷ []) all).0 in
          let u = record r { source_queue = record r.source_queue { list = rest } } in
          let len : length r.source_queue.list ≡ suc (length rest) =
            omega (arith, ap (length {0}) e, length-append {0} rest (p ∷ [])) in
          elim (admit_cases d memory c r) [
            | inr (inl (a, g)) ↦
                rw (source_stop d memory fuel r r p c n f a)
                  (r, refl, v, Keeps-refl d r, inr (inr (p, c, n, f, b, g)), inl refl, refl)
            | inr (inr a) ↦
                rw (source_stop d memory fuel r (record r { alive = false }) p c n f a) (
                  record r { alive = false },
                  refl,
                  IsValid-relabelled d r false v,
                  Keeps-dead d r,
                  inl refl,
                  inl refl,
                  refl,
                )
            | inl (a, g) ↦
                let v' =
                  IsValid-with_source d (record r.source_queue { list = rest }) r v
                    (All-left IsFec rest (p ∷ []) all) in
                let (s, t, vs, ks, (qs, qr)) = take_source-Goes d memory c p u v' st f b g in
                let (w, o, vw, kw, z, l, m) =
                  ih s (omega (arith, ap (λ (x : SortedQueue). length x.list) qs, len, h)) vs
                    (ks.same_started ∙ st) in
                rw
                  (
                    source_step d memory fuel r s p c n f a
                        (ap (λ x. take_source d memory p c (record r { source_queue = x })) q ∙ t),
                    o,
                  )
                  (
                    w,
                    refl,
                    vw,
                    Keeps-trans d r s w
                        (Keeps-trans d r u s
                          (Keeps-queues d r (record r.source_queue { list = rest }) r.repair_queue)
                          ks)
                        kw,
                    z,
                    inr (
                        drained s w (omega (arith, ap (λ (x : SortedQueue). length x.list) qs, len))
                          l),
                    m ∙ qr,
                  )
          ]

  abbrev FillsRepair : Reader d → Option (Reader d) → Type 0
  FillsRepair r o =
      (s : Reader d) × (o ≡ some s) × IsValid d s × Keeps d r s × (s.source_queue ≡ r.source_queue)

  fill_repair_loop-FillsRepair :
      (fuel : ℕ) (r : Reader d)
      → length r.repair_queue.list < fuel
      → IsValid d r
      → r.started ≡ true
      → FillsRepair r (fill_repair_loop d memory fuel r)
  fill_repair_loop-FillsRepair zero r h v st = absurd (omega arith)
  fill_repair_loop-FillsRepair (suc fuel) r h v st = elim (head_cases r.repair_queue) [
    | inl (e, n) ↦ rw (repair_empty d memory fuel r n) (r, refl, v, Keeps-refl d r, refl)
    | inr (p, rest, e, n, q) ↦ first p rest e n q (λ s. fill_repair_loop-FillsRepair fuel s)
  ]
    where
      first :
          (p : Packet) (rest : List Packet)
          → r.repair_queue.list ≡ rest ++ (p ∷ [])
          → SortedQueue.head r.repair_queue ≡ some p
          → (SortedQueue.read r.repair_queue).1 ≡ record r.repair_queue { list = rest }
          → ((s : Reader d)
              → length s.repair_queue.list < fuel
              → IsValid d s
              → s.started ≡ true
              → FillsRepair s (fill_repair_loop d memory fuel s))
          → FillsRepair r (fill_repair_loop d memory (suc fuel) r)
      first p rest e n q ih =
          let all = subst (All IsRepair) e v.repair_fec in
          let (c, f, b, pos) = (All-right IsRepair rest (p ∷ []) all).0 in
          let u = record r { repair_queue = record r.repair_queue { list = rest } } in
          let len : length r.repair_queue.list ≡ suc (length rest) =
            omega (arith, ap (length {0}) e, length-append {0} rest (p ∷ [])) in
          elim (admit_cases d memory c r) [
            | inr (inl (a, g)) ↦
                rw (repair_stop d memory fuel r r p c n f a) (r, refl, v, Keeps-refl d r, refl)
            | inr (inr a) ↦
                rw (repair_stop d memory fuel r (record r { alive = false }) p c n f a) (
                  record r { alive = false },
                  refl,
                  IsValid-relabelled d r false v,
                  Keeps-dead d r,
                  refl,
                )
            | inl (a, g) ↦
                let v' =
                  IsValid-with_repair d (record r.repair_queue { list = rest }) r v
                    (All-left IsRepair rest (p ∷ []) all) in
                let (s, t, vs, ks, (qs, qr)) = take_repair-Goes d memory c p u v' st f b pos g in
                let (w, o, vw, kw, m) =
                  ih s (omega (arith, ap (λ (x : SortedQueue). length x.list) qr, len, h)) vs
                    (ks.same_started ∙ st) in
                rw
                  (
                    repair_step d memory fuel r s p c n f a
                        (ap (λ x. take_repair d memory p c (record r { repair_queue = x })) q ∙ t),
                    o,
                  )
                  (
                    w,
                    refl,
                    vw,
                    Keeps-trans d r s w
                        (Keeps-trans d r u s
                          (Keeps-queues d r r.source_queue (record r.repair_queue { list = rest }))
                          ks)
                        kw,
                    m ∙ qs,
                  )
          ]

  -- What filling a block makes of a reader: it is valid, inside the same block and at the same place,
  -- the source queue is as it was or shorter, and has no packet for the block any more, or the
  -- reader is shut down.
  abbrev pub Fills : Reader d → Option (Reader d) → Type 0
  Fills r o =
      (s : Reader d) × (o ≡ some s)
      × IsValid d s
      × Keeps d r s
      × Settled d memory s
      × Drains d memory r s

  Settled-kept :
      (r s : Reader d)
      → Keeps d r s
      → s.source_queue ≡ r.source_queue
      → Settled d memory r
      → Settled d memory s
  Settled-kept r s k q (inl e) =
      inl (elim (Bool-cases s.alive) [ inl t ↦ absurd (cc (k.still_dead t)) | inr t ↦ t ])
  Settled-kept r s k q (inr (inl e)) = inr (inl (ap (λ (x : SortedQueue). x.list) q ∙ e))
  Settled-kept r s k q (inr (inr (p, c, n, f, b, g))) = inr (
      inr (
        p,
        c,
        ap SortedQueue.head q ∙ n,
        f,
        b,
        ap (blknum_le c.source_block_number) k.same_sbn ∙ g,
      ))

  -- Filling a block of a valid reader that has started ends without a panic, with any decoder and
  -- any allocator. The reader stays valid, in the same block and at the same place; the source queue is
  -- as it was or shorter and, unless the reader was shut down, it is empty or its next packet is not of
  -- this block or an earlier one.
  pub fill_block-Fills :
      (r : Reader d) → IsValid d r → r.started ≡ true → Fills r (fill_block d memory r)
  unfolding fill_block fill_source_block fill_repair_block SortedQueue.size
  fill_block-Fills r v st =
      let (s, e, vs, ks, z, l, _) =
        fill_source_loop-FillsSource (suc (length r.source_queue.list)) r (omega arith) v st in
      let (t, f, vt, kt, q) =
        fill_repair_loop-FillsRepair (suc (length s.repair_queue.list)) s (omega arith) vs
          (ks.same_started ∙ st) in
      rw (e, ◌>>=◌, f)
        (t, refl, vt, Keeps-trans d r s t ks kt, Settled-kept s t kt q z, Drains-kept r s t l q)
