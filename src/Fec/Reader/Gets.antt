-- ===== src/Fec/Reader/Gets.antt =====
-- The loop that takes the next packet from a FEC reader: when it ends, and with what.
use roc.Prelude.{
  ℕ, zero, suc, ◌+◌, ◌*◌, ◌≤◌, ◌<◌, ◌≡◌, refl, ap, ◌∙◌, ◌⊎◌, inl, inr, Bool, true, false, Option,
  none, some, List, [], ◌∷◌, arith, length, get_elem?, get_or, Bool-cases, Option-cases, not,
}
use roc.Packet.Types.{Packet}
use roc.Packet.Units.{u16_mod}
use roc.Packet.SortedQueue.{SortedQueue}
use roc.Rtp.Parser.{Outcome}
use roc.Fec.ReaderState.{BlockDecoder, Reader}
use roc.Fec.ReaderBlock.{fill_block, try_repair}
use roc.Fec.Reader.{round, get_next_loop, get_next_packet}
use roc.Fec.Reader.Keeps.{Keeps, InBlock-Keeps}
use roc.Fec.Reader.Fill.{Drains}
use roc.Fec.Reader.FillLoops.{fill_block-Fills}
use roc.Fec.Reader.Restoring.{try_repair-Repairs}
use roc.Fec.Reader.Next.{
  Ahead, Waits, Stays, Settled-Waits, filled_sized, advance-Finishes, Rounds, MovesOn,
  search_block-Searches,
}

module _ (d : BlockDecoder) (memory : Reader d → ℕ → Bool) (parser : Packet → List ℕ → Outcome)
    (pool : ℕ → Bool) where
  round-some :
      (n : ℕ) (p : Packet) (r : Reader d)
      → Stays d memory r
      → r.source_block_resized ≡ true
      → Rounds d memory parser pool n r (round d memory parser pool (some p) r)
  unfolding round
  round-some n p r (v, st, ib) sz = elim (Bool-cases (not r.alive)) [
    | inl e ↦ rw e (inr (inl (some p, (r, refl, (v, st, ib)))))
    | inr e ↦ rw e (
        inr (
          inl (
            some p,
            advance-Finishes d memory parser pool p (r.next_packet + 1) r (v, st, ib) sz
                (omega (arith, ib)),
          )))
  ]

  round-none :
      (n : ℕ) (r : Reader d)
      → Stays d memory r
      → Waits d memory (suc n) r
      → Rounds d memory parser pool n r (round d memory parser pool none r)
  unfolding round
  round-none n r (v, st, ib) w = elim (Bool-cases (not r.alive)) [
    | inl e ↦ rw e (inr (inl (none, (r, refl, (v, st, ib)))))
    | inr e ↦ elim (Option-cases (try_repair d parser pool r)) [
      | inl f ↦ rw (e, f) (inl (refl, refl))
      | inr (s, f) ↦
          let (vs, k, q, l) = try_repair-Repairs parser d pool r s v st f in
          rw (e, f)
            (elim (search_block-Searches d memory parser pool n s
              (vs, k.same_started ∙ st, InBlock-Keeps d r s v k ib) (ahead s e k q w)) [
                | inl x ↦ inr (inl x)
                | inr (u, g, y, z, m) ↦ inr (inr (s, u, refl, g, y, z, m))
              ])
    ]
  ]
    where
      ahead :
          (s : Reader d)
          → not r.alive ≡ false
          → Keeps d r s
          → s.source_queue ≡ r.source_queue
          → Waits d memory (suc n) r
          → (s.source_queue.list ≡ []) ⊎ Ahead d memory (suc n) s
      ahead s e k q (inl (a, _)) = absurd (cc (rw a at e))
      ahead s e k q (inr (inl (l, _))) = inl (ap (λ (x : SortedQueue). x.list) q ∙ l)
      ahead s e k q (inr (inr a)) = inr (rw (q, k.same_sbn) a)

  -- The readers in which the loop repairs: the one that it starts with, and for each block that it
  -- goes on to the one in which the block is filled.
  pub data Reaches : Reader d → Reader d → Type 0 where
    here : (r : Reader d) → Reaches r r
    step :
        (r v s u : Reader d)
        → try_repair d parser pool r ≡ some v
        → MovesOn d memory parser pool v s
        → Reaches s u
        → Reaches r u

  -- A repair in the loop panics.
  abbrev pub RepairPanics : Reader d → Type 0
  RepairPanics r = (u : Reader d) × Reaches r u × (try_repair d parser pool u ≡ none)

  -- How the loop ends: a repair in it panics, or the reader that is left is valid.
  abbrev pub Gets : Reader d → Option (Option Packet × Reader d) → Type 0
  Gets r o =
      (RepairPanics r × (o ≡ none))
      ⊎ ((q : Option Packet) × (s : Reader d) × (o ≡ some (q, s)) × Stays d memory s)

  loop_step :
      (n : ℕ) (pp : Option Packet) (r : Reader d)
      → Rounds d memory parser pool n r (round d memory parser pool pp r)
      → ((s : Reader d)
          → Stays d memory s
          → Waits d memory n s
          → Gets s (get_next_loop d memory parser pool n none s))
      → Gets r (get_next_loop d memory parser pool (suc n) pp r)
  unfolding get_next_loop
  loop_step n pp r (inl (e, f)) ih = rw f (inl ((r, here r, e), refl))
  loop_step n pp r (inr (inl (q, (s, f, st)))) ih = rw f (inr (q, s, refl, st))
  loop_step n pp r (inr (inr (v, s, e, f, st, w, m))) ih = rw f (elim (ih s st w) [
    | inl ((u, k, g), o) ↦ inl ((u, step r v s u e m k, g), o)
    | inr x ↦ inr x
  ])

  loop_none :
      (n : ℕ) (r : Reader d)
      → Stays d memory r
      → Waits d memory n r
      → Gets r (get_next_loop d memory parser pool n none r)
  loop_none zero r st w = absurd (nothing w)
    where
      nothing : Waits d memory zero r → ⊥
      nothing (inl (_, h)) = omega arith
      nothing (inr (inl (_, h))) = omega arith
      nothing (inr (inr (p, c, _, _, _, _, h))) = omega arith
  loop_none (suc n) r st w = loop_step n none r (round-none n r st w) (λ s. loop_none n s)

  abbrev pub get_next_rounds : Reader d → ℕ
  get_next_rounds r = (length r.source_queue.list + 1) * u16_mod

  get_elem?-get_or :
      (block : List (Option Packet)) (i : ℕ)
      → i < length block
      → get_elem? block i ≡ some (get_or block i none)
  get_elem?-get_or [] i h = absurd (omega arith)
  get_elem?-get_or (o ∷ block) zero h = refl
  get_elem?-get_or (o ∷ block) (suc i) h = get_elem?-get_or block i (omega arith)

  loop_lem :
      (n : ℕ) (r : Reader d)
      → Stays d memory r
      → Waits d memory (suc n) r
      → Gets r
          (get_next_loop d memory parser pool (suc n) (get_or r.source_block r.next_packet none) r)
  loop_lem n r (v, st, ib) w = elim (Option-cases (get_or r.source_block r.next_packet none)) [
    | inl e ↦ rw e (loop_none (suc n) r (v, st, ib) w)
    | inr (p, e) ↦ rw e (
        loop_step n (some p) r
          (round-some n p r (v, st, ib) (filled_sized d memory r r.next_packet p v e))
          (λ s. loop_none n s))
  ]

  -- `get_next_packet_` panics only where a repair does that its loop reaches.
  abbrev pub NextPanics : Reader d → Type 0
  NextPanics r = (s : Reader d) × (fill_block d memory r ≡ some s) × RepairPanics s

  abbrev pub GetsNext : Reader d → Option (Option Packet × Reader d) → Type 0
  GetsNext r o =
      (NextPanics r × (o ≡ none))
      ⊎ ((q : Option Packet) × (s : Reader d) × (o ≡ some (q, s)) × Stays d memory s)

  -- With fuel for 65536 rounds for each waiting source packet and as many again, a valid reader that
  -- is inside a block gets its next packet: there is no panic unless a repair that the loop comes to
  -- panics, no subscript is out of range and the fuel does not run out. It returns a packet or null,
  -- and the reader that is left is valid and inside a block again.
  pub get_next_packet-GetsNext :
      (fuel : ℕ) (r : Reader d)
      → Stays d memory r
      → get_next_rounds r ≤ fuel
      → GetsNext r (get_next_packet d memory parser pool fuel r)
  unfolding get_next_packet
  get_next_packet-GetsNext zero r st h = absurd (omega arith)
  get_next_packet-GetsNext (suc n) r (v, st, ib) h =
      let (s, e, vs, k, z, dr) = fill_block-Fills d memory r v st in
      let ib' = InBlock-Keeps d r s v k ib in
      let m = fewer s dr in
      rw (e, get_elem?-get_or s.source_block s.next_packet ib')
        (elim (loop_lem n s (vs, k.same_started ∙ st, ib')
          (Settled-Waits d memory (suc n) s z (omega (arith, h, m)))) [
            | inl (x, o) ↦ inl ((s, refl, x), o)
            | inr x ↦ inr x
          ])
    where
      fewer :
          (s : Reader d)
          → Drains d memory r s
          → length s.source_queue.list ≤ length r.source_queue.list
      fewer s (inl e) = omega (arith, ap (λ (x : SortedQueue). length x.list) e)
      fewer s (inr l) = omega arith
