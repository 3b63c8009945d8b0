-- ===== src/Fec/Reader/Read.antt =====
-- src/modules/roc_fec/reader.cpp: `read` as a whole.
use roc.Prelude.{
  ℕ, ◌≤◌, ◌<◌, ◌≡◌, refl, ap, subst, ◌⊎◌, inl, inr, Bool, true, false, Option, none, some, List, [],
  ◌∷◌, arith, length, Bool-cases, All, All-left, pop_back_cases, ltb, ◌>>=◌,
}
use roc.Packet.Types.{Packet, Fec, fec}
use roc.Packet.SortedQueue
use roc.Packet.SortedQueue.{SortedQueue}
use roc.Rtp.Parser.{Outcome}
use roc.Fec.ReaderState.{BlockDecoder, Reader}
use roc.Fec.Reader.{get_first_packet, get_next_packet, read_unstarted, read_fetched}
use roc.Fec.Reader.Invariant.{IsValid, IsFec}
use roc.Fec.Reader.Fill.{IsValid-with_source}
use roc.Fec.Reader.Gets.{NextPanics, get_next_rounds, get_next_packet-GetsNext}
use roc.Fec.Reader.First.{IsReady, IsValid-start, get_first_packet-Firsts}

module _ (d : BlockDecoder) (memory : Reader d → ℕ → Bool) (parser : Packet → List ℕ → Outcome)
    (pool : ℕ → Bool) where
  -- A repair panics behind the one or the other start of `read_`.
  abbrev pub ReadPanics : Reader d → Type 0
  ReadPanics r =
      NextPanics d memory parser pool r
      ⊎ ((pp : Option Packet) × (s : Reader d) × (get_first_packet d memory r ≡ some (pp, s))
          × NextPanics d memory parser pool (record s { started = true }))

  -- The reader that is left is ready.
  abbrev pub Succeeds : Option (Option Packet × Reader d) → Type 0
  Succeeds o = (q : Option Packet) × (s : Reader d) × (o ≡ some (q, s)) × IsReady d s

  abbrev pub Reads : Reader d → Option (Option Packet × Reader d) → Type 0
  Reads r o = (ReadPanics r × (o ≡ none)) ⊎ Succeeds o

  -- The first packets are handed on unchecked.
  passed_on :
      (r : Reader d)
      → IsValid d r
      → r.started ≡ false
      → Succeeds (
          some (
            (SortedQueue.read r.source_queue).0,
            record r { source_queue = (SortedQueue.read r.source_queue).1 },
          ))
  unfolding SortedQueue.read
  passed_on r v st = (
    (SortedQueue.read r.source_queue).0,
    record r { source_queue = (SortedQueue.read r.source_queue).1 },
    refl,
    (
      IsValid-with_source d (SortedQueue.read r.source_queue).1 r v
          (read-All r.source_queue v.source_fec),
      λ h. absurd (cc),
    ),
  )
    where
      read-All : (q : SortedQueue) → All IsFec q.list → All IsFec (SortedQueue.read q).1.list
      read-All q h = elim (pop_back_cases q.list) [
        | inl (e, n) ↦ rw (n, SortedQueue.read) h
        | inr (p, rest, e, n) ↦
            rw (n, SortedQueue.read) (All-left IsFec rest (p ∷ []) (subst (All IsFec) e h))
      ]

  read_unstarted-Reads :
      (fuel : ℕ) (pp : Option Packet) (r : Reader d)
      → IsValid d r
      → r.started ≡ false
      → ((pp ≡ none)
          ⊎ ((p : Packet) × (c : Fec) × (pp ≡ some p)
              × (fec p ≡ some c)
              × (0 < length r.source_block)))
      → get_next_rounds d memory parser pool r ≤ fuel
      → (NextPanics d memory parser pool (record r { started = true })
          × (read_unstarted d memory parser pool fuel pp r ≡ none))
        ⊎ Succeeds (read_unstarted d memory parser pool fuel pp r)
  unfolding read_unstarted
  read_unstarted-Reads fuel pp r v st (inl e) h = rw e (inr (passed_on r v st))
  read_unstarted-Reads fuel pp r v st (inr (p, c, e, f, l)) h =
      rw (e, f)
        (elim (Bool-cases (ltb 0 c.encoding_symbol_id)) [
          | inl t ↦ rw t (inr (passed_on r v st))
          | inr t ↦
              let (_, _, n) = v.not_started st in
              rw t
                (elim (get_next_packet-GetsNext d memory parser pool fuel
                  (record r { started = true }) (IsValid-start d r v, refl, omega (arith, n, l))
                  h) [ inl x ↦ inl x | inr (q, s, g, (vs, ss, ib)) ↦ inr (q, s, g, (vs, λ _. ib)) ])
        ])

  started_step :
      (fuel : ℕ) (r : Reader d)
      → r.started ≡ true
      → read_fetched d memory parser pool fuel r ≡ get_next_packet d memory parser pool fuel r
  unfolding read_fetched
  started_step fuel r t = rw t refl

  first_step :
      (fuel : ℕ) (r : Reader d)
      → r.started ≡ false
      → read_fetched d memory parser pool fuel r
        ≡ (get_first_packet d memory r >>= λ x. read_unstarted d memory parser pool fuel x.0 x.1)
  unfolding read_fetched
  first_step fuel r t = rw t refl

  -- `read_` behind `fetch_packets_`.
  pub read_fetched-Reads :
      (fuel : ℕ) (r : Reader d)
      → IsReady d r
      → get_next_rounds d memory parser pool r ≤ fuel
      → Reads r (read_fetched d memory parser pool fuel r)
  read_fetched-Reads fuel r (v, ib) h = elim (Bool-cases r.started) [
    | inl t ↦
        rw (started_step fuel r t)
          (elim (get_next_packet-GetsNext d memory parser pool fuel r (v, t, ib t) h) [
            | inl (x, o) ↦ inl (inl x, o)
            | inr (q, s, g, (vs, ss, ib')) ↦ inr (q, s, g, (vs, λ _. ib'))
          ])
    | inr t ↦
        let (pp, s, e, vs, ss, q, c) = get_first_packet-Firsts d memory r v t in
        rw (first_step fuel r t, e)
          (elim (read_unstarted-Reads fuel pp s vs ss c
            (omega (arith, ap (λ (x : SortedQueue). length x.list) q, h))) [
              | inl (x, o) ↦ inl (inr (pp, s, refl, x), o)
              | inr x ↦ inr x
            ])
  ]
