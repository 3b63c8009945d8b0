-- ===== src/Rtp/Validator/Stream.antt =====
-- What the validator lets through.
use roc.Prelude.{
  ℕ, ◌≤◌, ◌<◌, ◌≡◌, sym, ◌∙◌, ◌⊎◌, inl, inr, true, false, Option, none, some, is_neg, List, [], ◌∷◌,
  arith, All, Bool-cases, Option-cases, ◌>>=◌,
}
use roc.Packet.Units.{u16_mod, seqnum_diff, seqnum_lt}
use roc.Packet.Types.{Packet, Rtp, rtp, rtp_compare}
use roc.Packet.Order.{past}
use roc.Rtp.Validator.{ValidatorConfig, sn_distance, check, next_prev, passes, validate}

module _ (timestamp_to_ns : ℕ → ℕ) (config : ValidatorConfig) where
  -- The packet may follow `prev`: same source and type, and no further away than the limits allow, in
  -- either direction.
  pub record Follows (prev next : Rtp) : Type 0 where
    pub same_source : next.source ≡ prev.source
    pub same_type : next.payload_type ≡ prev.payload_type
    pub near :
        (past prev.seqnum next.seqnum ≤ config.max_sn_jump)
        ⊎ (past next.seqnum prev.seqnum ≤ config.max_sn_jump)

  check-Follows :
      (prev next : Rtp)
      → prev.seqnum < u16_mod
      → next.seqnum < u16_mod
      → check timestamp_to_ns config prev next ≡ some true
      → Follows prev next
  unfolding check sn_distance seqnum_diff
  check-Follows prev next hp hn h = ground arith

  rtp_compare_lt : (a b : Rtp) → is_neg (rtp_compare a b) ≡ seqnum_lt a.seqnum b.seqnum
  unfolding rtp_compare
  rtp_compare_lt a b = ground arith

  -- What `read` does with a packet that comes after an RTP packet `prev` was let through.
  abbrev pub Validates : Packet → Rtp → Packet → Option (Option Packet × Option Packet) → Type 0
  Validates prev r p out =
      (out ≡ none)
      ⊎ (out ≡ some (none, some prev))
      ⊎ ((next : Rtp) × (rtp p ≡ some next)
          × (check timestamp_to_ns config r next ≡ some true)
          × (((seqnum_lt r.seqnum next.seqnum ≡ true) × (out ≡ some (some p, some p)))
              ⊎ ((seqnum_lt r.seqnum next.seqnum ≡ false) × (out ≡ some (some p, some prev)))))

  validate-Validates :
      (prev p : Packet) (r : Rtp)
      → rtp prev ≡ some r
      → Validates prev r p (validate timestamp_to_ns config (some prev) (some p))
  unfolding validate passes next_prev
  validate-Validates prev p r e = elim (Option-cases (rtp p)) [
    | inl n ↦ inr (inl (rw (n, validate)))
    | inr (next, n) ↦ elim (Option-cases (check timestamp_to_ns config r next)) [
      | inl c ↦ inl (rw (n, validate, e, c))
      | inr (false, c) ↦ inr (inl (rw (n, validate, e, c)))
      | inr (true, c) ↦ inr (
          inr (
            next,
            n,
            c,
            elim (Bool-cases (seqnum_lt r.seqnum next.seqnum)) [
              | inl l ↦ inl (l, rw (n, validate, e, c, e, next_prev, rtp_compare_lt r next, l))
              | inr l ↦ inr (l, rw (n, validate, e, c, e, next_prev, rtp_compare_lt r next, l))
            ],
          ))
    ]
  ]

  seqnum_in :
      (p : Packet) (next : Rtp)
      → p.rtp_part.seqnum < u16_mod
      → rtp p ≡ some next
      → next.seqnum < u16_mod
  unfolding rtp
  seqnum_in p next h n = ground arith

  -- After an RTP packet was let through, a packet that is returned is the packet that came in. It
  -- follows the newest packet let through so far in source, payload type and sequence number, and
  -- replaces it as the newest exactly if it is newer. Sequence numbers are of 16 bits.
  pub validate_lem :
      (prev p q : Packet) (r : Rtp) (prev' : Option Packet)
      → rtp prev ≡ some r
      → r.seqnum < u16_mod
      → p.rtp_part.seqnum < u16_mod
      → validate timestamp_to_ns config (some prev) (some p) ≡ some (some q, prev')
      → (q ≡ p)
        × ((next : Rtp) × (rtp p ≡ some next)
            × Follows r next
            × (((seqnum_lt r.seqnum next.seqnum ≡ true) × (prev' ≡ some p))
                ⊎ ((seqnum_lt r.seqnum next.seqnum ≡ false) × (prev' ≡ some prev))))
  validate_lem prev p q r prev' e hr hp h = go (validate-Validates prev p r e)
    where
      go :
          Validates prev r p (validate timestamp_to_ns config (some prev) (some p))
          → (q ≡ p)
            × ((next : Rtp) × (rtp p ≡ some next)
                × Follows r next
                × (((seqnum_lt r.seqnum next.seqnum ≡ true) × (prev' ≡ some p))
                    ⊎ ((seqnum_lt r.seqnum next.seqnum ≡ false) × (prev' ≡ some prev))))
      go (inl o) = cc
      go (inr (inl o)) = cc
      go (inr (inr (next, n, c, inl (l, o)))) =
          (cc, (next, n, check-Follows r next hr (seqnum_in p next hp n) c, inl (l, cc)))
      go (inr (inr (next, n, c, inr (l, o)))) =
          (cc, (next, n, check-Follows r next hr (seqnum_in p next hp n) c, inr (l, cc)))

  -- The packets that `read` returns while the inner reader gives `ps`, from `prev_packet_` on; `none`
  -- if a read met undefined behaviour.
  unfoldable pub run : Option Packet → List Packet → Option (List Packet)
  run prev [] = some []
  run prev (p ∷ ps) = elim (validate timestamp_to_ns config prev (some p)) [
    | none ↦ none
    | some (none, prev') ↦ run prev' ps
    | some (some q, prev') ↦ run prev' ps >>= (λ qs. some (q ∷ qs))
  ]

  abbrev pub OfStream : ℕ → ℕ → Packet → Type 0
  OfStream source type p =
      (r : Rtp) × (rtp p ≡ some r) × (r.source ≡ source) × (r.payload_type ≡ type)

  check_same :
      (prev next : Rtp)
      → check timestamp_to_ns config prev next ≡ some true
      → (next.source ≡ prev.source) × (next.payload_type ≡ prev.payload_type)
  unfolding check
  check_same prev next h = ground arith

  -- Once an RTP packet was let through, only packets of its source and payload type are returned,
  -- for as long as the reader is used and no read has undefined behaviour.
  pub run-OfStream :
      (source type : ℕ) (prev : Packet) (ps qs : List Packet)
      → OfStream source type prev
      → run (some prev) ps ≡ some qs
      → All (OfStream source type) qs
  unfolding run
  run-OfStream source type prev [] [] v h = tt
  run-OfStream source type prev [] (q ∷ qs) v h = cc
  run-OfStream source type prev (p ∷ ps) qs v h =
      go (validate-Validates prev p v.0 v.1) (λ prev' qs'. run-OfStream source type prev' ps qs')
    where
      next_same :
          (next : Rtp)
          → check timestamp_to_ns config v.0 next ≡ some true
          → (next.source ≡ source) × (next.payload_type ≡ type)
      next_same next c = let (s, t) = check_same v.0 next c in (s ∙ v.2, t ∙ v.3)

      in_stream :
          (next : Rtp)
          → rtp p ≡ some next
          → check timestamp_to_ns config v.0 next ≡ some true
          → OfStream source type p
      in_stream next n c = (next, n, (next_same next c).0, (next_same next c).1)

      more :
          (next : Rtp) (prev' : Packet)
          → OfStream source type p
          → run (some prev) (p ∷ ps) ≡ (run (some prev') ps >>= (λ qs. some (p ∷ qs)))
          → ((qs' : List Packet) → run (some prev') ps ≡ some qs' → All (OfStream source type) qs')
          → All (OfStream source type) qs
      more next prev' w e ih = elim (Option-cases (run (some prev') ps)) [
        | inl n ↦ (let b = bound n in cc)
        | inr (qs', n) ↦ (let b : qs ≡ p ∷ qs' = taken qs' n in rw b (w, ih qs' n))
      ]
        where
          bound : run (some prev') ps ≡ none → some qs ≡ none
          bound n = sym h ∙ (e ∙ rw n)

          taken : (qs' : List Packet) → run (some prev') ps ≡ some qs' → qs ≡ p ∷ qs'
          taken qs' n = let b : some qs ≡ some (p ∷ qs') = sym h ∙ (e ∙ rw n) in cc

      go :
          Validates prev v.0 p (validate timestamp_to_ns config (some prev) (some p))
          → ((prev' : Packet) (qs' : List Packet)
              → OfStream source type prev'
              → run (some prev') ps ≡ some qs'
              → All (OfStream source type) qs')
          → All (OfStream source type) qs
      go (inl o) ih = (let b : none ≡ some qs = rw (← h) (rw (o, run)) in cc)
      go (inr (inl o)) ih = ih prev qs v (sym (rw (o, run)) ∙ h)
      go (inr (inr (next, n, c, inl (l, o)))) ih =
          more next p (in_stream next n c) (rw (o, run)) (λ qs'. ih p qs' (in_stream next n c))
      go (inr (inr (next, n, c, inr (l, o)))) ih =
          more next prev (in_stream next n c) (rw (o, run)) (λ qs'. ih prev qs' v)
