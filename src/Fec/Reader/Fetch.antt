-- ===== src/Fec/Reader/Fetch.antt =====
-- How a FEC reader fetches packets from the readers that it is built on.
use roc.Prelude.{
  ℕ, zero, suc, ◌+◌, ◌≤◌, ◌<◌, ◌≡◌, refl, ◌⊎◌, inl, inr, Bool, true, false, Option, none, some,
  List, [], ◌∷◌, arith, Bool-cases, Option-cases, All, if◌then◌else◌, ◌>>=◌,
}
use roc.Packet.Types.{Packet, Fec, fec}
use roc.Packet.SortedQueue
use roc.Packet.SortedQueue.{SortedQueue, or_else, insert, is_full}
use roc.Packet.Reader.{IReader, Gives}
use roc.Packet.Types.{compare}
use roc.Prelude.{is_neg, abs, ◌==◌}
use roc.Fec.WriterState.{same_scheme}
use roc.Fec.ReaderState.{BlockDecoder, Reader, validate_fec_packet}
use roc.Fec.Reader.{fetch_loop}

module _ (P : Packet → Type 0) where
  All-or_else : (p : Packet) (xs : List Packet) → P p → All P xs → All P (or_else xs (insert p xs))
  unfolding insert
  All-or_else p [] hp h = (hp, tt)
  All-or_else p (x ∷ xs) hp h = elim (Bool-cases (is_neg (compare p x))) [
    | inl e ↦ elim (Option-cases (insert p xs)) [
      | inl f ↦ rw (e, f) h
      | inr (l, f) ↦ let a = All-or_else p xs hp h.1 in rw (e, f) (h.0, rw f at a)
    ]
    | inr e ↦ elim (Bool-cases (abs (compare p x) == 0)) [
      | inl f ↦ rw (e, f) h
      | inr f ↦ rw (e, f) (hp, h)
    ]
  ]

  pub All-write :
      (p : Packet) (q : SortedQueue) → P p → All P q.list → All P (SortedQueue.write p q).list
  unfolding SortedQueue.write
  All-write p q hp h = elim (Bool-cases (is_full q)) [
    | inl e ↦ rw e h
    | inr e ↦ rw e (All-or_else p q.list hp h)
  ]

module _ (d : BlockDecoder) (i : IReader) (P : Packet → Type 0) (put : Packet → Reader d → Reader d)
    (has_fec : (p : Packet) → P p → (c : Fec) × (fec p ≡ some c)) (Q : Reader d → Type 0)
    (put_keeps : (p : Packet) (r : Reader d) → P p → Q r → Q (put p r))
    (dead_keeps : (r : Reader d) → Q r → Q (record r { alive = false })) (size : Reader d → ℕ)
    (put_size : (p : Packet) (r : Reader d) → size (put p r) ≤ size r + 1)
    (dead_size : (r : Reader d) → size (record r { alive = false }) ≡ size r) where
  -- The loop ends with a reader of the same kind, and early only if it is shut down.
  abbrev pub Fetches : Gives i P → ℕ → Option (Bool × i.State × Reader d) → Type 0
  Fetches g n o =
      (b : Bool) × (s : i.State) × (r : Reader d) × (o ≡ some (b, s, r))
      × Q r
      × g.Holds s
      × (b ≡ false → r.alive ≡ false)
      × (size r ≤ n)

  validated :
      (p : Packet) (c : Fec) (r : Reader d)
      → fec p ≡ some c
      → (validate_fec_packet d p r ≡ some (true, r))
        ⊎ (validate_fec_packet d p r ≡ some (false, record r { alive = false }))
  unfolding validate_fec_packet
  validated p c r e = elim (Bool-cases (same_scheme c.fec_scheme r.scheme)) [
    | inl f ↦ inl (rw (e, ◌>>=◌, f) refl)
    | inr f ↦ inr (rw (e, ◌>>=◌, f) refl)
  ]

  fetch_end :
      (fuel : ℕ) (s : i.State) (r : Reader d)
      → (i.read s).0 ≡ none
      → fetch_loop d i put (suc fuel) s r ≡ some (true, (i.read s).1, r)
  unfolding fetch_loop
  fetch_end fuel s r e = rw (e, fetch_loop) refl

  fetch_step :
      (fuel : ℕ) (s : i.State) (r r' : Reader d) (p : Packet) (b : Bool)
      → (i.read s).0 ≡ some p
      → validate_fec_packet d p r ≡ some (b, r')
      → fetch_loop d i put (suc fuel) s r ≡ (
          if b
          then fetch_loop d i put fuel (i.read s).1 (put p r')
          else some (false, (i.read s).1, r'))
  unfolding fetch_loop
  fetch_step fuel s r r' p true e f = rw (e, fetch_loop, f, ◌>>=◌) refl
  fetch_step fuel s r r' p false e f = rw (e, fetch_loop, f, ◌>>=◌) refl

  pub fetch_loop-Fetches :
      (g : Gives i P) (fuel : ℕ) (s : i.State) (r : Reader d)
      → i.left s < fuel
      → g.Holds s
      → Q r
      → Fetches g (size r + i.left s) (fetch_loop d i put fuel s r)
  fetch_loop-Fetches g zero s r h k q = absurd (omega arith)
  fetch_loop-Fetches g (suc fuel) s r h k q = elim (Option-cases (i.read s).0) [
    | inl e ↦
        rw (fetch_end fuel s r e)
          (true, (i.read s).1, r, refl, q, g.keeps s k, λ x. cc, omega arith)
    | inr (p, e) ↦
        let hp = g.gives s p k e in
        let (c, f) = has_fec p hp in
        elim (validated p c r f) [
          | inr v ↦ rw (fetch_step fuel s r (record r { alive = false }) p false e v) (
            false,
            (i.read s).1,
            record r { alive = false },
            refl,
            dead_keeps r q,
            g.keeps s k,
            λ _. refl,
            omega (arith, dead_size r),
          )
          | inl v ↦
              let l = i.read_left s p e in
              let (b, s', r', a1, a2, a3, a4, a5) =
                fetch_loop-Fetches g fuel (i.read s).1 (put p r) (omega (arith, l, h)) (g.keeps s k)
                  (put_keeps p r hp q) in
              rw (fetch_step fuel s r r p true e v)
                (b, s', r', a1, a2, a3, a4, omega (arith, a5, l, put_size p r))
        ]
  ]
