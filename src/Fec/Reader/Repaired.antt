-- ===== src/Fec/Reader/Repaired.antt =====
-- The packets that a FEC reader restores, and the places of a block that they take.
use roc.Prelude.{
  ℕ, suc, ◌≡◌, refl, ap, subst, ◌∙◌, inl, inr, Bool, Option, none, some, List, [], ◌∷◌, length,
  Bool-cases, not, ◌>>=◌, >>=-some, if◌then◌else◌,
}
use roc.Packet.Types.{Packet, Slice, packet_init, set_data, add_flags, flag_restored}
use roc.Rtp.Parser.{Outcome}
use roc.Fec.ReaderState.{BlockDecoder}
use roc.Fec.ReaderBlock.{parse_repaired_packet, restore, repair_packets}
use roc.Fec.Reader.Invariant.{IsRestored, Filled}

module _ (parser : Packet → List ℕ → Outcome) where
  parse_repaired_packet-IsRestored :
      (allocated : Bool) (b : List ℕ) (p : Packet)
      → parse_repaired_packet parser allocated b ≡ some (some p)
      → IsRestored p
  unfolding parse_repaired_packet
  parse_repaired_packet-IsRestored allocated b p h = elim (Bool-cases allocated) [
    | inr e ↦ absurd (cc (rw e at h))
    | inl e ↦ parsed (rw e at h)
  ]
    where
      parsed :
          (parser packet_init b >>= λ x.
          if not x.0
          then some none
          else (set_data (some b) x.1 >>= λ q. add_flags flag_restored q >>= λ s. some (some s)))
            ≡ some (some p)
          → IsRestored p
      parsed g =
          let (x, _, g1) =
            >>=-some (parser packet_init b)
              (λ x.
                if not x.0
                then some none
                else (set_data (some b) x.1 >>= λ q.
                    add_flags flag_restored q >>= λ s. some (some s)))
              (some p) g in
          elim (Bool-cases x.0) [
            | inr e ↦ absurd (cc (rw e at g1))
            | inl e ↦ flagged x.1 (rw e at g1)
          ]
        where
          flagged :
              (y : Packet)
              → (set_data (some b) y >>= λ q. add_flags flag_restored q >>= λ s. some (some s))
                ≡ some (some p)
              → IsRestored p
          flagged y k =
              let (q, _, k1) =
                >>=-some (set_data (some b) y)
                  (λ q. add_flags flag_restored q >>= λ s. some (some s)) (some p) k in
              let (s, k2, k3) =
                >>=-some (add_flags flag_restored q) (λ s. some (some s)) (some p) k1 in
              let e : s ≡ p = cc in (q, k2 ∙ ap some e)

  restore-IsRestored :
      (allocated : Bool) (b : Slice) (p : Packet)
      → restore parser allocated b ≡ some (some p)
      → IsRestored p
  unfolding restore
  restore-IsRestored allocated none p h = absurd (cc)
  restore-IsRestored allocated (some b) p h = parse_repaired_packet-IsRestored allocated b p h

  module _ (d : BlockDecoder) (pool : ℕ → Bool) (P : ℕ → Packet → Type 0) where
    abbrev pub Restores : ℕ → List (Option Packet) → List (Option Packet) × d.State → Type 0
    Restores i block out = Filled P i out.0 × (length out.0 ≡ length block)

    -- Restored packets go to the empty places only.
    pub repair_packets-Restores :
        ((i : ℕ) (p : Packet) → IsRestored p → P i p)
        → (i : ℕ) (block : List (Option Packet)) (s : d.State)
          (out : List (Option Packet) × d.State)
        → Filled P i block
        → repair_packets d parser pool i block s ≡ some out
        → Restores i block out
    unfolding repair_packets
    repair_packets-Restores hp i [] s out h e =
        let q : ◌≡◌ {A = List (Option Packet) × d.State} ([], s) out = cc in
        subst (Restores i []) q (tt, refl)
    repair_packets-Restores hp i (some p ∷ block) s out h e =
        let (a, e1, e2) =
          >>=-some (repair_packets d parser pool (suc i) block s) (λ a. some (some p ∷ a.0, a.1))
            out e in
        let (f, l) = repair_packets-Restores hp (suc i) block s a h.1 e1 in
        let q : (some p ∷ a.0, a.1) ≡ out = cc in
        subst (Restores i (some p ∷ block)) q ((h.0, f), ap suc l)
    repair_packets-Restores hp i (none ∷ block) s out h e =
        let (b, e1, e2) =
          >>=-some (d.repair i s)
            (λ b. restore parser (pool i) b.0 >>= λ o.
              repair_packets d parser pool (suc i) block b.1 >>= λ a. some (o ∷ a.0, a.1))
            out e in
        let (o, e3, e4) =
          >>=-some (restore parser (pool i) b.0)
            (λ o. repair_packets d parser pool (suc i) block b.1 >>= λ a. some (o ∷ a.0, a.1)) out
            e2 in
        let (a, e5, e6) =
          >>=-some (repair_packets d parser pool (suc i) block b.1) (λ a. some (o ∷ a.0, a.1)) out
            e4 in
        let (f, l) = repair_packets-Restores hp (suc i) block b.1 a h e5 in
        let q : (o ∷ a.0, a.1) ≡ out = cc in
        subst (Restores i (none ∷ block)) q (placed b.0 o a.0 e3 f, ap suc l)
      where
        placed :
            (b : Slice) (o : Option Packet) (l : List (Option Packet))
            → restore parser (pool i) b ≡ some o
            → Filled P (suc i) l
            → Filled P i (o ∷ l)
        placed b none l g f = f
        placed b (some p) l g f = (hp i p (restore-IsRestored (pool i) b p g), f)
