-- ===== src/Fec/Reader/Scan.antt =====
-- The search of a FEC reader for the next packet in its block.
use roc.Prelude.{
  ℕ, zero, suc, ◌+◌, ◌<◌, ◌≡◌, refl, ◌∙◌, ◌⊎◌, inl, inr, Option, none, some, List, [], ◌∷◌, arith,
  get_or, Option-cases,
}
use roc.Packet.Types.{Packet}
use roc.Fec.Writer.Repair.{IsEmpty}
use roc.Fec.Reader.{scan}

pub IsEmpty-get_or :
    (block : List (Option Packet)) (k : ℕ) → IsEmpty block → get_or block k none ≡ none
IsEmpty-get_or [] k h = refl
IsEmpty-get_or (o ∷ block) zero h = h.0
IsEmpty-get_or (o ∷ block) (suc k) h = IsEmpty-get_or block k h.1

scan_end : (pos : ℕ) (block : List (Option Packet)) → scan zero pos block ≡ pos
unfolding scan
scan_end pos block = refl

scan_hit :
    (rounds pos : ℕ) (block : List (Option Packet)) (p : Packet)
    → get_or block pos none ≡ some p
    → scan (suc rounds) pos block ≡ pos
unfolding scan
scan_hit rounds pos block p e = rw (e, scan) refl

scan_miss :
    (rounds pos : ℕ) (block : List (Option Packet))
    → get_or block pos none ≡ none
    → scan (suc rounds) pos block ≡ scan rounds (pos + 1) block
unfolding scan
scan_miss rounds pos block e = rw (e, scan) refl

-- The scan stops at the end or at a packet.
pub scan_cases :
    (rounds pos : ℕ) (block : List (Option Packet))
    → (scan rounds pos block ≡ pos + rounds)
      ⊎ ((p : Packet) × (get_or block (scan rounds pos block) none ≡ some p)
          × (scan rounds pos block < pos + rounds))
scan_cases zero pos block = inl (scan_end pos block ∙ omega arith)
scan_cases (suc rounds) pos block = elim (Option-cases (get_or block pos none)) [
  | inr (p, e) ↦ rw (scan_hit rounds pos block p e) (inr (p, e, omega arith))
  | inl e ↦ elim (scan_cases rounds (pos + 1) block) [
    | inl h ↦ rw (scan_miss rounds pos block e) (inl (omega (arith, h)))
    | inr (p, f, h) ↦ rw (scan_miss rounds pos block e) (inr (p, f, omega (arith, h)))
  ]
]
