-- ===== src/Audio/Depacketizer/Rounds.antt =====
-- A round of the loop of the depacketizer over a frame.
use roc.Prelude.{
  ℕ, suc, ◌+◌, ◌*◌, ◌^◌, ◌≤◌, ◌<◌, ◌≡◌, refl, subst, ap, ◌∙◌, ◌⊎◌, inl, inr, Option, none, some,
  List, arith, length,
}
use roc.Packet.Types.{Packet}
use roc.Audio.Depacketizer.{
  Inputs, Depacketizer, update_from, update_packet, read_from, read_missing_samples, read_present,
  read_samples,
}
use roc.Audio.Depacketizer.Contract.{Setting}
use roc.Audio.Depacketizer.States.{Common, Resting, Playing, Same}
use roc.Audio.Depacketizer.Tallies.{Mixed, Tally}
use roc.Audio.Depacketizer.Updates.{update_packet-Updates}
use roc.Audio.Depacketizer.Missing.{missed, missing_lem, Common-missed}
use roc.Audio.Depacketizer.Fills.{present_lem}

module _ {Sample : Type 0} {io : Inputs Sample} (cfg : Setting io) where
  -- A depacketizer between two operations.
  abbrev pub IsValid : Depacketizer io → Type 0
  IsValid w = Common cfg w × (Resting cfg w ⊎ Playing cfg w)

  -- Rounds of the loop that are enough.
  abbrev pub Within : ℕ → Depacketizer io → Type 0
  Within b w =
      (Resting cfg w × (io.reader.left w.reader < b))
      ⊎ (Playing cfg w × (io.reader.left w.reader + 1 < b))

  abbrev pub Wrote : ℕ → ℕ → Depacketizer io → Option (List Sample × Depacketizer io) → Type 0
  Wrote b n w o =
      (xs : List Sample) × (v : Depacketizer io) × (j : ℕ) × (o ≡ some (xs, v))
      × (length xs ≡ j * cfg.num_channels)
      × (j ≤ n)
      × Common cfg v
      × Tally cfg w v xs j
      × (((j ≡ n) × (Resting cfg v ⊎ Playing cfg v))
          ⊎ (Resting cfg v × (io.reader.left v.reader < b)))

module _ {Sample : Type 0} {io : Inputs Sample} (cfg : Setting io) (positive : 0 < cfg.num_channels)
    (few : cfg.num_channels ≤ 32) where
  after_update :
      (b n : ℕ) (v : Depacketizer io) (p : Packet)
      → Common cfg v
      → Playing cfg v
      → io.reader.left v.reader < b
      → 0 < n
      → n * cfg.num_channels < 2 ^ 31
      → Wrote cfg b n v (read_present io (n * cfg.num_channels) v)
  after_update b n v p c y l h m =
      let (xs, u, j, o, e, q, cu, rd, ta, x) = present_lem cfg positive few n v c y h m in
      (xs, u, j, o, e, q, cu, ta, lower u j rd x)
    where
      lower :
          (u : Depacketizer io) (j : ℕ)
          → u.reader ≡ v.reader
          → (((j ≡ n) × (Resting cfg u ⊎ Playing cfg u)) ⊎ Resting cfg u)
          → ((j ≡ n) × (Resting cfg u ⊎ Playing cfg u))
            ⊎ (Resting cfg u × (io.reader.left u.reader < b))
      lower u j rd (inl z) = inl z
      lower u j rd (inr z) = inr (z, rw rd l)

  -- The update of the packet writes nothing.
  moved :
      {w v u : Depacketizer io} {xs : List Sample} {j : ℕ}
      → Same cfg v w
      → Tally cfg v u xs j
      → Tally cfg w u xs j
  moved {xs = xs} (p, b) t = record {
    played = t.played;
    missed = t.missed;
    is_mixed = subst (λ x. Mixed cfg x t.played t.missed xs) b t.is_mixed;
    is_sum = t.is_sum;
    is_counted = λ h. (let q = t.is_counted (omega (arith, p)) in omega (arith, p, q));
    same_beep = t.same_beep ∙ b;
  }

  based :
      (b n : ℕ) (w v : Depacketizer io) (o : Option (List Sample × Depacketizer io))
      → Same cfg v w
      → Wrote cfg b n v o
      → Wrote cfg b n w o
  based b n w v o sm (xs, u, j, e, l, q, c, t, x) = (xs, u, j, e, l, q, c, moved sm t, x)

  step_playing :
      (left : ℕ) (w v : Depacketizer io) (p : Packet)
      → update_packet io w ≡ some v
      → v.packet ≡ some p
      → read_samples io left w ≡ read_present io left v
  unfolding read_samples
  step_playing left w v p e f = rw e (ap (λ o. read_from io o left v) f)

  step_resting :
      (left : ℕ) (w v : Depacketizer io)
      → update_packet io w ≡ some v
      → v.packet ≡ none
      → read_samples io left w ≡ some (read_missing_samples io left v)
  unfolding read_samples
  step_resting left w v e f = rw e (ap (λ o. read_from io o left v) f)

  stays : (w : Depacketizer io) (p : Packet) → w.packet ≡ some p → update_packet io w ≡ some w
  unfolding update_packet
  stays w p e = ap (λ o. update_from io o w) e

  pub samples_lem :
      (b n : ℕ) (w : Depacketizer io)
      → Common cfg w
      → Within cfg (suc b) w
      → 0 < n
      → n * cfg.num_channels < 2 ^ 31
      → Wrote cfg b n w (read_samples io (n * cfg.num_channels) w)
  samples_lem b n w c (inr (y, l)) h m =
      rw
        (step_playing (n * cfg.num_channels) w w y.played (stays w y.played y.has_packet)
          y.has_packet)
        (after_update b n w y.played c y (omega (arith, l)) h m)
  samples_lem b n w c (inl (r, l)) h m =
      let (v, o, cv, sm, x) = update_packet-Updates cfg w c r in
      elim x [
        | inr (y, q) ↦
            rw (step_playing (n * cfg.num_channels) w v y.played o y.has_packet)
              (based b n w v _ sm (after_update b n v y.played cv y (omega (arith, q, l)) h m))
        | inl z ↦
            let (xs, f, e, ta) = missing_lem cfg positive n v cv in
            rw (step_resting (n * cfg.num_channels) w v o z.no_packet, f)
              (
                xs,
                missed cfg n v,
                n,
                refl,
                e,
                omega arith,
                Common-missed cfg n v cv,
                moved sm ta,
                inl (refl, inl z),
              )
      ]
