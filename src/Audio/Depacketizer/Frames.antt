-- ===== src/Audio/Depacketizer/Frames.antt =====
-- The loop of the depacketizer over a frame.
use native.Mathlib.Nat.{mul-le-mul_right, zero-mul, add-mul-mod_self_right, zero-mod}
use roc.Prelude.{
  ℕ, zero, suc, ◌+◌, ◌-◌, ◌*◌, ◌^◌, ◌%◌, ◌≤◌, ◌<◌, ◌≡◌, refl, sym, subst, ap, ◌∙◌, ◌⊎◌, inl, inr,
  false, Option, some, List, [], ◌++◌, arith, length, length-append, ltb, not, ◌==◌, ◌>>=◌,
}
use roc.Audio.Depacketizer.{Inputs, Depacketizer, read_samples, read_loop, read_frame}
use roc.Audio.Depacketizer.Contract.{Setting}
use roc.Audio.Depacketizer.States.{Common, Resting, Playing}
use roc.Audio.Depacketizer.Tallies.{Tally, Tally-append}
use roc.Audio.Depacketizer.Missing.{nothing}
use roc.Audio.Depacketizer.Packets.{minus_lem}
use roc.Audio.Depacketizer.Rounds.{IsValid, Within, samples_lem}

module _ {Sample : Type 0} {io : Inputs Sample} (cfg : Setting io) where
  -- The frame is full, with `n` samples for each channel.
  abbrev pub Fills : ℕ → Depacketizer io → Option (List Sample × Depacketizer io) → Type 0
  Fills n w o =
      (xs : List Sample) × (v : Depacketizer io) × (o ≡ some (xs, v))
      × (length xs ≡ n * cfg.num_channels)
      × IsValid cfg v
      × Tally cfg w v xs n

module _ {Sample : Type 0} {io : Inputs Sample} (cfg : Setting io) (positive : 0 < cfg.num_channels)
    (few : cfg.num_channels ≤ 32) where
  loop_step :
      (fuel left : ℕ) (w v : Depacketizer io) (xs : List Sample)
      → 0 < left
      → read_samples io left w ≡ some (xs, v)
      → length xs ≤ left
      → read_loop io (suc fuel) left w
        ≡ (read_loop io fuel (left - length xs) v >>= λ b. some (xs ++ b.0, b.1))
  unfolding read_loop
  loop_step fuel left w v xs h e l =
      let z : (left == 0) ≡ false = ground arith in
      let t : ltb left (length xs) ≡ false = ground arith in rw (z, read_loop, e, ◌>>=◌, t) refl

  loop_end : (fuel : ℕ) (w : Depacketizer io) → 0 < fuel → read_loop io fuel 0 w ≡ some ([], w)
  unfolding read_loop
  loop_end zero w h = absurd (omega arith)
  loop_end (suc fuel) w h = refl

  valid-Within : (b : ℕ) (w : Depacketizer io) → Within cfg b w → Resting cfg w ⊎ Playing cfg w
  valid-Within b w (inl (r, l)) = inl r
  valid-Within b w (inr (p, l)) = inr p

  done :
      (fuel n : ℕ) (w : Depacketizer io)
      → 0 < fuel
      → IsValid cfg w
      → n ≡ 0
      → Fills cfg n w (read_loop io fuel (n * cfg.num_channels) w)
  done fuel n w h v e =
      let z : n * cfg.num_channels ≡ 0 =
        ap (λ x. x * cfg.num_channels) e ∙ zero-mul cfg.num_channels in
      rw (z, loop_end fuel w h)
        ([], w, refl, refl, v, subst (Tally cfg w w []) (sym e) (nothing cfg w))

  joined :
      (fuel n j : ℕ) (w v : Depacketizer io) (xs : List Sample)
      → 0 < n * cfg.num_channels
      → read_samples io (n * cfg.num_channels) w ≡ some (xs, v)
      → length xs ≡ j * cfg.num_channels
      → j ≤ n
      → Tally cfg w v xs j
      → Fills cfg (n - j) v (read_loop io fuel ((n - j) * cfg.num_channels) v)
      → Fills cfg n w (read_loop io (suc fuel) (n * cfg.num_channels) w)
  joined fuel n j w v xs h e l q ta (ys, u, o, l', vu, tb) =
      let r = minus_lem cfg n j (length xs) l q in
      let a : j * cfg.num_channels ≤ n * cfg.num_channels = mul-le-mul_right cfg.num_channels q in
      rw (loop_step fuel (n * cfg.num_channels) w v xs h e (omega (arith, a, l)), r, o)
        (
          xs ++ ys,
          u,
          refl,
          length-append xs ys ∙ omega (arith, l, l', r, a),
          vu,
          subst (Tally cfg w u (xs ++ ys)) (omega arith) (Tally-append cfg ta tb),
        )

  loop_lem :
      (fuel b n : ℕ) (w : Depacketizer io)
      → b < fuel
      → Common cfg w
      → Within cfg b w
      → n * cfg.num_channels < 2 ^ 31
      → Fills cfg n w (read_loop io fuel (n * cfg.num_channels) w)
  loop_lem zero b n w h c x m = absurd (omega arith)
  loop_lem (suc fuel) zero n w h c (inl (r, l)) m = absurd (omega arith)
  loop_lem (suc fuel) zero n w h c (inr (r, l)) m = absurd (omega arith)
  loop_lem (suc fuel) (suc b) zero w h c x m =
      done (suc fuel) zero w (omega arith) (c, valid-Within (suc b) w x) refl
  loop_lem (suc fuel) (suc b) (suc n) w h c x m =
      let (xs, v, j, o, e, q, cv, ta, y) =
        samples_lem cfg positive few b (suc n) w c x (omega arith) m in
      let p : 1 * cfg.num_channels ≤ suc n * cfg.num_channels =
        mul-le-mul_right cfg.num_channels (omega arith) in
      joined fuel (suc n) j w v xs (omega (arith, p, positive)) o e q ta (elim y [
        | inl (f, z) ↦ done fuel (suc n - j) v (omega arith) (cv, z) (omega arith)
        | inr (r, l) ↦
            let a : (suc n - j) * cfg.num_channels ≤ suc n * cfg.num_channels =
              mul-le-mul_right cfg.num_channels (omega arith) in
            loop_lem fuel b (suc n - j) v (omega arith) cv (inl (r, l)) (omega (arith, a, m))
      ])

  -- A frame of `n` samples for each channel, fewer than 2^31 in all, is read without a panic and within
  -- the rounds given, with a decoder by its contract and a reader that gives packets with samples:
  -- exactly as many samples are written as the frame holds, however packets are late, missing or cut by
  -- the frame, and the depacketizer stays valid: without a packet the decoder is idle, with one it
  -- stands at the position of the depacketizer or ahead of it.
  pub read_frame-Fills :
      (n : ℕ) (w : Depacketizer io)
      → IsValid cfg w
      → n * cfg.num_channels < 2 ^ 31
      → Fills cfg n w (read_frame io (n * cfg.num_channels) w)
  unfolding read_frame
  read_frame-Fills n w (c, x) m =
      let z : (w.num_channels == 0) ≡ false = ground (arith, c.same_num) in
      let r : n * cfg.num_channels % w.num_channels ≡ 0 =
        ap (λ y. n * cfg.num_channels % y) c.same_num
        ∙ (let q = add-mul-mod_self_right 0 n cfg.num_channels in
            let e : 0 + n * cfg.num_channels ≡ n * cfg.num_channels = omega arith in
            let o : 0 % cfg.num_channels ≡ 0 = zero-mod cfg.num_channels in rw (← e) q ∙ o) in
      let t : not (n * cfg.num_channels % w.num_channels == 0) ≡ false = ground arith in
      rw (z, t)
        (loop_lem (io.reader.left w.reader + 3) (io.reader.left w.reader + 2) n w (omega arith) c
          (within x) m)
    where
      within : Resting cfg w ⊎ Playing cfg w → Within cfg (io.reader.left w.reader + 2) w
      within (inl r) = inl (r, omega arith)
      within (inr p) = inr (p, omega arith)
