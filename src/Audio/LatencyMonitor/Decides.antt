-- ===== src/Audio/LatencyMonitor/Decides.antt =====
-- What an update of src/modules/roc_audio/latency_monitor.cpp comes to: whether the session goes on, and
-- with which factor the resampler goes on.
use roc.Prelude.{
  ℕ, ◌+◌, ◌<◌, ◌≡◌, sym, ap, subst, ◌⊎◌, inl, inr, Bool, true, false, Option, none, some, arith,
  Bool-cases, Option-cases, ℤ, is_neg, int_lt, if◌then◌else◌,
}
use roc.Packet.Units.{u32_mod}
use roc.Packet.SortedQueue.{SortedQueue}
use roc.Audio.FreqEstimator.{Floats, Filter}
use roc.Audio.FreqEstimator.Bounds.{IsValid}
use roc.Audio.Depacketizer.{Inputs, Depacketizer}
use roc.Audio.LatencyMonitor.{
  LatencyMonitor, Scaler, first_pos, update_loop, update_resampler, update_with, update_known,
  check_latency, trim_scaling, get_latency, update, to_timestamp,
}
use roc.Audio.LatencyMonitor.Catches.{Catches, update_loop-Catches}

module _ (f : Floats) (s : Scaler f) (h : Filter f) where
  -- The factor of the estimator, kept between one less and one more than the greatest change of it.
  pub data Trimmed (w : LatencyMonitor f s) (x : f.Float) : f.Float → Type 0 where
    low :
        f.less x (f.sub (f.of_nat 1) w.max_scaling_delta) ≡ true
        → Trimmed w x (f.sub (f.of_nat 1) w.max_scaling_delta)
    high :
        f.less x (f.sub (f.of_nat 1) w.max_scaling_delta) ≡ false
        → f.less (f.add (f.of_nat 1) w.max_scaling_delta) x ≡ true
        → Trimmed w x (f.add (f.of_nat 1) w.max_scaling_delta)
    between :
        f.less x (f.sub (f.of_nat 1) w.max_scaling_delta) ≡ false
        → f.less (f.add (f.of_nat 1) w.max_scaling_delta) x ≡ false
        → Trimmed w x x

  trim_scaling-Trimmed : (x : f.Float) (w : LatencyMonitor f s) → Trimmed w x (trim_scaling f s x w)
  unfolding trim_scaling
  trim_scaling-Trimmed x w = elim (Bool-cases (f.less x (f.sub (f.of_nat 1) w.max_scaling_delta))) [
    | inl e ↦ rw e (low e)
    | inr e ↦ elim (Bool-cases (f.less (f.add (f.of_nat 1) w.max_scaling_delta) x)) [
      | inl k ↦ rw (e, k) (high e k)
      | inr k ↦ rw (e, k) (between e k)
    ]
  ]

  -- Not below the least latency, and not above the greatest.
  abbrev pub Within : ℤ → LatencyMonitor f s → Type 0
  Within latency w = (int_lt latency w.min_latency ≡ false) × (int_lt w.max_latency latency ≡ false)

  check_latency-Within :
      (latency : ℤ) (w : LatencyMonitor f s)
      → ((check_latency f s latency w ≡ true) × Within latency w)
        ⊎ ((check_latency f s latency w ≡ false)
            × ((int_lt latency w.min_latency ≡ true) ⊎ (int_lt w.max_latency latency ≡ true)))
  unfolding check_latency
  check_latency-Within latency w = elim (Bool-cases (int_lt latency w.min_latency)) [
    | inl e ↦ inr (rw e, inl e)
    | inr e ↦ elim (Bool-cases (int_lt w.max_latency latency)) [
      | inl k ↦ inr (rw (e, k), inr k)
      | inr k ↦ inl (rw (e, k), (e, k))
    ]
  ]

  -- The latency that the estimator is given: a negative one counts as 0.
  abbrev pub given : ℤ → ℕ
  given latency = if is_neg latency then 0 else to_timestamp latency

  -- The cases of an update: no latency yet, one outside of the bounds, nothing to resample, or a resampler
  -- that is given the trimmed factor of the estimator, once that has caught up with the time.
  pub data Decides (time : ℕ) (w : LatencyMonitor f s)
      : Option ℤ → Option (Bool × LatencyMonitor f s) → Type 0 where
    unknown : Decides time w none (some (true, w))
    outside :
        (latency : ℤ)
        → (int_lt latency w.min_latency ≡ true) ⊎ (int_lt w.max_latency latency ≡ true)
        → Decides time w (some latency) (some (false, w))
    plain :
        (latency : ℤ)
        → Within latency w
        → w.resampler ≡ none
        → Decides time w (some latency) (some (true, w))
    resampled :
        (latency : ℤ) (r : s.State) (v : LatencyMonitor f s) (x : f.Float)
        → Within latency w
        → w.resampler ≡ some r
        → Catches f s h time (given latency) (first_pos f s time w) v
        → Trimmed v v.fe.coeff x
        → Decides time w (some latency) (
            some (
              (s.set_scaling (f.mul v.sample_rate_coeff x) r).0,
              record v { resampler = some (s.set_scaling (f.mul v.sample_rate_coeff x) r).1 },
            ))

  abbrev begun : ℕ → LatencyMonitor f s → LatencyMonitor f s
  begun time w = record w { has_update_pos = true; update_pos = time }

  abbrev Caught : ℕ → ℕ → ℕ → LatencyMonitor f s → Type 0
  Caught fuel time l u =
      (v : LatencyMonitor f s) × (update_loop f s h fuel time l u ≡ some v)
      × Catches f s h time l u v

  resampler_lem :
      (fuel time : ℕ) (latency : ℤ) (r : s.State) (w : LatencyMonitor f s)
      → IsValid f w.fe
      → 0 < w.update_interval
      → time + w.update_interval < u32_mod
      → time + 1 < fuel
      → Within latency w
      → w.resampler ≡ some r
      → Decides time w (some latency) (
          update_resampler f s h fuel time (if is_neg latency then 0 else to_timestamp latency) r w)
  unfolding update_resampler
  resampler_lem fuel time latency r w k p b e t q =
      let l = if is_neg latency then 0 else to_timestamp latency in
      let (v, o, x) = caught l (Bool-cases w.has_update_pos) in
      rw (o) (
        resampled latency r v (trim_scaling f s v.fe.coeff v) t q x
          (trim_scaling-Trimmed v.fe.coeff v))
    where
      chosen :
          {b : Bool} → w.has_update_pos ≡ b → first_pos f s time w ≡ (if b then w else begun time w)
      chosen y = ap (λ x. if x then w else begun time w) y

      caught :
          (l : ℕ)
          → (w.has_update_pos ≡ true) ⊎ (w.has_update_pos ≡ false)
          → Caught fuel time l (first_pos f s time w)
      caught l (inl y) =
          subst (Caught fuel time l) (sym (chosen y))
            (update_loop-Catches f s h fuel time l w k p b (omega arith) (omega arith))
      caught l (inr y) =
          subst (Caught fuel time l) (sym (chosen y))
            (update_loop-Catches f s h fuel time l (begun time w) k p b (omega arith) (omega arith))

  known_lem :
      (fuel time : ℕ) (latency : Option ℤ) (w : LatencyMonitor f s)
      → IsValid f w.fe
      → 0 < w.update_interval
      → time + w.update_interval < u32_mod
      → time + 1 < fuel
      → Decides time w latency (update_known f s h fuel time latency w)
  unfolding update_with
  known_lem fuel time none w k p b e = unknown
  known_lem fuel time (some l) w k p b e = elim (check_latency-Within l w) [
    | inr (c, t) ↦ rw c (outside l t)
    | inl (c, t) ↦ rw c (elim (Option-cases w.resampler) [
      | inl q ↦ with_none q (plain l t q)
      | inr (r, q) ↦ with_some r q (resampler_lem fuel time l r w k p b e t q)
    ])
  ]
    where
      with_none :
          w.resampler ≡ none
          → Decides time w (some l) (some (true, w))
          → Decides time w (some l) (update_with f s h fuel time l w.resampler w)
      with_none q x =
          let step : Option s.State → Option (Bool × LatencyMonitor f s) =
            λ o. update_with f s h fuel time l o w in
          subst (λ o. Decides time w (some l) (step o)) (sym q) x

      with_some :
          (r : s.State)
          → w.resampler ≡ some r
          → Decides time w
              (some l)
              (update_resampler f s h fuel time (if is_neg l then 0 else to_timestamp l) r w)
          → Decides time w (some l) (update_with f s h fuel time l w.resampler w)
      with_some r q x =
          let step : Option s.State → Option (Bool × LatencyMonitor f s) =
            λ o. update_with f s h fuel time l o w in
          subst (λ o. Decides time w (some l) (step o)) (sym q) x

module _ {Sample : Type 0} (io : Inputs Sample) where
  -- An update at a time that leaves room for an interval below 2^32, with a valid frequency estimator, an
  -- interval above 0 and more rounds than the time has samples, ends: without a latency the session goes
  -- on, with one below the least or above the greatest one it does not, without a resampler it goes on;
  -- with one the estimator is updated with the latency, which counts as 0 if it is negative, once for each
  -- interval that has passed, so that the next update is due behind the time, and the session goes on
  -- exactly if the resampler takes the factor of the estimator, kept between one less and one more than
  -- the greatest change.
  pub update-Decides :
      (f : Floats) (s : Scaler f) (h : Filter f) (fuel time : ℕ) (queue : SortedQueue)
      (depacketizer : Depacketizer io) (w : LatencyMonitor f s)
      → IsValid f w.fe
      → 0 < w.update_interval
      → time + w.update_interval < u32_mod
      → time + 1 < fuel
      → Decides f s h time w
          (get_latency io queue depacketizer)
          (update io f s h fuel time queue depacketizer w)
  unfolding update
  update-Decides f s h fuel time queue depacketizer w k p b e =
      known_lem f s h fuel time (get_latency io queue depacketizer) w k p b e
