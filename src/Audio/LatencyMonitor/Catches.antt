-- ===== src/Audio/LatencyMonitor/Catches.antt =====
-- The loop of src/modules/roc_audio/latency_monitor.cpp that catches up with the time, and what an update
-- comes to.
use native.Mathlib.Nat.{suc-mul}
use roc.Prelude.{
  ℕ, zero, suc, ◌+◌, ◌-◌, ◌*◌, ◌%◌, ◌<◌, ◌≤◌, ◌≡◌, ◌⊎◌, refl, ◌∙◌, inl, inr, false, Option, none,
  some, ◌>>=◌, arith, ltb, Bool-cases, Option-cases,
}
use roc.Packet.Units.{u32_mod}
use roc.Audio.FreqEstimator
use roc.Audio.FreqEstimator.{Floats, Filter, FreqEstimator}
use roc.Audio.FreqEstimator.Bounds.{IsValid, update-Updates}
use roc.Audio.LatencyMonitor.{LatencyMonitor, Scaler, update_loop}

module _ (f : Floats) (s : Scaler f) (h : Filter f) where
  -- The estimator after so many updates with a latency, one after the other.
  pub estimated : ℕ → ℕ → FreqEstimator f → Option (FreqEstimator f)
  estimated zero latency e = some e
  estimated (suc n) latency e = FreqEstimator.update f h latency e >>= λ e'. estimated n latency e'

  -- So many updates of the estimator were made with the latency, one for each interval that has passed, and the next one is
  -- due behind the time.
  pub record Catches (time latency : ℕ) (w v : LatencyMonitor f s) : Type 0 where
    pub updates : ℕ
    pub estimates : estimated updates latency w.fe ≡ some v.fe
    pub moved : v.update_pos ≡ w.update_pos + updates * w.update_interval
    pub is_ahead : time < v.update_pos
    pub not_early : (v.update_pos ≡ w.update_pos) ⊎ (v.update_pos ≤ time + w.update_interval)
    pub is_valid : IsValid f v.fe
    pub same_rest : v ≡ record w { fe = v.fe; update_pos = v.update_pos }

  further : (i n a b : ℕ) → b ≡ (a + i) + n * i → b ≡ a + suc n * i
  further i n a b e =
      let q : suc n * i ≡ i + n * i =
        suc-mul n i ∙ (let r : n * i + i ≡ i + n * i = omega arith in r) in
      omega (arith, e, q)

  loop_step :
      (fuel time latency : ℕ) (w : LatencyMonitor f s) (e : FreqEstimator f)
      → ltb time w.update_pos ≡ false
      → FreqEstimator.update f h latency w.fe ≡ some e
      → update_loop f s h (suc fuel) time latency w
        ≡ update_loop f s h fuel time latency
            (record w { fe = e; update_pos = (w.update_pos + w.update_interval) % u32_mod })
  unfolding update_loop
  loop_step fuel time latency w e t q = rw (t, update_loop, q) refl

  loop_fault :
      (fuel time latency : ℕ) (w : LatencyMonitor f s)
      → ltb time w.update_pos ≡ false
      → FreqEstimator.update f h latency w.fe ≡ none
      → update_loop f s h (suc fuel) time latency w ≡ none
  unfolding update_loop
  loop_fault fuel time latency w t q = rw (t, update_loop, q) refl

  pub update_loop-Catches :
      (fuel time latency : ℕ) (w : LatencyMonitor f s)
      → IsValid f w.fe
      → 0 < w.update_interval
      → time + w.update_interval < u32_mod
      → time + 1 < w.update_pos + fuel
      → 0 < fuel
      → (v : LatencyMonitor f s) × (update_loop f s h fuel time latency w ≡ some v)
        × Catches time latency w v
  unfolding update_loop estimated
  update_loop-Catches zero time latency w k p b e z = absurd (omega arith)
  update_loop-Catches (suc fuel) time latency w k p b e z =
      elim (Bool-cases (ltb time w.update_pos)) [
        | inl t ↦
            rw (t, update_loop)
              (
                w,
                refl,
                record {
                  updates = 0;
                  estimates = refl;
                  moved = omega arith;
                  is_ahead = ground arith;
                  not_early = inl refl;
                  is_valid = k;
                  same_rest = refl;
                },
              )
        | inr t ↦
            let (fe, q, kf, c1, c2) = update-Updates f h latency w.fe k in
            let m : (w.update_pos + w.update_interval) % u32_mod
                ≡ w.update_pos + w.update_interval =
              ground (arith, b) in
            let u : LatencyMonitor f s = record w {
              fe = fe;
              update_pos = w.update_pos + w.update_interval;
            } in
            let (v, o, x) =
              update_loop-Catches fuel time latency u kf p b (ground arith) (ground arith) in
            rw (loop_step fuel time latency w fe t q, m, o)
              (
                v,
                refl,
                record {
                  updates = suc x.updates;
                  estimates = rw (q) x.estimates;
                  moved = further w.update_interval x.updates w.update_pos v.update_pos x.moved;
                  is_ahead = x.is_ahead;
                  not_early = inr (elim x.not_early [ inl y ↦ ground (arith, y) | inr y ↦ y ]);
                  is_valid = x.is_valid;
                  same_rest = x.same_rest;
                },
              )
      ]

  -- At the greatest time the next update is never behind it.
  pub update_loop_diverges :
      (fuel latency : ℕ) (w : LatencyMonitor f s)
      → w.update_pos < u32_mod
      → update_loop f s h fuel (u32_mod - 1) latency w ≡ none
  unfolding update_loop
  update_loop_diverges zero latency w l = refl
  update_loop_diverges (suc fuel) latency w l =
      elim (Option-cases (FreqEstimator.update f h latency w.fe)) [
        | inl e ↦ loop_fault fuel (u32_mod - 1) latency w (ground (arith, l)) e
        | inr (fe, e) ↦
            loop_step fuel (u32_mod - 1) latency w fe (ground (arith, l)) e
            ∙ update_loop_diverges fuel latency
                (record w { fe = fe; update_pos = (w.update_pos + w.update_interval) % u32_mod })
                (omega arith)
      ]
