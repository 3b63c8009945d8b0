-- ===== src/Audio/LatencyMonitor.antt =====
-- src/modules/roc_audio/latency_monitor.cpp. Floating-point numbers, the conversion of nanoseconds to
-- samples and the resampler are arguments. `none` is fuel that ran out or an access out of bounds.
pub mod Catches
pub mod Decides
use roc.Prelude.{
  ℕ, zero, suc, ◌+◌, ◌-◌, ◌%◌, ◌||◌, Bool, true, false, Option, none, some, ℤ, pos, negsuc, is_neg,
  is_nonpos, int_lt, ltb, ◌==◌, not, if◌then◌else◌, ◌>>=◌,
}
use roc.Packet.Units.{u32_mod, timestamp_diff}
use roc.Packet.Types.{Packet, end}
use roc.Packet.Reader.{IReader}
use roc.Packet.SortedQueue.{SortedQueue}
use roc.Audio.FreqEstimator
use roc.Audio.FreqEstimator.{Floats, Filter, FreqEstimator}
use roc.Audio.Depacketizer.{Inputs, FrameDecoder, Depacketizer, started, next_timestamp}

-- The resampler: a factor is taken, or refused.
pub record Scaler (f : Floats) : Type 1 where
  pub State : Type 0
  pub set_scaling : f.Float → State → Bool × State

-- A difference converted to `packet::timestamp_t`.
abbrev pub to_timestamp : ℤ → ℕ
to_timestamp (pos n) = n % u32_mod
to_timestamp (negsuc n) = (u32_mod - 1) - n % u32_mod

-- LatencyMonitorConfig, in nanoseconds.
pub record LatencyMonitorConfig (f : Floats) : Type 0 where
  pub fe_update_interval : ℤ
  pub min_latency : ℤ
  pub max_latency : ℤ
  pub max_scaling_delta : f.Float

module _ (f : Floats) (s : Scaler f) where
  pub record LatencyMonitor : Type 0 where
    pub resampler : Option s.State
    pub fe : FreqEstimator f
    pub update_interval : ℕ
    pub update_pos : ℕ
    pub has_update_pos : Bool
    pub min_latency : ℤ
    pub max_latency : ℤ
    pub max_scaling_delta : f.Float
    pub sample_rate_coeff : f.Float
    pub valid : Bool

  unfoldable pub init_resampler : ℕ → ℕ → s.State → LatencyMonitor → LatencyMonitor
  init_resampler input_sample_rate output_sample_rate r w =
      if (input_sample_rate == 0) || (output_sample_rate == 0)
      then w
      else (let coeff = f.div (f.of_nat input_sample_rate) (f.of_nat output_sample_rate) in
          record w {
            sample_rate_coeff = coeff;
            resampler = some (s.set_scaling coeff r).1;
            valid = (s.set_scaling coeff r).0;
          })

  -- Sample rates must be equal where nothing resamples.
  unfoldable pub init_rates : ℕ → ℕ → LatencyMonitor → LatencyMonitor
  init_rates input_sample_rate output_sample_rate w = elim w.resampler [
    | some r ↦ init_resampler input_sample_rate output_sample_rate r w
    | none ↦ record w { valid = input_sample_rate == output_sample_rate }
  ]

  unfoldable pub init :
      (ℤ → ℕ → ℤ) → Option s.State → LatencyMonitorConfig f → ℤ → ℕ → ℕ → LatencyMonitor
  init from_ns resampler config target_latency input_sample_rate output_sample_rate =
      let w : LatencyMonitor = record {
        resampler = resampler;
        fe = FreqEstimator.init f (to_timestamp (from_ns target_latency input_sample_rate));
        update_interval = to_timestamp (from_ns config.fe_update_interval input_sample_rate);
        update_pos = 0;
        has_update_pos = false;
        min_latency = from_ns config.min_latency input_sample_rate;
        max_latency = from_ns config.max_latency input_sample_rate;
        max_scaling_delta = config.max_scaling_delta;
        sample_rate_coeff = f.of_nat 0;
        valid = false;
      } in
      if is_nonpos config.fe_update_interval
      then w
      else if int_lt target_latency config.min_latency
          || (int_lt config.max_latency target_latency || is_nonpos target_latency)
      then w
      else init_rates input_sample_rate output_sample_rate w

  unfoldable pub check_latency : ℤ → LatencyMonitor → Bool
  check_latency latency w =
      if int_lt latency w.min_latency then false else not (int_lt w.max_latency latency)

  unfoldable pub trim_scaling : f.Float → LatencyMonitor → f.Float
  trim_scaling freq_coeff w =
      let min_coeff = f.sub (f.of_nat 1) w.max_scaling_delta in
      let max_coeff = f.add (f.of_nat 1) w.max_scaling_delta in
      if f.less freq_coeff min_coeff
      then min_coeff
      else if f.less max_coeff freq_coeff
      then max_coeff
      else freq_coeff

  -- The loop of `update_resampler_`.
  unfoldable pub update_loop : Filter f → ℕ → ℕ → ℕ → LatencyMonitor → Option LatencyMonitor
  update_loop h zero time latency w = none
  update_loop h (suc fuel) time latency w = elim (ltb time w.update_pos) [
    | true ↦ some w
    | false ↦ (FreqEstimator.update f h latency w.fe) >>= λ e.
        update_loop h fuel time latency
          (record w { fe = e; update_pos = (w.update_pos + w.update_interval) % u32_mod })
  ]

  abbrev pub first_pos : ℕ → LatencyMonitor → LatencyMonitor
  first_pos time w =
      if w.has_update_pos then w else record w { has_update_pos = true; update_pos = time }

  abbrev pub scaled : s.State → LatencyMonitor → Bool × LatencyMonitor
  scaled r w =
      let a = s.set_scaling (f.mul w.sample_rate_coeff (trim_scaling w.fe.coeff w)) r in
      (a.0, record w { resampler = some a.1 })

  unfoldable pub update_resampler :
      Filter f → ℕ → ℕ → ℕ → s.State → LatencyMonitor → Option (Bool × LatencyMonitor)
  update_resampler h fuel time latency r w =
      (update_loop h fuel time latency (first_pos time w)) >>= λ v. some (scaled r v)

  -- Without a resampler the latency is only reported; a negative one counts as 0.
  unfoldable pub update_with :
      Filter f → ℕ → ℕ → ℤ → Option s.State → LatencyMonitor → Option (Bool × LatencyMonitor)
  update_with h fuel time latency none w = some (true, w)
  update_with h fuel time latency (some r) w =
      update_resampler h fuel time (if is_neg latency then 0 else to_timestamp latency) r w

  abbrev pub update_known :
      Filter f → ℕ → ℕ → Option ℤ → LatencyMonitor → Option (Bool × LatencyMonitor)
  update_known h fuel time none w = some (true, w)
  update_known h fuel time (some latency) w =
      if check_latency latency w
      then update_with h fuel time latency w.resampler w
      else some (false, w)

module _ {Sample : Type 0} (io : Inputs Sample) where
  abbrev pub latency_to : Option Packet → ℕ → Option ℤ
  latency_to none head = none
  latency_to (some latest) head = some (timestamp_diff (end latest) head)

  unfoldable pub get_latency : SortedQueue → Depacketizer io → Option ℤ
  get_latency queue depacketizer =
      if started io depacketizer
      then latency_to queue.latest (next_timestamp io depacketizer)
      else none

  -- Whether the session goes on.
  unfoldable pub update :
      (f : Floats) (s : Scaler f)
      → Filter f
      → ℕ
      → ℕ
      → SortedQueue
      → Depacketizer io
      → LatencyMonitor f s
      → Option (Bool × LatencyMonitor f s)
  update f s h fuel time queue depacketizer w =
      update_known f s h fuel time (get_latency queue depacketizer) w
