-- ===== src/Audio/LatencyTests.antt =====
-- Tests of the frequency estimator and the latency monitor of src/modules/roc_audio, and their theorems
-- at concrete inputs.
use roc.Prelude.{
  ℕ, ◌+◌, ◌-◌, ◌*◌, ◌/◌, ◌%◌, ◌≡◌, ◌≢◌, refl, true, false, none, some, [], ◌∷◌, pos, arith, ltb,
}
use roc.Packet.Units.{u32_mod, timestamp_diff}
use roc.Packet.Types.{Packet, rtp, rtp_init, packet_init, flag_rtp, end}
use roc.Packet.Reader.{queue_reader}
use roc.Packet.SortedQueue.{SortedQueue}
use roc.Audio.Depacketizer.{FrameDecoder, Inputs, Depacketizer, started, next_timestamp}
use roc.Audio.FreqEstimator
use roc.Audio.FreqEstimator.{Floats, Filter, FreqEstimator}
use roc.Audio.FreqEstimator.Bounds.{IsValid, init-IsValid, update-Updates}
use roc.Audio.LatencyMonitor.{LatencyMonitor, Scaler, update_loop, get_latency, update}
use roc.Audio.LatencyMonitor.Catches.{update_loop_diverges}
use roc.Audio.LatencyMonitor.Decides.{Decides, update-Decides}

abbrev numbers : Floats
numbers = record {
  Float = ℕ;
  Double = ℕ;
  of_nat = λ n. n;
  add = λ a b. a + b;
  sub = λ a b. a - b;
  mul = λ a b. a * b;
  div = λ a b. a / b;
  less = λ a b. ltb a b;
  double_zero = 0;
  to_double = λ a. a;
  to_float = λ a. a;
  double_add = λ a b. a + b;
  double_mul = λ a b. a * b;
}

abbrev filter : Filter numbers
filter = record { fe_decim_h = 1 ∷ 1 ∷ []; fe_decim_h_gain = 2; proportional = 1; integral = 1 }

abbrev scaler : Scaler numbers
scaler = record { State = ℕ; set_scaling = λ x s. (true, x) }

abbrev decoder : FrameDecoder ℕ
decoder = record {
  State = ℕ;
  position = λ s. s;
  available = λ s. 0;
  begin = λ ts b s. some ts;
  read = λ n c s. some (0, [], s);
  shift = λ n s. some (n, s);
  finish = λ s. some s;
}

abbrev beeps : ℕ → ℕ
beeps n = n

abbrev inputs : Inputs ℕ
inputs = record { silence = 0; beep_at = beeps; decoder = decoder; reader = queue_reader }

abbrev playing : Depacketizer inputs
playing = record {
  reader = [];
  decoder = 0;
  channels = 1;
  num_channels = 1;
  packet = none;
  timestamp = 1000;
  zero_samples = 0;
  missing_samples = 0;
  packet_samples = 0;
  first_packet = false;
  beep = false;
  dropped_packets = 0;
}

abbrev newest : Packet
newest = record packet_init {
  flags = flag_rtp;
  rtp_part = record rtp_init { timestamp = 1300; duration = 100 };
}

abbrev source_queue : SortedQueue
source_queue = record { list = newest ∷ []; latest = some newest; max_size = 0 }

abbrev monitor : LatencyMonitor numbers scaler
monitor = record {
  resampler = some 0;
  fe = FreqEstimator.init numbers 300;
  update_interval = 10;
  update_pos = 20;
  has_update_pos = true;
  min_latency = pos 100;
  max_latency = pos 500;
  max_scaling_delta = 1;
  sample_rate_coeff = 1;
  valid = true;
}

-- The newest packet ends 400 samples behind the position.
get_latency_runs : get_latency inputs source_queue playing ≡ some (pos 400)
unfolding get_latency started next_timestamp end rtp timestamp_diff
get_latency_runs = refl

update-Updates_example :
    (v : FreqEstimator numbers) × (FreqEstimator.update numbers filter 400
        (FreqEstimator.init numbers 300)
      ≡ some v)
    × IsValid numbers v
    × (v.samples_counter ≡ ((FreqEstimator.init numbers 300).samples_counter + 1) % 100)
    × ((FreqEstimator.init numbers 300).samples_counter ≢ 99
        → v.coeff ≡ (FreqEstimator.init numbers 300).coeff)
update-Updates_example =
    update-Updates numbers filter 400 (FreqEstimator.init numbers 300) (init-IsValid numbers 300)

update-Decides_example :
    Decides numbers scaler filter 35 monitor
      (get_latency inputs source_queue playing)
      (update inputs numbers scaler filter 50 35 source_queue playing monitor)
update-Decides_example =
    update-Decides inputs numbers scaler filter 50 35 source_queue playing monitor
      (init-IsValid numbers 300) (omega arith) (omega arith) (omega arith)

update_loop_diverges_example : update_loop numbers scaler filter 50 (u32_mod - 1) 400 monitor ≡ none
update_loop_diverges_example =
    update_loop_diverges numbers scaler filter 50 400 monitor (omega arith)
