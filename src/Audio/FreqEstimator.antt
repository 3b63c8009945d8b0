-- ===== src/Audio/FreqEstimator.antt =====
-- src/modules/roc_audio/freq_estimator.cpp, with the constants of freq_estimator_decim.h. Floating-point
-- numbers are of any type with the operations that the code uses; the table of the filter, its gain and
-- the gains of the controller are arguments. `none` is an access out of the bounds of an array.
pub mod Bounds
use roc.Prelude.{
  ℕ, ◌+◌, ◌-◌, ◌*◌, ◌%◌, Bool, Option, none, some, List, [], ◌∷◌, ltb, ◌==◌, if◌then◌else◌, set,
  get_elem?, replicate, ◌>>=◌,
}
use roc.Packet.Units.{u64_mod}

pub record Floats : Type 1 where
  pub Float : Type 0
  pub Double : Type 0
  pub of_nat : ℕ → Float
  pub add : Float → Float → Float
  pub sub : Float → Float → Float
  pub mul : Float → Float → Float
  pub div : Float → Float → Float
  pub less : Float → Float → Bool
  pub double_zero : Double
  pub to_double : Float → Double
  pub to_float : Double → Float
  pub double_add : Double → Double → Double
  pub double_mul : Double → Double → Double

abbrev pub fe_decim_factor : ℕ
fe_decim_factor = 10

abbrev pub fe_decim_len : ℕ
fe_decim_len = 256

-- The constants: the filter, its gain, and the gains of the controller.
pub record Filter (f : Floats) : Type 0 where
  pub fe_decim_h : List f.Float
  pub fe_decim_h_gain : f.Float
  pub proportional : f.Float
  pub integral : f.Float

module _ (f : Floats) where
  pub record FreqEstimator : Type 0 where
    pub target : f.Float
    pub dec1_casc_buff : List f.Float
    pub dec1_ind : ℕ
    pub dec2_casc_buff : List f.Float
    pub dec2_ind : ℕ
    pub samples_counter : ℕ
    pub accum : f.Float
    pub coeff : f.Float

  unfoldable pub init : ℕ → FreqEstimator
  init target_latency = record {
    target = f.of_nat target_latency;
    dec1_casc_buff = replicate fe_decim_len (f.of_nat target_latency);
    dec1_ind = 0;
    dec2_casc_buff = replicate fe_decim_len (f.of_nat target_latency);
    dec2_ind = 0;
    samples_counter = 0;
    accum = f.of_nat 0;
    coeff = f.of_nat 1;
  }

  -- A mask of ones is the remainder by the power of two above it.
  unfoldable pub dot_loop : List f.Float → List f.Float → ℕ → f.Double → Option f.Double
  dot_loop [] samples i accum = some accum
  dot_loop (c ∷ coeff) samples i accum = (get_elem? samples i) >>= λ x.
      dot_loop coeff samples ((i + u64_mod - 1) % u64_mod % fe_decim_len)
        (f.double_add accum (f.double_mul (f.to_double c) (f.to_double x)))

  unfoldable pub dot_prod : List f.Float → List f.Float → ℕ → Option f.Float
  dot_prod coeff samples sample_ind =
      (dot_loop coeff samples sample_ind f.double_zero) >>= λ x. some (f.to_float x)

  unfoldable pub next_sample : FreqEstimator → FreqEstimator
  next_sample w = record w { dec1_ind = (w.dec1_ind + 1) % fe_decim_len }

  -- The second decimator, once its sample is stored.
  unfoldable pub second_decimator :
      Filter f → FreqEstimator → Option (Option f.Float × FreqEstimator)
  second_decimator h w =
      if w.samples_counter % (fe_decim_factor * fe_decim_factor) == 0
      then ((dot_prod h.fe_decim_h w.dec2_casc_buff w.dec2_ind) >>= λ x.
          some (some (f.div x h.fe_decim_h_gain), record w { samples_counter = 0 }))
      else some (none, next_sample (record w { dec2_ind = (w.dec2_ind + 1) % fe_decim_len }))

  unfoldable pub first_decimator :
      Filter f → FreqEstimator → Option (Option f.Float × FreqEstimator)
  first_decimator h w = (dot_prod h.fe_decim_h w.dec1_casc_buff w.dec1_ind) >>= λ x.
      if ltb w.dec2_ind fe_decim_len
      then second_decimator h (record w {
        dec2_casc_buff = set w.dec2_casc_buff w.dec2_ind (f.div x h.fe_decim_h_gain);
      })
      else none

  unfoldable pub run_decimators :
      Filter f → ℕ → FreqEstimator → Option (Option f.Float × FreqEstimator)
  run_decimators h current w =
      let v : FreqEstimator = record w {
        samples_counter = (w.samples_counter + 1) % u64_mod;
        dec1_casc_buff = set w.dec1_casc_buff w.dec1_ind (f.of_nat current);
      } in
      if ltb w.dec1_ind fe_decim_len
      then (if v.samples_counter % fe_decim_factor == 0
          then first_decimator h v
          else some (none, next_sample v))
      else none

  unfoldable pub run_controller : Filter f → f.Float → FreqEstimator → f.Float × FreqEstimator
  run_controller h current w =
      let error = f.sub current w.target in
      let accum = f.add w.accum error in
      (
        f.add (f.add (f.of_nat 1) (f.mul h.proportional error)) (f.mul h.integral accum),
        record w { accum = accum },
      )

  abbrev pub controlled : Filter f → Option f.Float → FreqEstimator → FreqEstimator
  controlled h none w = w
  controlled h (some x) w = record (run_controller h x w).1 { coeff = (run_controller h x w).0 }

  unfoldable pub update : Filter f → ℕ → FreqEstimator → Option FreqEstimator
  update h current w = (run_decimators h current w) >>= λ a. some (controlled h a.0 a.1)
