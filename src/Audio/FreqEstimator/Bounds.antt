-- ===== src/Audio/FreqEstimator/Bounds.antt =====
-- The filters of src/modules/roc_audio/freq_estimator.cpp: they stay inside their arrays.
use roc.Prelude.{
  ℕ, ◌+◌, ◌-◌, ◌%◌, ◌<◌, ◌≤◌, ◌≡◌, ◌≢◌, refl, ◌∙◌, inl, inr, true, Option, none, some, List, [],
  ◌∷◌, arith, length, length-set, length-replicate, ltb, ◌==◌, get_elem?, set, Bool-cases,
}
use roc.Packet.Units.{u64_mod}
use roc.Audio.FreqEstimator
use roc.Audio.FreqEstimator.{
  Floats, Filter, FreqEstimator, fe_decim_len, dot_loop, dot_prod, next_sample, second_decimator,
  first_decimator, run_decimators, run_controller, controlled, update,
}

get_elem?_at {ℓ} :
    {A : Type ℓ} (xs : List A) (i : ℕ) → i < length xs → (x : A) × (get_elem? xs i ≡ some x)
get_elem?_at [] i h = absurd (omega arith)
get_elem?_at (x ∷ xs) Prim.Native.Nat.zero h = (x, refl)
get_elem?_at (x ∷ xs) (Prim.Native.Nat.suc i) h = get_elem?_at xs i (omega arith)

module _ (f : Floats) where
  dot_loop_in :
      (coeff samples : List f.Float) (i : ℕ) (accum : f.Double)
      → length samples ≡ fe_decim_len
      → i < fe_decim_len
      → (x : f.Double) × (dot_loop f coeff samples i accum ≡ some x)
  unfolding dot_loop
  dot_loop_in [] samples i accum l h = (accum, refl)
  dot_loop_in (c ∷ coeff) samples i accum l h =
      let (x, e) = get_elem?_at samples i (omega arith) in
      rw (e) (
        dot_loop_in coeff samples ((i + u64_mod - 1) % u64_mod % fe_decim_len)
          (f.double_add accum (f.double_mul (f.to_double c) (f.to_double x))) l (omega arith))

  dot_prod_in :
      (coeff samples : List f.Float) (i : ℕ)
      → length samples ≡ fe_decim_len
      → i < fe_decim_len
      → (x : f.Float) × (dot_prod f coeff samples i ≡ some x)
  unfolding dot_prod
  dot_prod_in coeff samples i l h =
      let (x, e) = dot_loop_in coeff samples i f.double_zero l h in rw (e) (f.to_float x, refl)

  -- The buffers have their sizes, the indices are inside, and the counter counts to a hundred.
  pub record IsValid (w : FreqEstimator f) : Type 0 where
    pub dec1_size : length w.dec1_casc_buff ≡ fe_decim_len
    pub dec2_size : length w.dec2_casc_buff ≡ fe_decim_len
    pub dec1_in : w.dec1_ind < fe_decim_len
    pub dec2_in : w.dec2_ind < fe_decim_len
    pub counter_in : w.samples_counter < 100

  pub init-IsValid : (target : ℕ) → IsValid (FreqEstimator.init f target)
  unfolding FreqEstimator.init
  init-IsValid target = record {
    dec1_size = length-replicate fe_decim_len (f.of_nat target);
    dec2_size = length-replicate fe_decim_len (f.of_nat target);
    dec1_in = omega arith;
    dec2_in = omega arith;
    counter_in = omega arith;
  }

  -- From a state whose counter was moved on: an output only once the counter has come round.
  Outputs : FreqEstimator f → Option (Option f.Float × FreqEstimator f) → Type 0
  Outputs w o =
      (r : Option f.Float) × (v : FreqEstimator f) × (o ≡ some (r, v))
      × IsValid v
      × (v.samples_counter ≡ w.samples_counter % 100)
      × (v.coeff ≡ w.coeff)
      × (w.samples_counter ≢ 100 → r ≡ none)

  -- The counter has been moved on.
  record Moved (w : FreqEstimator f) : Type 0 where
    dec1_size : length w.dec1_casc_buff ≡ fe_decim_len
    dec2_size : length w.dec2_casc_buff ≡ fe_decim_len
    dec1_in : w.dec1_ind < fe_decim_len
    dec2_in : w.dec2_ind < fe_decim_len
    counter_in : (0 < w.samples_counter) × (w.samples_counter ≤ 100)

  second_decimator-Outputs :
      (h : Filter f) (w : FreqEstimator f) → Moved w → Outputs w (second_decimator f h w)
  unfolding second_decimator next_sample Outputs
  second_decimator-Outputs h w m = elim (Bool-cases (w.samples_counter % 100 == 0)) [
    | inl t ↦
        let (x, e) = dot_prod_in h.fe_decim_h w.dec2_casc_buff w.dec2_ind m.dec2_size m.dec2_in in
        rw (t, e)
          (
            some (f.div x h.fe_decim_h_gain),
            record w { samples_counter = 0 },
            refl,
            record {
              dec1_size = m.dec1_size;
              dec2_size = m.dec2_size;
              dec1_in = m.dec1_in;
              dec2_in = m.dec2_in;
              counter_in = omega arith;
            },
            ground arith,
            refl,
            λ n. absurd (n (ground (arith, m.counter_in.0, m.counter_in.1))),
          )
    | inr t ↦
        let l : w.samples_counter < 100 = ground (arith, m.counter_in.1) in
        rw (t) (
          none,
          record w {
            dec1_ind = (w.dec1_ind + 1) % fe_decim_len;
            dec2_ind = (w.dec2_ind + 1) % fe_decim_len;
          },
          refl,
          record {
            dec1_size = m.dec1_size;
            dec2_size = m.dec2_size;
            dec1_in = omega arith;
            dec2_in = omega arith;
            counter_in = l;
          },
          omega arith,
          refl,
          λ n. refl,
        )
  ]

  first_decimator-Outputs :
      (h : Filter f) (w : FreqEstimator f) → Moved w → Outputs w (first_decimator f h w)
  unfolding first_decimator Outputs
  first_decimator-Outputs h w m =
      let (x, e) = dot_prod_in h.fe_decim_h w.dec1_casc_buff w.dec1_ind m.dec1_size m.dec1_in in
      let t : ltb w.dec2_ind fe_decim_len ≡ true = ground (arith, m.dec2_in) in
      let y = f.div x h.fe_decim_h_gain in
      rw (e, t)
        (second_decimator-Outputs h
          (record w { dec2_casc_buff = set w.dec2_casc_buff w.dec2_ind y })
          (record {
            dec1_size = m.dec1_size;
            dec2_size = length-set w.dec2_casc_buff w.dec2_ind y ∙ m.dec2_size;
            dec1_in = m.dec1_in;
            dec2_in = m.dec2_in;
            counter_in = m.counter_in;
          }))

  run_decimators-Outputs :
      (h : Filter f) (current : ℕ) (w : FreqEstimator f)
      → IsValid w
      → Outputs
          (record w { samples_counter = w.samples_counter + 1 })
          (run_decimators f h current w)
  unfolding run_decimators next_sample Outputs
  run_decimators-Outputs h current w m =
      let t : ltb w.dec1_ind fe_decim_len ≡ true = ground (arith, m.dec1_in) in
      let c : (w.samples_counter + 1) % u64_mod ≡ w.samples_counter + 1 =
        omega (arith, m.counter_in) in
      let b = set w.dec1_casc_buff w.dec1_ind (f.of_nat current) in
      let s : length b ≡ fe_decim_len =
        length-set w.dec1_casc_buff w.dec1_ind (f.of_nat current) ∙ m.dec1_size in
      let v : FreqEstimator f = record w {
        samples_counter = w.samples_counter + 1;
        dec1_casc_buff = b;
      } in
      elim (Bool-cases ((w.samples_counter + 1) % 10 == 0)) [
        | inl z ↦
            rw (t, c, z)
              (first_decimator-Outputs h v (record {
                dec1_size = s;
                dec2_size = m.dec2_size;
                dec1_in = m.dec1_in;
                dec2_in = m.dec2_in;
                counter_in = (omega arith, omega (arith, m.counter_in));
              }))
        | inr z ↦
            let l : w.samples_counter + 1 < 100 = ground (arith, m.counter_in) in
            rw (t, c, z)
              (
                none,
                record v { dec1_ind = (w.dec1_ind + 1) % fe_decim_len },
                refl,
                record {
                  dec1_size = s;
                  dec2_size = m.dec2_size;
                  dec1_in = omega arith;
                  dec2_in = m.dec2_in;
                  counter_in = l;
                },
                omega (arith, l),
                refl,
                λ n. refl,
              )
      ]

  -- An update of a valid frequency estimator reads and writes inside its arrays, whatever the filter and
  -- the latency are, leaves a valid one, and changes the coefficient at most every hundredth time.
  pub update-Updates :
      (h : Filter f) (current : ℕ) (w : FreqEstimator f)
      → IsValid w
      → (v : FreqEstimator f) × (update f h current w ≡ some v)
        × IsValid v
        × (v.samples_counter ≡ (w.samples_counter + 1) % 100)
        × (w.samples_counter ≢ 99 → v.coeff ≡ w.coeff)
  unfolding update Outputs run_controller
  update-Updates h current w m = ended (run_decimators-Outputs h current w m)
    where
      ended :
          Outputs
            (record w { samples_counter = w.samples_counter + 1 })
            (run_decimators f h current w)
          → (v : FreqEstimator f) × (update f h current w ≡ some v)
            × IsValid v
            × (v.samples_counter ≡ (w.samples_counter + 1) % 100)
            × (w.samples_counter ≢ 99 → v.coeff ≡ w.coeff)
      ended (none, v, e, k, c, same, out) = rw (e) (v, refl, k, c, λ n. same)
      ended (some x, v, e, k, c, same, out) = rw (e) (
        controlled f h (some x) v,
        refl,
        record {
          dec1_size = k.dec1_size;
          dec2_size = k.dec2_size;
          dec1_in = k.dec1_in;
          dec2_in = k.dec2_in;
          counter_in = k.counter_in;
        },
        c,
        λ n. (let z : some x ≡ none = out (λ q. n (omega (arith, q))) in absurd (cc)),
      )
