-- ===== src/Audio/Depacketizer/Missing.antt =====
-- The samples that the depacketizer writes in place of missing ones.
use mathlib.Core.Path.{◌∙◌}
use native.Mathlib.Nat.{mul-div_cancel}
use roc.Prelude.{
  ℕ, zero, suc, ◌+◌, ◌*◌, ◌/◌, ◌%◌, ◌<◌, ◌≡◌, refl, ap, subst, Bool, true, false, List, [], ◌∷◌,
  ◌++◌, arith, length, length-replicate, if◌then◌else◌,
}
use roc.Packet.Units.{u32_mod}
use roc.Audio.Depacketizer.{Inputs, Depacketizer, write_beep, read_missing_samples}
use roc.Audio.Depacketizer.Contract.{Setting}
use roc.Audio.Depacketizer.States.{Playing, IsAhead, CommonOf-at, Common}
use roc.Audio.Depacketizer.Tallies.{filler, Mixed, done, missing, Tally}

length-write_beep :
    {Sample : Type 0} (beep_at : ℕ → Sample) (k n : ℕ) → length (write_beep beep_at k n) ≡ n
unfolding write_beep
length-write_beep beep_at k zero = refl
length-write_beep beep_at k (suc n) = ap suc (length-write_beep beep_at (k + 1) n)

module _ {Sample : Type 0} {io : Inputs Sample} (cfg : Setting io) where
  pub nil_right : (xs : List Sample) → xs ++ [] ≡ xs
  nil_right [] = refl
  nil_right (x ∷ xs) = ap (λ l. x ∷ l) (nil_right xs)

  abbrev pub missed : ℕ → Depacketizer io → Depacketizer io
  missed n w = record w {
    timestamp = (w.timestamp + n) % u32_mod;
    zero_samples = if w.first_packet then (w.zero_samples + n) % u32_mod else w.zero_samples;
    missing_samples =
        if w.first_packet then w.missing_samples else (w.missing_samples + n) % u32_mod;
  }

  length-filler : (b : Bool) (n : ℕ) → length (filler cfg b n) ≡ n * cfg.num_channels
  length-filler true n = length-write_beep io.beep_at 0 (n * cfg.num_channels)
  length-filler false n = length-replicate (n * cfg.num_channels) io.silence

  pub Common-missed : (n : ℕ) (w : Depacketizer io) → Common cfg w → Common cfg (missed n w)
  Common-missed n w c = CommonOf-at cfg ((w.timestamp + n) % u32_mod) c (omega arith)

  pub Playing-missed :
      (n : ℕ) (w : Depacketizer io)
      → Playing cfg w
      → IsAhead cfg (missed n w)
      → Playing cfg (missed n w)
  Playing-missed n w p a = record {
    played = p.played;
    has_packet = p.has_packet;
    is_busy = p.is_busy;
    is_ahead = a;
  }

  pub nothing : (w : Depacketizer io) → Tally cfg w w [] 0
  nothing w = record {
    played = 0;
    missed = 0;
    is_mixed = done;
    is_sum = refl;
    is_counted = λ h. omega arith;
    same_beep = refl;
  }

module _ {Sample : Type 0} {io : Inputs Sample} (cfg : Setting io)
    (positive : 0 < cfg.num_channels) where
  -- As many samples are written as the buffer holds.
  pub missing_lem :
      (n : ℕ) (w : Depacketizer io)
      → Common cfg w
      → (xs : List Sample) × (read_missing_samples io (n * cfg.num_channels) w
          ≡ (xs, missed cfg n w))
        × (length xs ≡ n * cfg.num_channels)
        × Tally cfg w (missed cfg n w) xs n
  unfolding read_missing_samples
  missing_lem n w c =
      let q : n * cfg.num_channels / w.num_channels ≡ n =
        ap (λ x. n * cfg.num_channels / x) c.same_num ∙ mul-div_cancel n positive in
      let r : n * w.num_channels ≡ n * cfg.num_channels = ap (λ x. n * x) c.same_num in
      let xs = filler cfg w.beep n in
      rw (q, r)
        (
          xs,
          refl,
          length-filler cfg w.beep n,
          record {
            played = 0;
            missed = n;
            is_mixed =
                subst (Mixed cfg w.beep 0 n) (nil_right cfg xs)
                  (subst (λ k. Mixed cfg w.beep 0 k (xs ++ [])) (omega arith) (missing n done));
            is_sum = omega arith;
            is_counted = λ h. omega arith;
            same_beep = refl;
          },
        )
