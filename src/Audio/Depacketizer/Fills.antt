-- ===== src/Audio/Depacketizer/Fills.antt =====
-- The depacketizer fills a frame: it ends, does not panic and writes as many samples as are wanted.
use mathlib.Core.Path.{◌∙◌}
use native.Mathlib.Nat.{mul-le-mul_left}
use roc.Prelude.{
  ℕ, ◌*◌, ◌^◌, ◌%◌, ◌≤◌, ◌<◌, ◌≡◌, refl, ap, inl, inr, true, [], arith, min, Bool-cases, ◌==◌,
}
use roc.Packet.Units.{u64_mod, timestamp_lt}
use roc.Audio.Depacketizer.{Inputs, Depacketizer, read_missing_samples, read_behind, read_present}
use roc.Audio.Depacketizer.Contract.{Setting}
use roc.Audio.Depacketizer.Gaps.{gap, missing_cases}
use roc.Audio.Depacketizer.States.{Common, Playing}
use roc.Audio.Depacketizer.Missing.{Playing-missed, missed, missing_lem, Common-missed, nothing}
use roc.Audio.Depacketizer.Packets.{Writes, behind_lem, full_lem}

module _ {Sample : Type 0} {io : Inputs Sample} (cfg : Setting io) (positive : 0 < cfg.num_channels)
    (few : cfg.num_channels ≤ 32) where
  pub present_lem :
      (n : ℕ) (w : Depacketizer io)
      → Common cfg w
      → Playing cfg w
      → 0 < n
      → n * cfg.num_channels < 2 ^ 31
      → Writes cfg n w (read_present io (n * cfg.num_channels) w)
  unfolding read_present
  present_lem n w c p h b = elim (Bool-cases (w.timestamp == io.decoder.position w.decoder)) [
    | inl e ↦
        rw e (
          behind_lem cfg positive n 0 [] w w refl (nothing cfg w) c p (ground arith) (omega arith)
            h)
    | inr e ↦ rw e (elim p.is_ahead [ inl q ↦ absurd (ground arith) | inr q ↦ rw q (apart q) ])
  ]
    where
      at_num :
          {x : ℕ}
          → min
              (cfg.num_channels * gap (io.decoder.position w.decoder) w.timestamp % u64_mod)
              (n * cfg.num_channels)
            ≡ x
          → min
              (w.num_channels * gap (io.decoder.position w.decoder) w.timestamp % u64_mod)
              (n * cfg.num_channels)
            ≡ x
      at_num e =
          ap
            (λ y.
              min (y * gap (io.decoder.position w.decoder) w.timestamp % u64_mod)
                (n * cfg.num_channels))
            c.same_num
          ∙ e

      apart :
          timestamp_lt w.timestamp (io.decoder.position w.decoder) ≡ true
          → Writes cfg n w (
              read_behind io (n * cfg.num_channels) (
                read_missing_samples io
                  (min
                    (w.num_channels * gap (io.decoder.position w.decoder) w.timestamp % u64_mod)
                    (n * cfg.num_channels))
                  w))
      apart q =
          let s : n * 1 ≤ n * cfg.num_channels = mul-le-mul_left n positive in
          elim (missing_cases (io.decoder.position w.decoder) w.timestamp cfg.num_channels n
            (cfg.contract.position_fits w.decoder p.is_busy) c.timestamp_fits q positive few
            (omega (arith, s, b)) b) [
              | inl (e, a) ↦
                  let (xs, o, l, ta) = missing_lem cfg positive n w c in
                  rw (at_num e, o, full_lem cfg n xs (missed cfg n w) l)
                    (
                      xs,
                      missed cfg n w,
                      n,
                      refl,
                      l,
                      omega arith,
                      Common-missed cfg n w c,
                      refl,
                      ta,
                      inl (refl, inr (Playing-missed cfg n w p (a))),
                    )
              | inr (m, e, lt, a) ↦
                  let (xs, o, l, ta) = missing_lem cfg positive m w c in
                  rw (at_num e, o)
                    (behind_lem cfg positive n m xs w (missed cfg m w) refl ta
                      (Common-missed cfg m w c) (Playing-missed cfg m w p (inl a)) a l lt)
            ]
