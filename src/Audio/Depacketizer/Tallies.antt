-- ===== src/Audio/Depacketizer/Tallies.antt =====
-- What a frame is made of: runs of samples that the decoder gave, and of silence or beeps for missing
-- ones, each counted for one channel.
use roc.Prelude.{
  ℕ, ◌+◌, ◌*◌, ◌%◌, ◌<◌, ◌≡◌, sym, subst, ◌∙◌, Bool, some, List, [], ◌++◌, append_assoc, arith,
  replicate, if◌then◌else◌,
}
use roc.Packet.Units.{u32_mod}
use roc.Audio.Depacketizer.{Inputs, Depacketizer, write_beep}
use roc.Audio.Depacketizer.Contract.{Setting}

module _ {Sample : Type 0} {io : Inputs Sample} (cfg : Setting io) where
  -- What stands for `n` missing samples of each channel.
  abbrev pub filler : Bool → ℕ → List Sample
  filler beep n =
      if beep
      then write_beep io.beep_at 0 (n * cfg.num_channels)
      else replicate (n * cfg.num_channels) io.silence

  -- So many samples are from packets, and so many are missing.
  pub data Mixed (beep : Bool) : ℕ → ℕ → List Sample → Type 0 where
    done : Mixed beep 0 0 []
    missing :
        {a m : ℕ} {xs : List Sample} (n : ℕ)
        → Mixed beep a m xs
        → Mixed beep a (n + m) (filler beep n ++ xs)
    decoded :
        {a m : ℕ} {xs : List Sample} (s t : io.decoder.State) (n j : ℕ) (ys : List Sample)
        → io.decoder.read n cfg.channels s ≡ some (j, ys, t)
        → Mixed beep a m xs
        → Mixed beep (j + a) m (ys ++ xs)

  Mixed-append :
      {b : Bool} {a m a' m' : ℕ} {xs ys : List Sample}
      → Mixed b a m xs
      → Mixed b a' m' ys
      → Mixed b (a + a') (m + m') (xs ++ ys)
  Mixed-append {b} {a' = a'} {m' = m'} {ys = ys} done h =
      let p : a' ≡ 0 + a' = omega arith in
      let q : m' ≡ 0 + m' = omega arith in
      subst (λ k. Mixed b k (0 + m') ys) p (subst (λ k. Mixed b a' k ys) q h)
  Mixed-append {b} {a' = a'} {m' = m'} {ys = ys} (missing {a} {m} {xs} n r) h =
      let p : n + (m + m') ≡ n + m + m' = omega arith in
      subst (λ k. Mixed b (a + a') k ((filler b n ++ xs) ++ ys)) p
        (subst (λ l. Mixed b (a + a') (n + (m + m')) l) (sym (append_assoc (filler b n) xs ys))
          (missing n (Mixed-append r h)))
  Mixed-append {b} {a' = a'} {m' = m'} {ys = ys} (decoded {a} {m} {xs} s t n j zs e r) h =
      let p : j + (a + a') ≡ j + a + a' = omega arith in
      subst (λ k. Mixed b k (m + m') ((zs ++ xs) ++ ys)) p
        (subst (λ l. Mixed b (j + (a + a')) (m + m') l) (sym (append_assoc zs xs ys))
          (decoded s t n j zs e (Mixed-append r h)))

  abbrev W : Type 0
  W = Depacketizer io

  -- From `w` to `v`, `j` samples of each channel were written, and the counter of those from packets was
  -- moved by as many as are from packets.
  pub record Tally (w v : W) (xs : List Sample) (j : ℕ) : Type 0 where
    pub played : ℕ
    pub missed : ℕ
    pub is_mixed : Mixed w.beep played missed xs
    pub is_sum : played + missed ≡ j
    pub is_counted :
        w.packet_samples < u32_mod → v.packet_samples ≡ (w.packet_samples + played) % u32_mod
    pub same_beep : v.beep ≡ w.beep

  pub Tally-append :
      {w v u : W} {xs ys : List Sample} {j l : ℕ}
      → Tally w v xs j
      → Tally v u ys l
      → Tally w u (xs ++ ys) (j + l)
  Tally-append {w} {v} {u} {xs} {ys} {j} {l} x y = record {
    played = x.played + y.played;
    missed = x.missed + y.missed;
    is_mixed =
        Mixed-append x.is_mixed (subst (λ b. Mixed b y.played y.missed ys) x.same_beep y.is_mixed);
    is_sum = omega (arith, x.is_sum, y.is_sum);
    is_counted = λ h.
        (let p = x.is_counted h in
          let q : v.packet_samples < u32_mod = omega (arith, p) in
          let r = y.is_counted q in omega (arith, p, r));
    same_beep = y.same_beep ∙ x.same_beep;
  }
