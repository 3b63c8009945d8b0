-- ===== src/Audio/Depacketizer/Packets.antt =====
-- The samples that the depacketizer writes from its packet.
use mathlib.Core.Path.{◌∙◌}
use native.Mathlib.Nat.{mul-div_cancel, mul-le-mul_right, add-mul}
use roc.Prelude.{
  ℕ, ◌+◌, ◌-◌, ◌*◌, ◌/◌, ◌%◌, ◌≤◌, ◌<◌, ◌≡◌, refl, sym, ap, ◌⊎◌, inl, inr, subst, Bool, true, false,
  Option, none, some, List, [], ◌++◌, arith, min, length, length-append, ltb, Bool-cases,
}
use roc.Packet.Units.{u32_mod}
use roc.Audio.Depacketizer.{Inputs, Depacketizer, read_packet_samples, read_behind}
use roc.Audio.Depacketizer.Contract.{Setting}
use roc.Audio.Depacketizer.States.{CommonOf-at, Common, Resting, Playing}
use roc.Audio.Depacketizer.Tallies.{Mixed, done, decoded, Tally, Tally-append}
use roc.Audio.Depacketizer.Missing.{nil_right}

module _ {Sample : Type 0} {io : Inputs Sample} (cfg : Setting io) where
  -- What a part of a read comes to for a buffer of `n` samples: it is full, or fewer samples were
  -- written and the packet is at its end.
  abbrev pub Writes : ℕ → Depacketizer io → Option (List Sample × Depacketizer io) → Type 0
  Writes n w o =
      (xs : List Sample) × (v : Depacketizer io) × (j : ℕ) × (o ≡ some (xs, v))
      × (length xs ≡ j * cfg.num_channels)
      × (j ≤ n)
      × Common cfg v
      × (v.reader ≡ w.reader)
      × Tally cfg w v xs j
      × (((j ≡ n) × (Resting cfg v ⊎ Playing cfg v)) ⊎ Resting cfg v)

  from_packet :
      (b : Bool) (s t : io.decoder.State) (n j : ℕ) (ys : List Sample)
      → io.decoder.read n cfg.channels s ≡ some (j, ys, t)
      → Mixed cfg b j 0 ys
  from_packet b s t n j ys e =
      subst (Mixed cfg b j 0) (nil_right cfg ys)
        (subst (λ k. Mixed cfg b k 0 (ys ++ [])) (omega arith) (decoded s t n j ys e done))

  pub minus_lem :
      (n m x : ℕ)
      → x ≡ m * cfg.num_channels
      → m ≤ n
      → n * cfg.num_channels - x ≡ (n - m) * cfg.num_channels
  minus_lem n m x e h =
      let q : n ≡ (n - m) + m = omega arith in
      let r : n * cfg.num_channels ≡ ((n - m) + m) * cfg.num_channels =
        ap (λ y. y * cfg.num_channels) q in
      let s : ((n - m) + m) * cfg.num_channels ≡ (n - m) * cfg.num_channels + m * cfg.num_channels =
        add-mul (n - m) m cfg.num_channels in
      omega (arith, e, r, s)

  pub full_lem :
      (n : ℕ) (xs : List Sample) (w : Depacketizer io)
      → length xs ≡ n * cfg.num_channels
      → read_behind io (n * cfg.num_channels) (xs, w) ≡ some (xs, w)
  unfolding read_behind
  full_lem n xs w l =
      let t : ltb (length xs) (n * cfg.num_channels) ≡ false = ground arith in rw t refl

module _ {Sample : Type 0} {io : Inputs Sample} (cfg : Setting io)
    (positive : 0 < cfg.num_channels) where
  packet_lem :
      (n : ℕ) (w : Depacketizer io)
      → Common cfg w
      → Playing cfg w
      → w.timestamp ≡ io.decoder.position w.decoder
      → Writes cfg n w (read_packet_samples io (n * cfg.num_channels) w)
  unfolding read_packet_samples
  packet_lem n w c p e =
      let q : n * cfg.num_channels / w.num_channels ≡ n =
        ap (λ x. n * cfg.num_channels / x) c.same_num ∙ mul-div_cancel n positive in
      let m = min n (io.decoder.available w.decoder) in
      let (xs, t, f, l, b, pos) = cfg.contract.reads w.decoder n p.is_busy in
      let f' : io.decoder.read n w.channels w.decoder ≡ some (m, xs, t) =
        ap (λ x. io.decoder.read n x w.decoder) c.same_channels ∙ f in
      let v = record w {
        decoder = t;
        timestamp = (w.timestamp + m) % u32_mod;
        packet_samples = (w.packet_samples + m) % u32_mod;
      } in
      let played : (u : Depacketizer io)
          → u.packet_samples ≡ (w.packet_samples + m) % u32_mod
          → u.beep ≡ w.beep
          → Tally cfg w u xs m =
        λ u e b. record {
          played = m;
          missed = 0;
          is_mixed = from_packet cfg w.beep w.decoder t n m xs f;
          is_sum = omega arith;
          is_counted = λ h. e;
          same_beep = b;
        } in
      rw (q, f')
        (elim (Bool-cases (ltb m n)) [
          | inl y ↦
              let (u, h, idle) = cfg.contract.ends t b in
              rw (y, h)
                (
                  xs,
                  record v { decoder = u; packet = none },
                  m,
                  refl,
                  l,
                  omega arith,
                  CommonOf-at cfg ((w.timestamp + m) % u32_mod) c (omega arith),
                  refl,
                  played (record v { decoder = u; packet = none }) refl refl,
                  inr (record { no_packet = refl; is_idle = idle }),
                )
          | inr y ↦ rw y (
            xs,
            v,
            m,
            refl,
            l,
            omega arith,
            CommonOf-at cfg ((w.timestamp + m) % u32_mod) c (omega arith),
            refl,
            played v refl refl,
            inl (
              ground arith,
              inr (record {
                played = p.played;
                has_packet = p.has_packet;
                is_busy = b;
                is_ahead = inl (rw e (sym pos));
              }),
            ),
          )
        ])

  pub behind_lem :
      (n m : ℕ) (xs : List Sample) (w' w : Depacketizer io)
      → w.reader ≡ w'.reader
      → Tally cfg w' w xs m
      → Common cfg w
      → Playing cfg w
      → w.timestamp ≡ io.decoder.position w.decoder
      → length xs ≡ m * cfg.num_channels
      → m < n
      → Writes cfg n w' (read_behind io (n * cfg.num_channels) (xs, w))
  unfolding read_behind
  behind_lem n m xs w' w sr ta c p e l h =
      let b : (n - m) * cfg.num_channels ≡ n * cfg.num_channels - length xs =
        sym (minus_lem cfg n m (length xs) l (omega arith)) in
      let z : 1 * cfg.num_channels ≤ (n - m) * cfg.num_channels =
        mul-le-mul_right cfg.num_channels (omega arith) in
      let t : ltb (length xs) (n * cfg.num_channels) ≡ true = ground arith in
      let (ys, v, j, o, l', h', cv, rd, tb, x) = packet_lem (n - m) w c p e in
      rw (t, ← b, o)
        (
          xs ++ ys,
          v,
          m + j,
          refl,
          length-append xs ys ∙ sum m j (length xs) (length ys) l l',
          omega arith,
          cv,
          rd ∙ sr,
          Tally-append cfg ta tb,
          whole j x,
        )
    where
      sum :
          (m j x y : ℕ)
          → x ≡ m * cfg.num_channels
          → y ≡ j * cfg.num_channels
          → x + y ≡ (m + j) * cfg.num_channels
      sum m j x y a b = let q = add-mul m j cfg.num_channels in omega (arith, a, b, q)

      whole :
          {v : Depacketizer io} (j : ℕ)
          → ((j ≡ n - m) × (Resting cfg v ⊎ Playing cfg v)) ⊎ Resting cfg v
          → ((m + j ≡ n) × (Resting cfg v ⊎ Playing cfg v)) ⊎ Resting cfg v
      whole j (inl (a, b)) = inl (omega arith, b)
      whole j (inr b) = inr b
