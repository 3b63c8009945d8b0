-- ===== src/Audio/Depacketizer/Flags.antt =====
-- The flags of a frame that the depacketizer has read.
use native.Mathlib.Nat.{mul-le-mul_right, mul_comm, mul-zero}
use roc.Prelude.{
  ℕ, ◌+◌, ◌*◌, ◌^◌, ◌%◌, ◌≤◌, ◌<◌, ◌≡◌, refl, ap, ◌∙◌, inl, inr, Bool, true, false, some, arith,
  bit_or, not, ◌==◌, if◌then◌else◌, Bool-cases, length,
}
use roc.Packet.Units.{u32_mod, u64_mod, timestamp_diff}
use roc.Audio.Watchdog.{Frame, has_flag, flag_incomplete, flag_blank, flag_drops}
use roc.Audio.Depacketizer
use roc.Audio.Depacketizer.{Inputs, Depacketizer, FrameDecoder, to_size, read_frame, frame_flags}
use roc.Audio.Depacketizer.Contract.{Setting}
use roc.Audio.Depacketizer.Tallies.{Mixed}
use roc.Audio.Depacketizer.Rounds.{IsValid}
use roc.Audio.Depacketizer.Frames.{read_frame-Fills}

abbrev joined : Bool → Bool → Bool → ℕ
joined x y z =
    bit_or (bit_or (if x then 0 else flag_incomplete) (if y then flag_blank else 0))
      (if z then 0 else flag_drops)

joined_lem :
    (x y z : Bool)
    → (has_flag (joined x y z) flag_incomplete ≡ not x)
      × (has_flag (joined x y z) flag_blank ≡ y)
      × (has_flag (joined x y z) flag_drops ≡ not z)
joined_lem true true true = (refl, refl, refl)
joined_lem true true false = (refl, refl, refl)
joined_lem true false true = (refl, refl, refl)
joined_lem true false false = (refl, refl, refl)
joined_lem false true true = (refl, refl, refl)
joined_lem false true false = (refl, refl, refl)
joined_lem false false true = (refl, refl, refl)
joined_lem false false false = (refl, refl, refl)

-- The counter of samples from packets gives how many there were.
diff_lem :
    (a x y : ℕ)
    → a < 2 ^ 31
    → x < u32_mod
    → y ≡ (x + a) % u32_mod
    → to_size (timestamp_diff y x) ≡ a
unfolding timestamp_diff
diff_lem a x y h l e = ground arith

module _ (a m n num_channels : ℕ) (positive : 0 < num_channels) (sum : a + m ≡ n) where
  -- All samples are from packets exactly if none is missing.
  whole_lem : (num_channels * a == n * num_channels) ≡ (m == 0)
  whole_lem = elim (Bool-cases (m == 0)) [
    | inl e ↦
        let q : n ≡ a = ground arith in
        let r : n * num_channels ≡ num_channels * a =
          ap (λ x. x * num_channels) q ∙ mul_comm a num_channels in
        rw (e) (ground (arith, r))
    | inr e ↦
        let l : (a + 1) * num_channels ≤ n * num_channels =
          mul-le-mul_right num_channels (ground arith) in
        let r : num_channels * a ≡ a * num_channels = mul_comm num_channels a in
        rw (e) (ground (arith, l, r))
  ]

  none_lem : (num_channels * a == 0) ≡ (a == 0)
  none_lem = elim (Bool-cases (a == 0)) [
    | inl e ↦
        let q : a ≡ 0 = ground arith in
        let r : num_channels * a ≡ 0 = ap (λ x. num_channels * x) q ∙ mul-zero num_channels in
        rw (e) (ground (arith, r))
    | inr e ↦
        let l : 1 * num_channels ≤ a * num_channels =
          mul-le-mul_right num_channels (ground arith) in
        let r : num_channels * a ≡ a * num_channels = mul_comm num_channels a in
        rw (e) (ground (arith, l, r))
  ]

module _ {Sample : Type 0} {io : Inputs Sample} (cfg : Setting io) where
  -- A frame of `n` samples for each channel, and the state behind it: `played` samples are from packets,
  -- `missed` are missing, and the flags tell this and whether packets were dropped.
  pub record Told (n : ℕ) (w : Depacketizer io) (f : Frame Sample) (v : Depacketizer io)
      : Type 0 where
    pub played : ℕ
    pub missed : ℕ
    pub is_mixed : Mixed cfg w.beep played missed f.samples
    pub is_sum : played + missed ≡ n
    pub is_full : length f.samples ≡ n * cfg.num_channels
    pub incomplete : has_flag f.flags flag_incomplete ≡ not (missed == 0)
    pub blank : has_flag f.flags flag_blank ≡ (played == 0)
    pub drops : has_flag f.flags flag_drops ≡ not (w.dropped_packets == v.dropped_packets)
    pub counter_fits : v.packet_samples < u32_mod
    pub same_beep : v.beep ≡ w.beep
    pub is_valid : IsValid cfg v

module _ {Sample : Type 0} {io : Inputs Sample} (cfg : Setting io) (positive : 0 < cfg.num_channels)
    (few : cfg.num_channels ≤ 32) where
  frame_flags_lem :
      (n a m : ℕ) (w v : Depacketizer io)
      → w.num_channels ≡ cfg.num_channels
      → a + m ≡ n
      → n * cfg.num_channels < 2 ^ 31
      → w.packet_samples < u32_mod
      → v.packet_samples ≡ (w.packet_samples + a) % u32_mod
      → frame_flags io (n * cfg.num_channels) w v
        ≡ joined (m == 0) (a == 0) (w.dropped_packets == v.dropped_packets)
  unfolding frame_flags
  frame_flags_lem n a m w v c s h l e =
      let x = whole_lem a m n cfg.num_channels positive s in
      let y = none_lem a m n cfg.num_channels positive s in
      let p : 1 * a ≤ cfg.num_channels * a = mul-le-mul_right a (omega arith) in
      let q : a * cfg.num_channels ≤ n * cfg.num_channels =
        mul-le-mul_right cfg.num_channels (omega arith) in
      let r : cfg.num_channels * a ≡ a * cfg.num_channels = mul_comm cfg.num_channels a in
      let t = diff_lem a w.packet_samples v.packet_samples (omega (arith, p, q, r, h)) l e in
      let u : cfg.num_channels * a % u64_mod ≡ cfg.num_channels * a = omega (arith, q, r, h) in
      rw (c, t, u, x, y) refl

  -- A valid depacketizer, with a decoder by its contract and a reader that gives packets with samples,
  -- reads a frame of `n` samples for each channel, fewer than 2^31 in all, without a panic and within the
  -- rounds given, however packets are late, missing or cut by the frame: it fills the frame, and sets
  -- the flag for incomplete frames exactly if some of its samples stand for missing ones, the flag for
  -- blank frames exactly if none is from a packet, and the flag for drops exactly if the count of dropped
  -- packets has changed; the samples that stand for missing ones are beeps or silence, as configured, and
  -- the others were given by the decoder. The depacketizer stays valid.
  pub read-Told :
      (n : ℕ) (w : Depacketizer io)
      → IsValid cfg w
      → w.packet_samples < u32_mod
      → n * cfg.num_channels < 2 ^ 31
      → (f : Frame Sample) × (v : Depacketizer io) × (Depacketizer.read io (n * cfg.num_channels) w
          ≡ some (f, v))
        × Told cfg n w f v
  unfolding Depacketizer.read
  read-Told n w h l b =
      let (xs, v, e, len, vv, t) = read_frame-Fills cfg positive few n w h b in
      let fl = frame_flags_lem n t.played t.missed w v h.0.same_num t.is_sum b l (t.is_counted l) in
      let (x, y, z) =
        joined_lem (t.missed == 0) (t.played == 0) (w.dropped_packets == v.dropped_packets) in
      let q = t.is_counted l in
      rw (e) (
        record { samples = xs; flags = frame_flags io (n * cfg.num_channels) w v },
        v,
        refl,
        record {
          played = t.played;
          missed = t.missed;
          is_mixed = t.is_mixed;
          is_sum = t.is_sum;
          is_full = len;
          incomplete = ap (λ j. has_flag j flag_incomplete) fl ∙ x;
          blank = ap (λ j. has_flag j flag_blank) fl ∙ y;
          drops = ap (λ j. has_flag j flag_drops) fl ∙ z;
          counter_fits = omega (arith, q);
          same_beep = t.same_beep;
          is_valid = vv;
        },
      )
