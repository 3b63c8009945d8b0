-- ===== src/Audio/Watchdog/Drops.antt =====
-- src/modules/roc_audio/watchdog.cpp: the timeout on windows with drops.
use native.Mathlib.Nat.{div-add-mod'}
use roc.Prelude.{
  ℕ, ◌+◌, ◌*◌, ◌/◌, ◌%◌, ◌^◌, ◌<◌, ◌≤◌, ◌≡◌, refl, ap, ◌∙◌, inl, inr, Bool, true, false, some, List,
  [], ◌∷◌, arith, ltb, ◌==◌, not, All, ◌&&◌, ◌||◌, bit_and, bit_or, Bool-cases, subst,
}
use roc.Prelude.Tests.{holds_for, holds_for_sound}
use roc.Packet.Units.{u32_mod, timestamp_le, timestamp_diff}
use roc.Audio.Watchdog.{
  Watchdog, drop_flags, check_drops_timeout, update_drops_timeout, window_end, end_window, next_pos,
}
use roc.Audio.Watchdog.Status.{HasRoom, HasWindow, Plays, after_read-Plays, blanked}
use roc.Audio.Watchdog.Timeout.{Played, play, duration, kept_window}

-- A frame that is incomplete and has drops; its flags are those of a frame.
abbrev pub IsDropped : Played → Type 0
IsDropped f = (f.0 < 8) × (bit_and f.0 drop_flags ≡ drop_flags)

flags_table :
    holds_for 64 (λ x.
      ltb (bit_or (x / 8) (x % 8)) 8
      && (not (bit_and (x % 8) 6 == 6) || (bit_and (bit_or (x / 8) (x % 8)) 6 == 6)))
    ≡ true
unfolding holds_for
flags_table = refl

joined_flags :
    (c f : ℕ)
    → c < 8
    → f < 8
    → (bit_or c f < 8) × (bit_and f 6 ≡ 6 → (bit_and (bit_or c f) 6 == 6) ≡ true)
joined_flags c f h k =
    let x = c * 8 + f in
    let a : x / 8 ≡ c = omega arith in
    let b : x % 8 ≡ f = omega arith in
    let t =
      holds_for_sound 64
        (λ x.
          ltb (bit_or (x / 8) (x % 8)) 8
          && (not (bit_and (x % 8) 6 == 6) || (bit_and (bit_or (x / 8) (x % 8)) 6 == 6)))
        x flags_table (omega arith) in
    let t' = (rw (a, b) at t) in (ground (arith, t'), λ e. ground (arith, t', e))

-- A window with drops does not move the position.
dropped_frame :
    (flags pos : ℕ) (w u : Watchdog)
    → flags < 8
    → bit_and flags 6 ≡ 6
    → w.curr_window_flags < 8
    → HasWindow w
    → update_drops_timeout flags pos w ≡ some u
    → (u.last_pos_before_drops ≡ w.last_pos_before_drops) × (u.curr_window_flags < 8)
unfolding update_drops_timeout end_window
dropped_frame flags pos w u h k l m e =
    let (small, both) = joined_flags w.curr_window_flags flags l h in
    elim (Bool-cases (w.max_drops_duration == 0)) [
      | inl c ↦ told w (rw (c) at e) (refl, l)
      | inr c ↦
          let g : (w.drop_detection_window == 0) ≡ false = ground (arith, m) in
          elim (Bool-cases (timestamp_le (window_end w) pos)) [
            | inr t ↦
                told (record w { curr_window_flags = bit_or w.curr_window_flags flags })
                  (rw (c, g, t) at e) (refl, small)
            | inl t ↦ elim (Bool-cases (pos % w.drop_detection_window == 0)) [
              | inl z ↦
                  told (record w { curr_window_flags = 0 }) (rw (c, g, t, both k, z) at e)
                    (refl, omega arith)
              | inr z ↦
                  told (record w { curr_window_flags = flags }) (rw (c, g, t, both k, z) at e)
                    (refl, h)
            ]
          ]
    ]
  where
    told :
        (x : Watchdog)
        → some x ≡ some u
        → (x.last_pos_before_drops ≡ w.last_pos_before_drops) × (x.curr_window_flags < 8)
        → (u.last_pos_before_drops ≡ w.last_pos_before_drops) × (u.curr_window_flags < 8)
    told x e h =
        let q : x ≡ u = cc in
        subst (λ y. (y.last_pos_before_drops ≡ w.last_pos_before_drops) × (y.curr_window_flags < 8))
          q h

-- A window without drops that ends moves it.
sound_frame :
    (flags pos : ℕ) (w u : Watchdog)
    → flags < 8
    → (bit_and (bit_or w.curr_window_flags flags) 6 == 6) ≡ false
    → 0 < w.max_drops_duration
    → 0 < w.drop_detection_window
    → timestamp_le (window_end w) pos ≡ true
    → update_drops_timeout flags pos w ≡ some u
    → (u.last_pos_before_drops ≡ pos) × (u.curr_window_flags < 8)
unfolding update_drops_timeout end_window
sound_frame flags pos w u h k l m t e =
    let c : (w.max_drops_duration == 0) ≡ false = ground arith in
    let g : (w.drop_detection_window == 0) ≡ false = ground arith in
    elim (Bool-cases (pos % w.drop_detection_window == 0)) [
      | inl z ↦
          told (record w { last_pos_before_drops = pos; curr_window_flags = 0 })
            (rw (c, g, t, k, z) at e) (refl, omega arith)
      | inr z ↦
          told (record w { last_pos_before_drops = pos; curr_window_flags = flags })
            (rw (c, g, t, k, z) at e) (refl, h)
    ]
  where
    told :
        (x : Watchdog)
        → some x ≡ some u
        → (x.last_pos_before_drops ≡ pos) × (x.curr_window_flags < 8)
        → (u.last_pos_before_drops ≡ pos) × (u.curr_window_flags < 8)
    told x e h =
        let q : x ≡ u = cc in
        subst (λ y. (y.last_pos_before_drops ≡ pos) × (y.curr_window_flags < 8)) q h

ended_window :
    (w : Watchdog) (n : ℕ)
    → 0 < w.drop_detection_window
    → w.drop_detection_window ≤ w.curr_read_pos % w.drop_detection_window + n
    → w.curr_read_pos + n < u32_mod
    → n < 2 ^ 31
    → timestamp_le (window_end w) (w.curr_read_pos + n) ≡ true
unfolding timestamp_le timestamp_diff window_end
ended_window w n h k b l =
    let q = div-add-mod' w.curr_read_pos w.drop_detection_window in ground (arith, q)

check_gap :
    (w : Watchdog) (n : ℕ)
    → 0 < w.max_drops_duration
    → w.last_pos_before_drops < u32_mod
    → n < u32_mod
    → w.curr_read_pos ≡ (w.last_pos_before_drops + n) % u32_mod
    → check_drops_timeout w ≡ ltb n w.max_drops_duration
unfolding check_drops_timeout
check_gap w n m l h e = ground arith

-- Behind the position stand `n` samples of windows with drops; the watchdog was alive there if `b` says so.
record Falls (b : Bool) (n : ℕ) (w : Watchdog) : Type 0 where
  room : HasRoom w
  window : HasWindow w
  small : w.curr_window_flags < 8
  fits : w.last_pos_before_drops < u32_mod
  gap : w.curr_read_pos ≡ (w.last_pos_before_drops + n) % u32_mod
  alive : w.alive ≡ (b && ltb n w.max_drops_duration)

-- What the frame behind them makes of the liveness.
still_alive :
    {flags size : ℕ} (b : Bool) (m n : ℕ) (w v : Watchdog)
    → Plays flags size w v
    → check_drops_timeout v ≡ ltb n v.max_drops_duration
    → m ≤ n
    → w.alive ≡ (b && ltb m w.max_drops_duration)
    → v.alive ≡ (b && ltb n v.max_drops_duration)
still_alive b m n w v k c l e = elim (Bool-cases (ltb n v.max_drops_duration)) [
  | inl t ↦
      let s : ltb m w.max_drops_duration ≡ true = ground (arith, k.max_drops_kept) in
      rw (t) (k.lives (c ∙ t) ∙ (e ∙ rw (s) refl))
  | inr t ↦ rw (t) (k.dies (c ∙ t) ∙ none_left b)
]
  where
    none_left : (b : Bool) → false ≡ (b && false)
    none_left true = refl
    none_left false = refl

play-Falls :
    (b : Bool) (n : ℕ) (w : Watchdog) (fs : List Played)
    → 0 < w.num_channels
    → 0 < w.max_drops_duration
    → Falls b n w
    → All IsDropped fs
    → n + duration w.num_channels fs < u32_mod
    → (v : Watchdog) × (play w fs ≡ some v)
      × (v.alive ≡ (b && ltb (n + duration w.num_channels fs) w.max_drops_duration))
unfolding play
play-Falls b n w [] h m k d l = (
  w,
  refl,
  k.alive ∙ (let e : n ≡ n + 0 = omega arith in ap (λ i. b && ltb i w.max_drops_duration) e),
)
play-Falls b n w (f ∷ fs) h m k (d, ds) l =
    let len = f.1 / w.num_channels in
    let (v, e, p) = after_read-Plays f.0 f.1 w h k.room k.window in
    let (x, q) = blanked f.0 (next_pos f.1 w) w in
    let (last, small) =
      dropped_frame f.0 (next_pos f.1 w) (record w { last_pos_before_blank = x }) p.after_drops d.0
        d.1 k.small k.window (rw q at p.drops_told) in
    let pos = p.drops_pos ∙ last in
    let gap : v.curr_read_pos ≡ (v.last_pos_before_drops + (n + len)) % u32_mod =
      p.moved
      ∙ (let g : next_pos f.1 w ≡ (v.last_pos_before_drops + (n + len)) % u32_mod =
            omega (arith, pos, k.gap) in
          g) in
    let same : duration v.num_channels fs ≡ duration w.num_channels fs =
      ap (λ c. duration c fs) p.num_channels_kept in
    let check =
      check_gap v (n + len) (omega (arith, p.max_drops_kept)) (omega (arith, pos, k.fits))
        (omega arith) gap in
    let (u, o, a) =
      play-Falls b (n + len) v fs (omega (arith, p.num_channels_kept))
        (omega (arith, p.max_drops_kept))
        (record {
          room = p.room;
          window = kept_window w v p k.window;
          small = omega (arith, p.window_flags, small);
          fits = omega (arith, pos, k.fits);
          gap = gap;
          alive = still_alive b n (n + len) w v p check (omega arith) k.alive;
        })
        ds (omega (arith, same, l)) in
    (
      u,
      rw (e) o,
      a
          ∙ rw (same, p.max_drops_kept)
              (ap (λ i. b && ltb i w.max_drops_duration)
                (let j : n + len + duration w.num_channels fs
                      ≡ n + (len + duration w.num_channels fs) =
                    omega arith in
                  j)),
    )

-- A watchdog with at least one channel, a timeout on drops, a window of at least one sample and room in its
-- status string plays a frame behind which a window ends that has not both missing samples and dropped
-- packets, and then frames that have both, of any number and sizes that together are shorter than 2^32
-- samples. No read goes out of bounds, and the watchdog is alive behind them exactly if it was before and
-- these frames together are shorter than the timeout, wherever the position wrapped around among them.
pub play-drops :
    (w : Watchdog) (f : Played) (fs : List Played)
    → 0 < w.num_channels
    → 0 < w.max_drops_duration
    → 0 < w.drop_detection_window
    → HasRoom w
    → w.curr_window_flags < 8
    → f.0 < 8
    → (bit_and (bit_or w.curr_window_flags f.0) drop_flags == drop_flags) ≡ false
    → w.drop_detection_window ≤ w.curr_read_pos % w.drop_detection_window + f.1 / w.num_channels
    → w.curr_read_pos + f.1 / w.num_channels < u32_mod
    → f.1 / w.num_channels < 2 ^ 31
    → All IsDropped fs
    → duration w.num_channels fs < u32_mod
    → (v : Watchdog) × (play w (f ∷ fs) ≡ some v)
      × (v.alive ≡ (w.alive && ltb (duration w.num_channels fs) w.max_drops_duration))
unfolding play window_end
play-drops w f fs h m t r c k s reach fit short ds d =
    let len = f.1 / w.num_channels in
    let (v, e, p) = after_read-Plays f.0 f.1 w h r (inr t) in
    let (x, q) = blanked f.0 (next_pos f.1 w) w in
    let at : next_pos f.1 w ≡ w.curr_read_pos + len = omega (arith, fit) in
    let y : timestamp_le (window_end w) (next_pos f.1 w) ≡ true =
      ap (timestamp_le (window_end w)) at ∙ ended_window w len t reach fit short in
    let (last, small) =
      sound_frame f.0 (next_pos f.1 w) (record w { last_pos_before_blank = x }) p.after_drops k s m
        t y (rw q at p.drops_told) in
    let pos = p.drops_pos ∙ last in
    let gap : v.curr_read_pos ≡ (v.last_pos_before_drops + 0) % u32_mod =
      p.moved
      ∙ (let g : next_pos f.1 w ≡ (v.last_pos_before_drops + 0) % u32_mod = omega (arith, pos) in
          g) in
    let fits : v.last_pos_before_drops < u32_mod = omega (arith, pos) in
    let max : 0 < v.max_drops_duration = omega (arith, p.max_drops_kept) in
    let set : ltb 0 v.max_drops_duration ≡ true = ground (arith, max) in
    let same : duration v.num_channels fs ≡ duration w.num_channels fs =
      ap (λ c. duration c fs) p.num_channels_kept in
    let (u, o, a) =
      play-Falls w.alive 0 v fs (omega (arith, p.num_channels_kept)) max
        (record {
          room = p.room;
          window = kept_window w v p (inr t);
          small = omega (arith, p.window_flags, small);
          fits = fits;
          gap = gap;
          alive =
              p.lives (check_gap v 0 max fits (omega arith) gap ∙ set)
              ∙ rw (set) (and_true w.alive);
        })
        ds (omega (arith, same, d)) in
    let zero : 0 + duration w.num_channels fs ≡ duration w.num_channels fs = omega arith in
    (
      u,
      rw (e) o,
      a ∙ rw (same, p.max_drops_kept) (ap (λ i. w.alive && ltb i w.max_drops_duration) zero),
    )
  where
    and_true : (b : Bool) → b ≡ (b && true)
    and_true true = refl
    and_true false = refl
