-- ===== src/Audio/Watchdog/Timeout.antt =====
-- src/modules/roc_audio/watchdog.cpp: the timeout on blank frames.
use native.Mathlib.Nat.{mod-add-mod}
use roc.Prelude.{
  ℕ, ◌+◌, ◌/◌, ◌%◌, ◌<◌, ◌≡◌, refl, sym, ap, ◌∙◌, inl, inr, true, false, Option, some, List, [],
  ◌∷◌, arith, ltb, ◌==◌, All, ◌&&◌, ◌>>=◌,
}
use roc.Packet.Units.{u32_mod}
use roc.Audio.Watchdog.{
  Watchdog, has_flag, flag_blank, update_blank_timeout, after_read, update, check_blank_timeout,
  next_pos,
}
use roc.Audio.Watchdog.Status.{HasRoom, HasWindow, Plays, after_read-Plays}

-- A frame that the inner reader fills: its flags and its size.
abbrev pub Played : Type 0
Played = ℕ × ℕ

unfoldable pub play : Watchdog → List Played → Option Watchdog
play w [] = some w
play w (f ∷ fs) = after_read f.0 f.1 w >>= (λ v. play v fs)

abbrev pub duration : ℕ → List Played → ℕ
duration num_channels [] = 0
duration num_channels (f ∷ fs) = f.1 / num_channels + duration num_channels fs

abbrev pub IsBlank : Played → Type 0
IsBlank f = has_flag f.0 flag_blank ≡ true

blank_pos_blank :
    (flags pos : ℕ) (w : Watchdog)
    → has_flag flags flag_blank ≡ true
    → (update_blank_timeout flags pos w).last_pos_before_blank ≡ w.last_pos_before_blank
unfolding update_blank_timeout
blank_pos_blank flags pos w h = ground arith

blank_pos_sound :
    (flags pos : ℕ) (w : Watchdog)
    → 0 < w.max_blank_duration
    → has_flag flags flag_blank ≡ false
    → (update_blank_timeout flags pos w).last_pos_before_blank ≡ pos
unfolding update_blank_timeout
blank_pos_sound flags pos w m h =
    let z : (w.max_blank_duration == 0) ≡ false = ground arith in rw (z, h)

pub at_start : (a : ℕ) → a < u32_mod → a ≡ (a + 0) % u32_mod
at_start a h = omega arith

record Waits (w : Watchdog) (n : ℕ) (v : Watchdog) : Type 0 where
  room : HasRoom v
  window : HasWindow v
  moved : v.curr_read_pos ≡ (w.curr_read_pos + n) % u32_mod
  blank_pos_kept : v.last_pos_before_blank ≡ w.last_pos_before_blank
  max_kept : v.max_blank_duration ≡ w.max_blank_duration

pub kept_window :
    {flags size : ℕ} (w v : Watchdog) → Plays flags size w v → HasWindow w → HasWindow v
kept_window w v k (inl e) = inl (k.max_drops_kept ∙ e)
kept_window w v k (inr l) = inr (omega (arith, k.window_kept))

play-Waits :
    (w : Watchdog) (fs : List Played)
    → 0 < w.num_channels
    → w.curr_read_pos < u32_mod
    → HasRoom w
    → HasWindow w
    → All IsBlank fs
    → (v : Watchdog) × (play w fs ≡ some v) × Waits w (duration w.num_channels fs) v
unfolding play
play-Waits w [] h c r m b = (
  w,
  refl,
  record {
    room = r;
    window = m;
    moved = (at_start w.curr_read_pos c);
    blank_pos_kept = refl;
    max_kept = refl;
  },
)
play-Waits w (f ∷ fs) h c r m (b, bs) =
    let (v, e, k) = after_read-Plays f.0 f.1 w h r m in
    let (x, d, y) =
      play-Waits v fs (omega (arith, k.num_channels_kept)) (omega (arith, k.moved)) k.room
        (kept_window w v k m) bs in
    (
      x,
      rw e d,
      record {
        room = y.room;
        window = y.window;
        moved =
            y.moved
            ∙ rw (k.num_channels_kept, k.moved, mod-add-mod) (ap (λ i. i % u32_mod) (omega arith));
        blank_pos_kept = y.blank_pos_kept ∙ (k.blank_pos ∙ blank_pos_blank f.0 _ w b);
        max_kept = y.max_kept ∙ k.max_blank_kept;
      },
    )

update_gap :
    (w : Watchdog) (n : ℕ)
    → 0 < w.max_blank_duration
    → w.last_pos_before_blank < u32_mod
    → n < u32_mod
    → w.curr_read_pos ≡ (w.last_pos_before_blank + n) % u32_mod
    → (update w).0 ≡ (w.alive && ltb n w.max_blank_duration)
unfolding update check_blank_timeout
update_gap w n m l h e = ground arith

-- A watchdog with at least one channel, a blank timeout, room in its status string and, if it has a timeout
-- on drops, a window of at least one sample, plays a
-- frame that is not blank, and then blank frames of any number and sizes that together are shorter
-- than 2^32 samples. No read goes out of bounds, and then `update` returns true exactly if the
-- watchdog is alive and the blank frames together are shorter than the timeout, wherever the
-- position wrapped around.
pub update-play :
    (w : Watchdog) (f : Played) (fs : List Played)
    → 0 < w.num_channels
    → 0 < w.max_blank_duration
    → HasRoom w
    → HasWindow w
    → has_flag f.0 flag_blank ≡ false
    → All IsBlank fs
    → duration w.num_channels fs < u32_mod
    → (v : Watchdog) × (play w (f ∷ fs) ≡ some v)
      × ((update v).0 ≡ (v.alive && ltb (duration w.num_channels fs) w.max_blank_duration))
unfolding play
update-play w f fs h m r g s bs d =
    let (v, e, k) = after_read-Plays f.0 f.1 w h r g in
    let (x, t, y) =
      play-Waits v fs (omega (arith, k.num_channels_kept)) (omega (arith, k.moved)) k.room
        (kept_window w v k g) bs in
    (
      x,
      rw e t,
      update_gap x (duration w.num_channels fs) (omega (arith, y.max_kept, k.max_blank_kept))
            (omega (arith, sound v k, y.blank_pos_kept)) d
            (y.moved ∙ rw (k.num_channels_kept, y.blank_pos_kept, sound v k) refl)
          ∙ rw (y.max_kept, k.max_blank_kept) refl,
    )
  where
    sound : (v : Watchdog) → Plays f.0 f.1 w v → v.last_pos_before_blank ≡ v.curr_read_pos
    sound v k = k.blank_pos ∙ (blank_pos_sound f.0 (next_pos f.1 w) w m s ∙ sym k.moved)
