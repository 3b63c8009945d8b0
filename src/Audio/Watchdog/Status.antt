-- ===== src/Audio/Watchdog/Status.antt =====
-- src/modules/roc_audio/watchdog.cpp: what a read sets, and that the status string is written within its
-- bounds.
use roc.Prelude.{
  ℕ, ◌+◌, ◌-◌, ◌<◌, ◌≡◌, refl, sym, ◌∙◌, ap, ◌⊎◌, inl, inr, Bool, true, false, Option, some, List,
  arith, length, length-set, length-append, length-take, length-replicate, Bool-cases, ltb, ◌==◌,
  replicate, take, ◌++◌, bit_or,
}
use roc.Packet.Units.{timestamp_le}
use roc.Audio.Watchdog.{
  has_flag, flag_blank, window_end, Watchdog, update_blank_timeout, update_drops_timeout,
  end_window, flush_status, push_status, symbol, update_status, after_read, check_drops_timeout,
  end_read, next_pos,
}

-- There is no status string, or room for one more symbol and the final zero.
abbrev pub HasRoom : Watchdog → Type 0
HasRoom w = (length w.status ≡ 0) ⊎ (w.status_pos + 1 < length w.status)

-- A window is of at least one sample if there is a timeout on drops, as the constructor checks.
abbrev pub HasWindow : Watchdog → Type 0
HasWindow w = (w.max_drops_duration ≡ 0) ⊎ (0 < w.drop_detection_window)

-- The fields that `flush_status` and `update_status` leave alone.
pub record SameClock (w v : Watchdog) : Type 0 where
  pub num_channels_same : v.num_channels ≡ w.num_channels
  pub max_blank_same : v.max_blank_duration ≡ w.max_blank_duration
  pub max_drops_same : v.max_drops_duration ≡ w.max_drops_duration
  pub window_same : v.drop_detection_window ≡ w.drop_detection_window
  pub read_pos_same : v.curr_read_pos ≡ w.curr_read_pos
  pub blank_pos_same : v.last_pos_before_blank ≡ w.last_pos_before_blank
  pub drops_pos_same : v.last_pos_before_drops ≡ w.last_pos_before_drops
  pub window_flags_same : v.curr_window_flags ≡ w.curr_window_flags
  pub alive_same : v.alive ≡ w.alive

length-cleared : (n : ℕ) (l : List ℕ) → length (take n l ++ replicate (length l - n) 0) ≡ length l
length-cleared n l = omega (
  arith,
  length-append (take n l) (replicate (length l - n) 0),
  length-take n l,
  length-replicate {A = ℕ} (length l - n) 0,
)

flushed_size : (w : Watchdog) → length (flush_status w).status ≡ length w.status
unfolding flush_status
flushed_size w = ground (arith, length-cleared w.status_pos w.status)

flushed_pos : (w : Watchdog) → (flush_status w).status_pos ≡ 0
unfolding flush_status
flushed_pos w = ground arith

with_status :
    (w : Watchdog) (s : List ℕ) (n : ℕ) (b : Bool)
    → SameClock w (record w { status = s; status_pos = n; status_show = b })
with_status w s n b = record {
  num_channels_same = refl;
  max_blank_same = refl;
  max_drops_same = refl;
  window_same = refl;
  read_pos_same = refl;
  blank_pos_same = refl;
  drops_pos_same = refl;
  window_flags_same = refl;
  alive_same = refl;
}

pub flush_status-SameClock : (w : Watchdog) → SameClock w (flush_status w)
unfolding flush_status
flush_status-SameClock w = elim (Bool-cases (w.status_pos == 0)) [
  | inl e ↦ rw e (with_status w _ _ _)
  | inr e ↦ rw e (with_status w _ _ _)
]

pushed_size : (flags : ℕ) (w : Watchdog) → length (push_status flags w).status ≡ length w.status
unfolding push_status
pushed_size flags w = length-set w.status w.status_pos (symbol flags)

pushed_pos : (flags : ℕ) (w : Watchdog) → (push_status flags w).status_pos ≡ w.status_pos + 1
unfolding push_status
pushed_pos flags w = refl

pushed : (flags : ℕ) (w : Watchdog) → SameClock w (push_status flags w)
unfolding push_status
pushed flags w = with_status w _ _ _

pub clock : {u v x : Watchdog} → SameClock u v → SameClock v x → SameClock u x
clock a b = record {
  num_channels_same = b.num_channels_same ∙ a.num_channels_same;
  max_blank_same = b.max_blank_same ∙ a.max_blank_same;
  max_drops_same = b.max_drops_same ∙ a.max_drops_same;
  window_same = b.window_same ∙ a.window_same;
  read_pos_same = b.read_pos_same ∙ a.read_pos_same;
  blank_pos_same = b.blank_pos_same ∙ a.blank_pos_same;
  drops_pos_same = b.drops_pos_same ∙ a.drops_pos_same;
  window_flags_same = b.window_flags_same ∙ a.window_flags_same;
  alive_same = b.alive_same ∙ a.alive_same;
}

abbrev Updates : Watchdog → Option Watchdog → Type 0
Updates w out = (v : Watchdog) × (out ≡ some v) × HasRoom v × SameClock w v

pub update_status-Updates :
    (flags : ℕ) (w : Watchdog) → HasRoom w → Updates w (update_status flags w)
unfolding update_status
update_status-Updates flags w (inl e) =
    let z : (length w.status == 0) ≡ true = ground arith in (w, rw z, inl e, with_status w _ _ _)
update_status-Updates flags w (inr h) =
    let z : (length w.status == 0) ≡ false = ground arith in
    let l : ltb w.status_pos (length w.status) ≡ true = ground arith in
    let v = push_status flags w in
    let n : length v.status ≡ length w.status = pushed_size flags w in
    elim (Bool-cases (v.status_pos == length v.status - 1)) [
      | inl e ↦ (
        flush_status v,
        rw (z, l, e),
        inr (omega (arith, flushed_size v, flushed_pos v)),
        clock (pushed flags w) (flush_status-SameClock v),
      )
      | inr e ↦ (v, rw (z, l, e), inr (ground (arith, pushed_pos flags w)), pushed flags w)
    ]

-- What `read` sets, and what it leaves alone.
pub record Plays (flags size : ℕ) (w v : Watchdog) : Type 0 where
  pub room : HasRoom v
  pub num_channels_kept : v.num_channels ≡ w.num_channels
  pub max_blank_kept : v.max_blank_duration ≡ w.max_blank_duration
  pub max_drops_kept : v.max_drops_duration ≡ w.max_drops_duration
  pub window_kept : v.drop_detection_window ≡ w.drop_detection_window
  pub moved : v.curr_read_pos ≡ next_pos size w
  pub blank_pos :
      v.last_pos_before_blank
      ≡ (update_blank_timeout flags (next_pos size w) w).last_pos_before_blank
  pub after_drops : Watchdog
  pub drops_told :
      update_drops_timeout flags (next_pos size w) (update_blank_timeout flags (next_pos size w) w)
      ≡ some after_drops
  pub drops_pos : v.last_pos_before_drops ≡ after_drops.last_pos_before_drops
  pub window_flags : v.curr_window_flags ≡ after_drops.curr_window_flags
  pub dies : check_drops_timeout v ≡ false → v.alive ≡ false
  pub lives : check_drops_timeout v ≡ true → v.alive ≡ w.alive

pub blanked :
    (flags pos : ℕ) (w : Watchdog)
    → (x : ℕ) × (update_blank_timeout flags pos w ≡ record w { last_pos_before_blank = x })
unfolding update_blank_timeout
blanked flags pos w = elim (Bool-cases (w.max_blank_duration == 0)) [
  | inl e ↦ (w.last_pos_before_blank, rw e)
  | inr e ↦ elim (Bool-cases (has_flag flags flag_blank)) [
    | inl f ↦ (w.last_pos_before_blank, rw (e, f))
    | inr f ↦ (pos, rw (e, f))
  ]
]

dropped :
    (flags pos : ℕ) (w : Watchdog)
    → HasWindow w
    → (x : ℕ) × (f : ℕ) × (update_drops_timeout flags pos w
        ≡ some (record w { last_pos_before_drops = x; curr_window_flags = f }))
unfolding update_drops_timeout end_window
dropped flags pos w h = elim (Bool-cases (w.max_drops_duration == 0)) [
  | inl e ↦ (w.last_pos_before_drops, w.curr_window_flags, rw e)
  | inr e ↦
      let g : (w.drop_detection_window == 0) ≡ false = ground (arith, h) in
      elim (Bool-cases (timestamp_le (window_end w) pos)) [
        | inl f ↦
            let v : Watchdog = record w { curr_window_flags = bit_or w.curr_window_flags flags } in
            let u = end_window flags pos v in
            (u.last_pos_before_drops, u.curr_window_flags, rw (e, g, f))
        | inr f ↦ (w.last_pos_before_drops, bit_or w.curr_window_flags flags, rw (e, g, f))
      ]
]

-- What is not touched before the status string is.
record Ticks (flags pos : ℕ) (w u : Watchdog) : Type 0 where
  num_channels_kept : u.num_channels ≡ w.num_channels
  max_blank_kept : u.max_blank_duration ≡ w.max_blank_duration
  max_drops_kept : u.max_drops_duration ≡ w.max_drops_duration
  window_kept : u.drop_detection_window ≡ w.drop_detection_window
  blank_pos : u.last_pos_before_blank ≡ (update_blank_timeout flags pos w).last_pos_before_blank
  alive_kept : u.alive ≡ w.alive
  status_kept : u.status ≡ w.status
  status_pos_kept : u.status_pos ≡ w.status_pos

ticked-Ticks :
    (flags pos : ℕ) (w : Watchdog)
    → HasWindow w
    → (u : Watchdog) × (update_drops_timeout flags pos (update_blank_timeout flags pos w) ≡ some u)
      × Ticks flags pos w u
ticked-Ticks flags pos w h =
    let (x, e) = blanked flags pos w in
    let z : Watchdog = record w { last_pos_before_blank = x } in
    let (y, f, d) = dropped flags pos z h in
    (
      record z { last_pos_before_drops = y; curr_window_flags = f },
      rw (e) d,
      (record {
        num_channels_kept = refl;
        max_blank_kept = refl;
        max_drops_kept = refl;
        window_kept = refl;
        blank_pos = sym (ap (λ y. y.last_pos_before_blank) e);
        alive_kept = refl;
        status_kept = refl;
        status_pos_kept = refl;
      }),
    )

check_drops-same : (w v : Watchdog) → SameClock w v → check_drops_timeout v ≡ check_drops_timeout w
unfolding check_drops_timeout
check_drops-same w v c = rw (c.max_drops_same, c.read_pos_same, c.drops_pos_same)

ended :
    (flags size : ℕ) (w u v : Watchdog)
    → HasRoom v
    → update_drops_timeout flags (next_pos size w) (update_blank_timeout flags (next_pos size w) w)
      ≡ some u
    → Ticks flags (next_pos size w) w u
    → SameClock u v
    → Plays flags size w (end_read (next_pos size w) v)
unfolding end_read flush_status check_drops_timeout
ended flags size w u v r q t c = elim (Bool-cases (check_drops_timeout x)) [
  | inl e ↦ rw e (record {
    room = r;
    num_channels_kept = c.num_channels_same ∙ t.num_channels_kept;
    max_blank_kept = c.max_blank_same ∙ t.max_blank_kept;
    max_drops_kept = c.max_drops_same ∙ t.max_drops_kept;
    window_kept = c.window_same ∙ t.window_kept;
    moved = refl;
    blank_pos = c.blank_pos_same ∙ t.blank_pos;
    after_drops = u;
    drops_told = q;
    drops_pos = c.drops_pos_same;
    window_flags = c.window_flags_same;
    dies = λ k. absurd (differ (sym e ∙ k));
    lives = λ k. c.alive_same ∙ t.alive_kept;
  })
  | inr e ↦
      let f = flush_status-SameClock x in
      rw e (record {
        room = flushed x r;
        num_channels_kept = f.num_channels_same ∙ (c.num_channels_same ∙ t.num_channels_kept);
        max_blank_kept = f.max_blank_same ∙ (c.max_blank_same ∙ t.max_blank_kept);
        max_drops_kept = f.max_drops_same ∙ (c.max_drops_same ∙ t.max_drops_kept);
        window_kept = f.window_same ∙ (c.window_same ∙ t.window_kept);
        moved = f.read_pos_same;
        blank_pos = f.blank_pos_same ∙ (c.blank_pos_same ∙ t.blank_pos);
        after_drops = u;
        drops_told = q;
        drops_pos = f.drops_pos_same ∙ c.drops_pos_same;
        window_flags = f.window_flags_same ∙ c.window_flags_same;
        dies = λ k. refl;
        lives = λ k. absurd (differ (sym k ∙ (check_drops-same x (flush_status x) f ∙ e)));
      })
]
  where
    x : Watchdog
    x = record v { curr_read_pos = next_pos size w }

    differ : true ≡ false → ⊥
    differ k = cc

    flushed : (y : Watchdog) → HasRoom y → HasRoom (flush_status y)
    flushed y k = ground (arith, flushed_size y, flushed_pos y)

-- With at least one channel, room in the status string and, if there is a timeout on drops, a window of
-- at least one sample, `read` of a watchdog never goes out of
-- bounds and leaves room again. It moves the position by the length of the frame, treats the blank
-- position as `update_blank_timeout` says, keeps the channels and the timeouts, and ends the
-- watchdog exactly if the drops timeout is reached.
pub after_read-Plays :
    (flags size : ℕ) (w : Watchdog)
    → 0 < w.num_channels
    → HasRoom w
    → HasWindow w
    → (v : Watchdog) × (after_read flags size w ≡ some v) × Plays flags size w v
unfolding after_read
after_read-Plays flags size w h r m =
    let z : (w.num_channels == 0) ≡ false = ground arith in
    let (u, q, t) = ticked-Ticks flags (next_pos size w) w m in
    let room : HasRoom u = rw (t.status_kept, t.status_pos_kept) r in
    let (v, e, k, c) = update_status-Updates flags u room in
    (end_read (next_pos size w) v, rw (z, q, after_read, e), ended flags size w u v k q t c)
