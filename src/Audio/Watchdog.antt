-- ===== src/Audio/Watchdog.antt =====
-- src/modules/roc_audio/watchdog.cpp, with the frame of frame.h. Durations are numbers of samples;
-- the constructor computes them from nanoseconds in floating point, so here it takes the results.
-- Samples are of any type with a zero. `none` is a panic of the status array, or a division by zero; the
-- operations of a window are called only behind the test that its length is not 0.
pub mod Status
pub mod Timeout
pub mod Drops
use mathlib.Core.Option
use roc.Prelude.{
  ℕ, zero, suc, ◌+◌, ◌-◌, ◌*◌, ◌/◌, ◌%◌, ◌&&◌, ◌||◌, Bool, true, false, Option, none, some, List,
  [], bit_and, bit_or, ltb, ◌==◌, not, if◌then◌else◌, length, set, take, replicate, ◌++◌, ◌>>=◌,
}
use roc.Packet.Units.{u32_mod, timestamp_le}

abbrev pub flag_incomplete : ℕ
flag_incomplete = 2

abbrev pub flag_blank : ℕ
flag_blank = 1

abbrev pub flag_drops : ℕ
flag_drops = 4

pub record Frame (Sample : Type 0) : Type 0 where
  pub samples : List Sample
  pub flags : ℕ

pub record Watchdog : Type 0 where
  pub num_channels : ℕ
  pub max_blank_duration : ℕ
  pub max_drops_duration : ℕ
  pub drop_detection_window : ℕ
  pub curr_read_pos : ℕ
  pub last_pos_before_blank : ℕ
  pub last_pos_before_drops : ℕ
  pub curr_window_flags : ℕ
  pub status : List ℕ
  pub status_pos : ℕ
  pub status_show : Bool
  pub alive : Bool

-- What the constructor checks and sets; `none` is an object that is not valid. `negative` says that
-- one of the three durations of the configuration is negative, `allocated` that memory was there.
unfoldable pub init : Bool → Bool → ℕ → ℕ → ℕ → ℕ → ℕ → Option Watchdog
init negative allocated num_channels max_blank max_drops window frame_status_window =
    if negative
    then none
    else if not (max_drops == 0) && (window == 0 || ltb max_drops window)
    then none
    else if not (frame_status_window == 0) && not allocated
    then none
    else some (record {
      num_channels = num_channels;
      max_blank_duration = max_blank;
      max_drops_duration = max_drops;
      drop_detection_window = window;
      curr_read_pos = 0;
      last_pos_before_blank = 0;
      last_pos_before_drops = 0;
      curr_window_flags = 0;
      status = replicate (if frame_status_window == 0 then 0 else frame_status_window + 1) 0;
      status_pos = 0;
      status_show = false;
      alive = true;
    })

-- `flags & flag` as a truth value.
abbrev pub has_flag : ℕ → ℕ → Bool
has_flag flags flag = not (bit_and flags flag == 0)

unfoldable pub update_blank_timeout : ℕ → ℕ → Watchdog → Watchdog
update_blank_timeout flags next_read_pos w =
    if w.max_blank_duration == 0
    then w
    else if has_flag flags flag_blank
    then w
    else record w { last_pos_before_blank = next_read_pos }

unfoldable pub check_blank_timeout : Watchdog → Bool
check_blank_timeout w =
    w.max_blank_duration == 0
    || ltb ((w.curr_read_pos + u32_mod - w.last_pos_before_blank) % u32_mod) w.max_blank_duration

abbrev pub drop_flags : ℕ
drop_flags = bit_or flag_incomplete flag_drops

unfoldable pub window_end : Watchdog → ℕ
window_end w =
    (w.curr_read_pos / w.drop_detection_window * w.drop_detection_window + w.drop_detection_window)
    % u32_mod

-- At the end of a window.
unfoldable pub end_window : ℕ → ℕ → Watchdog → Watchdog
end_window flags next_read_pos w = record w {
  last_pos_before_drops =
      if bit_and w.curr_window_flags drop_flags == drop_flags
      then w.last_pos_before_drops
      else next_read_pos;
  curr_window_flags = if next_read_pos % w.drop_detection_window == 0 then 0 else flags;
}

-- A window of 0 is a division by zero.
unfoldable pub update_drops_timeout : ℕ → ℕ → Watchdog → Option Watchdog
update_drops_timeout flags next_read_pos w =
    if w.max_drops_duration == 0
    then some w
    else if w.drop_detection_window == 0
    then none
    else some (
        let v : Watchdog = record w { curr_window_flags = bit_or w.curr_window_flags flags } in
        if timestamp_le (window_end w) next_read_pos then end_window flags next_read_pos v else v)

unfoldable pub check_drops_timeout : Watchdog → Bool
check_drops_timeout w =
    w.max_drops_duration == 0
    || ltb ((w.curr_read_pos + u32_mod - w.last_pos_before_drops) % u32_mod) w.max_drops_duration

unfoldable pub flush_status : Watchdog → Watchdog
flush_status w = if w.status_pos == 0 then w else record w {
  status =
      if w.status_show
      then take w.status_pos w.status ++ replicate (length w.status - w.status_pos) 0
      else w.status;
  status_pos = 0;
  status_show = false;
}

unfoldable pub symbol : ℕ → ℕ
symbol flags =
    if has_flag flags flag_blank
    then (if has_flag flags flag_drops then b'B' else b'b')
    else if has_flag flags flag_incomplete
    then (if has_flag flags flag_drops then b'I' else b'i')
    else if has_flag flags flag_drops
    then b'D'
    else b'.'

unfoldable pub push_status : ℕ → Watchdog → Watchdog
push_status flags w = record w {
  status = set w.status w.status_pos (symbol flags);
  status_pos = w.status_pos + 1;
  status_show = w.status_show || not (symbol flags == b'.');
}

unfoldable pub update_status : ℕ → Watchdog → Option Watchdog
update_status flags w =
    if length w.status == 0
    then some w
    else if ltb w.status_pos (length w.status)
    then some (
        let v = push_status flags w in
        if v.status_pos == length v.status - 1 then flush_status v else v)
    else none

abbrev pub next_pos : ℕ → Watchdog → ℕ
next_pos size w = (w.curr_read_pos + size / w.num_channels) % u32_mod

-- The end of `read`, from where the position is moved on.
unfoldable pub end_read : ℕ → Watchdog → Watchdog
end_read next_read_pos v =
    let u : Watchdog = record v { curr_read_pos = next_read_pos } in
    if check_drops_timeout u then u else record (flush_status u) { alive = false }

-- `read` behind the call of the inner reader, for a frame of `size` samples and these flags.
unfoldable pub after_read : ℕ → ℕ → Watchdog → Option Watchdog
after_read flags size w = if w.num_channels == 0 then none else (do
  u ← update_drops_timeout flags (next_pos size w) (update_blank_timeout flags (next_pos size w) w)
  v ← update_status flags u
  some (end_read (next_pos size w) v))

module _ {Sample State : Type 0} (silence : Sample) where
  pub read :
      (State → Frame Sample → Frame Sample × State)
      → State
      → Frame Sample
      → Watchdog
      → Option (Frame Sample × State × Watchdog)
  read read_inner s frame w =
      if not w.alive
      then some (record frame { samples = replicate (length frame.samples) silence }, s, w)
      else (let r = read_inner s frame in
          after_read r.0.flags (length r.0.samples) w >>= (λ v. some (r.0, r.1, v)))

unfoldable pub update : Watchdog → Bool × Watchdog
update w =
    if not w.alive
    then (false, w)
    else if not (check_blank_timeout w)
    then (false, record (flush_status w) { alive = false })
    else (true, w)
