-- ===== src/Audio/Tests.antt =====
-- Tests of the modules of src/modules/roc_audio, and their theorems at concrete inputs.
use roc.Prelude.{◌≡◌, refl, inr, true, false, none, some, [], ◌∷◌, arith, ltb, ◌&&◌}
use roc.Audio.Watchdog.{Watchdog, init, update, symbol}
use roc.Audio.Watchdog.Status.{HasRoom}
use roc.Audio.Watchdog.Timeout.{play, update-play}
use roc.Audio.Watchdog.Drops.{play-drops}

-- Two channels, a timeout of 100 samples, a status string of three symbols.
abbrev w0 : Watchdog
w0 = record {
  num_channels = 2;
  max_blank_duration = 100;
  max_drops_duration = 60;
  drop_detection_window = 30;
  curr_read_pos = 0;
  last_pos_before_blank = 0;
  last_pos_before_drops = 0;
  curr_window_flags = 0;
  status = 0 ∷ 0 ∷ 0 ∷ 0 ∷ [];
  status_pos = 0;
  status_show = false;
  alive = true;
}

init-w0 : init false true 2 100 60 30 3 ≡ some w0
unfolding init
init-w0 = refl

window_too_large : init false true 2 100 20 30 3 ≡ none
unfolding init
window_too_large = refl

symbols : (symbol 0 ≡ b'.') × (symbol 5 ≡ b'B') × (symbol 2 ≡ b'i') × (symbol 4 ≡ b'D')
unfolding symbol
symbols = (refl, refl, refl, refl)

w0-HasRoom : HasRoom w0
w0-HasRoom = inr (omega arith)

update-play_example :
    (v : Watchdog) × (play w0 ((0, 20) ∷ (1, 80) ∷ (5, 160) ∷ []) ≡ some v)
    × ((update v).0 ≡ (v.alive && ltb 120 100))
update-play_example =
    update-play w0 (0, 20) ((1, 80) ∷ (5, 160) ∷ []) (omega arith) (omega arith) w0-HasRoom
      (inr (omega arith)) refl (refl, (refl, tt)) (omega arith)

-- A frame that ends a window, and three frames of 20 samples each with missing samples and drops.
play-drops_example :
    (v : Watchdog) × (play w0 ((0, 70) ∷ (6, 40) ∷ (7, 40) ∷ (6, 40) ∷ []) ≡ some v)
    × (v.alive ≡ (true && ltb 60 60))
play-drops_example =
    play-drops w0 (0, 70) ((6, 40) ∷ (7, 40) ∷ (6, 40) ∷ []) (omega arith) (omega arith)
      (omega arith) w0-HasRoom (omega arith) (omega arith) refl (omega arith) (omega arith)
      (omega arith) ((omega arith, refl), ((omega arith, refl), ((omega arith, refl), tt)))
      (omega arith)
