-- ===== src/Audio/Depacketizer.antt =====
-- src/modules/roc_audio/depacketizer.cpp, with the interface of iframe_decoder.h. Samples are of any
-- type with a zero; the sample of the beep at a position, a sine, is an argument. `none` is a panic, a
-- division by zero, or fuel that ran out.
pub mod Contract
pub mod States
pub mod Fetch
pub mod Updates
pub mod Gaps
pub mod Tallies
pub mod Missing
pub mod Packets
pub mod Fills
pub mod Rounds
pub mod Frames
pub mod Flags
use roc.Prelude.{
  ℕ, zero, suc, ◌+◌, ◌-◌, ◌*◌, ◌/◌, ◌%◌, ◌||◌, Bool, true, false, Option, none, some, List, [], ◌∷◌,
  ◌++◌, ℤ, pos, negsuc, min, bit_or, ltb, ◌==◌, not, if◌then◌else◌, length, replicate, ◌>>=◌,
}
use roc.Packet.Units.{u32_mod, u64_mod, timestamp_lt, timestamp_diff}
use roc.Packet.Types.{Packet, Rtp, Slice, rtp}
use roc.Packet.Reader.{IReader}
use roc.Audio.Watchdog.{Frame, flag_incomplete, flag_blank, flag_drops}

-- IFrameDecoder. `read` gives the number of samples for each channel and the samples; an operation may
-- panic.
pub record FrameDecoder (Sample : Type 0) : Type 1 where
  pub State : Type 0
  pub position : State → ℕ
  pub available : State → ℕ
  pub begin : ℕ → Slice → State → Option State
  pub read : ℕ → ℕ → State → Option (ℕ × List Sample × State)
  pub shift : ℕ → State → Option (ℕ × State)
  pub finish : State → Option State

-- A timestamp difference, a 32-bit integer, converted to `size_t`.
abbrev pub to_size : ℤ → ℕ
to_size (pos n) = n
to_size (negsuc n) = u64_mod - suc n

module _ {Sample : Type 0} (beep_at : ℕ → Sample) where
  -- `write_beep`, from position `k` on.
  pub write_beep : ℕ → ℕ → List Sample
  write_beep k zero = []
  write_beep k (suc n) = beep_at k ∷ write_beep (k + 1) n

-- What a depacketizer is given.
pub record Inputs (Sample : Type 0) : Type 1 where
  pub silence : Sample
  pub beep_at : ℕ → Sample
  pub decoder : FrameDecoder Sample
  pub reader : IReader

module _ {Sample : Type 0} (io : Inputs Sample) where
  pub record Depacketizer : Type 0 where
    pub reader : io.reader.State
    pub decoder : io.decoder.State
    pub channels : ℕ
    pub num_channels : ℕ
    pub packet : Option Packet
    pub timestamp : ℕ
    pub zero_samples : ℕ
    pub missing_samples : ℕ
    pub packet_samples : ℕ
    pub first_packet : Bool
    pub beep : Bool
    pub dropped_packets : ℕ

  unfoldable pub started : Depacketizer → Bool
  started w = not w.first_packet

  -- `timestamp()`
  unfoldable pub next_timestamp : Depacketizer → ℕ
  next_timestamp w = if w.first_packet then 0 else w.timestamp

  -- Whether the packet that the decoder has begun is played, or dropped since it is late.
  unfoldable pub plays : Depacketizer → Bool
  plays w =
      w.first_packet
      || timestamp_lt w.timestamp
          ((io.decoder.position w.decoder + io.decoder.available w.decoder) % u32_mod)

  -- The loop of `update_packet_`: the timestamp of the packet and the count of dropped ones.
  unfoldable pub fetch_packet : ℕ → ℕ → ℕ → Depacketizer → Option (ℕ × ℕ × Depacketizer)
  fetch_packet zero ts n w = none
  fetch_packet (suc fuel) ts n w = elim (io.reader.read w.reader).0 [
    | none ↦ some (ts, n, record w { reader = (io.reader.read w.reader).1; packet = none })
    | some p ↦ (rtp p) >>= λ r. (io.decoder.begin r.timestamp r.payload w.decoder) >>= λ s.
        let v : Depacketizer = record w {
          reader = (io.reader.read w.reader).1;
          packet = some p;
          decoder = s;
        } in
        elim (plays v) [
          | true ↦ some (io.decoder.position s, n, v)
          | false ↦ (io.decoder.finish s) >>= λ t.
              fetch_packet fuel (io.decoder.position s) ((n + 1) % u32_mod)
                (record v { decoder = t })
        ]
  ]

  -- The first packet sets the position.
  abbrev pub start : ℕ → Depacketizer → Depacketizer
  start ts w = if w.first_packet then record w { timestamp = ts; first_packet = false } else w

  -- The samples of a packet that should have been played already are skipped.
  unfoldable pub catch_up : ℕ → Depacketizer → Option Depacketizer
  catch_up ts w =
      if timestamp_lt ts w.timestamp
      then (do
        (k, s) ← io.decoder.shift (to_size (timestamp_diff w.timestamp ts)) w.decoder
        if k == to_size (timestamp_diff w.timestamp ts)
            then some (record w { decoder = s })
            else none)
      else some w

  abbrev pub settle_packet : Option Packet → ℕ → Depacketizer → Option Depacketizer
  settle_packet none ts w = some w
  settle_packet (some _) ts w = catch_up ts (start ts w)

  abbrev pub settle : ℕ × ℕ × Depacketizer → Option Depacketizer
  settle (ts, n, w) =
      settle_packet w.packet ts (record w { dropped_packets = (w.dropped_packets + n) % u64_mod })

  -- Without a packet the next one is taken.
  abbrev pub update_from : Option Packet → Depacketizer → Option Depacketizer
  update_from (some _) w = some w
  update_from none w = (fetch_packet (suc (io.reader.left w.reader)) 0 0 w) >>= settle

  unfoldable pub update_packet : Depacketizer → Option Depacketizer
  update_packet w = update_from w.packet w

  -- Here and below the first number is the size of the rest of the buffer, and the samples are those
  -- that are written to it.
  unfoldable pub read_missing_samples : ℕ → Depacketizer → List Sample × Depacketizer
  read_missing_samples left w =
      let n = left / w.num_channels in
      (
        if w.beep
            then write_beep io.beep_at 0 (n * w.num_channels)
            else replicate (n * w.num_channels) io.silence,
        record w {
          timestamp = (w.timestamp + n) % u32_mod;
          zero_samples = if w.first_packet then (w.zero_samples + n) % u32_mod else w.zero_samples;
          missing_samples =
              if w.first_packet then w.missing_samples else (w.missing_samples + n) % u32_mod;
        },
      )

  unfoldable pub read_packet_samples : ℕ → Depacketizer → Option (List Sample × Depacketizer)
  read_packet_samples left w = do
    (k, xs, s) ← io.decoder.read (left / w.num_channels) w.channels w.decoder
    let v : Depacketizer = record w {
      decoder = s;
      timestamp = (w.timestamp + k) % u32_mod;
      packet_samples = (w.packet_samples + k) % u32_mod;
    }
    if ltb k (left / w.num_channels)
        then (do t ← io.decoder.finish s; some (xs, record v { decoder = t; packet = none }))
        else some (xs, v)

  -- The packet's samples behind those that fill the gap before it.
  unfoldable pub read_behind : ℕ → List Sample × Depacketizer → Option (List Sample × Depacketizer)
  read_behind left (xs, w) =
      if ltb (length xs) left
      then (do (ys, v) ← read_packet_samples (left - length xs) w; some (xs ++ ys, v))
      else some (xs, w)

  -- The samples from the position of the packet to the next one that is wanted are missing.
  unfoldable pub read_present : ℕ → Depacketizer → Option (List Sample × Depacketizer)
  read_present left w =
      let next = io.decoder.position w.decoder in
      if w.timestamp == next
      then read_behind left ([], w)
      else if not (timestamp_lt w.timestamp next)
      then none
      else read_behind left (
          read_missing_samples
            (min (w.num_channels * to_size (timestamp_diff next w.timestamp) % u64_mod) left) w)

  abbrev pub read_from : Option Packet → ℕ → Depacketizer → Option (List Sample × Depacketizer)
  read_from none left w = some (read_missing_samples left w)
  read_from (some _) left w = read_present left w

  unfoldable pub read_samples : ℕ → Depacketizer → Option (List Sample × Depacketizer)
  read_samples left w = (update_packet w) >>= λ v. read_from v.packet left v

  unfoldable pub read_loop : ℕ → ℕ → Depacketizer → Option (List Sample × Depacketizer)
  read_loop zero left w = none
  read_loop (suc fuel) left w = elim (left == 0) [
    | true ↦ some ([], w)
    | false ↦ (read_samples left w) >>= λ a. elim (ltb left (length a.0)) [
      | true ↦ none
      | false ↦ (read_loop fuel (left - length a.0) a.1) >>= λ b. some (a.0 ++ b.0, b.1)
    ]
  ]

  -- Three rounds more than packets wait.
  unfoldable pub read_frame : ℕ → Depacketizer → Option (List Sample × Depacketizer)
  read_frame size w =
      if w.num_channels == 0
      then none
      else if not (size % w.num_channels == 0)
      then none
      else read_loop (io.reader.left w.reader + 3) size w

  -- The flags of a frame, from the state before and the one after it was read.
  unfoldable pub frame_flags : ℕ → Depacketizer → Depacketizer → ℕ
  frame_flags size before after =
      let n =
        before.num_channels
        * to_size (timestamp_diff after.packet_samples before.packet_samples)
        % u64_mod in
      bit_or (bit_or (if n == size then 0 else flag_incomplete) (if n == 0 then flag_blank else 0))
        (if before.dropped_packets == after.dropped_packets then 0 else flag_drops)

  unfoldable pub read : ℕ → Depacketizer → Option (Frame Sample × Depacketizer)
  read size w = do
    (xs, v) ← read_frame size w
    some (record { samples = xs; flags = frame_flags size w v }, v)
