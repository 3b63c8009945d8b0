-- ===== src/Packet/DelayedReader.antt =====
-- src/modules/roc_packet/delayed_reader.cpp. `delay_` is the number of samples that the constructor
-- computes from nanoseconds in floating point. `none` as a result of `read` means that the fuel of
-- the trimming loop ran out.
pub mod Loops
pub mod Behaviour
use roc.Prelude.{
  ℕ, zero, suc, ◌+◌, Bool, true, false, Option, none, some, List, pos, negsuc, ltb, ◌==◌,
  if◌then◌else◌, not,
}
use roc.Packet.Units.{timestamp_diff}
use roc.Packet.Types.{Packet, begin, end}
use roc.Packet.SortedQueue
use roc.Packet.SortedQueue.{SortedQueue}
use roc.Packet.Reader.{IReader}

-- A negative difference is logged and counts as 0.
span : Option Packet → Option Packet → ℕ
unfolding timestamp_diff begin end
span (some t) (some h) = elim (timestamp_diff (end t) (begin h)) [ pos n ↦ n | negsuc _ ↦ 0 ]
span _ _ = 0

unfoldable pub queue_size : SortedQueue → ℕ
unfolding span SortedQueue.size SortedQueue.head SortedQueue.tail
queue_size q = if SortedQueue.size q == 0 then 0 else span (SortedQueue.tail q) (SortedQueue.head q)

-- The loop of `read_queued_packet_`.
unfoldable pub read_queued_packet : ℕ → ℕ → SortedQueue → Option (Option Packet × SortedQueue)
read_queued_packet zero delay q = none
read_queued_packet (suc fuel) delay q =
    let r = SortedQueue.read q in
    let rest = read_queued_packet fuel delay r.1 in
    if ltb (queue_size r.1) delay then some r else rest

module _ (r : IReader) where
  pub record DelayedReader : Type 0 where
    pub reader : r.State
    pub queue : SortedQueue
    pub delay : ℕ
    pub started : Bool

  unfoldable pub init : r.State → ℕ → DelayedReader
  unfolding SortedQueue.empty
  init s delay = record { reader = s; queue = SortedQueue.empty 0; delay = delay; started = false }

  -- The loop of `fetch_packets_`.
  unfoldable pub fetch_packets : ℕ → r.State → SortedQueue → Option (r.State × SortedQueue)
  fetch_packets zero s q = none
  fetch_packets (suc fuel) s q =
      let step = r.read s in
      elim step.0 [
        | none ↦ some (step.1, q)
        | some p ↦ fetch_packets fuel step.1 (SortedQueue.write p q)
      ]

  -- `read` from where `started_` is set.
  unfoldable pub read_started : ℕ → DelayedReader → Option (Option Packet × DelayedReader)
  unfolding SortedQueue.size
  read_started fuel d =
      if not (SortedQueue.size d.queue == 0)
      then elim (read_queued_packet fuel d.delay d.queue) [
        | none ↦ none
        | some (p, q) ↦ some (p, record d { queue = q })
      ]
      else some ((r.read d.reader).0, record d { reader = (r.read d.reader).1 })

  unfoldable pub read : ℕ → DelayedReader → Option (Option Packet × DelayedReader)
  unfolding read_started
  read fuel d =
      if d.started
      then read_started fuel d
      else elim (fetch_packets (suc (r.left d.reader)) d.reader d.queue) [
        | none ↦ none
        | some (s, q) ↦
            if ltb (queue_size q) d.delay
            then some (none, record d { reader = s; queue = q })
            else read_started fuel (record d { reader = s; queue = q; started = true })
      ]
