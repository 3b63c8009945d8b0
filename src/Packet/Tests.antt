-- ===== src/Packet/Tests.antt =====
-- Tests of the modules of src/modules/roc_packet, and their theorems at concrete inputs.
use mathlib.Core.List.{Perm}
use roc.Prelude.{
  ℕ, ◌≤◌, ◌<◌, ◌≡◌, refl, ◌⊎◌, true, false, Option, none, some, List, [], ◌∷◌, ◌++◌, arith, pos,
  negsuc,
}
use roc.Packet.Units.{num_channels}
use roc.Packet.Types.{Packet, packet_init, rtp_init, flag_rtp, compare, source}
use roc.Packet.Order.{InWindow, rank_compare, compare-rank}
use roc.Packet.SortedQueue
use roc.Packet.SortedQueue.{SortedQueue, is_full, insert}
use roc.Packet.SortedQueue.Sorted.{IsSorted}
use roc.Packet.SortedQueue.Behaviour
use roc.Packet.SortedQueue.Behaviour.{
  Offered, ReadsOldest, QueueOp, put, get, write_lem, read-ReadsOldest, run-bound,
}
use roc.Packet.Reader.{queue_reader}
use roc.Packet.DelayedReader
use roc.Packet.DelayedReader.{DelayedReader, read_queued_packet, queue_size}
use roc.Packet.DelayedReader.Behaviour.{read-Returns, read-diverges_zero_delay, read_first}
use roc.Packet.Interleaver
use roc.Packet.Interleaver.{Interleaver, reinit_seq, flush, contents}
use roc.Packet.Interleaver.Shuffle.{reinit_seq-IsPermutation}
use roc.Packet.Interleaver.Delivery
use roc.Packet.Interleaver.Delivery.{
  IsValid, IsBuffer-empty, Runs, Writes, init-IsValid, write-Writes, run-Runs, run-block, run-flush,
}
use roc.Packet.Router
use roc.Packet.Router.{Router, Route, route}
use roc.Packet.Router.Sticky
use roc.Packet.Router.Sticky.{adds, writes, write-sticky}

-- An RTP packet of 10 samples.
abbrev pkt : ℕ → ℕ → Packet
pkt seqnum timestamp = record packet_init {
  flags = flag_rtp;
  rtp_part = record rtp_init { source = 7; seqnum = seqnum; timestamp = timestamp; duration = 10 };
}

-- Three packets in the order of their numbers, which wrap around after the first.
abbrev early : Packet
early = pkt 65535 100

abbrev middle : Packet
middle = pkt 0 110

abbrev late : Packet
late = pkt 1 120

early_in : InWindow 65535 early
early_in = record { has_rtp = refl; fits = omega arith; near = omega arith }

middle_in : InWindow 65535 middle
middle_in = record { has_rtp = refl; fits = omega arith; near = omega arith }

late_in : InWindow 65535 late
late_in = record { has_rtp = refl; fits = omega arith; near = omega arith }

channels_of_stereo : num_channels 3 ≡ 2
unfolding num_channels
channels_of_stereo = refl

compare_around : (compare early late ≡ negsuc 0) × (compare late early ≡ pos 1)
unfolding compare
compare_around = (refl, refl)

compare-rank_example : compare early late ≡ rank_compare 0 2
compare-rank_example = compare-rank 65535 early late (omega arith) early_in late_in

abbrev two : SortedQueue
two = record { list = late ∷ early ∷ []; latest = some late; max_size = 3 }

two-IsSorted : IsSorted 65535 two
two-IsSorted = record { window = (late_in, (early_in, tt)); order = ((omega arith, tt), (tt, tt)) }

write-middle : SortedQueue.write middle two ≡ record two { list = late ∷ middle ∷ early ∷ [] }
unfolding SortedQueue.write insert compare
write-middle = refl

write_again : SortedQueue.write late two ≡ two
unfolding SortedQueue.write insert compare
write_again = refl

write_lem_example :
    ((is_full two ≡ true) × (SortedQueue.write middle two ≡ two))
    ⊎ ((is_full two ≡ false) × Offered 65535 middle two.list (SortedQueue.write middle two).list)
write_lem_example = write_lem 65535 middle two (omega arith) middle_in two-IsSorted

read-ReadsOldest_example : ReadsOldest 65535 two (SortedQueue.read two)
read-ReadsOldest_example = read-ReadsOldest 65535 two two-IsSorted

run-bound_example : SortedQueue.size (Behaviour.run two (put middle ∷ put (pkt 9 9) ∷ get ∷ [])) ≤ 3
unfolding SortedQueue.size
run-bound_example =
    run-bound two (put middle ∷ put (pkt 9 9) ∷ get ∷ []) (omega arith) (omega arith)

-- The samples queued, and what is read with a delay of 25 samples.
abbrev three : SortedQueue
three = record { list = late ∷ middle ∷ early ∷ []; latest = some late; max_size = 0 }

queue_size-three : queue_size three ≡ 30
unfolding queue_size
queue_size-three = refl

read_queued_packet-three :
    read_queued_packet 4 25 three ≡ some (some early, record three { list = late ∷ middle ∷ [] })
unfolding read_queued_packet SortedQueue.read queue_size
read_queued_packet-three = refl

abbrev reader_of : ℕ → DelayedReader queue_reader
reader_of delay = record {
  reader = middle ∷ late ∷ early ∷ [];
  queue = SortedQueue.empty 0;
  delay = delay;
  started = false;
}

read_waits :
    DelayedReader.read queue_reader 9 (reader_of 40)
    ≡ some (none, record (reader_of 40) { reader = []; queue = three })
unfolding DelayedReader.read DelayedReader.fetch_packets SortedQueue.write insert compare queue_size
    SortedQueue.empty
read_waits = refl

read-Returns_example :
    (p : Option Packet) × (d : DelayedReader queue_reader) × (DelayedReader.read queue_reader 9
        (reader_of 25)
      ≡ some (p, d))
unfolding SortedQueue.empty
read-Returns_example = read-Returns queue_reader 9 (reader_of 25) (omega arith) (omega arith)

read-diverges_zero_delay_example : DelayedReader.read queue_reader 1000 (reader_of 0) ≡ none
unfolding SortedQueue.empty
read-diverges_zero_delay_example =
    read-diverges_zero_delay queue_reader 1000 (reader_of 0) middle refl refl refl refl

abbrev block : List Packet
block = early ∷ middle ∷ late ∷ []

-- A random number generator that always returns 0.
abbrev zeros : ℕ → ℕ
zeros k = 0

abbrev t3 : Interleaver
t3 = record {
  block_size = 3;
  send_seq = reinit_seq zeros 3;
  packets = none ∷ none ∷ none ∷ [];
  next_2_put = 0;
  next_2_send = 0;
}

t3-IsValid : IsValid t3
t3-IsValid = record {
  order = reinit_seq-IsPermutation zeros 3 (λ k h. omega arith);
  put_in = omega arith;
  send_in = omega arith;
  buffer =
      IsBuffer-empty 3 (reinit_seq zeros 3) (reinit_seq-IsPermutation zeros 3 (λ k h. omega arith));
}

send_seq-three : reinit_seq zeros 3 ≡ 1 ∷ 2 ∷ 0 ∷ []
unfolding reinit_seq Interleaver.swap
send_seq-three = refl

run-Runs_example : Runs (early ∷ late ∷ []) t3 (Delivery.run (early ∷ late ∷ []) t3)
run-Runs_example = run-Runs (early ∷ late ∷ []) t3 t3-IsValid

run-block_example :
    (out : List Packet) × (t : Interleaver) × (Delivery.run block t3 ≡ some (out, t))
    × IsValid t
    × (t.next_2_put ≡ 0)
    × Perm block out
run-block_example = run-block block t3 t3-IsValid refl refl

run-flush_example :
    (out : List Packet) × (t : Interleaver) × (Delivery.run (early ∷ late ∷ []) t3 ≡ some (out, t))
    × Perm (early ∷ late ∷ []) (out ++ (flush t).0)
    × IsValid (flush t).1
    × ((flush t).1.next_2_put ≡ 0)
    × (contents (flush t).1.packets ≡ [])
run-flush_example = run-flush (early ∷ late ∷ []) t3 t3-IsValid refl

abbrev any_route : Route
any_route = record { writer = 4; flags = 0; source = 0; has_source = false }

abbrev rtp_route : Route
rtp_route = record { writer = 5; flags = 2; source = 9; has_source = true }

abbrev routes : Router
routes = record { routes = rtp_route ∷ any_route ∷ []; max_size = 3 }

write_taken : (Router.write early routes).0 ≡ some 4
unfolding Router.write route source
write_taken = refl

write-sticky_example :
    (Router.write late (
      Sticky.run
        (Router.write early routes).1
        (adds 6 2 ∷ writes (record late { flags = 6 }) ∷ []))).0
    ≡ some 4
unfolding source
write-sticky_example =
    write-sticky early late 4 routes (adds 6 2 ∷ writes (record late { flags = 6 }) ∷ [])
      write_taken refl refl

fetched_three :
    DelayedReader.fetch_packets queue_reader 4 (middle ∷ late ∷ early ∷ []) (SortedQueue.empty 0)
    ≡ some ([], three)
unfolding DelayedReader.fetch_packets SortedQueue.write insert compare SortedQueue.empty
fetched_three = refl

read_first_example :
    ((queue_size three < 25)
      × (DelayedReader.read queue_reader 9 (reader_of 25)
          ≡ some (none, record (reader_of 25) { reader = []; queue = three; started = false })))
    ⊎ ((25 ≤ queue_size three)
        × ((p : Packet) × (q : SortedQueue) × (dropped : List Packet) × (DelayedReader.read
                queue_reader 9
                (reader_of 25)
              ≡ some (some p, record (reader_of 25) { reader = []; queue = q; started = true }))
            × (three.list ≡ q.list ++ (p ∷ dropped))
            × (queue_size q < 25)))
read_first_example =
    read_first queue_reader 9 (reader_of 25) [] three (omega arith) refl fetched_three (omega arith)
