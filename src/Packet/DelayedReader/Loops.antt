-- ===== src/Packet/DelayedReader/Loops.antt =====
-- The two loops of the delayed reader: when they end, and with what.
use mathlib.Core.List.{append_assoc}
use roc.Prelude.{
  ℕ, zero, suc, ◌<◌, ◌≡◌, refl, ◌∙◌, ap, ◌⊎◌, inl, inr, Option, none, some, List, [], ◌∷◌, ◌++◌,
  false, arith, ltb, length, pop_back_cases, length-append, Bool-cases, if◌then◌else◌,
}
use roc.Packet.Types.{Packet}
use roc.Packet.SortedQueue
use roc.Packet.SortedQueue.{SortedQueue}
use roc.Packet.DelayedReader.{queue_size, read_queued_packet}

-- A read of a queue takes its last packet, or finds it empty.
read_cases :
    (q : SortedQueue)
    → ((q.list ≡ []) × (SortedQueue.read q ≡ (none, q)))
      ⊎ ((p : Packet) × (rest : List Packet) × (q.list ≡ rest ++ (p ∷ []))
          × (SortedQueue.read q ≡ (some p, record q { list = rest })))
unfolding SortedQueue.read
read_cases q = elim (pop_back_cases q.list) [
  | inl (e, n) ↦ inl (e, rw (n, SortedQueue.read))
  | inr (p, rest, e, n) ↦ inr (p, rest, e, rw (n, SortedQueue.read))
]

pub queue_size_empty : (q : SortedQueue) → q.list ≡ [] → queue_size q ≡ 0
unfolding queue_size
queue_size_empty q e = rw (e, SortedQueue.size)

queued_step :
    (fuel delay : ℕ) (q q' : SortedQueue) (o : Option Packet)
    → SortedQueue.read q ≡ (o, q')
    → read_queued_packet (suc fuel) delay q
      ≡ (if ltb (queue_size q') delay then some (o, q') else read_queued_packet fuel delay q')
unfolding read_queued_packet
queued_step fuel delay q q' o e = rw e

-- What the trimming loop makes of a queue: null for an empty one, else a packet of it, with the
-- packets in front of that one left in the queue and those behind it discarded.
abbrev pub Trims : ℕ → SortedQueue → Option (Option Packet × SortedQueue) → Type 0
Trims delay old r =
    ((old.list ≡ []) × (r ≡ some (none, old)))
    ⊎ ((p : Packet) × (q : SortedQueue) × (dropped : List Packet) × (r ≡ some (some p, q))
        × (old.list ≡ q.list ++ (p ∷ dropped))
        × (queue_size q < delay))

-- With a delay above 0 the trimming loop ends within one round for each queued packet and one more,
-- however the timestamps lie. An empty queue gives null. Otherwise the packet returned is one of the
-- queue, the packets in front of it stay and make up less than the delay, and those that were to be
-- read before it are discarded.
pub read_queued_packet-Trims :
    (fuel delay : ℕ) (q : SortedQueue)
    → 0 < delay
    → length q.list < fuel
    → Trims delay q (read_queued_packet fuel delay q)
read_queued_packet-Trims zero delay q hd hf = absurd (omega arith)
read_queued_packet-Trims (suc fuel) delay q hd hf =
    go (read_cases q) (λ q'. read_queued_packet-Trims fuel delay q' hd)
  where
    later :
        (p : Packet) (rest : List Packet)
        → q.list ≡ rest ++ (p ∷ [])
        → SortedQueue.read q ≡ (some p, record q { list = rest })
        → ltb (queue_size (record q { list = rest })) delay ≡ false
        → Trims delay
            (record q { list = rest })
            (read_queued_packet fuel delay (record q { list = rest }))
        → Trims delay q (read_queued_packet (suc fuel) delay q)
    later p rest e n t (inl (e', n')) =
        absurd (ground (arith, queue_size_empty (record q { list = rest }) e'))
    later p rest e n t (inr (p', q', dropped, n', e', h)) = inr (
      p',
      q',
      dropped ++ (p ∷ []),
      queued_step fuel delay q (record q { list = rest }) (some p) n ∙ rw (t) n',
      e ∙ rw (e') (append_assoc q'.list (p' ∷ dropped) (p ∷ [])),
      h,
    )

    go :
        (((q.list ≡ []) × (SortedQueue.read q ≡ (none, q)))
          ⊎ ((p : Packet) × (rest : List Packet) × (q.list ≡ rest ++ (p ∷ []))
              × (SortedQueue.read q ≡ (some p, record q { list = rest }))))
        → ((q' : SortedQueue)
            → length q'.list < fuel
            → Trims delay q' (read_queued_packet fuel delay q'))
        → Trims delay q (read_queued_packet (suc fuel) delay q)
    go (inl (e, n)) ih =
        inl (e, queued_step fuel delay q q none n ∙ ground (arith, queue_size_empty q e))
    go (inr (p, rest, e, n)) ih =
        elim (Bool-cases (ltb (queue_size (record q { list = rest })) delay)) [
          | inl t ↦ inr (
            p,
            record q { list = rest },
            [],
            queued_step fuel delay q (record q { list = rest }) (some p) n ∙ rw (t) refl,
            e,
            ground arith,
          )
          | inr t ↦ later p rest e n t (
              ih (record q { list = rest })
                (omega (arith, ap (length {0}) e, length-append {0} rest (p ∷ []))))
        ]

-- With a delay of 0 the trimming loop never ends: no amount of fuel gives a result.
pub read_queued_packet-diverges : (fuel : ℕ) (q : SortedQueue) → read_queued_packet fuel 0 q ≡ none
unfolding read_queued_packet
read_queued_packet-diverges zero q = refl
read_queued_packet-diverges (suc fuel) q =
    ground (arith, read_queued_packet-diverges fuel (SortedQueue.read q).1)
