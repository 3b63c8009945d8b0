-- ===== src/Packet/DelayedReader/Behaviour.antt =====
-- `read` of the delayed reader over any packet reader.
use roc.Prelude.{
  ℕ, zero, suc, ◌+◌, ◌≤◌, ◌<◌, ◌≡◌, ◌∙◌, ap, ◌⊎◌, inl, inr, Option, none, some, List, [], ◌∷◌, ◌++◌,
  length-append, true, false, arith, ltb, length, Option-cases, Bool-cases, ◌==◌, if◌then◌else◌,
}
use roc.Packet.Types.{Packet}
use roc.Packet.SortedQueue
use roc.Packet.SortedQueue.{SortedQueue, is_full, or_else, insert}
use roc.Packet.SortedQueue.Behaviour.{length-insert}
use roc.Packet.Reader.{IReader}
use roc.Packet.DelayedReader.{
  DelayedReader, queue_size, read_queued_packet, fetch_packets, read_started, read,
}
use roc.Packet.DelayedReader.Loops.{
  queue_size_empty, Trims, read_queued_packet-Trims, read_queued_packet-diverges,
}

pub length-write :
    (p : Packet) (q : SortedQueue) → length (SortedQueue.write p q).list ≤ length q.list + 1
unfolding SortedQueue.write
length-write p q = ground (arith, length-insert p q.list)

insert_nonempty : (p : Packet) (xs : List Packet) → 0 < length (or_else xs (insert p xs))
unfolding insert
insert_nonempty p [] = omega arith
insert_nonempty p (x ∷ xs) = ground arith

-- A queue without a size limit is not empty after a write.
write_nonempty :
    (p : Packet) (q : SortedQueue)
    → q.max_size ≡ 0
    → (0 < length (SortedQueue.write p q).list) × ((SortedQueue.write p q).max_size ≡ 0)
unfolding SortedQueue.write
write_nonempty p q m = ground (arith, insert_nonempty p q.list)

module _ (r : IReader) where
  fetch_step :
      (fuel : ℕ) (s : r.State) (q : SortedQueue) (p : Packet)
      → (r.read s).0 ≡ some p
      → fetch_packets r (suc fuel) s q ≡ fetch_packets r fuel (r.read s).1 (SortedQueue.write p q)
  unfolding fetch_packets
  fetch_step fuel s q p e = rw (e, fetch_packets)

  fetch_end :
      (fuel : ℕ) (s : r.State) (q : SortedQueue)
      → (r.read s).0 ≡ none
      → fetch_packets r (suc fuel) s q ≡ some ((r.read s).1, q)
  unfolding fetch_packets
  fetch_end fuel s q e = rw (e, fetch_packets)

  abbrev Fetched : r.State → SortedQueue → Option (r.State × SortedQueue) → Type 0
  Fetched s q out =
      (s' : r.State) × (q' : SortedQueue) × (out ≡ some (s', q'))
      × (length q'.list ≤ length q.list + r.left s)
      × (q.max_size ≡ 0 → 0 < length q.list → 0 < length q'.list)

  -- With fuel above the bound of the inner reader `fetch_packets_` ends, and queues no more packets
  -- than that.
  fetch_packets-Fetched :
      (fuel : ℕ) (s : r.State) (q : SortedQueue)
      → r.left s < fuel
      → Fetched s q (fetch_packets r fuel s q)
  fetch_packets-Fetched zero s q h = absurd (omega arith)
  fetch_packets-Fetched (suc fuel) s q h =
      go (Option-cases (r.read s).0) (λ q'. fetch_packets-Fetched fuel (r.read s).1 q')
    where
      go :
          ((r.read s).0 ≡ none) ⊎ ((p : Packet) × ((r.read s).0 ≡ some p))
          → ((q' : SortedQueue)
              → r.left (r.read s).1 < fuel
              → Fetched (r.read s).1 q' (fetch_packets r fuel (r.read s).1 q'))
          → Fetched s q (fetch_packets r (suc fuel) s q)
      go (inl e) ih = ((r.read s).1, q, fetch_end fuel s q e, omega arith, λ _ n. n)
      go (inr (p, e)) ih =
          let (s', q', e', b, n) = ih (SortedQueue.write p q) (omega (arith, r.read_left s p e)) in
          (
            s',
            q',
            fetch_step fuel s q p e ∙ e',
            omega (arith, r.read_left s p e, length-write p q),
            λ m k. n (write_nonempty p q m).1 (write_nonempty p q m).0,
          )

  read_fetched :
      (fuel : ℕ) (d : DelayedReader r) (s : r.State) (q : SortedQueue)
      → d.started ≡ false
      → fetch_packets r (suc (r.left d.reader)) d.reader d.queue ≡ some (s, q)
      → read r fuel d ≡ (
          if ltb (queue_size q) d.delay
          then some (none, record d { reader = s; queue = q; started = false })
          else read_started r fuel (record d { reader = s; queue = q; started = true }))
  unfolding read
  read_fetched fuel d s q h e = rw (h, read, e) (rw h)

  read_already :
      (fuel : ℕ) (d : DelayedReader r) → d.started ≡ true → read r fuel d ≡ read_started r fuel d
  unfolding read
  read_already fuel d h = rw h

  abbrev Returns : Option (Option Packet × DelayedReader r) → Type 0
  Returns out = (p : Option Packet) × (d : DelayedReader r) × (out ≡ some (p, d))

  read_started-Returns :
      (fuel : ℕ) (d : DelayedReader r)
      → 0 < d.delay
      → length d.queue.list < fuel
      → Returns (read_started r fuel d)
  unfolding read_started
  read_started-Returns fuel d hd hf = elim (Bool-cases (length d.queue.list == 0)) [
    | inl e ↦ ((r.read d.reader).0, record d { reader = (r.read d.reader).1 }, rw e)
    | inr e ↦ elim (read_queued_packet-Trims fuel d.delay d.queue hd hf) [
      | inl (n, t) ↦ (none, d, rw (e, t))
      | inr (p, q, dropped, t, l, h) ↦ (some p, record d { queue = q }, rw (e, t))
    ]
  ]

  -- With a delay above 0 every call of `read` returns, over any inner reader that gives finitely many
  -- packets at a time: rounds for all the packets queued and waiting are enough.
  pub read-Returns :
      (fuel : ℕ) (d : DelayedReader r)
      → 0 < d.delay
      → length d.queue.list + r.left d.reader < fuel
      → (p : Option Packet) × (d' : DelayedReader r) × (read r fuel d ≡ some (p, d'))
  read-Returns fuel d hd hf =
      go (Bool-cases d.started)
        (fetch_packets-Fetched (suc (r.left d.reader)) d.reader d.queue (omega arith))
    where
      go :
          (d.started ≡ true) ⊎ (d.started ≡ false)
          → Fetched d.reader d.queue (fetch_packets r (suc (r.left d.reader)) d.reader d.queue)
          → Returns (read r fuel d)
      go (inl t) f = rw (read_already fuel d t) (read_started-Returns fuel d hd (omega arith))
      go (inr t) (s, q, e, b, n) = elim (Bool-cases (ltb (queue_size q) d.delay)) [
        | inl c ↦ (
          none,
          record d { reader = s; queue = q; started = false },
          read_fetched fuel d s q t e ∙ rw c,
        )
        | inr c ↦
            let (p, d', k) =
              read_started-Returns fuel (record d { reader = s; queue = q; started = true }) hd
                (omega arith) in
            (p, d', read_fetched fuel d s q t e ∙ rw (c) k)
      ]

  read_started_queued :
      (fuel : ℕ) (d : DelayedReader r) (p : Packet) (q : SortedQueue)
      → read_queued_packet fuel d.delay d.queue ≡ some (some p, q)
      → 0 < length d.queue.list
      → read_started r fuel d ≡ some (some p, record d { queue = q })
  unfolding read_started
  read_started_queued fuel d p q t h =
      let ne : (length d.queue.list == 0) ≡ false = ground arith in rw (ne, t)

  read_started-diverges :
      (fuel : ℕ) (d : DelayedReader r)
      → d.delay ≡ 0
      → 0 < length d.queue.list
      → read_started r fuel d ≡ none
  unfolding read_started
  read_started-diverges fuel d hd h =
      let ne : (length d.queue.list == 0) ≡ false = ground arith in
      rw (ne, hd, read_queued_packet-diverges)

  -- With a delay of 0 and a queue without a size limit, a `read` in the initial phase that finds a packet
  -- never returns, whatever the inner reader and its packets are: no amount of fuel for the trimming
  -- loop is enough.
  pub read-diverges_zero_delay :
      (fuel : ℕ) (d : DelayedReader r) (p : Packet)
      → d.delay ≡ 0
      → d.queue.max_size ≡ 0
      → d.started ≡ false
      → (r.read d.reader).0 ≡ some p
      → read r fuel d ≡ none
  read-diverges_zero_delay fuel d p hd hm hs hp = go (
      fetch_packets-Fetched (r.left d.reader) (r.read d.reader).1 (SortedQueue.write p d.queue)
        (r.read_left d.reader p hp))
    where
      go :
          Fetched
            (r.read d.reader).1
            (SortedQueue.write p d.queue)
            (fetch_packets r (r.left d.reader) (r.read d.reader).1 (SortedQueue.write p d.queue))
          → read r fuel d ≡ none
      go (s, q, e, b, n) =
          read_fetched fuel d s q hs (fetch_step (r.left d.reader) d.reader d.queue p hp ∙ e)
          ∙ (let late : ltb (queue_size q) d.delay ≡ false = ground arith in
              rw (late) (
                read_started-diverges fuel (record d { reader = s; queue = q; started = true }) hd
                  (n (write_nonempty p d.queue hm).1 (write_nonempty p d.queue hm).0)))

  -- In the initial phase, with a delay above 0 and a round for each queued packet and one more:
  -- until the queued packets make up the delay, `read` hands out nothing, keeps what it fetched
  -- and stays in its initial phase. In the call in which they make it up it leaves that phase and
  -- hands out a packet of the queue, the packets in front of which stay and make up less than the
  -- delay.
  pub read_first :
      (fuel : ℕ) (d : DelayedReader r) (s : r.State) (q : SortedQueue)
      → 0 < d.delay
      → d.started ≡ false
      → fetch_packets r (suc (r.left d.reader)) d.reader d.queue ≡ some (s, q)
      → length q.list < fuel
      → ((queue_size q < d.delay)
          × (read r fuel d ≡ some (none, record d { reader = s; queue = q; started = false })))
        ⊎ ((d.delay ≤ queue_size q)
            × ((p : Packet) × (q' : SortedQueue) × (dropped : List Packet) × (read r fuel d
                  ≡ some (some p, record d { reader = s; queue = q'; started = true }))
                × (q.list ≡ q'.list ++ (p ∷ dropped))
                × (queue_size q' < d.delay)))
  read_first fuel d s q hd hs e hf = elim (Bool-cases (ltb (queue_size q) d.delay)) [
    | inl c ↦ inl (ground arith, read_fetched fuel d s q hs e ∙ rw c)
    | inr c ↦ inr (ground arith, out c (read_queued_packet-Trims fuel d.delay q hd hf))
  ]
    where
      out :
          ltb (queue_size q) d.delay ≡ false
          → Trims d.delay q (read_queued_packet fuel d.delay q)
          → (p : Packet) × (q' : SortedQueue) × (dropped : List Packet) × (read r fuel d
              ≡ some (some p, record d { reader = s; queue = q'; started = true }))
            × (q.list ≡ q'.list ++ (p ∷ dropped))
            × (queue_size q' < d.delay)
      out c (inl (n, t)) = absurd (ground (arith, queue_size_empty q n))
      out c (inr (p, q', dropped, t, l, h)) = (
        p,
        q',
        dropped,
        read_fetched fuel d s q hs e
            ∙ rw (c) (
                read_started_queued fuel (record d { reader = s; queue = q; started = true }) p q' t
                  (omega (arith, ap (length {0}) l, length-append {0} q'.list (p ∷ dropped)))),
        l,
        h,
      )
