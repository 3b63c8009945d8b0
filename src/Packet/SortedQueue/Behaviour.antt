-- ===== src/Packet/SortedQueue/Behaviour.antt =====
-- What `write` and `read` of the sorted queue do, in terms of the packets that it holds.
use roc.Prelude.{
  ℕ, ◌+◌, ◌≤◌, ◌<◌, ◌≡◌, ap, ◌⊎◌, inl, inr, Option, none, some, List, [], ◌∷◌, ◌++◌, arith, true,
  false, length, pop_back_cases, All, All-append, All-left, All-right, length-append, Bool-cases,
}
use roc.Packet.Units.{u16_mod}
use roc.Packet.Types.{Packet}
use roc.Packet.Order.{InWindow, rank}
use roc.Packet.SortedQueue.{SortedQueue, insert, write, read, or_else, is_full, size}
use roc.Packet.SortedQueue.Sorted.{IsSorted, Descending, Over, Under, Inserts, insert-Inserts}

list-write :
    (p : Packet) (q : SortedQueue)
    → is_full q ≡ false
    → (write p q).list ≡ or_else q.list (insert p q.list)
unfolding write
list-write p q e = rw e

write_full : (p : Packet) (q : SortedQueue) → is_full q ≡ true → write p q ≡ q
unfolding write
write_full p q e = rw e

All-insert :
    (P : Packet → Type 0) (p : Packet) (ys zs : List Packet)
    → P p
    → All P (ys ++ zs)
    → All P (ys ++ (p ∷ zs))
All-insert P p ys zs hp h = All-append P ys (p ∷ zs) (All-left P ys zs h) (hp, All-right P ys zs h)

module _ (base : ℕ) where
  -- The list after a packet was offered to the list `xs`.
  abbrev pub Offered : Packet → List Packet → List Packet → Type 0
  Offered p xs out =
      ((ys : List Packet) × (x : Packet) × (zs : List Packet) × (xs ≡ ys ++ (x ∷ zs))
        × (rank base x ≡ rank base p)
        × (out ≡ xs))
      ⊎ ((ys : List Packet) × (zs : List Packet) × (xs ≡ ys ++ zs)
          × (out ≡ ys ++ (p ∷ zs))
          × Over base (rank base p) ys
          × Under base (rank base p) zs)

  -- `write` on a sorted queue, where its packets and the new one lie in one half of the circle of
  -- sequence numbers. A full queue is left as it is. In another one either a packet with the same
  -- sequence number is there and the queue keeps its packets, or the new packet goes behind all
  -- later ones and before all earlier ones, and no other packet moves.
  pub write_lem :
      (p : Packet) (q : SortedQueue)
      → base < u16_mod
      → InWindow base p
      → IsSorted base q
      → ((is_full q ≡ true) × (write p q ≡ q))
        ⊎ ((is_full q ≡ false) × Offered p q.list (write p q).list)
  write_lem p q hb wp s = elim (Bool-cases (is_full q)) [
    | inl e ↦ inl (e, write_full p q e)
    | inr e ↦
        inr
          (e, rw (list-write p q e) (offered (insert-Inserts base hb p wp q.list s.window s.order)))
  ]
    where
      offered :
          Inserts base p q.list (insert p q.list)
          → Offered p q.list (or_else q.list (insert p q.list))
      offered (inl (ys, x, zs, e, k, n)) = inl (ys, x, zs, e, k, ap (or_else q.list) n)
      offered (inr (ys, zs, e, n, o, u)) = inr (ys, zs, e, ap (or_else q.list) n, o, u)

  Descending-left : (xs ys : List Packet) → Descending base (xs ++ ys) → Descending base xs
  Descending-left [] ys d = tt
  Descending-left (x ∷ xs) ys d = (All-left _ xs ys d.0, Descending-left xs ys d.1)

  Descending-last :
      (xs : List Packet) (p : Packet)
      → Descending base (xs ++ (p ∷ []))
      → Over base (rank base p) xs
  Descending-last [] p d = tt
  Descending-last (x ∷ xs) p d = ((All-right _ xs (p ∷ []) d.0).0, Descending-last xs p d.1)

  abbrev pub ReadsOldest : SortedQueue → Option Packet × SortedQueue → Type 0
  ReadsOldest q r =
      ((q.list ≡ []) × (r ≡ (none, q)))
      ⊎ ((p : Packet) × (rest : List Packet) × (r ≡ (some p, record q { list = rest }))
          × (q.list ≡ rest ++ (p ∷ []))
          × Over base (rank base p) rest
          × IsSorted base (record q { list = rest }))

  -- `read` of a sorted queue: null exactly on an empty queue, which stays as it is; otherwise the one
  -- packet that precedes all others is taken out, and the rest is left in place and sorted.
  pub read-ReadsOldest : (q : SortedQueue) → IsSorted base q → ReadsOldest q (read q)
  unfolding read
  read-ReadsOldest q s = elim (pop_back_cases q.list) [
    | inl (e, n) ↦ inl (e, rw (n, read))
    | inr (p, rest, e, n) ↦ inr (
      p,
      rest,
      rw (n, read),
      e,
      Descending-last rest p (rw e at s.order),
      record {
        window = All-left _ rest (p ∷ []) (rw e at s.window);
        order = Descending-left rest (p ∷ []) (rw e at s.order);
      },
    )
  ]

pub length-insert :
    (p : Packet) (xs : List Packet) → length (or_else xs (insert p xs)) ≤ length xs + 1
unfolding insert
length-insert p [] = omega arith
length-insert p (x ∷ xs) = ground (arith, length-insert p xs)

length-read : (q : SortedQueue) → length (read q).1.list ≤ length q.list
unfolding read
length-read q = elim (pop_back_cases q.list) [
  | inl (e, n) ↦ rw (n, read) (omega arith)
  | inr (p, rest, e, n) ↦
      rw (n, read) (omega (arith, ap (length {0}) e, length-append {0} rest (p ∷ [])))
]

max_size-read : (q : SortedQueue) → (read q).1.max_size ≡ q.max_size
unfolding read
max_size-read q = ground arith

pub data QueueOp : Type 0 where
  put : Packet → QueueOp
  get : QueueOp

pub step : SortedQueue → QueueOp → SortedQueue
step q (put p) = write p q
step q get = (read q).1

pub run : SortedQueue → List QueueOp → SortedQueue
run q [] = q
run q (o ∷ os) = run (step q o) os

step-bound :
    (q : SortedQueue) (o : QueueOp)
    → 0 < q.max_size
    → size q ≤ q.max_size
    → (size (step q o) ≤ q.max_size) × ((step q o).max_size ≡ q.max_size)
unfolding step size write
step-bound q (put p) m h = ground (arith, length-insert p q.list)
step-bound q get m h = omega (arith, length-read q, max_size-read q)

-- No history of writes and reads brings a queue with a size limit, which starts within it, above
-- its limit, whatever packets are written.
pub run-bound :
    (q : SortedQueue) (os : List QueueOp)
    → 0 < q.max_size
    → size q ≤ q.max_size
    → size (run q os) ≤ q.max_size
unfolding run
run-bound q [] m h = h
run-bound q (o ∷ os) m h =
    let b = step-bound q o m h in omega (arith, run-bound (step q o) os (omega arith) (omega arith))
