-- ===== src/Packet/Reader.antt =====
-- src/modules/roc_packet/ireader.h and queue.cpp. The interface of a packet reader, which the
-- readers of other components are built on, and the plain queue as an implementation of it.
use roc.Prelude.{ℕ, ◌<◌, ◌≡◌, Option, none, some, List, [], ◌∷◌, ◌++◌, arith, length}
use roc.Packet.Types.{Packet}

-- `left` bounds the packets that the reader can give before new ones arrive.
pub record IReader : Type 1 where
  pub State : Type 0
  pub read : State → Option Packet × State
  pub left : State → ℕ
  pub read_left : (s : State) (p : Packet) → (read s).0 ≡ some p → left (read s).1 < left s

-- A reader that gives packets of one kind only.
pub record Gives (i : IReader) (P : Packet → Type 0) : Type 1 where
  pub Holds : i.State → Type 0
  pub gives : (s : i.State) (p : Packet) → Holds s → (i.read s).0 ≡ some p → P p
  pub keeps : (s : i.State) → Holds s → Holds (i.read s).1

-- `list_` of class Queue, front first.
abbrev pub Queue : Type 0
Queue = List Packet

abbrev pub queue_read : Queue → Option Packet × Queue
queue_read [] = (none, [])
queue_read (p ∷ q) = (some p, q)

abbrev pub queue_write : Packet → Queue → Queue
queue_write p q = q ++ (p ∷ [])

pub queue_read_left :
    (q : Queue) (p : Packet) → (queue_read q).0 ≡ some p → length (queue_read q).1 < length q
queue_read_left [] p h = cc
queue_read_left (x ∷ q) p h = omega arith

abbrev pub queue_reader : IReader
queue_reader = record {
  State = Queue;
  read = queue_read;
  left = length;
  read_left = queue_read_left;
}
