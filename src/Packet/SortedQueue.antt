-- ===== src/Packet/SortedQueue.antt =====
-- src/modules/roc_packet/sorted_queue.cpp. The list is `list_` from its front (the latest packet) to
-- its back (the next to read). A null packet is ruled out by the types.
pub mod Sorted
pub mod Behaviour
use roc.Prelude.{
  ℕ, ◌&&◌, Bool, Option, none, some, List, [], ◌∷◌, is_neg, is_nonpos, ltb, ◌==◌, if◌then◌else◌,
  length, pop_back, abs,
}
use mathlib.Core.Option
use roc.Packet.Types.{Packet, compare}

pub record SortedQueue : Type 0 where
  pub list : List Packet
  pub latest : Option Packet
  pub max_size : ℕ

unfoldable pub empty : ℕ → SortedQueue
empty max_size = record { list = []; latest = none; max_size = max_size }

-- The search loop with the insertion that follows it; `none` is a duplicate.
unfoldable pub insert : Packet → List Packet → Option (List Packet)
insert p [] = some (p ∷ [])
insert p (x ∷ xs) =
    if is_neg (compare p x)
    then Option.map (λ rest. x ∷ rest) (insert p xs)
    else if abs (compare p x) == 0
    then none
    else some (p ∷ x ∷ xs)

-- `latest_` after a packet that is not turned away by a full queue.
abbrev pub next_latest : Option Packet → Packet → Option Packet
next_latest none p = some p
next_latest (some l) p = if is_nonpos (compare l p) then some p else some l

abbrev pub or_else : List Packet → Option (List Packet) → List Packet
or_else l none = l
or_else l (some l') = l'

abbrev pub is_full : SortedQueue → Bool
is_full q = ltb 0 q.max_size && (length q.list == q.max_size)

unfoldable pub write : Packet → SortedQueue → SortedQueue
unfolding insert
write p q =
    if is_full q
    then q
    else record q { list = or_else q.list (insert p q.list); latest = next_latest q.latest p }

unfoldable pub read : SortedQueue → Option Packet × SortedQueue
read q = elim (pop_back q.list) [
  | none ↦ (none, q)
  | some (p, rest) ↦ (some p, record q { list = rest })
]

unfoldable pub size : SortedQueue → ℕ
size q = length q.list

-- The next packet to read.
unfoldable pub head : SortedQueue → Option Packet
head q = Option.map (λ r. r.0) (pop_back q.list)

-- The last packet to read.
unfoldable pub tail : SortedQueue → Option Packet
tail q = elim q.list [ [] ↦ none | x ∷ _ ↦ some x ]
