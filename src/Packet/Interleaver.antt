-- ===== src/Packet/Interleaver.antt =====
-- src/modules/roc_packet/interleaver.cpp. The packets sent to the output writer are returned, in
-- order. The random numbers of `reinit_seq_` are an argument, `choose i` standing for
-- random(0, i - 1); the failure of an allocation in the constructor is an argument too.
pub mod Shuffle
pub mod Loop
pub mod Delivery
use mathlib.Core.Option
use roc.Prelude.{
  ℕ, zero, suc, ◌+◌, ◌%◌, Bool, Option, none, some, List, [], ◌∷◌, ◌++◌, ◌==◌, if◌then◌else◌,
  get_or, set, replicate,
}
use roc.Packet.Types.{Packet}

pub record Interleaver : Type 0 where
  pub block_size : ℕ
  pub send_seq : List ℕ
  pub packets : List (Option Packet)
  pub next_2_put : ℕ
  pub next_2_send : ℕ

unfoldable pub count_up : ℕ → ℕ → List ℕ
count_up zero i = []
count_up (suc n) i = i ∷ count_up n (i + 1)

unfoldable pub swap : List ℕ → ℕ → ℕ → List ℕ
swap seq i j = set (set seq i (get_or seq j 0)) j (get_or seq i 0)

-- The second loop of `reinit_seq_`, from `i` down.
unfoldable pub shuffle : (ℕ → ℕ) → ℕ → List ℕ → List ℕ
shuffle choose zero seq = seq
shuffle choose (suc i) seq = shuffle choose i (swap seq i (choose (suc i)))

unfoldable pub reinit_seq : (ℕ → ℕ) → ℕ → List ℕ
unfolding count_up shuffle
reinit_seq choose block_size = shuffle choose block_size (count_up block_size 0)

-- `none` for the panic on an empty block and for an object that is not valid.
unfoldable pub init : Bool → (ℕ → ℕ) → ℕ → Option Interleaver
init allocated choose block_size =
    if block_size == 0
    then none
    else if allocated
    then some (record {
      block_size = block_size;
      send_seq = reinit_seq choose block_size;
      packets = replicate block_size none;
      next_2_put = 0;
      next_2_send = 0;
    })
    else none

-- The `while` loop of `write`; `none` as a result means that the fuel ran out.
unfoldable pub send_ready :
    ℕ → List ℕ → ℕ → List (Option Packet) → ℕ → Option (List Packet × List (Option Packet) × ℕ)
send_ready zero seq block_size packets send = none
send_ready (suc fuel) seq block_size packets send = elim (get_or packets (get_or seq send 0) none) [
  | none ↦ some ([], packets, send)
  | some p ↦
      Option.map (λ r. (p ∷ r.0, r.1, r.2))
        (send_ready fuel seq block_size (set packets (get_or seq send 0) none)
          ((send + 1) % block_size))
]

unfoldable pub write : Packet → Interleaver → Option (List Packet × Interleaver)
write p t =
    Option.map
      (λ r. (
        r.0,
        record t {
          packets = r.1;
          next_2_put = (t.next_2_put + 1) % t.block_size;
          next_2_send = r.2;
        },
      ))
      (send_ready (suc t.block_size) t.send_seq t.block_size (set t.packets t.next_2_put (some p))
        t.next_2_send)

-- The packets of the buffer in the order of their places.
unfoldable pub contents : List (Option Packet) → List Packet
contents [] = []
contents (none ∷ l) = contents l
contents (some p ∷ l) = p ∷ contents l

unfoldable pub flush : Interleaver → List Packet × Interleaver
unfolding contents
flush t = (
  contents t.packets,
  record t { packets = replicate t.block_size none; next_2_put = 0; next_2_send = 0 },
)
