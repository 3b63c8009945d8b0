-- ===== src/Packet/Interleaver/Delivery.antt =====
-- An interleaver neither loses nor repeats a packet, and never holds one beyond its block.
use mathlib.Core.Option
use mathlib.Core.List.{Perm, append-nil, append_assoc, perm_middle, perm_append_comm}
use mathlib.Core.List.Perm
use roc.Prelude.{
  ℕ, zero, suc, ◌+◌, ◌%◌, ◌≤◌, ◌<◌, ◌≡◌, refl, ap, ◌∙◌, true, false, Option, none, some, List, [],
  ◌∷◌, ◌++◌, arith, get_or, set, replicate, length, length-set, get_or-set_self, get_or-set_ne,
  length-replicate, ◌==◌,
}
use native.Mathlib.Decide.{ℕ_discrete}
use native.Mathlib.Nat.{mod-eq_of_lt, add-zero, mod-add-mod}
use roc.Packet.Types.{Packet}
use roc.Packet.Interleaver.{Interleaver, init, reinit_seq, send_ready, write, flush, contents}
use roc.Packet.Interleaver.Shuffle.{IsPermutation, reinit_seq-IsPermutation}
use roc.Packet.Interleaver.Loop.{IsBuffer, Sends, contents-put, contents_empty, send_ready-Sends}

pub record IsValid (t : Interleaver) : Type 0 where
  pub order : IsPermutation t.block_size t.send_seq
  pub put_in : t.next_2_put < t.block_size
  pub send_in : t.next_2_send < t.block_size
  pub buffer : IsBuffer t.block_size t.send_seq order t.next_2_put t.next_2_send t.packets

pub IsBuffer-empty :
    (n : ℕ) (seq : List ℕ) (v : IsPermutation n seq) → IsBuffer n seq v 0 0 (replicate n none)
IsBuffer-empty n seq v = record {
  sized = length-replicate n none;
  in_block = omega arith;
  sent = λ k h. absurd (omega arith);
  held = λ i h. absurd (omega arith);
  fresh = λ i h. none_everywhere n i;
  gone = λ i h k. none_everywhere n i;
}
  where
    none_everywhere : (m i : ℕ) → get_or {A = Option Packet} (replicate m none) i none ≡ none
    none_everywhere zero i = refl
    none_everywhere (suc m) zero = refl
    none_everywhere (suc m) (suc i) = none_everywhere m i

abbrev fresh_interleaver : (ℕ → ℕ) → ℕ → Interleaver
fresh_interleaver choose n = record {
  block_size = n;
  send_seq = reinit_seq choose n;
  packets = replicate n none;
  next_2_put = 0;
  next_2_send = 0;
}

init_succeeds :
    (choose : ℕ → ℕ) (n : ℕ) → 0 < n → init true choose n ≡ some (fresh_interleaver choose n)
unfolding init
init_succeeds choose n h = let e : (n == 0) ≡ false = ground arith in rw e

-- With memory, a block of at least one packet and random numbers within their ranges an
-- interleaver is constructed, is valid and is at the start of a block.
pub init-IsValid :
    (choose : ℕ → ℕ) (n : ℕ)
    → 0 < n
    → ((k : ℕ) → k < n → choose (suc k) ≤ k)
    → (t : Interleaver) × (init true choose n ≡ some t)
      × IsValid t
      × (t.next_2_put ≡ 0)
      × (t.block_size ≡ n)
init-IsValid choose n h hc = (
  fresh_interleaver choose n,
  init_succeeds choose n h,
  record {
    order = reinit_seq-IsPermutation choose n hc;
    put_in = h;
    send_in = h;
    buffer = IsBuffer-empty n (reinit_seq choose n) (reinit_seq-IsPermutation choose n hc);
  },
  refl,
  refl,
)

IsBuffer-put :
    (n : ℕ) (seq : List ℕ) (v : IsPermutation n seq) (put send : ℕ) (l : List (Option Packet))
    (p : Packet)
    → put < n
    → IsBuffer n seq v put send l
    → IsBuffer n seq v (put + 1) send (set l put (some p))
IsBuffer-put n seq v put send l p h b = record {
  sized = length-set l put (some p) ∙ b.sized;
  in_block = omega arith;
  sent = λ k hk. omega (arith, b.sent k hk);
  held = held_next;
  fresh = λ i hi. get_or-set_ne l put i (some p) none (omega arith) ∙ b.fresh i (omega arith);
  gone = gone_next;
}
  where
    held_next :
        (i : ℕ)
        → i < put + 1
        → send ≤ v.place i
        → (q : Packet) × (get_or (set l put (some p)) i none ≡ some q)
    held_next i hi hs = elim (ℕ_discrete put i) [
      | yes e ↦ (p, rw (← e) (get_or-set_self l put (some p) none (omega (arith, b.sized))))
      | no e ↦
          let (q, k) = b.held i (omega arith) hs in (q, get_or-set_ne l put i (some p) none e ∙ k)
    ]

    gone_next : (i : ℕ) → i < n → v.place i < send → get_or (set l put (some p)) i none ≡ none
    gone_next i hi hp = elim (ℕ_discrete put i) [
      | yes e ↦ absurd (omega (arith, b.sent (v.place i) hp, v.seq_place i hi))
      | no e ↦ get_or-set_ne l put i (some p) none e ∙ b.gone i hi hp
    ]

abbrev pub Writes : Packet → Interleaver → Option (List Packet × Interleaver) → Type 0
Writes p t r =
    (out : List Packet) × (t' : Interleaver) × (r ≡ some (out, t'))
    × IsValid t'
    × Perm (p ∷ contents t.packets) (out ++ contents t'.packets)
    × (t'.next_2_put ≡ (t.next_2_put + 1) % t.block_size)
    × (t'.block_size ≡ t.block_size)

-- `write` of a valid interleaver always ends, within the fuel of one round more than the block has
-- places. It keeps the interleaver valid and its block size, moves on to the next place, and what
-- it sends and then holds is what it held before and the new packet.
pub write-Writes : (p : Packet) (t : Interleaver) → IsValid t → Writes p t (write p t)
unfolding write
write-Writes p t v = go (
    send_ready-Sends t.block_size t.send_seq v.order (suc t.block_size) (t.next_2_put + 1)
      t.next_2_send (set t.packets t.next_2_put (some p)) v.send_in (omega arith)
      (IsBuffer-put t.block_size t.send_seq v.order t.next_2_put t.next_2_send t.packets p v.put_in
        v.buffer))
  where
    go :
        Sends t.block_size t.send_seq v.order
          (t.next_2_put + 1)
          (set t.packets t.next_2_put (some p))
          (send_ready
            (suc t.block_size)
            t.send_seq
            t.block_size
            (set t.packets t.next_2_put (some p))
            t.next_2_send)
        → Writes p t (write p t)
    go (out, l', send', e, hs, b, perm, stop) = (
      out,
      record t {
        packets = l';
        next_2_put = (t.next_2_put + 1) % t.block_size;
        next_2_send = send';
      },
      rw (e, write),
      record { order = v.order; put_in = omega (arith, v.put_in); send_in = hs; buffer = b },
      Perm.trans
          (Perm.symm (
            contents-put t.packets t.next_2_put p (omega (arith, v.put_in, v.buffer.sized))
              (v.buffer.fresh t.next_2_put (omega arith))))
          perm,
      refl,
      refl,
    )

-- The packets sent while `ps` are written.
pub run : List Packet → Interleaver → Option (List Packet × Interleaver)
run [] t = some ([], t)
run (p ∷ ps) t = elim (write p t) [
  | none ↦ none
  | some (out, t') ↦ Option.map (λ r. (out ++ r.0, r.1)) (run ps t')
]

-- The packets written and not yet sent are those of the buffer, which is empty between blocks.
abbrev pub Runs : List Packet → Interleaver → Option (List Packet × Interleaver) → Type 0
Runs ps t r =
    (out : List Packet) × (t' : Interleaver) × (r ≡ some (out, t'))
    × IsValid t'
    × Perm (ps ++ contents t.packets) (out ++ contents t'.packets)
    × (t'.next_2_put ≡ (t.next_2_put + length ps) % t.block_size)
    × (t'.block_size ≡ t.block_size)

chain_perm :
    (p : Packet) (ps held out held' out' held'' : List Packet)
    → Perm (p ∷ held) (out ++ held')
    → Perm (ps ++ held') (out' ++ held'')
    → Perm (p ∷ (ps ++ held)) ((out ++ out') ++ held'')
chain_perm p ps held out held' out' held'' h h' =
    let swapped : Perm (ps ++ (out ++ held')) (out ++ (ps ++ held')) =
      rw (← append_assoc, ← append_assoc) (Perm.append_right held' (perm_append_comm ps out)) in
    let sent : Perm (out ++ (ps ++ held')) ((out ++ out') ++ held'') =
      rw append_assoc (Perm.append_left out h') in
    Perm.trans (Perm.symm (perm_middle ps held))
      (Perm.trans (Perm.append_left ps h) (Perm.trans swapped sent))

-- Over any number of writes to a valid interleaver, which all end, what was written and held
-- before is exactly what was sent and what is still held: no packet is lost, none is sent twice,
-- and none is made up.
pub run-Runs : (ps : List Packet) (t : Interleaver) → IsValid t → Runs ps t (run ps t)
unfolding run
run-Runs [] t v = ([], t, refl, v, Perm.refl _, at_put, refl)
  where
    at_put : t.next_2_put ≡ (t.next_2_put + 0) % t.block_size
    at_put = rw (add-zero, mod-eq_of_lt v.put_in)
run-Runs (p ∷ ps) t v = go (write-Writes p t v) (λ t'. run-Runs ps t')
  where
    go :
        Writes p t (write p t)
        → ((t' : Interleaver) → IsValid t' → Runs ps t' (run ps t'))
        → Runs (p ∷ ps) t (run (p ∷ ps) t)
    go (out, t', e, v', perm, put, size) ih =
        let (out', t'', e', v'', perm', put', size') = ih t' v' in
        (
          out ++ out',
          t'',
          rw (e, run, e'),
          v'',
          chain_perm p ps (contents t.packets) out (contents t'.packets) out' (contents t''.packets)
              perm perm',
          put' ∙ rw (size, put, mod-add-mod) (ap (λ k. k % t.block_size) (omega arith)),
          size' ∙ size,
        )

contents_between : (t : Interleaver) → IsValid t → t.next_2_put ≡ 0 → contents t.packets ≡ []
contents_between t v h = contents_empty t.packets (λ i. v.buffer.fresh i (omega arith))

-- A block of packets written to a valid interleaver that is at the start of a block comes out
-- complete before the next block begins: what is sent is the block in another order.
pub run-block :
    (ps : List Packet) (t : Interleaver)
    → IsValid t
    → t.next_2_put ≡ 0
    → length ps ≡ t.block_size
    → (out : List Packet) × (t' : Interleaver) × (run ps t ≡ some (out, t'))
      × IsValid t'
      × (t'.next_2_put ≡ 0)
      × Perm ps out
run-block ps t v h hl =
    let (out, t', e, v', perm, put, size) = run-Runs ps t v in
    let start : t'.next_2_put ≡ 0 = put ∙ rw (h, hl) (mod_whole t.block_size) in
    (
      out,
      t',
      e,
      v',
      start,
      let before = contents_between t v h in
          let after = contents_between t' v' start in
          rw (before, after, append-nil, append-nil) at perm,
    )
  where
    mod_whole : (n : ℕ) → (0 + n) % n ≡ 0
    mod_whole zero = refl
    mod_whole (suc n) = grind arith

-- `flush` of a valid interleaver sends all that the buffer holds, each packet once, and leaves a
-- valid interleaver at the start of a block with nothing held.
pub flush_lem :
    (t : Interleaver)
    → IsValid t
    → ((flush t).0 ≡ contents t.packets)
      × IsValid (flush t).1
      × ((flush t).1.next_2_put ≡ 0)
      × (contents (flush t).1.packets ≡ [])
unfolding flush
flush_lem t v =
    let valid : IsValid (flush t).1 = record {
      order = v.order;
      put_in = omega (arith, v.put_in);
      send_in = omega (arith, v.put_in);
      buffer = IsBuffer-empty t.block_size t.send_seq v.order;
    } in
    (refl, valid, refl, contents_between (flush t).1 valid refl)

-- Any packets that are written to a valid interleaver at the start of a block, and a flush behind them,
-- send exactly these packets, each once: those that the writes sent and, behind them, those that the
-- flush sends. The interleaver is then valid and at the start of a block, and holds nothing.
pub run-flush :
    (ps : List Packet) (t : Interleaver)
    → IsValid t
    → t.next_2_put ≡ 0
    → (out : List Packet) × (t' : Interleaver) × (run ps t ≡ some (out, t'))
      × Perm ps (out ++ (flush t').0)
      × IsValid (flush t').1
      × ((flush t').1.next_2_put ≡ 0)
      × (contents (flush t').1.packets ≡ [])
run-flush ps t v h =
    let (out, t', e, v', perm, put, size) = run-Runs ps t v in
    let (sent, valid, start, none_left) = flush_lem t' v' in
    (
      out,
      t',
      e,
      rw (sent) (let before = contents_between t v h in rw (before, append-nil) at perm),
      valid,
      start,
      none_left,
    )
