-- ===== src/Packet/Interleaver/Loop.antt =====
-- The buffer of the interleaver, and the loop that empties it as far as the sequence allows.
use mathlib.Core.Option
use mathlib.Core.List.{Perm}
use mathlib.Core.List.Perm
use roc.Prelude.{
  ℕ, zero, suc, ◌+◌, ◌-◌, ◌%◌, ◌≤◌, ◌<◌, ◌≡◌, refl, ap, ◌∙◌, ◌⊎◌, inl, inr, Option, none, some,
  List, [], ◌∷◌, ◌++◌, arith, get_or, set, length, length-set, get_or-set_self, get_or-set_ne,
  Option-cases,
}
use native.Mathlib.Decide.{ℕ_discrete, dec_lt}
use native.Mathlib.Nat.{mod-eq_of_lt}
use roc.Packet.Types.{Packet}
use roc.Packet.Interleaver.{contents, send_ready}
use roc.Packet.Interleaver.Shuffle.{IsPermutation}

-- Taking a packet out of its place takes it out of the contents, once.
contents-take :
    (l : List (Option Packet)) (k : ℕ) (p : Packet)
    → get_or l k none ≡ some p
    → Perm (contents l) (p ∷ contents (set l k none))
unfolding contents
contents-take [] k p h = cc
contents-take (none ∷ l) zero p h = cc
contents-take (some x ∷ l) zero p h = Perm.cons' (cc) (Perm.refl _)
contents-take (none ∷ l) (suc k) p h = contents-take l k p h
contents-take (some x ∷ l) (suc k) p h =
    Perm.trans (Perm.cons x (contents-take l k p h)) (Perm.swap p x _)

-- A packet put into a free place is added to the contents.
pub contents-put :
    (l : List (Option Packet)) (k : ℕ) (p : Packet)
    → k < length l
    → get_or l k none ≡ none
    → Perm (contents (set l k (some p))) (p ∷ contents l)
unfolding contents
contents-put [] k p hk h = absurd (omega arith)
contents-put (none ∷ l) zero p hk h = Perm.refl _
contents-put (some x ∷ l) zero p hk h = cc
contents-put (none ∷ l) (suc k) p hk h = contents-put l k p (omega arith) h
contents-put (some x ∷ l) (suc k) p hk h =
    Perm.trans (Perm.cons x (contents-put l k p (omega arith) h)) (Perm.swap p x _)

pub contents_empty :
    (l : List (Option Packet)) → ((i : ℕ) → get_or l i none ≡ none) → contents l ≡ []
unfolding contents
contents_empty [] h = refl
contents_empty (none ∷ l) h = contents_empty l (λ i. h (suc i))
contents_empty (some x ∷ l) h = cc (h 0)

mod_self : (n : ℕ) → 0 < n → n % n ≡ 0
mod_self n h = grind arith

module _ (n : ℕ) (seq : List ℕ) (v : IsPermutation n seq) where
  -- `filled` places have been written in this round and the first `send` of the sequence sent: a
  -- place holds a packet exactly if it was written and not yet sent.
  pub record IsBuffer (filled send : ℕ) (l : List (Option Packet)) : Type 0 where
    pub sized : length l ≡ n
    pub in_block : filled ≤ n
    pub sent : (k : ℕ) → k < send → get_or seq k 0 < filled
    pub held : (i : ℕ) → i < filled → send ≤ v.place i → (p : Packet) × (get_or l i none ≡ some p)
    pub fresh : (i : ℕ) → filled ≤ i → get_or l i none ≡ none
    pub gone : (i : ℕ) → i < n → v.place i < send → get_or l i none ≡ none

  -- What the loop makes of a buffer: it takes out `out`, in this order, and stops at a free place.
  -- If the block was complete the next one starts, with an empty buffer.
  abbrev pub Sends :
      ℕ → List (Option Packet) → Option (List Packet × List (Option Packet) × ℕ) → Type 0
  Sends filled l r =
      (out : List Packet) × (l' : List (Option Packet)) × (send' : ℕ) × (r ≡ some (out, l', send'))
      × (send' < n)
      × IsBuffer (filled % n) send' l'
      × Perm (contents l) (out ++ contents l')
      × (get_or l' (get_or seq send' 0) none ≡ none)

  send_stop :
      (fuel send : ℕ) (l : List (Option Packet))
      → get_or l (get_or seq send 0) none ≡ none
      → send_ready (suc fuel) seq n l send ≡ some ([], l, send)
  unfolding send_ready
  send_stop fuel send l h = rw (h, send_ready)

  send_step :
      (fuel send : ℕ) (l : List (Option Packet)) (p : Packet)
      → get_or l (get_or seq send 0) none ≡ some p
      → send_ready (suc fuel) seq n l send
        ≡ Option.map
            (λ r. (p ∷ r.0, r.1, r.2))
            (send_ready fuel seq n (set l (get_or seq send 0) none) ((send + 1) % n))
  unfolding send_ready
  send_step fuel send l p h = rw (h, send_ready)

  module _ (filled send : ℕ) (l : List (Option Packet)) (hs : send < n)
      (b : IsBuffer filled send l) where
    abbrev at_send : ℕ
    at_send = get_or seq send 0

    IsBuffer-waits : get_or l at_send none ≡ none → IsBuffer (filled % n) send l
    IsBuffer-waits h = elim (dec_lt at_send filled) [
      | yes c ↦ held_at (b.held at_send c (omega (arith, v.place_seq send hs)))
      | no c ↦ rw (mod-eq_of_lt {n = filled} {m = n} (omega (arith, v.bounded send hs))) b
    ]
      where
        held_at : (p : Packet) × (get_or l at_send none ≡ some p) → IsBuffer (filled % n) send l
        held_at (p, e) = cc

    module _ (p : Packet) (h : get_or l at_send none ≡ some p) where
      written : at_send < filled
      written = elim (dec_lt at_send filled) [
        | yes c ↦ c
        | no c ↦ (let e = b.fresh at_send (omega arith) in cc)
      ]

      abbrev taken : List (Option Packet)
      taken = set l at_send none

      sent_next : (k : ℕ) → k < send + 1 → get_or seq k 0 < filled
      sent_next k hk = elim (ℕ_discrete k send) [
        | yes e ↦ rw e written
        | no e ↦ b.sent k (omega arith)
      ]

      taken_self : get_or taken at_send none ≡ none
      taken_self = get_or-set_self l at_send none none (omega (arith, b.sized, v.bounded send hs))

      taken-none : (i : ℕ) → get_or l i none ≡ none → get_or taken i none ≡ none
      taken-none i e = elim (ℕ_discrete at_send i) [
        | yes c ↦ rw (← c) taken_self
        | no c ↦ get_or-set_ne l at_send i none none c ∙ e
      ]

      gone_next : (i : ℕ) → i < n → v.place i < send + 1 → get_or taken i none ≡ none
      gone_next i hi hp = elim (ℕ_discrete (v.place i) send) [
        | yes e ↦ (let c : at_send ≡ i = rw (← e) (v.seq_place i hi) in rw (← c) taken_self)
        | no e ↦ taken-none i (b.gone i hi (omega arith))
      ]

      held_next :
          (i : ℕ)
          → i < filled
          → send + 1 ≤ v.place i
          → (q : Packet) × (get_or taken i none ≡ some q)
      held_next i hi hp =
          let (q, e) = b.held i hi (omega arith) in
          (q, get_or-set_ne l at_send i none none (λ c. absurd (rest c)) ∙ e)
        where
          rest : at_send ≡ i → ⊥
          rest c = let e : v.place i ≡ send = rw (← c) (v.place_seq send hs) in omega arith

      IsBuffer-next : IsBuffer filled (send + 1) taken
      IsBuffer-next = record {
        sized = length-set l at_send none ∙ b.sized;
        in_block = b.in_block;
        sent = sent_next;
        held = held_next;
        fresh = λ i hi. taken-none i (b.fresh i hi);
        gone = gone_next;
      }

      -- With the last of the sequence sent every place was written, and the buffer is empty.
      IsBuffer-last : send + 1 ≡ n → (filled ≡ n) × IsBuffer 0 0 taken
      IsBuffer-last e = (
        all_written,
        record {
          sized = IsBuffer-next.sized;
          in_block = omega arith;
          sent = λ k hk. absurd (omega arith);
          held = λ i hi. absurd (omega arith);
          fresh = λ i hi. free i;
          gone = λ i hi hp. free i;
        },
      )
        where
          free : (i : ℕ) → get_or taken i none ≡ none
          free i = elim (dec_lt i n) [
            | yes c ↦ gone_next i c (omega (arith, v.place_bounded i c))
            | no c ↦ taken-none i (b.fresh i (omega (arith, b.in_block)))
          ]

          all_written : filled ≡ n
          all_written =
              let last : n - 1 < n = omega arith in
              omega (
                arith,
                b.in_block,
                v.seq_place (n - 1) last,
                sent_next (v.place (n - 1)) (omega (arith, v.place_bounded (n - 1) last)),
              )

      contents_taken : Perm (contents l) (p ∷ contents taken)
      contents_taken = contents-take l at_send p h

  Sends-cons :
      (filled : ℕ) (l l' : List (Option Packet)) (p : Packet)
      (r : Option (List Packet × List (Option Packet) × ℕ))
      → Perm (contents l) (p ∷ contents l')
      → Sends filled l' r
      → Sends filled l (Option.map (λ r. (p ∷ r.0, r.1, r.2)) r)
  Sends-cons filled l l' p r h (out, l'', send', e, hs, b, perm, stop) = (
    p ∷ out,
    l'',
    send',
    ap (Option.map (λ r. (p ∷ r.0, r.1, r.2))) e,
    hs,
    b,
    Perm.trans h (Perm.cons p perm),
    stop,
  )

  -- The loop ends within one round for each packet of the block that is still to be sent and one more.
  pub send_ready-Sends :
      (fuel filled send : ℕ) (l : List (Option Packet))
      → send < n
      → n < send + fuel
      → IsBuffer filled send l
      → Sends filled l (send_ready fuel seq n l send)
  send_ready-Sends zero filled send l hs hf b = absurd (omega arith)
  send_ready-Sends (suc fuel) filled send l hs hf b =
      go (Option-cases (get_or l (get_or seq send 0) none)) (ℕ_discrete (send + 1) n)
        (send_ready-Sends fuel filled (send + 1) (set l (get_or seq send 0) none))
    where
      l' : List (Option Packet)
      l' = set l (get_or seq send 0) none

      last :
          (fuel : ℕ) (p : Packet)
          → get_or l (get_or seq send 0) none ≡ some p
          → send + 1 ≡ n
          → 0 < fuel
          → (filled ≡ n) × IsBuffer 0 0 l'
          → Sends filled l' (send_ready fuel seq n l' ((send + 1) % n))
      last zero p h e hf (f, b') = absurd (omega arith)
      last (suc fuel) p h e hf (f, b') =
          let z : (send + 1) % n ≡ 0 = rw e (mod_self n (omega arith)) in
          let w : filled % n ≡ 0 = rw f (mod_self n (omega arith)) in
          rw z (
            [],
            l',
            0,
            send_stop fuel 0 l' (b'.fresh (get_or seq 0 0) (omega arith)),
            omega arith,
            rw w b',
            Perm.refl _,
            b'.fresh (get_or seq 0 0) (omega arith),
          )

      go :
          (get_or l (get_or seq send 0) none ≡ none)
            ⊎ ((p : Packet) × (get_or l (get_or seq send 0) none ≡ some p))
          → Dec (send + 1 ≡ n)
          → (send + 1 < n
              → n < send + 1 + fuel
              → IsBuffer filled (send + 1) l'
              → Sends filled l' (send_ready fuel seq n l' (send + 1)))
          → Sends filled l (send_ready (suc fuel) seq n l send)
      go (inl h) d ih = (
        [],
        l,
        send,
        send_stop fuel send l h,
        hs,
        IsBuffer-waits filled send l hs b h,
        Perm.refl _,
        h,
      )
      go (inr (p, h)) (yes e) ih = rw (send_step fuel send l p h) (
          Sends-cons filled l l' p _ (contents_taken filled send l hs b p h)
            (last fuel p h e (omega arith) (IsBuffer-last filled send l hs b p h e)))
      go (inr (p, h)) (no c) ih =
          let m : (send + 1) % n ≡ send + 1 = mod-eq_of_lt (omega arith) in
          rw (send_step fuel send l p h, m)
            (Sends-cons filled l l' p _ (contents_taken filled send l hs b p h)
              (ih (omega arith) (omega arith) (IsBuffer-next filled send l hs b p h)))
