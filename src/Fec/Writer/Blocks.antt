-- ===== src/Fec/Writer/Blocks.antt =====
-- When a FEC writer is valid, and how a block of it begins.
use roc.Prelude.{
  ℕ, zero, suc, ◌+◌, ◌-◌, ◌%◌, ◌≤◌, ◌<◌, ◌≡◌, refl, ap, ◌⊎◌, inl, inr, Bool, true, false, Option,
  none, List, [], ◌∷◌, ◌==◌, ltb, not, ◌&&◌, arith, length, map, All-append, take, replicate,
  length-take, length-append, length-replicate, Bool-cases,
}
use roc.Packet.Units.{u16_mod, u64_mod}
use roc.Packet.Types.{Packet, Fec, slice_size}
use roc.Fec.WriterState.{BlockEncoder, Writer, resize, begin_block, apply_sizes, slots}
use roc.Fec.Writer.{begin_write}
use roc.Fec.Writer.Repair.{IsEmpty}

pub length-slots : (n : ℕ) (block : List (Option Packet)) → length (slots n block) ≡ n
length-slots n block = omega (
  arith,
  length-append (take n block) (replicate (n - length block) none),
  length-take n block,
  length-replicate {A = Option Packet} (n - length block) none,
)

take-IsEmpty : (n : ℕ) (block : List (Option Packet)) → IsEmpty block → IsEmpty (take n block)
take-IsEmpty zero block h = tt
take-IsEmpty (suc n) [] h = tt
take-IsEmpty (suc n) (o ∷ block) h = (h.0, take-IsEmpty n block h.1)

replicate-IsEmpty : (n : ℕ) → IsEmpty (replicate n none)
replicate-IsEmpty zero = tt
replicate-IsEmpty (suc n) = (refl, replicate-IsEmpty n)

pub slots-IsEmpty : (n : ℕ) (block : List (Option Packet)) → IsEmpty block → IsEmpty (slots n block)
slots-IsEmpty n block h =
    All-append (λ o. o ≡ none) (take n block) (replicate (n - length block) none)
      (take-IsEmpty n block h) (replicate-IsEmpty (n - length block))

pub map-IsEmpty :
    (block : List (Option Packet))
    → IsEmpty (map (λ _. none) block)
      × (length (map {B = Option Packet} (λ _. none) block) ≡ length block)
map-IsEmpty [] = (tt, refl)
map-IsEmpty (o ∷ block) = let (a, b) = map-IsEmpty block in ((refl, a), ap suc b)

module _ (e : BlockEncoder) where
  -- A block is under way.
  pub record InBlock (w : Writer e) : Type 0 where
    pub open_block : w.cur_packet < w.cur_sblen
    pub sizes_fit : w.cur_sblen + w.cur_rblen ≤ e.max_block_length
    pub slots_sized : length w.repair_block ≡ w.cur_rblen

  pub record IsValid (w : Writer e) : Type 0 where
    pub next_sblen_set : 0 < w.next_sblen
    pub next_fits : w.next_sblen + w.next_rblen ≤ e.max_block_length
    pub sbn_fits : w.cur_sbn < u16_mod
    pub slots_empty : IsEmpty w.repair_block
    pub in_block : 0 < w.cur_packet → InBlock w

  InBlock-resized :
      (w : Writer e) (n m : ℕ) → InBlock w → InBlock (record w { next_sblen = n; next_rblen = m })
  InBlock-resized w n m b = record {
    open_block = b.open_block;
    sizes_fit = b.sizes_fit;
    slots_sized = b.slots_sized;
  }

  InBlock-relabelled :
      (w : Writer e) (f a : Bool) (s : e.State)
      → InBlock w
      → InBlock (record w { first_packet = f; alive = a; encoder = s })
  InBlock-relabelled w f a s b = record {
    open_block = b.open_block;
    sizes_fit = b.sizes_fit;
    slots_sized = b.slots_sized;
  }

  pub IsValid-relabelled :
      (w : Writer e) (f a : Bool) (s : e.State)
      → IsValid w
      → IsValid (record w { first_packet = f; alive = a; encoder = s })
  IsValid-relabelled w f a s v = record {
    next_sblen_set = v.next_sblen_set;
    next_fits = v.next_fits;
    sbn_fits = v.sbn_fits;
    slots_empty = v.slots_empty;
    in_block = λ h. InBlock-relabelled w f a s (v.in_block h);
  }

  abbrev begun : Writer e → ℕ → Bool → e.State → Writer e
  begun w size a s = record w {
    cur_sblen = w.next_sblen;
    cur_rblen = w.next_rblen;
    cur_payload_size = size;
    repair_block = slots w.next_rblen w.repair_block;
    encoder = s;
    alive = a;
  }

  begun-InBlock :
      (w : Writer e) (size : ℕ) (a : Bool) (s : e.State)
      → IsValid w
      → w.cur_packet ≡ 0
      → InBlock (begun w size a s)
  begun-InBlock w size a s v h = record {
    open_block = omega (arith, v.next_sblen_set);
    sizes_fit = v.next_fits;
    slots_sized = length-slots w.next_rblen w.repair_block;
  }

  begun-IsValid :
      (w : Writer e) (size : ℕ) (a : Bool) (s : e.State)
      → IsValid w
      → w.cur_packet ≡ 0
      → IsValid (begun w size a s)
  begun-IsValid w size a s v h = record {
    next_sblen_set = v.next_sblen_set;
    next_fits = v.next_fits;
    sbn_fits = v.sbn_fits;
    slots_empty = slots-IsEmpty w.next_rblen w.repair_block v.slots_empty;
    in_block = λ _. begun-InBlock w size a s v h;
  }

  abbrev pub Resizes : ℕ → ℕ → Writer e → Bool × Writer e → Type 0
  Resizes sblen rblen w r =
      ((r.0 ≡ true)
        × (0 < sblen)
        × (sblen + rblen ≤ e.max_block_length)
        × (r.1 ≡ record w { next_sblen = sblen; next_rblen = rblen }))
      ⊎ ((r.0 ≡ false) × ((sblen ≡ 0) ⊎ (e.max_block_length < sblen + rblen)) × (r.1 ≡ w))

  -- With sizes whose sum is below 2^64, `resize` of a valid writer succeeds exactly for at least one source packet and a block that the
  -- encoder can hold. It then sets the sizes of the next block and nothing else, so that a block under
  -- way keeps its sizes, and the writer stays valid; otherwise it changes nothing.
  pub resize-Resizes :
      (sblen rblen : ℕ) (w : Writer e)
      → IsValid w
      → sblen + rblen < u64_mod
      → Resizes sblen rblen w (resize e sblen rblen w) × IsValid (resize e sblen rblen w).1
  unfolding resize
  resize-Resizes sblen rblen w v b =
      let s : (sblen + rblen) % u64_mod ≡ sblen + rblen = omega arith in
      elim (Bool-cases (w.next_sblen == sblen && w.next_rblen == rblen)) [
        | inl c ↦ rw c (inl (refl, ground arith, ground arith, same c), v)
        | inr c ↦ elim (Bool-cases (sblen == 0)) [
          | inl z ↦ rw (c, z) (inr (refl, inl (ground arith), refl), v)
          | inr z ↦ elim (Bool-cases (ltb e.max_block_length ((sblen + rblen) % u64_mod))) [
            | inl l ↦ rw (c, z, l) (inr (refl, inr (ground arith), refl), v)
            | inr l ↦
                rw (c, z, l)
                  (
                    inl (refl, ground arith, ground arith, refl),
                    record {
                      next_sblen_set = ground arith;
                      next_fits = ground arith;
                      sbn_fits = v.sbn_fits;
                      slots_empty = v.slots_empty;
                      in_block = λ h. InBlock-resized w sblen rblen (v.in_block h);
                    },
                  )
          ]
        ]
      ]
    where
      same :
          (w.next_sblen == sblen && w.next_rblen == rblen) ≡ true
          → w ≡ record w { next_sblen = sblen; next_rblen = rblen }
      same c = let (a, b) = both c in rw (← a, ← b) refl
        where
          both :
              (w.next_sblen == sblen && w.next_rblen == rblen) ≡ true
              → (w.next_sblen ≡ sblen) × (w.next_rblen ≡ rblen)
          both c = ground arith

  -- A block is begun, or goes on; the writer has given up otherwise.
  abbrev pub Begins : Writer e → Bool × Writer e → Type 0
  Begins w r =
      ((r.0 ≡ false) × (r.1.alive ≡ false) × IsValid r.1)
      ⊎ ((r.0 ≡ true)
          × InBlock r.1
          × IsValid r.1
          × (r.1.alive ≡ w.alive)
          × (r.1.cur_packet ≡ w.cur_packet)
          × (r.1.cur_sbn ≡ w.cur_sbn)
          × (r.1.scheme ≡ w.scheme))

  begin_block-Begins :
      (memory : Bool) (size : ℕ) (w : Writer e)
      → IsValid w
      → w.cur_packet ≡ 0
      → Begins w (begin_block e memory size w)
  unfolding begin_block apply_sizes
  begin_block-Begins memory size w v h = elim (Bool-cases (size == 0)) [
    | inl z ↦ rw z (inl (refl, refl, IsValid-relabelled w w.first_packet false w.encoder v))
    | inr z ↦ elim (Bool-cases (not (length w.repair_block == w.next_rblen) && not memory)) [
      | inl m ↦ rw (z, m) (inl (refl, refl, IsValid-relabelled w w.first_packet false w.encoder v))
      | inr m ↦ elim (Bool-cases (e.begin w.next_sblen w.next_rblen size w.encoder).0) [
        | inl b ↦
            rw (z, m, b)
              (let s = (e.begin w.next_sblen w.next_rblen size w.encoder).1 in
                inr (
                  refl,
                  begun-InBlock w size w.alive s v h,
                  begun-IsValid w size w.alive s v h,
                  refl,
                  refl,
                  refl,
                  refl,
                ))
        | inr b ↦
            rw (z, m, b)
              (inl (
                refl,
                refl,
                begun-IsValid w size false (e.begin w.next_sblen w.next_rblen size w.encoder).1 v h,
              ))
      ]
    ]
  ]

  pub begin_write-Begins :
      (memory : Bool) (c : Fec) (w : Writer e) → IsValid w → Begins w (begin_write e memory c w)
  begin_write-Begins memory c w v = elim (Bool-cases (w.cur_packet == 0)) [
    | inl z ↦ rw z (begin_block-Begins memory (slice_size c.payload) w v (ground arith))
    | inr z ↦ rw z (inr (refl, v.in_block (ground arith), v, refl, refl, refl, refl))
  ]
