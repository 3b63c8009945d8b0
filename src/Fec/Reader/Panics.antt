-- ===== src/Fec/Reader/Panics.antt =====
-- Packets that make a FEC reader panic.
use roc.Prelude.{
  ℕ, suc, ◌+◌, ◌-◌, ◌%◌, ◌<◌, ◌≡◌, refl, ap, ◌∙◌, inl, inr, Bool, true, false, Option, none, some,
  List, [], ◌∷◌, ◌++◌, arith, length, Bool-cases, Option-cases, ltb, ◌==◌, ◌>>=◌,
}
use roc.Packet.Types.{Packet, Fec, fec, slice_size}
use roc.Packet.Units.{u16_mod, blknum_lt, blknum_le, blknum_diff}
use roc.Packet.SortedQueue
use roc.Rtp.Validator.{sn_distance}
use roc.Rtp.Parser.{Outcome}
use roc.Fec.ReaderState.{
  BlockDecoder, Reader, validate_sbn_sequence, validate_incoming_repair_packet,
  can_update_payload_size, can_update_source_block_size, update_source_block_size,
  can_update_repair_block_size, update_repair_block_size, prepare_repair_packet,
  process_repair_packet,
}
use roc.Fec.ReaderBlock.{
  admit, after_repair_read, take_repair, fill_repair_loop, fill_repair_block, set_packets,
  repair_block_packets, try_repair,
}
use roc.Fec.Reader.Sizes.{TakesPayload, with_payload, repair_positive, update_payload}

module _ (d : BlockDecoder) (memory : Reader d → ℕ → Bool) where
  payload_passes :
      (n : ℕ) (r : Reader d) → TakesPayload d n r → can_update_payload_size d n r ≡ (true, r)
  unfolding can_update_payload_size
  payload_passes n r (inl e) = let t : (r.payload_size == n) ≡ true = ground arith in rw t refl
  payload_passes n r (inr e) = elim (Bool-cases (r.payload_size == n)) [
    | inl t ↦ rw t refl
    | inr t ↦ rw t (rw e refl)
  ]

  source_passes :
      (k : ℕ) (r : Reader d)
      → length r.source_block ≡ k
      → can_update_source_block_size d k r ≡ (true, r)
  unfolding can_update_source_block_size
  source_passes k r l = let t : (length r.source_block == k) ≡ true = ground arith in rw t refl

  zero_passes :
      (r : Reader d)
      → 0 < length r.source_block
      → r.repair_block_resized ≡ false
      → can_update_repair_block_size d 0 r ≡ (true, r)
  unfolding can_update_repair_block_size
  zero_passes r h q =
      let t : (0 == length r.source_block + length r.repair_block) ≡ false = ground arith in
      let m : ltb d.max_block_length 0 ≡ false = ground arith in rw (t, q, m) refl

  source_takes :
      (k : ℕ) (r : Reader d)
      → length r.source_block ≡ k
      → update_source_block_size d memory k r ≡ (true, record r { source_block_resized = true })
  unfolding update_source_block_size
  source_takes k r l = let t : (length r.source_block == k) ≡ true = ground arith in rw t refl

  zero_panics :
      (r : Reader d) → 0 < length r.source_block → update_repair_block_size d memory 0 r ≡ none
  unfolding update_repair_block_size
  zero_panics r h =
      let t : (0 == length r.source_block + length r.repair_block) ≡ false = ground arith in
      let m : ltb (length r.source_block) 0 ≡ false = ground arith in rw (t, m) refl

  -- A repair packet that names no block size goes through all checks, up to the update that panics.
  process_repair_packet_zero :
      (c : Fec) (r : Reader d)
      → validate_incoming_repair_packet c ≡ true
      → c.block_length ≡ 0
      → TakesPayload d (slice_size c.payload) r
      → length r.source_block ≡ c.source_block_length
      → r.repair_block_resized ≡ false
      → process_repair_packet d memory c r ≡ none
  unfolding process_repair_packet prepare_repair_packet
  process_repair_packet_zero c r v z p l q =
      let h : 0 < length r.source_block = omega (arith, l, repair_positive c v) in
      let u = with_payload d (slice_size c.payload) r in
      rw
        (
          v,
          z,
          payload_passes (slice_size c.payload) r p,
          source_passes c.source_block_length r l,
          zero_passes r h q,
          update_payload d (slice_size c.payload) r,
          source_takes c.source_block_length u l,
        )
        (zero_panics (record u { source_block_resized = true }) h)

  not_behind : (a b : ℕ) → b < u16_mod → a ≡ b → blknum_lt a b ≡ false
  unfolding blknum_lt blknum_diff
  not_behind a b h e = ground arith

  not_ahead : (a b : ℕ) → b < u16_mod → a ≡ b → blknum_le a b ≡ true
  unfolding blknum_le blknum_diff
  not_ahead a b h e = ground arith

  no_distance : (m a b : ℕ) → b < u16_mod → a ≡ b → ltb m (sn_distance (blknum_diff a b)) ≡ false
  unfolding blknum_diff sn_distance
  no_distance m a b h e =
      let z : (a + u16_mod - b) % u16_mod ≡ 0 = omega arith in rw z (ground arith)

  admits :
      (c : Fec) (r : Reader d)
      → r.cur_sbn < u16_mod
      → c.source_block_number ≡ r.cur_sbn
      → admit d memory c r ≡ (true, r)
  unfolding admit validate_sbn_sequence
  admits c r h e =
      rw
        (
          no_distance r.max_sbn_jump c.source_block_number r.cur_sbn h e,
          not_ahead c.source_block_number r.cur_sbn h e,
        )
        refl

  take_repair_zero :
      (p : Packet) (c : Fec) (r : Reader d)
      → r.cur_sbn < u16_mod
      → c.source_block_number ≡ r.cur_sbn
      → process_repair_packet d memory c r ≡ none
      → take_repair d memory p c r ≡ none
  unfolding take_repair
  take_repair_zero p c r h e n =
      let t : (c.source_block_number == r.cur_sbn) ≡ true = ground arith in
      rw (not_behind c.source_block_number r.cur_sbn h e, t, n) refl

  loop_panics :
      (fuel : ℕ) (p : Packet) (c : Fec) (r : Reader d)
      → SortedQueue.head r.repair_queue ≡ some p
      → fec p ≡ some c
      → admit d memory c r ≡ (true, r)
      → take_repair d memory p c (after_repair_read d memory r) ≡ none
      → fill_repair_loop d memory (suc fuel) r ≡ none
  unfolding fill_repair_loop
  loop_panics fuel p c r n f a k = rw (n, fill_repair_loop, f, ◌>>=◌, a, a, k) refl

  -- A repair packet from the network can end the program: where the next packet of the repair queue
  -- is of the current block, passes the checks of `validate_incoming_repair_packet_`, has the payload
  -- size and the number of source packets that the block has or, for the payload size, may still take,
  -- and names a block length of 0, and no repair packet has sized this block yet, `fill_repair_block_`
  -- panics.
  pub fill_repair_block_panics :
      (p : Packet) (c : Fec) (r : Reader d)
      → SortedQueue.head r.repair_queue ≡ some p
      → fec p ≡ some c
      → r.cur_sbn < u16_mod
      → c.source_block_number ≡ r.cur_sbn
      → validate_incoming_repair_packet c ≡ true
      → c.block_length ≡ 0
      → TakesPayload d (slice_size c.payload) r
      → length r.source_block ≡ c.source_block_length
      → r.repair_block_resized ≡ false
      → fill_repair_block d memory r ≡ none
  unfolding fill_repair_block
  fill_repair_block_panics p c r n f h e v z t l q =
      let a = admits c r h e in
      let u = record r { repair_queue = (SortedQueue.read r.repair_queue).1 } in
      let k = take_repair_zero p c u h e (process_repair_packet_zero c u v z t l q) in
      loop_panics (SortedQueue.size r.repair_queue) p c r n f a k

module _ (d : BlockDecoder) where
  set_packets_panics :
      (i : ℕ) (front back : List (Option Packet)) (p : Packet) (s : d.State)
      → fec p ≡ none
      → set_packets d i (front ++ (some p ∷ back)) s ≡ none
  unfolding set_packets
  set_packets_panics i [] back p s h = rw h refl
  set_packets_panics i (none ∷ front) back p s h = set_packets_panics (suc i) front back p s h
  set_packets_panics i (some q ∷ front) back p s h = elim (Option-cases (fec q)) [
    | inl e ↦ rw e refl
    | inr (c, e) ↦ elim (Option-cases (d.put i c.payload s)) [
      | inl f ↦ rw (e, f) refl
      | inr (t, f) ↦ rw (e, f) (set_packets_panics (suc i) front back p t h)
    ]
  ]

  -- `try_repair_` follows a null pointer where it repairs a block, all sizes of which are known, that
  -- holds a source packet without a FEC part, if the decoder can begin the block; so with any decoder.
  pub try_repair_panics :
      (parser : Packet → List ℕ → Outcome) (pool : ℕ → Bool) (r : Reader d) (s : d.State)
      (front back : List (Option Packet)) (p : Packet)
      → r.can_repair ≡ true
      → r.source_block_resized ≡ true
      → r.repair_block_resized ≡ true
      → r.payload_resized ≡ true
      → r.source_block ≡ front ++ (some p ∷ back)
      → fec p ≡ none
      → d.begin (length r.source_block) (length r.repair_block) r.payload_size r.decoder
        ≡ some (true, s)
      → try_repair d parser pool r ≡ none
  unfolding try_repair repair_block_packets
  try_repair_panics parser pool r s front back p a b c e sb f g =
      let k : set_packets d 0 r.source_block s ≡ none =
        ap (λ l. set_packets d 0 l s) sb ∙ set_packets_panics 0 front back p s f in
      rw (a, b, c, e, g, k) refl
