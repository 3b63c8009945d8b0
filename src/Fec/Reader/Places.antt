-- ===== src/Fec/Reader/Places.antt =====
-- How a packet of the current block gets its place in a FEC reader.
use roc.Prelude.{
  ℕ, ◌+◌, ◌-◌, ◌≤◌, ◌<◌, ◌≡◌, refl, sym, subst, ◌∙◌, inl, inr, Bool, true, false, Option, none,
  some, arith, length, get_or, set, length-set, Bool-cases, Option-cases, not, ltb, leb, ◌==◌, ◌||◌,
  if◌then◌else◌,
}
use roc.Packet.Types.{Packet, Fec, slice_size, fec}
use roc.Packet.Units.{u16_mod, blknum_lt, blknum_le, blknum_diff}
use roc.Fec.ReaderState.{BlockDecoder, Reader, process_source_packet}
use roc.Fec.ReaderBlock.{store_source, store_repair, take_source}
use roc.Fec.Reader.Invariant.{IsValid, Filled, SourceAt, InPlace, set-Filled}
use roc.Fec.Reader.Sizes.{
  process_source_packet-Resizes, process_source_packet_valid, source_in_range,
}
use roc.Fec.Reader.Keeps.{Keeps, SameQueues, Sized, Keeps-refl, Keeps-trans, Resizes-IsValid}

-- Block numbers that are neither ahead nor behind are equal.
pub blknum_eq :
    (a b : ℕ) → a < u16_mod → b < u16_mod → blknum_le a b ≡ true → blknum_lt a b ≡ false → a ≡ b
unfolding blknum_le blknum_lt blknum_diff
blknum_eq a b ha hb h k = ground arith

module _ (d : BlockDecoder) where
  abbrev pub placed_source : ℕ → Packet → Reader d → Reader d
  placed_source k p r = record r { can_repair = true; source_block = set r.source_block k (some p) }

  abbrev pub placed_repair : ℕ → Packet → Reader d → Reader d
  placed_repair k p r = record r { can_repair = true; repair_block = set r.repair_block k (some p) }

  IsValid-placed_source :
      (k : ℕ) (p : Packet) (r : Reader d)
      → IsValid d r
      → r.started ≡ true
      → r.source_block_resized ≡ true
      → SourceAt r.cur_sbn (length r.source_block) r.payload_size k p
      → IsValid d (placed_source k p r)
  IsValid-placed_source k p r v st sz at_k =
      let l = length-set r.source_block k (some p) in
      record {
        source_fec = v.source_fec;
        repair_fec = v.repair_fec;
        sbn_fits = v.sbn_fits;
        source_fits = omega (arith, l, v.source_fits);
        source_slots =
            subst
              (λ n. Filled (SourceAt r.cur_sbn n r.payload_size) 0 (set r.source_block k (some p)))
              (sym l)
              (set-Filled (SourceAt r.cur_sbn (length r.source_block) r.payload_size) 0 k p
                r.source_block
                (let e : k ≡ 0 + k = omega arith in
                  subst (λ m. SourceAt r.cur_sbn (length r.source_block) r.payload_size m p) e at_k)
                v.source_slots);
        repair_slots =
            subst (λ n. Filled (InPlace r.cur_sbn n r.payload_size) n r.repair_block) (sym l)
              v.repair_slots;
        payload_first = v.payload_first;
        source_first = v.source_first;
        unsized = λ h. cc;
        no_repair = v.no_repair;
        not_started = λ h. cc;
        at_start = λ h. cc;
      }

  IsValid-placed_repair :
      (k : ℕ) (p : Packet) (r : Reader d)
      → IsValid d r
      → r.started ≡ true
      → r.repair_block_resized ≡ true
      → InPlace r.cur_sbn (length r.source_block) r.payload_size (length r.source_block + k) p
      → IsValid d (placed_repair k p r)
  IsValid-placed_repair k p r v st sz at_k =
      let f = v.source_first sz in
      record {
        source_fec = v.source_fec;
        repair_fec = v.repair_fec;
        sbn_fits = v.sbn_fits;
        source_fits = v.source_fits;
        source_slots = v.source_slots;
        repair_slots =
            set-Filled (InPlace r.cur_sbn (length r.source_block) r.payload_size)
              (length r.source_block) k p r.repair_block at_k v.repair_slots;
        payload_first = v.payload_first;
        source_first = v.source_first;
        unsized = λ h. cc;
        no_repair = λ h. cc;
        not_started = λ h. cc;
        at_start = v.at_start;
      }

  Keeps-placed_source : (k : ℕ) (p : Packet) (r : Reader d) → Keeps d r (placed_source k p r)
  Keeps-placed_source k p r =
      let l = length-set r.source_block k (some p) in
      record {
        same_sbn = refl;
        same_next = refl;
        same_started = refl;
        same_length = λ _. l;
        still_sized = λ h. h;
        still_positive = λ h. omega (arith, l, h);
        still_dead = λ h. h;
      }

  Keeps-placed_repair : (k : ℕ) (p : Packet) (r : Reader d) → Keeps d r (placed_repair k p r)
  Keeps-placed_repair k p r = record {
    same_sbn = refl;
    same_next = refl;
    same_started = refl;
    same_length = λ _. refl;
    still_sized = λ h. h;
    still_positive = λ h. h;
    still_dead = λ h. h;
  }

  -- No panic, a valid reader with the same queues, in the same block.
  abbrev pub Goes : Reader d → Option (Reader d) → Type 0
  Goes r o = (s : Reader d) × (o ≡ some s) × IsValid d s × Keeps d r s × SameQueues d r s

  pub Goes-trans :
      (r s : Reader d) (o : Option (Reader d))
      → Keeps d r s
      → SameQueues d r s
      → Goes s o
      → Goes r o
  Goes-trans r s o k (a, b) (t, e, v, k', (a', b')) =
      (t, e, v, Keeps-trans d r s t k k', (a' ∙ a, b' ∙ b))

  module _ (memory : Reader d → ℕ → Bool) where
    store_source-Goes :
        (c : Fec) (p : Packet) (r : Reader d)
        → IsValid d r
        → r.started ≡ true
        → fec p ≡ some c
        → c.source_block_number ≡ r.cur_sbn
        → c.encoding_symbol_id < c.source_block_length
        → Sized d (slice_size c.payload) c.source_block_length r
        → Goes r (store_source d memory c p r)
    unfolding store_source
    store_source-Goes c p r v st e b h z =
        rw tests (elim (Option-cases (get_or r.source_block c.encoding_symbol_id none)) [
          | inr (q, f) ↦ rw f (r, refl, v, Keeps-refl d r, (refl, refl))
          | inl f ↦ rw f (
            placed_source c.encoding_symbol_id p r,
            refl,
            IsValid-placed_source c.encoding_symbol_id p r v st z.is_sized (inr here),
            Keeps-placed_source c.encoding_symbol_id p r,
            (refl, refl),
          )
        ])
      where
        tests :
            (not (c.source_block_length == length r.source_block)
              || not (ltb c.encoding_symbol_id (length r.source_block)))
            ≡ false
        tests = ground (arith, z.has_length)

        here : InPlace r.cur_sbn (length r.source_block) r.payload_size c.encoding_symbol_id p
        here = record {
          part = c;
          has_part = e;
          in_block = b;
          at_place = refl;
          of_length = sym z.has_length;
          of_size = sym z.has_payload;
        }

    pub store_repair-Goes :
        (c : Fec) (p : Packet) (r : Reader d)
        → IsValid d r
        → r.started ≡ true
        → fec p ≡ some c
        → c.source_block_number ≡ r.cur_sbn
        → c.source_block_length ≤ c.encoding_symbol_id
        → c.encoding_symbol_id < length r.source_block + length r.repair_block
        → r.repair_block_resized ≡ true
        → Sized d (slice_size c.payload) c.source_block_length r
        → Goes r (store_repair d memory c p r)
    unfolding store_repair
    store_repair-Goes c p r v st e b h1 h2 rs z =
        rw tests (elim (Option-cases (get_or r.repair_block p_num none)) [
          | inr (q, f) ↦ rw f (r, refl, v, Keeps-refl d r, (refl, refl))
          | inl f ↦ rw f (
            placed_repair p_num p r,
            refl,
            IsValid-placed_repair p_num p r v st rs here,
            Keeps-placed_repair p_num p r,
            (refl, refl),
          )
        ])
      where
        p_num : ℕ
        p_num = c.encoding_symbol_id - c.source_block_length

        tests :
            (not (c.source_block_length == length r.source_block)
              || not (leb (length r.source_block) c.encoding_symbol_id)
              || not (ltb c.encoding_symbol_id (length r.source_block + length r.repair_block)))
            ≡ false
        tests = ground (arith, z.has_length)

        here :
            InPlace r.cur_sbn
              (length r.source_block)
              r.payload_size
              (length r.source_block + p_num)
              p
        here = record {
          part = c;
          has_part = e;
          in_block = b;
          at_place = omega (arith, z.has_length, h1);
          of_length = sym z.has_length;
          of_size = sym z.has_payload;
        }

    pub take_source-Goes :
        (c : Fec) (p : Packet) (r : Reader d)
        → IsValid d r
        → r.started ≡ true
        → fec p ≡ some c
        → c.source_block_number < u16_mod
        → blknum_le c.source_block_number r.cur_sbn ≡ true
        → Goes r (take_source d memory p c r)
    unfolding take_source
    take_source-Goes c p r v st e b h =
        elim (Bool-cases (blknum_lt c.source_block_number r.cur_sbn)) [
          | inl l ↦ rw l (r, refl, v, Keeps-refl d r, (refl, refl))
          | inr l ↦
              let same = blknum_eq c.source_block_number r.cur_sbn b v.sbn_fits h l in
              let t : (c.source_block_number == r.cur_sbn) ≡ true = ground arith in
              rw (l, t) (processed same)
        ]
      where
        processed :
            c.source_block_number ≡ r.cur_sbn
            → Goes r (
                if (process_source_packet d memory c r).0
                then store_source d memory c p (process_source_packet d memory c r).1
                else some (process_source_packet d memory c r).1)
        processed same =
            let a = process_source_packet d memory c r in
            let (v', k, q, z) =
              Resizes-IsValid d (slice_size c.payload) c.source_block_length r a v
                (process_source_packet-Resizes d memory c r) in
            elim (Bool-cases a.0) [
              | inl t ↦ rw t (
                  Goes-trans r a.1 (store_source d memory c p a.1) k q (
                    store_source-Goes c p a.1 v' (k.same_started ∙ st) e (same ∙ sym k.same_sbn)
                      (source_in_range c (process_source_packet_valid d memory c r t)) (z t)))
              | inr t ↦ rw t (a.1, refl, v', k, q)
            ]
