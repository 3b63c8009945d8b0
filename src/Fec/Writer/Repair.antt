-- ===== src/Fec/Writer/Repair.antt =====
-- The repair packets at the end of a block.
use roc.Prelude.{
  ℕ, suc, ◌+◌, ◌^◌, ◌%◌, ◌≤◌, ◌<◌, ◌≡◌, refl, ap, ◌∙◌, ◌⊎◌, inl, inr, true, false, Option, none,
  some, List, [], ◌∷◌, ◌==◌, arith, length, map, All, bit_and, bit_or, take,
}
use roc.Packet.Units.{u16_mod}
use roc.Packet.Types.{
  Packet, Fec, FecScheme, Slice, fec, add_flags, set_data, packet_init, flag_composed, flag_fec,
  slice_size,
}
use roc.Rtp.Composer.{Buffer, InnerComposer}
use roc.Fec.WriterState.{
  BlockEncoder, Writer, same_scheme, validate_fec_packet, fill_packet_fec_fields, compose_or_panic,
}
use roc.Fec.WriterRepair.{
  finish_repair_packet, make_repair_packet, make_repair_packets, set_symbols, filled_symbols,
  compose_repair_packets, end_block,
}

-- What the FEC fields of a packet say of its place: symbol, block, source and all packets of the block.
pub record Numbered (esi sbn sblen blen : ℕ) (p : Packet) : Type 0 where
  pub symbol_is : p.fec_part.encoding_symbol_id ≡ esi
  pub block_is : p.fec_part.source_block_number ≡ sbn
  pub source_length_is : p.fec_part.source_block_length ≡ sblen
  pub length_is : p.fec_part.block_length ≡ blen

-- A repair packet of the block.
abbrev pub OfBlock : ℕ → ℕ → ℕ → Packet → Type 0
OfBlock sblen rblen sbn p =
    (i : ℕ) × (i < rblen) × Numbered ((sblen + i) % u16_mod) sbn sblen (sblen + rblen) p

-- The slots hold no packets.
abbrev pub IsEmpty : List (Option Packet) → Type 0
IsEmpty = All (λ o. o ≡ none)

-- A FEC packet, not yet composed, with a payload id of this size. Its flags are those of Packet.
pub record Ready (id_size : ℕ) (p : Packet) : Type 0 where
  pub flags_known : p.flags < 2 ^ 7
  pub is_fec : (bit_and p.flags flag_fec == 0) ≡ false
  pub not_composed : bit_and p.flags flag_composed ≡ 0
  pub id_sized : slice_size p.fec_part.payload_id ≡ id_size

-- The numbers are those of a packet of a block of at most `limit` packets.
abbrev pub InLimit : ℕ → ℕ → ℕ → ℕ → ℕ → Type 0
InLimit limit esi sbn sblen blen =
    (esi < limit) × (sbn < u16_mod) × (sblen ≤ limit) × (blen ≤ limit)

-- Composing a FEC packet that is ready, with numbers within the limit, succeeds and leaves the
-- numbers as they are. The writer sets the composed flag before.
pub record KeepsFec (c : InnerComposer) (id_size limit : ℕ) : Type 0 where
  pub composes :
      (p : Packet) (esi sbn sblen blen : ℕ)
      → Ready id_size p
      → Numbered esi sbn sblen blen p
      → InLimit limit esi sbn sblen blen
      → (q : Packet) × (c.compose (record p { flags = bit_or p.flags flag_composed })
          ≡ some (true, q))
        × Numbered esi sbn sblen blen q

-- A buffer whose memory is aligned and has room for the padding of the alignment, a payload id of this
-- size, and a payload.
pub record HasRoom (alignment id_size payload_size : ℕ) (b : Buffer) : Type 0 where
  pub is_aligned : b.address % alignment ≡ 0
  pub has_bytes : alignment + (id_size + payload_size) ≤ length b.bytes

-- For a buffer with room, `align` and then `prepare` of a new packet do not panic, and a packet that is
-- not refused is ready, of the scheme, and has no data.
abbrev pub MakesFec : InnerComposer → FecScheme → ℕ → ℕ → Type 0
MakesFec c scheme id_size alignment =
    (b : Buffer) (n : ℕ)
    → HasRoom alignment id_size n b
    → ((b' : Buffer) × (c.align b 0 alignment ≡ some (false, b')))
      ⊎ ((b' : Buffer) × (q : Packet) × (b'' : Buffer) × (c.align b 0 alignment ≡ some (true, b'))
          × (c.prepare packet_init b' n ≡ some (false, q, b'')))
      ⊎ ((b' : Buffer) × (q : Packet) × (b'' : Buffer) × (c.align b 0 alignment ≡ some (true, b'))
          × (c.prepare packet_init b' n ≡ some (true, q, b''))
          × (q.data_slice ≡ none)
          × Ready id_size q
          × (same_scheme q.fec_part.fec_scheme scheme ≡ true))

-- The buffers that the pool gives have room.
abbrev pub Roomy : (ℕ → Option Buffer) → ℕ → ℕ → ℕ → Type 0
Roomy pool alignment id_size payload_size =
    (i : ℕ) (b : Buffer) → pool i ≡ some b → HasRoom alignment id_size payload_size b

pub fec-Ready : (id_size : ℕ) (p : Packet) → Ready id_size p → fec p ≡ some p.fec_part
unfolding fec
fec-Ready id_size p r = rw (r.is_fec)

pub validated :
    (scheme : FecScheme) (p : Packet) (d : Fec)
    → fec p ≡ some d
    → same_scheme d.fec_scheme scheme ≡ true
    → validate_fec_packet scheme p ≡ some d
unfolding validate_fec_packet
validated scheme p d h k = rw (h, k)

with_data : (q : Packet) (s : Slice) → fec (record q { data_slice = s }) ≡ fec q
unfolding fec
with_data q s = refl

set_once :
    (q : Packet) (s : Slice)
    → q.data_slice ≡ none
    → set_data s q ≡ some (record q { data_slice = s })
unfolding set_data
set_once q s h = rw h

module _ (e : BlockEncoder) (c : InnerComposer) (id_size : ℕ) (w : Writer e)
    (keeps : KeepsFec c id_size e.max_block_length)
    (makes : MakesFec c w.scheme id_size e.alignment) (sbn_fits : w.cur_sbn < u16_mod)
    (sizes_fit : w.cur_sblen + w.cur_rblen ≤ e.max_block_length) where
  abbrev pub IsRepair : ℕ → Packet → Type 0
  IsRepair i =
      Numbered ((w.cur_sblen + i) % u16_mod) w.cur_sbn w.cur_sblen (w.cur_sblen + w.cur_rblen)

  abbrev Good : ℕ → Packet → Type 0
  Good i p = IsRepair i p × Ready id_size p

  abbrev Makes : ℕ → Option (Option Packet) → Type 0
  Makes i out = (out ≡ some none) ⊎ ((p : Packet) × (out ≡ some (some p)) × Good i p)

  finish-Makes :
      (i : ℕ) (q : Packet) (b : Buffer)
      → q.data_slice ≡ none
      → Ready id_size q
      → same_scheme q.fec_part.fec_scheme w.scheme ≡ true
      → Makes i (finish_repair_packet e i q b w)
  unfolding finish_repair_packet fill_packet_fec_fields
  finish-Makes i q b hd hr hs =
      let hq = fec-Ready id_size q hr in
      let r : Packet = record q { data_slice = some (take b.size b.bytes) } in
      let v : validate_fec_packet w.scheme r ≡ some q.fec_part =
        validated w.scheme r q.fec_part (with_data q (some (take b.size b.bytes)) ∙ hq) hs in
      inr (
        fill_packet_fec_fields e r (w.cur_sblen + i) w,
        rw (hq, finish_repair_packet, set_once q (some (take b.size b.bytes)) hd, v),
        (
          record { symbol_is = refl; block_is = refl; source_length_is = refl; length_is = refl },
          record {
            flags_known = hr.flags_known;
            is_fec = hr.is_fec;
            not_composed = hr.not_composed;
            id_sized = hr.id_sized;
          },
        ),
      )

  make_repair_packet-Makes :
      (buf : Option Buffer) (i : ℕ)
      → ((b : Buffer) → buf ≡ some b → HasRoom e.alignment id_size w.cur_payload_size b)
      → Makes i (make_repair_packet e c buf i w)
  unfolding make_repair_packet
  make_repair_packet-Makes none i h = inl refl
  make_repair_packet-Makes (some b) i h = elim (makes b w.cur_payload_size (h b refl)) [
    | inl (b', a) ↦ inl (rw (a, make_repair_packet))
    | inr (inl (b', q, b'', a, g)) ↦ inl (rw (a, make_repair_packet, g))
    | inr (inr (b', q, b'', a, g, hd, hr, hs)) ↦
        rw (a, make_repair_packet, g) (finish-Makes i q b'' hd hr hs)
  ]

  -- The slots from `i` on.
  abbrev Slots : ℕ → List (Option Packet) → Type 0
  Slots i [] = Unit
  Slots i (none ∷ block) = Slots (suc i) block
  Slots i (some p ∷ block) = Good i p × Slots (suc i) block

  make_repair_packets-Slots :
      (pool : ℕ → Option Buffer) (i : ℕ) (old : List (Option Packet))
      → Roomy pool e.alignment id_size w.cur_payload_size
      → IsEmpty old
      → (block : List (Option Packet)) × (make_repair_packets e c pool i w old ≡ some block)
        × Slots i block
        × (length block ≡ length old)
  unfolding make_repair_packets
  make_repair_packets-Slots pool i [] m h = ([], refl, tt, refl)
  make_repair_packets-Slots pool i (o ∷ old) rm (n, h) =
      let (block, r, s, l) = make_repair_packets-Slots pool (suc i) old rm h in
      elim (make_repair_packet-Makes (pool i) i (rm i)) [
        | inl m ↦ (none ∷ block, rw (m, r, n), s, ap suc l)
        | inr (p, m, g) ↦ (some p ∷ block, rw (m, r), (g, s), ap suc l)
      ]

  filled_symbols-Slots :
      (k i : ℕ) (block : List (Option Packet)) (s : e.State)
      → Slots i block
      → Slots i (filled_symbols e k block s) × (length (filled_symbols e k block s) ≡ length block)
  unfolding filled_symbols
  filled_symbols-Slots k i [] s h = (tt, refl)
  filled_symbols-Slots k i (none ∷ block) s h =
      let (a, b) = filled_symbols-Slots (suc k) (suc i) block s h in (a, ap suc b)
  filled_symbols-Slots k i (some p ∷ block) s (g, h) =
      let (a, b) = filled_symbols-Slots (suc k) (suc i) block s h in
      (
        (
          (
            record {
              symbol_is = g.0.symbol_is;
              block_is = g.0.block_is;
              source_length_is = g.0.source_length_is;
              length_is = g.0.length_is;
            },
            record {
              flags_known = g.1.flags_known;
              is_fec = g.1.is_fec;
              not_composed = g.1.not_composed;
              id_sized = g.1.id_sized;
            },
          ),
          a,
        ),
        ap suc b,
      )

  compose_repair_packets-OfBlock :
      (i : ℕ) (block : List (Option Packet))
      → Slots i block
      → i + length block ≤ w.cur_rblen
      → (out : List Packet) × (compose_repair_packets e c block ≡ some out)
        × All (OfBlock w.cur_sblen w.cur_rblen w.cur_sbn) out
        × (length out ≤ length block)
  unfolding compose_repair_packets add_flags compose_or_panic
  compose_repair_packets-OfBlock i [] h b = ([], refl, tt, omega arith)
  compose_repair_packets-OfBlock i (none ∷ block) h b =
      let (out, r, a, l) = compose_repair_packets-OfBlock (suc i) block h (omega arith) in
      (out, r, a, omega arith)
  compose_repair_packets-OfBlock i (some p ∷ block) ((v, f), h) b =
      let (out, r, a, l) = compose_repair_packets-OfBlock (suc i) block h (omega arith) in
      let z : (bit_and p.flags 32 == 0) ≡ true = ground (arith, f.not_composed) in
      let (q, k, n) =
        keeps.composes p ((w.cur_sblen + i) % u16_mod) w.cur_sbn w.cur_sblen
          (w.cur_sblen + w.cur_rblen) f v
          (omega (arith, sizes_fit), sbn_fits, omega (arith, sizes_fit), sizes_fit) in
      (q ∷ out, rw (z, k, r), ((i, omega arith, n), a), omega arith)

  -- The end of a block never panics, and writes packets of the block only.
  pub end_block-OfBlock :
      (pool : ℕ → Option Buffer)
      → Roomy pool e.alignment id_size w.cur_payload_size
      → IsEmpty w.repair_block
      → length w.repair_block ≡ w.cur_rblen
      → (out : List Packet) × (s : e.State) × (end_block e c pool w
          ≡ some (out, record w { encoder = s; repair_block = map (λ _. none) w.repair_block }))
        × All (OfBlock w.cur_sblen w.cur_rblen w.cur_sbn) out
        × (length out ≤ w.cur_rblen)
  unfolding end_block
  end_block-OfBlock pool rm h l =
      let (block, r, s, m) = make_repair_packets-Slots pool 0 w.repair_block rm h in
      let t = e.fill (set_symbols e w.cur_sblen block w.encoder) in
      let (a, b) = filled_symbols-Slots w.cur_sblen 0 block t s in
      let (out, k, o, n) =
        compose_repair_packets-OfBlock 0 (filled_symbols e w.cur_sblen block t) a (omega arith) in
      (out, e.finish t, rw (r, end_block, k), o, omega arith)
