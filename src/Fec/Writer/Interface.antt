-- ===== src/Fec/Writer/Interface.antt =====
-- src/modules/roc_fec/composer.h: the FEC composer composes the packets of the writer.
use roc.Prelude.Tests.{holds_for, holds_for_sound}
use roc.Prelude.{
  ℕ, ◌^◌, ◌≤◌, ◌<◌, ◌≡◌, refl, ◌∙◌, true, false, none, some, ◌==◌, ltb, arith, bit_and, bit_or,
}
use roc.Packet.Types.{Packet, Fec, fec, slice_size, flag_composed, flag_fec}
use roc.Rtp.Composer.{InnerComposer, compose_inner}
use roc.Fec.Headers.{PayloadIdType, PayloadIdPos, PayloadIdFormat, sizeof_payload_id}
use roc.Fec.Composer.{align, prepare, pad, compose, compose_fec, id_of}
use roc.Fec.Composer.RoundTrip.{max_esi, max_esi_le, Fits, written}
use roc.Fec.Writer.Repair.{Ready, Numbered, InLimit, KeepsFec}

flags_table : holds_for 128 (λ f. bit_and (bit_or f 32) 4 == bit_and f 4) ≡ true
unfolding holds_for
flags_table = refl

still_fec :
    (f : ℕ)
    → f < 2 ^ 7
    → (bit_and f flag_fec == 0) ≡ false
    → (bit_and (bit_or f flag_composed) flag_fec == 0) ≡ false
still_fec f h k =
    ground
      (arith, holds_for_sound 128 (λ f. bit_and (bit_or f 32) 4 == bit_and f 4) f flags_table h)

-- The FEC composer without an inner composer, as the composer of a writer.
abbrev pub fec_composer : PayloadIdFormat → PayloadIdType → PayloadIdPos → InnerComposer
fec_composer f type pos = record {
  align = align f pos none;
  prepare = prepare f type pos none;
  pad = pad none;
  compose = compose f none;
}

composed_fec :
    (f : PayloadIdFormat) (p : Packet)
    → (bit_and p.flags flag_fec == 0) ≡ false
    → slice_size p.fec_part.payload_id ≡ sizeof_payload_id f
    → Fits f (id_of p.fec_part)
    → (q : Packet) × (compose f none p ≡ some (true, q))
      × Numbered p.fec_part.encoding_symbol_id p.fec_part.source_block_number
          p.fec_part.source_block_length p.fec_part.block_length q
unfolding compose compose_fec compose_inner fec
composed_fec f p h s v =
    let (id, w, l, r) = written f (id_of p.fec_part) v in
    let s1 : (slice_size p.fec_part.payload_id == sizeof_payload_id f) ≡ true = ground arith in
    let g1 : ltb p.fec_part.encoding_symbol_id (2 ^ 16) ≡ true =
      ground (arith, max_esi_le f, v.esi_fits) in
    let g2 : ltb p.fec_part.source_block_length (2 ^ 16) ≡ true = ground (arith, v.k_fits) in
    let g3 : ltb p.fec_part.block_length (2 ^ 16) ≡ true = ground (arith, v.n_fits) in
    let c : Fec = record p.fec_part { payload_id = some id } in
    (
      record p { fec_part = c },
      rw (h, s1, g1, w, g2, g3) refl,
      record { symbol_is = refl; block_is = refl; source_length_is = refl; length_is = refl },
    )

-- The FEC composer of each format, without an inner composer, composes every packet that is ready for
-- it and whose numbers are those of a block that the format can number.
pub composer-KeepsFec :
    (f : PayloadIdFormat) (type : PayloadIdType) (pos : PayloadIdPos) (limit : ℕ)
    → limit ≤ max_esi f
    → limit < 2 ^ 16
    → KeepsFec (fec_composer f type pos) (sizeof_payload_id f) limit
composer-KeepsFec f type pos limit hl hm = record { composes = go }
  where
    go :
        (p : Packet) (esi sbn sblen blen : ℕ)
        → Ready (sizeof_payload_id f) p
        → Numbered esi sbn sblen blen p
        → InLimit limit esi sbn sblen blen
        → (q : Packet) × (compose f none (record p { flags = bit_or p.flags flag_composed })
            ≡ some (true, q))
          × Numbered esi sbn sblen blen q
    go p esi sbn sblen blen r n (a, b, c, d) =
        let (q, k, y) =
          composed_fec f (record p { flags = bit_or p.flags flag_composed })
            (still_fec p.flags r.flags_known r.is_fec) r.id_sized
            (record {
              sbn_fits = omega (arith, n.block_is);
              esi_fits = omega (arith, n.symbol_is);
              k_fits = omega (arith, n.source_length_is);
              n_fits = omega (arith, n.length_is);
            }) in
        (
          q,
          k,
          record {
            symbol_is = y.symbol_is ∙ n.symbol_is;
            block_is = y.block_is ∙ n.block_is;
            source_length_is = y.source_length_is ∙ n.source_length_is;
            length_is = y.length_is ∙ n.length_is;
          },
        )
