-- ===== src/Rtp/Composer/RoundTrip.antt =====
-- A packet that the composer wrote is read back by the parser.
use roc.Prelude.{
  ℕ, ◌^◌, ◌≤◌, ◌<◌, ◌≡◌, refl, ◌∙◌, sym, ap, ◌⊎◌, inl, inr, Bool, true, false, none, some, List, [],
  ◌++◌, ltb, ◌==◌, length, arith, Bool-cases,
}
use roc.Packet.Types.{Packet, slice_size, Rtp, rtp}
use roc.Rtp.Headers.{Header, write_header, set_padding}
use roc.Rtp.Formats.{FormatMap}
use roc.Rtp.Parser.{parse, padding_size, run_inner}
use roc.Rtp.Parser.Fill.{FlagsFree, IsFilled, fill_packet-IsFilled}
use roc.Rtp.Composer.{
  with_header, compose_inner, compose, compose_rtp, compose_padding, padding_bytes,
}
use roc.Rtp.Composer.Wire.{
  IsHeaderOf, composed, compose_header-composed, composed-IsHeaderOf, set_padding-IsHeaderOf, wire,
  length-wire, payload_of-wire, IsPlain, flags-IsPlain, padded-IsPlain, length-padding_bytes,
  padding_size-wire, parse-wire,
}

padding_size-plain :
    (h : Header) (payload : List ℕ)
    → IsPlain false h
    → padding_size h (wire h payload []) 12 ≡ some (some 0)
unfolding padding_size
padding_size-plain h payload plain = rw (plain.padding_flag)

module _ (p : Packet) (r : Rtp) (e : rtp p ≡ some r) (eh : slice_size r.header ≡ 12)
    (ht : r.payload_type < 128) where
  compose_plain :
      slice_size r.padding ≡ 0 → compose none p ≡ some (true, with_header p r (composed r))
  unfolding compose compose_rtp compose_padding compose_inner
  compose_plain n =
      let k : (slice_size r.header == 12) ≡ true = ground arith in
      let z : (slice_size r.padding == 0) ≡ true = ground arith in
      rw (e, compose, k, compose_header-composed r r.marker refl ht, z)

  compose_padded :
      0 < slice_size r.padding
      → slice_size r.padding ≤ 255
      → compose none p
        ≡ some (
          true,
          with_header p
              (record r { padding = some (padding_bytes (slice_size r.padding)) })
              (set_padding true (composed r)),
        )
  unfolding compose compose_rtp compose_padding compose_inner
  compose_padded n m =
      let k : (slice_size r.header == 12) ≡ true = ground arith in
      let z : (slice_size r.padding == 0) ≡ false = ground arith in
      let l : ltb 255 (slice_size r.padding) ≡ false = ground arith in
      rw (e, compose, k, compose_header-composed r r.marker refl ht, z, l)

-- The received packet `q` has the fields and the payload of the sent one.
pub record Received (r : Rtp) (payload : List ℕ) (q : Packet) : Type 0 where
  pub source_same : q.rtp_part.source ≡ r.source
  pub seqnum_same : q.rtp_part.seqnum ≡ r.seqnum
  pub timestamp_same : q.rtp_part.timestamp ≡ r.timestamp
  pub marker_same : q.rtp_part.marker ≡ r.marker
  pub type_same : q.rtp_part.payload_type ≡ r.payload_type
  pub payload_same : q.rtp_part.payload ≡ some payload

module _ (formats : FormatMap) (fresh : Packet) (free : FlagsFree formats fresh) where
  IsFilled-Received :
      (r : Rtp) (flags : ℕ) (h : Header) (payload padding : List ℕ) (q : Packet)
      → IsHeaderOf r flags h
      → IsFilled fresh (wire h payload padding) h 12 (length padding) q
      → Received r payload q
  IsFilled-Received r flags h payload padding q v f = record {
    source_same = ap (λ x. x.source) f.fields ∙ v.ssrc_kept;
    seqnum_same = ap (λ x. x.seqnum) f.fields ∙ v.seqnum_kept;
    timestamp_same = ap (λ x. x.timestamp) f.fields ∙ v.timestamp_kept;
    marker_same = ap (λ x. x.marker) f.fields ∙ v.marker_kept;
    type_same = ap (λ x. x.payload_type) f.fields ∙ v.type_kept;
    payload_same = ap (λ x. x.payload) f.fields ∙ ap some (payload_of-wire h payload padding);
  }

  received :
      (r : Rtp) (flags : ℕ) (padded : Bool) (h : Header) (payload padding : List ℕ)
      → r.seqnum < 2 ^ 16
      → r.timestamp < 2 ^ 32
      → r.source < 2 ^ 32
      → IsHeaderOf r flags h
      → IsPlain padded h
      → padding_size h (wire h payload padding) 12 ≡ some (some (length padding))
      → (q : Packet) × (parse formats none fresh (wire h payload padding) ≡ some (true, q))
        × Received r payload q
  unfolding run_inner
  received r flags padded h payload padding hs ht hr v plain e =
      let (q, k, f) =
        fill_packet-IsFilled formats none fresh free (wire h payload padding) h 12 (length padding)
          (omega (arith, length-wire h payload padding)) in
      (
        q,
        parse-wire formats fresh free h (omega (arith, v.seqnum_kept))
              (omega (arith, v.timestamp_kept)) (omega (arith, v.ssrc_kept)) padded payload padding
              plain e
            ∙ k,
        IsFilled-Received r flags h payload padding q v f,
      )

  -- Whatever RTP packet with a header of 12 bytes, a payload, fields within their ranges and at
  -- most 255 bytes of padding is composed without an inner composer, the composer succeeds, and
  -- the parser, given a packet that has none of the flags which it adds, accepts the bytes that it
  -- produced and gives back the source, the sequence number, the timestamp, the marker, the
  -- payload type and the payload, with the padding cut off.
  pub compose-parse :
      (p : Packet) (r : Rtp) (payload : List ℕ)
      → rtp p ≡ some r
      → slice_size r.header ≡ 12
      → r.payload ≡ some payload
      → r.payload_type < 128
      → r.seqnum < 2 ^ 16
      → r.timestamp < 2 ^ 32
      → r.source < 2 ^ 32
      → slice_size r.padding ≤ 255
      → (p' : Packet) × (header : List ℕ) × (padding : List ℕ) × (q : Packet) × (compose none p
          ≡ some (true, p'))
        × (p'.rtp_part.header ≡ some header)
        × (p'.rtp_part.payload ≡ some payload)
        × (((padding ≡ []) × (slice_size p'.rtp_part.padding ≡ 0))
            ⊎ (p'.rtp_part.padding ≡ some padding))
        × (length padding ≡ slice_size r.padding)
        × (parse formats none fresh (header ++ (payload ++ padding)) ≡ some (true, q))
        × Received r payload q
  compose-parse p r payload e eh ep ht hsn hts hsrc hpad =
      elim (Bool-cases (slice_size r.padding == 0)) [
        | inl z ↦
            let n : slice_size r.padding ≡ 0 = ground arith in
            let (q, k, c) =
              received r 128 false (composed r) payload [] hsn hts hsrc
                (composed-IsHeaderOf r r.marker refl ht) (flags-IsPlain (composed r) refl)
                (padding_size-plain (composed r) payload (flags-IsPlain (composed r) refl)) in
            (
              with_header p r (composed r),
              write_header (composed r),
              [],
              q,
              compose_plain p r e eh ht n,
              refl,
              ep,
              inl (refl, n),
              sym n,
              k,
              c,
            )
        | inr z ↦
            let pos : 0 < slice_size r.padding = ground arith in
            let h : Header = set_padding true (composed r) in
            let v : IsHeaderOf r 160 h =
              set_padding-IsHeaderOf r (composed r) (composed-IsHeaderOf r r.marker refl ht) in
            let plain : IsPlain true h = padded-IsPlain h v.flag_bits in
            let len = length-padding_bytes (slice_size r.padding) pos in
            let (q, k, c) =
              received r 160 true h payload (padding_bytes (slice_size r.padding)) hsn hts hsrc v
                plain
                (padding_size-wire h payload (slice_size r.padding) plain pos
                  ∙ ap (λ n. some (some n)) (sym len)) in
            (
              with_header p (record r { padding = some (padding_bytes (slice_size r.padding)) }) h,
              write_header h,
              padding_bytes (slice_size r.padding),
              q,
              compose_padded p r e eh ht pos hpad,
              refl,
              ep,
              inr refl,
              len,
              k,
              c,
            )
      ]
