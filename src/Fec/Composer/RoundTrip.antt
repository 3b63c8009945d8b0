-- ===== src/Fec/Composer/RoundTrip.antt =====
-- A FEC packet that the composer wrote is read back by the parser.
use mathlib.Core.List.{append-nil}
use roc.Prelude.{
  ℕ, ◌+◌, ◌-◌, ◌/◌, ◌%◌, ◌^◌, ◌≤◌, ◌<◌, ◌≡◌, refl, ◌∙◌, ap, true, false, none, some, List, [], ◌∷◌,
  ◌++◌, ltb, ◌==◌, length, arith, read16, write16, range_in, range_front, take_all, length-append,
  take-append, drop-append,
}
use roc.Packet.Types.{Packet, Fec, fec, slice_size}
use roc.Rtp.Parser.{run_inner}
use roc.Rtp.Composer.{compose_inner}
use roc.Fec.Headers.{
  PayloadIdType, PayloadIdPos, at_header, at_footer, PayloadIdFormat, ldpc_source, ldpc_repair,
  rsm8, PayloadId, sizeof_payload_id, fec_scheme, read_payload_id, write_payload_id,
}
use roc.Fec.Parser.{id_bytes, payload_range, fill_fec, parse}
use roc.Fec.Parser.Safety.{FecFree, flags_added}
use roc.Fec.Composer.{compose, compose_fec, id_of}

-- What the format can carry of the encoding symbol id, and what the parser says of the block length.
abbrev pub max_esi : PayloadIdFormat → ℕ
max_esi ldpc_source = 2 ^ 16
max_esi ldpc_repair = 2 ^ 16
max_esi rsm8 = 2 ^ 8

pub max_esi_le : (f : PayloadIdFormat) → max_esi f ≤ 2 ^ 16
max_esi_le ldpc_source = omega arith
max_esi_le ldpc_repair = omega arith
max_esi_le rsm8 = omega arith

abbrev pub parsed_n : PayloadIdFormat → ℕ → ℕ
parsed_n ldpc_source n = 0
parsed_n ldpc_repair n = n
parsed_n rsm8 n = 255

pub record Fits (f : PayloadIdFormat) (v : PayloadId) : Type 0 where
  pub sbn_fits : v.sbn < 2 ^ 16
  pub esi_fits : v.esi < max_esi f
  pub k_fits : v.k < 2 ^ 16
  pub n_fits : v.n < 2 ^ 16

abbrev pub Written : PayloadIdFormat → PayloadId → Type 0
Written f v =
    (id : List ℕ) × (write_payload_id f v ≡ some id)
    × (length id ≡ sizeof_payload_id f)
    × ((rest : List ℕ) → read_payload_id f (id ++ rest) ≡ some (record v { n = parsed_n f v.n }))

pub written : (f : PayloadIdFormat) (v : PayloadId) → Fits f v → Written f v
unfolding write_payload_id read_payload_id write16 read16 sizeof_payload_id
written ldpc_source v h =
    (write16 v.sbn ++ (write16 v.esi ++ write16 v.k), refl, refl, λ rest. ground arith)
written ldpc_repair v h = (
  write16 v.sbn ++ (write16 v.esi ++ (write16 v.k ++ write16 v.n)),
  refl,
  refl,
  λ rest. ground arith,
)
written rsm8 v h = (
  (v.sbn / 65536 % 256) ∷ (v.sbn / 256 % 256) ∷ (v.sbn % 256) ∷ v.esi ∷ write16 v.k,
  ground arith,
  refl,
  λ rest. ground arith,
)

-- The datagram of a payload id and a payload.
abbrev pub wire : PayloadIdPos → List ℕ → List ℕ → List ℕ
wire at_header id payload = id ++ payload
wire at_footer id payload = payload ++ id

length-wire :
    (pos : PayloadIdPos) (id payload : List ℕ)
    → length (wire pos id payload) ≡ length id + length payload
length-wire at_header id payload = length-append id payload
length-wire at_footer id payload = omega (arith, length-append payload id)

id_bytes-wire :
    (f : PayloadIdFormat) (pos : PayloadIdPos) (id payload : List ℕ)
    → length id ≡ sizeof_payload_id f
    → (rest : List ℕ) × (id_bytes f pos (wire pos id payload) ≡ id ++ rest)
unfolding id_bytes
id_bytes-wire f at_header id payload h = (payload, refl)
id_bytes-wire f at_footer id payload h =
    let n : length (payload ++ id) - sizeof_payload_id f ≡ length payload =
      omega (arith, length-append payload id) in
    ([], rw (n, append-nil) (drop-append payload id))

payload_range-wire :
    (f : PayloadIdFormat) (pos : PayloadIdPos) (id payload : List ℕ)
    → length id ≡ sizeof_payload_id f
    → payload_range f pos (wire pos id payload) ≡ some payload
unfolding payload_range
payload_range-wire f at_header id payload h =
    range_in (id ++ payload) (sizeof_payload_id f) (length (id ++ payload))
      (omega (arith, length-append id payload)) (omega arith)
    ∙ rw (← h, drop-append)
        (ap some (
          take_all (length (id ++ payload) - length id) payload
            (omega (arith, length-append id payload))))
payload_range-wire f at_footer id payload h =
    let n : length (payload ++ id) - sizeof_payload_id f ≡ length payload =
      omega (arith, length-append payload id) in
    rw n (
      range_front (payload ++ id) (length payload) (omega (arith, length-append payload id))
      ∙ ap some (take-append payload id))

pub record FecReceived (f : PayloadIdFormat) (c : Fec) (payload : List ℕ) (q : Packet)
    : Type 0 where
  pub scheme_same : q.fec_part.fec_scheme ≡ fec_scheme f
  pub esi_same : q.fec_part.encoding_symbol_id ≡ c.encoding_symbol_id
  pub sbn_same : q.fec_part.source_block_number ≡ c.source_block_number
  pub k_same : q.fec_part.source_block_length ≡ c.source_block_length
  pub n_parsed : q.fec_part.block_length ≡ parsed_n f c.block_length
  pub payload_same : q.fec_part.payload ≡ some payload

-- A FEC packet with a payload id of the right size and fields that its format can carry is composed,
-- and the FEC parser of the same format and position accepts the payload id and the payload, in the
-- order of the position, and gives back the symbol id, the block number, the source block length and
-- the payload. The block length is given back by the LDPC repair format, and is 0 and 255 for the
-- others.
pub compose-parse-fec :
    (f : PayloadIdFormat) (type : PayloadIdType) (pos : PayloadIdPos) (fresh : Packet)
    (free : FecFree fresh) (p : Packet) (c : Fec) (payload : List ℕ)
    → fec p ≡ some c
    → slice_size c.payload_id ≡ sizeof_payload_id f
    → c.payload ≡ some payload
    → Fits f (id_of c)
    → (p' : Packet) × (id : List ℕ) × (q : Packet) × (compose f none p ≡ some (true, p'))
      × (p'.fec_part.payload_id ≡ some id)
      × (p'.fec_part.payload ≡ some payload)
      × (parse f type pos none fresh (wire pos id payload) ≡ some (true, q))
      × FecReceived f c payload q
unfolding compose compose_fec compose_inner parse run_inner fill_fec
compose-parse-fec f type pos fresh free p c payload e s ep h =
    let (id, w, l, r) = written f (id_of c) h in
    let (rest, ib) = id_bytes-wire f pos id payload l in
    let (o, q, a, d, x, y) = flags_added type fresh free in
    let s1 : (slice_size c.payload_id == sizeof_payload_id f) ≡ true = ground arith in
    let g1 : ltb c.encoding_symbol_id (2 ^ 16) ≡ true = ground (arith, max_esi_le f, h.esi_fits) in
    let g2 : ltb c.source_block_length (2 ^ 16) ≡ true = ground (arith, h.k_fits) in
    let g3 : ltb c.block_length (2 ^ 16) ≡ true = ground (arith, h.n_fits) in
    let t : ltb (length (wire pos id payload)) (sizeof_payload_id f) ≡ false =
      ground (arith, length-wire pos id payload) in
    (
      record p { fec_part = record c { payload_id = some id } },
      id,
      fill_fec f (record (id_of c) { n = parsed_n f c.block_length }) payload q,
      rw (e, s1, g1, w, g2, g3) refl,
      refl,
      ep,
      rw (t, ib, r rest, a, d, payload_range-wire f pos id payload l) refl,
      record {
        scheme_same = refl;
        esi_same = refl;
        sbn_same = omega (arith, h.sbn_fits);
        k_same = refl;
        n_parsed = refl;
        payload_same = refl;
      },
    )
