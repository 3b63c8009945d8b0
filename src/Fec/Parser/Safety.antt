-- ===== src/Fec/Parser/Safety.antt =====
-- The FEC parser on any datagram: it reads nothing outside the buffer, does not panic, and cuts
-- what it accepts into the payload id and the payload.
use roc.Prelude.{
  ℕ, ◌+◌, ◌-◌, ◌*◌, ◌≤◌, ◌<◌, ◌≡◌, refl, ◌∙◌, sym, ◌⊎◌, inl, inr, true, false, some, List, ◌++◌,
  ltb, ◌==◌, length, arith, take, drop, get_elem?_in, read16_in, range_in, range_front,
  take-append-drop, take_all, length-drop, length-take, Bool-cases, bit_and, bit_or,
}
use roc.Packet.Types.{Packet, add_flags, flag_fec, flag_repair}
use roc.Rtp.Parser.{Outcome, InnerParser, run_inner}
use roc.Fec.Headers.{
  PayloadIdType, source_type, repair_type, PayloadIdPos, at_header, at_footer, PayloadIdFormat,
  ldpc_source, ldpc_repair, rsm8, PayloadId, sizeof_payload_id, read_payload_id,
}
use roc.Fec.Parser.{id_bytes, payload_range, add_repair, fill_fec, parse}

-- The packet was not parsed by a FEC parser yet.
pub record FecFree (p : Packet) : Type 0 where
  pub repair_free : bit_and p.flags flag_repair ≡ 0
  pub fec_free : bit_and p.flags flag_fec ≡ 0
  pub both_free : bit_and (bit_or p.flags flag_repair) flag_fec ≡ 0

read_payload_id_in :
    (f : PayloadIdFormat) (b : List ℕ)
    → sizeof_payload_id f ≤ length b
    → (v : PayloadId) × (read_payload_id f b ≡ some v)
unfolding read_payload_id sizeof_payload_id
read_payload_id_in ldpc_source b h =
    let (x, e) = read16_in b 0 (omega arith) in
    let (y, d) = read16_in b 2 (omega arith) in
    let (z, c) = read16_in b 4 (omega arith) in
    (record { sbn = x; esi = y; k = z; n = 0 }, rw (e, d, c))
read_payload_id_in ldpc_repair b h =
    let (x, e) = read16_in b 0 (omega arith) in
    let (y, d) = read16_in b 2 (omega arith) in
    let (z, c) = read16_in b 4 (omega arith) in
    let (w, a) = read16_in b 6 (omega arith) in
    (record { sbn = x; esi = y; k = z; n = w }, rw (e, d, c, a))
read_payload_id_in rsm8 b h =
    let (x, e) = get_elem?_in b 0 (omega arith) in
    let (y, d) = get_elem?_in b 1 (omega arith) in
    let (z, c) = get_elem?_in b 2 (omega arith) in
    let (w, a) = get_elem?_in b 3 (omega arith) in
    let (k, g) = read16_in b 4 (omega arith) in
    (record { sbn = x * 65536 + y * 256 + z; esi = w; k = k; n = 255 }, rw (e, d, c, a, g))

length-id_bytes :
    (f : PayloadIdFormat) (pos : PayloadIdPos) (b : List ℕ)
    → sizeof_payload_id f ≤ length b
    → sizeof_payload_id f ≤ length (id_bytes f pos b)
unfolding id_bytes
length-id_bytes f at_header b h = h
length-id_bytes f at_footer b h = omega (arith, length-drop (length b - sizeof_payload_id f) b)

-- The payload and the payload id make up the datagram.
abbrev pub Cuts : PayloadIdFormat → PayloadIdPos → List ℕ → List ℕ → Type 0
Cuts f at_header b payload = (id : List ℕ) × (length id ≡ sizeof_payload_id f) × (b ≡ id ++ payload)
Cuts f at_footer b payload = (id : List ℕ) × (length id ≡ sizeof_payload_id f) × (b ≡ payload ++ id)

payload_range_in :
    (f : PayloadIdFormat) (pos : PayloadIdPos) (b : List ℕ)
    → sizeof_payload_id f ≤ length b
    → (payload : List ℕ) × (payload_range f pos b ≡ some payload) × Cuts f pos b payload
unfolding payload_range
payload_range_in f at_header b h =
    let n = sizeof_payload_id f in
    (
      drop n b,
      range_in b n (length b) h (omega arith)
          ∙ rw (take_all (length b - n) (drop n b) (omega (arith, length-drop n b))) refl,
      (take n b, omega (arith, length-take n b), sym (take-append-drop n b)),
    )
payload_range_in f at_footer b h =
    let n = length b - sizeof_payload_id f in
    (
      take n b,
      range_front b n (omega arith),
      (drop n b, omega (arith, length-drop n b), sym (take-append-drop n b)),
    )

-- The flags are added, whatever the type.
pub flags_added :
    (type : PayloadIdType) (p : Packet)
    → FecFree p
    → (o : Packet) × (q : Packet) × (add_repair type p ≡ some o)
      × (add_flags flag_fec o ≡ some q)
      × (q.fec_part ≡ p.fec_part)
      × (q.rtp_part ≡ p.rtp_part)
unfolding add_repair add_flags
flags_added source_type p v =
    let z : (bit_and p.flags 4 == 0) ≡ true = ground (arith, v.fec_free) in
    (p, record p { flags = bit_or p.flags 4 }, refl, rw z, refl, refl)
flags_added repair_type p v =
    let y : (bit_and p.flags 16 == 0) ≡ true = ground (arith, v.repair_free) in
    let z : (bit_and (bit_or p.flags 16) 4 == 0) ≡ true = ground (arith, v.both_free) in
    (
      record p { flags = bit_or p.flags 16 },
      record p { flags = bit_or (bit_or p.flags 16) 4 },
      rw y,
      rw z,
      refl,
      refl,
    )

module _ (f : PayloadIdFormat) (type : PayloadIdType) (pos : PayloadIdPos) (inner : InnerParser)
    (p : Packet) (free : FecFree p) where
  abbrev pub Accepts : List ℕ → Outcome → Type 0
  Accepts b out =
      (v : PayloadId) × (payload : List ℕ) × (q : Packet) × (read_payload_id f (id_bytes f pos b)
        ≡ some v)
      × Cuts f pos b payload
      × (q.fec_part ≡ p.fec_part)
      × (q.rtp_part ≡ p.rtp_part)
      × (out ≡ run_inner inner (fill_fec f v payload q) payload)

  -- For a packet that has none of the flags which the parser adds, the FEC parser rejects a datagram, and
  -- leaves the packet as it was, exactly if it is shorter than the payload id. It cuts any other into the payload id and the payload, in the order of its
  -- position, fills the FEC part of the packet from them, leaves its RTP part, and returns what the
  -- inner parser returns. It never panics by itself and never reads outside the datagram.
  pub parse-Accepts_fec :
      (b : List ℕ)
      → ((length b < sizeof_payload_id f) × (parse f type pos inner p b ≡ some (false, p)))
        ⊎ ((sizeof_payload_id f ≤ length b) × Accepts b (parse f type pos inner p b))
  unfolding parse
  parse-Accepts_fec b = elim (Bool-cases (ltb (length b) (sizeof_payload_id f))) [
    | inl l ↦ inl (ground arith, rw l)
    | inr l ↦
        let h : sizeof_payload_id f ≤ length b = ground arith in
        let (v, e) = read_payload_id_in f (id_bytes f pos b) (length-id_bytes f pos b h) in
        let (payload, r, c) = payload_range_in f pos b h in
        let (o, q, a, d, x, y) = flags_added type p free in
        inr (h, (v, payload, q, e, c, x, y, rw (l, parse, e, a, d, r)))
  ]
