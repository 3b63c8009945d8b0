-- ===== src/Rtp/Parser/Fill.antt =====
-- What the RTP parser sets in a packet that it accepts.
use roc.Prelude.{
  ℕ, ◌+◌, ◌-◌, ◌%◌, ◌≤◌, ◌<◌, ◌≡◌, refl, ◌⊎◌, inl, inr, true, false, none, some, List, [], ltb,
  ◌==◌, length, arith, take, drop, get_elem?, get_elem?_in, read16, read16_in, read32_in, ◌*◌,
  range_in, range_front, Bool-cases, Option-cases, bit_and, bit_or,
}
use roc.Packet.Units.{u32_mod}
use roc.Packet.Types.{Packet, Rtp, Slice, add_flags, flag_rtp}
use roc.Rtp.Headers.{Header, has_padding, marker, payload_type, read_header, extension_data_size}
use roc.Rtp.Formats.{Format, FormatMap, format}
use roc.Rtp.Parser.{InnerParser, apply_format, padding_range, run_inner, padding_size, fill_packet}

-- The packet may be parsed into: the flags that the parser adds are not set yet.
pub record FlagsFree (formats : FormatMap) (p : Packet) : Type 0 where
  pub rtp_free : bit_and p.flags flag_rtp ≡ 0
  pub format_free :
      (pt : ℕ) (f : Format)
      → format formats pt ≡ some f
      → bit_and (bit_or p.flags flag_rtp) f.flags ≡ 0

-- How many bytes of padding end the datagram: none without the flag, else as many as its last byte says.
pub data Padded (h : Header) (b : List ℕ) : ℕ → Type 0 where
  unpadded : has_padding h ≡ false → Padded h b 0
  padded :
      (n : ℕ) → has_padding h ≡ true → get_elem? b (length b - 1) ≡ some n → 0 < n → Padded h b n

-- A padding that there is no room for behind the headers, or that is said to be of no bytes.
pub data BadPadding (h : Header) (b : List ℕ) (hsize : ℕ) : Type 0 where
  no_bytes : has_padding h ≡ true → hsize ≡ length b → BadPadding h b hsize
  bad_size :
      (n : ℕ)
      → has_padding h ≡ true
      → get_elem? b (length b - 1) ≡ some n
      → (n ≡ 0) ⊎ (length b < hsize + n)
      → BadPadding h b hsize

pub padding_size_fits :
    (h : Header) (b : List ℕ) (hsize : ℕ)
    → hsize ≤ length b
    → ((padding_size h b hsize ≡ some none) × BadPadding h b hsize)
      ⊎ ((n : ℕ) × (padding_size h b hsize ≡ some (some n)) × (hsize + n ≤ length b) × Padded h b n)
unfolding padding_size
padding_size_fits h b hsize k = elim (Bool-cases (has_padding h)) [
  | inl f ↦ elim (Bool-cases (hsize == length b)) [
    | inl e ↦ inl (rw (f, e), no_bytes f (ground arith))
    | inr e ↦
        let (x, g) = get_elem?_in b (length b - 1) (ground arith) in
        elim (Bool-cases (x == 0)) [
          | inl z ↦ inl (rw (f, e, g, z), bad_size x f g (inl (ground arith)))
          | inr z ↦ elim (Bool-cases (ltb (length b - hsize) x)) [
            | inl l ↦ inl (rw (f, e, g, z, l), bad_size x f g (inr (ground arith)))
            | inr l ↦ inr (x, rw (f, e, g, z, l), ground arith, padded x f g (ground arith))
          ]
        ]
  ]
  | inr f ↦ inr (0, rw f, omega arith, unpadded f)
]

pub extension_data_size_in :
    (b : List ℕ) (i : ℕ)
    → i + 4 ≤ length b
    → (x : ℕ) × (read16 b (i + 2) ≡ some x) × (extension_data_size b i ≡ some (x * 4))
unfolding extension_data_size
extension_data_size_in b i h =
    let (x, e) = read16_in b (i + 2) (omega arith) in (x, e, rw (e, extension_data_size))

pub read_header_in : (b : List ℕ) → 12 ≤ length b → (h : Header) × (read_header b ≡ some h)
unfolding read_header
read_header_in b k =
    let (f, e₁) = get_elem?_in b 0 (omega arith) in
    let (m, e₂) = get_elem?_in b 1 (omega arith) in
    let (sn, e₃) = read16_in b 2 (omega arith) in
    let (ts, e₄) = read32_in b 4 (omega arith) in
    let (ss, e₅) = read32_in b 8 (omega arith) in
    (record { flags = f; mpt = m; seqnum = sn; timestamp = ts; ssrc = ss }, rw (e₁, e₂, e₃, e₄, e₅))

-- What stands behind the payload, and the slice that is set to it.
padding_range_fits :
    (b : List ℕ) (m n : ℕ) (old : Slice)
    → m + n ≡ length b
    → (s : Slice) × (padding_range b m n old ≡ some s)
      × (((take (length b - m) (drop m b) ≡ []) × (s ≡ old))
          ⊎ (s ≡ some (take (length b - m) (drop m b))))
unfolding padding_range
padding_range_fits b m n old e = elim (Bool-cases (n == 0)) [
  | inl z ↦ let k : length b - m ≡ 0 = ground arith in (old, rw z, inl (rw k refl, refl))
  | inr z ↦
      let k : m + n - m ≡ length b - m = omega arith in
      (
        some (take (length b - m) (drop m b)),
        rw (z, range_in b m (m + n) (omega arith) (omega arith), k),
        inr refl,
      )
]

Option-format :
    (formats : FormatMap) (pt : ℕ)
    → (format formats pt ≡ none) ⊎ ((f : Format) × (format formats pt ≡ some f))
Option-format formats pt = Option-cases (format formats pt)

-- The payload of `b` between `hsize` bytes of headers and `n` bytes of padding.
abbrev pub payload_of : List ℕ → ℕ → ℕ → List ℕ
payload_of b hsize n = take (length b - n - hsize) (drop hsize b)

abbrev pub padding_of : List ℕ → ℕ → List ℕ
padding_of b n = take (length b - (length b - n)) (drop (length b - n) b)

abbrev pub filled : Rtp → List ℕ → Header → ℕ → ℕ → Slice → ℕ → Rtp
filled r b h hsize n padding duration = record r {
  source = h.ssrc;
  seqnum = h.seqnum;
  timestamp = h.timestamp;
  duration = duration;
  marker = marker h;
  payload_type = payload_type h;
  header = some (take hsize b);
  payload = some (payload_of b hsize n);
  padding = padding;
}

-- `q` has the fields of the header `h` and the slices of `b`; its padding is that of `p` if `b` has
-- none.
pub record IsFilled (p : Packet) (b : List ℕ) (h : Header) (hsize n : ℕ) (q : Packet) : Type 0 where
  pub padding : Slice
  pub duration : ℕ
  pub fields : q.rtp_part ≡ filled p.rtp_part b h hsize n padding duration
  pub padding_slice :
      ((padding_of b n ≡ []) × (padding ≡ p.rtp_part.padding)) ⊎ (padding ≡ some (padding_of b n))

module _ (formats : FormatMap) (inner : InnerParser) (p : Packet) (free : FlagsFree formats p) where
  apply_format_kept :
      (pt : ℕ) (payload : List ℕ) (q : Packet)
      → q.flags ≡ bit_or p.flags flag_rtp
      → (r : Packet) × (d : ℕ) × (apply_format (format formats pt) payload q ≡ some r)
        × (r.rtp_part ≡ record q.rtp_part { duration = d })
  unfolding apply_format add_flags
  apply_format_kept pt payload q e = elim (Option-format formats pt) [
    | inl n ↦ (q, q.rtp_part.duration, rw (n, apply_format), refl)
    | inr (f, n) ↦
        let z : (bit_and q.flags f.flags == 0) ≡ true = rw (e, free.format_free pt f n) refl in
        let d = f.get_num_samples (length payload) % u32_mod in
        (
          record q {
            flags = bit_or q.flags f.flags;
            rtp_part = record q.rtp_part { duration = d };
          },
          d,
          rw (n, apply_format, z),
          refl,
        )
  ]

  pub fill_packet-IsFilled :
      (b : List ℕ) (h : Header) (hsize n : ℕ)
      → hsize + n ≤ length b
      → (q : Packet) × (fill_packet formats inner p b h hsize n
          ≡ run_inner inner q (payload_of b hsize n))
        × IsFilled p b h hsize n q
  unfolding fill_packet add_flags
  fill_packet-IsFilled b h hsize n fits =
      let z : (bit_and p.flags flag_rtp == 0) ≡ true = rw free.rtp_free refl in
      let (padding, c, s) =
        padding_range_fits b (length b - n) n p.rtp_part.padding (omega arith) in
      let (q, d, e, k) =
        apply_format_kept (payload_type h) (payload_of b hsize n)
          (record p {
            flags = bit_or p.flags flag_rtp;
            rtp_part = filled p.rtp_part b h hsize n padding p.rtp_part.duration;
          })
          refl in
      (
        q,
        rw (
          z,
          fill_packet,
          range_front b hsize (omega arith),
          range_in b hsize (length b - n) (omega arith) (omega arith),
          c,
          e,
        ),
        record { padding = padding; duration = d; fields = k; padding_slice = s },
      )
