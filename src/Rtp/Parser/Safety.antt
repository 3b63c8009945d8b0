-- ===== src/Rtp/Parser/Safety.antt =====
-- The RTP parser on any datagram: it reads nothing outside the buffer, does not panic, and cuts
-- what it accepts into header, payload and padding.
use roc.Prelude.{
  ℕ, ◌+◌, ◌-◌, ◌*◌, ◌≤◌, ◌<◌, ◌≡◌, ◌≢◌, ◌⊎◌, inl, inr, true, false, read16, some, List, ◌++◌, ltb,
  ◌==◌, length, arith, take, tile, Bool-cases,
}
use roc.Packet.Types.{Packet}
use roc.Rtp.Headers.{Header, version, has_extension, header_size, read_header}
use roc.Rtp.Formats.{FormatMap}
use roc.Rtp.Parser.{Outcome, InnerParser, run_inner, parse_payload, parse_extension, parse}
use roc.Rtp.Parser.Fill.{
  FlagsFree, IsFilled, Padded, BadPadding, payload_of, padding_of, padding_size_fits,
  extension_data_size_in, read_header_in, fill_packet-IsFilled,
}

-- How many bytes come before the payload: the header with its sources, and the extension, whose header
-- says how many words follow it.
pub data Headed (h : Header) (b : List ℕ) : ℕ → Type 0 where
  plain : has_extension h ≡ false → Headed h b (header_size h)
  extended :
      (x : ℕ)
      → has_extension h ≡ true
      → read16 b (header_size h + 2) ≡ some x
      → Headed h b (header_size h + 4 + x * 4)

-- The ways in which a datagram with a header of version 2 is cut short.
pub data Truncated (h : Header) (b : List ℕ) : Type 0 where
  no_extension : has_extension h ≡ true → length b < header_size h + 4 → Truncated h b
  headers_cut : (hsize : ℕ) → Headed h b hsize → length b < hsize → Truncated h b
  padding_cut :
      (hsize : ℕ) → Headed h b hsize → hsize ≤ length b → BadPadding h b hsize → Truncated h b

-- Too short for a header, of another version, or cut short behind the header.
abbrev pub Malformed : List ℕ → Type 0
Malformed b =
    (length b < 12) ⊎ ((h : Header) × (read_header b ≡ some h) × ((version h ≢ 2) ⊎ Truncated h b))

module _ (formats : FormatMap) (inner : InnerParser) (p : Packet) (free : FlagsFree formats p) where
  -- The packet is rejected as it came, or cut and handed to the inner parser.
  abbrev Parses : List ℕ → Header → Outcome → Type 0
  Parses b h out =
      ((out ≡ some (false, p)) × Truncated h b)
      ⊎ ((hsize : ℕ) × (n : ℕ) × (q : Packet) × (hsize + n ≤ length b)
          × Headed h b hsize
          × Padded h b n
          × (out ≡ run_inner inner q (payload_of b hsize n))
          × IsFilled p b h hsize n q)

  parse_payload-Parses :
      (b : List ℕ) (h : Header) (hsize : ℕ)
      → Headed h b hsize
      → Parses b h (parse_payload formats inner p b h hsize)
  unfolding parse_payload
  parse_payload-Parses b h hsize d = elim (Bool-cases (ltb (length b) hsize)) [
    | inl l ↦ inl (rw l, headers_cut hsize d (ground arith))
    | inr l ↦ elim (padding_size_fits h b hsize (ground arith)) [
      | inl (e, bad) ↦ inl (rw (l, e), padding_cut hsize d (ground arith) bad)
      | inr (n, e, k, pad) ↦
          let (q, r, f) = fill_packet-IsFilled formats inner p free b h hsize n k in
          rw (l, parse_payload, e) (inr (hsize, n, q, k, d, pad, r, f))
    ]
  ]

  parse_extension-Parses :
      (b : List ℕ) (h : Header) → Parses b h (parse_extension formats inner p b h)
  unfolding parse_extension
  parse_extension-Parses b h = elim (Bool-cases (has_extension h)) [
    | inl x ↦ elim (Bool-cases (ltb (length b) (header_size h + 4))) [
      | inl l ↦ inl (rw (x, l), no_extension x (ground arith))
      | inr l ↦
          let (n, r, e) = extension_data_size_in b (header_size h) (ground arith) in
          rw (x, l, parse_extension, e)
            (parse_payload-Parses b h (header_size h + 4 + n * 4) (extended n x r))
    ]
    | inr x ↦ elim (Bool-cases (ltb (length b) (header_size h))) [
      | inl l ↦ inl (rw (x, l), headers_cut (header_size h) (plain x) (ground arith))
      | inr l ↦ rw (x, l) (parse_payload-Parses b h (header_size h) (plain x))
    ]
  ]

  abbrev pub Accepts : List ℕ → Outcome → Type 0
  Accepts b out =
      (h : Header) × (hsize : ℕ) × (n : ℕ) × (q : Packet) × (read_header b ≡ some h)
      × (version h ≡ 2)
      × Headed h b hsize
      × Padded h b n
      × (hsize + n ≤ length b)
      × (out ≡ run_inner inner q (payload_of b hsize n))
      × IsFilled p b h hsize n q
      × (b ≡ take hsize b ++ (payload_of b hsize n ++ padding_of b n))

  -- For every datagram, and a packet that has none of the flags which the parser adds: a datagram that
  -- is too short for a header, of another version than 2, or too short for its sources, extension or
  -- padding, or whose padding is said to be of no bytes, is rejected and leaves the packet as it was. Any
  -- other datagram sets the fields of the packet to those of its header, and its slices to the headers,
  -- the payload and the padding that together are the datagram, in this order: the headers are the
  -- header with its sources and the extension, of as many words as that says, and the padding is none
  -- without the flag and else of as many bytes as the last one says. The parser then returns what the
  -- inner parser returns for that payload. It never panics by itself and never reads outside the datagram.
  pub parse-Accepts :
      (b : List ℕ)
      → ((parse formats inner p b ≡ some (false, p)) × Malformed b)
        ⊎ Accepts b (parse formats inner p b)
  unfolding parse
  parse-Accepts b = elim (Bool-cases (ltb (length b) 12)) [
    | inl l ↦ inl (rw l, inl (ground arith))
    | inr l ↦
        let (h, e) = read_header_in b (ground arith) in
        elim (Bool-cases (version h == 2)) [
          | inl v ↦
              let k : parse formats inner p b ≡ parse_extension formats inner p b h =
                rw (l, parse, e, v) in
              rw k (whole b h e (ground arith) (parse_extension-Parses b h))
          | inr v ↦ inl (rw (l, parse, e, v), inr (h, e, inl (ground arith)))
        ]
  ]
    where
      whole :
          (b : List ℕ) (h : Header)
          → read_header b ≡ some h
          → version h ≡ 2
          → Parses b h (parse_extension formats inner p b h)
          → ((parse_extension formats inner p b h ≡ some (false, p)) × Malformed b)
            ⊎ Accepts b (parse_extension formats inner p b h)
      whole b h e v (inl (r, t)) = inl (r, inr (h, e, inr t))
      whole b h e v (inr (hsize, n, q, k, d, pad, r, f)) = inr (
        h,
        hsize,
        n,
        q,
        e,
        v,
        d,
        pad,
        k,
        r,
        f,
        tile hsize (length b - n) b (omega arith) (omega arith),
      )
