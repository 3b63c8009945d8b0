-- ===== src/Rtp/Composer/Wire.antt =====
-- The header that the composer writes, and how the parser reads the bytes of a composed packet.
use mathlib.Core.List.{append_assoc}
use roc.Prelude.{
  ℕ, ◌+◌, ◌-◌, ◌^◌, ◌<◌, ◌≡◌, refl, Bool, true, false, none, some, List, [], ◌∷◌, ◌++◌, ltb, ◌==◌,
  length, get_elem?, arith, take, drop, replicate, read16, read32, write16, write32, length-append,
  length-replicate, take-append, drop-append,
}
use roc.Packet.Types.{Packet, Rtp}
use roc.Rtp.Headers.{
  Header, version, has_extension, has_padding, header_size, marker, payload_type, read_header,
  write_header, set_version, set_padding, set_payload_type, set_marker,
}
use roc.Rtp.Formats.{FormatMap}
use roc.Rtp.Parser.{parse, parse_extension, parse_payload, fill_packet, padding_size}
use roc.Rtp.Parser.Fill.{FlagsFree, payload_of}
use roc.Rtp.Composer.{compose_header, padding_bytes}

pub read-write_header :
    (h : Header) (rest : List ℕ)
    → h.seqnum < 2 ^ 16
    → h.timestamp < 2 ^ 32
    → h.ssrc < 2 ^ 32
    → read_header (write_header h ++ rest) ≡ some h
unfolding read_header write_header read16 read32 write16 write32
read-write_header h rest hs ht hr = ground arith

-- What `compose_header` puts into the header.
pub record IsHeaderOf (r : Rtp) (flags : ℕ) (h : Header) : Type 0 where
  pub flag_bits : h.flags ≡ flags
  pub seqnum_kept : h.seqnum ≡ r.seqnum
  pub timestamp_kept : h.timestamp ≡ r.timestamp
  pub ssrc_kept : h.ssrc ≡ r.source
  pub type_kept : payload_type h ≡ r.payload_type
  pub marker_kept : marker h ≡ r.marker

abbrev pub bit : Bool → ℕ
bit false = 0
bit true = 128

abbrev pub composed : Rtp → Header
composed r = record {
  flags = 128;
  mpt = bit r.marker + r.payload_type;
  seqnum = r.seqnum;
  timestamp = r.timestamp;
  ssrc = r.source;
}

pub compose_header-composed :
    (r : Rtp) (m : Bool)
    → r.marker ≡ m
    → r.payload_type < 128
    → compose_header r ≡ some (composed r)
unfolding compose_header set_version set_payload_type set_marker
compose_header-composed r true e h = ground arith
compose_header-composed r false e h = ground arith

pub composed-IsHeaderOf :
    (r : Rtp) (m : Bool) → r.marker ≡ m → r.payload_type < 128 → IsHeaderOf r 128 (composed r)
unfolding marker payload_type
composed-IsHeaderOf r true e h = ground arith
composed-IsHeaderOf r false e h = ground arith

pub set_padding-IsHeaderOf :
    (r : Rtp) (h : Header) → IsHeaderOf r 128 h → IsHeaderOf r 160 (set_padding true h)
unfolding set_padding marker payload_type
set_padding-IsHeaderOf r h v = ground (arith, v)

pub length-write_header : (h : Header) → length (write_header h) ≡ 12
unfolding write_header write16 write32
length-write_header h = refl

-- The bytes of a packet with an RTP header, a payload and a padding.
abbrev pub wire : Header → List ℕ → List ℕ → List ℕ
wire h payload padding = write_header h ++ (payload ++ padding)

pub length-wire :
    (h : Header) (payload padding : List ℕ)
    → length (wire h payload padding) ≡ 12 + (length payload + length padding)
length-wire h payload padding = omega (
  arith,
  length-append {0} (write_header h) (payload ++ padding),
  length-append {0} payload padding,
  length-write_header h,
)

pub take_front : (a b : List ℕ) (n : ℕ) → n ≡ length a → take n (a ++ b) ≡ a
take_front a b n e = rw e (take-append a b)

pub drop_front : (a b : List ℕ) (n : ℕ) → n ≡ length a → drop n (a ++ b) ≡ b
drop_front a b n e = rw e (drop-append a b)

pub payload_of-wire :
    (h : Header) (payload padding : List ℕ)
    → payload_of (wire h payload padding) 12 (length padding) ≡ payload
payload_of-wire h payload padding =
    rw (drop_front (write_header h) (payload ++ padding) 12 (omega (arith, length-write_header h)))
      (take_front payload padding _ (omega (arith, length-wire h payload padding)))

-- A header without extension or contributing sources, with the padding flag `padded`.
pub record IsPlain (padded : Bool) (h : Header) : Type 0 where
  pub v2 : (version h == 2) ≡ true
  pub no_extension : has_extension h ≡ false
  pub plain_size : header_size h ≡ 12
  pub padding_flag : has_padding h ≡ padded

pub flags-IsPlain : (h : Header) → h.flags ≡ 128 → IsPlain false h
unfolding version has_extension header_size has_padding
flags-IsPlain h e = ground arith

pub padded-IsPlain : (h : Header) → h.flags ≡ 160 → IsPlain true h
unfolding version has_extension header_size has_padding
padded-IsPlain h e = ground arith

pub get_elem?-last : (xs : List ℕ) (v : ℕ) → get_elem? (xs ++ (v ∷ [])) (length xs) ≡ some v
get_elem?-last [] v = refl
get_elem?-last (x ∷ xs) v = get_elem?-last xs v

pub last-padding_bytes :
    (a : List ℕ) (n : ℕ)
    → 0 < n
    → get_elem? (a ++ padding_bytes n) (length (a ++ padding_bytes n) - 1) ≡ some n
unfolding padding_bytes
last-padding_bytes a n h = rw (← append_assoc) (
    let k : length ((a ++ replicate (n - 1) 0) ++ (n ∷ [])) - 1
        ≡ length (a ++ replicate (n - 1) 0) =
      omega (arith, length-append {0} (a ++ replicate (n - 1) 0) (n ∷ [])) in
    rw k (get_elem?-last (a ++ replicate (n - 1) 0) n))

pub length-padding_bytes : (n : ℕ) → 0 < n → length (padding_bytes n) ≡ n
unfolding padding_bytes
length-padding_bytes n h = omega (
  arith,
  length-append {0} (replicate (n - 1) 0) (n ∷ []),
  length-replicate {0} {A = ℕ} (n - 1) 0,
)

pub padding_size-wire :
    (h : Header) (payload : List ℕ) (n : ℕ)
    → IsPlain true h
    → 0 < n
    → padding_size h (wire h payload (padding_bytes n)) 12 ≡ some (some n)
unfolding padding_size
padding_size-wire h payload n plain k = ground (
  arith,
  plain,
  length-wire h payload (padding_bytes n),
  length-padding_bytes n k,
  last-padding_bytes (write_header h ++ payload) n k,
  append_assoc (write_header h) payload (padding_bytes n),
)

module _ (formats : FormatMap) (fresh : Packet) (free : FlagsFree formats fresh) (h : Header)
    (hs : h.seqnum < 2 ^ 16) (ht : h.timestamp < 2 ^ 32) (hr : h.ssrc < 2 ^ 32) where
  pub parse-wire :
      (padded : Bool) (payload padding : List ℕ)
      → IsPlain padded h
      → padding_size h (wire h payload padding) 12 ≡ some (some (length padding))
      → parse formats none fresh (wire h payload padding)
        ≡ fill_packet formats none fresh (wire h payload padding) h 12 (length padding)
  unfolding parse parse_extension parse_payload
  parse-wire padded payload padding plain e =
      let l : ltb (length (wire h payload padding)) 12 ≡ false =
        ground (arith, length-wire h payload padding) in
      rw
        (
          l,
          parse,
          read-write_header h (payload ++ padding) hs ht hr,
          plain.v2,
          plain.no_extension,
          plain.plain_size,
          l,
          e,
        )
        (rw plain.plain_size)
