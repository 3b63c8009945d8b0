-- ===== src/Rtp/Headers.antt =====
-- src/modules/roc_rtp/headers.h: the fields of the RTP header. A field is a number below its range;
-- shifts and masks are written as products, quotients and remainders.
use roc.Prelude.{
  ℕ, ◌+◌, ◌-◌, ◌*◌, ◌/◌, ◌%◌, ◌^◌, Bool, Option, none, some, List, ◌++◌, ◌∷◌, ltb, ◌==◌, not,
  if◌then◌else◌, get_elem?, read16, read32, write16, write32, ◌>>=◌,
}

abbrev pub rtp_v2 : ℕ
rtp_v2 = 2

abbrev pub payload_type_l16_stereo : ℕ
payload_type_l16_stereo = 10

abbrev pub payload_type_l16_mono : ℕ
payload_type_l16_mono = 11

-- sizeof(Header) and sizeof(ExtentionHeader)
abbrev pub sizeof_header : ℕ
sizeof_header = 12

abbrev pub sizeof_extension : ℕ
sizeof_extension = 4

pub record Header : Type 0 where
  pub flags : ℕ
  pub mpt : ℕ
  pub seqnum : ℕ
  pub timestamp : ℕ
  pub ssrc : ℕ

abbrev pub clear : Header
clear = record { flags = 0; mpt = 0; seqnum = 0; timestamp = 0; ssrc = 0 }

unfoldable pub version : Header → ℕ
version h = h.flags / 2 ^ 6 % 2 ^ 2

-- `none` is the panic on a version that does not fit its two bits.
unfoldable pub set_version : ℕ → Header → Option Header
set_version v h =
    if ltb v (2 ^ 2) then some (record h { flags = h.flags % 2 ^ 6 + v * 2 ^ 6 }) else none

unfoldable pub has_padding : Header → Bool
has_padding h = not (h.flags / 2 ^ 5 % 2 == 0)

unfoldable pub set_padding : Bool → Header → Header
set_padding v h = record h {
  flags = h.flags - h.flags / 2 ^ 5 % 2 * 2 ^ 5 + (if v then 1 else 0) * 2 ^ 5;
}

unfoldable pub has_extension : Header → Bool
has_extension h = not (h.flags / 2 ^ 4 % 2 == 0)

unfoldable pub num_csrc : Header → ℕ
num_csrc h = h.flags % 2 ^ 4

unfoldable pub header_size : Header → ℕ
unfolding num_csrc
header_size h = sizeof_header + num_csrc h * 4

unfoldable pub payload_type : Header → ℕ
payload_type h = h.mpt % 2 ^ 7

-- `none` is the panic on a type that does not fit its seven bits.
unfoldable pub set_payload_type : ℕ → Header → Option Header
set_payload_type pt h =
    if ltb pt (2 ^ 7) then some (record h { mpt = h.mpt / 2 ^ 7 * 2 ^ 7 + pt }) else none

unfoldable pub marker : Header → Bool
marker h = not (h.mpt / 2 ^ 7 % 2 == 0)

unfoldable pub set_marker : Bool → Header → Header
set_marker m h = record h { mpt = h.mpt % 2 ^ 7 + (if m then 1 else 0) * 2 ^ 7 }

-- The header at the start of a buffer; `none` if it is shorter than a header.
unfoldable pub read_header : List ℕ → Option Header
unfolding read16 read32
read_header b = do
  flags ← get_elem? b 0
  mpt ← get_elem? b 1
  seqnum ← read16 b 2
  timestamp ← read32 b 4
  ssrc ← read32 b 8
  some (record { flags = flags; mpt = mpt; seqnum = seqnum; timestamp = timestamp; ssrc = ssrc })

unfoldable pub write_header : Header → List ℕ
unfolding write16 write32
write_header h = h.flags ∷ h.mpt ∷ (write16 h.seqnum ++ (write32 h.timestamp ++ write32 h.ssrc))

-- The size of the data behind an extension header, which starts at `i`.
unfoldable pub extension_data_size : List ℕ → ℕ → Option ℕ
unfolding read16
extension_data_size b i = do len ← read16 b (i + 2); some (len * 4)
