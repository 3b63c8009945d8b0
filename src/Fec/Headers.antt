-- ===== src/Fec/Headers.antt =====
-- src/modules/roc_fec/headers.h: the payload ids of the three formats. A class of the source is a
-- constructor of PayloadIdFormat, and an object of it a record with what its getters give.
use roc.Prelude.{
  ℕ, ◌+◌, ◌*◌, ◌/◌, ◌%◌, ◌^◌, Option, none, some, List, ◌∷◌, ◌++◌, ltb, if◌then◌else◌, get_elem?,
  read16, write16, ◌>>=◌,
}
use roc.Packet.Types.{FecScheme, reed_solomon_m8, ldpc_staircase}

pub data PayloadIdType : Type 0 where
  source_type repair_type : PayloadIdType

pub data PayloadIdPos : Type 0 where
  at_header at_footer : PayloadIdPos

pub data PayloadIdFormat : Type 0 where
  ldpc_source ldpc_repair rsm8 : PayloadIdFormat

pub record PayloadId : Type 0 where
  pub sbn : ℕ
  pub esi : ℕ
  pub k : ℕ
  pub n : ℕ

unfoldable pub sizeof_payload_id : PayloadIdFormat → ℕ
sizeof_payload_id ldpc_source = 6
sizeof_payload_id ldpc_repair = 8
sizeof_payload_id rsm8 = 6

unfoldable pub fec_scheme : PayloadIdFormat → FecScheme
fec_scheme ldpc_source = ldpc_staircase
fec_scheme ldpc_repair = ldpc_staircase
fec_scheme rsm8 = reed_solomon_m8

-- The payload id at the start of these bytes; `none` if they are too few.
unfoldable pub read_payload_id : PayloadIdFormat → List ℕ → Option PayloadId
unfolding read16
read_payload_id ldpc_source b = do
  sbn ← read16 b 0
  esi ← read16 b 2
  k ← read16 b 4
  some (record { sbn = sbn; esi = esi; k = k; n = 0 })
read_payload_id ldpc_repair b = do
  sbn ← read16 b 0
  esi ← read16 b 2
  k ← read16 b 4
  n ← read16 b 6
  some (record { sbn = sbn; esi = esi; k = k; n = n })
read_payload_id rsm8 b = do
  x ← get_elem? b 0
  y ← get_elem? b 1
  z ← get_elem? b 2
  esi ← get_elem? b 3
  k ← read16 b 4
  some (record { sbn = x * 65536 + y * 256 + z; esi = esi; k = k; n = 255 })

-- The bytes after `clear` and the setters; `none` is a panic of a setter. Arguments are in the ranges
-- of the setters' types.
unfoldable pub write_payload_id : PayloadIdFormat → PayloadId → Option (List ℕ)
unfolding write16
write_payload_id ldpc_source v = some (write16 v.sbn ++ (write16 v.esi ++ write16 v.k))
write_payload_id ldpc_repair v =
    some (write16 v.sbn ++ (write16 v.esi ++ (write16 v.k ++ write16 v.n)))
write_payload_id rsm8 v =
    if ltb v.esi (2 ^ 8)
    then (if ltb v.sbn (2 ^ 24)
        then some
            ((v.sbn / 65536 % 256) ∷ (v.sbn / 256 % 256) ∷ (v.sbn % 256) ∷ v.esi ∷ write16 v.k)
        else none)
    else none
