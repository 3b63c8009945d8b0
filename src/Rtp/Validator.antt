-- ===== src/Rtp/Validator.antt =====
-- src/modules/roc_rtp/validator.cpp. `timestamp_to_ns` computes in floating point and is a parameter.
-- The outer `none` is undefined behaviour: the negation of the least 32-bit difference.
pub mod Stream
use roc.Prelude.{
  ℕ, ◌-◌, ◌^◌, Bool, true, false, Option, none, some, ℤ, pos, negsuc, is_neg, ltb, ◌==◌, not,
  if◌then◌else◌, ◌>>=◌, ◌&&◌,
}
use roc.Packet.Units.{u64_mod, seqnum_diff, timestamp_diff}
use roc.Packet.Types.{Packet, Rtp, rtp, rtp_compare}
use roc.Packet.Reader.{IReader}

pub record ValidatorConfig : Type 0 where
  pub max_sn_jump : ℕ
  pub max_ts_jump : ℕ

-- `sn_dist` after its sign was changed if negative, converted to `size_t`. The least `int16_t` has no
-- opposite and is converted as it is.
unfoldable pub sn_distance : ℤ → ℕ
sn_distance (pos n) = n
sn_distance (negsuc n) = if n == 2 ^ 15 - 1 then u64_mod - 2 ^ 15 else Prim.Native.Nat.suc n

unfoldable pub ts_distance : ℤ → Option ℕ
ts_distance (pos n) = some n
ts_distance (negsuc n) = if n == 2 ^ 31 - 1 then none else some (Prim.Native.Nat.suc n)

module _ (timestamp_to_ns : ℕ → ℕ) where
  unfoldable pub check : ValidatorConfig → Rtp → Rtp → Option Bool
  check config prev next =
      if not (prev.source == next.source)
      then some false
      else if not (next.payload_type == prev.payload_type)
      then some false
      else if ltb config.max_sn_jump (sn_distance (seqnum_diff next.seqnum prev.seqnum))
      then some false
      else (do
        ts_dist ← ts_distance (timestamp_diff next.timestamp prev.timestamp)
        some (not (ltb config.max_ts_jump (timestamp_to_ns ts_dist))))

  -- `prev_packet_` after a packet that is let through.
  unfoldable pub next_prev : Option Rtp → Packet → Rtp → Option Packet → Option Packet
  next_prev none p next prev = some p
  next_prev (some r) p next prev = if is_neg (rtp_compare r next) then some p else prev

  unfoldable pub passes : ValidatorConfig → Option Rtp → Rtp → Option Bool
  passes config none next = some true
  passes config (some r) next = check config r next

  abbrev pub prev_rtp : Option Packet → Option Rtp
  prev_rtp none = none
  prev_rtp (some p) = rtp p

  abbrev pub admit : Option Packet → Packet → Rtp → Bool → Option Packet × Option Packet
  admit prev p next true = (some p, next_prev (prev_rtp prev) p next prev)
  admit prev p next false = (none, prev)

  -- `read` behind the packet that the inner reader gave: what it returns and `prev_packet_` then.
  unfoldable pub validate :
      ValidatorConfig → Option Packet → Option Packet → Option (Option Packet × Option Packet)
  validate config prev none = some (none, prev)
  validate config prev (some p) = elim (rtp p) [
    | none ↦ some (none, prev)
    | some next ↦ (passes config (prev_rtp prev) next) >>= (λ b. some (admit prev p next b))
  ]

  module _ (r : IReader) where
    pub record Validator : Type 0 where
      pub reader : r.State
      pub prev_packet : Option Packet
      pub config : ValidatorConfig

    unfoldable pub read : Validator → Option (Option Packet × Validator)
    read v = do
      o ← validate v.config v.prev_packet (r.read v.reader).0
      some (o.0, record v { reader = (r.read v.reader).1; prev_packet = o.1 })
