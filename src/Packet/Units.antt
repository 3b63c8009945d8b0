-- ===== src/Packet/Units.antt =====
-- src/modules/roc_packet/units.h: sequence numbers, timestamps and block numbers that wrap around,
-- and the channel mask.
use roc.Prelude.{ℕ, zero, suc, ◌+◌, ◌-◌, ◌%◌, ◌/◌, ◌^◌, Bool}
use roc.Prelude.Tests.{◌==◌, if◌then◌else◌}
use roc.Prelude.Int.{ℤ, to_signed, is_neg, is_nonpos}

abbrev pub u16_mod : ℕ
u16_mod = 2 ^ 16

abbrev pub u32_mod : ℕ
u32_mod = 2 ^ 32

abbrev pub u64_mod : ℕ
u64_mod = 2 ^ 64

-- int16_t(a - b)
unfoldable pub seqnum_diff : ℕ → ℕ → ℤ
seqnum_diff a b = to_signed (2 ^ 15) u16_mod ((a + u16_mod - b) % u16_mod)

unfoldable pub seqnum_lt : ℕ → ℕ → Bool
unfolding seqnum_diff
seqnum_lt a b = is_neg (seqnum_diff a b)

unfoldable pub seqnum_le : ℕ → ℕ → Bool
unfolding seqnum_diff
seqnum_le a b = is_nonpos (seqnum_diff a b)

-- int32_t(a - b)
unfoldable pub timestamp_diff : ℕ → ℕ → ℤ
timestamp_diff a b = to_signed (2 ^ 31) u32_mod ((a + u32_mod - b) % u32_mod)

unfoldable pub timestamp_lt : ℕ → ℕ → Bool
unfolding timestamp_diff
timestamp_lt a b = is_neg (timestamp_diff a b)

unfoldable pub timestamp_le : ℕ → ℕ → Bool
unfolding timestamp_diff
timestamp_le a b = is_nonpos (timestamp_diff a b)

unfoldable pub blknum_diff : ℕ → ℕ → ℤ
blknum_diff a b = to_signed (2 ^ 15) u16_mod ((a + u16_mod - b) % u16_mod)

unfoldable pub blknum_lt : ℕ → ℕ → Bool
unfolding blknum_diff
blknum_lt a b = is_neg (blknum_diff a b)

unfoldable pub blknum_le : ℕ → ℕ → Bool
unfolding blknum_diff
blknum_le a b = is_nonpos (blknum_diff a b)

-- The loop of `num_channels`, a round for each bit of the 32-bit mask that is left; it stops by
-- itself once no bit is left, which the rounds given outlast.
pub count_channels : ℕ → ℕ → ℕ → ℕ
count_channels zero mask n_ch = n_ch
count_channels (suc rounds) mask n_ch =
    let rest = count_channels rounds (mask / 2) (n_ch + mask % 2) in
    if mask == 0 then n_ch else rest

unfoldable pub num_channels : ℕ → ℕ
unfolding count_channels
num_channels ch_mask = count_channels 32 ch_mask 0
