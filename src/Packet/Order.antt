-- ===== src/Packet/Order.antt =====
-- The order of sequence numbers, and of packets whose sequence numbers lie in one half of the circle.
use roc.Prelude.{
  ℕ, ◌+◌, ◌-◌, ◌%◌, ◌^◌, ◌<◌, ◌≡◌, true, false, arith, ltb, ◌==◌, if◌then◌else◌, ℤ, pos, negsuc,
}
use roc.Packet.Units.{u16_mod, seqnum_lt}
use roc.Packet.Types.{Packet, compare, flag_rtp}
use Prim.Native.Nat.{bit_and}

-- How far `a` lies past `base`, going round.
abbrev pub past : ℕ → ℕ → ℕ
past base a = (a + u16_mod - base) % u16_mod

-- A sequence number precedes each of the 2^15 - 1 that follow it, and none of the 2^15 - 1 before
-- it, whether or not the numbers wrap between them.
pub seqnum_lt-past :
    (a k : ℕ)
    → a < u16_mod
    → 0 < k
    → k < 2 ^ 15
    → (seqnum_lt a ((a + k) % u16_mod) ≡ true) × (seqnum_lt ((a + k) % u16_mod) a ≡ false)
unfolding seqnum_lt
seqnum_lt-past a k ha hk hl = ground arith

pub window_lt :
    (base a b : ℕ)
    → base < u16_mod
    → a < u16_mod
    → b < u16_mod
    → past base a < 2 ^ 15
    → past base b < 2 ^ 15
    → seqnum_lt a b ≡ ltb (past base a) (past base b)
unfolding seqnum_lt
window_lt base a b h0 ha hb wa wb = ground arith

pub window_eq :
    (base a b : ℕ)
    → base < u16_mod
    → a < u16_mod
    → b < u16_mod
    → (a == b) ≡ (past base a == past base b)
window_eq base a b h0 ha hb = ground arith

-- An RTP packet whose sequence number lies in the half circle that starts at `base`.
pub record InWindow (base : ℕ) (p : Packet) : Type 0 where
  pub has_rtp : (bit_and p.flags flag_rtp == 0) ≡ false
  pub fits : p.rtp_part.seqnum < u16_mod
  pub near : past base p.rtp_part.seqnum < 2 ^ 15

abbrev pub rank : ℕ → Packet → ℕ
rank base p = past base p.rtp_part.seqnum

-- Within a window the order of packets is that of a number.
abbrev pub rank_compare : ℕ → ℕ → ℤ
rank_compare a b = if ltb a b then negsuc 0 else if a == b then pos 0 else pos 1

-- Two packets of one window compare as their distances from its start do.
pub compare-rank :
    (base : ℕ) (p q : Packet)
    → base < u16_mod
    → InWindow base p
    → InWindow base q
    → compare p q ≡ rank_compare (rank base p) (rank base q)
unfolding compare
compare-rank base p q hb wp wq = ground (
  arith,
  window_lt base p.rtp_part.seqnum q.rtp_part.seqnum hb wp.fits wq.fits wp.near wq.near,
  window_eq base p.rtp_part.seqnum q.rtp_part.seqnum hb wp.fits wq.fits,
)
