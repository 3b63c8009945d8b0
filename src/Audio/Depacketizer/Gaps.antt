-- ===== src/Audio/Depacketizer/Gaps.antt =====
-- The gap before a packet: how many samples are missing, and where it ends. Every number of samples
-- is for each channel, and a buffer holds them for all channels.
use native.Mathlib.Nat.{mul-le-mul_left, mul-le-mul_right, mul_comm}
use roc.Prelude.{
  ℕ, ◌+◌, ◌-◌, ◌*◌, ◌^◌, ◌%◌, ◌≤◌, ◌<◌, ◌≡◌, ◌⊎◌, inl, inr, true, arith, min, ltb, Bool-cases,
}
use roc.Packet.Units.{u32_mod, u64_mod, timestamp_lt, timestamp_diff}
use roc.Audio.Depacketizer.{to_size}

abbrev pub gap : ℕ → ℕ → ℕ
gap next ts = to_size (timestamp_diff next ts)

gap_cases :
    (next ts : ℕ)
    → next < u32_mod
    → ts < u32_mod
    → timestamp_lt ts next ≡ true
    → ((gap next ts < 2 ^ 31) × ((ts + gap next ts) % u32_mod ≡ next))
      ⊎ (gap next ts ≡ u64_mod - 2 ^ 31)
unfolding timestamp_lt timestamp_diff
gap_cases next ts hn ht h = ground arith

pub gap-partly :
    (next ts n : ℕ)
    → next < u32_mod
    → ts < u32_mod
    → timestamp_lt ts next ≡ true
    → n ≤ gap next ts
    → n < 2 ^ 31
    → ((ts + n) % u32_mod ≡ next) ⊎ (timestamp_lt ((ts + n) % u32_mod) next ≡ true)
unfolding timestamp_lt timestamp_diff
gap-partly next ts n hn ht h a b = ground arith

-- What is missing before the next packet fills the buffer, or ends at the packet.
pub missing_cases :
    (next ts c n : ℕ)
    → next < u32_mod
    → ts < u32_mod
    → timestamp_lt ts next ≡ true
    → 0 < c
    → c ≤ 32
    → n < 2 ^ 31
    → n * c < 2 ^ 31
    → ((min (c * gap next ts % u64_mod) (n * c) ≡ n * c)
        × (((ts + n) % u32_mod ≡ next) ⊎ (timestamp_lt ((ts + n) % u32_mod) next ≡ true)))
      ⊎ ((m : ℕ) × (min (c * gap next ts % u64_mod) (n * c) ≡ m * c)
          × (m < n)
          × ((ts + m) % u32_mod ≡ next))
missing_cases next ts c n hn ht h hc hc' hs hb = elim (gap_cases next ts hn ht h) [
  | inr e ↦ inl (rw e (omega (arith, hb)), gap-partly next ts n hn ht h (omega (arith, e)) hs)
  | inl (a, b) ↦
      let e : c * gap next ts ≡ gap next ts * c = mul_comm c (gap next ts) in
      let f : gap next ts * c ≤ gap next ts * 32 = mul-le-mul_left (gap next ts) hc' in
      elim (Bool-cases (ltb (gap next ts) n)) [
        | inl t ↦
            let l : gap next ts * c ≤ n * c = mul-le-mul_right c (ground arith) in
            inr (gap next ts, omega (arith, e, f, l, a), ground arith, b)
        | inr t ↦
            let l : n * c ≤ gap next ts * c = mul-le-mul_right c (ground arith) in
            inl (omega (arith, e, f, l, a), gap-partly next ts n hn ht h (ground arith) hs)
      ]
]
