-- ===== src/Audio/Depacketizer/Contract.antt =====
-- What the depacketizer relies on in a frame decoder, by the comments of
-- src/modules/roc_audio/iframe_decoder.h, and arithmetic of timestamps.
use roc.Prelude.{
  ℕ, ◌+◌, ◌*◌, ◌^◌, ◌%◌, ◌≤◌, ◌<◌, ◌≡◌, ◌⊎◌, true, false, some, List, arith, length, min,
}
use roc.Packet.Units.{u32_mod, timestamp_lt, timestamp_diff}
use roc.Packet.Types.{Packet, Rtp, rtp}
use roc.Packet.Reader.{Gives}
use roc.Audio.Depacketizer.{FrameDecoder, Inputs, to_size}

-- A decoder is idle, or busy between `begin` and `finish`; a payload of some kind holds samples. While
-- it is busy, reading and shifting move its position by the samples that they give, as many as are
-- wanted and available.
pub record Contract {Sample : Type 0} (d : FrameDecoder Sample) (channels num_channels : ℕ)
    : Type 1 where
  pub Idle : d.State → Type 0
  pub Busy : d.State → Type 0
  pub HasSamples : List ℕ → Type 0
  pub position_fits : (s : d.State) → Busy s → d.position s < u32_mod
  pub available_fits : (s : d.State) → Busy s → d.available s < 2 ^ 31
  pub begins :
      (s : d.State) (ts : ℕ) (b : List ℕ)
      → Idle s
      → ts < u32_mod
      → HasSamples b
      → (t : d.State) × (d.begin ts (some b) s ≡ some t) × Busy t × (0 < d.available t)
  pub reads :
      (s : d.State) (n : ℕ)
      → Busy s
      → (xs : List Sample) × (t : d.State) × (d.read n channels s
          ≡ some (min n (d.available s), xs, t))
        × (length xs ≡ min n (d.available s) * num_channels)
        × Busy t
        × (d.position t ≡ (d.position s + min n (d.available s)) % u32_mod)
  pub shifts :
      (s : d.State) (n : ℕ)
      → Busy s
      → n ≤ d.available s
      → (t : d.State) × (d.shift n s ≡ some (n, t))
        × Busy t
        × (d.position t ≡ (d.position s + n) % u32_mod)
  pub ends : (s : d.State) → Busy s → (t : d.State) × (d.finish s ≡ some t) × Idle t

-- A packet with a payload of this kind.
abbrev pub IsAudio : (List ℕ → Type 0) → Packet → Type 0
IsAudio P p =
    (r : Rtp) × (b : List ℕ) × (rtp p ≡ some r)
    × (r.payload ≡ some b)
    × (r.timestamp < u32_mod)
    × P b

-- The channels of a stream, a decoder that keeps its contract for them, and a reader that gives packets
-- with samples.
pub record Setting {Sample : Type 0} (io : Inputs Sample) : Type 1 where
  pub channels : ℕ
  pub num_channels : ℕ
  pub contract : Contract io.decoder channels num_channels
  pub gives : Gives io.reader (IsAudio contract.HasSamples)

-- The samples to skip are those of the packet, and lead to the position.
pub skip-position :
    (p ts n : ℕ)
    → p < u32_mod
    → ts < u32_mod
    → 0 < n
    → n < 2 ^ 31
    → timestamp_lt p ts ≡ true
    → timestamp_lt ts ((p + n) % u32_mod) ≡ true
    → (to_size (timestamp_diff ts p) ≤ n) × ((p + to_size (timestamp_diff ts p)) % u32_mod ≡ ts)
unfolding timestamp_lt timestamp_diff
skip-position p ts n hp ht hz hn a b = ground arith

pub not_behind :
    (p ts : ℕ)
    → p < u32_mod
    → ts < u32_mod
    → timestamp_lt p ts ≡ false
    → (ts ≡ p) ⊎ (timestamp_lt ts p ≡ true)
unfolding timestamp_lt timestamp_diff
not_behind p ts hp ht h = ground arith

pub irreflexive : (t : ℕ) → t < u32_mod → timestamp_lt t t ≡ true → ⊥
unfolding timestamp_lt timestamp_diff
irreflexive t h e = ground arith
