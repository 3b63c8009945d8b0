-- ===== src/Rtp/Composer/Layout.antt =====
-- How the RTP composer lays a packet out in a buffer.
use roc.Prelude.{
  ℕ, ◌+◌, ◌/◌, ◌%◌, ◌≡◌, ◌<◌, ◌≤◌, ◌⊎◌, inl, inr, arith, none, some, true, false, ltb, ◌==◌, length,
  Bool-cases,
}
use native.Mathlib.Nat.{div-add-mod', mod-lt, mul-mod_left, add-mod}
use roc.Rtp.Composer.{Buffer, align, alignment_padding, skip}
use roc.Rtp.Headers.{sizeof_header}

-- For an alignment above 0 the padding makes the size a multiple of the alignment and is less than
-- the alignment.
pub alignment_padding_lem :
    (size alignment : ℕ)
    → 0 < alignment
    → ((size + alignment_padding size alignment) % alignment ≡ 0)
      × (alignment_padding size alignment < alignment)
unfolding alignment_padding
alignment_padding_lem size alignment h = ground (
  arith,
  div-add-mod' size alignment,
  mod-lt size h,
  mul-mod_left (size / alignment + 1) alignment,
)

aligned_sum : (a s p n : ℕ) → a % n ≡ 0 → (s + p) % n ≡ 0 → (a + p + s) % n ≡ 0
aligned_sum a s p n h k =
    let e : a + p + s ≡ a + (s + p) = omega arith in rw (e, add-mod a (s + p) n, h, k) (zero_mod n)
  where
    zero_mod : (n : ℕ) → (0 + 0) % n ≡ 0
    zero_mod n = omega arith

-- Without an inner composer `align` of an aligned buffer moves the start of the packet forward by
-- less than the alignment, so that what comes `header_size` bytes behind the RTP header is aligned;
-- it returns false, and changes nothing, exactly if the buffer is too short for that.
pub align_lem :
    (b : Buffer) (header_size alignment : ℕ)
    → 0 < alignment
    → b.address % alignment ≡ 0
    → let n = alignment_padding (header_size + sizeof_header) alignment in
      ((length b.bytes < n) × (align none b header_size alignment ≡ some (false, b)))
      ⊎ ((n ≤ length b.bytes)
          × (n < alignment)
          × (align none b header_size alignment ≡ some (true, skip n b))
          × (((skip n b).address + (header_size + sizeof_header)) % alignment ≡ 0))
unfolding align
align_lem b header_size alignment h k =
    let z : (alignment == 0) ≡ false = ground arith in
    let a : (b.address % alignment == 0) ≡ true = ground arith in
    let n = alignment_padding (header_size + sizeof_header) alignment in
    let (m, l) = alignment_padding_lem (header_size + sizeof_header) alignment h in
    elim (Bool-cases (ltb (length b.bytes) n)) [
      | inl c ↦ inl (ground arith, rw (z, a, c))
      | inr c ↦ inr (
        ground arith,
        l,
        rw (z, a, c),
        aligned_sum b.address (header_size + sizeof_header) n alignment k m,
      )
    ]
