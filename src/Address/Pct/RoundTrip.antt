-- ===== src/Address/Pct/RoundTrip.antt =====
-- What was percent-encoded is decoded to what it was.
use roc.Prelude.{
  ℕ, ◌+◌, ◌-◌, ◌*◌, ◌/◌, ◌%◌, ◌≤◌, ◌<◌, ◌≡◌, refl, sym, subst, ◌∙◌, inl, inr, ◌||◌, true, false,
  some, List, [], ◌∷◌, ◌++◌, ltb, ◌==◌, length, arith, All, Bool-cases,
}
use roc.Address.Pct.{
  Ctype, PctMode, non_unreserved, non_path, to_hex, is_unreserved, is_pchar_or_slash, skip_encoding,
  hex_digit, from_hex, encoded, pct_encode, pct_decode,
}

-- The character classes of the C locale, as far as the code relies on them.
pub record IsCtype (ctype : Ctype) : Type 0 where
  pub percent_not_alnum : ctype.isalnum b'%' ≡ false
  pub digit :
      (n : ℕ) → n < 10 → (ctype.isdigit (n + b'0') ≡ true) × (ctype.isxdigit (n + b'0') ≡ true)
  pub letter :
      (n : ℕ)
      → n < 6
      → (ctype.isdigit (n + b'A') ≡ false)
        × (ctype.isxdigit (n + b'A') ≡ true)
        × (ctype.tolower (n + b'A') ≡ n + b'a')

module _ (ctype : Ctype) (is : IsCtype ctype) where
  hex-to_hex :
      (n : ℕ) → n < 16 → (ctype.isxdigit (to_hex n) ≡ true) × (hex_digit ctype (to_hex n) ≡ n)
  unfolding to_hex hex_digit
  hex-to_hex n h = elim (Bool-cases (ltb (n % 16) 10)) [
    | inl l ↦
        (let e : n % 16 ≡ n = omega arith in
          let (a, b) = is.digit n (ground (arith, e)) in rw (l, e, a, b) (refl, omega arith))
    | inr l ↦
        (let e : n % 16 ≡ n = omega arith in
          let (a, b, c) = is.letter (n - 10) (omega arith) in
          rw (l, e, a, b, c) (refl, ground (arith, e)))
  ]

  percent_encoded : (mode : PctMode) → skip_encoding ctype mode b'%' ≡ false
  unfolding skip_encoding is_unreserved is_pchar_or_slash
  percent_encoded non_unreserved = rw (is.percent_not_alnum)
  percent_encoded non_path = rw (is.percent_not_alnum)

  plain_not_percent :
      (mode : PctMode) (c : ℕ) → skip_encoding ctype mode c ≡ true → (c == b'%') ≡ false
  plain_not_percent mode c h = elim (Bool-cases (c == b'%')) [
    | inl e ↦
        (let x : c ≡ b'%' = ground arith in
          let y : skip_encoding ctype mode b'%' ≡ true = rw (← x) h in
          absurd (differ (sym y ∙ percent_encoded mode)))
    | inr e ↦ e
  ]
    where
      differ : true ≡ false → ⊥
      differ k = cc

  ended :
      (room : ℕ) (out : List ℕ)
      → pct_decode ctype room [] ≡ some out
      → (ltb room 1 ≡ false) × (out ≡ [])
  unfolding pct_decode
  ended room out e = ground (arith, e)

  decode_plain :
      (room c : ℕ) (src out : List ℕ)
      → 0 < c
      → (c == b'%') ≡ false
      → pct_decode ctype room src ≡ some out
      → pct_decode ctype (room + 1) (c ∷ src) ≡ some (c ∷ out)
  unfolding pct_decode
  decode_plain room c [] out h k e =
      let z : (c == 0 || ltb (room + 1) 1) ≡ false = ground arith in
      let r : room + 1 - 1 ≡ room = omega arith in
      let (l, o) = ended room out e in rw (z, k, r, l, o)
  decode_plain room c (x ∷ []) out h k e =
      let z : (c == 0 || ltb (room + 1) 1) ≡ false = ground arith in
      let r : room + 1 - 1 ≡ room = omega arith in rw (z, k, r, e)
  decode_plain room c (x ∷ y ∷ src) out h k e =
      let z : (c == 0 || ltb (room + 1) 1) ≡ false = ground arith in
      let r : room + 1 - 1 ≡ room = omega arith in rw (z, k, r, e)

  decode_hex :
      (room c : ℕ) (src out : List ℕ)
      → 0 < c
      → c < 256
      → pct_decode ctype room src ≡ some out
      → pct_decode ctype (room + 1) (b'%' ∷ to_hex (c / 16) ∷ to_hex (c % 16) ∷ src)
        ≡ some (c ∷ out)
  unfolding pct_decode from_hex
  decode_hex room c src out h l e =
      let (a, x) = hex-to_hex (c / 16) (omega arith) in
      let (b, y) = hex-to_hex (c % 16) (omega arith) in
      let z : ltb (room + 1) 1 ≡ false = ground arith in
      let r : room + 1 - 1 ≡ room = omega arith in
      let v : (c / 16 * 16 + c % 16) % 256 ≡ c = omega arith in
      let w : (c == 0) ≡ false = ground arith in rw (z, a, b, x, y, v, w, r, e)

  decode_encoded :
      (mode : PctMode) (room c : ℕ) (src out : List ℕ)
      → 0 < c
      → c < 256
      → pct_decode ctype room src ≡ some out
      → pct_decode ctype (room + 1) (encoded ctype mode c ++ src) ≡ some (c ∷ out)
  unfolding encoded
  decode_encoded mode room c src out h l e = elim (Bool-cases (skip_encoding ctype mode c)) [
    | inl k ↦ rw k (decode_plain room c src out h (plain_not_percent mode c k) e)
    | inr k ↦ rw k (decode_hex room c src out h l e)
  ]

  length-encoded : (mode : PctMode) (c : ℕ) → length (encoded ctype mode c) ≤ 3
  unfolding encoded
  length-encoded mode c = ground arith

  encode_step :
      (mode : PctMode) (room c : ℕ) (src out : List ℕ)
      → 0 < c
      → 3 ≤ room
      → pct_encode ctype mode (room - length (encoded ctype mode c)) src ≡ some out
      → pct_encode ctype mode room (c ∷ src) ≡ some (encoded ctype mode c ++ out)
  unfolding pct_encode
  encode_step mode room c src out h k e =
      let z : (c == 0) ≡ false = ground arith in
      let l : ltb room (length (encoded ctype mode c)) ≡ false =
        ground (arith, length-encoded mode c) in
      rw (z, l, e)

  encode_end : (mode : PctMode) (room : ℕ) → 0 < room → pct_encode ctype mode room [] ≡ some []
  unfolding pct_encode
  encode_end mode room h = ground arith

  decode_end : pct_decode ctype 1 [] ≡ some []
  unfolding pct_decode
  decode_end = refl

  -- With character classes that agree with ASCII where the code relies on them, any string of
  -- bytes other than zero is encoded, in either mode, into a buffer of three characters for each
  -- of its own and one more, and is decoded from that to what it was, into a buffer that has room
  -- for just the string and the terminating zero.
  pub pct_decode-encode :
      (mode : PctMode) (room : ℕ) (src : List ℕ)
      → All (λ c. (0 < c) × (c < 256)) src
      → 3 * length src < room
      → (out : List ℕ) × (pct_encode ctype mode room src ≡ some out)
        × (pct_decode ctype (length src + 1) out ≡ some src)
  pct_decode-encode mode room [] h k = ([], encode_end mode room (omega arith), decode_end)
  pct_decode-encode mode room (c ∷ src) ((a, b), h) k =
      let grown : length src + 1 + 1 ≡ length (c ∷ src) + 1 = omega arith in
      let (out, e, d) =
        pct_decode-encode mode (room - length (encoded ctype mode c)) src h
          (omega (arith, length-encoded mode c)) in
      (
        encoded ctype mode c ++ out,
        encode_step mode room c src out a (omega arith) e,
        subst (λ n. pct_decode ctype n (encoded ctype mode c ++ out) ≡ some (c ∷ src)) grown
            (decode_encoded mode (length src + 1) c out src a b d),
      )
