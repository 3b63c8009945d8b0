-- ===== src/Address/Pct.antt =====
-- src/modules/roc_address/pct.cpp. The destination is the number of characters that are left of it; a
-- result is what is written before the terminating zero, `none` for -1. A character is its code as an
-- unsigned number. The character classes of the C library are arguments.
pub mod RoundTrip
use mathlib.Core.Option
use roc.Prelude.{
  ℕ, ◌+◌, ◌-◌, ◌*◌, ◌/◌, ◌%◌, ◌&&◌, ◌||◌, Bool, true, false, Option, none, some, List, [], ◌∷◌,
  ◌++◌, ltb, ◌==◌, if◌then◌else◌, length, not,
}

-- isalnum, isdigit, isxdigit and tolower
pub record Ctype : Type 0 where
  pub isalnum : ℕ → Bool
  pub isdigit : ℕ → Bool
  pub isxdigit : ℕ → Bool
  pub tolower : ℕ → ℕ

pub data PctMode : Type 0 where
  non_unreserved non_path : PctMode

abbrev pub one_of : List ℕ → ℕ → Bool
one_of [] c = false
one_of (x ∷ l) c = c == x || one_of l c

unfoldable pub to_hex : ℕ → ℕ
to_hex n = if ltb (n % 16) 10 then n % 16 + b'0' else n % 16 - 10 + b'A'

module _ (ctype : Ctype) where
  unfoldable pub is_unreserved : ℕ → Bool
  is_unreserved c = ctype.isalnum c || one_of (b'-' ∷ b'_' ∷ b'.' ∷ b'~' ∷ []) c

  unfoldable pub is_pchar_or_slash : ℕ → Bool
  unfolding is_unreserved
  is_pchar_or_slash c =
      is_unreserved c
      || one_of
          (b'!' ∷ b'$' ∷ b'&' ∷ 39 ∷ b'(' ∷ b')' ∷ b'*' ∷ b'+' ∷ b',' ∷ b';' ∷ b'=' ∷ b':' ∷ b'@'
            ∷ b'/' ∷ [])
          c

  unfoldable pub skip_encoding : PctMode → ℕ → Bool
  unfolding is_unreserved is_pchar_or_slash
  skip_encoding non_unreserved c = is_unreserved c
  skip_encoding non_path c = is_pchar_or_slash c

  unfoldable pub hex_digit : ℕ → ℕ
  hex_digit c = if ctype.isdigit c then c - b'0' else ctype.tolower c - b'a' + 10

  -- The digits are checked before; `h << 4 | l` is a sum for them.
  unfoldable pub from_hex : ℕ → ℕ → ℕ
  unfolding hex_digit
  from_hex hi lo = (hex_digit hi * 16 + hex_digit lo) % 256

  -- What one character is written as.
  unfoldable pub encoded : PctMode → ℕ → List ℕ
  unfolding skip_encoding to_hex
  encoded mode c =
      if skip_encoding mode c then c ∷ [] else b'%' ∷ to_hex (c / 16) ∷ to_hex (c % 16) ∷ []

  unfoldable pub pct_encode : PctMode → ℕ → List ℕ → Option (List ℕ)
  unfolding encoded
  pct_encode mode room [] = if ltb room 1 then none else some []
  pct_encode mode room (c ∷ src) =
      let rest = pct_encode mode (room - length (encoded mode c)) src in
      if c == 0
      then none
      else if ltb room (length (encoded mode c))
      then none
      else Option.map (λ out. encoded mode c ++ out) rest

  -- `dst` is checked for room before the source is.
  unfoldable pub pct_decode : ℕ → List ℕ → Option (List ℕ)
  unfolding from_hex
  pct_decode room [] = if ltb room 1 then none else some []
  pct_decode room (c ∷ []) =
      if c == 0 || ltb room 1
      then none
      else if c == b'%'
      then none
      else if ltb (room - 1) 1
      then none
      else some (c ∷ [])
  pct_decode room (c ∷ x ∷ []) =
      let rest = pct_decode (room - 1) (x ∷ []) in
      if c == 0 || ltb room 1
      then none
      else if c == b'%'
      then none
      else Option.map (λ out. c ∷ out) rest
  pct_decode room (c ∷ x ∷ y ∷ src) = if c == 0 || ltb room 1 then none else elim (c == b'%') [
    | false ↦ Option.map (λ out. c ∷ out) (pct_decode (room - 1) (x ∷ y ∷ src))
    | true ↦
        if not (ctype.isxdigit x && ctype.isxdigit y)
        then none
        else if from_hex x y == 0
        then none
        else Option.map (λ out. from_hex x y ∷ out) (pct_decode (room - 1) src)
  ]
