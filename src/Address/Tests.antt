-- ===== src/Address/Tests.antt =====
-- Tests of the modules of src/modules/roc_address, and their theorems at concrete inputs.
use roc.Prelude.{
  ℕ, ◌+◌, ◌≡◌, refl, ◌&&◌, ◌||◌, not, Bool, none, some, List, [], ◌∷◌, ltb, arith, if◌then◌else◌,
}
use roc.Address.Pct.{
  Ctype, non_unreserved, non_path, pct_encode, pct_decode, encoded, skip_encoding, is_unreserved,
  is_pchar_or_slash, to_hex,
}
use roc.Address.Pct.RoundTrip.{IsCtype, pct_decode-encode}

abbrev between : ℕ → ℕ → ℕ → Bool
between lo hi c = not (ltb c lo) && not (ltb hi c)

-- The character classes of ASCII.
abbrev ascii : Ctype
ascii = record {
  isalnum = λ c. between b'0' b'9' c || between b'A' b'Z' c || between b'a' b'z' c;
  isdigit = between b'0' b'9';
  isxdigit = λ c. between b'0' b'9' c || between b'A' b'F' c || between b'a' b'f' c;
  tolower = λ c. if between b'A' b'Z' c then c + 32 else c;
}

ascii-IsCtype : IsCtype ascii
ascii-IsCtype = record {
  percent_not_alnum = refl;
  digit = λ n h. ground arith;
  letter = λ n h. ground arith;
}

encode_space :
    pct_encode ascii non_path 9 (b'a' ∷ b' ' ∷ b'/' ∷ [])
    ≡ some (b'a' ∷ b'%' ∷ b'2' ∷ b'0' ∷ b'/' ∷ [])
unfolding pct_encode encoded skip_encoding is_unreserved is_pchar_or_slash to_hex
encode_space = refl

decode_cut : pct_decode ascii 9 (b'a' ∷ b'%' ∷ b'2' ∷ []) ≡ none
unfolding pct_decode
decode_cut = refl

pct_decode-encode_example :
    (out : List ℕ) × (pct_encode ascii non_unreserved 10 (b'/' ∷ 200 ∷ b'x' ∷ []) ≡ some out)
    × (pct_decode ascii 4 out ≡ some (b'/' ∷ 200 ∷ b'x' ∷ []))
pct_decode-encode_example =
    pct_decode-encode ascii ascii-IsCtype non_unreserved 10 (b'/' ∷ 200 ∷ b'x' ∷ [])
      ((omega arith, omega arith), ((omega arith, omega arith), ((omega arith, omega arith), tt)))
      (omega arith)
