-- ===== src/Packet/Interleaver/Shuffle.antt =====
-- The sequence in which an interleaver sends is a permutation of the places of its block.
use roc.Prelude.{
  ℕ, zero, suc, ◌+◌, ◌≤◌, ◌<◌, ◌≡◌, refl, ap, ◌∙◌, List, arith, get_or, set, length, length-set,
  get_or-set_self, get_or-set_ne, ◌==◌, if◌then◌else◌,
}
use roc.Packet.Interleaver.{count_up, swap, shuffle, reinit_seq}

-- `seq` lists the numbers below `n`, each once: `place v` is where `v` stands.
pub record IsPermutation (n : ℕ) (seq : List ℕ) : Type 0 where
  pub sized : length seq ≡ n
  pub bounded : (i : ℕ) → i < n → get_or seq i 0 < n
  pub place : ℕ → ℕ
  pub place_bounded : (v : ℕ) → v < n → place v < n
  pub place_seq : (i : ℕ) → i < n → place (get_or seq i 0) ≡ i
  pub seq_place : (v : ℕ) → v < n → get_or seq (place v) 0 ≡ v

-- Exchanges `i` and `j`.
abbrev pub transpose : ℕ → ℕ → ℕ → ℕ
transpose i j k = if k == i then j else if k == j then i else k

get_or-swap :
    (seq : List ℕ) (i j k : ℕ)
    → i < length seq
    → j < length seq
    → get_or (swap seq i j) k 0 ≡ get_or seq (transpose i j k) 0
unfolding swap
get_or-swap seq i j k hi hj = ground (
  arith,
  get_or-set_self (set seq i (get_or seq j 0)) j (get_or seq i 0) 0,
  get_or-set_ne (set seq i (get_or seq j 0)) j k (get_or seq i 0) 0,
  get_or-set_self seq i (get_or seq j 0) 0,
  get_or-set_ne seq i k (get_or seq j 0) 0,
  length-set seq i (get_or seq j 0),
)

length-swap : (seq : List ℕ) (i j : ℕ) → length (swap seq i j) ≡ length seq
unfolding swap
length-swap seq i j =
    length-set (set seq i (get_or seq j 0)) j (get_or seq i 0) ∙ length-set seq i (get_or seq j 0)

transpose_bounded : (n i j k : ℕ) → i < n → j < n → k < n → transpose i j k < n
transpose_bounded n i j k hi hj hk = ground arith

transpose_twice : (i j k : ℕ) → transpose i j (transpose i j k) ≡ k
transpose_twice i j k = ground arith

swap-IsPermutation :
    (n : ℕ) (seq : List ℕ) (i j : ℕ)
    → i < n
    → j < n
    → IsPermutation n seq
    → IsPermutation n (swap seq i j)
swap-IsPermutation n seq i j hi hj v = record {
  sized = length-swap seq i j ∙ v.sized;
  bounded = λ k hk. rw (at_ k) (v.bounded (transpose i j k) (transpose_bounded n i j k hi hj hk));
  place = λ k. transpose i j (v.place k);
  place_bounded = λ k hk. transpose_bounded n i j (v.place k) hi hj (v.place_bounded k hk);
  place_seq = λ k hk.
      rw (at_ k, v.place_seq (transpose i j k) (transpose_bounded n i j k hi hj hk))
        (transpose_twice i j k);
  seq_place = λ k hk.
      at_ (transpose i j (v.place k)) ∙ rw (transpose_twice i j (v.place k)) (v.seq_place k hk);
}
  where
    at_ : (k : ℕ) → get_or (swap seq i j) k 0 ≡ get_or seq (transpose i j k) 0
    at_ k = get_or-swap seq i j k (omega (arith, v.sized)) (omega (arith, v.sized))

shuffle-IsPermutation :
    (choose : ℕ → ℕ) (n i : ℕ) (seq : List ℕ)
    → ((k : ℕ) → k < n → choose (suc k) ≤ k)
    → i ≤ n
    → IsPermutation n seq
    → IsPermutation n (shuffle choose i seq)
unfolding shuffle
shuffle-IsPermutation choose n zero seq hc h v = v
shuffle-IsPermutation choose n (suc i) seq hc h v =
    shuffle-IsPermutation choose n i (swap seq i (choose (suc i))) hc (omega arith) (
      swap-IsPermutation n seq i (choose (suc i)) (omega arith) (omega (arith, hc i (omega arith)))
        v)

length-count_up : (n i : ℕ) → length (count_up n i) ≡ n
unfolding count_up
length-count_up zero i = refl
length-count_up (suc n) i = ap suc (length-count_up n (i + 1))

get_or-count_up : (n i k : ℕ) → k < n → get_or (count_up n i) k 0 ≡ i + k
unfolding count_up
get_or-count_up zero i k h = absurd (omega arith)
get_or-count_up (suc n) i zero h = omega arith
get_or-count_up (suc n) i (suc k) h = omega (arith, get_or-count_up n (i + 1) k (omega arith))

count_up-IsPermutation : (n : ℕ) → IsPermutation n (count_up n 0)
count_up-IsPermutation n = record {
  sized = length-count_up n 0;
  bounded = λ i h. omega (arith, get_or-count_up n 0 i h);
  place = λ v. v;
  place_bounded = λ v h. h;
  place_seq = λ i h. omega (arith, get_or-count_up n 0 i h);
  seq_place = λ v h. omega (arith, get_or-count_up n 0 v h);
}

-- Whatever numbers the random generator returns within their ranges, the sequence of `reinit_seq_`
-- names each place of the block exactly once.
pub reinit_seq-IsPermutation :
    (choose : ℕ → ℕ) (n : ℕ)
    → ((k : ℕ) → k < n → choose (suc k) ≤ k)
    → IsPermutation n (reinit_seq choose n)
unfolding reinit_seq
reinit_seq-IsPermutation choose n hc =
    shuffle-IsPermutation choose n n (count_up n 0) hc (omega arith) (count_up-IsPermutation n)
