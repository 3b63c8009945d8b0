-- ===== src/Packet/SortedQueue/Sorted.antt =====
-- The sorted queue keeps its packets in order, each sequence number once, while they lie in one
-- half of the circle of sequence numbers.
use mathlib.Core.Option
use roc.Prelude.{
  ℕ, ◌<◌, ◌≡◌, refl, ◌∙◌, ap, sym, ◌⊎◌, inl, inr, Option, none, some, List, [], ◌∷◌, ◌++◌, arith,
  pos, negsuc, All, All-append, All-left, All-right,
}
use roc.Packet.Units.{u16_mod}
use roc.Packet.Types.{Packet, compare}
use roc.Packet.Order.{InWindow, rank, rank_compare, compare-rank}
use roc.Packet.SortedQueue.{SortedQueue, insert}

rank_compare_cases :
    (a b : ℕ)
    → ((a < b) × (rank_compare a b ≡ negsuc 0))
      ⊎ ((a ≡ b) × (rank_compare a b ≡ pos 0))
      ⊎ ((b < a) × (rank_compare a b ≡ pos 1))
rank_compare_cases a b = grind arith

insert_later :
    (p x : Packet) (xs : List Packet)
    → compare p x ≡ negsuc 0
    → insert p (x ∷ xs) ≡ Option.map (λ rest. x ∷ rest) (insert p xs)
unfolding insert
insert_later p x xs e = rw e

insert_same : (p x : Packet) (xs : List Packet) → compare p x ≡ pos 0 → insert p (x ∷ xs) ≡ none
unfolding insert
insert_same p x xs e = rw e

insert_here :
    (p x : Packet) (xs : List Packet) → compare p x ≡ pos 1 → insert p (x ∷ xs) ≡ some (p ∷ x ∷ xs)
unfolding insert
insert_here p x xs e = rw e

module _ (base : ℕ) where
  abbrev pub Over : ℕ → List Packet → Type 0
  Over n = All (λ y. n < rank base y)

  abbrev pub Under : ℕ → List Packet → Type 0
  Under n = All (λ y. rank base y < n)

  -- Ranks fall strictly from the front on.
  abbrev pub Descending : List Packet → Type 0
  Descending [] = Unit
  Descending (x ∷ xs) = Under (rank base x) xs × Descending xs

  pub record IsSorted (q : SortedQueue) : Type 0 where
    pub window : All (InWindow base) q.list
    pub order : Descending q.list

  pub Under-trans : (m n : ℕ) (xs : List Packet) → m < n → Under m xs → Under n xs
  Under-trans m n [] h a = tt
  Under-trans m n (x ∷ xs) h a = (omega arith, Under-trans m n xs h a.1)

  pub Descending-insert :
      (p : Packet) (ys zs : List Packet)
      → Descending (ys ++ zs)
      → Over (rank base p) ys
      → Under (rank base p) zs
      → Descending (ys ++ (p ∷ zs))
  Descending-insert p [] zs d o u = (u, d)
  Descending-insert p (y ∷ ys) zs d o u = (
    All-append _ ys (p ∷ zs) (All-left _ ys zs d.0) (o.0, All-right _ ys zs d.0),
    Descending-insert p ys zs d.1 o.1 u,
  )

  -- Either some packet has the rank of `p`, or `p` goes between those over and those under it.
  abbrev pub Inserts : Packet → List Packet → Option (List Packet) → Type 0
  Inserts p xs r =
      ((ys : List Packet) × (x : Packet) × (zs : List Packet) × (xs ≡ ys ++ (x ∷ zs))
        × (rank base x ≡ rank base p)
        × (r ≡ none))
      ⊎ ((ys : List Packet) × (zs : List Packet) × (xs ≡ ys ++ zs)
          × (r ≡ some (ys ++ (p ∷ zs)))
          × Over (rank base p) ys
          × Under (rank base p) zs)

  Inserts-cons :
      (p x : Packet) (xs : List Packet) (r : Option (List Packet))
      → rank base p < rank base x
      → Inserts p xs r
      → Inserts p (x ∷ xs) (Option.map (λ rest. x ∷ rest) r)
  Inserts-cons p x xs r h (inl (ys, y, zs, e, k, n)) =
      inl (x ∷ ys, y, zs, ap (λ l. x ∷ l) e, k, ap (Option.map (λ rest. x ∷ rest)) n)
  Inserts-cons p x xs r h (inr (ys, zs, e, n, o, u)) =
      inr (x ∷ ys, zs, ap (λ l. x ∷ l) e, ap (Option.map (λ rest. x ∷ rest)) n, (h, o), u)

  module _ (hb : base < u16_mod) (p : Packet) (wp : InWindow base p) where
    pub insert-Inserts :
        (xs : List Packet) → All (InWindow base) xs → Descending xs → Inserts p xs (insert p xs)
    unfolding insert
    insert-Inserts [] w d = inr ([], [], refl, refl, tt, tt)
    insert-Inserts (x ∷ xs) w d =
        place (rank_compare_cases (rank base p) (rank base x)) (insert-Inserts xs w.1 d.1)
      where
        order : compare p x ≡ rank_compare (rank base p) (rank base x)
        order = compare-rank base p x hb wp w.0

        place :
            ((rank base p < rank base x) × (rank_compare (rank base p) (rank base x) ≡ negsuc 0))
              ⊎ ((rank base p ≡ rank base x) × (rank_compare (rank base p) (rank base x) ≡ pos 0))
              ⊎ ((rank base x < rank base p) × (rank_compare (rank base p) (rank base x) ≡ pos 1))
            → Inserts p xs (insert p xs)
            → Inserts p (x ∷ xs) (insert p (x ∷ xs))
        place (inl (h, e)) ih =
            rw (insert_later p x xs (order ∙ e)) (Inserts-cons p x xs (insert p xs) h ih)
        place (inr (inl (h, e))) ih = inl ([], x, xs, refl, sym h, insert_same p x xs (order ∙ e))
        place (inr (inr (h, e))) ih = inr (
          [],
          x ∷ xs,
          refl,
          insert_here p x xs (order ∙ e),
          tt,
          (h, Under-trans (rank base x) (rank base p) xs h d.0),
        )
