-- ===== src/Core/List/Walk.antt =====
-- Walking over an intrusive list, and adding to its ends.
use roc.Prelude.{
  ℕ, ◌<◌, ◌≡◌, ◌≢◌, refl, ap, subst, true, false, none, some, List, [], ◌∷◌, ◌++◌, arith, length,
  ◌==◌, if◌then◌else◌,
}
use roc.Packet.Units.{u64_mod}
use roc.Core.List.{Store, IntrusiveList, front, nextof, push_front, push_back, insert, init}
use roc.Core.List.Links.{
  Avoids, Holds, split-Chain, All-remove, same_list-same, first_of, Chain-first,
}
use roc.Core.List.Insert.{Inserts, insert-Inserts, before_of}

-- The first node and the last one, and the one behind a node: walking from the front visits the nodes of
-- a list in their order and ends.
pub front_lem :
    (l : IntrusiveList) (h : Store) (xs : List ℕ)
    → Holds l h xs
    → length xs < u64_mod
    → front l h ≡ before_of xs
unfolding front
front_lem l h [] r b = let e : (l.size == 0) ≡ true = ground (arith, r.same_size) in rw (e)
front_lem l h (x ∷ xs) r b =
    let e : (l.size == 0) ≡ false = ground (arith, r.same_size) in rw (e) (ap some r.chain.0)

-- From a node of a list, nextof gives the node behind it, and a null pointer exactly at the end.
pub nextof_lem :
    (l : IntrusiveList) (h : Store) (a : ℕ) (ys zs : List ℕ)
    → Holds l h (ys ++ (a ∷ zs))
    → nextof a l h ≡ some (before_of zs)
unfolding nextof
nextof_lem l h a ys zs r =
    let (ma, ms) = All-remove (λ c. (h c).list ≡ some l.head) a ys zs r.members in
    let (ha, hs) = All-remove (λ c. c ≢ l.head) a ys zs r.not_head in
    let (x, y) = split-Chain h l.head a l.head ys zs r.chain in
    rw (same_list-same (h a).list l.head ma)
      (ap some (ends zs (Chain-first h a l.head zs y) (right ys zs hs)))
  where
    right : (ys zs : List ℕ) → Avoids l.head (ys ++ zs) → Avoids l.head zs
    right [] zs n = n
    right (y ∷ ys) zs n = right ys zs n.1

    ends :
        (zs : List ℕ)
        → (h a).next ≡ first_of zs l.head
        → Avoids l.head zs
        → (if (h a).next == l.head then none else some (h a).next) ≡ before_of zs
    ends [] e n = let t : ((h a).next == l.head) ≡ true = ground (arith, e) in rw (t) refl
    ends (z ∷ zs) e n =
        let t : ((h a).next == l.head) ≡ false = ground (arith, e, n.0) in rw (t) (ap some e)

-- A list is empty after its construction, at an address of its own.
pub init-Holds : (head : ℕ) (h : Store) → Holds (init head h).0 (init head h).1 []
unfolding init
init-Holds head h = record {
  same_size = omega arith;
  head_in = ground arith;
  members = tt;
  distinct = tt;
  not_head = tt;
  chain = (ground arith, ground arith);
}

-- push_back adds a node that is in no list at the end of a list, and push_front at its front.
pub push-Inserts :
    (a : ℕ) (l : IntrusiveList) (h : Store) (xs : List ℕ)
    → (h a).list ≡ none
    → Holds l h xs
    → length xs < u64_mod
    → Inserts (xs ++ (a ∷ [])) (push_back a l h) × Inserts (a ∷ xs) (push_front a l h)
unfolding push_back push_front
push-Inserts a l h xs n r b = (end xs r, start xs r b)
  where
    nil : (xs : List ℕ) → xs ≡ xs ++ []
    nil [] = refl
    nil (x ∷ xs) = ap (λ k. x ∷ k) (nil xs)

    end : (xs : List ℕ) → Holds l h xs → Inserts (xs ++ (a ∷ [])) (insert a none l h)
    end xs r = insert-Inserts a l h xs [] n (subst (Holds l h) (nil xs) r)

    start :
        (xs : List ℕ)
        → Holds l h xs
        → length xs < u64_mod
        → Inserts
            (a ∷ xs)
            (if l.size == 0 then insert a none l h else insert a (some (h l.head).next) l h)
    start [] r b =
        let e : (l.size == 0) ≡ true = ground (arith, r.same_size) in
        rw (e) (insert-Inserts a l h [] [] n r)
    start (x ∷ xs) r b =
        let e : (l.size == 0) ≡ false = ground (arith, r.same_size) in
        rw (e, r.chain.0) (insert-Inserts a l h [] (x ∷ xs) n r)
