-- ===== src/Core/List/Insert.antt =====
-- Linking a node into an intrusive list.
use roc.Prelude.{
  ℕ, ◌+◌, ◌%◌, ◌≡◌, ◌≢◌, refl, sym, ap, subst, ◌∙◌, Option, none, some, List, [], ◌∷◌, ◌++◌,
  append_assoc, arith, length, length-append, All, All-left, All-right, ◌==◌, if◌then◌else◌,
}
use roc.Packet.Units.{u64_mod}
use roc.Core.List.{Store, IntrusiveList, link, insert, grown}
use roc.Core.List.Links.{
  Chain, Avoids, Distinct, Holds, split-Chain, join-Chain, Chain-last, last_of-ne, same-Chain,
  last_of-apart, outside, Avoids-insert, Distinct-insert, Distinct-remove, Distinct-left,
  All-insert, All-remove, same_list-same, same_list-none,
}

-- The store after a node was linked in, node by node.
module _ (a b : ℕ) (l : IntrusiveList) (h : Store) (ne : b ≢ a) (pne : (h b).prev ≢ a) where
  next_lem :
      (c : ℕ)
      → (link a b l h c).next ≡ (if c == a then b else if c == (h b).prev then a else (h c).next)
  unfolding link
  next_lem c = ground (arith, ne, pne)

  prev_lem :
      (c : ℕ)
      → (link a b l h c).prev ≡ (if c == a then (h b).prev else if c == b then a else (h c).prev)
  unfolding link
  prev_lem c = ground (arith, ne, pne)

  list_lem : (c : ℕ) → (link a b l h c).list ≡ (if c == a then some l.head else (h c).list)
  unfolding link
  list_lem c = ground (arith, ne, pne)

  -- The part up to the place where the node is linked in.
  linked-Chain :
      (u : ℕ) (ys : List ℕ)
      → Chain h u ys b
      → u ≢ a
      → Avoids a ys
      → Avoids b ys
      → Avoids u ys
      → Distinct ys
      → Chain (link a b l h) u (ys ++ (a ∷ [])) b
  linked-Chain u [] (p, q) n ha hb hu d = (
    (let e = next_lem u in ground (arith, e, q, n)),
    (let e = prev_lem a in ground (arith, e, q)),
    ((let e = next_lem a in ground (arith, e)), let e = prev_lem b in ground (arith, e, ne)),
  )
  linked-Chain u (y ∷ ys) (p, q, r) n ha hb hu d =
      let far : (h b).prev ≢ u =
        λ e. last_of-ne u y ys hu.0 hu.1 (sym (Chain-last h y b ys r) ∙ e) in
      (
        (let e = next_lem u in ground (arith, e, p, n, far)),
        (let e = prev_lem y in ground (arith, e, q, ha.0, hb.0)),
        linked-Chain y ys r ha.0 ha.1 hb.1 d.0 d.1,
      )

  -- A chain that starts at the node behind and does not come back to it.
  kept-Chain :
      (v : ℕ) (zs : List ℕ)
      → Chain h b zs v
      → v ≢ a
      → v ≢ b
      → Avoids a zs
      → Avoids b zs
      → b ≢ (h b).prev
      → All (λ c. c ≢ (h b).prev) zs
      → Chain (link a b l h) b zs v
  kept-Chain v zs x va vb ha hb bp hp =
      same-Chain h (link a b l h) b v zs (let e = next_lem b in ground (arith, e, ne, bp))
        (let e = prev_lem v in ground (arith, e, va, vb)) (same zs ha hb hp) x
    where
      same :
          (zs : List ℕ)
          → Avoids a zs
          → Avoids b zs
          → All (λ c. c ≢ (h b).prev) zs
          → All
              (λ c. ((link a b l h c).next ≡ (h c).next) × ((link a b l h c).prev ≡ (h c).prev))
              zs
      same [] x y z = tt
      same (c ∷ zs) x y z = (
        (
          (let e = next_lem c in ground (arith, e, x.0, z.0)),
          let e = prev_lem c in ground (arith, e, x.0, y.0),
        ),
        same zs x.1 y.1 z.1,
      )

  listed :
      (xs : List ℕ)
      → Avoids a xs
      → All (λ c. (h c).list ≡ some l.head) xs
      → All (λ c. (link a b l h c).list ≡ some l.head) xs
  listed [] x m = tt
  listed (c ∷ xs) x m = ((let e = list_lem c in ground (arith, e, x.0, m.0)), listed xs x.1 m.1)

nil_right : (xs : List ℕ) → xs ++ [] ≡ xs
nil_right [] = refl
nil_right (x ∷ xs) = ap (λ l. x ∷ l) (nil_right xs)

-- The result of an insertion.
abbrev pub Inserts : List ℕ → Option (IntrusiveList × Store) → Type 0
Inserts xs o = (l : IntrusiveList) × (h : Store) × (o ≡ some (l, h)) × Holds l h xs

size_lem :
    (ys zs : List ℕ) (a n : ℕ)
    → n ≡ length (ys ++ zs) % u64_mod
    → (n + 1) % u64_mod ≡ length (ys ++ (a ∷ zs)) % u64_mod
size_lem ys zs a n e = omega (arith, e, length-append ys zs, length-append ys (a ∷ zs))

module _ (a : ℕ) (l : IntrusiveList) (h : Store) (free : (h a).list ≡ none) where
  away : (h l.head).list ≡ some l.head → l.head ≢ a
  away m e = let q = ap (λ c. (h c).list) e in absurd (cc)

  -- What is left to prove once the links are right.
  linked_Holds :
      (b : ℕ) (ys zs : List ℕ)
      → Holds l h (ys ++ zs)
      → b ≢ a
      → (h b).prev ≢ a
      → Chain (link a b l h) l.head (ys ++ (a ∷ zs)) l.head
      → Holds (grown l) (link a b l h) (ys ++ (a ∷ zs))
  linked_Holds b ys zs r n p x =
      let o = outside l h a (ys ++ zs) free r.members in
      let na = away r.head_in in
      record {
        same_size = size_lem ys zs a l.size r.same_size;
        head_in = (let e = list_lem a b l h n p l.head in ground (arith, e, na, r.head_in));
        members =
            All-insert (λ c. (link a b l h c).list ≡ some l.head) a ys zs
              (let e = list_lem a b l h n p a in ground (arith, e))
              (listed a b l h n p (ys ++ zs) o r.members);
        distinct = Distinct-insert a ys zs o r.distinct;
        not_head = Avoids-insert l.head a ys zs (λ e. na (sym e)) r.not_head;
        chain = x;
      }

  insert_end : (ys : List ℕ) → Holds l h ys → Inserts (ys ++ (a ∷ [])) (insert a none l h)
  unfolding insert
  insert_end ys r =
      let o = outside l h a ys free r.members in
      let na = away r.head_in in
      let p : (h l.head).prev ≢ a =
        λ e. last_of-ne a l.head ys na o (sym (Chain-last h l.head l.head ys r.chain) ∙ e) in
      let r' : Holds l h (ys ++ []) = subst (Holds l h) (sym (nil_right ys)) r in
      rw (same_list-none (h a).list free) (
        grown l,
        link a l.head l h,
        refl,
        linked_Holds l.head ys [] r' na p (
            linked-Chain a l.head l h na p l.head ys r.chain na o r.not_head r.not_head r.distinct),
      )

  insert_mid :
      (b : ℕ) (ys zs : List ℕ)
      → Holds l h (ys ++ (b ∷ zs))
      → Inserts (ys ++ (a ∷ b ∷ zs)) (insert a (some b) l h)
  unfolding insert
  insert_mid b ys zs r =
      let o = outside l h a (ys ++ (b ∷ zs)) free r.members in
      let na = away r.head_in in
      let (n, oz) = All-remove (λ c. c ≢ a) b ys zs o in
      let (mb, mz) = All-remove (λ c. (h c).list ≡ some l.head) b ys zs r.members in
      let (hb, hz) = All-remove (λ c. c ≢ l.head) b ys zs r.not_head in
      let (ab, dz) = Distinct-remove b ys zs r.distinct in
      let (x, y) = split-Chain h l.head b l.head ys zs r.chain in
      let last = Chain-last h l.head b ys x in
      let oy = All-left (λ c. c ≢ a) ys zs oz in
      let p : (h b).prev ≢ a = λ e. last_of-ne a l.head ys na oy (sym last ∙ e) in
      let apart =
        subst (λ k. All (λ c. c ≢ k) (b ∷ zs)) (sym last)
          (last_of-apart l.head ys (b ∷ zs) r.distinct
            (hb, All-right (λ c. c ≢ l.head) ys zs hz)) in
      let front_part =
        linked-Chain a b l h n p l.head ys x na oy (All-left (λ c. c ≢ b) ys zs ab)
          (All-left (λ c. c ≢ l.head) ys zs hz) (Distinct-left ys zs dz) in
      let back_part =
        kept-Chain a b l h n p l.head zs y na (λ e. hb (sym e)) (All-right (λ c. c ≢ a) ys zs oz)
          (All-right (λ c. c ≢ b) ys zs ab) apart.0 apart.1 in
      rw (same_list-none (h a).list free, same_list-same (h b).list l.head mb)
        (
          grown l,
          link a b l h,
          refl,
          linked_Holds b ys (b ∷ zs) r n p (
              subst (λ k. Chain (link a b l h) l.head k l.head) (append_assoc ys (a ∷ []) (b ∷ zs))
                (join-Chain (link a b l h) l.head b l.head (ys ++ (a ∷ [])) zs front_part
                  back_part)),
        )

-- The node before which to insert so that `zs` is behind, `none` for the end.
abbrev pub before_of : List ℕ → Option ℕ
before_of [] = none
before_of (b ∷ zs) = some b

-- Inserting a node that is in no list, before a node of a list or at its end, puts it there and leaves
-- the others in their order.
pub insert-Inserts :
    (a : ℕ) (l : IntrusiveList) (h : Store) (ys zs : List ℕ)
    → (h a).list ≡ none
    → Holds l h (ys ++ zs)
    → Inserts (ys ++ (a ∷ zs)) (insert a (before_of zs) l h)
insert-Inserts a l h ys [] n r = insert_end a l h n ys (subst (Holds l h) (nil_right ys) r)
insert-Inserts a l h ys (b ∷ zs) n r = insert_mid a l h n b ys zs r
