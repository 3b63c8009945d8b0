-- ===== src/Core/List/Remove.antt =====
-- Unlinking a node from an intrusive list.
use roc.Prelude.{
  ℕ, ◌+◌, ◌-◌, ◌%◌, ◌≡◌, ◌≢◌, refl, sym, subst, ◌∙◌, none, some, List, [], ◌∷◌, ◌++◌, arith, length,
  length-append, All, All-left, All-right, ◌==◌, if◌then◌else◌,
}
use roc.Packet.Units.{u64_mod}
use roc.Core.List.{Store, IntrusiveList, unlink, remove}
use roc.Core.List.Links.{
  Chain, Avoids, Distinct, Holds, split-Chain, Chain-last, last_of-ne, same-Chain, last_of-apart,
  Distinct-remove, Distinct-left, All-remove, same_list-same, first_of, Chain-first, first_of-apart,
}

-- The store after a node was unlinked, node by node.
module _ (a : ℕ) (h : Store) (pne : (h a).prev ≢ a) (nne : (h a).next ≢ a) where
  next_lem : (c : ℕ) → (unlink a h c).next ≡ (if c == (h a).prev then (h a).next else (h c).next)
  unfolding unlink
  next_lem c = ground (arith, pne, nne)

  prev_lem : (c : ℕ) → (unlink a h c).prev ≡ (if c == (h a).next then (h a).prev else (h c).prev)
  unfolding unlink
  prev_lem c = ground (arith, pne, nne)

  list_lem : (c : ℕ) → (unlink a h c).list ≡ (if c == a then none else (h c).list)
  unfolding unlink
  list_lem c = ground (arith, pne, nne)

  -- Behind the node that is gone.
  kept-Chain :
      (z v : ℕ) (zs : List ℕ)
      → Chain h z zs v
      → v ≢ (h a).next
      → All (λ c. c ≢ (h a).prev) (z ∷ zs)
      → All (λ c. c ≢ (h a).next) zs
      → Chain (unlink a h) z zs v
  kept-Chain z v zs x vn hp hn =
      same-Chain h (unlink a h) z v zs (let e = next_lem z in ground (arith, e, hp.0))
        (let e = prev_lem v in ground (arith, e, vn)) (same zs hp.1 hn) x
    where
      same :
          (zs : List ℕ)
          → All (λ c. c ≢ (h a).prev) zs
          → All (λ c. c ≢ (h a).next) zs
          → All (λ c. ((unlink a h c).next ≡ (h c).next) × ((unlink a h c).prev ≡ (h c).prev)) zs
      same [] x y = tt
      same (c ∷ zs) x y = (
        (
          (let e = next_lem c in ground (arith, e, x.0)),
          let e = prev_lem c in ground (arith, e, y.0),
        ),
        same zs x.1 y.1,
      )

  removed-Chain :
      (u v : ℕ) (ys zs : List ℕ)
      → Chain h u ys a
      → Chain h a zs v
      → All (λ c. c ≢ (h a).next) ys
      → All (λ c. c ≢ (h a).prev) zs
      → Distinct zs
      → Avoids v zs
      → Avoids u ys
      → Distinct ys
      → Chain (unlink a h) u (ys ++ zs) v
  removed-Chain u v [] [] (p, q) (r, s) hn hp d hv hu dy = (
    (let e = next_lem u in ground (arith, e, q, r)),
    let e = prev_lem v in ground (arith, e, q, r),
  )
  removed-Chain u v [] (z ∷ zs) (p, q) (r, s, t) hn hp d hv hu dy = (
    (let e = next_lem u in ground (arith, e, q, r)),
    (let e = prev_lem z in ground (arith, e, q, r)),
    kept-Chain z v zs t (λ e. hv.0 (sym (e ∙ r))) hp (subst (λ k. All (λ c. c ≢ k) zs) (sym r) d.0),
  )
  removed-Chain u v (y ∷ ys) zs (p, q, x) t hn hp d hv hu dy =
      let far : (h a).prev ≢ u =
        λ e. last_of-ne u y ys hu.0 hu.1 (sym (Chain-last h y a ys x) ∙ e) in
      (
        (let e = next_lem u in ground (arith, e, p, far)),
        (let e = prev_lem y in ground (arith, e, q, hn.0)),
        removed-Chain y v ys zs x t hn.1 hp d hv dy.0 dy.1,
      )

  listed :
      (l : ℕ) (xs : List ℕ)
      → Avoids a xs
      → All (λ c. (h c).list ≡ some l) xs
      → All (λ c. (unlink a h c).list ≡ some l) xs
  listed l [] x m = tt
  listed l (c ∷ xs) x m = ((let e = list_lem c in ground (arith, e, x.0, m.0)), listed l xs x.1 m.1)

size_lem :
    (ys zs : List ℕ) (a n : ℕ)
    → n ≡ length (ys ++ (a ∷ zs)) % u64_mod
    → (n + u64_mod - 1) % u64_mod ≡ length (ys ++ zs) % u64_mod
size_lem ys zs a n e = omega (arith, e, length-append ys zs, length-append ys (a ∷ zs))

module _ (a : ℕ) (l : IntrusiveList) (h : Store) where
  -- Removing a node of a list takes it out and leaves the others in their order, and the node is then a
  -- member of no list.
  pub remove-Removes :
      (ys zs : List ℕ)
      → Holds l h (ys ++ (a ∷ zs))
      → (l' : IntrusiveList) × (g : Store) × (remove a l h ≡ some (l', g))
        × Holds l' g (ys ++ zs)
        × ((g a).list ≡ none)
  unfolding remove
  remove-Removes ys zs r =
      let (ma, ms) = All-remove (λ c. (h c).list ≡ some l.head) a ys zs r.members in
      let (ha, hs) = All-remove (λ c. c ≢ l.head) a ys zs r.not_head in
      let (oa, d) = Distinct-remove a ys zs r.distinct in
      let (x, y) = split-Chain h l.head a l.head ys zs r.chain in
      let last = Chain-last h l.head a ys x in
      let first = Chain-first h a l.head zs y in
      let hy = All-left (λ c. c ≢ l.head) ys zs hs in
      let hz = All-right (λ c. c ≢ l.head) ys zs hs in
      let na : l.head ≢ a = λ e. ha (sym e) in
      let p : (h a).prev ≢ a =
        λ e. last_of-ne a l.head ys na (All-left (λ c. c ≢ a) ys zs oa) (sym last ∙ e) in
      let n : (h a).next ≢ a =
        λ e. first_ne zs na (All-right (λ c. c ≢ a) ys zs oa) (sym first ∙ e) in
      let hp = subst (λ k. All (λ c. c ≢ k) zs) (sym last) (last_of-apart l.head ys zs d hz) in
      let hn = subst (λ k. All (λ c. c ≢ k) ys) (sym first) (first_of-apart l.head ys zs d hy) in
      rw (same_list-same (h a).list l.head ma) (
        record l { size = (l.size + u64_mod - 1) % u64_mod },
        unlink a h,
        refl,
        record {
          same_size = size_lem ys zs a l.size r.same_size;
          head_in = (let e = list_lem a h p n l.head in ground (arith, e, na, r.head_in));
          members = listed a h p n l.head (ys ++ zs) oa ms;
          distinct = d;
          not_head = hs;
          chain =
              removed-Chain a h p n l.head l.head ys zs x y hn hp (Distinct-right ys zs d) hz hy
                (Distinct-left ys zs d);
        },
        (let e = list_lem a h p n a in ground (arith, e)),
      )
    where
      first_ne : (zs : List ℕ) → l.head ≢ a → Avoids a zs → first_of zs l.head ≢ a
      first_ne [] n h = n
      first_ne (z ∷ zs) n h = h.0

      Distinct-right : (ys zs : List ℕ) → Distinct (ys ++ zs) → Distinct zs
      Distinct-right [] zs d = d
      Distinct-right (y ∷ ys) zs d = Distinct-right ys zs d.1
