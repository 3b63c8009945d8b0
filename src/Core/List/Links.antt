-- ===== src/Core/List/Links.antt =====
-- What the links of an intrusive list stand for: a list of addresses.
use roc.Prelude.{
  ℕ, ◌%◌, ◌≡◌, ◌≢◌, refl, sym, ap, ◌∙◌, Option, none, some, List, [], ◌∷◌, ◌++◌, arith, length, All,
  All-left, All-right, true,
}
use roc.Packet.Units.{u64_mod}
use roc.Core.List.{Store, IntrusiveList, same_list}

-- From `u` through the nodes of a list to `v`, forwards and backwards.
abbrev pub Chain : Store → ℕ → List ℕ → ℕ → Type 0
Chain h u [] v = ((h u).next ≡ v) × ((h v).prev ≡ u)
Chain h u (x ∷ xs) v = ((h u).next ≡ x) × ((h x).prev ≡ u) × Chain h x xs v

abbrev pub Avoids : ℕ → List ℕ → Type 0
Avoids a xs = All (λ c. c ≢ a) xs

abbrev pub Distinct : List ℕ → Type 0
Distinct [] = Unit
Distinct (x ∷ xs) = Avoids x xs × Distinct xs

-- A list whose nodes are those of `xs`, in their order.
pub record Holds (l : IntrusiveList) (h : Store) (xs : List ℕ) : Type 0 where
  pub same_size : l.size ≡ length xs % u64_mod
  pub head_in : (h l.head).list ≡ some l.head
  pub members : All (λ c. (h c).list ≡ some l.head) xs
  pub distinct : Distinct xs
  pub not_head : Avoids l.head xs
  pub chain : Chain h l.head xs l.head

pub split-Chain :
    (h : Store) (u b v : ℕ) (ys zs : List ℕ)
    → Chain h u (ys ++ (b ∷ zs)) v
    → Chain h u ys b × Chain h b zs v
split-Chain h u b v [] zs (p, q, r) = ((p, q), r)
split-Chain h u b v (y ∷ ys) zs (p, q, r) =
    let (s, t) = split-Chain h y b v ys zs r in ((p, q, s), t)

pub join-Chain :
    (h : Store) (u b v : ℕ) (ys zs : List ℕ)
    → Chain h u ys b
    → Chain h b zs v
    → Chain h u (ys ++ (b ∷ zs)) v
join-Chain h u b v [] zs (p, q) r = (p, q, r)
join-Chain h u b v (y ∷ ys) zs (p, q, s) r = (p, q, join-Chain h y b v ys zs s r)

-- The last node before the end of a chain.
abbrev pub last_of : ℕ → List ℕ → ℕ
last_of u [] = u
last_of u (y ∷ ys) = last_of y ys

pub Chain-last : (h : Store) (u v : ℕ) (ys : List ℕ) → Chain h u ys v → (h v).prev ≡ last_of u ys
Chain-last h u v [] (p, q) = q
Chain-last h u v (y ∷ ys) (p, q, r) = Chain-last h y v ys r

pub last_of-ne : (a u : ℕ) (ys : List ℕ) → u ≢ a → Avoids a ys → last_of u ys ≢ a
last_of-ne a u [] n h = n
last_of-ne a u (y ∷ ys) n h = last_of-ne a y ys h.0 h.1

-- A chain whose links are the same elsewhere.
pub same-Chain :
    (h g : Store) (u v : ℕ) (xs : List ℕ)
    → ((g u).next ≡ (h u).next)
    → ((g v).prev ≡ (h v).prev)
    → All (λ c. ((g c).next ≡ (h c).next) × ((g c).prev ≡ (h c).prev)) xs
    → Chain h u xs v
    → Chain g u xs v
same-Chain h g u v [] n p a (x, y) = (n ∙ x, p ∙ y)
same-Chain h g u v (z ∷ xs) n p ((an, ap'), a) (x, y, r) =
    (n ∙ x, ap' ∙ y, same-Chain h g z v xs an p a r)

pub Avoids-insert :
    (x a : ℕ) (ys zs : List ℕ) → a ≢ x → Avoids x (ys ++ zs) → Avoids x (ys ++ (a ∷ zs))
Avoids-insert x a [] zs n h = (n, h)
Avoids-insert x a (y ∷ ys) zs n h = (h.0, Avoids-insert x a ys zs n h.1)

pub Distinct-insert :
    (a : ℕ) (ys zs : List ℕ) → Avoids a (ys ++ zs) → Distinct (ys ++ zs) → Distinct (ys ++ (a ∷ zs))
Distinct-insert a [] zs n d = (n, d)
Distinct-insert a (y ∷ ys) zs n d =
    (Avoids-insert y a ys zs (λ e. n.0 (sym e)) d.0, Distinct-insert a ys zs n.1 d.1)

pub All-insert {κ} :
    (P : ℕ → Type κ) (a : ℕ) (ys zs : List ℕ) → P a → All P (ys ++ zs) → All P (ys ++ (a ∷ zs))
All-insert P a [] zs p h = (p, h)
All-insert P a (y ∷ ys) zs p h = (h.0, All-insert P a ys zs p h.1)

pub All-remove {κ} :
    (P : ℕ → Type κ) (a : ℕ) (ys zs : List ℕ) → All P (ys ++ (a ∷ zs)) → P a × All P (ys ++ zs)
All-remove P a [] zs h = h
All-remove P a (y ∷ ys) zs h = let (p, q) = All-remove P a ys zs h.1 in (p, (h.0, q))

pub Distinct-remove :
    (a : ℕ) (ys zs : List ℕ) → Distinct (ys ++ (a ∷ zs)) → Avoids a (ys ++ zs) × Distinct (ys ++ zs)
Distinct-remove a [] zs d = d
Distinct-remove a (y ∷ ys) zs d =
    let (n, e) = Distinct-remove a ys zs d.1 in
    let (m, r) = All-remove (λ c. c ≢ y) a ys zs d.0 in (((λ q. m (sym q)), n), (r, e))

pub Distinct-left : (ys zs : List ℕ) → Distinct (ys ++ zs) → Distinct ys
Distinct-left [] zs d = tt
Distinct-left (y ∷ ys) zs d = (All-left (λ c. c ≢ y) ys zs d.0, Distinct-left ys zs d.1)

-- The first node of a list, or what stands behind it.
abbrev pub first_of : List ℕ → ℕ → ℕ
first_of [] v = v
first_of (z ∷ zs) v = z

pub Chain-first : (h : Store) (u v : ℕ) (zs : List ℕ) → Chain h u zs v → (h u).next ≡ first_of zs v
Chain-first h u v [] x = x.0
Chain-first h u v (z ∷ zs) x = x.0

pub first_of-apart :
    (v : ℕ) (ys zs : List ℕ) → Distinct (ys ++ zs) → Avoids v ys → All (λ c. c ≢ first_of zs v) ys
first_of-apart v [] zs d h = tt
first_of-apart v (y ∷ ys) [] d h = (h.0, first_of-apart v ys [] d.1 h.1)
first_of-apart v (y ∷ ys) (z ∷ zs) d h =
    let (q, r) = All-remove (λ c. c ≢ y) z ys zs d.0 in
    ((λ e. q (sym e)), first_of-apart v ys (z ∷ zs) d.1 h.1)

-- A node outside of all lists is neither the head nor a node of a list.
pub outside :
    (l : IntrusiveList) (h : Store) (a : ℕ) (xs : List ℕ)
    → (h a).list ≡ none
    → All (λ c. (h c).list ≡ some l.head) xs
    → Avoids a xs
outside l h a [] n m = tt
outside l h a (x ∷ xs) n m =
    (λ e. (let q = ap (λ c. (h c).list) e in absurd (cc)), outside l h a xs n m.1)

pub last_of-apart :
    (u : ℕ) (ys zs : List ℕ) → Distinct (ys ++ zs) → Avoids u zs → All (λ c. c ≢ last_of u ys) zs
last_of-apart u [] zs d h = h
last_of-apart u (y ∷ ys) zs d h = last_of-apart y ys zs d.1 (All-right (λ c. c ≢ y) ys zs d.0)

pub same_list-same : (o : Option ℕ) (n : ℕ) → o ≡ some n → same_list o (some n) ≡ true
same_list-same none n e = absurd (cc)
same_list-same (some m) n e = let q : m ≡ n = cc in ground arith

pub same_list-none : (o : Option ℕ) → o ≡ none → same_list o none ≡ true
same_list-none none e = refl
same_list-none (some m) e = absurd (cc)
