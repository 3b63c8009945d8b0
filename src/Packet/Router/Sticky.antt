-- ===== src/Packet/Router/Sticky.antt =====
-- A stream stays with the writer that its first packet was given to.
use roc.Prelude.{
  ℕ, ◌≡◌, ◌≢◌, ◌⊎◌, inl, inr, true, false, some, List, [], ◌∷◌, ◌++◌, arith, sym, subst,
}
use roc.Packet.Types.{Packet, source}
use roc.Packet.Router.{Route, Router, flags_differ, route, write, add_route}

-- The route never takes a packet with the flags and the source of `p`.
abbrev Refuses : Packet → Route → Type 0
Refuses p r = (flags_differ r p ≡ true) ⊎ ((r.has_source ≡ true) × (r.source ≢ source p))

-- The route is bound to the source of `p` and takes packets with its flags.
abbrev Serves : Packet → Route → Type 0
Serves p r = (flags_differ r p ≡ false) × (r.has_source ≡ true) × (r.source ≡ source p)

-- The first route that does not refuse `p` serves it, and leads to `w`.
abbrev Bound : Packet → ℕ → List Route → Type 0
Bound p w [] = ⊥
Bound p w (r ∷ rs) = (Serves p r × (r.writer ≡ w)) ⊎ (Refuses p r × Bound p w rs)

-- A packet that was given to `w` has bound its stream to `w`.
route-Bound :
    (p : Packet) (w : ℕ) (rs : List Route) → (route p rs).0 ≡ some w → Bound p w (route p rs).1
unfolding route
route-Bound p w [] h = cc
route-Bound p w (r ∷ rs) h = ground (arith, route-Bound p w rs)

-- No other packet changes what a stream is bound to.
Bound-route : (p q : Packet) (w : ℕ) (rs : List Route) → Bound p w rs → Bound p w (route q rs).1
unfolding route
Bound-route p q w [] b = b
Bound-route p q w (r ∷ rs) b = ground (arith, Bound-route p q w rs)

Bound-decides : (p : Packet) (w : ℕ) (rs : List Route) → Bound p w rs → (route p rs).0 ≡ some w
unfolding route
Bound-decides p w [] b = absurd b
Bound-decides p w (r ∷ rs) b = ground (arith, Bound-decides p w rs)

pub data RouterOp : Type 0 where
  adds : ℕ → ℕ → RouterOp
  writes : Packet → RouterOp

pub step : Router → RouterOp → Router
step t (adds writer flags) = (add_route writer flags t).1
step t (writes p) = (write p t).1

pub run : Router → List RouterOp → Router
run t [] = t
run t (o ∷ os) = run (step t o) os

Bound-append : (p : Packet) (w : ℕ) (rs ss : List Route) → Bound p w rs → Bound p w (rs ++ ss)
Bound-append p w [] ss b = absurd b
Bound-append p w (r ∷ rs) ss (inl s) = inl s
Bound-append p w (r ∷ rs) ss (inr (f, b)) = inr (f, Bound-append p w rs ss b)

add_route_cases :
    (writer flags : ℕ) (t : Router)
    → ((add_route writer flags t).1.routes ≡ t.routes)
      ⊎ ((add_route writer flags t).1.routes
          ≡ t.routes
            ++ (record { writer = writer; flags = flags; source = 0; has_source = false } ∷ []))
unfolding add_route
add_route_cases writer flags t = ground arith

step-Bound :
    (p : Packet) (w : ℕ) (t : Router) (o : RouterOp)
    → Bound p w t.routes
    → Bound p w (step t o).routes
unfolding step write
step-Bound p w t (adds writer flags) b = elim (add_route_cases writer flags t) [
  | inl e ↦ subst (Bound p w) (sym e) b
  | inr e ↦ subst (Bound p w) (sym e) (Bound-append p w t.routes _ b)
]
step-Bound p w t (writes q) b = Bound-route p q w t.routes b

run-Bound :
    (p : Packet) (w : ℕ) (t : Router) (os : List RouterOp)
    → Bound p w t.routes
    → Bound p w (run t os).routes
unfolding run
run-Bound p w t [] b = b
run-Bound p w t (o ∷ os) b = run-Bound p w (step t o) os (step-Bound p w t o b)

-- Once a packet was given to a writer, each later packet of the same source and flags is given to
-- the same writer, whatever routes were added and whatever other packets came in between.
pub write-sticky :
    (p q : Packet) (w : ℕ) (t : Router) (os : List RouterOp)
    → (write p t).0 ≡ some w
    → q.flags ≡ p.flags
    → source q ≡ source p
    → (write q (run (write p t).1 os)).0 ≡ some w
unfolding write flags_differ
write-sticky p q w t os h hf hs = Bound-decides q w (run (write p t).1 os).routes (
    Bound-same (run (write p t).1 os).routes
      (run-Bound p w (write p t).1 os (route-Bound p w t.routes h)))
  where
    Bound-same : (rs : List Route) → Bound p w rs → Bound q w rs
    Bound-same [] b = b
    Bound-same (r ∷ rs) b = ground (arith, Bound-same rs)
