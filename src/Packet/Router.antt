-- ===== src/Packet/Router.antt =====
-- src/modules/roc_packet/router.cpp. A writer is named by a number; a write returns the writer that
-- gets the packet, `none` if it is dropped.
pub mod Sticky
use roc.Prelude.{
  ℕ, ◌&&◌, Bool, true, false, Option, none, some, List, [], ◌∷◌, ◌++◌, bit_and, ◌==◌, if◌then◌else◌,
  not, length,
}
use roc.Packet.Types.{Packet, source}

pub record Route : Type 0 where
  pub writer : ℕ
  pub flags : ℕ
  pub source : ℕ
  pub has_source : Bool

pub record Router : Type 0 where
  pub routes : List Route
  pub max_size : ℕ

unfoldable pub add_route : ℕ → ℕ → Router → Bool × Router
add_route writer flags t = if length t.routes == t.max_size then (false, t) else (
  true,
  record t {
    routes =
        t.routes
        ++ (record { writer = writer; flags = flags; source = 0; has_source = false } ∷ []);
  },
)

-- The two tests that make the loop go on to the next route.
unfoldable pub flags_differ : Route → Packet → Bool
flags_differ r p = not (r.flags == 0) && not (bit_and r.flags p.flags == r.flags)

unfoldable pub source_differs : Route → Packet → Bool
source_differs r p = r.has_source && not (r.source == source p)

unfoldable pub bind_source : Route → Packet → Route
bind_source r p = if r.has_source then r else record r { source = source p; has_source = true }

-- The loop of `write`.
unfoldable pub route : Packet → List Route → Option ℕ × List Route
unfolding flags_differ source_differs bind_source
route p [] = (none, [])
route p (r ∷ rs) =
    let rest = route p rs in
    if flags_differ r p
    then (rest.0, r ∷ rest.1)
    else if source_differs r p
    then (rest.0, r ∷ rest.1)
    else (some r.writer, bind_source r p ∷ rs)

unfoldable pub write : Packet → Router → Option ℕ × Router
write p t = let r = route p t.routes in (r.0, record t { routes = r.1 })
