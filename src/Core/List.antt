-- ===== src/Core/List.antt =====
-- src/modules/roc_core/list.h and list_node.h. The nodes of all lists stand in one store, by their
-- addresses, and the list that a node is a member of is the address of its head. `none` is a panic. The
-- counting of references by the ownership policy is left out.
pub mod Links
pub mod Insert
pub mod Remove
pub mod Walk
use roc.Prelude.{
  ℕ, ◌+◌, ◌-◌, ◌%◌, Bool, true, false, Option, none, some, ◌==◌, if◌then◌else◌, ◌>>=◌,
}
use roc.Packet.Units.{u64_mod}

pub record ListNodeData : Type 0 where
  pub prev : ℕ
  pub next : ℕ
  pub list : Option ℕ

abbrev pub Store : Type 0
Store = ℕ → ListNodeData

abbrev pub put : ℕ → ListNodeData → Store → Store
put a n h c = if c == a then n else h c

-- `List`, whose head has an address of its own.
pub record IntrusiveList : Type 0 where
  pub head : ℕ
  pub size : ℕ

-- A list is constructed at the address of its head.
unfoldable pub init : ℕ → Store → IntrusiveList × Store
init head h = (
  record { head = head; size = 0 },
  put head (record { prev = head; next = head; list = some head }) h,
)

unfoldable pub front : IntrusiveList → Store → Option ℕ
front l h = if l.size == 0 then none else some (h l.head).next

unfoldable pub back : IntrusiveList → Store → Option ℕ
back l h = if l.size == 0 then none else some (h l.head).prev

abbrev pub same_list : Option ℕ → Option ℕ → Bool
same_list none none = true
same_list none (some b) = false
same_list (some a) none = false
same_list (some a) (some b) = a == b

-- The inner `none` is the end of the list.
unfoldable pub nextof : ℕ → IntrusiveList → Store → Option (Option ℕ)
nextof a l h =
    if same_list (h a).list (some l.head)
    then some (if (h a).next == l.head then none else some (h a).next)
    else none

-- Links a node in before another one or the head.
unfoldable pub link : ℕ → ℕ → IntrusiveList → Store → Store
link a before l h =
    let h1 = put a (record (h a) { prev = (h before).prev; next = before }) h in
    let h2 = put (h1 before).prev (record (h1 (h1 before).prev) { next = a }) h1 in
    let h3 = put before (record (h2 before) { prev = a }) h2 in
    put a (record (h3 a) { list = some l.head }) h3

abbrev pub grown : IntrusiveList → IntrusiveList
grown l = record l { size = (l.size + 1) % u64_mod }

abbrev pub insert_at : ℕ → ℕ → IntrusiveList → Store → IntrusiveList × Store
insert_at a before l h = (grown l, link a before l h)

-- `none` for `before` is the end of the list.
unfoldable pub insert : ℕ → Option ℕ → IntrusiveList → Store → Option (IntrusiveList × Store)
insert a none l h = if same_list (h a).list none then some (insert_at a l.head l h) else none
insert a (some before) l h =
    if same_list (h a).list none
    then (if same_list (h before).list (some l.head) then some (insert_at a before l h) else none)
    else none

unfoldable pub push_front : ℕ → IntrusiveList → Store → Option (IntrusiveList × Store)
push_front a l h = if l.size == 0 then insert a none l h else insert a (some (h l.head).next) l h

unfoldable pub push_back : ℕ → IntrusiveList → Store → Option (IntrusiveList × Store)
push_back a l h = insert a none l h

unfoldable pub insert_before : ℕ → ℕ → IntrusiveList → Store → Option (IntrusiveList × Store)
insert_before a before l h = insert a (some before) l h

unfoldable pub unlink : ℕ → Store → Store
unlink a h =
    let h1 = put (h a).prev (record (h (h a).prev) { next = (h a).next }) h in
    let h2 = put (h1 a).next (record (h1 (h1 a).next) { prev = (h1 a).prev }) h1 in
    put a (record (h2 a) { list = none }) h2

unfoldable pub remove : ℕ → IntrusiveList → Store → Option (IntrusiveList × Store)
remove a l h =
    if same_list (h a).list (some l.head)
    then some (record l { size = (l.size + u64_mod - 1) % u64_mod }, unlink a h)
    else none
