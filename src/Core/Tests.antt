-- ===== src/Core/Tests.antt =====
-- Tests of the containers of src/modules/roc_core, and their theorems at concrete inputs.
use roc.Prelude.{◌≡◌, refl, none, some, [], ◌∷◌, arith}
use roc.Core.List.{Store, IntrusiveList, insert, remove, nextof, put}
use roc.Core.List.Links.{Holds}
use roc.Core.List.Insert.{Inserts, insert-Inserts}
use roc.Core.List.Remove.{remove-Removes}
use roc.Core.List.Walk.{nextof_lem}

abbrev blank : Store
blank c = record { prev = 0; next = 0; list = none }

-- A list with the head 100 and the nodes 1 and 2.
abbrev list_at : IntrusiveList
list_at = record { head = 100; size = 2 }

abbrev store_at : Store
store_at =
    put 1 (record { prev = 100; next = 2; list = some 100 })
      (put 2 (record { prev = 1; next = 100; list = some 100 })
        (put 100 (record { prev = 2; next = 1; list = some 100 }) blank))

list_at-Holds : Holds list_at store_at (1 ∷ 2 ∷ [])
list_at-Holds = record {
  same_size = omega arith;
  head_in = refl;
  members = (refl, (refl, tt));
  distinct = ((omega arith, tt), (tt, tt));
  not_head = (omega arith, (omega arith, tt));
  chain = (refl, refl, (refl, refl, (refl, refl)));
}

insert-Inserts_example : Inserts (1 ∷ 3 ∷ 2 ∷ []) (insert 3 (some 2) list_at store_at)
insert-Inserts_example = insert-Inserts 3 list_at store_at (1 ∷ []) (2 ∷ []) refl list_at-Holds

remove-Removes_example :
    (l : IntrusiveList) × (g : Store) × (remove 1 list_at store_at ≡ some (l, g))
    × Holds l g (2 ∷ [])
    × ((g 1).list ≡ none)
remove-Removes_example = remove-Removes 1 list_at store_at [] (2 ∷ []) list_at-Holds

nextof_lem_example : nextof 1 list_at store_at ≡ some (some 2)
nextof_lem_example = nextof_lem list_at store_at 1 [] (2 ∷ []) list_at-Holds
