-- ===== src/Etree/Tests.antt =====
-- The theorems on trees, at a tree of four numbers where one change more makes a rotation.
use Prim.Native.Nat.{compare, Ordering}
use egui.Prelude.{ℕ, ◌<◌, ◌≡◌, ◌≢◌, refl, arith, Bool, true, false, some, List, [], ◌∷◌}
use egui.Prelude.Int.{pos}
use egui.Etree.{
  Sign, less, same, greater, Node, leaf, node, Tree, Event, value_gone, rebalance, insert_internal,
  remove_internal, lookup, insert_at, climb_right, rotate_left, remove_at, drop_left, remove_node,
}
use egui.Etree.Balance.{entries, Avl, level, right_high}
use egui.Etree.Order.{IsOrder, put, entry_at}
use egui.Etree.Delete.{without}
use egui.Etree.Inv.{
  IsValid, destroyed, insert_internal-IsValid, lookup-insert_internal, lookup-entry_at, value_of,
}
use egui.Etree.Depth.{way, way_lem}
use egui.Etree.Erase.{is_some, released, remove_internal-IsValid, lookup-remove_internal}

abbrev by_number : ℕ → ℕ → Sign
by_number a b = elim (compare a b) [
  | Ordering.lt ↦ less
  | Ordering.eq ↦ same
  | Ordering.gt ↦ greater
]

by_number-IsOrder : IsOrder by_number
by_number-IsOrder = record {
  reflexive = λ a. ground arith;
  flip_less = λ a b e. ground arith;
  flip_greater = λ a b e. ground arith;
  trans = λ a b c e f. ground arith;
  same_all = λ a b c e. ground arith;
}

abbrev single : ℕ → ℕ → Node
single k v = node leaf k v (pos 0) leaf

abbrev four : Tree
four = record {
  root = node (single 1 10) 2 20 (pos 1) (node leaf 3 30 (pos 1) (single 4 40));
  destroys_key = false;
  destroys_value = true;
  nnodes = 4;
}

four-Avl : Avl 3 four.root
four-Avl = (
  1,
  2,
  (0, 0, refl, refl, level refl refl),
  (0, 1, refl, (0, 0, refl, refl, level refl refl), right_high refl refl),
  right_high refl refl,
)

four-IsValid : IsValid by_number four
four-IsValid = record {
  high = 3;
  balanced = four-Avl;
  sorted = ((refl, (refl, (refl, tt))), ((refl, (refl, tt)), ((refl, tt), (tt, tt))));
  counted = refl;
}

insert_rotates :
    insert_internal by_number four 5 50 false
    ≡ some (
      record four {
        root = node (single 1 10) 2 20 (pos 1) (node (single 3 30) 4 40 (pos 0) (single 5 50));
        nnodes = 5;
      },
      [],
    )
unfolding insert_internal insert_at climb_right rebalance rotate_left
insert_rotates = refl

remove_rotates :
    remove_internal by_number four 1 false
    ≡ some (
      (true, record four { root = node (single 2 20) 3 30 (pos 0) (single 4 40); nnodes = 3 }),
      value_gone 10 ∷ [],
    )
unfolding remove_internal remove_at drop_left remove_node rebalance rotate_left
remove_rotates = refl

insert_internal-IsValid_example :
    (t' : Tree) × (insert_internal by_number four 3 33 true
      ≡ some (t', destroyed four 3 true (entry_at by_number 3 (entries four.root))))
    × (entries t'.root ≡ put by_number true 3 33 (entries four.root))
    × IsValid by_number t'
insert_internal-IsValid_example =
    insert_internal-IsValid by_number by_number-IsOrder four four-IsValid 3 33 true

lookup-insert_internal_example :
    (t' : Tree) × (events : List Event) × (insert_internal by_number four 5 50 false
      ≡ some (t', events))
    × (lookup by_number t' 5 ≡ 50)
    × ((j : ℕ) → by_number j 5 ≢ same → lookup by_number t' j ≡ lookup by_number four j)
lookup-insert_internal_example =
    lookup-insert_internal by_number by_number-IsOrder four four-IsValid 5 50 false

remove_internal-IsValid_example :
    (t' : Tree) × (remove_internal by_number four 1 false
      ≡ some (
        (is_some (entry_at by_number 1 (entries four.root)), t'),
        released four false (entry_at by_number 1 (entries four.root)),
      ))
    × (entries t'.root ≡ without by_number 1 (entries four.root))
    × IsValid by_number t'
remove_internal-IsValid_example =
    remove_internal-IsValid by_number by_number-IsOrder four four-IsValid 1 false

lookup-remove_internal_example :
    (found : Bool) × (t' : Tree) × (events : List Event) × (remove_internal by_number four 2 true
      ≡ some ((found, t'), events))
    × (lookup by_number t' 2 ≡ 0)
    × ((j : ℕ) → by_number j 2 ≢ same → lookup by_number t' j ≡ lookup by_number four j)
lookup-remove_internal_example =
    lookup-remove_internal by_number by_number-IsOrder four four-IsValid 2 true

lookup-entry_at_example :
    lookup by_number four 3 ≡ value_of (entry_at by_number 3 (entries four.root))
lookup-entry_at_example = lookup-entry_at by_number by_number-IsOrder four 3 four-IsValid

way_lem_example : way by_number 4 four.root < 40
way_lem_example = way_lem by_number four four-IsValid (omega arith) 4
