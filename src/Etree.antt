-- ===== src/Etree.antt =====
-- elib/etree.c: the balanced binary search tree of elib.
-- A node has two subtrees where the code has two pointers and the flags `left_child` and
-- `right_child`; where a flag is not set, the pointer leads to the neighbour in key order, which a
-- subtree knows without it. The loop down is recursion, and the loop back up the array `path` is what
-- follows the recursive call. `key_compare` is an argument. A key or value is an address (0 is NULL).
pub mod Balance
pub mod Insert
pub mod Order
pub mod Lookup
pub mod Inv
pub mod Remove
pub mod Delete
pub mod Depth
pub mod Erase
mod Tests
use egui.Prelude.{
  ◌>>=◌, ℕ, ◌+◌, ◌-◌, Bool, true, false, Option, none, some, List, [], ◌∷◌, ◌++◌, not, ◌==◌,
  if◌then◌else◌,
}
use egui.Prelude.Int.{ℤ, pos, negsuc, ◌+ℤ◌, ◌-ℤ◌, ltb_ℤ, leb_ℤ, pos_part}

-- The sign of an `int` that a compare function returns.
pub data Sign : Type 0 where
  less same greater : Sign

-- `eTreeNode`, or its absence
pub data Node : Type 0 where
  leaf : Node
  node : Node → (key value : ℕ) → ℤ → Node → Node

-- A call of a destroy function.
pub data Event : Type 0 where
  key_gone value_gone : ℕ → Event

-- `struct _eTree` less the compare function; a flag tells that the destroy function is not NULL.
pub record Tree : Type 0 where
  pub root : Node
  pub destroys_key : Bool
  pub destroys_value : Bool
  pub nnodes : ℕ

abbrev pub new_full : (destroys_key destroys_value : Bool) → Tree
new_full k v = record { root = leaf; destroys_key = k; destroys_value = v; nnodes = 0 }

abbrev pub balance_of : Node → ℤ
balance_of leaf = pos 0
balance_of (node _ _ _ b _) = b

-- `none` where the code would follow a pointer that is no child.
pub rotate_left : Node → Option Node
rotate_left leaf = none
rotate_left (node l k v a leaf) = none
rotate_left (node l k v a (node m k' v' b r)) = some (
    if leb_ℤ b (pos 0)
    then node (node l k v (a -ℤ pos 1) m) k' v'
        (if leb_ℤ (pos 1) a then b -ℤ pos 1 else a +ℤ b -ℤ pos 2) r
    else node (node l k v (a -ℤ b -ℤ pos 1) m) k' v' (if leb_ℤ a b then a -ℤ pos 2 else b -ℤ pos 1)
        r)

pub rotate_right : Node → Option Node
rotate_right leaf = none
rotate_right (node leaf k v a r) = none
rotate_right (node (node l k' v' b m) k v a r) = some (
    if leb_ℤ b (pos 0)
    then node l k' v' (if ltb_ℤ a b then b +ℤ pos 1 else a +ℤ pos 2)
        (node m k v (a -ℤ b +ℤ pos 1) r)
    else node l k' v' (if leb_ℤ a (negsuc 0) then b +ℤ pos 1 else a +ℤ b +ℤ pos 2)
        (node m k v (a +ℤ pos 1) r))

-- `e_tree_node_balance`
pub rebalance : Node → Option Node
rebalance leaf = some leaf
rebalance (node l k v b r) =
    if ltb_ℤ b (negsuc 0)
    then (do
      l ← if ltb_ℤ (pos 0) (balance_of l) then rotate_left l else some l
      rotate_right (node l k v b r))
    else if ltb_ℤ (pos 1) b
    then (do
      r ← if ltb_ℤ (balance_of r) (pos 0) then rotate_right r else some r
      rotate_left (node l k v b r))
    else some (node l k v b r)

abbrev pub is_level : ℤ → Bool
is_level (pos n) = n == 0
is_level (negsuc n) = false

-- A subtree after a change, whether its height changed, which the loop on the way up asks for, and
-- the key and value that were there before.
pub record Change : Type 0 where
  pub tree : Node
  pub taller : Bool
  pub old : Option (ℕ × ℕ)

-- One round of the loop at the end of `e_tree_insert_internal`: a subtree grew.
pub climb_left : Change → (key value : ℕ) → ℤ → Node → Option Change
climb_left c k v b r =
    if c.taller
    then (do
      t ← rebalance (node c.tree k v (b -ℤ pos 1) r)
      some (record c { tree = t; taller = not (is_level (balance_of t)) }))
    else some (record c { tree = node c.tree k v b r })

pub climb_right : Node → (key value : ℕ) → ℤ → Change → Option Change
climb_right l k v b c =
    if c.taller
    then (do
      t ← rebalance (node l k v (b +ℤ pos 1) c.tree)
      some (record c { tree = t; taller = not (is_level (balance_of t)) }))
    else some (record c { tree = node l k v b c.tree })

-- A subtree after a removal, whether it is lower than before, which the loop on the way up asks
-- for, and the entry that left it.
pub record Removal : Type 0 where
  pub tree : Node
  pub lower : Bool
  pub old : Option (ℕ × ℕ)

-- One round of the loop at the end of `e_tree_remove_internal`: a subtree shrank.
pub drop_left : Removal → (key value : ℕ) → ℤ → Node → Option Removal
drop_left c k v b r =
    if c.lower
    then (do
      t ← rebalance (node c.tree k v (b +ℤ pos 1) r)
      some (record c { tree = t; lower = is_level (balance_of t) }))
    else some (record c { tree = node c.tree k v b r })

pub drop_right : Node → (key value : ℕ) → ℤ → Removal → Option Removal
drop_right l k v b c =
    if c.lower
    then (do
      t ← rebalance (node l k v (b -ℤ pos 1) c.tree)
      some (record c { tree = t; lower = is_level (balance_of t) }))
    else some (record c { tree = node l k v b c.tree })

-- `while (next->left_child)`: the first node of the right subtree, `next`, leaves it.
pub take_first : Node → Option Removal
take_first leaf = none
take_first (node leaf k v b r) = some (record { tree = r; lower = true; old = some (k, v) })
take_first (node (node l i u a m) k v b r) = do c ← take_first (node l i u a m); drop_left c k v b r

-- The node `next` takes the place of the one that goes.
pub put_next : Node → ℤ → Removal → Option Removal
put_next l b c = elim c.old [ none ↦ none | some (k, v) ↦ drop_right l k v b c ]

-- The node with the key leaves the tree: the four cases of its children.
pub remove_node : Node → (key value : ℕ) → ℤ → Node → Option Removal
remove_node leaf k v b leaf = some (record { tree = leaf; lower = true; old = some (k, v) })
remove_node leaf k v b (node l i u a r) =
    some (record { tree = node l i u a r; lower = true; old = some (k, v) })
remove_node (node l i u a r) k v b leaf =
    some (record { tree = node l i u a r; lower = true; old = some (k, v) })
remove_node (node l i u a r) k v b (node l' j w d r') = do
  c ← take_first (node l' j w d r')
  made ← put_next (node l i u a r) b c
  some (record made { old = some (k, v) })

-- The counter, and the calls of destroy functions in their order.
abbrev pub after_insert : Tree → ℕ → Bool → Node → Option (ℕ × ℕ) → Tree × List Event
after_insert t key replace root none = (record t { root = root; nnodes = t.nnodes + 1 }, [])
after_insert t key replace root (some (old_key, old_value)) = (
  record t { root = root },
  (if t.destroys_value then value_gone old_value ∷ [] else [])
      ++ (if t.destroys_key then key_gone (if replace then old_key else key) ∷ [] else []),
)

abbrev pub after_remove : Tree → (steal : Bool) → Node → Option (ℕ × ℕ) → (Bool × Tree) × List Event
after_remove t steal root none = ((false, t), [])
after_remove t steal root (some (key, value)) = (
  (true, record t { root = root; nnodes = t.nnodes - 1 }),
  if not steal
      then (if t.destroys_key then key_gone key ∷ [] else [])
        ++ (if t.destroys_value then value_gone value ∷ [] else [])
      else [],
)

module _ (compare : ℕ → ℕ → Sign) where
  pub insert_at : (replace : Bool) → (key value : ℕ) → Node → Option Change
  insert_at replace k v leaf =
      some (record { tree = node leaf k v (pos 0) leaf; taller = true; old = none })
  insert_at replace k v (node l k' v' b r) = elim (compare k k') [
    | same ↦ some (record {
      tree = node l (if replace then k else k') v b r;
      taller = false;
      old = some (k', v');
    })
    | less ↦ do c ← insert_at replace k v l; climb_left c k' v' b r
    | greater ↦ do c ← insert_at replace k v r; climb_right l k' v' b c
  ]

  -- Without a node with the key nothing changes.
  pub remove_at : ℕ → Node → Option Removal
  remove_at key leaf = some (record { tree = leaf; lower = false; old = none })
  remove_at key (node l k v b r) = elim (compare key k) [
    | same ↦ remove_node l k v b r
    | less ↦ do c ← remove_at key l; drop_left c k v b r
    | greater ↦ do c ← remove_at key r; drop_right l k v b c
  ]

  pub find_node : ℕ → Node → Option (ℕ × ℕ)
  find_node k leaf = none
  find_node k (node l k' v' b r) = elim (compare k k') [
    | same ↦ some (k', v')
    | less ↦ find_node k l
    | greater ↦ find_node k r
  ]

  -- `e_tree_insert_internal`
  pub insert_internal : Tree → (key value : ℕ) → (replace : Bool) → Option (Tree × List Event)
  insert_internal t key value replace = do
    c ← insert_at replace key value t.root
    some (after_insert t key replace c.tree c.old)

  abbrev pub insert : Tree → (key value : ℕ) → Option (Tree × List Event)
  insert t key value = insert_internal t key value false

  abbrev pub replace : Tree → (key value : ℕ) → Option (Tree × List Event)
  replace t key value = insert_internal t key value true

  -- `e_tree_remove_internal`: the result, and the calls of destroy functions.
  pub remove_internal : Tree → ℕ → (steal : Bool) → Option ((Bool × Tree) × List Event)
  remove_internal t key steal = do
    c ← remove_at key t.root
    some (after_remove t steal c.tree c.old)

  abbrev pub remove : Tree → ℕ → Option ((Bool × Tree) × List Event)
  remove t key = remove_internal t key false

  abbrev pub steal : Tree → ℕ → Option ((Bool × Tree) × List Event)
  steal t key = remove_internal t key true

  -- `e_tree_lookup`, where NULL is 0
  pub lookup : Tree → ℕ → ℕ
  lookup t key = elim (find_node key t.root) [ none ↦ 0 | some (_, value) ↦ value ]

  -- What `e_tree_lookup_extended` stores, where the caller passes both places.
  abbrev pub lookup_extended : Tree → ℕ → Option (ℕ × ℕ)
  lookup_extended t key = find_node key t.root

-- `e_tree_node_search`; `sign` is what `search_func` returns for the key of a node.
unfoldable pub search_node : (sign : ℕ → Sign) → Node → Option ℕ
search_node sign leaf = none
search_node sign (node l k v b r) = elim (sign k) [
  | same ↦ some v
  | less ↦ search_node sign l
  | greater ↦ search_node sign r
]

-- `e_tree_height`: `height += 1 + MAX(balance, 0)` down the left side
pub height_from : Node → ℕ
height_from leaf = 0
height_from (node l k v b r) = 1 + pos_part b + height_from l

pub height : Tree → ℕ
height t = height_from t.root

abbrev pub nnodes : Tree → ℕ
nnodes t = t.nnodes
