-- ===== src/Etree/Inv.antt =====
-- The invariant of a whole tree: balanced, in key order, and counted right.
use egui.Prelude.{
  ℕ, Bool, ◌≡◌, ◌≢◌, refl, sym, ap, ap₂, ◌∙◌, true, false, [], ◌∷◌, ◌++◌, if◌then◌else◌, Option,
  none, some, List, arith, length,
}
use egui.Etree.{
  Sign, same, Tree, Node, leaf, Event, key_gone, value_gone, insert_internal, after_insert, lookup,
  find_node, height, height_from, node,
}
use egui.Etree.Balance.{entries, Avl, left_high, level, right_high}
use egui.Etree.Order.{IsOrder, Sorted, put, put-Sorted, entry_at}
use egui.Etree.Lookup.{count_after, length-put, find_node_lem, entry_at-put, entry_at-put_other}
use egui.Etree.Insert.{insert_at-Grown}

pub record IsValid (compare : ℕ → ℕ → Sign) (t : Tree) : Type 0 where
  pub high : ℕ
  pub balanced : Avl high t.root
  pub sorted : Sorted compare (entries t.root)
  pub counted : t.nnodes ≡ length (entries t.root)

-- A destroy function is called where the tree has it.
abbrev pub calls_if : Bool → Event → List Event
calls_if true e = e ∷ []
calls_if false e = []

pub if-calls_if : (b : Bool) (e : Event) → (if b then e ∷ [] else []) ≡ calls_if b e
if-calls_if true e = refl
if-calls_if false e = refl

-- The key that no node keeps: the old one where it is replaced, and the new one where it is not.
abbrev pub spare_key : (replace : Bool) → (new old : ℕ) → ℕ
spare_key true new old = old
spare_key false new old = new

spare_key-if :
    (replace : Bool) (new old : ℕ) → (if replace then old else new) ≡ spare_key replace new old
spare_key-if true new old = refl
spare_key-if false new old = refl

-- What an insertion gives to the destroy functions, by the entry that had the key: the old value,
-- then one of the two keys.
abbrev pub destroyed : Tree → ℕ → Bool → Option (ℕ × ℕ) → List Event
destroyed t k replace none = []
destroyed t k replace (some (old_key, old_value)) =
    calls_if t.destroys_value (value_gone old_value)
    ++ calls_if t.destroys_key (key_gone (spare_key replace k old_key))

after_insert-IsValid :
    (compare : ℕ → ℕ → Sign) (t : Tree) (k : ℕ) (replace : Bool) (root : Node) (high : ℕ)
    (e : Option (ℕ × ℕ)) (xs : List (ℕ × ℕ))
    → IsValid compare t
    → Avl high root
    → entries root ≡ xs
    → Sorted compare xs
    → length xs ≡ count_after e (length (entries t.root))
    → let (t', events) = after_insert t k replace root e in
      (events ≡ destroyed t k replace e) × IsValid compare t' × (t'.root ≡ root)
after_insert-IsValid compare t k replace root high none xs v a r s n = (
  refl,
  record {
    high = high;
    balanced = a;
    sorted = rw r s;
    counted = omega (arith, n, v.counted, ap length r);
  },
  refl,
)
after_insert-IsValid compare t k replace root high (some e) xs v a r s n = (
  ap₂ (λ (x y : List Event). x ++ y) (if-calls_if t.destroys_value (value_gone e.1))
      (if-calls_if t.destroys_key (key_gone (if replace then e.0 else k))
        ∙ ap (λ j. calls_if t.destroys_key (key_gone j)) (spare_key-if replace k e.0)),
  record {
    high = high;
    balanced = a;
    sorted = rw r s;
    counted = omega (arith, n, v.counted, ap length r);
  },
  refl,
)

height_from-Avl : (h : ℕ) (n : Node) → Avl h n → height_from n ≡ h
unfolding height_from
height_from-Avl h leaf a = sym a
height_from-Avl h (node l k v _ r) (m, n, al, ar, left_high e f) =
    omega (arith, e, f, height_from-Avl m l al)
height_from-Avl h (node l k v _ r) (m, n, al, ar, level e f) =
    omega (arith, e, f, height_from-Avl m l al)
height_from-Avl h (node l k v _ r) (m, n, al, ar, right_high e f) =
    omega (arith, e, f, height_from-Avl m l al)

-- NULL where there is no entry.
abbrev pub value_of : Option (ℕ × ℕ) → ℕ
value_of none = 0
value_of (some (_, value)) = value

lookup-found :
    (compare : ℕ → ℕ → Sign) (t : Tree) (j : ℕ) (e : Option (ℕ × ℕ))
    → find_node compare j t.root ≡ e
    → lookup compare t j ≡ value_of e
unfolding lookup
lookup-found compare t j none h = rw (h, lookup) refl
lookup-found compare t j (some e) h = rw (h, lookup) refl

module _ (compare : ℕ → ℕ → Sign) (o : IsOrder compare) where
  module _ (t : Tree) (v : IsValid compare t) where
    -- On a valid tree, with a compare function that is an order, `e_tree_insert` and
    -- `e_tree_replace` succeed: no rotation goes through a missing child, the entries in key order
    -- are those of before with the new one put in its place or in that of the one with the same
    -- key, and the tree stays valid: balanced, in order and counted right. Where there was an
    -- entry with the key, the destroy functions that the tree has are called once each: with the
    -- old value, and then with the old key by `e_tree_replace` and with the new one by
    -- `e_tree_insert`. Else none is called.
    pub insert_internal-IsValid :
        (k value : ℕ) (replace : Bool)
        → let old = entry_at compare k (entries t.root) in
          (t' : Tree) × (insert_internal compare t k value replace
            ≡ some (t', destroyed t k replace old))
          × (entries t'.root ≡ put compare replace k value (entries t.root))
          × IsValid compare t'
    unfolding insert_internal
    insert_internal-IsValid k value replace =
        let xs = entries t.root in
        let old = entry_at compare k xs in
        let g = insert_at-Grown compare o replace k value v.high t.root v.balanced v.sorted in
        let after =
          after_insert-IsValid compare t k replace g.change.tree _ old _ v g.balanced g.holds
            (put-Sorted compare o replace k value xs v.sorted)
            (length-put compare o k replace value xs) in
        let t' = (after_insert t k replace g.change.tree old).0 in
        (
          t',
          rw (g.done, g.kept) (ap (λ e. some (t', e)) after.0),
          ap entries after.2 ∙ g.holds,
          after.1,
        )

    -- On a valid tree, with a compare function that is an order, `e_tree_lookup` after an
    -- insertion gives the new value for the key, and for any key that does not compare the same
    -- what it gave before.
    pub lookup-insert_internal :
        (k value : ℕ) (replace : Bool)
        → (t' : Tree) × (events : List Event) × (insert_internal compare t k value replace
            ≡ some (t', events))
          × (lookup compare t' k ≡ value)
          × ((j : ℕ) → compare j k ≢ same → lookup compare t' j ≡ lookup compare t j)
    lookup-insert_internal k value replace =
        let xs = entries t.root in
        let (t', done, holds, valid) = insert_internal-IsValid k value replace in
        let found : (j : ℕ)
            → find_node compare j t'.root ≡ entry_at compare j (put compare replace k value xs) =
          λ j. find_node_lem compare o j t'.root valid.sorted ∙ ap (entry_at compare j) holds in
        (
          t',
          _,
          done,
          lookup-found compare t' k _ (found k ∙ entry_at-put compare o k replace value xs),
          λ j n.
              lookup-found compare t' j _
                (found j ∙ entry_at-put_other compare o k j replace value xs n)
              ∙ sym (lookup-found compare t j _ (find_node_lem compare o j t.root v.sorted)),
        )

  -- On a valid tree, with a compare function that is an order, `e_tree_lookup` gives the value
  -- that a search through the entries in key order gives, and NULL where there is none.
  pub lookup-entry_at :
      (t : Tree) (j : ℕ)
      → IsValid compare t
      → lookup compare t j ≡ value_of (entry_at compare j (entries t.root))
  lookup-entry_at t j v = lookup-found compare t j _ (find_node_lem compare o j t.root v.sorted)

-- On a balanced tree, `e_tree_height`, which follows the left children and adds up balances, gives
-- the height of the tree.
pub height-Avl : (t : Tree) (h : ℕ) → Avl h t.root → height t ≡ h
unfolding height
height-Avl t h a = height_from-Avl h t.root a
