-- ===== src/Etree/Insert.antt =====
-- Insertion, on the heights of subtrees and the list of entries.
use egui.Prelude.{
  ◌>>=◌, ℕ, suc, Bool, true, false, ◌≡◌, refl, sym, ap, ◌∙◌, Option, none, some, List, ◌∷◌, ◌++◌,
  arith, inl, inr, if◌then◌else◌, not, Bool-cases,
}
use egui.Prelude.Int.{ℤ, pos, negsuc}
use egui.Etree.{
  Node, leaf, node, rebalance, balance_of, is_level, Change, climb_left, climb_right, insert_at,
  Sign, less, same, greater,
}
use mathlib.Core.Path.{subst}
use egui.Etree.Order.{
  IsOrder, Sorted, put, entry_at, Sorted-append, Sign-cases, put-less, put-greater, entry_at-less,
  entry_at-greater, Each-past, put-at_same, put-at_greater, entry_at-same, entry_at-later,
}
use egui.Etree.Balance.{
  entries, Bal, left_high, level, right_high, Avl, Rebuilt, rebalance_left-Rebuilt,
  rebalance_right-Rebuilt,
}

-- A change that worked, on a tree of height `h`.
pub record Grown (h : ℕ) (xs : List (ℕ × ℕ)) (old : Option (ℕ × ℕ)) (made : Option Change)
    : Type 0 where
  pub change : Change
  pub done : made ≡ some change
  pub holds : entries change.tree ≡ xs
  pub balanced : Avl (if change.taller then suc h else h) change.tree
  pub kept : change.old ≡ old

abbrev changed : Node → Bool → Option (ℕ × ℕ) → Change
changed t g old = record { tree = t; taller = g; old = old }

-- What is left of a round on the way up once the node is rebalanced.
abbrev finish : Option (ℕ × ℕ) → Option Node → Option Change
finish old made = made >>= λ t. some (changed t (not (is_level (balance_of t))) old)

Rebuilt-Grown :
    (n h : ℕ) (xs : List (ℕ × ℕ)) (old : Option (ℕ × ℕ)) (made : Option Node)
    → h ≡ suc (suc n)
    → Rebuilt n xs made
    → Grown h xs old (finish old made)
Rebuilt-Grown n h xs old made e r = record {
  change = changed r.tree (not (is_level (balance_of r.tree))) old;
  done = rw r.done refl;
  holds = r.same;
  balanced =
      subst (λ m. Avl m r.tree)
        (elim (Bool-cases (is_level (balance_of r.tree))) [
          | inl y ↦ r.told ∙ rw y (sym e)
          | inr y ↦ r.told ∙ rw y (ap suc (sym e))
        ])
        r.balanced;
  kept = refl;
}

climb_left-Grown :
    (m n h : ℕ) (t : Node) (g : Bool) (old : Option (ℕ × ℕ)) (k v : ℕ) (b : ℤ) (r : Node)
    → Avl (if g then suc m else m) t
    → Avl n r
    → Bal m n h b
    → Grown h (entries t ++ (k, v) ∷ entries r) old (climb_left (changed t g old) k v b r)
unfolding climb_left rebalance
climb_left-Grown m n h t false old k v b r at ar bal = record {
  change = changed (node t k v b r) false old;
  done = refl;
  holds = refl;
  balanced = (m, n, at, ar, bal);
  kept = refl;
}
climb_left-Grown m n h t true old k v _ r at ar (left_high e f) =
    Rebuilt-Grown n h _ old _ (f ∙ ap suc e)
      (rebalance_left-Rebuilt n t k v r (subst (λ j. Avl (suc j) t) e at) ar)
climb_left-Grown m n h t true old k v _ r at ar (level e f) = record {
  change = changed (node t k v (negsuc 0) r) true old;
  done = refl;
  holds = refl;
  balanced = (suc m, n, at, ar, left_high (omega (arith, e)) (omega (arith, f)));
  kept = refl;
}
climb_left-Grown m n h t true old k v _ r at ar (right_high e f) = record {
  change = changed (node t k v (pos 0) r) false old;
  done = refl;
  holds = refl;
  balanced = (suc m, n, at, ar, level (omega (arith, e)) (omega (arith, e, f)));
  kept = refl;
}

climb_right-Grown :
    (m n h : ℕ) (t : Node) (g : Bool) (old : Option (ℕ × ℕ)) (k v : ℕ) (b : ℤ) (l : Node)
    → Avl m l
    → Avl (if g then suc n else n) t
    → Bal m n h b
    → Grown h (entries l ++ (k, v) ∷ entries t) old (climb_right l k v b (changed t g old))
unfolding climb_right rebalance
climb_right-Grown m n h t false old k v b l al at bal = record {
  change = changed (node l k v b t) false old;
  done = refl;
  holds = refl;
  balanced = (m, n, al, at, bal);
  kept = refl;
}
climb_right-Grown m n h t true old k v _ l al at (right_high e f) =
    Rebuilt-Grown m h _ old _ (f ∙ ap suc e)
      (rebalance_right-Rebuilt m l k v t al (subst (λ j. Avl (suc j) t) e at))
climb_right-Grown m n h t true old k v _ l al at (level e f) = record {
  change = changed (node l k v (pos 1) t) true old;
  done = refl;
  holds = refl;
  balanced = (m, suc n, al, at, right_high (omega (arith, e)) (omega (arith, e, f)));
  kept = refl;
}
climb_right-Grown m n h t true old k v _ l al at (left_high e f) = record {
  change = changed (node l k v (pos 0) t) false old;
  done = refl;
  holds = refl;
  balanced = (m, suc n, al, at, level (omega (arith, e)) (omega (arith, e, f)));
  kept = refl;
}

-- A change in a subtree, followed by the round at the node above it.
continue_left :
    (m n h : ℕ) {xs : List (ℕ × ℕ)} {old : Option (ℕ × ℕ)} {made : Option Change} (k v : ℕ) (b : ℤ)
    (r : Node)
    → Grown m xs old made
    → Avl n r
    → Bal m n h b
    → Grown h (xs ++ (k, v) ∷ entries r) old (made >>= λ c. climb_left c k v b r)
continue_left m n h k v b r g ar bal =
    rw (g.done, ← g.holds, ← g.kept)
      (climb_left-Grown m n h g.change.tree g.change.taller g.change.old k v b r g.balanced ar bal)

continue_right :
    (m n h : ℕ) {xs : List (ℕ × ℕ)} {old : Option (ℕ × ℕ)} {made : Option Change} (k v : ℕ) (b : ℤ)
    (l : Node)
    → Avl m l
    → Grown n xs old made
    → Bal m n h b
    → Grown h (entries l ++ (k, v) ∷ xs) old (made >>= λ c. climb_right l k v b c)
continue_right m n h k v b l al g bal =
    rw (g.done, ← g.holds, ← g.kept)
      (climb_right-Grown m n h g.change.tree g.change.taller g.change.old k v b l al g.balanced bal)

module _ (compare : ℕ → ℕ → Sign) (o : IsOrder compare) (replace : Bool) (k v : ℕ) where
  module _ (l : Node) (k' v' : ℕ) (b : ℤ) (r : Node) where
    insert_at-same :
        compare k k' ≡ same
        → insert_at compare replace k v (node l k' v' b r)
          ≡ some (changed (node l (if replace then k else k') v b r) false (some (k', v')))
    unfolding insert_at
    insert_at-same c = rw (c, insert_at) refl

    insert_at-less :
        compare k k' ≡ less
        → insert_at compare replace k v (node l k' v' b r)
          ≡ (insert_at compare replace k v l >>= λ c. climb_left c k' v' b r)
    unfolding insert_at
    insert_at-less c = rw (c, insert_at) refl

    insert_at-greater :
        compare k k' ≡ greater
        → insert_at compare replace k v (node l k' v' b r)
          ≡ (insert_at compare replace k v r >>= λ c. climb_right l k' v' b c)
    unfolding insert_at
    insert_at-greater c = rw (c, insert_at) refl

  -- `e_tree_insert_internal` below the root.
  pub insert_at-Grown :
      (h : ℕ) (t : Node)
      → Avl h t
      → Sorted compare (entries t)
      → Grown h
          (put compare replace k v (entries t))
          (entry_at compare k (entries t))
          (insert_at compare replace k v t)
  insert_at-Grown h leaf a s =
      unfold insert_at put entry_at in
      record {
        change = changed (node leaf k v (pos 0) leaf) true none;
        done = refl;
        holds = refl;
        balanced = (0, 0, refl, refl, level refl (omega (arith, a)));
        kept = refl;
      }
  insert_at-Grown h (node l k' v' b r) (m, n, al, ar, bal) s =
      let (sl, sr, under) = Sorted-append compare (entries l) k' v' (entries r) s in
      elim (Sign-cases (compare k k')) [
        | inl c ↦
            let past = Each-past compare o k k' (entries l) (inl c) under in
            rw
              (
                insert_at-same l k' v' b r c,
                put-greater compare replace k v (entries l) ((k', v') ∷ entries r) past,
                put-at_same compare k k' v' (entries r) replace v c,
                entry_at-greater compare k (entries l) ((k', v') ∷ entries r) past,
                entry_at-same compare k k' v' (entries r) c,
              )
              (record {
                change = changed (node l (if replace then k else k') v b r) false (some (k', v'));
                done = refl;
                holds = refl;
                balanced = (m, n, al, ar, bal);
                kept = refl;
              })
        | inr (inl c) ↦
            rw
              (
                insert_at-less l k' v' b r c,
                put-less compare replace k v k' v' (entries l) (entries r) c,
                entry_at-less compare k k' v' (entries l) (entries r) c,
              )
              (continue_left m n h k' v' b r (insert_at-Grown m l al sl) ar bal)
        | inr (inr c) ↦
            let past = Each-past compare o k k' (entries l) (inr c) under in
            rw
              (
                insert_at-greater l k' v' b r c,
                put-greater compare replace k v (entries l) ((k', v') ∷ entries r) past,
                put-at_greater compare k k' v' (entries r) replace v c,
                entry_at-greater compare k (entries l) ((k', v') ∷ entries r) past,
                entry_at-later compare k k' v' (entries r) c,
              )
              (continue_right m n h k' v' b l al (insert_at-Grown n r ar sr) bal)
      ]
