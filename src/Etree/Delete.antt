-- ===== src/Etree/Delete.antt =====
-- Removal, on the list of entries in key order.
use egui.Prelude.{◌>>=◌, ℕ, false, ◌≡◌, refl, ap, none, List, [], ◌∷◌, ◌++◌, inl, inr}
use egui.Prelude.Int.{ℤ}
use egui.Etree.{
  Sign, less, same, greater, Node, leaf, node, remove_at, remove_node, drop_left, drop_right,
}
use egui.Etree.Balance.{entries, Avl}
use egui.Etree.Order.{
  IsOrder, Each, Sorted, entry_at, Sorted-append, Sign-cases, entry_at-less, entry_at-greater,
  Each-past, entry_at-same, entry_at-later,
}
use egui.Etree.Remove.{Shrunk, removal, remove_node-Shrunk, continue_left, continue_right}

module _ (compare : ℕ → ℕ → Sign) (k : ℕ) where
  -- The list less the entry with the key.
  unfoldable pub without : List (ℕ × ℕ) → List (ℕ × ℕ)
  without [] = []
  without ((k', v') ∷ xs) = elim (compare k k') [
    | same ↦ xs
    | less ↦ (k', v') ∷ xs
    | greater ↦ (k', v') ∷ without xs
  ]

  module _ (j w : ℕ) (xs : List (ℕ × ℕ)) where
    pub without-at_same : compare k j ≡ same → without ((j, w) ∷ xs) ≡ xs
    unfolding without
    without-at_same c = rw (c, without) refl

    pub without-at_less : compare k j ≡ less → without ((j, w) ∷ xs) ≡ (j, w) ∷ xs
    unfolding without
    without-at_less c = rw (c, without) refl

    pub without-at_greater : compare k j ≡ greater → without ((j, w) ∷ xs) ≡ (j, w) ∷ without xs
    unfolding without
    without-at_greater c = rw (c, without) refl

  without-less :
      (k' v' : ℕ) (xs ys : List (ℕ × ℕ))
      → compare k k' ≡ less
      → without (xs ++ (k', v') ∷ ys) ≡ without xs ++ (k', v') ∷ ys
  without-less k' v' [] ys e = unfold without in rw e refl
  without-less k' v' ((j, w) ∷ xs) ys e =
      let all = xs ++ (k', v') ∷ ys in
      elim (Sign-cases (compare k j)) [
        | inl c ↦ rw (without-at_same j w all c, without-at_same j w xs c)
        | inr (inl c) ↦ rw (without-at_less j w all c, without-at_less j w xs c)
        | inr (inr c) ↦
            rw (without-at_greater j w all c, without-at_greater j w xs c)
              (ap (λ t. (j, w) ∷ t) (without-less k' v' xs ys e))
      ]

  without-greater :
      (xs ys : List (ℕ × ℕ)) → Each (compare k) greater xs → without (xs ++ ys) ≡ xs ++ without ys
  without-greater [] ys h = refl
  without-greater ((j, w) ∷ xs) ys h =
      rw (without-at_greater j w (xs ++ ys) h.0) (ap (λ t. (j, w) ∷ t) (without-greater xs ys h.1))

  Each-without :
      (to : ℕ → Sign) (s : Sign) (xs : List (ℕ × ℕ)) → Each to s xs → Each to s (without xs)
  Each-without to s [] h = unfold without in tt
  Each-without to s ((j, w) ∷ xs) h = elim (Sign-cases (compare k j)) [
    | inl c ↦ rw (without-at_same j w xs c) (h.1)
    | inr (inl c) ↦ rw (without-at_less j w xs c) h
    | inr (inr c) ↦ rw (without-at_greater j w xs c) (h.0, Each-without to s xs h.1)
  ]

  pub without-Sorted : (xs : List (ℕ × ℕ)) → Sorted compare xs → Sorted compare (without xs)
  without-Sorted [] s = unfold without in tt
  without-Sorted ((j, w) ∷ xs) s = elim (Sign-cases (compare k j)) [
    | inl c ↦ rw (without-at_same j w xs c) (s.1)
    | inr (inl c) ↦ rw (without-at_less j w xs c) s
    | inr (inr c) ↦
        rw (without-at_greater j w xs c)
          (Each-without (compare j) less xs s.0, without-Sorted xs s.1)
  ]

  module _ (l : Node) (k' v' : ℕ) (b : ℤ) (r : Node) where
    remove_at-same :
        compare k k' ≡ same → remove_at compare k (node l k' v' b r) ≡ remove_node l k' v' b r
    unfolding remove_at
    remove_at-same c = rw (c, remove_at) refl

    remove_at-less :
        compare k k' ≡ less
        → remove_at compare k (node l k' v' b r)
          ≡ (remove_at compare k l >>= λ c. drop_left c k' v' b r)
    unfolding remove_at
    remove_at-less c = rw (c, remove_at) refl

    remove_at-greater :
        compare k k' ≡ greater
        → remove_at compare k (node l k' v' b r)
          ≡ (remove_at compare k r >>= λ c. drop_right l k' v' b c)
    unfolding remove_at
    remove_at-greater c = rw (c, remove_at) refl

module _ (compare : ℕ → ℕ → Sign) (o : IsOrder compare) (k : ℕ) where
  -- `e_tree_remove_internal` below the root.
  pub remove_at-Shrunk :
      (h : ℕ) (t : Node)
      → Avl h t
      → Sorted compare (entries t)
      → Shrunk h
          (without compare k (entries t))
          (entry_at compare k (entries t))
          (remove_at compare k t)
  remove_at-Shrunk h leaf a s =
      unfold remove_at without entry_at in
      record {
        change = removal leaf false none;
        done = refl;
        holds = refl;
        high = h;
        balanced = a;
        told = refl;
        kept = refl;
      }
  remove_at-Shrunk h (node l k' v' b r) (m, n, al, ar, bal) s =
      let (sl, sr, under) = Sorted-append compare (entries l) k' v' (entries r) s in
      elim (Sign-cases (compare k k')) [
        | inl c ↦
            let past = Each-past compare o k k' (entries l) (inl c) under in
            rw
              (
                remove_at-same compare k l k' v' b r c,
                without-greater compare k (entries l) ((k', v') ∷ entries r) past,
                without-at_same compare k k' v' (entries r) c,
                entry_at-greater compare k (entries l) ((k', v') ∷ entries r) past,
                entry_at-same compare k k' v' (entries r) c,
              )
              (remove_node-Shrunk m n h l k' v' b r al ar bal)
        | inr (inl c) ↦
            rw
              (
                remove_at-less compare k l k' v' b r c,
                without-less compare k k' v' (entries l) (entries r) c,
                entry_at-less compare k k' v' (entries l) (entries r) c,
              )
              (continue_left m n h k' v' b r (remove_at-Shrunk m l al sl) ar bal)
        | inr (inr c) ↦
            let past = Each-past compare o k k' (entries l) (inr c) under in
            rw
              (
                remove_at-greater compare k l k' v' b r c,
                without-greater compare k (entries l) ((k', v') ∷ entries r) past,
                without-at_greater compare k k' v' (entries r) c,
                entry_at-greater compare k (entries l) ((k', v') ∷ entries r) past,
                entry_at-later compare k k' v' (entries r) c,
              )
              (continue_right m n h k' v' b l al (remove_at-Shrunk n r ar sr) bal)
      ]
