-- ===== src/Etree/Erase.antt =====
-- `e_tree_remove` and `e_tree_steal` on a whole tree.
use egui.Prelude.{
  ℕ, suc, Bool, true, false, ◌≡◌, ◌≢◌, refl, sym, ap, ap₂, ◌++◌, ◌∙◌, Option, none, some, List, [],
  ◌∷◌, arith, ◌⊎◌, inl, inr, length,
}
use egui.Etree.{
  Sign, less, same, Node, Tree, Event, key_gone, value_gone, remove_internal, after_remove, lookup,
}
use egui.Etree.Balance.{entries, Avl}
use egui.Etree.Order.{
  IsOrder, Each, Sorted, entry_at, Sign-cases, entry_at-same, entry_at-none, entry_at-later,
}
use egui.Etree.Delete.{
  without, without-at_same, without-at_less, without-at_greater, without-Sorted, remove_at-Shrunk,
}
use egui.Etree.Lookup.{same_right}
use egui.Etree.Inv.{IsValid, calls_if, if-calls_if, lookup-entry_at, value_of}

abbrev pub is_some : Option (ℕ × ℕ) → Bool
is_some none = false
is_some (some _) = true

some-none : {e : ℕ × ℕ} {A : Type 0} → some e ≡ none → A
some-none h = absurd (cc h)

module _ (compare : ℕ → ℕ → Sign) (k : ℕ) where
  without-absent : (xs : List (ℕ × ℕ)) → entry_at compare k xs ≡ none → without compare k xs ≡ xs
  without-absent [] e = unfold without in refl
  without-absent ((j, w) ∷ xs) e = elim (Sign-cases (compare k j)) [
    | inl c ↦ some-none (sym (entry_at-same compare k j w xs c) ∙ e)
    | inr (inl c) ↦ without-at_less compare k j w xs c
    | inr (inr c) ↦
        rw (without-at_greater compare k j w xs c)
          (ap (λ t. (j, w) ∷ t) (without-absent xs (sym (entry_at-later compare k j w xs c) ∙ e)))
  ]

  length-without :
      (xs : List (ℕ × ℕ)) (e : ℕ × ℕ)
      → entry_at compare k xs ≡ some e
      → suc (length (without compare k xs)) ≡ length xs
  unfolding entry_at
  length-without [] e h = some-none (sym h)
  length-without ((j, w) ∷ xs) e h = elim (Sign-cases (compare k j)) [
    | inl c ↦ rw (without-at_same compare k j w xs c)
    | inr (inl c) ↦ some-none (sym h ∙ entry_at-none compare k j w xs c)
    | inr (inr c) ↦
        rw (without-at_greater compare k j w xs c)
          (ap suc (length-without xs e (sym (entry_at-later compare k j w xs c) ∙ h)))
  ]

module _ (compare : ℕ → ℕ → Sign) (o : IsOrder compare) where
  -- A key before all others has no entry.
  entry_at-before :
      (j : ℕ) (xs : List (ℕ × ℕ)) → Each (compare j) less xs → entry_at compare j xs ≡ none
  entry_at-before j [] h = unfold entry_at in refl
  entry_at-before j ((i, w) ∷ xs) h = entry_at-none compare j i w xs h.0

  Each-below :
      (j i : ℕ) (xs : List (ℕ × ℕ))
      → (compare j i ≡ same) ⊎ (compare j i ≡ less)
      → Each (compare i) less xs
      → Each (compare j) less xs
  Each-below j i [] c h = tt
  Each-below j i ((q, w) ∷ xs) c h = (
    elim c [ inl e ↦ o.same_all j i q e ∙ h.0 | inr e ↦ o.trans j i q e h.0 ],
    Each-below j i xs c h.1,
  )

  entry_at-without :
      (k : ℕ) (xs : List (ℕ × ℕ))
      → Sorted compare xs
      → entry_at compare k (without compare k xs) ≡ none
  entry_at-without k [] s = unfold without entry_at in refl
  entry_at-without k ((i, w) ∷ xs) s = elim (Sign-cases (compare k i)) [
    | inl c ↦
        rw (without-at_same compare k i w xs c)
          (entry_at-before k xs (Each-below k i xs (inl c) s.0))
    | inr (inl c) ↦ rw (without-at_less compare k i w xs c) (entry_at-none compare k i w xs c)
    | inr (inr c) ↦
        rw (without-at_greater compare k i w xs c)
          (entry_at-later compare k i w _ c ∙ entry_at-without k xs s.1)
  ]

  entry_at-without_other :
      (k j : ℕ) (xs : List (ℕ × ℕ))
      → Sorted compare xs
      → compare j k ≢ same
      → entry_at compare j (without compare k xs) ≡ entry_at compare j xs
  entry_at-without_other k j [] s n = unfold without in refl
  entry_at-without_other k j ((i, w) ∷ xs) s n = elim (Sign-cases (compare k i)) [
    | inl c ↦ rw (without-at_same compare k i w xs c) (elim (Sign-cases (compare j i)) [
      | inl e ↦ absurd (n (sym (same_right compare o k j i c n) ∙ e))
      | inr (inl e) ↦
          entry_at-before j xs (Each-below j i xs (inr e) s.0)
          ∙ sym (entry_at-none compare j i w xs e)
      | inr (inr e) ↦ sym (entry_at-later compare j i w xs e)
    ])
    | inr (inl c) ↦ rw (without-at_less compare k i w xs c)
    | inr (inr c) ↦ rw (without-at_greater compare k i w xs c) (elim (Sign-cases (compare j i)) [
      | inl e ↦ entry_at-same compare j i w _ e ∙ sym (entry_at-same compare j i w xs e)
      | inr (inl e) ↦ entry_at-none compare j i w _ e ∙ sym (entry_at-none compare j i w xs e)
      | inr (inr e) ↦
          entry_at-later compare j i w _ e
          ∙ entry_at-without_other k j xs s.1 n
          ∙ sym (entry_at-later compare j i w xs e)
    ])
  ]

-- What a call gives to the destroy functions, by the entry that had the key: a removal its key, then
-- its value, and a steal nothing.
abbrev pub released : Tree → (steal : Bool) → Option (ℕ × ℕ) → List Event
released t steal none = []
released t true (some (key, value)) = []
released t false (some (key, value)) =
    calls_if t.destroys_key (key_gone key) ++ calls_if t.destroys_value (value_gone value)

released-none : (t : Tree) (steal : Bool) → released t steal none ≡ []
released-none t true = refl
released-none t false = refl

after_remove-released :
    (t : Tree) (steal : Bool) (root : Node) (e : Option (ℕ × ℕ))
    → (after_remove t steal root e).1 ≡ released t steal e
after_remove-released t steal root none = sym (released-none t steal)
after_remove-released t true root (some e) = refl
after_remove-released t false root (some e) =
    ap₂ (λ (x y : List Event). x ++ y) (if-calls_if t.destroys_key (key_gone e.0))
      (if-calls_if t.destroys_value (value_gone e.1))

module _ (compare : ℕ → ℕ → Sign) (k : ℕ) (t : Tree) (v : IsValid compare t) where
  after_remove-IsValid :
      (steal : Bool) (root : Node) (high : ℕ) (old : Option (ℕ × ℕ))
      → entry_at compare k (entries t.root) ≡ old
      → Avl high root
      → entries root ≡ without compare k (entries t.root)
      → let ((found, t'), events) = after_remove t steal root old in
        (found ≡ is_some old)
        × (events ≡ released t steal old)
        × (entries t'.root ≡ without compare k (entries t.root))
        × IsValid compare t'
  after_remove-IsValid steal root high none e a r = (
    refl,
    after_remove-released t steal root none,
    sym (without-absent compare k (entries t.root) e),
    v,
  )
  after_remove-IsValid steal root high (some old) e a r = (
    refl,
    after_remove-released t steal root (some old),
    r,
    record {
      high = high;
      balanced = a;
      sorted = rw r (without-Sorted compare k (entries t.root) v.sorted);
      counted =
          omega (arith, v.counted, ap length r, length-without compare k (entries t.root) old e);
    },
  )

module _ (compare : ℕ → ℕ → Sign) (o : IsOrder compare) (t : Tree) (v : IsValid compare t) where
  -- On a valid tree, with a compare function that is an order, `e_tree_remove` and `e_tree_steal`
  -- succeed: the result tells whether the key was there, the entries are those of before less that
  -- of the key, and the tree stays valid: balanced, in order and counted right. Where the key was
  -- there, `e_tree_remove` calls the destroy functions that the tree has, with its key and then
  -- with its value; `e_tree_steal` calls none.
  pub remove_internal-IsValid :
      (k : ℕ) (steal : Bool)
      → let old = entry_at compare k (entries t.root) in
        (t' : Tree) × (remove_internal compare t k steal
          ≡ some ((is_some old, t'), released t steal old))
        × (entries t'.root ≡ without compare k (entries t.root))
        × IsValid compare t'
  unfolding remove_internal
  remove_internal-IsValid k steal =
      let old = entry_at compare k (entries t.root) in
      let g = remove_at-Shrunk compare o k v.high t.root v.balanced v.sorted in
      let after =
        after_remove-IsValid compare k t v steal g.change.tree g.high old refl g.balanced g.holds in
      let t' = (after_remove t steal g.change.tree old).0.1 in
      (t', rw (g.done, g.kept) (cc (after.0, after.1)), after.2, after.3)

  -- On a valid tree, with a compare function that is an order, `e_tree_lookup` after a removal
  -- gives NULL for the key, and for any key that does not compare the same what it gave before.
  pub lookup-remove_internal :
      (k : ℕ) (steal : Bool)
      → (found : Bool) × (t' : Tree) × (events : List Event) × (remove_internal compare t k steal
          ≡ some ((found, t'), events))
        × (lookup compare t' k ≡ 0)
        × ((j : ℕ) → compare j k ≢ same → lookup compare t' j ≡ lookup compare t j)
  lookup-remove_internal k steal =
      let xs = entries t.root in
      let (t', done, holds, valid) = remove_internal-IsValid k steal in
      let found : (j : ℕ)
          → lookup compare t' j ≡ value_of (entry_at compare j (without compare k xs)) =
        λ j.
          lookup-entry_at compare o t' j valid
          ∙ ap (λ ys. value_of (entry_at compare j ys)) holds in
      (
        _,
        t',
        _,
        done,
        found k ∙ ap value_of (entry_at-without compare o k xs v.sorted),
        λ j n.
            found j
            ∙ ap value_of (entry_at-without_other compare o k j xs v.sorted n)
            ∙ sym (lookup-entry_at compare o t j v),
      )
