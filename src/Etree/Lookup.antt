-- ===== src/Etree/Lookup.antt =====
-- Lookup in a sorted tree, and what an insertion changes of it.
use egui.Prelude.{
  ℕ, suc, Bool, true, false, ◌≡◌, refl, sym, ap, ◌∙◌, Option, none, some, List, [], ◌∷◌, inl, inr,
  if◌then◌else◌, length, ◌≢◌,
}
use egui.Prelude.Int.{ℤ}
use egui.Etree.{Sign, less, same, greater, Node, leaf, node, find_node}
use egui.Etree.Balance.{entries}
use egui.Etree.Order.{
  IsOrder, Sorted, put, entry_at, Sorted-append, Sign-cases, entry_at-less, entry_at-greater,
  Each-past, put-at_same, put-at_less, put-at_greater, entry_at-same, entry_at-none, entry_at-later,
}

module _ (compare : ℕ → ℕ → Sign) (k : ℕ) where
  module _ (l : Node) (k' v' : ℕ) (b : ℤ) (r : Node) where
    find_node-same : compare k k' ≡ same → find_node compare k (node l k' v' b r) ≡ some (k', v')
    unfolding find_node
    find_node-same c = rw (c, find_node) refl

    find_node-less :
        compare k k' ≡ less → find_node compare k (node l k' v' b r) ≡ find_node compare k l
    unfolding find_node
    find_node-less c = rw (c, find_node) refl

    find_node-greater :
        compare k k' ≡ greater → find_node compare k (node l k' v' b r) ≡ find_node compare k r
    unfolding find_node
    find_node-greater c = rw (c, find_node) refl

-- The number of entries after an insertion.
abbrev pub count_after : Option (ℕ × ℕ) → ℕ → ℕ
count_after none n = suc n
count_after (some _) n = n

suc-count_after : (e : Option (ℕ × ℕ)) (n : ℕ) → suc (count_after e n) ≡ count_after e (suc n)
suc-count_after none n = refl
suc-count_after (some _) n = refl

-- The key that stands in the tree after an insertion.
abbrev pub key_left : ℕ → (replace : Bool) → Option (ℕ × ℕ) → ℕ
key_left k replace none = k
key_left k replace (some (k', _)) = if replace then k else k'

module _ (compare : ℕ → ℕ → Sign) (o : IsOrder compare) (k : ℕ) where
  -- `e_tree_find_node` in a tree whose keys are in order finds the entry that a search through all
  -- entries finds, and none where there is none.
  pub find_node_lem :
      (t : Node)
      → Sorted compare (entries t)
      → find_node compare k t ≡ entry_at compare k (entries t)
  find_node_lem leaf s = unfold find_node entry_at in refl
  find_node_lem (node l k' v' b r) s =
      let (sl, sr, under) = Sorted-append compare (entries l) k' v' (entries r) s in
      elim (Sign-cases (compare k k')) [
        | inl c ↦ rw (
          find_node-same compare k l k' v' b r c,
          entry_at-greater compare k (entries l) ((k', v') ∷ entries r)
              (Each-past compare o k k' (entries l) (inl c) under),
          entry_at-same compare k k' v' (entries r) c,
        )
        | inr (inl c) ↦
            rw
              (
                find_node-less compare k l k' v' b r c,
                entry_at-less compare k k' v' (entries l) (entries r) c,
              )
              (find_node_lem l sl)
        | inr (inr c) ↦
            rw
              (
                find_node-greater compare k l k' v' b r c,
                entry_at-greater compare k (entries l) ((k', v') ∷ entries r)
                    (Each-past compare o k k' (entries l) (inr c) under),
                entry_at-later compare k k' v' (entries r) c,
              )
              (find_node_lem r sr)
      ]

  -- What was put is found.
  pub entry_at-put :
      (replace : Bool) (v : ℕ) (xs : List (ℕ × ℕ))
      → entry_at compare k (put compare replace k v xs)
        ≡ some (key_left k replace (entry_at compare k xs), v)
  entry_at-put replace v [] = unfold put entry_at in rw (o.reflexive k) refl
  entry_at-put replace v ((j, w) ∷ xs) = elim (Sign-cases (compare k j)) [
    | inl c ↦
        rw (put-at_same compare k j w xs replace v c, entry_at-same compare k j w xs c)
          (at_kept replace c)
    | inr (inl c) ↦ rw (
      put-at_less compare k j w xs replace v c,
      entry_at-none compare k j w xs c,
      entry_at-same compare k k v ((j, w) ∷ xs) (o.reflexive k),
    )
    | inr (inr c) ↦
        rw
          (
            put-at_greater compare k j w xs replace v c,
            entry_at-later compare k j w (put compare replace k v xs) c,
            entry_at-later compare k j w xs c,
          )
          (entry_at-put replace v xs)
  ]
    where
      at_kept :
          (b : Bool)
          → compare k j ≡ same
          → entry_at compare k (((if b then k else j), v) ∷ xs) ≡ some ((if b then k else j), v)
      at_kept true c = entry_at-same compare k k v xs (o.reflexive k)
      at_kept false c = entry_at-same compare k j v xs c

  pub length-put :
      (replace : Bool) (v : ℕ) (xs : List (ℕ × ℕ))
      → length (put compare replace k v xs) ≡ count_after (entry_at compare k xs) (length xs)
  length-put replace v [] = unfold put entry_at in refl
  length-put replace v ((j, w) ∷ xs) = elim (Sign-cases (compare k j)) [
    | inl c ↦ rw (put-at_same compare k j w xs replace v c, entry_at-same compare k j w xs c)
    | inr (inl c) ↦ rw (put-at_less compare k j w xs replace v c, entry_at-none compare k j w xs c)
    | inr (inr c) ↦
        rw (put-at_greater compare k j w xs replace v c, entry_at-later compare k j w xs c)
          (ap suc (length-put replace v xs) ∙ suc-count_after (entry_at compare k xs) (length xs))
  ]

module _ (compare : ℕ → ℕ → Sign) (o : IsOrder compare) (k j : ℕ) where
  -- Keys that compare the same compare the same with a third one on their left.
  pub same_right : (i : ℕ) → compare k i ≡ same → compare j k ≢ same → compare j i ≡ compare j k
  same_right i c n = elim (Sign-cases (compare j k)) [
    | inl e ↦ absurd (n e)
    | inr (inl e) ↦ o.flip_greater i j (sym (o.same_all k i j c) ∙ o.flip_less j k e) ∙ sym e
    | inr (inr e) ↦ o.flip_less i j (sym (o.same_all k i j c) ∙ o.flip_greater j k e) ∙ sym e
  ]

  same_ends :
      (i i' v v' : ℕ) (xs : List (ℕ × ℕ))
      → compare j i ≡ compare j i'
      → compare j i ≢ same
      → entry_at compare j ((i, v) ∷ xs) ≡ entry_at compare j ((i', v') ∷ xs)
  same_ends i i' v v' xs e n = elim (Sign-cases (compare j i)) [
    | inl c ↦ absurd (n c)
    | inr (inl c) ↦
        entry_at-none compare j i v xs c ∙ sym (entry_at-none compare j i' v' xs (sym e ∙ c))
    | inr (inr c) ↦
        entry_at-later compare j i v xs c ∙ sym (entry_at-later compare j i' v' xs (sym e ∙ c))
  ]

  -- Other keys lead to the entries that they led to.
  pub entry_at-put_other :
      (replace : Bool) (v : ℕ) (xs : List (ℕ × ℕ))
      → compare j k ≢ same
      → entry_at compare j (put compare replace k v xs) ≡ entry_at compare j xs
  entry_at-put_other replace v [] n = elim (Sign-cases (compare j k)) [
    | inl c ↦ absurd (n c)
    | inr (inl c) ↦ unfold put entry_at in rw c refl
    | inr (inr c) ↦ unfold put entry_at in rw c refl
  ]
  entry_at-put_other replace v ((i, w) ∷ xs) n = elim (Sign-cases (compare k i)) [
    | inl c ↦ rw (put-at_same compare k i w xs replace v c) (kept replace c)
    | inr (inl c) ↦ rw (put-at_less compare k i w xs replace v c) (elim (Sign-cases (compare j k)) [
      | inl e ↦ absurd (n e)
      | inr (inl e) ↦
          entry_at-none compare j k v ((i, w) ∷ xs) e
          ∙ sym (entry_at-none compare j i w xs (o.trans j k i e c))
      | inr (inr e) ↦ entry_at-later compare j k v ((i, w) ∷ xs) e
    ])
    | inr (inr c) ↦
        rw (put-at_greater compare k i w xs replace v c) (elim (Sign-cases (compare j i)) [
          | inl e ↦ rw (entry_at-same compare j i w xs e, entry_at-same compare j i w _ e)
          | inr (inl e) ↦ rw (entry_at-none compare j i w xs e, entry_at-none compare j i w _ e)
          | inr (inr e) ↦
              rw (entry_at-later compare j i w xs e, entry_at-later compare j i w _ e)
                (entry_at-put_other replace v xs n)
        ])
  ]
    where
      kept :
          (b : Bool)
          → compare k i ≡ same
          → entry_at compare j (((if b then k else i), v) ∷ xs) ≡ entry_at compare j ((i, w) ∷ xs)
      kept true c = same_ends k i v w xs (sym (same_right i c n)) n
      kept false c = same_ends i i v w xs refl (λ e. n (sym (same_right i c n) ∙ e))
