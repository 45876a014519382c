-- ===== src/Elist/Insert.antt =====
-- The four insertions, on the list of nodes that a list stands for.
use egui.Prelude.{
  ℕ, ◌+◌, true, ◌≡◌, ◌≢◌, refl, sym, ap, ◌∙◌, Option, some, [], ◌∷◌, ◌++◌, arith, ◌==◌, length,
  length-append, append-nil, append_assoc, Bool-cases, inl, inr,
}
use egui.Heap.{Ptr, null, Node, node, Heap, Points, Ends, ends}
use egui.Heap.Chain.{
  Cells, has, ◌∉◌, first, last, Linked, Apart, Linked-Split, first-append, last-append,
  not-mem-append, ne-last, last_node, cell, first_member, last_member,
}
use egui.Heap.Relink.{joined, joined_outside, Linked-insert}
use egui.Elist.{Elist, insert_only, insert_head, insert_tail, insert_after, insert_before}
use egui.Elist.Steps.{
  Spliced, insert_only-Spliced, insert_head-Spliced, insert_tail-Spliced, insert_after_last-Spliced,
  insert_after-Spliced, insert_before_first-Spliced, insert_before-Spliced,
}
use mathlib.Core.Path.{subst₂}

-- The list at `lt` holds the cells `xs`.
pub record IsList (h : Heap) (lt : Elist) (xs : Cells) : Type 0 where
  pub linked : Linked h null xs null
  pub head_at : lt.head ≡ first xs null
  pub tail_at : lt.tail ≡ last null xs
  pub counted : lt.count ≡ length xs

-- What an insertion between `xs` and `ys` leaves behind.
abbrev pub Inserted : Heap → Elist → Cells → Ptr → ℕ → Cells → Elist → Heap → Type 0
Inserted h lt xs q w ys lt' g =
    IsList g lt' (xs ++ (q, w) ∷ ys)
    × (lt'.size ≡ lt.size)
    × ((a : Ptr) → a ∉ (xs ++ (q, w) ∷ ys) → g a ≡ h a)

pub empty_test : (p : Ptr) → p ≡ null → (p == null) ≡ true
empty_test p e = ground arith

pub not-mem-cons : (a p : Ptr) (v : ℕ) (xs : Cells) → a ∉ ((p, v) ∷ xs) → (a ≢ p) × (a ∉ xs)
not-mem-cons a p v xs out = ((λ e. ground arith), ground arith)

-- A node that stands alone is linked in between two parts of the list.
module _ {h : Heap} {lt : Elist} {all : Cells} (xs : Cells) (q : Ptr) (raw : Node) (ys : Cells)
    (cut : all ≡ xs ++ ys) (is : IsList h lt all) (fresh : Points h q raw) (out : q ∉ all) where
  inserted :
      (g : Heap) (lt' : Elist)
      → g q ≡ some (node raw.value (last null xs) (first ys null))
      → ((p : Ptr) → p ≢ q → g p ≡ joined h (last null xs) q (first ys null) q p)
      → lt'.size ≡ lt.size
      → lt'.head ≡ first xs q
      → lt'.tail ≡ last q ys
      → lt'.count ≡ lt.count + 1
      → Inserted h lt xs q raw.value ys lt' g
  inserted g lt' e same size head tail count =
      let parts = Linked-Split h null xs ys null (rw cut at is.linked) in
      let unseen = not-mem-append q xs ys (rw cut at out) in
      (
        record {
          linked =
              Linked-insert h xs ys _ _ parts.front parts.back parts.apart g q raw.value
                fresh.ne_null unseen.0 unseen.1 e same;
          head_at = rw (first-append xs ((q, raw.value) ∷ ys) null) head;
          tail_at = rw (last-append null xs ((q, raw.value) ∷ ys)) tail;
          counted = omega (
            arith,
            is.counted,
            ap length cut,
            length-append xs ys,
            length-append xs ((q, raw.value) ∷ ys),
          );
        },
        size,
        λ a o.
            let apart = not-mem-append a xs ((q, raw.value) ∷ ys) o in
            let others = not-mem-cons a q raw.value ys apart.1 in
            same a others.0 ∙ joined_outside h xs ys q q a apart.0 others.1,
      )

  -- So it does when an insertion splices it in there.
  spliced :
      (l r : Ptr) (made : Option (Elist × Heap)) (lt' : Elist)
      → l ≡ last null xs
      → r ≡ first ys null
      → Spliced h q raw.value l r made lt'
      → lt'.size ≡ lt.size
      → lt'.head ≡ first xs q
      → lt'.tail ≡ last q ys
      → lt'.count ≡ lt.count + 1
      → Ends (Inserted h lt xs q raw.value ys) made
  spliced l r made lt' el er s size head tail count =
      let (g, done, own, same) = subst₂ (λ a b. Spliced h q raw.value a b made lt') el er s in
      rw done (ends (inserted g lt' own same size head tail count))

module _ {h : Heap} {lt : Elist} (q : Ptr) (raw : Node) (fresh : Points h q raw) where
  -- On an empty list every insertion makes the node the only one.
  pub insert_only-nil : IsList h lt [] → Ends (Inserted h lt [] q raw.value []) (insert_only lt q h)
  insert_only-nil is =
      spliced [] q raw [] refl is fresh refl null null _ _ refl refl
        (insert_only-Spliced h lt q raw fresh) refl refl refl (omega (arith, is.counted))

  -- `e_list_insert_head` puts a node that is not in the list before all others, on an empty list
  -- too. No other memory changes.
  pub insert_head-IsList :
      (ys : Cells)
      → IsList h lt ys
      → q ∉ ys
      → Ends (Inserted h lt [] q raw.value ys) (insert_head lt q h)
  insert_head-IsList [] is out =
      unfold insert_head in rw (empty_test lt.head is.head_at) (insert_only-nil is)
  insert_head-IsList ((p, v) ∷ ys) is out =
      let at : Points h lt.head (node v null (first ys null)) = rw is.head_at is.linked.0 in
      let apart = (not-mem-cons q p v ys out).0 in
      spliced [] q raw ((p, v) ∷ ys) refl is fresh out null lt.head _ _ refl is.head_at
        (insert_head-Spliced h lt q raw fresh _ at (λ k. apart (k ∙ is.head_at))) refl refl
        is.tail_at refl

  -- `e_list_insert_tail` puts a node that is not in the list behind all others, on an empty list
  -- too. No other memory changes.
  pub insert_tail-IsList :
      (xs : Cells)
      → IsList h lt xs
      → q ∉ xs
      → Ends (Inserted h lt xs q raw.value []) (insert_tail lt q h)
  insert_tail-IsList [] is out =
      unfold insert_tail in rw (empty_test lt.tail is.tail_at) (insert_only-nil is)
  insert_tail-IsList ((p, v) ∷ xs) is out =
      let (n, at', _) = last_node h null p v xs null is.linked in
      let at : Points h lt.tail n = rw is.tail_at at' in
      let apart = ne-last q ((p, v) ∷ xs) fresh.ne_null out in
      spliced ((p, v) ∷ xs) q raw [] (sym (append-nil ((p, v) ∷ xs))) is fresh out lt.tail null _ _
        is.tail_at refl (insert_tail-Spliced h lt q raw fresh n at (λ k. apart (k ∙ is.tail_at)))
        refl is.head_at refl refl

-- A list with a member has a head.
pub head-ne_null :
    {h : Heap} {lt : Elist} (xs : Cells) (p : Ptr) (v : ℕ) (ys : Cells)
    → IsList h lt (xs ++ (p, v) ∷ ys)
    → lt.head ≢ null
head-ne_null [] p v ys is = λ e. is.linked.0.ne_null (sym is.head_at ∙ e)
head-ne_null ((r, u) ∷ xs) p v ys is = λ e. is.linked.0.ne_null (sym is.head_at ∙ e)

Apart-head : (xs : Cells) (p : Ptr) (v : ℕ) (ys : Cells) → Apart xs ((p, v) ∷ ys) → p ∉ xs
Apart-head xs p v ys apart = elim (Bool-cases (has p xs)) [
  | inl i ↦ absurd ((not-mem-cons p p v ys (apart p i)).0 refl)
  | inr o ↦ o
]

-- Links around a member.
pub node_at :
    {h : Heap} (xs : Cells) (p : Ptr) (v : ℕ) (ys : Cells)
    → Linked h null (xs ++ (p, v) ∷ ys) null
    → Points h p (node v (last null xs) (first ys null))
      × (p ∉ xs)
      × (p ∉ ys)
      × Linked h p ys null
      × Linked h null xs p
node_at {h} xs p v ys l =
    let parts = Linked-Split h null xs ((p, v) ∷ ys) null l in
    let (e, out, back) = parts.back in (e, Apart-head xs p v ys parts.apart, out, back, parts.front)

module _ {h : Heap} {lt : Elist} (q : Ptr) (raw : Node) (fresh : Points h q raw) where
  -- `e_list_insert_after` puts a node that is not in the list behind the given member. The other
  -- nodes keep their order, the counters agree, and no other memory changes.
  pub insert_after-IsList :
      (xs : Cells) (p : Ptr) (v : ℕ) (ys : Cells)
      → IsList h lt (xs ++ (p, v) ∷ ys)
      → q ∉ (xs ++ (p, v) ∷ ys)
      → Ends (Inserted h lt (xs ++ cell p v) q raw.value ys) (insert_after lt p q h)
  insert_after-IsList xs p v [] is out =
      let (at, _, _, _, _) = node_at xs p v [] is.linked in
      let apart = (not-mem-cons q p v [] (not-mem-append q xs (cell p v) out).1).0 in
      spliced (xs ++ cell p v) q raw [] (sym (append-nil (xs ++ cell p v))) is fresh out p null _ _
        (sym (last-append null xs (cell p v))) refl
        (insert_after_last-Spliced h lt q raw fresh p _ (head-ne_null xs p v [] is) at refl apart)
        refl (is.head_at ∙ first_member xs p v v [] [] null q) refl refl
  insert_after-IsList xs p v ((r, u) ∷ ys) is out =
      let (at, _, beyond, (behind, _, _), _) = node_at xs p v ((r, u) ∷ ys) is.linked in
      let outs = not-mem-cons q p v ((r, u) ∷ ys) (not-mem-append q xs _ out).1 in
      spliced (xs ++ cell p v) q raw ((r, u) ∷ ys) (sym (append_assoc xs (cell p v) ((r, u) ∷ ys)))
        is fresh out p r _ _ (sym (last-append null xs (cell p v))) refl
        (insert_after-Spliced h lt q raw fresh p _ _ (head-ne_null xs p v _ is) at behind outs.0
          (not-mem-cons q r u ys outs.1).0 (not-mem-cons p r u ys beyond).0)
        refl (is.head_at ∙ first_member xs p v v _ [] null q)
        (is.tail_at ∙ last_member null xs p v ((r, u) ∷ ys)) refl

  -- `e_list_insert_before` puts a node that is not in the list before the given member. The other
  -- nodes keep their order, the counters agree, and no other memory changes.
  pub insert_before-IsList :
      (xs : Cells) (p : Ptr) (v : ℕ) (ys : Cells)
      → IsList h lt (xs ++ (p, v) ∷ ys)
      → q ∉ (xs ++ (p, v) ∷ ys)
      → Ends (Inserted h lt xs q raw.value ((p, v) ∷ ys)) (insert_before lt p q h)
  insert_before-IsList [] p v ys is out =
      let (at, _, _) = is.linked in
      spliced [] q raw ((p, v) ∷ ys) refl is fresh out null p _ _ refl refl
        (insert_before_first-Spliced h lt q raw fresh p _ (head-ne_null [] p v ys is) at refl
          (not-mem-cons q p v ys out).0)
        refl refl is.tail_at refl
  insert_before-IsList ((r, u) ∷ xs) p v ys is out =
      let front = (r, u) ∷ xs in
      let (at, before, _, _, chain) = node_at front p v ys is.linked in
      let (n, ahead, _) = last_node h null r u xs p chain in
      let outs = not-mem-append q front ((p, v) ∷ ys) out in
      spliced front q raw ((p, v) ∷ ys) refl is fresh out (last r xs) p _ _ refl refl
        (insert_before-Spliced h lt q raw fresh p _ n (head-ne_null front p v ys is) at ahead
          (not-mem-cons q p v ys outs.1).0 (ne-last q front fresh.ne_null outs.0)
          (ne-last p front at.ne_null before))
        refl is.head_at (is.tail_at ∙ last_member null front p v ys) refl
