-- ===== src/Elist/Remove.antt =====
-- `e_list_remove`, on the list of nodes that a list stands for.
use egui.Prelude.{ℕ, ◌-◌, ◌≡◌, refl, sym, ◌∙◌, Option, [], ◌∷◌, ◌++◌, arith, length-append}
use mathlib.Core.Path.{subst₂}
use egui.Heap.{Ptr, null, Heap, Ends, ends, Ends-bind}
use egui.Heap.Chain.{
  Cells, ◌∉◌, first, last, Apart, Linked-Split, first-append, last-append, not-mem-append,
  last_node, last_member, ne-last,
}
use egui.Heap.Relink.{joined_outside, Linked-join, has-last}
use egui.Elist.{Elist, unlink, remove}
use egui.Elist.Steps.{
  Joined, unlink_only-Joined, unlink_last-Joined, unlink_first-Joined, unlink-Joined,
}
use egui.Elist.Insert.{IsList, node_at, not-mem-cons}

-- What is left when the node between `xs` and `ys` is out: its own memory is as it was.
abbrev pub Removed : Heap → Elist → Cells → Cells → Elist → Heap → Type 0
Removed h lt xs ys lt' g =
    IsList g lt' (xs ++ ys) × (lt'.size ≡ lt.size) × ((a : Ptr) → a ∉ (xs ++ ys) → g a ≡ h a)

module _ {h : Heap} {lt : Elist} (xs : Cells) (p : Ptr) (v : ℕ) (ys : Cells)
    (is : IsList h lt (xs ++ (p, v) ∷ ys)) where
  unlinked :
      (l r : Ptr) (made : Option (Elist × Heap)) (lt' : Elist)
      → l ≡ last null xs
      → r ≡ first ys null
      → Joined h l r made lt'
      → lt'.size ≡ lt.size
      → lt'.head ≡ first xs (first ys null)
      → lt'.tail ≡ last (last null xs) ys
      → lt'.count ≡ lt.count
      → Ends (λ lt' g. Removed h lt xs ys (record lt' { count = lt'.count - 1 }) g) made
  unlinked l r made lt' el er s size head tail count =
      let (g, done, same) = subst₂ (λ a b. Joined h a b made lt') el er s in
      let (_, _, _, back, front) = node_at xs p v ys is.linked in
      let parts = Linked-Split h null xs ((p, v) ∷ ys) null is.linked in
      let apart : Apart xs ys = λ a i. (not-mem-cons a p v ys (parts.apart a i)).1 in
      rw done (
        ends (
          record {
            linked = Linked-join h xs ys p p front back apart g (λ a i. same a);
            head_at = rw (first-append xs ys null) head;
            tail_at = rw (last-append null xs ys) tail;
            counted =
                omega
                  (arith, count, is.counted, length-append xs ys, length-append xs ((p, v) ∷ ys));
          },
          size,
          λ a o.
              let outs = not-mem-append a xs ys o in
              same a ∙ joined_outside h xs ys _ _ a outs.0 outs.1,
        ))

-- The cases of `e_list_remove`: is the node the last one, is it the first one.
pub unlink-Removed :
    {h : Heap} {lt : Elist} (xs : Cells) (p : Ptr) (v : ℕ) (ys : Cells)
    → IsList h lt (xs ++ (p, v) ∷ ys)
    → Ends (λ lt' g. Removed h lt xs ys (record lt' { count = lt'.count - 1 }) g) (unlink lt p h)
unlink-Removed {h} {lt} [] p v [] is =
    unlinked [] p v [] is null null _ _ refl refl
      (unlink_only-Joined h lt p _ is.linked.0 is.tail_at is.head_at) refl refl refl refl
unlink-Removed {h} {lt} ((r, u) ∷ xs) p v [] is =
    let front = (r, u) ∷ xs in
    let (at, before, _, _, chain) = node_at front p v [] is.linked in
    let (n, ahead, _) = last_node h null r u xs p chain in
    unlinked front p v [] is (last r xs) null _ _ refl refl
      (unlink_last-Joined h lt p _ at n (is.tail_at ∙ last_member null front p v [])
        (λ e. (not-mem-cons p r u xs before).0 (sym e ∙ is.head_at)) ahead)
      refl is.head_at refl refl
unlink-Removed {h} {lt} [] p v ((r, u) ∷ ys) is =
    let (at, beyond, (behind, _, _)) = is.linked in
    unlinked [] p v ((r, u) ∷ ys) is null r _ _ refl refl
      (unlink_first-Joined h lt p _ at _
        (λ e. ne-last p ((r, u) ∷ ys) at.ne_null beyond (sym e ∙ is.tail_at)) is.head_at behind)
      refl refl is.tail_at refl
unlink-Removed {h} {lt} ((r, u) ∷ xs) p v ((r', u') ∷ ys) is =
    let front = (r, u) ∷ xs in
    let rest = (r', u') ∷ ys in
    let (at, before, beyond, (behind, _, _), chain) = node_at front p v rest is.linked in
    let (n, ahead, _) = last_node h null r u xs p chain in
    let parts = Linked-Split h null front ((p, v) ∷ rest) null is.linked in
    let far = (not-mem-cons (last r xs) p v rest (parts.apart (last r xs) (has-last r u xs))).1 in
    unlinked front p v rest is (last r xs) r' _ _ refl refl
      (unlink-Joined h lt p _ at n _
        (λ e.
          ne-last p rest at.ne_null beyond (sym e ∙ is.tail_at ∙ last_member null front p v rest))
        (λ e. (not-mem-cons p r u xs before).0 (sym e ∙ is.head_at)) ahead behind
        (not-mem-cons (last r xs) r' u' ys far).0)
      refl is.head_at (is.tail_at ∙ last_member null front p v rest) refl

-- `e_list_remove` of a member takes it out of the list and counts it off. The others stay in
-- order, and the member's own memory and all other is as it was.
pub remove-IsList :
    {h : Heap} {lt : Elist} (xs : Cells) (p : Ptr) (v : ℕ) (ys : Cells)
    → IsList h lt (xs ++ (p, v) ∷ ys)
    → Ends (Removed h lt xs ys) (remove lt p h)
unfolding remove
remove-IsList xs p v ys is = Ends-bind (unlink-Removed xs p v ys is) (λ lt' g r. ends r)
