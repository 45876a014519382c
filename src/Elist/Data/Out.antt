-- ===== src/Elist/Data/Out.antt =====
-- Taking data out: the node leaves the list, its data goes to the caller and its memory back.
use egui.Prelude.{ℕ, true, ◌≡◌, ◌≢◌, refl, sym, Option, none, some, [], ◌∷◌, ◌++◌, arith, ◌∙◌}
use egui.Heap.{Ptr, null, Heap, write, free, Points, load-ok, free-ok, Ends, ends, Ends-bind}
use egui.Heap.Chain.{Cells, cell, has, ◌∉◌, first, last, Linked-frame, has-append, last_member}
use egui.Elist.{Elist}
use egui.Elist.Insert.{IsList, node_at}
use egui.Elist.Remove.{Removed, remove-IsList}
use egui.Elist.Data.{
  free_data, out_data_from_head, out_data_from_tail, next_data, prev_data, out_data,
}
use egui.Heap.Relink.{ne_null-test}
use mathlib.Core.Path.{subst}

-- The cell `p` between `xs` and `ys` is gone from the list and from memory, and no other memory
-- changes outside the list.
abbrev pub Gone : Heap → Elist → Cells → Ptr → Cells → Elist → Heap → Type 0
Gone h lt xs p ys lt' g =
    IsList g lt' (xs ++ ys)
    × (lt'.size ≡ lt.size)
    × (g p ≡ none)
    × ((a : Ptr) → a ≢ p → a ∉ (xs ++ ys) → g a ≡ h a)

write_self : (h : Heap) (p : Ptr) → write h p none p ≡ none
unfolding write
write_self h p = ground arith

write_ne : (h : Heap) (p a : Ptr) → a ≢ p → write h p none a ≡ h a
unfolding write
write_ne h p a n = ground arith

write_other :
    (h : Heap) (p : Ptr) (xs : Cells)
    → p ∉ xs
    → (q : Ptr) → has q xs ≡ true
    → write h p none q ≡ h q
unfolding write
write_other h p xs out q i = ground arith

IsList-write :
    (h : Heap) {lt : Elist} (p : Ptr) (xs : Cells)
    → p ∉ xs
    → IsList h lt xs
    → IsList (write h p none) lt xs
IsList-write h p xs out is = record {
  linked = Linked-frame h _ null xs null (write_other h p xs out) is.linked;
  head_at = is.head_at;
  tail_at = is.tail_at;
  counted = is.counted;
}

module _ {h : Heap} {lt : Elist} (xs : Cells) (p : Ptr) (v : ℕ) (ys : Cells)
    (is : IsList h lt (xs ++ (p, v) ∷ ys)) where
  -- After the removal the node can be given back.
  freed :
      (lt' : Elist) (g : Heap)
      → Removed h lt xs ys lt' g
      → Gone h lt xs p ys lt' (write g p none) × (free p g ≡ some (tt, write g p none))
  freed lt' g (left, size, same) =
      let (at, before, beyond, _, _) = node_at xs p v ys is.linked in
      let out : p ∉ (xs ++ ys) = rw (has-append p xs ys, before, beyond) in
      let still : Points g p _ = record { ne_null = at.ne_null; holds = same p out ∙ at.holds } in
      (
        (
          IsList-write g p (xs ++ ys) out left,
          size,
          write_self g p,
          λ a n o. write_ne g p a n ∙ same a o,
        ),
        free-ok still,
      )

  -- `e_list_free_data` of a member takes it out of the list and gives its memory back; the others
  -- stay in order.
  pub free_data-Gone : Ends (Gone h lt xs p ys) (free_data lt p h)
  unfolding free_data
  free_data-Gone =
      Ends-bind (remove-IsList xs p v ys is)
        λ lt' g r. let (gone, done) = freed lt' g r in rw done (ends gone)

-- What the two functions that hand data out leave, with the data `v`.
abbrev pub Handed : Heap → Elist → Cells → Ptr → ℕ → Cells → Option ℕ × Elist → Heap → Type 0
Handed h lt xs p v ys out g = (out.0 ≡ some v) × Gone h lt xs p ys out.1 g

out_data-Handed :
    {h : Heap} {lt : Elist} (xs : Cells) (p : Ptr) (v : ℕ) (ys : Cells)
    → IsList h lt (xs ++ (p, v) ∷ ys)
    → Ends (Handed h lt xs p v ys) (out_data lt p h)
unfolding out_data
out_data-Handed xs p v ys is =
    let (at, _, _, _, _) = node_at xs p v ys is.linked in
    rw (ne_null-test p at.ne_null, load-ok at)
      (Ends-bind (remove-IsList xs p v ys is)
        λ lt' g r. let (gone, done) = freed xs p v ys is lt' g r in rw done (ends (refl, gone)))

module _ {h : Heap} {lt : Elist} where
  -- On a list with a first node, `e_list_out_data_from_head` hands its data out, takes the node
  -- out of the list and gives its memory back.
  pub out_data_from_head-Handed :
      (p : Ptr) (v : ℕ) (ys : Cells)
      → IsList h lt ((p, v) ∷ ys)
      → Ends (Handed h lt [] p v ys) (out_data_from_head lt h)
  unfolding out_data_from_head
  out_data_from_head-Handed p v ys is =
      subst (λ q. Ends (Handed h lt [] p v ys) (out_data lt q h)) (sym is.head_at)
        (out_data-Handed [] p v ys is)

  -- On a list with a last node, `e_list_out_data_from_tail` hands its data out, takes the node out
  -- of the list and gives its memory back.
  pub out_data_from_tail-Handed :
      (xs : Cells) (p : Ptr) (v : ℕ)
      → IsList h lt (xs ++ cell p v)
      → Ends (Handed h lt xs p v []) (out_data_from_tail lt h)
  unfolding out_data_from_tail
  out_data_from_tail-Handed xs p v is =
      subst (λ q. Ends (Handed h lt xs p v []) (out_data lt q h))
        (sym (is.tail_at ∙ last_member null xs p v [])) (out_data-Handed xs p v [] is)

  -- On an empty list both leave everything as it is.
  pub out_data-empty :
      IsList h lt []
      → (out_data_from_head lt h ≡ some ((none, lt), h))
        × (out_data_from_tail lt h ≡ some ((none, lt), h))
  unfolding out_data_from_head out_data_from_tail out_data
  out_data-empty is = (ground (arith, is.head_at), ground (arith, is.tail_at))

  -- `e_list_next_data` and `e_list_prev_data` go from a member to its neighbours; NULL stands
  -- before the first and behind the last.
  pub next_data-prev_data :
      (xs : Cells) (p : Ptr) (v : ℕ) (ys : Cells)
      → IsList h lt (xs ++ (p, v) ∷ ys)
      → (next_data lt p h ≡ some (first ys null, h)) × (prev_data lt p h ≡ some (last null xs, h))
  unfolding next_data prev_data
  next_data-prev_data xs p v ys is =
      let (at, _, _, _, _) = node_at xs p v ys is.linked in
      (rw (ne_null-test p at.ne_null, load-ok at), rw (ne_null-test p at.ne_null, load-ok at))
