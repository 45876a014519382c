-- ===== src/Elist/Data/Add.antt =====
-- Adding data: a block that no list uses becomes a node of the list, with the data in it.
use egui.Prelude.{ℕ, true, ◌≡◌, ◌≢◌, Option, some, [], ◌∷◌, ◌++◌, arith}
use egui.Heap.{Ptr, null, Node, Heap, write, Points, Points-self, Ends, Ends-imp}
use egui.Heap.Chain.{Cells, cell, has, ◌∉◌, Linked-frame, has-append}
use egui.Elist.{Elist}
use egui.Elist.Insert.{
  IsList, Inserted, insert_head-IsList, insert_tail-IsList, insert_before-IsList,
  insert_after-IsList,
}
use egui.Elist.Data.{
  Block, alloc_node, add_data, add_data_to_head, insert_data_before, insert_data_after,
}
use mathlib.Core.Bool.{or-true}

pub write_other :
    (h : Heap) (p : Ptr) (c : Option Node) (xs : Cells)
    → p ∉ xs
    → (q : Ptr) → has q xs ≡ true
    → write h p c q ≡ h q
unfolding write
write_other h p c xs out q i = ground arith

-- Outside a list with the block in it, filling the block changes nothing.
outside-alloc :
    (h g : Heap) (p : Ptr) (c : Option Node) (zs : Cells)
    → has p zs ≡ true
    → ((a : Ptr) → a ∉ zs → g a ≡ write h p c a)
    → (a : Ptr) → a ∉ zs
    → g a ≡ h a
unfolding write
outside-alloc h g p c zs i same a out = ground (arith, same a)

has_self : (p : Ptr) (w : ℕ) (ys : Cells) → has p ((p, w) ∷ ys) ≡ true
has_self p w ys = ground arith

-- The block with the data in it.
abbrev pub filled : Block → ℕ → Node
filled b w = record { next = b.next; prev = b.prev; value = w }

has-new : (p : Ptr) (w : ℕ) (xs ys : Cells) → has p (xs ++ (p, w) ∷ ys) ≡ true
has-new p w xs ys = rw (has-append p xs ((p, w) ∷ ys), has_self p w ys) (or-true (has p xs))

module _ (h : Heap) (lt : Elist) (b : Block) (w : ℕ) (ne : b.at ≢ null) where
  -- The list is the same list in memory with the block (filled b w).
  pub IsList-alloc :
      (xs : Cells) → IsList h lt xs → b.at ∉ xs → IsList (write h b.at (some (filled b w))) lt xs
  IsList-alloc xs is out = record {
    linked = Linked-frame h _ null xs null (write_other h b.at _ xs out) is.linked;
    head_at = is.head_at;
    tail_at = is.tail_at;
    counted = is.counted;
  }

  pub settle :
      (xs ys : Cells) (lt' : Elist) (g : Heap)
      → Inserted (write h b.at (some (filled b w))) lt xs b.at w ys lt' g
      → Inserted h lt xs b.at w ys lt' g
  settle xs ys lt' g (is, size, same) = (
    is,
    size,
    outside-alloc h g b.at (some (filled b w)) (xs ++ (b.at, w) ∷ ys) (has-new b.at w xs ys) same,
  )

  pub own : Points (write h b.at (some (filled b w))) b.at (filled b w)
  own = Points-self h b.at (filled b w) ne

  -- `e_list_add_data` puts the data, in a new block, behind all other; no memory but the list's
  -- and the block changes.
  pub add_data-IsList :
      (xs : Cells)
      → IsList h lt xs
      → b.at ∉ xs
      → Ends (Inserted h lt xs b.at w []) (add_data lt b w h)
  unfolding add_data alloc_node
  add_data-IsList xs is out =
      Ends-imp (insert_tail-IsList b.at (filled b w) own xs (IsList-alloc xs is out) out)
        (settle xs [])

  -- `e_list_add_data_to_head` puts the data, in a new block, before all other; no memory but the
  -- list's and the block changes.
  pub add_data_to_head-IsList :
      (ys : Cells)
      → IsList h lt ys
      → b.at ∉ ys
      → Ends (Inserted h lt [] b.at w ys) (add_data_to_head lt b w h)
  unfolding add_data_to_head alloc_node
  add_data_to_head-IsList ys is out =
      Ends-imp (insert_head-IsList b.at (filled b w) own ys (IsList-alloc ys is out) out)
        (settle [] ys)

  module _ (xs : Cells) (p : Ptr) (v : ℕ) (ys : Cells) (is : IsList h lt (xs ++ (p, v) ∷ ys))
      (out : b.at ∉ (xs ++ (p, v) ∷ ys)) where
    -- `e_list_insert_data_before` puts the data, in a new block, before that of the given member;
    -- no memory but the list's and the block changes.
    pub insert_data_before-IsList :
        Ends (Inserted h lt xs b.at w ((p, v) ∷ ys)) (insert_data_before lt p b w h)
    unfolding insert_data_before alloc_node
    insert_data_before-IsList =
        Ends-imp (insert_before-IsList b.at (filled b w) own xs p v ys (IsList-alloc _ is out) out)
          (settle xs ((p, v) ∷ ys))

    -- `e_list_insert_data_after` puts the data, in a new block, behind that of the given member;
    -- no memory but the list's and the block changes.
    pub insert_data_after-IsList :
        Ends (Inserted h lt (xs ++ cell p v) b.at w ys) (insert_data_after lt p b w h)
    unfolding insert_data_after alloc_node
    insert_data_after-IsList =
        Ends-imp (insert_after-IsList b.at (filled b w) own xs p v ys (IsList-alloc _ is out) out)
          (settle (xs ++ cell p v) ys)
