-- ===== src/Elist/Tests.antt =====
-- The theorems on lists, at a list of two nodes, a node that stands alone and a free block.
use egui.Prelude.Int.{pos, negsuc}
use egui.Prelude.{
  ℕ, ◌+◌, Bool, true, false, ltb, some, ◌≡◌, refl, arith, none, some, [], ◌∷◌, ◌==◌, if◌then◌else◌,
}
use egui.Heap.{Ptr, Node, node, Heap, Points, Ends}
use egui.Heap.Chain.{Cells, cell, ◌∉◌}
use egui.Elist.{Elist, new_list, insert_after, insert_before, remove}
use egui.Elist.Insert.{IsList, Inserted, insert_after-IsList, insert_before-IsList}
use egui.Elist.Remove.{Removed, remove-IsList}
use egui.Elist.Walk.{empty, reverse, get_index_data}
use egui.Elist.Walk.Reverse.{reverse-IsList}
use egui.Elist.Walk.Index.{get_index_data_lem}
use egui.Elist.Walk.Empty.{Freed, empty-Freed}
use egui.Elist.Data.{Block}
use egui.Elist.Sorted.{Sorting, add_data_by_sort, add_by_sort_copy}
use egui.Elist.Sorted.Find.{cut}
use egui.Elist.Sorted.Place.{Placed, place, spot, add_data_by_sort-Placed}
use egui.Elist.Sorted.Callback.{Added, Ordered, put_in, add_by_sort_copy-Ordered}
use egui.Elist.Copy.{copy}
use egui.Elist.Copy.Whole.{Copied, copy-Copied}

-- The data 7 and 8 stand at 10 and 20, and the node at 30 is in no list.
abbrev memory : Heap
memory = λ a.
    if a == 10
    then some (node 7 0 20)
    else if a == 20
    then some (node 8 10 0)
    else if a == 30
    then some (node 9 55 66)
    else none

abbrev pair : Elist
pair = record { size = 8; count = 2; head = 10; tail = 20 }

abbrev cells : Cells
cells = (10, 7) ∷ (20, 8) ∷ []

abbrev alone : Node
alone = node 9 55 66

abbrev block : Block
block = record { at = 40; next = 55; prev = 66 }

pair-IsList : IsList memory pair cells
pair-IsList = record {
  linked = (
    record { ne_null = omega arith; holds = refl },
    refl,
    (record { ne_null = omega arith; holds = refl }, refl, tt),
  );
  head_at = refl;
  tail_at = refl;
  counted = refl;
}

alone-Points : Points memory 30 (node 9 55 66)
alone-Points = record { ne_null = omega arith; holds = refl }

insert_after-IsList_example :
    Ends (Inserted memory pair (cell 10 7) 30 9 (cell 20 8)) (insert_after pair 10 30 memory)
insert_after-IsList_example =
    insert_after-IsList 30 alone alone-Points [] 10 7 (cell 20 8) pair-IsList refl

insert_before-IsList_example :
    Ends (Inserted memory pair (cell 10 7) 30 9 (cell 20 8)) (insert_before pair 20 30 memory)
insert_before-IsList_example =
    insert_before-IsList 30 alone alone-Points (cell 10 7) 20 8 [] pair-IsList refl

remove-IsList_example : Ends (Removed memory pair (cell 10 7) []) (remove pair 20 memory)
remove-IsList_example = remove-IsList (cell 10 7) 20 8 [] pair-IsList

reverse-IsList_example :
    Ends
      (λ lt' g.
        IsList g lt' ((20, 8) ∷ (10, 7) ∷ [])
        × (lt'.size ≡ 8)
        × ((a : Ptr) → a ∉ cells → g a ≡ memory a))
      (reverse pair memory)
reverse-IsList_example = reverse-IsList cells pair-IsList

empty-Freed_example :
    Ends (λ lt' g. IsList g lt' [] × (lt'.size ≡ 8) × Freed memory cells g) (empty pair memory)
empty-Freed_example = empty-Freed cells pair-IsList

-- Index 5 of a list of two gives its last node.
get_index_data_lem_example : get_index_data pair 5 memory ≡ some (20, memory)
get_index_data_lem_example = get_index_data_lem cells 5 pair-IsList

-- The data in ascending order: the callback tells a greater one.
abbrev greater : (old new : ℕ) → Bool
greater old new = ltb new old

add_by_sort_copy-Ordered_example :
    Ends
      (λ lt' g.
        Added memory pair (put_in greater 40 8 cells) lt' g
        × Ordered greater (put_in greater 40 8 cells))
      (add_by_sort_copy greater pair block 8 memory)
add_by_sort_copy-Ordered_example =
    add_by_sort_copy-Ordered greater memory pair block 8 (omega arith) cells pair-IsList refl
      (λ a c e. ground arith) (λ a c d e f. ground arith) ((refl, tt), (tt, tt))

-- A sort function that answers 1 for what is less, and a list that takes what it finds no place for.
abbrev backward : Sorting
backward = record {
  has_sort = true;
  sort = λ old new. if ltb old new then pos 1 else negsuc 0;
  mode = pos 1;
  forward = false;
}

add_data_by_sort-Placed_example :
    Ends
      (Placed memory pair cells block 8 (place backward 8 cells))
      (add_data_by_sort backward pair block 8 memory)
add_data_by_sort-Placed_example =
    add_data_by_sort-Placed memory pair block 8 (omega arith) cells pair-IsList refl backward

place_runs : place backward 8 cells ≡ some (cell 10 7, cell 20 8)
unfolding place spot cut
place_runs = refl

-- The `i`-th call of the allocator gives the block at 50 + i.
abbrev supply : ℕ → Block
supply i = record { at = 50 + i; next = 0; prev = 0 }

supply_out : (i : ℕ) → (supply i).at ∉ cells
supply_out i = ground arith

copy-Copied_example : Ends (Copied supply pair cells cells) (copy pair (new_list 4) supply memory)
unfolding new_list
copy-Copied_example =
    copy-Copied supply (λ i. omega arith) (λ i j le. omega arith) cells [] pair-IsList
      (record { linked = tt; head_at = refl; tail_at = refl; counted = refl }) (λ a i. refl)
      supply_out
