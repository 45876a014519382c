-- ===== src/Slice/Tests.antt =====
-- A slice of blocks of 8 bytes, with 8 places in a node, and its theorems there.
use egui.Prelude.{ℕ, Option, some, List, [], ◌∷◌, ◌≡◌, refl, arith, ◌>>=◌}
use egui.Slice.{SliceHead, slice_head_new, slice_alloc, slice_free, new_node, SliceNode}
use egui.Slice.Inv.{IsSlice, slice_head_new-IsSlice}
use egui.Slice.Lies.{Lies}
use egui.Slice.Alloc.{Allocated, slice_alloc-IsSlice}

abbrev head : SliceHead
head = slice_head_new 1 0

abbrev one_used : SliceHead
one_used = (slice_alloc head 1000).1

-- Two places are given out, the first one comes back and is given out again.
abbrev addresses : Option (List ℕ)
addresses =
    let (a, h) = slice_alloc head 1000 in
    let (b, h) = slice_alloc h 2000 in
    do
      h ← slice_free h a
      let (c, h) = slice_alloc h 2000
      let (d, h) = slice_alloc h 2000
      some (a ∷ b ∷ c ∷ d ∷ [])

addresses_run : addresses ≡ some (1000 ∷ 1008 ∷ 1000 ∷ 1016 ∷ [])
unfolding slice_head_new slice_alloc slice_free
addresses_run = refl

one_used-IsSlice : IsSlice one_used
one_used-IsSlice = (slice_alloc-IsSlice head 1000 (slice_head_new-IsSlice 1 0 (omega arith))).0

slice_alloc-IsSlice_example : Allocated head 1000 (slice_alloc head 1000)
slice_alloc-IsSlice_example =
    slice_alloc-IsSlice head 1000 (slice_head_new-IsSlice 1 0 (omega arith))

-- Of two nodes the first one is full, and a place of the second comes back.
abbrev full : SliceNode
full = record { index = 0; free_num = 0; base = 1000; map = λ j. 0 }

abbrev two_nodes : SliceHead
two_nodes = record one_used { fill = full ∷ []; half = new_node 8 2000 ∷ [] }
