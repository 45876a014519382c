-- ===== src/Slice/Give.antt =====
-- `e_slice_free1`: a place comes back.
use egui.Prelude.{ℕ, ◌+◌, false, some, List, ◌∷◌, ◌++◌, ◌≡◌}
use egui.Slice.{SliceNode, SliceHead, Found, slice_free}
use egui.Slice.Places.{free_places, among, Places}
use egui.Slice.Inv.{IsSlice}
use egui.Slice.Lies.{Lies}

-- The place of an address that the search finds is in use.
abbrev pub Held : Found → Type 0
Held f = among (free_places f.node) f.place ≡ false

-- A node with one more free place, given back as the first of them.
pub record Given (n n' : SliceNode) (i : ℕ) : Type 0 where
  pub base : n'.base ≡ n.base
  pub count : n'.free_num ≡ n.free_num + 1
  pub places : free_places n' ≡ i ∷ free_places n

-- The node, which is `n'` now, left the nodes `before` and `behind` it for the head of the half list,
-- or for that of the free list, or for a place further back in the half list; all others stay.
pub data Back (h h' : SliceHead) (before : List SliceNode) (n n' : SliceNode)
    (behind : List SliceNode) : Type 0 where
  from_fill :
      h.fill ≡ before ++ n ∷ behind
      → h'.fill ≡ before ++ behind
      → h'.half ≡ n' ∷ h.half
      → h'.free ≡ h.free
      → Back h h' before n n' behind
  to_free :
      h.half ≡ before ++ n ∷ behind
      → n'.free_num ≡ h.num
      → h'.fill ≡ h.fill
      → h'.half ≡ before ++ behind
      → h'.free ≡ n' ∷ h.free
      → Back h h' before n n' behind
  in_order :
      (passed later : List SliceNode)
      → h.half ≡ before ++ n ∷ behind
      → behind ≡ passed ++ later
      → h'.fill ≡ h.fill
      → h'.half ≡ before ++ (passed ++ n' ∷ later)
      → h'.free ≡ h.free
      → Back h h' before n n' behind

-- The size and the number of places stay.
abbrev pub Alike : (h h' : SliceHead) → Type 0
Alike h h' = (h'.size ≡ h.size) × (h'.num ≡ h.num)

-- What the call leaves.
abbrev pub GivenBack :
    (h : SliceHead) → (addr i : ℕ) → List SliceNode → SliceNode → List SliceNode → Type 0
GivenBack h addr i before n behind =
    (h' : SliceHead) × (n' : SliceNode) × (slice_free h addr ≡ some h')
    × IsSlice h'
    × Given n n' i
    × Back h h' before n n' behind
    × Alike h h'
