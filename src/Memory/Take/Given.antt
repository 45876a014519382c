-- ===== src/Memory/Take/Given.antt =====
-- `heap_get_free_node` on a heap: what the call gives out as a whole.
use egui.Prelude.{
  ℕ, ◌≤◌, ◌<◌, ◌+◌, true, false, List, ◌∷◌, ◌++◌, ◌≡◌, ◌≢◌, arith, refl, sym, inl, inr, ap, ◌⊎◌,
  lt→ltb, le→ltb, lt_or_ge,
}
use egui.Memory.Links.{Ptr, has}
use egui.Memory.Links.Laws.{has-split}
use egui.Memory.Spans.{Tiles-within, Tiles-disjoint}
use egui.Memory.Free.Delete.{heap_free_tables_delete-frame}
use egui.Memory.Inv.{IsHeap, Loose, Bounded, is_free, is_used, Loose-in, alloc_insert-IsHeap}
use egui.Memory.{
  HeapNode, MemoryHeap, heap_size, size_of, addr_of, heap_free_tables_delete,
  heap_alloc_tables_insert, split, take_node,
}
use egui.Memory.Take.{
  Keeps, delete-Loose, delete-Keeps, split-new, split-Loose, split-Keeps, alloc_insert-Keeps,
  alloc_insert-at, alloc_insert-used, Keeps-trans, used_same,
}

-- Two blocks in use that share no byte.
abbrev pub Apart : MemoryHeap → Ptr → Ptr → Type 0
Apart m p q = (addr_of m p + size_of m p ≤ addr_of m q) ⊎ (addr_of m q + size_of m q ≤ addr_of m p)

-- A block of `size` bytes is given out, and no other is touched.
pub record Taken (m : MemoryHeap) (size : ℕ) (m' : MemoryHeap) (p : Ptr) : Type 0 where
  pub valid : IsHeap m'
  pub sized : size_of m' p ≡ size
  pub given : is_used m' p ≡ true
  pub unused : is_used m p ≡ false
  pub within : (m.base ≤ addr_of m' p) × (addr_of m' p + size ≤ m.base + heap_size)
  pub apart : (q : Ptr) → q ≢ p → is_used m q ≡ true → Apart m' p q
  pub keeps : Keeps m m' p

given-Taken :
    {m : MemoryHeap} (size : ℕ) {m' : MemoryHeap} {p : Ptr}
    → IsHeap m'
    → size_of m' p ≡ size
    → is_used m' p ≡ true
    → is_used m p ≡ false
    → Keeps m m' p
    → Taken m size m' p
given-Taken {m} size {m'} {p} v e u i k =
    let within =
      Tiles-within m'.nodes m'.base m'.all (m'.base + heap_size) v.tiles p (ground arith) in
    record {
      valid = v;
      sized = e;
      given = u;
      unused = i;
      within = (omega (arith, within, k.based), omega (arith, within, k.based));
      apart = λ q ne h.
          Tiles-disjoint m'.nodes m'.base m'.all (m'.base + heap_size) v.tiles p q (ground arith)
            (ground (arith, k.uses q ne)) (λ same. ne (sym same));
      keeps = k;
    }

module _ (m : MemoryHeap) (p : Ptr) (size : ℕ) (new : Ptr) where
  pub take_node-cut :
      let d = heap_free_tables_delete m p in
      size < size_of d p
      → take_node m p size new ≡ (heap_alloc_tables_insert (split d p size new) new, new)
  unfolding take_node
  take_node-cut less = rw (lt→ltb size _ less) refl

  pub take_node-whole :
      let d = heap_free_tables_delete m p in
      size_of d p ≤ size → take_node m p size new ≡ (heap_alloc_tables_insert d p, p)
  unfolding take_node
  take_node-whole more = rw (le→ltb size _ more) refl

module _ {m : MemoryHeap} (v : IsHeap m) (p : Ptr) (h : is_free m p ≡ true) (size : ℕ)
    (fits : size ≤ size_of m p) where
  -- The node has the size asked for.
  pub whole-Taken :
      let d = heap_free_tables_delete m p in
      size_of d p ≤ size → Taken m size (heap_alloc_tables_insert d p) p
  whole-Taken more =
      let d = heap_free_tables_delete m p in
      let (pre, post, all_is) = has-split m.all p (ground arith) in
      let (s, b) = delete-Loose v p pre post all_is h in
      let kept : size_of d p ≡ size_of m p =
        ap (λ (f : Ptr → HeapNode). (f p).size) (heap_free_tables_delete-frame m p).0 in
      given-Taken size (alloc_insert-IsHeap s) (rw (alloc_insert-at d p) (omega (arith, kept)))
        (rw (alloc_insert-used d p) (Loose-in s)) (ground arith)
        (Keeps-trans (delete-Keeps v p pre post all_is h p) (alloc_insert-Keeps d p))

module _ {m : MemoryHeap} (v : IsHeap m) (p : Ptr) (h : is_free m p ≡ true) (size : ℕ) (new : Ptr)
    (pos : 0 < size) (fits : size ≤ size_of m p) (fresh : has m.all new ≡ false) where
  abbrev left : MemoryHeap
  left = heap_free_tables_delete m p

  module _ {pre post : List Ptr} (all_is : m.all ≡ pre ++ p ∷ post) (s : Loose left p pre post)
      (b : Bounded left pre post) where
    cut-Taken :
        size < size_of left p
        → Taken m size (heap_alloc_tables_insert (split left p size new) new) new
    cut-Taken less =
        let gone = (heap_free_tables_delete-frame m p).1 in
        let fresh' : has left.all new ≡ false = rw gone fresh in
        let (new_size, new_in) = split-new s b size new pos less fresh' in
        given-Taken size (alloc_insert-IsHeap (split-Loose s b size new pos less fresh'))
          (rw (alloc_insert-at (split left p size new) new) new_size)
          (rw (alloc_insert-used (split left p size new) new) new_in) (ground arith)
          (Keeps-trans (delete-Keeps v p pre post all_is h new) (
            Keeps-trans
              (split-Keeps s b size new pos less fresh'
                (rw (used_same v p pre post all_is h p) (ground arith)))
              (alloc_insert-Keeps (split left p size new) new)))

  pub take_node-Taken : let (m', q) = take_node m p size new in Taken m size m' q
  take_node-Taken =
      let (pre, post, all_is) = has-split m.all p (ground arith) in
      let (s, b) = delete-Loose v p pre post all_is h in
      elim (lt_or_ge size (size_of left p)) [
        | inl less ↦ rw (take_node-cut m p size new less) (cut-Taken all_is s b less)
        | inr more ↦ rw (take_node-whole m p size new more) (whole-Taken v p h size fits more)
      ]
