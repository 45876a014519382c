-- ===== src/Memory/Free/Find.antt =====
-- The search for a free node: it finds the smallest that is large enough.
use egui.Prelude.{
  ℕ, zero, suc, ◌≤◌, ◌<◌, ◌+◌, ◌-◌, Bool, true, Option, none, some, List, [], ◌∷◌, ltb, ◌≡◌, arith,
  Bool-cases, inl, inr, ==-cases, lt_or_ge,
}
use egui.Memory.Links.{Ptr, has}
use egui.Memory.Classes.{
  size_to_free_index, size_to_free_index-lt, size_to_free_index_mono, free_tables_size,
}
use egui.Memory.Sorted.{IsSorted}
use egui.Memory.Free.{FreeTables}
use egui.Memory.Free.Delete.{lower-lt}
use egui.Memory.{HeapNode, MemoryHeap, size_of, first_fit, find_from, free_tables_find_node}

-- What a search among the nodes of a set gives: the smallest that is large enough, or none.
pub data Fits (nodes : Ptr → HeapNode) (set : Ptr → Bool) (size : ℕ) : Option Ptr → Type 0 where
  found :
      {p : Ptr}
      → set p ≡ true
      → size ≤ (nodes p).size
      → ((q : Ptr) → set q ≡ true → size ≤ (nodes q).size → (nodes p).size ≤ (nodes q).size)
      → Fits nodes set size (some p)
  missing : ((q : Ptr) → set q ≡ true → (nodes q).size < size) → Fits nodes set size none

first_fit-Fits :
    (nodes : Ptr → HeapNode) (size : ℕ) (l : List Ptr)
    → IsSorted nodes l
    → Fits nodes (has l) size (first_fit nodes size l)
unfolding first_fit has
first_fit-Fits nodes size [] s = missing (λ q h. absurd (cc h))
first_fit-Fits nodes size (p ∷ l) s = elim (Bool-cases (ltb (nodes p).size size)) [
  | inr e ↦ rw e (found (ground arith) (ground arith) (λ q h k. ground (arith, s.1 q)))
  | inl e ↦ rw e (skip e (first_fit nodes size l) (first_fit-Fits nodes size l s.2))
]
  where
    skip :
        ltb (nodes p).size size ≡ true
        → (r : Option Ptr) → Fits nodes (has l) size r
        → Fits nodes (has (p ∷ l)) size r
    skip small none (missing h) = missing (λ q k. ground (arith, h q))
    skip small (some r) (found h k b) = found (ground arith) k (λ q i j. ground (arith, b q))

module _ {m : MemoryHeap} {set : Ptr → Bool} (t : FreeTables m set) (size : ℕ) where
  -- Where the tables before `i` hold nothing that fits, the search goes on from there.
  find_from-Fits :
      (n i : ℕ)
      → n + i ≡ free_tables_size
      → ((q : Ptr) → set q ≡ true → size ≤ size_of m q → i ≤ size_to_free_index (size_of m q))
      → Fits m.nodes set size (find_from m size n i)
  unfolding find_from
  find_from-Fits zero i e h = missing (λ q k. elim (lt_or_ge (size_of m q) size) [
    | inl less ↦ less
    | inr fits ↦ absurd (omega (arith, h q k fits, size_to_free_index-lt (size_of m q)))
  ])
  find_from-Fits (suc n) i e h =
      pick (first_fit m.nodes size (m.free_tables i))
        (first_fit-Fits m.nodes size (m.free_tables i) (t.ordered i))
        (find_from-Fits n (i + 1) (omega arith))
    where
      at_table :
          (q : Ptr)
          → set q ≡ true
          → size_to_free_index (size_of m q) ≡ i
          → has (m.free_tables i) q ≡ true
      at_table q k same = ground (arith, t.filed i q)

      pick :
          (r : Option Ptr)
          → Fits m.nodes (has (m.free_tables i)) size r
          → (((q : Ptr)
                → set q ≡ true
                → size ≤ size_of m q
                → i + 1 ≤ size_to_free_index (size_of m q))
              → Fits m.nodes set size (find_from m size n (i + 1)))
          → Fits m.nodes set size (elim r [ some p ↦ some p | none ↦ find_from m size n (i + 1) ])
      pick none (missing small) rest = rest (λ q k fits.
          elim (==-cases (size_to_free_index (size_of m q)) i) [
            | inl (_, same) ↦ absurd (omega (arith, small q (at_table q k same)))
            | inr (_, other) ↦ omega (arith, h q k fits)
          ])
      pick (some p) (found p_in fits best) rest =
          found (ground (arith, t.filed i p)) fits (λ q k enough.
            elim (==-cases (size_to_free_index (size_of m q)) i) [
              | inl (_, same) ↦ best q (at_table q k same) enough
              | inr (_, other) ↦ omega (
                arith,
                lower-lt m set t.sized p q (ground (arith, t.filed i p)) k
                    (ground (arith, t.filed i p, h q k enough)),
              )
            ])

  pub free_tables_find_node-Fits : 0 < size → Fits m.nodes set size (free_tables_find_node m size)
  unfolding free_tables_find_node
  free_tables_find_node-Fits pos =
      find_from-Fits (free_tables_size - size_to_free_index size) (size_to_free_index size)
        (omega (arith, size_to_free_index-lt size))
        (λ q h fits.
          size_to_free_index_mono size (size_of m q) pos fits (omega (arith, t.sized q h)))
