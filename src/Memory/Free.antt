-- ===== src/Memory/Free.antt =====
-- The tables of free nodes: what they hold, and insertion.
pub mod Delete
pub mod Find
use egui.Prelude.{
  ℕ, suc, ◌≤◌, ◌<◌, Bool, true, false, ◌||◌, ◌&&◌, not, Option, none, some, List, [], ◌∷◌, ◌++◌,
  ◌==◌, ltb, if◌then◌else◌, ◌≡◌, ◌≢◌, ◌⊎◌, arith, refl, sym, Bool-cases, Option-cases, inl, inr, ap,
  ==-cases,
}
use egui.Memory.Links.{Ptr, has}
use egui.Memory.Classes.{size_to_free_index}
use egui.Memory.Sorted.{IsSorted, IsSorted-congr, IsSorted-put_by_size, has-put_by_size}
use egui.Memory.{
  HeapNode, MemoryHeap, size_of, heap_size, update, heap_free_tables_insert, put_by_size,
}

-- The greatest size among the nodes of a set, or 0 where it is empty.
pub record IsGreatest (nodes : Ptr → HeapNode) (set : Ptr → Bool) (top : ℕ) : Type 0 where
  pub above : (p : Ptr) → set p ≡ true → (nodes p).size ≤ top
  pub met :
      (((p : Ptr) → set p ≡ false) × (top ≡ 0))
      ⊎ ((p : Ptr) × (set p ≡ true) × ((nodes p).size ≡ top))

-- The tables hold the nodes of the set, each in the table for its size and in order.
pub record FreeTables (m : MemoryHeap) (set : Ptr → Bool) : Type 0 where
  pub sized : (p : Ptr) → set p ≡ true → (0 < size_of m p) × (size_of m p ≤ heap_size)
  pub filed :
      (i : ℕ) (p : Ptr)
      → has (m.free_tables i) p ≡ (set p && (size_to_free_index (size_of m p) == i))
  pub ordered : (i : ℕ) → IsSorted m.nodes (m.free_tables i)
  pub greatest : IsGreatest m.nodes set m.free_max

-- A change of the heap that the tables do not see.
pub FreeTables-frame :
    {m : MemoryHeap} {set : Ptr → Bool} (m' : MemoryHeap) (set' : Ptr → Bool)
    → FreeTables m set
    → (m'.free_tables ≡ m.free_tables)
    → (m'.free_max ≡ m.free_max)
    → ((p : Ptr) → set' p ≡ set p)
    → ((p : Ptr) → set p ≡ true → size_of m' p ≡ size_of m p)
    → FreeTables m' set'
FreeTables-frame {m} {set} m' set' t tables top sets sizes = record {
  sized = λ p h. ground (arith, t.sized p, sets p, sizes p);
  filed = λ i p. elim (Bool-cases (set p)) [
    | inl e ↦ rw (tables, t.filed i p, sets p, e, sizes p e) refl
    | inr e ↦ rw (tables, t.filed i p, sets p, e) refl
  ];
  ordered = λ i. rw tables (
      IsSorted-congr m.nodes m'.nodes (m.free_tables i)
        (λ q h. sizes q (ground (arith, t.filed i q))) (t.ordered i));
  greatest = record {
    above = λ p h. ground (arith, t.greatest.above p, sets p, sizes p);
    met = elim t.greatest.met [
      | inl (no_one, zero_top) ↦ inl (λ p. ground (arith, no_one p, sets p), ground arith)
      | inr (p, is_in, reached) ↦ inr (p, ground (arith, sets p), ground (arith, sizes p))
    ];
  };
}

module _ (nodes : Ptr → HeapNode) (set : Ptr → Bool) (top : ℕ) (p : Ptr) where
  IsGreatest-with :
      IsGreatest nodes set top
      → IsGreatest nodes
          (λ q. set q || p == q)
          (if ltb top (nodes p).size then (nodes p).size else top)
  IsGreatest-with g = elim (Bool-cases (ltb top (nodes p).size)) [
    | inl e ↦
        rw e
          (record { above = λ q h. ground (arith, g.above q); met = inr (p, ground arith, refl) })
    | inr e ↦ rw e (record {
      above = λ q h. ground (arith, g.above q);
      met = elim g.met [
        | inl (no_one, zero_top) ↦ inr (p, ground arith, ground arith)
        | inr (q, is_in, reached) ↦ inr (q, ground arith, reached)
      ];
    })
  ]

module _ {m : MemoryHeap} {set : Ptr → Bool} (t : FreeTables m set) (p : Ptr) where
  abbrev index : ℕ
  index = size_to_free_index (size_of m p)

  -- `heap_free_tables_insert` less the flag of the node.
  abbrev inserted : MemoryHeap
  inserted = record m {
    free_tables = update m.free_tables index (put_by_size m.nodes p (m.free_tables index));
    free_max = if ltb m.free_max (size_of m p) then size_of m p else m.free_max;
  }

  inserted-FreeTables :
      set p ≡ false
      → (0 < size_of m p)
      → (size_of m p ≤ heap_size)
      → FreeTables inserted (λ q. set q || p == q)
  inserted-FreeTables out pos fits = record {
    sized = λ q h. ground (arith, t.sized q);
    filed = λ i q. ground (arith, t.filed i q, has-put_by_size m.nodes p (m.free_tables i) q);
    ordered = λ i. elim (==-cases i index) [
      | inl (e, same) ↦ rw e (
          IsSorted-put_by_size m.nodes p (m.free_tables index) (ground (arith, t.filed index p))
            (t.ordered index))
      | inr (e, other) ↦ rw e (t.ordered i)
    ];
    greatest = IsGreatest-with m.nodes set m.free_max p t.greatest;
  }

  pub FreeTables-insert :
      set p ≡ false
      → (0 < size_of m p)
      → (size_of m p ≤ heap_size)
      → FreeTables (heap_free_tables_insert m p) (λ q. set q || p == q)
  unfolding heap_free_tables_insert
  FreeTables-insert out pos fits =
      FreeTables-frame (heap_free_tables_insert m p) (λ q. set q || p == q)
        (inserted-FreeTables out pos fits) refl refl (λ q. refl) (λ q h. ground arith)
