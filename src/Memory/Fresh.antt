-- ===== src/Memory/Fresh.antt =====
-- A new heap, and a request that a heap can meet.
use egui.Prelude.{ℕ, ◌≤◌, ◌<◌, true, false, [], ◌∷◌, ◌≡◌, arith, refl, Option, none, some, inl, inr}
use egui.Memory.Links.{Ptr, has, last_of}
use egui.Memory.Inv.{IsHeap, Loose, Bounded, is_free, insert-IsHeap}
use egui.Memory.Free.{IsGreatest}
use egui.Memory.Free.Find.{Fits, found, missing, free_tables_find_node-Fits}
use egui.Memory.{
  MemoryHeap, heap_size, size_of, heap_free_tables_insert, memory_heap_new, free_tables_find_node,
}

module _ (p : Ptr) (base : ℕ) where
  abbrev bare : MemoryHeap
  bare = record {
    base = base;
    free_max = 0;
    nodes = λ _. record { addr = base; size = heap_size; is_alloc = false };
    all = p ∷ [];
    free_tables = λ _. [];
    alloc_tables = λ _. [];
  }

  bare-Loose : Loose bare p [] []
  unfolding has
  bare-Loose = record {
    all_is = refl;
    tiles = (refl, omega arith, refl);
    free = record {
      sized = λ q h. ground arith;
      filed = λ i q. ground arith;
      ordered = λ i. tt;
      greatest = record { above = λ q h. ground arith; met = inl (λ q. ground arith, refl) };
    };
    used = record { filed = λ i q. ground arith; distinct = λ i. tt };
    before = tt;
    behind = tt;
  }

  -- `memory_heap_new` sets `free_max` before the insertion, which gives the same heap.
  pub memory_heap_new-eq : memory_heap_new p base ≡ heap_free_tables_insert bare p
  unfolding memory_heap_new heap_free_tables_insert
  memory_heap_new-eq = refl

  bare-Bounded : Bounded bare [] []
  unfolding last_of
  bare-Bounded = record { prev_used = λ q e. absurd (cc e); next_used = λ q e. absurd (cc e) }

  pub memory_heap_new-IsHeap : IsHeap (memory_heap_new p base)
  memory_heap_new-IsHeap = rw memory_heap_new-eq (insert-IsHeap bare-Loose bare-Bounded)

-- On a valid heap, for a request above 0 and of at most `free_max` bytes, `free_tables_find_node`
-- finds a free node that is large enough, and of those a smallest.
pub free_tables_find_node-some :
    {m : MemoryHeap} (size : ℕ)
    → IsHeap m
    → 0 < size
    → size ≤ m.free_max
    → (p : Ptr) × (free_tables_find_node m size ≡ some p)
      × (is_free m p ≡ true)
      × (size ≤ size_of m p)
      × ((q : Ptr) → is_free m q ≡ true → size ≤ size_of m q → size_of m p ≤ size_of m q)
free_tables_find_node-some {m} size v pos h =
    go (free_tables_find_node m size) (free_tables_find_node-Fits v.free size pos) v.free.greatest
  where
    go :
        (r : Option Ptr)
        → Fits m.nodes (is_free m) size r
        → IsGreatest m.nodes (is_free m) m.free_max
        → (p : Ptr) × (r ≡ some p)
          × (is_free m p ≡ true)
          × (size ≤ size_of m p)
          × ((q : Ptr) → is_free m q ≡ true → size ≤ size_of m q → size_of m p ≤ size_of m q)
    go (some p) (found p_in fits best) g = (p, refl, p_in, fits, best)
    go none (missing small) g = elim g.met [
      | inl (_, zero_top) ↦ absurd (omega arith)
      | inr (q, q_in, top) ↦ absurd (omega (arith, small q q_in))
    ]
