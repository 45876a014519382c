-- ===== src/Memory/Give.antt =====
-- `move_to_free_tables`: a block comes back and is merged with the free nodes beside it.
pub mod Merge
pub mod Absorb
pub mod Freed
pub mod Count
use egui.Prelude.{
  ℕ, ◌≤◌, ◌<◌, ◌+◌, ◌-◌, Bool, true, false, ◌||◌, ◌&&◌, not, Option, none, some, List, [], ◌∷◌,
  ◌++◌, ◌==◌, if◌then◌else◌, ◌≡◌, ◌≢◌, arith, refl, sym, Bool-cases, Option-cases, inl, inr, ap,
  ==-cases, ◌∙◌, append_assoc,
}
use egui.Memory.Links.{Ptr, has, drop_node, next_of, prev_of, last_of}
use egui.Memory.Links.Laws.{
  first_of, Distinct-append, has-append, has-split, has-first_of, has-last_of, has-drop_node,
  drop_node-append, next_of-append, prev_of-append, last_of-split, last_of-none, first_of-none,
}
use egui.Memory.Spans.{
  Tiles, Tiles-append, append-Tiles, Tiles-Distinct, Tiles-congr, Tiles-from, Tiles-within,
}
use egui.Memory.Merged.{Merged, Merged-first, Merged-tail, Merged-append, Merged-sub}
use egui.Memory.Free.{FreeTables, FreeTables-frame}
use egui.Memory.Free.Delete.{FreeTables-delete, heap_free_tables_delete-frame}
use egui.Memory.Used.{AllocTables, AllocTables-frame, AllocTables-delete}
use egui.Memory.Inv.{
  IsHeap, Loose, Bounded, is_free, is_used, Loose-out, Loose-has, Loose-in, Loose-within,
  insert-IsHeap,
}
use egui.Memory.Take.{Keeps, Keeps-trans}
use egui.Memory.{
  HeapNode, MemoryHeap, heap_size, size_of, addr_of, page_of, heap_free_tables_insert,
  heap_free_tables_delete, absorb_next, absorb_prev, free_node_merge, move_to_free_tables, update,
}

-- A free node `n` leaves the heap, and the loose node takes other bounds.
module _ {m : MemoryHeap} {p : Ptr} {pre post : List Ptr} (s : Loose m p pre post) (n : Ptr)
    (n_free : is_free m n ≡ true) (ne : n ≢ p) (v : HeapNode)
    (flag : v.is_alloc ≡ (m.nodes p).is_alloc) where
  abbrev short : MemoryHeap
  short = record m { all = drop_node n m.all }

  abbrev gone : MemoryHeap
  gone = heap_free_tables_delete short n

  abbrev joined : MemoryHeap
  joined = record gone { nodes = update gone.nodes p v }

  joined_has : (q : Ptr) → has joined.all q ≡ (has m.all q && not (q == n))
  joined_has q =
      ap (λ l. has l q) (heap_free_tables_delete-frame short n).1
      ∙ has-drop_node n m.all (Tiles-Distinct m.nodes m.base m.all (m.base + heap_size) s.tiles) q

  joined_nodes : (q : Ptr) → q ≢ p → joined.nodes q ≡ m.nodes q
  joined_nodes q other =
      ground (arith, ap (λ (f : Ptr → HeapNode). f q) (heap_free_tables_delete-frame short n).0)

  joined_node : joined.nodes p ≡ v
  joined_node = ground arith

  joined_free : (q : Ptr) → is_free joined q ≡ (is_free m q && not (q == n))
  joined_free q = elim (==-cases q p) [
    | inl (_, e) ↦ ground (arith, joined_has q, joined_node)
    | inr (_, other) ↦ rw (joined_has q, joined_nodes q other) (ground arith)
  ]

  joined_used : (q : Ptr) → is_used joined q ≡ is_used m q
  joined_used q = elim (==-cases q p) [
    | inl (_, e) ↦ ground (arith, joined_has q, joined_node, n_free)
    | inr (_, other) ↦ rw (joined_has q, joined_nodes q other) (ground (arith, n_free))
  ]

  joined-Keeps : Keeps m joined p
  joined-Keeps = record {
    based = (heap_free_tables_delete-frame short n).3;
    uses = λ q other. joined_used q;
    stays = λ q other h. joined_nodes q other;
  }

  joined-FreeTables : FreeTables joined (λ q. is_free joined q && not (q == p))
  joined-FreeTables =
      FreeTables-frame joined (λ q. is_free joined q && not (q == p))
        (FreeTables-delete
          (FreeTables-frame short (λ q. is_free m q && not (q == p)) s.free refl refl (λ q. refl)
            (λ q h. refl))
          n (ground (arith, ne)))
        refl refl (λ q. rw (joined_free q) (ground arith)) (λ q h. ground arith)

  joined-Loose :
      (pre' post' : List Ptr)
      → drop_node n m.all ≡ pre' ++ p ∷ post'
      → Tiles (update m.nodes p v) m.base (drop_node n m.all) (m.base + heap_size)
      → Merged (is_free m) pre'
      → Merged (is_free m) post'
      → Loose joined p pre' post'
  joined-Loose pre' post' e t before behind =
      let (nodes, all, tables, base) = heap_free_tables_delete-frame short n in
      record {
        all_is = all ∙ e;
        tiles = rw (all, base, nodes) t;
        free = joined-FreeTables;
        used =
            AllocTables-frame joined (λ q. is_used joined q && not (q == p)) s.used tables base
              (λ q. rw (joined_used q) refl)
              (λ q h. ap (λ (x : HeapNode). x.addr) (joined_nodes q (ground arith)));
        before =
            Merged-sub (is_free m) (is_free joined) pre' (λ q h. ground (arith, joined_free q))
              before;
        behind =
            Merged-sub (is_free m) (is_free joined) post' (λ q h. ground (arith, joined_free q))
              behind;
      }
