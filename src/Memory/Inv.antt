-- ===== src/Memory/Inv.antt =====
-- What holds of a heap between calls, and in the middle of one, when a node is in no table.
use egui.Prelude.{
  ◌≤◌, ◌<◌, ◌+◌, Bool, true, false, ◌||◌, ◌&&◌, not, some, List, ◌∷◌, ◌++◌, ◌==◌, ◌≡◌, ◌≢◌, arith,
  refl, ap, ◌∙◌,
}
use egui.Memory.Links.{Ptr, has, last_of}
use egui.Memory.Links.Laws.{first_of, Distinct-append, has-append, has-first_of, has-last_of}
use egui.Memory.Spans.{Tiles, Tiles-within, Tiles-Distinct, Tiles-congr}
use egui.Memory.Merged.{Merged, Merged-cons, append-Merged, Merged-congr}
use egui.Memory.Free.{FreeTables, FreeTables-frame, FreeTables-insert}
use egui.Memory.Used.{AllocTables, AllocTables-frame, AllocTables-insert}
use egui.Memory.{
  MemoryHeap, heap_size, size_of, addr_of, heap_free_tables_insert, heap_alloc_tables_insert,
}

abbrev pub is_free : MemoryHeap → Ptr → Bool
is_free m p = has m.all p && not (m.nodes p).is_alloc

abbrev pub is_used : MemoryHeap → Ptr → Bool
is_used m p = has m.all p && (m.nodes p).is_alloc

-- The nodes cover the heap, the tables hold the free ones and those in use, `free_max` is the
-- greatest free size, and no two free nodes stand side by side.
pub record IsHeap (m : MemoryHeap) : Type 0 where
  pub tiles : Tiles m.nodes m.base m.all (m.base + heap_size)
  pub free : FreeTables m (is_free m)
  pub used : AllocTables m (is_used m)
  pub merged : Merged (is_free m) m.all

-- In the middle of a call: the node `p` is in no table.
pub record Loose (m : MemoryHeap) (p : Ptr) (pre post : List Ptr) : Type 0 where
  pub all_is : m.all ≡ pre ++ p ∷ post
  pub tiles : Tiles m.nodes m.base m.all (m.base + heap_size)
  pub free : FreeTables m (λ q. is_free m q && not (q == p))
  pub used : AllocTables m (λ q. is_used m q && not (q == p))
  pub before : Merged (is_free m) pre
  pub behind : Merged (is_free m) post

pub record Bounded (m : MemoryHeap) (pre post : List Ptr) : Type 0 where
  pub prev_used : (q : Ptr) → last_of pre ≡ some q → (m.nodes q).is_alloc ≡ true
  pub next_used : (q : Ptr) → first_of post ≡ some q → (m.nodes q).is_alloc ≡ true

module _ {m : MemoryHeap} {p : Ptr} {pre post : List Ptr} (s : Loose m p pre post) where
  pub Loose-out : (has pre p ≡ false) × (has post p ≡ false)
  Loose-out =
      Distinct-append pre p post
        (rw (← s.all_is) (Tiles-Distinct m.nodes m.base m.all (m.base + heap_size) s.tiles))

  pub Loose-has : (q : Ptr) → has m.all q ≡ (has pre q || (p == q || has post q))
  unfolding has
  Loose-has q = ap (λ l. has l q) s.all_is ∙ has-append pre (p ∷ post) q

  pub Loose-in : has m.all p ≡ true
  Loose-in = rw (Loose-has p) (ground arith)

  pub Loose-within :
      (m.base ≤ addr_of m p) × (addr_of m p + size_of m p ≤ m.base + heap_size) × (0 < size_of m p)
  Loose-within = Tiles-within m.nodes m.base m.all (m.base + heap_size) s.tiles p Loose-in

  -- A set that differs at the loose node only.
  around :
      (set : Ptr → Bool)
      → ((q : Ptr) → q ≢ p → set q ≡ is_free m q)
      → ((q : Ptr) → last_of pre ≡ some q → (set q && set p) ≡ false)
      → ((q : Ptr) → first_of post ≡ some q → (set p && set q) ≡ false)
      → Merged set m.all
  around set same left right = rw s.all_is (
      append-Merged set pre p post
        (Merged-congr (is_free m) set pre (λ q h. same q (λ e. cc (h, e, Loose-out.0))) s.before)
        left
        (Merged-cons set p post right (
          Merged-congr (is_free m) set post (λ q h. same q (λ e. cc (h, e, Loose-out.1)))
            s.behind)))

  pub insert-IsHeap : Bounded m pre post → IsHeap (heap_free_tables_insert m p)
  unfolding heap_free_tables_insert
  insert-IsHeap b = record {
    tiles =
        Tiles-congr m.nodes (heap_free_tables_insert m p).nodes m.base m.all (m.base + heap_size)
          (λ q h. (ground arith, ground arith)) s.tiles;
    free =
        FreeTables-frame (heap_free_tables_insert m p) (is_free (heap_free_tables_insert m p))
          (FreeTables-insert s.free p (ground arith) Loose-within.2 (omega (arith, Loose-within)))
          refl refl (λ q. ground (arith, Loose-has q)) (λ q h. refl);
    used =
        AllocTables-frame (heap_free_tables_insert m p) (is_used (heap_free_tables_insert m p))
          s.used refl refl (λ q. ground (arith, Loose-has q)) (λ q h. ground arith);
    merged =
        around (is_free (heap_free_tables_insert m p)) (λ q ne. ground arith)
          (λ q e. ground (arith, b.prev_used q e, has-last_of pre e, Loose-out))
          (λ q e. ground (arith, b.next_used q e, has-first_of post e, Loose-out));
  }

  pub alloc_insert-IsHeap : IsHeap (heap_alloc_tables_insert m p)
  unfolding heap_alloc_tables_insert
  alloc_insert-IsHeap = record {
    tiles =
        Tiles-congr m.nodes (heap_alloc_tables_insert m p).nodes m.base m.all (m.base + heap_size)
          (λ q h. (ground arith, ground arith)) s.tiles;
    free =
        FreeTables-frame (heap_alloc_tables_insert m p) (is_free (heap_alloc_tables_insert m p))
          s.free refl refl (λ q. ground (arith, Loose-has q)) (λ q h. ground arith);
    used =
        AllocTables-frame (heap_alloc_tables_insert m p) (is_used (heap_alloc_tables_insert m p))
          (AllocTables-insert s.used p (ground arith)) refl refl (λ q. ground (arith, Loose-has q))
          (λ q h. refl);
    merged =
        around (is_free (heap_alloc_tables_insert m p)) (λ q ne. ground arith) (λ q e. ground arith)
          (λ q e. ground arith);
  }
