-- ===== src/Memory/Give/Freed.antt =====
-- A block comes back: the heap is whole again, and the block lies in a free node.
use egui.Prelude.{
  ◌+◌, true, false, ◌&&◌, not, List, ◌∷◌, ◌++◌, ◌==◌, ◌≡◌, ◌≢◌, arith, refl, ap, ◌∙◌,
}
use egui.Memory.Links.{Ptr, has, drop_node, next_of, prev_of, last_of}
use egui.Memory.Links.Laws.{
  Distinct-append, has-split, next_of-append, prev_of-append, has-first_of, has-last_of, first_of,
}
use egui.Memory.Spans.{Tiles-congr, Tiles-Distinct}
use egui.Memory.Merged.{Merged-congr, Merged-append, Merged-tail}
use egui.Memory.Free.{FreeTables-frame}
use egui.Memory.Used.{AllocTables-frame, AllocTables-delete}
use egui.Memory.Inv.{IsHeap, Loose, is_free, is_used, Loose-out, Loose-in, insert-IsHeap}
use egui.Memory.Take.{Keeps, Keeps-trans}
use egui.Memory.Give.Merge.{Covers}
use egui.Memory.Give.Absorb.{absorb_next-Grown, absorb_prev-Grown}
use egui.Memory.{
  MemoryHeap, heap_size, page_of, heap_free_tables_insert, absorb_next, absorb_prev,
  free_node_merge, move_to_free_tables, update,
}

-- The block of `p` is free, within a node that may be larger; no other block in use is touched.
pub record Freed (m m' : MemoryHeap) (p : Ptr) : Type 0 where
  pub valid : IsHeap m'
  pub freed : is_free m' p ≡ true
  pub covers : Covers m m' p
  pub keeps : Keeps m m' p

insert-Keeps : (m : MemoryHeap) (p : Ptr) → Keeps m (heap_free_tables_insert m p) p
unfolding heap_free_tables_insert
insert-Keeps m p = record {
  based = refl;
  uses = λ q ne. ground arith;
  stays = λ q ne h. ground arith;
}

insert-free : (m : MemoryHeap) (p : Ptr) → is_free (heap_free_tables_insert m p) p ≡ has m.all p
unfolding heap_free_tables_insert
insert-free m p = ground arith

insert-Covers :
    (m m' : MemoryHeap) (p : Ptr) → Covers m m' p → Covers m (heap_free_tables_insert m' p) p
unfolding heap_free_tables_insert
insert-Covers m m' p c = (ground arith, ground arith)

pub free_node_merge-eq :
    {m : MemoryHeap} {p : Ptr} {pre post : List Ptr} (cache : List Ptr)
    → Loose m p pre post
    → let (m', cache') = absorb_next m cache p (first_of post) in
      let (m'', cache'') = absorb_prev m' cache' p (last_of pre) in
      free_node_merge m cache p ≡ (heap_free_tables_insert m'' p, cache'')
unfolding free_node_merge
free_node_merge-eq {m} {p} {pre} {post} cache s =
    let (out, out') = Loose-out s in
    rw
      (
        ap (next_of p) s.all_is ∙ next_of-append p pre post out,
        ap (prev_of p) s.all_is ∙ prev_of-append p pre post out out',
      )
      refl

free_node_merge-Freed :
    {m : MemoryHeap} {p : Ptr} {pre post : List Ptr} (cache : List Ptr)
    → Loose m p pre post
    → Freed m (free_node_merge m cache p).0 p
free_node_merge-Freed {m} {p} {pre} {post} cache s =
    let (rest, g, next_used) = absorb_next-Grown post cache s in
    let (front, h, prev_used) =
      absorb_prev-Grown pre (absorb_next m cache p (first_of post)).1 g.loose in
    let (out, out') = Loose-out h.loose in
    rw (free_node_merge-eq cache s) (record {
      valid = insert-IsHeap h.loose (record {
        prev_used = λ q e. h.flags q (λ same. cc (same, out, has-last_of front e)) ∙ prev_used q e;
        next_used = λ q e.
            let ne : q ≢ p = λ same. cc (same, out', has-first_of rest e) in
            h.flags q ne ∙ (g.flags q ne ∙ next_used q e);
      });
      freed = insert-free _ p ∙ Loose-in h.loose;
      covers =
          insert-Covers m _ p
            (omega (arith, g.covers, h.covers), omega (arith, g.covers, h.covers));
      keeps = Keeps-trans g.keeps (Keeps-trans h.keeps (insert-Keeps _ p));
    })

-- The block's node, out of its table and no longer in use.
abbrev pub dropped : MemoryHeap → Ptr → MemoryHeap
dropped m p = record m {
  alloc_tables = update m.alloc_tables (page_of m p) (drop_node p (m.alloc_tables (page_of m p)));
  nodes = update m.nodes p (record (m.nodes p) { is_alloc = false });
}

pub dropped-Loose :
    {m : MemoryHeap} (v : IsHeap m) (p : Ptr) (pre post : List Ptr)
    → m.all ≡ pre ++ p ∷ post
    → is_used m p ≡ true
    → Loose (dropped m p) p pre post
dropped-Loose {m} v p pre post all_is h =
    let (before, _, behind) = Merged-append (is_free m) pre p post (rw (← all_is) v.merged) in
    let (out, out') =
      Distinct-append pre p post
        (rw (← all_is) (Tiles-Distinct m.nodes m.base m.all (m.base + heap_size) v.tiles)) in
    record {
      all_is = all_is;
      tiles =
          Tiles-congr m.nodes (dropped m p).nodes m.base m.all (m.base + heap_size)
            (λ q k. (ground arith, ground arith)) v.tiles;
      free =
          FreeTables-frame (dropped m p) (λ q. is_free (dropped m p) q && not (q == p)) v.free refl
            refl (λ q. ground arith) (λ q k. ground arith);
      used =
          AllocTables-frame (dropped m p) (λ q. is_used (dropped m p) q && not (q == p))
            (AllocTables-delete v.used p) refl refl (λ q. ground arith) (λ q k. ground arith);
      before =
          Merged-congr (is_free m) (is_free (dropped m p)) pre (λ q k. ground (arith, out)) before;
      behind =
          Merged-congr (is_free m) (is_free (dropped m p)) post (λ q k. ground (arith, out'))
            (Merged-tail (is_free m) p post behind);
    }

dropped-Keeps : (m : MemoryHeap) (p : Ptr) → Keeps m (dropped m p) p
dropped-Keeps m p = record {
  based = refl;
  uses = λ q ne. ground arith;
  stays = λ q ne h. ground arith;
}

dropped-Covers : (m m' : MemoryHeap) (p : Ptr) → Covers (dropped m p) m' p → Covers m m' p
dropped-Covers m m' p c = (ground (arith, c.0), ground (arith, c.1))

pub move_to_free_tables-eq :
    (m : MemoryHeap) (cache : List Ptr) (p : Ptr)
    → move_to_free_tables m cache p ≡ free_node_merge (dropped m p) cache p
unfolding move_to_free_tables
move_to_free_tables-eq m cache p = refl

-- On a valid heap, `move_to_free_tables` of a node in use leaves a valid heap, in which no two
-- free nodes are side by side: the node is free and covers at least the bytes it had, and the
-- other nodes in use stay as they are.
pub move_to_free_tables-Freed :
    {m : MemoryHeap} (cache : List Ptr) (p : Ptr)
    → IsHeap m
    → is_used m p ≡ true
    → Freed m (move_to_free_tables m cache p).0 p
move_to_free_tables-Freed {m} cache p v h =
    let (pre, post, all_is) = has-split m.all p (ground arith) in
    let f = free_node_merge-Freed cache (dropped-Loose v p pre post all_is h) in
    rw (move_to_free_tables-eq m cache p) (record {
      valid = f.valid;
      freed = f.freed;
      covers = dropped-Covers m (free_node_merge (dropped m p) cache p).0 p f.covers;
      keeps = Keeps-trans (dropped-Keeps m p) f.keeps;
    })
