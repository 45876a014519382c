-- ===== src/Memory/Give/Count.antt =====
-- The nodes that a merge takes out of the heap go to the cache, and none is lost.
use egui.Prelude.{
  ℕ, ◌+◌, true, Option, none, some, List, [], ◌∷◌, ◌≡◌, arith, refl, Bool-cases, inl, inr, ap, ◌∙◌,
}
use egui.Memory.Links.{Ptr, has, drop_node, last_of}
use egui.Memory.Links.Laws.{first_of, has-first_of, has-last_of, has-split}
use egui.Memory.Free.Delete.{heap_free_tables_delete-frame}
use egui.Memory.Inv.{IsHeap, Loose, Loose-has, is_used}
use egui.Memory.Give.Absorb.{
  absorb_next-Grown, absorb_next-free, absorb_next-used, absorb_next-none, absorb_prev-free,
  absorb_prev-used, absorb_prev-none,
}
use egui.Memory.Give.Freed.{free_node_merge-eq, dropped-Loose, move_to_free_tables-eq}
use egui.Memory.Chains.Whole.{count}
use egui.Memory.{
  MemoryHeap, absorb_next, absorb_prev, heap_free_tables_insert, free_node_merge,
  move_to_free_tables,
}

-- How often a node is in the heap or in the cache.
abbrev both : Ptr → MemoryHeap × List Ptr → ℕ
both r (m, cache) = count r cache + count r m.all

count-drop_node :
    (r n : Ptr) (l : List Ptr) → has l n ≡ true → count r (n ∷ drop_node n l) ≡ count r l
unfolding has drop_node
count-drop_node r n [] h = absurd (cc h)
count-drop_node r n (q ∷ l) h = ground (arith, count-drop_node r n l)

absorb_next-both :
    (m : MemoryHeap) (cache : List Ptr) (p : Ptr) (o : Option Ptr)
    → ((n : Ptr) → o ≡ some n → has m.all n ≡ true)
    → (r : Ptr) → both r (absorb_next m cache p o) ≡ both r (m, cache)
absorb_next-both m cache p none h r = rw (absorb_next-none m p 0 cache) refl
absorb_next-both m cache p (some n) h r = elim (Bool-cases (m.nodes n).is_alloc) [
  | inl e ↦ rw (absorb_next-used m p n cache e) refl
  | inr e ↦ rw (absorb_next-free m p n cache e) (
      ground (
        arith,
        count-drop_node r n m.all (h n refl),
        ap (count r) (heap_free_tables_delete-frame (record m { all = drop_node n m.all }) n).1,
      ))
]

absorb_prev-both :
    (m : MemoryHeap) (cache : List Ptr) (p : Ptr) (o : Option Ptr)
    → ((n : Ptr) → o ≡ some n → has m.all n ≡ true)
    → (r : Ptr) → both r (absorb_prev m cache p o) ≡ both r (m, cache)
absorb_prev-both m cache p none h r = rw (absorb_prev-none m p 0 cache) refl
absorb_prev-both m cache p (some n) h r = elim (Bool-cases (m.nodes n).is_alloc) [
  | inl e ↦ rw (absorb_prev-used m p n cache e) refl
  | inr e ↦ rw (absorb_prev-free m p n cache e) (
      ground (
        arith,
        count-drop_node r n m.all (h n refl),
        ap (count r) (heap_free_tables_delete-frame (record m { all = drop_node n m.all }) n).1,
      ))
]

insert-all : (m : MemoryHeap) (p : Ptr) → (heap_free_tables_insert m p).all ≡ m.all
unfolding heap_free_tables_insert
insert-all m p = refl

free_node_merge-both :
    {m : MemoryHeap} {p : Ptr} {pre post : List Ptr} (cache : List Ptr)
    → Loose m p pre post
    → (r : Ptr) → both r (free_node_merge m cache p) ≡ both r (m, cache)
free_node_merge-both {m} {p} {pre} {post} cache s r =
    let (rest, g, _) = absorb_next-Grown post cache s in
    let next = absorb_next m cache p (first_of post) in
    ap (both r) (free_node_merge-eq cache s)
    ∙ (ap (λ l. count r (absorb_prev next.0 next.1 p (last_of pre)).1 + count r l)
          (insert-all (absorb_prev next.0 next.1 p (last_of pre)).0 p)
        ∙ (absorb_prev-both next.0 next.1 p (last_of pre)
              (λ n e. rw (Loose-has g.loose n, has-last_of pre e) refl) r
            ∙ absorb_next-both m cache p (first_of post)
                (λ n e. rw (Loose-has s n, has-first_of post e) (ground arith)) r))

-- No node is lost or doubled when a block comes back.
pub move_to_free_tables-both :
    {m : MemoryHeap} (cache : List Ptr) (p : Ptr)
    → IsHeap m
    → is_used m p ≡ true
    → (r : Ptr)
    → let (m', cache') = move_to_free_tables m cache p in
      count r cache' + count r m'.all ≡ count r cache + count r m.all
move_to_free_tables-both {m} cache p v h r =
    let (pre, post, all_is) = has-split m.all p (ground arith) in
    ap (both r) (move_to_free_tables-eq m cache p)
    ∙ free_node_merge-both cache (dropped-Loose v p pre post all_is h) r
