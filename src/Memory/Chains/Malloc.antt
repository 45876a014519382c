-- ===== src/Memory/Chains/Malloc.antt =====
-- `e_heap_malloc`: a heap is found or made, and a block taken from it.
use egui.Prelude.{
  ℕ, ◌≤◌, ◌<◌, false, Option, none, some, List, [], ◌∷◌, ◌≡◌, inl, inr, arith, refl, get_elem?, ap,
  ◌∙◌, sym, Option-cases, List-cases, le→ltb,
}
use egui.Memory.Links.{Ptr, has}
use egui.Memory.Inv.{IsHeap, is_used}
use egui.Memory.Fresh.{memory_heap_new-IsHeap, free_tables_find_node-some}
use egui.Memory.Chains.{
  Chain, heap, Memory, Allocator, cache_node_get, take_from, add_heap, choose_heap, find_heap,
  slice_free_release, heap_get_free_node, e_heap_malloc, found_or_new, take_found, with_heap,
}
use egui.Memory.Chains.Whole.{count, total, Beside, InUse, IsMemory}
use egui.Memory.Chains.Replace.{Every-at, find_heap-some}
use egui.Memory.Chains.Cache.{
  NewNodes, IsReady, cache_node_get-Spare, cache_node_get-chains, cache_node_get-mallocs,
  cache_node_get-next,
}
use egui.Memory.Chains.Take.{Allocated, take_from-Allocated}
use egui.Memory.{MemoryHeap, heap_size, heap_alloc_max, memory_heap_new, free_tables_find_node}

module _ (p : Ptr) (base : ℕ) where
  new-base : (memory_heap_new p base).base ≡ base
  unfolding memory_heap_new
  new-base = refl

  new-all : (memory_heap_new p base).all ≡ p ∷ []
  unfolding memory_heap_new
  new-all = refl

  new-free_max : (memory_heap_new p base).free_max ≡ heap_size
  unfolding memory_heap_new
  new-free_max = refl

  new-used : (q : Ptr) → is_used (memory_heap_new p base) q ≡ false
  unfolding memory_heap_new has
  new-used q = ground arith

-- What `__malloc` and `__calloc` return next lies apart from all that the memory holds.
pub record IsNext (system : Allocator) (w : Memory) : Type 0 where
  pub nodes : NewNodes system w
  pub room : Beside (system.malloc w.mallocs) heap_size w.chains

-- A heap of the list that can meet the request, in a memory with the same blocks in use.
record Chosen (system : Allocator) (w : Memory) (size : ℕ) (r : ℕ × MemoryHeap × Memory)
    : Type 0 where
  at : get_elem? (r.2).chains r.0 ≡ some (heap r.1)
  fits : size ≤ (r.1).free_max
  valid : IsMemory r.2
  ready : IsReady system r.2
  uses : (a n : ℕ) → InUse a n w.chains → InUse a n (r.2).chains
  used : (a n : ℕ) → InUse a n (r.2).chains → InUse a n w.chains

choose_heap-old :
    (system : Allocator) (w : Memory) (size : ℕ) (r : ℕ × MemoryHeap)
    → find_heap size w.chains ≡ some r
    → choose_heap system false w size ≡ some (r.0, r.1, w)
unfolding choose_heap
choose_heap-old system w size r e = rw (e, choose_heap) refl

heap_get_free_node-eq :
    (system : Allocator) (w : Memory) (size : ℕ) (r : ℕ × MemoryHeap × Memory) (p : Ptr)
    → choose_heap system false w size ≡ some r
    → free_tables_find_node r.1 size ≡ some p
    → heap_get_free_node system false w size ≡ some (take_from system r.2 r.0 r.1 p size)
unfolding heap_get_free_node take_found
heap_get_free_node-eq system w size r p e f =
    rw e (ap (λ o. some (take_found system o r.2 r.0 r.1 size)) f ∙ found_node)
  where
    found_node :
        ◌≡◌ {A = Option (ℕ × Memory)}
          (some (take_found system (some p) r.2 r.0 r.1 size))
          (some (take_from system r.2 r.0 r.1 p size))
    found_node = refl

-- From the heap that is chosen the block is taken.
Chosen-Allocated :
    (system : Allocator) (w : Memory) (size : ℕ) (r : ℕ × MemoryHeap × Memory) (v : Memory)
    → choose_heap system false v size ≡ some r
    → Chosen system w size r
    → 0 < size
    → (addr : ℕ) × (w' : Memory) × (heap_get_free_node system false v size ≡ some (addr, w'))
      × Allocated w size addr w'
Chosen-Allocated system w size r v e c pos =
    let h = Every-at r.1 r.1 refl IsHeap (r.2).chains r.0 c.at c.valid.whole in
    let (p, f, p_free, p_fits, _) = free_tables_find_node-some size h pos c.fits in
    let t = take_from-Allocated system r.2 r.0 r.1 c.at c.valid c.ready p p_free size pos p_fits in
    let taken = take_from system r.2 r.0 r.1 p size in
    (
      taken.0,
      taken.1,
      heap_get_free_node-eq system v size r p e f,
      record {
        valid = t.valid;
        given = t.given;
        kept = λ a n u. t.kept a n (c.uses a n u);
        only = λ a n u. elim (t.only a n u) [ inl x ↦ inl (c.used a n x) | inr x ↦ inr x ];
        apart = λ a n u. t.apart a n (c.uses a n u);
      },
    )

module _ (system : Allocator) (w : Memory) (v : IsMemory w) (new : IsNext system w) (size : ℕ)
    (fits : size ≤ heap_size) where
  abbrev got : Ptr × Memory
  got = cache_node_get system w

  abbrev fresh : MemoryHeap
  fresh = memory_heap_new got.0 (system.malloc w.mallocs)

  add_heap-chains : (add_heap system w).1.chains ≡ heap fresh ∷ w.chains
  unfolding add_heap
  add_heap-chains = rw (cache_node_get-chains system w, cache_node_get-mallocs system w) refl

  add_heap-cache : (add_heap system w).1.cache ≡ got.1.cache
  unfolding add_heap
  add_heap-cache = refl

  fresh-all : fresh.all ≡ got.0 ∷ []
  fresh-all = new-all got.0 (system.malloc w.mallocs)

  add_heap-callocs : (add_heap system w).1.callocs ≡ got.1.callocs
  unfolding add_heap
  add_heap-callocs = refl

  add_heap-IsReady : IsReady system (add_heap system w).1
  add_heap-IsReady empty q h =
      let (gone, other) =
        cache_node_get-next system w v.once (λ e. new.nodes) new.nodes (sym add_heap-cache ∙ empty)
          q (rw add_heap-callocs at h) in
      ground (
        arith,
        gone,
        other,
        ap (count q) add_heap-cache,
        ap (total q) (cache_node_get-chains system w),
        ap (total q) add_heap-chains,
        ap (count q) fresh-all,
      )

  add_heap-used : (a n : ℕ) → InUse a n (heap fresh ∷ w.chains) → InUse a n w.chains
  add_heap-used a n (inr u) = u
  add_heap-used a n (inl (p, u, _, _)) = absurd (cc (u, new-used got.0 (system.malloc w.mallocs) p))

  add_heap-Chosen : Chosen system w size (0, fresh, (add_heap system w).1)
  add_heap-Chosen =
      let sp = cache_node_get-Spare system w v.once (λ e. new.nodes) in
      record {
        at = rw add_heap-chains refl;
        fits = rw (new-free_max got.0 (system.malloc w.mallocs)) fits;
        valid = record {
          whole =
              rw add_heap-chains (memory_heap_new-IsHeap got.0 (system.malloc w.mallocs), v.whole);
          once = λ q. ground (
            arith,
            sp.once q,
            sp.spare,
            ap (count q) add_heap-cache,
            ap (total q) (cache_node_get-chains system w),
            ap (total q) add_heap-chains,
            ap (count q) fresh-all,
          );
          separate =
              rw (add_heap-chains, new-base got.0 (system.malloc w.mallocs)) (new.room, v.separate);
        };
        ready = add_heap-IsReady;
        uses = λ a n u. rw add_heap-chains (inr u);
        used = λ a n u. add_heap-used a n (rw add_heap-chains at u);
      }

  new_heap :
      ◌≡◌ {A = Option (ℕ × MemoryHeap × Memory)}
        (some (found_or_new system none w))
        (some (0, fresh, (add_heap system w).1))
  unfolding found_or_new add_heap
  new_heap = rw (cache_node_get-mallocs system w) refl

  choose_heap-new :
      find_heap size w.chains ≡ none
      → choose_heap system false w size ≡ some (0, fresh, (add_heap system w).1)
  unfolding choose_heap slice_free_release
  choose_heap-new e = rw (e, choose_heap) (ap (λ r. some (found_or_new system r w)) e ∙ new_heap)

  choose_heap-Chosen :
      (r : ℕ × MemoryHeap × Memory) × (choose_heap system false w size ≡ some r)
      × Chosen system w size r
  choose_heap-Chosen = elim (Option-cases (find_heap size w.chains)) [
    | inl e ↦ ((0, fresh, (add_heap system w).1), choose_heap-new e, add_heap-Chosen)
    | inr (r, e) ↦
        let (at, large) = find_heap-some size w.chains e in
        (
          (r.0, r.1, w),
          choose_heap-old system w size r e,
          record {
            at = at;
            fits = large;
            valid = v;
            ready = λ f. new.nodes;
            uses = λ a n u. u;
            used = λ a n u. u;
          },
        )
  ]

  -- The first heap that is made is the one that is chosen.
  add_heap-found : find_heap size (add_heap system w).1.chains ≡ some (0, fresh)
  unfolding find_heap
  add_heap-found = rw (add_heap-chains, new-free_max got.0 (system.malloc w.mallocs)) (ground arith)

  e_heap_malloc-small :
      size ≤ heap_alloc_max
      → e_heap_malloc system false w size
        ≡ heap_get_free_node system false (with_heap system w.chains w) size
  unfolding e_heap_malloc
  e_heap_malloc-small small = rw (le→ltb heap_alloc_max size small) refl

  with_heap-new : with_heap system [] w ≡ (add_heap system w).1
  unfolding with_heap
  with_heap-new = refl

  with_heap-old : (c : Chain) (l : List Chain) → with_heap system (c ∷ l) w ≡ w
  unfolding with_heap
  with_heap-old c l = refl

  e_heap_malloc-new :
      w.chains ≡ []
      → size ≤ heap_alloc_max
      → e_heap_malloc system false w size
        ≡ heap_get_free_node system false (add_heap system w).1 size
  e_heap_malloc-new e small =
      e_heap_malloc-small small
      ∙ ap (λ v. heap_get_free_node system false v size)
          (ap (λ k. with_heap system k w) e ∙ with_heap-new)

  e_heap_malloc-old :
      (c : Chain) (l : List Chain)
      → w.chains ≡ c ∷ l
      → size ≤ heap_alloc_max
      → e_heap_malloc system false w size ≡ heap_get_free_node system false w size
  e_heap_malloc-old c l e small =
      e_heap_malloc-small small
      ∙ ap (λ v. heap_get_free_node system false v size)
          (ap (λ k. with_heap system k w) e ∙ with_heap-old c l)

  -- In a memory that is whole, for a request of 1 to 524288 bytes, where what `__malloc` and
  -- `__calloc` return next lies apart from what the memory holds and no slice is spare,
  -- `e_heap_malloc` ends with the address of a block of the size asked for, which shares no byte
  -- with any block in use. All blocks in use before stay, only the new one comes to them, and the
  -- memory is whole again: nodes cover each heap, the tables hold the free ones by size and those
  -- in use by page, `free_max` is right, and no two free nodes are side by side.
  pub e_heap_malloc-Allocated :
      size ≤ heap_alloc_max
      → 0 < size
      → (addr : ℕ) × (w' : Memory) × (e_heap_malloc system false w size ≡ some (addr, w'))
        × Allocated w size addr w'
  e_heap_malloc-Allocated small pos = elim (List-cases w.chains) [
    | inl e ↦ rw (e_heap_malloc-new e small) (
        Chosen-Allocated system w size (0, fresh, (add_heap system w).1) (add_heap system w).1
          (choose_heap-old system (add_heap system w).1 size (0, fresh) add_heap-found)
          add_heap-Chosen pos)
    | inr (c, l, e) ↦
        let (r, f, chosen) = choose_heap-Chosen in
        rw (e_heap_malloc-old c l e small) (Chosen-Allocated system w size r w f chosen pos)
  ]
