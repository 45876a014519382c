-- ===== src/Memory/Chains.antt =====
-- elib/memory.c: the list of heaps and system blocks, and the allocator's entry points.
-- The locks are the two mutexes, which a thread that holds one cannot take again: a call that would
-- wait for itself gives `none`. Addresses are those of a 64-bit machine, and a `euint` is taken
-- modulo 2 ^ 32.
pub mod Whole
pub mod Replace
pub mod Cache
pub mod Apart
pub mod Take
pub mod Malloc
pub mod Release
use egui.Prelude.{
  ◌>>=◌, ℕ, zero, suc, ◌+◌, ◌-◌, ◌*◌, ◌/◌, ◌%◌, Bool, true, false, Option, none, some, List, [],
  ◌∷◌, ltb, leb, ◌==◌, if◌then◌else◌, set,
}
use egui.Memory.Links.{Ptr}
use egui.Memory.{
  HeapNode, MemoryHeap, size_of, addr_of, page_size, heap_alloc_max, heap_size,
  heap_free_tables_delete, free_tables_find_node, take_node, memory_heap_new, move_to_free_tables,
  alloc_tables_find_node,
}

abbrev pub cache_num : ℕ
cache_num = 256

-- `sizeof(HeapNode)`
abbrev pub node_bytes : ℕ
node_bytes = 72

abbrev pub euint_mod : ℕ
euint_mod = 4294967296

-- What `__calloc` and `__malloc` return in their calls one after the other.
pub record Allocator : Type 0 where
  pub calloc : ℕ → ℕ
  pub malloc : ℕ → ℕ

-- `struct _MemoryChain`, whose head a `MemoryHeap` begins with
pub data Chain : Type 0 where
  heap : MemoryHeap → Chain
  sys : (addr size : ℕ) → Chain

-- `chain_head` and `cache_head`, with the numbers of calls of the system's functions.
pub record Memory : Type 0 where
  pub chains : List Chain
  pub cache : List Ptr
  pub callocs : ℕ
  pub mallocs : ℕ

abbrev pub no_memory : Memory
no_memory = record { chains = []; cache = []; callocs = 0; mallocs = 0 }

-- The nodes of a new array, linked in order.
unfoldable pub chunk : (n : ℕ) → (from : Ptr) → List Ptr
chunk zero from = []
chunk (suc n) from = from ∷ chunk n (from + node_bytes)

-- `cache_node_add`: the first node of a new array, and the others.
unfoldable pub cache_node_add : (from : ℕ) → Ptr × List Ptr
unfolding chunk
cache_node_add from = (from, chunk (cache_num - 1) (from + node_bytes))

-- The first heap in the list whose `free_max` is large enough, by its place: `CHAIN_FIND_HEAP`.
unfoldable pub find_heap : (size : ℕ) → List Chain → Option (ℕ × MemoryHeap)
find_heap size [] = none
find_heap size (sys addr n ∷ l) = (do (i, m) ← find_heap size l; some (i + 1, m))
find_heap size (heap m ∷ l) =
    if leb size m.free_max then some (0, m) else (do (i, m) ← find_heap size l; some (i + 1, m))

-- The offset of an address in a block, as the `euint` that the code keeps.
unfoldable pub offset_in : (addr base : ℕ) → ℕ
offset_in addr base = (addr + (euint_mod - base % euint_mod)) % euint_mod

abbrev pub base_of : Chain → ℕ
base_of (heap m) = m.base
base_of (sys addr size) = addr

abbrev pub bytes_of : Chain → ℕ
bytes_of (heap m) = heap_size
bytes_of (sys addr size) = size

-- The first block that an address seems to lie in, by its place.
unfoldable pub find_chain : (addr : ℕ) → List Chain → Option (ℕ × Chain)
unfolding offset_in
find_chain addr [] = none
find_chain addr (c ∷ l) =
    if ltb (offset_in addr (base_of c)) (bytes_of c)
    then some (0, c)
    else (do (i, d) ← find_chain addr l; some (i + 1, d))

-- `remove_sys_chain`, of the block at a place.
unfoldable pub remove_sys_chain : ℕ → List Chain → List Chain
remove_sys_chain i [] = []
remove_sys_chain zero (c ∷ l) = l
remove_sys_chain (suc i) (c ∷ l) = c ∷ remove_sys_chain i l

-- `e_heap_free`; `none` where the code aborts, or goes through NULL for want of a node.
unfoldable pub e_heap_free : Memory → (addr : ℕ) → Option Memory
unfolding find_chain offset_in remove_sys_chain
e_heap_free w addr = do
  (i, c) ← find_chain addr w.chains
  elim c [
    | sys _ _ ↦ some (record w { chains = remove_sys_chain i w.chains })
    | heap m ↦ do
      p ← alloc_tables_find_node m (offset_in addr m.base / page_size) addr
      let (m', cache) = move_to_free_tables m w.cache p
      some (record w { chains = set w.chains i (heap m'); cache = cache })
  ]

module _ (system : Allocator) where
  unfoldable pub cache_node_get : Memory → Ptr × Memory
  unfolding cache_node_add
  cache_node_get w = elim w.cache [
    | p ∷ rest ↦ (p, record w { cache = rest })
    | [] ↦
        let (p, rest) = cache_node_add (system.calloc w.callocs) in
        (p, record w { cache = rest; callocs = w.callocs + 1 })
  ]

  -- A new heap at the head of the list: `memory_chain_init`
  unfoldable pub add_heap : Memory → MemoryHeap × Memory
  unfolding cache_node_get
  add_heap w =
      let (p, w) = cache_node_get w in
      let m = memory_heap_new p (system.malloc w.mallocs) in
      (m, record w { chains = heap m ∷ w.chains; mallocs = w.mallocs + 1 })

  unfoldable pub e_sys_malloc : Memory → (size : ℕ) → ℕ × Memory
  e_sys_malloc w size =
      let addr = system.malloc w.mallocs in
      (addr, record w { chains = sys addr (size % euint_mod) ∷ w.chains; mallocs = w.mallocs + 1 })

  -- `slice_free_release` frees the spare blocks of slices with `e_free`, which waits for
  -- `memory_lock`, held by the caller.
  unfoldable pub slice_free_release : (spare : Bool) → Memory → Option Memory
  slice_free_release spare w = if spare then none else some w

  unfoldable pub found_or_new : Option (ℕ × MemoryHeap) → Memory → ℕ × MemoryHeap × Memory
  unfolding add_heap
  found_or_new (some (i, m)) w = (i, m, w)
  found_or_new none w = let (m, v) = add_heap w in (0, m, v)

  -- The heap for a request, by its place.
  unfoldable pub choose_heap :
      (spare : Bool) → Memory → (size : ℕ) → Option (ℕ × MemoryHeap × Memory)
  unfolding find_heap slice_free_release found_or_new
  choose_heap spare w size = elim (find_heap size w.chains) [
    | some (i, m) ↦ some (i, m, w)
    | none ↦ do w ← slice_free_release spare w; some (found_or_new (find_heap size w.chains) w)
  ]

  -- The node is taken from the heap at place `i`; a node from the cache serves where it is split.
  unfoldable pub take_from : Memory → (i : ℕ) → MemoryHeap → Ptr → (size : ℕ) → ℕ × Memory
  unfolding cache_node_get
  take_from w i m p size =
      let (new, v) =
        if ltb size (size_of (heap_free_tables_delete m p) p) then cache_node_get w else (p, w) in
      let (m', q) = take_node m p size new in
      (addr_of m' q, record v { chains = set v.chains i (heap m') })

  -- The address of the node that the search found, or 0 for NULL.
  unfoldable pub take_found : Option Ptr → Memory → (i : ℕ) → MemoryHeap → (size : ℕ) → ℕ × Memory
  unfolding take_from
  take_found none w i m size = (0, w)
  take_found (some p) w i m size = take_from w i m p size

  unfoldable pub heap_get_free_node : (spare : Bool) → Memory → (size : ℕ) → Option (ℕ × Memory)
  unfolding choose_heap take_found
  heap_get_free_node spare w size = do
    (i, m, w) ← choose_heap spare w size
    some (take_found (free_tables_find_node m size) w i m size)

  -- Without a block in the list, a heap is made first.
  unfoldable pub with_heap : List Chain → Memory → Memory
  unfolding add_heap
  with_heap [] w = (add_heap w).1
  with_heap (c ∷ l) w = w

  unfoldable pub e_heap_malloc : (spare : Bool) → Memory → (size : ℕ) → Option (ℕ × Memory)
  unfolding with_heap e_sys_malloc heap_get_free_node
  e_heap_malloc spare w size =
      let v = with_heap w.chains w in
      if ltb heap_alloc_max size
      then some (e_sys_malloc v size)
      else heap_get_free_node spare v size
