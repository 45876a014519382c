-- ===== src/Memory.antt =====
-- elib/memory.c: the heap allocator of elib, a `MemoryHeap` at a time.
-- A `HeapNode` is named by its own address, its handle, and describes a stretch of the heap. The
-- three pairs of links through a node are three lists of handles, of all nodes (`all`) and of those
-- in each table, which a node is in at most once; `free_next` and its like are the handle behind it.
-- The tables are functions of the index. `__malloc` and `__calloc` are parameters.
pub mod Links
pub mod Classes
mod Sorted
mod Free
mod Spans
mod Merged
mod Used
mod Inv
mod Take
mod Give
mod Fresh
pub mod Chains
mod Tests
use egui.Prelude.{
  ℕ, zero, suc, ◌+◌, ◌-◌, ◌*◌, ◌/◌, ◌%◌, ◌^◌, Bool, true, false, not, ◌&&◌, ◌||◌, Option, none,
  some, List, [], ◌∷◌, ltb, leb, ◌==◌, if◌then◌else◌,
}
use Classes.{size_to_free_index, free_tables_size}
use Links.{Ptr, drop_node, next_of, prev_of, last_of, put_before}

abbrev pub page_size : ℕ
page_size = 4096

abbrev pub heap_size : ℕ
heap_size = 1048576

abbrev pub heap_alloc_max : ℕ
heap_alloc_max = 524288

-- `struct _HeapNode` less its links
pub record HeapNode : Type 0 where
  pub addr : ℕ
  pub size : ℕ
  pub is_alloc : Bool

-- `struct _MemoryHeap`, with the nodes that its lists lead to
pub record MemoryHeap : Type 0 where
  pub base : ℕ
  pub free_max : ℕ
  pub nodes : Ptr → HeapNode
  pub all : List Ptr
  pub free_tables : ℕ → List Ptr
  pub alloc_tables : ℕ → List Ptr

abbrev pub size_of : MemoryHeap → Ptr → ℕ
size_of m p = (m.nodes p).size

abbrev pub addr_of : MemoryHeap → Ptr → ℕ
addr_of m p = (m.nodes p).addr

abbrev pub update {ℓ} : {A : Type ℓ} → (ℕ → A) → ℕ → A → ℕ → A
update f i v j = if j == i then v else f j

abbrev pub page_of : MemoryHeap → Ptr → ℕ
page_of m p = (addr_of m p - m.base) / page_size

-- The loop of `heap_alloc_tables_insert`, behind the nodes with lower addresses.
unfoldable pub put_by_addr : (Ptr → HeapNode) → Ptr → List Ptr → List Ptr
put_by_addr nodes p [] = p ∷ []
put_by_addr nodes p (q ∷ l) =
    if ltb (nodes q).addr (nodes p).addr then q ∷ put_by_addr nodes p l else p ∷ q ∷ l

unfoldable pub heap_alloc_tables_insert : MemoryHeap → Ptr → MemoryHeap
unfolding put_by_addr
heap_alloc_tables_insert m p =
    let index = page_of m p in
    record m {
      alloc_tables = update m.alloc_tables index (put_by_addr m.nodes p (m.alloc_tables index));
      nodes = update m.nodes p (record (m.nodes p) { is_alloc = true });
    }

unfoldable pub find_addr : (Ptr → HeapNode) → (addr : ℕ) → List Ptr → Option Ptr
find_addr nodes addr [] = none
find_addr nodes addr (p ∷ l) = if (nodes p).addr == addr then some p else find_addr nodes addr l

unfoldable pub alloc_tables_find_node : MemoryHeap → (index addr : ℕ) → Option Ptr
unfolding find_addr
alloc_tables_find_node m index addr = find_addr m.nodes addr (m.alloc_tables index)

-- The loop of `heap_free_tables_insert`, behind the smaller nodes.
unfoldable pub put_by_size : (Ptr → HeapNode) → Ptr → List Ptr → List Ptr
put_by_size nodes p [] = p ∷ []
put_by_size nodes p (q ∷ l) =
    if ltb (nodes q).size (nodes p).size then q ∷ put_by_size nodes p l else p ∷ q ∷ l

unfoldable pub heap_free_tables_insert : MemoryHeap → Ptr → MemoryHeap
unfolding put_by_size
heap_free_tables_insert m p =
    let index = size_to_free_index (size_of m p) in
    record m {
      free_tables = update m.free_tables index (put_by_size m.nodes p (m.free_tables index));
      nodes = update m.nodes p (record (m.nodes p) { is_alloc = false });
      free_max = if ltb m.free_max (size_of m p) then size_of m p else m.free_max;
    }

-- The loop of `set_free_max`, down from the table before `i`.
unfoldable pub top_size : (Ptr → HeapNode) → (ℕ → List Ptr) → (i : ℕ) → ℕ
top_size nodes tables zero = 0
top_size nodes tables (suc i) = elim (last_of (tables i)) [
  | some p ↦ (nodes p).size
  | none ↦ top_size nodes tables i
]

-- `set_free_max`, for a node whose links led to `next` and `prev` in its table.
unfoldable pub set_free_max : MemoryHeap → Ptr → (next prev : Option Ptr) → MemoryHeap
unfolding top_size
set_free_max m p (some n) prev = m
set_free_max m p none (some q) =
    if size_of m p == m.free_max then record m { free_max = size_of m q } else m
set_free_max m p none none =
    if size_of m p == m.free_max
    then record m { free_max = top_size m.nodes m.free_tables free_tables_size }
    else m

unfoldable pub heap_free_tables_delete : MemoryHeap → Ptr → MemoryHeap
unfolding set_free_max
heap_free_tables_delete m p =
    let index = size_to_free_index (size_of m p) in
    let table = m.free_tables index in
    set_free_max (record m { free_tables = update m.free_tables index (drop_node p table) }) p
      (next_of p table) (prev_of p table)

-- The inner loop of `free_tables_find_node`
unfoldable pub first_fit : (Ptr → HeapNode) → (size : ℕ) → List Ptr → Option Ptr
first_fit nodes size [] = none
first_fit nodes size (p ∷ l) = if ltb (nodes p).size size then first_fit nodes size l else some p

-- Its outer loop, with the tables that are left.
unfoldable pub find_from : MemoryHeap → (size rounds index : ℕ) → Option Ptr
unfolding first_fit
find_from m size zero index = none
find_from m size (suc n) index = elim (first_fit m.nodes size (m.free_tables index)) [
  | some p ↦ some p
  | none ↦ find_from m size n (index + 1)
]

unfoldable pub free_tables_find_node : MemoryHeap → (size : ℕ) → Option Ptr
unfolding find_from
free_tables_find_node m size =
    let index = size_to_free_index size in find_from m size (free_tables_size - index) index

-- The two halves of `free_node_merge`, for the node before or behind; what they take out of the heap
-- goes to the head of the cache.
unfoldable pub absorb_next :
    MemoryHeap → (cache : List Ptr) → Ptr → Option Ptr → MemoryHeap × List Ptr
unfolding heap_free_tables_delete
absorb_next m cache p none = (m, cache)
absorb_next m cache p (some n) =
    if (m.nodes n).is_alloc
    then (m, cache)
    else (let m = heap_free_tables_delete (record m { all = drop_node n m.all }) n in
        (
          record m {
            nodes = update m.nodes p (record (m.nodes p) { size = size_of m p + size_of m n });
          },
          n ∷ cache,
        ))

unfoldable pub absorb_prev :
    MemoryHeap → (cache : List Ptr) → Ptr → Option Ptr → MemoryHeap × List Ptr
unfolding heap_free_tables_delete
absorb_prev m cache p none = (m, cache)
absorb_prev m cache p (some q) =
    if (m.nodes q).is_alloc
    then (m, cache)
    else (let m = heap_free_tables_delete (record m { all = drop_node q m.all }) q in
        (
          record m {
            nodes =
                update m.nodes p
                  (record (m.nodes p) { addr = addr_of m q; size = size_of m p + size_of m q });
          },
          q ∷ cache,
        ))

unfoldable pub free_node_merge : MemoryHeap → (cache : List Ptr) → Ptr → MemoryHeap × List Ptr
unfolding absorb_next absorb_prev heap_free_tables_insert
free_node_merge m cache p =
    let (m', cache') = absorb_next m cache p (next_of p m.all) in
    let (m'', cache'') = absorb_prev m' cache' p (prev_of p m.all) in
    (heap_free_tables_insert m'' p, cache'')

unfoldable pub move_to_free_tables : MemoryHeap → (cache : List Ptr) → Ptr → MemoryHeap × List Ptr
unfolding free_node_merge
move_to_free_tables m cache p =
    let index = page_of m p in
    free_node_merge
      (record m {
        alloc_tables = update m.alloc_tables index (drop_node p (m.alloc_tables index));
        nodes = update m.nodes p (record (m.nodes p) { is_alloc = false });
      })
      cache p

-- `memory_heap_new`, with the node from the cache and the address that `__malloc` returned.
unfoldable pub memory_heap_new : Ptr → (base : ℕ) → MemoryHeap
unfolding heap_free_tables_insert
memory_heap_new p base =
    heap_free_tables_insert
      (record {
        base = base;
        free_max = heap_size;
        nodes = λ _. record { addr = base; size = heap_size; is_alloc = false };
        all = p ∷ [];
        free_tables = λ _. [];
        alloc_tables = λ _. [];
      })
      p

-- The part of `heap_get_free_node` that splits the node: `new` takes the first `size` bytes.
unfoldable pub split : MemoryHeap → Ptr → (size : ℕ) → (new : Ptr) → MemoryHeap
unfolding heap_free_tables_insert
split m p size new =
    heap_free_tables_insert
      (record m {
        nodes =
            update (update m.nodes new (record (m.nodes new) { addr = addr_of m p; size = size })) p
              (record (m.nodes p) { addr = addr_of m p + size; size = size_of m p - size });
        all = put_before p new m.all;
      })
      p

-- The part of `heap_get_free_node` on a heap and its free node: the node that is given out.
unfoldable pub take_node : MemoryHeap → Ptr → (size : ℕ) → (new : Ptr) → MemoryHeap × Ptr
unfolding heap_free_tables_delete split heap_alloc_tables_insert
take_node m p size new =
    let m = heap_free_tables_delete m p in
    if ltb size (size_of m p)
    then (heap_alloc_tables_insert (split m p size new) new, new)
    else (heap_alloc_tables_insert m p, p)
