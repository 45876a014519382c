-- ===== src/Memory/Tests.antt =====
-- Runs of the allocator, and its theorems at a heap of one mebibyte with a block of 100 bytes.
use egui.Memory.Classes.{size_to_free_index}
use egui.Prelude.{
  ℕ, ◌+◌, ◌*◌, ◌≤◌, true, false, Option, some, List, [], ◌∷◌, ◌≡◌, refl, arith, ap, ◌>>=◌,
}
use egui.Memory.Links.{Ptr, has, next_of, prev_of, last_of, drop_node, put_before}
use egui.Memory.Inv.{is_free}
use egui.Memory.Take.Given.{Taken, take_node-Taken}
use egui.Memory.Fresh.{memory_heap_new-IsHeap, free_tables_find_node-some}
use egui.Memory.Give.Freed.{Freed, move_to_free_tables-Freed}
use egui.Memory.Chains.{Allocator, heap, Memory, no_memory, e_heap_malloc, e_heap_free}
use egui.Memory.Chains.Whole.{IsMemory, count}
use egui.Memory.Chains.Take.{Allocated}
use egui.Memory.Chains.Malloc.{IsNext, e_heap_malloc-Allocated}
use egui.Memory.Chains.Release.{Released, e_heap_free-Released}
use egui.Memory.{
  MemoryHeap, size_of, addr_of, memory_heap_new, take_node, move_to_free_tables,
  free_tables_find_node, heap_free_tables_delete, alloc_tables_find_node,
}

abbrev allocator : Allocator
allocator = record { calloc = λ n. 1000 + n * 100000; malloc = λ n. 16777216 + n * 2097152 }

-- Three blocks, of which the middle one is freed and its place given out again.
abbrev addresses : Option (List ℕ)
addresses = do
  (a, w) ← e_heap_malloc allocator false no_memory 100
  (b, w) ← e_heap_malloc allocator false w 60
  (c, w) ← e_heap_malloc allocator false w 200
  w ← e_heap_free w b
  (d, w) ← e_heap_malloc allocator false w 40
  (e, w) ← e_heap_malloc allocator false w 300
  some (a ∷ b ∷ c ∷ d ∷ e ∷ [])

addresses_run : addresses ≡ some (16777216 ∷ 16777316 ∷ 16777376 ∷ 16777316 ∷ 16777576 ∷ [])
unfolding e_heap_malloc e_heap_free memory_heap_new free_tables_find_node size_to_free_index
    heap_free_tables_delete next_of prev_of take_node last_of drop_node alloc_tables_find_node
    move_to_free_tables put_before
addresses_run = refl

abbrev one_heap : MemoryHeap
one_heap = memory_heap_new 1 16777216

abbrev one_block : MemoryHeap × Ptr
one_block = take_node one_heap 1 100 2

one_block-Taken : Taken one_heap 100 one_block.0 one_block.1
unfolding memory_heap_new has
one_block-Taken =
    take_node-Taken (memory_heap_new-IsHeap 1 16777216) 1 refl 100 2 (omega arith) (omega arith)
      refl

abbrev memory : Memory
memory = record { chains = heap one_block.0 ∷ []; cache = []; callocs = 0; mallocs = 1 }

one_block-all : one_block.0.all ≡ 2 ∷ 1 ∷ []
unfolding memory_heap_new take_node heap_free_tables_delete next_of prev_of put_before
    size_to_free_index drop_node last_of
one_block-all = refl

one_block-IsMemory : IsMemory memory
one_block-IsMemory = record {
  whole = (one_block-Taken.valid, tt);
  once = λ p. ground (arith, ap (count p) one_block-all);
  separate = (tt, tt);
}

one_block-base : one_block.0.base ≡ 16777216
unfolding memory_heap_new
one_block-base = one_block-Taken.keeps.based

one_block-node : one_block.1 ≡ 2
unfolding memory_heap_new take_node heap_free_tables_delete next_of prev_of size_to_free_index
one_block-node = refl

no_memory-IsMemory : IsMemory no_memory
no_memory-IsMemory = record { whole = tt; once = λ p. omega arith; separate = tt }

no_memory-IsNext : IsNext allocator no_memory
no_memory-IsNext = record { nodes = λ p h. refl; room = tt }

e_heap_malloc-Allocated_example :
    (addr : ℕ) × (w' : Memory) × (e_heap_malloc allocator false no_memory 100 ≡ some (addr, w'))
    × Allocated no_memory 100 addr w'
e_heap_malloc-Allocated_example =
    e_heap_malloc-Allocated allocator no_memory no_memory-IsMemory no_memory-IsNext 100
      (omega arith) (omega arith) (omega arith)

e_heap_free-Released_example :
    (w' : Memory) × (e_heap_free memory (addr_of one_block.0 one_block.1) ≡ some w')
    × Released memory (addr_of one_block.0 one_block.1) (size_of one_block.0 one_block.1) w'
e_heap_free-Released_example =
    e_heap_free-Released memory one_block-IsMemory 0 one_block.0 refl one_block.1
      one_block-Taken.given 16777216
      (rw one_block-base (omega arith), rw one_block-base (omega arith), tt)

move_to_free_tables-Freed_example :
    Freed one_block.0 (move_to_free_tables one_block.0 [] one_block.1).0 one_block.1
move_to_free_tables-Freed_example =
    move_to_free_tables-Freed [] one_block.1 one_block-Taken.valid one_block-Taken.given

free_tables_find_node-some_example :
    (p : Ptr) × (free_tables_find_node one_heap 100 ≡ some p)
    × (is_free one_heap p ≡ true)
    × (100 ≤ size_of one_heap p)
    × ((q : Ptr)
        → is_free one_heap q ≡ true
        → 100 ≤ size_of one_heap q
        → size_of one_heap p ≤ size_of one_heap q)
unfolding memory_heap_new
free_tables_find_node-some_example =
    free_tables_find_node-some 100 (memory_heap_new-IsHeap 1 16777216) (omega arith) (omega arith)
