-- ===== src/Lib.antt =====
-- Verification of the containers, heap allocator, timers and text of elib, the base library of egui,
-- and of the rectangles of egal.
--
-- egui is a widget toolkit. elib holds its containers, strings, timers and object system, egal the
-- drawing layer over X11 and Win32, and egui the widgets. This library is about the containers that
-- the rest stands on, the heap allocator, the timers, UTF-8, and the rectangles that drawing and
-- layout share.
--
-- Queue (elib/queue.c, elib/queue.h). The record Queue is `struct _Queue` less its lock and
--   semaphores, and read, write, throw, peek, seek, read_try and write_try are the functions
--   `e_queue_…` of these names. The caller's buffer is a list of bytes: what a function copies into
--   it is returned beside its result. Queue.Inv has the invariant and the list of bytes that a queue
--   holds; the other modules show what each function does to that list. The loop of `e_queue_write`
--   runs on fuel, size + 1 rounds, which is enough as each round copies a byte at least. Numbers are
--   natural: arguments of type `eint` are taken as not negative, and small enough for the sums that
--   the code forms.
--   Queue.Wait has `e_queue_write_wait` and `e_queue_read_wait` as threads that take turns, where a
--   turn goes from one point at which others may run to the next; semaphores are a parameter.
-- Stack (elib/stack.c, elib/stack.h). Callbacks are addresses, and calls of them are a list of
--   events in their order. Stack.Inv has the invariant, Stack.Push and Stack.Moves the operations.
-- Heap. List nodes at addresses, and commands that read, write and free them; a command that goes
--   through NULL or to a freed node fails. Heap.Chain says that nodes are linked to each other in
--   both directions, and Heap.Relink what a change of one link does to such a chain.
-- Elist (elib/elist.c, elib/elist.h). Insertion and removal of nodes, in Elist.Walk the functions
--   with a loop, in Elist.Data those that allocate and free nodes, in Elist.Sorted the insertions
--   that look for a place, and in Elist.Copy the copies. Loops run on fuel, count + 1
--   rounds, which is enough for a list whose count is right. Theorems say that a function ends
--   without a fault (Ends) and which list it leaves.
-- Ring (elib/list.h). The circular list, over the same nodes; Ring.Turn reads a ring from another of
--   its nodes, and Ring.Moves opens it where a node comes in or goes out.
-- Etree (elib/etree.c, elib/etree.h). An inductive tree with the fields `balance`; the pointers that
--   lead from a node without a child to its neighbours are left out. The loop of insertion and
--   removal down the tree is recursion, and the loop back up is what follows the recursive call.
--   A rotation without the child that it lifts is a failure. Etree.Balance is about rotations,
--   Etree.Insert and Etree.Remove about heights, Etree.Order, Etree.Lookup and Etree.Delete about
--   lists of entries in key order, Etree.Inv and Etree.Erase about whole trees.
--   Etree.Depth bounds the way down to a key.
-- Timer (elib/timer.c, elib/timer.h). The list that `e_timer_loop` serves; what the timers' functions
--   do, and the time of day, are arguments. The loop of `dispense_usec` runs on as many rounds as the
--   list has nodes, which is enough, since functions add timers to another list. Timer.Clock is about
--   the time that passes are given, Timer.Serve about one timer, Timer.Deleted and Timer.Ends about
--   whole passes, and Timer.Thread about timers with a thread of their own, whose loop runs on a
--   list of what it reads at the ends of its rounds: the time, and whether the timer was deleted.
-- Utf8 (elib/eutf8.c, elib/unichar.h). Text as lists of bytes. Utf8.Encode is the encoding as
--   RFC 2279 describes it, Utf8.Decode is about `e_utf8_get_char` and Utf8.Count about
--   `e_utf8_strlen`, whose loops run on as many rounds as there are bytes.
-- Memory (elib/memory.c, elib/memory.h). Memory.antt is one `MemoryHeap`: its nodes by handles, which
--   are their own addresses, and its three kinds of list as lists of handles (Memory.Links). What a
--   heap keeps is in Memory.Inv, with Memory.Spans for the addresses, Memory.Free for the tables of
--   free nodes, Memory.Used for those in use and Memory.Merged for neighbours. Memory.Take is about
--   `heap_get_free_node` and Memory.Give about `move_to_free_tables`, each by way of a heap with a
--   node that is in no table (Loose). Memory.Chains is the list of heaps and system blocks with
--   `e_heap_malloc` and `e_heap_free`: what `__malloc` and `__calloc` return is the parameter
--   Allocator, and neither fails. A call that would take a lock it holds is a failure, and so is one
--   that aborts; the argument `spare` tells whether a slice could be released, which is where that
--   happens.
-- Slice (elib/memory.c). One entry of `slice_tables`: its nodes as three lists, the free places of a
--   node as its map and its first index (Slice.Places). What a slice keeps is in Slice.Inv;
--   Slice.Alloc is about `e_slice_alloc` and Slice.Give about `e_slice_free1`, with the search through
--   the nodes in Slice.Search and Slice.Lies. The entry for the size is an argument, and so is the
--   address of a new node, which comes from `e_heap_malloc`.
-- Rect (egal/rect.c, egal/rect.h). Rectangles over integers without a bound; Rect.Points takes them
--   as sets of points.
-- Prelude. Names of the base library, tests on numbers, and lemmas on lists.
--
-- Not modelled: `e_tree_destroy` and `e_tree_foreach`; the macros of elib/list.h but two;
-- `e_heap_realloc`, `slice_tables` itself and its lock; the other parts of elib, egal
-- and egui; the programs msg and test; and the copies of libjpeg and libpng, which are other projects.
pub mod Prelude
pub mod Queue
pub mod Rect
pub mod Ring
pub mod Slice
pub mod Memory
pub mod Stack
pub mod Timer
pub mod Utf8
pub mod Heap
pub mod Elist
pub mod Etree
