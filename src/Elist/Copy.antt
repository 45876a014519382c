-- ===== src/Elist/Copy.antt =====
-- `e_list_copy` and `e_list_reverse_copy` of elib/elist.c. The blocks that the calls of
-- `e_slice_alloc` return are an argument, by the number of the call. Loops run on fuel, `count + 1`
-- rounds.
pub mod Whole
use egui.Prelude.{ℕ, zero, suc, ◌+◌, Option, none, some, ◌==◌, if◌then◌else◌}
use egui.Heap.{Ptr, null, Node, Cmd, pure, ◌>>=◌, load}
use egui.Elist.{Elist}
use egui.Elist.Data.{Block, add_data}
use egui.Elist.Walk.{empty}

-- `while (node)`, from the `i`-th block on
pub copy_loop : (Node → Ptr) → (ℕ → Block) → ℕ → ℕ → Ptr → Elist → Cmd Elist
copy_loop step alloc zero i node dst = λ _. none
copy_loop step alloc (suc k) i node dst = if node == null then pure dst else do
  n ← load node
  dst ← add_data dst (alloc i) n.value
  copy_loop step alloc k (suc i) (step n) dst

-- What the functions do before their loops
pub reset : (src dst : Elist) → Cmd Elist
reset src dst = do dst ← empty dst; pure (record dst { size = src.size; count = src.count })

pub copy : (src dst : Elist) → (ℕ → Block) → Cmd Elist
copy src dst alloc = do
  dst ← reset src dst
  copy_loop (λ n. n.next) alloc (src.count + 1) 0 src.head dst

pub reverse_copy : (src dst : Elist) → (ℕ → Block) → Cmd Elist
reverse_copy src dst alloc = do
  dst ← reset src dst
  copy_loop (λ n. n.prev) alloc (src.count + 1) 0 src.tail dst
