-- ===== src/Elist/Sorted.antt =====
-- The insertions of elib/elist.c that look for a place: `e_list_add_data_by_sort` and
-- `e_list_add_by_sort_copy_size`. Their loops run on fuel, `count + 1` rounds.
pub mod Find
pub mod Place
pub mod Callback
use egui.Prelude.{
  ℕ, zero, suc, ◌+◌, Option, none, some, Bool, true, false, not, ltb, ◌==◌, ◌||◌, if◌then◌else◌,
}
use egui.Prelude.Int.{ℤ, pos, negsuc}
use egui.Heap.{Ptr, null, Node, Cmd, pure, ◌>>=◌, ◌>>◌, load, free}
use egui.Elist.{Elist, new_list, insert_head, insert_tail, insert_after, insert_before}
use egui.Elist.Data.{Block, alloc_node}

-- The fields of `elist_t` that only sorted insertion reads. `sort` is given the values of `node` and
-- of `new`; `has_sort` is false where it is NULL, and `forward` is true where `dir` is 0.
pub record Sorting : Type 0 where
  pub has_sort : Bool
  pub sort : (old new : ℕ) → ℤ
  pub mode : ℤ
  pub forward : Bool

-- `while (node)`: the first node from `node` on for which the test is not negative, and what it gave
pub find : (ℕ → ℤ) → (Node → Ptr) → ℕ → Ptr → Cmd (Option (Ptr × ℕ))
find test step zero node = λ _. none
find test step (suc k) node = if node == null then pure none else do
  n ← load node
  elim (test n.value) [ pos ret ↦ pure (some (node, ret)) | negsuc _ ↦ find test step k (step n) ]

-- `ret` by what the sort function gave
abbrev pub by_result : ℕ → ℕ
by_result ret = if ret == 0 then 2 else if ret == 1 then 3 else if ltb 3 ret then 3 else ret

-- `ret` by the mode of the list
abbrev pub by_mode : ℕ → ℕ
by_mode mode = if ltb 1 mode then 1 else mode

-- The four insertions at the end; `node` may be NULL where it is not used.
pub insert_as : ℕ → Elist → (node new : Ptr) → Cmd Elist
insert_as ret lt node new =
    if ret == 2
    then insert_before lt node new
    else if ret == 3
    then insert_after lt node new
    else if ret == 1
    then insert_head lt new
    else insert_tail lt new

-- What follows the loops
pub settle : ℤ → Elist → Ptr → Option (Ptr × ℕ) → Cmd Elist
settle mode lt new (some (node, ret)) = insert_as (by_result ret) lt node new
settle (negsuc _) lt new none = do free new; pure lt
settle (pos mode) lt new none = insert_as (by_mode mode) lt null new

pub add_data_by_sort : Sorting → Elist → Block → ℕ → Cmd Elist
add_data_by_sort s lt b value = do
  new ← alloc_node b value
  if not s.has_sort || (lt.count == 0) then insert_tail lt new else do
    found ←
        if s.forward
        then find (λ v. s.sort v value) (λ n. n.next) (lt.count + 1) lt.head
        else find (λ v. s.sort v value) (λ n. n.prev) (lt.count + 1) lt.tail
    settle s.mode lt new found

-- Where `cb` gave no more than a Boolean; the node that was found, or NULL
abbrev pub verdict : Bool → ℤ
verdict true = pos 0
verdict false = negsuc 0

abbrev pub found_node : Option (Ptr × ℕ) → Ptr
found_node none = null
found_node (some (node, _)) = node

pub add_by_sort_copy : (cb : (old new : ℕ) → Bool) → Elist → Block → ℕ → Cmd Elist
add_by_sort_copy cb lt b value = do
  new ← alloc_node b value
  found ← find (λ v. verdict (cb v value)) (λ n. n.next) (lt.count + 1) lt.head
  insert_before lt (found_node found) new

-- `e_list_new_by_sort`
pub new_by_sort : ℕ → Sorting → Elist × Sorting
new_by_sort size s = (new_list size, s)

-- `e_list_set_func`, for a function that is given or NULL
pub set_func : Sorting → Option ((old new : ℕ) → ℤ) → Sorting
set_func s none = record s { has_sort = false }
set_func s (some f) = record s { has_sort = true; sort = f }
