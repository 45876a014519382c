-- ===== src/Elist/Data.antt =====
-- The functions of elib/elist.c that put data in nodes of their own and take it out again.
pub mod Add
pub mod Out
use egui.Prelude.{ℕ, zero, suc, Option, none, some, Bool, ◌==◌, ◌||◌, if◌then◌else◌, ◌+◌}
use egui.Heap.{Ptr, null, Node, node, Heap, Cmd, pure, ◌>>=◌, ◌>>◌, load, free, write}
use egui.Elist.{Elist, insert_head, insert_tail, insert_after, insert_before, remove}

-- What `e_slice_alloc` returns: an address, and the links that its memory happens to hold.
pub record Block : Type 0 where
  pub at : Ptr
  pub next : Ptr
  pub prev : Ptr

-- `e_list_alloc_node`: `memcpy` fills the bytes behind the links.
unfoldable pub alloc_node : Block → ℕ → Cmd Ptr
alloc_node b value h =
    some (b.at, write h b.at (some (record { next = b.next; prev = b.prev; value = value })))

-- `e_list_add_data`, and `e_list_add_by_copy`, which has the same body
unfoldable pub add_data : Elist → Block → ℕ → Cmd Elist
add_data lt b value = do new ← alloc_node b value; insert_tail lt new

pub add_data_to_head : Elist → Block → ℕ → Cmd Elist
add_data_to_head lt b value = do new ← alloc_node b value; insert_head lt new

pub insert_data_before : Elist → Ptr → Block → ℕ → Cmd Elist
insert_data_before lt node b value = do new ← alloc_node b value; insert_before lt node new

pub insert_data_after : Elist → Ptr → Block → ℕ → Cmd Elist
insert_data_after lt node b value = do new ← alloc_node b value; insert_after lt node new

-- `e_list_copy_data`: what goes to `buf`
pub copy_data : Ptr → Cmd ℕ
copy_data node = do n ← load node; pure n.value

-- `e_list_free_data`, for the node that holds the data
pub free_data : Elist → Ptr → Cmd Elist
free_data lt node = do lt ← remove lt node; free node; pure lt

-- The body that the next two functions share, for the node at one end or NULL. The value is what
-- goes to `buf` (the caller may pass NULL and not see it).
pub out_data : Elist → Ptr → Cmd (Option ℕ × Elist)
out_data lt node =
    if node == null
    then pure (none, lt)
    else do n ← load node; lt ← remove lt node; free node; pure (some n.value, lt)

pub out_data_from_head : Elist → Cmd (Option ℕ × Elist)
out_data_from_head lt = out_data lt lt.head

pub out_data_from_tail : Elist → Cmd (Option ℕ × Elist)
out_data_from_tail lt = out_data lt lt.tail

-- Data is given by the address of its node, and NULL by NULL.
pub next_data : Elist → Ptr → Cmd Ptr
next_data lt p = if p == null then pure lt.head else do n ← load p; pure n.next

pub prev_data : Elist → Ptr → Cmd Ptr
prev_data lt p = if p == null then pure lt.tail else do n ← load p; pure n.prev
