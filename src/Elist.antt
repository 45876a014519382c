-- ===== src/Elist.antt =====
-- elib/elist.c: the doubly linked list of elib, over nodes in memory.
-- A function that updates `*lt` returns the new list. `new` and `node` are addresses.
pub mod Steps
pub mod Insert
pub mod Remove
pub mod Walk
pub mod Data
pub mod Sorted
pub mod Copy
mod Tests
use egui.Prelude.{ℕ, ◌+◌, ◌-◌, Bool, true, false, ◌&&◌, ◌==◌, if◌then◌else◌}
use egui.Heap.{Ptr, null, Cmd, pure, ◌>>=◌, ◌>>◌, load, set_next, set_prev, free}

-- `elist_t` less the fields that only the sorted insertion reads (`sort`, `data`, `mode`, `dir`), and
-- `free`, which no function reads.
pub record Elist : Type 0 where
  pub size : ℕ
  pub count : ℕ
  pub head : Ptr
  pub tail : Ptr

-- `e_list_init` and `e_list_new`
pub new_list : ℕ → Elist
new_list size = record { size = size; count = 0; head = null; tail = null }

-- The branch for an empty list, the same in the four insertions.
pub insert_only : Elist → Ptr → Cmd Elist
insert_only lt new = do
  set_next new null
  set_prev new null
  pure (record lt { head = new; tail = new; count = 1 })

pub insert_head : Elist → Ptr → Cmd Elist
insert_head lt new = if lt.head == null then insert_only lt new else do
  set_next new lt.head
  set_prev lt.head new
  set_prev new null
  pure (record lt { head = new; count = lt.count + 1 })

pub insert_tail : Elist → Ptr → Cmd Elist
insert_tail lt new = if lt.tail == null then insert_only lt new else do
  set_prev new lt.tail
  set_next lt.tail new
  set_next new null
  pure (record lt { tail = new; count = lt.count + 1 })

-- `if (node->next) … else …`
pub link_after : Elist → (new next : Ptr) → Cmd Elist
link_after lt new next =
    if next == null
    then (do set_next new null; pure (record lt { tail = new }))
    else (do set_next new next; set_prev next new; pure lt)

pub insert_after : Elist → (node new : Ptr) → Cmd Elist
insert_after lt node new =
    if lt.head == null then insert_only lt new else if node == null then insert_head lt new else do
      set_prev new node
      n ← load node
      lt ← link_after lt new n.next
      set_next node new
      pure (record lt { count = lt.count + 1 })

pub link_before : Elist → (new prev : Ptr) → Cmd Elist
link_before lt new prev =
    if prev == null
    then (do set_prev new null; pure (record lt { head = new }))
    else (do set_prev new prev; set_next prev new; pure lt)

pub insert_before : Elist → (node new : Ptr) → Cmd Elist
insert_before lt node new =
    if lt.head == null then insert_only lt new else if node == null then insert_tail lt new else do
      set_next new node
      n ← load node
      lt ← link_before lt new n.prev
      set_prev node new
      pure (record lt { count = lt.count + 1 })

-- The four ways in which a node leaves the list.
pub unlink : Elist → Ptr → Cmd Elist
unlink lt node =
    if (node == lt.tail) && (node == lt.head)
    then pure (record lt { head = null; tail = null })
    else if node == lt.tail
    then (do n ← load node; set_next n.prev null; pure (record lt { tail = n.prev }))
    else if node == lt.head
    then (do n ← load node; set_prev n.next null; pure (record lt { head = n.next }))
    else (do n ← load node; set_next n.prev n.next; set_prev n.next n.prev; pure lt)

pub remove : Elist → Ptr → Cmd Elist
remove lt node = do lt ← unlink lt node; pure (record lt { count = lt.count - 1 })
