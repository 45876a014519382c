-- ===== src/Ring.antt =====
-- The circular list of elib/list.h, over nodes in memory: `struct list_head` within larger blocks.
pub mod Turn
pub mod Moves
mod Tests
use egui.Prelude.{Bool, not, ◌==◌}
use egui.Heap.{Ptr, Cmd, pure, ◌>>=◌, ◌>>◌, load, set_next, set_prev}

-- `INIT_LIST_HEAD`
pub init_list_head : Ptr → Cmd (Unit {0})
init_list_head p = do set_next p p; set_prev p p

-- `__list_add`
pub add_between : (node prev next : Ptr) → Cmd (Unit {0})
add_between node prev next = do
  set_prev next node
  set_next node next
  set_prev node prev
  set_next prev node

pub list_add : (node head : Ptr) → Cmd (Unit {0})
unfolding add_between
list_add node head = do h ← load head; add_between node head h.next

pub list_add_tail : (node head : Ptr) → Cmd (Unit {0})
unfolding add_between
list_add_tail node head = do h ← load head; add_between node h.prev head

-- `__list_del`
pub del_between : (prev next : Ptr) → Cmd (Unit {0})
del_between prev next = do set_prev next prev; set_next prev next

pub list_del : Ptr → Cmd (Unit {0})
unfolding del_between
list_del entry = do e ← load entry; del_between e.prev e.next

pub list_empty : Ptr → Cmd Bool
list_empty head = do h ← load head; pure (h.next == head)

pub list_no_empty : Ptr → Cmd Bool
list_no_empty head = do h ← load head; pure (not (h.next == head))
