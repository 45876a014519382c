-- ===== src/Elist/Walk.antt =====
-- The functions of elib/elist.c that walk along the list: `e_list_empty`, `e_list_reverse` and
-- `e_list_get_index_data`. Each loop runs on fuel and is given `count + 1` rounds, one for each node
-- and one to see the end.
pub mod Reverse
pub mod Index
pub mod Empty
use egui.Prelude.{
  ℕ, zero, suc, ◌+◌, ◌-◌, ◌/◌, Bool, Option, none, some, ltb, leb, ◌==◌, if◌then◌else◌,
}
use egui.Heap.{Ptr, null, Cmd, pure, ◌>>=◌, ◌>>◌, load, set_next, set_prev, free}
use egui.Elist.{Elist}

empty_loop : ℕ → Ptr → Cmd (Unit {0})
empty_loop zero node = λ _. none
empty_loop (suc k) node =
    if node == null then pure tt else do n ← load node; free node; empty_loop k n.next

pub empty : Elist → Cmd Elist
empty lt = do
  empty_loop (lt.count + 1) lt.head
  pure (record lt { count = 0; head = null; tail = null })

reverse_loop : ℕ → Ptr → Cmd (Unit {0})
reverse_loop zero node = λ _. none
reverse_loop (suc k) node =
    if node == null
    then pure tt
    else do n ← load node; set_next node n.prev; set_prev node n.next; reverse_loop k n.next

pub reverse : Elist → Cmd Elist
reverse lt = do
  reverse_loop (lt.count + 1) lt.head
  pure (record lt { head = lt.tail; tail = lt.head })

-- `for (i = 0; node && i < index; i++) node = node->next`, with `k` rounds left
next_loop : ℕ → Ptr → Cmd Ptr
next_loop zero node = pure node
next_loop (suc k) node = if node == null then pure node else do n ← load node; next_loop k n.next

-- `for (i = count - 1; node && i > index; i--) node = node->prev`
prev_loop : ℕ → Ptr → Cmd Ptr
prev_loop zero node = pure node
prev_loop (suc k) node = if node == null then pure node else do n ← load node; prev_loop k n.prev

-- A data pointer is given by the address of its node, and NULL by NULL.
pub get_index_data : Elist → ℕ → Cmd Ptr
get_index_data lt index =
    if index == 0
    then pure lt.head
    else if index + 1 == lt.count
    then pure lt.tail
    else if leb index (lt.count / 2)
    then next_loop index lt.head
    else prev_loop (lt.count - 1 - index) lt.tail
