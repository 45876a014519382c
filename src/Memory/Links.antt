-- ===== src/Memory/Links.antt =====
-- Lists of nodes, each node by its address, and what the list macros of elib/list.h do to them.
pub mod Laws
use egui.Prelude.{
  ℕ, Bool, true, false, ◌||◌, Option, none, some, List, [], ◌∷◌, ◌==◌, if◌then◌else◌,
}

abbrev pub Ptr : Type 0
Ptr = ℕ

unfoldable pub has : List Ptr → Ptr → Bool
has [] p = false
has (q ∷ l) p = q == p || has l p

-- `STRUCT_LIST_DELETE`
unfoldable pub drop_node : Ptr → List Ptr → List Ptr
drop_node p [] = []
drop_node p (q ∷ l) = if q == p then l else q ∷ drop_node p l

-- The node that `_next` leads to.
unfoldable pub next_of : Ptr → List Ptr → Option Ptr
next_of p [] = none
next_of p (q ∷ []) = none
next_of p (q ∷ r ∷ l) = if q == p then some r else next_of p (r ∷ l)

-- The node that `_prev` leads to.
unfoldable pub prev_of : Ptr → List Ptr → Option Ptr
prev_of p [] = none
prev_of p (q ∷ []) = none
prev_of p (q ∷ r ∷ l) = if r == p then some q else prev_of p (r ∷ l)

unfoldable pub last_of : List Ptr → Option Ptr
last_of [] = none
last_of (q ∷ []) = some q
last_of (q ∷ r ∷ l) = last_of (r ∷ l)

-- `STRUCT_LIST_INSERT_BEFORE`
unfoldable pub put_before : (p new : Ptr) → List Ptr → List Ptr
put_before p new [] = new ∷ []
put_before p new (q ∷ l) = if q == p then new ∷ q ∷ l else q ∷ put_before p new l
