-- ===== src/Ring/Tests.antt =====
-- The theorems on rings, at a head with one entry and a node that stands alone.
use egui.Prelude.{false, ◌≡◌, refl, arith, none, some, [], ◌∷◌, ◌==◌, if◌then◌else◌}
use egui.Heap.{node, Heap, Points, Ends, load}
use egui.Heap.Chain.{Cells, cell}
use egui.Ring.{list_add, list_del, list_empty}
use egui.Ring.Turn.{IsRing}
use egui.Ring.Moves.{Moved, list_add-Moved, list_del-Moved}

abbrev memory : Heap
memory = λ a.
    if a == 10
    then some (node 0 20 20)
    else if a == 20
    then some (node 5 10 10)
    else if a == 30
    then some (node 6 0 0)
    else none

abbrev ring : Cells
ring = (10, 0) ∷ (20, 5) ∷ []

ring-IsRing : IsRing memory ring
ring-IsRing = (
  record { ne_null = omega arith; holds = refl },
  refl,
  (record { ne_null = omega arith; holds = refl }, refl, tt),
)

alone : Points memory 30 (node 6 0 0)
alone = record { ne_null = omega arith; holds = refl }

list_add-Moved_example :
    Ends (λ _ g. Moved memory ring ((10, 0) ∷ (30, 6) ∷ (20, 5) ∷ []) g) (list_add 30 10 memory)
list_add-Moved_example =
    list_add-Moved memory 10 0 (cell 20 5) 30 (node 6 0 0) ring-IsRing alone refl

list_del-Moved_example : Ends (λ _ g. Moved memory ring (cell 10 0) g) (list_del 20 memory)
list_del-Moved_example = list_del-Moved memory 10 0 [] 20 5 [] ring-IsRing

-- The head of a list with an entry
empty_runs : list_empty 20 memory ≡ some (false, memory)
unfolding list_empty load
empty_runs = refl
