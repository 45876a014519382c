-- ===== src/Stack/Tests.antt =====
-- Runs of the stack, and its theorems at a stack with entries on both sides of the current one.
use egui.Prelude.{ℕ, ◌≡◌, refl, [], ◌∷◌, ◌++◌, arith}
use egui.Stack.{
  Stack, Node, freed, undone, redone, lower, upper, zeros, stack_free, push, pop, reco, redo,
  stack_push, make_room, clear_place, free_up,
}
use egui.Stack.Inv.{IsValid, entries}
use egui.Stack.Push.{push_lem}
use egui.Stack.Moves.{redo-reco, pop_lem}

-- An entry with data, and callbacks that the events show.
abbrev entry : ℕ → Node
entry v = record { value = v; reco = 1; redo = 2; free = 3 }

abbrev middle : Stack
middle = record { num = 3; max = 3; offset = 1; nodes = zeros ∷ entry 5 ∷ entry 6 ∷ [] }

abbrev full : Stack
full = record middle { offset = 2 }

middle-IsValid : IsValid middle
middle-IsValid = omega arith

full-IsValid : IsValid full
full-IsValid = omega arith

push_frees_undone :
    push middle (entry 7)
    ≡ (record middle { offset = 2; nodes = zeros ∷ entry 5 ∷ entry 7 ∷ [] }, freed 3 6 upper ∷ [])
unfolding push stack_push make_room clear_place stack_free free_up
push_frees_undone = refl

-- The entry with data 6 is neither kept nor freed.
pop_forgets : pop middle ≡ (record middle { num = 1; offset = 0 }, freed 3 5 upper ∷ [])
unfolding pop stack_free
pop_forgets = refl

push_lem_example :
    (entries (push full (entry 7)).0 ≡ entry 5 ∷ entry 6 ∷ entry 7 ∷ [])
    × ((push full (entry 7)).0.offset ≡ 2)
    × ((push full (entry 7)).1 ≡ stack_free lower zeros)
push_lem_example = push_lem full-IsValid (entry 7)

redo-reco_example :
    ((redo (reco middle).0).0 ≡ middle)
    × (entries (reco middle).0 ≡ entries middle)
    × ((reco middle).1 ≡ undone 1 5 ∷ [])
    × ((redo (reco middle).0).1 ≡ redone 2 5 ∷ [])
redo-reco_example = redo-reco middle-IsValid (omega arith)

pop_lem_example :
    (entries middle ≡ entries (pop middle).0 ++ entry 5 ∷ entry 6 ∷ [])
    × ((pop middle).0.offset ≡ 0)
    × ((pop middle).1 ≡ stack_free upper (entry 5))
pop_lem_example = pop_lem middle-IsValid (omega arith)
