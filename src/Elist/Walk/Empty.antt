-- ===== src/Elist/Walk/Empty.antt =====
-- `e_list_empty`, and memory without the nodes of a list.
use egui.Prelude.{
  ℕ, zero, suc, ◌+◌, ◌<◌, true, ◌≡◌, refl, Option, none, [], ◌∷◌, arith, if◌then◌else◌, length,
}
use egui.Heap.{Ptr, null, Node, Heap, write, load, free, Points, Ends, ends, Ends-bind, Ends-imp}
use egui.Heap.Chain.{Cells, has, ◌∉◌, first, Linked, Linked-frame}
use egui.Elist.{Elist}
use egui.Elist.Insert.{IsList}
use egui.Elist.Walk.{empty_loop, empty}

-- The nodes of the list are given back, and the rest of memory is as it was.
abbrev pub Freed : Heap → Cells → Heap → Type 0
Freed h xs g = (p : Ptr) → g p ≡ (if has p xs then none else h p)

empty_step :
    (h : Heap) (k : ℕ) (p : Ptr) (n : Node)
    → Points h p n
    → empty_loop (suc k) p h ≡ empty_loop k n.next (write h p none)
unfolding empty_loop load free write
empty_step h k p n at = ground arith

write_ne :
    (h : Heap) (p : Ptr) (c : Option Node) (xs : Cells)
    → p ∉ xs
    → (q : Ptr) → has q xs ≡ true
    → write h p c q ≡ h q
unfolding write
write_ne h p c xs out q i = ground arith

Freed-cons :
    (h : Heap) (p : Ptr) (v : ℕ) (xs : Cells) (g : Heap)
    → Freed (write h p none) xs g
    → Freed h ((p, v) ∷ xs) g
unfolding write
Freed-cons h p v xs g t q = ground (arith, t q)

empty_loop-Freed :
    (k : ℕ) (h : Heap) (a : Ptr) (xs : Cells)
    → Linked h a xs null
    → length xs < k
    → Ends (λ _ g. Freed h xs g) (empty_loop k (first xs null) h)
empty_loop-Freed zero h a xs l f = absurd (omega arith)
empty_loop-Freed (suc k) h a [] l f = unfold empty_loop in ends (λ p. refl)
empty_loop-Freed (suc k) h a ((p, v) ∷ xs) (at, out, l) f =
    let kept = Linked-frame h (write h p none) p xs null (write_ne h p none xs out) l in
    rw (empty_step h k p _ at)
      (Ends-imp (empty_loop-Freed k _ p xs kept (omega arith)) (λ _ g. Freed-cons h p v xs g))

-- `e_list_empty` ends, leaves an empty list, gives back every node once and touches no other
-- memory.
pub empty-Freed :
    {h : Heap} {lt : Elist} (xs : Cells)
    → IsList h lt xs
    → Ends (λ lt' g. IsList g lt' [] × (lt'.size ≡ lt.size) × Freed h xs g) (empty lt h)
unfolding empty
empty-Freed {h} {lt} xs is =
    let walk = empty_loop-Freed (lt.count + 1) h null xs is.linked (omega (arith, is.counted)) in
    rw is.head_at (
      Ends-bind walk λ _ g t.
        ends (record { linked = tt; head_at = refl; tail_at = refl; counted = refl }, refl, t))
