-- ===== src/Ring/Turn.antt =====
-- A ring of nodes, read from one or another of them.
use egui.Prelude.{sym, ◌∷◌, ◌++◌, ℕ, Bool-cases, inl, inr}
use egui.Heap.{Ptr, null, Heap}
use egui.Heap.Chain.{
  Cells, has, first, last, Linked, Linked-Split, Linked-append, Apart, last-append,
}
use mathlib.Core.Path.{subst}

-- The nodes link forth and back, the last one to the first.
abbrev pub IsRing : Heap → Cells → Type 0
IsRing h xs = Linked h (last null xs) xs (first xs null)

Apart-sym : (xs ys : Cells) → Apart xs ys → Apart ys xs
Apart-sym xs ys apart p i = elim (Bool-cases (has p xs)) [ inl j ↦ cc (apart p j, i) | inr j ↦ j ]

pub IsRing-turn :
    (h : Heap) (p q : Ptr) (v w : ℕ) (xs ys : Cells)
    → IsRing h (((p, v) ∷ xs) ++ ((q, w) ∷ ys))
    → IsRing h (((q, w) ∷ ys) ++ ((p, v) ∷ xs))
IsRing-turn h p q v w xs ys ring =
    let front = (p, v) ∷ xs in
    let back = (q, w) ∷ ys in
    let s = Linked-Split h _ front back _ ring in
    subst (λ a. Linked h a (back ++ front) q) (sym (last-append q ys front))
      (Linked-append h (last p xs) back front q s.back
        (subst (λ a. Linked h a front q) (last-append p xs back) s.front)
        (Apart-sym front back s.apart))
