-- ===== src/Memory/Chains/Apart.antt =====
-- Blocks of different places in the list share no byte.
use egui.Prelude.{
  ℕ, zero, suc, ◌+◌, ◌≤◌, some, List, [], ◌∷◌, ◌≡◌, ◌⊎◌, inl, inr, arith, get_elem?, ap,
}
use egui.Memory.Inv.{IsHeap}
use egui.Memory.Spans.{Tiles-within}
use egui.Memory.Chains.{Chain, heap, sys}
use egui.Memory.Chains.Whole.{Every, Beside, Separate, InUse}
use egui.Memory.Chains.Replace.{Holds}
use egui.Memory.{MemoryHeap, heap_size}

pub Holds-within :
    {m : MemoryHeap} (a n : ℕ)
    → IsHeap m
    → Holds m a n
    → (m.base ≤ a) × (a + n ≤ m.base + heap_size)
Holds-within {m} a n v (p, used, at, size) =
    let w = Tiles-within m.nodes m.base m.all (m.base + heap_size) v.tiles p (ground arith) in
    (omega arith, omega arith)

-- A block of the list against a stretch that lies beside all of it.
pub InUse-Beside :
    (b k a n : ℕ) (l : List Chain)
    → Every IsHeap l
    → Beside b k l
    → InUse a n l
    → (b + k ≤ a) ⊎ (a + n ≤ b)
InUse-Beside b k a n [] v s u = elim u [ ]
InUse-Beside b k a n (heap m ∷ l) v s (inl u) = ground (arith, Holds-within a n v.0 u, s.0)
InUse-Beside b k a n (heap m ∷ l) v s (inr u) = InUse-Beside b k a n l v.1 s.1 u
InUse-Beside b k a n (sys c j ∷ l) v s (inl u) = ground (arith, u.0, u.1, s.0)
InUse-Beside b k a n (sys c j ∷ l) v s (inr u) = InUse-Beside b k a n l v s.1 u

pub Beside-at :
    (b k : ℕ) (l : List Chain) (i : ℕ) {m : MemoryHeap}
    → get_elem? l i ≡ some (heap m)
    → Beside b k l
    → (b + k ≤ m.base) ⊎ (m.base + heap_size ≤ b)
Beside-at b k [] i e s = absurd (cc e)
Beside-at b k (heap j ∷ l) zero {m} e s = let same : j ≡ m = cc e in rw (← same) s.0
Beside-at b k (sys c j ∷ l) zero e s = absurd (cc e)
Beside-at b k (c ∷ l) (suc i) e s = Beside-at b k l i e s.1

-- A stretch within one heap that is apart from what that heap has given out is apart from all else.
module _ (m : MemoryHeap) (x s : ℕ) (lo : m.base ≤ x) (hi : x + s ≤ m.base + heap_size)
    (here : (a n : ℕ) → Holds m a n → (x + s ≤ a) ⊎ (a + n ≤ x)) where
  pub apart-at :
      (l : List Chain) (i : ℕ)
      → get_elem? l i ≡ some (heap m)
      → Every IsHeap l
      → Separate l
      → (a n : ℕ) → InUse a n l
      → (x + s ≤ a) ⊎ (a + n ≤ x)
  apart-at [] i e v t a n u = elim u [ ]
  apart-at (heap k ∷ l) zero e v t a n (inl u) = let same : k ≡ m = cc e in here a n (rw (← same) u)
  apart-at (heap k ∷ l) zero e v t a n (inr u) =
      let same : k ≡ m = cc e in
      ground
        (arith, InUse-Beside k.base heap_size a n l v.1 t.0 u, ap (λ (h : MemoryHeap). h.base) same)
  apart-at (sys b k ∷ l) zero e v t a n u = absurd (cc e)
  apart-at (heap k ∷ l) (suc i) e v t a n (inl u) =
      ground (arith, Holds-within a n v.0 u, Beside-at k.base heap_size l i e t.0)
  apart-at (heap k ∷ l) (suc i) e v t a n (inr u) = apart-at l i e v.1 t.1 a n u
  apart-at (sys b k ∷ l) (suc i) e v t a n (inl u) =
      ground (arith, u.0, u.1, Beside-at b k l i e t.0)
  apart-at (sys b k ∷ l) (suc i) e v t a n (inr u) = apart-at l i e v t.1 a n u
