-- ===== src/Memory/Chains/Replace.antt =====
-- One heap of the list takes the place of another.
use egui.Prelude.{
  ℕ, zero, suc, ◌+◌, ◌≤◌, true, Option, some, List, [], ◌∷◌, leb, set, ◌≡◌, ◌⊎◌, inl, inr, arith,
  refl, Bool-cases, get_elem?, bind-some,
}
use egui.Memory.Links.{Ptr}
use egui.Memory.Inv.{is_used}
use egui.Memory.Chains.{Chain, heap, sys, find_heap}
use egui.Memory.Chains.Whole.{count, total, Every, Beside, Separate, InUse}
use egui.Memory.{MemoryHeap, size_of, addr_of}

-- `InUse` of one heap.
abbrev pub Holds : MemoryHeap → (a n : ℕ) → Type 0
Holds m a n = (p : Ptr) × (is_used m p ≡ true) × (addr_of m p ≡ a) × (size_of m p ≡ n)

abbrev At : (size : ℕ) → List Chain → ℕ → MemoryHeap → Type 0
At size l i m = (get_elem? l i ≡ some (heap m)) × (size ≤ m.free_max)

At-behind :
    (size : ℕ) (c : Chain) (l : List Chain) (j : ℕ) (k : MemoryHeap) {i : ℕ} {m : MemoryHeap}
    → At size l j k
    → ◌≡◌ {A = Option (ℕ × MemoryHeap)} (some (j + 1, k)) (some (i, m))
    → At size (c ∷ l) i m
At-behind size c l j k {i = i} {m = m} h e =
    let place : suc j ≡ i = ground arith in let same : k ≡ m = cc e in rw (← place, ← same) h

pub find_heap-some :
    (size : ℕ) (l : List Chain) {i : ℕ} {m : MemoryHeap}
    → find_heap size l ≡ some (i, m)
    → At size l i m
unfolding find_heap
find_heap-some size [] e = absurd (cc e)
find_heap-some size (sys addr n ∷ l) e =
    let (r, f, g) = bind-some (find_heap size l) _ e in
    At-behind size (sys addr n) l r.0 r.1 (find_heap-some size l f) g
find_heap-some size (heap k ∷ l) {i} {m} e = elim (Bool-cases (leb size k.free_max)) [
  | inl t ↦
      let first : ◌≡◌ {A = Option (ℕ × MemoryHeap)} (some (0, k)) (some (i, m)) = ground arith in
      let place : 0 ≡ i = cc first in
      let same : k ≡ m = cc first in rw (← place, ← same) (refl, ground arith)
  | inr t ↦
      let (r, f, g) = bind-some (find_heap size l) (λ r. some (r.0 + 1, r.1)) (rw t at e) in
      At-behind size (heap k) l r.0 r.1 (find_heap-some size l f) g
]

module _ (m m' : MemoryHeap) (based : m'.base ≡ m.base) where
  pub Every-at :
      (P : MemoryHeap → Type 0) (l : List Chain) (i : ℕ)
      → get_elem? l i ≡ some (heap m)
      → Every P l
      → P m
  Every-at P [] i e v = absurd (cc e)
  Every-at P (heap k ∷ l) zero e v = let same : k ≡ m = cc e in rw (← same) v.0
  Every-at P (sys a n ∷ l) zero e v = absurd (cc e)
  Every-at P (heap k ∷ l) (suc i) e v = Every-at P l i e v.1
  Every-at P (sys a n ∷ l) (suc i) e v = Every-at P l i e v

  pub Every-set :
      (P : MemoryHeap → Type 0) (l : List Chain) (i : ℕ)
      → get_elem? l i ≡ some (heap m)
      → P m'
      → Every P l
      → Every P (set l i (heap m'))
  Every-set P [] i e h v = v
  Every-set P (heap k ∷ l) zero e h v = (h, v.1)
  Every-set P (sys a n ∷ l) zero e h v = (h, v)
  Every-set P (heap k ∷ l) (suc i) e h v = (v.0, Every-set P l i e h v.1)
  Every-set P (sys a n ∷ l) (suc i) e h v = Every-set P l i e h v

  pub total-set :
      (p : Ptr) (l : List Chain) (i : ℕ)
      → get_elem? l i ≡ some (heap m)
      → total p (set l i (heap m')) + count p m.all ≡ total p l + count p m'.all
  total-set p [] i e = absurd (cc e)
  total-set p (heap k ∷ l) zero e = let same : k ≡ m = cc e in rw same (omega arith)
  total-set p (sys a n ∷ l) zero e = absurd (cc e)
  total-set p (heap k ∷ l) (suc i) e = omega (arith, total-set p l i e)
  total-set p (sys a n ∷ l) (suc i) e = total-set p l i e

  Beside-set :
      (a n : ℕ) (l : List Chain) (i : ℕ)
      → get_elem? l i ≡ some (heap m)
      → Beside a n l
      → Beside a n (set l i (heap m'))
  Beside-set a n [] i e b = b
  Beside-set a n (heap k ∷ l) zero e b =
      let same : k ≡ m = cc e in (ground (arith, b.0, based), b.1)
  Beside-set a n (sys c k ∷ l) zero e b = absurd (cc e)
  Beside-set a n (c ∷ l) (suc i) e b = (b.0, Beside-set a n l i e b.1)

  pub Separate-set :
      (l : List Chain) (i : ℕ)
      → get_elem? l i ≡ some (heap m)
      → Separate l
      → Separate (set l i (heap m'))
  Separate-set [] i e s = s
  Separate-set (heap k ∷ l) zero e s = let same : k ≡ m = cc e in (rw (based, ← same) s.0, s.1)
  Separate-set (sys a n ∷ l) zero e s = absurd (cc e)
  Separate-set (c ∷ l) (suc i) e s = (Beside-set _ _ l i e s.0, Separate-set l i e s.1)

  -- What is in use afterwards, heap by heap.
  pub InUse-set :
      (R : ℕ → ℕ → Type 0) (l : List Chain) (i : ℕ)
      → get_elem? l i ≡ some (heap m)
      → ((a n : ℕ) → Holds m' a n → Holds m a n ⊎ R a n)
      → (a n : ℕ) → InUse a n (set l i (heap m'))
      → InUse a n l ⊎ R a n
  InUse-set R [] i e h a n u = elim u [ ]
  InUse-set R (heap k ∷ l) zero e h a n (inr u) = inl (inr u)
  InUse-set R (heap k ∷ l) zero e h a n (inl u) =
      let same : k ≡ m = cc e in rw same (elim (h a n u) [ inl x ↦ inl (inl x) | inr r ↦ inr r ])
  InUse-set R (sys b k ∷ l) zero e h a n u = absurd (cc e)
  InUse-set R (heap k ∷ l) (suc i) e h a n (inl u) = inl (inl u)
  InUse-set R (heap k ∷ l) (suc i) e h a n (inr u) = elim (InUse-set R l i e h a n u) [
    | inl x ↦ inl (inr x)
    | inr r ↦ inr r
  ]
  InUse-set R (sys b k ∷ l) (suc i) e h a n (inl u) = inl (inl u)
  InUse-set R (sys b k ∷ l) (suc i) e h a n (inr u) = elim (InUse-set R l i e h a n u) [
    | inl x ↦ inl (inr x)
    | inr r ↦ inr r
  ]

  pub set-InUse :
      (l : List Chain) (i : ℕ)
      → get_elem? l i ≡ some (heap m)
      → (a n : ℕ) → Holds m' a n
      → InUse a n (set l i (heap m'))
  set-InUse [] i e a n h = absurd (cc e)
  set-InUse (c ∷ l) zero e a n h = inl h
  set-InUse (heap k ∷ l) (suc i) e a n h = inr (set-InUse l i e a n h)
  set-InUse (sys b k ∷ l) (suc i) e a n h = inr (set-InUse l i e a n h)

  -- What was in use before, heap by heap.
  pub InUse-move :
      (R : ℕ → ℕ → Type 0) (l : List Chain) (i : ℕ)
      → get_elem? l i ≡ some (heap m)
      → ((a n : ℕ) → Holds m a n → Holds m' a n ⊎ R a n)
      → (a n : ℕ) → InUse a n l
      → InUse a n (set l i (heap m')) ⊎ R a n
  InUse-move R [] i e h a n u = elim u [ ]
  InUse-move R (heap k ∷ l) zero e h a n (inr u) = inl (inr u)
  InUse-move R (heap k ∷ l) zero e h a n (inl u) =
      let same : k ≡ m = cc e in
      elim (h a n (rw (← same) u)) [ inl x ↦ inl (inl x) | inr r ↦ inr r ]
  InUse-move R (sys b k ∷ l) zero e h a n u = absurd (cc e)
  InUse-move R (heap k ∷ l) (suc i) e h a n (inl u) = inl (inl u)
  InUse-move R (heap k ∷ l) (suc i) e h a n (inr u) = elim (InUse-move R l i e h a n u) [
    | inl x ↦ inl (inr x)
    | inr r ↦ inr r
  ]
  InUse-move R (sys b k ∷ l) (suc i) e h a n (inl u) = inl (inl u)
  InUse-move R (sys b k ∷ l) (suc i) e h a n (inr u) = elim (InUse-move R l i e h a n u) [
    | inl x ↦ inl (inr x)
    | inr r ↦ inr r
  ]

pub get_elem?-set :
    (l : List Chain) (i : ℕ) {c : Chain} (d : Chain)
    → get_elem? l i ≡ some c
    → get_elem? (set l i d) i ≡ some d
get_elem?-set [] i d e = absurd (cc e)
get_elem?-set (c ∷ l) zero d e = refl
get_elem?-set (c ∷ l) (suc i) d e = get_elem?-set l i d e
