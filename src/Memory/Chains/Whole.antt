-- ===== src/Memory/Chains/Whole.antt =====
-- What holds of the list of blocks and of the cache between calls.
use egui.Prelude.{
  ℕ, suc, ◌+◌, ◌≤◌, true, List, [], ◌∷◌, ◌==◌, leb, if◌then◌else◌, ◌≡◌, ◌⊎◌, arith, refl,
}
use egui.Memory.Links.{Ptr, has}
use egui.Memory.Inv.{IsHeap, is_used}
use egui.Memory.Chains.{Chain, heap, sys, Memory, base_of, bytes_of}
use egui.Memory.{MemoryHeap, size_of, addr_of}

-- How often a node is in a list, and in the heaps of a list of blocks.
abbrev pub count : Ptr → List Ptr → ℕ
count p [] = 0
count p (q ∷ l) = if q == p then suc (count p l) else count p l

abbrev pub total : Ptr → List Chain → ℕ
total p [] = 0
total p (heap m ∷ l) = count p m.all + total p l
total p (sys addr size ∷ l) = total p l

abbrev pub Every : (MemoryHeap → Type 0) → List Chain → Type 0
Every P [] = Unit {0}
Every P (heap m ∷ l) = P m × Every P l
Every P (sys addr size ∷ l) = Every P l

-- The stretch of `n` bytes at `a` shares none with the blocks of the list.
abbrev pub Beside : (a n : ℕ) → List Chain → Type 0
Beside a n [] = Unit {0}
Beside a n (c ∷ l) = ((a + n ≤ base_of c) ⊎ (base_of c + bytes_of c ≤ a)) × Beside a n l

abbrev pub Separate : List Chain → Type 0
Separate [] = Unit {0}
Separate (c ∷ l) = Beside (base_of c) (bytes_of c) l × Separate l

-- A block of `n` bytes at `a` is given out.
abbrev pub InUse : (a n : ℕ) → List Chain → Type 0
InUse a n [] = ⊥
InUse a n (heap m ∷ l) =
    ((p : Ptr) × (is_used m p ≡ true) × (addr_of m p ≡ a) × (size_of m p ≡ n)) ⊎ InUse a n l
InUse a n (sys addr size ∷ l) = ((addr ≡ a) × (size ≡ n)) ⊎ InUse a n l

pub record IsMemory (w : Memory) : Type 0 where
  pub whole : Every IsHeap w.chains
  pub once : (p : Ptr) → count p w.cache + total p w.chains ≤ 1
  pub separate : Separate w.chains

pub count-has : (p : Ptr) (l : List Ptr) → has l p ≡ leb 1 (count p l)
unfolding has
count-has p [] = refl
count-has p (q ∷ l) = ground (arith, count-has p l)
