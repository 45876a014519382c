-- ===== src/Memory/Chains/Release.antt =====
-- `e_heap_free`: a block of a heap comes back.
use egui.Prelude.{
  ℕ, zero, suc, ◌+◌, ◌-◌, ◌≤◌, ◌<◌, true, some, List, [], ◌∷◌, ◌≡◌, ◌≢◌, ◌⊎◌, inl, inr, arith, refl,
  set, get_elem?, ap, ◌∙◌, sym, ==-cases, lt→ltb, le→ltb,
}
use egui.Memory.Links.{Ptr}
use egui.Memory.Inv.{IsHeap, is_used}
use egui.Memory.Spans.{Tiles-within, Tiles-disjoint}
use egui.Memory.Used.{alloc_tables_find_node-some}
use egui.Memory.Give.Freed.{Freed, move_to_free_tables-Freed}
use egui.Memory.Give.Count.{move_to_free_tables-both}
use egui.Memory.Chains.{
  Chain, heap, sys, Memory, base_of, bytes_of, euint_mod, offset_in, find_chain, e_heap_free,
}
use egui.Memory.Chains.Whole.{Separate, InUse, IsMemory}
use egui.Memory.Chains.Replace.{
  Holds, Every-at, Every-set, total-set, Separate-set, InUse-set, InUse-move, get_elem?-set,
}
use egui.Memory.Chains.Apart.{apart-at, Beside-at}
use egui.Memory.{HeapNode, MemoryHeap, heap_size, size_of, addr_of, move_to_free_tables}

-- All blocks lie in one window of 4 GiB, which the offsets of the code can tell apart.
abbrev pub Near : (lo : ℕ) → List Chain → Type 0
Near lo [] = Unit {0}
Near lo (c ∷ l) = (lo ≤ base_of c) × (base_of c + bytes_of c ≤ lo + euint_mod) × Near lo l

offset-within :
    (addr base : ℕ) → base ≤ addr → addr < base + euint_mod → offset_in addr base ≡ addr - base
unfolding offset_in
offset-within addr base h k = omega arith

offset-beyond :
    (lo addr base size : ℕ)
    → lo ≤ base
    → base + size ≤ lo + euint_mod
    → lo ≤ addr
    → addr < lo + euint_mod
    → (addr < base) ⊎ (base + size ≤ addr)
    → size ≤ offset_in addr base
unfolding offset_in
offset-beyond lo addr base size a b c d (inl e) = omega arith
offset-beyond lo addr base size a b c d (inr e) = omega arith

find_chain-here :
    (addr : ℕ) (c : Chain) (l : List Chain)
    → offset_in addr (base_of c) < bytes_of c
    → find_chain addr (c ∷ l) ≡ some (0, c)
unfolding find_chain
find_chain-here addr c l h = rw (lt→ltb _ _ h) refl

find_chain-later :
    (addr : ℕ) (c d : Chain) (l : List Chain) (i : ℕ)
    → bytes_of c ≤ offset_in addr (base_of c)
    → find_chain addr l ≡ some (i, d)
    → find_chain addr (c ∷ l) ≡ some (suc i, d)
unfolding find_chain
find_chain-later addr c d l i h e = rw (le→ltb _ _ h, e) (ap (λ j. some (j, d)) (omega arith))

Near-at :
    (lo : ℕ) (l : List Chain) (i : ℕ) {m : MemoryHeap}
    → get_elem? l i ≡ some (heap m)
    → Near lo l
    → (lo ≤ m.base) × (m.base + heap_size ≤ lo + euint_mod)
Near-at lo [] i e n = absurd (cc e)
Near-at lo (heap k ∷ l) zero {m} e n = let same : k ≡ m = cc e in rw (← same) (n.0, n.1)
Near-at lo (sys a k ∷ l) zero e n = absurd (cc e)
Near-at lo (c ∷ l) (suc i) e n = Near-at lo l i e n.2

-- The heap that an address lies in is found.
find_chain-some :
    (lo addr : ℕ) (l : List Chain) (i : ℕ) (m : MemoryHeap)
    → get_elem? l i ≡ some (heap m)
    → Near lo l
    → Separate l
    → m.base ≤ addr
    → addr < m.base + heap_size
    → find_chain addr l ≡ some (i, heap m)
find_chain-some lo addr [] i m e n s h k = absurd (cc e)
find_chain-some lo addr (heap j ∷ l) zero m e n s h k =
    let same : j ≡ m = cc e in
    let based = ap (λ (x : MemoryHeap). x.base) same in
    find_chain-here addr (heap j) l
      (rw (offset-within addr j.base (omega arith) (omega arith)) (omega arith))
    ∙ ap (λ x. some (0, heap x)) same
find_chain-some lo addr (sys a j ∷ l) zero m e n s h k = absurd (cc e)
find_chain-some lo addr (c ∷ l) (suc i) m e n s h k =
    let (lo_m, hi_m) = Near-at lo l i e n.2 in
    find_chain-later addr c (heap m) l i
      (offset-beyond lo addr (base_of c) (bytes_of c) n.0 n.1 (omega arith) (omega arith)
        (ground (arith, Beside-at (base_of c) (bytes_of c) l i e s.0)))
      (find_chain-some lo addr l i m e n.2 s.1 h k)

-- A block has come back to a memory that is whole; the others are in use as before.
pub record Released (w : Memory) (addr size : ℕ) (w' : Memory) : Type 0 where
  pub valid : IsMemory w'
  pub kept : (a n : ℕ) → InUse a n w.chains → InUse a n w'.chains ⊎ ((a ≡ addr) × (n ≡ size))
  pub only :
      (a n : ℕ) → InUse a n w'.chains → InUse a n w.chains × ((addr + size ≤ a) ⊎ (a + n ≤ addr))

module _ (w : Memory) (v : IsMemory w) (i : ℕ) (m : MemoryHeap)
    (at : get_elem? w.chains i ≡ some (heap m)) (p : Ptr) (used : is_used m p ≡ true) where
  abbrev moved : MemoryHeap × List Ptr
  moved = move_to_free_tables m w.cache p

  abbrev after : Memory
  after = record w { chains = set w.chains i (heap moved.0); cache = moved.1 }

  here-IsHeap : IsHeap m
  here-IsHeap = Every-at m m refl IsHeap w.chains i at v.whole

  freed : Freed m moved.0 p
  freed = move_to_free_tables-Freed w.cache p here-IsHeap used

  place :
      (m.base ≤ addr_of m p) × (addr_of m p + size_of m p ≤ m.base + heap_size) × (0 < size_of m p)
  place = Tiles-within m.nodes m.base m.all (m.base + heap_size) here-IsHeap.tiles p (ground arith)

  -- Another node of the heap lies apart.
  other_apart :
      (q : Ptr)
      → is_used m q ≡ true
      → q ≢ p
      → (addr_of m p + size_of m p ≤ addr_of m q) ⊎ (addr_of m q + size_of m q ≤ addr_of m p)
  other_apart q h ne =
      Tiles-disjoint m.nodes m.base m.all (m.base + heap_size) here-IsHeap.tiles p q (ground arith)
        (ground arith) (λ e. ne (sym e))

  only_node : (q : Ptr) → is_used m q ≡ true → addr_of m q ≡ addr_of m p → q ≡ p
  only_node q h e = elim (==-cases q p) [
    | inl (_, same) ↦ same
    | inr (_, ne) ↦ absurd (
        ground (
          arith,
          other_apart q h ne,
          place,
          Tiles-within m.nodes m.base m.all (m.base + heap_size) here-IsHeap.tiles q,
        ))
  ]

  -- A node in use afterwards was in use before, and is another one.
  old_node : (q : Ptr) → is_used moved.0 q ≡ true → (is_used m q ≡ true) × (q ≢ p)
  old_node q h =
      let ne : q ≢ p = λ e. ground (arith, freed.freed, ap (is_used moved.0) e) in
      (sym (freed.keeps.uses q ne) ∙ h, ne)

  Holds-move : (a n : ℕ) → Holds m a n → Holds moved.0 a n ⊎ ((a ≡ addr_of m p) × (n ≡ size_of m p))
  Holds-move a n (q, h, at_a, at_n) = elim (==-cases q p) [
    | inl (_, e) ↦ inr (ground arith, ground arith)
    | inr (_, ne) ↦
        let same = freed.keeps.stays q ne h in
        inl (
          q,
          freed.keeps.uses q ne ∙ h,
          ap (λ (x : HeapNode). x.addr) same ∙ at_a,
          ap (λ (x : HeapNode). x.size) same ∙ at_n,
        )
  ]

  Holds-back : (a n : ℕ) → Holds moved.0 a n → Holds m a n
  Holds-back a n (q, h, at_a, at_n) =
      let (old, ne) = old_node q h in
      let same = sym (freed.keeps.stays q ne old) in
      (q, old, ap (λ (x : HeapNode). x.addr) same ∙ at_a, ap (λ (x : HeapNode). x.size) same ∙ at_n)

  Holds-other :
      (a n : ℕ) → Holds moved.0 a n → (addr_of m p + size_of m p ≤ a) ⊎ (a + n ≤ addr_of m p)
  Holds-other a n (q, h, at_a, at_n) =
      let (old, ne) = old_node q h in
      let same = freed.keeps.stays q ne old in
      ground (
        arith,
        other_apart q old ne,
        ap (λ (x : HeapNode). x.addr) same,
        ap (λ (x : HeapNode). x.size) same,
      )

  e_heap_free-eq : (lo : ℕ) → Near lo w.chains → e_heap_free w (addr_of m p) ≡ some after
  unfolding e_heap_free
  e_heap_free-eq lo near =
      rw
        (
          find_chain-some lo (addr_of m p) w.chains i m at near v.separate place.0
              (omega (arith, place)),
          offset-within (addr_of m p) m.base place.0 (omega (arith, place)),
          alloc_tables_find_node-some here-IsHeap.used p used only_node,
        )
        refl

  -- In a memory that is whole and whose blocks all lie in one window of 4 GiB, `e_heap_free` of a
  -- block in use in a heap ends: no other block in use is lost and none comes, none that is in use
  -- afterwards shares a byte with the freed one, and the memory is whole again.
  pub e_heap_free-Released :
      (lo : ℕ)
      → Near lo w.chains
      → (w' : Memory) × (e_heap_free w (addr_of m p) ≡ some w')
        × Released w (addr_of m p) (size_of m p) w'
  e_heap_free-Released lo near =
      let f = freed in
      (
        after,
        e_heap_free-eq lo near,
        record {
          valid = record {
            whole = Every-set m moved.0 f.keeps.based IsHeap w.chains i at f.valid v.whole;
            once = λ r. omega (
              arith,
              v.once r,
              total-set m moved.0 f.keeps.based r w.chains i at,
              move_to_free_tables-both w.cache p here-IsHeap used r,
            );
            separate = Separate-set m moved.0 f.keeps.based w.chains i at v.separate;
          };
          kept = λ a n u.
              InUse-move m moved.0 f.keeps.based (λ b k. (b ≡ addr_of m p) × (k ≡ size_of m p))
                w.chains i at Holds-move a n u;
          only = λ a n u. (
            elim (InUse-set m moved.0 f.keeps.based (λ b k. ⊥) w.chains i at
                (λ b k h. inl (Holds-back b k h)) a n u) [ inl x ↦ x | inr x ↦ absurd x ],
            apart-at moved.0 (addr_of m p) (size_of m p) (rw f.keeps.based place.0)
                (rw f.keeps.based place.1) Holds-other after.chains i
                (get_elem?-set w.chains i (heap moved.0) at)
                (Every-set m moved.0 f.keeps.based IsHeap w.chains i at f.valid v.whole)
                (Separate-set m moved.0 f.keeps.based w.chains i at v.separate) a n u,
          );
        },
      )
