-- ===== src/Memory/Chains/Take.antt =====
-- A block is taken from a heap of the list.
use egui.Memory.Chains.Apart.{apart-at}
use egui.Prelude.{
  ℕ, zero, suc, ◌+◌, ◌≤◌, ◌<◌, true, false, some, List, [], ◌∷◌, ◌≡◌, ◌≢◌, ◌⊎◌, inl, inr, arith,
  refl, set, get_elem?, ap, ◌∙◌, sym, lt_or_ge, lt→ltb, le→ltb, ==-cases,
}
use egui.Memory.Links.{Ptr, has, put_before}
use egui.Memory.Inv.{IsHeap, is_used, is_free}
use egui.Memory.Take.Given.{Taken, take_node-Taken, take_node-cut, take_node-whole, whole-Taken}
use egui.Memory.Free.Delete.{heap_free_tables_delete-frame}
use egui.Memory.Chains.{Chain, heap, sys, Memory, Allocator, cache_node_get, take_from}
use egui.Memory.Chains.Whole.{count, total, InUse, IsMemory, count-has}
use egui.Memory.Chains.Replace.{
  Holds, Every-at, Every-set, total-set, Separate-set, InUse-set, set-InUse, InUse-move,
}
use egui.Memory.Chains.Cache.{Spare, IsReady, cache_node_get-Spare, cache_node_get-chains}
use egui.Memory.{
  HeapNode, MemoryHeap, size_of, addr_of, heap_free_tables_delete, split, heap_alloc_tables_insert,
  heap_free_tables_insert,
}

count-put_before : (q p new : Ptr) (l : List Ptr) → count q (put_before p new l) ≡ count q (new ∷ l)
unfolding put_before
count-put_before q p new [] = refl
count-put_before q p new (r ∷ l) = ground (arith, count-put_before q p new l)

split-all :
    (m : MemoryHeap) (p : Ptr) (size : ℕ) (new : Ptr)
    → (heap_alloc_tables_insert (split m p size new) new).all ≡ put_before p new m.all
unfolding split heap_alloc_tables_insert heap_free_tables_insert
split-all m p size new = refl

whole-all : (m : MemoryHeap) (p : Ptr) → (heap_alloc_tables_insert m p).all ≡ m.all
unfolding heap_alloc_tables_insert
whole-all m p = refl

-- A block is given out, in a memory that is whole: no other block changes or shares a byte with it.
pub record Allocated (w : Memory) (size : ℕ) (addr : ℕ) (w' : Memory) : Type 0 where
  pub valid : IsMemory w'
  pub given : InUse addr size w'.chains
  pub kept : (a n : ℕ) → InUse a n w.chains → InUse a n w'.chains
  pub only : (a n : ℕ) → InUse a n w'.chains → InUse a n w.chains ⊎ ((a ≡ addr) × (n ≡ size))
  pub apart : (a n : ℕ) → InUse a n w.chains → (addr + size ≤ a) ⊎ (a + n ≤ addr)

module _ (w : Memory) (i : ℕ) (m : MemoryHeap) (at : get_elem? w.chains i ≡ some (heap m))
    (v : IsMemory w) (size : ℕ) (m' : MemoryHeap) (q : Ptr) (t : Taken m size m' q) (w' : Memory)
    (changed : w'.chains ≡ set w.chains i (heap m'))
    (moved : (r : Ptr)
      → count r w'.cache + count r m'.all + total r w.chains ≤ 1 + count r m.all) where
  Holds-keep : (a n : ℕ) → Holds m a n → Holds m' a n
  Holds-keep a n (r, used, at_a, at_n) =
      let ne : r ≢ q = λ e. cc (e, used, t.unused) in
      let same : m'.nodes r ≡ m.nodes r = t.keeps.stays r ne used in
      (
        r,
        t.keeps.uses r ne ∙ used,
        ap (λ (x : HeapNode). x.addr) same ∙ at_a,
        ap (λ (x : HeapNode). x.size) same ∙ at_n,
      )

  back :
      {a n : ℕ} (r : Ptr)
      → r ≢ q
      → is_used m' r ≡ true
      → addr_of m' r ≡ a
      → size_of m' r ≡ n
      → Holds m a n
  back r ne used at_a at_n =
      let old : is_used m r ≡ true = sym (t.keeps.uses r ne) ∙ used in
      let same : m.nodes r ≡ m'.nodes r = sym (t.keeps.stays r ne old) in
      (r, old, ap (λ (x : HeapNode). x.addr) same ∙ at_a, ap (λ (x : HeapNode). x.size) same ∙ at_n)

  Holds-apart : (a n : ℕ) → Holds m a n → (addr_of m' q + size ≤ a) ⊎ (a + n ≤ addr_of m' q)
  Holds-apart a n (r, used, at_a, at_n) =
      let ne : r ≢ q = λ e. cc (e, used, t.unused) in
      let same : m'.nodes r ≡ m.nodes r = t.keeps.stays r ne used in
      ground (
        arith,
        t.apart r ne used,
        t.sized,
        ap (λ (x : HeapNode). x.addr) same,
        ap (λ (x : HeapNode). x.size) same,
      )

  Holds-only : (a n : ℕ) → Holds m' a n → Holds m a n ⊎ ((a ≡ addr_of m' q) × (n ≡ size))
  Holds-only a n (r, used, at_a, at_n) = elim (==-cases r q) [
    | inl (_, e) ↦ inr (ground arith, ground (arith, t.sized))
    | inr (_, ne) ↦ inl (back r ne used at_a at_n)
  ]

  pub take-Allocated : Allocated w size (addr_of m' q) w'
  take-Allocated = record {
    valid = record {
      whole = rw changed (Every-set m m' t.keeps.based IsHeap w.chains i at t.valid v.whole);
      once = λ r. rw changed (omega (arith, moved r, total-set m m' t.keeps.based r w.chains i at));
      separate = rw changed (Separate-set m m' t.keeps.based w.chains i at v.separate);
    };
    given = rw changed (set-InUse m m' t.keeps.based w.chains i at _ _ (q, t.given, refl, t.sized));
    kept = λ a n u.
        elim (InUse-move m m' t.keeps.based (λ b k. ⊥) w.chains i at
          (λ b k h. inl (Holds-keep b k h)) a n u) [ inl x ↦ rw changed x | inr x ↦ absurd x ];
    only = λ a n u.
        InUse-set m m' t.keeps.based (λ b k. (b ≡ addr_of m' q) × (k ≡ size)) w.chains i at
          Holds-only a n (rw changed at u);
    apart =
        apart-at m (addr_of m' q) size t.within.0 t.within.1 Holds-apart w.chains i at v.whole
          v.separate;
  }

total-at :
    (p : Ptr) (l : List Chain) (i : ℕ) {m : MemoryHeap}
    → get_elem? l i ≡ some (heap m)
    → count p m.all ≤ total p l
total-at p [] i e = absurd (cc e)
total-at p (heap k ∷ l) zero {m} e = let same : k ≡ m = cc e in rw (← same) (omega arith)
total-at p (sys a n ∷ l) zero e = absurd (cc e)
total-at p (heap k ∷ l) (suc i) e = omega (arith, total-at p l i e)
total-at p (sys a n ∷ l) (suc i) e = total-at p l i e

module _ (system : Allocator) (w : Memory) (i : ℕ) (m : MemoryHeap)
    (at : get_elem? w.chains i ≡ some (heap m)) (v : IsMemory w) (ready : IsReady system w)
    (p : Ptr) (p_free : is_free m p ≡ true) (size : ℕ) (pos : 0 < size)
    (fits : size ≤ size_of m p) where
  new_out : (new : Ptr) → total new w.chains ≡ 0 → has m.all new ≡ false
  new_out new e = rw (count-has new m.all) (ground (arith, total-at new w.chains i at))

  abbrev rest : MemoryHeap
  rest = heap_free_tables_delete m p

  rest_all : rest.all ≡ m.all
  rest_all = (heap_free_tables_delete-frame m p).1

  take_from-cut :
      size < size_of rest p
      → let (new, w') = cache_node_get system w in
        let m' = heap_alloc_tables_insert (split rest p size new) new in
        take_from system w i m p size
        ≡ (addr_of m' new, record w' { chains = set w'.chains i (heap m') })
  unfolding take_from
  take_from-cut less =
      rw (lt→ltb size _ less, take_node-cut m p size (cache_node_get system w).0 less) refl

  take_from-whole :
      size_of rest p ≤ size
      → let m' = heap_alloc_tables_insert rest p in
        take_from system w i m p size
        ≡ (addr_of m' p, record w { chains = set w.chains i (heap m') })
  unfolding take_from
  take_from-whole more = rw (le→ltb size _ more, take_node-whole m p size p more) refl

  here-IsHeap : IsHeap m
  here-IsHeap = Every-at m m refl IsHeap w.chains i at v.whole

  cut-Allocated :
      (new : Ptr) (w' : Memory)
      → w'.chains ≡ w.chains
      → Spare w' new
      → size < size_of rest p
      → let m' = heap_alloc_tables_insert (split rest p size new) new in
        Allocated w size (addr_of m' new) (record w' { chains = set w'.chains i (heap m') })
  cut-Allocated new w' same sp less =
      let m' = heap_alloc_tables_insert (split rest p size new) new in
      let out = new_out new (omega (arith, sp.spare, ap (total new) same)) in
      let t : Taken m size m' new =
        rw (take_node-cut m p size new less) at
          (take_node-Taken here-IsHeap p p_free size new pos fits out) in
      take-Allocated w i m at v size m' new t (record w' { chains = set w'.chains i (heap m') })
        (ap (λ l. set l i (heap m')) same)
        (λ r. ground (
          arith,
          sp.once r,
          sp.spare,
          ap (total r) same,
          ap (count r) (split-all rest p size new),
          count-put_before r p new rest.all,
          ap (count r) rest_all,
        ))

  whole-Allocated :
      size_of rest p ≤ size
      → let m' = heap_alloc_tables_insert rest p in
        Allocated w size (addr_of m' p) (record w { chains = set w.chains i (heap m') })
  whole-Allocated more =
      let m' = heap_alloc_tables_insert rest p in
      let t : Taken m size m' p = whole-Taken here-IsHeap p p_free size fits more in
      take-Allocated w i m at v size m' p t (record w { chains = set w.chains i (heap m') }) refl
        (λ r. omega (arith, v.once r, ap (count r) (whole-all rest p), ap (count r) rest_all))

  pub take_from-Allocated :
      Allocated w size (take_from system w i m p size).0 (take_from system w i m p size).1
  take_from-Allocated = elim (lt_or_ge size (size_of rest p)) [
    | inl less ↦ rw (take_from-cut less) (
        cut-Allocated (cache_node_get system w).0 (cache_node_get system w).1
          (cache_node_get-chains system w) (cache_node_get-Spare system w v.once ready) less)
    | inr more ↦ rw (take_from-whole more) (whole-Allocated more)
  ]
