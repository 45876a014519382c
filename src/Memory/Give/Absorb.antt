-- ===== src/Memory/Give/Absorb.antt =====
-- The two halves of `free_node_merge`, as the code writes them.
use egui.Prelude.{
  ℕ, ◌+◌, true, false, none, some, List, [], ◌∷◌, ◌++◌, ◌≡◌, arith, refl, Bool-cases, Option-cases,
  inl, inr, ap, ap₂,
}
use egui.Memory.Links.{Ptr, has, drop_node, last_of}
use egui.Memory.Links.Laws.{first_of, has-append, has-first_of, has-last_of, last_of-split}
use egui.Memory.Merged.{Merged-first, Merged-append}
use egui.Memory.Free.Delete.{heap_free_tables_delete-frame}
use egui.Memory.Inv.{Loose, is_free, Loose-has}
use egui.Memory.{
  HeapNode, MemoryHeap, size_of, heap_free_tables_delete, addr_of, absorb_next, absorb_prev, update,
}
use egui.Memory.Give.Merge.{Grown, Grown-refl, next-Grown, prev-Grown}

-- The loose node as the code writes it, when it takes in a neighbour `n`.
module _ (m : MemoryHeap) (p n : Ptr) where
  abbrev without : MemoryHeap
  without = heap_free_tables_delete (record m { all = drop_node n m.all }) n

  abbrev with_next : HeapNode
  with_next = record (without.nodes p) { size = size_of without p + size_of without n }

  abbrev with_prev : HeapNode
  with_prev = record (without.nodes p) {
    addr = addr_of without n;
    size = size_of without p + size_of without n;
  }

  nodes_kept : (q : Ptr) → without.nodes q ≡ m.nodes q
  nodes_kept q =
      ap (λ (f : Ptr → HeapNode). f q)
        (heap_free_tables_delete-frame (record m { all = drop_node n m.all }) n).0

  next_flag : with_next.is_alloc ≡ (m.nodes p).is_alloc
  next_flag = ap (λ (x : HeapNode). x.is_alloc) (nodes_kept p)

  next_size : with_next.size ≡ size_of m p + size_of m n
  next_size =
      ap₂ (λ (a b : ℕ). a + b) (ap (λ (x : HeapNode). x.size) (nodes_kept p))
        (ap (λ (x : HeapNode). x.size) (nodes_kept n))

  pub absorb_next-free :
      (cache : List Ptr)
      → (m.nodes n).is_alloc ≡ false
      → absorb_next m cache p (some n)
        ≡ (record without { nodes = update without.nodes p with_next }, n ∷ cache)
  unfolding absorb_next
  absorb_next-free cache e = rw e refl

  pub absorb_next-none : (cache : List Ptr) → absorb_next m cache p none ≡ (m, cache)
  unfolding absorb_next
  absorb_next-none cache = refl

  pub absorb_prev-none : (cache : List Ptr) → absorb_prev m cache p none ≡ (m, cache)
  unfolding absorb_prev
  absorb_prev-none cache = refl

  pub absorb_next-used :
      (cache : List Ptr) → (m.nodes n).is_alloc ≡ true → absorb_next m cache p (some n) ≡ (m, cache)
  unfolding absorb_next
  absorb_next-used cache e = rw e refl

  pub absorb_prev-free :
      (cache : List Ptr)
      → (m.nodes n).is_alloc ≡ false
      → absorb_prev m cache p (some n)
        ≡ (record without { nodes = update without.nodes p with_prev }, n ∷ cache)
  unfolding absorb_prev
  absorb_prev-free cache e = rw e refl

  pub absorb_prev-used :
      (cache : List Ptr) → (m.nodes n).is_alloc ≡ true → absorb_prev m cache p (some n) ≡ (m, cache)
  unfolding absorb_prev
  absorb_prev-used cache e = rw e refl

-- `absorb_next` on a loose node with `post` behind it.
pub absorb_next-Grown :
    {m : MemoryHeap} {p : Ptr} {pre : List Ptr} (post : List Ptr) (cache : List Ptr)
    → Loose m p pre post
    → (rest : List Ptr) × Grown m (absorb_next m cache p (first_of post)).0 p pre rest
      × ((q : Ptr) → first_of rest ≡ some q → (m.nodes q).is_alloc ≡ true)
unfolding has
absorb_next-Grown {m} {p} [] cache s =
    rw (absorb_next-none m p 0 cache) ([], Grown-refl s, λ q e. absurd (cc e))
absorb_next-Grown {m} {p} {pre} (n ∷ rest) cache s = elim (Bool-cases (m.nodes n).is_alloc) [
  | inl e ↦ rw (absorb_next-used m p n cache e) (n ∷ rest, Grown-refl s, λ q f. ground arith)
  | inr e ↦
      let n_free : is_free m n ≡ true = rw (Loose-has s n, e, has) (ground arith) in
      rw (absorb_next-free m p n cache e) (
        rest,
        next-Grown s n_free (with_next m p n) (next_flag m p n)
            (ap (λ (x : HeapNode). x.addr) (nodes_kept m p n p)) (next_size m p n),
        λ q f. ground (
          arith,
          Merged-first (is_free m) n rest s.behind q f,
          n_free,
          Loose-has s q,
          has-first_of rest f,
        ),
      )
]

-- `absorb_prev` on a loose node with `pre` before it.
pub absorb_prev-Grown :
    {m : MemoryHeap} {p : Ptr} (pre : List Ptr) {post : List Ptr} (cache : List Ptr)
    → Loose m p pre post
    → (front : List Ptr) × Grown m (absorb_prev m cache p (last_of pre)).0 p front post
      × ((q : Ptr) → last_of front ≡ some q → (m.nodes q).is_alloc ≡ true)
unfolding has
absorb_prev-Grown {m} {p} pre {post} cache s = elim (Option-cases (last_of pre)) [
  | inl e ↦ rw (e, absorb_prev-none m p 0 cache) (pre, Grown-refl s, λ q f. absurd (cc (e, f)))
  | inr (n, e) ↦ elim (Bool-cases (m.nodes n).is_alloc) [
    | inl f ↦ rw (e, absorb_prev-used m p n cache f) (pre, Grown-refl s, λ q g. ground (arith, e))
    | inr f ↦
        let (front, same) = last_of-split pre e in
        let n_in = has-last_of pre e in
        let n_free : is_free m n ≡ true = rw (Loose-has s n, f) (ground arith) in
        let s' : Loose m p (front ++ n ∷ []) post = rw (← same) s in
        let (_, apart, _) = Merged-append (is_free m) front n [] s'.before in
        rw (e, absorb_prev-free m p n cache f)
          (
            front,
            prev-Grown n front s' n_free (with_prev m p n) (next_flag m p n)
                (ap (λ (x : HeapNode). x.addr) (nodes_kept m p n n)) (next_size m p n),
            λ q g. ground (
              arith,
              apart q g,
              n_free,
              Loose-has s' q,
              has-last_of front g,
              has-append front (n ∷ []) q,
            ),
          )
  ]
]
