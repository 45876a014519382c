-- ===== src/Memory/Give/Merge.antt =====
-- `free_node_merge`: the loose node takes in the free nodes beside it.
use egui.Prelude.{
  ℕ, ◌≤◌, ◌+◌, true, false, List, [], ◌∷◌, ◌++◌, ◌≡◌, ◌≢◌, arith, refl, sym, ap, ◌∙◌, append_assoc,
}
use egui.Memory.Links.{Ptr, has, drop_node}
use egui.Memory.Links.Laws.{Distinct-append, has-append, drop_node-append}
use egui.Memory.Spans.{Tiles, Tiles-append, append-Tiles, Tiles-Distinct, Tiles-congr, Tiles-from}
use egui.Memory.Merged.{Merged-tail, Merged-append}
use egui.Memory.Inv.{Loose, is_free, Loose-out}
use egui.Memory.Take.{Keeps}
use egui.Memory.Give.{joined, joined-Loose, joined-Keeps, joined_nodes}
use egui.Memory.{HeapNode, MemoryHeap, heap_size, size_of, addr_of, update}

abbrev pub Covers : MemoryHeap → MemoryHeap → Ptr → Type 0
Covers m m' p =
    (addr_of m' p ≤ addr_of m p) × (addr_of m p + size_of m p ≤ addr_of m' p + size_of m' p)

-- The loose node has grown, and no node in use has changed.
pub record Grown (m m' : MemoryHeap) (p : Ptr) (pre post : List Ptr) : Type 0 where
  pub loose : Loose m' p pre post
  pub keeps : Keeps m m' p
  pub covers : Covers m m' p
  pub flags : (q : Ptr) → q ≢ p → (m'.nodes q).is_alloc ≡ (m.nodes q).is_alloc

Tiles-update :
    (nodes : Ptr → HeapNode) (p : Ptr) (v : HeapNode) (a : ℕ) (l : List Ptr) (b : ℕ)
    → has l p ≡ false
    → Tiles nodes a l b
    → Tiles (update nodes p v) a l b
Tiles-update nodes p v a l b out =
    Tiles-congr nodes (update nodes p v) a l b (λ q h. (ground (arith, out), ground (arith, out)))

pub Grown-refl :
    {m : MemoryHeap} {p : Ptr} {pre post : List Ptr} → Loose m p pre post → Grown m m p pre post
Grown-refl s = record {
  loose = s;
  keeps = record { based = refl; uses = λ q ne. refl; stays = λ q ne h. refl };
  covers = (omega arith, omega arith);
  flags = λ q ne. refl;
}

-- The node behind is free.
module _ {m : MemoryHeap} {p n : Ptr} {pre rest : List Ptr} (s : Loose m p pre (n ∷ rest))
    (n_free : is_free m n ≡ true) where
  next_split : m.all ≡ (pre ++ p ∷ []) ++ n ∷ rest
  next_split = s.all_is ∙ sym (append_assoc pre (p ∷ []) (n ∷ rest))

  next_unlinked : drop_node n m.all ≡ pre ++ p ∷ rest
  next_unlinked =
      ap (drop_node n) next_split
      ∙ (drop_node-append n (pre ++ p ∷ []) rest
            (Distinct-append (pre ++ p ∷ []) n rest (
              rw (← next_split)
                (Tiles-Distinct m.nodes m.base m.all (m.base + heap_size) s.tiles))).0
          ∙ append_assoc pre (p ∷ []) rest)

  pub next_ne : n ≢ p
  unfolding has
  next_ne e = ground (arith, (Loose-out s).1)

  module _ (v : HeapNode) (flag : v.is_alloc ≡ (m.nodes p).is_alloc) (at : v.addr ≡ addr_of m p)
      (wide : v.size ≡ size_of m p + size_of m n) where
    next-Tiles : Tiles (update m.nodes p v) m.base (drop_node n m.all) (m.base + heap_size)
    unfolding has
    next-Tiles =
        let (c, t, u) =
          Tiles-append m.nodes m.base pre (p ∷ n ∷ rest) (m.base + heap_size)
            (rw (← s.all_is) s.tiles) in
        let here : update m.nodes p v p ≡ v = ground arith in
        rw next_unlinked (
          append-Tiles (update m.nodes p v) m.base pre (p ∷ rest) (m.base + heap_size) c
            (Tiles-update m.nodes p v m.base pre c (Loose-out s).0 t)
            (
              rw here (omega (arith, u.0)),
              rw here (omega (arith, u.1)),
              Tiles-update m.nodes p v (c + (update m.nodes p v p).size) rest (m.base + heap_size)
                  (ground (arith, (Loose-out s).1))
                  (Tiles-from m.nodes (c + size_of m p + size_of m n)
                    (c + (update m.nodes p v p).size) rest (m.base + heap_size)
                    (rw here (omega arith)) u.2.2),
            ))

    pub next-Grown : Grown m (joined s n n_free next_ne v flag) p pre rest
    next-Grown = record {
      loose =
          joined-Loose s n n_free next_ne v flag pre rest next_unlinked next-Tiles s.before
            (Merged-tail (is_free m) n rest s.behind);
      keeps = joined-Keeps s n n_free next_ne v flag;
      covers = (ground (arith, at, wide), ground (arith, at, wide));
      flags =
          λ q ne. ap (λ (x : HeapNode). x.is_alloc) (joined_nodes s n n_free next_ne v flag q ne);
    }

-- The node before is free.
module _ {m : MemoryHeap} {p : Ptr} (n : Ptr) (front : List Ptr) {post : List Ptr}
    (s : Loose m p (front ++ n ∷ []) post) (n_free : is_free m n ≡ true) where
  prev_split : m.all ≡ front ++ n ∷ p ∷ post
  prev_split = s.all_is ∙ append_assoc front (n ∷ []) (p ∷ post)

  prev_out : (has front n ≡ false) × (has (p ∷ post) n ≡ false)
  prev_out =
      Distinct-append front n (p ∷ post)
        (rw (← prev_split) (Tiles-Distinct m.nodes m.base m.all (m.base + heap_size) s.tiles))

  prev_unlinked : drop_node n m.all ≡ front ++ p ∷ post
  prev_unlinked = ap (drop_node n) prev_split ∙ drop_node-append n front (p ∷ post) prev_out.0

  pub prev_ne : n ≢ p
  unfolding has
  prev_ne e = ground (arith, prev_out.1)

  prev_meets : addr_of m n + size_of m n ≡ addr_of m p
  prev_meets =
      let (c, t, u) =
        Tiles-append m.nodes m.base front (n ∷ p ∷ post) (m.base + heap_size)
          (rw (← prev_split) s.tiles) in
      omega (arith, u.0, u.2.0)

  front_out : has front p ≡ false
  unfolding has
  front_out = ground (arith, has-append front (n ∷ []) p, (Loose-out s).0)

  module _ (v : HeapNode) (flag : v.is_alloc ≡ (m.nodes p).is_alloc) (at : v.addr ≡ addr_of m n)
      (wide : v.size ≡ size_of m p + size_of m n) where
    prev-Tiles : Tiles (update m.nodes p v) m.base (drop_node n m.all) (m.base + heap_size)
    prev-Tiles =
        let (c, t, u) =
          Tiles-append m.nodes m.base front (n ∷ p ∷ post) (m.base + heap_size)
            (rw (← prev_split) s.tiles) in
        let here : update m.nodes p v p ≡ v = ground arith in
        rw prev_unlinked (
          append-Tiles (update m.nodes p v) m.base front (p ∷ post) (m.base + heap_size) c
            (Tiles-update m.nodes p v m.base front c front_out t)
            (
              rw here (omega (arith, u.0)),
              rw here (omega (arith, u.1)),
              Tiles-update m.nodes p v (c + (update m.nodes p v p).size) post (m.base + heap_size)
                  (Loose-out s).1
                  (Tiles-from m.nodes (c + size_of m n + size_of m p)
                    (c + (update m.nodes p v p).size) post (m.base + heap_size)
                    (rw here (omega arith)) u.2.2),
            ))

    pub prev-Grown : Grown m (joined s n n_free prev_ne v flag) p front post
    prev-Grown = record {
      loose =
          joined-Loose s n n_free prev_ne v flag front post prev_unlinked prev-Tiles
            (Merged-append (is_free m) front n [] s.before).0 s.behind;
      keeps = joined-Keeps s n n_free prev_ne v flag;
      covers = (ground (arith, at, prev_meets), ground (arith, at, wide, prev_meets));
      flags =
          λ q ne. ap (λ (x : HeapNode). x.is_alloc) (joined_nodes s n n_free prev_ne v flag q ne);
    }
