-- ===== src/Memory/Take.antt =====
-- `heap_get_free_node` on a heap: a block is given out.
pub mod Given
use egui.Prelude.{
  ℕ, ◌≤◌, ◌<◌, ◌+◌, ◌-◌, true, false, ◌||◌, ◌&&◌, not, List, ◌∷◌, ◌++◌, ◌==◌, ◌≡◌, ◌≢◌, arith, refl,
  sym, inl, inr, ap, ◌∙◌, ◌⊎◌, lt→ltb, le→ltb, lt_or_ge,
}
use egui.Memory.Links.{Ptr, has, put_before}
use egui.Memory.Links.Laws.{has-append, has-split, has-first_of, has-last_of, put_before-append}
use egui.Memory.Spans.{
  Tiles, Tiles-append, Tiles-within, append-Tiles, Tiles-congr, Tiles-from, Tiles-disjoint,
}
use egui.Memory.Merged.{Merged-first, Merged-tail, Merged-append, Merged-cons, Merged-congr}
use egui.Memory.Free.{FreeTables, FreeTables-frame, FreeTables-insert}
use egui.Memory.Free.Delete.{FreeTables-delete, heap_free_tables_delete-frame}
use egui.Memory.Used.{AllocTables-frame}
use egui.Memory.Inv.{
  IsHeap, Loose, Bounded, is_free, is_used, Loose-out, Loose-in, Loose-has, Loose-within,
  alloc_insert-IsHeap,
}
use egui.Memory.{
  HeapNode, MemoryHeap, heap_size, size_of, addr_of, heap_free_tables_insert,
  heap_free_tables_delete, heap_alloc_tables_insert, split, take_node, update,
}

-- What a call leaves alone: the blocks in use, other than one node's.
pub record Keeps (m m' : MemoryHeap) (p : Ptr) : Type 0 where
  pub based : m'.base ≡ m.base
  pub uses : (q : Ptr) → q ≢ p → is_used m' q ≡ is_used m q
  pub stays : (q : Ptr) → q ≢ p → is_used m q ≡ true → m'.nodes q ≡ m.nodes q

-- A free node leaves its table.
module _ {m : MemoryHeap} (v : IsHeap m) (p : Ptr) (pre post : List Ptr)
    (all_is : m.all ≡ pre ++ p ∷ post) (h : is_free m p ≡ true) where
  abbrev d : MemoryHeap
  d = heap_free_tables_delete m p

  has_all : (q : Ptr) → has m.all q ≡ (has pre q || (p == q || has post q))
  unfolding has
  has_all q = ap (λ l. has l q) all_is ∙ has-append pre (p ∷ post) q

  nodes_same : (q : Ptr) → d.nodes q ≡ m.nodes q
  nodes_same q = ap (λ (f : Ptr → HeapNode). f q) (heap_free_tables_delete-frame m p).0

  free_same : (q : Ptr) → is_free d q ≡ is_free m q
  free_same q = rw ((heap_free_tables_delete-frame m p).1, nodes_same q) refl

  pub used_same : (q : Ptr) → is_used d q ≡ is_used m q
  used_same q = rw ((heap_free_tables_delete-frame m p).1, nodes_same q) refl

  pub delete-Keeps : (r : Ptr) → Keeps m d r
  delete-Keeps r = record {
    based = (heap_free_tables_delete-frame m p).3;
    uses = λ q ne. used_same q;
    stays = λ q ne k. nodes_same q;
  }

  pub delete-Loose : Loose d p pre post × Bounded d pre post
  delete-Loose =
      let (nodes, all, tables, base) = heap_free_tables_delete-frame m p in
      let (before, left, behind) = Merged-append (is_free m) pre p post (rw (← all_is) v.merged) in
      (
        record {
          all_is = all ∙ all_is;
          tiles = rw (all, nodes, base) v.tiles;
          free =
              FreeTables-frame d (λ q. is_free d q && not (q == p)) (FreeTables-delete v.free p h)
                refl refl (λ q. rw (free_same q) refl) (λ q k. refl);
          used =
              AllocTables-frame d (λ q. is_used d q && not (q == p)) v.used tables base
                (λ q. ground (arith, used_same q, h))
                (λ q k. ap (λ (n : HeapNode). n.addr) (nodes_same q));
          before = Merged-congr (is_free m) (is_free d) pre (λ q k. free_same q) before;
          behind =
              Merged-congr (is_free m) (is_free d) post (λ q k. free_same q)
                (Merged-tail (is_free m) p post behind);
        },
        record {
          prev_used =
              λ q e. rw (nodes_same q) (ground (arith, left q e, h, has_all q, has-last_of pre e));
          next_used = λ q e. rw (nodes_same q) (
              ground (
                arith,
                Merged-first (is_free m) p post behind q e,
                h,
                has_all q,
                has-first_of post e,
              ));
        },
      )

-- A loose node is split: `new` takes its first bytes and is loose instead.
module _ {m : MemoryHeap} {p : Ptr} {pre post : List Ptr} (s : Loose m p pre post)
    (b : Bounded m pre post) (size : ℕ) (new : Ptr) (pos : 0 < size) (less : size < size_of m p)
    (fresh : has m.all new ≡ false) where
  -- `split` before the rest of the node goes into its table.
  abbrev cut : MemoryHeap
  cut = record m {
    nodes =
        update (update m.nodes new (record (m.nodes new) { addr = addr_of m p; size = size })) p
          (record (m.nodes p) { addr = addr_of m p + size; size = size_of m p - size });
    all = put_before p new m.all;
  }

  ne_new : (q : Ptr) → has m.all q ≡ true → q ≢ new
  ne_new q h e = cc (h, e, fresh)

  cut_all : cut.all ≡ pre ++ new ∷ p ∷ post
  cut_all = ap (put_before p new) s.all_is ∙ put_before-append p new pre post (Loose-out s).0

  cut_has : (q : Ptr) → has cut.all q ≡ (new == q || has m.all q)
  unfolding has
  cut_has q =
      ap (λ l. has l q) cut_all
      ∙ (has-append pre (new ∷ p ∷ post) q ∙ ground (arith, Loose-has s q))

  elsewhere : (q : Ptr) → (new == q) ≡ false → q ≢ p → cut.nodes q ≡ m.nodes q
  elsewhere q a ne = ground arith

  new_ne : new ≢ p
  new_ne e = cc (e, fresh, Loose-in s)

  at_new : ((cut.nodes new).addr ≡ addr_of m p) × ((cut.nodes new).size ≡ size)
  at_new = (ground (arith, new_ne), ground (arith, new_ne))

  at_old : ((cut.nodes p).addr ≡ addr_of m p + size) × ((cut.nodes p).size ≡ size_of m p - size)
  at_old = (ground arith, ground arith)

  -- Nodes that the split does not touch.
  cut_frame :
      (l : List Ptr) (x y : ℕ)
      → ((q : Ptr) → has l q ≡ true → (q ≢ p) × (q ≢ new))
      → Tiles m.nodes x l y
      → Tiles cut.nodes x l y
  cut_frame l x y apart =
      Tiles-congr m.nodes cut.nodes x l y
        (λ q h. (ground (arith, apart q h), ground (arith, apart q h)))

  apart_pre : (q : Ptr) → has pre q ≡ true → (q ≢ p) × (q ≢ new)
  apart_pre q h = (λ e. cc (h, e, (Loose-out s).0), ne_new q (ground (arith, Loose-has s q)))

  apart_post : (q : Ptr) → has post q ≡ true → (q ≢ p) × (q ≢ new)
  apart_post q h = (λ e. cc (h, e, (Loose-out s).1), ne_new q (ground (arith, Loose-has s q)))

  cut-Tiles : Tiles cut.nodes m.base cut.all (m.base + heap_size)
  cut-Tiles =
      let (c, t, u) =
        Tiles-append m.nodes m.base pre (p ∷ post) (m.base + heap_size) (rw (← s.all_is) s.tiles) in
      rw cut_all (
        append-Tiles cut.nodes m.base pre (new ∷ p ∷ post) (m.base + heap_size) c
          (cut_frame pre m.base c apart_pre t)
          (
            omega (arith, at_new, u.0),
            omega (arith, at_new),
            (
              omega (arith, at_old, at_new, u.0),
              omega (arith, at_old),
              Tiles-from cut.nodes (c + size_of m p) (c + (cut.nodes new).size + (cut.nodes p).size)
                  post (m.base + heap_size) (omega (arith, at_old, at_new))
                  (cut_frame post (c + size_of m p) (m.base + heap_size) apart_post u.2),
            ),
          ))

  cut-FreeTables : FreeTables cut (λ q. is_free m q && not (q == p))
  cut-FreeTables =
      FreeTables-frame cut (λ q. is_free m q && not (q == p)) s.free refl refl (λ q. refl)
        (λ q h. ground (arith, ne_new q))

  -- After a split the first part is loose, with a free node behind it.
  pub split-Loose : Loose (split m p size new) new pre (p ∷ post)
  unfolding split heap_free_tables_insert
  split-Loose =
      let m' = split m p size new in
      record {
        all_is = cut_all;
        tiles =
            Tiles-congr cut.nodes m'.nodes m.base cut.all (m.base + heap_size)
              (λ q h. (ground arith, ground arith)) cut-Tiles;
        free =
            FreeTables-frame m' (λ q. is_free m' q && not (q == new))
              (FreeTables-insert cut-FreeTables p (ground arith) (omega (arith, at_old))
                (omega (arith, at_old, Loose-within s)))
              refl refl (λ q. ground (arith, cut_has q, fresh, new_ne, Loose-in s)) (λ q h. refl);
        used =
            AllocTables-frame m' (λ q. is_used m' q && not (q == new)) s.used refl refl
              (λ q. ground (arith, cut_has q, fresh, new_ne, Loose-in s))
              (λ q h. ground (arith, ne_new q));
        before =
            Merged-congr (is_free m) (is_free m') pre
              (λ q h. ground (arith, cut_has q, apart_pre q h)) s.before;
        behind =
            Merged-cons (is_free m') p post
              (λ q e.
                ground (arith, cut_has q, b.next_used q e, apart_post q (has-first_of post e)))
              (Merged-congr (is_free m) (is_free m') post
                (λ q h. ground (arith, cut_has q, apart_post q h)) s.behind);
      }

  pub split-new :
      (size_of (split m p size new) new ≡ size) × (has (split m p size new).all new ≡ true)
  unfolding split heap_free_tables_insert
  split-new = (ground (arith, new_ne), rw (cut_has new) (ground arith))

  pub split-Keeps : is_used m p ≡ false → Keeps m (split m p size new) new
  unfolding split heap_free_tables_insert
  split-Keeps idle = record {
    based = refl;
    uses = λ q ne. ground (arith, cut_has q, new_ne, Loose-in s);
    stays = λ q ne h. ground (arith, ne_new q);
  }

-- A loose node is given out.
pub alloc_insert-Keeps : (m : MemoryHeap) (p : Ptr) → Keeps m (heap_alloc_tables_insert m p) p
unfolding heap_alloc_tables_insert
alloc_insert-Keeps m p = record {
  based = refl;
  uses = λ q ne. ground arith;
  stays = λ q ne h. ground arith;
}

module _ (m : MemoryHeap) (p : Ptr) where
  pub alloc_insert-at : size_of (heap_alloc_tables_insert m p) p ≡ size_of m p
  unfolding heap_alloc_tables_insert
  alloc_insert-at = ground arith

  pub alloc_insert-used : is_used (heap_alloc_tables_insert m p) p ≡ has m.all p
  unfolding heap_alloc_tables_insert
  alloc_insert-used = ground arith

pub Keeps-trans : {m m' m'' : MemoryHeap} {p : Ptr} → Keeps m m' p → Keeps m' m'' p → Keeps m m'' p
Keeps-trans {p} k l = record {
  based = l.based ∙ k.based;
  uses = λ q ne. l.uses q ne ∙ k.uses q ne;
  stays = λ q ne h. l.stays q ne (k.uses q ne ∙ h) ∙ k.stays q ne h;
}
