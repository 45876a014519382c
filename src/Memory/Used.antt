-- ===== src/Memory/Used.antt =====
-- The tables of nodes in use: what they hold, and how a node comes and goes.
use egui.Prelude.{
  ℕ, Bool, true, false, ◌||◌, ◌&&◌, not, some, List, [], ◌∷◌, ◌==◌, ltb, ◌≡◌, arith, refl,
  Bool-cases, ==-cases, inl, inr,
}
use egui.Memory.Links.{Ptr, has, drop_node}
use egui.Memory.Links.Laws.{Distinct, has-drop_node, Distinct-drop_node}
use egui.Memory.{
  HeapNode, MemoryHeap, addr_of, page_of, update, put_by_addr, heap_alloc_tables_insert, find_addr,
  alloc_tables_find_node,
}

-- The tables hold the nodes of the set, each in the table for its page.
pub record AllocTables (m : MemoryHeap) (set : Ptr → Bool) : Type 0 where
  pub filed : (i : ℕ) (p : Ptr) → has (m.alloc_tables i) p ≡ (set p && (page_of m p == i))
  pub distinct : (i : ℕ) → Distinct (m.alloc_tables i)

-- A change of the heap that the tables do not see.
pub AllocTables-frame :
    {m : MemoryHeap} {set : Ptr → Bool} (m' : MemoryHeap) (set' : Ptr → Bool)
    → AllocTables m set
    → (m'.alloc_tables ≡ m.alloc_tables)
    → (m'.base ≡ m.base)
    → ((p : Ptr) → set' p ≡ set p)
    → ((p : Ptr) → set p ≡ true → addr_of m' p ≡ addr_of m p)
    → AllocTables m' set'
AllocTables-frame {m} {set} m' set' t tables base sets addrs = record {
  filed = λ i p. elim (Bool-cases (set p)) [
    | inl e ↦ rw (tables, t.filed i p, sets p, e, addrs p e, base) refl
    | inr e ↦ rw (tables, t.filed i p, sets p, e) refl
  ];
  distinct = λ i. rw tables (t.distinct i);
}

module _ (nodes : Ptr → HeapNode) (p : Ptr) where
  has-put_by_addr : (l : List Ptr) (q : Ptr) → has (put_by_addr nodes p l) q ≡ (p == q || has l q)
  unfolding has put_by_addr
  has-put_by_addr [] q = refl
  has-put_by_addr (r ∷ l) q = ground (arith, has-put_by_addr l q)

  Distinct-put_by_addr :
      (l : List Ptr) → has l p ≡ false → Distinct l → Distinct (put_by_addr nodes p l)
  unfolding has put_by_addr
  Distinct-put_by_addr [] h d = (refl, tt)
  Distinct-put_by_addr (q ∷ l) h d = elim (Bool-cases (ltb (nodes q).addr (nodes p).addr)) [
    | inl e ↦
        rw e (
          rw (has-put_by_addr l q) (ground (arith, d.0)),
          Distinct-put_by_addr l (ground arith) d.1,
        )
    | inr e ↦ rw e (h, d)
  ]

module _ {m : MemoryHeap} {set : Ptr → Bool} (t : AllocTables m set) (p : Ptr) where
  abbrev index : ℕ
  index = page_of m p

  pub AllocTables-insert :
      set p ≡ false → AllocTables (heap_alloc_tables_insert m p) (λ q. set q || p == q)
  unfolding heap_alloc_tables_insert
  AllocTables-insert out =
      AllocTables-frame (heap_alloc_tables_insert m p) (λ q. set q || p == q) inserted refl refl
        (λ q. refl) (λ q h. ground arith)
    where
      m' : MemoryHeap
      m' = record m {
        alloc_tables = update m.alloc_tables index (put_by_addr m.nodes p (m.alloc_tables index));
      }

      inserted : AllocTables m' (λ q. set q || p == q)
      inserted = record {
        filed = λ i q. ground (arith, t.filed i q, has-put_by_addr m.nodes p (m.alloc_tables i) q);
        distinct = λ i. elim (==-cases i index) [
          | inl (e, same) ↦ rw e (
              Distinct-put_by_addr m.nodes p (m.alloc_tables index)
                (ground (arith, t.filed index p)) (t.distinct index))
          | inr (e, other) ↦ rw e (t.distinct i)
        ];
      }

  pub AllocTables-delete :
      AllocTables
        (record m {
          alloc_tables = update m.alloc_tables index (drop_node p (m.alloc_tables index));
        })
        (λ q. set q && not (q == p))
  AllocTables-delete = record {
    filed = λ i q.
        ground (arith, t.filed i q, has-drop_node p (m.alloc_tables index) (t.distinct index) q);
    distinct = λ i. elim (==-cases i index) [
      | inl (e, same) ↦ rw e (Distinct-drop_node p (m.alloc_tables index) (t.distinct index))
      | inr (e, other) ↦ rw e (t.distinct i)
    ];
  }

-- The search for an address finds the only node there.
find_addr-some :
    (nodes : Ptr → HeapNode) (addr : ℕ) (l : List Ptr) (p : Ptr)
    → has l p ≡ true
    → (nodes p).addr ≡ addr
    → ((q : Ptr) → has l q ≡ true → (nodes q).addr ≡ addr → q ≡ p)
    → find_addr nodes addr l ≡ some p
unfolding has find_addr
find_addr-some nodes addr [] p h e only = absurd (cc h)
find_addr-some nodes addr (q ∷ l) p h e only = elim (==-cases (nodes q).addr addr) [
  | inl (t, same) ↦ rw (t, only q (ground arith) same) refl
  | inr (t, other) ↦
      rw t (find_addr-some nodes addr l p (ground (arith, e)) e (λ r k. only r (ground arith)))
]

pub alloc_tables_find_node-some :
    {m : MemoryHeap} {set : Ptr → Bool} (t : AllocTables m set) (p : Ptr)
    → set p ≡ true
    → ((q : Ptr) → set q ≡ true → addr_of m q ≡ addr_of m p → q ≡ p)
    → alloc_tables_find_node m (page_of m p) (addr_of m p) ≡ some p
unfolding alloc_tables_find_node
alloc_tables_find_node-some {m} {set} t p h only =
    find_addr-some m.nodes (addr_of m p) (m.alloc_tables (page_of m p)) p
      (rw (t.filed (page_of m p) p, h) (ground arith)) refl
      (λ q k. only q (ground (arith, t.filed (page_of m p) q)))
