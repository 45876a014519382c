-- ===== src/Memory/Free/Delete.antt =====
-- A node leaves the tables of free nodes, and the greatest size that is left is found.
use egui.Prelude.{
  ℕ, zero, suc, ◌≤◌, ◌<◌, Bool, true, false, ◌&&◌, not, Option, none, some, List, [], ◌∷◌, ◌++◌,
  ◌==◌, ◌≡◌, ◌≢◌, ◌⊎◌, arith, refl, sym, Bool-cases, Option-cases, inl, inr, ap, ==-cases, ◌∙◌,
  lt_or_ge,
}
use egui.Memory.Links.{Ptr, has, drop_node, next_of, prev_of, last_of}
use egui.Memory.Links.Laws.{
  first_of, has-append, has-drop_node, has-split, next_of-append, prev_of-append, has-last_of,
  last_of-none, Distinct-append, has-first_of, first_of-none,
}
use egui.Memory.Classes.{
  size_to_free_index, size_to_free_index-lt, size_to_free_index_mono, free_tables_size,
}
use egui.Memory.Sorted.{
  IsSorted, IsSorted-Distinct, IsSorted-drop_node, IsSorted-append, last_of-AtMost,
}
use egui.Memory.Free.{IsGreatest, FreeTables}
use egui.Memory.{
  MemoryHeap, size_of, heap_size, update, heap_free_tables_delete, set_free_max, top_size,
}

set_free_max-frame :
    (m : MemoryHeap) (p : Ptr) (next prev : Option Ptr)
    → set_free_max m p next prev ≡ record m { free_max = (set_free_max m p next prev).free_max }
unfolding set_free_max
set_free_max-frame m p (some n) prev = refl
set_free_max-frame m p none (some q) = ground arith
set_free_max-frame m p none none = ground arith

module _ (m : MemoryHeap) (set : Ptr → Bool)
    (sized : (p : Ptr) → set p ≡ true → (0 < size_of m p) × (size_of m p ≤ heap_size)) where
  -- A node in a lower table is smaller.
  pub lower-lt :
      (p q : Ptr)
      → set p ≡ true
      → set q ≡ true
      → size_to_free_index (size_of m p) < size_to_free_index (size_of m q)
      → size_of m p < size_of m q
  lower-lt p q h k lower = elim (lt_or_ge (size_of m p) (size_of m q)) [
    | inl less ↦ less
    | inr more ↦ absurd (
        omega (
          arith,
          sized p h,
          sized q k,
          size_to_free_index_mono (size_of m q) (size_of m p) (sized q k).0 more
              (omega (arith, sized p h)),
        ))
  ]

  module _
      (filed : (i : ℕ) (p : Ptr)
        → has (m.free_tables i) p ≡ (set p && (size_to_free_index (size_of m p) == i)))
      (ordered : (i : ℕ) → IsSorted m.nodes (m.free_tables i)) where
    -- What the scan down from the table before `n` finds.
    record Scanned (n top : ℕ) : Type 0 where
      above : (p : Ptr) → set p ≡ true → size_to_free_index (size_of m p) < n → size_of m p ≤ top
      met :
          (((p : Ptr) → set p ≡ true → n ≤ size_to_free_index (size_of m p)) × (top ≡ 0))
          ⊎ ((p : Ptr) × (set p ≡ true) × (size_of m p ≡ top))

    table_empty :
        (n : ℕ) → last_of (m.free_tables n) ≡ none → (p : Ptr) → has (m.free_tables n) p ≡ false
    unfolding has
    table_empty n e p = rw (last_of-none (m.free_tables n) e) refl

    elsewhere :
        (n : ℕ)
        → ((p : Ptr) → has (m.free_tables n) p ≡ false)
        → (p : Ptr) → set p ≡ true
        → size_to_free_index (size_of m p) ≢ n
    elsewhere n empty p h same = ground (arith, filed n p, empty p)

    Scanned-empty :
        (n top : ℕ)
        → ((p : Ptr) → has (m.free_tables n) p ≡ false)
        → Scanned n top
        → Scanned (suc n) top
    Scanned-empty n top empty s = record {
      above = λ p h k. s.above p h (omega (arith, elsewhere n empty p h));
      met = elim s.met [
        | inl (none_below, zero_top) ↦
            inl (λ p h. omega (arith, none_below p h, elsewhere n empty p h), zero_top)
        | inr found ↦ inr found
      ];
    }

    top_size-Scanned : (n : ℕ) → Scanned n (top_size m.nodes m.free_tables n)
    unfolding top_size
    top_size-Scanned zero = record {
      above = λ p h k. absurd (omega arith);
      met = inl (λ p h. omega arith, refl);
    }
    top_size-Scanned (suc n) = elim (Option-cases (last_of (m.free_tables n))) [
      | inr (q, e) ↦
          let here = has-last_of (m.free_tables n) e in
          let q_in : set q ≡ true = ground (arith, filed n q) in
          let q_at : size_to_free_index (size_of m q) ≡ n = ground (arith, filed n q) in
          rw (e, top_size)
            (record {
              above = λ p h k. elim (==-cases (size_to_free_index (size_of m p)) n) [
                | inl (_, same) ↦
                    last_of-AtMost m.nodes (m.free_tables n) (ordered n) e p
                      (rw (filed n p, h) (ground arith))
                | inr (_, other) ↦ omega (arith, lower-lt p q h q_in (omega arith))
              ];
              met = inr (q, q_in, refl);
            })
      | inl e ↦ rw (e, top_size) (Scanned-empty n _ (table_empty n e) (top_size-Scanned n))
    ]

    top_size-IsGreatest : IsGreatest m.nodes set (top_size m.nodes m.free_tables free_tables_size)
    top_size-IsGreatest =
        let s = top_size-Scanned free_tables_size in
        record {
          above = λ p h. s.above p h (size_to_free_index-lt (size_of m p));
          met = elim s.met [
            | inl (none_below, zero_top) ↦
                inl (λ p. no_one none_below p (Bool-cases (set p)), zero_top)
            | inr found ↦ inr found
          ];
        }
      where
        no_one :
            ((p : Ptr) → set p ≡ true → free_tables_size ≤ size_to_free_index (size_of m p))
            → (p : Ptr) → (set p ≡ true) ⊎ (set p ≡ false)
            → set p ≡ false
        no_one none_below p (inr e) = e
        no_one none_below p (inl e) =
            absurd (omega (arith, none_below p e, size_to_free_index-lt (size_of m p)))

module _ {m : MemoryHeap} {set : Ptr → Bool} (t : FreeTables m set) (p : Ptr)
    (is_in : set p ≡ true) where
  abbrev index : ℕ
  index = size_to_free_index (size_of m p)

  abbrev table : List Ptr
  table = m.free_tables index

  abbrev unlinked : MemoryHeap
  unlinked = record m { free_tables = update m.free_tables index (drop_node p table) }

  abbrev less : Ptr → Bool
  less q = set q && not (q == p)

  less-sized : (q : Ptr) → less q ≡ true → (0 < size_of m q) × (size_of m q ≤ heap_size)
  less-sized q h = t.sized q (ground arith)

  less-filed :
      (i : ℕ) (q : Ptr)
      → has (unlinked.free_tables i) q ≡ (less q && (size_to_free_index (size_of m q) == i))
  less-filed i q = ground (
    arith,
    t.filed i q,
    has-drop_node p table (IsSorted-Distinct m.nodes table (t.ordered index)) q,
  )

  less-ordered : (i : ℕ) → IsSorted m.nodes (unlinked.free_tables i)
  less-ordered i = elim (==-cases i index) [
    | inl (e, same) ↦ rw e (IsSorted-drop_node m.nodes p table (t.ordered index))
    | inr (e, other) ↦ rw e (t.ordered i)
  ]

  -- `free_max` may stay where another node has its size.
  kept_by :
      (q : Ptr) → less q ≡ true → size_of m q ≡ m.free_max → IsGreatest m.nodes less m.free_max
  kept_by q h e = record { above = λ r k. t.greatest.above r (ground arith); met = inr (q, h, e) }

  kept : size_of m p ≢ m.free_max → IsGreatest m.nodes less m.free_max
  kept ne = elim t.greatest.met [
    | inl (no_one, _) ↦ absurd (cc (no_one p, is_in))
    | inr (q, q_in, e) ↦ kept_by q (ground arith) e
  ]

  module _ (pre post : List Ptr) (same : table ≡ pre ++ p ∷ post) where
    in_pre :
        (q : Ptr) → has pre q ≡ true → (less q ≡ true) × (size_to_free_index (size_of m q) ≡ index)
    in_pre q h = ground (
      arith,
      has-append pre (p ∷ post) q,
      ap (λ l. has l q) same,
      t.filed index q,
      Distinct-append pre p post (rw (← same) (IsSorted-Distinct m.nodes table (t.ordered index))),
    )

    in_post : (q : Ptr) → has post q ≡ true → (less q ≡ true) × (size_of m p ≤ size_of m q)
    unfolding has
    in_post q h =
        let sorted = (IsSorted-append m.nodes pre (p ∷ post) (rw (← same) (t.ordered index))).1 in
        (
          ground (
            arith,
            has-append pre (p ∷ post) q,
            ap (λ l. has l q) same,
            t.filed index q,
            sorted.0,
          ),
          sorted.1 q h,
        )

    -- Whoever is left in the table of the last node stands before it.
    before :
        (q : Ptr)
        → post ≡ []
        → less q ≡ true
        → size_to_free_index (size_of m q) ≡ index
        → has pre q ≡ true
    unfolding has
    before q none_after h at = ground (
      arith,
      has-append pre (p ∷ post) q,
      ap (λ l. has l q) same,
      ap (λ l. has l q) none_after,
      t.filed index q,
    )

    -- Where the node has the greatest size, no node is in a higher table.
    not_higher :
        (q : Ptr)
        → less q ≡ true
        → size_of m p ≡ m.free_max
        → size_to_free_index (size_of m q) ≤ index
    not_higher q h e =
        size_to_free_index_mono (size_of m q) (size_of m p) (less-sized q h).0
          (ground (arith, t.greatest.above q)) (omega (arith, t.sized p is_in))

    set_free_max-IsGreatest :
        (next prev : Option Ptr)
        → first_of post ≡ next
        → last_of pre ≡ prev
        → IsGreatest m.nodes less (set_free_max unlinked p next prev).free_max
    unfolding set_free_max
    set_free_max-IsGreatest (some n) prev e f =
        let (n_in, n_ge) = in_post n (has-first_of post e) in
        elim t.greatest.met [
          | inl (no_one, _) ↦ absurd (cc (no_one p, is_in))
          | inr (q, q_in, met) ↦ elim (==-cases q p) [
            | inl (_, at) ↦ kept_by n n_in (ground (arith, t.greatest.above n))
            | inr (_, off) ↦ kept_by q (ground arith) met
          ]
        ]
    set_free_max-IsGreatest none (some q) e f = elim (==-cases (size_of m p) m.free_max) [
      | inr (test, ne) ↦ rw test (kept ne)
      | inl (test, top) ↦
          let (q_in, q_at) = in_pre q (has-last_of pre f) in
          rw test (record {
            above = λ r h. elim (==-cases (size_to_free_index (size_of m r)) index) [
              | inl (_, at) ↦
                  last_of-AtMost m.nodes pre
                    (IsSorted-append m.nodes pre (p ∷ post) (rw (← same) (t.ordered index))).0 f r
                    (before r (first_of-none post e) h at)
              | inr (_, off) ↦ omega (
                arith,
                not_higher r h top,
                lower-lt m less less-sized r q h q_in (omega (arith, not_higher r h top)),
              )
            ];
            met = inr (q, q_in, refl);
          })
    ]
    set_free_max-IsGreatest none none e f = elim (==-cases (size_of m p) m.free_max) [
      | inr (test, ne) ↦ rw test (kept ne)
      | inl (test, top) ↦
          rw test (top_size-IsGreatest unlinked less less-sized less-filed less-ordered)
    ]

  deleted-IsGreatest :
      IsGreatest m.nodes less (set_free_max unlinked p (next_of p table) (prev_of p table)).free_max
  deleted-IsGreatest =
      let (pre, post, same) = has-split table p (rw (t.filed index p, is_in) (ground arith)) in
      let (out_pre, out_post) =
        Distinct-append pre p post
          (rw (← same) (IsSorted-Distinct m.nodes table (t.ordered index))) in
      set_free_max-IsGreatest pre post same (next_of p table) (prev_of p table)
        (sym (ap (next_of p) same ∙ next_of-append p pre post out_pre))
        (sym (ap (prev_of p) same ∙ prev_of-append p pre post out_pre out_post))

  -- `heap_free_tables_delete` takes a node out of the tables.
  pub FreeTables-delete : FreeTables (heap_free_tables_delete m p) less
  unfolding heap_free_tables_delete
  FreeTables-delete =
      rw (set_free_max-frame unlinked p (next_of p table) (prev_of p table)) (record {
        sized = less-sized;
        filed = less-filed;
        ordered = less-ordered;
        greatest = deleted-IsGreatest;
      })

-- Nothing but the tables changes.
pub heap_free_tables_delete-frame :
    (m : MemoryHeap) (p : Ptr)
    → let d = heap_free_tables_delete m p in
      (d.nodes ≡ m.nodes) × (d.all ≡ m.all) × (d.alloc_tables ≡ m.alloc_tables) × (d.base ≡ m.base)
unfolding heap_free_tables_delete
heap_free_tables_delete-frame m p =
    let table = m.free_tables (size_to_free_index (size_of m p)) in
    let e =
      set_free_max-frame
        (record m {
          free_tables = update m.free_tables (size_to_free_index (size_of m p)) (drop_node p table);
        })
        p (next_of p table) (prev_of p table) in
    (
      ap (λ (h : MemoryHeap). h.nodes) e,
      ap (λ (h : MemoryHeap). h.all) e,
      ap (λ (h : MemoryHeap). h.alloc_tables) e,
      ap (λ (h : MemoryHeap). h.base) e,
    )
