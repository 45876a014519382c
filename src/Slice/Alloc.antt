-- ===== src/Slice/Alloc.antt =====
-- `e_slice_alloc`: a place is given out.
use egui.Prelude.{
  ◌+◌, ℕ, ◌-◌, ◌<◌, false, List, [], ◌∷◌, ◌==◌, if◌then◌else◌, ◌≡◌, arith, refl, inl, inr,
  Bool-cases, List-cases,
}
use egui.Slice.{
  SliceNode, SliceHead, addr_at, take_place, new_node, half_add_tail, slice_half_alloc,
  slice_free_alloc, slice_alloc,
}
use egui.Slice.Places.{free_places, among, Places, take-places, new_node-Places, new_node-among}
use egui.Slice.Inv.{
  Every, Ordered, IsHalf, IsFree, IsSlice, Every-imp, Every-eq, Ordered-eq, Places-eq,
}

-- The address is that of the first free place of the node `n`, which is `n'` without it.
pub record Takes (h : SliceHead) (addr : ℕ) (n n' : SliceNode) : Type 0 where
  pub place : ℕ
  pub at : addr ≡ addr_at h n place
  pub lies : place < h.num
  pub base : n'.base ≡ n.base
  pub count : n'.free_num + 1 ≡ n.free_num
  pub places : free_places n ≡ place ∷ free_places n'
  pub gone : among (free_places n') place ≡ false
  pub rest : Places h.num (free_places n')

take_count : (n : SliceNode) → (take_place n).free_num ≡ n.free_num - 1
unfolding take_place
take_count n = refl

take_base : (n : SliceNode) → (take_place n).base ≡ n.base
unfolding take_place
take_base n = refl

take-Takes :
    (h : SliceHead) (n : SliceNode)
    → 0 < n.free_num
    → Places h.num (free_places n)
    → Takes h (addr_at h n n.index) n (take_place n)
take-Takes h n pos ok =
    let e = take-places n pos in
    let ok' = Places-eq h.num (free_places n) (n.index ∷ free_places (take_place n)) e ok in
    record {
      place = n.index;
      at = refl;
      lies = ok'.0;
      base = take_base n;
      count = omega (arith, take_count n);
      places = e;
      gone = ok'.1;
      rest = ok'.2;
    }

-- A node that was made at `base`, of whose places the first one is given out and all others are free.
pub record IsNew (num base : ℕ) (n : SliceNode) : Type 0 where
  pub at : n.base ≡ base
  pub count : n.free_num + 1 ≡ num
  pub gone : among (free_places n) 0 ≡ false
  pub rest : Places num (free_places n)

-- Where `e_slice_alloc` finds a place, and what the lists are then: in the first half node, which goes
-- to the full ones if that was its last free place; else in the first free one, which becomes the
-- only half one; else in the node that it makes.
pub data Source (h : SliceHead) (base addr : ℕ) (h' : SliceHead) : Type 0 where
  from_half :
      {n n' : SliceNode} {l : List SliceNode}
      → h.half ≡ n ∷ l
      → Takes h addr n n'
      → 0 < n'.free_num
      → h'.half ≡ n' ∷ l
      → h'.fill ≡ h.fill
      → h'.free ≡ h.free
      → Source h base addr h'
  from_last :
      {n n' : SliceNode} {l : List SliceNode}
      → h.half ≡ n ∷ l
      → Takes h addr n n'
      → n'.free_num ≡ 0
      → h'.half ≡ l
      → h'.fill ≡ n' ∷ h.fill
      → h'.free ≡ h.free
      → Source h base addr h'
  from_free :
      {n n' : SliceNode} {l : List SliceNode}
      → h.half ≡ []
      → h.free ≡ n ∷ l
      → Takes h addr n n'
      → h'.half ≡ n' ∷ []
      → h'.fill ≡ h.fill
      → h'.free ≡ l
      → Source h base addr h'
  from_new :
      {n' : SliceNode}
      → h.half ≡ []
      → h.free ≡ []
      → addr ≡ base
      → IsNew h.num base n'
      → h'.half ≡ n' ∷ []
      → h'.fill ≡ h.fill
      → h'.free ≡ []
      → Source h base addr h'

new_node-IsNew : (num base : ℕ) → 0 < num → IsNew num base (new_node num base)
new_node-IsNew num base pos = record {
  at = refl;
  count = omega arith;
  gone = new_node-among num base;
  rest = new_node-Places num base pos;
}

module _ (h : SliceHead) (base : ℕ) where
  alloc_half :
      (n : SliceNode) (l : List SliceNode)
      → h.half ≡ n ∷ l
      → slice_alloc h base ≡ (
        addr_at h n n.index,
        if (take_place n).free_num == 0
            then record h { half = l; fill = take_place n ∷ h.fill }
            else record h { half = take_place n ∷ l },
      )
  unfolding slice_alloc slice_half_alloc
  alloc_half n l e = rw (e, slice_half_alloc) refl

  alloc_free :
      (n : SliceNode) (l : List SliceNode)
      → h.half ≡ []
      → h.free ≡ n ∷ l
      → slice_alloc h base ≡ (addr_at h n n.index, record h { free = l; half = take_place n ∷ [] })
  unfolding slice_alloc slice_half_alloc slice_free_alloc half_add_tail
  alloc_free n l e f = rw (e, f) refl

  alloc_new :
      h.half ≡ []
      → h.free ≡ []
      → slice_alloc h base ≡ (base, record h { half = new_node h.num base ∷ []; free = [] })
  unfolding slice_alloc slice_half_alloc slice_free_alloc half_add_tail
  alloc_new e f = ground arith

  -- What the call leaves.
  abbrev pub Allocated : ℕ × SliceHead → Type 0
  Allocated r = IsSlice r.1 × Source h base r.0 r.1 × (r.1.size ≡ h.size) × (r.1.num ≡ h.num)

  half_kept :
      (n : SliceNode) (l : List SliceNode)
      → IsSlice h
      → h.half ≡ n ∷ l
      → Every (IsHalf h.num) (n ∷ l)
      → Ordered (n ∷ l)
      → Allocated (
        addr_at h n n.index,
        if (take_place n).free_num == 0
            then record h { half = l; fill = take_place n ∷ h.fill }
            else record h { half = take_place n ∷ l },
      )
  half_kept n l v first a o =
      let t = take-Takes h n a.0.0 a.0.2 in
      elim (Bool-cases ((take_place n).free_num == 0)) [
        | inl e ↦ rw e (
          record {
            wide = v.wide;
            places = v.places;
            fill = (ground arith, v.fill);
            half = a.1;
            free = v.free;
            ordered = o.1;
          },
          from_last first t (ground arith) refl refl refl,
          refl,
          refl,
        )
        | inr e ↦ rw e (
          record {
            wide = v.wide;
            places = v.places;
            fill = v.fill;
            half = ((ground arith, ground (arith, take_count n), t.rest), a.1);
            free = v.free;
            ordered = (Every-imp l (λ k less. omega (arith, take_count n)) o.0, o.1);
          },
          from_half first t (ground arith) refl refl refl,
          refl,
          refl,
        )
      ]

  -- On a valid slice, `e_slice_alloc` leaves a valid slice, and its address is that of a free
  -- place in the first half node, else in the first free one, else the first place of a new node.
  -- In the lists that it leaves, that node has the other places that were free, and this one no
  -- more: it is the first half node, the only one if it was free or new, or the first full one if
  -- that was its last place. All other nodes stay where they are.
  pub slice_alloc-IsSlice : IsSlice h → Allocated (slice_alloc h base)
  slice_alloc-IsSlice v = elim (List-cases h.half) [
    | inr (n, l, e) ↦
        let a : Every (IsHalf h.num) (n ∷ l) = Every-eq (IsHalf h.num) h.half (n ∷ l) e v.half in
        rw (alloc_half n l e) (half_kept n l v e a (Ordered-eq h.half (n ∷ l) e v.ordered))
    | inl e ↦ elim (List-cases h.free) [
      | inr (n, l, f) ↦
          let a : Every (IsFree h.num) (n ∷ l) = Every-eq (IsFree h.num) h.free (n ∷ l) f v.free in
          let t = take-Takes h n (omega (arith, a.0.0, v.places)) a.0.1 in
          rw (alloc_free n l e f) (
            record {
              wide = v.wide;
              places = v.places;
              fill = v.fill;
              half = (
                (
                  omega (arith, take_count n, a.0.0, v.places),
                  omega (arith, take_count n, a.0.0, v.places),
                  t.rest,
                ),
                tt,
              );
              free = a.1;
              ordered = (tt, tt);
            },
            from_free e f t refl refl refl,
            refl,
            refl,
          )
      | inl f ↦
          let new = new_node-IsNew h.num base (omega (arith, v.places)) in
          rw (alloc_new e f) (
            record {
              wide = v.wide;
              places = v.places;
              fill = v.fill;
              half = ((omega (arith, v.places), omega (arith, v.places), new.rest), tt);
              free = tt;
              ordered = (tt, tt);
            },
            from_new e f refl new refl refl refl,
            refl,
            refl,
          )
    ]
  ]
