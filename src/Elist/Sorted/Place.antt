-- ===== src/Elist/Sorted/Place.antt =====
-- Where the sorted insertions put the new node, as a function of the list's values.
use mathlib.Core.List.{reverse as reversed, reverse-append, reverse-reverse}
use mathlib.Core.Path.{subst, subst₂}
use egui.Prelude.{
  ℕ, zero, suc, ◌+◌, ◌≡◌, ◌≢◌, refl, sym, ap, ◌∙◌, inl, inr, Option, none, some, [], ◌∷◌, ◌++◌,
  append_assoc, arith, ◌==◌, ◌||◌, not, if◌then◌else◌, Bool, true, false, Bool-cases, length,
}
use egui.Prelude.Int.{ℤ, pos, negsuc}
use egui.Prelude.Slices.{take_all}
use egui.Heap.{Ptr, null, Node, Heap, write, Points, free-ok, Ends, ends, Ends-imp}
use egui.Heap.Chain.{Cells, cell, ◌∉◌, last, Linked-frame}
use egui.Elist.{Elist}
use egui.Elist.Insert.{
  IsList, Inserted, insert_head-IsList, insert_tail-IsList, insert_before-IsList,
  insert_after-IsList,
}
use egui.Elist.Data.{Block, alloc_node}
use egui.Elist.Data.Add.{IsList-alloc, filled, own, settle as settled}
use egui.Elist.Sorted.{Sorting, find, by_result, by_mode, insert_as, settle, add_data_by_sort}
use egui.Elist.Sorted.Find.{Cut, cut, answer, Joins, cut-Joins, find-first, find-last-take}

write_twice :
    (h : Heap) (p : Ptr) (c d : Option Node) (a : Ptr) → a ≢ p → write (write h p c) p d a ≡ h a
unfolding write
write_twice h p c d a n = ground arith

write_at : (h : Heap) (p : Ptr) (c : Option Node) → write h p c p ≡ c
unfolding write
write_at h p c = ground arith

-- The cells before the place of the new node and those behind it; `none` if it is not put in.
abbrev pub Spot : Type 0
Spot = Option (Cells × Cells)

-- The cells around a cut, in the order of the list.
abbrev pub ahead : (forward : Bool) → Cut → Cells
ahead true k = k.front
ahead false k = reversed k.back

abbrev pub behind : (forward : Bool) → Cut → Cells
behind true k = k.back
behind false k = reversed k.front

-- A result of 0 or 2 tells to insert before the node, 1 and all above 2 behind it.
unfoldable pub spot : (mode : ℤ) → (forward : Bool) → Cells → Option Cut → Spot
spot mode forward xs (some k) =
    if (k.ret == 0) || (k.ret == 2)
    then some (ahead forward k, (k.at, k.value) ∷ behind forward k)
    else some (ahead forward k ++ cell k.at k.value, behind forward k)
spot (negsuc _) forward xs none = none
spot (pos zero) forward xs none = some (xs, [])
spot (pos (suc _)) forward xs none = some ([], xs)

-- The place that `e_list_add_data_by_sort` means.
unfoldable pub place : Sorting → ℕ → Cells → Spot
unfolding spot
place s w xs =
    if not s.has_sort || (length xs == 0)
    then some (xs, [])
    else spot s.mode s.forward xs (cut (λ v. s.sort v w) (if s.forward then xs else reversed xs))

-- What an insertion at a spot leaves; without one the list is as it was, and the block is free.
abbrev pub Placed : Heap → Elist → Cells → Block → ℕ → Spot → Elist → Heap → Type 0
Placed h lt xs b w none lt' g =
    IsList g lt' xs × (lt' ≡ lt) × (g b.at ≡ none) × ((a : Ptr) → a ≢ b.at → g a ≡ h a)
Placed h lt xs b w (some (front, back)) lt' g = Inserted h lt front b.at w back lt' g

Joins-order :
    (forward : Bool) (xs : Cells) (k : Cut)
    → Joins (if forward then xs else reversed xs) k
    → xs ≡ ahead forward k ++ (k.at, k.value) ∷ behind forward k
Joins-order true xs k e = e
Joins-order false xs k e =
    sym (reverse-reverse xs)
    ∙ ap reversed e
    ∙ reverse-append k.front ((k.at, k.value) ∷ k.back)
    ∙ ap (λ t. t ++ reversed k.front) (reverse-append (cell k.at k.value) k.back)
    ∙ append_assoc (reversed k.back) (cell k.at k.value) (reversed k.front)

big_result :
    (n : ℕ)
    → let ret = suc (suc (suc (suc n))) in ((ret == 0 || ret == 2) ≡ false) × (by_result ret ≡ 3)
big_result n = (ground arith, ground arith)

big_mode : (n : ℕ) → by_mode (suc n) ≡ 1
big_mode n = ground arith

module _ (h : Heap) (lt : Elist) (q : Ptr) (raw : Node) (fresh : Points h q raw) where
  -- With the node already there, at a place that is given by the cell found.
  insert_as-IsList :
      (xs : Cells) (p : Ptr) (v : ℕ) (ys : Cells) (ret : ℕ)
      → IsList h lt (xs ++ (p, v) ∷ ys)
      → q ∉ (xs ++ (p, v) ∷ ys)
      → let spot : Cells × Cells =
          if (ret == 0) || (ret == 2) then (xs, (p, v) ∷ ys) else (xs ++ cell p v, ys) in
        Ends (Inserted h lt spot.0 q raw.value spot.1) (insert_as (by_result ret) lt p q h)
  unfolding insert_as
  insert_as-IsList xs p v ys zero is out = insert_before-IsList q raw fresh xs p v ys is out
  insert_as-IsList xs p v ys (suc zero) is out = insert_after-IsList q raw fresh xs p v ys is out
  insert_as-IsList xs p v ys (suc (suc zero)) is out =
      insert_before-IsList q raw fresh xs p v ys is out
  insert_as-IsList xs p v ys (suc (suc (suc zero))) is out =
      insert_after-IsList q raw fresh xs p v ys is out
  insert_as-IsList xs p v ys (suc (suc (suc (suc ret)))) is out =
      let (after, told) = big_result ret in
      let made : Ends (Inserted h lt (xs ++ cell p v) q raw.value ys) (insert_as 3 lt p q h) =
        insert_after-IsList q raw fresh xs p v ys is out in
      subst₂
        (λ b i.
          let spot : Cells × Cells = if b then (xs, (p, v) ∷ ys) else (xs ++ cell p v, ys) in
          Ends (Inserted h lt spot.0 q raw.value spot.1) (insert_as i lt p q h))
        (sym after) (sym told) made

  -- Before or behind all others, by the mode of the list.
  insert_as_head :
      (mode : ℕ) (xs : Cells)
      → IsList h lt xs
      → q ∉ xs
      → Ends (Inserted h lt [] q raw.value xs) (insert_as (by_mode (suc mode)) lt null q h)
  unfolding insert_as
  insert_as_head mode xs is out =
      subst (λ i. Ends (Inserted h lt [] q raw.value xs) (insert_as i lt null q h))
        (sym (big_mode mode)) (insert_head-IsList q raw fresh xs is out)

  insert_as_tail :
      (xs : Cells)
      → IsList h lt xs
      → q ∉ xs
      → Ends (Inserted h lt xs q raw.value []) (insert_as 0 lt null q h)
  unfolding insert_as
  insert_as_tail xs is out = insert_tail-IsList q raw fresh xs is out

if-some_both :
    {A : Type 0} (C : Option A → Type 0) (b : Bool) (p q : A)
    → C (some (if b then p else q))
    → C (if b then some p else some q)
if-some_both C true p q c = c
if-some_both C false p q c = c

module _ (h : Heap) (lt : Elist) (b : Block) (w : ℕ) (ne : b.at ≢ null) (xs : Cells)
    (is : IsList h lt xs) (out : b.at ∉ xs) where
  abbrev filled_heap : Heap
  filled_heap = write h b.at (some (filled b w))

  kept : IsList filled_heap lt xs
  kept = IsList-alloc h lt b w ne xs is out

  -- Where the node is not put in, its block is freed.
  dropped : (u : ℕ) → Ends (Placed h lt xs b w none) (settle (negsuc u) lt b.at none filled_heap)
  unfolding settle
  dropped u =
      let same : (a : Ptr) → a ≢ b.at → write filled_heap b.at none a ≡ h a =
        write_twice h b.at _ _ in
      rw (free-ok (own h lt b w ne)) (
        ends (
          record {
            linked = Linked-frame h _ null xs null (λ p i. same p (λ e. ground arith)) is.linked;
            head_at = is.head_at;
            tail_at = is.tail_at;
            counted = is.counted;
          },
          refl,
          write_at filled_heap b.at none,
          same,
        ))

  settle-spot :
      (mode : ℤ) (forward : Bool) (found : Option Cut)
      → ((k : Cut) → found ≡ some k → xs ≡ ahead forward k ++ (k.at, k.value) ∷ behind forward k)
      → Ends
          (Placed h lt xs b w (spot mode forward xs found))
          (settle mode lt b.at (answer found) filled_heap)
  unfolding settle spot
  settle-spot mode forward (some k) j =
      let order = j k refl in
      if-some_both
        (λ s. Ends (Placed h lt xs b w s) (insert_as (by_result k.ret) lt k.at b.at filled_heap))
        (k.ret == 0 || k.ret == 2) _ _
        (Ends-imp
          (insert_as-IsList filled_heap lt b.at (filled b w) (own h lt b w ne) (ahead forward k)
            k.at k.value (behind forward k) k.ret (subst (IsList filled_heap lt) order kept)
            (subst (λ t. b.at ∉ t) order out))
          (settled h lt b w ne _ _))
  settle-spot (negsuc u) forward none j = dropped u
  settle-spot (pos zero) forward none j =
      Ends-imp (insert_as_tail filled_heap lt b.at (filled b w) (own h lt b w ne) xs kept out)
        (settled h lt b w ne xs [])
  settle-spot (pos (suc mode)) forward none j =
      Ends-imp (insert_as_head filled_heap lt b.at (filled b w) (own h lt b w ne) mode xs kept out)
        (settled h lt b w ne [] xs)

  searched :
      (test : ℕ → ℤ) (forward : Bool)
      → (if forward
            then find test (λ n. n.next) (lt.count + 1) lt.head
            else find test (λ n. n.prev) (lt.count + 1) lt.tail)
          filled_heap
        ≡ some (answer (cut test (if forward then xs else reversed xs)), filled_heap)
  searched test true =
      rw kept.head_at (
        find-first test filled_heap (lt.count + 1) null xs kept.linked
          (omega (arith, kept.counted)))
  searched test false =
      let whole = take_all (length xs) xs (omega arith) in
      rw kept.tail_at (
        subst
          (λ t.
            find test (λ n. n.prev) (lt.count + 1) (last null t) filled_heap
            ≡ some (answer (cut test (reversed t)), filled_heap))
          whole
          (find-last-take test filled_heap (lt.count + 1) (length xs) xs kept.linked (omega arith)
            (omega (arith, kept.counted))))

  -- `e_list_add_data_by_sort` ends and puts the data, in a new block, where a search through the
  -- values in the direction of the list tells: before or behind the first node for which the sort
  -- function is not negative, by its result, or else by the mode of the list, which may also leave
  -- it out and free the block. No memory but the list's and the block changes.
  pub add_data_by_sort-Placed :
      (s : Sorting) → Ends (Placed h lt xs b w (place s w xs)) (add_data_by_sort s lt b w h)
  unfolding add_data_by_sort place alloc_node
  add_data_by_sort-Placed s =
      rw (← is.counted) (elim (Bool-cases (not s.has_sort || (lt.count == 0))) [
        | inl t ↦ rw t (
            Ends-imp (insert_tail-IsList b.at (filled b w) (own h lt b w ne) xs kept out)
              (settled h lt b w ne xs []))
        | inr t ↦
            rw (t, searched (λ v. s.sort v w) s.forward)
              (settle-spot s.mode s.forward _
                (λ k e. Joins-order s.forward xs k (cut-Joins _ _ k e)))
      ])
