-- ===== src/Elist/Sorted/Callback.antt =====
-- `e_list_add_by_sort_copy_size` and the order that its callback describes.
use mathlib.Core.Path.{subst}
use egui.Prelude.{
  ℕ, ◌+◌, ◌≡◌, ◌≢◌, refl, sym, ap, Option, none, some, inl, inr, [], ◌∷◌, ◌++◌, arith, Bool, true,
  false, Bool-cases, if◌then◌else◌, ◌==◌,
}
use egui.Prelude.Int.{ℤ}
use egui.Heap.{Ptr, null, Node, Heap, write, Points, Ends, Ends-imp}
use egui.Heap.Chain.{Cells, cell, ◌∉◌}
use egui.Elist.{Elist, insert_before}
use egui.Elist.Insert.{
  IsList, Inserted, empty_test, head-ne_null, insert_only-nil, insert_tail-IsList,
  insert_before-IsList,
}
use egui.Elist.Data.{Block, alloc_node}
use egui.Elist.Data.Add.{IsList-alloc, filled, own, settle as settled}
use egui.Elist.Sorted.{find, verdict, found_node, add_by_sort_copy}
use egui.Elist.Sorted.Find.{Cut, cut, prepend, answer, cut-Joins, cut_hit, cut_miss, find-first}

-- Insertion before the first cell for which `cb` is true, or behind all
pub put_in : (cb : (old new : ℕ) → Bool) → Ptr → ℕ → Cells → Cells
put_in cb q w [] = cell q w
put_in cb q w ((p, v) ∷ xs) =
    let rest = put_in cb q w xs in if cb v w then (q, w) ∷ (p, v) ∷ xs else (p, v) ∷ rest

-- `cb` holds of no value and one behind it.
abbrev pub AllBehind : ((old new : ℕ) → Bool) → ℕ → Cells → Type 0
AllBehind cb v [] = Unit
AllBehind cb v ((p, u) ∷ xs) = (cb v u ≡ false) × AllBehind cb v xs

abbrev pub Ordered : ((old new : ℕ) → Bool) → Cells → Type 0
Ordered cb [] = Unit
Ordered cb ((p, v) ∷ xs) = AllBehind cb v xs × Ordered cb xs

abbrev test : ((old new : ℕ) → Bool) → ℕ → ℕ → ℤ
test cb w v = verdict (cb v w)

module _ (cb : (old new : ℕ) → Bool) (q : Ptr) (w : ℕ) where
  -- The insertion, where the loop found this.
  abbrev PutIn : Cells → Option Cut → Type 0
  PutIn xs none = put_in cb q w xs ≡ xs ++ cell q w
  PutIn xs (some k) = put_in cb q w xs ≡ k.front ++ (q, w) ∷ (k.at, k.value) ∷ k.back

  PutIn-prepend :
      (p : Ptr) (v : ℕ) (xs : Cells) (o : Option Cut)
      → cb v w ≡ false
      → PutIn xs o
      → PutIn ((p, v) ∷ xs) (prepend (p, v) o)
  unfolding put_in
  PutIn-prepend p v xs none t e = rw (t, e)
  PutIn-prepend p v xs (some k) t e = rw (t, e)

  cut-PutIn : (xs : Cells) → PutIn xs (cut (test cb w) xs)
  unfolding cut put_in
  cut-PutIn [] = refl
  cut-PutIn ((p, v) ∷ xs) = elim (Bool-cases (cb v w)) [
    | inl t ↦
        subst (PutIn ((p, v) ∷ xs)) (sym (cut_hit (test cb w) p v xs 0 (ap verdict t))) (rw t refl)
    | inr t ↦
        subst (PutIn ((p, v) ∷ xs)) (sym (cut_miss (test cb w) p v xs 0 (ap verdict t)))
          (PutIn-prepend p v xs (cut (test cb w) xs) t (cut-PutIn xs))
  ]

  -- The order behind a value, for a relation like that of being greater.
  module _ (asym : (a b : ℕ) → cb a b ≡ true → cb b a ≡ false)
      (cotrans : (a b c : ℕ) → cb a b ≡ true → cb a c ≡ false → cb b c ≡ false) where
    behind_all : (v : ℕ) (xs : Cells) → cb v w ≡ true → AllBehind cb v xs → AllBehind cb w xs
    behind_all v [] t h = tt
    behind_all v ((p, u) ∷ xs) t h = (cotrans v w u t h.0, behind_all v xs t h.1)

    put_in-AllBehind :
        (v : ℕ) (xs : Cells)
        → cb v w ≡ false
        → AllBehind cb v xs
        → AllBehind cb v (put_in cb q w xs)
    unfolding put_in
    put_in-AllBehind v [] t h = (t, tt)
    put_in-AllBehind v ((p, u) ∷ xs) t h = elim (Bool-cases (cb u w)) [
      | inl b ↦ rw b (t, h)
      | inr b ↦ rw b (h.0, put_in-AllBehind v xs t h.1)
    ]

    pub put_in-Ordered : (xs : Cells) → Ordered cb xs → Ordered cb (put_in cb q w xs)
    unfolding put_in
    put_in-Ordered [] h = (tt, tt)
    put_in-Ordered ((p, v) ∷ xs) h = elim (Bool-cases (cb v w)) [
      | inl b ↦ rw b ((asym v w b, behind_all v xs b h.0), h)
      | inr b ↦ rw b (put_in-AllBehind v xs b h.0, put_in-Ordered xs h.1)
    ]

some_test : (p : Ptr) → p ≢ null → (p == null) ≡ false
some_test p n = ground arith

-- With no node given, it inserts at the tail.
insert_before-null :
    (h : Heap) (lt : Elist) (q : Ptr) (raw : Node) (xs : Cells)
    → Points h q raw
    → IsList h lt xs
    → q ∉ xs
    → Ends (Inserted h lt xs q raw.value []) (insert_before lt null q h)
unfolding insert_before
insert_before-null h lt q raw [] fresh is out =
    rw (empty_test lt.head is.head_at) (insert_only-nil q raw fresh is)
insert_before-null h lt q raw ((p, v) ∷ xs) fresh is out =
    rw (some_test lt.head (head-ne_null [] p v xs is))
      (insert_tail-IsList q raw fresh ((p, v) ∷ xs) is out)

-- What an insertion leaves behind.
abbrev pub Added : Heap → Elist → Cells → Elist → Heap → Type 0
Added h lt all lt' g = IsList g lt' all × (lt'.size ≡ lt.size) × ((a : Ptr) → a ∉ all → g a ≡ h a)

module _ (cb : (old new : ℕ) → Bool) (h : Heap) (lt : Elist) (b : Block) (w : ℕ) (ne : b.at ≢ null)
    (xs : Cells) (is : IsList h lt xs) (out : b.at ∉ xs) where
  abbrev filled_heap : Heap
  filled_heap = write h b.at (some (filled b w))

  kept : IsList filled_heap lt xs
  kept = IsList-alloc h lt b w ne xs is out

  found-Added :
      (o : Option Cut)
      → cut (test cb w) xs ≡ o
      → Ends
          (Added h lt (put_in cb b.at w xs))
          (insert_before lt (found_node (answer o)) b.at filled_heap)
  found-Added none e =
      let all = subst (PutIn cb b.at w xs) e (cut-PutIn cb b.at w xs) in
      subst (λ t. Ends (Added h lt t) (insert_before lt null b.at filled_heap)) (sym all)
        (Ends-imp
          (insert_before-null filled_heap lt b.at (filled b w) xs (own h lt b w ne) kept out)
          (settled h lt b w ne xs []))
  found-Added (some k) e =
      let all = subst (PutIn cb b.at w xs) e (cut-PutIn cb b.at w xs) in
      let order = cut-Joins (test cb w) xs k e in
      subst (λ t. Ends (Added h lt t) (insert_before lt k.at b.at filled_heap)) (sym all)
        (Ends-imp
          (insert_before-IsList b.at (filled b w) (own h lt b w ne) k.front k.at k.value k.back
            (subst (IsList filled_heap lt) order kept) (subst (λ t. b.at ∉ t) order out))
          (settled h lt b w ne k.front ((k.at, k.value) ∷ k.back)))

  -- The new node stands before the first node for which the callback is true.
  pub add_by_sort_copy-IsList :
      Ends (Added h lt (put_in cb b.at w xs)) (add_by_sort_copy cb lt b w h)
  unfolding add_by_sort_copy alloc_node
  add_by_sort_copy-IsList =
      let searched : find (test cb w) (λ n. n.next) (lt.count + 1) lt.head filled_heap
          ≡ some (answer (cut (test cb w) xs), filled_heap) =
        subst
          (λ p.
            find (test cb w) (λ n. n.next) (lt.count + 1) p filled_heap
            ≡ some (answer (cut (test cb w) xs), filled_heap))
          (sym kept.head_at)
          (find-first (test cb w) filled_heap (lt.count + 1) null xs kept.linked
            (omega (arith, kept.counted))) in
      rw searched (found-Added (cut (test cb w) xs) refl)

  -- With a callback that tells a greater value, `e_list_add_by_sort_copy_size` ends and keeps a
  -- list ordered: the data, in a new block, stands before the first node for which the callback is
  -- true, or behind all. No memory but the list's and the block changes.
  pub add_by_sort_copy-Ordered :
      ((a c : ℕ) → cb a c ≡ true → cb c a ≡ false)
      → ((a c d : ℕ) → cb a c ≡ true → cb a d ≡ false → cb c d ≡ false)
      → Ordered cb xs
      → Ends
          (λ lt' g. Added h lt (put_in cb b.at w xs) lt' g × Ordered cb (put_in cb b.at w xs))
          (add_by_sort_copy cb lt b w h)
  add_by_sort_copy-Ordered asym cotrans sorted =
      Ends-imp add_by_sort_copy-IsList
        (λ lt' g added. (added, put_in-Ordered cb b.at w asym cotrans xs sorted))
