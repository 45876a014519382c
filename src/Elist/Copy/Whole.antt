-- ===== src/Elist/Copy/Whole.antt =====
-- The list that is copied, walked in either direction, and the list of its copies.
use mathlib.Core.List.{reverse as reversed, reverse-append}
use mathlib.Core.Path.{subst}
use egui.Prelude.{
  ℕ, zero, suc, ◌+◌, ◌<◌, ◌≤◌, ◌≡◌, ◌≢◌, refl, sym, ap, ap₂, ◌∙◌, some, [], ◌∷◌, ◌++◌, append_assoc,
  append-nil, arith, true, length, take,
}
use egui.Prelude.Slices.{take_all}
use egui.Heap.{Ptr, null, Node, Heap, load, Points, Ends, ends, and_then, Ends-bind, Ends-imp}
use egui.Heap.Chain.{
  Cells, cell, has, ◌∉◌, first, last, Linked, Linked-frame, has-append, not-mem-append,
}
use egui.Elist.{Elist, insert_tail, insert_only}
use egui.Elist.Insert.{IsList, node_at}
use egui.Elist.Data.{Block, add_data}
use egui.Elist.Data.Add.{add_data-IsList}
use egui.Elist.Walk.Empty.{empty-Freed}
use egui.Elist.Walk.Reverse.{length-reverse, has-reverse}
use egui.Elist.Walk.Index.{At-index, last-take}
use egui.Elist.Copy.{copy_loop, reset, copy, reverse_copy}

-- From `p` on, `step` leads along the cells and then to NULL.
abbrev pub Walks : (Node → Ptr) → Heap → Cells → Ptr → Type 0
Walks step h [] p = p ≡ null
Walks step h ((q, v) ∷ xs) p =
    (p ≡ q) × (n : Node) × Points h q n × (n.value ≡ v) × Walks step h xs (step n)

Walks-next :
    (h : Heap) (a : Ptr) (xs : Cells)
    → Linked h a xs null
    → Walks (λ n. n.next) h xs (first xs null)
Walks-next h a [] l = refl
Walks-next h a ((p, v) ∷ xs) (at, _, l) = (refl, _, at, refl, Walks-next h p xs l)

Walks-prev_take :
    (h : Heap) (m : ℕ) (xs : Cells)
    → Linked h null xs null
    → m ≤ length xs
    → Walks (λ n. n.prev) h (reversed (take m xs)) (last null (take m xs))
Walks-prev_take h zero xs l b = refl
Walks-prev_take h (suc m) xs l b =
    let c = At-index xs m b in
    let node = node_at (take m xs) c.p c.v c.ys (rw c.cut at l) in
    let turned : reversed (take (suc m) xs) ≡ (c.p, c.v) ∷ reversed (take m xs) =
      ap reversed c.upto ∙ reverse-append (take m xs) (cell c.p c.v) in
    subst (λ t. Walks (λ n. n.prev) h t (last null (take (suc m) xs))) (sym turned)
      (last-take xs m b ∙ c.here, _, node.0, refl, Walks-prev_take h m xs l (omega arith))

Walks-frame :
    (step : Node → Ptr) (h g : Heap) (xs : Cells) (p : Ptr)
    → ((a : Ptr) → has a xs ≡ true → g a ≡ h a)
    → Walks step h xs p
    → Walks step g xs p
Walks-frame step h g [] p same w = w
Walks-frame step h g ((q, v) ∷ xs) p same (e, n, at, same_value, w) = (
  e,
  n,
  record { ne_null = at.ne_null; holds = same q (ground arith) ∙ at.holds },
  same_value,
  Walks-frame step h g xs _ (λ a i. same a (ground arith)) w,
)

both_out : (a : Ptr) (xs ys : Cells) → a ∉ xs → a ∉ ys → a ∉ (xs ++ ys)
both_out a xs ys o u = rw (has-append a xs ys, o, u)

cell_out : (a p : Ptr) (v : ℕ) → a ≢ p → a ∉ cell p v
cell_out a p v n = ground arith

mem-ne : (a p : Ptr) (xs : Cells) → has a xs ≡ true → p ∉ xs → a ≢ p
mem-ne a p xs i out = λ e. ground arith

-- The new nodes, from the `i`-th block on.
pub copied : (ℕ → Block) → ℕ → Cells → Cells
copied alloc i [] = []
copied alloc i ((p, v) ∷ xs) = ((alloc i).at, v) ∷ copied alloc (suc i) xs

-- The copy, beside the list.
abbrev pub Copied : (ℕ → Block) → Elist → Cells → Cells → Elist → Heap → Type 0
Copied alloc src xs zs dst' g =
    IsList g dst' (copied alloc 0 zs) × (dst'.size ≡ src.size) × IsList g src xs

module _ (alloc : ℕ → Block) (ne : (i : ℕ) → (alloc i).at ≢ null)
    (distinct : (i j : ℕ) → i < j → (alloc j).at ≢ (alloc i).at) where
  copy_round :
      (step : Node → Ptr) (k i : ℕ) (p : Ptr) (n : Node) (dst : Elist) (h : Heap)
      → Points h p n
      → copy_loop step alloc (suc k) i p dst h
        ≡ and_then (add_data dst (alloc i) n.value h) (copy_loop step alloc k (suc i) (step n))
  unfolding copy_loop load
  copy_round step k i p n dst h at = ground (arith, at.ne_null, at.holds)

  copy_step :
      (step : Node → Ptr) (k i : ℕ) (p : Ptr) (n : Node) (v : ℕ) (dst : Elist) (h : Heap)
      → Points h p n
      → n.value ≡ v
      → copy_loop step alloc (suc k) i p dst h
        ≡ and_then (add_data dst (alloc i) v h) (copy_loop step alloc k (suc i) (step n))
  copy_step step k i p n v dst h at e =
      rw (copy_round step k i p n dst h at) (
        ap (λ w. and_then (add_data dst (alloc i) w h) (copy_loop step alloc k (suc i) (step n))) e)

  copy_end :
      (step : Node → Ptr) (k i : ℕ) (dst : Elist) (h : Heap)
      → copy_loop step alloc (suc k) i null dst h ≡ some (dst, h)
  unfolding copy_loop
  copy_end step k i dst h = refl

  copy_loop-IsList :
      (step : Node → Ptr) (k i : ℕ) (xs done : Cells) (p : Ptr) (dst : Elist) (h : Heap)
      → Walks step h xs p
      → length xs < k
      → IsList h dst done
      → ((j : ℕ) → i ≤ j → (alloc j).at ∉ done)
      → ((j : ℕ) → (alloc j).at ∉ xs)
      → ((a : Ptr) → has a xs ≡ true → a ∉ done)
      → let all = done ++ copied alloc i xs in
        Ends
          (λ dst' g. IsList g dst' all × (dst'.size ≡ dst.size) × ((a : Ptr) → a ∉ all → g a ≡ h a))
          (copy_loop step alloc k i p dst h)
  unfolding copied
  copy_loop-IsList step zero i xs done p dst h w f is fresh outs apart = absurd (omega arith)
  copy_loop-IsList step (suc k) i [] done p dst h w f is fresh outs apart =
      rw (w, append-nil done) (rw (copy_end step k i dst h) (ends (is, refl, λ a o. refl)))
  copy_loop-IsList step (suc k) i ((q, v) ∷ xs) done p dst h (e, n, at, ev, w) f is fresh outs
        apart =
      let b = (alloc i).at in
      let joined : (done ++ cell b v) ++ copied alloc (suc i) xs
          ≡ done ++ copied alloc i ((q, v) ∷ xs) =
        append_assoc done (cell b v) (copied alloc (suc i) xs) in
      let away : (a : Ptr) → has a xs ≡ true → a ∉ (done ++ cell b v) = λ a m.
        both_out a done (cell b v) (apart a (ground arith))
          (cell_out a b v (mem-ne a b xs m (ground (arith, outs i)))) in
      rw e (
        rw (copy_step step k i q n v dst h at ev) (
          Ends-bind (add_data-IsList h dst (alloc i) v (ne i) done is (fresh i (omega arith)))
            λ dst1 g1 (is1, size1, same1).
              Ends-imp
                (copy_loop-IsList step k (suc i) xs (done ++ cell b v) (step n) dst1 g1
                  (Walks-frame step h g1 xs (step n) (λ a m. same1 a (away a m)) w) (omega arith)
                  is1
                  (λ j le.
                    both_out _ done (cell b v) (fresh j (omega arith))
                      (cell_out _ b v (distinct i j (omega arith))))
                  (λ j. ground (arith, outs j)) away)
                (λ dst2 g2 (is2, size2, same2). (
                  subst (IsList g2 dst2) joined is2,
                  size2 ∙ size1,
                  λ a o.
                      let o' = rw (← joined) at o in
                      same2 a o' ∙ same1 a (not-mem-append a _ _ o').0,
                ))))

  -- An empty list; its count may be wrong, as `reset` leaves it.
  abbrev blank : ℕ → ℕ → Elist
  blank n c = record { size = n; count = c; head = null; tail = null }

  add_data-blank :
      (n c : ℕ) (b : Block) (v : ℕ) (h : Heap)
      → add_data (blank n c) b v h ≡ add_data (blank n 0) b v h
  unfolding add_data insert_tail insert_only
  add_data-blank n c b v h = refl

  copied_from :
      (step : Node → Ptr) (k : ℕ) (xs : Cells) (p : Ptr) (n c : ℕ) (h : Heap)
      → Walks step h xs p
      → c ≡ length xs
      → length xs < k
      → ((j : ℕ) → (alloc j).at ∉ xs)
      → let all = copied alloc 0 xs in
        Ends
          (λ dst' g. IsList g dst' all × (dst'.size ≡ n) × ((a : Ptr) → a ∉ all → g a ≡ h a))
          (copy_loop step alloc k 0 p (blank n c) h)
  copied_from step zero xs p n c h w e f outs = absurd (omega arith)
  copied_from step (suc k) [] p n c h w e f outs =
      copy_loop-IsList step (suc k) 0 [] [] p (blank n c) h w f
        (record { linked = tt; head_at = refl; tail_at = refl; counted = e }) (λ j le. refl) outs
        (λ a i. refl)
  copied_from step (suc k) ((q, v) ∷ xs) p n c h (e, m, at, ev, w) ec f outs =
      let whole =
        copy_loop-IsList step (suc k) 0 ((q, v) ∷ xs) [] q (blank n 0) h (refl, m, at, ev, w) f
          (record { linked = tt; head_at = refl; tail_at = refl; counted = refl }) (λ j le. refl)
          outs (λ a i. refl) in
      rw (e, copy_step step k 0 q m v (blank n c) h at ev, add_data-blank n c (alloc 0) v h)
        (rw (copy_step step k 0 q m v (blank n 0) h at ev) at whole)

  copied_out : (a : Ptr) (i : ℕ) (xs : Cells) → ((j : ℕ) → a ≢ (alloc j).at) → a ∉ copied alloc i xs
  unfolding copied
  copied_out a i [] n = refl
  copied_out a i ((p, v) ∷ xs) n = ground (arith, n i, copied_out a (suc i) xs n)

  module _ {h : Heap} {src dst : Elist} (xs ys : Cells) (is : IsList h src xs)
      (old : IsList h dst ys) (apart : (a : Ptr) → has a xs ≡ true → a ∉ ys)
      (outs : (j : ℕ) → (alloc j).at ∉ xs) where
    reset-blank :
        Ends
          (λ d g. (d ≡ blank src.size src.count) × ((a : Ptr) → has a xs ≡ true → g a ≡ h a))
          (reset src dst h)
    unfolding reset
    reset-blank = Ends-bind (empty-Freed ys old) λ d g (none_left, _, freed). ends (
      ap₂ (λ a b. record { size = src.size; count = src.count; head = a; tail = b })
          none_left.head_at none_left.tail_at,
      λ a i. ground (arith, freed a, apart a i),
    )

    kept : (g : Heap) → ((a : Ptr) → has a xs ≡ true → g a ≡ h a) → IsList g src xs
    kept g same = record {
      linked = Linked-frame h g null xs null same is.linked;
      head_at = is.head_at;
      tail_at = is.tail_at;
      counted = is.counted;
    }

    -- The loop of either function, after `reset`, in the order `zs` of the list.
    loop-Copied :
        (step : Node → Ptr) (zs : Cells) (p : Ptr)
        → ((g : Heap) → IsList g src xs → Walks step g zs p)
        → length zs ≡ length xs
        → ((a : Ptr) → has a zs ≡ has a xs)
        → Ends
            (Copied alloc src xs zs)
            (and_then (reset src dst h) (copy_loop step alloc (src.count + 1) 0 p))
    loop-Copied step zs p walks long same = Ends-bind reset-blank λ d g (e, left). rw e (
        Ends-imp
          (copied_from step (src.count + 1) zs p src.size src.count g (walks g (kept g left))
            (is.counted ∙ sym long) (omega (arith, is.counted, long))
            (λ j. same (alloc j).at ∙ outs j))
          (λ dst' g' (copied, size, others). (
            copied,
            size,
            kept g' (λ a i.
                others a (copied_out a 0 zs (λ j. mem-ne a (alloc j).at xs i (outs j))) ∙ left a i),
          )))

    -- `e_list_copy` between two lists apart ends and leaves the values of the one in the other, in
    -- order and in new blocks, and the one as it was; it holds where each call of the allocator
    -- gives a block of its own, outside the list.
    pub copy-Copied : Ends (Copied alloc src xs xs) (copy src dst alloc h)
    unfolding copy
    copy-Copied =
        loop-Copied (λ n. n.next) xs src.head (λ g l. rw l.head_at (Walks-next g null xs l.linked))
          refl (λ a. refl)

    -- `e_list_reverse_copy` between two lists apart ends and leaves the values of the one in the
    -- other, in reverse order and in new blocks, and the one as it was; it holds where each call
    -- of the allocator gives a block of its own, outside the list.
    pub reverse_copy-Copied :
        Ends (Copied alloc src xs (reversed xs)) (reverse_copy src dst alloc h)
    unfolding reverse_copy
    reverse_copy-Copied =
        loop-Copied (λ n. n.prev) (reversed xs) src.tail
          (λ g l. rw l.tail_at (
            subst (λ t. Walks (λ n. n.prev) g (reversed t) (last null t))
              (take_all (length xs) xs (omega arith))
              (Walks-prev_take g (length xs) xs l.linked (omega arith))))
          (length-reverse xs) (λ a. has-reverse a xs)
