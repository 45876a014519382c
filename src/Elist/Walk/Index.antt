-- ===== src/Elist/Walk/Index.antt =====
-- `e_list_get_index_data`, and the cell at an index.
use egui.Prelude.{
  ℕ, zero, suc, ◌+◌, ◌-◌, ◌/◌, ◌≤◌, ◌<◌, true, ◌≡◌, refl, sym, ap, ◌∙◌, some, [], ◌∷◌, ◌++◌, arith,
  ◌==◌, if◌then◌else◌, length, take, drop, ltb, leb, lt_or_ge, lt→ltb, le→ltb, inl, inr, Bool-cases,
}
use egui.Prelude.Slices.{take_all}
use egui.Heap.{Ptr, null, Node, Heap, load, Points}
use egui.Heap.Chain.{Cells, cell, first, last, Linked, last-append}
use egui.Elist.{Elist}
use egui.Elist.Insert.{IsList, node_at}
use egui.Elist.Walk.{next_loop, prev_loop, get_index_data}

next_step :
    (h : Heap) (k : ℕ) (p : Ptr) (n : Node)
    → Points h p n
    → next_loop (suc k) p h ≡ next_loop k n.next h
unfolding next_loop load
next_step h k p n at = ground arith

prev_step :
    (h : Heap) (k : ℕ) (p : Ptr) (n : Node)
    → Points h p n
    → prev_loop (suc k) p h ≡ prev_loop k n.prev h
unfolding prev_loop load
prev_step h k p n at = ground arith

next_loop-first :
    (h : Heap) (k : ℕ) (a : Ptr) (xs : Cells)
    → Linked h a xs null
    → next_loop k (first xs null) h ≡ some (first (drop k xs) null, h)
next_loop-first h zero a xs l = unfold next_loop in refl
next_loop-first h (suc k) a [] l = unfold next_loop in refl
next_loop-first h (suc k) a ((p, v) ∷ xs) (at, _, l) =
    next_step h k p _ at ∙ next_loop-first h k p xs l

-- The cell at an index, and what stands before and behind it.
pub record At (xs : Cells) (i : ℕ) : Type 0 where
  pub p : Ptr
  pub v : ℕ
  pub ys : Cells
  pub cut : xs ≡ take i xs ++ (p, v) ∷ ys
  pub upto : take (suc i) xs ≡ take i xs ++ cell p v
  pub here : first (drop i xs) null ≡ p

pub At-index : (xs : Cells) (i : ℕ) → i < length xs → At xs i
At-index [] i h = absurd (omega arith)
At-index ((p, v) ∷ xs) zero h = record {
  p = p;
  v = v;
  ys = xs;
  cut = refl;
  upto = refl;
  here = refl;
}
At-index ((p, v) ∷ xs) (suc i) h =
    let rest = At-index xs i (omega arith) in
    record {
      p = rest.p;
      v = rest.v;
      ys = rest.ys;
      cut = ap (λ t. (p, v) ∷ t) rest.cut;
      upto = ap (λ t. (p, v) ∷ t) rest.upto;
      here = rest.here;
    }

pub last-take :
    (xs : Cells) (i : ℕ) → i < length xs → last null (take (suc i) xs) ≡ first (drop i xs) null
last-take xs i h =
    let c = At-index xs i h in
    ap (last null) c.upto ∙ last-append null (take i xs) (cell c.p c.v) ∙ sym c.here

prev_loop-last :
    (h : Heap) (k m n : ℕ) (xs : Cells)
    → Linked h null xs null
    → n + k ≡ m
    → m ≤ length xs
    → prev_loop k (last null (take m xs)) h ≡ some (last null (take n xs), h)
prev_loop-last h zero m n xs l e f =
    unfold prev_loop in ap (λ j. some (last null (take j xs), h)) (omega arith)
prev_loop-last h (suc k) zero n xs l e f = absurd (omega arith)
prev_loop-last h (suc k) (suc m) n xs l e f =
    let c = At-index xs m f in
    let here : last null (take (suc m) xs) ≡ c.p = last-take xs m f ∙ c.here in
    let node = node_at (take m xs) c.p c.v c.ys (rw c.cut at l) in
    ap (λ p. prev_loop (suc k) p h) here
    ∙ prev_step h k c.p _ node.0
    ∙ prev_loop-last h k m n xs l (omega arith) (omega arith)

zero_of_test : {i : ℕ} → (i == 0) ≡ true → 0 ≡ i
zero_of_test z = ground arith

ends_nil : (xs : Cells) {i : ℕ} → i ≡ 0 → length xs ≤ i → first xs null ≡ last null xs
ends_nil [] e b = refl
ends_nil (x ∷ xs) e b = absurd (omega arith)

module _ {h : Heap} {lt : Elist} (xs : Cells) (i : ℕ) (is : IsList h lt xs) where
  from_head : next_loop i lt.head h ≡ some (first (drop i xs) null, h)
  from_head = rw is.head_at (next_loop-first h i null xs is.linked)

  from_tail :
      i < length xs → prev_loop (lt.count - 1 - i) lt.tail h ≡ some (first (drop i xs) null, h)
  from_tail b =
      let whole = take_all (length xs) xs (omega arith) in
      rw (is.tail_at, ← last-take xs i b)
        (ap (λ t. prev_loop (lt.count - 1 - i) (last null t) h) (sym whole)
          ∙ prev_loop-last h (lt.count - 1 - i) (length xs) (suc i) xs is.linked
              (omega (arith, is.counted)) (omega arith))

  at_tail : i + 1 ≡ length xs → lt.tail ≡ first (drop i xs) null
  at_tail e =
      is.tail_at
      ∙ ap (last null) (sym (take_all (suc i) xs (omega arith)))
      ∙ last-take xs i (omega arith)

  inside : i < length xs → get_index_data lt i h ≡ some (first (drop i xs) null, h)
  unfolding get_index_data
  inside b = elim (Bool-cases (i == 0)) [
    | inl z ↦
        rw z
          (ap (λ p. some (p, h)) (is.head_at ∙ ap (λ j. first (drop j xs) null) (zero_of_test z)))
    | inr nz ↦ elim (Bool-cases (i + 1 == lt.count)) [
      | inl e ↦ rw (nz, e) (ap (λ p. some (p, h)) (at_tail (ground arith)))
      | inr ne ↦
          rw (nz, ne)
            (elim (Bool-cases (leb i (lt.count / 2))) [
              | inl l ↦ rw l from_head
              | inr g ↦ rw g (from_tail b)
            ])
    ]
  ]

  beyond : length xs ≤ i → get_index_data lt i h ≡ some (last null xs, h)
  unfolding get_index_data
  beyond b = elim (Bool-cases (i == 0)) [
    | inl z ↦ rw z (ap (λ p. some (p, h)) (is.head_at ∙ ends_nil xs (sym (zero_of_test z)) b))
    | inr nz ↦ elim (Bool-cases (i + 1 == lt.count)) [
      | inl e ↦ absurd (ground (arith, is.counted))
      | inr ne ↦
          rw (nz, ne)
            (elim (Bool-cases (leb i (lt.count / 2))) [
              | inl l ↦ absurd (ground (arith, is.counted))
              | inr g ↦
                  let none_left : lt.count - 1 - i ≡ 0 = omega (arith, is.counted) in
                  rw g (
                    ap (λ k. prev_loop k lt.tail h) none_left
                    ∙ unfold prev_loop in ap (λ p. some (p, h)) is.tail_at)
            ])
    ]
  ]

  -- `e_list_get_index_data` ends and finds the node at an index where there is one. Past the end
  -- it is the last node, which is NULL for an empty list only; memory stays as it is.
  pub get_index_data_lem :
      get_index_data lt i h
      ≡ some ((if ltb i (length xs) then first (drop i xs) null else last null xs), h)
  get_index_data_lem = elim (lt_or_ge i (length xs)) [
    | inl b ↦ rw (lt→ltb _ _ b) (inside b)
    | inr b ↦ rw (le→ltb _ _ b) (beyond b)
  ]
