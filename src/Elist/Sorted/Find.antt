-- ===== src/Elist/Sorted/Find.antt =====
-- The loops that look for a place, and the first cell, in their direction, that a test takes.
use mathlib.Core.List.{reverse as reversed, reverse-append}
use mathlib.Core.Path.{subst}
use egui.Prelude.{
  ℕ, zero, suc, ◌<◌, ◌≤◌, ◌≡◌, refl, sym, ap, ◌∙◌, ◌⊎◌, inl, inr, Option, none, some, Option-cases,
  [], ◌∷◌, ◌++◌, arith, length, take,
}
use egui.Prelude.Int.{ℤ, pos, negsuc}
use egui.Heap.{Ptr, null, Node, Heap, load, Points}
use egui.Heap.Chain.{Cells, cell, first, last, Linked}
use egui.Elist.Insert.{node_at}
use egui.Elist.Walk.Index.{At-index, last-take}
use egui.Elist.Sorted.{find}

-- A list around its first cell with a value that the test takes, and what the test gave.
pub record Cut : Type 0 where
  pub front : Cells
  pub at : Ptr
  pub value : ℕ
  pub ret : ℕ
  pub back : Cells

abbrev pub prepend : Ptr × ℕ → Option Cut → Option Cut
prepend c none = none
prepend c (some k) = some (record k { front = c ∷ k.front })

unfoldable pub cut : (ℕ → ℤ) → Cells → Option Cut
cut test [] = none
cut test ((p, v) ∷ xs) = elim (test v) [
  | pos r ↦ some (record { front = []; at = p; value = v; ret = r; back = xs })
  | negsuc _ ↦ prepend (p, v) (cut test xs)
]

abbrev pub answer : Option Cut → Option (Ptr × ℕ)
answer none = none
answer (some k) = some (k.at, k.ret)

answer-prepend : (c : Ptr × ℕ) (o : Option Cut) → answer (prepend c o) ≡ answer o
answer-prepend c none = refl
answer-prepend c (some k) = refl

ℤ-cases : (z : ℤ) → ((r : ℕ) × (z ≡ pos r)) ⊎ ((u : ℕ) × (z ≡ negsuc u))
ℤ-cases (pos r) = inl (r, refl)
ℤ-cases (negsuc u) = inr (u, refl)

module _ (test : ℕ → ℤ) (p : Ptr) (v : ℕ) (xs : Cells) where
  pub cut_hit :
      (r : ℕ)
      → test v ≡ pos r
      → cut test ((p, v) ∷ xs) ≡ some (record { front = []; at = p; value = v; ret = r; back = xs })
  unfolding cut
  cut_hit r t = rw (t, cut)

  pub cut_miss : (u : ℕ) → test v ≡ negsuc u → cut test ((p, v) ∷ xs) ≡ prepend (p, v) (cut test xs)
  unfolding cut
  cut_miss u t = rw (t, cut)

-- The list that was cut.
abbrev pub Joins : Cells → Cut → Type 0
Joins xs k = xs ≡ k.front ++ (k.at, k.value) ∷ k.back

known : {xs : Cells} (j k : Cut) → some j ≡ some k → Joins xs j → Joins xs k
known {xs} j k e h = subst (Joins xs) {x = j} {y = k} (cc e) h

pub cut-Joins : (test : ℕ → ℤ) (xs : Cells) (k : Cut) → cut test xs ≡ some k → Joins xs k
cut-Joins test [] k e = unfold cut in absurd (cc e)
cut-Joins test ((p, v) ∷ xs) k e = elim (ℤ-cases (test v)) [
  | inl (r, t) ↦ known _ k (sym (cut_hit test p v xs r t) ∙ e) refl
  | inr (u, t) ↦ elim (Option-cases (cut test xs)) [
    | inl c ↦ absurd (cc (cut_miss test p v xs u t, ap (prepend (p, v)) c, e))
    | inr (k', c) ↦
        let same : some (record k' { front = (p, v) ∷ k'.front }) ≡ some k =
          sym (cut_miss test p v xs u t ∙ ap (prepend (p, v)) c) ∙ e in
        known _ k same (ap (λ t. (p, v) ∷ t) (cut-Joins test xs k' c))
  ]
]

module _ (test : ℕ → ℤ) (step : Node → Ptr) {h : Heap} {p : Ptr} {n : Node} (at : Points h p n)
    (k : ℕ) where
  find_hit : (r : ℕ) → test n.value ≡ pos r → find test step (suc k) p h ≡ some (some (p, r), h)
  unfolding find load
  find_hit r t = ground (arith, at.ne_null, at.holds, t)

  find_miss :
      (u : ℕ) → test n.value ≡ negsuc u → find test step (suc k) p h ≡ find test step k (step n) h
  unfolding find load
  find_miss u t = ground (arith, at.ne_null, at.holds, t)

-- A round at the cell `(p, v)`, and then the loop over `xs`.
find_cons :
    (test : ℕ → ℤ) (step : Node → Ptr) {h : Heap} {p : Ptr} {n : Node} (k : ℕ) (xs : Cells)
    → Points h p n
    → find test step k (step n) h ≡ some (answer (cut test xs), h)
    → find test step (suc k) p h ≡ some (answer (cut test ((p, n.value) ∷ xs)), h)
find_cons test step {h} {p} {n} k xs at rest = elim (ℤ-cases (test n.value)) [
  | inl (r, t) ↦
      find_hit test step at k r t
      ∙ ap (λ o. some (answer o, h)) (sym (cut_hit test p n.value xs r t))
  | inr (u, t) ↦
      find_miss test step at k u t
      ∙ rest
      ∙ ap (λ o. some (o, h))
          (sym (
            ap answer (cut_miss test p n.value xs u t) ∙ answer-prepend (p, n.value) (cut test xs)))
]

module _ (test : ℕ → ℤ) (h : Heap) where
  pub find-first :
      (k : ℕ) (a : Ptr) (xs : Cells)
      → Linked h a xs null
      → length xs < k
      → find test (λ n. n.next) k (first xs null) h ≡ some (answer (cut test xs), h)
  find-first zero a xs l f = absurd (omega arith)
  find-first (suc k) a [] l f = unfold find cut in refl
  find-first (suc k) a ((p, v) ∷ xs) (at, _, l) f =
      find_cons test (λ n. n.next) k xs at (find-first k p xs l (omega arith))

  pub find-last-take :
      (k m : ℕ) (xs : Cells)
      → Linked h null xs null
      → m ≤ length xs
      → m < k
      → find test (λ n. n.prev) k (last null (take m xs)) h
        ≡ some (answer (cut test (reversed (take m xs))), h)
  find-last-take zero m xs l b f = absurd (omega arith)
  find-last-take (suc k) zero xs l b f = unfold find cut in refl
  find-last-take (suc k) (suc m) xs l b f =
      let c = At-index xs m b in
      let here : last null (take (suc m) xs) ≡ c.p = last-take xs m b ∙ c.here in
      let node = node_at (take m xs) c.p c.v c.ys (rw c.cut at l) in
      let turned : reversed (take (suc m) xs) ≡ (c.p, c.v) ∷ reversed (take m xs) =
        ap reversed c.upto ∙ reverse-append (take m xs) (cell c.p c.v) in
      rw (here, turned)
        (find_cons test (λ n. n.prev) k (reversed (take m xs)) node.0
          (find-last-take k m xs l (omega arith) (omega arith)))
