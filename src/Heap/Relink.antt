-- ===== src/Heap/Relink.antt =====
-- What becomes of a chain when one link at its end is written, and when a node is put between two
-- others or taken out.
use egui.Prelude.{
  ℕ, true, false, ◌||◌, ◌≡◌, ◌≢◌, refl, Option, none, some, [], ◌∷◌, ◌++◌, arith, ◌==◌,
  if◌then◌else◌, ◌∙◌, Bool-cases, inl, inr,
}
use mathlib.Core.Bool.{or-true}
use egui.Heap.{Ptr, null, Node, node, Heap}
use egui.Heap.Chain.{Cells, has, ◌∉◌, first, last, Linked, Apart, Linked-frame, Linked-append}

abbrev pub to_next : Ptr → Option Node → Option Node
to_next q none = none
to_next q (some n) = some (record n { next = q })

abbrev pub to_prev : Ptr → Option Node → Option Node
to_prev q none = none
to_prev q (some n) = some (record n { prev = q })

pub has-last : (p : Ptr) (v : ℕ) (xs : Cells) → has (last p xs) ((p, v) ∷ xs) ≡ true
has-last p v [] = ground arith
has-last p v ((q, w) ∷ xs) = ground (arith, has-last q w xs)

pub has-head : (p : Ptr) (v : ℕ) (xs : Cells) → has p ((p, v) ∷ xs) ≡ true
has-head p v xs = ground arith

eq-false_of_mem : (p a : Ptr) (xs : Cells) → has a xs ≡ true → p ∉ xs → (p == a) ≡ false
eq-false_of_mem p a xs i out = ground arith

ne_of_mem : (p q : Ptr) (xs : Cells) → has p xs ≡ true → q ∉ xs → p ≢ q
ne_of_mem p q xs i out = λ e. ground arith

-- The last node gets another successor.
pub relink_last :
    (h g : Heap) (a : Ptr) (xs : Cells) (z q : Ptr)
    → ((p : Ptr) → has p xs ≡ true → g p ≡ (if p == last a xs then to_next q (h p) else h p))
    → Linked h a xs z
    → Linked g a xs q
relink_last h g a [] z q same l = tt
relink_last h g a ((p, v) ∷ []) z q same (e, out, l) =
    (record { ne_null = e.ne_null; holds = ground (arith, same p, e.holds) }, refl, tt)
relink_last h g a ((p, v) ∷ ((p', v') ∷ xs)) z q same (e, out, l) =
    let other = eq-false_of_mem p (last p' xs) ((p', v') ∷ xs) (has-last p' v' xs) out in
    (
      record {
        ne_null = e.ne_null;
        holds = same p (has-head p v ((p', v') ∷ xs)) ∙ rw (other, e.holds);
      },
      out,
      relink_last h g p ((p', v') ∷ xs) z q (λ r i. same r (rw (i, or-true (r == p)))) l,
    )

-- The first node gets another predecessor.
pub relink_first :
    (h g : Heap) (a : Ptr) (ys : Cells) (z q : Ptr)
    → ((p : Ptr) → has p ys ≡ true → g p ≡ (if p == first ys z then to_prev q (h p) else h p))
    → Linked h a ys z
    → Linked g q ys z
relink_first h g a [] z q same l = tt
relink_first h g a ((p, v) ∷ ys) z q same (e, out, l) = (
  record { ne_null = e.ne_null; holds = ground (arith, same p, e.holds) },
  out,
  Linked-frame h g p ys z (λ r i. ground (arith, same r)) l,
)

-- No member of a chain is NULL.
pub ne_null_of_mem :
    (h : Heap) (a : Ptr) (xs : Cells) (z p : Ptr) → Linked h a xs z → has p xs ≡ true → p ≢ null
ne_null_of_mem h a [] z p l i = cc
ne_null_of_mem h a ((q, v) ∷ xs) z p (e, out, l) i =
    ground (arith, ne_null_of_mem h q xs z p l, e.ne_null)

not-first : (p : Ptr) (ys : Cells) → p ≢ null → p ∉ ys → (p == first ys null) ≡ false
not-first p [] n out = ground arith
not-first p ((q, v) ∷ ys) n out = ground arith

not-last :
    (p : Ptr) (xs ys : Cells)
    → p ≢ null
    → has p ys ≡ true
    → Apart xs ys
    → (p == last null xs) ≡ false
not-last p [] ys n i apart = ground arith
not-last p ((q, v) ∷ xs) ys n i apart =
    let out = apart (last q xs) (has-last q v xs) in
    ground (arith, eq-false_of_mem (last q xs) p ys i out)

pub ne_null-test : (p : Ptr) → p ≢ null → (p == null) ≡ false
ne_null-test p n = ground arith

-- Memory in which `l` leads on to `x`, and `r` back to `y`, where these are not NULL.
abbrev pub joined : Heap → (l x r y : Ptr) → Heap
joined h l x r y a =
    if a == null
    then h a
    else if a == l
    then to_next x (h a)
    else if a == r
    then to_prev y (h a)
    else h a

outside-last : (p : Ptr) (xs : Cells) → p ≢ null → p ∉ xs → (p == last null xs) ≡ false
outside-last p [] n out = ground arith
outside-last p ((q, v) ∷ xs) n out =
    eq-false_of_mem p (last q xs) ((q, v) ∷ xs) (has-last q v xs) out

-- Memory is as it was outside the two chains.
pub joined_outside :
    (h : Heap) (xs ys : Cells) (x y p : Ptr)
    → p ∉ xs
    → p ∉ ys
    → joined h (last null xs) x (first ys null) y p ≡ h p
joined_outside h xs ys x y p out out' = elim (Bool-cases (p == null)) [
  | inl e ↦ rw e
  | inr e ↦
      let n : p ≢ null = λ k. ground arith in rw (e, outside-last p xs n out, not-first p ys n out')
]

module _ (h : Heap) (xs ys : Cells) (z b : Ptr) (front : Linked h null xs z)
    (back : Linked h b ys null) (apart : Apart xs ys) where
  -- A node that stands in the front part is not the first of the back part, and the other way round.
  front_at :
      (x y p : Ptr)
      → has p xs ≡ true
      → joined h (last null xs) x (first ys null) y p
        ≡ (if p == last null xs then to_next x (h p) else h p)
  front_at x y p i =
      let there = ne_null_of_mem h null xs z p front i in
      rw (ne_null-test p there, not-first p ys there (apart p i))

  back_at :
      (x y p : Ptr)
      → has p ys ≡ true
      → joined h (last null xs) x (first ys null) y p
        ≡ (if p == first ys null then to_prev y (h p) else h p)
  back_at x y p i =
      let there = ne_null_of_mem h b ys null p back i in
      rw (ne_null-test p there, not-last p xs ys there i apart)

  -- The new node `q` stands between the two parts.
  pub Linked-insert :
      (g : Heap) (q : Ptr) (w : ℕ)
      → q ≢ null
      → q ∉ xs
      → q ∉ ys
      → g q ≡ some (node w (last null xs) (first ys null))
      → ((p : Ptr) → p ≢ q → g p ≡ joined h (last null xs) q (first ys null) q p)
      → Linked g null (xs ++ (q, w) ∷ ys) null
  Linked-insert g q w n out out' e same =
      Linked-append g null xs ((q, w) ∷ ys) null
        (relink_last h g null xs z q (λ p i. same p (ne_of_mem p q xs i out) ∙ front_at q q p i)
          front)
        (
          record { ne_null = n; holds = e },
          out',
          relink_first h g b ys null q (λ p i. same p (ne_of_mem p q ys i out') ∙ back_at q q p i)
              back,
        )
        (λ p i. ground (arith, apart p i, eq-false_of_mem q p xs i out))

  -- The two parts are joined, and what stood between them is out.
  pub Linked-join :
      (g : Heap)
      → ((p : Ptr)
          → (has p xs || has p ys) ≡ true
          → g p ≡ joined h (last null xs) (first ys null) (first ys null) (last null xs) p)
      → Linked g null (xs ++ ys) null
  Linked-join g same =
      Linked-append g null xs ys null
        (relink_last h g null xs z (first ys null) (λ p i. same p (ground arith) ∙ front_at _ _ p i)
          front)
        (relink_first h g b ys null (last null xs) (λ p i. same p (ground arith) ∙ back_at _ _ p i)
          back)
        apart
