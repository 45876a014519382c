-- ===== src/Elist/Walk/Reverse.antt =====
-- `e_list_reverse`, and memory with the links of a list exchanged.
use mathlib.Core.List.{reverse as reversed, reverse-cons}
use egui.Prelude.{
  ℕ, zero, suc, ◌+◌, ◌<◌, true, ◌≡◌, ◌≢◌, refl, sym, ap, ◌∙◌, Option, none, some, [], ◌∷◌, arith,
  ◌==◌, if◌then◌else◌, length, length-append,
}
use egui.Heap.{
  Ptr, null, Node, node, Heap, write, load, set_next, set_prev, Points, Ends, ends, Ends-bind,
  Ends-imp,
}
use egui.Heap.Chain.{
  Cells, cell, has, ◌∉◌, first, last, Linked, Linked-frame, Linked-append, has-append, first-append,
  last-append,
}
use egui.Elist.{Elist}
use egui.Elist.Insert.{IsList}
use egui.Elist.Walk.{reverse_loop, reverse}
use mathlib.Core.Bool.{or-true}

-- A node with its two links exchanged.
abbrev turned : Option Node → Option Node
turned none = none
turned (some n) = some (record { next = n.prev; prev = n.next; value = n.value })

abbrev Turned : Heap → Cells → Heap → Type 0
Turned h xs g = (p : Ptr) → g p ≡ (if has p xs then turned (h p) else h p)

reverse_step :
    (h : Heap) (k : ℕ) (p : Ptr) (n : Node)
    → Points h p n
    → reverse_loop (suc k) p h
      ≡ reverse_loop k n.next (
          write
            (write h p (some (record n { next = n.prev })))
            p
            (some (record { next = n.prev; prev = n.next; value = n.value })))
unfolding reverse_loop load set_next set_prev write
reverse_step h k p n at = ground arith

write_twice_ne :
    (h : Heap) (p q : Ptr) (c d : Option Node) → q ≢ p → write (write h p c) p d q ≡ h q
unfolding write
write_twice_ne h p q c d n = ground arith

mem-ne : (q p : Ptr) (xs : Cells) → has q xs ≡ true → p ∉ xs → q ≢ p
mem-ne q p xs i out = λ e. ground arith

ne-mem_cell : (q p : Ptr) (v : ℕ) → q ≢ p → q ∉ cell p v
ne-mem_cell q p v n = ground arith

Turned-cons :
    (h : Heap) (p : Ptr) (v : ℕ) (xs : Cells) (n : Node) (g : Heap)
    → Points h p n
    → p ∉ xs
    → Turned
        (write
          (write h p (some (record n { next = n.prev })))
          p
          (some (record { next = n.prev; prev = n.next; value = n.value })))
        xs
        g
    → Turned h ((p, v) ∷ xs) g
unfolding write
Turned-cons h p v xs n g at out t q = ground (arith, t q)

-- A reversed chain has the other's ends, members and length.
first-reverse : (xs : Cells) (d : Ptr) → first (reversed xs) d ≡ last d xs
first-reverse [] d = refl
first-reverse ((p, v) ∷ xs) d =
    rw (reverse-cons (p, v) xs, first-append (reversed xs) (cell p v) d) (first-reverse xs p)

last-reverse : (xs : Cells) (d : Ptr) → last d (reversed xs) ≡ first xs d
last-reverse [] d = refl
last-reverse ((p, v) ∷ xs) d = rw (reverse-cons (p, v) xs, last-append d (reversed xs) (cell p v))

pub has-reverse : (q : Ptr) (xs : Cells) → has q (reversed xs) ≡ has q xs
has-reverse q [] = refl
has-reverse q ((p, v) ∷ xs) =
    rw (reverse-cons (p, v) xs, has-append q (reversed xs) (cell p v), has-reverse q xs)
      (ground arith)

pub length-reverse : (xs : Cells) → length (reversed xs) ≡ length xs
length-reverse [] = refl
length-reverse ((p, v) ∷ xs) =
    rw (reverse-cons (p, v) xs)
      (omega (arith, length-append (reversed xs) (cell p v), length-reverse xs))

reverse_loop-Turned :
    (k : ℕ) (h : Heap) (a : Ptr) (xs : Cells)
    → Linked h a xs null
    → length xs < k
    → Ends (λ _ g. Turned h xs g) (reverse_loop k (first xs null) h)
reverse_loop-Turned zero h a xs l f = absurd (omega arith)
reverse_loop-Turned (suc k) h a [] l f = unfold reverse_loop in ends (λ p. refl)
reverse_loop-Turned (suc k) h a ((p, v) ∷ xs) (at, out, l) f =
    let n = node v a (first xs null) in
    let g = write (write h p (some (record n { next = a }))) p (some (node v (first xs null) a)) in
    let kept : Linked g p xs null =
      Linked-frame h g p xs null (λ q i. write_twice_ne h p q _ _ (mem-ne q p xs i out)) l in
    rw (reverse_step h k p n at) (
      Ends-imp (reverse_loop-Turned k g p xs kept (omega arith))
        (λ _ g'. Turned-cons h p v xs n g' at out))

Linked-turned :
    (h g : Heap) (a : Ptr) (xs : Cells) (z : Ptr)
    → Linked h a xs z
    → ((p : Ptr) → has p xs ≡ true → g p ≡ turned (h p))
    → Linked g z (reversed xs) a
Linked-turned h g a [] z l same = tt
Linked-turned h g a ((p, v) ∷ xs) z (at, out, l) same =
    let own : g p ≡ some (node v (first xs z) a) = same p (ground arith) ∙ ap turned at.holds in
    rw (reverse-cons (p, v) xs) (
      Linked-append g z (reversed xs) (cell p v) a
        (Linked-turned h g p xs z l (λ q i. same q (rw (i, or-true (q == p)))))
        (record { ne_null = at.ne_null; holds = rw (last-reverse xs z) own }, refl, tt)
        (λ q i. ne-mem_cell q p v (mem-ne q p xs (rw (has-reverse q xs) at i) out)))

-- `e_list_reverse` ends, turns the order of the nodes round in place, and writes to no memory
-- outside the list.
pub reverse-IsList :
    {h : Heap} {lt : Elist} (xs : Cells)
    → IsList h lt xs
    → Ends
        (λ lt' g.
          IsList g lt' (reversed xs) × (lt'.size ≡ lt.size) × ((a : Ptr) → a ∉ xs → g a ≡ h a))
        (reverse lt h)
unfolding reverse
reverse-IsList {h} {lt} xs is =
    let walk = reverse_loop-Turned (lt.count + 1) h null xs is.linked (omega (arith, is.counted)) in
    rw is.head_at (
      Ends-bind walk λ _ g t. ends (
        record {
          linked = Linked-turned h g null xs null is.linked (λ p i. ground (arith, t p));
          head_at = is.tail_at ∙ sym (first-reverse xs null);
          tail_at = sym (last-reverse xs null);
          counted = is.counted ∙ sym (length-reverse xs);
        },
        refl,
        λ a o. ground (arith, t a),
      ))
