-- ===== src/Ring/Moves.antt =====
-- What `__list_add` and `__list_del` do to a ring that they open at its end.
use egui.Prelude.{
  ◌≡◌, ◌≢◌, refl, sym, ◌∙◌, some, [], ◌∷◌, ◌++◌, arith, true, ℕ, ◌==◌, if◌then◌else◌, append-nil,
  append_assoc,
}
use mathlib.Core.Path.{subst}
use egui.Heap.{
  Ptr, null, Node, node, Heap, write, set_next, set_prev, Points, load-ok, Ends, ends, Ends-imp,
}
use egui.Heap.Chain.{
  Cells, cell, has, ◌∉◌, last, Linked, Linked-append, last-append, not-mem-append, has-append,
  last_node,
}
use egui.Heap.Relink.{to_next, to_prev, relink_last, relink_first, has-last, has-head}
use egui.Ring.{add_between, list_add, list_add_tail, del_between, list_del}
use egui.Ring.Turn.{IsRing, IsRing-turn}

-- Memory with `r` linked back to `x` and `l` on to `y`; `l` and `r` may be one node.
abbrev pub bridged : Heap → (l y r x : Ptr) → Heap
bridged h l y r x p =
    let back = if p == r then to_prev x (h p) else h p in if p == l then to_next y back else back

-- The new node and the two around it are written, and no other.
add_between-bridged :
    (h : Heap) (q l r : Ptr) (raw m n : Node)
    → Points h q raw
    → Points h l m
    → Points h r n
    → q ≢ l
    → q ≢ r
    → (g : Heap) × (add_between q l r h ≡ some (tt, g))
      × (g q ≡ some (node raw.value l r))
      × ((p : Ptr) → p ≢ q → g p ≡ bridged h l q r q p)
unfolding add_between set_next set_prev write
add_between-bridged h q l r raw m n at atl atr nl nr =
    let turned = if l == r then record n { prev = q } else m in
    let three =
      write (write (write h r (some (record n { prev = q }))) q (some (record raw { next = r }))) q
        (some (node raw.value l r)) in
    (
      write three l (some (record turned { next = q })),
      ground (arith, at.ne_null, at.holds, atl.ne_null, atl.holds, atr.ne_null, atr.holds),
      ground arith,
      λ p k. ground (arith, atl.holds, atr.holds),
    )

del_between-bridged :
    (h : Heap) (l r : Ptr) (m n : Node)
    → Points h l m
    → Points h r n
    → (g : Heap) × (del_between l r h ≡ some (tt, g)) × ((p : Ptr) → g p ≡ bridged h l r r l p)
unfolding del_between set_next set_prev write
del_between-bridged h l r m n atl atr =
    let turned = if l == r then record n { prev = l } else m in
    (
      write (write h r (some (record n { prev = l }))) l (some (record turned { next = r })),
      ground (arith, atl.ne_null, atl.holds, atr.ne_null, atr.holds),
      λ p. ground (arith, atl.holds, atr.holds),
    )

ne_of_mem : (p q : Ptr) (xs : Cells) → has p xs ≡ true → q ∉ xs → p ≢ q
ne_of_mem p q xs i out = λ e. ground arith

-- A chain with another node before its first and behind its last.
relink_both :
    (h g : Heap) (a : Ptr) (p : Ptr) (v : ℕ) (xs : Cells) (z x y : Ptr)
    → ((b : Ptr) → has b ((p, v) ∷ xs) ≡ true → g b ≡ bridged h (last p xs) y p x b)
    → Linked h a ((p, v) ∷ xs) z
    → Linked g x ((p, v) ∷ xs) y
relink_both h g a p v xs z x y same l =
    let back : Heap = λ b. if b == p then to_prev x (h b) else h b in
    relink_last back g x ((p, v) ∷ xs) z y same
      (relink_first h back a ((p, v) ∷ xs) z x (λ b i. refl) l)

-- A new node at the end of the ring.
insert_end :
    (h g : Heap) (p : Ptr) (v : ℕ) (xs : Cells) (q : Ptr) (w : ℕ)
    → IsRing h ((p, v) ∷ xs)
    → q ≢ null
    → q ∉ ((p, v) ∷ xs)
    → g q ≡ some (node w (last p xs) p)
    → ((b : Ptr) → b ≢ q → g b ≡ bridged h (last p xs) q p q b)
    → IsRing g (((p, v) ∷ xs) ++ cell q w)
insert_end h g p v xs q w ring nn out own same =
    let front =
      relink_both h g _ p v xs p q q (λ b i. same b (ne_of_mem b q ((p, v) ∷ xs) i out)) ring in
    subst (λ a. Linked g a (((p, v) ∷ xs) ++ cell q w) p) (sym (last-append p xs (cell q w)))
      (Linked-append g q ((p, v) ∷ xs) (cell q w) p front
        (record { ne_null = nn; holds = own }, refl, tt)
        (λ b i. ground (arith, ne_of_mem b q ((p, v) ∷ xs) i out)))

-- The first node is taken out of the ring.
delete_first :
    (h g : Heap) (q : Ptr) (w : ℕ) (p : Ptr) (v : ℕ) (xs : Cells)
    → IsRing h ((q, w) ∷ (p, v) ∷ xs)
    → ((b : Ptr) → g b ≡ bridged h (last p xs) p p (last p xs) b)
    → IsRing g ((p, v) ∷ xs)
delete_first h g q w p v xs (at, out, l) same =
    relink_both h g q p v xs q (last p xs) p (λ b i. same b) l

-- Memory is as it was but for the ring.
abbrev pub Moved : Heap → Cells → Cells → Heap → Type 0
Moved h before after g = IsRing g after × ((a : Ptr) → a ∉ before → a ∉ after → g a ≡ h a)

bridged_outside :
    (h : Heap) (p : Ptr) (v : ℕ) (xs : Cells) (x y a : Ptr)
    → a ∉ ((p, v) ∷ xs)
    → bridged h (last p xs) y p x a ≡ h a
bridged_outside h p v xs x y a out =
    let end = ne_of_mem (last p xs) a ((p, v) ∷ xs) (has-last p v xs) out in ground (arith, end)

outside_cell : (a q : Ptr) (w : ℕ) → a ∉ cell q w → a ≢ q
outside_cell a q w out = λ e. ground arith

insert_end-Moved :
    (h : Heap) (p : Ptr) (v : ℕ) (xs : Cells) (q : Ptr) (raw : Node)
    → IsRing h ((p, v) ∷ xs)
    → Points h q raw
    → q ∉ ((p, v) ∷ xs)
    → Ends
        (λ _ g. Moved h ((p, v) ∷ xs) (((p, v) ∷ xs) ++ cell q raw.value) g)
        (add_between q (last p xs) p h)
insert_end-Moved h p v xs q raw ring fresh out =
    let (m, at_last, _) = last_node h _ p v xs p ring in
    let off_last : q ≢ last p xs =
      λ e. ne_of_mem (last p xs) q ((p, v) ∷ xs) (has-last p v xs) out (sym e) in
    let off_first : q ≢ p = λ e. ne_of_mem p q ((p, v) ∷ xs) (has-head p v xs) out (sym e) in
    let (g, made, own, same) =
      add_between-bridged h q (last p xs) p raw m _ fresh at_last ring.0 off_last off_first in
    rw made (
      ends (
        insert_end h g p v xs q raw.value ring fresh.ne_null out own same,
        λ a o o'.
            same a (outside_cell a q raw.value (not-mem-append a ((p, v) ∷ xs) _ o').1)
            ∙ bridged_outside h p v xs q q a o,
      ))

delete_first-Moved :
    (h : Heap) (q : Ptr) (w : ℕ) (p : Ptr) (v : ℕ) (xs : Cells)
    → IsRing h ((q, w) ∷ (p, v) ∷ xs)
    → Ends (λ _ g. Moved h ((q, w) ∷ (p, v) ∷ xs) ((p, v) ∷ xs) g) (del_between (last p xs) p h)
delete_first-Moved h q w p v xs ring =
    let (m, at_last, _) = last_node h q p v xs q ring.2 in
    let (g, made, same) = del_between-bridged h (last p xs) p m _ at_last ring.2.0 in
    rw made (
      ends (
        delete_first h g q w p v xs ring same,
        λ a o o'. same a ∙ bridged_outside h p v xs (last p xs) p a o',
      ))

turn_out : (a : Ptr) (xs ys : Cells) → a ∉ (xs ++ ys) → a ∉ (ys ++ xs)
turn_out a xs ys o = let (x, y) = not-mem-append a xs ys o in rw (has-append a ys xs, x, y)

-- `list_add_tail` of a node that is not in a ring puts it before the head, behind all entries, and
-- ends. The other entries keep their order, and no other memory changes.
pub list_add_tail-Moved :
    (h : Heap) (head : Ptr) (v : ℕ) (xs : Cells) (q : Ptr) (raw : Node)
    → IsRing h ((head, v) ∷ xs)
    → Points h q raw
    → q ∉ ((head, v) ∷ xs)
    → Ends
        (λ _ g. Moved h ((head, v) ∷ xs) (((head, v) ∷ xs) ++ cell q raw.value) g)
        (list_add_tail q head h)
unfolding list_add_tail
list_add_tail-Moved h head v xs q raw ring fresh out =
    rw (load-ok ring.0) (insert_end-Moved h head v xs q raw ring fresh out)

-- `list_add` of a node that is not in a ring puts it behind the head, on an empty ring too, and
-- ends. The other entries keep their order, and no other memory changes.
pub list_add-Moved :
    (h : Heap) (head : Ptr) (v : ℕ) (xs : Cells) (q : Ptr) (raw : Node)
    → IsRing h ((head, v) ∷ xs)
    → Points h q raw
    → q ∉ ((head, v) ∷ xs)
    → Ends (λ _ g. Moved h ((head, v) ∷ xs) ((head, v) ∷ (q, raw.value) ∷ xs) g) (list_add q head h)
unfolding list_add
list_add-Moved h head v [] q raw ring fresh out =
    rw (load-ok ring.0) (insert_end-Moved h head v [] q raw ring fresh out)
list_add-Moved h head v ((p, u) ∷ xs) q raw ring fresh out =
    let turned = IsRing-turn h head p v u [] xs ring in
    let joined = append_assoc ((p, u) ∷ xs) (cell head v) (cell q raw.value) in
    let after = (head, v) ∷ (q, raw.value) ∷ (p, u) ∷ xs in
    rw (load-ok ring.0) (
      subst (λ l. Ends (λ _ g. Moved h ((head, v) ∷ (p, u) ∷ xs) after g) (add_between q l p h))
        (last-append p xs (cell head v))
        (Ends-imp
          (insert_end-Moved h p u (xs ++ cell head v) q raw turned fresh
            (turn_out q (cell head v) ((p, u) ∷ xs) out))
          (λ _ g (ring', same). (
            IsRing-turn g p head u v xs (cell q raw.value) (subst (IsRing g) joined ring'),
            λ a o o'. same a (turn_out a (cell head v) ((p, u) ∷ xs) o) (
                subst (λ t. a ∉ t) (sym joined)
                  (turn_out a ((head, v) ∷ cell q raw.value) ((p, u) ∷ xs) o')),
          ))))

-- `list_del` of an entry of a ring, not its head, takes it out and ends. The other entries keep
-- their order, and no memory but the ring's changes.
pub list_del-Moved :
    (h : Heap) (head : Ptr) (v : ℕ) (xs : Cells) (p : Ptr) (u : ℕ) (ys : Cells)
    → IsRing h (((head, v) ∷ xs) ++ ((p, u) ∷ ys))
    → Ends
        (λ _ g. Moved h (((head, v) ∷ xs) ++ ((p, u) ∷ ys)) (((head, v) ∷ xs) ++ ys) g)
        (list_del p h)
unfolding list_del
list_del-Moved h head v xs p u [] ring =
    let turned = IsRing-turn h head p v u xs [] ring in
    let whole = append-nil ((head, v) ∷ xs) in
    rw (load-ok turned.0) (
      Ends-imp (delete_first-Moved h p u head v xs turned) (λ _ g (ring', same). (
        subst (IsRing g) (sym whole) ring',
        λ a o o'. same a (turn_out a ((head, v) ∷ xs) (cell p u) o) (subst (λ t. a ∉ t) whole o'),
      )))
list_del-Moved h head v xs p u ((r, t) ∷ ys) ring =
    let turned = IsRing-turn h head p v u xs ((r, t) ∷ ys) ring in
    rw (load-ok turned.0) (
      Ends-imp (delete_first-Moved h p u r t (ys ++ (head, v) ∷ xs) turned) (λ _ g (ring', same). (
        IsRing-turn g r head t v ys xs ring',
        λ a o o'.
            same a (turn_out a ((head, v) ∷ xs) ((p, u) ∷ (r, t) ∷ ys) o)
              (turn_out a ((head, v) ∷ xs) ((r, t) ∷ ys) o'),
      )))
