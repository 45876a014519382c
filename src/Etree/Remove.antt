-- ===== src/Etree/Remove.antt =====
-- Removal, on the heights of subtrees.
use egui.Prelude.{
  ◌>>=◌, ℕ, suc, Bool, true, false, ◌≡◌, refl, sym, ap, ◌∙◌, Option, none, some, List, ◌∷◌, ◌++◌,
  append-nil, arith, if◌then◌else◌,
}
use egui.Prelude.Int.{ℤ, pos, negsuc}
use egui.Etree.{
  Node, leaf, node, rebalance, balance_of, is_level, Removal, drop_left, drop_right, take_first,
  put_next, remove_node,
}
use mathlib.Core.Path.{subst}
use egui.Etree.Balance.{
  entries, Bal, left_high, level, right_high, Avl, Rebuilt, rebalance_left-Rebuilt,
  rebalance_right-Rebuilt,
}

-- A removal that worked, in a tree of height `h`.
pub record Shrunk (h : ℕ) (xs : List (ℕ × ℕ)) (old : Option (ℕ × ℕ)) (made : Option Removal)
    : Type 0 where
  pub change : Removal
  pub done : made ≡ some change
  pub holds : entries change.tree ≡ xs
  pub high : ℕ
  pub balanced : Avl high change.tree
  pub told : h ≡ (if change.lower then suc high else high)
  pub kept : change.old ≡ old

abbrev pub removal : Node → Bool → Option (ℕ × ℕ) → Removal
removal t g old = record { tree = t; lower = g; old = old }

abbrev finish : Option (ℕ × ℕ) → Option Node → Option Removal
finish old made = made >>= λ t. some (removal t (is_level (balance_of t)) old)

height_told :
    (n h i : ℕ) (b : Bool)
    → h ≡ suc (suc (suc n))
    → i ≡ (if b then suc (suc n) else suc (suc (suc n)))
    → h ≡ (if b then suc i else i)
height_told n h i true e f = omega (arith, e, f)
height_told n h i false e f = omega (arith, e, f)

Rebuilt-Shrunk :
    (n h : ℕ) (xs : List (ℕ × ℕ)) (old : Option (ℕ × ℕ)) (made : Option Node)
    → h ≡ suc (suc (suc n))
    → Rebuilt n xs made
    → Shrunk h xs old (finish old made)
Rebuilt-Shrunk n h xs old made e r = record {
  change = removal r.tree (is_level (balance_of r.tree)) old;
  done = rw r.done refl;
  holds = r.same;
  high = r.height;
  balanced = r.balanced;
  told = height_told n h r.height (is_level (balance_of r.tree)) e r.told;
  kept = refl;
}

drop_left-Shrunk :
    (m n h j : ℕ) (t : Node) (g : Bool) (old : Option (ℕ × ℕ)) (k v : ℕ) (b : ℤ) (r : Node)
    → Avl j t
    → m ≡ (if g then suc j else j)
    → Avl n r
    → Bal m n h b
    → Shrunk h (entries t ++ (k, v) ∷ entries r) old (drop_left (removal t g old) k v b r)
unfolding drop_left rebalance
drop_left-Shrunk m n h j t false old k v b r at z ar bal = record {
  change = removal (node t k v b r) false old;
  done = refl;
  holds = refl;
  high = h;
  balanced = (m, n, subst (λ i. Avl i t) (sym z) at, ar, bal);
  told = refl;
  kept = refl;
}
drop_left-Shrunk m n h j t true old k v _ r at z ar (right_high e f) =
    Rebuilt-Shrunk j h _ old _ (omega (arith, e, f, z))
      (rebalance_right-Rebuilt j t k v r at (subst (λ i. Avl i r) (e ∙ ap suc z) ar))
drop_left-Shrunk m n h j t true old k v _ r at z ar (level e f) = record {
  change = removal (node t k v (pos 1) r) false old;
  done = refl;
  holds = refl;
  high = h;
  balanced = (j, n, at, ar, right_high (omega (arith, e, z)) (omega (arith, e, f)));
  told = refl;
  kept = refl;
}
drop_left-Shrunk m n h j t true old k v _ r at z ar (left_high e f) = record {
  change = removal (node t k v (pos 0) r) true old;
  done = refl;
  holds = refl;
  high = m;
  balanced = (j, n, at, ar, level (omega (arith, e, z)) z);
  told = f;
  kept = refl;
}

drop_right-Shrunk :
    (m n h j : ℕ) (t : Node) (g : Bool) (old : Option (ℕ × ℕ)) (k v : ℕ) (b : ℤ) (l : Node)
    → Avl m l
    → Avl j t
    → n ≡ (if g then suc j else j)
    → Bal m n h b
    → Shrunk h (entries l ++ (k, v) ∷ entries t) old (drop_right l k v b (removal t g old))
unfolding drop_right rebalance
drop_right-Shrunk m n h j t false old k v b l al at z bal = record {
  change = removal (node l k v b t) false old;
  done = refl;
  holds = refl;
  high = h;
  balanced = (m, n, al, subst (λ i. Avl i t) (sym z) at, bal);
  told = refl;
  kept = refl;
}
drop_right-Shrunk m n h j t true old k v _ l al at z (left_high e f) =
    Rebuilt-Shrunk j h _ old _ (omega (arith, e, f, z))
      (rebalance_left-Rebuilt j l k v t (subst (λ i. Avl i l) (e ∙ ap suc z) al) at)
drop_right-Shrunk m n h j t true old k v _ l al at z (level e f) = record {
  change = removal (node l k v (negsuc 0) t) false old;
  done = refl;
  holds = refl;
  high = h;
  balanced = (m, j, al, at, left_high (omega (arith, e, z)) f);
  told = refl;
  kept = refl;
}
drop_right-Shrunk m n h j t true old k v _ l al at z (right_high e f) = record {
  change = removal (node l k v (pos 0) t) true old;
  done = refl;
  holds = refl;
  high = n;
  balanced = (m, j, al, at, level (omega (arith, e, z)) (omega (arith, e, z)));
  told = f;
  kept = refl;
}

pub continue_left :
    (m n h : ℕ) {xs : List (ℕ × ℕ)} {old : Option (ℕ × ℕ)} {made : Option Removal} (k v : ℕ) (b : ℤ)
    (r : Node)
    → Shrunk m xs old made
    → Avl n r
    → Bal m n h b
    → Shrunk h (xs ++ (k, v) ∷ entries r) old (made >>= λ c. drop_left c k v b r)
continue_left m n h k v b r g ar bal =
    rw (g.done, ← g.holds, ← g.kept)
      (drop_left-Shrunk m n h g.high g.change.tree g.change.lower g.change.old k v b r g.balanced
        g.told ar bal)

pub continue_right :
    (m n h : ℕ) {xs : List (ℕ × ℕ)} {old : Option (ℕ × ℕ)} {made : Option Removal} (k v : ℕ) (b : ℤ)
    (l : Node)
    → Avl m l
    → Shrunk n xs old made
    → Bal m n h b
    → Shrunk h (entries l ++ (k, v) ∷ xs) old (made >>= λ c. drop_right l k v b c)
continue_right m n h k v b l al g bal =
    rw (g.done, ← g.holds, ← g.kept)
      (drop_right-Shrunk m n h g.high g.change.tree g.change.lower g.change.old k v b l al
        g.balanced g.told bal)

right_alone : (m n h : ℕ) (b : ℤ) → m ≡ 0 → Bal m n h b → h ≡ suc n
right_alone m n h _ z (left_high e f) = absurd (omega (arith, z, e))
right_alone m n h _ z (level e f) = omega (arith, e, f)
right_alone m n h _ z (right_high e f) = f

left_alone : (m n h : ℕ) (b : ℤ) → n ≡ 0 → Bal m n h b → h ≡ suc m
left_alone m n h _ z (left_high e f) = f
left_alone m n h _ z (level e f) = f
left_alone m n h _ z (right_high e f) = absurd (omega (arith, z, e))

-- The first entry of a tree that is not empty.
pub take_first-Shrunk :
    (h : ℕ) (l : Node) (k v : ℕ) (b : ℤ) (r : Node)
    → Avl h (node l k v b r)
    → (i : ℕ) × (u : ℕ) × (xs : List (ℕ × ℕ)) × (entries (node l k v b r) ≡ (i, u) ∷ xs)
      × Shrunk h xs (some (i, u)) (take_first (node l k v b r))
unfolding take_first
take_first-Shrunk h leaf k v b r (m, n, al, ar, bal) = (
  k,
  v,
  entries r,
  refl,
  record {
    change = removal r true (some (k, v));
    done = refl;
    holds = refl;
    high = n;
    balanced = ar;
    told = right_alone m n h b al bal;
    kept = refl;
  },
)
take_first-Shrunk h (node l i u a o) k v b r (m, n, al, ar, bal) =
    let (j, w, xs, e, s) = take_first-Shrunk m l i u a o al in
    (
      j,
      w,
      xs ++ (k, v) ∷ entries r,
      ap (λ t. t ++ (k, v) ∷ entries r) e,
      continue_left m n h k v b r s ar bal,
    )

next_of :
    (c : Removal) (l : Node) (b : ℤ) (i u : ℕ)
    → c.old ≡ some (i, u)
    → put_next l b c ≡ drop_right l i u b c
unfolding put_next
next_of c l b i u e = ap (λ o. elim o [ none ↦ none | some (k, v) ↦ drop_right l k v b c ]) e

relabel :
    {h : ℕ} {xs : List (ℕ × ℕ)} {old : Option (ℕ × ℕ)} {made : Option Removal}
    (new : Option (ℕ × ℕ))
    → Shrunk h xs old made
    → Shrunk h xs new (made >>= λ d. some (record d { old = new }))
relabel new s = record {
  change = record s.change { old = new };
  done = rw s.done refl;
  holds = s.holds;
  high = s.high;
  balanced = s.balanced;
  told = s.told;
  kept = refl;
}

-- Both children of a node: its place goes to the first node on the right.
both-Shrunk :
    (m n h : ℕ) (l : Node) (i u : ℕ) (xs : List (ℕ × ℕ)) (made : Option Removal) (b : ℤ) (k v : ℕ)
    → Avl m l
    → Shrunk n xs (some (i, u)) made
    → Bal m n h b
    → Shrunk h
        (entries l ++ (i, u) ∷ xs)
        (some (k, v))
        (made >>= λ c. put_next l b c >>= λ d. some (record d { old = some (k, v) }))
both-Shrunk m n h l i u xs made b k v al s bal =
    rw (s.done, next_of s.change l b i u s.kept, ← s.holds)
      (relabel (some (k, v)) (
        drop_right-Shrunk m n h s.high s.change.tree s.change.lower s.change.old i u b l al
          s.balanced s.told bal))

-- The node leaves, and the entries on its two sides stay in order.
pub remove_node-Shrunk :
    (m n h : ℕ) (l : Node) (k v : ℕ) (b : ℤ) (r : Node)
    → Avl m l
    → Avl n r
    → Bal m n h b
    → Shrunk h (entries l ++ entries r) (some (k, v)) (remove_node l k v b r)
unfolding remove_node
remove_node-Shrunk m n h leaf k v b leaf al ar bal = record {
  change = removal leaf true (some (k, v));
  done = refl;
  holds = refl;
  high = 0;
  balanced = refl;
  told = right_alone m n h b al bal ∙ ap suc ar;
  kept = refl;
}
remove_node-Shrunk m n h leaf k v b (node l i u a r) al ar bal = record {
  change = removal (node l i u a r) true (some (k, v));
  done = refl;
  holds = refl;
  high = n;
  balanced = ar;
  told = right_alone m n h b al bal;
  kept = refl;
}
remove_node-Shrunk m n h (node l i u a r) k v b leaf al ar bal = record {
  change = removal (node l i u a r) true (some (k, v));
  done = refl;
  holds = sym (append-nil (entries (node l i u a r)));
  high = m;
  balanced = al;
  told = left_alone m n h b ar bal;
  kept = refl;
}
remove_node-Shrunk m n h (node l i u a r) k v b (node l' j w d r') al ar bal =
    let (p, q, xs, e, s) = take_first-Shrunk n l' j w d r' ar in
    rw e (both-Shrunk m n h (node l i u a r) p q xs (take_first (node l' j w d r')) b k v al s bal)
