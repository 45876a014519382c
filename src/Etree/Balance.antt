-- ===== src/Etree/Balance.antt =====
-- Rotations and `e_tree_node_balance`, on the heights of subtrees and the list of entries.
use egui.Prelude.{
  ℕ, suc, ◌≡◌, refl, sym, Option, some, List, [], ◌∷◌, ◌++◌, append_assoc, arith, if◌then◌else◌,
}
use egui.Prelude.Int.{ℤ, pos, negsuc}
use egui.Etree.{Node, leaf, node, rotate_left, rotate_right, rebalance, balance_of, is_level}

-- The entries in key order.
abbrev pub entries : Node → List (ℕ × ℕ)
entries leaf = []
entries (node l k v b r) = entries l ++ (k, v) ∷ entries r

-- A balance field that is right, for subtrees of the heights `m` and `n`, in a tree of height `h`.
pub data Bal (m n h : ℕ) : ℤ → Type 0 where
  left_high : m ≡ suc n → h ≡ suc m → Bal m n h (negsuc 0)
  level : m ≡ n → h ≡ suc m → Bal m n h (pos 0)
  right_high : n ≡ suc m → h ≡ suc n → Bal m n h (pos 1)

-- A balanced tree of height `h`.
abbrev pub Avl : ℕ → Node → Type 0
Avl h leaf = h ≡ 0
Avl h (node l _ _ b r) = (m : ℕ) × (n : ℕ) × Avl m l × Avl n r × Bal m n h b

-- A node that was too deep by one on one side: it is repaired, and its balance tells its height.
pub record Rebuilt (n : ℕ) (xs : List (ℕ × ℕ)) (made : Option Node) : Type 0 where
  pub tree : Node
  pub done : made ≡ some tree
  pub same : entries tree ≡ xs
  pub height : ℕ
  pub balanced : Avl height tree
  pub told : height ≡ (if is_level (balance_of tree) then suc (suc n) else suc (suc (suc n)))

single :
    (l : Node) (k v : ℕ) (m : Node) (k' v' : ℕ) (r : Node)
    → entries l ++ (k, v) ∷ (entries m ++ (k', v') ∷ entries r)
      ≡ (entries l ++ (k, v) ∷ entries m) ++ (k', v') ∷ entries r
single l k v m k' v' r = sym (append_assoc (entries l) ((k, v) ∷ entries m) ((k', v') ∷ entries r))

double :
    (a : Node) (i u : ℕ) (c : Node) (j w : ℕ) (d : Node) (k v : ℕ) (r : Node)
    → (entries a ++ (i, u) ∷ entries c) ++ (j, w) ∷ (entries d ++ (k, v) ∷ entries r)
      ≡ (entries a ++ (i, u) ∷ (entries c ++ (j, w) ∷ entries d)) ++ (k, v) ∷ entries r
double a i u c j w d k v r = simp append_assoc

double_right :
    (n p q : ℕ) (a : Node) (i u : ℕ) (b : Node) (k v : ℕ) (r : Node)
    → Avl p a
    → Avl q b
    → p ≡ n
    → q ≡ suc n
    → Avl n r
    → Rebuilt n
        ((entries a ++ (i, u) ∷ entries b) ++ (k, v) ∷ entries r)
        (rebalance (node (node a i u (pos 1) b) k v (negsuc 1) r))
unfolding rebalance rotate_right rotate_left
double_right n p q a i u leaf k v r aa ab ep eq ar = absurd (omega (arith, ab))
double_right n p q a i u (node c j w _ d) k v r aa (s, t, ac, ad, left_high e f) ep eq ar = record {
  tree = node (node a i u (pos 0) c) j w (pos 0) (node d k v (pos 1) r);
  done = refl;
  same = double a i u c j w d k v r;
  height = suc (suc n);
  balanced = (
    suc n,
    suc n,
    (p, s, aa, ac, level (omega arith) (omega arith)),
    (t, n, ad, ar, right_high (omega arith) (omega arith)),
    level refl refl,
  );
  told = refl;
}
double_right n p q a i u (node c j w _ d) k v r aa (s, t, ac, ad, level e f) ep eq ar = record {
  tree = node (node a i u (pos 0) c) j w (pos 0) (node d k v (pos 0) r);
  done = refl;
  same = double a i u c j w d k v r;
  height = suc (suc n);
  balanced = (
    suc n,
    suc n,
    (p, s, aa, ac, level (omega arith) (omega arith)),
    (t, n, ad, ar, level (omega arith) (omega arith)),
    level refl refl,
  );
  told = refl;
}
double_right n p q a i u (node c j w _ d) k v r aa (s, t, ac, ad, right_high e f) ep eq ar =
    record {
      tree = node (node a i u (negsuc 0) c) j w (pos 0) (node d k v (pos 0) r);
      done = refl;
      same = double a i u c j w d k v r;
      height = suc (suc n);
      balanced = (
        suc n,
        suc n,
        (p, s, aa, ac, left_high (omega arith) (omega arith)),
        (t, n, ad, ar, level (omega arith) (omega arith)),
        level refl refl,
      );
      told = refl;
    }

-- `e_tree_node_balance` of a node that is left-high by two.
pub rebalance_left-Rebuilt :
    (n : ℕ) (l : Node) (k v : ℕ) (r : Node)
    → Avl (suc (suc n)) l
    → Avl n r
    → Rebuilt n (entries l ++ (k, v) ∷ entries r) (rebalance (node l k v (negsuc 1) r))
unfolding rebalance rotate_right rotate_left
rebalance_left-Rebuilt n leaf k v r al ar = absurd (omega (arith, al))
rebalance_left-Rebuilt n (node a i u _ b) k v r (p, q, aa, ab, left_high e f) ar = record {
  tree = node a i u (pos 0) (node b k v (pos 0) r);
  done = refl;
  same = single a i u b k v r;
  height = suc (suc n);
  balanced = (
    p,
    suc n,
    aa,
    (q, n, ab, ar, level (omega arith) (omega arith)),
    level (omega arith) (omega arith),
  );
  told = refl;
}
rebalance_left-Rebuilt n (node a i u _ b) k v r (p, q, aa, ab, level e f) ar = record {
  tree = node a i u (pos 1) (node b k v (negsuc 0) r);
  done = refl;
  same = single a i u b k v r;
  height = suc (suc (suc n));
  balanced = (
    p,
    suc (suc n),
    aa,
    (q, n, ab, ar, left_high (omega arith) (omega arith)),
    right_high (omega arith) (omega arith),
  );
  told = refl;
}
rebalance_left-Rebuilt n (node a i u _ b) k v r (p, q, aa, ab, right_high e f) ar =
    double_right n p q a i u b k v r aa ab (omega arith) (omega arith) ar

double_mirror :
    (l : Node) (k v : ℕ) (c : Node) (j w : ℕ) (d : Node) (i u : ℕ) (b : Node)
    → (entries l ++ (k, v) ∷ entries c) ++ (j, w) ∷ (entries d ++ (i, u) ∷ entries b)
      ≡ entries l ++ (k, v) ∷ ((entries c ++ (j, w) ∷ entries d) ++ (i, u) ∷ entries b)
double_mirror l k v c j w d i u b = simp append_assoc

double_left :
    (n p q : ℕ) (l : Node) (k v : ℕ) (a : Node) (i u : ℕ) (b : Node)
    → Avl n l
    → Avl p a
    → Avl q b
    → p ≡ suc n
    → q ≡ n
    → Rebuilt n
        (entries l ++ (k, v) ∷ (entries a ++ (i, u) ∷ entries b))
        (rebalance (node l k v (pos 2) (node a i u (negsuc 0) b)))
unfolding rebalance rotate_right rotate_left
double_left n p q l k v leaf i u b al aa ab ep eq = absurd (omega (arith, aa))
double_left n p q l k v (node c j w _ d) i u b al (s, t, ac, ad, left_high e f) ab ep eq = record {
  tree = node (node l k v (pos 0) c) j w (pos 0) (node d i u (pos 1) b);
  done = refl;
  same = double_mirror l k v c j w d i u b;
  height = suc (suc n);
  balanced = (
    suc n,
    suc n,
    (n, s, al, ac, level (omega arith) (omega arith)),
    (t, q, ad, ab, right_high (omega arith) (omega arith)),
    level refl refl,
  );
  told = refl;
}
double_left n p q l k v (node c j w _ d) i u b al (s, t, ac, ad, level e f) ab ep eq = record {
  tree = node (node l k v (pos 0) c) j w (pos 0) (node d i u (pos 0) b);
  done = refl;
  same = double_mirror l k v c j w d i u b;
  height = suc (suc n);
  balanced = (
    suc n,
    suc n,
    (n, s, al, ac, level (omega arith) (omega arith)),
    (t, q, ad, ab, level (omega arith) (omega arith)),
    level refl refl,
  );
  told = refl;
}
double_left n p q l k v (node c j w _ d) i u b al (s, t, ac, ad, right_high e f) ab ep eq = record {
  tree = node (node l k v (negsuc 0) c) j w (pos 0) (node d i u (pos 0) b);
  done = refl;
  same = double_mirror l k v c j w d i u b;
  height = suc (suc n);
  balanced = (
    suc n,
    suc n,
    (n, s, al, ac, left_high (omega arith) (omega arith)),
    (t, q, ad, ab, level (omega arith) (omega arith)),
    level refl refl,
  );
  told = refl;
}

-- `e_tree_node_balance` of a node that is right-high by two.
pub rebalance_right-Rebuilt :
    (n : ℕ) (l : Node) (k v : ℕ) (r : Node)
    → Avl n l
    → Avl (suc (suc n)) r
    → Rebuilt n (entries l ++ (k, v) ∷ entries r) (rebalance (node l k v (pos 2) r))
unfolding rebalance rotate_right rotate_left
rebalance_right-Rebuilt n l k v leaf al ar = absurd (omega (arith, ar))
rebalance_right-Rebuilt n l k v (node a i u _ b) al (p, q, aa, ab, right_high e f) = record {
  tree = node (node l k v (pos 0) a) i u (pos 0) b;
  done = refl;
  same = append_assoc (entries l) ((k, v) ∷ entries a) ((i, u) ∷ entries b);
  height = suc (suc n);
  balanced = (
    suc n,
    q,
    (n, p, al, aa, level (omega arith) (omega arith)),
    ab,
    level (omega arith) (omega arith),
  );
  told = refl;
}
rebalance_right-Rebuilt n l k v (node a i u _ b) al (p, q, aa, ab, level e f) = record {
  tree = node (node l k v (pos 1) a) i u (negsuc 0) b;
  done = refl;
  same = append_assoc (entries l) ((k, v) ∷ entries a) ((i, u) ∷ entries b);
  height = suc (suc (suc n));
  balanced = (
    suc (suc n),
    q,
    (n, p, al, aa, right_high (omega arith) (omega arith)),
    ab,
    left_high (omega arith) (omega arith),
  );
  told = refl;
}
rebalance_right-Rebuilt n l k v (node a i u _ b) al (p, q, aa, ab, left_high e f) =
    double_left n p q l k v a i u b al aa ab (omega arith) (omega arith)
