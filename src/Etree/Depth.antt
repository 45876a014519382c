-- ===== src/Etree/Depth.antt =====
-- How high a tree with so many nodes can be. The functions that walk down keep the way in an array
-- of 40 places, without a test: one for each node on the way and one for NULL above the root.
use egui.Prelude.{
  ℕ, zero, suc, ◌+◌, ◌-◌, ◌≤◌, ◌<◌, ◌≡◌, refl, ◌∷◌, arith, length, length-append, lt_or_ge, inl,
  inr,
}
use egui.Prelude.Int.{ℤ}
use egui.Etree.{Sign, less, same, greater, Node, leaf, node, Tree}
use egui.Etree.Balance.{entries, Avl, Bal, left_high, level, right_high}
use egui.Etree.Inv.{IsValid}
use egui.Etree.Order.{Sign-cases}

-- The fewest nodes of a balanced tree of height `h`, and of one of height `h + 1`.
abbrev fewest : ℕ → ℕ × ℕ
fewest zero = (0, 1)
fewest (suc h) = let (a, b) = fewest h in (b, 1 + a + b)

fewest_up : (h : ℕ) → (fewest h).0 ≤ (fewest h).1
fewest_up zero = omega arith
fewest_up (suc h) = omega (arith, fewest_up h)

fewest_mono : (k h j : ℕ) → j ≡ h + k → (fewest h).0 ≤ (fewest j).0
fewest_mono zero h j e = let s : j ≡ h = omega arith in rw s (omega arith)
fewest_mono (suc k) h zero e = absurd (omega arith)
fewest_mono (suc k) h (suc j) e = omega (arith, fewest_mono k h j (omega arith), fewest_up j)

fewest_double : (h : ℕ) → (fewest h).1 ≤ 1 + (fewest h).0 + (fewest h).0
fewest_double zero = omega arith
fewest_double (suc h) = omega (arith, fewest_up h)

-- The three shapes of a node.
fewest-Bal : (m n h : ℕ) (b : ℤ) → Bal m n h b → (fewest h).0 ≤ 1 + (fewest m).0 + (fewest n).0
fewest-Bal m n h _ (left_high e f) = rw (f, e) (omega arith)
fewest-Bal m n h _ (level e f) = rw (f, e) (omega (arith, fewest_double n))
fewest-Bal m n h _ (right_high e f) = rw (f, e) (omega arith)

fewest-Avl : (h : ℕ) (t : Node) → Avl h t → (fewest h).0 ≤ length (entries t)
fewest-Avl h leaf a = rw a (omega arith)
fewest-Avl h (node l k v b r) (m, n, al, ar, bal) = omega (
  arith,
  length-append (entries l) ((k, v) ∷ entries r),
  fewest-Bal m n h b bal,
  fewest-Avl m l al,
  fewest-Avl n r ar,
)

-- The nodes on the way that a lookup of the key goes, down to the node where it ends.
pub way : (compare : ℕ → ℕ → Sign) → ℕ → Node → ℕ
way compare key leaf = 0
way compare key (node l k v b r) = elim (compare key k) [
  | same ↦ 1
  | less ↦ 1 + way compare key l
  | greater ↦ 1 + way compare key r
]

way-Avl : (compare : ℕ → ℕ → Sign) (key h : ℕ) (t : Node) → Avl h t → way compare key t ≤ h
unfolding way
way-Avl compare key h leaf a = omega arith
way-Avl compare key h (node l k v b r) (m, n, al, ar, bal) =
    let (el, er) = below m n h b bal in
    elim (Sign-cases (compare key k)) [
      | inl c ↦ rw (c, way) (omega (arith, el))
      | inr (inl c) ↦ rw (c, way) (omega (arith, el, way-Avl compare key m l al))
      | inr (inr c) ↦ rw (c, way) (omega (arith, er, way-Avl compare key n r ar))
    ]
  where
    below : (m n h : ℕ) (b : ℤ) → Bal m n h b → (m < h) × (n < h)
    below m n h _ (left_high e f) = (omega (arith, e, f), omega (arith, e, f))
    below m n h _ (level e f) = (omega (arith, e, f), omega (arith, e, f))
    below m n h _ (right_high e f) = (omega (arith, e, f), omega (arith, e, f))

-- In a valid tree of fewer than 267914295 nodes the loop that looks for a key comes through fewer
-- than 40 nodes, so that NULL and the nodes above the last one fit into the array `path` of 40
-- places.
pub way_lem :
    (compare : ℕ → ℕ → Sign) (t : Tree)
    → IsValid compare t
    → t.nnodes < 267914295
    → (key : ℕ) → way compare key t.root < 40
way_lem compare t v few key = elim (lt_or_ge v.high 40) [
  | inl c ↦ omega (arith, way-Avl compare key v.high t.root v.balanced, c)
  | inr c ↦ absurd (
      omega (
        arith,
        few,
        v.counted,
        fewest-Avl v.high t.root v.balanced,
        fewest_mono (v.high - 40) 40 v.high (omega (arith, c)),
        at_forty,
      ))
]
  where
    at_forty : (fewest 40).0 ≡ 267914295
    at_forty = refl
