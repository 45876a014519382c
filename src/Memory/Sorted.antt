-- ===== src/Memory/Sorted.antt =====
-- The order of a table of free nodes: the smaller ones first.
use egui.Prelude.{
  ◌≤◌, true, false, ◌||◌, some, List, [], ◌∷◌, ◌++◌, ◌==◌, ltb, ◌≡◌, arith, refl, Bool-cases, inl,
  inr,
}
use egui.Memory.Links.{Ptr, has, drop_node, last_of}
use egui.Memory.Links.Laws.{Distinct, has-append, has-drop_node, has-last_of}
use egui.Memory.{HeapNode, put_by_size}

module _ (nodes : Ptr → HeapNode) where
  abbrev pub AtMost : Ptr → List Ptr → Type 0
  AtMost p l = (q : Ptr) → has l q ≡ true → (nodes p).size ≤ (nodes q).size

  abbrev pub IsSorted : List Ptr → Type 0
  IsSorted [] = Unit {0}
  IsSorted (p ∷ l) = (has l p ≡ false) × AtMost p l × IsSorted l

  pub IsSorted-Distinct : (l : List Ptr) → IsSorted l → Distinct l
  IsSorted-Distinct [] s = tt
  IsSorted-Distinct (p ∷ l) s = (s.0, IsSorted-Distinct l s.2)

  pub IsSorted-drop_node : (p : Ptr) (l : List Ptr) → IsSorted l → IsSorted (drop_node p l)
  unfolding drop_node
  IsSorted-drop_node p [] s = tt
  IsSorted-drop_node p (q ∷ l) s = elim (Bool-cases (q == p)) [
    | inl e ↦ rw e s.2
    | inr e ↦
        let d = IsSorted-Distinct l s.2 in
        rw e (
          rw (has-drop_node p l d q) (ground (arith, s.0)),
          λ r h. s.1 r (ground (arith, has-drop_node p l d r)),
          IsSorted-drop_node p l s.2,
        )
  ]

  pub has-put_by_size :
      (p : Ptr) (l : List Ptr) (q : Ptr) → has (put_by_size nodes p l) q ≡ (p == q || has l q)
  unfolding has put_by_size
  has-put_by_size p [] q = refl
  has-put_by_size p (r ∷ l) q = ground (arith, has-put_by_size p l q)

  pub IsSorted-put_by_size :
      (p : Ptr) (l : List Ptr) → has l p ≡ false → IsSorted l → IsSorted (put_by_size nodes p l)
  unfolding has put_by_size
  IsSorted-put_by_size p [] h s = (refl, λ q e. absurd (cc e), tt)
  IsSorted-put_by_size p (r ∷ l) h s = elim (Bool-cases (ltb (nodes r).size (nodes p).size)) [
    | inl e ↦ rw e (
      rw (has-put_by_size p l r) (ground (arith, s.0)),
      λ q m. ground (arith, has-put_by_size p l q, s.1 q),
      IsSorted-put_by_size p l (ground arith) s.2,
    )
    | inr e ↦ rw e (h, λ q m. ground (arith, s.1 q), s)
  ]

  pub IsSorted-append : (l k : List Ptr) → IsSorted (l ++ k) → IsSorted l × IsSorted k
  IsSorted-append [] k s = (tt, s)
  IsSorted-append (p ∷ l) k s =
      let (a, b) = IsSorted-append l k s.2 in
      (
        (ground (arith, s.0, has-append l k p), λ q h. s.1 q (ground (arith, has-append l k q)), a),
        b,
      )

  -- The last node is the greatest.
  pub last_of-AtMost :
      (l : List Ptr) {q : Ptr}
      → IsSorted l
      → last_of l ≡ some q
      → (p : Ptr) → has l p ≡ true
      → (nodes p).size ≤ (nodes q).size
  unfolding last_of has
  last_of-AtMost [] s e p h = absurd (cc e)
  last_of-AtMost (r ∷ []) s e p h = ground arith
  last_of-AtMost (r ∷ t ∷ l) {q} s e p h = elim (Bool-cases (r == p)) [
    | inl same ↦ ground (arith, s.1 q (has-last_of (t ∷ l) e))
    | inr other ↦ last_of-AtMost (t ∷ l) s.2 e p (ground arith)
  ]

pub IsSorted-congr :
    (nodes nodes' : Ptr → HeapNode) (l : List Ptr)
    → ((q : Ptr) → has l q ≡ true → (nodes' q).size ≡ (nodes q).size)
    → IsSorted nodes l
    → IsSorted nodes' l
unfolding has
IsSorted-congr nodes nodes' [] same s = tt
IsSorted-congr nodes nodes' (p ∷ l) same s = (
  s.0,
  λ q h. ground (arith, same q, same p, s.1 q h),
  IsSorted-congr nodes nodes' l (λ q h. same q (ground arith)) s.2,
)
