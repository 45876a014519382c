-- ===== src/Memory/Links/Laws.antt =====
-- The laws of lists of nodes.
use egui.Prelude.{
  true, false, ◌||◌, ◌&&◌, not, Option, none, some, List, [], ◌∷◌, ◌++◌, ◌==◌, ◌≡◌, arith, refl,
  Bool-cases, inl, inr, ap,
}
use egui.Memory.Links.{Ptr, has, drop_node, next_of, prev_of, last_of, put_before}

abbrev pub Distinct : List Ptr → Type 0
Distinct [] = Unit {0}
Distinct (p ∷ l) = (has l p ≡ false) × Distinct l

pub has-append : (l k : List Ptr) (p : Ptr) → has (l ++ k) p ≡ (has l p || has k p)
unfolding has
has-append [] k p = refl
has-append (q ∷ l) k p = ground (arith, has-append l k p)

pub has-drop_node :
    (p : Ptr) (l : List Ptr)
    → Distinct l
    → (q : Ptr) → has (drop_node p l) q ≡ (has l q && not (q == p))
unfolding has drop_node
has-drop_node p [] d q = refl
has-drop_node p (r ∷ l) d q = ground (arith, has-drop_node p l d.1 q, d.0)

pub Distinct-drop_node : (p : Ptr) (l : List Ptr) → Distinct l → Distinct (drop_node p l)
unfolding drop_node
Distinct-drop_node p [] d = d
Distinct-drop_node p (q ∷ l) d = elim (Bool-cases (q == p)) [
  | inl e ↦ rw e d.1
  | inr e ↦ rw e (rw (has-drop_node p l d.1 q) (ground (arith, d.0)), Distinct-drop_node p l d.1)
]

-- A member splits the list.
pub has-split :
    (l : List Ptr) (p : Ptr)
    → has l p ≡ true
    → (pre : List Ptr) × (post : List Ptr) × (l ≡ pre ++ p ∷ post)
unfolding has
has-split [] p h = absurd (cc h)
has-split (q ∷ l) p h = elim (Bool-cases (q == p)) [
  | inl e ↦ ([], l, ground arith)
  | inr e ↦
      let (pre, post, same) = has-split l p (ground arith) in (q ∷ pre, post, ap (λ t. q ∷ t) same)
]

abbrev pub first_of : List Ptr → Option Ptr
first_of [] = none
first_of (p ∷ l) = some p

pub drop_node-append :
    (p : Ptr) (pre post : List Ptr)
    → has pre p ≡ false
    → drop_node p (pre ++ p ∷ post) ≡ pre ++ post
unfolding has drop_node
drop_node-append p [] post h = ground arith
drop_node-append p (q ∷ pre) post h = ground (arith, drop_node-append p pre post)

pub next_of-append :
    (p : Ptr) (pre post : List Ptr)
    → has pre p ≡ false
    → next_of p (pre ++ p ∷ post) ≡ first_of post
unfolding has next_of
next_of-append p [] [] h = refl
next_of-append p [] (r ∷ post) h = ground arith
next_of-append p (q ∷ []) post h = ground (arith, next_of-append p [] post)
next_of-append p (q ∷ r ∷ pre) post h = ground (arith, next_of-append p (r ∷ pre) post)

prev_of-absent : (p q : Ptr) (l : List Ptr) → has l p ≡ false → prev_of p (q ∷ l) ≡ none
unfolding has prev_of
prev_of-absent p q [] h = refl
prev_of-absent p q (r ∷ l) h = ground (arith, prev_of-absent p r l)

pub prev_of-append :
    (p : Ptr) (pre post : List Ptr)
    → has pre p ≡ false
    → has post p ≡ false
    → prev_of p (pre ++ p ∷ post) ≡ last_of pre
unfolding has prev_of last_of
prev_of-append p [] post h k = prev_of-absent p p post k
prev_of-append p (q ∷ []) post h k = ground arith
prev_of-append p (q ∷ r ∷ pre) post h k = ground (arith, prev_of-append p (r ∷ pre) post)

pub put_before-append :
    (p new : Ptr) (pre post : List Ptr)
    → has pre p ≡ false
    → put_before p new (pre ++ p ∷ post) ≡ pre ++ new ∷ p ∷ post
unfolding has put_before
put_before-append p new [] post h = ground arith
put_before-append p new (q ∷ pre) post h = ground (arith, put_before-append p new pre post)

-- The part of the list before its last node.
pub last_of-split :
    (l : List Ptr) {q : Ptr} → last_of l ≡ some q → (pre : List Ptr) × (l ≡ pre ++ q ∷ [])
unfolding last_of
last_of-split [] e = absurd (cc e)
last_of-split (r ∷ []) e = ([], ground arith)
last_of-split (r ∷ s ∷ l) e =
    let (pre, same) = last_of-split (s ∷ l) e in (r ∷ pre, ap (λ t. r ∷ t) same)

pub last_of-none : (l : List Ptr) → last_of l ≡ none → l ≡ []
unfolding last_of
last_of-none [] e = refl
last_of-none (r ∷ []) e = absurd (cc e)
last_of-none (r ∷ s ∷ l) e = absurd (cc (last_of-none (s ∷ l) e))

pub has-last_of : (l : List Ptr) {q : Ptr} → last_of l ≡ some q → has l q ≡ true
unfolding last_of has
has-last_of [] e = absurd (cc e)
has-last_of (r ∷ []) e = ground arith
has-last_of (r ∷ s ∷ l) e = ground (arith, has-last_of (s ∷ l) e)

pub Distinct-append :
    (pre : List Ptr) (p : Ptr) (post : List Ptr)
    → Distinct (pre ++ p ∷ post)
    → (has pre p ≡ false) × (has post p ≡ false)
unfolding has
Distinct-append [] p post d = (refl, d.0)
Distinct-append (q ∷ pre) p post d =
    ground (arith, Distinct-append pre p post d.1, d.0, has-append pre (p ∷ post) q)

pub has-first_of : (l : List Ptr) {p : Ptr} → first_of l ≡ some p → has l p ≡ true
unfolding has
has-first_of [] e = absurd (cc e)
has-first_of (q ∷ l) e = ground arith

pub first_of-none : (l : List Ptr) → first_of l ≡ none → l ≡ []
first_of-none [] e = refl
first_of-none (q ∷ l) e = absurd (cc e)
