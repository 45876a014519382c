-- ===== src/Heap.antt =====
-- Memory as the list code of elib sees it: list nodes at addresses, and commands that read and write
-- them. A command that reads or writes through NULL or at an address with no node yields `none`.
pub mod Chain
pub mod Relink
use egui.Prelude.{
  ℕ, zero, suc, Option, none, some, ◌≡◌, ◌≢◌, arith, ◌==◌, if◌then◌else◌, Bool, true, false,
}

abbrev pub Ptr : Type 0
Ptr = ℕ

abbrev pub null : Ptr
null = 0

-- `elistnode_t`; `value` stands for the bytes behind the two links, which are only ever copied.
pub record Node : Type 0 where
  pub next : Ptr
  pub prev : Ptr
  pub value : ℕ

abbrev pub node : ℕ → (prev next : Ptr) → Node
node v a b = record { next = b; prev = a; value = v }

abbrev pub Heap : Type 0
Heap = Ptr → Option Node

unfoldable pub write : Heap → Ptr → Option Node → Heap
write heap at n p = if p == at then n else heap p

abbrev pub Cmd : Type 0 → Type 0
Cmd A = Heap → Option (A × Heap)

abbrev pub pure : {A : Type 0} → A → Cmd A
pure a h = some (a, h)

module _ {A B : Type 0} where
  abbrev pub and_then : Option (A × Heap) → (A → Cmd B) → Option (B × Heap)
  and_then none next = none
  and_then (some (a, heap)) next = next a heap

  infixl 5 ◌>>=◌ ◌>>◌
  abbrev pub ◌>>=◌ : Cmd A → (A → Cmd B) → Cmd B
  c >>= next = λ heap. and_then (c heap) next

  abbrev pub ◌>>◌ : Cmd A → Cmd B → Cmd B
  c >> d = λ heap. and_then (c heap) (λ _. d)

unfoldable pub load : Ptr → Cmd Node
load p h = if p == null then none else elim (h p) [ none ↦ none | some n ↦ some (n, h) ]

-- `p->next = q`
unfoldable pub set_next : (p q : Ptr) → Cmd (Unit {0})
set_next p q h =
    if p == null
    then none
    else elim (h p) [ none ↦ none | some n ↦ some (tt, write h p (some (record n { next = q }))) ]

-- `p->prev = q`
unfoldable pub set_prev : (p q : Ptr) → Cmd (Unit {0})
set_prev p q h =
    if p == null
    then none
    else elim (h p) [ none ↦ none | some n ↦ some (tt, write h p (some (record n { prev = q }))) ]

-- `e_slice_free1`
unfoldable pub free : Ptr → Cmd (Unit {0})
free p h =
    if p == null then none else elim (h p) [ none ↦ none | some n ↦ some (tt, write h p none) ]

-- The command ends without a fault, in a result and a memory of which `P` holds.
pub data Ends {A : Type 0} (P : A → Heap → Type 0) : Option (A × Heap) → Type 0 where
  ends : {a : A} {h : Heap} → P a h → Ends P (some (a, h))

module _ {A : Type 0} {P : A → Heap → Type 0} where
  pub Ends-bind :
      {B : Type 0} {Q : B → Heap → Type 0} {r : Option (A × Heap)} {k : A → Cmd B}
      → Ends P r
      → ((a : A) (h : Heap) → P a h → Ends Q (k a h))
      → Ends Q (and_then r k)
  Ends-bind (ends p) next = next _ _ p

  pub Ends-imp :
      {Q : A → Heap → Type 0} {r : Option (A × Heap)}
      → Ends P r
      → ((a : A) (h : Heap) → P a h → Q a h)
      → Ends Q r
  Ends-imp (ends p) f = ends (f _ _ p)

-- A node at an address that can be read and written.
pub record Points (h : Heap) (p : Ptr) (n : Node) : Type 0 where
  pub ne_null : p ≢ null
  pub holds : h p ≡ some n

module _ {h : Heap} {p : Ptr} {n : Node} (e : Points h p n) where
  pub load-ok : load p h ≡ some (n, h)
  unfolding load
  load-ok = ground (arith, e.ne_null, e.holds)

  pub set_next-ok : (q : Ptr) → set_next p q h ≡ some (tt, write h p (some (record n { next = q })))
  unfolding set_next
  set_next-ok q = ground (arith, e.ne_null, e.holds)

  pub set_prev-ok : (q : Ptr) → set_prev p q h ≡ some (tt, write h p (some (record n { prev = q })))
  unfolding set_prev
  set_prev-ok q = ground (arith, e.ne_null, e.holds)

  pub free-ok : free p h ≡ some (tt, write h p none)
  unfolding free
  free-ok = ground (arith, e.ne_null, e.holds)

pub Points-write :
    {h : Heap} {p : Ptr} {n : Node} (a : Ptr) (c : Option Node)
    → a ≢ p
    → Points h p n
    → Points (write h a c) p n
unfolding write
Points-write {p} a c ne e = record { ne_null = e.ne_null; holds = ground (arith, e.holds) }

pub Points-self : (h : Heap) (p : Ptr) (n : Node) → p ≢ null → Points (write h p (some n)) p n
unfolding write
Points-self h p n ne = record { ne_null = ne; holds = ground arith }
