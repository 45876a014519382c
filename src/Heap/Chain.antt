-- ===== src/Heap/Chain.antt =====
-- Doubly linked chains of nodes in memory, and the list of cells that one stands for.
use egui.Prelude.{ℕ, Bool, true, false, ◌||◌, ◌≡◌, ◌≢◌, refl, List, [], ◌∷◌, ◌++◌, arith, ◌==◌}
use egui.Heap.{Ptr, null, Node, node, Heap, Points}

-- Address and value of each node, in order.
abbrev pub Cells : Type 0
Cells = List (Ptr × ℕ)

abbrev pub cell : Ptr → ℕ → Cells
cell p v = (p, v) ∷ []

abbrev pub has : Ptr → Cells → Bool
has q [] = false
has q ((p, _) ∷ xs) = (q == p) || has q xs

infix 40 ◌∉◌
abbrev pub ◌∉◌ : Ptr → Cells → Type 0
a ∉ xs = has a xs ≡ false

-- The first address, or what follows the chain.
abbrev pub first : Cells → Ptr → Ptr
first [] z = z
first ((p, _) ∷ xs) z = p

-- The last address, or what stands before the chain.
abbrev pub last : Ptr → Cells → Ptr
last a [] = a
last a ((p, _) ∷ xs) = last p xs

-- `xs` are distinct nodes that link forth and back, between `a` and `z`.
abbrev pub Linked : Heap → Ptr → Cells → Ptr → Type 0
Linked h a [] z = Unit
Linked h a ((p, v) ∷ xs) z = Points h p (node v a (first xs z)) × (p ∉ xs) × Linked h p xs z

abbrev pub Apart : Cells → Cells → Type 0
Apart xs ys = (a : Ptr) → has a xs ≡ true → a ∉ ys

pub has-append : (q : Ptr) (xs ys : Cells) → has q (xs ++ ys) ≡ (has q xs || has q ys)
has-append q [] ys = refl
has-append q ((p, v) ∷ xs) ys = ground (arith, has-append q xs ys)

-- An address that is in neither of two chains, and one that is in no chain of which it is no part.
pub not-mem-append : (a : Ptr) (xs ys : Cells) → a ∉ (xs ++ ys) → (a ∉ xs) × (a ∉ ys)
not-mem-append a [] ys out = (refl, out)
not-mem-append a ((p, v) ∷ xs) ys out = ground (arith, not-mem-append a xs ys)

pub first-append : (xs ys : Cells) (z : Ptr) → first (xs ++ ys) z ≡ first xs (first ys z)
first-append [] ys z = refl
first-append (x ∷ xs) ys z = refl

pub last-append : (a : Ptr) (xs ys : Cells) → last a (xs ++ ys) ≡ last (last a xs) ys
last-append a [] ys = refl
last-append a ((p, v) ∷ xs) ys = last-append p xs ys

pub Linked-frame :
    (h g : Heap) (a : Ptr) (xs : Cells) (z : Ptr)
    → ((p : Ptr) → has p xs ≡ true → g p ≡ h p)
    → Linked h a xs z
    → Linked g a xs z
Linked-frame h g a [] z same l = tt
Linked-frame h g a ((p, v) ∷ xs) z same (e, out, l) = (
  record { ne_null = e.ne_null; holds = ground (arith, same p, e.holds) },
  out,
  Linked-frame h g p xs z (λ q i. same q (ground arith)) l,
)

pub Linked-append :
    (h : Heap) (a : Ptr) (xs ys : Cells) (z : Ptr)
    → Linked h a xs (first ys z)
    → Linked h (last a xs) ys z
    → Apart xs ys
    → Linked h a (xs ++ ys) z
Linked-append h a [] ys z l m apart = m
Linked-append h a ((p, v) ∷ xs) ys z (e, out, l) m apart = (
  rw (first-append xs ys z) e,
  rw (has-append p xs ys, out) (apart p (ground arith)),
  Linked-append h p xs ys z l m (λ q i. apart q (ground arith)),
)

-- A chain cut in two.
pub record Split (h : Heap) (a : Ptr) (xs ys : Cells) (z : Ptr) : Type 0 where
  pub front : Linked h a xs (first ys z)
  pub back : Linked h (last a xs) ys z
  pub apart : Apart xs ys

pub Linked-Split :
    (h : Heap) (a : Ptr) (xs ys : Cells) (z : Ptr) → Linked h a (xs ++ ys) z → Split h a xs ys z
Linked-Split h a [] ys z l = record { front = tt; back = l; apart = λ p i. cc }
Linked-Split h a ((p, v) ∷ xs) ys z (e, out, l) =
    let rest = Linked-Split h p xs ys z l in
    let unseen : (has p xs || has p ys) ≡ false = rw (has-append p xs ys) at out in
    record {
      front = (rw (first-append xs ys z) at e, ground arith, rest.front);
      back = rest.back;
      apart = λ q i. ground (arith, rest.apart q);
    }

-- The nodes at the two ends of a chain.
pub last_node :
    (h : Heap) (a p : Ptr) (v : ℕ) (xs : Cells) (z : Ptr)
    → Linked h a ((p, v) ∷ xs) z
    → (n : Node) × Points h (last p xs) n × (n.next ≡ z)
last_node h a p v [] z (e, out, l) = (node v a z, e, refl)
last_node h a p v ((q, w) ∷ xs) z (e, out, l) = last_node h p q w xs z l

pub node_before :
    (h : Heap) (xs : Cells) (z : Ptr)
    → Linked h null xs z
    → last null xs ≢ null
    → (n : Node) × Points h (last null xs) n × (n.next ≡ z)
node_before h [] z l n = absurd (n refl)
node_before h ((p, v) ∷ xs) z l n = last_node h null p v xs z l

pub node_behind :
    (h : Heap) (a : Ptr) (ys : Cells)
    → Linked h a ys null
    → first ys null ≢ null
    → (n : Node) × Points h (first ys null) n × (n.prev ≡ a)
node_behind h a [] l n = absurd (n refl)
node_behind h a ((p, v) ∷ ys) (e, _, _) n = (node v a (first ys null), e, refl)

-- The ends of a chain are NULL only if it is empty.
pub first-null :
    (h : Heap) (a : Ptr) (xs : Cells) (z : Ptr) → Linked h a xs z → first xs null ≡ null → xs ≡ []
first-null h a [] z l e = refl
first-null h a ((p, v) ∷ xs) z (at, _, _) e = absurd (at.ne_null e)

pub last-null :
    (h : Heap) (xs : Cells) (z : Ptr) → Linked h null xs z → last null xs ≡ null → xs ≡ []
last-null h [] z l e = refl
last-null h ((p, v) ∷ xs) z l e =
    let (n, at, _) = last_node h null p v xs z l in absurd (at.ne_null e)

-- An address outside a chain is not at its ends.
ne-last_cons : (a p : Ptr) (v : ℕ) (xs : Cells) → a ∉ ((p, v) ∷ xs) → a ≢ last p xs
ne-last_cons a p v [] out = λ e. ground arith
ne-last_cons a p v ((q, w) ∷ xs) out = ne-last_cons a q w xs (ground arith)

pub ne-last : (a : Ptr) (xs : Cells) → a ≢ null → a ∉ xs → a ≢ last null xs
ne-last a [] n out = n
ne-last a ((p, v) ∷ xs) n out = ne-last_cons a p v xs out

pub ne-first : (a : Ptr) (ys : Cells) → a ≢ null → a ∉ ys → a ≢ first ys null
ne-first a [] n out = n
ne-first a ((p, v) ∷ ys) n out = λ e. ground arith

-- The ends of a chain with a member, whatever stands on the member's other side.
pub first_member :
    (xs : Cells) (p : Ptr) (v w : ℕ) (ys zs : Cells) (a b : Ptr)
    → first (xs ++ (p, v) ∷ ys) a ≡ first (xs ++ (p, w) ∷ zs) b
first_member [] p v w ys zs a b = refl
first_member (x ∷ xs) p v w ys zs a b = refl

pub last_member :
    (a : Ptr) (xs : Cells) (p : Ptr) (v : ℕ) (ys : Cells) → last a (xs ++ (p, v) ∷ ys) ≡ last p ys
last_member a xs p v ys = last-append a xs ((p, v) ∷ ys)
