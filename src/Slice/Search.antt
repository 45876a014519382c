-- ===== src/Slice/Search.antt =====
-- The search of `e_slice_free1`, and lists of nodes cut at one.
use egui.Prelude.{
  ℕ, ◌≤◌, ◌<◌, Option, none, some, List, [], ◌∷◌, ◌++◌, ltb, ◌≡◌, arith, refl, ap, inl, inr,
  Bool-cases, ◌∙◌,
}
use egui.Slice.{SliceNode, Found, find_place, place_of, put_by_free, or_later}
use egui.Slice.Inv.{Every, Ordered, Every-append, Every-imp}

place_of-lt :
    (num size addr : ℕ) (n : SliceNode) {i : ℕ} → place_of num size addr n ≡ some i → i < num
unfolding place_of
place_of-lt num size addr n e = ground arith

some-inj : {f g : Found} → some f ≡ some g → f ≡ g
some-inj e = cc e

-- What the search says of the list.
abbrev pub Cut : ℕ → List SliceNode → Found → Type 0
Cut num l f = (l ≡ f.before ++ f.node ∷ f.behind) × (f.place < num)

or_later-some :
    (num : ℕ) (o : Option ℕ) (n : SliceNode) (l : List SliceNode) (later : Option Found) {f : Found}
    → ((i : ℕ) → o ≡ some i → i < num)
    → ((k : Found) → later ≡ some k → Cut num l k)
    → or_later o n l later ≡ some f
    → Cut num (n ∷ l) f
unfolding or_later
or_later-some num (some i) n l later h k e = (
  ap (λ (f : Found). f.before ++ f.node ∷ f.behind) (some-inj e),
  ground (arith, h i refl, ap (λ (f : Found). f.place) (some-inj e)),
)
or_later-some num none n l none h k e = absurd (cc e)
or_later-some num none n l (some g) h k e =
    let (cut, low) = k g refl in
    (
      ap (λ x. n ∷ x) cut ∙ ap (λ (f : Found). f.before ++ f.node ∷ f.behind) (some-inj e),
      ground (arith, low, ap (λ (f : Found). f.place) (some-inj e)),
    )

pub find_place-some :
    (num size addr : ℕ) (l : List SliceNode) {f : Found}
    → find_place num size addr l ≡ some f
    → Cut num l f
unfolding find_place
find_place-some num size addr [] e = absurd (cc e)
find_place-some num size addr (n ∷ l) e =
    or_later-some num (place_of num size addr n) n l (find_place num size addr l)
      (λ i h. place_of-lt num size addr n h) (λ k h. find_place-some num size addr l h) e

pub Every-split :
    (P : SliceNode → Type 0) (l : List SliceNode) (m : SliceNode) (k : List SliceNode)
    → Every P (l ++ m ∷ k)
    → Every P l × P m × Every P k
Every-split P [] m k a = (tt, a.0, a.1)
Every-split P (n ∷ l) m k a = let (x, y, z) = Every-split P l m k a.1 in ((a.0, x), y, z)

pub Ordered-behind :
    (l : List SliceNode) (m : SliceNode) (k : List SliceNode)
    → Ordered (l ++ m ∷ k)
    → Ordered (m ∷ k)
Ordered-behind [] m k o = o
Ordered-behind (n ∷ l) m k o = Ordered-behind l m k o.1

-- Nodes with no fewer free places than one may stand in its place.
pub Ordered-replace :
    (l : List SliceNode) (m : SliceNode) (k k' : List SliceNode)
    → Ordered (l ++ m ∷ k)
    → Every (λ x. m.free_num ≤ x.free_num) k'
    → Ordered k'
    → Ordered (l ++ k')
Ordered-replace [] m k k' o a b = b
Ordered-replace (n ∷ l) m k k' o a b =
    let (x, y, _) = Every-split (λ z. n.free_num ≤ z.free_num) l m k o.0 in
    (
      Every-append (λ z. n.free_num ≤ z.free_num) l k' x (Every-imp k' (λ z less. omega arith) a),
      Ordered-replace l m k k' o.1 a b,
    )

pub Every-put_by_free :
    (P : SliceNode → Type 0) (n : SliceNode) (l : List SliceNode)
    → P n
    → Every P l
    → Every P (put_by_free n l)
unfolding put_by_free
Every-put_by_free P n [] h a = (h, tt)
Every-put_by_free P n (k ∷ l) h a = elim (Bool-cases (ltb k.free_num n.free_num)) [
  | inl e ↦ rw e (a.0, Every-put_by_free P n l h a.1)
  | inr e ↦ rw e (h, a)
]

pub Ordered-put_by_free :
    (n : SliceNode) (l : List SliceNode) → Ordered l → Ordered (put_by_free n l)
unfolding put_by_free
Ordered-put_by_free n [] o = (tt, tt)
Ordered-put_by_free n (k ∷ l) o = elim (Bool-cases (ltb k.free_num n.free_num)) [
  | inl e ↦ rw e (
    Every-put_by_free (λ x. k.free_num ≤ x.free_num) n l (ground arith) o.0,
    Ordered-put_by_free n l o.1,
  )
  | inr e ↦ rw e ((ground arith, Every-imp l (λ z less. ground arith) o.0), o)
]
