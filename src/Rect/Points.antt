-- ===== src/Rect/Points.antt =====
-- Rectangles as sets of points.
use egui.Prelude.{
  Bool, true, false, ◌≡◌, ◌⊎◌, refl, sym, ap, ap₂, ◌∙◌, none, some, ◌&&◌, ◌||◌, not, if◌then◌else◌,
  arith, inl, inr,
}
use egui.Prelude.Int.{ℤ, pos, ◌+ℤ◌, ◌-ℤ◌, ltb_ℤ, leb_ℤ}
use egui.Rect.{Rect, within, point_in, is_covered, larger, smaller, intersect, get_bound, normalize}

plus-minus : (a b : ℤ) → a +ℤ (b -ℤ a) ≡ b
plus-minus a b = ground arith

within-meet : (a b c d v : ℤ) → (within a b v && within c d v) ≡ within (larger a c) (smaller b d) v
within-meet a b c d v = ground arith

within-empty : (a b v : ℤ) → leb_ℤ b a ≡ true → within a b v ≡ false
within-empty a b v e = ground arith

four_tests : (a b c d : Bool) → ((a && b) && (c && d)) ≡ ((a && c) && (b && d))
four_tests true true c d = refl
four_tests true false true d = refl
four_tests true false false d = refl
four_tests false b c d = refl

and-false : (a : Bool) → (a && false) ≡ false
and-false true = refl
and-false false = refl

-- The rectangle between two corners, where there is one.
abbrev span : (l t r b : ℤ) → Rect
span l t r b = record { x = l; y = t; w = r -ℤ l; h = b -ℤ t }

point_in-span : (l t r b x y : ℤ) → point_in (span l t r b) x y ≡ (within l r x && within t b y)
unfolding point_in
point_in-span l t r b x y =
    ap₂ (λ i j. within l i x && within t j y) (plus-minus l r) (plus-minus t b)

corners :
    (l t r b x y : ℤ) (flat thin : Bool)
    → leb_ℤ r l ≡ flat
    → leb_ℤ b t ≡ thin
    → (within l r x && within t b y) ≡ elim (if flat || thin then none else some (span l t r b)) [
      | none ↦ false
      | some s ↦ point_in s x y
    ]
corners l t r b x y true thin e f = ap (λ c. c && within t b y) (within-empty l r x e)
corners l t r b x y false true e f =
    ap (λ c. within l r x && c) (within-empty t b y f) ∙ and-false (within l r x)
corners l t r b x y false false e f = sym (point_in-span l t r b x y)

-- A point is in both rectangles just where it is in the one that `egal_rect_intersect` makes of
-- them, and in neither together where that returns efalse.
pub intersect_lem :
    (p q : Rect) (x y : ℤ)
    → (point_in p x y && point_in q x y)
      ≡ elim (intersect p q) [ none ↦ false | some r ↦ point_in r x y ]
unfolding intersect point_in
intersect_lem p q x y =
    let l = larger p.x q.x in
    let t = larger p.y q.y in
    let r = smaller (p.x +ℤ p.w) (q.x +ℤ q.w) in
    let b = smaller (p.y +ℤ p.h) (q.y +ℤ q.h) in
    four_tests (within p.x (p.x +ℤ p.w) x) (within p.y (p.y +ℤ p.h) y) (within q.x (q.x +ℤ q.w) x)
      (within q.y (q.y +ℤ q.h) y)
    ∙ ap₂ ◌&&◌ (within-meet p.x (p.x +ℤ p.w) q.x (q.x +ℤ q.w) x)
        (within-meet p.y (p.y +ℤ p.h) q.y (q.y +ℤ q.h) y)
    ∙ corners l t r b x y (leb_ℤ r l) (leb_ℤ b t) refl refl

covered_1 :
    (a b c d v : ℤ)
    → ltb_ℤ a c ≡ false
    → ltb_ℤ d b ≡ false
    → within a b v ≡ true
    → within c d v ≡ true
covered_1 a b c d v e f i = ground arith

and-split : (a b : Bool) → (a && b) ≡ true → (a ≡ true) × (b ≡ true)
and-split true true e = (refl, refl)
and-split true false e = (refl, e)
and-split false b e = (e, absurd (cc e))

none_of :
    (a b c d : Bool)
    → not (a || b || c || d) ≡ true
    → (a ≡ false) × (b ≡ false) × (c ≡ false) × (d ≡ false)
none_of false false false false e = (refl, refl, refl, refl)
none_of false false false true e = absurd (cc e)
none_of false false true d e = absurd (cc e)
none_of false true c d e = absurd (cc e)
none_of true b c d e = absurd (cc e)

-- Where `egal_rect_is_covered` holds, each point of the first rectangle is in the second.
pub is_covered-point_in :
    (p q : Rect) (x y : ℤ) → is_covered p q ≡ true → point_in p x y ≡ true → point_in q x y ≡ true
unfolding is_covered point_in
is_covered-point_in p q x y c i =
    let (left, top, right, bottom) =
      none_of (ltb_ℤ p.x q.x) (ltb_ℤ p.y q.y) (ltb_ℤ (q.x +ℤ q.w) (p.x +ℤ p.w))
        (ltb_ℤ (q.y +ℤ q.h) (p.y +ℤ p.h)) c in
    let (across, down) = and-split (within p.x (p.x +ℤ p.w) x) (within p.y (p.y +ℤ p.h) y) i in
    ap₂ ◌&&◌ (covered_1 p.x (p.x +ℤ p.w) q.x (q.x +ℤ q.w) x left right across)
      (covered_1 p.y (p.y +ℤ p.h) q.y (q.y +ℤ q.h) y top bottom down)

bound_1 :
    (a b c d v : ℤ)
    → within a b v ≡ true
    → let l = smaller a c in
      let r = larger b d in (within l r v ≡ true) × (ltb_ℤ (r -ℤ l) (pos 0) ≡ false)
bound_1 a b c d v i = (ground arith, ground arith)

bound_2 :
    (a b c d v : ℤ)
    → within c d v ≡ true
    → let l = smaller a c in
      let r = larger b d in (within l r v ≡ true) × (ltb_ℤ (r -ℤ l) (pos 0) ≡ false)
bound_2 a b c d v i = (ground arith, ground arith)

normalize_kept :
    (r : Rect) → ltb_ℤ r.w (pos 0) ≡ false → ltb_ℤ r.h (pos 0) ≡ false → normalize r ≡ r
unfolding normalize
normalize_kept r e f = rw (e, f) refl

-- A point between the corners is in the rectangle between them.
inside :
    (l t r b x y : ℤ)
    → (within l r x ≡ true) × (ltb_ℤ (r -ℤ l) (pos 0) ≡ false)
    → (within t b y ≡ true) × (ltb_ℤ (b -ℤ t) (pos 0) ≡ false)
    → point_in (normalize (span l t r b)) x y ≡ true
inside l t r b x y (i, e) (j, f) =
    ap (λ s. point_in s x y) (normalize_kept (span l t r b) e f)
    ∙ point_in-span l t r b x y
    ∙ ap₂ ◌&&◌ i j

or-split : (a b : Bool) → (a || b) ≡ true → (a ≡ true) ⊎ (b ≡ true)
or-split true b e = inl refl
or-split false b e = inr e

-- A point that is in one of two rectangles is in the one that `egal_rect_get_bound` makes of them.
pub get_bound-point_in :
    (p q : Rect) (x y : ℤ)
    → (point_in p x y || point_in q x y) ≡ true
    → point_in (get_bound p q) x y ≡ true
unfolding get_bound point_in
get_bound-point_in p q x y e =
    let r1 = p.x +ℤ p.w in
    let b1 = p.y +ℤ p.h in
    let r2 = q.x +ℤ q.w in
    let b2 = q.y +ℤ q.h in
    let in_bound = inside (smaller p.x q.x) (smaller p.y q.y) (larger r1 r2) (larger b1 b2) x y in
    elim (or-split (point_in p x y) (point_in q x y) e) [
      | inl i ↦
          let (across, down) = and-split (within p.x r1 x) (within p.y b1 y) i in
          in_bound (bound_1 p.x r1 q.x r2 x across) (bound_1 p.y b1 q.y b2 y down)
      | inr i ↦
          let (across, down) = and-split (within q.x r2 x) (within q.y b2 y) i in
          in_bound (bound_2 p.x r1 q.x r2 x across) (bound_2 p.y b1 q.y b2 y down)
    ]
