-- ===== src/Rect.antt =====
-- egal/rect.c and egal/rect.h: rectangles. An `int` is an integer: coordinates and sizes are taken to
-- be small enough for the sums that the code forms. A function that writes through a pointer returns
-- what it writes.
pub mod Points
mod Tests
use egui.Prelude.{Bool, true, false, Option, none, some, ◌&&◌, ◌||◌, not, if◌then◌else◌}
use egui.Prelude.Int.{ℤ, pos, ◌+ℤ◌, ◌-ℤ◌, ltb_ℤ, leb_ℤ}

-- `GalRect`
pub record Rect : Type 0 where
  pub x : ℤ
  pub y : ℤ
  pub w : ℤ
  pub h : ℤ

abbrev pub make_empty : Rect → Rect
make_empty r = record r { w = pos 0; h = pos 0 }

-- `if (w < 0) { x += w; w = -w; }`, for one of the two directions
abbrev pub turn : ℤ → ℤ → ℤ × ℤ
turn x w = if ltb_ℤ w (pos 0) then (x +ℤ w, pos 0 -ℤ w) else (x, w)

unfoldable pub normalize : Rect → Rect
normalize r =
    let (x, w) = turn r.x r.w in let (y, h) = turn r.y r.h in record { x = x; y = y; w = w; h = h }

abbrev pub set_rect : (x y w h : ℤ) → Rect
set_rect x y w h = normalize (record { x = x; y = y; w = w; h = h })

unfoldable pub inflate : Rect → (cx cy : ℤ) → Rect
inflate r cx cy = record {
  x = r.x -ℤ cx;
  y = r.y -ℤ cy;
  w = r.w +ℤ (cx +ℤ cx);
  h = r.h +ℤ (cy +ℤ cy);
}

unfoldable pub offset : Rect → (x y : ℤ) → Rect
offset r x y = record r { x = r.x +ℤ x; y = r.y +ℤ y }

abbrev pub equal_ℤ : ℤ → ℤ → Bool
equal_ℤ a b = leb_ℤ a b && leb_ℤ b a

abbrev pub is_empty : Rect → Bool
is_empty r = equal_ℤ r.w (pos 0) || equal_ℤ r.h (pos 0)

abbrev pub equal : Rect → Rect → Bool
equal a b = equal_ℤ a.x b.x && equal_ℤ a.y b.y && equal_ℤ a.w b.w && equal_ℤ a.h b.h

-- `v >= from && v < to`
abbrev pub within : (from to v : ℤ) → Bool
within from to v = leb_ℤ from v && ltb_ℤ v to

unfoldable pub point_in : Rect → (x y : ℤ) → Bool
point_in r x y = within r.x (r.x +ℤ r.w) x && within r.y (r.y +ℤ r.h) y

unfoldable pub is_covered : Rect → Rect → Bool
is_covered a b = not (
    ltb_ℤ a.x b.x
    || ltb_ℤ a.y b.y
    || ltb_ℤ (b.x +ℤ b.w) (a.x +ℤ a.w)
    || ltb_ℤ (b.y +ℤ b.h) (a.y +ℤ a.h))

abbrev pub larger : ℤ → ℤ → ℤ
larger a b = if ltb_ℤ b a then a else b

abbrev pub smaller : ℤ → ℤ → ℤ
smaller a b = if ltb_ℤ a b then a else b

-- `none` where it returns efalse
unfoldable pub intersect : Rect → Rect → Option Rect
intersect p q =
    let l = larger p.x q.x in
    let t = larger p.y q.y in
    let r = smaller (p.x +ℤ p.w) (q.x +ℤ q.w) in
    let b = smaller (p.y +ℤ p.h) (q.y +ℤ q.h) in
    if leb_ℤ r l || leb_ℤ b t then none else some (record { x = l; y = t; w = r -ℤ l; h = b -ℤ t })

unfoldable pub get_bound : Rect → Rect → Rect
get_bound p q =
    let l = smaller p.x q.x in
    let t = smaller p.y q.y in
    let r = larger (p.x +ℤ p.w) (q.x +ℤ q.w) in
    let b = larger (p.y +ℤ p.h) (q.y +ℤ q.h) in
    normalize (record { x = l; y = t; w = r -ℤ l; h = b -ℤ t })

unfoldable pub is_intersect : Rect → Rect → Bool
is_intersect p q =
    let l = larger p.x q.x in
    let t = larger p.y q.y in
    let r = smaller (p.x +ℤ p.w) (q.x +ℤ q.w) in
    let b = smaller (p.y +ℤ p.h) (q.y +ℤ q.h) in if leb_ℤ r l || leb_ℤ b t then false else true
