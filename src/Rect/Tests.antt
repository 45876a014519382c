-- ===== src/Rect/Tests.antt =====
-- The theorems on rectangles, at two that overlap; one of them reaches over the origin.
use egui.Prelude.{true, false, ◌≡◌, refl, none, some, ◌&&◌}
use egui.Prelude.Int.{pos, negsuc}
use egui.Rect.{Rect, point_in, is_covered, intersect, is_intersect, normalize, inflate, offset}
use egui.Rect.Points.{intersect_lem}

abbrev wide : Rect
wide = record { x = negsuc 1; y = pos 0; w = pos 10; h = pos 4 }

abbrev tall : Rect
tall = record { x = pos 3; y = negsuc 4; w = pos 2; h = pos 8 }

abbrev small : Rect
small = record { x = pos 1; y = pos 1; w = pos 2; h = pos 2 }

intersects : intersect wide tall ≡ some (record { x = pos 3; y = pos 0; w = pos 2; h = pos 3 })
unfolding intersect
intersects = refl

they_intersect : is_intersect wide tall ≡ true
unfolding is_intersect
they_intersect = refl

normalizes : normalize (record wide { w = negsuc 2 }) ≡ record wide { x = negsuc 4; w = pos 3 }
unfolding normalize
normalizes = refl

inflates : inflate small (pos 2) (pos 1) ≡ record { x = negsuc 0; y = pos 0; w = pos 6; h = pos 4 }
unfolding inflate
inflates = refl

moves : offset small (negsuc 1) (pos 1) ≡ record small { x = negsuc 0; y = pos 2 }
unfolding offset
moves = refl

wide_covers : is_covered small wide ≡ true
unfolding is_covered
wide_covers = refl

in_small : point_in small (pos 2) (pos 1) ≡ true
unfolding point_in
in_small = refl

intersect_lem_example :
    (point_in wide (pos 4) (pos 1) && point_in tall (pos 4) (pos 1))
    ≡ elim (intersect wide tall) [ none ↦ false | some r ↦ point_in r (pos 4) (pos 1) ]
intersect_lem_example = intersect_lem wide tall (pos 4) (pos 1)
