-- ===== src/Slice/Inv.antt =====
-- What holds of a slice between calls.
use egui.Prelude.{ℕ, zero, suc, ◌*◌, ◌≤◌, ◌<◌, List, [], ◌∷◌, ◌++◌, ◌≡◌, arith, min, ◌^◌}
use egui.Slice.{SliceNode, SliceHead, slice_head_new}
use egui.Slice.Places.{free_places, Places}

abbrev pub Every : (SliceNode → Type 0) → List SliceNode → Type 0
Every P [] = Unit {0}
Every P (n ∷ l) = P n × Every P l

-- The nodes with fewer free places stand first.
abbrev pub Ordered : List SliceNode → Type 0
Ordered [] = Unit {0}
Ordered (n ∷ l) = Every (λ k. n.free_num ≤ k.free_num) l × Ordered l

module _ (num : ℕ) where
  abbrev pub IsFill : SliceNode → Type 0
  IsFill n = n.free_num ≡ 0

  abbrev pub IsHalf : SliceNode → Type 0
  IsHalf n = (0 < n.free_num) × (n.free_num < num) × Places num (free_places n)

  abbrev pub IsFree : SliceNode → Type 0
  IsFree n = (n.free_num ≡ num) × Places num (free_places n)

pub record IsSlice (h : SliceHead) : Type 0 where
  pub wide : 0 < h.size
  pub places : (8 ≤ h.num) × (h.num ≤ 256)
  pub fill : Every (IsFill h.num) h.fill
  pub half : Every (IsHalf h.num) h.half
  pub free : Every (IsFree h.num) h.free
  pub ordered : Ordered h.half

-- The levels go from 0 to 5, as above them `slice_head_new` takes 5.
level-bounds : (level : ℕ) → (8 ≤ 8 * 2 ^ min level 5) × (8 * 2 ^ min level 5 ≤ 256)
level-bounds zero = (omega arith, omega arith)
level-bounds (suc zero) = (omega arith, omega arith)
level-bounds (suc (suc zero)) = (omega arith, omega arith)
level-bounds (suc (suc (suc zero))) = (omega arith, omega arith)
level-bounds (suc (suc (suc (suc zero)))) = (omega arith, omega arith)
level-bounds (suc (suc (suc (suc (suc n))))) =
    let e : min (suc (suc (suc (suc (suc n))))) 5 ≡ 5 = ground arith in
    rw e (omega arith, omega arith)

pub slice_head_new-IsSlice : (type level : ℕ) → 0 < type → IsSlice (slice_head_new type level)
unfolding slice_head_new
slice_head_new-IsSlice type level h = record {
  wide = omega arith;
  places = level-bounds level;
  fill = tt;
  half = tt;
  free = tt;
  ordered = tt;
}

pub Every-append :
    (P : SliceNode → Type 0) (l k : List SliceNode) → Every P l → Every P k → Every P (l ++ k)
Every-append P [] k a b = b
Every-append P (n ∷ l) k a b = (a.0, Every-append P l k a.1 b)

pub Every-imp :
    {P Q : SliceNode → Type 0} (l : List SliceNode)
    → ((n : SliceNode) → P n → Q n)
    → Every P l
    → Every Q l
Every-imp [] f a = tt
Every-imp (n ∷ l) f a = (f n a.0, Every-imp l f a.1)

pub Places-eq : (num : ℕ) (l k : List ℕ) → l ≡ k → Places num l → Places num k
Places-eq num l k e ok = rw (← e) ok

pub Every-eq : (P : SliceNode → Type 0) (l k : List SliceNode) → l ≡ k → Every P l → Every P k
Every-eq P l k e a = rw (← e) a

pub Ordered-eq : (l k : List SliceNode) → l ≡ k → Ordered l → Ordered k
Ordered-eq l k e a = rw (← e) a
