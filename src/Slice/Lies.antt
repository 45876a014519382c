-- ===== src/Slice/Lies.antt =====
-- Which node the search of `e_slice_free1` finds, by where the nodes lie in memory.
use native.Mathlib.Nat.{add-mul, le-div_iff_mul-le, div-lt_iff_lt-mul, mul-div_cancel}
use egui.Prelude.{
  ℕ, ◌+◌, ◌-◌, ◌*◌, ◌/◌, ◌≤◌, ◌<◌, none, some, List, [], ◌∷◌, ◌++◌, ◌≡◌, arith, refl, sym, ap, ◌∙◌,
}
use egui.Slice.{SliceNode, SliceHead, Found, addr_at, find_place, place_of, or_later}
use egui.Slice.Inv.{Every, IsSlice}

-- Where the search finds the node: among the full ones, else among the half ones.
pub data FoundIn (h : SliceHead) (addr : ℕ) (f : Found) : Type 0 where
  in_fill : find_place h.num h.size addr h.fill ≡ some f → FoundIn h addr f
  in_half :
      find_place h.num h.size addr h.fill ≡ none
      → find_place h.num h.size addr h.half ≡ some f
      → FoundIn h addr f

-- A node that an address does not lie in, nor so far from it that the difference in places does not
-- fit an `euint`.
pub data Misses (num size addr : ℕ) (n : SliceNode) : Type 0 where
  above : n.base + num * size ≤ addr → addr < n.base + 4294967296 * size → Misses num size addr n
  below :
      addr + size ≤ n.base → n.base + num * size ≤ addr + 4294967296 * size → Misses num size addr n

-- The address lies in the node `n`, and in none that the search comes to before it.
pub data Lies (h : SliceHead) (addr : ℕ) (before : List SliceNode) (n : SliceNode)
    (behind : List SliceNode) : Type 0 where
  of_fill :
      h.fill ≡ before ++ n ∷ behind
      → Every (Misses h.num h.size addr) before
      → Lies h addr before n behind
  of_half :
      h.half ≡ before ++ n ∷ behind
      → Every (Misses h.num h.size addr) h.fill
      → Every (Misses h.num h.size addr) before
      → Lies h addr before n behind

quotient-bounds :
    (d size a b : ℕ) → 0 < size → a * size ≤ d → d < b * size → (a ≤ d / size) × (d / size < b)
quotient-bounds d size a b wide low high =
    ((le-div_iff_mul-le wide).1 low, (div-lt_iff_lt-mul wide).1 high)

-- `(k + 1) * size` where `k` and `num` make up 2 ^ 32
room :
    (k num size : ℕ) → k + num ≡ 4294967296 → (k + 1) * size + num * size ≡ 4294967296 * size + size
room k num size e =
    sym (add-mul (k + 1) num size)
    ∙ ap (λ x. x * size) {x = k + 1 + num} {y = 4294967296 + 1} (omega (arith, e))
    ∙ omega arith

module _ (num size addr : ℕ) (wide : 0 < size) where
  place_of-Misses :
      (n : SliceNode) → num ≤ 256 → Misses num size addr n → place_of num size addr n ≡ none
  unfolding place_of
  place_of-Misses n small (above far near) =
      let (low, high) =
        quotient-bounds (addr - n.base) size num 4294967296 wide (omega arith) (omega arith) in
      ground (arith, low, high)
  place_of-Misses n small (below far near) =
      let k = 4294967296 - num in
      let e = room k num size (omega arith) in
      let (low, high) =
        quotient-bounds (n.base - addr) size 1 (k + 1) wide (omega arith) (omega (arith, e)) in
      ground (arith, low, high)

  place_of-at :
      (n : SliceNode) (i : ℕ)
      → num ≤ 256
      → i < num
      → addr ≡ n.base + i * size
      → place_of num size addr n ≡ some i
  unfolding place_of
  place_of-at n i small low at =
      let q : (addr - n.base) / size ≡ i =
        ap (λ d. d / size) (omega arith) ∙ mul-div_cancel i wide in
      ground (arith, q)

  find_place-Misses :
      (l : List SliceNode)
      → num ≤ 256
      → Every (Misses num size addr) l
      → find_place num size addr l ≡ none
  unfolding find_place or_later
  find_place-Misses [] small m = refl
  find_place-Misses (n ∷ l) small m =
      rw (place_of-Misses n small m.0, find_place-Misses l small m.1) refl

  find_place-at :
      (before : List SliceNode) (n : SliceNode) (behind : List SliceNode) (i : ℕ)
      → num ≤ 256
      → i < num
      → addr ≡ n.base + i * size
      → Every (Misses num size addr) before
      → find_place num size addr (before ++ n ∷ behind)
        ≡ some (record { before = before; node = n; behind = behind; place = i })
  unfolding find_place or_later
  find_place-at [] n behind i small low at m = rw (place_of-at n i small low at) refl
  find_place-at (k ∷ before) n behind i small low at m =
      rw (place_of-Misses k small m.0, find_place-at before n behind i small low at m.1) refl

pub Lies-FoundIn :
    (h : SliceHead) (addr i : ℕ) (before : List SliceNode) (n : SliceNode) (behind : List SliceNode)
    → IsSlice h
    → addr ≡ addr_at h n i
    → i < h.num
    → Lies h addr before n behind
    → FoundIn h addr (record { before = before; node = n; behind = behind; place = i })
Lies-FoundIn h addr i before n behind v at low (of_fill e m) = in_fill (
    ap (find_place h.num h.size addr) e
    ∙ find_place-at h.num h.size addr v.wide before n behind i v.places.1 low at m)
Lies-FoundIn h addr i before n behind v at low (of_half e f m) =
    in_half (find_place-Misses h.num h.size addr v.wide h.fill v.places.1 f) (
      ap (find_place h.num h.size addr) e
      ∙ find_place-at h.num h.size addr v.wide before n behind i v.places.1 low at m)
