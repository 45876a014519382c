-- ===== src/Slice/Places.antt =====
-- The free places of a node.
use egui.Prelude.{
  ℕ, zero, suc, ◌+◌, ◌-◌, ◌%◌, ◌≤◌, ◌<◌, Bool, false, ◌||◌, List, [], ◌∷◌, ◌==◌, if◌then◌else◌, ◌≡◌,
  arith, refl, ap, ◌∙◌,
}
use egui.Slice.{SliceNode, take_place, give_place, new_node}

unfoldable pub follow : (ℕ → ℕ) → (n i : ℕ) → List ℕ
follow map zero i = []
follow map (suc n) i = i ∷ follow map n (map i)

abbrev pub free_places : SliceNode → List ℕ
free_places n = follow n.map n.free_num n.index

unfoldable pub among : List ℕ → ℕ → Bool
among [] i = false
among (j ∷ l) i = j == i || among l i

-- Each place is free at most once, and lies in the node.
abbrev pub Places : (num : ℕ) → List ℕ → Type 0
Places num [] = Unit {0}
Places num (i ∷ l) = (i < num) × (among l i ≡ false) × Places num l

pub take-places :
    (n : SliceNode) → 0 < n.free_num → free_places n ≡ n.index ∷ free_places (take_place n)
unfolding take_place follow
take-places n h =
    let e : n.free_num ≡ suc (n.free_num - 1) = omega arith in ap (λ k. follow n.map k n.index) e

-- What a write to the map outside the chain leaves alone.
follow-frame :
    (map : ℕ → ℕ) (i v n j : ℕ)
    → among (follow map n j) i ≡ false
    → follow (λ k. if k == i then v else map k) n j ≡ follow map n j
unfolding follow among
follow-frame map i v zero j h = refl
follow-frame map i v (suc n) j h = ground (arith, follow-frame map i v n (map j))

give-follow :
    (map : ℕ → ℕ) (i f j : ℕ)
    → (0 < f → j < 256)
    → among (follow map f j) i ≡ false
    → follow (λ k. if k == i then j % 256 else map k) (suc f) i ≡ i ∷ follow map f j
unfolding follow
give-follow map i zero j small out = refl
give-follow map i (suc f) j small out =
    let here : (if i == i then j % 256 else map i) ≡ j = ground (arith, small) in
    ap (λ k. i ∷ follow (λ k. if k == i then j % 256 else map k) (suc f) k) here
    ∙ ap (λ l. i ∷ l) (follow-frame map i (j % 256) (suc f) j out)

first-lt : (num : ℕ) (map : ℕ → ℕ) (f j : ℕ) → Places num (follow map f j) → 0 < f → j < num
unfolding follow
first-lt num map zero j ok h = absurd (omega arith)
first-lt num map (suc f) j ok h = ok.0

pub give-places :
    (num : ℕ) (n : SliceNode) (i : ℕ)
    → num ≤ 256
    → Places num (free_places n)
    → among (free_places n) i ≡ false
    → free_places (give_place n i) ≡ i ∷ free_places n
unfolding give_place
give-places num n i small ok out =
    let more : n.free_num + 1 ≡ suc n.free_num = omega arith in
    ap (λ k. follow (λ j. if j == i then n.index % 256 else n.map j) k i) more
    ∙ give-follow n.map i n.free_num n.index
        (λ h. omega (arith, first-lt num n.map n.free_num n.index ok h)) out

-- The places of a new node.
count_up-among : (n i j : ℕ) → j < i → among (follow (λ k. k + 1) n i) j ≡ false
unfolding follow among
count_up-among zero i j h = refl
count_up-among (suc n) i j h = ground (arith, count_up-among n (i + 1) j)

count_up-Places : (num n i : ℕ) → i + n ≤ num → Places num (follow (λ k. k + 1) n i)
unfolding follow
count_up-Places num zero i h = tt
count_up-Places num (suc n) i h = (
  omega arith,
  count_up-among n (i + 1) i (omega arith),
  count_up-Places num n (i + 1) (omega arith),
)

pub new_node-Places : (num base : ℕ) → 0 < num → Places num (free_places (new_node num base))
new_node-Places num base h = count_up-Places num (num - 1) 1 (omega arith)

pub no-Places : (num : ℕ) (map : ℕ → ℕ) (n j : ℕ) → n ≡ 0 → Places num (follow map n j)
unfolding follow
no-Places num map zero j e = tt
no-Places num map (suc n) j e = absurd (omega arith)

pub new_node-among : (num base : ℕ) → among (free_places (new_node num base)) 0 ≡ false
new_node-among num base = count_up-among (num - 1) 1 0 (omega arith)
