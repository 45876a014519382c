-- ===== src/Slice.antt =====
-- elib/memory.c: the slices, blocks of one size that come from larger ones.
-- A `SliceNode` is a block of `num` places; the free ones are linked through `map`, from `index` on.
-- A `SliceHead` has its nodes in three lists. What `e_heap_malloc` returns for a new node is an
-- argument, as the address `base` of its first place. The lock is not modelled.
pub mod Places
pub mod Inv
pub mod Alloc
mod Search
pub mod Lies
pub mod Give
mod Tests
use egui.Prelude.{
  ◌>>=◌, ℕ, zero, suc, ◌+◌, ◌-◌, ◌*◌, ◌/◌, ◌%◌, Bool, true, false, ◌&&◌, Option, none, some, List,
  [], ◌∷◌, ◌++◌, ltb, leb, ◌==◌, if◌then◌else◌, min, ◌^◌,
}

-- `struct _SliceNode` less its link
pub record SliceNode : Type 0 where
  pub index : ℕ
  pub free_num : ℕ
  pub base : ℕ
  pub map : ℕ → ℕ

-- `struct _SliceHead`
pub record SliceHead : Type 0 where
  pub size : ℕ
  pub num : ℕ
  pub fill : List SliceNode
  pub half : List SliceNode
  pub free : List SliceNode

abbrev pub addr_at : SliceHead → SliceNode → ℕ → ℕ
addr_at h n i = n.base + i * h.size

-- The first free place is given out.
unfoldable pub take_place : SliceNode → SliceNode
take_place n = record n { index = n.map n.index; free_num = n.free_num - 1 }

-- `half_add_tail`
unfoldable pub half_add_tail : SliceHead → SliceNode → SliceHead
half_add_tail h n = record h { half = h.half ++ n ∷ [] }

unfoldable pub slice_half_alloc : SliceHead → Option (ℕ × SliceHead)
unfolding take_place
slice_half_alloc h = elim h.half [
  | [] ↦ none
  | n ∷ rest ↦
      let t = take_place n in
      some (
        addr_at h n n.index,
        if t.free_num == 0
            then record h { half = rest; fill = t ∷ h.fill }
            else record h { half = t ∷ rest },
      )
]

-- The node that `slice_free_alloc` makes, with its first place given out: the loop links the others
-- in order. Its map is not written at 0 and from `num - 1` on, and the list of free places ends before it
-- would read it there.
abbrev pub new_node : (num base : ℕ) → SliceNode
new_node num base = record { index = 1; free_num = num - 1; base = base; map = λ i. i + 1 }

unfoldable pub slice_free_alloc : SliceHead → (base : ℕ) → ℕ × SliceHead
unfolding take_place half_add_tail
slice_free_alloc h base = elim h.free [
  | n ∷ rest ↦ (addr_at h n n.index, half_add_tail (record h { free = rest }) (take_place n))
  | [] ↦ (base, half_add_tail h (new_node h.num base))
]

-- `slice_head_new`
unfoldable pub slice_head_new : (type level : ℕ) → SliceHead
slice_head_new type level = record {
  size = type * 8;
  num = 8 * 2 ^ min level 5;
  fill = [];
  half = [];
  free = [];
}

-- `e_slice_alloc` with the head for the size.
unfoldable pub slice_alloc : SliceHead → (base : ℕ) → ℕ × SliceHead
unfolding slice_half_alloc slice_free_alloc
slice_alloc h base = elim (slice_half_alloc h) [ some r ↦ r | none ↦ slice_free_alloc h base ]

-- The place of an address in a node, where it has one: the quotient is cut to a `euint`, and one below
-- zero, which is rounded towards it, wraps round.
unfoldable pub place_of : (num size addr : ℕ) → SliceNode → Option ℕ
place_of num size addr n =
    let i =
      if leb n.base addr
      then (addr - n.base) / size % 4294967296
      else (4294967296 - (n.base - addr) / size % 4294967296) % 4294967296 in
    if ltb i num then some i else none

-- The first node that an address lies in, cut out of its list, with the place.
pub record Found : Type 0 where
  pub before : List SliceNode
  pub node : SliceNode
  pub behind : List SliceNode
  pub place : ℕ

unfoldable pub or_later : Option ℕ → SliceNode → List SliceNode → Option Found → Option Found
or_later (some i) n l later = some (record { before = []; node = n; behind = l; place = i })
or_later none n l none = none
or_later none n l (some f) = some (record f { before = n ∷ f.before })

unfoldable pub find_place : (num size addr : ℕ) → List SliceNode → Option Found
unfolding place_of or_later
find_place num size addr [] = none
find_place num size addr (n ∷ l) =
    or_later (place_of num size addr n) n l (find_place num size addr l)

-- A place is linked in before the free ones.
unfoldable pub give_place : SliceNode → ℕ → SliceNode
give_place n i = record n {
  index = i;
  free_num = n.free_num + 1;
  map = λ j. if j == i then n.index % 256 else n.map j;
}

-- Behind the nodes of a list with fewer free places.
unfoldable pub put_by_free : SliceNode → List SliceNode → List SliceNode
put_by_free n [] = n ∷ []
put_by_free n (k ∷ l) = if ltb k.free_num n.free_num then k ∷ put_by_free n l else n ∷ k ∷ l

-- The half list after a place of one of its nodes came back: a node that is free of all goes to the
-- free list, and one that now has more free places than the next moves behind it.
unfoldable pub settle_half : SliceHead → Found → SliceHead
unfolding give_place put_by_free
settle_half h f =
    let n = give_place f.node f.place in
    if n.free_num == h.num
    then record h { half = f.before ++ f.behind; free = n ∷ h.free }
    else record h { half = f.before ++ put_by_free n f.behind }

-- `e_slice_free1` with the head for the size; `none` where it aborts.
unfoldable pub put_back : SliceHead → (in_fill in_half : Option Found) → Option SliceHead
unfolding give_place settle_half
put_back h (some f) half =
    some (record h { fill = f.before ++ f.behind; half = give_place f.node f.place ∷ h.half })
put_back h none (some f) = some (settle_half h f)
put_back h none none = none

unfoldable pub slice_free : SliceHead → (addr : ℕ) → Option SliceHead
unfolding find_place put_back
slice_free h addr =
    put_back h (find_place h.num h.size addr h.fill) (find_place h.num h.size addr h.half)
