-- ===== src/Stack/Push.antt =====
-- `e_stack_push` on the entries: what it keeps, what it drops and which callbacks it makes.
use egui.Prelude.{
  ℕ, zero, suc, ◌+◌, ◌-◌, ◌≤◌, ◌<◌, ◌≡◌, refl, ap, ap₂, ◌∙◌, sym, List, [], ◌∷◌, ◌++◌, arith,
  length, take, drop, set, get_or, append_assoc, append-nil, Bool, true, false, if◌then◌else◌, ◌==◌,
  ltb, inl, inr, Bool-cases, lt_or_ge, length-set, lt→ltb, le→ltb, length-take,
}
use egui.Prelude.Slices.{
  take-set_end, drop-set, set-set, drop-get_or, take-take, drop-take, drop_all,
}
use egui.Stack.{
  Stack, Node, Event, StackPos, stack_free, free_up, zeros, lower, upper, shift, node_at, make_room,
  clear_place, stack_push, push,
}
use egui.Stack.Inv.{IsValid, entries, length-shift}

-- The callbacks for a row of entries that are freed in this order.
unfoldable pub frees : StackPos → List Node → List Event
frees pos [] = []
frees pos (n ∷ ns) = stack_free pos n ++ frees pos ns

-- The entries up to the current one.
abbrev pub past : Stack → List Node
past s = take (s.offset + 1) (entries s)

-- The entries that can be redone.
abbrev pub future : Stack → List Node
future s = drop (s.offset + 1) (entries s)

abbrev pub is_full : Stack → Bool
is_full s = s.offset + 1 == s.max

pub free_up-frees :
    (pos : StackPos) (nodes : List Node) (k from : ℕ)
    → from + k ≤ length nodes
    → free_up pos nodes k from ≡ frees pos (take k (drop from nodes))
unfolding free_up frees
free_up-frees pos nodes zero from h = refl
free_up-frees pos nodes (suc k) from h =
    let next : from + 1 ≡ suc from = omega arith in
    rw (drop-get_or nodes from zeros (omega arith)) (
      ap (λ t. stack_free pos (get_or nodes from zeros) ++ t)
        (free_up-frees pos nodes k (from + 1) (omega arith)
          ∙ ap (λ j. frees pos (take k (drop j nodes))) next))

shift-take :
    (k i j : ℕ) (nodes : List Node)
    → i + k < length nodes
    → i + k ≡ j
    → take j (shift k i nodes) ≡ take i nodes ++ take k (drop (suc i) nodes)
unfolding shift
shift-take zero i j nodes h e =
    ap (λ m. take m nodes) (omega arith) ∙ sym (append-nil (take i nodes))
shift-take (suc k) i j nodes h e =
    let next : i + 1 ≡ suc i = omega arith in
    let x = get_or nodes (suc i) zeros in
    rw (next, drop-get_or nodes (suc i) zeros (omega arith))
      (shift-take k (suc i) j (set nodes i x) (omega (arith, length-set nodes i x)) (omega arith)
        ∙ ap₂ ◌++◌ (take-set_end nodes i x (omega arith))
            (ap (take k) (drop-set nodes i (suc (suc i)) x (omega arith)))
        ∙ append_assoc (take i nodes) (x ∷ []) (take k (drop (suc (suc i)) nodes)))

-- The two parts of `stack_push`, when the stack is full and when it is not.
module _ {s : Stack} (v : IsValid s) where
  open v use {sized, at_least, num_in, offset_in}

  make_room-full :
      is_full s ≡ true
      → make_room s ≡ (
        record s { num = s.num - 1; offset = s.offset; nodes = shift (s.max - 1) 0 s.nodes },
        stack_free lower (node_at s 0),
      )
  unfolding make_room
  make_room-full f = ground arith

  make_room-other : is_full s ≡ false → make_room s ≡ (record s { offset = s.offset + 1 }, [])
  unfolding make_room
  make_room-other f = ground arith

  -- What the stack is after the new node is written at its place.
  placed :
      (n : Node) (nodes : List Node) (o : ℕ)
      → o < length nodes
      → take (o + 1) (set (set nodes o zeros) o n) ≡ take o nodes ++ n ∷ []
  placed n nodes o h =
      let next : o + 1 ≡ suc o = omega arith in
      rw (next, set-set nodes o zeros n) (take-set_end nodes o n h)

  past-take : past s ≡ take (s.offset + 1) s.nodes
  past-take = take-take (s.offset + 1) s.num s.nodes (omega arith)

  push-full :
      (n : Node)
      → is_full s ≡ true
      → (entries (push s n).0 ≡ drop 1 (past s) ++ n ∷ [])
        × ((push s n).0.offset ≡ s.offset)
        × ((push s n).1 ≡ stack_free lower (node_at s 0))
  unfolding push stack_push clear_place
  push-full n f =
      let o = s.offset in
      let last_place : o ≡ s.max - 1 = ground arith in
      let kept : take o (shift (s.max - 1) 0 s.nodes) ≡ drop 1 (take (o + 1) s.nodes) =
        shift-take (s.max - 1) 0 o s.nodes (omega arith) (omega arith)
        ∙ ap (λ m. take m (drop 1 s.nodes)) (sym last_place)
        ∙ sym (drop-take (o + 1) 1 o s.nodes (omega arith)) in
      rw (make_room-full f, past-take, le→ltb o (s.num - 1) (omega arith))
        (
          placed n (shift (s.max - 1) 0 s.nodes) o
                (omega (arith, length-shift (s.max - 1) 0 s.nodes))
              ∙ ap (λ t. t ++ n ∷ []) kept,
          refl,
          append-nil (stack_free lower (node_at s 0)),
        )

  -- What was undone is freed in order.
  future-frees :
      (if ltb (s.offset + 1) s.num
        then free_up upper s.nodes (s.num - (s.offset + 1)) (s.offset + 1)
        else [])
      ≡ frees upper (future s)
  unfolding frees
  future-frees = elim (lt_or_ge (s.offset + 1) s.num) [
    | inl h ↦
        rw
          (
            lt→ltb _ _ h,
            drop-take s.num (s.offset + 1) (s.num - (s.offset + 1)) s.nodes (omega arith),
          )
          (free_up-frees upper s.nodes (s.num - (s.offset + 1)) (s.offset + 1) (omega arith))
    | inr h ↦ rw (
      le→ltb _ _ h,
      drop_all (s.offset + 1) (take s.num s.nodes) (omega (arith, length-take s.num s.nodes)),
    )
  ]

  push-other :
      (n : Node)
      → is_full s ≡ false
      → (entries (push s n).0 ≡ past s ++ n ∷ [])
        × ((push s n).0.offset ≡ s.offset + 1)
        × ((push s n).1 ≡ frees upper (future s))
  unfolding push stack_push clear_place
  push-other n f =
      let room : s.offset + 1 < length s.nodes = ground arith in
      rw (make_room-other f, past-take) (placed n s.nodes (s.offset + 1) room, refl, future-frees)

  -- On a valid stack, `e_stack_push` drops what was undone and puts the entry behind the current
  -- one, which it makes current. What it drops is freed as an upper entry. A stack that is full to
  -- its current entry has nothing undone: it frees its oldest entry as a lower one instead, and
  -- drops it.
  pub push_lem :
      (n : Node)
      → (entries (push s n).0 ≡ (if is_full s then drop 1 (past s) else past s) ++ n ∷ [])
        × ((push s n).0.offset ≡ (if is_full s then s.offset else s.offset + 1))
        × ((push s n).1
            ≡ (if is_full s then stack_free lower (node_at s 0) else frees upper (future s)))
  push_lem n = elim (Bool-cases (is_full s)) [
    | inl f ↦ rw f (push-full n f)
    | inr f ↦ rw f (push-other n f)
  ]

  make_room-bounds :
      let m = (make_room s).0 in (length m.nodes ≡ s.max) × (m.offset < s.max) × (m.max ≡ s.max)
  make_room-bounds = elim (Bool-cases (is_full s)) [
    | inl f ↦ rw (make_room-full f) (omega (arith, length-shift (s.max - 1) 0 s.nodes))
    | inr f ↦ rw (make_room-other f) (ground arith)
  ]

  -- `e_stack_push` keeps a stack valid: its current entry is one of its entries, these fit in its
  -- places, and it has at least two places.
  pub push-IsValid : (n : Node) → IsValid (push s n).0
  unfolding push stack_push clear_place
  push-IsValid n =
      let m = (make_room s).0 in
      let b = make_room-bounds in
      omega (
        arith,
        b,
        length-set m.nodes m.offset zeros,
        length-set (set m.nodes m.offset zeros) m.offset n,
      )
