-- ===== src/Stack/Moves.antt =====
-- Undo, redo and the functions that empty the stack, on its entries.
use mathlib.Core.List.{reverse, reverse-append}
use egui.Prelude.{
  ℕ, zero, suc, ◌+◌, ◌-◌, ◌<◌, ◌≡◌, refl, ap, ap₂, ◌∙◌, sym, List, [], ◌∷◌, ◌++◌, arith, length,
  take, drop, get_or, false, if◌then◌else◌, ◌==◌, inl, inr, Bool-cases, lt→ltb, length-take,
  length-drop,
}
use egui.Prelude.Slices.{
  take-set_end, take-add, drop-get_or, drop-drop, take-take, drop-take, take-append-drop,
  take-append_le,
}
use egui.Stack.{
  Stack, Node, undone, redone, stack_free, free_up, free_down, zeros, lower, upper, node_at, pop,
  empty, empty_lower, empty_upper, reco, redo,
}
use egui.Stack.Inv.{IsValid, entries}
use egui.Stack.Push.{frees, past, future, free_up-frees}

take-suc :
    (nodes : List Node) (i k : ℕ)
    → i + k < length nodes
    → take (suc k) (drop i nodes) ≡ take k (drop i nodes) ++ get_or nodes (i + k) zeros ∷ []
take-suc nodes i k h =
    take-add (suc k) k 1 (drop i nodes) (omega arith)
    ∙ ap (λ t. take k (drop i nodes) ++ take 1 t)
        (drop-drop (i + k) i k nodes refl ∙ drop-get_or nodes (i + k) zeros h)

free_down-frees :
    (nodes : List Node) (k top i : ℕ)
    → (0 < k → i + k ≡ top + 1)
    → top < length nodes
    → free_down nodes k top ≡ frees upper (reverse (take k (drop i nodes)))
unfolding free_down frees
free_down-frees nodes zero top i e h = refl
free_down-frees nodes (suc k) top i e h =
    let here : i + k ≡ top = omega (arith, e) in
    rw
      (
        take-suc nodes i k (omega arith),
        here,
        reverse-append (take k (drop i nodes)) (get_or nodes top zeros ∷ []),
      )
      (ap (λ t. stack_free upper (get_or nodes top zeros) ++ t)
        (free_down-frees nodes k (top - 1) i (λ p. omega arith) (omega arith)))

module _ {s : Stack} (v : IsValid s) where
  open v use {sized, at_least, num_in, offset_in}

  past-nodes : take s.offset (entries s) ≡ take s.offset s.nodes
  past-nodes = take-take s.offset s.num s.nodes (omega arith)

  frees_past : free_up lower s.nodes s.offset 0 ≡ frees lower (take s.offset (entries s))
  frees_past =
      free_up-frees lower s.nodes s.offset 0 (omega arith) ∙ ap (frees lower) (sym past-nodes)

  frees-future :
      free_down s.nodes (s.num - 1 - s.offset) (s.num - 1) ≡ frees upper (reverse (future s))
  frees-future =
      free_down-frees s.nodes (s.num - 1 - s.offset) (s.num - 1) (s.offset + 1) (λ p. omega arith)
        (omega arith)
      ∙ ap (λ t. frees upper (reverse t))
          (sym (drop-take s.num (s.offset + 1) (s.num - 1 - s.offset) s.nodes (omega arith)))

  -- The entries from the current one on.
  current_split : drop s.offset (entries s) ≡ node_at s s.offset ∷ future s
  current_split =
      let rest = s.num - (s.offset + 1) in
      drop-take s.num s.offset (suc rest) s.nodes (omega arith)
      ∙ ap (take (suc rest)) (drop-get_or s.nodes s.offset zeros (omega arith))
      ∙ ap (λ t. node_at s s.offset ∷ t)
          (sym (drop-take s.num (suc s.offset) rest s.nodes (omega arith))
            ∙ ap (λ j. drop j (entries s)) next)
    where
      next : suc s.offset ≡ s.offset + 1
      next = omega arith

  -- On a valid stack above its bottom entry, `e_stack_redo` takes an undo back: the stack is as
  -- before, and the two calls of callbacks were made for the same entry, the one that was current.
  pub redo-reco :
      0 < s.offset
      → let n = node_at s s.offset in
        let (t, undo) = reco s in
        let (t', again) = redo t in
        (t' ≡ s)
        × (entries t ≡ entries s)
        × (undo ≡ (if n.value == 0 then [] else undone n.reco n.value ∷ []))
        × (again ≡ (if n.value == 0 then [] else redone n.redo n.value ∷ []))
  unfolding reco redo
  redo-reco p =
      let off : (s.offset == 0) ≡ false = ground arith in
      let on : (s.offset == s.num) ≡ false = ground arith in
      let back : s.offset - 1 + 1 ≡ s.offset = omega arith in
      elim (Bool-cases ((node_at s s.offset).value == 0)) [
        | inl z ↦ rw (off, back, on, z) (refl, refl, refl, refl)
        | inr z ↦ rw (off, back, on, z) (refl, refl, refl, refl)
      ]

  -- On a valid stack above its bottom entry, `e_stack_pop` keeps the entries below the current
  -- one. It frees the current entry, and drops what could be redone without a call of any
  -- callback.
  pub pop_lem :
      0 < s.offset
      → (entries s ≡ entries (pop s).0 ++ node_at s s.offset ∷ future s)
        × ((pop s).0.offset ≡ s.offset - 1)
        × ((pop s).1 ≡ stack_free upper (node_at s s.offset))
  unfolding pop
  pop_lem p =
      let back : s.offset - 1 + 1 ≡ s.offset = omega arith in
      rw (lt→ltb _ _ p, back)
        (
          sym (take-append-drop s.offset (entries s)) ∙ ap₂ ◌++◌ past-nodes current_split,
          refl,
          refl,
        )

  -- On a valid stack, `e_stack_empty` keeps the current entry alone. It frees the entries below it
  -- from the oldest on, then those above it from the newest back.
  pub empty_lem :
      (entries (empty s).0 ≡ node_at s s.offset ∷ [])
      × ((empty s).1 ≡ frees lower (take s.offset (entries s)) ++ frees upper (reverse (future s)))
  unfolding empty
  empty_lem = (take-set_end s.nodes 0 _ (omega arith), ap₂ ◌++◌ frees_past frees-future)

  -- On a valid stack, `e_stack_empty_lower` frees and drops the entries below the current one,
  -- which becomes the bottom.
  pub empty_lower_lem :
      (entries (empty_lower s).0 ≡ drop s.offset (entries s))
      × ((empty_lower s).0.offset ≡ 0)
      × ((empty_lower s).1 ≡ frees lower (take s.offset (entries s)))
  unfolding empty_lower
  empty_lower_lem =
      let k = s.num - s.offset in
      let room = length-drop s.offset s.nodes in
      (
        take-append_le k (take k (drop s.offset s.nodes)) (drop k s.nodes)
              (omega (arith, length-take k (drop s.offset s.nodes)))
            ∙ take-take k k (drop s.offset s.nodes) (omega arith)
            ∙ sym (drop-take s.num s.offset k s.nodes (omega arith)),
        refl,
        frees_past,
      )

  -- On a valid stack, `e_stack_empty_upper` frees and drops the entries above the current one,
  -- from the newest back.
  pub empty_upper_lem :
      (entries (empty_upper s).0 ≡ past s)
      × ((empty_upper s).0.offset ≡ s.offset)
      × ((empty_upper s).1 ≡ frees upper (reverse (future s)))
  unfolding empty_upper
  empty_upper_lem = (sym (take-take (s.offset + 1) s.num s.nodes (omega arith)), refl, frees-future)
