-- ===== src/Stack/Inv.antt =====
-- The invariant of the stack, and the entries that it stands for.
use egui.Prelude.{
  ℕ, zero, suc, ◌+◌, ◌-◌, ◌≤◌, ◌<◌, ◌≡◌, refl, ◌∙◌, List, arith, length, take, drop, some,
  length-set, length-append, length-take, length-drop, length-replicate,
}
use egui.Stack.{
  Stack, Node, zeros, shift, new, pop, empty, empty_lower, empty_upper, reco, redo, node_at,
}

pub record IsValid (s : Stack) : Type 0 where
  pub sized : length s.nodes ≡ s.max
  pub at_least : 2 ≤ s.max
  pub num_in : s.num ≤ s.max
  pub offset_in : s.offset < s.num

-- The live entries, oldest first; the current one stands at `offset`, and what can be redone
-- behind it.
abbrev pub entries : Stack → List Node
entries s = take s.num s.nodes

pub length-shift : (k from : ℕ) (nodes : List Node) → length (shift k from nodes) ≡ length nodes
unfolding shift
length-shift zero from nodes = refl
length-shift (suc k) from nodes = length-shift k (from + 1) _ ∙ length-set nodes from _

pub new-IsValid : (max : ℕ) {s : Stack} → new max ≡ some s → IsValid s
unfolding new
new-IsValid max e = ground (arith, length-replicate max zeros)

pub pop-IsValid : {s : Stack} → IsValid s → IsValid (pop s).0
unfolding pop
pop-IsValid v = ground arith

pub reco-IsValid : {s : Stack} → IsValid s → IsValid (reco s).0
unfolding reco
reco-IsValid v = ground arith

pub redo-IsValid : {s : Stack} → IsValid s → IsValid (redo s).0
unfolding redo
redo-IsValid v = ground arith

pub empty-IsValid : {s : Stack} → IsValid s → IsValid (empty s).0
unfolding empty
empty-IsValid {s} v = omega (arith, length-set s.nodes 0 (node_at s s.offset))

pub empty_lower-IsValid : {s : Stack} → IsValid s → IsValid (empty_lower s).0
unfolding empty_lower
empty_lower-IsValid {s} v =
    let n = s.num - s.offset in
    let room = length-append (take n (drop s.offset s.nodes)) (drop n s.nodes) in
    let front = length-take n (drop s.offset s.nodes) in
    omega (arith, room, front, length-drop s.offset s.nodes, length-drop n s.nodes)

pub empty_upper-IsValid : {s : Stack} → IsValid s → IsValid (empty_upper s).0
unfolding empty_upper
empty_upper-IsValid v = ground arith
