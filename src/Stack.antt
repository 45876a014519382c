-- ===== src/Stack.antt =====
-- elib/stack.c: the bounded stack of undo and redo entries.
-- A callback is an address (0 is NULL), and calls of callbacks are a list of events in the order in
-- which they are made; a callback leaves the stack itself alone. `nodes` has `max` places.
pub mod Inv
pub mod Push
pub mod Moves
mod Tests
use egui.Prelude.{
  ℕ, zero, suc, ◌+◌, ◌-◌, Bool, Option, none, some, List, [], ◌∷◌, ◌++◌, ◌&&◌, not, get_or, set,
  take, drop, replicate, ltb, ◌==◌, if◌then◌else◌,
}

-- `estackpos_t`
pub data StackPos : Type 0 where
  lower upper : StackPos

-- `estacknode_t`
pub record Node : Type 0 where
  pub value : ℕ
  pub reco : ℕ
  pub redo : ℕ
  pub free : ℕ

-- A call of a callback, with the data that it is given.
pub data Event : Type 0 where
  freed : (callback value : ℕ) → StackPos → Event
  undone : (callback value : ℕ) → Event
  redone : (callback value : ℕ) → Event

pub record Stack : Type 0 where
  pub num : ℕ
  pub max : ℕ
  pub offset : ℕ
  pub nodes : List Node

-- What `e_calloc` and `memset` leave.
abbrev pub zeros : Node
zeros = record { value = 0; reco = 0; redo = 0; free = 0 }

abbrev pub node_at : Stack → ℕ → Node
node_at s i = get_or s.nodes i zeros

pub stack_free : StackPos → Node → List Event
stack_free pos n =
    if not (n.value == 0) && not (n.free == 0) then freed n.free n.value pos ∷ [] else []

-- `for (i = from; i < from + k; i++) stack_free(stack, stack->nodes + i, pos)`
pub free_up : StackPos → List Node → (k from : ℕ) → List Event
free_up pos nodes zero from = []
free_up pos nodes (suc k) from =
    stack_free pos (get_or nodes from zeros) ++ free_up pos nodes k (from + 1)

-- `for (i = top; i > top - k; i--) stack_free(stack, stack->nodes + i, STACK_UPPER)`
pub free_down : List Node → (k top : ℕ) → List Event
free_down nodes zero top = []
free_down nodes (suc k) top =
    stack_free upper (get_or nodes top zeros) ++ free_down nodes k (top - 1)

-- `for (i = from; …; i++) nodes[i] = nodes[i + 1]`, with `k` rounds left
pub shift : (k from : ℕ) → List Node → List Node
shift zero from nodes = nodes
shift (suc k) from nodes = shift k (from + 1) (set nodes from (get_or nodes (from + 1) zeros))

pub new : ℕ → Option Stack
new max =
    if ltb max 2
    then none
    else some (record { num = 1; max = max; offset = 0; nodes = replicate max zeros })

-- The first part of `stack_push`: a full stack drops its oldest node.
pub make_room : Stack → Stack × List Event
make_room s =
    let offset = s.offset + 1 in
    if (offset == s.num) && (s.num == s.max)
    then (
      record s { num = s.num - 1; offset = offset - 1; nodes = shift (s.max - 1) 0 s.nodes },
      stack_free lower (node_at s 0),
    )
    else (record s { offset = offset }, [])

-- The second part: what was undone is freed, and the place is cleared.
pub clear_place : Stack → Stack × List Event
clear_place s = (
  record s { num = s.offset + 1; nodes = set s.nodes s.offset zeros },
  if ltb s.offset s.num then free_up upper s.nodes (s.num - s.offset) s.offset else [],
)

pub stack_push : Stack → Stack × List Event
stack_push s =
    let (s1, first) = make_room s in let (s2, rest) = clear_place s1 in (s2, first ++ rest)

pub push : Stack → Node → Stack × List Event
push s n =
    let (s1, events) = stack_push s in (record s1 { nodes = set s1.nodes s1.offset n }, events)

pub pop : Stack → Stack × List Event
pop s =
    if ltb 0 s.offset
    then (
      record s { offset = s.offset - 1; num = s.offset - 1 + 1 },
      stack_free upper (node_at s s.offset),
    )
    else (s, [])

abbrev pub get_data : Stack → ℕ
get_data s = (node_at s s.offset).value

pub empty : Stack → Stack × List Event
empty s = (
  record s { num = 1; offset = 0; nodes = set s.nodes 0 (node_at s s.offset) },
  free_up lower s.nodes s.offset 0 ++ free_down s.nodes (s.num - 1 - s.offset) (s.num - 1),
)

-- `memcpy` of `num` nodes to the front
pub empty_lower : Stack → Stack × List Event
empty_lower s =
    let num = s.num - s.offset in
    (
      record s {
        num = num;
        offset = 0;
        nodes = take num (drop s.offset s.nodes) ++ drop num s.nodes;
      },
      free_up lower s.nodes s.offset 0,
    )

pub empty_upper : Stack → Stack × List Event
empty_upper s =
    (record s { num = s.offset + 1 }, free_down s.nodes (s.num - 1 - s.offset) (s.num - 1))

pub reco : Stack → Stack × List Event
reco s =
    if s.offset == 0
    then (s, [])
    else (let n = node_at s s.offset in
        (
          record s { offset = s.offset - 1 },
          if not (n.value == 0) then undone n.reco n.value ∷ [] else [],
        ))

pub redo : Stack → Stack × List Event
redo s =
    if s.offset + 1 == s.num
    then (s, [])
    else (let n = node_at s (s.offset + 1) in
        (
          record s { offset = s.offset + 1 },
          if not (n.value == 0) then redone n.redo n.value ∷ [] else [],
        ))
