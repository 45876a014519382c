-- ===== src/Timer.antt =====
-- elib/timer.c: the timers that `e_timer_loop` serves.
-- A handle is the address of the timer's node, a callback an address (0 is NULL). What a callback
-- does is an argument: the calls of `e_timer_add` and `e_timer_del` that it makes, and whether its
-- result is negative. `none` is a fault: a division by an interval of 0, or a handle whose node is
-- freed. The lock makes each use of `add_timer_head` one step.
pub mod Clock
pub mod Deleted
pub mod Ends
pub mod Serve
pub mod Thread
mod Tests
use egui.Prelude.{
  ◌>>=◌, ℕ, zero, suc, ◌+◌, ◌-◌, ◌*◌, ◌/◌, ◌%◌, ◌^◌, Bool, true, false, Option, none, some, List,
  [], ◌∷◌, ◌++◌, ◌&&◌, ◌||◌, not, ltb, ◌==◌, if◌then◌else◌, length,
}

-- `euint`
abbrev pub u32 : ℕ → ℕ
u32 n = n % 4294967296

-- `struct _TimerNode`; `deleted` is the status `TimerDel`.
pub record Timer : Type 0 where
  pub handle : ℕ
  pub deleted : Bool
  pub interval : ℕ
  pub args : ℕ
  pub msec : ℕ
  pub func : ℕ
  pub rest : ℕ

-- A call that a callback makes.
pub data Act : Type 0 where
  add : (handle interval func args : ℕ) → Act
  del : (handle : ℕ) → Act

-- What a callback does, given the handle, the count and `args`.
pub record Answer : Type 0 where
  pub acts : List Act
  pub negative : Bool

pub data Event : Type 0 where
  fired : (handle count : ℕ) → Event
  freed : (handle : ℕ) → Event

-- The loop of `dispense_usec` at `timer`: the nodes before it, it and those behind it, the list
-- `add_timer_head`, and what has happened.
pub record Pass : Type 0 where
  pub before : List Timer
  pub todo : List Timer
  pub added : List Timer
  pub log : List Event

-- `e_timer_add`, at the address that `e_calloc` returns
abbrev pub new_timer : (handle interval func args : ℕ) → Timer
new_timer handle interval func args = record {
  handle = handle;
  deleted = false;
  interval = interval;
  args = args;
  msec = 0;
  func = func;
  rest = 0;
}

pub has_handle : ℕ → List Timer → Bool
has_handle a [] = false
has_handle a (t ∷ ts) = t.handle == a || has_handle a ts

-- `t->status = TimerDel`
pub mark : ℕ → List Timer → List Timer
mark a [] = []
mark a (t ∷ ts) = (if t.handle == a then record t { deleted = true } else t) ∷ mark a ts

-- A call of `e_timer_add` or `e_timer_del`.
pub act : Act → Pass → Option Pass
act (add a interval func args) p =
    some (record p { added = new_timer a interval func args ∷ p.added })
act (del a) p =
    if has_handle a p.before || has_handle a p.todo || has_handle a p.added
    then some (record p { before = mark a p.before; todo = mark a p.todo; added = mark a p.added })
    else none

pub perform : List Act → Pass → Option Pass
perform [] p = some p
perform (a ∷ acts) p = do p ← act a p; perform acts p

-- `timer = timer->next`
abbrev step_to : Pass → List Timer → Pass
step_to p [] = p
step_to p (t ∷ ts) = record p { before = p.before ++ t ∷ []; todo = ts }

abbrev pub step_over : Pass → Pass
step_over p = step_to p p.todo

-- A write to the node at `timer`, the first of `todo`.
abbrev pub at_head : (Timer → Timer) → List Timer → List Timer
at_head f [] = []
at_head f (t ∷ ts) = f t ∷ ts

module _ (run : (func handle count args : ℕ) → Answer) where
  -- `if (timer->func && timer->func(…) < 0) timer->status = TimerDel`
  pub call : Timer → Pass → Option Pass
  call t p =
      if t.func == 0
      then some p
      else (let count = t.msec / t.interval in
          let answer = run t.func t.handle count t.args in
          let p1 = record p { log = p.log ++ fired t.handle count ∷ [] } in
          do
            p2 ← perform answer.acts p1
            some (
                if answer.negative
                then record p2 { todo = at_head (λ u. record u { deleted = true }) p2.todo }
                else p2))

  -- A timer that is due: `rest = 0`, the call, and `msec %= interval`.
  pub fire : Timer → List Timer → Pass → Option Pass
  fire t ts p = if t.interval == 0 then none else (do
    p1 ← call (record t { rest = 0 }) (record p { todo = record t { rest = 0 } ∷ ts })
    some (
        step_over
          (record p1 { todo = at_head (λ u. record u { msec = u.msec % u.interval }) p1.todo })))

  -- One round of the loop of `dispense_usec`, at the node `t`.
  pub round : ℕ → Timer → List Timer → Pass → Option Pass
  round msec t ts p =
      if t.deleted
      then some (record p { todo = ts; log = p.log ++ freed t.handle ∷ [] })
      else (let m = u32 (t.msec + msec) in
          if ltb m t.interval
          then some (step_over (record p { todo = record t { msec = m } ∷ ts }))
          else if ltb t.rest (u32 (t.interval * 3)) && not (ltb m (u32 (t.interval * 2)))
          then some (
              step_over
                (record p { todo = record t { msec = m; rest = u32 (t.rest + msec) } ∷ ts }))
          else fire (record t { msec = m }) ts p)

  -- `while (timer)`, for as many rounds as there are nodes; `todo` of `p` is given once more.
  pub loop : ℕ → ℕ → Pass → List Timer → Option Pass
  loop fuel msec p [] = some p
  loop zero msec p (t ∷ ts) = none
  loop (suc fuel) msec p (t ∷ ts) = do p1 ← round msec t ts p; loop fuel msec p1 p1.todo

-- What stays between two calls: the list `timer_head`, `add_timer_head` and the statics.
pub record Timers : Type 0 where
  pub head : List Timer
  pub added : List Timer
  pub remain : ℕ
  pub secbase : ℕ
  pub oldsec : ℕ
  pub oldusec : ℕ

-- `add_timer`: each new node goes before the others.
pub take_added : List Timer → List Timer → List Timer
take_added [] head = head
take_added (t ∷ ts) head = take_added ts (t ∷ head)

-- The milliseconds that `dispense_usec` serves, and what `remain` becomes.
pub share : (remain sec usec : ℕ) → ℕ × ℕ
share remain sec usec =
    (u32 (u32 (remain + usec) / 1000 + u32 (sec * 1000)), u32 (remain + usec) % 1000)

-- The seconds and microseconds from the time `old` to the time `new`, as `euint`s.
pub elapsed : (oldsec oldusec newsec newusec : ℕ) → ℕ × ℕ
elapsed oldsec oldusec newsec newusec =
    if ltb newusec oldusec
    then (
      u32 (newsec + 4294967296 - oldsec + 4294967295),
      u32 (1000000 + 4294967296 - oldusec + newusec),
    )
    else (u32 (newsec + 4294967296 - oldsec), u32 (newusec + 4294967296 - oldusec))

abbrev pub start_pass : List Timer → Pass
start_pass head = record { before = []; todo = head; added = []; log = [] }

-- The time of the last call; at the first one it is the time now.
abbrev pub last_time : Timers → (sec usec : ℕ) → ℕ × ℕ
last_time s sec usec = if s.secbase == 0 then (sec, usec) else (s.oldsec, s.oldusec)

module _ (run : (func handle count args : ℕ) → Answer) where
  -- `dispense_usec`, on the list `head`
  pub dispense_usec : Timers → List Timer → (sec usec : ℕ) → Option (Timers × List Event)
  dispense_usec s head sec usec = do
    let (msec, remain) = share s.remain sec usec
    p ← loop run (length head) msec (start_pass head) head
    some (record s { head = p.before; added = p.added; remain = remain }, p.log)

  -- `e_timer_loop`, at the time that `gettimeofday` gives
  pub timer_loop : Timers → (sec usec : ℕ) → Option (Timers × List Event)
  timer_loop s sec usec = do
    let (oldsec, oldusec) = last_time s sec usec
    let (passed, rest) = elapsed oldsec oldusec sec usec
    (s1, log) ← dispense_usec s (take_added s.added s.head) passed rest
    some (
      record s1 {
        secbase = if s.secbase == 0 then sec else s.secbase;
        oldsec = sec;
        oldusec = usec;
      },
      log,
    )

-- `e_timer_add` and `e_timer_del` outside a pass
pub timer_add : Timers → (handle interval func args : ℕ) → Timers
timer_add s handle interval func args = record s {
  added = new_timer handle interval func args ∷ s.added;
}

pub timer_del : Timers → ℕ → Option Timers
timer_del s a =
    if has_handle a s.head || has_handle a s.added
    then some (record s { head = mark a s.head; added = mark a s.added })
    else none
