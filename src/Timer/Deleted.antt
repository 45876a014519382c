-- ===== src/Timer/Deleted.antt =====
-- Calls of a timer that was deleted.
use egui.Prelude.{
  if-some, bind-some, ◌>>=◌, ℕ, zero, suc, ◌+◌, Bool, true, false, ◌≡◌, refl, sym, ap, ◌∙◌, Option,
  none, some, List, [], ◌∷◌, ◌++◌, ◌==◌, if◌then◌else◌, arith, length, Bool-cases, inl, inr, ltb,
  not, ◌/◌, ◌*◌, ◌%◌, ◌&&◌, ◌||◌,
}
use mathlib.Core.Path.{subst}
use egui.Timer.{
  Timer, Act, add, del, Answer, Event, fired, freed, Pass, has_handle, mark, act, perform, step_to,
  at_head, call, fire, round, loop, u32, Timers, timer_del, timer_loop, dispense_usec, share,
  start_pass, take_added,
}

-- How often the log has a call for the handle.
abbrev pub calls : ℕ → List Event → ℕ
calls a [] = 0
calls a (fired h n ∷ es) = (if h == a then 1 else 0) + calls a es
calls a (freed h ∷ es) = calls a es

-- Each node of the list with the handle has the status `TimerDel`.
abbrev pub Deleted : ℕ → List Timer → Type 0
Deleted a [] = Unit
Deleted a (t ∷ ts) = ((t.handle == a) ≡ true → t.deleted ≡ true) × Deleted a ts

calls-append : (a : ℕ) (es fs : List Event) → calls a (es ++ fs) ≡ calls a es + calls a fs
calls-append a [] fs = omega arith
calls-append a (fired h n ∷ es) fs = omega (arith, calls-append a es fs)
calls-append a (freed h ∷ es) fs = calls-append a es fs

mark-Deleted : (a b : ℕ) (ts : List Timer) → Deleted a ts → Deleted a (mark b ts)
unfolding mark
mark-Deleted a b [] d = tt
mark-Deleted a b (t ∷ ts) d = (ground (arith, d.0), mark-Deleted a b ts d.1)

-- What a pass keeps for a deleted timer: its node stays deleted, and it is not called.
record Kept (a : ℕ) (n : ℕ) (p : Pass) : Type 0 where
  still : Deleted a p.todo
  silent : calls a p.log ≡ n

data Keeps (a n : ℕ) : Option Pass → Type 0 where
  fault : Keeps a n none
  keeps : {p : Pass} → Kept a n p → Keeps a n (some p)

Keeps-bind :
    {a n : ℕ} {r : Option Pass} {k : Pass → Option Pass}
    → Keeps a n r
    → ((p : Pass) → Kept a n p → Keeps a n (k p))
    → Keeps a n (r >>= k)
Keeps-bind fault next = fault
Keeps-bind (keeps h) next = next _ h

Keeps-if :
    {a n : ℕ} {x y : Option Pass} (b : Bool)
    → (b ≡ true → Keeps a n x)
    → (b ≡ false → Keeps a n y)
    → Keeps a n (if b then x else y)
Keeps-if true hx hy = hx refl
Keeps-if false hx hy = hy refl

act-Keeps : (a n : ℕ) (c : Act) (p : Pass) → Kept a n p → Keeps a n (act c p)
unfolding act
act-Keeps a n (add b i f g) p h = keeps (record { still = h.still; silent = h.silent })
act-Keeps a n (del b) p h =
    Keeps-if (has_handle b p.before || has_handle b p.todo || has_handle b p.added)
      (λ _. keeps (record { still = mark-Deleted a b p.todo h.still; silent = h.silent }))
      (λ _. fault)

perform-Keeps : (a n : ℕ) (cs : List Act) (p : Pass) → Kept a n p → Keeps a n (perform cs p)
unfolding perform
perform-Keeps a n [] p h = keeps h
perform-Keeps a n (c ∷ cs) p h = Keeps-bind (act-Keeps a n c p h) (perform-Keeps a n cs)

at_head-Deleted :
    (a : ℕ) (f : Timer → Timer) (ts : List Timer)
    → ((t : Timer) → (f t).handle ≡ t.handle)
    → ((t : Timer) → t.deleted ≡ true → (f t).deleted ≡ true)
    → Deleted a ts
    → Deleted a (at_head f ts)
at_head-Deleted a f [] same stays d = tt
at_head-Deleted a f (t ∷ ts) same stays d =
    (λ e. stays t (d.0 (ap (λ h. h == a) (sym (same t)) ∙ e)), d.1)

step_to-Kept :
    (a n : ℕ) (p : Pass) (ts : List Timer) → Kept a n p → Deleted a ts → Kept a n (step_to p ts)
step_to-Kept a n p [] h d = h
step_to-Kept a n p (t ∷ ts) h d = record { still = d.1; silent = h.silent }

calls-fired :
    (a n h c : ℕ) (log : List Event)
    → (h == a) ≡ false
    → calls a log ≡ n
    → calls a (log ++ fired h c ∷ []) ≡ n
calls-fired a n h c log e k = calls-append a log (fired h c ∷ []) ∙ rw e (omega (arith, k))

mark_first : (p : Pass) → Bool → Pass
mark_first p b =
    if b then record p { todo = at_head (λ u. record u { deleted = true }) p.todo } else p

mark_first-Kept : (a n : ℕ) (p : Pass) (b : Bool) → Kept a n p → Kept a n (mark_first p b)
unfolding mark_first
mark_first-Kept a n p false h = h
mark_first-Kept a n p true h = record {
  still =
      at_head-Deleted a (λ u. record u { deleted = true }) p.todo (λ t. refl) (λ t e. refl) h.still;
  silent = h.silent;
}

-- A node that is not deleted has another handle.
other_handle :
    (a : ℕ) (t : Timer) (ts : List Timer)
    → t.deleted ≡ false
    → Deleted a (t ∷ ts)
    → (t.handle == a) ≡ false
other_handle a t ts e d = elim (Bool-cases (t.handle == a)) [ inl h ↦ cc (e, d.0 h) | inr h ↦ h ]

module _ (run : (func handle count args : ℕ) → Answer) (a n : ℕ) where
  call-Keeps :
      (t : Timer) (p : Pass) → (t.handle == a) ≡ false → Kept a n p → Keeps a n (call run t p)
  unfolding call mark_first
  call-Keeps t p other h = elim (Bool-cases (t.func == 0)) [
    | inl e ↦ rw e (keeps h)
    | inr e ↦
        let count = t.msec / t.interval in
        let answer = run t.func t.handle count t.args in
        let told = calls-fired a n t.handle count p.log other h.silent in
        rw e (
          Keeps-bind
            (perform-Keeps a n answer.acts (record p { log = p.log ++ fired t.handle count ∷ [] })
              (record { still = h.still; silent = told }))
            (λ q k. keeps (mark_first-Kept a n q answer.negative k)))
  ]

  fire-Keeps :
      (t : Timer) (ts : List Timer) (p : Pass)
      → (t.handle == a) ≡ false
      → Deleted a (t ∷ ts)
      → calls a p.log ≡ n
      → Keeps a n (fire run t ts p)
  unfolding fire
  fire-Keeps t ts p other d k =
      Keeps-if (t.interval == 0) (λ _. fault)
        (λ _.
          Keeps-bind
            (call-Keeps (record t { rest = 0 }) (record p { todo = record t { rest = 0 } ∷ ts })
              other (record { still = d; silent = k }))
            λ q h.
              let left =
                at_head-Deleted a (λ u. record u { msec = u.msec % u.interval }) q.todo (λ u. refl)
                  (λ u e. e) h.still in
              keeps (
                step_to-Kept a n
                  (record q {
                    todo = at_head (λ u. record u { msec = u.msec % u.interval }) q.todo;
                  })
                  (at_head (λ u. record u { msec = u.msec % u.interval }) q.todo)
                  (record { still = left; silent = h.silent }) left))

  round-Keeps :
      (msec : ℕ) (t : Timer) (ts : List Timer) (p : Pass)
      → Deleted a (t ∷ ts)
      → calls a p.log ≡ n
      → Keeps a n (round run msec t ts p)
  unfolding round
  round-Keeps msec t ts p d k =
      Keeps-if t.deleted
        (λ gone. keeps (record {
          still = d.1;
          silent = calls-append a p.log (freed t.handle ∷ []) ∙ omega (arith, k);
        }))
        (λ alive.
          Keeps-if (ltb (u32 (t.msec + msec)) t.interval)
            (λ _. keeps (record { still = d.1; silent = k }))
            (λ _.
              Keeps-if
                (ltb t.rest (u32 (t.interval * 3))
                  && not (ltb (u32 (t.msec + msec)) (u32 (t.interval * 2))))
                (λ _. keeps (record { still = d.1; silent = k }))
                (λ _.
                  fire-Keeps (record t { msec = u32 (t.msec + msec) }) ts p
                    (other_handle a t ts alive d) d k)))

  loop-Keeps :
      (fuel msec : ℕ) (p : Pass) (ts : List Timer)
      → Kept a n p
      → Deleted a ts
      → Keeps a n (loop run fuel msec p ts)
  unfolding loop
  loop-Keeps fuel msec p [] h d = keeps h
  loop-Keeps zero msec p (t ∷ ts) h d = fault
  loop-Keeps (suc fuel) msec p (t ∷ ts) h d =
      Keeps-bind (round-Keeps msec t ts p d h.silent)
        (λ q k. loop-Keeps fuel msec q q.todo k k.still)

Keeps-some : {a n : ℕ} {r : Option Pass} (p : Pass) → Keeps a n r → r ≡ some p → Kept a n p
Keeps-some p fault e = absurd (cc e)
Keeps-some p (keeps h) e = subst (Kept _ _) (cc e) h

loop-calls :
    (run : (func handle count args : ℕ) → Answer) (a fuel msec : ℕ) (p p' : Pass)
    → Deleted a p.todo
    → loop run fuel msec p p.todo ≡ some p'
    → calls a p'.log ≡ calls a p.log
loop-calls run a fuel msec p p' d e =
    let kept =
      Keeps-some p'
        (loop-Keeps run a (calls a p.log) fuel msec p p.todo (record { still = d; silent = refl })
          d)
        e in
    kept.silent

mark-Deleted_self : (a : ℕ) (ts : List Timer) → Deleted a (mark a ts)
unfolding mark
mark-Deleted_self a [] = tt
mark-Deleted_self a (t ∷ ts) = (ground arith, mark-Deleted_self a ts)

take_added-Deleted :
    (a : ℕ) (ts us : List Timer) → Deleted a ts → Deleted a us → Deleted a (take_added ts us)
unfolding take_added
take_added-Deleted a [] us d e = e
take_added-Deleted a (t ∷ ts) us d e = take_added-Deleted a ts (t ∷ us) d.1 (d.0, e)

-- A pass over a list with only deleted nodes for the handle makes no call of it.
dispense_usec-calls :
    (run : (func handle count args : ℕ) → Answer) (s : Timers) (a sec usec : ℕ) (head : List Timer)
    (s' : Timers) (log : List Event)
    → Deleted a head
    → dispense_usec run s head sec usec ≡ some (s', log)
    → calls a log ≡ 0
unfolding dispense_usec
dispense_usec-calls run s a sec usec head s' log d e =
    let msec = (share s.remain sec usec).0 in
    let (p, done, made) = bind-some (loop run (length head) msec (start_pass head) head) _ e in
    let told : p.log ≡ log = cc made in
    ap (calls a) (sym told) ∙ loop-calls run a (length head) msec (start_pass head) p d done

-- After `e_timer_del` of a timer, a call of `e_timer_loop` that ends does not call the timer's
-- function, whatever calls of `e_timer_add` and `e_timer_del` the functions of other timers make.
pub timer_loop-timer_del :
    (run : (func handle count args : ℕ) → Answer) (s : Timers) (a sec usec : ℕ) (s1 s2 : Timers)
    (log : List Event)
    → timer_del s a ≡ some s1
    → timer_loop run s1 sec usec ≡ some (s2, log)
    → calls a log ≡ 0
unfolding timer_loop timer_del
timer_loop-timer_del run s a sec usec s1 s2 log e f =
    let del = if-some (has_handle a s.head || has_handle a s.added) _ e in
    let head : Deleted a s1.head = subst (λ t. Deleted a t.head) del (mark-Deleted_self a s.head) in
    let added : Deleted a s1.added =
      subst (λ t. Deleted a t.added) del (mark-Deleted_self a s.added) in
    let (r, done, made) = bind-some (dispense_usec run s1 (take_added s1.added s1.head) _ _) _ f in
    let told : r.1 ≡ log = cc made in
    ap (calls a) (sym told)
    ∙ dispense_usec-calls run s1 a _ _ (take_added s1.added s1.head) r.0 r.1
        (take_added-Deleted a s1.added s1.head added head) done
