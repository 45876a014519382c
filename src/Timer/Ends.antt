-- ===== src/Timer/Ends.antt =====
-- The end of a pass, and faults on the way.
use egui.Prelude.{
  ◌>>=◌, ℕ, zero, suc, ◌+◌, ◌*◌, ◌/◌, ◌%◌, ◌<◌, Bool, true, false, ◌≡◌, refl, sym, ap, ◌∙◌, Option,
  some, List, [], ◌∷◌, ◌++◌, ◌==◌, ◌&&◌, ◌||◌, not, if◌then◌else◌, arith, length, ltb,
}
use mathlib.Core.Path.{subst}
use egui.Timer.{
  Timer, Act, add, del, Answer, fired, Pass, has_handle, mark, act, perform, step_to, step_over,
  Timers, Event, dispense_usec, share, start_pass, at_head, call, fire, round, loop, u32,
}

-- The list has no interval of 0.
abbrev pub Positive : List Timer → Type 0
Positive [] = Unit
Positive (t ∷ ts) = (0 < t.interval) × Positive ts

-- Calls that delete no other timer than the one with the handle.
abbrev pub OwnActs : ℕ → List Act → Type 0
OwnActs a [] = Unit
OwnActs a (add _ _ _ _ ∷ cs) = OwnActs a cs
OwnActs a (del b ∷ cs) = (b ≡ a) × OwnActs a cs

-- A result with a property.
abbrev pub Works : (Pass → Type 0) → Option Pass → Type 0
Works P r = (q : Pass) × (r ≡ some q) × P q

Works-bind :
    (P Q : Pass → Type 0) (r : Option Pass) (k : Pass → Option Pass)
    → Works P r
    → ((q : Pass) → P q → Works Q (k q))
    → Works Q (r >>= k)
Works-bind P Q r k (q, e, h) next = rw e (next q h)

Works-if :
    (P : Pass → Type 0) (b : Bool) (x y : Option Pass)
    → (b ≡ true → Works P x)
    → (b ≡ false → Works P y)
    → Works P (if b then x else y)
Works-if P true x y hx hy = hx refl
Works-if P false x y hx hy = hy refl

-- Before a node is left: it is the first of `k + 1` that the pass still has to do with.
record Here (a k : ℕ) (p : Pass) : Type 0 where
  found : has_handle a p.todo ≡ true
  many : length p.todo ≡ suc k
  positive : Positive p.todo

-- After it.
record Next (k : ℕ) (p : Pass) : Type 0 where
  many : length p.todo ≡ k
  positive : Positive p.todo

length-mark : (a : ℕ) (ts : List Timer) → length (mark a ts) ≡ length ts
unfolding mark
length-mark a [] = refl
length-mark a (t ∷ ts) = ap suc (length-mark a ts)

mark-Positive : (a : ℕ) (ts : List Timer) → Positive ts → Positive (mark a ts)
unfolding mark
mark-Positive a [] h = tt
mark-Positive a (t ∷ ts) h = (ground (arith, h.0), mark-Positive a ts h.1)

has_handle-mark : (a b : ℕ) (ts : List Timer) → has_handle a (mark b ts) ≡ has_handle a ts
unfolding has_handle mark
has_handle-mark a b [] = refl
has_handle-mark a b (t ∷ ts) = ground (arith, has_handle-mark a b ts)

or-true_right : (a b c : Bool) → b ≡ true → (a || b || c) ≡ true
or-true_right true b c e = refl
or-true_right false true c e = refl
or-true_right false false c e = absurd (cc e)

act-Here :
    (a k : ℕ) (c : Act) (p : Pass) → OwnActs a (c ∷ []) → Here a k p → Works (Here a k) (act c p)
unfolding act
act-Here a k (add b i f g) p own h =
    (_, refl, record { found = h.found; many = h.many; positive = h.positive })
act-Here a k (del b) p own h =
    Works-if (Here a k) (has_handle b p.before || has_handle b p.todo || has_handle b p.added) _ _
      (λ _. (
        _,
        refl,
        record {
          found = has_handle-mark a b p.todo ∙ h.found;
          many = length-mark b p.todo ∙ h.many;
          positive = mark-Positive b p.todo h.positive;
        },
      ))
      (λ e.
        let there = ap (λ c. has_handle c p.todo) own.0 ∙ h.found in
        absurd (
          cc (
            or-true_right (has_handle b p.before) (has_handle b p.todo) (has_handle b p.added)
                there,
            e,
          )))

perform-Here :
    (a k : ℕ) (cs : List Act) (p : Pass)
    → OwnActs a cs
    → Here a k p
    → Works (Here a k) (perform cs p)
unfolding perform
perform-Here a k [] p own h = (p, refl, h)
perform-Here a k (add b i f g ∷ cs) p own h =
    Works-bind (Here a k) (Here a k) _ _ (act-Here a k (add b i f g) p tt h)
      (λ q j. perform-Here a k cs q own j)
perform-Here a k (del b ∷ cs) p own h =
    Works-bind (Here a k) (Here a k) _ _ (act-Here a k (del b) p (own.0, tt) h)
      (λ q j. perform-Here a k cs q own.1 j)

-- A write to the first node that leaves its interval alone.
at_head-Positive :
    (f : Timer → Timer) (ts : List Timer)
    → ((t : Timer) → (f t).interval ≡ t.interval)
    → Positive ts
    → Positive (at_head f ts)
at_head-Positive f [] same h = tt
at_head-Positive f (t ∷ ts) same h = (omega (arith, same t, h.0), h.1)

length-at_head : (f : Timer → Timer) (ts : List Timer) → length (at_head f ts) ≡ length ts
length-at_head f [] = refl
length-at_head f (t ∷ ts) = refl

-- To be done with the first node.
step_to-Next :
    (k : ℕ) (p : Pass) (ts : List Timer) → length ts ≡ suc k → Positive ts → Next k (step_to p ts)
step_to-Next k p [] e h = absurd (omega (arith, e))
step_to-Next k p (t ∷ ts) e h = record { many = omega (arith, e); positive = h.1 }

delete_if : Pass → Bool → Pass
delete_if p b =
    if b then record p { todo = at_head (λ u. record u { deleted = true }) p.todo } else p

-- The first node may change, but not its interval.
record Many (k : ℕ) (p : Pass) : Type 0 where
  many : length p.todo ≡ suc k
  positive : Positive p.todo

delete_if-Many :
    (k : ℕ) (p : Pass) (b : Bool) → length p.todo ≡ suc k → Positive p.todo → Many k (delete_if p b)
unfolding delete_if
delete_if-Many k p false e h = record { many = e; positive = h }
delete_if-Many k p true e h = record {
  many = length-at_head (λ u. record u { deleted = true }) p.todo ∙ e;
  positive = at_head-Positive (λ u. record u { deleted = true }) p.todo (λ t. refl) h;
}

module _ (run : (func handle count args : ℕ) → Answer)
    (own : (f a c g : ℕ) → OwnActs a (run f a c g).acts) where
  call-Many : (k : ℕ) (t : Timer) (p : Pass) → Here t.handle k p → Works (Many k) (call run t p)
  unfolding call delete_if
  call-Many k t p h =
      Works-if (Many k) (t.func == 0) _ _
        (λ _. (p, refl, record { many = h.many; positive = h.positive }))
        (λ _.
          let count = t.msec / t.interval in
          let answer = run t.func t.handle count t.args in
          Works-bind (Here t.handle k) (Many k) _ _
            (perform-Here t.handle k answer.acts
              (record p { log = p.log ++ fired t.handle count ∷ [] })
              (own t.func t.handle count t.args)
              (record { found = h.found; many = h.many; positive = h.positive }))
            (λ q j. (_, refl, delete_if-Many k q answer.negative j.many j.positive)))

  fire-Next :
      (k : ℕ) (t : Timer) (ts : List Timer) (p : Pass)
      → length ts ≡ k
      → Positive (t ∷ ts)
      → Works (Next k) (fire run t ts p)
  unfolding fire has_handle
  fire-Next k t ts p e h =
      Works-if (Next k) (t.interval == 0) _ _ (λ z. absurd (ground (arith, h.0)))
        (λ _.
          Works-bind (Many k) (Next k) _ _
            (call-Many k (record t { rest = 0 }) (record p { todo = record t { rest = 0 } ∷ ts })
              (record { found = ground arith; many = ap suc e; positive = h }))
            λ q j.
              let reduce = λ (u : Timer). record u { msec = u.msec % u.interval } in
              (
                _,
                refl,
                step_to-Next k (record q { todo = at_head reduce q.todo }) (at_head reduce q.todo)
                    (length-at_head reduce q.todo ∙ j.many)
                    (at_head-Positive reduce q.todo (λ u. refl) j.positive),
              ))

  round-Next :
      (k msec : ℕ) (t : Timer) (ts : List Timer) (p : Pass)
      → length ts ≡ k
      → Positive (t ∷ ts)
      → Works (Next k) (round run msec t ts p)
  unfolding round
  round-Next k msec t ts p e h =
      let left : (q : Pass) → q.todo ≡ ts → Next k q =
        λ q s. record { many = ap length s ∙ e; positive = subst Positive (sym s) h.1 } in
      Works-if (Next k) t.deleted _ _ (λ _. (_, refl, left _ refl))
        (λ _.
          Works-if (Next k) (ltb (u32 (t.msec + msec)) t.interval) _ _ (λ _. (_, refl, left _ refl))
            (λ _.
              Works-if (Next k)
                (ltb t.rest (u32 (t.interval * 3))
                  && not (ltb (u32 (t.msec + msec)) (u32 (t.interval * 2))))
                (some (
                  step_over (record p {
                    todo = record t { msec = u32 (t.msec + msec); rest = u32 (t.rest + msec) } ∷ ts;
                  })))
                _ (λ _. (_, refl, left _ refl))
                (λ _. fire-Next k (record t { msec = u32 (t.msec + msec) }) ts p e h)))

  loop-todo :
      (fuel msec : ℕ) (p : Pass) (ts : List Timer)
      → p.todo ≡ ts
      → length ts ≡ fuel
      → Positive ts
      → Works (λ q. q.todo ≡ []) (loop run fuel msec p ts)
  unfolding loop
  loop-todo fuel msec p [] s e h = (p, refl, s)
  loop-todo zero msec p (t ∷ ts) s e h = absurd (omega (arith, e))
  loop-todo (suc fuel) msec p (t ∷ ts) s e h =
      Works-bind (Next fuel) (λ q. q.todo ≡ []) _ _
        (round-Next fuel msec t ts p (omega (arith, e)) h)
        (λ q j. loop-todo fuel msec q q.todo refl j.many j.positive)

  -- Where no interval is 0 and a function deletes no other timer than its own, `dispense_usec`
  -- ends without a fault: as many rounds as the list has nodes are enough, even if functions add
  -- timers.
  pub dispense_usec-some :
      (s : Timers) (head : List Timer) (sec usec : ℕ)
      → Positive head
      → (s' : Timers) × (log : List Event) × (dispense_usec run s head sec usec ≡ some (s', log))
  unfolding dispense_usec
  dispense_usec-some s head sec usec h =
      let msec = (share s.remain sec usec).0 in
      let (p, done, _) = loop-todo (length head) msec (start_pass head) head refl refl h in
      (
        record s { head = p.before; added = p.added; remain = (share s.remain sec usec).1 },
        p.log,
        ap
            (λ r. r >>= λ q. some (
              record s { head = q.before; added = q.added; remain = (share s.remain sec usec).1 },
              q.log,
            ))
            done,
      )
