-- ===== src/Timer/Serve.antt =====
-- What a round does to one timer, and to no other, when its callback makes no calls of its own.
use egui.Prelude.{
  ℕ, ◌+◌, ◌*◌, ◌/◌, ◌%◌, ◌<◌, Bool, true, false, ◌≡◌, ◌≢◌, refl, sym, ap, Option, some, List, [],
  ◌∷◌, ◌++◌, arith, ◌==◌, ◌&&◌, not, ltb, if◌then◌else◌, append-nil,
}
use egui.Timer.{Timer, Answer, Event, fired, freed, Pass, perform, call, fire, round, u32}

-- The intervals that the calls in the log tell of.
abbrev pub told : List Event → ℕ
told [] = 0
told (fired h n ∷ es) = n + told es
told (freed h ∷ es) = told es

-- A node was left, with its clock set and with these events.
pub record Served (p : Pass) (t : Timer) (ts : List Timer) (msec : ℕ) (made : Option Pass)
    : Type 0 where
  pub after : Timer
  pub events : List Event
  pub done :
      made ≡ some (record p { before = p.before ++ after ∷ []; todo = ts; log = p.log ++ events })
  pub same : (after.handle ≡ t.handle) × (after.interval ≡ t.interval)
  pub clock : told events * t.interval + after.msec ≡ t.msec + msec

module _ (run : (func handle count args : ℕ) → Answer)
    (quiet : (f a c g : ℕ) → (run f a c g).acts ≡ []) where
  perform-quiet : (f a c g : ℕ) (p : Pass) → perform (run f a c g).acts p ≡ some p
  unfolding perform
  perform-quiet f a c g p = rw (quiet f a c g) refl

  call-Served :
      (t : Timer) (ts : List Timer) (p : Pass)
      → let count = t.msec / t.interval in
        let answer = run t.func t.handle count t.args in
        call run t (record p { todo = t ∷ ts })
        ≡ some (
            if t.func == 0 then record p { todo = t ∷ ts } else record p {
              todo = (if answer.negative then record t { deleted = true } else t) ∷ ts;
              log = p.log ++ fired t.handle count ∷ [];
            })
  unfolding call
  call-Served t ts p =
      let count = t.msec / t.interval in
      ground (
        arith,
        perform-quiet t.func t.handle count t.args
            (record p { todo = t ∷ ts; log = p.log ++ fired t.handle count ∷ [] }),
      )

  -- The clock of a timer that was called, or that has no callback.
  fire-Served :
      (t : Timer) (ts : List Timer) (p : Pass)
      → 0 < t.interval
      → t.func ≢ 0
      → Served p t ts 0 (fire run t ts p)
  unfolding fire
  fire-Served t ts p pos some_func =
      let u = record t { rest = 0 } in
      let count = t.msec / t.interval in
      record {
        after = record t {
          rest = 0;
          msec = t.msec % t.interval;
          deleted = if (run t.func t.handle count t.args).negative then true else t.deleted;
        };
        events = fired t.handle count ∷ [];
        done = ground (arith, call-Served u ts p);
        same = (refl, refl);
        clock = grind arith;
      }

  kept_silent :
      (t after : Timer) (ts : List Timer) (p : Pass) (msec : ℕ)
      → after.handle ≡ t.handle
      → after.interval ≡ t.interval
      → after.msec ≡ t.msec + msec
      → Served p t ts msec (some (record p { before = p.before ++ after ∷ []; todo = ts }))
  kept_silent t after ts p msec e f g = record {
    after = after;
    events = [];
    done =
        ap (λ log. some (record p { before = p.before ++ after ∷ []; todo = ts; log = log }))
          (sym (append-nil p.log));
    same = (e, f);
    clock = omega (arith, g);
  }

  Served-if :
      {p : Pass} {t : Timer} {ts : List Timer} {msec : ℕ} {x y : Option Pass} (b : Bool)
      → Served p t ts msec x
      → Served p t ts msec y
      → Served p t ts msec (if b then x else y)
  Served-if true hx hy = hx
  Served-if false hx hy = hy

  alive_branch :
      {p : Pass} {t : Timer} {ts : List Timer} {msec : ℕ} {b : Bool} (x : Option Pass)
      {y : Option Pass}
      → b ≡ false
      → Served p t ts msec y
      → Served p t ts msec (if b then x else y)
  alive_branch x e h = rw e h

  -- Where functions make no calls of their own, a round at a timer that is not deleted, with a
  -- function, an interval above 0 and a clock that does not overflow, leaves the timer in its
  -- place. The intervals that its function is told of and what is left in `msec` add up to the
  -- time before and the pass's: also where a late call is put off.
  pub round-Served :
      (msec : ℕ) (t : Timer) (ts : List Timer) (p : Pass)
      → t.deleted ≡ false
      → 0 < t.interval
      → t.func ≢ 0
      → t.msec + msec < 4294967296
      → Served p t ts msec (round run msec t ts p)
  unfolding round
  round-Served msec t ts p alive pos some_func small =
      let m : u32 (t.msec + msec) ≡ t.msec + msec = omega arith in
      let s = fire-Served (record t { msec = u32 (t.msec + msec) }) ts p pos some_func in
      alive_branch (some (record p { todo = ts; log = p.log ++ freed t.handle ∷ [] })) alive (
        Served-if (ltb (u32 (t.msec + msec)) t.interval)
          (kept_silent t (record t { msec = u32 (t.msec + msec) }) ts p msec refl refl m)
          (Served-if
            (ltb t.rest (u32 (t.interval * 3))
              && not (ltb (u32 (t.msec + msec)) (u32 (t.interval * 2))))
            (kept_silent t (record t { msec = u32 (t.msec + msec); rest = u32 (t.rest + msec) }) ts
              p msec refl refl m)
            (record {
              after = s.after;
              events = s.events;
              done = s.done;
              same = s.same;
              clock = omega (arith, s.clock, m);
            })))
