-- ===== src/Timer/Thread.antt =====
-- The timers of `e_thread_timer_add`, each with a thread of its own that sleeps until it is due.
use egui.Prelude.{
  ℕ, ◌+◌, ◌-◌, ◌*◌, ◌/◌, ◌%◌, ◌<◌, Bool, true, false, ◌≡◌, Option, none, some, leb, ◌==◌,
  if◌then◌else◌, ◌||◌, List, [], ◌∷◌, ◌>>=◌,
}
use egui.Timer.{u32, share, elapsed}
use egui.Timer.Clock.{IsTime}

-- `ThreadTimer_t` less `func` and `args`, which are in `run` below
pub record ThreadTimer : Type 0 where
  pub deleted : Bool
  pub interval : ℕ
  pub msec : ℕ
  pub remain : ℕ
  pub oldsec : ℕ
  pub oldusec : ℕ

-- What a round of the loop does: it calls the function with a count, or sleeps for microseconds.
pub data Outcome : Type 0 where
  called : (count : ℕ) → Outcome
  slept : (usec : ℕ) → Outcome

-- What `thread_timer_handler` starts with, at the time that it reads.
abbrev pub start_thread : (interval : ℕ) → (sec usec : ℕ) → ThreadTimer
start_thread interval sec usec = record {
  deleted = false;
  interval = interval;
  msec = 0;
  remain = 0;
  oldsec = sec;
  oldusec = usec;
}

-- `msec += …`, up to the test
unfoldable pub advance_thread : ThreadTimer → (sec usec : ℕ) → ThreadTimer
advance_thread t sec usec =
    let (passed, rest) = elapsed t.oldsec t.oldusec sec usec in
    let (msec, left) = share t.remain passed rest in
    record t { msec = u32 (t.msec + msec); remain = left; oldsec = sec; oldusec = usec }

-- The rest of the round. `run` tells whether the function, called with the count, returns a negative
-- number or deletes the timer; `none` is a division by an interval of 0.
unfoldable pub thread_turn : (run : ℕ → Bool) → ThreadTimer → Option (ThreadTimer × Outcome)
thread_turn run t =
    if leb t.interval t.msec
    then (if t.interval == 0
        then none
        else (let count = t.msec / t.interval in
            some (
              record t {
                deleted = if run count then true else t.deleted;
                msec = t.msec % t.interval;
              },
              called count,
            )))
    else some (t, slept (u32 (u32 ((t.interval - t.msec) * 1000) + 4294967296 - t.remain)))

unfoldable pub thread_round :
    (run : ℕ → Bool) → ThreadTimer → (sec usec : ℕ) → Option (ThreadTimer × Outcome)
thread_round run t sec usec = thread_turn run (advance_thread t sec usec)

-- The time that is read at the end of a round, and whether `e_timer_del` marked the timer meanwhile.
pub record Reading : Type 0 where
  pub sec : ℕ
  pub usec : ℕ
  pub marked : Bool

-- `status`, where the test at the end of a round reads it
abbrev pub at_test : ThreadTimer → Reading → ThreadTimer
at_test t r = record t { deleted = t.deleted || r.marked }

-- `do … while (timer->status == TimerDoing)`, for the readings that the ends of the rounds find: what
-- the rounds do, up to the test that leaves the loop or to the end of the last round with a reading.
unfoldable pub thread_loop :
    (run : ℕ → Bool)
    → ThreadTimer
    → (sec usec : ℕ) → List Reading
    → Option (ThreadTimer × List Outcome)
unfolding thread_round
thread_loop run t sec usec [] = some (t, [])
thread_loop run t sec usec (r ∷ later) = do
  (t1, o) ← thread_round run t sec usec
  let t2 = at_test t1 r
  (t3, rest) ← elim t2.deleted [
    | true ↦ some (t2, [])
    | false ↦ thread_loop run t2 r.sec r.usec later
  ]
  some (t3, o ∷ rest)

-- A timer whose clock is right, with an interval that a sleep can wait for.
pub record IsThread (t : ThreadTimer) : Type 0 where
  pub some_interval : 0 < t.interval
  pub short : t.interval < 4294967
  pub less : t.msec < t.interval
  pub part : t.remain < 1000
  pub time : IsTime (t.oldsec, t.oldusec)

-- What the loop does from a sleep on: nothing if `e_timer_del` was called meanwhile, and else a call
-- of the function, which is the last thing if it returns a negative number or deletes the timer.
pub data FromSleep (run : ℕ → Bool) (t : ThreadTimer) (pause : ℕ) (r : Reading) (t' : ThreadTimer)
    (os : List Outcome) : Type 0 where
  no_call :
      r.marked ≡ true
      → os ≡ slept pause ∷ []
      → t' ≡ record t { deleted = true }
      → FromSleep run t pause r t' os
  last_call :
      (count : ℕ)
      → r.marked ≡ false
      → 0 < count
      → os ≡ slept pause ∷ called count ∷ []
      → (t'.deleted ≡ true) × (t'.msec < t.interval)
      → FromSleep run t pause r t' os
  a_call :
      (count : ℕ) (rest : List Outcome)
      → r.marked ≡ false
      → 0 < count
      → run count ≡ false
      → os ≡ slept pause ∷ called count ∷ rest
      → FromSleep run t pause r t' os

module _ (run : ℕ → Bool) (t : ThreadTimer) (sec usec : ℕ) (t1 : ThreadTimer) (pause : ℕ)
    (r next : Reading) (later : List Reading)
    (round : thread_round run t sec usec ≡ some (t1, slept pause)) (v : IsThread t1) where
  abbrev Behind : Type 0
  Behind =
      (t' : ThreadTimer) × (os : List Outcome) × (thread_loop run t sec usec (r ∷ next ∷ later)
        ≡ some (t', os))
      × FromSleep run t1 pause r t' os
