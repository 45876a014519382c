-- ===== src/Timer/Tests.antt =====
-- Runs of the timers, and their theorems at two timers, one of which its callback deletes.
use egui.Prelude.{
  ℕ, ◌≡◌, ◌<◌, ◌+◌, ◌*◌, refl, arith, Bool, true, false, none, some, List, [], ◌∷◌, leb,
  if◌then◌else◌,
}
use egui.Timer.{
  Timer, del, Answer, Event, fired, freed, Timers, new_timer, dispense_usec, timer_loop, timer_del,
  start_pass, round, loop, fire, call, perform, act, mark, has_handle, take_added, share, elapsed,
}
use egui.Timer.Deleted.{calls, timer_loop-timer_del}
use egui.Timer.Ends.{OwnActs, dispense_usec-some}
use egui.Timer.Clock.{micros, Passes, loops, loops-Passes}
use egui.Timer.Serve.{Served, round-Served}
use egui.Timer.Thread.{
  ThreadTimer, Reading, slept, start_thread, advance_thread, thread_turn, thread_round, thread_loop,
}

-- The callback at 7 deletes its own timer when it is told of two intervals or more.
abbrev once : (func handle count args : ℕ) → Answer
once func handle count args = record {
  acts = if leb 2 count then del handle ∷ [] else [];
  negative = false;
}

abbrev two : List Timer
two = new_timer 100 50 7 0 ∷ new_timer 200 30 7 0 ∷ []

abbrev timers : Timers
timers = record { head = two; added = []; remain = 0; secbase = 1; oldsec = 9; oldusec = 999000 }

serves_both :
    timer_loop once timers 10 39000
    ≡ some (
      record timers {
        head =
            record (new_timer 100 50 7 0) { msec = 40 }
            ∷ record (new_timer 200 30 7 0) { msec = 10 }
            ∷ [];
        secbase = 1;
        oldsec = 10;
        oldusec = 39000;
      },
      fired 200 1 ∷ [],
    )
unfolding timer_loop dispense_usec loop round fire call perform act share elapsed take_added
serves_both = refl

deleted_is_freed :
    timer_loop once
      (record timers {
        head = record (new_timer 100 50 7 0) { deleted = true } ∷ new_timer 200 30 7 0 ∷ [];
      })
      10
      39000
    ≡ some (
      record timers {
        head = record (new_timer 200 30 7 0) { msec = 10 } ∷ [];
        oldsec = 10;
        oldusec = 39000;
      },
      freed 100 ∷ fired 200 1 ∷ [],
    )
unfolding timer_loop dispense_usec loop round fire call perform act share elapsed take_added
deleted_is_freed = refl

-- A pass at an interval of 0 divides by it.
interval_zero : timer_loop once (record timers { head = new_timer 100 0 7 0 ∷ [] }) 10 39000 ≡ none
unfolding timer_loop dispense_usec loop round fire call perform act share elapsed take_added
interval_zero = refl

timer_loop-timer_del_example : calls 100 (freed 100 ∷ fired 200 1 ∷ []) ≡ 0
unfolding timer_del has_handle mark
timer_loop-timer_del_example =
    timer_loop-timer_del once timers 100 10 39000
      (record timers {
        head = record (new_timer 100 50 7 0) { deleted = true } ∷ new_timer 200 30 7 0 ∷ [];
      })
      (record timers {
        head = record (new_timer 200 30 7 0) { msec = 10 } ∷ [];
        oldsec = 10;
        oldusec = 39000;
      })
      (freed 100 ∷ fired 200 1 ∷ []) refl deleted_is_freed

once-OwnActs : (f a c g : ℕ) → OwnActs a (once f a c g).acts
once-OwnActs f a c g = ground arith

dispense_usec-some_example :
    (s' : Timers) × (log : List Event) × (dispense_usec once timers two 0 40000 ≡ some (s', log))
dispense_usec-some_example = dispense_usec-some once once-OwnActs timers two 0 40000 (omega arith)

abbrev after : Timers
after = record timers {
  head =
      record (new_timer 100 50 7 0) { msec = 40 }
      ∷ record (new_timer 200 30 7 0) { msec = 10 }
      ∷ [];
  oldsec = 10;
  oldusec = 39000;
}

loops_runs : loops once timers ((10, 39000) ∷ []) ≡ some (after, fired 200 1 ∷ [])
unfolding loops timer_loop dispense_usec loop round fire call perform act share elapsed take_added
loops_runs = refl

loops-Passes_example :
    (total : ℕ) × Passes once timers ((10, 39000) ∷ []) total (fired 200 1 ∷ []) after
    × (micros (9, 999000) + total * 1000 + 0 ≡ micros (10, 39000) + 0)
    × (0 < 1000)
loops-Passes_example =
    loops-Passes once timers after ((10, 39000) ∷ []) (fired 200 1 ∷ []) (omega arith) (omega arith)
      (omega arith) loops_runs

abbrev silent : (func handle count args : ℕ) → Answer
silent func handle count args = record { acts = []; negative = leb 5 count }

abbrev late : Timer
late = record (new_timer 100 50 7 0) { rest = 200 }

round-Served_example : Served (start_pass []) late [] 130 (round silent 130 late [] (start_pass []))
round-Served_example =
    round-Served silent (λ f a c g. refl) 130 late [] (start_pass []) refl (omega arith)
      (omega arith) (omega arith)

abbrev never : ℕ → Bool
never count = false

abbrev waiting : ThreadTimer
waiting = record (start_thread 50 10 0) { msec = 20; remain = 300; oldusec = 20300 }

abbrev woken : Reading
woken = record { sec = 10; usec = 50000; marked = false }

abbrev next : Reading
next = record { sec = 10; usec = 60000; marked = false }

deleted_while_asleep :
    thread_loop never (start_thread 50 10 0) 10 20300 (record woken { marked = true } ∷ [])
    ≡ some (record waiting { deleted = true }, slept 29700 ∷ [])
unfolding thread_loop thread_round advance_thread thread_turn elapsed share
deleted_while_asleep = refl
