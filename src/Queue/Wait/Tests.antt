-- ===== src/Queue/Wait/Tests.antt =====
-- Runs of threads that share a queue, and the theorems about them at such runs.
use egui.Prelude.{ℕ, zero, suc, ◌+◌, ◌<◌, ◌≡◌, refl, arith, ◌++◌, Option, none, some, [], ◌∷◌}
use egui.Queue.{Queue, write, read, begin, gap, put}
use egui.Queue.Inv.{IsValid}
use egui.Queue.Wait.{
  Semaphores, Call, writing, reading, idle, at_lock, asleep, Turn, turn, System, enter, go, Reach,
  here, then_to, update, initial, write_locked, read_locked,
}
use egui.Queue.Wait.Fifo.{Fits, InOrder, Reach-InOrder}
use egui.Queue.Wait.Woken.{May, turn-IsReady, turn-asleep}

-- Semaphores that are their counter.
abbrev lower : ℕ → Option ℕ
lower zero = none
lower (suc n) = some n

lower_some : (n : ℕ) → 0 < n → (m : ℕ) × (lower n ≡ some m)
lower_some zero h = absurd (omega arith)
lower_some (suc n) h = (n, refl)

abbrev counters : Semaphores
counters = record {
  Sem = ℕ;
  value = λ n. n;
  post = λ n. n + 1;
  wait = lower;
  post_up = λ n. refl;
  wait_some = lower_some;
}

-- Thread `i` starts a call, or takes its turn.
abbrev entered : System counters → ℕ → Call → System counters
entered s i c = record s { phase = update counters s.phase i (at_lock c) }

abbrev went : System counters → ℕ → System counters
went s i = elim (turn counters s.shared (s.phase i)) [
  | none ↦ s
  | some t ↦ record {
    shared = t.shared;
    phase = update counters s.phase i t.phase;
    written = s.written ++ t.put_in;
    taken = s.taken ++ t.taken_out;
  }
]

abbrev fresh : Queue
fresh = record { pos = 0; len = 0; size = 4; bytes = 0 ∷ 0 ∷ 0 ∷ 0 ∷ [] }

abbrev start : System counters
start = initial counters fresh 0 0

-- The reader sleeps for two bytes; the writer writes three, and sleeps for room for two more.
abbrev both : System counters
unfolding turn write_locked read_locked write begin gap put
both =
    let a = went (entered start 1 (reading 2)) 1 in
    let b = went (entered a 0 (writing (5 ∷ 6 ∷ 7 ∷ []) 3)) 0 in
    went (entered b 0 (writing (8 ∷ 9 ∷ []) 2)) 0

both_asleep :
    (both.phase 0 ≡ asleep (writing (8 ∷ 9 ∷ []) 2))
    × (both.phase 1 ≡ asleep (reading 2))
    × (both.shared.r_sem ≡ 1)
unfolding both
both_asleep = (refl, refl, refl)

-- The run, for threads that may make these calls.
module _ (may : ℕ → Call → Type 0) (m : may 1 (reading 2)) (n : may 0 (writing (5 ∷ 6 ∷ 7 ∷ []) 3))
    (o : may 0 (writing (8 ∷ 9 ∷ []) 2)) where
  to_both : Reach counters may start both
  unfolding both turn write_locked read_locked write begin gap put
  to_both =
      let a = then_to here (enter start 1 (reading 2) refl m) in
      let b = then_to a (go _ 1 _ refl) in
      let c = then_to b (enter _ 0 (writing (5 ∷ 6 ∷ 7 ∷ []) 3) refl n) in
      let d = then_to c (go _ 0 _ refl) in
      let e = then_to d (enter _ 0 (writing (8 ∷ 9 ∷ []) 2) refl o) in then_to e (go _ 0 _ refl)

-- The writer's call in `both`, and the reader's, may each be made by its thread.
to_both_pair : Reach counters (May counters 0 1) start both
to_both_pair = to_both (May counters 0 1) refl refl refl

turn-IsReady_example : (t : Turn counters) × (turn counters both.shared (both.phase 1) ≡ some t)
unfolding both
turn-IsReady_example = turn-IsReady counters 0 1 both to_both_pair 1 (reading 2) refl (omega arith)

turn-asleep_example :
    (i : ℕ) × (t : Turn counters) × (turn counters both.shared (both.phase i) ≡ some t)
unfolding both
turn-asleep_example =
    turn-asleep counters 0 1 both to_both_pair (8 ∷ 9 ∷ []) 2 2 refl refl (omega arith)

fresh-IsValid : IsValid fresh
fresh-IsValid = omega arith

Reach-InOrder_example : InOrder counters both
Reach-InOrder_example =
    Reach-InOrder counters fresh-IsValid refl
      (to_both (λ i c. Fits c) tt (omega arith) (omega arith))

-- Two readers sleep and two bytes are written, but a second signal is not given while the first is
-- not taken: one reader sleeps on, with its byte in the queue.
abbrev lost : System counters
unfolding turn write_locked read_locked write read begin gap put
lost =
    let a = went (entered start 1 (reading 1)) 1 in
    let b = went (entered a 2 (reading 1)) 2 in
    let c = went (entered b 0 (writing (5 ∷ []) 1)) 0 in
    let d = went (entered c 0 (writing (6 ∷ []) 1)) 0 in went (went d 1) 1

second_reader_sleeps :
    (lost.shared.queue.len ≡ 1)
    × (lost.phase 2 ≡ asleep (reading 1))
    × (turn counters lost.shared (lost.phase 2) ≡ none)
    × (lost.phase 1 ≡ idle)
    × (lost.phase 0 ≡ idle)
unfolding lost turn
second_reader_sleeps = (refl, refl, refl, refl, refl)
