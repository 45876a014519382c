-- ===== src/Queue/Wait.antt =====
-- `e_queue_write_wait` and `e_queue_read_wait` of elib/queue.c, as threads that share a queue. A step
-- of a thread is what it does between two points where others may run: under the lock, or in
-- `e_sem_wait`.
pub mod Fifo
pub mod Woken
mod Tests
use egui.Prelude.{
  ◌>>=◌, ℕ, ◌+◌, ◌<◌, ◌≤◌, ◌≡◌, Bool, Option, none, some, List, [], ◌++◌, ltb, ◌==◌, if◌then◌else◌,
  take, length,
}
use egui.Queue.{Queue, space, read, write}

-- The semaphores of POSIX, which are not part of elib: a counter that `sem_post` raises and that
-- `sem_wait` lowers, or waits for while it is 0 (`none`).
pub record Semaphores : Type 1 where
  pub Sem : Type 0
  pub value : Sem → ℕ
  pub post : Sem → Sem
  pub wait : Sem → Option Sem
  pub post_up : (s : Sem) → value (post s) ≡ value s + 1
  pub wait_some : (s : Sem) → 0 < value s → (s' : Sem) × (wait s ≡ some s')

-- A call of `e_queue_write_wait` or of `e_queue_read_wait`
pub data Call : Type 0 where
  writing : (buf : List ℕ) (size : ℕ) → Call
  reading : (size : ℕ) → Call

-- Where a thread is: in no call, before `e_thread_mutex_lock`, or in `e_sem_wait`.
pub data Phase : Type 0 where
  idle : Phase
  at_lock : Call → Phase
  asleep : Call → Phase

module _ (sems : Semaphores) where
  open sems use {Sem, value, post, wait}

  pub record Shared : Type 0 where
    pub queue : Queue
    pub r_sem : Sem
    pub w_sem : Sem

  -- What a step leaves: the bytes that it took from a buffer or copied to one are kept beside.
  pub record Turn : Type 0 where
    pub shared : Shared
    pub phase : Phase
    pub put_in : List ℕ
    pub taken_out : List ℕ

  -- `e_sem_getvalue(…, &semval); if (semval < 1) e_sem_post(…)`
  abbrev pub signal : Sem → Sem
  signal s = if ltb (value s) 1 then post s else s

  -- The body of `e_queue_write_wait` under the lock, up to its return or to `e_sem_wait`
  pub write_locked : Shared → List ℕ → ℕ → Option Turn
  write_locked s buf size =
      if ltb (space s.queue) size
      then some
          (record { shared = s; phase = asleep (writing buf size); put_in = []; taken_out = [] })
      else (do
        (n, q) ← write s.queue buf size
        some (record {
          shared = record s { queue = q; r_sem = signal s.r_sem };
          phase = idle;
          put_in = take n buf;
          taken_out = [];
        }))

  -- The body of `e_queue_read_wait` under the lock
  pub read_locked : Shared → ℕ → Turn
  read_locked s size =
      if ltb s.queue.len size
      then record { shared = s; phase = asleep (reading size); put_in = []; taken_out = [] }
      else (let (n, t, q) = read s.queue size in
          record {
            shared = record s { queue = q; w_sem = signal s.w_sem };
            phase = idle;
            put_in = [];
            taken_out = t;
          })

  -- A step of a thread; `none` where it has to wait.
  pub turn : Shared → Phase → Option Turn
  unfolding write_locked read_locked
  turn s idle = none
  turn s (at_lock (writing buf size)) = write_locked s buf size
  turn s (at_lock (reading size)) = some (read_locked s size)
  turn s (asleep (writing buf size)) = do
    w ← wait s.w_sem
    some (record {
      shared = record s { w_sem = w };
      phase = at_lock (writing buf size);
      put_in = [];
      taken_out = [];
    })
  turn s (asleep (reading size)) = do
    r ← wait s.r_sem
    some (record {
      shared = record s { r_sem = r };
      phase = at_lock (reading size);
      put_in = [];
      taken_out = [];
    })

  -- Threads by number, and all bytes that went in and out since the start, in order.
  pub record System : Type 0 where
    pub shared : Shared
    pub phase : ℕ → Phase
    pub written : List ℕ
    pub taken : List ℕ

  abbrev pub update : (ℕ → Phase) → ℕ → Phase → ℕ → Phase
  update f i p j = if j == i then p else f j

  -- Threads start calls, those that they may make, and take turns in any order.
  pub data Step (may : ℕ → Call → Type 0) : System → System → Type 0 where
    enter :
        (s : System) (i : ℕ) (c : Call)
        → s.phase i ≡ idle
        → may i c
        → Step may s (record s { phase = update s.phase i (at_lock c) })
    go :
        (s : System) (i : ℕ) (t : Turn)
        → turn s.shared (s.phase i) ≡ some t
        → Step may s (record {
          shared = t.shared;
          phase = update s.phase i t.phase;
          written = s.written ++ t.put_in;
          taken = s.taken ++ t.taken_out;
        })

  pub data Reach (may : ℕ → Call → Type 0) (s : System) : System → Type 0 where
    here : Reach may s s
    then_to : {t u : System} → Reach may s t → Step may t u → Reach may s u

  -- No thread is in a call, and nothing is in the queue.
  abbrev pub initial : Queue → Sem → Sem → System
  initial q r w = record {
    shared = record { queue = q; r_sem = r; w_sem = w };
    phase = λ i. idle;
    written = [];
    taken = [];
  }
