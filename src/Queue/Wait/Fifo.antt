-- ===== src/Queue/Wait/Fifo.antt =====
-- The order of the bytes that go through a queue, whatever the threads do.
use egui.Prelude.{
  ℕ, ◌<◌, ◌≤◌, ◌≡◌, refl, sym, ap, ◌∙◌, ◌⊎◌, inl, inr, some, List, [], ◌++◌, append-nil,
  append_assoc, arith, ◌==◌, take, drop, length, min, lt_or_ge, lt→ltb, le→ltb, bind-some,
  Bool-cases, length-take,
}
use mathlib.Core.Path.{subst}
use egui.Prelude.Slices.{take-append-drop, take_none}
use egui.Queue.{Queue, space, read}
use egui.Queue.Inv.{IsValid, contents, length-contents}
use egui.Queue.Refine.{read-Took}
use egui.Queue.Write.{write-Wrote}
use egui.Queue.Wait.{
  Semaphores, Call, writing, reading, Phase, idle, at_lock, asleep, Shared, Turn, write_locked,
  read_locked, turn, System, Step, enter, go, Reach, here, then_to, update, initial,
}

-- A buffer that holds as many bytes as it is said to.
abbrev pub Fits : Call → Type 0
Fits (writing buf size) = size ≤ length buf
Fits (reading size) = Unit

abbrev pub FitsPhase : Phase → Type 0
FitsPhase idle = Unit
FitsPhase (at_lock c) = Fits c
FitsPhase (asleep c) = Fits c

module _ (sems : Semaphores) where
  open sems use {Sem, value, post, wait}

  -- A step leaves a valid queue, and what went out and is in it is what was in it and went in.
  pub record Moved (s : Shared sems) (t : Turn sems) : Type 0 where
    pub valid : IsValid t.shared.queue
    pub order : t.taken_out ++ contents t.shared.queue ≡ contents s.queue ++ t.put_in
    pub fits : FitsPhase t.phase

  -- Asleep, with nothing changed.
  abbrev pub sleeping : Shared sems → Call → Turn sems
  sleeping s c = record { shared = s; phase = asleep c; put_in = []; taken_out = [] }

  -- Under the lock a call sleeps if it has to, and else returns with all that it was to move.
  abbrev pub Outcome : Shared sems → Call → Turn sems → Type 0
  Outcome s (writing buf n) t =
      ((space s.queue < n) × (t ≡ sleeping s (writing buf n)))
      ⊎ ((n ≤ space s.queue) × (t.phase ≡ idle) × (t.put_in ≡ take n buf) × (t.taken_out ≡ []))
  Outcome s (reading n) t =
      ((s.queue.len < n) × (t ≡ sleeping s (reading n)))
      ⊎ ((n ≤ s.queue.len) × (t.phase ≡ idle) × (t.put_in ≡ []) × (length t.taken_out ≡ n))

  module _ (s : Shared sems) (v : IsValid s.queue) where
    sleeping-Moved : (c : Call) → Fits c → Moved s (sleeping s c)
    sleeping-Moved c h = record { valid = v; order = sym (append-nil _); fits = h }

    drained :
        (t rest : List ℕ) (n : ℕ)
        → t ≡ take n (contents s.queue)
        → rest ≡ drop n (contents s.queue)
        → t ++ rest ≡ contents s.queue ++ []
    drained t rest n e f = rw (e, f, append-nil (contents s.queue)) (take-append-drop n _)

    write_locked-Moved :
        (buf : List ℕ) (n : ℕ)
        → n ≤ length buf
        → (t : Turn sems) × (write_locked sems s buf n ≡ some t)
          × Moved s t
          × Outcome s (writing buf n) t
    unfolding write_locked
    write_locked-Moved buf n h = elim (lt_or_ge (space s.queue) n) [
      | inl c ↦
          rw (lt→ltb _ _ c)
            (sleeping s (writing buf n), refl, sleeping-Moved (writing buf n) h, inl (c, refl))
      | inr c ↦
          let (q', e, w) = write-Wrote v buf n h in
          let all : min n (space s.queue) ≡ n = omega arith in
          rw (le→ltb _ _ c, e, all)
            (
              _,
              refl,
              record {
                valid = w.valid;
                order = w.behind ∙ ap (λ k. contents s.queue ++ take k buf) all;
                fits = tt;
              },
              inr (c, refl, refl, refl),
            )
    ]

    read_locked-Moved :
        (n : ℕ) → Moved s (read_locked sems s n) × Outcome s (reading n) (read_locked sems s n)
    unfolding read_locked
    read_locked-Moved n = elim (lt_or_ge s.queue.len n) [
      | inl c ↦ rw (lt→ltb _ _ c) (sleeping-Moved (reading n) tt, inl (c, refl))
      | inr c ↦
          let (t, took) = read-Took v n in
          rw (le→ltb _ _ c) (
            record { valid = took.2; order = drained (read s.queue n).1 _ n t took.1; fits = tt },
            inr (
              c,
              refl,
              refl,
              omega (arith, ap length t, length-take n (contents s.queue), length-contents v),
            ),
          )
    ]

    -- On a valid queue, with a buffer of at least `size` bytes, a call of `e_queue_write_wait` or
    -- `e_queue_read_wait` that has the lock goes on: it sleeps, with nothing changed, where there
    -- is not enough room or not enough bytes, and else returns with all of its bytes moved. The
    -- queue stays valid and in order.
    pub turn-at_lock :
        (c : Call)
        → Fits c
        → (t : Turn sems) × (turn sems s (at_lock c) ≡ some t) × Moved s t × Outcome s c t
    unfolding turn
    turn-at_lock (writing buf n) h = write_locked-Moved buf n h
    turn-at_lock (reading n) h =
        let (moved, outcome) = read_locked-Moved n in (read_locked sems s n, refl, moved, outcome)

    woken-Moved :
        (c : Call) (s' : Shared sems)
        → Fits c
        → s'.queue ≡ s.queue
        → Moved s (record { shared = s'; phase = at_lock c; put_in = []; taken_out = [] })
    woken-Moved c s' h e = record {
      valid = rw e v;
      order = rw (e, append-nil (contents s.queue));
      fits = h;
    }

    turn-Moved : (p : Phase) (t : Turn sems) → FitsPhase p → turn sems s p ≡ some t → Moved s t
    unfolding turn
    turn-Moved idle t h e = absurd (cc e)
    turn-Moved (at_lock c) t h e =
        let (t', done, moved, outcome) = turn-at_lock c h in subst (Moved s) (cc (done, e)) moved
    turn-Moved (asleep (writing buf n)) t h e =
        let (w, up, made) = bind-some (wait s.w_sem) _ e in
        subst (Moved s) (cc made) (woken-Moved (writing buf n) (record s { w_sem = w }) h refl)
    turn-Moved (asleep (reading n)) t h e =
        let (r, up, made) = bind-some (wait s.r_sem) _ e in
        subst (Moved s) (cc made) (woken-Moved (reading n) (record s { r_sem = r }) tt refl)

  -- The history of a system: what was taken, then what the queue holds, is what was written.
  pub record InOrder (s : System sems) : Type 0 where
    pub valid : IsValid s.shared.queue
    pub history : s.written ≡ s.taken ++ contents s.shared.queue
    pub fits : (i : ℕ) → FitsPhase (s.phase i)

  abbrev pub May : ℕ → Call → Type 0
  May i c = Fits c

  update-Fits :
      (f : ℕ → Phase) (i : ℕ) (p : Phase)
      → ((j : ℕ) → FitsPhase (f j))
      → FitsPhase p
      → (j : ℕ) → FitsPhase (update sems f i p j)
  update-Fits f i p old new j = elim (Bool-cases (j == i)) [
    | inl e ↦ rw e new
    | inr e ↦ rw e (old j)
  ]

  joined :
      (taken before after out put : List ℕ)
      → out ++ after ≡ before ++ put
      → (taken ++ before) ++ put ≡ (taken ++ out) ++ after
  joined taken before after out put e = grind (arith, append_assoc)

  Step-InOrder : {s t : System sems} → Step sems May s t → InOrder s → InOrder t
  Step-InOrder (enter s i c e h) v = record {
    valid = v.valid;
    history = v.history;
    fits = update-Fits s.phase i (at_lock c) v.fits h;
  }
  Step-InOrder (go s i t e) v =
      let m = turn-Moved s.shared v.valid (s.phase i) t (v.fits i) e in
      record {
        valid = m.valid;
        history = rw v.history (joined s.taken _ _ t.taken_out t.put_in m.order);
        fits = update-Fits s.phase i t.phase v.fits m.fits;
      }

  -- However threads start calls of `e_queue_write_wait`, with buffers of at least `size` bytes,
  -- and of `e_queue_read_wait` on a new queue, and take turns: the queue is valid, and what was
  -- read so far, with what the queue holds behind it, is what was written, in order.
  pub Reach-InOrder :
      {q : Queue} {r w : Sem} {s : System sems}
      → IsValid q
      → q.len ≡ 0
      → Reach sems May (initial sems q r w) s
      → InOrder s
  Reach-InOrder {q} v e here = record {
    valid = v;
    history = sym (take_none q.len _ e);
    fits = λ i. tt;
  }
  Reach-InOrder v e (then_to run step) = Step-InOrder step (Reach-InOrder v e run)
