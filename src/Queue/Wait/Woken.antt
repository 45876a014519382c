-- ===== src/Queue/Wait/Woken.antt =====
-- Wake-ups, with one thread that writes and one that reads.
use egui.Prelude.{
  ==-cases, ℕ, ◌+◌, ◌<◌, ◌≤◌, ◌≡◌, ◌≢◌, refl, sym, ◌∙◌, ◌⊎◌, inl, inr, some, List, [], arith, take,
  lt_or_ge, lt→ltb, le→ltb, bind-some,
}
use mathlib.Core.Path.{subst}
use egui.Queue.{Queue, space, read, write}
use egui.Queue.Wait.{
  Semaphores, Call, writing, reading, Phase, idle, at_lock, asleep, Shared, Turn, write_locked,
  read_locked, turn, signal, System, Step, enter, go, Reach, here, then_to, initial,
}

module _ (sems : Semaphores) (writer reader : ℕ) where
  open sems use {Sem, value, post, wait, post_up, wait_some}

  abbrev pub May : ℕ → Call → Type 0
  May i (writing buf size) = i ≡ writer
  May i (reading size) = i ≡ reader

  abbrev pub MayBe : ℕ → Phase → Type 0
  MayBe i idle = Unit
  MayBe i (at_lock c) = May i c
  MayBe i (asleep c) = May i c

  -- The test that a call makes under the lock
  abbrev pub IsReady : Shared sems → Call → Type 0
  IsReady s (writing buf size) = size ≤ space s.queue
  IsReady s (reading size) = size ≤ s.queue.len

  -- A thread in `e_sem_wait` was signalled, or would sleep again.
  abbrev pub Waits : Shared sems → Phase → Type 0
  Waits s idle = Unit
  Waits s (at_lock c) = Unit
  Waits s (asleep (writing buf size)) = (0 < value s.w_sem) ⊎ (space s.queue < size)
  Waits s (asleep (reading size)) = (0 < value s.r_sem) ⊎ (s.queue.len < size)

  signal-pos : (s : Sem) → 0 < value (signal sems s)
  signal-pos s = elim (lt_or_ge (value s) 1) [
    | inl c ↦ rw (lt→ltb _ _ c) (omega (arith, post_up s))
    | inr c ↦ rw (le→ltb _ _ c) c
  ]

  -- A step of thread `i`, for itself and for a thread `j` beside it.
  record Awake (i : ℕ) (s : Shared sems) (t : Turn sems) : Type 0 where
    role : MayBe i t.phase
    own : Waits t.shared t.phase
    others : (j : ℕ) (p : Phase) → j ≢ i → MayBe j p → Waits s p → Waits t.shared p

  module _ (i : ℕ) (s : Shared sems) where
    sleep-Awake :
        (c : Call)
        → May i c
        → Waits s (asleep c)
        → Awake i s (record { shared = s; phase = asleep c; put_in = []; taken_out = [] })
    sleep-Awake c m h = record { role = m; own = h; others = λ j p ne mj x. x }

    writer_alone :
        (s' : Shared sems)
        → i ≡ writer
        → ((size : ℕ) → Waits s (asleep (reading size)) → Waits s' (asleep (reading size)))
        → (j : ℕ) (p : Phase) → j ≢ i
        → MayBe j p
        → Waits s p
        → Waits s' p
    writer_alone s' m h j idle ne mj x = tt
    writer_alone s' m h j (at_lock c) ne mj x = tt
    writer_alone s' m h j (asleep (writing buf size)) ne mj x = absurd (ne (mj ∙ sym m))
    writer_alone s' m h j (asleep (reading size)) ne mj x = h size x

    reader_alone :
        (s' : Shared sems)
        → i ≡ reader
        → ((size : ℕ) → Waits s (asleep (writing [] size)) → Waits s' (asleep (writing [] size)))
        → (j : ℕ) (p : Phase) → j ≢ i
        → MayBe j p
        → Waits s p
        → Waits s' p
    reader_alone s' m h j idle ne mj x = tt
    reader_alone s' m h j (at_lock c) ne mj x = tt
    reader_alone s' m h j (asleep (writing buf size)) ne mj x = h size x
    reader_alone s' m h j (asleep (reading size)) ne mj x = absurd (ne (mj ∙ sym m))

    wrote-Awake :
        (q : Queue) (put_in : List ℕ)
        → i ≡ writer
        → Awake i s (record {
          shared = record s { queue = q; r_sem = signal sems s.r_sem };
          phase = idle;
          put_in = put_in;
          taken_out = [];
        })
    wrote-Awake q put_in m = record {
      role = tt;
      own = tt;
      others =
          writer_alone (record s { queue = q; r_sem = signal sems s.r_sem }) m
            (λ _ _. inl (signal-pos s.r_sem));
    }

    write_locked-Awake :
        (buf : List ℕ) (size : ℕ) (t : Turn sems)
        → i ≡ writer
        → write_locked sems s buf size ≡ some t
        → Awake i s t
    unfolding write_locked
    write_locked-Awake buf size t m e = elim (lt_or_ge (space s.queue) size) [
      | inl c ↦
          let e : some _ ≡ some t = rw (lt→ltb _ _ c) at e in
          subst (Awake i s) (cc e) (sleep-Awake (writing buf size) m (inr c))
      | inr c ↦
          let e = rw (le→ltb _ _ c) at e in
          let (a, done, made) = bind-some (write s.queue buf size) _ e in
          subst (Awake i s) (cc made) (wrote-Awake a.1 (take a.0 buf) m)
    ]

    read_locked-Awake : (size : ℕ) → i ≡ reader → Awake i s (read_locked sems s size)
    unfolding read_locked
    read_locked-Awake size m = elim (lt_or_ge s.queue.len size) [
      | inl c ↦ rw (lt→ltb _ _ c) (sleep-Awake (reading size) m (inr c))
      | inr c ↦ rw (le→ltb _ _ c) (record {
        role = tt;
        own = tt;
        others =
            reader_alone (record s { queue = (read s.queue size).2; w_sem = signal sems s.w_sem }) m
              (λ _ _. inl (signal-pos s.w_sem));
      })
    ]

    up-Awake :
        (c : Call) (s' : Shared sems)
        → May i c
        → ((j : ℕ) (p : Phase) → j ≢ i → MayBe j p → Waits s p → Waits s' p)
        → Awake i s (record { shared = s'; phase = at_lock c; put_in = []; taken_out = [] })
    up-Awake c s' m h = record { role = m; own = tt; others = h }

    turn-Awake : (p : Phase) (t : Turn sems) → MayBe i p → turn sems s p ≡ some t → Awake i s t
    unfolding turn
    turn-Awake idle t m e = absurd (cc e)
    turn-Awake (at_lock (writing buf size)) t m e = write_locked-Awake buf size t m e
    turn-Awake (at_lock (reading size)) t m e = subst (Awake i s) (cc e) (read_locked-Awake size m)
    turn-Awake (asleep (writing buf size)) t m e =
        let (w, up, made) = bind-some (wait s.w_sem) _ e in
        let s' = record s { w_sem = w } in
        subst (Awake i s) (cc made)
          (up-Awake (writing buf size) s' m (writer_alone s' m (λ _ x. x)))
    turn-Awake (asleep (reading size)) t m e =
        let (r, up, made) = bind-some (wait s.r_sem) _ e in
        let s' = record s { r_sem = r } in
        subst (Awake i s) (cc made) (up-Awake (reading size) s' m (reader_alone s' m (λ _ x. x)))

  record Woken (s : System sems) : Type 0 where
    role : (i : ℕ) → MayBe i (s.phase i)
    waits : (i : ℕ) → Waits s.shared (s.phase i)

  Step-Woken : {s t : System sems} → Step sems May s t → Woken s → Woken t
  Step-Woken (enter s i c e m) v = record {
    role = λ j. elim (==-cases j i) [ inl (b, h) ↦ rw (b, h) m | inr (b, h) ↦ rw b (v.role j) ];
    waits = λ j. elim (==-cases j i) [ inl (b, h) ↦ rw b tt | inr (b, h) ↦ rw b (v.waits j) ];
  }
  Step-Woken (go s i t e) v =
      let a = turn-Awake i s.shared (s.phase i) t (v.role i) e in
      record {
        role = λ j. elim (==-cases j i) [
          | inl (b, h) ↦ rw (b, h) a.role
          | inr (b, h) ↦ rw b (v.role j)
        ];
        waits = λ j. elim (==-cases j i) [
          | inl (b, h) ↦ rw b a.own
          | inr (b, h) ↦ rw b (a.others j (s.phase j) h (v.role j) (v.waits j))
        ];
      }

  Reach-Woken :
      {q : Queue} {r w : Sem} {s : System sems} → Reach sems May (initial sems q r w) s → Woken s
  Reach-Woken here = record { role = λ i. tt; waits = λ i. tt }
  Reach-Woken (then_to run step) = Step-Woken step (Reach-Woken run)

  -- A signalled thread comes out of `e_sem_wait`.
  asleep-turn :
      (s : Shared sems) (c : Call)
      → Waits s (asleep c)
      → IsReady s c
      → (t : Turn sems) × (turn sems s (asleep c) ≡ some t)
  unfolding turn
  asleep-turn s (writing buf size) x h =
      let up : 0 < value s.w_sem = elim x [ inl u ↦ u | inr u ↦ absurd (omega (arith, u, h)) ] in
      let (w, e) = wait_some s.w_sem up in rw e (_, refl)
  asleep-turn s (reading size) x h =
      let up : 0 < value s.r_sem = elim x [ inl u ↦ u | inr u ↦ absurd (omega (arith, u, h)) ] in
      let (r, e) = wait_some s.r_sem up in rw e (_, refl)

  paired :
      (s : System sems) (i : ℕ)
      → (t : Turn sems) × (turn sems s.shared (s.phase i) ≡ some t)
      → (j : ℕ) × (t : Turn sems) × (turn sems s.shared (s.phase j) ≡ some t)
  paired s i (t, e) = (i, t, e)

  module _ {q : Queue} {r w : Sem} (s : System sems)
      (run : Reach sems May (initial sems q r w) s) where
    -- Where one thread writes and one reads, a thread that sleeps in `e_queue_write_wait` or
    -- `e_queue_read_wait` while the queue has the room or the bytes that it waits for can take its
    -- turn: no wake-up is lost.
    pub turn-IsReady :
        (i : ℕ) (c : Call)
        → s.phase i ≡ asleep c
        → IsReady s.shared c
        → (t : Turn sems) × (turn sems s.shared (s.phase i) ≡ some t)
    turn-IsReady i c e h =
        rw e (asleep-turn s.shared c (subst (Waits s.shared) e ((Reach-Woken run).waits i)) h)

    -- Where one thread writes and one reads, and both sleep, for `n` and `m` bytes with `n + m` at
    -- most the queue's size and one, one of them can take its turn: there is no deadlock.
    pub turn-asleep :
        (buf : List ℕ) (n m : ℕ)
        → s.phase writer ≡ asleep (writing buf n)
        → s.phase reader ≡ asleep (reading m)
        → n + m ≤ s.shared.queue.size + 1
        → (i : ℕ) × (t : Turn sems) × (turn sems s.shared (s.phase i) ≡ some t)
    turn-asleep buf n m e f small = elim (lt_or_ge (space s.shared.queue) n) [
      | inl c ↦ paired s reader (turn-IsReady reader (reading m) f (omega arith))
      | inr c ↦ paired s writer (turn-IsReady writer (writing buf n) e c)
    ]
