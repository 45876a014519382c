-- ===== src/Timer/Clock.antt =====
-- The time that the passes are given: seconds and microseconds are differences of `euint`s, and what
-- is less than a millisecond waits in `remain`.
use egui.Prelude.{
  ◌>>=◌, bind-some, Option, some, ◌++◌, ◌≢◌, length, ap, ap₂, sym, ◌∙◌, ℕ, ◌+◌, ◌*◌, ◌≤◌, ◌<◌, ◌≡◌,
  refl, ◌==◌, if◌then◌else◌, List, [], ◌∷◌, arith,
}
use mathlib.Core.Path.{subst}
use egui.Timer.{
  share, elapsed, Timers, Answer, Event, timer_loop, dispense_usec, loop, start_pass, last_time,
  take_added, Pass,
}

-- A time in microseconds.
abbrev pub micros : ℕ × ℕ → ℕ
micros (sec, usec) = sec * 1000000 + usec

-- A time of day: the seconds fit an `euint`, and the microseconds are less than a second.
abbrev pub IsTime : ℕ × ℕ → Type 0
IsTime (sec, usec) = (sec < 4294967296) × (usec < 1000000)

pub elapsed_lem :
    (oldsec oldusec sec usec : ℕ)
    → IsTime (oldsec, oldusec)
    → IsTime (sec, usec)
    → micros (oldsec, oldusec) ≤ micros (sec, usec)
    → let (s, u) = elapsed oldsec oldusec sec usec in
      (micros (oldsec, oldusec) + micros (s, u) ≡ micros (sec, usec)) × (u < 1000000)
unfolding elapsed
elapsed_lem oldsec oldusec sec usec o n le = ground arith

pub share_lem :
    (remain sec usec : ℕ)
    → remain < 1000
    → usec < 1000000
    → sec < 4294966
    → let (msec, left) = share remain sec usec in
      (msec * 1000 + left ≡ remain + micros (sec, usec)) × (left < 1000)
unfolding share
share_lem remain sec usec r u s = omega arith

-- Times that do not go back, and are not 49 days apart.
abbrev pub Times : ℕ × ℕ → List (ℕ × ℕ) → Type 0
Times old [] = IsTime old
Times old (now ∷ later) =
    IsTime old
    × (micros old ≤ micros now)
    × (micros now < micros old + 4294966000000)
    × Times now later

abbrev pub last_of : ℕ × ℕ → List (ℕ × ℕ) → ℕ × ℕ
last_of old [] = old
last_of old (now ∷ later) = last_of now later

same_time : {a b sec usec : ℕ} → a ≡ sec → b ≡ usec → ◌≡◌ {A = ℕ × ℕ} (sec, usec) (a, b)
same_time e f = ap₂ (λ (x y : ℕ). (x, y)) (sym e) (sym f)

Times-IsTime : (old : ℕ × ℕ) (later : List (ℕ × ℕ)) → Times old later → IsTime old
Times-IsTime old [] h = h
Times-IsTime old (now ∷ later) h = h.0

-- Calls of `e_timer_loop` at the times of the list
unfoldable pub loops :
    (run : (func handle count args : ℕ) → Answer)
    → Timers
    → List (ℕ × ℕ)
    → Option (Timers × List Event)
loops run s [] = some (s, [])
loops run s ((sec, usec) ∷ later) = do
  (s1, log) ← timer_loop run s sec usec
  (s2, more) ← loops run s1 later
  some (s2, log ++ more)

module _ (run : (func handle count args : ℕ) → Answer) where
  -- A call served these milliseconds: the loop over the list, with the new timers put in, was run on
  -- them, and gave the list, the timers that were added, and the log.
  abbrev pub Looped : (s s1 : Timers) → (msec : ℕ) → List Event → Type 0
  Looped s s1 msec log =
      let head = take_added s.added s.head in
      (p : Pass) × (loop run (length head) msec (start_pass head) head ≡ some p)
      × (s1.head ≡ p.before)
      × (s1.added ≡ p.added)
      × (log ≡ p.log)

  -- One call of `e_timer_loop`, at a time in seconds and microseconds: the milliseconds that it
  -- served and what it left make up the time since the call before, with what was left then.
  pub record Passed (s s1 : Timers) (sec usec msec : ℕ) (log : List Event) : Type 0 where
    pub looped : Looped s s1 msec log
    pub at_sec : s1.oldsec ≡ sec
    pub at_usec : s1.oldusec ≡ usec
    pub sum : micros (s.oldsec, s.oldusec) + msec * 1000 + s1.remain ≡ micros (sec, usec) + s.remain
    pub part : s1.remain < 1000

  -- The calls at the times of a list, with all the milliseconds that they served.
  abbrev pub Passes : Timers → List (ℕ × ℕ) → (total : ℕ) → List Event → Timers → Type 0
  Passes s [] total log s' = (s' ≡ s) × (total ≡ 0) × (log ≡ [])
  Passes s (now ∷ later) total log s' =
      (s1 : Timers) × (msec : ℕ) × (first : List Event) × (rest : ℕ) × (more : List Event) × Passed
        s s1 now.0 now.1 msec first
      × Passes s1 later rest more s'
      × (total ≡ msec + rest)
      × (log ≡ first ++ more)

  dispense_usec-Looped :
      (s s1 : Timers) (sec usec : ℕ) (log : List Event)
      → dispense_usec run s (take_added s.added s.head) sec usec ≡ some (s1, log)
      → Looped s s1 (share s.remain sec usec).0 log × (s1.remain ≡ (share s.remain sec usec).1)
  unfolding dispense_usec
  dispense_usec-Looped s s1 sec usec log e =
      let head = take_added s.added s.head in
      let (p, done, made) =
        bind-some (loop run (length head) (share s.remain sec usec).0 (start_pass head) head) _ e in
      ((p, done, cc made, cc made, cc made), cc made)

  -- What a call does when it is not the first
  record Ticked (s s1 : Timers) (sec usec : ℕ) (log : List Event) : Type 0 where
    base : s1.secbase ≢ 0
    at_sec : s1.oldsec ≡ sec
    at_usec : s1.oldusec ≡ usec
    looped :
        let (passed, rest) = elapsed s.oldsec s.oldusec sec usec in
        Looped s s1 (share s.remain passed rest).0 log
        × (s1.remain ≡ (share s.remain passed rest).1)

  last_lem :
      (s : Timers) (sec usec : ℕ) → s.secbase ≢ 0 → last_time s sec usec ≡ (s.oldsec, s.oldusec)
  last_lem s sec usec base = ground (arith, base)

  timer_loop-Ticked :
      (s s1 : Timers) (sec usec : ℕ) (log : List Event)
      → s.secbase ≢ 0
      → timer_loop run s sec usec ≡ some (s1, log)
      → Ticked s s1 sec usec log
  unfolding timer_loop
  timer_loop-Ticked s s1 sec usec log base e =
      let clock = last_lem s sec usec base in
      let (r, done, made) =
        bind-some
          (dispense_usec run s (take_added s.added s.head)
            (elapsed (last_time s sec usec).0 (last_time s sec usec).1 sec usec).0
            (elapsed (last_time s sec usec).0 (last_time s sec usec).1 sec usec).1)
          _ e in
      let first : Timers = record r.0 {
        secbase = if s.secbase == 0 then sec else s.secbase;
        oldsec = sec;
        oldusec = usec;
      } in
      let base_kept : first.secbase ≡ s.secbase = ground (arith, base) in
      let ticked : Ticked s first sec usec r.1 = record {
        base = λ z. base (sym base_kept ∙ z);
        at_sec = refl;
        at_usec = refl;
        looped =
            subst
              (λ (c : ℕ × ℕ).
                let (passed, rest) = elapsed c.0 c.1 sec usec in
                Looped s first (share s.remain passed rest).0 r.1
                × (first.remain ≡ (share s.remain passed rest).1))
              clock (dispense_usec-Looped s r.0 _ _ r.1 done);
      } in
      subst (λ (x : Timers × List Event). Ticked s x.0 sec usec x.1) {x = (first, r.1)}
        {y = (s1, log)} (cc made) ticked

  Ticked-Passed :
      (s s1 : Timers) (sec usec : ℕ) (log : List Event)
      → IsTime (s.oldsec, s.oldusec)
      → IsTime (sec, usec)
      → micros (s.oldsec, s.oldusec) ≤ micros (sec, usec)
      → micros (sec, usec) < micros (s.oldsec, s.oldusec) + 4294966000000
      → s.remain < 1000
      → Ticked s s1 sec usec log
      → (msec : ℕ) × Passed s s1 sec usec msec log
  Ticked-Passed s s1 sec usec log old now order gap part t =
      let (passed, rest) = elapsed s.oldsec s.oldusec sec usec in
      let (e1, e2) = elapsed_lem s.oldsec s.oldusec sec usec old now order in
      let (s1', s2) = share_lem s.remain passed rest part e2 (omega (arith, e1, gap)) in
      (
        (share s.remain passed rest).0,
        record {
          looped = t.looped.0;
          at_sec = t.at_sec;
          at_usec = t.at_usec;
          sum = omega (arith, e1, s1', t.looped.1);
          part = omega (arith, s2, t.looped.1);
        },
      )

  -- After a first call of `e_timer_loop`, for calls at times that do not go back and lie less than
  -- 4294966 seconds apart: each serves its timers a number of milliseconds, which with what
  -- `remain` keeps, less than one, makes up the time since the call before and what was kept then.
  -- Over all calls together no time is lost or served twice.
  pub loops-Passes :
      (s s' : Timers) (later : List (ℕ × ℕ)) (log : List Event)
      → s.secbase ≢ 0
      → s.remain < 1000
      → Times (s.oldsec, s.oldusec) later
      → loops run s later ≡ some (s', log)
      → (total : ℕ) × Passes s later total log s'
        × (micros (s.oldsec, s.oldusec) + total * 1000 + s'.remain
            ≡ micros (last_of (s.oldsec, s.oldusec) later) + s.remain)
        × (s'.remain < 1000)
  unfolding loops
  loops-Passes s s' [] log base part times e =
      let same : s ≡ s' = cc e in
      let kept = ap (λ (x : Timers). x.remain) same in
      (0, (sym same, refl, cc e), omega (arith, kept), omega (arith, kept))
  loops-Passes s s' ((sec, usec) ∷ later) log base part (time, order, gap, times) e =
      let (r, done, rest) = bind-some (timer_loop run s sec usec) _ e in
      let (r2, done2, made) = bind-some (loops run r.0 later) _ rest in
      let t = timer_loop-Ticked s r.0 sec usec r.1 base done in
      let (msec, one) =
        Ticked-Passed s r.0 sec usec r.1 time (Times-IsTime (sec, usec) later times) order gap part
          t in
      let now = same_time one.at_sec one.at_usec in
      let (total, passes, sum, small) =
        loops-Passes r.0 r2.0 later r2.1 t.base one.part (subst (λ c. Times c later) now times)
          done2 in
      let same : r2.0 ≡ s' = cc made in
      let kept = ap (λ (x : Timers). x.remain) same in
      let micros_at = ap micros now in
      let end = ap (λ c. micros (last_of c later)) now in
      (
        msec + total,
        (
          r.0,
          msec,
          r.1,
          total,
          r2.1,
          one,
          subst (Passes r.0 later total r2.1) same passes,
          refl,
          cc made,
        ),
        omega (arith, one.sum, sum, kept, micros_at, end),
        omega (arith, kept, small),
      )
