-- ===== src/Queue/Refine.antt =====
-- Reading: what `e_queue_read`, `e_queue_throw`, `e_queue_peek` and `e_queue_seek` do to the contents.
use egui.Prelude.{
  ℕ, ◌+◌, ◌-◌, ◌≤◌, ◌<◌, ◌≡◌, ap, ◌∙◌, sym, ◌++◌, arith, take, drop, length-drop, inl, inr,
  lt_or_ge, lt→ltb, le→ltb, min,
}
use egui.Prelude.Slices.{take_all, drop_all, take-take, drop-drop, take-append_ge}
use egui.Queue.{Queue, advance, wrap, copy_from, clip, read_bytes, read, throw_bytes, throw}
use egui.Queue.Inv.{
  IsValid, contents, length-contents, copy_from-contents, contents-advance, contents-wrap,
  advance-IsValid, wrap-IsValid,
}

-- What a read of at most `n` bytes does to a FIFO.
abbrev pub Took : ℕ → Queue → ℕ → Queue → Type 0
Took n q count q' = (count ≡ min n q.len) × (contents q' ≡ drop n (contents q)) × IsValid q'

module _ {q : Queue} (v : IsValid q) where
  open v use {sized, pos_in, len_in}

  clip-le : (n : ℕ) → clip n q.len ≤ q.len
  clip-le n = ground arith

  clip-take : (n : ℕ) → take (clip n q.len) (contents q) ≡ take n (contents q)
  clip-take n = elim (lt_or_ge q.len n) [
    | inl h ↦
        rw (lt→ltb _ _ h)
          (take-take _ _ _ (omega arith) ∙ sym (take_all n _ (omega (arith, length-contents v))))
    | inr h ↦ rw (le→ltb _ _ h)
  ]

  clip-drop : (n : ℕ) → drop (clip n q.len) (contents q) ≡ drop n (contents q)
  clip-drop n = elim (lt_or_ge q.len n) [
    | inl h ↦ rw (lt→ltb _ _ h) (
        drop_all q.len (contents q) (omega (arith, length-contents v))
        ∙ sym (drop_all n _ (omega (arith, length-contents v))))
    | inr h ↦ rw (le→ltb _ _ h)
  ]

module _ {q : Queue} (v : IsValid q) (size : ℕ) (h : size ≤ q.len) (k : q.size < q.pos + size) where
  open v use {sized, pos_in, len_in}

  -- The two copies of a read that goes round the end.
  round-contents :
      let n = q.size - q.pos in
      copy_from q.bytes q.pos n ++ copy_from q.bytes 0 (size - n) ≡ take size (contents q)
  round-contents =
      let room = length-drop q.pos q.bytes in
      ap (λ t. t ++ take (size - (q.size - q.pos)) q.bytes)
        (take_all (q.size - q.pos) (drop q.pos q.bytes) (omega arith))
      ∙ sym (
          take-take size q.len _ h
          ∙ take-append_ge size (size - (q.size - q.pos)) (drop q.pos q.bytes) q.bytes
              (omega arith))

  round-IsValid : IsValid (advance (wrap q (q.size - q.pos)) (size - (q.size - q.pos)))
  unfolding wrap
  round-IsValid =
      advance-IsValid (wrap-IsValid v (q.size - q.pos) (omega arith) (omega arith)) _ (omega arith)
        (omega arith)

  round-drop :
      contents (advance (wrap q (q.size - q.pos)) (size - (q.size - q.pos)))
      ≡ drop size (contents q)
  unfolding wrap
  round-drop =
      contents-advance (wrap-IsValid v (q.size - q.pos) (omega arith) (omega arith)) _ (omega arith)
        (omega arith)
      ∙ ap (drop (size - (q.size - q.pos)))
          (contents-wrap v (q.size - q.pos) (omega arith) (omega arith))
      ∙ drop-drop size (q.size - q.pos) _ (contents q) (omega arith)

module _ {q : Queue} (v : IsValid q) where
  throw_bytes-Took : (n : ℕ) → n ≤ q.len → let (count, q') = throw_bytes q n in Took n q count q'
  unfolding throw_bytes
  throw_bytes-Took n h = elim (lt_or_ge q.size (q.pos + n)) [
    | inl k ↦ rw (lt→ltb _ _ k) (omega arith, round-drop v n h k, round-IsValid v n h k)
    | inr k ↦ rw (le→ltb _ _ k) (omega arith, contents-advance v n h k, advance-IsValid v n h k)
  ]

  read_bytes-Took :
      (n : ℕ)
      → n ≤ q.len
      → let (count, t, q') = read_bytes q n in (t ≡ take n (contents q)) × Took n q count q'
  unfolding read_bytes
  read_bytes-Took n h = elim (lt_or_ge q.size (q.pos + n)) [
    | inl k ↦
        rw (lt→ltb _ _ k)
          (round-contents v n h k, (omega arith, round-drop v n h k, round-IsValid v n h k))
    | inr k ↦ rw (le→ltb _ _ k) (
      copy_from-contents v n h k,
      (omega arith, contents-advance v n h k, advance-IsValid v n h k),
    )
  ]

  Took-clip : (n count : ℕ) (q' : Queue) → Took (clip n q.len) q count q' → Took n q count q'
  Took-clip n count q' t = (ground arith, t.1 ∙ clip-drop v n, t.2)

  -- On a valid queue, `e_queue_throw` drops the oldest bytes, as many as asked for and there are,
  -- and returns their number; the queue stays valid.
  pub throw-Took : (n : ℕ) → let (count, q') = throw q n in Took n q count q'
  unfolding throw
  throw-Took n = Took-clip n _ _ (throw_bytes-Took (clip n q.len) (clip-le v n))

  -- On a valid queue, `e_queue_read` returns the oldest bytes in order, as many as asked for and
  -- there are, and their number; it leaves the bytes behind them as the contents of a valid queue.
  pub read-Took :
      (n : ℕ) → let (count, t, q') = read q n in (t ≡ take n (contents q)) × Took n q count q'
  unfolding read
  read-Took n =
      let body = read_bytes-Took (clip n q.len) (clip-le v n) in
      (body.0 ∙ clip-take v n, Took-clip n _ _ body.1)
