-- ===== src/Queue/Peek.antt =====
-- Looking ahead: `e_queue_peek` and `e_queue_seek`, and the two `_try` functions that take all or
-- nothing.
use egui.Prelude.{
  ℕ, ◌+◌, ◌-◌, ◌≤◌, ◌≡◌, refl, ap, ◌∙◌, List, [], ◌++◌, arith, take, drop, length-drop, inl, inr,
  ltb, lt_or_ge, lt→ltb, le→ltb, if◌then◌else◌,
}
use egui.Prelude.Slices.{
  take_all, take-take, drop-drop, drop-take, take-append_le, take-append_ge, drop-append_le,
  drop-append_ge,
}
use egui.Queue.{Queue, read, read_try, copy_out, peek, seek}
use egui.Queue.Inv.{IsValid, contents}
use egui.Queue.Refine.{read-Took}

-- What follows the position `p`, going round once.
abbrev round_from : Queue → ℕ → List ℕ
round_from q p = drop p q.bytes ++ q.bytes

module _ {q : Queue} (v : IsValid q) where
  open v use {sized, pos_in, len_in}

  copy_out-round :
      (p n : ℕ) → p ≤ q.size → n ≤ q.size → copy_out q p n ≡ (n, take n (round_from q p))
  unfolding copy_out
  copy_out-round p n h k =
      let room = length-drop p q.bytes in
      elim (lt_or_ge q.size (p + n)) [
        | inl c ↦
            rw
              (
                lt→ltb _ _ c,
                take_all (q.size - p) (drop p q.bytes) (omega arith),
                take-append_ge n (n - (q.size - p)) (drop p q.bytes) q.bytes (omega arith),
              )
              λ i. (
                (let e : q.size - p + (n - (q.size - p)) ≡ n = omega arith in e) i,
                drop p q.bytes ++ take (n - (q.size - p)) q.bytes,
              )
        | inr c ↦ rw (le→ltb _ _ c, take-append_le n (drop p q.bytes) q.bytes (omega arith))
      ]

  take-contents : (n : ℕ) → n ≤ q.len → take n (contents q) ≡ take n (round_from q q.pos)
  take-contents n h = take-take n q.len _ h

  take-drop-contents :
      (o n : ℕ)
      → o + n ≤ q.len
      → take n (drop o (contents q)) ≡ take n (drop o (round_from q q.pos))
  take-drop-contents o n h =
      ap (take n) (drop-take q.len o (q.len - o) _ (omega arith))
      ∙ take-take n (q.len - o) _ (omega arith)

  -- On a valid queue, `e_queue_peek` returns the first `n` bytes where there are so many, and else
  -- none.
  pub peek_lem : (n : ℕ) → peek q n ≡ (if ltb q.len n then (0, []) else (n, take n (contents q)))
  unfolding peek
  peek_lem n = elim (lt_or_ge q.len n) [
    | inl c ↦ rw (lt→ltb _ _ c)
    | inr c ↦ rw (le→ltb _ _ c, take-contents n c) (copy_out-round q.pos n pos_in (omega arith))
  ]

  seek_body :
      (o n : ℕ)
      → n + o ≤ q.len
      → copy_out q (if ltb q.size (q.pos + o) then q.pos + o - q.size else q.pos + o) n
        ≡ (n, take n (drop o (contents q)))
  seek_body o n h =
      let room = length-drop q.pos q.bytes in
      rw (take-drop-contents o n (omega arith)) (elim (lt_or_ge q.size (q.pos + o)) [
        | inl c ↦ rw (
          lt→ltb _ _ c,
          drop-append_ge o (q.pos + o - q.size) (drop q.pos q.bytes) q.bytes (omega arith),
          copy_out-round (q.pos + o - q.size) n (omega arith) (omega arith),
          take-append_le n (drop (q.pos + o - q.size) q.bytes) q.bytes
              (omega (arith, length-drop (q.pos + o - q.size) q.bytes)),
        )
        | inr c ↦
            rw
              (
                le→ltb _ _ c,
                drop-append_le o (drop q.pos q.bytes) q.bytes (omega arith),
                drop-drop (q.pos + o) q.pos o q.bytes refl,
              )
              (copy_out-round (q.pos + o) n c (omega arith))
      ])

  -- On a valid queue, `e_queue_seek` returns the `n` bytes behind the first `o`, where there are
  -- so many, and else none.
  pub seek_lem :
      (o n : ℕ)
      → seek q o n ≡ (if ltb q.len (n + o) then (0, []) else (n, take n (drop o (contents q))))
  unfolding seek
  seek_lem o n = elim (lt_or_ge q.len (n + o)) [
    | inl c ↦ rw (lt→ltb _ _ c)
    | inr c ↦ rw (le→ltb _ _ c) (seek_body o n c)
  ]

  -- On a valid queue, `e_queue_read_try` takes exactly the `n` oldest bytes, or nothing and
  -- returns 0 if there are fewer; the queue stays valid.
  pub read_try-all_or_nothing :
      (n : ℕ)
      → let (count, t, q') = read_try q n in
        (t ≡ take count (contents q))
        × (contents q' ≡ drop count (contents q))
        × (count ≡ (if ltb q.len n then 0 else n))
        × IsValid q'
  unfolding read_try
  read_try-all_or_nothing n = elim (lt_or_ge q.len n) [
    | inl c ↦ rw (lt→ltb _ _ c) (refl, refl, refl, v)
    | inr c ↦
        let (t, took) = read-Took v n in
        let e : (read q n).0 ≡ n = omega (arith, took.0) in
        rw (le→ltb _ _ c, e) (t, took.1, refl, took.2)
  ]
