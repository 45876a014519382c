-- ===== src/Queue/Inv.antt =====
-- The representation invariant of a queue, and the bytes that it stands for.
use egui.Prelude.{
  ℕ, ◌+◌, ◌-◌, ◌≤◌, ◌≡◌, refl, ◌∙◌, sym, List, ◌++◌, arith, length, take, drop, length-append,
  length-take, length-drop, Bool-cases, inl, inr, ◌==◌,
}
use egui.Prelude.Slices.{
  take_none, take-take, take-append_le, drop-append_le, drop-append_ge, drop-drop, drop-take,
}
use egui.Queue.{Queue, new, advance, wrap, copy_from}

pub record IsValid (q : Queue) : Type 0 where
  pub sized : length q.bytes ≡ q.size
  pub pos_in : q.pos ≤ q.size
  pub len_in : q.len ≤ q.size
  -- An empty queue starts at the front, which `e_queue_write` relies on.
  pub home : q.len ≡ 0 → q.pos ≡ 0

-- The bytes in order: from `pos` on, going round at the end of the storage.
abbrev pub contents : Queue → List ℕ
contents q = take q.len (drop q.pos q.bytes ++ q.bytes)

pub new-IsValid : (max : ℕ) (storage : List ℕ) → length storage ≡ max → IsValid (new max storage)
unfolding new
new-IsValid max storage h = omega arith

module _ {q : Queue} (v : IsValid q) where
  open v use {sized, pos_in, len_in, home}

  pub length-contents : length (contents q) ≡ q.len
  length-contents = omega (
    arith,
    length-take q.len (drop q.pos q.bytes ++ q.bytes),
    length-append (drop q.pos q.bytes) q.bytes,
    length-drop q.pos q.bytes,
  )

  -- Up to the end of the storage the contents are the bytes that stand there.
  pub copy_from-contents :
      (n : ℕ) → n ≤ q.len → q.pos + n ≤ q.size → copy_from q.bytes q.pos n ≡ take n (contents q)
  copy_from-contents n h k = sym (
      take-take n q.len _ h
      ∙ take-append_le n (drop q.pos q.bytes) q.bytes (omega (arith, length-drop q.pos q.bytes)))

  pub contents-advance :
      (n : ℕ) → n ≤ q.len → q.pos + n ≤ q.size → contents (advance q n) ≡ drop n (contents q)
  unfolding advance
  contents-advance n h k =
      let left : q.len ≡ n + (q.len - n) = omega arith in
      let spot : q.pos + n ≡ q.pos + n = refl in
      rw
        (
          drop-take q.len n (q.len - n) (drop q.pos q.bytes ++ q.bytes) left,
          drop-append_le n (drop q.pos q.bytes) q.bytes (omega (arith, length-drop q.pos q.bytes)),
          drop-drop (q.pos + n) q.pos n q.bytes spot,
        )
        (elim (Bool-cases (q.len - n == 0)) [
          | inl e ↦
              rw (take_none (q.len - n) _ (ground arith), take_none (q.len - n) _ (ground arith))
          | inr e ↦ rw e
        ])

  pub contents-wrap :
      (n : ℕ) → n ≤ q.len → q.pos + n ≡ q.size → contents (wrap q n) ≡ drop n (contents q)
  unfolding wrap
  contents-wrap n h k =
      let left : q.len ≡ n + (q.len - n) = omega arith in
      let rest : n ≡ length (drop q.pos q.bytes) + 0 = omega (arith, length-drop q.pos q.bytes) in
      rw
        (
          drop-take q.len n (q.len - n) (drop q.pos q.bytes ++ q.bytes) left,
          drop-append_ge n 0 (drop q.pos q.bytes) q.bytes rest,
        )
        (take-append_le (q.len - n) q.bytes q.bytes (omega arith))

  pub advance-IsValid : (n : ℕ) → n ≤ q.len → q.pos + n ≤ q.size → IsValid (advance q n)
  unfolding advance
  advance-IsValid n h k = ground arith

  pub wrap-IsValid : (n : ℕ) → n ≤ q.len → q.pos + n ≡ q.size → IsValid (wrap q n)
  unfolding wrap
  wrap-IsValid n h k = ground arith
