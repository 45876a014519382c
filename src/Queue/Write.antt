-- ===== src/Queue/Write.antt =====
-- Writing: one round of the loop, the loop, and `e_queue_write`.
use egui.Prelude.{
  ℕ, zero, suc, ◌+◌, ◌-◌, ◌≤◌, ◌<◌, ◌≡◌, ◌≢◌, refl, ap, ap₂, ◌∙◌, sym, List, ◌++◌, arith, length,
  take, drop, append_assoc, append-nil, some, length-drop, length-take, length-append, inl, inr,
  ltb, lt_or_ge, lt→ltb, le→ltb, min, if◌then◌else◌, Bool-cases, ◌==◌,
}
use native.Mathlib.Nat.{mod-eq_of_lt}
use mathlib.Core.Path.{subst}
use egui.Prelude.Modulo.{mod_past}
use egui.Prelude.Slices.{
  take_all, take-add, drop-drop, drop-take, take-append_le, take-append_ge, drop-append_le,
  drop-append_ge,
}
use egui.Queue.{Queue, copy_to, clip, space, begin, gap, put, write_loop, write, write_try}
use egui.Queue.Inv.{IsValid, contents}

-- The whole of `t` stands behind the old contents.
pub record Wrote (q : Queue) (t : List ℕ) (q' : Queue) : Type 0 where
  pub valid : IsValid q'
  pub same_size : q'.size ≡ q.size
  pub behind : contents q' ≡ contents q ++ t

-- A copy between two marks of the storage, cut again at its end.
module _ (cells t : List ℕ) (b : ℕ) (h : b + length t ≤ length cells) where
  length-copy_to : length (copy_to cells b t) ≡ length cells
  length-copy_to = omega (
    arith,
    length-append (take b cells) (t ++ drop (b + length t) cells),
    length-append t (drop (b + length t) cells),
    length-take b cells,
    length-drop (b + length t) cells,
  )

  take-copy_to : take (b + length t) (copy_to cells b t) ≡ take b cells ++ t
  take-copy_to =
      take-append_ge _ (length t) (take b cells) _ (omega (arith, length-take b cells))
      ∙ ap (λ r. take b cells ++ r)
          (take-append_le _ t _ (omega arith) ∙ take_all _ t (omega arith))

  drop-copy_to : (p : ℕ) → b + length t ≤ p → drop p (copy_to cells b t) ≡ drop p cells
  drop-copy_to p k =
      drop-append_ge p (p - b) (take b cells) _ (omega (arith, length-take b cells))
      ∙ drop-append_ge (p - b) (p - b - length t) t _ (omega arith)
      ∙ drop-drop p (b + length t) _ cells (omega arith)

module _ {q : Queue} (v : IsValid q) (t : List ℕ) where
  open v use {sized, pos_in, len_in, home}

  -- The new bytes stand behind the others, before the end of the storage.
  put_ahead :
      q.pos + q.len + length t ≤ q.size
      → let cells = copy_to q.bytes (q.pos + q.len) t in
        take (q.len + length t) (drop q.pos cells ++ cells) ≡ contents q ++ t
  put_ahead h =
      let cells = copy_to q.bytes (q.pos + q.len) t in
      let n = q.len + length t in
      let kept = length-copy_to q.bytes t (q.pos + q.len) (omega arith) in
      let old = length-take (q.pos + q.len) q.bytes in
      take-append_le n (drop q.pos cells) cells (omega (arith, length-drop q.pos cells))
      ∙ sym (drop-take (q.pos + q.len + length t) q.pos n cells (omega arith))
      ∙ ap (drop q.pos) (take-copy_to q.bytes t (q.pos + q.len) (omega arith))
      ∙ drop-append_le q.pos (take (q.pos + q.len) q.bytes) t (omega arith)
      ∙ ap (λ r. r ++ t)
          (drop-take (q.pos + q.len) q.pos q.len q.bytes refl
            ∙ sym (
                take-append_le q.len (drop q.pos q.bytes) q.bytes
                  (omega (arith, length-drop q.pos q.bytes))))

  -- The new bytes stand between the end of the others, which go round, and their start.
  put_round :
      (b : ℕ)
      → q.pos + q.len ≡ q.size + b
      → b + length t ≤ q.pos
      → let cells = copy_to q.bytes b t in
        take (q.len + length t) (drop q.pos cells ++ cells) ≡ contents q ++ t
  put_round b e h =
      let cells = copy_to q.bytes b t in
      let same = drop-copy_to q.bytes t b (omega arith) q.pos h in
      let room = length-drop q.pos q.bytes in
      take-append_ge (q.len + length t) (b + length t) (drop q.pos cells) cells
        (rw same (omega arith))
      ∙ ap₂ ◌++◌ same (take-copy_to q.bytes t b (omega arith))
      ∙ sym (append_assoc (drop q.pos q.bytes) (take b q.bytes) t)
      ∙ ap (λ r. r ++ t) (sym (take-append_ge q.len b (drop q.pos q.bytes) q.bytes (omega arith)))

  -- What `begin` and `gap` come to in the three cases.
  begin_empty : q.len ≡ 0 → (begin q ≡ q.pos + q.len) × (gap q ≡ q.size)
  unfolding gap
  begin_empty e = ground arith

  begin_ahead :
      q.len ≢ 0
      → q.pos + q.len < q.size
      → (begin q ≡ q.pos + q.len) × (gap q ≡ q.size - (q.pos + q.len))
  unfolding gap
  begin_ahead n h = ground (arith, mod-eq_of_lt h)

  begin_round :
      (b : ℕ) → q.len < q.size → q.pos + q.len ≡ q.size + b → (begin q ≡ b) × (gap q ≡ q.pos - b)
  unfolding gap
  begin_round b l e = ground (arith, mod_past (q.pos + q.len) q.size b)

  put-contents :
      length t ≤ gap q
      → length t ≤ space q
      → q.len < q.size
      → let cells = copy_to q.bytes (begin q) t in
        (take (q.len + length t) (drop q.pos cells ++ cells) ≡ contents q ++ t)
        × (begin q + length t ≤ q.size)
  put-contents h k l = elim (lt_or_ge (q.pos + q.len) q.size) [
    | inl c ↦
        let at : (begin q ≡ q.pos + q.len) × (q.pos + q.len + length t ≤ q.size) =
          elim (Bool-cases (q.len == 0)) [
            | inl e ↦ ground (arith, begin_empty)
            | inr e ↦ ground (arith, begin_ahead)
          ] in
        rw at.0 (put_ahead at.1, at.1)
    | inr c ↦
        let b = q.pos + q.len - q.size in
        let e : q.pos + q.len ≡ q.size + b = omega arith in
        let at = begin_round b l e in
        let room : b + length t ≤ q.pos = omega arith in rw at.0 (put_round b e room, omega arith)
  ]

  put-Wrote : length t ≤ gap q → length t ≤ space q → q.len < q.size → Wrote q t (put q t)
  unfolding put
  put-Wrote h k l =
      let (behind, inside) = put-contents h k l in
      let kept = length-copy_to q.bytes t (begin q) (rw sized inside) in
      record {
        valid = record {
          sized = kept ∙ sized;
          pos_in = pos_in;
          len_in = omega arith;
          home = λ e. home (omega arith);
        };
        same_size = refl;
        behind = behind;
      }

  -- There is room for a byte at least while the queue is not full.
  gap_pos : q.len < q.size → 0 < gap q
  gap_pos l = elim (lt_or_ge (q.pos + q.len) q.size) [
    | inl c ↦ ground (arith, begin_empty, begin_ahead)
    | inr c ↦ omega (arith, begin_round (q.pos + q.len - q.size) l (omega arith))
  ]

Wrote-trans : {q r s : Queue} {t u : List ℕ} → Wrote q t r → Wrote r u s → Wrote q (t ++ u) s
Wrote-trans {q} {t} {u} a b = record {
  valid = b.valid;
  same_size = b.same_size ∙ a.same_size;
  behind = b.behind ∙ ap (λ c. c ++ u) a.behind ∙ append_assoc (contents q) t u;
}

-- One round copies some bytes, `n` of them, and leaves room for the rest.
round-Wrote :
    {q : Queue} (t : List ℕ) (n size : ℕ)
    → IsValid q
    → n ≤ gap q
    → n ≤ size
    → 0 < size
    → size ≤ space q
    → size ≤ length t
    → Wrote q (take n t) (put q (take n t)) × (size - n ≤ space (put q (take n t)))
unfolding put
round-Wrote t n size v g l p h k =
    let e = length-take n t in
    (put-Wrote v (take n t) (omega arith) (omega arith) (omega arith), omega arith)

write_loop-step :
    (fuel : ℕ) (q : Queue) (t : List ℕ) (size copied : ℕ)
    → 0 < size
    → let n = clip size (gap q) in
      write_loop (suc fuel) q t size copied
      ≡ write_loop fuel (put q (take n t)) (drop n t) (size - n) (copied + n)
unfolding write_loop
write_loop-step fuel q t size copied p = rw (lt→ltb _ _ p)

-- The loop copies the first `size` bytes of the buffer, and ends.
write_loop-Wrote :
    (fuel : ℕ) {q : Queue} (t : List ℕ) (size copied total : ℕ)
    → IsValid q
    → size < fuel
    → size ≤ space q
    → size ≤ length t
    → copied + size ≡ total
    → (q' : Queue) × (write_loop fuel q t size copied ≡ some (total, q')) × Wrote q (take size t) q'
unfolding write_loop
write_loop-Wrote zero t size copied total v f h k e = absurd (omega arith)
write_loop-Wrote (suc fuel) {q} t zero copied total v f h k e = (
  q,
  ground arith,
  record { valid = v; same_size = refl; behind = sym (append-nil (contents q)) },
)
write_loop-Wrote (suc fuel) {q} t (suc m) copied total v f h k e =
    let n = clip (suc m) (gap q) in
    let some_bytes : 0 < n = ground (arith, gap_pos v) in
    let few : (n ≤ gap q) × (n ≤ suc m) = (ground arith, ground arith) in
    let (first, room) = round-Wrote t n (suc m) v few.0 few.1 (omega arith) h k in
    let (q', done, rest) =
      write_loop-Wrote fuel (drop n t) (suc m - n) (copied + n) total first.valid (omega arith) room
        (omega (arith, length-drop n t)) (omega arith) in
    (
      q',
      write_loop-step fuel q t (suc m) copied (omega arith) ∙ done,
      rw (take-add (suc m) n (suc m - n) t (omega arith)) (Wrote-trans first rest),
    )

module _ {q : Queue} (v : IsValid q) (buf : List ℕ) (size : ℕ) (h : size ≤ length buf) where
  -- On a valid queue, with a buffer of at least `size` bytes, `e_queue_write` ends. It copies as
  -- many bytes as there is room for, from the start of the buffer and behind the old contents, and
  -- returns their number; the queue stays valid.
  pub write-Wrote :
      let n = min size (space q) in
      (q' : Queue) × (write q buf size ≡ some (n, q')) × Wrote q (take n buf) q'
  unfolding write
  write-Wrote =
      let n = clip size (space q) in
      let e : n ≡ min size (space q) = ground arith in
      rw (← e) (
        write_loop-Wrote (n + 1) buf n 0 n v (omega arith) (ground arith) (ground arith)
          (omega arith))

  -- On a valid queue, with a buffer of at least `size` bytes, `e_queue_write_try` writes the whole
  -- request behind the contents, or nothing and returns 0 if there is no room for all of it.
  pub write_try-all_or_nothing :
      let n = if ltb (space q) size then 0 else size in
      (q' : Queue) × (write_try q buf size ≡ some (n, q')) × Wrote q (take n buf) q'
  unfolding write_try
  write_try-all_or_nothing = elim (lt_or_ge (space q) size) [
    | inl c ↦
        rw (lt→ltb _ _ c)
          (q, refl, record { valid = v; same_size = refl; behind = sym (append-nil (contents q)) })
    | inr c ↦
        let all : min size (space q) ≡ size = omega arith in
        rw (le→ltb _ _ c) (
          subst (λ n. (q' : Queue) × (write q buf size ≡ some (n, q')) × Wrote q (take n buf) q')
            all write-Wrote)
  ]
