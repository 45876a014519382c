-- ===== src/Queue.antt =====
-- elib/queue.c and elib/queue.h: a byte ring of fixed size.
-- `eint` values are plain numbers: arguments are taken as not negative, and small enough for the sums
-- that the code forms. A call that fills the caller's buffer returns the bytes beside its result. The
-- mutex makes each body that is modelled here one atomic step; Wait has the two functions that sleep.
pub mod Inv
pub mod Peek
pub mod Refine
pub mod Wait
pub mod Write
mod Tests
use egui.Prelude.{
  ℕ, zero, suc, ◌+◌, ◌-◌, ◌%◌, Bool, true, false, Option, none, some, List, [], ◌++◌, length, take,
  drop, ltb, ◌==◌, if◌then◌else◌, replicate,
}

-- `struct _Queue` less its lock and semaphores; `bytes` is `data`.
pub record Queue : Type 0 where
  pub pos : ℕ
  pub len : ℕ
  pub size : ℕ
  pub bytes : List ℕ

-- `e_memcpy(t, data + begin, n)`
abbrev pub copy_from : List ℕ → ℕ → ℕ → List ℕ
copy_from cells begin n = take n (drop begin cells)

-- `e_memcpy(data + begin, t, n)` for the `n` bytes `t`
abbrev pub copy_to : List ℕ → ℕ → List ℕ → List ℕ
copy_to cells begin t = take begin cells ++ (t ++ drop (begin + length t) cells)

-- The storage is what `e_malloc` returns: any `max` bytes.
pub new : (max : ℕ) → (storage : List ℕ) → Queue
new max storage = record { pos = 0; len = 0; size = max; bytes = storage }

abbrev pub space : Queue → ℕ
space q = q.size - q.len

-- `if (size > len) size = len`
abbrev pub clip : ℕ → ℕ → ℕ
clip size len = if ltb len size then len else size

-- `pos += size; len -= size; if (len == 0) pos = 0`
unfoldable pub advance : Queue → ℕ → Queue
advance q size =
    let left = q.len - size in record q { pos = if left == 0 then 0 else q.pos + size; len = left }

-- `pos = 0; len -= n`, after the bytes up to the end of the storage
unfoldable pub wrap : Queue → ℕ → Queue
wrap q n = record q { pos = 0; len = q.len - n }

-- `e_queue_read` and `e_queue_throw` behind the first test, where `size` is at most `len`. The
-- result, the bytes that went to `buf`, and the queue.
read_bytes : Queue → ℕ → ℕ × List ℕ × Queue
unfolding advance wrap
read_bytes q size =
    if ltb q.size (q.pos + size)
    then (let n = q.size - q.pos in
        (
          n + (size - n),
          copy_from q.bytes q.pos n ++ copy_from q.bytes 0 (size - n),
          advance (wrap q n) (size - n),
        ))
    else (size, copy_from q.bytes q.pos size, advance q size)

pub read : Queue → ℕ → ℕ × List ℕ × Queue
unfolding read_bytes
read q size = read_bytes q (clip size q.len)

throw_bytes : Queue → ℕ → ℕ × Queue
unfolding advance wrap
throw_bytes q size =
    if ltb q.size (q.pos + size)
    then (let n = q.size - q.pos in (n + (size - n), advance (wrap q n) (size - n)))
    else (size, advance q size)

pub throw : Queue → ℕ → ℕ × Queue
unfolding throw_bytes
throw q size = throw_bytes q (clip size q.len)

-- Where the next bytes go.
unfoldable pub begin : Queue → ℕ
begin q = if q.len == 0 then 0 else (q.pos + q.len) % q.size

-- How many go there in one copy.
unfoldable pub gap : Queue → ℕ
unfolding begin
gap q =
    if q.len == 0 then q.size else if ltb q.pos (begin q) then q.size - begin q else q.pos - begin q

-- One round of the loop of `e_queue_write`, for the bytes that it copies.
unfoldable pub put : Queue → List ℕ → Queue
put q t = record q { len = q.len + length t; bytes = copy_to q.bytes (begin q) t }

-- `while (size > 0)`: `t` is what is left of the buffer, `copied` is `t - buf`.
write_loop : ℕ → Queue → List ℕ → ℕ → ℕ → Option (ℕ × Queue)
unfolding gap put
write_loop zero q t size copied = none
write_loop (suc fuel) q t size copied =
    let rest =
      let n = clip size (gap q) in
      write_loop fuel (put q (take n t)) (drop n t) (size - n) (copied + n) in
    if ltb 0 size then rest else some (copied, q)

-- Each round copies a byte at least, so `size + 1` rounds are enough.
pub write : Queue → List ℕ → ℕ → Option (ℕ × Queue)
unfolding write_loop
write q buf request = let size = clip request (space q) in write_loop (size + 1) q buf size 0

pub write_try : Queue → List ℕ → ℕ → Option (ℕ × Queue)
write_try q buf size = if ltb (space q) size then some (0, q) else write q buf size

pub read_try : Queue → ℕ → ℕ × List ℕ × Queue
read_try q size = if ltb q.len size then (0, [], q) else read q size

-- `__queue_peek` from the position `pos`; `__queue_seek` ends in the same code.
copy_out : Queue → ℕ → ℕ → ℕ × List ℕ
copy_out q pos size =
    if ltb q.size (pos + size)
    then (let n = q.size - pos in
        (n + (size - n), copy_from q.bytes pos n ++ copy_from q.bytes 0 (size - n)))
    else (size, copy_from q.bytes pos size)

pub peek : Queue → ℕ → ℕ × List ℕ
unfolding copy_out
peek q size = if ltb q.len size then (0, []) else copy_out q q.pos size

pub seek : Queue → (offset size : ℕ) → ℕ × List ℕ
unfolding copy_out
seek q offset size =
    if ltb q.len (size + offset)
    then (0, [])
    else copy_out q
        (if ltb q.size (q.pos + offset) then q.pos + offset - q.size else q.pos + offset) size
