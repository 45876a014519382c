-- ===== src/Utf8.antt =====
-- elib/eutf8.c: characters of UTF-8 text.
-- A pointer into text is the list of the bytes from there to the end of the memory; `none` is a read
-- behind it. Masks and shifts of bytes are written as quotients and remainders: `c & 0xe0` is
-- `c / 32 * 32` for a byte `c`, and `c & 0x1f` is `c % 32`.
pub mod Encode
pub mod Decode
pub mod Count
mod Tests
use egui.Prelude.{
  ℕ, zero, suc, ◌+◌, ◌-◌, ◌*◌, ◌/◌, ◌%◌, Bool, Option, none, some, List, [], ◌∷◌, ltb, leb, ◌==◌,
  ◌||◌, if◌then◌else◌, drop, length,
}
use egui.Prelude.Int.{ℤ, pos, negsuc}

-- `(eunichar)-1`
abbrev pub bad_char : ℕ
bad_char = 4294967295

-- `UTF8_COMPUTE`: the length and, for the mask, the number of values that it keeps; 0 is for -1.
pub compute : ℕ → ℕ × ℕ
compute c =
    if ltb c 128
    then (1, 128)
    else if c / 32 * 32 == 192
    then (2, 32)
    else if c / 16 * 16 == 224
    then (3, 16)
    else if c / 8 * 8 == 240
    then (4, 8)
    else if c / 4 * 4 == 248
    then (5, 4)
    else if c / 2 * 2 == 252
    then (6, 2)
    else (0, 1)

-- `UTF8_GET`, for the `n` bytes behind the first; `result` is a multiple of 64 after the shift.
pub get_rest : ℕ → ℕ → List ℕ → Option ℕ
get_rest zero result bs = some result
get_rest (suc n) result [] = none
get_rest (suc n) result (b ∷ bs) =
    let rest = get_rest n (result * 64 % 4294967296 + b % 64) bs in
    if b / 64 * 64 == 128 then rest else some bad_char

-- `e_utf8_get_char`
pub get_char : List ℕ → Option ℕ
unfolding compute get_rest
get_char [] = none
get_char (c ∷ bs) =
    let (len, kept) = compute c in
    if len == 0 then some bad_char else get_rest (len - 1) (c % kept) bs

-- The rows of `utf8_skip_data`
pub skip : ℕ → ℕ
skip c =
    if ltb c 192
    then 1
    else if ltb c 224
    then 2
    else if ltb c 240
    then 3
    else if ltb c 248
    then 4
    else if ltb c 252
    then 5
    else if ltb c 254
    then 6
    else 1

-- `e_uni_next_char`
abbrev pub next_char : ℕ → List ℕ → List ℕ
next_char c bs = drop (skip c) (c ∷ bs)

-- `while (*p)`, on fuel: each round goes on by a byte at least.
pub count_all : ℕ → List ℕ → ℕ → Option ℕ
count_all zero bs len = none
count_all (suc k) [] len = none
count_all (suc k) (c ∷ bs) len =
    let rest = count_all k (next_char c bs) (len + 1) in if c == 0 then some len else rest

-- `while (p - start < max && *p)`, and what follows it; `at` is `p - start`.
pub count_to : ℕ → (max at : ℕ) → List ℕ → ℕ → Option ℕ
count_to zero max at bs len = none
count_to (suc k) max at [] len =
    if ltb at max then none else some (if leb at max then len + 1 else len)
count_to (suc k) max at (c ∷ bs) len =
    let rest = count_to k max (at + skip c) (next_char c bs) (len + 1) in
    if ltb at max
    then (if c == 0 then some (if leb at max then len + 1 else len) else rest)
    else some (if leb at max then len + 1 else len)

-- `e_utf8_strlen`; `none` for `p` is NULL. `max` may be negative.
pub strlen : Option (List ℕ) → ℤ → Option ℕ
unfolding count_all count_to
strlen none max = some 0
strlen (some bs) (negsuc _) = count_all (length bs + 1) bs 0
strlen (some []) (pos max) = if max == 0 then some 0 else none
strlen (some (c ∷ bs)) (pos max) =
    if (max == 0) || (c == 0)
    then some 0
    else count_to (length bs + 1) max (skip c) (next_char c bs) 0
