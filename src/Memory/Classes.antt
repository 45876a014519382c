-- ===== src/Memory/Classes.antt =====
-- The classes of sizes, by which the tables of free nodes are indexed.
use egui.Prelude.{ℕ, zero, suc, ◌+◌, ◌-◌, ◌/◌, ◌%◌, ◌≤◌, ◌<◌, arith, ◌==◌, if◌then◌else◌}

abbrev pub free_tables_size : ℕ
free_tables_size = 10

abbrev euint_mod : ℕ
euint_mod = 4294967296

-- The loop of `size_to_free_index`, with the rounds that are left.
halve : (rounds j : ℕ) → ℕ
halve zero j = 0
halve (suc n) j = if j / 2 == 0 then 0 else suc (halve n (j / 2))

unfoldable pub size_to_free_index : ℕ → ℕ
unfolding halve
size_to_free_index size = halve (free_tables_size - 1) ((size + euint_mod - 1) % euint_mod / 4)

halve-le : (n j : ℕ) → halve n j ≤ n
unfolding halve
halve-le zero j = omega arith
halve-le (suc n) j = ground (arith, halve-le n (j / 2))

halve_mono : (n j k : ℕ) → j ≤ k → halve n j ≤ halve n k
unfolding halve
halve_mono zero j k h = omega arith
halve_mono (suc n) j k h = ground (arith, halve_mono n (j / 2) (k / 2))

pub size_to_free_index-lt : (s : ℕ) → size_to_free_index s < free_tables_size
unfolding size_to_free_index
size_to_free_index-lt s = omega (arith, halve-le 9 ((s + euint_mod - 1) % euint_mod / 4))

pub size_to_free_index_mono :
    (s t : ℕ) → 0 < s → s ≤ t → t < euint_mod → size_to_free_index s ≤ size_to_free_index t
unfolding size_to_free_index
size_to_free_index_mono s t pos h b =
    halve_mono 9 ((s + euint_mod - 1) % euint_mod / 4) ((t + euint_mod - 1) % euint_mod / 4)
      (omega arith)
