-- ===== src/Prelude/Modulo.antt =====
-- Remainders by a variable.
use Prim.Native.Nat.{ℕ, ◌+◌, ◌%◌, ◌<◌}
use mathlib.Core.Path.{◌≡◌, ap, ◌∙◌}
use native.Mathlib.Nat.{mod-eq_of_lt, mod-eq-sub-mod}
use native.Mathlib.Omega.{arith}

-- A sum that passes the divisor once.
pub mod_past : (s n b : ℕ) → b < n → s ≡ n + b → s % n ≡ b
mod_past s n b h e =
    mod-eq-sub-mod {n = s} {m = n} (omega arith)
    ∙ ap (λ k. k % n) (omega arith)
    ∙ mod-eq_of_lt {n = b} {m = n} h
