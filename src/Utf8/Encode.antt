-- ===== src/Utf8/Encode.antt =====
-- UTF-8 as RFC 2279 describes it, up to 31 bits.
use egui.Prelude.{ℕ, zero, suc, ◌+◌, ◌/◌, ◌%◌, List, [], ◌∷◌, ◌++◌, ltb, if◌then◌else◌}

-- A byte behind the first one
abbrev pub tail_byte : ℕ → ℕ
tail_byte n = 128 + n % 64

-- The `k` low groups of six bits
unfoldable pub tail_bytes : ℕ → ℕ → List ℕ
tail_bytes zero n = []
tail_bytes (suc k) n = tail_bytes k (n / 64) ++ tail_byte n ∷ []

unfoldable pub encode : ℕ → List ℕ
unfolding tail_bytes
encode n =
    if ltb n 128
    then n ∷ []
    else if ltb n 2048
    then (192 + n / 64) ∷ tail_bytes 1 n
    else if ltb n 65536
    then (224 + n / 4096) ∷ tail_bytes 2 n
    else if ltb n 2097152
    then (240 + n / 262144) ∷ tail_bytes 3 n
    else if ltb n 67108864
    then (248 + n / 16777216) ∷ tail_bytes 4 n
    else (252 + n / 1073741824) ∷ tail_bytes 5 n
