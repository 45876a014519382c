-- ===== src/Utf8/Decode.antt =====
-- `e_utf8_get_char`, on the encoding of a character.
use egui.Prelude.{
  ℕ, suc, ◌+◌, ◌*◌, ◌/◌, ◌%◌, ◌≤◌, ◌<◌, ◌≡◌, ap, ◌∙◌, some, List, ◌∷◌, ◌++◌, arith, lt_or_ge,
  lt→ltb, le→ltb, inl, inr,
}
use egui.Utf8.{compute, get_rest, get_char, skip}
use egui.Utf8.Encode.{encode, tail_bytes, tail_byte}

-- One byte behind the first, with room for it below 32 bits.
get_tail :
    (k r n : ℕ) (bs : List ℕ)
    → r < 67108864
    → get_rest (suc k) r (tail_byte n ∷ bs) ≡ get_rest k (r * 64 + n % 64) bs
unfolding get_rest
get_tail k r n bs h = ground (arith, h)

abbrev IsLead : ℕ → ℕ → ℕ → Type 0
IsLead c len kept = compute c ≡ (len, kept)

IsLead-one : (q : ℕ) → q < 128 → IsLead q 1 128
IsLead-one q h = unfold compute in ground (arith, h)

IsLead-two : (q : ℕ) → q < 32 → IsLead (192 + q) 2 32
IsLead-two q h = unfold compute in ground (arith, h)

IsLead-three : (q : ℕ) → q < 16 → IsLead (224 + q) 3 16
IsLead-three q h = unfold compute in ground (arith, h)

IsLead-four : (q : ℕ) → q < 8 → IsLead (240 + q) 4 8
IsLead-four q h = unfold compute in ground (arith, h)

IsLead-five : (q : ℕ) → q < 4 → IsLead (248 + q) 5 4
IsLead-five q h = unfold compute in ground (arith, h)

IsLead-six : (q : ℕ) → q < 2 → IsLead (252 + q) 6 2
IsLead-six q h = unfold compute in ground (arith, h)

get_lead :
    (c len kept q : ℕ) (bs : List ℕ)
    → IsLead c (suc len) kept
    → c % kept ≡ q
    → get_char (c ∷ bs) ≡ get_rest len q bs
unfolding get_char
get_lead c len kept q bs e m = ground (arith, e, m)

-- The bytes behind the first, from the last `k` on, and the value that they make.
get_one :
    (r n : ℕ) (bs : List ℕ)
    → r < 67108864
    → get_rest 1 r (tail_bytes 1 n ++ bs) ≡ some (r * 64 + n % 64)
unfolding get_rest tail_bytes
get_one r n bs h = get_tail 0 r n bs h

get_two :
    (r n : ℕ) (bs : List ℕ)
    → r < 1048576
    → get_rest 2 r (tail_bytes 2 n ++ bs) ≡ some ((r * 64 + n / 64 % 64) * 64 + n % 64)
unfolding get_rest tail_bytes
get_two r n bs h =
    get_tail 1 r (n / 64) (tail_byte n ∷ bs) (omega arith)
    ∙ get_tail 0 (r * 64 + n / 64 % 64) n bs (omega arith)

get_three :
    (r n : ℕ) (bs : List ℕ)
    → r < 16384
    → get_rest 3 r (tail_bytes 3 n ++ bs)
      ≡ some (((r * 64 + n / 64 / 64 % 64) * 64 + n / 64 % 64) * 64 + n % 64)
unfolding tail_bytes
get_three r n bs h =
    get_tail 2 r (n / 64 / 64) (tail_byte (n / 64) ∷ tail_byte n ∷ bs) (omega arith)
    ∙ get_two (r * 64 + n / 64 / 64 % 64) n bs (omega arith)

get_four :
    (r n : ℕ) (bs : List ℕ)
    → r < 256
    → get_rest 4 r (tail_bytes 4 n ++ bs)
      ≡ some (
          (((r * 64 + n / 64 / 64 / 64 % 64) * 64 + n / 64 / 64 % 64) * 64 + n / 64 % 64) * 64
          + n % 64)
unfolding tail_bytes
get_four r n bs h =
    get_tail 3 r (n / 64 / 64 / 64)
      (tail_byte (n / 64 / 64) ∷ tail_byte (n / 64) ∷ tail_byte n ∷ bs) (omega arith)
    ∙ get_three (r * 64 + n / 64 / 64 / 64 % 64) n bs (omega arith)

get_five :
    (r n : ℕ) (bs : List ℕ)
    → r < 4
    → get_rest 5 r (tail_bytes 5 n ++ bs)
      ≡ some (
          ((((r * 64 + n / 64 / 64 / 64 / 64 % 64) * 64 + n / 64 / 64 / 64 % 64) * 64
                  + n / 64 / 64 % 64)
                * 64
              + n / 64 % 64)
            * 64
          + n % 64)
unfolding tail_bytes
get_five r n bs h =
    get_tail 4 r (n / 64 / 64 / 64 / 64)
      (tail_byte (n / 64 / 64 / 64)
        ∷ tail_byte (n / 64 / 64)
        ∷ tail_byte (n / 64)
        ∷ tail_byte n
        ∷ bs)
      (omega arith)
    ∙ get_four (r * 64 + n / 64 / 64 / 64 / 64 % 64) n bs (omega arith)

-- How a character is encoded, and what the code makes of it.
pub record Shape (n : ℕ) : Type 0 where
  pub lead : ℕ
  pub more : ℕ
  pub bytes : encode n ≡ lead ∷ tail_bytes more n
  pub skips : skip lead ≡ suc more
  pub gets : (bs : List ℕ) → get_char (lead ∷ tail_bytes more n ++ bs) ≡ some n
  pub ends_not : 0 < n → 0 < lead

ones : (n : ℕ) → n < 128 → Shape n
unfolding encode get_rest tail_bytes
ones n h = record {
  lead = n;
  more = 0;
  bytes = rw (lt→ltb n 128 h);
  skips = unfold skip in ground (arith, h);
  gets = λ bs. get_lead n 0 128 n bs (IsLead-one n h) (omega arith);
  ends_not = λ p. p;
}

twos : (n : ℕ) → 128 ≤ n → n < 2048 → Shape n
unfolding encode tail_bytes
twos n a b = record {
  lead = 192 + n / 64;
  more = 1;
  bytes = rw (le→ltb n 128 a, lt→ltb n 2048 b);
  skips = unfold skip in ground arith;
  gets = λ bs.
      get_lead (192 + n / 64) 1 32 (n / 64) _ (IsLead-two (n / 64) (omega arith)) (omega arith)
      ∙ get_one (n / 64) n bs (omega arith)
      ∙ ap (λ m. some m) (omega arith);
  ends_not = λ p. omega arith;
}

threes : (n : ℕ) → 2048 ≤ n → n < 65536 → Shape n
unfolding encode
threes n a b = record {
  lead = 224 + n / 4096;
  more = 2;
  bytes = rw (le→ltb n 128 (omega arith), le→ltb n 2048 a, lt→ltb n 65536 b);
  skips = unfold skip in ground arith;
  gets = λ bs.
      get_lead (224 + n / 4096) 2 16 (n / 4096) _ (IsLead-three (n / 4096) (omega arith))
        (omega arith)
      ∙ get_two (n / 4096) n bs (omega arith)
      ∙ ap (λ m. some m) (omega arith);
  ends_not = λ p. omega arith;
}

fours : (n : ℕ) → 65536 ≤ n → n < 2097152 → Shape n
unfolding encode
fours n a b = record {
  lead = 240 + n / 262144;
  more = 3;
  bytes = rw (
    le→ltb n 128 (omega arith),
    le→ltb n 2048 (omega arith),
    le→ltb n 65536 a,
    lt→ltb n 2097152 b,
  );
  skips = unfold skip in ground arith;
  gets = λ bs.
      get_lead (240 + n / 262144) 3 8 (n / 262144) _ (IsLead-four (n / 262144) (omega arith))
        (omega arith)
      ∙ get_three (n / 262144) n bs (omega arith)
      ∙ ap (λ m. some m) (omega arith);
  ends_not = λ p. omega arith;
}

fives : (n : ℕ) → 2097152 ≤ n → n < 67108864 → Shape n
unfolding encode
fives n a b = record {
  lead = 248 + n / 16777216;
  more = 4;
  bytes = rw (
    le→ltb n 128 (omega arith),
    le→ltb n 2048 (omega arith),
    le→ltb n 65536 (omega arith),
    le→ltb n 2097152 a,
    lt→ltb n 67108864 b,
  );
  skips = unfold skip in ground arith;
  gets = λ bs.
      get_lead (248 + n / 16777216) 4 4 (n / 16777216) _ (IsLead-five (n / 16777216) (omega arith))
        (omega arith)
      ∙ get_four (n / 16777216) n bs (omega arith)
      ∙ ap (λ m. some m) (omega arith);
  ends_not = λ p. omega arith;
}

sixes : (n : ℕ) → 67108864 ≤ n → n < 2147483648 → Shape n
unfolding encode
sixes n a b = record {
  lead = 252 + n / 1073741824;
  more = 5;
  bytes = rw (
    le→ltb n 128 (omega arith),
    le→ltb n 2048 (omega arith),
    le→ltb n 65536 (omega arith),
    le→ltb n 2097152 (omega arith),
    le→ltb n 67108864 a,
  );
  skips = unfold skip in ground arith;
  gets = λ bs.
      get_lead (252 + n / 1073741824) 5 2 (n / 1073741824) _
        (IsLead-six (n / 1073741824) (omega arith)) (omega arith)
      ∙ get_five (n / 1073741824) n bs (omega arith)
      ∙ ap (λ m. some m) (omega arith);
  ends_not = λ p. omega arith;
}

pub encode-Shape : (n : ℕ) → n < 2147483648 → Shape n
encode-Shape n h = elim (lt_or_ge n 128) [
  | inl a ↦ ones n a
  | inr a ↦ elim (lt_or_ge n 2048) [
    | inl b ↦ twos n a b
    | inr b ↦ elim (lt_or_ge n 65536) [
      | inl c ↦ threes n b c
      | inr c ↦ elim (lt_or_ge n 2097152) [
        | inl d ↦ fours n c d
        | inr d ↦ elim (lt_or_ge n 67108864) [ inl e ↦ fives n d e | inr e ↦ sixes n e h ]
      ]
    ]
  ]
]

-- For a character below 2^31 and whatever bytes follow, `e_utf8_get_char` reads from its encoding
-- in one to six bytes the character again.
pub get_char-encode : (n : ℕ) (bs : List ℕ) → n < 2147483648 → get_char (encode n ++ bs) ≡ some n
get_char-encode n bs h =
    let s = encode-Shape n h in ap (λ t. get_char (t ++ bs)) s.bytes ∙ s.gets bs
