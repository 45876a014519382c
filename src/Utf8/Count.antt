-- ===== src/Utf8/Count.antt =====
-- `e_utf8_strlen`, on encoded text that a zero ends.
use egui.Prelude.{
  ℕ, zero, suc, ◌+◌, ◌-◌, ◌/◌, ◌≤◌, ◌<◌, ◌≡◌, refl, sym, ap, ◌∙◌, some, List, [], ◌∷◌, ◌++◌, arith,
  leb, ◌==◌, if◌then◌else◌, length, drop, length-append, lt_or_ge, lt→ltb, le→ltb, inl, inr, false,
}
use mathlib.Core.Path.{subst}
use egui.Prelude.Int.{ℤ, pos, negsuc}
use egui.Prelude.Slices.{drop-append_ge}
use egui.Utf8.{skip, next_char, count_all, count_to, strlen}
use egui.Utf8.Encode.{encode, tail_bytes, tail_byte}
use egui.Utf8.Decode.{encode-Shape}

-- Characters without the zero that would end the text
abbrev pub AreChars : List ℕ → Type 0
AreChars [] = Unit
AreChars (n ∷ ns) = (0 < n) × (n < 2147483648) × AreChars ns

-- The text, and memory behind its end
unfoldable pub text : List ℕ → List ℕ → List ℕ
text [] behind = 0 ∷ behind
text (n ∷ ns) behind = encode n ++ text ns behind

-- How many characters end within the first `max` bytes
unfoldable pub fitting : ℕ → List ℕ → ℕ
fitting max [] = 0
fitting max (n ∷ ns) =
    let rest = fitting (max - length (encode n)) ns in
    if leb (length (encode n)) max then suc rest else 0

-- What `e_utf8_strlen` counts; a negative `max` is none.
unfoldable pub visible : ℤ → List ℕ → ℕ
unfolding fitting
visible (negsuc _) ns = length ns
visible (pos max) ns = fitting max ns

length-tail_bytes : (k n : ℕ) → length (tail_bytes k n) ≡ k
unfolding tail_bytes
length-tail_bytes zero n = refl
length-tail_bytes (suc k) n =
    omega (
      arith,
      length-append (tail_bytes k (n / 64)) (tail_byte n ∷ []),
      length-tail_bytes k (n / 64),
    )

-- One character, and the text behind it.
record Front (n : ℕ) (bs : List ℕ) : Type 0 where
  c : ℕ
  behind : List ℕ
  bytes : encode n ++ bs ≡ c ∷ behind
  some_char : (c == 0) ≡ false
  step : skip c ≡ length (encode n)
  wide : 0 < length (encode n)
  next : next_char c behind ≡ bs

encode-Front : (n : ℕ) (bs : List ℕ) → 0 < n → n < 2147483648 → Front n bs
encode-Front n bs p h =
    let s = encode-Shape n h in
    let long : length (encode n) ≡ suc s.more =
      ap length s.bytes ∙ ap suc (length-tail_bytes s.more n) in
    record {
      c = s.lead;
      behind = tail_bytes s.more n ++ bs;
      bytes = ap (λ t. t ++ bs) s.bytes;
      some_char = ground (arith, s.ends_not p);
      step = s.skips ∙ sym long;
      wide = omega (arith, long);
      next =
          ap (λ k. drop k (s.lead ∷ tail_bytes s.more n ++ bs)) s.skips
          ∙ drop-append_ge s.more 0 (tail_bytes s.more n) bs
              (omega (arith, length-tail_bytes s.more n));
    }

-- The two loops at one character of the text
module _ {n : ℕ} {bs : List ℕ} (f : Front n bs) where
  count_all-char : (k len : ℕ) → count_all (suc k) (encode n ++ bs) len ≡ count_all k bs (len + 1)
  unfolding count_all
  count_all-char k len = rw (f.bytes, f.some_char) (ap (λ t. count_all k t (len + 1)) f.next)

  count_to-char :
      (k max at len : ℕ)
      → at < max
      → count_to (suc k) max at (encode n ++ bs) len
        ≡ count_to k max (at + length (encode n)) bs (len + 1)
  unfolding count_to
  count_to-char k max at len h =
      rw (f.bytes, f.some_char, lt→ltb at max h)
        (ap (λ t. count_to k max (at + skip f.c) t (len + 1)) f.next
          ∙ ap (λ i. count_to k max (at + i) bs (len + 1)) f.step)

count_to-full :
    (k max at : ℕ) (bs : List ℕ) (len : ℕ)
    → max ≤ at
    → count_to (suc k) max at bs len ≡ some (if leb at max then len + 1 else len)
unfolding count_to
count_to-full k max at [] len h = rw (le→ltb at max h)
count_to-full k max at (c ∷ bs) len h = rw (le→ltb at max h)

count_to-end :
    (k max at : ℕ) (bs : List ℕ) (len : ℕ)
    → count_to (suc k) max at (0 ∷ bs) len ≡ some (if leb at max then len + 1 else len)
unfolding count_to
count_to-end k max at bs len = elim (lt_or_ge at max) [
  | inl h ↦ rw (lt→ltb at max h)
  | inr h ↦ rw (le→ltb at max h)
]

count_all-text :
    (k : ℕ) (ns behind : List ℕ) (len : ℕ)
    → AreChars ns
    → length ns < k
    → count_all k (text ns behind) len ≡ some (len + length ns)
unfolding text
count_all-text zero ns behind len a h = absurd (omega arith)
count_all-text (suc k) [] behind len a h = unfold count_all in ap (λ n. some n) (omega arith)
count_all-text (suc k) (n ∷ ns) behind len (p, q, a) h =
    count_all-char (encode-Front n (text ns behind) p q) k len
    ∙ count_all-text k ns behind (len + 1) a (omega arith)
    ∙ ap (λ n. some n) (omega arith)

fitting-zero : (ns : List ℕ) → AreChars ns → fitting 0 ns ≡ 0
unfolding fitting
fitting-zero [] a = refl
fitting-zero (n ∷ ns) (p, q, a) = let f = encode-Front n [] p q in ground (arith, f.wide)

fitting-step :
    (max at n : ℕ) (ns : List ℕ) (len : ℕ)
    → at < max
    → let l = length (encode n) in
      (if leb (at + l) max then len + 1 + 1 + fitting (max - (at + l)) ns else len + 1)
      ≡ (if leb at max then len + 1 + fitting (max - at) (n ∷ ns) else len)
unfolding fitting
fitting-step max at n ns len h =
    let e : max - (at + length (encode n)) ≡ max - at - length (encode n) = omega arith in
    rw e (ground (arith, h))

fitting-full :
    (max at : ℕ) (ns : List ℕ) (len : ℕ)
    → AreChars ns
    → max ≤ at
    → (if leb at max then len + 1 else len)
      ≡ (if leb at max then len + 1 + fitting (max - at) ns else len)
fitting-full max at ns len a h =
    let e : max - at ≡ 0 = omega arith in
    rw (e, fitting-zero ns a) (ap (λ m. if leb at max then m else len) (omega arith))

count_to-text :
    (k max at : ℕ) (ns behind : List ℕ) (len : ℕ)
    → AreChars ns
    → length ns < k
    → count_to k max at (text ns behind) len
      ≡ some (if leb at max then len + 1 + fitting (max - at) ns else len)
unfolding text
count_to-text zero max at ns behind len a h = absurd (omega arith)
count_to-text (suc k) max at [] behind len a h =
    unfold fitting in
    count_to-end k max at behind len ∙ ap (λ m. some (if leb at max then m else len)) (omega arith)
count_to-text (suc k) max at (n ∷ ns) behind len (p, q, a) h =
    let f = encode-Front n (text ns behind) p q in
    elim (lt_or_ge at max) [
      | inl b ↦
          count_to-char f k max at len b
          ∙ count_to-text k max (at + length (encode n)) ns behind (len + 1) a (omega arith)
          ∙ ap (λ m. some m) (fitting-step max at n ns len b)
      | inr b ↦
          count_to-full k max at _ len b
          ∙ ap (λ m. some m) (fitting-full max at (n ∷ ns) len (p, q, a) b)
    ]

length-text : (ns behind : List ℕ) → AreChars ns → length ns < length (text ns behind)
unfolding text
length-text [] behind a = omega arith
length-text (n ∷ ns) behind (p, q, a) =
    let f = encode-Front n (text ns behind) p q in
    omega (arith, f.wide, length-append (encode n) (text ns behind), length-text ns behind a)

fitting-first :
    (max n : ℕ) (ns : List ℕ)
    → (if leb (length (encode n)) max then 0 + 1 + fitting (max - length (encode n)) ns else 0)
      ≡ fitting max (n ∷ ns)
unfolding fitting
fitting-first max n ns = ground arith

strlen-first :
    {n : ℕ} {bs : List ℕ} (max : ℕ) (f : Front n bs)
    → 0 < max
    → strlen (some (encode n ++ bs)) (pos max)
      ≡ count_to (length f.behind + 1) max (length (encode n)) bs 0
unfolding strlen
strlen-first {n} {bs} max f h =
    let some_max : (max == 0) ≡ false = ground (arith, h) in
    rw (f.bytes, some_max, f.some_char)
      (ap (λ t. count_to (length f.behind + 1) max (skip f.c) t 0) f.next
        ∙ ap (λ i. count_to (length f.behind + 1) max i bs 0) f.step)

strlen-zero :
    {n : ℕ} {bs : List ℕ} (f : Front n bs) → strlen (some (encode n ++ bs)) (pos 0) ≡ some 0
unfolding strlen
strlen-zero f = rw f.bytes

strlen-end : (max : ℕ) (bs : List ℕ) → strlen (some (0 ∷ bs)) (pos max) ≡ some 0
unfolding strlen
strlen-end max bs = ground arith

-- On text of characters from 1 to below 2^31 that a zero ends, `e_utf8_strlen` ends without a read
-- behind the text: it gives the number of the characters, or, for a `max` that is not negative, of
-- those that end within the first `max` bytes.
pub strlen-visible :
    (max : ℤ) (ns behind : List ℕ)
    → AreChars ns
    → strlen (some (text ns behind)) max ≡ some (visible max ns)
unfolding visible text
strlen-visible (negsuc _) ns behind a =
    unfold strlen in
    count_all-text (length (text ns behind) + 1) ns behind 0 a
      (omega (arith, length-text ns behind a))
    ∙ ap (λ m. some m) (omega arith)
strlen-visible (pos max) [] behind a = unfold fitting in strlen-end max behind
strlen-visible (pos max) (n ∷ ns) behind (p, q, a) =
    let f = encode-Front n (text ns behind) p q in
    let long : length ns < length f.behind + 1 = omega (
      arith,
      ap length f.bytes,
      f.wide,
      length-append (encode n) (text ns behind),
      length-text ns behind a,
    ) in
    elim (lt_or_ge 0 max) [
      | inl h ↦
          strlen-first max f h
          ∙ count_to-text (length f.behind + 1) max (length (encode n)) ns behind 0 a long
          ∙ ap (λ m. some m) (fitting-first max n ns)
      | inr h ↦
          subst (λ m. strlen (some (text (n ∷ ns) behind)) (pos m) ≡ some (fitting m (n ∷ ns)))
            {x = 0} {y = max} (omega arith)
            (strlen-zero f ∙ ap (λ m. some m) (sym (fitting-zero (n ∷ ns) (p, q, a))))
    ]
