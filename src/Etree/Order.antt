-- ===== src/Etree/Order.antt =====
-- What insertion and lookup mean for a list of entries in key order.
use egui.Prelude.{
  ℕ, Bool, true, false, ◌≡◌, refl, ap, ◌∙◌, Option, none, some, List, [], ◌∷◌, ◌++◌, ◌⊎◌, inl, inr,
  if◌then◌else◌,
}
use egui.Etree.{Sign, less, same, greater}

-- What a compare function is documented to be: the sign of a total order on what keys stand for.
pub record IsOrder (compare : ℕ → ℕ → Sign) : Type 0 where
  pub reflexive : (a : ℕ) → compare a a ≡ same
  pub flip_less : (a b : ℕ) → compare a b ≡ less → compare b a ≡ greater
  pub flip_greater : (a b : ℕ) → compare a b ≡ greater → compare b a ≡ less
  pub trans : (a b c : ℕ) → compare a b ≡ less → compare b c ≡ less → compare a c ≡ less
  pub same_all : (a b c : ℕ) → compare a b ≡ same → compare a c ≡ compare b c

pub Sign-cases : (s : Sign) → (s ≡ same) ⊎ (s ≡ less) ⊎ (s ≡ greater)
Sign-cases same = inl refl
Sign-cases less = inr (inl refl)
Sign-cases greater = inr (inr refl)

-- Each key of the list compares so with the given one.
abbrev pub Each : (ℕ → Sign) → Sign → List (ℕ × ℕ) → Type 0
Each to s [] = Unit
Each to s ((k, _) ∷ xs) = (to k ≡ s) × Each to s xs

module _ (compare : ℕ → ℕ → Sign) where
  -- The entry is put in its place, or in the place of one with the same key.
  unfoldable pub put : (replace : Bool) → (key value : ℕ) → List (ℕ × ℕ) → List (ℕ × ℕ)
  put replace k v [] = (k, v) ∷ []
  put replace k v ((k', v') ∷ xs) = elim (compare k k') [
    | same ↦ ((if replace then k else k'), v) ∷ xs
    | less ↦ (k, v) ∷ (k', v') ∷ xs
    | greater ↦ (k', v') ∷ put replace k v xs
  ]

  unfoldable pub entry_at : ℕ → List (ℕ × ℕ) → Option (ℕ × ℕ)
  entry_at k [] = none
  entry_at k ((k', v') ∷ xs) = elim (compare k k') [
    | same ↦ some (k', v')
    | less ↦ none
    | greater ↦ entry_at k xs
  ]

  abbrev pub Sorted : List (ℕ × ℕ) → Type 0
  Sorted [] = Unit
  Sorted ((k, _) ∷ xs) = Each (compare k) less xs × Sorted xs

  -- The three cases of both.
  module _ (k j w : ℕ) (xs : List (ℕ × ℕ)) where
    pub put-at_same :
        (replace : Bool) (v : ℕ)
        → compare k j ≡ same
        → put replace k v ((j, w) ∷ xs) ≡ ((if replace then k else j), v) ∷ xs
    unfolding put
    put-at_same replace v c = rw (c, put) refl

    pub put-at_less :
        (replace : Bool) (v : ℕ)
        → compare k j ≡ less
        → put replace k v ((j, w) ∷ xs) ≡ (k, v) ∷ (j, w) ∷ xs
    unfolding put
    put-at_less replace v c = rw (c, put) refl

    pub put-at_greater :
        (replace : Bool) (v : ℕ)
        → compare k j ≡ greater
        → put replace k v ((j, w) ∷ xs) ≡ (j, w) ∷ put replace k v xs
    unfolding put
    put-at_greater replace v c = rw (c, put) refl

    pub entry_at-same : compare k j ≡ same → entry_at k ((j, w) ∷ xs) ≡ some (j, w)
    unfolding entry_at
    entry_at-same c = rw (c, entry_at) refl

    pub entry_at-none : compare k j ≡ less → entry_at k ((j, w) ∷ xs) ≡ none
    unfolding entry_at
    entry_at-none c = rw (c, entry_at) refl

    pub entry_at-later : compare k j ≡ greater → entry_at k ((j, w) ∷ xs) ≡ entry_at k xs
    unfolding entry_at
    entry_at-later c = rw (c, entry_at) refl

  pub put-less :
      (replace : Bool) (k v k' v' : ℕ) (xs ys : List (ℕ × ℕ))
      → compare k k' ≡ less
      → put replace k v (xs ++ (k', v') ∷ ys) ≡ put replace k v xs ++ (k', v') ∷ ys
  put-less replace k v k' v' [] ys e = unfold put in rw e refl
  put-less replace k v k' v' ((j, w) ∷ xs) ys e =
      let all = xs ++ (k', v') ∷ ys in
      elim (Sign-cases (compare k j)) [
        | inl c ↦ rw (put-at_same k j w all replace v c, put-at_same k j w xs replace v c)
        | inr (inl c) ↦ rw (put-at_less k j w all replace v c, put-at_less k j w xs replace v c)
        | inr (inr c) ↦
            rw (put-at_greater k j w all replace v c, put-at_greater k j w xs replace v c)
              (ap (λ t. (j, w) ∷ t) (put-less replace k v k' v' xs ys e))
      ]

  pub put-greater :
      (replace : Bool) (k v : ℕ) (xs ys : List (ℕ × ℕ))
      → Each (compare k) greater xs
      → put replace k v (xs ++ ys) ≡ xs ++ put replace k v ys
  unfolding put
  put-greater replace k v [] ys h = refl
  put-greater replace k v ((j, w) ∷ xs) ys h =
      rw (h.0) (ap (λ t. (j, w) ∷ t) (put-greater replace k v xs ys h.1))

  pub entry_at-less :
      (k k' v' : ℕ) (xs ys : List (ℕ × ℕ))
      → compare k k' ≡ less
      → entry_at k (xs ++ (k', v') ∷ ys) ≡ entry_at k xs
  entry_at-less k k' v' [] ys e = unfold entry_at in rw e refl
  entry_at-less k k' v' ((j, w) ∷ xs) ys e =
      let all = xs ++ (k', v') ∷ ys in
      elim (Sign-cases (compare k j)) [
        | inl c ↦ rw (entry_at-same k j w all c, entry_at-same k j w xs c)
        | inr (inl c) ↦ rw (entry_at-none k j w all c, entry_at-none k j w xs c)
        | inr (inr c) ↦
            rw (entry_at-later k j w all c, entry_at-later k j w xs c)
              (entry_at-less k k' v' xs ys e)
      ]

  pub entry_at-greater :
      (k : ℕ) (xs ys : List (ℕ × ℕ))
      → Each (compare k) greater xs
      → entry_at k (xs ++ ys) ≡ entry_at k ys
  unfolding entry_at
  entry_at-greater k [] ys h = refl
  entry_at-greater k ((j, w) ∷ xs) ys h = rw (h.0) (entry_at-greater k xs ys h.1)

  Each-append :
      (to : ℕ → Sign) (xs : List (ℕ × ℕ)) (k v : ℕ) (ys : List (ℕ × ℕ))
      → Each to less (xs ++ (k, v) ∷ ys)
      → Each to less xs × (to k ≡ less)
  Each-append to [] k v ys h = (tt, h.0)
  Each-append to ((j, w) ∷ xs) k v ys h =
      let rest = Each-append to xs k v ys h.1 in ((h.0, rest.0), rest.1)

  -- A sorted list cut at an entry.
  pub Sorted-append :
      (xs : List (ℕ × ℕ)) (k v : ℕ) (ys : List (ℕ × ℕ))
      → Sorted (xs ++ (k, v) ∷ ys)
      → Sorted xs × Sorted ys × Each (λ j. compare j k) less xs
  Sorted-append [] k v ys s = (tt, s.1, tt)
  Sorted-append ((j, w) ∷ xs) k v ys s =
      let (front, back, under) = Sorted-append xs k v ys s.1 in
      let cut = Each-append (compare j) xs k v ys s.0 in ((cut.0, front), back, (cut.1, under))

  module _ (o : IsOrder compare) where
    -- A key at or past the middle entry is past those before it.
    pub Each-past :
        (k k' : ℕ) (xs : List (ℕ × ℕ))
        → (compare k k' ≡ same) ⊎ (compare k k' ≡ greater)
        → Each (λ j. compare j k') less xs
        → Each (compare k) greater xs
    Each-past k k' [] c h = tt
    Each-past k k' ((j, w) ∷ xs) c h = (
      elim c [
        | inl e ↦ o.same_all k k' j e ∙ o.flip_less j k' h.0
        | inr e ↦ o.flip_less j k (o.trans j k' k h.0 (o.flip_greater k k' e))
      ],
      Each-past k k' xs c h.1,
    )

    Each-trans :
        (a b : ℕ) (xs : List (ℕ × ℕ))
        → compare a b ≡ less
        → Each (compare b) less xs
        → Each (compare a) less xs
    Each-trans a b [] e h = tt
    Each-trans a b ((j, w) ∷ xs) e h = (o.trans a b j e h.0, Each-trans a b xs e h.1)

    Each-same :
        (a b : ℕ) (xs : List (ℕ × ℕ))
        → compare a b ≡ same
        → Each (compare b) less xs
        → Each (compare a) less xs
    Each-same a b [] e h = tt
    Each-same a b ((j, w) ∷ xs) e h = (o.same_all a b j e ∙ h.0, Each-same a b xs e h.1)

    Each-put :
        (replace : Bool) (a k v : ℕ) (xs : List (ℕ × ℕ))
        → compare a k ≡ less
        → Each (compare a) less xs
        → Each (compare a) less (put replace k v xs)
    Each-put replace a k v [] e h = unfold put in (e, tt)
    Each-put replace a k v ((j, w) ∷ xs) e h = elim (Sign-cases (compare k j)) [
      | inl c ↦ rw (put-at_same k j w xs replace v c) (key_kept replace, h.1)
      | inr (inl c) ↦ rw (put-at_less k j w xs replace v c) (e, h)
      | inr (inr c) ↦
          rw (put-at_greater k j w xs replace v c) (h.0, Each-put replace a k v xs e h.1)
    ]
      where
        key_kept : (b : Bool) → compare a (if b then k else j) ≡ less
        key_kept true = e
        key_kept false = h.0

    -- Putting an entry into a sorted list leaves it sorted.
    pub put-Sorted :
        (replace : Bool) (k v : ℕ) (xs : List (ℕ × ℕ)) → Sorted xs → Sorted (put replace k v xs)
    put-Sorted replace k v [] s = unfold put in (tt, tt)
    put-Sorted replace k v ((j, w) ∷ xs) s = elim (Sign-cases (compare k j)) [
      | inl c ↦ rw (put-at_same k j w xs replace v c) (first_kept replace c, s.1)
      | inr (inl c) ↦ rw (put-at_less k j w xs replace v c) ((c, Each-trans k j xs c s.0), s)
      | inr (inr c) ↦
          rw (put-at_greater k j w xs replace v c)
            (Each-put replace j k v xs (o.flip_greater k j c) s.0, put-Sorted replace k v xs s.1)
    ]
      where
        first_kept : (b : Bool) → compare k j ≡ same → Each (compare (if b then k else j)) less xs
        first_kept true c = Each-same k j xs c s.0
        first_kept false c = s.0
