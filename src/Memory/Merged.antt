-- ===== src/Memory/Merged.antt =====
-- No two nodes of a set side by side.
use egui.Prelude.{Bool, true, false, ◌&&◌, some, List, [], ◌∷◌, ◌++◌, ◌≡◌, arith, refl}
use egui.Memory.Links.{Ptr, has, last_of}
use egui.Memory.Links.Laws.{first_of}

abbrev pub Merged : (Ptr → Bool) → List Ptr → Type 0
Merged set [] = Unit {0}
Merged set (p ∷ []) = Unit {0}
Merged set (p ∷ q ∷ l) = ((set p && set q) ≡ false) × Merged set (q ∷ l)

module _ (set : Ptr → Bool) where
  pub Merged-tail : (p : Ptr) (l : List Ptr) → Merged set (p ∷ l) → Merged set l
  Merged-tail p [] m = tt
  Merged-tail p (q ∷ l) m = m.1

  pub Merged-first :
      (p : Ptr) (l : List Ptr)
      → Merged set (p ∷ l)
      → (q : Ptr) → first_of l ≡ some q
      → (set p && set q) ≡ false
  Merged-first p [] m q e = absurd (cc e)
  Merged-first p (r ∷ l) m q e = ground (arith, m.0)

  pub Merged-cons :
      (p : Ptr) (l : List Ptr)
      → ((q : Ptr) → first_of l ≡ some q → (set p && set q) ≡ false)
      → Merged set l
      → Merged set (p ∷ l)
  Merged-cons p [] h m = tt
  Merged-cons p (q ∷ l) h m = (h q refl, m)

  pub Merged-append :
      (l : List Ptr) (p : Ptr) (k : List Ptr)
      → Merged set (l ++ p ∷ k)
      → Merged set l
        × ((q : Ptr) → last_of l ≡ some q → (set q && set p) ≡ false)
        × Merged set (p ∷ k)
  unfolding last_of
  Merged-append [] p k m = (tt, λ q e. absurd (cc e), m)
  Merged-append (q ∷ []) p k m = (tt, λ r e. ground (arith, m.0), m.1)
  Merged-append (q ∷ r ∷ l) p k m =
      let (a, b, c) = Merged-append (r ∷ l) p k m.1 in ((m.0, a), b, c)

  pub append-Merged :
      (l : List Ptr) (p : Ptr) (k : List Ptr)
      → Merged set l
      → ((q : Ptr) → last_of l ≡ some q → (set q && set p) ≡ false)
      → Merged set (p ∷ k)
      → Merged set (l ++ p ∷ k)
  unfolding last_of
  append-Merged [] p k a b c = c
  append-Merged (q ∷ []) p k a b c = (b q refl, c)
  append-Merged (q ∷ r ∷ l) p k a b c = (a.0, append-Merged (r ∷ l) p k a.1 b c)

pub Merged-congr :
    (set set' : Ptr → Bool) (l : List Ptr)
    → ((p : Ptr) → has l p ≡ true → set' p ≡ set p)
    → Merged set l
    → Merged set' l
unfolding has
Merged-congr set set' [] same m = tt
Merged-congr set set' (p ∷ []) same m = tt
Merged-congr set set' (p ∷ q ∷ l) same m = (
  ground (arith, same p, same q, m.0),
  Merged-congr set set' (q ∷ l) (λ r h. same r (ground arith)) m.1,
)

pub Merged-sub :
    (set set' : Ptr → Bool) (l : List Ptr)
    → ((p : Ptr) → set' p ≡ true → set p ≡ true)
    → Merged set l
    → Merged set' l
Merged-sub set set' [] sub m = tt
Merged-sub set set' (p ∷ []) sub m = tt
Merged-sub set set' (p ∷ q ∷ l) sub m =
    (ground (arith, sub p, sub q, m.0), Merged-sub set set' (q ∷ l) sub m.1)
