-- ===== src/Memory/Spans.antt =====
-- The nodes of a heap side by side: they cover it without gap or overlap.
use egui.Prelude.{
  ℕ, ◌≤◌, ◌<◌, ◌+◌, true, List, [], ◌∷◌, ◌++◌, ◌≡◌, ◌≢◌, ◌⊎◌, arith, refl, Bool-cases, inl, inr,
  ==-cases,
}
use egui.Memory.Links.{Ptr, has}
use egui.Memory.Links.Laws.{Distinct}
use egui.Memory.{HeapNode}

-- The nodes of a list cover the addresses from `a` to before `b`, one behind the other.
abbrev pub Tiles : (Ptr → HeapNode) → ℕ → List Ptr → ℕ → Type 0
Tiles nodes a [] b = a ≡ b
Tiles nodes a (p ∷ l) b =
    ((nodes p).addr ≡ a) × (0 < (nodes p).size) × Tiles nodes (a + (nodes p).size) l b

module _ (nodes : Ptr → HeapNode) where
  pub Tiles-le : (a : ℕ) (l : List Ptr) (b : ℕ) → Tiles nodes a l b → a ≤ b
  Tiles-le a [] b t = omega arith
  Tiles-le a (p ∷ l) b t = omega (arith, Tiles-le (a + (nodes p).size) l b t.2)

  -- Where a member lies.
  pub Tiles-within :
      (a : ℕ) (l : List Ptr) (b : ℕ)
      → Tiles nodes a l b
      → (p : Ptr) → has l p ≡ true
      → (a ≤ (nodes p).addr) × ((nodes p).addr + (nodes p).size ≤ b) × (0 < (nodes p).size)
  unfolding has
  Tiles-within a [] b t p h = absurd (cc h)
  Tiles-within a (q ∷ l) b t p h = elim (==-cases q p) [
    | inl (_, e) ↦ rw (← e) (omega arith, omega (arith, Tiles-le (a + (nodes q).size) l b t.2), t.1)
    | inr (e, _) ↦
        let w = Tiles-within (a + (nodes q).size) l b t.2 p (ground arith) in
        (omega arith, w.1, w.2)
  ]

  pub Tiles-Distinct : (a : ℕ) (l : List Ptr) (b : ℕ) → Tiles nodes a l b → Distinct l
  Tiles-Distinct a [] b t = tt
  Tiles-Distinct a (p ∷ l) b t = (
    elim (Bool-cases (has l p)) [
      | inl h ↦ absurd (omega (arith, Tiles-within (a + (nodes p).size) l b t.2 p h))
      | inr h ↦ h
    ],
    Tiles-Distinct (a + (nodes p).size) l b t.2,
  )

  -- Two members do not overlap.
  pub Tiles-disjoint :
      (a : ℕ) (l : List Ptr) (b : ℕ)
      → Tiles nodes a l b
      → (p q : Ptr) → has l p ≡ true
      → has l q ≡ true
      → p ≢ q
      → ((nodes p).addr + (nodes p).size ≤ (nodes q).addr)
        ⊎ ((nodes q).addr + (nodes q).size ≤ (nodes p).addr)
  unfolding has
  Tiles-disjoint a [] b t p q h k ne = absurd (cc h)
  Tiles-disjoint a (r ∷ l) b t p q h k ne =
      let rest = Tiles-within (a + (nodes r).size) l b t.2 in
      ground (arith, rest p, rest q, Tiles-disjoint (a + (nodes r).size) l b t.2 p q)

  pub Tiles-append :
      (a : ℕ) (l k : List Ptr) (b : ℕ)
      → Tiles nodes a (l ++ k) b
      → (c : ℕ) × Tiles nodes a l c × Tiles nodes c k b
  Tiles-append a [] k b t = (a, refl, t)
  Tiles-append a (p ∷ l) k b t =
      let (c, s, u) = Tiles-append (a + (nodes p).size) l k b t.2 in (c, (t.0, t.1, s), u)

  pub append-Tiles :
      (a : ℕ) (l k : List Ptr) (b c : ℕ)
      → Tiles nodes a l c
      → Tiles nodes c k b
      → Tiles nodes a (l ++ k) b
  append-Tiles a [] k b c s u = rw s u
  append-Tiles a (p ∷ l) k b c s u = (s.0, s.1, append-Tiles (a + (nodes p).size) l k b c s.2 u)

pub Tiles-congr :
    (nodes nodes' : Ptr → HeapNode) (a : ℕ) (l : List Ptr) (b : ℕ)
    → ((p : Ptr)
        → has l p ≡ true
        → ((nodes' p).addr ≡ (nodes p).addr) × ((nodes' p).size ≡ (nodes p).size))
    → Tiles nodes a l b
    → Tiles nodes' a l b
unfolding has
Tiles-congr nodes nodes' a [] b same t = t
Tiles-congr nodes nodes' a (p ∷ l) b same t =
    let (s, u) = same p (ground arith) in
    (
      omega arith,
      omega arith,
      rw u (Tiles-congr nodes nodes' (a + (nodes p).size) l b (λ q h. same q (ground arith)) t.2),
    )

pub Tiles-from :
    (nodes : Ptr → HeapNode) (a c : ℕ) (l : List Ptr) (b : ℕ)
    → a ≡ c
    → Tiles nodes a l b
    → Tiles nodes c l b
Tiles-from nodes a c l b e t = rw (← e) t
