-- ===== src/Memory/Chains/Cache.antt =====
-- Nodes come from the cache: each is in no heap, and the cache holds it no more.
use egui.Prelude.{
  ℕ, zero, suc, ◌+◌, ◌-◌, ◌≤◌, ◌<◌, List, [], ◌∷◌, ◌≡◌, ◌≢◌, inl, inr, arith, refl, List-cases, ap,
}
use egui.Memory.Links.{Ptr}
use egui.Memory.Chains.{Memory, Allocator, chunk, cache_num, node_bytes, cache_node_get}
use egui.Memory.Chains.Whole.{count, total}

chunk-above : (n from p : ℕ) → p < from → count p (chunk n from) ≡ 0
unfolding chunk
chunk-above zero from p h = refl
chunk-above (suc n) from p h = ground (arith, chunk-above n (from + node_bytes) p)

pub chunk-once : (n from p : ℕ) → count p (chunk n from) ≤ 1
unfolding chunk
chunk-once zero from p = omega arith
chunk-once (suc n) from p =
    ground (arith, chunk-once n (from + node_bytes) p, chunk-above n (from + node_bytes) p)

-- The next array that `__calloc` returns shares no node with those in the cache and the heaps.
abbrev pub NewNodes : Allocator → Memory → Type 0
NewNodes system w =
    (p : Ptr)
    → 0 < count p (chunk cache_num (system.calloc w.callocs))
    → count p w.cache + total p w.chains ≡ 0

-- A node that is in no list.
pub record Spare (w : Memory) (p : Ptr) : Type 0 where
  pub once : (q : Ptr) → count q w.cache + total q w.chains ≤ 1
  pub spare : count p w.cache + total p w.chains ≡ 0

-- What the next node needs.
abbrev pub IsReady : Allocator → Memory → Type 0
IsReady system w = w.cache ≡ [] → NewNodes system w

chunk-suc : (n from : ℕ) → chunk (suc n) from ≡ from ∷ chunk n (from + node_bytes)
unfolding chunk
chunk-suc n from = refl

chunk-ne-nil : (n from : ℕ) → chunk (suc n) from ≢ []
unfolding chunk
chunk-ne-nil n from e = absurd (ground arith)

module _ (system : Allocator) (w : Memory) where
  abbrev got : Ptr × Memory
  got = cache_node_get system w

  from_cache :
      (p : Ptr) (rest : List Ptr) → w.cache ≡ p ∷ rest → got ≡ (p, record w { cache = rest })
  unfolding cache_node_get
  from_cache p rest e = rw (e, cache_node_get) refl

  from_system :
      w.cache ≡ []
      → got ≡ (
        system.calloc w.callocs,
        record w {
          cache = chunk (cache_num - 1) (system.calloc w.callocs + node_bytes);
          callocs = w.callocs + 1;
        },
      )
  unfolding cache_node_get
  from_system e = rw (e, cache_node_get) refl

  pub cache_node_get-chains : got.1.chains ≡ w.chains
  cache_node_get-chains = elim (List-cases w.cache) [
    | inl e ↦ rw (from_system e) refl
    | inr (p, rest, e) ↦ rw (from_cache p rest e) refl
  ]

  pub cache_node_get-mallocs : got.1.mallocs ≡ w.mallocs
  cache_node_get-mallocs = elim (List-cases w.cache) [
    | inl e ↦ rw (from_system e) refl
    | inr (p, rest, e) ↦ rw (from_cache p rest e) refl
  ]

  module _ (once : (q : Ptr) → count q w.cache + total q w.chains ≤ 1)
      (ready : IsReady system w) where
    pub cache_node_get-Spare : Spare got.1 got.0
    cache_node_get-Spare = elim (List-cases w.cache) [
      | inl e ↦
          let from = system.calloc w.callocs in
          let array = chunk-suc (cache_num - 1) from in
          rw (from_system e) (record {
            once = λ q. ground (
              arith,
              ap (count q) array,
              chunk-once (cache_num - 1) (from + node_bytes) q,
              once q,
              ready e q,
            );
            spare = ground (
              arith,
              ap (count from) array,
              chunk-above (cache_num - 1) (from + node_bytes) from,
              once from,
              ready e from,
            );
          })
      | inr (p, rest, e) ↦ rw (from_cache p rest e) (record {
        once = λ q. ground (arith, once q, ap (count q) e);
        spare = ground (arith, once p, ap (count p) e);
      })
    ]

    -- Where the cache is empty behind it, the next array is still new, and without the node.
    pub cache_node_get-next :
        NewNodes system w
        → got.1.cache ≡ []
        → (q : Ptr) → 0 < count q (chunk cache_num (system.calloc got.1.callocs))
        → (count q got.1.cache + total q got.1.chains ≡ 0) × (q ≢ got.0)
    cache_node_get-next new = elim (List-cases w.cache) [
      | inl e ↦ rw (from_system e) (λ f. absurd (chunk-ne-nil (cache_num - 2) _ f))
      | inr (p, rest, e) ↦ rw (from_cache p rest e) (λ f q h.
          (ground (arith, new q h, ap (count q) e), ground (arith, new q h, ap (count q) e)))
    ]
