-- ===== src/Elist/Steps.antt =====
-- What each insertion and removal writes, from the nodes that it touches.
use egui.Prelude.{ℕ, ◌+◌, ◌≡◌, ◌≢◌, Option, some, arith}
use egui.Heap.{Ptr, null, Node, node, Heap, write, load, set_next, set_prev, Points}
use egui.Heap.Relink.{joined}
use egui.Elist.{
  Elist, insert_only, insert_head, insert_tail, link_after, insert_after, link_before,
  insert_before, unlink,
}

-- The node `q` with value `w` comes to stand between `l` and `r`, and nothing else changes.
abbrev pub Spliced : Heap → Ptr → ℕ → (l r : Ptr) → Option (Elist × Heap) → Elist → Type 0
Spliced h q w l r out lt' =
    (g : Heap) × (out ≡ some (lt', g))
    × (g q ≡ some (node w l r))
    × ((p : Ptr) → p ≢ q → g p ≡ joined h l q r q p)

module _ (h : Heap) (lt : Elist) (q : Ptr) (raw : Node) (fresh : Points h q raw) where
  pub insert_only-Spliced :
      Spliced h q raw.value null null
        (insert_only lt q h)
        (record lt { head = q; tail = q; count = 1 })
  unfolding insert_only set_next set_prev write
  insert_only-Spliced = (
    write (write h q (some (record raw { next = null }))) q (some (node raw.value null null)),
    ground arith,
    ground arith,
    λ p n. ground arith,
  )

  pub insert_head-Spliced :
      (n : Node)
      → Points h lt.head n
      → q ≢ lt.head
      → Spliced h q raw.value null lt.head
          (insert_head lt q h)
          (record lt { head = q; count = lt.count + 1 })
  unfolding insert_head set_next set_prev write
  insert_head-Spliced n at apart = (
    write
        (write (write h q (some (record raw { next = lt.head }))) lt.head
          (some (record n { prev = q })))
        q (some (node raw.value null lt.head)),
    ground arith,
    ground arith,
    λ p k. ground arith,
  )

  pub insert_tail-Spliced :
      (n : Node)
      → Points h lt.tail n
      → q ≢ lt.tail
      → Spliced h q raw.value lt.tail null
          (insert_tail lt q h)
          (record lt { tail = q; count = lt.count + 1 })
  unfolding insert_tail set_next set_prev write
  insert_tail-Spliced n at apart = (
    write
        (write (write h q (some (record raw { prev = lt.tail }))) lt.tail
          (some (record n { next = q })))
        q (some (node raw.value lt.tail null)),
    ground arith,
    ground arith,
    λ p k. ground arith,
  )

  -- `node` is the last one.
  pub insert_after_last-Spliced :
      (p : Ptr) (n : Node)
      → lt.head ≢ null
      → Points h p n
      → n.next ≡ null
      → q ≢ p
      → Spliced h q raw.value p null
          (insert_after lt p q h)
          (record lt { tail = q; count = lt.count + 1 })
  unfolding insert_after link_after load set_next set_prev write
  insert_after_last-Spliced p n some_head at e apart = (
    write (write (write h q (some (record raw { prev = p }))) q (some (node raw.value p null))) p
        (some (record n { next = q })),
    ground arith,
    ground arith,
    λ a k. ground arith,
  )

  pub insert_after-Spliced :
      (p : Ptr) (n : Node) (m : Node)
      → lt.head ≢ null
      → Points h p n
      → Points h n.next m
      → q ≢ p
      → q ≢ n.next
      → p ≢ n.next
      → Spliced h q raw.value p n.next (insert_after lt p q h) (record lt { count = lt.count + 1 })
  unfolding insert_after link_after load set_next set_prev write
  insert_after-Spliced p n m some_head at behind apart apart' apart'' = (
    write
        (write
          (write (write h q (some (record raw { prev = p }))) q (some (node raw.value p n.next)))
          n.next (some (record m { prev = q })))
        p (some (record n { next = q })),
    ground arith,
    ground arith,
    λ a k. ground arith,
  )

  -- `node` is the first one.
  pub insert_before_first-Spliced :
      (p : Ptr) (n : Node)
      → lt.head ≢ null
      → Points h p n
      → n.prev ≡ null
      → q ≢ p
      → Spliced h q raw.value null p
          (insert_before lt p q h)
          (record lt { head = q; count = lt.count + 1 })
  unfolding insert_before link_before load set_next set_prev write
  insert_before_first-Spliced p n some_head at e apart = (
    write (write (write h q (some (record raw { next = p }))) q (some (node raw.value null p))) p
        (some (record n { prev = q })),
    ground arith,
    ground arith,
    λ a k. ground arith,
  )

  pub insert_before-Spliced :
      (p : Ptr) (n : Node) (m : Node)
      → lt.head ≢ null
      → Points h p n
      → Points h n.prev m
      → q ≢ p
      → q ≢ n.prev
      → p ≢ n.prev
      → Spliced h q raw.value n.prev p (insert_before lt p q h) (record lt { count = lt.count + 1 })
  unfolding insert_before link_before load set_next set_prev write
  insert_before-Spliced p n m some_head at behind apart apart' apart'' = (
    write
        (write
          (write (write h q (some (record raw { next = p }))) q (some (node raw.value n.prev p)))
          n.prev (some (record m { next = q })))
        p (some (record n { prev = q })),
    ground arith,
    ground arith,
    λ a k. ground arith,
  )

-- `l` and `r` are joined, and nothing else changes.
abbrev pub Joined : Heap → (l r : Ptr) → Option (Elist × Heap) → Elist → Type 0
Joined h l r out lt' = (g : Heap) × (out ≡ some (lt', g)) × ((a : Ptr) → g a ≡ joined h l r r l a)

module _ (h : Heap) (lt : Elist) (p : Ptr) (n : Node) (at : Points h p n) where
  pub unlink_only-Joined :
      lt.tail ≡ p
      → lt.head ≡ p
      → Joined h null null (unlink lt p h) (record lt { head = null; tail = null })
  unfolding unlink
  unlink_only-Joined t d = (h, ground arith, λ a. ground arith)

  pub unlink_last-Joined :
      (l : Node)
      → lt.tail ≡ p
      → lt.head ≢ p
      → Points h n.prev l
      → Joined h n.prev null (unlink lt p h) (record lt { tail = n.prev })
  unfolding unlink load set_next write
  unlink_last-Joined l t d before =
      (write h n.prev (some (record l { next = null })), ground arith, λ a. ground arith)

  pub unlink_first-Joined :
      (r : Node)
      → lt.tail ≢ p
      → lt.head ≡ p
      → Points h n.next r
      → Joined h null n.next (unlink lt p h) (record lt { head = n.next })
  unfolding unlink load set_prev write
  unlink_first-Joined r t d behind =
      (write h n.next (some (record r { prev = null })), ground arith, λ a. ground arith)

  pub unlink-Joined :
      (l r : Node)
      → lt.tail ≢ p
      → lt.head ≢ p
      → Points h n.prev l
      → Points h n.next r
      → n.prev ≢ n.next
      → Joined h n.prev n.next (unlink lt p h) lt
  unfolding unlink load set_next set_prev write
  unlink-Joined l r t d before behind apart = (
    write (write h n.prev (some (record l { next = n.next }))) n.next
        (some (record r { prev = n.prev })),
    ground arith,
    λ a. ground arith,
  )
