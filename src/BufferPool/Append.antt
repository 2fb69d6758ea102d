-- ===== src/BufferPool/Append.antt =====
-- append_rdma_buffer_pool of src/rdma_buffer_pool.c: what its loop writes.
use spark_rdma_shuffle_engin.Base.{
  ℕ, zero, suc, ◌+◌, ◌-◌, ◌≡◌, refl, sym, ap, subst, ◌∙◌, ◌≢◌, true, false, List, ◌∷◌, ◌++◌, arith,
  mem, mem-range, not-mem-cons, ℕ_discrete, range, range-append,
}
use spark_rdma_shuffle_engin.Memory.{Ptr, null, Store, Chunk, update, update-eq, update-ne}
use spark_rdma_shuffle_engin.BufferPool.{Grant, Machine, link_chunks, append_node}
use spark_rdma_shuffle_engin.BufferPool.Chain.{
  Leads, Chain, Leads-update, Leads-frame, Leads-append,
}

-- The block that `malloc` returned is nobody's yet.
pub record Fresh (b size : ℕ) (used : List Ptr) : Type 0 where
  pub ne_null : b ≢ null
  pub apart : (a : Ptr) → mem a (range b size) ≡ true → mem a used ≡ false

-- One round of the loop.
abbrev linked_at : Ptr → Ptr → Store → Store
linked_at p mr st = update st p (record (st p) { mr = mr; next = suc p })

link_chunks-suc :
    (n p mr : ℕ) (st : Store)
    → link_chunks (suc n) p mr st ≡ link_chunks n (suc p) mr (linked_at p mr st)
unfolding link_chunks
link_chunks-suc n p mr st = refl

link_chunks-outside :
    (n p mr : ℕ) (st : Store) (a : Ptr) → mem a (range p n) ≡ false → link_chunks n p mr st a ≡ st a
unfolding link_chunks range
link_chunks-outside zero p mr st a h = refl
link_chunks-outside (suc n) p mr st a h =
    let (ne, out) = not-mem-cons a p (range (suc p) n) h in
    link_chunks-outside n (suc p) mr (update st p _) a out ∙ update-ne st p _ a ne

link_chunks-head :
    (n p mr : ℕ) (st : Store)
    → link_chunks (suc n) p mr st p ≡ record (st p) { mr = mr; next = suc p }
unfolding link_chunks
link_chunks-head n p mr st =
    link_chunks-outside n (suc p) mr (update st p _) p (ground (arith, mem-range p (suc p) n))
    ∙ update-eq st p _

link_chunks-mr :
    (n p mr : ℕ) (st : Store) (a : Ptr)
    → mem a (range p n) ≡ true
    → (link_chunks n p mr st a).mr ≡ mr
unfolding range
link_chunks-mr zero p mr st a h = ground arith
link_chunks-mr (suc n) p mr st a h = elim (ℕ_discrete a p) [
  | yes e ↦ rw e (ap (λ (c : Chunk). c.mr) (link_chunks-head n p mr st))
  | no ne ↦
      rw (link_chunks-suc n p mr st)
        (link_chunks-mr n (suc p) mr (linked_at p mr st) a (ground arith))
]

link_chunks-Leads :
    (n p mr : ℕ) (st : Store) (q : Ptr)
    → p ≢ null
    → p + n ≡ q
    → Leads (link_chunks n p mr st) p (range p n) q
unfolding range
link_chunks-Leads zero p mr st q h e = omega arith
link_chunks-Leads (suc n) p mr st q h e = (
  refl,
  h,
  ground (arith, mem-range p (suc p) n),
  rw (link_chunks-head n p mr st) (
      subst (λ t. Leads t (suc p) (range (suc p) n) q) (sym (link_chunks-suc n p mr st))
        (link_chunks-Leads n (suc p) mr (linked_at p mr st) q (omega arith) (omega arith))),
)

-- The store after the loop and the two writes to the last chunk, which is number `k`.
abbrev block_store : Ptr → ℕ → Ptr → Ptr → Store → Store
block_store b k mr q st =
    let linked = link_chunks k b mr st in
    update linked (b + k) (record (linked (b + k)) { mr = mr; next = q })

module _ (b k mr : ℕ) (q : Ptr) (st : Store) where
  block_store-outside :
      (a : Ptr) → mem a (range b (suc k)) ≡ false → block_store b k mr q st a ≡ st a
  block_store-outside a h =
      update-ne (link_chunks k b mr st) (b + k) _ a (ground (arith, mem-range a b (suc k)))
      ∙ link_chunks-outside k b mr st a (ground (arith, mem-range a b k, mem-range a b (suc k)))

  block_store-mr : (a : Ptr) → mem a (range b (suc k)) ≡ true → (block_store b k mr q st a).mr ≡ mr
  block_store-mr a h = elim (ℕ_discrete (b + k) a) [
    | yes e ↦
        subst (λ t. (block_store b k mr q st t).mr ≡ mr) e
          (ap (λ (c : Chunk). c.mr) (update-eq (link_chunks k b mr st) (b + k) _))
    | no ne ↦
        ap (λ (c : Chunk). c.mr) (update-ne (link_chunks k b mr st) (b + k) _ a ne)
        ∙ link_chunks-mr k b mr st a (ground (arith, mem-range a b k, mem-range a b (suc k)))
  ]

  block_store-Chain :
      (free : List Ptr)
      → Fresh b (suc k) free
      → Chain st q free
      → Chain (block_store b k mr q st) b (range b (suc k) ++ free)
  block_store-Chain free f h =
      subst (Chain (block_store b k mr q st) b) (sym (range-append b k free)) (
        Leads-append (block_store b k mr q st) b (range b k) (b + k) ((b + k) ∷ free) null
          (Leads-update (link_chunks k b mr st) b (range b k) (b + k) (b + k) _
            (link_chunks-Leads k b mr st (b + k) f.ne_null refl)
            (ground (arith, mem-range (b + k) b k)))
          (
            refl,
            omega (arith, f.ne_null),
            f.apart (b + k) (ground (arith, mem-range (b + k) b (suc k))),
            rw (update-eq (link_chunks k b mr st) (b + k) _) (
                Leads-frame st (block_store b k mr q st) q free null h (λ a i.
                  ap (λ (c : Chunk). c.next) (block_store-outside a (ground (arith, f.apart a))))),
          )
          (λ a i. ground (arith, mem-range a b k, mem-range a b (suc k), f.apart a)))

append_node-store :
    (g : Grant) (k : ℕ) (m : Machine)
    → (append_node g (suc k) m).store ≡ block_store g.buffer k g.mr m.pool.free_list m.store
unfolding append_node
append_node-store g k m =
    let e : suc k - 1 ≡ k = omega arith in
    ap (λ (t : ℕ). block_store g.buffer t g.mr m.pool.free_list m.store) e

module _ (g : Grant) (k : ℕ) (m : Machine) where
  -- Nothing outside the block is written.
  pub append_node-outside :
      (a : Ptr)
      → mem a (range g.buffer (suc k)) ≡ false
      → (append_node g (suc k) m).store a ≡ m.store a
  append_node-outside a h =
      rw (append_node-store g k m)
        (block_store-outside g.buffer k g.mr m.pool.free_list m.store a h)

  pub append_node-mr :
      (a : Ptr)
      → mem a (range g.buffer (suc k)) ≡ true
      → ((append_node g (suc k) m).store a).mr ≡ g.mr
  append_node-mr a h =
      rw (append_node-store g k m) (block_store-mr g.buffer k g.mr m.pool.free_list m.store a h)

  -- The new chunks stand in front of the old free list.
  pub append_node-Chain :
      (free : List Ptr)
      → Fresh g.buffer (suc k) free
      → Chain m.store m.pool.free_list free
      → Chain (append_node g (suc k) m).store g.buffer (range g.buffer (suc k) ++ free)
  append_node-Chain free f h =
      subst (λ t. Chain t g.buffer (range g.buffer (suc k) ++ free)) (sym (append_node-store g k m))
        (block_store-Chain g.buffer k g.mr m.pool.free_list m.store free f h)
