-- ===== src/BufferPool/Invariant.antt =====
-- The well-formedness of a pool of src/rdma_buffer_pool.c, and that appending a buffer keeps it.
use spark_rdma_shuffle_engin.Base.{
  le→ltb, ℕ, zero, suc, ◌+◌, ◌≤◌, ◌<◌, ◌^◌, ◌≡◌, refl, ◌≢◌, ◌⊎◌, inl, inr, true, false, List, ◌++◌,
  arith, mem, mem-append, range, length-range, length, length-append, Distinct, Bool-cases, Ends,
  Status, done, failed, ne→==, ==_iff, ℕ_discrete,
}
use spark_rdma_shuffle_engin.Memory.{Ptr, null, rdma_buffer_size}
use spark_rdma_shuffle_engin.BufferPool.{
  Grant, Machine, append_size, append_node, append_buffer, append_rdma_buffer_pool,
}
use spark_rdma_shuffle_engin.BufferPool.Chain.{Chain}
use spark_rdma_shuffle_engin.BufferPool.Append.{
  Fresh, append_node-outside, append_node-mr, append_node-Chain,
}

-- The chunks `free` stand in the free list and the chunks `lent` are with clients.
pub record IsPool (m : Machine) (free lent : List Ptr) : Type 0 where
  pub chain : Chain m.store m.pool.free_list free
  pub apart : (a : Ptr) → mem a free ≡ true → mem a lent ≡ false
  pub lent_distinct : Distinct lent
  pub lent_ne_null : mem null lent ≡ false
  pub free_mr : (a : Ptr) → mem a free ≡ true → (m.store a).mr ≢ null
  pub lent_mr : (a : Ptr) → mem a lent ≡ true → (m.store a).mr ≢ null
  pub free_size : m.pool.free_size ≡ length free
  pub total_size : m.pool.total_size ≡ length free + length lent
  pub bounded : m.pool.total_size < 2 ^ 32

-- What an allocator may answer to a request for `asked` chunks, and that the counters have room.
pub record Legal (g : Grant) (asked : ℕ) (m : Machine) (free lent : List Ptr) : Type 0 where
  pub node : g.node ≢ null
  pub block : g.buffer ≢ null → Fresh g.buffer (append_size asked) (free ++ lent)
  pub some_asked : 0 < asked
  pub room : m.pool.total_size + asked + rdma_buffer_size ≤ 2 ^ 32

-- `malloc` or `ibv_reg_mr` fails.
abbrev pub Refuses : Grant → Type 0
Refuses g = (g.buffer ≡ null) ⊎ (g.mr ≡ null)

-- The request is met, and by less than one buffer too much.
pub append_size_bounds :
    (asked : ℕ)
    → 0 < asked
    → asked + rdma_buffer_size ≤ 2 ^ 32
    → (asked ≤ append_size asked) × (append_size asked < asked + rdma_buffer_size)
append_size_bounds asked h k = ground arith

append_size_few : (asked : ℕ) → asked ≤ 2 ^ 31 → append_size asked ≤ 2 ^ 31
append_size_few asked few = ground arith

module _ (g : Grant) (k : ℕ) (m : Machine) (free lent : List Ptr) (v : IsPool m free lent)
    (fresh : Fresh g.buffer (suc k) (free ++ lent)) where
  block-free : (a : Ptr) → mem a (range g.buffer (suc k)) ≡ true → mem a free ≡ false
  block-free a i = ground (arith, fresh.apart a, mem-append a free lent)

  block-lent : (a : Ptr) → mem a (range g.buffer (suc k)) ≡ true → mem a lent ≡ false
  block-lent a i = ground (arith, fresh.apart a, mem-append a free lent)

  lent-kept : (a : Ptr) → mem a lent ≡ true → (append_node g (suc k) m).store a ≡ m.store a
  lent-kept a i = append_node-outside g k m a (ground (arith, block-lent a))

  -- An old chunk keeps its memory region.
  old-mr :
      (a : Ptr)
      → mem a (range g.buffer (suc k)) ≡ false
      → (m.store a).mr ≢ null
      → ((append_node g (suc k) m).store a).mr ≢ null
  old-mr a out ne = rw (append_node-outside g k m a out) ne

  grown : length (range g.buffer (suc k) ++ free) ≡ suc k + length free
  grown = omega (arith, length-append (range g.buffer (suc k)) free, length-range g.buffer (suc k))

  append_node-IsPool :
      g.mr ≢ null
      → m.pool.total_size + suc k < 2 ^ 32
      → IsPool (append_node g (suc k) m) (range g.buffer (suc k) ++ free) lent
  unfolding append_node
  append_node-IsPool mr small = record {
    chain =
        append_node-Chain g k m free (record { ne_null = fresh.ne_null; apart = block-free })
          v.chain;
    apart =
        λ a i. ground (arith, mem-append a (range g.buffer (suc k)) free, block-lent a, v.apart a);
    lent_distinct = v.lent_distinct;
    lent_ne_null = v.lent_ne_null;
    free_mr = λ a i. elim (Bool-cases (mem a (range g.buffer (suc k)))) [
      | inl new ↦ rw (append_node-mr g k m a new) mr
      | inr old ↦
          old-mr a old (v.free_mr a (ground (arith, mem-append a (range g.buffer (suc k)) free)))
    ];
    lent_mr = λ a i. old-mr a (ground (arith, block-lent a)) (v.lent_mr a i);
    free_size = omega (arith, grown, v.free_size, v.total_size, small);
    total_size = omega (arith, grown, v.total_size, small);
    bounded = omega (arith, small);
  }

-- What `append_rdma_buffer_pool` leaves: an error and the same pool, or a pool with a new buffer.
abbrev pub Appended : Grant → ℕ → Machine → List Ptr → List Ptr → Status × Machine → Type 0
Appended g size m free lent (s, m') =
    ((s ≡ failed) × (m' ≡ m) × Refuses g)
    ⊎ ((s ≡ done)
        × IsPool m' (range g.buffer size ++ free) lent
        × ((a : Ptr) → mem a lent ≡ true → m'.store a ≡ m.store a))

append_buffer-Appended :
    (g : Grant) (size : ℕ) (m : Machine) (free lent : List Ptr)
    → IsPool m free lent
    → 0 < size
    → size ≤ 2 ^ 31
    → g.node ≢ null
    → (g.buffer ≢ null → Fresh g.buffer size (free ++ lent))
    → m.pool.total_size + size < 2 ^ 32
    → Ends (append_buffer g size m) (Appended g size m free lent)
append_buffer-Appended g zero m free lent v h few node fresh small = absurd (omega arith)
append_buffer-Appended g (suc k) m free lent v h few node fresh small =
    let nonzero = ne→== (suc k) 0 (omega arith) in
    elim (ℕ_discrete g.buffer null) [
      | yes none ↦
          unfold append_buffer in
          rw (nonzero, ne→== g.node null node, (==_iff g.buffer null).1 none)
            (inl (refl, refl, inl none))
      | no block ↦ elim (ℕ_discrete g.mr null) [
        | yes none ↦
            unfold append_buffer in
            rw
              (
                nonzero,
                ne→== g.node null node,
                ne→== g.buffer null block,
                (==_iff g.mr null).1 none,
              )
              (inl (refl, refl, inr none))
        | no mr ↦
            unfold append_buffer in
            rw
              (
                nonzero,
                ne→== g.node null node,
                ne→== g.buffer null block,
                ne→== g.mr null mr,
                le→ltb (suc k) (2 ^ 31) few,
              )
              (inr (
                refl,
                append_node-IsPool g k m free lent v (fresh block) mr small,
                lent-kept g k m free lent v (fresh block),
              ))
      ]
    ]

-- For a well-formed pool, a request for 1 to 2^31 chunks with room in the counters for them and
-- one buffer, and an allocator whose node is not NULL and whose block is apart from the pool's
-- chunks, `append_rdma_buffer_pool` runs to its end: it fails only if `malloc` or `ibv_reg_mr`
-- does, and then changes nothing; else the new block's chunks are in front of the free list, no
-- lent chunk changes, and the pool stays well formed.
pub append-Appended :
    (g : Grant) (asked : ℕ) (m : Machine) (free lent : List Ptr)
    → IsPool m free lent
    → asked ≤ 2 ^ 31
    → Legal g asked m free lent
    → Ends (append_rdma_buffer_pool g asked m) (Appended g (append_size asked) m free lent)
append-Appended g asked m free lent v few l =
    let b = append_size_bounds asked l.some_asked (omega (arith, l.room)) in
    unfold append_rdma_buffer_pool in
    append_buffer-Appended g (append_size asked) m free lent v (omega arith)
      (append_size_few asked few) l.node l.block (omega (arith, b.0, b.1, l.room))
