-- ===== src/BufferPool/Release.antt =====
-- release_rdma_chunk_to_pool and init_rdma_buffer_pool of src/rdma_buffer_pool.c, and the loop of
-- test/test_rdma_buffer_pool.c that gives a whole list back.
use spark_rdma_shuffle_engin.Base.{
  ◌==◌, ◌≡◌, refl, ◌≢◌, ◌⊎◌, inl, inr, true, false, List, [], ◌∷◌, ◌++◌, arith, mem, mem-ne,
  mem-erase, mem-erase_self, length-erase, erase, range, Distinct-erase, Bool-cases, Ends, Outcome,
  ok, fault, abort, Status, done, failed, ne→==, ℕ_discrete,
}
use spark_rdma_shuffle_engin.Memory.{
  Ptr, null, Store, SameData, rdma_buffer_size, set_next, set_next-SameData, update-eq,
}
use spark_rdma_shuffle_engin.BufferPool.{
  Grant, Machine, append_size, append_rdma_buffer_pool, empty_pool, release_rdma_chunk_to_pool,
  init_rdma_buffer_pool,
}
use spark_rdma_shuffle_engin.BufferPool.Chain.{Leads-update}
use spark_rdma_shuffle_engin.BufferPool.Invariant.{
  IsPool, Legal, Refuses, Appended, append-Appended,
}

-- Giving a chunk back changes no header and no body.
pub release-SameData :
    (c : Ptr) (m : Machine) (a : Ptr)
    → SameData (m.store a) ((release_rdma_chunk_to_pool c m).store a)
unfolding release_rdma_chunk_to_pool
release-SameData c m a = elim (Bool-cases (c == null)) [
  | inl none_given ↦ rw none_given (record { header = refl; body = refl; mr = refl })
  | inr given ↦ rw given (set_next-SameData m.store c m.pool.free_list a)
]

module _ (m : Machine) (free lent : List Ptr) (c : Ptr) (v : IsPool m free lent)
    (held : mem c lent ≡ true) where
  released-ne_null : c ≢ null
  released-ne_null = mem-ne c null lent held v.lent_ne_null

  released-not-free : mem c free ≡ false
  released-not-free = elim (Bool-cases (mem c free)) [
    | inl twice ↦ cc (v.apart c twice)
    | inr out ↦ out
  ]

  lent-released : (a : Ptr) → mem a (erase c lent) ≡ true → (a ≢ c) × (mem a lent ≡ true)
  lent-released a i =
      (mem-ne a c (erase c lent) i (mem-erase_self c lent v.lent_distinct), mem-erase c a lent i)

  not-released-twice : (a : Ptr) → mem a (c ∷ free) ≡ true → mem a (erase c lent) ≡ false
  not-released-twice a i = elim (Bool-cases (mem a (erase c lent))) [
    | inl h ↦ let (ne, old) = lent-released a h in ground (arith, ne, old, v.apart a)
    | inr out ↦ out
  ]

  null-not-lent : mem null (erase c lent) ≡ false
  null-not-lent = elim (Bool-cases (mem null (erase c lent))) [
    | inl h ↦ cc (mem-erase c null lent h, v.lent_ne_null)
    | inr out ↦ out
  ]

  free-mr : (a : Ptr) → mem a (c ∷ free) ≡ true → (m.store a).mr ≢ null
  free-mr a i = elim (ℕ_discrete a c) [
    | yes e ↦ rw e (v.lent_mr c held)
    | no ne ↦ v.free_mr a (ground arith)
  ]

  released-mr :
      (a : Ptr) → (m.store a).mr ≢ null → (set_next m.store c m.pool.free_list a).mr ≢ null
  released-mr a ne = rw (set_next-SameData m.store c m.pool.free_list a).mr ne

  -- A chunk that a client of a well-formed pool holds goes back to the front of the free list, is
  -- lent no more, and the pool stays well formed.
  pub release-IsPool : IsPool (release_rdma_chunk_to_pool c m) (c ∷ free) (erase c lent)
  unfolding release_rdma_chunk_to_pool
  release-IsPool = rw (ne→== c null released-ne_null) (record {
    chain = (
      refl,
      released-ne_null,
      released-not-free,
      rw (update-eq m.store c (record (m.store c) { next = m.pool.free_list }))
          (Leads-update m.store m.pool.free_list free null c _ v.chain released-not-free),
    );
    apart = not-released-twice;
    lent_distinct = Distinct-erase c lent v.lent_distinct;
    lent_ne_null = null-not-lent;
    free_mr = λ a i. released-mr a (free-mr a i);
    lent_mr = λ a i. released-mr a (v.lent_mr a (lent-released a i).1);
    free_size = omega (arith, v.free_size, v.total_size, v.bounded, length-erase c lent held);
    total_size = omega (arith, v.total_size, length-erase c lent held);
    bounded = v.bounded;
  })

-- The pool before its first buffer.
pub empty-IsPool : (pd : Ptr) (st : Store) → IsPool (empty_pool pd st) [] []
empty-IsPool pd st = record {
  chain = refl;
  apart = λ a i. refl;
  lent_distinct = tt;
  lent_ne_null = refl;
  free_mr = λ a i. cc;
  lent_mr = λ a i. cc;
  free_size = refl;
  total_size = refl;
  bounded = omega arith;
}

-- What `init_rdma_buffer_pool` leaves: an error, or one buffer of free chunks.
abbrev pub Ready : Grant → Status × Machine → Type 0
Ready g (s, m) =
    ((s ≡ failed) × Refuses g)
    ⊎ ((s ≡ done) × IsPool m (range g.buffer (append_size rdma_buffer_size) ++ []) [])

Appended-Ready :
    (g : Grant) (m : Machine) (r : Outcome (Status × Machine))
    → Ends r (Appended g (append_size rdma_buffer_size) m [] [])
    → Ends r (Ready g)
Appended-Ready g m (ok x) (inl (e, same, refused)) = inl (e, refused)
Appended-Ready g m (ok x) (inr (e, v, same)) = inr (e, v)
Appended-Ready g m fault h = h
Appended-Ready g m abort h = h

-- With an allocator whose node is not NULL, `init_rdma_buffer_pool` runs to its end: it fails
-- only if `malloc` or `ibv_reg_mr` does, and else leaves a well-formed pool whose free chunks are
-- those of the one buffer, with none lent.
pub init-Ready :
    (g : Grant) (pd : Ptr) (st : Store)
    → Legal g rdma_buffer_size (empty_pool pd st) [] []
    → Ends (init_rdma_buffer_pool g pd st) (Ready g)
unfolding init_rdma_buffer_pool
init-Ready g pd st l =
    Appended-Ready g (empty_pool pd st)
      (append_rdma_buffer_pool g rdma_buffer_size (empty_pool pd st))
      (append-Appended g rdma_buffer_size (empty_pool pd st) [] [] (empty-IsPool pd st)
        (omega arith) l)
