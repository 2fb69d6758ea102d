-- ===== src/BufferPool/Threads.antt =====
-- get_rdma_chunk_from_pool of src/rdma_buffer_pool.c run by two threads at once: the function
-- reads `free_size` and takes the chunk in two critical sections.
use spark_rdma_shuffle_engin.Base.{
  ℕ, ◌≡◌, refl, ◌≢◌, ◌∙◌, List, [], ◌∷◌, arith, ne→==, ==_iff, ap, sub32, ok, fault, done, failed,
}
use spark_rdma_shuffle_engin.Memory.{Ptr, null, rdma_buffer_size, set_next}
use spark_rdma_shuffle_engin.BufferPool.{Grant, Machine, append_rdma_buffer_pool, take_chunk}
use spark_rdma_shuffle_engin.BufferPool.Invariant.{IsPool}

-- Where a thread stands, with its local variables.
pub data Pc : Type 0 where
  start : Pc
  sized : (free_size : ℕ) → Pc  -- after the first critical section
  ready : Pc  -- before the second
  returned : Ptr → Pc
  crashed : Pc

-- One step of one thread.
pub data Move (m : Machine) : Pc → Machine → Pc → Type 0 where
  read : Move m start m (sized m.pool.free_size)
  enough : {n : ℕ} → n ≢ 0 → Move m (sized n) m ready
  grow :
      {n : ℕ} {m' : Machine} (g : Grant)
      → n ≡ 0
      → append_rdma_buffer_pool g rdma_buffer_size m ≡ ok (done, m')
      → Move m (sized n) m' ready
  refused :
      {n : ℕ} {m' : Machine} (g : Grant)
      → n ≡ 0
      → append_rdma_buffer_pool g rdma_buffer_size m ≡ ok (failed, m')
      → Move m (sized n) m' (returned null)
  take : {p : Ptr} {m' : Machine} → take_chunk m ≡ ok (p, m') → Move m ready m' (returned p)
  crash : take_chunk m ≡ fault → Move m ready m crashed

pub record System : Type 0 where
  pub machine : Machine
  pub first : Pc
  pub second : Pc

pub data Step (s : System) : System → Type 0 where
  by_first :
      {m : Machine} {p : Pc}
      → Move s.machine s.first m p
      → Step s (record s { machine = m; first = p })
  by_second :
      {m : Machine} {p : Pc}
      → Move s.machine s.second m p
      → Step s (record s { machine = m; second = p })

pub data Reach (m : Machine) : System → Type 0 where
  here : Reach m (record { machine = m; first = start; second = start })
  next : {s t : System} → Reach m s → Step s t → Reach m t

module _ (m : Machine) (x : Ptr) (lent : List Ptr) (v : IsPool m (x ∷ []) lent) where
  -- The pool after its only free chunk is taken.
  abbrev emptied : Machine
  emptied = record m {
    store = set_next m.store m.pool.free_list null;
    pool = record m.pool {
      free_list = (m.store m.pool.free_list).next;
      free_size = sub32 m.pool.free_size 1;
    };
  }

  head_ne_null : m.pool.free_list ≢ null
  head_ne_null = rw v.chain.0 v.chain.1

  one_free : m.pool.free_size ≢ 0
  one_free = omega (arith, v.free_size)

  take-emptied : take_chunk m ≡ ok (m.pool.free_list, emptied)
  unfolding take_chunk
  take-emptied = rw (ne→== m.pool.free_list null head_ne_null)

  take-fault : take_chunk emptied ≡ fault
  unfolding take_chunk
  take-fault =
      let last : (m.store m.pool.free_list).next ≡ null =
        ap (λ (p : Ptr). (m.store p).next) v.chain.0 ∙ v.chain.3 in
      rw ((==_iff (m.store m.pool.free_list).next null).1 last)

  -- From a well-formed pool with one free chunk, two threads in `get_rdma_chunk_from_pool` can
  -- both pass the test of `free_size`; the first then gets the chunk, and the second reads
  -- through NULL.
  pub get_chunk_race : (s : System) × Reach m s × (s.first ≡ returned x) × (s.second ≡ crashed)
  get_chunk_race =
      let tested = next (next here (by_first read)) (by_second read) in
      let passed = next (next tested (by_first (enough one_free))) (by_second (enough one_free)) in
      (
        record { machine = emptied; first = returned m.pool.free_list; second = crashed },
        next (next passed (by_first (take take-emptied))) (by_second (crash take-fault)),
        ap returned v.chain.0,
        refl,
      )
