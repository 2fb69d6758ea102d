-- ===== src/BufferPool/Get.antt =====
-- get_rdma_chunk_from_pool and get_rdma_chunk_list_from_pool of src/rdma_buffer_pool.c, whole.
use spark_rdma_shuffle_engin.Base.{
  ℕ, ◌+◌, ◌-◌, ◌≤◌, ◌<◌, ◌^◌, ◌≡◌, refl, sym, subst, ◌⊎◌, inl, inr, true, List, ◌++◌, arith, mem,
  range, length, length-append, length-range, if◌then◌else◌, Ends, Status, done, failed, ok, fault,
  abort, ◌==◌, ne→==, lt→ltb, le→ltb, ==_iff, dec_lt, sub32, Outcome, ltb, take, drop, length-take,
  ◌>>=◌,
}
use spark_rdma_shuffle_engin.Memory.{Ptr, null, rdma_buffer_size, SameData}
use spark_rdma_shuffle_engin.BufferPool.{
  Grant, Machine, append_size, append_rdma_buffer_pool, take_chunk, take_list,
  get_rdma_chunk_from_pool, get_rdma_chunk_list_from_pool,
}
use spark_rdma_shuffle_engin.BufferPool.Chain.{Chain}
use spark_rdma_shuffle_engin.BufferPool.Invariant.{
  IsPool, Legal, Refuses, Appended, append-Appended, append_size_bounds,
}
use spark_rdma_shuffle_engin.BufferPool.Take.{Takes, take_list-Takes}

-- `count` chunks of `all` are with the caller, and those of other clients hold what they held.
pub record Got (m : Machine) (count : ℕ) (all lent : List Ptr) (p : Ptr) (m' : Machine)
    : Type 0 where
  pub list : Chain m'.store p (take count all)
  pub full : length (take count all) ≡ count
  pub pool : IsPool m' (drop count all) (take count all ++ lent)
  pub lent_data : (a : Ptr) → mem a lent ≡ true → SameData (m.store a) (m'.store a)

-- The free chunks after a new buffer, if they do not suffice.
abbrev pub supply : Grant → ℕ → ℕ → List Ptr → List Ptr
supply g asked count free =
    if ltb (length free) count then range g.buffer (append_size asked) ++ free else free

-- NULL and the same pool, when chunks are missing and the allocator refuses; or the chunks.
abbrev pub Gets : Grant → ℕ → ℕ → Machine → List Ptr → List Ptr → Ptr × Machine → Type 0
Gets g asked count m free lent (p, m') =
    ((p ≡ null) × (m' ≡ m) × Refuses g × (length free < count))
    ⊎ Got m count (supply g asked count free) lent p m'

-- The branch behind `append_rdma_buffer_pool`.
abbrev retry : ℕ → Status × Machine → Outcome (Ptr × Machine)
retry count (s, m1) = elim s [ failed ↦ ok (null, m1) | done ↦ take_list count m1 ]

Takes-Got :
    (m : Machine) (count : ℕ) (free lent : List Ptr) (r : Outcome (Ptr × Machine))
    → count ≤ length free
    → Ends r (Takes m count free lent)
    → Ends r (λ (p, m'). Got m count free lent p m')
Takes-Got m count free lent (ok (p, m')) k t = record {
  list = t.list;
  full = omega (arith, length-take count free, k);
  pool = t.pool;
  lent_data = λ a i. t.same_data a;
}
Takes-Got m count free lent fault k t = t
Takes-Got m count free lent abort k t = t

-- The same against the pool before the buffer was appended.
Got-before :
    (m m1 : Machine) (count : ℕ) (all lent : List Ptr) (r : Outcome (Ptr × Machine))
    → ((a : Ptr) → mem a lent ≡ true → m1.store a ≡ m.store a)
    → Ends r (λ (p, m'). Got m1 count all lent p m')
    → Ends r (λ (p, m'). Got m count all lent p m')
Got-before m m1 count all lent (ok (p, m')) same t = record {
  list = t.list;
  full = t.full;
  pool = t.pool;
  lent_data = λ a i. subst (λ c. SameData c (m'.store a)) (same a i) (t.lent_data a i);
}
Got-before m m1 count all lent fault same t = t
Got-before m m1 count all lent abort same t = t

Ends-inr : {A : Type 0} (P Q : A → Type 0) (r : Outcome A) → Ends r Q → Ends r (λ a. P a ⊎ Q a)
Ends-inr P Q (ok a) h = inr h
Ends-inr P Q fault h = h
Ends-inr P Q abort h = h

module _ (g : Grant) (asked count : ℕ) (m : Machine) (free lent : List Ptr) where
  -- The chunks after an append that met the request.
  abbrev grown : List Ptr
  grown = range g.buffer (append_size asked) ++ free

  abbrev Refused : Ptr × Machine → Type 0
  Refused (p, m') = (p ≡ null) × (m' ≡ m) × Refuses g × (length free < count)

  retry-Gets :
      (r : Outcome (Status × Machine))
      → 0 < count
      → length free < count
      → count ≤ length grown
      → Ends r (Appended g (append_size asked) m free lent)
      → Ends (r >>= retry count) (λ x. Refused x ⊎ Got m count grown lent x.0 x.1)
  retry-Gets (ok (failed, m1)) h short long (inl (e, same, refused)) =
      inl (refl, same, refused, short)
  retry-Gets (ok (failed, m1)) h short long (inr (e, v, same)) = cc
  retry-Gets (ok (done, m1)) h short long (inl (e, same, refused)) = cc
  retry-Gets (ok (done, m1)) h short long (inr (e, v, same)) =
      Ends-inr Refused (λ x. Got m count grown lent x.0 x.1) (take_list count m1)
        (Got-before m m1 count grown lent (take_list count m1) same (
          Takes-Got m1 count grown lent (take_list count m1) long
            (take_list-Takes m1 count grown lent v h long)))
  retry-Gets fault h short long x = x
  retry-Gets abort h short long x = x

  supply-short : length free < count → supply g asked count free ≡ grown
  supply-short h = rw (lt→ltb (length free) count h)

  supply-enough : count ≤ length free → supply g asked count free ≡ free
  supply-enough h = rw (le→ltb count (length free) h)

  retried-Gets :
      0 < count
      → length free < count
      → count ≤ asked + length free
      → asked ≤ 2 ^ 31
      → IsPool m free lent
      → Legal g asked m free lent
      → Ends (append_rdma_buffer_pool g asked m >>= retry count) (Gets g asked count m free lent)
  retried-Gets h short asks few v l =
      let b = append_size_bounds asked l.some_asked (omega (arith, l.room)) in
      let long : count ≤ length grown = omega (
        arith,
        b.0,
        length-append (range g.buffer (append_size asked)) free,
        length-range g.buffer (append_size asked),
      ) in
      subst
        (λ all.
          Ends (append_rdma_buffer_pool g asked m >>= retry count)
            λ x. Refused x ⊎ Got m count all lent x.0 x.1)
        (sym (supply-short short))
        (retry-Gets (append_rdma_buffer_pool g asked m) h short long
          (append-Appended g asked m free lent v few l))

  direct-Gets :
      0 < count
      → count ≤ length free
      → IsPool m free lent
      → Ends (take_list count m) (Gets g asked count m free lent)
  direct-Gets h k v =
      subst (λ all. Ends (take_list count m) λ x. Refused x ⊎ Got m count all lent x.0 x.1)
        (sym (supply-enough k))
        (Ends-inr Refused (λ x. Got m count free lent x.0 x.1) (take_list count m)
          (Takes-Got m count free lent (take_list count m) k
            (take_list-Takes m count free lent v h k)))

-- For a well-formed pool, a count of 1 to 2^31, and, where chunks are missing, room in the
-- counters for them and one buffer and an allocator whose node is not NULL and whose block is
-- apart from the pool's chunks, `get_rdma_chunk_list_from_pool` runs to its end: it returns NULL
-- and changes nothing if chunks are missing and the allocator refuses, and else it returns the
-- first `count` free chunks as a list that ends in NULL, the new block's chunks first if one was
-- needed. The pool stays well formed, with these chunks lent.
pub get_list-Gets :
    (g : Grant) (count : ℕ) (m : Machine) (free lent : List Ptr)
    → IsPool m free lent
    → 0 < count
    → count ≤ 2 ^ 31
    → (length free < count → Legal g (count - length free) m free lent)
    → Ends
        (get_rdma_chunk_list_from_pool g count m)
        (Gets g (count - length free) count m free lent)
unfolding get_rdma_chunk_list_from_pool
get_list-Gets g count m free lent v h small l = elim (dec_lt (length free) count) [
  | yes short ↦
      let asks : sub32 count m.pool.free_size ≡ count - length free = omega (arith, v.free_size) in
      rw
        (
          ne→== count 0 (omega arith),
          lt→ltb m.pool.free_size count (omega (arith, v.free_size)),
          asks,
        )
        (retried-Gets g (count - length free) count m free lent h short (omega arith)
          (omega (arith, small)) v (l short))
  | no enough ↦
      rw (ne→== count 0 (omega arith), le→ltb count m.pool.free_size (omega (arith, v.free_size)))
        (direct-Gets g (count - length free) count m free lent h (omega arith) v)
]

-- The single chunk is got as a list of one.
get_chunk-take_list :
    (g : Grant) (m : Machine)
    → get_rdma_chunk_from_pool g m ≡ (
        if m.pool.free_size == 0
        then append_rdma_buffer_pool g rdma_buffer_size m >>= retry 1
        else take_list 1 m)
unfolding get_rdma_chunk_from_pool take_chunk take_list
get_chunk-take_list g m = refl

-- For a well-formed pool and an allocator whose block is apart from the pool's chunks,
-- `get_rdma_chunk_from_pool`, run alone, runs to its end: it returns NULL and changes nothing if
-- no chunk is free and the allocator refuses, and else it returns the first free chunk, of a new
-- buffer if none was free, and the pool stays well formed with this chunk lent.
pub get_chunk-Gets :
    (g : Grant) (m : Machine) (free lent : List Ptr)
    → IsPool m free lent
    → (length free < 1 → Legal g rdma_buffer_size m free lent)
    → Ends (get_rdma_chunk_from_pool g m) (Gets g rdma_buffer_size 1 m free lent)
get_chunk-Gets g m free lent v l = rw (get_chunk-take_list g m) (elim (dec_lt (length free) 1) [
  | yes short ↦ rw ((==_iff m.pool.free_size 0).1 (omega (arith, v.free_size))) (
      retried-Gets g rdma_buffer_size 1 m free lent (omega arith) short (omega arith) (omega arith)
        v (l short))
  | no enough ↦
      rw (ne→== m.pool.free_size 0 (omega (arith, v.free_size)))
        (direct-Gets g rdma_buffer_size 1 m free lent (omega arith) (omega arith) v)
])
