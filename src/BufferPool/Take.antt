-- ===== src/BufferPool/Take.antt =====
-- get_rdma_chunk_from_pool and get_rdma_chunk_list_from_pool of src/rdma_buffer_pool.c.
use spark_rdma_shuffle_engin.Base.{
  ℕ, zero, suc, ◌-◌, ◌≤◌, ◌<◌, ◌≡◌, refl, sym, subst, ◌≢◌, inl, inr, true, false, List, ◌++◌, arith,
  mem, mem-append, length, length-append, Distinct-append, Bool-cases, Ends, ne→==, take, drop,
  take-append-drop, length-take,
}
use spark_rdma_shuffle_engin.Memory.{Ptr, null, set_next, SameData, set_next-SameData}
use spark_rdma_shuffle_engin.BufferPool.{Machine, take_chunk, take_list, cut_list}
use spark_rdma_shuffle_engin.BufferPool.Chain.{
  Chain, Cut, walk-Cut, Leads-apart, Leads-Distinct, Leads-not-null,
}
use spark_rdma_shuffle_engin.BufferPool.Invariant.{IsPool}

-- `p` is a list of the chunks `got`, which have left the free list and are with the caller.
pub record Lends (m : Machine) (got rest lent : List Ptr) (p : Ptr) (m' : Machine) : Type 0 where
  pub list : Chain m'.store p got
  pub pool : IsPool m' rest (got ++ lent)
  pub same_data : (a : Ptr) → SameData (m.store a) (m'.store a)

module _ (m : Machine) (got rest lent : List Ptr) (v : IsPool m (got ++ rest) lent) where
  got-lent : (a : Ptr) → mem a got ≡ true → mem a lent ≡ false
  got-lent a i = v.apart a (ground (arith, mem-append a got rest))

  rest-got : (a : Ptr) → mem a rest ≡ true → mem a got ≡ false
  rest-got a i = Leads-apart m.store m.pool.free_list got rest null a v.chain i

  kept-mr : (p q a : Ptr) → (m.store a).mr ≢ null → (set_next m.store p q a).mr ≢ null
  kept-mr p q a ne = rw (set_next-SameData m.store p q a).mr ne

  cut_list-Lends :
      (n : ℕ) (c : Cut m.store m.pool.free_list got rest n)
      → length got ≡ suc n
      → Lends m got rest lent m.pool.free_list (cut_list (suc n) m c.last)
  unfolding cut_list
  cut_list-Lends n c e = record {
    list = c.front;
    pool = record {
      chain = c.back;
      apart = λ a i.
          ground (arith, mem-append a got lent, mem-append a got rest, rest-got a i, v.apart a);
      lent_distinct =
          Distinct-append got lent
            (Leads-Distinct (set_next m.store c.last null) m.pool.free_list got null c.front)
            v.lent_distinct got-lent;
      lent_ne_null = ground (
        arith,
        mem-append null got lent,
        v.lent_ne_null,
        Leads-not-null (set_next m.store c.last null) m.pool.free_list got null c.front,
      );
      free_mr = λ a i. kept-mr c.last null a (v.free_mr a (ground (arith, mem-append a got rest)));
      lent_mr = λ a i. kept-mr c.last null a (elim (Bool-cases (mem a got)) [
        | inl new ↦ v.free_mr a (ground (arith, mem-append a got rest))
        | inr old ↦ v.lent_mr a (ground (arith, mem-append a got lent))
      ]);
      free_size = omega (arith, length-append got rest, v.free_size, v.total_size, v.bounded);
      total_size = omega (arith, length-append got rest, length-append got lent, v.total_size);
      bounded = v.bounded;
    };
    same_data = set_next-SameData m.store c.last null;
  }

  -- With enough free chunks the walk ends at the last one, and the pool stays well formed.
  take_list-Lends :
      (n : ℕ)
      → length got ≡ suc n
      → Ends (take_list (suc n) m) (λ (p, m'). Lends m got rest lent p m')
  unfolding take_list
  take_list-Lends n e =
      let c = walk-Cut n m.store m.pool.free_list got rest v.chain e in
      let rounds : suc n - 1 ≡ n = omega arith in
      rw (rounds, c.found, ne→== c.last null c.ne_null, take_list) (cut_list-Lends n c e)

-- Taking one chunk is taking a list of one.
pub take_chunk-take_list : (m : Machine) → take_chunk m ≡ take_list 1 m
unfolding take_chunk take_list
take_chunk-take_list m = refl

-- The first `count` free chunks go to the caller.
abbrev pub Takes : Machine → ℕ → List Ptr → List Ptr → Ptr × Machine → Type 0
Takes m count free lent (p, m') = Lends m (take count free) (drop count free) lent p m'

pub take_list-Takes :
    (m : Machine) (count : ℕ) (free lent : List Ptr)
    → IsPool m free lent
    → 0 < count
    → count ≤ length free
    → Ends (take_list count m) (Takes m count free lent)
take_list-Takes m zero free lent v h k = absurd (omega arith)
take_list-Takes m (suc n) free lent v h k =
    take_list-Lends m (take (suc n) free) (drop (suc n) free) lent
      (subst (λ t. IsPool m t lent) (sym (take-append-drop (suc n) free)) v) n
      (omega (arith, length-take (suc n) free))
