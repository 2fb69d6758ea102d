-- ===== src/Examples/Pools.antt =====
-- Examples for src/rdma_buffer_pool.c and the receive requests of src/rdma_transport.c.
use spark_rdma_shuffle_engin.Base.{
  ℕ, ◌-◌, ◌<◌, ◌≡◌, refl, [], ◌∷◌, ◌++◌, arith, length, mem-range, erase, Ends,
}
use spark_rdma_shuffle_engin.BufferPool.{
  Machine, append_size, append_rdma_buffer_pool, init_rdma_buffer_pool,
  get_rdma_chunk_list_from_pool, release_rdma_chunk_to_pool,
}
use spark_rdma_shuffle_engin.BufferPool.Append.{Fresh}
use spark_rdma_shuffle_engin.BufferPool.Invariant.{IsPool, Legal, Appended, append-Appended}
use spark_rdma_shuffle_engin.BufferPool.Get.{Gets, supply, get_list-Gets}
use spark_rdma_shuffle_engin.BufferPool.Release.{Ready, init-Ready, release-IsPool}
use spark_rdma_shuffle_engin.BufferPool.Threads.{System, Reach, returned, crashed, get_chunk_race}
use spark_rdma_shuffle_engin.Transport.{rdma_transport_recv_with_num}
use spark_rdma_shuffle_engin.Transport.Post.{Posted, recv_with_num-Posted}
use spark_rdma_shuffle_engin.Receiver.{release_all}
use spark_rdma_shuffle_engin.Receiver.Release.{moved, release_all-IsPool}
use spark_rdma_shuffle_engin.Examples.Data.{
  some_store, some_machine, some_free, some_lent, some_pool, some_grant, some_grant-willing,
  some_verbs,
}

-- A block at 100 is apart from the chunks 10, 11 and 20.
some_block : (k : ℕ) → Fresh 100 k (some_free ++ some_lent)
some_block k = record { ne_null = omega arith; apart = λ a i. ground (arith, mem-range a 100 k, i) }

some_Legal :
    (asked : ℕ) → 0 < asked → asked < 5000 → Legal some_grant asked some_machine some_free some_lent
some_Legal asked h k = record {
  node = omega arith;
  block = λ n. some_block (append_size asked);
  some_asked = h;
  room = omega arith;
}

append-Appended_example :
    Ends
      (append_rdma_buffer_pool some_grant 5 some_machine)
      (Appended some_grant (append_size 5) some_machine some_free some_lent)
append-Appended_example =
    append-Appended some_grant 5 some_machine some_free some_lent some_pool (omega arith)
      (some_Legal 5 (omega arith) (omega arith))

get_list-Gets_example :
    Ends
      (get_rdma_chunk_list_from_pool some_grant 5 some_machine)
      (Gets some_grant (5 - length some_free) 5 some_machine some_free some_lent)
get_list-Gets_example =
    get_list-Gets some_grant 5 some_machine some_free some_lent some_pool (omega arith)
      (omega arith) (λ h. some_Legal 3 (omega arith) (omega arith))

release-IsPool_example :
    IsPool (release_rdma_chunk_to_pool 20 some_machine) (20 ∷ some_free) (erase 20 some_lent)
release-IsPool_example = release-IsPool some_machine some_free some_lent 20 some_pool refl

release_all-IsPool_example :
    IsPool (release_all (20 ∷ []) some_machine) (moved (20 ∷ []) some_free) []
release_all-IsPool_example = release_all-IsPool (20 ∷ []) some_machine some_free [] some_pool

init-Ready_example : Ends (init_rdma_buffer_pool some_grant 9 some_store) (Ready some_grant)
init-Ready_example = init-Ready some_grant 9 some_store (record {
  node = omega arith;
  block = λ n. record { ne_null = omega arith; apart = λ a i. refl };
  some_asked = omega arith;
  room = omega arith;
})

recv_with_num-Posted_example :
    Ends (rdma_transport_recv_with_num some_verbs some_grant 60 5 some_machine) (λ (posted, m2).
      Posted some_verbs some_machine 60 5
        (supply some_grant (5 - length some_free) 5 some_free)
        some_lent
        posted
        m2)
recv_with_num-Posted_example =
    recv_with_num-Posted some_verbs some_grant 60 5 some_machine some_free some_lent some_pool
      (omega arith) (omega arith) (λ h. some_Legal 3 (omega arith) (omega arith)) some_grant-willing
      (λ wr. refl)

-- A pool with one free chunk.
abbrev last_machine : Machine
last_machine = record some_machine {
  pool = record some_machine.pool { free_list = 11; total_size = 2; free_size = 1 };
}

last_pool : IsPool last_machine (11 ∷ []) some_lent
last_pool = record {
  chain = (refl, omega arith, refl, refl);
  apart = λ a i. ground arith;
  lent_distinct = (refl, tt);
  lent_ne_null = refl;
  free_mr = λ a i. omega arith;
  lent_mr = λ a i. omega arith;
  free_size = refl;
  total_size = refl;
  bounded = omega arith;
}

get_chunk_race_example :
    (s : System) × Reach last_machine s × (s.first ≡ returned 11) × (s.second ≡ crashed)
get_chunk_race_example = get_chunk_race last_machine 11 some_lent last_pool
