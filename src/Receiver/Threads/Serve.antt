-- ===== src/Receiver/Threads/Serve.antt =====
-- No complete message of src/rdma_transport.c waits for ever: where the handler has woken the
-- worker, one is on its way, and delivers.
use spark_rdma_shuffle_engin.Base.{◌≡◌, List, [], ◌∷◌, ◌++◌, ok}
use spark_rdma_shuffle_engin.Memory.{Ptr}
use spark_rdma_shuffle_engin.Transport.{VArray}
use spark_rdma_shuffle_engin.Glib.{GQueue}
use spark_rdma_shuffle_engin.BufferPool.{Machine}
use spark_rdma_shuffle_engin.Receiver.{Message, deliver, Receiver}
use spark_rdma_shuffle_engin.Receiver.Threads.{looking, Crew, CrewReach}

module _ (G : GQueue Ptr) where
  open G use {to_list, peek_head, pop_head, peek_head-first, to_list-pop_head}

  -- The workers alone get from `s` to `s'`: they deliver `xs`, leave `qs` in the queue, and the
  -- last one is about to look at it.
  pub record Serves (s : Crew G) (xs qs : List Ptr) (s' : Crew G) : Type 0 where
    pub reach : CrewReach G s s'
    pub delivered : s'.delivered ≡ s.delivered ++ xs
    pub queue : to_list s'.receiver.work_queue ≡ qs
    pub workers : s'.workers ≡ looking ∷ []
    pub arrays : s'.receiver.arrays ≡ s.receiver.arrays
    pub filing : s'.filing ≡ s.filing
    pub opened : s'.opened ≡ s.opened

  -- The delivery of an array ends well, for some contents of its chunks and some pool.
  pub record CanDeliver (a : VArray) : Type 0 where
    pub before_it : Machine
    pub after_it : Machine
    pub message : Message
    pub delivers : deliver a before_it ≡ ok (message, after_it)

  abbrev pub CanDeliverAll : (Ptr → VArray) → List Ptr → Type 0
  CanDeliverAll arrays [] = Unit
  CanDeliverAll arrays (q ∷ qs) = CanDeliver (arrays q) × CanDeliverAll arrays qs
