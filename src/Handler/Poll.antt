-- ===== src/Handler/Poll.antt =====
-- The loop of poll_thread of src/rdma_transport.c over one array of work completions: the first
-- chunk of a message makes it post as many receive requests as the message takes.
use spark_rdma_shuffle_engin.Base.{
  ℕ, ◌-◌, ◌≡◌, false, List, [], ◌∷◌, ◌++◌, length, ◌==◌, if◌then◌else◌, Outcome, ok, ◌>>=◌, Ends,
  is_negative,
}
use spark_rdma_shuffle_engin.Memory.{Ptr, rdma_buffer_size}
use spark_rdma_shuffle_engin.BufferPool.{Grant, Machine}
use spark_rdma_shuffle_engin.BufferPool.Invariant.{IsPool, Refuses}
use spark_rdma_shuffle_engin.BufferPool.Get.{supply}
use spark_rdma_shuffle_engin.Transport.{
  Verbs, WorkRequest, rdma_transport_recv, rdma_transport_recv_with_num,
}
use spark_rdma_shuffle_engin.Transport.Post.{Reposted}
use spark_rdma_shuffle_engin.Handler.{Event, send, recv, other}

module _ (v : Verbs) (g : Grant) where
  -- The requests for a message of `chunk_num` chunks. What `rdma_transport_recv` returns is not
  -- looked at.
  pub repost : (transport : Ptr) → (chunk_num : ℕ) → Machine → Outcome (List WorkRequest × Machine)
  repost transport chunk_num m =
      if chunk_num == 1
      then (rdma_transport_recv v g transport m >>= λ (status, posted, m'). ok (posted, m'))
      else rdma_transport_recv_with_num v g transport chunk_num m

  -- The body of the loop.
  pub poll_event : Event → Machine → Outcome (List WorkRequest × Machine)
  unfolding repost
  poll_event e m =
      let chunk = e.completion.work_chunk.chunk in
      elim e.opcode [
        | recv ↦
            if (m.store chunk).header.chunk_id == 0
            then repost e.completion.work_chunk.transport (m.store chunk).header.chunk_num m
            else ok ([], m)
        | send ↦ ok ([], m)
        | other ↦ ok ([], m)
      ]

  pub poll_events : List Event → Machine → Outcome (List WorkRequest × Machine)
  unfolding poll_event
  poll_events [] m = ok ([], m)
  poll_events (e ∷ es) m =
      poll_event e m >>= λ (posted, m1). poll_events es m1 >>= λ (more, m2). ok (posted ++ more, m2)

  -- How many chunks an allocator is asked for, if the free ones do not suffice.
  abbrev pub asked : ℕ → List Ptr → ℕ
  asked num free = if num == 1 then rdma_buffer_size else num - length free

  module _ (transport : Ptr) (m : Machine) (free lent : List Ptr) (pool : IsPool m free lent)
      (willing : ¬ Refuses g)
      (accepts : (wr : WorkRequest) → is_negative (v.post_recv wr) ≡ false) where
    -- The requests that a message of `num` chunks needs are posted.
    abbrev Reposts : ℕ → Outcome (List WorkRequest × Machine) → Type 0
    Reposts num o =
        Ends o (λ (posted, m'). Reposted m num (supply g (asked num free) num free) lent posted m')
