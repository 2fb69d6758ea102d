-- ===== src/Handler.antt =====
-- handle_thread and handle_send_event of src/rdma_transport.c: what is done with one array of work
-- completions.
pub mod Roundtrip
pub mod Delivery
pub mod Network
pub mod Threads
pub mod Poll
pub mod Completions
use spark_rdma_shuffle_engin.Base.{ℕ, List, [], ◌∷◌, if◌then◌else◌, ◌==◌, Outcome, ok, abort, ◌>>=◌}
use spark_rdma_shuffle_engin.Memory.{Ptr}
use spark_rdma_shuffle_engin.BufferPool.{Machine, release_rdma_chunk_to_pool}
use spark_rdma_shuffle_engin.Transport.{WorkChunk}
use spark_rdma_shuffle_engin.Glib.{GQueue}
use spark_rdma_shuffle_engin.Receiver.{Receiver, Completion, handle_recv_event}

-- `enum ibv_wc_opcode`, as far as the code tells them apart
pub data Opcode : Type 0 where
  send recv other : Opcode

-- `struct ibv_wc`, of which `wr_id` and `byte_len` are the completion, with what `calloc` returns if
-- the event opens a message. The status is 0 for IBV_WC_SUCCESS.
pub record Event : Type 0 where
  pub status : ℕ
  pub opcode : Opcode
  pub completion : Completion
  pub fresh : Ptr

pub handle_send_event : Completion → Machine → Machine
handle_send_event wc m = release_rdma_chunk_to_pool wc.work_chunk.chunk m

module _ (G : GQueue Ptr) where
  -- The body of the loop over the completions.
  pub handle_event : Event → Receiver G → Machine → Outcome (Receiver G × Machine)
  unfolding handle_send_event
  handle_event e s m =
      if e.status == 0
      then elim e.opcode [
        | send ↦ ok (s, handle_send_event e.completion m)
        | recv ↦ handle_recv_event G e.fresh m.store e.completion s >>= λ s'. ok (s', m)
        | other ↦ abort
      ]
      else abort

  -- The loop.
  pub handle_events : List Event → Receiver G → Machine → Outcome (Receiver G × Machine)
  unfolding handle_event
  handle_events [] s m = ok (s, m)
  handle_events (e ∷ es) s m = handle_event e s m >>= λ (s', m'). handle_events es s' m'
