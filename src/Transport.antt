-- ===== src/Transport.antt =====
-- src/rdma_transport.c: posting work requests to the queue pair, and the types of
-- src/rdma_transport.h that the sending and the receiving side share.
pub mod Post
use spark_rdma_shuffle_engin.Base.{
  ℕ, zero, suc, ◌+◌, List, [], ◌∷◌, ◌==◌, if◌then◌else◌, Outcome, ok, fault, abort, ◌>>=◌, ℤ,
  is_negative, Status, done, failed,
}
use spark_rdma_shuffle_engin.Memory.{Ptr, null, Store, rdma_chunk_size, rdma_header_size}
use spark_rdma_shuffle_engin.BufferPool.{
  Grant, Machine, get_rdma_chunk_from_pool, get_rdma_chunk_list_from_pool,
}

-- `varray_t`; `len` counts the chunks that are in.
pub record VArray : Type 0 where
  pub transport : Ptr
  pub data_id : ℕ
  pub len : ℕ
  pub size : ℕ
  pub chunks : List Ptr

-- `struct rdma_work_chunk`
pub record WorkChunk : Type 0 where
  pub transport : Ptr
  pub chunk : Ptr
  pub len : ℕ

-- A work request with its one `ibv_sge`; `wr_id` is the address of the work chunk.
pub record WorkRequest : Type 0 where
  pub wr_id : WorkChunk
  pub addr : Ptr
  pub length : ℕ
  pub lkey : ℕ

-- libibverbs: the key of a memory region, and the results of the posting calls.
pub record Verbs : Type 0 where
  pub lkey : Ptr → ℕ
  pub post_send : WorkRequest → ℤ
  pub post_recv : WorkRequest → ℤ

pub send_request : Verbs → Store → WorkChunk → WorkRequest
send_request v st wc = record {
  wr_id = wc;
  addr = wc.chunk;
  length = wc.len + rdma_header_size;
  lkey = v.lkey (st wc.chunk).mr;
}

-- Reading the key goes through the chunk and its memory region.
pub rdma_transport_send : Verbs → Store → WorkChunk → Outcome WorkRequest
unfolding send_request
rdma_transport_send v st wc =
    if wc.chunk == null
    then fault
    else if (st wc.chunk).mr == null
    then fault
    else if is_negative (v.post_send (send_request v st wc))
    then abort
    else ok (send_request v st wc)

pub recv_request : Verbs → Store → (transport chunk : Ptr) → WorkRequest
recv_request v st transport chunk = record {
  wr_id = record { transport = transport; chunk = chunk; len = rdma_chunk_size };
  addr = chunk;
  length = rdma_chunk_size;
  lkey = v.lkey (st chunk).mr;
}

-- The first loop of `rdma_transport_recv_with_num`: `n` rounds along the list from `chunk` on.
pub recv_requests : Verbs → Store → (transport : Ptr) → ℕ → Ptr → Outcome (List WorkRequest × Ptr)
unfolding recv_request
recv_requests v st transport zero chunk = ok ([], chunk)
recv_requests v st transport (suc n) chunk =
    let rest = recv_requests v st transport n (st chunk).next >>= λ (wrs, p).
    ok (recv_request v st transport chunk ∷ wrs, p) in
    if chunk == null then fault else if (st chunk).mr == null then fault else rest

-- The second loop: what is posted, in order.
pub post_recvs : Verbs → List WorkRequest → Outcome (List WorkRequest)
post_recvs v [] = ok []
post_recvs v (wr ∷ wrs) =
    let rest = post_recvs v wrs >>= λ posted. ok (wr ∷ posted) in
    if is_negative (v.post_recv wr) then abort else rest

pub rdma_transport_recv_with_num :
    Verbs → Grant → (transport : Ptr) → ℕ → Machine → Outcome (List WorkRequest × Machine)
unfolding recv_requests post_recvs
rdma_transport_recv_with_num v g transport num m =
    get_rdma_chunk_list_from_pool g num m >>= λ (chunk_list, m').
    if chunk_list == null
    then abort
    else recv_requests v m'.store transport num chunk_list >>= λ (wrs, chunk).
        if chunk == null then (post_recvs v wrs >>= λ posted. ok (posted, m')) else abort

-- One chunk; the request that is posted, if the function returns 0.
pub rdma_transport_recv :
    Verbs → Grant → (transport : Ptr) → Machine → Outcome (Status × List WorkRequest × Machine)
unfolding recv_request
rdma_transport_recv v g transport m = get_rdma_chunk_from_pool g m >>= λ (chunk, m').
    if chunk == null
    then ok (failed, [], m')
    else if (m'.store chunk).mr == null
    then fault
    else if is_negative (v.post_recv (recv_request v m'.store transport chunk))
    then ok (failed, [], m')
    else ok (done, recv_request v m'.store transport chunk ∷ [], m')
