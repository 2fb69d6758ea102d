-- ===== src/Client/Sizes.antt =====
-- How many bytes the requests of send_msg in src/rdma_transport_client.c carry: each fits the
-- buffer of a receive request of src/rdma_transport.c, which is a whole chunk.
use spark_rdma_shuffle_engin.Base.{
  ℕ, suc, ◌+◌, ◌*◌, ◌≤◌, ◌<◌, ◌^◌, ◌≡◌, refl, sym, ap, subst, ◌∙◌, List, [], ◌∷◌, arith, length,
  take, drop, length-take, length-drop, Ends, Ends-mono, is_negative, false,
}
use spark_rdma_shuffle_engin.Memory.{
  Ptr, Store, ChunkHeader, rdma_body_size, rdma_chunk_size, rdma_header_size,
}
use spark_rdma_shuffle_engin.Memory.Frames.{frames, cut_frames, frames-Shows}
use spark_rdma_shuffle_engin.BufferPool.{Grant, Machine}
use spark_rdma_shuffle_engin.BufferPool.Invariant.{IsPool, Refuses}
use spark_rdma_shuffle_engin.Transport.{Verbs, WorkRequest}
use spark_rdma_shuffle_engin.Transport.Post.{length-send_request}
use spark_rdma_shuffle_engin.Client.{ClientTransport, chunk_count, send_msg}
use spark_rdma_shuffle_engin.Client.Copy.{Needs, Needs-drop, chunk_count-Needs}
use spark_rdma_shuffle_engin.Client.Requests.{chunk_requests}
use spark_rdma_shuffle_engin.Client.Send.{supply_for, LegalFor, send_msg-Sent}

abbrev pub total : List WorkRequest → ℕ
total [] = 0
total (wr ∷ wrs) = wr.length + total wrs

-- Each carries some bytes behind its header, and all but the last fill their chunk.
abbrev pub EachFits : List WorkRequest → Type 0
EachFits [] = Unit
EachFits (wr ∷ wrs) =
    (rdma_header_size < wr.length)
    × (wr.length ≤ rdma_chunk_size)
    × (0 < length wrs → wr.length ≡ rdma_chunk_size)
    × EachFits wrs

pub record AreSized (len : ℕ) (wrs : List WorkRequest) : Type 0 where
  pub number : length wrs ≡ chunk_count len
  pub most : length wrs ≤ 65558
  pub each : EachFits wrs
  pub bytes : total wrs ≡ len + length wrs * rdma_header_size

module _ (v : Verbs) (st : Store) (transport data_id chunk_num len : ℕ) where
  length-chunk_requests : (cs : List Ptr) → length (chunk_requests v st transport cs) ≡ length cs
  length-chunk_requests [] = refl
  length-chunk_requests (c ∷ cs) = ap suc (length-chunk_requests cs)

  chunk_requests-EachFits :
      (i : ℕ) (cs : List Ptr) (now : List ℕ)
      → Needs (length cs) now
      → frames st cs ≡ cut_frames data_id chunk_num len i (length cs) now
      → EachFits (chunk_requests v st transport cs)
        × (total (chunk_requests v st transport cs) ≡ length now + length cs * rdma_header_size)
  chunk_requests-EachFits i [] now need shown = (tt, omega (arith, need.0))
  chunk_requests-EachFits i (c ∷ cs) now need shown =
      let s = frames-Shows st c cs _ _ shown in
      let size : (st c).header.chunk_len ≡ length (take rdma_body_size now) =
        ap (λ (h : ChunkHeader). h.chunk_len) s.header in
      let sent =
        length-send_request v st
          (record { transport = transport; chunk = c; len = (st c).header.chunk_len }) in
      let (fits, sum) =
        chunk_requests-EachFits (suc i) cs (drop rdma_body_size now)
          (Needs-drop (length cs) now need) s.rest in
      let piece = length-take rdma_body_size now in
      (
        (
          omega (arith, sent, size, piece, need.0, need.1),
          omega (arith, sent, size, piece),
          (λ more.
              omega (arith, sent, size, piece, need.0, need.1, more, length-chunk_requests cs)),
          fits,
        ),
        omega (arith, sent, size, piece, sum, length-drop rdma_body_size now),
      )

most_chunks : (len : ℕ) → len < 2 ^ 32 → chunk_count len ≤ 65558
most_chunks len h = ground arith

module _ (v : Verbs) (g : Grant) (client : ClientTransport) (m : Machine) (free lent : List Ptr)
    (accepts : (wr : WorkRequest) → is_negative (v.post_send wr) ≡ false)
    (pool : IsPool m free lent) (willing : ¬ Refuses g) where
  -- Under the conditions of `send_msg-Sent`, the requests that `send_msg` posts are as many as
  -- the message needs chunks and at most 65558; each carries some bytes behind its header and at
  -- most a whole chunk, which is what a receive request has room for; all but the last carry a
  -- whole chunk; and together they carry the message's bytes and one header for each.
  pub send_msg-AreSized :
      (msg : List ℕ)
      → 0 < length msg
      → length msg < 2 ^ 32
      → LegalFor g (length msg) m free lent
      → Ends (send_msg v g client msg (length msg) m) (λ r. AreSized (length msg) r.0)
  send_msg-AreSized msg some_bytes small legal =
      Ends-mono _ _ (send_msg v g client msg (length msg) m)
        (send_msg-Sent v g client m free lent accepts pool willing msg some_bytes small legal)
        (λ r sent.
          let n : ℕ = chunk_count (length msg) in
          let cs : List Ptr = take n (supply_for g (length msg) free) in
          let st : Store = r.2.store in
          let shown =
            subst (λ k. frames st cs ≡ cut_frames client.data_id n (length msg) 0 k msg)
              (sym sent.count) sent.shown in
          let (fits, sum) =
            chunk_requests-EachFits v st client.address client.data_id n (length msg) 0 cs msg
              (subst (λ k. Needs k msg) (sym sent.count) (chunk_count-Needs msg)) shown in
          let number = length-chunk_requests v st client.address client.data_id n (length msg) cs in
          rw sent.posted (record {
            number = number ∙ sent.count;
            most = omega (arith, number, sent.count, most_chunks (length msg) small);
            each = fits;
            bytes = omega (arith, sum, number);
          }))
