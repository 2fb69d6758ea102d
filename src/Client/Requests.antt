-- ===== src/Client/Requests.antt =====
-- rdma_send_msg and the chunk array of src/rdma_transport_client.c.
use mathlib.Core.List.{tail}
use spark_rdma_shuffle_engin.Base.{
  ℕ, suc, ◌<◌, ◌^◌, ◌≡◌, refl, sym, ap, ◌∙◌, ◌≢◌, inl, inr, true, false, List, [], ◌∷◌, arith, mem,
  mem-head, mem-tail, length, drop, length-drop, Bool-cases, ok, ne→==, is_negative, sub32,
}
use spark_rdma_shuffle_engin.Memory.{Ptr, null, Store, Chunk, rdma_body_size}
use spark_rdma_shuffle_engin.Memory.Frames.{Frame, frames, cut_frames}
use spark_rdma_shuffle_engin.BufferPool.{Machine}
use spark_rdma_shuffle_engin.BufferPool.Chain.{Chain, Leads-frame}
use spark_rdma_shuffle_engin.BufferPool.Invariant.{IsPool}
use spark_rdma_shuffle_engin.Transport.{Verbs, WorkRequest, send_request}
use spark_rdma_shuffle_engin.Transport.Post.{send-ok}
use spark_rdma_shuffle_engin.Client.{copy_length, collect, send_chunks}
use spark_rdma_shuffle_engin.Client.Copy.{Copied, copy_length-IsPiece, Needs, Needs-drop}

pub collect-Chain :
    (st : Store) (cs : List Ptr) (p : Ptr)
    → Chain st p cs
    → collect st (length cs) p ≡ ok (cs, null)
unfolding collect
collect-Chain st [] p h = ap (λ (t : Ptr). ok ([], t)) h
collect-Chain st (c ∷ cs) p h = rw (h.0, ne→== c null h.1, collect-Chain st cs (st c).next h.3)

-- The request for a chunk that is filled: its header and the bytes that the header counts.
abbrev pub chunk_requests : Verbs → Store → Ptr → List Ptr → List WorkRequest
chunk_requests v st transport [] = []
chunk_requests v st transport (c ∷ cs) =
    send_request v st (record { transport = transport; chunk = c; len = (st c).header.chunk_len })
    ∷ chunk_requests v st transport cs

abbrev first_len : List Frame → ℕ
first_len [] = 0
first_len (f ∷ fs) = f.header.chunk_len

module _ (v : Verbs) (st : Store) (transport data_id chunk_num len : ℕ)
    (accepts : (wr : WorkRequest) → is_negative (v.post_send wr) ≡ false) where
  -- The lengths that `rdma_send_msg` computes are those that the headers carry.
  pub send_chunks-requests :
      (i now_len : ℕ) (cs : List Ptr) (now : List ℕ)
      → Needs (length cs) now
      → (0 < length cs → now_len ≡ length now)
      → length now < 2 ^ 32
      → frames st cs ≡ cut_frames data_id chunk_num len i (length cs) now
      → ((a : Ptr) → mem a cs ≡ true → (a ≢ null) × ((st a).mr ≢ null))
      → send_chunks v st transport now_len cs ≡ ok (chunk_requests v st transport cs)
  unfolding send_chunks
  send_chunks-requests i now_len [] now need e small shown there = refl
  send_chunks-requests i now_len (c ∷ cs) now need e small shown there =
      let here = there c (mem-head c cs) in
      let piece = copy_length-IsPiece now in
      let same : copy_length now_len ≡ (st c).header.chunk_len =
        ap copy_length (e (omega arith)) ∙ piece.size ∙ sym (ap first_len shown) in
      let rest =
        send_chunks-requests (suc i) (sub32 now_len rdma_body_size) cs (drop rdma_body_size now)
          (Needs-drop (length cs) now need)
          (λ more. omega (arith, more, e (omega arith), need.0, length-drop rdma_body_size now))
          (omega (arith, length-drop rdma_body_size now)) (ap tail shown)
          (λ a i. there a (mem-tail a c cs i)) in
      rw (
        same,
        send-ok v st (record { transport = transport; chunk = c; len = (st c).header.chunk_len })
            here.0 here.1 accepts,
        rest,
      )

-- Copying into lent chunks leaves the pool well formed.
pub Copied-IsPool :
    (m : Machine) (free lent cs : List Ptr) (fs : List Frame) (st : Store)
    → IsPool m free lent
    → ((a : Ptr) → mem a cs ≡ true → mem a free ≡ false)
    → Copied m.store cs fs st
    → IsPool (record m { store = st }) free lent
Copied-IsPool m free lent cs fs st pool apart copied = record {
  chain = Leads-frame m.store st m.pool.free_list free null pool.chain (λ a i.
      ap (λ (c : Chunk). c.next)
        (copied.outside a
          (elim (Bool-cases (mem a cs)) [ inl used ↦ cc (apart a used) | inr out ↦ out ])));
  apart = pool.apart;
  lent_distinct = pool.lent_distinct;
  lent_ne_null = pool.lent_ne_null;
  free_mr = λ a i. rw (copied.same_mr a) (pool.free_mr a i);
  lent_mr = λ a i. rw (copied.same_mr a) (pool.lent_mr a i);
  free_size = pool.free_size;
  total_size = pool.total_size;
  bounded = pool.bounded;
}
