-- ===== src/Transport/Post.antt =====
-- Receive requests of src/rdma_transport.c: what is posted, and what becomes of the pool.
use spark_rdma_shuffle_engin.Base.{
  ◌≤◌, done, suc, ◌∙◌, Ends-bind, mem-append_left, ◌+◌, ℕ, ◌-◌, ◌<◌, ◌^◌, ◌≡◌, refl, ap, subst, ◌≢◌,
  ◌⊎◌, inl, inr, true, false, List, [], ◌∷◌, arith, mem, mem-append, length, take, Ends, Outcome,
  ok, fault, abort, ne→==, ◌==◌, if◌then◌else◌, is_negative, ◌>>=◌,
}
use spark_rdma_shuffle_engin.Memory.{rdma_header_size, rdma_buffer_size, Ptr, null, Store}
use spark_rdma_shuffle_engin.BufferPool.{
  Grant, Machine, get_rdma_chunk_list_from_pool, get_rdma_chunk_from_pool,
}
use spark_rdma_shuffle_engin.BufferPool.Chain.{Chain, Chain-ne_null, Chain-head}
use spark_rdma_shuffle_engin.BufferPool.Invariant.{IsPool, Legal, Refuses}
use spark_rdma_shuffle_engin.BufferPool.Get.{Got, supply, Gets, get_list-Gets, get_chunk-Gets}
use spark_rdma_shuffle_engin.Transport.{
  Verbs, WorkChunk, WorkRequest, send_request, rdma_transport_send, recv_request, recv_requests,
  post_recvs, rdma_transport_recv_with_num, rdma_transport_recv,
}

abbrev pub requests : Verbs → Store → Ptr → List Ptr → List WorkRequest
requests v st transport [] = []
requests v st transport (c ∷ cs) = recv_request v st transport c ∷ requests v st transport cs

module _ (v : Verbs) (st : Store) (transport : Ptr) where
  recv_requests-Chain :
      (cs : List Ptr) (p : Ptr)
      → Chain st p cs
      → ((a : Ptr) → mem a cs ≡ true → (st a).mr ≢ null)
      → recv_requests v st transport (length cs) p ≡ ok (requests v st transport cs, null)
  unfolding recv_requests
  recv_requests-Chain [] p h mr = ap (λ (t : Ptr). ok ([], t)) h
  recv_requests-Chain (c ∷ cs) p h mr = rw (
    h.0,
    ne→== c null h.1,
    ne→== (st c).mr null (mr c (ground arith)),
    recv_requests-Chain cs (st c).next h.3 (λ a i. mr a (ground arith)),
  )

  post_recvs-ok :
      (wrs : List WorkRequest)
      → ((wr : WorkRequest) → is_negative (v.post_recv wr) ≡ false)
      → post_recvs v wrs ≡ ok wrs
  unfolding post_recvs
  post_recvs-ok [] h = refl
  post_recvs-ok (wr ∷ wrs) h = rw (h wr, post_recvs-ok wrs h)

-- Every chunk of the list is posted once, in order, and all of them are lent.
pub record Posted (v : Verbs) (m : Machine) (transport : Ptr) (num : ℕ) (all lent : List Ptr)
    (posted : List WorkRequest) (m' : Machine) : Type 0 where
  pub requests_lem : posted ≡ requests v m'.store transport (take num all)
  pub head : Ptr
  pub got : Got m num all lent head m'

module _ (v : Verbs) (g : Grant) (transport : Ptr) (num : ℕ) (m : Machine) (all lent : List Ptr)
    (accepts : (wr : WorkRequest) → is_negative (v.post_recv wr) ≡ false) (some_num : 0 < num) where
  post-Posted :
      (p : Ptr) (m' : Machine)
      → Got m num all lent p m'
      → Ends
          (recv_requests v m'.store transport num p >>= λ (wrs, chunk).
            if chunk == null then (post_recvs v wrs >>= λ posted. ok (posted, m')) else abort)
          (λ (posted, m2). Posted v m transport num all lent posted m2)
  post-Posted p m' got =
      let made : recv_requests v m'.store transport num p
          ≡ ok (requests v m'.store transport (take num all), null) =
        subst
          (λ n.
            recv_requests v m'.store transport n p
            ≡ ok (requests v m'.store transport (take num all), null))
          got.full
          (recv_requests-Chain v m'.store transport (take num all) p got.list
            (λ a i. got.pool.lent_mr a (ground (arith, mem-append a (take num all) lent)))) in
      rw
        (
          made,
          post_recvs-ok v m'.store transport (requests v m'.store transport (take num all)) accepts,
        )
        (record { requests_lem = refl; head = p; got = got })

  after-Posted :
      (X : Type 0) (r : Outcome (Ptr × Machine))
      → ¬ Refuses g
      → Ends r (λ (p, m'). ((p ≡ null) × (m' ≡ m) × Refuses g × X) ⊎ Got m num all lent p m')
      → Ends
          (r >>= λ (chunk_list, m').
            if chunk_list == null
            then abort
            else recv_requests v m'.store transport num chunk_list >>= λ (wrs, chunk).
                if chunk == null then (post_recvs v wrs >>= λ posted. ok (posted, m')) else abort)
          (λ (posted, m2). Posted v m transport num all lent posted m2)
  after-Posted X (ok (p, m')) willing (inl (e, same, refused, more)) = absurd (willing refused)
  after-Posted X (ok (p, m')) willing (inr got) =
      rw (ne→== p null (Chain-ne_null m'.store p (take num all) got.list (omega (arith, got.full))))
        (post-Posted p m' got)
  after-Posted X fault willing h = h
  after-Posted X abort willing h = h

-- With a well-formed pool that has room in its counters for the chunks that are missing and one
-- buffer, an allocator that does not refuse, a block apart from the pool's chunks if one is
-- allocated, and a queue pair that accepts, `rdma_transport_recv_with_num` for 1 to 2^31 requests
-- runs to its end: the requests are posted, in order, one for each of that many chunks, which
-- leave the free list, and the pool stays well formed.
pub recv_with_num-Posted :
    (v : Verbs) (g : Grant) (transport : Ptr) (num : ℕ) (m : Machine) (free lent : List Ptr)
    → IsPool m free lent
    → 0 < num
    → num ≤ 2 ^ 31
    → (length free < num → Legal g (num - length free) m free lent)
    → ¬ Refuses g
    → ((wr : WorkRequest) → is_negative (v.post_recv wr) ≡ false)
    → Ends (rdma_transport_recv_with_num v g transport num m) (λ (posted, m2).
      Posted v m transport num (supply g (num - length free) num free) lent posted m2)
unfolding rdma_transport_recv_with_num
recv_with_num-Posted v g transport num m free lent pool h small legal willing accepts =
    after-Posted v g transport num m (supply g (num - length free) num free) lent accepts h
      (length free < num) (get_rdma_chunk_list_from_pool g num m) willing
      (get_list-Gets g num m free lent pool h small legal)

-- A send of a registered chunk posts the header and `len` bytes, when the queue pair accepts it.
pub send-ok :
    (v : Verbs) (st : Store) (wc : WorkChunk)
    → wc.chunk ≢ null
    → (st wc.chunk).mr ≢ null
    → ((wr : WorkRequest) → is_negative (v.post_send wr) ≡ false)
    → rdma_transport_send v st wc ≡ ok (send_request v st wc)
unfolding rdma_transport_send
send-ok v st wc there mr accepts =
    rw (ne→== wc.chunk null there, ne→== (st wc.chunk).mr null mr, accepts (send_request v st wc))

-- What a send request says of memory.
pub send_request-addr :
    (v : Verbs) (st : Store) (wc : WorkChunk) → (send_request v st wc).addr ≡ wc.chunk
unfolding send_request
send_request-addr v st wc = refl

pub send_request-length :
    (v : Verbs) (st : Store) (wc : WorkChunk)
    → (send_request v st wc).length ≡ wc.len + rdma_header_size
unfolding send_request
send_request-length v st wc = refl

length-requests :
    (v : Verbs) (st : Store) (transport : Ptr) (cs : List Ptr)
    → length (requests v st transport cs) ≡ length cs
length-requests v st transport [] = refl
length-requests v st transport (c ∷ cs) = ap suc (length-requests v st transport cs)

-- As many requests are posted as chunks were asked for, and the pool is that of a list of chunks.
pub record Reposted (m : Machine) (num : ℕ) (all lent : List Ptr) (posted : List WorkRequest)
    (m' : Machine) : Type 0 where
  pub count : length posted ≡ num
  pub head : Ptr
  pub got : Got m num all lent head m'

pub Posted-Reposted :
    (v : Verbs) (m : Machine) (transport : Ptr) (num : ℕ) (all lent : List Ptr)
    (posted : List WorkRequest) (m' : Machine)
    → Posted v m transport num all lent posted m'
    → Reposted m num all lent posted m'
Posted-Reposted v m transport num all lent posted m' p = record {
  count = rw p.requests_lem (length-requests v m'.store transport (take num all)) ∙ p.got.full;
  head = p.head;
  got = p.got;
}

-- A call for one chunk posts one request and returns 0, where the allocator and the queue pair
-- accept.
pub recv-Reposted :
    (v : Verbs) (g : Grant) (transport : Ptr) (m : Machine) (free lent : List Ptr)
    → IsPool m free lent
    → (length free < 1 → Legal g rdma_buffer_size m free lent)
    → ¬ Refuses g
    → ((wr : WorkRequest) → is_negative (v.post_recv wr) ≡ false)
    → Ends (rdma_transport_recv v g transport m) (λ (status, posted, m').
      (status ≡ done) × Reposted m 1 (supply g rdma_buffer_size 1 free) lent posted m')
unfolding rdma_transport_recv
recv-Reposted v g transport m free lent pool legal willing accepts =
    Ends-bind (Gets g rdma_buffer_size 1 m free lent) _ (get_rdma_chunk_from_pool g m) _
      (get_chunk-Gets g m free lent pool legal)
      (λ (p, m'). elim [
        | inl (e, same, refused, short) ↦ absurd (willing refused)
        | inr got ↦
            let there : p ≢ null =
              Chain-ne_null m'.store p (take 1 (supply g rdma_buffer_size 1 free)) got.list
                (omega (arith, got.full)) in
            let held : mem p (take 1 (supply g rdma_buffer_size 1 free)) ≡ true =
              Chain-head m'.store p (take 1 (supply g rdma_buffer_size 1 free)) got.list
                (omega (arith, got.full)) in
            rw
              (
                ne→== p null there,
                ne→== (m'.store p).mr null (
                    got.pool.lent_mr p
                      (mem-append_left p (take 1 (supply g rdma_buffer_size 1 free)) lent held)),
                accepts (recv_request v m'.store transport p),
              )
              (refl, record { count = refl; head = p; got = got })
      ])

pub length-send_request :
    (v : Verbs) (st : Store) (wc : WorkChunk)
    → (send_request v st wc).length ≡ wc.len + rdma_header_size
unfolding send_request
length-send_request v st wc = refl
