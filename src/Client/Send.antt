-- ===== src/Client/Send.antt =====
-- send_msg and send_msg_with_header of src/rdma_transport_client.c, whole.
use spark_rdma_shuffle_engin.Base.{
  ◌≤◌, ℕ, ◌-◌, ◌<◌, ◌^◌, ◌≡◌, refl, sym, ap, subst, ◌∙◌, inl, inr, true, false, List, ◌++◌, arith,
  mem, mem-append_left, mem-ne, length, length-append, take, drop, Distinct-apart, Distinct-front,
  Bool-cases, Ends, Ends-bind, ok, ne→==, is_negative, add32, ◌>>=◌,
}
use spark_rdma_shuffle_engin.Memory.{Ptr, null, Store, SameData}
use spark_rdma_shuffle_engin.Memory.Frames.{frames, cut_frames}
use spark_rdma_shuffle_engin.BufferPool.{Grant, Machine, get_rdma_chunk_list_from_pool}
use spark_rdma_shuffle_engin.BufferPool.Chain.{Chain-ne_null}
use spark_rdma_shuffle_engin.BufferPool.Invariant.{IsPool, Legal, Refuses}
use spark_rdma_shuffle_engin.BufferPool.Get.{Got, Gets, supply, get_list-Gets}
use spark_rdma_shuffle_engin.Transport.{VArray, Verbs, WorkRequest}
use spark_rdma_shuffle_engin.Client.{
  collect, ClientTransport, next_id, chunk_array, chunk_count, rdma_send_msg, copy_msg_to_rdma,
  copy_header_and_body_to_rdma, send_msg, send_msg_with_header, SendResult,
}
use spark_rdma_shuffle_engin.Client.Copy.{Copied, Needs, chunk_count-Needs, copy_msg-cut_frames}
use spark_rdma_shuffle_engin.Client.CopyBoth.{copy_both-cut_frames}
use spark_rdma_shuffle_engin.Client.Requests.{
  collect-Chain, chunk_requests, send_chunks-requests, Copied-IsPool,
}

abbrev array_of : ClientTransport → ℕ → List Ptr → VArray
array_of client n cs = record {
  transport = client.address;
  data_id = client.data_id;
  len = 0;
  size = n;
  chunks = cs;
}

-- The array holds the chunks that the pool has lent for it.
pub record Prepared (client : ClientTransport) (m : Machine) (n : ℕ) (all lent : List Ptr)
    (arr : VArray) (m' : Machine) : Type 0 where
  pub array : arr ≡ array_of client n (take n all)
  pub head : Ptr
  pub got : Got m n all lent head m'

-- The free chunks from which a message of `len` bytes is served.
abbrev pub supply_for : Grant → (len : ℕ) → List Ptr → List Ptr
supply_for g len free = supply g (chunk_count len - length free) (chunk_count len) free

-- What the allocator may be asked for.
abbrev pub LegalFor : Grant → (len : ℕ) → Machine → List Ptr → List Ptr → Type 0
LegalFor g len m free lent =
    length free < chunk_count len → Legal g (chunk_count len - length free) m free lent

pub chunk_count_bounds :
    (len : ℕ) → 0 < len → len < 2 ^ 32 → (0 < chunk_count len) × (chunk_count len ≤ 2 ^ 31)
chunk_count_bounds len h k = ground arith

module _ (g : Grant) (client : ClientTransport) (len : ℕ) (m : Machine) (free lent : List Ptr) where
  pub chunk_array-Prepared :
      IsPool m free lent
      → 0 < chunk_count len
      → chunk_count len ≤ 2 ^ 31
      → LegalFor g len m free lent
      → ¬ Refuses g
      → Ends
          (chunk_array g client len m)
          (λ (arr, m'). Prepared client m (chunk_count len) (supply_for g len free) lent arr m')
  unfolding chunk_array
  chunk_array-Prepared pool h small legal willing =
      Ends-bind (Gets g (chunk_count len - length free) (chunk_count len) m free lent) _
        (get_rdma_chunk_list_from_pool g (chunk_count len) m) _
        (get_list-Gets g (chunk_count len) m free lent pool h small legal)
        (λ (p, m'). elim [
          | inl (e, same, refused, short) ↦ absurd (willing refused)
          | inr got ↦
              let collected : collect m'.store (chunk_count len) p
                  ≡ ok (take (chunk_count len) (supply_for g len free), null) =
                subst
                  (λ n.
                    collect m'.store n p
                    ≡ ok (take (chunk_count len) (supply_for g len free), null))
                  got.full
                  (collect-Chain m'.store (take (chunk_count len) (supply_for g len free)) p
                    got.list) in
              rw
                (
                  ne→== p null (
                      Chain-ne_null m'.store p (take (chunk_count len) (supply_for g len free))
                        got.list (omega (arith, got.full))),
                  collected,
                )
                (record { array = refl; head = p; got = got })
        ])

-- What a call of `send_msg` leaves: the lent chunks show the message cut in pieces, each is posted
-- with its header and the bytes that its header counts, and nothing of other clients is touched.
pub record Sent (v : Verbs) (client : ClientTransport) (m : Machine) (msg : List ℕ)
    (all lent : List Ptr) (result : SendResult) : Type 0 where
  pub count : length (take (chunk_count (length msg)) all) ≡ chunk_count (length msg)
  pub shown :
      let n = chunk_count (length msg) in
      frames result.2.store (take n all) ≡ cut_frames client.data_id n (length msg) 0 n msg
  pub posted :
      result.0
      ≡ chunk_requests v result.2.store client.address (take (chunk_count (length msg)) all)
  pub next : result.1 ≡ next_id client
  pub pool : let n = chunk_count (length msg) in IsPool result.2 (drop n all) (take n all ++ lent)
  pub lent_data : (a : Ptr) → mem a lent ≡ true → SameData (m.store a) (result.2.store a)

module _ (v : Verbs) (client : ClientTransport) (m : Machine) (msg : List ℕ) (all lent : List Ptr)
    (accepts : (wr : WorkRequest) → is_negative (v.post_send wr) ≡ false)
    (small : length msg < 2 ^ 32) where
  abbrev size : ℕ
  size = chunk_count (length msg)

  abbrev cs : List Ptr
  cs = take size all

  filled-Sent :
      (p : Ptr) (m' : Machine) (st : Store)
      → Got m size all lent p m'
      → Copied m'.store cs (cut_frames client.data_id size (length msg) 0 size msg) st
      → Ends
          (rdma_send_msg v (array_of client size cs) (length msg) st >>= λ wrs.
            ok (wrs, next_id client, record m' { store = st }))
          (Sent v client m msg all lent)
  unfolding rdma_send_msg
  filled-Sent p m' st got copied =
      let left : (a : Ptr) → mem a cs ≡ true → mem a (cs ++ lent) ≡ true =
        λ a i. mem-append_left a cs lent i in
      let apart : (a : Ptr) → mem a cs ≡ true → mem a (drop size all) ≡ false = λ a i.
        elim (Bool-cases (mem a (drop size all))) [
          | inl unused ↦ cc (left a i, got.pool.apart a unused)
          | inr out ↦ out
        ] in
      let pool = Copied-IsPool m' (drop size all) (cs ++ lent) cs _ st got.pool apart copied in
      rw
        (send_chunks-requests v st client.address client.data_id size (length msg) accepts 0
          (length msg) cs msg (subst (λ n. Needs n msg) (sym got.full) (chunk_count-Needs msg))
          (λ h. refl) small
          (copied.shown
            ∙ ap (λ n. cut_frames client.data_id size (length msg) 0 n msg) (sym got.full))
          (λ a i. (
            mem-ne a null (cs ++ lent) (left a i) got.pool.lent_ne_null,
            rw (copied.same_mr a) (got.pool.lent_mr a (left a i)),
          )))
        (record {
          count = got.full;
          shown = copied.shown;
          posted = refl;
          next = refl;
          pool = pool;
          lent_data = λ a i.
              subst (λ c. SameData (m.store a) c)
                (sym (copied.outside a (Distinct-apart cs lent a got.pool.lent_distinct i)))
                (got.lent_data a i);
        })

module _ (v : Verbs) (g : Grant) (client : ClientTransport) (m : Machine) (free lent : List Ptr)
    (accepts : (wr : WorkRequest) → is_negative (v.post_send wr) ≡ false)
    (pool : IsPool m free lent) (willing : ¬ Refuses g) where
  -- From a well-formed pool, with room in its counters for the chunks that are missing and one
  -- buffer, an allocator that does not refuse, a block apart from the pool's chunks if one is
  -- allocated, and a queue pair that accepts every send request, `send_msg` of a message of 1 to
  -- 2^32 - 1 bytes runs to its end, with no copy out of bounds and no failed assertion: the
  -- chunks that it takes show the message cut in pieces, each is posted with its header and the
  -- bytes that the header counts, the client's next id goes up by one modulo 2^32, the pool stays
  -- well formed, and the data of no chunk of another client change.
  pub send_msg-Sent :
      (msg : List ℕ)
      → 0 < length msg
      → length msg < 2 ^ 32
      → LegalFor g (length msg) m free lent
      → Ends
          (send_msg v g client msg (length msg) m)
          (Sent v client m msg (supply_for g (length msg) free) lent)
  unfolding send_msg
  send_msg-Sent msg some_bytes small legal =
      let b = chunk_count_bounds (length msg) some_bytes small in
      let cs : List Ptr = take (chunk_count (length msg)) (supply_for g (length msg) free) in
      Ends-bind _ _ (chunk_array g client (length msg) m) _
        (chunk_array-Prepared g client (length msg) m free lent pool b.0 b.1 legal willing)
        (λ (arr, m') ready.
          let arr' : VArray = array_of client (chunk_count (length msg)) cs in
          rw ready.array (
            Ends-bind _ _ (copy_msg_to_rdma arr' msg (length msg) m'.store) _
              (copy_msg-cut_frames arr' msg m'.store small
                (Distinct-front cs lent ready.got.pool.lent_distinct) (sym ready.got.full) refl)
              (λ st copied.
                filled-Sent v client m msg (supply_for g (length msg) free) lent accepts small
                  ready.head m' st ready.got copied)))

  -- Under the same conditions, `send_msg_with_header` of a header and a body of together 1 to
  -- 2^32 - 1 bytes runs to its end and leaves what `send_msg` leaves for the one message that the
  -- header and the body make, wherever in the chunks the header ends.
  pub send_msg_with_header-Sent :
      (header body : List ℕ)
      → (let msg = header ++ body in
          0 < length msg
          → length msg < 2 ^ 32
          → LegalFor g (length msg) m free lent
          → Ends
              (send_msg_with_header v g client header (length header) body (length body) m)
              (Sent v client m msg (supply_for g (length msg) free) lent))
  unfolding send_msg_with_header
  send_msg_with_header-Sent header body some_bytes small legal =
      let msg : List ℕ = header ++ body in
      let b = chunk_count_bounds (length msg) some_bytes small in
      let cs : List Ptr = take (chunk_count (length msg)) (supply_for g (length msg) free) in
      let len : add32 (length header) (length body) ≡ length msg =
        omega (arith, length-append header body, small) in
      rw len (
        Ends-bind _ _ (chunk_array g client (length msg) m) _
          (chunk_array-Prepared g client (length msg) m free lent pool b.0 b.1 legal willing)
          (λ (arr, m') ready.
            let arr' : VArray = array_of client (chunk_count (length msg)) cs in
            rw ready.array (
              Ends-bind _ _
                (copy_header_and_body_to_rdma arr' header (length header) body (length body)
                  m'.store)
                _
                (copy_both-cut_frames arr' header body m'.store small
                  (Distinct-front cs lent ready.got.pool.lent_distinct) (sym ready.got.full) refl)
                (λ st copied.
                  filled-Sent v client m msg (supply_for g (length msg) free) lent accepts small
                    ready.head m' st ready.got copied))))
