-- ===== src/Handler/Network.antt =====
-- A message from send_msg of src/rdma_transport_client.c over the wire to work_thread of
-- src/rdma_transport.c.
use spark_rdma_shuffle_engin.Base.{
  ℕ, suc, ◌-◌, ◌*◌, ◌≤◌, ◌<◌, ◌^◌, ◌≡◌, refl, sym, ap, ap₂, subst, ◌∙◌, ◌≢◌, false, List, [], ◌∷◌,
  ◌++◌, arith, length, take, Ends, Ends-mono, is_negative,
}
use spark_rdma_shuffle_engin.Memory.{
  Ptr, null, ChunkHeader, Store, rdma_body_size, rdma_header_size,
}
use spark_rdma_shuffle_engin.Memory.Bytes.{read_bytes}
use spark_rdma_shuffle_engin.Memory.Frames.{Frame, frame_of, frames, cut_frames}
use spark_rdma_shuffle_engin.BufferPool.{Grant, Machine}
use spark_rdma_shuffle_engin.BufferPool.Invariant.{IsPool, Refuses}
use spark_rdma_shuffle_engin.Transport.{Verbs, WorkRequest, WorkChunk, send_request}
use spark_rdma_shuffle_engin.Transport.Post.{send_request-addr, send_request-length}
use spark_rdma_shuffle_engin.Client.{ClientTransport, SendResult, chunk_count, send_msg_with_header}
use spark_rdma_shuffle_engin.Client.Copy.{chunk_count-Needs}
use spark_rdma_shuffle_engin.Client.Requests.{chunk_requests}
use spark_rdma_shuffle_engin.Client.Send.{LegalFor, supply_for, Sent, send_msg_with_header-Sent}
use spark_rdma_shuffle_engin.Glib.{GQueue}
use spark_rdma_shuffle_engin.Receiver.{Receiver}
use spark_rdma_shuffle_engin.Handler.{Event, Opcode, handle_events}
use spark_rdma_shuffle_engin.Handler.Roundtrip.{IsReceipt, AreReceipts, IsIdle}
use spark_rdma_shuffle_engin.Handler.Delivery.{
  chunk_of, chunks_of_events, Delivered, handle_events-Delivered,
}

-- RDMA: what a send request says of memory is in a posted chunk when its receipt is reported.
pub record IsCarried (from into : Store) (wr : WorkRequest) (e : Event) : Type 0 where
  pub success : e.status ≡ 0
  pub receipt : e.opcode ≡ Opcode.recv
  pub bytes : e.completion.byte_len ≡ wr.length
  pub header : (into (chunk_of e)).header ≡ (from wr.addr).header
  pub body :
      let len = wr.length - rdma_header_size in
      read_bytes (into (chunk_of e)).body 0 len ≡ read_bytes (from wr.addr).body 0 len
  pub memory : e.fresh ≢ null

abbrev pub AreCarried : Store → Store → List WorkRequest → List Event → Type 0
AreCarried from into [] [] = Unit
AreCarried from into [] (e ∷ es) = ⊥
AreCarried from into (wr ∷ wrs) [] = ⊥
AreCarried from into (wr ∷ wrs) (e ∷ es) = IsCarried from into wr e × AreCarried from into wrs es

-- A reliable connection: every request arrives, in order, with memory for its bookkeeping.
pub record Network : Type 0 where
  pub carry : Store → List WorkRequest → Machine → List Event × Machine
  pub carries :
      (from : Store) (wrs : List WorkRequest) (m : Machine)
      → (let (es, m') = carry from wrs m in AreCarried from m'.store wrs es)

record Arrived (from into : Store) (cs : List Ptr) (es : List Event) : Type 0 where
  receipts : AreReceipts into (chunks_of_events es) es
  shown : frames into (chunks_of_events es) ≡ frames from cs
  count : length (chunks_of_events es) ≡ length cs

module _ (v : Verbs) (t : Ptr) (from into : Store) where
  abbrev work_chunk : Ptr → WorkChunk
  work_chunk c = record { transport = t; chunk = c; len = (from c).header.chunk_len }

  module _ (c : Ptr) (e : Event)
      (h : IsCarried from into (send_request v from (work_chunk c)) e) where
    same_header : (into (chunk_of e)).header ≡ (from c).header
    same_header = h.header ∙ ap (λ p. (from p).header) (send_request-addr v from (work_chunk c))

    same_len : (into (chunk_of e)).header.chunk_len ≡ (from c).header.chunk_len
    same_len = ap (λ (k : ChunkHeader). k.chunk_len) same_header

    IsCarried-IsReceipt : IsReceipt into (chunk_of e) e
    IsCarried-IsReceipt = record {
      success = h.success;
      receipt = h.receipt;
      chunk = refl;
      bytes = omega (arith, h.bytes, send_request-length v from (work_chunk c), same_len);
      memory = h.memory;
    }

    IsCarried-payload :
        read_bytes (into (chunk_of e)).body 0 (from c).header.chunk_len
        ≡ read_bytes (from c).body 0 (from c).header.chunk_len
    IsCarried-payload =
        let len : (send_request v from (work_chunk c)).length - rdma_header_size
            ≡ (from c).header.chunk_len =
          omega (arith, send_request-length v from (work_chunk c)) in
        subst (λ k. read_bytes (into (chunk_of e)).body 0 k ≡ read_bytes (from c).body 0 k) len
          (h.body
            ∙ ap
                (λ p.
                  read_bytes (from p).body 0
                    ((send_request v from (work_chunk c)).length - rdma_header_size))
                (send_request-addr v from (work_chunk c)))

    IsCarried-frame : frame_of (into (chunk_of e)) ≡ frame_of (from c)
    IsCarried-frame = rw (same_header, IsCarried-payload) refl

  AreCarried-Arrived :
      (cs : List Ptr) (es : List Event)
      → AreCarried from into (chunk_requests v from t cs) es
      → Arrived from into cs es
  AreCarried-Arrived [] [] h = record { receipts = tt; shown = refl; count = refl }
  AreCarried-Arrived [] (e ∷ es) h = absurd h
  AreCarried-Arrived (c ∷ cs) [] h = absurd h
  AreCarried-Arrived (c ∷ cs) (e ∷ es) h =
      let more = AreCarried-Arrived cs es h.1 in
      record {
        receipts = (IsCarried-IsReceipt c e h.0, more.receipts);
        shown = ap₂ (λ (x : Frame) (xs : List Frame). x ∷ xs) (IsCarried-frame c e h.0) more.shown;
        count = ap suc more.count;
      }

module _ (G : GQueue Ptr) (v : Verbs) (N : Network) (client : ClientTransport) (s : Receiver G)
    (into : Machine) (idle : IsIdle G s) where
  -- What a call that sends leads to at the other end.
  abbrev pub Receives : List ℕ → SendResult → Type 0
  Receives msg sent =
      let (es, m') = N.carry sent.2.store sent.0 into in
      Ends (handle_events G es s m')
        (λ (s', m''). (m'' ≡ m') × Delivered G msg (chunks_of_events es) s' m')

  Sent-Receives :
      (m : Machine) (msg : List ℕ) (all lent : List Ptr) (sent : SendResult)
      → 0 < length msg
      → length msg < 2 ^ 31
      → Sent v client m msg all lent sent
      → Receives msg sent
  Sent-Receives m msg all lent sent some_bytes small h =
      let from : Store = sent.2.store in
      let n : ℕ = chunk_count (length msg) in
      let (es, m') = N.carry from sent.0 into in
      let cs : List Ptr = take n all in
      let a =
        AreCarried-Arrived v client.address from m'.store cs es
          (subst (λ wrs. AreCarried from m'.store wrs es) h.posted (N.carries from sent.0 into)) in
      let count : length (chunks_of_events es) ≡ n = a.count ∙ h.count in
      let need : length msg ≤ length (chunks_of_events es) * rdma_body_size =
        rw count (chunk_count-Needs msg).0 in
      handle_events-Delivered G s m' client.data_id msg (chunks_of_events es) es idle small need
        (ground (arith, count))
        (a.shown ∙ h.shown ∙ ap (λ k. cut_frames client.data_id k (length msg) 0 k msg) (sym count))
        a.receipts

  module _ (g : Grant) (m : Machine) (free lent : List Ptr)
      (accepts : (wr : WorkRequest) → is_negative (v.post_send wr) ≡ false)
      (pool : IsPool m free lent) (willing : ¬ Refuses g) where
    -- Under the conditions of `send_msg-Receives`, what `send_msg_with_header` sends, of together
    -- 1 to 2^31 - 1 bytes, is handed to Java by the receiver's worker as one message, the header
    -- and the body behind it.
    pub send_msg_with_header-Receives :
        (header body : List ℕ)
        → (let msg = header ++ body in
            0 < length msg
            → length msg < 2 ^ 31
            → LegalFor g (length msg) m free lent
            → Ends
                (send_msg_with_header v g client header (length header) body (length body) m)
                (Receives msg))
    send_msg_with_header-Receives header body some_bytes small legal =
        let msg : List ℕ = header ++ body in
        Ends-mono _ _ (send_msg_with_header v g client header (length header) body (length body) m)
          (send_msg_with_header-Sent v g client m free lent accepts pool willing header body
            some_bytes (omega (arith, small)) legal)
          (λ sent h.
            Sent-Receives m msg (supply_for g (length msg) free) lent sent some_bytes small h)
