-- ===== src/Handler/Delivery.antt =====
-- The way of a message from its receipts, through handle_thread, to work_thread of
-- src/rdma_transport.c.
use spark_rdma_shuffle_engin.Base.{
  ℕ, suc, ◌*◌, ◌≤◌, ◌<◌, ◌^◌, ◌≡◌, refl, sym, subst, ◌∙◌, List, [], ◌∷◌, arith, length, drop,
  ==_iff, Ends, Ends-bind, Ends-mono,
}
use spark_rdma_shuffle_engin.Memory.{Ptr, rdma_body_size}
use spark_rdma_shuffle_engin.Memory.Frames.{frames, cut_frames, frames-Shows}
use spark_rdma_shuffle_engin.BufferPool.{Machine}
use spark_rdma_shuffle_engin.Glib.{GQueue}
use spark_rdma_shuffle_engin.Receiver.{Receiver, release_all, work_thread}
use spark_rdma_shuffle_engin.Receiver.Work.{message, RanOf, work_thread-messages}
use spark_rdma_shuffle_engin.Handler.{Event, handle_event, handle_events}
use spark_rdma_shuffle_engin.Handler.Roundtrip.{
  IsReceipt, AreReceipts, IsIdle, IsPiece, Shows-IsPiece, Collects, receipt-first, events-rest,
}

abbrev pub chunk_of : Event → Ptr
chunk_of e = e.completion.work_chunk.chunk

abbrev pub chunks_of_events : List Event → List Ptr
chunks_of_events [] = []
chunks_of_events (e ∷ es) = chunk_of e ∷ chunks_of_events es

module _ (G : GQueue Ptr) where
  open G use {to_list}

  -- The worker was submitted, and its run hands `msg` to Java and leaves no message.
  pub record Delivered (msg : List ℕ) (cs : List Ptr) (s : Receiver G) (m : Machine) : Type 0 where
    pub running : s.is_work_running ≡ 1
    pub run : RanOf G s (message msg ∷ []) [] (release_all cs m) (work_thread G 2 s m)

  module _ (s : Receiver G) (m : Machine) (d num : ℕ) (msg : List ℕ) (cs : List Ptr)
      (es : List Event) (idle : IsIdle G s) (small : length msg < 2 ^ 31)
      (fits : length msg ≤ length cs * rdma_body_size)
      (f : frames m.store cs ≡ cut_frames d (length cs) (length msg) 0 (length cs) msg) where
    Collects-Delivered :
        (s' : Receiver G) (q : Ptr)
        → 0 < length cs
        → Collects G s' q d (length cs) cs
        → Delivered msg cs s' m
    Collects-Delivered s' q some_chunk h =
        let full : s'.is_work_running ≡ 1 =
          h.running ∙ rw ((==_iff (length cs) (length cs)).1 refl) refl in
        record {
          running = full;
          run =
              subst (λ l. RanOf G s' (message msg ∷ []) [] (release_all l m) (work_thread G 2 s' m))
                h.chunks
                (work_thread-messages G (q ∷ []) [] (msg ∷ []) 2 s' m h.queue
                  (
                    record {
                      complete =
                          (==_iff (s'.arrays q).len (s'.arrays q).size).1 (h.len ∙ sym h.size);
                      some_chunk = rw h.chunks some_chunk;
                      fits = rw h.chunks fits;
                      small = small;
                      num = length cs;
                      shown = rw (h.chunks, h.data_id) f;
                    },
                    tt,
                  )
                  (λ q e. cc e) full (omega arith));
        }

  pub handle_events-Delivered :
      (s : Receiver G) (m : Machine) (d : ℕ) (msg : List ℕ) (cs : List Ptr) (es : List Event)
      → IsIdle G s
      → length msg < 2 ^ 31
      → length msg ≤ length cs * rdma_body_size
      → 0 < length cs
      → frames m.store cs ≡ cut_frames d (length cs) (length msg) 0 (length cs) msg
      → AreReceipts m.store cs es
      → Ends (handle_events G es s m) (λ (s', m'). (m' ≡ m) × Delivered msg cs s' m)
  unfolding handle_events
  handle_events-Delivered s m d msg [] es idle small fits some_chunk f r = absurd (omega arith)
  handle_events-Delivered s m d msg (c ∷ cs) [] idle small fits some_chunk f r = absurd r
  handle_events-Delivered s m d msg (c ∷ cs) (e ∷ es) idle small fits some_chunk f r =
      let n : ℕ = suc (length cs) in
      let shows = frames-Shows m.store c cs _ _ f in
      let here : chunk_of e ≡ c = r.0.chunk in
      let piece : IsPiece G d n (length msg) m (chunk_of e) =
        subst (IsPiece G d n (length msg) m) (sym here)
          (Shows-IsPiece G d n (length msg) m 0 msg c cs (length cs) shows) in
      let receipt : IsReceipt m.store (chunk_of e) e =
        subst (λ p. IsReceipt m.store p e) (sym here) r.0 in
      Ends-bind _ _ (handle_event G e s m) _
        (receipt-first G s m e d n receipt piece.small piece.id piece.num idle
          (λ h. omega (arith, h)))
        (λ (s', m') (same, h). rw same (
          Ends-mono _ _ (handle_events G es s' m)
            (events-rest G d n (length msg) m es cs (chunk_of e ∷ []) 1 (drop rdma_body_size msg)
              e.fresh s' r.1 shows.rest (omega arith) h)
            (λ (s'', m'') (same', h'). (
              same',
              Collects-Delivered s m d n msg (c ∷ cs) es idle small fits f s'' e.fresh some_chunk
                  (subst (λ p. Collects G s'' e.fresh d n (p ∷ cs)) here h'),
            ))))
