-- ===== src/Handler/Roundtrip.antt =====
-- The way of a message through handle_thread, handle_recv_event and work_thread of
-- src/rdma_transport.c, from the chunks that arrive to what Java is given.
use spark_rdma_shuffle_engin.Base.{
  ℕ, suc, ◌+◌, ◌<◌, ◌^◌, ◌≡◌, refl, sym, ap, subst, ◌∙◌, ◌≢◌, inl, inr, Bool, true, false, List, [],
  ◌∷◌, ◌++◌, append-nil, append_assoc, arith, length, length-append, take, drop, ◌==◌, leb,
  Bool-cases, ne→==, ==_iff, Ends, Ends-bind, ok, length-take,
}
use spark_rdma_shuffle_engin.Memory.{
  Ptr, null, ChunkHeader, Store, rdma_body_size, rdma_header_size,
}
use spark_rdma_shuffle_engin.Memory.Frames.{frames, cut_frames, piece_frame, Shows, frames-Shows}
use spark_rdma_shuffle_engin.BufferPool.{Machine}
use spark_rdma_shuffle_engin.Transport.{WorkChunk}
use spark_rdma_shuffle_engin.Glib.{GQueue}
use spark_rdma_shuffle_engin.Receiver.{Receiver, is_complete, wake, file_chunk}
use spark_rdma_shuffle_engin.Receiver.File.{file-old, file-new, with_new, with_more}
use spark_rdma_shuffle_engin.Receiver.Wake.{wake-one, handle_recv_event-right}
use spark_rdma_shuffle_engin.Handler.{Event, Opcode, handle_event, handle_events}

-- The event is the successful receipt of the chunk, in full.
pub record IsReceipt (st : Store) (c : Ptr) (e : Event) : Type 0 where
  pub success : e.status ≡ 0
  pub receipt : e.opcode ≡ Opcode.recv
  pub chunk : e.completion.work_chunk.chunk ≡ c
  pub bytes : e.completion.byte_len ≡ (st c).header.chunk_len + rdma_header_size
  pub memory : e.fresh ≢ null

abbrev pub AreReceipts : Store → List Ptr → List Event → Type 0
AreReceipts st [] [] = Unit
AreReceipts st [] (e ∷ es) = ⊥
AreReceipts st (c ∷ cs) [] = ⊥
AreReceipts st (c ∷ cs) (e ∷ es) = IsReceipt st c e × AreReceipts st cs es

abbrev pub flag : Bool → ℕ
flag true = 1
flag false = 0

module _ (G : GQueue Ptr) where
  open G use {to_list, peek_head, peek_head-first, push_tail, to_list-push_tail}

  -- No message is open and no worker runs.
  pub record IsIdle (s : Receiver G) : Type 0 where
    pub queue : to_list s.work_queue ≡ []
    pub running : s.is_work_running ≡ 0

  -- The only open message is `d`; of its `n` chunks, these have arrived.
  pub record Collects (s : Receiver G) (q : Ptr) (d n : ℕ) (cs : List Ptr) : Type 0 where
    pub queue : to_list s.work_queue ≡ q ∷ []
    pub data_id : (s.arrays q).data_id ≡ d
    pub len : (s.arrays q).len ≡ length cs
    pub size : (s.arrays q).size ≡ n
    pub chunks : (s.arrays q).chunks ≡ cs
    pub running : s.is_work_running ≡ flag (length cs == n)

  Collects-wake :
      (s : Receiver G) (q : Ptr) (d n : ℕ) (cs : List Ptr)
      → to_list s.work_queue ≡ q ∷ []
      → s.is_work_running ≡ 0
      → (s.arrays q).data_id ≡ d
      → (s.arrays q).len ≡ length cs
      → (s.arrays q).size ≡ n
      → (s.arrays q).chunks ≡ cs
      → Collects (wake G s) q d n cs
  Collects-wake s q d n cs queue running data_id len size chunks =
      rw (wake-one G q s queue running) (elim (Bool-cases (is_complete (s.arrays q))) [
        | inl full ↦ rw full (record {
          queue = queue;
          data_id = data_id;
          len = len;
          size = size;
          chunks = chunks;
          running = rw (sym len, sym size, full) refl;
        })
        | inr open_still ↦ rw open_still (record {
          queue = queue;
          data_id = data_id;
          len = len;
          size = size;
          chunks = chunks;
          running = rw (sym len, sym size, open_still) running;
        })
      ])

  module _ (s : Receiver G) (m : Machine) (e : Event) (d n : ℕ)
      (r : IsReceipt m.store e.completion.work_chunk.chunk e)
      (small : (m.store e.completion.work_chunk.chunk).header.chunk_len + rdma_header_size < 2 ^ 32)
      (id : (m.store e.completion.work_chunk.chunk).header.data_id ≡ d)
      (num : (m.store e.completion.work_chunk.chunk).header.chunk_num ≡ n) where
    abbrev w : WorkChunk
    w = e.completion.work_chunk

    receipt_event :
        (s1 : Receiver G)
        → file_chunk G e.fresh m.store w s ≡ ok s1
        → handle_event G e s m ≡ ok (wake G s1, m)
    unfolding handle_event
    receipt_event s1 filed =
        rw
          (
            r.success,
            r.receipt,
            handle_recv_event-right G s m.store e.completion e.fresh (omega (arith, r.bytes)),
            filed,
          )
          refl

    pub receipt-first :
        IsIdle s
        → n ≢ 0
        → Ends
            (handle_event G e s m)
            (λ (s', m'). (m' ≡ m) × Collects s' e.fresh d n (w.chunk ∷ []))
    receipt-first idle some_chunk =
        rw
          (receipt_event (with_new G s m.store w e.fresh) (
            file-new G s m.store w e.fresh r.memory (λ h. some_chunk (sym num ∙ h))
              (rw idle.queue refl)))
          (
            refl,
            Collects-wake (with_new G s m.store w e.fresh) e.fresh d n (w.chunk ∷ [])
                (to_list-push_tail s.work_queue e.fresh
                  ∙ ap (λ (l : List Ptr). l ++ e.fresh ∷ []) idle.queue)
                idle.running (rw ((==_iff e.fresh e.fresh).1 refl) id)
                (rw ((==_iff e.fresh e.fresh).1 refl) refl)
                (rw ((==_iff e.fresh e.fresh).1 refl) num)
                (rw ((==_iff e.fresh e.fresh).1 refl) refl),
          )

    receipt-more :
        (q : Ptr) (cs : List Ptr)
        → Collects s q d n cs
        → length cs < n
        → Ends
            (handle_event G e s m)
            (λ (s', m'). (m' ≡ m) × Collects s' q d n (cs ++ w.chunk ∷ []))
    receipt-more q cs h room =
        let hit : (s.arrays q).data_id == (m.store w.chunk).header.data_id ≡ true =
          (==_iff (s.arrays q).data_id (m.store w.chunk).header.data_id).1 (h.data_id ∙ sym id) in
        let not_full : leb (s.arrays q).size (s.arrays q).len ≡ false =
          rw (h.size, h.len) (ground (arith, room)) in
        let idle : s.is_work_running ≡ 0 =
          h.running ∙ ap flag (ne→== (length cs) n (λ t. omega arith)) in
        rw
          (receipt_event (with_more G s m.store w e.fresh q)
            (file-old G s m.store w e.fresh q (rw (h.queue, hit) refl) hit ∙ rw not_full refl))
          (
            refl,
            Collects-wake (with_more G s m.store w e.fresh q) q d n (cs ++ w.chunk ∷ []) h.queue
                idle (rw ((==_iff q q).1 refl) h.data_id)
                (rw ((==_iff q q).1 refl) (omega (arith, h.len, length-append cs (w.chunk ∷ []))))
                (rw ((==_iff q q).1 refl) h.size)
                (rw ((==_iff q q).1 refl) (ap (λ (l : List Ptr). l ++ w.chunk ∷ []) h.chunks)),
          )

  module _ (d n len : ℕ) (m : Machine) where
    -- What the frame of a chunk says, for the events.
    pub record IsPiece (c : Ptr) : Type 0 where
      pub id : (m.store c).header.data_id ≡ d
      pub num : (m.store c).header.chunk_num ≡ n
      pub small : (m.store c).header.chunk_len + rdma_header_size < 2 ^ 32

    pub Shows-IsPiece :
        (i : ℕ) (now : List ℕ) (c : Ptr) (cs : List Ptr) (k : ℕ)
        → Shows m.store c cs
            (piece_frame d n len i (take rdma_body_size now))
            (cut_frames d n len (suc i) k (drop rdma_body_size now))
        → IsPiece c
    Shows-IsPiece i now c cs k h = record {
      id = ap (λ (h : ChunkHeader). h.data_id) h.header;
      num = ap (λ (h : ChunkHeader). h.chunk_num) h.header;
      small =
          omega
            (arith, ap (λ (h : ChunkHeader). h.chunk_len) h.header, length-take rdma_body_size now);
    }

    pub events-rest :
        (es : List Event) (cs before : List Ptr) (i : ℕ) (now : List ℕ) (q : Ptr) (s : Receiver G)
        → AreReceipts m.store cs es
        → frames m.store cs ≡ cut_frames d n len i (length cs) now
        → length before + length cs ≡ n
        → Collects s q d n before
        → Ends (handle_events G es s m) (λ (s', m'). (m' ≡ m) × Collects s' q d n (before ++ cs))
    unfolding handle_events
    events-rest [] [] before i now q s r f total h =
        (refl, subst (Collects s q d n) (sym (append-nil before)) h)
    events-rest [] (c ∷ cs) before i now q s r f total h = absurd r
    events-rest (e ∷ es) [] before i now q s r f total h = absurd r
    events-rest (e ∷ es) (c ∷ cs) before i now q s r f total h =
        let shows = frames-Shows m.store c cs _ _ f in
        let here : e.completion.work_chunk.chunk ≡ c = r.0.chunk in
        let piece : IsPiece e.completion.work_chunk.chunk =
          subst IsPiece (sym here) (Shows-IsPiece i now c cs (length cs) shows) in
        let receipt : IsReceipt m.store e.completion.work_chunk.chunk e =
          subst (λ p. IsReceipt m.store p e) (sym here) r.0 in
        Ends-bind _ _ (handle_event G e s m) _
          (receipt-more s m e d n receipt piece.small piece.id piece.num q before h (omega arith))
          (λ (s', m') (same, h'). rw same (
            subst
              (λ l. Ends (handle_events G es s' m) (λ (s'', m''). (m'' ≡ m) × Collects s'' q d n l))
              (append_assoc before (e.completion.work_chunk.chunk ∷ []) cs
                ∙ ap (λ p. before ++ p ∷ cs) here)
              (events-rest es cs (before ++ e.completion.work_chunk.chunk ∷ []) (suc i)
                (drop rdma_body_size now) q s' r.1 shows.rest
                (omega (arith, length-append before (e.completion.work_chunk.chunk ∷ []))) h')))
