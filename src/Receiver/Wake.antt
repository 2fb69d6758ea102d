-- ===== src/Receiver/Wake.antt =====
-- handle_recv_event of src/rdma_transport.c, whole: the chunk is filed and the worker is woken.
use spark_rdma_shuffle_engin.Base.{
  ◌+◌, ◌≡◌, refl, sym, ap, subst, ◌∙◌, ◌≢◌, ◌⊎◌, inl, inr, true, false, ◌&&◌, List, [], ◌∷◌, Option,
  none, some, arith, mem, Distinct, ◌==◌, if◌then◌else◌, Bool-cases, Option-cases, ==_iff, Ends,
  Ends-bind, Outcome, ok, abort, add32, ◌>>=◌,
}
use spark_rdma_shuffle_engin.Memory.{Ptr, null, Store, rdma_header_size}
use spark_rdma_shuffle_engin.Transport.{VArray}
use spark_rdma_shuffle_engin.Glib.{GQueue, first}
use spark_rdma_shuffle_engin.Receiver.{
  Receiver, Completion, is_complete, file_chunk, wake, handle_recv_event,
}
use spark_rdma_shuffle_engin.Receiver.Arrive.{arrive}
use spark_rdma_shuffle_engin.Receiver.File.{view, Files, file_chunk-arrive}

module _ (G : GQueue Ptr) where
  open G use {to_list, peek_head, peek_head-first}

  -- While the oldest message is complete, a worker is running or submitted.
  abbrev pub IsAwake : Receiver G → Type 0
  IsAwake s =
      (q : Ptr)
      → first (to_list s.work_queue) ≡ some q
      → is_complete (s.arrays q) ≡ true
      → s.is_work_running ≢ 0

  pub wake-one :
      (q : Ptr) (s : Receiver G)
      → to_list s.work_queue ≡ q ∷ []
      → s.is_work_running ≡ 0
      → wake G s ≡ (
          if is_complete (s.arrays q)
          then record s { is_work_running = 1; submitted = s.submitted + 1 }
          else s)
  unfolding wake
  wake-one q s queue running =
      rw (peek_head-first s.work_queue ∙ ap first queue, wake, running) refl

  -- The flag and one submission, or nothing.
  pub wake_cases :
      (s : Receiver G)
      → (wake G s ≡ s)
        ⊎ ((s.is_work_running ≡ 0)
            × (wake G s ≡ record s { is_work_running = 1; submitted = s.submitted + 1 }))
  unfolding wake
  wake_cases s = elim (Option-cases (peek_head s.work_queue)) [
    | inl empty ↦ inl (rw (empty, wake))
    | inr (q, head) ↦ elim (Bool-cases ((s.is_work_running == 0) && is_complete (s.arrays q))) [
      | inl go ↦ inr (ground (arith, go), rw (head, wake, go))
      | inr stay ↦ inl (rw (head, wake, stay))
    ]
  ]

  -- The call for a completion of the right length.
  pub handle_recv_event-right :
      (s : Receiver G) (st : Store) (wc : Completion) (fresh : Ptr)
      → add32 (st wc.work_chunk.chunk).header.chunk_len rdma_header_size ≡ wc.byte_len
      → handle_recv_event G fresh st wc s
        ≡ (file_chunk G fresh st wc.work_chunk s >>= λ s'. ok (wake G s'))
  unfolding handle_recv_event
  handle_recv_event-right s st wc fresh right =
      rw
        ((==_iff (add32 (st wc.work_chunk.chunk).header.chunk_len rdma_header_size) wc.byte_len).1
          right)
        refl

  -- What waking may change: the flag, and with it one submission.
  pub record Wakes (s s' : Receiver G) : Type 0 where
    pub same_view : view G s' ≡ view G s
    pub same_queue : to_list s'.work_queue ≡ to_list s.work_queue
    pub awake : IsAwake s'
    pub submits : s'.submitted + s.is_work_running ≡ s.submitted + s'.is_work_running

  pub wake-Wakes : (s : Receiver G) → Wakes s (wake G s)
  unfolding wake
  wake-Wakes s = elim (Option-cases (first (to_list s.work_queue))) [
    | inl empty ↦
        rw (peek_head-first s.work_queue ∙ empty, wake)
          (record {
            same_view = refl;
            same_queue = refl;
            awake = λ q h done. cc (empty, h);
            submits = refl;
          })
    | inr (q, head) ↦
        rw (peek_head-first s.work_queue ∙ head, wake)
          (elim (Bool-cases ((s.is_work_running == 0) && is_complete (s.arrays q))) [
            | inl go ↦
                let idle : s.is_work_running ≡ 0 = ground (arith, go) in
                rw go (record {
                  same_view = refl;
                  same_queue = refl;
                  awake = λ q' h done. omega arith;
                  submits = omega (arith, idle);
                })
            | inr stay ↦ rw stay (record {
              same_view = refl;
              same_queue = refl;
              awake = λ q' h done.
                  let same : q ≡ q' = cc (head, h) in
                  ground
                    (arith, stay, subst (λ t. is_complete (s.arrays t) ≡ true) (sym same) done);
              submits = refl;
            })
          ])
  ]

  -- What the call leaves where the open messages become `xs`: they, and a worker for the oldest if
  -- that is complete, submitted once for each time that the flag goes up.
  pub record Handles (s : Receiver G) (xs : List VArray) (s' : Receiver G) : Type 0 where
    pub open_messages : view G s' ≡ xs
    pub distinct : Distinct (to_list s'.work_queue)
    pub awake : IsAwake s'
    pub submits : s'.submitted + s.is_work_running ≡ s.submitted + s'.is_work_running

  abbrev pub Handled : Receiver G → Outcome (Receiver G) → Option (List VArray) → Type 0
  Handled s r none = r ≡ abort
  Handled s r (some xs) = Ends r (Handles s xs)

  Files-Handled :
      (s : Receiver G) (r : Outcome (Receiver G)) (o : Option (List VArray))
      → Files G s r o
      → Handled s (r >>= λ s'. ok (wake G s')) o
  Files-Handled s r none h = rw h refl
  Files-Handled s r (some xs) h = Ends-bind _ _ r _ h (λ s1 (same, dist, running, submitted).
      let w = wake-Wakes s1 in
      record {
        open_messages = w.same_view ∙ same;
        distinct = rw w.same_queue dist;
        awake = w.awake;
        submits = omega (arith, w.submits, running, submitted);
      })

  -- For a queue with no pointer twice, a new array that is neither NULL nor in the queue, and a
  -- chunk whose header counts some chunk: `handle_recv_event` aborts if the completion's length
  -- is not that of the chunk, or if the array of the chunk's id is full. Else the open messages
  -- become those of `arrive`, the queue still has no pointer twice, a worker is running or
  -- submitted whenever the oldest message is complete, and one is submitted exactly when the flag
  -- `is_work_running` goes up.
  pub handle_recv_event-arrive :
      (s : Receiver G) (st : Store) (wc : Completion) (fresh : Ptr)
      → (let header = (st wc.work_chunk.chunk).header in
          Distinct (to_list s.work_queue)
          → fresh ≢ null
          → mem fresh (to_list s.work_queue) ≡ false
          → header.chunk_num ≢ 0
          → Handled s (handle_recv_event G fresh st wc s) (
              if add32 header.chunk_len rdma_header_size == wc.byte_len
              then arrive wc.work_chunk header.data_id header.chunk_num (view G s)
              else none))
  unfolding handle_recv_event
  handle_recv_event-arrive s st wc fresh dist there unused some_chunk =
      let header = (st wc.work_chunk.chunk).header in
      elim (Bool-cases (add32 header.chunk_len rdma_header_size == wc.byte_len)) [
        | inl right ↦ rw right (
            Files-Handled s _ _
              (file_chunk-arrive G s st wc.work_chunk fresh dist there unused some_chunk))
        | inr wrong ↦ rw wrong refl
      ]
