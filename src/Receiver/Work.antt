-- ===== src/Receiver/Work.antt =====
-- work_thread of src/rdma_transport.c, whole: what a run hands to Java, and that every run ends.
use spark_rdma_shuffle_engin.Base.{
  ℕ, zero, suc, ◌*◌, ◌≤◌, ◌<◌, ◌^◌, ◌≡◌, refl, sym, ap, subst, ◌∙◌, inl, inr, true, false, List, [],
  ◌∷◌, ◌++◌, Option, none, some, arith, length, Option-cases, ==_iff, Outcome, ok, ◌>>=◌,
}
use spark_rdma_shuffle_engin.Memory.{Ptr, Store, rdma_body_size}
use spark_rdma_shuffle_engin.Memory.Frames.{frames, cut_frames}
use spark_rdma_shuffle_engin.BufferPool.{Machine}
use spark_rdma_shuffle_engin.Transport.{VArray}
use spark_rdma_shuffle_engin.Glib.{GQueue, first, rest}
use spark_rdma_shuffle_engin.Receiver.{Receiver, Message, release_all, is_complete, work_thread}
use spark_rdma_shuffle_engin.Receiver.Deliver.{deliver-message}
use spark_rdma_shuffle_engin.Receiver.Release.{release_all-frames}

-- A message is whole in an array.
pub record IsWhole (st : Store) (a : VArray) (msg : List ℕ) : Type 0 where
  pub complete : is_complete a ≡ true
  pub some_chunk : 0 < length a.chunks
  pub fits : length msg ≤ length a.chunks * rdma_body_size
  pub small : length msg < 2 ^ 31
  pub num : ℕ
  pub shown : frames st a.chunks ≡ cut_frames a.data_id num (length msg) 0 (length a.chunks) msg

abbrev pub message : List ℕ → Message
message msg = record { bytes = msg; len = length msg }

abbrev pub messages : List (List ℕ) → List Message
messages [] = []
messages (msg ∷ msgs) = message msg ∷ messages msgs

abbrev pub AreWhole : Store → (Ptr → VArray) → List Ptr → List (List ℕ) → Type 0
AreWhole st arrays [] [] = Unit
AreWhole st arrays [] (msg ∷ msgs) = ⊥
AreWhole st arrays (q ∷ qs) [] = ⊥
AreWhole st arrays (q ∷ qs) (msg ∷ msgs) = IsWhole st (arrays q) msg × AreWhole st arrays qs msgs

IsWhole-released :
    (rs : List Ptr) (m : Machine) (a : VArray) (msg : List ℕ)
    → IsWhole m.store a msg
    → IsWhole (release_all rs m).store a msg
IsWhole-released rs m a msg w = record {
  complete = w.complete;
  some_chunk = w.some_chunk;
  fits = w.fits;
  small = w.small;
  num = w.num;
  shown = release_all-frames rs m a.chunks ∙ w.shown;
}

AreWhole-released :
    (rs : List Ptr) (m : Machine) (arrays : Ptr → VArray) (qs : List Ptr) (msgs : List (List ℕ))
    → AreWhole m.store arrays qs msgs
    → AreWhole (release_all rs m).store arrays qs msgs
AreWhole-released rs m arrays [] [] w = w
AreWhole-released rs m arrays [] (msg ∷ msgs) w = w
AreWhole-released rs m arrays (q ∷ qs) [] w = w
AreWhole-released rs m arrays (q ∷ qs) (msg ∷ msgs) w =
    (IsWhole-released rs m (arrays q) msg w.0, AreWhole-released rs m arrays qs msgs w.1)

-- The machine after all chunks of all arrays are given back.
abbrev pub released : (Ptr → VArray) → List Ptr → Machine → Machine
released arrays [] m = m
released arrays (q ∷ qs) m = released arrays qs (release_all (arrays q).chunks m)

module _ (G : GQueue Ptr) where
  open G use {to_list, peek_head, pop_head, peek_head-first, to_list-pop_head}

  -- The run ends, with these messages in this order and this machine, the queue as `left`, the arrays
  -- as before and no worker running.
  pub record Ran (s : Receiver G) (msgs : List Message) (left : List Ptr) (m' : Machine)
      (r : Outcome (List Message × Receiver G × Machine)) : Type 0 where
    pub after : Receiver G
    pub result : r ≡ ok (msgs, after, m')
    pub queue : to_list after.work_queue ≡ left
    pub arrays : after.arrays ≡ s.arrays
    pub idle : after.is_work_running ≡ 0
    pub submitted : after.submitted ≡ s.submitted

  abbrev pub RanOf :
      Receiver G
      → List Message
      → List Ptr
      → Machine
      → Option (Outcome (List Message × Receiver G × Machine))
      → Type 0
  RanOf s msgs left m' none = ⊥
  RanOf s msgs left m' (some r) = Ran s msgs left m' r

  -- The oldest message that is left is not complete.
  abbrev pub Blocked : Receiver G → List Ptr → Type 0
  Blocked s left = (q : Ptr) → first left ≡ some q → is_complete (s.arrays q) ≡ false

  abbrev popped : Receiver G → Receiver G
  popped s = record s { work_queue = pop_head s.work_queue }

  work_thread-stops :
      (fuel : ℕ) (s : Receiver G) (m : Machine)
      → Blocked s (to_list s.work_queue)
      → RanOf s [] (to_list s.work_queue) m (work_thread G (suc fuel) s m)
  unfolding work_thread
  work_thread-stops fuel s m blocked = elim (Option-cases (first (to_list s.work_queue))) [
    | inl empty ↦
        rw (RanOf, peek_head-first s.work_queue ∙ empty, work_thread)
          (record {
            after = record s { is_work_running = 0 };
            result = refl;
            queue = refl;
            arrays = refl;
            idle = refl;
            submitted = refl;
          })
    | inr (q, head) ↦
        rw (RanOf, peek_head-first s.work_queue ∙ head, work_thread, blocked q head)
          (record {
            after = record s { is_work_running = 0 };
            result = refl;
            queue = refl;
            arrays = refl;
            idle = refl;
            submitted = refl;
          })
  ]

  RanOf-more :
      (s : Receiver G) (msg : Message) (msgs : List Message) (left : List Ptr) (m' : Machine)
      (o : Option (Outcome (List Message × Receiver G × Machine)))
      → RanOf (popped s) msgs left m' o
      → RanOf s
          (msg ∷ msgs)
          left
          m'
          (elim o [ none ↦ none | some r ↦ some (r >>= λ (ms, s2, m2). ok (msg ∷ ms, s2, m2)) ])
  RanOf-more s msg msgs left m' none h = h
  RanOf-more s msg msgs left m' (some r) h = rw h.result (record {
    after = h.after;
    result = refl;
    queue = h.queue;
    arrays = h.arrays;
    idle = h.idle;
    submitted = h.submitted;
  })

  module _ (s : Receiver G) (m : Machine) (q : Ptr) (msg : List ℕ) (msgs : List Message)
      (left : List Ptr) (m' : Machine) (head : first (to_list s.work_queue) ≡ some q)
      (w : IsWhole m.store (s.arrays q) msg) (running : s.is_work_running ≡ 1) where
    work_thread-delivers :
        (fuel : ℕ)
        → RanOf
            (popped s)
            msgs
            left
            m'
            (work_thread G fuel (popped s) (release_all (s.arrays q).chunks m))
        → RanOf s (message msg ∷ msgs) left m' (work_thread G (suc fuel) s m)
    unfolding work_thread
    work_thread-delivers fuel ih =
        rw
          (
            RanOf,
            peek_head-first s.work_queue ∙ head,
            work_thread,
            w.complete,
            (==_iff s.is_work_running 1).1 running,
            deliver-message (s.arrays q) w.num msg m w.some_chunk w.fits w.small w.shown,
          )
          (RanOf-more s (message msg) msgs left m'
            (work_thread G fuel (popped s) (release_all (s.arrays q).chunks m)) ih)

  -- Where whole messages, each of less than 2^31 bytes, are in front of one that is not complete,
  -- or of none, and the flag says that the worker runs, `work_thread` ends within one round more
  -- than there are messages: it hands exactly these messages to Java, in the queue's order, gives
  -- all their chunks back, leaves the rest of the queue, and clears the flag.
  pub work_thread-messages :
      (qs left : List Ptr) (msgs : List (List ℕ)) (fuel : ℕ) (s : Receiver G) (m : Machine)
      → to_list s.work_queue ≡ qs ++ left
      → AreWhole m.store s.arrays qs msgs
      → Blocked s left
      → s.is_work_running ≡ 1
      → length qs < fuel
      → RanOf s (messages msgs) left (released s.arrays qs m) (work_thread G fuel s m)
  work_thread-messages qs left msgs zero s m queue whole blocked running enough =
      absurd (omega arith)
  work_thread-messages [] left [] (suc fuel) s m queue whole blocked running enough =
      subst (λ l. RanOf s [] l m (work_thread G (suc fuel) s m)) queue
        (work_thread-stops fuel s m (subst (Blocked s) (sym queue) blocked))
  work_thread-messages [] left (msg ∷ msgs) (suc fuel) s m queue whole blocked running enough =
      absurd whole
  work_thread-messages (q ∷ qs) left [] (suc fuel) s m queue whole blocked running enough =
      absurd whole
  work_thread-messages (q ∷ qs) left (msg ∷ msgs) (suc fuel) s m queue whole blocked running
        enough =
      work_thread-delivers s m q msg (messages msgs) left (released s.arrays (q ∷ qs) m)
        (ap first queue) whole.0 running fuel
        (work_thread-messages qs left msgs fuel (popped s) (release_all (s.arrays q).chunks m)
          (to_list-pop_head s.work_queue ∙ ap rest queue)
          (AreWhole-released (s.arrays q).chunks m s.arrays qs msgs whole.1) blocked running
          (omega arith))
