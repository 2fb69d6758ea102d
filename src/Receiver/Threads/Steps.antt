-- ===== src/Receiver/Threads/Steps.antt =====
-- Each step of handle_recv_event of src/rdma_transport.c keeps the invariant, whatever the runs of
-- work_thread are at.
use spark_rdma_shuffle_engin.Base.{
  ℕ, ◌+◌, ◌≤◌, ◌≡◌, ◌≢◌, inl, inr, refl, sym, ap, subst, ◌∙◌, false, [], ◌∷◌, ◌++◌, append_assoc,
  Option, none, some, arith, mem, mem-append_left, ok, ne→==,
}
use spark_rdma_shuffle_engin.Memory.{Ptr}
use spark_rdma_shuffle_engin.Transport.{WorkChunk}
use spark_rdma_shuffle_engin.Glib.{GQueue}
use spark_rdma_shuffle_engin.Receiver.{Receiver, new_array, add_chunk, wake, is_complete, same_id}
use spark_rdma_shuffle_engin.Receiver.Wake.{wake-Wakes, wake_cases}
use spark_rdma_shuffle_engin.Receiver.Threads.{
  outside, stopped, searched, Crew, held, search_queue, store_new, store_more, wake_worker,
}
use spark_rdma_shuffle_engin.Receiver.Threads.Sound.{
  first_such-mem, AreSound-mono, new_array-Stores, add_chunk-Stores,
}
use spark_rdma_shuffle_engin.Receiver.Threads.Invariant.{CrewOk, AwakeAt, KeptAt}

module _ (G : GQueue Ptr) where
  open G use {
    to_list, push_tail, peek_head, pop_head, find_custom, to_list-push_tail, peek_head-first,
    to_list-pop_head, find_custom-first_such,
  }

  -- A receiver with another flag and as many more submissions.
  record Raises (r r' : Receiver G) (more : ℕ) : Type 0 where
    queue : to_list r'.work_queue ≡ to_list r.work_queue
    arrays : r'.arrays ≡ r.arrays
    running : r'.is_work_running ≡ r.is_work_running + more
    submitted : r'.submitted ≡ r.submitted + more
    most : r.is_work_running ≤ 1 → r'.is_work_running ≤ 1

  wake-Raises : (r : Receiver G) → (more : ℕ) × Raises r (wake G r) more
  wake-Raises r = elim (wake_cases G r) [
    | inl same ↦ rw same (
      0,
      record {
        queue = refl;
        arrays = refl;
        running = omega arith;
        submitted = omega arith;
        most = λ m. m;
      },
    )
    | inr (idle, woken) ↦ rw woken (
      1,
      record {
        queue = refl;
        arrays = refl;
        running = omega (arith, idle);
        submitted = refl;
        most = λ m. omega arith;
      },
    )
  ]

  searched-KeptAt :
      (w : WorkChunk) (d n : ℕ) (r : Receiver G) (found : Option Ptr)
      → find_custom r.work_queue (same_id G r d) ≡ found
      → KeptAt G (searched w d n found) r
  searched-KeptAt w d n r none e = tt
  searched-KeptAt w d n r (some q) e = inl (
      first_such-mem (same_id G r d) q (to_list r.work_queue)
        (sym (find_custom-first_such r.work_queue (same_id G r d)) ∙ e))

  module _ (s : Crew G) (h : CrewOk G s) where
    abbrev pub r : Receiver G
    r = s.receiver

    pub search_queue-ok :
        (w : WorkChunk) (d n : ℕ) → s.filing ≡ outside → CrewOk G (search_queue G w d n s)
    unfolding search_queue same_id
    search_queue-ok w d n e = record {
      count = h.count;
      behind = h.behind;
      most = h.most;
      order = h.order;
      awake = subst (λ f. AwakeAt G f r) e h.awake;
      kept = searched-KeptAt w d n r (find_custom r.work_queue (same_id G r d)) refl;
      sound = h.sound;
    }

    pub store_new-ok :
        (w : WorkChunk) (d n : ℕ) (fresh : Ptr) (r' : Receiver G)
        → mem fresh (held G s.workers ++ to_list r.work_queue) ≡ false
        → new_array G fresh n w d r ≡ ok r'
        → CrewOk G (store_new G fresh r' s)
    unfolding store_new
    store_new-ok w d n fresh r' unused e =
        let st = new_array-Stores G fresh n d w r r' e in
        record {
          count = omega (arith, h.count, st.running, st.submitted);
          behind = omega (arith, h.behind, st.submitted);
          most = omega (arith, h.most, st.running);
          order = rw st.queue (
              ap (λ t. s.delivered ++ t)
                (sym (append_assoc (held G s.workers) (to_list r.work_queue) (fresh ∷ [])))
              ∙ sym
                  (append_assoc s.delivered (held G s.workers ++ to_list r.work_queue) (fresh ∷ []))
              ∙ ap (λ t. t ++ fresh ∷ []) h.order);
          awake = tt;
          kept = tt;
          sound =
              AreSound-mono G r.arrays r'.arrays s.workers
                (λ x i done.
                  let apart : fresh ≢ x = λ e.
                    cc (mem-append_left x (held G s.workers) (to_list r.work_queue) i, unused, e) in
                  rw (st.arrays, ne→== fresh x apart) done)
                h.sound;
        }

    pub store_more-ok :
        (w : WorkChunk) (d n : ℕ) (q : Ptr) (r' : Receiver G)
        → add_chunk G q w d r ≡ ok r'
        → CrewOk G (store_more G r' s)
    unfolding store_more
    store_more-ok w d n q r' e =
        let (st, part) = add_chunk-Stores G q d w r r' e in
        record {
          count = omega (arith, h.count, st.running, st.submitted);
          behind = omega (arith, h.behind, st.submitted);
          most = omega (arith, h.most, st.running);
          order = rw st.queue h.order;
          awake = tt;
          kept = tt;
          sound =
              AreSound-mono G r.arrays r'.arrays s.workers
                (λ x i done.
                  let apart : q ≢ x =
                    λ e. cc (ap (λ (t : Ptr). is_complete (r.arrays t)) e, part, done) in
                  rw (st.arrays, ne→== q x apart) done)
                h.sound;
        }

    pub stop-ok :
        (w : WorkChunk) (d n : ℕ) (q : Ptr)
        → s.filing ≡ searched w d n (some q)
        → CrewOk G (record s { filing = stopped })
    stop-ok w d n q e = record {
      count = h.count;
      behind = h.behind;
      most = h.most;
      order = h.order;
      awake = subst (λ f. AwakeAt G f r) e h.awake;
      kept = tt;
      sound = h.sound;
    }

    pub wake_worker-ok : CrewOk G (wake_worker G s)
    unfolding wake_worker
    wake_worker-ok =
        let w = wake-Wakes G r in
        let (more, u) = wake-Raises r in
        record {
          count = omega (arith, h.count, u.running, u.submitted);
          behind = omega (arith, h.behind, u.submitted);
          most = u.most h.most;
          order = rw w.same_queue h.order;
          awake = w.awake;
          kept = tt;
          sound = rw u.arrays h.sound;
        }
