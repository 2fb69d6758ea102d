-- ===== src/Receiver/Threads/Run.antt =====
-- Each step of work_thread of src/rdma_transport.c keeps the invariant, and so does every run.
use spark_rdma_shuffle_engin.Base.{
  ◌≤◌, ◌<◌, ◌≡◌, sym, ap, subst, ◌∙◌, true, List, [], ◌∷◌, ◌++◌, append_assoc, some, arith, length,
  ==_iff,
}
use spark_rdma_shuffle_engin.Memory.{Ptr}
use spark_rdma_shuffle_engin.Glib.{GQueue}
use spark_rdma_shuffle_engin.Receiver.{Receiver, is_complete}
use spark_rdma_shuffle_engin.Receiver.Threads.{
  Working, looking, took, delivering, Crew, held, begin, leave, take_head, check_head, end_delivery,
  NoneReady, CrewStep, searches, opens, adds, stops, wakes, begins, leaves, takes, checks, ends,
  CrewReach, crew_of, start, and_then,
}
use spark_rdma_shuffle_engin.Receiver.Threads.Sound.{only, first-rest, AreSound}
use spark_rdma_shuffle_engin.Receiver.Threads.Invariant.{
  CrewOk, AwakeAt-awake, AwakeAt-running, KeptAt-take, KeptAt-flag, NoneReady-IsAwake,
}
use spark_rdma_shuffle_engin.Receiver.Threads.Steps.{
  search_queue-ok, store_new-ok, store_more-ok, stop-ok, wake_worker-ok,
}

module _ (G : GQueue Ptr) where
  open G use {
    to_list, push_tail, peek_head, pop_head, find_custom, to_list-push_tail, peek_head-first,
    to_list-pop_head, find_custom-first_such,
  }

  module _ (s : Crew G) (h : CrewOk G s) where
    abbrev pub r : Receiver G
    r = s.receiver

    pub begin-ok : s.begun < r.submitted → CrewOk G (begin G s)
    unfolding begin
    begin-ok more = record {
      count = omega (arith, h.count);
      behind = omega arith;
      most = h.most;
      order = h.order;
      awake = h.awake;
      kept = h.kept;
      sound = h.sound;
    }

    pub few : length s.workers ≤ 1
    few = omega (arith, h.count, h.behind, h.most)

    pub one :
        (pc : Working) → s.workers ≡ pc ∷ [] → (r.is_work_running ≡ 1) × (r.submitted ≡ s.begun)
    one pc e =
        let n : length s.workers ≡ 1 = ap length e in omega (arith, n, h.count, h.behind, h.most)

    leave_one-ok :
        s.workers ≡ looking ∷ []
        → NoneReady G r (peek_head r.work_queue)
        → CrewOk G (leave G [] [] s)
    unfolding leave
    leave_one-ok e unready = record {
      count = omega (arith, (one looking e).1);
      behind = h.behind;
      most = omega arith;
      order = ap (λ ws. s.delivered ++ (held G ws ++ to_list r.work_queue)) (sym e) ∙ h.order;
      awake =
          AwakeAt-awake G s.filing (record r { is_work_running = 0 })
            (NoneReady-IsAwake G r unready);
      kept = KeptAt-flag G s.filing r 0 h.kept;
      sound = tt;
    }

    pub take_one-ok :
        (q : Ptr)
        → s.workers ≡ looking ∷ []
        → peek_head r.work_queue ≡ some q
        → is_complete (r.arrays q) ≡ true
        → CrewOk G (take_head G q [] [] s)
    unfolding take_head
    take_one-ok q e head done = record {
      count = omega (arith, one looking e);
      behind = h.behind;
      most = h.most;
      order =
          ap (λ t. s.delivered ++ (q ∷ t)) (to_list-pop_head r.work_queue)
          ∙ ap (λ t. s.delivered ++ t)
              (first-rest q (to_list r.work_queue) (sym (peek_head-first r.work_queue) ∙ head))
          ∙ ap (λ ws. s.delivered ++ (held G ws ++ to_list r.work_queue)) (sym e)
          ∙ h.order;
      awake =
          AwakeAt-running G s.filing (record r { work_queue = pop_head r.work_queue })
            (one looking e).0;
      kept = KeptAt-take G s.filing r q head done h.kept;
      sound = (done, tt);
    }

    pub check_one-ok : (q : Ptr) → s.workers ≡ took q ∷ [] → CrewOk G (check_head G q [] [] s)
    unfolding check_head
    check_one-ok q e =
        let done : is_complete (r.arrays q) ≡ true = (subst (AreSound r.arrays) e h.sound).0 in
        rw ((==_iff r.is_work_running 1).1 (one (took q) e).0, done)
          (record {
            count = omega (arith, one (took q) e);
            behind = h.behind;
            most = h.most;
            order = ap (λ ws. s.delivered ++ (held G ws ++ to_list r.work_queue)) (sym e) ∙ h.order;
            awake = h.awake;
            kept = h.kept;
            sound = tt;
          })

    pub end_one-ok : (q : Ptr) → s.workers ≡ delivering q ∷ [] → CrewOk G (end_delivery G q [] [] s)
    unfolding end_delivery
    end_one-ok q e = record {
      count = omega (arith, one (delivering q) e);
      behind = h.behind;
      most = h.most;
      order =
          append_assoc s.delivered (q ∷ []) (to_list r.work_queue)
          ∙ ap (λ ws. s.delivered ++ (held G ws ++ to_list r.work_queue)) (sym e)
          ∙ h.order;
      awake = h.awake;
      kept = h.kept;
      sound = tt;
    }

    -- A step of a run of `work_thread` is a step of the only run.
    alone-ok :
        (pc : Working) (next : List Working → List Working → Crew G) (before after : List Working)
        → s.workers ≡ before ++ pc ∷ after
        → (s.workers ≡ pc ∷ [] → CrewOk G (next [] []))
        → CrewOk G (next before after)
    alone-ok pc next before after e ok_one =
        let (eb, ea) = only pc before after (subst (λ ws. length ws ≤ 1) e few) in
        rw (eb, ea) (ok_one (rw (eb, ea) at e))

  pub CrewStep-ok : {s s' : Crew G} → CrewStep G s s' → CrewOk G s → CrewOk G s'
  CrewStep-ok {s = s} (searches w d n e) h = search_queue-ok G s h w d n e
  CrewStep-ok {s = s} (opens w d n fresh r e unused made) h =
      store_new-ok G s h w d n fresh r unused made
  CrewStep-ok {s = s} (adds w d n q r e inside made) h = store_more-ok G s h w d n q r made
  CrewStep-ok {s = s} (stops w d n q e why) h = stop-ok G s h w d n q e
  CrewStep-ok {s = s} (wakes e) h = wake_worker-ok G s h
  CrewStep-ok {s = s} (begins more) h = begin-ok s h more
  CrewStep-ok {s = s} (leaves before after e unready) h =
      alone-ok s h looking (λ b a. leave G b a s) before after e
        (λ one. leave_one-ok s h one unready)
  CrewStep-ok {s = s} (takes before after q e head done) h =
      alone-ok s h looking (λ b a. take_head G q b a s) before after e
        (λ one. take_one-ok s h q one head done)
  CrewStep-ok {s = s} (checks before after q e) h =
      alone-ok s h (took q) (λ b a. check_head G q b a s) before after e
        (λ one. check_one-ok s h q one)
  CrewStep-ok {s = s} (ends before after q m m' msg e delivers) h =
      alone-ok s h (delivering q) (λ b a. end_delivery G q b a s) before after e
        (λ one. end_one-ok s h q one)

  pub CrewReach-ok : {s s' : Crew G} → CrewReach G s s' → CrewOk G s → CrewOk G s'
  CrewReach-ok start h = h
  CrewReach-ok (and_then reach step) h = CrewStep-ok step (CrewReach-ok reach h)

  pub crew_of-ok :
      (r : Receiver G) → to_list r.work_queue ≡ [] → r.is_work_running ≡ 0 → CrewOk G (crew_of G r)
  crew_of-ok r queue idle = record {
    count = omega (arith, idle);
    behind = omega arith;
    most = omega (arith, idle);
    order = queue;
    awake = λ q head done. absurd (cc (head, queue));
    kept = tt;
    sound = tt;
  }
