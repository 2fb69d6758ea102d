-- ===== src/Handler/Threads/Order.antt =====
-- What holds in every run of poll_thread and handle_thread of src/rdma_transport.c, and two runs
-- that go wrong.
use spark_rdma_shuffle_engin.Base.{
  ◌≡◌, refl, sym, ap, subst, ◌∙◌, [], ◌∷◌, ◌++◌, append_assoc, ◌==◌, Bool-cases, inl, inr,
}
use spark_rdma_shuffle_engin.Handler.Threads.{
  HandlePc, Loops, LoopStep, LoopReach, started, peeked, push, signal, wait, pop, check, finish,
  held, Fits, LoopsOk, polling, pushed, peeking, saw_empty, waiting, saw, popped, handling, aborted,
  pushes, signals, peeks, waits, wakes, pops, checks, finishes, start, and_then, Fits-push,
  Fits-signalled, Fits-peeked, held-signalled, held-peeked,
}

module _ {B : Type 0} where
  at_pc :
      (s : Loops B) (pc : HandlePc B)
      → LoopsOk s
      → s.handler ≡ pc
      → s.handled ++ (held pc ++ s.handle_queue) ≡ s.polled
  at_pc s pc h e = subst (λ t. s.handled ++ (held t ++ s.handle_queue) ≡ s.polled) e h.order

  push-ok : (b : B) (s : Loops B) → LoopsOk s → LoopsOk (push b s)
  unfolding push
  push-ok b s h = record {
    order =
        ap (λ t. s.handled ++ t) (sym (append_assoc (held s.handler) s.handle_queue (b ∷ [])))
        ∙ sym (append_assoc s.handled (held s.handler ++ s.handle_queue) (b ∷ []))
        ∙ ap (λ t. t ++ b ∷ []) h.order;
    fits = Fits-push s.handler s.handle_queue b h.fits;
  }

  signal-ok : (s : Loops B) → LoopsOk s → LoopsOk (signal s)
  unfolding signal
  signal-ok s h = elim (Bool-cases (s.is_handle_running == 0)) [
    | inl idle ↦ rw idle (record {
      order = ap (λ t. s.handled ++ (t ++ s.handle_queue)) (held-signalled s.handler) ∙ h.order;
      fits = Fits-signalled s.handler s.handle_queue h.fits;
    })
    | inr busy ↦ rw busy (record { order = h.order; fits = h.fits })
  ]

  check-ok : (b : B) (s : Loops B) → LoopsOk s → s.handler ≡ popped b → LoopsOk (check b s)
  unfolding check
  check-ok b s h e = elim (Bool-cases (s.is_handle_running == 1)) [
    | inl running ↦ rw running (record { order = at_pc s (popped b) h e; fits = tt })
    | inr idle ↦ rw idle (record { order = at_pc s (popped b) h e; fits = tt })
  ]

  LoopStep-ok : {s s' : Loops B} → LoopStep s s' → LoopsOk s → LoopsOk s'
  unfolding wait pop finish
  LoopStep-ok {s = s} (pushes b e) h = push-ok b s h
  LoopStep-ok {s = s} (signals e) h = signal-ok s h
  LoopStep-ok {s = s} (peeks e) h = record {
    order =
        ap (λ t. s.handled ++ (t ++ s.handle_queue)) (held-peeked s.handle_queue)
        ∙ at_pc s peeking h e;
    fits = Fits-peeked s.handle_queue;
  }
  LoopStep-ok {s = s} (waits e) h = record { order = at_pc s saw_empty h e; fits = tt }
  LoopStep-ok {s = s} (wakes e) h = record { order = at_pc s waiting h e; fits = tt }
  LoopStep-ok {s = s} (pops b e) h = record {
    order =
        ap (λ t. s.handled ++ t) (sym (subst (λ pc. Fits pc s.handle_queue) e h.fits))
        ∙ at_pc s (saw b) h e;
    fits = tt;
  }
  LoopStep-ok {s = s} (checks b e) h = check-ok b s h e
  LoopStep-ok {s = s} (finishes b e) h = record {
    order = append_assoc s.handled (b ∷ []) s.handle_queue ∙ at_pc s (handling b) h e;
    fits = tt;
  }

  LoopReach-ok : {s : Loops B} → LoopReach s → LoopsOk s
  LoopReach-ok start = record { order = refl; fits = tt }
  LoopReach-ok (and_then r step) = LoopStep-ok step (LoopReach-ok r)

  -- In every run of the two threads, with every interleaving and with wake-ups that no signal
  -- caused, the arrays that are handled, the one in hand and those in the queue are, in this
  -- order, those that were polled: none is lost, handled twice or overtaken.
  pub handled-order :
      {s : Loops B} → LoopReach s → s.handled ++ (held s.handler ++ s.handle_queue) ≡ s.polled
  handled-order r = (LoopReach-ok r).order

  -- The poller pushes, and before its signal the handler peeks, pops and tests the flag.
  abbrev pub early : B → Loops B → Loops B
  early b s = let s1 = push b s in check b (pop b (record s1 { handler = peeked s1.handle_queue }))

  -- In every run, where the poller is at its poll, the handler before its peek, the flag
  -- `is_handle_running` at 0 and the queue empty: if the poller pushes an array, and before its
  -- signal the handler peeks, takes this array and tests the flag, it aborts, while the poller is
  -- still before its signal. These four steps go on with the run, and the start is such a place.
  pub handle_early :
      (s : Loops B) (b : B)
      → LoopReach s
      → s.poller ≡ polling
      → s.handler ≡ peeking
      → s.is_handle_running ≡ 0
      → s.handle_queue ≡ []
      → LoopReach (early b s) × ((early b s).handler ≡ aborted b) × ((early b s).poller ≡ pushed)
  unfolding push pop check
  handle_early s b reach at_poll at_peek idle empty =
      let s1 : Loops B = push b s in
      let s2 : Loops B = record s1 { handler = peeked s1.handle_queue } in
      let s3 : Loops B = pop b s2 in
      (
        and_then
            (and_then (and_then (and_then reach (pushes b at_poll)) (peeks at_peek))
              (pops b (ap (λ q. peeked (q ++ b ∷ [])) empty)))
            (checks b refl),
        rw idle refl,
        refl,
      )

  -- There is a run in which the poller's signal falls between the handler's peek and its wait and
  -- is lost: the array stays in the queue while the handler waits and the poller is back at its
  -- poll.
  pub lost_wakeup :
      (b : B)
      → (s : Loops B) × LoopReach s
        × (s.handler ≡ waiting)
        × (s.poller ≡ polling)
        × (s.handle_queue ≡ b ∷ [])
  unfolding push signal wait
  lost_wakeup b =
      let s1 : Loops B = record started { handler = peeked started.handle_queue } in
      let s2 : Loops B = push b s1 in
      let s3 : Loops B = signal s2 in
      (
        wait s3,
        and_then (and_then (and_then (and_then start (peeks refl)) (pushes b refl)) (signals refl))
            (waits refl),
        refl,
        refl,
        refl,
      )
