-- ===== src/Receiver/Threads/Invariant.antt =====
-- The invariant of the handler's thread and the runs of work_thread of src/rdma_transport.c.
use spark_rdma_shuffle_engin.Base.{
  ℕ, ◌+◌, ◌≤◌, ◌≡◌, ◌⊎◌, inl, inr, sym, subst, ◌∙◌, true, ◌++◌, none, some, arith, length, mem,
}
use spark_rdma_shuffle_engin.Memory.{Ptr}
use spark_rdma_shuffle_engin.Glib.{GQueue}
use spark_rdma_shuffle_engin.Receiver.{Receiver, is_complete}
use spark_rdma_shuffle_engin.Receiver.Wake.{IsAwake}
use spark_rdma_shuffle_engin.Receiver.Threads.{
  Filing, outside, stored, stopped, searched, Crew, held, NoneReady,
}
use spark_rdma_shuffle_engin.Receiver.Threads.Sound.{mem-rest, AreSound}

module _ (G : GQueue Ptr) where
  open G use {
    to_list, push_tail, peek_head, pop_head, find_custom, to_list-push_tail, peek_head-first,
    to_list-pop_head, find_custom-first_such,
  }

  -- The worker is awake except between a store and the wake.
  abbrev pub AwakeAt : Filing → Receiver G → Type 0
  AwakeAt outside r = IsAwake G r
  AwakeAt stored r = Unit
  AwakeAt stopped r = IsAwake G r
  AwakeAt (searched w d n found) r = IsAwake G r

  -- An array that was found is still in the queue, or was complete.
  abbrev pub KeptAt : Filing → Receiver G → Type 0
  KeptAt outside r = Unit
  KeptAt stored r = Unit
  KeptAt stopped r = Unit
  KeptAt (searched w d n none) r = Unit
  KeptAt (searched w d n (some q)) r =
      (mem q (to_list r.work_queue) ≡ true) ⊎ (is_complete (r.arrays q) ≡ true)

  pub record CrewOk (s : Crew G) : Type 0 where
    pub count : s.receiver.submitted + length s.workers ≡ s.begun + s.receiver.is_work_running
    pub behind : s.begun ≤ s.receiver.submitted
    pub most : s.receiver.is_work_running ≤ 1
    pub order : s.delivered ++ (held G s.workers ++ to_list s.receiver.work_queue) ≡ s.opened
    pub awake : AwakeAt s.filing s.receiver
    pub kept : KeptAt s.filing s.receiver
    pub sound : AreSound s.receiver.arrays s.workers

  pub AwakeAt-awake : (f : Filing) (r : Receiver G) → IsAwake G r → AwakeAt f r
  AwakeAt-awake outside r h = h
  AwakeAt-awake stored r h = tt
  AwakeAt-awake stopped r h = h
  AwakeAt-awake (searched w d n found) r h = h

  -- Where the flag is up, the worker is awake whatever the queue holds.
  pub AwakeAt-running : (f : Filing) (r : Receiver G) → r.is_work_running ≡ 1 → AwakeAt f r
  AwakeAt-running f r e = AwakeAt-awake f r (λ q h done. omega (arith, e))

  pub KeptAt-take :
      (f : Filing) (r : Receiver G) (x : Ptr)
      → peek_head r.work_queue ≡ some x
      → is_complete (r.arrays x) ≡ true
      → KeptAt f r
      → KeptAt f (record r { work_queue = pop_head r.work_queue })
  KeptAt-take outside r x e done h = tt
  KeptAt-take stored r x e done h = tt
  KeptAt-take stopped r x e done h = tt
  KeptAt-take (searched w d n none) r x e done h = tt
  KeptAt-take (searched w d n (some q)) r x e done (inr full) = inr full
  KeptAt-take (searched w d n (some q)) r x e done (inl inside) =
      elim (mem-rest q x (to_list r.work_queue) (sym (peek_head-first r.work_queue) ∙ e) inside) [
        | inl same ↦ inr (rw same done)
        | inr later ↦ inl (rw (to_list-pop_head r.work_queue) later)
      ]

  pub KeptAt-flag :
      (f : Filing) (r : Receiver G) (n : ℕ)
      → KeptAt f r
      → KeptAt f (record r { is_work_running = n })
  KeptAt-flag outside r n h = tt
  KeptAt-flag stored r n h = tt
  KeptAt-flag stopped r n h = tt
  KeptAt-flag (searched w d k none) r n h = tt
  KeptAt-flag (searched w d k (some q)) r n h = h

  -- No complete array is in front.
  pub NoneReady-IsAwake :
      (r : Receiver G)
      → NoneReady G r (peek_head r.work_queue)
      → IsAwake G (record r { is_work_running = 0 })
  NoneReady-IsAwake r unready q head done =
      let ready = subst (NoneReady G r) (peek_head-first r.work_queue ∙ head) unready in
      absurd (cc (ready, done))
