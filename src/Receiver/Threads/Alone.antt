-- ===== src/Receiver/Threads/Alone.antt =====
-- One transport of src/rdma_transport.c has one worker at a time, and its messages keep their order.
use spark_rdma_shuffle_engin.Base.{
  subst, ℕ, ◌+◌, ◌≤◌, ◌≡◌, ◌⊎◌, List, [], ◌∷◌, ◌++◌, some, arith, length, true, mem,
}
use spark_rdma_shuffle_engin.Memory.{Ptr}
use spark_rdma_shuffle_engin.Transport.{VArray, WorkChunk}
use spark_rdma_shuffle_engin.Glib.{GQueue}
use spark_rdma_shuffle_engin.Receiver.{Receiver, is_complete}
use spark_rdma_shuffle_engin.Receiver.Threads.{
  Working, looking, took, delivering, aborted, searched, Crew, held, crew_of, CrewReach,
}
use spark_rdma_shuffle_engin.Receiver.Threads.Sound.{AreSound}
use spark_rdma_shuffle_engin.Receiver.Threads.Invariant.{KeptAt}
use spark_rdma_shuffle_engin.Receiver.Threads.Run.{CrewReach-ok, crew_of-ok}

abbrev pub NoneAborted : List Working → Type 0
NoneAborted [] = Unit
NoneAborted (looking ∷ ws) = NoneAborted ws
NoneAborted (took q ∷ ws) = NoneAborted ws
NoneAborted (delivering q ∷ ws) = NoneAborted ws
NoneAborted (aborted q ∷ ws) = ⊥

AreSound-NoneAborted :
    (arrays : Ptr → VArray) (ws : List Working) → AreSound arrays ws → NoneAborted ws
AreSound-NoneAborted arrays [] h = tt
AreSound-NoneAborted arrays (looking ∷ ws) h = AreSound-NoneAborted arrays ws h
AreSound-NoneAborted arrays (took q ∷ ws) h = AreSound-NoneAborted arrays ws h.1
AreSound-NoneAborted arrays (delivering q ∷ ws) h = AreSound-NoneAborted arrays ws h
AreSound-NoneAborted arrays (aborted q ∷ ws) h = h

module _ (G : GQueue Ptr) where
  open G use {to_list}

  pub record IsAlone (s : Crew G) : Type 0 where
    pub one_worker : s.receiver.submitted + length s.workers ≤ s.begun + 1
    pub begun_submitted : s.begun ≤ s.receiver.submitted
    pub none_aborted : NoneAborted s.workers
    pub order : s.delivered ++ (held G s.workers ++ to_list s.receiver.work_queue) ≡ s.opened
    pub found_kept :
        (w : WorkChunk) (d n : ℕ) (q : Ptr)
        → s.filing ≡ searched w d n (some q)
        → (mem q (to_list s.receiver.work_queue) ≡ true)
          ⊎ (is_complete (s.receiver.arrays q) ≡ true)

  -- Let the handler's thread and the runs of `work_thread` interleave at their critical sections
  -- in any way, from a transport with an empty queue and no worker, with arrays from `calloc`
  -- that are not in use. Then always: at most one run is submitted or going on, and none is begun
  -- that was not submitted; no run has failed the two tests before its delivery, of the flag and
  -- of the length; the arrays delivered, then those that a run holds, then the queue are the
  -- arrays opened, in their order; and an array that the handler has found and not yet filled is
  -- still in the queue, or is complete. A delivery that fails an assertion on its chunks' headers
  -- ends the process, and has no step.
  pub CrewReach-IsAlone :
      (r : Receiver G) (s : Crew G)
      → to_list r.work_queue ≡ []
      → r.is_work_running ≡ 0
      → CrewReach G (crew_of G r) s
      → IsAlone s
  CrewReach-IsAlone r s queue idle reach =
      let h = CrewReach-ok G reach (crew_of-ok G r queue idle) in
      record {
        one_worker = omega (arith, h.count, h.most);
        begun_submitted = h.behind;
        none_aborted = AreSound-NoneAborted s.receiver.arrays s.workers h.sound;
        order = h.order;
        found_kept = λ w d n q e. subst (λ f. KeptAt G f s.receiver) e h.kept;
      }
