-- ===== src/Receiver/Threads.antt =====
-- handle_recv_event and work_thread of src/rdma_transport.c as threads: a step is what a thread
-- does under work_queue_lock, or between two of its critical sections.
pub mod Sound
pub mod Invariant
pub mod Steps
pub mod Run
pub mod Alone
pub mod Serve
use spark_rdma_shuffle_engin.Base.{
  ℕ, suc, ◌<◌, ◌≡◌, ◌⊎◌, Bool, true, false, ◌&&◌, List, [], ◌∷◌, ◌++◌, Option, none, some, ◌==◌,
  if◌then◌else◌, mem, Outcome, ok, abort,
}
use spark_rdma_shuffle_engin.Memory.{Ptr}
use spark_rdma_shuffle_engin.Transport.{WorkChunk}
use spark_rdma_shuffle_engin.Glib.{GQueue}
use spark_rdma_shuffle_engin.BufferPool.{Machine}
use spark_rdma_shuffle_engin.Receiver.{
  Message, deliver, Receiver, same_id, new_array, add_chunk, wake, is_complete,
}

-- Where the handler's thread is: outside `handle_recv_event`, after the search, after the chunk is
-- stored and before the worker is woken, or in an `abort`.
pub data Filing : Type 0 where
  outside stored stopped : Filing
  searched : (w : WorkChunk) (data_id chunk_num : ℕ) (found : Option Ptr) → Filing

-- Where a run of `work_thread` is: before its look at the queue, after it took an array, in the
-- delivery, or in the `abort` of its checks.
pub data Working : Type 0 where
  looking : Working
  took delivering aborted : Ptr → Working

module _ (G : GQueue Ptr) where
  open G use {to_list, peek_head, pop_head, find_custom}

  -- A transport, the thread that files its chunks, the runs of `work_thread` that the pool of
  -- threads has begun and that go on, the number of those begun, and the arrays that were put in
  -- the queue and delivered.
  pub record Crew : Type 0 where
    pub receiver : Receiver G
    pub filing : Filing
    pub begun : ℕ
    pub workers : List Working
    pub opened : List Ptr
    pub delivered : List Ptr

  -- What a run has taken and not delivered.
  abbrev pub held : List Working → List Ptr
  held [] = []
  held (looking ∷ ws) = held ws
  held (took q ∷ ws) = q ∷ held ws
  held (delivering q ∷ ws) = q ∷ held ws
  held (aborted q ∷ ws) = q ∷ held ws

  -- The handler's three critical sections, and what is between them.
  unfoldable pub search_queue : WorkChunk → (data_id chunk_num : ℕ) → Crew → Crew
  unfolding same_id
  search_queue w d n s = record s {
    filing = searched w d n (find_custom s.receiver.work_queue (same_id G s.receiver d));
  }

  unfoldable pub store_new : Ptr → Receiver G → Crew → Crew
  store_new fresh r s = record s { receiver = r; filing = stored; opened = s.opened ++ fresh ∷ [] }

  pub store_more : Receiver G → Crew → Crew
  store_more r s = record s { receiver = r; filing = stored }

  unfoldable pub wake_worker : Crew → Crew
  unfolding wake
  wake_worker s = record s { receiver = wake G s.receiver; filing = outside }

  -- The pool of threads begins a run that was submitted.
  unfoldable pub begin : Crew → Crew
  begin s = record s { begun = suc s.begun; workers = looking ∷ s.workers }

  -- A run finds no complete array in front, and ends.
  pub leave : (before after : List Working) → Crew → Crew
  leave before after s = record s {
    receiver = record s.receiver { is_work_running = 0 };
    workers = before ++ after;
  }

  unfoldable pub take_head : Ptr → (before after : List Working) → Crew → Crew
  take_head q before after s = record s {
    receiver = record s.receiver { work_queue = pop_head s.receiver.work_queue };
    workers = before ++ took q ∷ after;
  }

  -- The assertion and the second test of the length, outside the lock.
  pub check_head : Ptr → (before after : List Working) → Crew → Crew
  check_head q before after s =
      let good = (s.receiver.is_work_running == 1) && is_complete (s.receiver.arrays q) in
      record s { workers = before ++ (if good then delivering q else aborted q) ∷ after }

  -- The delivery, where it ends well.
  pub end_delivery : Ptr → (before after : List Working) → Crew → Crew
  end_delivery q before after s = record s {
    workers = before ++ looking ∷ after;
    delivered = s.delivered ++ q ∷ [];
  }

  -- The front of the queue is no complete array.
  abbrev pub NoneReady : Receiver G → Option Ptr → Type 0
  NoneReady r none = Unit
  NoneReady r (some q) = is_complete (r.arrays q) ≡ false

  -- One step of one thread. An array from `calloc` is none of those in use; one that a run has
  -- taken is freed in the end, so that a chunk for it is an access to freed memory. A delivery finds
  -- some contents of the chunks and some pool; where it fails an assertion on the headers it ends
  -- the process, and has no step.
  pub data CrewStep : Crew → Crew → Type 0 where
    searches :
        {s : Crew} (w : WorkChunk) (d n : ℕ)
        → s.filing ≡ outside
        → CrewStep s (search_queue w d n s)
    opens :
        {s : Crew} (w : WorkChunk) (d n : ℕ) (fresh : Ptr) (r : Receiver G)
        → s.filing ≡ searched w d n none
        → mem fresh (held s.workers ++ to_list s.receiver.work_queue) ≡ false
        → new_array G fresh n w d s.receiver ≡ ok r
        → CrewStep s (store_new fresh r s)
    adds :
        {s : Crew} (w : WorkChunk) (d n : ℕ) (q : Ptr) (r : Receiver G)
        → s.filing ≡ searched w d n (some q)
        → mem q (to_list s.receiver.work_queue) ≡ true
        → add_chunk G q w d s.receiver ≡ ok r
        → CrewStep s (store_more r s)
    stops :
        {s : Crew} (w : WorkChunk) (d n : ℕ) (q : Ptr)
        → s.filing ≡ searched w d n (some q)
        → (mem q (to_list s.receiver.work_queue) ≡ false) ⊎ (add_chunk G q w d s.receiver ≡ abort)
        → CrewStep s (record s { filing = stopped })
    wakes : {s : Crew} → s.filing ≡ stored → CrewStep s (wake_worker s)
    begins : {s : Crew} → s.begun < s.receiver.submitted → CrewStep s (begin s)
    leaves :
        {s : Crew} (before after : List Working)
        → s.workers ≡ before ++ looking ∷ after
        → NoneReady s.receiver (peek_head s.receiver.work_queue)
        → CrewStep s (leave before after s)
    takes :
        {s : Crew} (before after : List Working) (q : Ptr)
        → s.workers ≡ before ++ looking ∷ after
        → peek_head s.receiver.work_queue ≡ some q
        → is_complete (s.receiver.arrays q) ≡ true
        → CrewStep s (take_head q before after s)
    checks :
        {s : Crew} (before after : List Working) (q : Ptr)
        → s.workers ≡ before ++ took q ∷ after
        → CrewStep s (check_head q before after s)
    ends :
        {s : Crew} (before after : List Working) (q : Ptr) (m m' : Machine) (msg : Message)
        → s.workers ≡ before ++ delivering q ∷ after
        → deliver (s.receiver.arrays q) m ≡ ok (msg, m')
        → CrewStep s (end_delivery q before after s)

  -- A transport that was just created.
  abbrev pub crew_of : Receiver G → Crew
  crew_of r = record {
    receiver = r;
    filing = outside;
    begun = r.submitted;
    workers = [];
    opened = [];
    delivered = [];
  }

  pub data CrewReach (s : Crew) : Crew → Type 0 where
    start : CrewReach s s
    and_then : {s' s2 : Crew} → CrewReach s s' → CrewStep s' s2 → CrewReach s s2
