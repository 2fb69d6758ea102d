-- ===== src/Handler/Completions.antt =====
-- poll_thread of src/rdma_transport.c and the completion queue of its transport: a step is a call
-- of libibverbs, or a completion that arrives.
pub mod Drain
use spark_rdma_shuffle_engin.Base.{
  ℕ, ◌+◌, ◌-◌, ◌<◌, ◌≡◌, Bool, true, false, List, [], ◌∷◌, ◌++◌, if◌then◌else◌, take, drop, length,
}

-- MAX_EVENT_PER_POLL
abbrev pub max_event_per_poll : ℕ
max_event_per_poll = 128

-- Where `poll_thread` is: in `ibv_get_cq_event`, between it and `ibv_req_notify_cq`, before
-- `ibv_poll_cq`, or with an array of completions that it has not yet pushed.
pub data Polling (B : Type 0) : Type 0 where
  blocked notified polling : Polling B
  filled : List B → Polling B

-- The queue with what libibverbs keeps of it: whether it is armed, and the events that wait on its
-- channel; the completions that have arrived, and the arrays that were pushed.
pub record CompletionQueue (B : Type 0) : Type 0 where
  pub entries : List B
  pub is_armed : Bool
  pub events : ℕ
  pub thread : Polling B
  pub arrived : List B
  pub pushed : List (List B)

module _ {B : Type 0} where
  -- rdma_create_connect arms the queue before it starts the thread.
  abbrev pub armed_queue : CompletionQueue B
  armed_queue = record {
    entries = [];
    is_armed = true;
    events = 0;
    thread = blocked;
    arrived = [];
    pushed = [];
  }

  -- A completion makes one event, if the queue is armed, and disarms it.
  abbrev pub arrive : B → CompletionQueue B → CompletionQueue B
  arrive b q = record q {
    entries = q.entries ++ b ∷ [];
    is_armed = false;
    events = q.events + (if q.is_armed then 1 else 0);
    arrived = q.arrived ++ b ∷ [];
  }

  -- `ibv_get_cq_event` and `ibv_ack_cq_events`
  unfoldable pub get_event : CompletionQueue B → CompletionQueue B
  get_event q = record q { events = q.events - 1; thread = notified }

  -- `ibv_req_notify_cq`
  unfoldable pub req_notify : CompletionQueue B → CompletionQueue B
  req_notify q = record q { is_armed = true; thread = polling }

  -- What the thread does with the result of `ibv_poll_cq`: an empty array ends the inner loop.
  abbrev pub after_poll : List B → Polling B
  after_poll [] = blocked
  after_poll (b ∷ bs) = filled (b ∷ bs)

  -- `ibv_poll_cq` of at most MAX_EVENT_PER_POLL completions
  unfoldable pub poll_cq : CompletionQueue B → CompletionQueue B
  poll_cq q = record q {
    entries = drop max_event_per_poll q.entries;
    thread = after_poll (take max_event_per_poll q.entries);
  }

  unfoldable pub push_array : List B → CompletionQueue B → CompletionQueue B
  push_array bs q = record q { thread = polling; pushed = q.pushed ++ bs ∷ [] }

  pub data PollStep : CompletionQueue B → CompletionQueue B → Type 0 where
    arrives : {q : CompletionQueue B} (b : B) → PollStep q (arrive b q)
    gets : {q : CompletionQueue B} → q.thread ≡ blocked → 0 < q.events → PollStep q (get_event q)
    arms : {q : CompletionQueue B} → q.thread ≡ notified → PollStep q (req_notify q)
    polls : {q : CompletionQueue B} → q.thread ≡ polling → PollStep q (poll_cq q)
    pushes :
        {q : CompletionQueue B} (bs : List B) → q.thread ≡ filled bs → PollStep q (push_array bs q)

  pub data PollReach : CompletionQueue B → Type 0 where
    start : PollReach armed_queue
    and_then : {q q' : CompletionQueue B} → PollReach q → PollStep q q' → PollReach q'

  abbrev pub concat : List (List B) → List B
  concat [] = []
  concat (bs ∷ bss) = bs ++ concat bss

  -- The completions of an array that is not yet pushed.
  abbrev pub unpushed : Polling B → List B
  unpushed blocked = []
  unpushed notified = []
  unpushed polling = []
  unpushed (filled bs) = bs
