-- ===== src/Handler/Threads.antt =====
-- poll_thread and handle_thread of src/rdma_transport.c as two threads: a step is what a thread
-- does under one lock, or between two.
pub mod Order
use spark_rdma_shuffle_engin.Base.{
  ℕ, ◌≡◌, refl, sym, ap, subst, ◌∙◌, Bool, true, false, List, [], ◌∷◌, ◌++◌, append_assoc,
  append-nil, ◌==◌, if◌then◌else◌,
}
use spark_rdma_shuffle_engin.Glib.{rest}

-- Where `poll_thread` is: before a push, or between its push and its signal.
pub data PollPc : Type 0 where
  polling pushed : PollPc

-- Where `handle_thread` is: before the peek, after a peek that found nothing, in
-- `pthread_cond_wait`, after a peek that found an array, after the pop, in the loop over its
-- events, or in the `abort` of the assertion.
pub data HandlePc (B : Type 0) : Type 0 where
  peeking saw_empty waiting : HandlePc B
  saw popped handling aborted : B → HandlePc B

pub record Loops (B : Type 0) : Type 0 where
  pub handle_queue : List B
  pub is_handle_running : ℕ
  pub poller : PollPc
  pub handler : HandlePc B
  pub polled : List B
  pub handled : List B

module _ {B : Type 0} where
  -- After rdma_create_connect.
  abbrev pub started : Loops B
  started = record {
    handle_queue = [];
    is_handle_running = 0;
    poller = polling;
    handler = peeking;
    polled = [];
    handled = [];
  }

  -- `pthread_cond_signal` wakes a thread that waits, and is lost on any other.
  abbrev pub signalled : HandlePc B → HandlePc B
  signalled waiting = peeking
  signalled peeking = peeking
  signalled saw_empty = saw_empty
  signalled (saw b) = saw b
  signalled (popped b) = popped b
  signalled (handling b) = handling b
  signalled (aborted b) = aborted b

  abbrev pub peeked : List B → HandlePc B
  peeked [] = saw_empty
  peeked (b ∷ bs) = saw b

  pub push : B → Loops B → Loops B
  push b s = record s {
    handle_queue = s.handle_queue ++ b ∷ [];
    poller = pushed;
    polled = s.polled ++ b ∷ [];
  }

  pub signal : Loops B → Loops B
  signal s =
      if s.is_handle_running == 0
      then record s { is_handle_running = 1; poller = polling; handler = signalled s.handler }
      else record s { poller = polling }

  pub wait : Loops B → Loops B
  wait s = record s { is_handle_running = 0; handler = waiting }

  pub pop : B → Loops B → Loops B
  pop b s = record s { handle_queue = rest s.handle_queue; handler = popped b }

  pub check : B → Loops B → Loops B
  check b s = record s { handler = if s.is_handle_running == 1 then handling b else aborted b }

  pub finish : B → Loops B → Loops B
  finish b s = record s { handler = peeking; handled = s.handled ++ b ∷ [] }

  -- One step of either thread. A wait may end with no signal.
  pub data LoopStep : Loops B → Loops B → Type 0 where
    pushes : {s : Loops B} (b : B) → s.poller ≡ polling → LoopStep s (push b s)
    signals : {s : Loops B} → s.poller ≡ pushed → LoopStep s (signal s)
    peeks :
        {s : Loops B}
        → s.handler ≡ peeking
        → LoopStep s (record s { handler = peeked s.handle_queue })
    waits : {s : Loops B} → s.handler ≡ saw_empty → LoopStep s (wait s)
    wakes : {s : Loops B} → s.handler ≡ waiting → LoopStep s (record s { handler = peeking })
    pops : {s : Loops B} (b : B) → s.handler ≡ saw b → LoopStep s (pop b s)
    checks : {s : Loops B} (b : B) → s.handler ≡ popped b → LoopStep s (check b s)
    finishes : {s : Loops B} (b : B) → s.handler ≡ handling b → LoopStep s (finish b s)

  pub data LoopReach : Loops B → Type 0 where
    start : LoopReach started
    and_then : {s s' : Loops B} → LoopReach s → LoopStep s s' → LoopReach s'

  -- What the handler has taken and not finished.
  abbrev pub held : HandlePc B → List B
  held peeking = []
  held saw_empty = []
  held waiting = []
  held (saw b) = []
  held (popped b) = b ∷ []
  held (handling b) = b ∷ []
  held (aborted b) = b ∷ []

  -- An array that was seen is still the first.
  abbrev pub Fits : HandlePc B → List B → Type 0
  Fits peeking q = Unit
  Fits saw_empty q = Unit
  Fits waiting q = Unit
  Fits (saw b) q = q ≡ b ∷ rest q
  Fits (popped b) q = Unit
  Fits (handling b) q = Unit
  Fits (aborted b) q = Unit

  pub record LoopsOk (s : Loops B) : Type 0 where
    pub order : s.handled ++ (held s.handler ++ s.handle_queue) ≡ s.polled
    pub fits : Fits s.handler s.handle_queue

  pub Fits-push : (pc : HandlePc B) (q : List B) (b : B) → Fits pc q → Fits pc (q ++ b ∷ [])
  Fits-push peeking q b h = tt
  Fits-push saw_empty q b h = tt
  Fits-push waiting q b h = tt
  Fits-push (saw a) [] b h = cc h
  Fits-push (saw a) (x ∷ q) b h = ap (λ t. t ++ b ∷ []) h
  Fits-push (popped a) q b h = tt
  Fits-push (handling a) q b h = tt
  Fits-push (aborted a) q b h = tt

  pub Fits-signalled : (pc : HandlePc B) (q : List B) → Fits pc q → Fits (signalled pc) q
  Fits-signalled peeking q h = tt
  Fits-signalled saw_empty q h = tt
  Fits-signalled waiting q h = tt
  Fits-signalled (saw a) q h = h
  Fits-signalled (popped a) q h = tt
  Fits-signalled (handling a) q h = tt
  Fits-signalled (aborted a) q h = tt

  pub held-signalled : (pc : HandlePc B) → held (signalled pc) ≡ held pc
  held-signalled peeking = refl
  held-signalled saw_empty = refl
  held-signalled waiting = refl
  held-signalled (saw a) = refl
  held-signalled (popped a) = refl
  held-signalled (handling a) = refl
  held-signalled (aborted a) = refl

  pub Fits-peeked : (q : List B) → Fits (peeked q) q
  Fits-peeked [] = tt
  Fits-peeked (b ∷ q) = refl

  pub held-peeked : (q : List B) → held (peeked q) ≡ []
  held-peeked [] = refl
  held-peeked (b ∷ q) = refl
