-- ===== src/Connect/Create.antt =====
-- rdma_create_connect of src/rdma_transport.c: a transport with its queues, its queue pair and the
-- receive requests that it starts with.
use spark_rdma_shuffle_engin.Base.{
  ℕ, ◌-◌, ◌<◌, ◌≡◌, ◌≢◌, refl, false, List, length, arith, if◌then◌else◌, ◌==◌, ne→==, Outcome, ok,
  abort, ◌>>=◌, Ends, Ends-bind, ℤ, is_negative, done, failed,
}
use spark_rdma_shuffle_engin.Memory.{Ptr, null}
use spark_rdma_shuffle_engin.BufferPool.{Grant, Machine}
use spark_rdma_shuffle_engin.BufferPool.Invariant.{IsPool, Legal, Refuses}
use spark_rdma_shuffle_engin.BufferPool.Get.{supply}
use spark_rdma_shuffle_engin.Transport.{VArray, Verbs, WorkRequest, rdma_transport_recv_with_num}
use spark_rdma_shuffle_engin.Transport.Post.{Posted, recv_with_num-Posted}
use spark_rdma_shuffle_engin.Glib.{GQueue}
use spark_rdma_shuffle_engin.Receiver.{Receiver}
use spark_rdma_shuffle_engin.Handler.Roundtrip.{IsIdle}
use spark_rdma_shuffle_engin.Connect.{QpState, reset, init, Device, modify_qp_to_init}
use spark_rdma_shuffle_engin.Connect.Ready.{Accepts, init-Accepts}

-- MAX_PRE_RECV_QP
abbrev pub max_pre_recv_qp : ℕ
max_pre_recv_qp = 1024

-- What libibverbs returns; the queue pair is the one behind `rc_qp`.
pub record Resources (Qp : Type 0) : Type 0 where
  pub comp_channel : Ptr
  pub cq : Ptr
  pub req_notify : ℤ
  pub rc_qp : Ptr
  pub qp : Qp

-- The transport after the call, and the requests that are posted.
pub record Connection (G : GQueue Ptr) (Qp : Type 0) : Type 0 where
  pub receiver : Receiver G
  pub is_handle_running : ℕ
  pub qp : Qp
  pub posted : List WorkRequest
  pub machine : Machine

module _ (G : GQueue Ptr) {Qp : Type 0} (D : Device Qp) (v : Verbs) (g : Grant) where
  open G use {empty, to_list-empty}

  pub rdma_create_connect :
      Resources Qp → (transport : Ptr) → (Ptr → VArray) → Machine → Outcome (Connection G Qp)
  rdma_create_connect r transport arrays m =
      if transport == null
      then abort
      else if r.comp_channel == null
      then abort
      else if r.cq == null
      then abort
      else if is_negative r.req_notify
      then abort
      else if r.rc_qp == null
      then abort
      else (let (status, qp') = modify_qp_to_init D r.qp in
          elim status [
            | failed ↦ abort
            | done ↦
                rdma_transport_recv_with_num v g transport max_pre_recv_qp m >>= λ (posted, m').
                ok (record {
                  receiver = record {
                    work_queue = empty;
                    arrays = arrays;
                    is_work_running = 0;
                    submitted = 0;
                  };
                  is_handle_running = 0;
                  qp = qp';
                  posted = posted;
                  machine = m';
                })
          ])

  -- The calls that create the resources succeed.
  pub record AreThere (r : Resources Qp) : Type 0 where
    pub comp_channel_there : r.comp_channel ≢ null
    pub cq_there : r.cq ≢ null
    pub notified : is_negative r.req_notify ≡ false
    pub rc_qp_there : r.rc_qp ≢ null

  -- A transport that can start.
  pub record IsStarted (state : Qp → QpState) (r : Resources Qp) (transport : Ptr) (m : Machine)
      (free lent : List Ptr) (c : Connection G Qp) : Type 0 where
    pub idle : IsIdle G c.receiver
    pub at_init : state c.qp ≡ init
    pub from : c.qp ≡ (modify_qp_to_init D r.qp).1
    pub requests :
        Posted v m transport max_pre_recv_qp
          (supply g (max_pre_recv_qp - length free) max_pre_recv_qp free)
          lent
          c.posted
          c.machine

  -- Where the resources are there, the device makes every transition that there is and the queue
  -- pair is in RESET, and with a well-formed pool, an allocator that does not refuse and a queue
  -- pair that accepts, `rdma_create_connect` runs to its end: the transport has no message open
  -- and no worker, its queue pair is in INIT, and 1024 receive requests stand posted over chunks
  -- that leave the free list.
  pub create_connect-IsStarted :
      (state : Qp → QpState) (r : Resources Qp) (transport : Ptr) (arrays : Ptr → VArray)
      (m : Machine) (free lent : List Ptr)
      → transport ≢ null
      → AreThere r
      → Accepts D state
      → state r.qp ≡ reset
      → IsPool m free lent
      → (length free < max_pre_recv_qp → Legal g (max_pre_recv_qp - length free) m free lent)
      → ¬ Refuses g
      → ((wr : WorkRequest) → is_negative (v.post_recv wr) ≡ false)
      → Ends (rdma_create_connect r transport arrays m) (IsStarted state r transport m free lent)
  unfolding rdma_create_connect
  create_connect-IsStarted state r transport arrays m free lent there h accepts at pool legal
        willing takes =
      let (ready, now) = init-Accepts D state r.qp accepts at in
      rw
        (
          ne→== transport null there,
          ne→== r.comp_channel null h.comp_channel_there,
          ne→== r.cq null h.cq_there,
          h.notified,
          ne→== r.rc_qp null h.rc_qp_there,
          ready,
        )
        (Ends-bind _ _ (rdma_transport_recv_with_num v g transport max_pre_recv_qp m) _
          (recv_with_num-Posted v g transport max_pre_recv_qp m free lent pool (omega arith)
            (omega arith) legal willing takes)
          (λ (posted, m') p. record {
            idle = record { queue = to_list-empty; running = refl };
            at_init = now;
            from = refl;
            requests = p;
          }))
