-- ===== src/Server.antt =====
-- The life of a server: init_server and destroy_server of src/rdma_transport_server.c, with
-- rdma_context_init and rdma_context_destroy of src/rdma_utils.c and rdma_shutdown_connect of
-- src/rdma_transport.c.
pub mod Calls
pub mod Destroy
pub mod Start
use spark_rdma_shuffle_engin.Base.{
  ℕ, ◌<◌, Bool, true, false, List, [], ◌∷◌, ◌++◌, Option, none, some, ltb, ◌==◌, if◌then◌else◌,
  Outcome, ok, abort, ◌>>=◌, ℤ, is_negative, Status, done, failed,
}
use spark_rdma_shuffle_engin.Memory.{Ptr, null, Store}
use spark_rdma_shuffle_engin.BufferPool.{
  Grant, Machine, LinkNode, Freed, dereg_mr, free_buffer, init_rdma_buffer_pool,
  destroy_rdma_buffer_pool,
}
use spark_rdma_shuffle_engin.Peers.{Text, ib_server_port}
use spark_rdma_shuffle_engin.Server.Calls.{
  devices, pool, Call, makes, frees, signals, device, pd, mr, buffer, channel, cq, qp, queue,
  transport,
}

-- What the calls of a start return: `calloc`, `ibv_get_device_list` and its first entry,
-- `ibv_open_device`, `ibv_alloc_pd`, `malloc`, those of the pool, how a host's name resolves, and
-- those on the socket, `bind` by its port.
pub record Boot : Type 0 where
  pub context : Ptr
  pub dev_list : Ptr
  pub ib_dev : Ptr
  pub ibv_context : Ptr
  pub pd : Ptr
  pub rbp : Ptr
  pub grant : Grant
  pub store : Store
  pub resolve : Text → Option Text
  pub socket : ℤ
  pub setsockopt : ℤ
  pub bind : ℕ → ℤ
  pub listen : ℤ

-- `struct rdma_context` without its tables, the list of devices that `rdma_context_init` asked for,
-- and the memory of chunks.
pub record Server : Type 0 where
  pub dev_list : Ptr
  pub ibv_context : Ptr
  pub pd : Ptr
  pub rbp : Ptr
  pub machine : Machine

-- The calls that made a buffer of the pool.
abbrev pub node_calls : (pd : Ptr) → LinkNode → List Call
node_calls p n = makes buffer n.buffer [] ∷ makes mr n.mr (n.buffer ∷ p ∷ []) ∷ []

abbrev pub nodes_calls : (pd : Ptr) → List LinkNode → List Call
nodes_calls p [] = []
nodes_calls p (n ∷ ns) = nodes_calls p ns ++ node_calls p n

-- The end of `rdma_context_init`.
abbrev pub pool_made : Boot → Status × Machine → Outcome (Server × List Call)
pool_made b (failed, m) = abort
pool_made b (done, m) = ok (
  record {
    dev_list = b.dev_list;
    ibv_context = b.ibv_context;
    pd = b.pd;
    rbp = b.rbp;
    machine = m;
  },
  makes devices b.dev_list []
      ∷ makes device b.ibv_context []
      ∷ makes pd b.pd (b.ibv_context ∷ [])
      ∷ makes pool b.rbp []
      ∷ nodes_calls b.pd m.pool.link_head,
)

unfoldable pub rdma_context_init : Boot → Outcome (Server × List Call)
rdma_context_init b =
    if b.context == null
    then abort
    else if b.dev_list == null
    then abort
    else if b.ib_dev == null
    then abort
    else if b.ibv_context == null
    then abort
    else if b.pd == null
    then abort
    else if b.rbp == null
    then abort
    else (init_rdma_buffer_pool b.grant b.pd b.store >>= pool_made b)

pub set_ip_from_host : Boot → (host : Text) → Outcome Text
set_ip_from_host b host = elim (b.resolve host) [ none ↦ abort | some ip ↦ ok ip ]

-- What `accept_thread` is started with.
pub record AcceptThreadArg : Type 0 where
  pub sfd : ℤ
  pub ip_str : Text
  pub port : ℕ

-- `none` is -1.
unfoldable pub init_server_socket :
    Boot → (host : Text) (port : ℕ) → Outcome (Option AcceptThreadArg)
unfolding set_ip_from_host
init_server_socket b host port =
    let port' = if port == 0 then ib_server_port else port in
    set_ip_from_host b host >>= λ ip_str.
    if is_negative b.socket
    then ok none
    else if is_negative b.setsockopt
    then ok none
    else if is_negative (b.bind port')
    then ok none
    else if is_negative b.listen
    then ok none
    else ok (some (record { sfd = b.socket; ip_str = ip_str; port = port' }))

-- A server with its listening socket, and the calls that made its resources.
abbrev pub Started : Type 0
Started = AcceptThreadArg × Server × List Call

abbrev pub served : Server × List Call → Option AcceptThreadArg → Outcome Started
served made none = abort
served (s, calls) (some arg) = ok (arg, s, calls)

unfoldable pub init_server : Boot → (host : Text) (port : ℕ) → Outcome Started
unfolding rdma_context_init init_server_socket
init_server b host port =
    rdma_context_init b >>= λ made. init_server_socket b host port >>= served made

-- A transport as `destroy_server` finds it in the table, with the result of `ibv_destroy_qp`.
pub record HeldTransport : Type 0 where
  pub address : Ptr
  pub poll_pid : ℕ
  pub handle_pid : ℕ
  pub work_queue : Ptr
  pub handle_queue : Ptr
  pub rc_qp : Ptr
  pub cq : Ptr
  pub comp_channel : Ptr
  pub destroyed : ℤ

pub rdma_shutdown_connect : HeldTransport → Outcome (List Call)
rdma_shutdown_connect t =
    let poll = if ltb 0 t.poll_pid then signals t.poll_pid ∷ [] else [] in
    let handle =
      if ltb 0 t.handle_pid then frees queue t.work_queue ∷ signals t.handle_pid ∷ [] else [] in
    if t.rc_qp == null
    then abort
    else if is_negative t.destroyed
    then abort
    else if t.cq == null
    then abort
    else if t.comp_channel == null
    then abort
    else ok (
        poll
        ++ (handle
            ++ frees qp t.rc_qp
              ∷ frees cq t.cq
              ∷ frees channel t.comp_channel
              ∷ frees transport t.address
              ∷ []))

-- `g_hash_table_foreach` with `shutdown_connect`, in the order in which it visits the transports.
pub shutdown_all : List HeldTransport → Outcome (List Call)
unfolding rdma_shutdown_connect
shutdown_all [] = ok []
shutdown_all (t ∷ ts) = rdma_shutdown_connect t >>= λ cs. shutdown_all ts >>= λ ds. ok (cs ++ ds)

abbrev pub freed_calls : List Freed → List Call
freed_calls [] = []
freed_calls (dereg_mr a ∷ fs) = frees mr a ∷ freed_calls fs
freed_calls (free_buffer a ∷ fs) = frees buffer a ∷ freed_calls fs

pub rdma_context_destroy : Server → Outcome (List Call)
unfolding destroy_rdma_buffer_pool
rdma_context_destroy s =
    if s.pd == null
    then abort
    else if s.ibv_context == null
    then abort
    else ok (
        freed_calls (destroy_rdma_buffer_pool s.machine).0
        ++ frees pd s.pd ∷ frees device s.ibv_context ∷ [])

pub destroy_server : List HeldTransport → Server → Outcome (List Call)
unfolding shutdown_all rdma_context_destroy
destroy_server visited s =
    shutdown_all visited >>= λ cs. rdma_context_destroy s >>= λ ds. ok (cs ++ ds)
