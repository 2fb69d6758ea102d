-- ===== src/Peers.antt =====
-- get_transport_from_ip and connect_server of src/rdma_transport_client.c, and the loop of
-- accept_thread of src/rdma_transport_server.c, each run by one thread: the transport to a host,
-- made and connected when there is none.
pub mod Contact
pub mod Accept
pub mod Meet
pub mod Threads
use spark_rdma_shuffle_engin.Base.{
  ℕ, true, false, List, Option, none, some, length, leb, ◌==◌, if◌then◌else◌, Outcome, ok, fault,
  abort, ◌>>=◌, ℤ, is_negative, Status, done, failed,
}
use spark_rdma_shuffle_engin.Memory.{Ptr, null}
use spark_rdma_shuffle_engin.BufferPool.{Grant, Machine}
use spark_rdma_shuffle_engin.Transport.{VArray, Verbs}
use spark_rdma_shuffle_engin.Glib.{GQueue, GHashTable}
use spark_rdma_shuffle_engin.Connect.{QpAttr, Link, Device, exchange_info, rdma_complete_connect}
use spark_rdma_shuffle_engin.Connect.Create.{Resources, Connection, rdma_create_connect}

-- The characters of a host name and of an address in text.
abbrev pub Text : Type 0
Text = List ℕ

-- IB_SERVER_PORT
abbrev pub ib_server_port : ℕ
ib_server_port = 6789

-- IP_CHAR_SIZE
abbrev pub ip_char_size : ℕ
ip_char_size = 20

-- What the calls find on the way to a host: how its name resolves, what set_local_ip finds, none
-- where it aborts, the results of `socket` and, by port and address, of `connect`, the connected socket, and a structure that is not initialised.
pub record Way : Type 0 where
  pub resolve : Text → Option Text
  pub local_ip : Option Text
  pub socket : ℤ
  pub connect : (port : ℕ) (address : Text) → ℤ
  pub link : Link
  pub tmp : QpAttr

pub set_local_ip : Way → Outcome Text
set_local_ip w = elim w.local_ip [ none ↦ abort | some ip ↦ ok ip ]

module _ (G : GQueue Ptr) {Qp : Type 0} (D : Device Qp) (v : Verbs) (g : Grant) (qp_num : Qp → ℕ)
    (T : GHashTable Text Ptr) (H : GHashTable Text Text) where
  -- `struct rdma_transport`; `connection` is what rdma_create_connect makes, none while `rc_qp` is
  -- NULL.
  pub record Peer : Type 0 where
    pub connection : Option (Connection G Qp)
    pub local : QpAttr
    pub remote : QpAttr
    pub is_ready : ℕ
    pub data_id : ℕ

  -- `hash_table` compares its keys by g_str_hash and g_int64_equal, `host2ipstr` by content; what
  -- each takes for one key is the `equal` of its interface.
  -- `struct rdma_context`, the transports that its table points to, and the memory of chunks.
  pub record Context : Type 0 where
    pub hash_table : T.Table
    pub host2ipstr : H.Table
    pub peers : Ptr → Peer
    pub machine : Machine

  abbrev pub update_peer : (Ptr → Peer) → Ptr → Peer → Ptr → Peer
  update_peer peers p a q = if p == q then a else peers q

  -- The address of a host: cached, or resolved and cached. The name is copied into IP_CHAR_SIZE
  -- bytes.
  pub find_ip : Way → Text → Context → Outcome (Text × Context)
  find_ip w host ctx = elim (H.lookup ctx.host2ipstr host) [
    | some ip ↦ ok (ip, ctx)
    | none ↦ if leb ip_char_size (length host) then fault else elim (w.resolve host) [
      | none ↦ abort
      | some ip ↦
          let t = H.insert ctx.host2ipstr host ip in
          elim (H.lookup t host) [
            | none ↦ abort
            | some found ↦ ok (found, record ctx { host2ipstr = t })
          ]
    ]
  ]

  -- `connect_server` on a transport whose queue pair is there.
  pub connect_server : Way → (ip : Text) (port : ℕ) → Connection G Qp → Peer → Status × Peer
  connect_server w ip port c client =
      let port' = if port == 0 then ib_server_port else port in
      let x = exchange_info w.link (qp_num c.qp) true w.tmp client.remote in
      if is_negative w.socket
      then (failed, client)
      else if is_negative (w.connect port' ip)
      then (failed, client)
      else (x.status, record client { local = x.local; remote = x.remote })

  -- The transport right after `calloc`.
  abbrev pub new_peer : QpAttr → Peer
  new_peer zeros = record {
    connection = none;
    local = zeros;
    remote = zeros;
    is_ready = 0;
    data_id = 0;
  }

  abbrev pub zero_attr : QpAttr
  zero_attr = record { lid = 0; qpn = 0; psn = 0 }

  -- A failed connect aborts.
  abbrev pub connected : Status × Peer → Outcome Peer
  connected (done, client) = ok client
  connected (failed, client) = abort

  -- The branch in which there is no transport to the address. `fresh` is what `calloc` returns.
  pub add_peer :
      Way
      → Resources Qp
      → (Ptr → VArray)
      → (fresh : Ptr) → (ip : Text) (port : ℕ) → Context
      → Outcome (Option Ptr × Context)
  unfolding set_local_ip
  add_peer w r arrays fresh ip port ctx =
      if fresh == null
      then fault
      else (set_local_ip w >>= λ local_ip.
          rdma_create_connect G D v g r fresh arrays ctx.machine >>= λ c.
          connected (connect_server w ip port c (new_peer zero_attr)) >>= λ client.
          rdma_complete_connect D c.qp client.local client.remote >>= λ qp. ok (
            some fresh,
            record ctx {
              hash_table = T.insert ctx.hash_table ip fresh;
              peers =
                  update_peer ctx.peers fresh
                    (record client { connection = some (record c { qp = qp }); is_ready = 1 });
              machine = c.machine;
            },
          ))

  -- `none` is the loop that waits for another thread to connect the transport.
  pub get_transport_from_ip :
      Way
      → Resources Qp
      → (Ptr → VArray)
      → (fresh : Ptr) → (host : Text) (port : ℕ) → Context
      → Outcome (Option Ptr × Context)
  unfolding find_ip add_peer
  get_transport_from_ip w r arrays fresh host port ctx = find_ip w host ctx >>= λ (ip, ctx').
      elim (T.lookup ctx'.hash_table ip) [
        | none ↦ add_peer w r arrays fresh ip port ctx'
        | some p ↦
            if (ctx'.peers p).is_ready == 0
            then ok (none, ctx')
            else if (ctx'.peers p).is_ready == 1
            then ok (some p, ctx')
            else abort
      ]

  -- The queue pair of an accepted connection, made if `rc_qp` is NULL.
  pub find_connection :
      Resources Qp → (Ptr → VArray) → Ptr → Context → Outcome (Connection G Qp × Machine)
  find_connection r arrays p ctx = elim (ctx.peers p).connection [
    | some c ↦ ok (c, ctx.machine)
    | none ↦ rdma_create_connect G D v g r p arrays ctx.machine >>= λ c. ok (c, c.machine)
  ]

  -- The rest of a round of `accept_thread`: the exchange, and the connection if there is none yet.
  pub serve_peer : Way → Resources Qp → (Ptr → VArray) → Ptr → Context → Outcome Context
  unfolding find_connection
  serve_peer w r arrays p ctx = find_connection r arrays p ctx >>= λ (c, m).
      let x = exchange_info w.link (qp_num c.qp) false w.tmp (ctx.peers p).remote in
      let now = record (ctx.peers p) { connection = some c; local = x.local; remote = x.remote } in
      connected (x.status, now) >>= λ server.
      (if server.is_ready == 0
        then (rdma_complete_connect D c.qp server.local server.remote >>= λ qp.
            ok (record server { connection = some (record c { qp = qp }); is_ready = 1 }))
        else ok server)
      >>= λ server'. ok (record ctx { peers = update_peer ctx.peers p server'; machine = m })

  -- One round of `accept_thread`, for a connection from the address `ip`.
  pub accept_peer :
      Way → Resources Qp → (Ptr → VArray) → (fresh : Ptr) → (ip : Text) → Context → Outcome Context
  unfolding serve_peer
  accept_peer w r arrays fresh ip ctx = elim (T.lookup ctx.hash_table ip) [
    | some p ↦ serve_peer w r arrays p ctx
    | none ↦
        if fresh == null
        then fault
        else serve_peer w r arrays fresh (record ctx {
          hash_table = T.insert ctx.hash_table ip fresh;
          peers = update_peer ctx.peers fresh (new_peer zero_attr);
        })
  ]
