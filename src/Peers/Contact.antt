-- ===== src/Peers/Contact.antt =====
-- The contract of get_transport_from_ip of src/rdma_transport_client.c: one transport for each
-- address, connected when it is returned.
use spark_rdma_shuffle_engin.Base.{
  ℕ, ◌-◌, ◌<◌, ◌≡◌, ◌≢◌, refl, sym, ap, subst, ◌∙◌, ◌⊎◌, inl, inr, false, List, Option, none, some,
  length, leb, ==_iff, ne→==, arith, Ends, Ends-bind, Ends-mono, Ends-self, ok, is_negative, done,
}
use spark_rdma_shuffle_engin.Memory.{Ptr, null}
use spark_rdma_shuffle_engin.BufferPool.{Grant, Machine}
use spark_rdma_shuffle_engin.BufferPool.Invariant.{IsPool, Legal, Refuses}
use spark_rdma_shuffle_engin.Transport.{VArray, Verbs, WorkRequest}
use spark_rdma_shuffle_engin.Glib.{GQueue, GHashTable}
use spark_rdma_shuffle_engin.Handler.Roundtrip.{IsIdle}
use spark_rdma_shuffle_engin.Connect.{
  QpAttr, Link, QpState, Device, reset, rts, to_network, from_network, local_attr,
  modify_qp_to_init, rdma_complete_connect,
}
use spark_rdma_shuffle_engin.Connect.Exchange.{exchange_info-client}
use spark_rdma_shuffle_engin.Connect.Ready.{Accepts, complete_connect-rts}
use spark_rdma_shuffle_engin.Connect.Create.{
  Resources, Connection, AreThere, max_pre_recv_qp, rdma_create_connect, create_connect-IsStarted,
}
use spark_rdma_shuffle_engin.Peers.{
  Text, Way, Peer, Context, find_ip, connect_server, add_peer, get_transport_from_ip, ip_char_size,
  set_local_ip, new_peer, zero_attr,
}

lt→leb : (a b : ℕ) → a < b → leb b a ≡ false
lt→leb a b h = ground arith

module _ (G : GQueue Ptr) {Qp : Type 0} (D : Device Qp) (v : Verbs) (g : Grant) (qp_num : Qp → ℕ)
    (T : GHashTable Text Ptr) (H : GHashTable Text Text) where
  -- The host is cached, or its name is short enough and resolves.
  abbrev pub Resolves : Way → Context G D v g qp_num T H → Text → Text → Type 0
  Resolves w ctx host ip =
      (H.lookup ctx.host2ipstr host ≡ some ip)
      ⊎ ((H.lookup ctx.host2ipstr host ≡ none)
          × (length host < ip_char_size)
          × (w.resolve host ≡ some ip))

  -- The name of this host resolves.
  abbrev pub Knows : Way → Type 0
  Knows w = (own : Text) × (w.local_ip ≡ some own)

  -- Only the cache of addresses may differ.
  pub record Cached (host ip : Text) (ctx ctx' : Context G D v g qp_num T H) : Type 0 where
    pub cached : H.lookup ctx'.host2ipstr host ≡ some ip
    pub same_table : ctx'.hash_table ≡ ctx.hash_table
    pub same_peers : ctx'.peers ≡ ctx.peers
    pub same_machine : ctx'.machine ≡ ctx.machine

  find_ip-Cached :
      (w : Way) (host ip : Text) (ctx : Context G D v g qp_num T H)
      → Resolves w ctx host ip
      → Ends
          (find_ip G D v g qp_num T H w host ctx)
          (λ (ip', ctx'). (ip' ≡ ip) × Cached host ip ctx ctx')
  unfolding find_ip
  find_ip-Cached w host ip ctx (inl known) =
      rw (Ends, known, find_ip)
        (refl, record { cached = known; same_table = refl; same_peers = refl; same_machine = refl })
  find_ip-Cached w host ip ctx (inr (new, short, resolved)) =
      let t : H.Table = H.insert ctx.host2ipstr host ip in
      let found : H.lookup t host ≡ some ip = H.lookup-insert ctx.host2ipstr host ip in
      let fits : leb ip_char_size (length host) ≡ false = lt→leb (length host) ip_char_size short in
      rw (Ends, new, find_ip, fits, resolved, found)
        (refl, record { cached = found; same_table = refl; same_peers = refl; same_machine = refl })

  -- Where the host is cached or its name of less than 20 characters resolves, and there is a
  -- ready transport to its address, `get_transport_from_ip` returns this transport and connects
  -- nothing: only the cache of addresses may change, and then has the host's.
  pub get_transport-known :
      (w : Way) (r : Resources Qp) (arrays : Ptr → VArray) (fresh p : Ptr) (host ip : Text)
      (port : ℕ) (ctx : Context G D v g qp_num T H)
      → Resolves w ctx host ip
      → T.lookup ctx.hash_table ip ≡ some p
      → (ctx.peers p).is_ready ≡ 1
      → Ends
          (get_transport_from_ip G D v g qp_num T H w r arrays fresh host port ctx)
          (λ (o, ctx'). (o ≡ some p) × Cached host ip ctx ctx')
  unfolding get_transport_from_ip
  get_transport-known w r arrays fresh p host ip port ctx resolves there ready =
      Ends-bind _ _ (find_ip G D v g qp_num T H w host ctx) _
        (find_ip-Cached w host ip ctx resolves)
        (λ (ip', ctx') (same, c).
          let here : T.lookup ctx'.hash_table ip' ≡ some p =
            ap (λ k. T.lookup ctx'.hash_table k) same
            ∙ ap (λ t. T.lookup t ip) c.same_table
            ∙ there in
          let now : (ctx'.peers p).is_ready ≡ 1 =
            ap (λ (f : Ptr → Peer G D v g qp_num T H). (f p).is_ready) c.same_peers ∙ ready in
          rw (Ends, here, get_transport_from_ip, now) (refl, c))

  -- A pool that can serve the receive requests of a new transport.
  pub record CanStart (m : Machine) (free lent : List Ptr) : Type 0 where
    pub pool : IsPool m free lent
    pub legal : length free < max_pre_recv_qp → Legal g (max_pre_recv_qp - length free) m free lent
    pub willing : ¬ Refuses g
    pub takes : (wr : WorkRequest) → is_negative (v.post_recv wr) ≡ false

  -- The calls on the way to the host succeed.
  pub record IsOpen (w : Way) : Type 0 where
    pub socket_open : is_negative w.socket ≡ false
    pub connected : (port : ℕ) (ip : Text) → is_negative (w.connect port ip) ≡ false
    pub wrote : (a : QpAttr) → is_negative (w.link.write a) ≡ false
    pub did_read : is_negative w.link.read ≡ false

  -- A transport that is connected to the end with these attributes.
  pub record IsConnected (state : Qp → QpState) (r : Resources Qp) (k : Link) (got : QpAttr)
      (p : Peer G D v g qp_num T H) : Type 0 where
    pub connection : Connection G Qp
    pub there : p.connection ≡ some connection
    pub at_rts : state connection.qp ≡ rts
    pub idle : IsIdle G connection.receiver
    pub local : p.local ≡ local_attr k (qp_num (modify_qp_to_init D r.qp).1)
    pub remote : p.remote ≡ got
    pub completed :
        rdma_complete_connect D (modify_qp_to_init D r.qp).1 p.local p.remote ≡ ok connection.qp
    pub ready : p.is_ready ≡ 1
    pub first_id : p.data_id ≡ 0

  -- What the first call for an address leaves.
  pub record Contact (state : Qp → QpState) (r : Resources Qp) (w : Way) (ip : Text) (fresh : Ptr)
      (ctx : Context G D v g qp_num T H) (o : Option Ptr) (ctx' : Context G D v g qp_num T H)
      : Type 0 where
    pub returned : o ≡ some fresh
    pub entered : T.lookup ctx'.hash_table ip ≡ some fresh
    pub others :
        (k : Text) → T.equal ip k ≡ false → T.lookup ctx'.hash_table k ≡ T.lookup ctx.hash_table k
    pub connected :
        IsConnected state r w.link
          (from_network (w.link.received (to_network (ctx'.peers fresh).local)))
          (ctx'.peers fresh)
    pub same_peers : (q : Ptr) → fresh ≢ q → ctx'.peers q ≡ ctx.peers q
    pub same_cache : ctx'.host2ipstr ≡ ctx.host2ipstr

  module _ (state : Qp → QpState) (w : Way) (r : Resources Qp) (arrays : Ptr → VArray) (fresh : Ptr)
      (free lent : List Ptr) (there : fresh ≢ null) (resources : AreThere G D v g r)
      (accepts : Accepts D state) (at : state r.qp ≡ reset) (way : IsOpen w) where
    connect_server-done :
        (ip : Text) (port : ℕ) (c : Connection G Qp) (p : Peer G D v g qp_num T H)
        → connect_server G D v g qp_num T H w ip port c p ≡ (
          done,
          record p {
            local = local_attr w.link (qp_num c.qp);
            remote = from_network (w.link.received (to_network (local_attr w.link (qp_num c.qp))));
          },
        )
    unfolding connect_server
    connect_server-done ip port c p =
        rw
          (
            way.socket_open,
            way.connected _ ip,
            exchange_info-client w.link (qp_num c.qp) w.tmp p.remote (way.wrote _) way.did_read,
          )
          refl

    add_peer-Contact :
        (ip : Text) (port : ℕ) (ctx : Context G D v g qp_num T H)
        → Knows w
        → CanStart ctx.machine free lent
        → Ends
            (add_peer G D v g qp_num T H w r arrays fresh ip port ctx)
            (λ (o, ctx'). Contact state r w ip fresh ctx o ctx')
    unfolding add_peer set_local_ip
    add_peer-Contact ip port ctx (own, knows) can =
        let local_ip : set_local_ip w ≡ ok own = rw knows refl in
        rw (ne→== fresh null there, local_ip)
          (Ends-bind _ _ (rdma_create_connect G D v g r fresh arrays ctx.machine) _
            (create_connect-IsStarted G D v g state r fresh arrays ctx.machine free lent there
              resources accepts at can.pool can.legal can.willing can.takes)
            (λ c s.
              let local : QpAttr = local_attr w.link (qp_num c.qp) in
              let remote : QpAttr = from_network (w.link.received (to_network local)) in
              rw
                (connect_server-done ip port c
                  (new_peer G D v g qp_num T H (zero_attr G D v g qp_num T H)))
                (Ends-bind _ _ (rdma_complete_connect D c.qp local remote) _
                  (Ends-self _ (rdma_complete_connect D c.qp local remote)
                    (complete_connect-rts D state c.qp local remote accepts s.at_init))
                  (λ qp (at_rts, run). record {
                    returned = refl;
                    entered = T.lookup-insert ctx.hash_table ip fresh;
                    others = λ k ne. T.lookup-insert_other ctx.hash_table ip k fresh ne;
                    connected = rw ((==_iff fresh fresh).1 refl) (record {
                      connection = record c { qp = qp };
                      there = refl;
                      at_rts = at_rts;
                      idle = s.idle;
                      local = ap (λ q. local_attr w.link (qp_num q)) s.from;
                      remote = refl;
                      completed =
                          ap (λ q. rdma_complete_connect D q local remote) (sym s.from) ∙ run;
                      ready = refl;
                      first_id = refl;
                    });
                    same_peers = λ q ne. rw (ne→== fresh q ne) refl;
                    same_cache = refl;
                  }))))

    -- Where the host is cached or its name of less than 20 characters resolves, there is no
    -- transport to its address, the name of the own host resolves, every call on the way to it
    -- succeeds, the resources are there, the device makes every transition that there is, and the
    -- pool can serve 1024 receive requests, `get_transport_from_ip` runs to its end and returns a
    -- new transport. It is in the table under the address, ready, with its queue pair in RTS, the
    -- attributes that were read from the socket as those of the other end, no message open, and 0
    -- as its next id; no other transport changes, and no entry of an address that the table does
    -- not take for this one.
    pub get_transport-Contact :
        (host ip : Text) (port : ℕ) (ctx : Context G D v g qp_num T H)
        → Resolves w ctx host ip
        → Knows w
        → T.lookup ctx.hash_table ip ≡ none
        → CanStart ctx.machine free lent
        → Ends
            (get_transport_from_ip G D v g qp_num T H w r arrays fresh host port ctx)
            (λ (o, ctx2).
              (ctx1 : Context G D v g qp_num T H) × Cached host ip ctx ctx1
              × Contact state r w ip fresh ctx1 o ctx2)
    unfolding get_transport_from_ip
    get_transport-Contact host ip port ctx resolves knows new can =
        Ends-bind _ _ (find_ip G D v g qp_num T H w host ctx) _
          (find_ip-Cached w host ip ctx resolves)
          (λ (ip', ctx1) (same, c).
            let absent : T.lookup ctx1.hash_table ip' ≡ none =
              ap (λ k. T.lookup ctx1.hash_table k) same
              ∙ ap (λ t. T.lookup t ip) c.same_table
              ∙ new in
            rw (Ends, absent, get_transport_from_ip)
              (Ends-mono _ _ (add_peer G D v g qp_num T H w r arrays fresh ip' port ctx1)
                (add_peer-Contact ip' port ctx1 knows
                  (subst (λ m. CanStart m free lent) (sym c.same_machine) can))
                (λ (o, ctx2) h.
                  (ctx1, c, subst (λ k. Contact state r w k fresh ctx1 o ctx2) same h))))
