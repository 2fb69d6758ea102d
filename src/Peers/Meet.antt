-- ===== src/Peers/Meet.antt =====
-- get_transport_from_ip of src/rdma_transport_client.c on one host and a round of accept_thread of
-- src/rdma_transport_server.c on the other.
use spark_rdma_shuffle_engin.Base.{ℕ, ◌≡◌, ◌≢◌, sym, ap, ◌∙◌, List, none, some, Ends, Ends-mono}
use spark_rdma_shuffle_engin.Memory.{Ptr, null}
use spark_rdma_shuffle_engin.BufferPool.{Grant}
use spark_rdma_shuffle_engin.Transport.{VArray, Verbs}
use spark_rdma_shuffle_engin.Glib.{GQueue, GHashTable}
use spark_rdma_shuffle_engin.Connect.{
  QpAttr, QpState, Device, reset, rts, to_network, from_network, local_attr, modify_qp_to_init,
}
use spark_rdma_shuffle_engin.Connect.Exchange.{IsAttr, from_network-to_network}
use spark_rdma_shuffle_engin.Connect.Ready.{
  Accepts, Numbers, init-Accepts, init-Numbers, complete_connect-Numbers,
}
use spark_rdma_shuffle_engin.Connect.Create.{Resources, Connection, AreThere}
use spark_rdma_shuffle_engin.Peers.{Text, Way, Peer, Context, get_transport_from_ip, accept_peer}
use spark_rdma_shuffle_engin.Peers.Contact.{
  Resolves, Knows, CanStart, IsOpen, IsConnected, get_transport-Contact,
}
use spark_rdma_shuffle_engin.Peers.Accept.{accept_peer-Accepted}

module _ (G : GQueue Ptr) {Qp : Type 0} (D : Device Qp) (v : Verbs) (g : Grant) (qp_num : Qp → ℕ)
    (T : GHashTable Text Ptr) (H : GHashTable Text Text) where
  -- The attributes that a host sends for the queue pair that `ibv_create_qp` returns.
  abbrev pub sent_attr : Way → Resources Qp → QpAttr
  sent_attr w r = local_attr w.link (qp_num r.qp)

  -- A host that has no transport to the address, and where nothing on the way to one fails.
  pub record CanConnect (state : Qp → QpState) (w : Way) (r : Resources Qp) (fresh : Ptr)
      (ip : Text) (ctx : Context G D v g qp_num T H) (free lent : List Ptr) : Type 0 where
    pub there : fresh ≢ null
    pub resources : AreThere G D v g r
    pub at : state r.qp ≡ reset
    pub way : IsOpen G D v g qp_num T H w
    pub new : T.lookup ctx.hash_table ip ≡ none
    pub can : CanStart G D v g qp_num T H ctx.machine free lent
    pub fits : IsAttr (sent_attr w r)

  -- Two transports with each other's attributes, whose queue pairs send to each other.
  pub record Joined (state : Qp → QpState) (dest_qp_num : Qp → ℕ)
      (client server : Peer G D v g qp_num T H) : Type 0 where
    pub of_client : Connection G Qp
    pub of_server : Connection G Qp
    pub client_there : client.connection ≡ some of_client
    pub server_there : server.connection ≡ some of_server
    pub client_ready : client.is_ready ≡ 1
    pub server_ready : server.is_ready ≡ 1
    pub client_rts : state of_client.qp ≡ rts
    pub server_rts : state of_server.qp ≡ rts
    pub client_knows : client.remote ≡ server.local
    pub server_knows : server.remote ≡ client.local
    pub client_sends : dest_qp_num of_client.qp ≡ qp_num of_server.qp
    pub server_sends : dest_qp_num of_server.qp ≡ qp_num of_client.qp

  module _ (state : Qp → QpState) (dest_qp_num : Qp → ℕ)
      (numbers : Numbers D state qp_num dest_qp_num) (accepts : Accepts D state) where
    -- The attributes and the numbers of one end.
    record IsEnd (w : Way) (r : Resources Qp) (other : QpAttr) (p : Peer G D v g qp_num T H)
        (c : Connection G Qp) : Type 0 where
      local : p.local ≡ sent_attr w r
      remote : p.remote ≡ other
      num : qp_num c.qp ≡ qp_num r.qp
      dest : dest_qp_num c.qp ≡ other.qpn

    IsConnected-IsEnd :
        (w : Way) (r : Resources Qp) (got other : QpAttr) (p : Peer G D v g qp_num T H)
        → state r.qp ≡ reset
        → got ≡ other
        → (h : IsConnected G D v g qp_num T H state r w.link got p) → IsEnd w r other p h.connection
    IsConnected-IsEnd w r got other p at same h =
        let (ready, now) = init-Accepts D state r.qp accepts at in
        let made = init-Numbers D state qp_num dest_qp_num numbers r.qp in
        let (num, dest) =
          complete_connect-Numbers D state qp_num dest_qp_num numbers (modify_qp_to_init D r.qp).1
            h.connection.qp p.local p.remote accepts now h.completed in
        record {
          local = h.local ∙ ap (local_attr w.link) made;
          remote = h.remote ∙ same;
          num = num ∙ made;
          dest = dest ∙ ap (λ (a : QpAttr). a.qpn) (h.remote ∙ same);
        }

    -- Where on both hosts there is no transport to the other's address, the resources are there,
    -- no call on the way fails, the pool can serve 1024 receive requests and the attributes fit
    -- their fields, where the host is in the client's cache or its name of less than 20
    -- characters resolves, and the client's own name resolves, where the device makes every
    -- transition that there is and keeps and sets the numbers of a queue pair as InfiniBand has
    -- it, and each host reads from the socket what the other writes, whole:
    -- `get_transport_from_ip` on one host and a round of `accept_thread` on the other run to
    -- their ends, each with a new transport, ready, with its queue pair in RTS, and the two are
    -- each other's ends: each has the other's attributes, and each queue pair sends to the number
    -- of the other.
    pub contact-accept-Joined :
        (wc ws : Way) (rc rs : Resources Qp) (arrays_c arrays_s : Ptr → VArray) (fc fs : Ptr)
        (host server_ip client_ip : Text) (port : ℕ) (ctx_c ctx_s : Context G D v g qp_num T H)
        (free_c lent_c free_s lent_s : List Ptr)
        → CanConnect state wc rc fc server_ip ctx_c free_c lent_c
        → CanConnect state ws rs fs client_ip ctx_s free_s lent_s
        → Resolves G D v g qp_num T H wc ctx_c host server_ip
        → Knows G D v g qp_num T H wc
        → ((tmp : QpAttr) → ws.link.received tmp ≡ to_network (sent_attr wc rc))
        → ((tmp : QpAttr) → wc.link.received tmp ≡ to_network (sent_attr ws rs))
        → Ends
            (get_transport_from_ip G D v g qp_num T H wc rc arrays_c fc host port ctx_c)
            (λ (o, c').
              (o ≡ some fc)
              × Ends
                  (accept_peer G D v g qp_num T H ws rs arrays_s fs client_ip ctx_s)
                  (λ s'. Joined state dest_qp_num (c'.peers fc) (s'.peers fs)))
    contact-accept-Joined wc ws rc rs arrays_c arrays_s fc fs host server_ip client_ip port ctx_c
          ctx_s free_c lent_c free_s lent_s c s resolves knows to_server to_client =
        let at_client : (tmp : QpAttr) → from_network (wc.link.received tmp) ≡ sent_attr ws rs =
          λ tmp.
            ap from_network (to_client tmp) ∙ from_network-to_network (sent_attr ws rs) s.fits in
        let at_server : from_network (ws.link.received ws.tmp) ≡ sent_attr wc rc =
          ap from_network (to_server ws.tmp) ∙ from_network-to_network (sent_attr wc rc) c.fits in
        Ends-mono _ _ (get_transport_from_ip G D v g qp_num T H wc rc arrays_c fc host port ctx_c)
          (get_transport-Contact G D v g qp_num T H state wc rc arrays_c fc free_c lent_c c.there
            c.resources accepts c.at c.way host server_ip port ctx_c resolves knows c.new c.can)
          (λ (o, c') (ctx1, cached, met). (
            met.returned,
            Ends-mono _ _ (accept_peer G D v g qp_num T H ws rs arrays_s fs client_ip ctx_s)
                (accept_peer-Accepted G D v g qp_num T H state ws rs arrays_s s.way fs client_ip
                  ctx_s free_s lent_s s.there s.resources accepts s.at s.can s.new)
                (λ s' accepted.
                  let x = met.connected in
                  let y = accepted.connected in
                  let ec =
                    IsConnected-IsEnd wc rc _ (sent_attr ws rs) (c'.peers fc) c.at (at_client _)
                      x in
                  let es =
                    IsConnected-IsEnd ws rs _ (sent_attr wc rc) (s'.peers fs) s.at at_server y in
                  record {
                    of_client = x.connection;
                    of_server = y.connection;
                    client_there = x.there;
                    server_there = y.there;
                    client_ready = x.ready;
                    server_ready = y.ready;
                    client_rts = x.at_rts;
                    server_rts = y.at_rts;
                    client_knows = ec.remote ∙ sym es.local;
                    server_knows = es.remote ∙ sym ec.local;
                    client_sends = ec.dest ∙ sym es.num;
                    server_sends = es.dest ∙ sym ec.num;
                  }),
          ))
