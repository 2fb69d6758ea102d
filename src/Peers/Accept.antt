-- ===== src/Peers/Accept.antt =====
-- The contract of a round of accept_thread of src/rdma_transport_server.c.
use spark_rdma_shuffle_engin.Base.{
  false, ℕ, ◌≡◌, ◌≢◌, refl, sym, ap, ◌∙◌, List, none, some, ==_iff, ne→==, Outcome, ok, fault,
  abort, ◌>>=◌, Ends, Ends-mono, Ends-ok,
}
use spark_rdma_shuffle_engin.Memory.{Ptr, null}
use spark_rdma_shuffle_engin.BufferPool.{Grant, Machine}
use spark_rdma_shuffle_engin.Transport.{VArray, Verbs}
use spark_rdma_shuffle_engin.Glib.{GQueue, GHashTable}
use spark_rdma_shuffle_engin.Handler.Roundtrip.{IsIdle}
use spark_rdma_shuffle_engin.Connect.{
  QpAttr, QpState, Device, reset, init, rts, from_network, local_attr, modify_qp_to_init,
  rdma_complete_connect,
}
use spark_rdma_shuffle_engin.Connect.Exchange.{exchange_info-server}
use spark_rdma_shuffle_engin.Connect.Ready.{Accepts, complete_connect-rts}
use spark_rdma_shuffle_engin.Connect.Create.{
  Resources, Connection, AreThere, rdma_create_connect, create_connect-IsStarted,
}
use spark_rdma_shuffle_engin.Peers.{
  Text, Way, Peer, Context, update_peer, find_connection, serve_peer, accept_peer, new_peer,
  zero_attr,
}
use spark_rdma_shuffle_engin.Peers.Contact.{CanStart, IsOpen, IsConnected}

module _ (G : GQueue Ptr) {Qp : Type 0} (D : Device Qp) (v : Verbs) (g : Grant) (qp_num : Qp → ℕ)
    (T : GHashTable Text Ptr) (H : GHashTable Text Text) where
  -- What a round leaves for the transport `p` under the address.
  pub record Accepted (state : Qp → QpState) (r : Resources Qp) (w : Way) (ip : Text) (p : Ptr)
      (ctx ctx' : Context G D v g qp_num T H) : Type 0 where
    pub entered : T.lookup ctx'.hash_table ip ≡ some p
    pub others :
        (k : Text) → T.equal ip k ≡ false → T.lookup ctx'.hash_table k ≡ T.lookup ctx.hash_table k
    pub connected :
        IsConnected G D v g qp_num T H state r w.link
          (from_network (w.link.received w.tmp))
          (ctx'.peers p)
    pub same_peers : (q : Ptr) → p ≢ q → ctx'.peers q ≡ ctx.peers q

  module _ (state : Qp → QpState) (w : Way) (r : Resources Qp) (arrays : Ptr → VArray)
      (way : IsOpen G D v g qp_num T H w) where
    abbrev got : QpAttr
    got = from_network (w.link.received w.tmp)

    abbrev Serves : Ptr → Context G D v g qp_num T H → Outcome (Context G D v g qp_num T H) → Type 0
    Serves p ctx o = Ends o (λ ctx'.
        (ctx'.hash_table ≡ ctx.hash_table)
        × IsConnected G D v g qp_num T H state r w.link got (ctx'.peers p)
        × ((q : Ptr) → p ≢ q → ctx'.peers q ≡ ctx.peers q))

    abbrev ready_peer :
        QpAttr → Connection G Qp → Peer G D v g qp_num T H → Qp → Peer G D v g qp_num T H
    ready_peer local c peer qp = record peer {
      connection = some (record c { qp = qp });
      local = local;
      remote = got;
      is_ready = 1;
    }

    Ends-complete :
        (p : Ptr) (ctx : Context G D v g qp_num T H) (c : Connection G Qp) (m : Machine)
        (local : QpAttr) (o : Outcome Qp)
        → (ctx.peers p).data_id ≡ 0
        → IsIdle G c.receiver
        → local ≡ local_attr w.link (qp_num (modify_qp_to_init D r.qp).1)
        → rdma_complete_connect D (modify_qp_to_init D r.qp).1 local got ≡ o
        → Ends o (λ qp. state qp ≡ rts)
        → Serves p ctx (
            o >>= (λ qp. ok (ready_peer local c (ctx.peers p) qp)) >>= λ server'. ok (record ctx {
              peers = update_peer G D v g qp_num T H ctx.peers p server';
              machine = m;
            }))
    Ends-complete p ctx c m local (ok qp) first idle mine run at_rts = (
      refl,
      rw ((==_iff p p).1 refl) (record {
        connection = record c { qp = qp };
        there = refl;
        at_rts = at_rts;
        idle = idle;
        local = mine;
        remote = refl;
        completed = run;
        ready = refl;
        first_id = first;
      }),
      λ q ne. rw (ne→== p q ne) refl,
    )
    Ends-complete p ctx c m local fault first idle mine run h = h
    Ends-complete p ctx c m local abort first idle mine run h = h

    -- A queue pair that is in INIT is connected.
    serve_peer-made :
        (p : Ptr) (ctx : Context G D v g qp_num T H) (c : Connection G Qp) (m : Machine)
        → Accepts D state
        → find_connection G D v g qp_num T H r arrays p ctx ≡ ok (c, m)
        → (ctx.peers p).is_ready ≡ 0
        → (ctx.peers p).data_id ≡ 0
        → state c.qp ≡ init
        → c.qp ≡ (modify_qp_to_init D r.qp).1
        → IsIdle G c.receiver
        → Serves p ctx (serve_peer G D v g qp_num T H w r arrays p ctx)
    unfolding serve_peer
    serve_peer-made p ctx c m accepts made not_ready first at from idle =
        let local : QpAttr = local_attr w.link (qp_num c.qp) in
        rw
          (
            made,
            exchange_info-server w.link (qp_num c.qp) w.tmp (ctx.peers p).remote (way.wrote _)
                way.did_read,
            not_ready,
          )
          (Ends-complete p ctx c m local (rdma_complete_connect D c.qp local got) first idle
            (ap (λ q. local_attr w.link (qp_num q)) from)
            (ap (λ q. rdma_complete_connect D q local got) (sym from))
            (complete_connect-rts D state c.qp local got accepts at))

    -- Where the transport to the address of an accepted connection is ready and no call on the
    -- socket fails, a round of `accept_thread` runs to its end and keeps the transport, its queue
    -- pair and the pool as they are, while the attributes of the other end become those that were
    -- read: they are recorded, but the queue pair is not connected to them.
    pub accept_peer-ready :
        (fresh p : Ptr) (ip : Text) (ctx : Context G D v g qp_num T H) (c : Connection G Qp)
        → T.lookup ctx.hash_table ip ≡ some p
        → (ctx.peers p).connection ≡ some c
        → (ctx.peers p).is_ready ≡ 1
        → Ends (accept_peer G D v g qp_num T H w r arrays fresh ip ctx) (λ ctx'.
          ((ctx'.peers p).connection ≡ some c)
          × ((ctx'.peers p).remote ≡ got)
          × ((ctx'.peers p).is_ready ≡ 1)
          × (ctx'.hash_table ≡ ctx.hash_table)
          × (ctx'.machine ≡ ctx.machine))
    unfolding accept_peer serve_peer find_connection
    accept_peer-ready fresh p ip ctx c known there ready =
        rw
          (
            Ends,
            known,
            accept_peer,
            serve_peer,
            there,
            find_connection,
            exchange_info-server w.link (qp_num c.qp) w.tmp (ctx.peers p).remote (way.wrote _)
                way.did_read,
            ready,
            (==_iff p p).1 refl,
          )
          (refl, refl, refl, refl, refl)

    find_connection-new :
        (p : Ptr) (ctx : Context G D v g qp_num T H) (c : Connection G Qp)
        → (ctx.peers p).connection ≡ none
        → rdma_create_connect G D v g r p arrays ctx.machine ≡ ok c
        → find_connection G D v g qp_num T H r arrays p ctx ≡ ok (c, c.machine)
    unfolding find_connection
    find_connection-new p ctx c absent made = rw (absent, find_connection, made) refl

    -- Where there is no transport to the address of an accepted connection, no call on its socket
    -- fails, the resources are there, the device makes every transition that there is, and the
    -- pool can serve 1024 receive requests, a round of `accept_thread` runs to its end: a new
    -- transport is in the table under the address, ready, with its queue pair in RTS, the
    -- attributes that were read from the socket as those of the other end, no message open, and 0
    -- as its next id; no other transport changes, and no entry of an address that the table does
    -- not take for this one.
    pub accept_peer-Accepted :
        (fresh : Ptr) (ip : Text) (ctx : Context G D v g qp_num T H) (free lent : List Ptr)
        → fresh ≢ null
        → AreThere G D v g r
        → Accepts D state
        → state r.qp ≡ reset
        → CanStart G D v g qp_num T H ctx.machine free lent
        → T.lookup ctx.hash_table ip ≡ none
        → Ends
            (accept_peer G D v g qp_num T H w r arrays fresh ip ctx)
            (Accepted state r w ip fresh ctx)
    unfolding accept_peer
    accept_peer-Accepted fresh ip ctx free lent there resources accepts at can new =
        let ctx1 : Context G D v g qp_num T H = record ctx {
          hash_table = T.insert ctx.hash_table ip fresh;
          peers =
              update_peer G D v g qp_num T H ctx.peers fresh
                (new_peer G D v g qp_num T H (zero_attr G D v g qp_num T H));
        } in
        let (c, made, started) =
          Ends-ok _ (rdma_create_connect G D v g r fresh arrays ctx.machine) (
            create_connect-IsStarted G D v g state r fresh arrays ctx.machine free lent there
              resources accepts at can.pool can.legal can.willing can.takes) in
        rw (new, accept_peer, ne→== fresh null there)
          (Ends-mono _ _ (serve_peer G D v g qp_num T H w r arrays fresh ctx1)
            (serve_peer-made fresh ctx1 c c.machine accepts
              (find_connection-new fresh ctx1 c (rw ((==_iff fresh fresh).1 refl) refl) made)
              (rw ((==_iff fresh fresh).1 refl) refl) (rw ((==_iff fresh fresh).1 refl) refl)
              started.at_init started.from started.idle)
            (λ ctx2 (table, connected, others). record {
              entered = ap (λ t. T.lookup t ip) table ∙ T.lookup-insert ctx.hash_table ip fresh;
              others = λ k ne.
                  ap (λ t. T.lookup t k) table ∙ T.lookup-insert_other ctx.hash_table ip k fresh ne;
              connected = connected;
              same_peers = λ q ne. others q ne ∙ rw (ne→== fresh q ne) refl;
            }))
