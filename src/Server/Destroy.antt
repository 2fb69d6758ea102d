-- ===== src/Server/Destroy.antt =====
-- destroy_server of src/rdma_transport_server.c frees what init_server and the connections made.
use spark_rdma_shuffle_engin.Base.{
  ◌<◌, ◌≡◌, refl, sym, ap, ap₂, subst, ◌∙◌, ◌≢◌, true, false, List, [], ◌∷◌, ◌++◌, append-nil,
  append_assoc, some, arith, mem, Distinct, ne→==, lt→ltb, Ends, Ends-bind, is_negative,
}
use spark_rdma_shuffle_engin.Memory.{null, Store}
use spark_rdma_shuffle_engin.BufferPool.{LinkNode, free_nodes, destroy_rdma_buffer_pool}
use spark_rdma_shuffle_engin.Server.Calls.{
  frees, device, pd, mr, buffer, channel, cq, qp, queue, transport, pool, devices, Resource,
  addresses, AreOrdered, frees_of, replay,
}
use spark_rdma_shuffle_engin.Server.Calls.Order.{
  frees_of-append, unsignalled, unsignalled-append, replay-unsignalled, replay-frees_of, replay-end,
}
use spark_rdma_shuffle_engin.Server.{
  Server, HeldTransport, freed_calls, rdma_shutdown_connect, shutdown_all, rdma_context_destroy,
  destroy_server,
}

module _ (s : Server) where
  -- What a connection holds, what the pool holds, and what the context holds.
  abbrev pub of_transport : HeldTransport → List Resource
  of_transport t =
      record { kind = queue; address = t.work_queue; over = [] }
      ∷ record { kind = qp; address = t.rc_qp; over = t.cq ∷ s.pd ∷ [] }
      ∷ record { kind = cq; address = t.cq; over = t.comp_channel ∷ s.ibv_context ∷ [] }
      ∷ record { kind = channel; address = t.comp_channel; over = s.ibv_context ∷ [] }
      ∷ record { kind = transport; address = t.address; over = [] }
      ∷ []

  abbrev pub of_transports : List HeldTransport → List Resource
  of_transports [] = []
  of_transports (t ∷ ts) = of_transport t ++ of_transports ts

  abbrev pub of_nodes : List LinkNode → List Resource
  of_nodes [] = []
  of_nodes (n ∷ ns) =
      record { kind = mr; address = n.mr; over = n.buffer ∷ s.pd ∷ [] }
      ∷ record { kind = buffer; address = n.buffer; over = [] }
      ∷ of_nodes ns

  abbrev pub of_context : List Resource
  of_context =
      record { kind = pd; address = s.pd; over = s.ibv_context ∷ [] }
      ∷ record { kind = device; address = s.ibv_context; over = [] }
      ∷ []

  -- What nothing frees: the queues of completions, the structure of the pool, the list of devices.
  abbrev pub leaked : List HeldTransport → List Resource
  leaked [] =
      record { kind = pool; address = s.rbp; over = [] }
      ∷ record { kind = devices; address = s.dev_list; over = [] }
      ∷ []
  leaked (t ∷ ts) = record { kind = queue; address = t.handle_queue; over = [] } ∷ leaked ts

  -- All that a server with these transports holds.
  abbrev pub held_of : List HeldTransport → List Resource
  held_of ts = of_transports ts ++ (of_nodes s.machine.pool.link_head ++ (of_context ++ leaked ts))

-- A transport whose connection is made, and whose queue pair can be destroyed.
pub record IsMade (t : HeldTransport) : Type 0 where
  pub polled : 0 < t.poll_pid
  pub handled : 0 < t.handle_pid
  pub qp_there : t.rc_qp ≢ null
  pub destroys : is_negative t.destroyed ≡ false
  pub cq_there : t.cq ≢ null
  pub channel_there : t.comp_channel ≢ null

abbrev pub AreMade : List HeldTransport → Type 0
AreMade [] = Unit
AreMade (t ∷ ts) = IsMade t × AreMade ts

-- The first chunk of each buffer has the buffer's region.
abbrev pub AreTagged : Store → List LinkNode → Type 0
AreTagged st [] = Unit
AreTagged st (n ∷ ns) = ((st n.buffer).mr ≡ n.mr) × AreTagged st ns

module _ (s : Server) where
  abbrev pub Holds : List Resource → Type 0
  Holds rest =
      (mem s.pd (addresses rest) ≡ true)
      × (mem s.ibv_context (addresses rest) ≡ true)
      × AreOrdered rest

  pub of_nodes-Holds :
      (ns : List LinkNode) (rest : List Resource) → Holds rest → Holds (of_nodes s ns ++ rest)
  of_nodes-Holds [] rest h = h
  of_nodes-Holds (n ∷ ns) rest h =
      let (p, c, o) = of_nodes-Holds ns rest h in
      (ground arith, ground arith, (ground arith, (refl, o)))

  of_transports-Holds :
      (ts : List HeldTransport) (rest : List Resource)
      → Holds rest
      → Holds (of_transports s ts ++ rest)
  of_transports-Holds [] rest h = h
  of_transports-Holds (t ∷ ts) rest h =
      let (p, c, o) = of_transports-Holds ts rest h in
      (
        ground arith,
        ground arith,
        (refl, (ground arith, (ground arith, (ground arith, (refl, o))))),
      )

  leaked-AreOrdered : (ts : List HeldTransport) → AreOrdered (leaked s ts)
  leaked-AreOrdered [] = (refl, (refl, tt))
  leaked-AreOrdered (t ∷ ts) = (refl, leaked-AreOrdered ts)

  shutdown-frees :
      (t : HeldTransport)
      → IsMade t
      → Ends (rdma_shutdown_connect t) (λ cs. unsignalled cs ≡ frees_of (of_transport s t))
  unfolding rdma_shutdown_connect
  shutdown-frees t h =
      rw
        (
          lt→ltb 0 t.poll_pid h.polled,
          lt→ltb 0 t.handle_pid h.handled,
          ne→== t.rc_qp null h.qp_there,
          h.destroys,
          ne→== t.cq null h.cq_there,
          ne→== t.comp_channel null h.channel_there,
        )
        refl

  shutdown_all-frees :
      (ts : List HeldTransport)
      → AreMade ts
      → Ends (shutdown_all ts) (λ cs. unsignalled cs ≡ frees_of (of_transports s ts))
  unfolding shutdown_all
  shutdown_all-frees [] h = refl
  shutdown_all-frees (t ∷ ts) h =
      Ends-bind _ _ (rdma_shutdown_connect t) _ (shutdown-frees t h.0) (λ cs e.
        Ends-bind _ _ (shutdown_all ts) _ (shutdown_all-frees ts h.1) (λ ds e'.
          unsignalled-append cs ds
          ∙ ap₂ ◌++◌ e e'
          ∙ sym (frees_of-append (of_transport s t) (of_transports s ts))))

  free_nodes-frees :
      (st : Store) (ns : List LinkNode)
      → AreTagged st ns
      → unsignalled (freed_calls (free_nodes st ns)) ≡ frees_of (of_nodes s ns)
  unfolding free_nodes
  free_nodes-frees st [] h = refl
  free_nodes-frees st (n ∷ ns) h = rw (h.0, free_nodes-frees st ns h.1) refl

  context_destroy-frees :
      s.pd ≢ null
      → s.ibv_context ≢ null
      → AreTagged s.machine.store s.machine.pool.link_head
      → Ends
          (rdma_context_destroy s)
          (λ cs. unsignalled cs ≡ frees_of (of_nodes s s.machine.pool.link_head ++ of_context s))
  unfolding rdma_context_destroy destroy_rdma_buffer_pool
  context_destroy-frees there there' tagged =
      rw (ne→== s.pd null there, ne→== s.ibv_context null there')
        (unsignalled-append (freed_calls (free_nodes s.machine.store s.machine.pool.link_head))
            (frees pd s.pd ∷ frees device s.ibv_context ∷ [])
          ∙ ap (λ cs. cs ++ frees pd s.pd ∷ frees device s.ibv_context ∷ [])
              (free_nodes-frees s.machine.store s.machine.pool.link_head tagged)
          ∙ sym (frees_of-append (of_nodes s s.machine.pool.link_head) (of_context s)))

  -- All that is freed.
  abbrev freed : List HeldTransport → List Resource
  freed ts = of_transports s ts ++ (of_nodes s s.machine.pool.link_head ++ of_context s)

  held_of-freed : (ts : List HeldTransport) → held_of s ts ≡ freed ts ++ leaked s ts
  held_of-freed ts =
      ap (λ rs. of_transports s ts ++ rs)
        (sym (append_assoc (of_nodes s s.machine.pool.link_head) (of_context s) (leaked s ts)))
      ∙ sym (
          append_assoc (of_transports s ts) (of_nodes s s.machine.pool.link_head ++ of_context s)
            (leaked s ts))

  held_of-AreOrdered : (ts : List HeldTransport) → AreOrdered (held_of s ts)
  held_of-AreOrdered ts =
      (of_transports-Holds ts _ (
        of_nodes-Holds s.machine.pool.link_head _
          (ground arith, ground arith, (ground arith, (refl, leaked-AreOrdered ts))))).2

  pub destroy-replay :
      (ts : List HeldTransport)
      → s.pd ≢ null
      → s.ibv_context ≢ null
      → AreTagged s.machine.store s.machine.pool.link_head
      → AreMade ts
      → Distinct (addresses (held_of s ts))
      → Ends (destroy_server ts s) (λ cs. replay cs (held_of s ts) ≡ some (leaked s ts))
  unfolding destroy_server
  destroy-replay ts there there' tagged made distinct =
      Ends-bind _ _ (shutdown_all ts) _ (shutdown_all-frees ts made) (λ cs e.
        Ends-bind _ _ (rdma_context_destroy s) _ (context_destroy-frees there there' tagged)
          (λ ds e'.
            let all : unsignalled (cs ++ ds) ≡ frees_of (freed ts) ++ [] =
              unsignalled-append cs ds
              ∙ ap₂ ◌++◌ e e'
              ∙ sym (frees_of-append (of_transports s ts) _)
              ∙ sym (append-nil (frees_of (freed ts))) in
            replay-unsignalled (cs ++ ds) (held_of s ts)
            ∙ ap₂ replay all (held_of-freed ts)
            ∙ replay-frees_of (freed ts) (leaked s ts) []
                (subst AreOrdered (held_of-freed ts) (held_of-AreOrdered ts))
                (subst (λ rs. Distinct (addresses rs)) (held_of-freed ts) distinct)
            ∙ replay-end (leaked s ts)))
