-- ===== src/Examples/Starting.antt =====
-- Examples for the life of a server, src/rdma_transport_server.c.
use spark_rdma_shuffle_engin.Base.{
  suc, true, false, ◌≡◌, refl, List, [], ◌∷◌, some, arith, Ends, ok, pos,
}
use mathlib.Core.List.{Perm}
use spark_rdma_shuffle_engin.Memory.{rdma_buffer_size}
use spark_rdma_shuffle_engin.BufferPool.{Machine, append_node, empty_pool, init_rdma_buffer_pool}
use spark_rdma_shuffle_engin.Server.Calls.{Call, makes, devices, pool, device, pd, replay}
use spark_rdma_shuffle_engin.Peers.{ib_server_port}
use spark_rdma_shuffle_engin.Server.{
  Boot, AcceptThreadArg, Server, HeldTransport, nodes_calls, init_server,
}
use spark_rdma_shuffle_engin.Server.Destroy.{held_of, leaked, AreMade}
use spark_rdma_shuffle_engin.Server.Start.{made_of}
use spark_rdma_shuffle_engin.Natives.{
  Statics, Finds, java_init, find_class, find_method, bind_handler, java_destroy,
}
use spark_rdma_shuffle_engin.Natives.Life.{IsBound, java_init-java_destroy}
use spark_rdma_shuffle_engin.Examples.Data.{some_store, some_machine, some_grant}

abbrev some_boot : Boot
some_boot = record {
  context = 1;
  dev_list = 2;
  ib_dev = 3;
  ibv_context = 4;
  pd = 9;
  rbp = 5;
  grant = some_grant;
  store = some_store;
  resolve = λ host. some host;
  socket = pos 6;
  setsockopt = pos 0;
  bind = λ port. pos 0;
  listen = pos 0;
}

abbrev first_machine : Machine
first_machine = append_node some_grant rdma_buffer_size (empty_pool 9 some_store)

abbrev some_server : Server
some_server = record { dev_list = 2; rbp = 5; ibv_context = 4; pd = 9; machine = first_machine }

abbrev some_calls : List Call
some_calls =
    makes devices 2 []
    ∷ makes device 4 []
    ∷ makes pd 9 (4 ∷ [])
    ∷ makes pool 5 []
    ∷ nodes_calls 9 first_machine.pool.link_head

abbrev some_arg : AcceptThreadArg
some_arg = record { sfd = pos 6; ip_str = 1 ∷ []; port = ib_server_port }

some_start : init_server some_boot (1 ∷ []) 0 ≡ ok (some_arg, some_server, some_calls)
unfolding init_server init_rdma_buffer_pool
some_start = refl

-- The first call of `init`; the port is 0 in its low 16 bits.
abbrev all_found : Finds
all_found = record { class = true; method = true }

abbrev no_statics : Statics
no_statics = record {
  g_jvm = false;
  channel_handler_class = false;
  channel_read0 = false;
  handlers = 0;
}

abbrev bound : Statics → Statics
bound st = record {
  g_jvm = true;
  channel_handler_class = true;
  channel_read0 = true;
  handlers = suc st.handlers;
}

some_java_start :
    java_init all_found some_boot (1 ∷ []) 65536 no_statics
    ≡ ok (true, bound no_statics, some (some_arg, some_server, some_calls))
unfolding java_init find_class find_method bind_handler init_server init_rdma_buffer_pool
some_java_start = refl

-- Two connections, and the pool of the other examples.
abbrev one_transport : HeldTransport
one_transport = record {
  address = 400;
  poll_pid = 41;
  handle_pid = 42;
  work_queue = 401;
  handle_queue = 402;
  rc_qp = 403;
  cq = 404;
  comp_channel = 405;
  destroyed = pos 0;
}

abbrev other_transport : HeldTransport
other_transport = record {
  address = 500;
  poll_pid = 51;
  handle_pid = 52;
  work_queue = 501;
  handle_queue = 502;
  rc_qp = 503;
  cq = 504;
  comp_channel = 505;
  destroyed = pos 0;
}

abbrev some_transports : List HeldTransport
some_transports = one_transport ∷ other_transport ∷ []

some_transports-AreMade : AreMade some_transports
some_transports-AreMade = (
  record {
    polled = omega arith;
    handled = omega arith;
    qp_there = omega arith;
    destroys = refl;
    cq_there = omega arith;
    channel_there = omega arith;
  },
  (
    record {
      polled = omega arith;
      handled = omega arith;
      qp_there = omega arith;
      destroys = refl;
      cq_there = omega arith;
      channel_there = omega arith;
    },
    tt,
  ),
)

abbrev later_server : Server
later_server = record some_server { machine = some_machine }

java_init-java_destroy_example :
    (true ≡ true)
    × IsBound no_statics (bound no_statics)
    × (replay some_calls [] ≡ some (made_of some_server))
    × Perm (made_of some_server) (held_of some_server [])
    × Ends (java_destroy some_transports later_server) (λ ends.
      replay ends (held_of later_server some_transports)
      ≡ some (leaked later_server some_transports))
unfolding append_node
java_init-java_destroy_example =
    java_init-java_destroy all_found some_boot (1 ∷ []) 65536 no_statics (bound no_statics) true
      some_arg some_server some_calls some_transports some_machine some_java_start (search)
      (refl, tt) some_transports-AreMade (search)
