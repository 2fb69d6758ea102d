-- ===== src/Examples/Crossing.antt =====
-- A run in which a client waits while an accepted connection connects the transport:
-- src/rdma_transport_client.c and src/rdma_transport_server.c.
use spark_rdma_shuffle_engin.Base.{
  ℕ, ◌≡◌, refl, ap, ◌∙◌, true, false, [], ◌∷◌, Option, none, some, arith, ok, Ends-ok,
}
use spark_rdma_shuffle_engin.BufferPool.{empty_pool}
use spark_rdma_shuffle_engin.BufferPool.Release.{empty-IsPool}
use spark_rdma_shuffle_engin.Connect.{
  QpAttr, QpState, init, rts, exchange_info, local_attr, rdma_complete_connect,
}
use spark_rdma_shuffle_engin.Connect.Ready.{complete_connect-rts}
use spark_rdma_shuffle_engin.Connect.Create.{
  Connection, rdma_create_connect, create_connect-IsStarted,
}
use spark_rdma_shuffle_engin.Peers.{Text, Peer}
use spark_rdma_shuffle_engin.Peers.Threads.{
  Place, looking, creating, completing, waiting, returned, thread, Meeting, MeetReach,
}
use spark_rdma_shuffle_engin.Peers.Threads.MeetReach.{start, and_then}
use spark_rdma_shuffle_engin.Peers.Threads.MeetStep.{
  arrives, looks, creates, exchanges, completes, rechecks,
}
use spark_rdma_shuffle_engin.Peers.Threads.Joined.{AreJoined, MeetReach-AreJoined}
use spark_rdma_shuffle_engin.Examples.Data.{
  some_store, some_grant, some_grant-willing, some_verbs, list_queue, no_array,
}
use spark_rdma_shuffle_engin.Examples.Connecting.{
  some_device, some_device-Accepts, some_resources, some_link, server_attr, some_tmp,
}
use spark_rdma_shuffle_engin.Examples.Meeting.{address_table, function_table}

-- What rdma_create_connect makes.
some_connection :
    (k : Connection list_queue QpState) × (rdma_create_connect list_queue some_device some_verbs
        some_grant some_resources 60
        (λ p. no_array)
        (empty_pool 9 some_store)
      ≡ ok k)
    × (k.qp ≡ init)
some_connection =
    let (k, run, started) = Ends-ok _ _ (
      create_connect-IsStarted list_queue some_device some_verbs some_grant (λ s. s) some_resources
        60 (λ p. no_array) (empty_pool 9 some_store) [] [] (omega arith)
        (record {
          comp_channel_there = omega arith;
          cq_there = omega arith;
          notified = refl;
          rc_qp_there = omega arith;
        })
        some_device-Accepts refl (empty-IsPool 9 some_store)
        (λ h. record {
          node = omega arith;
          block = λ n. record { ne_null = omega arith; apart = λ a i. refl };
          some_asked = omega arith;
          room = omega arith;
        })
        some_grant-willing (λ wr. refl)) in
    (k, run, started.at_init)

abbrev connection : Connection list_queue QpState
connection = some_connection.0

connection-completes :
    rdma_complete_connect some_device connection.qp
      (local_attr (some_link 3 server_attr) 70)
      server_attr
    ≡ ok rts
connection-completes =
    let (qp, run, at_rts) = Ends-ok _ _ (
      complete_connect-rts some_device (λ s. s) connection.qp
        (local_attr (some_link 3 server_attr) 70) server_attr some_device-Accepts
        some_connection.2) in
    run ∙ ap (λ (q : QpState). ok q) at_rts

abbrev SomePeer : Type 0
SomePeer =
    Peer list_queue some_device some_verbs some_grant (λ s. 70) address_table (function_table Text)

abbrev SomeMeeting : Type 0
SomeMeeting =
    Meeting list_queue some_device some_verbs some_grant (λ s. 70) address_table
      (function_table Text)

abbrev Reach : SomeMeeting → Type 0
Reach s =
    MeetReach list_queue some_device some_verbs some_grant (λ s. 70) address_table
      (function_table Text) s

abbrev zeros : QpAttr
zeros = record { lid = 0; qpn = 0; psn = 0 }

abbrev fresh_peer : SomePeer
fresh_peer = record { connection = none; local = zeros; remote = zeros; is_ready = 0; data_id = 0 }

abbrev linked_peer : SomePeer
linked_peer = record fresh_peer { connection = some connection }

abbrev exchanged_peer : SomePeer
exchanged_peer = record linked_peer {
  local = local_attr (some_link 3 server_attr) 70;
  remote = server_attr;
}

abbrev ready_peer : SomePeer
ready_peer = record exchanged_peer {
  connection = some (record connection { qp = rts });
  is_ready = 1;
}

abbrev meeting : Option SomePeer → (client server : Place) → (made joined : ℕ) → SomeMeeting
meeting entry client server made joined = record {
  entry = entry;
  threads = thread true client ∷ thread false server ∷ [];
  made = made;
  joined = joined;
}

abbrev met : SomeMeeting
met = meeting (some ready_peer) returned looking 1 1

both_look : Reach (meeting none looking looking 0 0)
both_look = and_then (and_then start (arrives false)) (arrives true)

-- The accepted connection makes the entry, and the client waits.
client_waits : Reach (meeting (some fresh_peer) waiting creating 0 0)
client_waits =
    and_then {s = meeting (some fresh_peer) looking creating 0 0}
      (and_then both_look (looks false (thread true looking ∷ []) [] refl))
      (looks true [] (thread false creating ∷ []) refl)

server_completes : Reach (meeting (some exchanged_peer) waiting completing 1 0)
unfolding exchange_info
server_completes =
    and_then
      (and_then client_waits (
        creates false (thread true waiting ∷ []) [] fresh_peer some_resources 60 (λ p. no_array)
          (empty_pool 9 some_store) connection refl refl refl some_connection.1))
      (exchanges false (thread true waiting ∷ []) [] linked_peer connection
        (some_link 3 server_attr) some_tmp refl refl refl refl)

run_to_met : Reach met
run_to_met =
    and_then
      (and_then server_completes (
        completes false (thread true waiting ∷ []) [] exchanged_peer connection rts refl refl refl
          refl connection-completes))
      (rechecks true [] (thread false looking ∷ []) ready_peer refl refl)

MeetReach-AreJoined_example :
    AreJoined list_queue some_device some_verbs some_grant
      (λ s. 70)
      address_table
      (function_table Text)
      met
MeetReach-AreJoined_example =
    MeetReach-AreJoined list_queue some_device some_verbs some_grant (λ s. 70) address_table
      (function_table Text) run_to_met
