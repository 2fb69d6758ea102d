-- ===== src/Examples/Connecting.antt =====
-- Examples for setting up a connection.
use spark_rdma_shuffle_engin.Base.{ℕ, ◌≡◌, refl, [], ◌∷◌, arith, Ends, ok, true, false, pos, done}
use spark_rdma_shuffle_engin.BufferPool.{empty_pool}
use spark_rdma_shuffle_engin.BufferPool.Release.{empty-IsPool}
use spark_rdma_shuffle_engin.Connect.{
  QpAttr, Link, Device, QpState, Change, reset, init, rtr, rts, to_init, to_rtr, to_rts, to_network,
  exchange_info, rdma_complete_connect,
}
use spark_rdma_shuffle_engin.Connect.Exchange.{IsAttr, exchange_info-both, exchange_info-closed}
use spark_rdma_shuffle_engin.Connect.Ready.{starts, meets, sends, complete_connect-refused, Accepts}
use spark_rdma_shuffle_engin.Connect.Create.{
  Resources, rdma_create_connect, IsStarted, create_connect-IsStarted,
}
use spark_rdma_shuffle_engin.Examples.Data.{
  some_store, some_grant, some_grant-willing, some_verbs, list_queue, no_array,
}

abbrev client_attr : QpAttr
client_attr = record { lid = 3; qpn = 70; psn = 0 }

abbrev pub server_attr : QpAttr
server_attr = record { lid = 4; qpn = 71; psn = 0 }

abbrev pub some_tmp : QpAttr
some_tmp = record { lid = 9; qpn = 9; psn = 9 }

-- A socket at which `other` is read.
abbrev pub some_link : (lid : ℕ) (other : QpAttr) → Link
some_link lid other = record {
  write = λ a. pos 12;
  read = pos 12;
  received = λ tmp. to_network other;
  query_port = pos 0;
  port_lid = lid;
}

client_attr-IsAttr : IsAttr client_attr
client_attr-IsAttr = record { lid = omega arith; qpn = omega arith; psn = omega arith }

server_attr-IsAttr : IsAttr server_attr
server_attr-IsAttr = record { lid = omega arith; qpn = omega arith; psn = omega arith }

exchange_info-both_example :
    (let at_client = exchange_info (some_link 3 server_attr) 70 true some_tmp some_tmp in
      let at_server = exchange_info (some_link 4 client_attr) 71 false some_tmp some_tmp in
      (at_client.status ≡ done)
      × (at_server.status ≡ done)
      × (at_client.remote ≡ at_server.local)
      × (at_server.remote ≡ at_client.local)
      × (at_client.written ≡ to_network at_server.remote ∷ [])
      × (at_server.written ≡ to_network at_client.remote ∷ []))
exchange_info-both_example =
    exchange_info-both (some_link 3 server_attr) (some_link 4 client_attr) 70 71 some_tmp some_tmp
      some_tmp some_tmp client_attr-IsAttr server_attr-IsAttr refl refl refl refl (λ t. refl)
      (λ t. refl)

-- A socket that the other end has closed.
abbrev closed_link : Link
closed_link = record (some_link 3 server_attr) { read = pos 0; received = λ tmp. tmp }

exchange_info-closed_example :
    (let r = exchange_info closed_link 70 true some_tmp some_tmp in
      (r.status ≡ done) × (r.remote ≡ r.local))
exchange_info-closed_example =
    exchange_info-closed closed_link 70 some_tmp some_tmp client_attr-IsAttr refl refl (λ t. refl)

-- A device whose queue pair is its state.
abbrev pub after : Change → QpState
after (to_init k p f) = init
after (to_rtr a b c d e f k) = rtr
after (to_rts a b c d e) = rts

abbrev pub some_device : Device QpState
some_device = record { modify_qp = λ qp c. (pos 0, after c) }

pub some_device-Accepts : Accepts some_device (λ s. s)
some_device-Accepts qp c s starts = (refl, refl)
some_device-Accepts qp c s meets = (refl, refl)
some_device-Accepts qp c s sends = (refl, refl)

-- A device that answers with EINVAL.
abbrev dead_device : Device QpState
dead_device = record { modify_qp = λ qp c. (pos 22, qp) }

complete_connect-refused_example :
    rdma_complete_connect dead_device init client_attr server_attr ≡ ok init
complete_connect-refused_example =
    complete_connect-refused dead_device (λ s. s) init client_attr server_attr (λ qp c. (21, refl))

abbrev pub some_resources : Resources QpState
some_resources = record { comp_channel = 1; cq = 2; req_notify = pos 0; rc_qp = 3; qp = reset }

create_connect-IsStarted_example :
    Ends
      (rdma_create_connect list_queue some_device some_verbs some_grant some_resources 60
        (λ p. no_array)
        (empty_pool 9 some_store))
      (IsStarted list_queue some_device some_verbs some_grant
        (λ s. s)
        some_resources
        60
        (empty_pool 9 some_store)
        []
        [])
create_connect-IsStarted_example =
    create_connect-IsStarted list_queue some_device some_verbs some_grant (λ s. s) some_resources 60
      (λ p. no_array) (empty_pool 9 some_store) [] [] (omega arith)
      (record {
        comp_channel_there = omega arith;
        cq_there = omega arith;
        notified = refl;
        rc_qp_there = omega arith;
      })
      some_device-Accepts refl (empty-IsPool 9 some_store)
      (λ h. record {
        node = omega arith;
        block = λ n. record { ne_null = omega arith; apart = λ a i. refl };
        some_asked = omega arith;
        room = omega arith;
      })
      some_grant-willing (λ wr. refl)
