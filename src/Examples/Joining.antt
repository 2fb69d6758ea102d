-- ===== src/Examples/Joining.antt =====
-- An example for the two ends of a connection, src/rdma_transport_client.c and
-- src/rdma_transport_server.c.
use spark_rdma_shuffle_engin.Base.{
  ℕ, ◌<◌, ◌^◌, ◌≡◌, refl, [], ◌∷◌, none, some, inr, arith, pos, Ends,
}
use spark_rdma_shuffle_engin.Memory.{Ptr}
use spark_rdma_shuffle_engin.BufferPool.{empty_pool}
use spark_rdma_shuffle_engin.BufferPool.Release.{empty-IsPool}
use spark_rdma_shuffle_engin.Connect.{
  QpAttr, QpState, Change, Device, reset, to_init, to_rtr, to_rts,
}
use spark_rdma_shuffle_engin.Connect.Ready.{Accepts, Numbers, Moves, starts, meets, sends}
use spark_rdma_shuffle_engin.Connect.Create.{Resources}
use spark_rdma_shuffle_engin.Peers.{Text, Way, Context, get_transport_from_ip, accept_peer}
use spark_rdma_shuffle_engin.Peers.Meet.{CanConnect, Joined, contact-accept-Joined}
use spark_rdma_shuffle_engin.Examples.Data.{
  some_store, some_grant, some_grant-willing, some_verbs, list_queue, no_array,
}
use spark_rdma_shuffle_engin.Examples.Connecting.{after, some_tmp, some_link}
use spark_rdma_shuffle_engin.Examples.Meeting.{address_table, function_table}

-- A queue pair with its number and that of the one that it sends to.
record NumberedQp : Type 0 where
  state : QpState
  num : ℕ
  dest : ℕ

abbrev dest_after : Change → ℕ → ℕ
dest_after (to_init k p f) dest = dest
dest_after (to_rtr a b c d e f k) dest = a
dest_after (to_rts a b c d e) dest = dest

abbrev numbered_device : Device NumberedQp
numbered_device = record {
  modify_qp =
      λ qp c. (pos 0, record { state = after c; num = qp.num; dest = dest_after c qp.dest });
}

abbrev state_of : NumberedQp → QpState
state_of qp = qp.state

abbrev num_of : NumberedQp → ℕ
num_of qp = qp.num

abbrev dest_of : NumberedQp → ℕ
dest_of qp = qp.dest

after-Moves : (s0 s : QpState) (c : Change) → Moves s0 c s → after c ≡ s
after-Moves s0 s c starts = refl
after-Moves s0 s c meets = refl
after-Moves s0 s c sends = refl

numbered_device-Accepts : Accepts numbered_device state_of
numbered_device-Accepts qp c s m = (refl, after-Moves qp.state s c m)

numbered_device-Numbers : Numbers numbered_device state_of num_of dest_of
numbered_device-Numbers = record {
  keeps_num = λ qp c. refl;
  sets_dest = λ qp qpn psn lid port mtu timer atomic e. refl;
  keeps_dest = λ qp psn timeout retry rnr atomic. refl;
}

abbrev resources_with : ℕ → Resources NumberedQp
resources_with num = record {
  comp_channel = 1;
  cq = 2;
  req_notify = pos 0;
  rc_qp = 3;
  qp = record { state = reset; num = num; dest = 0 };
}

abbrev server_ip : Text
server_ip = 49 ∷ 46 ∷ 50 ∷ []

abbrev client_ip : Text
client_ip = 49 ∷ 46 ∷ 51 ∷ []

abbrev client_attr : QpAttr
client_attr = record { lid = 3; qpn = 70; psn = 0 }

abbrev server_attr : QpAttr
server_attr = record { lid = 4; qpn = 71; psn = 0 }

abbrev way_with : ℕ → QpAttr → Way
way_with lid other = record {
  resolve = λ h. some server_ip;
  local_ip = some (55 ∷ []);
  socket = pos 5;
  connect = λ port ip. pos 0;
  link = some_link lid other;
  tmp = some_tmp;
}

abbrev no_peers :
    Context list_queue numbered_device some_verbs some_grant num_of address_table
      (function_table Text)
no_peers = record {
  hash_table = λ k. none;
  host2ipstr = λ k. none;
  peers = λ p. record {
    connection = none;
    local = some_tmp;
    remote = some_tmp;
    is_ready = 0;
    data_id = 0;
  };
  machine = empty_pool 9 some_store;
}

end-CanConnect :
    (lid num : ℕ) (other : QpAttr) (fresh : Ptr) (ip : Text)
    → lid < 2 ^ 16
    → num < 2 ^ 32
    → 0 < fresh
    → CanConnect list_queue numbered_device some_verbs some_grant num_of address_table
        (function_table Text)
        state_of
        (way_with lid other)
        (resources_with num)
        fresh
        ip
        no_peers
        []
        []
end-CanConnect lid num other fresh ip small small' there = record {
  there = omega arith;
  resources = record {
    comp_channel_there = omega arith;
    cq_there = omega arith;
    notified = refl;
    rc_qp_there = omega arith;
  };
  at = refl;
  way = record {
    socket_open = refl;
    connected = λ port ip. refl;
    wrote = λ a. refl;
    did_read = refl;
  };
  new = refl;
  can = record {
    pool = empty-IsPool 9 some_store;
    legal = λ h. record {
      node = omega arith;
      block = λ n. record { ne_null = omega arith; apart = λ a i. refl };
      some_asked = omega arith;
      room = omega arith;
    };
    willing = some_grant-willing;
    takes = λ wr. refl;
  };
  fits = record { lid = small; qpn = small'; psn = omega arith };
}

contact-accept-Joined_example :
    Ends
      (get_transport_from_ip list_queue numbered_device some_verbs some_grant num_of address_table
        (function_table Text)
        (way_with 3 server_attr)
        (resources_with 70)
        (λ p. no_array)
        400
        (104 ∷ [])
        0
        no_peers)
      (λ (o, c').
        (o ≡ some 400)
        × Ends
            (accept_peer list_queue numbered_device some_verbs some_grant num_of address_table
              (function_table Text)
              (way_with 4 client_attr)
              (resources_with 71)
              (λ p. no_array)
              500
              client_ip
              no_peers)
            (λ s'.
              Joined list_queue numbered_device some_verbs some_grant num_of address_table
                (function_table Text)
                state_of
                dest_of
                (c'.peers 400)
                (s'.peers 500)))
contact-accept-Joined_example =
    contact-accept-Joined list_queue numbered_device some_verbs some_grant num_of address_table
      (function_table Text) state_of dest_of numbered_device-Numbers numbered_device-Accepts
      (way_with 3 server_attr) (way_with 4 client_attr) (resources_with 70) (resources_with 71)
      (λ p. no_array) (λ p. no_array) 400 500 (104 ∷ []) server_ip client_ip 0 no_peers no_peers []
      [] [] []
      (end-CanConnect 3 70 server_attr 400 server_ip (omega arith) (omega arith) (omega arith))
      (end-CanConnect 4 71 client_attr 500 client_ip (omega arith) (omega arith) (omega arith))
      (inr (refl, omega arith, refl)) (55 ∷ [], refl) (λ tmp. refl) (λ tmp. refl)
