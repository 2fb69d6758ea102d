-- ===== src/Examples/Meeting.antt =====
-- Examples for get_transport_from_ip of src/rdma_transport_client.c.
use spark_rdma_shuffle_engin.Base.{
  ◌&&◌, ◌*◌, ◌%◌, ◌^◌, ◌+◌, take, ℕ, ◌≡◌, refl, Bool, true, false, [], ◌∷◌, Option, none, some,
  arith, ◌==◌, ==_iff, if◌then◌else◌, inr, Ends, pos,
}
use spark_rdma_shuffle_engin.Memory.{Ptr}
use spark_rdma_shuffle_engin.BufferPool.{empty_pool}
use spark_rdma_shuffle_engin.BufferPool.Release.{empty-IsPool}
use spark_rdma_shuffle_engin.Glib.{GHashTable}
use spark_rdma_shuffle_engin.Connect.{from_network, QpState, rts}
use spark_rdma_shuffle_engin.Peers.{accept_peer, Text, Way, Peer, Context, get_transport_from_ip}
use spark_rdma_shuffle_engin.Peers.Contact.{
  Cached, Contact, CanStart, IsOpen, get_transport-known, get_transport-Contact,
}
use spark_rdma_shuffle_engin.Peers.Accept.{Accepted, accept_peer-Accepted, accept_peer-ready}
use spark_rdma_shuffle_engin.Connect.Create.{Connection, AreThere}
use spark_rdma_shuffle_engin.Examples.Data.{
  idle_receiver, some_store, some_grant, some_grant-willing, some_verbs, list_queue, no_array,
}
use spark_rdma_shuffle_engin.Examples.Connecting.{
  some_device, some_device-Accepts, some_resources, some_link, server_attr, some_tmp,
}

abbrev pub text_eq : Text → Text → Bool
text_eq [] [] = true
text_eq [] (y ∷ ys) = false
text_eq (x ∷ xs) [] = false
text_eq (x ∷ xs) (y ∷ ys) = if x == y then text_eq xs ys else false

pub text_eq_refl : (k : Text) → text_eq k k ≡ true
text_eq_refl [] = refl
text_eq_refl (x ∷ xs) = rw ((==_iff x x).1 refl, text_eq_refl xs) refl

-- A table that is a function.
abbrev pub function_table : (V : Type 0) → GHashTable Text V
function_table V = record {
  Table = Text → Option V;
  equal = text_eq;
  lookup = λ t k. t k;
  insert = λ t k x l. if text_eq k l then some x else t l;
  lookup-insert = λ t k x. rw (text_eq_refl k) refl;
  lookup-insert_other = λ t k l x ne. rw ne refl;
}

-- The table of transports: keys of one hash whose first eight bytes are the same are one.
abbrev pub str_hash : ℕ → Text → ℕ
str_hash acc [] = acc
str_hash acc (x ∷ xs) = str_hash ((acc * 33 + x) % 2 ^ 32) xs

abbrev pub same_key : Text → Text → Bool
same_key k l = (str_hash 5381 k == str_hash 5381 l) && text_eq (take 8 k) (take 8 l)

pub same_key_refl : (k : Text) → same_key k k ≡ true
same_key_refl k =
    rw ((==_iff (str_hash 5381 k) (str_hash 5381 k)).1 refl, text_eq_refl (take 8 k)) refl

abbrev pub address_table : GHashTable Text Ptr
address_table = record {
  Table = Text → Option Ptr;
  equal = same_key;
  lookup = λ t k. t k;
  insert = λ t k x l. if same_key k l then some x else t l;
  lookup-insert = λ t k x. rw (same_key_refl k) refl;
  lookup-insert_other = λ t k l x ne. rw ne refl;
}

abbrev host : Text
host = 104 ∷ 49 ∷ []

abbrev ip : Text
ip = 49 ∷ 46 ∷ 50 ∷ []

abbrev some_way : Way
some_way = record {
  resolve = λ h. some ip;
  local_ip = some (55 ∷ []);
  socket = pos 5;
  connect = λ port ip. pos 0;
  link = some_link 3 server_attr;
  tmp = some_tmp;
}

abbrev some_peer :
    Peer list_queue some_device some_verbs some_grant (λ s. 70) address_table (function_table Text)
some_peer = record {
  connection = none;
  local = some_tmp;
  remote = some_tmp;
  is_ready = 1;
  data_id = 0;
}

abbrev no_peers :
    Context list_queue some_device some_verbs some_grant
      (λ s. 70)
      address_table
      (function_table Text)
no_peers = record {
  hash_table = λ k. none;
  host2ipstr = λ k. none;
  peers = λ p. some_peer;
  machine = empty_pool 9 some_store;
}

some_way-IsOpen :
    IsOpen list_queue some_device some_verbs some_grant
      (λ s. 70)
      address_table
      (function_table Text)
      some_way
some_way-IsOpen = record {
  socket_open = refl;
  connected = λ port ip. refl;
  wrote = λ a. refl;
  did_read = refl;
}

no_peers-CanStart :
    CanStart list_queue some_device some_verbs some_grant
      (λ s. 70)
      address_table
      (function_table Text)
      no_peers.machine
      []
      []
no_peers-CanStart = record {
  pool = empty-IsPool 9 some_store;
  legal = λ h. record {
    node = omega arith;
    block = λ n. record { ne_null = omega arith; apart = λ a i. refl };
    some_asked = omega arith;
    room = omega arith;
  };
  willing = some_grant-willing;
  takes = λ wr. refl;
}

some_resources-AreThere : AreThere list_queue some_device some_verbs some_grant some_resources
some_resources-AreThere = record {
  comp_channel_there = omega arith;
  cq_there = omega arith;
  notified = refl;
  rc_qp_there = omega arith;
}

get_transport-known_example :
    Ends
      (get_transport_from_ip list_queue some_device some_verbs some_grant
        (λ s. 70)
        address_table
        (function_table Text)
        some_way
        some_resources
        (λ p. no_array)
        400
        host
        0
        (record no_peers { hash_table = λ k. some 80 }))
      (λ (o, ctx').
        (o ≡ some 80)
        × Cached list_queue some_device some_verbs some_grant
            (λ s. 70)
            address_table
            (function_table Text)
            host
            ip
            (record no_peers { hash_table = λ k. some 80 })
            ctx')
get_transport-known_example =
    get_transport-known list_queue some_device some_verbs some_grant (λ s. 70) address_table
      (function_table Text) some_way some_resources (λ p. no_array) 400 80 host ip 0
      (record no_peers { hash_table = λ k. some 80 }) (inr (refl, omega arith, refl)) refl refl

get_transport-Contact_example :
    Ends
      (get_transport_from_ip list_queue some_device some_verbs some_grant
        (λ s. 70)
        address_table
        (function_table Text)
        some_way
        some_resources
        (λ p. no_array)
        400
        host
        0
        no_peers)
      (λ (o, ctx2).
        (ctx1 : Context list_queue some_device some_verbs some_grant
          (λ s. 70)
          address_table
          (function_table Text))
        × Cached list_queue some_device some_verbs some_grant
            (λ s. 70)
            address_table
            (function_table Text)
            host
            ip
            no_peers
            ctx1
        × Contact list_queue some_device some_verbs some_grant
            (λ s. 70)
            address_table
            (function_table Text)
            (λ s. s)
            some_resources
            some_way
            ip
            400
            ctx1
            o
            ctx2)
get_transport-Contact_example =
    get_transport-Contact list_queue some_device some_verbs some_grant (λ s. 70) address_table
      (function_table Text) (λ s. s) some_way some_resources (λ p. no_array) 400 [] [] (omega arith)
      some_resources-AreThere some_device-Accepts refl some_way-IsOpen host ip 0 no_peers
      (inr (refl, omega arith, refl)) (55 ∷ [], refl) refl no_peers-CanStart

accept_peer-Accepted_example :
    Ends
      (accept_peer list_queue some_device some_verbs some_grant
        (λ s. 70)
        address_table
        (function_table Text)
        some_way
        some_resources
        (λ p. no_array)
        400
        ip
        no_peers)
      (Accepted list_queue some_device some_verbs some_grant
        (λ s. 70)
        address_table
        (function_table Text)
        (λ s. s)
        some_resources
        some_way
        ip
        400
        no_peers)
accept_peer-Accepted_example =
    accept_peer-Accepted list_queue some_device some_verbs some_grant (λ s. 70) address_table
      (function_table Text) (λ s. s) some_way some_resources (λ p. no_array) some_way-IsOpen 400 ip
      no_peers [] [] (omega arith) some_resources-AreThere some_device-Accepts refl
      no_peers-CanStart refl

abbrev old_connection : Connection list_queue QpState
old_connection = record {
  receiver = idle_receiver;
  is_handle_running = 0;
  qp = rts;
  posted = [];
  machine = no_peers.machine;
}

-- All addresses lead to one transport that is ready.
abbrev one_peer :
    Context list_queue some_device some_verbs some_grant
      (λ s. 70)
      address_table
      (function_table Text)
one_peer = record no_peers {
  hash_table = λ k. some 80;
  peers = λ p. record some_peer { connection = some old_connection };
}

accept_peer-ready_example :
    Ends
      (accept_peer list_queue some_device some_verbs some_grant
        (λ s. 70)
        address_table
        (function_table Text)
        some_way
        some_resources
        (λ p. no_array)
        400
        ip
        one_peer)
      (λ ctx'.
        ((ctx'.peers 80).connection ≡ some old_connection)
        × ((ctx'.peers 80).remote ≡ from_network (some_way.link.received some_way.tmp))
        × ((ctx'.peers 80).is_ready ≡ 1)
        × (ctx'.hash_table ≡ one_peer.hash_table)
        × (ctx'.machine ≡ one_peer.machine))
accept_peer-ready_example =
    accept_peer-ready list_queue some_device some_verbs some_grant (λ s. 70) address_table
      (function_table Text) (λ s. s) some_way some_resources (λ p. no_array) some_way-IsOpen 400 80
      ip one_peer old_connection refl refl refl
