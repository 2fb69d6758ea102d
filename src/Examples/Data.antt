-- ===== src/Examples/Data.antt =====
-- A small program state for the examples: a pool of three chunks, one of them with a client.
use spark_rdma_shuffle_engin.Base.{
  refl, inl, inr, List, [], ◌∷◌, ◌++◌, arith, ◌==◌, if◌then◌else◌, pos,
}
use spark_rdma_shuffle_engin.Memory.{Ptr, Store}
use spark_rdma_shuffle_engin.BufferPool.{Grant, Machine}
use spark_rdma_shuffle_engin.BufferPool.Invariant.{IsPool, Refuses}
use spark_rdma_shuffle_engin.Transport.{VArray, Verbs, WorkRequest}
use spark_rdma_shuffle_engin.Client.{ClientTransport}
use spark_rdma_shuffle_engin.Glib.{GQueue, first, rest, first_such}
use spark_rdma_shuffle_engin.Receiver.{Receiver}
use spark_rdma_shuffle_engin.Handler.{Event, Opcode}
use spark_rdma_shuffle_engin.Handler.Roundtrip.{IsIdle}
use spark_rdma_shuffle_engin.Handler.Network.{Network, AreCarried}

-- Chunks 10 and 11 are free, 20 is with a client.
abbrev pub some_store : Store
some_store p = record {
  header = record {
    flags = 0;
    chunk_id = 0;
    chunk_len = 0;
    chunk_num = 0;
    data_id = 0;
    data_len = 0;
  };
  body = λ i. 0;
  mr = 7;
  next = if p == 10 then 11 else 0;
}

abbrev pub some_machine : Machine
some_machine = record {
  store = some_store;
  pool = record {
    link_head = record { buffer = 10; mr = 7 } ∷ [];
    free_list = 10;
    total_size = 3;
    free_size = 2;
    pd = 9;
  };
}

abbrev pub some_free : List Ptr
some_free = 10 ∷ 11 ∷ []

abbrev pub some_lent : List Ptr
some_lent = 20 ∷ []

pub some_pool : IsPool some_machine some_free some_lent
some_pool = record {
  chain = (refl, omega arith, refl, (refl, omega arith, refl, refl));
  apart = λ a i. ground arith;
  lent_distinct = (refl, tt);
  lent_ne_null = refl;
  free_mr = λ a i. omega arith;
  lent_mr = λ a i. omega arith;
  free_size = refl;
  total_size = refl;
  bounded = omega arith;
}

abbrev pub some_grant : Grant
some_grant = record { node = 50; buffer = 100; mr = 7 }

pub some_grant-willing : ¬ Refuses some_grant
some_grant-willing (inl h) = omega (arith, h)
some_grant-willing (inr h) = omega (arith, h)

abbrev pub some_verbs : Verbs
some_verbs = record { lkey = λ mr. mr; post_send = λ wr. pos 0; post_recv = λ wr. pos 0 }

abbrev pub some_client : ClientTransport
some_client = record { address = 60; data_id = 5 }

-- A queue that is a list.
abbrev pub list_queue : GQueue Ptr
list_queue = record {
  Queue = List Ptr;
  to_list = λ q. q;
  empty = [];
  push_tail = λ q a. q ++ a ∷ [];
  peek_head = first;
  pop_head = rest;
  find_custom = λ q p. first_such p q;
  to_list-empty = refl;
  to_list-push_tail = λ q a. refl;
  peek_head-first = λ q. refl;
  to_list-pop_head = λ q. refl;
  find_custom-first_such = λ q p. refl;
}

abbrev pub no_array : VArray
no_array = record { transport = 0; data_id = 0; len = 0; size = 0; chunks = [] }

abbrev pub idle_receiver : Receiver list_queue
idle_receiver = record {
  work_queue = [];
  arrays = λ p. no_array;
  is_work_running = 0;
  submitted = 0;
}

pub idle_receiver-IsIdle : IsIdle list_queue idle_receiver
idle_receiver-IsIdle = record { queue = refl; running = refl }

-- A network that ends where it starts.
abbrev pub loop_event : WorkRequest → Event
loop_event wr = record {
  status = 0;
  opcode = Opcode.recv;
  completion = record {
    work_chunk = record { transport = 60; chunk = wr.addr; len = 0 };
    byte_len = wr.length;
  };
  fresh = 300;
}

abbrev pub loop_events : List WorkRequest → List Event
loop_events [] = []
loop_events (wr ∷ wrs) = loop_event wr ∷ loop_events wrs

pub loop_carries :
    (from : Store) (wrs : List WorkRequest) → AreCarried from from wrs (loop_events wrs)
loop_carries from [] = tt
loop_carries from (wr ∷ wrs) = (
  record {
    success = refl;
    receipt = refl;
    bytes = refl;
    header = refl;
    body = refl;
    memory = omega arith;
  },
  loop_carries from wrs,
)

abbrev pub loop : Network
loop = record {
  carry = λ from wrs m. (loop_events wrs, record m { store = from });
  carries = λ from wrs m. loop_carries from wrs;
}
