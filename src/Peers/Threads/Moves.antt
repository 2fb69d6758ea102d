-- ===== src/Peers/Threads/Moves.antt =====
-- The moves of the threads that meet at an entry, in numbers: get_transport_from_ip of
-- src/rdma_transport_client.c and accept_thread of src/rdma_transport_server.c.
use spark_rdma_shuffle_engin.Base.{zero, ℕ, suc, ◌≤◌, ◌≡◌, refl, Bool, true, false, arith}
use spark_rdma_shuffle_engin.Peers.Threads.{Place, looking, creating, waiting, leave_way, recheck}
use spark_rdma_shuffle_engin.Peers.Threads.Numbers.{
  linked, Numbers, Moves, on_way, returns, aborts, connects,
}

-- The moves, in numbers: the connections that stay, and those on the way that get on.
pub new_entry-Moves :
    (c : Bool) (n n' : Numbers)
    → n.entries ≡ 0
    → n'.entries ≡ 1
    → n.qps ≡ 0
    → n.ready ≡ 0
    → Moves c looking creating n n'
new_entry-Moves c n n' e e' q z = record {
  entered = e';
  more_qps = omega (arith, q);
  more_ready = omega (arith, z);
  no_abort = refl;
  one_client = grind arith;
  linked_qp = omega arith;
  returned_ready = omega arith;
  helped = omega arith;
  stays = omega arith;
}

pub link-Moves :
    (c : Bool) (l l' : Place) (n n' : Numbers)
    → linked c l' ≡ 1
    → (returns c l' ≡ 0) × (aborts c l' ≡ 0) × (on_way c l ≡ 1) × (on_way c l' ≡ 1)
    → connects c l' ≤ connects c l
    → n.entries ≡ 1
    → n'.entries ≡ 1
    → n'.qps ≡ 1
    → n.qps ≤ n'.qps
    → n.ready ≤ n'.ready
    → Moves c l l' n n'
link-Moves c l l' n n' li (r, a, o, o') k e e' q more_qps more_ready = record {
  entered = e';
  more_qps = more_qps;
  more_ready = more_ready;
  no_abort = a;
  one_client = omega (arith, k, e);
  linked_qp = omega (arith, li, q);
  returned_ready = omega (arith, r);
  helped = omega (arith, e);
  stays = omega (arith, o, o');
}

-- To the end of the way, with a transport that is ready.
pub leave_way-Moves :
    (c : Bool) (l : Place) (n n' : Numbers)
    → on_way c l ≤ 1
    → n.entries ≡ 1
    → n'.entries ≡ 1
    → n'.ready ≡ 1
    → n.qps ≤ n'.qps
    → n.ready ≤ 1
    → Moves c l (leave_way c 1) n n'
leave_way-Moves true l n n' o e e' z more_qps more_ready = record {
  entered = e';
  more_qps = more_qps;
  more_ready = omega (arith, more_ready, z);
  no_abort = refl;
  one_client = omega (arith, e);
  linked_qp = omega arith;
  returned_ready = omega (arith, z);
  helped = omega (arith, e);
  stays = omega (arith, o, z);
}
leave_way-Moves false l n n' o e e' z more_qps more_ready = record {
  entered = e';
  more_qps = more_qps;
  more_ready = omega (arith, more_ready, z);
  no_abort = refl;
  one_client = omega (arith, e);
  linked_qp = omega arith;
  returned_ready = omega arith;
  helped = omega (arith, e);
  stays = omega (arith, o, z);
}

-- Into the loop that waits, or from the table to a queue pair that may be there.
pub idle-Moves :
    (c : Bool) (l l' : Place) (n : Numbers)
    → on_way c l ≡ 0
    → (linked c l' ≡ 0) × (returns c l' ≡ 0) × (aborts c l' ≡ 0) × (connects c l' ≡ 0)
    → n.entries ≡ 1
    → Moves c l l' n n
idle-Moves c l l' n o (li, r, a, k) e = record {
  entered = e;
  more_qps = omega arith;
  more_ready = omega arith;
  no_abort = a;
  one_client = omega (arith, k, e);
  linked_qp = omega (arith, li);
  returned_ready = omega (arith, r);
  helped = omega (arith, e);
  stays = omega (arith, o);
}

connects_none : (c : Bool) → connects c waiting ≡ 0
connects_none c = grind arith

pub recheck-Moves :
    (c : Bool) (l : Place) (is_ready : ℕ) (n : Numbers)
    → on_way c l ≡ 0
    → n.entries ≡ 1
    → n.ready ≡ is_ready
    → n.ready ≤ 1
    → Moves c l (recheck c is_ready) n n
recheck-Moves c l zero n o e z most =
    idle-Moves c l waiting n o (refl, refl, refl, connects_none c) e
recheck-Moves c l (suc zero) n o e z most =
    leave_way-Moves c l n n (omega (arith, o)) e e z (omega arith) most
recheck-Moves c l (suc (suc is_ready)) n o e z most = absurd (omega (arith, z, most))
