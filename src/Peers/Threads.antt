-- ===== src/Peers/Threads.antt =====
-- get_transport_from_ip of src/rdma_transport_client.c and the rounds of accept_thread of
-- src/rdma_transport_server.c as threads that meet at the entry of one address: a step is what a
-- thread does under hash_lock or connect_lock, or the exchange between two critical sections. The
-- writes of the attributes in an exchange are one step. A failed exchange or a failed assertion on
-- a device ends the process, and has no step; nor has an abort of set_local_ip.
pub mod Numbers
pub mod Moves
pub mod Steps
pub mod Joined
use spark_rdma_shuffle_engin.Base.{
  ℕ, suc, ◌≡◌, ◌≢◌, Bool, true, false, List, [], ◌∷◌, ◌++◌, Option, none, some, ◌==◌, if◌then◌else◌,
  ok, done,
}
use spark_rdma_shuffle_engin.Memory.{Ptr}
use spark_rdma_shuffle_engin.BufferPool.{Grant, Machine}
use spark_rdma_shuffle_engin.Transport.{VArray, Verbs}
use spark_rdma_shuffle_engin.Glib.{GQueue, GHashTable}
use spark_rdma_shuffle_engin.Connect.{
  QpAttr, Link, Device, Exchanged, exchange_info, rdma_complete_connect,
}
use spark_rdma_shuffle_engin.Connect.Create.{Resources, Connection, rdma_create_connect}
use spark_rdma_shuffle_engin.Peers.{Text, Peer, new_peer, zero_attr}

-- Where a thread is: before hash_lock, before the section that makes the queue pair, before the
-- exchange, before the section that connects it, in the loop that waits, at the end with the
-- transport, or in the abort of a test.
pub data Place : Type 0 where
  looking creating exchanging completing waiting returned aborted : Place

-- A run of `get_transport_from_ip`, or else a round of `accept_thread`.
pub record Thread : Type 0 where
  pub is_client : Bool
  pub place : Place

abbrev pub thread : Bool → Place → Thread
thread c l = record { is_client = c; place = l }

-- The last assertion of `get_transport_from_ip`, and the next round of `accept_thread`.
abbrev pub leave_way : Bool → (is_ready : ℕ) → Place
leave_way true is_ready = if is_ready == 1 then returned else aborted
leave_way false is_ready = looking

-- A round of the loop that waits, and the test before it.
abbrev pub recheck : Bool → (is_ready : ℕ) → Place
recheck c is_ready = if is_ready == 0 then waiting else leave_way c is_ready

module _ (G : GQueue Ptr) {Qp : Type 0} (D : Device Qp) (v : Verbs) (g : Grant) (qp_num : Qp → ℕ)
    (T : GHashTable Text Ptr) (H : GHashTable Text Text) where
  -- The entry of the address, none while the table has none, the threads, and the calls of
  -- rdma_create_connect and rdma_complete_connect that were made.
  pub record Meeting : Type 0 where
    pub entry : Option (Peer G D v g qp_num T H)
    pub threads : List Thread
    pub made : ℕ
    pub joined : ℕ

  -- What the section under hash_lock leaves in the table, and where it leads.
  abbrev pub look_entry : Option (Peer G D v g qp_num T H) → Option (Peer G D v g qp_num T H)
  look_entry none = some (new_peer G D v g qp_num T H (zero_attr G D v g qp_num T H))
  look_entry (some e) = some e

  abbrev pub look_place : Bool → Option (Peer G D v g qp_num T H) → Place
  look_place c none = creating
  look_place true (some e) = recheck true e.is_ready
  look_place false (some e) = creating

  abbrev pub with_exchanged : Peer G D v g qp_num T H → Exchanged → Peer G D v g qp_num T H
  with_exchanged e x = record e { local = x.local; remote = x.remote }

  pub data MeetStep : Meeting → Meeting → Type 0 where
    arrives :
        {s : Meeting} (c : Bool) → MeetStep s (record s { threads = thread c looking ∷ s.threads })
    looks :
        {s : Meeting} (c : Bool) (before after : List Thread)
        → s.threads ≡ before ++ thread c looking ∷ after
        → MeetStep s (record s {
          entry = look_entry s.entry;
          threads = before ++ thread c (look_place c s.entry) ∷ after;
        })
    creates :
        {s : Meeting} (c : Bool) (before after : List Thread) (e : Peer G D v g qp_num T H)
        (r : Resources Qp) (transport : Ptr) (arrays : Ptr → VArray) (m : Machine)
        (k : Connection G Qp)
        → s.threads ≡ before ++ thread c creating ∷ after
        → s.entry ≡ some e
        → e.connection ≡ none
        → rdma_create_connect G D v g r transport arrays m ≡ ok k
        → MeetStep s (record s {
          entry = some (record e { connection = some k });
          threads = before ++ thread c exchanging ∷ after;
          made = suc s.made;
        })
    keeps :
        {s : Meeting} (c : Bool) (before after : List Thread) (e : Peer G D v g qp_num T H)
        (k : Connection G Qp)
        → s.threads ≡ before ++ thread c creating ∷ after
        → s.entry ≡ some e
        → e.connection ≡ some k
        → MeetStep s (record s { threads = before ++ thread c exchanging ∷ after })
    exchanges :
        {s : Meeting} (c : Bool) (before after : List Thread) (e : Peer G D v g qp_num T H)
        (k : Connection G Qp) (link : Link) (tmp : QpAttr)
        → s.threads ≡ before ++ thread c exchanging ∷ after
        → s.entry ≡ some e
        → e.connection ≡ some k
        → (exchange_info link (qp_num k.qp) c tmp e.remote).status ≡ done
        → MeetStep s (record s {
          entry = some (with_exchanged e (exchange_info link (qp_num k.qp) c tmp e.remote));
          threads = before ++ thread c completing ∷ after;
        })
    unlinked :
        {s : Meeting} (c : Bool) (before after : List Thread) (e : Peer G D v g qp_num T H)
        → s.threads ≡ before ++ thread c exchanging ∷ after
        → s.entry ≡ some e
        → e.connection ≡ none
        → MeetStep s (record s { threads = before ++ thread c aborted ∷ after })
    completes :
        {s : Meeting} (c : Bool) (before after : List Thread) (e : Peer G D v g qp_num T H)
        (k : Connection G Qp) (qp : Qp)
        → s.threads ≡ before ++ thread c completing ∷ after
        → s.entry ≡ some e
        → e.is_ready ≡ 0
        → e.connection ≡ some k
        → rdma_complete_connect D k.qp e.local e.remote ≡ ok qp
        → MeetStep s (record s {
          entry = some (record e { connection = some (record k { qp = qp }); is_ready = 1 });
          threads = before ++ thread c (leave_way c 1) ∷ after;
          joined = suc s.joined;
        })
    passes :
        {s : Meeting} (c : Bool) (before after : List Thread) (e : Peer G D v g qp_num T H)
        → s.threads ≡ before ++ thread c completing ∷ after
        → s.entry ≡ some e
        → e.is_ready ≢ 0
        → MeetStep s (record s { threads = before ++ thread c (leave_way c e.is_ready) ∷ after })
    rechecks :
        {s : Meeting} (c : Bool) (before after : List Thread) (e : Peer G D v g qp_num T H)
        → s.threads ≡ before ++ thread c waiting ∷ after
        → s.entry ≡ some e
        → MeetStep s (record s { threads = before ++ thread c (recheck c e.is_ready) ∷ after })

  -- No entry, and no thread yet.
  abbrev pub nobody : Meeting
  nobody = record { entry = none; threads = []; made = 0; joined = 0 }

  pub data MeetReach : Meeting → Type 0 where
    start : MeetReach nobody
    and_then : {s s' : Meeting} → MeetReach s → MeetStep s s' → MeetReach s'
