-- ===== src/Natives/Life.antt =====
-- init and destroy of src/io_rdma_RdmaServer.c, from the call of Java to the resources made and freed.
use spark_rdma_shuffle_engin.Base.{
  ℕ, suc, ◌%◌, ◌^◌, ◌≡◌, ap, ◌∙◌, inl, inr, Bool, true, false, List, [], some, none, Outcome, ok,
  >>=-eq-ok, Bool-cases, Distinct, Ends,
}
use mathlib.Core.List.{Perm}
use spark_rdma_shuffle_engin.BufferPool.{Machine}
use spark_rdma_shuffle_engin.Peers.{Text}
use spark_rdma_shuffle_engin.Server.{
  AcceptThreadArg, Boot, Server, HeldTransport, Started, init_server,
}
use spark_rdma_shuffle_engin.Server.Calls.{Call, addresses, replay}
use spark_rdma_shuffle_engin.Server.Destroy.{held_of, leaked, AreMade, AreTagged}
use spark_rdma_shuffle_engin.Server.Start.{init-destroy, made_of}
use spark_rdma_shuffle_engin.Natives.{
  Statics, Finds, Bound, bind_handler, find_method, find_class, java_init, java_destroy,
}

-- What `init` leaves for the workers' calls of `channelRead0`.
pub record IsBound (st st' : Statics) : Type 0 where
  pub jvm : st'.g_jvm ≡ true
  pub class : st'.channel_handler_class ≡ true
  pub method : st'.channel_read0 ≡ true
  pub handler : st'.handlers ≡ suc st.handlers

-- A start that returned a server.
record Starts (b : Boot) (host : Text) (jport : ℕ) (st : Statics) (r : Bool) (st' : Statics)
    (s : Started) : Type 0 where
  pub returns : r ≡ true
  pub statics : st' ≡ record st { handlers = suc st.handlers }
  pub server : init_server b host (jport % 2 ^ 16) ≡ ok s

no_server :
    {st st' : Statics} {r : Bool} {s : Started}
    → ¬ (◌≡◌ {A = Outcome Bound} (ok (false, st, none)) (ok (r, st', some s)))
no_server e = cc e

module _ (f : Finds) (b : Boot) (host : Text) (jport : ℕ) (st' : Statics) (r : Bool)
    (s : Started) where
  bind_handler-Starts :
      (st : Statics)
      → bind_handler b host jport st ≡ ok (r, st', some s)
      → Starts b host jport st r st' s
  unfolding bind_handler
  bind_handler-Starts st e =
      let (s1, run, e1) =
        >>=-eq-ok {A = Started} (init_server b host (jport % 2 ^ 16)) _ (r, st', some s) e in
      record { returns = cc e1; statics = cc e1; server = run ∙ cc e1 }

  find_method-Starts :
      (st : Statics)
      → find_method f b host jport st ≡ ok (r, st', some s)
      → Starts b host jport (record st { channel_read0 = true }) r st' s
  unfolding find_method
  find_method-Starts st e = elim (Bool-cases st.channel_read0) [
    | inl kept ↦ bind_handler-Starts (record st { channel_read0 = true }) (rw kept at e)
    | inr new ↦ elim (Bool-cases f.method) [
      | inl found ↦
          bind_handler-Starts (record st { channel_read0 = true }) (rw found at rw new at e)
      | inr missing ↦ absurd (no_server (rw missing at rw new at e))
    ]
  ]

  find_class-Starts :
      (st : Statics)
      → find_class f b host jport st ≡ ok (r, st', some s)
      → Starts b host jport
          (record st { channel_handler_class = true; channel_read0 = true })
          r
          st'
          s
  unfolding find_class find_method
  find_class-Starts st e = elim (Bool-cases st.channel_handler_class) [
    | inl kept ↦ find_method-Starts (record st { channel_handler_class = true }) (rw kept at e)
    | inr new ↦ elim (Bool-cases f.class) [
      | inl found ↦
          find_method-Starts (record st { channel_handler_class = true }) (rw found at rw new at e)
      | inr missing ↦ absurd (no_server (rw missing at rw new at e))
    ]
  ]

  java_init-Starts :
      (st : Statics)
      → java_init f b host jport st ≡ ok (r, st', some s)
      → Starts b host jport
          (record st { g_jvm = true; channel_handler_class = true; channel_read0 = true })
          r
          st'
          s
  unfolding java_init
  java_init-Starts st e = find_class-Starts (record st { g_jvm = true }) e

-- Where `init` of `RdmaServer` starts a server, and the resources it made are apart: it returns
-- true, the Java machine, the class and the method are set, and one more handler is kept; its
-- calls that make resources are allowed in their order and make just what the server holds, of
-- the list of devices, the resources of libibverbs, and the pool with its structure and its
-- buffers. If later the table has transports with their connections made, visited in any order,
-- the pool has any buffers, the first chunk of each with its region, and all resources are apart,
-- then `destroy` runs to its end: each of its calls is of the right kind, frees what is held, and
-- frees nothing that a resource still held was made over; and of all these, with the transports
-- and their queues, just the queues of completions, the structure of the pool and the list of
-- devices are left.
pub java_init-java_destroy :
    (f : Finds) (b : Boot) (host : Text) (jport : ℕ) (st st' : Statics) (r : Bool)
    (arg : AcceptThreadArg) (s : Server) (calls : List Call) (ts : List HeldTransport) (m : Machine)
    → (let later : Server = record s { machine = m } in
        java_init f b host jport st ≡ ok (r, st', some (arg, s, calls))
        → Distinct (addresses (made_of s))
        → AreTagged m.store m.pool.link_head
        → AreMade ts
        → Distinct (addresses (held_of later ts))
        → (r ≡ true)
          × IsBound st st'
          × (replay calls [] ≡ some (made_of s))
          × Perm (made_of s) (held_of s [])
          × Ends
              (java_destroy ts later)
              (λ ends. replay ends (held_of later ts) ≡ some (leaked later ts)))
unfolding java_destroy
java_init-java_destroy f b host jport st st' r arg s calls ts m e apart tagged made distinct =
    let starts = java_init-Starts f b host jport st' r (arg, s, calls) st e in
    let (start, same, end) =
      init-destroy b host (jport % 2 ^ 16) arg s calls ts m starts.server apart tagged made
        distinct in
    let statics = starts.statics in
    let is_bound : IsBound st st' = record {
      jvm = ap Statics.g_jvm statics;
      class = ap Statics.channel_handler_class statics;
      method = ap Statics.channel_read0 statics;
      handler = ap Statics.handlers statics;
    } in
    (starts.returns, is_bound, start, same, end)
