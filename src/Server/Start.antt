-- ===== src/Server/Start.antt =====
-- init_server of src/rdma_transport_server.c, and the whole life of a server.
use spark_rdma_shuffle_engin.Base.{
  ℕ, ◌≡◌, refl, sym, ap, ◌∙◌, ◌≢◌, inl, inr, List, [], ◌∷◌, ◌++◌, append-nil, append_assoc, Option,
  none, some, arith, Distinct, Bool-cases, ==_iff, ◌==◌, if◌then◌else◌, Ends, Outcome, >>=-eq-ok,
  ok, abort, Status, done, failed,
}
use mathlib.Core.List.{Perm}
use mathlib.Core.List.Perm
use spark_rdma_shuffle_engin.Memory.{Ptr, null}
use spark_rdma_shuffle_engin.BufferPool.{Machine, LinkNode, init_rdma_buffer_pool}
use spark_rdma_shuffle_engin.Peers.{Text}
use spark_rdma_shuffle_engin.Server.Calls.{
  Call, makes, device, pd, devices, pool, mr, buffer, Resource, addresses, replay,
}
use spark_rdma_shuffle_engin.Server.Calls.Order.{replay-makes, replay-end}
use spark_rdma_shuffle_engin.Server.{
  Boot, AcceptThreadArg, Started, Server, HeldTransport, node_calls, nodes_calls, pool_made, served,
  rdma_context_init, init_server_socket, init_server, destroy_server,
}
use spark_rdma_shuffle_engin.Server.Destroy.{
  of_nodes, held_of, leaked, AreMade, AreTagged, destroy-replay, Holds, of_nodes-Holds,
}

-- A test that goes to `abort` has failed where the run ends well.
not_null {ℓ} :
    {A : Type ℓ} (p : Ptr) (r : Outcome A) (a : A)
    → (if p == null then abort else r) ≡ ok a
    → (p ≢ null) × (r ≡ ok a)
not_null p r a e = elim (Bool-cases (p == null)) [
  | inl gone ↦ absurd (cc (rw gone at e))
  | inr there ↦ ((λ same. cc (there, (==_iff p null).1 same)), rw there at e)
]

-- What a start leaves.
record IsStarted (s : Server) (calls : List Call) : Type 0 where
  pd_there : s.pd ≢ null
  context_there : s.ibv_context ≢ null
  made :
      calls
      ≡ makes devices s.dev_list []
        ∷ makes device s.ibv_context []
        ∷ makes pd s.pd (s.ibv_context ∷ [])
        ∷ makes pool s.rbp []
        ∷ nodes_calls s.pd s.machine.pool.link_head

pool_made-IsStarted :
    (b : Boot) (r : Status × Machine) (s : Server) (calls : List Call)
    → b.pd ≢ null
    → b.ibv_context ≢ null
    → pool_made b r ≡ ok (s, calls)
    → IsStarted s calls
pool_made-IsStarted b (failed, m) s calls p c e = absurd (cc e)
pool_made-IsStarted b (done, m) s calls p c e =
    let same : s ≡ record {
      dev_list = b.dev_list;
      ibv_context = b.ibv_context;
      pd = b.pd;
      rbp = b.rbp;
      machine = m;
    } =
      cc e in
    rw same (record { pd_there = p; context_there = c; made = cc e })

context_init-IsStarted :
    (b : Boot) (s : Server) (calls : List Call)
    → rdma_context_init b ≡ ok (s, calls)
    → IsStarted s calls
unfolding rdma_context_init
context_init-IsStarted b s calls e =
    let e0 = (not_null b.context _ (s, calls) e).1 in
    let e1 = (not_null b.dev_list _ (s, calls) e0).1 in
    let e2 = (not_null b.ib_dev _ (s, calls) e1).1 in
    let (c, e3) = not_null b.ibv_context _ (s, calls) e2 in
    let (p, e4) = not_null b.pd _ (s, calls) e3 in
    let e5 = (not_null b.rbp _ (s, calls) e4).1 in
    let (r, made, e6) =
      >>=-eq-ok (init_rdma_buffer_pool b.grant b.pd b.store) (pool_made b) (s, calls) e5 in
    pool_made-IsStarted b r s calls p c e6

served-same :
    (made : Server × List Call) (o : Option AcceptThreadArg) (a : Started)
    → served made o ≡ ok a
    → made ≡ (a.1, a.2)
served-same made none a e = absurd (cc e)
served-same (s, calls) (some arg) a e =
    let same : (arg, s, calls) ≡ a = cc e in ap (λ (t : Started). (t.1, t.2)) same

-- A start that returns has made what it returns.
init_server-IsStarted :
    (b : Boot) (host : Text) (port : ℕ) (arg : AcceptThreadArg) (s : Server) (calls : List Call)
    → init_server b host port ≡ ok (arg, s, calls)
    → IsStarted s calls
unfolding init_server
init_server-IsStarted b host port arg s calls e =
    let (made, e0, e1) = >>=-eq-ok (rdma_context_init b) _ (arg, s, calls) e in
    let (o, e2, e3) = >>=-eq-ok (init_server_socket b host port) (served made) (arg, s, calls) e1 in
    context_init-IsStarted b s calls (e0 ∙ ap ok (served-same made o (arg, s, calls) e3))

module _ (s : Server) where
  replay-nodes :
      (ns : List LinkNode) (cs : List Call) (held : List Resource)
      → Holds s held
      → Distinct (addresses (of_nodes s ns ++ held))
      → replay (nodes_calls s.pd ns ++ cs) held ≡ replay cs (of_nodes s ns ++ held)
  replay-nodes [] cs held h distinct = refl
  replay-nodes (n ∷ ns) cs held h (new_mr, (new_buffer, distinct)) =
      let under : List Resource = of_nodes s ns ++ held in
      let block : Resource = record { kind = buffer; address = n.buffer; over = [] } in
      let (p, c, o) = of_nodes-Holds s ns held h in
      ap (λ t. replay t held) (append_assoc (nodes_calls s.pd ns) (node_calls s.pd n) cs)
      ∙ replay-nodes ns (node_calls s.pd n ++ cs) held h distinct
      ∙ replay-makes buffer n.buffer [] _ under new_buffer refl
      ∙ replay-makes mr n.mr (n.buffer ∷ s.pd ∷ []) cs (block ∷ under) new_mr (ground (arith, p))

  under_nodes :
      (ns : List LinkNode) (held : List Resource)
      → Distinct (addresses (of_nodes s ns ++ held))
      → Distinct (addresses held)
  under_nodes [] held distinct = distinct
  under_nodes (n ∷ ns) held (new_mr, (new_buffer, distinct)) = under_nodes ns held distinct

  -- What is made before the buffers of the pool, the last first.
  abbrev pub base : List Resource
  base =
      record { kind = pool; address = s.rbp; over = [] }
      ∷ record { kind = pd; address = s.pd; over = s.ibv_context ∷ [] }
      ∷ record { kind = device; address = s.ibv_context; over = [] }
      ∷ record { kind = devices; address = s.dev_list; over = [] }
      ∷ []

  -- All that a start makes.
  abbrev pub made_of : List Resource
  made_of = of_nodes s s.machine.pool.link_head ++ base

  made_of-Perm_held_of : Perm made_of (held_of s [])
  made_of-Perm_held_of =
      let listed : Resource = record { kind = devices; address = s.dev_list; over = [] } in
      let opened : Resource = record { kind = device; address = s.ibv_context; over = [] } in
      let domain : Resource = record { kind = pd; address = s.pd; over = s.ibv_context ∷ [] } in
      let kept : Resource = record { kind = pool; address = s.rbp; over = [] } in
      Perm.append_left (of_nodes s s.machine.pool.link_head) (
        Perm.trans (Perm.swap domain kept (opened ∷ listed ∷ []))
          (Perm.cons domain (Perm.swap opened kept (listed ∷ []))))

  replay-start :
      Distinct (addresses made_of)
      → replay
          (makes devices s.dev_list []
            ∷ makes device s.ibv_context []
            ∷ makes pd s.pd (s.ibv_context ∷ [])
            ∷ makes pool s.rbp []
            ∷ nodes_calls s.pd s.machine.pool.link_head)
          []
        ≡ some made_of
  replay-start distinct =
      let ns : List LinkNode = s.machine.pool.link_head in
      let listed : List Resource =
        record { kind = devices; address = s.dev_list; over = [] } ∷ [] in
      let opened : List Resource =
        record { kind = device; address = s.ibv_context; over = [] } ∷ listed in
      let domain : List Resource =
        record { kind = pd; address = s.pd; over = s.ibv_context ∷ [] } ∷ opened in
      let (new_rbp, (new_pd, (new_device, alone))) = under_nodes ns base distinct in
      replay-makes devices s.dev_list [] _ [] refl refl
      ∙ replay-makes device s.ibv_context [] _ listed new_device refl
      ∙ replay-makes pd s.pd (s.ibv_context ∷ []) _ opened new_pd (ground arith)
      ∙ replay-makes pool s.rbp [] _ domain new_rbp refl
      ∙ ap (λ cs. replay cs base) (sym (append-nil (nodes_calls s.pd ns)))
      ∙ replay-nodes ns [] base
          (ground arith, ground arith, (refl, (ground arith, (refl, (refl, tt))))) distinct
      ∙ replay-end (of_nodes s ns ++ base)

-- Where `init_server` returns a server, and the resources it made are apart: its calls are
-- allowed in their order and make just what the server holds. If later the table has transports
-- with their connections made, visited in any order, the pool has any buffers, the first chunk of
-- each with its region, and all resources are apart, then `destroy_server` runs to its end: each
-- of its calls is of the right kind, frees what is held, and frees nothing that a resource still
-- held was made over; and of all that the server held, just the queues of completions are left.
pub init-destroy :
    (b : Boot) (host : Text) (port : ℕ) (arg : AcceptThreadArg) (s : Server) (calls : List Call)
    (ts : List HeldTransport) (m : Machine)
    → (let later : Server = record s { machine = m } in
        init_server b host port ≡ ok (arg, s, calls)
        → Distinct (addresses (made_of s))
        → AreTagged m.store m.pool.link_head
        → AreMade ts
        → Distinct (addresses (held_of later ts))
        → (replay calls [] ≡ some (made_of s))
          × Perm (made_of s) (held_of s [])
          × Ends
              (destroy_server ts later)
              (λ ends. replay ends (held_of later ts) ≡ some (leaked later ts)))
init-destroy b host port arg s calls ts m e apart tagged made distinct =
    let started = init_server-IsStarted b host port arg s calls e in
    (
      ap (λ cs. replay cs []) started.made ∙ replay-start s apart,
      made_of-Perm_held_of s,
      destroy-replay (record s { machine = m }) ts started.pd_there started.context_there tagged
          made distinct,
    )
