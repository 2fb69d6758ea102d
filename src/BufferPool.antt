-- ===== src/BufferPool.antt =====
-- src/rdma_buffer_pool.c, with each function run from one thread. The free list is the chain of
-- `next` pointers in the store.
pub mod Chain
pub mod Append
pub mod Invariant
pub mod Take
pub mod Get
pub mod Release
pub mod Threads
use spark_rdma_shuffle_engin.Base.{
  ℕ, zero, suc, ◌+◌, ◌-◌, ◌*◌, ◌/◌, ◌%◌, ◌^◌, List, [], ◌∷◌, Option, none, some, ltb, ◌==◌,
  if◌then◌else◌, add32, sub32, Outcome, ok, fault, ◌>>=◌, Status, done, failed,
}
use spark_rdma_shuffle_engin.Memory.{Ptr, null, Chunk, Store, update, set_next, rdma_buffer_size}

-- A node of `link_head`; no other list shares it.
pub record LinkNode : Type 0 where
  pub buffer : Ptr
  pub mr : Ptr

pub record Pool : Type 0 where
  pub link_head : List LinkNode
  pub free_list : Ptr
  pub total_size : ℕ
  pub free_size : ℕ
  pub pd : Ptr

pub record Machine : Type 0 where
  pub store : Store
  pub pool : Pool

-- What `calloc`, `malloc` and `ibv_reg_mr` return if the function comes to call them.
pub record Grant : Type 0 where
  pub node : Ptr
  pub buffer : Ptr
  pub mr : Ptr

-- The size in chunks, rounded up to whole buffers.
abbrev pub append_size : ℕ → ℕ
append_size size =
    (size / rdma_buffer_size + (if size % rdma_buffer_size == 0 then 0 else 1))
    * rdma_buffer_size
    % 2 ^ 32

-- The `for` loop: `n` rounds from address `p` on, less than 2 ^ 31 where append_buffer comes to it.
pub link_chunks : ℕ → Ptr → Ptr → Store → Store
link_chunks zero p mr st = st
link_chunks (suc n) p mr st =
    link_chunks n (suc p) mr (update st p (record (st p) { mr = mr; next = suc p }))

unfoldable pub append_node : Grant → ℕ → Machine → Machine
unfolding link_chunks
append_node g size m =
    let last = g.buffer + (size - 1) in
    let linked = link_chunks (size - 1) g.buffer g.mr m.store in
    record m {
      store = update linked last (record (linked last) { mr = g.mr; next = m.pool.free_list });
      pool = record m.pool {
        free_list = g.buffer;
        link_head = record { buffer = g.buffer; mr = g.mr } ∷ m.pool.link_head;
        total_size = add32 m.pool.total_size size;
        free_size = add32 m.pool.free_size size;
      };
    }

-- `append_rdma_buffer_pool` behind the rounding. `int i` of the loop overflows for more than 2 ^ 31
-- chunks.
unfoldable pub append_buffer : Grant → ℕ → Machine → Outcome (Status × Machine)
append_buffer g size m =
    if size == 0
    then ok (failed, m)
    else if g.node == null
    then fault
    else if g.buffer == null
    then ok (failed, m)
    else if g.mr == null
    then ok (failed, m)
    else if ltb (2 ^ 31) size
    then fault
    else ok (done, append_node g size m)

unfoldable pub append_rdma_buffer_pool : Grant → ℕ → Machine → Outcome (Status × Machine)
unfolding append_buffer
append_rdma_buffer_pool g asked m = append_buffer g (append_size asked) m

-- The second critical section of `get_rdma_chunk_from_pool`.
pub take_chunk : Machine → Outcome (Ptr × Machine)
take_chunk m =
    let chunk = m.pool.free_list in
    if chunk == null
    then fault
    else ok (
      chunk,
      record m {
        store = set_next m.store chunk null;
        pool = record m.pool {
          free_list = (m.store chunk).next;
          free_size = sub32 m.pool.free_size 1;
        };
      },
    )

pub get_rdma_chunk_from_pool : Grant → Machine → Outcome (Ptr × Machine)
unfolding take_chunk append_rdma_buffer_pool
get_rdma_chunk_from_pool g m =
    if m.pool.free_size == 0
    then (append_rdma_buffer_pool g rdma_buffer_size m >>= λ (s, m1). elim s [
      | failed ↦ ok (null, m1)
      | done ↦ take_chunk m1
    ])
    else take_chunk m

-- The `for` loop that walks to the last chunk of the list; `none` is its error branch.
pub walk : Store → ℕ → Ptr → Option Ptr
walk st zero now = some now
walk st (suc n) now = if now == null then none else walk st n (st now).next

-- The list is cut behind its last chunk.
pub cut_list : ℕ → Machine → Ptr → Machine
cut_list count m last = record m {
  store = set_next m.store last null;
  pool = record m.pool {
    free_list = (m.store last).next;
    free_size = sub32 m.pool.free_size count;
  };
}

-- The second critical section of `get_rdma_chunk_list_from_pool`.
pub take_list : ℕ → Machine → Outcome (Ptr × Machine)
unfolding walk cut_list
take_list count m = elim (walk m.store (count - 1) m.pool.free_list) [
  | none ↦ ok (null, m)
  | some now ↦ if now == null then fault else ok (m.pool.free_list, cut_list count m now)
]

pub get_rdma_chunk_list_from_pool : Grant → ℕ → Machine → Outcome (Ptr × Machine)
unfolding take_list append_rdma_buffer_pool
get_rdma_chunk_list_from_pool g count m =
    if count == 0
    then ok (null, m)
    else if ltb m.pool.free_size count
    then (append_rdma_buffer_pool g (sub32 count m.pool.free_size) m >>= λ (s, m1). elim s [
      | failed ↦ ok (null, m1)
      | done ↦ take_list count m1
    ])
    else take_list count m

pub release_rdma_chunk_to_pool : Ptr → Machine → Machine
release_rdma_chunk_to_pool chunk m = if chunk == null then m else record m {
  store = set_next m.store chunk m.pool.free_list;
  pool = record m.pool { free_list = chunk; free_size = add32 m.pool.free_size 1 };
}

-- The pool after `memset`.
abbrev pub empty_pool : Ptr → Store → Machine
empty_pool pd st = record {
  store = st;
  pool = record { link_head = []; free_list = null; total_size = 0; free_size = 0; pd = pd };
}

unfoldable pub init_rdma_buffer_pool : Grant → Ptr → Store → Outcome (Status × Machine)
unfolding append_rdma_buffer_pool
init_rdma_buffer_pool g pd st = append_rdma_buffer_pool g rdma_buffer_size (empty_pool pd st)

-- `destroy_rdma_buffer_pool`: the calls of `ibv_dereg_mr` and `free` on the buffers, in order, and
-- the pool that is left. `link_head` keeps its value.
pub data Freed : Type 0 where
  dereg_mr : Ptr → Freed
  free_buffer : Ptr → Freed

unfoldable pub free_nodes : Store → List LinkNode → List Freed
free_nodes st [] = []
free_nodes st (p ∷ ps) = dereg_mr (st p.buffer).mr ∷ free_buffer p.buffer ∷ free_nodes st ps

unfoldable pub destroy_rdma_buffer_pool : Machine → List Freed × Pool
unfolding free_nodes
destroy_rdma_buffer_pool m = (
  free_nodes m.store m.pool.link_head,
  record m.pool { free_list = null; free_size = 0; total_size = 0 },
)
