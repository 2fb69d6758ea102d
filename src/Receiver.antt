-- ===== src/Receiver.antt =====
-- The receiving side of src/rdma_transport.c: `handle_recv_event` files an arrived chunk under the
-- message that it belongs to, and `work_thread` hands complete messages to Java.
pub mod Arrive
pub mod Deliver
pub mod File
pub mod Fuel
pub mod Lengths
pub mod Threads
pub mod Wake
pub mod Work
pub mod Release
use spark_rdma_shuffle_engin.Base.{
  ℕ, zero, suc, ◌+◌, Bool, true, false, ◌&&◌, List, [], ◌∷◌, ◌++◌, Option, none, some, ltb, leb,
  ◌^◌, ◌==◌, if◌then◌else◌, add32, Outcome, ok, fault, abort, ◌>>=◌,
}
use spark_rdma_shuffle_engin.Memory.{Ptr, null, Chunk, Store, rdma_body_size, rdma_header_size}
use spark_rdma_shuffle_engin.Memory.Bytes.{Body, write_bytes, read_bytes}
use spark_rdma_shuffle_engin.BufferPool.{Machine, release_rdma_chunk_to_pool}
use spark_rdma_shuffle_engin.Transport.{VArray, WorkChunk}
use spark_rdma_shuffle_engin.Glib.{GQueue}

-- A receive completion: the work chunk behind `wr_id`, and `byte_len`.
pub record Completion : Type 0 where
  pub work_chunk : WorkChunk
  pub byte_len : ℕ

-- What a call of `jni_channel_callback` hands to Java; `len` is an int that is not negative.
pub record Message : Type 0 where
  pub bytes : List ℕ
  pub len : ℕ

-- The first loop of `work_thread`: the ids are checked and the lengths added up.
pub sum_lengths : Store → (data_id : ℕ) → (data_len : ℕ) → List Ptr → Outcome ℕ
sum_lengths st data_id data_len [] = ok data_len
sum_lengths st data_id data_len (c ∷ cs) =
    let rest = sum_lengths st data_id (add32 data_len (st c).header.chunk_len) cs in
    if data_id == (st c).header.data_id then rest else abort

-- The second loop: `set_byte_array_region` at `pos`, chunk by chunk, in an array of `data_len`
-- bytes. A length past the body reads out of bounds, and a region past the array is an exception of
-- Java under which the calls that follow are undefined.
pub set_regions : Store → (data_len : ℕ) → (pos : ℕ) → List Ptr → Body → Outcome Body
set_regions st data_len pos [] jba = ok jba
set_regions st data_len pos (c ∷ cs) jba =
    let len = (st c).header.chunk_len in
    let rest =
      set_regions st data_len (pos + len) cs (write_bytes jba pos (read_bytes (st c).body 0 len)) in
    if ltb rdma_body_size len then fault else if ltb data_len (pos + len) then fault else rest

pub release_all : List Ptr → Machine → Machine
release_all [] m = m
release_all (c ∷ cs) m = release_all cs (release_rdma_chunk_to_pool c m)

-- One complete array, from `data[0]` to the last release. The lengths and positions are passed as
-- int. From 2 ^ 31 bytes on the length is negative: NewByteArray throws and returns NULL, and the
-- calls that follow on NULL are undefined. Below, every position is at most the length, and the
-- conversion keeps it. A new Java array holds zeros.
pub deliver_chunks : (data_id : ℕ) → List Ptr → Machine → Outcome (Message × Machine)
unfolding sum_lengths set_regions release_all
deliver_chunks data_id [] m = fault
deliver_chunks data_id (c ∷ cs) m = sum_lengths m.store data_id 0 (c ∷ cs) >>= λ data_len.
    if (m.store c).header.data_len == data_len
    then (if ltb data_len (2 ^ 31)
        then (set_regions m.store data_len 0 (c ∷ cs) (λ _. 0) >>= λ jba.
            ok (
              record { bytes = read_bytes jba 0 data_len; len = data_len },
              release_all (c ∷ cs) m,
            ))
        else fault)
    else abort

pub deliver : VArray → Machine → Outcome (Message × Machine)
unfolding deliver_chunks
deliver a m = deliver_chunks a.data_id a.chunks m

abbrev pub update_array : (Ptr → VArray) → Ptr → VArray → Ptr → VArray
update_array arrays p a q = if p == q then a else arrays q

abbrev pub is_complete : VArray → Bool
is_complete a = a.len == a.size

-- An array with its first chunk, and an array with one more.
abbrev pub opened : WorkChunk → (data_id chunk_num : ℕ) → VArray
opened w data_id chunk_num = record {
  transport = w.transport;
  data_id = data_id;
  len = 1;
  size = chunk_num;
  chunks = w.chunk ∷ [];
}

abbrev pub extended : WorkChunk → VArray → VArray
extended w a = record a { len = a.len + 1; chunks = a.chunks ++ w.chunk ∷ [] }

module _ (G : GQueue Ptr) where
  open G use {Queue, push_tail, peek_head, pop_head, find_custom}

  -- The receiving part of `struct rdma_transport`, the arrays that its queue points to, and the
  -- number of calls of `g_thread_pool_push`.
  pub record Receiver : Type 0 where
    pub work_queue : Queue
    pub arrays : Ptr → VArray
    pub is_work_running : ℕ
    pub submitted : ℕ

  -- `compare_func` returns 0
  pub same_id : Receiver → ℕ → Ptr → Bool
  same_id s data_id p = (s.arrays p).data_id == data_id

  -- The branch `found == NULL`; `fresh` is what `calloc` returns. An array for no chunk has no
  -- room for the first.
  unfoldable pub new_array :
      (fresh : Ptr) → (chunk_num : ℕ) → WorkChunk → ℕ → Receiver → Outcome Receiver
  new_array fresh chunk_num w data_id s =
      if fresh == null
      then abort
      else if chunk_num == 0
      then fault
      else ok (record s {
        work_queue = push_tail s.work_queue fresh;
        arrays = update_array s.arrays fresh (opened w data_id chunk_num);
      })

  -- The other branch.
  pub add_chunk : (found : Ptr) → WorkChunk → ℕ → Receiver → Outcome Receiver
  add_chunk found w data_id s =
      let now = s.arrays found in
      if leb now.size now.len
      then abort
      else if now.data_id == data_id
      then ok (record s { arrays = update_array s.arrays found (extended w now) })
      else abort

  -- The last critical section of `handle_recv_event`.
  pub wake : Receiver → Receiver
  wake s = elim (peek_head s.work_queue) [
    | none ↦ s
    | some head ↦
        if (s.is_work_running == 0) && is_complete (s.arrays head)
        then record s { is_work_running = 1; submitted = s.submitted + 1 }
        else s
  ]

  -- The middle: the search and its two branches.
  pub file_chunk : (fresh : Ptr) → Store → WorkChunk → Receiver → Outcome Receiver
  unfolding same_id new_array add_chunk
  file_chunk fresh st w s =
      let header = (st w.chunk).header in
      elim (find_custom s.work_queue (same_id s header.data_id)) [
        | none ↦ new_array fresh header.chunk_num w header.data_id s
        | some found ↦ add_chunk found w header.data_id s
      ]

  pub handle_recv_event : (fresh : Ptr) → Store → Completion → Receiver → Outcome Receiver
  unfolding file_chunk wake
  handle_recv_event fresh st wc s =
      let w = wc.work_chunk in
      if add32 (st w.chunk).header.chunk_len rdma_header_size == wc.byte_len
      then (file_chunk fresh st w s >>= λ s'. ok (wake s'))
      else abort

  -- `work_thread` with fuel for its rounds; `none` if that runs out.
  pub work_thread : ℕ → Receiver → Machine → Option (Outcome (List Message × Receiver × Machine))
  unfolding deliver
  work_thread zero s m = none
  work_thread (suc fuel) s m = elim (peek_head s.work_queue) [
    | none ↦ some (ok ([], record s { is_work_running = 0 }, m))
    | some head ↦
        let a = s.arrays head in
        let s' = record s { work_queue = pop_head s.work_queue } in
        let next : Option (Outcome (List Message × Receiver × Machine)) = elim (deliver a m) [
          | ok (msg, m') ↦ elim (work_thread fuel s' m') [
            | none ↦ none
            | some r ↦ some (r >>= λ (msgs, s2, m2). ok (msg ∷ msgs, s2, m2))
          ]
          | fault ↦ some fault
          | abort ↦ some abort
        ] in
        if is_complete a
        then (if s.is_work_running == 1 then next else some abort)
        else some (ok ([], record s { is_work_running = 0 }, m))
  ]
