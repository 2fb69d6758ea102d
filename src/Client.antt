-- ===== src/Client.antt =====
-- src/rdma_transport_client.c: a message is cut into chunks, copied and posted.
pub mod Copy
pub mod CopyBoth
pub mod Same
pub mod Requests
pub mod Send
pub mod Sizes
use spark_rdma_shuffle_engin.Base.{
  ℕ, zero, suc, ◌+◌, ◌-◌, ◌*◌, ◌/◌, ◌%◌, ◌^◌, Bool, true, false, List, [], ◌∷◌, ltb, ◌==◌,
  if◌then◌else◌, add32, sub32, drop, Outcome, ok, fault, abort, ◌>>=◌, ℤ, is_negative,
}
use spark_rdma_shuffle_engin.Memory.{
  Ptr, null, Chunk, ChunkHeader, Store, update, rdma_body_size, rdma_header_size,
}
use spark_rdma_shuffle_engin.Memory.Bytes.{memcpy}
use spark_rdma_shuffle_engin.Transport.{VArray, WorkChunk, WorkRequest, Verbs, rdma_transport_send}
use spark_rdma_shuffle_engin.BufferPool.{Grant, Machine, get_rdma_chunk_list_from_pool}

-- `len / RDMA_BODY_SIZE`, rounded up
abbrev pub chunk_count : ℕ → ℕ
chunk_count len = len / rdma_body_size + (if len % rdma_body_size == 0 then 0 else 1)

-- The `for` loop of `send_msg` that fills the array: `n` rounds along the list from `chunk` on.
pub collect : Store → ℕ → Ptr → Outcome (List Ptr × Ptr)
collect st zero chunk = ok ([], chunk)
collect st (suc n) chunk =
    let rest = collect st n (st chunk).next in
    if chunk == null then fault else (rest >>= λ (cs, p). ok (chunk ∷ cs, p))

-- `now_len > RDMA_BODY_SIZE ? RDMA_BODY_SIZE : now_len`
abbrev pub copy_length : ℕ → ℕ
copy_length now_len = if ltb rdma_body_size now_len then rdma_body_size else now_len

-- The chunk after its header is written and `body` is what the copies made of its body.
abbrev pub filled : (data_id chunk_num len i copy_len : ℕ) (c : Chunk) (body : ℕ → ℕ) → Chunk
filled data_id chunk_num len i copy_len c body = record c {
  header = record {
    flags = 0;
    chunk_id = i;
    chunk_len = copy_len;
    chunk_num = chunk_num;
    data_id = data_id;
    data_len = len;
  };
  body = body;
}

module _ (data_id chunk_num len : ℕ) where
  -- The loop of `copy_msg_to_rdma` from chunk `i` on.
  pub copy_chunks : (i now_len : ℕ) → List Ptr → (now : List ℕ) → Store → Outcome Store
  copy_chunks i now_len [] now st = ok st
  copy_chunks i now_len (chunk ∷ chunks) now st =
      let copy_len = copy_length now_len in
      memcpy (st chunk).body 0 now copy_len >>= λ body.
      copy_chunks (suc i) (sub32 now_len rdma_body_size) chunks (drop copy_len now)
        (update st chunk (filled data_id chunk_num len i copy_len (st chunk) body))

  -- The loop of `copy_header_and_body_to_rdma` once `is_header` is 0.
  pub copy_body_chunks : (i now_len : ℕ) → List Ptr → (now : List ℕ) → Store → Outcome Store
  copy_body_chunks i now_len [] now st = ok st
  copy_body_chunks i now_len (chunk ∷ chunks) now st =
      let copy_len = copy_length now_len in
      memcpy (st chunk).body 0 now copy_len >>= λ b.
      copy_body_chunks (suc i) (sub32 now_len copy_len) chunks (drop copy_len now)
        (update st chunk (filled data_id chunk_num len i copy_len (st chunk) b))

  -- The same loop while `is_header` is 1: `now` runs through the header, of which `head_len` bytes
  -- are left.
  pub copy_header_chunks :
      (i head_len now_len : ℕ) (body : List ℕ) → List Ptr → (now : List ℕ) → Store → Outcome Store
  unfolding copy_body_chunks
  copy_header_chunks i head_len now_len body [] now st = ok st
  copy_header_chunks i head_len now_len body (chunk ∷ chunks) now st =
      let copy_len = copy_length now_len in
      let whole = memcpy (st chunk).body 0 now rdma_body_size >>= λ b.
      copy_header_chunks (suc i) (sub32 head_len rdma_body_size) (sub32 now_len copy_len) body
        chunks (drop rdma_body_size now)
        (update st chunk (filled data_id chunk_num len i copy_len (st chunk) b)) in
      if ltb head_len rdma_body_size
      then (memcpy (st chunk).body 0 now head_len >>= λ b1.
          memcpy b1 head_len body (sub32 copy_len head_len) >>= λ b2.
          copy_body_chunks (suc i) (sub32 now_len copy_len) chunks
            (drop (sub32 copy_len head_len) body)
            (update st chunk (filled data_id chunk_num len i copy_len (st chunk) b2)))
      else whole

pub copy_msg_to_rdma : VArray → (msg : List ℕ) (len : ℕ) → Store → Outcome Store
unfolding copy_chunks
copy_msg_to_rdma arr msg len st = copy_chunks arr.data_id arr.size len 0 len arr.chunks msg st

pub copy_header_and_body_to_rdma :
    VArray → (header : List ℕ) (head_len : ℕ) (body : List ℕ) (body_len : ℕ) → Store → Outcome Store
unfolding copy_header_chunks
copy_header_and_body_to_rdma arr header head_len body body_len st =
    let len = add32 head_len body_len in
    copy_header_chunks arr.data_id arr.size len 0 head_len len body arr.chunks header st

-- The loop of `rdma_send_msg`: what is posted, in order.
pub send_chunks :
    Verbs → Store → (transport : Ptr) → (len : ℕ) → List Ptr → Outcome (List WorkRequest)
send_chunks v st transport len [] = ok []
send_chunks v st transport len (chunk ∷ chunks) =
    rdma_transport_send v st
      (record { transport = transport; chunk = chunk; len = copy_length len })
    >>= λ wr. send_chunks v st transport (sub32 len rdma_body_size) chunks >>= λ wrs. ok (wr ∷ wrs)

pub rdma_send_msg : Verbs → VArray → (len : ℕ) → Store → Outcome (List WorkRequest)
unfolding send_chunks
rdma_send_msg v arr len st = send_chunks v st arr.transport len arr.chunks

-- The transport as a client uses it: its address and the id of the next message.
pub record ClientTransport : Type 0 where
  pub address : Ptr
  pub data_id : ℕ

-- `client->data_id++`
abbrev pub next_id : ClientTransport → ClientTransport
next_id client = record client { data_id = add32 client.data_id 1 }

-- The start of `send_msg` and `send_msg_with_header`: an array with the chunks for `len` bytes.
pub chunk_array : Grant → ClientTransport → (len : ℕ) → Machine → Outcome (VArray × Machine)
unfolding collect
chunk_array g client len m =
    get_rdma_chunk_list_from_pool g (chunk_count len) m >>= λ (chunk_list, m').
    if chunk_list == null
    then abort
    else collect m'.store (chunk_count len) chunk_list >>= λ (cs, chunk).
        if chunk == null
        then ok (
          record {
            transport = client.address;
            data_id = client.data_id;
            len = 0;
            size = chunk_count len;
            chunks = cs;
          },
          m',
        )
        else abort

-- What a client keeps of a call: the requests posted, its transport and the machine.
abbrev pub SendResult : Type 0
SendResult = List WorkRequest × ClientTransport × Machine

pub send_msg :
    Verbs → Grant → ClientTransport → (msg : List ℕ) (len : ℕ) → Machine → Outcome SendResult
send_msg v g client msg len m = chunk_array g client len m >>= λ (arr, m').
    copy_msg_to_rdma arr msg len m'.store >>= λ st.
    rdma_send_msg v arr len st >>= λ wrs. ok (wrs, next_id client, record m' { store = st })

pub send_msg_with_header :
    Verbs
    → Grant
    → ClientTransport
    → (header : List ℕ) (head_len : ℕ) (body : List ℕ) (body_len : ℕ) → Machine
    → Outcome SendResult
send_msg_with_header v g client header head_len body body_len m =
    let len = add32 head_len body_len in
    chunk_array g client len m >>= λ (arr, m').
    copy_header_and_body_to_rdma arr header head_len body body_len m'.store >>= λ st.
    rdma_send_msg v arr len st >>= λ wrs. ok (wrs, next_id client, record m' { store = st })
