-- ===== src/Client/Same.antt =====
-- copy_header_and_body_to_rdma and send_msg_with_header of src/rdma_transport_client.c do what
-- copy_msg_to_rdma and send_msg do with the header and the body in one piece.
use mathlib.Core.Path.{fun_ext}
use spark_rdma_shuffle_engin.Base.{
  ℕ, zero, suc, ◌-◌, ◌≤◌, ◌<◌, ◌^◌, ◌≡◌, refl, sym, ap, ap₂, subst, ◌∙◌, inl, inr, List, [], ◌∷◌,
  ◌++◌, arith, length, length-append, take, drop, take-all, take-append, drop-append,
  take-append_le, drop-append_le, length-take, length-drop, Outcome, ok, fault, abort, sub32, add32,
  lt→ltb, le→ltb, dec_lt, ◌>>=◌, Bool-cases, ◌==◌,
}
use spark_rdma_shuffle_engin.Memory.{Ptr, null, Store, rdma_body_size}
use spark_rdma_shuffle_engin.Memory.Bytes.{memcpy, memcpy-ok, Body, write_bytes, write_bytes-append}
use spark_rdma_shuffle_engin.BufferPool.{Grant, Machine, get_rdma_chunk_list_from_pool}
use spark_rdma_shuffle_engin.Transport.{VArray, Verbs}
use spark_rdma_shuffle_engin.Client.{
  collect, rdma_send_msg, next_id, copy_length, copy_chunks, copy_body_chunks, copy_header_chunks,
  copy_msg_to_rdma, copy_header_and_body_to_rdma, chunk_count, chunk_array, ClientTransport,
  send_msg, send_msg_with_header,
}
use spark_rdma_shuffle_engin.Client.Copy.{
  copy_length-IsPiece, Needs, Needs-drop, IsPiece-left, chunk_count-Needs,
}

-- Two copies, the second behind the first, are one of the two sources in one.
memcpy_two :
    (b : Body) (now body : List ℕ) (n : ℕ)
    → length now ≤ n
    → n ≤ rdma_body_size
    → n ≤ length (now ++ body)
    → (memcpy b 0 now (length now) >>= λ b1. memcpy b1 (length now) body (n - length now))
      ≡ memcpy b 0 (now ++ body) n
memcpy_two b now body n over fits within =
    rw
      (
        memcpy-ok b 0 now (length now) (omega arith) (omega arith),
        memcpy-ok b 0 (now ++ body) n (omega arith) within,
        take-all (length now) now (omega arith),
        take-append now body n over,
      )
      (memcpy-ok (write_bytes b 0 now) (length now) body (n - length now) (omega arith)
          (omega (arith, length-append now body))
        ∙ ap ok (write_bytes-append b now (take (n - length now) body)))

>>=-assoc {ℓ} :
    {A B C : Type ℓ} (r : Outcome A) (f : A → Outcome B) (k : B → Outcome C)
    → (r >>= λ a. f a >>= k) ≡ ((r >>= f) >>= k)
>>=-assoc (ok a) f k = refl
>>=-assoc fault f k = refl
>>=-assoc abort f k = refl

module _ (data_id chunk_num len : ℕ) where
  -- The two loops count what is left in two ways, which agree while a chunk is left.
  copy_body_chunks-copy_chunks :
      (i a b : ℕ) (cs : List Ptr) (now : List ℕ) (st : Store)
      → Needs (length cs) now
      → (0 < length cs → (a ≡ length now) × (b ≡ length now))
      → length now < 2 ^ 32
      → copy_body_chunks data_id chunk_num len i a cs now st
        ≡ copy_chunks data_id chunk_num len i b cs now st
  unfolding copy_body_chunks copy_chunks
  copy_body_chunks-copy_chunks i a b [] now st need e small = refl
  copy_body_chunks-copy_chunks i a b (c ∷ cs) now st need e small =
      let (ea, eb) = e (omega arith) in
      let piece = copy_length-IsPiece now in
      let copy_len : ℕ = copy_length (length now) in
      rw
        (
          ea,
          eb,
          memcpy-ok (st c).body 0 now copy_len (omega (arith, piece.fits)) piece.within,
          piece.rest,
        )
        (copy_body_chunks-copy_chunks (suc i) (sub32 (length now) copy_len)
          (sub32 (length now) rdma_body_size) cs (drop rdma_body_size now) _
          (Needs-drop (length cs) now need)
          (λ more. (
            IsPiece-left now copy_len (length now) piece refl small,
            omega (arith, more, need.0, need.1, length-drop rdma_body_size now),
          ))
          (omega (arith, length-drop rdma_body_size now)))

  copy_header_chunks-copy_chunks :
      (i head_len a b : ℕ) (body : List ℕ) (cs : List Ptr) (now : List ℕ) (st : Store)
      → Needs (length cs) (now ++ body)
      → head_len ≡ length now
      → (0 < length cs → (a ≡ length (now ++ body)) × (b ≡ length (now ++ body)))
      → length (now ++ body) < 2 ^ 32
      → copy_header_chunks data_id chunk_num len i head_len a body cs now st
        ≡ copy_chunks data_id chunk_num len i b cs (now ++ body) st
  unfolding copy_header_chunks copy_chunks
  copy_header_chunks-copy_chunks i head_len a b body [] now st need eh e small = refl
  copy_header_chunks-copy_chunks i head_len a b body (c ∷ cs) now st need eh e small =
      let (ea, eb) = e (omega arith) in
      let msg : List ℕ = now ++ body in
      let piece = copy_length-IsPiece msg in
      let copy_len : ℕ = copy_length (length msg) in
      let rest : ℕ = sub32 (length msg) copy_len in
      let need' : Needs (length cs) (drop rdma_body_size msg) = Needs-drop (length cs) msg need in
      let small' : length (drop rdma_body_size msg) < 2 ^ 32 =
        omega (arith, length-drop rdma_body_size msg) in
      let left : rest ≡ length (drop rdma_body_size msg) =
        IsPiece-left msg copy_len (length msg) piece refl small in
      let counts : 0 < length cs
          → (rest ≡ length (drop rdma_body_size msg))
            × (sub32 (length msg) rdma_body_size ≡ length (drop rdma_body_size msg)) =
        λ more. (left, omega (arith, more, need.0, need.1, length-drop rdma_body_size msg)) in
      elim (dec_lt (length now) rdma_body_size) [
        | yes ends ↦
            let over : length now ≤ copy_len =
              omega (arith, piece.size, length-take rdma_body_size msg, length-append now body) in
            let second : sub32 copy_len (length now) ≡ copy_len - length now =
              omega (arith, piece.fits) in
            let behind : drop (copy_len - length now) body ≡ drop rdma_body_size msg =
              sym (drop-append now body copy_len over) ∙ piece.rest in
            rw (ea, eb, eh, lt→ltb (length now) rdma_body_size ends, second, behind, piece.rest)
              (>>=-assoc (memcpy (st c).body 0 now (length now))
                  (λ b1. memcpy b1 (length now) body (copy_len - length now)) _
                ∙ ap₂ ◌>>=◌ (memcpy_two (st c).body now body copy_len over piece.fits piece.within)
                    (fun_ext (λ b2.
                      copy_body_chunks-copy_chunks (suc i) rest (sub32 (length msg) rdma_body_size)
                        cs (drop rdma_body_size msg) _ need' counts small')))
        | no more ↦
            let long : rdma_body_size ≤ length now = omega arith in
            let whole : copy_len ≡ rdma_body_size =
              omega (arith, piece.size, length-take rdma_body_size msg, length-append now body) in
            let cut : drop rdma_body_size now ++ body ≡ drop rdma_body_size msg =
              sym (drop-append_le rdma_body_size now body long) in
            rw
              (
                ea,
                eb,
                eh,
                le→ltb rdma_body_size (length now) long,
                memcpy-ok (st c).body 0 now rdma_body_size (omega arith) long,
                memcpy-ok (st c).body 0 msg copy_len (omega (arith, piece.fits)) piece.within,
                piece.bytes,
                take-append_le rdma_body_size now body long,
                piece.rest,
                ← cut,
              )
              (copy_header_chunks-copy_chunks (suc i) (sub32 (length now) rdma_body_size) rest
                (sub32 (length msg) rdma_body_size) body cs (drop rdma_body_size now) _
                (rw cut need')
                (omega (arith, length-drop rdma_body_size now, length-append now body))
                (rw cut counts) (rw cut small'))
      ]

copy_both-copy_msg :
    (arr : VArray) (header body : List ℕ) (st : Store)
    → length (header ++ body) < 2 ^ 32
    → arr.size ≡ length arr.chunks
    → arr.size ≡ chunk_count (length (header ++ body))
    → copy_header_and_body_to_rdma arr header (length header) body (length body) st
      ≡ copy_msg_to_rdma arr (header ++ body) (length (header ++ body)) st
unfolding copy_header_and_body_to_rdma copy_msg_to_rdma
copy_both-copy_msg arr header body st small size count =
    let msg : List ℕ = header ++ body in
    let len : add32 (length header) (length body) ≡ length msg =
      omega (arith, length-append header body) in
    rw len (
      copy_header_chunks-copy_chunks arr.data_id arr.size (length msg) 0 (length header)
        (length msg) (length msg) body arr.chunks header st
        (subst (λ n. Needs n msg) (sym count ∙ size) (chunk_count-Needs msg)) refl
        (λ more. (refl, refl)) small)

-- Whatever value the run ends with satisfies `P`; it need not end with one.
abbrev WhenOk {ℓ} : {A : Type ℓ} → Outcome A → (A → Type 0) → Type 0
WhenOk (ok a) P = P a
WhenOk fault P = Unit {0}
WhenOk abort P = Unit {0}

always {ℓ} : {A : Type ℓ} (r : Outcome A) → WhenOk r (λ _. Unit {0})
always (ok a) = tt
always fault = tt
always abort = tt

WhenOk-bind {ℓ κ} :
    {A : Type ℓ} {B : Type κ} (P : A → Type 0) (Q : B → Type 0) (r : Outcome A) (f : A → Outcome B)
    → WhenOk r P
    → ((a : A) → P a → WhenOk (f a) Q)
    → WhenOk (r >>= f) Q
WhenOk-bind P Q (ok a) f h next = next a h
WhenOk-bind P Q fault f h next = tt
WhenOk-bind P Q abort f h next = tt

-- Two runs that agree on what a first run may end with.
>>=-cong {ℓ κ} :
    {A : Type ℓ} {B : Type κ} (P : A → Type 0) (r : Outcome A) (f k : A → Outcome B)
    → WhenOk r P
    → ((a : A) → P a → f a ≡ k a)
    → (r >>= f) ≡ (r >>= k)
>>=-cong P (ok a) f k h same = same a h
>>=-cong P fault f k h same = refl
>>=-cong P abort f k h same = refl

collect-length : (st : Store) (n : ℕ) (p : Ptr) → WhenOk (collect st n p) (λ (cs, q). length cs ≡ n)
unfolding collect
collect-length st zero p = refl
collect-length st (suc n) p = elim (Bool-cases (p == null)) [
  | inl none ↦ rw none tt
  | inr more ↦ rw more (
      WhenOk-bind (λ (cs, q). length cs ≡ n) (λ (cs, q). length cs ≡ suc n)
        (collect st n (st p).next) _ (collect-length st n (st p).next) (λ (cs, q) e. ap suc e))
]

-- The array that `chunk_array` fills holds as many chunks as it says, and as the message needs.
abbrev IsFull : ℕ → VArray × Machine → Type 0
IsFull len a = (a.0.size ≡ length a.0.chunks) × (a.0.size ≡ chunk_count len)

chunk_array-IsFull :
    (g : Grant) (client : ClientTransport) (len : ℕ) (m : Machine)
    → WhenOk (chunk_array g client len m) (IsFull len)
unfolding chunk_array
chunk_array-IsFull g client len m =
    WhenOk-bind (λ _. Unit {0}) (IsFull len) (get_rdma_chunk_list_from_pool g (chunk_count len) m) _
      (always (get_rdma_chunk_list_from_pool g (chunk_count len) m))
      (λ (p, m') _. elim (Bool-cases (p == null)) [
        | inl none ↦ rw none tt
        | inr some ↦ rw some (
            WhenOk-bind (λ (cs, q). length cs ≡ chunk_count len) (IsFull len)
              (collect m'.store (chunk_count len) p) _ (collect-length m'.store (chunk_count len) p)
              (λ (cs, q) e. elim (Bool-cases (q == null)) [
                | inl end ↦ rw end (sym e, refl)
                | inr longer ↦ rw longer tt
              ]))
      ])

-- For a header and a body of together less than 2^32 bytes, `send_msg_with_header` is `send_msg`
-- of the two in one piece: the same outcome, abort and undefined behaviour included, the same
-- requests, and the same transport, pool and store, for every state of the pool, every answer of
-- the allocator and of the hardware, and wherever the header ends.
pub send_msg_with_header-send_msg :
    (v : Verbs) (g : Grant) (client : ClientTransport) (header body : List ℕ) (m : Machine)
    → length (header ++ body) < 2 ^ 32
    → send_msg_with_header v g client header (length header) body (length body) m
      ≡ send_msg v g client (header ++ body) (length (header ++ body)) m
unfolding send_msg send_msg_with_header
send_msg_with_header-send_msg v g client header body m small =
    let len : add32 (length header) (length body) ≡ length (header ++ body) =
      omega (arith, length-append header body) in
    rw len (
      >>=-cong (IsFull (length (header ++ body))) (chunk_array g client (length (header ++ body)) m)
        _ _ (chunk_array-IsFull g client (length (header ++ body)) m)
        (λ (arr, m') (size, count).
          ap
            (λ r. r >>= λ st. rdma_send_msg v arr (length (header ++ body)) st >>= λ wrs.
              ok (wrs, next_id client, record m' { store = st }))
            (copy_both-copy_msg arr header body m'.store small size count)))
