-- ===== src/Channel.antt =====
-- The native methods of src/io_rdma_RdmaChannel.c: how bytes get out of a Java ByteBuffer into
-- `send_msg` and `send_msg_with_header` of src/rdma_transport_client.c.
use spark_rdma_shuffle_engin.Base.{
  length-take, sym, subst, Ends-ok, ◌⊎◌, inr, inl, dec_lt, length-append, add32, ◌&&◌, ◌%◌, leb, ℕ,
  ◌+◌, ◌<◌, ◌≤◌, ◌^◌, ◌≡◌, refl, Bool, true, false, List, ◌++◌, Option, none, some, arith, length,
  take, drop, ltb, le→ltb, if◌then◌else◌, Outcome, ok, fault, ◌>>=◌, Ends, Ends-bind, is_negative,
}
use spark_rdma_shuffle_engin.Memory.{Ptr}
use spark_rdma_shuffle_engin.BufferPool.{Grant, Machine}
use spark_rdma_shuffle_engin.BufferPool.Invariant.{IsPool, Refuses}
use spark_rdma_shuffle_engin.Transport.{Verbs, WorkRequest}
use spark_rdma_shuffle_engin.Client.{
  ClientTransport, SendResult, chunk_array, send_msg, send_msg_with_header,
}
use spark_rdma_shuffle_engin.Client.Send.{
  LegalFor, chunk_count_bounds, chunk_array-Prepared, supply_for, Sent, send_msg-Sent,
  send_msg_with_header-Sent,
}

-- A java.nio.ByteBuffer as JNI shows it: the memory at its direct address, or what its method
-- `array` returns; and its position.
pub data ByteBuffer : Type 0 where
  direct : (memory : List ℕ) (position : ℕ) → ByteBuffer
  heap : (array : Option (List ℕ)) (position : ℕ) → ByteBuffer

-- Whether FindClass and GetMethodID find the class and its methods.
pub record JavaEnv : Type 0 where
  pub byte_buffer : Bool
  pub array : Bool
  pub position : Bool

-- `len` bytes from a position on; past the end, what is read is not initialised.
pub region : List ℕ → (pos len : ℕ) → Outcome (List ℕ)
region bytes pos len =
    if ltb (length bytes) (pos + len) then fault else ok (take len (drop pos bytes))

-- The pointer that is handed on, as the bytes that can be read through it: none if `array` fails.
-- For a direct buffer it is the address of its memory, and nothing is read yet.
pub buffer_bytes : ByteBuffer → (len : ℕ) → Outcome (Option (List ℕ))
unfolding region
buffer_bytes (direct memory position) len = ok (some (take len memory))
buffer_bytes (heap none position) len = ok none
buffer_bytes (heap (some a) position) len = region a position len >>= λ msg. ok (some msg)

-- The copy of `len` bytes through the pointer stays in bounds.
abbrev pub is_inside : ByteBuffer → (len : ℕ) → Bool
is_inside (direct memory position) len = leb len (length memory)
is_inside (heap a position) len = true

-- The sending of `len` bytes of which the copy, after the chunks are got, reads out of bounds.
abbrev pub send_outside :
    Grant → ClientTransport → (len : ℕ) → Machine → Outcome (Option SendResult)
send_outside g client len m = chunk_array g client len m >>= λ got. fault

module _ (env : JavaEnv) where
  -- The class and its methods are there.
  abbrev pub has_methods : Bool
  has_methods = if env.byte_buffer then (if env.array then env.position else false) else false

  -- `garbage` is the value of the local variable `len` that is not initialised. `none` is a return
  -- that sends nothing.
  pub send_header :
      Verbs
      → Grant
      → ClientTransport
      → (garbage : ℕ) → ByteBuffer
      → (jlen : ℕ) → Machine
      → Outcome (Option SendResult)
  unfolding buffer_bytes
  send_header v g client garbage (direct memory position) jlen m =
      if is_inside (direct memory position) garbage
      then (send_msg v g client (take garbage memory) garbage m >>= λ sent. ok (some sent))
      else send_outside g client garbage m
  send_header v g client garbage (heap a position) jlen m =
      if has_methods
      then (buffer_bytes (heap a position) jlen >>= λ o. elim o [
        | none ↦ ok none
        | some msg ↦ send_msg v g client msg jlen m >>= λ sent. ok (some sent)
      ])
      else ok none

  -- `sendHeaderWithBody`, behind the conversion of its lengths.
  pub send_buffers :
      Verbs
      → Grant
      → ClientTransport
      → (jheader : ByteBuffer) (hlen : ℕ) (jbody : ByteBuffer) (blen : ℕ) → Machine
      → Outcome (Option SendResult)
  unfolding buffer_bytes
  send_buffers v g client jheader hlen jbody blen m =
      if has_methods
      then (buffer_bytes jheader hlen >>= λ h. elim h [
        | none ↦ ok none
        | some header ↦ buffer_bytes jbody blen >>= λ b. elim b [
          | none ↦ ok none
          | some body ↦
              if is_inside jheader hlen && is_inside jbody blen
              then (send_msg_with_header v g client header hlen body blen m >>= λ sent.
                  ok (some sent))
              else send_outside g client (add32 hlen blen) m
        ]
      ])
      else ok none

  -- `jblen` is a jlong, cut to the 32 bits of an int.
  pub send_header_with_body :
      Verbs
      → Grant
      → ClientTransport
      → (jheader : ByteBuffer) (jhlen : ℕ) (jbody : ByteBuffer) (jblen : ℕ) → Machine
      → Outcome (Option SendResult)
  unfolding send_buffers
  send_header_with_body v g client jheader jhlen jbody jblen m =
      send_buffers v g client jheader jhlen jbody (jblen % 2 ^ 32) m

-- The bytes that Java means: those from the position on.
abbrev pub Holds : ByteBuffer → List ℕ → Type 0
Holds (direct memory position) msg =
    (position ≡ 0) × ((length msg ≤ length memory) × (take (length msg) memory ≡ msg))
Holds (heap none position) msg = ⊥
Holds (heap (some a) position) msg =
    (position + length msg ≤ length a) × (take (length msg) (drop position a) ≡ msg)

buffer_bytes-Holds :
    (b : ByteBuffer) (msg : List ℕ) → Holds b msg → buffer_bytes b (length msg) ≡ ok (some msg)
unfolding buffer_bytes region
buffer_bytes-Holds (direct memory position) msg h = rw h.1.1 refl
buffer_bytes-Holds (heap none position) msg h = absurd h
buffer_bytes-Holds (heap (some a) position) msg h =
    rw (le→ltb (position + length msg) (length a) h.0, h.1) refl

le→leb : (a b : ℕ) → a ≤ b → leb a b ≡ true
le→leb a b h = ground arith

lt→leb : (a b : ℕ) → a < b → leb b a ≡ false
lt→leb a b h = ground arith

is_inside-Holds : (b : ByteBuffer) (msg : List ℕ) → Holds b msg → is_inside b (length msg) ≡ true
is_inside-Holds (direct memory position) msg h = le→leb (length msg) (length memory) h.1.0
is_inside-Holds (heap a position) msg h = refl

abbrev pub SentOf : (SendResult → Type 0) → Option SendResult → Type 0
SentOf P none = ⊥
SentOf P (some sent) = P sent

module _ (env : JavaEnv) (there : has_methods env ≡ true) (v : Verbs) (g : Grant)
    (client : ClientTransport) (m : Machine) (free lent : List Ptr)
    (accepts : (wr : WorkRequest) → is_negative (v.post_send wr) ≡ false)
    (pool : IsPool m free lent) (willing : ¬ Refuses g) where
  abbrev pub SentMessage : List ℕ → Option SendResult → Type 0
  SentMessage msg = SentOf (Sent v client m msg (supply_for g (length msg) free) lent)

  send_buffers-Sent :
      (jheader jbody : ByteBuffer) (header body : List ℕ)
      → Holds jheader header
      → Holds jbody body
      → 0 < length (header ++ body)
      → length (header ++ body) < 2 ^ 32
      → LegalFor g (length (header ++ body)) m free lent
      → Ends
          (send_buffers env v g client jheader (length header) jbody (length body) m)
          (SentMessage (header ++ body))
  unfolding send_buffers
  send_buffers-Sent jheader jbody header body hh hb some_bytes small legal =
      rw
        (
          there,
          buffer_bytes-Holds jheader header hh,
          buffer_bytes-Holds jbody body hb,
          is_inside-Holds jheader header hh,
          is_inside-Holds jbody body hb,
        )
        (Ends-bind _ _ (send_msg_with_header v g client header (length header) body (length body) m)
          _
          (send_msg_with_header-Sent v g client m free lent accepts pool willing header body
            some_bytes small legal)
          (λ sent h. h))

  -- Under the conditions of `send_msg-Sent`, and where JNI finds the class and its methods,
  -- `sendHeaderWithBody` sends the bytes that its two buffers hold from their positions on, as
  -- one message of together 1 to 2^32 - 1 bytes, where a direct buffer is at position 0.
  pub send_header_with_body-Sent :
      (jheader jbody : ByteBuffer) (header body : List ℕ)
      → Holds jheader header
      → Holds jbody body
      → 0 < length (header ++ body)
      → length (header ++ body) < 2 ^ 32
      → LegalFor g (length (header ++ body)) m free lent
      → Ends
          (send_header_with_body env v g client jheader (length header) jbody (length body) m)
          (SentMessage (header ++ body))
  unfolding send_header_with_body
  send_header_with_body-Sent jheader jbody header body hh hb some_bytes small legal =
      let whole : length body % 2 ^ 32 ≡ length body =
        omega (arith, small, length-append header body) in
      subst
        (λ n.
          Ends (send_buffers env v g client jheader (length header) jbody n m)
            (SentMessage (header ++ body)))
        (sym whole) (send_buffers-Sent jheader jbody header body hh hb some_bytes small legal)

  -- Under the conditions of `send_msg-Sent`, and where JNI finds the class and its methods,
  -- `sendHeader` sends the 1 to 2^32 - 1 bytes that a buffer on the Java heap holds from its
  -- position on, as one message.
  pub send_header-Sent :
      (garbage position : ℕ) (a msg : List ℕ)
      → Holds (heap (some a) position) msg
      → 0 < length msg
      → length msg < 2 ^ 32
      → LegalFor g (length msg) m free lent
      → Ends
          (send_header env v g client garbage (heap (some a) position) (length msg) m)
          (SentMessage msg)
  unfolding send_header
  send_header-Sent garbage position a msg h some_bytes small legal =
      rw (there, buffer_bytes-Holds (heap (some a) position) msg h)
        (Ends-bind _ _ (send_msg v g client msg (length msg) m) _
          (send_msg-Sent v g client m free lent accepts pool willing msg some_bytes small legal)
          (λ sent h. h))

  send_some-Sent :
      (n : ℕ) (msg : List ℕ)
      → length msg ≡ n
      → 0 < n
      → n < 2 ^ 32
      → LegalFor g n m free lent
      → Ends (send_msg v g client msg n m >>= λ sent. ok (some sent)) (SentMessage msg)
  send_some-Sent n msg size =
      subst
        (λ k.
          0 < k
          → k < 2 ^ 32
          → LegalFor g k m free lent
          → Ends (send_msg v g client msg k m >>= λ sent. ok (some sent)) (SentMessage msg))
        size
        (λ some_bytes small legal.
          Ends-bind _ _ (send_msg v g client msg (length msg) m) _
            (send_msg-Sent v g client m free lent accepts pool willing msg some_bytes small legal)
            (λ sent h. h))

  -- Under the conditions of `send_msg-Sent` for as many bytes as the local variable `len` holds
  -- that is not initialised, from 1 to 2^32 - 1, `sendHeader` of a direct buffer takes that many,
  -- whatever the length that Java gives and the buffer's position are: where they fit into the
  -- buffer's memory, it sends these bytes from its start as a message, and else its copy reads
  -- out of bounds.
  pub send_header-direct :
      (garbage position jlen : ℕ) (memory : List ℕ)
      → 0 < garbage
      → garbage < 2 ^ 32
      → LegalFor g garbage m free lent
      → (let run = send_header env v g client garbage (direct memory position) jlen m in
          ((garbage ≤ length memory) × Ends run (SentMessage (take garbage memory)))
          ⊎ ((length memory < garbage) × (run ≡ fault)))
  unfolding send_header
  send_header-direct garbage position jlen memory some_bytes small legal =
      elim (dec_lt (length memory) garbage) [
        | yes outside ↦
            let b = chunk_count_bounds garbage some_bytes small in
            let (got, chunks, prepared) =
              Ends-ok _ (chunk_array g client garbage m)
                (chunk_array-Prepared g client garbage m free lent pool b.0 b.1 legal willing) in
            inr (outside, rw (lt→leb (length memory) garbage outside, chunks) refl)
        | no inside ↦
            let fits : garbage ≤ length memory = omega (arith, inside) in
            let msg : List ℕ = take garbage memory in
            let size : length msg ≡ garbage = omega (arith, length-take garbage memory, fits) in
            inl (
              fits,
              rw (le→leb garbage (length memory) fits)
                  (send_some-Sent garbage msg size some_bytes small legal),
            )
      ]
