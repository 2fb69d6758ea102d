-- ===== src/Natives/Delivery.antt =====
-- The calls of src/io_rdma_RdmaServer.c that hand a message to Java are allowed.
use spark_rdma_shuffle_engin.Base.{
  ℕ, ◌+◌, ◌≤◌, ◌<◌, ◌^◌, ◌≡◌, refl, sym, ap, ◌∙◌, true, false, List, [], ◌∷◌, ◌++◌, some, none,
  Option, arith, ◌==◌, lt→ltb, mem-head, Option-cases, inl, inr, subst, leb, ok,
}
use spark_rdma_shuffle_engin.Memory.{Ptr}
use spark_rdma_shuffle_engin.BufferPool.{Machine}
use spark_rdma_shuffle_engin.Transport.{VArray}
use spark_rdma_shuffle_engin.Receiver.{Message, deliver}
use spark_rdma_shuffle_engin.Receiver.Lengths.{lengths, sum, deliver-len}
use spark_rdma_shuffle_engin.Natives.Jvm.{
  JniCall, detach, new_byte_array, new_global_ref, set_region, call_channel_read0, Jvm, size_of,
  call_jni, run_jni,
}
use spark_rdma_shuffle_engin.Natives.{
  jni_alloc_byte_array, set_byte_array_region, jni_channel_callback, region_calls, message_calls,
}

-- A machine whose thread is not attached: it has the global references only.
abbrev pub at_rest : List (Ptr × ℕ) → Jvm
at_rest globals = record { is_attached = false; locals = []; globals = globals; strings = [] }

==-refl : (n : ℕ) → (n == n) ≡ true
==-refl n = ground arith

le→leb : (a b : ℕ) → a ≤ b → leb a b ≡ true
le→leb a b h = ground arith

-- The machine with an attached thread.
abbrev attached : (locals globals : List (Ptr × ℕ)) (strings : List Ptr) → Jvm
attached locals globals strings = record {
  is_attached = true;
  locals = locals;
  globals = globals;
  strings = strings;
}

abbrev run_rest : List JniCall → Option Jvm → Option Jvm
run_rest cs o = elim o [ none ↦ none | some j ↦ run_jni cs j ]

run_jni-step :
    (c : JniCall) (cs : List JniCall) (j j' : Jvm)
    → call_jni c j ≡ some j'
    → run_jni (c ∷ cs) j ≡ run_jni cs j'
unfolding run_jni
run_jni-step c cs j j' e = ap (run_rest cs) e

some_injective : {j j' : Jvm} → some j ≡ some j' → j ≡ j'
some_injective e = cc e

none_isnt_some : (j : Jvm) → ¬ (none ≡ some j)
none_isnt_some j e = cc e

run_jni-++ :
    (cs ds : List JniCall) (j j' : Jvm)
    → run_jni cs j ≡ some j'
    → run_jni (cs ++ ds) j ≡ run_jni ds j'
unfolding run_jni
run_jni-++ [] ds j j' e = ap (run_jni ds) (some_injective e)
run_jni-++ (c ∷ cs) ds j j' e = elim (Option-cases (call_jni c j)) [
  | inl refused ↦ absurd (none_isnt_some j' (sym (ap (run_rest cs) refused) ∙ e))
  | inr (j1, called) ↦
      run_jni-step c (cs ++ ds) j j1 called
      ∙ run_jni-++ cs ds j1 j' (sym (run_jni-step c cs j j1 called) ∙ e)
]

set_region-run :
    (g : Ptr) (pos len n : ℕ) (globals : List (Ptr × ℕ))
    → size_of g globals ≡ some n
    → pos + len ≤ n
    → call_jni (set_region g pos len) (attached [] globals []) ≡ some (attached [] globals [])
unfolding call_jni size_of
set_region-run g pos len n globals size fits = rw (size, le→leb (pos + len) n fits)

set_byte_array_region-run :
    (g : Ptr) (pos len n : ℕ) (globals : List (Ptr × ℕ))
    → size_of g globals ≡ some n
    → pos + len ≤ n
    → run_jni (set_byte_array_region g pos len) (at_rest globals) ≡ some (at_rest globals)
unfolding run_jni call_jni set_byte_array_region
set_byte_array_region-run g pos len n globals size fits =
    run_jni-step (set_region g pos len) (detach ∷ []) (attached [] globals [])
      (attached [] globals []) (set_region-run g pos len n globals size fits)

new_byte_array-run :
    (temp : Ptr) (n : ℕ) (globals : List (Ptr × ℕ))
    → n < 2 ^ 31
    → call_jni (new_byte_array temp n) (attached [] globals [])
      ≡ some (attached ((temp, n) ∷ []) globals [])
unfolding call_jni
new_byte_array-run temp n globals small = rw (lt→ltb n (2 ^ 31) small)

new_global_ref-run :
    (temp g : Ptr) (n : ℕ) (globals : List (Ptr × ℕ))
    → call_jni (new_global_ref temp g) (attached ((temp, n) ∷ []) globals [])
      ≡ some (attached ((temp, n) ∷ []) ((g, n) ∷ globals) [])
unfolding call_jni size_of
new_global_ref-run temp g n globals = rw (==-refl temp)

jni_alloc_byte_array-run :
    (temp g : Ptr) (n : ℕ) (globals : List (Ptr × ℕ))
    → n < 2 ^ 31
    → run_jni (jni_alloc_byte_array temp g n) (at_rest globals) ≡ some (at_rest ((g, n) ∷ globals))
unfolding run_jni call_jni jni_alloc_byte_array
jni_alloc_byte_array-run temp g n globals small =
    run_jni-step (new_byte_array temp n) (new_global_ref temp g ∷ detach ∷ [])
      (attached [] globals []) (attached ((temp, n) ∷ []) globals [])
      (new_byte_array-run temp n globals small)
    ∙ run_jni-step (new_global_ref temp g) (detach ∷ []) (attached ((temp, n) ∷ []) globals [])
        (attached ((temp, n) ∷ []) ((g, n) ∷ globals) []) (new_global_ref-run temp g n globals)

call_channel_read0-run :
    (host g : Ptr) (n : ℕ) (globals : List (Ptr × ℕ))
    → size_of g globals ≡ some n
    → call_jni (call_channel_read0 host g n) (attached [] globals (host ∷ []))
      ≡ some (attached [] globals (host ∷ []))
unfolding call_jni size_of
call_channel_read0-run host g n globals size = rw (mem-head host [], size, ==-refl n)

jni_channel_callback-run :
    (host g : Ptr) (n : ℕ) (globals : List (Ptr × ℕ))
    → size_of g globals ≡ some n
    → run_jni (jni_channel_callback host g n) (at_rest globals) ≡ some (at_rest globals)
unfolding run_jni call_jni jni_channel_callback
jni_channel_callback-run host g n globals size =
    run_jni-step (call_channel_read0 host g n) (detach ∷ []) (attached [] globals (host ∷ []))
      (attached [] globals (host ∷ [])) (call_channel_read0-run host g n globals size)

region_calls-run :
    (g : Ptr) (pos n : ℕ) (lens : List ℕ) (globals : List (Ptr × ℕ))
    → size_of g globals ≡ some n
    → pos + sum lens ≤ n
    → run_jni (region_calls g pos lens) (at_rest globals) ≡ some (at_rest globals)
unfolding run_jni region_calls
region_calls-run g pos n [] globals size fits = refl
region_calls-run g pos n (len ∷ lens) globals size fits =
    run_jni-++ (set_byte_array_region g pos len) (region_calls g (pos + len) lens) (at_rest globals)
      (at_rest globals) (set_byte_array_region-run g pos len n globals size (omega (arith, fits)))
    ∙ region_calls-run g (pos + len) n lens globals size (omega (arith, fits))

-- The calls for chunks whose lengths sum to the length of the array.
message_calls-run_sum :
    (temp g host : Ptr) (lens : List ℕ) (globals : List (Ptr × ℕ))
    → sum lens < 2 ^ 31
    → run_jni (message_calls temp g host (sum lens) lens) (at_rest globals)
      ≡ some (at_rest ((g, sum lens) ∷ globals))
unfolding message_calls size_of
message_calls-run_sum temp g host lens globals small =
    let after = at_rest ((g, sum lens) ∷ globals) in
    let size : size_of g ((g, sum lens) ∷ globals) ≡ some (sum lens) = rw (==-refl g) in
    run_jni-++ (jni_alloc_byte_array temp g (sum lens))
      (region_calls g 0 lens ++ jni_channel_callback host g (sum lens)) (at_rest globals) after
      (jni_alloc_byte_array-run temp g (sum lens) globals small)
    ∙ run_jni-++ (region_calls g 0 lens) (jni_channel_callback host g (sum lens)) after after
        (region_calls-run g 0 (sum lens) lens ((g, sum lens) ∷ globals) size (omega arith))
    ∙ jni_channel_callback-run host g (sum lens) ((g, sum lens) ∷ globals) size

-- Where the chunks of an array carry together less than 2^31 bytes and the worker's checks hand a
-- message to Java, each call of JNI for it is allowed, whatever the handles are: it is made by an
-- attached thread, each region lies in the array, and the array has the length that
-- `channelRead0` is given. After them the thread is detached, the global references from before
-- are there, and one more, to the array, which none of the calls deletes.
pub message_calls-run :
    (a : VArray) (m m' : Machine) (msg : Message) (temp g host : Ptr) (globals : List (Ptr × ℕ))
    → sum (lengths m.store a.chunks) < 2 ^ 31
    → deliver a m ≡ ok (msg, m')
    → run_jni (message_calls temp g host msg.len (lengths m.store a.chunks)) (at_rest globals)
      ≡ some (at_rest ((g, msg.len) ∷ globals))
message_calls-run a m m' msg temp g host globals small e =
    let len = deliver-len a m m' msg (omega (arith, small)) e in
    subst
      (λ n.
        run_jni (message_calls temp g host n (lengths m.store a.chunks)) (at_rest globals)
        ≡ some (at_rest ((g, n) ∷ globals)))
      (sym len) (message_calls-run_sum temp g host (lengths m.store a.chunks) globals small)
