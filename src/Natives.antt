-- ===== src/Natives.antt =====
-- src/io_rdma_RdmaServer.c: the native methods of RdmaServer, and the calls through which a worker
-- hands a message to Java.
pub mod Jvm
pub mod Delivery
pub mod Life
use spark_rdma_shuffle_engin.Base.{
  ℕ, suc, ◌+◌, ◌%◌, ◌^◌, Bool, true, false, List, [], ◌∷◌, ◌++◌, Option, none, some, if◌then◌else◌,
  Outcome, ok, ◌>>=◌,
}
use spark_rdma_shuffle_engin.Memory.{Ptr}
use spark_rdma_shuffle_engin.Peers.{Text}
use spark_rdma_shuffle_engin.Server.{
  Boot, Server, HeldTransport, Started, init_server, destroy_server,
}
use spark_rdma_shuffle_engin.Server.Calls.{Call}
use spark_rdma_shuffle_engin.Natives.Jvm.{
  JniCall, attach, detach, new_byte_array, new_global_ref, set_region, new_string,
  call_channel_read0,
}

-- The static variables: whether each is set, and how often the handler was made a global reference.
pub record Statics : Type 0 where
  pub g_jvm : Bool
  pub channel_handler_class : Bool
  pub channel_read0 : Bool
  pub handlers : ℕ

-- Whether `FindClass` and `GetMethodID` find what they look for.
pub record Finds : Type 0 where
  pub class : Bool
  pub method : Bool

abbrev pub Bound : Type 0
Bound = Bool × Statics × Option Started

-- The end of `init`: the handler is kept, and the server started. `jport` is the jint modulo
-- 2 ^ 32, of which init_server takes the low 16 bits. Where the code reads -1 from init_server
-- there is no case: init_server returns 0 or aborts.
unfoldable pub bind_handler : Boot → (host : Text) (jport : ℕ) → Statics → Outcome Bound
bind_handler b host jport st = init_server b host (jport % 2 ^ 16) >>= λ s.
    ok (true, record st { handlers = suc st.handlers }, some s)

unfoldable pub find_method : Finds → Boot → (host : Text) (jport : ℕ) → Statics → Outcome Bound
find_method f b host jport st =
    if st.channel_read0
    then bind_handler b host jport st
    else if f.method
    then bind_handler b host jport (record st { channel_read0 = true })
    else ok (false, st, none)

unfoldable pub find_class : Finds → Boot → (host : Text) (jport : ℕ) → Statics → Outcome Bound
find_class f b host jport st =
    if st.channel_handler_class
    then find_method f b host jport st
    else if f.class
    then find_method f b host jport (record st { channel_handler_class = true })
    else ok (false, st, none)

-- `init`
unfoldable pub java_init : Finds → Boot → (host : Text) (jport : ℕ) → Statics → Outcome Bound
java_init f b host jport st = find_class f b host jport (record st { g_jvm = true })

pub java_destroy : List HeldTransport → Server → Outcome (List Call)
java_destroy visited s = destroy_server visited s

-- The array made on this thread, and the reference to it that outlives the thread's attachment.
pub jni_alloc_byte_array : (jbatemp jbaglobal : Ptr) → (bytes : ℕ) → List JniCall
jni_alloc_byte_array jbatemp jbaglobal bytes =
    attach ∷ new_byte_array jbatemp bytes ∷ new_global_ref jbatemp jbaglobal ∷ detach ∷ []

pub set_byte_array_region : (jba : Ptr) (pos len : ℕ) → List JniCall
set_byte_array_region jba pos len = attach ∷ set_region jba pos len ∷ detach ∷ []

pub jni_channel_callback : (remote_host msg : Ptr) (len : ℕ) → List JniCall
jni_channel_callback remote_host msg len =
    attach ∷ new_string remote_host ∷ call_channel_read0 remote_host msg len ∷ detach ∷ []

-- The calls of the loop of `work_thread` for chunks of these lengths, from `pos` on.
pub region_calls : (jba : Ptr) (pos : ℕ) → List ℕ → List JniCall
unfolding set_byte_array_region
region_calls jba pos [] = []
region_calls jba pos (len ∷ lens) =
    set_byte_array_region jba pos len ++ region_calls jba (pos + len) lens

-- All calls of `work_thread` for one message.
pub message_calls : (jbatemp jbaglobal remote_host : Ptr) (data_len : ℕ) → List ℕ → List JniCall
unfolding jni_alloc_byte_array region_calls jni_channel_callback
message_calls jbatemp jbaglobal remote_host data_len lens =
    jni_alloc_byte_array jbatemp jbaglobal data_len
    ++ (region_calls jbaglobal 0 lens ++ jni_channel_callback remote_host jbaglobal data_len)
