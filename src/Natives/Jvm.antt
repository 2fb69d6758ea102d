-- ===== src/Natives/Jvm.antt =====
-- The Java machine as JNI documents it, for the calls of src/io_rdma_RdmaServer.c: a call needs an
-- attached thread, a local reference ends with the attachment, and a global one when it is deleted.
use spark_rdma_shuffle_engin.Base.{
  ℕ, ◌+◌, ◌^◌, Bool, true, false, ◌&&◌, List, [], ◌∷◌, Option, none, some, ltb, leb, ◌==◌,
  if◌then◌else◌, mem,
}
use spark_rdma_shuffle_engin.Memory.{Ptr}

pub data JniCall : Type 0 where
  attach detach : JniCall
  new_byte_array : (jba : Ptr) (bytes : ℕ) → JniCall
  new_global_ref : (from to : Ptr) → JniCall
  set_region : (jba : Ptr) (pos len : ℕ) → JniCall
  new_string : Ptr → JniCall
  call_channel_read0 : (remote_host msg : Ptr) (len : ℕ) → JniCall

-- The references to arrays that are alive, with the arrays' lengths, and the local ones to strings.
pub record Jvm : Type 0 where
  pub is_attached : Bool
  pub locals : List (Ptr × ℕ)
  pub globals : List (Ptr × ℕ)
  pub strings : List Ptr

unfoldable pub size_of : Ptr → List (Ptr × ℕ) → Option ℕ
size_of p [] = none
size_of p ((q, n) ∷ rs) = if p == q then some n else size_of p rs

abbrev or_else : Option ℕ → Option ℕ → Option ℕ
or_else none o = o
or_else (some n) o = some n

-- The length of a live array.
abbrev pub size_in : Ptr → Jvm → Option ℕ
size_in p j = or_else (size_of p j.locals) (size_of p j.globals)

-- The machine after a call, `none` if the call is not allowed: a jint is at least 0 below 2^31, and
-- a region lies in its array.
unfoldable pub call_jni : JniCall → Jvm → Option Jvm
unfolding size_of
call_jni attach j = some (record j { is_attached = true })
call_jni detach j =
    if j.is_attached
    then some (record j { is_attached = false; locals = []; strings = [] })
    else none
call_jni (new_byte_array jba bytes) j =
    if j.is_attached && ltb bytes (2 ^ 31)
    then some (record j { locals = (jba, bytes) ∷ j.locals })
    else none
call_jni (new_global_ref from to) j =
    if j.is_attached
    then elim (size_in from j) [
      | none ↦ none
      | some n ↦ some (record j { globals = (to, n) ∷ j.globals })
    ]
    else none
call_jni (set_region jba pos len) j =
    if j.is_attached
    then elim (size_in jba j) [ none ↦ none | some n ↦ if leb (pos + len) n then some j else none ]
    else none
call_jni (new_string s) j =
    if j.is_attached then some (record j { strings = s ∷ j.strings }) else none
call_jni (call_channel_read0 remote_host msg len) j =
    if j.is_attached && mem remote_host j.strings
    then elim (size_in msg j) [ none ↦ none | some n ↦ if n == len then some j else none ]
    else none

unfoldable pub run_jni : List JniCall → Jvm → Option Jvm
unfolding call_jni
run_jni [] j = some j
run_jni (c ∷ cs) j = elim (call_jni c j) [ none ↦ none | some j' ↦ run_jni cs j' ]
