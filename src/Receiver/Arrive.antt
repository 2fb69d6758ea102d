-- ===== src/Receiver/Arrive.antt =====
-- What handle_recv_event of src/rdma_transport.c promises, told without pointers: the open messages
-- are a list of arrays, and a chunk joins the first of its id or opens a new one at the end.
use mathlib.Core.Option
use spark_rdma_shuffle_engin.Base.{
  ℕ, ◌≡◌, refl, sym, ap, ap₂, inl, inr, false, List, [], ◌∷◌, ◌++◌, Option, none, some, arith, mem,
  not-mem-cons, leb, ◌==◌, if◌then◌else◌, Option-cases, ne→==,
}
use spark_rdma_shuffle_engin.Memory.{Ptr}
use spark_rdma_shuffle_engin.Transport.{VArray, WorkChunk}
use spark_rdma_shuffle_engin.Receiver.{update_array, opened, extended}

-- `none` where the array of that id is full: the code aborts.
abbrev pub arrive : WorkChunk → (data_id chunk_num : ℕ) → List VArray → Option (List VArray)
arrive w data_id chunk_num [] = some (opened w data_id chunk_num ∷ [])
arrive w data_id chunk_num (a ∷ xs) =
    if a.data_id == data_id
    then (if leb a.size a.len then none else some (extended w a ∷ xs))
    else Option.map (λ ys. a ∷ ys) (arrive w data_id chunk_num xs)

-- The chunks that wait under an id.
abbrev pub chunks_of : ℕ → List VArray → List Ptr
chunks_of e [] = []
chunks_of e (a ∷ xs) = if a.data_id == e then a.chunks else chunks_of e xs

-- A chunk is added behind the chunks of its own id, and no other message changes.
pub arrive-chunks_of :
    (w : WorkChunk) (d n e : ℕ) (xs ys : List VArray)
    → arrive w d n xs ≡ some ys
    → chunks_of e ys ≡ (if d == e then chunks_of e xs ++ w.chunk ∷ [] else chunks_of e xs)
arrive-chunks_of w d n e [] ys h = ground arith
arrive-chunks_of w d n e (a ∷ xs) ys h = elim (Option-cases (arrive w d n xs)) [
  | inl full ↦ ground (arith, full)
  | inr (zs, there) ↦ ground (arith, there, arrive-chunks_of w d n e xs zs there)
]

-- The arrays that the queue's pointers stand for.
abbrev pub views : (Ptr → VArray) → List Ptr → List VArray
views arrays [] = []
views arrays (p ∷ ps) = arrays p ∷ views arrays ps

pub views-update :
    (arrays : Ptr → VArray) (q : Ptr) (a : VArray) (ps : List Ptr)
    → mem q ps ≡ false
    → views (update_array arrays q a) ps ≡ views arrays ps
views-update arrays q a [] h = refl
views-update arrays q a (p ∷ ps) h =
    let (ne, h') = not-mem-cons q p ps h in
    ap₂ ◌∷◌ (rw (ne→== q p (λ e. ne (sym e)))) (views-update arrays q a ps h')

pub views-append :
    (arrays : Ptr → VArray) (ps qs : List Ptr)
    → views arrays (ps ++ qs) ≡ views arrays ps ++ views arrays qs
views-append arrays [] qs = refl
views-append arrays (p ∷ ps) qs = ap (λ (t : List VArray). arrays p ∷ t) (views-append arrays ps qs)
