-- ===== src/Server/Calls.antt =====
-- The calls of src/rdma_utils.c, src/rdma_transport.c and src/rdma_buffer_pool.c that make and free
-- resources, and the order that libibverbs and the C library document: a resource is freed once, by
-- the call of its kind, and not before what was made over it.
pub mod Order
use spark_rdma_shuffle_engin.Base.{
  ℕ, ◌≡◌, refl, ap, ◌∙◌, Bool, true, false, ◌&&◌, ◌||◌, List, [], ◌∷◌, ◌++◌, Option, none, some,
  arith, mem, mem-head, mem-tail, not-mem-cons, Distinct, ◌==◌, if◌then◌else◌, Bool-cases, inl, inr,
  ==_iff,
}
use spark_rdma_shuffle_engin.Memory.{Ptr}

pub data Kind : Type 0 where
  device pd mr buffer channel cq qp queue transport devices pool : Kind

abbrev pub tag : Kind → ℕ
tag device = 0
tag pd = 1
tag mr = 2
tag buffer = 3
tag channel = 4
tag cq = 5
tag qp = 6
tag queue = 7
tag transport = 8
tag devices = 9
tag pool = 10

-- A resource that is held: its kind, its address, and those of the resources it was made over.
pub record Resource : Type 0 where
  pub kind : Kind
  pub address : Ptr
  pub over : List Ptr

-- `signals` is pthread_kill.
pub data Call : Type 0 where
  makes : Kind → Ptr → List Ptr → Call
  frees : Kind → Ptr → Call
  signals : ℕ → Call

abbrev pub addresses : List Resource → List Ptr
addresses [] = []
addresses (r ∷ rs) = r.address ∷ addresses rs

abbrev pub all_held : List Ptr → List Resource → Bool
all_held [] rs = true
all_held (p ∷ ps) rs = mem p (addresses rs) && all_held ps rs

-- Something was made over the address.
abbrev pub needed : Ptr → List Resource → Bool
needed p [] = false
needed p (r ∷ rs) = mem p r.over || needed p rs

-- The resources without the one of this kind and address.
pub without : Kind → Ptr → List Resource → Option (List Resource)
without k p [] = none
without k p (r ∷ rs) =
    let later : Option (List Resource) = elim (without k p rs) [
      | none ↦ none
      | some left ↦ some (r ∷ left)
    ] in
    if (tag k == tag r.kind) && (p == r.address) then some rs else later

-- The calls in order, from what is held: `none` at the first that the documentation forbids.
pub replay : List Call → List Resource → Option (List Resource)
unfolding without
replay [] held = some held
replay (makes k p over ∷ cs) held =
    let rest = replay cs (record { kind = k; address = p; over = over } ∷ held) in
    if mem p (addresses held) then none else if all_held over held then rest else none
replay (frees k p ∷ cs) held = elim (without k p held) [
  | none ↦ none
  | some left ↦ elim (needed p left) [ true ↦ none | false ↦ replay cs left ]
]
replay (signals pid ∷ cs) held = replay cs held

-- Each resource stands before those it was made over.
abbrev pub AreOrdered : List Resource → Type 0
AreOrdered [] = Unit
AreOrdered (r ∷ rs) = (all_held r.over rs ≡ true) × AreOrdered rs

-- The resources, freed from first to last.
abbrev pub frees_of : List Resource → List Call
frees_of [] = []
frees_of (r ∷ rs) = frees r.kind r.address ∷ frees_of rs
