-- ===== src/Server/Calls/Order.antt =====
-- What may be called when, of the calls of src/rdma_utils.c, src/rdma_transport.c and
-- src/rdma_buffer_pool.c.
use spark_rdma_shuffle_engin.Base.{
  ◌≡◌, refl, ap, true, false, List, [], ◌∷◌, ◌++◌, some, arith, mem, not-mem-cons, Distinct, ◌==◌,
  Bool-cases, Option-cases, inl, inr, ==_iff,
}
use spark_rdma_shuffle_engin.Memory.{Ptr}
use spark_rdma_shuffle_engin.Server.Calls.{
  Kind, tag, Resource, Call, makes, frees, signals, addresses, all_held, needed, without, replay,
  AreOrdered, frees_of,
}

pub frees_of-append : (rs qs : List Resource) → frees_of (rs ++ qs) ≡ frees_of rs ++ frees_of qs
frees_of-append [] qs = refl
frees_of-append (r ∷ rs) qs =
    ap (λ (t : List Call). frees r.kind r.address ∷ t) (frees_of-append rs qs)

-- The calls without those of pthread_kill.
abbrev pub unsignalled : List Call → List Call
unsignalled [] = []
unsignalled (makes k p over ∷ cs) = makes k p over ∷ unsignalled cs
unsignalled (frees k p ∷ cs) = frees k p ∷ unsignalled cs
unsignalled (signals pid ∷ cs) = unsignalled cs

pub unsignalled-append :
    (cs ds : List Call) → unsignalled (cs ++ ds) ≡ unsignalled cs ++ unsignalled ds
unsignalled-append [] ds = refl
unsignalled-append (makes k p over ∷ cs) ds =
    ap (λ (t : List Call). makes k p over ∷ t) (unsignalled-append cs ds)
unsignalled-append (frees k p ∷ cs) ds =
    ap (λ (t : List Call). frees k p ∷ t) (unsignalled-append cs ds)
unsignalled-append (signals pid ∷ cs) ds = unsignalled-append cs ds

pub replay-end : (held : List Resource) → replay [] held ≡ some held
unfolding replay
replay-end held = refl

-- pthread_kill frees nothing.
pub replay-unsignalled :
    (cs : List Call) (held : List Resource) → replay cs held ≡ replay (unsignalled cs) held
unfolding replay
replay-unsignalled [] held = refl
replay-unsignalled (makes k p over ∷ cs) held = elim (Bool-cases (mem p (addresses held))) [
  | inl twice ↦ rw twice refl
  | inr new ↦ elim (Bool-cases (all_held over held)) [
    | inr less ↦ rw (new, less) refl
    | inl there ↦
        rw (new, there)
          (replay-unsignalled cs (record { kind = k; address = p; over = over } ∷ held))
  ]
]
replay-unsignalled (frees k p ∷ cs) held = elim (Option-cases (without k p held)) [
  | inl gone ↦ rw (replay, gone) refl
  | inr (left, found) ↦ elim (Bool-cases (needed p left)) [
    | inl used ↦ rw (replay, found, used) refl
    | inr free ↦ rw (replay, found, free) (replay-unsignalled cs left)
  ]
]
replay-unsignalled (signals pid ∷ cs) held = replay-unsignalled cs held

all_held-mem :
    (p : Ptr) (ps : List Ptr) (rs : List Resource)
    → all_held ps rs ≡ true
    → mem p (addresses rs) ≡ false
    → mem p ps ≡ false
all_held-mem p [] rs h out = refl
all_held-mem p (q ∷ ps) rs h out = elim (Bool-cases (p == q)) [
  | inl e ↦ ground (arith, e, h, out)
  | inr ne ↦ rw ne (all_held-mem p ps rs (ground (arith, h)) out)
]

-- What is not held is not needed.
not-needed :
    (p : Ptr) (rs : List Resource)
    → AreOrdered rs
    → mem p (addresses rs) ≡ false
    → needed p rs ≡ false
not-needed p [] ordered out = refl
not-needed p (r ∷ rs) ordered out =
    let (ne, later) = not-mem-cons p r.address (addresses rs) out in
    rw (all_held-mem p r.over rs ordered.0 later) (not-needed p rs ordered.1 later)

without-head : (r : Resource) (rs : List Resource) → without r.kind r.address (r ∷ rs) ≡ some rs
unfolding without
without-head r rs =
    rw ((==_iff (tag r.kind) (tag r.kind)).1 refl, (==_iff r.address r.address).1 refl) refl

-- Freeing in the order of the list is allowed, and leaves the rest.
pub replay-frees_of :
    (rs left : List Resource) (cs : List Call)
    → AreOrdered (rs ++ left)
    → Distinct (addresses (rs ++ left))
    → replay (frees_of rs ++ cs) (rs ++ left) ≡ replay cs left
unfolding replay
replay-frees_of [] left cs ordered distinct = refl
replay-frees_of (r ∷ rs) left cs ordered (out, apart) =
    rw (replay, without-head r (rs ++ left), not-needed r.address (rs ++ left) ordered.1 out)
      (replay-frees_of rs left cs ordered.1 apart)

-- A new resource over resources that are held.
pub replay-makes :
    (k : Kind) (p : Ptr) (over : List Ptr) (cs : List Call) (held : List Resource)
    → mem p (addresses held) ≡ false
    → all_held over held ≡ true
    → replay (makes k p over ∷ cs) held
      ≡ replay cs (record { kind = k; address = p; over = over } ∷ held)
unfolding replay
replay-makes k p over cs held new there = rw (new, there) refl
