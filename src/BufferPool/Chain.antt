-- ===== src/BufferPool/Chain.antt =====
-- The free list of src/rdma_buffer_pool.c as a list of distinct addresses.
use spark_rdma_shuffle_engin.Base.{
  mem-head, sym, subst, ℕ, zero, suc, ◌≡◌, refl, ◌≢◌, ◌<◌, true, false, List, [], ◌∷◌, ◌++◌, some,
  arith, mem, Distinct, mem-append, mem-ne, ne→==, length,
}
use spark_rdma_shuffle_engin.Memory.{Ptr, null, Store, Chunk, update, set_next}
use spark_rdma_shuffle_engin.BufferPool.{walk}

-- From `p` the `next` pointers lead through the distinct chunks `xs` and on to `q`.
abbrev pub Leads : Store → Ptr → List Ptr → Ptr → Type 0
Leads st p [] q = p ≡ q
Leads st p (x ∷ xs) q = (p ≡ x) × (x ≢ null) × (mem x xs ≡ false) × Leads st (st x).next xs q

-- ... and end in NULL.
abbrev pub Chain : Store → Ptr → List Ptr → Type 0
Chain st p xs = Leads st p xs null

pub Leads-frame :
    (st st' : Store) (p : Ptr) (xs : List Ptr) (q : Ptr)
    → Leads st p xs q
    → ((a : Ptr) → mem a xs ≡ true → (st' a).next ≡ (st a).next)
    → Leads st' p xs q
Leads-frame st st' p [] q h same = h
Leads-frame st st' p (x ∷ xs) q h same = (
  h.0,
  h.1,
  h.2,
  rw (same x (ground arith))
      (Leads-frame st st' (st x).next xs q h.3 (λ a i. same a (ground arith))),
)

-- A write outside the chain leaves it.
pub Leads-update :
    (st : Store) (p : Ptr) (xs : List Ptr) (q a : Ptr) (c : Chunk)
    → Leads st p xs q
    → mem a xs ≡ false
    → Leads (update st a c) p xs q
Leads-update st p xs q a c h out = Leads-frame st (update st a c) p xs q h (λ b i. ground arith)

pub Leads-append :
    (st : Store) (p : Ptr) (xs : List Ptr) (q : Ptr) (ys : List Ptr) (r : Ptr)
    → Leads st p xs q
    → Leads st q ys r
    → ((a : Ptr) → mem a xs ≡ true → mem a ys ≡ false)
    → Leads st p (xs ++ ys) r
Leads-append st p [] q ys r h k apart = rw h k
Leads-append st p (x ∷ xs) q ys r h k apart = (
  h.0,
  h.1,
  rw (mem-append x xs ys) (ground (arith, apart x)),
  Leads-append st (st x).next xs q ys r h.3 k (λ a i. apart a (ground arith)),
)

pub Chain-ne_null :
    (st : Store) (p : Ptr) (xs : List Ptr) → Chain st p xs → 0 < length xs → p ≢ null
Chain-ne_null st p [] h k = absurd (omega arith)
Chain-ne_null st p (x ∷ xs) h k = rw h.0 h.1

pub Chain-head :
    (st : Store) (p : Ptr) (xs : List Ptr) → Chain st p xs → 0 < length xs → mem p xs ≡ true
Chain-head st p [] h k = absurd (omega arith)
Chain-head st p (x ∷ xs) h k = subst (λ t. mem t (x ∷ xs) ≡ true) (sym h.0) (mem-head x xs)

-- A chain splits into two lists that share no chunk.
pub Leads-apart :
    (st : Store) (p : Ptr) (xs ys : List Ptr) (q a : Ptr)
    → Leads st p (xs ++ ys) q
    → mem a ys ≡ true
    → mem a xs ≡ false
Leads-apart st p [] ys q a h i = refl
Leads-apart st p (x ∷ xs) ys q a h i =
    ground (arith, Leads-apart st (st x).next xs ys q a h.3 i, mem-append x xs ys, mem-ne a x ys i)

pub Leads-Distinct :
    (st : Store) (p : Ptr) (xs : List Ptr) (q : Ptr) → Leads st p xs q → Distinct xs
Leads-Distinct st p [] q h = tt
Leads-Distinct st p (x ∷ xs) q h = (h.2, Leads-Distinct st (st x).next xs q h.3)

pub Leads-not-null :
    (st : Store) (p : Ptr) (xs : List Ptr) (q : Ptr) → Leads st p xs q → mem null xs ≡ false
Leads-not-null st p [] q h = refl
Leads-not-null st p (x ∷ xs) q h = ground (arith, Leads-not-null st (st x).next xs q h.3)

-- The last chunk of the first `suc n`: the walk finds it, and cutting behind it splits the chain.
pub record Cut (st : Store) (p : Ptr) (got rest : List Ptr) (n : ℕ) : Type 0 where
  pub last : Ptr
  pub found : walk st n p ≡ some last
  pub ne_null : last ≢ null
  pub inside : mem last got ≡ true
  pub front : Chain (set_next st last null) p got
  pub back : Chain (set_next st last null) (st last).next rest

Cut-cons :
    (st : Store) (p x y : Ptr) (got rest : List Ptr) (n : ℕ)
    → Chain st p (x ∷ y ∷ got ++ rest)
    → Cut st (st x).next (y ∷ got) rest n
    → Cut st p (x ∷ y ∷ got) rest (suc n)
unfolding walk
Cut-cons st p x y got rest n h cut = record {
  last = last;
  found = rw (h.0, ne→== x null h.1) found;
  ne_null = ne_null;
  inside = ground arith;
  front = (h.0, h.1, apart, rw kept front);
  back = back;
}
  where
    open cut use {last, found, ne_null, inside, front, back}

    apart : mem x (y ∷ got) ≡ false
    apart = ground (arith, mem-append x (y ∷ got) rest)

    kept : (set_next st last null x).next ≡ (st x).next
    kept = ground (arith, mem-ne last x (y ∷ got) inside apart)

pub walk-Cut :
    (n : ℕ) (st : Store) (p : Ptr) (got rest : List Ptr)
    → Chain st p (got ++ rest)
    → length got ≡ suc n
    → Cut st p got rest n
unfolding walk
walk-Cut n st p [] rest h e = absurd (omega arith)
walk-Cut zero st p (x ∷ []) rest h e = record {
  last = p;
  found = refl;
  ne_null = ground arith;
  inside = ground arith;
  front = (h.0, h.1, refl, ground arith);
  back = rw h.0 (Leads-update st (st x).next rest null x _ h.3 h.2);
}
walk-Cut zero st p (x ∷ y ∷ got) rest h e = absurd (omega arith)
walk-Cut (suc n) st p (x ∷ []) rest h e = absurd (omega arith)
walk-Cut (suc n) st p (x ∷ y ∷ got) rest h e =
    Cut-cons st p x y got rest n h (walk-Cut n st (st x).next (y ∷ got) rest h.3 (omega arith))
