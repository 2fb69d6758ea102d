-- ===== src/Receiver/Threads/Sound.antt =====
-- Filing a chunk and taking an array, as the threads of src/rdma_transport.c see each other's
-- arrays.
use spark_rdma_shuffle_engin.Base.{
  ℕ, ◌≤◌, ◌≡◌, ◌⊎◌, inl, inr, refl, sym, ap, subst, Bool, true, false, List, [], ◌∷◌, ◌++◌, some,
  arith, length, mem, mem-head, mem-tail, Bool-cases, leb, ◌==◌, ok,
}
use spark_rdma_shuffle_engin.Memory.{Ptr, null}
use spark_rdma_shuffle_engin.Transport.{VArray, WorkChunk}
use spark_rdma_shuffle_engin.Glib.{GQueue, first, rest, first_such}
use spark_rdma_shuffle_engin.Receiver.{
  Receiver, update_array, opened, extended, new_array, add_chunk, is_complete,
}
use spark_rdma_shuffle_engin.Receiver.Threads.{Working, looking, took, delivering, aborted, held}

-- A list of one element holds it alone.
pub only {ℓ} :
    {A : Type ℓ} (x : A) (before after : List A)
    → length (before ++ x ∷ after) ≤ 1
    → (before ≡ []) × (after ≡ [])
only x [] [] h = (refl, refl)
only x [] (y ∷ after) h = absurd (omega arith)
only x (y ∷ []) after h = absurd (omega arith)
only x (y ∷ z ∷ before) after h = absurd (omega arith)

pub first_such-mem :
    (p : Ptr → Bool) (q : Ptr) (qs : List Ptr) → first_such p qs ≡ some q → mem q qs ≡ true
first_such-mem p q [] h = cc
first_such-mem p q (x ∷ qs) h = elim (Bool-cases (p x)) [
  | inl hit ↦
      let same : x ≡ q = ground (arith, hit) in
      subst (λ t. mem t (x ∷ qs) ≡ true) same (mem-head x qs)
  | inr miss ↦ mem-tail q x qs (first_such-mem p q qs (ground (arith, miss)))
]

pub mem-rest :
    (q x : Ptr) (qs : List Ptr)
    → first qs ≡ some x
    → mem q qs ≡ true
    → (q ≡ x) ⊎ (mem q (rest qs) ≡ true)
mem-rest q x [] h i = absurd (cc)
mem-rest q x (y ∷ qs) h i = elim (Bool-cases (q == y)) [
  | inl e ↦ inl (ground (arith, e, h))
  | inr ne ↦ inr (ground (arith, ne, i))
]

pub first-rest : (q : Ptr) (qs : List Ptr) → first qs ≡ some q → q ∷ rest qs ≡ qs
first-rest q [] e = cc
first-rest q (x ∷ qs) e = ap (λ (t : Ptr). t ∷ qs) (sym (cc))

-- No taken array is incomplete before its checks, and no check has failed.
abbrev pub AreSound : (Ptr → VArray) → List Working → Type 0
AreSound arrays [] = Unit
AreSound arrays (looking ∷ ws) = AreSound arrays ws
AreSound arrays (took q ∷ ws) = (is_complete (arrays q) ≡ true) × AreSound arrays ws
AreSound arrays (delivering q ∷ ws) = AreSound arrays ws
AreSound arrays (aborted q ∷ ws) = ⊥

module _ (G : GQueue Ptr) where
  open G use {
    to_list, push_tail, peek_head, pop_head, find_custom, to_list-push_tail, peek_head-first,
    to_list-pop_head, find_custom-first_such,
  }

  pub AreSound-mono :
      (arrays arrays' : Ptr → VArray) (ws : List Working)
      → ((x : Ptr)
          → mem x (held G ws) ≡ true
          → is_complete (arrays x) ≡ true
          → is_complete (arrays' x) ≡ true)
      → AreSound arrays ws
      → AreSound arrays' ws
  AreSound-mono arrays arrays' [] keep h = tt
  AreSound-mono arrays arrays' (looking ∷ ws) keep h = AreSound-mono arrays arrays' ws keep h
  AreSound-mono arrays arrays' (took q ∷ ws) keep h = (
    keep q (mem-head q (held G ws)) h.0,
    AreSound-mono arrays arrays' ws (λ x i. keep x (mem-tail x q (held G ws) i)) h.1,
  )
  AreSound-mono arrays arrays' (delivering q ∷ ws) keep h =
      AreSound-mono arrays arrays' ws (λ x i. keep x (mem-tail x q (held G ws) i)) h
  AreSound-mono arrays arrays' (aborted q ∷ ws) keep h = h

  -- What a store leaves, whichever of the two it is.
  pub record Stores (r r' : Receiver G) (p : Ptr) (a : VArray) (qs : List Ptr) : Type 0 where
    pub queue : to_list r'.work_queue ≡ qs
    pub arrays : r'.arrays ≡ update_array r.arrays p a
    pub running : r'.is_work_running ≡ r.is_work_running
    pub submitted : r'.submitted ≡ r.submitted

  pub new_array-Stores :
      (fresh n d : ℕ) (w : WorkChunk) (r r' : Receiver G)
      → new_array G fresh n w d r ≡ ok r'
      → Stores r r' fresh (opened w d n) (to_list r.work_queue ++ fresh ∷ [])
  unfolding new_array
  new_array-Stores fresh n d w r r' e = elim (Bool-cases (fresh == null)) [
    | inl gone ↦ absurd (cc (rw gone at e))
    | inr there ↦ elim (Bool-cases (n == 0)) [
      | inl empty ↦ absurd (cc (rw (there, empty) at e))
      | inr more ↦
          let made = rw (there, more) at e in
          let same : r' ≡ record r {
            work_queue = push_tail r.work_queue fresh;
            arrays = update_array r.arrays fresh (opened w d n);
          } =
            cc made in
          rw same (record {
            queue = to_list-push_tail r.work_queue fresh;
            arrays = refl;
            running = refl;
            submitted = refl;
          })
    ]
  ]

  pub add_chunk-Stores :
      (q d : ℕ) (w : WorkChunk) (r r' : Receiver G)
      → add_chunk G q w d r ≡ ok r'
      → Stores r r' q (extended w (r.arrays q)) (to_list r.work_queue)
        × (is_complete (r.arrays q) ≡ false)
  unfolding add_chunk
  add_chunk-Stores q d w r r' e = elim (Bool-cases (leb (r.arrays q).size (r.arrays q).len)) [
    | inl full ↦ absurd (cc (rw full at e))
    | inr room ↦ elim (Bool-cases ((r.arrays q).data_id == d)) [
      | inr other ↦ absurd (cc (rw (room, other) at e))
      | inl hit ↦
          let made = rw (room, hit) at e in
          let same : r' ≡ record r { arrays = update_array r.arrays q (extended w (r.arrays q)) } =
            cc made in
          (
            rw same (record { queue = refl; arrays = refl; running = refl; submitted = refl }),
            ground (arith, room),
          )
    ]
  ]
