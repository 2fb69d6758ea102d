-- ===== src/Receiver/Fuel.antt =====
-- The loop of work_thread in src/rdma_transport.c ends: each round but the last takes an array from
-- the queue.
use spark_rdma_shuffle_engin.Base.{
  ℕ, zero, suc, ◌<◌, ◌≡◌, refl, sym, ap, ◌∙◌, inl, inr, List, [], ◌∷◌, Option, none, some, arith,
  length, Option-cases, Bool-cases, ◌==◌, Outcome, ok, fault, abort, ◌>>=◌,
}
use spark_rdma_shuffle_engin.Memory.{Ptr}
use spark_rdma_shuffle_engin.BufferPool.{Machine}
use spark_rdma_shuffle_engin.Glib.{GQueue, first, rest}
use spark_rdma_shuffle_engin.Receiver.{Receiver, Message, is_complete, deliver, work_thread}

length-rest : (q : Ptr) (qs : List Ptr) → first qs ≡ some q → length qs ≡ suc (length (rest qs))
length-rest q [] h = cc
length-rest q (x ∷ qs) h = refl

module _ (G : GQueue Ptr) where
  open G use {to_list, peek_head, pop_head, peek_head-first, to_list-pop_head}

  -- Two runs that return, with one result.
  abbrev pub Agree {ℓ} : {A : Type ℓ} → Option A → Option A → Type ℓ
  Agree {A = A} o o' = (r : A) × (o ≡ some r) × (o' ≡ some r)

  abbrev popped : Receiver G → Receiver G
  popped s = record s { work_queue = pop_head s.work_queue }

  -- The rest of a round in which an array was delivered.
  abbrev again :
      Receiver G
      → Outcome (Message × Machine)
      → ℕ
      → Option (Outcome (List Message × Receiver G × Machine))
  again s delivered fuel = elim delivered [
    | ok (msg, m') ↦ elim (work_thread G fuel (popped s) m') [
      | none ↦ none
      | some r ↦ some (r >>= λ (msgs, s2, m2). ok (msg ∷ msgs, s2, m2))
    ]
    | fault ↦ some fault
    | abort ↦ some abort
  ]

  again-Agree :
      (s : Receiver G) (delivered : Outcome (Message × Machine)) (fuel more : ℕ)
      → ((m' : Machine)
          → Agree (work_thread G fuel (popped s) m') (work_thread G more (popped s) m'))
      → Agree (again s delivered fuel) (again s delivered more)
  again-Agree s (ok (msg, m')) fuel more h =
      let (r, e, e') = h m' in
      let resumed : Option (Outcome (List Message × Receiver G × Machine))
          → Option (Outcome (List Message × Receiver G × Machine)) =
        λ o. elim o [
          | none ↦ none
          | some r ↦ some (r >>= λ (msgs, s2, m2). ok (msg ∷ msgs, s2, m2))
        ] in
      ((r >>= λ (msgs, s2, m2). ok (msg ∷ msgs, s2, m2)), ap resumed e, ap resumed e')
  again-Agree s fault fuel more h = (fault, refl, refl)
  again-Agree s abort fuel more h = (abort, refl, refl)

  -- However its calls end and whatever the arrays hold, `work_thread` returns within one round
  -- more than its queue has arrays, and more rounds do not change what it does.
  pub work_thread-returns :
      (fuel more : ℕ) (s : Receiver G) (m : Machine)
      → length (to_list s.work_queue) < fuel
      → length (to_list s.work_queue) < more
      → Agree (work_thread G fuel s m) (work_thread G more s m)
  unfolding work_thread
  work_thread-returns zero more s m enough enough' = absurd (omega arith)
  work_thread-returns (suc fuel) zero s m enough enough' = absurd (omega arith)
  work_thread-returns (suc fuel) (suc more) s m enough enough' =
      elim (Option-cases (first (to_list s.work_queue))) [
        | inl empty ↦
            rw (peek_head-first s.work_queue ∙ empty, work_thread)
              (ok ([], record s { is_work_running = 0 }, m), refl, refl)
        | inr (q, head) ↦ elim (Bool-cases (is_complete (s.arrays q))) [
          | inl complete ↦ elim (Bool-cases (s.is_work_running == 1)) [
            | inl running ↦
                let begun : (f : ℕ)
                    → work_thread G (suc f) s m ≡ again s (deliver (s.arrays q) m) f =
                  λ f.
                    rw (peek_head-first s.work_queue ∙ head, work_thread, complete, running) refl in
                let left : length (to_list s.work_queue)
                    ≡ suc (length (to_list (pop_head s.work_queue))) =
                  length-rest q (to_list s.work_queue) head
                  ∙ ap (λ (l : List Ptr). suc (length l)) (sym (to_list-pop_head s.work_queue)) in
                rw (begun fuel, begun more)
                  (again-Agree s (deliver (s.arrays q) m) fuel more (λ m'.
                    work_thread-returns fuel more (popped s) m' (omega (arith, left))
                      (omega (arith, left))))
            | inr idle ↦
                rw (peek_head-first s.work_queue ∙ head, work_thread, complete, idle)
                  (abort, refl, refl)
          ]
          | inr part ↦
              rw (peek_head-first s.work_queue ∙ head, work_thread, part)
                (ok ([], record s { is_work_running = 0 }, m), refl, refl)
        ]
      ]
