-- ===== src/Receiver/File.antt =====
-- handle_recv_event of src/rdma_transport.c refines `arrive`, on every branch.
use spark_rdma_shuffle_engin.Base.{
  ℕ, ◌≡◌, refl, ap, ap₂, subst, ◌∙◌, ◌≢◌, inl, inr, Bool, true, false, List, [], ◌∷◌, ◌++◌, Option,
  none, some, arith, mem, mem-head, mem-tail, mem-ne, Distinct, Distinct-append, leb, ◌==◌,
  if◌then◌else◌, Bool-cases, Option-cases, ne→==, ==_iff, Ends, Outcome, ok, abort,
}
use spark_rdma_shuffle_engin.Memory.{Ptr, null, Store}
use spark_rdma_shuffle_engin.Transport.{VArray, WorkChunk}
use spark_rdma_shuffle_engin.Glib.{GQueue, first_such}
use spark_rdma_shuffle_engin.Receiver.{Receiver, update_array, opened, extended, file_chunk}
use spark_rdma_shuffle_engin.Receiver.Arrive.{arrive, views, views-update, views-append}

module _ (arrays : Ptr → VArray) (w : WorkChunk) (d n : ℕ) where
  abbrev matches : Ptr → Bool
  matches p = (arrays p).data_id == d

  arrive-new :
      (qs : List Ptr)
      → first_such matches qs ≡ none
      → arrive w d n (views arrays qs) ≡ some (views arrays qs ++ opened w d n ∷ [])
  arrive-new [] h = refl
  arrive-new (q ∷ qs) h = elim (Bool-cases (matches q)) [
    | inl hit ↦ ground (arith, hit)
    | inr miss ↦ rw (miss, arrive-new qs (ground (arith, miss)))
  ]

  -- The array that the search finds.
  pub record Found (q : Ptr) (qs : List Ptr) : Type 0 where
    pub inside : mem q qs ≡ true
    pub hit : matches q ≡ true
    pub result : arrive w d n (views arrays qs) ≡ (
        if leb (arrays q).size (arrays q).len
        then none
        else some (views (update_array arrays q (extended w (arrays q))) qs))

  Found-here : (x : Ptr) (qs : List Ptr) → mem x qs ≡ false → matches x ≡ true → Found x (x ∷ qs)
  Found-here x qs out hit = record {
    inside = mem-head x qs;
    hit = hit;
    result = rw (hit, (==_iff x x).1 refl, views-update arrays x (extended w (arrays x)) qs out);
  }

  Found-later :
      (q x : Ptr) (qs : List Ptr)
      → mem x qs ≡ false
      → matches x ≡ false
      → Found q qs
      → Found q (x ∷ qs)
  Found-later q x qs out miss f = record {
    inside = mem-tail q x qs f.inside;
    hit = f.hit;
    result =
        rw (miss, f.result, ne→== q x (mem-ne q x qs f.inside out))
          (elim (Bool-cases (leb (arrays q).size (arrays q).len)) [
            | inl full ↦ rw full
            | inr room ↦ rw room
          ]);
  }

  first_such-Found :
      (q : Ptr) (qs : List Ptr) → Distinct qs → first_such matches qs ≡ some q → Found q qs
  first_such-Found q [] dist h = cc
  first_such-Found q (x ∷ qs) dist h = elim (Bool-cases (matches x)) [
    | inl hit ↦
        let same : x ≡ q = ground (arith, hit) in
        subst (λ t. Found t (x ∷ qs)) same (Found-here x qs dist.0 hit)
    | inr miss ↦
        Found-later q x qs dist.0 miss (first_such-Found q qs dist.1 (ground (arith, miss)))
  ]

module _ (G : GQueue Ptr) where
  open G use {Queue, to_list, push_tail, to_list-push_tail, find_custom, find_custom-first_such}

  -- The open messages, oldest first.
  abbrev pub view : Receiver G → List VArray
  view s = views s.arrays (to_list s.work_queue)

  -- What filing a chunk leaves, against what `arrive` says.
  abbrev pub Files : Receiver G → Outcome (Receiver G) → Option (List VArray) → Type 0
  Files s r none = r ≡ abort
  Files s r (some xs) = Ends r λ s'.
      (view s' ≡ xs)
      × Distinct (to_list s'.work_queue)
      × (s'.is_work_running ≡ s.is_work_running)
      × (s'.submitted ≡ s.submitted)

  module _ (s : Receiver G) (st : Store) (w : WorkChunk) (fresh : Ptr) where
    abbrev qs : List Ptr
    qs = to_list s.work_queue

    abbrev d : ℕ
    d = (st w.chunk).header.data_id

    abbrev n : ℕ
    n = (st w.chunk).header.chunk_num

    -- The receiver after a chunk of a new id, and after one of an id that is known.
    abbrev pub with_new : Receiver G
    with_new = record s {
      work_queue = push_tail s.work_queue fresh;
      arrays = update_array s.arrays fresh (opened w d n);
    }

    abbrev pub with_more : Ptr → Receiver G
    with_more q = record s { arrays = update_array s.arrays q (extended w (s.arrays q)) }

    pub file-new :
        fresh ≢ null
        → n ≢ 0
        → first_such (matches s.arrays w d n) qs ≡ none
        → file_chunk G fresh st w s ≡ ok with_new
    unfolding file_chunk
    file-new there some_chunk new = rw (
      find_custom-first_such s.work_queue (matches s.arrays w d n) ∙ new,
      file_chunk,
      ne→== fresh null there,
      ne→== n 0 some_chunk,
    )

    pub file-old :
        (q : Ptr)
        → first_such (matches s.arrays w d n) qs ≡ some q
        → (s.arrays q).data_id == d ≡ true
        → file_chunk G fresh st w s
          ≡ (if leb (s.arrays q).size (s.arrays q).len then abort else ok (with_more q))
    unfolding file_chunk
    file-old q old hit =
        rw (find_custom-first_such s.work_queue (matches s.arrays w d n) ∙ old, file_chunk, hit)

    views-new : mem fresh qs ≡ false → view with_new ≡ view s ++ opened w d n ∷ []
    views-new unused =
        ap (views (update_array s.arrays fresh (opened w d n)))
          (to_list-push_tail s.work_queue fresh)
        ∙ views-append (update_array s.arrays fresh (opened w d n)) qs (fresh ∷ [])
        ∙ ap₂ ◌++◌ (views-update s.arrays fresh (opened w d n) qs unused)
            (rw ((==_iff fresh fresh).1 refl))

    -- The array of the id if there is one and it has room, an array behind the others if there is
    -- none; a chunk for a full array aborts.
    pub file_chunk-arrive :
        Distinct qs
        → fresh ≢ null
        → mem fresh qs ≡ false
        → n ≢ 0
        → Files s (file_chunk G fresh st w s) (arrive w d n (view s))
    file_chunk-arrive dist there unused some_chunk =
        elim (Option-cases (first_such (matches s.arrays w d n) qs)) [
          | inl new ↦
              rw (file-new there some_chunk new, arrive-new s.arrays w d n qs new)
                (
                  views-new unused,
                  rw (to_list-push_tail s.work_queue fresh) (
                      Distinct-append qs (fresh ∷ []) dist (refl, tt)
                        (λ a i. ground (arith, mem-ne a fresh qs i unused))),
                  refl,
                  refl,
                )
          | inr (q, old) ↦
              let f = first_such-Found s.arrays w d n q qs dist old in
              rw (file-old q old f.hit, f.result)
                (elim (Bool-cases (leb (s.arrays q).size (s.arrays q).len)) [
                  | inl full ↦ rw full refl
                  | inr room ↦ rw room (refl, dist, refl, refl)
                ])
        ]
