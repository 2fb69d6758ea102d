-- ===== src/Handler/Completions/Drain.antt =====
-- poll_thread of src/rdma_transport.c misses no completion.
use spark_rdma_shuffle_engin.Base.{
  ◌≤◌, ◌<◌, ◌≡◌, ◌⊎◌, inl, inr, refl, sym, ap, subst, ◌∙◌, true, List, [], ◌∷◌, ◌++◌, append_assoc,
  append-nil, arith, take, drop, length, length-take, drop-all, take-append-drop,
}
use spark_rdma_shuffle_engin.Handler.Completions.{
  max_event_per_poll, Polling, blocked, notified, polling, filled, CompletionQueue, arrive,
  get_event, req_notify, after_poll, poll_cq, push_array, PollStep, arrives, gets, arms, polls,
  pushes, PollReach, start, and_then, concat, unpushed,
}

module _ {B : Type 0} where
  -- A completion that arrives now makes an event, or one is waiting.
  abbrev Wakes : CompletionQueue B → Type 0
  Wakes q = (q.is_armed ≡ true) ⊎ (0 < q.events)

  -- Where the thread sleeps, nothing waits in the queue, or an event will wake it.
  abbrev SleepsWell : Polling B → CompletionQueue B → Type 0
  SleepsWell blocked q = Wakes q × ((q.entries ≡ []) ⊎ (0 < q.events))
  SleepsWell notified q = Unit
  SleepsWell polling q = Wakes q
  SleepsWell (filled bs) q = Wakes q

  -- An array holds 1 to MAX_EVENT_PER_POLL completions.
  abbrev pub FitsArray : List B → Type 0
  FitsArray bs = (0 < length bs) × (length bs ≤ max_event_per_poll)

  abbrev pub AllFit : List (List B) → Type 0
  AllFit [] = Unit
  AllFit (bs ∷ bss) = FitsArray bs × AllFit bss

  abbrev FitsAt : Polling B → Type 0
  FitsAt blocked = Unit
  FitsAt notified = Unit
  FitsAt polling = Unit
  FitsAt (filled bs) = FitsArray bs

  record IsDrained (q : CompletionQueue B) : Type 0 where
    order : concat q.pushed ++ (unpushed q.thread ++ q.entries) ≡ q.arrived
    sleeps : SleepsWell q.thread q
    fits : AllFit q.pushed
    fits_now : FitsAt q.thread

  concat-append : (xss yss : List (List B)) → concat (xss ++ yss) ≡ concat xss ++ concat yss
  concat-append [] yss = refl
  concat-append (xs ∷ xss) yss =
      ap (λ t. xs ++ t) (concat-append xss yss) ∙ sym (append_assoc xs (concat xss) (concat yss))

  AllFit-append :
      (bss : List (List B)) (bs : List B) → AllFit bss → FitsArray bs → AllFit (bss ++ bs ∷ [])
  AllFit-append [] bs h f = (f, tt)
  AllFit-append (x ∷ bss) bs h f = (h.0, AllFit-append bss bs h.1 f)

  arrive-Wakes : (b : B) (q : CompletionQueue B) → Wakes q → 0 < (arrive b q).events
  arrive-Wakes b q (inl armed) = rw armed (omega arith)
  arrive-Wakes b q (inr more) = omega arith

  arrive-SleepsWell :
      (t : Polling B) (b : B) (q : CompletionQueue B) → SleepsWell t q → SleepsWell t (arrive b q)
  arrive-SleepsWell blocked b q h = (inr (arrive-Wakes b q h.0), inr (arrive-Wakes b q h.0))
  arrive-SleepsWell notified b q h = tt
  arrive-SleepsWell polling b q h = inr (arrive-Wakes b q h)
  arrive-SleepsWell (filled bs) b q h = inr (arrive-Wakes b q h)

  at_thread :
      (q : CompletionQueue B) (t : Polling B)
      → IsDrained q
      → q.thread ≡ t
      → (concat q.pushed ++ (unpushed t ++ q.entries) ≡ q.arrived) × SleepsWell t q × FitsAt t
  at_thread q t h e =
      subst
        (λ t.
          (concat q.pushed ++ (unpushed t ++ q.entries) ≡ q.arrived) × SleepsWell t q × FitsAt t)
        e (h.order, h.sleeps, h.fits_now)

  arrive-ok : (b : B) (q : CompletionQueue B) → IsDrained q → IsDrained (arrive b q)
  arrive-ok b q h = record {
    order =
        ap (λ t. concat q.pushed ++ t) (sym (append_assoc (unpushed q.thread) q.entries (b ∷ [])))
        ∙ sym (append_assoc (concat q.pushed) (unpushed q.thread ++ q.entries) (b ∷ []))
        ∙ ap (λ t. t ++ b ∷ []) h.order;
    sleeps = arrive-SleepsWell q.thread b q h.sleeps;
    fits = h.fits;
    fits_now = h.fits_now;
  }

  after_poll-unpushed : (bs : List B) → unpushed (after_poll bs) ≡ bs
  after_poll-unpushed [] = refl
  after_poll-unpushed (b ∷ bs) = refl

  after_poll-FitsAt : (bs : List B) → length bs ≤ max_event_per_poll → FitsAt (after_poll bs)
  after_poll-FitsAt [] h = tt
  after_poll-FitsAt (b ∷ bs) h = (omega arith, h)

  after_poll-SleepsWell :
      (xs : List B) (q : CompletionQueue B)
      → Wakes q
      → (length xs ≡ 0 → q.entries ≡ [])
      → SleepsWell (after_poll xs) q
  after_poll-SleepsWell [] q h empty = (h, inl (empty refl))
  after_poll-SleepsWell (b ∷ bs) q h empty = h

  poll_cq-ok : (q : CompletionQueue B) → IsDrained q → q.thread ≡ polling → IsDrained (poll_cq q)
  unfolding poll_cq
  poll_cq-ok q h e =
      let (order, sleeps, fits) = at_thread q polling h e in
      let first : List B = take max_event_per_poll q.entries in
      record {
        order =
            ap (λ t. concat q.pushed ++ (t ++ drop max_event_per_poll q.entries))
              (after_poll-unpushed first)
            ∙ ap (λ t. concat q.pushed ++ t) (take-append-drop max_event_per_poll q.entries)
            ∙ order;
        sleeps = after_poll-SleepsWell first (poll_cq q) sleeps (λ none.
            drop-all max_event_per_poll q.entries
              (omega (arith, length-take max_event_per_poll q.entries, none)));
        fits = h.fits;
        fits_now =
            after_poll-FitsAt first (omega (arith, length-take max_event_per_poll q.entries));
      }

  push_array-ok :
      (bs : List B) (q : CompletionQueue B)
      → IsDrained q
      → q.thread ≡ filled bs
      → IsDrained (push_array bs q)
  unfolding push_array
  push_array-ok bs q h e =
      let (order, sleeps, fits) = at_thread q (filled bs) h e in
      record {
        order =
            ap (λ t. t ++ q.entries)
              (concat-append q.pushed (bs ∷ []) ∙ ap (λ t. concat q.pushed ++ t) (append-nil bs))
            ∙ append_assoc (concat q.pushed) bs q.entries
            ∙ order;
        sleeps = sleeps;
        fits = AllFit-append q.pushed bs h.fits fits;
        fits_now = tt;
      }

  PollStep-ok : {q q' : CompletionQueue B} → PollStep q q' → IsDrained q → IsDrained q'
  unfolding get_event req_notify
  PollStep-ok {q = q} (arrives b) h = arrive-ok b q h
  PollStep-ok {q = q} (gets e more) h = record {
    order = (at_thread q blocked h e).0;
    sleeps = tt;
    fits = h.fits;
    fits_now = tt;
  }
  PollStep-ok {q = q} (arms e) h = record {
    order = (at_thread q notified h e).0;
    sleeps = inl refl;
    fits = h.fits;
    fits_now = tt;
  }
  PollStep-ok {q = q} (polls e) h = poll_cq-ok q h e
  PollStep-ok {q = q} (pushes bs e) h = push_array-ok bs q h e

  PollReach-ok : {q : CompletionQueue B} → PollReach q → IsDrained q
  PollReach-ok start = record {
    order = refl;
    sleeps = (inl refl, inl refl);
    fits = tt;
    fits_now = tt;
  }
  PollReach-ok (and_then reach step) = PollStep-ok step (PollReach-ok reach)

  pub record MissesNone (q : CompletionQueue B) : Type 0 where
    pub order : concat q.pushed ++ (unpushed q.thread ++ q.entries) ≡ q.arrived
    pub fits : AllFit q.pushed
    pub all_pushed : q.thread ≡ blocked → q.events ≡ 0 → concat q.pushed ≡ q.arrived

  -- In every run of `poll_thread` from an armed queue, with completions that arrive at any time:
  -- the completions in the arrays pushed, then those of an array not yet pushed, then those in
  -- the queue are the ones that arrived, in their order; every array pushed holds 1 to 128
  -- completions; and where the thread sleeps with no event that would wake it, all that arrived
  -- are pushed.
  pub PollReach-MissesNone : {q : CompletionQueue B} → PollReach q → MissesNone q
  PollReach-MissesNone {q = q} reach =
      let h = PollReach-ok reach in
      record {
        order = h.order;
        fits = h.fits;
        all_pushed = λ e none.
            let (order, (woken, empty), fits) = at_thread q blocked h e in
            elim empty [
              | inr more ↦ absurd (omega (arith, more, none))
              | inl gone ↦
                  sym (append-nil (concat q.pushed))
                  ∙ ap (λ t. concat q.pushed ++ t) (sym gone)
                  ∙ order
            ];
      }
