-- ===== src/Peers/Threads/Joined.antt =====
-- The threads of src/rdma_transport_client.c and src/rdma_transport_server.c that meet at an entry
-- make and connect one queue pair.
use spark_rdma_shuffle_engin.Base.{
  ℕ, ◌+◌, ◌≤◌, ◌≡◌, refl, sym, subst, ◌∙◌, inl, inr, ◌⊎◌, Bool, List, ◌∷◌, ◌++◌, Option, none, some,
  arith, dec_lt,
}
use spark_rdma_shuffle_engin.Memory.{Ptr}
use spark_rdma_shuffle_engin.BufferPool.{Grant}
use spark_rdma_shuffle_engin.Transport.{Verbs}
use spark_rdma_shuffle_engin.Glib.{GQueue, GHashTable}
use spark_rdma_shuffle_engin.Connect.{Device, exchange_info}
use spark_rdma_shuffle_engin.Peers.{Text}
use spark_rdma_shuffle_engin.Peers.Threads.{
  Place, looking, creating, exchanging, completing, waiting, Thread, thread, Meeting,
  with_exchanged, MeetStep, MeetReach,
}
use spark_rdma_shuffle_engin.Peers.Threads.Numbers.{
  linked, count-has, AreMet, count, on_way, waits, returns, aborts, connects,
}
use spark_rdma_shuffle_engin.Peers.Threads.Steps.{
  Entry, one, qps_of, ready_of, numbers, IsMet, look-IsMet, keep-IsMet, create-IsMet,
  exchange-IsMet, complete-IsMet, recheck-IsMet, pass-IsMet,
}

module _ (G : GQueue Ptr) {Qp : Type 0} (D : Device Qp) (v : Verbs) (g : Grant) (qp_num : Qp → ℕ)
    (T : GHashTable Text Ptr) (H : GHashTable Text Text) where
  -- The invariant at a thread and an entry that are known.
  at_entry :
      (s : Meeting G D v g qp_num T H) (c : Bool) (before after : List Thread) (l : Place)
      (e : Entry G D v g qp_num T H)
      → s.threads ≡ before ++ thread c l ∷ after
      → s.entry ≡ some e
      → IsMet G D v g qp_num T H s
      → AreMet (before ++ thread c l ∷ after) (numbers G D v g qp_num T H (some e) s.made s.joined)
  at_entry s c before after l e at_l there h =
      subst (λ ts. AreMet ts (numbers G D v g qp_num T H (some e) s.made s.joined)) at_l
        (subst (λ o. AreMet s.threads (numbers G D v g qp_num T H o s.made s.joined)) there h)

  from_entry :
      (s : Meeting G D v g qp_num T H) (ts : List Thread) (e : Entry G D v g qp_num T H)
      → s.entry ≡ some e
      → AreMet ts (numbers G D v g qp_num T H (some e) s.made s.joined)
      → AreMet ts (numbers G D v g qp_num T H s.entry s.made s.joined)
  from_entry s ts e there h =
      subst (λ o. AreMet ts (numbers G D v g qp_num T H o s.made s.joined)) (sym there) h

  has_no_qp :
      (e : Entry G D v g qp_num T H)
      → e.connection ≡ none
      → ¬ (qps_of G D v g qp_num T H (some e) ≡ 1)
  has_no_qp e none_yet qps =
      let no_qp : qps_of G D v g qp_num T H (some e) ≡ 0 = rw none_yet refl in
      omega (arith, no_qp, qps)

  new_client : (c : Bool) → connects c looking ≡ 0
  new_client c = grind arith

  step-IsMet :
      {s s' : Meeting G D v g qp_num T H}
      → MeetStep G D v g qp_num T H s s'
      → IsMet G D v g qp_num T H s
      → IsMet G D v g qp_num T H s'
  step-IsMet {s = s} (MeetStep.arrives c) h = record {
    sound = h.sound;
    no_abort = omega (arith, h.no_abort);
    one_client = omega (arith, h.one_client, new_client c);
    no_entry = λ e. omega (arith, h.no_entry e);
    linked_qp = λ l. h.linked_qp (omega (arith, l));
    returned_ready = λ l. h.returned_ready (omega (arith, l));
    helped = λ e z. omega (arith, h.helped e z);
  }
  step-IsMet {s = s} (MeetStep.looks c before after at_l) h =
      look-IsMet G D v g qp_num T H c before after s.made s.joined s.entry
        (subst (λ ts. AreMet ts (numbers G D v g qp_num T H s.entry s.made s.joined)) at_l h)
  step-IsMet {s = s}
        (MeetStep.creates c before after e r transport arrays m k at_l there none_yet run) h =
      create-IsMet G D v g qp_num T H c before after s.made s.joined e k none_yet
        (at_entry s c before after creating e at_l there h)
  step-IsMet {s = s} (MeetStep.keeps c before after e k at_l there has_qp) h =
      from_entry s _ e there (
        keep-IsMet G D v g qp_num T H c before after s.made s.joined e k has_qp
          (at_entry s c before after creating e at_l there h))
  step-IsMet {s = s} (MeetStep.exchanges c before after e k link tmp at_l there has_qp ended) h =
      exchange-IsMet G D v g qp_num T H c before after s.made s.joined e
        (with_exchanged G D v g qp_num T H e (exchange_info link (qp_num k.qp) c tmp e.remote)) refl
        refl (at_entry s c before after exchanging e at_l there h)
  step-IsMet {s = s} (MeetStep.unlinked c before after e at_l there none_yet) h =
      let met = at_entry s c before after exchanging e at_l there h in
      let qps : qps_of G D v g qp_num T H (some e) ≡ 1 =
        met.linked_qp (count-has linked before after c exchanging) in
      absurd (has_no_qp e none_yet qps)
  step-IsMet {s = s} (MeetStep.completes c before after e k qp at_l there idle has_qp run) h =
      complete-IsMet G D v g qp_num T H c before after s.made s.joined e
        (record e { connection = some (record k { qp = qp }); is_ready = 1 }) k idle has_qp refl
        refl (at_entry s c before after completing e at_l there h)
  step-IsMet {s = s} (MeetStep.passes c before after e at_l there ready) h =
      from_entry s _ e there (
        pass-IsMet G D v g qp_num T H c before after s.made s.joined e ready
          (at_entry s c before after completing e at_l there h))
  step-IsMet {s = s} (MeetStep.rechecks c before after e at_l there) h = from_entry s _ e there (
      recheck-IsMet G D v g qp_num T H c before after s.made s.joined waiting e refl
        (at_entry s c before after waiting e at_l there h))

  MeetReach-IsMet :
      {s : Meeting G D v g qp_num T H} → MeetReach G D v g qp_num T H s → IsMet G D v g qp_num T H s
  MeetReach-IsMet MeetReach.start = record {
    sound = record {
      one_entry = omega arith;
      one_qp = omega arith;
      after_qp = omega arith;
      made_once = refl;
      joined_once = refl;
    };
    no_abort = refl;
    one_client = omega arith;
    no_entry = λ e. refl;
    linked_qp = λ l. absurd (omega (arith, l));
    returned_ready = λ l. absurd (omega (arith, l));
    helped = λ e z. absurd (omega (arith, e));
  }
  MeetReach-IsMet (MeetReach.and_then r st) = step-IsMet st (MeetReach-IsMet r)

  -- What holds of the threads and the entry in every run.
  pub record AreJoined (s : Meeting G D v g qp_num T H) : Type 0 where
    pub made_once : s.made ≤ 1
    pub joined_after : s.joined ≤ s.made
    pub no_abort : count aborts s.threads ≡ 0
    pub one_client : count connects s.threads ≤ 1
    pub ready :
        1 ≤ count returns s.threads
        → (s.joined ≡ 1) × (e : Entry G D v g qp_num T H) × (s.entry ≡ some e) × (e.is_ready ≡ 1)
    pub helped : 1 ≤ count waits s.threads → (s.joined ≡ 1) ⊎ (1 ≤ count on_way s.threads)

  entry_there :
      (o : Option (Entry G D v g qp_num T H))
      → 1 ≤ ready_of G D v g qp_num T H o
      → ready_of G D v g qp_num T H o ≤ 1
      → (e : Entry G D v g qp_num T H) × (o ≡ some e) × (e.is_ready ≡ 1)
  entry_there none some_ready most = absurd (omega (arith, some_ready))
  entry_there (some e) some_ready most = (e, refl, omega (arith, some_ready, most))

  is_there : (entries o w r : ℕ) → 1 ≤ w → entries ≤ 1 → (entries ≡ 0 → o + w + r ≡ 0) → entries ≡ 1
  is_there entries o w r some_waits one_entry no_entry = elim (dec_lt 0 entries) [
    | yes there ↦ omega (arith, there, one_entry)
    | no gone ↦ absurd (omega (arith, no_entry (omega (arith, gone)), some_waits))
  ]

  -- In every run of any number of clients and accepted connections that meet at the entry of one
  -- address, in any order of their critical sections and exchanges: the queue pair is made at
  -- most once, and connected at most once and not before it was made; at most one client is on
  -- the way that connects; no test of a client fails; where a client has returned, the entry is
  -- ready and its queue pair was connected; and where one waits, the queue pair was connected or
  -- some thread is on the way that connects it.
  pub MeetReach-AreJoined :
      {s : Meeting G D v g qp_num T H} → MeetReach G D v g qp_num T H s → AreJoined s
  MeetReach-AreJoined {s = s} reach =
      let h = MeetReach-IsMet reach in
      let n = h.sound in
      record {
        made_once = omega (arith, n.made_once, n.one_qp, n.one_entry);
        joined_after = omega (arith, n.joined_once, n.made_once, n.after_qp);
        no_abort = h.no_abort;
        one_client = omega (arith, h.one_client, n.one_entry);
        ready = λ some_returned.
            let is_ready = h.returned_ready some_returned in
            let (e, there, e_ready) =
              entry_there s.entry (omega (arith, is_ready)) (omega (arith, is_ready)) in
            (n.joined_once ∙ is_ready, e, there, e_ready);
        helped = λ some_waits. elim (dec_lt 0 s.joined) [
          | yes now ↦ inl (omega (arith, now, n.joined_once, n.after_qp, n.one_qp, n.one_entry))
          | no not_yet ↦ inr (
              h.helped
                (is_there (one s.entry) (count on_way s.threads) (count waits s.threads)
                  (count returns s.threads) some_waits n.one_entry h.no_entry)
                (omega (arith, not_yet, n.joined_once)))
        ];
      }
