-- ===== src/Peers/Threads/Numbers.antt =====
-- How many threads of src/rdma_transport_client.c and src/rdma_transport_server.c are where, and
-- the invariant in these numbers.
use spark_rdma_shuffle_engin.Base.{
  ℕ, ◌+◌, ◌≤◌, ◌≡◌, Bool, true, false, List, [], ◌∷◌, ◌++◌, arith, dec_lt,
}
use spark_rdma_shuffle_engin.Peers.Threads.{
  Place, creating, exchanging, completing, waiting, returned, aborted, Thread, thread,
}

abbrev pub count : (Bool → Place → ℕ) → List Thread → ℕ
count f [] = 0
count f (t ∷ ts) = f t.is_client t.place + count f ts

-- The threads between the look and the end of the way, those that were in the section that makes
-- the queue pair, those that wait, that returned, that are in an abort; and the clients on the way.
abbrev pub on_way : Bool → Place → ℕ
on_way c creating = 1
on_way c exchanging = 1
on_way c completing = 1
on_way c _ = 0

abbrev pub linked : Bool → Place → ℕ
linked c exchanging = 1
linked c completing = 1
linked c _ = 0

abbrev pub waits : Bool → Place → ℕ
waits c waiting = 1
waits c _ = 0

abbrev pub returns : Bool → Place → ℕ
returns c returned = 1
returns c _ = 0

abbrev pub aborts : Bool → Place → ℕ
aborts c aborted = 1
aborts c _ = 0

abbrev pub connects : Bool → Place → ℕ
connects true l = on_way true l
connects false l = 0

-- A thread that moves.
pub count-moved :
    (f : Bool → Place → ℕ) (before after : List Thread) (t t' : Thread)
    → count f (before ++ t' ∷ after) + f t.is_client t.place
      ≡ count f (before ++ t ∷ after) + f t'.is_client t'.place
count-moved f [] after t t' = omega arith
count-moved f (b ∷ before) after t t' =
    let more = count-moved f before after t t' in omega (arith, more)

pub count-has :
    (f : Bool → Place → ℕ) (before after : List Thread) (c : Bool) (l : Place)
    → f c l ≤ count f (before ++ thread c l ∷ after)
count-has f [] after c l = omega arith
count-has f (b ∷ before) after c l = let more = count-has f before after c l in omega (arith, more)

-- The numbers of a meeting: 1 where there is an entry, where it has its queue pair, and where it is
-- ready, and how often a queue pair was made and connected.
pub record Numbers : Type 0 where
  pub entries : ℕ
  pub qps : ℕ
  pub ready : ℕ
  pub made : ℕ
  pub joined : ℕ

pub record AreSound (n : Numbers) : Type 0 where
  pub one_entry : n.entries ≤ 1
  pub one_qp : n.qps ≤ n.entries
  pub after_qp : n.ready ≤ n.qps
  pub made_once : n.made ≡ n.qps
  pub joined_once : n.joined ≡ n.ready

pub record AreMet (ts : List Thread) (n : Numbers) : Type 0 where
  pub sound : AreSound n
  pub no_abort : count aborts ts ≡ 0
  pub one_client : count connects ts ≤ n.entries
  pub no_entry : n.entries ≡ 0 → count on_way ts + count waits ts + count returns ts ≡ 0
  pub linked_qp : 1 ≤ count linked ts → n.qps ≡ 1
  pub returned_ready : 1 ≤ count returns ts → n.ready ≡ 1
  pub helped : n.entries ≡ 1 → n.ready ≡ 0 → 1 ≤ count on_way ts

-- A move from `l` to `l'` that takes the numbers from `n` to `n'` and keeps the invariant.
pub record Moves (c : Bool) (l l' : Place) (n n' : Numbers) : Type 0 where
  pub entered : n'.entries ≡ 1
  pub more_qps : n.qps ≤ n'.qps
  pub more_ready : n.ready ≤ n'.ready
  pub no_abort : aborts c l' ≡ 0
  pub one_client : connects c l' + n.entries ≤ connects c l + 1
  pub linked_qp : linked c l' ≤ n'.qps
  pub returned_ready : returns c l' ≤ n'.ready
  pub helped : 1 ≤ n'.ready + n.entries + on_way c l'
  pub stays : on_way c l ≤ n'.ready + on_way c l'

pub moved-AreMet :
    (c : Bool) (before after : List Thread) (l l' : Place) (n n' : Numbers)
    → AreMet (before ++ thread c l ∷ after) n
    → AreSound n'
    → Moves c l l' n n'
    → AreMet (before ++ thread c l' ∷ after) n'
moved-AreMet c before after l l' n n' h good m =
    let moves : (f : Bool → Place → ℕ)
        → count f (before ++ thread c l' ∷ after) + f c l
          ≡ count f (before ++ thread c l ∷ after) + f c l' =
      λ f. count-moved f before after (thread c l) (thread c l') in
    let a = moves aborts in
    let o = moves on_way in
    let r = moves returns in
    let k = moves connects in
    let li = moves linked in
    let old = h.sound in
    record {
      sound = good;
      no_abort = omega (arith, a, h.no_abort, m.no_abort);
      one_client = omega (arith, k, h.one_client, m.one_client, m.entered);
      no_entry = λ e. absurd (omega (arith, e, m.entered));
      linked_qp = λ some. elim (dec_lt 0 (linked c l')) [
        | yes now ↦ omega (arith, now, m.linked_qp, m.entered, good.one_qp)
        | no not_now ↦
            let before_qp = h.linked_qp (omega (arith, li, some, not_now)) in
            omega (arith, before_qp, m.more_qps, m.entered, good.one_qp)
      ];
      returned_ready = λ some. elim (dec_lt 0 (returns c l')) [
        | yes now ↦ omega (arith, now, m.returned_ready, m.entered, good.one_qp, good.after_qp)
        | no not_now ↦
            let was_ready = h.returned_ready (omega (arith, r, some, not_now)) in
            omega (arith, was_ready, m.more_ready, m.entered, good.one_qp, good.after_qp)
      ];
      helped = λ e z. elim (dec_lt 0 n.entries) [
        | yes there ↦
            let was_helped =
              h.helped (omega (arith, there, old.one_entry)) (omega (arith, z, m.more_ready)) in
            omega (arith, was_helped, o, m.stays, z)
        | no new ↦
            let none_there = h.no_entry (omega (arith, new)) in
            let has = count-has on_way before after c l in
            omega (arith, none_there, has, o, m.helped, z, new)
      ];
    }
