-- ===== src/Peers/Threads/Steps.antt =====
-- Each section of the threads that meet at an entry keeps the invariant: get_transport_from_ip of
-- src/rdma_transport_client.c and accept_thread of src/rdma_transport_server.c.
use spark_rdma_shuffle_engin.Base.{
  ℕ, suc, ◌≤◌, ◌≡◌, ◌≢◌, refl, sym, ap, subst, Bool, true, false, List, ◌∷◌, ◌++◌, Option, none,
  some, arith,
}
use spark_rdma_shuffle_engin.Memory.{Ptr}
use spark_rdma_shuffle_engin.BufferPool.{Grant}
use spark_rdma_shuffle_engin.Transport.{Verbs}
use spark_rdma_shuffle_engin.Glib.{GQueue, GHashTable}
use spark_rdma_shuffle_engin.Connect.{Device}
use spark_rdma_shuffle_engin.Connect.Create.{Connection}
use spark_rdma_shuffle_engin.Peers.{Text, Peer}
use spark_rdma_shuffle_engin.Peers.Threads.{
  Place, looking, creating, exchanging, completing, Thread, thread, leave_way, recheck, Meeting,
  look_entry, look_place,
}
use spark_rdma_shuffle_engin.Peers.Threads.Numbers.{
  linked, count-has, Numbers, AreMet, Moves, moved-AreMet, on_way,
}
use spark_rdma_shuffle_engin.Peers.Threads.Moves.{
  new_entry-Moves, link-Moves, leave_way-Moves, idle-Moves, recheck-Moves,
}

-- 1 where there is a value.
abbrev pub one {ℓ} : {A : Type ℓ} → Option A → ℕ
one none = 0
one (some a) = 1

module _ (G : GQueue Ptr) {Qp : Type 0} (D : Device Qp) (v : Verbs) (g : Grant) (qp_num : Qp → ℕ)
    (T : GHashTable Text Ptr) (H : GHashTable Text Text) where
  abbrev pub Entry : Type 0
  Entry = Peer G D v g qp_num T H

  abbrev pub qps_of : Option Entry → ℕ
  qps_of none = 0
  qps_of (some e) = one e.connection

  abbrev pub ready_of : Option Entry → ℕ
  ready_of none = 0
  ready_of (some e) = e.is_ready

  abbrev pub numbers : Option Entry → (made joined : ℕ) → Numbers
  numbers e made joined = record {
    entries = one e;
    qps = qps_of e;
    ready = ready_of e;
    made = made;
    joined = joined;
  }

  abbrev pub IsMet : Meeting G D v g qp_num T H → Type 0
  IsMet s = AreMet s.threads (numbers s.entry s.made s.joined)

  look-Moves :
      (c : Bool) (e : Entry) (n : Numbers)
      → n.entries ≡ 1
      → n.ready ≡ e.is_ready
      → n.ready ≤ 1
      → Moves c looking (look_place G D v g qp_num T H c (some e)) n n
  look-Moves true e n there z most = recheck-Moves true looking e.is_ready n refl there z most
  look-Moves false e n there z most =
      idle-Moves false looking creating n refl (refl, refl, refl, refl) there

  module _ (c : Bool) (before after : List Thread) (made joined : ℕ) where
    abbrev pub at : Place → List Thread
    at l = before ++ thread c l ∷ after

    pub look-IsMet :
        (entry : Option Entry)
        → AreMet (at looking) (numbers entry made joined)
        → AreMet
            (at (look_place G D v g qp_num T H c entry))
            (numbers (look_entry G D v g qp_num T H entry) made joined)
    look-IsMet none h =
        moved-AreMet c before after looking creating _ _ h
          (record {
            one_entry = omega arith;
            one_qp = omega arith;
            after_qp = omega arith;
            made_once = h.sound.made_once;
            joined_once = h.sound.joined_once;
          })
          (new_entry-Moves c (numbers none made joined)
            (record { entries = 1; qps = 0; ready = 0; made = made; joined = joined }) refl refl
            refl refl)
    look-IsMet (some e) h =
        moved-AreMet c before after looking (look_place G D v g qp_num T H c (some e)) _ _ h h.sound
          (look-Moves c e (numbers (some e) made joined) refl refl
            (omega (arith, h.sound.after_qp, h.sound.one_qp)))

    pub keep-IsMet :
        (e : Entry) (k : Connection G Qp)
        → e.connection ≡ some k
        → AreMet (at creating) (numbers (some e) made joined)
        → AreMet (at exchanging) (numbers (some e) made joined)
    keep-IsMet e k has_qp h = moved-AreMet c before after creating exchanging _ _ h h.sound (
        link-Moves c creating exchanging (numbers (some e) made joined)
          (numbers (some e) made joined) refl (refl, refl, refl, refl) (grind arith) refl refl
          (rw has_qp refl) (omega arith) (omega arith))

    pub create-IsMet :
        (e : Entry) (k : Connection G Qp)
        → e.connection ≡ none
        → AreMet (at creating) (numbers (some e) made joined)
        → AreMet
            (at exchanging)
            (numbers (some (record e { connection = some k })) (suc made) joined)
    create-IsMet e k unlinked h =
        let none_yet : qps_of (some e) ≡ 0 = rw unlinked refl in
        let old = h.sound in
        moved-AreMet c before after creating exchanging _ _ h
          (record {
            one_entry = omega arith;
            one_qp = omega arith;
            after_qp = omega (arith, old.after_qp, none_yet);
            made_once = omega (arith, old.made_once, none_yet);
            joined_once = old.joined_once;
          })
          (link-Moves c creating exchanging (numbers (some e) made joined)
            (numbers (some (record e { connection = some k })) (suc made) joined) refl
            (refl, refl, refl, refl) (grind arith) refl refl refl (omega (arith, none_yet))
            (omega arith))

    pub exchange-IsMet :
        (e e' : Entry)
        → e'.connection ≡ e.connection
        → e'.is_ready ≡ e.is_ready
        → AreMet (at exchanging) (numbers (some e) made joined)
        → AreMet (at completing) (numbers (some e') made joined)
    exchange-IsMet e e' same_qp same_ready h =
        let there : qps_of (some e) ≡ 1 =
          h.linked_qp (count-has linked before after c exchanging) in
        let qps : qps_of (some e') ≡ qps_of (some e) = ap one same_qp in
        let old = h.sound in
        moved-AreMet c before after exchanging completing _ _ h
          (record {
            one_entry = omega arith;
            one_qp = omega (arith, qps, there);
            after_qp = omega (arith, old.after_qp, qps, same_ready);
            made_once = omega (arith, old.made_once, qps);
            joined_once = omega (arith, old.joined_once, same_ready);
          })
          (link-Moves c exchanging completing _ _ refl (refl, refl, refl, refl) (grind arith) refl
            refl (omega (arith, qps, there)) (omega (arith, qps)) (omega (arith, same_ready)))

    pub complete-IsMet :
        (e e' : Entry) (k : Connection G Qp)
        → e.is_ready ≡ 0
        → e.connection ≡ some k
        → e'.is_ready ≡ 1
        → one e'.connection ≡ 1
        → AreMet (at completing) (numbers (some e) made joined)
        → AreMet (at (leave_way c 1)) (numbers (some e') made (suc joined))
    complete-IsMet e e' k idle has_qp ready linked' h =
        let there : qps_of (some e) ≡ 1 = rw has_qp refl in
        let old = h.sound in
        moved-AreMet c before after completing (leave_way c 1) _ _ h
          (record {
            one_entry = omega arith;
            one_qp = omega (arith, linked');
            after_qp = omega (arith, linked', ready);
            made_once = omega (arith, old.made_once, there, linked');
            joined_once = omega (arith, old.joined_once, idle, ready);
          })
          (leave_way-Moves c completing _ _ (omega arith) refl refl ready
            (omega (arith, there, linked')) (omega (arith, idle)))

    pub recheck-IsMet :
        (l : Place) (e : Entry)
        → on_way c l ≡ 0
        → AreMet (at l) (numbers (some e) made joined)
        → AreMet (at (recheck c e.is_ready)) (numbers (some e) made joined)
    recheck-IsMet l e o h = moved-AreMet c before after l (recheck c e.is_ready) _ _ h h.sound (
        recheck-Moves c l e.is_ready (numbers (some e) made joined) o refl refl
          (omega (arith, h.sound.after_qp, h.sound.one_qp)))

    pub pass-IsMet :
        (e : Entry)
        → e.is_ready ≢ 0
        → AreMet (at completing) (numbers (some e) made joined)
        → AreMet (at (leave_way c e.is_ready)) (numbers (some e) made joined)
    pass-IsMet e there h =
        let ready : e.is_ready ≡ 1 = omega (arith, there, h.sound.after_qp, h.sound.one_qp) in
        moved-AreMet c before after completing (leave_way c e.is_ready) _ _ h h.sound (
          subst
            (λ r.
              Moves c completing (leave_way c r) (numbers (some e) made joined)
                (numbers (some e) made joined))
            (sym ready)
            (leave_way-Moves c completing _ _ (omega arith) refl refl ready (omega arith)
              (omega (arith, ready))))
