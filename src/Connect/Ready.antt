-- ===== src/Connect/Ready.antt =====
-- The states that the queue pair goes through in rdma_create_connect and rdma_complete_connect of
-- src/rdma_transport.c.
use spark_rdma_shuffle_engin.Base.{
  ℕ, suc, ◌≡◌, refl, ap, sym, subst, ◌∙◌, inl, inr, Bool-cases, Ends, ok, ℤ, pos, is_negative, done,
}
use spark_rdma_shuffle_engin.Connect.{
  QpAttr, QpState, Change, Device, modify_qp_to_init, modify_qp_to_rtr, modify_qp_to_rts,
  rdma_complete_connect, reset, init, rtr, rts, to_init, to_rtr, to_rts, qp_access_flags,
  ibv_mtu_4096,
}

-- The transitions that InfiniBand has for a reliable connection.
pub data Moves : QpState → Change → QpState → Type 0 where
  starts : {k port flags : ℕ} → Moves reset (to_init k port flags) init
  meets :
      {qpn psn lid port mtu timer atomic : ℕ}
      → Moves init (to_rtr qpn psn lid port mtu timer atomic) rtr
  sends : {psn timeout retry rnr atomic : ℕ} → Moves rtr (to_rts psn timeout retry rnr atomic) rts

module _ {Qp : Type 0} (D : Device Qp) (state : Qp → QpState) where
  -- A device that makes every transition that there is.
  abbrev pub Accepts : Type 0
  Accepts =
      (qp : Qp) (c : Change) (s : QpState)
      → Moves (state qp) c s
      → (let (r, qp') = D.modify_qp qp c in (r ≡ pos 0) × (state qp' ≡ s))

  -- A device that makes none: `ibv_modify_qp` returns the value of errno, which is positive.
  abbrev pub RefusesAll : Type 0
  RefusesAll = (qp : Qp) (c : Change) → (errno : ℕ) × (D.modify_qp qp c ≡ (pos (suc errno), qp))

  pub init-Accepts :
      (qp : Qp)
      → Accepts
      → state qp ≡ reset
      → (let (status, qp') = modify_qp_to_init D qp in (status ≡ done) × (state qp' ≡ init))
  unfolding modify_qp_to_init
  init-Accepts qp accepts at =
      let (zero_result, now) =
        accepts qp (to_init 0 1 qp_access_flags) init
          (subst (λ s. Moves s (to_init 0 1 qp_access_flags) init) (sym at) starts) in
      rw zero_result (refl, now)

  module _ (qp qp' : Qp) (a : QpAttr) (n : ℕ) where
    rtr-done :
        D.modify_qp qp (to_rtr a.qpn a.psn a.lid 1 ibv_mtu_4096 20 0) ≡ (pos n, qp')
        → modify_qp_to_rtr D qp a ≡ (done, qp')
    unfolding modify_qp_to_rtr
    rtr-done e = rw e refl

    rts-done :
        D.modify_qp qp (to_rts a.psn 20 7 7 0) ≡ (pos n, qp')
        → modify_qp_to_rts D qp a ≡ (done, qp')
    unfolding modify_qp_to_rts
    rts-done e = rw e refl

  complete_connect-steps :
      (qp qp1 qp2 : Qp) (local remote : QpAttr)
      → modify_qp_to_rtr D qp remote ≡ (done, qp1)
      → modify_qp_to_rts D qp1 local ≡ (done, qp2)
      → rdma_complete_connect D qp local remote ≡ ok qp2
  unfolding rdma_complete_connect
  complete_connect-steps qp qp1 qp2 local remote e1 e2 = rw (e1, e2) refl

  -- The same, with the two queue pairs that `ibv_modify_qp` leaves.
  complete_connect-Accepts :
      (qp : Qp) (local remote : QpAttr)
      → Accepts
      → state qp ≡ init
      → (let c1 = to_rtr remote.qpn remote.psn remote.lid 1 ibv_mtu_4096 20 0 in
          let c2 = to_rts local.psn 20 7 7 0 in
          let qp1 = (D.modify_qp qp c1).1 in
          let qp2 = (D.modify_qp qp1 c2).1 in
          (rdma_complete_connect D qp local remote ≡ ok qp2)
          × (state qp2 ≡ rts)
          × ((D.modify_qp qp c1).0 ≡ pos 0)
          × ((D.modify_qp qp1 c2).0 ≡ pos 0))
  complete_connect-Accepts qp local remote accepts at =
      let c1 : Change = to_rtr remote.qpn remote.psn remote.lid 1 ibv_mtu_4096 20 0 in
      let c2 : Change = to_rts local.psn 20 7 7 0 in
      let qp1 : Qp = (D.modify_qp qp c1).1 in
      let qp2 : Qp = (D.modify_qp qp1 c2).1 in
      let (r1, s1) = accepts qp c1 rtr (subst (λ s. Moves s c1 rtr) (sym at) meets) in
      let (r2, s2) = accepts qp1 c2 rts (subst (λ s. Moves s c2 rts) (sym s1) sends) in
      (
        complete_connect-steps qp qp1 qp2 local remote
            (rtr-done qp qp1 remote 0 (ap (λ (r : ℤ). (r, qp1)) r1))
            (rts-done qp1 qp2 local 0 (ap (λ (r : ℤ). (r, qp2)) r2)),
        s2,
        r1,
        r2,
      )

  -- With a device that makes every transition that there is, `rdma_complete_connect` on a queue
  -- pair in INIT runs to its end and leaves it in RTS.
  pub complete_connect-rts :
      (qp : Qp) (local remote : QpAttr)
      → Accepts
      → state qp ≡ init
      → Ends (rdma_complete_connect D qp local remote) (λ qp'. state qp' ≡ rts)
  complete_connect-rts qp local remote accepts at =
      let (run, at_rts, r1, r2) = complete_connect-Accepts qp local remote accepts at in
      rw run at_rts

  -- Where every `ibv_modify_qp` fails and returns a positive errno, `rdma_complete_connect`
  -- passes its assertions and leaves the queue pair in the state that it was in.
  pub complete_connect-refused :
      (qp : Qp) (local remote : QpAttr)
      → RefusesAll
      → rdma_complete_connect D qp local remote ≡ ok qp
  complete_connect-refused qp local remote refuses =
      let (e1, r1) = refuses qp (to_rtr remote.qpn remote.psn remote.lid 1 ibv_mtu_4096 20 0) in
      let (e2, r2) = refuses qp (to_rts local.psn 20 7 7 0) in
      complete_connect-steps qp qp qp local remote (rtr-done qp qp remote (suc e1) r1)
        (rts-done qp qp local (suc e2) r2)

  -- The number of a queue pair, and that of the queue pair which it sends to: a change keeps the
  -- first, and the second is set on the way to RTR and kept behind it.
  pub record Numbers (qp_num dest_qp_num : Qp → ℕ) : Type 0 where
    pub keeps_num : (qp : Qp) (c : Change) → qp_num (D.modify_qp qp c).1 ≡ qp_num qp
    pub sets_dest :
        (qp : Qp) (qpn psn lid port mtu timer atomic : ℕ)
        → (let (r, qp') = D.modify_qp qp (to_rtr qpn psn lid port mtu timer atomic) in
            r ≡ pos 0 → dest_qp_num qp' ≡ qpn)
    pub keeps_dest :
        (qp : Qp) (psn timeout retry rnr atomic : ℕ)
        → dest_qp_num (D.modify_qp qp (to_rts psn timeout retry rnr atomic)).1 ≡ dest_qp_num qp

  module _ (qp_num dest_qp_num : Qp → ℕ) (numbers : Numbers qp_num dest_qp_num) where
    pub init-Numbers : (qp : Qp) → qp_num (modify_qp_to_init D qp).1 ≡ qp_num qp
    unfolding modify_qp_to_init
    init-Numbers qp =
        elim (Bool-cases (is_negative (D.modify_qp qp (to_init 0 1 qp_access_flags)).0)) [
          | inl fails ↦ rw fails (numbers.keeps_num qp (to_init 0 1 qp_access_flags))
          | inr works ↦ rw works (numbers.keeps_num qp (to_init 0 1 qp_access_flags))
        ]

    pub complete_connect-Numbers :
        (qp qp' : Qp) (local remote : QpAttr)
        → Accepts
        → state qp ≡ init
        → rdma_complete_connect D qp local remote ≡ ok qp'
        → (qp_num qp' ≡ qp_num qp) × (dest_qp_num qp' ≡ remote.qpn)
    complete_connect-Numbers qp qp' local remote accepts at e =
        let c1 : Change = to_rtr remote.qpn remote.psn remote.lid 1 ibv_mtu_4096 20 0 in
        let c2 : Change = to_rts local.psn 20 7 7 0 in
        let qp1 : Qp = (D.modify_qp qp c1).1 in
        let (run, at_rts, r1, r2) = complete_connect-Accepts qp local remote accepts at in
        let same : (D.modify_qp qp1 c2).1 ≡ qp' = cc (run, e) in
        (
          ap qp_num (sym same) ∙ numbers.keeps_num qp1 c2 ∙ numbers.keeps_num qp c1,
          ap dest_qp_num (sym same)
              ∙ numbers.keeps_dest qp1 local.psn 20 7 7 0
              ∙ numbers.sets_dest qp remote.qpn remote.psn remote.lid 1 ibv_mtu_4096 20 0 r1,
        )
