-- ===== src/Connect/Exchange.antt =====
-- exchange_info of src/rdma_utils.c, on both ends of a socket.
use spark_rdma_shuffle_engin.Base.{
  ℕ, ◌^◌, ◌<◌, ◌≡◌, refl, sym, ap, ◌∙◌, true, false, [], ◌∷◌, arith, is_negative, done,
}
use spark_rdma_shuffle_engin.Connect.{
  QpAttr, swap16, swap32, to_network, from_network, Link, local_attr, exchange_info,
}

swap16-swap16 : (n : ℕ) → n < 2 ^ 16 → swap16 (swap16 n) ≡ n
swap16-swap16 n h = omega arith

swap32-swap32 : (n : ℕ) → n < 2 ^ 32 → swap32 (swap32 n) ≡ n
swap32-swap32 n h = omega arith

-- The values fit the fields.
pub record IsAttr (a : QpAttr) : Type 0 where
  pub lid : a.lid < 2 ^ 16
  pub qpn : a.qpn < 2 ^ 32
  pub psn : a.psn < 2 ^ 32

pub from_network-to_network : (a : QpAttr) → IsAttr a → from_network (to_network a) ≡ a
from_network-to_network a h =
    rw (swap16-swap16 a.lid h.lid, swap32-swap32 a.qpn h.qpn, swap32-swap32 a.psn h.psn) refl

-- Where the attributes fit their fields, every call on the socket succeeds, and what one end
-- writes is what the other reads, whole, both calls of `exchange_info` return 0, and each end
-- then holds the other's attributes and has written its own in network order.
pub exchange_info-both :
    (client server : Link) (qpn_c qpn_s : ℕ) (tmp_c tmp_s remote_c remote_s : QpAttr)
    → (let local_c = local_attr client qpn_c in
        let local_s = local_attr server qpn_s in
        let at_client = exchange_info client qpn_c true tmp_c remote_c in
        let at_server = exchange_info server qpn_s false tmp_s remote_s in
        IsAttr local_c
        → IsAttr local_s
        → is_negative (client.write (to_network local_c)) ≡ false
        → is_negative (server.write (to_network local_s)) ≡ false
        → is_negative client.read ≡ false
        → is_negative server.read ≡ false
        → ((tmp : QpAttr) → server.received tmp ≡ to_network local_c)
        → ((tmp : QpAttr) → client.received tmp ≡ to_network local_s)
        → (at_client.status ≡ done)
          × (at_server.status ≡ done)
          × (at_client.remote ≡ at_server.local)
          × (at_server.remote ≡ at_client.local)
          × (at_client.written ≡ to_network at_server.remote ∷ [])
          × (at_server.written ≡ to_network at_client.remote ∷ []))
unfolding exchange_info
exchange_info-both client server qpn_c qpn_s tmp_c tmp_s remote_c remote_s hc hs wc ws rc rs cs sc =
    let at_server : from_network (server.received tmp_s) ≡ local_attr client qpn_c =
      ap from_network (cs tmp_s) ∙ from_network-to_network (local_attr client qpn_c) hc in
    let at_client : from_network (client.received (to_network (local_attr client qpn_c)))
        ≡ local_attr server qpn_s =
      ap from_network (sc (to_network (local_attr client qpn_c)))
      ∙ from_network-to_network (local_attr server qpn_s) hs in
    rw (wc, ws, rc, rs)
      (
        refl,
        refl,
        at_client,
        at_server,
        ap (λ a. to_network a ∷ []) (sym at_server),
        ap (λ a. to_network a ∷ []) (sym at_client),
      )

-- Where the client's attributes fit their fields, its write succeeds, and its `read` returns no
-- error but leaves the structure as it was, as at the end of the stream, `exchange_info` returns
-- 0 on the client, with the client's own attributes as those of the server.
pub exchange_info-closed :
    (client : Link) (qpn : ℕ) (tmp remote : QpAttr)
    → IsAttr (local_attr client qpn)
    → is_negative (client.write (to_network (local_attr client qpn))) ≡ false
    → is_negative client.read ≡ false
    → ((t : QpAttr) → client.received t ≡ t)
    → (let r = exchange_info client qpn true tmp remote in (r.status ≡ done) × (r.remote ≡ r.local))
unfolding exchange_info
exchange_info-closed client qpn tmp remote h wrote read same =
    rw (wrote, read, same (to_network (local_attr client qpn)))
      (refl, from_network-to_network (local_attr client qpn) h)

-- What a client knows after a call in which no call on the socket fails.
pub exchange_info-client :
    (client : Link) (qpn : ℕ) (tmp remote : QpAttr)
    → is_negative (client.write (to_network (local_attr client qpn))) ≡ false
    → is_negative client.read ≡ false
    → exchange_info client qpn true tmp remote ≡ record {
      status = done;
      local = local_attr client qpn;
      remote = from_network (client.received (to_network (local_attr client qpn)));
      written = to_network (local_attr client qpn) ∷ [];
    }
unfolding exchange_info
exchange_info-client client qpn tmp remote wrote read = rw (wrote, read) refl

-- What a server knows after a call in which no call on the socket fails.
pub exchange_info-server :
    (server : Link) (qpn : ℕ) (tmp remote : QpAttr)
    → is_negative (server.write (to_network (local_attr server qpn))) ≡ false
    → is_negative server.read ≡ false
    → exchange_info server qpn false tmp remote ≡ record {
      status = done;
      local = local_attr server qpn;
      remote = from_network (server.received tmp);
      written = to_network (local_attr server qpn) ∷ [];
    }
unfolding exchange_info
exchange_info-server server qpn tmp remote wrote read = rw (read, wrote) refl
