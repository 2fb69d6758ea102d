-- ===== src/Connect.antt =====
-- Setting up a connection: exchange_info and the modify_qp functions of src/rdma_utils.c, and
-- rdma_complete_connect of src/rdma_transport.c.
pub mod Exchange
pub mod Ready
pub mod Create
use spark_rdma_shuffle_engin.Base.{
  ℕ, ◌+◌, ◌*◌, ◌/◌, ◌%◌, ◌^◌, Bool, true, false, List, [], ◌∷◌, ◌==◌, if◌then◌else◌, Outcome, ok,
  abort, ◌>>=◌, ℤ, is_negative, Status, done, failed,
}

-- `struct qp_attr`: a 16-bit local id, and 32-bit queue pair and packet numbers
pub record QpAttr : Type 0 where
  pub lid : ℕ
  pub qpn : ℕ
  pub psn : ℕ

-- `htons` and `ntohs`, `htonl` and `ntohl` on a little-endian host
abbrev pub swap16 : ℕ → ℕ
swap16 n = n % 2 ^ 8 * 2 ^ 8 + n / 2 ^ 8

abbrev pub swap32 : ℕ → ℕ
swap32 n = n % 2 ^ 8 * 2 ^ 24 + n / 2 ^ 8 % 2 ^ 8 * 2 ^ 16 + n / 2 ^ 16 % 2 ^ 8 * 2 ^ 8 + n / 2 ^ 24

abbrev pub to_network : QpAttr → QpAttr
to_network a = record { lid = swap16 a.lid; qpn = swap32 a.qpn; psn = swap32 a.psn }

abbrev pub from_network : QpAttr → QpAttr
from_network a = record { lid = swap16 a.lid; qpn = swap32 a.qpn; psn = swap32 a.psn }

-- The socket and the port, as the calls show them: the results of `write`, of `read` and of
-- `ibv_query_port`, and what `read` makes of the structure that it reads into.
pub record Link : Type 0 where
  pub write : QpAttr → ℤ
  pub read : ℤ
  pub received : QpAttr → QpAttr
  pub query_port : ℤ
  pub port_lid : ℕ

abbrev pub get_local_lid : Link → ℕ
get_local_lid k = if is_negative k.query_port then 0 else k.port_lid

-- The two structures of the transport, and what was written to the socket.
pub record Exchanged : Type 0 where
  pub status : Status
  pub local : QpAttr
  pub remote : QpAttr
  pub written : List QpAttr

abbrev pub local_attr : Link → (qp_num : ℕ) → QpAttr
local_attr k qp_num = record { lid = get_local_lid k; qpn = qp_num; psn = 0 }

-- `tmp` is not initialised on the server.
unfoldable pub exchange_info :
    Link → (qp_num : ℕ) → (is_client : Bool) → (tmp remote : QpAttr) → Exchanged
exchange_info k qp_num true tmp remote =
    let local = local_attr k qp_num in
    let sent = to_network local in
    if is_negative (k.write sent)
    then record { status = failed; local = local; remote = remote; written = [] }
    else if is_negative k.read
    then record { status = failed; local = local; remote = remote; written = sent ∷ [] }
    else record {
      status = done;
      local = local;
      remote = from_network (k.received sent);
      written = sent ∷ [];
    }
exchange_info k qp_num false tmp remote =
    let local = local_attr k qp_num in
    let sent = to_network local in
    let got = from_network (k.received tmp) in
    if is_negative k.read
    then record { status = failed; local = local; remote = remote; written = [] }
    else if is_negative (k.write sent)
    then record { status = failed; local = local; remote = got; written = [] }
    else record { status = done; local = local; remote = got; written = sent ∷ [] }

-- `enum ibv_qp_state`, as far as the code uses it
pub data QpState : Type 0 where
  reset init rtr rts : QpState

-- RDMA_BUF_FLAG, and the value of IBV_MTU_4096
abbrev pub qp_access_flags : ℕ
qp_access_flags = 7

abbrev pub ibv_mtu_4096 : ℕ
ibv_mtu_4096 = 5

-- A call of `ibv_modify_qp`: the fields that its flags name; those of the address vector that are
-- always 0 are left out.
pub data Change : Type 0 where
  to_init : (pkey_index port_num qp_access_flags : ℕ) → Change
  to_rtr : (dest_qp_num rq_psn dlid port_num path_mtu min_rnr_timer max_dest_rd_atomic : ℕ) → Change
  to_rts : (sq_psn timeout retry_cnt rnr_retry max_rd_atomic : ℕ) → Change

-- libibverbs and the device: the result of `ibv_modify_qp`, and the queue pair after it.
pub record Device (Qp : Type 0) : Type 0 where
  pub modify_qp : Qp → Change → ℤ × Qp

module _ {Qp : Type 0} (D : Device Qp) where
  pub modify_qp_to_init : Qp → Status × Qp
  modify_qp_to_init qp =
      let (result, qp') = D.modify_qp qp (to_init 0 1 qp_access_flags) in
      if is_negative result then (failed, qp') else (done, qp')

  pub modify_qp_to_rtr : Qp → (remote : QpAttr) → Status × Qp
  modify_qp_to_rtr qp remote =
      let (result, qp') =
        D.modify_qp qp (to_rtr remote.qpn remote.psn remote.lid 1 ibv_mtu_4096 20 0) in
      if is_negative result then (failed, qp') else (done, qp')

  pub modify_qp_to_rts : Qp → (local : QpAttr) → Status × Qp
  modify_qp_to_rts qp local =
      let (result, qp') = D.modify_qp qp (to_rts local.psn 20 7 7 0) in
      if is_negative result then (failed, qp') else (done, qp')

  -- The assertion that a call returned 0.
  abbrev pub passed : Status × Qp → Outcome Qp
  passed (done, qp) = ok qp
  passed (failed, qp) = abort

  pub rdma_complete_connect : Qp → (local remote : QpAttr) → Outcome Qp
  rdma_complete_connect qp local remote =
      passed (modify_qp_to_rtr qp remote) >>= λ qp1. passed (modify_qp_to_rts qp1 local)
