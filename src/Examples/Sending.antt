-- ===== src/Examples/Sending.antt =====
-- Examples for src/rdma_transport_client.c and src/io_rdma_RdmaChannel.c.
use spark_rdma_shuffle_engin.Base.{
  ◌<◌, ◌≤◌, ◌⊎◌, ℕ, ◌≡◌, refl, List, [], ◌∷◌, ◌++◌, some, arith, Ends, fault, true,
}
use spark_rdma_shuffle_engin.Transport.{VArray}
use spark_rdma_shuffle_engin.Client.{send_msg, send_msg_with_header}
use spark_rdma_shuffle_engin.Client.Send.{
  Sent, supply_for, send_msg-Sent, send_msg_with_header-Sent,
}
use spark_rdma_shuffle_engin.Client.Same.{send_msg_with_header-send_msg}
use spark_rdma_shuffle_engin.Client.Sizes.{AreSized, send_msg-AreSized}
use spark_rdma_shuffle_engin.Handler.Network.{Receives, send_msg_with_header-Receives}
use spark_rdma_shuffle_engin.Channel.{
  JavaEnv, direct, heap, send_header, send_header_with_body, SentMessage, send_header-Sent,
  send_header_with_body-Sent, send_header-direct,
}
use spark_rdma_shuffle_engin.Examples.Data.{
  some_machine, some_free, some_lent, some_pool, some_grant, some_grant-willing, some_verbs,
  some_client, list_queue, idle_receiver, idle_receiver-IsIdle, loop,
}

abbrev some_msg : List ℕ
some_msg = 1 ∷ 2 ∷ 3 ∷ []

abbrev some_body : List ℕ
some_body = 4 ∷ 5 ∷ []

-- An array with room for a message of one chunk.
abbrev some_array : VArray
some_array = record { transport = 60; data_id = 5; len = 0; size = 1; chunks = 10 ∷ [] }

send_msg-Sent_example : Ends (send_msg some_verbs some_grant some_client some_msg 3 some_machine) (
    Sent some_verbs some_client some_machine some_msg (supply_for some_grant 3 some_free) some_lent)
send_msg-Sent_example =
    send_msg-Sent some_verbs some_grant some_client some_machine some_free some_lent (λ wr. refl)
      some_pool some_grant-willing some_msg (omega arith) (omega arith)
      (λ h. absurd (omega (arith, h)))

send_msg_with_header-Sent_example :
    Ends
      (send_msg_with_header some_verbs some_grant some_client some_msg 3 some_body 2 some_machine)
      (Sent some_verbs some_client some_machine
        (some_msg ++ some_body)
        (supply_for some_grant 5 some_free)
        some_lent)
send_msg_with_header-Sent_example =
    send_msg_with_header-Sent some_verbs some_grant some_client some_machine some_free some_lent
      (λ wr. refl) some_pool some_grant-willing some_msg some_body (omega arith) (omega arith)
      (λ h. absurd (omega (arith, h)))

send_msg_with_header-Receives_example :
    Ends
      (send_msg_with_header some_verbs some_grant some_client some_msg 3 some_body 2 some_machine)
      (Receives list_queue some_verbs loop some_client idle_receiver some_machine
        idle_receiver-IsIdle
        (some_msg ++ some_body))
send_msg_with_header-Receives_example =
    send_msg_with_header-Receives list_queue some_verbs loop some_client idle_receiver some_machine
      idle_receiver-IsIdle some_grant some_machine some_free some_lent (λ wr. refl) some_pool
      some_grant-willing some_msg some_body (omega arith) (omega arith)
      (λ h. absurd (omega (arith, h)))

abbrev some_env : JavaEnv
some_env = record { byte_buffer = true; array = true; position = true }

send_header-Sent_example :
    Ends
      (send_header some_env some_verbs some_grant some_client 77
        (heap (some (9 ∷ 1 ∷ 2 ∷ 3 ∷ [])) 1)
        3
        some_machine)
      (SentMessage some_env refl some_verbs some_grant some_client some_machine some_free some_lent
        (λ wr. refl)
        some_pool
        some_grant-willing
        some_msg)
send_header-Sent_example =
    send_header-Sent some_env refl some_verbs some_grant some_client some_machine some_free
      some_lent (λ wr. refl) some_pool some_grant-willing 77 1 (9 ∷ 1 ∷ 2 ∷ 3 ∷ []) some_msg
      (omega arith, refl) (omega arith) (omega arith) (λ h. absurd (omega (arith, h)))

send_header_with_body-Sent_example :
    Ends
      (send_header_with_body some_env some_verbs some_grant some_client
        (direct some_msg 0)
        3
        (heap (some (9 ∷ 4 ∷ 5 ∷ [])) 1)
        2
        some_machine)
      (SentMessage some_env refl some_verbs some_grant some_client some_machine some_free some_lent
        (λ wr. refl)
        some_pool
        some_grant-willing
        (some_msg ++ some_body))
send_header_with_body-Sent_example =
    send_header_with_body-Sent some_env refl some_verbs some_grant some_client some_machine
      some_free some_lent (λ wr. refl) some_pool some_grant-willing (direct some_msg 0)
      (heap (some (9 ∷ 4 ∷ 5 ∷ [])) 1) some_msg some_body (refl, (omega arith, refl))
      (omega arith, refl) (omega arith) (omega arith) (λ h. absurd (omega (arith, h)))

-- The local variable holds 4, Java says 1, and the memory has 3 bytes.
send_header-direct_example :
    (let run =
        send_header some_env some_verbs some_grant some_client 4
          (direct some_msg 2)
          1
          some_machine in
      ((4 ≤ 3)
        × Ends run (
            SentMessage some_env refl some_verbs some_grant some_client some_machine some_free
              some_lent
              (λ wr. refl)
              some_pool
              some_grant-willing
              some_msg))
      ⊎ ((3 < 4) × (run ≡ fault)))
send_header-direct_example =
    send_header-direct some_env refl some_verbs some_grant some_client some_machine some_free
      some_lent (λ wr. refl) some_pool some_grant-willing 4 2 1 some_msg (omega arith) (omega arith)
      (λ h. absurd (omega (arith, h)))

send_msg_with_header-send_msg_example :
    send_msg_with_header some_verbs some_grant some_client some_msg 3 some_body 2 some_machine
    ≡ send_msg some_verbs some_grant some_client (some_msg ++ some_body) 5 some_machine
send_msg_with_header-send_msg_example =
    send_msg_with_header-send_msg some_verbs some_grant some_client some_msg some_body some_machine
      (omega arith)

send_msg-AreSized_example :
    Ends (send_msg some_verbs some_grant some_client some_msg 3 some_machine) (λ r. AreSized 3 r.0)
send_msg-AreSized_example =
    send_msg-AreSized some_verbs some_grant some_client some_machine some_free some_lent
      (λ wr. refl) some_pool some_grant-willing some_msg (omega arith) (omega arith)
      (λ h. absurd (omega (arith, h)))
