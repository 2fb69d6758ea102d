-- ===== src/Examples/Polling.antt =====
-- Examples for poll_thread of src/rdma_transport.c.
use spark_rdma_shuffle_engin.Base.{ℕ, refl, [], ◌∷◌, arith}
use spark_rdma_shuffle_engin.Handler.Completions.{
  CompletionQueue, armed_queue, arrive, get_event, req_notify, poll_cq, push_array, PollReach,
  arrives, gets, arms, polls, pushes, start, and_then,
}
use spark_rdma_shuffle_engin.Handler.Completions.Drain.{MissesNone, PollReach-MissesNone}

-- Two completions arrive, and are polled and pushed as one array.
abbrev after_event : CompletionQueue ℕ
after_event = get_event (arrive 2 (arrive 1 armed_queue))

abbrev after_push : CompletionQueue ℕ
after_push = push_array (1 ∷ 2 ∷ []) (poll_cq (req_notify after_event))

after_push-reached : PollReach after_push
unfolding get_event req_notify poll_cq push_array
after_push-reached =
    and_then
      (and_then
        (and_then
          (and_then (and_then (and_then start (arrives 1)) (arrives 2)) (gets refl (omega arith)))
          (arms refl))
        (polls refl))
      (pushes (1 ∷ 2 ∷ []) refl)

PollReach-MissesNone_example : MissesNone after_push
PollReach-MissesNone_example = PollReach-MissesNone after_push-reached
