-- ===== src/Examples/Receiving.antt =====
-- Examples for the receiving side of src/rdma_transport.c.
use spark_rdma_shuffle_engin.Base.{
  ℕ, ◌+◌, subst, ◌≡◌, refl, List, [], ◌∷◌, ◌++◌, some, arith, ok, false, ◌==◌, if◌then◌else◌,
}
use spark_rdma_shuffle_engin.Memory.{Store}
use spark_rdma_shuffle_engin.Memory.Bytes.{read_bytes}
use spark_rdma_shuffle_engin.Memory.Frames.{frames, cut_frames}
use spark_rdma_shuffle_engin.BufferPool.{Machine}
use spark_rdma_shuffle_engin.Transport.{VArray, WorkChunk}
use spark_rdma_shuffle_engin.Receiver.{
  Receiver, deliver, release_all, handle_recv_event, work_thread,
}
use spark_rdma_shuffle_engin.Receiver.Lengths.{lengths}
use spark_rdma_shuffle_engin.Natives.{message_calls}
use spark_rdma_shuffle_engin.Natives.Jvm.{run_jni}
use spark_rdma_shuffle_engin.Natives.Delivery.{at_rest, message_calls-run}
use spark_rdma_shuffle_engin.Receiver.Deliver.{deliver-message}
use spark_rdma_shuffle_engin.Receiver.Fuel.{Agree, work_thread-returns}
use spark_rdma_shuffle_engin.Receiver.Wake.{Handled, handle_recv_event-arrive}
use spark_rdma_shuffle_engin.Receiver.Work.{message, RanOf, work_thread-messages}
use spark_rdma_shuffle_engin.Handler.{Event, recv}
use spark_rdma_shuffle_engin.Handler.Threads.{
  Loops, LoopReach, held, started, push, start, and_then, pushes, aborted, pushed, waiting, polling,
}
use spark_rdma_shuffle_engin.Handler.Threads.Order.{handled-order, early, handle_early, lost_wakeup}
use spark_rdma_shuffle_engin.Examples.Data.{some_store, some_machine, list_queue, idle_receiver}

abbrev pub some_msg : List ℕ
some_msg = 1 ∷ 2 ∷ []

-- Chunk 20 holds the message.
abbrev pub full_store : Store
full_store p = record (some_store p) {
  header =
      if p == 20
      then record {
        flags = 0;
        chunk_id = 0;
        chunk_len = 2;
        chunk_num = 1;
        data_id = 5;
        data_len = 2;
      }
      else (some_store p).header;
  body = λ i. i + 1;
}

abbrev pub full_machine : Machine
full_machine = record some_machine { store = full_store }

abbrev work_chunk : WorkChunk
work_chunk = record { transport = 60; chunk = 20; len = 0 }

abbrev full_event : Event
full_event = record {
  status = 0;
  opcode = recv;
  completion = record { work_chunk = work_chunk; byte_len = 23 };
  fresh = 300;
}

abbrev pub full_array : VArray
full_array = record { transport = 60; data_id = 5; len = 1; size = 1; chunks = 20 ∷ [] }

full_store-message : frames full_store (20 ∷ []) ≡ cut_frames 5 1 2 0 1 some_msg
unfolding read_bytes
full_store-message = refl

deliver-message_example :
    deliver full_array full_machine
    ≡ ok (record { bytes = some_msg; len = 2 }, release_all (20 ∷ []) full_machine)
deliver-message_example =
    deliver-message full_array 1 some_msg full_machine (omega arith) (omega arith) (omega arith)
      full_store-message

pub full_delivered :
    deliver full_array full_machine
    ≡ ok (record { bytes = some_msg; len = 2 }, release_all (20 ∷ []) full_machine)
full_delivered =
    deliver-message full_array 1 some_msg full_machine (omega arith) (omega arith) (omega arith)
      full_store-message

message_calls-run_example :
    run_jni (message_calls 700 701 702 2 (lengths full_store (20 ∷ []))) (at_rest ((600, 9) ∷ []))
    ≡ some (at_rest ((701, 2) ∷ (600, 9) ∷ []))
message_calls-run_example =
    message_calls-run full_array full_machine (release_all (20 ∷ []) full_machine)
      (record { bytes = some_msg; len = 2 }) 700 701 702 ((600, 9) ∷ []) (omega arith)
      full_delivered

handle_recv_event-arrive_example :
    Handled list_queue idle_receiver
      (handle_recv_event list_queue 300 full_store
        (record { work_chunk = work_chunk; byte_len = 23 })
        idle_receiver)
      (some (full_array ∷ []))
handle_recv_event-arrive_example =
    handle_recv_event-arrive list_queue idle_receiver full_store
      (record { work_chunk = work_chunk; byte_len = 23 }) 300 tt (omega arith) refl (omega arith)

-- The worker was submitted for one message; a second is not complete.
abbrev busy_receiver : Receiver list_queue
busy_receiver = record {
  work_queue = 300 ∷ 301 ∷ [];
  arrays = λ p. if p == 300 then full_array else record full_array { data_id = 6; size = 2 };
  is_work_running = 1;
  submitted = 1;
}

work_thread-messages_example :
    RanOf list_queue busy_receiver
      (message some_msg ∷ [])
      (301 ∷ [])
      (release_all (20 ∷ []) full_machine)
      (work_thread list_queue 2 busy_receiver full_machine)
work_thread-messages_example =
    work_thread-messages list_queue (300 ∷ []) (301 ∷ []) (some_msg ∷ []) 2 busy_receiver
      full_machine refl
      (
        record {
          complete = refl;
          some_chunk = omega arith;
          fits = omega arith;
          small = omega arith;
          num = 1;
          shown = full_store-message;
        },
        tt,
      )
      (λ q e.
        let same : 301 ≡ q = cc e in
        subst (λ t. (busy_receiver.arrays t).len == (busy_receiver.arrays t).size ≡ false) same
          refl)
      refl (omega arith)

-- One array is polled.
abbrev one_polled : Loops ℕ
one_polled = push 1 started

handled-order_example :
    one_polled.handled ++ (held one_polled.handler ++ one_polled.handle_queue) ≡ one_polled.polled
handled-order_example = handled-order (and_then start (pushes 1 refl))

abbrev no_loops : Loops ℕ
no_loops = started

handle_early_example :
    LoopReach (early 1 no_loops)
    × ((early 1 no_loops).handler ≡ aborted 1)
    × ((early 1 no_loops).poller ≡ pushed)
handle_early_example = handle_early no_loops 1 start refl refl refl refl

lost_wakeup_example :
    (s : Loops ℕ) × LoopReach s
    × (s.handler ≡ waiting)
    × (s.poller ≡ polling)
    × (s.handle_queue ≡ 1 ∷ [])
lost_wakeup_example = lost_wakeup 1

work_thread-returns_example :
    Agree list_queue
      (work_thread list_queue 3 busy_receiver full_machine)
      (work_thread list_queue 7 busy_receiver full_machine)
work_thread-returns_example =
    work_thread-returns list_queue 3 7 busy_receiver full_machine (omega arith) (omega arith)
