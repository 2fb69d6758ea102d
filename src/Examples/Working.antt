-- ===== src/Examples/Working.antt =====
-- Examples for the threads of one transport of src/rdma_transport.c.
use spark_rdma_shuffle_engin.Base.{refl, [], ◌∷◌, arith}
use spark_rdma_shuffle_engin.Transport.{WorkChunk}
use spark_rdma_shuffle_engin.Receiver.{Receiver, update_array, opened, new_array}
use spark_rdma_shuffle_engin.Receiver.Threads.{
  Crew, crew_of, search_queue, store_new, wake_worker, begin, take_head, CrewReach, searches, opens,
  wakes, begins, takes, start, and_then,
}
use spark_rdma_shuffle_engin.Receiver.Threads.Alone.{IsAlone, CrewReach-IsAlone}
use spark_rdma_shuffle_engin.Examples.Data.{list_queue, idle_receiver}

abbrev work_chunk : WorkChunk
work_chunk = record { transport = 60; chunk = 20; len = 0 }

-- Chunk 20, the only one of message 5, is filed in array 300.
abbrev filed_receiver : Receiver list_queue
filed_receiver = record {
  work_queue = 300 ∷ [];
  arrays = update_array idle_receiver.arrays 300 (opened work_chunk 5 1);
  is_work_running = 0;
  submitted = 0;
}

abbrev at_start : Crew list_queue
at_start = crew_of list_queue idle_receiver

abbrev after_search : Crew list_queue
after_search = search_queue list_queue work_chunk 5 1 at_start

abbrev after_store : Crew list_queue
after_store = store_new list_queue 300 filed_receiver after_search

abbrev after_wake : Crew list_queue
after_wake = wake_worker list_queue after_store

abbrev after_take : Crew list_queue
after_take = take_head list_queue 300 [] [] (begin list_queue after_wake)

after_wake-reached : CrewReach list_queue at_start after_wake
unfolding search_queue store_new wake_worker new_array
after_wake-reached =
    and_then
      (and_then (and_then start (searches work_chunk 5 1 refl))
        (opens work_chunk 5 1 300 filed_receiver refl refl refl))
      (wakes refl)

after_take-reached : CrewReach list_queue at_start after_take
unfolding search_queue store_new wake_worker begin take_head
after_take-reached =
    and_then (and_then after_wake-reached (begins (omega arith))) (takes [] [] 300 refl refl refl)

CrewReach-IsAlone_example : IsAlone list_queue after_take
CrewReach-IsAlone_example =
    CrewReach-IsAlone list_queue idle_receiver after_take refl refl after_take-reached
