-- ===== src/Lib.antt =====
-- A verification library for the RDMA shuffle engine: the C library under src/ that a Spark plugin
-- calls through JNI to send messages between hosts over InfiniBand.
--
-- A message is cut into chunks of 64 KiB out of a pool of registered memory, each chunk is posted
-- as one send request, and the receiver collects the chunks of a message by its id and hands it to
-- Java when it is complete. The parts, and the modules that model them:
--
-- Memory: the chunk of src/rdma_buffer_pool.h. An address counts chunks, 0 is NULL, and the
--   store is a function from addresses to chunks. Memory.Bytes has memcpy, which faults out of
--   bounds; Memory.Frames says what a chunk shows on the wire, and, independently of the code, how
--   a message is cut into pieces.
-- BufferPool: src/rdma_buffer_pool.c. `Machine` is the store and the pool; the free list is the
--   chain of `next` pointers. BufferPool.Invariant has the well-formed pool: the free and the lent
--   chunks are apart, and the counters are right. BufferPool.Threads runs
--   get_rdma_chunk_from_pool in two threads, one critical section a step.
-- Transport: the posting functions of src/rdma_transport.c, and varray_t.
-- Client: send_msg and send_msg_with_header of src/rdma_transport_client.c.
-- Glib: the queue of GLib as an interface, a record of operations and the laws that GLib
--   documents. Receiver and Handler take it as a parameter; Examples.Data has an instance.
-- Receiver: handle_recv_event and work_thread of src/rdma_transport.c. Receiver.Arrive is what
--   handle_recv_event promises, on a list of messages without pointers. Receiver.Threads is the
--   step relation of the handler's thread and of the runs of work_thread, one critical section a
--   step; the store of a chunk in an array, outside the lock, is one step.
-- Handler: the loops of handle_thread and poll_thread over an array of completions.
--   Handler.Network joins the sender to the receiver; Handler.Threads is the step relation of the
--   two threads, their queue and their condition variable; Handler.Completions is poll_thread with
--   the completion queue that libibverbs arms and that wakes it.
-- Channel: the native methods of src/io_rdma_RdmaChannel.c.
-- Connect: exchange_info and the modify_qp functions of src/rdma_utils.c, rdma_create_connect and
--   rdma_complete_connect of src/rdma_transport.c.
-- Peers: get_transport_from_ip and connect_server of src/rdma_transport_client.c, and the loop of
--   accept_thread of src/rdma_transport_server.c, each run by one thread, with the hash table of
--   GLib as an interface; Peers.Meet joins the two hosts. Peers.Threads is the step relation of any
--   number of them at the entry of one address.
-- Server: init_server and destroy_server of src/rdma_transport_server.c, with the opening and
--   closing of the context in src/rdma_utils.c and rdma_shutdown_connect of src/rdma_transport.c.
--   A run is the list of its calls that make and free resources; Server.Calls replays such a list
--   by the order that libibverbs documents.
-- Natives: the native methods of src/io_rdma_RdmaServer.c, and the calls of JNI that work_thread
--   makes through it for one message. Natives.Jvm states, from JNI's documents, which calls are
--   allowed; Natives.Delivery runs those of one message, Natives.Life joins init to destroy.
-- Base: the names that the others share; Examples: the properties at concrete inputs.
--
-- How C is read. A run ends with a value, in undefined behaviour (`fault`) or in `abort`; a
-- failed GPR_ASSERT aborts. `Ends r P` says that `r` ends with a value that satisfies `P`.
-- uint32_t is a natural number with the wrap-around written out (`add32`, `sub32`). Loops are
-- structural recursion on a count or a list; only work_thread, which runs until its queue has no
-- complete message, has fuel, and one round more than there are complete messages is enough. What
-- malloc returns where a function depends on it, and what libibverbs, the device, the socket, JNI
-- and the network answer, are arguments. Where the code passes a length as an int, the model
-- keeps a natural number and ends in `fault` where it would not fit: from 2^31 bytes on a message
-- cannot be handed to Java, and more than 2^31 chunks cannot be linked. Message lengths below are
-- bounded accordingly.
--
-- Not modelled: the end of the threads, the memory of hash tables and their keys, exceptions of
-- Java, logging. send_msg takes the transport that get_transport_from_ip returns in place of the
-- host. In the step relations an abort outside the tests that are modelled ends the process, and
-- has no step. A malloc of a small structure whose result the code does not test, or tests by
-- GPR_ASSERT before any effect, is taken to succeed, except in the pool, in handle_recv_event and
-- for a new transport. free has no effect on the model but in Server.
mod Base
pub mod Memory
pub mod BufferPool
pub mod Transport
pub mod Client
pub mod Glib
pub mod Receiver
pub mod Handler
pub mod Channel
pub mod Connect
pub mod Peers
pub mod Server
pub mod Natives
mod Examples
