-- ===== src/Lib.antt =====
-- conv_event, a network framework over epoll (core), with an HTTP server (http) and an image
-- recognition server (detect) built on it.
--
-- A connection (core/include/conn.h) is a byte stream (core/include/socket_io.h) with a status and a
-- place in an event loop. The single-reactor loop (core/conv_single.h) or the reactors of the
-- multi-reactor model (core/include/reactor.h, core/include/acceptor.h, core/conv_multi.h) turn the
-- events of epoll into calls of a connection's handlers, directly or through a thread pool
-- (core/include/threadpool.h) whose queue, like the queue of connections to close and the pool of
-- unused connections, is a lock_queue (core/include/lock_queue.h).
--
-- Which file models what:
-- Socket: core/include/socket_io.h and core/include/utils.h. Socket.State holds the members of
--   socket_io, Socket.Sending `send_base`, `send`, `send_with_header` and `send_file`,
--   Socket.Receiving `recv_base`, `recv`, `recv_all`, `recv_with_header` and `recv_file`.
--   A system call is a parameter: its answers are the list that each operation takes, and the list
--   bounds the loops, which wait in the next call where it ends. What the theorems need of the
--   answers is a hypothesis (`Honest`, `Progress`). A fresh `send` of n bytes needs at most n answers.
-- Queue: core/include/lock_queue.h, whose lock makes each operation one step.
-- SafeQueue: core/include/safe_queue.h, which the framework includes and does not use. SafeQueue holds the
--   nodes under addresses that are numbers and the operations as one thread runs them, alone, so that a
--   compare_exchange succeeds at once, and a push in two parts; SafeQueue.Links chains of nodes,
--   SafeQueue.Order what the queue holds, SafeQueue.Fifo its calls against a list, SafeQueue.Stall and
--   SafeQueue.Hidden the calls while a push has not come to its last line.
-- Memory: the part of core/include/conn.h that allocates. `Memory` is a store of connections under
--   pointers that are numbers, `ConnPool` the class connpool with `acquire`, `release` and its destructor.
-- Conn: the class conn of core/include/conn.h. Conn.State holds its members and `init`, `close`,
--   `notify_close`, `process`, and the calls of epoll_ctl, which are logged. The virtual handlers are
--   parameters (`Methods`).
-- Table: the map `connects` from descriptors to pointers.
-- ThreadPool: core/include/threadpool.h. ThreadPool.Pool is the object seen from one thread,
--   ThreadPool.Workers the steps of the workers and of the adding thread, interleaved, ThreadPool.Passes a
--   worker's pass through `run` on the connections of a loop.
-- Single: core/conv_single.h. Single.Server holds the members and what the loop does with one
--   connection (CONNECTS_REMOVE_FD, a new connection, the four kinds of events), Single.Loop the loop
--   `wait` and `close`. What epoll_wait answers is a list, which bounds the loop. A read through a null
--   pointer is `none`, so a theorem that the loop returns a state says that there is none.
--   Single.Startup holds the other members and `wait` up to its loop, whose system calls answer from a
--   record (`System`), Single.Settings the constructor and the setters.
--   In Single.Loop, as in Multi.Work, no worker runs between the loop's steps: with a thread pool a task is only
--   queued. Single.Workers and Multi.Workers let the workers of the pool take turns with the steps of the loop, in
--   any order; a whole `process()` is one turn, and one on a deleted connection ends the run.
-- Configure: core/include/configure.h; what core/include/json/json.h loads is a parameter (`Json`).
--
-- Start: how the steps of a start go on or end the program.
-- Multi: core/include/reactor.h (Multi.Reactor, and the loop in Multi.Work), core/include/acceptor.h
--   (Multi.Acceptor) and core/conv_multi.h. A reactor is modelled alone, with its part of the count that
--   the reactors share; what the reactors do while the acceptor waits is a parameter of its loop.
--   Multi.Startup and Multi.Settings hold the members that a start sets, the constructors of reactors and
--   acceptor, and the constructor, the setters and `wait` of conv_multi up to the loops.
-- Http: http/http_conn.h. Http.Words, Http.Status, Http.Headers, Http.HeaderNames and Http.ContentTypes
--   hold its enumerations and maps; Http.Filters the tree of filters with `_register_filter` and `match`;
--   Http.Request `parse_header`, whose loop over the lines of the headers is Http.HeaderLines. A position
--   in the text is the text from there on; `npos + 1`, which is 0, is the whole text. The loop over the
--   parameters of a url runs on fuel, since it need not end. Http.Response holds a connection's members
--   and the text of a response, Http.Reply the operations that send one (on fuel, for the rounds after
--   EAGAIN), Http.Dispatch the routers, `load_file` and `process_out`. The virtual methods of routers and
--   filters, and the files, are parameters (`Site`). Http.ContentLength is the loop of `process_in` that
--   reads a body, Http.Body `parse_body`, Http.Intake `process_in`, whose fuel bounds the loops on the
--   parameters and on the body.
-- Detect: detect/detect_conn.h, over the JSON library and the detectors as parameters (`Library`).
--
-- Not modelled: core/include/json/json.h, which is a copy of a separate library; the logger, a
-- submodule; detect/detector.h, which calls PyTorch and OpenCV; core/include/conv_base.h, whose members
-- are in the models of the derived classes; a router's method that throws; the destructor of safe_queue
-- and interleavings of its other steps; console output. The counters of connections are natural numbers,
-- which do not overflow an `int`.
pub mod Base
pub mod Socket
pub mod Queue
pub mod SafeQueue
pub mod Conn
pub mod Configure
pub mod Start
pub mod Table
pub mod Memory
pub mod ThreadPool
pub mod Single
pub mod Http
pub mod Multi
pub mod Detect
