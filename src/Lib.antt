-- ===== src/Lib.antt =====
-- A model of the communication traffic center: the message passing between the processes of a
-- device, and between devices over an RS485 line that carries two protocols.
--
-- Parts, and how they interact. A process sends with `ctc_send_msg` and its relatives (Sender), which
-- make a package of the arguments (Package, Package.Build, Package.Checksum). A package for a process
-- of this device goes to that process's socket (Socket); one for another device goes to a message
-- queue (Infra.Mq). The server's `exter_transmitter` (Transmitter) takes it from the queue and writes
-- it to the line (Exter, Infra.Rs485), as its own bytes or as a frame of the old protocol (OldFrame).
-- `inter_transmitter` (Transmitter) reads messages from the line: the receiver (Receive) finds a magic
-- word in what has come in (Search), waits for the rest, turns an old frame into a package (OldFrame)
-- and gives it to the check (Check) and then to the local socket. In the receiving process
-- `event_poster` takes a message from the socket and gives it to a thread that waits for its event
-- (Syncer) or puts it into the mailbox (Mailbox), and `event_handler` calls the handlers (Handler).
--
-- The files and the code they model:
--   Base, Base/*          shared names: tests, options, bytes in memory, tables, C integers, binary digits
--   Package               api/ctc_def.h, utils/hw_info.c, the field readers of app/msg_util.c
--   Package/Build, Package/Checksum, Package/Fields
--                         `package_msg` and the checksums of app/msg_util.c; what a package holds
--   Package/Corrupt, Package/Typed
--                         a package with one byte changed; packages are made of bytes
--   Mailbox, Mailbox/*    app/msg_mailbox.c; the abstract queue and the refinement
--   Search, Search/First  `get_msg_head` of app/msg_util.c
--   OldFrame, OldFrame/*  `convert_old_to_new` and `convert_new_to_old` of app/msg_util.c
--   Check                 `msg_check` of app/msg_util.c
--   Receive, Receive/*    `try_recv_full_msg` of app/msg_util.c and what it calls
--   Exter, Exter/*        `recv_msg_from_exter` and `send_msg_to_remote` of app/msg_util.c
--   Clock                 the deadlines of app/msg_syncer.c and infra/rs485_util.c
--   Infra/Rs485, Infra/Mq infra/rs485_util.c and infra/mq_util.c
--   Infra/Ack             `ack_syncer` of infra/rs485_util.c with its two threads
--   Socket, Socket/Laws   app/matrix_register.c and the sockets of app/msg_util.c
--   Sender, Sender/*      app/msg_sender.c
--   Transmitter, Transmitter/*
--                         app/msg_transmitter.c
--   Syncer, Syncer/*      app/msg_syncer.c
--   Handler, Handler/*    app/msg_handler.c and the event switch of api/ctc_def.h
--   Handler/Threads, Handler/Threads/*
--                         app/msg_handler.c and app/msg_mailbox.c with their threads interleaved
--   Journey, Journey/*    messages from end to end: through Sender, Socket, Handler and Mailbox or
--                         Syncer, and through Sender, Infra/Mq, Transmitter, Exter and Receive
--   Start, Start/Meeting  app/ctc_starter.c, server/main.c and what the threads do before their loops
--   Trace, Trace/Silence  utils/trace_com.h, utils/ctc_trace.h, utils/ctc_trace.c, utils/assert.h
--   Tests, Tests/*        concrete runs
--
-- Representation. A package is its bytes in memory, a function from the offset; the structures are
-- laid out as a compiler for a little-endian machine does: `sizeof(Msg_head)` is 16 and
-- `sizeof(Msg_pkg)` is 4114. The functions named after C functions take the state they read, and
-- answer the state they leave beside their result; `none` is a fault: an access through a null
-- pointer or outside a buffer. The buffers that are watched are the packages that are made, summed up
-- and converted, the buffers of the receiver with the destination that it copies to, the one that
-- `send_msg_to_remote` writes to the line, and the message that `sync_data` copies from. SUCCESS, FAILED
-- and CONTINUE are the constructors of `Status`. Whether a plain `char` is signed depends on the
-- platform, so what depends on it takes `char_signed`. The answers of the system calls, the reads of
-- the line among them, are arguments.
--
-- Loops. `get_msg_head` runs on fuel one above the length, each round of the outer and of the inner
-- loop moves on by one byte at least, and Search.First shows that the fuel does not run out.
-- `traverse_mailbox` runs on fuel 64, and Mailbox.Trace shows that it is enough. `connect_socket` makes
-- at most a hundred attempts, one for each unit of its fuel. The receive loop runs once for each read.
-- The loops of the transmitters run over a list of turns of any length, and `main` for any number of
-- rounds.
--
-- Threads. Handler.Threads and Infra.Ack are step relations: what a thread does under one lock, or
-- between two calls of the pthread library, is one step, and the threads' steps come in any order.
-- Syncer.Owners does the same for the table of waiting threads.
--
-- Not modelled. That a lock or a condition behaves as the pthread library says is built into the steps,
-- and in the functions a timed wait ends as an argument says. In the functions outside Trace the value
-- that an assertion macro returns is written out where it is used, and outside Trace, Start and Mailbox
-- what the trace macros print is left out. The `memcpy` in `try_recv_old_msg_body` may
-- overlap; it is modelled as copying the bytes that were there before. The `ack_for_old_set_msg` that
-- the event switch calls, and the handlers, are the application's.
pub mod Base
pub mod Package
pub mod Mailbox
pub mod Search
pub mod OldFrame
pub mod Check
pub mod Receive
pub mod Clock
pub mod Infra
pub mod Socket
pub mod Sender
pub mod Exter
pub mod Transmitter
pub mod Syncer
pub mod Handler
pub mod Journey
pub mod Start
pub mod Trace
pub mod Tests
