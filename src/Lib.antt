-- ===== src/Lib.antt =====
-- Verification of TecnicoFS, a library of C functions that keeps one directory of files in memory. The
-- directory P1 has a version for several threads, with files of several blocks; the directory P2 has
-- one with files of one block, a server that offers it to clients through named pipes, and the
-- clients' side of that protocol.
--
-- The parts, and how they interact.
--
-- Base: C integers, byte memory, tables with free entries; no part of the program.
-- Calls: the results of system calls, and the loops around the calls.
-- Fs: P2/fs/state.c and P2/fs/operations.c over the constants of P2/fs/config.h.
--   * Fs/State: the types of P2/fs/state.h, the record `Fs` of the global tables, and state_init.
--   * Fs/Block, Fs/Inode, Fs/Dir, Fs/OpenFile: the functions of P2/fs/state.c on data blocks, i-nodes,
--     the entries of the directory, and the open file table, under their names in the source.
--   * Fs/Operations: tfs_init, tfs_lookup, tfs_open, tfs_close, tfs_write, tfs_read and
--     tfs_destroy_after_all_closed of P2/fs/operations.c. `lookup_unsynchronized` and its like are the
--     functions `_tfs_..._unsynchronized`; a piece of a function has a name of its own, with the
--     function named above it.
--   * Fs/Valid, with its children: the tables' invariant. Fs/Io, Fs/Naming, Fs/Handles, Fs/Alloc,
--     Fs/Locks, Fs/Misuse: the properties of the operations. Fs/Dir/...: lemmas on the directory.
--     Fs/Destroy: tfs_destroy_after_all_closed beside threads in tfs_open and tfs_close.
--     Fs/Refine: a contract of the calls on open handles over files as sequences of bytes, and the
--     proof that the tables implement it.
-- Server: P2/fs/tfs_server.c.
--   * Server/State: the types, the globals, and the loop of main over the sessions.
--   * Server/Producer: the thread that reads requests from the server's pipe, one function for each op
--     code, and `mount_sessions`, the loop of MOUNT.
--   * Server/Consumer: the threads that carry the requests out, one function for each op code; they
--     call the functions of Fs/Operations and write to the client's pipe.
--   * Server/Main: main up to the start of its threads, and what the threads do before and behind
--     their loops. Server/Shutdown: the waits on condition variables, and the joins of main.
--   * Server/Sessions, Server/Changes, Server/Turns, Server/Mounting: an invariant of the threads'
--     rounds in any order, and the requests to mount.
-- Client: P2/client/tecnicofs_client_api.c.
--   * Client/Messages: the bytes of each request. Client/Api: the functions of the API; those that have
--     the name of a function of the file system are called client_open, client_close, client_write and
--     client_read.
--   * Client/Delivery, Client/Requests, Client/Fields, Client/Contents, Client/Delivered: what the
--     server makes of the messages. Client/Replies: what the client makes of the reply -1.
-- P1: P1/fs/state.c and P1/fs/operations.c. The constants, and the loops over the entries of a
-- directory, are the same in P1/fs and P2/fs, and are taken from Fs; no other part depends on P1.
--   * P1/State, P1/Block, P1/Inode, P1/Dir, P1/OpenFile, P1/Update: the types and the functions of
--     P1/fs/state.c; P1/Update is inode_update.
--   * P1/Operations: P1/fs/operations.c; P1/Copy: its tfs_copy_to_external_fs.
--   * P1/Files, with its children: writes, reads and copies in the direct and indirect blocks of a file.
--     P1/Naming: the creation of a file. P1/Release: inode_data_free. P1/Bounds: the loops of
--     tfs_write and tfs_read, and the offsets.
--   * P1/Threads: data_block_alloc and data_block_free of P1/fs/state.c in several threads.
--   * P1/Locks, with its children: tfs_write and tfs_read, with inode_update, in several threads.
--
-- How the code is modelled.
--
-- Memory is a function from addresses to bytes. `fs_data` is such a memory, and a dir_entry_t is 44
-- bytes of it: 40 of the name, and an `int` of four bytes, the lowest first; a block holds 23 of them.
-- A copy past the end of `fs_data` is undefined in P1; in P2 it is a copy of what the memory holds
-- there, and Fs/Io/Inside shows where the copies stay inside.
-- A C string is the list of its characters, and reads past its end give the terminator. `size_t` wraps
-- around at 2 ^ 64. An `int` is an integer; the counters are not bounded in the model.
--
-- An operation of the file system is a function of the state, and its result a pair with the new state.
-- `none` as the result of tfs_open is undefined behaviour: the code takes the address behind the first
-- character of a null pointer or of an empty string. The operations run under one mutex, so that each
-- is one step. The functions of pthread are a parameter, the record `Pthread` of their results; what
-- other threads do while tfs_destroy_after_all_closed waits is another, the function `others`, but in
-- Fs/Destroy, where the threads' steps come in any order, the test of the state in tfs_open is a step
-- of its own, and the pthread functions succeed. There, and in
-- Server/Shutdown, pthread_cond_wait may return without a signal, and `AllSignalled` are the runs in
-- which it does not. In P1/Threads the blocks that the callers have are a set, `pool`. The
-- loops over tables are recursions on the number of the entries left, which is the size of the table,
-- so that they see every entry. The static memory is zero before tfs_init, as C has it, but the
-- theorem on tfs_init holds for any contents.
--
-- A thread of the server, and a function of the client, runs on the list of the results that its calls
-- of open, read, write, close, unlink and mkfifo return; the loops that repeat a call after EINTR are
-- recursions on that list. An `Outcome` is a value with the results that are left, or a call that has
-- not returned, or exit, or undefined behaviour: a session id outside of the table, a name without a
-- terminator, a buffer that overflows. One round of the producer and one of a consumer are one step
-- each; `rounds n` is the loop of the producer cut off after n rounds. What malloc returns, and what an
-- uninitialised variable holds, are parameters.
--
-- In P1 a call runs alone, so that its locks have no effect, but for P1/Threads and P1/Locks, where the
-- steps of the threads come in any order. In P1/Threads a step is one access to the mutex or to the
-- table. In P1/Locks it is what a thread does under one lock that it takes and releases again, or what
-- it does without a lock, or one part of inode_update, which holds two locks meanwhile. A call that
-- copies bytes is a `Result`: a value and a state, or undefined behaviour, which is a copy past the
-- end of `fs_data` or through a pointer that is not valid, or `out_of_fuel`. The fuel of the loops of
-- tfs_write and tfs_read is the number of bytes; each round handles one at least. The files outside of
-- the file system, with fopen, fwrite and fclose, are a parameter, the record `Stdio`.
--
-- What is not modelled: insert_delay and touch_all_memory, which only take time; messages on stderr;
-- signal, and the destruction of mutexes at the end of main; interleavings within a round of the
-- server; tfs_open and tfs_close of P1 in several threads; the tests.

pub mod Base
pub mod Calls
pub mod Fs
pub mod P1
pub mod Server
pub mod Client
