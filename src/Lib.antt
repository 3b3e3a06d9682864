-- ===== src/Lib.antt =====
-- linglongta: a data node that stores objects in files of fixed-size blocks and serves them over the memcached
-- text protocol.
--
-- How the parts work together: the assign thread (Connection) reads a request from a socket, has the
-- parser (Protocol) take its head apart, and hands the whole request to a worker thread. The worker
-- calls the store (Storage), which keeps the objects, takes the index lock (Rwlock) around its calls of
-- Berkeley DB, and hands each change of the index to the index log (IndexLog), from which the journal can
-- be replayed. The worker (Worker) builds the answer from what the store returns, sends it to the client and
-- closes the connection. Node has the two threads together, from the accept to the end of a connection.
--
-- The parts of the program and where they are modelled:
-- - `src/storage.c`, `include/storage.h` (Storage): objects of up to 4 MB are kept in block files, one for each
--   block size; an index in Berkeley DB maps a 16-byte key to the block file, the offset and the size
--   of its object. `Storage` is the state: the table of sizes, the block files in memory, the data
--   files on disk, the index, the items handed to the index log and the index lock.
--   Storage/Sizes: `init_storage`, `calc_block_size`, `find_block_file`.
--   Storage/Files: the reads and writes of a data file, and the taking and giving back of a block.
--   Storage/Blocks: `append_block`, `modify_block`, `do_delete_block`.
--   Storage/Ops: `update_block`, `find_block`, `delete_block`.
--   Storage/Lifecycle: Open has `load_data_file`, `create_data_file`, `open_data_files` and `open_storage`, Close
--   `close_storage` and `sync_storage`, Bdb `open_index_file` with `open_transaction_bdb` and `close_bdb` of
--   `src/bdblib.c`; Trace has a store under any calls, closed and opened in between.
-- - `src/bdblib.c` (Storage/Blocks): `insert_record`, `find_record`, `del_record` on a Berkeley DB handle.
-- - `src/rwlock.c`, `include/rwlock.h` (Rwlock): the counters of the read-write lock; in Rwlock/Threads any number of
--   threads that call it, as a step relation. The store's calls take the index lock of this type; a
--   call that would wait for good ends as `blocked`, and one that frees a pointer which nothing has set (where
--   `find_record` has no memory for its value) as `undefined`.
-- - `src/indexlog.c`, `include/indexlog.h`, `tools/replay_journal.c` (IndexLog): Encoding has the bytes of an item, Writer
--   `index_logger_append`, `index_logger_flush` and `index_logger_close` with their two buffers, Reader
--   `index_logger_fetch` and the loop of the tool that replays a log.
-- - `src/memcached_protocol.c`, `include/memcached_protocol.h` (Protocol): CString has the C library's strings as the
--   parser uses them, Commands the parsers of the single commands, Head `parse_memcached_string_head`.
-- - `src/assign_thread.c`, `include/query_thread.h` (Connection): Task has `query_task_t` and `change_query_task_state`,
--   Receive `recv_req_head`, `parse_query_request_head` and the rounds of `recv_req_data`, Handler
--   `query_io_event_handler` and `do_accept_connection`, Turns `dispatch_query_task`, Listen `init_listen_socket` and
--   `accept_connection`, Destroy `destroy_query_task` and `query_timer_event_handler`. HeadLine, SetHead and KeyHead have
--   a head that comes whole, Safe any reads at all.
-- - `src/query_thread.c`, `src/iolayer.c`, `src/utils.c` (Worker): Reply has `handle_request` and `build_response`, Decimal the
--   numbers that it prints, Send `send_response` with `net_write`, `net_writev` and `set_block`, Pipe
--   `pipe_event_handler`. `Socket` is a client's socket with the bytes that the kernel has taken from it.
-- - `src/datanode.c` (Node): a task from the assign thread at a worker, and what its client has got in the end.
-- - `src/slab.c`, `include/slab.h` (Slab): Classes has the table of sizes that `slab_init` sets up and the two
--   forms of `slab_clsid`, Alloc `_slab_alloc` and the pages it cuts up, Release `_slab_free` and `_slab_realloc`,
--   Steps and Trace any sequence of these calls. The other parts do not call it: to them an allocation is an answer.
--
-- What is a parameter: Berkeley DB (`BdbOps`, with its documented behaviour as `BdbLaws`), the checksum
-- `crc32_calc`, and the answers of the allocator and of the kernel. In the store these are `Env`: an
-- allocation can fail, and a write can be short or lost; `Works` says that none of that happens. While it opens
-- and closes they are `OpenAnswers` and `CloseAnswers`; `OpenWorks`, `CreateWorks` and `CloseWorks` say that all
-- is done. That the index comes back as it was is a hypothesis on Berkeley DB. In
-- the index log `written` gives how many bytes a write takes; for a connection a list of `NetRead`
-- says what each `net_read` gives, and `can_alloc` where there is memory; for an answer `Kernel` says what each
-- write takes, and `IsPosix` what POSIX says of that. In the slab allocator `grow` is
-- the product with the growth factor, a `double`, and `Memory` has the answers of the C library; `IsFresh` says
-- that what it gives overlaps no block that is there.
--
-- The loops of `init_storage` and `calc_block_size` run on the entries that the array of 20 sizes has left,
-- and that of `find_block_file` on the count of block types, so that each ends where the C loop ends.
-- The loop of `parse_set_cmd` has six rounds, and that of `parse_memcached_string_head` three: each round
-- goes to a later state of a fixed order. `digits` has the 20 digits of a `size_t`. The loop of `slab_clsid`
-- is recursion on `Acc`, by the width of the range. The loops of `query_io_event_handler` and of the replay
-- take a number of rounds, and the theorems on them say how many are enough.
--
-- The views: `IsStore` is the invariant of the store, `IsBlockFile` that of one block file. `Holds` is the
-- abstract view, a map from keys to data. For the index log the abstract view is the sequence of
-- items (`IsLog`), for the lock the number of threads in each phase (`Agrees`), for the parser the words
-- of a line, and for the slab allocator the list of blocks in use or free (`owned`).
--
-- Not modelled: `fsync`, log messages and times; the lock of each block file, which its function takes and
-- releases around its own accesses; `sync_bdb`; what is in
-- an allocated block, the debug build of the slab allocator and its spin locks; the master node, which is
-- unfinished; the hash functions and the checksum, which are copies of published ones; the start of the process
-- with its settings; what libev does between two events, and the memory of error logs, which is taken to be had.
-- What a worker reads from its pipe is the task that was written there.
pub mod Prelude
pub mod Rwlock
pub mod Storage
pub mod IndexLog
pub mod Protocol
pub mod Connection
pub mod Worker
pub mod Node
pub mod Slab
