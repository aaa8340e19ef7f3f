-- ===== src/Lib.antt =====
-- alloyfs serves directories over a network and mounts, caches or mirrors them on other machines.
-- An agent (crates/alloyfs-agent) owns the exports; it watches each of them, keeps their locks and
-- versions, and answers requests that clients (crates/alloyfs-client) send in frames over one
-- connection (crates/alloyfs-proto). Watched changes pass the coalescer and the excludes
-- (crates/alloyfs-common) before the hub of the export numbers them and hands them to subscribers.
--
-- Files:
--   Base, Base/*: the names of the libraries that are used here, with lists, texts and tables.
--   Proto/Errors: crates/alloyfs-proto/src/error.rs.
--   Proto/Path, Proto/Messages: crates/alloyfs-proto/src/messages.rs. `validate`, `join` and `split`
--     are the methods of `RelPath`; the messages are data types with the source's constructors.
--   Proto/Frame: crates/alloyfs-proto/src/frame.rs. `decode` and `encode` of `FrameCodec` map a buffer
--     to an outcome and a buffer.
--   Common/Exclude: crates/alloyfs-common/src/exclude.rs.
--   Common/Coalesce: crates/alloyfs-common/src/coalesce.rs. `ingest` and `take_batch` are the
--     operations; Net follows one path, Halves a rename that is reported in parts.
--   Agent/Locks: crates/alloyfs-agent/src/locks.rs. `attempt` is one pass of the loop of `lock`.
--   Agent/Hub: `EventHub` of crates/alloyfs-agent/src/watch.rs.
--   Agent/Versions: the version clock of crates/alloyfs-agent/src/ops.rs and `publish_batch` of watch.rs.
--   Client/Reconcile: crates/alloyfs-client/src/sync/reconcile.rs and the entries of sync/manifest.rs.
--   Agent/Symlinks: `symlink_lands_inside` of crates/alloyfs-agent/src/fsutil.rs. Followed is a file
--     system that follows names, Inside what the walk collects, Verdict the answer against both.
--   Client/Manifest: `rename_prefix` of crates/alloyfs-client/src/sync/manifest.rs.
--   Client/Cache: the state of crates/alloyfs-client/src/autocache.rs; whether a copy could be renamed
--     is an argument. Accounts and Calls are about its byte count, Budget about one commit.
--   Client/Inodes: crates/alloyfs-client/src/inode.rs.
--   Client/Errno: crates/alloyfs-client/src/error.rs.
--   Mount/Abi: crates/alloyfs-mount-kernel/src/abi.rs. Words are the integers of either byte order,
--     Requests what the daemon reads, Replies what it writes.
--   Common/Action: a computation over a state that may end with an error code, as `?` makes it.
--   Common/Files: crates/alloyfs-common/src/fs.rs, over a parameter for the file system of the
--     machine. Loops is about the loops over short reads; Sample is a small disk for examples.
--   Agent/Export: `Export` of crates/alloyfs-agent/src/ops.rs, and `resolve_unchecked` of fsutil.rs.
--     Inside is about where paths end up, Listing about what a listing shows.
--   Agent/Session: the sessions of crates/alloyfs-agent/src/ops.rs. Requests and Changes have a
--     definition per request, Handler the gate and the routing, Token the comparison of secrets. Steps
--     and Runs carry a property through the calls and through a sequence of requests; ReadOnly,
--     Unchanged, Handles, Changing and Granted use them; Gate, Conflict, Paging and Release are about
--     single requests and the end of a session.
--   Transport/Handshake: the first two frames of a connection, crates/alloyfs-transport/src/server.rs
--     and mux.rs.
--   Transport/Mux: `MuxConnection` of crates/alloyfs-transport/src/mux.rs. Tidy is its invariant,
--     Teardown about requests at the end of a connection, Pings about pings behind it.
--   Mount/Handles: the handle cache of crates/alloyfs-mount-kernel/src/server.rs, with its eviction.
--   Mount/Readdir: `op_readdir` of crates/alloyfs-mount-kernel/src/server.rs.
--   Client/Remote: crates/alloyfs-client/src/remote_fs.rs. Calls is one request and what stands beside
--     it, Names the operations on names, Links those on links, Files those on handles but for reading,
--     Reads reading, Reconnect a round of the supervisor. Routed follows the paths that are sent
--     through every operation; Calls/Log is about one call, Files/Chunks and Files/Writing about
--     a write, Reads/Fetched and Reads/Exact about a read, Files/Poisoned, Reconnect/Locks and
--     Reconnect/Aliases about handles across a reconnection, Links/Crossing about the boundary of the
--     overlay. Sample is a mount for examples.
--   Client/Effect: a computation over the state of the mount that may end with an error of the client.
--   Client/Local: what the mount asks of its overlay, as an interface. Tree is the overlay behind it.
--   Client/Overlay: crates/alloyfs-client/src/overlay.rs. Handles is about the numbers of its handles.
--   Client/ReadAhead: crates/alloyfs-client/src/readahead.rs. Window is about what is held of a file,
--     Blocks about the bytes that its blocks make up.
--   Client/Symlinks: crates/alloyfs-client/src/symlink.rs.
--
-- Numbers are natural numbers; a counter of 64 bits is kept modulo 2 ^ 64, and a theorem about it
-- says until when it does not wrap; only the use counters of the caches and the tickets of parked
-- calls are taken never to wrap, and the callers of a connection are told apart by their ids
-- until those wrap. The end of a read of the mount and the place of a block are not bounded,
-- where the source computes them in 64 bits. A text is the list of its code points. A map of the
-- source is a table, a list of keys and values without an order of its own, except where the
-- source sorts. Loops run over a list, but for those over short reads and writes and over the
-- chunks of a file, whose fuel is the number of bytes that are asked for, the eviction of
-- handles, whose fuel is the number of entries, and the pages of a listing, whose fuel is an
-- argument, as the server says when it has no more.
--
-- Parameters: the serialisation of postcard and the compression of lz4_flex (Proto/Frame, with their
-- documented laws in Proto/Frame/Roundtrip), the globs of globset (Common/Exclude), the
-- outcome of a rename in the cache directory (Client/Cache), the file system of the server and of the
-- overlay (Common/Files), the upper case of the standard library (Client/Symlinks), the time, and what
-- stands outside a mount (Client/Remote): the answers of the server to what was sent so far, and where
-- a connection is replaced.
--
-- Not modelled: what reads and writes files, sockets and devices, the scheduling of tasks (an
-- operation under a mutex is one step, a request of a session too, and theorems quantify over the
-- order of the steps), the synchronisation engine of the client, its walker, the events that it applies
-- and the making of a mount from its options, the mounts through FUSE and WinFsp, the kernel module,
-- its daemon but for its interface, its handle cache and its paging, the forwarding of events to a
-- subscriber, the request loop of the server, the HTTP interface, and the command line.
pub mod Base
pub mod Proto
pub mod Common
pub mod Transport
pub mod Agent
pub mod Client
pub mod Mount
