-- ===== src/Lib.antt =====
-- firEtcd: a replicated key-value store in Go. Each server runs a Raft peer (raft/raft.go) that
-- persists its state in a write-ahead log (pkg/wal/wal.go) and hands committed operations to the
-- key-value server (kvraft/server.go) over a channel.
--
-- Prelude       Boolean tests, lists over the native numbers, and the integers of the program.
-- Raft.State    the struct Raft of raft/raft.go with its log, persistState, persistEntry, and the
--               directory of the write-ahead log as records (Write and Truncate of pkg/wal/wal.go).
-- Raft.Recovery Make and loadFromWAL: what a restart finds.
-- Raft.Vote     the RequestVote handler.
-- Raft.Append   the AppendEntries handler, CopyEntries and undateLastApplied.
-- Raft.Commit   updateCommitIndex.
-- Raft.Leader   Start, SendAppendEntriesToPeerId and sendInstallSnapshotToPeerId, each cut in the
--               call that it makes and the handling of the answer.
-- Raft.Snapshot Snapshot and the SnapshotInstall handler.
-- Raft.Election a turn of electionLoop: the tick, the count of the votes, and the end.
-- Raft.Ballots  the calls of one peer as a step relation, with the votes that it gives.
-- Raft.Examples a peer and the runs of the results on it.
-- Lease         the lease manager (pkg/lease/manager.go): Lease.Laws what its calls keep, Lease.Expiry
--               which leases are expired, Lease.Keys the keys of a lease, Lease.Loop the steps of
--               its goroutine `run` and of the others on its channel, Lease.Blocked what they end in.
-- Lease.Service the lease service (kvraft/lease_service.go).
-- Store         the database interface DB of common/common.go.
-- Store.Bolt    the database on bbolt (pkg/bboltdb/bboltdb.go), with bbolt's bucket as the interface
--               Bucket. Prefix and Pages are about its cursors, Laws fills the interface Db, and
--               Store.Memory is a bucket in memory.
-- Kv            the state of the key-value server (kvraft/server.go) and its operations.
-- Kv.Apply      HandleApplychCommand.
-- Kv.Spec       the server as a map with the last request of each client; Refines relates it to
--               the server, and Kv.Once is about repeated requests.
-- Kv.Loop       HandleApplych, checkifNeedSnapshot, HandleApplychSnapshot and readPersist.
-- Kv.Revoke     proposeLeaseRevoke, which calls Start of Raft.Leader and the lease manager.
-- Kv.Watch      the WatcherManager.
-- Kv.Requests   PutAppend, cut at its wait, and what it answers.
-- Kv.Reads      the handler Get, on the peer and the database.
-- Kv.Stream     the handler Watch, on the WatcherManager and the database.
-- Client        the loop of write in client/client.go, which asks the servers in turn.
-- Client.Read   the loop of read, with Get and GetWithPrefix. Bounds is about the indices of both
--               loops, Offsets about the offset of the client, and Refused puts read on Kv.Reads.
-- Client.Lock   CAS, Lock, LockWithKeepAlive and Unlock, on the calls of the lease service; Steps runs
--               them on the server of Kv.Apply. Client.Decimal is the base 10 of strconv for them.
-- Client.Pipe   the pipes of client/pipe.go, whose operations reach the server in one batch. Leases is
--               about the leases that BatchWrite asks for.
-- Client.Watching the loop of manageWatchStream, which keeps a watch alive.
-- Naming        the nodes of client/naming.go, on the interface KVStore of client/interface.go. Calls
--               writes down the calls on a store, Registered is about those of Register and Deregister.
-- Naming.Services ServiceRegistryV3, ServiceDiscoveryV3 and LoadBalancer of
--               client/service_discovery.go.
-- Gateway       the HTTP handlers of gateway/handlers.go, with gateway/tool.go. Watching is the
--               stream of watch, Routes the routes of gateway/gateway.go, Status is about the answers.
-- Gateway.Discovery the handlers of gateway/service_discovery.go, which call Naming.Services.
-- Wal           the bytes of a log file (Write and ReadAll of pkg/wal/wal.go): RoundTrip reads what
--               was written, Ends is about files of any bytes.
-- Wal.Directory the directory of these files, with Open, Truncate, Close and Size. Raft.State has its
--               own view of it, with one file and decoded records.
-- The modules called Examples hold the runs of the results.
--
-- A handler is a function from the peer and its arguments to the peer and the reply. It holds the
-- lock of the peer from its start to its end, or is cut where it releases the lock. `none` is a run
-- that does not return: a panic on an index out of range, or a send on a nil channel. Go's int and
-- int64 are integers without bound, as terms and indices stay far below 2 ^ 63. A time is a number
-- of milliseconds that the caller gives. The channel applyChTerm is the list of what was sent on it;
-- its buffer of 1000 and the goroutine that empties it are left out. Records of the write-ahead log
-- are decoded values, and so are the commands that reach the key-value server; the operations inside a
-- batch and the bytes of a snapshot are decoded by functions that Kv takes as parameters. For Kv and Store
-- `none` is also an exit of the process in Fatalf, or an error that the code returns.
--
-- bbolt is a parameter: Store.Bolt.Bucket states what its documentation says of Get, Put, Delete and of
-- a cursor's order. hash/crc32 is a function with values below 2 ^ 32. The times of the lease manager
-- are nanoseconds. The encodings of encoding/json and encoding/gob are functions from a value to its
-- bytes and back, which may fail. KVStore is an interface of the repository; Naming takes it as a
-- record of operations without laws, and so do the gateway's handlers with the client. The calls of the
-- file system succeed, but for an Open where there is no directory or where one has the name of the
-- file. The answer of a server to a call of the client is a parameter of the loops; Client.Lock.Steps
-- and Client.Refused fill it with the handlers of the server.
--
-- The loop of undateLastApplied runs on the number of entries between the applied and the committed
-- index, and the two searches for the first entry of a term run on the number of entries above the
-- snapshot. Both loops move by one index in each round. The loop of ReadAll runs on the length of the
-- file: each round takes a header of nine bytes. The loop of the client has the number of turns that the
-- code gives it, six for each server. A watch has no last turn: its loop is a function of the list of
-- its turns.
--
-- Not modelled: the connections of raft/grpc.go and kvraft/grpc.go, TLS and the logger, which only do
-- input and output; the configuration (pkg/firconfig), which is read by a YAML library; the entry
-- points and the demo; the messages and mocks that protoc and mockgen write; raft/wal.go and
-- raft/persister.go, which no code of the repository calls; the scheduling of goroutines and the
-- cancellation by a context. Of the client AutoKeepAlive is left out, and of the gateway
-- the set-up of its server.
mod Prelude
pub mod Raft
pub mod Lease
pub mod Store
pub mod Kv
pub mod Wal
pub mod Naming
pub mod Gateway
pub mod Client
