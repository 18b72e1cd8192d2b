-- ===== src/Lib.antt =====
-- Verification of parallax-kv, a replicated key-value store over Raft.
--
-- The program: clients send commands to the server of a node. The server proposes them to its Raft
-- core (raft/), makes the core's batches durable in a log storage (storage/), sends the core's
-- messages to the other nodes, and applies the committed commands to the key-value store (kv/),
-- which keeps a session per client so that a retry is applied once. The simulator (sim/) runs the
-- core deterministically and checks client histories against a sequential model (sim/lin/).
--
-- Files, by the part of the repository that they model:
--   Base, Base/*           what the parts share: Boolean tests, lists, words, big-endian bytes,
--                          maps, panics, and rules for computations that may panic; CRC-32C and
--                          padded decimal numbers
--   Kv/Codec, Kv/Command   kv/codec.go and kv/command.go
--   Kv/StateMachine        kv/kv.go: Apply, execute, the operations; its child Snapshot has
--                          Snapshot and Restore
--   Sim/Lin                sim/lin/lin.go: stepKV as step_kv, applyOp as apply_op; Lin/History
--                          has Partition and the replay of one key
--   Raft/Types, Raft/LogStorage, Raft/Config, Raft/Progress, Raft/ReadOnly
--                          raft/types.go, storage.go, config.go, progress.go, readonly.go
--   Raft/Unstable, Raft/Log
--                          raft/log.go: the unstable tail, and raftLog
--   Raft/Core, Raft/Reads, Raft/Replication, Raft/Election, Raft/Handlers, Raft/Step
--                          raft/raft.go, step.go, replication.go, handlers.go; Step/Roles has the
--                          dispatch by role
--   Raft/Node              raft/node.go, and newRaft of raft/raft.go
--   Raft/Keeps             the rules that carry a relation through an action
--   Raft/Safety/*          what holds of term, vote and commit index over steps and runs, in
--                          which the driver may write the store between any two calls
--   Storage/Mem            storage/mem/mem.go
--   Storage/Disk           storage/disk/disk.go, the state of the store
--   Storage/Disk/Os        the calls of package os, on one directory of files
--   Storage/Disk/Framing, Storage/Disk/Records, Storage/Disk/Segments, Storage/Disk/Wal
--                          framing.go and wal.go: frames and encodings, applyRecord, the segment
--                          files with Sync, and Open with the replay. Records/Redo reads the log
--                          as a list of records, Records/Rebase replays it from a snapshot;
--                          Os/Synced, Os/Named, Segments/Flushed and the two Named below Segments
--                          and Snapshots follow what an fsync of a file or of the directory covers.
--   Storage/Disk/Log       disk.go: AppendEntries, SetHardState and the answers to the core;
--                          Log/Mirror compares them with Storage/Mem
--   Storage/Disk/Snapshots snapshot.go: snapshot files, ApplySnapshot, loadLatestSnapshot
--   Storage/Disk/Recovery  the invariant that ties the store to its files, Open, Sync, a crash,
--                          and the runs that these make
--   Server                 server/server.go and server/drive.go: the state that the drive loop owns
--   Server/Waiters         applyEntry, the reads, and checkLeadership
--   Server/Start           server/server.go: New, with withDefaults; Server/Restart has what it
--                          recovers behind a crash
--   Server/Persist, Server/Drive
--                          drain and driveLoop: the writes of a batch, and the events with all else;
--                          Server/Answers, AnsweredOnce, Durable, Sent, Replica, Total and Waiting
--                          prove what holds of them, over Storage/Disk, Raft/Node and
--                          Kv/StateMachine
--   Tests, */Tests         runs at concrete inputs
-- Names are those of the source in snake_case; a method's receiver is the first argument, and the new
-- receiver is returned beside the result.
--
-- How the code is read:
--   - a number is a natural number. uint64 arithmetic that may wrap is written out by add64 and
--     sub64 of Base/Words; tick counts and limits, which are int in the source, are natural numbers.
--   - a []byte is an option of a list of bytes where nil and empty differ, a list where they do not.
--     Slices are values, so cloning a slice is the identity.
--   - a map is an association list that holds a key once (Base/GoMap); a range loop meets the
--     entries in the list's order. Where the source sorts the keys first, so does the model.
--   - a panic is `none`. A result with an error is an Outcome, or an option of the error.
--   - an operation of the core is an Action: the state of the node to a result and the new state, or
--     a panic. A loop over the peers is `for_each`, with the loop's body as a definition of its own.
--   - the core reads its storage and never writes it, so LogStorage is the record of the answers.
--   - cfg.Rand is the stream of the numbers that it will draw; the node counts its draws.
--   - solicitVotes calls itself once, for MsgVote after MsgPreVote, which solicit_with unrolls.
--   - the decoder is the input that it has not read yet.
--   - a method of the store on disk takes the store and the directory, and gives back its result or
--     error with what it has changed in either case. A directory maps file names to contents, and a
--     file knows how many of its bytes an fsync covers. Any call of the operating system may fail,
--     by a list of faults that the environment chooses; a failed write has written some bytes. A
--     crash of the machine keeps all bytes that an fsync of their file covers, and any number of the
--     first bytes of the write that was under way. The directory lists the names that were made,
--     moved or removed since its last fsync: such a name may be lost in a crash, so a crash is
--     stated only where there are none. An operation that works has left none (calm).
--   - the runs of the store (Storage/Disk/Recovery/Runs) have no snapshots, no DisableSync and no
--     failing calls; what failing calls leave, and what a snapshot leaves, is proved of one operation
--     at a time.
--   - a slice has its length as its capacity, so reslicing it beyond its length is a panic.
--   - names of files are byte strings, so the order of the segments is the order of their names.
--   - the drive loop takes one event at a time, as its select does, so it is a list of events. The
--     loop of drain is a relation: a batch may leave work for a next one. The transport is the list
--     of the batches that Send was called with, a response channel is a number, and the answers are
--     the sends to channels in their order. The node reads from the store as each batch left it.
-- Fuel is needed in one place: the loop of replaySegment walks over the frames of a segment, and
-- gets the number of its bytes. Every round consumes bytes, so that is enough. All other loops are
-- structural on a list or on the index that they walk down.
-- The decoder of a snapshot counts down the number of entries that the snapshot states, which is
-- checked against the bytes that are left.
--
-- Not modelled: the server's Run and shutdown, its service, the client, the transport,
-- the simulator's event loop, network, scenarios and traces, the commands, and generated code. They
-- do I/O or run goroutines. The Porcupine checker is a third-party package; only the model that it
-- is given is here.
pub mod Base
pub mod Kv
pub mod Sim
pub mod Raft
pub mod Storage
pub mod Server
mod Tests
