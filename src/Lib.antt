-- ===== src/Lib.antt =====
-- tinyredis: a Redis-compatible in-memory database in Go. A client's bytes go through the stream
-- parser of pkg/RESP, the command that comes out is run by a function of pkg/memdb on the database,
-- and its reply is written back as bytes.
--
-- Files, with the code that they are about:
-- - Prelude: names that all files share. Int has 64-bit integers as integers with `wrap64`; Text has
--   bytes, and texts of the source as bytes; Assoc has association lists.
-- - Decimal: `ParseInt` and `FormatInt` of Go's strconv, in base 10 and for 64 bits.
-- - Resp: the reply types of pkg/RESP with `ToBytes`, `ByteData` and `ToCommand`. Resp.Parse is
--   `parse` of pkg/RESP/parsestream.go; a reader is the list of the bytes that will arrive, the
--   channel is the list of what is sent, and a panic is an outcome. Every round but a last one
--   consumes a byte, so the length of the input and one more is fuel enough for the loop.
-- - Hash: `HashKey` of pkg/util/util.go, over the murmur3 sum as a parameter.
-- - ConMap: `ConcurrentMap` of pkg/memdb/concurrentmap.go. ConMap.Chain is `linkedList`,
--   ConMap.Tree what `treeWrapper` uses of the third-party red-black tree, as a record of operations
--   and their documented laws, with an instance; ConMap.Shard is what one shard does. Keyspace is the
--   interface that the commands use of it, and Keyspace.Sharded fills it.
-- - Ttl: `TTLManager` of pkg/memdb/db.go, with `TTLHeap` and Go's container/heap in Ttl.Heap. A pointer
--   to an item is the key of the item. The heap functions run on the length of the heap as fuel: a
--   sift moves along one path of the heap. Ttl.Index is about the index that an item keeps of its
--   place in the heap. Expiry is the interface that the commands use of it, and
--   Expiry.Managed fills it.
-- - DoubleList: `List` of pkg/memdb/list_struct.go, as the sequence of the values with the counter.
-- - Value: what a key holds. MemDb: `MemDb` of pkg/memdb/db.go over the two interfaces. MemDb.View
--   says what a client can see at a time (`live`): a key that has expired shows nothing, whether its
--   entry has been taken away yet or not. The laws of the commands are about this view.
-- - Strings: pkg/memdb/string.go. Keys: pkg/memdb/keys.go. A command is a function from the database,
--   the clock, its name and its words to the database and the reply. Strings.SetWords is SET by the
--   options that its words spell.
-- - Command: the frame of the commands on one key, which check the expiration time, look the value up
--   and put it back. Lists: pkg/memdb/list.go, with LMOVE in Lists.Move and LPOS in Lists.Position.
--   Sets: pkg/memdb/set_struct.go, with the commands of set.go in Sets.Commands and Sets.Algebra.
--   Hashes: pkg/memdb/hash_struct.go, with hash.go in Hashes.Commands. The order in which Go visits a
--   map is a parameter of the commands that show it.
-- - Glob: `PatternMatch` of pkg/util/util.go, by recursion on the pattern, with its index panics as an
--   outcome; Keys.Pattern is KEYS.
-- - Locks: pkg/memdb/dblock.go, and the commands that take locks as processes: Locks.Laws is about the
--   order of the positions, Locks.Progress about the waiting.
-- - Dispatch: pkg/memdb/command.go and `ExecCommand` of db.go. Dispatch.Safety goes through the
--   commands of the table.
-- - Server: pkg/server/write.go and handler.go, over the interface of a node; Server.Local is
--   local_node.go, and Server.Pipeline joins the handler with the parser; Server.Session
--   follows two commands from the client's bytes to the replies. A reply that a connection
--   does not take is a parameter.
-- - Examples: the theorems at concrete inputs, over the table and the manager of the source.
--
-- A command reads the clock once, and holds the locks of its keys while it works, so that commands
-- on one key are steps one after the other; the pools of nodes and items have no counterpart, and the
-- locks stand in Locks alone. A well-formed table or manager has shards whose keys are distinct, with
-- right sizes, and a mask that is one less than the number of shards; a well-formed shard of the manager
-- has every key in the heap at the index of its item. A null that a client sends as a word of a command
-- is an empty word, and memory is taken to suffice for the length in the header of an array. A command that panics leaves the
-- locks that it does not release by `defer`; what waits for those is not modelled.
--
-- Not modelled: sorted sets (floating-point scores and a skip list), INCRBYFLOAT and
-- HINCRBYFLOAT (floating point), SRANDMEMBER and HRANDFIELD (random numbers), INFO, the goroutine that
-- cleans up expired keys; the accept loop of the server and its shutdown, the cluster and the proxy
-- (sockets and the Raft library); configuration, logging and the command line.
pub mod Prelude
pub mod Decimal
pub mod Resp
pub mod Hash
pub mod ConMap
pub mod Ttl
pub mod Expiry
pub mod Keyspace
pub mod DoubleList
pub mod Value
pub mod MemDb
pub mod Strings
pub mod Keys
pub mod Examples
pub mod Command
pub mod Lists
pub mod Sets
pub mod Hashes
pub mod Dispatch
pub mod Server
pub mod Locks
pub mod Glob
