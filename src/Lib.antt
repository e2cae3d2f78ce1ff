-- ===== src/Lib.antt =====
-- RedisShake moves data between Redis instances: readers turn an RDB file, an AOF file or a
-- replication stream into entries, filters drop entries, and writers send them on. This library
-- models the parts that decide what data is read and where it goes.
--
-- Each part of backend/internal has a module.
--   Go          what the program uses of Go itself: panics (Go/Outcome), strconv, strings
--   Hash        utils/crc16.go and utils/crc64.go: `Crc16`, `digest`, `CalcCRC64`
--   Commands    commands: the table (Commands/Table), `CalcKeys` (Commands/Keys), `CalcSlots` and
--               `keyHash` (Commands/Slots)
--   Structure   rdb/structure: the readers of bytes, integers, lengths, strings (Structure/Text and
--               Structure/Lzf), intsets, listpacks, ziplists, module values and floats
--   Rdb         rdb/types: the objects of each type as the commands that build them (Rdb/Collections,
--               Rdb/Hashes, Rdb/StreamEntries and Rdb/Streams, Rdb/Tair, Rdb/Bloom, and `ParseObject` in
--               Rdb/Object); rdb/rdb.go: `createValueDump` and the entries of an object (Rdb/Restore),
--               `ParseRDB` and its loop (Rdb/Loader)
--   Entry       entry/entry.go: `Entry`, `NewEntry`, `Parse`
--   Filter      filter/filter.go and filter/filter_keys_pattern.go: `Filter`, with the package
--               regexp of Go as a parameter, the record `Engine`
--   Cluster     writer/redis_cluster_writer.go: `loadClusterNodes` and `Write`
--   Resp        client/proto/writer.go, for strings, and `Serialize` of entry/entry.go
--   Relay       cmd/redis-shake/main.go: the loop from a reader through Parse, Filter and the Lua
--               function (Filter/Function) to the cluster writer
--   Aof         aof/aof.go: the loop of `LoadSingleAppendOnlyFile`
--   UniqueQueue utils/UniqueQueue.go: its methods and its goroutine, as steps
--   ControlPlane controlplane/store/repositories.go and controlplane/domain/models.go: the tables
--               of tasks and runs (Domain, Store, Calls), any sequence of calls as steps (Changes),
--               and the part of controlplane/engine/manager.go that writes them (Engine), with
--               the processes that it manages (Engine/Owned)
--   Prelude     the lists, integers and tests that the parts share
--
-- A Go function that can panic returns an `Outcome`: a value, a panic, or `diverges`. A panic is
-- `logged`, by `log.Panicf`, or `out_of_range`, by the runtime. A string is the list of its bytes,
-- and an `io.Reader` is the list of the bytes still to come, which a `Reader` takes and leaves. An
-- `int` that the code computes from a length is an integer without bounds; a length that is read
-- from a file keeps its 64 bits, and is out of range where Go's conversion to `int` makes it
-- negative.
--
-- A loop over a slice is a recursion on the list. The other loops are given fuel: those of
-- `CalcKeys`, the number of arguments and two; the outer loop of `lzfDecompress`, the number of
-- input bytes and one; the loop of `ReadZipList` over a list of unknown length, the number of bytes
-- to come and one; and the loop of the AOF loader, the length of the file and one. Each round of
-- the last three takes at least one byte. The loops of the RDB loader over the records of the file
-- and over the values of a module's auxiliary field are given the number of bytes to come and one,
-- the loop over the entries of a stream the number of elements and one, and the loop over the
-- chunks of a Bloom filter the number of its bytes and one.
--
-- What Redis writes stands beside the readers as a specification: `save_length`, `save_raw`,
-- `save_int`, `save_compressed`, `save_intset`, `save_listpack` and `save_ziplist` give the bytes of
-- each format. A string is stored raw, as an integer of up to 32 bits or as LZF tokens (`Saved`), and
-- so are the packed blobs, the names of keys, the fields of the file and the functions.
--
-- A whole database stands in Rdb/Dump: its keys with their values and expiries, the records that
-- Redis writes for it, and the entries that the loader has to send. The values stand in
-- Rdb/Values, in the encodings that the code reads: it panics at a zipmap, type 9. A floating point
-- number is the pattern of its 64 bits; how it is read and printed in decimal is the record
-- `FloatText`, a parameter. The times of the clock and the moments at which the context is cancelled are the record `Rounds`. The commands of an object come from a
-- goroutine through a channel that the loader empties first, so they are a list. What was sent before
-- a panic is not kept: a panic ends the program.
--
-- An entry that a reader gives is taken apart by `Parse`, which calls `CalcKeys` and `CalcSlots`;
-- `Filter` keeps or drops it; the Lua function makes entries of it; the cluster writer
-- sends it to the node of its slot. What `once.Do`
-- has compiled is the state `Patterns` that `filter` takes and returns. A writer of a node is its
-- number, and what it was given stands in a log, `Sent`.
--
-- A line of an AOF file is read whole: a line longer than the buffer of Go's reader, 4096 bytes,
-- is outside of the model. `TrimSpace` and `ToUpper` are modelled on ASCII.
--
-- The entries of several readers, which main.go takes from one goroutine for each, stand as one
-- sequence in the order in which they come; the PING that its ticker writes to keep a connection is
-- left out. Memory is not bounded: a length from 2 ^ 47 or so on, for which `make` panics in aof.go,
-- gives the result of a file that is too short.
--
-- Every call of the store that writes tasks or runs is a `Call`. `CreateRun`, which inserts a run with
-- no check and which only tests call, is one too, and `is_checked` tells it from the others.
--
-- Not modelled: the interpreter of Lua, network and file I/O, goroutines other
-- than that of the queue and of the worker processes, the services and the HTTP side of the control
-- plane, and the configuration. The database is taken to answer: a SELECT or an UPDATE is a function on
-- the rows, and failures of SQLite itself are left out.
pub mod Prelude
pub mod Go
pub mod Hash
pub mod Commands
pub mod Structure
pub mod Aof
pub mod Cluster
pub mod ControlPlane
pub mod Entry
pub mod Filter
pub mod Rdb
pub mod Relay
pub mod Resp
pub mod UniqueQueue
