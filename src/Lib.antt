-- ===== src/Lib.antt =====
-- marchiq is a message broker in the manner of Kafka: topics are divided into partitions, a partition
-- is an append-only log, a sequence of segment files with a sparse index each, consumer groups commit
-- offsets, and a retention pass deletes old segments. The storage engine is in storage/, and the HTTP
-- server before it in cmd/marchiq/main.go.
--
-- How the parts interact. The server's handlers read a request's parameters, call the broker and
-- choose a status. `Broker` (storage/topic.go) finds the partition for a record and calls
-- `PartitionLog.Append` (storage/partition_log.go), which encodes a frame (storage/record.go) and
-- writes it behind an index entry (storage/index.go). `ReadFrom` seeks by the index and decodes.
-- Opening a partition scans its files anew. A group (storage/group.go) reads from its committed
-- offset on; retention (storage/retention.go) deletes segments below every group's offset. The topics
-- and the groups are kept in two files that are replaced as a whole.
--
-- Files:
--   Base            shared names: tests, lists, signed integers, errors and results
--   BigEndian       the unsigned integers of encoding/binary
--   Maps, Names     Go maps and strings; `TopicConfig` and `Validate` of storage/types.go
--   Sorting, Search `sort.Slice` and `sort.Search`
--   Strconv         `strconv`: decimal numbers as strings
--   Saving          storage/topic.go, storage/group.go: `save`, how a file is replaced
--   Codec           storage/record.go: `encode_record`, `decode_record`
--   Index           storage/index.go: `encode_index_entry`, `lookup_index`
--   Log             storage/types.go: `PartitionLog`, `Segment`
--   Log/View        the abstract view of a partition: the list of its records, and its validity
--   Log/Append      storage/partition_log.go: `append` (`Append`), `roll_locked` (`rollLocked`)
--   Log/Read        storage/partition_log.go: `read_from`, `offsets`, `describe_segments`
--   Log/Open        storage/partition_log.go: `scan_segment`, `open_segment`, `open_partition`
--   Log/Open/Directory  the same from the listing of the directory on: `open_directory`
--   Log/Listing     storage/partition_log.go: `list_segment_bases` and the names of the files
--   Retention       storage/retention.go: `retention_clamps`, `enforce_retention`
--   Retention/Janitor  storage/retention.go: `sweep` (`EnforceRetention`)
--   Broker          storage/topic.go: `produce`, `fetch`, `resolve_partition`, the counters
--   Catalog         storage/topic.go: `create_topic`, `list_topics`, `load_catalog`
--   Groups          storage/group.go: `join_group`, `commit_offset`, `fetch_group`
--   GroupsFile      storage/group.go: `load_groups`, `groups_file` (`saveGroupsLocked`)
--   Lag             storage/group.go: `group_lag`
--   Startup         storage/topic.go: `open_with_config`, `open_topic`
--   Closing         storage/topic.go, storage/partition_log.go: `close`, `close_partition`
--   Http            cmd/marchiq/main.go: requests, answers and the handlers; `handle` (`handler`)
--   Invariant       the states of a broker that requests, retention passes and `Close` lead to
-- Children hold the proofs, and the Tests modules hold runs and examples.
--
-- How the code is translated. State is passed explicitly: an operation maps a state to a result and
-- a new state, and each lock of the source is held for one whole operation. Bytes are natural
-- numbers. What the operating system answers (does a write succeed, how many bytes did it take, when
-- was a file modified) is an argument: `AppendIo`, `OpenIo`, `RetentionIo`, `SaveIo`, `CreateIo`,
-- `CloseIo`, `StartIo`, or, for a join, whether the groups were saved. What the JSON decoder makes of a
-- file or of a request is an argument too. A file is its bytes and how many of them have been synced.
-- The list `segments` of the source is split into the sealed ones and the active one. Offsets and sizes
-- are natural numbers; where the source converts to a fixed width, or an arithmetic operation may wrap
-- around (the frame's length fields, the timestamp, the retention cutoff, the round-robin cursor, the
-- offset behind a commit), the wrap-around is written out. Error values keep their sentinel, not their
-- text. Counters of records and bytes are not wrapped. A committed offset is a natural number, as
-- `CommitOffset` lets no other through. The parameters of a URL are what `q.Get` gives for them.
-- After a crash all that is durable of a file is there, and of the rest some first part. `named` of a
-- segment tells whether its log has a name in the directory that a crash cannot lose: a roll gives it
-- only with the sync of the directory, and a pass that unlinks the log but not the index takes it.
-- `unsynced_deletion` of a partition tells whether deleted files may come back, as the directory was
-- not synced since. Where neither is mentioned, an image of the disk holds all files of the partition.
-- `read_limit` of a segment is where reads of its log meet an I/O error: a valid segment has no such
-- place, and no step gives it one, so a disk that begins to fail between two steps is not modelled.
--
-- Fuel. The scan of a segment has one more unit of fuel than the file has bytes, and each round takes
-- a byte at least. The binary search has as much as there are entries. A number is printed in at most
-- as many rounds as its value. Other loops follow a list, or count down to a bound.
--
-- Not modelled: the demo (cmd/demo), the texts of messages and JSON itself, the matching of URLs, the
-- start and stop of the server, the replacement of the index file, the timer around retention, the
-- crash of a fenced partition, and the interleaving of operations on one partition, which its lock
-- excludes; the file that a join saves, and negative base offsets in names of files.
pub mod Base
pub mod BigEndian
pub mod Maps
pub mod Names
pub mod Strconv
pub mod Sorting
pub mod Search
pub mod Saving
pub mod Codec
pub mod Index
pub mod Log
pub mod Broker
pub mod Retention
pub mod Catalog
pub mod Groups
pub mod GroupsFile
pub mod Lag
pub mod Closing
pub mod Startup
pub mod Http
pub mod Invariant
