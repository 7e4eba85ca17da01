-- ===== src/Lib.antt =====
-- seol: an embeddable key-value store, a log-structured merge tree with a value log.
--
-- The parts of the program and the modules that model them. A write goes to the write-ahead log
-- (wal.go: Wal) and to a memtable; a long value goes to the value log (vlog/vlog.go: Vlog) and the
-- memtable holds a reference to it (value_ref.go: Stored). Full memtables become sorted tables
-- (sstable/sstable.go: Sstable) with a bloom filter each (bloom/bloom.go: Bloom), and tables stand
-- in levels (compaction.go: Compaction) that a lookup goes through from the newest on.
--
-- Base holds what these share: Boolean tests on the native numbers, lists under the library's
-- names, Go's (value, error) pairs as Result, little-endian integers, CRC-32, files as lists of
-- bytes with ReadAt and WriteAt, bytes.Compare and sort.Search. Record is the record format that
-- the value log and the write-ahead log share.
--
-- Bloom: the filter and its operations (AddHash, ContainsHash, Reset, NewSeeded); Codec is
-- MarshalBinary and UnmarshalBinary; Membership and NoFalseNegatives prove what Contains answers.
-- Vlog: the log's state and Append with its rotation (rotateSegmentLocked); Ref is ValueRef, Read
-- is ReadValue and ReadRecord, Scan is scanSegment and Open; Extends, Writes, Promises and Appends
-- prove that what was appended is read, Values that the two ways to read agree, and Recovery what a
-- scan keeps. Stored: encodeValueRef, decodeValueRef, storeValueForLSM and resolveStoredValue;
-- RoundTrip proves what they make of a value. Wal: the log's state, appendBatch, a round of
-- syncLoop, flushAndSyncLocked and close; Replay is replayWAL, and Recovery what it makes of a cut
-- log; Durable, Writes, Batches and Crashes keep an invariant over sequences of actions
-- (Crashes.Action), Grows is what later actions leave, and Survival what a crash leaves. Sstable: data blocks; Blocks and
-- BlockLookup prove what is found in one; Index is dataRange and tableIndex, and Ranges its round
-- trip; Cache is dataBlockCache, Caching its bounds and CacheAnswers its answers; Table is an open
-- table with Get, Scan and the loading of a file, Table.Iterator its iterator, Table.Writing
-- writeDataBlocks, Table.Layout and Table.Written what it writes, and Table.Flushed what Get finds
-- in it; Lookups and Gets prove Get, and Transparent what the cache changes. Compaction: tables' metadata and lookupLevels; Selection is
-- selectL0CompactionSource, and Closure and Apart prove what it chooses; Levels proves findLevelTable; Grouping is
-- groupTableMetaByLevel and buildLevelState, and Newest and Installed prove what a new table in
-- front changes; Merge is compactionMergeIterator, over a record of an iterator's operations,
-- Merged says what a merge is, and FirstWins, MergedLookup and Merging prove that the iterator
-- yields it; Building is compactTables, and Kept, Groups and Built prove what it flushes.
-- Manifest: openManifest and ReplaceTables (manifest.go).
--
-- Memtable is the interface of a memtable, Skiplist the list in its arena that implements it
-- (skiplist/skiplist.go), and Memtable.SortedList a simple list for the examples. Db: the database's
-- state, the state that readers see, and Get (db.go); Db.Writing is processWriteBatch with
-- rotateMemtable, and Db.Flushing a round of flushLoop with installFlushedTable, Db.Collecting
-- collectWriteBatch, and Db.Opening openDB with replayWALs. Db.Views and Db.Represents say which map
-- from keys to values a database shows; Preparing, Rotation, Rounds, Serving, Round and Batches
-- prove what a batch of writes makes of it where a memtable is a lawful map. Histories is such a
-- map, a memtable as it began with the entries put into it since, Simulation proves that the code
-- does with any memtables what it does with their histories, and Written takes both together, so
-- that it is known of the memtables which entries are put into them. SameView and Flushes prove what
-- a flush does, FlushedTables what it does where the tables are those of Sstable, OutOfOrder what a
-- flush does behind a failed one, and Replays and Reopened what a database has that is opened after
-- a crash; Samples is its test data. Gc: rebuildLiveState (gc.go).
-- Vlog.Growth and Stored.Growth prove that a value log that has grown resolves what it resolved
-- before.
--
-- Each part's Examples module runs its results at concrete inputs.
--
-- How state and failure are modelled. A struct is a record, and an operation that changes it
-- returns the new one. A file is the list of its bytes. What the operating system answers (how many
-- bytes a write takes, whether it or a sync succeeds, the clock) is an argument, `Outcome` or
-- `Env`, so that the theorems hold for every answer. An error is a value of Result. Mutexes make
-- operations atomic, so that an interleaving is a sequence of calls. Integers are natural numbers;
-- where Go's type wraps, the remainder is written out, and a slice that would panic in decoding an
-- index is an error.
--
-- Loops are structural recursion or run on fuel: replay, scan and the parsing of a block on one
-- more than the bytes, since each round takes a header at least; the decoding of an index likewise;
-- the reading of a key in chunks on the key's length; sort.Search on the length of the interval;
-- and the choice of tables on one more than the tables, since each pass but the last chooses one;
-- processWriteBatch on the length of the batch, since each round answers a request or is the last;
-- and compactTables on a number of rounds that exceeds that of the entries. That the fuel is enough
-- is part of the theorems, whose right sides are results.
--
-- The skiplist's arena can overrun, so that the theorems on writes, recovery and compaction say which
-- entries are put into the memtables, and leave out a put that panics; of a memtable's Get the one on
-- writes takes only that it finds nothing in a new list, and those on a flush what they say of the
-- one memtable that is flushed. The skiplist's walks run on the number of bytes allocated, which
-- exceeds that of the nodes.
--
-- Not modelled. The hash of the bloom filter is third-party code and a parameter; its hypothesis is
-- that it returns 64-bit words. Floating-point sizes of a filter, file names and directory
-- listings, timers and channels, the JSON of the manifest (manifest.go), the directory lock
-- (dir_lock.go) and the tests are left out, and so are the races of the
-- skiplist's writers (skiplist/skiplist.go), the submission of a request and the closing of the database (db.go), the
-- replacing of files after a compaction (compaction.go) or a collection of the value log (gc.go).
pub mod Base
pub mod Bloom
pub mod Record
pub mod Vlog
pub mod Stored
pub mod Wal
pub mod Sstable
pub mod Compaction
pub mod Memtable
pub mod Skiplist
pub mod Manifest
pub mod Db
pub mod Gc
