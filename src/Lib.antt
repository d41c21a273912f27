-- ===== src/Lib.antt =====
-- MilevaDB's storage layer: the mock storage engine that the database's tests and tools run against,
-- causetstore/mockstore/mockeinsteindb, with its multi-version store and its cluster of regions, and
-- the keys, handles and iterators of solomonkey that the database reads it through; and, of petri, the
-- validator that decides whether a transaction may commit after the schema has changed; and the
-- arena in which the in-memory buffer of a transaction's writes allocates.
--
-- The cluster divides the key space into regions, which lie on peers and stores, and can be split,
-- also evenly by the pairs that a scan of the store finds, and merged. A transaction of the database
-- reads a snapshot of the store through a union iterator, which lays the transaction's own writes
-- over it.
--
-- The store keeps, for each key, at most one lock and a sequence of versions. A transaction locks
-- its keys (Prewrite, PessimisticLock), then replaces the locks by versions (Commit) or by rollback
-- records (Rollback); readers and other transactions that meet a lock ask about its transaction
-- (CheckTxnStatus, Cleanup) or resolve it (ResolveLock). All of it is encoded in one ordered
-- key-value database: a key's lock stands under the maximal timestamp, then its versions, the latest
-- first.
--
-- Prelude, Bytes        natural numbers, lists and byte strings, shared by all modules
-- Mvcc/Types            the data of mvcc.go and the errors of errors.go
-- Mvcc/Marshal          MarshalBinary, UnmarshalBinary and marshalHelper of mvcc.go
-- Mvcc/Env              what the store is built on and this repository does not hold
-- Mvcc/Lock             mvsr-oocEncode, mvsr-oocDecode, lockErr and check
-- Mvcc/Iter             newIterator, lockDecoder, valueDecoder and skiFIDelecoder
-- Mvcc/Reads            Get, getValue, BatchGet, newScanIterator, and mvsr-oocEntry.Get of mvcc.go
-- Mvcc/Commit           Commit, Rollback, getTxnCommitInfo and their helpers
-- Mvcc/Status           Cleanup, CheckTxnStatus and TxnHeartBeat
-- Mvcc/Conflict         checkConflictValue
-- Mvcc/Prewrite         Prewrite and prewriteMutation
-- Mvcc/Errors           the ending that Prewrite and the pessimistic operations share
-- Mvcc/Pessimistic      PessimisticLock and PessimisticRollback, convertToKeyErrors of rpc.go
-- Mvcc/Ranges           ScanLock, ResolveLock, BatchResolveLock and GC
-- Mvcc/Raw              RawPut, RawGet, RawDelete, RawScan, their batches and DeleteRange
-- Mvcc/Scan             Scan, and regionContains and MvccKey of mvcc.go
-- Mvcc/Debug            MvccGetByKey and MvccGetByStartTS
-- Mvcc/Rows             the abstract view: a list of rows, each a key with its lock or a version, and
--                       what it means for a database to hold them
-- Mvcc/Invariant        what the writing operations do to a well-formed database
-- Mvcc/Txn              each operation as a function of the view, and what follows for transactions
-- Mvcc/Reach            sequences of operations, all that write but the raw puts
-- Maps                  Go maps as association lists
-- Cluster/Region        the regions and peers at the end of cluster.go
-- Cluster/Stores        the cluster's state, ids, stores and delays
-- Cluster/Regions       lookups, peers, splits and merges, and cluster_manipulate.go; below it that they
--                       keep a partition of the key space
-- Cluster/SplitRange    splitRange and what it calls; below it what each part does to the partition
-- Solomonkey/Key        Key and KeyRange of solomonkey/key.go, with the order of keys
-- Solomonkey/Handle     the handles and the HandleMap of that file
-- Solomonkey/UnionIter  solomonkey/union_iter.go
-- Petri/SchemaValidator petri/schema_validator.go; below it the bounds of its queue, and the histories of
--                       schema changes against which a check is judged
-- Petri/SchemaChecker   petri/schema_checker.go
-- Arena                 memdbMemCam of causetstore/memdb_arena.go, below it where it allocates
-- Mvcc/Sample, Tests    a concrete environment, and the theorems applied in it
--
-- The files of Mvcc/ without another path model mvcc_leveldb.go of that directory. A function of the
-- source is the definition with its name in snake case; one with several branches has a definition
-- for each part, all mapped to the function. MVCCLevelDB is the record Store: the database and the
-- deadlock detector. An operation takes the store to its answer and the next store; each holds the
-- mutex `mu`, so operations do not overlap. A Go error is a value of Error, its message not kept.
--
-- The record Env holds the parameters: goleveldb (new_iterator, write), the key codec, the numbers of
-- protobuf's operations, the physical part of a timestamp, the hash of a key and the deadlock
-- detector. An iterator is the list of pairs that are left and the error that ends it. IsLawful says
-- what the proofs use of them: a written batch is applied in order and read back in key order, and
-- the codec is invertible and keeps the order of keys and, reversed, of timestamps.
--
-- Integers of 64 bits are natural numbers below 2 ^ 64, with the remainder written out where the
-- source can wrap. put_uvarint and read_uvarint_loop stop after the ten bytes of
-- binary.MaxVarintLen64. The loops over keys of Scan, ScanLock, ResolveLock, BatchResolveLock and GC run
-- on fuel and answer none where it runs out. They get two units more than the iterator has pairs: a
-- round for a start key that is not there, then each round drops a pair.
--
-- The cluster is a record of maps, and an operation takes it to the next one; a `none` is a panic. The
-- regions of the map are written through their ids, under which they stand. The scan of the store is
-- an argument of splitRange. The iterators below a union iterator are given by the pairs that they
-- stand at and by where their Next has an error; the loop of uFIDelateCur gets one unit of fuel more
-- than the buffer has pairs, and the loop of getEntriesGroupByRegions one for each pair, as each round
-- drops one. The loop of NewCommonHandle gets one unit for each byte of the encoding.
--
-- The schema validator is a record, and its queue a list; what UFIDelate reads from elsewhere, the
-- maximal length of the queue and the current schema replicant, is an argument. The arena is the sizes
-- and the used lengths of its blocks; the loop of enlarge gets 28 rounds, since it doubles a number
-- that is not 0 to above 2 ^ 27 at most.
--
-- Not modelled: the rpc server and the coprocessor of the mock, the printed forms and the decoded
-- values of handles, the bytes of the arena's blocks and the value log in them, and the other packages, whose state lives in packages that the repository does
-- not hold or which are tables of constants.
pub mod Prelude
pub mod Bytes
pub mod Arena
pub mod Maps
pub mod Cluster
pub mod Petri
pub mod Mvcc
pub mod Solomonkey
pub mod Tests
