-- ===== src/Lib.antt =====
-- The file server fssvrgo: what its core promises, proved of a model of the code.
--
-- The server keeps files for its clients. Clients upload a file in chunks or in numbered parts;
-- the transfer service (internal/service/transfer) collects the bytes in a temp file, and on
-- completion verifies the hash, encrypts, takes the lock of the file, writes to the storage
-- backend and writes the metadata. Locks and session records come from internal/distributed, and
-- requests are let in by internal/auth. The file manager and the directory manager
-- (internal/service/filemanager, directory) keep the storage backend (internal/storage) and the
-- tables of the database (internal/database) in step. The HTTP server holds a cache of internal/cache, and
-- internal/consistency decides whether replicas may be read and written.
--
-- Files:
-- - Prelude: shared names; Prelude/Tests the Boolean tests, Prelude/Lists lists over native
--   numbers, Prelude/Map association lists for Go's maps, Prelude/Int the integers with int64's
--   wrap-around, Prelude/Text strings.Split and strings.TrimSpace.
-- - Distributed/Lock: LocalDistributedLock of internal/distributed/lock.go. Lock/Holder relates it
--   to the map from a key and a time to the holder; Lock/Trace adds the goroutine of
--   AcquireLockWithRenewal and histories of calls. Distributed/Acquire: AcquireLock and its
--   backoff.
-- - Distributed/Session: the interface SessionStore of internal/distributed/session.go with its
--   laws, and MemorySessionStore, which fills it; Memory/RoundTrip Set and Get.
-- - Transfer/Coverage: addCoveredRange and isFullyCovered of multipart.go.
-- - Transfer/Types, File, Exec: the sessions, the service's state, writes to a file, and the calls
--   that many operations make. Transfer/Upload and Upload/Complete: CreateUploadSession,
--   UploadChunk, AbortUpload, GetUploadProgress, CompleteUpload of service.go. Transfer/Multipart
--   and Multipart/Complete: the operations of multipart.go. Transfer/Complete: the stages that the
--   two completions share. Upload/Stored: what a successful completion has stored.
--   Multipart/Written: the bytes of the temp file after a history of parts. Transfer/Slots: the
--   session counter, for each operation and for histories of requests. Transfer/Cleanup:
--   CleanupExpiredSessions; Cleanup/Expired what it leaves. Transfer/Download: the downloads;
--   Download/Chunk a chunk of a session, Download/Whole a download from its creation on.
-- - Auth: users, keys and permissions of internal/auth/auth.go; Auth/RateLimit its failure
--   records; Auth/Tokens: internal/auth/jwt.go.
-- - Cache: internal/cache/cache.go; Cache/Linked the agreement of its map and its list,
--   Cache/History histories of calls, Cache/Recency and Cache/Recent how long a key stays. Consistency: internal/consistency/consistency.go, and its
--   quorums.
-- - Utils: names and logical paths of internal/utils/utils.go; Utils/Normal NormalizePath,
--   Utils/Traversal what IsValidFilePath lets through.
-- - Database: internal/database. Database/Table what a statement does to a table, Database/Db the
--   tables and the driver's answers, Database/Like the LIKE patterns, Database/Files and
--   Database/Directories the services of metadata.go. Files/View and Files/Replace relate the
--   service of files to the map from paths to rows that are not deleted. Database/Keys: the service
--   of API keys; Keys/Revoked what a revocation does. Database/Batch: the
--   transactions and the batches of a directory's deletion; Batch/Drain and Batch/Frame its loop,
--   Batch/Atomic the transactions, Batch/Move the rows of a directory that is renamed.
-- - Storage: LocalStorage of internal/storage/local.go; Storage/Chunks what ReadAt reads.
-- - FileManager: internal/service/filemanager/manager.go, with its operations in FileManager,
--   FileManager/Download and FileManager/Change; Upload, Rename and Delete what they leave.
-- - DirectoryManager: internal/service/directory/manager.go; Below which rows
--   are below a directory, Delete and Empty what DeleteDirectory leaves, Rename RenameDirectory,
--   Rename/Rows what it does to a row and Rename/Atomic what it leaves.
-- - The modules named Tests hold the concrete runs.
--
-- How the model corresponds to the code. A struct is a record with the code's fields, a Go map an
-- association list, a sync.Map too; a timestamp is a number. An operation takes the state and
-- returns the result beside the new state, on its error paths too. An int64 is an integer with
-- Go's wrap-around. What the operating system, the storage backend, the database, a distributed
-- lock, the hash functions, the cipher and the JWT library answer is an argument of the operation
-- that asks, and so are the clock and random ids. Operations run one at a time. For the locks, the
-- cache and the failure records of the authentication service the code's mutexes give this. Elsewhere it is an
-- assumption: in the session store, whose Get and Exists drop an expired entry under a second lock
-- (Session/Memory has the calls in between as an argument too); in the transfer service, where two
-- calls for one session overlap; for the lookup of a user by a key, and for the check and the
-- revocation of RefreshToken; in the file manager, which locks a path but not the new path of
-- RenameFile; and in the directory manager, whose lock keeps other calls on the directory away but not
-- uploads of files below it, and which reads rows outside of its transactions. A SQL statement is
-- a function on a table that fails if it would break a constraint of the table; the driver may fail
-- any statement, and a failed statement, or a transaction that is not committed, changes nothing.
-- The loops of DeleteDirectory run on fuel, and fuel above the number of rows that its queries find
-- is enough. All other loops are recursions over lists, and the retry loop over the number of retries.
--
-- Not modelled: the threads that run CleanupExpiredSessions; the Redis lock and session store, which
-- are calls of a client library; JSON; the HTTP and gRPC layers; the services of tasks and audit
-- logs, the migrations and the driver's placeholders in internal/database; the MinIO storage; the
-- listing service; configuration, logging, metrics, discovery.
pub mod Prelude
pub mod Distributed
pub mod Transfer
pub mod Utils
pub mod Database
pub mod Storage
pub mod FileManager
pub mod DirectoryManager
pub mod Auth
pub mod Consistency
pub mod Cache
