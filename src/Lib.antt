-- ===== src/Lib.antt =====
-- nextcloud-go: the file locks, the in-memory file system, the job runner, the plugin budgets,
-- the shares, the login flow, the office protocol and free-busy times.
--
-- The program is a Nextcloud server. internal/webdav speaks the protocol and asks a file system;
-- internal/files is the file system over database and storage, with its locks in the table
-- file_locks; internal/wopi gives an office suite tokens for files and takes the same locks for it;
-- internal/jobs runs queued jobs out of the table jobs; internal/plugins gives each plugin a budget
-- of handles, statements and function entries; internal/sharing keeps the shares and opens them to
-- their recipients; internal/login hands an app password to a client whose user grants it;
-- internal/calendar answers when a user is busy.
--
-- Files and code. A definition has its function's name, in antt's spelling.
--   Prelude, Text, Dict: Boolean tests, lists over native numbers, Go strings as lists of bytes, what
--     the code uses of the package strings, and Go's maps as association lists.
--   Errors: the error values of internal/webdav/fs.go and internal/files/errors.go, and mapMeta.
--   Webdav/LockToken, Webdav/Timeout: the lock tokens and the Timeout header, internal/webdav/lock.go.
--   Webdav/Cond: WriteCond and its parsers, internal/webdav/cond.go.
--   Webdav/Memory: InMemoryFS of internal/webdav/fs.go; Memory/Transfer is Move and Copy, Memory/Props
--     is PatchProps, and Memory/Locks is its part of internal/webdav/lock.go with Stat, List and Remove.
--   Files/Path: internal/files/path.go, and parentFilePath of internal/files/lock.go.
--   Files/LockStore: SQLLockStore, internal/files/lockstore.go, as a list of rows with the next id;
--     LockStore/Subtree: its statements on a subtree.
--   Files/Lock, Files/LockCheck: Lock, Unlock, checkLockOwned and the operations by file id,
--     internal/files/lock.go, with resolveUser's test and statOwned.
--   Files/WopiLock: internal/files/wopilock.go.
--   Jobs/Store: SQLStore, internal/jobs/store.go. Jobs/Runner: internal/jobs/runner.go.
--   Plugins/Handles: handleagg.go and the handle table of instance.go; Plugins/Statements: dbquota.go;
--     Plugins/Fuel: the meter of fuel.go, all in internal/plugins.
--   Sharing/Store, Sharing/Subtree: SQLShareStore, internal/sharing/sqlstore.go; Text/Like is the LIKE
--     of its statements, on PostgreSQL and on SQLite. Sharing/ExpireDate: parseExpireDate. Sharing/Service, Sharing/Access,
--     Sharing/Public: Service of internal/sharing/service.go, in this order Create, the operations of
--     the owner, and the resolvers with ListIncoming and the job of internal/sharing/expire.go.
--   Login/Flow, Login/Service: internal/login/v2.go, the service over any store with the interface's
--     promises; Login/Sql: internal/login/sqlstore.go.
--   Wopi/Tokens: internal/wopi/store.go, service.go and gc.go; Wopi/Names, Wopi/Handler, Wopi/Serve:
--     the names, the operations and ServeHTTP of FilesHandler, internal/wopi/handler.go, with the file
--     system behind it as a parameter.
--   Calendar/FreeBusy: mergeBusy of internal/calendar/freebusy.go.
--   Tests: runs on small tables and trees.
--
-- State is passed explicitly: an operation takes the table or tree and returns it with its answer.
-- An answer is a Result with the error values as data. Times are numbers that the caller reads from
-- the clock; a request of InMemoryFS has one. DAV's Stat drops expired locks, so that it is part of
-- Lock and Unlock.
--
-- Fuel. The parsers of header lists take the length of the text and one more, and each round drops a
-- byte. The loops over ancestors take the length of the path and one more; each round is at the root
-- or makes the path shorter. The search for a free name takes the code's 99 rounds.
--
-- Integers. Numbers are native naturals. The wrap-around is written out where the code can reach it:
-- the product in the Timeout header, the ids of a handle table and of InMemoryFS, the fuel meter's
-- counter. Database ids do not wrap.
--
-- Not modelled. The database answers every statement of the tables here, so that its failures are
-- only those of the unique keys and those that a parameter gives (users, files, the random token).
-- Paths under an incoming share, apart from the WOPI locks' targets; Covering of the share store,
-- the in-memory store of the login flow, the text of notifications and ResealShareMeta; the key
-- wraps, the read answers and the mint handler of WOPI; the expansion of recurring events; the name
-- translation of encrypted trees. White space and letter case are those of ASCII. MySQL, which
-- compares text under the collation of its tables, is not modelled. Goroutines are sequences of
-- steps. The other handlers, XML and the rest of the packages are outside.
pub mod Prelude
pub mod Text
pub mod Dict
pub mod Errors
pub mod Webdav
pub mod Files
pub mod Jobs
pub mod Plugins
pub mod Sharing
pub mod Login
pub mod Wopi
pub mod Calendar
pub mod Tests
