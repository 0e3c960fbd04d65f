-- ===== src/Lib.antt =====
-- Verification of the lutra service: runs of task graphs with durable state.
--
-- The program. A worker claims a run from the database and gives the run's actions to a graph
-- executor (internal/graphexec). Each node of the graph is an action; a goroutine per node asks the
-- cache, waits for an image, takes a slot of a shared pool and runs an attempt, and the executor's
-- own loop (`Run`) makes nodes ready and starts them. All of it works on one state under a mutex, and
-- every change is a transition that the store has to accept first.
--
-- Conventions. Numbers are natural numbers; an int32 keeps its wrap-around (Prelude/Int32). An
-- identifier is a number and `uuid.Nil` is 0. A time is a number of nanoseconds, read once per
-- critical section. A Go map is an association list with the order of a `range` as an argument
-- wherever the order can be seen. An error is its text. What Go copies (`clone`) is a value.
-- Code outside the repository (the database, the store of objects, codecs) is an argument.
--
-- Prelude: Boolean tests and conditionals, lists, maps, int32, int64, byte strings, results.
--
-- Graph: internal/graphexec/executor.go.
--   Graph/Types is the data; Graph/Commit `commitLocked`, `notifyLocked`; Graph/Close `closeLocked`,
--   `Cancel`, `CancelSubtree`, `timerLocked`; Graph/Dispatch `dispatchLocked`; Graph/Execute
--   `execute`, cut where it releases the mutex; Graph/Calls `New`, `Add`, `Get`, `Wait`, `resume`;
--   Graph/Validate `validateLocked`; Graph/Run `Run`.
--   Graph/Sections lists the critical sections as data, with a schedule of them run in any order;
--   Graph/Evolve shows what every section does to a node; Graph/Safety draws from it what a schedule
--   keeps. Graph/System is the step relation of the goroutines with the slots and `resumeMu`, and
--   Graph/Slots its counting invariant. The services that are called between two sections (cache,
--   images, the attempt itself) answer anything. A store answers a transition from those it has
--   accepted before. The slots are the executor's own pool, which `NewSlots` makes with one at least.
--   `resume` is cut into its sections: the loop over the waiters, the check, the acquisition of a slot
--   and what comes behind it, so that a `Wait` may come in between any two; so is `execute`, with the
--   release of a slot for an attempt that is refused. The call of `Cache.Store` for an unused claim
--   when `execute` returns is not modelled: it changes nothing of the executor.
--   Fuel: `collect` gets one more than there are nodes, since each round but the last finds a new
--   one; `rounds` the same, since each round but the last moves a node out of `pending`; `visit` and
--   `climb` get two more than there are nodes, since they keep to paths without a repeated node.
--
-- Log: internal/runlog/service.go with the queries of db/queries/log.sql.
--   Log/Types is the data and the tables; Log/Tables the queries; Log/Check the checks of a batch, its
--   digest and the checkpoint scope; Log/Append `AppendTx` and `storeValue`; Log/Service
--   `validateRun`, `AppendEntries` and `Append`. Log/Sequence is about the sequence numbers,
--   Log/Retry about a batch sent again, Log/Total about when a batch is appended, Log/Scope about
--   what a task may write. Every call of the database or of the store of objects may fail, as
--   `Outside` says. Calls on one stream are one after another, since each locks the stream's row. A
--   byte is a number; an int64 keeps its wrap-around (Prelude/Int64). `Read`, `rowValue` and `Tail`
--   are not modelled.
--
-- Tail: internal/runlog/tail.go. Tail/Prefix is `PrefixSuccessor`, the bounds of the query and
--   `batchSize`, with what the bounds select in Tail/Range. Tail/Cursors is `Run`: a visit of a
--   cursor, a round over the cursors, and the rounds, given what every round's queries and sends
--   answer (`Session`). The wait for a notification between two rounds and the reconnection of the
--   listener are input and output: a round comes after whatever woke `Run`. Tail/Exact is about which
--   records are sent. Its theorems are about one cursor of a stream whose view only grows.
--
-- Blob: internal/blob/service.go with the queries of db/queries/blobs.sql.
--   Blob/Text is the string functions; Blob/Uri `URI` and `ParseURI`; Blob/Types the tables, the
--   bucket and the chaining of calls, each of which may fail; Blob/Create `CreateUpload`,
--   `session`, `PresignPart`; Blob/Complete `CompleteUpload`, `AbortUpload`, `abortSession`,
--   `CleanupExpiredUploads`; Blob/Transfer `Put` and `GetDownload`. An error in a transaction
--   brings the tables back and leaves the bucket. The object's name is a number that was not
--   used before, as random identifiers are. A clean-up takes the expired uploads in any order
--   that the database may give them, which is an argument. Blob/Rules is a program logic for
--   these calls, Blob/Backed the invariant of tables and bucket, Blob/Lasting the sequences of
--   calls, Blob/Bounds the part counts. The signature of an address and its headers, and the
--   timer of `RunCleanup`, are not modelled.
--
-- Stdio: internal/taskstdio/transport.go and handler.go.
--   Stdio/Envelope is `envelope` and the prefixes of a stream; Stdio/Request `sendRequest`, given
--   which frames `send` refuses; Stdio/Receive `receiveCall`, on the list of what its loop meets;
--   Stdio/Calls the critical sections on the tables of a `Transport`: of `Do`, `readLoop`, `pop`,
--   `remove`, `fail`, `handleIncomingFrame`, `serveIncoming`. An identifier is a number, and so is a
--   call object. Fuel: a request's loop gets one more than its body has bytes, since each round reads
--   a prefix. A write into the pipe before the headers have come has no reader and does not return.
--   Stdio/Streams is about what is sent, Stdio/Answers and Stdio/Delivery about what is received;
--   Stdio/Woken, Stdio/Sound and Stdio/Held about the calls in the tables; Stdio/Incoming is the
--   response of `serveIncoming`, whose handler is an argument. The scanner of lines, the JSON of a
--   frame and the closing of the pipes are not modelled.
--
-- Settings: internal/settings/service.go with the queries of db/queries/settings.sql.
--   Settings/Patterns is the two regular expressions as automata, Settings/Segments what the one
--   of paths takes; Settings/Service the checks and the operations on the tables; Settings/Keys
--   the primary key, Settings/Stored what is listed behind a change. The rows of a list are
--   sorted by path; how two paths compare is the database's. `ListNamespaces`, which only copies
--   rows, and the rows' times are not modelled.
--
-- Not modelled: the task cache, the worker and its services beside the executor; the SDK and the user
-- interface (other languages), start-up and configuration of the programs, database migrations,
-- processes and files of the sandbox.
pub mod Blob
pub mod Graph
pub mod Log
pub mod Prelude
pub mod Settings
pub mod Stdio
pub mod Tail
