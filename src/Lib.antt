-- ===== src/Lib.antt =====
-- mink-lasso sends G-code files over UDP to a Masso CNC controller, when the machine is idle.
--
-- The files follow the repository's packages. Base holds what they share: tests on numbers, lists,
-- bits of a checksum, association lists for Go's maps.
--
-- internal/masso is the protocol's client. Masso.Frame (frame.go) puts a datagram's type and payload
-- under a CRC-16 and takes them out again; Masso.FileName (filename.go) decides which names and folders
-- the controller takes; Masso.Serial (serial.go) writes and reads serial numbers; Masso.Request (request.go) and Masso.Reply (reply.go) encode and decode the
-- datagrams of either direction; Masso.Upload (upload.go) is the sender of an upload. Functions keep
-- their Go names in snake case; a Go error is a value of Masso.Errors.Error, and a function that may
-- fail returns a Result. Bytes are lists of numbers, and a theorem that needs them below 256 says so.
--
-- `sendChunks` is a loop whose variables are the record Sender. Masso.Upload.round is one round of its
-- outer `for`: `fill` sends what the window has room for, and then either an ACK arrives or the clock
-- is read. The inner `for` runs on fuel, the window: it sends at most that many chunks, and
-- Masso.Upload.Invariant shows that they are enough. An index out of range is the outcome `panicked`.
-- Times are nanoseconds, given to the function that reads the clock.
--
-- internal/masso/sim is the simulated controller: Sim.State has its fields, setters and reports,
-- Sim.Handlers one function for each handler, from a state and a datagram to a state and the
-- datagrams that it writes. Its mutex makes each handler one step, but for handleUploadChunk, which
-- the single goroutine of `serve` runs whole.
--
-- Transfer puts the sender and the simulated controller together. A System is both, and all datagrams
-- that either has sent; a Step delivers one of those, or lets time pass. Nothing removes a datagram,
-- so it may be lost, repeated, delayed or overtaken. The file is read through an io.ReaderAt, a
-- function `Reader` with the hypothesis Reads: it gives the file's bytes, and no error but io.EOF.
--
-- internal/engine/gate.go decides whether an upload may start: Engine.Gate has its state and methods.
-- The zero time is `none`; the timer is the time at which it will expire.
--
-- internal/engine/scheduler.go is the upload queue. Engine.Queue has its items, the reports of the
-- watcher and the operator's requests; Engine.Sending has what the sending goroutine does: the choice of
-- the next item and the outcome of a send. A send holds on to its item while the map of names moves on,
-- so a Queue is a heap of items by address and a map from names to addresses. Each critical section of
-- the source is one function; the verdict of the gate and the outcome of the upload are its arguments.
--
-- Engine.Archive is internal/engine/archive.go: the move of a sent file. The disk is a dictionary from paths
-- to files, and any call of the file system may fail, as an argument decides by the number of the call.
-- The search for the name of a backup is a loop without a bound in the source and runs on fuel here;
-- Engine.Archive.Backup shows how much is enough.
--
-- Engine.Dispatcher is internal/engine/dispatcher.go: the queue between the parts of the engine that report
-- events and the reader of those events. What its mutex makes one step is an Op.
-- Engine.Progress is the same file's coalescer, and what scheduler.go's send does with a report of progress.
-- Engine.Connection is conn.go: one pass of the connection loop, from a configured serial number to the loss of
-- the connection. The answers of the controllers, the clock and the context are lists of turns; the gate that
-- the pass opens and closes is that of Engine.Gate.
--
-- internal/watch/watch.go finds the files that are to be sent. Watch.Names has the names that it passes
-- over, Watch.Entry the bookkeeping for one file, Watch.Scan a whole scan over a tree that holds the
-- answers of the file system. Watch.History is the specification: the sightings of one file over time.
--
-- Client is internal/masso/client.go and discover.go. Client.State has the fields of a Client, with a list
-- of waiters for each packet type, and what the reader does with a datagram; Client.Waiters has the
-- steps that may happen to a client. Client.Exchange has the requests that wait for an answer: what the
-- rest of the program does during a wait is any sequence of those steps. Client.Running is the loop
-- of Run; Client.Starting and Client.Uploading are the start of an upload and Upload as a whole, of
-- which Masso.Upload is the middle part. A loop over the clock is a function of the list of its turns.
--
-- Ui.Transfers is the table of transfers of internal/ui/model (apply.go, format.go): one row for each name, and the
-- eviction of the oldest terminal rows above a limit. That loop runs on fuel, the number of rows; each turn
-- takes a row away.
--
-- Config is internal/config/config.go: the settings, their defaults and which settings are valid. What reading
-- and parsing the file yields is an argument of `load`.
--
-- Not modelled: the sockets and goroutines; the broadcast of a discovery; the notifications of the file
-- system, which only make the watcher scan earlier; the watch loop of watchdir.go; JSON; of the
-- user interface all but that table; logging; and what is Windows or Go's runtime. The numbers are
-- unbounded: a 32-bit counter
-- wraps by `% 2 ^ 32` where the source counts in uint32, and an upload's int64 arithmetic cannot overflow,
-- since a file is shorter than 2 ^ 32 bytes.
pub mod Base
pub mod Config
pub mod Engine
pub mod Masso
pub mod Sim
pub mod Transfer
pub mod Ui
pub mod Watch
pub mod Client
