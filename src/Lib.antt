-- ===== src/Lib.antt =====
-- Verification of pg_backup_ctl-plus, a program that streams base backups and the write-ahead log
-- of PostgreSQL servers into archives and removes what a retention policy does not keep.
--
-- The development models the part that decides what is removed. A retention policy is a list of
-- rules (src/catalog/retention.cxx). A rule goes over the basebackups of an archive, from the
-- newest to the oldest, asks its locks about each (src/catalog/backuplockinfo.cxx), and fills a
-- cleanup descriptor (include/backup/backupcleanupdescr.hxx): the basebackups to remove, and for
-- each timeline the WAL position up to which segments may go. The archive then removes WAL up to
-- these positions (ArchiveLogDirectory::removeXLogs in src/filesystem/fs-archive.cxx). One of
-- the locks reads the slots in shared memory where the workers of the daemon register the
-- basebackups that they use (WorkerSHM in src/jobs/daemon.cxx). WAL positions and their texts
-- are computed in src/backup/stream.cxx.
--
-- It also models what the program says and hears on its connections: the buffers with bounds
-- (src/main/memorybuffer.cxx) and with a position (src/protocol/proto-buffer.cxx), the error
-- messages of the recovery server that are made in them, the COPY subprotocol of that server
-- (src/protocol/pgproto-copy.cxx, pgproto-copystate.cxx), whose states send and take CopyData
-- messages, and the messages of the WAL stream that the receiver takes apart and answers
-- (src/backup/xlogdefs.cxx). The receiver (WALStreamerProcess in src/backup/backupprocesses.cxx) reads
-- such messages in a loop and hands their data to TransactionLogBackup (src/backup/backup.cxx), which
-- writes it to segment files that are renamed when they are complete. At the end of a stream the server
-- may offer a new timeline, on which the receiver starts again.
--
-- Last, it models the recovery server on the other side (PGProtoStreamingServer in src/jobs/server.cxx):
-- a connection takes a startup message, then queries; a query is parsed into streaming commands
-- (src/parser/pgproto-commands.cxx), which prepare a result set (src/protocol/proto-types.cxx) and
-- write a message of it at each step; runtime variables (src/main/rtconfig.cxx) keep the settings of a
-- connection.
--
-- Files. Base: Boolean tests, lists over the native numbers, signed and machine integers, the
-- exceptions, and the state-passing functions for code that throws; the state that such code has
-- changed before it throws is kept.
-- Wal/Position: XLOGOffset and the start, next and previous segment positions, on 64-bit numbers
-- that wrap. Wal/Text: encodeXLOGPos and decodeXLOGPos over lists of bytes, with what the C and C++
-- libraries document of %X and std::hex in Wal/Text/Scan.
-- Archive/Backup: the columns of BaseBackupDescr that the modelled code reads. Archive/Shm: the
-- operations of WorkerSHM, one function each; Archive/Shm/Slots is about allocation.
-- Archive/Lock: the two kinds of BackupLockInfo and BackupLockInfoAggregator; Archive/Lock/Held is
-- about the check of shared memory, Archive/Lock/Register about registering and freeing a child.
-- Archive/Cleanup: BackupCleanupDescr with XLogCleanupOffsetKeep and move; Archive/Cleanup/Offsets
-- is about how offsets change. Archive/Removal: removeXLogs over the entries of the directory.
-- Base/Bytes: numbers in network order. Buffer/Memory: MemoryBuffer; Memory/Access is about write
-- and read. Buffer/Protocol: ProtocolBuffer; Protocol/Content views a buffer as what stands
-- before and behind its position. Buffer/ErrorStack: ProtocolErrorStack; ErrorStack/Counts is about
-- its running sizes, Layout and Message about toBuffer. Copy/Format: PGProtoCopyFormat. Copy/State:
-- the classes of PGProtoCopyState as one function for each of read and write, on a context of
-- buffers; State/Automaton is the automaton of the protocol, State/Transitions is about one call,
-- Routes about sequences of calls, Transfer about CopyData from one end to the other, Response
-- about the first message. Stream/Message: the XLOGStreamMessage classes; Stream/Decode is about
-- received messages, Stream/Send about the status update.
-- Copy/Message: the classes of src/protocol/pgmessage*.cxx; Message/Header is about their header and
-- about reading CopyData. Stream/LogBackup: TransactionLogBackup with the calls of ArchiveFile that it makes;
-- LogBackup/Files is about the calls on the newest file, Rounds about a round of the loop of write,
-- Stored about the loop, Written about write. Stream/Receiver: sendStatusUpdate, handleMessage,
-- handleReceive and the loop of receive; Receiver/Handled follows a message from its bytes to the
-- files, Receiver/Interrupted is about interrupted waits. Receiver/Ending: what receive does behind its
-- loop, handleEndOfStream, endOfStreamTimelineSwitch, start and finalizeSegment; Receiver/Switch follows
-- a new timeline from the end of a stream to the next start.
-- Buffer/Protocol/Chunks: writing several pieces into a buffer. Config/Variable: ConfigVariable and its
-- descendants, Config/Runtime: RuntimeConfiguration; Runtime/Kept and Sound are about what every call
-- keeps, Runtime/Created about new variables. Server/ResultSet: PGProtoResultSet; ResultSet/Sent is
-- about the messages that it writes, Refused about a row that it cannot write. Server/Command:
-- PGProtoStreamingCommand, its descendants and their steps; Command/Steps is about the loop over the
-- steps, Command/Listing about LIST_BASEBACKUPS. Server/Connection: the state of a connection and its
-- messages; Server/Startup: the handlers of the startup, with Startup/Parameters about its parameters
-- and Startup/Greeting, by Connection/Replies, about what is answered;
-- Server/Query: the handlers of messages and queries.
-- Retention/Rule: class Retention; Retention/Safety: when a kept basebackup is safe.
-- Retention/Count with Count/Spec, Keep, Drop and Apply: CountRetention. Retention/Label with
-- Label/Round and Selection: LabelRetention. Retention/CleanupRule with CleanupRule/Aborted:
-- CleanupRetention. Retention/DateTime with DateTime/Expired: DateTimeRetention. Retention/Pin
-- with Pin/Chosen: PinRetention. Examples: the theorems at concrete inputs.
--
-- Parameters. What `new char[n]` gives is the record Heap: bytes of that length, or std::bad_alloc,
-- which a size_t bounds. What libpq does with a status update is two functions.
-- XLByteToSeg is a record like XLogSegmentOffset below. The operating system grants or refuses each
-- call on a file, by a function; a file that is written has its bytes at once. What libpq, the stop
-- handler and the clock give to the receiver is a list of events. The address of a
-- local array, which two messages store by mistake, and the garbage in an uninitialised size are
-- numbers. PostgreSQL's macro XLogSegmentOffset is a record with its documented value for legal
-- segment sizes. Whether a label matches the regular expression of a rule is a function.
-- Whether a basebackup exceeds a rule by date, which the catalog's database finds out, is a function.
-- Whether a basebackup is intact on disk and what the catalog answers to an update of pins are
-- functions.
-- What the server answers at the end of a stream and to START_REPLICATION, and the printing of numbers
-- that libraries do, are the records Goodbye and Server of Receiver/Ending and Printer of
-- Server/Command. A hook that is called when a runtime variable is assigned accepts or throws, by a
-- function (Surroundings); what the parser makes of a query and what the catalog answers are the records
-- Parser and Outside. A write that the server starts is noted with the bytes that
-- the buffer holds then; the socket takes them later, from the same block, and that the block is freed or
-- written meanwhile is not modelled.
-- A directory entry carries what PostgreSQL's macros and the regular expressions read from its name.
--
-- Bounds. An `int` is a signed integer, an `unsigned int` a number modulo 2^32, an XLogRecPtr one
-- modulo 2^64; the theorems ask for lists shorter than 2^32 where the code counts in such
-- integers. Loops are structural recursion on the list; the loops over slots and children are
-- recursion on the number of rounds left, which is the bound of the loop, and printing has fuel
-- for the eight hexadecimal digits of 32 bits. The loop that writes WAL has as many rounds as bytes,
-- and every round writes one or more. The loop over the steps of a command has two rounds more than the
-- rows of its result set: one for the columns and one for the end. Reading beyond an array, an
-- uninitialised variable or the end of a map is the exception `undefined_behaviour`.
--
-- The four buffers of a COPY context are taken to be distinct objects, and a state of a COPY to stay
-- alive while its method runs.
--
-- Not modelled: the base backup stream; compressed WAL files; the parser, the catalog's SQL
-- statements, the file system, compression, processes, sockets and signals, which are calls of
-- libraries; the command TIMELINE_HISTORY, which reads the catalog; messages to the log.
pub mod Base
pub mod Wal
pub mod Buffer
pub mod Config
pub mod Copy
pub mod Stream
pub mod Archive
pub mod Retention
pub mod Server
pub mod Examples
