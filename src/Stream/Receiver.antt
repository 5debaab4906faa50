-- ===== src/Stream/Receiver.antt =====
-- Class WALStreamerProcess (src/backup/backupprocesses.cxx): the loop that takes messages of the WAL
-- stream from libpq, hands their data to the log backup and reports positions. What libpq, the
-- clock and the stop handler give is a sequence of events.
pub mod Handled
pub mod Interrupted
pub mod Ending
pub mod Switch
use pg_backup_ctl_plus.Base.{
  ℕ, ◌+◌, ◌%◌, ◌^◌, ◌≡◌, Bool, true, false, not, ◌&&◌, ◌||◌, Option, none, some, List, [], ◌∷◌,
  ◌++◌, ◌==◌, if◌then◌else◌, length,
}
use pg_backup_ctl_plus.Base.Result.{
  Error, failure, tcp_server_failure, command_failure, bad_alloc, loop_bound, undefined_behaviour,
  streaming_failure, Result, ok, err, M, ◌>>=◌, ◌>>◌, return, throw, lift, modify, gets, guard,
  bind_result,
}
use pg_backup_ctl_plus.Buffer.Memory.{Heap, MemoryBuffer}
use pg_backup_ctl_plus.Buffer.Memory
use pg_backup_ctl_plus.Wal.Position.{XlogMacros}
use pg_backup_ctl_plus.Wal.Text.{encode_xlog_pos}
use pg_backup_ctl_plus.Stream.Message.{
  AnyMessage, null_message, data_message, feedback_message, DataMessage, PrimaryFeedback,
  StatusUpdate, Connection, new_stream_message, send,
}
use pg_backup_ctl_plus.Stream.Message
use pg_backup_ctl_plus.Stream.LogBackup.{LogBackup, Os, SegmentNumbers}
use pg_backup_ctl_plus.Stream.LogBackup

-- ArchiverState
pub data ArchiverState : Type 0 where
  startup : ArchiverState
  start_position : ArchiverState
  streaming : ArchiverState
  end_position : ArchiverState
  timeline_switch : ArchiverState
  shutdown : ArchiverState
  streaming_timeout : ArchiverState
  streaming_intr : ArchiverState
  streaming_error : ArchiverState
  streaming_no_data : ArchiverState

-- The constants STREAM_PROGRESS_* of StreamIdentification.
pub data Progress : Type 0 where
  progress_identified : Progress
  progress_streaming : Progress
  progress_shutdown : Progress
  progress_failed : Progress
  progress_timeline_switch : Progress

-- What the receiver uses of StreamIdentification.
pub record StreamIdent : Type 0 where
  pub xlogpos : List ℕ
  pub timeline : ℕ
  pub wal_segment_size : ℕ
  pub write_pos_start_offset : ℕ
  pub flush_position : ℕ
  pub write_position : ℕ
  pub apply_position : ℕ
  pub server_position : ℕ
  pub last_reported_flush_position : ℕ
  pub status : Progress

-- WALStreamerProcess, with the status updates that it has sent.
pub record Receiver : Type 0 where
  pub current_state : ArchiverState
  pub streamident : StreamIdent
  pub backup_handler : Option LogBackup
  pub receive_buffer : MemoryBuffer
  pub sent : List (List ℕ)

-- What PQgetCopyData gives, and `receivePoll`.
pub data CopyGet : Type 0 where
  no_data : CopyGet
  end_of_copy : CopyGet
  copy_error : CopyGet
  copied_bytes : List ℕ → CopyGet

pub data Poll : Type 0 where
  poll_bad_socket : Poll
  poll_state : ArchiverState → Poll

-- One call of `handleReceive`, and before it, in the loop: whether the stop handler wants to exit,
-- whether a status update is overdue, and the time of an update.
pub record Event : Type 0 where
  pub stop : Bool
  pub overdue : Bool
  pub time_us : ℕ
  pub first_get : CopyGet
  pub poll : Poll
  pub consumed : Bool
  pub second_get : CopyGet

-- StreamIdentification::updateStartSegmentWriteOffset adds to an int.
unfoldable pub update_start_segment_write_offset : ⦃macros : XlogMacros⦄ → StreamIdent → StreamIdent
update_start_segment_write_offset ⦃macros⦄ s = record s {
  write_pos_start_offset =
      (s.write_pos_start_offset + macros.segment_offset s.write_position s.wal_segment_size)
      % 2 ^ 32;
}

abbrev pub on_ident : (StreamIdent → StreamIdent) → M Receiver (Unit {0})
on_ident f = modify (λ r. record r { streamident = f r.streamident })

abbrev pub enter : ArchiverState → M Receiver (Unit {0})
enter s = modify (λ r. record r { current_state = s })

-- The message that WALStreamerProcess::sendStatusUpdate makes; the segment size is not set in it.
abbrev pub status_of : StreamIdent → ℕ → StatusUpdate
status_of s time_us = record {
  base = new_stream_message b'r' 0;
  xlog_pos_written = s.write_position;
  xlog_pos_flushed =
      if s.flush_position == 0 then s.last_reported_flush_position else s.flush_position;
  xlog_pos_applied = s.apply_position;
  current_time_us = time_us;
  report_flush_position = true;
}

-- WALStreamerProcess::sendStatusUpdate
unfoldable pub send_status_update : Connection → ℕ → M Receiver (Unit {0})
unfolding send
send_status_update conn time_us r =
    bind_result ((send conn (status_of r.streamident time_us)).0, r)
      (λ bs r. (ok tt, record r { sent = r.sent ++ bs ∷ [] }))

-- What is done with the result of TransactionLogBackup::write, whose flush position is an output.
-- Where it throws, the flush position is the 0 that it begins with; the stream ends then.
abbrev pub note_written : Result (ℕ × ℕ) × LogBackup → Receiver → Result (Unit {0}) × Receiver
note_written (ok (position, flush), b) r = (
  ok tt,
  record r {
    backup_handler = some b;
    streamident = record r.streamident {
      write_position = position;
      flush_position = flush;
      last_reported_flush_position =
          if flush == 0 then r.streamident.last_reported_flush_position else flush;
    };
  },
)
note_written (err e, b) r = (
  err e,
  record r { backup_handler = some b; streamident = record r.streamident { flush_position = 0 } },
)

-- What `throw e` makes of an exception that was caught as a CPGBackupCtlFailure: one of this class.
abbrev pub sliced : Error → Error
sliced bad_alloc = bad_alloc
sliced loop_bound = loop_bound
sliced undefined_behaviour = undefined_behaviour
sliced tcp_server_failure = tcp_server_failure
sliced command_failure = command_failure
sliced e = failure

-- The handler around the call of `handleMessage`.
abbrev pub rethrown : Result (Unit {0}) × Receiver → Result (Unit {0}) × Receiver
rethrown (ok u, r) = (ok u, r)
rethrown (err e, r) = (err (sliced e), r)

module _ ⦃os : Os⦄ ⦃macros : XlogMacros⦄ ⦃segments : SegmentNumbers⦄ where
  -- The call of TransactionLogBackup::write.
  unfoldable pub write_log : DataMessage → LogBackup → M Receiver (Unit {0})
  unfolding LogBackup.write
  write_log m b r = note_written (LogBackup.write (some m) r.streamident.timeline b) r

  -- The case of WAL data of WALStreamerProcess::handleMessage.
  unfoldable pub handle_data : DataMessage → M Receiver (Unit {0})
  unfolding encode_xlog_pos update_start_segment_write_offset write_log
  handle_data m = do
    on_ident (λ s. update_start_segment_write_offset (record s {
      xlogpos = encode_xlog_pos m.xlogstartpos;
      server_position = m.xlogserverpos;
      write_position = m.xlogserverpos;
    }))
    handler ← gets (λ r. r.backup_handler)
    elim handler [
      | some b ↦ write_log m b
      | none ↦ on_ident (λ s. record s {
        flush_position = m.xlogserverpos;
        last_reported_flush_position = m.xlogserverpos;
      })
    ]

  -- WALStreamerProcess::handleMessage
  unfoldable pub handle_message : Connection → ℕ → AnyMessage → M Receiver (Unit {0})
  unfolding handle_data send_status_update
  handle_message conn time_us null_message = return tt
  handle_message conn time_us (data_message m) = handle_data m
  handle_message conn time_us (feedback_message m) =
      if m.base.request_response then send_status_update conn time_us else return tt

  module _ ⦃heap : Heap⦄ (conn : Connection) (address garbage : ℕ) where
    abbrev pub on_receive_buffer : {A : Type 0} → M MemoryBuffer A → M Receiver A
    on_receive_buffer f r = let (a, b) = f r.receive_buffer in (a, record r { receive_buffer = b })

    -- The part of the loop of `receive` that interprets the bytes of a message.
    unfoldable pub process : ℕ → List ℕ → M Receiver (Unit {0})
    unfolding Memory.allocate Memory.write Message.message handle_message
    process time_us bs = do
      on_receive_buffer (Memory.allocate (length bs))
      on_receive_buffer (Memory.write bs 0)
      src ← gets (λ r. r.receive_buffer)
      size ← gets (λ r. r.streamident.wal_segment_size)
      m ← lift (Message.message address garbage src size)
      (λ r. rethrown (handle_message conn time_us m r))

-- The end of `handleReceive`: what the second call of PQgetCopyData does to the state.
unfoldable pub second_status : ArchiverState → CopyGet → M Receiver (ArchiverState × List ℕ)
second_status s no_data = enter streaming_no_data >> return (streaming_no_data, [])
second_status s end_of_copy = enter end_position >> return (end_position, [])
second_status s copy_error = enter end_position >> return (end_position, [])
second_status s (copied_bytes bs) = return (s, bs)

abbrev pub readable : ArchiverState → Bool
readable streaming = true
readable streaming_intr = true
readable s = false

-- What follows PQconsumeInput.
unfoldable pub consume : Event → ArchiverState → Bool → M Receiver (ArchiverState × List ℕ)
unfolding second_status
consume e s true = second_status s e.second_get
consume e s false = enter streaming_error >> second_status streaming_error e.second_get

-- WALStreamerProcess::handleReceive, with the bytes that it leaves in the buffer.
unfoldable pub poll_and_get : Event → Poll → M Receiver (ArchiverState × List ℕ)
unfolding consume
poll_and_get e poll_bad_socket = throw streaming_failure
poll_and_get e (poll_state s) =
    enter s >> (if readable s then consume e s e.consumed else return (s, []))

unfoldable pub handle_receive : Event → M Receiver (ArchiverState × List ℕ)
unfolding poll_and_get
handle_receive e = elim e.first_get [
  | no_data ↦ poll_and_get e e.poll
  | end_of_copy ↦ enter end_position >> return (end_position, [])
  | copy_error ↦ enter streaming_error >> return (streaming_error, [])
  | copied_bytes bs ↦ enter streaming >> return (streaming, bs)
]

-- The reasons with which the loop of `receive` goes on.
abbrev pub goes_on : ArchiverState → Bool
goes_on end_position = false
goes_on shutdown = false
goes_on streaming_error = false
goes_on timeline_switch = false
goes_on startup = false
goes_on start_position = false
goes_on s = true

abbrev pub is_streaming : ArchiverState → Bool
is_streaming streaming = true
is_streaming s = false

-- The states in which `receive` does not throw at once.
abbrev pub may_receive : ArchiverState → Bool
may_receive streaming_error = false
may_receive startup = false
may_receive end_position = false
may_receive s = true

-- Where the stop handler wants to exit.
abbrev pub stop_streaming : M Receiver ArchiverState
stop_streaming = do
  enter shutdown
  on_ident (λ s. record s { status = progress_shutdown })
  return shutdown

module _ ⦃os : Os⦄ ⦃macros : XlogMacros⦄ ⦃segments : SegmentNumbers⦄ ⦃heap : Heap⦄
    (conn : Connection) (address garbage : ℕ) where
  -- A round of the loop up to the next call of `handleReceive`.
  unfoldable pub round : Event → ArchiverState → List ℕ → M Receiver (Unit {0})
  unfolding process send_status_update
  round e reason bs = do
    (if e.overdue then send_status_update conn e.time_us else return tt)
    if is_streaming reason then process conn address garbage e.time_us bs else return tt

  -- The loop of `receive`, on the events that happen; it also ends where these do. The result is the
  -- reason that it ends with.
  unfoldable pub receive_loop : List Event → ArchiverState → List ℕ → M Receiver ArchiverState
  unfolding round handle_receive
  receive_loop [] reason bs = return reason
  receive_loop (e ∷ es) reason bs =
      if not (goes_on reason)
      then return reason
      else if e.stop
      then stop_streaming
      else do round e reason bs; (next, bytes) ← handle_receive e; receive_loop es next bytes

  -- WALStreamerProcess::receive, up to the end of its loop.
  unfoldable pub receive : Event → List Event → M Receiver ArchiverState
  unfolding handle_receive receive_loop
  receive first es = do
    state ← gets (λ r. r.current_state)
    guard (may_receive state) streaming_failure
    (reason, bytes) ← handle_receive first
    receive_loop es reason bytes
