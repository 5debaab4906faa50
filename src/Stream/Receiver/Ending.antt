-- ===== src/Stream/Receiver/Ending.antt =====
-- The end of a WAL stream: what WALStreamerProcess::receive does behind its loop, `handleEndOfStream`,
-- `end`, `endOfStreamTimelineSwitch`, and `start` (src/backup/backupprocesses.cxx).
use pg_backup_ctl_plus.Base.{
  ℕ, Bool, true, false, not, ◌||◌, Option, none, some, List, [], ◌∷◌, ◌++◌, ltb, ◌==◌,
  if◌then◌else◌,
}
use pg_backup_ctl_plus.Base.Int.{ℤ, unsigned}
use pg_backup_ctl_plus.Base.Result.{
  streaming_failure, failure, Result, ok, err, M, ◌>>=◌, ◌>>◌, return, gets, bind_result,
}
use pg_backup_ctl_plus.Buffer.Memory.{Heap}
use pg_backup_ctl_plus.Wal.Position.{XlogMacros}
use pg_backup_ctl_plus.Stream.Message.{Connection}
use pg_backup_ctl_plus.Stream.LogBackup.{Os, SegmentNumbers}
use pg_backup_ctl_plus.Stream.Receiver.{
  Event, receive, ArchiverState, streaming, end_position, timeline_switch, shutdown,
  streaming_error, streaming_no_data, Receiver, Progress, progress_streaming, progress_shutdown,
  progress_timeline_switch, is_streaming,
}

-- The receiver with the other members of its StreamIdentification that are used at the ends of a
-- stream, and the commands that it has sent.
pub record StreamProcess : Type 0 where
  pub receiver : Receiver
  pub slot_name : List ℕ
  pub commands : List (List ℕ)

-- PQresultStatus, as far as it is told apart.
pub data ExecStatus : Type 0 where
  copy_in : ExecStatus
  copy_both : ExecStatus
  tuples_ok : ExecStatus
  command_ok : ExecStatus
  other_status : ExecStatus

-- A PGresult: its status, its numbers of columns and rows, and the two values of its first row.
pub record PgResult : Type 0 where
  pub result_status : ExecStatus
  pub nfields : ℕ
  pub ntuples : ℕ
  pub first_value : List ℕ
  pub second_value : List ℕ

-- What libpq gives at the end of a stream: the result that follows the data, whether the end of the
-- COPY can be sent and flushed, and the result that answers it.
pub record Goodbye : Type 0 where
  pub first_result : Option PgResult
  pub end_sent : Bool
  pub flush_failed : Bool
  pub last_result : Option PgResult

-- What libpq does to a text in PQescapeStringConn and with a command, and how the streams of C++ read
-- an int and print an unsigned one.
pub record Server : Type 0 where
  pub escape : List ℕ → List ℕ
  pub execute : List ℕ → ExecStatus
  pub read_int : List ℕ → ℤ
  pub show_unsigned : ℕ → List ℕ

abbrev pub state_of : StreamProcess → ArchiverState
state_of p = p.receiver.current_state

abbrev pub become : ArchiverState → StreamProcess → StreamProcess
become s p = record p { receiver = record p.receiver { current_state = s } }

abbrev pub become_with : ArchiverState → Progress → StreamProcess → StreamProcess
become_with s status p = record p {
  receiver = record p.receiver {
    current_state = s;
    streamident = record p.receiver.streamident { status = status };
  };
}

abbrev pub is_end_position : ArchiverState → Bool
is_end_position end_position = true
is_end_position s = false

abbrev pub is_switch : ArchiverState → Bool
is_switch timeline_switch = true
is_switch s = false

abbrev pub is_copy_in : Option PgResult → Bool
is_copy_in none = false
is_copy_in (some r) = elim r.result_status [ copy_in ↦ true | _ ↦ false ]

-- What the last result says in `end`.
abbrev pub after_end : ExecStatus → M StreamProcess (Unit {0})
after_end tuples_ok p = (ok tt, become_with timeline_switch progress_timeline_switch p)
after_end command_ok p = (ok tt, become_with shutdown progress_shutdown p)
after_end s p = (err streaming_failure, become streaming_error p)

-- WALStreamerProcess::end
unfoldable pub end_copy : Goodbye → M StreamProcess (Option PgResult)
end_copy g p =
    if not g.end_sent || g.flush_failed
    then (err streaming_failure, become streaming_error p)
    else elim g.last_result [
      | none ↦ (err streaming_failure, become streaming_error p)
      | some r ↦ bind_result (after_end r.result_status p) (λ u q. (ok (some r), q))
    ]

-- The handler of `handleEndOfStream` for StreamingFailure.
abbrev pub caught :
    Result (Option PgResult) × StreamProcess → Result (Option PgResult) × StreamProcess
caught (err streaming_failure, p) = (err streaming_failure, become streaming_error p)
caught r = r

-- WALStreamerProcess::handleEndOfStream
unfoldable pub handle_end_of_stream : Goodbye → M StreamProcess (Option PgResult)
unfolding end_copy
handle_end_of_stream g p =
    if not (is_end_position (state_of p))
    then (err failure, p)
    else if is_copy_in g.first_result
    then caught (end_copy g p)
    else (ok g.first_result, become shutdown p)

module _ ⦃server : Server⦄ where
  -- WALStreamerProcess::endOfStreamTimelineSwitch, on the timeline and the position of the stream.
  abbrev pub switched : PgResult → StreamProcess → StreamProcess
  switched r p = record p {
    receiver = record p.receiver {
      streamident = record p.receiver.streamident {
        timeline = unsigned (server.read_int r.first_value);
        xlogpos = r.second_value;
      };
    };
  }

  unfoldable pub end_of_stream_timeline_switch : Option PgResult → M StreamProcess (Unit {0})
  end_of_stream_timeline_switch none p = (err streaming_failure, p)
  end_of_stream_timeline_switch (some r) p =
      if not (is_switch (state_of p)) || (ltb r.nfields 2 || not (r.ntuples == 1))
      then (err streaming_failure, p)
      else (ok tt, switched r p)

  -- WALStreamerProcess::receive behind its loop, by the state that the loop leaves. The result says
  -- whether the caller can go on.
  unfoldable pub end_position_reached : Goodbye → M StreamProcess Bool
  unfolding handle_end_of_stream end_of_stream_timeline_switch
  end_position_reached g = do
    result ← handle_end_of_stream g
    state ← gets state_of
    (if is_switch state
        then (end_of_stream_timeline_switch result >> return true)
        else return false)

  unfoldable pub leave_receive : Goodbye → M StreamProcess Bool
  unfolding end_position_reached
  leave_receive g p = elim p.receiver.current_state [
    | streaming_no_data ↦ (ok true, p)
    | end_position ↦ end_position_reached g p
    | _ ↦ (ok false, p)
  ]

  -- WALStreamerProcess::receive as a whole.
  unfoldable pub receive_all :
      ⦃os : Os⦄ ⦃macros : XlogMacros⦄ ⦃segments : SegmentNumbers⦄ ⦃heap : Heap⦄
      → Connection
      → ℕ
      → ℕ
      → Event
      → List Event
      → Goodbye
      → M StreamProcess Bool
  unfolding receive leave_receive
  receive_all conn address garbage first es g p =
      let (r, q) = receive conn address garbage first es p.receiver in
      bind_result (r, record p { receiver = q }) (λ reason. leave_receive g)

  -- The command that WALStreamerProcess::start sends.
  abbrev pub start_command : StreamProcess → List ℕ
  start_command p =
      (b'S' ∷ b'T' ∷ b'A' ∷ b'R' ∷ b'T' ∷ b'_' ∷ b'R' ∷ b'E' ∷ b'P' ∷ b'L' ∷ b'I' ∷ b'C' ∷ b'A'
        ∷ b'T' ∷ b'I' ∷ b'O' ∷ b'N' ∷ b' ' ∷ b'S' ∷ b'L' ∷ b'O' ∷ b'T' ∷ b' ' ∷ [])
      ++ server.escape p.slot_name
      ++ (b' ' ∷ b'P' ∷ b'H' ∷ b'Y' ∷ b'S' ∷ b'I' ∷ b'C' ∷ b'A' ∷ b'L' ∷ b' ' ∷ [])
      ++ server.escape p.receiver.streamident.xlogpos
      ++ (b' ' ∷ b'T' ∷ b'I' ∷ b'M' ∷ b'E' ∷ b'L' ∷ b'I' ∷ b'N' ∷ b'E' ∷ b' ' ∷ [])
      ++ server.show_unsigned p.receiver.streamident.timeline
      ++ b';' ∷ []

  abbrev pub is_copy_both : ExecStatus → Bool
  is_copy_both copy_both = true
  is_copy_both s = false

  -- WALStreamerProcess::start
  unfoldable pub start : M StreamProcess (Unit {0})
  start p =
      if is_streaming (state_of p) || is_end_position (state_of p)
      then (err streaming_failure, p)
      else (let q = record p { commands = p.commands ++ start_command p ∷ [] } in
          if is_copy_both (server.execute (start_command p))
          then (ok tt, become_with streaming progress_streaming q)
          else (err streaming_failure, q))

-- WALStreamerProcess::finalizeSegment
unfoldable pub finalize_segment : M StreamProcess (Unit {0})
finalize_segment p = if is_end_position (state_of p) then (ok tt, p) else (err streaming_failure, p)
