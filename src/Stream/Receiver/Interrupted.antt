-- ===== src/Stream/Receiver/Interrupted.antt =====
-- What an interrupted wait does to the bytes that follow it (`handleReceive` and `receive` of
-- src/backup/backupprocesses.cxx).
use pg_backup_ctl_plus.Base.{ℕ, List, []}
use pg_backup_ctl_plus.Base.Result.{M, bind_result}
use pg_backup_ctl_plus.Buffer.Memory.{Heap}
use pg_backup_ctl_plus.Wal.Position.{XlogMacros}
use pg_backup_ctl_plus.Stream.Message.{Connection}
use pg_backup_ctl_plus.Stream.LogBackup.{Os, SegmentNumbers}
use pg_backup_ctl_plus.Stream.Receiver.{
  ArchiverState, streaming_intr, Receiver, Event, CopyGet, no_data, copied_bytes, Poll, poll_state,
  handle_receive, receive_loop,
}

-- What the second call of PQgetCopyData gives, without the bytes.
abbrev pub without_bytes : CopyGet → CopyGet
without_bytes (copied_bytes bs) = copied_bytes []
without_bytes g = g

-- What it gives behind the wait with a result, without the bytes where a signal interrupted the wait.
abbrev pub after_wait : CopyGet → Poll → CopyGet → CopyGet
after_wait no_data (poll_state streaming_intr) g = without_bytes g
after_wait first poll g = g

-- An event without the bytes that arrive together with an interruption.
abbrev pub silenced : Event → Event
silenced e = record e { second_get = after_wait e.first_get e.poll e.second_get }

module _ ⦃os : Os⦄ ⦃macros : XlogMacros⦄ ⦃segments : SegmentNumbers⦄ ⦃heap : Heap⦄
    (conn : Connection) (address garbage : ℕ) where
  -- The next call of `handleReceive` and the rest of the loop.
  abbrev goes_on_with : Event → List Event → M Receiver ArchiverState
  goes_on_with e es r =
      bind_result (handle_receive e r)
        (λ (next, bytes). receive_loop conn address garbage es next bytes)
