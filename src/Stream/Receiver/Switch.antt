-- ===== src/Stream/Receiver/Switch.antt =====
-- A timeline switch, from the end of a stream to the start of the next one
-- (src/backup/backupprocesses.cxx).
use pg_backup_ctl_plus.Base.{
  ◌≤◌, ℕ, ◌≡◌, refl, ap, ◌∙◌, true, false, some, List, [], ◌∷◌, ◌++◌, arith,
}
use pg_backup_ctl_plus.Base.Int.{unsigned}
use pg_backup_ctl_plus.Base.Result.{ok, bind_result, ◌>>◌}
use pg_backup_ctl_plus.Buffer.Memory.{Heap}
use pg_backup_ctl_plus.Wal.Position.{XlogMacros}
use pg_backup_ctl_plus.Stream.Message.{Connection}
use pg_backup_ctl_plus.Stream.LogBackup.{Os, SegmentNumbers}
use pg_backup_ctl_plus.Stream.Receiver.{
  progress_streaming, progress_timeline_switch, streaming, timeline_switch, end_position, Receiver,
  Event, receive,
}
use pg_backup_ctl_plus.Stream.Receiver.Ending.{
  Goodbye, PgResult, Server, StreamProcess, copy_in, copy_both, tuples_ok, state_of, become_with,
  switched, start_command, leave_receive, receive_all, end_position_reached, handle_end_of_stream,
  end_copy, end_of_stream_timeline_switch, start,
}

-- The server offers a new timeline: the COPY can be ended, and a row with the timeline and its start
-- follows.
pub record OffersSwitch (g : Goodbye) (r : PgResult) : Type 0 where
  pub follows : PgResult
  pub first_result_eq : g.first_result ≡ some follows
  pub follows_copy_in : follows.result_status ≡ copy_in
  pub end_sent_eq : g.end_sent ≡ true
  pub flush_failed_eq : g.flush_failed ≡ false
  pub last_result_eq : g.last_result ≡ some r
  pub is_tuples : r.result_status ≡ tuples_ok
  pub has_fields : 2 ≤ r.nfields
  pub has_tuple : r.ntuples ≡ 1

module _ ⦃server : Server⦄ (g : Goodbye) (r : PgResult) (p : StreamProcess) where
  ended :
      OffersSwitch g r
      → state_of p ≡ end_position
      → handle_end_of_stream g p
        ≡ (ok (some r), become_with timeline_switch progress_timeline_switch p)
  unfolding handle_end_of_stream end_copy
  ended o s = ground arith

  left :
      OffersSwitch g r
      → state_of p ≡ end_position
      → leave_receive g p
        ≡ (ok true, become_with timeline_switch progress_timeline_switch (switched r p))
  unfolding leave_receive end_position_reached end_of_stream_timeline_switch
  left o s = ground (arith, ended o s)

-- The process behind the loop.
abbrev pub behind_loop : StreamProcess → Receiver → StreamProcess
behind_loop p q = record p { receiver = q }

-- The process with the timeline and the position of the row that the server answers with.
abbrev pub at_offer : ⦃server : Server⦄ → PgResult → StreamProcess → StreamProcess
at_offer ⦃server⦄ r p = record p {
  receiver = record p.receiver {
    streamident = record p.receiver.streamident {
      timeline = unsigned (server.read_int r.first_value);
      xlogpos = r.second_value;
    };
  };
}

module _ ⦃os : Os⦄ ⦃macros : XlogMacros⦄ ⦃segments : SegmentNumbers⦄ ⦃heap : Heap⦄ ⦃server : Server⦄
    (conn : Connection) (address garbage : ℕ) (g : Goodbye) (r : PgResult) (p : StreamProcess)
    (q : Receiver) where
  -- Where the loop of receive ends at the end of the COPY, and the server accepts the end, answers
  -- with a row for a new timeline, and accepts the next START_REPLICATION, receive tells its caller to
  -- go on, and start then sends exactly the command for the slot at the offered timeline and
  -- position and streams again.
  pub receive_all-starts :
      (first : Event) (es : List Event)
      → receive conn address garbage first es p.receiver ≡ (ok end_position, q)
      → q.current_state ≡ end_position
      → OffersSwitch g r
      → server.execute (start_command (at_offer r (behind_loop p q))) ≡ copy_both
      → ((receive_all conn address garbage first es g p).0 ≡ ok true)
        × ((receive_all conn address garbage first es g >> start) p ≡ (
          ok tt,
          become_with streaming progress_streaming (record (at_offer r (behind_loop p q)) {
            commands = p.commands ++ start_command (at_offer r (behind_loop p q)) ∷ [];
          }),
        ))
  unfolding receive_all start
  receive_all-starts first es l s o e =
      let t = left g r (behind_loop p q) o s in
      (rw l (ap (λ x. x.0) t), rw l (ap (λ x. bind_result x (λ b. start)) t ∙ (rw e refl)))
