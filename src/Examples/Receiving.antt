-- ===== src/Examples/Receiving.antt =====
-- Receiving WAL at concrete inputs.
use pg_backup_ctl_plus.Base.{
  ◌+◌, ◌-◌, ◌*◌, ◌≡◌, refl, true, false, none, some, List, [], ◌∷◌, arith, replicate,
}
use pg_backup_ctl_plus.Base.Int.{pos}
use pg_backup_ctl_plus.Base.Result.{ok, ◌>>◌}
use pg_backup_ctl_plus.Stream.Decode.{buffer_of, data_bytes}
use pg_backup_ctl_plus.Stream.LogBackup.{LogBackup, LogItem}
use pg_backup_ctl_plus.Stream.LogBackup
use pg_backup_ctl_plus.Stream.LogBackup.Files.{logging, open_item}
use pg_backup_ctl_plus.Stream.LogBackup.Stored.{Outcome}
use pg_backup_ctl_plus.Base.{ℕ}
use pg_backup_ctl_plus.Stream.Receiver.{
  progress_streaming, streaming_intr, copied_bytes, streaming, end_position, StreamIdent, Receiver,
  Event, no_data, end_of_copy, poll_state, process, receive, handle_receive, receive_loop,
}
use pg_backup_ctl_plus.Stream.Receiver.Handled.{
  receiving, stored_state, read_message, process-stores,
}
use pg_backup_ctl_plus.Stream.Receiver.Ending.{
  Goodbye, PgResult, Server, StreamProcess, copy_in, copy_both, tuples_ok, become_with,
  start_command, receive_all, start,
}
use pg_backup_ctl_plus.Stream.Receiver.Switch.{
  OffersSwitch, at_offer, behind_loop, receive_all-starts,
}
use pg_backup_ctl_plus.Examples.Data.{modulo}
use pg_backup_ctl_plus.Examples.Messages.{zeros, open_connection}
use pg_backup_ctl_plus.Examples.Segments.{
  granting, dividing, four-IsSegmentSize, files, files-Ready,
}

abbrev ident : StreamIdent
ident = record {
  xlogpos = [];
  timeline = 1;
  wal_segment_size = 4;
  write_pos_start_offset = 0;
  flush_position = 0;
  write_position = 10;
  apply_position = 0;
  server_position = 10;
  last_reported_flush_position = 8;
  status = progress_streaming;
}

abbrev receiver : Receiver
receiver = record {
  current_state = streaming;
  streamident = ident;
  backup_handler = none;
  receive_buffer = record { block = none; size = 0 };
  sent = [];
}

abbrev items : List LogItem
items = open_item 1 2 2 true true ∷ []

process-stores_example :
    (o : Outcome 4 1 7 2 2 0 files (7 ∷ 8 ∷ 9 ∷ []) (
      LogBackup.write ⦃os = granting⦄ ⦃macros = modulo⦄ ⦃segments = dividing⦄
        (some (
          read_message ⦃os = granting⦄ ⦃macros = modulo⦄ ⦃segments = dividing⦄ ⦃heap = zeros⦄ 4
            (2 * 4 + 2)
            20
            4096
            (7 ∷ 8 ∷ 9 ∷ [])))
        1
        (logging 4 7 items files)))
    × (process ⦃os = granting⦄ ⦃macros = modulo⦄ ⦃segments = dividing⦄ ⦃heap = zeros⦄
          open_connection 4096 0 5
          (data_bytes (2 * 4 + 2) 20 5 (7 ∷ 8 ∷ 9 ∷ []))
          (receiving receiver (logging 4 7 items files))
        ≡ (
          ok tt,
          stored_state ⦃os = granting⦄ ⦃macros = modulo⦄ ⦃segments = dividing⦄
              (record receiver {
                receive_buffer = buffer_of (data_bytes (2 * 4 + 2) 20 5 (7 ∷ 8 ∷ 9 ∷ []));
              })
              (2 * 4 + 2)
              20
              (o.segment * 4 + o.offset)
              o.flushed
              (logging 4 (7 + (o.segment - 2)) o.items o.files),
        ))
process-stores_example =
    process-stores ⦃os = granting⦄ ⦃macros = modulo⦄ ⦃segments = dividing⦄ ⦃heap = zeros⦄
      open_connection 4096 0 5 receiver 4 7 2 2 true items files 20 5 (7 ∷ 8 ∷ 9 ∷ [])
      (replicate 28 0) (replicate 3 0) four-IsSegmentSize refl (λ c. refl) files-Ready (omega arith)
      (omega arith) (omega arith) refl refl

abbrev quiet : Event
quiet = record {
  stop = false;
  overdue = false;
  time_us = 5;
  first_get = no_data;
  poll = poll_state streaming;
  consumed = true;
  second_get = no_data;
}

-- An event at which bytes arrive while a signal interrupts the wait.
abbrev disturbed : List ℕ → Event
disturbed bs = record quiet { poll = poll_state streaming_intr; second_get = copied_bytes bs }

abbrev disturbances : List Event
disturbances = disturbed (b'w' ∷ []) ∷ quiet ∷ disturbed (data_bytes 10 20 5 (7 ∷ [])) ∷ []

-- A server that ends its stream and offers timeline 2.
abbrev two_at_1 : PgResult
two_at_1 = record {
  result_status = tuples_ok;
  nfields = 2;
  ntuples = 1;
  first_value = b'2' ∷ [];
  second_value = b'0' ∷ b'/' ∷ b'1' ∷ [];
}

abbrev goodbye : Goodbye
goodbye = record {
  first_result = some (record two_at_1 { result_status = copy_in });
  end_sent = true;
  flush_failed = false;
  last_result = some two_at_1;
}

instance abbrev accepting : Server
accepting = record {
  escape = λ t. t;
  execute = λ t. copy_both;
  read_int = λ t. pos 2;
  show_unsigned = λ n. b'2' ∷ [];
}

abbrev stream_process : StreamProcess
stream_process = record { receiver = receiver; slot_name = b's' ∷ []; commands = [] }

abbrev at_end : Receiver
at_end = record receiver { current_state = end_position }

offers : OffersSwitch goodbye two_at_1
offers = record {
  follows = record two_at_1 { result_status = copy_in };
  first_result_eq = refl;
  follows_copy_in = refl;
  end_sent_eq = refl;
  flush_failed_eq = refl;
  last_result_eq = refl;
  is_tuples = refl;
  has_fields = omega arith;
  has_tuple = refl;
}

-- The copy ends at once.
abbrev ending : Event
ending = record quiet { first_get = end_of_copy }

loop_ends :
    receive ⦃os = granting⦄ ⦃macros = modulo⦄ ⦃segments = dividing⦄ ⦃heap = zeros⦄ open_connection
      4096 0 ending [] receiver
    ≡ (ok end_position, at_end)
unfolding receive handle_receive receive_loop
loop_ends = refl

receive_all-starts_example :
    ((receive_all ⦃os = granting⦄ ⦃macros = modulo⦄ ⦃segments = dividing⦄ ⦃heap = zeros⦄
        open_connection 4096 0 ending [] goodbye stream_process).0
      ≡ ok true)
    × ((receive_all ⦃os = granting⦄ ⦃macros = modulo⦄ ⦃segments = dividing⦄ ⦃heap = zeros⦄
              open_connection 4096 0 ending [] goodbye
            >> start)
          stream_process
        ≡ (
          ok tt,
          become_with streaming progress_streaming
              (record (at_offer two_at_1 (behind_loop stream_process at_end)) {
                commands =
                    start_command (at_offer two_at_1 (behind_loop stream_process at_end)) ∷ [];
              }),
        ))
receive_all-starts_example =
    receive_all-starts ⦃os = granting⦄ ⦃macros = modulo⦄ ⦃segments = dividing⦄ ⦃heap = zeros⦄
      open_connection 4096 0 goodbye two_at_1 stream_process at_end ending [] loop_ends refl offers
      refl
