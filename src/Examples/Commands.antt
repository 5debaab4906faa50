-- ===== src/Examples/Commands.antt =====
-- The recovery server at concrete inputs.
use pg_backup_ctl_plus.Base.{
  ℕ, ◌+◌, ◌^◌, ◌<◌, ◌≡◌, refl, some, List, [], ◌∷◌, arith, map, replicate, lt→ltb, ap, ◌%◌,
}
use pg_backup_ctl_plus.Base.Int.{pos}
use pg_backup_ctl_plus.Base.Result.{ok, err, failure}
use pg_backup_ctl_plus.Buffer.Protocol.{ProtocolBuffer}
use pg_backup_ctl_plus.Buffer.Protocol.Content.{holding}
use pg_backup_ctl_plus.Server.ResultSet.{write_row}
use pg_backup_ctl_plus.Server.ResultSet.Sent.{descriptor_message, row_message}
use pg_backup_ctl_plus.Server.ResultSet.Refused.{write_row-empty_last}
use pg_backup_ctl_plus.Server.Command.{
  Command, Outgoing, Listed, Printer, column, list_basebackups, prepare_list_of_backups, send_steps,
}
use pg_backup_ctl_plus.Server.Command.Listing.{list_columns, list_row, list_basebackups-writes}
use pg_backup_ctl_plus.Base.{false}
use pg_backup_ctl_plus.Buffer.ErrorStack.{new_error_stack}
use pg_backup_ctl_plus.Server.Connection.{Text, Connection, read_startup_guc, initial_read_body}
use pg_backup_ctl_plus.Server.Startup.{Outside, find_guc, read_startup_gucs}
use pg_backup_ctl_plus.Server.Startup.Parameters.{first_value, arrived, read_startup_gucs-packet}
use pg_backup_ctl_plus.Base.{true, ◌++◌}
use pg_backup_ctl_plus.Server.Connection.{Instance, ready_for_query_wait, read_header}
use pg_backup_ctl_plus.Server.Connection.Replies.{
  authentication_message, status_message, key_message, ready_message,
}
use pg_backup_ctl_plus.Server.Startup.{greet}
use pg_backup_ctl_plus.Server.Startup.Greeting.{notice_message, greet-writes}
use pg_backup_ctl_plus.Examples.Settings.{refusing}
use pg_backup_ctl_plus.Examples.Messages.{zeros, new_zeros}

instance abbrev printer : Printer
printer = record { show_int = λ i. b'1' ∷ []; show_unsigned = λ n. b'1' ∷ [] }

grants : (n : ℕ) → n < 2 ^ 31 → (b : List ℕ) × (zeros.new_char n ≡ some b)
grants n h = (replicate n 0, ap (new_zeros n) (lt→ltb n (2 ^ 64) (omega arith)))

abbrev listed : Listed
listed = record {
  id = pos 1;
  timeline = 1;
  systemid = [];
  xlogpos = [];
  fsentry = b'f' ∷ [];
  started = [];
  duration = b'd' ∷ [];
}

abbrev outgoing : Outgoing
outgoing = record { write_buffer = holding 1 (0 ∷ []) []; started = []; finished = 0 }

list_basebackups-writes_example :
    (c c' : Command) × (p : ProtocolBuffer) × (prepare_list_of_backups
        (listed ∷ listed ∷ [])
        list_basebackups
      ≡ (ok tt, c))
    × (send_steps ⦃heap = zeros⦄ 4 (outgoing, c) ≡ (
      ok tt,
      (
        record {
          write_buffer = p;
          started =
              descriptor_message list_columns
              ∷ row_message (list_row listed)
              ∷ row_message (list_row listed)
              ∷ [];
          finished = 0;
        },
        c',
      ),
    ))
list_basebackups-writes_example =
    list_basebackups-writes ⦃heap = zeros⦄ grants (listed ∷ listed ∷ []) outgoing
      ((omega arith, omega arith), ((omega arith, omega arith), tt))

write_row-empty_last_example :
    (write_row ⦃heap = zeros⦄
      (record { row_size = 9; values = column (b'1' ∷ []) ∷ column [] ∷ [] })
      outgoing.write_buffer).0
    ≡ err failure
write_row-empty_last_example =
    write_row-empty_last ⦃heap = zeros⦄ (column (b'1' ∷ []) ∷ []) 0 outgoing.write_buffer
      (replicate 16 0) (refl, (refl, tt)) (omega arith) refl

instance abbrev outside : Outside
outside = record { to_lower = map (λ b. b % 32 + 96); attach = λ name id. ok tt }

abbrev connected : Connection
connected = record {
  state = read_startup_guc;
  header_buffer = holding 1 (0 ∷ []) [];
  body_buffer = holding 1 (0 ∷ []) [];
  outgoing = outgoing;
  errm = new_error_stack;
  startup_gucs = [];
  disable_streaming_commands = false;
  header_type = 0;
  header_length = 0;
  processed_rows = 0;
  configuration = record { variables = []; calls = [] };
  pending = initial_read_body;
}

abbrev parameters : List (Text × Text)
parameters = (b'a' ∷ b'b' ∷ [], b'x' ∷ []) ∷ (b'c' ∷ [], b'y' ∷ b'z' ∷ []) ∷ []

read_startup_gucs-packet_example :
    (m : List (Text × Text)) × (read_startup_gucs (arrived connected parameters 11)
      ≡ (ok tt, record (arrived connected parameters 11) { startup_gucs = m }))
    × ((k : Text) → find_guc k m ≡ first_value k parameters)
read_startup_gucs-packet_example =
    read_startup_gucs-packet connected parameters 11
      (
        (omega arith, (omega arith, (omega arith, tt))),
        (omega arith, (omega arith, tt)),
        ((omega arith, (omega arith, tt)), (omega arith, (omega arith, (omega arith, tt))), tt),
      )
      refl

abbrev catalog_connection : Connection
catalog_connection = record connected { disable_streaming_commands = true }

abbrev this_server : Instance
this_server = record { version = b'1' ∷ b'7' ∷ []; pid = 4711 }

greet-writes_example :
    (c : Connection) × (greet ⦃heap = zeros⦄ this_server catalog_connection ≡ (ok tt, c))
    × (c.outgoing.started
        ≡ []
          ++ authentication_message
            ∷ notice_message
            ∷ status_message (b'1' ∷ b'7' ∷ [])
            ∷ key_message 4711
            ∷ ready_message
            ∷ [])
    × (c.outgoing.finished ≡ 0)
    × (c.state ≡ ready_for_query_wait)
    × (c.pending ≡ read_header)
    × (c.header_buffer.memory.size ≡ 5)
greet-writes_example =
    greet-writes ⦃heap = zeros⦄ grants this_server catalog_connection refl (omega arith)
