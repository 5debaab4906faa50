-- ===== src/Server/Query.antt =====
-- The messages of a client behind the startup (src/jobs/server.cxx): their headers, queries and their
-- execution.
use pg_backup_ctl_plus.Base.{
  ℕ, suc, ◌+◌, ◌-◌, ◌%◌, ◌^◌, Bool, true, false, not, ◌&&◌, ◌||◌, Option, none, some, List, [], ◌∷◌,
  ◌++◌, leb, ltb, ◌==◌, if◌then◌else◌, length,
}
use pg_backup_ctl_plus.Base.Result.{
  modify, tcp_server_failure, bad_alloc, undefined_behaviour, loop_bound, Error, Result, ok, err, M,
  ◌>>=◌, ◌>>◌, return, throw, lift, gets, guard,
}
use pg_backup_ctl_plus.Buffer.Memory.{Heap}
use pg_backup_ctl_plus.Buffer.Protocol.{allocate, read_buffer, write_buffer, write_byte, write_int}
use pg_backup_ctl_plus.Copy.State.{to_size}
use pg_backup_ctl_plus.Copy.Message.{c_string}
use pg_backup_ctl_plus.Server.Command.{Command, send_steps}
use pg_backup_ctl_plus.Server.Connection.{
  Text, Connection, ProtocolState, error_after_query, command_complete, process_query_execute,
  process_query_in_progress, read_header, read_body, error, detail, on_header, on_body, on_write,
  enter, start_read, start_write, msg, set_sqlstate, send_error, send_ready_for_query,
  reset_query_state, read_message_header,
}

-- A command that the parser has made: whether it needs an archive, and what its execution gives.
pub record Executable : Type 0 where
  pub needs_archive : Bool
  pub execution : Result Command

-- What PostgreSQLStreamingParser::parse makes of a text, the text of an exception, and how a stream
-- prints an unsigned int.
pub record Parser : Type 0 where
  pub parse : Text → Result (List Executable)
  pub what : Error → Text
  pub show_unsigned : ℕ → Text

-- PGProtoCmdTag
pub data CommandTag : Type 0 where
  insert_command : CommandTag
  update_command : CommandTag
  delete_command : CommandTag
  select_command : CommandTag
  move_command : CommandTag
  fetch_command : CommandTag
  copy_command : CommandTag
  unknown_command : CommandTag

abbrev pub tag_text : CommandTag → Text
tag_text insert_command = b'I' ∷ b'N' ∷ b'S' ∷ b'E' ∷ b'R' ∷ b'T' ∷ b' ' ∷ b'0' ∷ b' ' ∷ []
tag_text update_command = b'U' ∷ b'P' ∷ b'D' ∷ b'A' ∷ b'T' ∷ b'E' ∷ b' ' ∷ []
tag_text delete_command = b'D' ∷ b'E' ∷ b'L' ∷ b'E' ∷ b'T' ∷ b'E' ∷ b' ' ∷ []
tag_text select_command = b'S' ∷ b'E' ∷ b'L' ∷ b'E' ∷ b'C' ∷ b'T' ∷ b' ' ∷ []
tag_text move_command = b'M' ∷ b'O' ∷ b'V' ∷ b'E' ∷ b' ' ∷ []
tag_text fetch_command = b'F' ∷ b'E' ∷ b'T' ∷ b'C' ∷ b'H' ∷ b' ' ∷ []
tag_text copy_command = b'C' ∷ b'O' ∷ b'P' ∷ b'Y' ∷ b' ' ∷ []
tag_text unknown_command = b'U' ∷ b'N' ∷ b'K' ∷ b'N' ∷ b'O' ∷ b'W' ∷ b'N' ∷ b' ' ∷ []

abbrev pub syntax_error : Text
syntax_error = b'4' ∷ b'2' ∷ b'6' ∷ b'0' ∷ b'1' ∷ []

abbrev pub invalid_query : Text
invalid_query =
    b'c' ∷ b'o' ∷ b'u' ∷ b'l' ∷ b'd' ∷ b' ' ∷ b'n' ∷ b'o' ∷ b't' ∷ b' ' ∷ b'p' ∷ b'r' ∷ b'o' ∷ b'c'
    ∷ b'e' ∷ b's' ∷ b's' ∷ b' ' ∷ b'i' ∷ b'n' ∷ b'v' ∷ b'a' ∷ b'l' ∷ b'i' ∷ b'd' ∷ b' ' ∷ b'q'
    ∷ b'u' ∷ b'e' ∷ b'r' ∷ b'y' ∷ b' ' ∷ b's' ∷ b't' ∷ b'r' ∷ b'i' ∷ b'n' ∷ b'g' ∷ []

abbrev pub too_long : Text
too_long =
    b'q' ∷ b'u' ∷ b'e' ∷ b'r' ∷ b'y' ∷ b' ' ∷ b'e' ∷ b'x' ∷ b'c' ∷ b'e' ∷ b'e' ∷ b'd' ∷ b's' ∷ b' '
    ∷ b'm' ∷ b'a' ∷ b'x' ∷ b'i' ∷ b'm' ∷ b'u' ∷ b'm' ∷ b' ' ∷ b'q' ∷ b'u' ∷ b'e' ∷ b'r' ∷ b'y'
    ∷ b' ' ∷ b'l' ∷ b'e' ∷ b'n' ∷ b'g' ∷ b't' ∷ b'h' ∷ []

abbrev pub query_was : Text
query_was = b'q' ∷ b'u' ∷ b'e' ∷ b'r' ∷ b'y' ∷ b' ' ∷ b'w' ∷ b'a' ∷ b's' ∷ b':' ∷ b' ' ∷ []

abbrev pub catalog_only : Text
catalog_only =
    b'c' ∷ b'o' ∷ b'n' ∷ b'n' ∷ b'e' ∷ b'c' ∷ b't' ∷ b'e' ∷ b'd' ∷ b' ' ∷ b't' ∷ b'o' ∷ b' ' ∷ b'c'
    ∷ b'a' ∷ b't' ∷ b'a' ∷ b'l' ∷ b'o' ∷ b'g' ∷ b' ' ∷ b'o' ∷ b'n' ∷ b'l' ∷ b'y' ∷ b',' ∷ b' '
    ∷ b's' ∷ b't' ∷ b'r' ∷ b'e' ∷ b'a' ∷ b'm' ∷ b'i' ∷ b'n' ∷ b'g' ∷ b' ' ∷ b'A' ∷ b'P' ∷ b'I'
    ∷ b' ' ∷ b'c' ∷ b'o' ∷ b'm' ∷ b'm' ∷ b'a' ∷ b'n' ∷ b'd' ∷ b's' ∷ b' ' ∷ b'd' ∷ b'i' ∷ b's'
    ∷ b'a' ∷ b'b' ∷ b'l' ∷ b'e' ∷ b'd' ∷ []

abbrev pub nothing_to_do : Text
nothing_to_do =
    b'e' ∷ b'm' ∷ b'p' ∷ b't' ∷ b'y' ∷ b' ' ∷ b'c' ∷ b'o' ∷ b'm' ∷ b'm' ∷ b'a' ∷ b'n' ∷ b'd' ∷ b' '
    ∷ b'e' ∷ b'x' ∷ b'e' ∷ b'c' ∷ b'u' ∷ b't' ∷ b'i' ∷ b'o' ∷ b'n' ∷ b' ' ∷ b'q' ∷ b'u' ∷ b'e'
    ∷ b'u' ∷ b'e' ∷ b',' ∷ b' ' ∷ b'n' ∷ b'o' ∷ b't' ∷ b'h' ∷ b'i' ∷ b'n' ∷ b'g' ∷ b' ' ∷ b't'
    ∷ b'o' ∷ b' ' ∷ b'd' ∷ b'o' ∷ []

abbrev pub is_error_after_query : ProtocolState → Bool
is_error_after_query error_after_query = true
is_error_after_query s = false

-- The handlers take every exception of the program; what has no meaning stays so.
abbrev pub is_caught : Error → Bool
is_caught undefined_behaviour = false
is_caught loop_bound = false
is_caught e = true

-- The steps of a command: its columns, its rows, and the end.
abbrev pub steps_of : Command → ℕ
steps_of c = elim c.result_set [ none ↦ 1 | some s ↦ suc (suc (length s.row_values)) ]

module _ ⦃heap : Heap⦄ ⦃parser : Parser⦄ where
  -- PGProtoStreamingServer::_process_query_start, on the bit pattern of the length. `_send_error` leaves
  -- another state than the one that the caller asks for.
  unfoldable pub process_query_start : ℕ → M Connection ℕ
  unfolding msg set_sqlstate send_error
  process_query_start len = do
    let n = (len + 2 ^ 32 - 4) % 2 ^ 32
    (if n == 0 || leb (2 ^ 31) n then enter error_after_query else return tt)
    s ← gets (λ c. c.state)
    (if is_error_after_query s
        then (msg error invalid_query true >> (set_sqlstate syntax_error >> send_error))
        else enter process_query_execute)
    return n

  -- PGProtoStreamingServer::_send_command_complete
  unfoldable pub send_command_complete : CommandTag → ℕ → M Connection (Unit {0})
  unfolding allocate write_byte write_int write_buffer
  send_command_complete tag rows = do
    let text = tag_text tag ++ parser.show_unsigned rows
    let n = (4 + length text + 1) % 2 ^ 32
    on_write (allocate (n + 1))
    on_write (write_byte b'C')
    on_write (write_int n)
    on_write (write_buffer text)
    on_write (write_byte 0)
    enter command_complete

  -- The loop over the steps of a command, on a connection.
  unfoldable pub send_result : Command → M Connection (Unit {0})
  unfolding send_steps
  send_result command c =
      let (r, (o, command')) = send_steps (steps_of command) (c.outgoing, command) in
      (r, record c { outgoing = o })

  -- A command of the queue that may be executed.
  unfoldable pub run_command : Executable → M Connection (Unit {0})
  unfolding send_result send_command_complete start_write
  run_command e = do
    command ← lift e.execution
    enter process_query_in_progress
    send_result command
    send_command_complete select_command 0
    start_write

  -- The loop over the queue. The result is the text of an error, if there is one.
  unfoldable pub run_queue : List Executable → M Connection (Option Text)
  unfolding run_command
  run_queue [] = return none
  run_queue (e ∷ es) = do
    disabled ← gets (λ c. c.disable_streaming_commands)
    elim (e.needs_archive && disabled) [
      | true ↦ (enter error_after_query >> return (some catalog_only))
      | false ↦ (run_command e >>= λ u. run_queue es)
    ]

  unfoldable pub run_parsed : List Executable → M Connection (Option Text)
  unfolding run_queue
  run_parsed [] = enter error_after_query >> return (some nothing_to_do)
  run_parsed (e ∷ es) = run_queue (e ∷ es)

  -- The handlers of `_process_query_execute`.
  abbrev pub handled : Result (Option Text) × Connection → Result (Option Text) × Connection
  handled (ok t, c) = (ok t, c)
  handled (err e, c) =
      if is_caught e
      then (ok (some (parser.what e)), record c { state = error_after_query })
      else (err e, c)

  abbrev pub text_of : Option Text → Text
  text_of none = []
  text_of (some t) = t

  -- What follows the check of the length in `_process_query_execute`.
  unfoldable pub execute_query : ℕ → M Connection (Unit {0})
  unfolding read_buffer c_string run_parsed msg set_sqlstate send_error start_write
  execute_query n = do
    lift (elim (heap.new_char ((n + 1) % 2 ^ 64)) [ none ↦ err bad_alloc | some b ↦ ok tt ])
    bytes ← on_body (read_buffer n)
    query ←
        lift (elim (c_string (bytes ++ 0 ∷ [])) [ none ↦ err undefined_behaviour | some t ↦ ok t ])
    message ← (λ c. handled ((lift (parser.parse query) >>= run_parsed) c))
    s ← gets (λ c. c.state)
    if is_error_after_query s
        then (msg error (text_of message) true
            >> (msg detail (query_was ++ query) true
                >> (set_sqlstate syntax_error
                    >> (send_error >> (start_write >> enter error_after_query)))))
        else return tt

  -- PGProtoStreamingServer::_process_query_execute. A query that is too long is executed, too.
  unfoldable pub process_query : ℕ → M Connection (Unit {0})
  unfolding msg set_sqlstate send_error execute_query
  process_query n = do
    (if ltb 4096 n
        then (msg error invalid_query true
            >> (msg detail too_long true
                >> (set_sqlstate syntax_error >> (send_error >> enter error_after_query))))
        else return tt)
    execute_query n

  -- The case of a query of `process_message`.
  unfoldable pub query_message : M Connection (Unit {0})
  unfolding process_query_start process_query start_write send_ready_for_query reset_query_state
  query_message = do
    len ← gets (λ c. c.header_length)
    n ← process_query_start len
    s ← gets (λ c. c.state)
    if is_error_after_query s
        then start_write
        else (process_query (to_size n)
            >> (gets (λ c. c.state) >>= λ t.
                (send_ready_for_query
                  >> (start_write
                      >> (if is_error_after_query t then return tt else reset_query_state)))))

  -- The types of messages that are ignored: D, H, E, F, X, P, p, f and the null byte.
  abbrev pub is_ignored : ℕ → Bool
  is_ignored t =
      t == b'D'
      || t == b'H'
      || t == b'E'
      || t == b'F'
      || t == b'X'
      || t == b'P'
      || t == b'p'
      || t == b'f'
      || t == 0

  -- PGProtoStreamingServer::process_message
  unfoldable pub process_message : M Connection (Unit {0})
  unfolding query_message allocate
  process_message = do
    t ← gets (λ c. c.header_type)
    (if is_ignored t
        then return tt
        else if t == b'Q'
        then query_message
        else throw tcp_server_failure)
    on_header (allocate 5)
    start_read read_header

  -- PGProtoStreamingServer::pgproto_header_in. The result says whether the process exits; the length
  -- is unsigned, and its difference a size_t.
  unfoldable pub header_in : Bool → M Connection Bool
  unfolding read_message_header allocate
  header_in failed = elim failed [
    | true ↦ return false
    | false ↦
        (read_message_header >>= λ t.
        (gets (λ c. (c.header_length + 2 ^ 64 - 4) % 2 ^ 64) >>= λ n. (elim (ltb 0 n) [
          | true ↦ (on_body (allocate n) >> (start_read read_body >> return false))
          | false ↦ return (t == b'X')
        ])))
  ]

-- PGProtoStreamingServer::pgproto_msg_out, the handler at the end of a write.
unfoldable pub msg_out : Bool → M Connection (Unit {0})
msg_out failed = do
  modify (λ c. record c { outgoing = record c.outgoing { finished = suc c.outgoing.finished } })
  guard (not failed) tcp_server_failure
