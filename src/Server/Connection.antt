-- ===== src/Server/Connection.antt =====
-- Class PGProtoStreamingServer (src/jobs/server.cxx): the state of a connection of the recovery
-- server, and the messages that it makes. A write is noted with what the buffer holds when it is started.
pub mod Replies
use pg_backup_ctl_plus.Base.{
  ℕ, ◌+◌, ◌-◌, ◌%◌, ◌^◌, Bool, true, false, not, none, List, [], ◌∷◌, ltb, ◌==◌, if◌then◌else◌,
  length,
}
use pg_backup_ctl_plus.Base.Result.{
  tcp_server_failure, M, ◌>>=◌, ◌>>◌, return, lift, modify, gets, guard,
}
use pg_backup_ctl_plus.Buffer.Memory.{Heap}
use pg_backup_ctl_plus.Buffer.Memory
use pg_backup_ctl_plus.Buffer.Protocol.{
  ProtocolBuffer, allocate, write_buffer, write_byte, write_int, read_byte, read_int,
}
use pg_backup_ctl_plus.Buffer.ErrorStack.{ErrorStack, push, to_buffer, new_error_stack}
use pg_backup_ctl_plus.Config.Runtime.{Configuration}
use pg_backup_ctl_plus.Server.Command.{Outgoing}
use pg_backup_ctl_plus.Server.Command

abbrev pub Text : Type 0
Text = List ℕ

-- PostgreSQLProtocolState
pub data ProtocolState : Type 0 where
  startup : ProtocolState
  startup_ssl_no : ProtocolState
  startup_ssl_ok : ProtocolState
  auth : ProtocolState
  read_startup_guc : ProtocolState
  ready_for_query : ProtocolState
  ready_for_query_wait : ProtocolState
  send_backend_key_state : ProtocolState
  error_condition : ProtocolState
  notice_condition : ProtocolState
  error_after_query : ProtocolState
  command_complete : ProtocolState
  process_query_start_state : ProtocolState
  process_query_result : ProtocolState
  process_query_execute : ProtocolState
  process_query_in_progress : ProtocolState

-- The read that is under way, whose handler is called when as many bytes have arrived.
pub data Pending : Type 0 where
  no_read : Pending
  initial_read : Pending
  initial_read_body : Pending
  read_header : Pending
  read_body : Pending

pub record Connection : Type 0 where
  pub state : ProtocolState
  pub header_buffer : ProtocolBuffer
  pub body_buffer : ProtocolBuffer
  pub outgoing : Outgoing
  pub errm : ErrorStack
  pub startup_gucs : List (Text × Text)
  pub disable_streaming_commands : Bool
  pub header_type : ℕ
  pub header_length : ℕ
  pub processed_rows : ℕ
  pub configuration : Configuration
  pub pending : Pending

-- What the server is given: its version text, the number of its process, and its worker and child.
pub record Instance : Type 0 where
  pub version : Text
  pub pid : ℕ

-- Calls on the parts of a connection.
abbrev pub on_header : {A : Type 0} → M ProtocolBuffer A → M Connection A
on_header m c = let (r, b) = m c.header_buffer in (r, record c { header_buffer = b })

abbrev pub on_body : {A : Type 0} → M ProtocolBuffer A → M Connection A
on_body m c = let (r, b) = m c.body_buffer in (r, record c { body_buffer = b })

abbrev pub on_outgoing : {A : Type 0} → M Outgoing A → M Connection A
on_outgoing m c = let (r, o) = m c.outgoing in (r, record c { outgoing = o })

abbrev pub on_write : {A : Type 0} → M ProtocolBuffer A → M Connection A
on_write m c =
    let (r, b) = m c.outgoing.write_buffer in
    (r, record c { outgoing = record c.outgoing { write_buffer = b } })

abbrev pub enter : ProtocolState → M Connection (Unit {0})
enter s = modify (λ c. record c { state = s })

abbrev pub start_read : Pending → M Connection (Unit {0})
start_read p = modify (λ c. record c { pending = p })

unfoldable pub start_write : M Connection (Unit {0})
unfolding Command.start_write
start_write = on_outgoing Command.start_write

-- PGErrorSeverity
pub data Severity : Type 0 where
  error : Severity
  fatal : Severity
  warning : Severity
  detail : Severity
  notice : Severity
  other_severity : Severity

abbrev pub push_field : ℕ → Text → M Connection (Unit {0})
push_field t v = modify (λ c. record c { errm = push (record { type = t; value = v }) c.errm })

abbrev pub severity_type : Bool → ℕ
severity_type true = b'S'
severity_type false = b'V'

-- PGProtoStreamingServer::msg
unfoldable pub msg : Severity → Text → Bool → M Connection (Unit {0})
unfolding push
msg error m t = do
  push_field (severity_type t) (b'E' ∷ b'R' ∷ b'R' ∷ b'O' ∷ b'R' ∷ [])
  push_field b'M' m
msg fatal m t = do
  push_field (severity_type t) (b'F' ∷ b'A' ∷ b'T' ∷ b'A' ∷ b'L' ∷ [])
  push_field b'M' m
msg warning m t = do
  push_field (severity_type t) (b'W' ∷ b'A' ∷ b'R' ∷ b'N' ∷ b'I' ∷ b'N' ∷ b'G' ∷ [])
  push_field b'M' m
msg detail m t = push_field b'D' m
msg notice m t = do
  push_field (severity_type t) (b'N' ∷ b'O' ∷ b'T' ∷ b'I' ∷ b'C' ∷ b'E' ∷ [])
  push_field b'M' m
msg other_severity m t = return tt

-- PGProtoStreamingServer::set_sqlstate
unfoldable pub set_sqlstate : Text → M Connection (Unit {0})
unfolding push
set_sqlstate s = push_field b'C' s

-- PGProtoStreamingServer::clearErrorStack, which pops until the stack is empty.
unfoldable pub clear_error_stack : M Connection (Unit {0})
clear_error_stack =
    modify (λ c. record c { errm = elim c.errm.es [ [] ↦ c.errm | f ∷ fs ↦ new_error_stack ] })

-- PGProtoStreamingServer::resetQueryState
unfoldable pub reset_query_state : M Connection (Unit {0})
unfolding clear_error_stack
reset_query_state = do modify (λ c. record c { processed_rows = 0 }); clear_error_stack

abbrev pub server_version : Text
server_version =
    b's' ∷ b'e' ∷ b'r' ∷ b'v' ∷ b'e' ∷ b'r' ∷ b'_' ∷ b'v' ∷ b'e' ∷ b'r' ∷ b's' ∷ b'i' ∷ b'o' ∷ b'n'
    ∷ []

-- A buffer that the default constructor made.
abbrev pub new_buffer : ProtocolBuffer
new_buffer = record { memory = record { block = none; size = 0 }; curr_pos = 0 }

module _ ⦃heap : Heap⦄ where
  abbrev pub stack_to_buffer : Bool → M Connection ℕ
  stack_to_buffer e c =
      let (r, (b, s)) = to_buffer e (c.outgoing.write_buffer, c.errm) in
      (r, record c { outgoing = record c.outgoing { write_buffer = b }; errm = s })

  -- PGProtoStreamingServer::_send_error
  unfoldable pub send_error : M Connection (Unit {0})
  unfolding to_buffer
  send_error = do stack_to_buffer true; enter error_condition

  -- PGProtoStreamingServer::_send_notice
  unfoldable pub send_notice : M Connection (Unit {0})
  unfolding to_buffer
  send_notice = do stack_to_buffer false; enter notice_condition

  -- PGProtoStreamingServer::_send_AuthenticationOK
  unfoldable pub send_authentication_ok : M Connection (Unit {0})
  unfolding allocate write_byte write_int
  send_authentication_ok = do
    on_write (allocate 9)
    on_write (write_byte b'R')
    on_write (write_int 8)
    on_write (write_int 0)
    enter auth

  -- PGProtoStreamingServer::_send_BackendKey
  unfoldable pub send_backend_key : ℕ → M Connection (Unit {0})
  unfolding allocate write_byte write_int
  send_backend_key pid = do
    on_write (allocate 13)
    on_write (write_byte b'K')
    on_write (write_int 12)
    on_write (write_int pid)
    on_write (write_int 1234)
    enter ready_for_query

  -- PGProtoStreamingServer::_send_ReadyForQuery
  unfoldable pub send_ready_for_query : M Connection (Unit {0})
  unfolding allocate write_byte write_int
  send_ready_for_query = do
    on_write (allocate 6)
    on_write (write_byte b'Z')
    on_write (write_int 5)
    on_write (write_byte b'I')
    enter ready_for_query_wait

  -- PGProtoStreamingServer::_parameter_to_buffer
  unfoldable pub parameter_to_buffer : Text → Text → M ProtocolBuffer (Unit {0})
  unfolding allocate write_buffer write_byte
  parameter_to_buffer key val = if length key == 0 then return tt else (do
    allocate ((length key + length val + 2) % 2 ^ 64)
    write_buffer key
    write_byte 0
    write_buffer val
    write_byte 0
    return tt)

  -- PGProtoStreamingServer::_send_ParameterStatus. The parameters are made in a buffer of its own.
  unfoldable pub send_parameter_status : Text → M Connection (Unit {0})
  unfolding parameter_to_buffer Memory.ptr allocate write_byte write_int write_buffer
  send_parameter_status version =
      let (r, temp) = parameter_to_buffer server_version version new_buffer in
      (do
        lift r
        parameters ← lift (Memory.ptr temp.memory).0
        let size = (4 + temp.memory.size) % 2 ^ 32
        on_write (allocate ((5 + (size + 2 ^ 64 - 4) % 2 ^ 64) % 2 ^ 64))
        on_write (write_byte b'S')
        on_write (write_int size)
        on_write (write_buffer parameters)
        enter send_backend_key_state)

-- PGProtoStreamingServer::_read_message_header
unfoldable pub read_message_header : M Connection ℕ
unfolding read_byte read_int
read_message_header = do
  size ← gets (λ c. c.header_buffer.memory.size)
  guard (not (ltb size 5)) tcp_server_failure
  at ← gets (λ c. c.header_buffer.curr_pos)
  guard (at == 0) tcp_server_failure
  t ← on_header read_byte
  modify (λ c. record c { header_type = t })
  n ← on_header read_int
  modify (λ c. record c { header_length = n })
  return t
