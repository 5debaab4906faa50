-- ===== src/Server/Startup.antt =====
-- The startup of a connection (src/jobs/server.cxx): the startup message, its parameters, and what is
-- answered.
pub mod Parameters
pub mod Greeting
use pg_backup_ctl_plus.Base.{
  ℕ, zero, suc, ◌+◌, ◌-◌, ◌/◌, ◌%◌, ◌^◌, Bool, true, false, not, ◌&&◌, ◌||◌, Option, none, some,
  List, [], ◌∷◌, ◌++◌, leb, ltb, ◌==◌, if◌then◌else◌, length, take, eq_text,
}
use pg_backup_ctl_plus.Base.Int.{ℤ, pos, negsuc}
use pg_backup_ctl_plus.Base.Result.{
  tcp_server_failure, catalog_issue, failure, undefined_behaviour, Error, Result, ok, err, M, ◌>>=◌,
  ◌>>◌, return, throw, lift, modify, gets, guard, bind_result,
}
use pg_backup_ctl_plus.Buffer.Memory.{Heap}
use pg_backup_ctl_plus.Buffer.Memory
use pg_backup_ctl_plus.Buffer.Protocol.{allocate, read_int}
use pg_backup_ctl_plus.Copy.State.{to_size}
use pg_backup_ctl_plus.Config.Variable.{Surroundings, get_int}
use pg_backup_ctl_plus.Config.Runtime.{Configuration, create_string, get}
use pg_backup_ctl_plus.Server.Connection.{
  Text, Connection, Pending, initial_read, initial_read_body, read_header, read_body,
  startup_ssl_no, startup_ssl_ok, read_startup_guc, ProtocolState, Severity, fatal, notice,
  Instance, on_header, on_body, on_write, enter, start_read, start_write, msg, set_sqlstate,
  send_error, send_notice, send_authentication_ok, send_backend_key, send_ready_for_query,
  send_parameter_status,
}

-- A std::map: an insertion changes nothing where the key is there.
unfoldable pub find_guc : Text → List (Text × Text) → Option Text
find_guc k [] = none
find_guc k ((j, v) ∷ m) = if eq_text j k then some v else find_guc k m

unfoldable pub insert_guc : Text → Text → List (Text × Text) → List (Text × Text)
unfolding find_guc
insert_guc k v m = elim (find_guc k m) [ none ↦ m ++ (k, v) ∷ [] | some w ↦ m ]

-- What the boost libraries do to a text in to_lower, and what the catalog answers to the attachment of
-- a basebackup, by its name, its archive.
pub record Outside : Type 0 where
  pub to_lower : Text → Text
  pub attach : Text → ℤ → Result (Unit {0})

-- The variables of the loop of `_read_startup_gucs`: the bytes from `start_byte` on, whether a key is
-- awaited, and the key.
pub record Scan : Type 0 where
  pub since : Text
  pub is_key : Bool
  pub key : Text
  pub gucs : List (Text × Text)

abbrev pub is_empty : Text → Bool
is_empty [] = true
is_empty (b ∷ bs) = false

module _ ⦃outside : Outside⦄ where
  -- The end of a text: a key or a value.
  unfoldable pub end_text : Scan → Scan
  unfolding insert_guc
  end_text s =
      if s.is_key
      then record s { since = []; is_key = false; key = outside.to_lower s.since }
      else record s { since = []; is_key = true; gucs = insert_guc s.key s.since s.gucs }

  -- A round of the loop.
  unfoldable pub scan_byte : ℕ → Scan → Scan
  unfolding end_text
  scan_byte b s =
      if not (is_empty s.since) && (b == 0)
      then end_text s
      else record s { since = s.since ++ b ∷ [] }

  unfoldable pub scan_bytes : List ℕ → Scan → Scan
  unfolding scan_byte
  scan_bytes [] s = s
  scan_bytes (b ∷ bs) s = scan_bytes bs (scan_byte b s)

  -- PGProtoStreamingServer::_read_startup_gucs. The last byte is left out; an empty buffer is read
  -- beyond its end.
  unfoldable pub read_startup_gucs : M Connection (Unit {0})
  unfolding scan_bytes Memory.ptr
  read_startup_gucs = do
    bytes ← on_body (λ p. ((Memory.ptr p.memory).0, p))
    size ← gets (λ c. c.body_buffer.memory.size)
    guard (not (size == 0)) undefined_behaviour
    modify (λ c. record c {
      startup_gucs =
          (scan_bytes (take (size - 1) bytes)
            (record { since = []; is_key = true; key = []; gucs = c.startup_gucs })).gucs;
    })

abbrev pub disable : M Connection (Unit {0})
disable = modify (λ c. record c { disable_streaming_commands = true })

abbrev pub database : Text
database = b'd' ∷ b'a' ∷ b't' ∷ b'a' ∷ b'b' ∷ b'a' ∷ b's' ∷ b'e' ∷ []

abbrev pub catalog : Text
catalog = b'c' ∷ b'a' ∷ b't' ∷ b'a' ∷ b'l' ∷ b'o' ∷ b'g' ∷ []

abbrev pub variable : Text → Text
variable rest =
    b'r' ∷ b'e' ∷ b'c' ∷ b'o' ∷ b'v' ∷ b'e' ∷ b'r' ∷ b'y' ∷ b'_' ∷ b'i' ∷ b'n' ∷ b's' ∷ b't' ∷ b'a'
    ∷ b'n' ∷ b'c' ∷ b'e' ∷ b'.' ∷ rest

abbrev pub basebackup_path : Text
basebackup_path = variable (
    b'b' ∷ b'a' ∷ b's' ∷ b'e' ∷ b'b' ∷ b'a' ∷ b'c' ∷ b'k' ∷ b'u' ∷ b'p' ∷ b'_' ∷ b'p' ∷ b'a' ∷ b't'
    ∷ b'h' ∷ [])

abbrev pub archive_id : Text
archive_id = variable (b'a' ∷ b'r' ∷ b'c' ∷ b'h' ∷ b'i' ∷ b'v' ∷ b'e' ∷ b'_' ∷ b'i' ∷ b'd' ∷ [])

abbrev pub on_configuration : {A : Type 0} → M Configuration A → M Connection A
on_configuration m c = let (r, k) = m c.configuration in (r, record c { configuration = k })

abbrev pub does_not_exist : Text
does_not_exist =
    b'r' ∷ b'e' ∷ b'q' ∷ b'u' ∷ b'e' ∷ b's' ∷ b't' ∷ b'e' ∷ b'd' ∷ b' ' ∷ b'b' ∷ b'a' ∷ b's' ∷ b'e'
    ∷ b'b' ∷ b'a' ∷ b'c' ∷ b'k' ∷ b'u' ∷ b'p' ∷ b' ' ∷ b'd' ∷ b'o' ∷ b'e' ∷ b's' ∷ b' ' ∷ b'n'
    ∷ b'o' ∷ b't' ∷ b' ' ∷ b'e' ∷ b'x' ∷ b'i' ∷ b's' ∷ b't' ∷ []

abbrev pub commands_disabled : Text
commands_disabled =
    b's' ∷ b't' ∷ b'r' ∷ b'e' ∷ b'a' ∷ b'm' ∷ b'i' ∷ b'n' ∷ b'g' ∷ b' ' ∷ b'A' ∷ b'P' ∷ b'I' ∷ b' '
    ∷ b'c' ∷ b'o' ∷ b'm' ∷ b'm' ∷ b'a' ∷ b'n' ∷ b'd' ∷ b's' ∷ b' ' ∷ b'd' ∷ b'i' ∷ b's' ∷ b'a'
    ∷ b'b' ∷ b'l' ∷ b'e' ∷ b'd' ∷ []

module _ ⦃outside : Outside⦄ ⦃surroundings : Surroundings⦄ where
  -- The branch of `process_startup_guc` for a basebackup.
  unfoldable pub attach_basebackup : Text → M Connection (Unit {0})
  unfolding create_string get get_int
  attach_basebackup name = do
    on_configuration (create_string basebackup_path name name)
    v ← on_configuration (get archive_id)
    id ← lift (get_int v)
    lift (outside.attach name id)

  -- PGProtoStreamingServer::process_startup_guc
  unfoldable pub process_startup_guc : M Connection (Unit {0})
  unfolding attach_basebackup find_guc
  process_startup_guc c = elim (find_guc database c.startup_gucs) [
    | none ↦ disable c
    | some name ↦ if eq_text name catalog then disable c else attach_basebackup name c
  ]

  module _ ⦃heap : Heap⦄ where
    -- What the handler for CCatalogIssue sends before it throws.
    unfoldable pub refuse_startup : M Connection (Unit {0})
    unfolding msg set_sqlstate send_error start_write
    refuse_startup = do
      msg fatal does_not_exist true
      set_sqlstate []
      send_error
      start_write
      throw tcp_server_failure

    abbrev pub on_issue : Result (Unit {0}) × Connection → Result (Unit {0}) × Connection
    on_issue (err catalog_issue, c) = refuse_startup c
    on_issue r = r

    -- PGProtoStreamingServer::startup_msg_body behind the parameters.
    unfoldable pub greet : Instance → M Connection (Unit {0})
    unfolding send_authentication_ok start_write msg send_notice send_parameter_status
        send_backend_key send_ready_for_query
    greet i = do
      send_authentication_ok
      start_write
      disabled ← gets (λ c. c.disable_streaming_commands)
      (if disabled
          then (msg notice commands_disabled true >> (send_notice >> start_write))
          else return tt)
      send_parameter_status i.version
      start_write
      send_backend_key i.pid
      start_write
      send_ready_for_query
      start_write
      on_header (allocate 5)
      start_read read_header

    -- PGProtoStreamingServer::startup_msg_body
    unfoldable pub startup_msg_body : Instance → M Connection (Unit {0})
    unfolding read_startup_gucs process_startup_guc greet
    startup_msg_body i = do read_startup_gucs; (λ c. on_issue (process_startup_guc c)); greet i

-- The test of the major version of the protocol, `>> 16` on an int, which keeps the sign.
abbrev pub is_major : ℕ → ℕ → Bool
is_major n v = ltb v (2 ^ 31) && (v / 2 ^ 16 == n)

module _ ⦃heap : Heap⦄ where
  -- PGProtoStreamingServer::_startup_header
  unfoldable pub startup_header : M Connection (Unit {0})
  unfolding read_int allocate Memory.assign
  startup_header = do
    msglen ← on_header read_int
    version ← on_header read_int
    (if is_major 1234 version
        then (enter startup_ssl_no
            >> on_write (λ p.
              let (r, m) = Memory.assign (b'N' ∷ []) p.memory in (r, record p { memory = m })))
        else if is_major 3 version
        then (on_body (allocate ((to_size msglen + 2 ^ 64 - 8) % 2 ^ 64)) >> enter read_startup_guc)
        else return tt)

  abbrev pub is_ssl_answer : ProtocolState → Bool
  is_ssl_answer startup_ssl_no = true
  is_ssl_answer startup_ssl_ok = true
  is_ssl_answer s = false

  abbrev pub is_guc_state : ProtocolState → Bool
  is_guc_state read_startup_guc = true
  is_guc_state s = false

  -- PGProtoStreamingServer::startup_msg_in, told whether the socket has failed.
  unfoldable pub startup_msg_in : Bool → M Connection (Unit {0})
  unfolding startup_header start_write allocate
  startup_msg_in failed = do
    guard (not failed) tcp_server_failure
    startup_header
    s ← gets (λ c. c.state)
    (if is_ssl_answer s
        then (start_write >> (on_header (allocate 8) >> start_read initial_read))
        else return tt)
    t ← gets (λ c. c.state)
    if is_guc_state t then start_read initial_read_body else return tt
