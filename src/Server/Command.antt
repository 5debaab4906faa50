-- ===== src/Server/Command.antt =====
-- The streaming commands of the recovery server: PGProtoStreamingCommand and its descendants
-- (src/parser/pgproto-commands.cxx), with the result sets that PGProtoCatalogHandler makes
-- (src/protocol/proto-catalog.cxx), and the loop over the steps of a command (src/jobs/server.cxx).
pub mod Steps
pub mod Listing
use pg_backup_ctl_plus.Base.{
  ℕ, zero, suc, ◌+◌, ◌-◌, ◌^◌, Bool, true, false, not, ◌||◌, Option, none, some, List, [], ◌∷◌,
  ◌++◌, leb, ◌==◌, if◌then◌else◌, length, take,
}
use pg_backup_ctl_plus.Base.Int.{ℤ, pos, negsuc, eq_ℤ}
use pg_backup_ctl_plus.Base.Result.{
  undefined_behaviour, catalog_issue, archive_issue, command_failure, loop_bound, Result, ok, err,
  M, ◌>>=◌, ◌>>◌, return, lift, gets, guard, modify, throw, bind_result,
}
use pg_backup_ctl_plus.Buffer.Memory.{Heap}
use pg_backup_ctl_plus.Buffer.Memory
use pg_backup_ctl_plus.Buffer.Protocol.{ProtocolBuffer}
use pg_backup_ctl_plus.Server.ResultSet.{
  ResultSet, ColumnData, new_result_set, add_column, add_row, descriptor, next_data,
}

-- The data members of a command. `result_set` is a pointer.
pub record Command : Type 0 where
  pub result_set : Option ResultSet
  pub current_step : ℤ
  pub needs_archive_access : Bool

-- The constructors of the three commands.
abbrev pub new_command : Bool → Command
new_command needs = record { result_set = none; current_step = pos 0; needs_archive_access = needs }

abbrev pub identify_system : Command
identify_system = new_command true

abbrev pub timeline_history : Command
timeline_history = new_command true

abbrev pub list_basebackups : Command
list_basebackups = new_command false

-- PGProtoIdentifySystem::reset keeps the result set; the others drop it.
unfoldable pub reset_step : Command → Command
reset_step c = record c { current_step = pos 0 }

unfoldable pub reset : Command → Command
reset c = record c { current_step = pos 0; result_set = none }

-- A call on the result set of a command.
abbrev pub on_set : {A : Type 0} → M (ProtocolBuffer × ResultSet) A → M (ProtocolBuffer × Command) A
on_set m (p, c) = elim c.result_set [
  | none ↦ (err undefined_behaviour, (p, c))
  | some s ↦ (let (r, (p', s')) = m (p, s) in (r, (p', record c { result_set = some s' })))
]

abbrev pub set_step : ℤ → M (ProtocolBuffer × Command) (Unit {0})
set_step n (p, c) = (ok tt, (p, record c { current_step = n }))

module _ ⦃heap : Heap⦄ where
  -- The two cases of the switch in `step`.
  unfoldable pub first_step : M (ProtocolBuffer × Command) (Unit {0})
  unfolding descriptor
  first_step = do on_set descriptor; set_step (pos 1)

  unfoldable pub data_step : M (ProtocolBuffer × Command) (Unit {0})
  unfolding next_data
  data_step = do
    n ← on_set next_data
    (if n == 0 || leb (2 ^ 31) n then set_step (negsuc 0) else set_step (pos 2))

  -- PGProtoStreamingCommand::step
  unfoldable pub step : M (ProtocolBuffer × Command) ℤ
  unfolding first_step data_step
  step = do
    n ← gets (λ (p, c). c.current_step)
    (if eq_ℤ n (pos 0)
        then first_step
        else if eq_ℤ n (pos 1) || eq_ℤ n (pos 2)
        then data_step
        else return tt)
    gets (λ (p, c). c.current_step)

-- The outgoing side of a connection: its buffer, what the buffer held each time that a write of it was
-- started, and how many of the writes have finished, which is when their handler is called. Until then
-- the socket reads the block of the buffer, of which the code keeps no copy.
pub record Outgoing : Type 0 where
  pub write_buffer : ProtocolBuffer
  pub started : List (List ℕ)
  pub finished : ℕ

-- PGSocketIOContextInterface::start_write, which does not wait for the end of the write.
unfoldable pub start_write : M Outgoing (Unit {0})
unfolding Memory.ptr
start_write o = elim (Memory.ptr o.write_buffer.memory).0 [
  | ok b ↦ (ok tt, record o { started = o.started ++ take o.write_buffer.memory.size b ∷ [] })
  | err e ↦ (err e, o)
]

abbrev pub on_outgoing : {A : Type 0} → M Outgoing A → M (Outgoing × Command) A
on_outgoing m (o, c) = let (r, o') = m o in (r, (o', c))

abbrev pub on_command : {A : Type 0} → M (ProtocolBuffer × Command) A → M (Outgoing × Command) A
on_command m (o, c) =
    let (r, (p, c')) = m (o.write_buffer, c) in (r, (record o { write_buffer = p }, c'))

-- The loop of PGProtoStreamingServer::_process_query_execute over the steps of a command.
unfoldable pub send_steps : ⦃heap : Heap⦄ → ℕ → M (Outgoing × Command) (Unit {0})
unfolding step start_write
send_steps zero = throw loop_bound
send_steps (suc n) = do
  i ← on_command step
  elim (eq_ℤ i (negsuc 0)) [
    | true ↦ return tt
    | false ↦ (on_outgoing start_write >>= λ u. send_steps n)
  ]

-- What the commands read of a basebackup.
pub record Listed : Type 0 where
  pub id : ℤ
  pub timeline : ℕ
  pub systemid : List ℕ
  pub xlogpos : List ℕ
  pub fsentry : List ℕ
  pub started : List ℕ
  pub duration : List ℕ

abbrev pub column : List ℕ → ColumnData
column text = record { data_length = length text; value = text }

-- The call of addColumn that all commands make: a text, or bytes.
unfoldable pub add_plain : List ℕ → ℕ → ResultSet → ResultSet
unfolding add_column
add_plain name typeoid = add_column name 0 0 typeoid (2 ^ 16 - 1) 0 0

-- How a stream prints numbers.
pub record Printer : Type 0 where
  pub show_int : ℤ → List ℕ
  pub show_unsigned : ℕ → List ℕ

module _ ⦃printer : Printer⦄ where
  -- PGProtoCatalogHandler::queryIdentifySystem. The names of the columns are systemid, timeline,
  -- xlogpos and dbname.
  unfoldable pub query_identify_system : Option Listed → M ResultSet (Unit {0})
  unfolding add_plain add_row
  query_identify_system none = throw catalog_issue
  query_identify_system (some b) = do
    modify (add_plain (b's' ∷ b'y' ∷ b's' ∷ b't' ∷ b'e' ∷ b'm' ∷ b'i' ∷ b'd' ∷ []) 25)
    modify (add_plain (b't' ∷ b'i' ∷ b'm' ∷ b'e' ∷ b'l' ∷ b'i' ∷ b'n' ∷ b'e' ∷ []) 25)
    modify (add_plain (b'x' ∷ b'l' ∷ b'o' ∷ b'g' ∷ b'p' ∷ b'o' ∷ b's' ∷ []) 25)
    modify (add_plain (b'd' ∷ b'b' ∷ b'n' ∷ b'a' ∷ b'm' ∷ b'e' ∷ []) 25)
    add_row (
        column b.systemid
        ∷ column (printer.show_unsigned b.timeline)
        ∷ column b.xlogpos
        ∷ column b.fsentry
        ∷ [])

  -- The loop of PGProtoListBasebackups::prepareListOfBackups.
  unfoldable pub add_backups : List Listed → M ResultSet (Unit {0})
  unfolding add_row
  add_backups [] = return tt
  add_backups (b ∷ bs) = do
    add_row (
        column (printer.show_int b.id)
        ∷ column b.fsentry
        ∷ column b.started
        ∷ column b.duration
        ∷ [])
    add_backups bs

  -- PGProtoListBasebackups::prepareListOfBackups. The columns are id, fsentry, started and duration.
  unfoldable pub list_set : List Listed → M ResultSet (Unit {0})
  unfolding add_plain add_backups
  list_set bs = do
    modify (add_plain (b'i' ∷ b'd' ∷ []) 25)
    modify (add_plain (b'f' ∷ b's' ∷ b'e' ∷ b'n' ∷ b't' ∷ b'r' ∷ b'y' ∷ []) 25)
    modify (add_plain (b's' ∷ b't' ∷ b'a' ∷ b'r' ∷ b't' ∷ b'e' ∷ b'd' ∷ []) 25)
    modify (add_plain (b'd' ∷ b'u' ∷ b'r' ∷ b'a' ∷ b't' ∷ b'i' ∷ b'o' ∷ b'n' ∷ []) 25)
    add_backups bs

  unfoldable pub prepare_list_of_backups : List Listed → M Command (Unit {0})
  unfolding list_set
  prepare_list_of_backups bs c =
      if eq_ℤ c.current_step (pos 0)
      then (let (r, s) = list_set bs new_result_set in (r, record c { result_set = some s }))
      else (err command_failure, c)
