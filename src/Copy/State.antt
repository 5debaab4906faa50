-- ===== src/Copy/State.antt =====
-- The states of the COPY subprotocol (src/protocol/pgproto-copystate.cxx, include/proto/pgproto-copy.hxx)
-- and class PGProtoCopy, which passes its calls on to the state that its context holds.
pub mod Automaton
pub mod Transitions
pub mod Routes
pub mod Transfer
pub mod Response
use pg_backup_ctl_plus.Base.{
  ℕ, zero, suc, ◌+◌, ◌-◌, ◌*◌, ◌%◌, ◌^◌, ◌≡◌, Bool, true, false, Option, none, some, List, [], ◌∷◌,
  ltb, leb, ◌==◌, ◌&&◌, not, if◌then◌else◌, length,
}
use pg_backup_ctl_plus.Base.Result.{
  failure, copy_protocol_failure, undefined_behaviour, Result, ok, err, M, ◌>>=◌, ◌>>◌, return,
  throw, lift, modify, gets, guard, bind_result,
}
use pg_backup_ctl_plus.Buffer.Memory.{Heap, MemoryBuffer, first_bytes, outside, copied}
use pg_backup_ctl_plus.Buffer.Memory
use pg_backup_ctl_plus.Buffer.Protocol.{
  ProtocolBuffer, on_memory, write_buffer, write_byte, write_short, write_int, read_buffer,
  read_byte, read_int, allocate,
}
use pg_backup_ctl_plus.Copy.Format.{CopyFormat}
use pg_backup_ctl_plus.Copy.Format

-- The classes derived from PGProtoCopyState.
pub data CopyState : Type 0 where
  in_response : CopyState
  out_response : CopyState
  both_response : CopyState
  data_in : CopyState
  data_out : CopyState
  data_both : CopyState
  copy_done : CopyState
  copy_fail : CopyState

-- PGProtoCopyStateType
pub data StateType : Type 0 where
  type_init : StateType
  type_fail : StateType
  type_done : StateType
  type_in : StateType
  type_out : StateType
  type_both : StateType

-- PGProtoCopyContext. A null pointer is `none`; the four buffers are distinct objects.
pub record CopyContext : Type 0 where
  pub formats : Option CopyFormat
  pub input_buffer : Option ProtocolBuffer
  pub input_data_buffer : Option ProtocolBuffer
  pub output_buffer : Option ProtocolBuffer
  pub output_data_buffer : Option ProtocolBuffer
  pub state : CopyState

-- A context by its members.
module _ (fs : Option CopyFormat) (i d o e : Option ProtocolBuffer) (s : CopyState) where
  abbrev pub context : CopyContext
  context = record {
    formats = fs;
    input_buffer = i;
    input_data_buffer = d;
    output_buffer = o;
    output_data_buffer = e;
    state = s;
  }

-- The method `state` of the classes.
abbrev pub state_type : CopyState → StateType
state_type in_response = type_init
state_type out_response = type_init
state_type both_response = type_init
state_type data_in = type_in
state_type data_out = type_out
state_type data_both = type_both
state_type copy_done = type_done
state_type copy_fail = type_fail

-- The method `nextState` of the response states.
abbrev pub next_state : CopyState → CopyState
next_state in_response = data_in
next_state out_response = data_out
next_state both_response = data_both
next_state s = s

-- A method call on one of the buffers.
abbrev pub on_buffer :
    {A : Type 0} → M ProtocolBuffer A → Option ProtocolBuffer → Result A × Option ProtocolBuffer
on_buffer m none = (err undefined_behaviour, none)
on_buffer m (some p) = let (r, p') = m p in (r, some p')

abbrev pub on_input : {A : Type 0} → M ProtocolBuffer A → M CopyContext A
on_input m c = let (r, b) = on_buffer m c.input_buffer in (r, record c { input_buffer = b })

abbrev pub on_input_data : {A : Type 0} → M ProtocolBuffer A → M CopyContext A
on_input_data m c =
    let (r, b) = on_buffer m c.input_data_buffer in (r, record c { input_data_buffer = b })

abbrev pub on_output : {A : Type 0} → M ProtocolBuffer A → M CopyContext A
on_output m c = let (r, b) = on_buffer m c.output_buffer in (r, record c { output_buffer = b })

abbrev pub on_output_data : {A : Type 0} → M ProtocolBuffer A → M CopyContext A
on_output_data m c =
    let (r, b) = on_buffer m c.output_data_buffer in (r, record c { output_data_buffer = b })

abbrev pub enter : CopyState → M CopyContext (Unit {0})
enter s = modify (λ c. record c { state = s })

abbrev pub get_size : M ProtocolBuffer ℕ
get_size = gets (λ p. p.memory.size)

-- An int, by its pattern, as a size_t.
abbrev pub to_size : ℕ → ℕ
to_size v = if ltb v (2 ^ 31) then v else v + 2 ^ 64 - 2 ^ 32

-- `size -= 4` on an int; overflow has no meaning.
abbrev pub minus_header : ℕ → Result ℕ
minus_header v =
    if leb (2 ^ 31) v && ltb v (2 ^ 31 + 4)
    then err undefined_behaviour
    else ok ((v + 2 ^ 32 - 4) % 2 ^ 32)

-- The method `type` of the response states.
abbrev pub response_type : CopyState → ℕ
response_type in_response = b'G'
response_type out_response = b'H'
response_type s = b'W'

-- The loop of `writeCopyResponse`, from a column on.
unfoldable pub write_columns : CopyFormat → ℕ → ℕ → M ProtocolBuffer (Unit {0})
unfolding Format.get write_short
write_columns f zero i = return tt
write_columns f (suc n) i = do
  format ← lift (Format.get i f)
  write_short format
  write_columns f n (suc i)

-- `write_buffer` with bytes that are read from a block once the bounds are checked.
unfoldable pub write_from : List ℕ → ℕ → M ProtocolBuffer ℕ
unfolding write_buffer first_bytes
write_from b n p =
    if outside n p.curr_pos p.memory then (err failure, p) else elim (first_bytes n b) [
      | none ↦ (err undefined_behaviour, p)
      | some bs ↦ write_buffer bs p
    ]

pub data Call : Type 0 where
  call_read : Call
  call_write : Call

module _ ⦃heap : Heap⦄ where
  -- PGProtoCopyResponseState::writeCopyResponse
  unfoldable pub write_copy_response : ℕ → CopyFormat → M ProtocolBuffer ℕ
  unfolding allocate write_byte write_int write_short write_columns
  write_copy_response type f =
      let size = 8 + f.cols * 2 in
      do
        allocate size
        write_byte type
        write_int (size - 1)
        write_byte (f.copy_format_type % 256)
        write_short f.cols
        write_columns f f.cols 0
        return size

  -- PGProtoCopyResponseState::write. The state that runs it is taken to stay alive behind the
  -- assignment of the next one.
  unfoldable pub write_response : M CopyContext ℕ
  unfolding write_copy_response
  write_response c = elim c.output_buffer [
    | none ↦ (err copy_protocol_failure, c)
    | some out ↦ elim c.formats [
      | none ↦ (err copy_protocol_failure, c)
      | some f ↦
          on_output (write_copy_response (response_type c.state) f)
            (record c { state = next_state c.state })
    ]
  ]

  -- PGProtoCopyDataInState::readCopyData; readCopyFail is the same code. The bytes are copied from
  -- the one buffer into the block of the other.
  unfoldable pub read_copy_data : M CopyContext ℕ
  unfolding read_int allocate on_memory Memory.ptr read_buffer Memory.write_raw
  read_copy_data = do
    v ← on_input read_int
    size ← lift (minus_header v)
    on_input_data (allocate (to_size size))
    on_input_data (on_memory Memory.ptr)
    bs ← on_input (read_buffer (to_size size))
    on_input_data (on_memory (Memory.write_raw bs 0))
    return (to_size size)

  -- What a message of a type leads to. The classes for COPY IN and COPY BOTH differ in the state
  -- after CopyDone, and in what they do with an unknown type.
  unfoldable pub dispatch : CopyState → M CopyContext ℕ → ℕ → M CopyContext ℕ
  unfolding read_copy_data
  dispatch on_done unexpected message_type =
      if message_type == b'd'
      then read_copy_data
      else if message_type == b'c'
      then enter on_done >> return 0
      else if message_type == b'f'
      then enter copy_fail >> read_copy_data
      else unexpected

  -- The method `read` of these classes.
  unfoldable pub read_data : CopyState → M CopyContext ℕ → M CopyContext ℕ
  unfolding read_byte dispatch
  read_data on_done unexpected c = elim c.input_buffer [
    | none ↦ (err copy_protocol_failure, record c { state = copy_fail })
    | some p ↦ if p.memory.size == 0 then (ok 0, c) else elim c.input_data_buffer [
      | none ↦ (err copy_protocol_failure, record c { state = copy_fail })
      | some d ↦ (on_input read_byte >>= dispatch on_done unexpected) c
    ]
  ]

  -- PGProtoCopyDataOutState::writeCopyData. The sum is taken as a size_t and kept as an int.
  unfoldable pub write_copy_data : M CopyContext ℕ
  unfolding allocate write_byte write_int on_memory Memory.ptr write_from
  write_copy_data = do
    n ← on_output_data get_size
    let size = (5 + n) % 2 ^ 32
    on_output (allocate (to_size size))
    on_output (write_byte b'd')
    guard (not (size == 2 ^ 31)) undefined_behaviour
    on_output (write_int ((size + 2 ^ 32 - 1) % 2 ^ 32))
    b ← on_output_data (on_memory Memory.ptr)
    on_output (write_from b n)
    return (to_size size)

  -- PGProtoCopyDataOutState::writeCopyDone
  unfoldable pub write_copy_done : M CopyContext ℕ
  unfolding allocate write_byte write_int
  write_copy_done = do
    on_output (allocate 5)
    on_output (write_byte b'c')
    on_output (write_int 4)
    return 5

  -- The method `write` of the classes for COPY OUT and COPY BOTH, which differ in the state that
  -- the end of the data leads to.
  unfoldable pub write_data : CopyState → M CopyContext ℕ
  unfolding write_copy_done write_copy_data
  write_data on_end c = elim c.output_data_buffer [
    | none ↦ (err copy_protocol_failure, record c { state = copy_fail })
    | some d ↦ elim c.output_buffer [
      | none ↦ (err copy_protocol_failure, record c { state = copy_fail })
      | some p ↦
          if d.memory.size == 0
          then write_copy_done (record c { state = on_end })
          else write_copy_data c
    ]
  ]

  -- PGProtoCopy::read
  unfoldable pub read : M CopyContext ℕ
  unfolding read_data
  read c = elim c.state [
    | data_in ↦ read_data copy_done (throw copy_protocol_failure) c
    | data_both ↦ read_data data_out (return 0) c
    | in_response ↦ (ok 0, c)
    | out_response ↦ (ok 0, c)
    | both_response ↦ (ok 0, c)
    | data_out ↦ (ok 0, c)
    | copy_done ↦ (ok 0, c)
    | copy_fail ↦ (ok 0, c)
  ]

  -- PGProtoCopy::write
  unfoldable pub write : M CopyContext ℕ
  unfolding write_response write_data
  write c = elim c.state [
    | in_response ↦ write_response c
    | out_response ↦ write_response c
    | both_response ↦ write_response c
    | data_out ↦ write_data copy_done c
    | data_both ↦ write_data data_in c
    | data_in ↦ (ok 0, c)
    | copy_done ↦ (ok 0, c)
    | copy_fail ↦ (ok 0, c)
  ]

  abbrev pub perform : Call → M CopyContext ℕ
  perform call_read = read
  perform call_write = write

  -- The calls that a caller makes of a PGProtoCopy, one after the other. What a call throws is the
  -- caller's to handle; the context stays.
  abbrev pub run : List Call → CopyContext → CopyContext
  run [] c = c
  run (call ∷ calls) c = run calls (perform call c).1
