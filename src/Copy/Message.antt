-- ===== src/Copy/Message.antt =====
-- The PGMessage classes (src/protocol/pgmessage.cxx, pgmessage-copydata.cxx, pgmessage-copyfail.cxx and
-- pgmessage-copyresponse.cxx, include/proto/pgmessage.hxx): messages of the COPY protocol that write
-- themselves to a buffer and read themselves from one. A null buffer is `none`.
pub mod Header
use pg_backup_ctl_plus.Base.{
  ℕ, zero, suc, ◌+◌, ◌-◌, ◌*◌, ◌%◌, ◌^◌, ◌≡◌, Bool, true, false, not, Option, none, some, List, [],
  ◌∷◌, ltb, ◌==◌, if◌then◌else◌, length, get_elem?,
}
use pg_backup_ctl_plus.Base.Result.{
  copy_protocol_failure, bad_alloc, undefined_behaviour, Result, ok, err, M, ◌>>=◌, ◌>>◌, return,
  lift, modify, gets, guard, bind_result,
}
use pg_backup_ctl_plus.Buffer.Memory.{Heap}
use pg_backup_ctl_plus.Buffer.Protocol.{
  ProtocolBuffer, first, allocate, write_byte, write_int, write_short, write_buffer, read_byte,
  read_int, read_buffer, read_short,
}
use pg_backup_ctl_plus.Copy.Format.{CopyFormat, set_elem}
use pg_backup_ctl_plus.Copy.State.{to_size}

-- PGMessage
pub record Message : Type 0 where
  pub message_identifier : ℕ
  pub message_size : ℕ

-- PGMessageCopyData
pub record DataMessage : Type 0 where
  pub base : Message
  pub message_data : List ℕ

-- PGMessageCopyFail
pub record FailMessage : Type 0 where
  pub base : Message
  pub error_message : List ℕ

-- PGMessageCopyResponse. The formats are those of the array that `setFormats` was given.
pub record ResponseMessage : Type 0 where
  pub base : Message
  pub overall_format : ℕ
  pub col_count : ℕ
  pub formats : List ℕ

-- The constructors of the classes.
abbrev pub new_message : ℕ → Message
new_message identifier = record { message_identifier = identifier; message_size = 5 }

abbrev pub new_data_message : DataMessage
new_data_message = record { base = new_message b'd'; message_data = [] }

abbrev pub new_fail_message : FailMessage
new_fail_message = record { base = new_message b'f'; error_message = [] }

abbrev pub new_response_message : ℕ → ResponseMessage
new_response_message identifier = record {
  base = record { message_identifier = identifier; message_size = 9 };
  overall_format = 0;
  col_count = 0;
  formats = [];
}

-- A call on the buffer, which is not null where it is made.
abbrev pub on_out : {A : Type 0} → M ProtocolBuffer A → M (Option ProtocolBuffer) A
on_out f none = (err undefined_behaviour, none)
on_out f (some p) = let (r, p') = f p in (r, some p')

-- A message that reads itself from a buffer.
abbrev pub on_in : {T A : Type 0} → M ProtocolBuffer A → M (T × Option ProtocolBuffer) A
on_in f (m, b) = let (r, b') = on_out f b in (r, (m, b'))

abbrev pub on_message : {T : Type 0} → (T → T) → M (T × Option ProtocolBuffer) (Unit {0})
on_message f (m, b) = (ok tt, (f m, b))

abbrev pub is_null : Option ProtocolBuffer → Bool
is_null none = true
is_null (some p) = false

-- PGMessage::readFrom
unfoldable pub read_from : M (Message × Option ProtocolBuffer) ℕ
unfolding read_byte read_int
read_from = do
  null ← gets (λ (m, b). is_null b)
  guard (not null) copy_protocol_failure
  c ← on_in read_byte
  on_message (λ m. record m { message_identifier = c })
  v ← on_in read_int
  guard (not (v == 2 ^ 31 - 1)) undefined_behaviour
  on_message (λ m. record m { message_size = to_size ((v + 1) % 2 ^ 32) })
  gets (λ (m, b). m.message_size)

-- PGMessageCopyData::setData
unfoldable pub set_data : List ℕ → M DataMessage ℕ
set_data bs m =
    let size = (5 + length bs) % 2 ^ 64 in
    (ok size, record { base = record m.base { message_size = size }; message_data = bs })

-- PGMessageCopyFail::setMessage
unfoldable pub set_message : List ℕ → M FailMessage (Unit {0})
set_message bs m = (
  ok tt,
  record { base = record m.base { message_size = (5 + length bs) % 2 ^ 64 }; error_message = bs },
)

-- PGMessageCopyResponse::setFormats. The count is stored as a short, whose sign extends in the sum.
unfoldable pub set_formats : CopyFormat → M ResponseMessage ℕ
set_formats f m =
    let extended = if ltb f.cols (2 ^ 15) then f.cols else f.cols + 2 ^ 64 - 2 ^ 16 in
    (
      ok extended,
      record {
        base = record m.base { message_size = (m.base.message_size + 2 * extended) % 2 ^ 64 };
        overall_format = f.copy_format_type;
        col_count = f.cols;
        formats = f.formats;
      },
    )

module _ ⦃heap : Heap⦄ where
  -- PGMessage::writeTo
  unfoldable pub write_to : Message → M (Option ProtocolBuffer) ℕ
  unfolding allocate first write_byte write_int
  write_to m = do
    null ← gets is_null
    guard (not null) copy_protocol_failure
    on_out (allocate m.message_size)
    on_out (modify first)
    on_out (write_byte m.message_identifier)
    on_out (write_int ((m.message_size + 2 ^ 64 - 1) % 2 ^ 32))
    return m.message_size

  -- PGMessageCopyData::writeTo, and PGMessageCopyFail::writeTo on its text.
  unfoldable pub write_with : Message → List ℕ → M (Option ProtocolBuffer) ℕ
  unfolding write_to write_buffer
  write_with m bs = do
    write_to m
    (if ltb 0 (length bs) then on_out (write_buffer bs) else return 0)
    return m.message_size

-- A text that is read from an array up to its null byte.
unfoldable pub c_string : List ℕ → Option (List ℕ)
c_string [] = none
c_string (zero ∷ bs) = some []
c_string (suc b ∷ bs) = elim (c_string bs) [ none ↦ none | some t ↦ some (suc b ∷ t) ]

-- The base class's call on a message of a derived class.
abbrev pub on_base : M (DataMessage × Option ProtocolBuffer) ℕ
on_base (m, b) = let (r, s) = read_from (m.base, b) in (r, (record m { base = s.0 }, s.1))

-- PGMessageCopyData::readFrom
unfoldable pub read_data_from : ⦃heap : Heap⦄ → M (DataMessage × Option ProtocolBuffer) ℕ
unfolding read_from read_buffer c_string
read_data_from ⦃heap⦄ = do
  size ← on_in (gets (λ p. p.memory.size))
  lift (elim (heap.new_char size) [ none ↦ err bad_alloc | some buffer ↦ ok tt ])
  n ← on_base
  (if ltb 5 n
      then (on_in (read_buffer size) >>= λ bs.
          (lift (elim (c_string bs) [ none ↦ err undefined_behaviour | some t ↦ ok t ]) >>= λ t.
          on_message (λ m. record m { message_data = t })))
      else return tt)
  return n

abbrev pub on_fail_base : M (FailMessage × Option ProtocolBuffer) ℕ
on_fail_base (m, b) = let (r, s) = read_from (m.base, b) in (r, (record m { base = s.0 }, s.1))

-- PGMessageCopyFail::readFrom reads over the text that the message has.
unfoldable pub read_fail_from : M (FailMessage × Option ProtocolBuffer) ℕ
unfolding read_from read_buffer
read_fail_from = do
  n ← on_fail_base
  size ← gets (λ (m, b). length m.error_message)
  (if ltb 5 n
      then (on_in (read_buffer size) >>= λ bs. on_message (λ m. record m { error_message = bs }))
      else return tt)
  return n

-- The rounds of a loop up to a count that is a short.
abbrev pub rounds_of : ℕ → ℕ
rounds_of count = if ltb count (2 ^ 15) then count else 0

-- The loop of PGMessageCopyResponse::writeTo over the formats, from an index on.
unfoldable pub write_formats : List ℕ → ℕ → ℕ → M (Option ProtocolBuffer) (Unit {0})
unfolding write_short
write_formats formats zero i = return tt
write_formats formats (suc n) i = do
  f ← lift (elim (get_elem? formats i) [ none ↦ err undefined_behaviour | some f ↦ ok f ])
  on_out (write_short f)
  write_formats formats n (suc i)

-- PGMessageCopyResponse::writeTo
unfoldable pub write_response_to : ⦃heap : Heap⦄ → ResponseMessage → M (Option ProtocolBuffer) ℕ
unfolding write_to write_short write_formats
write_response_to ⦃heap⦄ m = do
  write_to m.base
  on_out (write_short m.overall_format)
  on_out (write_short m.col_count)
  write_formats m.formats (rounds_of m.col_count) 0
  return m.base.message_size

abbrev pub on_response_base : M (ResponseMessage × Option ProtocolBuffer) ℕ
on_response_base (m, b) = let (r, s) = read_from (m.base, b) in (r, (record m { base = s.0 }, s.1))

-- The loop of PGMessageCopyResponse::readFrom.
unfoldable pub read_formats : ℕ → ℕ → M (ResponseMessage × Option ProtocolBuffer) (Unit {0})
unfolding read_short
read_formats zero i = return tt
read_formats (suc n) i = do
  f ← on_in read_short
  before ← gets (λ (m, b). set_elem m.formats i f)
  after ← lift (elim before [ none ↦ err undefined_behaviour | some fs ↦ ok fs ])
  on_message (λ m. record m { formats = after })
  read_formats n (suc i)

-- PGMessageCopyResponse::readFrom
unfoldable pub read_response_from : M (ResponseMessage × Option ProtocolBuffer) ℕ
unfolding read_from read_short read_formats
read_response_from = do
  n ← on_response_base
  overall ← on_in read_short
  on_message (λ m. record m { overall_format = overall })
  count ← on_in read_short
  on_message (λ m. record m { col_count = count })
  read_formats (rounds_of count) 0
  return n
