-- ===== src/Stream/Message.antt =====
-- The XLOGStreamMessage classes (src/backup/xlogdefs.cxx, include/backup/xlogdefs.hxx).
-- SWAP_UINT64 on eight bytes that were copied from a message, or go there, makes them big-endian on
-- every host (include/common.hxx). The connection that a message holds is a parameter where it is
-- used.
use pg_backup_ctl_plus.Base.{
  ℕ, ◌-◌, ◌%◌, Bool, true, false, not, ◌&&◌, ◌||◌, none, some, List, [], ◌∷◌, ◌++◌, ltb, leb, ◌==◌,
  if◌then◌else◌,
}
use pg_backup_ctl_plus.Base.Bytes.{be64, from_be}
use pg_backup_ctl_plus.Base.Result.{
  xlog_message_failure, bad_alloc, Result, ok, err, M, ◌>>=◌, ◌>>◌, return, throw, lift, modify,
  gets, guard,
}
use pg_backup_ctl_plus.Buffer.Memory.{Heap, MemoryBuffer, uninitialized}
use pg_backup_ctl_plus.Buffer.Memory

-- XLOGStreamMessage. `kind` is a byte.
pub record StreamMessage : Type 0 where
  pub kind : ℕ
  pub request_response : Bool
  pub wal_segment_size : ℕ

-- XLOGDataStreamMessage
pub record DataMessage : Type 0 where
  pub base : StreamMessage
  pub xlogstartpos : ℕ
  pub xlogserverpos : ℕ
  pub xlogstreamtime : ℕ
  pub xlogdata : MemoryBuffer

-- PrimaryFeedbackMessage
pub record PrimaryFeedback : Type 0 where
  pub base : StreamMessage
  pub xlogserverendpos : ℕ
  pub xlogservertime : ℕ

-- ReceiverStatusUpdateMessage
pub record StatusUpdate : Type 0 where
  pub base : StreamMessage
  pub xlog_pos_written : ℕ
  pub xlog_pos_flushed : ℕ
  pub xlog_pos_applied : ℕ
  pub current_time_us : ℕ
  pub report_flush_position : Bool

-- XLOGStreamMessage::setWALSegmentSize. The size is unsigned.
unfoldable pub set_wal_segment_size : ℕ → M StreamMessage (Unit {0})
set_wal_segment_size size m =
    if leb size 0 && not (size % 2 == 0)
    then (err xlog_message_failure, m)
    else (ok tt, record m { wal_segment_size = size })

-- The constructors that take a segment size.
abbrev pub new_stream_message : ℕ → ℕ → StreamMessage
new_stream_message kind size = record {
  kind = kind;
  request_response = false;
  wal_segment_size = size;
}

-- `garbage` is the size that the data buffer is left with.
abbrev pub new_data_message : ℕ → ℕ → DataMessage
new_data_message size garbage = record {
  base = new_stream_message b'w' size;
  xlogstartpos = 0;
  xlogserverpos = 0;
  xlogstreamtime = 0;
  xlogdata = uninitialized garbage;
}

abbrev pub new_primary_feedback : ℕ → PrimaryFeedback
new_primary_feedback size = record {
  base = new_stream_message b'k' size;
  xlogserverendpos = 0;
  xlogservertime = 0;
}

-- XLOGStreamMessage::basicCheckMemoryBuffer
unfoldable pub basic_check : ℕ → MemoryBuffer → Result (Unit {0})
unfolding Memory.at_index
basic_check kind src =
    if leb src.size 0 then err xlog_message_failure else elim (Memory.at_index 0 src).0 [
      | ok c ↦ if kind == c then ok tt else err xlog_message_failure
      | err e ↦ err e
    ]

-- A read of the buffer that a message is made from.
unfoldable pub read_source : {S : Type 0} → MemoryBuffer → ℕ → ℕ → M S (List ℕ)
unfolding Memory.read
read_source src n off = lift (Memory.read n off src).0

-- `address` is the address of the local array of `assign`.
module _ (address : ℕ) where
  -- The part of XLOGDataStreamMessage::assign before the data.
  unfoldable pub assign_header : MemoryBuffer → M DataMessage (Unit {0})
  unfolding basic_check read_source
  assign_header src m =
      (do
        lift (basic_check m.base.kind src)
        guard (not (ltb src.size 25)) xlog_message_failure
        start ← read_source src 8 1
        modify (λ m. record m { xlogstartpos = from_be start })
        server ← read_source src 8 9
        modify (λ m. record m { xlogserverpos = from_be server })
        time ← read_source src 8 17
        modify (λ m. record m { xlogstreamtime = address }))
        m

  -- PrimaryFeedbackMessage::assign
  unfoldable pub assign_feedback : MemoryBuffer → M PrimaryFeedback (Unit {0})
  unfolding basic_check read_source Memory.at_index
  assign_feedback src m =
      (do
        lift (basic_check m.base.kind src)
        guard (not (ltb src.size 18)) xlog_message_failure
        end ← read_source src 8 1
        modify (λ m. record m { xlogserverendpos = address })
        time ← read_source src 8 9
        modify (λ m. record m { xlogservertime = address })
        flag ← lift (Memory.at_index 17 src).0
        modify (λ m. record m {
          base = record m.base { request_response = m.base.request_response || (flag == b'1') };
        }))
        m

-- A call on the data buffer.
abbrev pub on_data : {A : Type 0} → M MemoryBuffer A → M DataMessage A
on_data f m = let (r, b) = f m.xlogdata in (r, record m { xlogdata = b })

module _ ⦃heap : Heap⦄ where
  -- The part of XLOGDataStreamMessage::assign that copies the data, by way of an array of its own;
  -- `rest` is the number of bytes behind the header.
  unfoldable pub copy_rest : ℕ → MemoryBuffer → M DataMessage (Unit {0})
  unfolding Memory.allocate Memory.write read_source
  copy_rest rest src = elim (heap.new_char rest) [
    | none ↦ throw bad_alloc
    | some xlogdatabytes ↦ do
      on_data (Memory.allocate rest)
      n ← gets (λ m. m.xlogdata.size)
      bs ← read_source src n 25
      on_data (Memory.write bs 0)
      return tt
  ]

  -- XLOGDataStreamMessage::assign
  unfoldable pub assign : ℕ → MemoryBuffer → M DataMessage (Unit {0})
  unfolding assign_header copy_rest
  assign address src =
      assign_header address src
      >> (if ltb 25 src.size then copy_rest (src.size - 25) src else return tt)

-- What XLOGStreamMessage::message returns.
pub data AnyMessage : Type 0 where
  null_message : AnyMessage
  data_message : DataMessage → AnyMessage
  feedback_message : PrimaryFeedback → AnyMessage

abbrev pub returning : {S : Type 0} → (S → AnyMessage) → Result (Unit {0}) × S → Result AnyMessage
returning f (ok t, s) = ok (f s)
returning f (err e, s) = err e

module _ ⦃heap : Heap⦄ (address garbage : ℕ) where
  -- XLOGStreamMessage::message. No segment size that is passed on is refused.
  unfoldable pub message : MemoryBuffer → ℕ → Result AnyMessage
  unfolding assign assign_feedback Memory.at_index
  message src wal_segment_size =
      if leb src.size 0 then ok null_message else elim (Memory.at_index 0 src).0 [
        | err e ↦ err e
        | ok c ↦
            if c == b'w'
            then returning data_message
                (assign address src (new_data_message wal_segment_size garbage))
            else if c == b'k'
            then returning feedback_message
                (assign_feedback address src (new_primary_feedback wal_segment_size))
            else err xlog_message_failure
      ]

-- libpq's PQputCopyData, which is positive where the bytes are queued, and PQflush, which is zero
-- where the queue is sent.
pub record Connection : Type 0 where
  pub queued : List ℕ → Bool
  pub flushed : List ℕ → Bool

abbrev pub flag_byte : Bool → ℕ
flag_byte true = 1
flag_byte false = 0

abbrev pub reply : StatusUpdate → List ℕ
reply m =
    m.base.kind
    ∷ (be64 m.xlog_pos_written
        ++ be64 (if m.report_flush_position then m.xlog_pos_flushed else 0)
        ++ be64 0
        ++ be64 m.current_time_us
        ++ flag_byte m.base.request_response ∷ [])

-- ReceiverStatusUpdateMessage::send. The result is what was sent.
unfoldable pub send : Connection → M StatusUpdate (List ℕ)
send conn m =
    let m' = record m {
      base = record m.base { request_response = false };
      report_flush_position = false;
    } in
    if conn.queued (reply m) && conn.flushed (reply m)
    then (ok (reply m), m')
    else (err xlog_message_failure, m')
