-- ===== src/Examples/Messages.antt =====
-- Buffers and messages at concrete inputs.
use pg_backup_ctl_plus.Base.{
  ℕ, ◌+◌, ◌^◌, ◌<◌, ◌≤◌, ◌≡◌, refl, sym, ap, ◌∙◌, inr, Bool, true, false, Option, none, some, List,
  [], ◌∷◌, arith, ltb, length, replicate, length-replicate,
}
use pg_backup_ctl_plus.Base.Bytes.{be32}
use pg_backup_ctl_plus.Base.Result.{ok, err, failure, xlog_message_failure}
use pg_backup_ctl_plus.Buffer.Memory.{Heap, MemoryBuffer}
use pg_backup_ctl_plus.Buffer.Memory
use pg_backup_ctl_plus.Buffer.Memory.Access
use pg_backup_ctl_plus.Buffer.Protocol.{ProtocolBuffer, first}
use pg_backup_ctl_plus.Buffer.Protocol.Content.{holding}
use pg_backup_ctl_plus.Buffer.ErrorStack.{ErrorField, push, pop, to_buffer}
use pg_backup_ctl_plus.Buffer.ErrorStack.Counts.{IsCounted, stack, push-IsCounted, pop-push}
use pg_backup_ctl_plus.Buffer.ErrorStack.Message.{message, to_buffer-message}
use pg_backup_ctl_plus.Copy.State.{
  CopyContext, context, data_in, data_out, both_response, in_response, call_read, call_write, run,
  read, write,
}
use pg_backup_ctl_plus.Copy.State.Automaton.{transitions, history}
use pg_backup_ctl_plus.Copy.State.Routes.{Route, rank, run-changes}
use pg_backup_ctl_plus.Copy.State.Transfer.{copy_data, source, read-write_data}
use pg_backup_ctl_plus.Copy.State.Response.{format_of, copy_response, write-copy_response}
use pg_backup_ctl_plus.Copy.Message.{
  DataMessage, new_message, new_data_message, read_from, write_to, read_data_from,
}
use pg_backup_ctl_plus.Copy.Message.Header.{header, read_from-write_to, read_data_from-copy_data}
use pg_backup_ctl_plus.Stream.Message
use pg_backup_ctl_plus.Stream.Message.{
  StatusUpdate, Connection, new_stream_message, data_message, feedback_message, reply, send,
}
use pg_backup_ctl_plus.Stream.Decode.{
  buffer_of, data_bytes, keepalive_bytes, message-data_bytes, message-keepalive_bytes, short_data,
  message-Malformed,
}
use pg_backup_ctl_plus.Stream.Send.{Fields, send-Fields}

abbrev pub new_zeros : ℕ → Bool → Option (List ℕ)
new_zeros n true = some (replicate n 0)
new_zeros n false = none

pub length-new_zeros : (n : ℕ) (b : List ℕ) (c : Bool) → new_zeros n c ≡ some b → length b ≡ n
length-new_zeros n b true e = ap length (sym (cc e)) ∙ length-replicate n 0
length-new_zeros n b false e = absurd (cc e)

pub lt-new_zeros :
    (n : ℕ) (b : List ℕ) (c : Bool) → ltb n (2 ^ 64) ≡ c → new_zeros n c ≡ some b → n < 2 ^ 64
lt-new_zeros n b true h e = ground (arith, h)
lt-new_zeros n b false h e = absurd (cc e)

-- A heap that has room for every size_t.
abbrev pub zeros : Heap
zeros = record {
  new_char = λ n. new_zeros n (ltb n (2 ^ 64));
  length-new_char = λ n b e. length-new_zeros n b (ltb n (2 ^ 64)) e;
  new_char_lt = λ n b e. lt-new_zeros n b (ltb n (2 ^ 64)) refl e;
}

read-write_example :
    (c : List ℕ) × (Memory.write
        (7 ∷ 8 ∷ [])
        1
        (record { block = some (1 ∷ 2 ∷ 3 ∷ 4 ∷ []); size = 4 })
      ≡ (ok 2, record { block = some c; size = 4 }))
    × (length c ≡ 4)
    × (Memory.read 2 1 (record { block = some c; size = 4 })
        ≡ (ok (7 ∷ 8 ∷ []), record { block = some c; size = 4 }))
    × ((Memory.read 1 3 (record { block = some c; size = 4 })).0
        ≡ (Memory.read 1 3 (record { block = some (1 ∷ 2 ∷ 3 ∷ 4 ∷ []); size = 4 })).0)
read-write_example =
    Access.read-write (1 ∷ 2 ∷ 3 ∷ 4 ∷ []) 4 refl (omega arith) (7 ∷ 8 ∷ []) 1 1 3 (omega arith)
      (omega arith) (inr (omega arith))

abbrev severity : ErrorField
severity = record { type = b'S'; value = b'E' ∷ b'R' ∷ [] }

abbrev text : ErrorField
text = record { type = b'M'; value = b'n' ∷ b'o' ∷ b'!' ∷ [] }

one-IsCounted : IsCounted (stack (severity ∷ []) 3 3)
one-IsCounted = record { total = refl; of_top = refl; is_size = omega arith }

two-IsCounted : IsCounted (stack (text ∷ severity ∷ []) 4 7)
two-IsCounted = record { total = refl; of_top = refl; is_size = omega arith }

push-IsCounted_example : IsCounted (push text (stack (severity ∷ []) 3 3))
push-IsCounted_example = push-IsCounted text (stack (severity ∷ []) 3 3) one-IsCounted (omega arith)

pop-push_example : pop (push text (stack (severity ∷ []) 3 3)) ≡ (ok tt, stack (severity ∷ []) 3 3)
pop-push_example = pop-push text (severity ∷ []) 3 3 one-IsCounted (omega arith)

abbrev fresh_buffer : ProtocolBuffer
fresh_buffer = record { memory = record { block = none; size = 0 }; curr_pos = 0 }

to_buffer-message_example :
    (counters : ℕ × ℕ) × (to_buffer ⦃heap = zeros⦄ true
        (fresh_buffer, stack (text ∷ severity ∷ []) 4 7)
      ≡ (
        ok 10,
        (holding 15 (message true (text ∷ severity ∷ [])) [], stack [] counters.0 counters.1),
      ))
    × (length (message true (text ∷ severity ∷ [])) ≡ 15)
to_buffer-message_example =
    to_buffer-message ⦃heap = zeros⦄ true (text ∷ severity ∷ []) 4 7 fresh_buffer (replicate 15 0)
      two-IsCounted (omega arith) refl

abbrev opening : CopyContext
opening =
    context (some (format_of (0 ∷ 1 ∷ []) 1)) (some (holding 5 [] (b'c' ∷ be32 4)))
      (some fresh_buffer) (some fresh_buffer) (some (source (1 ∷ []) 0)) both_response

run-changes_example :
    ((run ⦃heap = zeros⦄ (call_write ∷ call_write ∷ call_read ∷ []) opening).state
      ≡ transitions
          (history ⦃heap = zeros⦄ (call_write ∷ call_write ∷ call_read ∷ []) opening)
          both_response)
    × (n : ℕ) × Route n both_response
        (run ⦃heap = zeros⦄ (call_write ∷ call_write ∷ call_read ∷ []) opening).state
    × (n + rank (run ⦃heap = zeros⦄ (call_write ∷ call_write ∷ call_read ∷ []) opening).state
        ≤ rank both_response)
run-changes_example = run-changes ⦃heap = zeros⦄ (call_write ∷ call_write ∷ call_read ∷ []) opening

read-write_data_example :
    (sent received : ProtocolBuffer) × (write ⦃heap = zeros⦄
        (context none none none (some fresh_buffer) (some (source (7 ∷ 8 ∷ []) 0)) data_out)
      ≡ (ok 7, context none none none (some sent) (some (source (7 ∷ 8 ∷ []) 0)) data_out))
    × (sent.memory ≡ record { block = some (copy_data (7 ∷ 8 ∷ [])); size = 7 })
    × (read ⦃heap = zeros⦄ (context none (some (first sent)) (some fresh_buffer) none none data_in)
        ≡ (ok 2, context none (some sent) (some received) none none data_in))
    × (received.memory ≡ record { block = some (7 ∷ 8 ∷ []); size = 2 })
read-write_data_example =
    read-write_data ⦃heap = zeros⦄ (7 ∷ 8 ∷ []) (replicate 7 0) (replicate 2 0) none none none none
      none none fresh_buffer fresh_buffer 0 (omega arith) (omega arith) refl refl

write-copy_response_example :
    (write ⦃heap = zeros⦄
        (context (some (format_of (0 ∷ 1 ∷ []) 1)) none none (some fresh_buffer) none in_response)
      ≡ (
        ok 12,
        context
            (some (format_of (0 ∷ 1 ∷ []) 1))
            none
            none
            (some (holding 12 (copy_response b'G' 1 (0 ∷ 1 ∷ [])) []))
            none
            data_in,
      ))
    × (length (copy_response b'G' 1 (0 ∷ 1 ∷ [])) ≡ 12)
write-copy_response_example =
    write-copy_response ⦃heap = zeros⦄ (0 ∷ 1 ∷ []) 1 none none none fresh_buffer (replicate 12 0)
      in_response refl (omega arith) refl

message-data_bytes_example :
    Message.message ⦃heap = zeros⦄ 4096 0
      (buffer_of (data_bytes 16777216 16777300 5 (9 ∷ 8 ∷ 7 ∷ [])))
      16777216
    ≡ ok (
        data_message (record {
          base = new_stream_message b'w' 16777216;
          xlogstartpos = 16777216;
          xlogserverpos = 16777300;
          xlogstreamtime = 4096;
          xlogdata = buffer_of (9 ∷ 8 ∷ 7 ∷ []);
        }))
message-data_bytes_example =
    message-data_bytes ⦃heap = zeros⦄ 16777216 16777300 5 16777216 0 4096 (9 ∷ 8 ∷ 7 ∷ [])
      (replicate 3 0) (omega arith) (omega arith) (omega arith) (omega arith) refl

message-keepalive_bytes_example :
    Message.message ⦃heap = zeros⦄ 4096 0 (buffer_of (keepalive_bytes 16777300 5 1)) 16777216
    ≡ ok (
        feedback_message (record {
          base = new_stream_message b'k' 16777216;
          xlogserverendpos = 4096;
          xlogservertime = 4096;
        }))
message-keepalive_bytes_example =
    message-keepalive_bytes ⦃heap = zeros⦄ 16777300 5 1 16777216 0 4096

message-Malformed_example :
    Message.message ⦃heap = zeros⦄ 4096 0 (buffer_of (b'w' ∷ 1 ∷ 2 ∷ [])) 16777216
    ≡ err xlog_message_failure
message-Malformed_example =
    message-Malformed ⦃heap = zeros⦄ b'w' (1 ∷ 2 ∷ []) 16777216 0 4096
      (short_data (1 ∷ 2 ∷ []) (omega arith))

abbrev status : StatusUpdate
status = record {
  base = record { kind = b'r'; request_response = true; wal_segment_size = 16777216 };
  xlog_pos_written = 16777300;
  xlog_pos_flushed = 16777216;
  xlog_pos_applied = 0;
  current_time_us = 5;
  report_flush_position = true;
}

abbrev pub open_connection : Connection
open_connection = record { queued = λ bs. true; flushed = λ bs. true }

sent_reply : (send open_connection status).0 ≡ ok (reply status)
unfolding send
sent_reply = refl

send-Fields_example :
    Fields status (reply status)
    × ((send open_connection status).1 ≡ record status {
      base = record status.base { request_response = false };
      report_flush_position = false;
    })
send-Fields_example = send-Fields open_connection status (reply status) sent_reply

abbrev one_byte : DataMessage
one_byte = new_data_message

read_from-write_to_example :
    (q : ProtocolBuffer) × (write_to ⦃heap = zeros⦄
        (record { message_identifier = b'c'; message_size = 5 })
        (some fresh_buffer)
      ≡ (ok 5, some q))
    × (read_from (new_message 0, some (first q))
        ≡ (ok 5, (record { message_identifier = b'c'; message_size = 5 }, some q)))
read_from-write_to_example =
    read_from-write_to ⦃heap = zeros⦄ (record { message_identifier = b'c'; message_size = 5 })
      (new_message 0) fresh_buffer (replicate 5 0) (omega arith) (omega arith) (omega arith) refl

read_data_from-copy_data_example :
    read_data_from ⦃heap = zeros⦄ (one_byte, some (holding 6 [] (copy_data (7 ∷ [])))) ≡ (
      err failure,
      (
        record one_byte { base = record { message_identifier = b'd'; message_size = 6 } },
        some (holding 6 (header b'd' 5) (7 ∷ [])),
      ),
    )
read_data_from-copy_data_example =
    read_data_from-copy_data ⦃heap = zeros⦄ (7 ∷ []) (replicate 6 0) one_byte (omega arith)
      (omega arith) refl
