-- ===== src/Stream/Receiver/Handled.antt =====
-- What becomes of a message that WALStreamerProcess (src/backup/backupprocesses.cxx) receives.
use pg_backup_ctl_plus.Base.{
  ℕ, ◌+◌, ◌-◌, ◌*◌, ◌%◌, ◌^◌, ◌<◌, ◌≡◌, refl, ap, sym, ◌∙◌, subst, Bool, true, false, some, List,
  arith, ◌==◌, if◌then◌else◌, length,
}
use pg_backup_ctl_plus.Base.Result.{ok}
use pg_backup_ctl_plus.Buffer.Memory.{Heap, MemoryBuffer, outside, splice}
use pg_backup_ctl_plus.Buffer.Memory
use pg_backup_ctl_plus.Buffer.Memory.Access.{overwrite-whole}
use pg_backup_ctl_plus.Wal.Position.{IsSegmentSize, XlogMacros}
use pg_backup_ctl_plus.Wal.Text.{encode_xlog_pos}
use pg_backup_ctl_plus.Stream.Message.{
  DataMessage, Connection, AnyMessage, data_message, new_stream_message, new_data_message,
}
use pg_backup_ctl_plus.Stream.Message
use pg_backup_ctl_plus.Stream.Decode.{buffer_of, data_bytes, message-data_bytes}
use pg_backup_ctl_plus.Stream.LogBackup.{DiskFile, LogItem, LogBackup, Call, Os, SegmentNumbers}
use pg_backup_ctl_plus.Stream.LogBackup
use pg_backup_ctl_plus.Stream.LogBackup.Files.{logging}
use pg_backup_ctl_plus.Stream.LogBackup.Stored.{Ready, Outcome}
use pg_backup_ctl_plus.Stream.LogBackup.Written.{write-Outcome}
use pg_backup_ctl_plus.Stream.Receiver.{
  rethrown, Receiver, StreamIdent, update_start_segment_write_offset, note_written, write_log,
  handle_data, handle_message, process,
}

-- A receiver that writes to a log backup.
abbrev pub receiving : Receiver → LogBackup → Receiver
receiving r b = record r { backup_handler = some b }

-- The buffer holds what was received.
received :
    ⦃heap : Heap⦄ (bs fresh : List ℕ) (m : MemoryBuffer)
    → heap.new_char (length bs) ≡ some fresh
    → 0 < length bs
    → length bs < 2 ^ 64
    → (b : MemoryBuffer) × (Memory.allocate (length bs) m ≡ (ok tt, b))
      × (Memory.write bs 0 b ≡ (ok (length bs), buffer_of bs))
unfolding Memory.allocate Memory.write Memory.write_raw splice
received ⦃heap⦄ bs fresh m h p w =
    let l : length fresh ≡ length bs = heap.length-new_char (length bs) fresh h in
    let o : outside (length bs) 0 (record { block = some fresh; size = length bs }) ≡ false =
      ground arith in
    (
      record { block = some fresh; size = length bs },
      rw (h, Memory.allocate) refl,
      rw o (rw (overwrite-whole bs fresh (sym l), Memory.write_raw) refl),
    )

module _ (s : StreamIdent) where
  -- What the receiver notes of a message that it has stored.
  abbrev pub noted : ⦃macros : XlogMacros⦄ → ℕ → ℕ → ℕ → ℕ → StreamIdent
  noted ⦃macros⦄ start server position flush = record s {
    xlogpos = encode_xlog_pos start;
    server_position = server;
    write_pos_start_offset =
        (s.write_pos_start_offset + macros.segment_offset server s.wal_segment_size) % 2 ^ 32;
    write_position = position;
    flush_position = flush;
    last_reported_flush_position = if flush == 0 then s.last_reported_flush_position else flush;
  }

module _ ⦃os : Os⦄ ⦃macros : XlogMacros⦄ ⦃segments : SegmentNumbers⦄ where
  abbrev pub stored_state : Receiver → ℕ → ℕ → ℕ → ℕ → LogBackup → Receiver
  stored_state r start server position flush b = record r {
    backup_handler = some b;
    streamident = noted r.streamident start server position flush;
  }

  handle_data-written :
      (m : DataMessage) (r : Receiver) (b b' : LogBackup) (position flush : ℕ)
      → LogBackup.write (some m) r.streamident.timeline b ≡ (ok (position, flush), b')
      → handle_data m (receiving r b)
        ≡ (ok tt, stored_state r m.xlogstartpos m.xlogserverpos position flush b')
  unfolding handle_data update_start_segment_write_offset write_log
  handle_data-written m r b b' position flush e =
      ap
        (λ x. note_written x (record r {
          backup_handler = some b;
          streamident = record r.streamident {
            xlogpos = encode_xlog_pos m.xlogstartpos;
            server_position = m.xlogserverpos;
            write_position = m.xlogserverpos;
            write_pos_start_offset =
                (r.streamident.write_pos_start_offset
                  + macros.segment_offset m.xlogserverpos r.streamident.wal_segment_size)
                % 2 ^ 32;
          };
        }))
        e

module _ ⦃os : Os⦄ ⦃macros : XlogMacros⦄ ⦃segments : SegmentNumbers⦄ ⦃heap : Heap⦄ where
  -- The data message that a message on the wire is read as.
  abbrev pub read_message : ℕ → ℕ → ℕ → ℕ → List ℕ → DataMessage
  read_message size start server address payload = record {
    base = new_stream_message b'w' size;
    xlogstartpos = start;
    xlogserverpos = server;
    xlogstreamtime = address;
    xlogdata = buffer_of payload;
  }

  finished :
      (conn : Connection) (address garbage time_us : ℕ) (r : Receiver) (size synced n off : ℕ)
      (disk : List DiskFile) (items : List LogItem) (server time : ℕ) (payload : List ℕ)
      (b : MemoryBuffer)
      → Memory.allocate (length (data_bytes (n * size + off) server time payload)) r.receive_buffer
        ≡ (ok tt, b)
      → Memory.write (data_bytes (n * size + off) server time payload) 0 b ≡ (
        ok (length (data_bytes (n * size + off) server time payload)),
        buffer_of (data_bytes (n * size + off) server time payload),
      )
      → Message.message address garbage
          (buffer_of (data_bytes (n * size + off) server time payload))
          r.streamident.wal_segment_size
        ≡ ok (data_message (read_message size (n * size + off) server address payload))
      → (o : Outcome size r.streamident.timeline synced n off 0 disk payload (
          LogBackup.write
            (some (read_message size (n * size + off) server address payload))
            r.streamident.timeline
            (logging size synced items disk)))
      → process conn address garbage time_us
          (data_bytes (n * size + off) server time payload)
          (receiving r (logging size synced items disk))
        ≡ (
          ok tt,
          stored_state
              (record r {
                receive_buffer = buffer_of (data_bytes (n * size + off) server time payload);
              })
              (n * size + off)
              server
              (o.segment * size + o.offset)
              o.flushed
              (logging size (synced + (o.segment - n)) o.items o.files),
        )
  unfolding process handle_message
  finished conn address garbage time_us r size synced n off disk items server time payload b a c m
        o =
      rw a (
        rw c (
          rw m (
            ap rethrown (
              handle_data-written (read_message size (n * size + off) server address payload)
                (record r {
                  receive_buffer = buffer_of (data_bytes (n * size + off) server time payload);
                })
                (logging size synced items disk)
                (logging size (synced + (o.segment - n)) o.items o.files)
                (o.segment * size + o.offset) o.flushed o.returns))))

  -- A WAL data message of the connected server, with some data and positions below 2^64, where the
  -- receiver's log backup is at the place at which it starts, the segment size is legal, the operating
  -- system grants every call and the allocations succeed. Processing its bytes succeeds. The log
  -- backup then has the outcome of a write: exactly the data is appended and the handle stands behind
  -- it. The receiver notes the text of the start, the server's position, the position behind the data,
  -- and the start of the last segment reached, if a segment was completed.
  pub process-stores :
      (conn : Connection) (address garbage time_us : ℕ) (r : Receiver) (size synced n off : ℕ)
      (has : Bool) (items : List LogItem) (disk : List DiskFile) (server time : ℕ)
      (payload fresh fresh' : List ℕ)
      → IsSegmentSize size
      → r.streamident.wal_segment_size ≡ size
      → ((c : Call) → os.grants c ≡ true)
      → Ready size r.streamident.timeline n off has items disk
      → 0 < length payload
      → n * size + off + length payload + 25 < 2 ^ 64
      → server < 2 ^ 64
      → heap.new_char (length payload + 25) ≡ some fresh
      → heap.new_char (length payload) ≡ some fresh'
      → (o : Outcome size r.streamident.timeline synced n off 0 disk payload (
          LogBackup.write
            (some (read_message size (n * size + off) server address payload))
            r.streamident.timeline
            (logging size synced items disk)))
        × (process conn address garbage time_us
              (data_bytes (n * size + off) server time payload)
              (receiving r (logging size synced items disk))
            ≡ (
              ok tt,
              stored_state
                  (record r {
                    receive_buffer = buffer_of (data_bytes (n * size + off) server time payload);
                  })
                  (n * size + off)
                  server
                  (o.segment * size + o.offset)
                  o.flushed
                  (logging size (synced + (o.segment - n)) o.items o.files),
            ))
  process-stores conn address garbage time_us r size synced n off has items disk server time payload
        fresh fresh' z zs granted ready pos w hs h h' =
      let wire = data_bytes (n * size + off) server time payload in
      let len : length wire ≡ length payload + 25 = omega arith in
      let (b, a, c) =
        received wire fresh r.receive_buffer (ap heap.new_char len ∙ h) (omega arith)
          (omega arith) in
      let o =
        write-Outcome size r.streamident.timeline synced n off has items disk
          (read_message size (n * size + off) server address payload) payload z granted ready
          (omega arith) in
      (
        o,
        finished conn address garbage time_us r size synced n off disk items server time payload b a
            c
            (subst
              (λ x.
                Message.message address garbage
                  (buffer_of (data_bytes (n * size + off) server time payload)) x
                ≡ ok (data_message (read_message size (n * size + off) server address payload)))
              (sym zs)
              (message-data_bytes (n * size + off) server time size garbage address payload fresh'
                pos (omega arith) (omega arith) hs h'))
            o,
      )
