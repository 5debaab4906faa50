-- ===== src/Stream/LogBackup/Written.antt =====
-- What TransactionLogBackup::write (src/backup/backup.cxx) stores, and what it refuses.
use pg_backup_ctl_plus.Base.{
  ℕ, ◌+◌, ◌*◌, ◌^◌, ◌<◌, ◌≡◌, ◌≢◌, refl, Bool, true, false, some, List, [], ◌∷◌, arith, ◌==◌,
  length,
}
use pg_backup_ctl_plus.Base.Result.{archive_issue, err}
use pg_backup_ctl_plus.Buffer.Memory.Access.{first_bytes-length}
use pg_backup_ctl_plus.Wal.Position.{IsSegmentSize, XlogMacros, xlog_offset}
use pg_backup_ctl_plus.Stream.Message.{DataMessage}
use pg_backup_ctl_plus.Stream.LogBackup.{
  DiskFile, LogItem, Call, Os, SegmentNumbers, check_position, write,
}
use pg_backup_ctl_plus.Stream.LogBackup.Files.{logging, open_item, partial_of}
use pg_backup_ctl_plus.Stream.LogBackup.Rounds.{offset-of}
use pg_backup_ctl_plus.Stream.LogBackup.Stored.{Ready, between, within, Outcome, loop_lem}

-- A message with data, in its buffer as a whole.
abbrev pub carries : DataMessage → ℕ → List ℕ → DataMessage
carries m start bs = record m {
  xlogstartpos = start;
  xlogdata = record { block = some bs; size = length bs };
}

-- The segment size is legal, the operating system grants every call, and the handle is at the offset
-- of the segment where a message starts whose data ends below 2^64. Then write returns the position
-- behind the data, leaves the handle there, appends exactly the data to the bytes of the log, each
-- complete segment in a file of its size with its final name, counts the segments it completes, and
-- reports the start of the last segment reached as flushed, or 0 where it completes none.
pub write-Outcome :
    ⦃os : Os⦄ ⦃macros : XlogMacros⦄ ⦃segments : SegmentNumbers⦄ (size : ℕ)
    (timeline synced n off : ℕ) (has : Bool) (items : List LogItem) (disk : List DiskFile)
    (m : DataMessage) (bs : List ℕ)
    → IsSegmentSize size
    → ((c : Call) → os.grants c ≡ true)
    → Ready size timeline n off has items disk
    → n * size + off + length bs < 2 ^ 64
    → Outcome size timeline synced n off 0 disk bs
        (write (some (carries m (n * size + off) bs)) timeline (logging size synced items disk))
unfolding write check_position xlog_offset
write-Outcome ⦃os⦄ ⦃macros⦄ ⦃segments⦄ size timeline synced n off has items disk m bs z granted
      (between k fs all) w =
    rw (macros.segment_offset_lem (n * size + 0) size z) (
      rw (offset-of n size 0 z.positive) (
        rw (first_bytes-length bs) (
          loop_lem granted size z timeline (length bs) synced n 0 0 false [] fs bs
            (between n fs all) (omega arith) w)))
write-Outcome ⦃os⦄ ⦃macros⦄ ⦃segments⦄ size timeline synced n off has items disk m bs z granted
      (within k fs c s f all l) w =
    let e : (length c == length c) ≡ true = ground arith in
    rw (macros.segment_offset_lem (n * size + length c) size z) (
      rw (offset-of n size (length c) l) (
        rw e (
          rw (first_bytes-length bs) (
            loop_lem granted size z timeline (length bs) synced n (length c) 0 true
              (open_item timeline n (length c) s f ∷ []) (partial_of timeline n c ∷ fs) bs
              (within n fs c s f all l) (omega arith) w))))

-- With the same handle, a message that starts at another offset of its segment than the handle is at
-- is refused, and nothing changes.
pub write-misplaced :
    ⦃os : Os⦄ ⦃macros : XlogMacros⦄ ⦃segments : SegmentNumbers⦄ (size : ℕ)
    (timeline synced n off : ℕ) (has : Bool) (items : List LogItem) (disk : List DiskFile)
    (m : DataMessage) (bs : List ℕ) (k off' : ℕ)
    → IsSegmentSize size
    → Ready size timeline n off has items disk
    → off' < size
    → off' ≢ off
    → write (some (carries m (k * size + off') bs)) timeline (logging size synced items disk)
      ≡ (err archive_issue, logging size synced items disk)
unfolding write check_position xlog_offset
write-misplaced ⦃os⦄ ⦃macros⦄ ⦃segments⦄ size timeline synced n off has items disk m bs k off' z
      (between i fs all) h d =
    let e : (off' == 0) ≡ false = ground (arith, d) in
    rw (macros.segment_offset_lem (k * size + off') size z)
      (rw (offset-of k size off' h) (rw e refl))
write-misplaced ⦃os⦄ ⦃macros⦄ ⦃segments⦄ size timeline synced n off has items disk m bs k off' z
      (within i fs c s f all l) h d =
    let e : (length c == off') ≡ false = ground (arith, d) in
    rw (macros.segment_offset_lem (k * size + off') size z)
      (rw (offset-of k size off' h) (rw e refl))
