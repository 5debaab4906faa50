-- ===== src/Examples/Data.antt =====
-- Concrete basebackups, locks and segments that the examples share.
use pg_backup_ctl_plus.Base.{ℕ, ◌+◌, ◌%◌, ◌^◌, ◌<◌, ◌≤◌, refl, List, [], ◌∷◌, arith}
use pg_backup_ctl_plus.Base.Int.{ℤ, pos}
use pg_backup_ctl_plus.Wal.Position.{IsSegmentSize, XlogMacros}
use pg_backup_ctl_plus.Wal.Text.{encode_xlog_pos}
use pg_backup_ctl_plus.Wal.Text.RoundTrip.{decode-encode}
use pg_backup_ctl_plus.Archive.Backup.{BaseBackupDescr, Status, ready}
use pg_backup_ctl_plus.Archive.Lock.{
  LockInfo, pinned_valid, pinned_valid_locked, lock_info_locked, locked, locked_by_pin, not_locked,
}
use pg_backup_ctl_plus.Retention.Safety.{Usable}

-- The code's branch for servers before version 11.
abbrev pub modulo : XlogMacros
modulo = record { segment_offset = λ p s. p % s; segment_offset_lem = λ p s z. refl }

abbrev pub wal_segment : ℕ
wal_segment = 16777216

pub wal_segment-IsSegmentSize : IsSegmentSize wal_segment
wal_segment-IsSegmentSize = record {
  exponent = 24;
  exponent_small = omega arith;
  is_power = refl;
  positive = omega arith;
}

abbrev pub backup : ℕ → ℕ → ℤ → Status → BaseBackupDescr
backup id start pinned status = record {
  id = pos id;
  archive_id = pos 1;
  xlogpos = encode_xlog_pos start;
  xlogposend = encode_xlog_pos (start + 256);
  timeline = 1;
  label = b'l' ∷ [];
  fsentry = [];
  pinned = pinned;
  status = status;
  wal_segment_size = wal_segment;
}

abbrev pub free_backup : ℕ → ℕ → BaseBackupDescr
free_backup id start = backup id start (pos 0) ready

abbrev pub pinned_backup : ℕ → ℕ → BaseBackupDescr
pinned_backup id start = backup id start (pos 1) ready

abbrev pub locks : List LockInfo
locks = pinned_valid ∷ []

pub free_backup-Usable :
    (id start : ℕ) → start < 2 ^ 64 → wal_segment ≤ start → Usable locks (free_backup id start)
unfolding locked lock_info_locked pinned_valid_locked
free_backup-Usable id start h k = record {
  lock = not_locked;
  lock_eq = refl;
  start = start;
  decoded = decode-encode start h;
  start_fits = h;
  segment_size = wal_segment-IsSegmentSize;
  not_first = k;
}

pub pinned_backup-Usable :
    (id start : ℕ) → start < 2 ^ 64 → wal_segment ≤ start → Usable locks (pinned_backup id start)
unfolding locked lock_info_locked pinned_valid_locked
pinned_backup-Usable id start h k = record {
  lock = locked_by_pin;
  lock_eq = refl;
  start = start;
  decoded = decode-encode start h;
  start_fits = h;
  segment_size = wal_segment-IsSegmentSize;
  not_first = k;
}
