-- ===== src/Archive/Backup.antt =====
-- The descriptor of a basebackup (include/catalog/descr.hxx). Texts are lists of bytes. Columns
-- that no modelled code reads are left out.
use pg_backup_ctl_plus.Base.{ℕ, Bool, true, false, List}
use pg_backup_ctl_plus.Base.Int.{ℤ}

-- The status is a text in the source; the code compares it with three constants.
pub data Status : Type 0 where
  in_progress aborted ready : Status
  other_status : List ℕ → Status

abbrev pub is_ready : Status → Bool
is_ready ready = true
is_ready in_progress = false
is_ready aborted = false
is_ready (other_status t) = false

abbrev pub is_aborted : Status → Bool
is_aborted aborted = true
is_aborted in_progress = false
is_aborted ready = false
is_aborted (other_status t) = false

abbrev pub is_in_progress : Status → Bool
is_in_progress in_progress = true
is_in_progress aborted = false
is_in_progress ready = false
is_in_progress (other_status t) = false

pub record BaseBackupDescr : Type 0 where
  pub id : ℤ
  pub archive_id : ℤ
  pub xlogpos : List ℕ
  pub xlogposend : List ℕ
  -- `int` in the source; the code only hands it on as `unsigned int`, which is this number
  pub timeline : ℕ
  pub label : List ℕ
  pub fsentry : List ℕ
  pub pinned : ℤ
  pub status : Status
  pub wal_segment_size : ℕ
