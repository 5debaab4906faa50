-- ===== src/Examples/Positions.antt =====
-- Positions and the removal of WAL at concrete inputs.
use pg_backup_ctl_plus.Base.{some, ◌+◌, ◌≤◌, ◌≡◌, refl, true, List, [], ◌∷◌, arith, select, All}
use pg_backup_ctl_plus.Base.Result.{ok}
use pg_backup_ctl_plus.Wal.Position.{
  word_mod, xlog_segment_start_position, xlog_prev_segment_start_position, prev_wraps, prev-start,
  xlog_offset,
}
use pg_backup_ctl_plus.Wal.Text.{encode_xlog_pos, decode_xlog_pos}
use pg_backup_ctl_plus.Wal.Text.RoundTrip.{decode-encode}
use pg_backup_ctl_plus.Archive.Backup.{BaseBackupDescr}
use pg_backup_ctl_plus.Archive.Cleanup.{CleanupDescr, find, new_cleanup_descr}
use pg_backup_ctl_plus.Archive.Cleanup.Offsets.{Protects}
use pg_backup_ctl_plus.Archive.Removal.{
  WalFile, complete, judged, lowest_tli, needs, remove_xlogs, remove_xlogs-keeps,
}
use pg_backup_ctl_plus.Examples.Data.{modulo, wal_segment, wal_segment-IsSegmentSize, free_backup}

decode-encode_example : decode_xlog_pos (encode_xlog_pos 4345298984) ≡ ok 4345298984
decode-encode_example = decode-encode 4345298984 (omega arith)

prev-start_example :
    (xlog_prev_segment_start_position ⦃macros = modulo⦄ 50331688 wal_segment + wal_segment
      ≡ xlog_segment_start_position ⦃macros = modulo⦄ 50331688 wal_segment)
    × (xlog_offset ⦃macros = modulo⦄
          (xlog_prev_segment_start_position ⦃macros = modulo⦄ 50331688 wal_segment)
          wal_segment
        ≡ 0)
prev-start_example =
    prev-start ⦃macros = modulo⦄ 50331688 wal_segment wal_segment-IsSegmentSize (omega arith)
      (omega arith)

prev_wraps_example :
    word_mod ≤ xlog_prev_segment_start_position ⦃macros = modulo⦄ 40 wal_segment + wal_segment
prev_wraps_example =
    prev_wraps ⦃macros = modulo⦄ 40 wal_segment wal_segment-IsSegmentSize (omega arith)
      (omega arith)

abbrev offsets : CleanupDescr
offsets = record new_cleanup_descr {
  off_list =
      (1, record { timeline = 1; wal_segment_size = wal_segment; wal_cleanup_start_pos = 33554432 })
      ∷ [];
}

abbrev protected : BaseBackupDescr
protected = free_backup 7 50331688

abbrev files : List WalFile
files =
    record { status = complete; timeline = 1; recptr = 16777216 }
    ∷ record { status = complete; timeline = 1; recptr = 50331648 }
    ∷ record { status = complete; timeline = 1; recptr = 67108864 }
    ∷ []

protected-Protects : Protects offsets protected
unfolding find
protected-Protects = (
  50331688,
  decode-encode 50331688 (omega arith),
  record { timeline = 1; wal_segment_size = wal_segment; wal_cleanup_start_pos = 33554432 },
  refl,
  omega arith,
)

files-judged : All (λ f. judged offsets f ≡ true) files
unfolding find lowest_tli
files-judged = (refl, (refl, (refl, tt)))

remove_xlogs-keeps_example :
    (left : List WalFile) × (remove_xlogs (some offsets) files ≡ ok left)
    × All (λ b. select (needs b) left ≡ select (needs b) files) (protected ∷ [])
remove_xlogs-keeps_example =
    remove_xlogs-keeps offsets files (protected ∷ []) refl files-judged (protected-Protects, tt)
