-- ===== src/Archive/Cleanup.antt =====
-- What a retention rule decides (include/backup/backupcleanupdescr.hxx): the basebackups to remove,
-- and for each timeline the position up to which WAL may be removed. XLogCleanupOffsetKeep
-- and `move` are those of class Retention (src/catalog/retention.cxx). The end position of an
-- offset, which nothing sets, is left out.
pub mod Offsets
use pg_backup_ctl_plus.Base.{
  ℕ, zero, suc, ◌+◌, ◌≤◌, ◌<◌, ◌≡◌, refl, Bool, true, false, Option, none, some, List, [], ◌∷◌,
  ◌++◌, arith, ltb, leb, ◌==◌, if◌then◌else◌, length,
}
use pg_backup_ctl_plus.Base.Result.{Error, archive_issue, Result, ok, err, M}
use pg_backup_ctl_plus.Wal.Position.{XlogMacros, xlog_segment_start_position}
use pg_backup_ctl_plus.Archive.Backup.{BaseBackupDescr}

pub data WalCleanupMode : Type 0 where
  wal_cleanup_range wal_cleanup_offset wal_cleanup_all no_wal_to_delete : WalCleanupMode

pub data BasebackupCleanupMode : Type 0 where
  no_basebackups basebackup_keep basebackup_delete : BasebackupCleanupMode

pub record CleanupOffset : Type 0 where
  pub timeline : ℕ
  pub wal_segment_size : ℕ
  pub wal_cleanup_start_pos : ℕ

-- std::map from timelines, in ascending order of the keys.
abbrev pub OffsetMap : Type 0
OffsetMap = List (ℕ × CleanupOffset)

pub record CleanupDescr : Type 0 where
  pub basebackups : List BaseBackupDescr
  pub basebackup_mode : BasebackupCleanupMode
  pub off_list : OffsetMap
  pub mode : WalCleanupMode

unfoldable pub find : ℕ → OffsetMap → Option CleanupOffset
find k [] = none
find k ((j, o) ∷ m) = if j == k then some o else find k m

-- A new key goes to its place in the order; the value of an old one is replaced.
unfoldable pub insert : ℕ → CleanupOffset → OffsetMap → OffsetMap
insert k o [] = (k, o) ∷ []
insert k o ((j, p) ∷ m) =
    if j == k then (k, o) ∷ m else if ltb k j then (k, o) ∷ (j, p) ∷ m else (j, p) ∷ insert k o m

module _ ⦃macros : XlogMacros⦄ where
  -- Retention::XLogCleanupOffsetKeep. The result says whether the offset was moved.
  unfoldable pub xlog_cleanup_offset_keep : CleanupDescr → ℕ → ℕ → ℕ → Bool × CleanupDescr
  xlog_cleanup_offset_keep c start timeline wal_segment_size =
      let pos = xlog_segment_start_position start wal_segment_size in
      elim (find timeline c.off_list) [
        | none ↦ (
          true,
          record c {
            off_list =
                insert timeline
                  (record {
                    timeline = timeline;
                    wal_segment_size = wal_segment_size;
                    wal_cleanup_start_pos = pos;
                  })
                  c.off_list;
          },
        )
        | some o ↦
            if ltb pos o.wal_cleanup_start_pos
            then (
              true,
              record c {
                off_list = insert timeline (record o { wal_cleanup_start_pos = pos }) c.off_list;
              },
            )
            else (false, c)
      ]

-- Retention::move: the descriptor itself is appended, the index is only checked.
unfoldable pub move : List BaseBackupDescr → BaseBackupDescr → ℕ → M CleanupDescr (Unit {0})
move source b index c =
    if length source == 0
    then (ok tt, c)
    else if leb (length source) index
    then (err archive_issue, c)
    else (ok tt, record c { basebackups = c.basebackups ++ b ∷ [] })

-- The descriptor that every `init()` of a rule makes.
abbrev pub new_cleanup_descr : CleanupDescr
new_cleanup_descr = record {
  basebackups = [];
  basebackup_mode = basebackup_delete;
  off_list = [];
  mode = wal_cleanup_offset;
}
