-- ===== src/Retention/Rule.antt =====
-- Class Retention (include/catalog/retention.hxx, src/catalog/retention.cxx): what the rules share.
-- The handles of the catalog and the archive, which the rules only pass on, are left out.
use pg_backup_ctl_plus.Base.{ℕ, ◌≡◌, refl, Option, none, some, List, [], ◌∷◌, ◌++◌}
use pg_backup_ctl_plus.Base.Int.{u32}
use pg_backup_ctl_plus.Base.Result.{archive_issue, Result, ok, err, M, ◌>>=◌, lift, modify}
use pg_backup_ctl_plus.Wal.Position.{XlogMacros, xlog_prev_segment_start_position}
use pg_backup_ctl_plus.Wal.Text.{decode_xlog_pos}
use pg_backup_ctl_plus.Archive.Backup.{BaseBackupDescr}
use pg_backup_ctl_plus.Archive.Lock.{LockInfo}
use pg_backup_ctl_plus.Archive.Cleanup.{CleanupDescr, new_cleanup_descr, xlog_cleanup_offset_keep}

-- RetentionRuleId of include/catalog/descr.hxx.
pub data RuleId : Type 0 where
  no_rule keep_with_label drop_with_label keep_num drop_num : RuleId
  keep_newer_by_datetime keep_older_by_datetime : RuleId
  drop_newer_by_datetime drop_older_by_datetime : RuleId
  pin unpin cleanup : RuleId

pub record Retention : Type 0 where
  pub rule_type : RuleId
  pub cleanup_descr : Option CleanupDescr
  pub locks : List LockInfo

-- `init()` of every rule but the pin rule: a new descriptor, whatever was there.
unfoldable pub init : Retention → Retention
init r = record r { cleanup_descr = some new_cleanup_descr }

-- `init(prevCleanupDescr)` of these rules: the rule must not hold a descriptor.
unfoldable pub init_with : CleanupDescr → M Retention (Unit {0})
init_with c r = elim r.cleanup_descr [
  | none ↦ (ok tt, record r { cleanup_descr = some c })
  | some d ↦ (err archive_issue, r)
]

-- Retention::reset: the list is cleared; `this->cleanupDescr == nullptr;` compares and drops the
-- result, so the descriptor stays.
unfoldable pub reset : Retention → Retention
reset r = elim r.cleanup_descr [
  | none ↦ r
  | some c ↦ record r { cleanup_descr = some (record c { basebackups = [] }) }
]

-- A rule that holds a descriptor, is reset, and is then given another descriptor: it throws, and
-- still holds its own one, without the basebackups.
init_with-reset :
    (r : Retention) (c d : CleanupDescr)
    → r.cleanup_descr ≡ some c
    → init_with d (reset r)
      ≡ (err archive_issue, record r { cleanup_descr = some (record c { basebackups = [] }) })
unfolding init_with reset
init_with-reset r c d h = rw (h, reset) refl

-- BackupLockInfoAggregator::addLockInfo, which every rule inherits.
unfoldable pub add_lock_info : LockInfo → Retention → Retention
add_lock_info l r = record r { locks = r.locks ++ l ∷ [] }

-- The rules work on the descriptor behind the rule's pointer, and refuse to without one.
unfoldable pub on_descr : {A : Type 0} → M CleanupDescr A → M Retention A
on_descr m r = elim r.cleanup_descr [
  | none ↦ (err archive_issue, r)
  | some c ↦ let (res, c') = m c in (res, record r { cleanup_descr = some c' })
]

pub on_descr_lem :
    {A : Type 0} (m : M CleanupDescr A) (r : Retention) (c d : CleanupDescr) (res : Result A)
    → r.cleanup_descr ≡ some c
    → m c ≡ (res, d)
    → on_descr m r ≡ (res, record r { cleanup_descr = some d })
unfolding on_descr
on_descr_lem m r c d res e f = rw (e, on_descr) (rw f)

module _ ⦃macros : XlogMacros⦄ where
  -- The position from which a basebackup needs its WAL, one segment early, as the rules compute it.
  unfoldable pub wal_start : BaseBackupDescr → ℕ → ℕ
  wal_start b p = xlog_prev_segment_start_position p (u32 b.wal_segment_size)

  unfoldable pub offset_keep : BaseBackupDescr → ℕ → CleanupDescr → CleanupDescr
  offset_keep b start c = (xlog_cleanup_offset_keep c start b.timeline (u32 b.wal_segment_size)).1

  -- The two calls by which a rule keeps the WAL of a basebackup that stays.
  unfoldable pub keep_wal : BaseBackupDescr → M CleanupDescr (Unit {0})
  unfolding wal_start offset_keep
  keep_wal b = do p ← lift (decode_xlog_pos b.xlogpos); modify (offset_keep b (wal_start b p))
