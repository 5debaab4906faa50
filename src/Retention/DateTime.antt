-- ===== src/Retention/DateTime.antt =====
-- DateTimeRetention (src/catalog/retention.cxx): the rules that compare the time at which a
-- basebackup stopped with an interval. BackupCatalog::exceedsRetention asks the database for
-- this, so whether a basebackup exceeds the rule is a parameter.
pub mod Expired
use pg_backup_ctl_plus.Base.{
  ℕ, ◌+◌, ◌≡◌, Bool, true, false, Option, none, some, List, [], ◌∷◌, ◌||◌, ◌&&◌, not, if◌then◌else◌,
}
use pg_backup_ctl_plus.Base.Int.{u32}
use pg_backup_ctl_plus.Base.Result.{
  catalog_issue, undefined_behaviour, Result, ok, err, M, ◌>>=◌, ◌>>◌, return, throw, lift, modify,
  bind_result,
}
use pg_backup_ctl_plus.Wal.Position.{XlogMacros}
use pg_backup_ctl_plus.Wal.Text.{decode_xlog_pos}
use pg_backup_ctl_plus.Archive.Backup.{BaseBackupDescr, is_in_progress}
use pg_backup_ctl_plus.Archive.Lock.{
  LockType, locked_by_shm, locked_by_pin, locked_by_invalid_state, not_locked, LockInfo, locked,
}
use pg_backup_ctl_plus.Archive.Cleanup.{CleanupDescr, move}
use pg_backup_ctl_plus.Retention.Rule.{
  RuleId, keep_newer_by_datetime, keep_older_by_datetime, drop_newer_by_datetime,
  drop_older_by_datetime, Retention, offset_keep, keep_wal,
}

pub record DateTimeRetention : Type 0 where
  pub retention : Retention
  pub open retention use *
  -- exceeds_retention_rule after the call of exceedsRetention
  pub exceeds : RuleId → BaseBackupDescr → Bool

abbrev pub is_datetime_rule : RuleId → Bool
is_datetime_rule keep_newer_by_datetime = true
is_datetime_rule keep_older_by_datetime = true
is_datetime_rule drop_newer_by_datetime = true
is_datetime_rule drop_older_by_datetime = true
is_datetime_rule _ = false

-- DateTimeRetention::setRetentionRuleType
unfoldable pub set_datetime_rule_type : RuleId → M DateTimeRetention (Unit {0})
set_datetime_rule_type t r =
    if is_datetime_rule t
    then (ok tt, record r { retention = record r.retention { rule_type = t } })
    else (err catalog_issue, r)

-- A basebackup that is only in an invalid state is not one of these.
abbrev pub in_use : LockType → Bool
in_use locked_by_pin = true
in_use locked_by_shm = true
in_use locked_by_invalid_state = false
in_use not_locked = false

module _ ⦃macros : XlogMacros⦄ where
  -- The calls that keep a basebackup's WAL; XLogCleanupOffsetKeep does nothing without a descriptor.
  unfoldable pub datetime_keep : BaseBackupDescr → M (Option CleanupDescr) (Unit {0})
  datetime_keep b none = bind_result (decode_xlog_pos b.xlogpos, none) (λ _ d. (ok tt, d))
  datetime_keep b (some c) = let (res, c') = keep_wal b c in (res, some c')

  -- The branch that deletes: the WAL is kept from the end of the basebackup on. The list of
  -- basebackups is reached through the descriptor, which is not checked.
  unfoldable pub drop_on : List BaseBackupDescr → ℕ → BaseBackupDescr → M CleanupDescr ℕ
  drop_on source k b = do
    move source b k
    p ← lift (decode_xlog_pos b.xlogposend)
    modify (offset_keep b p)
    return (u32 (k + 1))

  unfoldable pub datetime_drop :
      List BaseBackupDescr → ℕ → BaseBackupDescr → M (Option CleanupDescr) ℕ
  unfolding drop_on
  datetime_drop source k b none = (err undefined_behaviour, none)
  datetime_drop source k b (some c) = let (res, c') = drop_on source k b c in (res, some c')

module _ ⦃macros : XlogMacros⦄ (locks : List LockInfo) (source : List BaseBackupDescr)
    (exceeds : BaseBackupDescr → Bool) where
  -- One round of the loop; k is `currindex`.
  unfoldable pub datetime_round : ℕ → BaseBackupDescr → M (Option CleanupDescr) ℕ
  unfolding datetime_drop datetime_keep
  datetime_round k b = do
    t ← lift (locked locks b)
    (if exceeds b && not (is_in_progress b.status || in_use t)
        then datetime_drop source k b
        else (datetime_keep b >> return k))

  unfoldable pub datetime_rounds : ℕ → List BaseBackupDescr → M (Option CleanupDescr) ℕ
  datetime_rounds k [] = return k
  datetime_rounds k (b ∷ bs) = do k' ← datetime_round k b; datetime_rounds k' bs

module _ ⦃macros : XlogMacros⦄ where
  -- DateTimeRetention::apply
  unfoldable pub apply_datetime : List BaseBackupDescr → M DateTimeRetention ℕ
  unfolding datetime_rounds
  apply_datetime list r =
      let (res, d) = datetime_rounds r.locks list (r.exceeds r.rule_type) 0 list r.cleanup_descr in
      (res, record r { retention = record r.retention { cleanup_descr = d } })
