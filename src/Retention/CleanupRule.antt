-- ===== src/Retention/CleanupRule.antt =====
-- CleanupRetention (src/catalog/retention.cxx): the policy CLEANUP, which removes basebackups that
-- were aborted. Messages to the log are left out.
pub mod Aborted
use pg_backup_ctl_plus.Base.{
  ℕ, ◌+◌, ◌≡◌, Bool, true, false, Option, none, some, List, [], ◌∷◌, ◌==◌, if◌then◌else◌, length,
}
use pg_backup_ctl_plus.Base.Int.{u32}
use pg_backup_ctl_plus.Base.Result.{
  Error, retention_failure, catalog_issue, Result, ok, err, M, ◌>>=◌, ◌>>◌, return, throw, lift,
  modify, bind_result,
}
use pg_backup_ctl_plus.Wal.Position.{XlogMacros}
use pg_backup_ctl_plus.Wal.Text.{decode_xlog_pos}
use pg_backup_ctl_plus.Archive.Backup.{BaseBackupDescr, is_aborted, is_in_progress}
use pg_backup_ctl_plus.Archive.Lock.{LockType, LockInfo, is_pin, locked}
use pg_backup_ctl_plus.Archive.Cleanup.{CleanupDescr, move}
use pg_backup_ctl_plus.Retention.Rule.{RuleId, cleanup, Retention, on_descr, offset_keep}

-- CleanupRetention::setRetentionRuleType
unfoldable pub set_cleanup_rule_type : RuleId → M Retention (Unit {0})
set_cleanup_rule_type cleanup r = (ok tt, record r { rule_type = cleanup })
set_cleanup_rule_type _ r = (err catalog_issue, r)

pub record CleanupState : Type 0 where
  pub scheduled : ℕ
  pub currindex : ℕ

module _ ⦃macros : XlogMacros⦄ (locks : List LockInfo) (source : List BaseBackupDescr) where
  -- An aborted basebackup: one that is pinned stays, and its own start is kept.
  unfoldable pub cleanup_aborted :
      LockType → BaseBackupDescr → CleanupState → M CleanupDescr CleanupState
  cleanup_aborted t b k c =
      if is_pin t
      then bind_result (decode_xlog_pos b.xlogpos, c) (λ p c'. (ok k, offset_keep b p c'))
      else bind_result (move source b k.currindex c)
          (λ _ c'. (ok (record k { scheduled = u32 (k.scheduled + 1) }), c'))

  unfoldable pub cleanup_round : CleanupState → BaseBackupDescr → M CleanupDescr CleanupState
  unfolding cleanup_aborted
  cleanup_round k b = do
    t ← lift (locked locks b)
    k' ← (if is_aborted b.status then cleanup_aborted t b k else return k)
    (if is_in_progress b.status
        then throw retention_failure
        else return (record k' { currindex = u32 (k'.currindex + 1) }))

  unfoldable pub cleanup_rounds : CleanupState → List BaseBackupDescr → M CleanupDescr ℕ
  cleanup_rounds k [] = return k.scheduled
  cleanup_rounds k (b ∷ bs) = do k' ← cleanup_round k b; cleanup_rounds k' bs

module _ ⦃macros : XlogMacros⦄ where
  -- CleanupRetention::apply
  unfoldable pub apply_cleanup : List BaseBackupDescr → M Retention ℕ
  unfolding on_descr cleanup_rounds
  apply_cleanup list r =
      if length list == 0
      then (ok 0, r)
      else on_descr (cleanup_rounds r.locks list (record { scheduled = 0; currindex = 0 }) list) r
