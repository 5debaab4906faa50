-- ===== src/Retention/Label.antt =====
-- LabelRetention (src/catalog/retention.cxx): KEEP and DROP WITH LABEL. The regular expression is
-- Boost's; what the rule uses of it is whether a label matches, which is a parameter.
pub mod Round
pub mod Selection
use pg_backup_ctl_plus.Base.{
  ℕ, zero, suc, ◌+◌, ◌≤◌, ◌<◌, ◌^◌, ◌≡◌, refl, ap, sym, ◌∙◌, Bool, true, false, not, Option, none,
  some, List, [], ◌∷◌, ◌++◌, append_assoc, append-nil, arith, ◌==◌, if◌then◌else◌, length, select,
  All, Bool-cases, inl, inr,
}
use pg_backup_ctl_plus.Base.Int.{u32}
use pg_backup_ctl_plus.Base.Result.{
  Error, archive_issue, catalog_issue, Result, ok, err, M, ◌>>=◌, ◌>>◌, return, throw, lift, modify,
  bind_result,
}
use pg_backup_ctl_plus.Wal.Position.{XlogMacros}
use pg_backup_ctl_plus.Wal.Text.{decode_xlog_pos}
use pg_backup_ctl_plus.Archive.Backup.{
  BaseBackupDescr, Status, in_progress, aborted, ready, other_status,
}
use pg_backup_ctl_plus.Archive.Lock.{LockInfo, is_locked, locked}
use pg_backup_ctl_plus.Archive.Cleanup.{CleanupDescr, move}
use pg_backup_ctl_plus.Retention.Rule.{
  RuleId, keep_with_label, drop_with_label, Retention, on_descr, wal_start, offset_keep,
}

pub record LabelRetention : Type 0 where
  pub retention : Retention
  pub open retention use *
  -- boost::regex_match with the rule's filter
  pub label_filter : List ℕ → Bool

-- LabelRetention::setRetentionRuleType
unfoldable pub set_label_rule_type : RuleId → M LabelRetention (Unit {0})
set_label_rule_type keep_with_label r =
    (ok tt, record r { retention = record r.retention { rule_type = keep_with_label } })
set_label_rule_type drop_with_label r =
    (ok tt, record r { retention = record r.retention { rule_type = drop_with_label } })
set_label_rule_type _ r = (err catalog_issue, r)

module _ ⦃macros : XlogMacros⦄ where
  -- The position that the loop computes first. A status that is none of the three leaves
  -- InvalidXLogRecPtr, which is 0.
  unfoldable pub label_start_of : Status → BaseBackupDescr → Result ℕ
  label_start_of aborted b = decode_xlog_pos b.xlogpos
  label_start_of ready b = elim (decode_xlog_pos b.xlogpos) [
    | ok p ↦ ok (wal_start b p)
    | err e ↦ err e
  ]
  label_start_of in_progress b = elim (decode_xlog_pos b.xlogpos) [
    | ok p ↦ ok (wal_start b p)
    | err e ↦ err e
  ]
  label_start_of (other_status t) b = ok 0

  unfoldable pub label_start : BaseBackupDescr → Result ℕ
  unfolding label_start_of
  label_start b = label_start_of b.status b

-- `result` and `currindex`; the index counts every basebackup of the list.
pub record LabelState : Type 0 where
  pub deleted : ℕ
  pub currindex : ℕ

module _ ⦃macros : XlogMacros⦄ (locks : List LockInfo) (source : List BaseBackupDescr) where
  unfoldable pub label_keep : BaseBackupDescr → ℕ → LabelState → M CleanupDescr LabelState
  label_keep b start k c = (ok k, offset_keep b start c)

  -- The branch for a basebackup that the rule selects: a lock keeps it.
  unfoldable pub label_drop : BaseBackupDescr → ℕ → LabelState → M CleanupDescr LabelState
  unfolding label_keep
  label_drop b start k = do
    t ← lift (locked locks b)
    (if is_locked t
        then label_keep b start k
        else (move source b k.currindex >> return (record k { deleted = u32 (k.deleted + 1) })))

  -- The two `switch` statements.
  unfoldable pub label_action :
      RuleId → Bool → BaseBackupDescr → ℕ → LabelState → M CleanupDescr LabelState
  unfolding label_keep label_drop
  label_action keep_with_label true b start k = label_keep b start k
  label_action drop_with_label true b start k = label_drop b start k
  label_action drop_with_label false b start k = label_keep b start k
  label_action keep_with_label false b start k = label_drop b start k
  label_action _ m b start k = throw archive_issue

  unfoldable pub label_round :
      RuleId → (List ℕ → Bool) → LabelState → BaseBackupDescr → M CleanupDescr LabelState
  unfolding label_start label_action
  label_round rule filter k b = do
    start ← lift (label_start b)
    k' ← label_action rule (filter b.label) b start k
    return (record k' { currindex = u32 (k'.currindex + 1) })

  unfoldable pub label_rounds :
      RuleId → (List ℕ → Bool) → LabelState → List BaseBackupDescr → M CleanupDescr ℕ
  label_rounds rule filter k [] = return k.deleted
  label_rounds rule filter k (b ∷ bs) = do
    k' ← label_round rule filter k b
    label_rounds rule filter k' bs

module _ ⦃macros : XlogMacros⦄ where
  -- LabelRetention::apply
  unfoldable pub apply_label : List BaseBackupDescr → M LabelRetention ℕ
  unfolding on_descr label_rounds
  apply_label list r =
      if length list == 0
      then (ok 0, r)
      else let start : LabelState = record { deleted = 0; currindex = 0 } in
        let (res, r') =
          on_descr (label_rounds r.locks list r.rule_type r.label_filter start list) r.retention in
        (res, record r { retention = r' })
