-- ===== src/Retention/Count.antt =====
-- CountRetention (src/catalog/retention.cxx): KEEP +n and DROP +n. Lists run from the newest
-- basebackup to the oldest.
pub mod Spec
pub mod Keep
pub mod Drop
pub mod Apply
use pg_backup_ctl_plus.Base.{
  ℕ, zero, suc, ◌+◌, ◌%◌, ◌≡◌, refl, Bool, true, false, not, Option, none, some, List, [], ◌∷◌,
  ◌++◌, ltb, leb, ◌==◌, if◌then◌else◌, length,
}
use mathlib.Core.List.{reverse}
use pg_backup_ctl_plus.Base.Int.{ℤ, pos, negsuc, is_neg, u32, unsigned}
use pg_backup_ctl_plus.Base.Result.{
  Error, archive_issue, catalog_issue, retention_failure, Result, ok, err, M, ◌>>=◌, ◌>>◌, return,
  throw, lift, modify, guard, bind_result,
}
use pg_backup_ctl_plus.Wal.Position.{XlogMacros}
use pg_backup_ctl_plus.Archive.Backup.{BaseBackupDescr}
use pg_backup_ctl_plus.Archive.Lock.{LockInfo, is_locked, locked}
use pg_backup_ctl_plus.Archive.Cleanup.{CleanupDescr, move}
use pg_backup_ctl_plus.Retention.Rule.{
  RuleId, keep_num, drop_num, Retention, on_descr, keep_wal, reset,
}

pub record CountRetention : Type 0 where
  pub retention : Retention
  pub open retention use *
  pub count : ℤ

-- CountRetention::setValue
unfoldable pub set_value : ℤ → M CountRetention (Unit {0})
set_value n r = if is_neg n then (err catalog_issue, r) else (ok tt, record r { count = n })

-- CountRetention::setRetentionRuleType
unfoldable pub set_retention_rule_type : RuleId → M CountRetention (Unit {0})
set_retention_rule_type keep_num r =
    (ok tt, record r { retention = record r.retention { rule_type = keep_num } })
set_retention_rule_type drop_num r =
    (ok tt, record r { retention = record r.retention { rule_type = drop_num } })
set_retention_rule_type _ r = (err catalog_issue, r)

-- CountRetention::reset
unfoldable pub reset_count : CountRetention → CountRetention
unfolding reset
reset_count r = record r { retention = reset r.retention; count = negsuc 0 }

-- The loop variables of keep_num; both are unsigned int and count list entries.
pub record KeepState : Type 0 where
  pub bbcounted : ℕ
  pub currindex : ℕ

-- The first loop of drop_num: how many basebackups are not locked.
unfoldable pub count_healthy : List LockInfo → List BaseBackupDescr → ℕ → Result ℕ
count_healthy locks [] n = ok n
count_healthy locks (b ∷ bs) n = elim (locked locks b) [
  | ok t ↦ count_healthy locks bs (if is_locked t then n else u32 (n + 1))
  | err e ↦ err e
]

module _ ⦃macros : XlogMacros⦄ (locks : List LockInfo) (count : ℕ)
    (source : List BaseBackupDescr) where
  -- One round of keep_num for a basebackup that is not locked.
  unfoldable pub count_unlocked : KeepState → BaseBackupDescr → M CleanupDescr KeepState
  count_unlocked k b =
      let counted = u32 (k.bbcounted + 1) in
      if leb counted count
      then (keep_wal b >> return (record k { bbcounted = counted }))
      else (move source b k.currindex
          >> return (record { bbcounted = counted; currindex = u32 (k.currindex + 1) }))

  unfoldable pub keep_round : KeepState → BaseBackupDescr → M CleanupDescr KeepState
  unfolding count_unlocked
  keep_round k b = do
    t ← lift (locked locks b)
    if is_locked t then (keep_wal b >> return k) else count_unlocked k b

  unfoldable pub keep_rounds : KeepState → List BaseBackupDescr → M CleanupDescr ℕ
  keep_rounds k [] = return k.bbcounted
  keep_rounds k (b ∷ bs) = do k' ← keep_round k b; keep_rounds k' bs

  -- The second loop of drop_num, from the oldest basebackup on; it is left by `break`.
  unfoldable pub drop_rounds : ℕ → ℕ → List BaseBackupDescr → M CleanupDescr ℕ
  drop_rounds healthy currindex [] c = (ok currindex, c)
  drop_rounds healthy currindex (b ∷ bs) c =
      let skip = drop_rounds healthy currindex bs c in
      let next = λ (c' : CleanupDescr). drop_rounds healthy (u32 (currindex + 1)) bs c' in
      elim (locked locks b) [
        | err e ↦ (err e, c)
        | ok t ↦
            if is_locked t
            then skip
            else if leb healthy (u32 (currindex + 1))
            then (err retention_failure, c)
            else bind_result (move source b currindex c) (λ _ c'.
              if leb count (u32 (currindex + 1))
              then bind_result (keep_wal b c') (λ _ c''. (ok (u32 (currindex + 1)), c''))
              else next c')
      ]

  unfoldable pub drop_loops : M CleanupDescr ℕ
  unfolding drop_rounds count_healthy
  drop_loops = do
    healthy ← lift (count_healthy locks source 0)
    guard (not (leb healthy count)) retention_failure
    drop_rounds healthy 0 (reverse source)

module _ ⦃macros : XlogMacros⦄ where
  -- The loop for a rule type; count has been converted to unsigned int.
  unfoldable pub by_rule : List LockInfo → ℕ → List BaseBackupDescr → RuleId → M CleanupDescr ℕ
  by_rule locks count list keep_num =
      keep_rounds locks count list (record { bbcounted = 0; currindex = 0 }) list
  by_rule locks count list drop_num = drop_loops locks count list
  by_rule locks count list _ = throw catalog_issue

  -- CountRetention::apply
  unfoldable pub apply : List BaseBackupDescr → M CountRetention ℕ
  unfolding on_descr by_rule
  apply list r =
      if length list == 0
      then (ok 0, r)
      else if ltb (length list) (unsigned r.count)
      then (ok 0, r)
      else let (res, r') =
          on_descr (by_rule r.locks (unsigned r.count) list r.rule_type) r.retention in
        (res, record r { retention = r' })
