-- ===== src/Retention/Pin.antt =====
-- PinRetention (src/catalog/retention.cxx): PIN and UNPIN. Whether a basebackup is intact on disk
-- (StreamingBaseBackupDirectory::verify) and what the catalog answers to an update of pins
-- (BackupCatalog::performPinAction, after opening it) are parameters; the batches of ids that the
-- catalog is given are recorded.
pub mod Chosen
use mathlib.Core.List.{reverse}
use pg_backup_ctl_plus.Base.{
  ℕ, ◌+◌, ◌≡◌, Bool, true, false, not, ◌&&◌, Option, none, some, List, [], ◌∷◌, ◌++◌, if◌then◌else◌,
  length, leb, ◌==◌,
}
use pg_backup_ctl_plus.Base.Int.{ℤ, is_neg, truthy, u32}
use pg_backup_ctl_plus.Base.Result.{
  archive_issue, catalog_issue, Result, ok, err, M, ◌>>=◌, ◌>>◌, return, throw, modify, bind_result,
}
use pg_backup_ctl_plus.Archive.Backup.{BaseBackupDescr, is_ready}
use pg_backup_ctl_plus.Retention.Rule.{RuleId, pin, unpin}

-- PinOperationType of include/catalog/descr.hxx.
pub data PinOperation : Type 0 where
  action_id action_count action_newest action_oldest action_pinned action_undefined : PinOperation

-- BasicPinDescr: `is_pin` stands for the tag PIN_BASEBACKUP.
pub record PinDescr : Type 0 where
  pub is_pin : Bool
  pub operation : PinOperation
  pub count : ℕ

pub record PinContext : Type 0 where
  pub performed : ℕ
  pub count : ℕ
  pub expected : ℕ

pub record PinRetention : Type 0 where
  pub pin_rule_type : RuleId
  pub pin_descr : Option PinDescr
  pub count_pin_context : PinContext
  pub batches : List (List ℤ)

-- PinRetention::setRetentionRuleType
unfoldable pub set_pin_rule_type : RuleId → M PinRetention (Unit {0})
set_pin_rule_type pin r = (ok tt, record r { pin_rule_type = pin })
set_pin_rule_type unpin r = (ok tt, record r { pin_rule_type = unpin })
set_pin_rule_type _ r = (err catalog_issue, r)

-- PinRetention::reset
unfoldable pub reset_pin : PinRetention → PinRetention
reset_pin r = record r { count_pin_context = record { performed = 0; count = 0; expected = 0 } }

-- The batch list and `performed`, which every loop fills together.
abbrev pub Batch : Type 0
Batch = List ℤ × ℕ

abbrev pub push : BaseBackupDescr → Batch → Batch
push b (ids, performed) = (ids ++ b.id ∷ [], u32 (performed + 1))

module _ (verify : BaseBackupDescr → Bool) where
  -- The three tests of the loops.
  abbrev pub suitable : BaseBackupDescr → Bool
  suitable b = not (is_neg b.id) && is_ready b.status && verify b

  unfoldable pub newest_loop : List BaseBackupDescr → Batch → Batch
  newest_loop [] s = s
  newest_loop (b ∷ bs) s = let rest = newest_loop bs s in if suitable b then push b s else rest

  unfoldable pub id_loop : List BaseBackupDescr → Batch → Batch
  id_loop [] s = s
  id_loop (b ∷ bs) s = id_loop bs (if suitable b then push b s else s)

  -- It is left by `break` after an id is pushed, so that a count of 0 takes one.
  unfoldable pub count_loop : ℕ → List BaseBackupDescr → Batch → Batch
  count_loop n [] s = s
  count_loop n (b ∷ bs) s =
      let skip = count_loop n bs s in
      let more = count_loop n bs (push b s) in
      if suitable b then (if leb n (push b s).1 then push b s else more) else skip

abbrev pub is_pinned : BaseBackupDescr → Bool
is_pinned b = not (is_neg b.id) && truthy b.pinned

unfoldable pub pinned_loop : List BaseBackupDescr → Batch → Batch
pinned_loop [] s = s
pinned_loop (b ∷ bs) s = pinned_loop bs (if is_pinned b then push b s else s)

unfoldable pub set_context : ℕ → ℕ → PinRetention → PinRetention
set_context count expected r = record r {
  count_pin_context = record { performed = 0; count = count; expected = expected };
}

module _ (verify : BaseBackupDescr → Bool) (perform : PinDescr → List ℤ → Result (Unit {0})) where
  -- PinRetention::performDatabaseAction
  unfoldable pub perform_database_action : PinDescr → List ℤ → M PinRetention (Unit {0})
  perform_database_action p ids r =
      if length ids == 0
      then (ok tt, r)
      else (perform p ids, record r { batches = r.batches ++ ids ∷ [] })

  -- The end of every action.
  unfoldable pub finish : PinDescr → Batch → M PinRetention ℕ
  unfolding perform_database_action
  finish p (ids, performed) r =
      let counted = record r {
        count_pin_context = record r.count_pin_context { performed = performed };
      } in
      (perform_database_action p ids >> return performed) counted

  -- PinRetention::dispatchPinAction with the four actions that it calls.
  unfoldable pub dispatch_pin_action :
      PinDescr → PinOperation → List BaseBackupDescr → M PinRetention ℕ
  unfolding finish set_context id_loop count_loop newest_loop pinned_loop
  dispatch_pin_action p action_id list r =
      finish p (id_loop verify list ([], 0)) (set_context 0 (u32 (length list)) r)
  dispatch_pin_action p action_count list r =
      finish p (count_loop verify p.count list ([], 0)) (set_context p.count p.count r)
  dispatch_pin_action p action_newest list r =
      finish p (newest_loop verify list ([], 0)) (set_context (u32 (length list)) 1 r)
  dispatch_pin_action p action_oldest list r =
      finish p (newest_loop verify (reverse list) ([], 0)) (set_context (u32 (length list)) 1 r)
  dispatch_pin_action p action_pinned list r =
      let r' = set_context (u32 (length list)) (u32 (length list)) r in
      if p.is_pin then (err archive_issue, r') else finish p (pinned_loop list ([], 0)) r'
  dispatch_pin_action p action_undefined list r = (err archive_issue, r)

  -- PinRetention::apply
  unfoldable pub apply_pin : List BaseBackupDescr → M PinRetention ℕ
  unfolding dispatch_pin_action
  apply_pin list r = elim r.pin_descr [
    | none ↦ (err archive_issue, r)
    | some p ↦ if length list == 0 then (ok 0, r) else dispatch_pin_action p p.operation list r
  ]
