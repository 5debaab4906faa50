-- ===== src/Retention/Label/Round.antt =====
-- What a label rule wants of one basebackup, and what one round of LabelRetention::apply
-- (src/catalog/retention.cxx) does with it.
use pg_backup_ctl_plus.Base.{
  ℕ, ◌+◌, ◌<◌, ◌^◌, ◌≡◌, refl, ap, sym, ◌∙◌, Bool, true, false, not, ◌&&◌, List, [], ◌∷◌, ◌++◌,
  arith, length,
}
use pg_backup_ctl_plus.Base.Int.{u32}
use pg_backup_ctl_plus.Base.Result.{ok}
use pg_backup_ctl_plus.Wal.Position.{XlogMacros}
use pg_backup_ctl_plus.Archive.Backup.{
  BaseBackupDescr, Status, in_progress, aborted, ready, other_status,
}
use pg_backup_ctl_plus.Archive.Lock.{LockInfo}
use pg_backup_ctl_plus.Archive.Cleanup.{CleanupDescr}
use pg_backup_ctl_plus.Retention.Rule.{
  RuleId, keep_with_label, drop_with_label, wal_start, offset_keep,
}
use pg_backup_ctl_plus.Retention.Safety.{Usable, is_held, verdict}
use pg_backup_ctl_plus.Retention.Count.Keep.{move_lem}
use pg_backup_ctl_plus.Retention.Label.{
  LabelState, label_start_of, label_start, label_action, label_drop,
}

-- Whether a rule wants a basebackup gone whose label matches, or does not.
abbrev pub wants_gone : RuleId → Bool → Bool
wants_gone keep_with_label matches = not matches
wants_gone drop_with_label matches = matches
wants_gone _ matches = false

abbrev pub is_label_rule : RuleId → Bool
is_label_rule keep_with_label = true
is_label_rule drop_with_label = true
is_label_rule _ = false

-- The specification: the rule wants it gone, and no lock holds it.
abbrev pub doomed : List LockInfo → RuleId → (List ℕ → Bool) → BaseBackupDescr → Bool
doomed locks rule filter b = not (is_held locks b) && wants_gone rule (filter b.label)

-- Statuses for which the start of the WAL is taken one segment early.
abbrev pub restorable : Status → Bool
restorable ready = true
restorable in_progress = true
restorable aborted = false
restorable (other_status t) = false

abbrev pub with_backup : CleanupDescr → BaseBackupDescr → CleanupDescr
with_backup c b = record c { basebackups = c.basebackups ++ b ∷ [] }

module _ ⦃macros : XlogMacros⦄ (locks : List LockInfo) (b : BaseBackupDescr)
    (u : Usable locks b) where
  started_of :
      (s : Status)
      → (p : ℕ) × (label_start_of s b ≡ ok p) × (restorable s ≡ true → p ≡ wal_start b u.start)
  unfolding label_start_of
  started_of aborted = (u.start, u.decoded, λ h. cc)
  started_of ready = (wal_start b u.start, rw (u.decoded, label_start_of), λ h. refl)
  started_of in_progress = (wal_start b u.start, rw (u.decoded, label_start_of), λ h. refl)
  started_of (other_status t) = (0, refl, λ h. cc)

  pub started :
      (p : ℕ) × (label_start b ≡ ok p) × (restorable b.status ≡ true → p ≡ wal_start b u.start)
  unfolding label_start
  started = started_of b.status

module _ ⦃macros : XlogMacros⦄ (locks : List LockInfo) (source : List BaseBackupDescr)
    (b : BaseBackupDescr) (u : Usable locks b) (p : ℕ) (k : LabelState) (c : CleanupDescr) where
  drop-held : is_held locks b ≡ true → label_drop locks source b p k c ≡ (ok k, offset_keep b p c)
  unfolding label_drop
  drop-held h = rw (u.lock_eq, label_drop) (rw (sym (verdict locks b u) ∙ h))

  drop-free :
      is_held locks b ≡ false
      → k.currindex < length source
      → k.deleted + 1 < 2 ^ 32
      → label_drop locks source b p k c
        ≡ (ok (record k { deleted = k.deleted + 1 }), with_backup c b)
  unfolding label_drop
  drop-free h i w =
      let fits : u32 (k.deleted + 1) ≡ k.deleted + 1 = omega arith in
      rw (u.lock_eq, label_drop)
        (rw (sym (verdict locks b u) ∙ h) (
          rw (move_lem source b k.currindex c i)
            (ap (λ n. (ok (record k { deleted = n }), with_backup c b)) fits)))

  pub action-kept :
      (rule : RuleId) (matches : Bool)
      → is_label_rule rule ≡ true
      → (not (is_held locks b) && wants_gone rule matches) ≡ false
      → label_action locks source rule matches b p k c ≡ (ok k, offset_keep b p c)
  unfolding label_action
  action-kept keep_with_label true l d = refl
  action-kept keep_with_label false l d = drop-held (ground arith)
  action-kept drop_with_label true l d = drop-held (ground arith)
  action-kept drop_with_label false l d = refl
  action-kept _ matches l d = cc

  pub action-doomed :
      (rule : RuleId) (matches : Bool)
      → is_label_rule rule ≡ true
      → (not (is_held locks b) && wants_gone rule matches) ≡ true
      → k.currindex < length source
      → k.deleted + 1 < 2 ^ 32
      → label_action locks source rule matches b p k c
        ≡ (ok (record k { deleted = k.deleted + 1 }), with_backup c b)
  unfolding label_action
  action-doomed keep_with_label true l d i w = ground arith
  action-doomed keep_with_label false l d i w = drop-free (ground arith) i w
  action-doomed drop_with_label true l d i w = drop-free (ground arith) i w
  action-doomed drop_with_label false l d i w = ground arith
  action-doomed _ matches l d i w = cc
