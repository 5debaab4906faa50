-- ===== src/Examples/Rules.antt =====
-- The retention rules at concrete inputs.
use mathlib.Core.List.{reverse}
use pg_backup_ctl_plus.Base.{
  ◌<◌, ◌≡◌, refl, not, ◌&&◌, some, List, [], ◌∷◌, ◌++◌, arith, length, take, select, All, ◌==◌,
}
use pg_backup_ctl_plus.Base.Int.{pos}
use pg_backup_ctl_plus.Base.Result.{ok, err, retention_failure}
use pg_backup_ctl_plus.Archive.Backup.{BaseBackupDescr, aborted, in_progress}
use pg_backup_ctl_plus.Archive.Lock.{locked, lock_info_locked, pinned_valid_locked}
use pg_backup_ctl_plus.Archive.Cleanup.{CleanupDescr, new_cleanup_descr}
use pg_backup_ctl_plus.Archive.Cleanup.Offsets.{Protects}
use pg_backup_ctl_plus.Retention.Rule.{
  RuleId, keep_num, drop_num, cleanup, drop_with_label, Retention,
}
use pg_backup_ctl_plus.Retention.Safety.{Usable, is_held, after_keep}
use pg_backup_ctl_plus.Retention.Count.{CountRetention, apply}
use pg_backup_ctl_plus.Retention.Count.Spec.{unheld}
use pg_backup_ctl_plus.Retention.Count.Apply.{Ready, holding, apply-drop_num}
use pg_backup_ctl_plus.Retention.Label.{LabelRetention, apply_label}
use pg_backup_ctl_plus.Retention.Label.Round.{doomed, restorable}
use pg_backup_ctl_plus.Retention.Label.Selection.{apply_label-selects}
use pg_backup_ctl_plus.Retention.CleanupRule.{apply_cleanup}
use pg_backup_ctl_plus.Retention.CleanupRule.Aborted.{
  Settled, apply_cleanup-aborted, apply_cleanup-in_progress,
}
use pg_backup_ctl_plus.Base.Int.{eq_ℤ}
use pg_backup_ctl_plus.Wal.Text.RoundTrip.{decode-encode}
use pg_backup_ctl_plus.Retention.Rule.{drop_older_by_datetime}
use pg_backup_ctl_plus.Retention.DateTime.{DateTimeRetention, apply_datetime}
use pg_backup_ctl_plus.Retention.DateTime.Expired.{expired, Ended, apply_datetime-selects}
use pg_backup_ctl_plus.Base.{true}
use pg_backup_ctl_plus.Retention.Rule.{pin}
use pg_backup_ctl_plus.Retention.Pin.{PinDescr, PinRetention, action_oldest}
use pg_backup_ctl_plus.Examples.Data.{
  modulo, backup, free_backup, pinned_backup, locks, free_backup-Usable, pinned_backup-Usable,
}

abbrev rule : RuleId → Retention
rule id = record { rule_type = id; cleanup_descr = some new_cleanup_descr; locks = locks }

abbrev keep_one : CountRetention
keep_one = record { retention = rule keep_num; count = pos 1 }

abbrev drop_one : CountRetention
drop_one = record { retention = rule drop_num; count = pos 1 }

-- From the newest to the oldest.
abbrev archive : List BaseBackupDescr
archive = free_backup 9 83886120 ∷ pinned_backup 8 67108904 ∷ free_backup 7 50331688 ∷ []

archive-Usable : All (Usable locks) archive
archive-Usable = (
  free_backup-Usable 9 83886120 (omega arith) (omega arith),
  (
    pinned_backup-Usable 8 67108904 (omega arith) (omega arith),
    (free_backup-Usable 7 50331688 (omega arith) (omega arith), tt),
  ),
)

drop_one-Ready : Ready drop_one drop_num 1 new_cleanup_descr
drop_one-Ready = record { is_rule = refl; is_count = refl; fits = omega arith; has_descr = refl }

two_unheld : 1 < length (unheld (is_held locks) archive)
unfolding locked lock_info_locked pinned_valid_locked
two_unheld = omega arith

apply-drop_num_example :
    (last : BaseBackupDescr) × (u : Usable locks last) × (before : List BaseBackupDescr)
    × (d : CleanupDescr) × (apply ⦃macros = modulo⦄ archive drop_one
        ≡ (ok 1, holding drop_one (after_keep ⦃macros = modulo⦄ locks last u d)))
    × (d.off_list ≡ [])
    × (d.basebackups ≡ [] ++ take 1 (unheld (is_held locks) (reverse archive)))
    × (take 1 (unheld (is_held locks) (reverse archive)) ≡ before ++ last ∷ [])
apply-drop_num_example =
    apply-drop_num ⦃macros = modulo⦄ drop_one new_cleanup_descr archive 1 drop_one-Ready
      (omega arith) two_unheld (omega arith) (omega arith) (omega arith) archive-Usable

abbrev by_label : LabelRetention
by_label = record { retention = rule drop_with_label; label_filter = λ l. length l == 1 }

apply_label-selects_example :
    (d : CleanupDescr) × (apply_label ⦃macros = modulo⦄ archive by_label ≡ (
      ok (length (select (doomed locks drop_with_label by_label.label_filter) archive)),
      record by_label { retention = record by_label.retention { cleanup_descr = some d } },
    ))
    × (d.basebackups ≡ [] ++ select (doomed locks drop_with_label by_label.label_filter) archive)
    × All (Protects d) (
        select
          (λ b. not (doomed locks drop_with_label by_label.label_filter b) && restorable b.status)
          archive)
apply_label-selects_example =
    apply_label-selects ⦃macros = modulo⦄ by_label new_cleanup_descr archive refl refl (omega arith)
      (omega arith) archive-Usable

abbrev failed : BaseBackupDescr
failed = backup 6 33554472 (pos 1) aborted

abbrev running : BaseBackupDescr
running = backup 10 100663336 (pos 0) in_progress

failed-Settled : All (Settled ⦃macros = modulo⦄ [] (failed ∷ [])) (failed ∷ [])
unfolding locked lock_info_locked pinned_valid_locked
failed-Settled = ((refl, refl), tt)

apply_cleanup-aborted_example : apply_cleanup ⦃macros = modulo⦄ (failed ∷ []) (rule cleanup) ≡ (
  ok 1,
  record (rule cleanup) {
    cleanup_descr = some (record new_cleanup_descr { basebackups = failed ∷ [] });
  },
)
apply_cleanup-aborted_example =
    apply_cleanup-aborted ⦃macros = modulo⦄ [] (rule cleanup) new_cleanup_descr (failed ∷ []) refl
      refl (omega arith) (omega arith) failed-Settled

failed-Settled_before : All (Settled ⦃macros = modulo⦄ [] (failed ∷ running ∷ [])) (failed ∷ [])
unfolding locked lock_info_locked pinned_valid_locked
failed-Settled_before = ((refl, refl), tt)

apply_cleanup-in_progress_example :
    apply_cleanup ⦃macros = modulo⦄ (failed ∷ running ∷ []) (rule cleanup) ≡ (
      err retention_failure,
      record (rule cleanup) {
        cleanup_descr = some (record new_cleanup_descr { basebackups = failed ∷ [] });
      },
    )
unfolding locked lock_info_locked pinned_valid_locked
apply_cleanup-in_progress_example =
    apply_cleanup-in_progress ⦃macros = modulo⦄ [] (rule cleanup) new_cleanup_descr (failed ∷ [])
      running [] refl refl (omega arith) failed-Settled_before refl refl

-- The basebackups below the id 9 exceed the rule.
abbrev by_age : DateTimeRetention
by_age = record {
  retention = rule drop_older_by_datetime;
  exceeds = λ t b. not (eq_ℤ b.id (pos 9));
}

archive-Ended : All Ended archive
archive-Ended = (
  (83886376, decode-encode 83886376 (omega arith)),
  (
    (67109160, decode-encode 67109160 (omega arith)),
    ((50331944, decode-encode 50331944 (omega arith)), tt),
  ),
)

apply_datetime-selects_example :
    (d : CleanupDescr) × (apply_datetime ⦃macros = modulo⦄ archive by_age ≡ (
      ok (length (select (expired locks (by_age.exceeds drop_older_by_datetime)) archive)),
      record by_age { retention = record by_age.retention { cleanup_descr = some d } },
    ))
    × (d.basebackups ≡ [] ++ select (expired locks (by_age.exceeds drop_older_by_datetime)) archive)
    × All
        (Protects d)
        (select (λ b. not (expired locks (by_age.exceeds drop_older_by_datetime) b)) archive)
apply_datetime-selects_example =
    apply_datetime-selects ⦃macros = modulo⦄ by_age new_cleanup_descr archive refl (omega arith)
      archive-Usable archive-Ended

abbrev pin_oldest : PinDescr
pin_oldest = record { is_pin = true; operation = action_oldest; count = 0 }

abbrev pins : PinRetention
pins = record {
  pin_rule_type = pin;
  pin_descr = some pin_oldest;
  count_pin_context = record { performed = 0; count = 0; expected = 0 };
  batches = [];
}
