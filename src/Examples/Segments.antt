-- ===== src/Examples/Segments.antt =====
-- Writing WAL segments at concrete inputs.
use pg_backup_ctl_plus.Base.{◌+◌, ◌*◌, ◌/◌, ◌≡◌, refl, true, some, List, [], ◌∷◌, arith}
use pg_backup_ctl_plus.Base.Result.{archive_issue, err}
use pg_backup_ctl_plus.Wal.Position.{IsSegmentSize}
use pg_backup_ctl_plus.Stream.Message.{new_data_message}
use pg_backup_ctl_plus.Stream.LogBackup.{DiskFile, Os, SegmentNumbers, write}
use pg_backup_ctl_plus.Stream.LogBackup.Files.{IsComplete, logging, open_item, partial_of, final_of}
use pg_backup_ctl_plus.Stream.LogBackup.Stored.{Ready, within, Outcome}
use pg_backup_ctl_plus.Stream.LogBackup.Written.{carries, write-Outcome, write-misplaced}
use pg_backup_ctl_plus.Examples.Data.{modulo}

abbrev pub granting : Os
granting = record { grants = λ c. true }

abbrev pub dividing : SegmentNumbers
dividing = record { byte_to_seg = λ p s. p / s; byte_to_seg_lem = λ p s z. refl }

pub four-IsSegmentSize : IsSegmentSize 4
four-IsSegmentSize = record {
  exponent = 2;
  exponent_small = omega arith;
  is_power = refl;
  positive = omega arith;
}

-- Segments of four bytes: one is complete, the next has two bytes.
abbrev complete : DiskFile
complete = final_of 1 1 (1 ∷ 2 ∷ 3 ∷ 4 ∷ [])

abbrev pub files : List DiskFile
files = partial_of 1 2 (5 ∷ 6 ∷ []) ∷ complete ∷ []

complete-IsComplete : IsComplete 4 2 complete
complete-IsComplete = record { final = refl; below = omega arith; whole = refl }

pub files-Ready : Ready 4 1 2 2 true (open_item 1 2 2 true true ∷ []) files
files-Ready =
    within 2 (complete ∷ []) (5 ∷ 6 ∷ []) true true (complete-IsComplete, tt) (omega arith)

write-Outcome_example : Outcome 4 1 7 2 2 0 files (7 ∷ 8 ∷ 9 ∷ []) (
    write ⦃os = granting⦄ ⦃macros = modulo⦄ ⦃segments = dividing⦄
      (some (carries (new_data_message 4 0) (2 * 4 + 2) (7 ∷ 8 ∷ 9 ∷ [])))
      1
      (logging 4 7 (open_item 1 2 2 true true ∷ []) files))
write-Outcome_example =
    write-Outcome ⦃os = granting⦄ ⦃macros = modulo⦄ ⦃segments = dividing⦄ 4 1 7 2 2 true
      (open_item 1 2 2 true true ∷ []) files (new_data_message 4 0) (7 ∷ 8 ∷ 9 ∷ [])
      four-IsSegmentSize (λ c. refl) files-Ready (omega arith)

write-misplaced_example :
    write ⦃os = granting⦄ ⦃macros = modulo⦄ ⦃segments = dividing⦄
      (some (carries (new_data_message 4 0) (2 * 4 + 3) (7 ∷ 8 ∷ 9 ∷ [])))
      1
      (logging 4 7 (open_item 1 2 2 true true ∷ []) files)
    ≡ (err archive_issue, logging 4 7 (open_item 1 2 2 true true ∷ []) files)
write-misplaced_example =
    write-misplaced ⦃os = granting⦄ ⦃macros = modulo⦄ ⦃segments = dividing⦄ 4 1 7 2 2 true
      (open_item 1 2 2 true true ∷ []) files (new_data_message 4 0) (7 ∷ 8 ∷ 9 ∷ []) 2 3
      four-IsSegmentSize files-Ready (omega arith) (omega arith)
