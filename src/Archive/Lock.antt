-- ===== src/Archive/Lock.antt =====
-- What keeps a basebackup from being removed (src/catalog/backuplockinfo.cxx). The subclasses of
-- BackupLockInfo are the constructors of `LockInfo`; shared memory is read as it stands.
pub mod Held
pub mod Register
use pg_backup_ctl_plus.Base.{
  ℕ, zero, suc, ◌+◌, ◌≡◌, refl, Bool, true, false, not, ◌&&◌, ◌||◌, List, [], ◌∷◌, if◌then◌else◌,
}
use pg_backup_ctl_plus.Base.Int.{ℤ, is_neg, eq_ℤ, truthy}
use pg_backup_ctl_plus.Base.Result.{Error, shm_failure, catalog_issue, Result, ok, err}
use pg_backup_ctl_plus.Archive.Backup.{BaseBackupDescr, is_ready}
use pg_backup_ctl_plus.Archive.Shm.{
  WorkerShm, SubWorkerInfo, max_worker_childs, is_free_pid, read, read_child,
}

pub data LockType : Type 0 where
  locked_by_shm locked_by_pin locked_by_invalid_state not_locked : LockType

abbrev pub is_locked : LockType → Bool
is_locked not_locked = false
is_locked locked_by_shm = true
is_locked locked_by_pin = true
is_locked locked_by_invalid_state = true

abbrev pub is_pin : LockType → Bool
is_pin locked_by_pin = true
is_pin locked_by_shm = false
is_pin locked_by_invalid_state = false
is_pin not_locked = false

pub data LockInfo : Type 0 where
  pinned_valid : LockInfo
  shared_memory : WorkerShm → LockInfo

-- BackupPinnedValidLockInfo::locked. The second test overwrites what the first one found.
unfoldable pub pinned_valid_locked : BaseBackupDescr → LockType
pinned_valid_locked b =
    let by_pin = if truthy b.pinned then locked_by_pin else not_locked in
    if not (is_ready b.status) then locked_by_invalid_state else by_pin

-- The inner loop of SHMBackupLockInfo::locked, over the children of slot i; `n` rounds are left.
unfoldable pub child_holds : ℕ → ℕ → ℕ → WorkerShm → ℤ → Result Bool
child_holds zero i j shm id = ok false
child_holds (suc n) i j shm id =
    let rest = child_holds n i (j + 1) shm id in
    elim (read_child i j shm).0 [
      | ok c ↦ if not (is_free_pid c.pid) && eq_ℤ id c.backup_id then ok true else rest
      | err e ↦ err e
    ]

-- One round of the outer loop.
unfoldable pub slot_holds : ℕ → WorkerShm → ℤ → Result Bool
slot_holds i shm id = elim (read i shm).0 [
  | ok w ↦ if w.basebackup_in_use then child_holds max_worker_childs i 0 shm id else ok false
  | err e ↦ err e
]

unfoldable pub some_slot_holds : ℕ → ℕ → WorkerShm → ℤ → Result LockType
some_slot_holds zero i shm id = ok not_locked
some_slot_holds (suc n) i shm id =
    let rest = some_slot_holds n (i + 1) shm id in
    elim (slot_holds i shm id) [ ok held ↦ if held then ok locked_by_shm else rest | err e ↦ err e ]

-- SHMBackupLockInfo::locked. Taking the mutex throws where the segment is not attached.
unfoldable pub shm_locked : WorkerShm → BaseBackupDescr → Result LockType
shm_locked shm b =
    if is_neg b.id
    then err catalog_issue
    else if not shm.attached
    then err shm_failure
    else some_slot_holds shm.max_workers 0 shm b.id

unfoldable pub lock_info_locked : LockInfo → BaseBackupDescr → Result LockType
lock_info_locked pinned_valid b = ok (pinned_valid_locked b)
lock_info_locked (shared_memory shm) b = shm_locked shm b

-- BackupLockInfoAggregator::locked: the first lock that is found.
unfoldable pub locked : List LockInfo → BaseBackupDescr → Result LockType
locked [] b = ok not_locked
locked (l ∷ ls) b =
    let rest = locked ls b in
    elim (lock_info_locked l b) [ ok t ↦ if is_locked t then ok t else rest | err e ↦ err e ]
