-- ===== src/Archive/Shm.antt =====
-- The worker slots in shared memory (class WorkerSHM of src/jobs/daemon.cxx, with the structures of
-- include/jobs/shm.hxx). A slot's command type and start time, which no decision reads, are left
-- out. Every operation runs under the segment's mutex, so one operation is one step.
pub mod Slots
use pg_backup_ctl_plus.Base.{
  ℕ, zero, suc, ◌+◌, ◌-◌, ◌%◌, ◌^◌, ◌≤◌, ◌<◌, ◌≡◌, refl, Bool, true, false, not, ◌&&◌, ◌||◌, Option,
  none, some, List, [], ◌∷◌, arith, ltb, leb, ◌==◌, if◌then◌else◌, length, get_elem?, replicate,
}
use pg_backup_ctl_plus.Base.Int.{ℤ, pos, negsuc, is_neg, eq_ℤ, u32}
use pg_backup_ctl_plus.Base.Result.{
  Error, shm_failure, undefined_behaviour, Result, ok, err, M, ◌>>=◌, ◌>>◌, return, throw, modify,
  gets, guard, bind_result,
}

pub record SubWorkerInfo : Type 0 where
  pub backup_id : ℤ
  pub pid : ℤ

pub record WorkerArea : Type 0 where
  pub pid : ℤ
  pub archive_id : ℤ
  pub basebackup_in_use : Bool
  pub child_info : List SubWorkerInfo

-- `attached` says that the segment and the pointer into it are set.
pub record WorkerShm : Type 0 where
  pub attached : Bool
  pub upper : ℕ
  pub max_workers : ℕ
  pub allocated : ℕ
  pub slots : List WorkerArea

-- MAX_WORKER_CHILDS of include/pg_backup_ctl.hxx.in, the length of every `child_info`.
abbrev pub max_worker_childs : ℕ
max_worker_childs = 5

abbrev pub no_backup : ℤ
no_backup = negsuc 0

-- pid <= 0
abbrev pub is_free_pid : ℤ → Bool
is_free_pid (pos n) = n == 0
is_free_pid (negsuc n) = true

-- An index beyond the array is undefined in C++.
unfoldable pub at {ℓ} : {A : Type ℓ} → List A → ℕ → Result A
at [] i = err undefined_behaviour
at (x ∷ xs) zero = ok x
at (x ∷ xs) (suc i) = at xs i

unfoldable pub update {ℓ} : {A : Type ℓ} → (A → A) → ℕ → List A → List A
update f i [] = []
update f zero (x ∷ xs) = f x ∷ xs
update f (suc i) (x ∷ xs) = x ∷ update f i xs

-- A method's access to one slot through the pointer `ptr`.
unfoldable pub on_slot : {A : Type 0} → ℕ → M WorkerArea A → M WorkerShm A
on_slot i m shm = elim (at shm.slots i) [
  | ok w ↦ let (r, w') = m w in (r, record shm { slots = update (λ _. w') i shm.slots })
  | err e ↦ (err e, shm)
]

-- The two checks that the methods begin with.
abbrev pub checked : {A : Type 0} → ℕ → M WorkerShm A → M WorkerShm A
checked i m shm =
    if not shm.attached
    then (err shm_failure, shm)
    else if ltb shm.upper i
    then (err shm_failure, shm)
    else m shm

-- WorkerSHM::write for a slot: the children and the flag are left alone.
unfoldable pub write : ℕ → ℤ → ℤ → M WorkerShm (Unit {0})
unfolding on_slot
write i pid archive_id =
    checked i (on_slot i (modify λ w. record w { pid = pid; archive_id = archive_id }))

-- WorkerSHM::read of a child. Its check `child_index >= 0 || ...` always passes.
unfoldable pub read_child : ℕ → ℕ → M WorkerShm SubWorkerInfo
unfolding on_slot
read_child i j = checked i (on_slot i (λ w. (at w.child_info j, w)))

-- WorkerSHM::read of a slot.
unfoldable pub read : ℕ → M WorkerShm WorkerArea
unfolding on_slot
read i = checked i (on_slot i (gets λ w. w))

-- The loop over `child_info` that looks for a free place.
unfoldable pub find_free_child : List SubWorkerInfo → ℕ → Option ℕ
find_free_child [] idx = none
find_free_child (c ∷ cs) idx = if is_free_pid c.pid then some idx else find_free_child cs (idx + 1)

unfoldable pub store_child : ℕ → SubWorkerInfo → WorkerArea → WorkerArea
store_child j info w = record w {
  child_info = update (λ _. info) j w.child_info;
  basebackup_in_use = if not (eq_ℤ info.backup_id no_backup) then true else w.basebackup_in_use;
}

unfoldable pub write_child_area : ℤ → SubWorkerInfo → M WorkerArea ℕ
unfolding store_child
write_child_area (negsuc n) info w = elim (find_free_child w.child_info 0) [
  | some j ↦ (ok j, store_child j info w)
  | none ↦ (err shm_failure, w)
]
write_child_area (pos j) info w =
    if leb max_worker_childs j then (err shm_failure, w) else (ok j, store_child j info w)

-- WorkerSHM::write for a child. A negative index asks for a free place; the result is the index.
unfoldable pub write_child : ℕ → ℤ → SubWorkerInfo → M WorkerShm ℕ
unfolding on_slot write_child_area
write_child i j info = checked i (on_slot i (write_child_area j info))

-- backup_id > 0, the test of detach_basebackup.
abbrev pub is_positive : ℤ → Bool
is_positive (pos n) = not (n == 0)
is_positive (negsuc n) = false

unfoldable pub any_child : (SubWorkerInfo → Bool) → List SubWorkerInfo → Bool
any_child p [] = false
any_child p (c ∷ cs) = p c || any_child p cs

unfoldable pub recheck_in_use : M WorkerArea Bool
recheck_in_use w =
    let still = any_child (λ c. is_positive c.backup_id) w.child_info in
    (ok still, record w { basebackup_in_use = still })

detach_child : ℕ → ℕ → M WorkerShm Bool
unfolding read_child write_child recheck_in_use
detach_child i j = do
  info ← read_child i j
  write_child i (pos j) (record info { backup_id = no_backup })
  on_slot i recheck_in_use

-- WorkerSHM::detach_basebackup. A negative index is converted to a huge one for the read.
unfoldable pub detach_basebackup : ℕ → ℤ → M WorkerShm Bool
unfolding detach_child
detach_basebackup i (pos j) = detach_child i j
detach_basebackup i (negsuc j) = checked i (throw undefined_behaviour)

-- WorkerSHM::isEmpty
unfoldable pub is_empty : ℕ → M WorkerShm Bool
unfolding on_slot
is_empty i = checked i (on_slot i (gets λ w. eq_ℤ w.pid (pos 0)))

abbrev pub cleared_child : SubWorkerInfo
cleared_child = record { backup_id = no_backup; pid = negsuc 0 }

abbrev pub cleared : WorkerArea
cleared = record {
  pid = pos 0;
  archive_id = negsuc 0;
  basebackup_in_use = false;
  child_info = replicate max_worker_childs cleared_child;
}

-- WorkerSHM::reset
unfoldable pub reset : M WorkerShm (Unit {0})
reset shm =
    if not shm.attached
    then (err shm_failure, shm)
    else (ok tt, record shm { slots = replicate (shm.upper + 1) cleared })

-- The end of WorkerSHM::free_child. The flag that the loop finds is overwritten by the local
-- variable `basebackup_in_use`, which is never assigned after its initialisation with false.
unfoldable pub free_child_area : ℕ → M WorkerArea (Unit {0})
unfolding update any_child
free_child_area j w =
    let children = update (λ _. record { backup_id = no_backup; pid = pos 0 }) j w.child_info in
    let found =
      if any_child (λ c. not (is_neg c.backup_id)) children then true else w.basebackup_in_use in
    let flagged = record w { child_info = children; basebackup_in_use = found } in
    (ok tt, record flagged { basebackup_in_use = false })

unfoldable pub free_child : ℕ → ℕ → M WorkerShm (Unit {0})
unfolding on_slot free_child_area
free_child i j = checked i (λ shm.
    if leb max_worker_childs j then (err shm_failure, shm) else on_slot i (free_child_area j) shm)

unfoldable pub find_pid : ℤ → List SubWorkerInfo → ℕ → Option ℕ
find_pid pid [] idx = none
find_pid pid (c ∷ cs) idx = if eq_ℤ c.pid pid then some idx else find_pid pid cs (idx + 1)

-- WorkerSHM::free_child_by_pid. Where no child has the pid, `free_idx` is read uninitialised.
unfoldable pub free_child_by_pid : ℕ → ℤ → M WorkerShm (Unit {0})
unfolding on_slot free_child
free_child_by_pid i pid shm =
    if not shm.attached
    then (err shm_failure, shm)
    else if is_free_pid pid
    then (ok tt, shm)
    else if ltb shm.upper i
    then (err shm_failure, shm)
    else elim (at shm.slots i) [
      | ok w ↦ elim (find_pid pid w.child_info 0) [
        | some j ↦ free_child i j shm
        | none ↦ (err undefined_behaviour, shm)
      ]
      | err e ↦ (err e, shm)
    ]

-- WorkerSHM::free. `allocated` is an unsigned int.
unfoldable pub free : ℕ → M WorkerShm (Unit {0})
unfolding on_slot
free i = checked i (
    on_slot i (modify λ _. cleared)
    >> modify λ shm. record shm { allocated = u32 (shm.allocated + 2 ^ 32 - 1) })

unfoldable pub first_unused : List WorkerArea → ℕ → Option ℕ
first_unused [] i = none
first_unused (w ∷ ws) i = if eq_ℤ w.pid (pos 0) then some i else first_unused ws (i + 1)

-- WorkerSHM::getFreeIndex
unfoldable pub get_free_index : M WorkerShm ℕ
get_free_index shm =
    if not shm.attached
    then (err shm_failure, shm)
    else elim (first_unused shm.slots 0) [ some i ↦ (ok i, shm) | none ↦ (err shm_failure, shm) ]

-- WorkerSHM::allocate
unfoldable pub allocate : ℤ → ℤ → M WorkerShm ℕ
unfolding get_free_index write
allocate pid archive_id = do
  i ← get_free_index
  write i pid archive_id
  modify λ shm. record shm { allocated = u32 (shm.allocated + 1) }
  return i
