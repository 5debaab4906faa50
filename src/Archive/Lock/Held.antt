-- ===== src/Archive/Lock/Held.antt =====
-- What SHMBackupLockInfo::locked (src/catalog/backuplockinfo.cxx) reads in the slots that
-- WorkerSHM (src/jobs/daemon.cxx) writes.
use pg_backup_ctl_plus.Base.{
  ℕ, ◌+◌, ◌≡◌, refl, ap, sym, ◌∙◌, Bool, true, false, not, ◌&&◌, ◌||◌, List, [], ◌∷◌, ◌++◌,
  append_assoc, arith, if◌then◌else◌, length, length-append, All,
}
use pg_backup_ctl_plus.Base.Int.{ℤ, eq_ℤ, is_neg}
use pg_backup_ctl_plus.Base.Result.{Result, ok, gets}
use pg_backup_ctl_plus.Archive.Backup.{BaseBackupDescr}
use pg_backup_ctl_plus.Archive.Shm.{
  SubWorkerInfo, WorkerArea, at, any_child, is_free_pid, max_worker_childs, read, read_child,
}
use pg_backup_ctl_plus.Archive.Shm.Slots.{segment, on_slot-middle, in_range, at-middle}
use pg_backup_ctl_plus.Archive.Lock.{
  locked_by_shm, not_locked, child_holds, slot_holds, some_slot_holds, shm_locked,
}

-- A child with a running process that works on the basebackup.
abbrev pub uses : ℤ → SubWorkerInfo → Bool
uses id c = not (is_free_pid c.pid) && eq_ℤ id c.backup_id

-- What the whole check of a slot comes to.
abbrev pub slot_uses : ℤ → WorkerArea → Bool
slot_uses id w = w.basebackup_in_use && any_child (uses id) w.child_info

abbrev pub any_slot : (WorkerArea → Bool) → List WorkerArea → Bool
any_slot p [] = false
any_slot p (w ∷ ws) = p w || any_slot p ws

abbrev pub HasChildren : WorkerArea → Type 0
HasChildren w = length w.child_info ≡ max_worker_childs

module _ (upper max_workers allocated : ℕ) (id : ℤ) where
  read_child-middle :
      (pre : List WorkerArea) (w : WorkerArea) (post : List WorkerArea) (j : ℕ)
      → length (pre ++ w ∷ post) ≡ upper + 1
      → read_child (length pre) j (segment upper max_workers allocated (pre ++ w ∷ post))
        ≡ (at w.child_info j, segment upper max_workers allocated (pre ++ w ∷ post))
  unfolding read_child
  read_child-middle pre w post j l =
      rw (in_range upper max_workers allocated pre w post l)
        (on_slot-middle upper max_workers allocated pre w post (λ w. (at w.child_info j, w)))

  read-middle :
      (pre : List WorkerArea) (w : WorkerArea) (post : List WorkerArea)
      → length (pre ++ w ∷ post) ≡ upper + 1
      → read (length pre) (segment upper max_workers allocated (pre ++ w ∷ post))
        ≡ (ok w, segment upper max_workers allocated (pre ++ w ∷ post))
  unfolding read
  read-middle pre w post l =
      rw (in_range upper max_workers allocated pre w post l)
        (on_slot-middle upper max_workers allocated pre w post (gets λ w. w))

  child_holds_lem :
      (pre : List WorkerArea) (w : WorkerArea) (post : List WorkerArea)
      (seen left : List SubWorkerInfo)
      → length (pre ++ w ∷ post) ≡ upper + 1
      → w.child_info ≡ seen ++ left
      → child_holds
          (length left)
          (length pre)
          (length seen)
          (segment upper max_workers allocated (pre ++ w ∷ post))
          id
        ≡ ok (any_child (uses id) left)
  unfolding child_holds any_child
  child_holds_lem pre w post seen [] l e = refl
  child_holds_lem pre w post seen (c ∷ left) l e =
      let rest =
        child_holds_lem pre w post (seen ++ c ∷ []) left l
          (e ∙ sym (append_assoc seen (c ∷ []) left)) in
      let here : at w.child_info (length seen) ≡ ok c = rw e (at-middle seen c left) in
      let next : length seen + 1 ≡ length (seen ++ c ∷ []) =
        omega (arith, length-append seen (c ∷ [])) in
      rw (read_child-middle pre w post (length seen) l, child_holds)
        (rw (here, next, rest) (if-or (uses id c) (any_child (uses id) left)))
    where
      if-or : (a b : Bool) → (if a then ok true else ok b) ≡ ok (a || b)
      if-or true b = refl
      if-or false b = refl

  slot_holds_lem :
      (pre : List WorkerArea) (w : WorkerArea) (post : List WorkerArea)
      → length (pre ++ w ∷ post) ≡ upper + 1
      → HasChildren w
      → slot_holds (length pre) (segment upper max_workers allocated (pre ++ w ∷ post)) id
        ≡ ok (slot_uses id w)
  unfolding slot_holds
  slot_holds_lem pre w post l h =
      rw (read-middle pre w post l, slot_holds)
        (if-and w.basebackup_in_use (any_child (uses id) w.child_info)
          (rw h at (child_holds_lem pre w post [] w.child_info l refl)))
    where
      if-and : {r : Result Bool} (a b : Bool) → r ≡ ok b → (if a then r else ok false) ≡ ok (a && b)
      if-and true b e = e
      if-and false b e = refl

  some_slot_holds_lem :
      (slots pre ws post : List WorkerArea)
      → slots ≡ pre ++ (ws ++ post)
      → length slots ≡ upper + 1
      → All HasChildren ws
      → some_slot_holds (length ws) (length pre) (segment upper max_workers allocated slots) id
        ≡ ok (if any_slot (slot_uses id) ws then locked_by_shm else not_locked)
  unfolding some_slot_holds
  some_slot_holds_lem slots pre [] post e l h = refl
  some_slot_holds_lem slots pre (w ∷ ws) post e l h =
      let rest =
        some_slot_holds_lem slots (pre ++ w ∷ []) ws post
          (e ∙ sym (append_assoc pre (w ∷ []) (ws ++ post))) l h.1 in
      let next : length pre + 1 ≡ length (pre ++ w ∷ []) =
        omega (arith, length-append pre (w ∷ [])) in
      let here : slot_holds (length pre) (segment upper max_workers allocated slots) id
          ≡ ok (slot_uses id w) =
        rw e (slot_holds_lem pre w (ws ++ post) (sym (ap length e) ∙ l) h.0) in
      rw (here, some_slot_holds)
        (rw (next, rest) (if-any (slot_uses id w) (any_slot (slot_uses id) ws)))
    where
      if-any :
          (a b : Bool)
          → (if a then ok locked_by_shm else ok (if b then locked_by_shm else not_locked))
            ≡ ok (if a || b then locked_by_shm else not_locked)
      if-any true b = refl
      if-any false b = refl

-- On an attached segment with one slot for each index up to `upper`, of which the first ones are
-- the workers' and have all their children, and for a basebackup whose id is not negative: the
-- check does not fail, and finds the basebackup locked exactly when a slot of a worker has its
-- flag set and a child with a process on that basebackup.
pub shm_locked_lem :
    (upper allocated : ℕ) (ws post : List WorkerArea) (b : BaseBackupDescr)
    → length (ws ++ post) ≡ upper + 1
    → All HasChildren ws
    → is_neg b.id ≡ false
    → shm_locked (segment upper (length ws) allocated (ws ++ post)) b
      ≡ ok (if any_slot (slot_uses b.id) ws then locked_by_shm else not_locked)
unfolding shm_locked
shm_locked_lem upper allocated ws post b l h n =
    rw n (some_slot_holds_lem upper (length ws) allocated b.id (ws ++ post) [] ws post refl l h)
