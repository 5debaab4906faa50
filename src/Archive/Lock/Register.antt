-- ===== src/Archive/Lock/Register.antt =====
-- Registering a child on a basebackup and freeing one (WorkerSHM::write and free_child of
-- src/jobs/daemon.cxx), as SHMBackupLockInfo::locked sees them.
use pg_backup_ctl_plus.Base.{
  ℕ, zero, suc, ◌+◌, ◌<◌, ◌≡◌, refl, ap, sym, ◌∙◌, Bool, true, false, ◌||◌, some, List, [], ◌∷◌,
  ◌++◌, append_assoc, arith, if◌then◌else◌, length, length-append, All, lt→leb, subst,
}
use pg_backup_ctl_plus.Base.Int.{ℤ, pos, negsuc, eq_ℤ, is_neg}
use pg_backup_ctl_plus.Base.Result.{ok}
use pg_backup_ctl_plus.Archive.Backup.{BaseBackupDescr}
use pg_backup_ctl_plus.Archive.Shm.{
  SubWorkerInfo, WorkerArea, WorkerShm, update, write_child, write_child_area, store_child,
  find_free_child, free_child, free_child_area, any_child, is_free_pid, max_worker_childs,
  no_backup,
}
use pg_backup_ctl_plus.Archive.Shm.Slots.{segment, on_slot-middle, in_range, update-middle}
use pg_backup_ctl_plus.Archive.Lock.{locked_by_shm, not_locked, shm_locked}
use pg_backup_ctl_plus.Archive.Lock.Held.{HasChildren, slot_uses, any_slot, uses, shm_locked_lem}

abbrev pub IsRunning : SubWorkerInfo → Type 0
IsRunning c = is_free_pid c.pid ≡ false

find_free_child-middle :
    (used : List SubWorkerInfo) (c : SubWorkerInfo) (left : List SubWorkerInfo) (n : ℕ)
    → All IsRunning used
    → is_free_pid c.pid ≡ true
    → find_free_child (used ++ c ∷ left) n ≡ some (n + length used)
unfolding find_free_child
find_free_child-middle [] c left n u h = rw h (ap some (omega arith))
find_free_child-middle (a ∷ used) c left n u h =
    rw u.0 (find_free_child-middle used c left (n + 1) u.1 h ∙ ap some (omega arith))

eq_ℤ_refl : (a : ℤ) → eq_ℤ a a ≡ true
eq_ℤ_refl (pos n) = ground arith
eq_ℤ_refl (negsuc n) = ground arith

not_no_backup : (a : ℤ) → is_neg a ≡ false → eq_ℤ a no_backup ≡ false
not_no_backup (pos n) h = refl
not_no_backup (negsuc n) h = cc

any_slot-drop :
    (p : WorkerArea → Bool) (pre : List WorkerArea) (v : WorkerArea) (post : List WorkerArea)
    → p v ≡ false
    → any_slot p (pre ++ v ∷ post) ≡ any_slot p (pre ++ post)
any_slot-drop p [] v post h = rw h refl
any_slot-drop p (a ∷ pre) v post h = ap (λ x. p a || x) (any_slot-drop p pre v post h)

or-true : (b : Bool) → (b || true) ≡ true
or-true true = refl
or-true false = refl

any_slot-middle :
    (p : WorkerArea → Bool) (pre : List WorkerArea) (v : WorkerArea) (post : List WorkerArea)
    → p v ≡ true
    → any_slot p (pre ++ v ∷ post) ≡ true
any_slot-middle p [] v post h = rw h refl
any_slot-middle p (a ∷ pre) v post h = rw (any_slot-middle p pre v post h) (or-true (p a))

All-replace :
    {A : Type 0} (P : A → Type 0) (pre : List A) (a b : A) (post : List A)
    → All P (pre ++ a ∷ post)
    → P b
    → All P (pre ++ b ∷ post)
All-replace P [] a b post h k = (k, h.1)
All-replace P (x ∷ pre) a b post h k = (h.0, All-replace P pre a b post h.1 k)

All-middle :
    {A : Type 0} (P : A → Type 0) (pre : List A) (a : A) (post : List A)
    → All P (pre ++ a ∷ post)
    → P a
All-middle P [] a post h = h.0
All-middle P (x ∷ pre) a post h = All-middle P pre a post h.1

any_child-middle :
    (p : SubWorkerInfo → Bool) (used : List SubWorkerInfo) (c : SubWorkerInfo)
    (left : List SubWorkerInfo)
    → p c ≡ true
    → any_child p (used ++ c ∷ left) ≡ true
unfolding any_child
any_child-middle p [] c left h = rw h refl
any_child-middle p (a ∷ used) c left h = rw (any_child-middle p used c left h) (or-true (p a))

length-update : {A : Type 0} (f : A → A) (i : ℕ) (xs : List A) → length (update f i xs) ≡ length xs
unfolding update
length-update f i [] = refl
length-update f zero (x ∷ xs) = refl
length-update f (suc i) (x ∷ xs) = ap suc (length-update f i xs)

module _ (upper allocated : ℕ) (pre : List WorkerArea) (w : WorkerArea)
    (post rest : List WorkerArea) where
  -- The slots before and behind one slot belong to workers, and the last ones to none.
  abbrev workers : WorkerArea → WorkerShm
  workers v = segment upper (length pre + suc (length post)) allocated (pre ++ v ∷ (post ++ rest))

  workers-locked :
      (v : WorkerArea) (b : BaseBackupDescr)
      → length (pre ++ v ∷ (post ++ rest)) ≡ upper + 1
      → All HasChildren (pre ++ v ∷ post)
      → is_neg b.id ≡ false
      → shm_locked (workers v) b
        ≡ ok (if any_slot (slot_uses b.id) (pre ++ v ∷ post) then locked_by_shm else not_locked)
  workers-locked v b l h n =
      let same = append_assoc pre (v ∷ post) rest in
      subst
        (λ x.
          shm_locked x b
          ≡ ok (if any_slot (slot_uses b.id) (pre ++ v ∷ post) then locked_by_shm else not_locked))
        (ap (λ x. segment upper x allocated ((pre ++ v ∷ post) ++ rest))
            (length-append pre (v ∷ post))
          ∙ ap (segment upper (length pre + suc (length post)) allocated) same)
        (shm_locked_lem upper allocated (pre ++ v ∷ post) rest b (ap length same ∙ l) h n)

  same_length :
      (v : WorkerArea)
      → length (pre ++ w ∷ (post ++ rest)) ≡ upper + 1
      → length (pre ++ v ∷ (post ++ rest)) ≡ upper + 1
  same_length v l =
      length-append pre (v ∷ (post ++ rest)) ∙ sym (length-append pre (w ∷ (post ++ rest))) ∙ l

  stored-HasChildren :
      (j : ℕ) (info : SubWorkerInfo) → HasChildren w → HasChildren (store_child j info w)
  unfolding store_child
  stored-HasChildren j info k = length-update (λ _. info) j w.child_info ∙ k

  stored_area :
      (used : List SubWorkerInfo) (c : SubWorkerInfo) (left : List SubWorkerInfo)
      (info : SubWorkerInfo)
      → w.child_info ≡ used ++ c ∷ left
      → All IsRunning used
      → is_free_pid c.pid ≡ true
      → write_child_area (negsuc 0) info w ≡ (ok (length used), store_child (length used) info w)
  unfolding write_child_area
  stored_area used c left info e u f =
      let found : find_free_child w.child_info 0 ≡ some (length used) =
        rw e (find_free_child-middle used c left 0 u f ∙ ap some (omega arith)) in
      rw (found, write_child_area) refl

  stored-slot_uses :
      (used : List SubWorkerInfo) (c : SubWorkerInfo) (left : List SubWorkerInfo)
      (info : SubWorkerInfo) (id : ℤ)
      → w.child_info ≡ used ++ c ∷ left
      → uses id info ≡ true
      → eq_ℤ info.backup_id no_backup ≡ false
      → slot_uses id (store_child (length used) info w) ≡ true
  unfolding store_child
  stored-slot_uses used c left info id e h k =
      rw (k, e, update-middle (λ _. info) used c left) (any_child-middle (uses id) used info left h)

  freed : (j : ℕ) → free_child_area j w ≡ (ok tt, (free_child_area j w).1)
  unfolding free_child_area
  freed j = refl

  freed-HasChildren : (j : ℕ) → HasChildren w → HasChildren (free_child_area j w).1
  unfolding free_child_area
  freed-HasChildren j k =
      length-update (λ _. record { backup_id = negsuc 0; pid = pos 0 }) j w.child_info ∙ k

  freed-slot_uses : (j : ℕ) (id : ℤ) → slot_uses id (free_child_area j w).1 ≡ false
  unfolding free_child_area
  freed-slot_uses j id = refl

  -- On an attached segment with one slot for each index up to `upper`, where the slots of all
  -- workers have all their children: registering a running child on a basebackup, whose id is not
  -- negative, at a worker's slot with the index -1, where some child place has no process, takes
  -- the first such place, returns its index, and the lock check of the segment that is left finds
  -- the basebackup locked by shared memory.
  pub locked-write_child :
      (used : List SubWorkerInfo) (c : SubWorkerInfo) (left : List SubWorkerInfo)
      (info : SubWorkerInfo) (b : BaseBackupDescr)
      → w.child_info ≡ used ++ c ∷ left
      → All IsRunning used
      → is_free_pid c.pid ≡ true
      → IsRunning info
      → info.backup_id ≡ b.id
      → is_neg b.id ≡ false
      → length (pre ++ w ∷ (post ++ rest)) ≡ upper + 1
      → All HasChildren (pre ++ w ∷ post)
      → (after : WorkerShm) × (write_child (length pre) (negsuc 0) info (workers w)
          ≡ (ok (length used), after))
        × (shm_locked after b ≡ ok locked_by_shm)
  unfolding write_child
  locked-write_child used c left info b e u f r i n l h =
      let v = store_child (length used) info w in
      let whole : HasChildren v =
        stored-HasChildren (length used) info (All-middle HasChildren pre w post h) in
      (
        workers v,
        rw (in_range upper (length pre + suc (length post)) allocated pre w (post ++ rest) l) (
            on_slot-middle upper (length pre + suc (length post)) allocated pre w (post ++ rest)
              (write_child_area (negsuc 0) info)
            ∙ ap (λ x. (x.0, workers x.1)) (stored_area used c left info e u f)),
        workers-locked v b (same_length v l) (All-replace HasChildren pre w v post h whole) n
            ∙ ap (λ x. ok (if x then locked_by_shm else not_locked))
                (any_slot-middle (slot_uses b.id) pre v post (
                  stored-slot_uses used c left info b.id e (rw (r, i) (eq_ℤ_refl b.id))
                    (rw i (not_no_backup b.id n)))),
      )

  -- On such a segment, freeing a child below the limit of a worker's slot succeeds, and the lock
  -- check of the segment that is left, for a basebackup whose id is not negative, skips that slot
  -- whatever basebackups its other children work on: it finds exactly what the slots of the
  -- other workers hold.
  pub locked-free_child :
      (j : ℕ) (b : BaseBackupDescr)
      → j < max_worker_childs
      → is_neg b.id ≡ false
      → length (pre ++ w ∷ (post ++ rest)) ≡ upper + 1
      → All HasChildren (pre ++ w ∷ post)
      → (after : WorkerShm) × (free_child (length pre) j (workers w) ≡ (ok tt, after))
        × (shm_locked after b
            ≡ ok (if any_slot (slot_uses b.id) (pre ++ post) then locked_by_shm else not_locked))
  unfolding free_child
  locked-free_child j b s n l h =
      let v = (free_child_area j w).1 in
      (
        workers v,
        rw
            (
              in_range upper (length pre + suc (length post)) allocated pre w (post ++ rest) l,
              lt→leb max_worker_childs j s,
            )
            (on_slot-middle upper (length pre + suc (length post)) allocated pre w (post ++ rest)
                (free_child_area j)
              ∙ ap (λ x. (x.0, workers x.1)) (freed j)),
        workers-locked v b (same_length v l)
              (All-replace HasChildren pre w v post h
                (freed-HasChildren j (All-middle HasChildren pre w post h)))
              n
            ∙ ap (λ x. ok (if x then locked_by_shm else not_locked))
                (any_slot-drop (slot_uses b.id) pre v post (freed-slot_uses j b.id)),
      )
