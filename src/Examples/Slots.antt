-- ===== src/Examples/Slots.antt =====
-- Shared memory at concrete inputs.
use pg_backup_ctl_plus.Base.{◌≡◌, refl, true, [], ◌∷◌, arith, if◌then◌else◌}
use pg_backup_ctl_plus.Base.Int.{pos, negsuc}
use pg_backup_ctl_plus.Base.Result.{ok, ◌>>=◌}
use pg_backup_ctl_plus.Archive.Shm.{
  SubWorkerInfo, WorkerArea, WorkerShm, cleared, cleared_child, allocate, free, write_child,
  free_child,
}
use pg_backup_ctl_plus.Archive.Shm.Slots.{segment, free-allocate}
use pg_backup_ctl_plus.Archive.Lock.{locked_by_shm, not_locked, shm_locked}
use pg_backup_ctl_plus.Archive.Lock.Held.{slot_uses, any_slot, shm_locked_lem}
use pg_backup_ctl_plus.Archive.Lock.Register.{locked-write_child, locked-free_child}
use pg_backup_ctl_plus.Examples.Data.{free_backup}

abbrev child : SubWorkerInfo
child = record { backup_id = pos 7; pid = pos 501 }

abbrev worker : WorkerArea
worker = record {
  pid = pos 500;
  archive_id = pos 1;
  basebackup_in_use = true;
  child_info = child ∷ cleared_child ∷ cleared_child ∷ cleared_child ∷ cleared_child ∷ [];
}

-- A slot that a worker has left with a child in it.
abbrev abandoned : WorkerArea
abandoned = record worker { pid = pos 0 }

free-allocate_example :
    (allocate (pos 600) (pos 2) >>= free) (segment 2 2 1 (worker ∷ abandoned ∷ cleared ∷ []))
    ≡ (ok tt, segment 2 2 1 (worker ∷ cleared ∷ cleared ∷ []))
free-allocate_example =
    free-allocate 2 2 1 (worker ∷ []) abandoned (cleared ∷ []) (pos 600) (pos 2) refl (omega arith)
      (refl, tt) refl

shm_locked_example :
    shm_locked (segment 2 2 1 (worker ∷ cleared ∷ cleared ∷ [])) (free_backup 7 50331688)
    ≡ ok
        (if any_slot (slot_uses (pos 7)) (worker ∷ cleared ∷ []) then locked_by_shm else not_locked)
shm_locked_example =
    shm_locked_lem 2 1 (worker ∷ cleared ∷ []) (cleared ∷ []) (free_backup 7 50331688) refl
      (refl, (refl, tt)) refl

locked-write_child_example :
    (after : WorkerShm) × (write_child 1
        (negsuc 0)
        (record { backup_id = pos 8; pid = pos 502 })
        (segment 2 2 1 (cleared ∷ worker ∷ cleared ∷ []))
      ≡ (ok 1, after))
    × (shm_locked after (free_backup 8 50331688) ≡ ok locked_by_shm)
locked-write_child_example =
    locked-write_child 2 1 (cleared ∷ []) worker [] (cleared ∷ []) (child ∷ []) cleared_child
      (cleared_child ∷ cleared_child ∷ cleared_child ∷ [])
      (record { backup_id = pos 8; pid = pos 502 }) (free_backup 8 50331688) refl (refl, tt) refl
      refl refl refl refl (refl, (refl, tt))

locked-free_child_example :
    (after : WorkerShm) × (free_child 1 3 (segment 2 2 1 (cleared ∷ worker ∷ cleared ∷ []))
      ≡ (ok tt, after))
    × (shm_locked after (free_backup 7 50331688)
        ≡ ok (if any_slot (slot_uses (pos 7)) (cleared ∷ []) then locked_by_shm else not_locked))
locked-free_child_example =
    locked-free_child 2 1 (cleared ∷ []) worker [] (cleared ∷ []) 3 (free_backup 7 50331688)
      (omega arith) refl refl (refl, (refl, tt))
