-- ===== src/Retention/CleanupRule/Aborted.antt =====
-- What CleanupRetention::apply (src/catalog/retention.cxx) does under the lock that
-- ApplyRetentionPolicyCommand (src/parser/commands.cxx) always adds first.
use pg_backup_ctl_plus.Base.{
  pos→ne, ℕ, suc, ◌+◌, ◌≤◌, ◌<◌, ◌^◌, ◌≡◌, refl, ap, sym, ◌∙◌, true, false, some, List, [], ◌∷◌,
  ◌++◌, append_assoc, append-nil, length-append, subst, arith, length, select, All, Bool-cases, inl,
  inr,
}
use pg_backup_ctl_plus.Base.Int.{u32}
use pg_backup_ctl_plus.Base.Result.{Result, ok, err, is_ok, retention_failure}
use pg_backup_ctl_plus.Wal.Position.{XlogMacros}
use pg_backup_ctl_plus.Archive.Backup.{BaseBackupDescr, is_aborted, is_in_progress}
use pg_backup_ctl_plus.Archive.Lock.{
  locked_by_invalid_state, LockInfo, pinned_valid, locked, pinned_valid_locked, lock_info_locked,
}
use pg_backup_ctl_plus.Archive.Cleanup.{CleanupDescr}
use pg_backup_ctl_plus.Retention.Rule.{Retention, on_descr_lem}
use pg_backup_ctl_plus.Retention.Count.Keep.{move_lem}
use pg_backup_ctl_plus.Retention.CleanupRule.{
  CleanupState, cleanup_aborted, cleanup_round, cleanup_rounds, apply_cleanup,
}

abbrev with_backup : CleanupDescr → BaseBackupDescr → CleanupDescr
with_backup c b = record c { basebackups = c.basebackups ++ b ∷ [] }

-- An aborted basebackup is reported as invalid, pinned or not.
aborted-invalid :
    (ls : List LockInfo) (b : BaseBackupDescr)
    → is_aborted b.status ≡ true
    → locked (pinned_valid ∷ ls) b ≡ ok locked_by_invalid_state
unfolding locked lock_info_locked pinned_valid_locked
aborted-invalid ls b h = ground arith

ok-value : {A : Type 0} (r : Result A) → is_ok r ≡ true → (a : A) × (r ≡ ok a)
ok-value (ok a) h = (a, refl)
ok-value (err e) h = cc

module _ ⦃macros : XlogMacros⦄ (ls : List LockInfo) (source : List BaseBackupDescr) where
  abbrev locks : List LockInfo
  locks = pinned_valid ∷ ls

  abbrev next : CleanupState → ℕ → CleanupState
  next k n = record { scheduled = n; currindex = k.currindex + 1 }

  round-aborted :
      (b : BaseBackupDescr) (k : CleanupState) (c : CleanupDescr)
      → is_aborted b.status ≡ true
      → k.currindex < length source
      → k.currindex + 1 < 2 ^ 32
      → k.scheduled + 1 < 2 ^ 32
      → cleanup_round locks source k b c ≡ (ok (next k (k.scheduled + 1)), with_backup c b)
  unfolding cleanup_round cleanup_aborted
  round-aborted b k c h i w v =
      let ended : is_in_progress b.status ≡ false = ground arith in
      let index_fits : u32 (k.currindex + 1) ≡ k.currindex + 1 = omega arith in
      let count_fits : u32 (k.scheduled + 1) ≡ k.scheduled + 1 = omega arith in
      rw (aborted-invalid ls b h)
        (rw h (rw (move_lem source b k.currindex c i) (rw (ended, index_fits, count_fits))))

  round-other :
      (b : BaseBackupDescr) (k : CleanupState) (c : CleanupDescr)
      → is_aborted b.status ≡ false
      → is_in_progress b.status ≡ false
      → is_ok (locked locks b) ≡ true
      → k.currindex + 1 < 2 ^ 32
      → cleanup_round locks source k b c ≡ (ok (next k k.scheduled), c)
  unfolding cleanup_round
  round-other b k c h p o w =
      let (t, e) = ok-value (locked locks b) o in
      let fits : u32 (k.currindex + 1) ≡ k.currindex + 1 = omega arith in rw e (rw (h, p, fits))

  -- Neither in progress, nor locked in a way that cannot be read.
  abbrev pub Settled : BaseBackupDescr → Type 0
  Settled b = (is_in_progress b.status ≡ false) × (is_ok (locked locks b) ≡ true)

  abbrev gone : List BaseBackupDescr → List BaseBackupDescr
  gone = select (λ b. is_aborted b.status)

  abbrev with_all : CleanupDescr → List BaseBackupDescr → CleanupDescr
  with_all c bs = record c { basebackups = c.basebackups ++ bs }

  cleanup_rounds_lem :
      (bs : List BaseBackupDescr) (k : CleanupState) (c : CleanupDescr)
      → All Settled bs
      → k.scheduled ≤ k.currindex
      → k.currindex + length bs ≤ length source
      → length source < 2 ^ 32
      → cleanup_rounds locks source k bs c
        ≡ (ok (k.scheduled + length (gone bs)), with_all c (gone bs))
  unfolding cleanup_rounds
  cleanup_rounds_lem [] k c u g i w =
      ap (λ n. (ok n, c)) (omega arith)
      ∙ ap (λ l. (ok (k.scheduled + 0), record c { basebackups = l }))
          (sym (append-nil c.basebackups))
  cleanup_rounds_lem (b ∷ bs) k c u g i w = elim (Bool-cases (is_aborted b.status)) [
    | inl h ↦ rw (round-aborted b k c h (omega arith) (omega arith) (omega arith)) (
        rw h (
          cleanup_rounds_lem bs (next k (k.scheduled + 1)) (with_backup c b) u.1 (omega arith)
            (omega arith) w
          ∙ ap (λ n. (ok n, with_all (with_backup c b) (gone bs))) (omega arith)
          ∙ ap (λ l. (ok (k.scheduled + suc (length (gone bs))), record c { basebackups = l }))
              (append_assoc c.basebackups (b ∷ []) (gone bs))))
    | inr h ↦
        rw (round-other b k c h u.0.0 u.0.1 (omega arith))
          (rw h (cleanup_rounds_lem bs (next k k.scheduled) c u.1 (omega arith) (omega arith) w))
  ]

  in_progress-stops :
      (b : BaseBackupDescr) (k : CleanupState) (c : CleanupDescr)
      → is_in_progress b.status ≡ true
      → is_ok (locked locks b) ≡ true
      → cleanup_round locks source k b c ≡ (err retention_failure, c)
  unfolding cleanup_round
  in_progress-stops b k c p o =
      let (t, e) = ok-value (locked locks b) o in
      let whole : is_aborted b.status ≡ false = ground arith in rw e (rw (whole, p))

  cleanup_rounds-in_progress :
      (pre : List BaseBackupDescr) (b : BaseBackupDescr) (post : List BaseBackupDescr)
      (k : CleanupState) (c : CleanupDescr)
      → All Settled pre
      → is_in_progress b.status ≡ true
      → is_ok (locked locks b) ≡ true
      → k.scheduled ≤ k.currindex
      → k.currindex + length pre < length source
      → length source < 2 ^ 32
      → cleanup_rounds locks source k (pre ++ b ∷ post) c
        ≡ (err retention_failure, with_all c (gone pre))
  unfolding cleanup_rounds
  cleanup_rounds-in_progress [] b post k c u p o g i w = rw (in_progress-stops b k c p o) (
      ap (λ l. (err retention_failure, record c { basebackups = l }))
        (sym (append-nil c.basebackups)))
  cleanup_rounds-in_progress (a ∷ pre) b post k c u p o g i w =
      elim (Bool-cases (is_aborted a.status)) [
        | inl h ↦ rw (round-aborted a k c h (omega arith) (omega arith) (omega arith)) (
            rw h (
              cleanup_rounds-in_progress pre b post (next k (k.scheduled + 1)) (with_backup c a) u.1
                p o (omega arith) (omega arith) w
              ∙ ap (λ l. (err retention_failure, record c { basebackups = l }))
                  (append_assoc c.basebackups (a ∷ []) (gone pre))))
        | inr h ↦ rw (round-other a k c h u.0.0 u.0.1 (omega arith)) (
            rw h (
              cleanup_rounds-in_progress pre b post (next k k.scheduled) c u.1 p o (omega arith)
                (omega arith) w))
      ]

module _ ⦃macros : XlogMacros⦄ (ls : List LockInfo) (r : Retention) (c : CleanupDescr) where
  abbrev start : CleanupState
  start = record { scheduled = 0; currindex = 0 }

  apply_cleanup_lem :
      (list : List BaseBackupDescr) (res : Result ℕ) (d : CleanupDescr)
      → r.locks ≡ pinned_valid ∷ ls
      → r.cleanup_descr ≡ some c
      → 0 < length list
      → cleanup_rounds (pinned_valid ∷ ls) list start list c ≡ (res, d)
      → apply_cleanup list r ≡ (res, record r { cleanup_descr = some d })
  unfolding apply_cleanup
  apply_cleanup_lem list res d k h e f = rw (pos→ne (length list) e) (
      on_descr_lem (cleanup_rounds r.locks list start list) r c d res h
        (subst (λ l. cleanup_rounds l list start list c ≡ (res, d)) (sym k) f))

  -- A CLEANUP rule whose first lock is the one that the command always adds, on a list that is
  -- not empty, fits a counter, and has no basebackup in progress and no lock that fails: it
  -- appends the aborted basebackups to the cleanup descriptor in the list's order, pinned or not,
  -- returns their number and moves no offset.
  pub apply_cleanup-aborted :
      (list : List BaseBackupDescr)
      → r.locks ≡ pinned_valid ∷ ls
      → r.cleanup_descr ≡ some c
      → length list < 2 ^ 32
      → 0 < length list
      → All (Settled ls list) list
      → apply_cleanup list r ≡ (
        ok (length (select (λ b. is_aborted b.status) list)),
        record r {
          cleanup_descr =
              some (record c {
                basebackups = c.basebackups ++ select (λ b. is_aborted b.status) list;
              });
        },
      )
  apply_cleanup-aborted list k h w e u =
      apply_cleanup_lem list (ok (length (gone ls list list)))
        (with_all ls list c (gone ls list list)) k h e
        (cleanup_rounds_lem ls list list start c u (omega arith) (omega arith) w
          ∙ ap (λ n. (ok n, with_all ls list c (gone ls list list))) (omega arith))

  -- A CLEANUP rule with that lock that meets a basebackup in progress: it throws, and what it has
  -- scheduled is exactly the aborted basebackups before that one, so none behind it is touched.
  pub apply_cleanup-in_progress :
      (pre : List BaseBackupDescr) (b : BaseBackupDescr) (post : List BaseBackupDescr)
      → r.locks ≡ pinned_valid ∷ ls
      → r.cleanup_descr ≡ some c
      → length (pre ++ b ∷ post) < 2 ^ 32
      → All (Settled ls (pre ++ b ∷ post)) pre
      → is_in_progress b.status ≡ true
      → is_ok (locked (pinned_valid ∷ ls) b) ≡ true
      → apply_cleanup (pre ++ b ∷ post) r ≡ (
        err retention_failure,
        record r {
          cleanup_descr =
              some
                (record c { basebackups = c.basebackups ++ select (λ b. is_aborted b.status) pre });
        },
      )
  apply_cleanup-in_progress pre b post k h w u p o =
      let whole = pre ++ b ∷ post in
      let long : length whole ≡ length pre + suc (length post) = length-append pre (b ∷ post) in
      apply_cleanup_lem whole (err retention_failure) (with_all ls whole c (gone ls whole pre)) k h
        (omega arith)
        (cleanup_rounds-in_progress ls whole pre b post start c u p o (omega arith) (omega arith) w)
