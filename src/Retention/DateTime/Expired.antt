-- ===== src/Retention/DateTime/Expired.antt =====
-- What DateTimeRetention::apply (src/catalog/retention.cxx) selects and what it protects.
use pg_backup_ctl_plus.Base.{
  refl, ℕ, ◌+◌, ◌≤◌, ◌<◌, ◌^◌, ◌≡◌, ap, sym, ◌∙◌, Bool, true, false, not, ◌&&◌, ◌||◌, some, List,
  [], ◌∷◌, ◌++◌, append_assoc, append-nil, arith, length, select, All, Bool-cases, inl, inr,
}
use pg_backup_ctl_plus.Base.Int.{u32}
use pg_backup_ctl_plus.Base.Result.{Result, ok, err}
use pg_backup_ctl_plus.Wal.Position.{XlogMacros}
use pg_backup_ctl_plus.Wal.Text.{decode_xlog_pos}
use pg_backup_ctl_plus.Archive.Backup.{BaseBackupDescr, is_in_progress}
use pg_backup_ctl_plus.Archive.Lock.{
  LockType, locked_by_shm, locked_by_pin, locked_by_invalid_state, not_locked, LockInfo, locked,
}
use pg_backup_ctl_plus.Archive.Cleanup.{CleanupDescr, xlog_cleanup_offset_keep}
use pg_backup_ctl_plus.Archive.Cleanup.Offsets.{
  Lowers, Lowers-refl, Lowers-trans, Protects, keep-Lowers,
}
use pg_backup_ctl_plus.Retention.Rule.{offset_keep}
use pg_backup_ctl_plus.Retention.Safety.{
  Usable, Protects-Lowers, after_keep, keep_wal_lem, keep_wal-Protects, keep_wal-Lowers,
  keep_wal-basebackups,
}
use pg_backup_ctl_plus.Retention.Count.Keep.{move_lem}
use pg_backup_ctl_plus.Retention.DateTime.{
  DateTimeRetention, in_use, datetime_keep, drop_on, datetime_drop, datetime_round, datetime_rounds,
  apply_datetime,
}

-- A lock that cannot be read counts as one.
abbrev pub use_verdict : Result LockType → Bool
use_verdict (ok locked_by_pin) = true
use_verdict (ok locked_by_shm) = true
use_verdict (ok locked_by_invalid_state) = false
use_verdict (ok not_locked) = false
use_verdict (err e) = true

in_use-verdict : (t : LockType) → use_verdict (ok t) ≡ in_use t
in_use-verdict locked_by_pin = refl
in_use-verdict locked_by_shm = refl
in_use-verdict locked_by_invalid_state = refl
in_use-verdict not_locked = refl

-- The specification: the rule is exceeded, the basebackup is not in progress, and the locks do not
-- report it as pinned or as in use. The lock for pins reports an aborted basebackup as invalid, pinned
-- or not, so a pin does not spare it.
abbrev pub expired : List LockInfo → (BaseBackupDescr → Bool) → BaseBackupDescr → Bool
expired locks exceeds b = exceeds b && not (is_in_progress b.status || use_verdict (locked locks b))

-- A basebackup whose end is a position.
abbrev pub Ended : BaseBackupDescr → Type 0
Ended b = (q : ℕ) × (decode_xlog_pos b.xlogposend ≡ ok q)

module _ ⦃macros : XlogMacros⦄ (locks : List LockInfo) (source : List BaseBackupDescr)
    (exceeds : BaseBackupDescr → Bool) where
  abbrev dropped : BaseBackupDescr → ℕ → CleanupDescr → CleanupDescr
  dropped b q c = offset_keep b q (record c { basebackups = c.basebackups ++ b ∷ [] })

  round-kept :
      (k : ℕ) (b : BaseBackupDescr) (u : Usable locks b) (c : CleanupDescr)
      → expired locks exceeds b ≡ false
      → datetime_round locks source exceeds k b (some c) ≡ (ok k, some (after_keep locks b u c))
  unfolding datetime_round datetime_keep
  round-kept k b u c h =
      let stays : (exceeds b && not (is_in_progress b.status || in_use u.lock)) ≡ false =
        rw (u.lock_eq, in_use-verdict u.lock) at h in
      rw u.lock_eq (rw stays (rw (keep_wal_lem locks b u c)))

  round-expired :
      (k : ℕ) (b : BaseBackupDescr) (u : Usable locks b) (q : ℕ) (c : CleanupDescr)
      → decode_xlog_pos b.xlogposend ≡ ok q
      → expired locks exceeds b ≡ true
      → k < length source
      → k + 1 < 2 ^ 32
      → datetime_round locks source exceeds k b (some c) ≡ (ok (k + 1), some (dropped b q c))
  unfolding datetime_round datetime_drop drop_on
  round-expired k b u q c e h i w =
      let goes : (exceeds b && not (is_in_progress b.status || in_use u.lock)) ≡ true =
        rw (u.lock_eq, in_use-verdict u.lock) at h in
      let fits : u32 (k + 1) ≡ k + 1 = omega arith in
      rw u.lock_eq (rw goes (rw (move_lem source b k c i) (rw e (rw fits))))

  dropped-Lowers : (b : BaseBackupDescr) (q : ℕ) (c : CleanupDescr) → Lowers c (dropped b q c)
  unfolding offset_keep
  dropped-Lowers b q c =
      keep-Lowers (record c { basebackups = c.basebackups ++ b ∷ [] }) q b.timeline
        (u32 b.wal_segment_size)

  dropped-basebackups :
      (b : BaseBackupDescr) (q : ℕ) (c : CleanupDescr)
      → (dropped b q c).basebackups ≡ c.basebackups ++ b ∷ []
  unfolding offset_keep xlog_cleanup_offset_keep
  dropped-basebackups b q c = ground arith

  record Outcome (k : ℕ) (bs : List BaseBackupDescr) (c : CleanupDescr) : Type 0 where
    final : CleanupDescr
    runs :
        datetime_rounds locks source exceeds k bs (some c)
        ≡ (ok (k + length (select (expired locks exceeds) bs)), some final)
    removed : final.basebackups ≡ c.basebackups ++ select (expired locks exceeds) bs
    lowers : Lowers c final
    safe : All (Protects final) (select (λ b. not (expired locks exceeds b)) bs)

  after_kept :
      (b : BaseBackupDescr) (bs : List BaseBackupDescr) (k : ℕ) (c : CleanupDescr)
      (u : Usable locks b)
      → expired locks exceeds b ≡ false
      → Outcome k bs (after_keep locks b u c)
      → Outcome k (b ∷ bs) c
  unfolding datetime_rounds
  after_kept b bs k c u h rest = record {
    final = rest.final;
    runs = rw (round-kept k b u c h) (rw h rest.runs);
    removed = rw h (rw (keep_wal-basebackups locks b u c) at rest.removed);
    lowers =
        Lowers-trans c (after_keep locks b u c) rest.final (keep_wal-Lowers locks b u c)
          rest.lowers;
    safe = rw h (
      Protects-Lowers (after_keep locks b u c) rest.final b rest.lowers
          (keep_wal-Protects locks b u c),
      rest.safe,
    );
  }

  after_expired :
      (b : BaseBackupDescr) (bs : List BaseBackupDescr) (k : ℕ) (c : CleanupDescr)
      (u : Usable locks b) (q : ℕ)
      → decode_xlog_pos b.xlogposend ≡ ok q
      → expired locks exceeds b ≡ true
      → k < length source
      → k + 1 < 2 ^ 32
      → Outcome (k + 1) bs (dropped b q c)
      → Outcome k (b ∷ bs) c
  unfolding datetime_rounds
  after_expired b bs k c u q e h i w rest = record {
    final = rest.final;
    runs =
        rw (round-expired k b u q c e h i w)
          (rest.runs ∙ ap (λ n. (ok n, some rest.final)) (rw h (omega arith)));
    removed = rw h (rw (dropped-basebackups b q c, append_assoc) at rest.removed);
    lowers = Lowers-trans c (dropped b q c) rest.final (dropped-Lowers b q c) rest.lowers;
    safe = rw h rest.safe;
  }

  datetime_rounds_lem :
      (bs : List BaseBackupDescr) (k : ℕ) (c : CleanupDescr)
      → All (Usable locks) bs
      → All Ended bs
      → k + length bs ≤ length source
      → length source < 2 ^ 32
      → Outcome k bs c
  unfolding datetime_rounds
  datetime_rounds_lem [] k c u e i w = record {
    final = c;
    runs = ap (λ n. (ok n, some c)) (omega arith);
    removed = sym (append-nil c.basebackups);
    lowers = Lowers-refl c;
    safe = tt;
  }
  datetime_rounds_lem (b ∷ bs) k c u e i w = elim (Bool-cases (expired locks exceeds b)) [
    | inl h ↦
        after_expired b bs k c u.0 e.0.0 e.0.1 h (omega arith) (omega arith)
          (datetime_rounds_lem bs (k + 1) (dropped b e.0.0 c) u.1 e.1 (omega arith) w)
    | inr h ↦
        after_kept b bs k c u.0 h
          (datetime_rounds_lem bs k (after_keep locks b u.0 c) u.1 e.1 (omega arith) w)
  ]

-- A rule that holds the descriptor c, over a list that fits a counter, whose basebackups start
-- behind the first WAL segment and have an end, and whose locks can be read: it selects exactly
-- those that exceed the rule, are not in progress, and that the locks do not report as pinned or as in
-- use (one that is reported as invalid, pinned or not, is selected), in the list's order, reports
-- their number, and leaves offsets that protect the WAL of every other one.
pub apply_datetime-selects :
    ⦃macros : XlogMacros⦄ (r : DateTimeRetention) (c : CleanupDescr) (list : List BaseBackupDescr)
    → r.cleanup_descr ≡ some c
    → length list < 2 ^ 32
    → All (Usable r.locks) list
    → All Ended list
    → (d : CleanupDescr) × (apply_datetime list r ≡ (
      ok (length (select (expired r.locks (r.exceeds r.rule_type)) list)),
      record r { retention = record r.retention { cleanup_descr = some d } },
    ))
      × (d.basebackups ≡ c.basebackups ++ select (expired r.locks (r.exceeds r.rule_type)) list)
      × All (Protects d) (select (λ b. not (expired r.locks (r.exceeds r.rule_type) b)) list)
unfolding apply_datetime
apply_datetime-selects r c list h w u e =
    let out =
      datetime_rounds_lem r.locks list (r.exceeds r.rule_type) list 0 c u e (omega arith) w in
    let start : datetime_rounds r.locks list (r.exceeds r.rule_type) 0 list r.cleanup_descr
        ≡ (ok (length (select (expired r.locks (r.exceeds r.rule_type)) list)), some out.final) =
      rw h (out.runs ∙ ap (λ n. (ok n, some out.final)) (omega arith)) in
    (
      out.final,
      ap (λ x. (x.0, record r { retention = record r.retention { cleanup_descr = x.1 } })) start,
      out.removed,
      out.safe,
    )
