-- ===== src/Retention/Safety.antt =====
-- What a rule guarantees to the basebackups that it keeps (src/catalog/retention.cxx).
use native.Mathlib.Nat.{le_refl}
use pg_backup_ctl_plus.Base.{ℕ, ◌≤◌, ◌<◌, ◌≡◌, Bool, true, List, [], ◌∷◌, arith, All}
use pg_backup_ctl_plus.Base.Int.{u32}
use pg_backup_ctl_plus.Base.Result.{Result, ok, err}
use pg_backup_ctl_plus.Wal.Position.{XlogMacros, IsSegmentSize, word_mod, start-prev-le}
use pg_backup_ctl_plus.Wal.Text.{decode_xlog_pos}
use pg_backup_ctl_plus.Archive.Backup.{BaseBackupDescr}
use pg_backup_ctl_plus.Archive.Lock.{LockType, LockInfo, is_locked, locked}
use pg_backup_ctl_plus.Archive.Cleanup.{CleanupDescr, xlog_cleanup_offset_keep}
use pg_backup_ctl_plus.Archive.Cleanup.Offsets.{Lowers, keep-AtMost, keep-Lowers, Protects}
use pg_backup_ctl_plus.Retention.Rule.{wal_start, offset_keep, keep_wal}

-- A basebackup whose locks can be read, and whose start is a position behind the first segment.
pub record Usable (locks : List LockInfo) (b : BaseBackupDescr) : Type 0 where
  pub lock : LockType
  pub lock_eq : locked locks b ≡ ok lock
  pub start : ℕ
  pub decoded : decode_xlog_pos b.xlogpos ≡ ok start
  pub start_fits : start < word_mod
  pub segment_size : IsSegmentSize (u32 b.wal_segment_size)
  pub not_first : u32 b.wal_segment_size ≤ start

-- The verdict of the locks; a lock that cannot be read counts as one.
abbrev pub lock_verdict : Result LockType → Bool
lock_verdict (ok t) = is_locked t
lock_verdict (err e) = true

abbrev pub is_held : List LockInfo → BaseBackupDescr → Bool
is_held locks b = lock_verdict (locked locks b)

pub verdict :
    (locks : List LockInfo) (b : BaseBackupDescr) (u : Usable locks b)
    → is_held locks b ≡ is_locked u.lock
verdict locks b u = rw u.lock_eq

pub Protects-Lowers :
    (c d : CleanupDescr) (b : BaseBackupDescr) → Lowers c d → Protects c b → Protects d b
Protects-Lowers c d b l (p, e, o, f, h) =
    let (o', f', h') = l b.timeline o.wal_cleanup_start_pos (o, f, le_refl _) in
    (p, e, o', f', omega arith)

pub All-Protects-Lowers :
    (c d : CleanupDescr) (bs : List BaseBackupDescr)
    → Lowers c d
    → All (Protects c) bs
    → All (Protects d) bs
All-Protects-Lowers c d [] l h = tt
All-Protects-Lowers c d (b ∷ bs) l h =
    (Protects-Lowers c d b l h.0, All-Protects-Lowers c d bs l h.1)

module _ ⦃macros : XlogMacros⦄ (locks : List LockInfo) (b : BaseBackupDescr)
    (u : Usable locks b) where
  abbrev pub after_keep : CleanupDescr → CleanupDescr
  after_keep c = offset_keep b (wal_start b u.start) c

  pub keep_wal_lem : (c : CleanupDescr) → keep_wal b c ≡ (ok tt, after_keep c)
  unfolding keep_wal
  keep_wal_lem c = rw u.decoded

  pub keep_wal-Protects : (c : CleanupDescr) → Protects (after_keep c) b
  unfolding offset_keep wal_start
  keep_wal-Protects c =
      let (o, f, h) = keep-AtMost c (wal_start b u.start) b.timeline (u32 b.wal_segment_size) in
      (
        u.start,
        u.decoded,
        o,
        f,
        omega (arith, h, start-prev-le u.start _ u.segment_size u.start_fits u.not_first),
      )

  pub keep_wal-Lowers : (c : CleanupDescr) → Lowers c (after_keep c)
  unfolding offset_keep
  keep_wal-Lowers c = keep-Lowers c _ _ _

  pub keep_wal-basebackups : (c : CleanupDescr) → (after_keep c).basebackups ≡ c.basebackups
  unfolding offset_keep xlog_cleanup_offset_keep
  keep_wal-basebackups c = ground arith
