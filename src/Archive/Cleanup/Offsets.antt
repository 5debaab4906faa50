-- ===== src/Archive/Cleanup/Offsets.antt =====
-- How XLogCleanupOffsetKeep (src/catalog/retention.cxx) changes the offsets of the timelines: they
-- only fall, and the one it is called for falls to the position given, at least.
use native.Mathlib.Nat.{le_trans}
use pg_backup_ctl_plus.Base.{
  ℕ, ◌+◌, ◌-◌, ◌%◌, ◌≤◌, ◌≡◌, refl, true, Option, none, some, [], ◌∷◌, arith, ltb, ◌==◌,
  if◌then◌else◌, Bool-cases, Option-cases, inl, inr,
}
use pg_backup_ctl_plus.Base.Int.{u32}
use pg_backup_ctl_plus.Base.Result.{ok}
use pg_backup_ctl_plus.Wal.Position.{XlogMacros, xlog_segment_start_position}
use pg_backup_ctl_plus.Wal.Text.{decode_xlog_pos}
use pg_backup_ctl_plus.Archive.Backup.{BaseBackupDescr}
use pg_backup_ctl_plus.Archive.Cleanup.{
  CleanupOffset, OffsetMap, CleanupDescr, find, insert, xlog_cleanup_offset_keep,
}

pub find-insert :
    (k j : ℕ) (o : CleanupOffset) (m : OffsetMap)
    → find j (insert k o m) ≡ (if k == j then some o else find j m)
unfolding find insert
find-insert k j o [] = refl
find-insert k j o ((i, p) ∷ m) = ground (arith, find-insert k j o m)

-- The timeline has an offset, at or below a position.
abbrev pub AtMost : CleanupDescr → ℕ → ℕ → Type 0
AtMost c timeline p =
    (o : CleanupOffset) × (find timeline c.off_list ≡ some o) × (o.wal_cleanup_start_pos ≤ p)

-- No offset is lost or raised.
abbrev pub Lowers : CleanupDescr → CleanupDescr → Type 0
Lowers c d = (timeline p : ℕ) → AtMost c timeline p → AtMost d timeline p

pub Lowers-refl : (c : CleanupDescr) → Lowers c c
Lowers-refl c t p h = h

pub Lowers-trans : (c d e : CleanupDescr) → Lowers c d → Lowers d e → Lowers c e
Lowers-trans c d e f g t p h = g t p (f t p h)

-- The offset that a call leaves for its timeline.
abbrev pub lowered : ℕ → ℕ → ℕ → Option CleanupOffset → CleanupOffset
lowered timeline size pos none = record {
  timeline = timeline;
  wal_segment_size = size;
  wal_cleanup_start_pos = pos;
}
lowered timeline size pos (some o) = record o {
  wal_cleanup_start_pos = if ltb pos o.wal_cleanup_start_pos then pos else o.wal_cleanup_start_pos;
}

lowered-le :
    (timeline size pos : ℕ) (o : Option CleanupOffset)
    → (lowered timeline size pos o).wal_cleanup_start_pos ≤ pos
lowered-le timeline size pos none = omega arith
lowered-le timeline size pos (some o) = ground arith

lowered-le_old :
    (timeline size pos : ℕ) (r : Option CleanupOffset) (o : CleanupOffset)
    → r ≡ some o
    → (lowered timeline size pos r).wal_cleanup_start_pos ≤ o.wal_cleanup_start_pos
lowered-le_old timeline size pos r o e = rw e (lower o)
  where
    lower :
        (q : CleanupOffset)
        → (lowered timeline size pos (some q)).wal_cleanup_start_pos ≤ q.wal_cleanup_start_pos
    lower q = ground arith

find-same :
    (t k : ℕ) (m : OffsetMap) (o : CleanupOffset)
    → find k m ≡ some o
    → find t m ≡ (if k == t then some o else find t m)
find-same t k m o e = elim (Bool-cases (k == t)) [
  | inl same ↦ let eq : k ≡ t = ground arith in rw same (rw (← eq) e)
  | inr other ↦ rw other refl
]

module _ ⦃macros : XlogMacros⦄ (c : CleanupDescr) (start timeline size : ℕ) where
  abbrev new_offset : CleanupOffset
  new_offset =
      lowered timeline size (xlog_segment_start_position start size) (find timeline c.off_list)

  pub find-keep :
      (t : ℕ)
      → find t (xlog_cleanup_offset_keep c start timeline size).1.off_list
        ≡ (if timeline == t then some new_offset else find t c.off_list)
  unfolding xlog_cleanup_offset_keep
  find-keep t = elim (Option-cases (find timeline c.off_list)) [
    | inl e ↦ rw (e, xlog_cleanup_offset_keep) (find-insert timeline t _ c.off_list)
    | inr (o, e) ↦
        rw (e, xlog_cleanup_offset_keep)
          (elim (Bool-cases
            (ltb (xlog_segment_start_position start size) o.wal_cleanup_start_pos)) [
              | inl moved ↦ rw moved (find-insert timeline t _ c.off_list)
              | inr old ↦ rw old (find-same t timeline c.off_list o e)
            ])
  ]

  -- The call's own timeline.
  pub keep-AtMost :
      AtMost
        (xlog_cleanup_offset_keep c start timeline size).1
        timeline
        (xlog_segment_start_position start size)
  keep-AtMost = (new_offset, ground (arith, find-keep timeline), lowered-le _ _ _ _)

  -- Every timeline.
  pub keep-Lowers : Lowers c (xlog_cleanup_offset_keep c start timeline size).1
  keep-Lowers t p (o, e, h) = elim (Bool-cases (timeline == t)) [
    | inl same ↦ (
      new_offset,
      ground (arith, find-keep t),
      le_trans (lowered-le_old timeline size _ (find timeline c.off_list) o (own same e)) h,
    )
    | inr other ↦ (o, ground (arith, find-keep t), h)
  ]
    where
      own : (timeline == t) ≡ true → find t c.off_list ≡ some o → find timeline c.off_list ≡ some o
      own same f = let eq : timeline ≡ t = ground arith in rw eq f

-- One segment or more lies between the offset of the basebackup's timeline and the segment in
-- which the basebackup starts.
abbrev pub Protects : CleanupDescr → BaseBackupDescr → Type 0
Protects c b =
    (p : ℕ) × (decode_xlog_pos b.xlogpos ≡ ok p)
    × (o : CleanupOffset) × (find b.timeline c.off_list ≡ some o)
    × (o.wal_cleanup_start_pos + u32 b.wal_segment_size ≤ p - p % u32 b.wal_segment_size)
