-- ===== src/Archive/Removal.antt =====
-- ArchiveLogDirectory::removeXLogs (src/filesystem/fs-archive.cxx): which files of the archive's
-- log directory go. What the file names mean is found by PostgreSQL's macros XLogFromFileName
-- and XLogSegNoOffsetToRecPtr and by regular expressions, so a directory entry carries its
-- kind, its timeline and the position at which its segment starts.
use pg_backup_ctl_plus.Base.{
  ℕ, ◌+◌, ◌-◌, ◌%◌, ◌<◌, ◌≡◌, refl, sym, ◌∙◌, Bool, true, false, not, ◌&&◌, ◌||◌, Option, none,
  some, List, [], ◌∷◌, arith, ltb, leb, ◌==◌, if◌then◌else◌, select, All, Bool-cases, Option-cases,
  inl, inr,
}
use pg_backup_ctl_plus.Base.Int.{u32}
use pg_backup_ctl_plus.Base.Result.{Result, ok, err, archive_issue, undefined_behaviour}
use pg_backup_ctl_plus.Wal.Text.{decode_xlog_pos}
use pg_backup_ctl_plus.Archive.Backup.{BaseBackupDescr}
use pg_backup_ctl_plus.Archive.Cleanup.{
  WalCleanupMode, wal_cleanup_range, wal_cleanup_offset, wal_cleanup_all, no_wal_to_delete,
  CleanupDescr, OffsetMap, CleanupOffset, find,
}
use pg_backup_ctl_plus.Archive.Cleanup.Offsets.{Protects}

-- The kinds of determineXlogSegmentStatus.
pub data SegmentStatus : Type 0 where
  complete complete_compressed partial partial_compressed : SegmentStatus
  tli_history_file tli_history_file_compressed : SegmentStatus
  unknown invalid_filename : SegmentStatus

pub record WalFile : Type 0 where
  pub status : SegmentStatus
  pub timeline : ℕ
  pub recptr : ℕ

abbrev pub is_wal : SegmentStatus → Bool
is_wal unknown = false
is_wal invalid_filename = false
is_wal _ = true

-- The lowest timeline of the offsets; 0 stands for "none yet".
unfoldable pub lowest_tli : ℕ → OffsetMap → ℕ
lowest_tli lowest [] = lowest
lowest_tli lowest ((tli, o) ∷ m) =
    let first = if lowest == 0 then tli else lowest in
    lowest_tli (if ltb tli first then tli else first) m

-- Whether a file is removed. Where its timeline has no offset and is not below all that have
-- one, the code reads through the end iterator of the map.
unfoldable pub removes : CleanupDescr → ℕ → WalFile → Result Bool
removes c lowest f = if not (is_wal f.status) then ok false else elim (find f.timeline c.off_list) [
  | none ↦ if ltb f.timeline lowest then ok true else err undefined_behaviour
  | some o ↦ ok (leb f.recptr o.wal_cleanup_start_pos)
]

-- The directory that is left.
unfoldable pub with_file : WalFile → Result Bool → Result (List WalFile) → Result (List WalFile)
with_file f (ok gone) (ok left) = ok (if gone then left else f ∷ left)
with_file f (ok gone) (err e) = err e
with_file f (err e) rest = err e

unfoldable pub remove_loop : CleanupDescr → ℕ → List WalFile → Result (List WalFile)
unfolding with_file
remove_loop c lowest [] = ok []
remove_loop c lowest (f ∷ fs) = with_file f (removes c lowest f) (remove_loop c lowest fs)

abbrev pub mode_allows : WalCleanupMode → Bool
mode_allows wal_cleanup_range = false
mode_allows no_wal_to_delete = false
mode_allows wal_cleanup_offset = true
mode_allows wal_cleanup_all = true

unfoldable pub remove_xlogs : Option CleanupDescr → List WalFile → Result (List WalFile)
unfolding lowest_tli remove_loop
remove_xlogs none files = err archive_issue
remove_xlogs (some c) files =
    if mode_allows c.mode then remove_loop c (lowest_tli 0 c.off_list) files else err archive_issue

-- The segments of a basebackup's timeline that end behind the start of the segment in which the
-- basebackup starts: what a restore reads.
abbrev pub needs_from : Result ℕ → ℕ → ℕ → WalFile → Bool
needs_from (ok p) timeline s f = f.timeline == timeline && ltb (p - p % s) (f.recptr + s)
needs_from (err e) timeline s f = false

abbrev pub needs : BaseBackupDescr → WalFile → Bool
needs b = needs_from (decode_xlog_pos b.xlogpos) b.timeline (u32 b.wal_segment_size)

module _ (c : CleanupDescr) (b : BaseBackupDescr) (h : Protects c b) where
  removes-needed :
      (lowest : ℕ) (f : WalFile) (r : Result Bool)
      → removes c lowest f ≡ r
      → needs b f ≡ true
      → (r ≡ ok false)
  unfolding removes
  removes-needed lowest f r e n = sym e ∙ stays
    where
      known : needs_from (ok h.0) b.timeline (u32 b.wal_segment_size) f ≡ true
      known = rw h.1 at n

      same_timeline : f.timeline ≡ b.timeline
      same_timeline = ground arith

      behind : h.2.wal_cleanup_start_pos < f.recptr
      behind = ground arith

      stays : removes c lowest f ≡ ok false
      stays = rw (same_timeline, removes) (rw h.3 (ground arith))

with_file-needed :
    (p : WalFile → Bool) (f : WalFile) (r : Result Bool) (rest : Result (List WalFile))
    (wanted left : List WalFile)
    → (p f ≡ true → r ≡ ok false)
    → ((l : List WalFile) → rest ≡ ok l → select p l ≡ wanted)
    → with_file f r rest ≡ ok left
    → select p left ≡ (if p f then f ∷ wanted else wanted)
unfolding with_file
with_file-needed p f (ok gone) (ok l) wanted left n ih e = ground (arith, ih l refl)
with_file-needed p f (ok gone) (err x) wanted left n ih e = cc
with_file-needed p f (err x) rest wanted left n ih e = cc

remove_loop-needed :
    (c : CleanupDescr) (b : BaseBackupDescr)
    → Protects c b
    → (lowest : ℕ) (fs left : List WalFile) → remove_loop c lowest fs ≡ ok left
    → select (needs b) left ≡ select (needs b) fs
unfolding remove_loop
remove_loop-needed c b h lowest [] left e = let none_left : left ≡ [] = cc in rw none_left refl
remove_loop-needed c b h lowest (f ∷ fs) left e =
    with_file-needed (needs b) f (removes c lowest f) (remove_loop c lowest fs)
      (select (needs b) fs) left (removes-needed c b h lowest f (removes c lowest f) refl)
      (λ l. remove_loop-needed c b h lowest fs l) e

-- A file that the code can judge: no WAL, or on a timeline with an offset, or below all of these.
abbrev pub has_offset : Option CleanupOffset → Bool
has_offset none = false
has_offset (some o) = true

abbrev pub judged : CleanupDescr → WalFile → Bool
judged c f =
    not (is_wal f.status)
    || has_offset (find f.timeline c.off_list)
    || ltb f.timeline (lowest_tli 0 c.off_list)

removes-total :
    (c : CleanupDescr) (f : WalFile)
    → judged c f ≡ true
    → (gone : Bool) × (removes c (lowest_tli 0 c.off_list) f ≡ ok gone)
unfolding removes
removes-total c f h = elim (Bool-cases (is_wal f.status)) [
  | inr other ↦ (false, rw other refl)
  | inl wal ↦ elim (Option-cases (find f.timeline c.off_list)) [
    | inr (o, e) ↦ (leb f.recptr o.wal_cleanup_start_pos, rw wal (rw (e, removes)))
    | inl e ↦ (true, rw wal (rw (e, removes) (rw (low wal e))))
  ]
]
  where
    low :
        is_wal f.status ≡ true
        → find f.timeline c.off_list ≡ none
        → ltb f.timeline (lowest_tli 0 c.off_list) ≡ true
    low wal e = rw (wal, e) at h

remove_loop-total :
    (c : CleanupDescr) (fs : List WalFile)
    → All (λ f. judged c f ≡ true) fs
    → (left : List WalFile) × (remove_loop c (lowest_tli 0 c.off_list) fs ≡ ok left)
unfolding remove_loop
remove_loop-total c [] h = ([], refl)
remove_loop-total c (f ∷ fs) h =
    let (gone, e) = removes-total c f h.0 in
    let (left, g) = remove_loop-total c fs h.1 in ((if gone then left else f ∷ left), rw (e, g))

-- With a mode that allows it and files that can all be judged, the removal succeeds, and of each
-- basebackup that the offsets protect every file that it needs is left, in order.
pub remove_xlogs-keeps :
    (c : CleanupDescr) (files : List WalFile) (bs : List BaseBackupDescr)
    → mode_allows c.mode ≡ true
    → All (λ f. judged c f ≡ true) files
    → All (Protects c) bs
    → (left : List WalFile) × (remove_xlogs (some c) files ≡ ok left)
      × All (λ b. select (needs b) left ≡ select (needs b) files) bs
unfolding remove_xlogs
remove_xlogs-keeps c files bs m j h =
    let (left, e) = remove_loop-total c files j in (left, rw m e, each left e bs h)
  where
    each :
        (left : List WalFile)
        → remove_loop c (lowest_tli 0 c.off_list) files ≡ ok left
        → (bs' : List BaseBackupDescr) → All (Protects c) bs'
        → All (λ b. select (needs b) left ≡ select (needs b) files) bs'
    each left e [] h' = tt
    each left e (b ∷ bs') h' =
        (remove_loop-needed c b h'.0 (lowest_tli 0 c.off_list) files left e, each left e bs' h'.1)
