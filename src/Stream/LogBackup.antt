-- ===== src/Stream/LogBackup.antt =====
-- Class TransactionLogBackup (src/backup/backup.cxx): the WAL of a stream is written to segment files,
-- with the calls of class ArchiveFile, for uncompressed files, that it makes
-- (src/filesystem/fs-archive.cxx).
pub mod Files
pub mod Rounds
pub mod Stored
pub mod Written
use pg_backup_ctl_plus.Base.{
  ℕ, zero, suc, ◌+◌, ◌-◌, ◌/◌, ◌%◌, ◌^◌, ◌≡◌, Bool, true, false, not, ◌&&◌, ◌||◌, Option, none,
  some, List, [], ◌∷◌, ◌++◌, map, ltb, leb, ◌==◌, if◌then◌else◌, length, take, drop,
}
use pg_backup_ctl_plus.Base.Result.{
  failure, archive_issue, loop_bound, Result, ok, err, M, ◌>>=◌, ◌>>◌, return, throw, lift, modify,
  gets, guard, bind_result,
}
use pg_backup_ctl_plus.Buffer.Memory.{copied, first_bytes}
use pg_backup_ctl_plus.Wal.Position.{IsSegmentSize, XlogMacros, xlog_offset}
use pg_backup_ctl_plus.Stream.Message.{DataMessage}

-- The name of a segment file. PostgreSQL's XLogFileName makes a text of the timeline and the
-- segment number, from which both can be read; the name has the suffix `.partial` or not.
pub record FileName : Type 0 where
  pub timeline : ℕ
  pub segment_number : ℕ
  pub is_partial : Bool

abbrev pub eq_Bool : Bool → Bool → Bool
eq_Bool true b = b
eq_Bool false b = not b

abbrev pub eq_name : FileName → FileName → Bool
eq_name a b =
    (a.timeline == b.timeline)
    && ((a.segment_number == b.segment_number) && eq_Bool a.is_partial b.is_partial)

-- A file in the log directory.
pub record DiskFile : Type 0 where
  pub name : FileName
  pub content : List ℕ

-- TransactionLogListItem with its file handle: `is_open` stands for a pointer `fp` that is not null,
-- and the position of the stream is `currpos`.
pub record LogItem : Type 0 where
  pub name : FileName
  pub currpos : ℕ
  pub is_open : Bool
  pub sync_pending : Bool
  pub flush_pending : Bool

-- TransactionLogBackup, with the files in its directory.
pub record LogBackup : Type 0 where
  pub initialized : Bool
  pub wal_segment_size : ℕ
  pub wal_synced : ℕ
  pub file_list : List LogItem
  pub disk : List DiskFile

-- What the program asks the operating system for.
pub data Call : Type 0 where
  open_file : FileName → Call
  write_file : FileName → ℕ → Call
  sync_file : FileName → Call
  rename_file : FileName → Call
  sync_directory : Call

pub record Os : Type 0 where
  pub grants : Call → Bool

-- PostgreSQL's XLByteToSeg, by its documentation.
pub record SegmentNumbers : Type 0 where
  pub byte_to_seg : ℕ → ℕ → ℕ
  pub byte_to_seg_lem : (p s : ℕ) → IsSegmentSize s → byte_to_seg p s ≡ p / s

-- The file system.
abbrev pub exists : FileName → List DiskFile → Bool
exists a [] = false
exists a (f ∷ fs) = if eq_name a f.name then true else exists a fs

-- fopen with the mode wb+.
abbrev pub create : FileName → List DiskFile → List DiskFile
create a fs =
    if exists a fs
    then map (λ f. if eq_name a f.name then record f { content = [] } else f) fs
    else record { name = a; content = [] } ∷ fs

-- fwrite at a position.
abbrev pub overwrite_at : ℕ → List ℕ → List ℕ → List ℕ
overwrite_at pos bs content = take pos content ++ bs ++ drop (pos + length bs) content

abbrev pub write_at : FileName → ℕ → List ℕ → List DiskFile → List DiskFile
write_at a pos bs [] = []
write_at a pos bs (f ∷ fs) =
    if eq_name a f.name
    then record f { content = overwrite_at pos bs f.content } ∷ fs
    else f ∷ write_at a pos bs fs

abbrev pub rename_to : FileName → FileName → List DiskFile → List DiskFile
rename_to a b [] = []
rename_to a b (f ∷ fs) =
    if eq_name a f.name then record f { name = b } ∷ fs else f ∷ rename_to a b fs

abbrev pub file_size : FileName → List DiskFile → Option ℕ
file_size a [] = none
file_size a (f ∷ fs) = if eq_name a f.name then some (length f.content) else file_size a fs

-- std::vector::back, and the vector with another last element.
abbrev pub back : List LogItem → Option LogItem
back [] = none
back (x ∷ []) = some x
back (x ∷ y ∷ ys) = back (y ∷ ys)

abbrev pub set_back : LogItem → List LogItem → List LogItem
set_back i [] = []
set_back i (x ∷ []) = i ∷ []
set_back i (x ∷ y ∷ ys) = x ∷ set_back i (y ∷ ys)

abbrev pub get_back : M LogBackup LogItem
get_back b = elim (back b.file_list) [ none ↦ (err archive_issue, b) | some i ↦ (ok i, b) ]

abbrev pub put_back : LogItem → M LogBackup (Unit {0})
put_back i = modify (λ b. record b { file_list = set_back i b.file_list })

abbrev pub on_disk : (List DiskFile → List DiskFile) → M LogBackup (Unit {0})
on_disk f = modify (λ b. record b { disk = f b.disk })

module _ ⦃os : Os⦄ where
  abbrev pub ask : Call → M LogBackup (Unit {0})
  ask c = guard (os.grants c) archive_issue

  -- ArchiveFile::fsync
  abbrev pub sync_item : LogItem → M LogBackup (Unit {0})
  sync_item i = guard i.is_open archive_issue >> ask (sync_file i.name)

  -- ArchiveFile::write at the last item, which is then marked. For no bytes fwrite returns 0, which
  -- is an error.
  unfoldable pub write_item : List ℕ → M LogBackup (Unit {0})
  write_item bs = do
    i ← get_back
    guard i.is_open archive_issue
    ask (write_file i.name (length bs))
    guard (not (length bs == 0)) archive_issue
    on_disk (write_at i.name i.currpos bs)
    put_back
        (record i { currpos = i.currpos + length bs; sync_pending = true; flush_pending = true })

  -- ArchiveFile::close
  abbrev pub closed_item : LogItem → LogItem
  closed_item i = record i { is_open = false; currpos = 0 }

  -- TransactionLogBackup::stackFile
  unfoldable pub stack_file : FileName → M LogBackup (Unit {0})
  stack_file a = do
    initialized ← gets (λ b. b.initialized)
    guard initialized archive_issue
    ask (open_file a)
    on_disk (create a)
    modify (λ b. record b {
      file_list =
          b.file_list
          ++ record {
            name = a;
            currpos = 0;
            is_open = true;
            sync_pending = true;
            flush_pending = true;
          }
            ∷ [];
    })

  -- ArchiveFile::rename, of the last item. The file is synced, closed, renamed, and opened again,
  -- which sets its position to 0.
  unfoldable pub rename_item : LogItem → M LogBackup (Unit {0})
  rename_item i =
      let final = record i.name { is_partial = false } in
      do
        taken ← gets (λ b. exists final b.disk)
        guard (not taken) archive_issue
        there ← gets (λ b. exists i.name b.disk)
        guard there archive_issue
        sync_item i
        put_back (closed_item i)
        ask (rename_file i.name)
        on_disk (rename_to i.name final)
        put_back (record (closed_item i) { name = final })
        ask (open_file final)
        put_back (record i { name = final; currpos = 0 })
        ask (sync_file final)
        put_back (record {
          name = final;
          currpos = 0;
          is_open = true;
          sync_pending = false;
          flush_pending = false;
        })

  -- TransactionLogBackup::finalizeCurrentWALFile
  unfoldable pub finalize_current_wal_file : Bool → M LogBackup (Unit {0})
  unfolding rename_item
  finalize_current_wal_file force = do
    i ← get_back
    size ← gets (λ b. b.wal_segment_size)
    (if i.currpos == size then rename_item i else return tt)
    last ← get_back
    found ← gets (λ b. file_size last.name b.disk)
    n ← lift (elim found [ none ↦ err failure | some n ↦ ok n ])
    guard (not (force && not (n == size))) archive_issue

  -- A loop over the items, of which some are done: what is done with an item, and what it then is.
  abbrev pub for_items :
      (LogItem → M LogBackup (Unit {0}))
      → (LogItem → LogItem)
      → List LogItem
      → List LogItem
      → M LogBackup (Unit {0})
  for_items act next done [] = return tt
  for_items act next done (i ∷ is) = do
    act i
    modify (λ b. record b { file_list = done ++ next i ∷ is })
    for_items act next (done ++ next i ∷ []) is

  abbrev pub synced_item : LogItem → LogItem
  synced_item i = record i { sync_pending = false; flush_pending = false }

  -- TransactionLogBackup::sync_pending
  unfoldable pub sync_pending : M LogBackup (Unit {0})
  sync_pending = do
    items ← gets (λ b. b.file_list)
    for_items (λ i. if i.sync_pending || i.flush_pending then sync_item i else return tt)
        synced_item [] items
    ask sync_directory

  -- TransactionLogBackup::finalize
  unfoldable pub finalize : M LogBackup (Unit {0})
  unfolding sync_pending
  finalize = do
    sync_pending
    items ← gets (λ b. b.file_list)
    for_items (λ i. guard i.is_open archive_issue) closed_item [] items
    modify (λ b. record b { file_list = [] })

  -- The end of a round of the loop of `write`, where a segment is complete or not.
  unfoldable pub close_segment : Bool → M LogBackup (Unit {0})
  unfolding finalize_current_wal_file finalize
  close_segment false = return tt
  close_segment true = do
    finalize_current_wal_file true
    finalize
    modify (λ b. record b { wal_synced = b.wal_synced + 1 })

-- TransactionLogBackup::initialize, but for the handles of the directories.
unfoldable pub initialize : M LogBackup (Unit {0})
initialize b =
    if b.initialized
    then (ok tt, b)
    else if b.wal_segment_size == 0 || not (b.wal_segment_size % 2 == 0)
    then (err archive_issue, b)
    else (ok tt, record b { initialized = true })

-- TransactionLogBackup::setWalSegmentSize
unfoldable pub set_wal_segment_size : ℕ → M LogBackup (Unit {0})
set_wal_segment_size size b =
    if b.initialized then (err archive_issue, b) else (ok tt, record b { wal_segment_size = size })

module _ ⦃os : Os⦄ ⦃macros : XlogMacros⦄ ⦃segments : SegmentNumbers⦄ where
  -- TransactionLogBackup::walfilename, with the suffix that `write` adds.
  abbrev pub partial_name : ℕ → ℕ → ℕ → FileName
  partial_name timeline position size = record {
    timeline = timeline;
    segment_number = segments.byte_to_seg position size;
    is_partial = true;
  }

  -- The bytes that a round writes. The sum is a size_t.
  abbrev pub round_bytes : ℕ → ℕ → ℕ → ℕ
  round_bytes size waloffset left = if ltb size (waloffset + left) then size - waloffset else left

  -- One round of the loop of `write` over the data that is left; `has_item` says that `item` is not
  -- null. The result is the number of bytes written, the position behind them, and whether a
  -- segment ends there.
  unfoldable pub write_round : ℕ → Bool → ℕ → ℕ → List ℕ → M LogBackup (ℕ × ℕ × Bool)
  unfolding stack_file write_item close_segment xlog_offset
  write_round timeline has_item position waloffset data_left = do
    size ← gets (λ b. b.wal_segment_size)
    let bw = round_bytes size waloffset (length data_left)
    (if has_item then return tt else stack_file (partial_name timeline position size))
    write_item (take bw data_left)
    let next = (position + bw) % 2 ^ 64
    let boundary = xlog_offset next size == 0
    close_segment boundary
    return (bw, next, boundary)

  -- The loop. The result is the position and the flush position. The first number bounds the rounds.
  unfoldable pub write_loop : ℕ → ℕ → Bool → ℕ → ℕ → ℕ → List ℕ → M LogBackup (ℕ × ℕ)
  unfolding write_round
  write_loop n timeline has_item position waloffset flush [] = return (position, flush)
  write_loop zero timeline has_item position waloffset flush (x ∷ data_left) = throw loop_bound
  write_loop (suc n) timeline has_item position waloffset flush (x ∷ data_left) = do
    (bw, next, boundary) ← write_round timeline has_item position waloffset (x ∷ data_left)
    write_loop n timeline (not boundary) next (if boundary then 0 else waloffset + bw)
        (if boundary then next else flush) (drop bw (x ∷ data_left))

  -- The check of `write` for the position of the last segment file.
  unfoldable pub check_position : ℕ → M LogBackup Bool
  check_position waloffset b = elim (back b.file_list) [
    | none ↦ (if waloffset == 0 then ok false else err archive_issue, b)
    | some i ↦ (if i.currpos == waloffset then ok true else err archive_issue, b)
  ]

  -- TransactionLogBackup::write. Every round of the loop writes a byte or more.
  unfoldable pub write : Option DataMessage → ℕ → M LogBackup (ℕ × ℕ)
  unfolding check_position write_loop xlog_offset
  write message timeline = do
    initialized ← gets (λ b. b.initialized)
    guard initialized archive_issue
    m ← lift (elim message [ none ↦ err archive_issue | some m ↦ ok m ])
    size ← gets (λ b. b.wal_segment_size)
    let position = m.xlogstartpos
    let waloffset = xlog_offset position size
    databuf ← lift (elim m.xlogdata.block [ none ↦ err failure | some b ↦ ok b ])
    has_item ← check_position waloffset
    bytes ← lift (copied (first_bytes m.xlogdata.size databuf))
    write_loop (length bytes) timeline has_item position waloffset 0 bytes
