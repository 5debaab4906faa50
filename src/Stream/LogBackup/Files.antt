-- ===== src/Stream/LogBackup/Files.antt =====
-- The file operations of TransactionLogBackup (src/backup/backup.cxx) on the newest file of the log,
-- which stands first on the modelled disk.
use pg_backup_ctl_plus.Base.{
  ℕ, zero, suc, ◌+◌, ◌<◌, ◌≤◌, ◌≡◌, refl, ap, ◌∙◌, Bool, true, false, ◌&&◌, List, [], ◌∷◌, ◌++◌,
  append-nil, arith, ◌==◌, length, take, drop, All, pos→ne,
}
use pg_backup_ctl_plus.Base.Result.{ok}
use pg_backup_ctl_plus.Stream.LogBackup.{
  FileName, eq_Bool, eq_name, DiskFile, LogItem, LogBackup, Call, open_file, write_file, sync_file,
  rename_file, sync_directory, Os, exists, overwrite_at, write_item, stack_file, rename_item,
  finalize_current_wal_file, sync_pending, finalize, close_segment,
}

-- The files of the segments below a number are complete: they have the final name and are as long
-- as a segment.
pub record IsComplete (size n : ℕ) (f : DiskFile) : Type 0 where
  pub final : f.name.is_partial ≡ false
  pub below : f.name.segment_number < n
  pub whole : length f.content ≡ size

module _ (timeline n : ℕ) where
  abbrev pub partial_file : FileName
  partial_file = record { timeline = timeline; segment_number = n; is_partial = true }

  abbrev pub final_file : FileName
  final_file = record { timeline = timeline; segment_number = n; is_partial = false }

eq_name_refl : (a : FileName) → eq_name a a ≡ true
eq_name_refl a =
    let t : (a.timeline == a.timeline) ≡ true = ground arith in
    let s : (a.segment_number == a.segment_number) ≡ true = ground arith in
    rw t (rw s (same a.is_partial))
  where
    same : (b : Bool) → eq_Bool b b ≡ true
    same true = refl
    same false = refl

eq_name-below : (a b : FileName) → b.segment_number < a.segment_number → eq_name a b ≡ false
eq_name-below a b h =
    let s : (a.segment_number == b.segment_number) ≡ false = ground arith in
    rw s (andf (a.timeline == b.timeline))
  where
    andf : (x : Bool) → (x && false) ≡ false
    andf true = refl
    andf false = refl

exists-IsComplete :
    (size n : ℕ) (a : FileName) (fs : List DiskFile)
    → n ≤ a.segment_number
    → All (IsComplete size n) fs
    → exists a fs ≡ false
exists-IsComplete size n a [] h k = refl
exists-IsComplete size n a (f ∷ fs) h k =
    rw (eq_name-below a f.name (omega (arith, k.0.below))) (exists-IsComplete size n a fs h k.1)

pub IsComplete-mono :
    (size n : ℕ) (fs : List DiskFile)
    → All (IsComplete size n) fs
    → All (IsComplete size (suc n)) fs
IsComplete-mono size n [] k = tt
IsComplete-mono size n (f ∷ fs) k = (
  record { final = k.0.final; below = omega (arith, k.0.below); whole = k.0.whole },
  IsComplete-mono size n fs k.1,
)

-- A handle that is initialized, with the open file of a segment.
module _ (size synced : ℕ) where
  abbrev pub logging : List LogItem → List DiskFile → LogBackup
  logging items disk = record {
    initialized = true;
    wal_segment_size = size;
    wal_synced = synced;
    file_list = items;
    disk = disk;
  }

module _ (timeline n : ℕ) where
  abbrev pub open_item : ℕ → Bool → Bool → LogItem
  open_item off s f = record {
    name = partial_file timeline n;
    currpos = off;
    is_open = true;
    sync_pending = s;
    flush_pending = f;
  }

  abbrev pub partial_of : List ℕ → DiskFile
  partial_of c = record { name = partial_file timeline n; content = c }

  abbrev pub final_of : List ℕ → DiskFile
  final_of c = record { name = final_file timeline n; content = c }

take-all : (c : List ℕ) → take (length c) c ≡ c
take-all [] = refl
take-all (x ∷ c) = ap (λ t. x ∷ t) (take-all c)

drop-past : (n : ℕ) (c : List ℕ) → length c ≤ n → drop n c ≡ []
drop-past zero [] h = refl
drop-past (suc n) [] h = refl
drop-past zero (x ∷ c) h = absurd (omega arith)
drop-past (suc n) (x ∷ c) h = drop-past n c (omega arith)

overwrite_at-end : (c bs : List ℕ) → overwrite_at (length c) bs c ≡ c ++ bs
overwrite_at-end c bs =
    ap (λ t. t ++ bs ++ drop (length c + length bs) c) (take-all c)
    ∙ ap (λ t. c ++ bs ++ t) (drop-past (length c + length bs) c (omega arith))
    ∙ append-nil (c ++ bs)

eq_name-final : (timeline n : ℕ) → eq_name (final_file timeline n) (partial_file timeline n) ≡ false
eq_name-final timeline n =
    let t : (timeline == timeline) ≡ true = ground arith in
    let s : (n == n) ≡ true = ground arith in rw t (rw s refl)

module _ ⦃os : Os⦄ (granted : (c : Call) → os.grants c ≡ true) (size synced timeline n : ℕ)
    (fs : List DiskFile) where
  pub stack_file-new :
      All (IsComplete size n) fs
      → stack_file (partial_file timeline n) (logging size synced [] fs) ≡ (
        ok tt,
        logging size synced (open_item timeline n 0 true true ∷ []) (partial_of timeline n [] ∷ fs),
      )
  unfolding stack_file
  stack_file-new k =
      rw (granted (open_file (partial_file timeline n)))
        (rw (exists-IsComplete size n (partial_file timeline n) fs (omega arith) k) refl)

  pub write_item-newest :
      (c bs : List ℕ) (s f : Bool)
      → 0 < length bs
      → write_item bs (
          logging size synced
            (open_item timeline n (length c) s f ∷ [])
            (partial_of timeline n c ∷ fs))
        ≡ (
          ok tt,
          logging size synced
              (open_item timeline n (length c + length bs) true true ∷ [])
              (partial_of timeline n (c ++ bs) ∷ fs),
        )
  unfolding write_item
  write_item-newest c bs s f p = rw (granted (write_file (partial_file timeline n) (length bs))) (
      rw (pos→ne (length bs) p) (
        rw (eq_name_refl (partial_file timeline n)) (
          ap
            (λ t. (
              ok tt,
              logging size synced (open_item timeline n (length c + length bs) true true ∷ [])
                  (partial_of timeline n t ∷ fs),
            ))
            (overwrite_at-end c bs))))

  finalize-file :
      (c : List ℕ)
      → All (IsComplete size n) fs
      → length c ≡ size
      → finalize_current_wal_file true (
          logging size synced
            (open_item timeline n size true true ∷ [])
            (partial_of timeline n c ∷ fs))
        ≡ (
          ok tt,
          logging size synced
              (record {
                name = final_file timeline n;
                currpos = 0;
                is_open = true;
                sync_pending = false;
                flush_pending = false;
              }
                ∷ [])
              (final_of timeline n c ∷ fs),
        )
  unfolding finalize_current_wal_file rename_item
  finalize-file c k w =
      let z : (size == size) ≡ true = ground arith in
      let z2 : (length c == size) ≡ true = ground arith in
      let final = final_file timeline n in
      let part = partial_file timeline n in
      rw z (
        rw (eq_name-final timeline n) (
          rw (exists-IsComplete size n final fs (omega arith) k) (
            rw (eq_name_refl part) (
              rw (granted (sync_file part)) (
                rw (granted (rename_file part)) (
                  rw (granted (open_file final)) (
                    rw (granted (sync_file final))
                      (rw (eq_name_refl part) (rw (eq_name_refl final) (rw z2 refl))))))))))

  pub close_segment-full :
      (c : List ℕ)
      → All (IsComplete size n) fs
      → length c ≡ size
      → close_segment true (
          logging size synced
            (open_item timeline n size true true ∷ [])
            (partial_of timeline n c ∷ fs))
        ≡ (ok tt, logging size (synced + 1) [] (final_of timeline n c ∷ fs))
  unfolding close_segment finalize sync_pending
  close_segment-full c k w = rw (finalize-file c k w) (rw (granted sync_directory) refl)
