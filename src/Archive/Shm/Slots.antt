-- ===== src/Archive/Shm/Slots.antt =====
-- Allocating and freeing worker slots (WorkerSHM::allocate, getFreeIndex and free of
-- src/jobs/daemon.cxx).
use pg_backup_ctl_plus.Base.{
  ℕ, ◌+◌, ◌-◌, ◌^◌, ◌<◌, ◌≡◌, refl, ap, sym, ◌∙◌, Bool, true, false, none, some, List, [], ◌∷◌,
  ◌++◌, arith, ltb, length, length-append, All, le→ltb, replicate,
}
use pg_backup_ctl_plus.Base.Int.{ℤ, pos, negsuc, eq_ℤ, u32}
use pg_backup_ctl_plus.Base.Result.{
  ok, err, shm_failure, M, bind_result, ◌>>=◌, ◌>>◌, modify, return,
}
use pg_backup_ctl_plus.Archive.Shm.{
  WorkerArea, WorkerShm, at, update, on_slot, write, free, cleared, first_unused, get_free_index,
  allocate,
}

abbrev pub is_unused : WorkerArea → Bool
is_unused w = eq_ℤ w.pid (pos 0)

abbrev pub IsUsed : WorkerArea → Type 0
IsUsed w = is_unused w ≡ false

module _ {A : Type 0} where
  pub at-middle : (pre : List A) (a : A) (post : List A) → at (pre ++ a ∷ post) (length pre) ≡ ok a
  unfolding at
  at-middle [] a post = refl
  at-middle (x ∷ pre) a post = at-middle pre a post

  pub update-middle :
      (f : A → A) (pre : List A) (a : A) (post : List A)
      → update f (length pre) (pre ++ a ∷ post) ≡ pre ++ f a ∷ post
  unfolding update
  update-middle f [] a post = refl
  update-middle f (x ∷ pre) a post = ap (◌∷◌ x) (update-middle f pre a post)

first_unused-full : (ws : List WorkerArea) (n : ℕ) → All IsUsed ws → first_unused ws n ≡ none
unfolding first_unused
first_unused-full [] n u = refl
first_unused-full (w ∷ ws) n u = rw u.0 (first_unused-full ws (n + 1) u.1)

first_unused-middle :
    (pre : List WorkerArea) (w : WorkerArea) (post : List WorkerArea) (n : ℕ)
    → All IsUsed pre
    → is_unused w ≡ true
    → first_unused (pre ++ w ∷ post) n ≡ some (n + length pre)
unfolding first_unused
first_unused-middle [] w post n u h = rw h (ap some (omega arith))
first_unused-middle (a ∷ pre) w post n u h =
    rw u.0 (first_unused-middle pre w post (n + 1) u.1 h ∙ ap some (omega arith))

-- An attached segment.
abbrev pub segment : ℕ → ℕ → ℕ → List WorkerArea → WorkerShm
segment upper max_workers allocated slots = record {
  attached = true;
  upper = upper;
  max_workers = max_workers;
  allocated = allocated;
  slots = slots;
}

zero_add : {n : ℕ} → 0 + n ≡ n
zero_add = omega arith

module _ (upper max_workers allocated : ℕ) (pre : List WorkerArea) (w : WorkerArea)
    (post : List WorkerArea) where
  pub on_slot-middle :
      {A : Type 0} (m : M WorkerArea A)
      → on_slot (length pre) m (segment upper max_workers allocated (pre ++ w ∷ post))
        ≡ ((m w).0, segment upper max_workers allocated (pre ++ (m w).1 ∷ post))
  unfolding on_slot
  on_slot-middle m =
      rw (at-middle pre w post, on_slot) (rw (update-middle (λ _. (m w).1) pre w post) refl)

  pub in_range : length (pre ++ w ∷ post) ≡ upper + 1 → ltb upper (length pre) ≡ false
  in_range h = le→ltb upper (length pre) (omega (arith, length-append pre (w ∷ post)))

  write-middle :
      (pid archive_id : ℤ)
      → length (pre ++ w ∷ post) ≡ upper + 1
      → write (length pre) pid archive_id (segment upper max_workers allocated (pre ++ w ∷ post))
        ≡ (
          ok tt,
          segment upper max_workers allocated
              (pre ++ record w { pid = pid; archive_id = archive_id } ∷ post),
        )
  unfolding write
  write-middle pid archive_id l =
      rw (in_range l) (on_slot-middle (modify λ w. record w { pid = pid; archive_id = archive_id }))

  -- `free` clears the slot and its children and takes it off the count, leaving the other slots.
  free-middle :
      length (pre ++ w ∷ post) ≡ upper + 1
      → free (length pre) (segment upper max_workers allocated (pre ++ w ∷ post))
        ≡ (ok tt, segment upper max_workers (u32 (allocated + 2 ^ 32 - 1)) (pre ++ cleared ∷ post))
  unfolding free
  free-middle l = rw (in_range l) (rw (on_slot-middle (modify λ _. cleared)) refl)

  -- On an attached segment with one slot for each index up to `upper`, where the slots before w are
  -- in use and w is not: allocation returns the index of w, writes the process and the archive
  -- into that slot only, keeping its children and its flag, and counts it.
  allocate-first :
      (pid archive_id : ℤ)
      → length (pre ++ w ∷ post) ≡ upper + 1
      → All IsUsed pre
      → is_unused w ≡ true
      → allocate pid archive_id (segment upper max_workers allocated (pre ++ w ∷ post)) ≡ (
        ok (length pre),
        segment upper max_workers
            (u32 (allocated + 1))
            (pre ++ record w { pid = pid; archive_id = archive_id } ∷ post),
      )
  unfolding allocate get_free_index write
  allocate-first pid archive_id l u h =
      rw (first_unused-middle pre w post 0 u h, zero_add)
        (ap
          (λ x. bind_result x (λ _.
            modify (λ shm. record shm { allocated = u32 (shm.allocated + 1) })
            >> return (length pre)))
          (write-middle pid archive_id l))

-- Where every slot of an attached segment is in use, allocation throws and changes nothing.
allocate-full :
    (upper max_workers allocated : ℕ) (slots : List WorkerArea) (pid archive_id : ℤ)
    → All IsUsed slots
    → allocate pid archive_id (segment upper max_workers allocated slots)
      ≡ (err shm_failure, segment upper max_workers allocated slots)
unfolding allocate get_free_index
allocate-full upper max_workers allocated slots pid archive_id u =
    rw (first_unused-full slots 0 u) refl

module _ (upper max_workers allocated : ℕ) (pre : List WorkerArea) (w : WorkerArea)
    (post : List WorkerArea) where
  -- On an attached segment with one slot for each index up to `upper`, fewer than 2^32 slots
  -- counted, and a first unused slot, whatever an earlier worker has left in it: allocating and then
  -- freeing leaves no process, no archive, no flag and no child in that slot, and the other slots and
  -- the count as they were.
  pub free-allocate :
      (pid archive_id : ℤ)
      → length (pre ++ w ∷ post) ≡ upper + 1
      → allocated < 2 ^ 32
      → All IsUsed pre
      → is_unused w ≡ true
      → (allocate pid archive_id >>= free) (segment upper max_workers allocated (pre ++ w ∷ post))
        ≡ (
          ok tt,
          segment upper max_workers allocated (
              pre
              ++ record {
                pid = pos 0;
                archive_id = negsuc 0;
                basebackup_in_use = false;
                child_info = replicate 5 (record { backup_id = negsuc 0; pid = negsuc 0 });
              }
                ∷ post),
        )
  free-allocate pid archive_id l a u h =
      let taken : WorkerArea = record w { pid = pid; archive_id = archive_id } in
      rw (allocate-first upper max_workers allocated pre w post pid archive_id l u h) (
        free-middle upper max_workers (u32 (allocated + 1)) pre taken post
          (length-append pre (taken ∷ post) ∙ sym (length-append pre (w ∷ post)) ∙ l)
        ∙ ap (λ n. (ok tt, segment upper max_workers n (pre ++ cleared ∷ post))) (omega arith))
