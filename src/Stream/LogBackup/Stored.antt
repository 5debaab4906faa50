-- ===== src/Stream/LogBackup/Stored.antt =====
-- The loop of TransactionLogBackup::write (src/backup/backup.cxx) stores.
use pg_backup_ctl_plus.Base.{
  ℕ, zero, suc, ◌+◌, ◌-◌, ◌*◌, ◌^◌, ◌<◌, ◌≤◌, ◌≡◌, refl, ap, sym, ◌∙◌, subst, ◌⊎◌, inl, inr, Bool,
  true, false, not, List, [], ◌∷◌, ◌++◌, append-nil, append_assoc, arith, ◌==◌, if◌then◌else◌,
  length, length-append, take, drop, length-take, length-drop, take-append-drop, All,
}
use pg_backup_ctl_plus.Base.Result.{Result, ok}
use pg_backup_ctl_plus.Wal.Position.{IsSegmentSize, XlogMacros}
use pg_backup_ctl_plus.Stream.LogBackup.{
  DiskFile, LogItem, LogBackup, Call, Os, SegmentNumbers, round_bytes, write_loop,
}
use pg_backup_ctl_plus.Stream.LogBackup.Files.{
  IsComplete, IsComplete-mono, logging, open_item, partial_of, final_of,
}
use pg_backup_ctl_plus.Stream.LogBackup.Rounds.{round_end, write_round-within, write_round-between}

-- The bytes of the log, from the oldest file on.
abbrev pub flat : List DiskFile → List ℕ
flat [] = []
flat (f ∷ fs) = flat fs ++ f.content

module _ (size timeline : ℕ) where
  -- The handle is at an offset of a segment: between two segments, with no file open, or within
  -- one, with its file open at the offset. All older files are complete.
  pub data Ready : ℕ → ℕ → Bool → List LogItem → List DiskFile → Type 0 where
    between : (n : ℕ) (fs : List DiskFile) → All (IsComplete size n) fs → Ready n 0 false [] fs
    within :
        (n : ℕ) (fs : List DiskFile) (c : List ℕ) (s f : Bool)
        → All (IsComplete size n) fs
        → length c < size
        → Ready n
            (length c)
            true
            (open_item timeline n (length c) s f ∷ [])
            (partial_of timeline n c ∷ fs)

  -- What storing bytes from an offset of a segment on leaves and returns.
  pub record Outcome (synced n off flush : ℕ) (disk : List DiskFile) (bs : List ℕ)
      (r : Result (ℕ × ℕ) × LogBackup) : Type 0 where
    pub segment : ℕ
    pub offset : ℕ
    pub flushed : ℕ
    pub has_item : Bool
    pub items : List LogItem
    pub files : List DiskFile
    pub returns :
        r
        ≡ (ok (segment * size + offset, flushed), logging size (synced + (segment - n)) items files)
    pub ready : Ready segment offset has_item items files
    pub bytes : flat files ≡ flat disk ++ bs
    pub advanced : segment * size + offset ≡ n * size + off + length bs
    pub flushes : ((segment ≡ n) × (flushed ≡ flush)) ⊎ ((n < segment) × (flushed ≡ segment * size))

module _ ⦃os : Os⦄ ⦃macros : XlogMacros⦄ ⦃segments : SegmentNumbers⦄
    (granted : (c : Call) → os.grants c ≡ true) (size : ℕ) (z : IsSegmentSize size)
    (timeline : ℕ) where
  -- The loop stores what it is given, with enough rounds.
  abbrev pub Loops : ℕ → Type 0
  Loops k =
      (synced n off flush : ℕ) (has : Bool) (items : List LogItem) (disk : List DiskFile)
      (bs : List ℕ)
      → Ready size timeline n off has items disk
      → length bs ≤ k
      → n * size + off + length bs < 2 ^ 64
      → Outcome size timeline synced n off flush disk bs
          (write_loop k timeline has (n * size + off) off flush bs (logging size synced items disk))

  -- What the loop goes on with after a round that wrote up to an offset of a segment.
  abbrev goes_on :
      ℕ → ℕ → ℕ → ℕ → List DiskFile → List ℕ → ℕ → List ℕ → Bool → Result (ℕ × ℕ) × LogBackup
  goes_on k synced n flush fs c m rest b =
      write_loop k timeline (not b) (n * size + m) (if b then 0 else m)
        (if b then n * size + m else flush) rest
        (round_end granted size z timeline synced n fs c m b)

  -- The outcome after the end of a segment, seen from before it.
  closed :
      (k synced n flush : ℕ) (fs : List DiskFile) (c : List ℕ) (m : ℕ) (rest : List ℕ)
      → m ≡ size
      → n * size + m ≡ suc n * size + 0
      → Outcome size timeline
          (synced + 1)
          (suc n)
          0
          (n * size + m)
          (final_of timeline n c ∷ fs)
          rest
          (write_loop k timeline false
            (suc n * size + 0)
            0
            (n * size + m)
            rest
            (logging size (synced + 1) [] (final_of timeline n c ∷ fs)))
      → Outcome size timeline synced n m flush
          (partial_of timeline n c ∷ fs)
          rest
          (goes_on k synced n flush fs c m rest true)
  closed k synced n flush fs c m rest q p o =
      let later : n < o.segment = elim o.flushes [
        | inl (e, f) ↦ omega (arith, e)
        | inr (e, f) ↦ omega (arith, e)
      ] in
      record {
        segment = o.segment;
        offset = o.offset;
        flushed = o.flushed;
        has_item = o.has_item;
        items = o.items;
        files = o.files;
        returns =
            ap
              (λ x.
                write_loop k timeline false x 0 (n * size + m) rest
                  (logging size (synced + 1) [] (final_of timeline n c ∷ fs)))
              p
            ∙ o.returns
            ∙ ap
                (λ x. (ok (o.segment * size + o.offset, o.flushed), logging size x o.items o.files))
                (omega (arith, later));
        ready = o.ready;
        bytes = o.bytes;
        advanced = omega (arith, o.advanced, p);
        flushes = inr (
          later,
          elim o.flushes [
            | inl (e, f) ↦ f ∙ p ∙ omega arith ∙ ap (λ x. x * size) (sym e)
            | inr (e, f) ↦ f
          ],
        );
      }

  continue :
      (k : ℕ)
      → Loops k
      → (synced n flush : ℕ) (fs : List DiskFile) (c : List ℕ) (m : ℕ) (rest : List ℕ) (b : Bool)
      → (m == size) ≡ b
      → m ≤ size
      → length c ≡ m
      → All (IsComplete size n) fs
      → length rest ≤ k
      → n * size + m + length rest < 2 ^ 64
      → Outcome size timeline synced n m flush
          (partial_of timeline n c ∷ fs)
          rest
          (goes_on k synced n flush fs c m rest b)
  continue k loops synced n flush fs c m rest false e h w all l g =
      let lt : m < size = ground (arith, e) in
      loops synced n m flush true (open_item timeline n m true true ∷ [])
        (partial_of timeline n c ∷ fs) rest
        (subst
          (λ x.
            Ready size timeline n x true (open_item timeline n x true true ∷ [])
              (partial_of timeline n c ∷ fs))
          w (within n fs c true true all (omega arith)))
        l g
  continue k loops synced n flush fs c m rest true e h w all l g =
      let q : m ≡ size = ground (arith, e) in
      let p : n * size + m ≡ suc n * size + 0 = omega (arith, q) in
      closed k synced n flush fs c m rest q p (
        loops (synced + 1) (suc n) 0 (n * size + m) false [] (final_of timeline n c ∷ fs) rest
          (between (suc n) (final_of timeline n c ∷ fs) (
            record { final = refl; below = omega arith; whole = w ∙ q },
            IsComplete-mono size n fs all,
          ))
          l (omega (arith, p)))

  -- The outcome after a round, seen from before it.
  resumed :
      (k synced n flush : ℕ) (fs : List DiskFile) (c bs : List ℕ) (bw : ℕ)
      → bw ≤ length bs
      → (r : Result (ℕ × ℕ) × LogBackup)
      → Outcome size timeline synced n
          (length c + bw)
          flush
          (partial_of timeline n (c ++ take bw bs) ∷ fs)
          (drop bw bs)
          r
      → Outcome size timeline synced n (length c) flush (partial_of timeline n c ∷ fs) bs r
  resumed k synced n flush fs c bs bw le r o = record {
    segment = o.segment;
    offset = o.offset;
    flushed = o.flushed;
    has_item = o.has_item;
    items = o.items;
    files = o.files;
    returns = o.returns;
    ready = o.ready;
    bytes =
        o.bytes
        ∙ ap (λ t. t ++ drop bw bs) (sym (append_assoc (flat fs) c (take bw bs)))
        ∙ append_assoc (flat fs ++ c) (take bw bs) (drop bw bs)
        ∙ ap (λ t. (flat fs ++ c) ++ t) (take-append-drop bw bs);
    advanced = omega (arith, o.advanced, length-drop bw bs);
    flushes = o.flushes;
  }

  loop_within :
      (k : ℕ)
      → Loops k
      → (synced n flush : ℕ) (fs : List DiskFile) (c : List ℕ) (s f : Bool) (x : ℕ) (xs : List ℕ)
      → All (IsComplete size n) fs
      → length c < size
      → length xs ≤ k
      → n * size + length c + suc (length xs) < 2 ^ 64
      → Outcome size timeline synced n (length c) flush (partial_of timeline n c ∷ fs) (x ∷ xs) (
          write_loop (suc k) timeline true (n * size + length c) (length c) flush (x ∷ xs) (
            logging size synced
              (open_item timeline n (length c) s f ∷ [])
              (partial_of timeline n c ∷ fs)))
  unfolding write_loop
  loop_within k loops synced n flush fs c s f x xs all l h g =
      let bs = x ∷ xs in
      let bw = round_bytes size (length c) (length bs) in
      let pos : 0 < bw = ground arith in
      let le : bw ≤ length bs = ground arith in
      let fits : length c + bw ≤ size = ground arith in
      rw (write_round-within granted size z timeline synced n fs c bs s f all l (omega arith) g) (
        resumed k synced n flush fs c bs bw le _ (
          continue k loops synced n flush fs (c ++ take bw bs) (length c + bw) (drop bw bs)
            (length c + bw == size) refl fits
            (omega (arith, length-append c (take bw bs), length-take bw bs)) all
            (omega (arith, length-drop bw bs)) (omega (arith, length-drop bw bs))))

  nothing_left :
      (k synced n off flush : ℕ) (has : Bool) (items : List LogItem) (disk : List DiskFile)
      → Ready size timeline n off has items disk
      → Outcome size timeline synced n off flush disk []
          (write_loop k timeline has (n * size + off) off flush [] (logging size synced items disk))
  unfolding write_loop
  nothing_left k synced n off flush has items disk r = record {
    segment = n;
    offset = off;
    flushed = flush;
    has_item = has;
    items = items;
    files = disk;
    returns =
        stays k ∙ ap (λ x. (ok (n * size + off, flush), logging size x items disk)) (omega arith);
    ready = r;
    bytes = sym (append-nil (flat disk));
    advanced = omega arith;
    flushes = inl (refl, refl);
  }
    where
      stays :
          (k : ℕ)
          → write_loop k timeline has (n * size + off) off flush [] (logging size synced items disk)
            ≡ (ok (n * size + off, flush), logging size synced items disk)
      stays zero = refl
      stays (suc k) = refl

  -- A file with nothing in it changes no byte.
  begun :
      (synced n flush : ℕ) (fs : List DiskFile) (bs : List ℕ) (r : Result (ℕ × ℕ) × LogBackup)
      → Outcome size timeline synced n 0 flush (partial_of timeline n [] ∷ fs) bs r
      → Outcome size timeline synced n 0 flush fs bs r
  begun synced n flush fs bs r o = record {
    segment = o.segment;
    offset = o.offset;
    flushed = o.flushed;
    has_item = o.has_item;
    items = o.items;
    files = o.files;
    returns = o.returns;
    ready = o.ready;
    bytes = o.bytes ∙ ap (λ t. t ++ bs) (append-nil (flat fs));
    advanced = o.advanced;
    flushes = o.flushes;
  }

  loop_between :
      (k synced n flush : ℕ) (fs : List DiskFile) (x : ℕ) (xs : List ℕ)
      → All (IsComplete size n) fs
      → Outcome size timeline synced n 0 flush (partial_of timeline n [] ∷ fs) (x ∷ xs) (
          write_loop (suc k) timeline true (n * size + 0) 0 flush (x ∷ xs) (
            logging size synced
              (open_item timeline n 0 true true ∷ [])
              (partial_of timeline n [] ∷ fs)))
      → Outcome size timeline synced n 0 flush fs (x ∷ xs) (
          write_loop
            (suc k)
            timeline
            false
            (n * size + 0)
            0
            flush
            (x ∷ xs)
            (logging size synced [] fs))
  unfolding write_loop
  loop_between k synced n flush fs x xs all o =
      rw (write_round-between granted size z timeline synced n fs (x ∷ xs) all z.positive)
        (begun synced n flush fs (x ∷ xs) _ o)

  pub loop_lem : (k : ℕ) → Loops k
  loop_lem k synced n off flush has items disk [] r h g =
      nothing_left k synced n off flush has items disk r
  loop_lem zero synced n off flush has items disk (x ∷ xs) r h g = absurd (omega arith)
  loop_lem (suc k) synced n off flush has items disk (x ∷ xs) (between m fs all) h g =
      loop_between k synced n flush fs x xs all (
        loop_within k (loop_lem k) synced n flush fs [] true true x xs all z.positive (omega arith)
          (omega arith))
  loop_lem (suc k) synced n off flush has items disk (x ∷ xs) (within m fs c s f all l) h g =
      loop_within k (loop_lem k) synced n flush fs c s f x xs all l (omega arith) (omega arith)
