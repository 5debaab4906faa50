-- ===== src/Stream/LogBackup/Rounds.antt =====
-- The rounds of TransactionLogBackup::write (src/backup/backup.cxx).
use native.Mathlib.Nat.{
  mul-add-div_right, mul-add-mod_self_right, mod-eq_of_lt, div-eq_of_lt, mod_self,
}
use pg_backup_ctl_plus.Base.{
  ℕ, ◌+◌, ◌*◌, ◌/◌, ◌%◌, ◌^◌, ◌<◌, ◌≤◌, ◌≡◌, refl, ap, ◌∙◌, inl, inr, Bool, true, false, List, [],
  ◌∷◌, ◌++◌, arith, ltb, ◌==◌, length, length-append, take, length-take, All, Bool-cases,
}
use pg_backup_ctl_plus.Base.Result.{ok}
use pg_backup_ctl_plus.Wal.Position.{IsSegmentSize, XlogMacros, xlog_offset}
use pg_backup_ctl_plus.Stream.LogBackup.{
  DiskFile, LogBackup, Call, Os, SegmentNumbers, close_segment, round_bytes, write_round,
}
use pg_backup_ctl_plus.Stream.LogBackup.Files.{
  IsComplete, logging, open_item, partial_of, final_of, stack_file-new, write_item-newest,
  close_segment-full,
}

pub offset-of : (n s off : ℕ) → off < s → (n * s + off) % s ≡ off
offset-of n s off h = mul-add-mod_self_right n s off ∙ mod-eq_of_lt h

segment-of : (n s off : ℕ) → 0 < s → off < s → (n * s + off) / s ≡ n
segment-of n s off p h = mul-add-div_right p n off ∙ ap (λ q. n + q) (div-eq_of_lt h) ∙ omega arith

module _ ⦃os : Os⦄ ⦃macros : XlogMacros⦄ ⦃segments : SegmentNumbers⦄
    (granted : (c : Call) → os.grants c ≡ true) (size : ℕ) (z : IsSegmentSize size)
    (timeline : ℕ) where
  -- What a round that begins in an open file leaves.
  abbrev pub round_end : ℕ → ℕ → List DiskFile → List ℕ → ℕ → Bool → LogBackup
  round_end synced n fs c m true = logging size (synced + 1) [] (final_of timeline n c ∷ fs)
  round_end synced n fs c m false =
      logging size synced (open_item timeline n m true true ∷ []) (partial_of timeline n c ∷ fs)

  boundary-of : (n m : ℕ) → 0 < m → m ≤ size → (xlog_offset (n * size + m) size == 0) ≡ (m == size)
  unfolding xlog_offset
  boundary-of n m p h =
      let e = macros.segment_offset_lem (n * size + m) size z in
      elim (Bool-cases (ltb m size)) [
        | inl l ↦
            let o : (n * size + m) % size ≡ m = offset-of n size m (ground (arith, l)) in
            rw e (rw o (ground (arith, l)))
        | inr l ↦
            let q : m ≡ size = ground (arith, l) in
            let o : (n * size + m) % size ≡ 0 =
              mul-add-mod_self_right n size m ∙ ap (λ x. x % size) q ∙ mod_self size in
            rw e (rw o (ground (arith, q)))
      ]

  closing :
      (synced n : ℕ) (fs : List DiskFile) (c : List ℕ) (m : ℕ) (b : Bool)
      → (m == size) ≡ b
      → All (IsComplete size n) fs
      → length c ≡ m
      → close_segment b (
          logging size synced
            (open_item timeline n m true true ∷ [])
            (partial_of timeline n c ∷ fs))
        ≡ (ok tt, round_end synced n fs c m b)
  unfolding close_segment
  closing synced n fs c m false e k w = refl
  closing synced n fs c m true e k w =
      let q : m ≡ size = ground (arith, e) in
      ap
        (λ x. close_segment true (
          logging size synced (open_item timeline n x true true ∷ [])
            (partial_of timeline n c ∷ fs)))
        q
      ∙ close_segment-full granted size synced timeline n fs c k (w ∙ q)

  pub write_round-within :
      (synced n : ℕ) (fs : List DiskFile) (c bs : List ℕ) (s f : Bool)
      → All (IsComplete size n) fs
      → length c < size
      → 0 < length bs
      → n * size + length c + length bs < 2 ^ 64
      → let bw = round_bytes size (length c) (length bs) in
        let b = length c + bw == size in
        write_round timeline true (n * size + length c) (length c) bs (
          logging size synced
            (open_item timeline n (length c) s f ∷ [])
            (partial_of timeline n c ∷ fs))
        ≡ (
          ok (bw, n * size + (length c + bw), b),
          round_end synced n fs (c ++ take bw bs) (length c + bw) b,
        )
  unfolding write_round
  write_round-within synced n fs c bs s f k l p w =
      let bw = round_bytes size (length c) (length bs) in
      let pos : 0 < bw = ground arith in
      let le : bw ≤ length bs = ground arith in
      let fits : length c + bw ≤ size = ground arith in
      let lt : length (take bw bs) ≡ bw = omega (arith, length-take bw bs) in
      let next : (n * size + length c + bw) % 2 ^ 64 ≡ n * size + (length c + bw) = omega arith in
      rw
        (write_item-newest granted size synced timeline n fs c (take bw bs) s f (omega (arith, lt)))
        (rw lt (
          rw next (
            rw (boundary-of n (length c + bw) (omega arith) fits) (
              rw
                (closing synced n fs (c ++ take bw bs) (length c + bw) (length c + bw == size) refl
                  k (omega (arith, length-append c (take bw bs))))
                refl))))

  -- A round that begins with a segment begins its file.
  pub write_round-between :
      (synced n : ℕ) (fs : List DiskFile) (bs : List ℕ)
      → All (IsComplete size n) fs
      → 0 < size
      → write_round timeline false (n * size + 0) 0 bs (logging size synced [] fs)
        ≡ write_round timeline true (n * size + 0) 0 bs (
            logging size synced
              (open_item timeline n 0 true true ∷ [])
              (partial_of timeline n [] ∷ fs))
  unfolding write_round
  write_round-between synced n fs bs k h =
      let e : segments.byte_to_seg (n * size + 0) size ≡ n =
        segments.byte_to_seg_lem (n * size + 0) size z ∙ segment-of n size 0 h h in
      rw e (rw (stack_file-new granted size synced timeline n fs k) refl)
