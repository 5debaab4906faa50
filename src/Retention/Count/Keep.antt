-- ===== src/Retention/Count/Keep.antt =====
-- The loop of CountRetention::keep_num (src/catalog/retention.cxx) against its specification.
use pg_backup_ctl_plus.Base.{
  ℕ, zero, suc, ◌+◌, ◌-◌, ◌≤◌, ◌<◌, ◌^◌, ◌≡◌, refl, ap, sym, ◌∙◌, leb→le, true, false, List, [],
  ◌∷◌, ◌++◌, append_assoc, append-nil, arith, leb, length, drop, All, Bool-cases, inl, inr,
}
use pg_backup_ctl_plus.Base.Result.{ok}
use pg_backup_ctl_plus.Wal.Position.{XlogMacros}
use pg_backup_ctl_plus.Archive.Backup.{BaseBackupDescr}
use pg_backup_ctl_plus.Archive.Lock.{LockInfo, is_locked}
use pg_backup_ctl_plus.Archive.Cleanup.{CleanupDescr, move}
use pg_backup_ctl_plus.Archive.Cleanup.Offsets.{Lowers, Lowers-refl, Lowers-trans, Protects}
use pg_backup_ctl_plus.Retention.Safety.{
  Usable, is_held, Protects-Lowers, after_keep, keep_wal_lem, keep_wal-Protects, keep_wal-Lowers,
  keep_wal-basebackups,
}
use pg_backup_ctl_plus.Retention.Count.{KeepState, keep_round, keep_rounds}
use pg_backup_ctl_plus.Retention.Count.Spec.{
  unheld, surplus, kept, unheld-held, unheld-free, kept-held, kept-free_zero,
}

pub move_lem :
    (source : List BaseBackupDescr) (b : BaseBackupDescr) (i : ℕ) (c : CleanupDescr)
    → i < length source
    → move source b i c ≡ (ok tt, record c { basebackups = c.basebackups ++ b ∷ [] })
unfolding move
move_lem source b i c h = ground arith

module _ ⦃macros : XlogMacros⦄ (locks : List LockInfo) (count : ℕ)
    (source : List BaseBackupDescr) where
  -- A round for a basebackup that is locked.
  round_held :
      (k : KeepState) (b : BaseBackupDescr) (u : Usable locks b) (c : CleanupDescr)
      → is_held locks b ≡ true
      → keep_round locks count source k b c ≡ (ok k, after_keep locks b u c)
  unfolding keep_round
  round_held k b u c h =
      let l : is_locked u.lock ≡ true = held in rw u.lock_eq (rw l (rw (keep_wal_lem locks b u c)))
    where
      held : is_locked u.lock ≡ true
      held = rw u.lock_eq at h

  round_counted :
      (k : KeepState) (b : BaseBackupDescr) (u : Usable locks b) (c : CleanupDescr)
      → is_held locks b ≡ false
      → k.bbcounted + 1 < 2 ^ 32
      → k.bbcounted + 1 ≤ count
      → keep_round locks count source k b c
        ≡ (ok (record k { bbcounted = k.bbcounted + 1 }), after_keep locks b u c)
  unfolding keep_round
  round_counted k b u c h w n =
      rw u.lock_eq (rw (rw u.lock_eq at h) (ground (arith, keep_wal_lem locks b u c)))

  round_surplus :
      (k : KeepState) (b : BaseBackupDescr) (u : Usable locks b) (c : CleanupDescr)
      → is_held locks b ≡ false
      → k.bbcounted + 1 < 2 ^ 32
      → k.currindex + 1 < 2 ^ 32
      → count ≤ k.bbcounted
      → k.currindex < length source
      → keep_round locks count source k b c ≡ (
        ok (record { bbcounted = k.bbcounted + 1; currindex = k.currindex + 1 }),
        record c { basebackups = c.basebackups ++ b ∷ [] },
      )
  unfolding keep_round
  round_surplus k b u c h w v n i =
      rw u.lock_eq (rw (rw u.lock_eq at h) (ground (arith, move_lem source b k.currindex c i)))

  -- What the loop leaves when it starts with the variables k on the descriptor c.
  pub record Outcome (k : KeepState) (bs : List BaseBackupDescr) (c : CleanupDescr) : Type 0 where
    pub final : CleanupDescr
    pub runs :
        keep_rounds locks count source k bs c
        ≡ (ok (k.bbcounted + length (unheld (is_held locks) bs)), final)
    pub removed :
        final.basebackups ≡ c.basebackups ++ surplus (is_held locks) (count - k.bbcounted) bs
    pub lowers : Lowers c final
    pub safe : All (Protects final) (kept (is_held locks) (count - k.bbcounted) bs)

  module _ (b : BaseBackupDescr) (bs : List BaseBackupDescr) (k : KeepState) (c : CleanupDescr)
      (u : Usable locks b) where
    after_held :
        is_held locks b ≡ true → Outcome k bs (after_keep locks b u c) → Outcome k (b ∷ bs) c
    unfolding keep_rounds
    after_held h rest = record {
      final = rest.final;
      runs = rw (round_held k b u c h) (rw h rest.runs);
      removed =
          rw (unheld-held (is_held locks) b bs h)
            (rw (keep_wal-basebackups locks b u c) at rest.removed);
      lowers =
          Lowers-trans c (after_keep locks b u c) rest.final (keep_wal-Lowers locks b u c)
            rest.lowers;
      safe = rw (kept-held (is_held locks) b bs (count - k.bbcounted) h) (
        Protects-Lowers (after_keep locks b u c) rest.final b rest.lowers
            (keep_wal-Protects locks b u c),
        rest.safe,
      );
    }

    after_counted :
        is_held locks b ≡ false
        → k.bbcounted + 1 < 2 ^ 32
        → k.bbcounted + 1 ≤ count
        → Outcome (record k { bbcounted = k.bbcounted + 1 }) bs (after_keep locks b u c)
        → Outcome k (b ∷ bs) c
    unfolding keep_rounds
    after_counted h w n rest =
        let one : count - k.bbcounted ≡ suc (count - (k.bbcounted + 1)) = omega arith in
        record {
          final = rest.final;
          runs =
              rw (round_counted k b u c h w n)
                (rest.runs ∙ ap (λ m. (ok m, rest.final)) (rw h (omega arith)));
          removed =
              rw (unheld-free (is_held locks) b bs h, one)
                (rw (keep_wal-basebackups locks b u c) at rest.removed);
          lowers =
              Lowers-trans c (after_keep locks b u c) rest.final (keep_wal-Lowers locks b u c)
                rest.lowers;
          safe =
              rw (one, h)
                (
                  Protects-Lowers (after_keep locks b u c) rest.final b rest.lowers
                      (keep_wal-Protects locks b u c),
                  rest.safe,
                );
        }

    after_surplus :
        is_held locks b ≡ false
        → k.bbcounted + 1 < 2 ^ 32
        → k.currindex + 1 < 2 ^ 32
        → count ≤ k.bbcounted
        → k.currindex < length source
        → Outcome
            (record { bbcounted = k.bbcounted + 1; currindex = k.currindex + 1 })
            bs
            (record c { basebackups = c.basebackups ++ b ∷ [] })
        → Outcome k (b ∷ bs) c
    unfolding keep_rounds
    after_surplus h w v n i rest =
        let now : count - k.bbcounted ≡ 0 = omega arith in
        let later : count - (k.bbcounted + 1) ≡ 0 = omega arith in
        record {
          final = rest.final;
          runs =
              rw (round_surplus k b u c h w v n i)
                (rest.runs ∙ ap (λ m. (ok m, rest.final)) (rw h (omega arith)));
          removed =
              rw (unheld-free (is_held locks) b bs h, now)
                (rw (later, append_assoc) at rest.removed);
          lowers = rest.lowers;
          safe = rw (now, kept-free_zero (is_held locks) b bs h) (rw later at rest.safe);
        }

  pub keep_rounds_lem :
      (bs : List BaseBackupDescr) (k : KeepState) (c : CleanupDescr)
      → All (Usable locks) bs
      → k.bbcounted + length bs < 2 ^ 32
      → k.currindex + length bs ≤ length source
      → length source < 2 ^ 32
      → Outcome k bs c
  unfolding keep_rounds
  keep_rounds_lem [] k c u w i l = record {
    final = c;
    runs = ground arith;
    removed =
        sym (ap (◌++◌ c.basebackups) (drop-nil (count - k.bbcounted)) ∙ append-nil c.basebackups);
    lowers = Lowers-refl c;
    safe = kept-nil (count - k.bbcounted);
  }
    where
      drop-nil : (n : ℕ) → drop {A = BaseBackupDescr} n [] ≡ []
      drop-nil zero = refl
      drop-nil (suc n) = refl

      kept-nil : (n : ℕ) → All (Protects c) (kept (is_held locks) n [])
      kept-nil zero = tt
      kept-nil (suc n) = tt
  keep_rounds_lem (b ∷ bs) k c u w i l = elim (Bool-cases (is_held locks b)) [
    | inl held ↦
        after_held b bs k c u.0 held
          (keep_rounds_lem bs k (after_keep locks b u.0 c) u.1 (omega arith) (omega arith) l)
    | inr free ↦ elim (Bool-cases (leb (k.bbcounted + 1) count)) [
      | inl within ↦ after_counted b bs k c u.0 free (omega arith) (leb→le _ _ within) (
          keep_rounds_lem bs (record k { bbcounted = k.bbcounted + 1 }) (after_keep locks b u.0 c)
            u.1 (omega arith) (omega arith) l)
      | inr beyond ↦
          after_surplus b bs k c u.0 free (omega arith) (omega arith) (ground arith) (omega arith) (
            keep_rounds_lem bs (record { bbcounted = k.bbcounted + 1; currindex = k.currindex + 1 })
              (record c { basebackups = c.basebackups ++ b ∷ [] }) u.1 (omega arith) (omega arith)
              l)
    ]
  ]
