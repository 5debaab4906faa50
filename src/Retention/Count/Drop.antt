-- ===== src/Retention/Count/Drop.antt =====
-- The loops of CountRetention::drop_num (src/catalog/retention.cxx) against their specification.
use mathlib.Core.List.{reverse}
use pg_backup_ctl_plus.Base.{
  ℕ, suc, ◌+◌, ◌-◌, ◌≤◌, ◌<◌, ◌^◌, ◌≡◌, refl, ap, sym, ◌∙◌, le→leb, lt→leb, true, false, List, [],
  ◌∷◌, ◌++◌, append_assoc, arith, ltb, length, take, All, Bool-cases, inl, inr,
}
use pg_backup_ctl_plus.Base.Int.{u32}
use pg_backup_ctl_plus.Base.Result.{Result, ok}
use pg_backup_ctl_plus.Wal.Position.{XlogMacros}
use pg_backup_ctl_plus.Archive.Backup.{BaseBackupDescr}
use pg_backup_ctl_plus.Archive.Lock.{LockInfo, is_locked}
use pg_backup_ctl_plus.Archive.Cleanup.{CleanupDescr}
use pg_backup_ctl_plus.Retention.Safety.{Usable, is_held, verdict, after_keep, keep_wal_lem}
use pg_backup_ctl_plus.Retention.Count.{count_healthy, drop_rounds, drop_loops}
use pg_backup_ctl_plus.Retention.Count.Spec.{unheld, unheld-held, unheld-free}
use pg_backup_ctl_plus.Retention.Count.Keep.{move_lem}

pub count_healthy_lem :
    (locks : List LockInfo) (bs : List BaseBackupDescr) (n : ℕ)
    → All (Usable locks) bs
    → n + length bs < 2 ^ 32
    → count_healthy locks bs n ≡ ok (n + length (unheld (is_held locks) bs))
unfolding count_healthy
count_healthy_lem locks [] n u w = ground arith
count_healthy_lem locks (b ∷ bs) n u w = elim (Bool-cases (is_held locks b)) [
  | inl held ↦
      rw (u.0.lock_eq, count_healthy)
        (rw (sym (verdict locks b u.0) ∙ held) (count_healthy_lem locks bs n u.1 (omega arith)))
  | inr free ↦
      let fits : u32 (n + 1) ≡ n + 1 = omega arith in
      rw (u.0.lock_eq, count_healthy)
        (rw (sym (verdict locks b u.0) ∙ free, fits)
          (count_healthy_lem locks bs (n + 1) u.1 (omega arith) ∙ ap ok (omega arith)))
]

module _ ⦃macros : XlogMacros⦄ (locks : List LockInfo) (count : ℕ)
    (source : List BaseBackupDescr) where
  pub drop_loops_lem :
      (healthy : ℕ) (res : Result ℕ) (c d : CleanupDescr)
      → count_healthy locks source 0 ≡ ok healthy
      → count < healthy
      → drop_rounds locks count source healthy 0 (reverse source) c ≡ (res, d)
      → drop_loops locks count source c ≡ (res, d)
  unfolding drop_loops
  drop_loops_lem healthy res c d e h runs = rw e (rw (lt→leb healthy count h) runs)

  -- The loop reaches its count: the basebackups that it moves, and the last of them, whose start
  -- is the only position that it hands to the offsets.
  pub record Reached (healthy i : ℕ) (bs : List BaseBackupDescr) (c : CleanupDescr) : Type 0 where
    pub last : BaseBackupDescr
    pub last_usable : Usable locks last
    pub before : List BaseBackupDescr
    pub last_eq : take (count - i) (unheld (is_held locks) bs) ≡ before ++ last ∷ []
    pub moved : CleanupDescr
    pub same_offsets : moved.off_list ≡ c.off_list
    pub runs :
        drop_rounds locks count source healthy i bs c
        ≡ (ok count, after_keep locks last last_usable moved)
    pub removed : moved.basebackups ≡ c.basebackups ++ take (count - i) (unheld (is_held locks) bs)

  abbrev with_backup : CleanupDescr → BaseBackupDescr → CleanupDescr
  with_backup c b = record c { basebackups = c.basebackups ++ b ∷ [] }

  module _ (healthy i : ℕ) (b : BaseBackupDescr) (bs : List BaseBackupDescr) (c : CleanupDescr)
      (u : Usable locks b) where
    past_held : is_locked u.lock ≡ true → Reached healthy i bs c → Reached healthy i (b ∷ bs) c
    unfolding drop_rounds
    past_held h rest = record {
      last = rest.last;
      last_usable = rest.last_usable;
      before = rest.before;
      last_eq = rw (u.lock_eq) (rw h rest.last_eq);
      moved = rest.moved;
      same_offsets = rest.same_offsets;
      runs = rw (u.lock_eq, drop_rounds) (rw h rest.runs);
      removed = rw (u.lock_eq) (rw h rest.removed);
    }

    past_free :
        is_locked u.lock ≡ false
        → i + 1 < count
        → count < healthy
        → count < 2 ^ 32
        → i < length source
        → Reached healthy (i + 1) bs (with_backup c b)
        → Reached healthy i (b ∷ bs) c
    unfolding drop_rounds
    past_free h n m w l rest =
        let fits : u32 (i + 1) ≡ i + 1 = omega arith in
        let one : count - i ≡ suc (count - (i + 1)) = omega arith in
        record {
          last = rest.last;
          last_usable = rest.last_usable;
          before = b ∷ rest.before;
          last_eq = rw (u.lock_eq) (rw (h, one) (ap (◌∷◌ b) rest.last_eq));
          moved = rest.moved;
          same_offsets = rest.same_offsets;
          runs =
              rw (u.lock_eq, drop_rounds)
                (rw (h, fits, lt→leb healthy (i + 1) (omega arith))
                  (rw (move_lem source b i c l) (rw (lt→leb count (i + 1) n) rest.runs)));
          removed = rw (u.lock_eq) (rw (h, one) (rw append_assoc at rest.removed));
        }

    stop :
        is_locked u.lock ≡ false
        → i + 1 ≡ count
        → count < healthy
        → count < 2 ^ 32
        → i < length source
        → Reached healthy i (b ∷ bs) c
    unfolding drop_rounds
    stop h n m w l =
        let fits : u32 (i + 1) ≡ i + 1 = omega arith in
        let one : count - i ≡ 1 = omega arith in
        record {
          last = b;
          last_usable = u;
          before = [];
          last_eq = rw (u.lock_eq) (rw (h, one) refl);
          moved = with_backup c b;
          same_offsets = refl;
          runs =
              rw (u.lock_eq, drop_rounds)
                (rw (h, fits, lt→leb healthy (i + 1) (omega arith))
                  (rw (move_lem source b i c l) (
                    rw (le→leb count (i + 1) (omega arith)) (
                      rw (keep_wal_lem locks b u (with_backup c b))
                        (ap (λ m. (ok m, after_keep locks b u (with_backup c b))) n)))));
          removed = rw (u.lock_eq) (rw (h, one) refl);
        }

  pub drop_rounds_lem :
      (bs : List BaseBackupDescr) (healthy i : ℕ) (c : CleanupDescr)
      → All (Usable locks) bs
      → i < count
      → count ≤ i + length (unheld (is_held locks) bs)
      → count < healthy
      → count < 2 ^ 32
      → i + length bs ≤ length source
      → Reached healthy i bs c
  drop_rounds_lem [] healthy i c u n m h w l = absurd (omega arith)
  drop_rounds_lem (b ∷ bs) healthy i c u n m h w l = elim (Bool-cases (is_held locks b)) [
    | inl held ↦ past_held healthy i b bs c u.0 (sym (verdict locks b u.0) ∙ held) (
        drop_rounds_lem bs healthy i c u.1 n (rw (unheld-held (is_held locks) b bs held) at m) h w
          (omega arith))
    | inr free ↦ elim (Bool-cases (ltb (i + 1) count)) [
      | inl more ↦
          past_free healthy i b bs c u.0 (sym (verdict locks b u.0) ∙ free) (ground arith) h w
            (omega arith)
            (drop_rounds_lem bs healthy (i + 1) (with_backup c b) u.1 (ground arith)
              (omega (arith, rw (unheld-free (is_held locks) b bs free) at m)) h w (omega arith))
      | inr done ↦
          stop healthy i b bs c u.0 (sym (verdict locks b u.0) ∙ free) (ground arith) h w
            (omega arith)
    ]
  ]
