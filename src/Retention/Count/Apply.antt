-- ===== src/Retention/Count/Apply.antt =====
-- CountRetention::apply (src/catalog/retention.cxx) for both of its rules.
use mathlib.Core.List.{reverse}
use pg_backup_ctl_plus.Base.{
  pos→ne, ℕ, ◌-◌, ◌≤◌, ◌<◌, ◌^◌, ◌≡◌, ap, ◌∙◌, false, not, some, List, [], ◌∷◌, ◌++◌, arith, ltb,
  length, take, All, le→ltb, All-reverse, length-reverse, length-select-reverse,
}
use pg_backup_ctl_plus.Base.Int.{pos, unsigned}
use pg_backup_ctl_plus.Base.Result.{Result, ok}
use pg_backup_ctl_plus.Wal.Position.{XlogMacros}
use pg_backup_ctl_plus.Archive.Backup.{BaseBackupDescr}
use pg_backup_ctl_plus.Archive.Cleanup.{CleanupDescr}
use pg_backup_ctl_plus.Retention.Rule.{RuleId, drop_num, on_descr_lem}
use pg_backup_ctl_plus.Retention.Safety.{Usable, is_held, after_keep}
use pg_backup_ctl_plus.Retention.Count.{CountRetention, by_rule, apply}
use pg_backup_ctl_plus.Retention.Count.Spec.{unheld}
use pg_backup_ctl_plus.Retention.Count.Drop.{drop_rounds_lem, drop_loops_lem, count_healthy_lem}

-- A rule that holds the descriptor c and was given the count n.
pub record Ready (r : CountRetention) (rule : RuleId) (n : ℕ) (c : CleanupDescr) : Type 0 where
  pub is_rule : r.rule_type ≡ rule
  pub is_count : r.count ≡ pos n
  pub fits : n < 2 ^ 31
  pub has_descr : r.cleanup_descr ≡ some c

-- The rule with another descriptor.
abbrev pub holding : CountRetention → CleanupDescr → CountRetention
holding r c = record r { retention = record r.retention { cleanup_descr = some c } }

unsigned-pos : (n : ℕ) → n < 2 ^ 31 → unsigned (pos n) ≡ n
unsigned-pos n h = omega arith

module _ ⦃macros : XlogMacros⦄ (r : CountRetention) (c : CleanupDescr)
    (list : List BaseBackupDescr) where
  apply-by_rule :
      (rule : RuleId) (n : ℕ) (res : Result ℕ) (d : CleanupDescr)
      → Ready r rule n c
      → 0 < length list
      → n ≤ length list
      → by_rule r.locks n list rule c ≡ (res, d)
      → apply list r ≡ (res, holding r d)
  unfolding apply
  apply-by_rule rule n res d y e l runs =
      rw (pos→ne (length list) e, within)
        (ap (λ p. (p.0, record r { retention = p.1 }))
          (on_descr_lem (by_rule r.locks (unsigned r.count) list r.rule_type) r.retention c d res
            y.has_descr (rw (y.is_rule, y.is_count, unsigned-pos n y.fits) runs)))
    where
      within : ltb (length list) (unsigned r.count) ≡ false
      within = rw (y.is_count, unsigned-pos n y.fits) (le→ltb (length list) n l)

  -- DROP +n over such a list, for n that is positive and below the number of unlocked basebackups:
  -- it selects the n oldest unlocked ones, reports n, and hands only the start of the newest of
  -- these to the offsets.
  pub apply-drop_num :
      (n : ℕ)
      → Ready r drop_num n c
      → 0 < n
      → n < length (unheld (is_held r.locks) list)
      → 0 < length list
      → n ≤ length list
      → length list < 2 ^ 32
      → All (Usable r.locks) list
      → (last : BaseBackupDescr) × (u : Usable r.locks last) × (before : List BaseBackupDescr)
        × (d : CleanupDescr) × (apply list r ≡ (ok n, holding r (after_keep r.locks last u d)))
        × (d.off_list ≡ c.off_list)
        × (d.basebackups ≡ c.basebackups ++ take n (unheld (is_held r.locks) (reverse list)))
        × (take n (unheld (is_held r.locks) (reverse list)) ≡ before ++ last ∷ [])
  unfolding by_rule
  apply-drop_num n y e l pos_list le_list w u =
      let healthy : ℕ = length (unheld (is_held r.locks) list) in
      let same = length-select-reverse (λ b. not (is_held r.locks b)) list in
      let out =
        drop_rounds_lem r.locks n list (reverse list) healthy 0 c
          (All-reverse (Usable r.locks) list u) e (omega (arith, same)) l (omega (arith, y.fits))
          (omega (arith, length-reverse list)) in
      let whole : n - 0 ≡ n = omega arith in
      (
        out.last,
        out.last_usable,
        out.before,
        out.moved,
        apply-by_rule drop_num n (ok n) (after_keep r.locks out.last out.last_usable out.moved) y
            pos_list le_list
            (drop_loops_lem r.locks n list healthy (ok n) c
              (after_keep r.locks out.last out.last_usable out.moved)
              (count_healthy_lem r.locks list 0 u (omega arith) ∙ ap ok (omega arith)) l out.runs),
        out.same_offsets,
        rw whole at out.removed,
        rw whole at out.last_eq,
      )
