-- ===== src/Retention/Label/Selection.antt =====
-- What LabelRetention::apply (src/catalog/retention.cxx) selects and what it protects.
use pg_backup_ctl_plus.Base.{
  pos→ne, ℕ, ◌+◌, ◌≤◌, ◌<◌, ◌^◌, ◌≡◌, ap, sym, ◌∙◌, Bool, true, false, not, ◌&&◌, some, List, [],
  ◌∷◌, ◌++◌, append_assoc, append-nil, arith, if◌then◌else◌, length, select, All, Bool-cases, inl,
  inr,
}
use pg_backup_ctl_plus.Base.Int.{u32}
use pg_backup_ctl_plus.Base.Result.{ok}
use pg_backup_ctl_plus.Wal.Position.{XlogMacros}
use pg_backup_ctl_plus.Archive.Backup.{BaseBackupDescr}
use pg_backup_ctl_plus.Archive.Lock.{LockInfo}
use pg_backup_ctl_plus.Archive.Cleanup.{CleanupDescr, xlog_cleanup_offset_keep}
use pg_backup_ctl_plus.Archive.Cleanup.Offsets.{
  Lowers, Lowers-refl, Lowers-trans, Protects, keep-Lowers,
}
use pg_backup_ctl_plus.Retention.Rule.{RuleId, on_descr_lem, wal_start, offset_keep}
use pg_backup_ctl_plus.Retention.Safety.{Usable, Protects-Lowers, keep_wal-Protects}
use pg_backup_ctl_plus.Retention.Label.{
  LabelRetention, LabelState, label_start, label_round, label_rounds, apply_label,
}
use pg_backup_ctl_plus.Retention.Label.Round.{
  is_label_rule, doomed, restorable, with_backup, started, action-kept, action-doomed,
}

module _ ⦃macros : XlogMacros⦄ (locks : List LockInfo) (source : List BaseBackupDescr)
    (rule : RuleId) (filter : List ℕ → Bool) (l : is_label_rule rule ≡ true) where
  record Outcome (k : LabelState) (bs : List BaseBackupDescr) (c : CleanupDescr) : Type 0 where
    final : CleanupDescr
    runs :
        label_rounds locks source rule filter k bs c
        ≡ (ok (k.deleted + length (select (doomed locks rule filter) bs)), final)
    removed : final.basebackups ≡ c.basebackups ++ select (doomed locks rule filter) bs
    lowers : Lowers c final
    safe :
        All
          (Protects final)
          (select (λ b. not (doomed locks rule filter b) && restorable b.status) bs)

  module _ (b : BaseBackupDescr) (bs : List BaseBackupDescr) (k : LabelState) (c : CleanupDescr)
      (u : Usable locks b) (w : k.currindex + 1 < 2 ^ 32) where
    abbrev next : ℕ → LabelState
    next n = record { deleted = n; currindex = k.currindex + 1 }

    index_fits : u32 (k.currindex + 1) ≡ k.currindex + 1
    index_fits = omega arith

    round-kept :
        (p : ℕ)
        → label_start b ≡ ok p
        → doomed locks rule filter b ≡ false
        → label_round locks source rule filter k b c ≡ (ok (next k.deleted), offset_keep b p c)
    unfolding label_round
    round-kept p s d =
        rw s (rw (action-kept locks source b u p k c rule (filter b.label) l d) (rw index_fits))

    round-doomed :
        (p : ℕ)
        → label_start b ≡ ok p
        → doomed locks rule filter b ≡ true
        → k.currindex < length source
        → k.deleted + 1 < 2 ^ 32
        → label_round locks source rule filter k b c ≡ (ok (next (k.deleted + 1)), with_backup c b)
    unfolding label_round
    round-doomed p s d i v =
        rw s
          (rw (action-doomed locks source b u p k c rule (filter b.label) l d i v) (rw index_fits))

    keeps-Lowers : (p : ℕ) → Lowers c (offset_keep b p c)
    unfolding offset_keep
    keeps-Lowers p = keep-Lowers c p b.timeline (u32 b.wal_segment_size)

    keeps-basebackups : (p : ℕ) → (offset_keep b p c).basebackups ≡ c.basebackups
    unfolding offset_keep xlog_cleanup_offset_keep
    keeps-basebackups p = ground arith

    own_safe :
        (p : ℕ) (d : CleanupDescr) (rest : List BaseBackupDescr)
        → (restorable b.status ≡ true → p ≡ wal_start b u.start)
        → Lowers (offset_keep b p c) d
        → All (Protects d) rest
        → All (Protects d) (if restorable b.status then b ∷ rest else rest)
    own_safe p d rest q low h = elim (Bool-cases (restorable b.status)) [
      | inl yes_it ↦ rw yes_it (
        Protects-Lowers (offset_keep b p c) d b low (rw (q yes_it) (keep_wal-Protects locks b u c)),
        h,
      )
      | inr no_it ↦ rw no_it h
    ]

    after_kept :
        doomed locks rule filter b ≡ false
        → (p : ℕ) → label_start b ≡ ok p
        → (restorable b.status ≡ true → p ≡ wal_start b u.start)
        → Outcome (next k.deleted) bs (offset_keep b p c)
        → Outcome k (b ∷ bs) c
    unfolding label_rounds
    after_kept d p s q rest = record {
      final = rest.final;
      runs = rw (round-kept p s d) (rw d rest.runs);
      removed = rw d (rw (keeps-basebackups p) at rest.removed);
      lowers = Lowers-trans c (offset_keep b p c) rest.final (keeps-Lowers p) rest.lowers;
      safe = rw d (own_safe p rest.final _ q rest.lowers rest.safe);
    }

    after_doomed :
        doomed locks rule filter b ≡ true
        → (p : ℕ) → label_start b ≡ ok p
        → k.currindex < length source
        → k.deleted + 1 < 2 ^ 32
        → Outcome (next (k.deleted + 1)) bs (with_backup c b)
        → Outcome k (b ∷ bs) c
    unfolding label_rounds
    after_doomed d p s i v rest = record {
      final = rest.final;
      runs =
          rw (round-doomed p s d i v)
            (rest.runs ∙ ap (λ n. (ok n, rest.final)) (rw d (omega arith)));
      removed = rw d (rw append_assoc at rest.removed);
      lowers = rest.lowers;
      safe = rw d rest.safe;
    }

  label_rounds_lem :
      (bs : List BaseBackupDescr) (k : LabelState) (c : CleanupDescr)
      → All (Usable locks) bs
      → k.deleted ≤ k.currindex
      → k.currindex + length bs ≤ length source
      → length source < 2 ^ 32
      → Outcome k bs c
  unfolding label_rounds
  label_rounds_lem [] k c u g i w = record {
    final = c;
    runs = ground arith;
    removed = sym (append-nil c.basebackups);
    lowers = Lowers-refl c;
    safe = tt;
  }
  label_rounds_lem (b ∷ bs) k c u g i w =
      let (p, e, q) = started locks b u.0 in
      elim (Bool-cases (doomed locks rule filter b)) [
        | inl d ↦ after_doomed b bs k c u.0 (omega arith) d p e (omega arith) (omega arith) (
            label_rounds_lem bs (next b bs k c u.0 (omega arith) (k.deleted + 1)) (with_backup c b)
              u.1 (omega arith) (omega arith) w)
        | inr d ↦ after_kept b bs k c u.0 (omega arith) d p e q (
            label_rounds_lem bs (next b bs k c u.0 (omega arith) k.deleted) (offset_keep b p c) u.1
              (omega arith) (omega arith) w)
      ]

-- A rule with label that holds the descriptor c, over a list that is not empty and fits a counter,
-- whose basebackups have legal segment sizes and start behind the first WAL segment, and whose
-- locks can be read: it selects exactly those that it wants gone and no lock holds, in the list's
-- order, reports their number, and leaves offsets that protect the WAL of each other basebackup
-- that is ready or in progress.
pub apply_label-selects :
    ⦃macros : XlogMacros⦄ (r : LabelRetention) (c : CleanupDescr) (list : List BaseBackupDescr)
    → is_label_rule r.rule_type ≡ true
    → r.cleanup_descr ≡ some c
    → 0 < length list
    → length list < 2 ^ 32
    → All (Usable r.locks) list
    → (d : CleanupDescr) × (apply_label list r ≡ (
      ok (length (select (doomed r.locks r.rule_type r.label_filter) list)),
      record r { retention = record r.retention { cleanup_descr = some d } },
    ))
      × (d.basebackups ≡ c.basebackups ++ select (doomed r.locks r.rule_type r.label_filter) list)
      × All (Protects d) (
          select
            (λ b. not (doomed r.locks r.rule_type r.label_filter b) && restorable b.status)
            list)
unfolding apply_label
apply_label-selects r c list l h e w u =
    let start : LabelState = record { deleted = 0; currindex = 0 } in
    let out =
      label_rounds_lem r.locks list r.rule_type r.label_filter l list start c u (omega arith)
        (omega arith) w in
    (
      out.final,
      rw (pos→ne (length list) e) (
          ap (λ p. (p.0, record r { retention = p.1 }))
            (on_descr_lem (label_rounds r.locks list r.rule_type r.label_filter start list)
              r.retention c out.final
              (ok (length (select (doomed r.locks r.rule_type r.label_filter) list))) h
              (out.runs ∙ ap (λ n. (ok n, out.final)) (omega arith)))),
      out.removed,
      out.safe,
    )
