-- ===== src/Retention/Count/Spec.antt =====
-- What KEEP +n and DROP +n should select, independent of the loops in src/catalog/retention.cxx.
-- A list of basebackups runs from the newest to the oldest; `held` says which are locked.
use pg_backup_ctl_plus.Base.{
  ℕ, zero, suc, ◌≡◌, refl, Bool, true, false, not, List, [], ◌∷◌, if◌then◌else◌, select, drop,
}
use pg_backup_ctl_plus.Archive.Backup.{BaseBackupDescr}

module _ (held : BaseBackupDescr → Bool) where
  -- The basebackups that a count rule may touch.
  abbrev pub unheld : List BaseBackupDescr → List BaseBackupDescr
  unheld = select (λ b. not (held b))

  -- KEEP +n removes what lies behind the n newest of these.
  abbrev pub surplus : ℕ → List BaseBackupDescr → List BaseBackupDescr
  surplus n bs = drop n (unheld bs)

  -- It keeps the held ones and the n newest of the others.
  abbrev pub kept : ℕ → List BaseBackupDescr → List BaseBackupDescr
  kept n [] = []
  kept zero (b ∷ bs) = if held b then b ∷ kept zero bs else kept zero bs
  kept (suc n) (b ∷ bs) = b ∷ kept (if held b then suc n else n) bs

module _ (held : BaseBackupDescr → Bool) (b : BaseBackupDescr) (bs : List BaseBackupDescr) where
  pub unheld-held : held b ≡ true → unheld held (b ∷ bs) ≡ unheld held bs
  unheld-held h = rw h refl

  pub unheld-free : held b ≡ false → unheld held (b ∷ bs) ≡ b ∷ unheld held bs
  unheld-free h = rw h refl

  pub kept-held : (n : ℕ) → held b ≡ true → kept held n (b ∷ bs) ≡ b ∷ kept held n bs
  kept-held zero h = rw h refl
  kept-held (suc n) h = rw h refl

  pub kept-free_suc : (n : ℕ) → held b ≡ false → kept held (suc n) (b ∷ bs) ≡ b ∷ kept held n bs
  kept-free_suc n h = rw h refl

  pub kept-free_zero : held b ≡ false → kept held zero (b ∷ bs) ≡ kept held zero bs
  kept-free_zero h = rw h refl
