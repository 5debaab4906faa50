-- ===== src/Retention/Pin/Chosen.antt =====
-- Which basebackups PinRetention::apply (src/catalog/retention.cxx) hands to the catalog.
use mathlib.Core.List.{reverse}
use pg_backup_ctl_plus.Base.{
  ℕ, zero, suc, ◌+◌, ◌≡◌, Bool, true, false, not, List, [], ◌∷◌, ◌++◌, length, select, take,
}
use pg_backup_ctl_plus.Base.Int.{ℤ}
use pg_backup_ctl_plus.Base.Result.{Result, ok}
use pg_backup_ctl_plus.Archive.Backup.{BaseBackupDescr}
use pg_backup_ctl_plus.Retention.Pin.{
  PinOperation, action_id, action_count, action_newest, action_oldest, action_pinned,
  action_undefined, PinDescr, PinRetention, Batch, suitable, is_pinned,
}

abbrev pub ids : List BaseBackupDescr → List ℤ
ids [] = []
ids (b ∷ bs) = b.id ∷ ids bs

-- A batch after the basebackups bs were pushed.
abbrev pushed : List BaseBackupDescr → Batch → Batch
pushed bs s = (s.0 ++ ids bs, s.1 + length bs)

-- Where the count is not reached yet, the loop takes what is missing.
abbrev pub at_least_one : ℕ → ℕ
at_least_one zero = 1
at_least_one (suc n) = suc n

-- The specification: the basebackups that an operation acts on. The list runs from the newest to
-- the oldest.
abbrev pub chosen :
    (BaseBackupDescr → Bool) → PinDescr → PinOperation → List BaseBackupDescr → List BaseBackupDescr
chosen verify p action_id list = select (suitable verify) list
chosen verify p action_count list = take (at_least_one p.count) (select (suitable verify) list)
chosen verify p action_newest list = take 1 (select (suitable verify) list)
chosen verify p action_oldest list = take 1 (select (suitable verify) (reverse list))
chosen verify p action_pinned list = select is_pinned list
chosen verify p action_undefined list = []

-- An operation that the descriptor allows.
abbrev pub allowed : PinDescr → PinOperation → Bool
allowed p action_pinned = not p.is_pin
allowed p action_undefined = false
allowed p _ = true

-- The rule's state after the ids were handed over, but for the context.
abbrev pub handed : List ℤ → List (List ℤ) → List (List ℤ)
handed [] batches = batches
handed (i ∷ is) batches = batches ++ (i ∷ is) ∷ []

module _ (verify : BaseBackupDescr → Bool) (perform : PinDescr → List ℤ → Result (Unit {0}))
    (accepts : (p : PinDescr) (l : List ℤ) → perform p l ≡ ok tt) where
  -- What an action leaves.
  abbrev pub Performs : PinRetention → List BaseBackupDescr → Result ℕ × PinRetention → Type 0
  Performs r bs x =
      (x.0 ≡ ok (length bs))
      × (x.1.batches ≡ handed (ids bs) r.batches)
      × (x.1.count_pin_context.performed ≡ length bs)
