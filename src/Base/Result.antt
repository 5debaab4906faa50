-- ===== src/Base/Result.antt =====
-- Results of code that throws. The state that the code has changed before it threw is kept.
use mathlib.Core.Bool.{Bool, true, false}

-- The exception classes of the program.
pub data Error : Type 0 where
  -- CPGBackupCtlFailure
  failure : Error
  -- CArchiveIssue
  archive_issue : Error
  -- CCatalogIssue
  catalog_issue : Error
  -- CRetentionFailureHint
  retention_failure : Error
  -- StreamingFailure
  streaming_failure : Error
  -- XLOGMessageFailure
  xlog_message_failure : Error
  -- CopyProtocolFailure
  copy_protocol_failure : Error
  -- TCPServerFailure
  tcp_server_failure : Error
  -- PGProtoCmdFailure
  command_failure : Error
  -- SHMFailure
  shm_failure : Error
  -- std::bad_alloc
  bad_alloc : Error
  -- more rounds of a loop than the model has fuel for
  loop_bound : Error
  -- a read through an invalid pointer or iterator: C++ gives the run no meaning
  undefined_behaviour : Error

pub data Result {ℓ} (A : Type ℓ) : Type ℓ where
  ok : A → Result A
  err : Error → Result A

-- Stateful code: the result and the state that it leaves, on an exception too.
abbrev pub M : Type 0 → Type 0 → Type 0
M S A = S → Result A × S

abbrev pub bind_result : {S A B : Type 0} → Result A × S → (A → M S B) → Result B × S
bind_result (ok a, s) f = f a s
bind_result (err e, s) f = (err e, s)

abbrev pub is_ok {ℓ} : {A : Type ℓ} → Result A → Bool
is_ok (ok a) = true
is_ok (err e) = false

infixl 5 ◌>>=◌ ◌>>◌
abbrev pub ◌>>=◌ : {S A B : Type 0} → M S A → (A → M S B) → M S B
◌>>=◌ m f s = bind_result (m s) f

abbrev pub ◌>>◌ : {S A B : Type 0} → M S A → M S B → M S B
m >> k = m >>= λ _. k

abbrev pub return : {S A : Type 0} → A → M S A
return a s = (ok a, s)

abbrev pub throw : {S A : Type 0} → Error → M S A
throw e s = (err e, s)

-- A call that does not touch the state.
abbrev pub lift : {S A : Type 0} → Result A → M S A
lift r s = (r, s)

abbrev pub modify : {S : Type 0} → (S → S) → M S (Unit {0})
modify f s = (ok tt, f s)

abbrev pub gets : {S A : Type 0} → (S → A) → M S A
gets f s = (ok (f s), s)

abbrev pub guard : {S : Type 0} → Bool → Error → M S (Unit {0})
guard true e s = (ok tt, s)
guard false e s = (err e, s)
