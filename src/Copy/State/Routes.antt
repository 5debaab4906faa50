-- ===== src/Copy/State/Routes.antt =====
-- The states that sequences of calls of a PGProtoCopy (src/protocol/pgproto-copy.cxx) go through.
use pg_backup_ctl_plus.Base.{◌≡◌, ℕ, suc, ◌+◌, ◌≤◌, inl, inr, sym, subst, List, [], ◌∷◌, arith}
use pg_backup_ctl_plus.Buffer.Memory.{Heap}
use pg_backup_ctl_plus.Copy.State.{
  CopyState, in_response, out_response, both_response, data_in, data_out, data_both, copy_done,
  copy_fail, CopyContext, Call, perform, run,
}
use pg_backup_ctl_plus.Copy.State.Automaton.{transitions, history, run-transitions}
use pg_backup_ctl_plus.Copy.State.Transitions.{
  Change, starts_in, starts_out, starts_both, in_ends, in_fails, out_ends, out_fails, both_reads_on,
  both_writes_on, both_fails, perform-Step,
}

-- The changes that lead from one state to another, with their number.
pub data Route : ℕ → CopyState → CopyState → Type 0 where
  here : (s : CopyState) → Route 0 s s
  next : (n : ℕ) (s t u : CopyState) → Change s t → Route n t u → Route (suc n) s u

-- The changes that are left, at most.
abbrev pub rank : CopyState → ℕ
rank in_response = 2
rank out_response = 2
rank both_response = 3
rank data_in = 1
rank data_out = 1
rank data_both = 2
rank copy_done = 0
rank copy_fail = 0

Change-rank : (s t : CopyState) → Change s t → suc (rank t) ≤ rank s
Change-rank s t starts_in = omega arith
Change-rank s t starts_out = omega arith
Change-rank s t starts_both = omega arith
Change-rank s t in_ends = omega arith
Change-rank s t in_fails = omega arith
Change-rank s t out_ends = omega arith
Change-rank s t out_fails = omega arith
Change-rank s t both_reads_on = omega arith
Change-rank s t both_writes_on = omega arith
Change-rank s t both_fails = omega arith

Route-rank : (n : ℕ) (s t : CopyState) → Route n s t → n + rank t ≤ rank s
Route-rank n s t (here u) = omega arith
Route-rank n s t (next m u v w c r) = omega (arith, Change-rank u v c, Route-rank m v w r)

module _ ⦃heap : Heap⦄ where
  run-Route : (calls : List Call) (c : CopyContext) → (n : ℕ) × Route n c.state (run calls c).state
  run-Route [] c = (0, here c.state)
  run-Route (call ∷ calls) c =
      let (n, r) = run-Route calls (perform call c).1 in
      elim (perform-Step call c) [
        | inl e ↦ (n, subst (λ s. Route n s (run calls (perform call c).1).state) (sym e) r)
        | inr h ↦ (
          suc n,
          next n c.state (perform call c).1.state (run calls (perform call c).1).state h r,
        )
      ]

-- Whatever calls of read and write are made, and whatever they throw, the state is the one that the
-- automaton of the protocol reaches by what the calls find in their buffers, and it takes only
-- changes of the protocol, at most three and no more than its rank allows.
pub run-changes :
    ⦃heap : Heap⦄ (calls : List Call) (c : CopyContext)
    → ((run calls c).state ≡ transitions (history calls c) c.state)
      × (n : ℕ) × Route n c.state (run calls c).state
      × (n + rank (run calls c).state ≤ rank c.state)
run-changes calls c =
    let (n, r) = run-Route calls c in
    (run-transitions calls c, n, r, Route-rank n c.state (run calls c).state r)
