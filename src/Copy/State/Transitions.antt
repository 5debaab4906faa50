-- ===== src/Copy/State/Transitions.antt =====
-- The state changes of the COPY subprotocol (src/protocol/pgproto-copystate.cxx).
use pg_backup_ctl_plus.Base.{
  ℕ, ◌+◌, ◌-◌, ◌%◌, ◌^◌, ◌≡◌, ◌⊎◌, inl, inr, refl, ◌∙◌, subst, Bool, true, false, not, Option, none,
  some, if◌then◌else◌, ◌==◌, Bool-cases,
}
use pg_backup_ctl_plus.Base.Result.{
  copy_protocol_failure, Result, ok, err, M, ◌>>◌, return, throw, lift, guard, undefined_behaviour,
  bind_result,
}
use pg_backup_ctl_plus.Buffer.Memory.{Heap, ptr, write_raw}
use pg_backup_ctl_plus.Buffer.Protocol.{
  ProtocolBuffer, on_memory, allocate, read_byte, read_int, read_buffer, write_byte, write_int,
}
use pg_backup_ctl_plus.Copy.Format.{CopyFormat}
use pg_backup_ctl_plus.Copy.State.{
  context, perform, CopyState, in_response, out_response, both_response, data_in, data_out,
  data_both, copy_done, copy_fail, CopyContext, on_input_data, on_output, on_output_data, get_size,
  to_size, minus_header, write_from, Call, call_read, call_write, on_input, dispatch,
  read_copy_data, read_data, write_response, write_copy_data, write_copy_done, write_data,
  next_state, read, write, enter,
}

-- The changes of the state that the protocol has.
pub data Change : CopyState → CopyState → Type 0 where
  starts_in : Change in_response data_in
  starts_out : Change out_response data_out
  starts_both : Change both_response data_both
  in_ends : Change data_in copy_done
  in_fails : Change data_in copy_fail
  out_ends : Change data_out copy_done
  out_fails : Change data_out copy_fail
  both_reads_on : Change data_both data_in
  both_writes_on : Change data_both data_out
  both_fails : Change data_both copy_fail

abbrev pub Step : CopyState → CopyState → Type 0
Step s s' = (s ≡ s') ⊎ Change s s'

-- A call that leaves the state alone.
abbrev pub Keeps : {A : Type 0} → M CopyContext A → Type 0
Keeps m = (c : CopyContext) → c.state ≡ (m c).1.state

pub keeps :
    {A B : Type 0} (x : Result A × CopyContext) (f : A → M CopyContext B)
    → ((a : A) → Keeps (f a))
    → x.1.state ≡ (bind_result x f).1.state
keeps (ok a, c) f k = k a c
keeps (err x, c) f k = refl

steps_bind :
    {A B : Type 0} (x : Result A × CopyContext) (f : A → M CopyContext B) (s : CopyState)
    → s ≡ x.1.state
    → ((a : A) (c : CopyContext) → s ≡ c.state → Step s (f a c).1.state)
    → Step s (bind_result x f).1.state
steps_bind (ok a, c) f s e k = k a c e
steps_bind (err x, c) f s e k = inl e

guard-Keeps : (b : Bool) → Keeps (guard b undefined_behaviour)
guard-Keeps true c = refl
guard-Keeps false c = refl

module _ ⦃heap : Heap⦄ where
  pub read_copy_data-Keeps : Keeps read_copy_data
  unfolding read_copy_data
  read_copy_data-Keeps c = keeps (on_input read_int c) _ (λ v c.
      keeps (lift (minus_header v) c) _ (λ n c.
        keeps (on_input_data (allocate (to_size n)) c) _ (λ _ c.
          keeps (on_input_data (on_memory ptr) c) _ (λ _ c.
            keeps (on_input (read_buffer (to_size n)) c) _
              (λ bs c. keeps (on_input_data (on_memory (write_raw bs 0)) c) _ (λ _ c. refl))))))

  pub write_copy_data-Keeps : Keeps write_copy_data
  unfolding write_copy_data
  write_copy_data-Keeps c = keeps (on_output_data get_size c) _ (λ n c.
      let size = (5 + n) % 2 ^ 32 in
      keeps (on_output (allocate (to_size size)) c) _ (λ _ c.
        keeps (on_output (write_byte b'd') c) _ (λ _ c.
          guard-Keeps (not (size == 2 ^ 31)) c
          ∙ keeps (guard (not (size == 2 ^ 31)) undefined_behaviour c) _ (λ _ c.
            keeps (on_output (write_int ((size + 2 ^ 32 - 1) % 2 ^ 32)) c) _ (λ _ c.
              keeps (on_output_data (on_memory ptr) c) _
                (λ b c. keeps (on_output (write_from b n) c) _ (λ _ c. refl)))))))

  pub write_copy_done-Keeps : Keeps write_copy_done
  unfolding write_copy_done
  write_copy_done-Keeps c = keeps (on_output (allocate 5) c) _ (λ _ c.
      keeps (on_output (write_byte b'c') c) _
        (λ _ c. keeps (on_output (write_int 4) c) _ (λ _ c. refl)))

  dispatch-Step :
      (on_done : CopyState) (unexpected : M CopyContext ℕ) (v : ℕ) (s : CopyState) (c : CopyContext)
      → s ≡ c.state
      → Step s on_done
      → Step s copy_fail
      → Keeps unexpected
      → Step s (dispatch on_done unexpected v c).1.state
  unfolding dispatch
  dispatch-Step on_done unexpected v s c e d f k =
      elim (v == b'd')
        as (λ b.
          Step s
            ((if b
                then read_copy_data
                else if v == b'c'
                then enter on_done >> return 0
                else if v == b'f'
                then enter copy_fail >> read_copy_data
                else unexpected)
              c).1.state) [
                | true ↦ inl (e ∙ read_copy_data-Keeps c)
                | false ↦
                    elim (v == b'c')
                      as (λ b.
                        Step s
                          ((if b
                              then enter on_done >> return 0
                              else if v == b'f'
                              then enter copy_fail >> read_copy_data
                              else unexpected)
                            c).1.state) [
                              | true ↦ d
                              | false ↦
                                  elim (v == b'f')
                                    as (λ b.
                                      Step s
                                        ((if b
                                            then enter copy_fail >> read_copy_data
                                            else unexpected)
                                          c).1.state) [
                                            | true ↦
                                                subst (Step s)
                                                  (read_copy_data-Keeps
                                                    (record c { state = copy_fail }))
                                                  f
                                            | false ↦ inl (e ∙ k c)
                                          ]
                            ]
              ]

  read_data-Step :
      (fs : Option CopyFormat) (i d o e : Option ProtocolBuffer) (s on_done : CopyState)
      (unexpected : M CopyContext ℕ)
      → Step s on_done
      → Step s copy_fail
      → Keeps unexpected
      → Step s (read_data on_done unexpected (context fs i d o e s)).1.state
  unfolding read_data
  read_data-Step fs none d o e s t u done fail k = fail
  read_data-Step fs (some p) none o e s t u done fail k = elim (Bool-cases (p.memory.size == 0)) [
    | inl z ↦ rw (z, read_data) (inl refl)
    | inr z ↦ rw (z, read_data) fail
  ]
  read_data-Step fs (some p) (some q) o e s t u done fail k =
      elim (Bool-cases (p.memory.size == 0)) [
        | inl z ↦ rw (z, read_data) (inl refl)
        | inr z ↦
            rw (z, read_data)
              (steps_bind (on_input read_byte (context fs (some p) (some q) o e s)) (dispatch t u) s
                refl (λ v c h. dispatch-Step t u v s c h done fail k))
      ]

  write_data-Step :
      (fs : Option CopyFormat) (i d o e : Option ProtocolBuffer) (s on_end : CopyState)
      → Step s on_end
      → Step s copy_fail
      → Step s (write_data on_end (context fs i d o e s)).1.state
  unfolding write_data
  write_data-Step fs i d o none s t done fail = fail
  write_data-Step fs i d none (some q) s t done fail = fail
  write_data-Step fs i d (some p) (some q) s t done fail = elim (Bool-cases (q.memory.size == 0)) [
    | inl z ↦
        rw (z, write_data)
          (subst (Step s) (write_copy_done-Keeps (context fs i d (some p) (some q) t)) done)
    | inr z ↦ rw (z, write_data) (inl (write_copy_data-Keeps (context fs i d (some p) (some q) s)))
  ]

  write_response-Step :
      (fs : Option CopyFormat) (i d o e : Option ProtocolBuffer) (s : CopyState)
      → Step s (next_state s)
      → Step s (write_response (context fs i d o e s)).1.state
  unfolding write_response
  write_response-Step fs i d none e s next = inl refl
  write_response-Step none i d (some p) e s next = inl refl
  write_response-Step (some f) i d (some p) e s next = next

  read-Step :
      (fs : Option CopyFormat) (i d o e : Option ProtocolBuffer) (s : CopyState)
      → Step s (read (context fs i d o e s)).1.state
  unfolding read
  read-Step fs i d o e data_in =
      read_data-Step fs i d o e data_in copy_done (throw copy_protocol_failure) (inr in_ends)
        (inr in_fails) (λ c. refl)
  read-Step fs i d o e data_both =
      read_data-Step fs i d o e data_both data_out (return 0) (inr both_writes_on) (inr both_fails)
        (λ c. refl)
  read-Step fs i d o e in_response = inl refl
  read-Step fs i d o e out_response = inl refl
  read-Step fs i d o e both_response = inl refl
  read-Step fs i d o e data_out = inl refl
  read-Step fs i d o e copy_done = inl refl
  read-Step fs i d o e copy_fail = inl refl

  write-Step :
      (fs : Option CopyFormat) (i d o e : Option ProtocolBuffer) (s : CopyState)
      → Step s (write (context fs i d o e s)).1.state
  unfolding write
  write-Step fs i d o e in_response = write_response-Step fs i d o e in_response (inr starts_in)
  write-Step fs i d o e out_response = write_response-Step fs i d o e out_response (inr starts_out)
  write-Step fs i d o e both_response =
      write_response-Step fs i d o e both_response (inr starts_both)
  write-Step fs i d o e data_out =
      write_data-Step fs i d o e data_out copy_done (inr out_ends) (inr out_fails)
  write-Step fs i d o e data_both =
      write_data-Step fs i d o e data_both data_in (inr both_reads_on) (inr both_fails)
  write-Step fs i d o e data_in = inl refl
  write-Step fs i d o e copy_done = inl refl
  write-Step fs i d o e copy_fail = inl refl

  pub perform-Step : (call : Call) (c : CopyContext) → Step c.state (perform call c).1.state
  perform-Step call_read c =
      read-Step c.formats c.input_buffer c.input_data_buffer c.output_buffer c.output_data_buffer
        c.state
  perform-Step call_write c =
      write-Step c.formats c.input_buffer c.input_data_buffer c.output_buffer c.output_data_buffer
        c.state
