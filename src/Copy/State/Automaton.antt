-- ===== src/Copy/State/Automaton.antt =====
-- The COPY subprotocol as an automaton (include/proto/pgproto-copy.hxx): what a call finds in its
-- context, and the state that this leads to.
use pg_backup_ctl_plus.Base.{
  ℕ, ◌≡◌, refl, ap, sym, ◌∙◌, Bool, true, false, Option, none, some, List, [], ◌∷◌, ◌==◌,
  if◌then◌else◌, Bool-cases, inl, inr,
}
use pg_backup_ctl_plus.Base.Result.{
  copy_protocol_failure, Result, ok, err, M, return, throw, bind_result,
}
use pg_backup_ctl_plus.Buffer.Memory.{Heap}
use pg_backup_ctl_plus.Buffer.Protocol.{ProtocolBuffer, read_byte}
use pg_backup_ctl_plus.Copy.Format.{CopyFormat}
use pg_backup_ctl_plus.Copy.State.{
  context, CopyState, in_response, out_response, both_response, data_in, data_out, data_both,
  copy_done, copy_fail, CopyContext, Call, call_read, call_write, perform, run, read, write,
  read_data, write_data, write_response, dispatch, next_state,
}
use pg_backup_ctl_plus.Copy.State.Transitions.{
  Keeps, read_copy_data-Keeps, write_copy_data-Keeps, write_copy_done-Keeps,
}

-- What a call of `read` finds: no buffer, no bytes, no type that can be read, or a message by its type.
pub data Received : Type 0 where
  read_missing : Received
  read_nothing : Received
  read_unreadable : Received
  read_message : ℕ → Received

-- What a call of `write` finds: no buffer, no data any more, or data.
pub data Written : Type 0 where
  write_missing : Written
  write_ended : Written
  write_filled : Written

-- A call with what it finds; before the data, whether a response can be made.
pub data Event : Type 0 where
  read_event : Received → Event
  write_event : Bool → Written → Event

abbrev type_found : Result ℕ → Received
type_found (ok v) = read_message v
type_found (err e) = read_unreadable

abbrev pub received : CopyContext → Received
received c = elim c.input_buffer [
  | none ↦ read_missing
  | some p ↦
      if p.memory.size == 0
      then read_nothing
      else elim c.input_data_buffer [ none ↦ read_missing | some d ↦ type_found (read_byte p).0 ]
]

abbrev pub written : CopyContext → Written
written c = elim c.output_data_buffer [
  | none ↦ write_missing
  | some d ↦ elim c.output_buffer [
    | none ↦ write_missing
    | some p ↦ if d.memory.size == 0 then write_ended else write_filled
  ]
]

abbrev pub can_respond : CopyContext → Bool
can_respond c = elim c.output_buffer [
  | none ↦ false
  | some p ↦ elim c.formats [ none ↦ false | some f ↦ true ]
]

abbrev pub observed : Call → CopyContext → Event
observed call_read c = read_event (received c)
observed call_write c = write_event (can_respond c) (written c)

-- A CopyData message leaves the state, a CopyDone ends the side that reads, a CopyFail fails.
abbrev pub after_message : CopyState → CopyState → ℕ → CopyState
after_message on_done s v =
    if v == b'd' then s else if v == b'c' then on_done else if v == b'f' then copy_fail else s

abbrev pub after_read : CopyState → CopyState → Received → CopyState
after_read on_done s read_missing = copy_fail
after_read on_done s read_nothing = s
after_read on_done s read_unreadable = s
after_read on_done s (read_message v) = after_message on_done s v

abbrev pub after_write : CopyState → CopyState → Written → CopyState
after_write on_end s write_missing = copy_fail
after_write on_end s write_ended = on_end
after_write on_end s write_filled = s

-- The automaton.
abbrev pub transition : Event → CopyState → CopyState
transition (read_event r) data_in = after_read copy_done data_in r
transition (read_event r) data_both = after_read data_out data_both r
transition (read_event r) s = s
transition (write_event b w) in_response = if b then data_in else in_response
transition (write_event b w) out_response = if b then data_out else out_response
transition (write_event b w) both_response = if b then data_both else both_response
transition (write_event b w) data_out = after_write copy_done data_out w
transition (write_event b w) data_both = after_write data_in data_both w
transition (write_event b w) s = s

abbrev pub transitions : List Event → CopyState → CopyState
transitions [] s = s
transitions (e ∷ es) s = transitions es (transition e s)

module _ ⦃heap : Heap⦄ where
  -- What calls find one after the other.
  abbrev pub history : List Call → CopyContext → List Event
  history [] c = []
  history (call ∷ calls) c = observed call c ∷ history calls (perform call c).1

  dispatch-state :
      (on_done : CopyState) (unexpected : M CopyContext ℕ) (v : ℕ) (c : CopyContext)
      → Keeps unexpected
      → (dispatch on_done unexpected v c).1.state ≡ after_message on_done c.state v
  unfolding dispatch
  dispatch-state on_done unexpected v c k = elim (Bool-cases (v == b'd')) [
    | inl d ↦ rw (d, dispatch) (sym (read_copy_data-Keeps c))
    | inr d ↦ elim (Bool-cases (v == b'c')) [
      | inl e ↦ rw (d, e, dispatch) refl
      | inr e ↦ elim (Bool-cases (v == b'f')) [
        | inl f ↦
            rw (d, e, f, dispatch) (sym (read_copy_data-Keeps (record c { state = copy_fail })))
        | inr f ↦ rw (d, e, f, dispatch) (sym (k c))
      ]
    ]
  ]

  typed :
      (on_done : CopyState) (unexpected : M CopyContext ℕ) (c : CopyContext)
      (x : Result ℕ × ProtocolBuffer)
      → Keeps unexpected
      → (bind_result
          (x.0, record c { input_buffer = some x.1 })
          (dispatch on_done unexpected)).1.state
        ≡ after_read on_done c.state (type_found x.0)
  typed on_done unexpected c (ok v, p) k =
      dispatch-state on_done unexpected v (record c { input_buffer = some p }) k
  typed on_done unexpected c (err e, p) k = refl

  read_data-state :
      (fs : Option CopyFormat) (i d o e : Option ProtocolBuffer) (s on_done : CopyState)
      (unexpected : M CopyContext ℕ)
      → Keeps unexpected
      → (read_data on_done unexpected (context fs i d o e s)).1.state
        ≡ after_read on_done s (received (context fs i d o e s))
  unfolding read_data
  read_data-state fs none d o e s t u k = refl
  read_data-state fs (some p) none o e s t u k = elim (Bool-cases (p.memory.size == 0)) [
    | inl z ↦ rw (z, read_data) refl
    | inr z ↦ rw (z, read_data) refl
  ]
  read_data-state fs (some p) (some q) o e s t u k = elim (Bool-cases (p.memory.size == 0)) [
    | inl z ↦ rw (z, read_data) refl
    | inr z ↦ rw (z, read_data) (typed t u (context fs (some p) (some q) o e s) (read_byte p) k)
  ]

  write_data-state :
      (fs : Option CopyFormat) (i d o e : Option ProtocolBuffer) (s on_end : CopyState)
      → (write_data on_end (context fs i d o e s)).1.state
        ≡ after_write on_end s (written (context fs i d o e s))
  unfolding write_data
  write_data-state fs i d o none s t = refl
  write_data-state fs i d none (some q) s t = refl
  write_data-state fs i d (some p) (some q) s t = elim (Bool-cases (q.memory.size == 0)) [
    | inl z ↦ rw (z, write_data) (sym (write_copy_done-Keeps (context fs i d (some p) (some q) t)))
    | inr z ↦ rw (z, write_data) (sym (write_copy_data-Keeps (context fs i d (some p) (some q) s)))
  ]

  read-state :
      (fs : Option CopyFormat) (i d o e : Option ProtocolBuffer) (s : CopyState)
      → (read (context fs i d o e s)).1.state
        ≡ transition (observed call_read (context fs i d o e s)) s
  unfolding read
  read-state fs i d o e data_in =
      read_data-state fs i d o e data_in copy_done (throw copy_protocol_failure) (λ c. refl)
  read-state fs i d o e data_both =
      read_data-state fs i d o e data_both data_out (return 0) (λ c. refl)
  read-state fs i d o e in_response = refl
  read-state fs i d o e out_response = refl
  read-state fs i d o e both_response = refl
  read-state fs i d o e data_out = refl
  read-state fs i d o e copy_done = refl
  read-state fs i d o e copy_fail = refl

  write_response-state :
      (fs : Option CopyFormat) (i d o e : Option ProtocolBuffer) (s : CopyState)
      → (write_response (context fs i d o e s)).1.state
        ≡ (if can_respond (context fs i d o e s) then next_state s else s)
  unfolding write_response
  write_response-state fs i d none e s = refl
  write_response-state none i d (some p) e s = refl
  write_response-state (some f) i d (some p) e s = refl

  write-state :
      (fs : Option CopyFormat) (i d o e : Option ProtocolBuffer) (s : CopyState)
      → (write (context fs i d o e s)).1.state
        ≡ transition (observed call_write (context fs i d o e s)) s
  unfolding write
  write-state fs i d o e in_response = write_response-state fs i d o e in_response
  write-state fs i d o e out_response = write_response-state fs i d o e out_response
  write-state fs i d o e both_response = write_response-state fs i d o e both_response
  write-state fs i d o e data_out = write_data-state fs i d o e data_out copy_done
  write-state fs i d o e data_both = write_data-state fs i d o e data_both data_in
  write-state fs i d o e data_in = refl
  write-state fs i d o e copy_done = refl
  write-state fs i d o e copy_fail = refl

  pub perform-transition :
      (call : Call) (c : CopyContext)
      → (perform call c).1.state ≡ transition (observed call c) c.state
  perform-transition call_read c =
      read-state c.formats c.input_buffer c.input_data_buffer c.output_buffer c.output_data_buffer
        c.state
  perform-transition call_write c =
      write-state c.formats c.input_buffer c.input_data_buffer c.output_buffer c.output_data_buffer
        c.state

  pub run-transitions :
      (calls : List Call) (c : CopyContext)
      → (run calls c).state ≡ transitions (history calls c) c.state
  run-transitions [] c = refl
  run-transitions (call ∷ calls) c =
      run-transitions calls (perform call c).1
      ∙ ap (transitions (history calls (perform call c).1)) (perform-transition call c)
