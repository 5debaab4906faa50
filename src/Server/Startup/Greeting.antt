-- ===== src/Server/Startup/Greeting.antt =====
-- What a client receives at the end of the startup (`startup_msg_body` in src/jobs/server.cxx).
use pg_backup_ctl_plus.Base.{
  ℕ, ◌+◌, ◌^◌, ◌<◌, ◌≡◌, refl, ap, sym, ◌∙◌, Bool, true, false, some, List, [], ◌∷◌, ◌++◌,
  append_assoc, append-nil, arith, if◌then◌else◌, Bool-cases, inl, inr, length,
}
use pg_backup_ctl_plus.Base.Result.{ok, M, ◌>>◌, ◌>>=◌, bind_result, return, gets}
use pg_backup_ctl_plus.Buffer.Memory.{Heap}
use pg_backup_ctl_plus.Buffer.Protocol.{allocate}
use pg_backup_ctl_plus.Buffer.Protocol.Content.{holding, allocate-holding}
use pg_backup_ctl_plus.Buffer.ErrorStack.{ErrorField, push, new_error_stack}
use pg_backup_ctl_plus.Buffer.ErrorStack.Counts.{IsCounted, content, stack, push-IsCounted}
use pg_backup_ctl_plus.Buffer.ErrorStack.Message.{message, to_buffer-message}
use pg_backup_ctl_plus.Server.Connection.{
  Connection, auth, ready_for_query, ready_for_query_wait, enter, start_write, send_backend_key,
  send_ready_for_query, send_backend_key_state, send_parameter_status, send_notice, msg, notice,
  notice_condition, Instance, read_header, on_header, start_read,
}
use pg_backup_ctl_plus.Config.Variable.{Surroundings}
use pg_backup_ctl_plus.Server.Startup.{Outside, greet, commands_disabled}
use pg_backup_ctl_plus.Server.Connection.Replies.{
  replied, authentication_message, status_message, key_message, ready_message, start_write-replied,
  authentication-replied, key-replied, ready-replied, status-replied,
}

-- Messages that are appended one by one.
abbrev appended : List (List ℕ) → List (List ℕ) → List (List ℕ)
appended sent [] = sent
appended sent (m ∷ ms) = appended (sent ++ m ∷ []) ms

appended_lem : (sent ms : List (List ℕ)) → appended sent ms ≡ sent ++ ms
appended_lem sent [] = sym (append-nil sent)
appended_lem sent (m ∷ ms) = appended_lem (sent ++ m ∷ []) ms ∙ append_assoc sent (m ∷ []) ms

abbrev pub notice_message : List ℕ
notice_message = message false (
    record { type = b'M'; value = commands_disabled }
    ∷ record { type = b'S'; value = b'N' ∷ b'O' ∷ b'T' ∷ b'I' ∷ b'C' ∷ b'E' ∷ [] }
    ∷ [])

module _ ⦃heap : Heap⦄
    (grants : (n : ℕ) → n < 2 ^ 31 → (b : List ℕ) × (heap.new_char n ≡ some b)) where
  -- What follows the notice, where there is one.
  abbrev closing : Instance → M Connection (Unit {0})
  closing i =
      send_parameter_status i.version
      >> (start_write
          >> (send_backend_key i.pid
              >> (start_write
                  >> (send_ready_for_query
                      >> (start_write >> (on_header (allocate 5) >> start_read read_header))))))

  grant_header : (b : List ℕ) × (heap.new_char 5 ≡ some b)
  grant_header = grants 5 (omega arith)

  abbrev closed : Instance → Connection → Connection
  closed i c =
      record (replied ready_for_query_wait ready_message (
        replied ready_for_query (key_message i.pid)
          (replied send_backend_key_state (status_message i.version) c))) {
            header_buffer = holding 5 [] grant_header.0;
            pending = read_header;
          }

  closing-closed :
      (i : Instance) (c : Connection)
      → length i.version < 2 ^ 30
      → closing i c ≡ (ok tt, closed i c)
  closing-closed i c h =
      let headed = on_header (allocate 5) >> start_read read_header in
      let ready = send_ready_for_query >> (start_write >> headed) in
      let s = replied send_backend_key_state (status_message i.version) c in
      let t = replied ready_for_query (key_message i.pid) s in
      status-replied grants i.version (send_backend_key i.pid >> (start_write >> ready)) c h
      ∙ key-replied grants i.pid ready s
      ∙ ready-replied grants headed t
      ∙ ap
          (λ x.
            bind_result
              (x.0, record (replied ready_for_query_wait ready_message t) { header_buffer = x.1 })
              (λ u. start_read read_header))
          (allocate-holding 5 grant_header.0 t.header_buffer grant_header.1)

  module _ ⦃outside : Outside⦄ ⦃surroundings : Surroundings⦄ where
    abbrev mark : ErrorField
    mark = record { type = b'S'; value = b'N' ∷ b'O' ∷ b'T' ∷ b'I' ∷ b'C' ∷ b'E' ∷ [] }

    abbrev reason : ErrorField
    reason = record { type = b'M'; value = commands_disabled }

    notice-IsCounted : IsCounted (push reason (push mark new_error_stack))
    unfolding push
    notice-IsCounted =
        push-IsCounted reason (push mark new_error_stack)
          (push-IsCounted mark new_error_stack
            (record { total = refl; of_top = refl; is_size = omega arith }) (omega arith))
          (omega arith)

    notice-replied :
        {B : Type 0} (k : M Connection B) (c : Connection)
        → c.errm ≡ new_error_stack
        → (counters : ℕ × ℕ) × (((msg notice commands_disabled true >> (send_notice >> start_write))
                >> k)
              c
            ≡ k (
                replied notice_condition notice_message
                  (record c { errm = stack [] counters.0 counters.1 })))
    unfolding msg send_notice push
    notice-replied k c e =
        let fs = reason ∷ mark ∷ [] in
        let pushed = push reason (push mark new_error_stack) in
        let N = content fs + length fs + 6 in
        let (b, i) = grants N (omega arith) in
        let p = c.outgoing.write_buffer in
        let (counters, runs, l) =
          to_buffer-message false fs pushed.top_element_size pushed.content_size p b
            notice-IsCounted (omega arith) i in
        let d = record c { errm = stack [] counters.0 counters.1 } in
        (
          counters,
          rw e (
              ap
                (λ x.
                  bind_result
                    (bind_result
                      (bind_result
                        (
                          x.0,
                          record c {
                            outgoing = record c.outgoing { write_buffer = x.1.0 };
                            errm = x.1.1;
                          },
                        )
                        (λ u. enter notice_condition))
                      (λ u. start_write))
                    (λ u. k))
                runs
              ∙ ap
                  (λ n.
                    bind_result
                      (start_write (record d {
                        state = notice_condition;
                        outgoing = record c.outgoing { write_buffer = holding n notice_message [] };
                      }))
                      (λ u. k))
                  (sym l)
              ∙ ap (λ x. bind_result x (λ u. k))
                  (start_write-replied notice_condition notice_message d)),
        )

    -- What stands behind the authentication.
    abbrev behind_authentication : Instance → M Connection (Unit {0})
    behind_authentication i = gets (λ c. c.disable_streaming_commands) >>= λ disabled.
        ((if disabled
            then (msg notice commands_disabled true >> (send_notice >> start_write))
            else return tt)
          >> closing i)

    -- Where allocations below 2^31 bytes succeed, on a connection with no error to report and a version
    -- text below 2^30 bytes, the greeting starts writes of a buffer that holds exactly these messages, in
    -- this order: the authentication, a notice where the streaming commands are disabled, the version,
    -- the key of the process, and that a query can be sent. None of them is waited for. Then the server
    -- reads the five bytes of a header.
    pub greet-writes :
        (i : Instance) (c : Connection)
        → c.errm ≡ new_error_stack
        → length i.version < 2 ^ 30
        → (c' : Connection) × (greet i c ≡ (ok tt, c'))
          × (c'.outgoing.started
              ≡ c.outgoing.started
                ++ authentication_message
                  ∷ ((if c.disable_streaming_commands then notice_message ∷ [] else [])
                      ++ status_message i.version ∷ key_message i.pid ∷ ready_message ∷ []))
          × (c'.outgoing.finished ≡ c.outgoing.finished)
          × (c'.state ≡ ready_for_query_wait)
          × (c'.pending ≡ read_header)
          × (c'.header_buffer.memory.size ≡ 5)
    unfolding greet
    greet-writes i c e h =
        let d = replied auth authentication_message c in
        let at : Bool → M Connection (Unit {0}) = λ b.
          (if b
            then (msg notice commands_disabled true >> (send_notice >> start_write))
            else return tt)
          >> closing i in
        let last = status_message i.version ∷ key_message i.pid ∷ ready_message ∷ [] in
        elim (Bool-cases c.disable_streaming_commands) [
          | inl p ↦
              (let (counters, runs) = notice-replied (closing i) d e in
                let n =
                  replied notice_condition notice_message
                    (record d { errm = stack [] counters.0 counters.1 }) in
                (
                  closed i n,
                  authentication-replied grants (behind_authentication i) c
                      ∙ ap (λ b. at b d) p
                      ∙ runs
                      ∙ closing-closed i n h,
                  rw p (
                      appended_lem c.outgoing.started
                        (authentication_message ∷ notice_message ∷ last)),
                  refl,
                  refl,
                  refl,
                  refl,
                ))
          | inr p ↦ (
            closed i d,
            authentication-replied grants (behind_authentication i) c
                ∙ ap (λ b. at b d) p
                ∙ closing-closed i d h,
            rw p (appended_lem c.outgoing.started (authentication_message ∷ last)),
            refl,
            refl,
            refl,
            refl,
          )
        ]
