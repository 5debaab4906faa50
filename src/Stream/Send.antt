-- ===== src/Stream/Send.antt =====
-- What a status update sends (`ReceiverStatusUpdateMessage::send` of src/backup/xlogdefs.cxx).
use pg_backup_ctl_plus.Base.{
  ℕ, ◌≡◌, refl, sym, subst, Bool, true, false, ◌&&◌, some, List, [], ◌∷◌, if◌then◌else◌, length,
}
use pg_backup_ctl_plus.Base.Bytes.{be64}
use pg_backup_ctl_plus.Base.Result.{xlog_message_failure, Result, ok, err}
use pg_backup_ctl_plus.Buffer.Memory.{slice, first_bytes}
use pg_backup_ctl_plus.Stream.Message.{StatusUpdate, Connection, flag_byte, reply, send}

-- The fields of a status update, at their places.
abbrev pub Fields : StatusUpdate → List ℕ → Type 0
Fields m bs =
    (length bs ≡ 34)
    × (slice 1 0 bs ≡ some (m.base.kind ∷ []))
    × (slice 8 1 bs ≡ some (be64 m.xlog_pos_written))
    × (slice 8 9 bs ≡ some (be64 (if m.report_flush_position then m.xlog_pos_flushed else 0)))
    × (slice 8 17 bs ≡ some (be64 0))
    × (slice 8 25 bs ≡ some (be64 m.current_time_us))
    × (slice 1 33 bs ≡ some (flag_byte m.base.request_response ∷ []))

reply-Fields : (m : StatusUpdate) → Fields m (reply m)
unfolding slice first_bytes
reply-Fields m = (refl, refl, refl, refl, refl, refl, refl)

abbrev outcome : {S : Type 0} → List ℕ → S → Bool → Result (List ℕ) × S
outcome r s b = if b then (ok r, s) else (err xlog_message_failure, s)

taken : {S : Type 0} (r bs : List ℕ) (s : S) (b : Bool) → (outcome r s b).0 ≡ ok bs → bs ≡ r
taken r bs s true e = cc e
taken r bs s false e = absurd (cc e)

kept : {S : Type 0} (r : List ℕ) (s : S) (b : Bool) → (outcome r s b).1 ≡ s
kept r s true = refl
kept r s false = refl

-- Whatever the connection does, sending a status update leaves the positions alone and withdraws
-- both requests; it succeeds where the bytes are queued and flushed, and then these are the type r,
-- the position written, the position flushed where that is to be reported and 0 otherwise, 0 for
-- the position applied, the time, and 1 where a reply is requested and 0 otherwise.
pub send-Fields :
    (conn : Connection) (m : StatusUpdate) (bs : List ℕ)
    → (send conn m).0 ≡ ok bs
    → Fields m bs
      × ((send conn m).1 ≡ record m {
        base = record m.base { request_response = false };
        report_flush_position = false;
      })
unfolding send
send-Fields conn m bs h =
    let s = record m {
      base = record m.base { request_response = false };
      report_flush_position = false;
    } in
    let accepted = conn.queued (reply m) && conn.flushed (reply m) in
    (
      subst (Fields m) (sym (taken (reply m) bs s accepted h)) (reply-Fields m),
      kept (reply m) s accepted,
    )
