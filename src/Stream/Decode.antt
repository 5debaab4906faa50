-- ===== src/Stream/Decode.antt =====
-- What the messages of the stream are read as (src/backup/xlogdefs.cxx).
use pg_backup_ctl_plus.Base.{
  ℕ, suc, ◌+◌, ◌-◌, ◌^◌, ◌<◌, ◌≤◌, ◌≡◌, ◌≢◌, refl, ap, sym, ◌∙◌, true, false, none, some, List, [],
  ◌∷◌, ◌++◌, arith, ltb, leb, ◌==◌, length,
}
use pg_backup_ctl_plus.Base.Bytes.{be64, from_be, from_be-be64}
use pg_backup_ctl_plus.Base.Result.{xlog_message_failure, ok, err}
use pg_backup_ctl_plus.Buffer.Memory.{
  Heap, MemoryBuffer, outside, slice, first_bytes, overwrite, splice,
}
use pg_backup_ctl_plus.Buffer.Memory
use pg_backup_ctl_plus.Buffer.Memory.Access.{first_bytes-length, overwrite-whole}
use pg_backup_ctl_plus.Stream.Message.{
  DataMessage, new_stream_message, new_data_message, basic_check, read_source, assign_header,
  copy_rest, assign, assign_feedback, message, data_message, feedback_message, returning,
}

-- A buffer that holds exactly these bytes.
abbrev pub buffer_of : List ℕ → MemoryBuffer
buffer_of bs = record { block = some bs; size = length bs }

-- The wire format of a WAL data message.
abbrev pub data_bytes : ℕ → ℕ → ℕ → List ℕ → List ℕ
data_bytes start server time payload = b'w' ∷ be64 start ++ be64 server ++ be64 time ++ payload

read_source-slice :
    {S : Type 0} (bs : List ℕ) (n off : ℕ) (r : List ℕ) (s : S)
    → outside n off (buffer_of bs) ≡ false
    → slice n off bs ≡ some r
    → read_source (buffer_of bs) n off s ≡ (ok r, s)
unfolding read_source Memory.read
read_source-slice bs n off r s h k = rw (h, Memory.read) (rw (k, Memory.read) refl)

module _ (start server time : ℕ) (payload : List ℕ) (small : length payload + 25 < 2 ^ 64) where
  abbrev wire : List ℕ
  wire = data_bytes start server time payload

  inside :
      (n off : ℕ) → 0 < n → n + off ≤ length payload + 25 → outside n off (buffer_of wire) ≡ false
  inside n off p h = ground arith

  module _ (size garbage address : ℕ) where
    -- A data message with these members.
    abbrev pub members : ℕ → ℕ → ℕ → MemoryBuffer → DataMessage
    members p q t bs = record {
      base = new_stream_message b'w' size;
      xlogstartpos = p;
      xlogserverpos = q;
      xlogstreamtime = t;
      xlogdata = bs;
    }

    abbrev unset : MemoryBuffer
    unset = record { block = none; size = garbage }

    assign_header-wire :
        start < 2 ^ 64
        → server < 2 ^ 64
        → assign_header address (buffer_of wire) (new_data_message size garbage)
          ≡ (ok tt, members start server address unset)
    unfolding assign_header basic_check Memory.at_index slice first_bytes
    assign_header-wire hs hv =
        let e : leb (length wire) 0 ≡ false = ground arith in
        let e2 : ltb (length wire) 25 ≡ false = ground arith in
        let e3 : leb (length wire) 17 ≡ false = ground arith in
        let a : from_be (be64 start) ≡ start = omega (arith, from_be-be64 start) in
        let b : from_be (be64 server) ≡ server = omega (arith, from_be-be64 server) in
        let s1 = from_be (be64 start) in
        let s2 = from_be (be64 server) in
        rw e (
          rw e2 (
            rw
              (read_source-slice wire 8 1 (be64 start) (members 0 0 0 unset)
                (inside 8 1 (omega arith) (omega arith)) refl)
              (rw
                (read_source-slice wire 8 9 (be64 server) (members s1 0 0 unset)
                  (inside 8 9 (omega arith) (omega arith)) refl)
                (rw e3 (
                  ap (λ p. (ok tt, members p s2 address unset)) a
                  ∙ ap (λ q. (ok tt, members start q address unset)) b)))))

    module _ ⦃heap : Heap⦄ (fresh : List ℕ) (h : heap.new_char (length payload) ≡ some fresh) where
      copy_rest-wire :
          (p q t : ℕ)
          → 0 < length payload
          → copy_rest (length payload) (buffer_of wire) (members p q t unset)
            ≡ (ok tt, members p q t (buffer_of payload))
      unfolding copy_rest Memory.allocate Memory.write Memory.write_raw splice slice
      copy_rest-wire p q t pos =
          let lf : length fresh ≡ length payload = heap.length-new_char (length payload) fresh h in
          let o : outside (length payload) 0 (record { block = some fresh; size = length payload })
              ≡ false =
            ground arith in
          let m = members p q t (record { block = some fresh; size = length payload }) in
          rw (h, copy_rest)
            (rw (h, Memory.allocate)
              (rw
                (read_source-slice wire (length payload) 25 payload m
                  (inside (length payload) 25 pos (omega arith)) (first_bytes-length payload))
                (rw o (rw (overwrite-whole payload fresh (sym lf), Memory.write_raw) refl))))

-- A buffer that holds a WAL data message with some data, with positions below 2^64 and an
-- allocation that succeeds, is taken for a data message, whose positions and data are those that
-- were sent and whose segment size is the one that is given. Its time is not the one that was sent.
pub message-data_bytes :
    ⦃heap : Heap⦄ (start server time size garbage address : ℕ) (payload fresh : List ℕ)
    → 0 < length payload
    → length payload + 25 < 2 ^ 64
    → start < 2 ^ 64
    → server < 2 ^ 64
    → heap.new_char (length payload) ≡ some fresh
    → message address garbage (buffer_of (data_bytes start server time payload)) size
      ≡ ok (
          data_message (record {
            base = record { kind = b'w'; request_response = false; wal_segment_size = size };
            xlogstartpos = start;
            xlogserverpos = server;
            xlogstreamtime = address;
            xlogdata = buffer_of payload;
          }))
unfolding message assign Memory.at_index
message-data_bytes start server time size garbage address payload fresh pos small hs hv h =
    let src = buffer_of (data_bytes start server time payload) in
    let e : leb src.size 0 ≡ false = ground arith in
    let f : ltb 25 src.size ≡ true = ground arith in
    let k : src.size - 25 ≡ length payload = omega arith in
    rw e (
      rw (assign_header-wire start server time payload small size garbage address hs hv) (
        rw f (
          ap
            (λ n. returning data_message (
              copy_rest n src (
                members start server time payload small size garbage address start server address
                  (record { block = none; size = garbage }))))
            k
          ∙ ap (returning data_message) (
              copy_rest-wire start server time payload small size garbage address fresh h start
                server address pos))))

-- What a keepalive of the server is read as: type, position, time, and the request for a reply.
abbrev pub keepalive_bytes : ℕ → ℕ → ℕ → List ℕ
keepalive_bytes position time flag = b'k' ∷ be64 position ++ be64 time ++ flag ∷ []

-- A keepalive is taken for a feedback message that requests a reply exactly where its last byte is
-- the character 1. Its position and time are the address of a local array, whatever was sent.
pub message-keepalive_bytes :
    ⦃heap : Heap⦄ (position time flag size garbage address : ℕ)
    → message address garbage (buffer_of (keepalive_bytes position time flag)) size
      ≡ ok (
          feedback_message (record {
            base = record { kind = b'k'; request_response = flag == b'1'; wal_segment_size = size };
            xlogserverendpos = address;
            xlogservertime = address;
          }))
unfolding message assign_feedback basic_check Memory.at_index read_source Memory.read slice
    first_bytes
message-keepalive_bytes position time flag size garbage address = refl

-- A first byte and what follows it that make no message.
pub data Malformed : ℕ → List ℕ → Type 0 where
  unknown_type : (c : ℕ) (bs : List ℕ) → c ≢ b'w' → c ≢ b'k' → Malformed c bs
  short_data : (bs : List ℕ) → length bs < 24 → Malformed b'w' bs
  short_keepalive : (bs : List ℕ) → length bs < 17 → Malformed b'k' bs

basic_check-first : (c : ℕ) (bs : List ℕ) → basic_check c (buffer_of (c ∷ bs)) ≡ ok tt
unfolding basic_check Memory.at_index
basic_check-first c bs =
    let e : leb (suc (length bs)) 0 ≡ false = ground arith in
    let k : (c == c) ≡ true = ground arith in rw (e, basic_check) (rw k refl)

-- A buffer that starts with another byte than w or k, or that is too short for what its first byte
-- says, is refused.
pub message-Malformed :
    ⦃heap : Heap⦄ (c : ℕ) (bs : List ℕ) (size garbage address : ℕ)
    → Malformed c bs
    → message address garbage (buffer_of (c ∷ bs)) size ≡ err xlog_message_failure
unfolding message assign assign_feedback assign_header Memory.at_index
message-Malformed c bs size garbage address (unknown_type c' bs' f g) =
    let e : leb (suc (length bs)) 0 ≡ false = ground arith in
    let w : (c' == b'w') ≡ false = ground (arith, f) in
    let k : (c' == b'k') ≡ false = ground (arith, g) in rw e (rw w (rw k refl))
message-Malformed c bs size garbage address (short_data bs' h) =
    let e : leb (suc (length bs)) 0 ≡ false = ground arith in
    let f : ltb (suc (length bs)) 25 ≡ true = ground arith in
    rw e (rw (basic_check-first b'w' bs) (rw f refl))
message-Malformed c bs size garbage address (short_keepalive bs' h) =
    let e : leb (suc (length bs)) 0 ≡ false = ground arith in
    let f : ltb (suc (length bs)) 18 ≡ true = ground arith in
    rw e (rw (basic_check-first b'k' bs) (rw f refl))
