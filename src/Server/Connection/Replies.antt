-- ===== src/Server/Connection/Replies.antt =====
-- The messages of a connection (src/jobs/server.cxx), from the buffer to the start of its write.
use pg_backup_ctl_plus.Base.{
  ℕ, ◌+◌, ◌%◌, ◌^◌, ◌<◌, ◌≡◌, refl, ap, sym, ◌∙◌, some, List, [], ◌∷◌, ◌++◌, append-nil, arith,
  length, length-append,
}
use pg_backup_ctl_plus.Base.Bytes.{be32}
use pg_backup_ctl_plus.Base.Result.{Result, ok, err, M, ◌>>◌, bind_result, return}
use pg_backup_ctl_plus.Buffer.Memory.{Heap}
use pg_backup_ctl_plus.Buffer.Memory
use pg_backup_ctl_plus.Buffer.Protocol.{
  ProtocolBuffer, write_buffer, allocate, write_byte, write_int,
}
use pg_backup_ctl_plus.Buffer.Protocol.Content.{holding, allocate-holding}
use pg_backup_ctl_plus.Buffer.Protocol.Chunks.{concat, write_chunks, Goes, allocate-chunks}
use pg_backup_ctl_plus.Server.Command.Steps.{start_write-holding}
use pg_backup_ctl_plus.Server.Connection.{
  Text, Connection, ProtocolState, auth, ready_for_query, ready_for_query_wait, on_write, enter,
  start_write, send_authentication_ok, send_backend_key, send_ready_for_query,
  send_backend_key_state, server_version, new_buffer, parameter_to_buffer, send_parameter_status,
}

-- Writes of chunks to the buffer of a connection.
abbrev write_all : {A : Type 0} → List (List ℕ) → M Connection A → M Connection A
write_all [] k = k
write_all (b ∷ bs) k = on_write (write_buffer b) >> write_all bs k

-- A connection with another buffer to write.
abbrev with_buffer : Connection → ProtocolBuffer → Connection
with_buffer c p = record c { outgoing = record c.outgoing { write_buffer = p } }

behind_write :
    {A B : Type 0} (r : Result B × ProtocolBuffer) (c : Connection) (bs : List (List ℕ))
    (k : M Connection A)
    → ((p : ProtocolBuffer)
        → write_all bs k (with_buffer c p) ≡ (
            let (t, q) = write_chunks bs (return tt) p in
            bind_result (t, with_buffer c q) (λ u. k)))
    → bind_result (r.0, with_buffer c r.1) (λ u. write_all bs k) ≡ (
        let (t, q) = bind_result r (λ u. write_chunks bs (return tt)) in
        bind_result (t, with_buffer c q) (λ u. k))
behind_write (ok a, p) c bs k h = h p
behind_write (err e, p) c bs k h = refl

write_all-fused :
    {A : Type 0} (bs : List (List ℕ)) (k : M Connection A) (c : Connection) (p : ProtocolBuffer)
    → write_all bs k (with_buffer c p)
      ≡ (let (t, q) = write_chunks bs (return tt) p in bind_result (t, with_buffer c q) (λ u. k))
write_all-fused [] k c p = refl
write_all-fused (b ∷ bs) k c p = behind_write (write_buffer b p) c bs k (write_all-fused bs k c)

-- A connection behind the start of the write of a message.
abbrev pub replied : ProtocolState → List ℕ → Connection → Connection
replied s m c = record c {
  state = s;
  outgoing = record c.outgoing {
    write_buffer = holding (length m) m [];
    started = c.outgoing.started ++ m ∷ [];
  };
}

sends-then :
    {A B : Type 0} (m : M Connection A) (n : M Connection (Unit {0})) (k : M Connection B) (a : A)
    (c d e : Connection)
    → m c ≡ (ok a, d)
    → n d ≡ (ok tt, e)
    → (m >> (n >> k)) c ≡ k e
sends-then m n k a c d e h i =
    ap (λ x. bind_result x (λ u. n >> k)) h ∙ ap (λ x. bind_result x (λ u. k)) i

pub start_write-replied :
    (s : ProtocolState) (m : List ℕ) (c : Connection)
    → start_write (record c {
      state = s;
      outgoing = record c.outgoing { write_buffer = holding (length m) m [] };
    })
      ≡ (ok tt, replied s m c)
unfolding start_write
start_write-replied s m c =
    ap (λ x. (x.0, record c { state = s; outgoing = x.1 }))
      (start_write-holding m c.outgoing (length m) refl)

-- The text of the parameter with the version of the server.
abbrev version_text : Text → List ℕ
version_text v = concat (server_version ∷ (0 ∷ []) ∷ v ∷ (0 ∷ []) ∷ [])

-- The messages of the startup.
abbrev pub authentication_message : List ℕ
authentication_message = b'R' ∷ be32 8 ++ be32 0

abbrev pub status_message : Text → List ℕ
status_message v = b'S' ∷ be32 (20 + length v) ++ (server_version ++ 0 ∷ (v ++ 0 ∷ []))

abbrev pub key_message : ℕ → List ℕ
key_message pid = b'K' ∷ be32 12 ++ (be32 pid ++ be32 1234)

abbrev pub ready_message : List ℕ
ready_message = b'Z' ∷ be32 5 ++ b'I' ∷ []

module _ ⦃heap : Heap⦄
    (grants : (n : ℕ) → n < 2 ^ 31 → (b : List ℕ) × (heap.new_char n ≡ some b)) where
  -- A method that allocates the buffer and fills it, and the write of it.
  write_all-replied :
      {B : Type 0} (N : ℕ) (bs : List (List ℕ)) (s : ProtocolState) (k : M Connection B)
      (c : Connection)
      → Goes bs
      → length (concat bs) ≡ N
      → N < 2 ^ 31
      → ((on_write (allocate N) >> write_all bs (enter s)) >> (start_write >> k)) c
        ≡ k (replied s (concat bs) c)
  write_all-replied N bs s k c g e h =
      let p = c.outgoing.write_buffer in
      let (b, i) = grants N h in
      let next : Result (Unit {0}) × ProtocolBuffer → Result (Unit {0}) × Connection =
        λ x. bind_result (x.0, with_buffer c x.1) (λ u. enter s) in
      let runs =
        ap (λ x. bind_result (x.0, with_buffer c x.1) (λ u. write_all bs (enter s)))
          (allocate-holding N b p i)
        ∙ write_all-fused bs (enter s) c (holding N [] b)
        ∙ ap next (
            sym (
              ap (λ x. bind_result x (λ u. write_chunks bs (return tt))) (allocate-holding N b p i))
            ∙ allocate-chunks N (omega arith) (return tt) bs b p g e i)
        ∙ ap (λ n. next (ok tt, holding n (concat bs) [])) (sym e) in
      sends-then (on_write (allocate N) >> write_all bs (enter s)) start_write k tt c
        (record c {
          state = s;
          outgoing = record c.outgoing {
            write_buffer = holding (length (concat bs)) (concat bs) [];
          };
        })
        (replied s (concat bs) c) runs (start_write-replied s (concat bs) c)

  length-version_text : (v : Text) → length (version_text v) ≡ 16 + length v
  length-version_text v = omega (arith, length-append v (0 ∷ []))

  parameter_to_buffer-version :
      (v : Text)
      → length v < 2 ^ 30
      → parameter_to_buffer server_version v new_buffer
        ≡ (ok tt, holding (length (version_text v)) (version_text v) [])
  unfolding parameter_to_buffer write_byte
  parameter_to_buffer-version v h =
      let N = length (version_text v) in
      let n = length-version_text v in
      let (b, i) = grants N (omega arith) in
      let bs = server_version ∷ (0 ∷ []) ∷ v ∷ (0 ∷ []) ∷ [] in
      ap (λ x. (allocate x >> write_chunks bs (return tt)) new_buffer) (omega arith)
      ∙ allocate-chunks N (omega arith) (return tt) bs b new_buffer
          (omega arith, (omega arith, (omega (arith, length-append v (0 ∷ [])), (omega arith, tt))))
          refl i

  pub authentication-replied :
      {B : Type 0} (k : M Connection B) (c : Connection)
      → (send_authentication_ok >> (start_write >> k)) c ≡ k (replied auth authentication_message c)
  unfolding send_authentication_ok write_byte write_int
  authentication-replied k c =
      write_all-replied 9 ((b'R' ∷ []) ∷ be32 8 ∷ be32 0 ∷ []) auth k c
        (omega arith, (omega arith, (omega arith, tt))) refl (omega arith)

  pub key-replied :
      {B : Type 0} (pid : ℕ) (k : M Connection B) (c : Connection)
      → (send_backend_key pid >> (start_write >> k)) c
        ≡ k (replied ready_for_query (key_message pid) c)
  unfolding send_backend_key write_byte write_int
  key-replied pid k c =
      write_all-replied 13 ((b'K' ∷ []) ∷ be32 12 ∷ be32 pid ∷ be32 1234 ∷ []) ready_for_query k c
        (omega arith, (omega arith, (omega arith, (omega arith, tt)))) refl (omega arith)

  pub ready-replied :
      {B : Type 0} (k : M Connection B) (c : Connection)
      → (send_ready_for_query >> (start_write >> k)) c
        ≡ k (replied ready_for_query_wait ready_message c)
  unfolding send_ready_for_query write_byte write_int
  ready-replied k c =
      write_all-replied 6 ((b'Z' ∷ []) ∷ be32 5 ∷ (b'I' ∷ []) ∷ []) ready_for_query_wait k c
        (omega arith, (omega arith, (omega arith, tt))) refl (omega arith)

  pub status-replied :
      {B : Type 0} (v : Text) (k : M Connection B) (c : Connection)
      → length v < 2 ^ 30
      → (send_parameter_status v >> (start_write >> k)) c
        ≡ k (replied send_backend_key_state (status_message v) c)
  unfolding send_parameter_status write_byte write_int Memory.ptr
  status-replied v k c h =
      let t = version_text v in
      let n = length-version_text v in
      let S = (4 + length t) % 2 ^ 32 in
      let bs = (b'S' ∷ []) ∷ be32 S ∷ (t ++ []) ∷ [] in
      let l : length (t ++ []) ≡ length t = ap length (append-nil t) in
      let m : length ((t ++ []) ++ []) ≡ length (t ++ []) = ap length (append-nil (t ++ [])) in
      let N = 5 + length t in
      rw (parameter_to_buffer-version v h) (
        ap
          (λ x.
            ((on_write (allocate x) >> write_all bs (enter send_backend_key_state))
                >> (start_write >> k))
              c)
          (omega arith)
        ∙ write_all-replied N bs send_backend_key_state k c
            (omega arith, (omega arith, (omega arith, tt))) (omega arith) (omega arith)
        ∙ ap (λ x. k (replied send_backend_key_state (b'S' ∷ be32 S ++ x) c))
            (append-nil (t ++ []) ∙ append-nil t)
        ∙ ap (λ x. k (replied send_backend_key_state (b'S' ∷ be32 x ++ t) c)) (omega arith))
