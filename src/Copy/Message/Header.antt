-- ===== src/Copy/Message/Header.antt =====
-- The header of the PGMessage classes (src/protocol/pgmessage.cxx), and what PGMessageCopyData
-- (src/protocol/pgmessage-copydata.cxx) reads behind it.
use pg_backup_ctl_plus.Base.{
  ℕ, ◌+◌, ◌-◌, ◌%◌, ◌^◌, ◌<◌, ◌≤◌, ◌≡◌, refl, ap, ◌∙◌, true, false, some, List, [], ◌∷◌, ◌++◌,
  arith, ltb, ◌==◌, length, drop, length-drop,
}
use pg_backup_ctl_plus.Base.Bytes.{be32}
use pg_backup_ctl_plus.Base.Result.{failure, ok, err}
use pg_backup_ctl_plus.Buffer.Memory.{Heap, outside}
use pg_backup_ctl_plus.Buffer.Memory
use pg_backup_ctl_plus.Buffer.Protocol.{ProtocolBuffer, first, read_buffer, on_memory}
use pg_backup_ctl_plus.Buffer.Protocol.Content.{
  holding, Room, write_byte-holding, write_int-holding, read_byte-holding, read_int-holding,
  allocate-holding,
}
use pg_backup_ctl_plus.Copy.Message.{Message, DataMessage, read_from, write_to, read_data_from}
use pg_backup_ctl_plus.Copy.State.Transfer.{copy_data}

abbrev pub header : ℕ → ℕ → List ℕ
header identifier v = identifier ∷ be32 v

module _ (N identifier v : ℕ) (rest : List ℕ) (w : 5 + length rest ≡ N) (h : N < 2 ^ 31) where
  read_from-header :
      (m : Message)
      → v + 1 < 2 ^ 31
      → read_from (m, some (holding N [] (header identifier v ++ rest))) ≡ (
        ok (v + 1),
        (
          record { message_identifier = identifier; message_size = v + 1 },
          some (holding N (header identifier v) rest),
        ),
      )
  unfolding read_from
  read_from-header m k =
      let r1 : Room N [] (header identifier v ++ rest) 1 = record {
        some_room = omega arith;
        enough = omega arith;
        whole = omega arith;
        is_size = omega arith;
      } in
      let r4 : Room N (identifier ∷ []) (be32 v ++ rest) 4 = record {
        some_room = omega arith;
        enough = omega arith;
        whole = omega arith;
        is_size = omega arith;
      } in
      let a : (v == 2 ^ 31 - 1) ≡ false = ground arith in
      let b : (v + 1) % 2 ^ 32 ≡ v + 1 = omega arith in
      let c : ltb (v + 1) (2 ^ 31) ≡ true = ground arith in
      rw (read_byte-holding N [] (be32 v ++ rest) identifier r1) (
        rw (read_int-holding N (identifier ∷ []) rest v (omega arith) r4) (rw a (rw b (rw c refl))))

module _ ⦃heap : Heap⦄ where
  -- The header of a message of a size of at least 5 and below 2^31, with a type of one byte, that is
  -- written to a buffer is read back from its start, by whatever message, where the allocation
  -- succeeds.
  pub read_from-write_to :
      (m m' : Message) (p : ProtocolBuffer) (fresh : List ℕ)
      → m.message_identifier < 256
      → 5 ≤ m.message_size
      → m.message_size < 2 ^ 31
      → heap.new_char m.message_size ≡ some fresh
      → (q : ProtocolBuffer) × (write_to m (some p) ≡ (ok m.message_size, some q))
        × (read_from (m', some (first q)) ≡ (ok m.message_size, (m, some q)))
  unfolding write_to first
  read_from-write_to m m' p fresh i l h e =
      let N = m.message_size in
      let id = m.message_identifier in
      let rest = drop 4 (drop 1 fresh) in
      let lf : length fresh ≡ N = heap.length-new_char N fresh e in
      let l1 : length (drop 1 fresh) ≡ N - 1 = omega (arith, length-drop 1 fresh) in
      let l2 : length rest ≡ N - 5 = omega (arith, length-drop 4 (drop 1 fresh)) in
      let r1 : Room N [] fresh 1 = record {
        some_room = omega arith;
        enough = omega arith;
        whole = omega arith;
        is_size = omega arith;
      } in
      let r4 : Room N (id ∷ []) (drop 1 fresh) 4 = record {
        some_room = omega arith;
        enough = omega arith;
        whole = omega arith;
        is_size = omega arith;
      } in
      let b : id % 256 ≡ id = omega arith in
      let c : (N + 2 ^ 64 - 1) % 2 ^ 32 ≡ N - 1 = omega arith in
      let s : N - 1 + 1 ≡ N = omega arith in
      (
        holding N (header id (N - 1)) rest,
        rw (allocate-holding N fresh p e) (
            rw (write_byte-holding N [] fresh id r1)
              (rw b (rw c (rw (write_int-holding N (id ∷ []) (drop 1 fresh) (N - 1) r4) refl)))),
        read_from-header N id (N - 1) rest (omega arith) h m' (omega arith)
            ∙ ap
                (λ x. (
                  ok x,
                  (
                    record { message_identifier = id; message_size = x },
                    some (holding N (header id (N - 1)) rest),
                  ),
                ))
                s,
      )

  -- A CopyData message with some data, fewer than 2^31 - 5 bytes, that stands in a buffer of its size
  -- is never read: the type and the size are taken, and then the read of the data throws.
  pub read_data_from-copy_data :
      (bs fresh : List ℕ) (m : DataMessage)
      → 0 < length bs
      → 5 + length bs < 2 ^ 31
      → heap.new_char (5 + length bs) ≡ some fresh
      → read_data_from (m, some (holding (5 + length bs) [] (copy_data bs))) ≡ (
        err failure,
        (
          record m { base = record { message_identifier = b'd'; message_size = 5 + length bs } },
          some (holding (5 + length bs) (header b'd' (4 + length bs)) bs),
        ),
      )
  unfolding read_data_from read_buffer on_memory Memory.read
  read_data_from-copy_data bs fresh m p h e =
      let N = 5 + length bs in
      let s : 4 + length bs + 1 ≡ N = omega arith in
      let f : ltb 5 N ≡ true = ground arith in
      let o : outside N 5 (holding N (header b'd' (4 + length bs)) bs).memory ≡ true =
        ground arith in
      rw e (
        rw (read_from-header N b'd' (4 + length bs) bs refl h m.base (omega arith))
          (rw s (rw f (rw (o, Memory.read) refl))))
