-- ===== src/Copy/State/Transfer.antt =====
-- What the states of COPY OUT and COPY IN (src/protocol/pgproto-copystate.cxx) write and read.
use pg_backup_ctl_plus.Base.{
  ℕ, zero, suc, ◌+◌, ◌-◌, ◌%◌, ◌^◌, ◌<◌, ◌≡◌, refl, ap, subst, ◌∙◌, true, false, Option, some, List,
  [], ◌∷◌, ◌++◌, append-nil, arith, ltb, leb, ◌==◌, ◌&&◌, length, length-append, drop, length-drop,
  pos→ne,
}
use pg_backup_ctl_plus.Base.Bytes.{be32}
use pg_backup_ctl_plus.Base.Result.{ok, ◌>>◌, return, throw, copy_protocol_failure}
use pg_backup_ctl_plus.Buffer.Memory.{Heap, MemoryBuffer, first_bytes, outside, splice, overwrite}
use pg_backup_ctl_plus.Buffer.Memory
use pg_backup_ctl_plus.Buffer.Memory.Access.{first_bytes-length, overwrite-whole}
use pg_backup_ctl_plus.Buffer.Protocol.{ProtocolBuffer, first, on_memory, read_buffer}
use pg_backup_ctl_plus.Buffer.Protocol.Content.{
  holding, Room, write_buffer-holding, write_byte-holding, write_int-holding, read_byte-holding,
  read_int-holding, read_buffer-holding, allocate-holding,
}
use pg_backup_ctl_plus.Copy.Format.{CopyFormat}
use pg_backup_ctl_plus.Copy.State.{
  CopyState, data_in, data_out, copy_done, on_input_data, write_from, write_copy_data,
  read_copy_data, dispatch, read_data, write_data, read, write, context,
}

-- A CopyData message.
abbrev pub copy_data : List ℕ → List ℕ
copy_data bs = b'd' ∷ be32 (4 + length bs) ++ bs

-- A buffer that a caller filled with bytes, at a position that does not matter.
abbrev pub source : List ℕ → ℕ → ProtocolBuffer
source bs k = record { memory = record { block = some bs; size = length bs }; curr_pos = k }

-- An empty tail is left by a write that fills the buffer.
drop-all : (n : ℕ) (l : List ℕ) → length l ≡ n → drop n l ≡ []
drop-all zero [] e = refl
drop-all (suc n) [] e = refl
drop-all zero (x ∷ l) e = absurd (omega arith)
drop-all (suc n) (x ∷ l) e = drop-all n l (omega arith)

module _ ⦃heap : Heap⦄ (bs fresh : List ℕ) (lt : length bs + 5 < 2 ^ 31) where
  write_from-holding :
      (N : ℕ) (pre tail : List ℕ)
      → Room N pre tail (length bs)
      → write_from bs (length bs) (holding N pre tail)
        ≡ (ok (length bs), holding N (pre ++ bs) (drop (length bs) tail))
  unfolding write_from
  write_from-holding N pre tail r =
      let e : outside (length bs) (length pre) (holding N pre tail).memory ≡ false = ground arith in
      rw (e, write_from)
        (rw (first_bytes-length bs, write_from) (write_buffer-holding N bs pre tail r))

  module _ (fs : Option CopyFormat) (i d : Option ProtocolBuffer) (o : ProtocolBuffer) (k : ℕ)
      (s : CopyState) (e : heap.new_char (5 + length bs) ≡ some fresh) where
    write_copy_data-sends :
        0 < length bs
        → write_copy_data (context fs i d (some o) (some (source bs k)) s) ≡ (
          ok (5 + length bs),
          context fs i d (some (holding (5 + length bs) (copy_data bs) [])) (some (source bs k)) s,
        )
    unfolding write_copy_data on_memory Memory.ptr
    write_copy_data-sends pos =
        let N = 5 + length bs in
        let m : (5 + length bs) % 2 ^ 32 ≡ N = omega arith in
        let m2 : ltb N (2 ^ 31) ≡ true = ground arith in
        let m3 : (N == 2 ^ 31) ≡ false = ground arith in
        let m4 : (N + 2 ^ 32 - 1) % 2 ^ 32 ≡ 4 + length bs = omega arith in
        let lf : length fresh ≡ N = heap.length-new_char N fresh e in
        let l1 : length (drop 1 fresh) ≡ N - 1 = omega (arith, length-drop 1 fresh) in
        let l2 : length (drop 4 (drop 1 fresh)) ≡ N - 5 =
          omega (arith, length-drop 4 (drop 1 fresh)) in
        let room1 : Room N [] fresh 1 = record {
          some_room = omega arith;
          enough = omega arith;
          whole = omega arith;
          is_size = omega arith;
        } in
        let room4 : Room N (b'd' ∷ []) (drop 1 fresh) 4 = record {
          some_room = omega arith;
          enough = omega arith;
          whole = omega arith;
          is_size = omega arith;
        } in
        let roomn : Room N (b'd' ∷ be32 (4 + length bs)) (drop 4 (drop 1 fresh)) (length bs) =
          record {
            some_room = omega arith;
            enough = omega arith;
            whole = omega arith;
            is_size = omega arith;
          } in
        rw m (
          rw m2 (
            rw (allocate-holding N fresh o e) (
              rw (write_byte-holding N [] fresh b'd' room1) (
                rw m3 (
                  rw m4 (
                    rw (write_int-holding N (b'd' ∷ []) (drop 1 fresh) (4 + length bs) room4) (
                      rw
                        (write_from-holding N (b'd' ∷ be32 (4 + length bs)) (drop 4 (drop 1 fresh))
                          roomn)
                        (ap
                          (λ t. (
                            ok N,
                            context fs i d (some (holding N (copy_data bs) t)) (some (source bs k))
                                s,
                          ))
                          (drop-all (length bs) (drop 4 (drop 1 fresh)) (omega arith))))))))))

read_rest :
    (N : ℕ) (pre bs : List ℕ)
    → Room N pre (bs ++ []) (length bs)
    → read_buffer (length bs) (holding N pre bs) ≡ (ok bs, holding N (pre ++ bs) [])
read_rest N pre bs r =
    subst (λ l. read_buffer (length bs) (holding N pre l) ≡ (ok bs, holding N (pre ++ bs) []))
      (append-nil bs) (read_buffer-holding N bs pre [] r)

module _ ⦃heap : Heap⦄ (bs fresh : List ℕ) (lt : length bs + 5 < 2 ^ 31) (pos : 0 < length bs)
    (fs : Option CopyFormat) (d : ProtocolBuffer) (o e : Option ProtocolBuffer) (s : CopyState)
    (h : heap.new_char (length bs) ≡ some fresh) where
  stored :
      (i : Option ProtocolBuffer)
      → length bs ≡ length fresh
      → (on_input_data (on_memory (Memory.write_raw bs 0)) >> return (length bs))
          (context fs i (some (holding (length bs) [] fresh)) o e s)
        ≡ (ok (length bs), context fs i (some (holding (length bs) [] bs)) o e s)
  unfolding on_memory Memory.write_raw splice
  stored i k = rw (overwrite-whole bs fresh k, Memory.write_raw) refl

  read_copy_data-receives :
      read_copy_data (
        context fs
          (some (holding (5 + length bs) (b'd' ∷ []) (be32 (4 + length bs) ++ bs)))
          (some d)
          o
          e
          s)
      ≡ (
        ok (length bs),
        context fs
            (some (holding (5 + length bs) (copy_data bs) []))
            (some (holding (length bs) [] bs))
            o
            e
            s,
      )
  unfolding read_copy_data on_memory Memory.ptr
  read_copy_data-receives =
      let N = 5 + length bs in
      let lf : length fresh ≡ length bs = heap.length-new_char (length bs) fresh h in
      let lb : length (bs ++ []) ≡ length bs + 0 = length-append bs [] in
      let m1 : (leb (2 ^ 31) (4 + length bs) && ltb (4 + length bs) (2 ^ 31 + 4)) ≡ false =
        ground arith in
      let m2 : (4 + length bs + 2 ^ 32 - 4) % 2 ^ 32 ≡ length bs = omega arith in
      let m3 : ltb (length bs) (2 ^ 31) ≡ true = ground arith in
      let room4 : Room N (b'd' ∷ []) (be32 (4 + length bs) ++ bs) 4 = record {
        some_room = omega arith;
        enough = omega arith;
        whole = omega arith;
        is_size = omega arith;
      } in
      let roomn : Room N (b'd' ∷ be32 (4 + length bs)) (bs ++ []) (length bs) = record {
        some_room = omega arith;
        enough = omega arith;
        whole = omega arith;
        is_size = omega arith;
      } in
      rw (read_int-holding N (b'd' ∷ []) bs (4 + length bs) (omega arith) room4) (
        rw m1 (
          rw m2 (
            rw m3 (
              rw (allocate-holding (length bs) fresh d h) rw
                (read_rest N (b'd' ∷ be32 (4 + length bs)) bs roomn)
                (stored (some (holding N (copy_data bs) [])) (omega arith))))))

  -- The end of a read of the whole message.
  read-data_message :
      read_data copy_done
        (throw copy_protocol_failure)
        (context fs (some (holding (5 + length bs) [] (copy_data bs))) (some d) o e s)
      ≡ (
        ok (length bs),
        context fs
            (some (holding (5 + length bs) (copy_data bs) []))
            (some (holding (length bs) [] bs))
            o
            e
            s,
      )
  unfolding read_data dispatch
  read-data_message =
      let N = 5 + length bs in
      let m : (N == 0) ≡ false = ground arith in
      let room1 : Room N [] (copy_data bs) 1 = record {
        some_room = omega arith;
        enough = omega arith;
        whole = omega arith;
        is_size = omega arith;
      } in
      rw m (
        rw (read_byte-holding N [] (be32 (4 + length bs) ++ bs) b'd' room1) read_copy_data-receives)

-- The other end of a copy: COPY OUT sends bytes, at least one and fewer than 2^31 - 5, in a message
-- of a type, a length that counts itself and the bytes, and COPY IN reads this message, from its
-- start, back into its data buffer; both stay in their states, where the allocations succeed.
pub read-write_data :
    ⦃heap : Heap⦄ (bs fresh fresh' : List ℕ) (fs fs' : Option CopyFormat)
    (i d o' e' : Option ProtocolBuffer) (o d' : ProtocolBuffer) (k : ℕ)
    → length bs + 5 < 2 ^ 31
    → 0 < length bs
    → heap.new_char (5 + length bs) ≡ some fresh
    → heap.new_char (length bs) ≡ some fresh'
    → (sent received : ProtocolBuffer) × (write
          (context fs i d (some o) (some (source bs k)) data_out)
        ≡ (ok (5 + length bs), context fs i d (some sent) (some (source bs k)) data_out))
      × (sent.memory ≡ record { block = some (copy_data bs); size = 5 + length bs })
      × (read (context fs' (some (first sent)) (some d') o' e' data_in)
          ≡ (ok (length bs), context fs' (some sent) (some received) o' e' data_in))
      × (received.memory ≡ record { block = some bs; size = length bs })
unfolding write read first write_data
read-write_data bs fresh fresh' fs fs' i d o' e' o d' k lt pos h h' =
    let N = 5 + length bs in
    let l : copy_data bs ++ [] ≡ copy_data bs = append-nil (copy_data bs) in
    (
      holding N (copy_data bs) [],
      holding (length bs) [] bs,
      rw (pos→ne (length bs) pos) (write_copy_data-sends bs fresh lt fs i d o k data_out h pos),
      ap (λ m. record { block = some m; size = N }) l,
      ap
            (λ m. read_data copy_done (throw copy_protocol_failure) (
              context fs'
                (some (record { memory = record { block = some m; size = N }; curr_pos = 0 }))
                (some d') o' e' data_in))
            l
          ∙ read-data_message bs fresh' lt pos fs' d' o' e' data_in h',
      refl,
    )
