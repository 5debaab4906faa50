-- ===== src/Buffer/Protocol/Content.antt =====
-- A protocol buffer as what stands before its position and what stands behind it
-- (src/protocol/proto-buffer.cxx): writing and reading move bytes from one part to the other.
use pg_backup_ctl_plus.Base.{
  ℕ, ◌+◌, ◌%◌, ◌^◌, ◌<◌, ◌≤◌, ◌≡◌, refl, ap, sym, ◌∙◌, false, some, List, [], ◌∷◌, ◌++◌,
  append_assoc, arith, length, length-append, take, drop, take-append-drop, length-take,
}
use pg_backup_ctl_plus.Base.Bytes.{be16, be32, from_be-be16, from_be-be32}
use pg_backup_ctl_plus.Base.Result.{ok}
use pg_backup_ctl_plus.Buffer.Memory.{Heap, MemoryBuffer, outside, splice, slice}
use pg_backup_ctl_plus.Buffer.Memory
use pg_backup_ctl_plus.Buffer.Memory.Access.{splice-middle, slice-middle}
use pg_backup_ctl_plus.Buffer.Protocol.{
  ProtocolBuffer, on_memory, first, write_buffer, write_byte, write_short, write_int, read_buffer,
  read_byte, read_short, read_int, allocate,
}

module _ (size : ℕ) where
  abbrev pub holding : List ℕ → List ℕ → ProtocolBuffer
  holding pre tail = record {
    memory = record { block = some (pre ++ tail); size = size };
    curr_pos = length pre;
  }

  -- There is room for n bytes at a position inside the buffer, whose size is a size_t.
  pub record Room (pre tail : List ℕ) (n : ℕ) : Type 0 where
    pub some_room : 0 < length tail
    pub enough : n ≤ length tail
    pub whole : length pre + length tail ≡ size
    pub is_size : size < 2 ^ 64

  within :
      (pre tail : List ℕ) (n : ℕ)
      → Room pre tail n
      → outside n (length pre) (holding pre tail).memory ≡ false
  within pre tail n r = ground arith

  splice-tail :
      (bs pre tail : List ℕ)
      → length bs ≤ length tail
      → splice bs (length pre) (pre ++ tail) ≡ some (pre ++ (bs ++ drop (length bs) tail))
  splice-tail bs pre tail h =
      ap (λ t. splice bs (length pre) (pre ++ t)) (sym (take-append-drop (length bs) tail))
      ∙ splice-middle bs pre (take (length bs) tail) (drop (length bs) tail)
          (omega (arith, length-take (length bs) tail))

  moved :
      (pre bs tail : List ℕ) (n : ℕ)
      → n ≡ length bs
      → record {
        memory = record { block = some (pre ++ (bs ++ tail)); size = size };
        curr_pos = length pre + n;
      }
        ≡ holding (pre ++ bs) tail
  moved pre bs tail n e =
      ap
        (λ l.
          let p : ProtocolBuffer = record {
            memory = record { block = some l; size = size };
            curr_pos = length pre + n;
          } in
          p)
        (sym (append_assoc pre bs tail))
      ∙ ap
          (λ k.
            let p : ProtocolBuffer = record {
              memory = record { block = some ((pre ++ bs) ++ tail); size = size };
              curr_pos = k;
            } in
            p)
          (ap (λ k. length pre + k) e ∙ sym (length-append pre bs))

  write-tail :
      (bs pre tail : List ℕ)
      → Room pre tail (length bs)
      → Memory.write bs (length pre) (holding pre tail).memory ≡ (
        ok (length bs),
        record { block = some (pre ++ (bs ++ drop (length bs) tail)); size = size },
      )
  unfolding Memory.write Memory.write_raw
  write-tail bs pre tail r =
      rw (within pre tail (length bs) r) (rw (splice-tail bs pre tail r.enough, Memory.write_raw))

  pub write_buffer-holding :
      (bs pre tail : List ℕ)
      → Room pre tail (length bs)
      → write_buffer bs (holding pre tail)
        ≡ (ok (length bs), holding (pre ++ bs) (drop (length bs) tail))
  unfolding write_buffer on_memory
  write_buffer-holding bs pre tail r =
      rw (write-tail bs pre tail r, write_buffer, on_memory)
        (ap (λ p. (ok (length bs), p)) (moved pre bs (drop (length bs) tail) (length bs) refl))

  pub read_buffer-holding :
      (bs pre post : List ℕ)
      → Room pre (bs ++ post) (length bs)
      → read_buffer (length bs) (holding pre (bs ++ post)) ≡ (ok bs, holding (pre ++ bs) post)
  unfolding read_buffer on_memory Memory.read
  read_buffer-holding bs pre post r =
      rw (within pre (bs ++ post) (length bs) r, read_buffer, on_memory, Memory.read)
        (rw (slice-middle pre bs post) (ap (λ p. (ok bs, p)) (moved pre bs post (length bs) refl)))

  -- The typed calls.
  module _ (pre tail : List ℕ) where
    pub write_byte-holding :
        (c : ℕ)
        → Room pre tail 1
        → write_byte c (holding pre tail) ≡ (ok 1, holding (pre ++ c % 256 ∷ []) (drop 1 tail))
    unfolding write_byte
    write_byte-holding c r = write_buffer-holding (c % 256 ∷ []) pre tail r

    pub write_short-holding :
        (v : ℕ)
        → Room pre tail 2
        → write_short v (holding pre tail) ≡ (ok 2, holding (pre ++ be16 v) (drop 2 tail))
    unfolding write_short
    write_short-holding v r = write_buffer-holding (be16 v) pre tail r

    pub write_int-holding :
        (v : ℕ)
        → Room pre tail 4
        → write_int v (holding pre tail) ≡ (ok 4, holding (pre ++ be32 v) (drop 4 tail))
    unfolding write_int
    write_int-holding v r = write_buffer-holding (be32 v) pre tail r

  module _ (pre post : List ℕ) where
    pub read_byte-holding :
        (c : ℕ)
        → Room pre (c ∷ post) 1
        → read_byte (holding pre (c ∷ post)) ≡ (ok c, holding (pre ++ c ∷ []) post)
    unfolding read_byte
    read_byte-holding c r =
        rw (read_buffer-holding (c ∷ []) pre post r)
          (ap (λ v. (ok v, holding (pre ++ c ∷ []) post)) (omega arith))

    pub read_short-holding :
        (v : ℕ)
        → v < 2 ^ 16
        → Room pre (be16 v ++ post) 2
        → read_short (holding pre (be16 v ++ post)) ≡ (ok v, holding (pre ++ be16 v) post)
    unfolding read_short
    read_short-holding v h r =
        rw (read_buffer-holding (be16 v) pre post r)
          (ap (λ w. (ok w, holding (pre ++ be16 v) post)) (omega (arith, from_be-be16 v)))

    pub read_int-holding :
        (v : ℕ)
        → v < 2 ^ 32
        → Room pre (be32 v ++ post) 4
        → read_int (holding pre (be32 v ++ post)) ≡ (ok v, holding (pre ++ be32 v) post)
    unfolding read_int
    read_int-holding v h r =
        rw (read_buffer-holding (be32 v) pre post r)
          (ap (λ w. (ok w, holding (pre ++ be32 v) post)) (omega (arith, from_be-be32 v)))

-- What an allocation that succeeds leaves.
pub allocate-holding :
    ⦃heap : Heap⦄ (n : ℕ) (fresh : List ℕ) (p : ProtocolBuffer)
    → heap.new_char n ≡ some fresh
    → allocate n p ≡ (ok tt, holding n [] fresh)
unfolding allocate on_memory first Memory.allocate
allocate-holding n fresh p e = rw (e, Memory.allocate)
