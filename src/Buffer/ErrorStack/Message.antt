-- ===== src/Buffer/ErrorStack/Message.antt =====
-- The message that ProtocolErrorStack::toBuffer (src/protocol/proto-buffer.cxx) leaves in the buffer.
use pg_backup_ctl_plus.Base.{
  ℕ, ◌+◌, ◌-◌, ◌%◌, ◌^◌, ◌<◌, ◌≡◌, refl, ap, ◌∙◌, Bool, true, false, some, List, [], ◌∷◌, ◌++◌,
  arith, length, length-append, drop, length-drop,
}
use pg_backup_ctl_plus.Base.Bytes.{be32}
use pg_backup_ctl_plus.Base.Result.{Result, ok, M, ◌>>◌, return}
use pg_backup_ctl_plus.Buffer.Memory.{Heap}
use pg_backup_ctl_plus.Buffer.Protocol.{ProtocolBuffer, write_byte, write_int, allocate}
use pg_backup_ctl_plus.Buffer.Protocol.Content.{
  holding, write_byte-holding, write_int-holding, allocate-holding,
}
use pg_backup_ctl_plus.Buffer.ErrorStack.{
  ErrorField, ErrorStack, write_fields, to_buffer, on_buffer, message_type,
}
use pg_backup_ctl_plus.Buffer.ErrorStack.Counts.{content, IsCounted, stack}
use pg_backup_ctl_plus.Buffer.ErrorStack.Layout.{
  fields_bytes, length-fields_bytes, Written, write_fields-holding,
}

drop-last : (l : List ℕ) → length l ≡ 1 → drop 1 l ≡ []
drop-last [] e = absurd (omega arith)
drop-last (x ∷ []) e = refl
drop-last (x ∷ y ∷ l) e = absurd (omega arith)

message_type-byte : (error : Bool) → message_type error % 256 ≡ message_type error
message_type-byte true = refl
message_type-byte false = refl

-- The message for the fields of a stack, the top first.
abbrev pub message : Bool → List ErrorField → List ℕ
message error fs =
    (message_type error ∷ [] ++ be32 (4 + (content fs + length fs + 1)))
    ++ fields_bytes fs
    ++ 0 ∷ []

ending :
    (N : ℕ) (w : N < 2 ^ 64) (pre left : List ℕ) (s : ErrorStack) (n : ℕ)
    → length left ≡ 1
    → length pre + 1 ≡ N
    → (on_buffer (write_byte 0) >> return n) (holding N pre left, s)
      ≡ (ok n, (holding N (pre ++ 0 ∷ []) [], s))
ending N w pre left s n l k =
    rw
      (write_byte-holding N pre left 0 (record {
        some_room = omega arith;
        enough = omega arith;
        whole = omega arith;
        is_size = w;
      }))
      (ap (λ x. (ok n, (holding N (pre ++ 0 ∷ []) x, s))) (drop-last left l))

-- What follows the header: the fields and the byte that ends them.
body-holding :
    (N : ℕ) (w : N < 2 ^ 64) (fs : List ErrorField) (t c n : ℕ) (pre tail : List ℕ)
    → (out : Written N w fs t c pre tail) → length pre + length (fields_bytes fs) + 1 ≡ N
    → length tail ≡ length (fields_bytes fs) + 1
    → (write_fields fs >> (on_buffer (write_byte 0) >> return n)) (holding N pre tail, stack fs t c)
      ≡ (
        ok n,
        (holding N ((pre ++ fields_bytes fs) ++ 0 ∷ []) [], stack [] out.counters.0 out.counters.1),
      )
body-holding N w fs t c n pre tail out h k = rw out.runs (
    ending N w (pre ++ fields_bytes fs) out.left (stack [] out.counters.0 out.counters.1) n
      (omega (arith, out.length_left)) (omega (arith, length-append pre (fields_bytes fs))))

module _ ⦃heap : Heap⦄ (error : Bool) (fs : List ErrorField) (t c : ℕ) (p : ProtocolBuffer)
    (fresh : List ℕ) (N size : ℕ) (w : N < 2 ^ 64) (e : heap.new_char N ≡ some fresh) where
  abbrev header : List ℕ
  header = message_type error ∷ [] ++ be32 (4 + size)

  header-holding :
      {A : Type 0} (k : M (ProtocolBuffer × ErrorStack) A) (s : ErrorStack)
      → N ≡ size + 5
      → 0 < size
      → (on_buffer (allocate N)
            >> (on_buffer (write_byte (message_type error))
                >> (on_buffer (write_int (4 + size)) >> k)))
          (p, s)
        ≡ k (holding N header (drop 4 (drop 1 fresh)), s)
  header-holding k s n q =
      let lf : length fresh ≡ N = heap.length-new_char N fresh e in
      let l1 : length (drop 1 fresh) ≡ N - 1 = omega (arith, length-drop 1 fresh) in
      rw (allocate-holding N fresh p e) (
        rw
          (
            write_byte-holding N [] fresh (message_type error) (record {
              some_room = omega arith;
              enough = omega arith;
              whole = omega arith;
              is_size = w;
            }),
            message_type-byte error,
          )
          (rw
            (write_int-holding N (message_type error ∷ []) (drop 1 fresh) (4 + size) (record {
              some_room = omega arith;
              enough = omega arith;
              whole = omega arith;
              is_size = w;
            }))
            refl))

  -- The calls of `toBuffer`, by the numbers that it passes on.
  abbrev calls : ℕ → ℕ → ℕ → Result ℕ × (ProtocolBuffer × ErrorStack)
  calls a b n =
      (on_buffer (allocate a)
          >> (on_buffer (write_byte (message_type error))
              >> (on_buffer (write_int b)
                  >> (write_fields fs >> (on_buffer (write_byte 0) >> return n)))))
        (p, stack fs t c)

  calls-message :
      (out : Written N w fs t c header (drop 4 (drop 1 fresh)))
      → size ≡ content fs + length fs + 1
      → N ≡ size + 5
      → calls N (4 + size) size ≡ (
        ok size,
        (
          holding N ((header ++ fields_bytes fs) ++ 0 ∷ []) [],
          stack [] out.counters.0 out.counters.1,
        ),
      )
  calls-message out m n =
      let lf : length fresh ≡ N = heap.length-new_char N fresh e in
      header-holding (write_fields fs >> (on_buffer (write_byte 0) >> return size)) (stack fs t c) n
        (omega arith)
      ∙ body-holding N w fs t c size header (drop 4 (drop 1 fresh)) out
          (omega (arith, length-fields_bytes fs))
          (omega (arith, length-fields_bytes fs, length-drop 4 (drop 1 fresh), length-drop 1 fresh))

  to_buffer-calls :
      (out : Written N w fs t c header (drop 4 (drop 1 fresh)))
      → size ≡ content fs + length fs + 1
      → N ≡ size + 5
      → (c + length fs + 1) % 2 ^ 64 ≡ size
      → N < 2 ^ 32
      → (counters : ℕ × ℕ) × (to_buffer error (p, stack fs t c) ≡ (
        ok size,
        (holding N ((header ++ fields_bytes fs) ++ 0 ∷ []) [], stack [] counters.0 counters.1),
      ))
  unfolding to_buffer
  to_buffer-calls out m n k h =
      let z = (c + length fs + 1) % 2 ^ 64 in
      (
        out.counters,
        ap (λ x. calls ((5 + x) % 2 ^ 64) ((4 + x) % 2 ^ 32) x) k
            ∙ ap (λ x. calls x ((4 + size) % 2 ^ 32) size) (omega arith)
            ∙ ap (λ x. calls N x size) (omega arith)
            ∙ calls-message out m n,
      )

-- A stack whose sizes are those of its fields, with a message below 2^32 bytes, and an allocation
-- that succeeds: toBuffer fills the buffer exactly with the message, whose length field counts
-- all but the type byte, empties the stack, and returns the length of the message's body.
pub to_buffer-message :
    ⦃heap : Heap⦄ (error : Bool) (fs : List ErrorField) (t c : ℕ) (p : ProtocolBuffer)
    (fresh : List ℕ)
    → IsCounted (stack fs t c)
    → content fs + length fs + 6 < 2 ^ 32
    → heap.new_char (content fs + length fs + 6) ≡ some fresh
    → (counters : ℕ × ℕ) × (to_buffer error (p, stack fs t c) ≡ (
      ok (content fs + length fs + 1),
      (holding (content fs + length fs + 6) (message error fs) [], stack [] counters.0 counters.1),
    ))
      × (length (message error fs) ≡ content fs + length fs + 6)
to_buffer-message ⦃heap⦄ error fs t c p fresh k h e =
    let N = content fs + length fs + 6 in
    let size = content fs + length fs + 1 in
    let w : N < 2 ^ 64 = omega arith in
    let lf : length fresh ≡ N = heap.length-new_char N fresh e in
    let l : length (drop 4 (drop 1 fresh)) ≡ N - 5 =
      omega (arith, length-drop 4 (drop 1 fresh), length-drop 1 fresh) in
    let (counters, runs) =
      to_buffer-calls error fs t c p fresh N size w e
        (write_fields-holding N w fs t c (header error fs t c p fresh N size w e)
          (drop 4 (drop 1 fresh)) (omega (arith, length-fields_bytes fs)) (omega arith))
        (omega arith) (omega arith) (omega (arith, k.total)) h in
    (
      counters,
      runs,
      omega (arith, length-append (fields_bytes fs) (0 ∷ []), length-fields_bytes fs),
    )
