-- ===== src/Server/ResultSet/Refused.antt =====
-- A row whose last value is empty (src/protocol/proto-types.cxx, src/main/memorybuffer.cxx).
use mathlib.Core.Path.{fun_ext}
use pg_backup_ctl_plus.Base.{
  ℕ, ◌+◌, ◌-◌, ◌%◌, ◌^◌, ◌<◌, ◌≡◌, refl, ap, sym, ◌∙◌, true, some, List, [], ◌∷◌, ◌++◌, arith,
  length, length-append, All,
}
use pg_backup_ctl_plus.Base.Bytes.{be16, be32}
use pg_backup_ctl_plus.Base.Result.{err, failure, M, ◌>>◌, return, bind_result}
use pg_backup_ctl_plus.Buffer.Memory.{Heap, outside}
use pg_backup_ctl_plus.Buffer.Memory
use pg_backup_ctl_plus.Buffer.Protocol.{
  ProtocolBuffer, on_memory, write_buffer, write_byte, write_int, write_short, allocate,
}
use pg_backup_ctl_plus.Buffer.Protocol.Content.{holding}
use pg_backup_ctl_plus.Buffer.Protocol.Chunks.{
  concat, concat-append, write_chunks, Goes, allocate-chunks, write_chunks-then,
}
use pg_backup_ctl_plus.Server.ResultSet.{ColumnData, write_row}
use pg_backup_ctl_plus.Server.ResultSet.Sent.{
  values_chunks, values_size, Exact, length-values_chunks, write_values-chunks, write_row-calls,
}

values_chunks-append :
    (xs ys : List ColumnData) → values_chunks (xs ++ ys) ≡ values_chunks xs ++ values_chunks ys
values_chunks-append [] ys = refl
values_chunks-append (c ∷ cs) ys =
    ap (λ l. be32 c.data_length ∷ c.value ∷ l) (values_chunks-append cs ys)

write_chunks-append :
    {A : Type 0} (xs ys : List (List ℕ)) (k : M ProtocolBuffer A)
    → write_chunks (xs ++ ys) k ≡ write_chunks xs (write_chunks ys k)
write_chunks-append [] ys k = refl
write_chunks-append (x ∷ xs) ys k = ap (λ m. write_buffer x >> m) (write_chunks-append xs ys k)

-- The length of an empty value can be written behind the values before it.
before-Goes : (cs : List ColumnData) (n : ℕ) → Goes (values_chunks cs ++ be32 n ∷ [])
before-Goes [] n = (omega arith, tt)
before-Goes (c ∷ cs) n =
    let l : length (concat (values_chunks cs ++ be32 n ∷ []))
        ≡ length (concat (values_chunks cs)) + 4 =
      omega (
        arith,
        ap length (concat-append (values_chunks cs) (be32 n ∷ [])),
        length-append (concat (values_chunks cs)) (be32 n),
      ) in
    (omega arith, (omega arith, before-Goes cs n))

values_size-append :
    (xs ys : List ColumnData) → values_size (xs ++ ys) ≡ values_size xs + values_size ys
values_size-append [] ys = omega arith
values_size-append (c ∷ cs) ys = omega (arith, values_size-append cs ys)

write_buffer-end :
    (N : ℕ) (bs : List ℕ)
    → length bs ≡ N
    → write_buffer [] (holding N bs []) ≡ (err failure, holding N bs [])
unfolding write_buffer on_memory Memory.write
write_buffer-end N bs e =
    let o : outside 0 (length bs) (holding N bs []).memory ≡ true = ground arith in rw o refl

module _ ⦃heap : Heap⦄ (before : List ColumnData) (n : ℕ) (p : ProtocolBuffer)
    (fresh : List ℕ) where
  abbrev last : ColumnData
  last = record { data_length = n; value = [] }

  abbrev values : List ColumnData
  values = before ++ last ∷ []

  -- A row whose last value is the empty text is not sent: the row is allocated, and the write of the
  -- empty text throws, since it starts at the end of the buffer.
  pub write_row-empty_last :
      All Exact values
      → values_size values < 2 ^ 31 - 7
      → heap.new_char (7 + values_size values) ≡ some fresh
      → (write_row (record { row_size = values_size values; values = values }) p).0 ≡ err failure
  unfolding write_byte write_int write_short
  write_row-empty_last a h e =
      let V = values_size values in
      let N = 7 + V in
      let m = length values % 2 ^ 16 in
      let A = values_chunks before in
      let k : M ProtocolBuffer ℕ = return N in
      let empty = write_buffer [] >> k in
      let head = λ (b : M ProtocolBuffer ℕ).
        (allocate N >> (write_byte b'D' >> (write_int (6 + V) >> (write_short m >> b)))) p in
      let chunks = (b'D' ∷ []) ∷ be32 (6 + V) ∷ be16 m ∷ (A ++ be32 n ∷ []) in
      let size : length (concat chunks) ≡ N = omega (
        arith,
        ap length (concat-append A (be32 n ∷ [])),
        length-append (concat A) (be32 n),
        length-values_chunks before,
        values_size-append before (last ∷ []),
      ) in
      ap (λ x. x.0)
        (write_row-calls p fresh (record { row_size = V; values = values }) refl h
          ∙ ap (λ b. head (b >> k)) (write_values-chunks values a (omega arith))
          ∙ ap head (fun_ext (write_chunks-then (values_chunks values) k))
          ∙ ap (λ l. head (write_chunks l k)) (values_chunks-append before (last ∷ []))
          ∙ ap head (write_chunks-append A (be32 n ∷ [] ∷ []) k)
          ∙ ap head (sym (write_chunks-append A (be32 n ∷ []) empty))
          ∙ allocate-chunks N (omega arith) empty chunks fresh p
              (omega arith, (omega arith, (omega arith, before-Goes before n))) size e
          ∙ ap (λ q. bind_result q (λ _. k)) (write_buffer-end N (concat chunks) size))
