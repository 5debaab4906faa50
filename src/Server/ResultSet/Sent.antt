-- ===== src/Server/ResultSet/Sent.antt =====
-- The messages that PGProtoResultSet (src/protocol/proto-types.cxx) leaves in a buffer.
use pg_backup_ctl_plus.Base.{
  ℕ, ◌+◌, ◌-◌, ◌%◌, ◌^◌, ◌<◌, ◌≡◌, refl, ap, ◌∙◌, some, List, [], ◌∷◌, ◌++◌, arith, length,
  length-append, All,
}
use mathlib.Core.Path.{fun_ext}
use pg_backup_ctl_plus.Base.Bytes.{be16, be32}
use pg_backup_ctl_plus.Base.Result.{Result, ok, M, ◌>>=◌, ◌>>◌, return, lift}
use pg_backup_ctl_plus.Buffer.Memory.{Heap, first_bytes, copied}
use pg_backup_ctl_plus.Buffer.Protocol.{
  ProtocolBuffer, write_buffer, write_byte, write_int, write_short, allocate,
}
use pg_backup_ctl_plus.Buffer.Protocol.Content.{holding}
use pg_backup_ctl_plus.Buffer.Protocol.Chunks.{
  concat, write_chunks, Goes, allocate-chunks, write_chunks-then,
}
use pg_backup_ctl_plus.Copy.State.{to_size}
use pg_backup_ctl_plus.Server.ResultSet.{
  ColumnData, Columns, ColumnDescr, ResultSet, calculate_row_descr_size, write_columns,
  write_values, value_bytes, write_descriptor, write_row,
}

-- What is written for a column and for a value.
abbrev pub columns_chunks : List ColumnDescr → List (List ℕ)
columns_chunks [] = []
columns_chunks (c ∷ cs) =
    c.name
    ∷ (0 ∷ [])
    ∷ be32 c.tableoid
    ∷ be16 c.attnum
    ∷ be32 c.typeoid
    ∷ be16 c.typelen
    ∷ be32 c.typemod
    ∷ be16 c.format
    ∷ columns_chunks cs

abbrev pub values_chunks : List ColumnData → List (List ℕ)
values_chunks [] = []
values_chunks (c ∷ cs) = be32 c.data_length ∷ c.value ∷ values_chunks cs

-- The sizes that the messages announce.
abbrev pub columns_size : List ColumnDescr → ℕ
columns_size [] = 0
columns_size (c ∷ cs) = length c.name + 19 + columns_size cs

abbrev pub values_size : List ColumnData → ℕ
values_size [] = 0
values_size (c ∷ cs) = 4 + length c.value + values_size cs

-- The last value of a row is not empty.
abbrev pub LastFilled : List ColumnData → Type 0
LastFilled [] = Unit
LastFilled (c ∷ []) = 0 < length c.value
LastFilled (c ∷ d ∷ cs) = LastFilled (d ∷ cs)

-- A value with its length.
abbrev pub Exact : ColumnData → Type 0
Exact c = c.data_length ≡ length c.value

length-columns_chunks :
    (cs : List ColumnDescr) → length (concat (columns_chunks cs)) ≡ columns_size cs
length-columns_chunks [] = refl
length-columns_chunks (c ∷ cs) =
    let rest = concat (columns_chunks cs) in
    let tail =
      (0 ∷ [])
      ++ be32 c.tableoid
      ++ be16 c.attnum
      ++ be32 c.typeoid
      ++ be16 c.typelen
      ++ be32 c.typemod
      ++ be16 c.format
      ++ rest in
    omega (arith, length-append c.name tail, length-columns_chunks cs)

pub length-values_chunks :
    (cs : List ColumnData) → length (concat (values_chunks cs)) ≡ values_size cs
length-values_chunks [] = refl
length-values_chunks (c ∷ cs) =
    omega (arith, length-append c.value (concat (values_chunks cs)), length-values_chunks cs)

columns_chunks-Goes : (cs : List ColumnDescr) → Goes (columns_chunks cs)
columns_chunks-Goes [] = tt
columns_chunks-Goes (c ∷ cs) = (
  omega arith,
  (
    omega arith,
    (
      omega arith,
      (
        omega arith,
        (omega arith, (omega arith, (omega arith, (omega arith, columns_chunks-Goes cs)))),
      ),
    ),
  ),
)

values_chunks-Goes : (cs : List ColumnData) → LastFilled cs → Goes (values_chunks cs)
values_chunks-Goes [] h = tt
values_chunks-Goes (c ∷ []) h = (omega arith, (omega arith, tt))
values_chunks-Goes (c ∷ d ∷ cs) h = (omega arith, (omega arith, values_chunks-Goes (d ∷ cs) h))

write_columns-chunks :
    (cs : List ColumnDescr) → write_columns cs ≡ write_chunks (columns_chunks cs) (return tt)
unfolding write_columns write_byte write_int write_short
write_columns-chunks [] = refl
write_columns-chunks (c ∷ cs) =
    ap
      (λ k.
        write_chunks
          (c.name
            ∷ (0 ∷ [])
            ∷ be32 c.tableoid
            ∷ be16 c.attnum
            ∷ be32 c.typeoid
            ∷ be16 c.typelen
            ∷ be32 c.typemod
            ∷ be16 c.format
            ∷ [])
          k)
      (write_columns-chunks cs)

first_bytes-append : (bs more : List ℕ) → first_bytes (length bs) (bs ++ more) ≡ some bs
unfolding first_bytes
first_bytes-append [] more = refl
first_bytes-append (b ∷ bs) more = rw (first_bytes-append bs more)

value_bytes_lem : (c : ColumnData) → Exact c → length c.value < 2 ^ 31 → value_bytes c ≡ ok c.value
value_bytes_lem c e h =
    let t : to_size c.data_length ≡ length c.value = ground arith in
    ap (λ n. copied (first_bytes n (c.value ++ 0 ∷ []))) t
    ∙ ap copied (first_bytes-append c.value (0 ∷ []))

pub write_values-chunks :
    (cs : List ColumnData)
    → All Exact cs
    → values_size cs < 2 ^ 31
    → write_values cs ≡ write_chunks (values_chunks cs) (return tt)
unfolding write_values write_int
write_values-chunks [] e h = refl
write_values-chunks (c ∷ cs) e h =
    ap (λ r. write_int c.data_length >> (lift r >>= λ bs. (write_buffer bs >> write_values cs)))
      (value_bytes_lem c e.0 (omega arith))
    ∙ ap (λ k. write_chunks (be32 c.data_length ∷ c.value ∷ []) k)
        (write_values-chunks cs e.1 (omega arith))

-- The messages.
abbrev pub descriptor_message : List ColumnDescr → List ℕ
descriptor_message cs =
    b'T' ∷ (be32 (6 + columns_size cs) ++ be16 (length cs % 2 ^ 16) ++ concat (columns_chunks cs))

abbrev pub row_message : List ColumnData → List ℕ
row_message vs =
    b'D' ∷ (be32 (6 + values_size vs) ++ be16 (length vs % 2 ^ 16) ++ concat (values_chunks vs))

pub length-descriptor_message :
    (cs : List ColumnDescr) → length (descriptor_message cs) ≡ 7 + columns_size cs
length-descriptor_message cs = omega (arith, length-columns_chunks cs)

pub length-row_message : (vs : List ColumnData) → length (row_message vs) ≡ 7 + values_size vs
length-row_message vs = omega (arith, length-values_chunks vs)

-- A row that can be sent.
pub record Sendable (r : Columns) : Type 0 where
  pub sized : r.row_size ≡ values_size r.values
  pub exact : All Exact r.values
  pub filled : LastFilled r.values
  pub small : values_size r.values < 2 ^ 31 - 7

module _ ⦃heap : Heap⦄ (p : ProtocolBuffer) (fresh : List ℕ) where
  -- The calls that make a message with a number of parts, by the numbers that they pass on.
  abbrev pub calls : ℕ → ℕ → ℕ → ℕ → M ProtocolBuffer (Unit {0}) → ℕ → Result ℕ × ProtocolBuffer
  calls N t v n body result =
      (allocate N >> (write_byte t >> (write_int v >> (write_short n >> (body >> return result)))))
        p

  calls-message :
      (N t v n result : ℕ) (bs : List (List ℕ)) (body : M ProtocolBuffer (Unit {0}))
      → body ≡ write_chunks bs (return tt)
      → Goes bs
      → length (concat bs) + 7 ≡ N
      → N < 2 ^ 64
      → heap.new_char N ≡ some fresh
      → calls N t v n body result
        ≡ (ok result, holding N ((t % 256) ∷ (be32 v ++ be16 n ++ concat bs)) [])
  unfolding write_byte write_int write_short
  calls-message N t v n result bs body b g l w e =
      ap (λ k. calls N t v n k result) b
      ∙ ap (λ k. (allocate N >> (write_byte t >> (write_int v >> (write_short n >> k)))) p)
          (fun_ext (write_chunks-then bs (return result)))
      ∙ allocate-chunks N w (return result) ((t % 256 ∷ []) ∷ be32 v ∷ be16 n ∷ bs) fresh p
          (omega arith, (omega arith, (omega arith, g))) (omega arith) e

  pub write_descriptor-message :
      (s : ResultSet)
      → s.row_descr_size ≡ columns_size s.column_list
      → columns_size s.column_list < 2 ^ 31 - 7
      → heap.new_char (7 + columns_size s.column_list) ≡ some fresh
      → write_descriptor s p ≡ (
        ok (6 + columns_size s.column_list),
        holding (7 + columns_size s.column_list) (descriptor_message s.column_list) [],
      )
  unfolding write_descriptor calculate_row_descr_size write_byte write_int write_short
  write_descriptor-message s d h e =
      let n = columns_size s.column_list in
      let c : calculate_row_descr_size s ≡ 6 + n = omega arith in
      let t : (to_size (6 + n) + 1) % 2 ^ 64 ≡ 7 + n = ground arith in
      ap
        (λ m.
          calls ((to_size m + 1) % 2 ^ 64) b'T' m (length s.column_list % 2 ^ 16)
            (write_columns s.column_list) m)
        c
      ∙ ap
          (λ m.
            calls m b'T' (6 + n) (length s.column_list % 2 ^ 16) (write_columns s.column_list)
              (6 + n))
          t
      ∙ calls-message (7 + n) b'T' (6 + n) (length s.column_list % 2 ^ 16) (6 + n)
          (columns_chunks s.column_list) (write_columns s.column_list)
          (write_columns-chunks s.column_list) (columns_chunks-Goes s.column_list)
          (omega (arith, length-columns_chunks s.column_list)) (omega arith) e

  -- The numbers that the message of a row passes on.
  pub write_row-calls :
      (r : Columns)
      → r.row_size ≡ values_size r.values
      → values_size r.values < 2 ^ 31 - 7
      → write_row r p
        ≡ calls
            (7 + values_size r.values)
            b'D'
            (6 + values_size r.values)
            (length r.values % 2 ^ 16)
            (write_values r.values)
            (7 + values_size r.values)
  unfolding write_row
  write_row-calls r d h =
      let n = values_size r.values in
      let l = length r.values % 2 ^ 16 in
      let c : (5 + 2 + r.row_size) % 2 ^ 32 ≡ 7 + n = omega arith in
      let t : to_size (7 + n) ≡ 7 + n = ground arith in
      let u : (7 + n + 2 ^ 32 - 1) % 2 ^ 32 ≡ 6 + n = omega arith in
      ap (λ m. calls (to_size m) b'D' ((m + 2 ^ 32 - 1) % 2 ^ 32) l (write_values r.values) m) c
      ∙ ap (λ m. calls m b'D' ((7 + n + 2 ^ 32 - 1) % 2 ^ 32) l (write_values r.values) (7 + n)) t
      ∙ ap (λ m. calls (7 + n) b'D' m l (write_values r.values) (7 + n)) u

  pub write_row-message :
      (r : Columns)
      → Sendable r
      → heap.new_char (7 + values_size r.values) ≡ some fresh
      → write_row r p ≡ (
        ok (7 + values_size r.values),
        holding (7 + values_size r.values) (row_message r.values) [],
      )
  write_row-message r d e =
      let n = values_size r.values in
      write_row-calls r d.sized d.small
      ∙ calls-message (7 + n) b'D' (6 + n) (length r.values % 2 ^ 16) (7 + n)
          (values_chunks r.values) (write_values r.values)
          (write_values-chunks r.values d.exact (omega (arith, d.small)))
          (values_chunks-Goes r.values d.filled) (omega (arith, length-values_chunks r.values))
          (omega (arith, d.small)) e
