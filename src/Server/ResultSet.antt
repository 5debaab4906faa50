-- ===== src/Server/ResultSet.antt =====
-- Class PGProtoResultSet (src/protocol/proto-types.cxx, include/proto/pgsql-proto.hxx): columns and
-- rows, and the messages that are made of them. An `int` or a `short` is its bit pattern.
pub mod Sent
pub mod Refused
use pg_backup_ctl_plus.Base.{
  ℕ, zero, suc, ◌+◌, ◌-◌, ◌%◌, ◌^◌, Bool, true, false, not, Option, none, some, List, [], ◌∷◌, ◌++◌,
  ltb, ◌==◌, if◌then◌else◌, length, get_elem?,
}
use pg_backup_ctl_plus.Base.Result.{
  undefined_behaviour, tcp_server_failure, Result, ok, err, M, ◌>>=◌, ◌>>◌, return, lift, gets,
  guard, modify, bind_result,
}
use pg_backup_ctl_plus.Buffer.Memory.{Heap, first_bytes, copied}
use pg_backup_ctl_plus.Buffer.Protocol.{
  ProtocolBuffer, allocate, write_buffer, write_byte, write_short, write_int,
}
use pg_backup_ctl_plus.Copy.State.{to_size}

-- PGProtoColumnDataDescr
pub record ColumnData : Type 0 where
  pub data_length : ℕ
  pub value : List ℕ

-- PGProtoColumns
pub record Columns : Type 0 where
  pub row_size : ℕ
  pub values : List ColumnData

-- PGProtoColumnDescr
pub record ColumnDescr : Type 0 where
  pub name : List ℕ
  pub tableoid : ℕ
  pub attnum : ℕ
  pub typeoid : ℕ
  pub typelen : ℕ
  pub typemod : ℕ
  pub format : ℕ

-- The row descriptor and the data descriptor are members. The iterator is the index of a row; it is
-- `none` where it was not set since the rows changed, which makes it invalid.
pub record ResultSet : Type 0 where
  pub row_descr_size : ℕ
  pub count : ℕ
  pub column_list : List ColumnDescr
  pub row_values : List Columns
  pub row_iterator : Option ℕ

abbrev pub new_result_set : ResultSet
new_result_set = record {
  row_descr_size = 0;
  count = 0;
  column_list = [];
  row_values = [];
  row_iterator = none;
}

-- PGProtoResultSet::clear
unfoldable pub clear : ResultSet → ResultSet
clear s = new_result_set

-- PGProtoResultSet::addColumn. The argument for the length of the type is not stored.
unfoldable pub add_column : List ℕ → ℕ → ℕ → ℕ → ℕ → ℕ → ℕ → ResultSet → ResultSet
add_column name tableoid attnum typeoid typelen typemod format s =
    let coldef : ColumnDescr = record {
      name = name;
      tableoid = tableoid;
      attnum = attnum;
      typeoid = typeoid;
      typelen = 2 ^ 16 - 1;
      typemod = typemod;
      format = format;
    } in
    record s {
      row_descr_size = (s.row_descr_size + (length name + 1) + 18) % 2 ^ 32;
      column_list = s.column_list ++ coldef ∷ [];
    }

-- The size of a row that addRow computes.
unfoldable pub add_sizes : ℕ → List ColumnData → ℕ
add_sizes size [] = size
add_sizes size (c ∷ cs) = add_sizes ((size + (4 + c.data_length)) % 2 ^ 32) cs

-- PGProtoResultSet::addRow
unfoldable pub add_row : List ColumnData → M ResultSet (Unit {0})
unfolding add_sizes
add_row values s =
    if length s.column_list % 2 ^ 32 == length values
    then (
      ok tt,
      record s {
        count = (s.count + 1) % 2 ^ 16;
        row_values = s.row_values ++ record { row_size = add_sizes 0 values; values = values } ∷ [];
        row_iterator = none;
      },
    )
    else (err tcp_server_failure, s)

-- PGProtoResultSet::calculateRowDescrSize
unfoldable pub calculate_row_descr_size : ResultSet → ℕ
calculate_row_descr_size s = (4 + 2 + s.row_descr_size) % 2 ^ 32

-- The loop over the columns of the descriptor.
unfoldable pub write_columns : List ColumnDescr → M ProtocolBuffer (Unit {0})
unfolding write_buffer write_byte write_int write_short
write_columns [] = return tt
write_columns (c ∷ cs) = do
  write_buffer c.name
  write_byte 0
  write_int c.tableoid
  write_short c.attnum
  write_int c.typeoid
  write_short c.typelen
  write_int c.typemod
  write_short c.format
  write_columns cs

-- What is copied from the text of a value, which ends with a null byte.
abbrev pub value_bytes : ColumnData → Result (List ℕ)
value_bytes c = copied (first_bytes (to_size c.data_length) (c.value ++ 0 ∷ []))

-- The loop over the values of a row.
unfoldable pub write_values : List ColumnData → M ProtocolBuffer (Unit {0})
unfolding write_buffer write_int first_bytes
write_values [] = return tt
write_values (c ∷ cs) = do
  write_int c.data_length
  bs ← lift (value_bytes c)
  write_buffer bs
  write_values cs

module _ ⦃heap : Heap⦄ where
  -- PGProtoResultSet::prepareSend for the row descriptor.
  unfoldable pub write_descriptor : ResultSet → M ProtocolBuffer ℕ
  unfolding calculate_row_descr_size write_columns allocate write_byte write_int write_short
  write_descriptor s = do
    let size = calculate_row_descr_size s
    allocate ((to_size size + 1) % 2 ^ 64)
    write_byte b'T'
    write_int size
    write_short (length s.column_list % 2 ^ 16)
    write_columns s.column_list
    return size

  -- PGProtoResultSet::prepareSend for the row that the iterator is at.
  unfoldable pub write_row : Columns → M ProtocolBuffer ℕ
  unfolding write_values allocate write_byte write_int write_short
  write_row r = do
    let size = (5 + 2 + r.row_size) % 2 ^ 32
    allocate (to_size size)
    write_byte b'D'
    write_int ((size + 2 ^ 32 - 1) % 2 ^ 32)
    write_short (length r.values % 2 ^ 16)
    write_values r.values
    return size

  abbrev pub on_buffer : {A : Type 0} → M ProtocolBuffer A → M (ProtocolBuffer × ResultSet) A
  on_buffer m (p, s) = let (r, p') = m p in (r, (p', s))

  abbrev pub set_iterator : ℕ → M (ProtocolBuffer × ResultSet) (Unit {0})
  set_iterator i (p, s) = (ok tt, (p, record s { row_iterator = some i }))

  -- PGProtoResultSet::descriptor
  unfoldable pub descriptor : M (ProtocolBuffer × ResultSet) ℕ
  unfolding write_descriptor
  descriptor = do set_iterator 0; s ← gets (λ (p, s). s); on_buffer (write_descriptor s)

  -- PGProtoResultSet::data, where the iterator is at an index.
  abbrev pub data_at : ℕ → Option Columns → M (ProtocolBuffer × ResultSet) ℕ
  data_at i none = return 0
  data_at i (some r) = do size ← on_buffer (write_row r); set_iterator (suc i); return size

  unfoldable pub next_data : M (ProtocolBuffer × ResultSet) ℕ
  unfolding write_row
  next_data (p, s) = elim s.row_iterator [
    | none ↦ (err undefined_behaviour, (p, s))
    | some i ↦ data_at i (get_elem? s.row_values i) (p, s)
  ]

-- PGProtoResultSet::rowCount, a short that becomes unsigned.
abbrev pub row_count : ResultSet → ℕ
row_count s = if ltb s.count (2 ^ 15) then s.count else s.count + 2 ^ 32 - 2 ^ 16
