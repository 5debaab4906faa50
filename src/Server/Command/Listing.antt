-- ===== src/Server/Command/Listing.antt =====
-- What LIST_BASEBACKUPS (src/parser/pgproto-commands.cxx) writes.
use pg_backup_ctl_plus.Base.{
  ℕ, suc, ◌+◌, ◌-◌, ◌%◌, ◌^◌, ◌<◌, ◌≡◌, refl, ap, sym, ◌∙◌, false, Option, none, some, List, [],
  ◌∷◌, ◌++◌, arith, length, All, map, append_assoc, append-nil,
}
use pg_backup_ctl_plus.Base.Int.{pos, negsuc}
use pg_backup_ctl_plus.Base.Result.{ok}
use pg_backup_ctl_plus.Buffer.Memory.{Heap}
use pg_backup_ctl_plus.Buffer.Protocol.{ProtocolBuffer}
use pg_backup_ctl_plus.Server.ResultSet.{
  ColumnData, Columns, ColumnDescr, ResultSet, add_sizes, add_row, add_column,
}
use pg_backup_ctl_plus.Server.ResultSet.Sent.{
  values_size, descriptor_message, row_message, Sendable,
}
use pg_backup_ctl_plus.Server.Command.{
  Command, Outgoing, Listed, Printer, column, list_basebackups, prepare_list_of_backups, list_set,
  add_backups, add_plain, send_steps,
}
use pg_backup_ctl_plus.Server.Command.Steps.{command, send_steps-rows}

-- A column of text.
abbrev pub text_column : List ℕ → ColumnDescr
text_column name = record {
  name = name;
  tableoid = 0;
  attnum = 0;
  typeoid = 25;
  typelen = 2 ^ 16 - 1;
  typemod = 0;
  format = 0;
}

abbrev pub list_columns : List ColumnDescr
list_columns =
    text_column (b'i' ∷ b'd' ∷ [])
    ∷ text_column (b'f' ∷ b's' ∷ b'e' ∷ b'n' ∷ b't' ∷ b'r' ∷ b'y' ∷ [])
    ∷ text_column (b's' ∷ b't' ∷ b'a' ∷ b'r' ∷ b't' ∷ b'e' ∷ b'd' ∷ [])
    ∷ text_column (b'd' ∷ b'u' ∷ b'r' ∷ b'a' ∷ b't' ∷ b'i' ∷ b'o' ∷ b'n' ∷ [])
    ∷ []

module _ ⦃printer : Printer⦄ where
  abbrev pub list_row : Listed → List ColumnData
  list_row b =
      column (printer.show_int b.id) ∷ column b.fsentry ∷ column b.started ∷ column b.duration ∷ []

  abbrev row_of : Listed → Columns
  row_of b = record { row_size = add_sizes 0 (list_row b); values = list_row b }

  abbrev set_with : List Columns → ℕ → Option ℕ → ResultSet
  set_with rows count i = record {
    row_descr_size = 100;
    count = count;
    column_list = list_columns;
    row_values = rows;
    row_iterator = i;
  }

  add_backups-rows :
      (bs : List Listed) (rows : List Columns) (count : ℕ) (i : Option ℕ)
      → (count' : ℕ) × (i' : Option ℕ) × (add_backups bs (set_with rows count i)
          ≡ (ok tt, set_with (rows ++ map row_of bs) count' i'))
  unfolding add_backups add_row
  add_backups-rows [] rows count i =
      (count, i, ap (λ r. (ok tt, set_with r count i)) (sym (append-nil rows)))
  add_backups-rows (b ∷ bs) rows count i =
      let (n, j, e) = add_backups-rows bs (rows ++ row_of b ∷ []) ((count + 1) % 2 ^ 16) none in
      (
        n,
        j,
        e ∙ ap (λ r. (ok tt, set_with r n j)) (append_assoc rows (row_of b ∷ []) (map row_of bs)),
      )

  -- A basebackup whose row can be sent.
  abbrev pub Complete : Listed → Type 0
  Complete b = (0 < length b.duration) × (values_size (list_row b) < 2 ^ 31 - 7)

  row_of-Sendable : (b : Listed) → Complete b → Sendable (row_of b)
  unfolding add_sizes
  row_of-Sendable b h = record {
    sized = omega arith;
    exact = (refl, (refl, (refl, (refl, tt))));
    filled = h.0;
    small = h.1;
  }

  rows-Sendable : (bs : List Listed) → All Complete bs → All Sendable (map row_of bs)
  rows-Sendable [] h = tt
  rows-Sendable (b ∷ bs) h = (row_of-Sendable b h.0, rows-Sendable bs h.1)

  messages :
      (bs : List Listed)
      → map (λ r. row_message r.values) (map row_of bs) ≡ map (λ b. row_message (list_row b)) bs
  messages [] = refl
  messages (b ∷ bs) = ap (λ l. row_message (list_row b) ∷ l) (messages bs)

  length-rows : (bs : List Listed) → length (map row_of bs) ≡ length bs
  length-rows [] = refl
  length-rows (b ∷ bs) = ap suc (length-rows bs)

  -- Where every basebackup has a duration and rows below 2^31 - 7 bytes, and allocations below 2^31
  -- bytes succeed, LIST_BASEBACKUPS prepares its result set, and the loop over its steps ends after two
  -- rounds more than there are basebackups. It has then started, in this order, a write of a buffer with
  -- the message for the columns and one with exactly one message for each basebackup of the list, and
  -- no write has finished meanwhile.
  pub list_basebackups-writes :
      ⦃heap : Heap⦄ (grants : (n : ℕ) → n < 2 ^ 31 → (b : List ℕ) × (heap.new_char n ≡ some b))
      (bs : List Listed) (o : Outgoing)
      → All Complete bs
      → (c c' : Command) × (p : ProtocolBuffer) × (prepare_list_of_backups bs list_basebackups
          ≡ (ok tt, c))
        × (send_steps (suc (suc (length bs))) (o, c) ≡ (
          ok tt,
          (
            record {
              write_buffer = p;
              started =
                  o.started
                  ++ descriptor_message list_columns ∷ map (λ b. row_message (list_row b)) bs;
              finished = o.finished;
            },
            c',
          ),
        ))
  unfolding prepare_list_of_backups list_set add_plain add_column
  list_basebackups-writes ⦃heap⦄ grants bs o h =
      let rows = map row_of bs in
      let (n, i, e) = add_backups-rows bs [] 0 none in
      let (p, s) =
        send_steps-rows grants 100 n list_columns false rows i o refl (omega arith)
          (rows-Sendable bs h) in
      let start = command grants 100 n list_columns false rows i (pos 0) in
      let end = command grants 100 n list_columns false rows (some (length rows)) (negsuc 0) in
      let m = descriptor_message list_columns in
      (
        start,
        end,
        p,
        ap (λ (r, s). (r, record list_basebackups { result_set = some s })) e,
        ap (λ k. send_steps (suc (suc k)) (o, start)) (sym (length-rows bs))
            ∙ s
            ∙ ap (λ l. (ok tt, (record o { write_buffer = p; started = o.started ++ m ∷ l }, end)))
                (messages bs),
      )
