-- ===== src/Server/Command/Steps.antt =====
-- What the loop over the steps of a command (src/jobs/server.cxx, src/parser/pgproto-commands.cxx)
-- writes of its result set.
use pg_backup_ctl_plus.Base.{
  ℕ, suc, ◌+◌, ◌-◌, ◌^◌, ◌<◌, ◌≡◌, refl, ap, sym, ◌∙◌, Bool, true, false, Option, none, some, List,
  [], ◌∷◌, ◌++◌, arith, length, All, map, append_assoc, append-nil, get_elem?, take,
  take-length-append, ◌==◌, ◌||◌, leb,
}
use pg_backup_ctl_plus.Base.Int.{ℤ, pos, negsuc, eq_ℤ}
use pg_backup_ctl_plus.Base.Result.{Result, ok, bind_result}
use pg_backup_ctl_plus.Buffer.Memory.{Heap}
use pg_backup_ctl_plus.Buffer.Memory
use pg_backup_ctl_plus.Buffer.Protocol.{ProtocolBuffer}
use pg_backup_ctl_plus.Buffer.Protocol.Content.{holding}
use pg_backup_ctl_plus.Server.ResultSet.{Columns, ColumnDescr, ResultSet, descriptor, next_data}
use pg_backup_ctl_plus.Server.ResultSet.Sent.{
  columns_size, values_size, descriptor_message, row_message, length-descriptor_message,
  length-row_message, Sendable, write_descriptor-message, write_row-message,
}
use pg_backup_ctl_plus.Server.Command.{
  Command, step, first_step, data_step, Outgoing, start_write, on_outgoing, send_steps,
}

-- The rows from an index on.
abbrev From : List Columns → ℕ → List Columns → Type 0
From rows i [] = get_elem? rows i ≡ none
From rows i (r ∷ rest) = (get_elem? rows i ≡ some r) × From rows (suc i) rest

From-cons :
    (x : Columns) (rows : List Columns) (i : ℕ) (rest : List Columns)
    → From rows i rest
    → From (x ∷ rows) (suc i) rest
From-cons x rows i [] h = h
From-cons x rows i (r ∷ rest) h = (h.0, From-cons x rows (suc i) rest h.1)

From-start : (rows : List Columns) → From rows 0 rows
From-start [] = refl
From-start (x ∷ rows) = (refl, From-cons x rows 0 rows (From-start rows))

pub start_write-holding :
    (bs : List ℕ) (o : Outgoing) (N : ℕ)
    → length bs ≡ N
    → start_write (record o { write_buffer = holding N bs [] })
      ≡ (ok tt, record o { write_buffer = holding N bs []; started = o.started ++ bs ∷ [] })
unfolding start_write Memory.ptr
start_write-holding bs o N e =
    ap (λ x. (ok tt, record o { write_buffer = holding N bs []; started = o.started ++ x ∷ [] }))
      (ap (λ n. take n (bs ++ [])) (sym e) ∙ take-length-append bs [])

-- The step before the first row, and the one before a later row.
abbrev stage : Bool → ℤ
stage true = pos 1
stage false = pos 2

module _ ⦃heap : Heap⦄ (grants : (n : ℕ) → n < 2 ^ 31 → (b : List ℕ) × (heap.new_char n ≡ some b))
    (size count : ℕ) (columns : List ColumnDescr) (needs : Bool) where
  -- A command with a result set at a row.
  abbrev pub command : List Columns → Option ℕ → ℤ → Command
  command rows i t = record {
    result_set = some (record {
      row_descr_size = size;
      count = count;
      column_list = columns;
      row_values = rows;
      row_iterator = i;
    });
    current_step = t;
    needs_archive_access = needs;
  }

  step-row :
      (first : Bool) (r : Columns) (rows : List Columns) (i : ℕ) (p : ProtocolBuffer)
      → get_elem? rows i ≡ some r
      → Sendable r
      → step (p, command rows (some i) (stage first)) ≡ (
        ok (pos 2),
        (
          holding (7 + values_size r.values) (row_message r.values) [],
          command rows (some (suc i)) (pos 2),
        ),
      )
  unfolding step data_step next_data
  step-row true r rows i p g d =
      let (b, e) = grants (7 + values_size r.values) (omega (arith, d.small)) in
      let t : (7 + values_size r.values == 0 || leb (2 ^ 31) (7 + values_size r.values)) ≡ false =
        ground (arith, d.small) in
      rw (g) (rw (write_row-message p b r d e) (rw t refl))
  step-row false r rows i p g d =
      let (b, e) = grants (7 + values_size r.values) (omega (arith, d.small)) in
      let t : (7 + values_size r.values == 0 || leb (2 ^ 31) (7 + values_size r.values)) ≡ false =
        ground (arith, d.small) in
      rw (g) (rw (write_row-message p b r d e) (rw t refl))

  step-end :
      (first : Bool) (rows : List Columns) (i : ℕ) (p : ProtocolBuffer)
      → get_elem? rows i ≡ none
      → step (p, command rows (some i) (stage first))
        ≡ (ok (negsuc 0), (p, command rows (some i) (negsuc 0)))
  unfolding step data_step next_data
  step-end true rows i p g = rw g refl
  step-end false rows i p g = rw g refl

  step-first :
      (rows : List Columns) (i : Option ℕ) (p : ProtocolBuffer)
      → size ≡ columns_size columns
      → columns_size columns < 2 ^ 31 - 7
      → step (p, command rows i (pos 0)) ≡ (
        ok (pos 1),
        (
          holding (7 + columns_size columns) (descriptor_message columns) [],
          command rows (some 0) (pos 1),
        ),
      )
  unfolding step first_step descriptor
  step-first rows i p d h =
      let (b, e) = grants (7 + columns_size columns) (omega arith) in
      let s : ResultSet = record {
        row_descr_size = size;
        count = count;
        column_list = columns;
        row_values = rows;
        row_iterator = some 0;
      } in
      rw (write_descriptor-message p b s d h e) refl

  -- A round of the loop that does not end it.
  send-round :
      (n : ℕ) (o o' : Outgoing) (c c' : Command) (p : ProtocolBuffer) (i : ℤ)
      → step (o.write_buffer, c) ≡ (ok i, (p, c'))
      → eq_ℤ i (negsuc 0) ≡ false
      → start_write (record o { write_buffer = p }) ≡ (ok tt, o')
      → send_steps (suc n) (o, c) ≡ send_steps n (o', c')
  unfolding send_steps
  send-round n o o' c c' p i e f g = rw e (
      rw (f, bind_result)
        (ap (λ r. bind_result (on_outgoing (λ w. r) (o, c')) (λ u. send_steps n)) g))

  -- Where the loop ends.
  abbrev pub all_started :
      List Columns
      → ProtocolBuffer
      → Outgoing
      → List (List ℕ)
      → ℕ
      → Result (Unit {0}) × (Outgoing × Command)
  all_started rows p o ms n =
      (ok tt, (record o { write_buffer = p; started = ms }, command rows (some n) (negsuc 0)))

  -- The loop from a row on.
  rows-started :
      (first : Bool) (rows : List Columns) (i : ℕ) (rest : List Columns) (o : Outgoing)
      → From rows i rest
      → All Sendable rest
      → (p : ProtocolBuffer) × (send_steps
            (suc (length rest))
            (o, command rows (some i) (stage first))
          ≡ all_started rows p o
              (o.started ++ map (λ r. row_message r.values) rest)
              (i + length rest))
  unfolding send_steps
  rows-started first rows i [] o f a = (
    o.write_buffer,
    rw (step-end first rows i o.write_buffer f) (
        ap (λ l. all_started rows o.write_buffer o l i) (sym (append-nil o.started))
        ∙ ap (λ n. all_started rows o.write_buffer o (o.started ++ []) n) (omega arith)),
  )
  rows-started first rows i (r ∷ rest) o f a =
      let N = 7 + values_size r.values in
      let m = row_message r.values in
      let (p, ih) =
        rows-started false rows (suc i) rest
          (record o { write_buffer = holding N m []; started = o.started ++ m ∷ [] }) f.1 a.1 in
      (
        p,
        send-round (suc (length rest)) o
              (record o { write_buffer = holding N m []; started = o.started ++ m ∷ [] })
              (command rows (some i) (stage first)) (command rows (some (suc i)) (pos 2))
              (holding N m []) (pos 2) (step-row first r rows i o.write_buffer f.0 a.0) refl
              (start_write-holding m o N (length-row_message r.values))
            ∙ ih
            ∙ ap (λ l. all_started rows p o l (suc i + length rest))
                (append_assoc o.started (m ∷ []) (map (λ r. row_message r.values) rest))
            ∙ ap
                (λ n.
                  all_started rows p o (o.started ++ m ∷ map (λ r. row_message r.values) rest) n)
                (omega arith),
      )

  pub send_steps-rows :
      (rows : List Columns) (i : Option ℕ) (o : Outgoing)
      → size ≡ columns_size columns
      → columns_size columns < 2 ^ 31 - 7
      → All Sendable rows
      → (p : ProtocolBuffer) × (send_steps (suc (suc (length rows))) (o, command rows i (pos 0))
          ≡ all_started rows p o
              (o.started ++ descriptor_message columns ∷ map (λ r. row_message r.values) rows)
              (length rows))
  unfolding send_steps
  send_steps-rows rows i o d h a =
      let N = 7 + columns_size columns in
      let m = descriptor_message columns in
      let (p, t) =
        rows-started true rows 0 rows
          (record o { write_buffer = holding N m []; started = o.started ++ m ∷ [] })
          (From-start rows) a in
      (
        p,
        send-round (suc (length rows)) o
              (record o { write_buffer = holding N m []; started = o.started ++ m ∷ [] })
              (command rows i (pos 0)) (command rows (some 0) (pos 1)) (holding N m []) (pos 1)
              (step-first rows i o.write_buffer d h) refl
              (start_write-holding m o N (length-descriptor_message columns))
            ∙ t
            ∙ ap (λ l. all_started rows p o l (0 + length rows))
                (append_assoc o.started (m ∷ []) (map (λ r. row_message r.values) rows))
            ∙ ap
                (λ n.
                  all_started rows p o (o.started ++ m ∷ map (λ r. row_message r.values) rows) n)
                (omega arith),
      )
