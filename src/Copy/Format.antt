-- ===== src/Copy/Format.antt =====
-- Class PGProtoCopyFormat (src/protocol/pgproto-copy.cxx): the formats of the columns of a COPY.
-- A short is its bit pattern.
use pg_backup_ctl_plus.Base.{
  ℕ, zero, suc, Bool, Option, none, some, List, [], ◌∷◌, leb, ◌==◌, if◌then◌else◌, replicate,
  get_elem?,
}
use pg_backup_ctl_plus.Base.Result.{copy_protocol_failure, undefined_behaviour, Result, ok, err, M}

-- The enumerators of PGProtoCopyFormatType.
abbrev pub copy_text : ℕ
copy_text = 0

abbrev pub copy_binary : ℕ
copy_binary = 1

-- `formats` is the array behind the pointer, which the constructor allocates with `cols` elements.
pub record CopyFormat : Type 0 where
  pub formats : List ℕ
  pub cols : ℕ
  pub copy_format_type : ℕ

-- The constructor.
unfoldable pub new_copy_format : ℕ → Bool → CopyFormat
new_copy_format num_cols all_binary =
    let format = if all_binary then copy_binary else copy_text in
    record { formats = replicate num_cols format; cols = num_cols; copy_format_type = format }

-- The loop over the columns of `setFormat`.
abbrev pub texts : List ℕ → List ℕ
texts [] = []
texts (x ∷ xs) = 0 ∷ texts xs

-- PGProtoCopyFormat::setFormat
unfoldable pub set_format : ℕ → M CopyFormat (Unit {0})
set_format format_type f =
    let f' = record f { copy_format_type = format_type } in
    if format_type == 0
    then (ok tt, record f' { formats = texts f.formats })
    else if format_type == 1
    then (ok tt, f')
    else (err copy_protocol_failure, f')

-- PGProtoCopyFormat::get, and the operator [] that calls it. The index is compared with cols - 1
-- as an int.
unfoldable pub get : ℕ → CopyFormat → Result ℕ
get idx f =
    if leb f.cols idx
    then err copy_protocol_failure
    else elim (get_elem? f.formats idx) [ none ↦ err undefined_behaviour | some v ↦ ok v ]

abbrev pub set_elem : List ℕ → ℕ → ℕ → Option (List ℕ)
set_elem [] i v = none
set_elem (x ∷ xs) zero v = some (v ∷ xs)
set_elem (x ∷ xs) (suc i) v = elim (set_elem xs i v) [ none ↦ none | some ys ↦ some (x ∷ ys) ]

-- PGProtoCopyFormat::set
unfoldable pub set : ℕ → ℕ → M CopyFormat (Unit {0})
set idx value f =
    if leb f.cols idx then (err copy_protocol_failure, f) else elim (set_elem f.formats idx value) [
      | none ↦ (err undefined_behaviour, f)
      | some fs ↦ (ok tt, record f { formats = fs })
    ]
