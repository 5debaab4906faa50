-- ===== src/Wal/Text/Scan.antt =====
-- The conversion `%X` of sscanf, which PGStream::decodeXLOGPos relies on.
use pg_backup_ctl_plus.Base.{
  ℕ, ◌+◌, ◌-◌, ◌*◌, ◌%◌, ◌^◌, Bool, true, false, ◌&&◌, ◌||◌, List, [], ◌∷◌, ltb, leb, ◌==◌,
  if◌then◌else◌, Option, none, some,
}

abbrev pub between : ℕ → ℕ → ℕ → Bool
between lo hi c = leb lo c && leb c hi

unfoldable pub is_space : ℕ → Bool
is_space c = c == b' ' || between 9 13 c

unfoldable pub hex_value : ℕ → Option ℕ
hex_value c =
    if between b'0' b'9' c
    then some (c - b'0')
    else if between b'a' b'f' c
    then some (c - b'a' + 10)
    else if between b'A' b'F' c
    then some (c - b'A' + 10)
    else none

abbrev pub max_ulong : ℕ
max_ulong = 2 ^ 64 - 1

abbrev pub saturate : ℕ → ℕ
saturate n = if ltb max_ulong n then max_ulong else n

-- The value of the leading digits, on top of `acc`, and what follows them.
unfoldable pub scan_digits : List ℕ → ℕ → ℕ × List ℕ
scan_digits [] acc = (acc, [])
scan_digits (c ∷ cs) acc = elim (hex_value c) [
  | some d ↦ scan_digits cs (saturate (acc * 16 + d))
  | none ↦ (acc, c ∷ cs)
]

-- At least one digit is wanted.
unfoldable pub scan_number : List ℕ → Option (ℕ × List ℕ)
unfolding scan_digits
scan_number [] = none
scan_number (c ∷ cs) = elim (hex_value c) [ some d ↦ some (scan_digits cs d) | none ↦ none ]

unfoldable pub skip_space : List ℕ → List ℕ
unfolding is_space
skip_space [] = []
skip_space (c ∷ cs) = if is_space c then skip_space cs else c ∷ cs

unfoldable pub strip_prefix : List ℕ → List ℕ
strip_prefix [] = []
strip_prefix (a ∷ []) = a ∷ []
strip_prefix (a ∷ b ∷ cs) = if a == b'0' && (b == b'x' || b == b'X') then cs else a ∷ b ∷ cs

abbrev pub store : Bool → ℕ × List ℕ → ℕ × List ℕ
store negative (n, rest) =
    ((if negative && ltb n max_ulong then (2 ^ 64 - n) % 2 ^ 64 else n) % 2 ^ 32, rest)

unfoldable pub unsigned_part : Bool → List ℕ → Option (ℕ × List ℕ)
unfolding scan_number strip_prefix
unsigned_part negative cs = elim (scan_number (strip_prefix cs)) [
  | some r ↦ some (store negative r)
  | none ↦ none
]

unfoldable pub signed_part : List ℕ → Option (ℕ × List ℕ)
unfolding unsigned_part
signed_part [] = none
signed_part (c ∷ cs) =
    if c == b'-'
    then unsigned_part true cs
    else if c == b'+'
    then unsigned_part false cs
    else unsigned_part false (c ∷ cs)

unfoldable pub scan_hex : List ℕ → Option (ℕ × List ℕ)
unfolding skip_space signed_part
scan_hex cs = signed_part (skip_space cs)
