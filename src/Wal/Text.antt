-- ===== src/Wal/Text.antt =====
-- Positions as texts: PGStream::encodeXLOGPos and PGStream::decodeXLOGPos (src/backup/stream.cxx).
-- The two use the C and C++ libraries: `std::hex` prints lower-case digits with no leading zeros,
-- and `%X` of sscanf skips white space and reads a sign, a prefix 0x and digits of both cases, as
-- strtoul does (a value that is too large is the largest unsigned long), and keeps 32 bits.
pub mod Scan
pub mod RoundTrip
use pg_backup_ctl_plus.Base.{
  ℕ, zero, suc, ◌+◌, ◌-◌, ◌*◌, ◌/◌, ◌%◌, ◌^◌, ◌≡◌, List, [], ◌∷◌, ◌++◌, ltb, ◌==◌, if◌then◌else◌,
  Option, none, some,
}
use pg_backup_ctl_plus.Base.Result.{Result, ok, err, streaming_failure}
use Scan.{scan_hex}

unfoldable pub hex_digit : ℕ → ℕ
hex_digit d = if ltb d 10 then d + b'0' else d - 10 + b'a'

-- Eight digits hold 32 bits.
unfoldable pub print_hex : ℕ → ℕ → List ℕ
print_hex zero n = []
print_hex (suc fuel) n =
    let more = print_hex fuel (n / 16) ++ hex_digit (n % 16) ∷ [] in
    if ltb n 16 then hex_digit n ∷ [] else more

unfoldable pub encode_xlog_pos : ℕ → List ℕ
encode_xlog_pos pos = print_hex 8 (pos / 2 ^ 32 % 2 ^ 32) ++ (b'/' ∷ print_hex 8 (pos % 2 ^ 32))

-- The rest of the format after its first conversion.
unfoldable pub decode_low : ℕ → List ℕ → Result ℕ
decode_low hi [] = err streaming_failure
decode_low hi (c ∷ cs) =
    if c == b'/'
    then elim (scan_hex cs) [
      | some (lo, rest) ↦ ok (hi * 2 ^ 32 + lo)
      | none ↦ err streaming_failure
    ]
    else err streaming_failure

unfoldable pub decode_xlog_pos : List ℕ → Result ℕ
unfolding decode_low
decode_xlog_pos text = elim (scan_hex text) [
  | some (hi, rest) ↦ decode_low hi rest
  | none ↦ err streaming_failure
]
