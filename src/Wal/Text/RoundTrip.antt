-- ===== src/Wal/Text/RoundTrip.antt =====
-- What is printed is read back (src/backup/stream.cxx).
use native.Mathlib.Nat.{pow-suc}
use pg_backup_ctl_plus.Base.{
  ℕ, zero, suc, ◌+◌, ◌*◌, ◌/◌, ◌%◌, ◌^◌, ◌<◌, ◌≡◌, refl, ap, ◌∙◌, false, List, [], ◌∷◌, ◌++◌, ltb,
  ◌==◌, some, arith, append_assoc, Bool-cases, inl, inr, All, length, append-nil,
}
use pg_backup_ctl_plus.Base.Result.{ok}
use pg_backup_ctl_plus.Wal.Text.{hex_digit, print_hex, encode_xlog_pos, decode_low, decode_xlog_pos}
use pg_backup_ctl_plus.Wal.Text.Scan.{
  hex_value, scan_digits, scan_number, skip_space, is_space, strip_prefix, unsigned_part, scan_hex,
  saturate, store,
}

hex_value-hex_digit : (d : ℕ) → d < 16 → hex_value (hex_digit d) ≡ some d
unfolding hex_value hex_digit
hex_value-hex_digit d h = ground arith

scan_digits-hex_digit :
    (d acc : ℕ) (rest : List ℕ)
    → d < 16
    → acc * 16 + d < 2 ^ 64
    → scan_digits (hex_digit d ∷ rest) acc ≡ scan_digits rest (acc * 16 + d)
unfolding scan_digits
scan_digits-hex_digit d acc rest h w =
    rw (hex_value-hex_digit d h, scan_digits) (ap (scan_digits rest) (fits (acc * 16 + d) w))
  where
    fits : (n : ℕ) → n < 2 ^ 64 → saturate n ≡ n
    fits n k = ground arith

-- Reading the printed digits gives their value.
scan_digits-print_hex :
    (f n : ℕ) (rest : List ℕ)
    → n < 16 ^ f
    → n < 2 ^ 64
    → scan_digits (print_hex f n ++ rest) 0 ≡ scan_digits rest n
unfolding print_hex
scan_digits-print_hex zero n rest h w = let e : n ≡ 0 = omega arith in rw e refl
scan_digits-print_hex (suc f) n rest h w = elim (Bool-cases (ltb n 16)) [
  | inl small ↦ rw small (
      scan_digits-hex_digit n 0 rest (ground arith) (omega arith)
      ∙ ap (scan_digits rest) (omega arith))
  | inr large ↦ rw large (
      rw (append_assoc) (
        scan_digits-print_hex f (n / 16) (hex_digit (n % 16) ∷ rest) (omega (arith, pow-suc 16 f))
          (omega arith)
        ∙ scan_digits-hex_digit (n % 16) (n / 16) rest (omega arith) (omega arith)
        ∙ ap (scan_digits rest) (omega arith)))
]

abbrev IsHex : ℕ → Type 0
IsHex c = (d : ℕ) × (hex_value c ≡ some d)

-- A text that no digit and no prefix continues.
abbrev Ends : List ℕ → Type 0
Ends [] = Unit {0}
Ends (c ∷ cs) = c ≡ b'/'

hex_digit-IsHex : (d : ℕ) → d < 16 → IsHex (hex_digit d)
hex_digit-IsHex d h = (d, hex_value-hex_digit d h)

All-snoc : (xs : List ℕ) (c : ℕ) → All IsHex xs → IsHex c → All IsHex (xs ++ c ∷ [])
All-snoc [] c a h = (h, tt)
All-snoc (x ∷ xs) c a h = (a.0, All-snoc xs c a.1 h)

print_hex-IsHex : (f n : ℕ) → All IsHex (print_hex f n)
unfolding print_hex
print_hex-IsHex zero n = tt
print_hex-IsHex (suc f) n = elim (Bool-cases (ltb n 16)) [
  | inl small ↦ rw small (hex_digit-IsHex n (ground arith), tt)
  | inr large ↦
      rw large (All-snoc _ _ (print_hex-IsHex f (n / 16)) (hex_digit-IsHex (n % 16) (omega arith)))
]

snoc_ne : (xs : List ℕ) (c : ℕ) → 0 < length (xs ++ c ∷ [])
snoc_ne [] c = omega arith
snoc_ne (x ∷ xs) c = omega arith

length-print_hex : (f n : ℕ) → 0 < length (print_hex (suc f) n)
unfolding print_hex
length-print_hex f n = elim (Bool-cases (ltb n 16)) [
  | inl small ↦ rw small (omega arith)
  | inr large ↦ rw large (snoc_ne (print_hex f (n / 16)) _)
]

hex_value-lt : (c d : ℕ) → hex_value c ≡ some d → d < 16
unfolding hex_value
hex_value-lt c d h = ground arith

scan_number-scan_digits :
    (c : ℕ) (cs : List ℕ) → IsHex c → scan_number (c ∷ cs) ≡ some (scan_digits (c ∷ cs) 0)
unfolding scan_number
scan_number-scan_digits c cs (d, e) =
    rw (e, scan_number)
      (rw (e, scan_digits) (ap (λ n. some (scan_digits cs n)) (fits d (hex_value-lt c d e))))
  where
    fits : (n : ℕ) → n < 16 → n ≡ saturate (0 * 16 + n)
    fits n k = ground arith

-- A hexadecimal digit is no white space, no sign, and not the x of a prefix.
plain_digit :
    (c d : ℕ)
    → hex_value c ≡ some d
    → (is_space c ≡ false)
      × ((c == b'-') ≡ false)
      × ((c == b'+') ≡ false)
      × ((c == b'x') ≡ false)
      × ((c == b'X') ≡ false)
unfolding hex_value is_space
plain_digit c d h = ground arith

strip_prefix-plain :
    (a : ℕ) (cs rest : List ℕ)
    → All IsHex cs
    → Ends rest
    → strip_prefix (a ∷ cs ++ rest) ≡ a ∷ cs ++ rest
unfolding strip_prefix
strip_prefix-plain a [] [] h e = refl
strip_prefix-plain a [] (c ∷ rest) h e = ground arith
strip_prefix-plain a (c ∷ cs) rest h e = ground (arith, plain_digit c h.0.0 h.0.1)

scan_hex-digits :
    (xs rest : List ℕ)
    → All IsHex xs
    → 0 < length xs
    → Ends rest
    → scan_hex (xs ++ rest) ≡ some (store false (scan_digits (xs ++ rest) 0))
unfolding scan_hex
scan_hex-digits [] rest h l e = elim l [ ]
scan_hex-digits (c ∷ cs) rest h l e =
    let (space, minus, plus, _, _) = plain_digit c h.0.0 h.0.1 in
    rw (space, skip_space)
      (rw (minus, plus)
        (rw (strip_prefix-plain c cs rest h.1 e, unsigned_part)
          (rw (scan_number-scan_digits c (cs ++ rest) h.0, unsigned_part))))

scan_digits-Ends : (rest : List ℕ) (n : ℕ) → Ends rest → scan_digits rest n ≡ (n, rest)
unfolding scan_digits hex_value
scan_digits-Ends [] n e = refl
scan_digits-Ends (c ∷ cs) n e = ground arith

scan_hex-print_hex :
    (n : ℕ) (rest : List ℕ)
    → n < 2 ^ 32
    → Ends rest
    → scan_hex (print_hex 8 n ++ rest) ≡ some (n, rest)
scan_hex-print_hex n rest h e =
    scan_hex-digits (print_hex 8 n) rest (print_hex-IsHex 8 n) (length-print_hex 7 n) e
    ∙ ap (λ r. some (store false r))
        (scan_digits-print_hex 8 n rest (omega arith) (omega arith) ∙ scan_digits-Ends rest n e)
    ∙ ap (λ m. some (m, rest)) (omega arith)

decode_low-print_hex :
    (hi lo : ℕ) → lo < 2 ^ 32 → decode_low hi (b'/' ∷ print_hex 8 lo) ≡ ok (hi * 2 ^ 32 + lo)
unfolding decode_low
decode_low-print_hex hi lo h =
    rw (← append-nil (print_hex 8 lo), decode_low) (rw (scan_hex-print_hex lo [] h tt, decode_low))

-- Every position below 2^64 is read back from the text that it is printed as.
pub decode-encode : (pos : ℕ) → pos < 2 ^ 64 → decode_xlog_pos (encode_xlog_pos pos) ≡ ok pos
unfolding decode_xlog_pos encode_xlog_pos
decode-encode pos h =
    let hi : ℕ = pos / 2 ^ 32 % 2 ^ 32 in
    let lo : ℕ = pos % 2 ^ 32 in
    rw (scan_hex-print_hex hi (b'/' ∷ print_hex 8 lo) (omega arith) refl, decode_xlog_pos)
      (decode_low-print_hex hi lo (omega arith) ∙ ap ok (omega arith))
