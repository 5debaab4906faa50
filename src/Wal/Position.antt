-- ===== src/Wal/Position.antt =====
-- Positions in the write-ahead log (src/backup/stream.cxx). An XLogRecPtr is an unsigned 64-bit
-- integer, so subtraction wraps. The macro XLogSegmentOffset is PostgreSQL's, not the program's: it
-- is a parameter with its documented value for legal segment sizes. The code's branch for servers
-- before version 11 writes `pos % wal_segment_size` in its place, which is one such parameter.
use native.Mathlib.Nat.{mod-lt, div-add-mod, mod-eq_of_lt, mul-mod_left}
use pg_backup_ctl_plus.Base.{
  ℕ, zero, suc, ◌+◌, ◌-◌, ◌*◌, ◌/◌, ◌%◌, ◌^◌, ◌≤◌, ◌<◌, ◌≡◌, refl, ap, ◌∙◌, arith,
}

abbrev pub word_mod : ℕ
word_mod = 2 ^ 64

abbrev pub u32_mod : ℕ
u32_mod = 2 ^ 32

-- a - b on XLogRecPtr.
abbrev pub sub64 : ℕ → ℕ → ℕ
sub64 a b = (a + word_mod - b) % word_mod

-- A legal size of WAL segments, a power of two that fits the code's uint32_t.
pub record IsSegmentSize (s : ℕ) : Type 0 where
  pub exponent : ℕ
  pub exponent_small : exponent < 32
  pub is_power : s ≡ 2 ^ exponent
  pub positive : 0 < s

-- PostgreSQL's access/xlog_internal.h.
pub record XlogMacros : Type 0 where
  pub segment_offset : ℕ → ℕ → ℕ
  pub segment_offset_lem : (p s : ℕ) → IsSegmentSize s → segment_offset p s ≡ p % s

-- PGStream::XLOGOffset and the two functions for a segment size that is given.
module _ ⦃macros : XlogMacros⦄ where
  unfoldable pub xlog_offset : ℕ → ℕ → ℕ
  xlog_offset p s = macros.segment_offset p s

  unfoldable pub xlog_segment_start_position : ℕ → ℕ → ℕ
  xlog_segment_start_position p s = sub64 p (macros.segment_offset p s)

  unfoldable pub xlog_next_segment_start_position : ℕ → ℕ → ℕ
  xlog_next_segment_start_position p s = (sub64 p (macros.segment_offset p s) + s + 1) % word_mod

  unfoldable pub xlog_prev_segment_start_position : ℕ → ℕ → ℕ
  xlog_prev_segment_start_position p s =
      let before = sub64 (sub64 p (macros.segment_offset p s)) 1 in
      sub64 before (macros.segment_offset before s)

mod-mul-pred : (n s : ℕ) → 0 < s → (suc n * s - 1) % s ≡ s - 1
mod-mul-pred n s h = grind (arith, div-add-mod, mod-lt)

-- The byte before a segment's start lies at the end of the segment before.
before-mod : (q s : ℕ) → 0 < s → 0 < q → (q * s - 1) % s ≡ s - 1
before-mod zero s h k = elim k [ ]
before-mod (suc q) s h k = mod-mul-pred q s h

start-as-product : (p s : ℕ) → p - p % s ≡ p / s * s
start-as-product p s = grind (arith, div-add-mod)

quotient_pos : (p s : ℕ) → 0 < s → s ≤ p → 0 < p / s
quotient_pos p s h k = grind (arith, div-add-mod, mod-lt)

before-start-mod : (p s : ℕ) → 0 < s → s ≤ p → (p - p % s - 1) % s ≡ s - 1
before-start-mod p s h k = rw (start-as-product p s) (before-mod (p / s) s h (quotient_pos p s h k))

pub start_ge : (p s : ℕ) → 0 < s → s ≤ p → s ≤ p - p % s
start_ge p s h k = grind (arith, div-add-mod, mod-lt)

before-eq : (p s : ℕ) → 0 < s → s ≤ p → p < word_mod → sub64 (sub64 p (p % s)) 1 ≡ p - p % s - 1
before-eq p s h k w = omega (arith, start_ge p s h k)

-- One segment below the start of a segment another one starts.
before_start_mod : (p s : ℕ) → 0 < s → s ≤ p → (p - p % s - s) % s ≡ 0
before_start_mod p s h k =
    elim (p / s) as (λ q. p / s ≡ q → (p - p % s - s) % s ≡ 0) [
      | zero ↦ (λ e. absurd (omega (arith, quotient_pos p s h k)))
      | suc q ↦
          (λ e. rw (start-as-product p s, e) (ap (λ x. x % s) (less_one q) ∙ mul-mod_left q s))
    ]
      refl
  where
    less_one : (q : ℕ) → suc q * s - s ≡ q * s
    less_one q = grind arith

module _ ⦃macros : XlogMacros⦄ (s : ℕ) (z : IsSegmentSize s) where
  pub start-eq : (p : ℕ) → p < word_mod → xlog_segment_start_position p s ≡ p - p % s
  unfolding xlog_segment_start_position
  start-eq p h = omega (arith, macros.segment_offset_lem p s z)

module _ ⦃macros : XlogMacros⦄ (p s : ℕ) (z : IsSegmentSize s) (h : p < word_mod) where
  -- The position one segment before the start of the position's own segment.
  pub prev-eq : s ≤ p → xlog_prev_segment_start_position p s ≡ p - p % s - s
  unfolding xlog_prev_segment_start_position
  prev-eq k = rw (macros.segment_offset_lem p s z) (
      rw (before-eq p s z.positive k h) (
        rw (macros.segment_offset_lem (p - p % s - 1) s z) (
          rw (before-start-mod p s z.positive k)
            (omega (arith, start_ge p s z.positive k, z.positive)))))

  -- For a legal segment size and a position in the log's first segment, the byte before the start
  -- does not exist and the subtraction wraps: the result is at most a segment below 2^64.
  pub prev_wraps : p < s → word_mod ≤ xlog_prev_segment_start_position p s + s
  unfolding xlog_prev_segment_start_position
  prev_wraps k =
      let first : p % s ≡ p = mod-eq_of_lt k in
      let wrapped : sub64 (sub64 p (p % s)) 1 ≡ word_mod - 1 = omega arith in
      rw (macros.segment_offset_lem p s z) (
        rw wrapped (
          rw (macros.segment_offset_lem (word_mod - 1) s z)
            (omega (arith, mod-lt (word_mod - 1) z.positive))))

  -- For a legal segment size and a position below 2^64 that is not in the log's first segment, the
  -- position that is computed for the segment before is the start of a segment, and lies exactly one
  -- segment before the start of the position's own.
  pub prev-start :
      s ≤ p
      → (xlog_prev_segment_start_position p s + s ≡ xlog_segment_start_position p s)
        × (xlog_offset (xlog_prev_segment_start_position p s) s ≡ 0)
  unfolding xlog_offset
  prev-start k =
      let q = p - p % s - s in
      let g = start_ge p s z.positive k in
      (
        rw (prev-eq k) (omega (arith, g, start-eq s z p h)),
        rw (prev-eq k) (macros.segment_offset_lem q s z ∙ before_start_mod p s z.positive k),
      )

  -- For a legal segment size and a position below 2^64 that is not in the log's first segment, the
  -- segment of the position that is computed for the segment before starts a whole segment, or
  -- more, below the start of the position's own segment.
  pub start-prev-le :
      s ≤ p → xlog_segment_start_position (xlog_prev_segment_start_position p s) s + s ≤ p - p % s
  start-prev-le k =
      rw (prev-eq k)
        (below (p - p % s - s) (omega arith) (omega (arith, start_ge p s z.positive k)))
    where
      below :
          (q : ℕ)
          → q < word_mod
          → q + s ≤ p - p % s
          → xlog_segment_start_position q s + s ≤ p - p % s
      below q w l = omega (arith, start-eq s z q w)
