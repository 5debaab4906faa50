-- ===== src/Buffer/Memory/Access.antt =====
-- What a read finds after a write (MemoryBuffer::write and read of src/main/memorybuffer.cxx).
use pg_backup_ctl_plus.Base.{
  ℕ, zero, suc, ◌+◌, ◌^◌, ◌<◌, ◌≤◌, ◌≡◌, refl, ◌∙◌, ◌⊎◌, inl, inr, Bool, true, false, some, List,
  [], ◌∷◌, ◌++◌, arith, if◌then◌else◌, length, Option-cases,
}
use pg_backup_ctl_plus.Base.Result.{failure, Result, ok, err}
use pg_backup_ctl_plus.Buffer.Memory.{
  MemoryBuffer, overwrite, splice, first_bytes, slice, copied, outside, write_raw, write, read,
}

-- An array is as long as the buffer says.
abbrev pub IsWhole : MemoryBuffer → Type 0
IsWhole m = (b : List ℕ) → m.block ≡ some b → length b ≡ m.size

overwrite-append :
    (bs ys post : List ℕ) → length bs ≡ length ys → overwrite bs (ys ++ post) ≡ some (bs ++ post)
unfolding overwrite
overwrite-append [] [] post e = refl
overwrite-append [] (y ∷ ys) post e = absurd (omega arith)
overwrite-append (b ∷ bs) [] post e = absurd (omega arith)
overwrite-append (b ∷ bs) (y ∷ ys) post e = rw (overwrite-append bs ys post (omega arith))

pub splice-middle :
    (bs pre ys post : List ℕ)
    → length bs ≡ length ys
    → splice bs (length pre) (pre ++ (ys ++ post)) ≡ some (pre ++ (bs ++ post))
unfolding splice
splice-middle bs [] ys post e = overwrite-append bs ys post e
splice-middle bs (p ∷ pre) ys post e = rw (splice-middle bs pre ys post e)

first_bytes-append : (bs post : List ℕ) → first_bytes (length bs) (bs ++ post) ≡ some bs
unfolding first_bytes
first_bytes-append [] post = refl
first_bytes-append (b ∷ bs) post = rw (first_bytes-append bs post)

pub slice-middle :
    (pre bs post : List ℕ) → slice (length bs) (length pre) (pre ++ (bs ++ post)) ≡ some bs
unfolding slice
slice-middle [] bs post = first_bytes-append bs post
slice-middle (p ∷ pre) bs post = slice-middle pre bs post

length-overwrite : (bs ys zs : List ℕ) → overwrite bs ys ≡ some zs → length zs ≡ length ys
unfolding overwrite
length-overwrite [] ys zs e = ground arith
length-overwrite (b ∷ bs) [] zs e = cc
length-overwrite (b ∷ bs) (y ∷ ys) zs e = elim (Option-cases (overwrite bs ys)) [
  | inl n ↦ absurd (ground (arith, n))
  | inr (w, s) ↦ ground (arith, s, length-overwrite bs ys w s)
]

length-splice :
    (bs : List ℕ) (off : ℕ) (ys zs : List ℕ) → splice bs off ys ≡ some zs → length zs ≡ length ys
unfolding splice
length-splice bs zero ys zs e = length-overwrite bs ys zs e
length-splice bs (suc off) [] zs e = cc
length-splice bs (suc off) (y ∷ ys) zs e = elim (Option-cases (splice bs off ys)) [
  | inl n ↦ absurd (ground (arith, n))
  | inr (w, s) ↦ ground (arith, s, length-splice bs off ys w s)
]

-- Bytes before and behind those that are written.
first_bytes-splice :
    (n : ℕ) (bs : List ℕ) (off : ℕ) (ys zs : List ℕ)
    → splice bs off ys ≡ some zs
    → n ≤ off
    → first_bytes n zs ≡ first_bytes n ys
unfolding splice first_bytes
first_bytes-splice zero bs off ys zs e h = refl
first_bytes-splice (suc n) bs zero ys zs e h = absurd (omega arith)
first_bytes-splice (suc n) bs (suc off) [] zs e h = cc
first_bytes-splice (suc n) bs (suc off) (y ∷ ys) zs e h = elim (Option-cases (splice bs off ys)) [
  | inl k ↦ absurd (ground (arith, k))
  | inr (w, s) ↦ ground (arith, s, first_bytes-splice n bs off ys w s)
]

slice-overwrite :
    (n o : ℕ) (bs ys zs : List ℕ)
    → overwrite bs ys ≡ some zs
    → length bs ≤ o
    → slice n o zs ≡ slice n o ys
unfolding overwrite slice
slice-overwrite n o [] ys zs e h = ground arith
slice-overwrite n o (b ∷ bs) [] zs e h = cc
slice-overwrite n zero (b ∷ bs) (y ∷ ys) zs e h = absurd (omega arith)
slice-overwrite n (suc o) (b ∷ bs) (y ∷ ys) zs e h = elim (Option-cases (overwrite bs ys)) [
  | inl k ↦ absurd (ground (arith, k))
  | inr (w, s) ↦ ground (arith, s, slice-overwrite n o bs ys w s)
]

slice-splice :
    (n o : ℕ) (bs : List ℕ) (off : ℕ) (ys zs : List ℕ)
    → splice bs off ys ≡ some zs
    → (o + n ≤ off) ⊎ (off + length bs ≤ o)
    → slice n o zs ≡ slice n o ys
unfolding splice slice first_bytes
slice-splice n o bs zero ys zs e (inr h) = slice-overwrite n o bs ys zs e (omega arith)
slice-splice zero zero bs zero ys zs e (inl h) = refl
slice-splice (suc n) zero bs zero ys zs e (inl h) = absurd (omega arith)
slice-splice n (suc o) bs zero ys zs e (inl h) = absurd (omega arith)
slice-splice n o bs (suc off) [] zs e h = cc
slice-splice n zero bs (suc off) (y ∷ ys) zs e (inl h) =
    first_bytes-splice n bs (suc off) (y ∷ ys) zs e (omega arith)
slice-splice n zero bs (suc off) (y ∷ ys) zs e (inr h) = absurd (omega arith)
slice-splice n (suc o) bs (suc off) (y ∷ ys) zs e h = elim (Option-cases (splice bs off ys)) [
  | inl k ↦ absurd (ground (arith, k))
  | inr (w, s) ↦ ground (arith, s, slice-splice n o bs off ys w s (lower o n off (length bs) h))
]
  where
    lower : (a n b l : ℕ) → (suc a + n ≤ suc b) ⊎ (suc b + l ≤ suc a) → (a + n ≤ b) ⊎ (b + l ≤ a)
    lower a n b l (inl h) = inl (omega arith)
    lower a n b l (inr h) = inr (omega arith)

splice-total :
    (bs : List ℕ) (off : ℕ) (ys : List ℕ)
    → off + length bs ≤ length ys
    → (zs : List ℕ) × (splice bs off ys ≡ some zs) × (slice (length bs) off zs ≡ some bs)
unfolding splice overwrite slice first_bytes
splice-total [] zero ys h = (ys, refl, refl)
splice-total (b ∷ bs) zero [] h = absurd (omega arith)
splice-total (b ∷ bs) zero (y ∷ ys) h =
    let (zs, e, f) = splice-total bs zero ys (omega arith) in (b ∷ zs, rw e, rw f)
splice-total bs (suc off) [] h = absurd (omega arith)
splice-total bs (suc off) (y ∷ ys) h =
    let (zs, e, f) = splice-total bs off ys (omega arith) in (y ∷ zs, rw e, f)

abbrev pick :
    Bool
    → Result (List ℕ) × MemoryBuffer
    → Result (List ℕ) × MemoryBuffer
    → Result (List ℕ) × MemoryBuffer
pick x a b = if x then a else b

forget :
    (x : Bool) (r : Result (List ℕ)) (p q : MemoryBuffer)
    → (pick x (err failure, p) (r, p)).0 ≡ (pick x (err failure, q) (r, q)).0
forget true r p q = refl
forget false r p q = refl

module _ (b : List ℕ) (size : ℕ) (w : length b ≡ size) (h : size < 2 ^ 64) where
  abbrev buffer : List ℕ → MemoryBuffer
  buffer c = record { block = some c; size = size }

  inside : (n off : ℕ) (c : List ℕ) → off < size → off + n ≤ size → outside n off (buffer c) ≡ false
  inside n off c i j = ground arith

  -- In a buffer whose block has its size, writing inside the bounds succeeds, a read of the same
  -- range then returns what was written, and a read of any range beside it returns what it
  -- returned before, or throws as before; the size stays.
  pub read-write :
      (bs : List ℕ) (off n o : ℕ)
      → off < size
      → off + length bs ≤ size
      → (o + n ≤ off) ⊎ (off + length bs ≤ o)
      → (c : List ℕ) × (write bs off (buffer b) ≡ (ok (length bs), buffer c))
        × (length c ≡ size)
        × (read (length bs) off (buffer c) ≡ (ok bs, buffer c))
        × ((read n o (buffer c)).0 ≡ (read n o (buffer b)).0)
  unfolding write read write_raw
  read-write bs off n o i j k =
      let (c, e, f) = splice-total bs off b (omega arith) in
      (
        c,
        rw (inside (length bs) off b i j) (rw (e, write_raw)),
        length-splice bs off b c e ∙ w,
        rw (inside (length bs) off c i j, f),
        rw (slice-splice n o bs off b c e k)
            (forget (outside n o (buffer b)) (copied (slice n o b)) (buffer c) (buffer b)),
      )

-- Both accesses refuse a range that starts or ends behind the buffer, and change nothing, where
-- the end of the range is a size_t.
write-outside :
    (bs : List ℕ) (off : ℕ) (m : MemoryBuffer)
    → off + length bs < 2 ^ 64
    → (m.size ≤ off) ⊎ (m.size < off + length bs)
    → (write bs off m ≡ (err failure, m)) × (read (length bs) off m ≡ (err failure, m))
unfolding write read
write-outside bs off m h k =
    let e : outside (length bs) off m ≡ true = ground (arith, k) in
    (ground (arith, e), ground (arith, e))

-- Copying a whole block.
pub first_bytes-length : (bs : List ℕ) → first_bytes (length bs) bs ≡ some bs
unfolding first_bytes
first_bytes-length [] = refl
first_bytes-length (b ∷ bs) = rw (first_bytes-length bs, first_bytes) refl

pub overwrite-whole : (bs ys : List ℕ) → length bs ≡ length ys → overwrite bs ys ≡ some bs
unfolding overwrite
overwrite-whole [] [] e = refl
overwrite-whole [] (y ∷ ys) e = absurd (omega arith)
overwrite-whole (b ∷ bs) [] e = absurd (omega arith)
overwrite-whole (b ∷ bs) (y ∷ ys) e = rw (overwrite-whole bs ys (omega arith), overwrite) refl
