-- ===== src/Buffer/Memory.antt =====
-- Class MemoryBuffer (src/main/memorybuffer.cxx, include/memorybuffer.hxx): an array of bytes on
-- the heap with bounds that are checked on access. A size_t is a number below 2^64.
pub mod Access
use pg_backup_ctl_plus.Base.{
  ℕ, zero, suc, ◌+◌, ◌%◌, ◌^◌, ◌<◌, ◌≡◌, refl, Bool, true, false, not, Option, none, some, List, [],
  ◌∷◌, ltb, leb, if◌then◌else◌, length, replicate, take, get_elem?,
}
use pg_backup_ctl_plus.Base.Result.{
  Error, failure, bad_alloc, undefined_behaviour, Result, ok, err, M, ◌>>=◌, ◌>>◌, throw, return,
  lift, gets, guard, bind_result,
}

-- What `new char[n]` gives: bytes whose values the program does not set, or std::bad_alloc.
pub record Heap : Type 0 where
  pub new_char : ℕ → Option (List ℕ)
  pub length-new_char : (n : ℕ) (b : List ℕ) → new_char n ≡ some b → length b ≡ n
  pub new_char_lt : (n : ℕ) (b : List ℕ) → new_char n ≡ some b → n < 2 ^ 64

-- `memory_buffer` and `size`. A block that `own` was given may be of another length than `size`.
pub record MemoryBuffer : Type 0 where
  pub block : Option (List ℕ)
  pub size : ℕ

-- The constructor without arguments leaves the member `size` as it finds it.
abbrev pub uninitialized : ℕ → MemoryBuffer
uninitialized garbage = record { block = none; size = garbage }

-- memcpy over the bytes of a block; `none` where it leaves the block.
unfoldable pub overwrite : List ℕ → List ℕ → Option (List ℕ)
overwrite [] ys = some ys
overwrite (b ∷ bs) [] = none
overwrite (b ∷ bs) (y ∷ ys) = elim (overwrite bs ys) [ none ↦ none | some zs ↦ some (b ∷ zs) ]

unfoldable pub splice : List ℕ → ℕ → List ℕ → Option (List ℕ)
unfolding overwrite
splice bs zero ys = overwrite bs ys
splice bs (suc off) [] = none
splice bs (suc off) (y ∷ ys) = elim (splice bs off ys) [ none ↦ none | some zs ↦ some (y ∷ zs) ]

-- memcpy out of a block.
unfoldable pub first_bytes : ℕ → List ℕ → Option (List ℕ)
first_bytes zero ys = some []
first_bytes (suc n) [] = none
first_bytes (suc n) (y ∷ ys) = elim (first_bytes n ys) [ none ↦ none | some zs ↦ some (y ∷ zs) ]

unfoldable pub slice : ℕ → ℕ → List ℕ → Option (List ℕ)
unfolding first_bytes
slice n zero ys = first_bytes n ys
slice n (suc off) [] = none
slice n (suc off) (y ∷ ys) = slice n off ys

abbrev pub copied : {A : Type 0} → Option A → Result A
copied none = err undefined_behaviour
copied (some a) = ok a

-- MemoryBuffer::_write
unfoldable pub write_raw : List ℕ → ℕ → M MemoryBuffer ℕ
unfolding splice
write_raw bs off m = elim m.block [
  | none ↦ (err undefined_behaviour, m)
  | some b ↦ elim (splice bs off b) [
    | none ↦ (err undefined_behaviour, m)
    | some b' ↦ (ok (length bs), record m { block = some b' })
  ]
]

-- The two checks of `write` and `read`. The sum is a size_t.
abbrev pub outside : ℕ → ℕ → MemoryBuffer → Bool
outside n off m = if leb m.size off then true else ltb m.size ((off + n) % 2 ^ 64)

-- MemoryBuffer::write
unfoldable pub write : List ℕ → ℕ → M MemoryBuffer ℕ
unfolding write_raw
write bs off m = elim m.block [
  | none ↦ (err failure, m)
  | some b ↦ if outside (length bs) off m then (err failure, m) else write_raw bs off m
]

-- MemoryBuffer::read. The result is what is copied to the caller.
unfoldable pub read : ℕ → ℕ → M MemoryBuffer (List ℕ)
unfolding slice
read n off m = elim m.block [
  | none ↦ (err failure, m)
  | some b ↦ if outside n off m then (err failure, m) else (copied (slice n off b), m)
]

-- MemoryBuffer::own
unfoldable pub own : Option (List ℕ) → ℕ → M MemoryBuffer (Unit {0})
own none sz m = (err failure, m)
own (some b) sz m = (ok tt, record { block = some b; size = sz })

-- MemoryBuffer::clear
unfoldable pub clear : M MemoryBuffer (Unit {0})
unfolding overwrite
clear m = elim m.block [
  | none ↦ (ok tt, m)
  | some b ↦ elim (overwrite (replicate m.size 0) b) [
    | none ↦ (err undefined_behaviour, m)
    | some b' ↦ (ok tt, record m { block = some b' })
  ]
]

-- MemoryBuffer::operator[]
unfoldable pub at_index : ℕ → M MemoryBuffer ℕ
at_index i m =
    if leb m.size i
    then (err failure, m)
    else elim m.block [ none ↦ (err undefined_behaviour, m) | some b ↦ (copied (get_elem? b i), m) ]

-- MemoryBuffer::ptr
unfoldable pub ptr : M MemoryBuffer (List ℕ)
ptr m = elim m.block [ none ↦ (err failure, m) | some b ↦ (ok b, m) ]

module _ ⦃heap : Heap⦄ where
  -- MemoryBuffer::alloc_internal, which `allocate` and the constructor with a size call.
  unfoldable pub allocate : ℕ → M MemoryBuffer (Unit {0})
  allocate n m =
      let freed : MemoryBuffer = elim m.block [
        | none ↦ m
        | some b ↦ record { block = none; size = 0 }
      ] in
      elim (heap.new_char n) [
        | none ↦ (err bad_alloc, freed)
        | some b ↦ (ok tt, record { block = some b; size = n })
      ]

  -- MemoryBuffer::assign
  unfoldable pub assign : List ℕ → M MemoryBuffer (Unit {0})
  unfolding allocate write_raw
  assign bs = do allocate (length bs); write_raw bs 0; return tt

  -- MemoryBuffer::operator=; `same` says that the two are one object. The checks of `write` come
  -- before the bytes of the source are read.
  unfoldable pub assign_buffer : Bool → MemoryBuffer → M MemoryBuffer (Unit {0})
  unfolding allocate write_raw first_bytes
  assign_buffer same src = do
    guard (not same) failure
    allocate src.size
    checked ← gets (outside src.size 0)
    guard (not checked) failure
    bs ← lift (elim src.block [
      | none ↦ err undefined_behaviour
      | some b ↦ copied (first_bytes src.size b)
    ])
    write_raw bs 0
    return tt

  -- The constructor that takes a pointer copies `sizeof(buf)` bytes, the size of the pointer.
  unfoldable pub from_pointer : Option (List ℕ) → M MemoryBuffer (Unit {0})
  unfolding allocate write_raw first_bytes
  from_pointer none = throw failure
  from_pointer (some buf) = do
    allocate 8
    bs ← lift (copied (first_bytes 8 buf))
    write_raw bs 0
    return tt
