-- ===== src/Buffer/Protocol.antt =====
-- Class ProtocolBuffer (src/protocol/proto-buffer.cxx): a memory buffer with a position, read and
-- written in network order. An integer is its bit pattern; the overloads for signed and unsigned
-- values move the same bytes.
pub mod Content
pub mod Chunks
use pg_backup_ctl_plus.Base.{ℕ, ◌+◌, ◌-◌, ◌%◌, ◌^◌, ◌≡◌, Option, none, some, List, [], ◌∷◌, length}
use pg_backup_ctl_plus.Base.Bytes.{be16, be32, from_be}
use pg_backup_ctl_plus.Base.Result.{Result, ok, err, M, ◌>>=◌, ◌>>◌, return, modify, bind_result}
use pg_backup_ctl_plus.Buffer.Memory.{Heap, MemoryBuffer}
use pg_backup_ctl_plus.Buffer.Memory

pub record ProtocolBuffer : Type 0 where
  pub memory : MemoryBuffer
  pub curr_pos : ℕ

-- A call of a method of the base class.
unfoldable pub on_memory : {A : Type 0} → M MemoryBuffer A → M ProtocolBuffer A
on_memory m p = let (r, memory) = m p.memory in (r, record p { memory = memory })

-- ProtocolBuffer::first
unfoldable pub first : ProtocolBuffer → ProtocolBuffer
first p = record p { curr_pos = 0 }

-- ProtocolBuffer::last
unfoldable pub last : ProtocolBuffer → ProtocolBuffer
last p = record p { curr_pos = (p.memory.size + 2 ^ 64 - 1) % 2 ^ 64 }

-- ProtocolBuffer::write_buffer
unfoldable pub write_buffer : List ℕ → M ProtocolBuffer ℕ
unfolding on_memory Memory.write
write_buffer bs p =
    bind_result (on_memory (Memory.write bs p.curr_pos) p)
      (λ bw p'. (ok bw, record p' { curr_pos = p'.curr_pos + bw }))

-- ProtocolBuffer::write_byte
unfoldable pub write_byte : ℕ → M ProtocolBuffer ℕ
unfolding write_buffer
write_byte c = write_buffer (c % 256 ∷ [])

-- ProtocolBuffer::write_short
unfoldable pub write_short : ℕ → M ProtocolBuffer ℕ
unfolding write_buffer
write_short v = write_buffer (be16 v)

-- ProtocolBuffer::write_int
unfoldable pub write_int : ℕ → M ProtocolBuffer ℕ
unfolding write_buffer
write_int v = write_buffer (be32 v)

-- ProtocolBuffer::read_buffer. The result is what is copied to the caller.
unfoldable pub read_buffer : ℕ → M ProtocolBuffer (List ℕ)
unfolding on_memory Memory.read
read_buffer n p =
    bind_result (on_memory (Memory.read n p.curr_pos) p)
      (λ bs p'. (ok bs, record p' { curr_pos = p'.curr_pos + n }))

-- ProtocolBuffer::read_byte
unfoldable pub read_byte : M ProtocolBuffer ℕ
unfolding read_buffer
read_byte = read_buffer 1 >>= λ bs. return (from_be bs)

-- ProtocolBuffer::read_short
unfoldable pub read_short : M ProtocolBuffer ℕ
unfolding read_buffer
read_short = read_buffer 2 >>= λ bs. return (from_be bs)

-- ProtocolBuffer::read_int
unfoldable pub read_int : M ProtocolBuffer ℕ
unfolding read_buffer
read_int = read_buffer 4 >>= λ bs. return (from_be bs)

-- ProtocolBuffer::own
unfoldable pub own : Option (List ℕ) → ℕ → M ProtocolBuffer (Unit {0})
unfolding on_memory Memory.own first
own buf sz = on_memory (Memory.own buf sz) >> modify first

-- ProtocolBuffer::clear
unfoldable pub clear : M ProtocolBuffer (Unit {0})
unfolding on_memory Memory.clear first
clear = on_memory Memory.clear >> modify first

module _ ⦃heap : Heap⦄ where
  -- ProtocolBuffer::allocate
  unfoldable pub allocate : ℕ → M ProtocolBuffer (Unit {0})
  unfolding on_memory Memory.allocate first
  allocate n = on_memory (Memory.allocate n) >> modify first
