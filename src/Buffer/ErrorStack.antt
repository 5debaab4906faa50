-- ===== src/Buffer/ErrorStack.antt =====
-- Class ProtocolErrorStack (src/protocol/proto-buffer.cxx, include/proto/pgsql-proto.hxx): the
-- fields of an error or notice, with running sizes, and the message that is made of them.
pub mod Counts
pub mod Layout
pub mod Message
use pg_backup_ctl_plus.Base.{
  ℕ, zero, suc, ◌+◌, ◌-◌, ◌%◌, ◌^◌, ◌≡◌, Bool, true, false, List, [], ◌∷◌, if◌then◌else◌, length,
}
use pg_backup_ctl_plus.Base.Result.{
  undefined_behaviour, Result, ok, err, M, ◌>>=◌, ◌>>◌, return, bind_result,
}
use pg_backup_ctl_plus.Buffer.Memory.{Heap}
use pg_backup_ctl_plus.Buffer.Protocol.{
  ProtocolBuffer, write_buffer, write_byte, write_int, allocate,
}

-- PGErrorResponseField: a type of one byte and a text.
pub record ErrorField : Type 0 where
  pub type : ℕ
  pub value : List ℕ

-- The top of the stack comes first.
pub record ErrorStack : Type 0 where
  pub es : List ErrorField
  pub top_element_size : ℕ
  pub content_size : ℕ

abbrev pub new_error_stack : ErrorStack
new_error_stack = record { es = []; top_element_size = 0; content_size = 0 }

abbrev pub element_size : ErrorField → ℕ
element_size f = (1 + length f.value) % 2 ^ 64

-- ProtocolErrorStack::push; the overload that takes the two parts does the same.
unfoldable pub push : ErrorField → ErrorStack → ErrorStack
push f s = record {
  es = f ∷ s.es;
  top_element_size = element_size f;
  content_size = (s.content_size + element_size f) % 2 ^ 64;
}

-- ProtocolErrorStack::pop. std::stack has no check.
abbrev pub popped : ErrorStack → List ErrorField → ErrorStack
popped s [] = record { es = []; top_element_size = 0; content_size = 0 }
popped s (g ∷ fs) = record {
  es = g ∷ fs;
  top_element_size = element_size g;
  content_size = (s.content_size + 2 ^ 64 - s.top_element_size) % 2 ^ 64;
}

unfoldable pub pop : M ErrorStack (Unit {0})
pop s = elim s.es [ [] ↦ (err undefined_behaviour, s) | f ∷ fs ↦ (ok tt, popped s fs) ]

-- ProtocolErrorStack::top
unfoldable pub top : M ErrorStack ErrorField
top s = elim s.es [ [] ↦ (err undefined_behaviour, s) | f ∷ fs ↦ (ok f, s) ]

-- `toBuffer` works on the buffer and on the stack.
abbrev pub on_buffer : {A : Type 0} → M ProtocolBuffer A → M (ProtocolBuffer × ErrorStack) A
on_buffer m (p, s) = let (r, p') = m p in (r, (p', s))

abbrev pub on_stack : {A : Type 0} → M ErrorStack A → M (ProtocolBuffer × ErrorStack) A
on_stack m (p, s) = let (r, s') = m s in (r, (p, s'))

-- One round of the loop of `toBuffer`.
unfoldable pub write_top : M (ProtocolBuffer × ErrorStack) (Unit {0})
unfolding top pop write_buffer write_byte
write_top = do
  ef ← on_stack top
  on_buffer (write_byte ef.type)
  on_buffer (write_buffer ef.value)
  on_buffer (write_byte 0)
  on_stack pop

-- The loop runs while the stack is not empty, which is once for each field.
unfoldable pub write_fields : List ErrorField → M (ProtocolBuffer × ErrorStack) (Unit {0})
unfolding write_top
write_fields [] = return tt
write_fields (f ∷ fs) = do write_top; write_fields fs

abbrev pub message_type : Bool → ℕ
message_type true = b'E'
message_type false = b'N'

module _ ⦃heap : Heap⦄ where
  -- ProtocolErrorStack::toBuffer. The result is `msg_size`.
  unfoldable pub to_buffer : Bool → M (ProtocolBuffer × ErrorStack) ℕ
  unfolding write_fields allocate write_int
  to_buffer error (p, s) =
      let msg_size = (s.content_size + length s.es + 1) % 2 ^ 64 in
      (do
        on_buffer (allocate ((5 + msg_size) % 2 ^ 64))
        on_buffer (write_byte (message_type error))
        on_buffer (write_int ((4 + msg_size) % 2 ^ 32))
        write_fields s.es
        on_buffer (write_byte 0)
        return msg_size)
        (p, s)
