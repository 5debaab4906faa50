-- ===== src/Buffer/ErrorStack/Layout.antt =====
-- What the loop of ProtocolErrorStack::toBuffer (src/protocol/proto-buffer.cxx) writes.
use pg_backup_ctl_plus.Base.{
  ℕ, suc, ◌+◌, ◌-◌, ◌%◌, ◌^◌, ◌<◌, ◌≤◌, ◌≡◌, refl, ap, sym, ◌∙◌, List, [], ◌∷◌, ◌++◌, append_assoc,
  append-nil, arith, length, length-append, drop, length-drop,
}
use pg_backup_ctl_plus.Base.Result.{ok}
use pg_backup_ctl_plus.Buffer.Protocol.Content.{holding, write_buffer-holding, write_byte-holding}
use pg_backup_ctl_plus.Buffer.ErrorStack.{ErrorField, pop, popped, top, write_top, write_fields}
use pg_backup_ctl_plus.Buffer.ErrorStack.Counts.{content, stack}

-- The bytes of a field in the message.
abbrev pub field_bytes : ErrorField → List ℕ
field_bytes f = (f.type % 256) ∷ (f.value ++ 0 ∷ [])

abbrev pub fields_bytes : List ErrorField → List ℕ
fields_bytes [] = []
fields_bytes (f ∷ fs) = field_bytes f ++ fields_bytes fs

length-field_bytes : (f : ErrorField) → length (field_bytes f) ≡ suc (suc (length f.value))
length-field_bytes f = omega (arith, length-append f.value (0 ∷ []))

module _ (N : ℕ) (h : N < 2 ^ 64) where
  write_top-holding :
      (f : ErrorField) (fs : List ErrorField) (t c : ℕ) (pre tail : List ℕ)
      → suc (suc (length f.value)) ≤ length tail
      → length pre + length tail ≡ N
      → write_top (holding N pre tail, stack (f ∷ fs) t c) ≡ (
        ok tt,
        (
          holding N (pre ++ field_bytes f) (drop 1 (drop (length f.value) (drop 1 tail))),
          popped (stack (f ∷ fs) t c) fs,
        ),
      )
  unfolding write_top top pop
  write_top-holding f fs t c pre tail l w =
      let pre1 = pre ++ f.type % 256 ∷ [] in
      let tail1 = drop 1 tail in
      let tail2 = drop (length f.value) tail1 in
      let l1 : length tail1 ≡ length tail - 1 = length-drop 1 tail in
      let l2 : length tail2 ≡ length tail - 1 - length f.value =
        length-drop (length f.value) tail1 ∙ ap (λ n. n - length f.value) l1 in
      let w1 : length pre1 ≡ suc (length pre) =
        omega (arith, length-append pre (f.type % 256 ∷ [])) in
      let w2 : length (pre1 ++ f.value) ≡ suc (length pre) + length f.value =
        length-append pre1 f.value ∙ ap (λ n. n + length f.value) w1 in
      rw
        (write_byte-holding N pre tail f.type
          (record { some_room = omega arith; enough = omega arith; whole = w; is_size = h }))
        (rw
          (write_buffer-holding N f.value pre1 tail1 (record {
            some_room = omega arith;
            enough = omega arith;
            whole = omega arith;
            is_size = h;
          }))
          (rw
            (write_byte-holding N (pre1 ++ f.value) tail2 0 (record {
              some_room = omega arith;
              enough = omega arith;
              whole = omega arith;
              is_size = h;
            }))
            (ap (λ x. (ok tt, (holding N x (drop 1 tail2), popped (stack (f ∷ fs) t c) fs)))
              (append_assoc pre1 f.value (0 ∷ [])
                ∙ append_assoc pre (f.type % 256 ∷ []) (f.value ++ 0 ∷ [])))))

  -- What the loop leaves: every field is written, and the stack is empty.
  pub record Written (fs : List ErrorField) (t c : ℕ) (pre tail : List ℕ) : Type 0 where
    pub left : List ℕ
    pub counters : ℕ × ℕ
    pub runs :
        write_fields fs (holding N pre tail, stack fs t c)
        ≡ (ok tt, (holding N (pre ++ fields_bytes fs) left, stack [] counters.0 counters.1))
    pub length_left : length left + length (fields_bytes fs) ≡ length tail

  pub write_fields-holding :
      (fs : List ErrorField) (t c : ℕ) (pre tail : List ℕ)
      → length (fields_bytes fs) ≤ length tail
      → length pre + length tail ≡ N
      → Written fs t c pre tail
  unfolding write_fields
  write_fields-holding [] t c pre tail l w = record {
    left = tail;
    counters = (t, c);
    runs = ap (λ x. (ok tt, (holding N x tail, stack [] t c))) (sym (append-nil pre));
    length_left = omega arith;
  }
  write_fields-holding (f ∷ fs) t c pre tail l w =
      let size : length (fields_bytes (f ∷ fs))
          ≡ suc (suc (length f.value)) + length (fields_bytes fs) =
        length-append (field_bytes f) (fields_bytes fs)
        ∙ ap (λ n. n + length (fields_bytes fs)) (length-field_bytes f) in
      let tail' = drop 1 (drop (length f.value) (drop 1 tail)) in
      let l' : length tail' ≡ length tail - suc (suc (length f.value)) = omega (
        arith,
        length-drop 1 (drop (length f.value) (drop 1 tail)),
        length-drop (length f.value) (drop 1 tail),
        length-drop 1 tail,
      ) in
      let next = popped (stack (f ∷ fs) t c) fs in
      let rest =
        write_fields-holding fs next.top_element_size next.content_size (pre ++ field_bytes f) tail'
          (omega arith) (omega (arith, length-append pre (field_bytes f), length-field_bytes f)) in
      record {
        left = rest.left;
        counters = rest.counters;
        runs = rw (write_top-holding f fs t c pre tail (omega arith) w) (
            ap (λ s. write_fields fs (holding N (pre ++ field_bytes f) tail', s))
              (popped-stack f fs t c)
            ∙ rest.runs
            ∙ ap (λ x. (ok tt, (holding N x rest.left, stack [] rest.counters.0 rest.counters.1)))
                (append_assoc pre (field_bytes f) (fields_bytes fs)));
        length_left = omega (arith, rest.length_left);
      }
    where
      popped-stack :
          (f : ErrorField) (fs : List ErrorField) (t c : ℕ)
          → popped (stack (f ∷ fs) t c) fs
            ≡ stack fs
                (popped (stack (f ∷ fs) t c) fs).top_element_size
                (popped (stack (f ∷ fs) t c) fs).content_size
      popped-stack f [] t c = refl
      popped-stack f (g ∷ fs) t c = refl

pub length-fields_bytes : (fs : List ErrorField) → length (fields_bytes fs) ≡ content fs + length fs
length-fields_bytes [] = refl
length-fields_bytes (f ∷ fs) = omega (
  arith,
  length-append (field_bytes f) (fields_bytes fs),
  length-field_bytes f,
  length-fields_bytes fs,
)
