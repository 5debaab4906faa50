-- ===== src/Buffer/Protocol/Chunks.antt =====
-- A sequence of writes to a protocol buffer (src/protocol/proto-buffer.cxx), as the chunks of bytes
-- that it writes.
use pg_backup_ctl_plus.Base.{
  ℕ, zero, suc, ◌+◌, ◌-◌, ◌^◌, ◌<◌, ◌≤◌, ◌≡◌, refl, ap, sym, ◌∙◌, some, List, [], ◌∷◌, ◌++◌,
  append_assoc, append-nil, arith, length, length-append, drop, length-drop,
}
use pg_backup_ctl_plus.Base.Result.{Result, ok, err, M, ◌>>◌, return, bind_result}
use pg_backup_ctl_plus.Buffer.Memory.{Heap}
use pg_backup_ctl_plus.Buffer.Protocol.{ProtocolBuffer, write_buffer, allocate}
use pg_backup_ctl_plus.Buffer.Protocol.Content.{holding, write_buffer-holding, allocate-holding}

abbrev pub concat : List (List ℕ) → List ℕ
concat [] = []
concat (b ∷ bs) = b ++ concat bs

pub concat-append : (xs ys : List (List ℕ)) → concat (xs ++ ys) ≡ concat xs ++ concat ys
concat-append [] ys = refl
concat-append (x ∷ xs) ys =
    ap (λ l. x ++ l) (concat-append xs ys) ∙ sym (append_assoc x (concat xs) (concat ys))

abbrev pub write_chunks : {A : Type 0} → List (List ℕ) → M ProtocolBuffer A → M ProtocolBuffer A
write_chunks [] k = k
write_chunks (b ∷ bs) k = write_buffer b >> write_chunks bs k

-- No write starts at the end of the buffer.
abbrev pub Goes : List (List ℕ) → Type 0
Goes [] = Unit
Goes (b ∷ bs) = (0 < length b + length (concat bs)) × Goes bs

drop-nil : (n : ℕ) → drop {A = ℕ} n [] ≡ []
drop-nil zero = refl
drop-nil (suc n) = refl

drop-drop : (m n : ℕ) (l : List ℕ) → drop n (drop m l) ≡ drop (m + n) l
drop-drop zero n l = ap (λ k. drop k l) (omega arith)
drop-drop (suc m) n [] = drop-nil n ∙ sym (drop-nil (suc m + n))
drop-drop (suc m) n (x ∷ l) =
    let e : suc (m + n) ≡ suc m + n = omega arith in drop-drop m n l ∙ ap (λ k. drop k (x ∷ l)) e

drop_all : (n : ℕ) (l : List ℕ) → length l ≤ n → drop n l ≡ []
drop_all zero [] h = refl
drop_all zero (x ∷ l) h = absurd (omega arith)
drop_all (suc n) [] h = refl
drop_all (suc n) (x ∷ l) h = drop_all n l (omega arith)

module _ {A : Type 0} (N : ℕ) (w : N < 2 ^ 64) (k : M ProtocolBuffer A) where
  pub write_chunks-holding :
      (bs : List (List ℕ)) (pre tail : List ℕ)
      → Goes bs
      → length (concat bs) ≤ length tail
      → length pre + length tail ≡ N
      → write_chunks bs k (holding N pre tail)
        ≡ k (holding N (pre ++ concat bs) (drop (length (concat bs)) tail))
  write_chunks-holding [] pre tail g l e = ap (λ x. k (holding N x tail)) (sym (append-nil pre))
  write_chunks-holding (b ∷ bs) pre tail g l e =
      let n : length (b ++ concat bs) ≡ length b + length (concat bs) =
        length-append b (concat bs) in
      let d : length (drop (length b) tail) ≡ length tail - length b =
        length-drop (length b) tail in
      rw
        (write_buffer-holding N b pre tail
          (record { some_room = omega arith; enough = omega arith; whole = e; is_size = w }))
        (write_chunks-holding bs (pre ++ b) (drop (length b) tail) g.1 (omega arith)
            (omega (arith, length-append pre b))
          ∙ ap (λ x. k (holding N x (drop (length (concat bs)) (drop (length b) tail))))
              (append_assoc pre b (concat bs))
          ∙ ap (λ x. k (holding N (pre ++ (b ++ concat bs)) x))
              (drop-drop (length b) (length (concat bs)) tail ∙ ap (λ m. drop m tail) (sym n)))

  -- A message that fills a buffer of its length.
  pub allocate-chunks :
      ⦃heap : Heap⦄ (bs : List (List ℕ)) (fresh : List ℕ) (p : ProtocolBuffer)
      → Goes bs
      → length (concat bs) ≡ N
      → heap.new_char N ≡ some fresh
      → (allocate N >> write_chunks bs k) p ≡ k (holding N (concat bs) [])
  allocate-chunks ⦃heap⦄ bs fresh p g l e =
      let f : length fresh ≡ N = heap.length-new_char N fresh e in
      rw (allocate-holding N fresh p e) (
        write_chunks-holding bs [] fresh g (omega arith) (omega arith)
        ∙ ap (λ x. k (holding N (concat bs) x)) (drop_all (length (concat bs)) fresh (omega arith)))

-- A call behind the chunks.
behind :
    {S A B : Type 0} (r : Result A × S) (f : M S (Unit {0})) (k g : M S B)
    → ((s : S) → (f >> k) s ≡ g s)
    → bind_result (bind_result r (λ _. f)) (λ _. k) ≡ bind_result r (λ _. g)
behind (ok a, s) f k g h = h s
behind (err e, s) f k g h = refl

pub write_chunks-then :
    {B : Type 0} (bs : List (List ℕ)) (k : M ProtocolBuffer B) (p : ProtocolBuffer)
    → (write_chunks bs (return tt) >> k) p ≡ write_chunks bs k p
write_chunks-then [] k p = refl
write_chunks-then (b ∷ bs) k p =
    behind (write_buffer b p) (write_chunks bs (return tt)) k (write_chunks bs k)
      (write_chunks-then bs k)
