-- ===== src/Buffer/ErrorStack/Counts.antt =====
-- The running sizes of a ProtocolErrorStack (src/protocol/proto-buffer.cxx).
use pg_backup_ctl_plus.Base.{
  ℕ, suc, ◌+◌, ◌-◌, ◌%◌, ◌^◌, ◌<◌, ◌≡◌, ap, sym, ◌∙◌, List, [], ◌∷◌, arith, length,
}
use pg_backup_ctl_plus.Base.Result.{ok}
use pg_backup_ctl_plus.Buffer.ErrorStack.{ErrorField, ErrorStack, element_size, push, pop}

abbrev pub content : List ErrorField → ℕ
content [] = 0
content (f ∷ fs) = suc (length f.value) + content fs

abbrev pub top_size : List ErrorField → ℕ
top_size [] = 0
top_size (f ∷ fs) = suc (length f.value)

-- The running sizes are those of the fields, and fit a size_t.
pub record IsCounted (s : ErrorStack) : Type 0 where
  pub total : s.content_size ≡ content s.es
  pub of_top : s.top_element_size ≡ top_size s.es
  pub is_size : content s.es < 2 ^ 64

-- Pushing a field for whose size there is room keeps the running sizes those of the fields.
pub push-IsCounted :
    (f : ErrorField) (s : ErrorStack)
    → IsCounted s
    → content (f ∷ s.es) < 2 ^ 64
    → IsCounted (push f s)
unfolding push
push-IsCounted f s c h = record {
  total = omega (arith, c.total);
  of_top = omega arith;
  is_size = h;
}

abbrev pub stack : List ErrorField → ℕ → ℕ → ErrorStack
stack fs t c = record { es = fs; top_element_size = t; content_size = c }

-- Popping what was pushed, with room for its size, gives the stack back, sizes included.
pub pop-push :
    (f : ErrorField) (fs : List ErrorField) (t c : ℕ)
    → IsCounted (stack fs t c)
    → content (f ∷ fs) < 2 ^ 64
    → pop (push f (stack fs t c)) ≡ (ok tt, stack fs t c)
unfolding pop push
pop-push f [] t c k h =
    ap (λ n. (ok tt, stack [] n 0)) (sym k.of_top) ∙ ap (λ n. (ok tt, stack [] t n)) (sym k.total)
pop-push f (g ∷ fs) t c k h =
    let e : element_size g ≡ t = omega (arith, k.of_top) in
    let e' : ((c + element_size f) % 2 ^ 64 + 2 ^ 64 - element_size f) % 2 ^ 64 ≡ c =
      omega (arith, k.total) in
    ap
      (λ n. (
        ok tt,
        stack (g ∷ fs) n (((c + element_size f) % 2 ^ 64 + 2 ^ 64 - element_size f) % 2 ^ 64),
      ))
      e
    ∙ ap (λ n. (ok tt, stack (g ∷ fs) t n)) e'
