-- ===== src/Copy/State/Response.antt =====
-- The message that opens a COPY (`writeCopyResponse` of src/protocol/pgproto-copystate.cxx).
use pg_backup_ctl_plus.Base.{
  ℕ, suc, ◌+◌, ◌-◌, ◌*◌, ◌%◌, ◌^◌, ◌<◌, ◌≡◌, refl, ap, subst, sym, ◌∙◌, false, Option, some, List,
  [], ◌∷◌, ◌++◌, append-nil, append_assoc, arith, leb, length, length-append, drop, length-drop,
  get_elem?,
}
use pg_backup_ctl_plus.Base.Bytes.{be16, be32}
use pg_backup_ctl_plus.Base.Result.{ok}
use pg_backup_ctl_plus.Buffer.Memory.{Heap}
use pg_backup_ctl_plus.Buffer.Protocol.{ProtocolBuffer}
use pg_backup_ctl_plus.Buffer.Protocol.Content.{
  holding, Room, write_byte-holding, write_short-holding, write_int-holding, allocate-holding,
}
use pg_backup_ctl_plus.Copy.Format.{CopyFormat}
use pg_backup_ctl_plus.Copy.Format
use pg_backup_ctl_plus.Copy.State.{
  CopyState, in_response, out_response, both_response, data_in, data_out, data_both, copy_done,
  copy_fail, context, next_state, response_type, state_type, type_init, write_columns,
  write_copy_response, write_response, write,
}

abbrev pub columns : List ℕ → List ℕ
columns [] = []
columns (f ∷ fs) = be16 f ++ columns fs

length-columns : (fs : List ℕ) → length (columns fs) ≡ 2 * length fs
length-columns [] = refl
length-columns (f ∷ fs) = omega (arith, length-columns fs)

get_elem?-length :
    (before : List ℕ) (x : ℕ) (after : List ℕ)
    → get_elem? (before ++ x ∷ after) (length before) ≡ some x
get_elem?-length [] x after = refl
get_elem?-length (y ∷ before) x after = get_elem?-length before x after

abbrev pub format_of : List ℕ → ℕ → CopyFormat
format_of fs type = record { formats = fs; cols = length fs; copy_format_type = type }

get-format_of :
    (before : List ℕ) (x : ℕ) (after : List ℕ) (type : ℕ)
    → Format.get (length before) (format_of (before ++ x ∷ after) type) ≡ ok x
unfolding Format.get
get-format_of before x after type =
    let e : leb (length (before ++ x ∷ after)) (length before) ≡ false =
      ground (arith, length-append before (x ∷ after)) in
    rw (e, Format.get) (rw (get_elem?-length before x after) refl)

module _ (N : ℕ) (h : N < 2 ^ 64) (type : ℕ) where
  write_columns-holding :
      (after before pre tail : List ℕ)
      → length tail ≡ 2 * length after
      → length pre + length tail ≡ N
      → write_columns
          (format_of (before ++ after) type)
          (length after)
          (length before)
          (holding N pre tail)
        ≡ (ok tt, holding N (pre ++ columns after) [])
  unfolding write_columns
  write_columns-holding [] before pre [] l w =
      ap (λ x. (ok tt, holding N x [])) (sym (append-nil pre))
  write_columns-holding [] before pre (t ∷ tail) l w = absurd (omega arith)
  write_columns-holding (x ∷ after) before pre tail l w =
      let room : Room N pre tail 2 = record {
        some_room = omega arith;
        enough = omega arith;
        whole = w;
        is_size = h;
      } in
      let next =
        write_columns-holding after (before ++ x ∷ []) (pre ++ be16 x) (drop 2 tail)
          (omega (arith, length-drop 2 tail))
          (omega (arith, length-append pre (be16 x), length-drop 2 tail)) in
      rw (get-format_of before x after type) (
        rw (write_short-holding N pre tail x room) (
          subst
            (λ fs.
              write_columns (format_of fs type) (length after) (suc (length before))
                (holding N (pre ++ be16 x) (drop 2 tail))
              ≡ (ok tt, holding N (pre ++ columns (x ∷ after)) []))
            (append_assoc before (x ∷ []) after)
            (subst
              (λ i.
                write_columns (format_of ((before ++ x ∷ []) ++ after) type) (length after) i
                  (holding N (pre ++ be16 x) (drop 2 tail))
                ≡ (ok tt, holding N (pre ++ columns (x ∷ after)) []))
              (omega (arith, length-append before (x ∷ [])))
              (next
                ∙ ap (λ y. (ok tt, holding N y [])) (append_assoc pre (be16 x) (columns after))))))

-- The message for a type, an overall format and the formats of the columns.
abbrev pub copy_response : ℕ → ℕ → List ℕ → List ℕ
copy_response type overall fs =
    type ∷ be32 (8 + length fs * 2 - 1) ++ (overall % 256 ∷ be16 (length fs)) ++ columns fs

module _ ⦃heap : Heap⦄ (fs : List ℕ) (type overall : ℕ) (o : ProtocolBuffer) (fresh : List ℕ) where
  write_copy_response-holding :
      length fs < 2 ^ 16
      → type < 256
      → heap.new_char (8 + length fs * 2) ≡ some fresh
      → write_copy_response type (format_of fs overall) o
        ≡ (ok (8 + length fs * 2), holding (8 + length fs * 2) (copy_response type overall fs) [])
  unfolding write_copy_response
  write_copy_response-holding lt byte e =
      let N = 8 + length fs * 2 in
      let lf : length fresh ≡ N = heap.length-new_char N fresh e in
      let t1 = drop 1 fresh in
      let t2 = drop 4 t1 in
      let t3 = drop 1 t2 in
      let t4 = drop 2 t3 in
      let l1 : length t1 ≡ N - 1 = omega (arith, length-drop 1 fresh) in
      let l2 : length t2 ≡ N - 5 = omega (arith, length-drop 4 t1) in
      let l3 : length t3 ≡ N - 6 = omega (arith, length-drop 1 t2) in
      let l4 : length t4 ≡ N - 8 = omega (arith, length-drop 2 t3) in
      let b : type % 256 ≡ type = omega arith in
      let p1 : List ℕ = type ∷ [] in
      let p2 : List ℕ = p1 ++ be32 (N - 1) in
      let p3 : List ℕ = p2 ++ overall % 256 ∷ [] in
      let b2 : overall % 256 % 256 ≡ overall % 256 = omega arith in
      let r1 : Room N [] fresh 1 = record {
        some_room = omega arith;
        enough = omega arith;
        whole = omega arith;
        is_size = omega arith;
      } in
      let r2 : Room N p1 t1 4 = record {
        some_room = omega arith;
        enough = omega arith;
        whole = omega arith;
        is_size = omega arith;
      } in
      let r3 : Room N p2 t2 1 = record {
        some_room = omega arith;
        enough = omega arith;
        whole = omega arith;
        is_size = omega arith;
      } in
      let r4 : Room N p3 t3 2 = record {
        some_room = omega arith;
        enough = omega arith;
        whole = omega arith;
        is_size = omega arith;
      } in
      rw (allocate-holding N fresh o e) (
        rw (write_byte-holding N [] fresh type r1) (
          rw b (
            rw (write_int-holding N p1 t1 (N - 1) r2) (
              rw (write_byte-holding N p2 t2 (overall % 256) r3) (
                rw b2 (
                  rw (write_short-holding N p3 t3 (length fs) r4) (
                    rw
                      (write_columns-holding N (omega arith) overall fs [] (p3 ++ be16 (length fs))
                        t4 (omega arith) (omega arith))
                      refl)))))))

-- In a state that opens a COPY, with both buffers and the formats at hand, fewer than 2^16 columns
-- and an allocation that succeeds: write moves on to the data state, returns the length 8 + 2n, and
-- leaves the message of exactly this length, its length field one less.
pub write-copy_response :
    ⦃heap : Heap⦄ (fs : List ℕ) (overall : ℕ) (i d e : Option ProtocolBuffer) (o : ProtocolBuffer)
    (fresh : List ℕ) (s : CopyState)
    → state_type s ≡ type_init
    → length fs < 2 ^ 16
    → heap.new_char (8 + length fs * 2) ≡ some fresh
    → (write (context (some (format_of fs overall)) i d (some o) e s) ≡ (
      ok (8 + length fs * 2),
      context
          (some (format_of fs overall))
          i
          d
          (some (holding (8 + length fs * 2) (copy_response (response_type s) overall fs) []))
          e
          (next_state s),
    ))
      × (length (copy_response (response_type s) overall fs) ≡ 8 + length fs * 2)
unfolding write write_response
write-copy_response fs overall i d e o fresh in_response h lt k = (
  rw (write_copy_response-holding fs b'G' overall o fresh lt (omega arith) k) refl,
  omega (arith, length-columns fs),
)
write-copy_response fs overall i d e o fresh out_response h lt k = (
  rw (write_copy_response-holding fs b'H' overall o fresh lt (omega arith) k) refl,
  omega (arith, length-columns fs),
)
write-copy_response fs overall i d e o fresh both_response h lt k = (
  rw (write_copy_response-holding fs b'W' overall o fresh lt (omega arith) k) refl,
  omega (arith, length-columns fs),
)
write-copy_response fs overall i d e o fresh data_in h lt k = absurd (cc h)
write-copy_response fs overall i d e o fresh data_out h lt k = absurd (cc h)
write-copy_response fs overall i d e o fresh data_both h lt k = absurd (cc h)
write-copy_response fs overall i d e o fresh copy_done h lt k = absurd (cc h)
write-copy_response fs overall i d e o fresh copy_fail h lt k = absurd (cc h)
