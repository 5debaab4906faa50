-- ===== src/Server/Startup/Parameters.antt =====
-- The parameters of a startup message (`_read_startup_gucs` in src/jobs/server.cxx).
use pg_backup_ctl_plus.Base.{
  ℕ, ◌+◌, ◌-◌, ◌<◌, ◌≡◌, refl, ap, sym, ◌∙◌, Bool, true, false, Option, none, some, List, [], ◌∷◌,
  ◌++◌, append_assoc, append-nil, arith, ◌==◌, if◌then◌else◌, length, take, take-length-append, All,
  eq_text, eq_text_iff,
}
use pg_backup_ctl_plus.Base.Result.{ok}
use pg_backup_ctl_plus.Buffer.Memory
use pg_backup_ctl_plus.Buffer.Protocol.Content.{holding}
use pg_backup_ctl_plus.Server.Connection.{Text, Connection}
use pg_backup_ctl_plus.Server.Startup.{
  Outside, Scan, find_guc, insert_guc, end_text, scan_byte, scan_bytes, read_startup_gucs,
}

-- The parameters as a client sends them, without the last byte of the message.
abbrev pub packet : List (Text × Text) → List ℕ
packet [] = []
packet ((k, v) ∷ ps) = k ++ 0 ∷ (v ++ 0 ∷ packet ps)

-- A text that is not empty and has no null byte.
abbrev pub IsPlain : Text → Type 0
IsPlain t = (0 < length t) × All (λ b. 0 < b) t

abbrev pub ArePlain : List (Text × Text) → Type 0
ArePlain [] = Unit
ArePlain ((k, v) ∷ ps) = IsPlain k × IsPlain v × ArePlain ps

module _ ⦃outside : Outside⦄ where
  -- The value of the first parameter with a key, in lower case.
  abbrev pub first_value : Text → List (Text × Text) → Option Text
  first_value k [] = none
  first_value k ((j, v) ∷ ps) = if eq_text (outside.to_lower j) k then some v else first_value k ps

  scan_byte-plain :
      (b : ℕ) (s : Scan) → 0 < b → scan_byte b s ≡ record s { since = s.since ++ b ∷ [] }
  unfolding scan_byte
  scan_byte-plain b s h = ground arith

  scan_bytes-text :
      (t rest : List ℕ) (s : Scan)
      → All (λ b. 0 < b) t
      → scan_bytes (t ++ rest) s ≡ scan_bytes rest (record s { since = s.since ++ t })
  unfolding scan_bytes scan_byte
  scan_bytes-text [] rest s h =
      ap (λ x. scan_bytes rest (record s { since = x })) (sym (append-nil s.since))
  scan_bytes-text (b ∷ t) rest s h =
      ap (scan_bytes (t ++ rest)) (scan_byte-plain b s h.0)
      ∙ scan_bytes-text t rest (record s { since = s.since ++ b ∷ [] }) h.1
      ∙ ap (λ x. scan_bytes rest (record s { since = x })) (append_assoc s.since (b ∷ []) t)

  scan_bytes-end :
      (t rest : List ℕ) (k : Bool) (key : Text) (m : List (Text × Text))
      → IsPlain t
      → scan_bytes (t ++ 0 ∷ rest) (record { since = []; is_key = k; key = key; gucs = m })
        ≡ scan_bytes rest (end_text (record { since = t; is_key = k; key = key; gucs = m }))
  unfolding scan_bytes scan_byte
  scan_bytes-end [] rest k key m h = absurd (omega arith)
  scan_bytes-end (c ∷ t) rest k key m h =
      scan_bytes-text (c ∷ t) (0 ∷ rest) (record { since = []; is_key = k; key = key; gucs = m })
        h.1

  insert_all : List (Text × Text) → List (Text × Text) → List (Text × Text)
  insert_all [] m = m
  insert_all ((k, v) ∷ ps) m = insert_all ps (insert_guc (outside.to_lower k) v m)

  scan_bytes-packet :
      (ps : List (Text × Text)) (key : Text) (m : List (Text × Text))
      → ArePlain ps
      → (scan_bytes (packet ps) (record { since = []; is_key = true; key = key; gucs = m })).gucs
        ≡ insert_all ps m
  unfolding insert_all scan_bytes end_text
  scan_bytes-packet [] key m h = refl
  scan_bytes-packet ((k, v) ∷ ps) key m h =
      let lower = outside.to_lower k in
      ap (λ s. s.gucs)
        (scan_bytes-end k (v ++ 0 ∷ packet ps) true key m h.0
          ∙ scan_bytes-end v (packet ps) false lower m h.1)
      ∙ scan_bytes-packet ps lower (insert_guc lower v m) h.2

  find_guc-append :
      (k j v : Text) (m : List (Text × Text))
      → find_guc k (m ++ (j, v) ∷ [])
        ≡ elim (find_guc k m) [ none ↦ if eq_text j k then some v else none | some w ↦ some w ]
  unfolding find_guc
  find_guc-append k j v [] = refl
  find_guc-append k j v ((i, w) ∷ m) = ground (arith, find_guc-append k j v m)

  find_guc-insert_all :
      (k : Text) (ps m : List (Text × Text))
      → find_guc k (insert_all ps m)
        ≡ elim (find_guc k m) [ none ↦ first_value k ps | some w ↦ some w ]
  unfolding insert_all insert_guc
  find_guc-insert_all k [] m = ground arith
  find_guc-insert_all k ((j, v) ∷ ps) m =
      let lower = outside.to_lower j in
      ground (
        arith,
        find_guc-insert_all k ps (insert_guc lower v m),
        find_guc-append k lower v m,
        eq_text_iff lower k,
      )

module _ ⦃outside : Outside⦄ (c : Connection) (ps : List (Text × Text)) (N : ℕ) where
  -- A connection whose body buffer has the parameters of a startup message.
  abbrev pub arrived : Connection
  arrived = record c { body_buffer = holding N [] (packet ps ++ 0 ∷ []); startup_gucs = [] }

  -- Where the keys and the values of the parameters are not empty and have no null byte, reading the
  -- body of the startup message gives each key, in lower case, the value of its first parameter, and
  -- no other key a value.
  pub read_startup_gucs-packet :
      ArePlain ps
      → length (packet ps) + 1 ≡ N
      → (m : List (Text × Text)) × (read_startup_gucs arrived
          ≡ (ok tt, record arrived { startup_gucs = m }))
        × ((k : Text) → find_guc k m ≡ first_value k ps)
  unfolding read_startup_gucs Memory.ptr find_guc
  read_startup_gucs-packet h e =
      let nonzero : (N == 0) ≡ false = ground arith in
      let visited : take (N - 1) (packet ps ++ 0 ∷ []) ≡ packet ps =
        ap (λ n. take n (packet ps ++ 0 ∷ [])) (omega arith)
        ∙ take-length-append (packet ps) (0 ∷ []) in
      (
        insert_all ps [],
        rw nonzero (
            ap
              (λ l. (
                ok tt,
                record arrived {
                  startup_gucs =
                      (scan_bytes l
                        (record { since = []; is_key = true; key = []; gucs = [] })).gucs;
                },
              ))
              visited
            ∙ ap (λ m. (ok tt, record arrived { startup_gucs = m }))
                (scan_bytes-packet ps [] [] h)),
        λ k. find_guc-insert_all k ps [],
      )
