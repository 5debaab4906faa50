-- ===== src/Config/Runtime/Sound.antt =====
-- Every call on a RuntimeConfiguration keeps the configuration sound (src/main/rtconfig.cxx).
use pg_backup_ctl_plus.Base.{
  ◌≡◌, refl, true, false, none, some, [], ◌∷◌, ◌++◌, arith, eq_text, eq_text_iff, Bool-cases, inl,
  inr, All, All-append, Option-cases, ◌∙◌, sym,
}
use pg_backup_ctl_plus.Base.Int.{ℤ}
use pg_backup_ctl_plus.Base.Result.{Result, ok, err, is_ok, ◌>>◌}
use pg_backup_ctl_plus.Config.Variable.{
  Text, Surroundings, ConfigVariable, bool, text, int, Method, set_value, set_default, new_bool,
  new_string, new_enum, new_range, new_integer,
}
use pg_backup_ctl_plus.Config.Runtime.{
  Variables, Configuration, find, store, on_variable, insert, create_with, create_bool,
  create_range, change_range, create_enum, create_integer, create_string, set, reset, Request,
  bool_request, range_request, enum_request, integer_request, string_request, set_request,
  reset_request, perform,
}
use pg_backup_ctl_plus.Config.Runtime.Kept.{
  Entry, Unique, IsSound, Keeps, IsMade, set_value-Keeps, change_bool-Keeps, change_range-Keeps,
  new_enum-IsMade, new_range-IsMade, new_integer-IsMade,
}

-- The map.
find-Entry :
    (k : Text) (v : ConfigVariable) (vs : Variables)
    → All Entry vs
    → find k vs ≡ some v
    → Entry (k, v)
unfolding find
find-Entry k v [] a h = cc
find-Entry k v ((j, w) ∷ vs) a h = elim (Bool-cases (eq_text j k)) [
  | inl e ↦ ground (arith, eq_text_iff j k)
  | inr e ↦ find-Entry k v vs a.1 (rw e at h)
]

store-All :
    (k : Text) (v : ConfigVariable) (vs : Variables)
    → Entry (k, v)
    → All Entry vs
    → All Entry (store k v vs)
unfolding store
store-All k v [] h a = tt
store-All k v ((j, w) ∷ vs) h a = elim (Bool-cases (eq_text j k)) [
  | inl e ↦ rw e ((h.0 ∙ sym ((eq_text_iff j k).0 e), h.1), a.1)
  | inr e ↦ rw e (a.0, store-All k v vs h a.1)
]

find-store-none :
    (k j : Text) (v : ConfigVariable) (vs : Variables)
    → find j vs ≡ none
    → find j (store k v vs) ≡ none
unfolding find store
find-store-none k j v [] h = refl
find-store-none k j v ((i, w) ∷ vs) h =
    ground (arith, eq_text_iff i k, eq_text_iff k j, eq_text_iff i j, find-store-none k j v vs)

store-Unique : (k : Text) (v : ConfigVariable) (vs : Variables) → Unique vs → Unique (store k v vs)
unfolding store
store-Unique k v [] u = tt
store-Unique k v ((j, w) ∷ vs) u = elim (Bool-cases (eq_text j k)) [
  | inl e ↦ rw e u
  | inr e ↦ rw e (find-store-none k j v vs u.0, store-Unique k v vs u.1)
]

find-append_other :
    (k j : Text) (v : ConfigVariable) (vs : Variables)
    → eq_text k j ≡ false
    → find j (vs ++ (k, v) ∷ []) ≡ find j vs
unfolding find
find-append_other k j v [] h = rw h
find-append_other k j v ((i, w) ∷ vs) h = ground (arith, find-append_other k j v vs)

append-Unique :
    (k : Text) (v : ConfigVariable) (vs : Variables)
    → find k vs ≡ none
    → Unique vs
    → Unique (vs ++ (k, v) ∷ [])
unfolding find
append-Unique k v [] h u = (refl, tt)
append-Unique k v ((j, w) ∷ vs) h u =
    let e : eq_text k j ≡ false = ground (arith, eq_text_iff k j, eq_text_iff j k) in
    let f : find k vs ≡ none = ground arith in
    (find-append_other k j v vs e ∙ u.0, append-Unique k v vs f u.1)

find-store_other :
    (k j : Text) (v : ConfigVariable) (vs : Variables)
    → eq_text k j ≡ false
    → find j (store k v vs) ≡ find j vs
unfolding find store
find-store_other k j v [] h = refl
find-store_other k j v ((i, w) ∷ vs) h =
    ground (arith, eq_text_iff i k, eq_text_iff k j, eq_text_iff i j, find-store_other k j v vs)

-- The name that a call is about.
abbrev pub name_of : Request → Text
name_of (bool_request name value d) = name
name_of (range_request name value d low high) = name
name_of (enum_request name value d possible) = name
name_of (integer_request name value d) = name
name_of (string_request name value d) = name
name_of (set_request name value) = name
name_of (reset_request name) = name

-- A configuration that is sound, and has another one's variables of other names.
abbrev pub Follows : Text → Configuration → Configuration → Type 0
Follows name c d =
    IsSound d × ((k : Text) → eq_text name k ≡ false → find k d.variables ≡ find k c.variables)

unchanged : (name : Text) (c : Configuration) → IsSound c → Follows name c c
unchanged name c h = (h, λ k e. refl)

module _ {A : Type 0} (name : Text) (c : Configuration) (h : IsSound c) where
  on_variable-Follows :
      (v : ConfigVariable) (m : Method A)
      → find name c.variables ≡ some v
      → Keeps v (m (v, c.calls)).1.0
      → Follows name c (on_variable name v m c).1
  unfolding on_variable
  on_variable-Follows v m f k =
      let e = find-Entry name v c.variables h.entries f in
      let w = (m (v, c.calls)).1.0 in
      let (n, kept) = k e.1 in
      (
        record {
          entries = store-All name w c.variables (n ∙ e.0, kept) h.entries;
          unique = store-Unique name w c.variables h.unique;
        },
        λ j d. find-store_other name j w c.variables d,
      )

insert-Follows :
    (name : Text) (c : Configuration) (new : Result ConfigVariable)
    → IsSound c
    → find name c.variables ≡ none
    → IsMade name new
    → Follows name c (insert name new c).1
unfolding insert
insert-Follows name c (ok v) h f m = (
  record {
    entries = All-append Entry c.variables ((name, v) ∷ []) h.entries (m, tt);
    unique = append-Unique name v c.variables f h.unique;
  },
  λ j d. find-append_other name j v c.variables d,
)
insert-Follows name c (err e) h f m = unchanged name c h

create_with-Follows :
    (name : Text) (change : Method (Unit {0})) (new : Result ConfigVariable) (c : Configuration)
    → IsSound c
    → IsMade name new
    → ((v : ConfigVariable) → find name c.variables ≡ some v → Keeps v (change (v, c.calls)).1.0)
    → Follows name c (create_with name change new c).1
unfolding create_with
create_with-Follows name change new c h m k = elim (Option-cases (find name c.variables)) [
  | inl e ↦ rw (e, create_with) (insert-Follows name c new h e m)
  | inr (v, e) ↦ rw (e, create_with) (on_variable-Follows name c h v change e (k v e))
]

-- A call that changes a range is one that succeeds.
abbrev pub Accepted : ⦃s : Surroundings⦄ → Request → Configuration → Type 0
Accepted (range_request name value d low high) c =
    is_ok (create_range name value d low high c).0 ≡ true
Accepted _ c = Unit {0}

module _ ⦃s : Surroundings⦄ where
  change_range-kept :
      (name : Text) (value d low high : ℤ) (c : Configuration) (v : ConfigVariable)
      → is_ok (create_range name value d low high c).0 ≡ true
      → find name c.variables ≡ some v
      → Keeps v (change_range value d low high (v, c.calls)).1.0
  unfolding create_range create_with on_variable
  change_range-kept name value d low high c v a e =
      change_range-Keeps value d low high v c.calls (rw (e, create_with) at a)

  -- A call on a sound configuration, other than one that sets a range and throws, leaves it sound,
  -- also where it throws: a name stands once, for a variable of this name; an enumeration has an
  -- allowed value, and the value and the default of an integer lie in its range where that is
  -- enforced. The variables of other names stay as they are.
  pub perform-IsSound :
      (q : Request) (c : Configuration)
      → IsSound c
      → Accepted q c
      → Follows (name_of q) c (perform q c).1
  unfolding perform create_bool create_range create_enum create_integer create_string set reset
  perform-IsSound (bool_request name value d) c h a =
      create_with-Follows name (set_default (bool d) >> set_value (bool value))
        (ok (new_bool name value d)) c h (refl, tt) (λ v e. change_bool-Keeps value d v c.calls)
  perform-IsSound (range_request name value d low high) c h a =
      create_with-Follows name (change_range value d low high)
        (new_range name value d low high true) c h (new_range-IsMade name value d low high)
        (λ v e. change_range-kept name value d low high c v a e)
  perform-IsSound (enum_request name value d possible) c h a =
      create_with-Follows name (set_value (text value)) (new_enum name value d possible) c h
        (new_enum-IsMade name value d possible) (λ v e. set_value-Keeps (text value) v c.calls)
  perform-IsSound (integer_request name value d) c h a =
      create_with-Follows name (set_value (int value)) (new_integer name value d false) c h
        (new_integer-IsMade name value d) (λ v e. set_value-Keeps (int value) v c.calls)
  perform-IsSound (string_request name value d) c h a =
      create_with-Follows name (set_value (text value)) (ok (new_string name value d)) c h
        (refl, tt) (λ v e. set_value-Keeps (text value) v c.calls)
  perform-IsSound (set_request name value) c h a = elim (Option-cases (find name c.variables)) [
    | inl e ↦ rw (e, set) (unchanged name c h)
    | inr (v, e) ↦
        rw (e, set)
          (on_variable-Follows name c h v (set_value value) e (set_value-Keeps value v c.calls))
  ]
  perform-IsSound (reset_request name) c h a = elim (Option-cases (find name c.variables)) [
    | inl e ↦ rw (e, reset) (unchanged name c h)
    | inr (v, e) ↦ rw (e, reset) (unchanged name c h)
  ]
