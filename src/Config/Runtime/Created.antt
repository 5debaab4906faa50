-- ===== src/Config/Runtime/Created.antt =====
-- What RuntimeConfiguration::create (src/main/rtconfig.cxx) makes of a name that is new.
use pg_backup_ctl_plus.Base.{
  ◌≡◌, refl, ap, true, none, some, List, [], ◌∷◌, ◌++◌, arith, ◌||◌, eq_text_self,
}
use pg_backup_ctl_plus.Base.Int.{ℤ, pos, lt_ℤ}
use pg_backup_ctl_plus.Base.Result.{ok, err, failure}
use pg_backup_ctl_plus.Config.Variable.{
  Text, Surroundings, ConfigVariable, bool_variable, string_variable, enum_variable,
  integer_variable, header_for, is_allowed, set_value, set_default, set_range,
  enforce_range_constraint, reassign, new_enum, new_range, get_text,
}
use pg_backup_ctl_plus.Config.Variable
use pg_backup_ctl_plus.Config.Runtime.{
  Variables, Configuration, find, insert, create_with, create_range, create_enum, get,
}

find-append_self :
    (k : Text) (v : ConfigVariable) (vs : Variables)
    → find k vs ≡ none
    → find k (vs ++ (k, v) ∷ []) ≡ some v
unfolding find
find-append_self k v [] h = rw (eq_text_self k)
find-append_self k v ((j, w) ∷ vs) h = ground (arith, find-append_self k v vs)

new_range-without_zero :
    ⦃s : Surroundings⦄ (name : Text) (value d low high : ℤ)
    → (lt_ℤ (pos 0) low || lt_ℤ high (pos 0)) ≡ true
    → new_range name value d low high true ≡ err failure
unfolding new_range set_range enforce_range_constraint
new_range-without_zero name value d low high h = ground arith

new_enum-takes_default :
    ⦃s : Surroundings⦄ (name value d : Text) (possible : List Text)
    → is_allowed possible value ≡ true
    → is_allowed possible d ≡ true
    → new_enum name value d possible
      ≡ ok (
          enum_variable (record {
            header = header_for name;
            allowed_values = possible;
            value = d;
            default_value = [];
          }))
unfolding new_enum set_value set_default reassign
new_enum-takes_default name value d possible p q = ground arith

module _ ⦃s : Surroundings⦄ (name : Text) (c : Configuration)
    (new : find name c.variables ≡ none) where
  -- A range without zero is refused for a name that is new, whatever the value and the default are,
  -- and the configuration stays as it is.
  pub create_range-without_zero :
      (value d low high : ℤ)
      → (lt_ℤ (pos 0) low || lt_ℤ high (pos 0)) ≡ true
      → create_range name value d low high c ≡ (err failure, c)
  unfolding create_range create_with new_range insert
  create_range-without_zero value d low high h =
      rw (new, create_with)
        (ap (λ r. insert name r c) (new_range-without_zero name value d low high h))

  -- An enumeration that is made of an allowed value and an allowed default is found under its name
  -- with the default for its value, and to reset it empties the value.
  pub create_enum-takes_default :
      (value d : Text) (possible : List Text)
      → is_allowed possible value ≡ true
      → is_allowed possible d ≡ true
      → (v : ConfigVariable) × (c' : Configuration) × (create_enum name value d possible c
          ≡ (ok tt, c'))
        × (get name c' ≡ (ok v, c'))
        × (get_text v ≡ d)
        × (get_text (Variable.reset v) ≡ [])
  unfolding create_enum create_with new_enum insert set_value set_default reassign get
      Variable.reset
  create_enum-takes_default value d possible p q =
      let v : ConfigVariable = enum_variable (record {
        header = header_for name;
        allowed_values = possible;
        value = d;
        default_value = [];
      }) in
      let c' = record c { variables = c.variables ++ (name, v) ∷ [] } in
      (
        v,
        c',
        rw (new, create_with)
            (ap (λ r. insert name r c) (new_enum-takes_default name value d possible p q)),
        rw (find-append_self name v c.variables new, get) refl,
        refl,
        refl,
      )
