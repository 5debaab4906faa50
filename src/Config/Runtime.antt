-- ===== src/Config/Runtime.antt =====
-- Class RuntimeConfiguration (src/main/rtconfig.cxx). The map from names to variables is a list of
-- pairs; no variable is ever removed, so that the pointer that a call returns is the name.
pub mod Kept
pub mod Sound
pub mod Created
use pg_backup_ctl_plus.Base.{
  ℕ, Bool, true, false, Option, none, some, List, [], ◌∷◌, ◌++◌, if◌then◌else◌, length, eq_text,
}
use pg_backup_ctl_plus.Base.Int.{ℤ}
use pg_backup_ctl_plus.Base.Result.{Result, ok, err, failure, M, ◌>>=◌, ◌>>◌, return, bind_result}
use pg_backup_ctl_plus.Config.Variable.{
  Text, Surroundings, ConfigVariable, Value, bool, text, int, Calls, Method, set_value, set_default,
  set_range, enforce_range_constraint, new_bool, new_string, new_enum, new_range, new_integer,
}

abbrev pub Variables : Type 0
Variables = List (Text × ConfigVariable)

-- The configuration and the calls of hooks.
pub record Configuration : Type 0 where
  pub variables : Variables
  pub calls : Calls

-- unordered_map::find
unfoldable pub find : Text → Variables → Option ConfigVariable
find name [] = none
find name ((k, v) ∷ vs) = if eq_text k name then some v else find name vs

-- A change of the variable behind a pointer.
unfoldable pub store : Text → ConfigVariable → Variables → Variables
store name v [] = []
store name v ((k, w) ∷ vs) = if eq_text k name then (k, v) ∷ vs else (k, w) ∷ store name v vs

-- RuntimeConfiguration::get
unfoldable pub get : Text → M Configuration ConfigVariable
unfolding find
get name c = elim (find name c.variables) [ none ↦ (err failure, c) | some v ↦ (ok v, c) ]

-- RuntimeConfiguration::reset finds the variable, and does nothing to it.
unfoldable pub reset : Text → M Configuration (Unit {0})
unfolding find
reset name c = elim (find name c.variables) [ none ↦ (err failure, c) | some v ↦ (ok tt, c) ]

-- RuntimeConfiguration::count_variables
abbrev pub count_variables : Configuration → ℕ
count_variables c = length c.variables

-- A call on a variable of the configuration, which has its changes where the call throws too.
abbrev pub after :
    {A : Type 0}
    → Text
    → Configuration
    → Result A × (ConfigVariable × Calls)
    → Result A × Configuration
after name c (r, (v, calls)) = (r, record { variables = store name v c.variables; calls = calls })

unfoldable pub on_variable : {A : Type 0} → Text → ConfigVariable → Method A → M Configuration A
unfolding store
on_variable name v m c = after name c (m (v, c.calls))

-- insert of a new variable, where its constructor has not thrown.
unfoldable pub insert : Text → Result ConfigVariable → M Configuration (Unit {0})
insert name (ok v) c = (ok tt, record c { variables = c.variables ++ (name, v) ∷ [] })
insert name (err e) c = (err e, c)

-- The five overloads of create: a method on a variable that is there, or a new one.
unfoldable pub create_with :
    Text → Method (Unit {0}) → Result ConfigVariable → M Configuration (Unit {0})
unfolding find on_variable insert
create_with name change new c = elim (find name c.variables) [
  | none ↦ insert name new c
  | some v ↦ on_variable name v change c
]

module _ ⦃s : Surroundings⦄ where
  unfoldable pub create_bool : Text → Bool → Bool → M Configuration (Unit {0})
  unfolding create_with set_value set_default
  create_bool name value defaultval =
      create_with name (do set_default (bool defaultval); set_value (bool value))
        (ok (new_bool name value defaultval))

  -- The change of the overload with a range.
  unfoldable pub change_range : ℤ → ℤ → ℤ → ℤ → Method (Unit {0})
  unfolding set_value set_default set_range enforce_range_constraint
  change_range value defaultval low high = do
    set_default (int defaultval)
    set_range low high
    enforce_range_constraint true
    set_value (int value)

  unfoldable pub create_range : Text → ℤ → ℤ → ℤ → ℤ → M Configuration (Unit {0})
  unfolding create_with change_range new_range
  create_range name value defaultval low high =
      create_with name (change_range value defaultval low high)
        (new_range name value defaultval low high true)

  unfoldable pub create_enum : Text → Text → Text → List Text → M Configuration (Unit {0})
  unfolding create_with set_value new_enum
  create_enum name value defaultval possible =
      create_with name (set_value (text value)) (new_enum name value defaultval possible)

  unfoldable pub create_integer : Text → ℤ → ℤ → M Configuration (Unit {0})
  unfolding create_with set_value new_integer
  create_integer name value defaultval =
      create_with name (set_value (int value)) (new_integer name value defaultval false)

  unfoldable pub create_string : Text → Text → Text → M Configuration (Unit {0})
  unfolding create_with set_value
  create_string name value defaultval =
      create_with name (set_value (text value)) (ok (new_string name value defaultval))

  -- The three overloads of set.
  unfoldable pub set : Text → Value → M Configuration (Unit {0})
  unfolding find on_variable set_value
  set name value c = elim (find name c.variables) [
    | none ↦ (err failure, c)
    | some v ↦ on_variable name v (set_value value) c
  ]

-- The calls that the configuration takes.
pub data Request : Type 0 where
  bool_request : Text → Bool → Bool → Request
  range_request : Text → ℤ → ℤ → ℤ → ℤ → Request
  enum_request : Text → Text → Text → List Text → Request
  integer_request : Text → ℤ → ℤ → Request
  string_request : Text → Text → Text → Request
  set_request : Text → Value → Request
  reset_request : Text → Request

unfoldable pub perform : ⦃s : Surroundings⦄ → Request → M Configuration (Unit {0})
unfolding create_bool create_range create_enum create_integer create_string set reset
perform (bool_request name value d) = create_bool name value d
perform (range_request name value d low high) = create_range name value d low high
perform (enum_request name value d possible) = create_enum name value d possible
perform (integer_request name value d) = create_integer name value d
perform (string_request name value d) = create_string name value d
perform (set_request name value) = set name value
perform (reset_request name) = reset name
