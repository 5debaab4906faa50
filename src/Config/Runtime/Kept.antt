-- ===== src/Config/Runtime/Kept.antt =====
-- What every call on a RuntimeConfiguration keeps (src/main/rtconfig.cxx).
use pg_backup_ctl_plus.Base.{◌≡◌, refl, Bool, true, false, none, List, [], ◌∷◌, arith, All}
use pg_backup_ctl_plus.Base.Int.{ℤ}
use pg_backup_ctl_plus.Base.Result.{Result, ok, err, is_ok, ◌>>◌}
use pg_backup_ctl_plus.Config.Variable.{
  Text, Surroundings, ConfigVariable, bool_variable, string_variable, enum_variable,
  integer_variable, Value, bool, text, int, Calls, Method, header_of, is_allowed, in_range,
  reassign, set_value, set_default, set_range, enforce_range_constraint, new_enum, new_range,
  new_integer, construct, plain_enum, plain_integer,
}
use pg_backup_ctl_plus.Config.Runtime.{Variables, Configuration, find, change_range}

-- The value of an enumeration is one of the allowed ones, and where the range of an integer is
-- enforced, its value and its default lie in it.
abbrev pub IsKept : ConfigVariable → Type 0
IsKept (bool_variable v) = Unit
IsKept (string_variable v) = Unit
IsKept (enum_variable v) = is_allowed v.allowed_values v.value ≡ true
IsKept (integer_variable v) = (in_range v v.value ≡ true) × (in_range v v.default_value ≡ true)

-- A variable under its own name.
abbrev pub Entry : Text × ConfigVariable → Type 0
Entry (k, v) = ((header_of v).name ≡ k) × IsKept v

-- No name stands twice.
abbrev pub Unique : Variables → Type 0
Unique [] = Unit
Unique ((k, v) ∷ vs) = (find k vs ≡ none) × Unique vs

pub record IsSound (c : Configuration) : Type 0 where
  pub entries : All Entry c.variables
  pub unique : Unique c.variables

-- A method that keeps a variable, with its name.
abbrev pub Keeps : ConfigVariable → ConfigVariable → Type 0
Keeps v w = IsKept v → ((header_of w).name ≡ (header_of v).name) × IsKept w

-- A constructor that does not throw makes a variable of this kind.
abbrev pub IsMade : Text → Result ConfigVariable → Type 0
IsMade name (ok v) = Entry (name, v)
IsMade name (err e) = Unit

made :
    (name : Text) (v : ConfigVariable) (r : Result (Unit {0}))
    → (is_ok r ≡ true → Entry (name, v))
    → IsMade name (elim r [ ok u ↦ ok v | err e ↦ err e ])
made name v (ok u) h = h refl
made name v (err e) h = tt

construct-IsMade :
    (name : Text) (m : Method (Unit {0})) (v : ConfigVariable)
    → (is_ok (m (v, [])).0 ≡ true → Entry (name, (m (v, [])).1.0))
    → IsMade name (construct m v)
construct-IsMade name m v = made name (m (v, [])).1.0 (m (v, [])).0

module _ ⦃s : Surroundings⦄ where
  reassign-state : (v : ConfigVariable) (calls : Calls) → (reassign (v, calls)).1.0 ≡ v
  unfolding reassign
  reassign-state v calls = ground arith

  pub set_value-Keeps :
      (x : Value) (v : ConfigVariable) (calls : Calls) → Keeps v (set_value x (v, calls)).1.0
  unfolding set_value
  set_value-Keeps (bool b) (bool_variable v) calls k =
      ground (arith, reassign-state (bool_variable (record v { value = b })) calls)
  set_value-Keeps (text t) (string_variable v) calls k =
      ground (arith, reassign-state (string_variable (record v { value = t })) calls)
  set_value-Keeps (text t) (enum_variable v) calls k =
      ground (arith, reassign-state (enum_variable (record v { value = t })) calls)
  set_value-Keeps (int i) (integer_variable v) calls k =
      ground (arith, reassign-state (integer_variable (record v { value = i })) calls)
  set_value-Keeps (bool b) (string_variable v) calls k = (refl, k)
  set_value-Keeps (bool b) (enum_variable v) calls k = (refl, k)
  set_value-Keeps (bool b) (integer_variable v) calls k = (refl, k)
  set_value-Keeps (text t) (bool_variable v) calls k = (refl, k)
  set_value-Keeps (text t) (integer_variable v) calls k = (refl, k)
  set_value-Keeps (int i) (bool_variable v) calls k = (refl, k)
  set_value-Keeps (int i) (string_variable v) calls k = (refl, k)
  set_value-Keeps (int i) (enum_variable v) calls k = (refl, k)

  pub change_bool-Keeps :
      (b d : Bool) (v : ConfigVariable) (calls : Calls)
      → Keeps v ((set_default (bool d) >> set_value (bool b)) (v, calls)).1.0
  unfolding set_default
  change_bool-Keeps b d (bool_variable v) calls k =
      set_value-Keeps (bool b) (bool_variable (record v { default_value = d })) calls k
  change_bool-Keeps b d (string_variable v) calls k = (refl, k)
  change_bool-Keeps b d (enum_variable v) calls k = (refl, k)
  change_bool-Keeps b d (integer_variable v) calls k = (refl, k)

  -- A change of the range keeps the variable where it succeeds.
  pub change_range-Keeps :
      (value d low high : ℤ) (v : ConfigVariable) (calls : Calls)
      → is_ok (change_range value d low high (v, calls)).0 ≡ true
      → Keeps v (change_range value d low high (v, calls)).1.0
  unfolding change_range set_default
  change_range-Keeps value d low high (bool_variable v) calls h k = cc
  change_range-Keeps value d low high (string_variable v) calls h k = cc
  change_range-Keeps value d low high (enum_variable v) calls h k = cc
  change_range-Keeps value d low high (integer_variable v) calls h k = ground (
    arith,
    reassign-state
        (integer_variable (record v {
          default_value = d;
          min = low;
          max = high;
          enforce_rangecheck = true;
          value = value;
        }))
        calls,
  )

  pub new_enum-IsMade :
      (name value d : Text) (possible : List Text) → IsMade name (new_enum name value d possible)
  unfolding new_enum set_value set_default reassign
  new_enum-IsMade name value d possible =
      construct-IsMade name (set_value (text value) >> set_default (text d))
        (plain_enum name possible) (λ h. ground arith)

  pub new_range-IsMade :
      (name : Text) (value d low high : ℤ) → IsMade name (new_range name value d low high true)
  unfolding new_range set_value set_default set_range enforce_range_constraint reassign
  new_range-IsMade name value d low high =
      construct-IsMade name
        (set_range low high
          >> (enforce_range_constraint true >> (set_default (int d) >> set_value (int value))))
        (plain_integer name) (λ h. ground arith)

  pub new_integer-IsMade :
      (name : Text) (value d : ℤ) → IsMade name (new_integer name value d false)
  unfolding new_integer set_value set_default enforce_range_constraint reassign
  new_integer-IsMade name value d = (refl, (refl, refl))
