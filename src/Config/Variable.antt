-- ===== src/Config/Variable.antt =====
-- The classes of runtime variables (src/main/rtconfig.cxx, include/rtconfig.hxx). A call through a
-- pointer to the base class reaches the overload of the variable's own class, or the one of the base
-- class, which throws.
use pg_backup_ctl_plus.Base.{
  ℕ, Bool, true, false, not, ◌&&◌, ◌||◌, Option, none, some, List, [], ◌∷◌, ◌++◌, if◌then◌else◌,
  eq_text,
}
use pg_backup_ctl_plus.Base.Int.{ℤ, pos, lt_ℤ}
use pg_backup_ctl_plus.Base.Result.{Result, ok, err, failure, M, ◌>>◌}

abbrev pub Text : Type 0
Text = List ℕ

-- What an assign hook does with the text of a value, and how a stream prints an `int`.
pub record Surroundings : Type 0 where
  pub assign_hook : ℕ → Text → Result (Unit {0})
  pub show_int : ℤ → Text

-- The members of ConfigVariable. A hook is the number of a function.
pub record Header : Type 0 where
  pub name : Text
  pub hook : Option ℕ

pub record BoolVariable : Type 0 where
  pub header : Header
  pub value : Bool
  pub default_value : Bool

pub record StringVariable : Type 0 where
  pub header : Header
  pub value : Text
  pub default_value : Text

pub record EnumVariable : Type 0 where
  pub header : Header
  pub allowed_values : List Text
  pub value : Text
  pub default_value : Text

pub record IntegerVariable : Type 0 where
  pub header : Header
  pub value : ℤ
  pub default_value : ℤ
  pub enforce_rangecheck : Bool
  pub min : ℤ
  pub max : ℤ

-- The classes derived from ConfigVariable.
pub data ConfigVariable : Type 0 where
  bool_variable : BoolVariable → ConfigVariable
  string_variable : StringVariable → ConfigVariable
  enum_variable : EnumVariable → ConfigVariable
  integer_variable : IntegerVariable → ConfigVariable

-- The argument of an overloaded method.
pub data Value : Type 0 where
  bool : Bool → Value
  text : Text → Value
  int : ℤ → Value

-- The calls of hooks, the oldest first.
abbrev pub Calls : Type 0
Calls = List (ℕ × Text)

abbrev pub header_of : ConfigVariable → Header
header_of (bool_variable v) = v.header
header_of (string_variable v) = v.header
header_of (enum_variable v) = v.header
header_of (integer_variable v) = v.header

abbrev pub bool_text : Bool → Text
bool_text true = b't' ∷ b'r' ∷ b'u' ∷ b'e' ∷ []
bool_text false = b'f' ∷ b'a' ∷ b'l' ∷ b's' ∷ b'e' ∷ []

-- EnumConfigVariable::check_value
unfoldable pub is_allowed : List Text → Text → Bool
is_allowed [] t = false
is_allowed (a ∷ more) t = eq_text a t || is_allowed more t

-- EnumConfigVariable::addAllowedValue, into a set.
unfoldable pub add_allowed_value : Text → EnumVariable → EnumVariable
unfolding is_allowed
add_allowed_value t v =
    if is_allowed v.allowed_values t
    then v
    else record v { allowed_values = v.allowed_values ++ t ∷ [] }

-- IntegerConfigVariable::check, where it does not throw.
abbrev pub in_range : IntegerVariable → ℤ → Bool
in_range v i = not (v.enforce_rangecheck && (lt_ℤ v.max i || lt_ℤ i v.min))

-- The methods of a variable, with the calls of hooks.
abbrev pub Method : Type 0 → Type 0
Method A = M (ConfigVariable × Calls) A

-- The overloads of the base class throw.
abbrev pub unsupported : {A : Type 0} → Method A
unsupported state = (err failure, state)

module _ ⦃s : Surroundings⦄ where
  -- The overloads of getValue for a string.
  abbrev pub get_text : ConfigVariable → Text
  get_text (bool_variable v) = bool_text v.value
  get_text (string_variable v) = v.value
  get_text (enum_variable v) = v.value
  get_text (integer_variable v) = s.show_int v.value

  -- ConfigVariable::reassign, which the overloads of setValue end with.
  unfoldable pub reassign : Method (Unit {0})
  reassign (v, calls) = elim (header_of v).hook [
    | none ↦ (ok tt, (v, calls))
    | some h ↦ (s.assign_hook h (get_text v), (v, calls ++ (h, get_text v) ∷ []))
  ]

  -- The overloads of setValue, in their classes.
  abbrev pub set_bool : Bool → BoolVariable → Calls → Result (Unit {0}) × (ConfigVariable × Calls)
  set_bool b v calls = reassign (bool_variable (record v { value = b }), calls)

  abbrev pub set_string :
      Text → StringVariable → Calls → Result (Unit {0}) × (ConfigVariable × Calls)
  set_string t v calls = reassign (string_variable (record v { value = t }), calls)

  abbrev pub set_enum : Text → EnumVariable → Calls → Result (Unit {0}) × (ConfigVariable × Calls)
  set_enum t v calls =
      if is_allowed v.allowed_values t
      then reassign (enum_variable (record v { value = t }), calls)
      else (err failure, (enum_variable v, calls))

  abbrev pub set_integer :
      ℤ → IntegerVariable → Calls → Result (Unit {0}) × (ConfigVariable × Calls)
  set_integer i v calls =
      if in_range v i
      then reassign (integer_variable (record v { value = i }), calls)
      else (err failure, (integer_variable v, calls))

  unfoldable pub set_value : Value → Method (Unit {0})
  unfolding reassign is_allowed
  set_value (bool b) (bool_variable v, calls) = set_bool b v calls
  set_value (text t) (string_variable v, calls) = set_string t v calls
  set_value (text t) (enum_variable v, calls) = set_enum t v calls
  set_value (int i) (integer_variable v, calls) = set_integer i v calls
  set_value _ state = unsupported state

-- The overloads of setDefault, in their classes. That of EnumConfigVariable assigns the value.
abbrev pub set_bool_default : Bool → BoolVariable → ConfigVariable
set_bool_default b v = bool_variable (record v { default_value = b })

abbrev pub set_string_default : Text → StringVariable → ConfigVariable
set_string_default t v = string_variable (record v { default_value = t })

abbrev pub set_enum_default :
    Text → EnumVariable → Calls → Result (Unit {0}) × (ConfigVariable × Calls)
set_enum_default t v calls =
    if is_allowed v.allowed_values t
    then (ok tt, (enum_variable (record v { value = t }), calls))
    else (err failure, (enum_variable v, calls))

abbrev pub set_integer_default :
    ℤ → IntegerVariable → Calls → Result (Unit {0}) × (ConfigVariable × Calls)
set_integer_default i v calls =
    if in_range v i
    then (ok tt, (integer_variable (record v { default_value = i }), calls))
    else (err failure, (integer_variable v, calls))

unfoldable pub set_default : Value → Method (Unit {0})
unfolding is_allowed
set_default (bool b) (bool_variable v, calls) = (ok tt, (set_bool_default b v, calls))
set_default (text t) (string_variable v, calls) = (ok tt, (set_string_default t v, calls))
set_default (text t) (enum_variable v, calls) = set_enum_default t v calls
set_default (int i) (integer_variable v, calls) = set_integer_default i v calls
set_default _ state = unsupported state

-- The overloads of getValue and getDefault for an int and a bool.
unfoldable pub get_int : ConfigVariable → Result ℤ
get_int (integer_variable v) = ok v.value
get_int _ = err failure

unfoldable pub get_bool : ConfigVariable → Result Bool
get_bool (bool_variable v) = ok v.value
get_bool _ = err failure

unfoldable pub get_default : ConfigVariable → Value
get_default (bool_variable v) = bool v.default_value
get_default (string_variable v) = text v.default_value
get_default (enum_variable v) = text v.default_value
get_default (integer_variable v) = int v.default_value

-- The overrides of reset.
unfoldable pub reset : ConfigVariable → ConfigVariable
reset (bool_variable v) = bool_variable (record v { value = v.default_value })
reset (string_variable v) = string_variable (record v { value = v.default_value })
reset (enum_variable v) = enum_variable (record v { value = v.default_value })
reset (integer_variable v) = integer_variable (record v { value = v.default_value })

-- set_assign_hook; a null pointer changes nothing.
abbrev pub hooked : Header → Option ℕ → Header
hooked header none = header
hooked header (some h) = record header { hook = some h }

unfoldable pub set_assign_hook : Option ℕ → ConfigVariable → ConfigVariable
set_assign_hook h (bool_variable v) = bool_variable (record v { header = hooked v.header h })
set_assign_hook h (string_variable v) = string_variable (record v { header = hooked v.header h })
set_assign_hook h (enum_variable v) = enum_variable (record v { header = hooked v.header h })
set_assign_hook h (integer_variable v) = integer_variable (record v { header = hooked v.header h })

-- The overloads of setRange.
unfoldable pub set_range : ℤ → ℤ → Method (Unit {0})
set_range low high (integer_variable v, calls) =
    if lt_ℤ high low
    then (err failure, (integer_variable v, calls))
    else (ok tt, (integer_variable (record v { min = low; max = high }), calls))
set_range low high state = (err failure, state)

-- The overloads of enforceRangeConstraint. The new setting stays where a check throws.
unfoldable pub enforce_range_constraint : Bool → Method Bool
enforce_range_constraint force (integer_variable v, calls) =
    let old = v.enforce_rangecheck in
    let v' = record v { enforce_rangecheck = force } in
    if (old || force) && not (in_range v' v'.value && in_range v' v'.default_value)
    then (err failure, (integer_variable v', calls))
    else (ok old, (integer_variable v', calls))
enforce_range_constraint force state = (err failure, state)

-- The constructors.
abbrev pub header_for : Text → Header
header_for name = record { name = name; hook = none }

abbrev pub new_bool : Text → Bool → Bool → ConfigVariable
new_bool name value defaultval =
    bool_variable (record { header = header_for name; value = value; default_value = defaultval })

abbrev pub new_string : Text → Text → Text → ConfigVariable
new_string name value defaultval =
    string_variable (record { header = header_for name; value = value; default_value = defaultval })

abbrev pub plain_enum : Text → List Text → ConfigVariable
plain_enum name possible =
    enum_variable (record {
      header = header_for name;
      allowed_values = possible;
      value = [];
      default_value = [];
    })

abbrev pub plain_integer : Text → ConfigVariable
plain_integer name = integer_variable (record {
  header = header_for name;
  value = pos 0;
  default_value = pos 0;
  enforce_rangecheck = false;
  min = pos 0;
  max = pos 0;
})

-- What a constructor leaves of its calls on the object: nothing, where one throws.
abbrev pub construct : Method (Unit {0}) → ConfigVariable → Result ConfigVariable
construct m v = elim (m (v, [])).0 [ ok u ↦ ok (m (v, [])).1.0 | err e ↦ err e ]

module _ ⦃s : Surroundings⦄ where
  unfoldable pub new_enum : Text → Text → Text → List Text → Result ConfigVariable
  unfolding set_value set_default
  new_enum name value defaultval possible =
      construct (do set_value (text value); set_default (text defaultval))
        (plain_enum name possible)

  unfoldable pub new_range : Text → ℤ → ℤ → ℤ → ℤ → Bool → Result ConfigVariable
  unfolding set_value set_default set_range enforce_range_constraint
  new_range name value defaultval low high enforce =
      construct
        (do
          set_range low high
          enforce_range_constraint enforce
          set_default (int defaultval)
          set_value (int value))
        (plain_integer name)

  unfoldable pub new_integer : Text → ℤ → ℤ → Bool → Result ConfigVariable
  unfolding set_value set_default enforce_range_constraint
  new_integer name value defaultval enforce =
      construct
        (do enforce_range_constraint enforce; set_value (int value); set_default (int defaultval))
        (plain_integer name)
