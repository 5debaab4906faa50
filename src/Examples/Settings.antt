-- ===== src/Examples/Settings.antt =====
-- Runtime variables at concrete inputs.
use pg_backup_ctl_plus.Base.{◌≡◌, refl, true, none, [], ◌∷◌}
use pg_backup_ctl_plus.Base.Lists.{eq_text}
use pg_backup_ctl_plus.Base.Int.{pos}
use pg_backup_ctl_plus.Base.Result.{ok, err, failure, is_ok}
use pg_backup_ctl_plus.Config.Variable.{
  Text, Surroundings, ConfigVariable, enum_variable, integer_variable, text, int, header_for,
  is_allowed, get_text, set_value, set_default, set_range, enforce_range_constraint, reassign,
}
use pg_backup_ctl_plus.Config.Variable
use pg_backup_ctl_plus.Config.Runtime.{
  Configuration, find, get, create_enum, create_range, create_with, change_range, on_variable,
  perform, range_request,
}
use pg_backup_ctl_plus.Config.Runtime.Kept.{IsSound}
use pg_backup_ctl_plus.Config.Runtime.Sound.{Follows, perform-IsSound}
use pg_backup_ctl_plus.Config.Runtime.Created.{create_enum-takes_default, create_range-without_zero}

-- Hooks that refuse every value.
instance abbrev pub refusing : Surroundings
refusing = record { assign_hook = λ h t. err failure; show_int = λ i. b'0' ∷ [] }

abbrev timeout_name : Text
timeout_name = b't' ∷ []

-- walstreamer.wait_timeout, with the range of pg_backup_ctl.cxx.
abbrev timeout : ConfigVariable
timeout = integer_variable (record {
  header = header_for timeout_name;
  value = pos 60;
  default_value = pos 60;
  enforce_rangecheck = true;
  min = pos 0;
  max = pos 86400;
})

abbrev settings : Configuration
settings = record { variables = (timeout_name, timeout) ∷ []; calls = [] }

settings-IsSound : IsSound settings
unfolding find
settings-IsSound = record { entries = ((refl, (refl, refl)), tt); unique = (refl, tt) }

range_accepted :
    is_ok (create_range timeout_name (pos 20) (pos 10) (pos 5) (pos 70) settings).0 ≡ true
unfolding create_range create_with change_range set_value set_default set_range
    enforce_range_constraint reassign find on_variable eq_text
range_accepted = refl

perform-IsSound_example :
    Follows timeout_name settings
      (perform (range_request timeout_name (pos 20) (pos 10) (pos 5) (pos 70)) settings).1
perform-IsSound_example =
    perform-IsSound (range_request timeout_name (pos 20) (pos 10) (pos 5) (pos 70)) settings
      settings-IsSound range_accepted

abbrev format_name : Text
format_name = b'f' ∷ []

abbrev console : Text
console = b'c' ∷ []

abbrev json : Text
json = b'j' ∷ []

format_is_new : find format_name settings.variables ≡ none
unfolding find eq_text
format_is_new = refl

console-is_allowed : is_allowed (json ∷ console ∷ []) console ≡ true
unfolding is_allowed eq_text
console-is_allowed = refl

json-is_allowed : is_allowed (json ∷ console ∷ []) json ≡ true
unfolding is_allowed eq_text
json-is_allowed = refl

create_enum-takes_default_example :
    (v : ConfigVariable) × (c : Configuration) × (create_enum format_name json console
        (json ∷ console ∷ [])
        settings
      ≡ (ok tt, c))
    × (get format_name c ≡ (ok v, c))
    × (get_text v ≡ console)
    × (get_text (Variable.reset v) ≡ [])
create_enum-takes_default_example =
    create_enum-takes_default format_name settings format_is_new json console (json ∷ console ∷ [])
      json-is_allowed console-is_allowed

create_range-without_zero_example :
    create_range format_name (pos 20) (pos 20) (pos 10) (pos 30) settings ≡ (err failure, settings)
create_range-without_zero_example =
    create_range-without_zero format_name settings format_is_new (pos 20) (pos 20) (pos 10) (pos 30)
      refl
