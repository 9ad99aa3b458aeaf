-- ===== src/Settings/Tests.antt =====
-- Runs of core/config/settings.py.
use mathlib.Core.Option
use kanna_pa.Prelude.{String, ◌≡◌, refl, Option, none, some, List, [], ◌∷◌, ◌=ₛ◌, if◌then◌else◌}
use kanna_pa.Prelude.Int.{ℤ, pos}
use kanna_pa.Value.{Value, int, float, str, Fields, end, field, get}
use kanna_pa.Permissions.Gate.{is_space}
use kanna_pa.Settings.{
  key_of, skip_spaces, take_key, escaped, toml_scalar_line, Updates, find_update, pop, replaced,
  added, update_lines,
}
use kanna_pa.Settings.Lines.{find_line, updated, find_line-update_lines}
use kanna_pa.Settings.Make.{Settings, tuple_of, int_at, settings_of, load_settings}
use kanna_pa.Settings.Load.{set, with_file, with_env, load_values}

abbrev plain_show : Value → String
plain_show (str s) = s
plain_show _ = "7"

abbrev two_updates : Updates
two_updates = ("llm_model", str "a \"b\"") ∷ ("max_plan_steps", int (pos 7)) ∷ []

abbrev old_lines : List String
old_lines = "# model" ∷ "  llm_model = \"old\"" ∷ "timezone = \"UTC\"" ∷ "[other]" ∷ []

-- The new key stands behind the table `[other]`, where it is no key of the top level.
new_lines :
    update_lines plain_show two_updates old_lines
    ≡ "# model" ∷ "llm_model = \"a \\\"b\\\"\"" ∷ "timezone = \"UTC\"" ∷ "[other]"
      ∷ "max_plan_steps = 7" ∷ []
unfolding update_lines replaced added key_of skip_spaces take_key is_space toml_scalar_line escaped
    find_update pop
new_lines = refl

find_line-update_lines_example :
    find_line "llm_model" (update_lines plain_show two_updates old_lines)
    ≡ updated plain_show "llm_model"
        (find_update "llm_model" two_updates)
        (find_line "llm_model" old_lines)
unfolding key_of skip_spaces take_key is_space toml_scalar_line escaped
find_line-update_lines_example =
    find_line-update_lines plain_show "llm_model" two_updates old_lines (refl, (refl, tt))

abbrev seven : String → Option ℤ
seven s = if s =ₛ "7" then some (pos 7) else none

abbrev environment : String → Option String
environment s = if s =ₛ "KANNA_MAX_PLAN_STEPS" then some "7" else none

abbrev in_file : Fields
in_file = field "max_plan_steps" (int (pos 5)) (field "timezone" (str "CET") end)

abbrev found : String → Option Fields → Option Value
found k none = none
found k (some out) = get k out

environment_first :
    found "max_plan_steps" (load_values seven environment in_file) ≡ some (int (pos 7))
unfolding load_values with_env set with_file
environment_first = refl

file_second : found "timezone" (load_values seven environment in_file) ≡ some (str "CET")
unfolding load_values with_env set with_file
file_second = refl

abbrev steps_of : Option Settings → Option ℤ
steps_of none = none
steps_of (some st) = some st.max_plan_steps

abbrev tokens_of : Option Settings → Option ℤ
tokens_of none = none
tokens_of (some st) = some st.llm_max_tokens

steps_of_variable : steps_of (load_settings seven "/w" "/k" environment in_file) ≡ some (pos 7)
unfolding load_settings settings_of Option.bind int_at tuple_of load_values with_env set with_file
steps_of_variable = refl

-- 7 / 2 is cut off to 3.
tokens_cut_off :
    tokens_of
      (load_settings seven "/w" "/k" environment (field "llm_max_tokens" (float (pos 7) 1) end))
    ≡ some (pos 3)
unfolding load_settings settings_of Option.bind int_at tuple_of load_values with_env set with_file
tokens_cut_off = refl

tokens_refused :
    tokens_of (load_settings seven "/w" "/k" environment (field "llm_max_tokens" (str "x") end))
    ≡ none
unfolding load_settings settings_of Option.bind int_at tuple_of load_values with_env set with_file
tokens_refused = refl
