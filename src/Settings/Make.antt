-- ===== src/Settings/Make.antt =====
-- The second half of `load_settings` of core/config/settings.py: what the settings are made of.
use mathlib.Core.Option
use kanna_pa.Prelude.{◌/◌, ◌^◌, String, true, false, Option, none, some, if◌then◌else◌}
use kanna_pa.Prelude.Int.{ℤ, pos, sub_ℕ, pos_part, neg_part}
use kanna_pa.Value.{
  Value, bool, int, float, str, obj, arr, Fields, end, field, Items, nil, cons, get, truthy,
}
use kanna_pa.Settings.Load.{load_values}

-- `Settings`; values of the file are taken as they are, of whatever type
pub record Settings : Type 0 where
  pub timezone : Value
  pub default_currency : Value
  pub llm_provider : Value
  pub llm_model : Value
  pub llm_max_tokens : ℤ
  pub llm_fallback_models : Value
  pub llm_timeout_seconds : ℤ
  pub log_level : Value
  pub max_plan_steps : ℤ
  pub max_corrections : ℤ
  pub sandbox_roots : Items

-- The elements of an iterable value: the characters of a text, the keys of a table.
abbrev chars : String → Items
chars String.[] = nil
chars (String.◌∷◌ c s) = cons (str (String.◌∷◌ c String.[])) (chars s)

abbrev keys : Fields → Items
keys end = nil
keys (field k v fs) = cons (str k) (keys fs)

-- tuple(v); none where it raises a TypeError
unfoldable pub tuple_of : Value → Option Items
tuple_of (arr xs) = some xs
tuple_of (str s) = some (chars s)
tuple_of (obj fs) = some (keys fs)
tuple_of _ = none

-- The roots, or the working directory and Kanna's home in place of none.
abbrev pub or_default_roots : String → String → Value → Value
or_default_roots cwd home v = if truthy v then v else arr (cons (str cwd) (cons (str home) nil))

-- `or_else` is the default of values.get.
abbrev pub or_else : Value → Option Value → Value
or_else w none = w
or_else w (some v) = v

-- `to_int` is int(text); none where int(v) raises.
module _ (to_int : String → Option ℤ) where
  abbrev pub int_of : Value → Option ℤ
  int_of (bool true) = some (pos 1)
  int_of (bool false) = some (pos 0)
  int_of (int n) = some n
  int_of (float m k) = some (sub_ℕ (pos_part m / 2 ^ k) (neg_part m / 2 ^ k))
  int_of (str s) = to_int s
  int_of _ = none

  -- int(values[k])
  unfoldable pub int_at : Option Value → Option ℤ
  int_at none = none
  int_at (some v) = int_of v

  module _ (cwd home : String) where
    -- `values` is the lookup in the values; none where the constructor's arguments raise.
    unfoldable pub settings_of : (String → Option Value) → Option Settings
    settings_of values = Option.bind (values "sandbox_roots") (λ found.
        Option.bind (values "timezone") (λ timezone.
          Option.bind (values "default_currency") (λ currency.
            Option.bind (values "llm_provider") (λ provider.
              Option.bind (values "llm_model") (λ model.
                Option.bind (int_at (values "llm_max_tokens")) (λ tokens.
                  Option.bind
                    (int_at (some (or_else (int (pos 120)) (values "llm_timeout_seconds"))))
                    (λ seconds. Option.bind (values "log_level") (λ level.
                      Option.bind (int_at (values "max_plan_steps")) (λ steps.
                        Option.bind (int_at (values "max_corrections")) (λ corrections.
                          Option.bind (tuple_of (or_default_roots cwd home found)) (λ roots.
                            some (record {
                              timezone = timezone;
                              default_currency = currency;
                              llm_provider = provider;
                              llm_model = model;
                              llm_max_tokens = tokens;
                              llm_fallback_models = or_else (str "") (values "llm_fallback_models");
                              llm_timeout_seconds = seconds;
                              log_level = level;
                              max_plan_steps = steps;
                              max_corrections = corrections;
                              sandbox_roots = roots;
                            }))))))))))))

    -- `file` is what tomllib reads of the file; none where it raises.
    unfoldable pub load_settings : (String → Option String) → Fields → Option Settings
    unfolding settings_of
    load_settings env file =
        Option.bind (load_values to_int env file) (λ values. settings_of (λ k. get k values))
