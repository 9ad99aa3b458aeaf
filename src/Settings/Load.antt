-- ===== src/Settings/Load.antt =====
-- The order of the sources in `load_settings`: core/config/settings.py. The file's values are what
-- tomllib reads (texts, numbers, truth values, lists and tables), and the environment a function.
use kanna_pa.Prelude.{String, ◌<>◌, Option, none, some, List, [], ◌∷◌, any_of, ◌=ₛ◌, if◌then◌else◌}
use kanna_pa.Prelude.Int.{ℤ, pos}
use kanna_pa.Value.{Value, int, str, arr, nil, Fields, end, field, get}

-- `_DEFAULTS`
abbrev pub defaults : Fields
defaults = field "timezone" (str "UTC") (
    field "default_currency" (str "INR") (
      field "llm_provider" (str "litellm") (
        field "llm_model" (str "ollama/qwen3:8b") (
          field "llm_max_tokens" (int (pos 8192)) (
            field "llm_fallback_models" (str "ollama/llama3.2:3b,gpt-4o-mini") (
              field "llm_timeout_seconds" (int (pos 120)) (
                field "log_level" (str "INFO") (
                  field "max_plan_steps" (int (pos 20)) (
                    field "max_corrections" (int (pos 3))
                      (field "sandbox_roots" (arr nil) end))))))))))

-- `_ENV_KEYS`
abbrev pub env_keys : List (String × String)
env_keys =
    ("timezone", "TIMEZONE")
    ∷ ("default_currency", "DEFAULT_CURRENCY")
    ∷ ("llm_provider", "LLM_PROVIDER")
    ∷ ("llm_model", "LLM_MODEL")
    ∷ ("llm_max_tokens", "LLM_MAX_TOKENS")
    ∷ ("llm_fallback_models", "LLM_FALLBACK_MODELS")
    ∷ ("llm_timeout_seconds", "LLM_TIMEOUT_SECONDS")
    ∷ ("log_level", "LOG_LEVEL")
    ∷ ("max_plan_steps", "MAX_PLAN_STEPS")
    ∷ ("max_corrections", "MAX_CORRECTIONS")
    ∷ []

-- `_INT_KEYS`
abbrev pub int_keys : List String
int_keys = "llm_max_tokens" ∷ "llm_timeout_seconds" ∷ "max_plan_steps" ∷ "max_corrections" ∷ []

-- The values of the defaults, with those of the file put in their place.
unfoldable pub with_file : Fields → Fields → Fields
with_file end file = end
with_file (field k v rest) file =
    let later = with_file rest file in
    elim (get k file) [ none ↦ field k v later | some w ↦ field k w later ]

-- values[k] = v
unfoldable pub set : String → Value → Fields → Fields
set k v end = field k v end
set k v (field j w fs) = let rest = set k v fs in if j =ₛ k then field j v fs else field j w rest

-- `to_int` is int(text), which raises a ValueError; `env` is os.environ.get.
module _ (to_int : String → Option ℤ) where
  abbrev pub env_value : String → String → Option Value
  env_value key text =
      if any_of (λ k. k =ₛ key) int_keys
      then elim (to_int text) [ none ↦ none | some n ↦ some (int n) ]
      else some (str text)

  module _ (env : String → Option String) where
    unfoldable pub with_env : List (String × String) → Fields → Option Fields
    with_env [] values = some values
    with_env ((key, suffix) ∷ rest) values = elim (env ("KANNA_" <> suffix)) [
      | none ↦ with_env rest values
      | some text ↦ elim (env_value key text) [
        | none ↦ none
        | some v ↦ with_env rest (set key v values)
      ]
    ]

    -- The values behind the loop over `_ENV_KEYS`; none where the variable of a number is no number.
    unfoldable pub load_values : Fields → Option Fields
    load_values file = with_env env_keys (with_file defaults file)
