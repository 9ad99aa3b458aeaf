-- ===== src/Settings/Resolved.antt =====
-- Which source gives each setting: `load_settings` of core/config/settings.py.
use mathlib.Core.List.{Memᴰ}
use mathlib.Core.Option
use kanna_pa.Prelude.{String, ◌≡◌, Bool, true, Option, none, some, ◌=ₛ◌, any_of, ◌⊎◌}
use kanna_pa.Prelude.Int.{ℤ}
use kanna_pa.Value.{Value, Items, Fields, get}
use kanna_pa.Settings.Load.{defaults, env_keys, int_keys}
use kanna_pa.Settings.Layers.{below_env, sourced}
use kanna_pa.Settings.Make.{Settings, tuple_of, or_default_roots, int_at}

abbrev pub is_int_key : String → Bool
is_int_key k = any_of (λ j. j =ₛ k) int_keys

module _ (to_int : String → Option ℤ) (cwd home : String) where
  -- The settings that the values of a source `at` make, or why they make none.
  abbrev pub roots_of : Option Value → Option Items
  roots_of none = none
  roots_of (some v) = tuple_of (or_default_roots cwd home v)

  pub record AreTaken (at : String → String → Option Value) (roots : Option Value) (st : Settings)
      : Type 0 where
    pub timezone : at "timezone" "TIMEZONE" ≡ some st.timezone
    pub default_currency : at "default_currency" "DEFAULT_CURRENCY" ≡ some st.default_currency
    pub llm_provider : at "llm_provider" "LLM_PROVIDER" ≡ some st.llm_provider
    pub llm_model : at "llm_model" "LLM_MODEL" ≡ some st.llm_model
    pub llm_max_tokens :
        int_at to_int (at "llm_max_tokens" "LLM_MAX_TOKENS") ≡ some st.llm_max_tokens
    pub llm_fallback_models :
        at "llm_fallback_models" "LLM_FALLBACK_MODELS" ≡ some st.llm_fallback_models
    pub llm_timeout_seconds :
        int_at to_int (at "llm_timeout_seconds" "LLM_TIMEOUT_SECONDS") ≡ some st.llm_timeout_seconds
    pub log_level : at "log_level" "LOG_LEVEL" ≡ some st.log_level
    pub max_plan_steps :
        int_at to_int (at "max_plan_steps" "MAX_PLAN_STEPS") ≡ some st.max_plan_steps
    pub max_corrections :
        int_at to_int (at "max_corrections" "MAX_CORRECTIONS") ≡ some st.max_corrections
    pub sandbox_roots : roots_of roots ≡ some st.sandbox_roots

  abbrev pub IsTaken : (String → String → Option Value) → Option Value → Option Settings → Type 0
  IsTaken at roots none =
      ((k s : String) × Memᴰ (k, s) env_keys
        × (is_int_key k ≡ true)
        × (int_at to_int (at k s) ≡ none))
      ⊎ (roots_of roots ≡ none)
  IsTaken at roots (some st) = AreTaken at roots st

  module _ (env : String → Option String) where
    -- The value of a key's variable if that is set, else the file's, else the default.
    abbrev pub setting : Fields → String → String → Option Value
    setting file k s = sourced to_int env k s (below_env file k (get k defaults))
