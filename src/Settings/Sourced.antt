-- ===== src/Settings/Sourced.antt =====
-- What `load_settings` of core/config/settings.py has before the settings are made.
use mathlib.Core.List.{Memᴰ}
use mathlib.Core.List.Memᴰ
use kanna_pa.Prelude.{
  String, ◌<>◌, ◌≡◌, refl, ap, ◌∙◌, sym, subst, Bool, true, false, Option, none, some, List, [],
  ◌∷◌, ◌&&◌, all_of, Option-cases, inl, inr,
}
use kanna_pa.Prelude.Int.{ℤ}
use kanna_pa.Value.{Value, Fields, get, has}
use kanna_pa.Settings.Load.{defaults, env_keys, env_value, with_file, set, with_env, load_values}
use kanna_pa.Settings.Layers.{
  get-with_file, Apart, apart_keys, all_of-Apart, below_env, sourced, Outcome, with_env-Outcome,
}

Apart-roots : Apart "sandbox_roots" env_keys
Apart-roots = all_of-Apart "sandbox_roots" env_keys refl

pub some_below :
    (file : Fields) (k : String) (d : Value) → (w : Value) × (below_env file k (some d) ≡ some w)
some_below file k d = elim (Option-cases (get k file)) [
  | inl e ↦ (d, rw (e, below_env) refl)
  | inr (w, e) ↦ (w, rw (e, below_env) refl)
]

and_cases : (a b : Bool) → a && b ≡ true → (a ≡ true) × (b ≡ true)
and_cases true b h = (refl, h)
and_cases false b h = absurd (cc)

had : (k : String) (fs : Fields) → has k fs ≡ true → (d : Value) × (get k fs ≡ some d)
had k fs h = elim (Option-cases (get k fs)) [
  | inl e ↦ let clash : false ≡ true = rw (e, has) at h in absurd (cc)
  | inr found ↦ found
]

each_has :
    (fs : Fields) (keys : List (String × String))
    → all_of (λ (x : String × String). has x.0 fs) keys ≡ true
    → (k s : String) → Memᴰ (k, s) keys
    → (d : Value) × (get k fs ≡ some d)
each_has fs [] h k s m = absurd (Memᴰ.not-nil m)
each_has fs ((j, t) ∷ keys) h k s m =
    let (first, rest) =
      and_cases (has j fs) (all_of (λ (x : String × String). has x.0 fs) keys) h in
    elim (Memᴰ.cases_cons m) [
      | inl here ↦ had k fs (subst (λ (x : String × String). has x.0 fs ≡ true) (sym here) first)
      | inr there ↦ each_has fs keys rest k s there
    ]

text_of : (a b : String) → some a ≡ some b → a ≡ b
text_of a b h = cc

module _ (to_int : String → Option ℤ) (env : String → Option String) where
  -- A variable of a number that is set to something else makes it raise.
  valid :
      (keys : List (String × String)) (values out : Fields)
      → with_env to_int env keys values ≡ some out
      → (k s text : String) → Memᴰ (k, s) keys
      → env ("KANNA_" <> s) ≡ some text
      → (v : Value) × (env_value to_int k text ≡ some v)
  unfolding with_env
  valid [] values out h k s text m e = elim m [ ]
  valid ((j, t) ∷ keys) values out h k s text m e = elim (Option-cases (env ("KANNA_" <> t))) [
    | inl f ↦ elim (Memᴰ.cases_cons m) [
      | inl here ↦
          let clash : some text ≡ none =
            sym e ∙ ap (λ (x : String × String). env ("KANNA_" <> x.1)) here ∙ f in
          absurd (cc)
      | inr there ↦ valid keys values out (rw (f, with_env) at h) k s text there e
    ]
    | inr (text', f) ↦ elim (Option-cases (env_value to_int j text')) [
      | inl g ↦ let clash : none ≡ some out = rw (f, g, with_env) at h in absurd (cc)
      | inr (v, g) ↦ elim (Memᴰ.cases_cons m) [
        | inl here ↦
            let same : some text' ≡ some text =
              sym f ∙ sym (ap (λ (x : String × String). env ("KANNA_" <> x.1)) here) ∙ e in
            (
              v,
              ap (λ (x : String × String). env_value to_int x.0 text) here
                  ∙ ap (λ x. env_value to_int j x) (sym (text_of text' text same))
                  ∙ g,
            )
        | inr there ↦ valid keys (set j v values) out (rw (f, g, with_env) at h) k s text there e
      ]
    ]
  ]

  -- What `load_values` gives: each key of the environment from its variable if that is set, else from
  -- the file, else the default, and the roots from the file or the default; or the variable that makes
  -- it raise.
  abbrev pub IsSourced : Fields → Option Fields → Type 0
  IsSourced file none =
      (k s text : String) × Memᴰ (k, s) env_keys
      × (env ("KANNA_" <> s) ≡ some text)
      × (env_value to_int k text ≡ none)
  IsSourced file (some out) =
      ((k s : String)
        → Memᴰ (k, s) env_keys
        → (v : Value) × (sourced to_int env k s (below_env file k (get k defaults)) ≡ some v)
          × (get k out ≡ some v))
      × (get "sandbox_roots" out ≡ below_env file "sandbox_roots" (get "sandbox_roots" defaults))

  present :
      (k s : String) (file : Fields)
      → Memᴰ (k, s) env_keys
      → ((text : String)
          → Memᴰ (k, s) env_keys
          → env ("KANNA_" <> s) ≡ some text
          → (v : Value) × (env_value to_int k text ≡ some v))
      → (v : Value) × (sourced to_int env k s (below_env file k (get k defaults)) ≡ some v)
  present k s file m set_to = elim (Option-cases (env ("KANNA_" <> s))) [
    | inl e ↦
        let (d, f) = each_has defaults env_keys refl k s m in
        let (w, g) = some_below file k d in (w, rw (e, sourced, f, g) refl)
    | inr (text, e) ↦ let (v, f) = set_to text m e in (v, rw (e, sourced) f)
  ]

  under_env :
      (file out : Fields)
      → with_env to_int env env_keys (with_file defaults file) ≡ some out
      → Outcome to_int env env_keys (with_file defaults file) (some out)
      → IsSourced file (some out)
  under_env file out e (each, others) =
      (all, others "sandbox_roots" Apart-roots ∙ get-with_file "sandbox_roots" defaults file)
    where
      all :
          (k s : String)
          → Memᴰ (k, s) env_keys
          → (v : Value) × (sourced to_int env k s (below_env file k (get k defaults)) ≡ some v)
            × (get k out ≡ some v)
      all k s m =
          let same : get k out ≡ sourced to_int env k s (below_env file k (get k defaults)) =
            each k s m ∙ ap (sourced to_int env k s) (get-with_file k defaults file) in
          let (v, f) = present k s file m (valid env_keys _ out e k s) in (v, f, same ∙ f)

  pub load_values-IsSourced : (file : Fields) → IsSourced file (load_values to_int env file)
  unfolding load_values
  load_values-IsSourced file =
      go _ refl (with_env-Outcome to_int env env_keys (with_file defaults file) apart_keys)
    where
      go :
          (r : Option Fields)
          → with_env to_int env env_keys (with_file defaults file) ≡ r
          → Outcome to_int env env_keys (with_file defaults file) r
          → IsSourced file r
      go none e h = h
      go (some out) e h = under_env file out e h
