-- ===== src/Settings/Layers.antt =====
-- Which source gives each value of `load_settings`: core/config/settings.py.
use mathlib.Core.List.{Memᴰ}
use kanna_pa.Prelude.{
  String, ◌<>◌, ◌≡◌, refl, ap, ◌∙◌, sym, subst, Bool, true, false, Option, none, some, List, [],
  ◌∷◌, arith, ◌=ₛ◌, eq_iff, ◌&&◌, not, all_of, if◌then◌else◌, Option-cases, Bool-cases, inl, inr,
  All, All-mem,
}
use kanna_pa.Prelude.Int.{ℤ}
use kanna_pa.Value.{Value, Fields, end, field, get}
use kanna_pa.Settings.Load.{env_keys, env_value, with_file, set, with_env}

get-set :
    (k j : String) (v : Value) (fs : Fields)
    → get k (set j v fs) ≡ (if j =ₛ k then some v else get k fs)
unfolding set
get-set k j v end = refl
get-set k j v (field i w fs) = ground (arith, get-set k j v fs, eq_iff i j, eq_iff i k, eq_iff j k)

-- The file's value if it has one, else the default; none for a key without a default.
abbrev pub below_env : Fields → String → Option Value → Option Value
below_env file k none = none
below_env file k (some v) = elim (get k file) [ none ↦ some v | some w ↦ some w ]

get-field :
    (k j : String) (v w : Value) (ds file : Fields)
    → below_env file j (some v) ≡ some w
    → get k (with_file ds file) ≡ below_env file k (get k ds)
    → get k (field j w (with_file ds file)) ≡ below_env file k (get k (field j v ds))
get-field k j v w ds file here rest = elim (Bool-cases (j =ₛ k)) [
  | inl same ↦ rw same (sym here ∙ ap (λ x. below_env file x (some v)) ((eq_iff j k).0 same))
  | inr other ↦ rw other rest
]

pub get-with_file :
    (k : String) (ds file : Fields) → get k (with_file ds file) ≡ below_env file k (get k ds)
unfolding with_file
get-with_file k end file = refl
get-with_file k (field j v ds) file = elim (Option-cases (get j file)) [
  | inl e ↦
      rw (e, with_file)
        (get-field k j v v ds file (rw (e, below_env) refl) (get-with_file k ds file))
  | inr (w, e) ↦
      rw (e, with_file)
        (get-field k j v w ds file (rw (e, below_env) refl) (get-with_file k ds file))
]

-- The keys of the environment are apart.
abbrev pub Apart : String → List (String × String) → Type 0
Apart k keys = All (λ (x : String × String). x.0 =ₛ k ≡ false) keys

abbrev pub DistinctKeys : List (String × String) → Type 0
DistinctKeys [] = Unit
DistinctKeys ((k, s) ∷ keys) = Apart k keys × DistinctKeys keys

apart_sym : (a b : String) → a =ₛ b ≡ false → b =ₛ a ≡ false
apart_sym a b h = ground (arith, eq_iff a b, eq_iff b a)

unfoldable is_distinct : List (String × String) → Bool
is_distinct [] = true
is_distinct ((k, s) ∷ keys) = all_of (λ x. not (x.0 =ₛ k)) keys && is_distinct keys

pub all_of-Apart :
    (k : String) (keys : List (String × String))
    → all_of (λ (x : String × String). not (x.0 =ₛ k)) keys ≡ true
    → Apart k keys
all_of-Apart k [] h = tt
all_of-Apart k ((j, s) ∷ keys) h = (ground arith, all_of-Apart k keys (ground arith))

is_distinct-DistinctKeys :
    (keys : List (String × String)) → is_distinct keys ≡ true → DistinctKeys keys
unfolding is_distinct
is_distinct-DistinctKeys [] h = tt
is_distinct-DistinctKeys ((k, s) ∷ keys) h =
    (all_of-Apart k keys (ground arith), is_distinct-DistinctKeys keys (ground arith))

pub apart_keys : DistinctKeys env_keys
unfolding is_distinct
apart_keys = is_distinct-DistinctKeys env_keys refl

module _ (to_int : String → Option ℤ) (env : String → Option String) where
  -- The environment's value if the variable is set, else the one below it.
  abbrev pub sourced : String → String → Option Value → Option Value
  sourced k suffix old = elim (env ("KANNA_" <> suffix)) [
    | none ↦ old
    | some text ↦ env_value to_int k text
  ]

  abbrev pub Outcome : List (String × String) → Fields → Option Fields → Type 0
  Outcome keys values none =
      (k s text : String) × Memᴰ (k, s) keys
      × (env ("KANNA_" <> s) ≡ some text)
      × (env_value to_int k text ≡ none)
  Outcome keys values (some out) =
      ((k s : String) → Memᴰ (k, s) keys → get k out ≡ sourced k s (get k values))
      × ((k : String) → Apart k keys → get k out ≡ get k values)

  unset :
      (k s : String) (keys : List (String × String)) (values : Fields) (r : Option Fields)
      → Apart k keys
      → env ("KANNA_" <> s) ≡ none
      → Outcome keys values r
      → Outcome ((k, s) ∷ keys) values r
  unset k s keys values none apart e (j, t, text, m, given, wrong) =
      (j, t, text, Memᴰ.tail m, given, wrong)
  unset k s keys values (some out) apart e (each, others) = (all, λ j h. others j h.1)
    where
      all : (j t : String) → Memᴰ (j, t) ((k, s) ∷ keys) → get j out ≡ sourced j t (get j values)
      all j t (Memᴰ.tail m) = each j t m
      all j t (Memᴰ.head same) =
          subst (λ (x : String × String). get x.0 out ≡ sourced x.0 x.1 (get x.0 values)) (sym same)
            (rw (e, sourced) (others k apart))

  given :
      (k s text : String) (v : Value) (keys : List (String × String)) (values : Fields)
      (r : Option Fields)
      → Apart k keys
      → env ("KANNA_" <> s) ≡ some text
      → env_value to_int k text ≡ some v
      → Outcome keys (set k v values) r
      → Outcome ((k, s) ∷ keys) values r
  given k s text v keys values none apart e f (j, t, text', m, there, wrong) =
      (j, t, text', Memᴰ.tail m, there, wrong)
  given k s text v keys values (some out) apart e f (each, others) =
      (all, λ j h. others j h.1 ∙ passed j (apart_sym k j h.0))
    where
      passed : (j : String) → j =ₛ k ≡ false → get j (set k v values) ≡ get j values
      passed j h = get-set j k v values ∙ rw (apart_sym j k h) refl

      all : (j t : String) → Memᴰ (j, t) ((k, s) ∷ keys) → get j out ≡ sourced j t (get j values)
      all j t (Memᴰ.tail m) =
          each j t m ∙ ap (sourced j t) (passed j (All-mem (λ x. x.0 =ₛ k ≡ false) keys apart m))
      all j t (Memᴰ.head same) =
          subst (λ (x : String × String). get x.0 out ≡ sourced x.0 x.1 (get x.0 values)) (sym same)
            (rw (e, sourced, f)
              (others k apart ∙ get-set k k v values ∙ rw ((eq_iff k k).1 refl) refl))

  pub with_env-Outcome :
      (keys : List (String × String)) (values : Fields)
      → DistinctKeys keys
      → Outcome keys values (with_env to_int env keys values)
  unfolding with_env
  with_env-Outcome [] values h = (λ k s m. elim m [ ], λ k _. refl)
  with_env-Outcome ((k, s) ∷ keys) values (apart, h) = elim (Option-cases (env ("KANNA_" <> s))) [
    | inl e ↦ rw (e, with_env) (unset k s keys values _ apart e (with_env-Outcome keys values h))
    | inr (text, e) ↦ elim (Option-cases (env_value to_int k text)) [
      | inl f ↦ rw (e, f, with_env) (k, s, text, Memᴰ.head refl, e, f)
      | inr (v, f) ↦
          rw (e, f, with_env)
            (given k s text v keys values _ apart e f (with_env-Outcome keys (set k v values) h))
    ]
  ]
