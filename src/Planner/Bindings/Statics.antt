-- ===== src/Planner/Bindings/Statics.antt =====
-- What the validation of a plan leaves to go wrong when its references are resolved.
use kanna_pa.Prelude.{
  String, ◌≡◌, refl, Bool, false, Option, none, List, length, get_elem?, arith, inl, inr,
  Bool-cases, Option-cases, subst,
}
use kanna_pa.Value.{
  Value, null, bool, int, float, str, arr, obj, Items, nil, cons, Fields, end, field,
}
use kanna_pa.Tools.Schema.{PropertySchema}
use kanna_pa.Planner.Plan.{PlanningError, unresolved_reference, Planned, ok, planning_error, ◌>>=◌}
use kanna_pa.Planner.Bindings.{
  Reference, reference_parts, is_reference, fetch, walk, resolve, resolve_items, resolve_fields,
  error_of, ◌and_then◌, validate_template, validate_template_items, validate_template_fields,
  of_key, of_item,
}

-- No error but an unresolved reference.
abbrev Settles {ℓ} : {A : Type ℓ} → Planned A → Type 0
Settles (ok a) = Unit
Settles (planning_error e) = e ≡ unresolved_reference

Settles-bind {ℓ κ} :
    {A : Type ℓ} {B : Type κ} (m : Planned A) (f : A → Planned B)
    → Settles m
    → ((a : A) → Settles (f a))
    → Settles (m >>= f)
Settles-bind (ok a) f h k = k a
Settles-bind (planning_error e) f h k = h

fetch-Settles : (r : Reference) (rs : List Fields) → Settles (fetch r rs)
unfolding fetch
fetch-Settles r rs = elim (Option-cases (get_elem? rs r.step)) [
  | inl absent ↦ rw (absent, fetch) refl
  | inr (v, found) ↦ elim (Option-cases (walk r.parts (obj v))) [
    | inl off ↦ rw (found, fetch, off) refl
    | inr (w, on) ↦ rw (found, fetch, on) tt
  ]
]

error_of-none : (p : Planned Reference) → error_of p ≡ none → Settles p
error_of-none (ok r) h = tt
error_of-none (planning_error e) h = cc

and_then-none : (a b : Option PlanningError) → (a and_then b) ≡ none → (a ≡ none) × (b ≡ none)
and_then-none a b h = ground arith

module _ (re_match : String → String → Bool) (rs : List Fields) where
  mutual
    unfolding resolve validate_template

    resolve-Settles :
        (v : Value) (s : Option PropertySchema)
        → validate_template re_match v s (length rs) ≡ none
        → Settles (resolve v rs)
    resolve-Settles null s h = tt
    resolve-Settles (bool b) s h = tt
    resolve-Settles (int n) s h = tt
    resolve-Settles (float m k) s h = tt
    resolve-Settles (str t) s h = tt
    resolve-Settles (arr xs) s h =
        Settles-bind (resolve_items xs rs) (λ ys. ok (arr ys))
          (resolve_items-Settles xs (of_item re_match s) (and_then-none _ _ h).1) (λ ys. tt)
    resolve-Settles (obj fs) s h = elim (Bool-cases (is_reference fs)) [
      | inl ref ↦ rw ref (
          Settles-bind (reference_parts fs (length rs)) (λ r. fetch r rs)
            (error_of-none (reference_parts fs (length rs)) (rw ref at h))
            (λ r. fetch-Settles r rs))
      | inr plain ↦ rw plain (
          Settles-bind (resolve_fields fs rs) (λ gs. ok (obj gs))
            (resolve_fields-Settles fs s (and_then-none _ _ (rw plain at h)).1) (λ gs. tt))
    ]

    resolve_items-Settles :
        (xs : Items) (s : Option PropertySchema)
        → validate_template_items re_match xs s (length rs) ≡ none
        → Settles (resolve_items xs rs)
    resolve_items-Settles nil s h = tt
    resolve_items-Settles (cons v xs) s h =
        let (head, rest) = and_then-none _ _ h in
        Settles-bind (resolve v rs) (λ w. resolve_items xs rs >>= λ ys. ok (cons w ys))
          (resolve-Settles v s head)
          (λ w.
            Settles-bind (resolve_items xs rs) (λ ys. ok (cons w ys))
              (resolve_items-Settles xs s rest) (λ ys. tt))

    resolve_fields-Settles :
        (fs : Fields) (s : Option PropertySchema)
        → validate_template_fields re_match fs s (length rs) ≡ none
        → Settles (resolve_fields fs rs)
    resolve_fields-Settles end s h = tt
    resolve_fields-Settles (field k v fs) s h =
        let (head, rest) = and_then-none _ _ h in
        Settles-bind (resolve v rs) (λ w. resolve_fields fs rs >>= λ gs. ok (field k w gs))
          (resolve-Settles v (of_key re_match s k) head)
          (λ w.
            Settles-bind (resolve_fields fs rs) (λ gs. ok (field k w gs))
              (resolve_fields-Settles fs s rest) (λ gs. tt))

  -- Arguments that passed the validation for the step that comes next fail to resolve in one way
  -- only: a reference names a part that the earlier result does not have.
  pub resolve-error :
      (v : Value) (s : Option PropertySchema) (e : PlanningError)
      → validate_template re_match v s (length rs) ≡ none
      → resolve v rs ≡ planning_error e
      → e ≡ unresolved_reference
  resolve-error v s e valid h = subst Settles h (resolve-Settles v s valid)

-- No dict in the value has the key "$ref".
unfoldable mutual
  pub NoReference : Value → Type 0
  NoReference null = Unit
  NoReference (bool b) = Unit
  NoReference (int n) = Unit
  NoReference (float m k) = Unit
  NoReference (str s) = Unit
  NoReference (arr xs) = NoReferenceItems xs
  NoReference (obj fs) = (is_reference fs ≡ false) × NoReferenceFields fs

  pub NoReferenceItems : Items → Type 0
  NoReferenceItems nil = Unit
  NoReferenceItems (cons v xs) = NoReference v × NoReferenceItems xs

  pub NoReferenceFields : Fields → Type 0
  NoReferenceFields end = Unit
  NoReferenceFields (field k v fs) = NoReference v × NoReferenceFields fs

mutual
  unfolding resolve NoReference

  literal : (v : Value) (rs : List Fields) → NoReference v → resolve v rs ≡ ok v
  literal null rs h = refl
  literal (bool b) rs h = refl
  literal (int n) rs h = refl
  literal (float m k) rs h = refl
  literal (str s) rs h = refl
  literal (arr xs) rs h = rw (literal_items xs rs h) refl
  literal (obj fs) rs h = rw (h.0, literal_fields fs rs h.1) refl

  literal_items :
      (xs : Items) (rs : List Fields) → NoReferenceItems xs → resolve_items xs rs ≡ ok xs
  literal_items nil rs h = refl
  literal_items (cons v xs) rs h = rw (literal v rs h.0, literal_items xs rs h.1) refl

  literal_fields :
      (fs : Fields) (rs : List Fields) → NoReferenceFields fs → resolve_fields fs rs ≡ ok fs
  literal_fields end rs h = refl
  literal_fields (field k v fs) rs h = rw (literal v rs h.0, literal_fields fs rs h.1) refl

-- A value without references resolves to itself, whatever the results are.
pub resolve-literal : (v : Value) (rs : List Fields) → NoReference v → resolve v rs ≡ ok v
resolve-literal v rs h = literal v rs h
