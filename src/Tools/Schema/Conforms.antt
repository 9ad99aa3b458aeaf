-- ===== src/Tools/Schema/Conforms.antt =====
-- What `Schema.validate` accepts, described without its order of checks.
use kanna_pa.Prelude.{
  ℕ, ◌+◌, String, ◌≡◌, refl, ◌↔◌, ◌≢◌, subst, sym, ◌∙◌, Option-cases, inl, inr, Bool, true, false,
  ◌&&◌, Option, none, some, List, [], ◌∷◌, ◌++◌, All, arith,
}
use kanna_pa.Value.{
  Value, bool, int, float, str, arr, obj, Items, nil, cons, Fields, end, field, has, HasItem, here,
  there, InItems, first, later, numeric, class_of,
}
use kanna_pa.Tools.Schema.{
  Facets, Schema, Properties, Alternatives, no_alternatives, alternative, PropertySchema, single,
  one_of, check_alternatives, check_property, no_alternative_fits, Segment, key, index,
  ValidationError, facets, properties, item_schema, find_property, is_instance, is_numeric, is_bool,
  below, outside_enum, misses_pattern, missing, check_scalar, ◌then_check◌, validate_at,
  validate_items, validate_fields, validate, is_string,
}

-- One of the schemas that stand at a property.
pub data Admits : PropertySchema → Schema → Type 0 where
  admits_single : (s : Schema) → Admits (single s) s
  admits_first : (s : Schema) (alts : Alternatives) → Admits (one_of (alternative s alts)) s
  admits_later :
      (s t : Schema) (alts : Alternatives)
      → Admits (one_of alts) t
      → Admits (one_of (alternative s alts)) t

module _ (check : Schema → Option ValidationError) (e : ValidationError) where
  alternatives→Admits :
      (alts : Alternatives)
      → check_alternatives check e alts ≡ none
      → (s : Schema) × Admits (one_of alts) s × (check s ≡ none)
  unfolding check_alternatives
  alternatives→Admits no_alternatives h = cc
  alternatives→Admits (alternative s rest) h = elim (Option-cases (check s)) [
    | inl fine ↦ (s, admits_first s rest, fine)
    | inr (x, bad) ↦
        let (t, m, fine) = alternatives→Admits rest (sym (rw (bad, check_alternatives) refl) ∙ h) in
        (t, admits_later s t rest m, fine)
  ]

  -- A property is fine if one of its schemas is.
  property→Admits :
      (p : PropertySchema)
      → check_property check e (some p) ≡ none
      → (s : Schema) × Admits p s × (check s ≡ none)
  property→Admits (single s) h = (s, admits_single s, h)
  property→Admits (one_of alts) h = alternatives→Admits alts h

  Admits→property :
      (p : PropertySchema) (s : Schema)
      → Admits p s
      → check s ≡ none
      → check_property check e (some p) ≡ none
  unfolding check_alternatives
  Admits→property _ _ (admits_single s) h = h
  Admits→property _ _ (admits_first s alts) h = rw (h, check_alternatives) refl
  Admits→property _ _ (admits_later s t alts m) h = elim (Option-cases (check s)) [
    | inl fine ↦ rw (fine, check_alternatives) refl
    | inr (x, bad) ↦ rw (bad, check_alternatives) (Admits→property (one_of alts) t m h)
  ]

module _ (re_match : String → String → Bool) where
  -- The type, the enumeration, the bounds and the pattern.
  pub record Fits (f : Facets) (v : Value) : Type 0 where
    pub of_type : is_instance v f.type ≡ true
    pub not_boolean : (is_numeric f.type && is_bool v) ≡ false
    pub in_enum : outside_enum v f.enum ≡ false
    pub above : (is_numeric f.type && below (numeric v) f.minimum) ≡ false
    pub under : (is_numeric f.type && below f.maximum (numeric v)) ≡ false
    pub matches : (is_string f.type && misses_pattern re_match v f.pattern) ≡ false

  -- An array's items conform to the item schema if there is one; an object has the required keys,
  -- and the value at a key with a schema conforms to it, or to one of its alternatives. Other keys
  -- are free.
  mutual
    pub data Conforms : Schema → Value → Type 0 where
      conforms :
          (s : Schema) (v : Value)
          → Fits (facets s) v
          → ((xs : Items) (sub : Schema) (w : Value)
              → v ≡ arr xs
              → item_schema s ≡ some sub
              → InItems w xs
              → Conforms sub w)
          → ((fs : Fields) → v ≡ obj fs → All (λ k. has k fs ≡ true) (facets s).required)
          → ((fs : Fields) (k : String) (p : PropertySchema) (w : Value)
              → v ≡ obj fs
              → find_property k (properties s) ≡ some p
              → HasItem k w fs
              → Meets p w)
          → Conforms s v

    pub data Meets : PropertySchema → Value → Type 0 where
      meets : (p : PropertySchema) (s : Schema) (v : Value) → Admits p s → Conforms s v → Meets p v

  check_scalar→Fits :
      (f : Facets) (v : Value) (path : List Segment)
      → check_scalar re_match f v path ≡ none
      → Fits f v
  unfolding check_scalar
  check_scalar→Fits f v path h = ground arith

  Fits→check_scalar :
      (f : Facets) (v : Value) (path : List Segment)
      → Fits f v
      → check_scalar re_match f v path ≡ none
  unfolding check_scalar
  Fits→check_scalar f v path h = ground arith

  missing→All :
      (ks : List String) (fs : Fields) (path : List Segment)
      → missing ks fs path ≡ none
      → All (λ k. has k fs ≡ true) ks
  unfolding missing
  missing→All [] fs path h = tt
  missing→All (k ∷ ks) fs path h = (ground arith, missing→All ks fs path (ground arith))

  All→missing :
      (ks : List String) (fs : Fields) (path : List Segment)
      → All (λ k. has k fs ≡ true) ks
      → missing ks fs path ≡ none
  unfolding missing
  All→missing [] fs path h = refl
  All→missing (k ∷ ks) fs path h = ground (arith, All→missing ks fs path h.1)

  then_check-none :
      (a b : Option ValidationError) → (a then_check b) ≡ none → (a ≡ none) × (b ≡ none)
  then_check-none a b h = ground arith

  plain :
      (s : Schema) (v : Value) (path : List Segment)
      → ((xs : Items) → v ≢ arr xs)
      → ((fs : Fields) → v ≢ obj fs)
      → check_scalar re_match (facets s) v path ≡ none
      → Conforms s v
  plain s v path no_arr no_obj h =
      conforms s v (check_scalar→Fits (facets s) v path h) (λ xs sub w e. absurd (no_arr xs e))
        (λ fs e. absurd (no_obj fs e)) (λ fs k p w e. absurd (no_obj fs e))

  arr-injective : (xs ys : Items) → arr xs ≡ arr ys → xs ≡ ys
  arr-injective xs ys e = cc

  obj-injective : (fs gs : Fields) → obj fs ≡ obj gs → fs ≡ gs
  obj-injective fs gs e = cc

  head_checked :
      (k : String) (v : Value) (fs : Fields) (ps : Properties) (path : List Segment)
      (p : PropertySchema)
      → find_property k ps ≡ some p
      → validate_fields re_match (field k v fs) ps path ≡ none
      → (s : Schema) × Admits p s × (validate_at re_match v s (path ++ key k ∷ []) ≡ none)
  unfolding validate_at
  head_checked k v fs ps path p e h =
      let check : Schema → Option ValidationError =
        λ s. validate_at re_match v s (path ++ key k ∷ []) in
      let own : ValidationError = record {
        path = path ++ key k ∷ [];
        problem = no_alternative_fits (class_of v);
      } in
      property→Admits check own p
        (subst (λ o. check_property check own o ≡ none) e (then_check-none _ _ h).0)

  mutual
    unfolding validate_at

    sound :
        (v : Value) (s : Schema) (path : List Segment)
        → validate_at re_match v s path ≡ none
        → Conforms s v
    sound Value.null s path h = plain s Value.null path (λ _ e. cc) (λ _ e. cc) h
    sound (bool b) s path h = plain s (bool b) path (λ _ e. cc) (λ _ e. cc) h
    sound (int n) s path h = plain s (int n) path (λ _ e. cc) (λ _ e. cc) h
    sound (float m k) s path h = plain s (float m k) path (λ _ e. cc) (λ _ e. cc) h
    sound (str t) s path h = plain s (str t) path (λ _ e. cc) (λ _ e. cc) h
    sound (arr xs) s path h =
        let (scalar, rest) = then_check-none _ _ h in
        conforms s (arr xs) (check_scalar→Fits (facets s) (arr xs) path scalar)
          (λ ys sub w e i m.
            sound_items xs (item_schema s) path 0 rest sub w i
              (subst (InItems w) (sym (arr-injective xs ys e)) m))
          (λ fs e. cc) (λ fs k p w e. cc)
    sound (obj fs) s path h =
        let (scalar, rest) = then_check-none _ _ h in
        let (present, inner) = then_check-none _ _ rest in
        conforms s (obj fs) (check_scalar→Fits (facets s) (obj fs) path scalar) (λ ys sub w e. cc)
          (λ gs e.
            subst (λ t. All (λ k. has k t ≡ true) (facets s).required) (obj-injective fs gs e)
              (missing→All (facets s).required fs path present))
          (λ gs k p w e found m.
            sound_fields fs (properties s) path inner k p w found
              (subst (HasItem k w) (sym (obj-injective fs gs e)) m))

    sound_items :
        (xs : Items) (o : Option Schema) (path : List Segment) (i : ℕ)
        → validate_items re_match xs o path i ≡ none
        → (sub : Schema) (w : Value) → o ≡ some sub
        → InItems w xs
        → Conforms sub w
    sound_items nil o path i h sub w e m = elim m [ ]
    sound_items (cons v xs) none path i h sub w e m = cc
    sound_items (cons v xs) (some s) path i h sub w e first =
        let same : s ≡ sub = cc in
        subst (λ t. Conforms t v) same (sound v s (path ++ index i ∷ []) (then_check-none _ _ h).0)
    sound_items (cons v xs) (some s) path i h sub w e (later m) =
        sound_items xs (some s) path (i + 1) (then_check-none _ _ h).1 sub w e m

    sound_fields :
        (fs : Fields) (ps : Properties) (path : List Segment)
        → validate_fields re_match fs ps path ≡ none
        → (k : String) (p : PropertySchema) (w : Value) → find_property k ps ≡ some p
        → HasItem k w fs
        → Meets p w
    sound_fields end ps path h k p w e m = elim m [ ]
    sound_fields (field k v fs) ps path h k' p w e here =
        let (s, m, fine) = head_checked k v fs ps path p e h in
        meets p s v m (sound v s (path ++ key k ∷ []) fine)
    sound_fields (field k v fs) ps path h k' p w e (there m) =
        sound_fields fs ps path (then_check-none _ _ h).1 k' p w e m

  scalar_of : {s : Schema} {v : Value} → Conforms s v → Fits (facets s) v
  scalar_of (conforms s v f i r p) = f

  items_of :
      {s : Schema} {v : Value}
      → Conforms s v
      → (xs : Items) (sub : Schema) (w : Value) → v ≡ arr xs
      → item_schema s ≡ some sub
      → InItems w xs
      → Conforms sub w
  items_of (conforms s v f i r p) = i

  required_of :
      {s : Schema} {v : Value}
      → Conforms s v
      → (fs : Fields) → v ≡ obj fs
      → All (λ k. has k fs ≡ true) (facets s).required
  required_of (conforms s v f i r p) = r

  properties_of :
      {s : Schema} {v : Value}
      → Conforms s v
      → (fs : Fields) (k : String) (p : PropertySchema) (w : Value) → v ≡ obj fs
      → find_property k (properties s) ≡ some p
      → HasItem k w fs
      → Meets p w
  properties_of (conforms s v f i r p) = p

  met_by : {p : PropertySchema} {v : Value} → Meets p v → (s : Schema) × Admits p s × Conforms s v
  met_by (meets p s v m c) = (s, m, c)

  both_none : (a b : Option ValidationError) → a ≡ none → b ≡ none → (a then_check b) ≡ none
  both_none a b p q = ground arith

  mutual
    unfolding validate_at

    complete :
        (v : Value) (s : Schema) (path : List Segment)
        → Conforms s v
        → validate_at re_match v s path ≡ none
    complete Value.null s path c = Fits→check_scalar (facets s) Value.null path (scalar_of c)
    complete (bool b) s path c = Fits→check_scalar (facets s) (bool b) path (scalar_of c)
    complete (int n) s path c = Fits→check_scalar (facets s) (int n) path (scalar_of c)
    complete (float m k) s path c = Fits→check_scalar (facets s) (float m k) path (scalar_of c)
    complete (str t) s path c = Fits→check_scalar (facets s) (str t) path (scalar_of c)
    complete (arr xs) s path c =
        both_none _ _ (Fits→check_scalar (facets s) (arr xs) path (scalar_of c))
          (complete_items xs (item_schema s) path 0 (λ sub w. items_of c xs sub w refl))
    complete (obj fs) s path c =
        both_none _ _ (Fits→check_scalar (facets s) (obj fs) path (scalar_of c)) (
          both_none _ _ (All→missing (facets s).required fs path (required_of c fs refl))
            (complete_fields fs (properties s) path (λ k p w. properties_of c fs k p w refl)))

    complete_items :
        (xs : Items) (o : Option Schema) (path : List Segment) (i : ℕ)
        → ((sub : Schema) (w : Value) → o ≡ some sub → InItems w xs → Conforms sub w)
        → validate_items re_match xs o path i ≡ none
    complete_items nil o path i c = refl
    complete_items (cons v xs) none path i c =
        complete_items xs none path (i + 1) (λ sub w e m. c sub w e (later m))
    complete_items (cons v xs) (some s) path i c =
        both_none _ _ (complete v s (path ++ index i ∷ []) (c s v refl first))
          (complete_items xs (some s) path (i + 1) (λ sub w e m. c sub w e (later m)))

    complete_fields :
        (fs : Fields) (ps : Properties) (path : List Segment)
        → ((k : String) (p : PropertySchema) (w : Value)
            → find_property k ps ≡ some p
            → HasItem k w fs
            → Meets p w)
        → validate_fields re_match fs ps path ≡ none
    complete_fields end ps path c = refl
    complete_fields (field k v fs) ps path c =
        both_none _ _
          (elim (Option-cases (find_property k ps)) [
            | inl e ↦ rw e refl
            | inr (p, e) ↦
                let (s, m, fine) = met_by (c k p v e here) in
                rw e (
                  Admits→property (λ t. validate_at re_match v t (path ++ key k ∷ [])) _ p s m
                    (complete v s (path ++ key k ∷ []) fine))
          ])
          (complete_fields fs ps path (λ j p w e m. c j p w e (there m)))

  -- A value is accepted exactly when it conforms to the schema, at every depth.
  pub validate_iff : (s : Schema) (v : Value) → (validate re_match s v ≡ none) ↔ Conforms s v
  unfolding validate
  validate_iff s v = (sound v s [], complete v s [])
