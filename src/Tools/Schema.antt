-- ===== src/Tools/Schema.antt =====
-- core/tools/schema.py: `Schema.validate` and `OneOfSchema.validate`. A OneOfSchema stands only at
-- a property of an object, as in the schemas of the tools. The match of a regular expression is a parameter. An
-- error is the path to the value and what is wrong with it, in place of the message text.
pub mod Conforms
use kanna_pa.Prelude.{
  ℕ, suc, ◌+◌, String, ◌≡◌, Bool, true, false, ◌&&◌, ◌||◌, not, Option, none, some, List, [], ◌∷◌,
  ◌++◌, any_of, arith, ◌==◌, ◌=ₛ◌, if◌then◌else◌,
}
use kanna_pa.Prelude.Int.{ℤ}
use kanna_pa.Value.{
  Value, bool, int, float, str, arr, obj, Items, nil, cons, Fields, end, field, Class, class_of,
  has, numeric, lt_num, eq_value,
}

-- The keys of `_TYPE_MAP`.
pub data SchemaType : Type 0 where
  object array string number integer boolean null : SchemaType

-- The fields of a schema that hold no further schema.
pub record Facets : Type 0 where
  pub type : SchemaType
  pub required : List String
  pub enum : Option (List Value)
  pub default : Value
  pub minimum : Option (ℤ × ℕ)
  pub maximum : Option (ℤ × ℕ)
  pub pattern : Option String
  pub description : String

mutual
  pub data Schema : Type 0 where
    schema : Facets → Properties → ItemSchema → Schema

  pub data Properties : Type 0 where
    no_properties : Properties
    property : String → Schema → Properties → Properties
    one_of_property : String → Alternatives → Properties → Properties

  -- The alternatives of a OneOfSchema.
  pub data Alternatives : Type 0 where
    no_alternatives : Alternatives
    alternative : Schema → Alternatives → Alternatives

  pub data ItemSchema : Type 0 where
    no_items : ItemSchema
    items : Schema → ItemSchema

abbrev pub facets : Schema → Facets
facets (schema f ps i) = f

abbrev pub properties : Schema → Properties
properties (schema f ps i) = ps

abbrev pub item_schema : Schema → Option Schema
item_schema (schema f ps no_items) = none
item_schema (schema f ps (items s)) = some s

-- What stands at a property: a Schema or a OneOfSchema.
pub data PropertySchema : Type 0 where
  single : Schema → PropertySchema
  one_of : Alternatives → PropertySchema

-- self.properties.get(key)
abbrev pub find_property : String → Properties → Option PropertySchema
find_property k no_properties = none
find_property k (property j s ps) = if j =ₛ k then some (single s) else find_property k ps
find_property k (one_of_property j alts ps) =
    if j =ₛ k then some (one_of alts) else find_property k ps

-- isinstance(value, _TYPE_MAP[type]): a boolean is an int
abbrev pub is_instance : Value → SchemaType → Bool
is_instance (obj fs) object = true
is_instance (arr xs) array = true
is_instance (str s) string = true
is_instance (int n) number = true
is_instance (float m k) number = true
is_instance (bool b) number = true
is_instance (int n) integer = true
is_instance (bool b) integer = true
is_instance (bool b) boolean = true
is_instance Value.null null = true
is_instance _ _ = false

abbrev pub is_numeric : SchemaType → Bool
is_numeric number = true
is_numeric integer = true
is_numeric _ = false

abbrev pub is_bool : Value → Bool
is_bool (bool b) = true
is_bool _ = false

pub data Segment : Type 0 where
  key : String → Segment
  index : ℕ → Segment

pub data Problem : Type 0 where
  got_boolean : SchemaType → Problem
  wrong_type : SchemaType → Class → Problem
  not_in_enum below_minimum above_maximum no_pattern_match : Problem
  missing_required : String → Problem
  no_alternative_fits : Class → Problem

pub record ValidationError : Type 0 where
  pub path : List Segment
  pub problem : Problem

-- A check raises, or comes to nothing and the next one is made.
infixr 20 ◌then_check◌
abbrev pub ◌then_check◌ : Option ValidationError → Option ValidationError → Option ValidationError
some e then_check next = some e
none then_check next = next

abbrev pub raise_if : Bool → List Segment → Problem → Option ValidationError
raise_if true path problem = some (record { path = path; problem = problem })
raise_if false path problem = none

abbrev pub below : Option (ℤ × ℕ) → Option (ℤ × ℕ) → Bool
below (some a) (some b) = lt_num a b
below (some a) none = false
below none b = false

abbrev pub outside_enum : Value → Option (List Value) → Bool
outside_enum v none = false
outside_enum v (some vs) = not (any_of (λ w. eq_value w v) vs)

unfoldable pub missing : List String → Fields → List Segment → Option ValidationError
missing [] fs path = none
missing (k ∷ ks) fs path =
    raise_if (not (has k fs)) path (missing_required k) then_check missing ks fs path

-- `OneOfSchema.validate`: the first alternative that does not raise ends it; `e` is its own error.
unfoldable pub check_alternatives :
    (Schema → Option ValidationError) → ValidationError → Alternatives → Option ValidationError
check_alternatives check e no_alternatives = some e
check_alternatives check e (alternative s rest) = elim (check s) [
  | none ↦ none
  | some _ ↦ check_alternatives check e rest
]

-- `prop_schema.validate(value[key])`, where there is one.
abbrev pub check_property :
    (Schema → Option ValidationError)
    → ValidationError
    → Option PropertySchema
    → Option ValidationError
check_property check e none = none
check_property check e (some (single s)) = check s
check_property check e (some (one_of alts)) = check_alternatives check e alts

abbrev pub is_string : SchemaType → Bool
is_string string = true
is_string _ = false

module _ (re_match : String → String → Bool) where
  abbrev pub misses_pattern : Value → Option String → Bool
  misses_pattern (str s) (some p) = not (re_match p s)
  misses_pattern _ _ = false

  -- The checks of `validate` above those of an object's and an array's parts.
  unfoldable pub check_scalar : Facets → Value → List Segment → Option ValidationError
  check_scalar f v path =
      raise_if (is_numeric f.type && is_bool v) path (got_boolean f.type)
      then_check raise_if (not (is_instance v f.type)) path (wrong_type f.type (class_of v))
      then_check raise_if (outside_enum v f.enum) path not_in_enum
      then_check raise_if (is_numeric f.type && below (numeric v) f.minimum) path below_minimum
      then_check raise_if (is_numeric f.type && below f.maximum (numeric v)) path above_maximum
      then_check raise_if (is_string f.type && misses_pattern v f.pattern) path no_pattern_match

  unfoldable mutual
    unfolding check_scalar missing check_alternatives

    pub validate_at : Value → Schema → List Segment → Option ValidationError
    validate_at Value.null s path = check_scalar (facets s) Value.null path
    validate_at (bool b) s path = check_scalar (facets s) (bool b) path
    validate_at (int n) s path = check_scalar (facets s) (int n) path
    validate_at (float m k) s path = check_scalar (facets s) (float m k) path
    validate_at (str t) s path = check_scalar (facets s) (str t) path
    validate_at (arr xs) s path =
        check_scalar (facets s) (arr xs) path then_check validate_items xs (item_schema s) path 0
    validate_at (obj fs) s path =
        check_scalar (facets s) (obj fs) path
        then_check missing (facets s).required fs path
        then_check validate_fields fs (properties s) path

    pub validate_items : Items → Option Schema → List Segment → ℕ → Option ValidationError
    validate_items nil o path i = none
    validate_items (cons v xs) o path i =
        elim o [ none ↦ none | some s ↦ validate_at v s (path ++ index i ∷ []) ]
        then_check validate_items xs o path (i + 1)

    pub validate_fields : Fields → Properties → List Segment → Option ValidationError
    validate_fields end ps path = none
    validate_fields (field k v fs) ps path =
        check_property (λ s. validate_at v s (path ++ key k ∷ []))
          (record { path = path ++ key k ∷ []; problem = no_alternative_fits (class_of v) })
          (find_property k ps)
        then_check validate_fields fs ps path

  -- `Schema.validate(value)`; none where it does not raise
  unfoldable pub validate : Schema → Value → Option ValidationError
  unfolding validate_at
  validate s v = validate_at v s []
