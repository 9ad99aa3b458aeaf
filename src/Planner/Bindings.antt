-- ===== src/Planner/Bindings.antt =====
-- core/planner/bindings.py. The regular expression of a reference is read part by part.
pub mod Stability
pub mod Statics
use Prim.Native.Char.{code}
use kanna_pa.Prelude.{
  ℕ, ◌+◌, ◌-◌, ◌*◌, String, Bool, true, false, ◌&&◌, ◌||◌, Option, none, some, List, [], ◌∷◌,
  length, get_elem?, all_of, any_of, ltb, leb, ◌==◌, ◌=ₛ◌, if◌then◌else◌,
}
use kanna_pa.Value.{
  Value, null, bool, int, float, str, arr, obj, Items, nil, cons, Fields, end, field, get, has, nth,
}
use kanna_pa.Tools.Schema.{
  Schema, schema, no_properties, no_items, facets, properties, item_schema, PropertySchema, single,
  one_of, find_property, validate,
}
use kanna_pa.Planner.Plan.{
  PlanningError, malformed_reference, forward_reference, unresolved_reference, invalid, type_error,
  Planned, ok, planning_error, ◌>>=◌,
}

is_digit : ℕ → Bool
is_digit c = leb b'0' c && leb c b'9'

-- [A-Za-z0-9_]
is_word : ℕ → Bool
unfolding is_digit
is_word c = is_digit c || (leb b'A' c && leb c b'Z') || (leb b'a' c && leb c b'z') || c == b'_'

abbrev chars : String → List ℕ
chars String.[] = []
chars (String.◌∷◌ c s) = code c ∷ chars s

abbrev nonempty : List ℕ → Bool
nonempty [] = false
nonempty (c ∷ s) = true

-- ref.split(".")
split : String → List String
split String.[] = String.[] ∷ []
split (String.◌∷◌ c s) =
    let rest = split s in
    if code c == b'.'
    then String.[] ∷ rest
    else elim rest [ [] ↦ String.◌∷◌ c String.[] ∷ [] | p ∷ ps ↦ String.◌∷◌ c p ∷ ps ]

-- int(part), of decimal digits
decimal : ℕ → List ℕ → ℕ
decimal n [] = n
decimal n (c ∷ s) = decimal (n * 10 + (c - b'0')) s

is_decimal : String → Bool
unfolding is_digit
is_decimal s = nonempty (chars s) && all_of is_digit (chars s)

-- (0|[1-9][0-9]*)
is_step_index : List ℕ → Bool
unfolding is_digit
is_step_index [] = false
is_step_index (c ∷ []) = is_digit c
is_step_index (c ∷ s) = leb b'1' c && leb c b'9' && all_of is_digit s

-- (data|files_created|files_modified|metadata)
is_section : String → Bool
is_section s = any_of (λ t. t =ₛ s) ("data" ∷ "files_created" ∷ "files_modified" ∷ "metadata" ∷ [])

-- (\.[A-Za-z0-9_]+)*
is_key : String → Bool
unfolding is_word
is_key s = nonempty (chars s) && all_of is_word (chars s)

-- A reference to a part of an earlier step's result.
pub record Reference : Type 0 where
  pub step : ℕ
  pub parts : List String

parse_reference : List String → Planned Reference
unfolding is_step_index is_section is_key decimal
parse_reference (i ∷ section ∷ path) =
    if is_step_index (chars i) && is_section section && all_of is_key path
    then ok (record { step = decimal 0 (chars i); parts = section ∷ path })
    else planning_error malformed_reference
parse_reference _ = planning_error malformed_reference

-- `set(value) == {"$ref"}`, and the text at that key
lone_reference : Fields → Option String
lone_reference (field k (str s) end) = if k =ₛ "$ref" then some s else none
lone_reference _ = none

backward : ℕ → Reference → Planned Reference
backward index r = if ltb r.step index then ok r else planning_error forward_reference

-- A reference as it is written, wherever it points.
unfoldable pub written_reference : Fields → Planned Reference
unfolding parse_reference lone_reference split
written_reference fs = elim (lone_reference fs) [
  | none ↦ planning_error malformed_reference
  | some s ↦ parse_reference (split s)
]

unfoldable pub reference_parts : Fields → ℕ → Planned Reference
unfolding backward
reference_parts fs index = written_reference fs >>= backward index

abbrev pub is_reference : Fields → Bool
is_reference fs = has "$ref" fs

-- The error of a check that may raise, none where it does not.
abbrev pub error_of : Planned Reference → Option PlanningError
error_of (ok r) = none
error_of (planning_error e) = some e

infixr 20 ◌and_then◌
abbrev pub ◌and_then◌ : Option PlanningError → Option PlanningError → Option PlanningError
some e and_then next = some e
none and_then next = next

-- replace(schema, properties={}, items=None)
abbrev pub outermost : Schema → Schema
outermost s = schema (facets s) no_properties no_items

module _ (re_match : String → String → Bool) where
  -- Schema errors are caught by `validate_plan`, which adds the step's index. A OneOfSchema is no
  -- dataclass, so `replace` raises.
  abbrev shallow : Option PropertySchema → Value → ℕ → Option PlanningError
  shallow none v i = none
  shallow (some (one_of alts)) v i = some type_error
  shallow (some (single s)) v i = elim (validate re_match (outermost s) v) [
    | none ↦ none
    | some e ↦ some (invalid i e)
  ]

  -- Below a OneOfSchema nothing is looked at any more.
  abbrev of_key : Option PropertySchema → String → Option PropertySchema
  of_key none k = none
  of_key (some (single s)) k = find_property k (properties s)
  of_key (some (one_of alts)) k = none

  abbrev as_single : Option Schema → Option PropertySchema
  as_single none = none
  as_single (some s) = some (single s)

  abbrev of_item : Option PropertySchema → Option PropertySchema
  of_item none = none
  of_item (some (single s)) = as_single (item_schema s)
  of_item (some (one_of alts)) = none

  unfoldable mutual
    unfolding reference_parts validate

    pub validate_template : Value → Option PropertySchema → ℕ → Option PlanningError
    validate_template null s i = shallow s null i
    validate_template (bool b) s i = shallow s (bool b) i
    validate_template (int n) s i = shallow s (int n) i
    validate_template (float m k) s i = shallow s (float m k) i
    validate_template (str t) s i = shallow s (str t) i
    validate_template (arr xs) s i =
        shallow s (arr xs) i and_then validate_template_items xs (of_item s) i
    validate_template (obj fs) s i =
        if is_reference fs
        then error_of (reference_parts fs i)
        else shallow s (obj fs) i and_then validate_template_fields fs s i

    pub validate_template_items : Items → Option PropertySchema → ℕ → Option PlanningError
    validate_template_items nil s i = none
    validate_template_items (cons v xs) s i =
        validate_template v s i and_then validate_template_items xs s i

    pub validate_template_fields : Fields → Option PropertySchema → ℕ → Option PlanningError
    validate_template_fields end s i = none
    validate_template_fields (field k v fs) s i =
        validate_template v (of_key s k) i and_then validate_template_fields fs s i

-- The loop over `parts[1:]`: a key of a dict, or an index of a list.
unfoldable pub walk : List String → Value → Option Value
unfolding is_decimal decimal
walk [] v = some v
walk (p ∷ ps) (obj fs) = elim (get p fs) [ none ↦ none | some v ↦ walk ps v ]
walk (p ∷ ps) (arr xs) =
    if is_decimal p
    then (elim (nth xs (decimal 0 (chars p))) [ none ↦ none | some v ↦ walk ps v ])
    else none
walk (p ∷ ps) _ = none

unfoldable pub fetch : Reference → List Fields → Planned Value
unfolding walk
fetch r results = elim (get_elem? results r.step) [
  | none ↦ planning_error unresolved_reference
  | some result ↦ elim (walk r.parts (obj result)) [
    | none ↦ planning_error unresolved_reference
    | some v ↦ ok v
  ]
]

unfoldable mutual
  unfolding reference_parts fetch

  pub resolve : Value → List Fields → Planned Value
  resolve null results = ok null
  resolve (bool b) results = ok (bool b)
  resolve (int n) results = ok (int n)
  resolve (float m k) results = ok (float m k)
  resolve (str s) results = ok (str s)
  resolve (arr xs) results = resolve_items xs results >>= λ ys. ok (arr ys)
  resolve (obj fs) results =
      if is_reference fs
      then (reference_parts fs (length results) >>= λ r. fetch r results)
      else (resolve_fields fs results >>= λ gs. ok (obj gs))

  pub resolve_items : Items → List Fields → Planned Items
  resolve_items nil results = ok nil
  resolve_items (cons v xs) results =
      resolve v results >>= λ w. resolve_items xs results >>= λ ys. ok (cons w ys)

  pub resolve_fields : Fields → List Fields → Planned Fields
  resolve_fields end results = ok end
  resolve_fields (field k v fs) results =
      resolve v results >>= λ w. resolve_fields fs results >>= λ gs. ok (field k w gs)
