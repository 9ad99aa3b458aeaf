-- ===== src/Value.antt =====
-- Values of the JSON-like data that the program passes around: tool arguments, results, plans,
-- trust patterns. A float is a finite one, m / 2 ^ k.
use kanna_pa.Prelude.{
  ℕ, zero, suc, ◌^◌, String, Bool, true, false, ◌&&◌, not, Option, none, some, List, [], ◌∷◌, ◌==◌,
  ◌=ₛ◌, if◌then◌else◌,
}
use kanna_pa.Prelude.Int.{ℤ, pos, ◌*ℤ◌, ltb_ℤ, eqb_ℤ}

mutual
  pub data Value : Type 0 where
    null : Value
    bool : Bool → Value
    int : ℤ → Value
    float : ℤ → ℕ → Value
    str : String → Value
    obj : Fields → Value
    arr : Items → Value

  pub data Fields : Type 0 where
    end : Fields
    field : String → Value → Fields → Fields

  pub data Items : Type 0 where
    nil : Items
    cons : Value → Items → Items

-- The class of a value, as `type(value)`.
pub data Class : Type 0 where
  none_type bool_type int_type float_type str_type list_type dict_type : Class

abbrev pub class_of : Value → Class
class_of null = Class.none_type
class_of (bool b) = Class.bool_type
class_of (int n) = Class.int_type
class_of (float m k) = Class.float_type
class_of (str s) = Class.str_type
class_of (arr xs) = Class.list_type
class_of (obj fs) = Class.dict_type

abbrev class_code : Class → ℕ
class_code Class.none_type = 0
class_code Class.bool_type = 1
class_code Class.int_type = 2
class_code Class.float_type = 3
class_code Class.str_type = 4
class_code Class.list_type = 5
class_code Class.dict_type = 6

-- `type(a) is type(b)`
abbrev pub same_class : Value → Value → Bool
same_class v w = class_code (class_of v) == class_code (class_of w)

-- d.get(key), and d.get(key) with None for a missing key
abbrev pub get : String → Fields → Option Value
get k end = none
get k (field j v fs) = if j =ₛ k then some v else get k fs

abbrev pub or_null : Option Value → Value
or_null none = null
or_null (some v) = v

-- d.get(key, v)
abbrev pub or_default : Value → Option Value → Value
or_default d none = d
or_default d (some v) = v

abbrev pub has : String → Fields → Bool
has k fs = elim (get k fs) [ none ↦ false | some v ↦ true ]

abbrev pub keys : Fields → List String
keys end = []
keys (field k v fs) = k ∷ keys fs

abbrev pub size_fields : Fields → ℕ
size_fields end = 0
size_fields (field k v fs) = suc (size_fields fs)

abbrev pub nth : Items → ℕ → Option Value
nth nil i = none
nth (cons v xs) zero = some v
nth (cons v xs) (suc i) = nth xs i

abbrev pub to_list : Items → List Value
to_list nil = []
to_list (cons v xs) = v ∷ to_list xs

abbrev pub strings : List String → Items
strings [] = nil
strings (s ∷ ss) = cons (str s) (strings ss)

-- Numbers are exact: a boolean counts as 0 or 1.
abbrev pub numeric : Value → Option (ℤ × ℕ)
numeric (bool b) = some (if b then pos 1 else pos 0, 0)
numeric (int n) = some (n, 0)
numeric (float m k) = some (m, k)
numeric _ = none

abbrev pub lt_num : ℤ × ℕ → ℤ × ℕ → Bool
lt_num (a, j) (b, k) = ltb_ℤ (a *ℤ pos (2 ^ k)) (b *ℤ pos (2 ^ j))

abbrev pub eq_num : ℤ × ℕ → ℤ × ℕ → Bool
eq_num (a, j) (b, k) = eqb_ℤ (a *ℤ pos (2 ^ k)) (b *ℤ pos (2 ^ j))

abbrev eq_str : Value → Value → Bool
eq_str (str s) (str t) = s =ₛ t
eq_str null null = true
eq_str _ _ = false

abbrev eq_leaf : Value → Value → Bool
eq_leaf v w = elim (numeric v) [
  | none ↦ eq_str v w
  | some a ↦ elim (numeric w) [ none ↦ false | some b ↦ eq_num a b ]
]

-- Python's `==`: numbers by value whatever their class, lists item by item, dicts by key.
unfoldable mutual
  pub eq_value : Value → Value → Bool
  eq_value null w = eq_leaf null w
  eq_value (bool b) w = eq_leaf (bool b) w
  eq_value (int n) w = eq_leaf (int n) w
  eq_value (float m k) w = eq_leaf (float m k) w
  eq_value (str s) w = eq_leaf (str s) w
  eq_value (arr xs) w = elim w [ arr ys ↦ eq_items xs ys | _ ↦ false ]
  eq_value (obj fs) w = elim w [
    | obj gs ↦ (size_fields fs == size_fields gs) && sub_fields fs gs
    | _ ↦ false
  ]

  pub eq_items : Items → Items → Bool
  eq_items nil ys = elim ys [ nil ↦ true | _ ↦ false ]
  eq_items (cons x xs) ys = elim ys [ nil ↦ false | cons y ys' ↦ eq_value x y && eq_items xs ys' ]

  pub sub_fields : Fields → Fields → Bool
  sub_fields end gs = true
  sub_fields (field k v fs) gs =
      elim (get k gs) [ none ↦ false | some w ↦ eq_value v w ] && sub_fields fs gs

-- bool(value)
abbrev pub truthy : Value → Bool
truthy null = false
truthy (bool b) = b
truthy (int n) = not (eqb_ℤ n (pos 0))
truthy (float m k) = not (eqb_ℤ m (pos 0))
truthy (str s) = not (s =ₛ "")
truthy (arr nil) = false
truthy (arr (cons v xs)) = true
truthy (obj end) = false
truthy (obj (field k v fs)) = true

-- The pair (k, v) is an item of the dict.
pub data HasItem : String → Value → Fields → Type 0 where
  here : {k : String} {v : Value} {fs : Fields} → HasItem k v (field k v fs)
  there : {k j : String} {v w : Value} {fs : Fields} → HasItem k v fs → HasItem k v (field j w fs)

pub data InItems : Value → Items → Type 0 where
  first : {v : Value} {xs : Items} → InItems v (cons v xs)
  later : {v w : Value} {xs : Items} → InItems v xs → InItems v (cons w xs)
