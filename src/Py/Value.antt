-- ===== src/Py/Value.antt =====
-- The values that `json.loads` returns. Fractional numbers are left out: no modelled file holds one.
use afk_pipeline.Prelude.{
  ℤ, pos, eq_ℤ, String, Bool, true, false, ◌&&◌, Option, none, some, List, [], ◌∷◌, ◌==◌, ℕ, length,
  any, all, str_eq, if◌then◌else◌,
}

mutual
  pub data Value : Type 0 where
    null : Value
    bool : Bool → Value
    int : ℤ → Value
    str : String → Value
    list : Values → Value
    dict : Fields → Value

  pub data Values : Type 0 where
    nil : Values
    cons : Value → Values → Values

  -- A dict in the order of insertion; a key stands once.
  pub data Fields : Type 0 where
    end : Fields
    field : String → Value → Fields → Fields

abbrev pub items : Values → List Value
items nil = []
items (cons v vs) = v ∷ items vs

abbrev pub of_items : List Value → Values
of_items [] = nil
of_items (v ∷ vs) = cons v (of_items vs)

abbrev pub entries : Fields → List (String × Value)
entries end = []
entries (field k v fs) = (k, v) ∷ entries fs

-- d.get(k), as an option
abbrev pub lookup : String → Fields → Option Value
lookup k end = none
lookup k (field j v fs) = if str_eq j k then some v else lookup k fs

abbrev pub empty : Value
empty = dict end

-- v is True, v is False, v is None
abbrev pub is_true : Value → Bool
is_true (bool b) = b
is_true _ = false

abbrev pub is_false : Value → Bool
is_false (bool true) = false
is_false (bool false) = true
is_false _ = false

abbrev pub is_null : Value → Bool
is_null null = true
is_null _ = false

-- type(v) is int
abbrev pub is_int : Value → Bool
is_int (int n) = true
is_int _ = false

abbrev pub is_str : Value → Bool
is_str (str s) = true
is_str _ = false

abbrev pub is_list : Value → Bool
is_list (list vs) = true
is_list _ = false

abbrev pub is_dict : Value → Bool
is_dict (dict fs) = true
is_dict _ = false

-- v == s for a text s
abbrev pub is_text : Value → String → Bool
is_text (str t) s = str_eq t s
is_text _ s = false

-- v == n for a number n that is not negative; True == 1 and False == 0
abbrev pub is_number : Value → ℕ → Bool
is_number (int z) n = eq_ℤ z (pos n)
is_number (bool true) n = n == 1
is_number (bool false) n = n == 0
is_number _ n = false

-- bool(v)
abbrev pub truthy : Value → Bool
truthy null = false
truthy (bool b) = b
truthy (int z) = if eq_ℤ z (pos 0) then false else true
truthy (str s) = if str_eq s "" then false else true
truthy (list nil) = false
truthy (list (cons v vs)) = true
truthy (dict end) = false
truthy (dict (field k v fs)) = true

abbrev pub eq_bool_int : Bool → ℤ → Bool
eq_bool_int true z = eq_ℤ z (pos 1)
eq_bool_int false z = eq_ℤ z (pos 0)

abbrev pub eq_bool : Bool → Bool → Bool
eq_bool true b = b
eq_bool false true = false
eq_bool false false = true

abbrev eq_looked_up : (Value → Bool) → Option Value → Bool
eq_looked_up test none = false
eq_looked_up test (some v) = test v

-- a == b
unfoldable mutual
  pub py_eq : Value → Value → Bool
  py_eq null null = true
  py_eq (bool a) (bool b) = eq_bool a b
  py_eq (bool a) (int b) = eq_bool_int a b
  py_eq (int a) (bool b) = eq_bool_int b a
  py_eq (int a) (int b) = eq_ℤ a b
  py_eq (str a) (str b) = str_eq a b
  py_eq (list a) (list b) = eq_values a b
  py_eq (dict a) (dict b) = length (entries a) == length (entries b) && fields_in a b
  py_eq _ _ = false

  pub eq_values : Values → Values → Bool
  eq_values nil nil = true
  eq_values (cons a as') (cons b bs) = py_eq a b && eq_values as' bs
  eq_values _ _ = false

  -- every entry of the first dict is in the second
  pub fields_in : Fields → Fields → Bool
  fields_in end b = true
  fields_in (field k v fs) b = eq_looked_up (py_eq v) (lookup k b) && fields_in fs b

-- a set of values as a list: v in s, and s == t
abbrev pub member : Value → List Value → Bool
member v = any (py_eq v)

abbrev pub same_set : List Value → List Value → Bool
same_set s t = all (λ v. member v t) s && all (λ v. member v s) t
