-- ===== src/Py/Read.antt =====
-- Reading a JSON value: subscripts, `get`, iteration and membership, with the error that each raises
-- on a value of another type.
use Prim.Native.String.{[] as empty_text, ◌∷◌ as char_cons}
use afk_pipeline.Prelude.{String, Bool, true, false, Option, none, some, List, [], ◌∷◌, any, map}
use afk_pipeline.Py.Value.{Value, Fields, null, str, list, dict, items, entries, lookup, is_text}
use afk_pipeline.Py.Result.{Result, ok, err, key_error, type_error, attribute_error}

abbrev found : String → Option Value → Result Value
found k none = err (key_error k)
found k (some v) = ok v

-- v[k] for a text k
abbrev pub index : Value → String → Result Value
index (dict fs) k = found k (lookup k fs)
index _ k = err type_error

abbrev pub or_default : Value → Option Value → Value
or_default d none = d
or_default d (some v) = v

-- v.get(k, d)
abbrev pub get_or : Value → String → Value → Result Value
get_or (dict fs) k d = ok (or_default d (lookup k fs))
get_or _ k d = err attribute_error

-- v.get(k)
abbrev pub get : Value → String → Result Value
get v k = get_or v k null

abbrev is_found : Option Value → Bool
is_found none = false
is_found (some v) = true

-- k in v, for a dict v
abbrev pub has : Fields → String → Bool
has fs k = is_found (lookup k fs)

abbrev pub chars : String → List Value
chars empty_text = []
chars (char_cons c s) = str (char_cons c empty_text) ∷ chars s

-- for x in v
abbrev pub iter : Value → Result (List Value)
iter (list vs) = ok (items vs)
iter (dict fs) = ok (map (λ e. str e.0) (entries fs))
iter (str s) = ok (chars s)
iter _ = err type_error

-- v.items() and v.values()
abbrev pub dict_items : Value → Result (List (String × Value))
dict_items (dict fs) = ok (entries fs)
dict_items _ = err attribute_error

-- v in {"a", "b"}: a list and a dict have no hash
abbrev pub in_set : Value → List String → Result Bool
in_set (list vs) ts = err type_error
in_set (dict fs) ts = err type_error
in_set v ts = ok (any (is_text v) ts)
